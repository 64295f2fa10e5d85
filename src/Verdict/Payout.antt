-- ===== src/Verdict/Payout.antt =====
-- What a verdict pays: nothing but the measured gap of a built receipt that passed every gate.
use burnisher.Base.{
  ℕ, String, ◌≡◌, refl, ap, subst, ◌∙◌, ◌↔◌, Bool, true, false, Option, some, List, arith, or_else,
}
use burnisher.Base.Eq.{string_eq, nat_eq}
use burnisher.Base.Dict.{Dict}
use burnisher.Base.Result.{ok}
use burnisher.Base.Num.{Num, num, le, lt, lt-le}
use burnisher.Cells.{Coverage, Aggregate, Generation}
use burnisher.Receipt.{
  Status, is_crediting, decide_status, status_text, Score, CellScore, Provenance, Body, Receipt,
}
use burnisher.Receipt.Build.{IntervalSummary, credit_of, build_body, seal, verify_receipt}
use burnisher.Receipt.Decide.{Passes, read_status-status_text, decide_status-is_crediting}
use burnisher.Receipt.Verify.{verify_receipt-IsSound}
use burnisher.Verdict.{Verdict, or_unknown, read, credited, verdict_of, verdict}

read-named : (o : Option String) (st : Status) → o ≡ some (status_text st) → read o ≡ ok st
unfolding read
read-named o st h = rw h (ap or_unknown (read_status-status_text st))

module _ {R : Type 0} ⦃n : Num R⦄ (format_gap : R → String) where
  -- A verdict pays exactly when its status does and the credit is above zero, and then it pays the
  -- credit; otherwise it pays zero. No verdict pays a negative amount.
  pub verdict_of-payout :
      (r : Receipt R) (st : Status)
      → let v = verdict_of format_gap r st in
        ((v.pays ≡ true) ↔ ((is_crediting st ≡ true) × (lt (num 0) (credited r) ≡ true)))
        × (v.pays ≡ true → v.payout_fraction ≡ credited r)
        × (v.pays ≡ false → v.payout_fraction ≡ num 0)
        × (le (num 0) v.payout_fraction ≡ true)
  unfolding verdict_of
  verdict_of-payout r st = ground (arith, n.le_refl (num 0), lt-le (num 0) (credited r))

  verdict-named :
      (r : Receipt R) (st : Status)
      → r.status ≡ some (status_text st)
      → verdict format_gap r ≡ ok (verdict_of format_gap r st)
  unfolding verdict
  verdict-named r st h = rw (read-named r.status st h)

  resolved-verdict_of :
      (r : Receipt R) (st : Status) (s : Score R)
      → r.score ≡ some s
      → (verdict_of format_gap r st).resolved ≡ s.resolved
  unfolding verdict_of
  resolved-verdict_of r st s h = rw h

  -- A receipt that verifies and whose verdict pays was resolved, and is sealed by its digest.
  pub verdict-pays_sound :
      (hash : Body R → String) (r : Receipt R) (g : Option (Generation R)) (v : Verdict R)
      → verify_receipt hash r g ≡ ok tt
      → verdict format_gap r ≡ ok v
      → v.pays ≡ true
      → (v.resolved ≡ some true) × (r.content_digest ≡ some (hash r.body))
  verdict-pays_sound hash r g v verified judged pays =
      let (st, s, sound) = verify_receipt-IsSound hash r g verified in
      let same : v ≡ verdict_of format_gap r st = cc (verdict-named r st sound.named) in
      let crediting : is_crediting st ≡ true =
        ((verdict_of-payout r st).0.0 (subst (λ w. w.pays ≡ true) same pays)).0 in
      (rw same (resolved-verdict_of r st s sound.scored ∙ sound.resolved crediting), sound.sealed)

  module _ (hash : Body R → String) (g : Generation R) (per_cell : Dict String (CellScore R))
      (aggregate : Aggregate R) (interval : IntervalSummary R) (delta : Option R)
      (correctness : String) (determinism : Option Bool) (coverage : Coverage)
      (held_out : Option Bool) (provenance : Provenance) (pr : Option ℕ) (supersedes : List String)
      (supersede_reason : Option String) (timestamp : String) where
    abbrev built : Receipt R
    built =
        unfold build_body seal in
        seal hash (
          build_body g per_cell aggregate interval delta correctness determinism coverage held_out
            provenance pr supersedes supersede_reason timestamp)

    abbrev status : Status
    status =
        decide_status correctness determinism coverage.complete held_out
          (or_else interval.resolved false) aggregate.gap_closed (or_else delta (num 0))

    credited-built : is_crediting status ≡ true → credited built ≡ aggregate.gap_closed
    unfolding build_body seal credited credit_of
    credited-built h = rw h

    -- A receipt built from a run is paid exactly when every gate was passed and both the gap closed
    -- and the frontier's change are above zero, and then the payout is the gap closed.
    pub verdict-built :
        (v : Verdict R) × (verdict format_gap built ≡ ok v)
        × ((v.pays ≡ true) ↔ (
            Passes correctness determinism held_out coverage.complete
              (or_else interval.resolved false)
            × (lt (num 0) aggregate.gap_closed ≡ true)
            × (lt (num 0) (or_else delta (num 0)) ≡ true)))
        × (v.pays ≡ true → v.payout_fraction ≡ aggregate.gap_closed)
    unfolding build_body seal
    verdict-built =
        let (pays_iff, paid, _, _) = verdict_of-payout built status in
        let decides =
          decide_status-is_crediting correctness determinism coverage.complete held_out
            (or_else interval.resolved false) aggregate.gap_closed (or_else delta (num 0)) in
        (
          verdict_of format_gap built status,
          verdict-named built status refl,
          (
            λ h. decides.0 (pays_iff.0 h).0,
            λ h. pays_iff.1 (decides.1 h, rw (credited-built (decides.1 h)) h.1),
          ),
          λ h. paid h ∙ credited-built (pays_iff.0 h).0,
        )
