-- ===== src/Receipt/Verify.antt =====
-- What a verified receipt is known to say, and that a built receipt verifies.
use burnisher.Base.{
  ℕ, String, ◌≡◌, refl, sym, ap, ◌∙◌, inl, inr, Bool, true, false, Option, none, some, List, arith,
  Bool-cases, or_else,
}
use burnisher.Base.Eq.{◌==◌, string_eq, nat_eq}
use burnisher.Base.Dict.{Dict, eq_self, eq_of_test}
use burnisher.Base.Result.{Result, ok, err, ◌>>◌, for_each}
use burnisher.Base.Num.{Num, num, num_eq}
use burnisher.Cells.{Coverage, Aggregate, Generation}
use burnisher.Receipt.{
  Status, status_text, read_status, is_crediting, decide_status, Score, CellScore, Provenance, Body,
  Receipt,
}
use burnisher.Receipt.Build.{
  IntervalSummary, ReceiptError, credit_of, build_body, seal, check_cell, check_generation,
  check_score, or_unknown, known_status, is_text, verify_receipt,
}
use burnisher.Receipt.Decide.{
  read_status-status_text, read_status-eq_some, decide_status-is_crediting,
}

then_ok : (m : Result ReceiptError (Unit {0})) → (m >> ok tt) ≡ m
then_ok (ok tt) = refl
then_ok (err e) = refl

known_status-status_text : (st : Status) → known_status (status_text st) ≡ ok st
unfolding known_status
known_status-status_text st = ap or_unknown (read_status-status_text st)

known_status-eq_ok : (s : String) (st : Status) → known_status s ≡ ok st → s ≡ status_text st
unfolding known_status
known_status-eq_ok s st h = read_status-eq_some s st (or_unknown-eq_ok (read_status s) h)
  where
    or_unknown-eq_ok : (o : Option Status) → or_unknown o ≡ ok st → o ≡ some st
    or_unknown-eq_ok none h = cc
    or_unknown-eq_ok (some x) h = cc

is_text-eq_true : (s : String) (o : Option String) → is_text s o ≡ true → o ≡ some s
is_text-eq_true s none h = cc
is_text-eq_true s (some t) h = ap some (eq_of_test t s h)

module _ {R : Type 0} ⦃n : Num R⦄ where
  -- What verification has established of a receipt with this status and score.
  pub record IsSound (hash : Body R → String) (r : Receipt R) (status : Status) (s : Score R)
      : Type 0 where
    pub sealed : r.content_digest ≡ some (hash r.body)
    pub named : r.status ≡ some (status_text status)
    pub scored : r.score ≡ some s
    pub measured : s.basis ≡ some "measured"
    pub uncredited :
        is_crediting status ≡ false → num_eq (or_else s.credited_gap_closed (num 0)) (num 0) ≡ true
    pub resolved : is_crediting status ≡ true → s.resolved ≡ some true

  -- the credit of a status that does not pay is zero
  credit_of_uncrediting :
      (st : Status) (gap : R) → is_crediting st ≡ false → credit_of st gap ≡ num 0
  unfolding credit_of
  credit_of_uncrediting st gap h = rw h

  check_receipt_built :
      (correctness : String) (determinism : Option Bool) (complete : Bool) (held_out : Option Bool)
      (resolved : Bool) (gap delta : R) (lower upper level : Option R)
      → let st = decide_status correctness determinism complete held_out resolved gap delta in
        check_score st (record {
          gap_closed = some gap;
          credited_gap_closed = some (credit_of st gap);
          lower = lower;
          upper = upper;
          level = level;
          resolved = some resolved;
          basis = some "measured";
        })
        ≡ ok tt
  unfolding check_score
  check_receipt_built correctness determinism complete held_out resolved gap delta lower upper
        level =
      let st = decide_status correctness determinism complete held_out resolved gap delta in
      elim (Bool-cases (is_crediting st)) [
        | inl pays ↦ rw (
          pays,
          ((decide_status-is_crediting correctness determinism complete held_out resolved gap
                delta).0
              pays).0.clear,
        )
        | inr not_paid ↦ rw (not_paid, credit_of_uncrediting st gap not_paid, n.le_refl (num 0))
      ]

  check_generation_built :
      (g : Generation R) (r : Receipt R)
      → r.benchmark_generation ≡ some g.name
      → r.generation_digest ≡ some g.digest
      → check_generation r (some g) ≡ ok tt
  unfolding check_generation
  check_generation_built g r e d = rw (e, d, eq_self g.name, eq_self g.digest)

  -- A receipt that was just built and sealed passes every check of verification but the one on its
  -- cells: verifying it returns what checking each cell in turn returns.
  pub verify_receipt-build_body :
      (hash : Body R → String) (g : Generation R) (per_cell : Dict String (CellScore R))
      (aggregate : Aggregate R) (interval : IntervalSummary R) (delta : Option R)
      (correctness : String) (determinism : Option Bool) (coverage : Coverage)
      (held_out : Option Bool) (provenance : Provenance) (pr : Option ℕ) (supersedes : List String)
      (supersede_reason : Option String) (timestamp : String)
      → verify_receipt hash
          (seal hash (
            build_body g per_cell aggregate interval delta correctness determinism coverage held_out
              provenance pr supersedes supersede_reason timestamp))
          (some g)
        ≡ for_each (λ e. check_cell e.1) per_cell
  unfolding verify_receipt seal build_body
  verify_receipt-build_body hash g per_cell aggregate interval delta correctness determinism
        coverage held_out provenance pr supersedes supersede_reason timestamp =
      let body =
        build_body g per_cell aggregate interval delta correctness determinism coverage held_out
          provenance pr supersedes supersede_reason timestamp in
      rw
        (
          known_status-status_text,
          verify_receipt,
          eq_self (hash body),
          check_receipt_built,
          check_generation_built g (seal hash body) refl refl,
        )
        (then_ok (for_each (λ e. check_cell e.1) per_cell))

  -- the parts that verification reads, when it succeeds
  verified_parts :
      (hash : Body R → String) (r : Receipt R) (g : Option (Generation R))
      → verify_receipt hash r g ≡ ok tt
      → (name : String) × (s : Score R) × (digest : String) × (st : Status) × (r.status ≡ some name)
        × (r.score ≡ some s)
        × (r.content_digest ≡ some digest)
        × (known_status name ≡ ok st)
        × ((hash r.body == digest) ≡ true)
        × (check_score st s ≡ ok tt)
  unfolding verify_receipt
  verified_parts hash r g h = ground arith

  check_score-eq_ok :
      (st : Status) (s : Score R)
      → check_score st s ≡ ok tt
      → (is_text "measured" s.basis ≡ true)
        × (is_crediting st ≡ false → num_eq (or_else s.credited_gap_closed (num 0)) (num 0) ≡ true)
        × (is_crediting st ≡ true → s.resolved ≡ some true)
  unfolding check_score
  check_score-eq_ok st s h = ground arith

  -- Whatever verifies is sealed by its digest, carries a known status and a measured score, credits
  -- nothing unless its status pays, and is resolved if it pays.
  pub verify_receipt-IsSound :
      (hash : Body R → String) (r : Receipt R) (g : Option (Generation R))
      → verify_receipt hash r g ≡ ok tt
      → (st : Status) × (s : Score R) × IsSound hash r st s
  verify_receipt-IsSound hash r g h =
      let (name, s, digest, st, has_name, has_score, has_digest, known, same, checked) =
        verified_parts hash r g h in
      let (basis, unpaid, clear) = check_score-eq_ok st s checked in
      (
        st,
        s,
        record {
          sealed = has_digest ∙ ap some (sym (eq_of_test (hash r.body) digest same));
          named = has_name ∙ ap some (known_status-eq_ok name st known);
          scored = has_score;
          measured = is_text-eq_true "measured" s.basis basis;
          uncredited = unpaid;
          resolved = clear;
        },
      )
