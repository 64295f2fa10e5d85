-- ===== src/Ledger/Totals.antt =====
-- The running totals of a generation: how much of the gap is left, and who is paid.
use burnisher.Base.{
  String, ◌≡◌, sym, ap, subst, ◌∙◌, Bool, true, false, not, Option, List, [], ◌∷◌, arith, keep,
  if-cases, All, keep-In, All-of_In, or_else, ◌&&◌, refl,
}
use burnisher.Base.Eq.{string_eq, nat_eq}
use burnisher.Base.Dict.{elem}
use burnisher.Base.Result.{ok, ◌>>=◌, >>=-eq-ok}
use burnisher.Base.Num.{Num, num, le, lt, min, ◌-◌, ◌*◌, lt-le}
use burnisher.Base.Sort.{sort_by-In, text_before}
use burnisher.Cells.{Generation}
use burnisher.Challenge.{Challenges, HoldStatus}
use burnisher.Receipt.{Receipt}
use burnisher.Ledger.{
  Entry, Current, superseded_by, canonical, credit_claimed, challenge_status, is_paid,
  status_credits, history_entry, compound, tally, totals, add_entry, current_of,
}

both : (a b c : Bool) → (a && b && not c) ≡ true → (a ≡ true) × (b ≡ true)
both true true c h = (refl, refl)
both true false c h = cc
both false b c h = cc

blocked : (a b c : Bool) → c ≡ true → (a && b && not c) ≡ false
blocked true true c h = rw h refl
blocked true false c h = refl
blocked false b c h = refl

module _ {R : Type 0} ⦃n : Num R⦄ where
  -- `min(c, 1.0)` of a credit above zero lies between 0 and 1.
  capped_credit :
      (c : R)
      → lt (num 0) c ≡ true
      → (le (num 0) (min c (num 1)) ≡ true) × (le (min c (num 1)) (num 1) ≡ true)
  capped_credit c h =
      ground (arith, n.of_ℕ_mono 0 1 (omega arith), n.le_refl (num 1), lt-le (num 0) c)

  shrink :
      (remaining c : R)
      → le (num 0) remaining ≡ true
      → lt (num 0) c ≡ true
      → (le (num 0) (remaining * (num 1 - min c (num 1))) ≡ true)
        × (le (remaining * (num 1 - min c (num 1))) remaining ≡ true)
  shrink remaining c left h =
      let (low, high) = capped_credit c h in
      let factor_low : le (num 0) (num 1 - min c (num 1)) ≡ true =
        n.sub_nonneg (min c (num 1)) (num 1) high in
      let factor_high : le (num 1 - min c (num 1)) (num 1) ≡ true =
        n.sub_le (min c (num 1)) (num 1) low in
      (
        n.mul_nonneg remaining (num 1 - min c (num 1)) left factor_low,
        n.mul_le remaining (num 1 - min c (num 1)) left factor_low factor_high,
      )

  is_paid-credit :
      (r : Receipt R) (held : Bool)
      → is_paid r held ≡ true
      → (status_credits r.status ≡ true) × (lt (num 0) (credit_claimed r) ≡ true)
  unfolding is_paid
  is_paid-credit r held h = both (status_credits r.status) (lt (num 0) (credit_claimed r)) held h

  is_paid-held : (r : Receipt R) (held : Bool) → held ≡ true → is_paid r held ≡ false
  unfolding is_paid
  is_paid-held r held h = blocked (status_credits r.status) (lt (num 0) (credit_claimed r)) held h

  -- One receipt leaves something between nothing and what there was.
  compound_bounds :
      (remaining : R) (r : Receipt R) (held : Bool)
      → le (num 0) remaining ≡ true
      → (le (num 0) (compound remaining r held) ≡ true)
        × (le (compound remaining r held) remaining ≡ true)
  unfolding compound
  compound_bounds remaining r held left =
      if-cases (λ x. (le (num 0) x ≡ true) × (le x remaining ≡ true)) (is_paid r held) _ _
        (λ paid. shrink remaining (credit_claimed r) left (is_paid-credit r held paid).1)
        (λ unpaid. (left, n.le_refl remaining))

  -- a step of the loop, taken apart
  tally-cons :
      (files : Challenges R) (name : String) (g : Option (Generation R)) (rid : String)
      (r : Receipt R) (rs : List (String × Receipt R)) (remaining final : R)
      (history : List (Entry R)) (held : List String)
      → tally files name g ((rid, r) ∷ rs) remaining ≡ ok (final, history, held)
      → (ch : HoldStatus R) × (later : List (Entry R)) × (rest : List String) × (tally files name g
            rs
            (compound remaining r ch.held)
          ≡ ok (final, later, rest))
        × (history ≡ history_entry rid r ch ∷ later)
  unfolding tally
  tally-cons files name g rid r rs remaining final history held h =
      let (ch, _, h1) =
        >>=-eq-ok (challenge_status files name rid r g)
          (λ ch.
            tally files name g rs (compound remaining r ch.held) >>= λ t. ok (add_entry rid r ch t))
          h in
      let (t, e, h2) =
        >>=-eq-ok (tally files name g rs (compound remaining r ch.held))
          (λ t. ok (add_entry rid r ch t)) h1 in
      (ch, t.1, t.2, e ∙ ap (λ f. ok (f, t.1, t.2)) (cc), cc)

  tally_bounds :
      (files : Challenges R) (name : String) (g : Option (Generation R))
      (rs : List (String × Receipt R)) (remaining final : R) (history : List (Entry R))
      (held : List String)
      → le (num 0) remaining ≡ true
      → tally files name g rs remaining ≡ ok (final, history, held)
      → (le (num 0) final ≡ true) × (le final remaining ≡ true)
  unfolding tally
  tally_bounds files name g [] remaining final history held left h =
      ground (arith, n.le_refl remaining)
  tally_bounds files name g ((rid, r) ∷ rs) remaining final history held left h =
      let (ch, later, rest, after, _) =
        tally-cons files name g rid r rs remaining final history held h in
      let (low, high) = compound_bounds remaining r ch.held left in
      let (low', high') =
        tally_bounds files name g rs (compound remaining r ch.held) final later rest low after in
      (low', n.le_trans final (compound remaining r ch.held) remaining high' high)

  -- What is kept of each entry: a receipt on hold is not paid, one that is paid has a crediting
  -- status and a credit above zero.
  pub record IsFair (h : Entry R) : Type 0 where
    pub held_unpaid : h.held ≡ true → h.paid ≡ false
    pub paid_credits :
        h.paid ≡ true → (status_credits h.status ≡ true) × (lt (num 0) h.credited_gap_closed ≡ true)

  history_entry-IsFair :
      (rid : String) (r : Receipt R) (ch : HoldStatus R) → IsFair (history_entry rid r ch)
  unfolding history_entry
  history_entry-IsFair rid r ch = record {
    held_unpaid = is_paid-held r ch.held;
    paid_credits = is_paid-credit r ch.held;
  }

  fresh_entry :
      (rid : String) (r : Receipt R) (ch : HoldStatus R) (gone : List String)
      → elem rid gone ≡ false
      → elem (history_entry rid r ch).receipt gone ≡ false
  unfolding history_entry
  fresh_entry rid r ch gone h = h

  tally-history :
      (files : Challenges R) (name : String) (g : Option (Generation R))
      (rs : List (String × Receipt R)) (gone : List String) (remaining final : R)
      (history : List (Entry R)) (held : List String)
      → All (λ e. elem e.0 gone ≡ false) rs
      → tally files name g rs remaining ≡ ok (final, history, held)
      → All (λ h. IsFair h × (elem h.receipt gone ≡ false)) history
  unfolding tally
  tally-history files name g [] gone remaining final history held fresh h =
      subst (All (λ h. IsFair h × (elem h.receipt gone ≡ false))) {x = []} (cc) tt
  tally-history files name g ((rid, r) ∷ rs) gone remaining final history held fresh h =
      let (ch, later, rest, after, same) =
        tally-cons files name g rid r rs remaining final history held h in
      let tail =
        tally-history files name g rs gone (compound remaining r ch.held) final later rest fresh.1
          after in
      subst (All (λ h. IsFair h × (elem h.receipt gone ≡ false))) (sym same)
        ((history_entry-IsFair rid r ch, fresh_entry rid r ch gone fresh.0), tail)

  canonical-fresh :
      (receipts : List (String × Receipt R))
      → All (λ e. elem e.0 (superseded_by receipts []) ≡ false) (canonical receipts)
  unfolding canonical
  canonical-fresh receipts = All-of_In (canonical receipts) (λ e i.
      let gone = superseded_by receipts [] in
      let (_, h) =
        keep-In (λ e. not (elem e.0 gone)) receipts
          (sort_by-In
            (λ a b. text_before (or_else a.1.timestamp_utc "") (or_else b.1.timestamp_utc ""))
            (keep (λ e. not (elem e.0 gone)) receipts) i) in
      ground arith)

  abbrev SoundTotals : List String → Current R → Type 0
  SoundTotals gone doc =
      (le (num 0) doc.gap_remaining_fraction ≡ true)
      × (le doc.gap_remaining_fraction (num 1) ≡ true)
      × (le (num 0) doc.gap_closed_cumulative ≡ true)
      × (le doc.gap_closed_cumulative (num 1) ≡ true)
      × All (λ h. IsFair h × (elem h.receipt gone ≡ false)) doc.history

  -- The totals of a generation that can be computed at all: the fraction of the gap that remains and
  -- the fraction closed both lie between 0 and 1, however many receipts were credited; no receipt on
  -- hold is paid, one that is paid has a crediting status and a credit above zero, and no entry of
  -- the history is of a superseded receipt.
  pub totals_sound :
      (files : Challenges R) (name : String) (g : Option (Generation R))
      (receipts : List (String × Receipt R)) (doc : Current R)
      → totals files name g receipts ≡ ok doc
      → (le (num 0) doc.gap_remaining_fraction ≡ true)
        × (le doc.gap_remaining_fraction (num 1) ≡ true)
        × (le (num 0) doc.gap_closed_cumulative ≡ true)
        × (le doc.gap_closed_cumulative (num 1) ≡ true)
        × All (λ h. IsFair h × (elem h.receipt (superseded_by receipts []) ≡ false)) doc.history
  unfolding totals current_of
  totals_sound files name g receipts doc h =
      let (t, e, same) =
        >>=-eq-ok (tally files name g (canonical receipts) (num 1))
          (λ t. ok (current_of name receipts t)) h in
      let (low, high) =
        tally_bounds files name g (canonical receipts) (num 1) t.0 t.1 t.2
          (n.of_ℕ_mono 0 1 (omega arith)) e in
      let fair =
        tally-history files name g (canonical receipts) (superseded_by receipts []) (num 1) t.0 t.1
          t.2 (canonical-fresh receipts) e in
      let done : current_of name receipts t ≡ doc = cc in
      subst (SoundTotals (superseded_by receipts [])) done (
        unfold current_of in
        (low, high, n.sub_nonneg t.0 (num 1) high, n.sub_le t.0 (num 1) low, fair))
