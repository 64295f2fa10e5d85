-- ===== src/Round/Winner.antt =====
-- The winner of a round in eval/round.py.
use burnisher.Base.{
  ◌≡◌, refl, sym, subst, ◌↔◌, ◌⊎◌, inl, inr, Bool, true, false, none, some, List, [], ◌∷◌, arith,
  if◌then◌else◌, keep, In, here, there, In-cons, All, keep-In, In-keep, All-of_In, or_else,
}
use burnisher.Base.Eq.{string_eq, nat_eq}
use burnisher.Base.Num.{Num, num, le, lt, lt-le}
use burnisher.PrBot.Evaluate.{EvalResult}
use burnisher.Round.{pays, best_of, first_best, decide_winner}

module _ {R : Type 0} ⦃n : Num R⦄ where
  abbrev paid : EvalResult R → R
  paid r = or_else r.payout_fraction (num 0)

  abbrev Leads : EvalResult R → EvalResult R → Type 0
  Leads w r = le (paid r) (paid w) ≡ true

  best_of-Leads : (w : EvalResult R) (rs : List (EvalResult R)) → Leads (best_of w rs) w
  unfolding best_of
  best_of-Leads w [] = n.le_refl (paid w)
  best_of-Leads w (r ∷ rs) =
      go (lt (paid w) (paid r)) refl (best_of-Leads r rs) (best_of-Leads w rs)
    where
      go :
          (b : Bool)
          → lt (paid w) (paid r) ≡ b
          → Leads (best_of r rs) r
          → Leads (best_of w rs) w
          → Leads (best_of (if b then r else w) rs) w
      go true e h k =
          n.le_trans (paid w) (paid r) (paid (best_of r rs)) (lt-le (paid w) (paid r) e) h
      go false e h k = k

  best_of-All : (w : EvalResult R) (rs : List (EvalResult R)) → All (λ r. Leads (best_of w rs) r) rs
  unfolding best_of
  best_of-All w [] = tt
  best_of-All w (r ∷ rs) =
      go (lt (paid w) (paid r)) refl (best_of-Leads r rs, best_of-All r rs)
        (best_of-Leads w rs, best_of-All w rs)
    where
      go :
          (b : Bool)
          → lt (paid w) (paid r) ≡ b
          → Leads (best_of r rs) r × All (λ x. Leads (best_of r rs) x) rs
          → Leads (best_of w rs) w × All (λ x. Leads (best_of w rs) x) rs
          → Leads (best_of (if b then r else w) rs) r
            × All (λ x. Leads (best_of (if b then r else w) rs) x) rs
      go true e h k = h
      go false e h k = (n.le_trans (paid r) (paid w) (paid (best_of w rs)) (ground arith) k.0, k.1)

  best_of-In : (w : EvalResult R) (rs : List (EvalResult R)) → In (best_of w rs) (w ∷ rs)
  unfolding best_of
  best_of-In w [] = here
  best_of-In w (r ∷ rs) = go (lt (paid w) (paid r)) (best_of-In r rs) (best_of-In w rs)
    where
      skip : {x : EvalResult R} → (x ≡ w) ⊎ In x rs → In x (w ∷ r ∷ rs)
      skip (inl e) = subst (λ z. In z (w ∷ r ∷ rs)) (sym e) here
      skip (inr i) = there (there i)

      go :
          (b : Bool)
          → In (best_of r rs) (r ∷ rs)
          → In (best_of w rs) (w ∷ rs)
          → In (best_of (if b then r else w) rs) (w ∷ r ∷ rs)
      go true i j = there i
      go false i j = skip (In-cons j)

  -- What the winner of a round is: one of its results, which pays, and none of those that pay is
  -- paid more.
  pub record IsBest (w : EvalResult R) (results : List (EvalResult R)) : Type 0 where
    pub member : In w results
    pub paying : pays w ≡ true
    pub largest :
        (r : EvalResult R)
        → In r results
        → pays r ≡ true
        → le (or_else r.payout_fraction (num 0)) (or_else w.payout_fraction (num 0)) ≡ true

  All-In :
      (P : EvalResult R → Type 0) (r : EvalResult R) (rs : List (EvalResult R))
      → All P rs
      → In r rs
      → P r
  All-In P r [] h i = elim i [ ]
  All-In P r (x ∷ xs) h here = h.0
  All-In P r (x ∷ xs) h (there i) = All-In P r xs h.1 i

  first_of :
      (r : EvalResult R) (rs results : List (EvalResult R))
      → keep pays results ≡ r ∷ rs
      → IsBest (best_of r rs) results
  first_of r rs results e =
      let (i, p) =
        keep-In pays results (subst (λ l. In (best_of r rs) l) (sym e) (best_of-In r rs)) in
      record {
        member = i;
        paying = p;
        largest = λ x j q.
            All-In (λ v. Leads (best_of r rs) v) x (r ∷ rs) (best_of-Leads r rs, best_of-All r rs)
              (subst (λ l. In x l) e (In-keep pays j q));
      }

  winner_from :
      (l results : List (EvalResult R))
      → keep pays results ≡ l
      → ((w : EvalResult R) → first_best l ≡ some w → IsBest w results)
        × (first_best l ≡ none ↔ All (λ r. pays r ≡ false) results)
  winner_from [] results e = (λ w h. cc, (λ h. All-of_In results (λ r i. none_left r i), λ h. refl))
    where
      none_left : (r : EvalResult R) → In r results → pays r ≡ false
      none_left r i = go (pays r) refl
        where
          go : (b : Bool) → pays r ≡ b → b ≡ false
          go false k = refl
          go true k = elim (subst (λ z. In r z) e (In-keep pays i k)) [ ]
  winner_from (r ∷ rs) results e = (
    λ w h. subst (λ z. IsBest z results) (cc) (first_of r rs results e),
    (λ h. cc, λ h. absurd h),
  )
    where
      absurd : All (λ r. pays r ≡ false) results → first_best (r ∷ rs) ≡ none
      absurd h =
          let best = first_of r rs results e in
          let no = All-In (λ v. pays v ≡ false) (best_of r rs) results h best.member in
          let yes = best.paying in cc

  -- When a round has a winner, it is one of the results, it pays, and no result that pays is paid
  -- more; when it has none, no result pays. A round always has one or the other.
  pub decide_winner-IsBest :
      (results : List (EvalResult R))
      → ((w : EvalResult R) → decide_winner results ≡ some w → IsBest w results)
        × (decide_winner results ≡ none ↔ All (λ r. pays r ≡ false) results)
  unfolding decide_winner
  decide_winner-IsBest results = winner_from (keep pays results) results refl
