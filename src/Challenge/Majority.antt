-- ===== src/Challenge/Majority.antt =====
-- When eval/burnscore/challenge.py holds a credit.
use burnisher.Base.{
  ℕ, suc, String, ◌≤◌, ◌≡◌, refl, ap, ◌↔◌, Bool, true, false, not, List, [], ◌∷◌, ◌++◌, arith,
  if◌then◌else◌, length, keep, In, All, keep-In, In-keep, keep-append, length-append, ◌+◌, ◌*◌, ◌<◌,
}
use burnisher.Base.Eq.{string_eq, nat_eq}
use burnisher.Base.Num.{Num}
use burnisher.Challenge.{Disagreement, hold_status}

module _ {R : Type 0} ⦃n : Num R⦄ where
  split :
      (results : List (String × Disagreement R))
      → length (keep (λ r. not r.1.agree) results) + length (keep (λ r. r.1.agree) results)
        ≡ length results
  split [] = omega arith
  split (r ∷ rs) = ground (arith, split rs)

  -- how many challenges found no agreement
  abbrev pub dissent : List (String × Disagreement R) → ℕ
  dissent [] = 0
  dissent (r ∷ rs) = if r.1.agree then dissent rs else suc (dissent rs)

  dissent-length :
      (results : List (String × Disagreement R))
      → length (keep (λ r. not r.1.agree) results) ≡ dissent results
  dissent-length [] = refl
  dissent-length (r ∷ rs) = go r.1.agree (dissent-length rs)
    where
      go :
          (b : Bool)
          → length (keep (λ r. not r.1.agree) rs) ≡ dissent rs
          → length
              (if not b then r ∷ keep (λ r. not r.1.agree) rs else keep (λ r. not r.1.agree) rs)
            ≡ (if b then dissent rs else suc (dissent rs))
      go true e = e
      go false e = ap suc e

  -- A credit is held exactly when more than half of the challenges found no agreement. Those that are
  -- listed as disagreements are exactly these, and all the others are counted as confirmations.
  pub hold_status-majority :
      (results : List (String × Disagreement R))
      → let s = hold_status results in
        (s.held ≡ true ↔ length results < 2 * dissent results)
        × (dissent results + s.confirmations ≡ length results)
        × (s.challenges ≡ length results)
        × ((r : String × Disagreement R)
            → In r s.disagreements ↔ In r results × (r.1.agree ≡ false))
  unfolding hold_status
  hold_status-majority results =
      let same = dissent-length results in
      let all_counted = split results in
      (
        ground (arith, same, all_counted),
        ground (arith, same, all_counted),
        refl,
        λ r. (
          λ i. let (j, h) = keep-In (λ r. not r.1.agree) results i in (j, ground (arith, h)),
          λ (j, h). In-keep (λ r. not r.1.agree) j (ground (arith, h)),
        ),
      )

  agreeing :
      (more : List (String × Disagreement R))
      → All (λ r. r.1.agree ≡ true) more
      → (length (keep (λ r. not r.1.agree) more) ≡ 0)
        × (length (keep (λ r. r.1.agree) more) ≡ length more)
  agreeing [] h = (refl, refl)
  agreeing (r ∷ rs) h = ground (arith, agreeing rs h.1, h.0)

  -- A held credit is released by as many more challenges that agree with it as it has challenges.
  pub hold_status-release :
      (results more : List (String × Disagreement R))
      → All (λ r. r.1.agree ≡ true) more
      → length results ≤ length more
      → (hold_status (results ++ more)).held ≡ false
  unfolding hold_status
  hold_status-release results more h k = ground (
    arith,
    agreeing more h,
    split results,
    ap length (keep-append (λ r. r.1.agree) results more),
    ap length (keep-append (λ r. not r.1.agree) results more),
    length-append (keep (λ r. r.1.agree) results) (keep (λ r. r.1.agree) more),
    length-append (keep (λ r. not r.1.agree) results) (keep (λ r. not r.1.agree) more),
  )
