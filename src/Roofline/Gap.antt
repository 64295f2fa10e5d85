-- ===== src/Roofline/Gap.antt =====
-- The sign and the size of a gap closed.
use burnisher.Base.{
  ◌≡◌, refl, subst, ◌∙◌, inl, inr, Bool, true, false, Option, some, arith, if◌then◌else◌, if-cases,
  Bool-cases, or_else,
}
use burnisher.Base.Eq.{string_eq, nat_eq}
use burnisher.Base.Result.{Result, ok, ◌>>◌, require, raise_if, >>=-eq-ok}
use burnisher.Base.Num.{Num, num, le, lt, ◌-◌, ◌/◌}
use burnisher.Roofline.{
  RooflineError, not_a_duration, above_ceiling, achieved_fraction, full, saturation, gap_of,
  GapClosed, gap_closed,
}

module _ {R : Type 0} ⦃n : Num R⦄ where
  -- A fraction that is reached is the ceiling over a time above zero, and no more than the whole.
  pub achieved_fraction-bounds :
      (ceiling m : R) (a : Option R)
      → achieved_fraction ceiling (some m) ≡ ok a
      → (a ≡ some (ceiling / m)) × ((lt (num 0) m ≡ true) × (le (ceiling / m) full ≡ true))
  unfolding achieved_fraction
  achieved_fraction-bounds ceiling m a h = go (lt (num 0) m) refl (lt full (ceiling / m)) refl h
    where
      go :
          (p : Bool)
          → lt (num 0) m ≡ p
          → (q : Bool) → lt full (ceiling / m) ≡ q
          → (require p not_a_duration >> (raise_if q above_ceiling >> ok (some (ceiling / m))))
            ≡ ok a
          → (a ≡ some (ceiling / m)) × ((lt (num 0) m ≡ true) × (le (ceiling / m) full ≡ true))
      go false e q f h = cc
      go true e true f h = cc
      go true e false f h = (cc, (e, ground (arith, f)))

  -- What gap_of says, by which of the two times is the shorter.
  gap_of-sign :
      (ceiling base cand : R)
      → le (num 0) ceiling ≡ true
      → lt (num 0) base ≡ true
      → lt (num 0) cand ≡ true
      → (if le base cand
          then le (gap_of (ceiling / base) (ceiling / cand) base cand).gap_closed (num 0)
          else le (num 0) (gap_of (ceiling / base) (ceiling / cand) base cand).gap_closed)
        ≡ true
  gap_of-sign ceiling base cand c b d =
      let a_base = ceiling / base in
      let a_cand = ceiling / cand in
      let remaining = num 1 - a_base in
      if-cases (λ (t : Bool). t ≡ true) (le base cand) _ _
        (λ slower.
          if-cases (λ (g : GapClosed R). le g.gap_closed (num 0) ≡ true) (le remaining saturation) _
            _ (λ _. n.le_refl (num 0))
            (λ open_gap.
              n.div_nonpos (a_cand - a_base) remaining
                (n.sub_nonpos a_cand a_base (n.div_anti ceiling base cand c (above b) slower))
                (some_left open_gap)))
        (λ faster.
          if-cases (λ (g : GapClosed R). le (num 0) g.gap_closed ≡ true) (le remaining saturation) _
            _ (λ _. n.le_refl (num 0))
            (λ open_gap.
              n.div_nonneg (a_cand - a_base) remaining
                (n.sub_nonneg a_base a_cand
                  (n.div_anti ceiling cand base c (above d) (n.le_total base cand faster)))
                (some_left open_gap)))
    where
      above : {x : R} → lt (num 0) x ≡ true → le x (num 0) ≡ false
      above h = ground (arith, h)

      some_left : {x : R} → le x saturation ≡ false → le x (num 0) ≡ false
      some_left {x} h = elim (Bool-cases (le x (num 0))) [
        | inl e ↦
            let z = n.le_trans x (num 0) saturation e saturation_nonneg in ground (arith, h, z)
        | inr e ↦ e
      ]
        where
          saturation_nonneg : le {R = R} (num 0) saturation ≡ true
          saturation_nonneg =
              n.div_nonneg (num 1) (num 1000000000000) (n.of_ℕ_mono 0 1 (omega arith))
                (n.suc_pos 999999999999)

  -- A score has the sign of the change: with a ceiling that is not negative, a candidate that takes no
  -- less time than the base closes no gap, and one that takes less loses none. Both times are above
  -- zero, and neither reaches more than the whole ceiling, to one part in a billion.
  pub gap_closed-sign :
      (ceiling base cand : R) (g : GapClosed R)
      → le (num 0) ceiling ≡ true
      → gap_closed ceiling base cand ≡ ok g
      → ((if le base cand then le g.gap_closed (num 0) else le (num 0) g.gap_closed) ≡ true)
        × ((lt (num 0) base ≡ true)
            × ((lt (num 0) cand ≡ true)
                × ((le (ceiling / base) full ≡ true) × (le (ceiling / cand) full ≡ true))))
  unfolding gap_closed
  gap_closed-sign ceiling base cand g c h =
      let (a, ha, h1) = >>=-eq-ok (achieved_fraction ceiling (some base)) _ h in
      let (b, hb, h2) = >>=-eq-ok (achieved_fraction ceiling (some cand)) _ h1 in
      let (ea, (pa, fa)) = achieved_fraction-bounds ceiling base a ha in
      let (eb, (pb, fb)) = achieved_fraction-bounds ceiling cand b hb in
      let same : gap_of (ceiling / base) (ceiling / cand) base cand ≡ g = ap2 ea eb ∙ unwrap h2 in
      (
        subst
            (λ (z : GapClosed R).
              (if le base cand then le z.gap_closed (num 0) else le (num 0) z.gap_closed) ≡ true)
            same (gap_of-sign ceiling base cand c pa pb),
        (pa, (pb, (fa, fb))),
      )
    where
      unwrap :
          {x y : GapClosed R} → ◌≡◌ {A = Result RooflineError (GapClosed R)} (ok x) (ok y) → x ≡ y
      unwrap e = cc

      ap2 :
          {a b : Option R} {x y : R}
          → a ≡ some x
          → b ≡ some y
          → gap_of x y base cand ≡ gap_of (or_else a (num 0)) (or_else b (num 0)) base cand
      ap2 e f = rw (e, f) refl
