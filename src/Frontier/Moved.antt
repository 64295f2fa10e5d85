-- ===== src/Frontier/Moved.antt =====
-- What the change of a frontier says of the points that are lost and gained.
use burnisher.Base.{
  ◌≡◌, refl, sym, ap, subst, ◌∙◌, inl, inr, Bool, true, false, ◌||◌, List, [], ◌∷◌, if◌then◌else◌,
  In, here, there, In-cons,
}
use burnisher.Base.Eq.{string_eq, nat_eq}
use burnisher.Base.Result.{Result, ok, >>=-eq-ok}
use burnisher.Base.Num.{Num, num, lt, ◌-◌}
use burnisher.Frontier.{FrontierError, Objective, pareto_frontier, dominates, same_point}
use burnisher.Frontier.Volume.{
  Operating, FrontierDelta, points_of, hypervolume, is_covered, uncovered, frontier_delta,
}

same-ok : {A : Type 0} {x y : A} → ◌≡◌ {A = Result FrontierError A} (ok x) (ok y) → x ≡ y
same-ok h = cc

module _ {R : Type 0} ⦃n : Num R⦄ where
  -- No point of the list beats it or is the same.
  pub record IsOutside (p : List R) (points : List (List R)) : Type 0 where
    pub unbeaten :
        (q : List R) → In q points → (dominates q p ≡ ok false) × (same_point q p ≡ false)

  is_covered-IsOutside :
      (p : List R) (points : List (List R)) → is_covered p points ≡ ok false → IsOutside p points
  unfolding is_covered
  is_covered-IsOutside p [] h = record { unbeaten = λ q i. elim i [ ] }
  is_covered-IsOutside p (x ∷ xs) h =
      let (d, hd, h1) = >>=-eq-ok (dominates x p) _ h in
      let (missed, h2) = later d (same_point x p) h1 in
      let rest = is_covered-IsOutside p xs h2 in
      record {
        unbeaten = λ q i. elim (In-cons i) [
          | inl e ↦
              subst (λ z. (dominates z p ≡ ok false) × (same_point z p ≡ false)) (sym e)
                (hd ∙ ap ok missed.0, missed.1)
          | inr j ↦ rest.unbeaten q j
        ];
      }
    where
      later :
          (d s : Bool)
          → (if d || s then ok true else is_covered p xs) ≡ ok false
          → ((d ≡ false) × (s ≡ false)) × (is_covered p xs ≡ ok false)
      later true s h = cc
      later false true h = cc
      later false false h = ((refl, refl), h)

  -- The points that are left over are those that no point of the other list covers.
  uncovered-In :
      (ps points : List (List R)) {rest : List (List R)} {p : List R}
      → uncovered ps points ≡ ok rest
      → (In p rest → In p ps × (is_covered p points ≡ ok false))
        × (In p ps → is_covered p points ≡ ok false → In p rest)
  unfolding uncovered
  uncovered-In [] points {rest} {p} h =
      let same : [] ≡ rest = same-ok h in
      subst
        (λ z.
          (In p z → In p [] × (is_covered p points ≡ ok false))
          × (In p [] → is_covered p points ≡ ok false → In p z))
        same ((λ i. elim i [ ]), (λ i _. i))
  uncovered-In (x ∷ xs) points {rest} {p} h =
      let (c, hc, h1) = >>=-eq-ok (is_covered x points) _ h in
      let (tail, ht, h2) = >>=-eq-ok (uncovered xs points) _ h1 in
      let (from, to) = uncovered-In xs points {p = p} ht in
      subst
        (λ z.
          (In p z → In p (x ∷ xs) × (is_covered p points ≡ ok false))
          × (In p (x ∷ xs) → is_covered p points ≡ ok false → In p z))
        (same-ok h2) (cases c hc tail from to)
    where
      cases :
          (c : Bool)
          → is_covered x points ≡ ok c
          → (tail : List (List R)) → (In p tail → In p xs × (is_covered p points ≡ ok false))
          → (In p xs → is_covered p points ≡ ok false → In p tail)
          → (In p (if c then tail else x ∷ tail) → In p (x ∷ xs) × (is_covered p points ≡ ok false))
            × (In p (x ∷ xs) → is_covered p points ≡ ok false → In p (if c then tail else x ∷ tail))
      cases true hc tail from to = (
        (λ i. (there (from i).0, (from i).1)),
        (λ i f. elim (In-cons i) [
          | inl e ↦ covered (sym hc ∙ (ap (λ z. is_covered z points) (sym e) ∙ f))
          | inr j ↦ to j f
        ]),
      )
        where
          covered : ◌≡◌ {A = Result FrontierError Bool} (ok true) (ok false) → In p tail
          covered h = cc
      cases false hc tail from to = (
        (λ i. elim (In-cons i) [
          | inl e ↦ (subst (λ z. In z (x ∷ xs)) (sym e) here, ap (λ z. is_covered z points) e ∙ hc)
          | inr j ↦ (there (from j).0, (from j).1)
        ]),
        (λ i f. elim (In-cons i) [
          | inl e ↦ subst (λ z. In z (x ∷ tail)) (sym e) here
          | inr j ↦ there (to j f)
        ]),
      )

  -- What has moved between the points of two arms.
  pub record Moved (base cand : List (Operating R)) (objectives : List (Objective R))
      (reference : List R) (d : FrontierDelta R) : Type 0 where
    pub before : List (List R)
    pub after : List (List R)
    pub before_lem : points_of base objectives ≡ ok before
    pub after_lem : points_of cand objectives ≡ ok after
    pub front_before : List (List R)
    pub front_after : List (List R)
    pub front_before_lem : pareto_frontier before ≡ ok front_before
    pub front_after_lem : pareto_frontier after ≡ ok front_after
    pub volume_before : hypervolume before reference ≡ ok d.hypervolume_base
    pub volume_after : hypervolume after reference ≡ ok d.hypervolume_candidate
    pub expanded_lem : d.expanded ≡ lt (num 0) (d.hypervolume_candidate - d.hypervolume_base)
    pub lost : (p : List R) → In p d.frontier_points_lost → In p front_before × IsOutside p after
    pub gained :
        (p : List R) → In p d.frontier_points_gained → In p front_after × IsOutside p before
    pub kept :
        (p : List R)
        → In p front_before
        → is_covered p after ≡ ok false
        → In p d.frontier_points_lost
    pub found :
        (p : List R)
        → In p front_after
        → is_covered p before ≡ ok false
        → In p d.frontier_points_gained

  -- In a change of the frontier the volumes are those of the points of each arm, and it has expanded
  -- exactly when their difference is above zero. The points lost are those of the base's frontier that
  -- no point of the candidate beats or equals, all of them, and the points gained those of the
  -- candidate's frontier that no point of the base does.
  pub frontier_delta-Moved :
      (base cand : List (Operating R)) (objectives : List (Objective R)) (reference : List R)
      {d : FrontierDelta R}
      → frontier_delta base cand objectives reference ≡ ok d
      → Moved base cand objectives reference d
  unfolding frontier_delta
  frontier_delta-Moved base cand objectives reference h =
      let (b, hb, h1) = >>=-eq-ok (points_of base objectives) _ h in
      let (c, hc, h2) = >>=-eq-ok (points_of cand objectives) _ h1 in
      let (vb, hvb, h3) = >>=-eq-ok (hypervolume b reference) _ h2 in
      let (vc, hvc, h4) = >>=-eq-ok (hypervolume c reference) _ h3 in
      let (fb, hfb, h5) = >>=-eq-ok (pareto_frontier b) _ h4 in
      let (ls, hl, h6) = >>=-eq-ok (uncovered fb c) _ h5 in
      let (fc, hfc, h7) = >>=-eq-ok (pareto_frontier c) _ h6 in
      let (gs, hg, h8) = >>=-eq-ok (uncovered fc b) _ h7 in
      subst (Moved base cand objectives reference) (same-ok h8) (record {
        before = b;
        after = c;
        before_lem = hb;
        after_lem = hc;
        front_before = fb;
        front_after = fc;
        front_before_lem = hfb;
        front_after_lem = hfc;
        volume_before = hvb;
        volume_after = hvc;
        expanded_lem = refl;
        lost = λ p i. (
          ((uncovered-In fb c {p = p} hl).0 i).0,
          is_covered-IsOutside p c ((uncovered-In fb c {p = p} hl).0 i).1,
        );
        gained = λ p i. (
          ((uncovered-In fc b {p = p} hg).0 i).0,
          is_covered-IsOutside p b ((uncovered-In fc b {p = p} hg).0 i).1,
        );
        kept = λ p i f. (uncovered-In fb c {p = p} hl).1 i f;
        found = λ p i f. (uncovered-In fc b {p = p} hg).1 i f;
      })
