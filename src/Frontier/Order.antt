-- ===== src/Frontier/Order.antt =====
-- Points that are the same, above each other, and of a sorted set, in eval/burnscore/frontier.py.
use burnisher.Base.{
  ◌≡◌, refl, sym, subst, ◌⊎◌, inl, inr, Bool, true, false, not, ◌&&◌, List, [], ◌∷◌, arith,
  if◌then◌else◌, length, In, here, there, In-cons,
}
use burnisher.Base.Eq.{string_eq, nat_eq}
use burnisher.Base.Num.{Num}
use burnisher.Frontier.{all_ge, any_gt, same_point, before, insert_sorted, sorted_set}

module _ {R : Type 0} ⦃n : Num R⦄ where
  -- `o` is another point than `c`, nowhere below it and somewhere above it.
  abbrev pub beats : List R → List R → Bool
  beats o c = not (same_point o c) && (all_ge o c && any_gt o c)

  all_ge_trans :
      (a b c : List R)
      → length a ≡ length b
      → length b ≡ length c
      → all_ge a b ≡ true
      → all_ge b c ≡ true
      → all_ge a c ≡ true
  unfolding all_ge
  all_ge_trans [] b c p q h k = refl
  all_ge_trans (x ∷ a) b [] p q h k = refl
  all_ge_trans (x ∷ a) [] (z ∷ c) p q h k = ground (arith, p)
  all_ge_trans (x ∷ a) (y ∷ b) (z ∷ c) p q h k =
      ground
        (arith, h, k, n.le_trans z y x, all_ge_trans a b c (omega (arith, p)) (omega (arith, q)))

  -- a value that is nowhere below one that is somewhere above a third is somewhere above it too
  any_gt_trans :
      (a b c : List R)
      → length a ≡ length b
      → all_ge a b ≡ true
      → any_gt b c ≡ true
      → any_gt a c ≡ true
  unfolding all_ge any_gt
  any_gt_trans a [] c p h k = cc
  any_gt_trans a (y ∷ b) [] p h k = cc
  any_gt_trans [] (y ∷ b) (z ∷ c) p h k = ground (arith, p)
  any_gt_trans (x ∷ a) (y ∷ b) (z ∷ c) p h k =
      ground (arith, h, k, n.le_trans y x z, any_gt_trans a b c (omega (arith, p)))

  -- points that are the same are nowhere below each other
  same_point-all_ge : (a b : List R) → same_point a b ≡ true → all_ge a b ≡ true
  unfolding same_point all_ge
  same_point-all_ge [] b h = refl
  same_point-all_ge (x ∷ a) [] h = refl
  same_point-all_ge (x ∷ a) (y ∷ b) h = ground (arith, h, same_point-all_ge a b)

  same_point_refl : (a : List R) → same_point a a ≡ true
  unfolding same_point
  same_point_refl [] = refl
  same_point_refl (x ∷ a) = ground (arith, n.le_refl x, same_point_refl a)

  -- the same point as one that is above it somewhere is none
  not_above-same : (a c : List R) → any_gt a c ≡ true → same_point a c ≡ false
  unfolding any_gt same_point
  not_above-same [] c h = cc
  not_above-same (x ∷ a) [] h = cc
  not_above-same (x ∷ a) (z ∷ c) h = ground (arith, h, not_above-same a c)

  same_point_sym : (a b : List R) → same_point a b ≡ true → same_point b a ≡ true
  unfolding same_point
  same_point_sym [] [] h = refl
  same_point_sym [] (y ∷ b) h = cc
  same_point_sym (x ∷ a) [] h = cc
  same_point_sym (x ∷ a) (y ∷ b) h = ground (arith, h, same_point_sym a b)

  -- and one that is somewhere above a value is somewhere above what that is nowhere below
  gt_ge_trans :
      (a b c : List R)
      → length b ≡ length c
      → any_gt a b ≡ true
      → all_ge b c ≡ true
      → any_gt a c ≡ true
  unfolding all_ge any_gt
  gt_ge_trans [] b c q h k = cc
  gt_ge_trans (x ∷ a) [] c q h k = cc
  gt_ge_trans (x ∷ a) (y ∷ b) [] q h k = ground (arith, q)
  gt_ge_trans (x ∷ a) (y ∷ b) (z ∷ c) q h k =
      ground (arith, h, k, n.le_trans x z y, gt_ge_trans a b c (omega (arith, q)))

  abbrev pub Represented : List R → List (List R) → Type 0
  Represented p qs = (q : List R) × (In q qs × (same_point q p ≡ true))

  insert_sorted-Represented : (p : List R) (qs : List (List R)) → Represented p (insert_sorted p qs)
  unfolding insert_sorted
  insert_sorted-Represented p [] = (p, (here, same_point_refl p))
  insert_sorted-Represented p (q ∷ qs) =
      go (same_point p q) refl (before p q) (insert_sorted-Represented p qs)
    where
      go :
          (a : Bool)
          → same_point p q ≡ a
          → (b : Bool) → Represented p (insert_sorted p qs)
          → Represented p (if a then q ∷ qs else (if b then p ∷ q ∷ qs else q ∷ insert_sorted p qs))
      go true e b rec = (q, (here, same_point_sym p q e))
      go false e true rec = (p, (here, same_point_refl p))
      go false e false (r, (i, h)) = (r, (there i, h))

  insert_sorted-keeps : (x p : List R) (qs : List (List R)) → In x qs → In x (insert_sorted p qs)
  unfolding insert_sorted
  insert_sorted-keeps x p [] i = there i
  insert_sorted-keeps x p (q ∷ qs) i =
      go (same_point p q) (before p q) i (insert_sorted-keeps x p qs)
    where
      later :
          (x ≡ q) ⊎ In x qs → (In x qs → In x (insert_sorted p qs)) → In x (q ∷ insert_sorted p qs)
      later (inl e) rec = subst (λ z. In z (q ∷ insert_sorted p qs)) (sym e) here
      later (inr j) rec = there (rec j)

      go :
          (a b : Bool)
          → In x (q ∷ qs)
          → (In x qs → In x (insert_sorted p qs))
          → In x (if a then q ∷ qs else (if b then p ∷ q ∷ qs else q ∷ insert_sorted p qs))
      go true b i rec = i
      go false true i rec = there i
      go false false i rec = later (In-cons i) rec

  pub sorted_set-Represented :
      (p : List R) (ps : List (List R)) → In p ps → Represented p (sorted_set ps)
  unfolding sorted_set
  sorted_set-Represented p [] i = elim i [ ]
  sorted_set-Represented p (x ∷ ps) i = go (In-cons i) (sorted_set-Represented p ps)
    where
      go :
          (p ≡ x) ⊎ In p ps
          → (In p ps → Represented p (sorted_set ps))
          → Represented p (insert_sorted x (sorted_set ps))
      go (inl e) rec =
          subst (λ z. Represented z (insert_sorted x (sorted_set ps))) (sym e)
            (insert_sorted-Represented x (sorted_set ps))
      go (inr j) rec =
          let (q, (k, h)) = rec j in (q, (insert_sorted-keeps q x (sorted_set ps) k, h))

  -- a point that beats another, by its parts
  beats_parts : (a c : List R) → beats a c ≡ true → (all_ge a c ≡ true) × (any_gt a c ≡ true)
  beats_parts a c h = ground (arith, h)

  beats_of : (a c : List R) → all_ge a c ≡ true → any_gt a c ≡ true → beats a c ≡ true
  beats_of a c h k = ground (arith, h, k, not_above-same a c k)

  -- the same point beats the same
  pub beats-same :
      (a b c : List R)
      → length a ≡ length b
      → length b ≡ length c
      → same_point a b ≡ true
      → beats b c ≡ true
      → beats a c ≡ true
  beats-same a b c p q s h =
      let (ge, gt) = beats_parts b c h in
      beats_of a c (all_ge_trans a b c p q (same_point-all_ge a b s) ge)
        (any_gt_trans a b c p (same_point-all_ge a b s) gt)

  pub same-beats :
      (a b c : List R)
      → length a ≡ length b
      → length b ≡ length c
      → beats a b ≡ true
      → same_point b c ≡ true
      → beats a c ≡ true
  same-beats a b c p q h s =
      let (ge, gt) = beats_parts a b h in
      beats_of a c (all_ge_trans a b c p q ge (same_point-all_ge b c s))
        (gt_ge_trans a b c q gt (same_point-all_ge b c s))
