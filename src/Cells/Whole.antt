-- ===== src/Cells/Whole.antt =====
-- What it means that a run covers a generation in eval/burnscore/cells.py.
use burnisher.Base.{
  String, ◌≡◌, refl, sym, subst, ◌↔◌, ◌⊎◌, inl, inr, Bool, true, false, ◌&&◌, List, [], ◌∷◌, map,
  arith, is_empty, In, here, there, In-cons, keep-In, In-keep, is_some,
}
use burnisher.Base.Eq.{string_eq, nat_eq}
use burnisher.Base.Dict.{elem, minus, minus-In, In-minus}
use burnisher.Base.Sort.{sorted_texts, In-sort_by, sort_by-In, text_before}
use burnisher.Cells.{calibrated, values, Cell, Generation, scorable_cells, coverage}

In-map : {A B : Type 0} (f : A → B) {x : A} {xs : List A} → In x xs → In (f x) (map f xs)
In-map f here = here
In-map f (there i) = there (In-map f i)

map-In :
    {A B : Type 0} (f : A → B) (y : B) (xs : List A)
    → In y (map f xs)
    → (x : A) × In x xs × (f x ≡ y)
map-In f y [] i = elim i [ ]
map-In f y (x ∷ xs) i = go (In-cons i) (map-In f y xs)
  where
    later : ((z : _) × In z xs × (f z ≡ y)) → (z : _) × In z (x ∷ xs) × (f z ≡ y)
    later (z, j, e) = (z, there j, e)

    go :
        (y ≡ f x) ⊎ In y (map f xs)
        → (In y (map f xs) → (z : _) × In z xs × (f z ≡ y))
        → (z : _) × In z (x ∷ xs) × (f z ≡ y)
    go (inl e) rec = (x, here, sym e)
    go (inr j) rec = later (rec j)

empty-not_In : {A : Type 0} {P : Type 0} (x : A) (xs : List A) → is_empty xs ≡ true → In x xs → P
empty-not_In x [] h i = elim i [ ]
empty-not_In x (y ∷ ys) h i = cc

empty-of :
    {A : Type 0} (xs : List A) → ((x : A) → In x xs → is_empty xs ≡ true) → is_empty xs ≡ true
empty-of [] f = refl
empty-of (x ∷ xs) f = f x here

module _ {R : Type 0} where
  -- A cell of the generation that is implemented and has a measured fraction, a floor and a ceiling.
  pub record IsScorable (g : Generation R) (c : Cell R) : Type 0 where
    pub is_cell : In c (values g.cells)
    pub is_implemented : c.implemented ≡ true
    pub has_achieved : is_some c.achieved ≡ true
    pub has_floor : is_some c.floor_pct ≡ true
    pub has_ceiling : is_some c.ceiling_seconds ≡ true

  scorable_cells-IsScorable :
      (g : Generation R) (c : Cell R) → In c (scorable_cells g) → IsScorable g c
  unfolding scorable_cells calibrated
  scorable_cells-IsScorable g c i =
      let (j, h) = keep-In (λ (c : Cell R). c.implemented && calibrated c) (values g.cells) i in
      record {
        is_cell = j;
        is_implemented = ground (arith, h);
        has_achieved = ground (arith, h);
        has_floor = ground (arith, h);
        has_ceiling = ground (arith, h);
      }

  IsScorable-scorable_cells :
      (g : Generation R) (c : Cell R) → IsScorable g c → In c (scorable_cells g)
  unfolding scorable_cells calibrated
  IsScorable-scorable_cells g c s =
      In-keep (λ (c : Cell R). c.implemented && calibrated c) s.is_cell
        (ground (arith, s.is_implemented, s.has_achieved, s.has_floor, s.has_ceiling))

  -- A run covers a generation exactly when every cell of it that is implemented and has a measured
  -- fraction, a noise floor and a ceiling is among the scored ones, and the cells it reports missing are
  -- exactly those of them that are not.
  pub coverage_lem :
      (g : Generation R) (ids : List String)
      → ((coverage g ids).complete ≡ true ↔ ((c : Cell R) → IsScorable g c → elem c.id ids ≡ true))
        × ((cid : String)
            → In cid (coverage g ids).missing_cells
              ↔ ((c : Cell R) × IsScorable g c × (c.id ≡ cid)) × (elem cid ids ≡ false))
  unfolding coverage
  coverage_lem g ids = (
    (
      λ h c i. covered h c (IsScorable-scorable_cells g c i) (elem c.id ids) refl,
      λ f. empty-of missing (λ x i. uncovered (λ c j. f c (scorable_cells-IsScorable g c j)) x i),
    ),
    λ cid. (
      λ i. let ((c, j, e), m) = from_missing cid i in ((c, scorable_cells-IsScorable g c j, e), m),
      λ ((c, j, e), q). to_missing cid (c, IsScorable-scorable_cells g c j, e) q,
    ),
  )
    where
      want : List String
      want = map (λ c. c.id) (scorable_cells g)

      missing : List String
      missing = sorted_texts (minus want ids)

      covered :
          is_empty missing ≡ true
          → (c : Cell R) → In c (scorable_cells g)
          → (b : Bool) → elem c.id ids ≡ b
          → elem c.id ids ≡ true
      covered h c i true e = e
      covered h c i false e =
          empty-not_In c.id missing h
            (In-sort_by text_before (In-minus ids (In-map (λ c. c.id) i) e))

      from_missing :
          (cid : String)
          → In cid missing
          → ((c : Cell R) × In c (scorable_cells g) × (c.id ≡ cid)) × (elem cid ids ≡ false)
      from_missing cid i =
          let (j, e) = minus-In want ids (sort_by-In text_before (minus want ids) i) in
          (map-In (λ c. c.id) cid (scorable_cells g) j, e)

      to_missing :
          (cid : String)
          → ((c : Cell R) × In c (scorable_cells g) × (c.id ≡ cid))
          → elem cid ids ≡ false
          → In cid missing
      to_missing cid (c, i, e) q =
          In-sort_by text_before (In-minus ids (subst (λ z. In z want) e (In-map (λ c. c.id) i)) q)

      uncovered :
          ((c : Cell R) → In c (scorable_cells g) → elem c.id ids ≡ true)
          → (x : String) → In x missing
          → is_empty missing ≡ true
      uncovered f x i = let ((c, j, e), q) = from_missing x i in let yes = f c j in cc
