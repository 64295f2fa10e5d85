-- ===== src/Copycat/Slots.antt =====
-- What is placed in the slots of `judge`, and from where.
use burnisher.Base.{
  ℕ, ◌≤◌, ◌≡◌, refl, sym, ap, subst, ◌∙◌, inl, inr, Bool, true, false, ◌&&◌, ◌||◌, Option, none,
  some, List, [], ◌∷◌, arith, if◌then◌else◌, ltb, leb, In, here, there, In-cons,
}
use burnisher.Base.Eq.{string_eq, nat_eq}
use burnisher.Base.Num.{Num, le}
use burnisher.Copycat.{min_mass, tiny_min, embed_min}
use burnisher.Copycat.Judge.{
  Entry, found_copy, Kind, copy, contains_earlier, stacked, partial, tiny_identical, Row, t_copy,
  t_review, t_same, kind_of, tagged, same_kind, outcome_of_kind, Comparison, place_row, place_all,
  slot,
}

pub kind_of-copy :
    {R : Type 0} ⦃n : Num R⦄ (st : Bool) (m t s : ℕ) (a b : R)
    → kind_of st m t s a b ≡ some copy
    → (st ≡ false) × ((min_mass ≤ m) × (le t_copy a ≡ true))
unfolding kind_of
kind_of-copy st m t s a b h =
    go st (leb min_mass m) refl (le t_copy a) refl (leb min_mass m && le t_review a)
      (leb embed_min t && le t_copy b) (leb embed_min s)
      (leb tiny_min m && ltb m min_mass && le t_same a) h
  where
    go :
        (st p : Bool)
        → leb min_mass m ≡ p
        → (q : Bool) → le t_copy a ≡ q
        → (u v w x : Bool)
        → (if st
            then (if u || v || x then some stacked else none)
            else if p && q
            then some copy
            else if v && w
            then some contains_earlier
            else if u
            then some partial
            else if x
            then some tiny_identical
            else none)
          ≡ some copy
        → (st ≡ false) × ((min_mass ≤ m) × (le t_copy a ≡ true))
    go st p e q f u v w x h = ground arith

pub copy_only : (k : Kind) → outcome_of_kind k ≡ found_copy → k ≡ copy
copy_only copy h = refl
copy_only contains_earlier h = cc
copy_only stacked h = cc
copy_only partial h = cc
copy_only tiny_identical h = cc

pub same_kind-eq : (j : Kind) → same_kind copy j ≡ true → j ≡ copy
same_kind-eq copy h = refl
same_kind-eq contains_earlier h = cc
same_kind-eq stacked h = cc
same_kind-eq partial h = cc
same_kind-eq tiny_identical h = cc

module _ {R : Type 0} ⦃n : Num R⦄ where
  pub tagged-some :
      (row : Row R) (o : Option Kind) {k : Kind} {r : Row R}
      → tagged row o ≡ some (k, r)
      → (o ≡ some k) × (row ≡ r)
  tagged-some row none h = cc
  tagged-some row (some j) h = (cc, cc)

  -- A row that is placed is its reference's.
  pub place_all-In :
      (c : Comparison) (refs : List Entry) {k : Kind} {row : Row R}
      → In (k, row) (place_all R c refs)
      → (ref : Entry) × (In ref refs × (place_row R c ref ≡ some (k, row)))
  unfolding place_all
  place_all-In c [] i = elim i [ ]
  place_all-In c (ref ∷ refs) {k} {row} i =
      go (place_row R c ref) refl i (λ j. later (place_all-In c refs j))
    where
      later :
          ((r : Entry) × (In r refs × (place_row R c r ≡ some (k, row))))
          → (r : Entry) × (In r (ref ∷ refs) × (place_row R c r ≡ some (k, row)))
      later (r, (j, e)) = (r, (there j, e))

      go :
          (o : Option (Kind × Row R))
          → place_row R c ref ≡ o
          → In
              (k, row)
              (elim o as (λ _. List (Kind × Row R)) [
                | none ↦ place_all R c refs
                | some p ↦ p ∷ place_all R c refs
              ])
          → (In (k, row) (place_all R c refs)
              → (r : Entry) × (In r (ref ∷ refs) × (place_row R c r ≡ some (k, row))))
          → (r : Entry) × (In r (ref ∷ refs) × (place_row R c r ≡ some (k, row)))
      go none e i rec = rec i
      go (some p) e i rec = elim (In-cons i) [
        | inl q ↦ (ref, (here, e ∙ ap some (sym q)))
        | inr j ↦ rec j
      ]

  pub slot-In :
      (k : Kind) (placed : List (Kind × Row R)) {row : Row R}
      → In row (slot R k placed)
      → (j : Kind) × ((same_kind k j ≡ true) × In (j, row) placed)
  unfolding slot
  slot-In k [] i = elim i [ ]
  slot-In k ((j, r) ∷ placed) {row} i = go (same_kind k j) refl i (λ x. later (slot-In k placed x))
    where
      later :
          ((l : Kind) × ((same_kind k l ≡ true) × In (l, row) placed))
          → (l : Kind) × ((same_kind k l ≡ true) × In (l, row) ((j, r) ∷ placed))
      later (l, (e, x)) = (l, (e, there x))

      go :
          (b : Bool)
          → same_kind k j ≡ b
          → In row (if b then r ∷ slot R k placed else slot R k placed)
          → (In row (slot R k placed)
              → (l : Kind) × ((same_kind k l ≡ true) × In (l, row) ((j, r) ∷ placed)))
          → (l : Kind) × ((same_kind k l ≡ true) × In (l, row) ((j, r) ∷ placed))
      go true e i rec = elim (In-cons i) [
        | inl q ↦ (j, (e, subst (λ z. In (j, z) ((j, r) ∷ placed)) (sym q) here))
        | inr x ↦ rec x
      ]
      go false e i rec = rec i
