-- ===== src/Base/Sort.antt =====
-- Python's `sorted`, which is stable, and the members of what it returns.
use burnisher.Base.{
  suc, String, ◌≡◌, refl, sym, ap, subst, ◌∙◌, ◌⊎◌, inl, inr, Bool, true, false, List, [], ◌∷◌,
  arith, if◌then◌else◌, length, In, here, there, In-cons,
}
use burnisher.Base.Eq.{string_eq, nat_eq}
use Prim.Native.String.{compare}
use text.Mathlib.Text.{is_lt}

-- `a < b` on texts
abbrev pub text_before : String → String → Bool
text_before a b = is_lt (compare a b)

module _ {ℓ} {A : Type ℓ} (before : A → A → Bool) where
  abbrev pub insert_by : A → List A → List A
  insert_by x [] = x ∷ []
  insert_by x (y ∷ ys) = let rest = insert_by x ys in if before y x then y ∷ rest else x ∷ y ∷ ys

  abbrev pub sort_by : List A → List A
  sort_by [] = []
  sort_by (x ∷ xs) = insert_by x (sort_by xs)

  pub insert_by-In_self : (x : A) (ys : List A) → In x (insert_by x ys)
  insert_by-In_self x [] = here
  insert_by-In_self x (y ∷ ys) = go (before y x) (insert_by-In_self x ys)
    where
      go : (b : Bool) → In x (insert_by x ys) → In x (if b then y ∷ insert_by x ys else x ∷ y ∷ ys)
      go true i = there i
      go false i = here

  pub insert_by-In : {z : A} {ys : List A} (x : A) → In z ys → In z (insert_by x ys)
  insert_by-In {z} x (here {xs = ys}) = go (before z x)
    where
      go : (b : Bool) → In z (if b then z ∷ insert_by x ys else x ∷ z ∷ ys)
      go true = here
      go false = there here
  insert_by-In {z} x (there {y = y} {xs = ys} i) = go (before y x) (insert_by-In x i)
    where
      go : (b : Bool) → In z (insert_by x ys) → In z (if b then y ∷ insert_by x ys else x ∷ y ∷ ys)
      go true j = there j
      go false j = there (there i)

  pub In-insert_by : {z : A} (x : A) (ys : List A) → In z (insert_by x ys) → (z ≡ x) ⊎ In z ys
  In-insert_by x [] i = In-cons i
  In-insert_by {z} x (y ∷ ys) i = go (before y x) i (In-insert_by x ys)
    where
      shift : (z ≡ x) ⊎ In z ys → (z ≡ x) ⊎ In z (y ∷ ys)
      shift (inl e) = inl e
      shift (inr j) = inr (there j)

      first :
          (z ≡ y) ⊎ In z (insert_by x ys)
          → (In z (insert_by x ys) → (z ≡ x) ⊎ In z ys)
          → (z ≡ x) ⊎ In z (y ∷ ys)
      first (inl e) rec = inr (subst (λ w. In w (y ∷ ys)) (sym e) here)
      first (inr j) rec = shift (rec j)

      go :
          (b : Bool)
          → In z (if b then y ∷ insert_by x ys else x ∷ y ∷ ys)
          → (In z (insert_by x ys) → (z ≡ x) ⊎ In z ys)
          → (z ≡ x) ⊎ In z (y ∷ ys)
      go true j rec = first (In-cons j) rec
      go false j rec = In-cons j

  pub In-sort_by : {z : A} {xs : List A} → In z xs → In z (sort_by xs)
  In-sort_by {z} (here {xs = xs}) = insert_by-In_self z (sort_by xs)
  In-sort_by (there {y = y} i) = insert_by-In y (In-sort_by i)

  pub sort_by-In : {z : A} (xs : List A) → In z (sort_by xs) → In z xs
  sort_by-In [] i = elim i [ ]
  sort_by-In {z} (x ∷ xs) i = go (In-insert_by x (sort_by xs) i) (sort_by-In xs)
    where
      go : (z ≡ x) ⊎ In z (sort_by xs) → (In z (sort_by xs) → In z xs) → In z (x ∷ xs)
      go (inl e) rec = subst (λ w. In w (x ∷ xs)) (sym e) here
      go (inr j) rec = there (rec j)

  length-insert_by : (x : A) (ys : List A) → length (insert_by x ys) ≡ suc (length ys)
  length-insert_by x [] = refl
  length-insert_by x (y ∷ ys) = ground (arith, length-insert_by x ys)

  pub length-sort_by : (xs : List A) → length (sort_by xs) ≡ length xs
  length-sort_by [] = refl
  length-sort_by (x ∷ xs) = length-insert_by x (sort_by xs) ∙ ap suc (length-sort_by xs)

-- `sorted(xs)` on texts
abbrev pub sorted_texts : List String → List String
sorted_texts = sort_by text_before
