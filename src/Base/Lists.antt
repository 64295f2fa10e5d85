-- ===== src/Base/Lists.antt =====
-- Lists measured by native numbers, Boolean quantifiers that compute, and their laws.
use Prim.Native.Nat.{ℕ, zero, suc, ◌+◌, ◌≤◌, ◌<◌}
use mathlib.Core.Path.{◌≡◌, refl, ap, subst, ◌∙◌}
use mathlib.Core.Logic.{◌⊎◌, inl, inr}
use mathlib.Core.Bool.{Bool, true, false, ◌&&◌, ◌||◌}
use mathlib.Core.Option.{Option, none, some}
use mathlib.Core.List.{List, [], ◌∷◌, ◌++◌}
use native.Mathlib.Omega.{arith}
use burnisher.Base.Tests.{if◌then◌else◌}

module _ {ℓ} {A : Type ℓ} where
  abbrev pub length : List A → ℕ
  length [] = 0
  length (x ∷ xs) = suc (length xs)

  abbrev pub is_empty : List A → Bool
  is_empty [] = true
  is_empty (x ∷ xs) = false

  abbrev pub get_elem? : List A → ℕ → Option A
  get_elem? [] i = none
  get_elem? (x ∷ xs) zero = some x
  get_elem? (x ∷ xs) (suc i) = get_elem? xs i

  abbrev pub take : ℕ → List A → List A
  take zero xs = []
  take (suc n) [] = []
  take (suc n) (x ∷ xs) = x ∷ take n xs

  abbrev pub drop : ℕ → List A → List A
  drop zero xs = xs
  drop (suc n) [] = []
  drop (suc n) (x ∷ xs) = drop n xs

  -- `any(p(x) for x in xs)` and `all(p(x) for x in xs)`
  abbrev pub any : (A → Bool) → List A → Bool
  any p [] = false
  any p (x ∷ xs) = p x || any p xs

  abbrev pub all : (A → Bool) → List A → Bool
  all p [] = true
  all p (x ∷ xs) = p x && all p xs

  -- `[x for x in xs if p(x)]`
  abbrev pub keep : (A → Bool) → List A → List A
  keep p [] = []
  keep p (x ∷ xs) = let rest = keep p xs in if p x then x ∷ rest else rest

  -- `next((x for x in xs if p(x)), None)`
  abbrev pub find : (A → Bool) → List A → Option A
  find p [] = none
  find p (x ∷ xs) = let rest = find p xs in if p x then some x else rest

  -- `x` occurs in a list, as a family that can be matched.
  pub data In (x : A) : List A → Type ℓ where
    here : {xs : List A} → In x (x ∷ xs)
    there : {y : A} {xs : List A} → In x xs → In x (y ∷ xs)

  abbrev pub All {κ} : (A → Type κ) → List A → Type κ
  All P [] = Unit
  All P (x ∷ xs) = P x × All P xs

  pub length-append : (xs ys : List A) → length (xs ++ ys) ≡ length xs + length ys
  length-append [] ys = omega arith
  length-append (x ∷ xs) ys = omega (arith, length-append xs ys)

module _ {ℓ} {A : Type ℓ} where
  pub length-keep : (p : A → Bool) (xs : List A) → length (keep p xs) ≤ length xs
  length-keep p [] = omega arith
  length-keep p (x ∷ xs) = ground (arith, length-keep p xs)

  pub keep-append : (p : A → Bool) (xs ys : List A) → keep p (xs ++ ys) ≡ keep p xs ++ keep p ys
  keep-append p [] ys = refl
  keep-append p (x ∷ xs) ys = ground (arith, keep-append p xs ys)

  pub In-keep : {x : A} {xs : List A} (p : A → Bool) → In x xs → p x ≡ true → In x (keep p xs)
  In-keep {x} p (here {xs = xs}) h = rw h here
  In-keep {x} p (there {y = y} {xs = xs} i) h = go (p y) (In-keep p i h)
    where
      go : (b : Bool) → In x (keep p xs) → In x (if b then y ∷ keep p xs else keep p xs)
      go true j = there j
      go false j = j

  pub In-cons : {x y : A} {xs : List A} → In x (y ∷ xs) → (x ≡ y) ⊎ In x xs
  In-cons here = inl refl
  In-cons (there i) = inr i

  pub keep-In : {x : A} (p : A → Bool) (xs : List A) → In x (keep p xs) → In x xs × (p x ≡ true)
  keep-In p [] i = elim i [ ]
  keep-In {x} p (y ∷ xs) i = go (p y) refl i (keep-In p xs)
    where
      shift : In x xs × (p x ≡ true) → In x (y ∷ xs) × (p x ≡ true)
      shift (j, h) = (there j, h)

      first : p y ≡ true → x ≡ y → In x (y ∷ xs) × (p x ≡ true)
      first e q = (subst (λ z. In x (z ∷ xs)) q here, ap p q ∙ e)

      go :
          (b : Bool)
          → p y ≡ b
          → In x (if b then y ∷ keep p xs else keep p xs)
          → (In x (keep p xs) → In x xs × (p x ≡ true))
          → In x (y ∷ xs) × (p x ≡ true)
      go true e i rec = elim (In-cons i) [ inl q ↦ first e q | inr j ↦ shift (rec j) ]
      go false e i rec = shift (rec i)

  pub any-In : {x : A} {xs : List A} (p : A → Bool) → In x xs → p x ≡ true → any p xs ≡ true
  any-In p here h = ground arith
  any-In p (there i) h = ground (arith, any-In p i h)

  pub all-In : {x : A} {xs : List A} (p : A → Bool) → In x xs → all p xs ≡ true → p x ≡ true
  all-In p here h = ground arith
  all-In p (there i) h = all-In p i (ground arith)

  pub In-append_left : {x : A} {xs : List A} (ys : List A) → In x xs → In x (xs ++ ys)
  In-append_left ys here = here
  In-append_left ys (there i) = there (In-append_left ys i)

  pub In-append_right : {x : A} (xs : List A) {ys : List A} → In x ys → In x (xs ++ ys)
  In-append_right [] i = i
  In-append_right (y ∷ xs) i = there (In-append_right xs i)

  -- What a search returns passes its test.
  pub find-eq_some : {x : A} (p : A → Bool) (xs : List A) → find p xs ≡ some x → p x ≡ true
  find-eq_some p [] h = cc
  find-eq_some {x} p (y ∷ xs) h = go (p y) refl h (find-eq_some p xs)
    where
      go :
          (b : Bool)
          → p y ≡ b
          → (if b then some y else find p xs) ≡ some x
          → (find p xs ≡ some x → p x ≡ true)
          → p x ≡ true
      go true e h rec = subst (λ z. p z ≡ true) (cc) e
      go false e h rec = rec h

  pub All-of_In {κ} : {P : A → Type κ} (xs : List A) → ((x : A) → In x xs → P x) → All P xs
  All-of_In [] f = tt
  All-of_In (x ∷ xs) f = (f x here, All-of_In xs (λ y i. f y (there i)))

pub find-In {ℓ} : {A : Type ℓ} {x : A} (p : A → Bool) (xs : List A) → find p xs ≡ some x → In x xs
find-In p [] h = cc
find-In {A} {x} p (y ∷ xs) h = go (p y) h (find-In p xs)
  where
    go :
        (b : Bool)
        → (if b then some y else find p xs) ≡ some x
        → (find p xs ≡ some x → In x xs)
        → In x (y ∷ xs)
    go true e rec = let q : y ≡ x = cc in subst (λ z. In z (y ∷ xs)) q here
    go false e rec = there (rec e)

pub find-none {ℓ} :
    {A : Type ℓ} {x : A} (p : A → Bool) {xs : List A} → In x xs → find p xs ≡ none → p x ≡ false
find-none p here h = ground arith
find-none p (there i) h = find-none p i (ground arith)

pub In-get_elem? {ℓ} :
    {A : Type ℓ} (xs : List A) (i : ℕ)
    → i < length xs
    → (v : A) × (get_elem? xs i ≡ some v) × In v xs
In-get_elem? [] i h = ground arith
In-get_elem? (x ∷ xs) zero h = (x, refl, here)
In-get_elem? (x ∷ xs) (suc i) h = let (v, e, j) = In-get_elem? xs i (omega arith) in (v, e, there j)

-- What holds of both branches, each under its condition, holds of the `if`.
pub if-cases {ℓ κ} :
    {A : Type ℓ} (P : A → Type κ) (b : Bool) (x y : A)
    → (b ≡ true → P x)
    → (b ≡ false → P y)
    → P (if b then x else y)
if-cases P true x y f g = f refl
if-cases P false x y f g = g refl
