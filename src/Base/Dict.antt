-- ===== src/Base/Dict.antt =====
-- A Python dict as an association list in insertion order, over keys with an equality.
use mathlib.Core.Path.{◌≡◌, refl, subst}
use mathlib.Core.Bool.{Bool, true, false, ◌||◌, not}
use mathlib.Core.Option.{Option, none, some}
use mathlib.Core.List.{List, [], ◌∷◌, ◌++◌}
use native.Mathlib.Omega.{arith}
use burnisher.Base.Tests.{if◌then◌else◌, is_some}
use burnisher.Base.Lists.{keep, In, here, there, keep-In, In-keep}
use burnisher.Base.Eq.{Eq, ◌==◌}

abbrev pub Dict {ℓ κ} : Type ℓ → Type κ → Type (ℓ ⊔ κ)
Dict K V = List (K × V)

module _ {ℓ} {K : Type ℓ} ⦃e : Eq K⦄ where
  -- `k in xs`, for a list or a set
  abbrev pub elem : K → List K → Bool
  elem k [] = false
  elem k (x ∷ xs) = x == k || elem k xs

  -- `set.add`, on a set kept without repetition
  abbrev pub adjoin : K → List K → List K
  adjoin k xs = if elem k xs then xs else xs ++ k ∷ []

  -- `xs - ys` and `xs & ys` on sets
  abbrev pub minus : List K → List K → List K
  minus xs ys = keep (λ x. not (elem x ys)) xs

  abbrev pub meet : List K → List K → List K
  meet xs ys = keep (λ x. elem x ys) xs

  pub eq_self : (k : K) → (k == k) ≡ true
  eq_self k = (e.beq_iff k k).1 refl

  pub eq_of_test : (j k : K) → (j == k) ≡ true → j ≡ k
  eq_of_test j k h = (e.beq_iff j k).0 h

  pub elem-In : (k : K) (xs : List K) → elem k xs ≡ true → In k xs
  elem-In k [] h = cc
  elem-In k (x ∷ xs) h = go (x == k) refl h (elem-In k xs)
    where
      go :
          (b : Bool)
          → (x == k) ≡ b
          → (b || elem k xs) ≡ true
          → (elem k xs ≡ true → In k xs)
          → In k (x ∷ xs)
      go true t h rec = subst (λ z. In z (x ∷ xs)) (eq_of_test x k t) here
      go false t h rec = there (rec h)

  pub In-elem : {k : K} {xs : List K} → In k xs → elem k xs ≡ true
  In-elem {k} here = rw (eq_self k)
  In-elem (there i) = ground (arith, In-elem i)

  pub minus-In : {x : K} (xs ys : List K) → In x (minus xs ys) → In x xs × (elem x ys ≡ false)
  minus-In {x} xs ys i = let (j, h) = keep-In (λ z. not (elem z ys)) xs i in (j, ground arith)

  pub In-minus :
      {x : K} {xs : List K} (ys : List K) → In x xs → elem x ys ≡ false → In x (minus xs ys)
  In-minus ys i h = In-keep (λ z. not (elem z ys)) i (rw h)

module _ {ℓ κ} {K : Type ℓ} {V : Type κ} ⦃e : Eq K⦄ where
  -- `d.get(k)`
  abbrev pub lookup : K → Dict K V → Option V
  lookup k [] = none
  lookup k ((j, v) ∷ d) = let rest = lookup k d in if j == k then some v else rest

  -- `k in d`
  abbrev pub has_key : K → Dict K V → Bool
  has_key k d = is_some (lookup k d)

  -- `d[k] = v`
  abbrev pub insert : K → V → Dict K V → Dict K V
  insert k v [] = (k, v) ∷ []
  insert k v ((j, w) ∷ d) = let rest = insert k v d in if j == k then (j, v) ∷ d else (j, w) ∷ rest

  abbrev pub keys : Dict K V → List K
  keys [] = []
  keys ((k, v) ∷ d) = k ∷ keys d

  pub lookup-insert :
      (k j : K) (v : V) (d : Dict K V)
      → lookup j (insert k v d) ≡ (if k == j then some v else lookup j d)
  lookup-insert k j v [] = refl
  lookup-insert k j v ((i, w) ∷ d) =
      ground (arith, e.beq_iff k j, e.beq_iff i k, e.beq_iff i j, lookup-insert k j v d)
