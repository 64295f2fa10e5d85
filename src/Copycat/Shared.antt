-- ===== src/Copycat/Shared.antt =====
-- What winnowing promises: a run that two submissions share leaves a fingerprint in both.
use burnisher.Base.{
  ℕ, zero, suc, String, ◌≤◌, ◌≡◌, refl, sym, ap, subst, ◌∙◌, inl, inr, Bool, true, false, List, [],
  ◌∷◌, ◌++◌, map, arith, if◌then◌else◌, leb, length, take, In, here, there, In-cons, In-append_left,
  In-append_right, length-append, if-cases, Bool-cases, ◌+◌, ◌<◌,
}
use burnisher.Base.Eq.{string_eq, nat_eq}
use burnisher.Base.Dict.{elem, adjoin, elem-In}
use burnisher.Base.Sort.{text_before}
use burnisher.Base.Texts.{join}
use burnisher.Copycat.{k_tokens, window}
use burnisher.Copycat.Fingerprint.{windows, min_text, least, union, set_of, winnow, kgrams}

module _ {ℓ} {A : Type ℓ} where
  take-append : (n : ℕ) (xs ys : List A) → n ≤ length xs → take n (xs ++ ys) ≡ take n xs
  take-append zero xs ys h = refl
  take-append (suc n) [] ys h = ground arith
  take-append (suc n) (x ∷ xs) ys h = ap (λ t. x ∷ t) (take-append n xs ys (omega arith))

  take-In : {x : A} (n : ℕ) (xs : List A) → In x (take n xs) → In x xs
  take-In zero xs i = elim i [ ]
  take-In (suc n) [] i = elim i [ ]
  take-In {x} (suc n) (y ∷ xs) i = elim (In-cons i) [
    | inl e ↦ subst (λ z. In z (y ∷ xs)) (sym e) here
    | inr j ↦ there (take-In n xs j)
  ]

  -- A run that is long enough is followed through what stands before and after it.
  windows-append_right :
      (n : ℕ) (run q : List A) → (r : List (List A)) × (windows n (run ++ q) ≡ windows n run ++ r)
  unfolding windows
  windows-append_right n [] q = (windows n q, refl)
  windows-append_right n (x ∷ run) q =
      let (r, e) = windows-append_right n run q in
      elim (Bool-cases (leb n (length (x ∷ run)))) [
        | inl h ↦ (r, rw (h, longer h, take-append n (x ∷ run) q (ground arith), e) refl)
        | inr h ↦ (windows n (x ∷ run ++ q), rw h refl)
      ]
    where
      longer : leb n (suc (length run)) ≡ true → leb n (suc (length (run ++ q))) ≡ true
      longer h = ground (arith, length-append run q)

  windows-append :
      (n : ℕ) (p run q : List A)
      → n ≤ length run
      → (l : List (List A)) × ((r : List (List A)) × (windows n (p ++ (run ++ q))
            ≡ l ++ (windows n run ++ r)))
  unfolding windows
  windows-append n [] run q h = let (r, e) = windows-append_right n run q in ([], (r, e))
  windows-append n (y ∷ p) run q h =
      let (l, (r, e)) = windows-append n p run q h in
      (take n (y ∷ p ++ (run ++ q)) ∷ l, (r, rw (fits, e) refl))
    where
      fits : leb n (suc (length (p ++ (run ++ q)))) ≡ true
      fits = ground (arith, length-append p (run ++ q), length-append run q)

  -- The first window of a run is one of the windows around it.
  take-windows :
      (n : ℕ) (p run q : List A)
      → 0 < n
      → n ≤ length run
      → In (take n run) (windows n (p ++ (run ++ q)))
  unfolding windows
  take-windows n [] [] q z h = ground arith
  take-windows n [] (x ∷ run) q z h = rw (fits, take-append n (x ∷ run) q h) here
    where
      fits : leb n (suc (length (run ++ q))) ≡ true
      fits = ground (arith, length-append run q)
  take-windows n (y ∷ p) run q z h = rw fits (there (take-windows n p run q z h))
    where
      fits : leb n (suc (length (p ++ (run ++ q)))) ≡ true
      fits = ground (arith, length-append p (run ++ q), length-append run q)

  length-windows : (n : ℕ) (xs : List A) → 0 < n → length xs < length (windows n xs) + n
  unfolding windows
  length-windows n [] z = omega arith
  length-windows n (x ∷ xs) z = ground (arith, length-windows n xs z)

module _ {ℓ κ} {A : Type ℓ} {B : Type κ} (f : A → B) where
  In-map : {x : A} {xs : List A} → In x xs → In (f x) (map f xs)
  In-map here = here
  In-map (there i) = there (In-map i)

  map-append : (xs ys : List A) → map f (xs ++ ys) ≡ map f xs ++ map f ys
  map-append [] ys = refl
  map-append (x ∷ xs) ys = ap (λ t. f x ∷ t) (map-append xs ys)

  length-map : (xs : List A) → length (map f xs) ≡ length xs
  length-map [] = refl
  length-map (x ∷ xs) = ap suc (length-map xs)

min_text-In : (m : String) (xs : List String) → In (min_text m xs) (m ∷ xs)
unfolding min_text
min_text-In m [] = here
min_text-In m (x ∷ xs) = go (text_before x m) (min_text-In x xs) (min_text-In m xs)
  where
    skip : In (min_text m xs) (m ∷ xs) → In (min_text m xs) (m ∷ x ∷ xs)
    skip i = elim (In-cons i) [
      | inl e ↦ subst (λ z. In z (m ∷ x ∷ xs)) (sym e) here
      | inr j ↦ there (there j)
    ]

    go :
        (b : Bool)
        → In (min_text x xs) (x ∷ xs)
        → In (min_text m xs) (m ∷ xs)
        → In (min_text (if b then x else m) xs) (m ∷ x ∷ xs)
    go true i j = there i
    go false i j = skip j

least-In : (xs : List String) → 0 < length xs → In (least xs) xs
least-In [] h = ground arith
least-In (x ∷ xs) h = min_text-In x xs

adjoin-self : (x : String) (s : List String) → In x (adjoin x s)
adjoin-self x s =
    if-cases (λ t. In x t) (elem x s) s (s ++ x ∷ []) (λ h. elem-In x s h)
      (λ _. In-append_right s here)

In-adjoin : {y : String} (x : String) (s : List String) → In y s → In y (adjoin x s)
In-adjoin {y} x s i =
    if-cases (λ t. In y t) (elem x s) s (s ++ x ∷ []) (λ _. i) (λ _. In-append_left (x ∷ []) i)

pub In-union_left : {y : String} (s xs : List String) → In y s → In y (union s xs)
In-union_left s [] i = i
In-union_left s (x ∷ xs) i = In-union_left (adjoin x s) xs (In-adjoin x s i)

pub In-union_right : {y : String} (s xs : List String) → In y xs → In y (union s xs)
In-union_right s [] i = elim i [ ]
In-union_right {y} s (x ∷ xs) i = elim (In-cons i) [
  | inl e ↦
      subst (λ z. In z (union (adjoin x s) xs)) (sym e)
        (In-union_left (adjoin x s) xs (adjoin-self x s))
  | inr j ↦ In-union_right (adjoin x s) xs j
]

-- Hashes that hold a stretch of a window's length keep the least of the stretch's first window.
winnow-least :
    (l hs r : List String)
    → window ≤ length hs
    → In (least (take window hs)) (winnow (l ++ (hs ++ r)))
unfolding winnow
winnow-least l hs r h =
    let whole = l ++ (hs ++ r) in
    if-cases (λ t. In (least (take window hs)) t) (leb (length whole) window) (set_of whole)
      (set_of (map least (windows window whole)))
      (λ _.
        In-union_right [] whole
          (In-append_right l (In-append_left r (take-In window hs least_taken))))
      (λ _.
        In-union_right [] (map least (windows window whole))
          (In-map least (take-windows window l hs r (omega arith) h)))
  where
    length-take : (n : ℕ) (xs : List String) → n ≤ length xs → length (take n xs) ≡ n
    length-take zero xs e = refl
    length-take (suc n) [] e = omega arith
    length-take (suc n) (x ∷ xs) e = omega (arith, length-take n xs (omega arith))

    least_taken : In (least (take window hs)) (take window hs)
    least_taken = least-In (take window hs) (omega (arith, length-take window hs h))

module _ (hash : String → String) (run : List String)
    (long : k_tokens + window ≤ suc (length run)) where
  kgrams-least :
      (p q : List String)
      → In (least (take window (kgrams hash run))) (winnow (kgrams hash (p ++ (run ++ q))))
  unfolding kgrams
  kgrams-least p q =
      let f = λ (w : List String). hash (join " " w) in
      let grams = windows k_tokens run in
      let (l, (r, e)) = windows-append k_tokens p run q (omega (arith, long)) in
      subst (λ hs. In (least (take window (map f grams))) (winnow hs))
        (sym (
          ap (map f) e
          ∙ map-append f l (grams ++ r)
          ∙ ap (λ t. map f l ++ t) (map-append f grams r)))
        (winnow-least (map f l) (map f grams) (map f r)
          (omega (arith, long, length-map f grams, length-windows k_tokens run (omega arith))))

-- Two token streams that share a run of 19 tokens or more, wherever it stands in each, share a
-- fingerprint: one hash is kept by the winnowing of both.
pub winnow-kgrams :
    (hash : String → String) (p q p' q' run : List String)
    → k_tokens + window ≤ suc (length run)
    → (h : String) × (In h (winnow (kgrams hash (p ++ (run ++ q))))
        × In h (winnow (kgrams hash (p' ++ (run ++ q')))))
winnow-kgrams hash p q p' q' run long = (
  least (take window (kgrams hash run)),
  (kgrams-least hash run long p q, kgrams-least hash run long p' q'),
)
