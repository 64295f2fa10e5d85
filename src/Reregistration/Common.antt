-- ===== src/Reregistration/Common.antt =====
-- What the matching blocks of two token lists are made of: tokens that both have, in their order.
use burnisher.Base.{
  ℕ, zero, suc, String, ◌≤◌, ◌≡◌, refl, sym, ap, subst, ◌∙◌, Bool, true, false, List, [], ◌∷◌, ◌++◌,
  arith, if◌then◌else◌, ltb, length, take, drop, if-cases, ◌+◌,
}
use burnisher.Base.Eq.{◌==◌, string_eq, nat_eq}
use burnisher.Base.Dict.{eq_of_test}
use burnisher.Reregistration.Similar.{
  common_prefix, Match, no_match, longer, match_row, match_rows, find_longest_match, matched,
  matching,
}

-- `Common a b k`: some `k` tokens of `a` are, in their order, `k` tokens of `b`.
pub data Common : List String → List String → ℕ → Type 0 where
  nothing : {a b : List String} → Common a b 0
  skip_a : {x : String} {a b : List String} {k : ℕ} → Common a b k → Common (x ∷ a) b k
  skip_b : {y : String} {a b : List String} {k : ℕ} → Common a b k → Common a (y ∷ b) k
  pair :
      {x y : String} {a b : List String} {k : ℕ}
      → x ≡ y
      → Common a b k
      → Common (x ∷ a) (y ∷ b) (suc k)

skip_all_b : (b : List String) {a b2 : List String} {k : ℕ} → Common a b2 k → Common a (b ++ b2) k
skip_all_b [] c = c
skip_all_b (y ∷ b) c = skip_b (skip_all_b b c)

skip_all :
    (a b : List String) {a2 b2 : List String} {k : ℕ}
    → Common a2 b2 k
    → Common (a ++ a2) (b ++ b2) k
skip_all [] b c = skip_all_b b c
skip_all (x ∷ a) b c = skip_a (skip_all a b c)

append-Common :
    {a b a2 b2 : List String} {k l : ℕ}
    → Common a b k
    → Common a2 b2 l
    → Common (a ++ a2) (b ++ b2) (k + l)
append-Common {a} {b} {a2 = a2} {b2 = b2} {l = l} nothing d =
    let e : l ≡ 0 + l = omega arith in subst (Common (a ++ a2) (b ++ b2)) e (skip_all a b d)
append-Common (skip_a c) d = skip_a (append-Common c d)
append-Common (skip_b c) d = skip_b (append-Common c d)
append-Common {a2 = a2} {b2 = b2} {l = l} (pair {x} {y} {a = a} {b = b} {k = k} e c) d =
    let same : suc (k + l) ≡ suc k + l = omega arith in
    subst (Common (x ∷ a ++ a2) (y ∷ b ++ b2)) same (pair e (append-Common c d))

take-append-drop : (k : ℕ) (a : List String) → take k a ++ drop k a ≡ a
take-append-drop zero a = refl
take-append-drop (suc k) [] = refl
take-append-drop (suc k) (x ∷ a) = ap (λ z. x ∷ z) (take-append-drop k a)

drop_nil : (k : ℕ) → drop {A = String} k [] ≡ []
drop_nil zero = refl
drop_nil (suc k) = refl

drop-drop : (i k : ℕ) (a : List String) → drop k (drop i a) ≡ drop (i + k) a
drop-drop zero k a = let e : k ≡ 0 + k = omega arith in ap (λ z. drop z a) e
drop-drop (suc i) k [] =
    let e : suc (i + k) ≡ suc i + k = omega arith in drop_nil k ∙ ap (λ z. drop {A = String} z []) e
drop-drop (suc i) k (x ∷ a) =
    let e : suc (i + k) ≡ suc i + k = omega arith in drop-drop i k a ∙ ap (λ z. drop z (x ∷ a)) e

-- the tokens of a block, and those that come after it
block-Common :
    (k : ℕ) (a b : List String) {r : ℕ}
    → k ≤ common_prefix a b
    → Common (drop k a) (drop k b) r
    → Common a b (k + r)
block-Common zero a b {r} h c = let e : r ≡ 0 + r = omega arith in subst (Common a b) e c
block-Common (suc k) [] b h c = let wrong : suc k ≤ 0 = h in ground arith
block-Common (suc k) (x ∷ a) [] h c = let wrong : suc k ≤ 0 = h in ground arith
block-Common (suc k) (x ∷ a) (y ∷ b) {r} h c = go (x == y) refl h (λ h'. block-Common k a b h' c)
  where
    go :
        (t : Bool)
        → (x == y) ≡ t
        → suc k ≤ (if t then suc (common_prefix a b) else 0)
        → (k ≤ common_prefix a b → Common a b (k + r))
        → Common (x ∷ a) (y ∷ b) (suc k + r)
    go true e h rec =
        let same : suc (k + r) ≡ suc k + r = omega arith in
        subst (Common (x ∷ a) (y ∷ b)) same (pair (eq_of_test x y e) (rec (omega (arith, h))))
    go false e h rec = ground (arith, h)

abbrev IsBlock : List String → List String → Match → Type 0
IsBlock a b m = m.size ≤ common_prefix (drop m.in_a a) (drop m.in_b b)

longer-IsBlock :
    (a b : List String) (best m : Match)
    → IsBlock a b best
    → IsBlock a b m
    → IsBlock a b (longer best m)
longer-IsBlock a b best m h k =
    if-cases (IsBlock a b) (ltb best.size m.size) m best (λ _. k) (λ _. h)

drop_next :
    (i : ℕ) (a rest : List String) (x : String) → drop i a ≡ x ∷ rest → drop (suc i) a ≡ rest
drop_next i a rest x h =
    let e : i + 1 ≡ suc i = omega arith in
    ap (λ z. drop z a) (sym e) ∙ sym (drop-drop i 1 a) ∙ ap (drop 1) h

match_row-IsBlock :
    (a b : List String) (i j : ℕ) (xs ys : List String) (best : Match)
    → drop i a ≡ xs
    → drop j b ≡ ys
    → IsBlock a b best
    → IsBlock a b (match_row i j xs ys best)
match_row-IsBlock a b i j xs [] best ha hb h = h
match_row-IsBlock a b i j xs (y ∷ ys) best ha hb h =
    let m : Match = record { in_a = i; in_b = j; size = common_prefix xs (y ∷ ys) } in
    let fits : IsBlock a b m = rw (ha, hb) (omega arith) in
    match_row-IsBlock a b i (suc j) xs ys (longer best m) ha (drop_next j b ys y hb)
      (longer-IsBlock a b best m h fits)

match_rows-IsBlock :
    (a b : List String) (i : ℕ) (xs : List String) (best : Match)
    → drop i a ≡ xs
    → IsBlock a b best
    → IsBlock a b (match_rows i xs b best)
match_rows-IsBlock a b i [] best ha h = h
match_rows-IsBlock a b i (x ∷ xs) best ha h =
    match_rows-IsBlock a b (suc i) xs (match_row i 0 (x ∷ xs) b best) (drop_next i a xs x ha)
      (match_row-IsBlock a b i 0 (x ∷ xs) b best ha refl h)

find_longest_match-IsBlock : (a b : List String) → IsBlock a b (find_longest_match a b)
unfolding find_longest_match
find_longest_match-IsBlock a b = match_rows-IsBlock a b 0 a no_match refl (omega arith)

-- A block, with what is matched left and right of it.
around-Common :
    (a b : List String) (m : Match) {l r : ℕ}
    → IsBlock a b m
    → Common (take m.in_a a) (take m.in_b b) l
    → Common (drop (m.in_a + m.size) a) (drop (m.in_b + m.size) b) r
    → Common a b (l + (m.size + r))
around-Common a b m {l} {r} h left right =
    let after : Common (drop m.size (drop m.in_a a)) (drop m.size (drop m.in_b b)) r =
      rw (drop-drop m.in_a m.size a, drop-drop m.in_b m.size b) right in
    let from = block-Common m.size (drop m.in_a a) (drop m.in_b b) h after in
    subst (λ z. Common z b (l + (m.size + r))) (take-append-drop m.in_a a)
      (subst (λ z. Common (take m.in_a a ++ drop m.in_a a) z (l + (m.size + r)))
        (take-append-drop m.in_b b) (append-Common left from))

matched-Common : (fuel : ℕ) (a b : List String) → Common a b (matched fuel a b)
unfolding matched
matched-Common zero a b = nothing
matched-Common (suc fuel) a b =
    let m = find_longest_match a b in
    let left = matched-Common fuel (take m.in_a a) (take m.in_b b) in
    let right = matched-Common fuel (drop (m.in_a + m.size) a) (drop (m.in_b + m.size) b) in
    by_size _ _ m.size refl (around-Common a b m (find_longest_match-IsBlock a b) left right)
  where
    by_size :
        (l r k : ℕ)
        → (find_longest_match a b).size ≡ k
        → Common a b (l + ((find_longest_match a b).size + r))
        → Common a b (elim k as (λ _. ℕ) [ zero ↦ 0 | suc k ↦ l + suc k + r ])
    by_size l r zero e c = nothing
    by_size l r (suc k) e c =
        let same : l + ((find_longest_match a b).size + r) ≡ l + suc k + r = omega (arith, e) in
        subst (Common a b) same c

-- As many tokens as match are, in their order, tokens of both lists.
pub matching-Common : (a b : List String) → Common a b (matching a b)
unfolding matching
matching-Common a b = matched-Common (length a) a b
