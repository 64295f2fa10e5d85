-- ===== src/Reregistration/Similar.antt =====
-- `difflib.SequenceMatcher(None, a, b, autojunk=False).ratio()` on token lists: twice the tokens in
-- matching blocks over all tokens. A block is the longest stretch that both lists have, the first in
-- `a` and then in `b` among equals; what stands left and right of it is matched again.
use burnisher.Base.{
  ℕ, zero, suc, String, List, [], ◌∷◌, if◌then◌else◌, ltb, length, take, drop, ◌+◌,
}
use burnisher.Base.Eq.{◌==◌, string_eq, nat_eq}

abbrev pub common_prefix : List String → List String → ℕ
common_prefix [] b = 0
common_prefix (x ∷ a) [] = 0
common_prefix (x ∷ a) (y ∷ b) = let rest = suc (common_prefix a b) in if x == y then rest else 0

-- a match: where it begins in either list, and its length
pub record Match : Type 0 where
  pub in_a : ℕ
  pub in_b : ℕ
  pub size : ℕ

abbrev pub no_match : Match
no_match = record { in_a = 0; in_b = 0; size = 0 }

abbrev pub longer : Match → Match → Match
longer best m = if ltb best.size m.size then m else best

-- the tokens of `a` from place `i` against each place of `b` from `j` on
abbrev pub match_row : ℕ → ℕ → List String → List String → Match → Match
match_row i j a [] best = best
match_row i j a (y ∷ b) best =
    match_row i (suc j) a b
      (longer best (record { in_a = i; in_b = j; size = common_prefix a (y ∷ b) }))

abbrev pub match_rows : ℕ → List String → List String → Match → Match
match_rows i [] b best = best
match_rows i (x ∷ a) b best = match_rows (suc i) a b (match_row i 0 (x ∷ a) b best)

unfoldable pub find_longest_match : List String → List String → Match
find_longest_match a b = match_rows 0 a b no_match

-- How many tokens the matching blocks hold. Each side of a block is shorter than the whole, so the
-- length of `a` is fuel enough.
unfoldable pub matched : ℕ → List String → List String → ℕ
unfolding find_longest_match
matched zero a b = 0
matched (suc fuel) a b =
    let m = find_longest_match a b in
    let left = matched fuel (take m.in_a a) (take m.in_b b) in
    let right = matched fuel (drop (m.in_a + m.size) a) (drop (m.in_b + m.size) b) in
    elim m.size [ zero ↦ 0 | suc k ↦ left + suc k + right ]

unfoldable pub matching : List String → List String → ℕ
unfolding matched
matching a b = matched (length a) a b
