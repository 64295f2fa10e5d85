-- ===== src/Reregistration/Same.antt =====
-- Two equal token lists match as a whole.
use burnisher.Base.{
  ℕ, zero, suc, String, ◌≤◌, ◌≡◌, refl, sym, ap, subst, ◌∙◌, List, [], ◌∷◌, arith, length, take,
  drop, ◌+◌, ◌<◌,
}
use burnisher.Base.Eq.{string_eq, nat_eq}
use burnisher.Base.Dict.{eq_self}
use burnisher.Reregistration.Similar.{
  common_prefix, Match, no_match, longer, match_row, match_rows, find_longest_match, matched,
  matching,
}

common_prefix_self : (a : List String) → common_prefix a a ≡ length a
common_prefix_self [] = refl
common_prefix_self (x ∷ a) = rw (eq_self x) (ap suc (common_prefix_self a))

common_prefix-le : (a b : List String) → common_prefix a b ≤ length a
common_prefix-le [] b = omega arith
common_prefix-le (x ∷ a) [] = omega arith
common_prefix-le (x ∷ a) (y ∷ b) = ground (arith, common_prefix-le a b)

longer-kept : (best m : Match) → m.size ≤ best.size → longer best m ≡ best
longer-kept best m h = ground arith

longer-taken : (best m : Match) → best.size < m.size → longer best m ≡ m
longer-taken best m h = ground arith

match_row-kept :
    (i j : ℕ) (a b : List String) (best : Match)
    → length a ≤ best.size
    → match_row i j a b best ≡ best
match_row-kept i j a [] best h = refl
match_row-kept i j a (y ∷ b) best h =
    let m : Match = record { in_a = i; in_b = j; size = common_prefix a (y ∷ b) } in
    ap (match_row i (suc j) a b) (longer-kept best m (omega (arith, common_prefix-le a (y ∷ b))))
    ∙ match_row-kept i (suc j) a b best h

match_rows-kept :
    (i : ℕ) (a b : List String) (best : Match) → length a ≤ best.size → match_rows i a b best ≡ best
match_rows-kept i [] b best h = refl
match_rows-kept i (x ∷ a) b best h =
    ap (match_rows (suc i) a b) (match_row-kept i 0 (x ∷ a) b best h)
    ∙ match_rows-kept (suc i) a b best (omega (arith, h))

whole : List String → Match
whole a = record { in_a = 0; in_b = 0; size = length a }

find_longest_match_self :
    (x : String) (a : List String) → find_longest_match (x ∷ a) (x ∷ a) ≡ whole (x ∷ a)
unfolding find_longest_match whole
find_longest_match_self x a =
    let m : Match = record { in_a = 0; in_b = 0; size = common_prefix (x ∷ a) (x ∷ a) } in
    let best = whole (x ∷ a) in
    let first : longer no_match m ≡ best =
      ap (λ k. longer no_match (record { in_a = 0; in_b = 0; size = k }))
        (common_prefix_self (x ∷ a))
      ∙ longer-taken no_match best (omega arith) in
    ap (λ z. match_rows 1 a (x ∷ a) (match_row 0 1 (x ∷ a) a z)) first
    ∙ ap (match_rows 1 a (x ∷ a)) (match_row-kept 0 1 (x ∷ a) a best (omega arith))
    ∙ match_rows-kept 1 a (x ∷ a) best (omega arith)

matched_nil : (fuel : ℕ) → matched fuel [] [] ≡ 0
unfolding matched find_longest_match
matched_nil zero = refl
matched_nil (suc fuel) = refl

drop_all : {A : Type 0} (xs : List A) → drop (length xs) xs ≡ []
drop_all [] = refl
drop_all (x ∷ xs) = drop_all xs

drop_past : (x : String) (a : List String) → drop (0 + suc (length a)) (x ∷ a) ≡ []
drop_past x a =
    let e : 0 + suc (length a) ≡ suc (length a) = omega arith in
    ap (λ k. drop k (x ∷ a)) e ∙ drop_all a

pub matching_self : (a : List String) → matching a a ≡ length a
unfolding matching matched
matching_self [] = refl
matching_self (x ∷ a) =
    subst (λ m. with_match m ≡ length (x ∷ a)) (sym (find_longest_match_self x a))
      (unfold whole in
        rw (matched_nil (length a), drop_past x a, matched_nil (length a)) (omega arith))
  where
    with_match : Match → ℕ
    with_match m = elim m.size [
      | zero ↦ 0
      | suc k ↦
          matched (length a) (take m.in_a (x ∷ a)) (take m.in_b (x ∷ a))
          + suc k
          + matched (length a) (drop (m.in_a + m.size) (x ∷ a)) (drop (m.in_b + m.size) (x ∷ a))
    ]
