-- ===== src/Copycat/Owners.antt =====
-- The place that a token is given is a line of the run it was read from.
use burnisher.Base.{
  ℕ, suc, String, ◌≡◌, sym, ap, subst, ◌⊎◌, inl, inr, false, List, [], ◌∷◌, ◌++◌, map, arith,
  length, In, here, there, In-cons, ◌+◌, ◌<◌,
}
use burnisher.Base.Eq.{string_eq, nat_eq}
use burnisher.Copycat.Comments.{strip_lines, strip_comments, length-strip_lines}
use burnisher.Copycat.Tokens.{Token, canonical_tokens, tokens_from, find_tokens, normalize_token}

In-append : {A : Type 0} {x : A} (xs ys : List A) → In x (xs ++ ys) → In x xs ⊎ In x ys
In-append [] ys i = inr i
In-append {A} {x} (z ∷ xs) ys i = elim (In-cons i) [
  | inl e ↦ inl (subst (λ w. In w (z ∷ xs)) (sym e) here)
  | inr j ↦ later (In-append xs ys j)
]
  where
    later : In x xs ⊎ In x ys → In x (z ∷ xs) ⊎ In x ys
    later (inl j) = inl (there j)
    later (inr j) = inr j

owned :
    (li : ℕ) (tokens : List Token) {t : String} {k : ℕ}
    → In {A = String × ℕ} (t, k) (map (λ x. (normalize_token x, li)) tokens)
    → k ≡ li
owned li [] i = elim i [ ]
owned li (x ∷ tokens) {t} {k} i = elim (In-cons i) [
  | inl e ↦ ap (λ (p : String × ℕ). p.1) e
  | inr j ↦ owned li tokens j
]

tokens_from-bound :
    (li : ℕ) (lines : List String) {t : String} {k : ℕ}
    → In {A = String × ℕ} (t, k) (tokens_from li lines)
    → k < li + length lines
unfolding tokens_from
tokens_from-bound li [] i = elim i [ ]
tokens_from-bound li (line ∷ lines) {t} {k} i =
    elim (In-append (map (λ x. (normalize_token x, li)) (find_tokens 0 line))
      (tokens_from (suc li) lines) i) [
        | inl j ↦ omega (arith, owned li (find_tokens 0 line) j)
        | inr j ↦ omega (arith, tokens_from-bound (suc li) lines j)
      ]

pub canonical_tokens-bound :
    (lines : List String) (path t : String) (k : ℕ)
    → In {A = String × ℕ} (t, k) (canonical_tokens lines path)
    → k < length lines
unfolding canonical_tokens strip_comments
canonical_tokens-bound lines path t k i = omega (
  arith,
  tokens_from-bound 0 (strip_lines path false lines) i,
  length-strip_lines path false lines,
)
