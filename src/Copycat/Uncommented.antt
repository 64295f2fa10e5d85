-- ===== src/Copycat/Uncommented.antt =====
-- What the stripping of comments leaves: as many lines, and no block comment in any.
use Prim.Native.String.{◌++◌ as text_append}
use text.Mathlib.Text.{starts_with}
use burnisher.Base.{
  ℕ, zero, suc, String, ◌≤◌, ◌≡◌, refl, sym, subst, inl, inr, Bool, true, false, ◌&&◌, Option, none,
  some, List, [], ◌∷◌, arith, if◌then◌else◌, length, In, In-cons, if-cases, ◌+◌,
}
use burnisher.Base.Eq.{string_eq, nat_eq}
use burnisher.Base.Texts.{ends_with, strip_start, drop_text, take_text, text_length, find_text}
use burnisher.Base.TextLaws.{
  length-take_text, length-drop_text, length-text_append, find_text-bound, find_text-take_text,
  absent-take_text,
}
use burnisher.Copycat.Comments.{
  without_blocks, cut_at, has_hash_comments, strip_open, strip_line, strip_lines, strip_comments,
  length-strip_lines,
}

abbrev Clean : String → Type 0
Clean s = find_text "/*" s ≡ none

empty-Clean : Clean ""
unfolding find_text
empty-Clean = refl

pub is_empty_text : (s : String) → text_length s ≤ 0 → Clean s
unfolding text_length
is_empty_text String.[] h = empty-Clean
is_empty_text (String.◌∷◌ c s) h = ground arith

-- One round takes at least three characters out.
pub shorter :
    (s : String) (a k : ℕ)
    → find_text "*/" (drop_text (a + 2) s) ≡ some k
    → suc
        (text_length (text_append (take_text a s) (text_append " " (drop_text (a + 2 + k + 2) s))))
      ≤ text_length s
shorter s a k h =
    let bound = find_text-bound "*/" (drop_text (a + 2) s) k refl h in
    let two : text_length "*/" ≡ 2 = (unfold text_length in refl) in
    let one : text_length " " ≡ 1 = (unfold text_length in refl) in
    omega (
      arith,
      bound,
      two,
      one,
      length-drop_text (a + 2) s,
      length-drop_text (a + 2 + k + 2) s,
      length-take_text a s,
      length-text_append (take_text a s) (text_append " " (drop_text (a + 2 + k + 2) s)),
      length-text_append " " (drop_text (a + 2 + k + 2) s),
    )

without_blocks-Clean :
    (fuel : ℕ) (s : String) → text_length s ≤ fuel → Clean (without_blocks fuel s).0
unfolding without_blocks
without_blocks-Clean zero s h = is_empty_text s h
without_blocks-Clean (suc fuel) s h = go (find_text "/*" s) refl (λ t. without_blocks-Clean fuel t)
  where
    inner :
        (a : ℕ)
        → find_text "/*" s ≡ some a
        → (o : Option ℕ) → find_text "*/" (drop_text (a + 2) s) ≡ o
        → ((t : String) → text_length t ≤ fuel → Clean (without_blocks fuel t).0)
        → Clean (
            (elim o as (λ _. String × Bool) [
              | none ↦ (take_text a s, true)
              | some k ↦
                  without_blocks fuel
                    (text_append (take_text a s) (text_append " " (drop_text (a + 2 + k + 2) s)))
            ]).0)
    inner a e none q rec = find_text-take_text "/*" s a refl e
    inner a e (some k) q rec =
        rec (text_append (take_text a s) (text_append " " (drop_text (a + 2 + k + 2) s)))
          (omega (arith, shorter s a k q))

    go :
        (o : Option ℕ)
        → find_text "/*" s ≡ o
        → ((t : String) → text_length t ≤ fuel → Clean (without_blocks fuel t).0)
        → Clean (
            (elim o as (λ _. String × Bool) [
              | none ↦ (s, false)
              | some a ↦ elim (find_text "*/" (drop_text (a + 2) s)) [
                | none ↦ (take_text a s, true)
                | some k ↦
                    without_blocks fuel
                      (text_append (take_text a s) (text_append " " (drop_text (a + 2 + k + 2) s)))
              ]
            ]).0)
    go none e rec = e
    go (some a) e rec = inner a e (find_text "*/" (drop_text (a + 2) s)) refl rec

cut_at-Clean : (t s : String) → Clean s → Clean (cut_at t s)
unfolding cut_at
cut_at-Clean t s h = go (find_text t s)
  where
    go : (o : Option ℕ) → Clean (elim o as (λ _. String) [ none ↦ s | some i ↦ take_text i s ])
    go none = h
    go (some i) = absent-take_text "/*" s i refl h

strip_open-Clean : (path s : String) → Clean (strip_open path s).0
unfolding strip_open
strip_open-Clean path s =
    let clean = without_blocks-Clean (text_length s) s (omega arith) in
    let kept = (without_blocks (text_length s) s).0 in
    let cut = if ends_with path ".py" then kept else cut_at "//" kept in
    if-cases Clean (has_hash_comments path && starts_with (strip_start cut) "#") "" cut
      (λ _. empty-Clean)
      (λ _.
        if-cases Clean (ends_with path ".py") kept (cut_at "//" kept) (λ _. clean)
          (λ _. cut_at-Clean "//" kept clean))

strip_line-Clean : (path : String) (b : Bool) (s : String) → Clean (strip_line path b s).0
unfolding strip_line
strip_line-Clean path false s = strip_open-Clean path s
strip_line-Clean path true s = go (find_text "*/" s)
  where
    go :
        (o : Option ℕ)
        → Clean (
            (elim o as (λ _. String × Bool) [
              | none ↦ ("", true)
              | some end ↦ strip_open path (drop_text (end + 2) s)
            ]).0)
    go none = empty-Clean
    go (some end) = strip_open-Clean path (drop_text (end + 2) s)

strip_lines-Clean :
    (path : String) (b : Bool) (lines : List String) {line : String}
    → In line (strip_lines path b lines)
    → Clean line
unfolding strip_lines
strip_lines-Clean path b [] i = elim i [ ]
strip_lines-Clean path b (s ∷ lines) {line} i = elim (In-cons i) [
  | inl e ↦ subst Clean (sym e) (strip_line-Clean path b s)
  | inr j ↦ strip_lines-Clean path (strip_line path b s).1 lines j
]

-- Stripping comments gives one line for each line, and no line that it gives holds the start of a
-- block comment: the loop that takes the comments out of a line always comes to its end.
pub strip_comments-Clean :
    (lines : List String) (path : String)
    → (length (strip_comments lines path) ≡ length lines)
      × ((line : String) → In line (strip_comments lines path) → find_text "/*" line ≡ none)
unfolding strip_comments
strip_comments-Clean lines path =
    (length-strip_lines path false lines, λ line i. strip_lines-Clean path false lines i)
