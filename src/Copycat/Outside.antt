-- ===== src/Copycat/Outside.antt =====
-- What is left of a line outside a block comment, in `strip_comments` of eval/burnscore/copycat.py.
use Prim.Native.String.{◌++◌ as text_append}
use text.Mathlib.Text.{starts_with}
use burnisher.Base.{
  ℕ, zero, suc, String, ◌≤◌, ◌≡◌, refl, sym, ap, ◌∙◌, Bool, true, false, ◌&&◌, Option, none, some,
  arith, if◌then◌else◌, ◌+◌,
}
use burnisher.Base.Eq.{string_eq, nat_eq}
use burnisher.Base.Texts.{ends_with, strip_start, drop_text, take_text, text_length, find_text}
use burnisher.Copycat.Comments.{without_blocks, cut_at, has_hash_comments, strip_open}
use burnisher.Copycat.Uncommented.{is_empty_text, shorter}

-- the line without its first block comment
abbrev pub cut_block : String → ℕ → ℕ → String
cut_block s a k = text_append (take_text a s) (text_append " " (drop_text (a + 2 + k + 2) s))

-- one round of the loop, from where a comment starts in the line and where it ends
abbrev round : ℕ → String → Option ℕ → String × Bool
round fuel s o = elim o [
  | none ↦ (s, false)
  | some a ↦ elim (find_text "*/" (drop_text (a + 2) s)) [
    | none ↦ (take_text a s, true)
    | some k ↦ without_blocks fuel (cut_block s a k)
  ]
]

without_blocks-empty :
    (fuel : ℕ) (s : String) → text_length s ≤ 0 → without_blocks fuel s ≡ (s, false)
unfolding without_blocks
without_blocks-empty zero s h = refl
without_blocks-empty (suc fuel) s h = ap (round fuel s) (is_empty_text s h)

-- With fuel for the length of the line, more fuel changes nothing.
without_blocks-fuel :
    (f g : ℕ) (s : String)
    → text_length s ≤ f
    → text_length s ≤ g
    → without_blocks f s ≡ without_blocks g s
unfolding without_blocks
without_blocks-fuel zero g s h k = sym (without_blocks-empty g s h)
without_blocks-fuel (suc f) zero s h k = without_blocks-empty (suc f) s k
without_blocks-fuel (suc f) (suc g) s h k =
    go (find_text "/*" s) (λ t p q. without_blocks-fuel f g t p q)
  where
    inner :
        (a : ℕ) (o : Option ℕ)
        → find_text "*/" (drop_text (a + 2) s) ≡ o
        → ((t : String)
            → text_length t ≤ f
            → text_length t ≤ g
            → without_blocks f t ≡ without_blocks g t)
        → (elim o as (λ _. String × Bool) [
          | none ↦ (take_text a s, true)
          | some e ↦ without_blocks f (cut_block s a e)
        ])
          ≡ (elim o as (λ _. String × Bool) [
            | none ↦ (take_text a s, true)
            | some e ↦ without_blocks g (cut_block s a e)
          ])
    inner a none q rec = refl
    inner a (some e) q rec =
        rec (cut_block s a e) (omega (arith, shorter s a e q)) (omega (arith, shorter s a e q))

    go :
        (o : Option ℕ)
        → ((t : String)
            → text_length t ≤ f
            → text_length t ≤ g
            → without_blocks f t ≡ without_blocks g t)
        → round f s o ≡ round g s o
    go none rec = refl
    go (some a) rec = inner a (find_text "*/" (drop_text (a + 2) s)) refl rec

-- A line that a comment starts in is not empty, so there is fuel for a round.
first_round :
    (s : String) (a : ℕ)
    → find_text "/*" s ≡ some a
    → (f : ℕ) × ((text_length s ≡ suc f) × (without_blocks (text_length s) s ≡ round f s (some a)))
unfolding without_blocks
first_round s a h = go (text_length s) refl
  where
    go :
        (l : ℕ)
        → text_length s ≡ l
        → (f : ℕ) × ((l ≡ suc f) × (without_blocks l s ≡ round f s (some a)))
    go zero e = let wrong = is_empty_text s (omega (arith, e)) in cc
    go (suc f) e = (f, (refl, ap (round f s) h))

without_blocks-inside :
    (s : String) (a k : ℕ)
    → find_text "/*" s ≡ some a
    → find_text "*/" (drop_text (a + 2) s) ≡ some k
    → without_blocks (text_length s) s
      ≡ without_blocks (text_length (cut_block s a k)) (cut_block s a k)
without_blocks-inside s a k h q =
    let (f, (e, one)) = first_round s a h in
    one
    ∙ ap
        (λ o. elim o as (λ _. String × Bool) [
          | none ↦ (take_text a s, true)
          | some k ↦ without_blocks f (cut_block s a k)
        ])
        q
    ∙ without_blocks-fuel f (text_length (cut_block s a k)) (cut_block s a k)
        (omega (arith, e, shorter s a k q)) (omega arith)

without_blocks-open :
    (s : String) (a : ℕ)
    → find_text "/*" s ≡ some a
    → find_text "*/" (drop_text (a + 2) s) ≡ none
    → without_blocks (text_length s) s ≡ (take_text a s, true)
without_blocks-open s a h q =
    let (f, (e, one)) = first_round s a h in
    one
    ∙ ap
        (λ o. elim o as (λ _. String × Bool) [
          | none ↦ (take_text a s, true)
          | some k ↦ without_blocks f (cut_block s a k)
        ])
        q

without_blocks-clean :
    (fuel : ℕ) (s : String) → find_text "/*" s ≡ none → without_blocks fuel s ≡ (s, false)
unfolding without_blocks
without_blocks-clean zero s h = refl
without_blocks-clean (suc fuel) s h = ap (round fuel s) h

-- the rest of the work on a line outside a block
abbrev finished : String → String × Bool → String × Bool
finished path x =
    let cut = if ends_with path ".py" then x.0 else cut_at "//" x.0 in
    (if has_hash_comments path && starts_with (strip_start cut) "#" then "" else cut, x.1)

strip_open-finished :
    (path s : String) → strip_open path s ≡ finished path (without_blocks (text_length s) s)
unfolding strip_open
strip_open-finished path s = refl

pub strip_open-inside :
    (path s : String) (a k : ℕ)
    → find_text "/*" s ≡ some a
    → find_text "*/" (drop_text (a + 2) s) ≡ some k
    → strip_open path s ≡ strip_open path (cut_block s a k)
strip_open-inside path s a k h q =
    strip_open-finished path s
    ∙ ap (finished path) (without_blocks-inside s a k h q)
    ∙ sym (strip_open-finished path (cut_block s a k))

-- the code of a line without a block comment: nothing where `#` starts a comment, and what stands before
-- `//`, which is no comment in Python
abbrev pub code_of : String → String → String
code_of path t =
    let code : String = elim (find_text "//" t) [
      | none ↦ t
      | some i ↦ if ends_with path ".py" then t else take_text i t
    ] in
    if has_hash_comments path && starts_with (strip_start code) "#" then "" else code

finished-code_of : (path t : String) → finished path (t, false) ≡ (code_of path t, false)
unfolding cut_at
finished-code_of path t = by_slashes (find_text "//" t) (ends_with path ".py")
  where
    hashed : String → String × Bool
    hashed code =
        (if has_hash_comments path && starts_with (strip_start code) "#" then "" else code, false)

    by_slashes :
        (o : Option ℕ) (py : Bool)
        → hashed (if py then t else elim o [ none ↦ t | some i ↦ take_text i t ])
          ≡ hashed (elim o [ none ↦ t | some i ↦ if py then t else take_text i t ])
    by_slashes none true = refl
    by_slashes none false = refl
    by_slashes (some i) true = refl
    by_slashes (some i) false = refl

pub strip_open-open :
    (path s : String) (a : ℕ)
    → find_text "/*" s ≡ some a
    → find_text "*/" (drop_text (a + 2) s) ≡ none
    → strip_open path s ≡ (code_of path (take_text a s), true)
strip_open-open path s a h q =
    strip_open-finished path s
    ∙ ap (finished path) (without_blocks-open s a h q)
    ∙ ap (λ (x : String × Bool). (x.0, true)) (finished-code_of path (take_text a s))

pub strip_open-plain :
    (path t : String) → find_text "/*" t ≡ none → strip_open path t ≡ (code_of path t, false)
strip_open-plain path t h =
    strip_open-finished path t
    ∙ ap (finished path) (without_blocks-clean (text_length t) t h)
    ∙ finished-code_of path t
