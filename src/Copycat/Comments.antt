-- ===== src/Copycat/Comments.antt =====
-- `strip_comments` of eval/burnscore/copycat.py.
use Prim.Native.String.{◌++◌ as text_append}
use text.Mathlib.Text.{starts_with}
use burnisher.Base.{
  ℕ, zero, suc, String, ◌≡◌, refl, ap, Bool, true, false, ◌&&◌, ◌||◌, none, some, List, [], ◌∷◌,
  if◌then◌else◌, length, any, ◌+◌,
}
use burnisher.Base.Eq.{string_eq, nat_eq}
use burnisher.Base.Texts.{ends_with, strip_start, drop_text, take_text, text_length, find_text}
use burnisher.Copycat.{hash_comment_ext}

-- The loop over the comments that one line opens: what is left of the line, and whether the last
-- stays open. Every comment that is taken out makes the line shorter, so its length is fuel enough.
unfoldable pub without_blocks : ℕ → String → String × Bool
without_blocks zero s = (s, false)
without_blocks (suc fuel) s = elim (find_text "/*" s) [
  | none ↦ (s, false)
  | some a ↦ elim (find_text "*/" (drop_text (a + 2) s)) [
    | none ↦ (take_text a s, true)
    | some k ↦
        without_blocks fuel
          (text_append (take_text a s) (text_append " " (drop_text (a + 2 + k + 2) s)))
  ]
]

-- `s[:s.find(t)]` where `t` occurs
unfoldable pub cut_at : String → String → String
cut_at t s = elim (find_text t s) [ none ↦ s | some i ↦ take_text i s ]

unfoldable pub has_hash_comments : String → Bool
unfolding ends_with
has_hash_comments path = any (ends_with path) hash_comment_ext || ends_with path "CMakeLists.txt"

-- a line outside a block comment
unfoldable pub strip_open : String → String → String × Bool
unfolding without_blocks text_length cut_at has_hash_comments ends_with strip_start
strip_open path s =
    let (kept, in_block) = without_blocks (text_length s) s in
    let cut = if ends_with path ".py" then kept else cut_at "//" kept in
    let is_hash = has_hash_comments path && starts_with (strip_start cut) "#" in
    (if is_hash then "" else cut, in_block)

-- one line, and whether a block comment is open before it and after it
unfoldable pub strip_line : String → Bool → String → String × Bool
unfolding strip_open
strip_line path false s = strip_open path s
strip_line path true s = elim (find_text "*/" s) [
  | none ↦ ("", true)
  | some end ↦ strip_open path (drop_text (end + 2) s)
]

unfoldable pub strip_lines : String → Bool → List String → List String
unfolding strip_line
strip_lines path in_block [] = []
strip_lines path in_block (s ∷ lines) =
    let (kept, after) = strip_line path in_block s in kept ∷ strip_lines path after lines

unfoldable pub strip_comments : List String → String → List String
unfolding strip_lines
strip_comments lines path = strip_lines path false lines

-- Every line has its stripped line, so the place of a token is a line of the run.
pub length-strip_lines :
    (path : String) (b : Bool) (lines : List String)
    → length (strip_lines path b lines) ≡ length lines
unfolding strip_lines
length-strip_lines path b [] = refl
length-strip_lines path b (s ∷ lines) =
    ap suc (length-strip_lines path (strip_line path b s).1 lines)
