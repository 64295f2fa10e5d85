-- ===== src/Copycat.antt =====
-- eval/burnscore/copycat.py: the parameters of the copycat verdict, and what a diff adds and
-- touches, file by file. A set is a list without repetition.
pub mod Comments
pub mod Uncommented
pub mod Outside
pub mod Blocks
pub mod Tokens
pub mod Fingerprint
pub mod Shared
pub mod Judge
pub mod Slots
pub mod Decided
pub mod Fair
pub mod Evidence
pub mod Guard
pub mod Answer
pub mod Standing
pub mod Record
pub mod Owners
use burnisher.Base.{
  ℕ, zero, suc, String, ◌≤◌, ◌≡◌, refl, sym, ap, subst, ◌∙◌, ◌≢◌, ◌↔◌, ◌⊎◌, inl, inr, Bool, true,
  false, not, ◌&&◌, ◌||◌, Option, none, some, List, [], ◌∷◌, ◌++◌, map, arith, if◌then◌else◌, ltb,
  leb, length, is_empty, get_elem?, take, drop, any, all, keep, find, In, here, there, In-cons, All,
  keep-In, In-keep, any-In, all-In, All-of_In, find-eq_some, In-append_left, In-append_right,
  keep-append, length-append, if-cases, Bool-cases, Option-cases, is_some, or_else, ◌+◌, ◌-◌, ◌*◌,
  ◌<◌,
}
use burnisher.Base.Eq.{Eq, ◌==◌, string_eq, nat_eq}
use burnisher.Base.Dict.{
  Dict, lookup, has_key, insert, keys, elem, adjoin, minus, meet, elem-In, In-elem, minus-In,
  In-minus, lookup-insert, eq_self, eq_of_test,
}
use burnisher.Base.Result.{Result, ok, err, ◌>>=◌, ◌>>◌, require, raise_if, for_each, >>=-eq-ok}
use burnisher.Base.Num.{Num, num, le, lt, num_eq, max, min, neg, abs}
use burnisher.Base.Texts.{ends_with, strip, drop_text}
use text.Mathlib.Text.{starts_with}

-- tokens in a k-gram
abbrev pub k_tokens : ℕ
k_tokens = 16

-- the winnowing window
abbrev pub window : ℕ
window = 4

abbrev pub min_mass : ℕ
min_mass = 20

abbrev pub tiny_min : ℕ
tiny_min = 2

abbrev pub embed_min : ℕ
embed_min = 60

abbrev pub boilerplate_df : ℕ
boilerplate_df = 3

abbrev pub code_ext : List String
code_ext =
    ".c" ∷ ".cc" ∷ ".cpp" ∷ ".cxx" ∷ ".h" ∷ ".hpp" ∷ ".hh" ∷ ".cu" ∷ ".cuh" ∷ ".py" ∷ ".sh"
    ∷ ".cmake" ∷ []

abbrev pub hash_comment_ext : List String
hash_comment_ext = ".py" ∷ ".sh" ∷ ".cmake" ∷ []

unfoldable pub is_code : String → Bool
unfolding ends_with
is_code path = any (ends_with path) code_ext || ends_with path "CMakeLists.txt"

-- `added`: the lines of each contiguous run; `before`: the lines of context and those removed.
pub record FileDiff : Type 0 where
  pub added : List (List String)
  pub before : List String

abbrev pub no_change : FileDiff
no_change = record { added = []; before = [] }

-- The files so far, the file that is read, and its run of added lines.
pub record Reading : Type 0 where
  pub files : Dict String FileDiff
  pub current : Option String
  pub run : List String

abbrev pub start : Reading
start = record { files = []; current = none; run = [] }

abbrev pub file_at : String → Dict String FileDiff → FileDiff
file_at p files = or_else (lookup p files) no_change

abbrev pub add_run : List String → FileDiff → FileDiff
add_run run f = record f { added = f.added ++ run ∷ [] }

abbrev pub add_before : String → FileDiff → FileDiff
add_before line f = record f { before = f.before ++ line ∷ [] }

unfoldable pub flush : Reading → Reading
flush r =
    let files : Dict String FileDiff = elim r.current [
      | none ↦ r.files
      | some p ↦
          if is_empty r.run then r.files else insert p (add_run r.run (file_at p r.files)) r.files
    ] in
    record r { files = files; run = [] }

-- the path of a line `+++ b/path`, unless it is no code
unfoldable pub diff_path : String → Option String
unfolding strip drop_text is_code
diff_path line =
    let p = strip (drop_text 4 line) in
    let p = if starts_with p "b/" then drop_text 2 p else p in
    if not (p == "/dev/null") && is_code p then some p else none

-- `files.setdefault`, for a file that is read
abbrev pub open_file : Option String → Dict String FileDiff → Dict String FileDiff
open_file none files = files
open_file (some p) files = if has_key p files then files else insert p no_change files

unfoldable pub read_line : Reading → String → Reading
unfolding flush diff_path drop_text
read_line r line =
    let flushed = flush r in
    if starts_with line "diff --git "
    then record flushed { current = none }
    else if starts_with line "+++ "
    then (let p = diff_path line in
        record flushed { current = p; files = open_file p flushed.files })
    else elim r.current [
      | none ↦ r
      | some p ↦
          if starts_with line "--- "
          then r
          else if starts_with line "@@"
          then flushed
          else if starts_with line "+"
          then record r { run = r.run ++ drop_text 1 line ∷ [] }
          else if starts_with line "-" || starts_with line " "
          then record flushed {
            files =
                insert p (add_before (drop_text 1 line) (file_at p flushed.files)) flushed.files;
          }
          else r
    ]

abbrev pub read_lines : Reading → List String → Reading
read_lines r [] = r
read_lines r (line ∷ lines) = read_lines (read_line r line) lines

-- of the lines of the text
unfoldable pub parse_diff : List String → Dict String FileDiff
unfolding read_line flush
parse_diff lines = (flush (read_lines start lines)).files
