-- ===== src/Tests/Copycats.antt =====
-- Runs of the copycat guard and of what it is made of. The digest of a text is the text itself.
use burnisher.Base.{
  ℕ, String, ◌≡◌, refl, Bool, true, false, Option, none, some, List, [], ◌∷◌, ◌++◌, arith, length,
  In,
}
use burnisher.Base.Eq.{◌==◌, string_eq, nat_eq}
use burnisher.Base.Int.{ℤ}
use burnisher.Base.Fixed.{fixed}
use burnisher.Base.Texts.{
  text_length, find_text, take_text, drop_text, ends_with, strip_start, strip_end, strip, lower,
  map_text, translate, is_space,
}
use burnisher.Copycat.{parse_diff, read_line, flush, diff_path, is_code}
use burnisher.Copycat.Comments.{
  strip_comments, strip_lines, strip_line, strip_open, without_blocks, cut_at, has_hash_comments,
}
use burnisher.Copycat.Outside.{code_of}
use burnisher.Copycat.Blocks.{Without, strip_comments-Without}
use burnisher.Copycat.Tokens.{
  canonical_tokens, tokens_from, find_tokens, next_token, span, literal_rest, normalize_token,
}
use burnisher.Copycat.Fingerprint.{winnow, kgrams}
use burnisher.Copycat.Shared.{winnow-kgrams}
use burnisher.Copycat.Judge.{
  Entry, found_copy, found_review, found_clear, Judgement, judge, is_reference, login, landed,
  place_all, place_row, kind_of, decide, slot, best_row, earliest, compare_with,
}
use burnisher.Copycat.Fair.{judge-Sound, Sound}
use burnisher.Copycat.Guard.{Corpus, block, Git, Args}
use burnisher.Copycat.Answer.{main}
use burnisher.Copycat.Standing.{main-standing, standing, next_standing, AnswerFits}
use burnisher.Copycat.Record.{main-Extends, Extends, SameIf}

abbrev source_lines : List String
source_lines = "int x; /* a" ∷ "b */ y = 1; // c /*" ∷ "/* d */ z" ∷ []

-- The last comment of the second line opens a block, though it stands behind `//`.
stripped : strip_comments source_lines "a.cu" ≡ "int x; " ∷ " y = 1; " ∷ " z" ∷ []
unfolding strip_comments strip_lines strip_line strip_open without_blocks cut_at has_hash_comments
    ends_with text_length find_text take_text drop_text strip_start is_space
stripped = refl

opens : find_text "/*" "int x; /* a" ≡ some 7
unfolding find_text
opens = refl

no_end : find_text "*/" "still a comment" ≡ none
unfolding find_text
no_end = refl

closes : find_text "*/" "b */ y = 1;" ≡ some 2
unfolding find_text
closes = refl

abbrev block_lines : List String
block_lines = "int x; /* a" ∷ "still a comment" ∷ "b */ y = 1;" ∷ "z" ∷ []

block_stripped : strip_comments block_lines "a.cu" ≡ "int x; " ∷ "" ∷ " y = 1;" ∷ "z" ∷ []
unfolding strip_comments strip_lines strip_line strip_open without_blocks cut_at has_hash_comments
    ends_with text_length find_text take_text drop_text strip_start is_space
block_stripped = refl

no_block : find_text "/*" "x = 1; // one" ≡ none
unfolding find_text
no_block = refl

strip_comments-Without_example :
    (strip_comments ("x = 1; // one" ∷ block_lines) "a.cu"
      ≡ code_of "a.cu" "x = 1; // one" ∷ strip_comments block_lines "a.cu")
    × Without "a.cu" "int x; /* a"
        ("still a comment" ∷ [])
        "b */ y = 1;"
        ("z" ∷ [])
        7
        2
        (find_text "*/" (drop_text 9 "int x; /* a"))
    × ((length (strip_comments block_lines "a.cu") ≡ length block_lines)
        × ((line : String)
            → In line (strip_comments block_lines "a.cu")
            → find_text "/*" line ≡ none))
strip_comments-Without_example =
    strip_comments-Without "a.cu" "x = 1; // one" "int x; /* a" "b */ y = 1;"
      ("still a comment" ∷ []) ("z" ∷ []) 7 2 no_block opens (no_end, tt) closes

code_of_example : code_of "a.cu" "x = 1; // one" ≡ "x = 1; "
unfolding has_hash_comments ends_with find_text take_text drop_text strip_start is_space
code_of_example = refl

tokens_of_line :
    canonical_tokens ("float x_1 = 2.5f + \"a\\\"b\" <<< y->z;" ∷ []) "a.cu"
    ≡ ("float", 0)
      ∷ ("I", 0)
      ∷ ("=", 0)
      ∷ ("N", 0)
      ∷ ("+", 0)
      ∷ ("S", 0)
      ∷ ("<<<", 0)
      ∷ ("I", 0)
      ∷ ("->", 0)
      ∷ ("I", 0)
      ∷ (";", 0)
      ∷ []
unfolding canonical_tokens tokens_from find_tokens next_token span literal_rest normalize_token
    strip_comments strip_lines strip_line strip_open without_blocks cut_at has_hash_comments
    ends_with text_length find_text take_text drop_text strip_start is_space
tokens_of_line = refl

abbrev diff_lines : List String
diff_lines =
    "diff --git a/x.cu b/x.cu" ∷ "--- a/x.cu" ∷ "+++ b/x.cu" ∷ "@@ -1 +1,2 @@" ∷ " old;" ∷ "+new;"
    ∷ "-gone;" ∷ "diff --git a/r.md b/r.md" ∷ "+++ b/r.md" ∷ "+text" ∷ []

parsed :
    parse_diff diff_lines
    ≡ ("x.cu", record { added = ("new;" ∷ []) ∷ []; before = "old;" ∷ "gone;" ∷ [] }) ∷ []
unfolding parse_diff read_line flush diff_path is_code ends_with drop_text strip strip_start
    strip_end is_space
parsed = refl

abbrev digest : String → String
digest s = s

abbrev shared_run : List String
shared_run =
    "a" ∷ "b" ∷ "c" ∷ "d" ∷ "e" ∷ "f" ∷ "g" ∷ "h" ∷ "i" ∷ "j" ∷ "k" ∷ "l" ∷ "m" ∷ "n" ∷ "o" ∷ "p"
    ∷ "q" ∷ "r" ∷ "s" ∷ []

winnow-kgrams_example :
    (h : String) × (In h (winnow (kgrams digest (("x" ∷ "y" ∷ []) ++ (shared_run ++ []))))
      × In h (winnow (kgrams digest ([] ++ (shared_run ++ "z" ∷ [])))))
winnow-kgrams_example =
    winnow-kgrams digest ("x" ∷ "y" ∷ []) [] [] ("z" ∷ []) shared_run (omega arith)

abbrev prints : List String
prints =
    "1" ∷ "2" ∷ "3" ∷ "4" ∷ "5" ∷ "6" ∷ "7" ∷ "8" ∷ "9" ∷ "10" ∷ "11" ∷ "12" ∷ "13" ∷ "14" ∷ "15"
    ∷ "16" ∷ "17" ∷ "18" ∷ "19" ∷ "20" ∷ []

abbrev entry_by : ℕ → String → String → Entry
entry_by pr author first_seen = record {
  pr = pr;
  author = some author;
  head = "abcdef0123456789";
  first_seen = first_seen;
  added = prints;
  base = [];
  paths = "x.cu" ∷ [];
}

abbrev is_copy_of : ℕ → Option (Judgement ℤ) → Bool
is_copy_of k none = false
is_copy_of k (some j) = elim j.outcome [
  | found_copy ↦ elim j.row [ none ↦ false | some r ↦ r.ref.pr == k ]
  | found_review ↦ false
  | found_clear ↦ false
]

-- The copy of the submission that was seen first, whatever its number.
copied :
    is_copy_of 9 (
      judge ℤ [] [] []
        (entry_by 7 "mallory" "2026-01-03")
        (entry_by 9 "alice" "2026-01-01" ∷ entry_by 8 "bob" "2026-01-02" ∷ []))
    ≡ true
unfolding judge is_reference login lower map_text translate compare_with landed place_all place_row
    kind_of decide slot best_row earliest
copied = refl

judge-Sound_example :
    (j : Judgement ℤ) × ((judge ℤ [] [] []
          (entry_by 7 "mallory" "2026-01-03")
          (entry_by 9 "alice" "2026-01-01" ∷ [])
        ≡ some j)
      × Sound [] (entry_by 7 "mallory" "2026-01-03") (entry_by 9 "alice" "2026-01-01" ∷ []) j)
judge-Sound_example =
    judge-Sound [] [] [] (entry_by 7 "mallory" "2026-01-03") (entry_by 9 "alice" "2026-01-01" ∷ [])

abbrev git : Git
git = record {
  diff_from_merge_base = some diff_lines;
  diff_from_base = [];
  head = "0123456789abcdef";
  is_ancestor = λ h. false;
  tree = [];
  corpus_inside = false;
}

abbrev guard_args : Args
guard_args = record {
  repo = some "worktree";
  pr = some 7;
  author = some "Mallory";
  open_prs = some (7 ∷ 9 ∷ []);
  maintainers = "alice, Bob";
  cleared = false;
  no_record = false;
  unblock = none;
  reason = "";
  now = "2026-01-04";
}

abbrev blocked_corpus : Corpus
blocked_corpus = record {
  entries = ("pr-000009-abcdef012345.json", entry_by 9 "alice" "2026-01-01") ∷ [];
  log =
      block (record { author = "mallory"; pr = 7; head = "00"; original = none; at = "2026-01-02" })
      ∷ [];
}

main-standing_example :
    ((author : String)
      → standing (main ℤ digest guard_args git blocked_corpus).1.log author
        ≡ next_standing guard_args
            (main ℤ digest guard_args git blocked_corpus).0
            (standing blocked_corpus.log)
            author)
    × AnswerFits guard_args
        (standing blocked_corpus.log)
        (main ℤ digest guard_args git blocked_corpus).0
main-standing_example = main-standing ℤ digest guard_args git blocked_corpus

main-Extends_example :
    Extends blocked_corpus (main ℤ digest guard_args git blocked_corpus).1
    × SameIf true blocked_corpus
        (main ℤ digest (record guard_args { no_record = true }) git blocked_corpus).1
main-Extends_example = (
  (main-Extends ℤ digest guard_args git blocked_corpus).0,
  (main-Extends ℤ digest (record guard_args { no_record = true }) git blocked_corpus).1,
)
