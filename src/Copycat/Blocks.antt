-- ===== src/Copycat/Blocks.antt =====
-- What the stripping of comments takes out: a block comment within a line, and one over several lines.
use burnisher.Base.{
  ℕ, String, ◌≡◌, refl, sym, ap, ◌∙◌, Bool, true, false, Option, none, some, List, [], ◌∷◌, ◌++◌,
  map, length, In, All, ◌+◌,
}
use burnisher.Base.Eq.{string_eq, nat_eq}
use burnisher.Base.Texts.{drop_text, take_text, find_text}
use burnisher.Copycat.Comments.{strip_open, strip_line, strip_lines, strip_comments}
use burnisher.Copycat.Uncommented.{strip_comments-Clean}
use burnisher.Copycat.Outside.{
  cut_block, code_of, strip_open-inside, strip_open-open, strip_open-plain,
}

-- what is left of a line in a comment, by where it ends
abbrev ended : String → String → Option ℕ → String × Bool
ended path s o = elim o [ none ↦ ("", true) | some end ↦ strip_open path (drop_text (end + 2) s) ]

abbrev continued : String → List String → String × Bool → List String
continued path rest x = x.0 ∷ strip_lines path x.1 rest

within_line :
    (path s : String) (rest : List String) (o : Option ℕ)
    → find_text "*/" s ≡ o
    → strip_lines path true (s ∷ rest) ≡ continued path rest (ended path s o)
unfolding strip_lines strip_line
within_line path s rest o h = ap (λ z. continued path rest (ended path s z)) h

outside_line :
    (path s : String) (rest : List String)
    → strip_lines path false (s ∷ rest) ≡ continued path rest (strip_open path s)
unfolding strip_lines strip_line
outside_line path s rest = refl

-- the lines within a comment, and the rest of the line that ends it
within_lines :
    (path c : String) (e : ℕ) (mids rest : List String)
    → All (λ m. find_text "*/" m ≡ none) mids
    → find_text "*/" c ≡ some e
    → strip_lines path true (mids ++ c ∷ rest)
      ≡ map (λ _. "") mids ++ strip_lines path false (drop_text (e + 2) c ∷ rest)
within_lines path c e [] rest h k =
    within_line path c rest (some e) k ∙ sym (outside_line path (drop_text (e + 2) c) rest)
within_lines path c e (m ∷ mids) rest (h, hs) k =
    within_line path m (mids ++ c ∷ rest) none h
    ∙ ap (λ ls. "" ∷ ls) (within_lines path c e mids rest hs k)

abbrev pub Without :
    String → String → List String → String → List String → ℕ → ℕ → Option ℕ → Type 0
Without path s mids c rest a e (some k) =
    strip_comments (s ∷ mids ++ c ∷ rest) path
    ≡ strip_comments (cut_block s a k ∷ mids ++ c ∷ rest) path
Without path s mids c rest a e none =
    strip_comments (s ∷ mids ++ c ∷ rest) path
    ≡ code_of path (take_text a s) ∷ map (λ _. "") mids
      ++ strip_comments (drop_text (e + 2) c ∷ rest) path

plain_line :
    (path t : String) (rest : List String)
    → find_text "/*" t ≡ none
    → strip_lines path false (t ∷ rest) ≡ code_of path t ∷ strip_lines path false rest
plain_line path t rest h =
    outside_line path t rest ∙ ap (continued path rest) (strip_open-plain path t h)

-- A line `t` without the start of a block comment becomes its code, and the lines below it are stripped
-- as they are alone. Now take a line `s` in which a comment starts, with lines below it that no comment
-- ends in, up to a line `c` that one ends in. Where the comment ends in `s`, the lines are stripped as
-- those with a blank in its place. Where it does not, what is kept of `s` is the code of what stands
-- before it, the lines below are empty, and after its end in `c` the lines are stripped as lines that
-- begin there. And always there is one line for each line, and none holds the start of a block comment:
-- the loop over the comments of a line ends.
pub strip_comments-Without :
    (path t s c : String) (mids rest : List String) (a e : ℕ)
    → find_text "/*" t ≡ none
    → find_text "/*" s ≡ some a
    → All (λ m. find_text "*/" m ≡ none) mids
    → find_text "*/" c ≡ some e
    → (strip_comments (t ∷ s ∷ mids ++ c ∷ rest) path
        ≡ code_of path t ∷ strip_comments (s ∷ mids ++ c ∷ rest) path)
      × Without path s mids c rest a e (find_text "*/" (drop_text (a + 2) s))
      × ((length (strip_comments (s ∷ mids ++ c ∷ rest) path) ≡ length (s ∷ mids ++ c ∷ rest))
          × ((line : String)
              → In line (strip_comments (s ∷ mids ++ c ∷ rest) path)
              → find_text "/*" line ≡ none))
unfolding strip_comments
strip_comments-Without path t s c mids rest a e plain h hs k = (
  plain_line path t (s ∷ mids ++ c ∷ rest) plain,
  by_end (find_text "*/" (drop_text (a + 2) s)) refl,
  strip_comments-Clean (s ∷ mids ++ c ∷ rest) path,
)
  where
    by_end :
        (o : Option ℕ) → find_text "*/" (drop_text (a + 2) s) ≡ o → Without path s mids c rest a e o
    by_end (some k) q =
        outside_line path s (mids ++ c ∷ rest)
        ∙ ap (continued path (mids ++ c ∷ rest)) (strip_open-inside path s a k h q)
        ∙ sym (outside_line path (cut_block s a k) (mids ++ c ∷ rest))
    by_end none q =
        outside_line path s (mids ++ c ∷ rest)
        ∙ ap (continued path (mids ++ c ∷ rest)) (strip_open-open path s a h q)
        ∙ ap (λ ls. code_of path (take_text a s) ∷ ls) (within_lines path c e mids rest hs k)
