-- ===== src/Copycat/Evidence.antt =====
-- `evidence` of eval/burnscore/copycat.py: the added lines that shared fingerprints come from.
use burnisher.Base.{
  ℕ, String, List, [], ◌∷◌, ◌++◌, map, if◌then◌else◌, ltb, leb, length, get_elem?, take, or_else,
}
use burnisher.Base.Eq.{◌==◌, string_eq, nat_eq}
use burnisher.Base.Dict.{Dict, elem, adjoin}
use burnisher.Base.Texts.{join, strip}
use burnisher.Base.Sort.{sort_by}
use burnisher.Copycat.{k_tokens, parse_diff, FileDiff}
use burnisher.Copycat.Tokens.{canonical_tokens}
use burnisher.Copycat.Fingerprint.{windows, first}

pub record Hit : Type 0 where
  pub path : String
  pub line : String

abbrev pub limit : ℕ
limit = 12

abbrev owner : String × ℕ → ℕ
owner (t, li) = li

abbrev add_owners : List (String × ℕ) → List ℕ → List ℕ
add_owners [] lines = lines
add_owners ((t, li) ∷ w) lines = add_owners w (adjoin li lines)

-- the lines of the shared k-grams: `owners[i:i + K]` for each
unfoldable pub shared_lines :
    (String → String) → List String → List (List (String × ℕ)) → List ℕ → List ℕ
unfolding join
shared_lines hash shared [] lines = lines
shared_lines hash shared (w ∷ ws) lines =
    shared_lines hash shared ws
      (if elem (hash (join " " (map first w))) shared then add_owners w lines else lines)

-- `run[li]`, whose place is always a line of the run (Copycat/Owners)
abbrev line_at : List String → ℕ → String
line_at run li = or_else (get_elem? run li) ""

unfoldable pub hits_of : String → List String → List ℕ → List Hit
unfolding strip
hits_of path run [] = []
hits_of path run (li ∷ lines) =
    let rest = hits_of path run lines in
    let line = strip (line_at run li) in
    if line == "" then rest else record { path = path; line = line } ∷ rest

module _ (hash : String → String) (shared : List String) where
  unfoldable pub run_hits : String → List String → List Hit
  unfolding windows shared_lines hits_of
  run_hits path run =
      let toks = canonical_tokens run path in
      hits_of path run (sort_by ltb (shared_lines hash shared (windows k_tokens toks) []))

  -- The runs of all files, in order, until there are enough hits.
  unfoldable pub collect : List (String × List String) → List Hit → List Hit
  unfolding run_hits
  collect [] hits = hits
  collect ((path, run) ∷ runs) hits =
      let more = hits ++ run_hits path run in
      let rest = collect runs more in if leb limit (length more) then take limit more else rest

  abbrev runs_of : Dict String FileDiff → List (String × List String)
  runs_of [] = []
  runs_of ((path, f) ∷ files) = map (λ run. (path, run)) f.added ++ runs_of files

  unfoldable pub evidence : List String → List Hit
  unfolding collect
  evidence lines = collect (runs_of (parse_diff lines)) []
