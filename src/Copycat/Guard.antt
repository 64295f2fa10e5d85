-- ===== src/Copycat/Guard.antt =====
-- scripts/copycat_guard.py: the record of observations, the block log, and the guard's answer. What
-- git answers is a parameter. The text of a reason is left out: it is made of the fields kept here.
use Prim.Native.String.{◌++◌ as text_append}
use burnisher.Base.{
  ℕ, String, Bool, true, Option, none, some, List, [], ◌∷◌, ◌++◌, if◌then◌else◌, or_else,
}
use burnisher.Base.Eq.{◌==◌, string_eq, nat_eq}
use burnisher.Base.Dict.{Dict, lookup, has_key, insert, elem}
use burnisher.Base.Texts.{lower, strip, take_text, split_on}
use burnisher.Base.Decimal.{padded}
use burnisher.Base.Sort.{sort_by, text_before}
use burnisher.Copycat.{is_code}
use burnisher.Copycat.Evidence.{Hit}
use burnisher.Copycat.Judge.{Entry, Outcome, Judgement}

pub record Block : Type 0 where
  pub author : String
  pub pr : ℕ
  pub head : String
  pub original : Option Entry
  pub at : String

-- a line of `blocked.jsonl`
pub data Action : Type 0 where
  block : Block → Action
  unblock : String → String → String → Action

abbrev pub author_of : Action → String
author_of (block b) = b.author
author_of (unblock author reason at) = author

-- `entries` under the names of their files, and the block log.
pub record Corpus : Type 0 where
  pub entries : Dict String Entry
  pub log : List Action

unfoldable pub entry_name : ℕ → String → String
unfolding take_text padded
entry_name pr head =
    text_append "pr-"
      (text_append (padded 6 pr) (text_append "-" (text_append (take_text 12 head) ".json")))

abbrev pub values : {K V : Type 0} → Dict K V → List V
values [] = []
values ((k, v) ∷ d) = v ∷ values d

-- in the order of the file names
unfoldable pub load_corpus : Corpus → List Entry
load_corpus corpus = values (sort_by (λ (p q : String × Entry). text_before p.0 q.0) corpus.entries)

-- A head that is on record keeps its first-seen time.
unfoldable pub record_entry : Entry → Corpus → Corpus
unfolding entry_name
record_entry entry corpus =
    let name = entry_name entry.pr entry.head in
    if has_key name corpus.entries
    then corpus
    else record corpus { entries = insert name entry corpus.entries }

abbrev pub same_author : String → Action → Bool
same_author author action = lower (author_of action) == lower author

-- the last action for an author, after `last`
abbrev pub last_action : String → Option Action → List Action → Option Action
last_action author last [] = last
last_action author last (action ∷ log) =
    last_action author (if same_author author action then some action else last) log

abbrev pub block_in : Option Action → Option Block
block_in none = none
block_in (some (block b)) = some b
block_in (some (unblock author reason at)) = none

-- the block in force for an author
unfoldable pub current_block : List Action → String → Option Block
current_block log author = block_in (last_action author none log)

abbrev pub append_block : Action → Corpus → Corpus
append_block action corpus = record corpus { log = corpus.log ++ action ∷ [] }

-- What git answers about the worktree: the diff from the merge base (none where git fails), the diff
-- from the base, the head, which commits are in its history, the base's files, each with its lines
-- where git shows it; and whether the corpus lies inside the worktree.
pub record Git : Type 0 where
  pub diff_from_merge_base : Option (List String)
  pub diff_from_base : List String
  pub head : String
  pub is_ancestor : String → Bool
  pub tree : List (String × Option (List String))
  pub corpus_inside : Bool

abbrev pub submission_diff : Git → List String
submission_diff git = or_else git.diff_from_merge_base git.diff_from_base

unfoldable pub main_sources : List (String × Option (List String)) → Dict String (List String)
unfolding is_code
main_sources [] = []
main_sources ((path, none) ∷ tree) = main_sources tree
main_sources ((path, some lines) ∷ tree) =
    let rest = main_sources tree in if is_code path then (path, lines) ∷ rest else rest

-- the recorded pull requests whose head is in this branch's history
unfoldable pub stacked_on : Git → List Entry → List ℕ → List ℕ
stacked_on git [] out = out
stacked_on git (e ∷ entries) out =
    stacked_on git entries
      (if elem e.pr out then out else if git.is_ancestor e.head then out ++ e.pr ∷ [] else out)

-- each pull request's latest observation
unfoldable pub latest : List Entry → Dict ℕ Entry → Dict ℕ Entry
latest [] d = d
latest (e ∷ entries) d =
    let is_later : Bool = elim (lookup e.pr d) [
      | none ↦ true
      | some old ↦ text_before old.first_seen e.first_seen
    ] in
    latest entries (if is_later then insert e.pr e d else d)

-- `open_prs` are the numbers read from the argument.
pub record Args : Type 0 where
  pub repo : Option String
  pub pr : Option ℕ
  pub author : Option String
  pub open_prs : Option (List ℕ)
  pub maintainers : String
  pub cleared : Bool
  pub no_record : Bool
  pub unblock : Option String
  pub reason : String
  pub now : String

unfoldable pub read_maintainers : List String → List String
unfolding strip
read_maintainers [] = []
read_maintainers (m ∷ ms) =
    let rest = read_maintainers ms in
    let login = strip m in if login == "" then rest else lower login ∷ rest

unfoldable pub is_maintainer : Args → String → Bool
unfolding read_maintainers split_on
is_maintainer args author = elem (lower author) (read_maintainers (split_on "," args.maintainers))

pub data GuardOutcome : Type 0 where
  exempt cleared blocked : GuardOutcome
  judged : Outcome → GuardOutcome

pub record Doc (R : Type 0) : Type 0 where
  pub pr : ℕ
  pub author : String
  pub head : String
  pub first_seen : String
  pub outcome : GuardOutcome
  pub verdict : Option (Judgement R)
  pub evidence : List Hit
  pub is_blocked : Bool
  pub block : Option Block
  pub stacked_on : List ℕ
  pub compared : Option ℕ

-- exit status 2, the lifted block, the verdict's document, or the exception of `judge`
pub data Answer (R : Type 0) : Type 0 where
  refused : Answer R
  lifted : String → Answer R
  answered : Doc R → Answer R
  raised : Answer R

-- what must be given
pub record Request : Type 0 where
  pub pr : ℕ
  pub author : String
  pub open_prs : List ℕ

abbrev pub required : Args → Option Request
required args = elim args.repo [
  | none ↦ none
  | some repo ↦ elim args.pr [
    | none ↦ none
    | some pr ↦ elim args.author [
      | none ↦ none
      | some author ↦ elim args.open_prs [
        | none ↦ none
        | some open_prs ↦ some (record { pr = pr; author = author; open_prs = open_prs })
      ]
    ]
  ]
]
