-- ===== src/Copycat/Answer.antt =====
-- `main` of scripts/copycat_guard.py: what one run answers, and what it leaves on record.
use burnisher.Base.{
  ℕ, String, Bool, true, false, not, ◌&&◌, Option, none, some, List, [], map, if◌then◌else◌, length,
  keep, find, or_else,
}
use burnisher.Base.Eq.{◌==◌, string_eq, nat_eq}
use burnisher.Base.Dict.{elem}
use burnisher.Base.Num.{Num}
use burnisher.Base.Texts.{strip}
use burnisher.Receipt.{truthy}
use burnisher.Copycat.Fingerprint.{Fingerprint, fingerprint_diff, fingerprint_sources, boilerplate}
use burnisher.Copycat.Evidence.{evidence}
use burnisher.Copycat.Judge.{Entry, Outcome, found_copy, found_clear, Judgement, judge, original}
use burnisher.Copycat.Guard.{
  Block, block, unblock, Corpus, load_corpus, record_entry, current_block, append_block, Git,
  submission_diff, main_sources, stacked_on, latest, values, Args, is_maintainer, GuardOutcome,
  exempt, cleared, blocked, judged, Doc, Answer, refused, lifted, answered, raised, Request,
  required,
}

-- this head's observation, with the time it was first seen
unfoldable pub observe : Fingerprint → Args → Git → Request → List Entry → Entry
observe fp args git req observed = record {
  pr = req.pr;
  author = some req.author;
  head = git.head;
  first_seen = elim (find (λ (e : Entry). e.pr == req.pr && e.head == git.head) observed) [
    | none ↦ args.now
    | some e ↦ e.first_seen
  ];
  added = fp.added;
  base = fp.base;
  paths = fp.paths;
}

abbrev pub is_evidenced : Outcome → Bool
is_evidenced found_clear = false
is_evidenced _ = true

abbrev pub is_found_copy : Outcome → Bool
is_found_copy found_copy = true
is_found_copy _ = false

abbrev pub row_shared : {R : Type 0} → Judgement R → List String
row_shared j = elim j.row [ none ↦ [] | some r ↦ r.shared ]

-- the document before the answer is known
abbrev pub plain : (R : Type 0) → Git → Request → Entry → GuardOutcome → Doc R
plain R git req entry outcome = record {
  pr = req.pr;
  author = req.author;
  head = git.head;
  first_seen = entry.first_seen;
  outcome = outcome;
  verdict = none;
  evidence = [];
  is_blocked = false;
  block = none;
  stacked_on = [];
  compared = none;
}

-- the block that a copy earns
abbrev pub block_of : {R : Type 0} → Args → Git → Request → Judgement R → Block
block_of args git req j = record {
  author = req.author;
  pr = req.pr;
  head = git.head;
  original = original j;
  at = args.now;
}

module _ (R : Type 0) ⦃n : Num R⦄ (hash : String → String) (args : Args) (git : Git) where
  -- A verdict is written down; a copy blocks its author, unless nothing is to be recorded.
  unfoldable pub conclude :
      Request → Entry → List ℕ → ℕ → Option (Judgement R) → Corpus → Answer R × Corpus
  conclude req entry stacked compared none corpus = (raised, corpus)
  conclude req entry stacked compared (some j) corpus =
      let quoted =
        if is_evidenced j.outcome then evidence hash (row_shared j) (submission_diff git) else [] in
      let doc : Doc R = record (plain R git req entry (judged j.outcome)) {
        verdict = some j;
        evidence = quoted;
        stacked_on = stacked;
        compared = some compared;
      } in
      let b = block_of args git req j in
      if is_found_copy j.outcome && not args.no_record
      then (
        answered (record doc { is_blocked = true; block = some b }),
        append_block (block b) corpus,
      )
      else (answered doc, corpus)

  -- the submission against the other pull requests that are open
  unfoldable pub compare_open : Request → Entry → List Entry → Corpus → Answer R × Corpus
  unfolding conclude
  compare_open req entry observed corpus =
      let others = keep (λ (e : Entry). not (e.pr == req.pr) && elem e.pr req.open_prs) observed in
      let stacked = stacked_on git others [] in
      let boiler = boilerplate (map (λ (e : Entry). e.added) (values (latest others []))) in
      let on_main = fingerprint_sources hash (main_sources git.tree) in
      conclude req entry stacked (length others) (judge R on_main boiler stacked entry others)
        corpus

  unfoldable pub answer : Request → Corpus → Answer R × Corpus
  unfolding observe compare_open is_maintainer
  answer req corpus =
      let observed = load_corpus corpus in
      let fp = fingerprint_diff hash (submission_diff git) in
      let entry = observe fp args git req observed in
      let recorded = if args.no_record then corpus else record_entry entry corpus in
      if is_maintainer args req.author
      then (answered (plain R git req entry exempt), recorded)
      else if args.cleared
      then (answered (plain R git req entry cleared), recorded)
      else elim (current_block recorded.log req.author) [
        | some b ↦ (
          answered (record (plain R git req entry blocked) { is_blocked = true; block = some b }),
          recorded,
        )
        | none ↦ compare_open req entry observed recorded
      ]

  unfoldable pub main : Corpus → Answer R × Corpus
  unfolding answer strip
  main corpus =
      if truthy args.unblock
      then (let login = or_else args.unblock "" in
          if strip args.reason == ""
          then (refused, corpus)
          else (lifted login, append_block (unblock login args.reason args.now) corpus))
      else elim (required args) [
        | none ↦ (refused, corpus)
        | some req ↦ if git.corpus_inside then (refused, corpus) else answer req corpus
      ]
