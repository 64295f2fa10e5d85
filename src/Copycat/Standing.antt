-- ===== src/Copycat/Standing.antt =====
-- Who is blocked: the block log against an abstract record of each author's standing.
use burnisher.Base.{
  ℕ, String, ◌≡◌, refl, sym, ap, ◌∙◌, Bool, true, false, not, ◌&&◌, Option, none, some, List, [],
  ◌∷◌, ◌++◌, arith, if◌then◌else◌, if-cases, is_some, or_else,
}
use burnisher.Base.Eq.{◌==◌, string_eq, nat_eq}
use burnisher.Base.Dict.{has_key, insert}
use burnisher.Base.Num.{Num}
use burnisher.Base.Texts.{lower, strip}
use burnisher.Receipt.{truthy}
use burnisher.Copycat.Evidence.{evidence}
use burnisher.Copycat.Judge.{Entry, Outcome, found_copy, found_review, found_clear, Judgement}
use burnisher.Copycat.Guard.{
  Block, Action, block, unblock, Corpus, load_corpus, record_entry, current_block, append_block,
  same_author, last_action, block_in, entry_name, Git, submission_diff, Args, is_maintainer,
  GuardOutcome, exempt, cleared, blocked, judged, Doc, Answer, refused, lifted, answered, raised,
  Request, required,
}
use burnisher.Copycat.Answer.{
  plain, block_of, is_found_copy, is_evidenced, row_shared, conclude, compare_open, answer, main,
}

abbrev is_block : Action → Bool
is_block (block b) = true
is_block (unblock author reason at) = false

-- whether each author is blocked, by the login
abbrev pub Standing : Type 0
Standing = String → Bool

abbrev pub standing : List Action → Standing
standing log author = is_some (current_block log author)

last_action-append :
    (author : String) (last : Option Action) (log : List Action) (action : Action)
    → last_action author last (log ++ action ∷ [])
      ≡ (if same_author author action then some action else last_action author last log)
last_action-append author last [] action = refl
last_action-append author last (a ∷ log) action =
    last_action-append author (if same_author author a then some a else last) log action

-- The latest action for an author decides.
standing-append :
    (log : List Action) (action : Action) (author : String)
    → standing (log ++ action ∷ []) author
      ≡ (if same_author author action then is_block action else standing log author)
unfolding current_block
standing-append log action author =
    rw (last_action-append author none log action)
      (go action (same_author author action) (last_action author none log))
  where
    go :
        (a : Action) (b : Bool) (o : Option Action)
        → is_some (block_in (if b then some a else o))
          ≡ (if b then is_block a else is_some (block_in o))
    go (block x) true o = refl
    go (unblock x y z) true o = refl
    go a false o = refl

record_entry-log : (entry : Entry) (corpus : Corpus) → (record_entry entry corpus).log ≡ corpus.log
unfolding record_entry
record_entry-log entry corpus =
    if-cases (λ (c : Corpus). c.log ≡ corpus.log)
      (has_key (entry_name entry.pr entry.head) corpus.entries) corpus
      (record corpus { entries = insert (entry_name entry.pr entry.head) entry corpus.entries })
      (λ _. refl) (λ _. refl)

abbrev is_blocked_outcome : GuardOutcome → Bool
is_blocked_outcome blocked = true
is_blocked_outcome _ = false

abbrev is_copy_outcome : GuardOutcome → Bool
is_copy_outcome (judged found_copy) = true
is_copy_outcome _ = false

-- What an answer does to the standing of an author.
abbrev pub next_standing : {R : Type 0} → Args → Answer R → Standing → Standing
next_standing args refused s author = s author
next_standing args raised s author = s author
next_standing args (lifted login) s author = if lower login == lower author then false else s author
next_standing args (answered doc) s author =
    if lower doc.author == lower author && (is_copy_outcome doc.outcome && not args.no_record)
    then true
    else s author

-- When a document says that its author is blocked.
abbrev pub DocFits : {R : Type 0} → Args → Standing → Doc R → Type 0
DocFits args s doc =
    is_blocked_outcome doc.outcome
    ≡ (s doc.author && (not (is_maintainer args doc.author) && not args.cleared))

abbrev pub AnswerFits : {R : Type 0} → Args → Standing → Answer R → Type 0
AnswerFits args s (answered doc) = DocFits args s doc
AnswerFits args s _ = Unit

copy_outcome : (o : Outcome) → is_found_copy o ≡ is_copy_outcome (judged o)
copy_outcome found_copy = refl
copy_outcome found_review = refl
copy_outcome found_clear = refl

module _ (x y s : Bool) where
  both : y ≡ true → (if x then true else s) ≡ (if x && y then true else s)
  both h = ground arith

  neither : y ≡ false → s ≡ (if x && y then true else s)
  neither h = ground arith

module _ (R : Type 0) ⦃n : Num R⦄ (hash : String → String) (args : Args) (git : Git)
    (corpus : Corpus) where
  abbrev Refined : Answer R × Corpus → Type 0
  Refined p =
      ((author : String)
        → standing p.1.log author ≡ next_standing args p.0 (standing corpus.log) author)
      × AnswerFits args (standing corpus.log) p.0

  conclude-Refined :
      (req : Request) (entry : Entry) (stacked : List ℕ) (k : ℕ) (o : Option (Judgement R))
      (c : Corpus)
      → c.log ≡ corpus.log
      → standing corpus.log req.author && (not (is_maintainer args req.author) && not args.cleared)
        ≡ false
      → Refined (conclude R hash args git req entry stacked k o c)
  unfolding conclude
  conclude-Refined req entry stacked k none c e h = ((λ a. ap (λ l. standing l a) e), tt)
  conclude-Refined req entry stacked k (some j) c e h =
      if-cases Refined (is_found_copy j.outcome && not args.no_record)
        (answered (record doc { is_blocked = true; block = some b }), append_block (block b) c)
        (answered doc, c)
        (λ q. (
          λ a.
              standing-append c.log (block b) a
              ∙ ap (λ l. if lower req.author == lower a then true else standing l a) e
              ∙ both (lower req.author == lower a) (copied && not args.no_record)
                  (standing corpus.log a) (sym (is_copied) ∙ q),
          sym h,
        ))
        (λ q. (
          λ a.
              ap (λ l. standing l a) e
              ∙ neither (lower req.author == lower a) (copied && not args.no_record)
                  (standing corpus.log a) (sym (is_copied) ∙ q),
          sym h,
        ))
    where
      b : Block
      b = block_of args git req j

      copied : Bool
      copied = is_copy_outcome (judged j.outcome)

      is_copied : (is_found_copy j.outcome && not args.no_record) ≡ (copied && not args.no_record)
      is_copied = ap (λ x. x && not args.no_record) (copy_outcome j.outcome)

      doc : Doc R
      doc = record (plain R git req entry (judged j.outcome)) {
        verdict = some j;
        evidence =
            if is_evidenced j.outcome
            then evidence hash (row_shared j) (submission_diff git)
            else [];
        stacked_on = stacked;
        compared = some k;
      }

  -- the branches of `answer`, from what is on record before and after the observation
  decided-Refined :
      (req : Request) (entry : Entry) (observed : List Entry) (c : Corpus)
      → c.log ≡ corpus.log
      → Refined (
          if is_maintainer args req.author
          then (answered (plain R git req entry exempt), c)
          else if args.cleared
          then (answered (plain R git req entry cleared), c)
          else elim (current_block c.log req.author) [
            | some b ↦ (
              answered
                  (record (plain R git req entry blocked) { is_blocked = true; block = some b }),
              c,
            )
            | none ↦ compare_open R hash args git req entry observed c
          ])
  unfolding compare_open
  decided-Refined req entry observed c e =
      go (is_maintainer args req.author) refl args.cleared refl (current_block c.log req.author)
        refl
    where
      s : Bool
      s = standing corpus.log req.author

      kept : (a : String) → standing c.log a ≡ standing corpus.log a
      kept a = ap (λ l. standing l a) e

      unblocked : {o : Option Block} → current_block c.log req.author ≡ o → s ≡ is_some o
      unblocked p = sym (kept req.author) ∙ ap is_some p

      go :
          (m : Bool)
          → is_maintainer args req.author ≡ m
          → (k : Bool) → args.cleared ≡ k
          → (o : Option Block) → current_block c.log req.author ≡ o
          → Refined (
              if m
              then (answered (plain R git req entry exempt), c)
              else if k
              then (answered (plain R git req entry cleared), c)
              else elim o [
                | some b ↦ (
                  answered (record (plain R git req entry blocked) {
                    is_blocked = true;
                    block = some b;
                  }),
                  c,
                )
                | none ↦ compare_open R hash args git req entry observed c
              ])
      go true p k q o r = (
        λ a. kept a ∙ neither (lower req.author == lower a) false (standing corpus.log a) refl,
        rw p (ground arith),
      )
      go false p true q o r = (
        λ a. kept a ∙ neither (lower req.author == lower a) false (standing corpus.log a) refl,
        rw q (ground arith),
      )
      go false p false q (some b) r = (
        λ a. kept a ∙ neither (lower req.author == lower a) false (standing corpus.log a) refl,
        ground (arith, p, q, unblocked r),
      )
      go false p false q none r =
          conclude-Refined req entry _ _ _ c e (ground (arith, p, q, unblocked r))

  answer-Refined : (req : Request) → Refined (answer R hash args git req corpus)
  unfolding answer
  answer-Refined req = decided-Refined req _ (load_corpus corpus) _ (
      if-cases (λ (c : Corpus). c.log ≡ corpus.log) args.no_record corpus _ (λ _. refl)
        (λ _. record_entry-log _ corpus))

  required-Refined :
      (o : Option Request)
      → Refined (elim o [
        | none ↦ (refused, corpus)
        | some req ↦
            if git.corpus_inside then (refused, corpus) else answer R hash args git req corpus
      ])
  required-Refined none = ((λ a. refl), tt)
  required-Refined (some req) =
      if-cases Refined git.corpus_inside (refused, corpus) (answer R hash args git req corpus)
        (λ _. ((λ a. refl), tt)) (λ _. answer-Refined req)

  -- One run changes who is blocked exactly as its answer says: a COPY that is recorded blocks its
  -- author, an unblock frees the login it names, and nobody else's standing changes. The answer is
  -- BLOCKED exactly when the author is blocked, is no maintainer, and is not cleared.
  pub main-standing :
      ((author : String)
        → standing (main R hash args git corpus).1.log author
          ≡ next_standing args (main R hash args git corpus).0 (standing corpus.log) author)
      × AnswerFits args (standing corpus.log) (main R hash args git corpus).0
  unfolding main
  main-standing =
      let login = or_else args.unblock "" in
      let given = truthy args.unblock in
      if-cases Refined given _ _
        (λ _.
          if-cases Refined (strip args.reason == "") (refused, corpus)
            (lifted login, append_block (unblock login args.reason args.now) corpus)
            (λ _. ((λ a. refl), tt))
            (λ _. ((λ a. standing-append corpus.log (unblock login args.reason args.now) a), tt)))
        (λ _. required-Refined (required args))
