-- ===== src/Copycat/Record.antt =====
-- The record of observations and blocks only grows.
use burnisher.Base.{
  ℕ, String, ◌≡◌, refl, sym, ap, subst, ◌∙◌, Bool, true, false, not, ◌&&◌, Option, none, some, List,
  [], ◌∷◌, ◌++◌, arith, if◌then◌else◌, if-cases, is_some, or_else,
}
use burnisher.Base.Eq.{◌==◌, string_eq, nat_eq}
use burnisher.Base.Dict.{lookup, has_key, insert, lookup-insert, eq_of_test}
use burnisher.Base.Num.{Num}
use burnisher.Base.Texts.{strip}
use burnisher.Receipt.{truthy}
use burnisher.Copycat.Judge.{Entry, Judgement}
use burnisher.Copycat.Guard.{
  Block, Action, block, unblock, Corpus, load_corpus, record_entry, current_block, append_block,
  entry_name, Git, Args, is_maintainer, blocked, exempt, cleared, Answer, refused, lifted, answered,
  Request, required,
}
use burnisher.Copycat.Answer.{plain, block_of, is_found_copy, conclude, compare_open, answer, main}

-- The entries of one corpus are those of another that has more, and so is the start of the log.
pub record Extends (old new : Corpus) : Type 0 where
  pub entries_kept :
      (name : String) (e : Entry)
      → lookup name old.entries ≡ some e
      → lookup name new.entries ≡ some e
  pub added : List Action
  pub log_kept : new.log ≡ old.log ++ added

-- where the flag is set, nothing changes
abbrev pub SameIf : Bool → Corpus → Corpus → Type 0
SameIf true old new = new ≡ old
SameIf false old new = Unit

same_if : {old new : Corpus} (b : Bool) → (b ≡ true → new ≡ old) → SameIf b old new
same_if true h = h refl
same_if false h = tt

module _ {ℓ} {A : Type ℓ} where
  append_nil : (xs : List A) → xs ++ [] ≡ xs
  append_nil [] = refl
  append_nil (x ∷ xs) = ap (λ t. x ∷ t) (append_nil xs)

  append_assoc : (xs ys zs : List A) → (xs ++ ys) ++ zs ≡ xs ++ (ys ++ zs)
  append_assoc [] ys zs = refl
  append_assoc (x ∷ xs) ys zs = ap (λ t. x ∷ t) (append_assoc xs ys zs)

Extends-refl : (c : Corpus) → Extends c c
Extends-refl c = record {
  entries_kept = λ name e h. h;
  added = [];
  log_kept = sym (append_nil c.log);
}

append_block-Extends :
    (old new : Corpus) (a : Action) → Extends old new → Extends old (append_block a new)
append_block-Extends old new a x = record {
  entries_kept = x.entries_kept;
  added = x.added ++ a ∷ [];
  log_kept = ap (λ l. l ++ a ∷ []) x.log_kept ∙ append_assoc old.log x.added (a ∷ []);
}

-- An observation is written once: a name that is taken keeps its entry.
record_entry-Extends : (entry : Entry) (c : Corpus) → Extends c (record_entry entry c)
unfolding record_entry
record_entry-Extends entry c =
    let key = entry_name entry.pr entry.head in
    if-cases (Extends c) (has_key key c.entries) c
      (record c { entries = insert key entry c.entries }) (λ _. Extends-refl c)
      (λ absent. record {
        entries_kept = λ name e h. other name e h (key == name) refl absent;
        added = [];
        log_kept = sym (append_nil c.log);
      })
  where
    other :
        (name : String) (e : Entry)
        → lookup name c.entries ≡ some e
        → (b : Bool) → (entry_name entry.pr entry.head == name) ≡ b
        → has_key (entry_name entry.pr entry.head) c.entries ≡ false
        → lookup name (insert (entry_name entry.pr entry.head) entry c.entries) ≡ some e
    other name e h true p absent =
        let same = eq_of_test (entry_name entry.pr entry.head) name p in
        let found : is_some (lookup name c.entries) ≡ false =
          subst (λ k. has_key k c.entries ≡ false) same absent in
        let there_is : is_some (lookup name c.entries) ≡ true = ap is_some h in cc
    other name e h false p absent =
        lookup-insert (entry_name entry.pr entry.head) name entry c.entries ∙ rw p h

module _ (R : Type 0) ⦃n : Num R⦄ (hash : String → String) (args : Args) (git : Git)
    (corpus : Corpus) where
  -- A run extends the record, and with `no_record` it leaves it as it was.
  abbrev Kept : Answer R × Corpus → Type 0
  Kept p = Extends corpus p.1 × (args.no_record ≡ true → p.1 ≡ corpus)

  conclude-Kept :
      (req : Request) (entry : Entry) (stacked : List ℕ) (k : ℕ) (o : Option (Judgement R))
      (c : Corpus)
      → Extends corpus c
      → (args.no_record ≡ true → c ≡ corpus)
      → Kept (conclude R hash args git req entry stacked k o c)
  unfolding conclude
  conclude-Kept req entry stacked k none c x h = (x, h)
  conclude-Kept req entry stacked k (some j) c x h =
      if-cases Kept (is_found_copy j.outcome && not args.no_record) _ _
        (λ q. (append_block-Extends corpus c _ x, λ r. written r q)) (λ q. (x, h))
    where
      written :
          args.no_record ≡ true
          → (is_found_copy j.outcome && not args.no_record) ≡ true
          → append_block (block (block_of args git req j)) c ≡ corpus
      written r q = ground (arith, r, q)

  abbrev LiftedExtends : Answer R × Corpus → Type 0
  LiftedExtends p = Extends corpus p.1

  decided-Kept :
      (req : Request) (entry : Entry) (observed : List Entry) (c : Corpus)
      → Extends corpus c
      → (args.no_record ≡ true → c ≡ corpus)
      → Kept (
          if is_maintainer args req.author
          then (answered (plain R git req entry exempt), c)
          else if args.cleared
          then (answered (plain R git req entry cleared), c)
          else elim (current_block c.log req.author) [
            | some b ↦ (
              answered
                  (record (plain R git req entry blocked) { is_blocked = true; block = some b }),
              c,
            )
            | none ↦ compare_open R hash args git req entry observed c
          ])
  unfolding compare_open
  decided-Kept req entry observed c x h =
      if-cases Kept (is_maintainer args req.author) _ _ (λ _. (x, h))
        (λ _.
          if-cases Kept args.cleared _ _ (λ _. (x, h)) (λ _. go (current_block c.log req.author)))
    where
      go :
          (o : Option Block)
          → Kept (elim o [
            | some b ↦ (
              answered
                  (record (plain R git req entry blocked) { is_blocked = true; block = some b }),
              c,
            )
            | none ↦ compare_open R hash args git req entry observed c
          ])
      go (some b) = (x, h)
      go none = conclude-Kept req entry _ _ _ c x h

  answer-Kept : (req : Request) → Kept (answer R hash args git req corpus)
  unfolding answer
  answer-Kept req =
      decided-Kept req _ (load_corpus corpus) _
        (if-cases (Extends corpus) args.no_record corpus _ (λ _. Extends-refl corpus)
          (λ _. record_entry-Extends _ corpus))
        (λ r. rw r refl)

  required-Kept :
      (o : Option Request)
      → Kept (elim o [
        | none ↦ (refused, corpus)
        | some req ↦
            if git.corpus_inside then (refused, corpus) else answer R hash args git req corpus
      ])
  required-Kept none = (Extends-refl corpus, λ _. refl)
  required-Kept (some req) =
      if-cases Kept git.corpus_inside (refused, corpus) (answer R hash args git req corpus)
        (λ _. (Extends-refl corpus, λ _. refl)) (λ _. answer-Kept req)

  -- A run only adds: every observation on record keeps its entry, with the time it was first seen, and
  -- the block log gains lines at its end. Without an unblock, a run that is not to record leaves both
  -- as they were.
  pub main-Extends :
      Extends corpus (main R hash args git corpus).1
      × SameIf (not (truthy args.unblock) && args.no_record) corpus (main R hash args git corpus).1
  unfolding main
  main-Extends =
      let login = or_else args.unblock "" in
      if-cases
        (λ (p : Answer R × Corpus).
          Extends corpus p.1 × SameIf (not (truthy args.unblock) && args.no_record) corpus p.1)
        (truthy args.unblock) _ _ (λ given. (lift login, rw given tt))
        (λ absent.
          let (x, h) = required-Kept (required args) in (x, rw absent (same_if args.no_record h)))
    where
      lift :
          (login : String)
          → LiftedExtends (
              if strip args.reason == ""
              then (refused, corpus)
              else (lifted login, append_block (unblock login args.reason args.now) corpus))
      lift login =
          if-cases LiftedExtends (strip args.reason == "") (refused, corpus)
            (lifted login, append_block (unblock login args.reason args.now) corpus)
            (λ _. Extends-refl corpus)
            (λ _. append_block-Extends corpus corpus _ (Extends-refl corpus))
