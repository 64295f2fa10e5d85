-- ===== src/PrBot.antt =====
-- eval/pr_bot.py: what the bot knows of a pull request, when one is due, what it records, and the
-- actions it takes on GitHub. `sha` stands for the SHA-256 of a description.
pub mod World
pub mod Evaluate
pub mod Due
pub mod Guards
pub mod Payout
use text.Mathlib.Text.{starts_with}
use burnisher.Base.{
  ℕ, zero, suc, String, ◌≤◌, ◌≡◌, refl, sym, ap, subst, ◌∙◌, ◌≢◌, ◌↔◌, ◌⊎◌, inl, inr, Bool, true,
  false, not, ◌&&◌, ◌||◌, Option, none, some, List, [], ◌∷◌, ◌++◌, map, arith, if◌then◌else◌, ltb,
  leb, length, is_empty, get_elem?, take, drop, any, all, keep, find, In, here, there, In-cons, All,
  keep-In, In-keep, any-In, all-In, All-of_In, find-eq_some, In-append_left, In-append_right,
  Bool-cases, Option-cases, is_some, or_else, ◌+◌, ◌-◌, ◌*◌, ◌<◌,
}
use burnisher.Base.Eq.{Eq, ◌==◌, string_eq, nat_eq}
use burnisher.Base.Dict.{
  Dict, lookup, has_key, insert, keys, elem, adjoin, minus, meet, elem-In, In-elem, minus-In,
  In-minus, lookup-insert, eq_self, eq_of_test,
}
use burnisher.Base.Result.{Result, ok, err, ◌>>=◌, ◌>>◌, require, raise_if, for_each, >>=-eq-ok}
use burnisher.Base.Num.{Num, num, le, lt, num_eq, max, min, neg, abs}

-- A pull request as `gh pr list` reports it. `named_impl` is what the `Implementation name` field
-- of the description says, if it has one.
pub record PullRequest : Type 0 where
  pub number : ℕ
  pub head : String
  pub labels : List String
  pub author : Option String
  pub body : Option String
  pub named_impl : Option String
  pub created_at : String

-- The file `evaluations/pr-N.json`.
pub record EvalRecord : Type 0 where
  pub head : String
  pub body_sha256 : String
  pub outcome : Option String
  pub attempts : ℕ

abbrev pub skipped_label : String
skipped_label = "burnish:skipped-instrument"

abbrev pub copycat_label : String
copycat_label = "burnish:copycat"

abbrev pub copycat_review_label : String
copycat_review_label = "burnish:copycat-review"

abbrev pub cleared_label : String
cleared_label = "copycat-cleared"

abbrev pub blocked_label : String
blocked_label = "burnish:blocked"

abbrev pub reregistered_label : String
reregistered_label = "burnish:reregistered"

abbrev pub reregistration_cleared_label : String
reregistration_cleared_label = "reregistration-cleared"

abbrev pub no_candidate_label : String
no_candidate_label = "burnish:no-candidate"

abbrev pub eval_error_label : String
eval_error_label = "burnish:eval-error"

abbrev pub build_fail_label : String
build_fail_label = "burnish:build-fail"

abbrev pub max_attempts : ℕ
max_attempts = 3

unfoldable pub body_sha : (String → String) → PullRequest → String
body_sha sha pr = sha (or_else pr.body "")

-- the labels that carry an outcome
unfoldable pub outcome_labels : List String → List String
outcome_labels = keep (λ l. starts_with l "burnish:")

-- Is the pull request due again, by what is recorded of it?
unfoldable pub recorded_due :
    (String → String) → PullRequest → List String → Option EvalRecord → Bool
unfolding body_sha
recorded_due sha pr outcome none = false
recorded_due sha pr outcome (some r) =
    if not (r.head == pr.head)
    then true
    else if elem no_candidate_label outcome && not (r.body_sha256 == body_sha sha pr)
    then true
    else elem eval_error_label outcome && ltb r.attempts max_attempts

unfoldable pub needs_evaluation : (String → String) → PullRequest → Option EvalRecord → Bool
needs_evaluation sha pr record' =
    let outcome = outcome_labels pr.labels in
    if is_empty outcome
    then true
    else if elem copycat_label outcome || elem blocked_label outcome
    then elem cleared_label pr.labels
    else if elem copycat_review_label outcome && elem cleared_label pr.labels
    then true
    else if elem reregistered_label outcome && elem reregistration_cleared_label pr.labels
    then true
    else recorded_due sha pr outcome record'

-- the attempts that an outcome leaves on record
unfoldable pub attempts_after : PullRequest → Option EvalRecord → Option String → ℕ
attempts_after pr prev outcome =
    if or_else outcome "" == "EVAL_ERROR"
    then elim prev [
      | none ↦ 1
      | some r ↦
          if r.head == pr.head && or_else r.outcome "" == "EVAL_ERROR" then r.attempts + 1 else 1
    ]
    else 0

-- The record that an outcome leaves for this commit and description.
unfoldable pub next_record :
    (String → String) → PullRequest → Option EvalRecord → Option String → EvalRecord
unfolding attempts_after body_sha
next_record sha pr prev outcome = record {
  head = pr.head;
  body_sha256 = body_sha sha pr;
  outcome = outcome;
  attempts = attempts_after pr prev outcome;
}

-- Nothing is recorded without a ledger, in a dry run, or for the outcome of one.
unfoldable pub record_evaluation :
    (String → String)
    → Bool
    → Bool
    → Dict ℕ EvalRecord
    → PullRequest
    → Option String
    → Dict ℕ EvalRecord
unfolding next_record
record_evaluation sha has_ledger dry_run records pr outcome =
    if not has_ledger || dry_run || or_else outcome "" == "DRY_RUN"
    then records
    else insert pr.number (next_record sha pr (lookup pr.number records) outcome) records

-- The labels of a pull request after `set_label`: the new one in place of every other `burnish:` label.
unfoldable pub relabel : String → List String → List String
relabel label old = adjoin label (keep (λ l. not (starts_with l "burnish:") || l == label) old)
