-- ===== src/PrBot/Evaluate.antt =====
-- eval/pr_bot.py: one evaluation, from the guards to the label. What the guards, the build and the
-- scoring script answer for a pull request is `Answers`: they are programs of their own.
use burnisher.Base.{
  ℕ, String, Bool, true, false, not, ◌&&◌, Option, none, some, List, [], ◌∷◌, if◌then◌else◌,
  is_empty,
}
use burnisher.Base.Eq.{◌==◌, string_eq, nat_eq}
use burnisher.Base.Dict.{elem}
use burnisher.Base.Result.{Result, ok, err}
use burnisher.Base.Num.{Num, num}
use burnisher.Receipt.{Receipt, status_text}
use burnisher.Verdict.{Verdict, verdict}
use burnisher.PrBot.{
  PullRequest, record_evaluation, skipped_label, copycat_label, copycat_review_label, blocked_label,
  reregistered_label, no_candidate_label, eval_error_label, build_fail_label,
}
use burnisher.PrBot.World.{
  Crash, checkout_failed, arguments_missing, no_cell_named, no_sandbox, build_raised,
  scoring_raised, unreadable_receipt, Bot, built, scored, published, pure, crash, note, set_label,
  comment, close_pr, ◌>>=◌, ◌>>◌,
}

pub record EvalResult (R : Type 0) : Type 0 where
  pub pr : ℕ
  pub outcome : Option String
  pub label : Option String
  pub payout_fraction : Option R
  -- added by the round that asked
  pub head : Option String

-- the command line, and the form of a payout in a label
pub record Args (R : Type 0) : Type 0 where
  pub dry_run : Bool
  pub ledger : Bool
  pub weights : Bool
  pub noise : Bool
  pub impl_candidate : String
  pub sha : String → String
  pub format_gap : R → String

-- `build` and `scoring` are none when the step raises: it could not unpack the commit, or it ran out
-- of time. `scoring` is true when the script succeeded and left a receipt. `cartography_names` are the generations whose files the submission changes.
pub record Answers (R : Type 0) : Type 0 where
  pub checkout_ok : Bool
  pub copycat_outcome : String
  pub guard_ok : Bool
  pub guard_outcome : String
  pub reregistration_outcome : String
  pub candidate_names : List String
  pub sandbox_ok : Bool
  pub build : Option Bool
  pub scoring : Option Bool
  pub receipt : Receipt R
  pub cartography_names : List String
  pub cartography_outcome : Option String

abbrev named_among : List String → Option String → Option String
named_among names none = none
named_among names (some m) = if elem m names then some m else none

-- The name the description gives counts only among several new ones.
abbrev pub choose_name : List String → Option String → Option String
choose_name [] named = none
choose_name (name ∷ []) named = some name
choose_name (a ∷ b ∷ names) named = named_among (a ∷ b ∷ names) named

unfoldable pub candidate_impl : String → List String → Option String → Option String
candidate_impl forced names named =
    if not (forced == "") then some forced else choose_name names named

abbrev pub answered : {R : Type 0} → ℕ → String → EvalResult R
answered num outcome = record {
  pr = num;
  outcome = some outcome;
  label = none;
  payout_fraction = none;
  head = none;
}

-- A label, a comment on it, and the outcome.
abbrev pub labelled : {R : Type 0} → Bool → ℕ → String → String → Bot (EvalResult R)
labelled dry num label outcome =
    set_label dry num label >> comment dry num >> pure (answered num outcome)

abbrev pub labelled_closed : {R : Type 0} → Bool → ℕ → String → String → Bot (EvalResult R)
labelled_closed dry num label outcome =
    set_label dry num label >> comment dry num >> close_pr dry num >> pure (answered num outcome)

abbrev pub cartography_label : Option String → String
cartography_label none = "burnish:partial"
cartography_label (some s) =
    if s == "OPENED"
    then "burnish:cell-opened"
    else if s == "UNMEASURED"
    then "burnish:eval-error"
    else "burnish:partial"

module _ {R : Type 0} (args : Args R) (answers : Answers R) (pr : PullRequest) where
  abbrev pub built_with : Option Bool → Bot Bool
  built_with none = crash build_raised
  built_with (some fine) = note (built pr.number) >> pure fine

  unfoldable pub build_submission : Bot Bool
  build_submission = if answers.sandbox_ok then built_with answers.build else crash no_sandbox

  unfoldable pub check_cell : Bot (EvalResult R)
  check_cell =
      set_label args.dry_run pr.number (cartography_label answers.cartography_outcome)
      >> comment args.dry_run pr.number
      >> pure (record {
        pr = pr.number;
        outcome = answers.cartography_outcome;
        label = some (cartography_label answers.cartography_outcome);
        payout_fraction = none;
        head = none;
      })

  unfoldable pub check_built : Bool → Bot (EvalResult R)
  unfolding check_cell
  check_built fine =
      if fine
      then note (scored pr.number) >> check_cell
      else labelled args.dry_run pr.number build_fail_label "BUILD_FAIL"

  -- a cell is built and measured when there are weights and a noise file
  unfoldable pub evaluate_cartography : Bot (EvalResult R)
  unfolding build_submission check_cell check_built
  evaluate_cartography =
      if is_empty answers.cartography_names
      then crash no_cell_named
      else if args.weights && args.noise
      then (build_submission >>= λ fine. check_built fine)
      else check_cell

module _ {R : Type 0} ⦃n : Num R⦄ (args : Args R) (answers : Answers R) (pr : PullRequest) where
  abbrev pub held_result : EvalResult R
  held_result = record {
    pr = pr.number;
    outcome = some "COPYCAT_REVIEW";
    label = some copycat_review_label;
    payout_fraction = some (num 0);
    head = none;
  }

  abbrev pub paid_result : Verdict R → EvalResult R
  paid_result v = record {
    pr = pr.number;
    outcome = some (status_text v.status);
    label = some v.label;
    payout_fraction = some v.payout_fraction;
    head = none;
  }

  -- A submission under review for copying that would pay is held.
  unfoldable pub conclude : Verdict R → Bot (EvalResult R)
  conclude v =
      if answers.copycat_outcome == "REVIEW" && v.pays
      then set_label false pr.number copycat_review_label
        >> comment false pr.number
        >> pure held_result
      else set_label false pr.number v.label >> comment false pr.number >> pure (paid_result v)

  -- The raw file is published once the receipt has a verdict and names its generation.
  unfoldable pub publish : Bot (EvalResult R)
  unfolding conclude
  publish = elim (verdict args.format_gap answers.receipt) [
    | err e ↦ crash unreadable_receipt
    | ok v ↦ elim answers.receipt.benchmark_generation [
      | none ↦ crash unreadable_receipt
      | some g ↦ note (published pr.number) >> conclude v
    ]
  ]

  abbrev pub after_scoring : Option Bool → Bot (EvalResult R)
  after_scoring none = crash scoring_raised
  after_scoring (some true) = publish
  after_scoring (some false) = labelled false pr.number eval_error_label "EVAL_ERROR"

  unfoldable pub score_built : Bool → Bot (EvalResult R)
  unfolding publish
  score_built fine =
      if fine
      then note (scored pr.number) >> after_scoring answers.scoring
      else labelled false pr.number build_fail_label "BUILD_FAIL"

  unfoldable pub measure : Bot (EvalResult R)
  unfolding score_built build_submission
  measure =
      if args.ledger && args.weights && args.noise
      then (build_submission args answers pr >>= λ fine. score_built fine)
      else crash arguments_missing

  -- a dry run stops here
  unfoldable pub after_guards : Bot (EvalResult R)
  unfolding measure evaluate_cartography
  after_guards =
      if args.dry_run
      then pure (answered pr.number "DRY_RUN")
      else if answers.guard_outcome == "CARTOGRAPHY"
      then evaluate_cartography args answers pr
      else measure

  unfoldable pub pick_candidate : Bot (EvalResult R)
  unfolding after_guards candidate_impl
  pick_candidate =
      if answers.guard_outcome == "CARTOGRAPHY"
      then after_guards
      else elim (candidate_impl args.impl_candidate answers.candidate_names pr.named_impl) [
        | none ↦ labelled args.dry_run pr.number no_candidate_label "NO_CANDIDATE"
        | some impl ↦ after_guards
      ]

  unfoldable pub after_instrument : Bot (EvalResult R)
  unfolding pick_candidate
  after_instrument =
      if answers.reregistration_outcome == "ERROR"
      then labelled args.dry_run pr.number eval_error_label "EVAL_ERROR"
      else if answers.reregistration_outcome == "REREGISTERED"
      then labelled args.dry_run pr.number reregistered_label "REREGISTERED"
      else pick_candidate

  unfoldable pub after_copycat : Bot (EvalResult R)
  unfolding after_instrument
  after_copycat =
      if answers.guard_ok
      then after_instrument
      else labelled args.dry_run pr.number skipped_label "SKIPPED"

  unfoldable pub evaluate_once : Bot (EvalResult R)
  unfolding after_copycat
  evaluate_once =
      if not answers.checkout_ok
      then crash checkout_failed
      else if answers.copycat_outcome == "ERROR"
      then labelled args.dry_run pr.number eval_error_label "EVAL_ERROR"
      else if answers.copycat_outcome == "BLOCKED"
      then labelled_closed args.dry_run pr.number blocked_label "BLOCKED"
      else if answers.copycat_outcome == "COPY"
      then labelled_closed args.dry_run pr.number copycat_label "COPYCAT"
      else after_copycat

  abbrev pub outcome_of : Result Crash (EvalResult R) → Option String
  outcome_of (ok r) = r.outcome
  outcome_of (err e) = some "EVAL_ERROR"

  -- What happened is recorded, an exception too.
  unfoldable pub evaluate : Bot (EvalResult R)
  unfolding evaluate_once
  evaluate w =
      let (r, w') = evaluate_once w in
      (
        r,
        record w' {
          records =
              record_evaluation args.sha args.ledger args.dry_run w'.records pr (outcome_of r);
        },
      )
