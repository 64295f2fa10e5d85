-- ===== src/PrBot/Guards.antt =====
-- What the guards of eval/pr_bot.py keep from happening.
use burnisher.Base.{
  ℕ, String, ◌≡◌, refl, ap, ◌∙◌, Bool, true, false, not, ◌&&◌, ◌||◌, Option, none, some, arith,
  length, keep, if-cases,
}
use burnisher.Base.Eq.{◌==◌, string_eq, nat_eq}
use burnisher.Base.Dict.{Dict}
use burnisher.Base.Num.{Num}
use burnisher.PrBot.{
  EvalRecord, PullRequest, record_evaluation, skipped_label, copycat_label, blocked_label,
  reregistered_label, no_candidate_label, eval_error_label,
}
use burnisher.PrBot.World.{
  World, Bot, Event, built, scored, set_label, comment, close_pr, crash, checkout_failed,
}
use burnisher.PrBot.Evaluate.{
  EvalResult, Args, outcome_of, Answers, labelled, labelled_closed, candidate_impl, after_guards,
  pick_candidate, after_instrument, after_copycat, evaluate_once, evaluate,
}

-- does it take the GPU or the build machine?
abbrev pub is_spending : Event → Bool
is_spending (built k) = true
is_spending (scored k) = true
is_spending _ = false

-- how often the submissions were built or measured so far
abbrev pub spent : World → ℕ
spent w = length (keep is_spending w.log)

-- did every guard let the submission through?
abbrev pub all_clear : {R : Type 0} → Answers R → Bool
all_clear a =
    not (
      a.copycat_outcome == "ERROR" || a.copycat_outcome == "BLOCKED" || a.copycat_outcome == "COPY")
    && a.guard_ok
    && not (a.reregistration_outcome == "ERROR" || a.reregistration_outcome == "REREGISTERED")

abbrev Spends : {A : Type 0} → Bot A → Type 0
Spends m = (w : World) → spent (m w).1 ≡ spent w

abbrev Still : {A : Type 0} → Bot A → Type 0
Still m = (w : World) → (m w).1 ≡ w

module _ (R : Type 0) where
  labelled-Spends :
      (dry : Bool) (num : ℕ) (label outcome : String)
      → Spends (labelled {R = R} dry num label outcome)
  unfolding set_label comment
  labelled-Spends true k label outcome w = refl
  labelled-Spends false k label outcome w = refl

  labelled_closed-Spends :
      (dry : Bool) (num : ℕ) (label outcome : String)
      → Spends (labelled_closed {R = R} dry num label outcome)
  unfolding set_label comment close_pr
  labelled_closed-Spends true k label outcome w = refl
  labelled_closed-Spends false k label outcome w = refl

  labelled-Still :
      (dry : Bool) (num : ℕ) (label outcome : String)
      → dry ≡ true
      → Still (labelled {R = R} dry num label outcome)
  unfolding set_label comment
  labelled-Still true k label outcome h w = refl
  labelled-Still false k label outcome h w = cc

  labelled_closed-Still :
      (dry : Bool) (num : ℕ) (label outcome : String)
      → dry ≡ true
      → Still (labelled_closed {R = R} dry num label outcome)
  unfolding set_label comment close_pr
  labelled_closed-Still true k label outcome h w = refl
  labelled_closed-Still false k label outcome h w = cc

module _ {R : Type 0} ⦃n : Num R⦄ (args : Args R) (answers : Answers R) (pr : PullRequest) where
  abbrev copycat_is : String → Bool
  copycat_is o = answers.copycat_outcome == o

  abbrev reregistration_is : String → Bool
  reregistration_is o = answers.reregistration_outcome == o

  -- What holds of every way a guard answers, and of what comes after them, holds of an evaluation.
  pub through_guards :
      (P : Bot (EvalResult R) → Type 0)
      → P (crash checkout_failed)
      → ((label outcome : String) → P (labelled args.dry_run pr.number label outcome))
      → ((label outcome : String) → P (labelled_closed args.dry_run pr.number label outcome))
      → (all_clear answers ≡ true → P (pick_candidate args answers pr))
      → P (evaluate_once args answers pr)
  unfolding evaluate_once after_copycat after_instrument
  through_guards P p f g q =
      if-cases P (not answers.checkout_ok) _ _ (λ _. p)
        (λ _.
          if-cases P (copycat_is "ERROR") _ _ (λ _. f eval_error_label "EVAL_ERROR")
            (λ a.
              if-cases P (copycat_is "BLOCKED") _ _ (λ _. g blocked_label "BLOCKED")
                (λ b.
                  if-cases P (copycat_is "COPY") _ _ (λ _. g copycat_label "COPYCAT")
                    (λ c.
                      if-cases P answers.guard_ok _ _
                        (λ d.
                          if-cases P (reregistration_is "ERROR") _ _
                            (λ _. f eval_error_label "EVAL_ERROR")
                            (λ e.
                              if-cases P (reregistration_is "REREGISTERED") _ _
                                (λ _. f reregistered_label "REREGISTERED")
                                (λ h. q (rw (a, b, c, d, e, h)))))
                        (λ _. f skipped_label "SKIPPED")))))

  pick_candidate-Still : args.dry_run ≡ true → Still (pick_candidate args answers pr)
  unfolding pick_candidate after_guards
  pick_candidate-Still h =
      if-cases Still (answers.guard_outcome == "CARTOGRAPHY") _ _ (λ _. stop)
        (λ _. picked (candidate_impl args.impl_candidate answers.candidate_names pr.named_impl))
    where
      stop : Still (after_guards args answers pr)
      stop w = rw h

      picked :
          (o : Option String)
          → Still (elim o [
            | none ↦ labelled {R = R} args.dry_run pr.number no_candidate_label "NO_CANDIDATE"
            | some impl ↦ after_guards args answers pr
          ])
      picked none = labelled-Still R args.dry_run pr.number no_candidate_label "NO_CANDIDATE" h
      picked (some impl) = stop

  -- A submission that a guard stops is neither built nor measured, whatever else holds of it.
  pub evaluate-guarded :
      (w : World) → all_clear answers ≡ false → spent (evaluate args answers pr w).1 ≡ spent w
  unfolding evaluate
  evaluate-guarded w h =
      through_guards Spends (λ w. refl) (labelled-Spends R args.dry_run pr.number)
        (labelled_closed-Spends R args.dry_run pr.number) (λ c. cc) w

  unrecorded :
      (records : Dict ℕ EvalRecord) (o : Option String)
      → args.dry_run ≡ true
      → record_evaluation args.sha args.ledger args.dry_run records pr o ≡ records
  unfolding record_evaluation
  unrecorded records o h = ground arith

  -- A dry run leaves the labels, the log of actions and the records as they were.
  pub evaluate-dry_run : (w : World) → args.dry_run ≡ true → (evaluate args answers pr w).1 ≡ w
  unfolding evaluate record_evaluation
  evaluate-dry_run w h =
      let still : (evaluate_once args answers pr w).1 ≡ w =
        through_guards Still (λ w. refl)
          (λ label outcome. labelled-Still R args.dry_run pr.number label outcome h)
          (λ label outcome. labelled_closed-Still R args.dry_run pr.number label outcome h)
          (λ c. pick_candidate-Still h) w in
      ap (λ x. record (evaluate_once args answers pr w).1 { records = x })
        (unrecorded (evaluate_once args answers pr w).1.records
          (outcome_of args answers pr (evaluate_once args answers pr w).0) h)
      ∙ still
