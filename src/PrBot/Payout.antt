-- ===== src/PrBot/Payout.antt =====
-- What has to hold before eval/pr_bot.py pays for a submission.
use burnisher.Base.{
  ℕ, String, ◌≡◌, refl, sym, subst, Bool, true, false, ◌&&◌, Option, none, some, arith,
  if◌then◌else◌, is_empty, if-cases,
}
use burnisher.Base.Eq.{◌==◌, string_eq, nat_eq}
use burnisher.Base.Result.{Result, ok, err}
use burnisher.Base.Num.{Num, num, lt}
use burnisher.Base.Result.{>>=-eq-ok}
use burnisher.Verdict.{VerdictError, Verdict, verdict, verdict_of, read}
use burnisher.Verdict.Payout.{verdict_of-payout}
use burnisher.PrBot.{PullRequest, no_candidate_label, build_fail_label, eval_error_label}
use burnisher.PrBot.World.{
  no_cell_named, World, Bot, set_label, comment, close_pr, crash, Crash, note, pure, built, scored,
  published, no_sandbox, build_raised, scoring_raised, unreadable_receipt, arguments_missing,
  checkout_failed, ◌>>=◌, ◌>>◌,
}
use burnisher.PrBot.Guards.{all_clear, through_guards}
use burnisher.PrBot.Evaluate.{
  EvalResult, Args, Answers, answered, cartography_label, labelled, labelled_closed, candidate_impl,
  build_submission, check_cell, check_built, evaluate_cartography, conclude, publish, score_built,
  measure, after_guards, pick_candidate, evaluate, after_scoring, built_with,
}

module _ {R : Type 0} where
  paid_out :
      (a b : EvalResult R) (p : R)
      → ◌≡◌ {A = Result Crash (EvalResult R)} (ok a) (ok b)
      → b.payout_fraction ≡ some p
      → a.payout_fraction ≡ some p
  paid_out a b p e q =
      let same : b ≡ a = cc in subst (λ (x : EvalResult R). x.payout_fraction ≡ some p) same q

  unpaid :
      {P : Type 0} (a b : EvalResult R) (p : R)
      → ◌≡◌ {A = Result Crash (EvalResult R)} (ok a) (ok b)
      → b.payout_fraction ≡ some p
      → a.payout_fraction ≡ none
      → P
  unpaid a b p e q h = cc (paid_out a b p e q)

  -- whatever this action pays, when it pays more than nothing, is as `P` says
  abbrev Paying : ⦃n : Num R⦄ → (R → Type 0) → Bot (EvalResult R) → Type 0
  Paying P m =
      (w : World) (r : EvalResult R) (p : R)
      → (m w).0 ≡ ok r
      → r.payout_fraction ≡ some p
      → lt (num 0) p ≡ true
      → P p

module _ {R : Type 0} ⦃n : Num R⦄ (P : R → Type 0) where
  told-Paying :
      (dry : Bool) (k : ℕ) (label : String) (a : EvalResult R)
      → a.payout_fraction ≡ none
      → Paying P (set_label dry k label >> comment dry k >> pure a)
  unfolding set_label comment
  told-Paying true k label a z w r p e q h = unpaid a r p e q z
  told-Paying false k label a z w r p e q h = unpaid a r p e q z

  labelled-Paying :
      (dry : Bool) (k : ℕ) (label outcome : String) → Paying P (labelled dry k label outcome)
  labelled-Paying dry k label outcome = told-Paying dry k label (answered k outcome) refl

  labelled_closed-Paying :
      (dry : Bool) (k : ℕ) (label outcome : String) → Paying P (labelled_closed dry k label outcome)
  unfolding set_label comment close_pr
  labelled_closed-Paying true k label outcome w r p e q h = unpaid _ r p e q refl
  labelled_closed-Paying false k label outcome w r p e q h = unpaid _ r p e q refl

  crash-Paying : (c : Crash) → Paying P (crash c)
  crash-Paying c w r p e q h = cc

module _ {R : Type 0} ⦃n : Num R⦄ (args : Args R) (answers : Answers R) (pr : PullRequest) where
  -- a verdict of the receipt that pays `p`
  pub record Judged (p : R) : Type 0 where
    pub judgement : Verdict R
    pub read_as : verdict args.format_gap answers.receipt ≡ ok judgement
    pub paying : judgement.pays ≡ true
    pub amount : judgement.payout_fraction ≡ p
    pub unreviewed : (answers.copycat_outcome == "REVIEW") ≡ false

  pays-of :
      (v : Verdict R)
      → verdict args.format_gap answers.receipt ≡ ok v
      → lt (num 0) v.payout_fraction ≡ true
      → v.pays ≡ true
  unfolding verdict
  pays-of v e h =
      let (st, _, e') =
        >>=-eq-ok (read answers.receipt.status)
          (λ st. ok (verdict_of args.format_gap answers.receipt st)) e in
      let same : verdict_of args.format_gap answers.receipt st ≡ v = cc in
      let pay = verdict_of-payout args.format_gap answers.receipt st in
      subst (λ x. lt (num 0) x.payout_fraction ≡ true → x.pays ≡ true) same
        (λ k. ground (arith, pay, n.le_refl (num 0))) h

  Judged-of :
      (v : Verdict R)
      → verdict args.format_gap answers.receipt ≡ ok v
      → (answers.copycat_outcome == "REVIEW" && v.pays) ≡ false
      → (p : R) → v.payout_fraction ≡ p
      → lt (num 0) p ≡ true
      → Judged p
  Judged-of v e a p q h =
      let pays : v.pays ≡ true = pays-of v e (subst (λ x. lt (num 0) x ≡ true) (sym q) h) in
      record { judgement = v; read_as = e; paying = pays; amount = q; unreviewed = ground arith }

  zero_unpaid : {P : Type 0} (p : R) → some (num 0) ≡ some p → lt (num 0) p ≡ true → P
  zero_unpaid p e h =
      let same : num 0 ≡ p = cc in
      cc (subst (λ x. lt (num 0) x ≡ true) (sym same) h, n.le_refl (num 0))

  conclude-Paying :
      (v : Verdict R)
      → verdict args.format_gap answers.receipt ≡ ok v
      → Paying Judged (conclude args answers pr v)
  unfolding conclude set_label comment
  conclude-Paying v e =
      if-cases (Paying Judged) (answers.copycat_outcome == "REVIEW" && v.pays) _ _
        (λ a w r p k q h. zero_unpaid p (paid_out _ r p k q) h)
        (λ a w r p k q h. Judged-of v e a p (cc (paid_out _ r p k q)) h)

  publish-Paying : Paying Judged (publish args answers pr)
  unfolding publish
  publish-Paying =
      go (verdict args.format_gap answers.receipt) refl answers.receipt.benchmark_generation
    where
      go :
          (o : Result VerdictError (Verdict R))
          → verdict args.format_gap answers.receipt ≡ o
          → (g : Option String)
          → Paying Judged (elim o [
            | err e ↦ crash unreadable_receipt
            | ok v ↦ elim g [
              | none ↦ crash unreadable_receipt
              | some g ↦ note (published pr.number) >> conclude args answers pr v
            ]
          ])
      go (err e) q g = crash-Paying Judged unreadable_receipt
      go (ok v) q none = crash-Paying Judged unreadable_receipt
      go (ok v) q (some g) = λ w. conclude-Paying v q (note (published pr.number) w).1

  -- the steps that lead to a verdict
  pub record Measured (p : R) : Type 0 where
    pub judged : Judged p
    pub equipped : (args.ledger && args.weights && args.noise) ≡ true
    pub sandboxed : answers.sandbox_ok ≡ true
    pub build_fine : answers.build ≡ some true
    pub script_fine : answers.scoring ≡ some true

  measure-Paying : Paying Measured (measure args answers pr)
  unfolding measure score_built build_submission
  measure-Paying =
      if-cases (Paying Measured) (args.ledger && args.weights && args.noise) _ _
        (λ a. if-sandboxed a answers.sandbox_ok refl answers.build refl answers.scoring refl)
        (λ a. crash-Paying Measured arguments_missing)
    where
      if-sandboxed :
          (args.ledger && args.weights && args.noise) ≡ true
          → (s : Bool) → answers.sandbox_ok ≡ s
          → (b : Option Bool) → answers.build ≡ b
          → (c : Option Bool) → answers.scoring ≡ c
          → Paying Measured (
              (if s then built_with args answers pr b else crash no_sandbox) >>= λ fine.
              if fine
              then note (scored pr.number) >> after_scoring args answers pr c
              else labelled false pr.number build_fail_label "BUILD_FAIL")
      if-sandboxed a false x b y c z = crash-Paying Measured no_sandbox
      if-sandboxed a true x none y c z = crash-Paying Measured build_raised
      if-sandboxed a true x (some false) y c z = λ w.
          labelled-Paying Measured false pr.number build_fail_label "BUILD_FAIL"
            (note (built pr.number) w).1
      if-sandboxed a true x (some true) y none z = λ w. crash-Paying Measured scoring_raised w
      if-sandboxed a true x (some true) y (some false) z = λ w.
          labelled-Paying Measured false pr.number eval_error_label "EVAL_ERROR"
            ((note (built pr.number) >> note (scored pr.number)) w).1
      if-sandboxed a true x (some true) y (some true) z = λ w r p k q h. record {
        judged = publish-Paying ((note (built pr.number) >> note (scored pr.number)) w).1 r p k q h;
        equipped = a;
        sandboxed = x;
        build_fine = y;
        script_fine = z;
      }

  -- everything that holds when a submission is paid `p`
  pub record Earned (p : R) : Type 0 where
    pub measured : Measured p
    pub clear : all_clear answers ≡ true
    pub wet : args.dry_run ≡ false

  cartography-Paying : (P : R → Type 0) → Paying P (evaluate_cartography args answers pr)
  unfolding evaluate_cartography build_submission check_built check_cell
  cartography-Paying P =
      if-cases (Paying P) (is_empty answers.cartography_names) _ _
        (λ _. crash-Paying P no_cell_named)
        (λ _.
          if-cases (Paying P) (args.weights && args.noise) _ _
            (λ _. if-sandboxed answers.sandbox_ok answers.build) (λ _. checked))
    where
      checked : Paying P (check_cell args answers pr)
      checked =
          told-Paying P args.dry_run pr.number (cartography_label answers.cartography_outcome) _
            refl

      if-sandboxed :
          (s : Bool) (b : Option Bool)
          → Paying P (
              (if s then built_with args answers pr b else crash no_sandbox) >>= λ fine.
              if fine
              then note (scored pr.number) >> check_cell args answers pr
              else labelled args.dry_run pr.number build_fail_label "BUILD_FAIL")
      if-sandboxed false b = crash-Paying P no_sandbox
      if-sandboxed true none = crash-Paying P build_raised
      if-sandboxed true (some false) = λ w.
          labelled-Paying P args.dry_run pr.number build_fail_label "BUILD_FAIL"
            (note (built pr.number) w).1
      if-sandboxed true (some true) =
          λ w. checked ((note (built pr.number) >> note (scored pr.number)) w).1

  after_guards-Paying : all_clear answers ≡ true → Paying Earned (after_guards args answers pr)
  unfolding after_guards
  after_guards-Paying c =
      if-cases (Paying Earned) args.dry_run _ _ (λ _ w r p e q h. unpaid _ r p e q refl)
        (λ d.
          if-cases (Paying Earned) (answers.guard_outcome == "CARTOGRAPHY") _ _
            (λ _. cartography-Paying Earned)
            (λ _ w r p e q h. record { measured = measure-Paying w r p e q h; clear = c; wet = d }))

  pick_candidate-Paying : all_clear answers ≡ true → Paying Earned (pick_candidate args answers pr)
  unfolding pick_candidate
  pick_candidate-Paying c =
      if-cases (Paying Earned) (answers.guard_outcome == "CARTOGRAPHY") _ _
        (λ _. after_guards-Paying c)
        (λ _. picked (candidate_impl args.impl_candidate answers.candidate_names pr.named_impl))
    where
      picked :
          (o : Option String)
          → Paying Earned (elim o [
            | none ↦ labelled {R = R} args.dry_run pr.number no_candidate_label "NO_CANDIDATE"
            | some impl ↦ after_guards args answers pr
          ])
      picked none = labelled-Paying Earned args.dry_run pr.number no_candidate_label "NO_CANDIDATE"
      picked (some impl) = after_guards-Paying c

  -- Whenever an evaluation pays more than zero, it was not a dry run, every guard let the submission
  -- through and none asked for a review, the sandboxed build and the scoring script succeeded with the
  -- ledger, weights and noise given, and the amount is what the verdict of the receipt pays.
  pub evaluate-Earned :
      (w : World) (r : EvalResult R) (p : R)
      → (evaluate args answers pr w).0 ≡ ok r
      → r.payout_fraction ≡ some p
      → lt (num 0) p ≡ true
      → Earned p
  unfolding evaluate
  evaluate-Earned w r p e q h =
      through_guards args answers pr (Paying Earned) (crash-Paying Earned checkout_failed)
        (labelled-Paying Earned args.dry_run pr.number)
        (labelled_closed-Paying Earned args.dry_run pr.number) pick_candidate-Paying w r p e q h
