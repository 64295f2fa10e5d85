-- ===== src/Tests/Bots.antt =====
-- Runs of the bot.
use burnisher.Base.{◌≡◌, refl, true, false, not, ◌&&◌, ◌||◌, none, some, [], ltb}
use burnisher.Base.Eq.{◌==◌, string_eq, nat_eq}
use burnisher.Base.Result.{ok}
use burnisher.Base.Int.{ℤ, pos}
use burnisher.Base.Fixed.{fixed}
use burnisher.Receipt.{decide_status, status_text, read_status, is_crediting}
use burnisher.Receipt.Build.{seal, build_body, credit_of}
use burnisher.Verdict.{verdict, verdict_of, credited, read, label_of_status}
use burnisher.PrBot.{
  PullRequest, body_sha, needs_evaluation, attempts_after, next_record, relabel, no_candidate_label,
  eval_error_label, max_attempts,
}
use burnisher.PrBot.World.{set_label, comment}
use burnisher.PrBot.Evaluate.{
  EvalResult, Args, Answers, candidate_impl, evaluate, evaluate_once, after_copycat,
  after_instrument, pick_candidate, after_guards, measure, build_submission, score_built, publish,
  conclude,
}
use burnisher.PrBot.Guards.{evaluate-dry_run}
use burnisher.PrBot.Payout.{Earned, evaluate-Earned}
use burnisher.PrBot.Due.{
  needs_evaluation-next_record, after_failures, needs_evaluation-after_failures,
}
use burnisher.Tests.Fixtures.{args, answers, pull_request, empty_world}

abbrev pr : PullRequest
pr = pull_request 12 "c12" []

abbrev paid_now : EvalResult ℤ
paid_now = record {
  pr = 12;
  outcome = some "FRONTIER_EXPANDED";
  label = some "burnish:gap+0.2";
  payout_fraction = some (pos 2000);
  head = none;
}

evaluate_winning : (evaluate args answers pr empty_world).0 ≡ ok paid_now
unfolding evaluate evaluate_once after_copycat after_instrument pick_candidate after_guards measure
    build_submission score_built publish conclude candidate_impl verdict verdict_of credited read
    label_of_status read_status is_crediting build_body seal decide_status credit_of status_text
    set_label comment
evaluate_winning = refl

evaluate-Earned_example : Earned args answers pr (pos 2000)
evaluate-Earned_example =
    evaluate-Earned args answers pr empty_world paid_now (pos 2000) evaluate_winning refl refl

abbrev copied : Answers ℤ
copied = record answers { copycat_outcome = "COPY" }

abbrev rehearsal : Args ℤ
rehearsal = record args { dry_run = true }

evaluate-dry_run_example : (evaluate rehearsal answers pr empty_world).1 ≡ empty_world
evaluate-dry_run_example = evaluate-dry_run rehearsal answers pr empty_world refl

-- a new commit on a pull request with a null result
abbrev pushed : PullRequest
pushed = pull_request 12 "c13" []

needs_evaluation-next_record_example :
    needs_evaluation
      (λ s. s)
      (record pushed { labels = relabel "burnish:no-gain" pr.labels })
      (some (next_record (λ s. s) pr none (some "NO_GAIN")))
    ≡ (not (pr.head == pushed.head)
        || (no_candidate_label == "burnish:no-gain"
            && not (body_sha (λ s. s) pr == body_sha (λ s. s) pushed))
        || (eval_error_label == "burnish:no-gain"
            && ltb (attempts_after pr none (some "NO_GAIN")) max_attempts))
needs_evaluation-next_record_example =
    needs_evaluation-next_record (λ s. s) pr pushed none (some "NO_GAIN") "burnish:no-gain" refl
      refl

needs_evaluation-after_failures_example :
    needs_evaluation
      (λ s. s)
      (record pr { labels = relabel eval_error_label pr.labels })
      (after_failures (λ s. s) pr none 3)
    ≡ false
needs_evaluation-after_failures_example = needs_evaluation-after_failures (λ s. s) pr 2
