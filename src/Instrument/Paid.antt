-- ===== src/Instrument/Paid.antt =====
-- The instrument guard and the payout of eval/pr_bot.py together.
use burnisher.Base.{String, ◌≡◌, refl, sym, ◌∙◌, Bool, true, false, ◌&&◌, some, List, is_empty, all}
use burnisher.Base.Eq.{string_eq, nat_eq}
use burnisher.Base.Dict.{elem}
use burnisher.Base.Result.{ok}
use burnisher.Base.Num.{Num, num, lt}
use burnisher.Base.Result.{ok}
use burnisher.PrBot.{PullRequest}
use burnisher.PrBot.World.{World}
use burnisher.PrBot.Evaluate.{EvalResult, Args, Answers, evaluate}
use burnisher.PrBot.Guards.{all_clear}
use burnisher.PrBot.Payout.{evaluate-Earned}
use burnisher.Instrument.{Checkout, additive_path, classify, guard}
use burnisher.Instrument.Surface.{is_allowed, guard-is_allowed}

module _ {R : Type 0} ⦃n : Num R⦄ where
  all_clear-guard : (answers : Answers R) → all_clear answers ≡ true → answers.guard_ok ≡ true
  all_clear-guard answers h = go _ answers.guard_ok _ h
    where
      go : (a b c : Bool) → (a && b && c) ≡ true → b ≡ true
      go true true c h = refl
      go true false c h = cc
      go false b c h = cc

  -- When the bot's answer on the instrument is the one of the guard on a submission's changes, there
  -- are some, and the additive file is not among the blocked ones, a submission that is paid more than
  -- zero made only allowed changes.
  pub paid-is_allowed :
      (args : Args R) (answers : Answers R) (pr : PullRequest) (w : World) (r : EvalResult R)
      (p : R) (c : Checkout) (rows : List (String × String))
      → answers.guard_ok ≡ (guard c rows).fine
      → is_empty rows ≡ false
      → elem additive_path (classify c.generations rows).blocked ≡ false
      → (evaluate args answers pr w).0 ≡ ok r
      → r.payout_fraction ≡ some p
      → lt (num 0) p ≡ true
      → all (is_allowed c.generations) rows ≡ true
  paid-is_allowed args answers pr w r p c rows same changed plain ran paid above =
      let earned = evaluate-Earned args answers pr w r p ran paid above in
      sym (guard-is_allowed c rows changed plain) ∙ sym same ∙ all_clear-guard answers earned.clear
