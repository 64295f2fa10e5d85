-- ===== src/Round/Whole.antt =====
-- What a whole round of eval/round.py comes to.
use burnisher.Base.{ℕ, ◌≡◌, Bool, false, none, some, List, All}
use burnisher.Base.Eq.{string_eq, nat_eq}
use burnisher.Base.Result.{Result}
use burnisher.Base.Num.{Num}
use burnisher.PrBot.{PullRequest}
use burnisher.PrBot.World.{World}
use burnisher.PrBot.Evaluate.{EvalResult}
use burnisher.Round.{waiting, pays}
use burnisher.Round.Run.{Settings, Report, scored_of}
use burnisher.Round.Winner.{IsBest}
use burnisher.Round.Slots.{Fits}
use burnisher.Round.Merge.{Merging}

module _ {R : Type 0} ⦃n : Num R⦄ (settings : Settings R) where
  -- a report of a round over the queue `due`
  pub record Rounded (due : List PullRequest) (report : Report R) : Type 0 where
    pub fits : Fits settings.slots 0 due report.evaluated
    pub left : report.waiting ≡ waiting due report.evaluated
    pub won :
        (k : ℕ)
        → report.winner ≡ some k
        → (w : EvalResult R) × IsBest w (scored_of report.evaluated) × (w.pr ≡ k)
    pub unwon : report.winner ≡ none → All (λ r. pays r ≡ false) (scored_of report.evaluated)

  abbrev Finished : (ℕ → Bool) → List PullRequest → Report R → World → World → Type 0
  Finished accepted due report w w' =
      Rounded due report × Merging settings accepted report.winner report.merged w w'
