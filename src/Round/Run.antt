-- ===== src/Round/Run.antt =====
-- eval/round.py: sync_holds and run. `listed` and `held_now` are what GitHub lists as open and as
-- held, from what its labels are; `generation` is the one that the round scores.
use burnisher.Base.{
  ℕ, String, Bool, ◌&&◌, Option, none, some, List, [], ◌∷◌, if◌then◌else◌, is_empty, keep, is_some,
}
use burnisher.Base.Eq.{pair_eq, string_eq, nat_eq}
use burnisher.Base.Dict.{Dict, lookup}
use burnisher.Base.Result.{Result, ok, err}
use burnisher.Base.Num.{Num}
use burnisher.Base.Result.{Result, ok, err}
use burnisher.Cells.{Generation}
use burnisher.Verdict.{verdict}
use burnisher.Ledger.{Entry, Store, update_current}
use burnisher.PrBot.{PullRequest}
use burnisher.PrBot.World.{
  Crash, unreadable_receipt, World, Bot, pure, crash, set_label, add_label, comment, ◌>>=◌, ◌>>◌,
}
use burnisher.PrBot.Evaluate.{Args, EvalResult}
use burnisher.Round.{
  held_label, merge_first, open_prs_fifo, select, hold_changes, decide_winner, rebase_losers,
  measure, waiting, merge,
}

-- `settings.merge` says if the winner is merged or only labelled.
pub record Settings (R : Type 0) : Type 0 where
  pub bot : Args R
  pub slots : ℕ
  pub merging : Bool
  pub generation_name : String
  pub generation : Option (Generation R)

pub record Report (R : Type 0) : Type 0 where
  pub evaluated : List (EvalResult R)
  pub winner : Option ℕ
  pub merged : Option ℕ
  pub waiting : List ℕ

abbrev pub nothing_due : {R : Type 0} → Report R
nothing_due = record { evaluated = []; winner = none; merged = none; waiting = [] }

-- the results that carry a payout
abbrev pub scored_of : {R : Type 0} → List (EvalResult R) → List (EvalResult R)
scored_of = keep (λ r. is_some r.payout_fraction)

abbrev pub winner_of : {R : Type 0} ⦃n : Num R⦄ → List (EvalResult R) → Option (EvalResult R)
winner_of results = decide_winner (scored_of results)

module _ {R : Type 0} ⦃n : Num R⦄ (settings : Settings R) where
  unfoldable pub hold_all : List ℕ → Bot (Unit {0})
  hold_all [] = pure tt
  hold_all (k ∷ ks) =
      set_label settings.bot.dry_run k held_label >> comment settings.bot.dry_run k >> hold_all ks

  -- The receipt's own label comes back.
  unfoldable pub release_one : Store R → Dict ℕ (Entry R) → ℕ → Bot (Unit {0})
  release_one s latest k = elim (lookup k latest) [
    | none ↦ crash unreadable_receipt
    | some h ↦ elim (lookup (settings.generation_name, h.receipt) s.receipts) [
      | none ↦ crash unreadable_receipt
      | some r ↦ elim (verdict settings.bot.format_gap r) [
        | err e ↦ crash unreadable_receipt
        | ok v ↦ set_label settings.bot.dry_run k v.label >> comment settings.bot.dry_run k
      ]
    ]
  ]

  unfoldable pub release_all : Store R → Dict ℕ (Entry R) → List ℕ → Bot (Unit {0})
  unfolding release_one
  release_all s latest [] = pure tt
  release_all s latest (k ∷ ks) = release_one s latest k >> release_all s latest ks

  -- the labels, by a history of the ledger
  unfoldable pub apply_holds : Store R → List (Entry R) → List ℕ → Bot (List ℕ × List ℕ)
  unfolding hold_all release_all hold_changes
  apply_holds s history labelled =
      let (hold, release, latest) = hold_changes history labelled in
      hold_all hold >> release_all s latest release >> pure (hold, release)

  -- The totals are computed again, and written, before the labels are changed.
  unfoldable pub sync_holds :
      (World → List ℕ) → Store R → World → (Result Crash (List ℕ × List ℕ) × World) × Store R
  unfolding apply_holds
  sync_holds held_now s w =
      if settings.bot.ledger && is_some settings.generation
      then elim (update_current s settings.generation_name settings.generation).0 [
        | err e ↦ (
          (err unreadable_receipt, w),
          (update_current s settings.generation_name settings.generation).1,
        )
        | ok doc ↦ (
          apply_holds (update_current s settings.generation_name settings.generation).1 doc.history
              (held_now w) w,
          (update_current s settings.generation_name settings.generation).1,
        )
      ]
      else ((ok ([], []), w), s)

  -- merge or label the winner
  unfoldable pub reward : (ℕ → Bool) → ℕ → Bot (Option ℕ)
  unfolding merge
  reward accepted k =
      if settings.merging
      then (merge (accepted k) settings.bot.dry_run k >>= λ done.
          pure (if done then some k else none))
      else add_label settings.bot.dry_run k merge_first >> pure none

  unfoldable pub settle : (ℕ → Bool) → Option (EvalResult R) → List (EvalResult R) → Bot (Option ℕ)
  unfolding reward rebase_losers
  settle accepted none scored = pure none
  settle accepted (some w) scored = reward accepted w.pr >>= λ merged.
      rebase_losers settings.bot.dry_run w.pr scored >> pure merged

  unfoldable pub finish : (ℕ → Bool) → List PullRequest → List (EvalResult R) → Bot (Report R)
  unfolding settle
  finish accepted due results =
      settle accepted (winner_of results) (scored_of results) >>= λ merged. pure (record {
        evaluated = results;
        winner = elim (winner_of results) [ none ↦ none | some w ↦ some w.pr ];
        merged = merged;
        waiting = waiting due results;
      })

  -- what is due after the holds are in step
  unfoldable pub due_now : (World → List PullRequest) → World → List PullRequest
  unfolding select open_prs_fifo
  due_now listed w =
      select settings.bot.sha (λ k. if settings.bot.ledger then lookup k w.records else none)
        (open_prs_fifo (listed w))

  unfoldable pub run :
      (PullRequest → Bot (EvalResult R))
      → (World → List PullRequest)
      → (World → List ℕ)
      → (ℕ → Bool)
      → Store R
      → Bot (Report R)
  unfolding sync_holds due_now finish measure
  run evaluate listed held_now accepted s w =
      let w1 = (sync_holds held_now s w).0.1 in
      let due = due_now listed w1 in
      if is_empty due
      then (ok nothing_due, w1)
      else finish accepted due (measure evaluate settings.slots 0 due w1).0
          (measure evaluate settings.slots 0 due w1).1
