-- ===== src/Tests/Rounds.antt =====
-- Runs of the round.
use burnisher.Base.{
  ℕ, ◌≡◌, refl, ◌↔◌, Bool, true, false, ◌&&◌, Option, none, some, List, [], ◌∷◌, arith, any, In,
  All,
}
use burnisher.Base.Eq.{◌==◌, string_eq, nat_eq}
use burnisher.Base.Dict.{elem}
use burnisher.Base.Int.{ℤ, pos}
use burnisher.Base.Fixed.{fixed}
use burnisher.Round.Run.{Settings}
use burnisher.Ledger.{Entry, Store}
use burnisher.PrBot.{PullRequest}
use burnisher.PrBot.World.{World, labels_at}
use burnisher.PrBot.Evaluate.{EvalResult, evaluate}
use burnisher.Round.{pays, best_of, decide_winner, is_loser, rebase_losers, hold_changes, measure}
use burnisher.Round.Winner.{IsBest, decide_winner-IsBest}
use burnisher.Round.Slots.{Fits, measure-Fits}
use burnisher.Round.Holds.{LastIs, hold_changes_lem}
use burnisher.Round.Rebase.{IsReset, rebase_losers_lem}
use burnisher.Tests.Fixtures.{args, answers, pull_request, empty_world}

abbrev result : ℕ → Option ℤ → EvalResult ℤ
result pr payout = record {
  pr = pr;
  outcome = some "FRONTIER_EXPANDED";
  label = none;
  payout_fraction = payout;
  head = none;
}

abbrev scored : List (EvalResult ℤ)
scored = result 3 (some (pos 900)) ∷ result 5 (some (pos 2000)) ∷ result 8 none ∷ []

winner_is : decide_winner scored ≡ some (result 5 (some (pos 2000)))
unfolding decide_winner best_of pays
winner_is = refl

decide_winner-IsBest_example :
    ((w : EvalResult ℤ) → decide_winner scored ≡ some w → IsBest w scored)
    × (decide_winner scored ≡ none ↔ All (λ r. pays r ≡ false) scored)
decide_winner-IsBest_example = decide_winner-IsBest scored

abbrev labelled_world : World
labelled_world = record empty_world { labels = (3, "burnish:gap+0.09" ∷ "bug" ∷ []) ∷ [] }

rebase_losers_lem_example :
    (any (λ r. is_loser 5 r && r.pr == 3) scored ≡ true
      → IsReset (labels_at (rebase_losers false 5 scored labelled_world).1 3))
    × (any (λ r. is_loser 5 r && r.pr == 3) scored ≡ false
        → labels_at (rebase_losers false 5 scored labelled_world).1 3 ≡ labels_at labelled_world 3)
rebase_losers_lem_example = rebase_losers_lem 5 3 scored labelled_world

abbrev queue : List PullRequest
queue = pull_request 3 "c3" [] ∷ pull_request 5 "c5" [] ∷ pull_request 8 "c8" [] ∷ []

measure-Fits_example : Fits 2 0 queue (measure (evaluate args answers) 2 0 queue empty_world).0
measure-Fits_example = measure-Fits (evaluate args answers) 2 0 queue empty_world (omega arith)

abbrev entry : ℕ → Bool → Entry ℤ
entry pr held = record {
  receipt = "r";
  pr = some pr;
  timestamp_utc = none;
  candidate_commit = none;
  status = none;
  gap_closed = none;
  credited_gap_closed = pos 0;
  paid = false;
  independent_confirmations = 0;
  held = held;
  content_digest = none;
}

abbrev history : List (Entry ℤ)
history = entry 3 false ∷ entry 5 true ∷ entry 3 true ∷ entry 5 false ∷ []

hold_changes_lem_example :
    (In 3 (hold_changes history (5 ∷ [])).0
      ↔ (elem {K = ℕ} 3 (5 ∷ []) ≡ false) × LastIs 3 history true)
    × (In 3 (hold_changes history (5 ∷ [])).1 ↔ In {A = ℕ} 3 (5 ∷ []) × LastIs 3 history false)
hold_changes_lem_example = hold_changes_lem history (5 ∷ []) 3

abbrev settings : Settings ℤ
settings = record {
  bot = args;
  slots = 2;
  merging = false;
  generation_name = "BG-1";
  generation = none;
}

abbrev no_receipts : Store ℤ
no_receipts = record { receipts = []; challenges = []; currents = [] }
