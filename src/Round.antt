-- ===== src/Round.antt =====
-- eval/round.py: the queue of a round, its winner, what it measures within its slots, and the labels
-- it leaves. `evaluate` is how one pull request is evaluated, as in
-- eval/pr_bot.py.
pub mod Winner
pub mod Slots
pub mod Holds
pub mod Rebase
pub mod Run
pub mod Merge
pub mod Whole
use burnisher.Base.{
  ℕ, zero, suc, String, ◌≤◌, ◌≡◌, refl, sym, ap, subst, ◌∙◌, ◌≢◌, ◌↔◌, ◌⊎◌, inl, inr, Bool, true,
  false, not, ◌&&◌, ◌||◌, Option, none, some, List, [], ◌∷◌, ◌++◌, map, arith, if◌then◌else◌, ltb,
  leb, length, is_empty, get_elem?, take, drop, any, all, keep, find, In, here, there, In-cons, All,
  keep-In, In-keep, any-In, all-In, All-of_In, find-eq_some, In-append_left, In-append_right,
  Bool-cases, Option-cases, is_some, or_else, ◌<◌,
}
use burnisher.Base.Eq.{Eq, ◌==◌, string_eq, nat_eq}
use burnisher.Base.Dict.{
  Dict, lookup, has_key, insert, keys, elem, adjoin, minus, meet, elem-In, In-elem, minus-In,
  In-minus, lookup-insert, eq_self, eq_of_test,
}
use burnisher.Base.Num.{
  Num, num, le, lt, num_eq, max, min, neg, abs, ◌+◌, ◌-◌, ◌*◌, ◌/◌, lt-le, lt_trans_le, le_trans_lt,
}
use burnisher.Base.Result.{ok, err}
use burnisher.Base.Sort.{sort_by, text_before}
use burnisher.PrBot.{PullRequest, EvalRecord, needs_evaluation}
use burnisher.PrBot.World.{
  World, Bot, Event, merged, pure, note, set_label, add_label, comment, ◌>>◌,
}
use burnisher.PrBot.Evaluate.{EvalResult}
use burnisher.Ledger.{Entry}

abbrev pub needs_rebase : String
needs_rebase = "burnish:needs-rebase"

abbrev pub merge_first : String
merge_first = "burnish:merge-first"

abbrev pub held_label : String
held_label = "burnish:held"

-- outcomes that spend no GPU time
abbrev pub not_measured : List String
not_measured = "SKIPPED" ∷ "COPYCAT" ∷ "BLOCKED" ∷ "REREGISTERED" ∷ "NO_CANDIDATE" ∷ "DRY_RUN" ∷ []

-- oldest first; times are texts of one format
unfoldable pub open_prs_fifo : List PullRequest → List PullRequest
open_prs_fifo = sort_by (λ a b. text_before a.created_at b.created_at)

unfoldable pub select :
    (String → String) → (ℕ → Option EvalRecord) → List PullRequest → List PullRequest
select sha last = keep (λ p. needs_evaluation sha p (last p.number))

-- the latest entry of each pull request, from a history that is oldest first
unfoldable pub latest_from : {R : Type 0} → Dict ℕ (Entry R) → List (Entry R) → Dict ℕ (Entry R)
latest_from latest [] = latest
latest_from latest (h ∷ hs) =
    latest_from (elim h.pr [ none ↦ latest | some k ↦ insert k h latest ]) hs

abbrev pub is_held : {R : Type 0} → Dict ℕ (Entry R) → ℕ → Bool
is_held latest k = elim (lookup k latest) [ none ↦ false | some h ↦ h.held ]

-- the pull requests to put on hold, those to release, and the entries that decide
unfoldable pub hold_changes :
    {R : Type 0} → List (Entry R) → List ℕ → List ℕ × List ℕ × Dict ℕ (Entry R)
unfolding latest_from
hold_changes history labelled =
    let latest = latest_from [] history in
    (
      sort_by ltb (keep (λ k. is_held latest k && not (elem k labelled)) (keys latest)),
      sort_by ltb (keep (λ k. has_key k latest && not (is_held latest k)) labelled),
      latest,
    )

abbrev pub is_measured : {R : Type 0} → EvalResult R → Bool
is_measured r = not (elem (or_else r.outcome "") not_measured)

-- one more of the slots is used by a submission that was measured
abbrev pub used_after : {R : Type 0} → EvalResult R → ℕ → ℕ
used_after r used = if is_measured r then suc used else used

abbrev pub with_head : {R : Type 0} → String → EvalResult R → EvalResult R
with_head head r = record r { head = some head }

-- an evaluation that raised
abbrev pub failed_result : {R : Type 0} → ℕ → EvalResult R
failed_result num = record {
  pr = num;
  outcome = some "EVAL_ERROR";
  label = none;
  payout_fraction = none;
  head = none;
}

module _ {R : Type 0} ⦃n : Num R⦄ where
  unfoldable pub pays : EvalResult R → Bool
  pays r = lt (num 0) (or_else r.payout_fraction (num 0))

  -- `max` keeps the first of several largest
  unfoldable pub best_of : EvalResult R → List (EvalResult R) → EvalResult R
  best_of w [] = w
  best_of w (r ∷ rs) =
      best_of
        (if lt (or_else w.payout_fraction (num 0)) (or_else r.payout_fraction (num 0))
          then r
          else w)
        rs

  abbrev pub first_best : List (EvalResult R) → Option (EvalResult R)
  first_best [] = none
  first_best (r ∷ rs) = some (best_of r rs)

  unfoldable pub decide_winner : List (EvalResult R) → Option (EvalResult R)
  decide_winner results = first_best (keep pays results)

  -- every other result of the round that would have paid
  unfoldable pub is_loser : ℕ → EvalResult R → Bool
  is_loser winner r = not (r.pr == winner) && pays r

  unfoldable pub rebase_losers : Bool → ℕ → List (EvalResult R) → Bot (Unit {0})
  rebase_losers dry winner [] = pure tt
  rebase_losers dry winner (r ∷ rs) =
      (if is_loser winner r then set_label dry r.pr needs_rebase >> comment dry r.pr else pure tt)
      >> rebase_losers dry winner rs

module _ {R : Type 0} (evaluate : PullRequest → Bot (EvalResult R)) where
  -- One bad pull request does not end the round.
  unfoldable pub attempt : PullRequest → World → EvalResult R × World
  attempt p w = elim (evaluate p w).0 [
    | err e ↦ (with_head p.head (failed_result p.number), (evaluate p w).1)
    | ok r ↦ (with_head p.head r, (evaluate p w).1)
  ]

  -- the results of a round that has used some of its slots
  unfoldable pub measure : ℕ → ℕ → List PullRequest → World → List (EvalResult R) × World
  measure slots used [] w = ([], w)
  measure slots used (p ∷ ps) w =
      let (r, w1) = attempt p w in
      let (rs, w2) = measure slots (used_after r used) ps w1 in
      if leb slots used then ([], w) else (r ∷ rs, w2)

-- what is left of the queue for a later round
abbrev pub waiting : {R : Type 0} → List PullRequest → List (EvalResult R) → List ℕ
waiting due results = map (λ p. p.number) (drop (length results) due)

-- `merge`, where `accepted` is what GitHub answers
unfoldable pub merge : Bool → Bool → ℕ → Bot Bool
merge accepted dry num =
    if dry then pure true else if accepted then note (merged num) >> pure true else pure false
