-- ===== src/Verdict/Outcomes.antt =====
-- eval/burnscore/verdict.py: the outcomes, what each means, its colour, and the label that names it.
use Prim.Native.String.{◌++◌ as text_append}
use burnisher.Base.{String, not, List, [], ◌∷◌, ◌++◌, map, keep}
use burnisher.Base.Eq.{string_eq, nat_eq}
use burnisher.Base.Texts.{map_text, translate}
use burnisher.Base.Sort.{sort_by, text_before}
use burnisher.Receipt.{
  Status, frontier_expanded, moved_along_frontier, expanded_off_latency, no_gain, unresolved,
  correctness_fail, determinism_fail, shape_overfit, partial, build_fail, eval_error, status_text,
  all_statuses, is_crediting,
}

-- A receipt's status, or a property of the ledger or the round.
pub data Outcome : Type 0 where
  status : Status → Outcome
  copycat blocked reregistered copycat_review no_candidate needs_rebase merge_first : Outcome
  held cell_opened : Outcome

-- the keys of `EXTRA_OUTCOMES`
abbrev pub extra_outcomes : List Outcome
extra_outcomes =
    copycat ∷ blocked ∷ reregistered ∷ copycat_review ∷ no_candidate ∷ needs_rebase ∷ merge_first
    ∷ held ∷ cell_opened ∷ []

unfoldable pub outcome_text : Outcome → String
unfolding status_text
outcome_text (status s) = status_text s
outcome_text copycat = "COPYCAT"
outcome_text blocked = "BLOCKED"
outcome_text reregistered = "REREGISTERED"
outcome_text copycat_review = "COPYCAT_REVIEW"
outcome_text no_candidate = "NO_CANDIDATE"
outcome_text needs_rebase = "NEEDS_REBASE"
outcome_text merge_first = "MERGE_FIRST"
outcome_text held = "HELD"
outcome_text cell_opened = "CELL_OPENED"

unfoldable pub headline : Outcome → String
headline (status frontier_expanded) = "resolved gain, and the frontier grew"
headline (status expanded_off_latency) = "the frontier grew without a latency gain"
headline (status moved_along_frontier) = "faster, and paid for in memory or fidelity"
headline (status no_gain) = "resolved, and measurably not an improvement"
headline (status unresolved) = "inside the cell's own measured noise"
headline (status shape_overfit) = "the gain did not survive the held-out shape"
headline (status partial) = "the matrix was incomplete"
headline (status correctness_fail) = "the latents moved outside the stated tolerance"
headline (status determinism_fail) = "the build did not reproduce itself"
headline (status build_fail) = "the submission did not build"
headline (status eval_error) = "the evaluator failed"
headline copycat = "the new code matches an open pull request by someone else"
headline blocked = "the account is blocked for submitting someone else's work"
headline reregistered = "it registers a kernel already on main under a new name"
headline copycat_review = "measured, but part of it matches an open pull request by someone else"
headline no_candidate = "there is no single new kernel to measure"
headline needs_rebase = "its gain was measured against a baseline that is about to move"
headline merge_first = "the best verified gain of its round"
headline held = "an independent re-measurement disagrees beyond the noise floor"
headline cell_opened = "a new cell was opened"

unfoldable pub meaning : Outcome → String
meaning (status frontier_expanded) =
    "Paid. The number on the label is the fraction of this generation's REMAINING roofline gap that this change closed."
meaning (status expanded_off_latency) =
    "Not paid. Peak memory or output fidelity improved and latency did not. Payment is the latency gap closed, so there is no number to pay; memory and fidelity count by stopping a speedup from being paid for in them."
meaning (status moved_along_frontier) =
    "Not paid. The runtime could already make this trade by turning a knob; a submission has to move the frontier, not slide along it."
meaning (status no_gain) =
    "Not paid, and this is a real result rather than a failure: the measurement was good enough to say so. The interval is on the receipt."
meaning (status unresolved) =
    "Not paid, and NOT a judgement about the idea. The effect could not be told from a quiet afternoon on this box. An axis whose spread sits inside its own noise is open, not solved."
meaning (status shape_overfit) =
    "Not paid. The shape was drawn after the candidate was frozen; a kernel fast only at the benchmarked shape is a tuned constant."
meaning (status partial) =
    "Not paid. Dropping the cell a change hurts is the cheapest way to raise a score, so a partial matrix credits nothing rather than being policed."
meaning (status correctness_fail) =
    "Rejected before timing was considered. This is not traded against a speed win, and widening the tolerance is not the fix."
meaning (status determinism_fail) =
    "Rejected. Nothing can be attributed to a change against a baseline that does not produce the same bytes twice."
meaning (status build_fail) = "Not evaluated."
meaning (status eval_error) =
    "Not the submission's fault. Retried automatically, up to three times for the same commit, and again whenever a new commit is pushed."
meaning copycat =
    "Not evaluated, not paid, and the account is blocked. Most of this submission's new code matches a pull request that is open, by a different author and observed earlier, after renaming, reformatting and shared boilerplate are set aside. The pull request is closed; the comment quotes the matching lines and names the original. A maintainer who finds it wrong lifts the block with a recorded reason."
meaning blocked =
    "Not evaluated. An earlier submission from this account was a copy, so this pull request is closed. A block is lifted only by a maintainer, with a recorded reason."
meaning reregistered =
    "Not evaluated and not paid. A new registration is the same callable as one on main, or the same kernel after renaming and reformatting. Submissions are measured against the baseline, which never runs the kernel already registered, so it would be credited with a gain that already landed. Different constants are a variant, not a re-registration."
meaning copycat_review =
    "Measured and not yet paid. Part of this submission matches an open pull request by a different author, it contains most of one, or it is built on one's unmerged commits. Only a person can tell whether that is fair, so a maintainer decides; clearing it has the submission measured again and paid like any other."
meaning no_candidate =
    "Not evaluated. The validator measures the kernel a submission registers under a new name against `cuda`, in one binary. This one registers none -- a change to an existing kernel would be measured against itself -- or registers several and its description does not name the one to measure. Push a kernel, or name it, and it is evaluated."
meaning needs_rebase =
    "Not a rejection and not a judgement of the work. Its gain resolved, but a larger gain measured in the same round was picked to merge, so its baseline is about to move. Gains do not compose -- the ledger compounds toward the ceiling, and two wins can overlap entirely -- so only one submission per round can be credited against a known baseline. Push a rebase and it is measured again."
meaning merge_first =
    "The largest credited gap-closed among the submissions measured in one round, added beside its paid label. At most one per round can be merged, because every other gain in it was measured against the baseline this one is about to move."
meaning held =
    "Held, not rejected. A re-measurement on another card disagrees with this submission's receipt by more than the cell's own floor, so one of them is wrong and nobody yet knows which. A score no one else can reproduce does not pay. A further measurement that agrees with the receipt releases it, and the paid label comes back."
meaning cell_opened =
    "Paid as cartography. Landing a new cell -- its reference, its calibration, its roofline -- adds a place where future work can be measured. A benchmark that does not grow its own surface stops paying anyone."

unfoldable pub color : Outcome → String
color needs_rebase = "FBCA04"
color merge_first = "0E8A16"
color (status frontier_expanded) = "0E8A16"
color (status expanded_off_latency) = "1D76DB"
color cell_opened = "0E8A16"
color (status no_gain) = "1D76DB"
color (status moved_along_frontier) = "1D76DB"
color (status unresolved) = "C5DEF5"
color (status partial) = "C5DEF5"
color (status shape_overfit) = "FBCA04"
color (status correctness_fail) = "B60205"
color (status determinism_fail) = "B60205"
color held = "8250DF"
color copycat = "FBCA04"
color blocked = "FBCA04"
color reregistered = "FBCA04"
color no_candidate = "D4D4D4"
color copycat_review = "8250DF"
color (status build_fail) = "D93F0B"
color (status eval_error) = "D93F0B"

-- `status.lower().replace("_", "-")`
unfoldable pub slug : String → String
unfolding translate map_text
slug = map_text (translate "ABCDEFGHIJKLMNOPQRSTUVWXYZ_" "abcdefghijklmnopqrstuvwxyz-")

abbrev pub prefix : String
prefix = "burnish"

-- `f"{PREFIX}:{_slug(s)}"`
unfoldable pub label_of : Outcome → String
unfolding slug outcome_text
label_of o = text_append prefix (text_append ":" (slug (outcome_text o)))

-- `all_labels`: the statuses that do not pay, then the other outcomes, each group by its text.
unfoldable pub all_labels : List String
unfolding label_of is_crediting outcome_text
all_labels =
    map label_of (
      sort_by (λ a b. text_before (outcome_text a) (outcome_text b))
        (map status (keep (λ s. not (is_crediting s)) all_statuses)))
    ++ map label_of (sort_by (λ a b. text_before (outcome_text a) (outcome_text b)) extra_outcomes)
