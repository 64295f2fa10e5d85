-- ===== src/Receipt/Build.antt =====
-- eval/burnscore/receipt.py: `build_receipt` and `verify_receipt`.
use burnisher.Base.{
  ℕ, String, Bool, true, false, not, ◌&&◌, Option, none, some, List, if◌then◌else◌, is_some,
  or_else,
}
use burnisher.Base.Eq.{◌==◌, string_eq, nat_eq}
use burnisher.Base.Dict.{Dict}
use burnisher.Base.Result.{Result, ok, err, ◌>>=◌, ◌>>◌, require, raise_if, for_each}
use burnisher.Base.Num.{Num, num, le, lt, num_eq, ◌+◌, ◌/◌}
use burnisher.Cells.{Coverage, Aggregate, Generation}
use burnisher.Receipt.{
  Status, moved_along_frontier, unresolved, correctness_fail, determinism_fail, shape_overfit,
  partial, status_text, read_status, is_crediting, decide_status, Score, CellScore, Provenance,
  Withheld, Body, Receipt, with_completeness, with_calibration,
}

-- The interval that `compute` returns.
pub record IntervalSummary (R : Type 0) : Type 0 where
  pub lower : Option R
  pub upper : Option R
  pub level : Option R
  pub resolved : Option Bool

pub data ReceiptError : Type 0 where
  missing_key unknown_status digest_mismatch basis_not_measured credits_nothing : ReceiptError
  crediting_unresolved missing_cell_key ceiling_measured bad_achieved : ReceiptError
  wrong_generation generation_changed : ReceiptError

unfoldable pub withheld_reason : Status → String
withheld_reason partial =
    "the matrix was incomplete; dropping the cell a change hurts is the cheapest way to raise a score"
withheld_reason unresolved =
    "the observed difference is inside the noise floor of the cells that produced it"
withheld_reason moved_along_frontier =
    "latency improved and the frontier did not: the gain was paid for in memory or in output quality, which is a trade the runtime could already make"
withheld_reason shape_overfit = "the gain did not survive the held-out shape"
withheld_reason correctness_fail = "correctness precedes speed and is not traded against it"
withheld_reason determinism_fail =
    "a build that does not reproduce itself cannot be a reference for anything"
withheld_reason _ = "see status"

-- `r[k]` for a key that has to be there
abbrev pub need : {A : Type 0} → Option A → Result ReceiptError A
need none = err missing_key
need (some a) = ok a

-- `d.get(k) == s`
abbrev pub is_text : String → Option String → Bool
is_text s none = false
is_text s (some t) = t == s

unfoldable pub or_unknown : Option Status → Result ReceiptError Status
or_unknown none = err unknown_status
or_unknown (some status) = ok status

unfoldable pub known_status : String → Result ReceiptError Status
unfolding or_unknown
known_status s = or_unknown (read_status s)

module _ {R : Type 0} ⦃n : Num R⦄ where
  unfoldable pub credit_of : Status → R → R
  credit_of status gap = if is_crediting status then gap else num 0

  unfoldable pub withhold : Status → R → Option (Withheld R)
  unfolding credit_of withheld_reason
  withhold status gap =
      if lt (num 0) gap && num_eq (credit_of status gap) (num 0)
      then some
          (record { measured_gap_closed = gap; status = status; reason = withheld_reason status })
      else none

  -- Everything but the digest. `frontier.get("delta", 0.0)` is 0.0 when the key is absent.
  unfoldable pub build_body :
      Generation R
      → Dict String (CellScore R)
      → Aggregate R
      → IntervalSummary R
      → Option R
      → String
      → Option Bool
      → Coverage
      → Option Bool
      → Provenance
      → Option ℕ
      → List String
      → Option String
      → String
      → Body R
  unfolding decide_status credit_of withhold status_text with_completeness with_calibration
  build_body generation per_cell aggregate interval delta correctness determinism coverage held_out
        provenance pr supersedes supersede_reason timestamp =
      let resolved = or_else interval.resolved false in
      let gap = aggregate.gap_closed in
      let status =
        decide_status correctness determinism coverage.complete held_out resolved gap
          (or_else delta (num 0)) in
      record {
        schema_version = some 1;
        benchmark_generation = some generation.name;
        generation_digest = some generation.digest;
        timestamp_utc = some timestamp;
        pr = pr;
        status = some (status_text status);
        score = some (record {
          gap_closed = some gap;
          credited_gap_closed = some (credit_of status gap);
          lower = interval.lower;
          upper = interval.upper;
          level = interval.level;
          resolved = some resolved;
          basis = some "measured";
        });
        frontier_delta = delta;
        per_cell = some per_cell;
        correctness = correctness;
        determinism = determinism;
        coverage = coverage;
        held_out_survived = held_out;
        credit_withheld = withhold status gap;
        provenance = some (with_completeness (with_calibration provenance generation));
        supersedes = supersedes;
        supersede_reason = supersede_reason;
      }

  -- `receipt["content_digest"] = content_digest(receipt)`
  unfoldable pub seal : (Body R → String) → Body R → Receipt R
  seal hash body = record { body = body; content_digest = some (hash body) }

  -- 1.0 + 1e-9
  abbrev pub achieved_limit : R
  achieved_limit = num 1 + num 1 / num 1000000000

  unfoldable pub check_achieved : Option R → Result ReceiptError (Unit {0})
  check_achieved none = err bad_achieved
  check_achieved (some v) = require (lt (num 0) v && le v achieved_limit) bad_achieved

  unfoldable pub check_cell : CellScore R → Result ReceiptError (Unit {0})
  unfolding check_achieved
  check_cell c = do
    require
        (is_some c.gap_closed
          && is_some c.achieved_base
          && is_some c.achieved_candidate
          && is_some c.floor_pct
          && is_some c.resolved)
        missing_cell_key
    require (elim c.ceiling_basis [ none ↦ true | some b ↦ b == "model" ]) ceiling_measured
    check_achieved c.achieved_base
    check_achieved c.achieved_candidate

  unfoldable pub check_generation :
      Receipt R → Option (Generation R) → Result ReceiptError (Unit {0})
  check_generation r none = ok tt
  check_generation r (some g) = do
    require (is_text g.name r.benchmark_generation) wrong_generation
    require (is_text g.digest r.generation_digest) generation_changed

  unfoldable pub check_score : Status → Score R → Result ReceiptError (Unit {0})
  check_score status s = do
    require (is_text "measured" s.basis) basis_not_measured
    raise_if
        (not (is_crediting status) && not (num_eq (or_else s.credited_gap_closed (num 0)) (num 0)))
        credits_nothing
    raise_if (is_crediting status && not (or_else s.resolved false)) crediting_unresolved

  unfoldable pub verify_receipt :
      (Body R → String) → Receipt R → Option (Generation R) → Result ReceiptError (Unit {0})
  verify_receipt hash r generation = do
    require (is_some r.schema_version && is_some r.benchmark_generation) missing_key
    status_name ← need r.status
    score ← need r.score
    per_cell ← need r.per_cell
    require (is_some r.provenance) missing_key
    digest ← need r.content_digest
    status ← known_status status_name
    require (hash r.body == digest) digest_mismatch
    check_score status score
    for_each (λ e. check_cell e.1) per_cell
    check_generation r generation
