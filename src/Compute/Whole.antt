-- ===== src/Compute/Whole.antt =====
-- `compute` of eval/burnscore/compute.py: the cells' scores, the aggregate, the interval of the
-- submission, the frontier and the held-out verdict.
use burnisher.Base.{
  String, Bool, not, ◌&&◌, ◌||◌, Option, none, some, List, [], ◌∷◌, map, if◌then◌else◌, is_empty,
  any, keep, or_else,
}
use burnisher.Base.Eq.{◌==◌, string_eq, nat_eq}
use burnisher.Base.Dict.{Dict, keys}
use burnisher.Base.Result.{Result, ok, ◌>>=◌, ◌>>◌, require, raise_if}
use burnisher.Base.Num.{Num, num, lt, num_eq, neg, ◌+◌, ◌*◌, ◌/◌}
use burnisher.Base.Eq.{pair_eq}
use burnisher.Base.Sort.{sorted_texts}
use burnisher.Frontier.Volume.{Operating, FrontierDelta, frontier_delta}
use burnisher.Cells.{
  Cell, Generation, Coverage, Aggregate, coverage, aggregate, calibrated, cell_objectives, values,
}
use burnisher.Bootstrap.{Library, Limit, finite, minus_infinity, plus_infinity}
use burnisher.Compute.{
  ComputeError, uncalibrated, incomplete, no_operating_point, of_generation, of_frontier, lift,
  RawRecord, Grouped, group,
}
use burnisher.Compute.Score.{CellResult, score_cell}
use burnisher.Compute.Held.{HeldOut, held_out_verdict, cells_of}

pub record Submission (R : Type 0) : Type 0 where
  pub lower : R
  pub upper : R
  pub resolved_cells_lower : R
  pub resolved_cells_upper : R
  pub weighted_floor_as_gap_closed : R
  pub resolved : Bool
  pub cells_unresolved : List String
  pub cells_regressed : List String

pub record FrontierMean (R : Type 0) : Type 0 where
  pub delta : R
  pub per_cell : Dict String (FrontierDelta R)
  pub expanded : Bool

pub record Computed (R : Type 0) : Type 0 where
  pub per_cell : Dict String (CellResult R)
  pub aggregate : Aggregate R
  pub interval : Submission R
  pub frontier : FrontierMean R
  pub coverage : Coverage
  pub held_out : Option (HeldOut R)

module _ {R : Type 0} ⦃n : Num R⦄ where
  abbrev pub is_uncalibrated : Cell R → Bool
  is_uncalibrated c = c.implemented && not (calibrated c)

  -- each scored cell in turn, ending at the first refusal
  unfoldable pub score_cells :
      Library R
      → Generation R
      → Bool
      → Grouped R
      → List String
      → Result ComputeError (Dict String (CellResult R))
  score_cells lib g drift_guard grouped [] = ok []
  score_cells lib g drift_guard grouped (cell_id ∷ cells) =
      score_cell lib g drift_guard grouped cell_id >>= λ r.
      score_cells lib g drift_guard grouped cells >>= λ rest. ok ((cell_id, r) ∷ rest)

  abbrev pub credited : Dict String (CellResult R) → Dict String R
  credited [] = []
  credited ((cell_id, r) ∷ per_cell) = (cell_id, r.credited_gap_closed) ∷ credited per_cell

  -- An end of the interval of two repeats or more, which is finite.
  abbrev pub end_of : Limit R → R
  end_of minus_infinity = num 0
  end_of plus_infinity = num 0
  end_of (finite v) = v

  -- `sum(f(v) * weight for v in cells)`, the weight standing in the cell
  abbrev pub weighted_sum : (CellResult R → R) → R → List (CellResult R) → R
  weighted_sum f total [] = total
  weighted_sum f total (r ∷ rs) = weighted_sum f (total + f r * r.cell.weight) rs

  abbrev pub total_weight : R → List (CellResult R) → R
  total_weight total [] = total
  total_weight total (r ∷ rs) = total_weight (total + r.cell.weight) rs

  -- `x or 1.0`
  abbrev pub or_one : R → R
  or_one x = if num_eq x (num 0) then num 1 else x

  abbrev pub results : Dict String (CellResult R) → List (CellResult R)
  results = map (λ e. e.1)

  abbrev pub is_regressed : String × CellResult R → Bool
  is_regressed e = e.1.resolved && lt e.1.gap_closed (num 0)

  unfoldable pub submission_of : Dict String (CellResult R) → Submission R
  submission_of per_cell =
      let all_cells = results per_cell in
      let res = keep (λ (r : CellResult R). r.resolved) all_cells in
      let tw = or_one (total_weight (num 0) all_cells) in
      let lower_of = λ (r : CellResult R). end_of r.interval.lower in
      let upper_of = λ (r : CellResult R). end_of r.interval.upper in
      let res_lower = weighted_sum lower_of (num 0) res / tw in
      let res_upper = weighted_sum upper_of (num 0) res / tw in
      let res_floor = weighted_sum (λ r. r.floor_as_gap_closed) (num 0) res / tw in
      record {
        lower = weighted_sum lower_of (num 0) all_cells / tw;
        upper = weighted_sum upper_of (num 0) all_cells / tw;
        resolved_cells_lower = res_lower;
        resolved_cells_upper = res_upper;
        weighted_floor_as_gap_closed = res_floor;
        resolved = not (is_empty res) && (lt res_floor res_lower || lt res_upper (neg res_floor));
        cells_unresolved =
            sorted_texts (keys (keep (λ (e : String × CellResult R). not e.1.resolved) per_cell));
        cells_regressed = sorted_texts (keys (keep is_regressed per_cell));
      }

  -- the configurations of one arm of a cell
  abbrev pub operating : String → String → List (RawRecord R) → List (Operating R)
  operating cell_id variant [] = []
  operating cell_id variant (r ∷ records) =
      let rest = operating cell_id variant records in
      if or_else r.cell "" == cell_id && or_else r.variant "" == variant
      then record { metrics = r.metrics; status = or_else r.status "OK" } ∷ rest
      else rest

  unfoldable pub frontier_cells :
      Generation R
      → List (RawRecord R)
      → Dict String (CellResult R)
      → Result ComputeError (Dict String (FrontierDelta R))
  frontier_cells g records [] = ok []
  frontier_cells g records ((cell_id, r) ∷ per_cell) =
      lift of_generation (cell_objectives g r.cell) >>= λ objectives.
      lift of_frontier (
        frontier_delta (operating cell_id "base" records) (operating cell_id "candidate" records)
          objectives g.reference_point)
      >>= λ d. frontier_cells g records per_cell >>= λ rest. ok ((cell_id, d) ∷ rest)

  abbrev pub has_no_point : FrontierDelta R → Bool
  has_no_point d = d.points_base == 0 && d.points_candidate == 0

  abbrev pub relative_sum : R → List (CellResult R × FrontierDelta R) → R
  relative_sum total [] = total
  relative_sum total ((r, d) ∷ cells) =
      relative_sum (total + or_else d.relative_delta (num 0) * r.cell.weight) cells

  abbrev pub zip_cells :
      List (CellResult R) → List (FrontierDelta R) → List (CellResult R × FrontierDelta R)
  zip_cells [] ds = []
  zip_cells (r ∷ rs) [] = []
  zip_cells (r ∷ rs) (d ∷ ds) = (r, d) ∷ zip_cells rs ds

  unfoldable pub frontier_of :
      Dict String (CellResult R) → Dict String (FrontierDelta R) → FrontierMean R
  frontier_of per_cell deltas =
      let cells = zip_cells (results per_cell) (map (λ e. e.1) deltas) in
      let delta = relative_sum (num 0) cells / or_one (total_weight (num 0) (results per_cell)) in
      record { delta = delta; per_cell = deltas; expanded = lt (num 0) delta }

  abbrev pub held_out_of_records :
      Library R
      → List (RawRecord R)
      → Dict String (CellResult R)
      → Result ComputeError (Option (HeldOut R))
  held_out_of_records lib [] per_cell = ok none
  held_out_of_records lib (r ∷ records) per_cell =
      held_out_verdict lib (r ∷ records) per_cell >>= λ h. ok (some h)

  unfoldable pub compute :
      Library R
      → Generation R
      → List (RawRecord R)
      → List (RawRecord R)
      → Bool
      → Bool
      → Result ComputeError (Computed R)
  unfolding score_cells submission_of frontier_cells frontier_of
  compute lib g records held_out_records allow_partial drift_guard = do
    raise_if (any is_uncalibrated (values g.cells)) uncalibrated
    grouped ← group records
    let covered = coverage g (cells_of grouped)
    require (covered.complete || allow_partial) incomplete
    per_cell ← score_cells lib g drift_guard grouped (cells_of grouped)
    agg ← lift of_generation (aggregate (credited per_cell) g)
    deltas ← frontier_cells g records per_cell
    raise_if (any (λ (e : String × FrontierDelta R). has_no_point e.1) deltas) no_operating_point
    held ← held_out_of_records lib held_out_records per_cell
    ok (record {
      per_cell = per_cell;
      aggregate = agg;
      interval = submission_of per_cell;
      frontier = frontier_of per_cell deltas;
      coverage = covered;
      held_out = held;
    })
