-- ===== src/Cells.antt =====
-- eval/burnscore/cells.py: the frozen generation, its cells, coverage and the weighted aggregate.
pub mod Whole
use burnisher.Base.{
  ℕ, String, Bool, not, ◌&&◌, Option, none, some, List, [], ◌∷◌, ◌++◌, map, if◌then◌else◌, is_empty,
  keep, is_some,
}
use burnisher.Base.Eq.{◌==◌, string_eq, nat_eq}
use burnisher.Base.Dict.{Dict, lookup, minus}
use burnisher.Base.Result.{Result, ok, err, ◌>>=◌, ◌>>◌, raise_if}
use burnisher.Base.Num.{Num, num, le, ◌+◌, ◌*◌, ◌/◌}
use burnisher.Base.Sort.{sorted_texts}
use burnisher.Frontier.{Objective}

pub data GenerationError : Type 0 where
  no_such_cell : String → GenerationError
  not_calibrated : String → List String → GenerationError
  no_weighted_cells : GenerationError

pub record Cell (R : Type 0) : Type 0 where
  pub id : String
  pub stage : String
  pub wdtype : String
  pub adtype : String
  pub implemented : Bool
  pub weight : R
  pub ceiling_seconds : Option R
  pub achieved : Option R
  pub floor_pct : Option R
  pub floor_repeats : Option ℕ
  pub measured_seconds : Option R

-- `digest` is the SHA-256 of the definition's canonical JSON.
pub record Generation (R : Type 0) : Type 0 where
  pub name : String
  pub digest : String
  pub objectives : List (Objective R)
  pub reference_point : List R
  pub cells : Dict String (Cell R)
  pub confidence_level : R
  pub bootstrap_resamples : ℕ
  pub bootstrap_seed : ℕ
  pub repeats : ℕ
  pub calibration_device : Option String
  pub calibration_device_name : Option String
  pub calibration_driver : Option String

pub record Coverage : Type 0 where
  pub complete : Bool
  pub missing_cells : List String
  pub scored : List String
  pub expected : List String

pub record Row (R : Type 0) : Type 0 where
  pub cell : String
  pub gap_closed : R
  pub weight : R

pub record Aggregate (R : Type 0) : Type 0 where
  pub gap_closed : R
  pub per_cell : List (Row R)
  pub total_weight : R

module _ {R : Type 0} where
  unfoldable pub calibrated : Cell R → Bool
  calibrated c = is_some c.achieved && is_some c.floor_pct && is_some c.ceiling_seconds

  -- the names of the fields that are null
  unfoldable pub uncalibrated_fields : Cell R → List String
  uncalibrated_fields c =
      (if is_some c.ceiling_seconds then [] else "ceiling_seconds" ∷ [])
      ++ (if is_some c.achieved then [] else "achieved" ∷ [])
      ++ (if is_some c.floor_pct then [] else "floor_pct" ∷ [])

  unfoldable pub require_calibrated : Cell R → Result GenerationError (Unit {0})
  unfolding calibrated uncalibrated_fields
  require_calibrated c = raise_if (not (calibrated c)) (not_calibrated c.id (uncalibrated_fields c))

  -- `Generation.cell`
  unfoldable pub get_cell : Generation R → String → Result GenerationError (Cell R)
  get_cell g cell_id = elim (lookup cell_id g.cells) [
    | none ↦ err (no_such_cell cell_id)
    | some c ↦ ok c
  ]

  abbrev pub values : Dict String (Cell R) → List (Cell R)
  values = map (λ e. e.1)

  unfoldable pub scorable_cells : Generation R → List (Cell R)
  unfolding calibrated
  scorable_cells g = keep (λ c. c.implemented && calibrated c) (values g.cells)

  unfoldable pub coverage : Generation R → List String → Coverage
  unfolding scorable_cells
  coverage g scored_ids =
      let want = map (λ c. c.id) (scorable_cells g) in
      let missing = sorted_texts (minus want scored_ids) in
      record {
        complete = is_empty missing;
        missing_cells = missing;
        scored = sorted_texts scored_ids;
        expected = sorted_texts want;
      }

module _ {R : Type 0} ⦃n : Num R⦄ where
  -- the loop of `aggregate`: the rows, the weighted sum and the total weight
  unfoldable pub aggregate_rows :
      Generation R
      → Dict String R
      → List (Row R)
      → R
      → R
      → Result GenerationError (List (Row R) × R × R)
  aggregate_rows g [] rows acc total = ok (rows, acc, total)
  aggregate_rows g ((cell_id, gap) ∷ rest) rows acc total = get_cell g cell_id >>= λ c.
      aggregate_rows g rest
        (rows ++ record { cell = cell_id; gap_closed = gap; weight = c.weight } ∷ [])
        (acc + gap * c.weight) (total + c.weight)

  unfoldable pub aggregate : Dict String R → Generation R → Result GenerationError (Aggregate R)
  unfolding aggregate_rows
  aggregate per_cell g = do
    (rows, acc, total) ← aggregate_rows g per_cell [] (num 0) (num 0)
    raise_if (le total (num 0)) no_weighted_cells
    ok (record { gap_closed = acc / total; per_cell = rows; total_weight = total })

  -- this cell's latency bounds in place of the generation's
  unfoldable pub cell_objective : R → R → Objective R → Objective R
  cell_objective ceiling base_s o =
      if o.key == "latency_s"
      then record o { direction = "min"; lo = base_s * (num 3 / num 2); hi = ceiling }
      else o

  unfoldable pub cell_objectives :
      Generation R → Cell R → Result GenerationError (List (Objective R))
  unfolding cell_objective uncalibrated_fields
  cell_objectives g c = elim c.achieved [
    | none ↦ err (not_calibrated c.id (uncalibrated_fields c))
    | some a ↦ elim c.floor_pct [
      | none ↦ err (not_calibrated c.id (uncalibrated_fields c))
      | some f ↦ elim c.ceiling_seconds [
        | none ↦ err (not_calibrated c.id (uncalibrated_fields c))
        | some s ↦ ok (map (cell_objective s (s / a)) g.objectives)
      ]
    ]
  ]
