-- ===== src/Compute/Held.antt =====
-- `_held_out_verdict` of eval/burnscore/compute.py: did the gains survive a shape they were not tuned on?
use burnisher.Base.{
  ℕ, String, Bool, false, not, ◌&&◌, ◌||◌, Option, none, some, List, [], ◌∷◌, ◌++◌, map,
  if◌then◌else◌, length, is_empty, all, keep,
}
use burnisher.Base.Eq.{string_eq, nat_eq}
use burnisher.Base.Dict.{Dict, lookup, keys}
use burnisher.Base.Result.{Result, ok, err, ◌>>=◌, ◌>>◌, raise_if}
use burnisher.Base.Num.{Num, num, lt, min, ◌+◌, ◌/◌}
use burnisher.Base.Eq.{pair_eq}
use burnisher.Base.Sort.{sorted_texts}
use burnisher.Frontier.{null, other, number}
use burnisher.Bootstrap.{Library, SignTest, geomean, sign_test}
use burnisher.Compute.{
  ComputeError, bad_held_out, RawRecord, Measurement, Arm, Grouped, arm_of, group,
}
use burnisher.Compute.Score.{CellResult, shared_repeats}
use burnisher.Copycat.Fingerprint.{set_of}

pub record ShapeResult (R : Type 0) : Type 0 where
  pub speedup : R
  pub repeats : ℕ
  pub required_speedup : Option R
  pub signs : SignTest R

-- `survived` is `none` where no cell was measured at the shape.
pub record HeldOut (R : Type 0) : Type 0 where
  pub survived : Option Bool
  pub worst_speedup : Option R
  pub per_shape : Dict String (ShapeResult R)
  pub cells_failed : List String

abbrev pub cells_of : {V : Type 0} → Dict (String × String) V → List String
cells_of grouped = sorted_texts (set_of (map (λ e. e.0.0) grouped))

module _ {R : Type 0} ⦃n : Num R⦄ where
  -- the cells whose gain resolved, with their floors
  unfoldable pub gaining : Dict String (CellResult R) → Dict String R
  gaining [] = []
  gaining ((cell_id, v) ∷ per_cell) =
      let rest = gaining per_cell in
      if v.resolved && lt (num 0) v.gap_closed then (cell_id, v.floor_pct) ∷ rest else rest

  -- `float(arm[k][0]["metrics"]["latency_s"])`; a text or a Boolean, which Python would convert, is
  -- refused here.
  abbrev pub first_latency : Option (List (Measurement R)) → Result ComputeError R
  first_latency none = err bad_held_out
  first_latency (some []) = err bad_held_out
  first_latency (some (m ∷ ms)) = elim (lookup "latency_s" m.metrics) [
    | none ↦ err bad_held_out
    | some null ↦ err bad_held_out
    | some other ↦ err bad_held_out
    | some (number t) ↦ ok t
  ]

  unfoldable pub latencies : Arm R → List ℕ → Result ComputeError (List R)
  latencies arm [] = ok []
  latencies arm (k ∷ ks) =
      first_latency (lookup k arm) >>= λ t. latencies arm ks >>= λ rest. ok (t ∷ rest)

  abbrev pub need : Option R → Option R
  need none = none
  need (some floor_pct) = some (num 1 + floor_pct / num 100)

  -- The mean of no time, or of a time whose logarithm there is not, is an exception.
  unfoldable pub shape_result :
      Library R → Arm R → Arm R → Option R → Result ComputeError (ShapeResult R)
  unfolding latencies
  shape_result lib base cand floor = do
    let shared = shared_repeats base cand
    bt ← latencies base shared
    ct ← latencies cand shared
    raise_if (is_empty shared || not (all (λ x. lt (num 0) x) (bt ++ ct))) bad_held_out
    ok (record {
      speedup = geomean lib bt / geomean lib ct;
      repeats = length shared;
      required_speedup = need floor;
      signs = sign_test bt ct;
    })

  -- Cells with one arm only are passed over.
  unfoldable pub shape_results :
      Library R
      → Grouped R
      → Dict String R
      → List String
      → Result ComputeError (Dict String (ShapeResult R))
  unfolding shape_result
  shape_results lib grouped gains [] = ok []
  shape_results lib grouped gains (cell_id ∷ cells) =
      let base = arm_of cell_id "base" grouped in
      let cand = arm_of cell_id "candidate" grouped in
      let rest = shape_results lib grouped gains cells in
      if is_empty base || is_empty cand
      then rest
      else shape_result lib base cand (lookup cell_id gains) >>= λ r.
          rest >>= λ rs. ok ((cell_id, r) ∷ rs)

  -- judged, and not faster than its own noise floor
  abbrev pub is_failed : ShapeResult R → Bool
  is_failed r = elim r.required_speedup [ none ↦ false | some x ↦ lt r.speedup x ]

  abbrev pub worst_of : Option R → Dict String (ShapeResult R) → Option R
  worst_of worst [] = worst
  worst_of worst ((cell_id, r) ∷ results) =
      worst_of
        (elim r.required_speedup [
          | none ↦ worst
          | some x ↦ elim worst [ none ↦ some r.speedup | some w ↦ some (min w r.speedup) ]
        ])
        results

  unfoldable pub held_out_of : Dict String (ShapeResult R) → HeldOut R
  held_out_of results =
      let failed = keys (keep (λ (e : String × ShapeResult R). is_failed e.1) results) in
      record {
        survived = if is_empty results then none else some (is_empty failed);
        worst_speedup = worst_of none results;
        per_shape = results;
        cells_failed = sorted_texts failed;
      }

  unfoldable pub held_out_verdict :
      Library R → List (RawRecord R) → Dict String (CellResult R) → Result ComputeError (HeldOut R)
  unfolding gaining shape_results held_out_of
  held_out_verdict lib records per_cell = do
    grouped ← group records
    results ← shape_results lib grouped (gaining per_cell) (cells_of grouped)
    ok (held_out_of results)
