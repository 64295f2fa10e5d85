-- ===== src/Compute/Score.antt =====
-- The score of one cell in `compute` of eval/burnscore/compute.py: the pairing, the guards on the base
-- arm, the gap closed with its interval, and whether it resolves.
use Prim.Native.Nat.{max as nat_max}
use burnisher.Base.{
  ℕ, String, Bool, false, ◌&&◌, ◌||◌, Option, none, some, List, [], ◌∷◌, if◌then◌else◌, ltb, leb,
  length, is_empty, keep, or_else,
}
use burnisher.Base.Eq.{◌==◌, string_eq, nat_eq}
use burnisher.Base.Dict.{lookup, keys, elem}
use burnisher.Base.Result.{Result, ok, err, ◌>>=◌, ◌>>◌, require, raise_if}
use burnisher.Base.Num.{Num, num, lt, num_eq, max, neg, abs, ◌-◌, ◌*◌, ◌/◌}
use burnisher.Base.Eq.{pair_eq}
use burnisher.Base.Sort.{sort_by}
use burnisher.Frontier.{null, other, number, failure_statuses}
use burnisher.Cells.{Cell, Generation, get_cell}
use burnisher.Floor.{Gate, floor_as_gap_closed, resolution_gate, largest, smallest}
use burnisher.Roofline.{GapClosed, gap_closed}
use burnisher.Bootstrap.{
  Library, Interval, SignTest, geomean, paired_bootstrap, excludes, lies_below, sign_test,
}
use burnisher.Compute.{
  ComputeError, not_implemented, one_arm, unpaired_repeats, too_few_repeats, doubled_record,
  failed_run, not_a_duration, noisy_box, other_base, uncalibrated, of_generation, of_roofline,
  of_bootstrap, of_floor, lift, required, Measurement, Arm, Grouped, arm_of,
}

pub record CellResult (R : Type 0) : Type 0 where
  pub cell : Cell R
  pub gap_closed : R
  pub credited_gap_closed : R
  pub gap : GapClosed R
  pub run_ceiling_seconds : R
  pub base_vs_anchor_pct : Option R
  pub base_spread_pct : R
  pub floor_pct : R
  pub floor_as_gap_closed : R
  pub resolved : Bool
  pub interval : Interval R
  pub signs : SignTest R
  pub base_seconds : List R
  pub candidate_seconds : List R
  pub repeats : ℕ
  pub room_after : Gate R

module _ {R : Type 0} ⦃n : Num R⦄ where
  abbrev pub shared_repeats : Arm R → Arm R → List ℕ
  shared_repeats base cand = sort_by ltb (keep (λ k. elem k (keys cand)) (keys base))

  abbrev pub latency_of : Measurement R → Result ComputeError R
  latency_of m = elim (lookup "latency_s" m.metrics) [
    | none ↦ err not_a_duration
    | some null ↦ err not_a_duration
    | some other ↦ err not_a_duration
    | some (number t) ↦ if lt (num 0) t then ok t else err not_a_duration
  ]

  -- the one record of a repeat
  abbrev pub only_record : List (Measurement R) → Result ComputeError (Measurement R)
  only_record [] = err doubled_record
  only_record (m ∷ []) = ok m
  only_record (m ∷ m' ∷ ms) = err doubled_record

  unfoldable pub time_of : Arm R → ℕ → Result ComputeError R
  time_of arm k = do
    m ← only_record (or_else (lookup k arm) [])
    raise_if (elem m.status failure_statuses) failed_run
    latency_of m

  -- the times of both arms, repeat by repeat
  unfoldable pub paired_times : Arm R → Arm R → List ℕ → Result ComputeError (List R × List R)
  unfolding time_of
  paired_times base cand [] = ok ([], [])
  paired_times base cand (k ∷ ks) = time_of base k >>= λ b.
      time_of cand k >>= λ c. paired_times base cand ks >>= λ rest. ok (b ∷ rest.0, c ∷ rest.1)

  abbrev pub spread_pct_of : List R → R
  spread_pct_of [] = num 0
  spread_pct_of (x ∷ xs) = (largest x xs / smallest x xs - num 1) * num 100

  -- 1e-9, `BASE_SPREAD_FLOORS` and `BASE_ANCHOR_BAND_PCT`
  abbrev pub least_floor : R
  least_floor = num 1 / num 1000000000

  abbrev pub base_spread_floors : R
  base_spread_floors = num 3

  abbrev pub base_anchor_band_pct : R
  base_anchor_band_pct = num 25

  -- against the anchor's time, where it has one that is not zero
  abbrev pub versus_anchor : R → Option R → Option R
  versus_anchor base_geo none = none
  versus_anchor base_geo (some m) =
      if num_eq m (num 0) then none else some ((base_geo / m - num 1) * num 100)

  abbrev pub is_far : Option R → Bool
  is_far none = false
  is_far (some pct) = lt base_anchor_band_pct (abs pct)

  -- both arms, paired
  unfoldable pub pair_arms : Generation R → Arm R → Arm R → Result ComputeError (List R × List R)
  unfolding paired_times
  pair_arms g base cand = do
    raise_if (is_empty base || is_empty cand) one_arm
    let shared = shared_repeats base cand
    require (length shared == length base && length base == length cand) unpaired_repeats
    require (leb (nat_max 2 g.repeats) (length shared)) too_few_repeats
    paired_times base cand shared

  -- The two guards on the base arm: was the box quiet, and is this the base that was anchored?
  unfoldable pub guard_base : Bool → R → R → Option R → Result ComputeError (Unit {0})
  guard_base drift_guard floor_pct spread_pct anchor_pct = do
    raise_if (drift_guard && lt (max floor_pct least_floor * base_spread_floors) spread_pct)
        noisy_box
    raise_if (drift_guard && is_far anchor_pct) other_base
    ok tt

  -- the figures of a cell from its paired times
  unfoldable pub score_times :
      Library R
      → Generation R
      → Bool
      → Cell R
      → R
      → R
      → List R
      → List R
      → Result ComputeError (CellResult R)
  unfolding guard_base
  score_times lib g drift_guard cell achieved floor_pct b c = do
    let base_geo = geomean lib b
    let run_ceiling = achieved * base_geo
    let spread_pct = spread_pct_of b
    let anchor_pct = versus_anchor base_geo cell.measured_seconds
    guard_base drift_guard floor_pct spread_pct anchor_pct
    gap ← lift of_roofline (gap_closed run_ceiling base_geo (geomean lib c))
    ci ← lift of_bootstrap (
        paired_bootstrap lib run_ceiling b c g.confidence_level g.bootstrap_resamples
          g.bootstrap_seed)
    floor_gap ← lift of_floor (floor_as_gap_closed floor_pct achieved)
    room ← lift of_floor (resolution_gate floor_pct gap.achieved_candidate (num 20))
    let resolved = excludes ci floor_gap || lies_below ci (neg floor_gap)
    ok (record {
      cell = record cell { ceiling_seconds = some run_ceiling };
      gap_closed = gap.gap_closed;
      credited_gap_closed = if resolved then gap.gap_closed else num 0;
      gap = gap;
      run_ceiling_seconds = run_ceiling;
      base_vs_anchor_pct = anchor_pct;
      base_spread_pct = spread_pct;
      floor_pct = floor_pct;
      floor_as_gap_closed = floor_gap;
      resolved = resolved;
      interval = ci;
      signs = sign_test b c;
      base_seconds = b;
      candidate_seconds = c;
      repeats = length b;
      room_after = room;
    })

  unfoldable pub score_cell :
      Library R → Generation R → Bool → Grouped R → String → Result ComputeError (CellResult R)
  unfolding pair_arms score_times
  score_cell lib g drift_guard grouped cell_id = do
    cell ← lift of_generation (get_cell g cell_id)
    require cell.implemented not_implemented
    (b, c) ← pair_arms g (arm_of cell_id "base" grouped) (arm_of cell_id "candidate" grouped)
    achieved ← required uncalibrated cell.achieved
    floor_pct ← required uncalibrated cell.floor_pct
    score_times lib g drift_guard cell achieved floor_pct b c
