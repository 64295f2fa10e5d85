-- ===== src/Tests/Scores.antt =====
-- Runs of the score: a gap closed, an interval, and a submission of one cell. The logarithm and the
-- exponential are the identity, so that a mean is arithmetic, and the draws are three fixed ones.
use burnisher.Base.{
  ℕ, String, ◌≡◌, refl, true, false, none, some, List, [], ◌∷◌, arith, if◌then◌else◌, length,
}
use burnisher.Base.Eq.{string_eq, nat_eq}
use burnisher.Base.Result.{Result, ok, err}
use burnisher.Base.Num.{num, le, lt, ◌+◌, ◌/◌}
use burnisher.Base.Int.{ℤ, pos}
use burnisher.Base.Fixed.{fixed}
use burnisher.Frontier.{
  FrontierError, Objective, number, check_objective, clamp_unit, normalize, normalize_all,
  normalize_point, all_ge, any_gt, dominates, same_point, before, insert_sorted, sorted_set,
  any_dominates, undominated, pareto_frontier,
}
use burnisher.Frontier.Volume.{
  Operating, FrontierDelta, combinations, shared_volume, all_sizes, hypervolume, hv2, hv_incl_excl,
  points_of, is_covered, uncovered, frontier_delta, staircase,
}
use burnisher.Frontier.Moved.{Moved, frontier_delta-Moved}
use burnisher.Cells.{Generation, coverage, aggregate, get_cell, cell_objectives, cell_objective}
use burnisher.Floor.{floor_as_gap_closed, resolution_gate}
use burnisher.Roofline.{GapClosed, gap_closed, gap_of, achieved_fraction, full}
use burnisher.Roofline.Gap.{gap_closed-sign}
use burnisher.Bootstrap.{
  Library, paired_bootstrap, interval_of, gap_of_times, geomean, pick, resample, rank, excludes,
  lies_below, sign_test, count_pairs, comb, comb_sum,
}
use burnisher.Bootstrap.Ends.{paired_bootstrap-Answers, Answers}
use burnisher.Compute.{RawRecord, read_record, group_from}
use burnisher.Compute.Score.{time_of, paired_times, pair_arms, guard_base, score_times, score_cell}
use burnisher.Compute.Whole.{
  Computed, compute, score_cells, submission_of, frontier_cells, frontier_of,
}
use burnisher.Compute.Held.{
  HeldOut, held_out_of, held_out_verdict, gaining, latencies, shape_result, shape_results,
}
use burnisher.Compute.Survived.{SoundVerdict, held_out_verdict-SoundVerdict}
use burnisher.Compute.Accepted.{SoundScore, compute-SoundScore}
use burnisher.Tests.Fixtures.{denoise, generation}

abbrev halved : GapClosed ℤ
halved = elim (gap_closed (num 1) (num 2) (pos 16000)) [
  | ok g ↦ g
  | err e ↦ gap_of (num 0) (num 0) (num 0) (num 0)
]

halved_gap : halved.gap_closed ≡ pos 2500
unfolding gap_closed achieved_fraction
halved_gap = refl

halved_lem : gap_closed (num 1) (num 2) (pos 16000) ≡ ok halved
unfolding gap_closed achieved_fraction
halved_lem = refl

gap_closed-sign_example :
    ((if le (num 2) (pos 16000) then le halved.gap_closed (num 0) else le (num 0) halved.gap_closed)
      ≡ true)
    × ((lt {R = ℤ} (num 0) (num 2) ≡ true)
        × ((lt (num 0) (pos 16000) ≡ true)
            × ((le {R = ℤ} (num 1 / num 2) full ≡ true)
                × (le (num 1 / pos 16000) (full {R = ℤ}) ≡ true))))
gap_closed-sign_example = gap_closed-sign (num 1) (num 2) (pos 16000) halved refl halved_lem

abbrev mean : List ℤ → ℤ
mean xs = sum_of (num 0) xs / num (length xs)
  where
    sum_of : ℤ → List ℤ → ℤ
    sum_of total [] = total
    sum_of total (y ∷ ys) = sum_of (total + y) ys

abbrev pub python : Library ℤ
python = record {
  exp = λ x. x;
  log = λ x. x;
  fmean = mean;
  floor = λ x. 0;
  draw = λ seed repeats resamples. (0 ∷ 1 ∷ []) ∷ (0 ∷ 0 ∷ []) ∷ (1 ∷ 1 ∷ []) ∷ [];
}

abbrev base_times : List ℤ
base_times = num 2 ∷ pos 20010 ∷ []

abbrev candidate_times : List ℤ
candidate_times = pos 16000 ∷ pos 16010 ∷ []

paired_bootstrap-Answers_example :
    Answers python
      (num 1)
      base_times
      candidate_times
      (pos 9500)
      1000
      7
      true
      (paired_bootstrap python (num 1) base_times candidate_times (pos 9500) 1000 7)
paired_bootstrap-Answers_example =
    paired_bootstrap-Answers python (num 1) base_times candidate_times (pos 9500) 1000 7
      (omega arith)

abbrev pub one_cell : Generation ℤ
one_cell = record generation {
  objectives =
      record { key = "latency_s"; direction = "min"; lo = num 3; hi = num 1; unit = "s" } ∷ [];
  reference_point = num 0 ∷ [];
  cells = ("denoise", record denoise { floor_pct = some (num 1) }) ∷ [];
  repeats = 2;
}

abbrev pub measured : String → ℕ → ℤ → RawRecord ℤ
measured variant k t = record {
  cell = some "denoise";
  variant = some variant;
  repeat = some k;
  status = some "OK";
  metrics = ("latency_s", number t) ∷ [];
}

abbrev pub measurements : List (RawRecord ℤ)
measurements =
    measured "base" 0 (num 2)
    ∷ measured "candidate" 0 (pos 16000)
    ∷ measured "base" 1 (pos 20010)
    ∷ measured "candidate" 1 (pos 16010)
    ∷ []

abbrev nothing : Computed ℤ
nothing = record {
  per_cell = [];
  aggregate = record { gap_closed = num 0; per_cell = []; total_weight = num 0 };
  interval = submission_of [];
  frontier = frontier_of [] [];
  coverage = coverage one_cell [];
  held_out = none;
}

abbrev pub submission : Computed ℤ
submission = elim (compute python one_cell measurements [] false true) [
  | ok r ↦ r
  | err e ↦ nothing
]

submission_gap :
    (submission.aggregate.gap_closed ≡ pos 2499) × (submission.interval.resolved ≡ true)
unfolding check_objective clamp_unit normalize normalize_all normalize_point all_ge any_gt dominates
    same_point before insert_sorted sorted_set any_dominates undominated pareto_frontier
    combinations shared_volume all_sizes hypervolume hv2 hv_incl_excl points_of is_covered uncovered
    frontier_delta staircase get_cell cell_objectives cell_objective coverage aggregate
    floor_as_gap_closed resolution_gate gap_closed achieved_fraction paired_bootstrap interval_of
    geomean gap_of_times pick resample rank excludes lies_below sign_test count_pairs comb comb_sum
    read_record group_from time_of paired_times pair_arms guard_base score_times score_cell compute
    score_cells submission_of frontier_cells frontier_of
submission_gap = (refl, refl)

submission_lem : compute python one_cell measurements [] false true ≡ ok submission
unfolding check_objective clamp_unit normalize normalize_all normalize_point all_ge any_gt dominates
    same_point before insert_sorted sorted_set any_dominates undominated pareto_frontier
    combinations shared_volume all_sizes hypervolume hv2 hv_incl_excl points_of is_covered uncovered
    frontier_delta staircase get_cell cell_objectives cell_objective coverage aggregate
    floor_as_gap_closed resolution_gate gap_closed achieved_fraction paired_bootstrap interval_of
    geomean gap_of_times pick resample rank excludes lies_below sign_test count_pairs comb comb_sum
    read_record group_from time_of paired_times pair_arms guard_base score_times score_cell compute
    score_cells submission_of frontier_cells frontier_of
submission_lem = refl

compute-SoundScore_example : SoundScore python one_cell measurements false true submission
compute-SoundScore_example =
    compute-SoundScore python one_cell measurements [] false true submission_lem

-- at the held-out shape the candidate is no faster than the base
abbrev other_shape : List (RawRecord ℤ)
other_shape = measured "base" 0 (num 2) ∷ measured "candidate" 0 (pos 20000) ∷ []

abbrev verdict : HeldOut ℤ
verdict = elim (held_out_verdict python other_shape submission.per_cell) [
  | ok h ↦ h
  | err e ↦ held_out_of []
]

verdict_failed : verdict.cells_failed ≡ "denoise" ∷ []
unfolding check_objective clamp_unit normalize normalize_all normalize_point all_ge any_gt dominates
    same_point before insert_sorted sorted_set any_dominates undominated pareto_frontier
    combinations shared_volume all_sizes hypervolume hv2 hv_incl_excl points_of is_covered uncovered
    frontier_delta staircase get_cell cell_objectives cell_objective coverage aggregate
    floor_as_gap_closed resolution_gate gap_closed achieved_fraction paired_bootstrap interval_of
    geomean gap_of_times pick resample rank excludes lies_below sign_test count_pairs comb comb_sum
    read_record group_from time_of paired_times pair_arms guard_base score_times score_cell compute
    score_cells submission_of frontier_cells frontier_of held_out_of held_out_verdict gaining
    latencies shape_result shape_results
verdict_failed = refl

verdict_lem : held_out_verdict python other_shape submission.per_cell ≡ ok verdict
unfolding check_objective clamp_unit normalize normalize_all normalize_point all_ge any_gt dominates
    same_point before insert_sorted sorted_set any_dominates undominated pareto_frontier
    combinations shared_volume all_sizes hypervolume hv2 hv_incl_excl points_of is_covered uncovered
    frontier_delta staircase get_cell cell_objectives cell_objective coverage aggregate
    floor_as_gap_closed resolution_gate gap_closed achieved_fraction paired_bootstrap interval_of
    geomean gap_of_times pick resample rank excludes lies_below sign_test count_pairs comb comb_sum
    read_record group_from time_of paired_times pair_arms guard_base score_times score_cell compute
    score_cells submission_of frontier_cells frontier_of held_out_of held_out_verdict gaining
    latencies shape_result shape_results
verdict_lem = refl

held_out_verdict-SoundVerdict_example : SoundVerdict python other_shape submission.per_cell verdict
held_out_verdict-SoundVerdict_example =
    held_out_verdict-SoundVerdict python other_shape submission.per_cell verdict_lem

abbrev latency_and_memory : List (Objective ℤ)
latency_and_memory =
    record { key = "latency_s"; direction = "min"; lo = num 10; hi = num 0; unit = "s" }
    ∷ record { key = "memory_gb"; direction = "min"; lo = num 10; hi = num 0; unit = "GB" }
    ∷ []

abbrev configured : ℕ → ℕ → Operating ℤ
configured latency memory = record {
  metrics = ("latency_s", number (num latency)) ∷ ("memory_gb", number (num memory)) ∷ [];
  status = "OK";
}

abbrev moved : Result FrontierError (FrontierDelta ℤ)
moved =
    frontier_delta (configured 4 4 ∷ configured 2 8 ∷ []) (configured 3 4 ∷ configured 8 2 ∷ [])
      latency_and_memory (num 0 ∷ num 0 ∷ [])

abbrev unmoved : FrontierDelta ℤ
unmoved = record {
  hypervolume_base = num 0;
  hypervolume_candidate = num 0;
  delta = num 0;
  relative_delta = none;
  points_base = 0;
  points_candidate = 0;
  dropped_base_points = 0;
  dropped_candidate_points = 0;
  frontier_points_lost = [];
  frontier_points_gained = [];
  expanded = false;
}

abbrev movement : FrontierDelta ℤ
movement = elim moved [ ok d ↦ d | err e ↦ unmoved ]

-- (0.6, 0.6) is beaten by (0.7, 0.6), and (0.8, 0.2) is lost.
movement_lost : movement.frontier_points_lost ≡ (pos 8000 ∷ pos 2000 ∷ []) ∷ []
unfolding check_objective clamp_unit normalize normalize_all normalize_point all_ge any_gt dominates
    same_point before insert_sorted sorted_set any_dominates undominated pareto_frontier
    combinations shared_volume all_sizes hypervolume hv2 hv_incl_excl points_of is_covered uncovered
    frontier_delta staircase get_cell cell_objectives cell_objective coverage aggregate
    floor_as_gap_closed resolution_gate gap_closed achieved_fraction paired_bootstrap interval_of
    geomean gap_of_times pick resample rank excludes lies_below sign_test count_pairs comb comb_sum
    read_record group_from time_of paired_times pair_arms guard_base score_times score_cell compute
    score_cells submission_of frontier_cells frontier_of
movement_lost = refl

movement_lem :
    frontier_delta
      (configured 4 4 ∷ configured 2 8 ∷ [])
      (configured 3 4 ∷ configured 8 2 ∷ [])
      latency_and_memory
      (num 0 ∷ num 0 ∷ [])
    ≡ ok movement
unfolding check_objective clamp_unit normalize normalize_all normalize_point all_ge any_gt dominates
    same_point before insert_sorted sorted_set any_dominates undominated pareto_frontier
    combinations shared_volume all_sizes hypervolume hv2 hv_incl_excl points_of is_covered uncovered
    frontier_delta staircase get_cell cell_objectives cell_objective coverage aggregate
    floor_as_gap_closed resolution_gate gap_closed achieved_fraction paired_bootstrap interval_of
    geomean gap_of_times pick resample rank excludes lies_below sign_test count_pairs comb comb_sum
    read_record group_from time_of paired_times pair_arms guard_base score_times score_cell compute
    score_cells submission_of frontier_cells frontier_of
movement_lem = refl

frontier_delta-Moved_example :
    Moved
      (configured 4 4 ∷ configured 2 8 ∷ [])
      (configured 3 4 ∷ configured 8 2 ∷ [])
      latency_and_memory
      (num 0 ∷ num 0 ∷ [])
      movement
frontier_delta-Moved_example =
    frontier_delta-Moved (configured 4 4 ∷ configured 2 8 ∷ [])
      (configured 3 4 ∷ configured 8 2 ∷ []) latency_and_memory (num 0 ∷ num 0 ∷ []) movement_lem
