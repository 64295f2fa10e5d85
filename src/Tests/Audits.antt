-- ===== src/Tests/Audits.antt =====
-- Runs of an audit: a receipt derived again from the measurements it was made of.
use burnisher.Base.{String, ◌≡◌, refl, true, false, some, List, [], ◌∷◌, is_empty, All}
use burnisher.Base.Eq.{string_eq, nat_eq}
use burnisher.Base.Result.{ok, err}
use burnisher.Base.Int.{ℤ}
use burnisher.Base.Fixed.{fixed}
use burnisher.Frontier.{
  check_objective, clamp_unit, normalize, normalize_all, normalize_point, all_ge, any_gt, dominates,
  same_point, before, insert_sorted, sorted_set, any_dominates, undominated, pareto_frontier,
}
use burnisher.Frontier.Volume.{
  combinations, shared_volume, all_sizes, hypervolume, hv2, hv_incl_excl, points_of, is_covered,
  uncovered, frontier_delta, staircase,
}
use burnisher.Cells.{coverage, aggregate, get_cell, cell_objectives, cell_objective}
use burnisher.Floor.{floor_as_gap_closed, resolution_gate}
use burnisher.Roofline.{gap_closed, achieved_fraction}
use burnisher.Bootstrap.{
  paired_bootstrap, interval_of, gap_of_times, geomean, pick, resample, rank, excludes, lies_below,
  sign_test, count_pairs, comb, comb_sum,
}
use burnisher.Compute.{read_record, group_from}
use burnisher.Compute.Score.{time_of, paired_times, pair_arms, guard_base, score_times, score_cell}
use burnisher.Compute.Whole.{compute, score_cells, submission_of, frontier_cells, frontier_of}
use burnisher.Base.Eq.{option_eq}
use burnisher.Cells.{Generation}
use burnisher.Receipt.{
  frontier_expanded, Receipt, status_text, read_status, is_crediting, decide_status,
  missing_code_provenance, with_completeness, with_calibration,
}
use burnisher.Receipt.Build.{
  or_unknown, known_status, credit_of, withhold, build_body, seal, check_achieved, check_cell,
  check_generation, check_score, verify_receipt,
}
use burnisher.Verdict.{verdict_of, verdict, credited, read}
use burnisher.Audit.{RawFile, Audit, rebuild, rescore, audit_one, Audit, audits, run_ledger}
use burnisher.Audit.Supported.{Support, audit_one-Support, audit_one-superseded}
use burnisher.Audit.Ledger.{Supported, run_ledger-Supported}
use burnisher.Tests.Fixtures.{provenance, hash, winning}
use burnisher.Tests.Scores.{python, one_cell, measurements, submission}

abbrev raw : RawFile ℤ
raw = record {
  records = measurements;
  held_out = [];
  correctness = "PASS";
  determinism = some true;
  provenance = provenance "c1" "GPU-aaaa";
}

abbrev show : ℤ → String
show gap = "+0.2"

abbrev published : Receipt ℤ
published = seal hash (rebuild one_cell raw winning "2026-02-01" submission)

abbrev audit : Audit ℤ
audit = elim (audit_one python hash show one_cell raw published "2026-03-01") [
  | ok a ↦ a
  | err e ↦ record {
    verifies = false;
    reproduced = false;
    differing = [];
    right_generation = false;
    verdict = verdict_of show published frontier_expanded;
    pass = false;
  }
]

audit_lem : audit_one python hash show one_cell raw published "2026-03-01" ≡ ok audit
unfolding check_objective clamp_unit normalize normalize_all normalize_point all_ge any_gt dominates
    same_point before insert_sorted sorted_set any_dominates undominated pareto_frontier
    combinations shared_volume all_sizes hypervolume hv2 hv_incl_excl points_of is_covered uncovered
    frontier_delta staircase get_cell cell_objectives cell_objective coverage aggregate
    floor_as_gap_closed resolution_gate gap_closed achieved_fraction paired_bootstrap interval_of
    geomean gap_of_times pick resample rank excludes lies_below sign_test count_pairs comb comb_sum
    read_record group_from time_of paired_times pair_arms guard_base score_times score_cell compute
    score_cells submission_of frontier_cells frontier_of rebuild rescore audit_one build_body seal
    decide_status status_text read_status or_unknown known_status credit_of withhold
    missing_code_provenance with_completeness with_calibration check_achieved check_cell
    check_generation check_score verify_receipt is_crediting verdict verdict_of credited read
audit_lem = refl

audit_passes : audit.pass ≡ true
unfolding check_objective clamp_unit normalize normalize_all normalize_point all_ge any_gt dominates
    same_point before insert_sorted sorted_set any_dominates undominated pareto_frontier
    combinations shared_volume all_sizes hypervolume hv2 hv_incl_excl points_of is_covered uncovered
    frontier_delta staircase get_cell cell_objectives cell_objective coverage aggregate
    floor_as_gap_closed resolution_gate gap_closed achieved_fraction paired_bootstrap interval_of
    geomean gap_of_times pick resample rank excludes lies_below sign_test count_pairs comb comb_sum
    read_record group_from time_of paired_times pair_arms guard_base score_times score_cell compute
    score_cells submission_of frontier_cells frontier_of rebuild rescore audit_one build_body seal
    decide_status status_text read_status or_unknown known_status credit_of withhold
    missing_code_provenance with_completeness with_calibration check_achieved check_cell
    check_generation check_score verify_receipt is_crediting verdict verdict_of credited read
audit_passes = refl

audit_one-Support_example : Support python hash show one_cell raw published "2026-03-01" audit
audit_one-Support_example =
    audit_one-Support python hash show one_cell raw published "2026-03-01" audit_lem audit_passes

abbrev kept : List (Generation ℤ × (RawFile ℤ × Receipt ℤ))
kept = (one_cell, (raw, published)) ∷ []

ledger_lem : run_ledger python hash show kept "2026-03-01" ≡ ok 0
unfolding check_objective clamp_unit normalize normalize_all normalize_point all_ge any_gt dominates
    same_point before insert_sorted sorted_set any_dominates undominated pareto_frontier
    combinations shared_volume all_sizes hypervolume hv2 hv_incl_excl points_of is_covered uncovered
    frontier_delta staircase get_cell cell_objectives cell_objective coverage aggregate
    floor_as_gap_closed resolution_gate gap_closed achieved_fraction paired_bootstrap interval_of
    geomean gap_of_times pick resample rank excludes lies_below sign_test count_pairs comb comb_sum
    read_record group_from time_of paired_times pair_arms guard_base score_times score_cell compute
    score_cells submission_of frontier_cells frontier_of rebuild rescore audit_one build_body seal
    decide_status status_text read_status or_unknown known_status credit_of withhold
    missing_code_provenance with_completeness with_calibration check_achieved check_cell
    check_generation check_score verify_receipt is_crediting verdict verdict_of credited read audits
    run_ledger
ledger_lem = refl

run_ledger-Supported_example :
    (is_empty kept ≡ false) × All (Supported python hash show "2026-03-01") kept
run_ledger-Supported_example = run_ledger-Supported python hash show "2026-03-01" kept ledger_lem

-- the same receipt, with a reason why it supersedes another
abbrev corrected : Receipt ℤ
corrected = seal hash (record (rebuild one_cell raw winning "2026-02-01" submission) {
  supersede_reason = some "wrong driver";
})

abbrev corrected_audit : Audit ℤ
corrected_audit = elim (audit_one python hash show one_cell raw corrected "2026-03-01") [
  | ok a ↦ a
  | err e ↦ audit
]

corrected_lem : audit_one python hash show one_cell raw corrected "2026-03-01" ≡ ok corrected_audit
unfolding check_objective clamp_unit normalize normalize_all normalize_point all_ge any_gt dominates
    same_point before insert_sorted sorted_set any_dominates undominated pareto_frontier
    combinations shared_volume all_sizes hypervolume hv2 hv_incl_excl points_of is_covered uncovered
    frontier_delta staircase get_cell cell_objectives cell_objective coverage aggregate
    floor_as_gap_closed resolution_gate gap_closed achieved_fraction paired_bootstrap interval_of
    geomean gap_of_times pick resample rank excludes lies_below sign_test count_pairs comb comb_sum
    read_record group_from time_of paired_times pair_arms guard_base score_times score_cell compute
    score_cells submission_of frontier_cells frontier_of rebuild rescore audit_one build_body seal
    decide_status status_text read_status or_unknown known_status credit_of withhold
    missing_code_provenance with_completeness with_calibration check_achieved check_cell
    check_generation check_score verify_receipt is_crediting verdict verdict_of credited read audits
    run_ledger
corrected_lem = refl

corrected_differs : corrected_audit.differing ≡ "supersede_reason" ∷ []
unfolding check_objective clamp_unit normalize normalize_all normalize_point all_ge any_gt dominates
    same_point before insert_sorted sorted_set any_dominates undominated pareto_frontier
    combinations shared_volume all_sizes hypervolume hv2 hv_incl_excl points_of is_covered uncovered
    frontier_delta staircase get_cell cell_objectives cell_objective coverage aggregate
    floor_as_gap_closed resolution_gate gap_closed achieved_fraction paired_bootstrap interval_of
    geomean gap_of_times pick resample rank excludes lies_below sign_test count_pairs comb comb_sum
    read_record group_from time_of paired_times pair_arms guard_base score_times score_cell compute
    score_cells submission_of frontier_cells frontier_of rebuild rescore audit_one build_body seal
    decide_status status_text read_status or_unknown known_status credit_of withhold
    missing_code_provenance with_completeness with_calibration check_achieved check_cell
    check_generation check_score verify_receipt is_crediting verdict verdict_of credited read audits
    run_ledger
corrected_differs = refl

corrected_reason : corrected.supersede_reason ≡ some "wrong driver"
unfolding seal
corrected_reason = refl

audit_one-superseded_example : corrected_audit.pass ≡ false
audit_one-superseded_example =
    audit_one-superseded python hash show one_cell raw corrected "2026-03-01" "wrong driver"
      corrected_reason corrected_lem
