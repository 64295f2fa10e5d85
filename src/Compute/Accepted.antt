-- ===== src/Compute/Accepted.antt =====
-- What an accepted submission rests on: each of its cells, and the cells together.
use burnisher.Base.{
  String, ◌≡◌, refl, ap, subst, Bool, true, false, ◌||◌, Option, none, some, List, [], ◌∷◌, any,
  All,
}
use burnisher.Base.Eq.{string_eq, nat_eq}
use burnisher.Base.Dict.{Dict, keys}
use burnisher.Base.Result.{ok, >>=-eq-ok}
use burnisher.Base.Num.{Num}
use burnisher.Cells.{Cell, Generation, coverage, aggregate, get_cell, values}
use burnisher.Frontier.Volume.{FrontierDelta}
use burnisher.Bootstrap.{Library}
use burnisher.Compute.{
  ComputeError, uncalibrated, incomplete, no_operating_point, not_implemented, of_generation, lift,
  required, RawRecord, Grouped, group, arm_of,
}
use burnisher.Compute.Score.{CellResult, pair_arms, score_cell}
use burnisher.Compute.Held.{cells_of}
use burnisher.Compute.Whole.{
  Computed, is_uncalibrated, score_cells, credited, frontier_cells, has_no_point, frontier_of,
  held_out_of_records, compute,
}
use burnisher.Compute.Sound.{
  raise_if-ok, require-ok, lift-ok, ok-injective, IsPaired, pair_arms-IsPaired, Figures,
  score_times-Figures,
}

required-ok :
    {A : Type 0} (e : ComputeError) (o : Option A) {a : A} → required e o ≡ ok a → o ≡ some a
required-ok e none h = cc
required-ok e (some x) h = let q : x ≡ _ = ok-injective h in ap some q

module _ {R : Type 0} ⦃n : Num R⦄ where
  -- A scored cell, with the times that were paired and the figures that follow from them.
  pub record SoundCell (lib : Library R) (g : Generation R) (drift_guard : Bool)
      (grouped : Grouped R) (cell_id : String) (r : CellResult R) : Type 0 where
    pub cell : Cell R
    pub cell_lem : get_cell g cell_id ≡ ok cell
    pub is_implemented : cell.implemented ≡ true
    pub base_times : List R
    pub candidate_times : List R
    pub is_paired :
        IsPaired g
          (arm_of cell_id "base" grouped)
          (arm_of cell_id "candidate" grouped)
          base_times
          candidate_times
    pub figures : Figures lib g drift_guard cell base_times candidate_times r

  module _ (lib : Library R) (g : Generation R) (drift_guard : Bool) (grouped : Grouped R) where
    score_cell-SoundCell :
        (cell_id : String) {r : CellResult R}
        → score_cell lib g drift_guard grouped cell_id ≡ ok r
        → SoundCell lib g drift_guard grouped cell_id r
    unfolding score_cell
    score_cell-SoundCell cell_id h =
        let (cell, hc, h1) = >>=-eq-ok (lift of_generation (get_cell g cell_id)) _ h in
        let (impl, h2) = require-ok cell.implemented not_implemented h1 in
        let (p, hp, h3) =
          >>=-eq-ok
            (pair_arms g (arm_of cell_id "base" grouped) (arm_of cell_id "candidate" grouped)) _
            h2 in
        let (a, ha, h4) = >>=-eq-ok (required uncalibrated cell.achieved) _ h3 in
        let (fl, hf, h5) = >>=-eq-ok (required uncalibrated cell.floor_pct) _ h4 in
        record {
          cell = cell;
          cell_lem = lift-ok of_generation _ hc;
          is_implemented = impl;
          base_times = p.0;
          candidate_times = p.1;
          is_paired =
              pair_arms-IsPaired g (arm_of cell_id "base" grouped)
                (arm_of cell_id "candidate" grouped) hp;
          figures =
              score_times-Figures lib g drift_guard cell a fl p.0 p.1
                (required-ok uncalibrated cell.achieved ha) h5;
        }

    score_cells-SoundCell :
        (cells : List String) {per_cell : Dict String (CellResult R)}
        → score_cells lib g drift_guard grouped cells ≡ ok per_cell
        → All (λ (e : String × CellResult R). SoundCell lib g drift_guard grouped e.0 e.1) per_cell
          × (keys per_cell ≡ cells)
    unfolding score_cells
    score_cells-SoundCell [] h =
        subst
          (λ (z : Dict String (CellResult R)).
            All (λ (e : String × CellResult R). SoundCell lib g drift_guard grouped e.0 e.1) z
            × (keys z ≡ []))
          (ok-injective h) (tt, refl)
    score_cells-SoundCell (cell_id ∷ cells) h =
        let (r, hr, h1) = >>=-eq-ok (score_cell lib g drift_guard grouped cell_id) _ h in
        let (rest, hs, h2) = >>=-eq-ok (score_cells lib g drift_guard grouped cells) _ h1 in
        let (sound, same) = score_cells-SoundCell cells hs in
        subst
          (λ (z : Dict String (CellResult R)).
            All (λ (e : String × CellResult R). SoundCell lib g drift_guard grouped e.0 e.1) z
            × (keys z ≡ cell_id ∷ cells))
          (ok-injective h2) ((score_cell-SoundCell cell_id hr, sound), ap (λ ks. cell_id ∷ ks) same)

  -- What a computed score rests on.
  pub record SoundScore (lib : Library R) (g : Generation R) (records : List (RawRecord R))
      (allow_partial drift_guard : Bool) (r : Computed R) : Type 0 where
    pub is_calibrated : any is_uncalibrated (values g.cells) ≡ false
    pub grouped : Grouped R
    pub grouped_lem : group records ≡ ok grouped
    pub coverage_lem : r.coverage ≡ coverage g (cells_of grouped)
    pub is_covered : (r.coverage.complete || allow_partial) ≡ true
    pub keys_lem : keys r.per_cell ≡ cells_of grouped
    pub cells_sound :
        All (λ (e : String × CellResult R). SoundCell lib g drift_guard grouped e.0 e.1) r.per_cell
    pub aggregate_lem : aggregate (credited r.per_cell) g ≡ ok r.aggregate
    pub frontier_lem : frontier_cells g records r.per_cell ≡ ok r.frontier.per_cell
    pub is_measured :
        any (λ (e : String × FrontierDelta R). has_no_point e.1) r.frontier.per_cell ≡ false

  -- When a score is computed, no implemented cell of the generation waits for its calibration, and the
  -- cells scored are those of the records, all of the matrix unless a partial run is asked for. Each is
  -- an implemented cell, with two repeats at least and as many as the generation declares, in both arms
  -- the same ones, and the times of each arm are the latencies that the only record of each repeat in
  -- that arm reports, of runs that did not fail. It resolves exactly when the interval of the gap clears
  -- the noise floor, above or below, and its credit is the gap it closed where it resolves and zero
  -- elsewhere; the base arm was quiet and near its anchor, where that is asked for. The aggregate is that
  -- of the credits, and no cell is without an operating point in both arms.
  pub compute-SoundScore :
      (lib : Library R) (g : Generation R) (records held_out_records : List (RawRecord R))
      (allow_partial drift_guard : Bool) {r : Computed R}
      → compute lib g records held_out_records allow_partial drift_guard ≡ ok r
      → SoundScore lib g records allow_partial drift_guard r
  unfolding compute frontier_of
  compute-SoundScore lib g records held_out_records allow_partial drift_guard {r} h =
      let (cal, h1) = raise_if-ok (any is_uncalibrated (values g.cells)) uncalibrated h in
      let (grouped, hg, h2) = >>=-eq-ok (group records) _ h1 in
      let (cov, h3) =
        require-ok ((coverage g (cells_of grouped)).complete || allow_partial) incomplete h2 in
      let (per_cell, hp, h4) =
        >>=-eq-ok (score_cells lib g drift_guard grouped (cells_of grouped)) _ h3 in
      let (agg, ha, h5) = >>=-eq-ok (lift of_generation (aggregate (credited per_cell) g)) _ h4 in
      let (deltas, hd, h6) = >>=-eq-ok (frontier_cells g records per_cell) _ h5 in
      let (pts, h7) =
        raise_if-ok (any (λ (e : String × FrontierDelta R). has_no_point e.1) deltas)
          no_operating_point h6 in
      let (held, hh, h8) = >>=-eq-ok (held_out_of_records lib held_out_records per_cell) _ h7 in
      let (sound, same) = score_cells-SoundCell lib g drift_guard grouped (cells_of grouped) hp in
      subst (SoundScore lib g records allow_partial drift_guard) (ok-injective h8) (record {
        is_calibrated = cal;
        grouped = grouped;
        grouped_lem = hg;
        coverage_lem = refl;
        is_covered = cov;
        keys_lem = same;
        cells_sound = sound;
        aggregate_lem = lift-ok of_generation _ ha;
        frontier_lem = hd;
        is_measured = pts;
      })
