-- ===== src/Compute/Sound.antt =====
-- What a score that is computed rests on, cell by cell.
use Prim.Native.Nat.{max as nat_max}
use burnisher.Base.{
  ℕ, suc, ◌≤◌, ◌≡◌, refl, ap, subst, Bool, true, false, ◌&&◌, ◌||◌, Option, none, some, List, [],
  ◌∷◌, arith, if◌then◌else◌, leb, length, is_empty, or_else,
}
use burnisher.Base.Eq.{◌==◌, string_eq, nat_eq}
use burnisher.Base.Dict.{lookup, elem}
use burnisher.Base.Result.{Result, ok, err, ◌>>◌, require, raise_if, >>=-eq-ok}
use burnisher.Base.Num.{Num, num, lt, max, neg, ◌*◌}
use burnisher.Base.Eq.{pair_eq}
use burnisher.Frontier.{Raw, null, other, number, failure_statuses}
use burnisher.Cells.{Cell, Generation}
use burnisher.Floor.{floor_as_gap_closed, resolution_gate}
use burnisher.Roofline.{gap_closed}
use burnisher.Bootstrap.{Library, geomean, paired_bootstrap, excludes, lies_below}
use burnisher.Compute.{
  ComputeError, not_a_duration, of_roofline, of_bootstrap, of_floor, lift, Measurement, Arm,
}
use burnisher.Compute.Score.{
  CellResult, shared_repeats, latency_of, only_record, time_of, paired_times, spread_pct_of,
  least_floor, base_spread_floors, versus_anchor, is_far, pair_arms, guard_base, score_times,
}

module _ {E A : Type 0} where
  pub raise_if-ok :
      (b : Bool) (e : E) {r : Result E A} {a : A}
      → (raise_if b e >> r) ≡ ok a
      → (b ≡ false) × (r ≡ ok a)
  raise_if-ok true e h = cc
  raise_if-ok false e h = (refl, h)

  pub require-ok :
      (b : Bool) (e : E) {r : Result E A} {a : A}
      → (require b e >> r) ≡ ok a
      → (b ≡ true) × (r ≡ ok a)
  require-ok false e h = cc
  require-ok true e h = (refl, h)

pub lift-ok :
    {E A : Type 0} (f : E → ComputeError) (r : Result E A) {a : A} → lift f r ≡ ok a → r ≡ ok a
lift-ok f (ok x) h = cc
lift-ok f (err e) h = cc

pub ok-injective : {E A : Type 0} {x y : A} → ◌≡◌ {A = Result E A} (ok x) (ok y) → x ≡ y
ok-injective h = cc

module _ {R : Type 0} ⦃n : Num R⦄ where
  -- A time that is taken is the latency that the record reports, and above zero.
  latency_of-reported :
      (m : Measurement R) {t : R}
      → latency_of m ≡ ok t
      → (lookup "latency_s" m.metrics ≡ some (number t)) × (lt (num 0) t ≡ true)
  latency_of-reported m {t} h = go (lookup "latency_s" m.metrics) h
    where
      Reported : Option (Raw R) → Type 0
      Reported o = (o ≡ some (number t)) × (lt (num 0) t ≡ true)

      test :
          (v : R) (b : Bool)
          → lt (num 0) v ≡ b
          → (if b then ok v else err not_a_duration) ≡ ok t
          → Reported (some (number v))
      test v true e h =
          let q : v ≡ t = ok-injective h in
          (ap (λ z. some (number z)) q, subst (λ z. lt (num 0) z ≡ true) q e)
      test v false e h = cc

      go :
          (o : Option (Raw R))
          → (elim o as (λ _. Result ComputeError R) [
            | none ↦ err not_a_duration
            | some null ↦ err not_a_duration
            | some other ↦ err not_a_duration
            | some (number v) ↦ if lt (num 0) v then ok v else err not_a_duration
          ])
            ≡ ok t
          → Reported o
      go none h = cc
      go (some null) h = cc
      go (some other) h = cc
      go (some (number v)) h = test v (lt (num 0) v) refl h

  -- A time is the latency that the only record of its repeat in this arm reports, whose run did not fail.
  abbrev pub IsTaken : Arm R → ℕ → R → Type 0
  IsTaken arm k t =
      (m : Measurement R) × ((or_else (lookup k arm) [] ≡ m ∷ [])
        × ((elem m.status failure_statuses ≡ false)
            × ((lookup "latency_s" m.metrics ≡ some (number t)) × (lt (num 0) t ≡ true))))

  only_record-ok :
      (ms : List (Measurement R)) {m : Measurement R} → only_record ms ≡ ok m → ms ≡ m ∷ []
  only_record-ok [] h = cc
  only_record-ok (x ∷ []) h = cc
  only_record-ok (x ∷ y ∷ ms) h = cc

  time_of-IsTaken : (arm : Arm R) (k : ℕ) {t : R} → time_of arm k ≡ ok t → IsTaken arm k t
  unfolding time_of
  time_of-IsTaken arm k h =
      let (m, hm, h1) = >>=-eq-ok (only_record (or_else (lookup k arm) [])) _ h in
      let (fine, h2) = raise_if-ok (elem m.status failure_statuses) _ h1 in
      (m, (only_record-ok (or_else (lookup k arm) []) hm, (fine, latency_of-reported m h2)))

  -- Every repeat gives a time in both arms.
  abbrev pub Taken : Arm R → List ℕ → List R → Type 0
  Taken arm [] [] = Unit
  Taken arm [] (t ∷ ts) = (true ≡ false)
  Taken arm (k ∷ ks) [] = (true ≡ false)
  Taken arm (k ∷ ks) (t ∷ ts) = IsTaken arm k t × Taken arm ks ts

  paired_times-Taken :
      (base cand : Arm R) (ks : List ℕ) {p : List R × List R}
      → paired_times base cand ks ≡ ok p
      → Taken base ks p.0 × Taken cand ks p.1
  unfolding paired_times
  paired_times-Taken base cand [] {p} h =
      subst (λ (z : List R × List R). Taken base [] z.0 × Taken cand [] z.1) (ok-injective h)
        (tt, tt)
  paired_times-Taken base cand (k ∷ ks) {p} h =
      let (b, hb, h1) = >>=-eq-ok (time_of base k) _ h in
      let (c, hc, h2) = >>=-eq-ok (time_of cand k) _ h1 in
      let (rest, hr, h3) = >>=-eq-ok (paired_times base cand ks) _ h2 in
      let (tb, tc) = paired_times-Taken base cand ks hr in
      subst (λ (z : List R × List R). Taken base (k ∷ ks) z.0 × Taken cand (k ∷ ks) z.1)
        (ok-injective h3) ((time_of-IsTaken base k hb, tb), (time_of-IsTaken cand k hc, tc))

  pub Taken-length :
      (arm : Arm R) (ks : List ℕ) (ts : List R) → Taken arm ks ts → length ts ≡ length ks
  Taken-length arm [] [] h = refl
  Taken-length arm [] (t ∷ ts) h = cc
  Taken-length arm (k ∷ ks) [] h = cc
  Taken-length arm (k ∷ ks) (t ∷ ts) (x, h) = ap suc (Taken-length arm ks ts h)

  -- Two arms of the same repeats, as many as the generation declares, and two at least.
  abbrev pub IsPaired : Generation R → Arm R → Arm R → List R → List R → Type 0
  IsPaired g base cand b c =
      (Taken base (shared_repeats base cand) b × Taken cand (shared_repeats base cand) c)
      × ((length (shared_repeats base cand) ≡ length base)
          × ((length base ≡ length cand) × ((2 ≤ length b) × (g.repeats ≤ length b))))

  pub pair_arms-IsPaired :
      (g : Generation R) (base cand : Arm R) {p : List R × List R}
      → pair_arms g base cand ≡ ok p
      → IsPaired g base cand p.0 p.1
  unfolding pair_arms
  pair_arms-IsPaired g base cand {p} h =
      let shared = shared_repeats base cand in
      let (some_of_both, h1) = raise_if-ok (is_empty base || is_empty cand) _ h in
      let (same, h2) =
        require-ok (length shared == length base && length base == length cand) _ h1 in
      let (enough, h3) = require-ok (leb (nat_max 2 g.repeats) (length shared)) _ h2 in
      let (tb, tc) = paired_times-Taken base cand shared h3 in
      let size = Taken-length base shared p.0 tb in
      (
        (tb, tc),
        (
          ground (arith, same),
          (ground (arith, same), (ground (arith, enough, size), ground (arith, enough, size))),
        ),
      )

  -- How the figures of a cell's result follow from its paired times.
  pub record Figures (lib : Library R) (g : Generation R) (drift_guard : Bool) (cell : Cell R)
      (b c : List R) (r : CellResult R) : Type 0 where
    pub base_lem : r.base_seconds ≡ b
    pub candidate_lem : r.candidate_seconds ≡ c
    pub repeats_lem : r.repeats ≡ length b
    pub credit_lem : r.credited_gap_closed ≡ (if r.resolved then r.gap_closed else num 0)
    pub resolved_lem : r.resolved ≡ (
        excludes r.interval r.floor_as_gap_closed
        || lies_below r.interval (neg r.floor_as_gap_closed))
    pub interval_lem :
        paired_bootstrap lib r.run_ceiling_seconds b c g.confidence_level g.bootstrap_resamples
          g.bootstrap_seed
        ≡ ok r.interval
    pub gap_lem : gap_closed r.run_ceiling_seconds (geomean lib b) (geomean lib c) ≡ ok r.gap
    pub gap_closed_lem : r.gap_closed ≡ r.gap.gap_closed
    pub achieved : R
    pub achieved_lem : cell.achieved ≡ some achieved
    pub ceiling_lem : r.run_ceiling_seconds ≡ achieved * geomean lib b
    pub floor_lem : floor_as_gap_closed r.floor_pct achieved ≡ ok r.floor_as_gap_closed
    pub is_quiet :
        (drift_guard && lt (max r.floor_pct least_floor * base_spread_floors) (spread_pct_of b))
        ≡ false
    pub is_anchored :
        (drift_guard && is_far (versus_anchor (geomean lib b) cell.measured_seconds)) ≡ false

  pub score_times-Figures :
      (lib : Library R) (g : Generation R) (drift_guard : Bool) (cell : Cell R) (a p : R)
      (b c : List R) {r : CellResult R}
      → cell.achieved ≡ some a
      → score_times lib g drift_guard cell a p b c ≡ ok r
      → Figures lib g drift_guard cell b c r
  unfolding score_times guard_base
  score_times-Figures lib g drift_guard cell a p b c {r} ha h =
      let (u, hu, h1) =
        >>=-eq-ok
          (guard_base drift_guard p (spread_pct_of b)
            (versus_anchor (geomean lib b) cell.measured_seconds))
          _ h in
      let (quiet, hu2) =
        raise_if-ok (drift_guard && lt (max p least_floor * base_spread_floors) (spread_pct_of b)) _
          hu in
      let (anchored, _) =
        raise_if-ok (drift_guard && is_far (versus_anchor (geomean lib b) cell.measured_seconds)) _
          hu2 in
      let (gap, hg, h2) =
        >>=-eq-ok
          (lift of_roofline (gap_closed (a * geomean lib b) (geomean lib b) (geomean lib c))) _
          h1 in
      let (ci, hc, h3) =
        >>=-eq-ok
          (lift of_bootstrap (
            paired_bootstrap lib (a * geomean lib b) b c g.confidence_level g.bootstrap_resamples
              g.bootstrap_seed))
          _ h2 in
      let (fg, hf, h4) = >>=-eq-ok (lift of_floor (floor_as_gap_closed p a)) _ h3 in
      let (room, hr, h5) =
        >>=-eq-ok (lift of_floor (resolution_gate p gap.achieved_candidate (num 20))) _ h4 in
      subst (Figures lib g drift_guard cell b c) (ok-injective h5) (record {
        base_lem = refl;
        candidate_lem = refl;
        repeats_lem = refl;
        credit_lem = refl;
        resolved_lem = refl;
        interval_lem = lift-ok of_bootstrap _ hc;
        gap_lem = lift-ok of_roofline _ hg;
        gap_closed_lem = refl;
        achieved = a;
        achieved_lem = ha;
        ceiling_lem = refl;
        floor_lem = lift-ok of_floor _ hf;
        is_quiet = quiet;
        is_anchored = anchored;
      })
