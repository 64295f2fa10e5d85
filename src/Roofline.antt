-- ===== src/Roofline.antt =====
-- eval/burnscore/roofline.py: the arithmetic ceiling of a cell, and the share of the gap to it that a
-- change closes.
pub mod Gap
use burnisher.Base.{
  ℕ, zero, suc, String, ◌≤◌, ◌≡◌, refl, sym, ap, subst, ◌∙◌, ◌≢◌, ◌↔◌, ◌⊎◌, inl, inr, Bool, true,
  false, not, ◌&&◌, ◌||◌, Option, none, some, List, [], ◌∷◌, ◌++◌, map, arith, if◌then◌else◌, ltb,
  leb, length, is_empty, get_elem?, take, drop, any, all, keep, find, In, here, there, In-cons, All,
  keep-In, In-keep, any-In, all-In, All-of_In, find-eq_some, In-append_left, In-append_right,
  keep-append, length-append, if-cases, Bool-cases, Option-cases, is_some, or_else, ◌<◌,
}
use burnisher.Base.Eq.{Eq, ◌==◌, string_eq, nat_eq}
use burnisher.Base.Dict.{
  Dict, lookup, has_key, insert, keys, elem, adjoin, minus, meet, elem-In, In-elem, minus-In,
  In-minus, lookup-insert, eq_self, eq_of_test,
}
use burnisher.Base.Result.{Result, ok, err, ◌>>=◌, ◌>>◌, require, raise_if, for_each, >>=-eq-ok}
use burnisher.Base.Num.{
  Num, num, le, lt, num_eq, max, min, neg, abs, ◌+◌, ◌-◌, ◌*◌, ◌/◌, lt-le, lt_trans_le, le_trans_lt,
}
use burnisher.Dtypes.{DtypeError, peak_key}

pub data RooflineError : Type 0 where
  no_field non_positive_peak not_a_duration above_ceiling : RooflineError
  of_dtype : DtypeError → RooflineError

-- a device's field: a number, or a number with where it comes from
pub data Field (R : Type 0) : Type 0 where
  plain : R → Field R
  sourced : R → Option String → Field R

pub record Device (R : Type 0) : Type 0 where
  pub name : Option String
  pub fields : Dict String (Field R)

-- One operation of a stage, and the stage's counts, which the geometry gives.
pub record Op (R : Type 0) : Type 0 where
  pub total_flops : R
  pub total_bytes : R

pub record Profile (R : Type 0) : Type 0 where
  pub stage : String
  pub wdtype : String
  pub adtype : String
  pub flops : R
  pub unavoidable_bytes : R
  pub traffic_bytes : R
  pub param_bytes : R
  pub ops : List (Op R)
  pub invocations : R

-- `arithmetic_intensity` is infinite, here `none`, where no byte is unavoidable.
pub record Bound (R : Type 0) : Type 0 where
  pub cell : String
  pub stage : String
  pub device : String
  pub wdtype : String
  pub adtype : String
  pub flops : R
  pub unavoidable_bytes : R
  pub traffic_bytes : R
  pub peak_flops : R
  pub peak_bandwidth_bytes : R
  pub peak_basis : String
  pub compute_seconds : R
  pub memory_seconds : R
  pub ceiling_seconds : R
  pub decomposed_seconds : R
  pub bound_by : String
  pub arithmetic_intensity : Option R
  pub ridge_point : R
  pub param_bytes : R

abbrev pub peak_basis_of : String → String → String
peak_basis_of src_f src_b =
    if src_f == "measured" && src_b == "measured"
    then "measured"
    else if src_f == "vendor" || src_b == "vendor"
    then "vendor"
    else src_f

-- The components of a score; `remaining_after` is `none` where the base is at its ceiling.
pub record GapClosed (R : Type 0) : Type 0 where
  pub gap_closed : R
  pub achieved_base : R
  pub achieved_candidate : R
  pub remaining_before : R
  pub remaining_after : Option R
  pub speedup : R
  pub saturated : Bool

pub record Room (R : Type 0) : Type 0 where
  pub achieved : Option R
  pub max_further_speedup : Option R
  pub remaining_fraction : Option R
  pub seconds_recoverable : Option R

module _ {R : Type 0} ⦃n : Num R⦄ where
  unfoldable pub spec : Device R → String → Result RooflineError (R × String)
  spec device key = elim (lookup key device.fields) [
    | none ↦ err no_field
    | some (plain v) ↦ ok (v, "unstated")
    | some (sourced v source) ↦ ok (v, or_else source "unstated")
  ]

  -- every operation pays its own maximum
  unfoldable pub decomposed : R → R → List (Op R) → R → R
  decomposed peak bw [] total = total
  decomposed peak bw (op ∷ ops) total =
      decomposed peak bw ops (total + max (op.total_flops / peak) (op.total_bytes / bw))

  abbrev pub tera : R
  tera = num 1000000000000

  abbrev pub giga : R
  giga = num 1000000000

  unfoldable pub bound_for :
      Profile R → Device R → String → Option String → Result RooflineError (Bound R)
  unfolding peak_key spec decomposed
  bound_for p device cell device_name = do
    key ← elim (peak_key p.wdtype) [ ok k ↦ ok k | err e ↦ err (of_dtype e) ]
    (tflops, src_f) ← spec device key
    (gbs, src_b) ← spec device "memory_bandwidth_gbs"
    let peak = tflops * tera
    let bw = gbs * giga
    raise_if (le peak (num 0) || le bw (num 0)) non_positive_peak
    let compute = p.flops / peak
    let memory = p.unavoidable_bytes / bw
    ok (record {
      cell = cell;
      stage = p.stage;
      device =
          if or_else device_name "" == "" then or_else device.name "?" else or_else device_name "";
      wdtype = p.wdtype;
      adtype = p.adtype;
      flops = p.flops;
      unavoidable_bytes = p.unavoidable_bytes;
      traffic_bytes = p.traffic_bytes;
      peak_flops = peak;
      peak_bandwidth_bytes = bw;
      peak_basis = peak_basis_of src_f src_b;
      compute_seconds = compute;
      memory_seconds = memory;
      ceiling_seconds = max compute memory;
      decomposed_seconds = decomposed peak bw p.ops (num 0) * p.invocations;
      bound_by = if le memory compute then "compute" else "memory";
      arithmetic_intensity =
          if num_eq p.unavoidable_bytes (num 0) then none else some (p.flops / p.unavoidable_bytes);
      ridge_point = peak / bw;
      param_bytes = p.param_bytes;
    })

  -- 1.0 + 1e-9
  abbrev pub full : R
  full = num 1 + num 1 / num 1000000000

  -- 1e-12
  abbrev pub saturation : R
  saturation = num 1 / num 1000000000000

  -- Of the ceiling in seconds. `none` in, `none` out.
  unfoldable pub achieved_fraction : R → Option R → Result RooflineError (Option R)
  achieved_fraction ceiling none = ok none
  achieved_fraction ceiling (some m) = do
    require (lt (num 0) m) not_a_duration
    raise_if (lt full (ceiling / m)) above_ceiling
    ok (some (ceiling / m))

  abbrev pub gap_of : R → R → R → R → GapClosed R
  gap_of a_base a_cand base cand =
      let remaining = num 1 - a_base in
      if le remaining saturation
      then record {
        gap_closed = num 0;
        achieved_base = a_base;
        achieved_candidate = a_cand;
        remaining_before = remaining;
        remaining_after = none;
        speedup = base / cand;
        saturated = true;
      }
      else record {
        gap_closed = (a_cand - a_base) / remaining;
        achieved_base = a_base;
        achieved_candidate = a_cand;
        remaining_before = remaining;
        remaining_after = some (num 1 - a_cand);
        speedup = base / cand;
        saturated = false;
      }

  -- `gap_closed` of two times; `None` for a time that is missing is answered before
  unfoldable pub gap_closed : R → R → R → Result RooflineError (GapClosed R)
  unfolding achieved_fraction
  gap_closed ceiling base cand = do
    a_base ← achieved_fraction ceiling (some base)
    a_cand ← achieved_fraction ceiling (some cand)
    ok (gap_of (or_else a_base (num 0)) (or_else a_cand (num 0)) base cand)

  unfoldable pub gap_closed_of :
      R → Option R → Option R → Result RooflineError (Option (GapClosed R))
  unfolding gap_closed
  gap_closed_of ceiling none cand = ok none
  gap_closed_of ceiling (some base) none = ok none
  gap_closed_of ceiling (some base) (some cand) = gap_closed ceiling base cand >>= λ g. ok (some g)

  -- `seconds_recoverable` and the others are `none` for a cell that was not measured
  unfoldable pub room_left : R → Option R → Result RooflineError (Room R)
  unfolding achieved_fraction
  room_left ceiling measured = achieved_fraction ceiling measured >>= λ achieved.
      ok (elim achieved [
        | none ↦ record {
          achieved = none;
          max_further_speedup = none;
          remaining_fraction = none;
          seconds_recoverable = none;
        }
        | some a ↦ record {
          achieved = some a;
          max_further_speedup = if lt (num 0) a then some (num 1 / a) else none;
          remaining_fraction = some (num 1 - a);
          seconds_recoverable = some (or_else measured (num 0) - ceiling);
        }
      ])
