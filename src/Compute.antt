-- ===== src/Compute.antt =====
-- eval/burnscore/compute.py: raw records of paired measurements, and their grouping.
pub mod Score
pub mod Held
pub mod Whole
pub mod Sound
pub mod Accepted
pub mod Shapes
pub mod Survived
use burnisher.Base.{
  ℕ, zero, suc, String, ◌≤◌, ◌≡◌, refl, sym, ap, subst, ◌∙◌, ◌≢◌, ◌↔◌, ◌⊎◌, inl, inr, Bool, true,
  false, not, ◌&&◌, ◌||◌, Option, none, some, List, [], ◌∷◌, ◌++◌, map, arith, if◌then◌else◌, ltb,
  leb, length, is_empty, get_elem?, take, drop, any, all, keep, find, In, here, there, In-cons, All,
  keep-In, In-keep, any-In, all-In, All-of_In, find-eq_some, In-append_left, In-append_right,
  keep-append, length-append, if-cases, Bool-cases, Option-cases, is_some, or_else, ◌<◌,
}
use burnisher.Base.Eq.{Eq, ◌==◌, string_eq, nat_eq}
use burnisher.Base.Dict.{
  Dict, lookup, has_key, insert, keys, elem, adjoin, minus, meet, elem-In, In-elem, minus-In,
  In-minus, lookup-insert, eq_self, eq_of_test,
}
use burnisher.Base.Result.{Result, ok, err, ◌>>=◌, ◌>>◌, require, raise_if, for_each, >>=-eq-ok}
use burnisher.Base.Num.{
  Num, num, le, lt, num_eq, max, min, neg, abs, ◌+◌, ◌-◌, ◌*◌, ◌/◌, lt-le, lt_trans_le, le_trans_lt,
}
use burnisher.Base.Eq.{pair_eq}
use burnisher.Frontier.{FrontierError, Raw}
use burnisher.Cells.{GenerationError}
use burnisher.Roofline.{RooflineError}
use burnisher.Bootstrap.{BootstrapError}
use burnisher.Floor.{FloorError}

-- The refusals of `compute` itself, by the guard that makes them, and those of what it calls.
pub data ComputeError : Type 0 where
  missing_key bad_variant uncalibrated incomplete not_implemented one_arm unpaired_repeats :
      ComputeError
  too_few_repeats doubled_record failed_run not_a_duration noisy_box other_base : ComputeError
  no_operating_point bad_held_out : ComputeError
  of_generation : GenerationError → ComputeError
  of_roofline : RooflineError → ComputeError
  of_bootstrap : BootstrapError → ComputeError
  of_floor : FloorError → ComputeError
  of_frontier : FrontierError → ComputeError

-- the exception of a module that is called, as one of this module
abbrev pub lift : {E A : Type 0} → (E → ComputeError) → Result E A → Result ComputeError A
lift f (ok a) = ok a
lift f (err e) = err (f e)

abbrev pub required : {A : Type 0} → ComputeError → Option A → Result ComputeError A
required e none = err e
required e (some a) = ok a

-- One measurement, as the runner wrote it: a key may be missing.
pub record RawRecord (R : Type 0) : Type 0 where
  pub cell : Option String
  pub variant : Option String
  pub repeat : Option ℕ
  pub status : Option String
  pub metrics : Dict String (Raw R)

-- a record with its keys
pub record Measurement (R : Type 0) : Type 0 where
  pub cell : String
  pub variant : String
  pub repeat : ℕ
  pub status : String
  pub metrics : Dict String (Raw R)

-- the records of each repeat of one arm, and the arms by cell and variant
abbrev pub Arm : Type 0 → Type 0
Arm R = Dict ℕ (List (Measurement R))

abbrev pub Grouped : Type 0 → Type 0
Grouped R = Dict (String × String) (Arm R)

module _ {R : Type 0} where
  unfoldable pub read_record : RawRecord R → Result ComputeError (Measurement R)
  read_record r = do
    cell ← required missing_key r.cell
    variant ← required missing_key r.variant
    repeat ← required missing_key r.repeat
    status ← required missing_key r.status
    require (elem variant ("base" ∷ "candidate" ∷ [])) bad_variant
    ok (record {
      cell = cell;
      variant = variant;
      repeat = repeat;
      status = status;
      metrics = r.metrics;
    })

  -- an arm that no record has is empty
  abbrev pub arm_of : String → String → Grouped R → Arm R
  arm_of cell variant grouped = or_else (lookup (cell, variant) grouped) []

  abbrev pub add_record : Measurement R → Grouped R → Grouped R
  add_record m grouped =
      let arm = arm_of m.cell m.variant grouped in
      insert (m.cell, m.variant) (insert m.repeat (or_else (lookup m.repeat arm) [] ++ m ∷ []) arm)
        grouped

  unfoldable pub group_from : Grouped R → List (RawRecord R) → Result ComputeError (Grouped R)
  unfolding read_record
  group_from grouped [] = ok grouped
  group_from grouped (r ∷ records) =
      read_record r >>= λ m. group_from (add_record m grouped) records

  abbrev pub group : List (RawRecord R) → Result ComputeError (Grouped R)
  group records = group_from [] records
