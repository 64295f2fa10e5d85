-- ===== src/Receipt.antt =====
-- eval/burnscore/receipt.py: the receipt, how its status is decided, how it is built and how it is
-- verified. A JSON object is a record; a key that may be absent, or null where the code treats both
-- alike, is an `Option`. The constant explanatory texts of a receipt are left out. The SHA-256 of
-- the canonical JSON is a parameter, `hash`, of the functions that use it.
pub mod Build
pub mod Decide
pub mod Verify
use burnisher.Base.{
  ℕ, zero, suc, String, ◌≤◌, ◌≡◌, refl, sym, ap, subst, ◌∙◌, ◌≢◌, ◌↔◌, ◌⊎◌, inl, inr, Bool, true,
  false, not, ◌&&◌, ◌||◌, Option, none, some, List, [], ◌∷◌, ◌++◌, map, arith, if◌then◌else◌, ltb,
  leb, length, is_empty, get_elem?, take, drop, any, all, keep, find, In, here, there, In-cons, All,
  keep-In, In-keep, any-In, all-In, In-append_left, In-append_right, Bool-cases, Option-cases,
  is_some, or_else, ◌<◌,
}
use burnisher.Base.Eq.{Eq, ◌==◌, string_eq, nat_eq}
use burnisher.Base.Dict.{
  Dict, lookup, has_key, insert, keys, elem, adjoin, minus, meet, elem-In, In-elem, minus-In,
  In-minus, lookup-insert, eq_self, eq_of_test,
}
use burnisher.Base.Result.{Result, ok, err, ◌>>=◌, ◌>>◌, require, raise_if, for_each, >>=-eq-ok}
use burnisher.Base.Num.{
  Num, num, le, lt, num_eq, max, min, neg, abs, ◌+◌, ◌-◌, ◌*◌, ◌/◌, lt-le, lt_trans_le, le_trans_lt,
}
use burnisher.Cells.{Coverage, Aggregate, Generation}

pub data Status : Type 0 where
  frontier_expanded moved_along_frontier expanded_off_latency no_gain unresolved : Status
  correctness_fail determinism_fail shape_overfit partial build_fail eval_error : Status

-- The text of a status, as `STATUSES` spells it.
unfoldable pub status_text : Status → String
status_text frontier_expanded = "FRONTIER_EXPANDED"
status_text moved_along_frontier = "MOVED_ALONG_FRONTIER"
status_text expanded_off_latency = "EXPANDED_OFF_LATENCY"
status_text no_gain = "NO_GAIN"
status_text unresolved = "UNRESOLVED"
status_text correctness_fail = "CORRECTNESS_FAIL"
status_text determinism_fail = "DETERMINISM_FAIL"
status_text shape_overfit = "SHAPE_OVERFIT"
status_text partial = "PARTIAL"
status_text build_fail = "BUILD_FAIL"
status_text eval_error = "EVAL_ERROR"

abbrev pub all_statuses : List Status
all_statuses =
    frontier_expanded ∷ moved_along_frontier ∷ expanded_off_latency ∷ no_gain ∷ unresolved
    ∷ correctness_fail ∷ determinism_fail ∷ shape_overfit ∷ partial ∷ build_fail ∷ eval_error ∷ []

-- `s in STATUSES`, with the status that the text names
unfoldable pub read_status : String → Option Status
unfolding status_text
read_status s = find (λ st. status_text st == s) all_statuses

-- `status in CREDITING`
unfoldable pub is_crediting : Status → Bool
is_crediting frontier_expanded = true
is_crediting _ = false

abbrev pub is_false : Option Bool → Bool
is_false (some false) = true
is_false (some true) = false
is_false none = false

-- `determinism` and `held_out` are true, false or null.
unfoldable pub decide_status :
    {R : Type 0} ⦃n : Num R⦄ → String → Option Bool → Bool → Option Bool → Bool → R → R → Status
decide_status correctness determinism complete held_out resolved gap_closed frontier_delta =
    if correctness == "BUILD_FAIL"
    then build_fail
    else if is_false determinism
    then determinism_fail
    else if not (correctness == "PASS")
    then correctness_fail
    else if is_false held_out
    then shape_overfit
    else if not complete
    then partial
    else if not resolved
    then unresolved
    else if lt (num 0) gap_closed && lt (num 0) frontier_delta
    then frontier_expanded
    else if lt (num 0) gap_closed
    then moved_along_frontier
    else if lt (num 0) frontier_delta
    then expanded_off_latency
    else no_gain

pub record Score (R : Type 0) : Type 0 where
  pub gap_closed : Option R
  pub credited_gap_closed : Option R
  pub lower : Option R
  pub upper : Option R
  pub level : Option R
  pub resolved : Option Bool
  pub basis : Option String

pub record CellScore (R : Type 0) : Type 0 where
  pub gap_closed : Option R
  pub achieved_base : Option R
  pub achieved_candidate : Option R
  pub floor_pct : Option R
  pub resolved : Option Bool
  pub ceiling_basis : Option String

pub record Device : Type 0 where
  pub uuid : Option String
  pub pci_bus_id : Option String

-- The anchor a receipt was scored against.
pub record Calibration : Type 0 where
  pub device_uuid : Option String
  pub device_name : Option String
  pub driver_version : Option String

pub record Provenance : Type 0 where
  pub candidate_commit : Option String
  pub base_commit : Option String
  pub instrument_from : Option String
  pub impl_candidate : Option String
  pub impl_base : Option String
  pub device : Option Device
  pub calibration : Option Calibration
  pub code_provenance_complete : Option Bool
  pub code_provenance_missing : List String

pub record Withheld (R : Type 0) : Type 0 where
  pub measured_gap_closed : R
  pub status : Status
  pub reason : String

-- A receipt without its digest and signature.
pub record Body (R : Type 0) : Type 0 where
  pub schema_version : Option ℕ
  pub benchmark_generation : Option String
  pub generation_digest : Option String
  pub timestamp_utc : Option String
  pub pr : Option ℕ
  pub status : Option String
  pub score : Option (Score R)
  pub frontier_delta : Option R
  pub per_cell : Option (Dict String (CellScore R))
  pub correctness : String
  pub determinism : Option Bool
  pub coverage : Coverage
  pub held_out_survived : Option Bool
  pub credit_withheld : Option (Withheld R)
  pub provenance : Option Provenance
  pub supersedes : List String
  pub supersede_reason : Option String

pub record Receipt (R : Type 0) : Type 0 where
  pub body : Body R
  pub open body use *
  pub content_digest : Option String

-- `not p.get(k)` is false exactly for a text that is there and not empty.
abbrev pub truthy : Option String → Bool
truthy none = false
truthy (some s) = not (s == "")

-- `_with_completeness`
unfoldable pub missing_code_provenance : Provenance → List String
missing_code_provenance p =
    (if truthy p.candidate_commit then [] else "candidate_commit" ∷ [])
    ++ (if truthy p.base_commit then [] else "base_commit" ∷ [])
    ++ (if truthy p.instrument_from then [] else "instrument_from" ∷ [])

unfoldable pub with_completeness : Provenance → Provenance
unfolding missing_code_provenance
with_completeness p =
    let missing = missing_code_provenance p in
    record p {
      code_provenance_complete = some (is_empty missing);
      code_provenance_missing = missing;
    }

unfoldable pub with_calibration : {R : Type 0} → Provenance → Generation R → Provenance
with_calibration p g = record p {
  calibration = some (record {
    device_uuid = g.calibration_device;
    device_name = g.calibration_device_name;
    driver_version = g.calibration_driver;
  });
}
