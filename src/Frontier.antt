-- ===== src/Frontier.antt =====
-- eval/burnscore/frontier.py: the objectives, the points they normalize to, dominance and the
-- Pareto frontier. A float is a value of `R`; every value of `R` is finite, so the tests for
-- infinities and NaN have no counterpart.
pub mod Order
pub mod Maximal
pub mod Volume
pub mod Moved
use burnisher.Base.{
  String, Bool, true, false, not, ◌&&◌, ◌||◌, Option, none, some, List, [], ◌∷◌, if◌then◌else◌,
  length, nat_eq,
}
use burnisher.Base.Num.{Num, num, le, lt, num_eq, ◌-◌, ◌/◌}
use burnisher.Base.Eq.{◌==◌, string_eq}
use burnisher.Base.Dict.{Dict, lookup, elem}
use burnisher.Base.Result.{Result, ok, err, ◌>>=◌, ◌>>◌, raise_if}

pub data FrontierError : Type 0 where
  bad_direction no_information wrong_end not_a_measurement different_dimension : FrontierError

pub record Objective (R : Type 0) : Type 0 where
  pub key : String
  pub direction : String
  pub lo : R
  pub hi : R
  pub unit : String

-- A JSON value where a number is expected: `other` is a text, a list or a Boolean.
pub data Raw (R : Type 0) : Type 0 where
  null other : Raw R
  number : R → Raw R

abbrev pub failure_statuses : List String
failure_statuses =
    "OOM" ∷ "TIMEOUT" ∷ "CRASH" ∷ "NOT_RUN" ∷ "EVAL_ERROR" ∷ "CORRECTNESS_FAIL" ∷ "TOLERANCE_FAIL"
    ∷ "NONDETERMINISTIC" ∷ "DEGENERATE_OUTPUT" ∷ "SHAPE_OVERFIT" ∷ []

module _ {R : Type 0} ⦃n : Num R⦄ where
  -- `Objective.__post_init__`
  unfoldable pub check_objective : Objective R → Result FrontierError (Objective R)
  check_objective o = do
    raise_if (not (elem o.direction ("max" ∷ "min" ∷ []))) bad_direction
    raise_if (num_eq o.lo o.hi) no_information
    raise_if (o.direction == "max" && le o.hi o.lo) wrong_end
    raise_if (o.direction == "min" && le o.lo o.hi) wrong_end
    ok o

  -- the value between 0.0 and 1.0
  unfoldable pub clamp_unit : R → R
  clamp_unit s = if lt s (num 0) then num 0 else if lt (num 1) s then num 1 else s

  unfoldable pub normalize : Objective R → Raw R → Result FrontierError R
  normalize o null = err not_a_measurement
  normalize o other = err not_a_measurement
  normalize o (number v) = ok (clamp_unit ((v - o.lo) / (o.hi - o.lo)))

  -- the loop of `normalize_point`
  unfoldable pub normalize_all :
      Dict String (Raw R) → List (Objective R) → Result FrontierError (Option (List R))
  normalize_all metrics [] = ok (some [])
  normalize_all metrics (o ∷ os) = elim (lookup o.key metrics) [
    | none ↦ ok none
    | some null ↦ ok none
    | some other ↦ err not_a_measurement
    | some (number v) ↦ normalize o (number v) >>= λ x. normalize_all metrics os >>= λ rest.
        elim rest [ none ↦ ok none | some xs ↦ ok (some (x ∷ xs)) ]
  ]

  unfoldable pub normalize_point :
      Dict String (Raw R) → List (Objective R) → String → Result FrontierError (Option (List R))
  normalize_point metrics objectives status =
      if elem status failure_statuses then ok none else normalize_all metrics objectives

  -- `all(x >= y for x, y in zip(a, b))` and `any(x > y for x, y in zip(a, b))`
  unfoldable pub all_ge : List R → List R → Bool
  all_ge [] b = true
  all_ge (x ∷ a) [] = true
  all_ge (x ∷ a) (y ∷ b) = le y x && all_ge a b

  unfoldable pub any_gt : List R → List R → Bool
  any_gt [] b = false
  any_gt (x ∷ a) [] = false
  any_gt (x ∷ a) (y ∷ b) = lt y x || any_gt a b

  unfoldable pub dominates : List R → List R → Result FrontierError Bool
  dominates a b =
      if nat_eq (length a) (length b)
      then ok (all_ge a b && any_gt a b)
      else err different_dimension

  -- `a == b` and `a < b` on tuples
  unfoldable pub same_point : List R → List R → Bool
  same_point [] [] = true
  same_point [] (y ∷ b) = false
  same_point (x ∷ a) [] = false
  same_point (x ∷ a) (y ∷ b) = num_eq x y && same_point a b

  unfoldable pub before : List R → List R → Bool
  before a [] = false
  before [] (y ∷ b) = true
  before (x ∷ a) (y ∷ b) = lt x y || (num_eq x y && before a b)

  -- one value into a sorted list without repetition
  unfoldable pub insert_sorted : List R → List (List R) → List (List R)
  insert_sorted p [] = p ∷ []
  insert_sorted p (q ∷ qs) =
      let rest = insert_sorted p qs in
      if same_point p q then q ∷ qs else if before p q then p ∷ q ∷ qs else q ∷ rest

  -- `sorted({tuple(p) for p in points})`
  unfoldable pub sorted_set : List (List R) → List (List R)
  sorted_set [] = []
  sorted_set (p ∷ ps) = insert_sorted p (sorted_set ps)

  -- `any(dominates(o, c) for o in uniq if o != c)`
  unfoldable pub any_dominates : List R → List (List R) → Result FrontierError Bool
  any_dominates c [] = ok false
  any_dominates c (o ∷ os) =
      let rest = any_dominates c os in
      if same_point o c then rest else (dominates o c >>= λ d. if d then ok true else rest)

  -- `[c for c in cs if not any_dominates(c, uniq)]`
  unfoldable pub undominated : List (List R) → List (List R) → Result FrontierError (List (List R))
  undominated uniq [] = ok []
  undominated uniq (c ∷ cs) = any_dominates c uniq >>= λ d.
      undominated uniq cs >>= λ rest. ok (if d then rest else c ∷ rest)

  unfoldable pub pareto_frontier : List (List R) → Result FrontierError (List (List R))
  pareto_frontier points = let uniq = sorted_set points in undominated uniq uniq

-- `verdict`, with the names of the statuses
unfoldable pub frontier_verdict : {R : Type 0} ⦃n : Num R⦄ → R → R → Bool → String
frontier_verdict gap_closed dhv resolved =
    if not resolved
    then "UNRESOLVED"
    else if lt (num 0) gap_closed && lt (num 0) dhv
    then "FRONTIER_EXPANDED"
    else if lt (num 0) gap_closed && le dhv (num 0)
    then "MOVED_ALONG_FRONTIER"
    else if le gap_closed (num 0) && lt (num 0) dhv
    then "EXPANDED_OFF_LATENCY"
    else "NO_GAIN"
