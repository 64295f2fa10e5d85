-- ===== src/Frontier/Volume.antt =====
-- `hypervolume` and `frontier_delta` of eval/burnscore/frontier.py.
use Prim.Native.Nat.{◌-◌ as monus}
use burnisher.Base.{
  ℕ, zero, suc, String, Bool, true, false, not, ◌&&◌, ◌||◌, Option, none, some, List, [], ◌∷◌, ◌++◌,
  map, if◌then◌else◌, length, is_empty, get_elem?, all, keep, or_else,
}
use burnisher.Base.Eq.{◌==◌, string_eq, nat_eq}
use burnisher.Base.Dict.{Dict}
use burnisher.Base.Result.{Result, ok, ◌>>=◌, ◌>>◌, require}
use burnisher.Base.Num.{Num, num, le, lt, num_eq, max, min, neg, ◌+◌, ◌-◌, ◌*◌, ◌/◌}
use burnisher.Base.Sort.{sort_by}
use burnisher.Frontier.{
  FrontierError, different_dimension, Objective, Raw, normalize_point, pareto_frontier, dominates,
  same_point,
}

module _ {A : Type 0} where
  -- `combinations(xs, size)`
  unfoldable pub combinations : ℕ → List A → List (List A)
  combinations zero xs = [] ∷ []
  combinations (suc k) [] = []
  combinations (suc k) (x ∷ xs) = map (λ c. x ∷ c) (combinations k xs) ++ combinations (suc k) xs

-- What a run reports for the frontier: the metrics of one configuration, and its status.
pub record Operating (R : Type 0) : Type 0 where
  pub metrics : Dict String (Raw R)
  pub status : String

pub record FrontierDelta (R : Type 0) : Type 0 where
  pub hypervolume_base : R
  pub hypervolume_candidate : R
  pub delta : R
  pub relative_delta : Option R
  pub points_base : ℕ
  pub points_candidate : ℕ
  pub dropped_base_points : ℕ
  pub dropped_candidate_points : ℕ
  pub frontier_points_lost : List (List R)
  pub frontier_points_gained : List (List R)
  pub expanded : Bool

module _ {R : Type 0} ⦃n : Num R⦄ where
  -- `tuple(max(v, r) for v, r in zip(p, reference))`
  abbrev pub clamp_point : List R → List R → List R
  clamp_point [] rs = []
  clamp_point (v ∷ p) [] = []
  clamp_point (v ∷ p) (r ∷ rs) = max v r ∷ clamp_point p rs

  -- `all(v > r for v, r in zip(p, reference))`
  abbrev pub beyond : List R → List R → Bool
  beyond [] rs = true
  beyond (v ∷ p) [] = true
  beyond (v ∷ p) (r ∷ rs) = lt r v && beyond p rs

  -- `p[i]` of a point of that dimension
  abbrev pub coordinate : ℕ → List R → R
  coordinate i p = or_else (get_elem? p i) (num 0)

  -- by `(-p[0], -p[1])`
  abbrev pub descending : List R → List R → Bool
  descending p q =
      lt (coordinate 0 q) (coordinate 0 p)
      || (num_eq (coordinate 0 p) (coordinate 0 q) && lt (coordinate 1 q) (coordinate 1 p))

  -- the loop of `_hv2`: the height reached and the area so far
  unfoldable pub staircase : R → R → R → List (List R) → R
  staircase rx prev_y total [] = total
  staircase rx prev_y total (p ∷ ps) =
      let x = coordinate 0 p in
      let y = coordinate 1 p in
      let skipped = le y prev_y in
      staircase rx (if skipped then prev_y else y)
        (if skipped then total else total + (x - rx) * (y - prev_y)) ps

  unfoldable pub hv2 : List (List R) → List R → R
  unfolding staircase
  hv2 front reference =
      staircase (coordinate 0 reference) (coordinate 1 reference) (num 0) (sort_by descending front)

  abbrev pub smallest : R → List R → R
  smallest m [] = m
  smallest m (x ∷ xs) = smallest (min m x) xs

  -- the smallest coordinate of a subset on one axis
  abbrev pub lowest : ℕ → List (List R) → R
  lowest axis [] = num 0
  lowest axis (p ∷ ps) = smallest (coordinate axis p) (map (coordinate axis) ps)

  -- the volume that all points of a subset dominate; an axis without an edge ends the loop
  unfoldable pub shared_volume : List (List R) → ℕ → List R → R → R
  shared_volume subset axis [] vol = vol
  shared_volume subset axis (r ∷ rs) vol =
      let edge = lowest axis subset - r in
      let rest = shared_volume subset (suc axis) rs (vol * edge) in
      if le edge (num 0) then num 0 else rest

  abbrev pub add_volumes : Bool → List R → List (List (List R)) → R → R
  add_volumes positive ref [] total = total
  add_volumes positive ref (subset ∷ subsets) total =
      let vol = shared_volume subset 0 ref (num 1) in
      add_volumes positive ref subsets (total + (if positive then num 1 else neg (num 1)) * vol)

  -- the sizes from `size` on, for as many as there are left; odd sizes are added
  unfoldable pub all_sizes : ℕ → ℕ → Bool → List (List R) → List R → R → R
  unfolding combinations shared_volume
  all_sizes zero size positive front ref total = total
  all_sizes (suc left) size positive front ref total =
      all_sizes left (suc size) (not positive) front ref
        (add_volumes positive ref (combinations size front) total)

  unfoldable pub hv_incl_excl : List (List R) → List R → R
  unfolding all_sizes
  hv_incl_excl front reference =
      let total = all_sizes (length front) 1 true front reference (num 0) in
      if lt (num 0) total then total else num 0

  abbrev pub largest_first : R → List (List R) → R
  largest_first m [] = m
  largest_first m (p ∷ ps) = largest_first (max m (coordinate 0 p)) ps

  abbrev pub volume_of : List R → List (List R) → R
  volume_of reference [] = num 0
  volume_of reference (p ∷ front) =
      if length reference == 1
      then largest_first (coordinate 0 p) front - coordinate 0 reference
      else if length reference == 2
      then hv2 (p ∷ front) reference
      else hv_incl_excl (p ∷ front) reference

  unfoldable pub hypervolume : List (List R) → List R → Result FrontierError R
  unfolding hv2 hv_incl_excl
  hypervolume [] reference = ok (num 0)
  hypervolume (p ∷ ps) reference = do
    require (all (λ q. length q == length reference) (p ∷ ps)) different_dimension
    front ← pareto_frontier (map (λ q. clamp_point q reference) (p ∷ ps))
    ok (volume_of reference (keep (λ q. beyond q reference) front))

  -- The points of the configurations that have one. A point of no objective is no point.
  unfoldable pub points_of :
      List (Operating R) → List (Objective R) → Result FrontierError (List (List R))
  points_of [] objectives = ok []
  points_of (r ∷ records) objectives = normalize_point r.metrics objectives r.status >>= λ p.
      points_of records objectives >>= λ rest.
      ok (elim p [ none ↦ rest | some xs ↦ if is_empty xs then rest else xs ∷ rest ])

  -- `any(dominates(q, p) or q == p for q in points)`
  unfoldable pub is_covered : List R → List (List R) → Result FrontierError Bool
  is_covered p [] = ok false
  is_covered p (q ∷ qs) =
      let rest = is_covered p qs in
      dominates q p >>= λ d. if d || same_point q p then ok true else rest

  unfoldable pub uncovered : List (List R) → List (List R) → Result FrontierError (List (List R))
  unfolding is_covered
  uncovered [] points = ok []
  uncovered (p ∷ ps) points = is_covered p points >>= λ covered.
      uncovered ps points >>= λ rest. ok (if covered then rest else p ∷ rest)

  unfoldable pub frontier_delta :
      List (Operating R)
      → List (Operating R)
      → List (Objective R)
      → List R
      → Result FrontierError (FrontierDelta R)
  unfolding points_of hypervolume uncovered
  frontier_delta base cand objectives reference = do
    b ← points_of base objectives
    c ← points_of cand objectives
    hv_b ← hypervolume b reference
    hv_c ← hypervolume c reference
    front_b ← pareto_frontier b
    lost ← uncovered front_b c
    front_c ← pareto_frontier c
    gained ← uncovered front_c b
    ok (record {
      hypervolume_base = hv_b;
      hypervolume_candidate = hv_c;
      delta = hv_c - hv_b;
      relative_delta = if lt (num 0) hv_b then some ((hv_c - hv_b) / hv_b) else none;
      points_base = length b;
      points_candidate = length c;
      dropped_base_points = monus (length base) (length b);
      dropped_candidate_points = monus (length cand) (length c);
      frontier_points_lost = lost;
      frontier_points_gained = gained;
      expanded = lt (num 0) (hv_c - hv_b);
    })
