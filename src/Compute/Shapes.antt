-- ===== src/Compute/Shapes.antt =====
-- What the result of a held-out shape is, and for which cells it is judged.
use burnisher.Base.{
  String, ◌≡◌, refl, subst, Bool, true, false, not, ◌&&◌, ◌||◌, some, List, [], ◌∷◌, ◌++◌, arith,
  if◌then◌else◌, is_empty, all, In, here, there, All,
}
use burnisher.Base.Eq.{◌==◌, string_eq, nat_eq}
use burnisher.Base.Dict.{Dict, lookup, eq_of_test}
use burnisher.Base.Result.{ok, ◌>>=◌, >>=-eq-ok}
use burnisher.Base.Num.{Num, num, lt, ◌/◌}
use burnisher.Bootstrap.{Library, geomean}
use burnisher.Compute.{bad_held_out, Grouped, arm_of}
use burnisher.Compute.Score.{CellResult, shared_repeats}
use burnisher.Compute.Sound.{raise_if-ok, ok-injective}
use burnisher.Compute.Held.{ShapeResult, gaining, latencies, need, shape_result, shape_results}

module _ {R : Type 0} ⦃n : Num R⦄ where
  -- A cell whose gain resolved, with its noise floor.
  abbrev pub IsGain : Dict String (CellResult R) → String → R → Type 0
  IsGain per_cell cell_id floor =
      (v : CellResult R) × (In (cell_id, v) per_cell
        × ((v.resolved ≡ true) × ((lt (num 0) v.gap_closed ≡ true) × (v.floor_pct ≡ floor))))

  pub gaining-IsGain :
      (cell_id : String) (per_cell : Dict String (CellResult R)) {floor : R}
      → lookup cell_id (gaining per_cell) ≡ some floor
      → IsGain per_cell cell_id floor
  unfolding gaining
  gaining-IsGain cell_id [] h = cc
  gaining-IsGain cell_id ((k, v) ∷ per_cell) {floor} h =
      go (v.resolved && lt (num 0) v.gap_closed) refl h (gaining-IsGain cell_id per_cell)
    where
      later : IsGain per_cell cell_id floor → IsGain ((k, v) ∷ per_cell) cell_id floor
      later (w, (i, r)) = (w, (there i, r))

      first :
          (v.resolved && lt (num 0) v.gap_closed) ≡ true
          → (t : Bool) → (k == cell_id) ≡ t
          → (if t then some v.floor_pct else lookup cell_id (gaining per_cell)) ≡ some floor
          → (lookup cell_id (gaining per_cell) ≡ some floor → IsGain per_cell cell_id floor)
          → IsGain ((k, v) ∷ per_cell) cell_id floor
      first g true e h rec =
          let same : k ≡ cell_id = eq_of_test k cell_id e in
          let is : v.floor_pct ≡ floor = cc in
          (
            v,
            (
              subst (λ z. In (z, v) ((k, v) ∷ per_cell)) same here,
              (ground (arith, g), (ground (arith, g), is)),
            ),
          )
      first g false e h rec = later (rec h)

      go :
          (t : Bool)
          → (v.resolved && lt (num 0) v.gap_closed) ≡ t
          → lookup cell_id (if t then (k, v.floor_pct) ∷ gaining per_cell else gaining per_cell)
            ≡ some floor
          → (lookup cell_id (gaining per_cell) ≡ some floor → IsGain per_cell cell_id floor)
          → IsGain ((k, v) ∷ per_cell) cell_id floor
      go true g h rec = first g (k == cell_id) refl h rec
      go false g h rec = later (rec h)

  -- The result at a shape is the ratio of the mean times of the repeats of both arms, one repeat at
  -- least, and it is judged against the floor of the cell's gain, or not judged.
  pub record SoundShape (lib : Library R) (grouped : Grouped R) (gains : Dict String R)
      (cell_id : String) (r : ShapeResult R) : Type 0 where
    pub base_times : List R
    pub candidate_times : List R
    pub base_lem :
        latencies
          (arm_of cell_id "base" grouped)
          (shared_repeats (arm_of cell_id "base" grouped) (arm_of cell_id "candidate" grouped))
        ≡ ok base_times
    pub candidate_lem :
        latencies
          (arm_of cell_id "candidate" grouped)
          (shared_repeats (arm_of cell_id "base" grouped) (arm_of cell_id "candidate" grouped))
        ≡ ok candidate_times
    pub speedup_lem : r.speedup ≡ geomean lib base_times / geomean lib candidate_times
    pub required_lem : r.required_speedup ≡ need (lookup cell_id gains)

  module _ (lib : Library R) (grouped : Grouped R) (gains : Dict String R) where
    shape_result-SoundShape :
        (cell_id : String) {r : ShapeResult R}
        → shape_result lib
            (arm_of cell_id "base" grouped)
            (arm_of cell_id "candidate" grouped)
            (lookup cell_id gains)
          ≡ ok r
        → SoundShape lib grouped gains cell_id r
    unfolding shape_result
    shape_result-SoundShape cell_id h =
        let base = arm_of cell_id "base" grouped in
        let cand = arm_of cell_id "candidate" grouped in
        let (bt, hb, h1) = >>=-eq-ok (latencies base (shared_repeats base cand)) _ h in
        let (ct, hc, h2) = >>=-eq-ok (latencies cand (shared_repeats base cand)) _ h1 in
        let (fine, h3) =
          raise_if-ok
            (is_empty (shared_repeats base cand) || not (all (λ x. lt (num 0) x) (bt ++ ct)))
            bad_held_out h2 in
        subst (SoundShape lib grouped gains cell_id) (ok-injective h3) (record {
          base_times = bt;
          candidate_times = ct;
          base_lem = hb;
          candidate_lem = hc;
          speedup_lem = refl;
          required_lem = refl;
        })

    abbrev pub Shapes : Dict String (ShapeResult R) → Type 0
    Shapes rs = All (λ (e : String × ShapeResult R). SoundShape lib grouped gains e.0 e.1) rs

    pub shape_results-Shapes :
        (cells : List String) {rs : Dict String (ShapeResult R)}
        → shape_results lib grouped gains cells ≡ ok rs
        → Shapes rs
    unfolding shape_results
    shape_results-Shapes [] h = subst Shapes (ok-injective h) tt
    shape_results-Shapes (cell_id ∷ cells) {rs} h =
        go
          (is_empty (arm_of cell_id "base" grouped)
            || is_empty (arm_of cell_id "candidate" grouped))
          h (λ (rs : Dict String (ShapeResult R)) e. shape_results-Shapes cells e)
      where
        go :
            (t : Bool)
            → (if t
                then shape_results lib grouped gains cells
                else shape_result lib
                    (arm_of cell_id "base" grouped)
                    (arm_of cell_id "candidate" grouped)
                    (lookup cell_id gains)
                  >>= λ r. shape_results lib grouped gains cells >>= λ rs. ok ((cell_id, r) ∷ rs))
              ≡ ok rs
            → ((ss : Dict String (ShapeResult R))
                → shape_results lib grouped gains cells ≡ ok ss
                → Shapes ss)
            → Shapes rs
        go true h rec = rec _ h
        go false h rec =
            let (r, hr, h1) =
              >>=-eq-ok
                (shape_result lib (arm_of cell_id "base" grouped)
                  (arm_of cell_id "candidate" grouped) (lookup cell_id gains))
                _ h in
            let (rest, hs, h2) = >>=-eq-ok (shape_results lib grouped gains cells) _ h1 in
            subst Shapes (ok-injective h2) (shape_result-SoundShape cell_id hr, rec rest hs)
