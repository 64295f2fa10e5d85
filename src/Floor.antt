-- ===== src/Floor.antt =====
-- eval/burnscore/floor.py: ratios of paired repeats, and a cell's noise floor as a gap closed.
use burnisher.Base.{
  ℕ, String, Bool, false, ◌&&◌, Option, none, some, List, [], ◌∷◌, ◌++◌, if◌then◌else◌, ltb, length,
  is_empty, all,
}
use burnisher.Base.Eq.{◌==◌, string_eq, nat_eq}
use burnisher.Base.Result.{Result, ok, err, ◌>>=◌, ◌>>◌, require, raise_if}
use burnisher.Base.Num.{Num, num, le, lt, num_eq, max, min, abs, ◌-◌, ◌*◌, ◌/◌}
use burnisher.Base.Int.{ℤ, sub_ℕ}

pub data FloorError : Type 0 where
  unpaired no_repeats not_a_duration no_instrument_term one_pair : FloorError
  bad_achieved whole_measurement : FloorError

-- `spread_pct` and `floor_pct` are infinite, here `none`, where the median ratio is zero.
pub record Floor (R : Type 0) : Type 0 where
  pub cell : String
  pub repeats : ℕ
  pub median_ratio : R
  pub spread_pct : Option R
  pub stdev_pct : R
  pub resolution_pct : R
  pub floor_pct : Option R
  pub decided_by : String
  pub ratios : List R

-- Python's `statistics` on floats, and the powers of ten.
pub record Statistics (R : Type 0) : Type 0 where
  pub median : List R → R
  pub stdev : List R → R
  pub ten_to : ℤ → R

-- What fixes the instrument term: the resolution of the timer, or the digits that are printed.
pub data Instrument (R : Type 0) : Type 0 where
  nothing_given : Instrument R
  timer_resolution : R → Instrument R
  reported_digits : ℕ → Instrument R

pub record Gate (R : Type 0) : Type 0 where
  pub achieved : R
  pub room_fraction : R
  pub floor_pct : R
  pub floor_as_gap_closed : R
  pub floors_of_room : Option R
  pub resolvable : Bool

module _ {R : Type 0} ⦃n : Num R⦄ where
  -- `Floor.clears`
  unfoldable pub clears : Floor R → R → Bool
  clears f effect_pct = elim f.floor_pct [ none ↦ false | some p ↦ lt p (abs effect_pct) ]

  -- `[x / y for x, y in zip(a, b)]`
  unfoldable pub zip_ratios : List R → List R → List R
  zip_ratios [] ys = []
  zip_ratios (x ∷ xs) [] = []
  zip_ratios (x ∷ xs) (y ∷ ys) = (x / y) ∷ zip_ratios xs ys

  abbrev pub is_duration : R → Bool
  is_duration x = lt (num 0) x

  unfoldable pub paired_ratios : List R → List R → Result FloorError (List R)
  unfolding zip_ratios
  paired_ratios a b = do
    require (length a == length b) unpaired
    raise_if (is_empty a) no_repeats
    require (all is_duration (a ++ b)) not_a_duration
    ok (zip_ratios a b)

  unfoldable pub floor_as_gap_closed : R → R → Result FloorError R
  floor_as_gap_closed floor_pct achieved_base =
      let f = floor_pct / num 100 in
      do
        require (lt (num 0) achieved_base && lt achieved_base (num 1)) bad_achieved
        raise_if (le (num 1) f) whole_measurement
        ok ((min (achieved_base / (num 1 - f)) (num 1) - achieved_base) / (num 1 - achieved_base))

  -- `floors_of_room` is infinite, here `none`, where the floor is not above zero. `ratio` is 20.0 by
  -- default.
  unfoldable pub resolution_gate : R → R → R → Result FloorError (Gate R)
  unfolding floor_as_gap_closed
  resolution_gate floor_pct achieved_base ratio = do
    floor_gap ← floor_as_gap_closed floor_pct achieved_base
    ok (record {
      achieved = achieved_base;
      room_fraction = num 1 - achieved_base;
      floor_pct = floor_pct;
      floor_as_gap_closed = floor_gap;
      floors_of_room = if lt (num 0) floor_gap then some (num 1 / floor_gap) else none;
      resolvable = lt (num 0) floor_gap && le ratio (num 1 / floor_gap);
    })

  -- `max(xs)` and `min(xs)`, of `m` and the others
  abbrev pub largest : R → List R → R
  largest m [] = m
  largest m (x ∷ xs) = largest (max m x) xs

  abbrev pub smallest : R → List R → R
  smallest m [] = m
  smallest m (x ∷ xs) = smallest (min m x) xs

  -- `spread`
  abbrev pub spread_of : R → List R → Option R
  spread_of med [] = none
  spread_of med (x ∷ xs) =
      if num_eq med (num 0) then none else some ((largest x xs - smallest x xs) / med * num 100)

  -- the instrument term of an arm, in percent
  unfoldable pub resolution_of : Statistics R → List R → Instrument R → Result FloorError R
  resolution_of stats control nothing_given = err no_instrument_term
  resolution_of stats control (timer_resolution s) = ok (s / stats.median control * num 100)
  resolution_of stats control (reported_digits digits) =
      ok (num 1 / num 2 * stats.ten_to (sub_ℕ 1 digits) * num 100)

  -- the spread of two arms of the same base against what the instrument resolves
  unfoldable pub measure_floor :
      Statistics R → String → List R → List R → Instrument R → Result FloorError (Floor R)
  unfolding paired_ratios resolution_of
  measure_floor stats cell a b instrument = do
    ratios ← paired_ratios a b
    let med = stats.median ratios
    resolution ← resolution_of stats a instrument
    raise_if (ltb (length ratios) 2) one_pair
    let spread = spread_of med ratios
    ok (record {
      cell = cell;
      repeats = length ratios;
      median_ratio = med;
      spread_pct = spread;
      stdev_pct = if num_eq med (num 0) then num 0 else stats.stdev ratios / med * num 100;
      resolution_pct = resolution;
      floor_pct = elim spread [ none ↦ none | some x ↦ some (max x resolution) ];
      decided_by = elim spread [
        | none ↦ "spread"
        | some x ↦ if le resolution x then "spread" else "instrument_resolution"
      ];
      ratios = ratios;
    })
