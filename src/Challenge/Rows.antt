-- ===== src/Challenge/Rows.antt =====
-- The rows of a comparison in eval/burnscore/challenge.py, cell by cell.
use burnisher.Base.{
  String, ◌≡◌, refl, sym, ap, subst, ◌∙◌, ◌⊎◌, inl, inr, Bool, true, false, Option, none, some,
  List, [], ◌∷◌, map, arith, if◌then◌else◌, All,
}
use burnisher.Base.Eq.{string_eq, nat_eq}
use burnisher.Base.Dict.{Dict, lookup}
use burnisher.Base.Result.{Result, ok, ◌>>=◌, >>=-eq-ok}
use burnisher.Base.Num.{Num, le, abs, ◌-◌}
use burnisher.Receipt.{CellScore}
use burnisher.Cells.{Generation, Cell, calibrated}
use burnisher.Floor.{FloorError, floor_as_gap_closed}
use burnisher.Challenge.{
  CellRow, cell_row, measured, measured_row, unmeasured_row, rows_for, gap_at,
}

module _ {R : Type 0} ⦃n : Num R⦄ where
  -- A row that compares two measured gaps: by how much they differ, either way, and whether that is
  -- within the floor of the cell as the generation has it.
  pub record Judged (g : Generation R) (cid : String) (x y : R) (row : CellRow R) : Type 0 where
    pub cell : Cell R
    pub floor_pct : R
    pub achieved : R
    pub floor : R
    pub cell_lem : lookup cid g.cells ≡ some cell
    pub floor_pct_lem : cell.floor_pct ≡ some floor_pct
    pub achieved_lem : cell.achieved ≡ some achieved
    pub floor_lem : floor_as_gap_closed floor_pct achieved ≡ ok floor
    pub delta_lem : row.delta ≡ some (abs (x - y))
    pub row_floor_lem : row.floor_as_gap_closed ≡ some floor
    pub within_lem : row.within_floor ≡ some (le (abs (x - y)) floor)

  -- why a cell is not judged: a side has no gap, or the generation no floor for it
  abbrev pub NotCompared : Generation R → String → Option R → Option R → Type 0
  NotCompared g cid a b =
      (a ≡ none)
      ⊎ ((b ≡ none)
          ⊎ ((lookup cid g.cells ≡ none)
              ⊎ ((c : Cell R) × ((lookup cid g.cells ≡ some c) × (calibrated c ≡ false)))))

  -- the row of a cell, from the gaps that the two receipts have for it
  pub record Fair (g : Generation R) (a b : Dict String (CellScore R)) (cid : String)
      (row : CellRow R) : Type 0 where
    pub named : row.cell ≡ cid
    pub canonical_lem : row.canonical ≡ gap_at cid a
    pub counter_lem : row.counter ≡ gap_at cid b
    pub judged :
        ((x : R) × ((y : R) × ((gap_at cid a ≡ some x)
              × ((gap_at cid b ≡ some y) × Judged g cid x y row))))
        ⊎ ((row.delta ≡ none)
            × ((row.within_floor ≡ none) × NotCompared g cid (gap_at cid a) (gap_at cid b)))

  module _ (g : Generation R) (a b : Dict String (CellScore R)) (cid : String) where
    unmeasured_row-Fair :
        NotCompared g cid (gap_at cid a) (gap_at cid b)
        → Fair g a b cid (unmeasured_row cid (gap_at cid a) (gap_at cid b))
    unmeasured_row-Fair why = record {
      named = refl;
      canonical_lem = refl;
      counter_lem = refl;
      judged = inr (refl, (refl, why));
    }

    row-is :
        (x y : CellRow R)
        → Fair g a b cid x
        → ◌≡◌ {A = Result FloorError (CellRow R)} (ok x) (ok y)
        → Fair g a b cid y
    row-is x y h e = let same : x ≡ y = cc in subst (Fair g a b cid) same h

    measured_row-Fair :
        (x y f ach : R) (c : Cell R) (row : CellRow R)
        → gap_at cid a ≡ some x
        → gap_at cid b ≡ some y
        → lookup cid g.cells ≡ some c
        → c.floor_pct ≡ some f
        → c.achieved ≡ some ach
        → measured_row cid x y f ach ≡ ok row
        → Fair g a b cid row
    unfolding measured_row
    measured_row-Fair x y f ach c row ha hb hc hf hach h =
        let (floor, hfl, e) =
          >>=-eq-ok (floor_as_gap_closed f ach) (λ floor. ok (measured cid x y floor)) h in
        row-is (measured cid x y floor) row
          (record {
            named = refl;
            canonical_lem = sym ha;
            counter_lem = sym hb;
            judged = inl (
              x,
              (
                y,
                (
                  ha,
                  (
                    hb,
                    record {
                      cell = c;
                      floor_pct = f;
                      achieved = ach;
                      floor = floor;
                      cell_lem = hc;
                      floor_pct_lem = hf;
                      achieved_lem = hach;
                      floor_lem = hfl;
                      delta_lem = refl;
                      row_floor_lem = refl;
                      within_lem = refl;
                    },
                  ),
                ),
              ),
            );
          })
          e

    cell_row-Fair :
        (x y : Option R) (c : Option (Cell R)) (row : CellRow R)
        → gap_at cid a ≡ x
        → gap_at cid b ≡ y
        → lookup cid g.cells ≡ c
        → cell_row cid x y c ≡ ok row
        → Fair g a b cid row
    unfolding cell_row calibrated
    cell_row-Fair none y c row ha hb hc h =
        row-is _ row (unmeasured_row-Fair (inl ha)) (rw (ha, hb) h)
    cell_row-Fair (some x) none c row ha hb hc h =
        row-is _ row (unmeasured_row-Fair (inr (inl hb))) (rw (ha, hb) h)
    cell_row-Fair (some x) (some y) none row ha hb hc h =
        row-is _ row (unmeasured_row-Fair (inr (inr (inl hc)))) (rw (ha, hb) h)
    cell_row-Fair (some x) (some y) (some c) row ha hb hc h =
        go (calibrated c) refl c.floor_pct refl c.achieved refl h
      where
        plain : Result FloorError (CellRow R)
        plain = ok (unmeasured_row cid (some x) (some y))

        skipped : calibrated c ≡ false → plain ≡ ok row → Fair g a b cid row
        skipped q h =
            row-is _ row (unmeasured_row-Fair (inr (inr (inr (c, (hc, q)))))) (rw (ha, hb) h)

        go :
            (q : Bool)
            → calibrated c ≡ q
            → (f : Option R) → c.floor_pct ≡ f
            → (ach : Option R) → c.achieved ≡ ach
            → (if q
                then elim f [
                  | none ↦ plain
                  | some f ↦ elim ach [ none ↦ plain | some ach ↦ measured_row cid x y f ach ]
                ]
                else plain)
              ≡ ok row
            → Fair g a b cid row
        go false q f hf ach hach h = skipped q h
        go true q none hf ach hach h = skipped (ground (arith, hf)) h
        go true q (some f) hf none hach h = skipped (ground (arith, hach)) h
        go true q (some f) hf (some ach) hach h =
            measured_row-Fair x y f ach c row ha hb hc hf hach h

  -- each cell has its row
  abbrev pub AllFair :
      Generation R
      → Dict String (CellScore R)
      → Dict String (CellScore R)
      → List String
      → List (CellRow R)
      → Type 0
  AllFair g a b cids rows = (map (λ r. r.cell) rows ≡ cids) × All (λ r. Fair g a b r.cell r) rows

  pub rows_for-Fair :
      (g : Generation R) (a b : Dict String (CellScore R)) (cids : List String)
      (rows : List (CellRow R))
      → rows_for g a b cids ≡ ok rows
      → AllFair g a b cids rows
  unfolding rows_for
  rows_for-Fair g a b [] rows h =
      let same : [] ≡ rows = cc in subst (AllFair g a b []) same (refl, tt)
  rows_for-Fair g a b (cid ∷ cids) rows h =
      let (row, e, h1) =
        >>=-eq-ok (cell_row cid (gap_at cid a) (gap_at cid b) (lookup cid g.cells))
          (λ row. rows_for g a b cids >>= λ rows. ok (row ∷ rows)) h in
      let (later, e', h2) = >>=-eq-ok (rows_for g a b cids) (λ rows. ok (row ∷ rows)) h1 in
      let same : row ∷ later ≡ rows = cc in
      let rest = rows_for-Fair g a b cids later e' in
      let fair =
        cell_row-Fair g a b cid (gap_at cid a) (gap_at cid b) (lookup cid g.cells) row refl refl
          refl e in
      subst (AllFair g a b (cid ∷ cids)) same (
        ap (λ c. c ∷ map (λ r. r.cell) later) fair.named ∙ ap (λ cs. cid ∷ cs) rest.0,
        (subst (λ c. Fair g a b c row) (sym fair.named) fair, rest.1),
      )
