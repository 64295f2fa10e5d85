-- ===== src/Challenge/Worst.antt =====
-- The comparison of two receipts cell by cell in eval/burnscore/challenge.py.
use burnisher.Base.{
  String, ◌≡◌, refl, subst, inl, inr, Bool, true, Option, none, some, List, [], ◌∷◌, map, arith,
  if◌then◌else◌, all, In, here, there, All, all-In,
}
use burnisher.Base.Eq.{string_eq, nat_eq}
use burnisher.Base.Dict.{Dict}
use burnisher.Base.Result.{ok, >>=-eq-ok}
use burnisher.Base.Num.{Num, num, le, lt, abs, ◌-◌}
use burnisher.Receipt.{Receipt, CellScore}
use burnisher.Cells.{Generation}
use burnisher.Challenge.{
  CellRow, Disagreement, box_id, row_agrees, rows_for, worst, cells_of, compared_cells,
  disagreement,
}
use burnisher.Challenge.Rows.{Fair, rows_for-Fair}

module _ {R : Type 0} ⦃n : Num R⦄ where
  abbrev Below : R → CellRow R → Type 0
  Below w row = (d : R) → row.delta ≡ some d → le d w ≡ true

  larger :
      (w d : R) → (le w (if lt w d then d else w) ≡ true) × (le d (if lt w d then d else w) ≡ true)
  larger w d = ground (arith, n.le_total d w, n.le_refl w, n.le_refl d)

  -- the loop after a row with this difference
  abbrev next : R → Option String → CellRow R → List (CellRow R) → Option R → R × Option String
  next w cid row rows o = elim o [
    | none ↦ worst w cid rows
    | some d ↦ worst (if lt w d then d else w) (if lt w d then some row.cell else cid) rows
  ]

  worst-grows :
      (w : R) (cid : Option String) (rows : List (CellRow R)) → le w (worst w cid rows).0 ≡ true
  unfolding worst
  worst-grows w cid [] = n.le_refl w
  worst-grows w cid (row ∷ rows) = go row.delta (λ x c. worst-grows x c rows)
    where
      go :
          (o : Option R)
          → ((x : R) (c : Option String) → le x (worst x c rows).0 ≡ true)
          → le w (next w cid row rows o).0 ≡ true
      go none rec = rec w cid
      go (some d) rec =
          n.le_trans w (if lt w d then d else w) _ (larger w d).0
            (rec (if lt w d then d else w) (if lt w d then some row.cell else cid))

  worst-Below :
      (w : R) (cid : Option String) (rows : List (CellRow R))
      → All (Below (worst w cid rows).0) rows
  unfolding worst
  worst-Below w cid [] = tt
  worst-Below w cid (row ∷ rows) = go row.delta refl (λ x c. worst-Below x c rows)
    where
      go :
          (o : Option R)
          → row.delta ≡ o
          → ((x : R) (c : Option String) → All (Below (worst x c rows).0) rows)
          → Below (next w cid row rows o).0 row × All (Below (next w cid row rows o).0) rows
      go none e rec = (λ d h. cc, rec w cid)
      go (some d) e rec = (
        λ d' h.
            let same : d ≡ d' = cc in
            subst (λ x. le x (next w cid row rows (some d)).0 ≡ true) same
              (n.le_trans d (if lt w d then d else w) _ (larger w d).1 (
                worst-grows (if lt w d then d else w) (if lt w d then some row.cell else cid)
                  rows)),
        rec (if lt w d then d else w) (if lt w d then some row.cell else cid),
      )

  -- what the comparison of two receipts says
  pub record Compared (g : Generation R) (canonical counter : Receipt R) (d : Disagreement R)
      : Type 0 where
    pub covers : map (λ r. r.cell) d.per_cell ≡ compared_cells canonical counter
    pub rows : All (λ r. Fair g (cells_of canonical) (cells_of counter) r.cell r) d.per_cell
    pub bounds : All (λ r. (x : R) → r.delta ≡ some x → le x d.worst_delta ≡ true) d.per_cell
    pub within :
        (row : CellRow R)
        → In row d.per_cell
        → (x f : R) → row.delta ≡ some x
        → row.floor_as_gap_closed ≡ some f
        → d.agree ≡ true
        → le x f ≡ true
    pub agreed :
        ((row : CellRow R)
          → In row d.per_cell
          → (x f : R) → row.delta ≡ some x
          → row.floor_as_gap_closed ≡ some f
          → le x f ≡ true)
        → d.agree ≡ true

  found : (canonical counter : Receipt R) (rows : List (CellRow R)) → Disagreement R
  found canonical counter rows = record {
    agree = all row_agrees rows;
    worst_delta = (worst (num 0) none rows).0;
    worst_cell = (worst (num 0) none rows).1;
    per_cell = rows;
    canonical_box = box_id canonical;
    counter_box = box_id counter;
  }

  module _ (g : Generation R) (a b : Dict String (CellScore R)) where
    Fair-In :
        (row : CellRow R) (rows : List (CellRow R))
        → All (λ r. Fair g a b r.cell r) rows
        → In row rows
        → Fair g a b row.cell row
    Fair-In row [] h i = elim i [ ]
    Fair-In row (r ∷ rs) h here = h.0
    Fair-In row (r ∷ rs) h (there i) = Fair-In row rs h.1 i

    -- a row agrees exactly when its difference, where it has one, is within its floor
    row_agrees-within :
        (row : CellRow R) (x f : R)
        → Fair g a b row.cell row
        → row.delta ≡ some x
        → row.floor_as_gap_closed ≡ some f
        → row_agrees row ≡ true
        → le x f ≡ true
    row_agrees-within row x f fair hx hf agrees = elim fair.judged [
      | inl (p, (q, (hp, (hq, j)))) ↦
          let d = j.delta_lem in
          let fl = j.row_floor_lem in
          let w = j.within_lem in
          let same_x : abs (p - q) ≡ x = cc in
          let same_f : j.floor ≡ f = cc in
          let both : le (abs (p - q)) j.floor ≡ true = ground (arith, w, agrees) in
          subst (λ z. le z f ≡ true) same_x (subst (λ z. le (abs (p - q)) z ≡ true) same_f both)
      | inr (none_there, why) ↦ cc
    ]

    within-row_agrees :
        (row : CellRow R)
        → Fair g a b row.cell row
        → ((x f : R) → row.delta ≡ some x → row.floor_as_gap_closed ≡ some f → le x f ≡ true)
        → row_agrees row ≡ true
    within-row_agrees row fair h = elim fair.judged [
      | inl (p, (q, (hp, (hq, j)))) ↦
          rw j.within_lem (h (abs (p - q)) j.floor j.delta_lem j.row_floor_lem)
      | inr (none_there, (w, why)) ↦ rw w refl
    ]

  all-of :
      (p : CellRow R → Bool) (rows : List (CellRow R))
      → ((row : CellRow R) → In row rows → p row ≡ true)
      → all p rows ≡ true
  all-of p [] f = refl
  all-of p (row ∷ rows) f = ground (arith, f row here, all-of p rows (λ r i. f r (there i)))

  -- A comparison that can be made has a row for every cell that either receipt measured. Where both
  -- have a gap and the generation a floor, the row's difference is that of the two gaps, either way, and
  -- its floor that of the cell; elsewhere there is none. No difference is larger than the worst one, and
  -- it agrees exactly when no cell's difference exceeds its floor.
  pub disagreement-Compared :
      (canonical counter : Receipt R) (g : Generation R) (d : Disagreement R)
      → disagreement canonical counter g ≡ ok d
      → Compared g canonical counter d
  unfolding disagreement found
  disagreement-Compared canonical counter g d h =
      let a = cells_of canonical in
      let b = cells_of counter in
      let (rows, e, h1) =
        >>=-eq-ok (rows_for g a b (compared_cells canonical counter))
          (λ rows. ok (found canonical counter rows)) h in
      let same : found canonical counter rows ≡ d = cc in
      let fair = rows_for-Fair g a b (compared_cells canonical counter) rows e in
      subst (Compared g canonical counter) same (record {
        covers = fair.0;
        rows = fair.1;
        bounds = worst-Below (num 0) none rows;
        within = λ row i x f p q agree.
            row_agrees-within g a b row x f (Fair-In g a b row rows fair.1 i) p q
              (all-In row_agrees i agree);
        agreed = λ f.
            all-of row_agrees rows
              (λ row i. within-row_agrees g a b row (Fair-In g a b row rows fair.1 i) (f row i));
      })
