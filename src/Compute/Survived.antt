-- ===== src/Compute/Survived.antt =====
-- What a held-out verdict says: which cells it judges, and when the gains have survived.
use burnisher.Base.{
  String, ◌≡◌, refl, sym, subst, ◌∙◌, ◌↔◌, inl, inr, Bool, true, false, Option, none, some, List,
  [], ◌∷◌, if◌then◌else◌, is_empty, keep, In, here, there, In-cons, All, keep-In, In-keep,
  Bool-cases,
}
use burnisher.Base.Eq.{Eq, string_eq, nat_eq}
use burnisher.Base.Dict.{Dict, lookup, keys}
use burnisher.Base.Result.{ok, >>=-eq-ok}
use burnisher.Base.Num.{Num, num, ◌+◌, ◌/◌}
use burnisher.Base.Sort.{text_before, sort_by-In, In-sort_by}
use burnisher.Bootstrap.{Library}
use burnisher.Compute.{RawRecord, Grouped, group}
use burnisher.Compute.Score.{CellResult}
use burnisher.Compute.Sound.{ok-injective}
use burnisher.Compute.Held.{
  ShapeResult, HeldOut, gaining, need, shape_results, is_failed, held_out_of, held_out_verdict,
  cells_of,
}
use burnisher.Compute.Shapes.{IsGain, gaining-IsGain, SoundShape, shape_results-Shapes}

module _ {K V : Type 0} ⦃e : Eq K⦄ where
  In-keys : (k : K) (d : Dict K V) → In k (keys d) → (v : V) × In (k, v) d
  In-keys k [] i = elim i [ ]
  In-keys k ((j, v) ∷ d) i = elim (In-cons i) [
    | inl e ↦ (v, subst (λ z. In (z, v) ((j, v) ∷ d)) (sym e) here)
    | inr t ↦ let (w, u) = In-keys k d t in (w, there u)
  ]

  keys-In : {k : K} {v : V} {d : Dict K V} → In (k, v) d → In k (keys d)
  keys-In here = here
  keys-In (there i) = there (keys-In i)

module _ {R : Type 0} ⦃n : Num R⦄ where
  -- The cells named as failed are those that were judged and found too slow.
  held_out_of-failed :
      (results : Dict String (ShapeResult R)) (cell_id : String)
      → In cell_id (held_out_of results).cells_failed
        ↔ ((r : ShapeResult R) × (In (cell_id, r) results × (is_failed r ≡ true)))
  unfolding held_out_of
  held_out_of-failed results cell_id = (
    (λ i.
        let (r, j) = In-keys cell_id _ (
          sort_by-In text_before
            (keys (keep (λ (e : String × ShapeResult R). is_failed e.1) results)) i) in
        let (k, f) = keep-In (λ (e : String × ShapeResult R). is_failed e.1) results j in
        (r, (k, f))),
    (λ (r, (k, f)).
        In-sort_by text_before
          (keys-In (In-keep (λ (e : String × ShapeResult R). is_failed e.1) k f))),
  )

  -- What a held-out verdict rests on.
  pub record SoundVerdict (lib : Library R) (records : List (RawRecord R))
      (per_cell : Dict String (CellResult R)) (h : HeldOut R) : Type 0 where
    pub grouped : Grouped R
    pub grouped_lem : group records ≡ ok grouped
    pub shapes :
        All
          (λ (e : String × ShapeResult R). SoundShape lib grouped (gaining per_cell) e.0 e.1)
          h.per_shape
    pub judged :
        (cell_id : String) (r : ShapeResult R) (x : R)
        → r.required_speedup ≡ some x
        → In (cell_id, r) h.per_shape
        → (floor : R) × (IsGain per_cell cell_id floor × (num 1 + floor / num 100 ≡ x))
    pub failed :
        (cell_id : String)
        → In cell_id h.cells_failed
          ↔ ((r : ShapeResult R) × (In (cell_id, r) h.per_shape × (is_failed r ≡ true)))
    pub not_run : (h.survived ≡ none) → h.per_shape ≡ []
    pub survived :
        h.survived ≡ some true
        → (cell_id : String) (r : ShapeResult R) → In (cell_id, r) h.per_shape
        → is_failed r ≡ false
    pub not_survived : h.survived ≡ some false → (cell_id : String) × In cell_id h.cells_failed

  required-IsGain :
      (per_cell : Dict String (CellResult R)) (cell_id : String) (o : Option R) (x : R)
      → lookup cell_id (gaining per_cell) ≡ o
      → need o ≡ some x
      → (floor : R) × (IsGain per_cell cell_id floor × (num 1 + floor / num 100 ≡ x))
  required-IsGain per_cell cell_id none x e h = cc
  required-IsGain per_cell cell_id (some floor) x e h =
      let same : num 1 + floor / num 100 ≡ x = cc in
      (floor, (gaining-IsGain cell_id per_cell e, same))

  module _ (results : Dict String (ShapeResult R)) where
    abbrev failures : Dict String (ShapeResult R)
    failures = keep (λ (e : String × ShapeResult R). is_failed e.1) results

    held_out_of-not_run : (held_out_of results).survived ≡ none → results ≡ []
    unfolding held_out_of
    held_out_of-not_run h = go results h
      where
        go :
            (rs : Dict String (ShapeResult R))
            → (if is_empty rs then none else some (is_empty (keys failures))) ≡ none
            → rs ≡ []
        go [] h = refl
        go (r ∷ rs) h = cc

    held_out_of-verdict :
        (b : Bool) → (held_out_of results).survived ≡ some b → is_empty (keys failures) ≡ b
    unfolding held_out_of
    held_out_of-verdict b h = go (is_empty results) h
      where
        go :
            (t : Bool)
            → (if t then none else some (is_empty (keys failures))) ≡ some b
            → is_empty (keys failures) ≡ b
        go true h = cc
        go false h = cc

    held_out_of-survived :
        (held_out_of results).survived ≡ some true
        → (cell_id : String) (r : ShapeResult R) → In (cell_id, r) results
        → is_failed r ≡ false
    held_out_of-survived h cell_id r i = elim (Bool-cases (is_failed r)) [
      | inl e ↦
          absurd (keys-In (In-keep (λ (e : String × ShapeResult R). is_failed e.1) i e))
            (held_out_of-verdict true h)
      | inr e ↦ e
    ]
      where
        absurd :
            {k : String} {ks : List String} {b : Bool} → In k ks → is_empty ks ≡ true → b ≡ false
        absurd here h = cc
        absurd (there i) h = cc

    held_out_of-not_survived :
        (held_out_of results).survived ≡ some false
        → (cell_id : String) × In cell_id (held_out_of results).cells_failed
    unfolding held_out_of
    held_out_of-not_survived h =
        let (k, i) = first (keys failures) (held_out_of-verdict false h) in
        (k, In-sort_by text_before i)
      where
        first : (ks : List String) → is_empty ks ≡ false → (k : String) × In k ks
        first [] h = cc
        first (k ∷ ks) h = (k, here)

  -- In a held-out verdict the speedup of a cell is the ratio of its mean times over the repeats both
  -- arms have, a cell is judged only where its gain resolved and against that gain's own noise floor,
  -- the cells that have failed are the judged ones slower than required, all gains survived only when no
  -- cell failed, some did not only when one is named, and nothing is said only when nothing was measured.
  pub held_out_verdict-SoundVerdict :
      (lib : Library R) (records : List (RawRecord R)) (per_cell : Dict String (CellResult R))
      {h : HeldOut R}
      → held_out_verdict lib records per_cell ≡ ok h
      → SoundVerdict lib records per_cell h
  unfolding held_out_verdict held_out_of
  held_out_verdict-SoundVerdict lib records per_cell h =
      let (grouped, hg, h1) = >>=-eq-ok (group records) _ h in
      let (rs, hs, h2) =
        >>=-eq-ok (shape_results lib grouped (gaining per_cell) (cells_of grouped)) _ h1 in
      let shapes = shape_results-Shapes lib grouped (gaining per_cell) (cells_of grouped) hs in
      subst (SoundVerdict lib records per_cell) (ok-injective h2) (verdict grouped hg rs shapes)
    where
      verdict :
          (grouped : Grouped R)
          → group records ≡ ok grouped
          → (rs : Dict String (ShapeResult R))
          → All
              (λ (e : String × ShapeResult R). SoundShape lib grouped (gaining per_cell) e.0 e.1)
              rs
          → SoundVerdict lib records per_cell (held_out_of rs)
      verdict grouped hg rs shapes = record {
        grouped = grouped;
        grouped_lem = hg;
        shapes = shapes;
        judged = λ cell_id r x e i.
            required-IsGain per_cell cell_id (lookup cell_id (gaining per_cell)) x refl
              (sym (all_of rs i shapes).required_lem ∙ e);
        failed = held_out_of-failed rs;
        not_run = held_out_of-not_run rs;
        survived = held_out_of-survived rs;
        not_survived = held_out_of-not_survived rs;
      }
        where
          all_of :
              {cell_id : String} {r : ShapeResult R} (rs : Dict String (ShapeResult R))
              → In (cell_id, r) rs
              → All
                  (λ (e : String × ShapeResult R).
                    SoundShape lib grouped (gaining per_cell) e.0 e.1)
                  rs
              → SoundShape lib grouped (gaining per_cell) cell_id r
          all_of [] i ss = elim i [ ]
          all_of (e ∷ rs) here (s, ss) = s
          all_of (e ∷ rs) (there i) (s, ss) = all_of rs i ss
