-- ===== src/Copycat/Decided.antt =====
-- `decide` ends with a row of a slot, or with the clear verdict.
use burnisher.Base.{
  ◌≡◌, refl, sym, subst, ◌⊎◌, inl, inr, Bool, true, false, Option, some, List, [], ◌∷◌, map, arith,
  if◌then◌else◌, keep, In, here, there, In-cons, keep-In, In-keep,
}
use burnisher.Base.Eq.{string_eq, nat_eq}
use burnisher.Base.Num.{Num, num, le, lt, ◌-◌}
use burnisher.Base.Sort.{text_before}
use burnisher.Copycat.Judge.{
  Kind, Row, Judgement, slack, key_of, outcome_of_kind, largest, earliest, earliest_of, best_row,
  Comparison, slot, decide, clear, found,
}

module _ {R : Type 0} ⦃n : Num R⦄ where
  largest-In : (m : R) (xs : List R) → In (largest m xs) (m ∷ xs)
  largest-In m [] = here
  largest-In m (x ∷ xs) = go (lt m x) (largest-In m xs) (largest-In x xs)
    where
      skip : In (largest m xs) (m ∷ xs) → In (largest m xs) (m ∷ x ∷ xs)
      skip i = elim (In-cons i) [
        | inl e ↦ subst (λ z. In z (m ∷ x ∷ xs)) (sym e) here
        | inr j ↦ there (there j)
      ]

      go :
          (b : Bool)
          → In (largest m xs) (m ∷ xs)
          → In (largest x xs) (x ∷ xs)
          → In (largest (if b then x else m) xs) (m ∷ x ∷ xs)
      go true i j = there j
      go false i j = skip i

  earliest-In : (m : Row R) (rows : List (Row R)) → In (earliest m rows) (m ∷ rows)
  unfolding earliest
  earliest-In m [] = here
  earliest-In m (x ∷ rows) =
      go (text_before x.ref.first_seen m.ref.first_seen) (earliest-In m rows) (earliest-In x rows)
    where
      skip : In (earliest m rows) (m ∷ rows) → In (earliest m rows) (m ∷ x ∷ rows)
      skip i = elim (In-cons i) [
        | inl e ↦ subst (λ z. In z (m ∷ x ∷ rows)) (sym e) here
        | inr j ↦ there (there j)
      ]

      go :
          (b : Bool)
          → In (earliest m rows) (m ∷ rows)
          → In (earliest x rows) (x ∷ rows)
          → In (earliest (if b then x else m) rows) (m ∷ x ∷ rows)
      go true i j = there j
      go false i j = skip i

  map-In :
      {A : Type 0} (f : A → R) (xs : List A) {v : R}
      → In v (map f xs)
      → (x : A) × (In x xs × (f x ≡ v))
  map-In f [] i = elim i [ ]
  map-In {A} f (x ∷ xs) {v} i = elim (In-cons i) [
    | inl e ↦ (x, (here, sym e))
    | inr j ↦ later (map-In f xs j)
  ]
    where
      later : ((y : A) × (In y xs × (f y ≡ v))) → (y : A) × (In y (x ∷ xs) × (f y ≡ v))
      later (y, (j, e)) = (y, (there j, e))

  -- The best row of a slot exists, and is a row of it.
  best_row-In :
      (k : Kind) (r : Row R) (rows : List (Row R))
      → (row : Row R) × ((best_row k r rows ≡ some row) × In row (r ∷ rows))
  unfolding best_row
  best_row-In k r rows =
      let top = largest (key_of k r) (map (key_of k) rows) in
      let (x, (i, e)) =
        map-In (key_of k) (r ∷ rows) (largest-In (key_of k r) (map (key_of k) rows)) in
      let p = λ (y : Row R). le (top - slack) (key_of k y) in
      let passes : p x ≡ true =
        subst (λ v. le (top - slack) v ≡ true) (sym e) (n.sub_le slack top slack_nonneg) in
      first (keep p (r ∷ rows)) (In-keep p i passes) (λ y j. (keep-In p (r ∷ rows) j).0)
    where
      slack_nonneg : le {R = R} (num 0) slack ≡ true
      slack_nonneg = n.div_nonneg (num 5) (num 100) (n.of_ℕ_mono 0 5 (omega arith)) (n.suc_pos 99)

      first :
          (kept : List (Row R))
          → {x : Row R} → In x kept
          → ((y : Row R) → In y kept → In y (r ∷ rows))
          → (row : Row R) × ((earliest_of kept ≡ some row) × In row (r ∷ rows))
      first [] i f = elim i [ ]
      first (y ∷ kept) i f = (earliest y kept, (refl, f (earliest y kept) (earliest-In y kept)))

  -- What `decide` returns: the clear verdict, or a row of a slot with the slot's kind.
  abbrev pub Decided : Comparison → List (Kind × Row R) → Judgement R → Type 0
  Decided c placed j =
      (j ≡ clear R c)
      ⊎ ((k : Kind) × ((row : Row R) × ((found R k (some row) ≡ some j)
              × In row (slot R k placed))))

  pub decide-Decided :
      (c : Comparison) (placed : List (Kind × Row R)) (ks : List Kind)
      → (j : Judgement R) × ((decide R c placed ks ≡ some j) × Decided c placed j)
  unfolding decide
  decide-Decided c placed [] = (clear R c, (refl, inl refl))
  decide-Decided c placed (k ∷ ks) = go (slot R k placed) refl (decide-Decided c placed ks)
    where
      go :
          (rows : List (Row R))
          → slot R k placed ≡ rows
          → ((j : Judgement R) × ((decide R c placed ks ≡ some j) × Decided c placed j))
          → (j : Judgement R) × ((elim rows as (λ _. Option (Judgement R)) [
            | [] ↦ decide R c placed ks
            | row ∷ rest ↦ found R k (best_row k row rest)
          ]
                ≡ some j)
              × Decided c placed j)
      go [] e rec = rec
      go (r ∷ rows) e rec =
          let (row, (b, i)) = best_row-In k r rows in
          (
            record {
              outcome = outcome_of_kind k;
              kind = some k;
              row = some row;
              new_code = row.new_code;
            },
            (rw b refl, inr (k, (row, (refl, subst (λ x. In row x) (sym e) i)))),
          )
