-- ===== src/Round/Holds.antt =====
-- Which credits eval/round.py puts on hold and releases.
use burnisher.Base.{
  ℕ, ◌≡◌, refl, sym, ap, subst, ◌∙◌, ◌↔◌, Bool, true, false, not, ◌&&◌, Option, none, some, List,
  [], ◌∷◌, arith, if◌then◌else◌, ltb, In, here, there, keep-In, In-keep, is_some,
}
use burnisher.Base.Eq.{◌==◌, string_eq, nat_eq}
use burnisher.Base.Dict.{Dict, lookup, has_key, insert, keys, elem, lookup-insert, eq_of_test}
use burnisher.Base.Sort.{In-sort_by, sort_by-In}
use burnisher.Ledger.{Entry}
use burnisher.Round.{latest_from, is_held, hold_changes}

module _ {R : Type 0} where
  abbrev or_later : Option (Entry R) → Option (Entry R) → Option (Entry R)
  or_later (some h) o = some h
  or_later none o = o

  abbrev of_pr : ℕ → Entry R → Bool
  of_pr k h = elim h.pr [ none ↦ false | some j ↦ j == k ]

  -- the last entry of a history that is of a pull request, if there is one
  abbrev pub last_entry : ℕ → List (Entry R) → Option (Entry R)
  last_entry k [] = none
  last_entry k (h ∷ hs) = or_later (last_entry k hs) (if of_pr k h then some h else none)

  abbrev pub LastIs : ℕ → List (Entry R) → Bool → Type 0
  LastIs k history held = (h : Entry R) × (last_entry k history ≡ some h) × (h.held ≡ held)

  or_later-step :
      (a : Option (Entry R)) (b : Bool) (h : Entry R) (o : Option (Entry R))
      → or_later a (if b then some h else o) ≡ or_later (or_later a (if b then some h else none)) o
  or_later-step (some _) b h o = refl
  or_later-step none true h o = refl
  or_later-step none false h o = refl

  abbrev noted : Option ℕ → Entry R → Dict ℕ (Entry R) → Dict ℕ (Entry R)
  noted o h latest = elim o [ none ↦ latest | some k ↦ insert k h latest ]

  noted-lookup :
      (k : ℕ) (o : Option ℕ) (h : Entry R) (latest : Dict ℕ (Entry R))
      → lookup k (noted o h latest)
        ≡ (if elim o [ none ↦ false | some j ↦ j == k ] then some h else lookup k latest)
  noted-lookup k none h latest = refl
  noted-lookup k (some j) h latest = lookup-insert j k h latest

  latest_from-lookup :
      (k : ℕ) (hs : List (Entry R)) (latest : Dict ℕ (Entry R))
      → lookup k (latest_from latest hs) ≡ or_later (last_entry k hs) (lookup k latest)
  unfolding latest_from
  latest_from-lookup k [] latest = refl
  latest_from-lookup k (h ∷ hs) latest =
      latest_from-lookup k hs (noted h.pr h latest)
      ∙ ap (or_later (last_entry k hs)) (noted-lookup k h.pr h latest)
      ∙ or_later-step (last_entry k hs) (of_pr k h) h (lookup k latest)

  or_later-none : (a : Option (Entry R)) → or_later a none ≡ a
  or_later-none none = refl
  or_later-none (some h) = refl

  lookup-In-keys :
      (k : ℕ) (d : Dict ℕ (Entry R)) (h : Entry R) → lookup k d ≡ some h → In k (keys d)
  lookup-In-keys k [] h e = cc
  lookup-In-keys k ((j, v) ∷ d) h e = go (j == k) refl e (lookup-In-keys k d h)
    where
      go :
          (b : Bool)
          → (j == k) ≡ b
          → (if b then some v else lookup k d) ≡ some h
          → (lookup k d ≡ some h → In k (keys d))
          → In k (j ∷ keys d)
      go true q e rec = subst (λ z. In z (j ∷ keys d)) (eq_of_test j k q) here
      go false q e rec = there (rec e)

  module _ (history : List (Entry R)) (labelled : List ℕ) (k : ℕ) where
    abbrev table : Dict ℕ (Entry R)
    table = latest_from [] history

    last : lookup k table ≡ last_entry k history
    last = latest_from-lookup k history [] ∙ or_later-none (last_entry k history)

    LastIs-of : (b : Bool) → has_key k table ≡ true → is_held table k ≡ b → LastIs k history b
    LastIs-of b p q = go (lookup k table) (sym last) p q
      where
        go :
            (o : Option (Entry R))
            → last_entry k history ≡ o
            → is_some o ≡ true
            → elim o [ none ↦ false | some h ↦ h.held ] ≡ b
            → LastIs k history b
        go none e p q = cc
        go (some h) e p q = (h, e, q)

    held_is :
        (h : Entry R)
        → last_entry k history ≡ some h
        → (is_held table k ≡ h.held) × (has_key k table ≡ true)
    held_is h e = (
      ap (λ o. elim o [ none ↦ false | some x ↦ x.held ]) (last ∙ e),
      ap (λ o. is_some o) (last ∙ e),
    )

    held_key : is_held table k ≡ true → has_key k table ≡ true
    held_key p = ground arith

    -- A pull request is put on hold exactly when the last entry of the history that is of it is held
    -- and it is not labelled as held already; it is released exactly when it is labelled so and its
    -- last entry is not held.
    pub hold_changes_lem :
        (In k (hold_changes history labelled).0 ↔ (elem k labelled ≡ false) × LastIs k history true)
        × (In k (hold_changes history labelled).1 ↔ In k labelled × LastIs k history false)
    unfolding hold_changes
    hold_changes_lem = (
      (
        λ i.
            let (_, p) =
              keep-In (λ k. is_held table k && not (elem k labelled)) (keys table)
                (sort_by-In ltb _ i) in
            (ground arith, LastIs-of true (held_key (ground arith)) (ground arith)),
        λ (p, (h, e, q)). In-sort_by ltb (
            In-keep (λ k. is_held table k && not (elem k labelled))
              (lookup-In-keys k table h (last ∙ e)) (ground (arith, held_is h e))),
      ),
      (
        λ i.
            let (j, p) =
              keep-In (λ k. has_key k table && not (is_held table k)) labelled
                (sort_by-In ltb _ i) in
            (j, LastIs-of false (ground arith) (ground arith)),
        λ (i, (h, e, q)). In-sort_by ltb (
            In-keep (λ k. has_key k table && not (is_held table k)) i
              (ground (arith, held_is h e))),
      ),
    )
