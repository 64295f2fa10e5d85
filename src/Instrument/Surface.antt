-- ===== src/Instrument/Surface.antt =====
-- What the instrument guard lets through.
use burnisher.Base.{
  String, ◌≡◌, refl, ap, ◌∙◌, Bool, true, false, not, ◌&&◌, ◌||◌, Option, none, some, List, [], ◌∷◌,
  ◌++◌, if◌then◌else◌, is_empty, all, or_else,
}
use burnisher.Base.Eq.{◌==◌, string_eq, nat_eq}
use burnisher.Base.Dict.{elem, adjoin, eq_of_test}
use burnisher.Instrument.{
  instrument, governance, build_is_contributor_surface, contributor_surface, additive_path,
  is_under, adds_only, cell_dir, Classified, is_new, Place, to_blocked, to_cartography,
  to_contributor, to_other, place, put, classify, opened_by, Checkout, allow_each,
  allow_new_generation_entries, Answer, answer_of, written, main, guard,
}

-- A change that is no edit of the instrument: of the build scripts, of what is neither governance nor
-- instrument, or a file added to a generation that is new.
abbrev pub is_allowed : List String → String × String → Bool
is_allowed generations (status, path) =
    is_under build_is_contributor_surface path
    || (not (is_under governance path)
        && (not (is_under instrument path)
            || (status == "A" && is_new generations (cell_dir path))))

is_blocked : Place → Bool
is_blocked to_blocked = true
is_blocked _ = false

place-is_allowed :
    (generations : List String) (status path : String)
    → is_blocked (place generations status path) ≡ not (is_allowed generations (status, path))
unfolding place is_blocked
place-is_allowed generations status path =
    go (is_under build_is_contributor_surface path) (is_under governance path)
      (is_under instrument path) (is_under contributor_surface path)
      (status == "A" && is_new generations (cell_dir path))
  where
    go :
        (a b c d e : Bool)
        → is_blocked (
            if a
            then to_contributor
            else if b
            then to_blocked
            else if not c
            then (if d then to_contributor else to_other)
            else if e
            then to_cartography
            else to_blocked)
          ≡ not (a || (not b && (not c || e)))
    go true b c d e = refl
    go false true c d e = refl
    go false false false true e = refl
    go false false false false e = refl
    go false false true d true = refl
    go false false true d false = refl

put-blocked :
    (path : String) (p : Place) (r : Classified)
    → is_empty (put path p r).blocked ≡ (not (is_blocked p) && is_empty r.blocked)
unfolding is_blocked
put-blocked path to_blocked r = refl
put-blocked path to_cartography r = refl
put-blocked path to_contributor r = refl
put-blocked path to_other r = refl

not-not : (b : Bool) → not (not b) ≡ b
not-not true = refl
not-not false = refl

-- Nothing is blocked exactly when every change is allowed.
pub classify-is_allowed :
    (generations : List String) (rows : List (String × String))
    → is_empty (classify generations rows).blocked ≡ all (is_allowed generations) rows
unfolding classify
classify-is_allowed generations [] = refl
classify-is_allowed generations ((status, path) ∷ rows) =
    put-blocked path (place generations status path) (classify generations rows)
    ∙ rw
        (
          place-is_allowed generations status path,
          not-not (is_allowed generations (status, path)),
          classify-is_allowed generations rows,
        )
        refl

additive_names_none : cell_dir additive_path ≡ none
unfolding cell_dir
additive_names_none = refl

opened_by-additive :
    (paths : List String) → elem additive_path paths ≡ true → opened_by paths ≡ none
unfolding opened_by
opened_by-additive [] h = cc
opened_by-additive (path ∷ paths) h = go (path == additive_path) refl h (opened_by-additive paths)
  where
    behind :
        (o : Option String) (p : Option (List String))
        → p ≡ none
        → ◌≡◌ {A = Option (List String)}
            (elim o [
              | none ↦ none
              | some g ↦ elim p [ none ↦ none | some gs ↦ some (adjoin g gs) ]
            ])
            none
    behind none p e = refl
    behind (some g) p e = rw e refl

    go :
        (b : Bool)
        → (path == additive_path) ≡ b
        → (b || elem additive_path paths) ≡ true
        → (elem additive_path paths ≡ true → opened_by paths ≡ none)
        → ◌≡◌ {A = Option (List String)}
            (elim (cell_dir path) [
              | none ↦ none
              | some g ↦ elim (opened_by paths) [ none ↦ none | some gs ↦ some (adjoin g gs) ]
            ])
            none
    go true e h rec = rw (eq_of_test path additive_path e, additive_names_none) refl
    go false e h rec = behind (cell_dir path) (opened_by paths) (rec h)

written-additive : (r : Classified) → elem additive_path r.cartography ≡ true → written r ≡ none
written-additive r h = go r.cartography h
  where
    go :
        (paths : List String)
        → elem additive_path paths ≡ true
        → ◌≡◌ {A = Option Answer}
            (if is_empty paths
              then some (answer_of r)
              else elim (opened_by paths) [ none ↦ none | some gs ↦ some (answer_of r) ])
            none
    go [] h = cc
    go (p ∷ ps) h = rw (opened_by-additive (p ∷ ps) h) refl

-- Whenever the additive file is allowed because it only adds entries for the generations that a
-- submission opens, the script raises before it leaves its file, and the guard then lets the submission
-- through, whatever else of the instrument it changes.
pub guard_fails_open :
    (c : Checkout) (rows : List (String × String)) (r : Classified)
    → is_empty rows ≡ false
    → allow_new_generation_entries c (classify c.generations rows) ≡ some r
    → elem additive_path r.cartography ≡ true
    → (main c rows ≡ none) × ((guard c rows).fine ≡ true)
unfolding main guard
guard_fails_open c rows r h e k =
    let lost : main c rows ≡ none = rw (h, e) (written-additive r k) in
    (
      lost,
      ap
          (λ (o : Option Answer).
            (or_else {A = Answer} o (record { fine = true; outcome = "CONTRIBUTOR" })).fine)
          lost,
    )

place-names :
    (generations : List String) (status path : String)
    → place generations status path ≡ to_cartography
    → (g : String) × (cell_dir path ≡ some g)
unfolding place
place-names generations status path h =
    go (is_under build_is_contributor_surface path) (is_under governance path)
      (is_under instrument path) (is_under contributor_surface path) (status == "A") (cell_dir path)
      refl h
  where
    go :
        (a b c d e : Bool) (o : Option String)
        → cell_dir path ≡ o
        → ◌≡◌ {A = Place}
            (if a
              then to_contributor
              else if b
              then to_blocked
              else if not c
              then (if d then to_contributor else to_other)
              else if e && is_new generations o
              then to_cartography
              else to_blocked)
            to_cartography
        → (g : String) × (cell_dir path ≡ some g)
    go a b c d e (some g) q h = (g, q)
    go true b c d e none q h = cc
    go false true c d e none q h = cc
    go false false false true e none q h = cc
    go false false false false e none q h = cc
    go false false true d true none q h = cc
    go false false true d false none q h = cc

opened_by-cons :
    (path g : String) (paths gs : List String)
    → cell_dir path ≡ some g
    → opened_by paths ≡ some gs
    → opened_by (path ∷ paths) ≡ some (adjoin g gs)
unfolding opened_by
opened_by-cons path g paths gs k q = rw (k, q, opened_by) refl

opened_by-classify :
    (generations : List String) (rows : List (String × String))
    → (gs : List String) × (opened_by (classify generations rows).cartography ≡ some gs)
unfolding classify
opened_by-classify generations [] = ([], unfold opened_by in refl)
opened_by-classify generations ((status, path) ∷ rows) =
    go (place generations status path) refl (opened_by-classify generations rows)
  where
    go :
        (p : Place)
        → place generations status path ≡ p
        → ((gs : List String) × (opened_by (classify generations rows).cartography ≡ some gs))
        → (gs : List String) × (opened_by (put path p (classify generations rows)).cartography
            ≡ some gs)
    go to_cartography e (gs, q) =
        let (g, k) = place-names generations status path e in
        (adjoin g gs, opened_by-cons path g (classify generations rows).cartography gs k q)
    go to_blocked e r = r
    go to_contributor e r = r
    go to_other e r = r

allow_each-none :
    (c : Checkout) (opened paths : List String)
    → elem additive_path paths ≡ false
    → allow_each c opened paths ≡ ([], paths)
unfolding allow_each
allow_each-none c opened [] h = refl
allow_each-none c opened (path ∷ paths) h =
    go (path == additive_path) (not (is_empty opened)) (adds_only c opened) h
      (allow_each-none c opened paths)
  where
    go :
        (a b d : Bool)
        → (a || elem additive_path paths) ≡ false
        → (elem additive_path paths ≡ false → allow_each c opened paths ≡ ([], paths))
        → ◌≡◌ {A = List String × List String}
            (if a && b && d
              then (path ∷ (allow_each c opened paths).0, (allow_each c opened paths).1)
              else ((allow_each c opened paths).0, path ∷ (allow_each c opened paths).1))
            ([], path ∷ paths)
    go true b d h rec = cc
    go false b d h rec = ap (λ (t : List String × List String). (t.0, path ∷ t.1)) (rec h)

append_nil : (xs : List String) → xs ++ [] ≡ xs
append_nil [] = refl
append_nil (x ∷ xs) = ap (λ ys. x ∷ ys) (append_nil xs)

allowed_same :
    (c : Checkout) (r : Classified) (gs : List String)
    → opened_by r.cartography ≡ some gs
    → elem additive_path r.blocked ≡ false
    → allow_new_generation_entries c r ≡ some r
unfolding allow_new_generation_entries
allowed_same c r gs q k =
    rw (q, allow_each-none c gs r.blocked k, append_nil r.cartography, allow_new_generation_entries)
      refl

written_fine :
    (r : Classified) (gs : List String)
    → opened_by r.cartography ≡ some gs
    → written r ≡ some (answer_of r)
written_fine r gs q = rw q (go (is_empty r.cartography))
  where
    go :
        (b : Bool)
        → ◌≡◌ {A = Option Answer}
            (if b then some (answer_of r) else some (answer_of r))
            (some (answer_of r))
    go true = refl
    go false = refl

-- When the additive file is not among the blocked ones and something changed, the guard lets a
-- submission through exactly when every change is allowed.
pub guard-is_allowed :
    (c : Checkout) (rows : List (String × String))
    → is_empty rows ≡ false
    → elem additive_path (classify c.generations rows).blocked ≡ false
    → (guard c rows).fine ≡ all (is_allowed c.generations) rows
unfolding main guard
guard-is_allowed c rows h k =
    let r = classify c.generations rows in
    let (gs, q) = opened_by-classify c.generations rows in
    rw (h, allowed_same c r gs q k, written_fine r gs q) (classify-is_allowed c.generations rows)
