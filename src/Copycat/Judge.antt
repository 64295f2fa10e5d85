-- ===== src/Copycat/Judge.antt =====
-- `judge` of eval/burnscore/copycat.py: COPY, REVIEW or CLEAR for one submission.
use burnisher.Base.{
  ℕ, String, Bool, true, false, not, ◌&&◌, ◌||◌, Option, none, some, List, [], ◌∷◌, map,
  if◌then◌else◌, ltb, leb, length, is_empty, keep, or_else,
}
use burnisher.Base.Eq.{◌==◌, string_eq, nat_eq}
use burnisher.Base.Dict.{elem, minus, meet}
use burnisher.Base.Num.{Num, num, le, max, ◌-◌, ◌/◌}
use burnisher.Base.Texts.{lower}
use burnisher.Base.Sort.{text_before}
use burnisher.Copycat.{min_mass, tiny_min, embed_min}
use burnisher.Copycat.Fingerprint.{union}

-- One observation of a submission: what it adds and touches, and when this head was first seen.
pub record Entry : Type 0 where
  pub pr : ℕ
  pub author : Option String
  pub head : String
  pub first_seen : String
  pub added : List String
  pub base : List String
  pub paths : List String

pub data Outcome : Type 0 where
  found_copy found_review found_clear : Outcome

-- the kinds of a match, in the order in which the slots are looked at
pub data Kind : Type 0 where
  copy contains_earlier stacked partial tiny_identical : Kind

abbrev pub kinds : List Kind
kinds = copy ∷ contains_earlier ∷ stacked ∷ partial ∷ tiny_identical ∷ []

pub record Row (R : Type 0) : Type 0 where
  pub ref : Entry
  pub containment : R
  pub contains : R
  pub new_code : ℕ
  pub shared : List String

-- `original` is `none` where nothing matches; `row` is then `none` too.
pub record Judgement (R : Type 0) : Type 0 where
  pub outcome : Outcome
  pub kind : Option Kind
  pub row : Option (Row R)
  pub new_code : ℕ

abbrev pub original : {R : Type 0} → Judgement R → Option Entry
original j = elim j.row [ none ↦ none | some r ↦ some r.ref ]

unfoldable pub login : Option String → String
login author = lower (or_else author "")

module _ {R : Type 0} ⦃n : Num R⦄ where
  -- `len(xs) / len(ys)`
  abbrev pub share : List String → List String → R
  share xs ys = num (length xs) / num (length ys)

  abbrev pub t_copy : R
  t_copy = num 7 / num 10

  abbrev pub t_review : R
  t_review = num 4 / num 10

  abbrev pub t_same : R
  t_same = num 99 / num 100

  abbrev pub slack : R
  slack = num 5 / num 100

-- by a different author, of another number, and observed before the candidate
unfoldable pub is_reference : Entry → Entry → Bool
is_reference candidate r =
    not (login r.author == login candidate.author)
    && not (r.pr == candidate.pr)
    && text_before r.first_seen candidate.first_seen

-- what a reference adds, less what is common or its own context
abbrev pub new_code_of : List String → Entry → List String
new_code_of boiler r = minus (minus r.added boiler) r.base

-- whether most of what a submission adds is now on main
abbrev pub has_landed : (R : Type 0) ⦃n : Num R⦄ → List String → List String → Bool
has_landed R on_main theirs =
    not (is_empty theirs) && le (t_copy {R = R}) (share (meet theirs on_main) theirs)

-- what earlier submissions put on main
unfoldable pub landed :
    (R : Type 0) ⦃n : Num R⦄ → List String → List String → List Entry → List String
landed R on_main boiler [] = []
landed R on_main boiler (r ∷ refs) =
    let theirs = new_code_of boiler r in
    let rest = landed R on_main boiler refs in
    if has_landed R on_main theirs then union rest theirs else rest

-- the slot of a reference that shares new code
unfoldable pub kind_of : {R : Type 0} ⦃n : Num R⦄ → Bool → ℕ → ℕ → ℕ → R → R → Option Kind
kind_of in_stack mine theirs shared a b =
    let tiny = leb tiny_min mine && ltb mine min_mass && le t_same a in
    if in_stack
    then (if (leb min_mass mine && le t_review a) || (leb embed_min theirs && le t_copy b) || tiny
        then some stacked
        else none)
    else if leb min_mass mine && le t_copy a
    then some copy
    else if leb embed_min theirs && le t_copy b && leb embed_min shared
    then some contains_earlier
    else if leb min_mass mine && le t_review a
    then some partial
    else if tiny
    then some tiny_identical
    else none

abbrev pub tagged : {R : Type 0} → Row R → Option Kind → Option (Kind × Row R)
tagged row none = none
tagged row (some k) = some (k, row)

abbrev pub same_kind : Kind → Kind → Bool
same_kind copy copy = true
same_kind contains_earlier contains_earlier = true
same_kind stacked stacked = true
same_kind partial partial = true
same_kind tiny_identical tiny_identical = true
same_kind _ _ = false

-- the measure by which a slot's rows are compared
abbrev pub key_of : {R : Type 0} → Kind → Row R → R
key_of contains_earlier r = r.contains
key_of stacked r = r.contains
key_of copy r = r.containment
key_of partial r = r.containment
key_of tiny_identical r = r.containment

module _ {R : Type 0} ⦃n : Num R⦄ where
  -- `max(xs)`, of `m` and the others
  abbrev pub largest : R → List R → R
  largest m [] = m
  largest m (x ∷ xs) = largest (max m x) xs

  -- `min(rows, key=first_seen)`: the first of those observed first
  unfoldable pub earliest : Row R → List (Row R) → Row R
  earliest m [] = m
  earliest m (x ∷ xs) = earliest (if text_before x.ref.first_seen m.ref.first_seen then x else m) xs

  abbrev pub earliest_of : List (Row R) → Option (Row R)
  earliest_of [] = none
  earliest_of (r ∷ rows) = some (earliest r rows)

  -- The best row of a slot that is not empty; `none` is the ValueError of `min` on no row.
  unfoldable pub best_row : Kind → Row R → List (Row R) → Option (Row R)
  unfolding earliest
  best_row k r rows =
      let top = largest (key_of k r) (map (key_of k) rows) in
      earliest_of (keep (λ x. le (top - slack) (key_of k x)) (r ∷ rows))

abbrev pub outcome_of_kind : Kind → Outcome
outcome_of_kind copy = found_copy
outcome_of_kind _ = found_review

-- One comparison: what main and the common code leave of it, and the pull requests this branch is
-- built on.
pub record Comparison : Type 0 where
  pub candidate : Entry
  pub boiler : List String
  pub infra : List String
  pub novel : List String
  pub stacked_on : List ℕ

module _ (R : Type 0) ⦃n : Num R⦄ where
  -- the row of one reference and its slot
  unfoldable pub place_row : Comparison → Entry → Option (Kind × Row R)
  unfolding kind_of
  place_row c ref =
      let mine = minus c.novel ref.base in
      let theirs = minus (minus (new_code_of c.boiler ref) c.candidate.base) c.infra in
      let shared = meet mine ref.added in
      let a = share shared mine in
      let b = if is_empty theirs then num 0 else share (meet theirs c.candidate.added) theirs in
      let row : Row R = record {
        ref = ref;
        containment = a;
        contains = b;
        new_code = length mine;
        shared = shared;
      } in
      if is_empty mine || is_empty shared
      then none
      else tagged row
          (kind_of (elem ref.pr c.stacked_on) (length mine) (length theirs) (length shared) a b)

  unfoldable pub place_all : Comparison → List Entry → List (Kind × Row R)
  unfolding place_row
  place_all c [] = []
  place_all c (ref ∷ refs) =
      let rest = place_all c refs in elim (place_row c ref) [ none ↦ rest | some p ↦ p ∷ rest ]

  -- the rows of one slot
  unfoldable pub slot : Kind → List (Kind × Row R) → List (Row R)
  slot k [] = []
  slot k ((j, row) ∷ placed) =
      let rest = slot k placed in if same_kind k j then row ∷ rest else rest

  abbrev pub clear : Comparison → Judgement R
  clear c = record { outcome = found_clear; kind = none; row = none; new_code = length c.novel }

  abbrev pub found : Kind → Option (Row R) → Option (Judgement R)
  found k none = none
  found k (some row) = some (record {
    outcome = outcome_of_kind k;
    kind = some k;
    row = some row;
    new_code = row.new_code;
  })

  -- the first slot that holds a row decides
  unfoldable pub decide : Comparison → List (Kind × Row R) → List Kind → Option (Judgement R)
  unfolding slot best_row
  decide c placed [] = some (clear c)
  decide c placed (k ∷ ks) =
      let rest = decide c placed ks in
      elim (slot k placed) [ [] ↦ rest | row ∷ rows ↦ found k (best_row k row rows) ]

  unfoldable pub compare_with : List String → List String → List ℕ → Entry → List Entry → Comparison
  unfolding landed
  compare_with on_main boiler stacked_on candidate refs =
      let infra = minus on_main (landed R on_main boiler refs) in
      record {
        candidate = candidate;
        boiler = boiler;
        infra = infra;
        novel = minus (minus (minus candidate.added boiler) candidate.base) infra;
        stacked_on = stacked_on;
      }

  unfoldable pub judge :
      List String → List String → List ℕ → Entry → List Entry → Option (Judgement R)
  unfolding is_reference compare_with place_all decide
  judge on_main boiler stacked_on candidate references =
      let refs = keep (is_reference candidate) references in
      let c = compare_with on_main boiler stacked_on candidate refs in
      if is_empty c.novel then some (clear c) else decide c (place_all c refs) kinds
