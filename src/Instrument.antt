-- ===== src/Instrument.antt =====
-- scripts/instrument_guard.py: which of the changed paths touch the measuring instrument, and
-- `guard` of eval/pr_bot.py, which runs it. A changed path comes with git's status letter.
pub mod Surface
pub mod Paid
use burnisher.Base.{
  ℕ, zero, suc, String, ◌≤◌, ◌≡◌, refl, sym, ap, subst, ◌∙◌, ◌≢◌, ◌↔◌, ◌⊎◌, inl, inr, Bool, true,
  false, not, ◌&&◌, ◌||◌, Option, none, some, List, [], ◌∷◌, ◌++◌, map, arith, if◌then◌else◌, ltb,
  leb, length, is_empty, get_elem?, take, drop, any, all, keep, find, In, here, there, In-cons, All,
  keep-In, In-keep, any-In, all-In, All-of_In, find-eq_some, In-append_left, In-append_right,
  keep-append, length-append, if-cases, Bool-cases, Option-cases, is_some, or_else, ◌+◌, ◌-◌, ◌*◌,
  ◌<◌,
}
use burnisher.Base.Eq.{Eq, ◌==◌, string_eq, nat_eq}
use burnisher.Base.Dict.{
  Dict, lookup, has_key, insert, keys, elem, adjoin, minus, meet, elem-In, In-elem, minus-In,
  In-minus, lookup-insert, eq_self, eq_of_test,
}
use burnisher.Base.Result.{Result, ok, err, ◌>>=◌, ◌>>◌, require, raise_if, for_each, >>=-eq-ok}
use burnisher.Base.Num.{Num, num, le, lt, num_eq, max, min, neg, abs}
use burnisher.Base.Texts.{drop_text}
use Prim.Native.String.{◌++◌ as text_append}
use text.Mathlib.Text.{starts_with}

abbrev pub instrument : List String
instrument = "eval/" ∷ "configs/" ∷ "schemas/" ∷ "tools/burnish" ∷ []

abbrev pub governance : List String
governance = ".github/" ∷ ".gittensor/" ∷ "scripts/" ∷ []

abbrev pub build_is_contributor_surface : List String
build_is_contributor_surface = "scripts/build" ∷ []

abbrev pub contributor_surface : List String
contributor_surface = "src/" ∷ "include/" ∷ "tests/" ∷ "CMakeLists.txt" ∷ "scripts/build" ∷ []

abbrev pub additive_path : String
additive_path = "configs/tolerance.json"

-- `any(path.startswith(p) for p in prefixes)`
abbrev pub is_under : List String → String → Bool
is_under prefixes path = any (λ p. starts_with path p) prefixes

abbrev pub prepend : String → Option String → Option String
prepend c none = none
prepend c (some s) = some (text_append c s)

-- the characters before the first slash, if there is one
unfoldable pub before_slash : String → Option String
before_slash String.[] = none
before_slash (String.◌∷◌ c s) =
    let rest = before_slash s in
    if String.◌∷◌ c String.[] == "/" then some "" else prepend (String.◌∷◌ c String.[]) rest

abbrev nonempty : Option String → Option String
nonempty none = none
nonempty (some s) = if s == "" then none else some s

-- the generation that `^eval/cells/([^/]+)/` finds in a path
unfoldable pub cell_dir : String → Option String
unfolding drop_text before_slash
cell_dir path =
    if starts_with path "eval/cells/" then nonempty (before_slash (drop_text 11 path)) else none

pub record Classified : Type 0 where
  pub blocked : List String
  pub cartography : List String
  pub contributor : List String
  pub other : List String

abbrev pub nothing : Classified
nothing = record { blocked = []; cartography = []; contributor = []; other = [] }

-- where a path goes
pub data Place : Type 0 where
  to_blocked to_cartography to_contributor to_other : Place

abbrev pub is_new : List String → Option String → Bool
is_new generations none = false
is_new generations (some g) = not (elem g generations)

unfoldable pub place : List String → String → String → Place
place generations status path =
    if is_under build_is_contributor_surface path
    then to_contributor
    else if is_under governance path
    then to_blocked
    else if not (is_under instrument path)
    then (if is_under contributor_surface path then to_contributor else to_other)
    else if status == "A" && is_new generations (cell_dir path)
    then to_cartography
    else to_blocked

abbrev pub put : String → Place → Classified → Classified
put path to_blocked r = record r { blocked = path ∷ r.blocked }
put path to_cartography r = record r { cartography = path ∷ r.cartography }
put path to_contributor r = record r { contributor = path ∷ r.contributor }
put path to_other r = record r { other = path ∷ r.other }

unfoldable pub classify : List String → List (String × String) → Classified
unfolding place
classify generations [] = nothing
classify generations ((status, path) ∷ rows) =
    put path (place generations status path) (classify generations rows)

-- a JSON object, if a text is one, with its values as texts
abbrev pub Object : Type 0
Object = Option (Dict String String)

unfoldable pub only_adds_entries : Object → Object → List String → Bool
only_adds_entries none head allowed = false
only_adds_entries (some base) none allowed = false
only_adds_entries (some base) (some head) allowed =
    let added = minus (keys head) (keys base) in
    all (λ e. has_key e.0 head && or_else (lookup e.0 head) "" == e.1) base
    && not (is_empty added)
    && is_empty (minus added allowed)

-- The names of the generations that paths open, or none when a path names no generation: `group` is
-- then called on None, which raises.
unfoldable pub opened_by : List String → Option (List String)
opened_by [] = some []
opened_by (path ∷ paths) = elim (cell_dir path) [
  | none ↦ none
  | some g ↦ elim (opened_by paths) [ none ↦ none | some gs ↦ some (adjoin g gs) ]
]

-- `old` and `new` are the additive file in the base and in the checkout, if it is there.
pub record Checkout : Type 0 where
  pub generations : List String
  pub old : Option Object
  pub new : Option Object

abbrev pub adds_only : Checkout → List String → Bool
adds_only c opened = elim c.old [
  | none ↦ false
  | some base ↦ elim c.new [ none ↦ false | some head ↦ only_adds_entries base head opened ]
]

-- one blocked path after another: allowed, or blocked still
unfoldable pub allow_each : Checkout → List String → List String → List String × List String
allow_each c opened [] = ([], [])
allow_each c opened (path ∷ paths) =
    let (allowed, still) = allow_each c opened paths in
    if path == additive_path && not (is_empty opened) && adds_only c opened
    then (path ∷ allowed, still)
    else (allowed, path ∷ still)

unfoldable pub allow_new_generation_entries : Checkout → Classified → Option Classified
allow_new_generation_entries c r = elim (opened_by r.cartography) [
  | none ↦ none
  | some opened ↦
      let (allowed, still) = allow_each c opened r.blocked in
      some (record r { cartography = r.cartography ++ allowed; blocked = still })
]

-- the file that the script leaves
pub record Answer : Type 0 where
  pub fine : Bool
  pub outcome : String

abbrev pub answer_of : Classified → Answer
answer_of r = record {
  fine = is_empty r.blocked;
  outcome =
      if not (is_empty r.blocked)
      then "BLOCKED"
      else if not (is_empty r.cartography)
      then "CARTOGRAPHY"
      else "CONTRIBUTOR";
}

-- the names of the generations are printed before the file is written
abbrev pub written : Classified → Option Answer
written r =
    if is_empty r.cartography
    then some (answer_of r)
    else elim (opened_by r.cartography) [ none ↦ none | some gs ↦ some (answer_of r) ]

-- No file is left when nothing changed, and when the script raises.
unfoldable pub main : Checkout → List (String × String) → Option Answer
main c rows =
    if is_empty rows
    then none
    else elim (allow_new_generation_entries c (classify c.generations rows)) [
      | none ↦ none
      | some r ↦ written r
    ]

-- `guard` of eval/pr_bot.py: without a file, nothing is blocked
unfoldable pub guard : Checkout → List (String × String) → Answer
guard c rows = or_else (main c rows) (record { fine = true; outcome = "CONTRIBUTOR" })
