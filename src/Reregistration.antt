-- ===== src/Reregistration.antt =====
-- eval/burnscore/reregistration.py: what a registration is, and the parameters of the verdict.
pub mod Scan
pub mod Similar
pub mod Common
pub mod Judge
pub mod Same
pub mod Best
pub mod Found
pub mod Caught
pub mod Flagged
use burnisher.Base.{
  ℕ, zero, suc, String, ◌≤◌, ◌≡◌, refl, sym, ap, subst, ◌∙◌, ◌≢◌, ◌↔◌, ◌⊎◌, inl, inr, Bool, true,
  false, not, ◌&&◌, ◌||◌, Option, none, some, List, [], ◌∷◌, ◌++◌, map, arith, if◌then◌else◌, ltb,
  leb, length, is_empty, get_elem?, take, drop, any, all, keep, find, In, here, there, In-cons, All,
  keep-In, In-keep, any-In, all-In, All-of_In, find-eq_some, In-append_left, In-append_right,
  keep-append, length-append, if-cases, Bool-cases, Option-cases, is_some, or_else, ◌<◌,
}
use burnisher.Base.Eq.{Eq, ◌==◌, string_eq, nat_eq}
use burnisher.Base.Dict.{
  Dict, lookup, has_key, insert, keys, elem, adjoin, minus, meet, elem-In, In-elem, minus-In,
  In-minus, lookup-insert, eq_self, eq_of_test,
}
use burnisher.Base.Result.{Result, ok, err, ◌>>=◌, ◌>>◌, require, raise_if, for_each, >>=-eq-ok}
use burnisher.Base.Num.{
  Num, num, le, lt, num_eq, max, min, neg, abs, ◌+◌, ◌-◌, ◌*◌, ◌/◌, lt-le, lt_trans_le, le_trans_lt,
}

pub record Reg : Type 0 where
  pub op : String
  pub name : String
  pub callable : String
  pub function : String
  pub template_args : String
  pub path : String

-- The bodies under each name; the text around a body, which nothing reads, is left out.
abbrev pub Definitions : Type 0
Definitions = Dict String (List String)

-- a tree's source files, each with its lines
abbrev pub Files : Type 0
Files = Dict String (List String)

abbrev pub min_tokens : ℕ
min_tokens = 40

abbrev pub infra_users : ℕ
infra_users = 3

abbrev pub not_functions : List String
not_functions =
    "if" ∷ "for" ∷ "while" ∷ "switch" ∷ "return" ∷ "sizeof" ∷ "catch" ∷ "DISPATCH" ∷ "defined"
    ∷ "alignof" ∷ "decltype" ∷ "static_cast" ∷ "reinterpret_cast" ∷ "const_cast" ∷ "dynamic_cast"
    ∷ []

-- the words after a parameter list that `definitions` passes over
abbrev pub qualifiers : List String
qualifiers = "const" ∷ "noexcept" ∷ "override" ∷ "final" ∷ []

module _ {R : Type 0} ⦃n : Num R⦄ where
  abbrev pub similar : R
  similar = num 95 / num 100
