-- ===== src/Reregistration/Judge.antt =====
-- `infrastructure`, `kernel_tokens` and `judge` of eval/burnscore/reregistration.py, and the outcome
-- that scripts/reregistration_guard.py writes.
use Prim.Native.Nat.{◌+◌ as plus, ◌*◌ as times}
use Prim.Native.String.{◌++◌ as text_append}
use text.Mathlib.Text.{starts_with}
use burnisher.Base.{
  String, Bool, true, false, not, ◌&&◌, ◌||◌, Option, none, some, List, [], ◌∷◌, ◌++◌, map,
  if◌then◌else◌, ltb, leb, length, is_empty, any, keep, find, or_else,
}
use burnisher.Base.Eq.{◌==◌, string_eq, nat_eq}
use burnisher.Base.Dict.{lookup, has_key, keys, elem}
use burnisher.Base.Num.{Num, num, le, lt, ◌/◌}
use burnisher.Base.Eq.{pair_eq}
use burnisher.Base.Texts.{join}
use burnisher.Base.Sort.{sorted_texts}
use burnisher.Copycat.{is_code}
use burnisher.Copycat.Fingerprint.{set_of}
use burnisher.Reregistration.{Reg, Definitions, Files, min_tokens, infra_users, similar}
use burnisher.Reregistration.Scan.{registrations, definitions, identifiers, structure_tokens}
use burnisher.Reregistration.Similar.{matching}

abbrev pub bodies : String → Definitions → List String
bodies function defs = or_else (lookup function defs) []

-- whether a function calls another that is defined
unfoldable pub is_caller : Definitions → String → String → Bool
unfolding identifiers
is_caller defs callee function =
    elem callee (identifiers 0 false (join " " (bodies function defs))) && not (callee == function)

-- what many registered kernels call
unfoldable pub infrastructure : List Reg → Definitions → List String
unfolding is_caller
infrastructure regs defs =
    keep
      (λ callee.
        leb infra_users
          (length (keep (is_caller defs callee) (set_of (map (λ (r : Reg). r.function) regs)))))
      (keys defs)

-- the tokens of each callee that is defined, met first here, and no infrastructure
unfoldable pub callee_tokens : Definitions → List String → List String → List String → List String
unfolding structure_tokens
callee_tokens defs infra seen [] = []
callee_tokens defs infra seen (callee ∷ callees) =
    let fresh = has_key callee defs && not (elem callee seen) && not (elem callee infra) in
    (if fresh then structure_tokens (join " " (bodies callee defs)) else [])
    ++ callee_tokens defs infra (if fresh then callee ∷ seen else seen) callees

-- the function's body, then the body of each kernel or helper that it calls
unfoldable pub kernel_tokens : String → Definitions → List String → List String
unfolding callee_tokens structure_tokens identifiers
kernel_tokens function defs infra =
    let entries = bodies function defs in
    let body = join " " entries in
    if is_empty entries
    then []
    else structure_tokens body
      ++ callee_tokens defs infra (function ∷ []) (identifiers 0 false body)

pub data FindingKind : Type 0 where
  same_callable same_kernel : FindingKind

pub record Finding (R : Type 0) : Type 0 where
  pub registration : Reg
  pub kind : FindingKind
  pub matches : Reg
  pub similarity : R

pub data Outcome : Type 0 where
  reregistered clear cleared : Outcome

pub record Verdict (R : Type 0) : Type 0 where
  pub outcome : Outcome
  pub findings : List (Finding R)
  pub new_registrations : List String
  pub candidate_names : List String

-- each callable on main once, as first registered, with its kernel's tokens
unfoldable pub signatures :
    Definitions → List String → List String → List Reg → List (Reg × List String)
unfolding kernel_tokens
signatures defs infra seen [] = []
signatures defs infra seen (b ∷ regs) =
    let rest = signatures defs infra (b.callable ∷ seen) regs in
    if elem b.callable seen then rest else (b, kernel_tokens b.function defs infra) ∷ rest

-- both have template arguments, and they differ
abbrev pub other_arguments : Reg → Reg → Bool
other_arguments r b =
    not (r.template_args == "")
    && not (b.template_args == "")
    && not (r.template_args == b.template_args)

-- `SequenceMatcher.ratio`, which is 1.0 where both lists are empty
unfoldable pub ratio : {R : Type 0} ⦃n : Num R⦄ → List String → List String → R
ratio a b =
    if is_empty a && is_empty b
    then num 1
    else num (times 2 (matching a b)) / num (plus (length a) (length b))

-- the kernel on main that is most like a new one, the first of equals; `similarity` is not rounded
unfoldable pub most_similar :
    {R : Type 0} ⦃n : Num R⦄
    → Reg
    → List String
    → List (Reg × List String)
    → Option (R × Reg)
    → Option (R × Reg)
most_similar r toks [] best = best
most_similar r toks ((b, btoks) ∷ sigs) best =
    let similarity = ratio toks btoks in
    let is_better : Bool = elim best [ none ↦ true | some (most, _) ↦ lt most similarity ] in
    let skipped = is_empty btoks || other_arguments r b in
    most_similar r toks sigs (if not skipped && is_better then some (similarity, b) else best)

-- what is known of main: its registrations, its common helpers, the signatures
pub record Known : Type 0 where
  pub regs : List Reg
  pub infra : List String
  pub signed : List (Reg × List String)

unfoldable pub known : Files → Known
unfolding registrations definitions infrastructure signatures
known files =
    let regs = registrations files in
    let defs = definitions files in
    let infra = infrastructure regs defs in
    record { regs = regs; infra = infra; signed = signatures defs infra [] regs }

-- `tree`: the runtime's source files, of those that git shows
unfoldable pub tree : List (String × Option (List String)) → Files
unfolding is_code
tree [] = []
tree ((path, none) ∷ files) = tree files
tree ((path, some lines) ∷ files) =
    let rest = tree files in
    let is_runtime = any (starts_with path) ("src/" ∷ "include/" ∷ "tools/" ∷ []) in
    if is_runtime && is_code path then (path, lines) ∷ rest else rest

abbrev is_reregistered : Outcome → Bool
is_reregistered reregistered = true
is_reregistered _ = false

-- the registrations that main does not have under the same operation and name
unfoldable pub new_registrations : List Reg → List Reg → List Reg
new_registrations base regs =
    keep (λ (r : Reg). not (any (λ (b : Reg). b.op == r.op && b.name == r.name) base)) regs

module _ (R : Type 0) ⦃n : Num R⦄ where
  abbrev pub kernel_finding : Reg → Option (R × Reg) → Option (Finding R)
  kernel_finding r none = none
  kernel_finding r (some (similarity, b)) =
      if le similar similarity
      then some
          (record { registration = r; kind = same_kernel; matches = b; similarity = similarity })
      else none

  -- what is found of one new registration
  unfoldable pub finding_for : Known → Definitions → Reg → Option (Finding R)
  unfolding kernel_tokens most_similar
  finding_for main defs r =
      let toks = kernel_tokens r.function defs main.infra in
      let most = most_similar r toks main.signed none in
      elim (find (λ (b : Reg). b.callable == r.callable) main.regs) [
        | some b ↦
            some
              (record { registration = r; kind = same_callable; matches = b; similarity = num 1 })
        | none ↦
            if any (λ (b : Reg). b.function == r.function) main.regs || ltb (length toks) min_tokens
            then none
            else kernel_finding r most
      ]

  unfoldable pub findings_for : Known → Definitions → List Reg → List (Finding R)
  unfolding finding_for
  findings_for main defs [] = []
  findings_for main defs (r ∷ regs) =
      let rest = findings_for main defs regs in
      elim (finding_for main defs r) [ none ↦ rest | some f ↦ f ∷ rest ]

  unfoldable pub judge : Files → Files → Verdict R
  unfolding known new_registrations findings_for registrations definitions
  judge candidate_files base_files =
      let new = new_registrations (registrations base_files) (registrations candidate_files) in
      let findings = findings_for (known base_files) (definitions candidate_files) new in
      record {
        outcome = if is_empty findings then clear else reregistered;
        findings = findings;
        new_registrations = map (λ (r : Reg). text_append r.op (text_append "/" r.name)) new;
        candidate_names = sorted_texts (set_of (map (λ (r : Reg). r.name) new));
      }

  -- the guard's `main`, on the files at the head and at the base
  unfoldable pub main :
      Bool → List (String × Option (List String)) → List (String × Option (List String)) → Verdict R
  unfolding judge tree
  main is_cleared head base =
      let verdict = judge (tree head) (tree base) in
      if is_cleared && is_reregistered verdict.outcome
      then record verdict { outcome = cleared }
      else verdict
