-- ===== src/Reregistration/Scan.antt =====
-- Reading source text in eval/burnscore/reregistration.py: `registrations`, `definitions`, `_match`,
-- `_tokens`. Word characters are those of Copycat/Tokens.
use Prim.Native.Char.{code}
use Prim.Native.String.{◌++◌ as text_append}
use text.Mathlib.Text.{starts_with}
use burnisher.Base.{
  ℕ, zero, suc, String, Bool, true, false, not, ◌&&◌, ◌||◌, Option, none, some, List, [], ◌∷◌, ◌++◌,
  map, if◌then◌else◌, or_else, ◌+◌, ◌-◌,
}
use burnisher.Base.Eq.{◌==◌, string_eq, nat_eq}
use burnisher.Base.Dict.{lookup, insert, elem}
use burnisher.Base.Texts.{
  ends_with, drop_text, take_text, text_length, strip_start, is_space, one_more, join,
}
use burnisher.Base.Sort.{sort_by, text_before}
use burnisher.Copycat.{is_code}
use burnisher.Copycat.Comments.{strip_comments}
use burnisher.Copycat.Tokens.{
  keywords, Token, number_token, is_letter, is_word, span, find_tokens, normalize_token,
}
use burnisher.Reregistration.{Reg, Definitions, Files, not_functions, qualifiers}

infixl 5 ◌>>=◌
abbrev ◌>>=◌ : {A B : Type 0} → Option A → (A → Option B) → Option B
none >>= next = none
some a >>= next = next a

unfoldable pub clean : List String → String → String
unfolding strip_comments join
clean lines path = join "\n" (strip_comments lines path)

-- What follows `t`, and what follows the spaces before it.
abbrev after : String → String → Option String
after t s = if starts_with s t then some (drop_text (text_length t) s) else none

abbrev then_after : String → String → Option String
then_after t s = after t (strip_start s)

-- the first characters that pass, one at least, and what follows them
abbrev some_of : (ℕ → Bool) → String → Option (String × String)
some_of p s = let k = span p s in if k == 0 then none else some (take_text k s, drop_text k s)

abbrev starts_word : String → Bool
starts_word String.[] = false
starts_word (String.◌∷◌ c s) = is_letter (code c)

abbrev identifier : String → Option (String × String)
identifier s = if starts_word s then some_of is_word s else none

abbrev quoted : String → Option (String × String)
quoted s = do
  s ← then_after "\"" s
  (t, s) ← some_of (λ c. not (c == 34)) s
  s ← after "\"" s
  some (t, s)

-- `"".join(s.split())`
unfoldable pub without_spaces : String → String
unfolding is_space
without_spaces String.[] = String.[]
without_spaces (String.◌∷◌ c s) =
    let rest = without_spaces s in if is_space c then rest else String.◌∷◌ c rest

-- `(?:<[^<>()]*>)?`: the template arguments, if there are any
abbrev template_args : String → Option (String × String)
template_args s =
    let t = strip_start s in
    if starts_with t "<"
    then (do
      s ← after "<" t
      let k = span (λ c. not (elem c (60 ∷ 62 ∷ 40 ∷ 41 ∷ []))) s
      rest ← after ">" (drop_text k s)
      some (text_append "<" (text_append (take_text k s) ">"), rest))
    else some ("", s)

-- one match of `_REG` at the start of a text: the registration, and what follows it
unfoldable pub match_registration : String → String → Option (Reg × String)
unfolding span take_text drop_text text_length strip_start without_spaces
match_registration path s = do
  s ← after "register_impl" s
  s ← then_after "<" s
  (_, s) ← some_of is_word (strip_start s)
  s ← then_after ">" s
  s ← then_after "(" s
  (op, s) ← quoted s
  s ← then_after "," s
  (name, s) ← quoted s
  s ← then_after "," s
  (function, s) ← identifier (strip_start s)
  (arguments, s) ← template_args s
  s ← then_after "," s
  some (
    record {
      op = op;
      name = name;
      callable = text_append function (without_spaces arguments);
      function = function;
      template_args = without_spaces arguments;
      path = path;
    },
    s,
  )

-- `_REG.finditer`, with the characters of the last match that are still to be passed
unfoldable pub find_registrations : String → ℕ → String → List Reg
unfolding match_registration text_length
find_registrations path k String.[] = []
find_registrations path (suc k) (String.◌∷◌ c s) = find_registrations path k s
find_registrations path zero (String.◌∷◌ c s) = elim (match_registration path (String.◌∷◌ c s)) [
  | none ↦ find_registrations path 0 s
  | some (r, rest) ↦ r ∷ find_registrations path (text_length s - text_length rest) s
]

abbrev is_source : String → Bool
is_source path = is_code path && not (ends_with path ".py")

abbrev sorted_files : Files → Files
sorted_files = sort_by (λ (p q : String × List String). text_before p.0 q.0)

abbrev read_registrations : Files → List Reg
read_registrations [] = []
read_registrations ((path, lines) ∷ files) =
    (if is_source path then find_registrations path 0 (clean lines path) else [])
    ++ read_registrations files

unfoldable pub registrations : Files → List Reg
unfolding find_registrations clean is_code ends_with
registrations files = read_registrations (sorted_files files)

-- The bracket's depth, the open quote, whether it is escaped, and whether the bracket is closed.
pub record Nesting : Type 0 where
  pub depth : ℕ
  pub quote : Option ℕ
  pub escaped : Bool
  pub closed : Bool

abbrev pub outside : ℕ → Nesting
outside depth = record { depth = depth; quote = none; escaped = false; closed = false }

abbrev pub nesting_step : ℕ → ℕ → Nesting → ℕ → Nesting
nesting_step opener closer now x = elim now.quote [
  | some q ↦
      if now.escaped
      then record now { escaped = false }
      else if x == 92
      then record now { escaped = true }
      else if x == q
      then record now { quote = none }
      else now
  | none ↦
      if x == 34 || x == 39
      then record now { quote = some x }
      else if x == opener
      then record now { depth = suc now.depth }
      else if x == closer
      then (if now.depth == 1
          then record now { closed = true }
          else record now { depth = now.depth - 1 })
      else now
]

unfoldable pub match_from : ℕ → ℕ → Nesting → String → Option ℕ
match_from opener closer now String.[] = none
match_from opener closer now (String.◌∷◌ c s) =
    let next = nesting_step opener closer now (code c) in
    let rest = one_more (match_from opener closer next s) in if next.closed then some 0 else rest

-- `_match` from the opening character on: where the bracket closes
unfoldable pub match_bracket : ℕ → ℕ → String → Option ℕ
unfolding match_from
match_bracket opener closer = match_from opener closer (outside 0)

-- `(const|noexcept|override|final)\b` at the start of a text, passed over
abbrev after_qualifier : List String → String → Option String
after_qualifier [] s = none
after_qualifier (q ∷ qs) s =
    let rest = after_qualifier qs s in
    elim (after q s) [ none ↦ rest | some t ↦ if span is_word t == 0 then some t else rest ]

-- The loop over the qualifiers. Each is a character at least, so the text's length is fuel enough.
unfoldable pub skip_qualifiers : ℕ → String → String
unfolding span
skip_qualifiers zero s = strip_start s
skip_qualifiers (suc fuel) s = elim (after_qualifier qualifiers (strip_start s)) [
  | none ↦ strip_start s
  | some t ↦ skip_qualifiers fuel t
]

-- the body of the function of this name whose parameter list begins a text
unfoldable pub body_at : String → String → Option String
unfolding match_bracket skip_qualifiers drop_text take_text text_length strip_start
body_at name s = if elem name not_functions || elem name keywords then none else (do
  close ← match_bracket 40 41 s
  let t = skip_qualifiers (text_length s) (drop_text (close + 1) s)
  _ ← after "{" t
  end ← match_bracket 123 125 t
  some (take_text (end - 1) (drop_text 1 t)))

-- `_DEF` at the start of a text: the name, and the text from its parameter list on
abbrev match_call : Bool → String → Option (String × String)
match_call in_word s =
    if in_word
    then none
    else (do (name, s) ← identifier s; let t = strip_start s; _ ← after "(" t; some (name, t))

abbrev with_body : String → Option String → List (String × String) → List (String × String)
with_body name none rest = rest
with_body name (some body) rest = (name, body) ∷ rest

-- `_DEF.finditer`, each match with its body; `in_word` says that a word character came before.
unfoldable pub find_bodies : ℕ → Bool → String → List (String × String)
unfolding body_at
find_bodies k in_word String.[] = []
find_bodies (suc k) in_word (String.◌∷◌ c s) = find_bodies k (is_word (code c)) s
find_bodies zero in_word (String.◌∷◌ c s) = elim (match_call in_word (String.◌∷◌ c s)) [
  | none ↦ find_bodies 0 (is_word (code c)) s
  | some (name, t) ↦
      with_body name (body_at name t)
        (find_bodies (text_length s + 1 - text_length t) (is_word (code c)) s)
]

abbrev add_bodies : List (String × String) → Definitions → Definitions
add_bodies [] defs = defs
add_bodies ((name, body) ∷ found) defs =
    add_bodies found (insert name (or_else (lookup name defs) [] ++ body ∷ []) defs)

abbrev read_definitions : Files → Definitions → Definitions
read_definitions [] defs = defs
read_definitions ((path, lines) ∷ files) defs =
    read_definitions files
      (if is_source path then add_bodies (find_bodies 0 false (clean lines path)) defs else defs)

unfoldable pub definitions : Files → Definitions
unfolding find_bodies clean is_code ends_with
definitions files = read_definitions (sorted_files files) []

-- `_IDENT.findall`
unfoldable pub identifiers : ℕ → Bool → String → List String
unfolding span take_text text_length
identifiers k in_word String.[] = []
identifiers (suc k) in_word (String.◌∷◌ c s) = identifiers k (is_word (code c)) s
identifiers zero in_word (String.◌∷◌ c s) =
    if is_letter (code c) && not in_word
    then take_text (suc (span is_word s)) (String.◌∷◌ c s) ∷ identifiers (span is_word s) true s
    else identifiers 0 (is_word (code c)) s

-- the constants are kept
unfoldable pub structure_token : Token → String
unfolding normalize_token
structure_token (number_token number) = number
structure_token token = normalize_token token

unfoldable pub structure_tokens : String → List String
unfolding find_tokens structure_token
structure_tokens s = map structure_token (find_tokens 0 s)
