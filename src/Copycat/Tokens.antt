-- ===== src/Copycat/Tokens.antt =====
-- `_TOKEN` and `canonical_tokens` of eval/burnscore/copycat.py. A letter or digit outside ASCII is
-- taken as no word character.
use Prim.Native.Char.{code}
use text.Mathlib.Text.{starts_with}
use burnisher.Base.{
  ℕ, zero, suc, String, Bool, true, false, ◌||◌, Option, none, some, List, [], ◌∷◌, ◌++◌, map,
  if◌then◌else◌, find, ◌-◌,
}
use burnisher.Base.Eq.{◌==◌, string_eq, nat_eq}
use burnisher.Base.Dict.{elem}
use burnisher.Base.Texts.{take_text, text_length, between, one_more}
use burnisher.Copycat.Comments.{strip_comments}

abbrev pub keywords : List String
keywords =
    "if" ∷ "else" ∷ "for" ∷ "while" ∷ "do" ∷ "switch" ∷ "case" ∷ "default" ∷ "break" ∷ "continue"
    ∷ "return" ∷ "goto" ∷ "struct" ∷ "class" ∷ "enum" ∷ "union" ∷ "typedef" ∷ "using" ∷ "namespace"
    ∷ "template" ∷ "typename" ∷ "const" ∷ "constexpr" ∷ "static" ∷ "inline" ∷ "extern" ∷ "volatile"
    ∷ "auto" ∷ "void" ∷ "int" ∷ "float" ∷ "double" ∷ "char" ∷ "bool" ∷ "long" ∷ "short" ∷ "unsigned"
    ∷ "signed" ∷ "size_t" ∷ "true" ∷ "false" ∷ "nullptr" ∷ "new" ∷ "delete" ∷ "sizeof" ∷ "operator"
    ∷ "public" ∷ "private" ∷ "protected" ∷ "virtual" ∷ "override" ∷ "final" ∷ "this" ∷ "def"
    ∷ "elif" ∷ "in" ∷ "not" ∷ "and" ∷ "or" ∷ "is" ∷ "None" ∷ "True" ∷ "False" ∷ "import" ∷ "from"
    ∷ "as" ∷ "with" ∷ "try" ∷ "except" ∷ "finally" ∷ "raise" ∷ "yield" ∷ "lambda" ∷ "pass"
    ∷ "global" ∷ "nonlocal" ∷ "assert" ∷ "del" ∷ "async" ∷ "await" ∷ []

-- the operators, in the order in which the pattern tries them
abbrev pub operators : List String
operators =
    "<<=" ∷ ">>=" ∷ "<<<" ∷ ">>>" ∷ "->" ∷ "::" ∷ "++" ∷ "--" ∷ "<<" ∷ ">>" ∷ "<=" ∷ ">=" ∷ "=="
    ∷ "!=" ∷ "&&" ∷ "||" ∷ "-" ∷ "+" ∷ "*" ∷ "/" ∷ "%" ∷ "&" ∷ "|" ∷ "^" ∷ "!" ∷ "~" ∷ "<" ∷ ">"
    ∷ "=" ∷ "?" ∷ ":" ∷ ";" ∷ "," ∷ "." ∷ "(" ∷ ")" ∷ "{" ∷ "}" ∷ "[" ∷ "]" ∷ "#" ∷ []

-- What one match of the pattern is: the group that took part in it, with its text.
pub data Token : Type 0 where
  string_token : Token
  number_token ident_token op_token : String → Token

abbrev pub is_digit : ℕ → Bool
is_digit = between 48 57

abbrev pub is_letter : ℕ → Bool
is_letter c = between 65 90 c || between 97 122 c || c == 95

abbrev pub is_word : ℕ → Bool
is_word c = is_letter c || is_digit c

-- how many of the first characters pass
unfoldable pub span : (ℕ → Bool) → String → ℕ
span p String.[] = 0
span p (String.◌∷◌ c s) = let rest = suc (span p s) in if p (code c) then rest else 0

-- The characters up to the quote that closes a literal, that quote included, where the flag says
-- that a backslash came just before.
unfoldable pub literal_rest : Bool → ℕ → String → Option ℕ
literal_rest escaped quote String.[] = none
literal_rest escaped quote (String.◌∷◌ c s) =
    let after_escape = one_more (literal_rest false quote s) in
    let escape = one_more (literal_rest true quote s) in
    if escaped
    then after_escape
    else if code c == quote
    then some 1
    else if code c == 92
    then escape
    else after_escape

-- the token that begins a text, and its length
unfoldable pub next_token : String → Option (Token × ℕ)
unfolding span literal_rest take_text text_length
next_token String.[] = none
next_token (String.◌∷◌ c s) =
    let whole = String.◌∷◌ c s in
    let literal = if code c == 34 || code c == 39 then literal_rest false (code c) s else none in
    let number = suc (span (λ x. is_word x || x == 46) s) in
    let word = suc (span is_word s) in
    let operator : Option (Token × ℕ) = elim (find (starts_with whole) operators) [
      | none ↦ none
      | some op ↦ some (op_token op, text_length op)
    ] in
    elim literal [
      | some k ↦ some (string_token, suc k)
      | none ↦
          if is_digit (code c)
          then some (number_token (take_text number whole), number)
          else if is_letter (code c)
          then some (ident_token (take_text word whole), word)
          else operator
    ]

-- `_TOKEN.finditer`: the matches, left to right; the first argument counts the characters of the
-- last match that are still to be passed.
unfoldable pub find_tokens : ℕ → String → List Token
unfolding next_token
find_tokens k String.[] = []
find_tokens (suc k) (String.◌∷◌ c s) = find_tokens k s
find_tokens zero (String.◌∷◌ c s) = elim (next_token (String.◌∷◌ c s)) [
  | none ↦ find_tokens 0 s
  | some (token, k) ↦ token ∷ find_tokens (k - 1) s
]

-- identifiers, numbers and strings collapsed
unfoldable pub normalize_token : Token → String
normalize_token string_token = "S"
normalize_token (number_token n) = "N"
normalize_token (ident_token i) = if elem i keywords || starts_with i "__" then i else "I"
normalize_token (op_token op) = op

-- the tokens of each line, with the line's place
unfoldable pub tokens_from : ℕ → List String → List (String × ℕ)
unfolding find_tokens normalize_token
tokens_from li [] = []
tokens_from li (line ∷ lines) =
    map (λ t. (normalize_token t, li)) (find_tokens 0 line) ++ tokens_from (suc li) lines

-- each token with its owner: the two lists of the source, side by side
unfoldable pub canonical_tokens : List String → String → List (String × ℕ)
unfolding tokens_from strip_comments
canonical_tokens lines path = tokens_from 0 (strip_comments lines path)
