-- ===== src/Base/Texts.antt =====
-- Python's operations on texts, by characters: slices, `find`, `strip`, `split`, `lower`.
use Prim.Native.Char.{Char, code}
use Prim.Native.String.{◌++◌ as text_append}
use text.Mathlib.Text.{starts_with}
use burnisher.Base.{
  ℕ, zero, suc, String, Bool, ◌&&◌, ◌||◌, Option, none, some, List, [], ◌∷◌, if◌then◌else◌, leb,
  is_empty, any,
}
use burnisher.Base.Eq.{◌==◌, string_eq, nat_eq}

-- what follows the first `k` characters: `s[k:]`
unfoldable pub drop_text : ℕ → String → String
drop_text zero s = s
drop_text (suc k) String.[] = String.[]
drop_text (suc k) (String.◌∷◌ c s) = drop_text k s

-- `s[:k]`
unfoldable pub take_text : ℕ → String → String
take_text zero s = String.[]
take_text (suc k) String.[] = String.[]
take_text (suc k) (String.◌∷◌ c s) = String.◌∷◌ c (take_text k s)

-- `len(s)`
unfoldable pub text_length : String → ℕ
text_length String.[] = 0
text_length (String.◌∷◌ c s) = suc (text_length s)

-- `s.endswith(t)`
unfoldable pub ends_with : String → String → Bool
ends_with String.[] t = String.[] == t
ends_with (String.◌∷◌ c s) t = let rest = ends_with s t in String.◌∷◌ c s == t || rest

abbrev pub one_more : Option ℕ → Option ℕ
one_more none = none
one_more (some k) = some (suc k)

-- `s.find(t)`, where `none` is -1
unfoldable pub find_text : String → String → Option ℕ
find_text t String.[] = if String.[] == t then some 0 else none
find_text t (String.◌∷◌ c s) =
    let rest = one_more (find_text t s) in if starts_with (String.◌∷◌ c s) t then some 0 else rest

-- The character at the place where `c` stands in the first text, taken from the second.
unfoldable pub translate : String → String → Char → Char
translate (String.◌∷◌ x xs) (String.◌∷◌ y ys) c =
    let rest = translate xs ys c in if code x == code c then y else rest
translate _ _ c = c

unfoldable pub map_text : (Char → Char) → String → String
map_text f String.[] = String.[]
map_text f (String.◌∷◌ c s) = String.◌∷◌ (f c) (map_text f s)

-- `s.lower()`, of the letters that a login can have
unfoldable pub lower : String → String
unfolding map_text translate
lower = map_text (translate "ABCDEFGHIJKLMNOPQRSTUVWXYZ" "abcdefghijklmnopqrstuvwxyz")

abbrev pub between : ℕ → ℕ → ℕ → Bool
between a b c = leb a c && leb c b

-- `c.isspace()`
unfoldable pub is_space : Char → Bool
is_space c =
    between 9 13 (code c)
    || between 28 32 (code c)
    || between 8192 8202 (code c)
    || any (λ k. k == code c) (133 ∷ 160 ∷ 5760 ∷ 8232 ∷ 8233 ∷ 8239 ∷ 8287 ∷ 12288 ∷ [])

-- `s.lstrip()`
unfoldable pub strip_start : String → String
unfolding is_space
strip_start String.[] = String.[]
strip_start (String.◌∷◌ c s) =
    let rest = strip_start s in if is_space c then rest else String.◌∷◌ c s

unfoldable pub strip_end : String → String
unfolding is_space
strip_end String.[] = String.[]
strip_end (String.◌∷◌ c s) =
    let rest = strip_end s in
    if is_space c && rest == String.[] then String.[] else String.◌∷◌ c rest

-- `s.strip()`
unfoldable pub strip : String → String
unfolding strip_start strip_end
strip s = strip_end (strip_start s)

-- a character put before the first of the texts
abbrev pub onto_first : Char → List String → List String
onto_first c [] = String.◌∷◌ c String.[] ∷ []
onto_first c (s ∷ ss) = String.◌∷◌ c s ∷ ss

-- `s.split(sep)`, for a separator of one character
unfoldable pub split_on : Char → String → List String
split_on sep String.[] = String.[] ∷ []
split_on sep (String.◌∷◌ c s) =
    let rest = split_on sep s in if code c == code sep then String.[] ∷ rest else onto_first c rest

abbrev is_break : ℕ → Bool
is_break c = between 10 13 c || between 28 30 c || any (λ k. k == c) (133 ∷ 8232 ∷ 8233 ∷ [])

-- `s.splitlines()`; a line feed after a carriage return ends the same line
unfoldable pub split_lines : String → List String
split_lines String.[] = []
split_lines (String.◌∷◌ c s) =
    let rest = split_lines s in
    if code c == 13 && starts_with s "\n"
    then rest
    else if is_break (code c)
    then String.[] ∷ rest
    else onto_first c rest

-- `sep.join(ss)`
unfoldable pub join : String → List String → String
join sep [] = ""
join sep (s ∷ ss) =
    let rest = join sep ss in if is_empty ss then s else text_append s (text_append sep rest)
