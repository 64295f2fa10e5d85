-- ===== src/Copycat/Fingerprint.antt =====
-- Fingerprints of eval/burnscore/copycat.py: k-grams, winnowing, and what a submission adds and
-- touches. The parameter is the digest of a text (hashlib's blake2b of 8 bytes, in hexadecimal).
use burnisher.Base.{ℕ, String, List, [], ◌∷◌, map, if◌then◌else◌, ltb, leb, length, take, keep}
use burnisher.Base.Eq.{string_eq, nat_eq}
use burnisher.Base.Dict.{Dict, keys, elem, adjoin}
use burnisher.Base.Texts.{join}
use burnisher.Base.Sort.{text_before, sorted_texts}
use burnisher.Copycat.{k_tokens, window, boilerplate_df, is_code, parse_diff, FileDiff}
use burnisher.Copycat.Tokens.{canonical_tokens}

-- the runs of `n` neighbours: `xs[i:i + n] for i in range(len(xs) - n + 1)`, for a positive `n`
unfoldable pub windows {ℓ} : {A : Type ℓ} → ℕ → List A → List (List A)
windows n [] = []
windows n (x ∷ xs) =
    let rest = windows n xs in if leb n (length (x ∷ xs)) then take n (x ∷ xs) ∷ rest else []

-- `min(texts)`, of one text at least
unfoldable pub min_text : String → List String → String
min_text m [] = m
min_text m (x ∷ xs) = min_text (if text_before x m then x else m) xs

abbrev pub least : List String → String
least [] = ""
least (x ∷ xs) = min_text x xs

-- `set(xs)`, `s | t`
abbrev pub union : List String → List String → List String
union s [] = s
union s (x ∷ xs) = union (adjoin x s) xs

abbrev pub set_of : List String → List String
set_of xs = union [] xs

unfoldable pub winnow : List String → List String
unfolding windows min_text
winnow hashes =
    if leb (length hashes) window then set_of hashes else set_of (map least (windows window hashes))

-- how many of the sets hold `h`
abbrev pub holders : String → List (List String) → ℕ
holders h sets = length (keep (elem h) sets)

abbrev pub union_all : List (List String) → List String
union_all [] = []
union_all (s ∷ sets) = union s (union_all sets)

-- what more than `limit` of the submissions add
unfoldable pub boilerplate : List (List String) → List String
boilerplate sets = keep (λ h. ltb boilerplate_df (holders h sets)) (set_of (union_all sets))

pub record Fingerprint : Type 0 where
  pub added : List String
  pub base : List String
  pub paths : List String

abbrev pub first : String × ℕ → String
first (t, li) = t

module _ (hash : String → String) where
  unfoldable pub kgrams : List String → List String
  unfolding windows join
  kgrams tokens = map (λ w. hash (join " " w)) (windows k_tokens tokens)

  abbrev pub tokens_of : List String → String → List String
  tokens_of lines path = map first (canonical_tokens lines path)

  unfoldable pub added_runs : String → List (List String) → List String → List String
  unfolding winnow kgrams
  added_runs path [] added = added
  added_runs path (run ∷ runs) added =
      added_runs path runs (union added (winnow (kgrams (tokens_of run path))))

  unfoldable pub fingerprint_files :
      Dict String FileDiff → List String × List String → List String × List String
  unfolding added_runs kgrams
  fingerprint_files [] (added, base) = (added, base)
  fingerprint_files ((path, f) ∷ files) (added, base) =
      fingerprint_files files
        (added_runs path f.added added, union base (kgrams (tokens_of f.before path)))

  -- of the lines of a diff
  unfoldable pub fingerprint_diff : List String → Fingerprint
  unfolding fingerprint_files parse_diff
  fingerprint_diff lines =
      let files = parse_diff lines in
      let (added, base) = fingerprint_files files ([], []) in
      record { added = added; base = base; paths = sorted_texts (keys files) }

  -- every k-gram of a tree's source files, each with its lines
  unfoldable pub fingerprint_sources : Dict String (List String) → List String
  unfolding kgrams is_code
  fingerprint_sources [] = []
  fingerprint_sources ((path, lines) ∷ files) =
      let rest = fingerprint_sources files in
      if is_code path then union rest (kgrams (tokens_of lines path)) else rest
