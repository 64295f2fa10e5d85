-- ===== src/Base/TextLaws.antt =====
-- The laws of slices and of `find` on texts.
use Prim.Native.Char.{Char}
use Prim.Native.String.{◌++◌ as text_append}
use text.Mathlib.Text.{starts_with}
use text.Mathlib.TextEquality.{starts_with_iff}
use text.Mathlib.TextLemmas.{append_assoc, nil-append, cons-append}
use burnisher.Base.{
  ℕ, zero, suc, String, ◌≤◌, ◌≡◌, refl, sym, ap, ◌∙◌, inl, inr, Bool, true, false, Option, none,
  some, arith, if◌then◌else◌, Bool-cases, ◌+◌, ◌-◌,
}
use burnisher.Base.Eq.{◌==◌, string_eq, nat_eq}
use burnisher.Base.Texts.{drop_text, take_text, text_length, find_text, one_more}

pub length-take_text : (k : ℕ) (s : String) → text_length (take_text k s) ≤ k
unfolding take_text text_length
length-take_text zero s = omega arith
length-take_text (suc k) String.[] = omega arith
length-take_text (suc k) (String.◌∷◌ c s) = omega (arith, length-take_text k s)

pub length-drop_text : (k : ℕ) (s : String) → text_length (drop_text k s) ≡ text_length s - k
unfolding drop_text text_length
length-drop_text zero s = omega arith
length-drop_text (suc k) String.[] = omega arith
length-drop_text (suc k) (String.◌∷◌ c s) = omega (arith, length-drop_text k s)

pub length-text_append :
    (s t : String) → text_length (text_append s t) ≡ text_length s + text_length t
unfolding text_length
length-text_append String.[] t = rw (nil-append t) (omega arith)
length-text_append (String.◌∷◌ c s) t =
    rw (cons-append c s t) (omega (arith, length-text_append s t))

take-drop : (k : ℕ) (s : String) → text_append (take_text k s) (drop_text k s) ≡ s
unfolding take_text drop_text
take-drop zero s = nil-append s
take-drop (suc k) String.[] = nil-append String.[]
take-drop (suc k) (String.◌∷◌ c s) =
    cons-append c (take_text k s) (drop_text k s) ∙ ap (λ t. String.◌∷◌ c t) (take-drop k s)

-- A text is no shorter than what it starts with.
pub starts_with-length : (s t : String) → starts_with s t ≡ true → text_length t ≤ text_length s
starts_with-length s t h =
    let (u, e) = (starts_with_iff s t).0 h in
    omega (arith, length-text_append t u, ap text_length e)

-- A text starts with what any of its beginnings starts with.
pub starts_with-take_text :
    (k : ℕ) (s t : String) → starts_with (take_text k s) t ≡ true → starts_with s t ≡ true
starts_with-take_text k s t h =
    let (u, e) = (starts_with_iff (take_text k s) t).0 h in
    (starts_with_iff s t).1 (
      text_append u (drop_text k s),
      sym (append_assoc t u (drop_text k s))
          ∙ ap (λ x. text_append x (drop_text k s)) e
          ∙ take-drop k s,
    )

not_before :
    (c : Char) (s t : String) (k : ℕ)
    → starts_with (String.◌∷◌ c s) t ≡ false
    → starts_with (String.◌∷◌ c (take_text k s)) t ≡ false
unfolding take_text
not_before c s t k h = elim (Bool-cases (starts_with (String.◌∷◌ c (take_text k s)) t)) [
  | inl e ↦ ground (arith, starts_with-take_text (suc k) (String.◌∷◌ c s) t e, h)
  | inr e ↦ e
]

-- Where a text that is no empty one is found, it ends within the text.
pub find_text-bound :
    (t s : String) (k : ℕ)
    → (String.[] == t) ≡ false
    → find_text t s ≡ some k
    → k + text_length t ≤ text_length s
unfolding find_text text_length
find_text-bound t String.[] k n h = ground (arith, n, h)
find_text-bound t (String.◌∷◌ c s) k n h =
    go (starts_with (String.◌∷◌ c s) t) refl (find_text t s) (λ j e. find_text-bound t s j n e) h
  where
    go :
        (b : Bool)
        → starts_with (String.◌∷◌ c s) t ≡ b
        → (o : Option ℕ) → ((j : ℕ) → o ≡ some j → j + text_length t ≤ text_length s)
        → (if b then some 0 else one_more o) ≡ some k
        → k + text_length t ≤ suc (text_length s)
    go true e o rec q =
        let l = starts_with-length (String.◌∷◌ c s) t e in let z : 0 ≡ k = cc in omega (arith, l, z)
    go false e none rec q = cc
    go false e (some j) rec q = let z : suc j ≡ k = cc in omega (arith, rec j refl, z)

-- A text does not occur before the first place where it is found.
pub find_text-take_text :
    (t s : String) (k : ℕ)
    → (String.[] == t) ≡ false
    → find_text t s ≡ some k
    → find_text t (take_text k s) ≡ none
unfolding find_text take_text
find_text-take_text t String.[] k n h = ground (arith, n, h)
find_text-take_text t (String.◌∷◌ c s) zero n h = rw n refl
find_text-take_text t (String.◌∷◌ c s) (suc k) n h =
    let step : (starts_with (String.◌∷◌ c s) t ≡ false) × (find_text t s ≡ some k) =
      go (starts_with (String.◌∷◌ c s) t) refl (find_text t s) refl h in
    rw (not_before c s t k (step.0), find_text-take_text t s k n (step.1)) refl
  where
    go :
        (b : Bool)
        → starts_with (String.◌∷◌ c s) t ≡ b
        → (o : Option ℕ) → find_text t s ≡ o
        → (if b then some 0 else one_more o) ≡ some (suc k)
        → (starts_with (String.◌∷◌ c s) t ≡ false) × (find_text t s ≡ some k)
    go true e o p q = ground arith
    go false e none p q = ground arith
    go false e (some j) p q = (e, p ∙ (ground arith))

-- What does not occur in a text does not occur in its beginnings.
pub absent-take_text :
    (t s : String) (k : ℕ)
    → (String.[] == t) ≡ false
    → find_text t s ≡ none
    → find_text t (take_text k s) ≡ none
unfolding find_text take_text
absent-take_text t s zero n h = rw n refl
absent-take_text t String.[] (suc k) n h = rw n refl
absent-take_text t (String.◌∷◌ c s) (suc k) n h =
    let step : (starts_with (String.◌∷◌ c s) t ≡ false) × (find_text t s ≡ none) =
      go (starts_with (String.◌∷◌ c s) t) refl (find_text t s) refl h in
    rw (not_before c s t k (step.0), absent-take_text t s k n (step.1)) refl
  where
    go :
        (b : Bool)
        → starts_with (String.◌∷◌ c s) t ≡ b
        → (o : Option ℕ) → find_text t s ≡ o
        → (if b then some 0 else one_more o) ≡ none
        → (starts_with (String.◌∷◌ c s) t ≡ false) × (find_text t s ≡ none)
    go true e o p q = ground arith
    go false e none p q = (e, p)
    go false e (some j) p q = ground arith
