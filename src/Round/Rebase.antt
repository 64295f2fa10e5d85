-- ===== src/Round/Rebase.antt =====
-- The labels that a round of eval/round.py leaves on the submissions it did not pick.
use burnisher.Base.{
  ℕ, String, ◌≡◌, refl, sym, subst, ◌∙◌, ◌⊎◌, inl, inr, Bool, true, false, not, ◌&&◌, ◌||◌, some,
  List, [], ◌∷◌, ◌++◌, arith, if◌then◌else◌, any, keep, In, here, there, In-cons, keep-In,
  In-append_right, or_else,
}
use burnisher.Base.Eq.{◌==◌, string_eq, nat_eq}
use burnisher.Base.Dict.{lookup, elem, In-elem, lookup-insert, eq_of_test}
use burnisher.Base.Num.{Num}
use text.Mathlib.Text.{starts_with}
use burnisher.PrBot.{relabel}
use burnisher.PrBot.World.{World, labels_at, set_label, comment, write_label, pure, ◌>>◌}
use burnisher.PrBot.Evaluate.{EvalResult}
use burnisher.Round.{needs_rebase, is_loser, rebase_losers}

-- no outcome is claimed but that a rebase is needed
pub IsReset : List String → Type 0
IsReset labels =
    (elem needs_rebase labels ≡ true)
    × ((l : String) → In l labels → starts_with l "burnish:" ≡ true → l ≡ needs_rebase)

elem-snoc : (k : String) (xs : List String) → elem k (xs ++ k ∷ []) ≡ true
elem-snoc k xs = In-elem (In-append_right xs here)

In-snoc : (l k : String) (xs : List String) → In l (xs ++ k ∷ []) → (l ≡ k) ⊎ In l xs
In-snoc l k [] i = In-cons i
In-snoc l k (x ∷ xs) i = go (In-cons i) (In-snoc l k xs)
  where
    skip : (l ≡ k) ⊎ In l xs → (l ≡ k) ⊎ In l (x ∷ xs)
    skip (inl e) = inl e
    skip (inr j) = inr (there j)

    go :
        (l ≡ x) ⊎ In l (xs ++ k ∷ [])
        → (In l (xs ++ k ∷ []) → (l ≡ k) ⊎ In l xs)
        → (l ≡ k) ⊎ In l (x ∷ xs)
    go (inl e) rec = inr (subst (λ z. In l (z ∷ xs)) e here)
    go (inr j) rec = skip (rec j)

relabel-IsReset : (old : List String) → IsReset (relabel needs_rebase old)
unfolding relabel IsReset
relabel-IsReset old = go (elem needs_rebase kept) refl
  where
    kept : List String
    kept = keep (λ l. not (starts_with l "burnish:") || l == needs_rebase) old

    of_kept : (l : String) → In l kept → starts_with l "burnish:" ≡ true → l ≡ needs_rebase
    of_kept l i p =
        let (_, h) = keep-In (λ l. not (starts_with l "burnish:") || l == needs_rebase) old i in
        eq_of_test l needs_rebase (ground arith)

    go :
        (b : Bool)
        → elem needs_rebase kept ≡ b
        → IsReset (if b then kept else kept ++ needs_rebase ∷ [])
    go true e = (e, of_kept)
    go false e = (
      elem-snoc needs_rebase kept,
      λ l i p. elim (In-snoc l needs_rebase kept i) [ inl q ↦ q | inr j ↦ of_kept l j p ],
    )

-- What the round leaves of the labels `old` of a pull request, when `asked` says if it is one of
-- those asked to rebase.
abbrev Left : Bool → List String → List String → Type 0
Left asked old new = (asked ≡ true → IsReset new) × (asked ≡ false → new ≡ old)

Left-trans : (a b : Bool) (x y z : List String) → Left a x y → Left b y z → Left (a || b) x z
Left-trans true true x y z h k = (λ e. k.0 refl, λ e. cc)
Left-trans true false x y z h k = (λ e. subst IsReset (sym (k.1 refl)) (h.0 refl), λ e. cc)
Left-trans false b x y z h k = (k.0, λ e. k.1 e ∙ h.1 refl)

write_label-Left :
    (k j : ℕ) (w : World)
    → Left (j == k) (labels_at w k) (labels_at (write_label j needs_rebase w).1 k)
write_label-Left k j w =
    subst (λ o. Left (j == k) (labels_at w k) (or_else o []))
      (sym (lookup-insert j k (relabel needs_rebase (labels_at w j)) w.labels)) (go (j == k))
  where
    go :
        (b : Bool)
        → Left b (labels_at w k) (
            or_else
              (if b then some (relabel needs_rebase (labels_at w j)) else lookup k w.labels)
              [])
    go true = (λ e. relabel-IsReset (labels_at w j), λ e. cc)
    go false = (λ e. cc, λ e. refl)

module _ {R : Type 0} ⦃n : Num R⦄ where
  abbrev asks : ℕ → ℕ → EvalResult R → Bool
  asks winner k r = is_loser winner r && r.pr == k

  -- In a round that is not a dry run, once a winner is picked every other pull request whose result
  -- would have paid is left with the needs-rebase label and no other label of the bot's, and the
  -- labels of a pull request that is the winner or has no paying result are untouched.
  pub rebase_losers_lem :
      (winner k : ℕ) (scored : List (EvalResult R)) (w : World)
      → (any (λ r. is_loser winner r && r.pr == k) scored ≡ true
          → IsReset (labels_at (rebase_losers false winner scored w).1 k))
        × (any (λ r. is_loser winner r && r.pr == k) scored ≡ false
            → labels_at (rebase_losers false winner scored w).1 k ≡ labels_at w k)
  unfolding rebase_losers set_label comment
  rebase_losers_lem winner k [] w = (λ e. cc, λ e. refl)
  rebase_losers_lem winner k (r ∷ rs) w = go (is_loser winner r) (rebase_losers_lem winner k rs)
    where
      go :
          (b : Bool)
          → ((w : World)
              → Left
                  (any (asks winner k) rs)
                  (labels_at w k)
                  (labels_at (rebase_losers false winner rs w).1 k))
          → Left (b && r.pr == k || any (asks winner k) rs) (labels_at w k) (
              labels_at
                (((if b then set_label false r.pr needs_rebase >> comment false r.pr else pure tt)
                    >> rebase_losers false winner rs)
                  w).1
                k)
      go false rec = rec w
      go true rec =
          Left-trans (r.pr == k) (any (asks winner k) rs) (labels_at w k)
            (labels_at (write_label r.pr needs_rebase w).1 k) _ (write_label-Left k r.pr w)
            (rec ((set_label false r.pr needs_rebase >> comment false r.pr) w).1)
