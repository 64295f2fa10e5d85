-- ===== src/Reregistration/Best.antt =====
-- The kernel on main that is most like a new one.
use burnisher.Base.{
  String, ◌≡◌, refl, sym, ap, subst, inl, inr, Bool, true, false, not, ◌&&◌, ◌||◌, Option, none,
  some, List, [], ◌∷◌, arith, if◌then◌else◌, is_empty, all, In, here, there, In-cons, if-cases,
}
use burnisher.Base.Eq.{string_eq, nat_eq}
use burnisher.Base.Dict.{elem}
use burnisher.Base.Num.{Num, le, lt, lt-le}
use burnisher.Base.Eq.{pair_eq}
use burnisher.Reregistration.{Reg, Definitions}
use burnisher.Reregistration.Judge.{kernel_tokens, signatures, other_arguments, ratio, most_similar}

pub signatures-In :
    (defs : Definitions) (infra seen : List String) (regs : List Reg) {b : Reg} {toks : List String}
    → In {A = Reg × List String} (b, toks) (signatures defs infra seen regs)
    → In b regs
unfolding signatures
signatures-In defs infra seen [] i = elim i [ ]
signatures-In defs infra seen (r ∷ regs) {b} {toks} i =
    go (elem r.callable seen) i (signatures-In defs infra (r.callable ∷ seen) regs)
  where
    go :
        (t : Bool)
        → In {A = Reg × List String}
            (b, toks)
            (if t
              then signatures defs infra (r.callable ∷ seen) regs
              else (r, kernel_tokens r.function defs infra)
                ∷ signatures defs infra (r.callable ∷ seen) regs)
        → (In {A = Reg × List String} (b, toks) (signatures defs infra (r.callable ∷ seen) regs)
            → In b regs)
        → In b (r ∷ regs)
    go true i rec = there (rec i)
    go false i rec = elim (In-cons i) [
      | inl e ↦ subst (λ z. In z (r ∷ regs)) (sym (ap (λ (p : Reg × List String). p.0) e)) here
      | inr j ↦ there (rec j)
    ]

module _ {R : Type 0} ⦃n : Num R⦄ (r : Reg) (toks : List String) where
  -- The similarity of the kernel that is most like a new one is the ratio of their tokens; the kernel is
  -- of the list, and has some tokens and no other arguments.
  abbrev pub Fits : List (Reg × List String) → Option (R × Reg) → Type 0
  Fits sigs none = Unit
  Fits sigs (some (s, b)) =
      ((btoks : List String) × (In {A = Reg × List String} (b, btoks) sigs
          × ((is_empty btoks ≡ false) × (s ≡ ratio toks btoks))))
      × (other_arguments r b ≡ false)

  pub most_similar-Fits :
      (all sigs : List (Reg × List String)) (best : Option (R × Reg))
      → ((x : Reg × List String) → In x sigs → In x all)
      → Fits all best
      → Fits all (most_similar r toks sigs best)
  unfolding most_similar
  most_similar-Fits all [] best sub h = h
  most_similar-Fits all ((b, btoks) ∷ sigs) best sub h =
      most_similar-Fits all sigs _ (λ x i. sub x (there i))
        (if-cases (Fits all) _ (some (ratio toks btoks, b)) best
          (λ q. ((btoks, (sub (b, btoks) here, (ground (arith, q), refl))), ground (arith, q)))
          (λ _. h))

  abbrev pub AtLeast : R → Option (R × Reg) → Type 0
  AtLeast v o = (s : R) × ((b : Reg) × ((o ≡ some (s, b)) × (le v s ≡ true)))

  abbrev is_better : R → Option (R × Reg) → Bool
  is_better v best = elim best [ none ↦ true | some (most, _) ↦ lt most v ]

  better :
      (v w : R) (b : Reg) (skipped : Bool) (best : Option (R × Reg))
      → AtLeast v best
      → AtLeast v (if not skipped && is_better w best then some (w, b) else best)
  better v w b skipped best (s, (c, (e, h))) =
      if-cases (AtLeast v) (not skipped && is_better w best) (some (w, b)) best
        (λ q.
          let above : lt s w ≡ true = ground (arith, q, e) in
          (w, (b, (refl, n.le_trans v s w h (lt-le s w above)))))
        (λ _. (s, (c, (e, h))))

  pub most_similar-AtLeast :
      (v : R) (sigs : List (Reg × List String)) (best : Option (R × Reg))
      → AtLeast v best
      → AtLeast v (most_similar r toks sigs best)
  unfolding most_similar
  most_similar-AtLeast v [] best h = h
  most_similar-AtLeast v ((b, btoks) ∷ sigs) best h =
      most_similar-AtLeast v sigs _
        (better v (ratio toks btoks) b (is_empty btoks || other_arguments r b) best h)

  pub most_similar-In :
      (b : Reg) (btoks : List String) {sigs : List (Reg × List String)} (best : Option (R × Reg))
      → In {A = Reg × List String} (b, btoks) sigs
      → (is_empty btoks || other_arguments r b) ≡ false
      → AtLeast (ratio toks btoks) (most_similar r toks sigs best)
  unfolding most_similar
  most_similar-In b btoks best (here {xs = sigs}) h =
      most_similar-AtLeast (ratio toks btoks) sigs _ (rw h (taken best))
    where
      taken :
          (o : Option (R × Reg))
          → AtLeast
              (ratio toks btoks)
              (if true && is_better (ratio toks btoks) o then some (ratio toks btoks, b) else o)
      taken none = (ratio toks btoks, (b, (refl, n.le_refl (ratio toks btoks))))
      taken (some (most, c)) =
          if-cases (AtLeast (ratio toks btoks)) (lt most (ratio toks btoks))
            (some (ratio toks btoks, b)) (some (most, c))
            (λ _. (ratio toks btoks, (b, (refl, n.le_refl (ratio toks btoks)))))
            (λ q. (most, (c, (refl, ground (arith, q)))))
  most_similar-In b btoks best (there {y = (d, dtoks)} {xs = sigs} i) h =
      most_similar-In b btoks _ i h
