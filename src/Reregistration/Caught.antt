-- ===== src/Reregistration/Caught.antt =====
-- Which registrations must be found as registered again.
use Prim.Native.Nat.{◌+◌ as plus, ◌*◌ as times}
use burnisher.Base.{
  suc, String, ◌≤◌, ◌≡◌, refl, Bool, true, false, ◌||◌, Option, none, some, List, [], ◌∷◌, arith,
  if◌then◌else◌, ltb, length, is_empty, any, find, In, ◌<◌,
}
use burnisher.Base.Eq.{◌==◌, string_eq, nat_eq}
use burnisher.Base.Num.{Num, num, le, ◌/◌}
use burnisher.Base.{find-none}
use burnisher.Reregistration.{Reg, Definitions, min_tokens, similar}
use burnisher.Reregistration.Similar.{matching}
use burnisher.Reregistration.Same.{matching_self}
use burnisher.Reregistration.Best.{most_similar-In}
use burnisher.Reregistration.Judge.{
  kernel_tokens, same_callable, same_kernel, Finding, other_arguments, ratio, most_similar, Known,
  kernel_finding, finding_for,
}

module _ (R : Type 0) ⦃n : Num R⦄ where
  -- Equal token lists that are not empty are as similar as can be, and similar enough.
  similar-ratio :
      (toks : List String) → 0 < length toks → le {R = R} similar (ratio toks toks) ≡ true
  unfolding ratio
  similar-ratio [] h = ground arith
  similar-ratio (t ∷ toks) h =
      let total : times 2 (matching (t ∷ toks) (t ∷ toks))
          ≡ plus (length (t ∷ toks)) (length (t ∷ toks)) =
        omega (arith, matching_self (t ∷ toks)) in
      let whole : le {R = R} (num 1) (
            num (plus (length (t ∷ toks)) (length (t ∷ toks)))
            / num (plus (length (t ∷ toks)) (length (t ∷ toks))))
          ≡ true =
        n.one_le_div_self _ positive in
      n.le_trans similar (num 1) _ below (rw total whole)
    where
      below : le {R = R} similar (num 1) ≡ true
      below =
          n.div_le_one (num 95) (num 100) (n.of_ℕ_mono 0 95 (omega arith))
            (n.of_ℕ_mono 95 100 (omega arith)) (n.suc_pos 99)

      positive : le {R = R} (num (plus (length (t ∷ toks)) (length (t ∷ toks)))) (num 0) ≡ false
      positive =
          let e : plus (length (t ∷ toks)) (length (t ∷ toks))
              ≡ suc (plus (length toks) (suc (length toks))) =
            omega arith in
          rw e (n.suc_pos _)

  -- A registration of a callable that main has is found, and so is a kernel whose tokens are those of a
  -- kernel on main, unless main registers the function, the tokens are few, or the arguments differ.
  abbrev pub Caught : Known → Definitions → Reg → Type 0
  Caught main defs r =
      ((b : Reg)
        → In b main.regs
        → (b.callable == r.callable) ≡ true
        → (f : Finding R) × ((finding_for R main defs r ≡ some f) × (f.kind ≡ same_callable)))
      × ((b : Reg)
          → In {A = Reg × List String} (b, kernel_tokens r.function defs main.infra) main.signed
          → other_arguments r b ≡ false
          → any (λ (b : Reg). b.function == r.function) main.regs ≡ false
          → min_tokens ≤ length (kernel_tokens r.function defs main.infra)
          → (f : Finding R) × (finding_for R main defs r ≡ some f))

  -- the branches of `finding_for`
  abbrev branch : Known → Definitions → Reg → Option Reg → Bool → Option (Finding R)
  branch main defs r o p = elim o [
    | some b ↦
        some (record { registration = r; kind = same_callable; matches = b; similarity = num 1 })
    | none ↦
        if p
        then none
        else kernel_finding R r
            (most_similar r (kernel_tokens r.function defs main.infra) main.signed none)
  ]

  found_kernel :
      (main : Known) (defs : Definitions) (r b : Reg)
      → In {A = Reg × List String} (b, kernel_tokens r.function defs main.infra) main.signed
      → other_arguments r b ≡ false
      → min_tokens ≤ length (kernel_tokens r.function defs main.infra)
      → (f : Finding R) × (kernel_finding R r
            (most_similar r (kernel_tokens r.function defs main.infra) main.signed none)
          ≡ some f)
  found_kernel main defs r b i args long =
      let toks = kernel_tokens r.function defs main.infra in
      let (s, (c, (e, least))) =
        most_similar-In {R = R} r toks b toks none i
          (rw args (filled toks (omega (arith, long)))) in
      let enough =
        n.le_trans similar (ratio toks toks) s (similar-ratio toks (omega (arith, long))) least in
      (
        record { registration = r; kind = same_kernel; matches = c; similarity = s },
        rw (e, enough) refl,
      )
    where
      filled : (xs : List String) → 0 < length xs → (is_empty xs || false) ≡ false
      filled [] h = ground arith
      filled (x ∷ xs) h = refl

  pub finding_for-Caught : (main : Known) (defs : Definitions) (r : Reg) → Caught main defs r
  unfolding finding_for
  finding_for-Caught main defs r = (
    λ b i same. callable (find (λ (x : Reg). x.callable == r.callable) main.regs) refl b i same,
    λ b i args fresh long.
        kernel (find (λ (x : Reg). x.callable == r.callable) main.regs)
          (any (λ (c : Reg). c.function == r.function) main.regs)
          (ltb (length (kernel_tokens r.function defs main.infra)) min_tokens) fresh (ground arith)
          (found_kernel main defs r b i args long),
  )
    where
      callable :
          (o : Option Reg)
          → find (λ (x : Reg). x.callable == r.callable) main.regs ≡ o
          → (b : Reg) → In b main.regs
          → (b.callable == r.callable) ≡ true
          → (f : Finding R) × ((branch main defs r o (
                  any (λ (c : Reg). c.function == r.function) main.regs
                  || ltb (length (kernel_tokens r.function defs main.infra)) min_tokens)
                ≡ some f)
              × (f.kind ≡ same_callable))
      callable (some b) e c i same = (
        record { registration = r; kind = same_callable; matches = b; similarity = num 1 },
        (refl, refl),
      )
      callable none e c i same =
          let missed : (c.callable == r.callable) ≡ false =
            find-none (λ (x : Reg). x.callable == r.callable) i e in
          cc

      kernel :
          (o : Option Reg) (p q : Bool)
          → p ≡ false
          → q ≡ false
          → ((f : Finding R) × (kernel_finding R r
                  (most_similar r (kernel_tokens r.function defs main.infra) main.signed none)
                ≡ some f))
          → (f : Finding R) × (branch main defs r o (p || q) ≡ some f)
      kernel (some b) p q ep eq h =
          (record { registration = r; kind = same_callable; matches = b; similarity = num 1 }, refl)
      kernel none p q ep eq (f, e) = (f, rw (ep, eq) e)
