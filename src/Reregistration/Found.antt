-- ===== src/Reregistration/Found.antt =====
-- Why a registration is flagged as registered again.
use burnisher.Base.{
  String, ◌≡◌, refl, sym, ap, subst, ◌∙◌, ◌⊎◌, inl, inr, Bool, true, false, ◌||◌, Option, none,
  some, List, [], ◌∷◌, if◌then◌else◌, ltb, length, is_empty, any, find, In, here, there, In-cons,
  find-eq_some,
}
use burnisher.Base.Eq.{◌==◌, string_eq, nat_eq}
use burnisher.Base.Num.{Num, num, le, ◌/◌}
use burnisher.Base.{find-In}
use burnisher.Reregistration.{Reg, Definitions, min_tokens, similar}
use burnisher.Reregistration.Best.{Fits, most_similar-Fits}
use Prim.Native.Nat.{◌+◌ as plus, ◌*◌ as times}
use burnisher.Reregistration.Similar.{matching}
use burnisher.Reregistration.Common.{Common, matching-Common}
use burnisher.Reregistration.Judge.{
  ratio, kernel_tokens, same_callable, same_kernel, Finding, other_arguments, most_similar, Known,
  kernel_finding, finding_for, findings_for,
}

module _ (R : Type 0) ⦃n : Num R⦄ where
  pub findings_for-In :
      (main : Known) (defs : Definitions) (regs : List Reg) {f : Finding R}
      → In f (findings_for R main defs regs)
      → (r : Reg) × (In r regs × (finding_for R main defs r ≡ some f))
  unfolding findings_for
  findings_for-In main defs [] i = elim i [ ]
  findings_for-In main defs (r ∷ regs) {f} i =
      go (finding_for R main defs r) refl i (λ j. later (findings_for-In main defs regs j))
    where
      later :
          ((q : Reg) × (In q regs × (finding_for R main defs q ≡ some f)))
          → (q : Reg) × (In q (r ∷ regs) × (finding_for R main defs q ≡ some f))
      later (q, (j, e)) = (q, (there j, e))

      go :
          (o : Option (Finding R))
          → finding_for R main defs r ≡ o
          → In f (elim o as (λ _. List (Finding R)) [
            | none ↦ findings_for R main defs regs
            | some g ↦ g ∷ findings_for R main defs regs
          ])
          → (In f (findings_for R main defs regs)
              → (q : Reg) × (In q (r ∷ regs) × (finding_for R main defs q ≡ some f)))
          → (q : Reg) × (In q (r ∷ regs) × (finding_for R main defs q ≡ some f))
      go none e i rec = rec i
      go (some g) e i rec = elim (In-cons i) [
        | inl q ↦ (r, (here, e ∙ ap some (sym q)))
        | inr j ↦ rec j
      ]

  pub In-findings_for :
      (main : Known) (defs : Definitions) {r : Reg} {f : Finding R} {regs : List Reg}
      → In r regs
      → finding_for R main defs r ≡ some f
      → In f (findings_for R main defs regs)
  unfolding findings_for
  In-findings_for main defs {f = f} (here {xs = regs}) h =
      subst
        (λ (o : Option (Finding R)). In f (elim o as (λ _. List (Finding R)) [
          | none ↦ findings_for R main defs regs
          | some g ↦ g ∷ findings_for R main defs regs
        ]))
        (sym h) here
  In-findings_for main defs {f = f} (there {y = q} {xs = regs} i) h =
      go (finding_for R main defs q) (In-findings_for main defs i h)
    where
      go :
          (o : Option (Finding R))
          → In f (findings_for R main defs regs)
          → In f (elim o as (λ _. List (Finding R)) [
            | none ↦ findings_for R main defs regs
            | some g ↦ g ∷ findings_for R main defs regs
          ])
      go none j = j
      go (some g) j = there j

  -- The match has a signature on main, and twice the tokens in matching blocks, over the tokens of both
  -- kernels, is the similarity and reaches the limit. As many tokens of the one are, in their order,
  -- tokens of the other.
  abbrev pub SimilarTokens : Known → Definitions → Finding R → Type 0
  SimilarTokens main defs f =
      let toks = kernel_tokens f.registration.function defs main.infra in
      (btoks : List String) × (In {A = Reg × List String} (f.matches, btoks) main.signed
        × (Common toks btoks (matching toks btoks)
            × (f.similarity
                ≡ num (times 2 (matching toks btoks)) / num (plus (length toks) (length btoks)))
            × (le similar f.similarity ≡ true)))

  ratio-blocks :
      (toks btoks : List String)
      → is_empty btoks ≡ false
      → ratio {R = R} toks btoks
        ≡ num (times 2 (matching toks btoks)) / num (plus (length toks) (length btoks))
  unfolding ratio
  ratio-blocks [] btoks h = rw h refl
  ratio-blocks (t ∷ toks) btoks h = refl

  -- Why a registration is flagged: its callable is one on main; or it is a function that main does not
  -- register, of enough tokens, whose template arguments are not known to differ, and similar enough.
  abbrev pub Reason : Known → Definitions → Finding R → Type 0
  Reason main defs f =
      In f.matches main.regs
      × (((f.kind ≡ same_callable) × ((f.matches.callable == f.registration.callable) ≡ true))
          ⊎ ((f.kind ≡ same_kernel)
              × ((any (λ (b : Reg). b.function == f.registration.function) main.regs ≡ false)
                  × ((ltb (length (kernel_tokens f.registration.function defs main.infra))
                          min_tokens
                        ≡ false)
                      × ((other_arguments f.registration f.matches ≡ false)
                          × SimilarTokens main defs f)))))

  -- The signatures are those of the registrations.
  abbrev pub Signed : Known → Type 0
  Signed main =
      (b : Reg) (toks : List String)
      → In {A = Reg × List String} (b, toks) main.signed
      → In b main.regs

  kernel_finding-some :
      (r : Reg) (o : Option (R × Reg)) (f : Finding R)
      → kernel_finding R r o ≡ some f
      → (s : R) × ((b : Reg) × ((o ≡ some (s, b))
            × ((le similar s ≡ true)
                × (record { registration = r; kind = same_kernel; matches = b; similarity = s }
                    ≡ f))))
  kernel_finding-some r none f h = cc
  kernel_finding-some r (some (s, b)) f h = go (le similar s) refl h
    where
      go :
          (t : Bool)
          → le similar s ≡ t
          → (if t
              then some
                  (record { registration = r; kind = same_kernel; matches = b; similarity = s })
              else none)
            ≡ some f
          → (s' : R) × ((b' : Reg) × ((◌≡◌ {A = Option (R × Reg)} (some (s, b)) (some (s', b')))
                × ((le similar s' ≡ true)
                    × (record {
                      registration = r;
                      kind = same_kernel;
                      matches = b';
                      similarity = s';
                    }
                        ≡ f))))
      go true e h = (s, (b, (refl, (e, cc))))
      go false e h = cc

  kernel-Reason :
      (main : Known) (defs : Definitions) (r : Reg) (f : Finding R)
      → Signed main
      → any (λ (b : Reg). b.function == r.function) main.regs ≡ false
      → ltb (length (kernel_tokens r.function defs main.infra)) min_tokens ≡ false
      → kernel_finding R r
          (most_similar r (kernel_tokens r.function defs main.infra) main.signed none)
        ≡ some f
      → (f.registration ≡ r) × Reason main defs f
  kernel-Reason main defs r f signed p q h =
      let toks = kernel_tokens r.function defs main.infra in
      let most = most_similar {R = R} r toks main.signed none in
      let (s, (b, (e, (enough, same)))) = kernel_finding-some r most f h in
      let ((btoks, (i, (full, is_ratio))), args) =
        subst (Fits r toks main.signed) e
          (most_similar-Fits r toks main.signed main.signed none (λ x j. j) tt) in
      subst (λ (g : Finding R). (g.registration ≡ r) × Reason main defs g) same
        (
          refl,
          (
            signed b btoks i,
            inr (
              refl,
              (
                p,
                (
                  q,
                  (
                    args,
                    (
                      btoks,
                      (
                        i,
                        (
                          matching-Common toks btoks,
                          is_ratio ∙ ratio-blocks toks btoks full,
                          enough,
                        ),
                      ),
                    ),
                  ),
                ),
              ),
            ),
          ),
        )

  pub finding_for-Reason :
      (main : Known) (defs : Definitions) (r : Reg) (f : Finding R)
      → Signed main
      → finding_for R main defs r ≡ some f
      → (f.registration ≡ r) × Reason main defs f
  unfolding finding_for
  finding_for-Reason main defs r f signed h =
      go (find (λ (b : Reg). b.callable == r.callable) main.regs) refl
        (any (λ (b : Reg). b.function == r.function) main.regs) refl
        (ltb (length (kernel_tokens r.function defs main.infra)) min_tokens) refl h
    where
      go :
          (o : Option Reg)
          → find (λ (b : Reg). b.callable == r.callable) main.regs ≡ o
          → (p : Bool) → any (λ (b : Reg). b.function == r.function) main.regs ≡ p
          → (q : Bool) → ltb (length (kernel_tokens r.function defs main.infra)) min_tokens ≡ q
          → ◌≡◌ {A = Option (Finding R)}
              (elim o [
                | some b ↦ some (record {
                  registration = r;
                  kind = same_callable;
                  matches = b;
                  similarity = num 1;
                })
                | none ↦
                    if p || q
                    then none
                    else kernel_finding R r
                        (most_similar r (kernel_tokens r.function defs main.infra) main.signed none)
              ])
              (some f)
          → (f.registration ≡ r) × Reason main defs f
      go (some b) e p ep q eq h =
          let is_f : record {
            registration = r;
            kind = same_callable;
            matches = b;
            similarity = num 1;
          }
              ≡ f =
            cc in
          subst (λ (g : Finding R). (g.registration ≡ r) × Reason main defs g) is_f
            (
              refl,
              (
                find-In (λ (x : Reg). x.callable == r.callable) main.regs e,
                inl (refl, find-eq_some (λ (x : Reg). x.callable == r.callable) main.regs e),
              ),
            )
      go none e false ep false eq h = kernel-Reason main defs r f signed ep eq h
      go none e false ep true eq h = cc
      go none e true ep q eq h = cc
