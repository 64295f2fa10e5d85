-- ===== src/Reregistration/Flagged.antt =====
-- The verdict on two trees: each finding has its reason, and each kernel registered again is found.
use burnisher.Base.{
  String, ◌≤◌, ◌≡◌, refl, sym, subst, ◌⊎◌, inl, inr, Bool, true, false, not, ◌&&◌, some, List, [],
  ◌∷◌, if◌then◌else◌, length, is_empty, any, In, keep-In, In-keep,
}
use burnisher.Base.Eq.{◌==◌, string_eq, nat_eq}
use burnisher.Base.Num.{Num}
use burnisher.Reregistration.{Reg, Files, min_tokens}
use burnisher.Reregistration.Scan.{registrations, definitions}
use burnisher.Reregistration.Best.{signatures-In}
use burnisher.Reregistration.Found.{Reason, findings_for-In, In-findings_for, finding_for-Reason}
use burnisher.Reregistration.Caught.{finding_for-Caught}
use burnisher.Reregistration.Judge.{
  kernel_tokens, Finding, other_arguments, Known, known, finding_for, findings_for,
  new_registrations, judge, infrastructure, clear, reregistered,
}

module _ (R : Type 0) ⦃n : Num R⦄ (candidate base : Files) where
  abbrev pub main_known : Known
  main_known = known base

  abbrev fresh : List Reg
  fresh = new_registrations (registrations base) (registrations candidate)

  -- a registration of the candidate, under an operation and a name that main does not have
  abbrev pub IsNew : Reg → Type 0
  IsNew r =
      In r (registrations candidate)
      × (any (λ (b : Reg). b.op == r.op && b.name == r.name) (registrations base) ≡ false)

  fresh-IsNew : (r : Reg) → In r fresh → IsNew r
  unfolding new_registrations
  fresh-IsNew r i =
      let (j, h) =
        keep-In
          (λ (q : Reg).
            not (any (λ (b : Reg). b.op == q.op && b.name == q.name) (registrations base)))
          (registrations candidate) i in
      (j, negated _ h)
    where
      negated : (b : Bool) → not b ≡ true → b ≡ false
      negated true h = cc
      negated false h = refl

  IsNew-fresh : (r : Reg) → IsNew r → In r fresh
  unfolding new_registrations
  IsNew-fresh r (j, h) =
      In-keep
        (λ (q : Reg).
          not (any (λ (b : Reg). b.op == q.op && b.name == q.name) (registrations base)))
        j (rw h refl)

  known-Signed :
      (b : Reg) (toks : List String)
      → In {A = Reg × List String} (b, toks) main_known.signed
      → In b main_known.regs
  unfolding known
  known-Signed b toks i =
      signatures-In (definitions base) (infrastructure (registrations base) (definitions base)) []
        (registrations base) i

  -- A kernel is flagged only for a reason. It is registered under a name that main does not have; and
  -- either its callable is one on main, or main registers no such function, the kernel has the least
  -- number of tokens, its template arguments are not other ones, and twice the tokens in the blocks that
  -- match a signature on main, over the tokens of both, reaches the limit and is the similarity reported,
  -- where as many tokens are, in their order, tokens of both. So new template arguments to a function
  -- that main registers are never flagged.
  pub judge-Reason :
      (f : Finding R)
      → In f (judge R candidate base).findings
      → IsNew f.registration × Reason R main_known (definitions candidate) f
  unfolding judge
  judge-Reason f i =
      let (r, (j, e)) = findings_for-In R main_known (definitions candidate) fresh i in
      let (same, reason) =
        finding_for-Reason R main_known (definitions candidate) r f known-Signed e in
      (subst IsNew (sym same) (fresh-IsNew r j), reason)

  flagged :
      {r : Reg} (f : Finding R)
      → In r fresh
      → finding_for R main_known (definitions candidate) r ≡ some f
      → In f (judge R candidate base).findings
        × ((f.registration ≡ r) × ((judge R candidate base).outcome ≡ reregistered))
  unfolding judge
  flagged {r} f i e =
      let j = In-findings_for R main_known (definitions candidate) i e in
      let (same, _) = finding_for-Reason R main_known (definitions candidate) r f known-Signed e in
      (j, (same, not_clear (findings_for R main_known (definitions candidate) fresh) j))
    where
      not_clear :
          (fs : List (Finding R)) {g : Finding R}
          → In g fs
          → (if is_empty fs then clear else reregistered) ≡ reregistered
      not_clear [] j = elim j [ ]
      not_clear (x ∷ fs) j = refl

  -- That a kernel is on main: its callable is registered there; or main registers no such function, and
  -- a signature on main has the kernel's tokens, the least number or more, and no other arguments.
  abbrev pub OnMain : Reg → Type 0
  OnMain r =
      (b : Reg) × ((In b main_known.regs × ((b.callable == r.callable) ≡ true))
        ⊎ ((any (λ (c : Reg). c.function == r.function) main_known.regs ≡ false)
            × (In {A = Reg × List String}
                  (b, kernel_tokens r.function (definitions candidate) main_known.infra)
                  main_known.signed
                × ((other_arguments r b ≡ false)
                    × (min_tokens
                        ≤ length
                            (kernel_tokens r.function (definitions candidate) main_known.infra))))))

  -- A kernel that is on main is found under its new name: where its callable is one on main, or where
  -- main registers no such function and its tokens are those of a signature on main, the least number
  -- or more, under no other template arguments. The outcome is then REREGISTERED.
  pub judge-OnMain :
      (r : Reg)
      → IsNew r
      → OnMain r
      → (f : Finding R) × (In f (judge R candidate base).findings
          × ((f.registration ≡ r) × ((judge R candidate base).outcome ≡ reregistered)))
  judge-OnMain r new_r (b, inl (j, same)) =
      let (f, (e, _)) = (finding_for-Caught R main_known (definitions candidate) r).0 b j same in
      (f, flagged f (IsNew-fresh r new_r) e)
  judge-OnMain r new_r (b, inr (new, (j, (args, long)))) =
      let (f, e) =
        (finding_for-Caught R main_known (definitions candidate) r).1 b j args new long in
      (f, flagged f (IsNew-fresh r new_r) e)
