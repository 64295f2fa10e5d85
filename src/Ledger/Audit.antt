-- ===== src/Ledger/Audit.antt =====
-- eval/burnscore/ledger.py: audit, which verifies every receipt of a generation again.
use burnisher.Base.{
  ℕ, String, ◌≡◌, refl, subst, ◌↔◌, Bool, true, not, Option, none, some, List, [], ◌∷◌, ◌++◌,
  if◌then◌else◌, length, is_empty, All,
}
use burnisher.Base.Eq.{◌==◌, string_eq, nat_eq}
use burnisher.Base.Result.{Result, ok, err, ◌>>=◌, >>=-eq-ok}
use burnisher.Base.Num.{Num}
use burnisher.Base.Eq.{option_eq, option_beq_iff}
use burnisher.Base.Result.{>>=-eq-ok}
use burnisher.Cells.{Generation}
use burnisher.Floor.{FloorError}
use burnisher.Receipt.{Body, Receipt}
use burnisher.Receipt.Build.{ReceiptError, verify_receipt}
use burnisher.Receipt.Verify.{verify_receipt-IsSound}
use burnisher.Challenge.{Challenges, HoldStatus, status_for}
use burnisher.Ledger.{Store, load_receipts}

pub data Problem : Type 0 where
  failed : ReceiptError → Problem
  digest_mismatch : Problem

pub record AuditReport (R : Type 0) : Type 0 where
  pub checked : ℕ
  pub problems : List (String × Problem)
  pub held : List (String × HoldStatus R)
  pub fine : Bool

module _ {R : Type 0} where
  -- after a verification that did or did not raise
  abbrev problem_after :
      (Body R → String)
      → String
      → Receipt R
      → Result ReceiptError (Unit {0})
      → List (String × Problem)
  problem_after hash rid r (err e) = (rid, failed e) ∷ []
  problem_after hash rid r (ok _) =
      if not (r.content_digest == some (hash r.body)) then (rid, digest_mismatch) ∷ [] else []

empty-left :
    {A : Type 0} (xs ys : List A) → is_empty (xs ++ ys) ≡ true → (xs ≡ []) × (is_empty ys ≡ true)
empty-left [] ys h = (refl, h)
empty-left (x ∷ xs) ys h = cc

module _ {R : Type 0} ⦃n : Num R⦄ where
  unfoldable pub problems_of :
      (Body R → String)
      → Option (Generation R)
      → List (String × Receipt R)
      → List (String × Problem)
  problems_of hash g [] = []
  problems_of hash g ((rid, r) ∷ rs) =
      problem_after hash rid r (verify_receipt hash r g) ++ problems_of hash g rs

  abbrev add_held :
      String → HoldStatus R → List (String × HoldStatus R) → List (String × HoldStatus R)
  add_held rid st rest = if st.held then (rid, st) ∷ rest else rest

  unfoldable pub held_of :
      Challenges R
      → String
      → Generation R
      → List (String × Receipt R)
      → Result FloorError (List (String × HoldStatus R))
  held_of files name g [] = ok []
  held_of files name g ((rid, r) ∷ rs) = status_for files name rid r g >>= λ st.
      held_of files name g rs >>= λ rest. ok (add_held rid st rest)

  abbrev report_of :
      (Body R → String)
      → Option (Generation R)
      → List (String × Receipt R)
      → List (String × HoldStatus R)
      → AuditReport R
  report_of hash g receipts held = record {
    checked = length receipts;
    problems = problems_of hash g receipts;
    held = held;
    fine = is_empty (problems_of hash g receipts);
  }

  unfoldable pub audit :
      (Body R → String)
      → Store R
      → String
      → Option (Generation R)
      → Result FloorError (AuditReport R)
  unfolding problems_of held_of
  audit hash s name none = ok (report_of hash none (load_receipts s name) [])
  audit hash s name (some g) = held_of s.challenges name g (load_receipts s name) >>= λ held.
      ok (report_of hash (some g) (load_receipts s name) held)

  -- no receipt that verifies has another digest
  problem_after-none :
      (hash : Body R → String) (g : Option (Generation R)) (rid : String) (r : Receipt R)
      → verify_receipt hash r g ≡ ok tt
      → problem_after hash rid r (verify_receipt hash r g) ≡ []
  problem_after-none hash g rid r h =
      let (st, s, sound) = verify_receipt-IsSound hash r g h in
      rw h (rw ((option_beq_iff r.content_digest (some (hash r.body))).1 sound.sealed) refl)

  verified-of :
      (hash : Body R → String) (rid : String) (r : Receipt R) (o : Result ReceiptError (Unit {0}))
      → problem_after hash rid r o ≡ []
      → o ≡ ok tt
  verified-of hash rid r (err e) h = cc
  verified-of hash rid r (ok tt) h = refl

  problems_of-empty :
      (hash : Body R → String) (g : Option (Generation R)) (rs : List (String × Receipt R))
      → is_empty (problems_of hash g rs) ≡ true ↔ All (λ e. verify_receipt hash e.1 g ≡ ok tt) rs
  unfolding problems_of
  problems_of-empty hash g [] = (λ h. tt, λ h. refl)
  problems_of-empty hash g ((rid, r) ∷ rs) =
      let rec = problems_of-empty hash g rs in
      (
        λ h.
            let (e, k) =
              empty-left (problem_after hash rid r (verify_receipt hash r g))
                (problems_of hash g rs) h in
            (verified-of hash rid r (verify_receipt hash r g) e, rec.0 k),
        λ (h, k). rw (problem_after-none hash g rid r h) (rec.1 k),
      )

  abbrev Audited :
      (Body R → String) → Option (Generation R) → List (String × Receipt R) → AuditReport R → Type 0
  Audited hash g receipts report =
      (report.checked ≡ length receipts)
      × (report.fine ≡ true ↔ All (λ e. verify_receipt hash e.1 g ≡ ok tt) receipts)

  report_of-Audited :
      (hash : Body R → String) (g : Option (Generation R)) (receipts : List (String × Receipt R))
      (held : List (String × HoldStatus R)) (report : AuditReport R)
      → ◌≡◌ {A = Result FloorError (AuditReport R)}
          (ok (report_of hash g receipts held))
          (ok report)
      → Audited hash g receipts report
  report_of-Audited hash g receipts held report e =
      let same : report_of hash g receipts held ≡ report = cc in
      subst (Audited hash g receipts) same (refl, problems_of-empty hash g receipts)

  -- An audit that can be made counts every receipt of the generation, and finds no problem exactly
  -- when every one of them verifies.
  pub audit_lem :
      (hash : Body R → String) (s : Store R) (name : String) (g : Option (Generation R))
      (report : AuditReport R)
      → audit hash s name g ≡ ok report
      → (report.checked ≡ length (load_receipts s name))
        × (report.fine ≡ true ↔ All (λ e. verify_receipt hash e.1 g ≡ ok tt) (load_receipts s name))
  unfolding audit
  audit_lem hash s name none report h =
      report_of-Audited hash none (load_receipts s name) [] report h
  audit_lem hash s name (some g) report h =
      let (held, _, e) =
        >>=-eq-ok (held_of s.challenges name g (load_receipts s name))
          (λ held. ok (report_of hash (some g) (load_receipts s name) held)) h in
      report_of-Audited hash (some g) (load_receipts s name) held report e
