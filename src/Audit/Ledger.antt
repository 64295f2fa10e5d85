-- ===== src/Audit/Ledger.antt =====
-- What the audit of a whole ledger says.
use burnisher.Base.{
  ℕ, String, ◌≡◌, refl, ap, ◌∙◌, Bool, true, false, List, [], ◌∷◌, arith, if◌then◌else◌, is_empty,
  all, All,
}
use burnisher.Base.Eq.{string_eq, nat_eq}
use burnisher.Base.Result.{Result, ok, ◌>>=◌, >>=-eq-ok}
use burnisher.Base.Num.{Num}
use burnisher.Cells.{Generation}
use burnisher.Receipt.{Body, Receipt}
use burnisher.Bootstrap.{Library}
use burnisher.Compute.Sound.{ok-injective}
use burnisher.Audit.{Uncaught, RawFile, Audit, audit_one, audits, run_ledger}
use burnisher.Audit.Supported.{Support, audit_one-Support}

module _ {R : Type 0} ⦃n : Num R⦄ (lib : Library R) (hash : Body R → String)
    (format_gap : R → String) (timestamp : String) where
  -- A receipt of a ledger that its measurements support.
  abbrev pub Supported : Generation R × (RawFile R × Receipt R) → Type 0
  Supported p = (a : Audit R) × Support lib hash format_gap p.0 p.1.0 p.1.1 timestamp a

  audits-Supported :
      (pairs : List (Generation R × (RawFile R × Receipt R))) {results : List (Audit R)}
      → audits lib hash format_gap pairs timestamp ≡ ok results
      → all (λ (a : Audit R). a.pass) results ≡ true
      → All Supported pairs
  unfolding audits
  audits-Supported [] h passed = tt
  audits-Supported ((g, (raw, published)) ∷ pairs) h passed =
      let (a, ha, h1) = >>=-eq-ok (audit_one lib hash format_gap g raw published timestamp) _ h in
      let (rest, hr, h2) = >>=-eq-ok (audits lib hash format_gap pairs timestamp) _ h1 in
      let both = ap (all (λ (a : Audit R). a.pass)) (ok-injective h2) ∙ passed in
      (
        (
          a,
          audit_one-Support lib hash format_gap g raw published timestamp ha (ground (arith, both)),
        ),
        audits-Supported pairs hr (ground (arith, both)),
      )

  -- When the audit of a ledger ends with status 0, there are receipts with their measurements, and each
  -- of them is supported by its own.
  pub run_ledger-Supported :
      (pairs : List (Generation R × (RawFile R × Receipt R)))
      → run_ledger lib hash format_gap pairs timestamp ≡ ok 0
      → (is_empty pairs ≡ false) × All Supported pairs
  unfolding run_ledger
  run_ledger-Supported pairs h = go (is_empty pairs) refl h
    where
      go :
          (t : Bool)
          → is_empty pairs ≡ t
          → ◌≡◌ {A = Result Uncaught ℕ}
              (if t
                then ok 2
                else audits lib hash format_gap pairs timestamp >>= λ results.
                    ok (if all (λ (a : Audit R). a.pass) results then 0 else 1))
              (ok 0)
          → (is_empty pairs ≡ false) × All Supported pairs
      go true e h = cc
      go false e h =
          let (results, hr, h1) = >>=-eq-ok (audits lib hash format_gap pairs timestamp) _ h in
          (
            e,
            audits-Supported pairs hr
                (zero_only (all (λ (a : Audit R). a.pass) results) (ok-injective h1)),
          )
        where
          zero_only : (b : Bool) → ◌≡◌ {A = ℕ} (if b then 0 else 1) 0 → b ≡ true
          zero_only true h = refl
          zero_only false h = ground (arith, h)
