-- ===== src/Audit.antt =====
-- eval/audit.py: a published receipt derived again from its raw measurements.
pub mod Compare
pub mod Supported
pub mod Ledger
use burnisher.Base.{
  ℕ, zero, suc, String, ◌≤◌, ◌≡◌, refl, sym, ap, subst, ◌∙◌, ◌≢◌, ◌↔◌, ◌⊎◌, inl, inr, Bool, true,
  false, not, ◌&&◌, ◌||◌, Option, none, some, List, [], ◌∷◌, ◌++◌, map, arith, if◌then◌else◌, ltb,
  leb, length, is_empty, get_elem?, take, drop, any, all, keep, find, In, here, there, In-cons, All,
  keep-In, In-keep, any-In, all-In, All-of_In, find-eq_some, In-append_left, In-append_right,
  keep-append, length-append, if-cases, Bool-cases, Option-cases, is_some, or_else, ◌<◌,
}
use burnisher.Base.Eq.{Eq, ◌==◌, string_eq, nat_eq}
use burnisher.Base.Dict.{
  Dict, lookup, has_key, insert, keys, elem, adjoin, minus, meet, elem-In, In-elem, minus-In,
  In-minus, lookup-insert, eq_self, eq_of_test,
}
use burnisher.Base.Result.{Result, ok, err, ◌>>=◌, ◌>>◌, require, raise_if, for_each, >>=-eq-ok}
use burnisher.Base.Num.{
  Num, num, le, lt, num_eq, max, min, neg, abs, ◌+◌, ◌-◌, ◌*◌, ◌/◌, lt-le, lt_trans_le, le_trans_lt,
}
use burnisher.Base.Eq.{option_eq}
use burnisher.Cells.{Generation, Coverage}
use burnisher.Receipt.{
  Status, is_false, Score, CellScore, Device, Calibration, Provenance, Withheld, Body, Receipt,
  status_text,
}
use burnisher.Receipt.Build.{IntervalSummary, ReceiptError, build_body, verify_receipt}
use burnisher.Verdict.{Verdict, VerdictError, verdict}
use burnisher.Bootstrap.{Library}
use burnisher.Compute.{
  ComputeError, of_generation, of_roofline, of_bootstrap, of_floor, of_frontier, RawRecord,
}
use burnisher.Compute.Score.{CellResult}
use burnisher.Compute.Held.{HeldOut}
use burnisher.Compute.Whole.{Submission, Computed, compute}
use burnisher.Audit.Compare.{differing_keys}

-- What `audit_one` does not catch: an unknown status, and the exceptions of the modules that
-- `compute` calls, none of which is a `ComputeError` in Python.
pub data Uncaught : Type 0 where
  bad_status : VerdictError → Uncaught
  crashed : ComputeError → Uncaught

-- A raw file: what the runner measured and what the gates answered.
pub record RawFile (R : Type 0) : Type 0 where
  pub records : List (RawRecord R)
  pub held_out : List (RawRecord R)
  pub correctness : String
  pub determinism : Option Bool
  pub provenance : Provenance

-- the four checks, and what of the receipt differs
pub record Audit (R : Type 0) : Type 0 where
  pub verifies : Bool
  pub reproduced : Bool
  pub differing : List String
  pub right_generation : Bool
  pub verdict : Verdict R
  pub pass : Bool

-- `except CP.ComputeError`
abbrev pub is_caught : ComputeError → Bool
is_caught (of_generation e) = false
is_caught (of_roofline e) = false
is_caught (of_bootstrap e) = false
is_caught (of_floor e) = false
is_caught (of_frontier e) = false
is_caught _ = true

abbrev pub judged : {R : Type 0} → Result VerdictError (Verdict R) → Result Uncaught (Verdict R)
judged (ok v) = ok v
judged (err e) = err (bad_status e)

abbrev pub is_verified : Result ReceiptError (Unit {0}) → Bool
is_verified (ok u) = true
is_verified (err e) = false

-- no difference, where there is a score to compare
abbrev pub nothing_differs : Option (List String) → Bool
nothing_differs none = false
nothing_differs (some ks) = is_empty ks

module _ {R : Type 0} ⦃n : Num R⦄ where
  -- the entry of a cell in the receipt
  abbrev pub cell_score : CellResult R → CellScore R
  cell_score r = record {
    gap_closed = some r.gap_closed;
    achieved_base = some r.gap.achieved_base;
    achieved_candidate = some r.gap.achieved_candidate;
    floor_pct = some r.floor_pct;
    resolved = some r.resolved;
    ceiling_basis = some "model";
  }

  abbrev pub cell_scores : Dict String (CellResult R) → Dict String (CellScore R)
  cell_scores [] = []
  cell_scores ((k, r) ∷ per_cell) = (k, cell_score r) ∷ cell_scores per_cell

  abbrev pub summary_of : Generation R → Submission R → IntervalSummary R
  summary_of g s = record {
    lower = some s.lower;
    upper = some s.upper;
    level = some g.confidence_level;
    resolved = some s.resolved;
  }

  -- `(out.get("held_out") or {}).get("survived", True) is not False`
  abbrev pub has_survived : Option (HeldOut R) → Bool
  has_survived none = true
  has_survived (some h) = not (is_false h.survived)

  -- The receipt again, from the measurements; of the published one it takes the number and what it
  -- supersedes.
  unfoldable pub rebuild : Generation R → RawFile R → Receipt R → String → Computed R → Body R
  rebuild g raw published timestamp out =
      build_body g (cell_scores out.per_cell) out.aggregate (summary_of g out.interval)
        (some out.frontier.delta) raw.correctness raw.determinism out.coverage
        (some (has_survived out.held_out)) raw.provenance published.pr published.supersedes none
        timestamp

  -- What of a receipt differs from what its measurements give; `none` where the scorer refuses them.
  unfoldable pub rescore :
      Library R
      → Generation R
      → RawFile R
      → Receipt R
      → String
      → Result Uncaught (Option (List String))
  unfolding rebuild
  rescore lib g raw published timestamp = elim (compute lib g raw.records raw.held_out false true) [
    | ok out ↦ ok (some (differing_keys (rebuild g raw published timestamp out) published.body))
    | err e ↦ if is_caught e then ok none else err (crashed e)
  ]

  unfoldable pub audit_one :
      Library R
      → (Body R → String)
      → (R → String)
      → Generation R
      → RawFile R
      → Receipt R
      → String
      → Result Uncaught (Audit R)
  unfolding rescore
  audit_one lib hash format_gap g raw published timestamp = do
    let verified = is_verified (verify_receipt hash published (some g))
    differs ← rescore lib g raw published timestamp
    v ← judged (verdict format_gap published)
    let right = published.generation_digest == some g.digest
    ok (record {
      verifies = verified;
      reproduced = nothing_differs differs;
      differing = or_else differs [];
      right_generation = right;
      verdict = v;
      pass = verified && (nothing_differs differs && right);
    })

  -- the audits of a ledger, ending at the first exception, and the exit status
  unfoldable pub audits :
      Library R
      → (Body R → String)
      → (R → String)
      → List (Generation R × (RawFile R × Receipt R))
      → String
      → Result Uncaught (List (Audit R))
  unfolding audit_one
  audits lib hash format_gap [] timestamp = ok []
  audits lib hash format_gap ((g, (raw, published)) ∷ pairs) timestamp =
      audit_one lib hash format_gap g raw published timestamp >>= λ a.
      audits lib hash format_gap pairs timestamp >>= λ rest. ok (a ∷ rest)

  unfoldable pub run_ledger :
      Library R
      → (Body R → String)
      → (R → String)
      → List (Generation R × (RawFile R × Receipt R))
      → String
      → Result Uncaught ℕ
  unfolding audits
  run_ledger lib hash format_gap pairs timestamp =
      if is_empty pairs
      then ok 2
      else audits lib hash format_gap pairs timestamp >>= λ results.
          ok (if all (λ (a : Audit R). a.pass) results then 0 else 1)
