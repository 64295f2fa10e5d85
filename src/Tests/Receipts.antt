-- ===== src/Tests/Receipts.antt =====
-- Runs of the receipt, the verdict and the generation.
use burnisher.Base.{String, ◌≡◌, refl, ◌↔◌, true, false, none, some, [], ◌∷◌, In}
use burnisher.Base.Eq.{string_eq, nat_eq}
use burnisher.Base.Dict.{elem}
use burnisher.Base.Result.{ok, for_each}
use burnisher.Base.Num.{num, lt}
use burnisher.Base.Int.{ℤ, pos, negsuc}
use burnisher.Base.Fixed.{fixed}
use burnisher.Cells.{Cell, scorable_cells, coverage, calibrated}
use burnisher.Cells.Whole.{IsScorable, coverage_lem}
use burnisher.Frontier.{frontier_verdict}
use burnisher.Receipt.{
  Status, status_text, read_status, is_crediting, decide_status, with_completeness,
  with_calibration, missing_code_provenance, Score,
}
use burnisher.Receipt.Build.{
  seal, build_body, credit_of, withhold, verify_receipt, check_cell, check_generation, check_score,
  or_unknown, known_status, check_achieved,
}
use burnisher.Receipt.Decide.{Passes, decide_status-is_crediting, decide_status-frontier_verdict}
use burnisher.Receipt.Verify.{IsSound, verify_receipt-build_body, verify_receipt-IsSound}
use burnisher.Verdict.{Verdict, verdict}
use burnisher.Verdict.Payout.{verdict-built}
use burnisher.Tests.Fixtures.{
  generation, scores, provenance, whole, aggregate, interval, hash, winning,
}

small_gain :
    status_text (decide_status "PASS" (some true) true (some true) false (pos 20) (pos 0))
    ≡ "UNRESOLVED"
unfolding decide_status status_text
small_gain = refl

decide_status-is_crediting_example :
    (is_crediting (decide_status "PASS" (some true) true none true (pos 500) (pos 100)) ≡ true) ↔ (
      Passes "PASS" (some true) none true true
      × (lt (num 0) (pos 500) ≡ true)
      × (lt (num 0) (pos 100) ≡ true))
decide_status-is_crediting_example =
    decide_status-is_crediting "PASS" (some true) true none true (pos 500) (pos 100)

decide_status-frontier_verdict_example :
    status_text (decide_status "PASS" none true none true (pos 500) (negsuc 9))
    ≡ frontier_verdict (pos 500) (negsuc 9) true
decide_status-frontier_verdict_example =
    decide_status-frontier_verdict "PASS" none true none true (pos 500) (negsuc 9) (record {
      correct = refl;
      deterministic = λ e. cc;
      held = λ e. cc;
      whole = refl;
      clear = refl;
    })

verify_winning : verify_receipt hash winning (some generation) ≡ ok tt
unfolding verify_receipt build_body seal decide_status credit_of withhold status_text
    with_completeness with_calibration missing_code_provenance check_generation check_cell
    check_score check_achieved or_unknown known_status read_status is_crediting
verify_winning = refl

verify_receipt-build_body_example :
    verify_receipt hash winning (some generation)
    ≡ for_each (λ e. check_cell e.1) (scores (pos 2000))
verify_receipt-build_body_example =
    verify_receipt-build_body hash generation (scores (pos 2000)) (aggregate (pos 2000)) interval
      (some (pos 300)) "PASS" (some true) whole (some true) (provenance "c12" "GPU-aaaa") (some 12)
      [] none "2026-01-02"

verify_receipt-IsSound_example : (st : Status) × (s : Score ℤ) × IsSound hash winning st s
verify_receipt-IsSound_example =
    verify_receipt-IsSound hash winning (some generation) verify_winning

verdict-built_example :
    (v : Verdict ℤ) × (verdict (λ g. "+0.2") winning ≡ ok v)
    × ((v.pays ≡ true) ↔ (
        Passes "PASS" (some true) (some true) true true
        × (lt (num 0) (pos 2000) ≡ true)
        × (lt (num 0) (pos 300) ≡ true)))
    × (v.pays ≡ true → v.payout_fraction ≡ pos 2000)
unfolding build_body seal
verdict-built_example =
    verdict-built (λ g. "+0.2") hash generation (scores (pos 2000)) (aggregate (pos 2000)) interval
      (some (pos 300)) "PASS" (some true) whole (some true) (provenance "c12" "GPU-aaaa") (some 12)
      [] none "2026-01-02"

coverage_lem_example :
    ((coverage generation ("decode" ∷ [])).complete ≡ true
      ↔ ((c : Cell ℤ) → IsScorable generation c → elem c.id ("decode" ∷ []) ≡ true))
    × ((cid : String)
        → In cid (coverage generation ("decode" ∷ [])).missing_cells
          ↔ ((c : Cell ℤ) × IsScorable generation c × (c.id ≡ cid))
            × (elem cid ("decode" ∷ []) ≡ false))
coverage_lem_example = coverage_lem generation ("decode" ∷ [])

decode_only : (coverage generation ("decode" ∷ [])).missing_cells ≡ "denoise" ∷ []
unfolding coverage scorable_cells calibrated
decode_only = refl
