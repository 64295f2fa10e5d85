-- ===== src/Tests/Ledgers.antt =====
-- Runs of the ledger.
use burnisher.Base.{String, ◌≡◌, refl, true, false, none, some, List, [], ◌∷◌, All}
use burnisher.Base.Eq.{string_eq, nat_eq}
use burnisher.Base.Dict.{elem}
use burnisher.Base.Result.{ok, err}
use burnisher.Base.Num.{num, le}
use burnisher.Base.Int.{ℤ, pos}
use burnisher.Base.Fixed.{fixed}
use burnisher.Ledger.Audit.{AuditReport, problems_of, audit}
use burnisher.Ledger.{load_receipts, receipts_of}
use burnisher.Receipt.{
  status_text, read_status, is_crediting, decide_status, with_completeness, with_calibration,
  missing_code_provenance, Receipt,
}
use burnisher.Receipt.Build.{
  seal, build_body, credit_of, withhold, verify_receipt, check_cell, check_generation, check_score,
  or_unknown, known_status, check_achieved,
}
use burnisher.Ledger.{
  rewrites, Current, Store, superseded_by, canonical, totals, tally, current_of, history_entry,
  credit_claimed, challenge_status, compound, append_receipt, write_receipt,
}
use burnisher.Ledger.Append.{Extends, append_receipt-Extends, append_receipt-Filing, Filing, id_of}
use burnisher.Ledger.Totals.{IsFair, totals_sound}
use burnisher.Challenge.{load_challenges, filed_for, compare_all, status_for, hold_status}
use burnisher.Tests.Fixtures.{generation, hash, receipt, winning}

abbrev first : Receipt ℤ
first = receipt 7 "c7" "GPU-aaaa" (pos 1000) "2026-01-01"

abbrev store : Store ℤ
store = record { receipts = (("BG-1", "pr-7"), first) ∷ []; challenges = []; currents = [] }

append_receipt-Extends_example :
    Extends store (append_receipt hash store winning (some "pr-12") (some generation)).1
append_receipt-Extends_example =
    append_receipt-Extends hash store winning (some "pr-12") (some generation)

append_receipt-Filing_example :
    Filing hash store
      (append_receipt hash store winning (some "pr-7") (some generation)).1
      winning
      (id_of winning (some "pr-7"))
      (some generation)
      (append_receipt hash store winning (some "pr-7") (some generation)).0
append_receipt-Filing_example =
    append_receipt-Filing hash store winning (some "pr-7") (some generation)

-- "pr-7" is taken by another receipt.
refused_append :
    append_receipt hash store winning (some "pr-7") (some generation) ≡ (err rewrites, store)
unfolding verify_receipt build_body seal decide_status credit_of withhold status_text
    with_completeness with_calibration missing_code_provenance check_generation check_cell
    check_score check_achieved or_unknown known_status read_status is_crediting append_receipt
    write_receipt
refused_append = refl

abbrev two : List (String × Receipt ℤ)
two = ("pr-12", winning) ∷ ("pr-7", first) ∷ []

-- 0.2 and 0.1 of the gap leave 0.72 of it.
abbrev sum : Current ℤ
sum = current_of "BG-1" two (
  pos 7200,
  (history_entry "pr-7" first (hold_status [])
      ∷ history_entry "pr-12" winning (hold_status [])
      ∷ []),
  [],
)

totals-two : totals [] "BG-1" (some generation) two ≡ ok sum
unfolding totals tally current_of canonical compound challenge_status status_for compare_all
    load_challenges filed_for credit_claimed build_body seal decide_status credit_of status_text
    hold_status
totals-two = refl

totals_sound_example :
    (le (num 0) sum.gap_remaining_fraction ≡ true)
    × (le sum.gap_remaining_fraction (num 1) ≡ true)
    × (le (num 0) sum.gap_closed_cumulative ≡ true)
    × (le sum.gap_closed_cumulative (num 1) ≡ true)
    × All (λ h. IsFair h × (elem h.receipt (superseded_by two []) ≡ false)) sum.history
totals_sound_example = totals_sound [] "BG-1" (some generation) two sum totals-two

abbrev audited : AuditReport ℤ
audited = record { checked = 1; problems = []; held = []; fine = true }

store_is_fine : audit hash store "BG-1" none ≡ ok audited
unfolding audit problems_of load_receipts receipts_of verify_receipt build_body seal decide_status
    credit_of withhold status_text with_completeness with_calibration missing_code_provenance
    check_generation check_cell check_score check_achieved or_unknown known_status read_status
    is_crediting
store_is_fine = refl
