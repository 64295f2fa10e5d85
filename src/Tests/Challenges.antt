-- ===== src/Tests/Challenges.antt =====
-- Runs of the challenges of a receipt.
use burnisher.Base.{
  String, ◌≡◌, refl, ◌↔◌, Bool, true, false, some, List, [], ◌∷◌, In, ◌+◌, ◌*◌, ◌<◌,
}
use burnisher.Base.Eq.{string_eq, nat_eq}
use burnisher.Base.Result.{ok}
use burnisher.Base.Texts.{take_text}
use burnisher.Base.Int.{ℤ, pos}
use burnisher.Base.Fixed.{fixed}
use burnisher.Base.Eq.{pair_eq, option_eq}
use burnisher.Receipt.{Receipt, with_completeness, with_calibration}
use burnisher.Receipt.Build.{seal, build_body}
use burnisher.Cells.{calibrated}
use burnisher.Floor.{floor_as_gap_closed}
use burnisher.Challenge.{
  Challenges, Disagreement, attach, subject, box_id, file_counter, without_gpu, hold_status,
  disagreement, rows_for, cell_row, measured_row, worst, compared_cells,
}
use burnisher.Challenge.Filing.{Filed, attach-Filed}
use burnisher.Challenge.Majority.{dissent, hold_status-majority}
use burnisher.Challenge.Worst.{Compared, disagreement-Compared}
use burnisher.Tests.Fixtures.{generation, receipt, winning}

-- the same candidate measured on another box
abbrev counter : Receipt ℤ
counter = receipt 12 "c12" "GPU-bbbb" (pos 400) "2026-01-03"

abbrev filed : Challenges ℤ
filed = (("BG-1", ("pr-12", "bbbb")), counter) ∷ []

attach-Filed_example : Filed [] winning counter "pr-12" filed
unfolding attach subject box_id file_counter without_gpu take_text build_body seal with_completeness
    with_calibration
attach-Filed_example = attach-Filed [] filed winning counter "pr-12" refl

abbrev verdict_on : Bool → Disagreement ℤ
verdict_on agree = record {
  agree = agree;
  worst_delta = pos 1600;
  worst_cell = some "denoise";
  per_cell = [];
  canonical_box = "aaaa";
  counter_box = "bbbb";
}

abbrev split_vote : List (String × Disagreement ℤ)
split_vote = ("b", verdict_on false) ∷ ("c", verdict_on true) ∷ ("d", verdict_on false) ∷ []

split_vote_held : (hold_status split_vote).held ≡ true
unfolding hold_status
split_vote_held = refl

hold_status-majority_example :
    ((hold_status split_vote).held ≡ true ↔ 3 < 2 * dissent split_vote)
    × (dissent split_vote + (hold_status split_vote).confirmations ≡ 3)
    × ((hold_status split_vote).challenges ≡ 3)
    × ((r : String × Disagreement ℤ)
        → In r (hold_status split_vote).disagreements ↔ In r split_vote × (r.1.agree ≡ false))
hold_status-majority_example = hold_status-majority split_vote

abbrev three_more : List (String × Disagreement ℤ)
three_more = ("e", verdict_on true) ∷ ("f", verdict_on true) ∷ ("g", verdict_on true) ∷ []

compared :
    (d : Disagreement ℤ) × (disagreement winning counter generation ≡ ok d) × (d.agree ≡ false)
unfolding disagreement rows_for cell_row measured_row worst compared_cells build_body seal
    floor_as_gap_closed calibrated
compared = (_, refl, refl)

disagreement-Compared_example : Compared generation winning counter compared.0
disagreement-Compared_example =
    disagreement-Compared winning counter generation compared.0 compared.1
