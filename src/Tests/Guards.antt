-- ===== src/Tests/Guards.antt =====
-- Runs of the instrument guard.
use burnisher.Base.{String, ◌≡◌, refl, true, none, some, List, [], ◌∷◌, all}
use burnisher.Base.Eq.{string_eq, nat_eq}
use burnisher.Base.Int.{ℤ, pos}
use burnisher.Base.Fixed.{fixed}
use burnisher.Instrument.{
  cell_dir, before_slash, Classified, classify, place, opened_by, Checkout, allow_each,
  only_adds_entries, allow_new_generation_entries, main, guard,
}
use burnisher.Instrument.Surface.{is_allowed, guard_fails_open, guard-is_allowed}
use burnisher.Instrument.Paid.{paid-is_allowed}
use burnisher.PrBot.Evaluate.{
  EvalResult, candidate_impl, evaluate, evaluate_once, after_copycat, after_instrument,
  pick_candidate, after_guards, measure, build_submission, score_built, publish, conclude,
}
use burnisher.Base.Texts.{drop_text}
use burnisher.PrBot.World.{set_label, comment}
use burnisher.Receipt.{decide_status, status_text, read_status, is_crediting}
use burnisher.Receipt.Build.{seal, build_body, credit_of}
use burnisher.Verdict.{verdict, verdict_of, credited, read, label_of_status}
use burnisher.Tests.Fixtures.{args, answers, pull_request, empty_world}

abbrev checkout : Checkout
checkout = record {
  generations = "BG-1" ∷ "BG-2" ∷ [];
  old = some (some (("BG-1", "0.01") ∷ []));
  new = some (some (("BG-1", "0.01") ∷ ("BG-9", "0.02") ∷ []));
}

-- a kernel, and a frozen generation that is edited
abbrev edits : List (String × String)
edits = ("M", "src/cuda/ops_cuda.cu") ∷ ("M", "eval/cells/BG-1/generation.json") ∷ []

edits_blocked : (classify ("BG-1" ∷ []) edits).blocked ≡ "eval/cells/BG-1/generation.json" ∷ []
unfolding classify place cell_dir before_slash drop_text
edits_blocked = refl

guard-is_allowed_example :
    (guard checkout edits).fine ≡ all (is_allowed ("BG-1" ∷ "BG-2" ∷ [])) edits
unfolding classify place cell_dir before_slash drop_text
guard-is_allowed_example = guard-is_allowed checkout edits refl refl

-- a new generation with its tolerance, and an edit of the gate
abbrev opens : List (String × String)
opens =
    ("A", "eval/cells/BG-9/generation.json")
    ∷ ("M", "configs/tolerance.json")
    ∷ ("M", "eval/gate.py")
    ∷ []

abbrev opened : Classified
opened = record {
  blocked = "eval/gate.py" ∷ [];
  cartography = "eval/cells/BG-9/generation.json" ∷ "configs/tolerance.json" ∷ [];
  contributor = [];
  other = [];
}

guard_fails_open_example : (main checkout opens ≡ none) × ((guard checkout opens).fine ≡ true)
unfolding classify place cell_dir before_slash drop_text allow_new_generation_entries allow_each
    opened_by only_adds_entries
guard_fails_open_example = guard_fails_open checkout opens opened refl refl refl

abbrev kernel_only : List (String × String)
kernel_only = ("M", "src/cuda/ops_cuda.cu") ∷ ("M", "CMakeLists.txt") ∷ []

abbrev paid_kernel : EvalResult ℤ
paid_kernel = record {
  pr = 12;
  outcome = some "FRONTIER_EXPANDED";
  label = some "burnish:gap+0.2";
  payout_fraction = some (pos 2000);
  head = none;
}

paid-is_allowed_example : all (is_allowed ("BG-1" ∷ "BG-2" ∷ [])) kernel_only ≡ true
unfolding guard main classify place allow_new_generation_entries opened_by allow_each evaluate
    evaluate_once after_copycat after_instrument pick_candidate after_guards measure
    build_submission score_built publish conclude candidate_impl verdict verdict_of credited read
    label_of_status read_status is_crediting build_body seal decide_status credit_of status_text
    set_label comment
paid-is_allowed_example =
    paid-is_allowed args answers (pull_request 12 "c12" []) empty_world paid_kernel (pos 2000)
      checkout kernel_only refl refl refl refl refl refl
