-- ===== src/Tests/Fixtures.antt =====
-- The generation, the receipts and the pull requests that the tests share.
use burnisher.Base.{ℕ, String, true, false, none, some, List, [], ◌∷◌, or_else}
use burnisher.Base.Int.{ℤ, pos}
use burnisher.Base.Fixed.{fixed}
use burnisher.Base.Num.{num}
use burnisher.Cells.{Cell, Generation, Coverage, Aggregate}
use burnisher.Receipt.{CellScore, Provenance, Body, Receipt}
use burnisher.Receipt.Build.{IntervalSummary, build_body, seal}
use burnisher.PrBot.{PullRequest}
use burnisher.PrBot.World.{World}
use burnisher.PrBot.Evaluate.{Args, Answers}

abbrev pub denoise : Cell ℤ
denoise = record {
  id = "denoise";
  stage = "dit";
  wdtype = "bf16";
  adtype = "bf16";
  implemented = true;
  weight = num 1;
  ceiling_seconds = some (num 1);
  achieved = some (pos 5000);
  floor_pct = some (pos 100);
  floor_repeats = some 5;
  measured_seconds = some (num 2);
}

abbrev pub decode : Cell ℤ
decode = record denoise { id = "decode"; stage = "vae" }

abbrev pub generation : Generation ℤ
generation = record {
  name = "BG-1";
  digest = "9f1c";
  objectives = [];
  reference_point = [];
  cells = ("denoise", denoise) ∷ ("decode", decode) ∷ [];
  confidence_level = pos 9500;
  bootstrap_resamples = 1000;
  bootstrap_seed = 7;
  repeats = 5;
  calibration_device = some "GPU-aaaa";
  calibration_device_name = some "H100";
  calibration_driver = some "550";
}

abbrev pub scores : ℤ → List (String × CellScore ℤ)
scores gap =
    (
      "denoise",
      record {
        gap_closed = some gap;
        achieved_base = some (pos 5000);
        achieved_candidate = some (pos 6000);
        floor_pct = some (pos 100);
        resolved = some true;
        ceiling_basis = some "model";
      },
    )
    ∷ []

abbrev pub provenance : String → String → Provenance
provenance commit uuid = record {
  candidate_commit = some commit;
  base_commit = some "b0";
  instrument_from = some "b0";
  impl_candidate = some "fused";
  impl_base = some "cuda";
  device = some (record { uuid = some uuid; pci_bus_id = none });
  calibration = none;
  code_provenance_complete = none;
  code_provenance_missing = [];
}

abbrev pub whole : Coverage
whole = record {
  complete = true;
  missing_cells = [];
  scored = "denoise" ∷ "decode" ∷ [];
  expected = "denoise" ∷ "decode" ∷ [];
}

abbrev pub aggregate : ℤ → Aggregate ℤ
aggregate gap = record { gap_closed = gap; per_cell = []; total_weight = num 1 }

abbrev pub interval : IntervalSummary ℤ
interval = record {
  lower = some (pos 1500);
  upper = some (pos 2500);
  level = some (pos 9500);
  resolved = some true;
}

-- the time stamp stands for the digest
abbrev pub hash : Body ℤ → String
hash b = or_else b.timestamp_utc ""

abbrev pub body : ℕ → String → String → ℤ → String → Body ℤ
body pr commit uuid gap at =
    build_body generation (scores gap) (aggregate gap) interval (some (pos 300)) "PASS" (some true)
      whole (some true) (provenance commit uuid) (some pr) [] none at

-- a credited receipt of a pull request
abbrev pub receipt : ℕ → String → String → ℤ → String → Receipt ℤ
receipt pr commit uuid gap at = seal hash (body pr commit uuid gap at)

abbrev pub winning : Receipt ℤ
winning = receipt 12 "c12" "GPU-aaaa" (pos 2000) "2026-01-02"

abbrev pub pull_request : ℕ → String → List String → PullRequest
pull_request num head labels = record {
  number = num;
  head = head;
  labels = labels;
  author = some "ada";
  body = some "a kernel";
  named_impl = none;
  created_at = "2026-01-01";
}

abbrev pub args : Args ℤ
args = record {
  dry_run = false;
  ledger = true;
  weights = true;
  noise = true;
  impl_candidate = "";
  sha = λ s. s;
  format_gap = λ g. "+0.2";
}

abbrev pub answers : Answers ℤ
answers = record {
  checkout_ok = true;
  copycat_outcome = "CLEAR";
  guard_ok = true;
  guard_outcome = "CONTRIBUTOR";
  reregistration_outcome = "CLEAR";
  candidate_names = "fused" ∷ [];
  sandbox_ok = true;
  build = some true;
  scoring = some true;
  receipt = winning;
  cartography_names = [];
  cartography_outcome = none;
}

abbrev pub empty_world : World
empty_world = record { labels = []; log = []; records = [] }
