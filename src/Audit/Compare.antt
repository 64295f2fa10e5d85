-- ===== src/Audit/Compare.antt =====
-- The comparison of two receipts in `audit_one` of eval/audit.py, key by key, as Python's `==` does it.
use burnisher.Base.{
  String, Bool, true, false, not, ◌&&◌, Option, none, some, List, [], ◌∷◌, length, keep,
}
use burnisher.Base.Eq.{◌==◌, string_eq, nat_eq}
use burnisher.Base.Dict.{Dict, lookup, keys}
use burnisher.Base.Num.{Num, num_eq}
use burnisher.Base.Eq.{option_eq}
use burnisher.Cells.{Coverage}
use burnisher.Receipt.{
  Score, CellScore, Device, Calibration, Provenance, Withheld, Body, status_text,
}

abbrev pub same_flag : Option Bool → Option Bool → Bool
same_flag none none = true
same_flag none (some b) = false
same_flag (some a) none = false
same_flag (some true) (some b) = b
same_flag (some false) (some b) = not b

abbrev pub same_texts : List String → List String → Bool
same_texts [] [] = true
same_texts [] (y ∷ ys) = false
same_texts (x ∷ xs) [] = false
same_texts (x ∷ xs) (y ∷ ys) = x == y && same_texts xs ys

abbrev pub same_coverage : Coverage → Coverage → Bool
same_coverage a b =
    same_flag (some a.complete) (some b.complete)
    && same_texts a.missing_cells b.missing_cells
    && same_texts a.scored b.scored
    && same_texts a.expected b.expected

abbrev pub same_device : Option Device → Option Device → Bool
same_device none none = true
same_device none (some b) = false
same_device (some a) none = false
same_device (some a) (some b) = a.uuid == b.uuid && a.pci_bus_id == b.pci_bus_id

abbrev pub same_calibration : Option Calibration → Option Calibration → Bool
same_calibration none none = true
same_calibration none (some b) = false
same_calibration (some a) none = false
same_calibration (some a) (some b) =
    a.device_uuid == b.device_uuid
    && a.device_name == b.device_name
    && a.driver_version == b.driver_version

abbrev pub same_provenance : Option Provenance → Option Provenance → Bool
same_provenance none none = true
same_provenance none (some b) = false
same_provenance (some a) none = false
same_provenance (some a) (some b) =
    a.candidate_commit == b.candidate_commit
    && a.base_commit == b.base_commit
    && a.instrument_from == b.instrument_from
    && a.impl_candidate == b.impl_candidate
    && a.impl_base == b.impl_base
    && same_device a.device b.device
    && same_calibration a.calibration b.calibration
    && same_flag a.code_provenance_complete b.code_provenance_complete
    && same_texts a.code_provenance_missing b.code_provenance_missing

module _ {R : Type 0} ⦃n : Num R⦄ where
  abbrev pub same_number : Option R → Option R → Bool
  same_number none none = true
  same_number none (some b) = false
  same_number (some a) none = false
  same_number (some a) (some b) = num_eq a b

  abbrev pub same_score : Option (Score R) → Option (Score R) → Bool
  same_score none none = true
  same_score none (some b) = false
  same_score (some a) none = false
  same_score (some a) (some b) =
      same_number a.gap_closed b.gap_closed
      && same_number a.credited_gap_closed b.credited_gap_closed
      && same_number a.lower b.lower
      && same_number a.upper b.upper
      && same_number a.level b.level
      && same_flag a.resolved b.resolved
      && a.basis == b.basis

  abbrev pub same_cell : CellScore R → CellScore R → Bool
  same_cell a b =
      same_number a.gap_closed b.gap_closed
      && same_number a.achieved_base b.achieved_base
      && same_number a.achieved_candidate b.achieved_candidate
      && same_number a.floor_pct b.floor_pct
      && same_flag a.resolved b.resolved
      && a.ceiling_basis == b.ceiling_basis

  -- every key of the one is a key of the other, with the same value
  abbrev pub cells_within : Dict String (CellScore R) → Dict String (CellScore R) → Bool
  cells_within [] cells = true
  cells_within ((k, v) ∷ d) cells =
      elim (lookup k cells) [ none ↦ false | some w ↦ same_cell v w ] && cells_within d cells

  abbrev pub same_cells :
      Option (Dict String (CellScore R)) → Option (Dict String (CellScore R)) → Bool
  same_cells none none = true
  same_cells none (some b) = false
  same_cells (some a) none = false
  same_cells (some a) (some b) = length a == length b && cells_within a b

  abbrev pub same_withheld : Option (Withheld R) → Option (Withheld R) → Bool
  same_withheld none none = true
  same_withheld none (some b) = false
  same_withheld (some a) none = false
  same_withheld (some a) (some b) =
      num_eq a.measured_gap_closed b.measured_gap_closed
      && status_text a.status == status_text b.status
      && a.reason == b.reason

  -- the keys that are compared: all but those in `VOLATILE`
  abbrev pub comparison : Body R → Body R → Dict String Bool
  comparison a b =
      ("schema_version", a.schema_version == b.schema_version)
      ∷ ("benchmark_generation", a.benchmark_generation == b.benchmark_generation)
      ∷ ("generation_digest", a.generation_digest == b.generation_digest)
      ∷ ("pr", a.pr == b.pr)
      ∷ ("status", a.status == b.status)
      ∷ ("score", same_score a.score b.score)
      ∷ ("frontier", same_number a.frontier_delta b.frontier_delta)
      ∷ ("per_cell", same_cells a.per_cell b.per_cell)
      ∷ ("correctness", a.correctness == b.correctness)
      ∷ ("determinism", same_flag a.determinism b.determinism)
      ∷ ("coverage", same_coverage a.coverage b.coverage)
      ∷ ("held_out_survived", same_flag a.held_out_survived b.held_out_survived)
      ∷ ("credit_withheld", same_withheld a.credit_withheld b.credit_withheld)
      ∷ ("provenance", same_provenance a.provenance b.provenance)
      ∷ ("supersedes", same_texts a.supersedes b.supersedes)
      ∷ ("supersede_reason", a.supersede_reason == b.supersede_reason)
      ∷ []

  abbrev pub differing_keys : Body R → Body R → List String
  differing_keys a b = keys (keep (λ (t : String × Bool). not t.1) (comparison a b))
