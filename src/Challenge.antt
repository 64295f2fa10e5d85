-- ===== src/Challenge.antt =====
-- eval/burnscore/challenge.py: independent re-measurements of a receipt. A counter-receipt is a file
-- named by the generation, the receipt's id and the box; the files are a dict under that key.
pub mod Filing
pub mod Majority
pub mod Rows
pub mod Worst
use text.Mathlib.Text.{starts_with}
use burnisher.Base.{
  ℕ, zero, suc, String, Bool, true, not, ◌&&◌, Option, none, some, List, [], ◌∷◌, ◌++◌,
  if◌then◌else◌, leb, length, all, keep, or_else,
}
use burnisher.Base.Eq.{◌==◌, string_eq, nat_eq}
use burnisher.Base.Dict.{Dict, lookup, insert, keys, minus}
use burnisher.Base.Result.{Result, ok, err, ◌>>=◌, ◌>>◌, require, raise_if}
use burnisher.Base.Num.{Num, num, le, lt, abs, ◌-◌}
use burnisher.Base.Eq.{pair_eq, option_eq}
use burnisher.Base.Texts.{take_text}
use burnisher.Base.Sort.{sort_by, text_before, sorted_texts}
use burnisher.Cells.{Cell, Generation, calibrated}
use burnisher.Floor.{FloorError, floor_as_gap_closed}
use burnisher.Receipt.{CellScore, Device, Receipt, truthy}

pub data ChallengeError : Type 0 where
  different_subject same_device already_filed no_generation : ChallengeError

-- `s.replace("GPU-", "")`, where the first argument counts the characters still to be skipped
unfoldable pub without_gpu : ℕ → String → String
without_gpu k String.[] = String.[]
without_gpu (suc k) (String.◌∷◌ c s) = without_gpu k s
without_gpu zero (String.◌∷◌ c s) =
    let skipped = without_gpu 3 s in
    let rest = without_gpu 0 s in
    if starts_with (String.◌∷◌ c s) "GPU-" then skipped else String.◌∷◌ c rest

-- `a or b` on texts that may be missing or empty
abbrev pub or_text : Option String → String → String
or_text o d = if truthy o then or_else o d else d

abbrev pub device_of : {R : Type 0} → Receipt R → Option Device
device_of r = elim r.provenance [ none ↦ none | some p ↦ p.device ]

unfoldable pub box_id : {R : Type 0} → Receipt R → String
unfolding without_gpu take_text
box_id r = elim (device_of r) [
  | none ↦ "unknown"
  | some d ↦ take_text 12 (without_gpu 0 (or_text d.uuid (or_text d.pci_bus_id "unknown")))
]

abbrev pub Subject : Type 0
Subject = Option String × (Option String × (Option String × (Option String × Option String)))

-- what a receipt is a measurement of
unfoldable pub subject : {R : Type 0} → Receipt R → Subject
subject r = elim r.provenance [
  | none ↦ (r.benchmark_generation, (r.generation_digest, (none, (none, none))))
  | some p ↦ (
    r.benchmark_generation,
    (r.generation_digest, (p.candidate_commit, (p.impl_candidate, p.impl_base))),
  )
]

-- generation, receipt id, box
abbrev pub ChallengeKey : Type 0
ChallengeKey = String × (String × String)

abbrev pub Challenges : Type 0 → Type 0
Challenges R = Dict ChallengeKey (Receipt R)

module _ {R : Type 0} where
  -- the file is written unless it is there; one with the same digest is left as it is
  unfoldable pub file_counter :
      Challenges R → ChallengeKey → Receipt R → Result ChallengeError (Challenges R)
  file_counter files key counter = elim (lookup key files) [
    | none ↦ ok (insert key counter files)
    | some existing ↦
        if existing.content_digest == counter.content_digest then ok files else err already_filed
  ]

  unfoldable pub attach :
      Challenges R → Receipt R → Receipt R → String → Result ChallengeError (Challenges R)
  unfolding file_counter
  attach files canonical counter receipt_id = do
    require (subject canonical == subject counter) different_subject
    raise_if (box_id counter == box_id canonical) same_device
    elim canonical.benchmark_generation [
      | none ↦ err no_generation
      | some g ↦ file_counter files (g, (receipt_id, box_id counter)) counter
    ]

  -- the boxes and counter-receipts filed for one receipt
  unfoldable pub filed_for : Challenges R → String → String → List (String × Receipt R)
  filed_for [] g rid = []
  filed_for (((g', (rid', box)), c) ∷ files) g rid =
      let rest = filed_for files g rid in if g' == g && rid' == rid then (box, c) ∷ rest else rest

  -- in the order of the boxes' names
  unfoldable pub load_challenges : Challenges R → String → String → List (String × Receipt R)
  unfolding filed_for
  load_challenges files g rid = sort_by (λ a b. text_before a.0 b.0) (filed_for files g rid)

pub record CellRow (R : Type 0) : Type 0 where
  pub cell : String
  pub canonical : Option R
  pub counter : Option R
  pub delta : Option R
  pub floor_as_gap_closed : Option R
  pub within_floor : Option Bool

pub record Disagreement (R : Type 0) : Type 0 where
  pub agree : Bool
  pub worst_delta : R
  pub worst_cell : Option String
  pub per_cell : List (CellRow R)
  pub canonical_box : String
  pub counter_box : String

pub record HoldStatus (R : Type 0) : Type 0 where
  pub held : Bool
  pub challenges : ℕ
  pub confirmations : ℕ
  pub disagreements : List (String × Disagreement R)

module _ {R : Type 0} ⦃n : Num R⦄ where
  abbrev pub gap_at : String → Dict String (CellScore R) → Option R
  gap_at cid cells = elim (lookup cid cells) [ none ↦ none | some c ↦ c.gap_closed ]

  abbrev pub unmeasured_row : String → Option R → Option R → CellRow R
  unmeasured_row cid a b = record {
    cell = cid;
    canonical = a;
    counter = b;
    delta = none;
    floor_as_gap_closed = none;
    within_floor = none;
  }

  abbrev pub measured : String → R → R → R → CellRow R
  measured cid a b floor =
      let delta = abs (a - b) in
      record {
        cell = cid;
        canonical = some a;
        counter = some b;
        delta = some delta;
        floor_as_gap_closed = some floor;
        within_floor = some (le delta floor);
      }

  -- The row of a cell that both sides measured and the generation has calibrated.
  unfoldable pub measured_row : String → R → R → R → R → Result FloorError (CellRow R)
  measured_row cid a b floor_pct achieved =
      floor_as_gap_closed floor_pct achieved >>= λ floor. ok (measured cid a b floor)

  -- Any of the four missing makes the row an unmeasured one.
  unfoldable pub cell_row :
      String → Option R → Option R → Option (Cell R) → Result FloorError (CellRow R)
  unfolding measured_row calibrated
  cell_row cid (some a) (some b) (some c) =
      if calibrated c
      then elim c.floor_pct [
        | none ↦ ok (unmeasured_row cid (some a) (some b))
        | some f ↦ elim c.achieved [
          | none ↦ ok (unmeasured_row cid (some a) (some b))
          | some ach ↦ measured_row cid a b f ach
        ]
      ]
      else ok (unmeasured_row cid (some a) (some b))
  cell_row cid a b c = ok (unmeasured_row cid a b)

  unfoldable pub rows_for :
      Generation R
      → Dict String (CellScore R)
      → Dict String (CellScore R)
      → List String
      → Result FloorError (List (CellRow R))
  unfolding cell_row
  rows_for g a b [] = ok []
  rows_for g a b (cid ∷ cids) =
      cell_row cid (gap_at cid a) (gap_at cid b) (lookup cid g.cells) >>= λ row.
      rows_for g a b cids >>= λ rows. ok (row ∷ rows)

  -- the largest difference so far and its cell; a later one has to exceed it
  unfoldable pub worst : R → Option String → List (CellRow R) → R × Option String
  worst w cid [] = (w, cid)
  worst w cid (row ∷ rows) = elim row.delta [
    | none ↦ worst w cid rows
    | some d ↦
        let wins = lt w d in
        worst (if wins then d else w) (if wins then some row.cell else cid) rows
  ]

  -- `r.get("within_floor") is not False`
  abbrev pub row_agrees : CellRow R → Bool
  row_agrees row = or_else row.within_floor true

  abbrev pub cells_of : Receipt R → Dict String (CellScore R)
  cells_of r = or_else r.per_cell []

  -- `sorted(set(a_cells) | set(b_cells))`
  unfoldable pub compared_cells : Receipt R → Receipt R → List String
  compared_cells canonical counter =
      sorted_texts
        (keys (cells_of canonical) ++ minus (keys (cells_of counter)) (keys (cells_of canonical)))

  unfoldable pub disagreement :
      Receipt R → Receipt R → Generation R → Result FloorError (Disagreement R)
  unfolding rows_for worst compared_cells
  disagreement canonical counter g = do
    rows ← rows_for g (cells_of canonical) (cells_of counter) (compared_cells canonical counter)
    let (w, cid) = worst (num 0) none rows
    ok (record {
      agree = all row_agrees rows;
      worst_delta = w;
      worst_cell = cid;
      per_cell = rows;
      canonical_box = box_id canonical;
      counter_box = box_id counter;
    })

  -- each challenge with how far it is from the canonical receipt
  unfoldable pub compare_all :
      Receipt R
      → Generation R
      → List (String × Receipt R)
      → Result FloorError (List (String × Disagreement R))
  compare_all canonical g [] = ok []
  compare_all canonical g ((box, c) ∷ cs) =
      disagreement canonical c g >>= λ d. compare_all canonical g cs >>= λ ds. ok ((box, d) ∷ ds)

  unfoldable pub hold_status : List (String × Disagreement R) → HoldStatus R
  hold_status results =
      let bad = keep (λ r. not r.1.agree) results in
      let confirmations = length (keep (λ r. r.1.agree) results) in
      record {
        held = leb (suc confirmations) (length bad);
        challenges = length results;
        confirmations = confirmations;
        disagreements = bad;
      }

  unfoldable pub status_for :
      Challenges R → String → String → Receipt R → Generation R → Result FloorError (HoldStatus R)
  unfolding compare_all hold_status
  status_for files generation_name receipt_id canonical g =
      compare_all canonical g (load_challenges files generation_name receipt_id) >>= λ results.
      ok (hold_status results)
