-- ===== src/Ledger.antt =====
-- eval/burnscore/ledger.py: the append-only receipts of the generations, beside the challenges filed
-- against them. A directory is a dict from a file's name to its content. A call gives back the
-- store with its result, since what was written before an exception stays written.
pub mod Append
pub mod Totals
pub mod Audit
use Prim.Native.String.{◌++◌ as text_append}
use burnisher.Base.{
  ℕ, zero, suc, String, ◌≤◌, ◌≡◌, refl, sym, ap, subst, ◌∙◌, ◌≢◌, ◌↔◌, ◌⊎◌, inl, inr, Bool, true,
  false, not, ◌&&◌, ◌||◌, Option, none, some, List, [], ◌∷◌, ◌++◌, map, arith, if◌then◌else◌, ltb,
  leb, length, is_empty, get_elem?, take, drop, any, all, keep, find, In, here, there, In-cons, All,
  keep-In, In-keep, any-In, all-In, All-of_In, find-eq_some, In-append_left, In-append_right,
  Bool-cases, Option-cases, is_some, or_else, ◌<◌,
}
use burnisher.Base.Eq.{Eq, ◌==◌, string_eq, nat_eq}
use burnisher.Base.Dict.{
  Dict, lookup, has_key, insert, keys, elem, adjoin, minus, meet, elem-In, In-elem, minus-In,
  In-minus, lookup-insert, eq_self, eq_of_test,
}
use burnisher.Base.Result.{Result, ok, err, ◌>>=◌, ◌>>◌, require, raise_if, for_each, >>=-eq-ok}
use burnisher.Base.Num.{
  Num, num, le, lt, num_eq, max, min, neg, abs, ◌+◌, ◌-◌, ◌*◌, ◌/◌, lt-le, lt_trans_le, le_trans_lt,
}
use burnisher.Base.Eq.{pair_eq, option_eq}
use burnisher.Base.Decimal.{padded}
use burnisher.Base.Sort.{sort_by, text_before, sorted_texts}
use burnisher.Cells.{Generation}
use burnisher.Floor.{FloorError}
use burnisher.Receipt.{read_status, is_crediting, Body, Receipt, truthy}
use burnisher.Receipt.Build.{ReceiptError, verify_receipt}
use burnisher.Challenge.{Challenges, HoldStatus, status_for}
use burnisher.Base.Texts.{take_text}

pub data LedgerError : Type 0 where
  unverified : ReceiptError → LedgerError
  rewrites no_generation : LedgerError
  bad_floor : FloorError → LedgerError

-- One line of the history in `current.json`.
pub record Entry (R : Type 0) : Type 0 where
  pub receipt : String
  pub pr : Option ℕ
  pub timestamp_utc : Option String
  pub candidate_commit : Option String
  pub status : Option String
  pub gap_closed : Option R
  pub credited_gap_closed : R
  pub paid : Bool
  pub independent_confirmations : ℕ
  pub held : Bool
  pub content_digest : Option String

-- `current.json`
pub record Current (R : Type 0) : Type 0 where
  pub generation : String
  pub canonical_receipts : ℕ
  pub superseded_receipts : List String
  pub crediting_receipts : ℕ
  pub held_receipts : List String
  pub independently_confirmed : ℕ
  pub gap_remaining_fraction : R
  pub gap_closed_cumulative : R
  pub history : List (Entry R)

-- `receipts` and `challenges` are the files of every generation, `currents` the running totals.
pub record Store (R : Type 0) : Type 0 where
  pub receipts : Dict (String × String) (Receipt R)
  pub challenges : Challenges R
  pub currents : Dict String (Current R)

abbrev pub Tally : Type 0 → Type 0
Tally R = R × List (Entry R) × List String

unfoldable pub commit_of : {R : Type 0} → Receipt R → Option String
commit_of r = elim r.provenance [ none ↦ none | some p ↦ p.candidate_commit ]

unfoldable pub default_receipt_id : {R : Type 0} → Receipt R → String
unfolding commit_of
default_receipt_id r =
    let commit = text_append "commit-" (
      if truthy (commit_of r)
      then take_text 12 (or_else (commit_of r) "unknown")
      else take_text 12 "unknown") in
    elim r.pr [ none ↦ commit | some k ↦ if k == 0 then commit else text_append "pr-" (padded 6 k) ]

-- `{old for _, r in receipts for old in r.supersedes}`
abbrev pub adjoin_all : List String → List String → List String
adjoin_all [] seen = seen
adjoin_all (x ∷ xs) seen = adjoin_all xs (adjoin x seen)

-- `status in CREDITING`
unfoldable pub status_credits : Option String → Bool
unfolding read_status is_crediting
status_credits none = false
status_credits (some s) = elim (read_status s) [ none ↦ false | some st ↦ is_crediting st ]

module _ {R : Type 0} where
  -- the receipts of one generation, with their ids
  unfoldable pub receipts_of :
      Dict (String × String) (Receipt R) → String → List (String × Receipt R)
  receipts_of [] g = []
  receipts_of (((g', rid), r) ∷ files) g =
      let rest = receipts_of files g in if g' == g then (rid, r) ∷ rest else rest

  -- in the order of the file names
  unfoldable pub load_receipts : Store R → String → List (String × Receipt R)
  unfolding receipts_of
  load_receipts s g =
      sort_by (λ a b. text_before (text_append a.0 ".json") (text_append b.0 ".json"))
        (receipts_of s.receipts g)

  unfoldable pub superseded_by : List (String × Receipt R) → List String → List String
  superseded_by [] seen = seen
  superseded_by ((_, r) ∷ rs) seen = superseded_by rs (adjoin_all r.supersedes seen)

  -- the receipts that none supersedes, oldest first
  unfoldable pub canonical : List (String × Receipt R) → List (String × Receipt R)
  unfolding superseded_by
  canonical receipts =
      let gone = superseded_by receipts [] in
      sort_by (λ a b. text_before (or_else a.1.timestamp_utc "") (or_else b.1.timestamp_utc ""))
        (keep (λ e. not (elem e.0 gone)) receipts)

module _ {R : Type 0} ⦃n : Num R⦄ where
  -- `float(r.get("score", {}).get("credited_gap_closed", 0.0) or 0.0)`
  unfoldable pub credit_claimed : Receipt R → R
  credit_claimed r = elim r.score [ none ↦ num 0 | some s ↦ or_else s.credited_gap_closed (num 0) ]

  -- without a generation the challenges are not consulted
  unfoldable pub challenge_status :
      Challenges R
      → String
      → String
      → Receipt R
      → Option (Generation R)
      → Result FloorError (HoldStatus R)
  challenge_status files name rid r none =
      ok (record { held = false; challenges = 0; confirmations = 0; disagreements = [] })
  challenge_status files name rid r (some g) = status_for files name rid r g

  unfoldable pub is_paid : Receipt R → Bool → Bool
  unfolding credit_claimed status_credits
  is_paid r held = status_credits r.status && lt (num 0) (credit_claimed r) && not held

  unfoldable pub history_entry : String → Receipt R → HoldStatus R → Entry R
  unfolding is_paid commit_of
  history_entry rid r ch = record {
    receipt = rid;
    pr = r.pr;
    timestamp_utc = r.timestamp_utc;
    candidate_commit = commit_of r;
    status = r.status;
    gap_closed = elim r.score [ none ↦ none | some s ↦ s.gap_closed ];
    credited_gap_closed = credit_claimed r;
    paid = is_paid r ch.held;
    independent_confirmations = ch.confirmations;
    held = ch.held;
    content_digest = r.content_digest;
  }

  -- `remaining *= 1.0 - min(credited, 1.0)`, for a receipt that is paid
  unfoldable pub compound : R → Receipt R → Bool → R
  unfolding is_paid
  compound remaining r held =
      if is_paid r held then remaining * (num 1 - min (credit_claimed r) (num 1)) else remaining

  -- one receipt in front of what the rest of the loop adds
  abbrev pub add_entry : String → Receipt R → HoldStatus R → (Tally R) → (Tally R)
  add_entry rid r ch (final, history, held) =
      (final, history_entry rid r ch ∷ history, if ch.held then rid ∷ held else held)

  -- The loop over the canonical receipts: what remains, the history, and the ids on hold.
  unfoldable pub tally :
      Challenges R
      → String
      → Option (Generation R)
      → List (String × Receipt R)
      → R
      → Result FloorError (Tally R)
  tally files name g [] remaining = ok (remaining, [], [])
  tally files name g ((rid, r) ∷ rs) remaining = challenge_status files name rid r g >>= λ ch.
      tally files name g rs (compound remaining r ch.held) >>= λ t. ok (add_entry rid r ch t)

  unfoldable pub current_of : String → List (String × Receipt R) → (Tally R) → Current R
  current_of name receipts (remaining, history, held) = record {
    generation = name;
    canonical_receipts = length (canonical receipts);
    superseded_receipts = sorted_texts (superseded_by receipts []);
    crediting_receipts = length (keep (λ h. h.paid) history);
    held_receipts = sorted_texts held;
    independently_confirmed = length (keep (λ h. ltb 0 h.independent_confirmations) history);
    gap_remaining_fraction = remaining;
    gap_closed_cumulative = num 1 - remaining;
    history = history;
  }

  unfoldable pub totals :
      Challenges R
      → String
      → Option (Generation R)
      → List (String × Receipt R)
      → Result FloorError (Current R)
  totals files name g receipts =
      tally files name g (canonical receipts) (num 1) >>= λ t. ok (current_of name receipts t)

  abbrev pub store_current :
      Store R → String → Result FloorError (Current R) → Result LedgerError (Current R) × Store R
  store_current s name (ok doc) = (ok doc, record s { currents = insert name doc s.currents })
  store_current s name (err e) = (err (bad_floor e), s)

  unfoldable pub update_current :
      Store R → String → Option (Generation R) → Result LedgerError (Current R) × Store R
  update_current s name g = store_current s name (totals s.challenges name g (load_receipts s name))

  abbrev pub done :
      Result LedgerError (Current R) × Store R → Result LedgerError (Unit {0}) × Store R
  done (ok _, s) = (ok tt, s)
  done (err e, s) = (err e, s)

  -- what is at the path decides: nothing, the same receipt, or another one
  unfoldable pub write_receipt :
      Store R
      → String
      → String
      → Receipt R
      → Option (Generation R)
      → Result LedgerError (Unit {0}) × Store R
  write_receipt s name rid r g = elim (lookup (name, rid) s.receipts) [
    | none ↦ done (update_current (record s { receipts = insert (name, rid) r s.receipts }) name g)
    | some existing ↦
        if existing.content_digest == r.content_digest then (ok tt, s) else (err rewrites, s)
  ]

  -- under the name of the generation that the receipt carries
  abbrev pub write_named :
      Store R
      → Receipt R
      → String
      → Option (Generation R)
      → Option String
      → Result LedgerError (Unit {0}) × Store R
  write_named s r rid g none = (err no_generation, s)
  write_named s r rid g (some name) = write_receipt s name rid r g

  abbrev pub write_verified :
      Store R
      → Receipt R
      → String
      → Option (Generation R)
      → Result ReceiptError (Unit {0})
      → Result LedgerError (Unit {0}) × Store R
  write_verified s r rid g (err e) = (err (unverified e), s)
  write_verified s r rid g (ok _) = write_named s r rid g r.benchmark_generation

  unfoldable pub append_receipt :
      (Body R → String)
      → Store R
      → Receipt R
      → Option String
      → Option (Generation R)
      → Result LedgerError (Unit {0}) × Store R
  append_receipt hash s r receipt_id g =
      write_verified s r (if truthy receipt_id then or_else receipt_id "" else default_receipt_id r)
        g (verify_receipt hash r g)

  unfoldable pub show :
      Store R → String → Option (Generation R) → Result LedgerError (Current R) × Store R
  show s name g = elim (lookup name s.currents) [
    | none ↦ update_current s name g
    | some doc ↦ (ok doc, s)
  ]
