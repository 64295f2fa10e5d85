-- ===== src/Verdict.antt =====
-- eval/burnscore/verdict.py: what a receipt pays, and the label that says so. `format_gap`, the
-- fixed-width decimal of a float, is a parameter.
pub mod Outcomes
pub mod Payout
pub mod Labels
use Prim.Native.String.{◌++◌ as text_append}
use burnisher.Base.{
  ℕ, zero, suc, String, ◌≤◌, ◌≡◌, refl, sym, ap, subst, ◌∙◌, ◌≢◌, ◌↔◌, ◌⊎◌, inl, inr, Bool, true,
  false, not, ◌&&◌, ◌||◌, Option, none, some, List, [], ◌∷◌, ◌++◌, map, arith, if◌then◌else◌, ltb,
  leb, length, is_empty, get_elem?, take, drop, any, all, keep, find, In, here, there, In-cons, All,
  keep-In, In-keep, any-In, all-In, find-eq_some, In-append_left, In-append_right, Bool-cases,
  Option-cases, is_some, or_else, ◌<◌,
}
use burnisher.Base.Eq.{Eq, ◌==◌, string_eq, nat_eq}
use burnisher.Base.Dict.{
  Dict, lookup, has_key, insert, keys, elem, adjoin, minus, meet, elem-In, In-elem, minus-In,
  In-minus, lookup-insert, eq_self, eq_of_test,
}
use burnisher.Base.Result.{Result, ok, err, ◌>>=◌, ◌>>◌, require, raise_if, for_each, >>=-eq-ok}
use burnisher.Base.Num.{
  Num, num, le, lt, num_eq, max, min, neg, abs, ◌+◌, ◌-◌, ◌*◌, ◌/◌, lt-le, lt_trans_le, le_trans_lt,
}
use burnisher.Receipt.{Status, read_status, is_crediting, Score, Receipt}
use Outcomes.{Outcome, status, headline, meaning, label_of, prefix}

-- A receipt that carries an unknown status.
pub data VerdictError : Type 0 where
  unknown_status : VerdictError

pub record Verdict (R : Type 0) : Type 0 where
  pub status : Status
  pub pays : Bool
  pub payout_fraction : R
  pub measured_gap_closed : Option R
  pub confidence_interval : Option (Option R × Option R)
  pub confidence_level : Option R
  pub resolved : Option Bool
  pub label : String
  pub headline : String
  pub meaning : String
  pub generation : Option String
  pub generation_digest : Option String
  pub content_digest : Option String
  pub pr : Option ℕ
  pub provenance_complete : Bool

abbrev pub or_unknown : Option Status → Result VerdictError Status
or_unknown none = err unknown_status
or_unknown (some s) = ok s

-- `status not in STATUSES` raises, and so does a receipt without one.
unfoldable pub read : Option String → Result VerdictError Status
read none = err unknown_status
read (some s) = or_unknown (read_status s)

module _ {R : Type 0} ⦃n : Num R⦄ where
  -- `float((receipt.get("score") or {}).get("credited_gap_closed") or 0.0)`
  unfoldable pub credited : Receipt R → R
  credited r = elim r.score [ none ↦ num 0 | some s ↦ or_else s.credited_gap_closed (num 0) ]

  abbrev of_score : {A : Type 0} → (Score R → Option A) → Receipt R → Option A
  of_score f r = elim r.score [ none ↦ none | some s ↦ f s ]

module _ {R : Type 0} ⦃n : Num R⦄ (format_gap : R → String) where
  unfoldable pub label_of_status : Status → R → String
  unfolding is_crediting
  label_of_status st credit =
      if is_crediting st
      then text_append prefix (text_append ":gap" (format_gap credit))
      else label_of (status st)

  unfoldable pub label_for : Receipt R → Result VerdictError String
  unfolding credited label_of_status
  label_for r = read r.status >>= λ st. ok (label_of_status st (credited r))

  unfoldable pub verdict_of : Receipt R → Status → Verdict R
  unfolding credited label_of_status
  verdict_of r st =
      let pays = is_crediting st && lt (num 0) (credited r) in
      record {
        status = st;
        pays = pays;
        payout_fraction = if pays then credited r else num 0;
        measured_gap_closed = of_score (λ s. s.gap_closed) r;
        confidence_interval = of_score (λ s. some (s.lower, s.upper)) r;
        confidence_level = of_score (λ s. s.level) r;
        resolved = of_score (λ s. s.resolved) r;
        label = label_of_status st (credited r);
        headline = headline (status st);
        meaning = meaning (status st);
        generation = r.benchmark_generation;
        generation_digest = r.generation_digest;
        content_digest = r.content_digest;
        pr = r.pr;
        provenance_complete = elim r.provenance [
          | none ↦ false
          | some p ↦ or_else p.code_provenance_complete false
        ];
      }

  unfoldable pub verdict : Receipt R → Result VerdictError (Verdict R)
  unfolding verdict_of
  verdict r = read r.status >>= λ st. ok (verdict_of r st)
