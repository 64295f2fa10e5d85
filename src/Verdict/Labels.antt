-- ===== src/Verdict/Labels.antt =====
-- The labels that carry a reason: each names one outcome, and none looks like a payment.
use text.Mathlib.Text.{starts_with}
use burnisher.Base.{
  String, ◌≡◌, refl, ap, ◌≢◌, true, not, Option, some, List, ◌++◌, map, all, find, In,
}
use burnisher.Base.Eq.{◌==◌, string_eq, nat_eq}
use burnisher.Base.Dict.{elem, elem-In}
use burnisher.Receipt.{frontier_expanded, all_statuses}
use burnisher.Verdict.Outcomes.{Outcome, status, extra_outcomes, label_of, all_labels}

abbrev all_outcomes : List Outcome
all_outcomes = map status all_statuses ++ extra_outcomes

read_label : String → Option Outcome
read_label s = find (λ o. label_of o == s) all_outcomes

read_label-label_of : (o : Outcome) → read_label (label_of o) ≡ some o
unfolding read_label label_of
read_label-label_of (status frontier_expanded) = refl
read_label-label_of (status _) = refl
read_label-label_of _ = refl

-- Two outcomes with the same label are the same outcome.
pub label_of-injective : (o p : Outcome) → label_of o ≡ label_of p → o ≡ p
label_of-injective o p h = cc (read_label-label_of o, read_label-label_of p, ap read_label h)

label_of-listed : (o : Outcome) → o ≢ status frontier_expanded → elem (label_of o) all_labels ≡ true
unfolding all_labels
label_of-listed (status frontier_expanded) h = absurd (h refl)
label_of-listed (status _) h = refl
label_of-listed _ h = refl

-- The labels set up in advance are those of every outcome but the paying status: none of them
-- starts as a paying label does, and every outcome that does not pay has one.
pub all_labels_complete :
    (all (λ s. not (starts_with s "burnish:gap")) all_labels ≡ true)
    × ((o : Outcome) → o ≢ status frontier_expanded → In (label_of o) all_labels)
unfolding all_labels
all_labels_complete = (refl, λ o h. elem-In (label_of o) all_labels (label_of-listed o h))
