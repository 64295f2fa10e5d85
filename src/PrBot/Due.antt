-- ===== src/PrBot/Due.antt =====
-- When eval/pr_bot.py looks at a pull request again after what it recorded of it.
use burnisher.Base.{
  ℕ, zero, suc, String, ◌≡◌, refl, sym, subst, ◌∙◌, ◌⊎◌, inl, inr, Bool, true, false, not, ◌&&◌,
  ◌||◌, Option, none, some, List, [], ◌∷◌, ◌++◌, arith, if◌then◌else◌, ltb, is_empty, keep, In,
  here, there, In-cons, keep-In, In-keep, In-append_right,
}
use burnisher.Base.Eq.{◌==◌, string_eq, nat_eq}
use burnisher.Base.Dict.{elem, elem-In, In-elem, eq_self, eq_of_test}
use text.Mathlib.Text.{starts_with}
use burnisher.PrBot.{
  PullRequest, EvalRecord, copycat_label, copycat_review_label, blocked_label, reregistered_label,
  no_candidate_label, eval_error_label, max_attempts, body_sha, outcome_labels, recorded_due,
  needs_evaluation, attempts_after, next_record, relabel,
}

abbrev kept : String → List String → List String
kept label old = keep (λ l. not (starts_with l "burnish:") || l == label) old

relabel-In :
    (label l : String) (old : List String)
    → In l (relabel label old)
    → (l ≡ label) ⊎ In l (kept label old)
unfolding relabel
relabel-In label l old i = go (elem label (kept label old)) i
  where
    snoc : (xs : List String) → In l (xs ++ label ∷ []) → (l ≡ label) ⊎ In l xs
    snoc [] i = In-cons i
    snoc (x ∷ xs) i = later (In-cons i) (snoc xs)
      where
        skip : (l ≡ label) ⊎ In l xs → (l ≡ label) ⊎ In l (x ∷ xs)
        skip (inl e) = inl e
        skip (inr j) = inr (there j)

        later :
            (l ≡ x) ⊎ In l (xs ++ label ∷ [])
            → (In l (xs ++ label ∷ []) → (l ≡ label) ⊎ In l xs)
            → (l ≡ label) ⊎ In l (x ∷ xs)
        later (inl e) rec = inr (subst (λ z. In l (z ∷ xs)) e here)
        later (inr j) rec = skip (rec j)

    go :
        (b : Bool)
        → In l (if b then kept label old else kept label old ++ label ∷ [])
        → (l ≡ label) ⊎ In l (kept label old)
    go true i = inr i
    go false i = snoc (kept label old) i

In-relabel : (label : String) (old : List String) → In label (relabel label old)
unfolding relabel
In-relabel label old = go (elem label (kept label old)) refl
  where
    go :
        (b : Bool)
        → elem label (kept label old) ≡ b
        → In label (if b then kept label old else kept label old ++ label ∷ [])
    go true e = elem-In label (kept label old) e
    go false e = In-append_right (kept label old) here

is_empty-In : (label : String) (xs : List String) → In label xs → is_empty xs ≡ false
is_empty-In label xs here = refl
is_empty-In label xs (there i) = refl

-- the one outcome a relabelled pull request carries
outcome-is :
    (label l : String) (old : List String)
    → starts_with label "burnish:" ≡ true
    → elem l (outcome_labels (relabel label old)) ≡ (l == label)
unfolding outcome_labels
outcome-is label l old p = go (elem l (outcome_labels (relabel label old))) refl (l == label) refl
  where
    carried : In l (outcome_labels (relabel label old)) → (l == label) ≡ true
    carried i =
        let (j, h) = keep-In (λ x. starts_with x "burnish:") (relabel label old) i in
        elim (relabel-In label l old j) [
          | inl e ↦ subst (λ x. (x == label) ≡ true) (sym e) (eq_self label)
          | inr k ↦
              let (_, q) = keep-In (λ x. not (starts_with x "burnish:") || x == label) old k in
              ground arith
        ]

    carries : (l == label) ≡ true → elem l (outcome_labels (relabel label old)) ≡ true
    carries h =
        subst (λ x. elem x (outcome_labels (relabel label old)) ≡ true) (sym (eq_of_test l label h))
          (In-elem (In-keep (λ x. starts_with x "burnish:") (In-relabel label old) p))

    go :
        (a : Bool)
        → elem l (outcome_labels (relabel label old)) ≡ a
        → (b : Bool) → (l == label) ≡ b
        → elem l (outcome_labels (relabel label old)) ≡ (l == label)
    go true e b h = e ∙ sym (carried (elem-In l (outcome_labels (relabel label old)) e))
    go false e true h = carries h ∙ sym h
    go false e false h = e ∙ sym h

carries_outcome :
    (label : String) (old : List String)
    → starts_with label "burnish:" ≡ true
    → is_empty (outcome_labels (relabel label old)) ≡ false
unfolding outcome_labels
carries_outcome label old p =
    is_empty-In label (outcome_labels (relabel label old))
      (In-keep (λ x. starts_with x "burnish:") (In-relabel label old) p)

-- a label that stays until a maintainer clears it
abbrev pub needs_clearing : String → Bool
needs_clearing label =
    elem label (copycat_label ∷ blocked_label ∷ copycat_review_label ∷ reregistered_label ∷ [])

-- After an outcome that no maintainer has to clear has been labelled and recorded, a later look at
-- the pull request finds it due exactly when its head is a new commit, or no candidate was found and
-- the description has changed, or the evaluation failed and attempts are left.
pub needs_evaluation-next_record :
    (sha : String → String) (before now : PullRequest) (prev : Option EvalRecord)
    (outcome : Option String) (label : String)
    → starts_with label "burnish:" ≡ true
    → needs_clearing label ≡ false
    → needs_evaluation sha
        (record now { labels = relabel label before.labels })
        (some (next_record sha before prev outcome))
      ≡ (not (before.head == now.head)
          || (no_candidate_label == label && not (body_sha sha before == body_sha sha now))
          || (eval_error_label == label && ltb (attempts_after before prev outcome) max_attempts))
unfolding needs_evaluation recorded_due next_record
needs_evaluation-next_record sha before now prev outcome label p q = ground (
  arith,
  carries_outcome label before.labels p,
  outcome-is label copycat_label before.labels p,
  outcome-is label blocked_label before.labels p,
  outcome-is label copycat_review_label before.labels p,
  outcome-is label reregistered_label before.labels p,
  outcome-is label no_candidate_label before.labels p,
  outcome-is label eval_error_label before.labels p,
)

-- what is recorded of a commit after as many evaluations of it that failed
abbrev pub after_failures :
    (String → String) → PullRequest → Option EvalRecord → ℕ → Option EvalRecord
after_failures sha pr prev zero = prev
after_failures sha pr prev (suc k) =
    some (next_record sha pr (after_failures sha pr prev k) (some "EVAL_ERROR"))

attempts_after-after_failures :
    (sha : String → String) (pr : PullRequest) (k : ℕ)
    → attempts_after pr (after_failures sha pr none k) (some "EVAL_ERROR") ≡ suc k
unfolding attempts_after next_record
attempts_after-after_failures sha pr zero = refl
attempts_after-after_failures sha pr (suc k) =
    ground (arith, eq_self pr.head, attempts_after-after_failures sha pr k)

-- A commit whose evaluation fails is tried again until it has failed as often as is allowed, and not
-- after that.
pub needs_evaluation-after_failures :
    (sha : String → String) (pr : PullRequest) (k : ℕ)
    → needs_evaluation sha
        (record pr { labels = relabel eval_error_label pr.labels })
        (after_failures sha pr none (suc k))
      ≡ ltb (suc k) max_attempts
needs_evaluation-after_failures sha pr k =
    needs_evaluation-next_record sha pr pr (after_failures sha pr none k) (some "EVAL_ERROR")
      eval_error_label refl refl
    ∙ rw (eq_self pr.head, attempts_after-after_failures sha pr k) refl
