-- ===== src/Round/Merge.antt =====
-- What the end of a round merges and reports, in eval/round.py.
use burnisher.Base.{
  ℕ, ◌≡◌, refl, subst, Bool, true, false, Option, none, some, List, [], ◌∷◌, if◌then◌else◌, In,
  In-cons, here, there, ◌⊎◌, inl, inr, ap, ◌∙◌,
}
use burnisher.Base.Eq.{string_eq, nat_eq}
use burnisher.Base.Result.{Result, ok, err}
use burnisher.Base.Num.{Num}
use burnisher.PrBot.World.{
  Crash, Event, merged, World, Bot, pure, set_label, add_label, comment, ◌>>=◌, ◌>>◌, continue,
}
use burnisher.PrBot.Evaluate.{EvalResult}
use burnisher.Round.{rebase_losers, merge, is_loser, needs_rebase, merge_first}
use burnisher.Round.Run.{Settings, reward, settle}

-- what an action does, when it never raises
abbrev pub Does : {A : Type 0} → (A → World → World → Type 0) → Bot A → Type 0
Does {A} P m = (w : World) → (a : A) × ((m w).0 ≡ ok a) × P a w (m w).1

pub bind-Does :
    {A B : Type 0} (P : A → World → World → Type 0) (Q : B → World → World → Type 0) (m : Bot A)
    (f : A → Bot B)
    → Does P m
    → ((a : A) (w w1 : World) → P a w w1 → (b : B) × ((f a w1).0 ≡ ok b) × Q b w (f a w1).1)
    → Does Q (m >>= f)
bind-Does {A} {B} P Q m f h k w = go (m w) (h w)
  where
    go :
        (x : Result Crash A × World)
        → (a : A) × (x.0 ≡ ok a) × P a w x.1
        → (b : B) × ((continue x.0 f x.1).0 ≡ ok b) × Q b w (continue x.0 f x.1).1
    go (ok a, w1) (a', e, p) = let same : a' ≡ a = cc e in k a w w1 (subst (λ z. P z w w1) same p)
    go (err e, w1) (a', q, p) = cc

-- nothing is merged, and what was done stays done
record Quiet (w w' : World) : Type 0 where
  unmerged : (k : ℕ) → In (merged k) w'.log → In (merged k) w.log
  kept : (e : Event) → In e w.log → In e w'.log

Quiet-refl : (w : World) → Quiet w w
Quiet-refl w = record { unmerged = λ k i. i; kept = λ e i. i }

abbrev StaysQuiet : Unit {0} → World → World → Type 0
StaysQuiet u w w' = Quiet w w'

relabelled-Quiet :
    (b d : Bool) (num : ℕ)
    → Does StaysQuiet (if b then set_label d num needs_rebase >> comment d num else pure tt)
unfolding set_label comment
relabelled-Quiet false d num w = (tt, refl, Quiet-refl w)
relabelled-Quiet true true num w = (tt, refl, Quiet-refl w)
relabelled-Quiet true false num w = (
  tt,
  refl,
  record { unmerged = λ k i. elim (In-cons i) [ inl e ↦ cc | inr j ↦ j ]; kept = λ e i. there i },
)

-- by the merge setting, the dry run, and what GitHub answers
abbrev rewarded : Bool → Bool → Bool → ℕ → Bot (Option ℕ)
rewarded m d a k =
    if m
    then (merge a d k >>= λ done. pure (if done then some k else none))
    else add_label d k merge_first >> pure none

record Rewarded (m d a : Bool) (k : ℕ) (o : Option ℕ) (w w' : World) : Type 0 where
  only : (j : ℕ) → In (merged j) w'.log → In (merged j) w.log ⊎ (k ≡ j)
  named : (j : ℕ) → o ≡ some j → k ≡ j
  done : (j : ℕ) → d ≡ false → o ≡ some j → In (merged j) w'.log
  succeeds : m ≡ true → a ≡ true → o ≡ some k

rewarded-Rewarded : (m d a : Bool) (k : ℕ) → Does (Rewarded m d a k) (rewarded m d a k)
unfolding merge add_label
rewarded-Rewarded true true a k w = (
  some k,
  refl,
  record { only = λ j i. inl i; named = λ j e. cc; done = λ j e h. cc; succeeds = λ e h. refl },
)
rewarded-Rewarded true false true k w = (
  some k,
  refl,
  record {
    only = λ j i. elim (In-cons i) [ inl e ↦ inr cc | inr l ↦ inl l ];
    named = λ j e. cc;
    done =
        λ j e h. let same : k ≡ j = cc in subst (λ z. In (merged z) (merged k ∷ w.log)) same here;
    succeeds = λ e h. refl;
  },
)
rewarded-Rewarded true false false k w = (
  none,
  refl,
  record { only = λ j i. inl i; named = λ j e. cc; done = λ j e h. cc; succeeds = λ e h. cc },
)
rewarded-Rewarded false true a k w = (
  none,
  refl,
  record { only = λ j i. inl i; named = λ j e. cc; done = λ j e h. cc; succeeds = λ e h. cc },
)
rewarded-Rewarded false false a k w = (
  none,
  refl,
  record { only = λ j i. inl i; named = λ j e. cc; done = λ j e h. cc; succeeds = λ e h. cc },
)

module _ {R : Type 0} ⦃n : Num R⦄ where
  rebase_losers-Quiet :
      (dry : Bool) (k : ℕ) (scored : List (EvalResult R))
      → Does StaysQuiet (rebase_losers dry k scored)
  unfolding rebase_losers
  rebase_losers-Quiet dry k [] = λ w. (tt, refl, Quiet-refl w)
  rebase_losers-Quiet dry k (r ∷ rs) =
      let rest = rebase_losers-Quiet dry k rs in
      bind-Does StaysQuiet StaysQuiet
        (if is_loser k r then set_label dry r.pr needs_rebase >> comment dry r.pr else pure tt)
        (λ _. rebase_losers dry k rs) (relabelled-Quiet (is_loser k r) dry r.pr)
        (λ u w w1 q.
          let (v, e, q2) = rest w1 in
          (
            v,
            e,
            record {
              unmerged = λ j i. q.unmerged j (q2.unmerged j i);
              kept = λ x i. q2.kept x (q.kept x i);
            },
          ))

  abbrev pub name_of : Option (EvalResult R) → Option ℕ
  name_of o = elim o [ none ↦ none | some w ↦ some w.pr ]

module _ {R : Type 0} ⦃n : Num R⦄ (settings : Settings R) where
  -- What the merge of a winner comes to, from the world before it to the world after: only the winner is
  -- merged, it is reported exactly when the merging is on and GitHub accepts it, and a merge that is
  -- reported outside a dry run is done.
  pub record Merging (accepted : ℕ → Bool) (winner reported : Option ℕ) (w w' : World)
      : Type 0 where
    pub only : (k : ℕ) → In (merged k) w'.log → In (merged k) w.log ⊎ (winner ≡ some k)
    pub named : (k : ℕ) → reported ≡ some k → winner ≡ some k
    pub done : (k : ℕ) → settings.bot.dry_run ≡ false → reported ≡ some k → In (merged k) w'.log
    pub succeeds :
        (k : ℕ) → settings.merging ≡ true → winner ≡ some k → accepted k ≡ true → reported ≡ some k

  pub settle-Merging :
      (accepted : ℕ → Bool) (o : Option (EvalResult R)) (scored : List (EvalResult R))
      → Does (Merging accepted (name_of o)) (settle settings accepted o scored)
  unfolding settle reward
  settle-Merging accepted none scored = λ w. (
    none,
    refl,
    record { only = λ k i. inl i; named = λ k e. cc; done = λ k e h. cc; succeeds = λ k m e h. cc },
  )
  settle-Merging accepted (some r) scored =
      bind-Does (Rewarded settings.merging settings.bot.dry_run (accepted r.pr) r.pr)
        (Merging accepted (some r.pr))
        (rewarded settings.merging settings.bot.dry_run (accepted r.pr) r.pr) _
        (rewarded-Rewarded settings.merging settings.bot.dry_run (accepted r.pr) r.pr)
        (λ m w w1 p. after m w w1 p)
    where
      after :
          (m : Option ℕ) (w w1 : World)
          → Rewarded settings.merging settings.bot.dry_run (accepted r.pr) r.pr m w w1
          → (b : Option ℕ) × (((rebase_losers settings.bot.dry_run r.pr scored >> pure m) w1).0
              ≡ ok b)
            × Merging accepted
                (some r.pr)
                b
                w
                ((rebase_losers settings.bot.dry_run r.pr scored >> pure m) w1).1
      after m w w1 p =
          let (u, e, q) = rebase_losers-Quiet settings.bot.dry_run r.pr scored w1 in
          ended (rebase_losers settings.bot.dry_run r.pr scored w1) u e q
        where
          ended :
              (x : Result Crash (Unit {0}) × World) (u : Unit {0})
              → x.0 ≡ ok u
              → Quiet w1 x.1
              → (b : Option ℕ) × ((continue x.0 (λ _. pure m) x.1).0 ≡ ok b)
                × Merging accepted (some r.pr) b w (continue x.0 (λ _. pure m) x.1).1
          ended (err c, w2) u e q = cc
          ended (ok v, w2) u e q = (
            m,
            refl,
            record {
              only = λ k i. elim (p.only k (q.unmerged k i)) [
                | inl j ↦ inl j
                | inr same ↦ inr (ap some same)
              ];
              named = λ k h. ap some (p.named k h);
              done = λ k dry h. q.kept (merged k) (p.done k dry h);
              succeeds = λ k on same ok_k.
                  let one : r.pr ≡ k = cc in p.succeeds on (ap accepted one ∙ ok_k) ∙ ap some one;
            },
          )
