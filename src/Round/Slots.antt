-- ===== src/Round/Slots.antt =====
-- The slots of a round in eval/round.py: what `measure` evaluates and what it leaves waiting.
use burnisher.Base.{
  ℕ, suc, ◌≤◌, ◌≡◌, refl, ap, ◌∙◌, Bool, true, false, some, List, [], ◌∷◌, map, arith,
  if◌then◌else◌, leb, length, suc, ◌∷◌, ap, ◌∙◌, take, keep, ◌+◌, ◌<◌,
}
use burnisher.Base.Eq.{string_eq, nat_eq}
use burnisher.PrBot.{PullRequest}
use burnisher.PrBot.World.{World, Bot}
use burnisher.PrBot.Evaluate.{EvalResult}
use burnisher.Round.{is_measured, used_after, waiting, attempt, measure}

length-map : {A B : Type 0} (f : A → B) (xs : List A) → length (map f xs) ≡ length xs
length-map f [] = refl
length-map f (x ∷ xs) = ap suc (length-map f xs)

module _ {R : Type 0} where
  -- What the results `rs` of the queue `due` are when `used` of the slots had been spent.
  pub record Fits (slots used : ℕ) (due : List PullRequest) (rs : List (EvalResult R))
      : Type 0 where
    pub heads : map (λ r. r.head) rs ≡ map (λ p. some p.head) (take (length rs) due)
    pub within : length (keep is_measured rs) + used ≤ slots
    pub finished : length (keep is_measured rs) + used < slots → waiting due rs ≡ []
    pub all_seen : length rs + length (waiting due rs) ≡ length due

  Fits-none :
      (slots used : ℕ) (due : List PullRequest)
      → used ≤ slots
      → slots ≤ used
      → Fits slots used due []
  Fits-none slots used due h k = record {
    heads = refl;
    within = omega arith;
    finished = λ l. ground arith;
    all_seen = omega (arith, length-map (λ p. p.number) due);
  }

  Fits-cons :
      (slots used : ℕ) (p : PullRequest) (ps : List PullRequest) (r : EvalResult R)
      (rs : List (EvalResult R))
      → r.head ≡ some p.head
      → Fits slots (used_after r used) ps rs
      → Fits slots used (p ∷ ps) (r ∷ rs)
  Fits-cons slots used p ps r rs e fits = record {
    heads =
        ap (λ l. r.head ∷ l) fits.heads
        ∙ ap (λ h. h ∷ map (λ q. some q.head) (take (length rs) ps)) e;
    within = ground (arith, fits.within);
    finished = λ k. fits.finished (ground arith);
    all_seen = ground (arith, fits.all_seen);
  }

module _ {R : Type 0} (evaluate : PullRequest → Bot (EvalResult R)) where
  attempt-head : (p : PullRequest) (w : World) → (attempt evaluate p w).0.head ≡ some p.head
  unfolding attempt
  attempt-head p w = ground arith

  -- A round measures no more submissions than it has slots. What it evaluates is the front of the
  -- queue in its order, each result carrying the commit that the queue had when the round began; what
  -- it leaves waiting is the rest, and that is nothing when slots are left over.
  pub measure-Fits :
      (slots used : ℕ) (due : List PullRequest) (w : World)
      → used ≤ slots
      → Fits slots used due (measure evaluate slots used due w).0
  unfolding measure
  measure-Fits slots used [] w h = record {
    heads = refl;
    within = omega arith;
    finished = λ k. refl;
    all_seen = refl;
  }
  measure-Fits slots used (p ∷ ps) w h =
      go (leb slots used) refl
        (measure-Fits slots (used_after (attempt evaluate p w).0 used) ps (attempt evaluate p w).1)
    where
      step : EvalResult R × World
      step = attempt evaluate p w

      rest : List (EvalResult R) × World
      rest = measure evaluate slots (used_after step.0 used) ps step.1

      stopped : Bool → List (EvalResult R) × World
      stopped b = if b then ([], w) else (step.0 ∷ rest.0, rest.1)

      go :
          (b : Bool)
          → leb slots used ≡ b
          → (used_after step.0 used ≤ slots → Fits slots (used_after step.0 used) ps rest.0)
          → Fits slots used (p ∷ ps) (stopped b).0
      go true e later = Fits-none slots used (p ∷ ps) h (ground arith)
      go false e later =
          Fits-cons slots used p ps step.0 rest.0 (attempt-head p w) (later (ground arith))
