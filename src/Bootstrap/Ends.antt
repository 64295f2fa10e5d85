-- ===== src/Bootstrap/Ends.antt =====
-- When a bootstrap gives an interval, and what the interval's ends are.
use burnisher.Base.{
  ℕ, suc, ◌≡◌, refl, ap, ◌∙◌, Bool, true, false, not, ◌&&◌, List, [], ◌∷◌, ◌++◌, map, arith,
  if◌then◌else◌, ltb, length, is_empty, all, In, ◌<◌,
}
use burnisher.Base.Eq.{◌==◌, string_eq, nat_eq}
use burnisher.Base.Result.{Result, ok, err, ◌>>◌, require, raise_if}
use burnisher.Base.Num.{Num, num, le, lt, ◌-◌, ◌*◌, ◌/◌}
use burnisher.Base.{In-get_elem?}
use burnisher.Base.Sort.{sort_by, length-sort_by, sort_by-In}
use burnisher.Bootstrap.{
  BootstrapError, unpaired, no_repeats, not_a_duration, bad_level, few_resamples, bad_ceiling,
  Library, finite, Interval, min_resamples, rank, excludes, lies_below, gap_of_times, resample,
  at_rank, tail_of, interval_of, one_repeat, paired_bootstrap,
}

rank-bound : (count i : ℕ) → 0 < count → rank count i < count
unfolding rank
rank-bound count i h = ground arith

module _ {R : Type 0} ⦃n : Num R⦄ (lib : Library R) (ceiling : R) (b c : List R) (level : R)
    (resamples seed : ℕ) where
  -- what the arguments must meet
  abbrev pub accepts : Bool
  accepts =
      length b == length c
      && (not (is_empty b)
          && (all (λ x. lt (num 0) x) (b ++ c)
              && ((lt (num 1 / num 2) level && lt level (num 1))
                  && (not (ltb resamples min_resamples) && (not (le ceiling (num 0)) && true)))))

  -- A value that one of the resamples gives.
  abbrev pub IsDrawn : R → Type 0
  IsDrawn v = In v (resample lib ceiling b c (lib.draw seed (length b) resamples))

  -- One pair resolves nothing, on either side; of more, both ends are values of resamples.
  abbrev pub Ends : Bool → Interval R → Type 0
  Ends true i = (t : R) → (excludes i t ≡ false) × (lies_below i t ≡ false)
  Ends false i =
      (v : R) × ((w : R) × ((i.lower ≡ finite v)
          × ((i.upper ≡ finite w) × (IsDrawn v × IsDrawn w))))

  abbrev pub Answers : Bool → Result BootstrapError (Interval R) → Type 0
  Answers true r = (i : Interval R) × ((r ≡ ok i) × Ends (length b == 1) i)
  Answers false r = (e : BootstrapError) × (r ≡ err e)

  step_require :
      (p q : Bool) (e : BootstrapError) (rest : Result BootstrapError (Interval R))
      → Answers q rest
      → Answers (p && q) (require p e >> rest)
  step_require true q e rest h = h
  step_require false q e rest h = (e, refl)

  step_raise :
      (p q : Bool) (e : BootstrapError) (rest : Result BootstrapError (Interval R))
      → Answers q rest
      → Answers (not p && q) (raise_if p e >> rest)
  step_raise false q e rest h = h
  step_raise true q e rest h = (e, refl)

  length-map : {A : Type 0} (f : A → R) (xs : List A) → length (map f xs) ≡ length xs
  length-map f [] = refl
  length-map f (x ∷ xs) = ap suc (length-map f xs)

  abbrev sorted_draws : List R
  sorted_draws = sort_by lt (resample lib ceiling b c (lib.draw seed (length b) resamples))

  count_draws : length sorted_draws ≡ length (lib.draw seed (length b) resamples)
  unfolding resample
  count_draws =
      length-sort_by lt (resample lib ceiling b c (lib.draw seed (length b) resamples))
      ∙ length-map _ (lib.draw seed (length b) resamples)

  end_at :
      (k : ℕ)
      → 0 < length (lib.draw seed (length b) resamples)
      → (v : R) × ((at_rank sorted_draws (rank (length sorted_draws) k) ≡ ok v) × IsDrawn v)
  end_at k h =
      let (v, e, i) =
        In-get_elem? sorted_draws (rank (length sorted_draws) k)
          (rank-bound (length sorted_draws) k (omega (arith, count_draws))) in
      (
        v,
        (
          rw (e, at_rank) refl,
          sort_by-In lt (resample lib ceiling b c (lib.draw seed (length b) resamples)) i,
        ),
      )

  drawn_interval :
      0 < length (lib.draw seed (length b) resamples)
      → (i : Interval R) × ((interval_of lib ceiling b c level resamples seed ≡ ok i)
          × Ends false i)
  unfolding interval_of
  drawn_interval h =
      let count = length sorted_draws in
      let (v, (e, i)) = end_at (lib.floor (tail_of level * num count)) h in
      let (w, (f, j)) = end_at (lib.floor ((num 1 - tail_of level) * num count)) h in
      (
        record {
          point = gap_of_times lib ceiling b c;
          lower = finite v;
          upper = finite w;
          level = level;
          resamples = resamples;
          seed = seed;
          repeats = length b;
          method = "paired_percentile_bootstrap";
        },
        (rw (e, f) refl, (v, (w, (refl, (refl, (i, j)))))),
      )

  last_step :
      (one : Bool)
      → length b == 1 ≡ one
      → 0 < length (lib.draw seed (length b) resamples)
      → Answers true (
          if length b == 1
          then ok (one_repeat lib ceiling b c level seed)
          else interval_of lib ceiling b c level resamples seed)
  unfolding excludes lies_below
  last_step true e h = rw e (one_repeat lib ceiling b c level seed, (refl, λ t. (refl, refl)))
  last_step false e h = rw e (drawn_interval h)

  -- A bootstrap answers exactly when its arguments are what they must be: arms of one length, with a
  -- repeat at least, all times above zero, a level between a half and one, enough resamples, a ceiling
  -- above zero. Then one pair gives an interval that no threshold resolves, and of more pairs both ends
  -- are gaps closed of resamples, so the rank of neither is out of range. Drawing is taken to give a
  -- resample at least.
  pub paired_bootstrap-Answers :
      0 < length (lib.draw seed (length b) resamples)
      → Answers accepts (paired_bootstrap lib ceiling b c level resamples seed)
  unfolding paired_bootstrap
  paired_bootstrap-Answers h = step_require (length b == length c) _ unpaired _ (
      step_raise (is_empty b) _ no_repeats _ (
        step_require (all (λ x. lt (num 0) x) (b ++ c)) _ not_a_duration _ (
          step_require (lt (num 1 / num 2) level && lt level (num 1)) _ bad_level _ (
            step_raise (ltb resamples min_resamples) _ few_resamples _ (
              step_raise (le ceiling (num 0)) true bad_ceiling _
                (last_step (length b == 1) refl h))))))
