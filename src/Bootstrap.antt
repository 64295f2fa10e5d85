-- ===== src/Bootstrap.antt =====
-- eval/burnscore/bootstrap.py: the interval of a gap closed by paired resampling, and the sign test.
pub mod Ends
use Prim.Native.Nat.{◌+◌ as plus, ◌-◌ as monus, ◌^◌, max as nat_max}
use burnisher.Base.{
  ℕ, zero, suc, String, ◌≤◌, ◌≡◌, refl, sym, ap, subst, ◌∙◌, ◌≢◌, ◌↔◌, ◌⊎◌, inl, inr, Bool, true,
  false, not, ◌&&◌, ◌||◌, Option, none, some, List, [], ◌∷◌, ◌++◌, map, arith, if◌then◌else◌, ltb,
  leb, length, is_empty, get_elem?, take, drop, any, all, keep, find, In, here, there, In-cons, All,
  keep-In, In-keep, any-In, all-In, All-of_In, find-eq_some, In-append_left, In-append_right,
  keep-append, length-append, if-cases, Bool-cases, Option-cases, is_some, or_else, ◌<◌,
}
use burnisher.Base.Eq.{Eq, ◌==◌, string_eq, nat_eq}
use burnisher.Base.Dict.{
  Dict, lookup, has_key, insert, keys, elem, adjoin, minus, meet, elem-In, In-elem, minus-In,
  In-minus, lookup-insert, eq_self, eq_of_test,
}
use burnisher.Base.Result.{Result, ok, err, ◌>>=◌, ◌>>◌, require, raise_if, for_each, >>=-eq-ok}
use burnisher.Base.Num.{
  Num, num, le, lt, num_eq, max, min, neg, abs, ◌+◌, ◌-◌, ◌*◌, ◌/◌, lt-le, lt_trans_le, le_trans_lt,
}
use burnisher.Base.Sort.{sort_by}
use burnisher.Roofline.{saturation}

pub data BootstrapError : Type 0 where
  unpaired no_repeats not_a_duration bad_level few_resamples bad_ceiling : BootstrapError
  index_error : BootstrapError

-- Python's `math` and `statistics` on floats, and the indices that `random.Random(seed)` draws: for a
-- seed, a number of repeats and a number of resamples, a list of that many lists.
pub record Library (R : Type 0) : Type 0 where
  pub exp : R → R
  pub log : R → R
  pub fmean : List R → R
  pub floor : R → ℕ
  pub draw : ℕ → ℕ → ℕ → List (List ℕ)

-- an end of an interval, which may be infinite
pub data Limit (R : Type 0) : Type 0 where
  minus_infinity plus_infinity : Limit R
  finite : R → Limit R

pub record Interval (R : Type 0) : Type 0 where
  pub point : R
  pub lower : Limit R
  pub upper : Limit R
  pub level : R
  pub resamples : ℕ
  pub seed : ℕ
  pub repeats : ℕ
  pub method : String

abbrev pub min_resamples : ℕ
min_resamples = 1000

-- `math.comb`
unfoldable pub comb : ℕ → ℕ → ℕ
comb n zero = 1
comb zero (suc k) = 0
comb (suc n) (suc k) = plus (comb n k) (comb n (suc k))

-- `sum(math.comb(n, i) for i in range(k, k + count))`
unfoldable pub comb_sum : ℕ → ℕ → ℕ → ℕ
unfolding comb
comb_sum n k zero = 0
comb_sum n k (suc count) = plus (comb n k) (comb_sum n (suc k) count)

pub record SignTest (R : Type 0) : Type 0 where
  pub pairs : ℕ
  pub candidate_faster : ℕ
  pub comparable : ℕ
  pub p_value : R

-- nearest rank, clamped; `i` is the floor of `q * count`
unfoldable pub rank : ℕ → ℕ → ℕ
rank count i = if leb count i then monus count 1 else i

module _ {R : Type 0} ⦃n : Num R⦄ where
  -- `Interval.excludes`: the whole interval is above the threshold
  unfoldable pub excludes : Interval R → R → Bool
  excludes i threshold = elim i.lower [
    | minus_infinity ↦ false
    | plus_infinity ↦ true
    | finite v ↦ lt threshold v
  ]

  -- `ci.upper < threshold`
  unfoldable pub lies_below : Interval R → R → Bool
  lies_below i threshold = elim i.upper [
    | minus_infinity ↦ true
    | plus_infinity ↦ false
    | finite v ↦ lt v threshold
  ]

  unfoldable pub geomean : Library R → List R → R
  geomean lib times = lib.exp (lib.fmean (map lib.log times))

  -- `_gap_closed`
  unfoldable pub gap_of_times : Library R → R → List R → List R → R
  unfolding geomean
  gap_of_times lib ceiling base cand =
      let a_b = ceiling / geomean lib base in
      let a_c = ceiling / geomean lib cand in
      let rem = num 1 - a_b in if le rem saturation then num 0 else (a_c - a_b) / rem

  -- `[xs[i] for i in idx]`, for indices of the list
  unfoldable pub pick : List R → List ℕ → List R
  pick xs idx = map (λ i. or_else (get_elem? xs i) (num 0)) idx

  unfoldable pub resample : Library R → R → List R → List R → List (List ℕ) → List R
  unfolding gap_of_times pick
  resample lib ceiling b c indices =
      map (λ idx. gap_of_times lib ceiling (pick b idx) (pick c idx)) indices

  abbrev pub at_rank : List R → ℕ → Result BootstrapError R
  at_rank draws i = elim (get_elem? draws i) [ none ↦ err index_error | some v ↦ ok v ]

  abbrev pub tail_of : R → R
  tail_of level = (num 1 - level) / num 2

  -- the interval of two repeats or more
  unfoldable pub interval_of :
      Library R → R → List R → List R → R → ℕ → ℕ → Result BootstrapError (Interval R)
  unfolding gap_of_times resample rank
  interval_of lib ceiling b c level resamples seed =
      let draws = sort_by lt (resample lib ceiling b c (lib.draw seed (length b) resamples)) in
      let count = length draws in
      let tail = tail_of level in
      do
        lower ← at_rank draws (rank count (lib.floor (tail * num count)))
        upper ← at_rank draws (rank count (lib.floor ((num 1 - tail) * num count)))
        ok (record {
          point = gap_of_times lib ceiling b c;
          lower = finite lower;
          upper = finite upper;
          level = level;
          resamples = resamples;
          seed = seed;
          repeats = length b;
          method = "paired_percentile_bootstrap";
        })

  -- One pair says nothing about the spread.
  abbrev pub one_repeat : Library R → R → List R → List R → R → ℕ → Interval R
  one_repeat lib ceiling b c level seed = record {
    point = gap_of_times lib ceiling b c;
    lower = minus_infinity;
    upper = plus_infinity;
    level = level;
    resamples = 0;
    seed = seed;
    repeats = 1;
    method = "insufficient_repeats";
  }

  unfoldable pub paired_bootstrap :
      Library R → R → List R → List R → R → ℕ → ℕ → Result BootstrapError (Interval R)
  unfolding interval_of
  paired_bootstrap lib ceiling b c level resamples seed = do
    require (length b == length c) unpaired
    raise_if (is_empty b) no_repeats
    require (all (λ x. lt (num 0) x) (b ++ c)) not_a_duration
    require (lt (num 1 / num 2) level && lt level (num 1)) bad_level
    raise_if (ltb resamples min_resamples) few_resamples
    raise_if (le ceiling (num 0)) bad_ceiling
    (if length b == 1
        then ok (one_repeat lib ceiling b c level seed)
        else interval_of lib ceiling b c level resamples seed)

  -- how many pairs pass a test
  unfoldable pub count_pairs : (R → R → Bool) → List R → List R → ℕ
  count_pairs p [] ys = 0
  count_pairs p (x ∷ xs) [] = 0
  count_pairs p (x ∷ xs) (y ∷ ys) =
      let rest = count_pairs p xs ys in if p x y then suc rest else rest

  unfoldable pub sign_test : List R → List R → SignTest R
  unfolding count_pairs comb_sum
  sign_test base cand =
      let pairs = count_pairs (λ x y. true) base cand in
      let wins = count_pairs (λ b c. lt c b) base cand in
      let comparable = count_pairs (λ b c. not (num_eq c b)) base cand in
      let k = nat_max wins (monus comparable wins) in
      let tail = num (comb_sum comparable k (monus (suc comparable) k)) / num (2 ^ comparable) in
      record {
        pairs = pairs;
        candidate_faster = if comparable == 0 then 0 else wins;
        comparable = comparable;
        p_value = if comparable == 0 then num 1 else min (num 1) (num 2 * tail);
      }
