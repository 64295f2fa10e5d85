-- ===== src/Base/Num.antt =====
-- Python's float, as an interface: the operations the program applies to finite values, and the
-- laws of rounded arithmetic that its reasoning rests on. `==` holds between 0.0 and -0.0, so the
-- order is a preorder. Nothing here says that addition is associative or that division undoes
-- multiplication.
use Prim.Native.Nat.{ℕ, suc, ◌≤◌}
use mathlib.Core.Path.{◌≡◌}
use mathlib.Core.Bool.{Bool, true, false, not, ◌&&◌}
use native.Mathlib.Omega.{arith}
use burnisher.Base.Tests.{if◌then◌else◌}

pub record Num (R : Type 0) : Type 0 where
  pub of_ℕ : ℕ → R
  pub add : R → R → R
  pub sub : R → R → R
  pub mul : R → R → R
  pub div : R → R → R
  pub le : R → R → Bool
  pub le_refl : (a : R) → le a a ≡ true
  pub le_trans : (a b c : R) → le a b ≡ true → le b c ≡ true → le a c ≡ true
  pub le_total : (a b : R) → le a b ≡ false → le b a ≡ true
  pub of_ℕ_mono : (m n : ℕ) → m ≤ n → le (of_ℕ m) (of_ℕ n) ≡ true
  pub suc_pos : (k : ℕ) → le (of_ℕ (suc k)) (of_ℕ 0) ≡ false
  pub sub_nonneg : (a b : R) → le a b ≡ true → le (of_ℕ 0) (sub b a) ≡ true
  pub sub_nonpos : (a b : R) → le a b ≡ true → le (sub a b) (of_ℕ 0) ≡ true
  pub sub_le : (a b : R) → le (of_ℕ 0) a ≡ true → le (sub b a) b ≡ true
  pub mul_nonneg :
      (a b : R) → le (of_ℕ 0) a ≡ true → le (of_ℕ 0) b ≡ true → le (of_ℕ 0) (mul a b) ≡ true
  pub div_nonneg :
      (a b : R) → le (of_ℕ 0) a ≡ true → le b (of_ℕ 0) ≡ false → le (of_ℕ 0) (div a b) ≡ true
  pub div_nonpos :
      (a b : R) → le a (of_ℕ 0) ≡ true → le b (of_ℕ 0) ≡ false → le (div a b) (of_ℕ 0) ≡ true
  pub div_anti :
      (a b c : R)
      → le (of_ℕ 0) a ≡ true
      → le b (of_ℕ 0) ≡ false
      → le b c ≡ true
      → le (div a c) (div a b) ≡ true
  pub div_le_one :
      (a b : R)
      → le (of_ℕ 0) a ≡ true
      → le a b ≡ true
      → le b (of_ℕ 0) ≡ false
      → le (div a b) (of_ℕ 1) ≡ true
  pub one_le_div_self : (a : R) → le a (of_ℕ 0) ≡ false → le (of_ℕ 1) (div a a) ≡ true
  pub mul_le :
      (a b : R)
      → le (of_ℕ 0) a ≡ true
      → le (of_ℕ 0) b ≡ true
      → le b (of_ℕ 1) ≡ true
      → le (mul a b) a ≡ true

module _ {R : Type 0} ⦃n : Num R⦄ where
  infixl 65 ◌+◌ ◌-◌
  infixl 70 ◌*◌ ◌/◌
  abbrev pub ◌+◌ : R → R → R
  ◌+◌ = n.add

  abbrev pub ◌-◌ : R → R → R
  ◌-◌ = n.sub

  abbrev pub ◌*◌ : R → R → R
  ◌*◌ = n.mul

  abbrev pub ◌/◌ : R → R → R
  ◌/◌ = n.div

  -- a whole number as a float
  abbrev pub num : ℕ → R
  num = n.of_ℕ

  -- `a <= b`, `a < b` and `a == b` on finite floats
  abbrev pub le : R → R → Bool
  le = n.le

  abbrev pub lt : R → R → Bool
  lt a b = not (n.le b a)

  abbrev pub num_eq : R → R → Bool
  num_eq a b = n.le a b && n.le b a

  -- `max(a, b)` and `min(a, b)` keep the first of two equal values
  abbrev pub max : R → R → R
  max a b = if lt a b then b else a

  abbrev pub min : R → R → R
  min a b = if lt b a then b else a

  abbrev pub neg : R → R
  neg a = n.sub (n.of_ℕ 0) a

  abbrev pub abs : R → R
  abs a = if lt a (n.of_ℕ 0) then neg a else a

  pub lt-le : (a b : R) → lt a b ≡ true → le a b ≡ true
  lt-le a b h = n.le_total b a (ground arith)

  pub lt_trans_le : (a b c : R) → lt a b ≡ true → le b c ≡ true → lt a c ≡ true
  lt_trans_le a b c h k = ground (arith, n.le_trans b c a k)

  pub le_trans_lt : (a b c : R) → le a b ≡ true → lt b c ≡ true → lt a c ≡ true
  le_trans_lt a b c h k = ground (arith, λ (p : n.le c a ≡ true). n.le_trans c a b p h)
