-- ===== src/Base/Fixed.antt =====
-- Fixed-point numbers in units of 1/10000, which meet the laws of `Num` and run in tests.
use Prim.Native.Nat.{ℕ, suc, ◌+◌, ◌*◌, ◌/◌, ◌≤◌, ◌<◌}
use mathlib.Core.Path.{◌≡◌}
use mathlib.Core.Bool.{true, false}
use native.Mathlib.Omega.{arith}
use native.Mathlib.Nat.{div-zero, zero-div, div-le_of_le-mul, le-div_iff_mul-le, div-mul-le_self}
use burnisher.Base.Tests.{leb→le}
use burnisher.Base.Int.{ℤ, pos, negsuc, pos_part, neg_part, sub_ℕ, ◌+ℤ◌, ◌-ℤ◌, leb_ℤ}
use burnisher.Base.Num.{Num}

-- rounded towards zero
abbrev pub mul_fixed : ℤ → ℤ → ℤ
mul_fixed a b =
    sub_ℕ ((pos_part a * pos_part b + neg_part a * neg_part b) / 10000)
      ((pos_part a * neg_part b + neg_part a * pos_part b) / 10000)

abbrev pub div_fixed : ℤ → ℤ → ℤ
div_fixed a b =
    sub_ℕ ((pos_part a * 10000) / pos_part b + (neg_part a * 10000) / neg_part b)
      ((pos_part a * 10000) / neg_part b + (neg_part a * 10000) / pos_part b)

pub le_refl : (a : ℤ) → leb_ℤ a a ≡ true
le_refl a = ground arith

pub le_trans : (a b c : ℤ) → leb_ℤ a b ≡ true → leb_ℤ b c ≡ true → leb_ℤ a c ≡ true
le_trans a b c h k = ground arith

pub le_total : (a b : ℤ) → leb_ℤ a b ≡ false → leb_ℤ b a ≡ true
le_total a b h = ground arith

pub of_ℕ_mono : (m n : ℕ) → m ≤ n → leb_ℤ (pos (m * 10000)) (pos (n * 10000)) ≡ true
of_ℕ_mono m n h = ground arith

pub suc_pos : (k : ℕ) → leb_ℤ (pos (suc k * 10000)) (pos 0) ≡ false
suc_pos k = ground arith

pub sub_nonneg : (a b : ℤ) → leb_ℤ a b ≡ true → leb_ℤ (pos 0) (b -ℤ a) ≡ true
sub_nonneg a b h = ground arith

pub sub_nonpos : (a b : ℤ) → leb_ℤ a b ≡ true → leb_ℤ (a -ℤ b) (pos 0) ≡ true
sub_nonpos a b h = ground arith

pub sub_le : (a b : ℤ) → leb_ℤ (pos 0) a ≡ true → leb_ℤ (b -ℤ a) b ≡ true
sub_le (pos a) (pos b) h = ground arith
sub_le (pos a) (negsuc b) h = ground arith
sub_le (negsuc a) b h = ground arith

pub mul_nonneg :
    (a b : ℤ)
    → leb_ℤ (pos 0) a ≡ true
    → leb_ℤ (pos 0) b ≡ true
    → leb_ℤ (pos 0) (mul_fixed a b) ≡ true
mul_nonneg (pos a) (pos b) h k = ground arith
mul_nonneg (pos a) (negsuc b) h k = ground arith
mul_nonneg (negsuc a) b h k = ground arith

pub div_nonneg :
    (a b : ℤ)
    → leb_ℤ (pos 0) a ≡ true
    → leb_ℤ b (pos 0) ≡ false
    → leb_ℤ (pos 0) (div_fixed a b) ≡ true
div_nonneg (pos a) (pos b) h k = rw (div-zero (a * 10000), zero-div b) (ground arith)
div_nonneg (pos a) (negsuc b) h k = ground arith
div_nonneg (negsuc a) b h k = ground arith

pub div_nonpos :
    (a b : ℤ)
    → leb_ℤ a (pos 0) ≡ true
    → leb_ℤ b (pos 0) ≡ false
    → leb_ℤ (div_fixed a b) (pos 0) ≡ true
div_nonpos (pos a) (pos b) h k =
    let z : a ≡ 0 = ground arith in rw (z, div-zero 0, zero-div b) (ground arith)
div_nonpos (negsuc a) (pos b) h k =
    rw (zero-div b, div-zero (suc a * 10000), div-zero (0 * 10000)) (ground arith)
div_nonpos a (negsuc b) h k = ground arith

product_mono : (a b c : ℕ) → b ≤ c → a * b ≤ a * c
product_mono a b c h = grind arith

quotient_anti : (a b c : ℕ) → 0 < b → b ≤ c → a / c ≤ a / b
quotient_anti a b c p h =
    (le-div_iff_mul-le p).1 (omega (arith, product_mono (a / c) b c h, div-mul-le_self a c))

pub div_anti :
    (a b c : ℤ)
    → leb_ℤ (pos 0) a ≡ true
    → leb_ℤ b (pos 0) ≡ false
    → leb_ℤ b c ≡ true
    → leb_ℤ (div_fixed a c) (div_fixed a b) ≡ true
div_anti (pos a) (pos b) (pos c) h k l =
    let bound = quotient_anti (a * 10000) b c (ground arith) (ground arith) in
    rw (div-zero (a * 10000), zero-div b, zero-div c) (ground (arith, bound))
div_anti (pos a) (pos b) (negsuc c) h k l = ground arith
div_anti (pos a) (negsuc b) c h k l = ground arith
div_anti (negsuc a) b c h k l = ground arith

pub div_le_one :
    (a b : ℤ)
    → leb_ℤ (pos 0) a ≡ true
    → leb_ℤ a b ≡ true
    → leb_ℤ b (pos 0) ≡ false
    → leb_ℤ (div_fixed a b) (pos 10000) ≡ true
div_le_one (pos a) (pos b) h k l =
    let bound : (a * 10000) / b ≤ 10000 =
      div-le_of_le-mul b (omega (arith, leb→le a b (ground arith))) in
    rw (div-zero (a * 10000), zero-div b) (ground (arith, bound))
div_le_one (pos a) (negsuc b) h k l = ground arith
div_le_one (negsuc a) b h k l = ground arith

pub one_le_div_self : (a : ℤ) → leb_ℤ a (pos 0) ≡ false → leb_ℤ (pos 10000) (div_fixed a a) ≡ true
one_le_div_self (pos a) h =
    let positive : 0 < a = ground arith in
    let bound : 10000 ≤ (a * 10000) / a = (le-div_iff_mul-le positive).1 (omega arith) in
    rw (div-zero (a * 10000), zero-div a) (ground (arith, bound))
one_le_div_self (negsuc a) h = ground arith

product_le : (a b : ℕ) → b ≤ 10000 → a * b ≤ a * 10000
product_le a b h = grind arith

pub mul_le :
    (a b : ℤ)
    → leb_ℤ (pos 0) a ≡ true
    → leb_ℤ (pos 0) b ≡ true
    → leb_ℤ b (pos 10000) ≡ true
    → leb_ℤ (mul_fixed a b) a ≡ true
mul_le (pos a) (pos b) h k l = ground (arith, product_le a b)
mul_le (pos a) (negsuc b) h k l = ground arith
mul_le (negsuc a) b h k l = ground arith

instance abbrev pub fixed : Num ℤ
fixed = record {
  of_ℕ = λ k. pos (k * 10000);
  add = ◌+ℤ◌;
  sub = ◌-ℤ◌;
  mul = mul_fixed;
  div = div_fixed;
  le = leb_ℤ;
  le_refl = le_refl;
  le_trans = le_trans;
  le_total = le_total;
  of_ℕ_mono = of_ℕ_mono;
  suc_pos = suc_pos;
  sub_nonneg = sub_nonneg;
  sub_nonpos = sub_nonpos;
  sub_le = sub_le;
  mul_nonneg = mul_nonneg;
  div_nonneg = div_nonneg;
  div_nonpos = div_nonpos;
  div_anti = div_anti;
  div_le_one = div_le_one;
  one_le_div_self = one_le_div_self;
  mul_le = mul_le;
}
