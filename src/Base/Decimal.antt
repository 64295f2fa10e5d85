-- ===== src/Base/Decimal.antt =====
-- Decimal digits of a number as text, as in `f"{n:06d}"`.
use Prim.Native.String.{◌++◌ as text_append}
use Prim.Native.Nat.{max as nat_max}
use burnisher.Base.{ℕ, zero, suc, String, if◌then◌else◌, ltb}
use burnisher.Base.Eq.{string_eq, nat_eq}
use burnisher.Base.{◌/◌, ◌%◌}

abbrev pub digit_text : ℕ → String
digit_text zero = "0"
digit_text (suc zero) = "1"
digit_text (suc (suc zero)) = "2"
digit_text (suc (suc (suc zero))) = "3"
digit_text (suc (suc (suc (suc zero)))) = "4"
digit_text (suc (suc (suc (suc (suc zero))))) = "5"
digit_text (suc (suc (suc (suc (suc (suc zero)))))) = "6"
digit_text (suc (suc (suc (suc (suc (suc (suc zero))))))) = "7"
digit_text (suc (suc (suc (suc (suc (suc (suc (suc zero)))))))) = "8"
digit_text _ = "9"

-- the last `k` digits
unfoldable pub last_digits : ℕ → ℕ → String
last_digits zero n = ""
last_digits (suc k) n = text_append (last_digits k (n / 10)) (digit_text (n % 10))

-- how many digits `n` has; `n` is fuel enough
unfoldable pub count_digits : ℕ → ℕ → ℕ
count_digits zero n = 1
count_digits (suc fuel) n =
    let rest = count_digits fuel (n / 10) in if ltb n 10 then 1 else suc rest

-- at least `width` digits
unfoldable pub padded : ℕ → ℕ → String
unfolding last_digits count_digits
padded width n = last_digits (nat_max width (count_digits n n)) n
