-- ===== src/Dtypes.antt =====
-- eval/burnscore/dtypes.py: the widths of element types and the peaks they are scored against.
use burnisher.Base.{String, Option, none, some, [], ◌∷◌}
use burnisher.Base.Eq.{string_eq, nat_eq}
use burnisher.Base.Dict.{Dict, lookup}
use burnisher.Base.Result.{Result, ok, err}
use burnisher.Base.Num.{Num, num, ◌+◌, ◌/◌}
use burnisher.Base.Texts.{lower}

pub data DtypeError : Type 0 where
  unknown_dtype : DtypeError

module _ {R : Type 0} ⦃n : Num R⦄ where
  -- bytes per element
  unfoldable pub widths : Dict String R
  widths =
      ("fp32", num 4)
      ∷ ("f32", num 4)
      ∷ ("tf32", num 4)
      ∷ ("bf16", num 2)
      ∷ ("f16", num 2)
      ∷ ("fp16", num 2)
      ∷ ("fp8", num 1)
      ∷ ("fp8e4m3", num 1)
      ∷ ("fp8e5m2", num 1)
      ∷ ("nvfp4", num 1 / num 2 + num 1 / num 16)
      ∷ ("mxfp4", num 1 / num 2 + num 1 / num 32)
      ∷ ("int8", num 1)
      ∷ []

abbrev pub peak_keys : Dict String String
peak_keys =
    ("fp32", "fp32_tflops")
    ∷ ("f32", "fp32_tflops")
    ∷ ("tf32", "fp32_tflops")
    ∷ ("bf16", "bf16_tensor_tflops")
    ∷ ("f16", "bf16_tensor_tflops")
    ∷ ("fp16", "bf16_tensor_tflops")
    ∷ ("fp8", "fp8_tensor_tflops")
    ∷ ("fp8e4m3", "fp8_tensor_tflops")
    ∷ ("fp8e5m2", "fp8_tensor_tflops")
    ∷ ("int8", "fp8_tensor_tflops")
    ∷ ("nvfp4", "fp4_tensor_tflops")
    ∷ ("mxfp4", "fp4_tensor_tflops")
    ∷ []

abbrev pub known_or : {A : Type 0} → DtypeError → Option A → Result DtypeError A
known_or e none = err e
known_or e (some a) = ok a

unfoldable pub width : {R : Type 0} ⦃n : Num R⦄ → String → Result DtypeError R
unfolding widths lower
width dtype = known_or unknown_dtype (lookup (lower dtype) widths)

unfoldable pub peak_key : String → Result DtypeError String
unfolding lower
peak_key dtype = known_or unknown_dtype (lookup (lower dtype) peak_keys)
