-- ===== src/Base/Float.antt =====
-- Python's floats, as far as the program computes with them: an order test, a difference and 0.0.
-- The representation is a parameter; proofs that need more of the order take `IsOrdered`, which
-- holds of floats that are not NaN.
use Prim.Native.Nat.{ℕ, ◌-◌}
use mathlib.Core.Path.{◌≡◌}
use mathlib.Core.Bool.{Bool, true, false, not}
use native.Mathlib.Omega.{arith}
use gen_ql.Base.Tests.{ltb}

pub record FloatOps (F : Type 0) : Type 0 where
  pub lt : F → F → Bool
  pub sub : F → F → F
  pub zero_float : F

module _ {F : Type 0} ⦃ops : FloatOps F⦄ where
  -- `a < b`
  abbrev pub lt_float : F → F → Bool
  lt_float = ops.lt

  -- `a <= b`
  abbrev pub le_float : F → F → Bool
  le_float a b = not (ops.lt b a)

pub record IsOrdered {F : Type 0} (ops : FloatOps F) : Type 0 where
  pub lt_irrefl : (a : F) → ops.lt a a ≡ false
  pub lt_trans : (a b c : F) → ops.lt a b ≡ true → ops.lt b c ≡ true → ops.lt a c ≡ true
  pub lt_cotrans : (a b c : F) → ops.lt a b ≡ true → ops.lt c b ≡ false → ops.lt a c ≡ true

-- Confidences and costs in thousandths.
instance abbrev pub milli : FloatOps ℕ
milli = record { lt = ltb; sub = λ a b. a - b; zero_float = 0 }

pub milli-IsOrdered : IsOrdered milli
milli-IsOrdered = record {
  lt_irrefl = λ a. ground arith;
  lt_trans = λ a b c p q. ground arith;
  lt_cotrans = λ a b c p q. ground arith;
}
