-- ===== src/Base/Int.antt =====
-- Python's `int` where a negative value means something: an index that counts from the end.
use Prim.Native.Nat.{ℕ, suc, ◌-◌}
use mathlib.Core.Option.{Option, none}
use mathlib.Core.Bool.{Bool, false}
use mathlib.Core.List.{List}
use gen_ql.Base.Tests.{eqb, ltb, if◌then◌else◌}
use gen_ql.Base.Lists.{length, get_elem?}

-- `negsuc n` is -(n + 1).
pub data ℤ : Type 0 where
  pos : ℕ → ℤ
  negsuc : ℕ → ℤ

abbrev pub eqb_ℤ : ℤ → ℤ → Bool
eqb_ℤ (pos a) (pos b) = eqb a b
eqb_ℤ (negsuc a) (negsuc b) = eqb a b
eqb_ℤ _ _ = false

-- `xs[i]`, with `none` for an IndexError.
abbrev pub index {ℓ} : {A : Type ℓ} → List A → ℤ → Option A
index xs (pos n) = get_elem? xs n
index xs (negsuc n) = if ltb n (length xs) then get_elem? xs (length xs - suc n) else none
