-- ===== src/Common/Ints.antt =====
-- C's `int` where it is signed: a difference of two numbers, and the sign of one.
use Prim.Native.Nat.{ℕ, zero, suc, ◌+◌, ◌-◌, ◌%◌}
use mathlib.Core.Bool.{Bool, true, false}
use des_aodv.Common.Tests.{leb, if◌then◌else◌}

-- `negsuc n` is -(n + 1).
pub data ℤ : Type 0 where
  pos : ℕ → ℤ
  negsuc : ℕ → ℤ

-- a - b, as an integer.
abbrev pub sub_ℕ : ℕ → ℕ → ℤ
sub_ℕ a b = if leb b a then pos (a - b) else negsuc (b - a - 1)

-- z < 0, z > 0, z <= 0 and z >= 0
abbrev pub is_neg : ℤ → Bool
is_neg (pos n) = false
is_neg (negsuc n) = true

abbrev pub is_pos : ℤ → Bool
is_pos (pos n) = elim n [ zero ↦ false | suc _ ↦ true ]
is_pos (negsuc n) = false

abbrev pub is_nonpos : ℤ → Bool
is_nonpos (pos n) = elim n [ zero ↦ true | suc _ ↦ false ]
is_nonpos (negsuc n) = true

abbrev pub is_nonneg : ℤ → Bool
is_nonneg (pos n) = true
is_nonneg (negsuc n) = false

abbrev pub pos_part : ℤ → ℕ
pos_part (pos n) = n
pos_part (negsuc n) = 0

abbrev pub neg_part : ℤ → ℕ
neg_part (pos n) = 0
neg_part (negsuc n) = suc n

-- a - b and a > b
abbrev pub sub_ℤ : ℤ → ℤ → ℤ
sub_ℤ a b = sub_ℕ (pos_part a + neg_part b) (pos_part b + neg_part a)

-- a conversion to `int8_t`
abbrev pub to_int8 : ℤ → ℤ
to_int8 z = sub_ℕ ((pos_part z % 256 + 256 - neg_part z % 256 + 128) % 256) 128
