-- ===== src/Base/Amount.antt =====
-- Amounts of money: signed whole cents, which stand for the floats of the source.
use Prim.Native.Nat.{ℕ, ◌+◌, ◌-◌, ◌*◌, suc}
use mathlib.Core.Bool.{Bool}
use leadto_sales_re.Base.Tests.{leb, if◌then◌else◌}

-- `negsuc n` is -(n + 1).
pub data ℤ : Type 0 where
  pos : ℕ → ℤ
  negsuc : ℕ → ℤ

abbrev pub pos_part : ℤ → ℕ
pos_part (pos n) = n
pos_part (negsuc n) = 0

abbrev pub neg_part : ℤ → ℕ
neg_part (pos n) = 0
neg_part (negsuc n) = suc n

abbrev pub leb_ℤ : ℤ → ℤ → Bool
leb_ℤ a b = leb (pos_part a + neg_part b) (pos_part b + neg_part a)

-- a - b where b is not above a
abbrev pub difference : ℤ → ℤ → ℕ
difference a b = (pos_part a + neg_part b) - (pos_part b + neg_part a)

-- m - n of two numbers
abbrev from_parts : ℕ → ℕ → ℤ
from_parts m n = if leb n m then pos (m - n) else negsuc ((n - m) - 1)

abbrev pub add_ℤ : ℤ → ℤ → ℤ
add_ℤ a b = from_parts (pos_part a + pos_part b) (neg_part a + neg_part b)

abbrev pub multiply_ℤ : ℤ → ℤ → ℤ
multiply_ℤ a b =
    from_parts (pos_part a * pos_part b + neg_part a * neg_part b)
      (pos_part a * neg_part b + neg_part a * pos_part b)
