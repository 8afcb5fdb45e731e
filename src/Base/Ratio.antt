-- ===== src/Base/Ratio.antt =====
-- Exact non-negative fractions, which stand for the floats of scores.
use Prim.Native.Nat.{ℕ, suc, ◌+◌, ◌*◌, ◌≤◌}
use mathlib.Core.Path.{◌≡◌}
use mathlib.Core.Bool.{Bool, true, false}
use native.Mathlib.Nat.{mul-le-mul_right, le_of_mul-le-mul_right}
use native.Mathlib.Omega.{arith}
use leadto_sales_re.Base.Tests.{leb}
use leadto_sales_re.Base.Sort.{TotalPreorder}

-- `numerator / (below + 1)`
pub record Ratio : Type 0 where
  pub numerator : ℕ
  pub below : ℕ

abbrev pub denominator : Ratio → ℕ
denominator r = suc r.below

abbrev pub whole : ℕ → Ratio
whole n = record { numerator = n; below = 0 }

unfoldable pub add : Ratio → Ratio → Ratio
add r s = record {
  numerator = r.numerator * denominator s + s.numerator * denominator r;
  below = r.below * s.below + r.below + s.below;
}

unfoldable pub multiply : Ratio → Ratio → Ratio
multiply r s = record {
  numerator = r.numerator * s.numerator;
  below = r.below * s.below + r.below + s.below;
}

-- By cross multiplication.
abbrev pub leb_ratio : Ratio → Ratio → Bool
leb_ratio r s = leb (r.numerator * denominator s) (s.numerator * denominator r)

leb→le : (a b : ℕ) → leb a b ≡ true → a ≤ b
leb→le a b h = ground arith

le→leb : (a b : ℕ) → a ≤ b → leb a b ≡ true
le→leb a b h = ground arith

total : (r s : Ratio) → leb_ratio r s ≡ false → leb_ratio s r ≡ true
total r s h = ground arith

-- Multiply the first by u, the second by b, and cancel the shared d.
cross_trans :
    (a b c d e u : ℕ) → a * suc d ≤ c * suc b → c * suc u ≤ e * suc d → a * suc u ≤ e * suc b
cross_trans a b c d e u h k =
    le_of_mul-le-mul_right {m = a * suc u} {n = e * suc b} {k = suc d}
      (omega (arith, mul-le-mul_right (suc u) h, mul-le-mul_right (suc b) k)) (omega arith)

pub trans : (r s t : Ratio) → leb_ratio r s ≡ true → leb_ratio s t ≡ true → leb_ratio r t ≡ true
trans r s t h k = le→leb (r.numerator * denominator t) (t.numerator * denominator r) (
    cross_trans r.numerator r.below s.numerator s.below t.numerator t.below (leb→le _ _ h)
      (leb→le _ _ k))

-- The order by a score, the highest first.
pub descending :
    {A : Type 0} (score : A → Ratio) → TotalPreorder (λ x y. leb_ratio (score y) (score x))
descending score = record {
  total = λ x y h. total (score y) (score x) h;
  trans = λ x y z h k. trans (score z) (score y) (score x) k h;
}

-- At most `most` tenths.
abbrev pub AtMostTenths : ℕ → Ratio → Type 0
AtMostTenths most r = r.numerator * 10 ≤ most * denominator r

pub AtMostTenths-add :
    (m n : ℕ) (r s : Ratio) → AtMostTenths m r → AtMostTenths n s → AtMostTenths (m + n) (add r s)
unfolding add
AtMostTenths-add m n r s h k =
    omega (arith, mul-le-mul_right (denominator s) h, mul-le-mul_right (denominator r) k)

-- A weight of some tenths times a value of at most one.
pub AtMostTenths-multiply :
    (w : ℕ) (v : Ratio)
    → v.numerator ≤ denominator v
    → AtMostTenths w (multiply (record { numerator = w; below = 9 }) v)
unfolding multiply
AtMostTenths-multiply w v h = omega (arith, mul-le-mul_right (w * 10) h)
