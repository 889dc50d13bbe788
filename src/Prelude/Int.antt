-- ===== src/Prelude/Int.antt =====
-- Signed whole numbers over the native ones, with the two parts that the arithmetic of numbers reads.
use Prim.Native.Nat.{ℕ, suc, ◌+◌, ◌-◌}
use mathlib.Core.Path.{◌≡◌}
use mathlib.Core.Bool.{Bool}
use native.Mathlib.Omega.{arith}
use padel_bot_api.Prelude.Tests.{leb, if◌then◌else◌}

-- `pos n` is n, and `negsuc n` is the integer below -n.
pub data ℤ : Type 0 where
  pos : ℕ → ℤ
  negsuc : ℕ → ℤ

abbrev pub pos_part : ℤ → ℕ
pos_part (pos n) = n
pos_part (negsuc m) = 0

abbrev pub neg_part : ℤ → ℕ
neg_part (pos n) = 0
neg_part (negsuc m) = suc m

-- The difference of two numbers.
abbrev pub diff : ℕ → ℕ → ℤ
diff a b = if leb b a then pos (a - b) else negsuc (b - suc a)

infixl 65 ◌+ℤ◌ ◌-ℤ◌
unfoldable pub ◌+ℤ◌ : ℤ → ℤ → ℤ
x +ℤ y = diff (pos_part x + pos_part y) (neg_part x + neg_part y)

unfoldable pub ◌-ℤ◌ : ℤ → ℤ → ℤ
x -ℤ y = diff (pos_part x + neg_part y) (pos_part y + neg_part x)

-- `x <= y`
abbrev pub leb_ℤ : ℤ → ℤ → Bool
leb_ℤ x y = leb (pos_part x + neg_part y) (pos_part y + neg_part x)

-- `x === 0`
abbrev pub is_zero : ℤ → Bool
is_zero (pos n) = leb n 0
is_zero (negsuc m) = Bool.false

pub +ℤ-parts :
    (x y : ℤ)
    → pos_part (x +ℤ y) + (neg_part x + neg_part y) ≡ (pos_part x + pos_part y) + neg_part (x +ℤ y)
unfolding ◌+ℤ◌
+ℤ-parts x y = ground arith

pub -ℤ-parts :
    (x y : ℤ)
    → pos_part (x -ℤ y) + (neg_part x + pos_part y) ≡ (pos_part x + neg_part y) + neg_part (x -ℤ y)
unfolding ◌-ℤ◌
-ℤ-parts x y = ground arith

pub same_parts : (x y : ℤ) → pos_part x + neg_part y ≡ neg_part x + pos_part y → x ≡ y
same_parts x y h = ground arith

pub zero_of_is_zero : (x : ℤ) → is_zero x ≡ Bool.true → x ≡ pos 0
zero_of_is_zero x h = ground arith

-- With these rules `omega` proves equations of sums and differences.
pub ruleset int_laws = (arith, +ℤ-parts, -ℤ-parts, same_parts)

shift : (x y z : ℤ) → x +ℤ (y -ℤ z) ≡ (x -ℤ z) +ℤ y
shift x y z = omega int_laws
