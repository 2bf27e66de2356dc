-- ===== src/Base/Int.antt =====
-- Signed integers over the native numbers, and the addition of Go's `int` on 64 bits.
use Prim.Native.Nat.{ℕ, suc, ◌+◌, ◌-◌, ◌^◌, ◌≤◌, ◌<◌}
use mathlib.Core.Path.{◌≡◌}
use mathlib.Core.Bool.{Bool, false}
use native.Mathlib.Omega.{arith}
use tentacles.Base.Tests.{ltb, leb, if◌then◌else◌}

-- `negsuc n` is -(n + 1).
pub data ℤ : Type 0 where
  pos : ℕ → ℤ
  negsuc : ℕ → ℤ

abbrev pub pos_part : ℤ → ℕ
pos_part (pos n) = n
pos_part (negsuc n) = 0

abbrev pub neg_part : ℤ → ℕ
neg_part (pos n) = 0
neg_part (negsuc n) = suc n

abbrev pub sub_ℕ : ℕ → ℕ → ℤ
sub_ℕ a b = if leb b a then pos (a - b) else negsuc (b - a - 1)

infixl 65 ◌+ℤ◌
infix 50 ◌≤ℤ◌
unfoldable pub ◌+ℤ◌ : ℤ → ℤ → ℤ
a +ℤ b = sub_ℕ (pos_part a + pos_part b) (neg_part a + neg_part b)

abbrev pub ◌≤ℤ◌ : ℤ → ℤ → Type 0
a ≤ℤ b = pos_part a + neg_part b ≤ pos_part b + neg_part a

abbrev pub ltb_ℤ : ℤ → ℤ → Bool
ltb_ℤ a b = ltb (pos_part a + neg_part b) (pos_part b + neg_part a)

abbrev pub leb_ℤ : ℤ → ℤ → Bool
leb_ℤ a b = leb (pos_part a + neg_part b) (pos_part b + neg_part a)

abbrev pub is_zero : ℤ → Bool
is_zero (pos n) = leb n 0
is_zero (negsuc n) = false

-- a + b of two values of `int`, which wraps around at 64 bits.
unfoldable pub add_int : ℤ → ℤ → ℤ
unfolding ◌+ℤ◌
add_int a b =
    let s = a +ℤ b in
    if ltb_ℤ (pos (2 ^ 63 - 1)) s
    then s +ℤ negsuc (2 ^ 64 - 1)
    else if ltb_ℤ s (negsuc (2 ^ 63 - 1))
    then s +ℤ pos (2 ^ 64)
    else s

-- Two numbers from zero up whose sum is in range are added exactly.
pub add_int-pos : (m n : ℕ) → m + n ≤ 2 ^ 63 - 1 → add_int (pos m) (pos n) ≡ pos (m + n)
unfolding add_int ◌+ℤ◌
add_int-pos m n h = ground arith

-- A test that fails gives the other order.
pub le_of_not_lt : (a b : ℤ) → ltb_ℤ a b ≡ false → b ≤ℤ a
le_of_not_lt a b h = ground arith

pub lt_of_not_le : (a b : ℤ) → leb_ℤ a b ≡ false → pos_part b + neg_part a < pos_part a + neg_part b
lt_of_not_le a b h = ground arith

pub ltb_of_le : (a b : ℤ) → b ≤ℤ a → ltb_ℤ a b ≡ false
ltb_of_le a b h = ground arith

pub leb_of_lt : (a b : ℤ) → pos_part b + neg_part a < pos_part a + neg_part b → leb_ℤ a b ≡ false
leb_of_lt a b h = ground arith
