-- ===== src/Common/Int.antt =====
-- Signed integers over the native numbers, and the 64-bit range with its checked operations.
use nvme_disk_mon.Common.Tests.{ltb, leb, ◌==◌, if◌then◌else◌}
use mathlib.Core.Path.{◌≡◌}
use mathlib.Core.Bool.{Bool, true, false}
use mathlib.Core.Option.{Option, none, some}
use Prim.Native.Nat.{ℕ, suc, ◌+◌, ◌-◌, ◌%◌, ◌^◌, ◌≤◌, ◌<◌}
use native.Mathlib.Omega.{arith}

-- `negsuc n` is -(n + 1).
pub data ℤ : Type 0 where
  pos : ℕ → ℤ
  negsuc : ℕ → ℤ

abbrev pub pos_part : ℤ → ℕ
pos_part (pos n) = n
pos_part (negsuc n) = 0

abbrev pub neg_part : ℤ → ℕ
neg_part (pos n) = 0
neg_part (negsuc n) = suc n

-- a - b, as an integer.
abbrev pub sub_ℕ : ℕ → ℕ → ℤ
sub_ℕ a b = if leb b a then pos (a - b) else negsuc (b - a - 1)

infixl 65 ◌+ℤ◌ ◌-ℤ◌
infix 50 ◌≤ℤ◌
unfoldable pub ◌+ℤ◌ : ℤ → ℤ → ℤ
a +ℤ b = sub_ℕ (pos_part a + pos_part b) (neg_part a + neg_part b)

unfoldable pub ◌-ℤ◌ : ℤ → ℤ → ℤ
a -ℤ b = sub_ℕ (pos_part a + neg_part b) (neg_part a + pos_part b)

abbrev pub ◌≤ℤ◌ : ℤ → ℤ → Type 0
a ≤ℤ b = pos_part a + neg_part b ≤ pos_part b + neg_part a

abbrev pub ltb_ℤ : ℤ → ℤ → Bool
ltb_ℤ a b = ltb (pos_part a + neg_part b) (pos_part b + neg_part a)

abbrev pub eqb_ℤ : ℤ → ℤ → Bool
eqb_ℤ a b = pos_part a + neg_part b == pos_part b + neg_part a

abbrev pub is_negative : ℤ → Bool
is_negative (pos n) = false
is_negative (negsuc n) = true

pub +ℤ_parts :
    (a b : ℤ)
    → pos_part (a +ℤ b) + neg_part a + neg_part b ≡ neg_part (a +ℤ b) + pos_part a + pos_part b
unfolding ◌+ℤ◌
+ℤ_parts a b = ground arith

pub -ℤ_parts :
    (a b : ℤ)
    → pos_part (a -ℤ b) + neg_part a + pos_part b ≡ neg_part (a -ℤ b) + pos_part a + neg_part b
unfolding ◌-ℤ◌
-ℤ_parts a b = ground arith

pub eq_of_parts : (a b : ℤ) → pos_part a + neg_part b ≡ pos_part b + neg_part a → a ≡ b
eq_of_parts a b h = ground arith

pub ruleset int_laws = (arith, +ℤ_parts, -ℤ_parts, eq_of_parts)

-- `a.rem_euclid(m)` for a positive m.
unfoldable pub rem_euclid : ℤ → ℕ → ℕ
rem_euclid (pos n) m = n % m
rem_euclid (negsuc n) m = m - 1 - n % m

-- The range of an i64.
abbrev pub i64_end : ℕ
i64_end = 2 ^ 63

abbrev pub in_i64 : ℤ → Bool
in_i64 (pos n) = ltb n i64_end
in_i64 (negsuc n) = ltb n i64_end

-- `a.checked_add(b)` and `a.checked_sub(b)`
abbrev pub checked_i64 : ℤ → Option ℤ
checked_i64 z = if in_i64 z then some z else none

-- `i64::try_from(n)` of an unsigned value
abbrev pub i64_of_ℕ : ℕ → Option ℤ
i64_of_ℕ n = if ltb n i64_end then some (pos n) else none

abbrev pub u128_end : ℕ
u128_end = 2 ^ 128

abbrev pub u64_end : ℕ
u64_end = 2 ^ 64

abbrev pub u32_end : ℕ
u32_end = 2 ^ 32

-- `checked_add`, `checked_sub` and `checked_mul` of an unsigned type with the given end
abbrev pub checked_unsigned : ℕ → ℕ → Option ℕ
checked_unsigned end n = if ltb n end then some n else none

abbrev pub checked_sub : ℕ → ℕ → Option ℕ
checked_sub a b = if leb b a then some (a - b) else none

pub checked_i64-pos : (n : ℕ) → n < i64_end → checked_i64 (pos n) ≡ some (pos n)
checked_i64-pos n h = ground arith

pub i64_of_ℕ-some : (n : ℕ) → n < i64_end → i64_of_ℕ n ≡ some (pos n)
i64_of_ℕ-some n h = ground arith
