-- ===== src/Base/Int.antt =====
-- Signed 32-bit values as integers: Go's int32 arithmetic keeps its wrap-around.
use Prim.Native.Nat.{ℕ, suc, ◌+◌, ◌-◌, ◌*◌, ◌%◌, ◌≤◌, ◌<◌}
use mathlib.Core.Path.{◌≡◌}
use mathlib.Core.Bool.{Bool, true, false}
use native.Mathlib.Omega.{arith}
use appx_forge.Base.Tests.{ltb, leb, if◌then◌else◌}

-- `negsuc n` is -(n + 1).
pub data ℤ : Type 0 where
  pos : ℕ → ℤ
  negsuc : ℕ → ℤ

abbrev pub pos_part : ℤ → ℕ
pos_part (pos n) = n
pos_part (negsuc n) = 0

abbrev pub neg_part : ℤ → ℕ
neg_part (pos n) = 0
neg_part (negsuc n) = suc n

-- a - b, as an integer.
abbrev pub sub_ℕ : ℕ → ℕ → ℤ
sub_ℕ a b = if leb b a then pos (a - b) else negsuc (b - a - 1)

infixl 65 ◌-ℤ◌
infix 50 ◌≤ℤ◌ ◌<ℤ◌
unfoldable pub ◌-ℤ◌ : ℤ → ℤ → ℤ
a -ℤ b = sub_ℕ (pos_part a + neg_part b) (neg_part a + pos_part b)

abbrev pub ◌≤ℤ◌ : ℤ → ℤ → Type 0
a ≤ℤ b = pos_part a + neg_part b ≤ pos_part b + neg_part a

abbrev pub ◌<ℤ◌ : ℤ → ℤ → Type 0
a <ℤ b = pos_part a + neg_part b < pos_part b + neg_part a

abbrev pub ltb_ℤ : ℤ → ℤ → Bool
ltb_ℤ a b = ltb (pos_part a + neg_part b) (pos_part b + neg_part a)

-- The int32 with the bit pattern of `a` modulo 2^32.
unfoldable pub wrap32 : ℤ → ℤ
wrap32 a =
    let bits = (pos_part a + (4294967296 - neg_part a % 4294967296)) % 4294967296 in
    if ltb bits 2147483648 then pos bits else negsuc (4294967295 - bits)

-- The int64 with the bit pattern of `k * a` modulo 2^64.
unfoldable pub scale64 : ℕ → ℤ → ℤ
scale64 k a =
    let bits =
      (k * pos_part a + (18446744073709551616 - k * neg_part a % 18446744073709551616))
      % 18446744073709551616 in
    if ltb bits 9223372036854775808 then pos bits else negsuc (18446744073709551615 - bits)

abbrev pub InRange32 : ℤ → Type 0
InRange32 a = (pos_part a < 2147483648) × (neg_part a ≤ 2147483648)

pub wrap32_id : (a : ℤ) → InRange32 a → wrap32 a ≡ a
unfolding wrap32
wrap32_id (pos n) h = ground arith
wrap32_id (negsuc n) h = ground arith

abbrev pub is_zero : ℤ → Bool
is_zero (pos ℕ.zero) = true
is_zero _ = false
