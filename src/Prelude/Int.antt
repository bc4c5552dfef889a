-- ===== src/Prelude/Int.antt =====
-- Signed integers over the native numbers, and the wrap-around of Go's int64.
use Prim.Native.Nat.{ℕ, suc, ◌+◌, ◌-◌, ◌%◌, ◌^◌, ◌≤◌, ◌<◌}
use mathlib.Core.Path.{◌≡◌, ap}
use mathlib.Core.Bool.{Bool, true}
use native.Mathlib.Omega.{arith}
use ggs.Prelude.Tests.{ltb, leb, ◌==◌, if◌then◌else◌}

-- `negsuc n` is -(n + 1).
pub data ℤ : Type 0 where
  pos : ℕ → ℤ
  negsuc : ℕ → ℤ

abbrev pub pos_part : ℤ → ℕ
pos_part (pos n) = n
pos_part (negsuc n) = 0

abbrev pub neg_part : ℤ → ℕ
neg_part (pos n) = 0
neg_part (negsuc n) = suc n

-- a - b, as an integer.
abbrev pub sub_ℕ : ℕ → ℕ → ℤ
sub_ℕ a b = if leb b a then pos (a - b) else negsuc (b - a - 1)

infixl 65 ◌+ℤ◌ ◌-ℤ◌
infix 50 ◌≤ℤ◌ ◌<ℤ◌
unfoldable pub ◌+ℤ◌ : ℤ → ℤ → ℤ
a +ℤ b = sub_ℕ (pos_part a + pos_part b) (neg_part a + neg_part b)

unfoldable pub ◌-ℤ◌ : ℤ → ℤ → ℤ
a -ℤ b = sub_ℕ (pos_part a + neg_part b) (neg_part a + pos_part b)

abbrev pub ◌≤ℤ◌ : ℤ → ℤ → Type 0
a ≤ℤ b = pos_part a + neg_part b ≤ pos_part b + neg_part a

abbrev pub ◌<ℤ◌ : ℤ → ℤ → Type 0
a <ℤ b = pos_part a + neg_part b < pos_part b + neg_part a

abbrev pub ltb_ℤ : ℤ → ℤ → Bool
ltb_ℤ a b = ltb (pos_part a + neg_part b) (pos_part b + neg_part a)

abbrev pub leb_ℤ : ℤ → ℤ → Bool
leb_ℤ a b = leb (pos_part a + neg_part b) (pos_part b + neg_part a)

abbrev pub eqb_ℤ : ℤ → ℤ → Bool
eqb_ℤ a b = pos_part a + neg_part b == pos_part b + neg_part a

pub eqb_ℤ-sound : (a b : ℤ) → eqb_ℤ a b ≡ true → a ≡ b
eqb_ℤ-sound (pos a) (pos b) h = ap pos (ground arith)
eqb_ℤ-sound (pos a) (negsuc b) h = absurd (ground arith)
eqb_ℤ-sound (negsuc a) (pos b) h = absurd (ground arith)
eqb_ℤ-sound (negsuc a) (negsuc b) h = ap negsuc (ground arith)

eqb_ℤ-refl : (a : ℤ) → eqb_ℤ a a ≡ true
eqb_ℤ-refl (pos a) = ground arith
eqb_ℤ-refl (negsuc a) = ground arith

pub eqb_ℤ-complete : (a b : ℤ) → a ≡ b → eqb_ℤ a b ≡ true
eqb_ℤ-complete a b h = rw h (eqb_ℤ-refl b)

-- An int64 is an integer between -2^63 and 2^63 - 1.
abbrev pub IsInt64 : ℤ → Type 0
IsInt64 a = (pos_part a < 2 ^ 63) × (neg_part a ≤ 2 ^ 63)

-- The integer of a 64-bit pattern, and the pattern of an integer.
abbrev pub signed64 : ℕ → ℤ
signed64 w = if ltb w (2 ^ 63) then pos w else negsuc (2 ^ 64 - w - 1)

abbrev pub bits64 : ℤ → ℕ
bits64 (pos n) = n % 2 ^ 64
bits64 (negsuc n) = 2 ^ 64 - 1 - n % 2 ^ 64

abbrev pub wrap64 : ℤ → ℤ
wrap64 a = signed64 (bits64 a)

-- Go's `a + b` and `a - b` on int64.
unfoldable pub add64 : ℤ → ℤ → ℤ
unfolding ◌+ℤ◌
add64 a b = wrap64 (a +ℤ b)

unfoldable pub sub64 : ℤ → ℤ → ℤ
unfolding ◌-ℤ◌
sub64 a b = wrap64 (a -ℤ b)

pub add64-IsInt64 : (a b : ℤ) → IsInt64 (add64 a b)
unfolding add64
add64-IsInt64 a b = ground arith

pub sub64-IsInt64 : (a b : ℤ) → IsInt64 (sub64 a b)
unfolding sub64
sub64-IsInt64 a b = ground arith

-- Where the true sum or difference of two numbers fits, it is the result.
pub add64_fits : (a b : ℕ) → a + b < 2 ^ 63 → add64 (pos a) (pos b) ≡ pos (a + b)
unfolding add64
add64_fits a b h = ground arith

pub sub64_fits : (a b : ℕ) → b ≤ a → a < 2 ^ 63 → sub64 (pos a) (pos b) ≡ pos (a - b)
unfolding sub64
sub64_fits a b h k = ground arith

-- A sum of two numbers that does not fit is negative.
pub add64_overflows :
    (a b : ℕ)
    → a < 2 ^ 63
    → b < 2 ^ 63
    → 2 ^ 63 ≤ a + b
    → add64 (pos a) (pos b) ≡ negsuc (2 ^ 64 - (a + b) - 1)
unfolding add64
add64_overflows a b ha hb h = ground arith

pub sub64_within :
    (a b : ℤ) → pos 0 ≤ℤ b → b ≤ℤ a → IsInt64 a → sub64 a b ≡ pos (pos_part a - pos_part b)
unfolding sub64
sub64_within a b h k i = ground arith
