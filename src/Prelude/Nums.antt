-- ===== src/Prelude/Nums.antt =====
-- Fixed-width unsigned numbers, and signed ones: `negsuc n` is -(n + 1).
use Prim.Native.Nat.{ℕ, suc, ◌+◌, ◌-◌, ◌%◌, ◌≤◌}
use mathlib.Core.Bool.{Bool, true}
use mathlib.Core.Path.{◌≡◌}
use mathlib.Core.Logic.{◌↔◌}
use native.Mathlib.Omega.{arith}
use gateway_test.Prelude.Tests.{leb, ltb, eqb, if◌then◌else◌}

abbrev pub u64_mod : ℕ
u64_mod = 18446744073709551616

abbrev pub i64_mod : ℕ
i64_mod = 9223372036854775808

abbrev pub u64 : ℕ → ℕ
u64 n = n % 18446744073709551616

abbrev pub u32 : ℕ → ℕ
u32 n = n % 4294967296

pub data ℤ : Type 0 where
  pos : ℕ → ℤ
  negsuc : ℕ → ℤ

abbrev pub pos_part : ℤ → ℕ
pos_part (pos n) = n
pos_part (negsuc n) = 0

abbrev pub neg_part : ℤ → ℕ
neg_part (pos n) = 0
neg_part (negsuc n) = suc n

-- The integer a - b.
abbrev pub sub_ℕ : ℕ → ℕ → ℤ
sub_ℕ a b = if leb b a then pos (a - b) else negsuc (b - a - 1)

-- The int64 that a bit pattern stands for, and the pattern of an integer.
abbrev pub signed64 : ℕ → ℤ
signed64 w = if ltb w 9223372036854775808 then pos w else negsuc (18446744073709551616 - w - 1)

abbrev pub bits64 : ℤ → ℕ
bits64 (pos n) = n % 18446744073709551616
bits64 (negsuc n) = 18446744073709551616 - 1 - n % 18446744073709551616

-- int64 addition and subtraction, which wrap.
abbrev pub add64 : ℤ → ℤ → ℤ
add64 a b = signed64 ((bits64 a + bits64 b) % 18446744073709551616)

abbrev pub sub64 : ℤ → ℤ → ℤ
sub64 a b = signed64 ((bits64 a + 18446744073709551616 - bits64 b) % 18446744073709551616)

-- Order on the integers, as a test and as a proposition.
abbrev pub leb_ℤ : ℤ → ℤ → Bool
leb_ℤ a b = leb (pos_part a + neg_part b) (pos_part b + neg_part a)

abbrev pub ltb_ℤ : ℤ → ℤ → Bool
ltb_ℤ a b = ltb (pos_part a + neg_part b) (pos_part b + neg_part a)

infix 50 ◌≤ℤ◌
abbrev pub ◌≤ℤ◌ : ℤ → ℤ → Type 0
a ≤ℤ b = pos_part a + neg_part b ≤ pos_part b + neg_part a

abbrev pub eqb_ℤ : ℤ → ℤ → Bool
eqb_ℤ a b = eqb (pos_part a + neg_part b) (pos_part b + neg_part a)

pub eqb_ℤ_iff : (a b : ℤ) → (eqb_ℤ a b ≡ true) ↔ (a ≡ b)
eqb_ℤ_iff a b = ground arith
