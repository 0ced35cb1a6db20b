-- ===== src/Prelude/Int.antt =====
-- The C++ type `int`: integers over the native numbers, and the 32-bit conversion.
use Prim.Native.Nat.{ℕ, suc, ◌+◌, ◌-◌, ◌%◌, ◌^◌, ◌≤◌, ◌<◌}
use mathlib.Core.Path.{◌≡◌}
use mathlib.Core.Bool.{Bool}
use native.Mathlib.Omega.{arith}
use things_mqtt_lua.Prelude.Tests.{ltb, leb, if◌then◌else◌}

-- `negsuc n` is -(n + 1).
pub data ℤ : Type 0 where
  pos : ℕ → ℤ
  negsuc : ℕ → ℤ

abbrev pub pos_part : ℤ → ℕ
pos_part (pos n) = n
pos_part (negsuc n) = 0

abbrev pub neg_part : ℤ → ℕ
neg_part (pos n) = 0
neg_part (negsuc n) = suc n

infix 50 ◌≤ℤ◌
abbrev pub ◌≤ℤ◌ : ℤ → ℤ → Type 0
a ≤ℤ b = pos_part a + neg_part b ≤ pos_part b + neg_part a

abbrev pub leb_ℤ : ℤ → ℤ → Bool
leb_ℤ a b = leb (pos_part a + neg_part b) (pos_part b + neg_part a)

abbrev pub ltb_ℤ : ℤ → ℤ → Bool
ltb_ℤ a b = ltb (pos_part a + neg_part b) (pos_part b + neg_part a)

abbrev pub eqb_ℤ : ℤ → ℤ → Bool
eqb_ℤ a b = if leb_ℤ a b then leb_ℤ b a else leb_ℤ a b

-- `static_cast<int>(n)` of a `size_t`, on a two's complement machine with a 32-bit `int`.
unfoldable pub to_int32 : ℕ → ℤ
to_int32 n = let w = n % 2 ^ 32 in if ltb w (2 ^ 31) then pos w else negsuc (2 ^ 32 - 1 - w)

-- A size below 2³¹ is kept.
pub to_int32-eq_of_lt : (n : ℕ) → n < 2 ^ 31 → to_int32 n ≡ pos n
unfolding to_int32
to_int32-eq_of_lt n h = let e : n % 2 ^ 32 ≡ n = omega arith in rw e (ground arith)

-- `static_cast<int>(n)` of a signed integer.
unfoldable pub int_of : ℤ → ℤ
unfolding to_int32
int_of (pos n) = to_int32 n
int_of (negsuc n) = to_int32 (2 ^ 32 - 1 - n % 2 ^ 32)

pub int_of-pos : (n : ℕ) → n < 2 ^ 31 → int_of (pos n) ≡ pos n
unfolding int_of
int_of-pos n h = to_int32-eq_of_lt n h

pub int_of-negsuc : (n : ℕ) → n < 2 ^ 31 → int_of (negsuc n) ≡ negsuc n
unfolding int_of to_int32
int_of-negsuc n h =
    let e : (2 ^ 32 - 1 - n % 2 ^ 32) % 2 ^ 32 ≡ 2 ^ 32 - 1 - n = omega arith in rw e (ground arith)
