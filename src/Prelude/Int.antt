-- ===== src/Prelude/Int.antt =====
-- Go's signed integers: a value is an integer ℤ (over the native numbers, under the library's
-- names), and an operation of a w-bit type wraps its result around, as Go's arithmetic and its
-- conversions between integer types do.
use Prim.Native.Nat.{ℕ, suc, ◌+◌, ◌-◌, ◌*◌, ◌/◌, ◌%◌, ◌^◌, ◌≤◌, ◌<◌}
use mathlib.Core.Path.{◌≡◌, ap}
use mathlib.Core.Bool.{Bool, true}
use native.Mathlib.Omega.{arith}
use challenge_service.Prelude.Tests.{ltb, leb, nat_eq, if◌then◌else◌}

-- `negsuc n` is -(n + 1).
pub data ℤ : Type 0 where
  pos : ℕ → ℤ
  negsuc : ℕ → ℤ

abbrev pub pos_part : ℤ → ℕ
pos_part (pos n) = n
pos_part (negsuc n) = 0

abbrev pub neg_part : ℤ → ℕ
neg_part (pos n) = 0
neg_part (negsuc n) = suc n

-- a - b, as an integer.
abbrev pub sub_ℕ : ℕ → ℕ → ℤ
sub_ℕ a b = if leb b a then pos (a - b) else negsuc (b - a - 1)

-- The tests `<`, `==` of Go's integers.
abbrev pub int_lt : ℤ → ℤ → Bool
int_lt a b = ltb (pos_part a + neg_part b) (pos_part b + neg_part a)

abbrev pub int_eq : ℤ → ℤ → Bool
int_eq a b = nat_eq (pos_part a + neg_part b) (pos_part b + neg_part a)

pub int_eq→eq : (a b : ℤ) → int_eq a b ≡ true → a ≡ b
int_eq→eq a b h = ground arith

-- The residue of an integer modulo 2^64, and the signed value of a residue.
abbrev pub residue64 : ℤ → ℕ
residue64 (pos n) = n % 2 ^ 64
residue64 (negsuc n) = 2 ^ 64 - 1 - n % 2 ^ 64

abbrev pub signed64 : ℕ → ℤ
signed64 r = if ltb r (2 ^ 63) then pos r else negsuc (2 ^ 64 - 1 - r)

-- `a + b`, `a * b` of two `int` or `int64` values.
unfoldable pub add64 : ℤ → ℤ → ℤ
add64 a b = signed64 ((residue64 a + residue64 b) % 2 ^ 64)

unfoldable pub mul64 : ℤ → ℤ → ℤ
mul64 a b = signed64 ((residue64 a * residue64 b) % 2 ^ 64)

-- `int32(a)`.
unfoldable pub to_int32 : ℤ → ℤ
to_int32 a =
    let r = residue64 a % 2 ^ 32 in if ltb r (2 ^ 31) then pos r else negsuc (2 ^ 32 - 1 - r)

-- The values of a 64-bit and of a 32-bit signed integer.
abbrev pub IsInt64 : ℤ → Type 0
IsInt64 a = (pos_part a < 2 ^ 63) × (neg_part a ≤ 2 ^ 63)

abbrev pub IsInt32 : ℤ → Type 0
IsInt32 a = (pos_part a < 2 ^ 31) × (neg_part a ≤ 2 ^ 31)

pub add64-IsInt64 : (a b : ℤ) → IsInt64 (add64 a b)
unfolding add64
add64-IsInt64 a b = ground arith

pub residue-signed : (r : ℕ) → r < 2 ^ 64 → residue64 (signed64 r) ≡ r
residue-signed r h = ground arith

residue-add64 : (a b : ℤ) → residue64 (add64 a b) ≡ (residue64 a + residue64 b) % 2 ^ 64
unfolding add64
residue-add64 a b = residue-signed ((residue64 a + residue64 b) % 2 ^ 64) (omega arith)

add64_eq :
    (a b c d : ℤ)
    → (residue64 a + residue64 b) % 2 ^ 64 ≡ (residue64 c + residue64 d) % 2 ^ 64
    → add64 a b ≡ add64 c d
unfolding add64
add64_eq a b c d e = ap signed64 e

-- Wrapping addition is commutative and associative, so a sum does not depend on the order.
pub add64_comm : (a b : ℤ) → add64 a b ≡ add64 b a
unfolding add64
add64_comm a b = ap signed64 (omega arith)

pub add64_right_comm : (a b c : ℤ) → add64 (add64 a b) c ≡ add64 (add64 a c) b
add64_right_comm a b c =
    add64_eq (add64 a b) c (add64 a c) b (omega (arith, residue-add64 a b, residue-add64 a c))

pub add64_exact :
    (a b : ℤ)
    → IsInt64 (sub_ℕ (pos_part a + pos_part b) (neg_part a + neg_part b))
    → IsInt64 a
    → IsInt64 b
    → add64 a b ≡ sub_ℕ (pos_part a + pos_part b) (neg_part a + neg_part b)
unfolding add64
add64_exact a b h ha hb = ground arith

-- `a / b` for a positive constant `b`: Go rounds towards zero.
unfoldable pub div64 : ℤ → ℤ → ℤ
div64 a b = sub_ℕ (pos_part a / pos_part b) (neg_part a / pos_part b)

-- A value of the type is what its conversion returns.
pub to_int32_exact : (a : ℤ) → IsInt32 a → to_int32 a ≡ a
unfolding to_int32
to_int32_exact a h = ground arith

-- A number of milliseconds that fits, as nanoseconds and back.
pub div64-mul64 :
    (a : ℤ)
    → pos_part a < 2 ^ 40
    → neg_part a < 2 ^ 40
    → div64 (mul64 a (pos 1000000)) (pos 1000000) ≡ a
unfolding div64 mul64
div64-mul64 (pos n) h k = ground arith
div64-mul64 (negsuc n) h k = ground arith
