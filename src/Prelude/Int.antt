-- ===== src/Prelude/Int.antt =====
-- Signed integers over the native numbers, and the 64-bit integers of Rust among them.
use Prim.Native.Nat.{ℕ, zero, suc, ◌+◌, ◌-◌, ◌*◌, ◌/◌, ◌%◌, ◌^◌, ◌≤◌, compare, Ordering}
use mathlib.Core.Bool.{Bool, true, false}

-- `negsuc n` is -(n + 1).
pub data ℤ : Type 0 where
  pos : ℕ → ℤ
  negsuc : ℕ → ℤ

abbrev pub pos_part : ℤ → ℕ
pos_part (pos n) = n
pos_part (negsuc n) = 0

abbrev pub neg_part : ℤ → ℕ
neg_part (pos n) = 0
neg_part (negsuc n) = suc n

infix 50 ◌≤ℤ◌
abbrev pub ◌≤ℤ◌ : ℤ → ℤ → Type 0
a ≤ℤ b = pos_part a + neg_part b ≤ pos_part b + neg_part a

abbrev pub leb_ℤ : ℤ → ℤ → Bool
leb_ℤ a b = elim (compare (pos_part a + neg_part b) (pos_part b + neg_part a)) [
  | Ordering.gt ↦ false
  | _ ↦ true
]

abbrev pub neg : ℕ → ℤ
neg zero = pos zero
neg (suc n) = negsuc n

-- Rust's `/` on signed integers rounds towards zero.
abbrev pub quot : ℤ → ℕ → ℤ
quot (pos n) k = pos (n / k)
quot (negsuc n) k = neg (suc n / k)

-- The product by a number.
abbrev pub scale : ℤ → ℕ → ℤ
scale (pos n) k = pos (n * k)
scale (negsuc n) k = neg (suc n * k)

-- The integer that an `i64` holds after an operation wraps around: its residue modulo 2 ^ 64,
-- read as a signed word.
abbrev pub word_i64 : ℤ → ℕ
word_i64 (pos n) = n % 2 ^ 64
word_i64 (negsuc n) = 2 ^ 64 - 1 - n % 2 ^ 64

abbrev pub signed_i64 : ℕ → ℤ
signed_i64 u = elim (compare u (2 ^ 63)) [ Ordering.lt ↦ pos u | _ ↦ negsuc (2 ^ 64 - 1 - u) ]

abbrev pub wrap_i64 : ℤ → ℤ
wrap_i64 a = signed_i64 (word_i64 a)

abbrev pub succ_ℤ : ℤ → ℤ
succ_ℤ (pos n) = pos (n + 1)
succ_ℤ (negsuc zero) = pos 0
succ_ℤ (negsuc (suc n)) = negsuc n
