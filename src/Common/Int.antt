-- ===== src/Common/Int.antt =====
-- The numbers that an `int` stands for, and the operations of C on them.
use Prim.Native.Nat.{ℕ, zero, suc, ◌+◌, ◌-◌, ◌/◌, ◌%◌, ◌^◌}
use efficient_lock_free_dura.Common.Tests.{ltb, leb, if◌then◌else◌}

pub data ℤ : Type 0 where
  pos : ℕ → ℤ
  negsuc : ℕ → ℤ

-- The `int` with a 32-bit pattern.
abbrev pub int_of : (pattern : ℕ) → ℤ
int_of p = if ltb p (2 ^ 31) then pos p else negsuc (2 ^ 32 - 1 - p)

abbrev pub neg : ℕ → ℤ
neg zero = pos zero
neg (suc n) = negsuc n

-- a - b
abbrev pub minus : (a b : ℕ) → ℤ
minus a b = if leb b a then pos (a - b) else neg (b - a)

infixl 6 ◌+ℤ◌
abbrev pub ◌+ℤ◌ : ℤ → ℤ → ℤ
pos a +ℤ pos b = pos (a + b)
pos a +ℤ negsuc b = minus a (suc b)
negsuc a +ℤ pos b = minus b (suc a)
negsuc a +ℤ negsuc b = negsuc (suc (a + b))

-- Division by two, which rounds towards zero.
abbrev pub half : ℤ → ℤ
half (pos n) = pos (n / 2)
half (negsuc n) = neg (suc n / 2)

-- The remainder by `b`, which has the sign of the number divided.
abbrev pub remainder : ℤ → (b : ℕ) → ℤ
remainder (pos n) b = pos (n % b)
remainder (negsuc n) b = neg (suc n % b)

-- `std::abs`
abbrev pub abs : ℤ → ℕ
abs (pos n) = n
abs (negsuc n) = suc n
