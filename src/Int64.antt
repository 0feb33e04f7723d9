-- ===== src/Int64.antt =====
-- Rust's `i64`, as integers between -(2^63) and 2^63 - 1, with the operations that the daemon uses.
use omnidrive.Prelude.{ℕ, suc, ◌+◌, ◌-◌, ◌^◌, ◌≤◌, ◌≡◌, Bool, false, leb, min, if◌then◌else◌, arith}

-- `negsuc n` is -(n + 1).
pub data ℤ : Type 0 where
  pos : ℕ → ℤ
  negsuc : ℕ → ℤ

-- The magnitude above and below zero.
abbrev pub above : ℤ → ℕ
above (pos n) = n
above (negsuc n) = 0

abbrev pub below : ℤ → ℕ
below (pos n) = 0
below (negsuc n) = suc n

abbrev pub i64_max : ℕ
i64_max = 2 ^ 63 - 1

infix 50 ◌≤ℤ◌
abbrev pub ◌≤ℤ◌ : ℤ → ℤ → Type 0
a ≤ℤ b = above a + below b ≤ above b + below a

abbrev pub lez : ℤ → ℤ → Bool
lez a b = leb (above a + below b) (above b + below a)

-- `a.saturating_add(b)`
abbrev pub saturate : ℕ → ℕ → ℤ
saturate p n = if leb n p then pos (min (p - n) i64_max) else negsuc (min (n - p - 1) i64_max)

unfoldable pub saturating_add : ℤ → ℤ → ℤ
saturating_add a b = saturate (above a + above b) (below a + below b)

-- `a.max(0)`
abbrev pub max_zero : ℤ → ℤ
max_zero (pos n) = pos n
max_zero (negsuc n) = pos 0

-- `i64::try_from(n).unwrap_or(i64::MAX)` of a u64
unfoldable pub from_u64 : ℕ → ℤ
from_u64 n = if leb n i64_max then pos n else pos i64_max

abbrev pub is_zero : ℤ → Bool
is_zero (pos n) = leb n 0
is_zero (negsuc n) = false

-- The sum, cut at the bounds of an i64.
pub saturating_add_exact :
    (a b : ℕ) → a + b ≤ i64_max → saturating_add (pos a) (pos b) ≡ pos (a + b)
unfolding saturating_add
saturating_add_exact a b h = ground arith

-- Adding what is not negative never goes down.
pub saturating_add_mono : (a : ℤ) (n : ℕ) → above a ≤ i64_max → a ≤ℤ saturating_add a (pos n)
unfolding saturating_add
saturating_add_mono (pos m) n h = ground arith
saturating_add_mono (negsuc m) n h = ground arith
