-- ===== src/Prelude/Int.antt =====
-- Signed integers over the native numbers, and the two's complement patterns of i8 to i64.
use Prim.Native.Nat.{ℕ, suc, ◌-◌, ◌*◌, ◌<◌}
use mathlib.Core.Path.{◌≡◌}
use native.Mathlib.Omega.{arith}
use csid.Prelude.Tests.{ltb, leb, if◌then◌else◌}

-- `negsuc n` is -(n + 1).
pub data ℤ : Type 0 where
  pos : ℕ → ℤ
  negsuc : ℕ → ℤ

abbrev pub pos_part : ℤ → ℕ
pos_part (pos n) = n
pos_part (negsuc n) = 0

abbrev pub neg_part : ℤ → ℕ
neg_part (pos n) = 0
neg_part (negsuc n) = suc n

-- The integer a - b.
abbrev pub sub_ℕ : ℕ → ℕ → ℤ
sub_ℕ a b = if leb b a then pos (a - b) else negsuc (b - a - 1)

-- An integer that a signed word with `half` non-negative values holds (half = 2 ^ (w - 1)).
abbrev pub IsSigned : ℕ → ℤ → Type 0
IsSigned half (pos n) = n < half
IsSigned half (negsuc n) = n < half

-- The two's complement pattern of an integer, and the integer of a pattern.
abbrev pub to_pattern : ℕ → ℤ → ℕ
to_pattern half (pos n) = n
to_pattern half (negsuc n) = 2 * half - 1 - n

abbrev pub of_pattern : ℕ → ℕ → ℤ
of_pattern half v = if ltb v half then pos v else negsuc (2 * half - 1 - v)

pub to_pattern-lt : (half : ℕ) (x : ℤ) → IsSigned half x → to_pattern half x < 2 * half
to_pattern-lt half (pos n) h = omega arith
to_pattern-lt half (negsuc n) h = omega arith

pub of_pattern-to_pattern :
    (half : ℕ) (x : ℤ) → IsSigned half x → of_pattern half (to_pattern half x) ≡ x
of_pattern-to_pattern half (pos n) h = ground arith
of_pattern-to_pattern half (negsuc n) h = ground arith

pub of_pattern-IsSigned : (half v : ℕ) → v < 2 * half → IsSigned half (of_pattern half v)
of_pattern-IsSigned half v h = ground arith
