-- ===== src/Prelude/Int.antt =====
-- Go's signed integers, as unbounded integers; the operations that the program uses.
use Prim.Native.Nat.{ℕ, zero, suc, ◌+◌, ◌-◌, ◌%◌, ◌≤◌}
use mathlib.Core.Bool.{Bool, true, false}
use policy_decision_service.Prelude.Tests.{ltb, leb, if◌then◌else◌}

-- `negsuc n` is -(n + 1).
pub data ℤ : Type 0 where
  pos : ℕ → ℤ
  negsuc : ℕ → ℤ

abbrev pub pos_part : ℤ → ℕ
pos_part (pos n) = n
pos_part (negsuc n) = 0

abbrev pub neg_part : ℤ → ℕ
neg_part (pos n) = 0
neg_part (negsuc n) = suc n

infix 50 ◌≤ℤ◌
abbrev pub ◌≤ℤ◌ : ℤ → ℤ → Type 0
a ≤ℤ b = pos_part a + neg_part b ≤ pos_part b + neg_part a

-- -n
abbrev pub opposite : ℕ → ℤ
opposite zero = pos zero
opposite (suc n) = negsuc n

-- a - b
abbrev pub sub_ℕ : ℕ → ℕ → ℤ
sub_ℕ a b = if leb b a then pos (a - b) else opposite (b - a)

-- The value of an int64 that holds the low 64 bits of `n`.
abbrev pub wrap64 : ℕ → ℤ
wrap64 n =
    let m = n % 0x10000000000000000 in
    if ltb m 0x8000000000000000 then pos m else opposite (0x10000000000000000 - m)

-- The test `z <= 0`.
abbrev pub is_positive : ℤ → Bool
is_positive (pos zero) = false
is_positive (pos (suc n)) = true
is_positive (negsuc n) = false
