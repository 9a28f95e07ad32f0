-- ===== src/Prelude/Int.antt =====
-- Integers over the native numbers, as far as balances need them.
use Prim.Native.Nat.{ℕ, suc, ◌+◌, ◌-◌}
use mathlib.Core.Path.{◌≡◌}
use mathlib.Core.Bool.{Bool}
use native.Mathlib.Omega.{arith}
use seatflow.Prelude.Tests.{leb, ◌==◌, if◌then◌else◌}

-- `negsuc n` is -(n + 1).
pub data ℤ : Type 0 where
  pos : ℕ → ℤ
  negsuc : ℕ → ℤ

abbrev pub pos_part : ℤ → ℕ
pos_part (pos n) = n
pos_part (negsuc n) = 0

abbrev pub neg_part : ℤ → ℕ
neg_part (pos n) = 0
neg_part (negsuc n) = suc n

-- a - b, as an integer.
abbrev pub sub_ℕ : ℕ → ℕ → ℤ
sub_ℕ a b = if leb b a then pos (a - b) else negsuc (b - a - 1)

-- a + n and a - n.
abbrev pub add_ℕ : ℤ → ℕ → ℤ
add_ℕ a n = sub_ℕ (pos_part a + n) (neg_part a)

abbrev pub take_ℕ : ℤ → ℕ → ℤ
take_ℕ a n = sub_ℕ (pos_part a) (neg_part a + n)

abbrev pub eq_ℤ : ℤ → ℤ → Bool
eq_ℤ a b = pos_part a + neg_part b == pos_part b + neg_part a

pub add_ℕ-sub_ℕ : (a b n : ℕ) → add_ℕ (sub_ℕ a b) n ≡ sub_ℕ (a + n) b
add_ℕ-sub_ℕ a b n = ground arith

pub take_ℕ-sub_ℕ : (a b n : ℕ) → take_ℕ (sub_ℕ a b) n ≡ sub_ℕ a (b + n)
take_ℕ-sub_ℕ a b n = ground arith

pub eq_ℤ-sub_ℕ : (a b c d : ℕ) → eq_ℤ (sub_ℕ a b) (sub_ℕ c d) ≡ (a + d == c + b)
eq_ℤ-sub_ℕ a b c d = ground arith
