-- ===== src/Prelude/Int.antt =====
-- Integers over the native numbers, as far as counters need them.
use Prim.Native.Nat.{ℕ, zero, suc, ◌+◌}
use mathlib.Core.Path.{◌≡◌}
use mathlib.Core.Logic.{◌↔◌}
use mathlib.Core.Bool.{Bool, true, false, ◌&&◌}
use native.Mathlib.Omega.{arith}
use lab_gpu_server_monitor.Prelude.Tests.{Eq, ltb, nat_beq}

-- `negsuc n` is -(n + 1).
pub data ℤ : Type 0 where
  pos : ℕ → ℤ
  negsuc : ℕ → ℤ

abbrev pub pos_part : ℤ → ℕ
pos_part (pos n) = n
pos_part (negsuc n) = 0

abbrev pub neg_part : ℤ → ℕ
neg_part (pos n) = 0
neg_part (negsuc n) = suc n

abbrev pub ltb_ℤ : ℤ → ℤ → Bool
ltb_ℤ a b = ltb (pos_part a + neg_part b) (pos_part b + neg_part a)

abbrev pub eq_ℤ : ℤ → ℤ → Bool
eq_ℤ a b = nat_beq (pos_part a) (pos_part b) && nat_beq (neg_part a) (neg_part b)

-- n - 1
abbrev pub before : ℕ → ℤ
before zero = negsuc 0
before (suc n) = pos n

pub eq_ℤ_iff : (a b : ℤ) → (eq_ℤ a b ≡ true) ↔ (a ≡ b)
eq_ℤ_iff (pos a) (pos b) = ground arith
eq_ℤ_iff (pos a) (negsuc b) = ground arith
eq_ℤ_iff (negsuc a) (pos b) = ground arith
eq_ℤ_iff (negsuc a) (negsuc b) = ground arith

-- No number is below itself, and a number above another is another one.
pub ltb_ℤ-ne : (a b : ℤ) → ltb_ℤ a b ≡ true → eq_ℤ b a ≡ false
ltb_ℤ-ne (pos a) (pos b) h = ground arith
ltb_ℤ-ne (pos a) (negsuc b) h = ground arith
ltb_ℤ-ne (negsuc a) (pos b) h = ground arith
ltb_ℤ-ne (negsuc a) (negsuc b) h = ground arith

instance abbrev pub int_eq : Eq ℤ
int_eq = record { beq = eq_ℤ; beq_iff = eq_ℤ_iff }
