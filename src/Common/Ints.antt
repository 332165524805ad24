-- ===== src/Common/Ints.antt =====
-- Go's `int`, as a whole number over the native ℕ: `negsuc n` is -(n + 1).
use Prim.Native.Nat.{ℕ, zero, suc}
use mathlib.Core.Path.{◌≡◌, refl}
use mathlib.Core.Bool.{Bool, true, false}
use native.Mathlib.Omega.{arith}
use device_management_servic.Common.Tests.{ltb, nat_eq}

pub data ℤ : Type 0 where
  pos negsuc : ℕ → ℤ

abbrev pub lt_int : ℤ → ℤ → Bool
lt_int (pos a) (pos b) = ltb a b
lt_int (pos a) (negsuc b) = false
lt_int (negsuc a) (pos b) = true
lt_int (negsuc a) (negsuc b) = ltb b a

-- `n++`
unfoldable pub up : ℤ → ℤ
up (pos n) = pos (suc n)
up (negsuc zero) = pos 0
up (negsuc (suc n)) = negsuc n

-- `n--`
unfoldable pub down : ℤ → ℤ
down (pos zero) = negsuc 0
down (pos (suc n)) = pos n
down (negsuc n) = negsuc (suc n)

pub down-up : (n : ℤ) → down (up n) ≡ n
unfolding down up
down-up (pos n) = refl
down-up (negsuc zero) = refl
down-up (negsuc (suc n)) = refl

-- Below a number, and so below one that is not below it.
pub lt_int_trans : (a b c : ℤ) → lt_int a b ≡ true → lt_int c b ≡ false → lt_int a c ≡ true
lt_int_trans (pos a) (pos b) (pos c) h k = ground arith
lt_int_trans (pos a) (pos b) (negsuc c) h k = cc
lt_int_trans (pos a) (negsuc b) c h k = cc
lt_int_trans (negsuc a) (pos b) (pos c) h k = refl
lt_int_trans (negsuc a) (pos b) (negsuc c) h k = cc
lt_int_trans (negsuc a) (negsuc b) (pos c) h k = refl
lt_int_trans (negsuc a) (negsuc b) (negsuc c) h k = ground arith

pub lt_int-up : (a b : ℤ) → lt_int a b ≡ true → lt_int b (up a) ≡ false
unfolding up
lt_int-up (pos a) (pos b) h = ground arith
lt_int-up (pos a) (negsuc b) h = cc
lt_int-up (negsuc zero) (pos b) h = ground arith
lt_int-up (negsuc (suc a)) (pos b) h = refl
lt_int-up (negsuc zero) (negsuc b) h = ground arith
lt_int-up (negsuc (suc a)) (negsuc b) h = ground arith

pub lt_int-down : (a b : ℤ) → lt_int b a ≡ false → lt_int b (down a) ≡ false
unfolding down
lt_int-down (pos zero) (pos b) h = refl
lt_int-down (pos (suc a)) (pos b) h = ground arith
lt_int-down (negsuc a) (pos b) h = refl
lt_int-down (pos zero) (negsuc b) h = cc
lt_int-down (pos (suc a)) (negsuc b) h = cc
lt_int-down (negsuc a) (negsuc b) h = ground arith

pub up-positive : (a : ℤ) → lt_int (pos 0) a ≡ true → lt_int (pos 0) (up a) ≡ true
unfolding up
up-positive (pos a) h = ground arith
up-positive (negsuc a) h = cc

unfoldable pub eq_int : ℤ → ℤ → Bool
eq_int (pos a) (pos b) = nat_eq a b
eq_int (negsuc a) (negsuc b) = nat_eq a b
eq_int (pos a) (negsuc b) = false
eq_int (negsuc a) (pos b) = false
