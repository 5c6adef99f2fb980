-- ===== src/Base/Bits.antt =====
-- Single bits of a number, and what the bit operations and a check of every byte say of them.
use Prim.Native.Nat.{
  ℕ, zero, suc, ◌+◌, ◌*◌, ◌/◌, ◌%◌, ◌-◌, ◌^◌, ◌≤◌, ◌<◌, min, max, bit_and, bit_or, digits, bit_xor,
  bit_and-bitwise, bit_or-bitwise, bit_xor-bitwise, differ,
}
use mathlib.Core.Path.{◌≡◌, refl, ap, ◌∙◌}
use mathlib.Core.Bool.{Bool, true, false, not, ◌&&◌, ◌||◌}
use native.Mathlib.Nat.{pow-suc, one-le-pow}
use native.Mathlib.Omega.{arith}
use icicle_emu.Base.Tests.{◌==◌}

-- Bit `k` of a number.
abbrev pub bit_at : ℕ → ℕ → Bool
bit_at n zero = n % 2 == 1
bit_at n (suc k) = bit_at (n / 2) k

-- The lowest digit of `&` and `|`, from the digit recursion that the native operations stand for.
module _ (z : ℕ → ℕ) (f : ℕ → ℕ → ℕ) where
  digits_enough : (n m a b : ℕ) → a ≤ n → a ≤ m → digits z f n a b ≡ digits z f m a b
  digits_enough zero zero a b p q = refl
  digits_enough zero (suc m) zero b p q = refl
  digits_enough (suc n) zero zero b p q = refl
  digits_enough (suc n) (suc m) zero b p q = refl
  digits_enough zero _ (suc a) b p q = absurd (omega arith)
  digits_enough (suc n) zero (suc a) b p q = absurd (omega arith)
  digits_enough (suc n) (suc m) (suc a) b p q =
      ap (λ (t : ℕ). t * 2 + f (suc a % 2) (b % 2))
        (digits_enough n m (suc a / 2) (b / 2) (omega arith) (omega arith))

pub and_step : (a b : ℕ) → bit_and a b ≡ bit_and (a / 2) (b / 2) * 2 + min (a % 2) (b % 2)
and_step zero b = omega (arith, bit_and-bitwise 0 b, bit_and-bitwise 0 (b / 2))
and_step (suc a) b = omega (
  arith,
  bit_and-bitwise (suc a) b,
  bit_and-bitwise (suc a / 2) (b / 2),
  digits_enough (λ _. 0) min a (suc a / 2) (suc a / 2) (b / 2) (omega arith) (omega arith),
)

pub or_step : (a b : ℕ) → bit_or a b ≡ bit_or (a / 2) (b / 2) * 2 + max (a % 2) (b % 2)
or_step zero b = omega (arith, bit_or-bitwise 0 b, bit_or-bitwise 0 (b / 2))
or_step (suc a) b = omega (
  arith,
  bit_or-bitwise (suc a) b,
  bit_or-bitwise (suc a / 2) (b / 2),
  digits_enough (λ x. x) max a (suc a / 2) (suc a / 2) (b / 2) (omega arith) (omega arith),
)

differ_digits : (p q : ℕ) → p < 2 → q < 2 → differ p q ≡ (p + q) % 2
differ_digits zero q hp hq = omega arith
differ_digits (suc p) zero hp hq = omega arith
differ_digits (suc zero) (suc zero) hp hq = refl
differ_digits (suc zero) (suc (suc q)) hp hq = absurd (omega arith)
differ_digits (suc (suc p)) (suc q) hp hq = absurd (omega arith)

pub xor_step : (a b : ℕ) → bit_xor a b ≡ bit_xor (a / 2) (b / 2) * 2 + (a + b) % 2
xor_step zero b = omega (arith, bit_xor-bitwise 0 b, bit_xor-bitwise 0 (b / 2))
xor_step (suc a) b = omega (
  arith,
  bit_xor-bitwise (suc a) b,
  bit_xor-bitwise (suc a / 2) (b / 2),
  digits_enough (λ x. x) differ a (suc a / 2) (suc a / 2) (b / 2) (omega arith) (omega arith),
  differ_digits (suc a % 2) (b % 2) (omega arith) (omega arith),
)

pub bit_at-bit_and : (k a b : ℕ) → bit_at (bit_and a b) k ≡ (bit_at a k && bit_at b k)
bit_at-bit_and zero a b = ground (arith, and_step a b)
bit_at-bit_and (suc k) a b =
    ap (λ (t : ℕ). bit_at t k) (omega (arith, and_step a b)) ∙ bit_at-bit_and k (a / 2) (b / 2)

pub bit_at-bit_or : (k a b : ℕ) → bit_at (bit_or a b) k ≡ (bit_at a k || bit_at b k)
bit_at-bit_or zero a b = ground (arith, or_step a b)
bit_at-bit_or (suc k) a b =
    ap (λ (t : ℕ). bit_at t k) (omega (arith, or_step a b)) ∙ bit_at-bit_or k (a / 2) (b / 2)

-- A property of every number below a bound, checked by evaluation.
abbrev pub all_below : ℕ → (ℕ → Bool) → Bool
all_below zero p = true
all_below (suc n) p = p n && all_below n p

pub all_below_sound : (n : ℕ) (p : ℕ → Bool) (x : ℕ) → all_below n p ≡ true → x < n → p x ≡ true
all_below_sound zero p x h lt = absurd (omega arith)
all_below_sound (suc n) p x h lt = ground (arith, all_below_sound n p x)

-- Single bits of zero, of a power of two and of a complement.
pub bit_at-zero : (k : ℕ) → bit_at 0 k ≡ false
bit_at-zero zero = refl
bit_at-zero (suc k) = bit_at-zero k

pub bit_at-pow : (b k : ℕ) → bit_at (2 ^ b) k ≡ (b == k)
bit_at-pow zero zero = refl
bit_at-pow zero (suc k) = bit_at-zero k ∙ ground arith
bit_at-pow (suc b) zero = ground (arith, pow-suc 2 b)
bit_at-pow (suc b) (suc k) =
    ap (λ (t : ℕ). bit_at t k) (omega (arith, pow-suc 2 b)) ∙ bit_at-pow b k ∙ ground arith

pub bit_at-complement :
    (n k x : ℕ) → k < n → x < 2 ^ n → bit_at (2 ^ n - 1 - x) k ≡ not (bit_at x k)
bit_at-complement zero k x h l = absurd (omega arith)
bit_at-complement (suc n) zero x h l = ground (arith, pow-suc 2 n, one-le-pow n 2 (omega arith))
bit_at-complement (suc n) (suc k) x h l =
    ap (λ (t : ℕ). bit_at t k) (omega (arith, pow-suc 2 n, one-le-pow n 2 (omega arith)))
    ∙ bit_at-complement n k (x / 2) (omega arith) (omega (arith, pow-suc 2 n))
