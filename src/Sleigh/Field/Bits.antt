-- ===== src/Sleigh/Field/Bits.antt =====
-- The bits of shifted, cut and masked numbers.
use icicle_emu.Base.{
  ℕ, zero, suc, ◌+◌, ◌-◌, ◌*◌, ◌/◌, ◌%◌, ◌^◌, ◌≤◌, ◌<◌, ◌≡◌, ap, ◌∙◌, false, ltb, arith,
}
use icicle_emu.Base.Bits.{bit_at, bit_at-zero}
use icicle_emu.Base.Powers.{mod-pow-suc, div-pow-suc}
use native.Mathlib.Nat.{pow-suc, one-le-pow}

pub same_index : (x j k : ℕ) → j ≡ k → bit_at x j ≡ bit_at x k
same_index x j k h = ap (λ (t : ℕ). bit_at x t) h

same_number : (x y k : ℕ) → x ≡ y → bit_at x k ≡ bit_at y k
same_number x y k h = ap (λ (t : ℕ). bit_at t k) h

pub bit_at-div-pow : (o x k : ℕ) → bit_at (x / 2 ^ o) k ≡ bit_at x (o + k)
bit_at-div-pow zero x k =
    same_number (x / 2 ^ 0) x k (ground arith) ∙ same_index x k (0 + k) (omega arith)
bit_at-div-pow (suc o) x k =
    same_number (x / 2 ^ suc o) (x / 2 / 2 ^ o) k (div-pow-suc x o)
    ∙ bit_at-div-pow o (x / 2) k
    ∙ same_index x (suc (o + k)) (suc o + k) (omega arith)

pub bit_at-mul-pow : (o x k : ℕ) → bit_at (x * 2 ^ o) (o + k) ≡ bit_at x k
bit_at-mul-pow zero x k =
    same_index (x * 2 ^ 0) (0 + k) k (omega arith) ∙ same_number (x * 2 ^ 0) x k (ground arith)
bit_at-mul-pow (suc o) x k =
    same_index (x * 2 ^ suc o) (suc o + k) (suc (o + k)) (omega arith)
    ∙ same_number (x * 2 ^ suc o / 2) (x * 2 ^ o) (o + k)
        (ground (arith, ap (λ (t : ℕ). x * t) (pow-suc 2 o)))
    ∙ bit_at-mul-pow o x k

pub bit_at-mul-below : (o x k : ℕ) → k < o → bit_at (x * 2 ^ o) k ≡ false
bit_at-mul-below zero x k h = absurd (omega arith)
bit_at-mul-below (suc o) x zero h = ground (arith, ap (λ (t : ℕ). x * t) (pow-suc 2 o))
bit_at-mul-below (suc o) x (suc k) h =
    ap (λ (t : ℕ). bit_at t k) (ground (arith, ap (λ (t : ℕ). x * t) (pow-suc 2 o)))
    ∙ bit_at-mul-below o x k (omega arith)

pub bit_at-mod-pow : (w x k : ℕ) → k < w → bit_at (x % 2 ^ w) k ≡ bit_at x k
bit_at-mod-pow zero x k h = absurd (omega arith)
bit_at-mod-pow (suc w) x zero h = ground (arith, mod-pow-suc x w)
bit_at-mod-pow (suc w) x (suc k) h =
    ap (λ (t : ℕ). bit_at t k) (omega (arith, mod-pow-suc x w))
    ∙ bit_at-mod-pow w (x / 2) k (omega arith)

pub bit_at-above : (w x k : ℕ) → x < 2 ^ w → bit_at x (w + k) ≡ false
bit_at-above zero x k h = same_number x 0 (0 + k) (omega arith) ∙ bit_at-zero (0 + k)
bit_at-above (suc w) x k h =
    same_index x (suc w + k) (suc (w + k)) (omega arith)
    ∙ bit_at-above w (x / 2) k (omega (arith, pow-suc 2 w))

pub bit_at-ones : (n k : ℕ) → bit_at (2 ^ n - 1) k ≡ ltb k n
bit_at-ones zero k = bit_at-zero k ∙ ground arith
bit_at-ones (suc n) zero = ground (arith, pow-suc 2 n, one-le-pow n 2 (omega arith))
bit_at-ones (suc n) (suc k) =
    ap (λ (t : ℕ). bit_at t k) (omega (arith, pow-suc 2 n, one-le-pow n 2 (omega arith)))
    ∙ bit_at-ones n k
    ∙ ground arith

-- Numbers with the same bits are equal.
same_below : (n a b : ℕ) → a ≤ n → b ≤ n → ((k : ℕ) → bit_at a k ≡ bit_at b k) → a ≡ b
same_below zero a b p q h = omega arith
same_below (suc n) a b p q h =
    ground
      (arith, h 0, same_below n (a / 2) (b / 2) (omega arith) (omega arith) (λ (k : ℕ). h (suc k)))

pub same_bits : (a b : ℕ) → ((k : ℕ) → bit_at a k ≡ bit_at b k) → a ≡ b
same_bits a b h = same_below (a + b) a b (omega arith) (omega arith) h
