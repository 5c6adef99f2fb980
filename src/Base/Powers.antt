-- ===== src/Base/Powers.antt =====
-- Quotients and remainders by powers of two.
use Prim.Native.Nat.{ℕ, zero, suc, ◌+◌, ◌-◌, ◌*◌, ◌/◌, ◌%◌, ◌^◌, ◌<◌, ◌≤◌}
use Prim.Native.Nat.add
use mathlib.Core.Path.{◌≡◌, sym, ◌∙◌, ap}
use native.Mathlib.Nat.{
  pow-suc, pow-succ', one-le-pow, mod-eq_of_lt, mul-add-mod_self_right, add-mul-mod_self_right,
}
use native.Mathlib.Nat.{div-add-mod', mod-lt, mul-lt-mul_of_pos_right, div-div-eq-div-mul}
use native.Mathlib.Omega.{arith}

-- The lowest digit of a remainder, and the rest.
pub half-mod : (v m : ℕ) → 0 < m → v % (m * 2) ≡ v / 2 % m * 2 + v % 2
half-mod v m h =
    ap (λ (t : ℕ). t % (m * 2)) (split v)
    ∙ mul-add-mod_self_right (v / 2 / m) (m * 2) (v / 2 % m * 2 + v % 2)
    ∙ mod-eq_of_lt (omega (arith, mod-lt (v / 2) h))
  where
    split : (v : ℕ) → v ≡ v / 2 / m * (m * 2) + (v / 2 % m * 2 + v % 2)
    split v = ground (arith, div-add-mod' (v / 2) m)

pub mod-pow-suc : (v k : ℕ) → v % 2 ^ suc k ≡ v / 2 % 2 ^ k * 2 + v % 2
mod-pow-suc v k =
    ap (λ (t : ℕ). v % t) (pow-suc 2 k) ∙ half-mod v (2 ^ k) (one-le-pow k 2 (omega arith))

pub div-pow-suc : (v k : ℕ) → v / 2 ^ suc k ≡ v / 2 / 2 ^ k
div-pow-suc v k = ap (λ (t : ℕ). v / t) (pow-succ' 2 k) ∙ sym (div-div-eq-div-mul v 2 (2 ^ k))

pub pow-add : (m n : ℕ) → 2 ^ (m + n) ≡ 2 ^ m * 2 ^ n
pow-add zero n = ground arith
pow-add (suc m) n =
    ap (λ (t : ℕ). 2 ^ t) (add.suc m n)
    ∙ ground (
      arith,
      ap (λ (t : ℕ). t * 2 ^ n) (pow-suc 2 m),
      pow-suc 2 (m + n),
      ap (λ (t : ℕ). t * 2) (pow-add m n),
    )

-- A common factor of a remainder.
pub mul-mod-mul : (a b c : ℕ) → 0 < b → 0 < c → a * c % (b * c) ≡ a % b * c
mul-mod-mul a b c hb hc =
    ap (λ (t : ℕ). t % (b * c)) split
    ∙ mul-add-mod_self_right (a / b) (b * c) (a % b * c)
    ∙ mod-eq_of_lt (mul-lt-mul_of_pos_right (mod-lt a hb) hc)
  where
    split : a * c ≡ a / b * (b * c) + a % b * c
    split = ground (arith, ap (λ (t : ℕ). t * c) (div-add-mod' a b))

pub pow-split : (n k : ℕ) → k ≤ n → 2 ^ n ≡ 2 ^ (n - k) * 2 ^ k
pow-split n k h = ap (λ (t : ℕ). 2 ^ t) (omega arith) ∙ pow-add (n - k) k

-- A remainder by a larger power of two does not change one by a smaller.
pub mod-mod-pow : (x m n : ℕ) → n ≤ m → x % 2 ^ m % 2 ^ n ≡ x % 2 ^ n
mod-mod-pow x m n h =
    sym (add-mul-mod_self_right (x % 2 ^ m) (x / 2 ^ m * 2 ^ (m - n)) (2 ^ n))
    ∙ ap (λ (t : ℕ). t % 2 ^ n) whole
  where
    whole : x % 2 ^ m + x / 2 ^ m * 2 ^ (m - n) * 2 ^ n ≡ x
    whole = ground (arith, div-add-mod' x (2 ^ m), ap (λ (t : ℕ). x / 2 ^ m * t) (pow-split m n h))
