-- ===== src/Mem/Align/Laws.antt =====
-- What `align_up` of icicle-mem/src/lib.rs computes.
use native.Mathlib.Nat.{
  pow-suc, one-le-pow, mod-lt, div-add-mod', mod-eq_of_lt, mod_self, mul-add-mod_self_right,
}
use icicle_emu.Base.{
  ℕ, zero, suc, ◌+◌, ◌-◌, ◌*◌, ◌/◌, ◌%◌, ◌^◌, ◌≤◌, ◌<◌, ◌≡◌, refl, sym, ◌∙◌, ap, arith, Bool-cases,
  inl, inr, some, bit_and, ltb, leb, ◌==◌, u64_mod,
}
use icicle_emu.Mem.Align.{count_bits, count_ones, align_up, power_from, checked_next_power_of_two}
use icicle_emu.Mem.Page.Alignment.{and-mask}

count_bits-zero : (w : ℕ) → count_bits w 0 ≡ 0
count_bits-zero zero = refl
count_bits-zero (suc w) = omega (arith, count_bits-zero w)

count_bits-pow : (w k : ℕ) → k < w → count_bits w (2 ^ k) ≡ 1
count_bits-pow zero k h = absurd (omega arith)
count_bits-pow (suc w) zero h = omega (arith, count_bits-zero w)
count_bits-pow (suc w) (suc k) h = omega (
  arith,
  pow-suc 2 k,
  ap (count_bits w) {x = 2 ^ suc k / 2} {y = 2 ^ k} (omega (arith, pow-suc 2 k)),
  count_bits-pow w k (omega arith),
)

-- The next power of two.
power_from-pow :
    (n k value a : ℕ)
    → power_from n (2 ^ k) value ≡ some a
    → (j : ℕ) × (a ≡ 2 ^ j) × (j < n + k) × (value ≤ a)
power_from-pow zero k value a h = absurd (cc h)
power_from-pow (suc n) k value a h = elim (Bool-cases (leb value (2 ^ k))) [
  | inl c ↦ let e : 2 ^ k ≡ a = some_number (rw c at h) in (k, sym e, omega arith, ground arith)
  | inr c ↦
      let (j, e, l, m) =
        power_from-pow n (suc k) value a
          (ap (λ (t : ℕ). power_from n t value) (pow-suc 2 k) ∙ rw c at h) in
      (j, e, omega arith, m)
]
  where
    some_number : {x y : ℕ} → some x ≡ some y → x ≡ y
    some_number h = cc

pub checked_next_power_of_two-pow :
    (value a : ℕ)
    → checked_next_power_of_two value ≡ some a
    → (j : ℕ) × (a ≡ 2 ^ j) × (j < 64) × (value ≤ a)
unfolding checked_next_power_of_two
checked_next_power_of_two-pow value a h = power_from-pow 64 0 value a h

-- The distance to the next multiple.
distance :
    (value p : ℕ) → 0 < p → ((value + (p - value % p) % p) % p ≡ 0) × ((p - value % p) % p < p)
distance value p h = elim (Bool-cases (value % p == 0)) [
  | inl c ↦
      let z : value % p ≡ 0 = ground arith in
      let d : (p - value % p) % p ≡ 0 =
        ap (λ (t : ℕ). t % p) {x = p - value % p} {y = p} (omega (arith, z)) ∙ mod_self p in
      (
        ap (λ (t : ℕ). (value + t) % p) d
            ∙ omega (arith, ap (λ (t : ℕ). t % p) {x = value + 0} {y = value} (omega arith), z),
        omega (arith, d),
      )
  | inr c ↦
      let l = mod-lt value h in
      let d : (p - value % p) % p ≡ p - value % p = mod-eq_of_lt (ground arith) in
      let whole : value + (p - value % p) ≡ (value / p + 1) * p + 0 =
        ground (arith, div-add-mod' value p) in
      (
        ap (λ (t : ℕ). (value + t) % p) d
            ∙ ap (λ (t : ℕ). t % p) whole
            ∙ mul-add-mod_self_right (value / p + 1) p 0
            ∙ mod-eq_of_lt h,
        ground (arith, d),
      )
]

-- Where it returns, alignment to a power of two gives a 64-bit multiple of it that is at least the
-- value and less than one alignment more.
pub align_up-least :
    (value k a : ℕ)
    → k < 64
    → align_up value (2 ^ k) ≡ some a
    → (a % 2 ^ k ≡ 0) × (value ≤ a) × (a < value + 2 ^ k) × (a < u64_mod)
unfolding align_up count_ones
align_up-least value k a h e =
    let one = count_bits-pow 64 k h in
    let mask = and-mask k value in
    let d = (2 ^ k - value % 2 ^ k) % 2 ^ k in
    let inner : bit_and (2 ^ k - bit_and value (2 ^ k - 1)) (2 ^ k - 1) ≡ d =
      ap (λ (t : ℕ). bit_and (2 ^ k - t) (2 ^ k - 1)) mask ∙ and-mask k (2 ^ k - value % 2 ^ k) in
    let (p, q) = distance value (2 ^ k) (one-le-pow k 2 (omega arith)) in
    elim (Bool-cases (ltb (value + d) u64_mod)) [
      | inl c ↦
          let r : value + d ≡ a = some_number (rw (one, inner, c) at e) in
          (
            ap (λ (t : ℕ). t % 2 ^ k) (sym r) ∙ p,
            omega (arith, r),
            omega (arith, r, q),
            ground (arith, r, c),
          )
      | inr c ↦ absurd (cc (rw (one, inner, c) at e))
    ]
  where
    some_number : {x y : ℕ} → some x ≡ some y → x ≡ y
    some_number h = cc
