-- ===== src/ConstEval/BitVec/Reading.antt =====
-- What is read from a vector of bits: `get_const` and `min` of icicle-cpu/src/exec/const_eval.rs,
-- whose loops run from the highest bit down.
use mathlib.Core.List.{reverse, reverse-cons}
use native.Mathlib.Nat.{pow-le-pow_right}
use icicle_emu.Base.{
  ◌>>=◌, ℕ, ◌/◌, ◌%◌, ◌≤◌, ◌≡◌, ◌≢◌, refl, sym, ◌∙◌, arith, List, [], ◌∷◌, ◌++◌, ◌==◌, ltb, Option,
  none, some, Option-cases, length, u64_mod, Bool-cases, inl, inr,
}
use icicle_emu.ConstEval.Bit.{Bit, Denotes, Valuation, const_value}
use icicle_emu.ConstEval.BitVec.{get_const, const_from, push_bit, minimum, min_from, min_bit}
use icicle_emu.ConstEval.BitVec.Sound.{IsValue, IsValue-lt}

const_from-append :
    (n : ℕ) (bits : List Bit) (b : Bit)
    → const_from n (bits ++ b ∷ [])
      ≡ (const_from n bits >>= λ v. const_value b >>= λ k. some (push_bit v k))
const_from-append n [] b = refl
const_from-append n (c ∷ bits) b = elim (Option-cases (const_value c)) [
  | inl e ↦ rw e
  | inr (k, e) ↦ rw e (const_from-append (push_bit n k) bits b)
]

min_from-append :
    (n : ℕ) (bits : List Bit) (b : Bit)
    → min_from n (bits ++ b ∷ []) ≡ push_bit (min_from n bits) (min_bit b)
min_from-append n [] b = refl
min_from-append n (c ∷ bits) b = min_from-append (push_bit n (min_bit c)) bits b

>>=-eq-some :
    (m : Option ℕ) (f : ℕ → Option ℕ) (k : ℕ)
    → (m >>= f) ≡ some k
    → (v : ℕ) × (m ≡ some v) × (f v ≡ some k)
>>=-eq-some none f k h = cc
>>=-eq-some (some v) f k h = (v, refl, h)

pub some≢none : {k : ℕ} → some k ≢ none
some≢none h = cc

module _ (ρ : Valuation) where
  const_value-Denotes :
      (b : Bit) (v k : ℕ) → Denotes ρ b (v % 2 == 1) → const_value b ≡ some k → k ≡ v % 2
  unfolding const_value
  const_value-Denotes Bit.zero v k h e = ground arith
  const_value-Denotes Bit.one v k h e = ground arith
  const_value-Denotes Bit.unknown v k h e = cc
  const_value-Denotes (Bit.expr x) v k h e = cc

  -- Modulo 2 ^ 64, since `output` is a `u64`.
  const_from-IsValue :
      (bits : List Bit) (v k : ℕ)
      → IsValue ρ bits v
      → const_from 0 (reverse bits) ≡ some k
      → k ≡ v % u64_mod
  const_from-IsValue [] v k h e = ground arith
  const_from-IsValue (b ∷ bits) v k h e =
      let chain = sym (const_from-append 0 (reverse bits) b) ∙ (rw reverse-cons at e) in
      let (high, e1, e2) = >>=-eq-some (const_from 0 (reverse bits)) _ k chain in
      let (low, e3, e4) = >>=-eq-some (const_value b) _ k e2 in
      ground
        (arith, const_from-IsValue bits (v / 2) high h.1 e1, const_value-Denotes b v low h.0 e3)

  -- A constant that is read is the number that the bits stand for.
  pub get_const-IsValue :
      (bits : List Bit) (v k : ℕ) → IsValue ρ bits v → get_const bits ≡ some k → k ≡ v
  unfolding get_const
  get_const-IsValue bits v k h e = elim (Bool-cases (ltb 64 (length bits))) [
    | inl wide ↦ absurd (some≢none (sym e ∙ rw wide))
    | inr fits ↦
        let power =
          pow-le-pow_right {n = 2} (omega arith) {i = length bits} {j = 64} (ground arith) in
        let bound = IsValue-lt ρ bits v h in
        omega (arith, const_from-IsValue bits v k h (rw fits at e))
  ]

  min_bit-le : (b : Bit) (v : ℕ) → Denotes ρ b (v % 2 == 1) → min_bit b ≤ v % 2
  min_bit-le Bit.one v h = ground arith
  min_bit-le Bit.zero v h = omega arith
  min_bit-le Bit.unknown v h = omega arith
  min_bit-le (Bit.expr x) v h = omega arith

  -- The minimum of a bit vector is at most every number that it may stand for.
  pub minimum-le : (bits : List Bit) (v : ℕ) → IsValue ρ bits v → minimum bits ≤ v
  unfolding minimum
  minimum-le [] v h = omega arith
  minimum-le (b ∷ bits) v h =
      rw (reverse-cons, min_from-append)
        (omega (arith, minimum-le bits (v / 2) h.1, min_bit-le b v h.0))
