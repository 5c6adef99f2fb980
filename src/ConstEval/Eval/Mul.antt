-- ===== src/ConstEval/Eval/Mul.antt =====
-- Multiplication in the constant evaluator of icicle-cpu/src/exec/const_eval.rs: of two constants, by
-- zero, and by a power of two, which is a shift.
use native.Mathlib.Nat.{mod-mod, mod-lt, zero-mod, one-le-pow, pow-le-pow_right, pow-suc, mul_comm}
use icicle_emu.Base.{
  ℕ, zero, suc, ◌*◌, ◌/◌, ◌%◌, ◌^◌, ◌≤◌, ◌<◌, ◌≡◌, refl, sym, ◌∙◌, ap, ap₂, arith, Option, none,
  some,
}
use icicle_emu.Base.{
  List, [], ◌∷◌, ◌++◌, length, take, replicate, length-append, length-take, u64_mod, ◌==◌, true,
  ==_iff, Bool-cases, inl, inr,
}
use icicle_emu.Base.Powers.{mod-mod-pow}
use icicle_emu.ConstEval.Bit.{Bit, Valuation}
use icicle_emu.ConstEval.BitVec.{deref, slice_to, from_const, set_const, get_const}
use icicle_emu.ConstEval.BitVec.Sound.{IsValue, IsValue-lt}
use icicle_emu.ConstEval.BitVec.Constant.{set_const-IsValue, take-IsValue, recast}
use icicle_emu.ConstEval.BitVec.Reading.{get_const-IsValue}
use icicle_emu.ConstEval.Eval.{eval_mul, popcount, highest_bit, scale}
use icicle_emu.ConstEval.Eval.Binary.{Evaluates, copy_same}
use icicle_emu.ConstEval.Shift.Sound.{zeros-IsValue, unknowns-IsValue}
use icicle_emu.ConstEval.Shift.Left.{shift_left-IsValue}

-- A number with one bit set is the power of two at its highest bit.
popcount-zero : (n x : ℕ) → x < 2 ^ n → popcount n x ≡ 0 → x ≡ 0
unfolding popcount
popcount-zero zero x h e = omega arith
popcount-zero (suc n) x h e = ground (arith, popcount-zero n (x / 2), pow-suc 2 n)

popcount_none : (n : ℕ) → popcount n 0 ≡ 0
unfolding popcount
popcount_none zero = refl
popcount_none (suc n) = omega (arith, popcount_none n)

popcount-one : (n x : ℕ) → x < 2 ^ n → popcount n x ≡ 1 → x ≡ 2 ^ highest_bit n x
unfolding popcount highest_bit
popcount-one zero x h e = absurd (omega arith)
popcount-one (suc n) x h e = ground (
  arith,
  pow-suc 2 n,
  popcount_none n,
  popcount-zero n (x / 2),
  popcount-one n (x / 2),
  pow-suc 2 (highest_bit n (x / 2)),
)

length-set_const : (bits : List Bit) (v : ℕ) → length (set_const bits v) ≡ length bits
unfolding set_const
length-set_const [] v = refl
length-set_const (b ∷ bits) v = ap suc (length-set_const bits (v / 2))

take_prefix {ℓ} :
    {A : Type ℓ} (n : ℕ) (xs ys : List A) → n ≤ length xs → take n (xs ++ ys) ≡ take n xs
take_prefix zero xs ys h = refl
take_prefix (suc n) [] ys h = absurd (omega arith)
take_prefix (suc n) (x ∷ xs) ys h = ap (◌∷◌ x) (take_prefix n xs ys (omega arith))

module _ (ρ : Valuation) where
  -- The lowest `n` bits of `Value::from_const`.
  from_const-IsValue :
      (v n : ℕ)
      → n ≤ 64
      → (bits : List Bit) × (deref (slice_to (from_const v) 0 n) ≡ some bits)
        × (length bits ≡ n)
        × IsValue ρ bits (v % u64_mod % 2 ^ n)
  unfolding deref slice_to from_const
  from_const-IsValue v n h =
      let bits = set_const (replicate 64 Bit.zero) v in
      let size = length-set_const (replicate 64 Bit.zero) v in
      let prefix = take_prefix n bits (replicate 64 Bit.zero) (omega arith) in
      let whole = length-append bits (replicate 64 Bit.zero) in
      (
        take n bits,
        ground arith,
        omega (arith, length-take n bits),
        take-IsValue ρ n bits (v % u64_mod) (set_const-IsValue ρ (replicate 64 Bit.zero) v),
      )

  get_const-narrow : (bits : List Bit) (k : ℕ) → get_const bits ≡ some k → length bits ≤ 64
  unfolding get_const
  get_const-narrow bits k e = ground arith

highest_bit-le : (n x : ℕ) → highest_bit n x ≤ n
unfolding highest_bit
highest_bit-le zero x = omega arith
highest_bit-le (suc n) x = ground (arith, highest_bit-le n (x / 2))

from_const_whole : (v : ℕ) → deref (from_const v) ≡ deref (slice_to (from_const v) 0 64)
unfolding deref slice_to from_const
from_const_whole v = refl

no_product : (u v n : ℕ) → (u == 0) ≡ true → 0 ≡ v * u % 2 ^ n
no_product u v n h =
    sym (zero-mod (2 ^ n))
    ∙ ap (λ (t : ℕ). t % 2 ^ n) (ground (arith, ap (λ (t : ℕ). v * t) ((==_iff u 0).0 h)))

product :
    (k l x y n m : ℕ)
    → n ≤ 64
    → n ≡ m
    → k ≡ x
    → l ≡ y
    → k * l % u64_mod % u64_mod % 2 ^ n ≡ x * y % 2 ^ m
product k l x y n m h e p q =
    ap (λ (t : ℕ). t % 2 ^ n) (mod-mod (k * l) u64_mod)
    ∙ mod-mod-pow (k * l) 64 n h
    ∙ ap₂ (λ (s t : ℕ). s % 2 ^ t) (ap₂ (λ (s t : ℕ). s * t) p q) e

module _ (ρ : Valuation) where
  -- A constant fits 64 bits.
  IsConst-lt : (bits : List Bit) (v k : ℕ) → IsValue ρ bits v → get_const bits ≡ some k → k < 2 ^ 64
  IsConst-lt bits v k h e =
      let narrow = pow-le-pow_right {n = 2} (omega arith) {j = 64} (get_const-narrow ρ bits k e) in
      omega (arith, get_const-IsValue ρ bits v k h e, IsValue-lt ρ bits v h)

module _ (ρ : Valuation) (out : List Bit) where
  -- A product with a known number: nothing, a shift, or unknown bits.
  scale-Evaluates :
      (u v : ℕ) (z : List Bit)
      → u < 2 ^ 64
      → length z ≤ 128
      → length out ≡ length z
      → IsValue ρ z v
      → Evaluates ρ (scale u z out) (v * u % 2 ^ length z)
  unfolding scale
  scale-Evaluates u v z small limit e hz = elim (Bool-cases (u == 0)) [
    | inl nothing ↦ rw nothing (
      _,
      refl,
      rw e (recast ρ _ 0 _ (no_product u v (length z) nothing) (zeros-IsValue ρ (length z))),
    )
    | inr some_u ↦ elim (Bool-cases (popcount 64 u == 1)) [
      | inl power ↦
          let (k, found, size, value) = from_const-IsValue ρ (highest_bit 64 u) 64 (omega arith) in
          let low : highest_bit 64 u % u64_mod % 2 ^ 64 ≡ highest_bit 64 u =
            omega (arith, highest_bit-le 64 u) in
          let is_power = popcount-one 64 u small ((==_iff _ 1).0 power) in
          let (bits, shifted, result) =
            shift_left-IsValue ρ z k v (highest_bit 64 u) limit hz (recast ρ k _ _ low value) in
          (
            bits,
            rw (some_u, power, copy_same out z e, from_const_whole (highest_bit 64 u), found)
                shifted,
            recast ρ bits _ _ (ap (λ (t : ℕ). v * t % 2 ^ length z) (sym is_power)) result,
          )
      | inr other ↦
          rw (some_u, other)
            (
              _,
              refl,
              rw e (unknowns-IsValue ρ (length z) _ (mod-lt _ (one-le-pow _ 2 (omega arith)))),
            )
    ]
  ]

module _ (ρ : Valuation) (a b out : List Bit) (x y : ℕ) (hx : IsValue ρ a x) (hy : IsValue ρ b y)
    (wide : length out ≡ length a) (same : length a ≡ length b) (limit : length a ≤ 128) where
  pub eval_mul-Evaluates :
      (p q : Option ℕ)
      → get_const a ≡ p
      → get_const b ≡ q
      → Evaluates ρ (eval_mul p q a b out) (x * y % 2 ^ length a)
  unfolding eval_mul
  eval_mul-Evaluates (some k) (some l) hp hq =
      let e1 = get_const-IsValue ρ a x k hx hp in
      let e2 = get_const-IsValue ρ b y l hy hq in
      let narrow = get_const-narrow ρ a k hp in
      let (bits, e, size, value) =
        from_const-IsValue ρ (k * l % u64_mod) (length out) (omega arith) in
      (
        bits,
        rw e (copy_same out bits (sym size)),
        recast ρ bits _ _ (product k l x y (length out) (length a) (omega arith) wide e1 e2) value,
      )
  eval_mul-Evaluates (some k) none hp hq =
      let e1 = get_const-IsValue ρ a x k hx hp in
      let (bits, e, value) =
        scale-Evaluates ρ out k y b (IsConst-lt ρ a x k hx hp) (omega arith) (omega arith) hy in
      (bits, e, recast ρ bits _ _ (ground (arith, same, e1, mul_comm x y)) value)
  eval_mul-Evaluates none (some k) hp hq =
      let e1 = get_const-IsValue ρ b y k hy hq in
      let (bits, e, value) = scale-Evaluates ρ out k x a (IsConst-lt ρ b y k hy hq) limit wide hx in
      (bits, e, recast ρ bits _ _ (ap (λ (t : ℕ). x * t % 2 ^ length a) e1) value)
  eval_mul-Evaluates none none hp hq =
      (_, refl, rw wide (unknowns-IsValue ρ (length a) _ (mod-lt _ (one-le-pow _ 2 (omega arith)))))
