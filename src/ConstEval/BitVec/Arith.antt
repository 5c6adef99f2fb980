-- ===== src/ConstEval/BitVec/Arith.antt =====
-- `BitVecExt::add`, `sub` and the bitwise methods of icicle-cpu/src/exec/const_eval.rs compute modulo
-- 2 ^ n on every pair of numbers that the two vectors may stand for.
use Prim.Native.Nat.{bit_xor}
use mathlib.Core.Path.{subst}
use native.Mathlib.Nat.{pow-suc, mod-eq_of_lt, mod-eq-sub-mod}
use icicle_emu.Base.{ℕ, ◌+◌, ◌-◌, ◌*◌, ◌/◌, ◌%◌, ◌^◌, ◌<◌, ◌≡◌, refl, arith, List, [], ◌∷◌}
use icicle_emu.Base.{Bool, false, ◌&&◌, ◌||◌, ◌==◌, leb, ltb, length, bit_and, bit_or}
use icicle_emu.Base.Bits.{and_step, or_step, xor_step}
use icicle_emu.ConstEval.Bit
use icicle_emu.ConstEval.Bit.{Bit, Denotes, Valuation, differs}
use icicle_emu.ConstEval.Bit.Sound.{xor-Denotes, and-Denotes, or-Denotes, inverse-Denotes}
use icicle_emu.ConstEval.BitVec.{add_from, add, sub_from, sub, bitwise_op, invert_all}
use icicle_emu.ConstEval.BitVec.Sound.{
  IsValue, IsValue-lt, to_ℕ, add_from-Total, sub_from-Difference,
}

wrapped : (v m t : ℕ) (k : Bool) → v < m → v + to_ℕ k * m ≡ t → (v ≡ t % m) × (k ≡ leb m t)
wrapped v m t k h e = ground (
  arith,
  mod-eq_of_lt {n = t - m} {m = m},
  mod-eq-sub-mod {n = t} {m = m},
  mod-eq_of_lt {n = t} {m = m},
)

borrowed :
    (v m x y : ℕ) (k : Bool)
    → v < m
    → x < m
    → y < m
    → v + y ≡ x + to_ℕ k * m
    → (v ≡ (x + m - y) % m) × (k ≡ ltb x y)
borrowed v m x y k h hx hy e = ground (
  arith,
  mod-eq_of_lt {n = x + m - y - m} {m = m},
  mod-eq-sub-mod {n = x + m - y} {m = m},
  mod-eq_of_lt {n = x + m - y} {m = m},
)

pub length-add_from : (us vs : List Bit) (c : Bit) → length (add_from c us vs).0 ≡ length us
unfolding add_from
length-add_from [] vs c = refl
length-add_from (a ∷ us) [] c = refl
length-add_from (a ∷ us) (b ∷ vs) c = omega (arith, length-add_from us vs _)

pub length-sub_from : (us vs : List Bit) (c : Bit) → length (sub_from c us vs).0 ≡ length us
unfolding sub_from
length-sub_from [] vs c = refl
length-sub_from (a ∷ us) [] c = refl
length-sub_from (a ∷ us) (b ∷ vs) c = omega (arith, length-sub_from us vs _)

module _ (ρ : Valuation) (us vs : List Bit) (x y : ℕ) where
  pub add-IsValue :
      length us ≡ length vs
      → IsValue ρ us x
      → IsValue ρ vs y
      → IsValue ρ (add us vs).0 ((x + y) % 2 ^ length us)
        × Denotes ρ (add us vs).1 (leb (2 ^ length us) (x + y))
  unfolding add
  add-IsValue e hx hy =
      let (v, k, hv, hk, t) = add_from-Total ρ us vs Bit.zero x y false e hx hy refl in
      let low = IsValue-lt ρ (add us vs).0 v hv in
      let (p, q) =
        wrapped v (2 ^ length us) (x + y) k (rw (← length-add_from us vs Bit.zero) low)
          (omega arith) in
      (subst (IsValue ρ (add us vs).0) p hv, subst (Denotes ρ (add us vs).1) q hk)

  pub sub-IsValue :
      length us ≡ length vs
      → IsValue ρ us x
      → IsValue ρ vs y
      → IsValue ρ (sub us vs).0 ((x + 2 ^ length us - y) % 2 ^ length us)
        × Denotes ρ (sub us vs).1 (ltb x y)
  unfolding sub
  sub-IsValue e hx hy =
      let (v, k, hv, hk, t) = sub_from-Difference ρ us vs Bit.zero x y false e hx hy refl in
      let low = IsValue-lt ρ (sub us vs).0 v hv in
      let (p, q) =
        borrowed v (2 ^ length us) x y k (rw (← length-sub_from us vs Bit.zero) low)
          (IsValue-lt ρ us x hx) (rw e (IsValue-lt ρ vs y hy)) (omega arith) in
      (subst (IsValue ρ (sub us vs).0) p hv, subst (Denotes ρ (sub us vs).1) q hk)

module _ (ρ : Valuation) where
  bitwise_op-IsValue :
      (f : Bit → Bit → Bit) (g : Bool → Bool → Bool) (h : ℕ → ℕ → ℕ)
      → ((a b : Bit) (x y : Bool) → Denotes ρ a x → Denotes ρ b y → Denotes ρ (f a b) (g x y))
      → h 0 0 ≡ 0
      → ((x y : ℕ)
          → (g (x % 2 == 1) (y % 2 == 1) ≡ (h x y % 2 == 1)) × (h (x / 2) (y / 2) ≡ h x y / 2))
      → (us vs : List Bit) (x y : ℕ) → length us ≡ length vs
      → IsValue ρ us x
      → IsValue ρ vs y
      → IsValue ρ (bitwise_op f us vs) (h x y)
  unfolding bitwise_op
  bitwise_op-IsValue f g h fits none step [] [] x y e hx hy = rw (hx, hy) none
  bitwise_op-IsValue f g h fits none step [] (b ∷ vs) x y e hx hy = absurd (omega arith)
  bitwise_op-IsValue f g h fits none step (a ∷ us) [] x y e hx hy = absurd (omega arith)
  bitwise_op-IsValue f g h fits none step (a ∷ us) (b ∷ vs) x y e hx hy = (
    subst (Denotes ρ (f a b)) (step x y).0 (fits a b _ _ hx.0 hy.0),
    subst (IsValue ρ (bitwise_op f us vs)) (step x y).1
        (bitwise_op-IsValue f g h fits none step us vs (x / 2) (y / 2) (omega arith) hx.1 hy.1),
  )

  module _ (us vs : List Bit) (x y : ℕ) (same : length us ≡ length vs) where
    pub and-IsValue :
        IsValue ρ us x → IsValue ρ vs y → IsValue ρ (bitwise_op Bit.and us vs) (bit_and x y)
    and-IsValue =
        bitwise_op-IsValue Bit.and ◌&&◌ bit_and (and-Denotes ρ) refl
          (λ x y. ground (arith, and_step x y)) us vs x y same

    pub or-IsValue :
        IsValue ρ us x → IsValue ρ vs y → IsValue ρ (bitwise_op Bit.or us vs) (bit_or x y)
    or-IsValue =
        bitwise_op-IsValue Bit.or ◌||◌ bit_or (or-Denotes ρ) refl
          (λ x y. ground (arith, or_step x y)) us vs x y same

    pub xor-IsValue :
        IsValue ρ us x → IsValue ρ vs y → IsValue ρ (bitwise_op Bit.xor us vs) (bit_xor x y)
    xor-IsValue =
        bitwise_op-IsValue Bit.xor differs bit_xor (xor-Denotes ρ) refl
          (λ x y. ground (arith, xor_step x y)) us vs x y same

  pub invert_all-IsValue :
      (us : List Bit) (x : ℕ) → IsValue ρ us x → IsValue ρ (invert_all us) (2 ^ length us - 1 - x)
  unfolding invert_all
  invert_all-IsValue [] x h = omega arith
  invert_all-IsValue (b ∷ us) x h =
      let low = IsValue-lt ρ us (x / 2) h.1 in
      let power = pow-suc 2 (length us) in
      (
        subst (Denotes ρ _) (ground arith) (inverse-Denotes ρ b _ h.0),
        subst (IsValue ρ (invert_all us)) (omega arith) (invert_all-IsValue us (x / 2) h.1),
      )
