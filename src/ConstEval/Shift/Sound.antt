-- ===== src/ConstEval/Shift/Sound.antt =====
-- Values read back, constants and fillings of `BitVecExt` in icicle-cpu/src/exec/const_eval.rs compute on
-- every number that the bits may stand for.
use mathlib.Core.List.{reverse}
use native.Mathlib.Nat.{pow-suc, mod-eq_of_lt}
use icicle_emu.Base.{ℕ, zero, suc, ◌-◌, ◌/◌, ◌^◌, ◌≤◌, ◌<◌, ◌≡◌, refl, sym, ◌∙◌, arith}
use icicle_emu.Base.{List, [], ◌∷◌, ltb, some}
use icicle_emu.Base.{
  length, take, replicate, length-replicate, length-append, take-length_append, take_all,
  Bool-cases, inl, inr,
}
use icicle_emu.ConstEval.Bit.{Bit, Valuation, const_value}
use icicle_emu.ConstEval.BitVec.{
  from_bits, deref, minimum, get_const, const_from, min_from, push_bit,
}
use icicle_emu.ConstEval.BitVec.Sound.{IsValue}
use icicle_emu.ConstEval.BitVec.Reading.{some≢none}

-- What `Value::from_bits` stores is read back.
pub deref-from_bits : (bits : List Bit) → length bits ≤ 128 → deref (from_bits bits) ≡ some bits
unfolding deref from_bits
deref-from_bits bits h =
    let whole = length-append (take 128 bits) (replicate (128 - length bits) Bit.zero) in
    let size = mod-eq_of_lt {n = length bits} {m = 256} (omega arith) in
    rw (size, take_all 128 bits h, take-length_append)
      (ground (
        arith,
        length-append bits (replicate (128 - length bits) Bit.zero),
        length-replicate (128 - length bits) Bit.zero,
      ))

const_from-eq-min_from :
    (bits : List Bit) (n k : ℕ) → const_from n bits ≡ some k → min_from n bits ≡ k
unfolding const_value
const_from-eq-min_from [] n k e = cc
const_from-eq-min_from (Bit.zero ∷ bits) n k e = const_from-eq-min_from bits (push_bit n 0) k e
const_from-eq-min_from (Bit.one ∷ bits) n k e = const_from-eq-min_from bits (push_bit n 1) k e
const_from-eq-min_from (Bit.unknown ∷ bits) n k e = absurd (some≢none (sym e))
const_from-eq-min_from (Bit.expr x ∷ bits) n k e = absurd (some≢none (sym e))

pub get_const-eq-minimum : (bits : List Bit) (k : ℕ) → get_const bits ≡ some k → minimum bits ≡ k
unfolding get_const minimum const_value
get_const-eq-minimum bits k e = elim (Bool-cases (ltb 64 (length bits))) [
  | inl wide ↦ absurd (some≢none (sym e ∙ rw wide))
  | inr fits ↦ const_from-eq-min_from (reverse bits) 0 k (rw fits at e)
]

module _ (ρ : Valuation) where
  pub zeros-IsValue : (n : ℕ) → IsValue ρ (replicate n Bit.zero) 0
  zeros-IsValue zero = refl
  zeros-IsValue (suc n) = (refl, zeros-IsValue n)

  pub unknowns-IsValue : (n v : ℕ) → v < 2 ^ n → IsValue ρ (replicate n Bit.unknown) v
  unknowns-IsValue zero v h = omega arith
  unknowns-IsValue (suc n) v h = (tt, unknowns-IsValue n (v / 2) (omega (arith, pow-suc 2 n)))
