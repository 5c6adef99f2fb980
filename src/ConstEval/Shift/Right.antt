-- ===== src/ConstEval/Shift/Right.antt =====
-- The right shift and the rotations of `BitVecExt` in icicle-cpu/src/exec/const_eval.rs compute on
-- every number that the bits may stand for.
use native.Mathlib.Nat.{
  one-le-pow, le_trans, lt_of_lt_of_le, div-lt_iff_lt-mul, mul-le-mul_left, pow-le-pow_right,
}
use icicle_emu.Base.{ℕ, ◌+◌, ◌-◌, ◌*◌, ◌/◌, ◌%◌, ◌^◌, ◌≤◌, ◌<◌, ◌≡◌, ap, arith}
use icicle_emu.Base.{List, ◌++◌, true, false, leb, none, some}
use icicle_emu.Base.{
  length, take, drop, replicate, length-take, length-drop, take-replicate, drop-replicate,
  length-replicate, Bool-cases, Option-cases, inl, inr, leb→le,
}
use icicle_emu.ConstEval.Bit.{Bit, Valuation}
use icicle_emu.ConstEval.BitVec.{minimum, get_const}
use icicle_emu.ConstEval.BitVec.Sound.{IsValue, IsValue-lt}
use icicle_emu.ConstEval.BitVec.Constant.{take-IsValue, drop-IsValue, append-IsValue, recast}
use icicle_emu.Base.Powers.{pow-split}
use icicle_emu.ConstEval.BitVec.Reading.{get_const-IsValue, minimum-le}
use icicle_emu.ConstEval.Shift.{shift_right, rotate_left, rotate_right}
use icicle_emu.ConstEval.Shift.Sound.{
  deref-from_bits, get_const-eq-minimum, zeros-IsValue, unknowns-IsValue,
}

pub quotient-lt : (x k m n : ℕ) → m ≤ k → m ≤ n → x < 2 ^ n → x / 2 ^ k < 2 ^ (n - m)
quotient-lt x k m n h g b =
    (div-lt_iff_lt-mul {k = 2 ^ k} {x = x} {y = 2 ^ (n - m)} (one-le-pow k 2 (omega arith))).1 (
      lt_of_lt_of_le b (
        rw (pow-split n m g)
          (mul-le-mul_left (2 ^ (n - m)) (pow-le-pow_right {n = 2} (omega arith) h))))

module _ (us vs : List Bit) (wide : length us ≤ 128) where
  -- What `shift_right` returns when the shift stays inside, is known, or has a known minimum.
  shift_right_const :
      (c : ℕ)
      → leb (length us) (minimum vs) ≡ false
      → get_const vs ≡ some c
      → c < length us
      → shift_right us vs ≡ some (drop c us ++ replicate c Bit.zero)
  unfolding shift_right
  shift_right_const c under const h =
      rw (under, const, deref-from_bits us wide)
        (ground
          (arith, length-drop c us, length-take (length us - c) us, length-drop (length us - c) us))

  shift_right_over :
      leb (length us) (minimum vs) ≡ true
      → shift_right us vs ≡ some (replicate (length us) Bit.zero)
  unfolding shift_right
  shift_right_over over = rw over

  shift_right_unknown :
      leb (length us) (minimum vs) ≡ false
      → get_const vs ≡ none
      → shift_right us vs
        ≡ some (replicate (length us - minimum vs) Bit.unknown ++ replicate (minimum vs) Bit.zero)
  unfolding shift_right
  shift_right_unknown under unk =
      let n = length us in
      let m = minimum vs in
      rw (under, unk)
        (ground (
          arith,
          length-replicate n Bit.unknown,
          take-replicate (n - m) n Bit.unknown,
          drop-replicate (n - m) n Bit.unknown,
          length-replicate (n - (n - m)) Bit.unknown,
        ))

module _ (ρ : Valuation) where
  high_zeros :
      (m v : ℕ) (bits : List Bit) → IsValue ρ bits v → IsValue ρ (bits ++ replicate m Bit.zero) v
  high_zeros m v bits h =
      recast ρ _ _ v (omega arith)
        (append-IsValue ρ bits (replicate m Bit.zero) v 0 h (zeros-IsValue ρ m))

  -- `shift_right` returns, and its bits may be those of x / 2 ^ k.
  pub shift_right-IsValue :
      (us vs : List Bit) (x k : ℕ)
      → length us ≤ 128
      → IsValue ρ us x
      → IsValue ρ vs k
      → (out : List Bit) × (shift_right us vs ≡ some out) × IsValue ρ out (x / 2 ^ k)
  shift_right-IsValue us vs x k wide hx hk = elim (Bool-cases (leb (length us) (minimum vs))) [
    | inl over ↦
        let past = le_trans (leb→le _ _ over) (minimum-le ρ vs k hk) in
        let bound = IsValue-lt ρ us x hx in
        let none_left = quotient-lt x k (length us) (length us) past (omega arith) bound in
        (
          _,
          shift_right_over us vs wide over,
          recast ρ _ 0 _ (ground (arith, none_left)) (zeros-IsValue ρ (length us)),
        )
    | inr under ↦ elim (Option-cases (get_const vs)) [
      | inl unk ↦
          let m = minimum vs in
          let low = minimum-le ρ vs k hk in
          let fits : m ≤ length us = ground arith in
          let bound = quotient-lt x k m (length us) low fits (IsValue-lt ρ us x hx) in
          (
            _,
            shift_right_unknown us vs wide under unk,
            high_zeros m _ _ (unknowns-IsValue ρ (length us - m) _ bound),
          )
      | inr (c, const) ↦
          let e = get_const-IsValue ρ vs k c hk const in
          let least = get_const-eq-minimum vs c const in
          let inside : c < length us = ground arith in
          (
            _,
            shift_right_const us vs wide c under const inside,
            high_zeros c _ _
                (recast ρ _ _ _ (ap (λ (t : ℕ). x / 2 ^ t) e) (drop-IsValue ρ c us x hx)),
          )
    ]
  ]

  -- A rotation by a constant that is at most the width returns. The lowest `k` bits go to the top:
  -- this is the rotation of the number to the right.
  pub rotate_left-IsValue :
      (us vs : List Bit) (x k : ℕ)
      → IsValue ρ us x
      → get_const vs ≡ some k
      → k ≤ length us
      → (out : List Bit) × (rotate_left us vs ≡ some out)
        × IsValue ρ out (x / 2 ^ k + x % 2 ^ k * 2 ^ (length us - k))
  unfolding rotate_left
  rotate_left-IsValue us vs x k hx const h =
      let value =
        append-IsValue ρ (drop k us) (take k us) _ _ (drop-IsValue ρ k us x hx)
          (take-IsValue ρ k us x hx) in
      (drop k us ++ take k us, ground arith, rw (length-drop k us) at value)

  -- And this is the rotation of the number to the left.
  pub rotate_right-IsValue :
      (us vs : List Bit) (x k : ℕ)
      → IsValue ρ us x
      → get_const vs ≡ some k
      → k ≤ length us
      → (out : List Bit) × (rotate_right us vs ≡ some out)
        × IsValue ρ out (x / 2 ^ (length us - k) + x % 2 ^ (length us - k) * 2 ^ k)
  unfolding rotate_right
  rotate_right-IsValue us vs x k hx const h =
      let keep = length us - k in
      let value =
        append-IsValue ρ (drop keep us) (take keep us) _ _ (drop-IsValue ρ keep us x hx)
          (take-IsValue ρ keep us x hx) in
      let size : length (drop keep us) ≡ k = omega (arith, length-drop keep us) in
      (drop keep us ++ take keep us, ground arith, rw size at value)
