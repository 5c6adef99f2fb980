-- ===== src/ConstEval/Shift/Left.antt =====
-- The left shift of `BitVecExt` in icicle-cpu/src/exec/const_eval.rs compute on
-- every number that the bits may stand for.
use native.Mathlib.Nat.{one-le-pow, mod-lt, le_trans, mul-mod_left}
use icicle_emu.Base.{ℕ, ◌-◌, ◌*◌, ◌%◌, ◌^◌, ◌≤◌, ◌<◌, ◌≡◌, sym, ◌∙◌, ap, ap₂, arith}
use icicle_emu.Base.{List, ◌++◌, true, false, leb, none, some}
use icicle_emu.Base.{
  length, take, replicate, length-take, length-drop, take-replicate, drop-replicate,
  length-replicate, Bool-cases, Option-cases, inl, inr, leb→le,
}
use icicle_emu.ConstEval.Bit.{Bit, Valuation}
use icicle_emu.ConstEval.BitVec.{minimum, get_const}
use icicle_emu.ConstEval.BitVec.Sound.{IsValue}
use icicle_emu.ConstEval.BitVec.Constant.{take-IsValue, append-IsValue, recast}
use icicle_emu.Base.Powers.{pow-split, mul-mod-mul}
use icicle_emu.ConstEval.BitVec.Reading.{get_const-IsValue, minimum-le}
use icicle_emu.ConstEval.Shift.{shift_left}
use icicle_emu.ConstEval.Shift.Sound.{
  deref-from_bits, get_const-eq-minimum, zeros-IsValue, unknowns-IsValue,
}

-- The bits that a left shift by at least `m` leaves, for a known `m`.
shifted : (x k m n : ℕ) → m ≤ k → m ≤ n → x * 2 ^ (k - m) % 2 ^ (n - m) * 2 ^ m ≡ x * 2 ^ k % 2 ^ n
shifted x k m n h g =
    sym (
      mul-mod-mul (x * 2 ^ (k - m)) (2 ^ (n - m)) (2 ^ m) (one-le-pow _ 2 (omega arith))
        (one-le-pow _ 2 (omega arith)))
    ∙ ap₂ (λ (s t : ℕ). s % t) (ground (arith, ap (λ (t : ℕ). x * t) (pow-split k m h)))
        (sym (pow-split n m g))

-- A shift of the lowest `n - k` bits, and one past the end.
truncated : (x k n : ℕ) → k ≤ n → x % 2 ^ (n - k) * 2 ^ k ≡ x * 2 ^ k % 2 ^ n
truncated x k n h =
    sym (
      mul-mod-mul x (2 ^ (n - k)) (2 ^ k) (one-le-pow _ 2 (omega arith))
        (one-le-pow _ 2 (omega arith)))
    ∙ ap (λ (t : ℕ). x * 2 ^ k % t) (sym (pow-split n k h))

pub past_end : (x k n : ℕ) → n ≤ k → x * 2 ^ k % 2 ^ n ≡ 0
past_end x k n h =
    ap (λ (t : ℕ). t % 2 ^ n) (ground (arith, ap (λ (t : ℕ). x * t) (pow-split k n h)))
    ∙ mul-mod_left (x * 2 ^ (k - n)) (2 ^ n)

module _ (us vs : List Bit) (wide : length us ≤ 128) where
  -- What `shift_left` returns when the shift stays inside, is known, or has a known minimum.
  shift_left_const :
      (c : ℕ)
      → leb (length us) (minimum vs) ≡ false
      → get_const vs ≡ some c
      → c < length us
      → shift_left us vs ≡ some (replicate c Bit.zero ++ take (length us - c) us)
  unfolding shift_left
  shift_left_const c under const h =
      rw (under, const, deref-from_bits us wide)
        (ground (arith, length-take c us, length-drop c us, length-take (length us - c) us))

  shift_left_over :
      leb (length us) (minimum vs) ≡ true → shift_left us vs ≡ some (replicate (length us) Bit.zero)
  unfolding shift_left
  shift_left_over over = rw over

  shift_left_unknown :
      leb (length us) (minimum vs) ≡ false
      → get_const vs ≡ none
      → shift_left us vs
        ≡ some (replicate (minimum vs) Bit.zero ++ replicate (length us - minimum vs) Bit.unknown)
  unfolding shift_left
  shift_left_unknown under unk =
      rw (under, unk)
        (ground (
          arith,
          length-replicate (length us) Bit.unknown,
          take-replicate (minimum vs) (length us) Bit.unknown,
          drop-replicate (minimum vs) (length us) Bit.unknown,
          length-replicate (minimum vs) Bit.unknown,
        ))

module _ (ρ : Valuation) where
  low_zeros :
      (m v w : ℕ) (bits : List Bit)
      → IsValue ρ bits v
      → v * 2 ^ m ≡ w
      → IsValue ρ (replicate m Bit.zero ++ bits) w
  low_zeros m v w bits h e =
      recast ρ _ _ w (rw (length-replicate m Bit.zero) (omega (arith, e)))
        (append-IsValue ρ (replicate m Bit.zero) bits 0 v (zeros-IsValue ρ m) h)

  -- `shift_left` returns, and its bits may be those of x * 2 ^ k.
  pub shift_left-IsValue :
      (us vs : List Bit) (x k : ℕ)
      → length us ≤ 128
      → IsValue ρ us x
      → IsValue ρ vs k
      → (out : List Bit) × (shift_left us vs ≡ some out) × IsValue ρ out (x * 2 ^ k % 2 ^ length us)
  shift_left-IsValue us vs x k wide hx hk = elim (Bool-cases (leb (length us) (minimum vs))) [
    | inl over ↦
        let past = le_trans (leb→le _ _ over) (minimum-le ρ vs k hk) in
        (
          _,
          shift_left_over us vs wide over,
          recast ρ _ _ _ (sym (past_end x k (length us) past)) (zeros-IsValue ρ (length us)),
        )
    | inr under ↦ elim (Option-cases (get_const vs)) [
      | inl unk ↦
          let m = minimum vs in
          let low = minimum-le ρ vs k hk in
          let fits : m ≤ length us = ground arith in
          let bound = mod-lt (x * 2 ^ (k - m)) (one-le-pow (length us - m) 2 (omega arith)) in
          (
            _,
            shift_left_unknown us vs wide under unk,
            low_zeros m _ _ _ (unknowns-IsValue ρ (length us - m) _ bound)
                (shifted x k m (length us) low fits),
          )
      | inr (c, const) ↦
          let e = get_const-IsValue ρ vs k c hk const in
          let least = get_const-eq-minimum vs c const in
          let inside : c < length us = ground arith in
          (
            _,
            shift_left_const us vs wide c under const inside,
            low_zeros c _ _ _ (take-IsValue ρ (length us - c) us x hx) (
                truncated x c (length us) (omega arith)
                ∙ ap (λ (t : ℕ). x * 2 ^ t % 2 ^ length us) e),
          )
    ]
  ]
