-- ===== src/ConstEval/Eval/Moves.antt =====
-- The shifts and the rotations of icicle-cpu/src/exec/const_eval.rs against those of
-- icicle-cpu/src/exec/interpreter.rs.
use native.Mathlib.Nat.{mod-eq_of_lt, zero-mod, pow-le-pow_right}
use icicle_emu.Base.{
  ℕ, ◌*◌, ◌/◌, ◌%◌, ◌^◌, ◌≤◌, ◌<◌, ◌≡◌, sym, ◌∙◌, arith, some, List, length, take_all, leb,
  if◌then◌else◌, Bool-cases, inl, inr, leb→le,
}
use icicle_emu.Base.Powers.{mod-mod-pow}
use icicle_emu.ConstEval.Bit.{Bit, Valuation}
use icicle_emu.ConstEval.BitVec.{get_const, copy, copy_any}
use icicle_emu.ConstEval.BitVec.Sound.{IsValue, IsValue-lt}
use icicle_emu.ConstEval.BitVec.Constant.{recast}
use icicle_emu.ConstEval.Eval.{eval, eval_op}
use icicle_emu.ConstEval.Eval.Binary.{Evaluates, copy_same, eval_nonempty, some_eq}
use icicle_emu.ConstEval.Shift.Left.{shift_left-IsValue, past_end}
use icicle_emu.ConstEval.Shift.Right.{
  shift_right-IsValue, rotate_left-IsValue, rotate_right-IsValue, quotient-lt,
}
use icicle_emu.Interpreter.IntOp.{shift_op, rotate_left, rotate_right}
use icicle_emu.Pcode.Op.{Op}

copy_any_same : (out a : List Bit) → length out ≡ length a → copy_any out a ≡ some a
unfolding copy_any copy
copy_any_same out a h = ground (arith, take_all (length out) a)

left_value :
    (w x y : ℕ)
    → w ≤ 128
    → x < 2 ^ w
    → y < 2 ^ 32
    → x * 2 ^ y % 2 ^ w
      ≡ (if leb w (y % 2 ^ 32) then 0 else x % 2 ^ 128 * 2 ^ (y % 2 ^ 32) % 2 ^ 128) % 2 ^ w
left_value w x y limit bx by' =
    let ey = mod-eq_of_lt {n = y} {m = 2 ^ 32} by' in
    let wide = pow-le-pow_right {n = 2} (omega arith) {i = w} {j = 128} limit in
    let ex = mod-eq_of_lt {n = x} {m = 2 ^ 128} (omega (arith, wide)) in
    elim (Bool-cases (leb w y)) [
      | inl past ↦ rw (ey, past) (past_end x y w (leb→le w y past) ∙ sym (zero-mod (2 ^ w)))
      | inr inside ↦ rw (ey, ex, inside) (sym (mod-mod-pow (x * 2 ^ y) 128 w limit))
    ]

right_value :
    (w x y : ℕ)
    → w ≤ 128
    → x < 2 ^ w
    → y < 2 ^ 32
    → x / 2 ^ y ≡ (if leb w (y % 2 ^ 32) then 0 else x % 2 ^ 128 / 2 ^ (y % 2 ^ 32)) % 2 ^ w
right_value w x y limit bx by' =
    let gone : w ≤ y → x / 2 ^ y ≡ 0 =
      λ h. ground (arith, quotient-lt x y w w h (omega arith) bx) in
    let ey = mod-eq_of_lt {n = y} {m = 2 ^ 32} by' in
    let wide = pow-le-pow_right {n = 2} (omega arith) {i = w} {j = 128} limit in
    let ex = mod-eq_of_lt {n = x} {m = 2 ^ 128} (omega (arith, wide)) in
    elim (Bool-cases (leb w y)) [
      | inl past ↦ rw (ey, past) (gone (leb→le w y past) ∙ sym (zero-mod (2 ^ w)))
      | inr inside ↦
          rw (ey, ex, inside)
            (sym (mod-eq_of_lt (omega (arith, quotient-lt x y 0 w (omega arith) (omega arith) bx))))
    ]

module _ (ρ : Valuation) (a b out : List Bit) (x y : ℕ) (hx : IsValue ρ a x) (hy : IsValue ρ b y)
    (wide : length out ≡ length a) (limit : length a ≤ 128) (some_out : 0 < length out) where
  shift_ops :
      (op : Op) (v : ℕ)
      → y < 2 ^ 32
      → shift_op op (length a) x y ≡ some v
      → Evaluates ρ (eval_op op a b out) v
  unfolding eval_op shift_op
  shift_ops Op.int_left v small e =
      let (bits, p, value) = shift_left-IsValue ρ a b x y limit hx hy in
      (
        bits,
        rw (copy_any_same out a wide) p,
        recast ρ bits _ _ (left_value (length a) x y limit (IsValue-lt ρ a x hx) small ∙ some_eq e)
            value,
      )
  shift_ops Op.int_right v small e =
      let (bits, p, value) = shift_right-IsValue ρ a b x y limit hx hy in
      (
        bits,
        rw (copy_any_same out a wide) p,
        recast ρ bits _ _ (right_value (length a) x y limit (IsValue-lt ρ a x hx) small ∙ some_eq e)
            value,
      )
  shift_ops _ v small e = absurd (cc e)

  -- For left and right shifts on equal widths up to 128 bits, by an amount below 2 ^ 32, the
  -- constant evaluator returns, and its bits may be those of the interpreter's result.
  pub eval-shift_op :
      (op : Op) (v : ℕ)
      → y < 2 ^ 32
      → shift_op op (length a) x y ≡ some v
      → Evaluates ρ (eval op a b out) v
  eval-shift_op op v small e = rw (eval_nonempty op a b out some_out) (shift_ops op v small e)

  -- A rotation by a constant below the width evaluates, for each direction, to bits of the rotation
  -- in the other direction.
  pub eval-rotates_opposite :
      (k : ℕ)
      → get_const b ≡ some k
      → k < length a
      → Evaluates ρ (eval Op.int_rotate_left a b out) (rotate_right (length a) x k)
        × Evaluates ρ (eval Op.int_rotate_right a b out) (rotate_left (length a) x k)
  unfolding eval_op
  eval-rotates_opposite k const inside =
      let same = mod-eq_of_lt {n = k} {m = length a} inside in
      let (l, p, hl) = rotate_left-IsValue ρ a b x k hx const (omega arith) in
      let (r, q, hr) = rotate_right-IsValue ρ a b x k hx const (omega arith) in
      rw
        (
          eval_nonempty Op.int_rotate_left a b out some_out,
          eval_nonempty Op.int_rotate_right a b out some_out,
          copy_same out a wide,
          same,
        )
        ((l, p, hl), (r, q, recast ρ r _ _ (omega arith) hr))
