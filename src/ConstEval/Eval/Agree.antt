-- ===== src/ConstEval/Eval/Agree.antt =====
-- The constant evaluator of icicle-cpu/src/exec/const_eval.rs against the interpreter of
-- icicle-cpu/src/exec/interpreter.rs, for the integer operations.
use mathlib.Core.Path.{subst}
use icicle_emu.Base.{ℕ, ◌+◌, ◌-◌, ◌%◌, ◌^◌, ◌≤◌, ◌<◌, ◌≡◌, refl, sym, ◌∙◌, ap, ap₂, arith, some}
use icicle_emu.Base.{List, Bool, not, ◌&&◌, ◌||◌, length, length-replicate, ◌==◌, ltb, leb}
use icicle_emu.ConstEval.Bit.{Bit, Denotes, Valuation, differs}
use icicle_emu.ConstEval.Bit.Sound.{inverse-Denotes, or-Denotes, xor-Denotes}
use icicle_emu.ConstEval.BitVec.{set_bool, fill, sub}
use icicle_emu.ConstEval.BitVec.Sound.{IsValue, to_ℕ}
use icicle_emu.ConstEval.BitVec.Constant.{recast}
use icicle_emu.ConstEval.BitVec.Arith.{add-IsValue, sub-IsValue, invert_all-IsValue}
use icicle_emu.ConstEval.Eval.{eval, eval_op}
use icicle_emu.ConstEval.Eval.Flags.{
  set_bool-Evaluates, half, difference, total, sub_overflow-Denotes, add_overflow-Denotes,
  two_halves, x_bound, y_bound, difference_less, difference_more, total_few, total_many,
}
use icicle_emu.ConstEval.Eval.Signs.{less_flag, borrow_flag, carry_flag}
use icicle_emu.ConstEval.Eval.Binary.{Evaluates, copy_same, eval_nonempty, arith_ops, some_eq}
use icicle_emu.ConstEval.Eval.Mul.{eval_mul-Evaluates}
use icicle_emu.ConstEval.Shift.{is_eq}
use icicle_emu.ConstEval.Shift.Sound.{zeros-IsValue, deref-from_bits}
use icicle_emu.ConstEval.Shift.Equal.{is_eq-Denotes_values}
use icicle_emu.Interpreter.IntOp.{
  int_op, cmp_op, int_single_op, biased, add_overflows, sub_overflows,
}
use icicle_emu.Pcode.Op.{Op}

some_bit : {p q : Bool} → some p ≡ some q → p ≡ q
some_bit e = cc

at_most : (x y : ℕ) → (ltb x y || x == y) ≡ leb x y
at_most x y = ground arith

module _ (ρ : Valuation) (a b out : List Bit) (x y : ℕ) (hx : IsValue ρ a x) (hy : IsValue ρ b y)
    (same : length a ≡ length b) (limit : length a ≤ 128) (some_out : 0 < length out) where
  -- For addition, subtraction, multiplication and the bitwise operations on equal widths up to 128
  -- bits, the constant evaluator returns, and its bits may be those of what the interpreter
  -- computes on any numbers that the input bits may stand for.
  pub eval-int_op :
      (op : Op) (v : ℕ)
      → length out ≡ length a
      → int_op op (length a) x y ≡ some v
      → Evaluates ρ (eval op a b out) v
  unfolding eval_op int_op
  eval-int_op op v wide h =
      rw (eval_nonempty op a b out some_out) (arith_ops ρ a b out x y hx hy wide same op v mul h)
    where
      mul : op ≡ Op.int_mul → Evaluates ρ (eval_op op a b out) v
      mul e =
          let p : int_op Op.int_mul (length a) x y ≡ some v =
            subst (λ o. int_op o (length a) x y ≡ some v) e h in
          rw e (
            subst (Evaluates ρ _) (some_eq p)
              (eval_mul-Evaluates ρ a b out x y hx hy wide same limit _ _ refl refl))

  result : (p : Bit) (c d : Bool) → d ≡ c → Denotes ρ p d → Evaluates ρ (set_bool out p) (to_ℕ c)
  result p c d e q = set_bool-Evaluates ρ out p c some_out (subst (Denotes ρ p) e q)

  equal : Denotes ρ (is_eq a b) (x == y)
  equal = is_eq-Denotes_values ρ a b x y same hx hy

  module _ (some_bits : 0 < length a) where
    abbrev h : ℕ
    h = half ρ a b x y hx hy same limit some_bits

    signed_less :
        differs (leb h (difference ρ a b x y hx hy same limit some_bits)) (
          differs (leb h x) (leb h y)
          && differs (leb h (difference ρ a b x y hx hy same limit some_bits)) (leb h x))
        ≡ ltb (biased (length a) x) (biased (length a) y)
    signed_less =
        less_flag h x y _ (x_bound ρ a b x y hx hy same limit some_bits)
          (y_bound ρ a b x y hx hy same limit some_bits)
          (difference_less ρ a b x y hx hy same limit some_bits)
          (difference_more ρ a b x y hx hy same limit some_bits) _ _ _ refl refl refl

    borrow :
        (differs (leb h x) (leb h y)
          && differs (leb h (difference ρ a b x y hx hy same limit some_bits)) (leb h x))
        ≡ sub_overflows (length a) x y
    borrow =
        borrow_flag h x y _ (x_bound ρ a b x y hx hy same limit some_bits)
          (y_bound ρ a b x y hx hy same limit some_bits)
          (difference_less ρ a b x y hx hy same limit some_bits)
          (difference_more ρ a b x y hx hy same limit some_bits) _ _ _ refl refl refl

    signed_at_most :
        (ltb (biased (length a) x) (biased (length a) y) || x == y)
        ≡ leb (biased (length a) x) (biased (length a) y)
    signed_at_most = ground (
      arith,
      x_bound ρ a b x y hx hy same limit some_bits,
      y_bound ρ a b x y hx hy same limit some_bits,
    )

    carry :
        (not (leb h x || leb h y) && leb h (total ρ a b x y hx hy same limit some_bits)
          || (leb h x && leb h y) && not (leb h (total ρ a b x y hx hy same limit some_bits)))
        ≡ add_overflows (length a) x y
    carry =
        carry_flag h x y _ (x_bound ρ a b x y hx hy same limit some_bits)
          (y_bound ρ a b x y hx hy same limit some_bits)
          (total_few ρ a b x y hx hy same limit some_bits)
          (total_many ρ a b x y hx hy same limit some_bits) _ _ _ refl refl refl
        ∙ ap
            (λ (t : ℕ).
              ltb (biased (length a) x + biased (length a) y) h
              || leb (t + h) (biased (length a) x + biased (length a) y))
            (sym (two_halves ρ a b x y hx hy same limit some_bits))

    cmp_ops :
        (op : Op) (c : Bool)
        → cmp_op op (length a) x y ≡ some c
        → Evaluates ρ (eval_op op a b out) (to_ℕ c)
    unfolding eval_op cmp_op
    cmp_ops Op.int_equal c e = result _ _ _ (some_bit e) equal
    cmp_ops Op.int_not_equal c e = result _ _ _ (some_bit e) (inverse-Denotes ρ _ _ equal)
    cmp_ops Op.int_less c e =
        rw (deref-from_bits a limit)
          (result _ _ _ (some_bit e) (sub-IsValue ρ a b x y same hx hy).1)
    cmp_ops Op.int_less_equal c e = rw (deref-from_bits a limit) (
        result _ _ _ (at_most x y ∙ some_bit e)
          (or-Denotes ρ _ _ _ _ (sub-IsValue ρ a b x y same hx hy).1 equal))
    cmp_ops Op.int_carry c e =
        rw (deref-from_bits a limit)
          (result _ _ _ (some_bit e) (add-IsValue ρ a b x y same hx hy).1)
    cmp_ops Op.int_signed_carry c e =
        let (r, o, p, d) = add_overflow-Denotes ρ a b x y hx hy same limit some_bits in
        rw p (result _ _ _ (carry ∙ some_bit e) d)
    cmp_ops Op.int_signed_borrow c e =
        let (r, o, s, p, q, ds, d) = sub_overflow-Denotes ρ a b x y hx hy same limit some_bits in
        rw p (result _ _ _ (borrow ∙ some_bit e) d)
    cmp_ops Op.int_signed_less c e =
        let (r, o, s, p, q, ds, d) = sub_overflow-Denotes ρ a b x y hx hy same limit some_bits in
        rw (p, q) (result _ _ _ (signed_less ∙ some_bit e) (xor-Denotes ρ _ _ _ _ ds d))
    cmp_ops Op.int_signed_less_equal c e =
        let (r, o, s, p, q, ds, d) = sub_overflow-Denotes ρ a b x y hx hy same limit some_bits in
        rw (p, q)
          (result _ _ _ (ap (λ t. t || x == y) signed_less ∙ signed_at_most ∙ some_bit e)
            (or-Denotes ρ _ _ _ _ (xor-Denotes ρ _ _ _ _ ds d) equal))
    cmp_ops _ c e = absurd (cc e)

    -- For the integer comparisons and the carry and borrow flags, signed and unsigned, the constant
    -- evaluator returns, and its bits may be those of the interpreter's Boolean.
    pub eval-cmp_op :
        (op : Op) (c : Bool)
        → cmp_op op (length a) x y ≡ some c
        → Evaluates ρ (eval op a b out) (to_ℕ c)
    eval-cmp_op op c e = rw (eval_nonempty op a b out some_out) (cmp_ops op c e)

-- `int_not` and `int_negate`, which read one operand.
module _ (ρ : Valuation) (a b out : List Bit) (x : ℕ) (hx : IsValue ρ a x)
    (wide : length out ≡ length a) (some_out : 0 < length out) where
  single_ops :
      (op : Op) (v : ℕ)
      → int_single_op op (length a) x ≡ some v
      → Evaluates ρ (eval_op op a b out) v
  unfolding eval_op int_single_op
  single_ops Op.int_not v e =
      rw (copy_same out a wide)
        (_, refl, subst (IsValue ρ _) (some_eq e) (invert_all-IsValue ρ a x hx))
  single_ops Op.int_negate v e = (_, refl, subst (IsValue ρ _) (some_eq e) (negated wide))
    where
      power : length out ≡ length a → 2 ^ length (fill out Bit.zero) ≡ 2 ^ length a
      power w = ap (λ (t : ℕ). 2 ^ t) (length-replicate (length out) Bit.zero ∙ w)

      negated :
          length out ≡ length a
          → IsValue ρ (sub (fill out Bit.zero) a).0 ((2 ^ length a - x) % 2 ^ length a)
      negated w =
          recast ρ _ _ _
            (ap₂ (λ (s t : ℕ). (s - x) % t) {x = 0 + 2 ^ length (fill out Bit.zero)}
              (omega (arith, power w)) (power w))
            (sub-IsValue ρ (fill out Bit.zero) a 0 x (length-replicate (length out) Bit.zero ∙ w)
              (zeros-IsValue ρ (length out)) hx).0
  single_ops _ v e = absurd (cc e)

  -- For negation and complement the constant evaluator returns, and its bits may be those of the
  -- interpreter's result.
  pub eval-int_single_op :
      (op : Op) (v : ℕ) → int_single_op op (length a) x ≡ some v → Evaluates ρ (eval op a b out) v
  eval-int_single_op op v e = rw (eval_nonempty op a b out some_out) (single_ops op v e)
