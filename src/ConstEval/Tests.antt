-- ===== src/ConstEval/Tests.antt =====
-- Small evaluations of icicle-cpu/src/exec/const_eval.rs, to which the theorems are applied.
use icicle_emu.Base.{◌↔◌, ℕ, ◌≡◌, refl, arith, true, false, List, [], ◌∷◌}
use icicle_emu.ConstEval.Bit.{Bit, Valuation}
use icicle_emu.ConstEval.BitVec.{get_const}
use icicle_emu.Base.Bits.{bit_at}
use icicle_emu.ConstEval.Naming.{name_unknowns, IsNamed, name_unknowns-IsValue}
use icicle_emu.ConstEval.BitVec.Sound.{IsValue, to_ℕ}
use icicle_emu.ConstEval.BitVec.Reading.{get_const-IsValue}
use icicle_emu.ConstEval.Eval.{eval}
use icicle_emu.ConstEval.Eval.Binary.{Evaluates}
use icicle_emu.ConstEval.Eval.Agree.{eval-int_op, eval-cmp_op, eval-int_single_op}
use icicle_emu.ConstEval.Eval.Moves.{eval-shift_op, eval-rotates_opposite}
use icicle_emu.Interpreter.IntOp.{
  int_op, cmp_op, int_single_op, shift_op, rotate_left, rotate_right,
}
use icicle_emu.Pcode.Op.{Op}

-- Every bit of every expression is set.
abbrev ones : Valuation
ones = λ id offset. true

-- A symbolic bit, a known one, an unknown and a known zero, which may be 7; and the constant 6.
abbrev bits_a : List Bit
bits_a =
    Bit.expr (record { id = 3; offset = 0; invert = false }) ∷ Bit.one ∷ Bit.unknown ∷ Bit.zero ∷ []

abbrev bits_b : List Bit
bits_b = Bit.zero ∷ Bit.one ∷ Bit.one ∷ Bit.zero ∷ []

abbrev bits_two : List Bit
bits_two = Bit.zero ∷ Bit.one ∷ Bit.zero ∷ Bit.zero ∷ []

abbrev output : List Bit
output = Bit.unknown ∷ Bit.unknown ∷ Bit.unknown ∷ Bit.unknown ∷ []

bits_a-IsValue : IsValue ones bits_a 7
bits_a-IsValue = (refl, (refl, (tt, (refl, refl))))

bits_b-IsValue : IsValue ones bits_b 6
bits_b-IsValue = (refl, (refl, (refl, (refl, refl))))

bits_two-IsValue : IsValue ones bits_two 2
bits_two-IsValue = (refl, (refl, (refl, (refl, refl))))

eval-int_op_example : Evaluates ones (eval Op.int_add bits_a bits_b output) 13
unfolding int_op
eval-int_op_example =
    eval-int_op ones bits_a bits_b output 7 6 bits_a-IsValue bits_b-IsValue refl (omega arith)
      (omega arith) Op.int_add 13 refl refl

eval-cmp_op_example : Evaluates ones (eval Op.int_signed_borrow bits_a bits_b output) (to_ℕ false)
unfolding cmp_op
eval-cmp_op_example =
    eval-cmp_op ones bits_a bits_b output 7 6 bits_a-IsValue bits_b-IsValue refl (omega arith)
      (omega arith) (omega arith) Op.int_signed_borrow false refl

eval-int_single_op_example : Evaluates ones (eval Op.int_negate bits_a bits_a output) 9
unfolding int_single_op
eval-int_single_op_example =
    eval-int_single_op ones bits_a bits_a output 7 bits_a-IsValue refl (omega arith) Op.int_negate 9
      refl

eval-shift_op_example : Evaluates ones (eval Op.int_left bits_a bits_two output) 12
unfolding shift_op
eval-shift_op_example =
    eval-shift_op ones bits_a bits_two output 7 2 bits_a-IsValue bits_two-IsValue refl (omega arith)
      (omega arith) Op.int_left 12 (omega arith) refl

eval-rotates_opposite_example :
    Evaluates ones (eval Op.int_rotate_left bits_a bits_two output) (rotate_right 4 7 2)
    × Evaluates ones (eval Op.int_rotate_right bits_a bits_two output) (rotate_left 4 7 2)
unfolding get_const
eval-rotates_opposite_example =
    eval-rotates_opposite ones bits_a bits_two output 7 2 bits_a-IsValue bits_two-IsValue refl
      (omega arith) (omega arith) 2 refl (omega arith)

abbrev six : ℕ
six = 6

get_const-IsValue_example : six ≡ 6
unfolding get_const
get_const-IsValue_example = get_const-IsValue ones bits_b 6 six bits_b-IsValue refl

-- Expression 5 has the value 6.
abbrev six_valuation : Valuation
six_valuation = λ id offset. bit_at 6 offset

abbrev some_unknown : List Bit
some_unknown = Bit.zero ∷ Bit.unknown ∷ Bit.unknown ∷ Bit.zero ∷ []

name_unknowns-IsValue_example :
    IsValue six_valuation (name_unknowns 5 0 some_unknown) 6
    ↔ (IsValue six_valuation some_unknown 6 × IsNamed six_valuation 5 0 some_unknown 6)
name_unknowns-IsValue_example = name_unknowns-IsValue six_valuation 5 some_unknown 0 6 (omega arith)
