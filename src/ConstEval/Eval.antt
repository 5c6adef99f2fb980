-- ===== src/ConstEval/Eval.antt =====
-- `eval` of icicle-cpu/src/exec/const_eval.rs: the output bits of one operation, from those of its
-- inputs. `none` is a panic.
pub mod Binary
pub mod Mul
pub mod Signs
pub mod Flags
pub mod Moves
pub mod Agree
use icicle_emu.Base.{
  ◌>>=◌, ℕ, zero, suc, ◌+◌, ◌-◌, ◌*◌, ◌/◌, ◌%◌, Bool, true, false, Option, none, some,
}
use icicle_emu.Base.{List, [], ◌∷◌, ◌++◌, ltb, ◌==◌, if◌then◌else◌, length, take, min, u64_mod}
use icicle_emu.ConstEval.Bit
use icicle_emu.ConstEval.Bit.{Bit, inverse}
use icicle_emu.ConstEval.BitVec
use icicle_emu.ConstEval.BitVec.{
  split_at, last?, fill, deref, slice_to, from_bits, from_const, set_const, copy, copy_any,
  get_const, set_bool, bitwise_op, invert_all, add, sub, count_ones, count_leading_zeros,
}
use icicle_emu.ConstEval.Shift.{
  shift_left, shift_right, shift_right_signed, rotate_left, rotate_right, add_overflow,
  sub_overflow, is_eq,
}
use icicle_emu.Pcode.Op.{Op}

-- `u64::count_ones` and `63 - leading_zeros`, the position of the highest bit of a `u64`.
unfoldable pub popcount : ℕ → ℕ → ℕ
popcount zero x = 0
popcount (suc n) x = x % 2 + popcount n (x / 2)

unfoldable pub highest_bit : ℕ → ℕ → ℕ
highest_bit zero x = 0
highest_bit (suc n) x = if ltb x 2 then 0 else suc (highest_bit n (x / 2))

abbrev pub head? : List Bit → Option Bit
head? [] = none
head? (b ∷ _) = some b

-- `IntMul` with one known side: zero, a power of two, or another number.
unfoldable pub scale : ℕ → List Bit → List Bit → Option (List Bit)
scale x other output =
    if x == 0
    then some (fill output Bit.zero)
    else if popcount 64 x == 1
    then (copy output other >>= λ out.
        deref (from_const (highest_bit 64 x)) >>= λ shift. shift_left out shift)
    else some (fill output Bit.unknown)

-- `IntMul`, by the constants that are known of the two sides.
unfoldable pub eval_mul : Option ℕ → Option ℕ → List Bit → List Bit → List Bit → Option (List Bit)
eval_mul (some x) (some y) a b output = do
  value ← deref (slice_to (from_const (x * y % u64_mod)) 0 (length output))
  copy output value
eval_mul (some x) none a b output = scale x b output
eval_mul none (some x) a b output = scale x a output
eval_mul none none a b output = some (fill output Bit.unknown)

-- The operations that are evaluated, for an output that is not empty.
unfoldable pub eval_op : Op → List Bit → List Bit → List Bit → Option (List Bit)
eval_op Op.copy a b output = copy output a
eval_op (Op.subpiece offset) a b output = do
  (_, value) ← split_at a (offset * 8)
  let size = min (length output) (length value)
  (low, high) ← split_at output size
  low ← copy low (take size value)
  some (low ++ fill high Bit.zero)
eval_op Op.zero_extend a b output = BitVec.zero_extend output a
eval_op Op.sign_extend a b output = do
  (low, high) ← split_at output (length a)
  low ← copy low a
  sign ← last? a
  some (low ++ fill high sign)
eval_op Op.int_add a b output = do out ← copy output a; some (add out b).0
eval_op Op.int_sub a b output = do out ← copy output a; some (sub out b).0
eval_op Op.int_and a b output = do out ← copy output a; some (bitwise_op Bit.and out b)
eval_op Op.int_or a b output = do out ← copy output a; some (bitwise_op Bit.or out b)
eval_op Op.int_xor a b output = do out ← copy output a; some (bitwise_op Bit.xor out b)
eval_op Op.int_mul a b output = eval_mul (get_const a) (get_const b) a b output
eval_op Op.int_not a b output = do out ← copy output a; some (invert_all out)
eval_op Op.int_negate a b output = some (sub (fill output Bit.zero) a).0
eval_op Op.int_count_ones a b output =
    some
      (elim (count_ones a) [ some count ↦ set_const output count | none ↦ fill output Bit.unknown ])
eval_op Op.int_count_leading_zeroes a b output = some (elim (count_leading_zeros a) [
  | some count ↦ set_const output count
  | none ↦ fill output Bit.unknown
])
eval_op Op.int_signed_less a b output = do
  (result, overflow) ← sub_overflow a b
  sign ← last? result
  set_bool output (Bit.xor sign overflow)
eval_op Op.int_signed_less_equal a b output = do
  (result, overflow) ← sub_overflow a b
  sign ← last? result
  set_bool output (Bit.or (Bit.xor sign overflow) (is_eq a b))
eval_op Op.int_less a b output = do tmp ← deref (from_bits a); set_bool output (sub tmp b).1
eval_op Op.int_less_equal a b output = do
  tmp ← deref (from_bits a)
  set_bool output (Bit.or (sub tmp b).1 (is_eq a b))
eval_op Op.int_equal a b output = set_bool output (is_eq a b)
eval_op Op.int_not_equal a b output = set_bool output (inverse (is_eq a b))
eval_op Op.int_carry a b output = do tmp ← deref (from_bits a); set_bool output (add tmp b).1
eval_op Op.int_signed_carry a b output = do
  (_, overflow) ← add_overflow a b
  set_bool output overflow
eval_op Op.int_signed_borrow a b output = do
  (_, overflow) ← sub_overflow a b
  set_bool output overflow
eval_op Op.int_left a b output = do out ← copy_any output a; shift_left out b
eval_op Op.int_rotate_left a b output = do out ← copy output a; rotate_left out b
eval_op Op.int_right a b output = do out ← copy_any output a; shift_right out b
eval_op Op.int_signed_right a b output = shift_right_signed output a b
eval_op Op.int_rotate_right a b output = do out ← copy output a; rotate_right out b
eval_op Op.bool_xor a b output = do set_bool output (Bit.xor (← head? a) (← head? b))
eval_op Op.bool_and a b output = do set_bool output (Bit.and (← head? a) (← head? b))
eval_op Op.bool_or a b output = do set_bool output (Bit.or (← head? a) (← head? b))
eval_op Op.bool_not a b output = do set_bool output (inverse (← head? a))
-- These do not modify the output.
eval_op (Op.tracer_store _) a b output = some output
eval_op (Op.store _) a b output = some output
eval_op (Op.branch _) a b output = some output
eval_op (Op.pcode_branch _) a b output = some output
eval_op (Op.pcode_label _) a b output = some output
eval_op (Op.arg _) a b output = some output
eval_op Op.exception a b output = some output
eval_op Op.instruction_marker a b output = some output
eval_op Op.invalid a b output = some output
-- Division, floating point, loads, hooks and `Select` leave the output unknown.
eval_op _ a b output = some (fill output Bit.unknown)

unfoldable pub eval : Op → List Bit → List Bit → List Bit → Option (List Bit)
unfolding eval_op
eval op a b [] = some []
eval op a b (o ∷ output) = eval_op op a b (o ∷ output)
