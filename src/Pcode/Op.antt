-- ===== src/Pcode/Op.antt =====
-- `Op`, `BranchHint` and the classification of operations in sleigh/pcode/src/ops.rs.
use icicle_emu.Base.{ℕ, Bool, true, false}

pub data BranchHint : Type 0 where
  jump call return : BranchHint

pub data Op : Type 0 where
  copy : Op
  select : ℕ → Op
  subpiece : ℕ → Op
  zero_extend sign_extend : Op
  int_to_float uint_to_float float_to_float float_to_int : Op
  int_add int_sub int_xor int_or int_and int_mul : Op
  int_div int_signed_div int_rem int_signed_rem : Op
  int_left int_rotate_left int_right int_signed_right int_rotate_right : Op
  int_equal int_not_equal int_less int_signed_less int_less_equal int_signed_less_equal : Op
  int_carry int_signed_carry int_signed_borrow : Op
  int_not int_negate int_count_ones int_count_leading_zeroes : Op
  bool_and bool_or bool_xor bool_not : Op
  float_add float_sub float_mul float_div : Op
  float_negate float_abs float_sqrt float_ceil float_floor float_round float_is_nan : Op
  float_equal float_not_equal float_less float_less_equal : Op
  load store : ℕ → Op
  branch : BranchHint → Op
  pcode_branch pcode_label : ℕ → Op
  multi_equal indirect : Op
  arg pcode_op hook hook_if tracer_load tracer_store : ℕ → Op
  exception instruction_marker invalid : Op

unfoldable pub has_side_effects : Op → Bool
has_side_effects (Op.tracer_load _) = true
has_side_effects (Op.tracer_store _) = true
has_side_effects (Op.load _) = true
has_side_effects (Op.store _) = true
has_side_effects (Op.pcode_op _) = true
has_side_effects (Op.hook _) = true
has_side_effects (Op.hook_if _) = true
has_side_effects (Op.arg _) = true
has_side_effects (Op.branch _) = true
has_side_effects (Op.pcode_branch _) = true
has_side_effects (Op.pcode_label _) = true
has_side_effects Op.exception = true
has_side_effects Op.instruction_marker = true
has_side_effects Op.invalid = true
has_side_effects _ = false
