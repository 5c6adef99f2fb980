-- ===== src/Pcode/Sizes.antt =====
-- `is_float` and `native_var_sizes` of `Op` in sleigh/pcode/src/ops.rs: the sizes in bytes of the output
-- and of the two inputs that an operation takes natively. `none` is the panic on deprecated operations.
use icicle_emu.Base.{
  ℕ, ◌≡◌, refl, Bool, true, false, not, ◌&&◌, ◌==◌, Option, none, some, List, [], ◌∷◌,
}
use icicle_emu.Pcode.Op.{Op, has_side_effects}

abbrev pub all_sizes : List ℕ
all_sizes = 1 ∷ 2 ∷ 3 ∷ 4 ∷ 5 ∷ 6 ∷ 7 ∷ 8 ∷ 9 ∷ 10 ∷ 11 ∷ 12 ∷ 13 ∷ 14 ∷ 15 ∷ 16 ∷ []

abbrev pub none_size : List ℕ
none_size = 0 ∷ []

abbrev pub bool_size : List ℕ
bool_size = 1 ∷ []

abbrev pub int_sizes : List ℕ
int_sizes = 1 ∷ 2 ∷ 4 ∷ 8 ∷ 16 ∷ []

abbrev pub float_sizes : List ℕ
float_sizes = 4 ∷ 8 ∷ []

abbrev pub word_size : List ℕ
word_size = 8 ∷ []

unfoldable pub native_var_sizes : Op → Option (List ℕ × List ℕ × List ℕ)
native_var_sizes Op.copy = some (all_sizes, all_sizes, none_size)
native_var_sizes (Op.select _) = some (int_sizes, int_sizes, int_sizes)
native_var_sizes (Op.subpiece _) = some (all_sizes, all_sizes, none_size)
native_var_sizes Op.zero_extend = some (int_sizes, int_sizes, none_size)
native_var_sizes Op.sign_extend = some (int_sizes, int_sizes, none_size)
native_var_sizes Op.int_to_float = some (float_sizes, int_sizes, none_size)
native_var_sizes Op.uint_to_float = some (float_sizes, int_sizes, none_size)
native_var_sizes Op.float_to_float = some (float_sizes, float_sizes, none_size)
native_var_sizes Op.float_to_int = some (int_sizes, float_sizes, none_size)
native_var_sizes Op.int_add = some (int_sizes, int_sizes, int_sizes)
native_var_sizes Op.int_sub = some (int_sizes, int_sizes, int_sizes)
native_var_sizes Op.int_xor = some (int_sizes, int_sizes, int_sizes)
native_var_sizes Op.int_or = some (int_sizes, int_sizes, int_sizes)
native_var_sizes Op.int_and = some (int_sizes, int_sizes, int_sizes)
native_var_sizes Op.int_mul = some (int_sizes, int_sizes, int_sizes)
native_var_sizes Op.int_div = some (int_sizes, int_sizes, int_sizes)
native_var_sizes Op.int_signed_div = some (int_sizes, int_sizes, int_sizes)
native_var_sizes Op.int_rem = some (int_sizes, int_sizes, int_sizes)
native_var_sizes Op.int_signed_rem = some (int_sizes, int_sizes, int_sizes)
native_var_sizes Op.int_left = some (int_sizes, int_sizes, int_sizes)
native_var_sizes Op.int_rotate_left = some (int_sizes, int_sizes, int_sizes)
native_var_sizes Op.int_right = some (int_sizes, int_sizes, int_sizes)
native_var_sizes Op.int_signed_right = some (int_sizes, int_sizes, int_sizes)
native_var_sizes Op.int_rotate_right = some (int_sizes, int_sizes, int_sizes)
native_var_sizes Op.int_equal = some (bool_size, int_sizes, int_sizes)
native_var_sizes Op.int_not_equal = some (bool_size, int_sizes, int_sizes)
native_var_sizes Op.int_less = some (bool_size, int_sizes, int_sizes)
native_var_sizes Op.int_signed_less = some (bool_size, int_sizes, int_sizes)
native_var_sizes Op.int_less_equal = some (bool_size, int_sizes, int_sizes)
native_var_sizes Op.int_signed_less_equal = some (bool_size, int_sizes, int_sizes)
native_var_sizes Op.int_carry = some (bool_size, int_sizes, int_sizes)
native_var_sizes Op.int_signed_carry = some (bool_size, int_sizes, int_sizes)
native_var_sizes Op.int_signed_borrow = some (bool_size, int_sizes, int_sizes)
native_var_sizes Op.int_not = some (int_sizes, int_sizes, none_size)
native_var_sizes Op.int_negate = some (int_sizes, int_sizes, none_size)
native_var_sizes Op.int_count_ones = some (int_sizes, int_sizes, none_size)
native_var_sizes Op.int_count_leading_zeroes = some (int_sizes, int_sizes, none_size)
native_var_sizes Op.bool_and = some (bool_size, bool_size, bool_size)
native_var_sizes Op.bool_or = some (bool_size, bool_size, bool_size)
native_var_sizes Op.bool_xor = some (bool_size, bool_size, bool_size)
native_var_sizes Op.bool_not = some (bool_size, bool_size, none_size)
native_var_sizes Op.float_add = some (float_sizes, float_sizes, float_sizes)
native_var_sizes Op.float_sub = some (float_sizes, float_sizes, float_sizes)
native_var_sizes Op.float_mul = some (float_sizes, float_sizes, float_sizes)
native_var_sizes Op.float_div = some (float_sizes, float_sizes, float_sizes)
native_var_sizes Op.float_negate = some (float_sizes, float_sizes, none_size)
native_var_sizes Op.float_abs = some (float_sizes, float_sizes, none_size)
native_var_sizes Op.float_sqrt = some (float_sizes, float_sizes, none_size)
native_var_sizes Op.float_ceil = some (float_sizes, float_sizes, none_size)
native_var_sizes Op.float_floor = some (float_sizes, float_sizes, none_size)
native_var_sizes Op.float_round = some (float_sizes, float_sizes, none_size)
native_var_sizes Op.float_is_nan = some (bool_size, float_sizes, none_size)
native_var_sizes Op.float_equal = some (bool_size, float_sizes, float_sizes)
native_var_sizes Op.float_not_equal = some (bool_size, float_sizes, float_sizes)
native_var_sizes Op.float_less = some (bool_size, float_sizes, float_sizes)
native_var_sizes Op.float_less_equal = some (bool_size, float_sizes, float_sizes)
native_var_sizes (Op.load _) = some (all_sizes, int_sizes, none_size)
native_var_sizes (Op.store _) = some (none_size, int_sizes, all_sizes)
native_var_sizes (Op.branch _) = some (none_size, bool_size, int_sizes)
native_var_sizes (Op.pcode_branch _) = some (none_size, bool_size, int_sizes)
native_var_sizes (Op.pcode_label _) = some (none_size, none_size, none_size)
native_var_sizes Op.multi_equal = some (all_sizes, all_sizes, all_sizes)
native_var_sizes Op.indirect = some (all_sizes, all_sizes, all_sizes)
native_var_sizes (Op.arg _) = some (none_size, int_sizes, none_size)
native_var_sizes (Op.pcode_op _) = some (all_sizes, all_sizes, all_sizes)
native_var_sizes (Op.hook _) = some (none_size, none_size, none_size)
native_var_sizes (Op.hook_if _) = some (none_size, bool_size, none_size)
native_var_sizes (Op.tracer_load _) = none
native_var_sizes (Op.tracer_store _) = none
native_var_sizes Op.exception = some (none_size, word_size, word_size)
native_var_sizes Op.instruction_marker = some (none_size, word_size, word_size)
native_var_sizes Op.invalid = some (none_size, none_size, none_size)

unfoldable pub is_float : Op → Bool
is_float Op.int_to_float = true
is_float Op.uint_to_float = true
is_float Op.float_to_float = true
is_float Op.float_to_int = true
is_float Op.float_add = true
is_float Op.float_sub = true
is_float Op.float_mul = true
is_float Op.float_div = true
is_float Op.float_negate = true
is_float Op.float_abs = true
is_float Op.float_sqrt = true
is_float Op.float_ceil = true
is_float Op.float_floor = true
is_float Op.float_round = true
is_float Op.float_is_nan = true
is_float Op.float_equal = true
is_float Op.float_not_equal = true
is_float Op.float_less = true
is_float Op.float_less_equal = true
is_float _ = false

-- The operation takes no output.
abbrev pub has_no_output : Option (List ℕ × List ℕ × List ℕ) → Bool
has_no_output none = false
has_no_output (some ([], _, _)) = true
has_no_output (some (size ∷ _, _, _)) = size == 0

-- Every operation that takes no output is one that has side effects.
pub no_output-has_side_effects :
    (op : Op) → (has_no_output (native_var_sizes op) && not (has_side_effects op)) ≡ false
unfolding native_var_sizes has_side_effects
no_output-has_side_effects Op.copy = refl
no_output-has_side_effects (Op.select _) = refl
no_output-has_side_effects (Op.subpiece _) = refl
no_output-has_side_effects Op.zero_extend = refl
no_output-has_side_effects Op.sign_extend = refl
no_output-has_side_effects Op.int_to_float = refl
no_output-has_side_effects Op.uint_to_float = refl
no_output-has_side_effects Op.float_to_float = refl
no_output-has_side_effects Op.float_to_int = refl
no_output-has_side_effects Op.int_add = refl
no_output-has_side_effects Op.int_sub = refl
no_output-has_side_effects Op.int_xor = refl
no_output-has_side_effects Op.int_or = refl
no_output-has_side_effects Op.int_and = refl
no_output-has_side_effects Op.int_mul = refl
no_output-has_side_effects Op.int_div = refl
no_output-has_side_effects Op.int_signed_div = refl
no_output-has_side_effects Op.int_rem = refl
no_output-has_side_effects Op.int_signed_rem = refl
no_output-has_side_effects Op.int_left = refl
no_output-has_side_effects Op.int_rotate_left = refl
no_output-has_side_effects Op.int_right = refl
no_output-has_side_effects Op.int_signed_right = refl
no_output-has_side_effects Op.int_rotate_right = refl
no_output-has_side_effects Op.int_equal = refl
no_output-has_side_effects Op.int_not_equal = refl
no_output-has_side_effects Op.int_less = refl
no_output-has_side_effects Op.int_signed_less = refl
no_output-has_side_effects Op.int_less_equal = refl
no_output-has_side_effects Op.int_signed_less_equal = refl
no_output-has_side_effects Op.int_carry = refl
no_output-has_side_effects Op.int_signed_carry = refl
no_output-has_side_effects Op.int_signed_borrow = refl
no_output-has_side_effects Op.int_not = refl
no_output-has_side_effects Op.int_negate = refl
no_output-has_side_effects Op.int_count_ones = refl
no_output-has_side_effects Op.int_count_leading_zeroes = refl
no_output-has_side_effects Op.bool_and = refl
no_output-has_side_effects Op.bool_or = refl
no_output-has_side_effects Op.bool_xor = refl
no_output-has_side_effects Op.bool_not = refl
no_output-has_side_effects Op.float_add = refl
no_output-has_side_effects Op.float_sub = refl
no_output-has_side_effects Op.float_mul = refl
no_output-has_side_effects Op.float_div = refl
no_output-has_side_effects Op.float_negate = refl
no_output-has_side_effects Op.float_abs = refl
no_output-has_side_effects Op.float_sqrt = refl
no_output-has_side_effects Op.float_ceil = refl
no_output-has_side_effects Op.float_floor = refl
no_output-has_side_effects Op.float_round = refl
no_output-has_side_effects Op.float_is_nan = refl
no_output-has_side_effects Op.float_equal = refl
no_output-has_side_effects Op.float_not_equal = refl
no_output-has_side_effects Op.float_less = refl
no_output-has_side_effects Op.float_less_equal = refl
no_output-has_side_effects (Op.load _) = refl
no_output-has_side_effects (Op.store _) = refl
no_output-has_side_effects (Op.branch _) = refl
no_output-has_side_effects (Op.pcode_branch _) = refl
no_output-has_side_effects (Op.pcode_label _) = refl
no_output-has_side_effects Op.multi_equal = refl
no_output-has_side_effects Op.indirect = refl
no_output-has_side_effects (Op.arg _) = refl
no_output-has_side_effects (Op.pcode_op _) = refl
no_output-has_side_effects (Op.hook _) = refl
no_output-has_side_effects (Op.hook_if _) = refl
no_output-has_side_effects (Op.tracer_load _) = refl
no_output-has_side_effects (Op.tracer_store _) = refl
no_output-has_side_effects Op.exception = refl
no_output-has_side_effects Op.instruction_marker = refl
no_output-has_side_effects Op.invalid = refl
