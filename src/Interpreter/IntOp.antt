-- ===== src/Interpreter/IntOp.antt =====
-- What the interpreter computes for the integer operations on `w` bits: the traits `IntOp`, `CmpOp`
-- and `IntSingleOp` of icicle-cpu/src/exec/interpreter.rs. `none` is an operation of another trait.
use icicle_emu.Base.{ℕ, ◌+◌, ◌-◌, ◌*◌, ◌/◌, ◌%◌, ◌^◌, Bool, not, ◌||◌, Option, none, some}
use icicle_emu.Base.{bit_and, bit_or, bit_xor, leb, ltb, ◌==◌, if◌then◌else◌}
use icicle_emu.Pcode.Op.{Op}

-- `uN::rotate_left` and `rotate_right`
abbrev pub rotate_left : ℕ → ℕ → ℕ → ℕ
rotate_left w a n = let k = n % w in a % 2 ^ (w - k) * 2 ^ k + a / 2 ^ (w - k)

abbrev pub rotate_right : ℕ → ℕ → ℕ → ℕ
rotate_right w a n = let k = n % w in a / 2 ^ k + a % 2 ^ k * 2 ^ (w - k)

unfoldable pub int_op : Op → ℕ → ℕ → ℕ → Option ℕ
int_op Op.int_add w a b = some ((a + b) % 2 ^ w)
int_op Op.int_sub w a b = some ((a + 2 ^ w - b) % 2 ^ w)
int_op Op.int_xor w a b = some (bit_xor a b)
int_op Op.int_or w a b = some (bit_or a b)
int_op Op.int_and w a b = some (bit_and a b)
int_op Op.int_mul w a b = some (a * b % 2 ^ w)
int_op _ w a b = none

-- The operand of a rotation is cast to `u32`.
unfoldable pub rotate_op : Op → ℕ → ℕ → ℕ → Option ℕ
rotate_op Op.int_rotate_left w a b = some (rotate_left w a (b % 2 ^ 32))
rotate_op Op.int_rotate_right w a b = some (rotate_right w a (b % 2 ^ 32))
rotate_op _ w a b = none

-- The arms of `IntLeft` and `IntRight` in `interpret`: the operands are zero extended to, or cut to,
-- 128 and 32 bits, and the result is cut to the `w` bits of the output.
unfoldable pub shift_op : Op → ℕ → ℕ → ℕ → Option ℕ
shift_op Op.int_left w a b =
    let x = a % 2 ^ 128 in
    let y = b % 2 ^ 32 in some ((if leb w y then 0 else x * 2 ^ y % 2 ^ 128) % 2 ^ w)
shift_op Op.int_right w a b =
    let x = a % 2 ^ 128 in let y = b % 2 ^ 32 in some ((if leb w y then 0 else x / 2 ^ y) % 2 ^ w)
shift_op _ w a b = none

-- The signed value of a `w`-bit number, plus 2 ^ (w - 1): an order and a range check on these are
-- those on the signed values.
abbrev pub biased : ℕ → ℕ → ℕ
biased w a = let half = 2 ^ (w - 1) in if ltb a half then a + half else a - half

-- `checked_add` and `checked_sub` on signed numbers return nothing outside of the signed range.
abbrev pub add_overflows : ℕ → ℕ → ℕ → Bool
add_overflows w a b =
    let half = 2 ^ (w - 1) in
    let sum = biased w a + biased w b in ltb sum half || leb (2 ^ w + half) sum

abbrev pub sub_overflows : ℕ → ℕ → ℕ → Bool
sub_overflows w a b =
    let half = 2 ^ (w - 1) in
    ltb (biased w a + half) (biased w b) || leb (biased w b + half) (biased w a)

unfoldable pub cmp_op : Op → ℕ → ℕ → ℕ → Option Bool
cmp_op Op.int_equal w a b = some (a == b)
cmp_op Op.int_not_equal w a b = some (not (a == b))
cmp_op Op.int_less w a b = some (ltb a b)
cmp_op Op.int_less_equal w a b = some (leb a b)
cmp_op Op.int_signed_less w a b = some (ltb (biased w a) (biased w b))
cmp_op Op.int_signed_less_equal w a b = some (leb (biased w a) (biased w b))
cmp_op Op.int_carry w a b = some (leb (2 ^ w) (a + b))
cmp_op Op.int_signed_carry w a b = some (add_overflows w a b)
cmp_op Op.int_signed_borrow w a b = some (sub_overflows w a b)
cmp_op _ w a b = none

unfoldable pub int_single_op : Op → ℕ → ℕ → Option ℕ
int_single_op Op.int_negate w a = some ((2 ^ w - a) % 2 ^ w)
int_single_op Op.int_not w a = some (2 ^ w - 1 - a)
int_single_op _ w a = none
