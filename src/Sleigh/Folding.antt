-- ===== src/Sleigh/Folding.antt =====
-- `const_eval` of sleigh/sleigh-runtime/src/const_eval.rs, which the lifter uses for the constants of a
-- disassembly. `none` is a panic, and `some none` the result `None`.
pub mod Agree
mod Tests
use icicle_emu.Base.{
  ℕ, ◌+◌, ◌-◌, ◌*◌, ◌/◌, ◌%◌, ◌^◌, Bool, true, false, not, ◌&&◌, ◌||◌, Option, none, some, ◌>>=◌,
  ltb, leb, ◌==◌, if◌then◌else◌, bit_and, bit_or, u64_mod, u64_max,
}
use icicle_emu.Pcode.Op.{Op}
use icicle_emu.Pcode.Var.{VarNode, Value, mask, value_size}
use icicle_emu.Sleigh.Field.{sxt64}

abbrev pub Folded : Type 0
Folded = Option (Option ℕ)

abbrev pub bit_of : Bool → Folded
bit_of true = some (some 1)
bit_of false = some (some 0)

-- `x & mask(size * 8)`
abbrev pub masked : ℕ → ℕ → Folded
masked size x = do m ← mask (size * 8); some (some (bit_and x m))

abbrev pub extended_constants : (ℕ → ℕ → ℕ) → ℕ → ℕ → ℕ → Folded
extended_constants f size a b = do
  x ← sxt64 a (size * 8)
  y ← sxt64 b (size * 8)
  masked size (f x y)

abbrev pub right_shift : ℕ → ℕ → ℕ → Folded
right_shift size a b =
    if leb (size * 8) b then some (some 0) else (do x ← sxt64 a (size * 8); masked size (x / 2 ^ b))

abbrev pub left_shift : ℕ → ℕ → ℕ → Folded
left_shift size a b = if leb (size * 8) b then some (some 0) else masked size (a * 2 ^ b % u64_mod)

abbrev pub is_zero_const : Value → Bool
is_zero_const (Value.const a _) = a == 0
is_zero_const (Value.var _) = false

abbrev pub zero_operand : Value → Value → Folded
zero_operand x y = if is_zero_const x || is_zero_const y then some (some 0) else some none

-- The arms of the match, in their order.
unfoldable pub fold : ℕ → Op → Value → Value → Folded
unfolding mask sxt64
fold size Op.zero_extend (Value.const a _) y = some (some a)
fold size Op.sign_extend (Value.const a input_size) y = do
  x ← sxt64 a (input_size * 8)
  masked size x
fold size Op.int_add (Value.const a n) (Value.const b _) =
    extended_constants (λ (x y : ℕ). (x + y) % u64_mod) n a b
fold size Op.int_sub (Value.const a n) (Value.const b _) =
    extended_constants (λ (x y : ℕ). (x + u64_mod - y) % u64_mod) n a b
fold size Op.int_right (Value.const a n) (Value.const b _) = right_shift n a b
fold size Op.int_left (Value.const a n) (Value.const b _) = left_shift n a b
fold size Op.int_mul (Value.const a n) (Value.const b _) =
    extended_constants (λ (x y : ℕ). x * y % u64_mod) n a b
fold size Op.int_and (Value.const a _) (Value.const b _) = some (some (bit_and a b))
fold size Op.int_or (Value.const a _) (Value.const b _) = some (some (bit_or a b))
fold size Op.int_equal (Value.const a _) (Value.const b _) = bit_of (a == b)
fold size Op.int_not_equal (Value.const a _) (Value.const b _) = bit_of (not (a == b))
fold size Op.int_less (Value.const a _) (Value.const b _) = bit_of (ltb a b)
fold size Op.int_less_equal (Value.const a _) (Value.const b _) = bit_of (leb a b)
fold size Op.bool_and (Value.const a _) (Value.const b _) = bit_of (not (a == 0) && not (b == 0))
fold size Op.bool_not (Value.const a _) y = bit_of (a == 0)
fold size Op.int_not (Value.const a n) y = masked n (u64_max - a)
fold size Op.bool_and x y = zero_operand x y
fold size Op.int_and x y = zero_operand x y
fold size Op.int_mul x y = zero_operand x y
fold size _ x y = some none

unfoldable pub const_eval : VarNode → Op → Value → Value → Folded
unfolding fold value_size
const_eval dst op x y =
    if ltb 8 dst.size || ltb 8 (value_size x) || ltb 8 (value_size y)
    then some none
    else fold dst.size op x y
