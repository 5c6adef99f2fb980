-- ===== src/ConstEval/BitVec.antt =====
-- Vectors of symbolic bits, lowest bit first: `Value` and the trait `BitVecExt` of
-- icicle-cpu/src/exec/const_eval.rs. A slice that a method changes in place is returned, and `none`
-- is a panic (a slice out of bounds, or `copy_from_slice` between slices of different lengths).
pub mod Sound
pub mod Arith
pub mod Constant
pub mod Reading
use Prim.Native.Nat.{ℕ, zero, suc, ◌+◌, ◌-◌, ◌*◌, ◌/◌, ◌%◌}
use mathlib.Core.List.{reverse}
use icicle_emu.Base.{Bool, true, false, Option, none, some, List, [], ◌∷◌, ◌++◌, map, max}
use icicle_emu.Base.{◌>>=◌, ltb, leb, ◌==◌, if◌then◌else◌, length, take, drop, replicate, u64_mod}
use icicle_emu.ConstEval.Bit
use icicle_emu.ConstEval.Bit.{Bit, const_value, inverse}

-- `slice::split_at`
abbrev pub split_at : List Bit → ℕ → Option (List Bit × List Bit)
split_at bits i = if leb i (length bits) then some (take i bits, drop i bits) else none

-- A subtraction on `usize` that panics below 0.
abbrev pub checked_sub : ℕ → ℕ → Option ℕ
checked_sub a b = if leb b a then some (a - b) else none

abbrev pub last? : List Bit → Option Bit
last? [] = none
last? (b ∷ []) = some b
last? (b ∷ c ∷ r) = last? (c ∷ r)

abbrev pub fill : List Bit → Bit → List Bit
fill bits b = replicate (length bits) b

abbrev pub max_bits : ℕ
max_bits = 128

-- `Value`: a window into `MAX_BITS` bits.
pub record Value : Type 0 where
  pub offset : ℕ
  pub len : ℕ
  pub bits : List Bit

-- `Deref` for `Value`
unfoldable pub deref : Value → Option (List Bit)
deref v =
    if leb (v.offset + v.len) (length v.bits)
    then some (take v.len (drop v.offset v.bits))
    else none

unfoldable pub slice_to : Value → ℕ → ℕ → Value
slice_to v offset len = record v { offset = offset; len = len }

unfoldable pub from_bits : List Bit → Value
from_bits input = record {
  offset = 0;
  len = length input % 256;
  bits = take max_bits input ++ replicate (max_bits - length input) Bit.zero;
}

unfoldable pub set_const : List Bit → ℕ → List Bit
set_const [] v = []
set_const (_ ∷ bits) v = (if v % 2 == 1 then Bit.one else Bit.zero) ∷ set_const bits (v / 2)

unfoldable pub from_const : ℕ → Value
from_const v = record {
  offset = 0;
  len = 64;
  bits = set_const (replicate 64 Bit.zero) v ++ replicate 64 Bit.zero;
}

unfoldable pub copy : List Bit → List Bit → Option (List Bit)
copy self other = if length self == length other then some other else none

unfoldable pub zero_extend : List Bit → List Bit → Option (List Bit)
unfolding copy
zero_extend self other = do
  (low, high) ← split_at self (length other)
  low ← copy low other
  some (low ++ fill high Bit.zero)

unfoldable pub copy_any : List Bit → List Bit → Option (List Bit)
unfolding copy zero_extend
copy_any self other =
    if ltb (length other) (length self)
    then zero_extend self other
    else copy self (take (length self) other)

-- The bits of `is_zero` are equal to `Bit::Zero`.
abbrev pub is_zero : Bit → Bool
is_zero Bit.zero = true
is_zero _ = false

abbrev pub count_zeros : List Bit → ℕ
count_zeros [] = 0
count_zeros (b ∷ r) = if is_zero b then suc (count_zeros r) else 0

unfoldable pub known_leading_zeros : List Bit → ℕ
known_leading_zeros bits = count_zeros (reverse bits)

unfoldable pub known_trailing_zeros : List Bit → ℕ
known_trailing_zeros bits = count_zeros bits

-- The loop of `count_ones`.
abbrev pub count_ones_from : ℕ → List Bit → Option ℕ
count_ones_from count [] = some count
count_ones_from count (b ∷ r) = const_value b >>= λ v. count_ones_from (count + v) r

unfoldable pub count_ones : List Bit → Option ℕ
unfolding const_value
count_ones = count_ones_from 0

-- The loop of `count_leading_zeros`, over the reversed slice.
abbrev pub leading_from : ℕ → List Bit → Option ℕ
leading_from count [] = some count
leading_from count (b ∷ r) =
    const_value b >>= λ v. if v == 1 then some count else leading_from (count + 1) r

unfoldable pub count_leading_zeros : List Bit → Option ℕ
unfolding const_value
count_leading_zeros bits = leading_from 0 (reverse bits)

-- `(output << 1) | bit` on a `u64`.
abbrev pub push_bit : ℕ → ℕ → ℕ
push_bit output bit = output * 2 % u64_mod + bit

-- The loops of `get_const`, `min` and `max`, over the reversed slice.
abbrev pub const_from : ℕ → List Bit → Option ℕ
const_from output [] = some output
const_from output (b ∷ r) = const_value b >>= λ v. const_from (push_bit output v) r

unfoldable pub get_const : List Bit → Option ℕ
unfolding const_value
get_const bits = if ltb 64 (length bits) then none else const_from 0 (reverse bits)

abbrev pub min_bit : Bit → ℕ
min_bit Bit.one = 1
min_bit _ = 0

abbrev pub min_from : ℕ → List Bit → ℕ
min_from output [] = output
min_from output (b ∷ r) = min_from (push_bit output (min_bit b)) r

unfoldable pub minimum : List Bit → ℕ
minimum bits = min_from 0 (reverse bits)

abbrev pub max_bit : Bit → ℕ
max_bit Bit.zero = 0
max_bit _ = 1

abbrev pub max_from : ℕ → List Bit → ℕ
max_from output [] = output
max_from output (b ∷ r) = max_from (push_bit output (max_bit b)) r

unfoldable pub maximum : List Bit → ℕ
maximum bits = max_from 0 (reverse bits)

-- `bool_mut`: the lowest bit is written, the others are zeroed.
unfoldable pub set_bool : List Bit → Bit → Option (List Bit)
set_bool [] b = none
set_bool (_ ∷ high) b = some (b ∷ fill high Bit.zero)

-- The slices are zipped: what is beyond the end of `other` stays.
unfoldable pub bitwise_op : (Bit → Bit → Bit) → List Bit → List Bit → List Bit
bitwise_op f [] other = []
bitwise_op f (a ∷ self) [] = a ∷ self
bitwise_op f (a ∷ self) (b ∷ other) = f a b ∷ bitwise_op f self other

unfoldable pub invert_all : List Bit → List Bit
invert_all = map inverse

-- The loops of `add` and `sub`, from a carry or a borrow.
unfoldable pub add_from : Bit → List Bit → List Bit → List Bit × Bit
add_from carry [] other = ([], carry)
add_from carry (a ∷ self) [] = (a ∷ self, carry)
add_from carry (a ∷ self) (b ∷ other) =
    let half = Bit.xor a b in
    let half_carry = Bit.and a b in
    let value = Bit.xor half carry in
    let full_carry = Bit.and half carry in
    let (rest, out) = add_from (Bit.or half_carry full_carry) self other in (value ∷ rest, out)

unfoldable pub add : List Bit → List Bit → List Bit × Bit
unfolding add_from
add = add_from Bit.zero

unfoldable pub sub_from : Bit → List Bit → List Bit → List Bit × Bit
sub_from borrow [] other = ([], borrow)
sub_from borrow (a ∷ self) [] = (a ∷ self, borrow)
sub_from borrow (a ∷ self) (b ∷ other) =
    let half = Bit.xor a b in
    let borrow_half = Bit.and (inverse a) b in
    let difference = Bit.xor half borrow in
    let borrow_diff = Bit.and (inverse half) borrow in
    let (rest, out) = sub_from (Bit.or borrow_half borrow_diff) self other in
    (difference ∷ rest, out)

unfoldable pub sub : List Bit → List Bit → List Bit × Bit
unfolding sub_from
sub = sub_from Bit.zero
