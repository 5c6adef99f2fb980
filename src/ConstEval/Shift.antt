-- ===== src/ConstEval/Shift.antt =====
-- The shifts, rotations, comparisons and overflow tests of `BitVecExt` in
-- icicle-cpu/src/exec/const_eval.rs. `none` is a panic.
pub mod Sound
pub mod Equal
pub mod Left
pub mod Right
use icicle_emu.Base.{◌>>=◌, ℕ, ◌+◌, ◌-◌, Bool, true, false, Option, none, some, List, [], ◌∷◌, ◌++◌}
use icicle_emu.Base.{leb, length, take, drop, if◌then◌else◌}
use icicle_emu.ConstEval.Bit
use icicle_emu.ConstEval.Bit.{Bit, inverse}
use icicle_emu.ConstEval.BitVec.{
  split_at, checked_sub, last?, fill, deref, slice_to, from_bits, copy, get_const, minimum, add,
  sub,
}

unfoldable pub shift_left : List Bit → List Bit → Option (List Bit)
unfolding copy
shift_left self shift =
    if leb (length self) (minimum shift)
    then some (fill self Bit.zero)
    else elim (get_const shift) [
      | some k ↦ do
        tmp ← deref (from_bits self)
        keep ← checked_sub (length tmp) k
        (value, _) ← split_at tmp keep
        (low, high) ← split_at self k
        high ← copy high value
        some (fill low Bit.zero ++ high)
      | none ↦ do
        (low, high) ← split_at (fill self Bit.unknown) (minimum shift)
        some (fill low Bit.zero ++ high)
    ]

unfoldable pub shift_right : List Bit → List Bit → Option (List Bit)
unfolding copy
shift_right self shift =
    if leb (length self) (minimum shift)
    then some (fill self Bit.zero)
    else elim (get_const shift) [
      | some k ↦ do
        tmp ← deref (from_bits self)
        (_, value) ← split_at tmp k
        (low, high) ← split_at self (length value)
        low ← copy low value
        some (low ++ fill high Bit.zero)
      | none ↦ do
        (low, high) ← split_at (fill self Bit.unknown) (length self - minimum shift)
        some (low ++ fill high Bit.zero)
    ]

-- The first `value` is the operand; the bits that are shifted in are its sign, or in the constant
-- case the sign of the part that is left.
unfoldable pub shift_right_signed : List Bit → List Bit → List Bit → Option (List Bit)
unfolding copy
shift_right_signed self value shift =
    if leb (length self) (minimum shift)
    then (last? value >>= λ sign. some (fill self sign))
    else elim (get_const shift) [
      | some k ↦ do
        tmp ← deref (slice_to (from_bits value) 0 (length self))
        (_, value) ← split_at tmp k
        (low, high) ← split_at self (length value)
        low ← copy low value
        sign ← last? value
        some (low ++ fill high sign)
      | none ↦ do
        (low, high) ← split_at (fill self Bit.unknown) (length self - minimum shift)
        sign ← last? value
        some (low ++ fill high sign)
    ]

-- `slice::rotate_left` moves the first `k` elements to the end, and panics past the length.
unfoldable pub rotate_left : List Bit → List Bit → Option (List Bit)
rotate_left self shift = elim (get_const shift) [
  | some k ↦ do (low, high) ← split_at self k; some (high ++ low)
  | none ↦ some (fill self Bit.unknown)
]

-- `slice::rotate_right` moves the last `k` elements to the front.
unfoldable pub rotate_right : List Bit → List Bit → Option (List Bit)
rotate_right self shift = elim (get_const shift) [
  | some k ↦ do
    keep ← checked_sub (length self) k
    (low, high) ← split_at self keep
    some (high ++ low)
  | none ↦ some (fill self Bit.unknown)
]

unfoldable pub add_overflow : List Bit → List Bit → Option (List Bit × Bit)
unfolding add
add_overflow self other = do
  tmp ← deref (from_bits self)
  let result = (add tmp other).0
  a ← last? self
  b ← last? other
  c ← last? result
  some (result, Bit.or (Bit.and (inverse (Bit.or a b)) c) (Bit.and (Bit.and a b) (inverse c)))

unfoldable pub sub_overflow : List Bit → List Bit → Option (List Bit × Bit)
unfolding sub
sub_overflow self other = do
  tmp ← deref (from_bits self)
  let result = (sub tmp other).0
  a ← last? self
  b ← last? other
  c ← last? result
  some (result, Bit.and (Bit.xor a b) (Bit.xor c a))

-- The loop of `is_eq`: the bits that are not constant are counted, and the last one is kept.
unfoldable pub is_eq_from : ℕ → Bit → List Bit → List Bit → Bit
is_eq_from count cmp (a ∷ self) (b ∷ other) = elim (Bit.is_eq a b) [
  | Bit.zero ↦ Bit.zero
  | Bit.one ↦ is_eq_from count cmp self other
  | Bit.expr e ↦ is_eq_from (count + 1) (Bit.expr e) self other
  | Bit.unknown ↦ is_eq_from (count + 1) Bit.unknown self other
]
is_eq_from count cmp _ _ = if leb count 1 then cmp else Bit.unknown

unfoldable pub is_eq : List Bit → List Bit → Bit
unfolding is_eq_from
is_eq = is_eq_from 0 Bit.one
