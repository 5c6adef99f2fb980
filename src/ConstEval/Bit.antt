-- ===== src/ConstEval/Bit.antt =====
-- One symbolic bit: `Expr`, `Bit` and the methods of `Bit` in icicle-cpu/src/exec/const_eval.rs,
-- with what a bit says of a concrete Boolean.
pub mod Sound
use Prim.Native.Nat.{ℕ}
use mathlib.Core.Bool.{Bool, true, false, not, ◌&&◌, beq}
use icicle_emu.Base.{◌==◌, ◌≡◌, if◌then◌else◌, Option, none, some}

-- Bit `offset` of the value of expression `id`, inverted or not.
pub record Expr : Type 0 where
  pub id : ℕ
  pub offset : ℕ
  pub invert : Bool

pub data Bit : Type 0 where
  expr : Expr → Bit
  unknown zero one : Bit

pub is_same : Expr → Expr → Bool
is_same a b = a.id == b.id && a.offset == b.offset && beq a.invert b.invert

pub is_different : Expr → Expr → Bool
is_different a b = a.id == b.id && a.offset == b.offset && not (beq a.invert b.invert)

unfoldable pub const_value : Bit → Option ℕ
const_value zero = some 0
const_value one = some 1
const_value _ = none

unfoldable pub inverse : Bit → Bit
inverse zero = one
inverse one = zero
inverse (expr e) = expr (record e { invert = not e.invert })
inverse unknown = unknown

unfoldable pub xor : Bit → Bit → Bit
unfolding inverse is_same is_different
xor zero x = x
xor x zero = x
xor one x = inverse x
xor x one = inverse x
xor (expr a) (expr b) = if is_same a b then zero else if is_different a b then one else unknown
xor _ _ = unknown

unfoldable pub and : Bit → Bit → Bit
unfolding is_same is_different
and zero _ = zero
and _ zero = zero
and one x = x
and x one = x
and (expr a) (expr b) = if is_same a b then expr a else if is_different a b then zero else unknown
and _ _ = unknown

unfoldable pub or : Bit → Bit → Bit
unfolding is_same is_different
or one _ = one
or _ one = one
or zero x = x
or x zero = x
or (expr a) (expr b) = if is_same a b then expr a else if is_different a b then one else unknown
or _ _ = unknown

unfoldable pub is_eq : Bit → Bit → Bit
unfolding inverse is_same is_different
is_eq zero x = inverse x
is_eq x zero = inverse x
is_eq one x = x
is_eq x one = x
is_eq (expr a) (expr b) = if is_same a b then one else if is_different a b then zero else unknown
is_eq _ _ = unknown

-- What the expressions evaluate to: the bit at an offset of the value of an expression.
abbrev pub Valuation : Type 0
Valuation = ℕ → ℕ → Bool

abbrev pub differs : Bool → Bool → Bool
differs x y = not (beq x y)

-- The Booleans that a bit stands for. An unknown bit may be either.
abbrev pub Denotes : Valuation → Bit → Bool → Type 0
Denotes ρ zero x = x ≡ false
Denotes ρ one x = x ≡ true
Denotes ρ (expr e) x = x ≡ differs (ρ e.id e.offset) e.invert
Denotes ρ unknown x = Unit {0}
