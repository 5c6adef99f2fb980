-- ===== src/Sleigh/Matcher.antt =====
-- sleigh/sleigh-runtime/src/matcher.rs: the search for the next constructor whose patterns and constraints
-- match. `none` is a panic.
pub mod Search
pub mod Progress
mod Tests
use icicle_emu.Base.{
  ℕ, ◌+◌, suc, Bool, true, false, not, Option, none, some, ◌>>=◌, List, [], ◌∷◌, ltb, leb, ◌==◌,
  if◌then◌else◌, drop, bit_and,
}
use icicle_emu.Interpreter.IntOp.{biased}
use icicle_emu.Sleigh.Field.{Token, Field, extract}
use icicle_emu.Sleigh.Expr.{PatternExprOp, Evaluated, eval_pattern_expr}
use icicle_emu.Sleigh.Decoder.{Decoder, get_raw_token, get_token}

pub record Pattern : Type 0 where
  pub bits : ℕ
  pub mask : ℕ

unfoldable pub matches_pattern : Pattern → ℕ → Bool
matches_pattern p other = bit_and p.mask p.bits == bit_and p.mask other

pub data ConstraintCmp : Type 0 where
  equal not_equal less less_or_equal greater greater_or_equal : ConstraintCmp

pub data ConstraintOperand : Type 0 where
  constant : ℕ → ConstraintOperand
  field : Field → ConstraintOperand
  expr : List (PatternExprOp Field) → ConstraintOperand

pub data Constraint : Type 0 where
  token : Token → Field → ConstraintCmp → ConstraintOperand → Constraint
  context : Field → ConstraintCmp → ConstraintOperand → Constraint

-- The order of signed numbers of 64 bits.
abbrev pub signed_lt : ℕ → ℕ → Bool
signed_lt a b = ltb (biased 64 a) (biased 64 b)

unfoldable pub compare_values : ConstraintCmp → ℕ → ℕ → Bool
compare_values ConstraintCmp.equal lhs rhs = lhs == rhs
compare_values ConstraintCmp.not_equal lhs rhs = not (lhs == rhs)
compare_values ConstraintCmp.less lhs rhs = signed_lt lhs rhs
compare_values ConstraintCmp.less_or_equal lhs rhs = not (signed_lt rhs lhs)
compare_values ConstraintCmp.greater lhs rhs = signed_lt rhs lhs
compare_values ConstraintCmp.greater_or_equal lhs rhs = not (signed_lt lhs rhs)

abbrev pub or_zero : Evaluated → Option ℕ
or_zero (Evaluated.result none) = some 0
or_zero (Evaluated.result (some v)) = some v
or_zero Evaluated.panicked = none
or_zero Evaluated.unreachable = none

abbrev pub operand_value : (ℕ → ℕ) → ConstraintOperand → ℕ → Option ℕ
operand_value reserve (ConstraintOperand.constant x) src_val = some x
operand_value reserve (ConstraintOperand.field f) src_val = extract f src_val
operand_value reserve (ConstraintOperand.expr e) src_val =
    or_zero (eval_pattern_expr reserve (λ (f : Field). extract f src_val) e)

unfoldable pub eval_constraint :
    (ℕ → ℕ) → Field → ℕ → ConstraintOperand → ConstraintCmp → Option Bool
unfolding extract eval_pattern_expr compare_values
eval_constraint reserve f src_val operand cmp = do
  lhs ← extract f src_val
  rhs ← operand_value reserve operand src_val
  some (compare_values cmp lhs rhs)

unfoldable pub matches_constraint : (ℕ → ℕ) → Decoder → Constraint → Option Bool
unfolding eval_constraint get_token
matches_constraint reserve state (Constraint.token t f cmp operand) = do
  src_val ← get_token state t
  eval_constraint reserve f src_val operand cmp
matches_constraint reserve state (Constraint.context f cmp operand) =
    eval_constraint reserve f state.context operand cmp

-- `iter().all(..)`, which stops at the first that does not match.
abbrev pub and_then : Option Bool → Option Bool → Option Bool
and_then none next = none
and_then (some true) next = next
and_then (some false) next = some false

abbrev pub matches_complex : (ℕ → ℕ) → Decoder → List Constraint → Option Bool
matches_complex reserve state [] = some true
matches_complex reserve state (c ∷ constraints) =
    and_then (matches_constraint reserve state c) (matches_complex reserve state constraints)

pub record MatchCase : Type 0 where
  pub constructor_id : ℕ
  pub rank : ℕ
  pub token : Pattern
  pub context : Pattern
  pub constraints : List Constraint

unfoldable pub matches_case : (ℕ → ℕ) → Decoder → ℕ → ℕ → MatchCase → Option Bool
unfolding matches_pattern matches_constraint
matches_case reserve state context_reg raw c =
    and_then (some (matches_pattern c.context context_reg))
      (and_then (some (matches_pattern c.token raw)) (matches_complex reserve state c.constraints))

pub record SequentialMatcher : Type 0 where
  pub cases : List MatchCase
  pub token_size : ℕ

-- `find` over the cases that are left, the first at `position`.
abbrev pub found_case : ℕ → ℕ → Option Bool → Option (Option (ℕ × ℕ)) → Option (Option (ℕ × ℕ))
found_case constructor position none next = none
found_case constructor position (some true) next = some (some (constructor, suc position))
found_case constructor position (some false) next = next

abbrev pub find_case : (MatchCase → Option Bool) → List MatchCase → ℕ → Option (Option (ℕ × ℕ))
find_case test [] position = some none
find_case test (c ∷ cases) position =
    found_case c.constructor_id position (test c) (find_case test cases (suc position))

unfoldable pub match_constructor :
    (ℕ → ℕ) → SequentialMatcher → Decoder → ℕ → Option (Option (ℕ × ℕ))
unfolding get_raw_token matches_case
match_constructor reserve matcher state offset = do
  raw ← get_raw_token state 0 matcher.token_size
  find_case (matches_case reserve state state.context raw) (drop offset matcher.cases) offset
