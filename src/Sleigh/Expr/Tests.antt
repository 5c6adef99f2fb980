-- ===== src/Sleigh/Expr/Tests.antt =====
-- Pattern expressions at concrete inputs.
use icicle_emu.Base.{
  ℕ, ◌-◌, ◌^◌, ◌≡◌, refl, ◌==◌, if◌then◌else◌, Option, none, some, ◌⊎◌, inl, inr, List, [], ◌∷◌,
  arith,
}
use icicle_emu.Sleigh.Expr.{
  PatternOp, PatternExprOp, PatternExpr, Evaluated, eval_pattern_op, eval_pattern_expr,
  resolve_pattern_expr,
}
use icicle_emu.Sleigh.Expr.Laws.{resolve_all}
use icicle_emu.Sleigh.Expr.Compile.{IsCompiled, resolve_pattern_expr-IsCompiled}

abbrev same_size : ℕ → ℕ
same_size n = n

abbrev known_ident : ℕ → ℕ ⊎ ℕ
known_ident i = if i == 0 then inl 404 else inr i

abbrev value_of : ℕ → Option ℕ
value_of x = some x

-- 2 + !(-3)
abbrev sum_expr : PatternExpr ℕ
sum_expr =
    PatternExpr.op (PatternExpr.ident 2) PatternOp.add
      (PatternExpr.not (PatternExpr.negate (PatternExpr.integer 3)))

abbrev written_before : List (PatternExprOp ℕ)
written_before = PatternExprOp.constant 1 ∷ []

resolve_pattern_expr-IsCompiled_example :
    IsCompiled same_size value_of written_before
      (resolve_pattern_expr known_ident sum_expr written_before)
      (resolve_all known_ident sum_expr)
resolve_pattern_expr-IsCompiled_example =
    resolve_pattern_expr-IsCompiled same_size known_ident value_of sum_expr written_before
      (λ (n : ℕ). omega arith)

sum_result :
    eval_pattern_expr same_size value_of (
      PatternExprOp.value 2
      ∷ PatternExprOp.constant 3
      ∷ PatternExprOp.negate
      ∷ PatternExprOp.not
      ∷ PatternExprOp.op PatternOp.add
      ∷ [])
    ≡ Evaluated.result (some 4)
unfolding eval_pattern_expr eval_pattern_op
sum_result = refl

divide_negative : eval_pattern_op (2 ^ 64 - 7) PatternOp.div 2 ≡ some (2 ^ 64 - 3)
unfolding eval_pattern_op
divide_negative = refl

shift_negative : eval_pattern_op (2 ^ 64 - 7) PatternOp.int_right 1 ≡ some (2 ^ 64 - 4)
unfolding eval_pattern_op
shift_negative = refl

add_panics : eval_pattern_op (2 ^ 63 - 1) PatternOp.add 1 ≡ none
unfolding eval_pattern_op
add_panics = refl

-- Only code that no expression has fills the stack.
stack_full :
    eval_pattern_expr same_size value_of
      (PatternExprOp.constant 1 ∷ PatternExprOp.constant 2 ∷ PatternExprOp.constant 3 ∷ [])
    ≡ Evaluated.unreachable
unfolding eval_pattern_expr
stack_full = refl
