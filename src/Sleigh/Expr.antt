-- ===== src/Sleigh/Expr.antt =====
-- Pattern expressions: sleigh/sleigh-runtime/src/expr.rs evaluates them on a stack, and
-- `resolve_pattern_expr` of sleigh/sleigh-compile/src/constructor/mod.rs writes them in postfix order.
-- The capacity that `Vec::reserve` gives is a parameter.
pub mod Laws
pub mod Compile
mod Tests
use icicle_emu.Base.{
  ℕ, ◌+◌, ◌-◌, ◌*◌, ◌/◌, ◌%◌, ◌^◌, min, Bool, Option, none, some, ◌⊎◌, inl, inr, List, [], ◌∷◌,
  ◌++◌, length, leb, ◌==◌, if◌then◌else◌, bit_and, bit_or, bit_xor, u64_mod,
}
use icicle_emu.Sleigh.Signed.{
  checked_neg, checked_sum, checked_difference, checked_quotient, arithmetic_shift,
}

pub data PatternOp : Type 0 where
  add sub mult div int_left int_right and or xor : PatternOp

pub data PatternExprOp {ℓ} (T : Type ℓ) : Type ℓ where
  value : T → PatternExprOp T
  constant : ℕ → PatternExprOp T
  not negate : PatternExprOp T
  op : PatternOp → PatternExprOp T

unfoldable pub eval_pattern_op : ℕ → PatternOp → ℕ → Option ℕ
eval_pattern_op lhs PatternOp.add rhs = checked_sum lhs rhs
eval_pattern_op lhs PatternOp.sub rhs = checked_difference lhs rhs
eval_pattern_op lhs PatternOp.and rhs = some (bit_and lhs rhs)
eval_pattern_op lhs PatternOp.or rhs = some (bit_or lhs rhs)
eval_pattern_op lhs PatternOp.xor rhs = some (bit_xor lhs rhs)
eval_pattern_op lhs PatternOp.int_left rhs =
    let shift = rhs % 2 ^ 32 in some (if leb 64 shift then 0 else lhs * 2 ^ shift % u64_mod)
eval_pattern_op lhs PatternOp.int_right rhs = some (arithmetic_shift lhs (min (rhs % 2 ^ 32) 63))
eval_pattern_op lhs PatternOp.mult rhs = some (lhs * rhs % u64_mod)
eval_pattern_op lhs PatternOp.div rhs = checked_quotient lhs rhs

-- What one operation does to the stack, its top first: `stack.pop()?` returns on an empty stack.
pub data Popped : Type 0 where
  stopped panicked : Popped
  push : ℕ → List ℕ → Popped

abbrev pub computed : List ℕ → Option ℕ → Popped
computed stack none = Popped.panicked
computed stack (some v) = Popped.push v stack

abbrev pub bitwise_not : ℕ → ℕ
bitwise_not v = u64_mod - 1 - v

abbrev pub eval_op {ℓ} : {T : Type ℓ} → (T → Option ℕ) → PatternExprOp T → List ℕ → Popped
eval_op eval (PatternExprOp.value x) stack = computed stack (eval x)
eval_op eval (PatternExprOp.constant x) stack = Popped.push x stack
eval_op eval PatternExprOp.not [] = Popped.stopped
eval_op eval PatternExprOp.not (v ∷ stack) = Popped.push (bitwise_not v) stack
eval_op eval PatternExprOp.negate [] = Popped.stopped
eval_op eval PatternExprOp.negate (v ∷ stack) = computed stack (checked_neg v)
eval_op eval (PatternExprOp.op o) [] = Popped.stopped
eval_op eval (PatternExprOp.op o) (rhs ∷ []) = Popped.stopped
eval_op eval (PatternExprOp.op o) (rhs ∷ lhs ∷ stack) = computed stack (eval_pattern_op lhs o rhs)

-- How an evaluation ends: a result, the panic of an operation, or that of `unreachable!()`.
pub data Evaluated : Type 0 where
  result : Option ℕ → Evaluated
  panicked unreachable : Evaluated

abbrev pub push_then : ℕ → Popped → (List ℕ → Evaluated) → Evaluated
push_then capacity Popped.stopped next = Evaluated.result none
push_then capacity Popped.panicked next = Evaluated.panicked
push_then capacity (Popped.push v stack) next =
    if capacity == length stack then Evaluated.unreachable else next (v ∷ stack)

abbrev pub eval_from {ℓ} :
    {T : Type ℓ} → (T → Option ℕ) → ℕ → List (PatternExprOp T) → List ℕ → Evaluated
eval_from eval capacity [] [] = Evaluated.result none
eval_from eval capacity [] (v ∷ stack) = Evaluated.result (some v)
eval_from eval capacity (o ∷ expr) stack =
    push_then capacity (eval_op eval o stack) (λ (s : List ℕ). eval_from eval capacity expr s)

unfoldable pub eval_pattern_expr {ℓ} :
    {T : Type ℓ} → (ℕ → ℕ) → (T → Option ℕ) → List (PatternExprOp T) → Evaluated
eval_pattern_expr reserve eval expr = eval_from eval (reserve (length expr / 2 + 1)) expr []

-- The expressions of the parser, and how the compiler writes them behind `out`.
pub data PatternExpr {ℓ} (I : Type ℓ) : Type ℓ where
  ident : I → PatternExpr I
  integer : ℕ → PatternExpr I
  op : PatternExpr I → PatternOp → PatternExpr I → PatternExpr I
  not negate : PatternExpr I → PatternExpr I

abbrev pub Written {ℓ κ} : Type ℓ → Type κ → Type (ℓ ⊔ κ)
Written E T = List (PatternExprOp T) × (E ⊎ Unit {0})

abbrev pub then_write {ℓ κ} :
    {E : Type ℓ} {T : Type κ} → Written E T → (List (PatternExprOp T) → Written E T) → Written E T
then_write (out, inl error) next = (out, inl error)
then_write (out, inr _) next = next out

abbrev pub write {ℓ κ} :
    {E : Type ℓ} {T : Type κ} → PatternExprOp T → List (PatternExprOp T) → Written E T
write o out = (out ++ (o ∷ []), inr tt)

abbrev pub write_ident {ℓ κ} :
    {E : Type ℓ} {T : Type κ} → E ⊎ T → List (PatternExprOp T) → Written E T
write_ident (inl error) out = (out, inl error)
write_ident (inr x) out = write (PatternExprOp.value x) out

unfoldable pub resolve_pattern_expr {ℓ κ ι} :
    {E : Type ℓ} {T : Type κ} {I : Type ι}
    → (I → E ⊎ T)
    → PatternExpr I
    → List (PatternExprOp T)
    → Written E T
resolve_pattern_expr resolve (PatternExpr.ident i) out = write_ident (resolve i) out
resolve_pattern_expr resolve (PatternExpr.integer v) out = write (PatternExprOp.constant v) out
resolve_pattern_expr resolve (PatternExpr.op a o b) out =
    then_write (resolve_pattern_expr resolve a out) (λ (written : _).
      then_write (resolve_pattern_expr resolve b written) (write (PatternExprOp.op o)))
resolve_pattern_expr resolve (PatternExpr.not inner) out =
    then_write (resolve_pattern_expr resolve inner out) (write PatternExprOp.not)
resolve_pattern_expr resolve (PatternExpr.negate inner) out =
    then_write (resolve_pattern_expr resolve inner out) (write PatternExprOp.negate)
