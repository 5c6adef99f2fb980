-- ===== src/Sleigh/Expr/Laws.antt =====
-- What the expression that the compiler writes evaluates to.
use icicle_emu.Base.{
  ℕ, ◌+◌, ◌*◌, ◌≤◌, ◌<◌, max, ◌≡◌, refl, ap, ◌∙◌, Option, none, some, ◌⊎◌, inl, inr, ◌>>=◌, List,
  ◌∷◌, ◌++◌, length, arith,
}
use icicle_emu.Sleigh.Signed.{checked_neg}
use icicle_emu.Sleigh.Expr.{
  PatternExprOp, PatternExpr, Evaluated, eval_pattern_op, eval_from, push_then, computed,
  bitwise_not,
}

-- The expression with what its identifiers resolve to, or the first error.
abbrev pub then_resolve {ℓ κ ι} :
    {E : Type ℓ} {A : Type κ} {B : Type ι} → E ⊎ A → (A → E ⊎ B) → E ⊎ B
then_resolve (inl error) f = inl error
then_resolve (inr a) f = f a

abbrev pub resolve_all {ℓ κ ι} :
    {E : Type ℓ} {T : Type κ} {I : Type ι} → (I → E ⊎ T) → PatternExpr I → E ⊎ PatternExpr T
resolve_all resolve (PatternExpr.ident i) =
    then_resolve (resolve i) (λ (x : _). inr (PatternExpr.ident x))
resolve_all resolve (PatternExpr.integer v) = inr (PatternExpr.integer v)
resolve_all resolve (PatternExpr.op a o b) =
    then_resolve (resolve_all resolve a)
      (λ (x : _). then_resolve (resolve_all resolve b) (λ (y : _). inr (PatternExpr.op x o y)))
resolve_all resolve (PatternExpr.not a) =
    then_resolve (resolve_all resolve a) (λ (x : _). inr (PatternExpr.not x))
resolve_all resolve (PatternExpr.negate a) =
    then_resolve (resolve_all resolve a) (λ (x : _). inr (PatternExpr.negate x))

-- What an expression means: `none` is a panic.
abbrev pub meaning {ℓ} : {T : Type ℓ} → (T → Option ℕ) → PatternExpr T → Option ℕ
meaning eval (PatternExpr.ident x) = eval x
meaning eval (PatternExpr.integer v) = some v
meaning eval (PatternExpr.op a o b) = do
  lhs ← meaning eval a
  rhs ← meaning eval b
  eval_pattern_op lhs o rhs
meaning eval (PatternExpr.not a) = do v ← meaning eval a; some (bitwise_not v)
meaning eval (PatternExpr.negate a) = do v ← meaning eval a; checked_neg v

abbrev pub evaluated : Option ℕ → Evaluated
evaluated none = Evaluated.panicked
evaluated (some v) = Evaluated.result (some v)

-- The expression in postfix order, before what follows it.
abbrev pub postfix {ℓ} :
    {T : Type ℓ} → PatternExpr T → List (PatternExprOp T) → List (PatternExprOp T)
postfix (PatternExpr.ident x) rest = PatternExprOp.value x ∷ rest
postfix (PatternExpr.integer v) rest = PatternExprOp.constant v ∷ rest
postfix (PatternExpr.op a o b) rest = postfix a (postfix b (PatternExprOp.op o ∷ rest))
postfix (PatternExpr.not a) rest = postfix a (PatternExprOp.not ∷ rest)
postfix (PatternExpr.negate a) rest = postfix a (PatternExprOp.negate ∷ rest)

-- How many values an expression has at once on the stack.
abbrev pub height {ℓ} : {T : Type ℓ} → PatternExpr T → ℕ
height (PatternExpr.ident x) = 1
height (PatternExpr.integer v) = 1
height (PatternExpr.op a o b) = max (height a) (height b + 1)
height (PatternExpr.not a) = height a
height (PatternExpr.negate a) = height a

height-positive {ℓ} : {T : Type ℓ} (e : PatternExpr T) → 1 ≤ height e
height-positive (PatternExpr.ident x) = omega arith
height-positive (PatternExpr.integer v) = omega arith
height-positive (PatternExpr.op a o b) = omega arith
height-positive (PatternExpr.not a) = height-positive a
height-positive (PatternExpr.negate a) = height-positive a

pub length-postfix {ℓ} :
    {T : Type ℓ} (e : PatternExpr T) (rest : List (PatternExprOp T))
    → length rest + 2 * height e ≤ length (postfix e rest) + 1
length-postfix (PatternExpr.ident x) rest = omega arith
length-postfix (PatternExpr.integer v) rest = omega arith
length-postfix (PatternExpr.op a o b) rest = omega (
  arith,
  length-postfix a (postfix b (PatternExprOp.op o ∷ rest)),
  length-postfix b (PatternExprOp.op o ∷ rest),
  height-positive a,
  height-positive b,
)
length-postfix (PatternExpr.not a) rest = omega (arith, length-postfix a (PatternExprOp.not ∷ rest))
length-postfix (PatternExpr.negate a) rest =
    omega (arith, length-postfix a (PatternExprOp.negate ∷ rest))

-- What follows a value, or a panic.
abbrev continue_with : Option ℕ → (ℕ → Evaluated) → Evaluated
continue_with none next = Evaluated.panicked
continue_with (some v) next = next v

push_then-computed :
    (capacity : ℕ) (o : Option ℕ) (stack : List ℕ) (next : List ℕ → Evaluated)
    → length stack < capacity
    → push_then capacity (computed stack o) next ≡ continue_with o (λ (v : ℕ). next (v ∷ stack))
push_then-computed capacity none stack next h = refl
push_then-computed capacity (some v) stack next h = ground arith

continue_with-bind :
    (o : Option ℕ) (f : ℕ → Option ℕ) (next : ℕ → Evaluated)
    → continue_with o (λ (v : ℕ). continue_with (f v) next) ≡ continue_with (o >>= f) next
continue_with-bind none f next = refl
continue_with-bind (some v) f next = refl

continue_with-same :
    (o : Option ℕ) (f g : ℕ → Evaluated)
    → ((v : ℕ) → f v ≡ g v)
    → continue_with o f ≡ continue_with o g
continue_with-same none f g h = refl
continue_with-same (some v) f g h = h v

module _ {ℓ} {T : Type ℓ} (eval : T → Option ℕ) (capacity : ℕ) where
  pub eval_from-postfix :
      (e : PatternExpr T) (rest : List (PatternExprOp T)) (stack : List ℕ)
      → length stack + height e ≤ capacity
      → eval_from eval capacity (postfix e rest) stack
        ≡ continue_with (meaning eval e) (λ (v : ℕ). eval_from eval capacity rest (v ∷ stack))
  eval_from-postfix (PatternExpr.ident x) rest stack h =
      push_then-computed capacity (eval x) stack (λ (s : List ℕ). eval_from eval capacity rest s)
        (omega arith)
  eval_from-postfix (PatternExpr.integer v) rest stack h =
      push_then-computed capacity (some v) stack (λ (s : List ℕ). eval_from eval capacity rest s)
        (omega arith)
  eval_from-postfix (PatternExpr.op a o b) rest stack h =
      eval_from-postfix a (postfix b (PatternExprOp.op o ∷ rest)) stack (omega arith)
      ∙ continue_with-same (meaning eval a) _ _ (λ (v : ℕ).
        eval_from-postfix b (PatternExprOp.op o ∷ rest) (v ∷ stack) (omega arith)
        ∙ continue_with-same (meaning eval b) _ _ (λ (w : ℕ).
          push_then-computed capacity (eval_pattern_op v o w) stack
            (λ (s : List ℕ). eval_from eval capacity rest s) (omega (arith, height-positive a)))
        ∙ continue_with-bind (meaning eval b) (eval_pattern_op v o) _)
      ∙ continue_with-bind (meaning eval a) (λ (v : ℕ). meaning eval b >>= eval_pattern_op v o) _
  eval_from-postfix (PatternExpr.not a) rest stack h =
      eval_from-postfix a (PatternExprOp.not ∷ rest) stack h
      ∙ continue_with-same (meaning eval a) _ _ (λ (v : ℕ).
        push_then-computed capacity (some (bitwise_not v)) stack
          (λ (s : List ℕ). eval_from eval capacity rest s) (omega (arith, height-positive a)))
      ∙ continue_with-bind (meaning eval a) (λ (v : ℕ). some (bitwise_not v)) _
  eval_from-postfix (PatternExpr.negate a) rest stack h =
      eval_from-postfix a (PatternExprOp.negate ∷ rest) stack h
      ∙ continue_with-same (meaning eval a) _ _ (λ (v : ℕ).
        push_then-computed capacity (checked_neg v) stack
          (λ (s : List ℕ). eval_from eval capacity rest s) (omega (arith, height-positive a)))
      ∙ continue_with-bind (meaning eval a) checked_neg _

pub evaluated-of :
    (o : Option ℕ) → continue_with o (λ (v : ℕ). Evaluated.result (some v)) ≡ evaluated o
evaluated-of none = refl
evaluated-of (some v) = refl

pub postfix-append {ℓ} :
    {T : Type ℓ} (e : PatternExpr T) (rest more : List (PatternExprOp T))
    → postfix e rest ++ more ≡ postfix e (rest ++ more)
postfix-append (PatternExpr.ident x) rest more = refl
postfix-append (PatternExpr.integer v) rest more = refl
postfix-append (PatternExpr.op a o b) rest more =
    postfix-append a (postfix b (PatternExprOp.op o ∷ rest)) more
    ∙ ap (λ (l : List _). postfix a l) (postfix-append b (PatternExprOp.op o ∷ rest) more)
postfix-append (PatternExpr.not a) rest more = postfix-append a (PatternExprOp.not ∷ rest) more
postfix-append (PatternExpr.negate a) rest more =
    postfix-append a (PatternExprOp.negate ∷ rest) more
