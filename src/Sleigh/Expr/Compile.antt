-- ===== src/Sleigh/Expr/Compile.antt =====
-- What the compiler writes for a pattern expression, and what the runtime then evaluates it to.
use icicle_emu.Base.{
  ℕ, ◌+◌, ◌/◌, ◌≤◌, ◌≡◌, refl, sym, ap, ◌∙◌, Option, ◌⊎◌, inl, inr, List, [], ◌∷◌, ◌++◌, length,
  arith, append_assoc,
}
use icicle_emu.Sleigh.Expr.{
  PatternOp, PatternExprOp, PatternExpr, eval_pattern_expr, resolve_pattern_expr, Written, write,
  then_write, write_ident,
}
use icicle_emu.Sleigh.Expr.Laws.{
  then_resolve, resolve_all, meaning, evaluated, evaluated-of, postfix, postfix-append,
  length-postfix, eval_from-postfix,
}

abbrev pub error_of : {E T : Type 0} → Written E T → E ⊎ Unit {0}
error_of (out, r) = r

-- What is written behind `out` for an expression that resolves, and the error otherwise.
abbrev IsWritten :
    {E T : Type 0} → List (PatternExprOp T) → Written E T → E ⊎ PatternExpr T → Type 0
IsWritten out w (inl error) = error_of w ≡ inl error
IsWritten out w (inr e) = w ≡ (out ++ postfix e [], inr tt)

write-after :
    {T : Type 0} (out : List (PatternExprOp T)) (e : PatternExpr T) (o : PatternExprOp T)
    → (out ++ postfix e []) ++ (o ∷ []) ≡ out ++ postfix e (o ∷ [])
write-after out e o =
    append_assoc out (postfix e []) (o ∷ [])
    ∙ ap (λ (l : List _). out ++ l) (postfix-append e [] (o ∷ []))

module _ {E T : Type 0} where
  error_of-then_write :
      (w : Written E T) (next : List (PatternExprOp T) → Written E T) (error : E)
      → error_of w ≡ inl error
      → error_of (then_write w next) ≡ inl error
  error_of-then_write (out, inl e) next error h = h
  error_of-then_write (out, inr _) next error h = absurd (cc (h))

  unary-IsWritten :
      (r : E ⊎ PatternExpr T) (f : PatternExpr T → PatternExpr T) (o : PatternExprOp T)
      (out : List (PatternExprOp T)) (w : Written E T)
      → ((e : PatternExpr T) → postfix (f e) [] ≡ postfix e (o ∷ []))
      → IsWritten out w r
      → IsWritten out (then_write w (write o)) (then_resolve r (λ (x : PatternExpr T). inr (f x)))
  unary-IsWritten (inl error) f o out w law h = error_of-then_write w (write o) error h
  unary-IsWritten (inr e) f o out w law h =
      ap (λ (x : Written E T). then_write x (write o)) h
      ∙ ap (λ (l : List _). (l, inr tt))
          (write-after out e o ∙ ap (λ (l : List _). out ++ l) (sym (law e)))

  binary-IsWritten :
      (r₁ r₂ : E ⊎ PatternExpr T) (o : PatternOp) (out : List (PatternExprOp T)) (w : Written E T)
      (next : List (PatternExprOp T) → Written E T)
      → IsWritten out w r₁
      → ((l : List (PatternExprOp T)) → IsWritten l (next l) r₂)
      → IsWritten out
          (then_write w
            (λ (l : List (PatternExprOp T)). then_write (next l) (write (PatternExprOp.op o))))
          (then_resolve r₁ (λ (x : PatternExpr T).
            then_resolve r₂ (λ (y : PatternExpr T). inr (PatternExpr.op x o y))))
  binary-IsWritten (inl error) r₂ o out w next h₁ h₂ = error_of-then_write w _ error h₁
  binary-IsWritten (inr a) (inl error) o out w next h₁ h₂ =
      ap
        (λ (x : Written E T). error_of (
          then_write x
            (λ (l : List (PatternExprOp T)). then_write (next l) (write (PatternExprOp.op o)))))
        h₁
      ∙ error_of-then_write (next (out ++ postfix a [])) (write (PatternExprOp.op o)) error
          (h₂ (out ++ postfix a []))
  binary-IsWritten (inr a) (inr b) o out w next h₁ h₂ =
      ap
        (λ (x : Written E T).
          then_write x
            (λ (l : List (PatternExprOp T)). then_write (next l) (write (PatternExprOp.op o))))
        h₁
      ∙ ap (λ (x : Written E T). then_write x (write (PatternExprOp.op o)))
          (h₂ (out ++ postfix a []))
      ∙ ap (λ (l : List _). (l, inr tt))
          (write-after (out ++ postfix a []) b (PatternExprOp.op o)
            ∙ append_assoc out (postfix a []) _
            ∙ ap (λ (l : List _). out ++ l)
                (postfix-append a [] (postfix b (PatternExprOp.op o ∷ []))))

  ident-IsWritten :
      (r : E ⊎ T) (out : List (PatternExprOp T))
      → IsWritten out (write_ident r out) (then_resolve r (λ (x : T). inr (PatternExpr.ident x)))
  ident-IsWritten (inl error) out = refl
  ident-IsWritten (inr x) out = refl

  resolve_pattern_expr-IsWritten :
      {I : Type 0} (resolve : I → E ⊎ T) (e : PatternExpr I) (out : List (PatternExprOp T))
      → IsWritten out (resolve_pattern_expr resolve e out) (resolve_all resolve e)
  unfolding resolve_pattern_expr
  resolve_pattern_expr-IsWritten resolve (PatternExpr.ident i) out = ident-IsWritten (resolve i) out
  resolve_pattern_expr-IsWritten resolve (PatternExpr.integer v) out = refl
  resolve_pattern_expr-IsWritten resolve (PatternExpr.op a o b) out =
      binary-IsWritten (resolve_all resolve a) (resolve_all resolve b) o out _ _
        (resolve_pattern_expr-IsWritten resolve a out) (resolve_pattern_expr-IsWritten resolve b)
  resolve_pattern_expr-IsWritten resolve (PatternExpr.not a) out =
      unary-IsWritten (resolve_all resolve a) (λ (x : PatternExpr T). PatternExpr.not x)
        PatternExprOp.not out _ (λ (x : PatternExpr T). refl)
        (resolve_pattern_expr-IsWritten resolve a out)
  resolve_pattern_expr-IsWritten resolve (PatternExpr.negate a) out =
      unary-IsWritten (resolve_all resolve a) (λ (x : PatternExpr T). PatternExpr.negate x)
        PatternExprOp.negate out _ (λ (x : PatternExpr T). refl)
        (resolve_pattern_expr-IsWritten resolve a out)

eval_pattern_expr-postfix :
    {T : Type 0} (reserve : ℕ → ℕ) (eval : T → Option ℕ) (e : PatternExpr T)
    → ((n : ℕ) → n ≤ reserve n)
    → eval_pattern_expr reserve eval (postfix e []) ≡ evaluated (meaning eval e)
unfolding eval_pattern_expr
eval_pattern_expr-postfix reserve eval e enough =
    eval_from-postfix eval (reserve (length (postfix e []) / 2 + 1)) e [] []
      (omega (arith, length-postfix e [], enough (length (postfix e []) / 2 + 1)))
    ∙ evaluated-of (meaning eval e)

-- The code of an expression is written behind `out`, and evaluates to what the expression means.
abbrev pub IsCompiled :
    {E T : Type 0}
    → (ℕ → ℕ)
    → (T → Option ℕ)
    → List (PatternExprOp T)
    → Written E T
    → E ⊎ PatternExpr T
    → Type 0
IsCompiled reserve eval out w (inl error) = error_of w ≡ inl error
IsCompiled reserve eval out w (inr e) =
    (code : List (PatternExprOp _)) × (w ≡ (out ++ code, inr tt))
    × (eval_pattern_expr reserve eval code ≡ evaluated (meaning eval e))

written-IsCompiled :
    {E T : Type 0} (reserve : ℕ → ℕ) (eval : T → Option ℕ) (out : List (PatternExprOp T))
    (w : Written E T) (r : E ⊎ PatternExpr T)
    → ((n : ℕ) → n ≤ reserve n)
    → IsWritten out w r
    → IsCompiled reserve eval out w r
written-IsCompiled reserve eval out w (inl error) enough h = h
written-IsCompiled reserve eval out w (inr e) enough h =
    (postfix e [], h, eval_pattern_expr-postfix reserve eval e enough)

-- Where the reserved capacity is at least what is asked for: an expression whose identifiers
-- resolve is written behind what is there as code that the runtime evaluates to what the expression
-- means, a panic of an operation included, and never with a full or an empty stack; otherwise the
-- error is the one of the first identifier that does not resolve.
pub resolve_pattern_expr-IsCompiled :
    {E T I : Type 0} (reserve : ℕ → ℕ) (resolve : I → E ⊎ T) (eval : T → Option ℕ)
    (e : PatternExpr I) (out : List (PatternExprOp T))
    → ((n : ℕ) → n ≤ reserve n)
    → IsCompiled reserve eval out (resolve_pattern_expr resolve e out) (resolve_all resolve e)
resolve_pattern_expr-IsCompiled reserve resolve eval e out enough =
    written-IsCompiled reserve eval out (resolve_pattern_expr resolve e out) (resolve_all resolve e)
      enough (resolve_pattern_expr-IsWritten resolve e out)
