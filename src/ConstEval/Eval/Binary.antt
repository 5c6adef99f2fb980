-- ===== src/ConstEval/Eval/Binary.antt =====
-- On the arithmetic and bitwise operations the constant evaluator of
-- icicle-cpu/src/exec/const_eval.rs agrees with the interpreter, for every input that the bits may
-- stand for.
use mathlib.Core.Path.{subst}
use icicle_emu.Base.{ℕ, ◌<◌, ◌≡◌, refl, arith, Option, some}
use icicle_emu.Base.{List, [], ◌∷◌, length}
use icicle_emu.ConstEval.Bit.{Bit, Valuation}
use icicle_emu.ConstEval.BitVec.{copy}
use icicle_emu.ConstEval.BitVec.Sound.{IsValue}
use icicle_emu.ConstEval.BitVec.Arith.{
  add-IsValue, sub-IsValue, and-IsValue, or-IsValue, xor-IsValue,
}
use icicle_emu.ConstEval.Eval.{eval, eval_op}
use icicle_emu.Interpreter.IntOp.{int_op}
use icicle_emu.Pcode.Op.{Op}

-- The evaluation returns bits that may be those of the number `v`.
abbrev pub Evaluates : Valuation → Option (List Bit) → ℕ → Type 0
Evaluates ρ r v = (bits : List Bit) × (r ≡ some bits) × IsValue ρ bits v

pub copy_same : (out a : List Bit) → length out ≡ length a → copy out a ≡ some a
unfolding copy
copy_same out a h = ground arith

pub eval_nonempty :
    (op : Op) (a b out : List Bit) → 0 < length out → eval op a b out ≡ eval_op op a b out
unfolding eval
eval_nonempty op a b [] h = absurd (omega arith)
eval_nonempty op a b (o ∷ out) h = refl

pub some_eq : {x y : ℕ} → some x ≡ some y → x ≡ y
some_eq h = cc

module _ (ρ : Valuation) (a b out : List Bit) (x y : ℕ) (hx : IsValue ρ a x) (hy : IsValue ρ b y)
    (wide : length out ≡ length a) (same : length a ≡ length b) where
  pub arith_ops :
      (op : Op) (v : ℕ)
      → (op ≡ Op.int_mul → Evaluates ρ (eval_op op a b out) v)
      → int_op op (length a) x y ≡ some v
      → Evaluates ρ (eval_op op a b out) v
  unfolding eval_op int_op
  arith_ops Op.int_add v mul h =
      rw (copy_same out a wide)
        (_, refl, subst (IsValue ρ _) (some_eq h) (add-IsValue ρ a b x y same hx hy).0)
  arith_ops Op.int_sub v mul h =
      rw (copy_same out a wide)
        (_, refl, subst (IsValue ρ _) (some_eq h) (sub-IsValue ρ a b x y same hx hy).0)
  arith_ops Op.int_and v mul h =
      rw (copy_same out a wide)
        (_, refl, subst (IsValue ρ _) (some_eq h) (and-IsValue ρ a b x y same hx hy))
  arith_ops Op.int_or v mul h =
      rw (copy_same out a wide)
        (_, refl, subst (IsValue ρ _) (some_eq h) (or-IsValue ρ a b x y same hx hy))
  arith_ops Op.int_xor v mul h =
      rw (copy_same out a wide)
        (_, refl, subst (IsValue ρ _) (some_eq h) (xor-IsValue ρ a b x y same hx hy))
  arith_ops Op.int_mul v mul h = mul refl
  arith_ops _ v mul h = absurd (cc h)
