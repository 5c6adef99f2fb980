-- ===== src/ConstEval/Naming.antt =====
-- The end of `ConstEval::eval` in icicle-cpu/src/exec/const_eval.rs: the unknown bits of an output become
-- the bits of a new expression; and `fill_expr`, which names all of them.
use icicle_emu.Base.{
  ℕ, suc, ◌+◌, ◌/◌, ◌%◌, ◌≤◌, ◌<◌, ◌≡◌, sym, ◌∙◌, ap, ◌==◌, ◌↔◌, arith, Bool, false, List, [], ◌∷◌,
  length,
}
use icicle_emu.ConstEval.Bit.{Bit, Valuation, differs}
use icicle_emu.ConstEval.BitVec.Sound.{IsValue}

-- Bit `i` of expression `id`. The offset is a `u8`.
abbrev pub bit_of : ℕ → ℕ → Bit
bit_of id i = Bit.expr (record { id = id; offset = i % 256; invert = false })

abbrev pub name_unknown : ℕ → ℕ → Bit → Bit
name_unknown id i Bit.unknown = bit_of id i
name_unknown id i b = b

-- The loop, from index `i`.
unfoldable pub name_unknowns : ℕ → ℕ → List Bit → List Bit
name_unknowns id i [] = []
name_unknowns id i (b ∷ bits) = name_unknown id i b ∷ name_unknowns id (suc i) bits

unfoldable pub fill_expr : ℕ → ℕ → List Bit → List Bit
fill_expr id i [] = []
fill_expr id i (b ∷ bits) = bit_of id i ∷ fill_expr id (suc i) bits

-- The bits that are unknown are those of `v` in expression `id`, from its bit `i` on.
abbrev pub IsNamed : Valuation → ℕ → ℕ → List Bit → ℕ → Type 0
IsNamed ρ id i [] v = Unit {0}
IsNamed ρ id i (Bit.unknown ∷ bits) v = (ρ id i ≡ (v % 2 == 1)) × IsNamed ρ id (suc i) bits (v / 2)
IsNamed ρ id i (Bit.zero ∷ bits) v = IsNamed ρ id (suc i) bits (v / 2)
IsNamed ρ id i (Bit.one ∷ bits) v = IsNamed ρ id (suc i) bits (v / 2)
IsNamed ρ id i (Bit.expr e ∷ bits) v = IsNamed ρ id (suc i) bits (v / 2)

module _ (ρ : Valuation) (id : ℕ) where
  Denotes-bit_of : (i : ℕ) → i < 256 → differs (ρ id (i % 256)) false ≡ ρ id i
  Denotes-bit_of i h = same (ρ id (i % 256)) ∙ ap (ρ id) {x = i % 256} {y = i} (omega arith)
    where
      same : (b : Bool) → differs b false ≡ b
      same b = ground arith

  -- An output of at most 256 bits with its unknown bits named after expression `id` may stand for a
  -- number exactly if the output may stand for it and the bits that were unknown are those of the
  -- expression.
  pub name_unknowns-IsValue :
      (bits : List Bit) (i v : ℕ)
      → i + length bits ≤ 256
      → IsValue ρ (name_unknowns id i bits) v ↔ (IsValue ρ bits v × IsNamed ρ id i bits v)
  unfolding name_unknowns
  name_unknowns-IsValue [] i v h = (λ d. (d, tt), λ d. d.0)
  name_unknowns-IsValue (Bit.unknown ∷ bits) i v h =
      let rest = name_unknowns-IsValue bits (suc i) (v / 2) (omega arith) in
      let bit = Denotes-bit_of i (omega arith) in
      (
        λ d. ((tt, (rest.0 d.1).0), (sym (d.0 ∙ bit), (rest.0 d.1).1)),
        λ d. (sym (bit ∙ d.1.0), rest.1 (d.0.1, d.1.1)),
      )
  name_unknowns-IsValue (Bit.zero ∷ bits) i v h =
      let rest = name_unknowns-IsValue bits (suc i) (v / 2) (omega arith) in
      (λ d. ((d.0, (rest.0 d.1).0), (rest.0 d.1).1), λ d. (d.0.0, rest.1 (d.0.1, d.1)))
  name_unknowns-IsValue (Bit.one ∷ bits) i v h =
      let rest = name_unknowns-IsValue bits (suc i) (v / 2) (omega arith) in
      (λ d. ((d.0, (rest.0 d.1).0), (rest.0 d.1).1), λ d. (d.0.0, rest.1 (d.0.1, d.1)))
  name_unknowns-IsValue (Bit.expr e ∷ bits) i v h =
      let rest = name_unknowns-IsValue bits (suc i) (v / 2) (omega arith) in
      (λ d. ((d.0, (rest.0 d.1).0), (rest.0 d.1).1), λ d. (d.0.0, rest.1 (d.0.1, d.1)))
