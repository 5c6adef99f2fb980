-- ===== src/Pcode/Block/Temporaries.antt =====
-- Temporaries and addresses of a block of sleigh/pcode/src/ops.rs.
use icicle_emu.Base.{
  ℕ, suc, zero, ◌≤◌, ◌<◌, ◌≡◌, refl, arith, Option, none, some, List, [], ◌∷◌, min, leb, ap,
  get_elem?, true, false, Bool,
}
use icicle_emu.Pcode.Var.{Value, is_temp}
use icicle_emu.Pcode.Block.{Instruction, new_inputs, first, second, smaller, min_tmp, next_tmp_of}

-- The two operands are read back from the merged representation of the inputs.
pub inputs-new_inputs : (a b : Value) → (first (new_inputs a b) ≡ a) × (second (new_inputs a b) ≡ b)
unfolding new_inputs first second
inputs-new_inputs (Value.const a p) (Value.const b q) = (refl, refl)
inputs-new_inputs (Value.const a p) (Value.var b) = (refl, refl)
inputs-new_inputs (Value.var a) (Value.const b q) = (refl, refl)
inputs-new_inputs (Value.var a) (Value.var b) = (refl, refl)

smaller-le :
    (c : Bool) (id bound : ℕ) (o : Option ℕ) (t : ℕ)
    → o ≡ some t
    → t ≤ bound
    → (t' : ℕ) × (smaller c id o ≡ some t') × (t' ≤ bound)
smaller-le false id bound o t e h = (t, e, h)
smaller-le true id bound none t e h = absurd (cc e)
smaller-le true id bound (some x) t e h = (min id x, refl, omega (arith, h, some_number e))
  where
    some_number : {x y : ℕ} → some x ≡ some y → x ≡ y
    some_number h = cc

smaller_first : (id : ℕ) (o : Option ℕ) → (t : ℕ) × (smaller true id o ≡ some t) × (t ≤ id)
smaller_first id none = (id, refl, omega arith)
smaller_first id (some x) = (min id x, refl, omega arith)

some_instruction : {x y : Instruction} → some x ≡ some y → x ≡ y
some_instruction h = cc

-- No temporary that is written is below the smallest.
min_tmp-le :
    (is : List Instruction) (k : ℕ) (i : Instruction)
    → get_elem? is k ≡ some i
    → 0x8000 ≤ i.output.id
    → (t : ℕ) × (min_tmp is ≡ some t) × (t ≤ i.output.id)
unfolding min_tmp is_temp
min_tmp-le [] k i g h = absurd (cc g)
min_tmp-le (j ∷ is) zero i g h =
    let e : j.output.id ≡ i.output.id =
      ap (λ (x : Instruction). x.output.id) (some_instruction g) in
    let c : leb 0x8000 j.output.id ≡ true = ground arith in
    let (t, p, q) = smaller_first j.output.id (min_tmp is) in (t, rw c p, omega arith)
min_tmp-le (j ∷ is) (suc k) i g h =
    let (t, e, l) = min_tmp-le is k i g h in
    smaller-le (leb 0x8000 j.output.id) j.output.id i.output.id (min_tmp is) t e l

-- The next temporary of a block, where there is one, is below every temporary that an instruction
-- of the block writes.
pub next_tmp_of-fresh :
    (is : List Instruction) (t : ℕ) (k : ℕ) (i : Instruction)
    → next_tmp_of is ≡ some t
    → get_elem? is k ≡ some i
    → 0x8000 ≤ i.output.id
    → t < i.output.id
unfolding next_tmp_of
next_tmp_of-fresh is t k i e g h =
    let (m, p, l) = min_tmp-le is k i g h in ground (arith, rw p at e)
