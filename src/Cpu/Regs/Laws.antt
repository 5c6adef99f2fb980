-- ===== src/Cpu/Regs/Laws.antt =====
-- Which variables are within the register space of icicle-cpu/src/regs.rs, and reads after writes.
use icicle_emu.Base.{
  ℕ, zero, suc, ◌+◌, ◌-◌, ◌*◌, ◌≤◌, ◌<◌, ◌≡◌, refl, ◌∙◌, ap, ap₂, arith, Bool, true, false, ◌&&◌,
  ◌||◌, some, List, [], ◌∷◌, ◌==◌, leb, ltb, if◌then◌else◌, length, Bool-cases, inl, inr, ◌⊎◌,
}
use icicle_emu.Pcode.Var.{VarNode}
use icicle_emu.Cpu.Regs.{
  ℤ, register_space_bytes, reg_offset, Regs, var_offset, check_bounds, bytes_from, set_bytes,
  read_at, write_at, read_var, write_var,
}

-- Registers, and the first 512 temporaries.
abbrev pub is_named : VarNode → Bool
is_named v = ltb v.id 0x8000 || leb (0x10000 - 0x200) v.id

pub check_bounds-inside :
    (v : VarNode) (n : ℕ)
    → is_named v ≡ true
    → check_bounds v n ≡ true
    → (o : ℕ) × (var_offset v ≡ ℤ.pos o) × (o + n < register_space_bytes)
unfolding check_bounds var_offset
check_bounds-inside v n named h = elim (Bool-cases (ltb v.id 0x8000)) [
  | inl reg ↦ (reg_offset + (v.id * 16 + v.offset), rw reg refl, ground (arith, rw reg at h))
  | inr tmp ↦
      let room : leb ((0x10000 - v.id) * 16) (reg_offset + v.offset) ≡ true = ground arith in
      (
        reg_offset + v.offset - (0x10000 - v.id) * 16,
        rw (tmp, room) refl,
        ground (arith, rw (tmp, room) at h),
      )
]

bytes_from-equal :
    (r s : Regs) (offset n : ℕ)
    → ((i : ℕ) → offset ≤ i → i < offset + n → r i ≡ s i)
    → bytes_from r offset n ≡ bytes_from s offset n
bytes_from-equal r s offset zero h = refl
bytes_from-equal r s offset (suc n) h =
    ap₂ (λ (x : ℕ) (l : List ℕ). x ∷ l) (h offset (omega arith) (omega arith))
      (bytes_from-equal r s (suc offset) n (λ i p q. h i (omega arith) (omega arith)))

set_bytes_outside :
    (r : Regs) (offset : ℕ) (value : List ℕ) (i : ℕ)
    → (i < offset) ⊎ (offset + length value ≤ i)
    → set_bytes r offset value i ≡ r i
set_bytes_outside r offset [] i h = refl
set_bytes_outside r offset (x ∷ value) i h =
    let other : (i == offset) ≡ false = ground arith in
    rw other (set_bytes_outside r (suc offset) value i (ground arith))

bytes_from-set_bytes :
    (r : Regs) (offset : ℕ) (value : List ℕ)
    → bytes_from (set_bytes r offset value) offset (length value) ≡ value
bytes_from-set_bytes r offset [] = refl
bytes_from-set_bytes r offset (x ∷ value) =
    let here : (offset == offset) ≡ true = ground arith in
    ap₂ (λ (y : ℕ) (l : List ℕ). y ∷ l) (rw here refl)
      (bytes_from-equal (set_bytes r offset (x ∷ value)) (set_bytes r (suc offset) value)
          (suc offset) (length value) (λ i p q. skip i (ground arith))
        ∙ bytes_from-set_bytes r (suc offset) value)
  where
    skip :
        (i : ℕ)
        → (i == offset) ≡ false
        → set_bytes r offset (x ∷ value) i ≡ set_bytes r (suc offset) value i
    skip i h = rw h refl

-- A register, or one of the first 512 temporaries, that passes the check of the bounds starts and
-- ends in the register space; a write to it succeeds and is read back, and changes no byte outside
-- of it.
pub read_var-write_var :
    (r : Regs) (v : VarNode) (value : List ℕ) (i : ℕ)
    → is_named v ≡ true
    → check_bounds v (length value) ≡ true
    → (o : ℕ) × (r' : Regs) × (var_offset v ≡ ℤ.pos o)
      × (o + length value < register_space_bytes)
      × (write_var r v value ≡ some r')
      × (read_var (length value) r' v ≡ some value)
      × ((if leb o i && ltb i (o + length value) then r i else r' i) ≡ r i)
unfolding read_var write_var read_at write_at
read_var-write_var r v value i named h =
    let (o, e, inside) = check_bounds-inside v (length value) named h in
    let room : leb (o + length value) register_space_bytes ≡ true = ground arith in
    (
      o,
      set_bytes r o value,
      e,
      inside,
      rw (h, e, room) refl,
      rw (h, e, room) (ap some (bytes_from-set_bytes r o value)),
      elim (Bool-cases (leb o i && ltb i (o + length value))) [
        | inl inside ↦ rw inside refl
        | inr outside ↦ rw outside (set_bytes_outside r o value i (ground arith))
      ],
    )
