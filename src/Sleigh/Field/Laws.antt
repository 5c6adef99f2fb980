-- ===== src/Sleigh/Field/Laws.antt =====
-- What writing a field of a number does.
use icicle_emu.Base.{
  ℕ, ◌+◌, ◌-◌, ◌*◌, ◌/◌, ◌%◌, ◌^◌, ◌≤◌, ◌<◌, ◌≡◌, refl, sym, ap, ap₂, ◌∙◌, ◌⊎◌, inl, inr, Bool,
  true, false, not, ◌&&◌, ◌||◌, Option, some, ltb, ◌==◌, arith, bit_and, bit_or, ltb→lt, lt→ltb,
  ==_iff, u64_mod, u64_max,
}
use icicle_emu.Base.Bits.{bit_at, bit_at-bit_and, bit_at-bit_or, bit_at-complement, all_below_sound}
use icicle_emu.Pcode.Var.{mask}
use icicle_emu.Sleigh.Field.{Field, set, extract, field_mask, extended}
use icicle_emu.Sleigh.Field.Bits.{
  same_index, bit_at-div-pow, bit_at-mul-pow, bit_at-mul-below, bit_at-mod-pow, bit_at-ones,
  same_bits,
}
use native.Mathlib.Nat.{mod-lt}

abbrev pub IsField : Field → Type 0
IsField f = (1 ≤ f.num_bits) × (f.offset + f.num_bits ≤ 64)

abbrev ones : ℕ → ℕ
ones n = 2 ^ n - 1

ones-div : (n : ℕ) → n ≤ 64 → u64_max / 2 ^ (64 - n) ≡ ones n
ones-div n l =
    (==_iff (u64_max / 2 ^ (64 - n)) (ones n)).0
      (all_below_sound 65 (λ (k : ℕ). u64_max / 2 ^ (64 - k) == ones k) n refl (omega arith))

pub mask-ones : (n : ℕ) → 1 ≤ n → n ≤ 64 → mask n ≡ some (ones n)
unfolding mask
mask-ones n h l = rw (allowed) (ap (λ (t : ℕ). some t) (ones-div n l))
  where
    allowed : (n == 0 || ltb 64 n) ≡ false
    allowed = ground arith

abbrev field_ones : Field → ℕ
field_ones f = ones f.num_bits * 2 ^ f.offset % u64_mod

field_mask-ones : (f : Field) → IsField f → field_mask f ≡ some (field_ones f)
unfolding field_mask
field_mask-ones f (h, l) =
    rw (mask-ones f.num_bits h (omega arith), lt→ltb f.offset 64 (omega arith)) refl

abbrev field_bits : Field → ℕ → ℕ
field_bits f x = bit_and (x / 2 ^ f.offset) (ones f.num_bits)

extract-bits :
    (f : Field) (x : ℕ) → IsField f → extract f x ≡ extended f.signed (field_bits f x) f.num_bits
unfolding extract
extract-bits f x (h, l) =
    rw (lt→ltb f.offset 64 (omega arith), mask-ones f.num_bits h (omega arith)) refl

bit_at-field_bits :
    (f : Field) (x k : ℕ)
    → bit_at (field_bits f x) k ≡ (bit_at x (f.offset + k) && ltb k f.num_bits)
bit_at-field_bits f x k =
    bit_at-bit_and k (x / 2 ^ f.offset) (ones f.num_bits)
    ∙ ap₂ (λ (a b : Bool). a && b) (bit_at-div-pow f.offset x k) (bit_at-ones f.num_bits k)

abbrev written : Field → ℕ → ℕ → ℕ
written f dst value =
    bit_or (bit_and dst (u64_max - field_ones f))
      (bit_and (value * 2 ^ f.offset % u64_mod) (field_ones f))

set-written : (f : Field) (dst value : ℕ) → IsField f → set f dst value ≡ some (written f dst value)
unfolding set
set-written f dst value (h, l) =
    rw (field_mask-ones f (h, l), lt→ltb f.offset 64 (omega arith)) refl

-- The bits of the mask, and of the number that is written.
module _ (f : Field) (w : IsField f) where
  inside-field_ones : (k : ℕ) → k < f.num_bits → bit_at (field_ones f) (f.offset + k) ≡ true
  inside-field_ones k h =
      bit_at-mod-pow 64 (ones f.num_bits * 2 ^ f.offset) (f.offset + k) (omega (arith, w.1))
      ∙ bit_at-mul-pow f.offset (ones f.num_bits) k
      ∙ bit_at-ones f.num_bits k
      ∙ lt→ltb k f.num_bits h

  outside-field_ones :
      (j : ℕ)
      → j < 64
      → (j < f.offset) ⊎ (f.offset + f.num_bits ≤ j)
      → bit_at (field_ones f) j ≡ false
  outside-field_ones j h (inl below) =
      bit_at-mod-pow 64 (ones f.num_bits * 2 ^ f.offset) j h
      ∙ bit_at-mul-below f.offset (ones f.num_bits) j below
  outside-field_ones j h (inr above) =
      bit_at-mod-pow 64 (ones f.num_bits * 2 ^ f.offset) j h
      ∙ same_index (ones f.num_bits * 2 ^ f.offset) j (f.offset + (j - f.offset)) (omega arith)
      ∙ bit_at-mul-pow f.offset (ones f.num_bits) (j - f.offset)
      ∙ bit_at-ones f.num_bits (j - f.offset)
      ∙ ground arith

  bit_at-written :
      (dst value j : ℕ)
      → j < 64
      → bit_at (written f dst value) j ≡ (
          (bit_at dst j && not (bit_at (field_ones f) j))
          || (bit_at (value * 2 ^ f.offset) j && bit_at (field_ones f) j))
  bit_at-written dst value j h =
      rw
        (
          bit_at-bit_or j (bit_and dst (u64_max - field_ones f))
              (bit_and (value * 2 ^ f.offset % u64_mod) (field_ones f)),
          bit_at-bit_and j dst (u64_max - field_ones f),
          bit_at-bit_and j (value * 2 ^ f.offset % u64_mod) (field_ones f),
          bit_at-mod-pow 64 (value * 2 ^ f.offset) j h,
          bit_at-complement 64 j (field_ones f) h
              (mod-lt (ones f.num_bits * 2 ^ f.offset) (omega arith)),
        )
        refl

  inside-written :
      (dst value k : ℕ)
      → k < f.num_bits
      → bit_at (written f dst value) (f.offset + k) ≡ bit_at value k
  inside-written dst value k h =
      bit_at-written dst value (f.offset + k) (omega (arith, w.1))
      ∙ rw (inside-field_ones k h, bit_at-mul-pow f.offset value k)
          (chosen (bit_at dst (f.offset + k)) (bit_at value k))
    where
      chosen : (a b : Bool) → ((a && false) || (b && true)) ≡ b
      chosen a b = ground arith

  outside-written :
      (dst value j : ℕ)
      → j < 64
      → (j < f.offset) ⊎ (f.offset + f.num_bits ≤ j)
      → bit_at (written f dst value) j ≡ bit_at dst j
  outside-written dst value j h out =
      bit_at-written dst value j h
      ∙ rw (outside-field_ones j h out) (kept (bit_at dst j) (bit_at (value * 2 ^ f.offset) j))
    where
      kept : (a b : Bool) → ((a && true) || (b && false)) ≡ a
      kept a b = ground arith

-- The field at the lowest bit of a number, and fields without a common bit.
abbrev pub lowest : Field → Field
lowest f = record f { offset = 0 }

abbrev pub AreDisjoint : Field → Field → Type 0
AreDisjoint f g = (g.offset + g.num_bits ≤ f.offset) ⊎ (f.offset + f.num_bits ≤ g.offset)

guarded : (a b c : Bool) → (c ≡ true → a ≡ b) → (a && c) ≡ (b && c)
guarded a b true h = ap (λ (x : Bool). x && true) (h refl)
guarded a b false h = ground arith

field_bits-written :
    (f : Field) (dst value : ℕ)
    → IsField f
    → field_bits f (written f dst value) ≡ field_bits (lowest f) value
field_bits-written f dst value w = same_bits _ _ (λ (k : ℕ).
    bit_at-field_bits f (written f dst value) k
    ∙ guarded _ _ (ltb k f.num_bits) (λ (h : ltb k f.num_bits ≡ true).
      inside-written f w dst value k (ltb→lt k f.num_bits h)
      ∙ same_index value k (0 + k) (omega arith))
    ∙ sym (bit_at-field_bits (lowest f) value k))

field_bits-other :
    (f g : Field) (dst value : ℕ)
    → IsField f
    → IsField g
    → AreDisjoint f g
    → field_bits g (written f dst value) ≡ field_bits g dst
field_bits-other f g dst value w v apart = same_bits _ _ (λ (k : ℕ).
    bit_at-field_bits g (written f dst value) k
    ∙ guarded _ _ (ltb k g.num_bits) (λ (h : ltb k g.num_bits ≡ true).
      outside-written f w dst value (g.offset + k) (omega (arith, ltb→lt k g.num_bits h, v.1))
        (ground (arith, ltb→lt k g.num_bits h)))
    ∙ sym (bit_at-field_bits g dst k))

-- The number holds the value in the field, and another field as before.
abbrev pub IsStored : Field → Field → ℕ → ℕ → Option ℕ → Type 0
IsStored f g dst value r =
    (dst' : ℕ) × (r ≡ some dst')
    × (extract f dst' ≡ extract (lowest f) value)
    × (extract g dst' ≡ extract g dst)

-- For two fields of at least one bit that end within 64 bits and have no common bit, writing a
-- value to the first returns; the first then reads as the value cut to its width and extended, and
-- the second as before.
pub set-IsStored :
    (f g : Field) (dst value : ℕ)
    → IsField f
    → IsField g
    → AreDisjoint f g
    → IsStored f g dst value (set f dst value)
set-IsStored f g dst value w v apart = (
  written f dst value,
  set-written f dst value w,
  extract-bits f (written f dst value) w
      ∙ ap (λ (t : ℕ). extended f.signed t f.num_bits) (field_bits-written f dst value w)
      ∙ sym (extract-bits (lowest f) value (w.0, omega (arith, w.1))),
  extract-bits g (written f dst value) v
      ∙ ap (λ (t : ℕ). extended g.signed t g.num_bits) (field_bits-other f g dst value w v apart)
      ∙ sym (extract-bits g dst v),
)
