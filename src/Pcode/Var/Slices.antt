-- ===== src/Pcode/Var/Slices.antt =====
-- Slices of slices in sleigh/pcode/src/ops.rs.
use native.Mathlib.Nat.{one-le-pow, pow-suc, mul-add-div_right, div-eq_of_lt}
use icicle_emu.Base.{
  ℕ, zero, suc, ◌+◌, ◌-◌, ◌*◌, ◌/◌, ◌%◌, ◌^◌, ◌≤◌, ◌<◌, ◌≡◌, refl, sym, ◌∙◌, ap, ap₂, arith, some,
  ◌>>=◌, leb, ltb, ◌==◌, u64_max, false, ◌||◌,
}
use icicle_emu.Base.Powers.{mod-pow-suc, div-pow-suc, mod-mod-pow, pow-split, pow-add}
use icicle_emu.Pcode.Var.{Value, slice, try_slice, mask, slice_value, value_size}

mod-div-pow : (a m k : ℕ) → k ≤ m → a % 2 ^ m / 2 ^ k ≡ a / 2 ^ k % 2 ^ (m - k)
mod-div-pow a m zero h = ground arith
mod-div-pow a zero (suc k) h = absurd (omega arith)
mod-div-pow a (suc m) (suc k) h =
    div-pow-suc (a % 2 ^ suc m) k
    ∙ ap (λ (t : ℕ). t / 2 ^ k) (omega (arith, mod-pow-suc a m))
    ∙ mod-div-pow (a / 2) m k (omega arith)
    ∙ ap₂ (λ (s t : ℕ). s % 2 ^ t) (sym (div-pow-suc a k)) (omega arith)

div-div-pow : (a m k : ℕ) → a / 2 ^ m / 2 ^ k ≡ a / 2 ^ (m + k)
div-div-pow a zero k = ap₂ (λ (s t : ℕ). s / 2 ^ t) (omega arith) (omega arith)
div-div-pow a (suc m) k =
    ap (λ (t : ℕ). t / 2 ^ k) (div-pow-suc a m)
    ∙ div-div-pow (a / 2) m k
    ∙ sym (div-pow-suc a (m + k))
    ∙ ap (λ (t : ℕ). a / 2 ^ t) (omega arith)

mask_value : (bits : ℕ) → 0 < bits → bits ≤ 64 → mask bits ≡ some (2 ^ bits - 1)
unfolding mask
mask_value bits h k =
    let in_range : (bits == 0 || ltb 64 bits) ≡ false = ground arith in
    rw in_range (
      ap some (
        top_bits (2 ^ bits) (2 ^ (64 - bits)) (one-le-pow (64 - bits) 2 (omega arith))
          (one-le-pow bits 2 (omega arith)) (product bits k)))
  where
    product : (bits : ℕ) → bits ≤ 64 → 2 ^ 64 ≡ 2 ^ bits * 2 ^ (64 - bits)
    product bits k =
        pow-split 64 (64 - bits) (omega arith)
        ∙ ap (λ (t : ℕ). 2 ^ t * 2 ^ (64 - bits)) (omega arith)

    top_bits : (p q : ℕ) → 0 < q → 0 < p → 2 ^ 64 ≡ p * q → u64_max / q ≡ p - 1
    top_bits zero q h g e = absurd (omega arith)
    top_bits (suc p) q h g e =
        ap (λ (t : ℕ). t / q) {x = u64_max} {y = p * q + (q - 1)} (ground arith)
        ∙ mul-add-div_right h p (q - 1)
        ∙ omega (arith, div-eq_of_lt {n = q - 1} {m = q} (omega arith))

-- The bytes of a value from `offset` on, as a value of `size` bytes.
abbrev pub sliced : Value → ℕ → ℕ → Value
sliced (Value.var v) offset size = Value.var (record v { offset = v.offset + offset; size = size })
sliced (Value.const x _) offset size = Value.const (x / 256 ^ offset % 256 ^ size) size

-- The offset of a variable, which a slice may not take past a `u8`.
abbrev pub start_of : Value → ℕ
start_of (Value.var v) = v.offset
start_of (Value.const x _) = 0

bytes-pow : (n : ℕ) → 2 ^ (n * 8) ≡ 256 ^ n
bytes-pow zero = refl
bytes-pow (suc n) =
    ap (λ (t : ℕ). 2 ^ t) {x = suc n * 8} {y = n * 8 + 8} (omega arith)
    ∙ pow-add (n * 8) 8
    ∙ ap (λ (t : ℕ). t * 256) (bytes-pow n)
    ∙ sym (pow-suc 256 n)

-- One slice.
slice_value-sliced :
    (v : Value) (offset size : ℕ)
    → 0 < size
    → offset + size ≤ 8
    → offset + size ≤ value_size v
    → start_of v + offset < 256
    → slice_value v offset size ≡ some (sliced v offset size)
unfolding slice_value value_size slice try_slice
slice_value-sliced (Value.var v) o s z h k l = ground arith
slice_value-sliced (Value.const x b) o s z h k l =
    let a : leb 64 (o * 8) ≡ false = ground arith in
    rw (a, mask_value (s * 8) (omega arith) (omega arith))
      (ap (λ (t : ℕ). some (Value.const t s))
        (ap₂ (λ (p q : ℕ). x / p % q) (bytes-pow o)
          (omega (arith, one-le-pow (s * 8) 2 (omega arith), bytes-pow s))))

composed :
    (v : Value) (offset size inner_offset inner_size : ℕ)
    → offset + size ≤ 8
    → offset + size ≤ value_size v
    → 0 < inner_size
    → inner_offset + inner_size ≤ size
    → (slice_value v offset size >>= λ u. slice_value u inner_offset inner_size)
      ≡ slice_value v (offset + inner_offset) inner_size
unfolding slice_value value_size slice try_slice
composed (Value.var v) o s p q h k l n = ground arith
composed (Value.const x b) o s p q h k l n =
    let a : leb 64 (o * 8) ≡ false = ground arith in
    let c : leb 64 (p * 8) ≡ false = ground arith in
    let d : leb 64 ((o + p) * 8) ≡ false = ground arith in
    rw
      (
        a,
        d,
        mask_value (s * 8) (omega arith) (omega arith),
        c,
        mask_value (q * 8) (omega arith) (omega arith),
      )
      (ap (λ (t : ℕ). some (Value.const t q)) (bytes x o s p q n))
  where
    whole : (n : ℕ) → 2 ^ n - 1 + 1 ≡ 2 ^ n
    whole n = omega (arith, one-le-pow n 2 (omega arith))

    bytes :
        (x o s p q : ℕ)
        → p + q ≤ s
        → x / 2 ^ (o * 8) % (2 ^ (s * 8) - 1 + 1) / 2 ^ (p * 8) % (2 ^ (q * 8) - 1 + 1)
          ≡ x / 2 ^ ((o + p) * 8) % (2 ^ (q * 8) - 1 + 1)
    bytes x o s p q n =
        rw (whole (s * 8), whole (q * 8))
          (ap (λ (t : ℕ). t % 2 ^ (q * 8))
              (mod-div-pow (x / 2 ^ (o * 8)) (s * 8) (p * 8) (omega arith))
            ∙ mod-mod-pow (x / 2 ^ (o * 8) / 2 ^ (p * 8)) (s * 8 - p * 8) (q * 8) (omega arith)
            ∙ ap (λ (t : ℕ). t % 2 ^ (q * 8))
                (div-div-pow x (o * 8) (p * 8) ∙ ap (λ (t : ℕ). x / 2 ^ t) (omega arith)))

-- Within the first 8 bytes of a value, where the offset of a variable stays below 256, a slice has
-- the bytes from its offset on, as many as its size, and a slice of a slice is the slice at the sum
-- of the offsets, for constants and for variables.
pub slice_value-slice_value :
    (v : Value) (offset size inner_offset inner_size : ℕ)
    → offset + size ≤ 8
    → offset + size ≤ value_size v
    → 0 < inner_size
    → inner_offset + inner_size ≤ size
    → start_of v + offset < 256
    → (slice_value v offset size ≡ some (sliced v offset size))
      × ((slice_value v offset size >>= λ u. slice_value u inner_offset inner_size)
          ≡ slice_value v (offset + inner_offset) inner_size)
slice_value-slice_value v o s p q h k z n l =
    (slice_value-sliced v o s (omega arith) h k l, composed v o s p q h k z n)
