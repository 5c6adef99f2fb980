-- ===== src/Mem/Page/Bytes.antt =====
-- Slices of the bytes of a page of icicle-mem/src/physical.rs, and words of bytes.
use native.Mathlib.Nat.{pow-suc}
use icicle_emu.Base.{
  ℕ, zero, suc, ◌+◌, ◌*◌, ◌/◌, ◌%◌, ◌^◌, ◌≤◌, ◌<◌, ◌≡◌, refl, ◌∙◌, ap, ap₂, arith, List, [], ◌∷◌,
  bit_or, length, take, drop, replicate, get_or,
}
use icicle_emu.Base.Bits.{or_step}
use icicle_emu.Mem.Perm.Checks.{or_bound}
use icicle_emu.Mem.Page.{slice, overlay, copy_at, from_le_bytes, to_le_bytes, or_bytes, or_word}

take-overlay :
    (bytes value : List ℕ)
    → length value ≤ length bytes
    → take (length value) (overlay bytes value) ≡ value
take-overlay bytes [] h = refl
take-overlay [] (y ∷ value) h = absurd (omega arith)
take-overlay (x ∷ bytes) (y ∷ value) h =
    ap (λ (l : List ℕ). y ∷ l) (take-overlay bytes value (omega arith))

-- What is copied is read back.
pub slice-copy_at :
    (bytes : List ℕ) (offset : ℕ) (value : List ℕ)
    → offset + length value ≤ length bytes
    → slice (copy_at bytes offset value) offset (length value) ≡ value
slice-copy_at bytes zero value h = take-overlay bytes value (omega arith)
slice-copy_at [] (suc offset) value h = absurd (omega arith)
slice-copy_at (x ∷ bytes) (suc offset) value h = slice-copy_at bytes offset value (omega arith)

take-overlay_long :
    (bytes value : List ℕ) (o n : ℕ)
    → length value ≤ o
    → take n (drop o (overlay bytes value)) ≡ take n (drop o bytes)
take-overlay_long [] value o n h = refl
take-overlay_long (x ∷ bytes) [] o n h = refl
take-overlay_long (x ∷ bytes) (y ∷ value) zero n h = absurd (omega arith)
take-overlay_long (x ∷ bytes) (y ∷ value) (suc o) n h =
    take-overlay_long bytes value o n (omega arith)

-- The bytes after those that are copied, and before.
pub slice-copy_at_after :
    (bytes : List ℕ) (offset : ℕ) (value : List ℕ) (o n : ℕ)
    → offset + length value ≤ o
    → slice (copy_at bytes offset value) o n ≡ slice bytes o n
slice-copy_at_after bytes zero value o n h = take-overlay_long bytes value o n (omega arith)
slice-copy_at_after [] (suc offset) value o n h = refl
slice-copy_at_after (x ∷ bytes) (suc offset) value zero n h = absurd (omega arith)
slice-copy_at_after (x ∷ bytes) (suc offset) value (suc o) n h =
    slice-copy_at_after bytes offset value o n (omega arith)

pub slice-copy_at_before :
    (bytes : List ℕ) (offset : ℕ) (value : List ℕ) (o n : ℕ)
    → o + n ≤ offset
    → slice (copy_at bytes offset value) o n ≡ slice bytes o n
slice-copy_at_before bytes zero value zero zero h = refl
slice-copy_at_before bytes zero value zero (suc n) h = absurd (omega arith)
slice-copy_at_before bytes zero value (suc o) n h = absurd (omega arith)
slice-copy_at_before [] (suc offset) value o n h = refl
slice-copy_at_before (x ∷ bytes) (suc offset) value zero zero h = refl
slice-copy_at_before (x ∷ bytes) (suc offset) value zero (suc n) h =
    ap (λ (l : List ℕ). x ∷ l) (slice-copy_at_before bytes offset value zero n (omega arith))
slice-copy_at_before (x ∷ bytes) (suc offset) value (suc o) n h =
    slice-copy_at_before bytes offset value o n (omega arith)

length-overlay : (bytes value : List ℕ) → length (overlay bytes value) ≡ length bytes
length-overlay [] value = refl
length-overlay (x ∷ bytes) [] = refl
length-overlay (x ∷ bytes) (y ∷ value) = ap suc (length-overlay bytes value)

pub length-copy_at :
    (bytes : List ℕ) (offset : ℕ) (value : List ℕ)
    → length (copy_at bytes offset value) ≡ length bytes
length-copy_at bytes zero value = length-overlay bytes value
length-copy_at [] (suc offset) value = refl
length-copy_at (x ∷ bytes) (suc offset) value = ap suc (length-copy_at bytes offset value)

-- `|` of a digit of `n` bits and of the digits above it.
or-digits :
    (n a b c d : ℕ)
    → a < 2 ^ n
    → c < 2 ^ n
    → bit_or (a + 2 ^ n * b) (c + 2 ^ n * d) ≡ bit_or a c + 2 ^ n * bit_or b d
or-digits zero a b c d h k =
    ap₂ (λ (x y : ℕ). bit_or x y) {x = a + 2 ^ 0 * b} {y = b} {u = c + 2 ^ 0 * d} {v = d}
      (omega arith) (omega arith)
    ∙ ground (
      arith,
      ap₂ (λ (x y : ℕ). bit_or x y) {x = a} {y = 0} {u = c} {v = 0} (omega arith) (omega arith),
    )
or-digits (suc n) a b c d h k =
    or_step (a + 2 ^ suc n * b) (c + 2 ^ suc n * d)
    ∙ ground (
      arith,
      ap₂ (λ (x y : ℕ). bit_or x y) (halved a b) (halved c d),
      parity a b,
      parity c d,
      or_step a c,
      or-digits n (a / 2) b (c / 2) d (omega (arith, pow-suc 2 n)) (omega (arith, pow-suc 2 n)),
      ap (λ (t : ℕ). t * bit_or b d) (pow-suc 2 n),
    )
  where
    double : (b : ℕ) → 2 ^ suc n * b ≡ 2 * (2 ^ n * b)
    double b = ground (arith, ap (λ (t : ℕ). t * b) (pow-suc 2 n))

    halved : (a b : ℕ) → (a + 2 ^ suc n * b) / 2 ≡ a / 2 + 2 ^ n * b
    halved a b = omega (arith, double b)

    parity : (a b : ℕ) → (a + 2 ^ suc n * b) % 2 ≡ a % 2
    parity a b = omega (arith, double b)

-- A word that is or-ed is its bytes or-ed.
pub or_word-or_bytes :
    (bytes : List ℕ) (perm : ℕ)
    → ((k : ℕ) → get_or bytes k 0 < 256)
    → perm < 256
    → or_word bytes (length bytes) perm ≡ or_bytes bytes perm
or_word-or_bytes [] perm h p = refl
or_word-or_bytes (x ∷ bytes) perm h p =
    let e =
      or-digits 8 x (from_le_bytes bytes) perm (from_le_bytes (replicate (length bytes) perm)) (h 0)
        p in
    let b = or_bound 8 x perm (h 0) p in
    ap₂ (λ (t : ℕ) (l : List ℕ). t ∷ l) (omega (arith, e, b))
      (ap (to_le_bytes (length bytes)) (omega (arith, e, b))
        ∙ or_word-or_bytes bytes perm (λ k. h (suc k)) p)
