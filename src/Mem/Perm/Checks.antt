-- ===== src/Mem/Perm/Checks.antt =====
-- `check` and `check_bytes` of icicle-mem/src/perm.rs, bit by bit.
use native.Mathlib.Nat.{pow-suc}
use icicle_emu.Base.{
  ℕ, zero, suc, ◌-◌, ◌/◌, ◌^◌, ◌<◌, ◌≡◌, refl, ap₂, arith, Bool, true, not, ◌&&◌, ◌||◌, ◌==◌,
  if◌then◌else◌, bit_and, bit_or,
}
use icicle_emu.Base.Bits.{bit_at, bit_at-bit_or, or_step, all_below_sound}
use icicle_emu.Mem.Perm.{MemError, MemResult, check, get_error_kind}
use mathlib.Core.Bool.{beq}

pub or_bound : (n a b : ℕ) → a < 2 ^ n → b < 2 ^ n → bit_or a b < 2 ^ n
or_bound zero a b h k =
    let e : bit_or a b ≡ bit_or 0 0 =
      ap₂ (λ (s t : ℕ). bit_or s t) {x = a} {y = 0} {u = b} {v = 0} (omega arith) (omega arith) in
    omega (arith, e)
or_bound (suc n) a b h k = omega (
  arith,
  or_step a b,
  or_bound n (a / 2) (b / 2) (omega (arith, pow-suc 2 n)) (omega (arith, pow-suc 2 n)),
  pow-suc 2 n,
)

-- What the masks of the source test, for every byte.
abbrev pub has_all : ℕ → Bool
has_all n = bit_at n 0 && bit_at n 1 && bit_at n 2 && bit_at n 3 && bit_at n 4 && bit_at n 7

abbrev pub agrees : ℕ → Bool
agrees n =
    beq (bit_and n 159 == 159) (has_all n)
    && beq (bit_and n 16 == 0) (not (bit_at n 4))
    && beq (bit_and n 2 == 0) (not (bit_at n 1))
    && beq (bit_and n 4 == 0) (not (bit_at n 2))
    && beq (bit_and n 8 == 0) (not (bit_at n 3))
    && beq (bit_and n 1 == 0) (not (bit_at n 0))

abbrev inverts : ℕ → Bool
inverts n =
    beq (bit_at (255 - n) 0) (not (bit_at n 0))
    && beq (bit_at (255 - n) 1) (not (bit_at n 1))
    && beq (bit_at (255 - n) 2) (not (bit_at n 2))
    && beq (bit_at (255 - n) 3) (not (bit_at n 3))
    && beq (bit_at (255 - n) 4) (not (bit_at n 4))
    && beq (bit_at (255 - n) 7) (not (bit_at n 7))

pub table : (n : ℕ) → n < 256 → agrees n ≡ true
table n h = all_below_sound 256 agrees n refl h

inverted : (n : ℕ) → n < 256 → inverts n ≡ true
inverted n h = all_below_sound 256 inverts n refl h

-- The mask asks for permission `k`, which is not given.
abbrev pub is_missing : ℕ → ℕ → ℕ → Bool
is_missing perm mask k = bit_at mask k && not (bit_at perm k)

-- The result by the permissions that are missing: those of bits 0, 1, 2, 3, 4 and 7.
abbrev pub verdict_of : (init read write exec mapped in_code_cache : Bool) → MemResult (Unit {0})
verdict_of init read write exec mapped in_code_cache =
    if mapped
    then MemResult.err MemError.unmapped
    else if read
    then MemResult.err MemError.read_violation
    else if write
    then MemResult.err MemError.write_violation
    else if exec
    then MemResult.err MemError.exec_violation
    else if init
    then MemResult.err MemError.uninitalized
    else if in_code_cache
    then MemResult.err MemError.unknown
    else MemResult.ok tt

abbrev pub verdict : ℕ → ℕ → MemResult (Unit {0})
verdict perm mask =
    let missing = is_missing perm mask in
    verdict_of (missing 0) (missing 1) (missing 2) (missing 3) (missing 4) (missing 7)

abbrev pub passed : MemResult (Unit {0})
passed = MemResult.ok tt

module _ (n : ℕ) (c0 c1 c2 c3 c4 c7 : Bool) where
  pub decided :
      agrees n ≡ true
      → bit_at n 0 ≡ not c0
      → bit_at n 1 ≡ not c1
      → bit_at n 2 ≡ not c2
      → bit_at n 3 ≡ not c3
      → bit_at n 4 ≡ not c4
      → bit_at n 7 ≡ not c7
      → (if bit_and n 159 == 159 then passed else MemResult.err (get_error_kind n))
        ≡ verdict_of c0 c1 c2 c3 c4 c7
  unfolding get_error_kind
  decided h h0 h1 h2 h3 h4 h7 = ground arith

pub masked_bit : (p q m n : Bool) → p ≡ (q || n) → n ≡ not m → p ≡ not (m && not q)
masked_bit p q m n e f = ground arith

-- A permission check reports the first missing permission in the order of mapping, reading,
-- writing, execution and initialisation, and passes exactly when no masked permission is missing.
pub check-verdict : (perm mask : ℕ) → perm < 256 → mask < 256 → check perm mask ≡ verdict perm mask
unfolding check
check-verdict perm mask h k =
    decided (bit_or perm (255 - mask)) _ _ _ _ _ _
      (table _ (or_bound 8 perm (255 - mask) h (omega arith)))
      (bit 0 (ground (arith, inverted mask k))) (bit 1 (ground (arith, inverted mask k)))
      (bit 2 (ground (arith, inverted mask k))) (bit 3 (ground (arith, inverted mask k)))
      (bit 4 (ground (arith, inverted mask k))) (bit 7 (ground (arith, inverted mask k)))
  where
    bit :
        (i : ℕ)
        → bit_at (255 - mask) i ≡ not (bit_at mask i)
        → bit_at (bit_or perm (255 - mask)) i ≡ not (is_missing perm mask i)
    bit i e = masked_bit _ _ _ _ (bit_at-bit_or i perm (255 - mask)) e
