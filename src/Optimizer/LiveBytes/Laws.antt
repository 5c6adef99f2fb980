-- ===== src/Optimizer/LiveBytes/Laws.antt =====
-- `LiveBytes` of icicle-cpu/src/lifter/optimize.rs as sets of bytes.
use native.Mathlib.Nat.{pow-suc, one-le-pow, pow-le-pow_right}
use icicle_emu.Base.{
  ℕ, zero, suc, ◌+◌, ◌-◌, ◌^◌, ◌≤◌, ◌<◌, ◌≡◌, ◌∙◌, ap, arith, Bool, true, false, not, ◌&&◌, ◌||◌,
  bit_and, bit_or, ◌==◌, ==_iff, leb, ltb, Bool-cases, inl, inr, u64_max,
}
use icicle_emu.Base.Bits.{
  bit_at, bit_at-zero, bit_at-pow, bit_at-complement, bit_at-bit_and, bit_at-bit_or,
}
use icicle_emu.Optimizer.LiveBytes.{add_bytes, subtract_bytes, any_bytes}

-- Byte `k` is one of the `size` bytes from `byte` on.
abbrev pub in_range : ℕ → ℕ → ℕ → Bool
in_range size byte k = leb byte k && ltb k (byte + size)

pub bit_at-add_bytes :
    (size byte set k : ℕ)
    → bit_at (add_bytes size byte set) k ≡ (bit_at set k || in_range size byte k)
bit_at-add_bytes zero byte set k = ground arith
bit_at-add_bytes (suc size) byte set k =
    bit_at-add_bytes size (suc byte) (bit_or set (2 ^ byte)) k
    ∙ ap (λ c. c || in_range size (suc byte) k) (bit_at-bit_or k set (2 ^ byte))
    ∙ ground (arith, bit_at-pow byte k)

pub bit_at-subtract_bytes :
    (size byte set k : ℕ)
    → byte + size ≤ 64
    → k < 64
    → bit_at (subtract_bytes size byte set) k ≡ (bit_at set k && not (in_range size byte k))
bit_at-subtract_bytes zero byte set k h l = ground arith
bit_at-subtract_bytes (suc size) byte set k h l =
    let below = pow-le-pow_right {n = 2} (omega arith) {i = suc byte} {j = 64} (omega arith) in
    let complement =
      bit_at-complement 64 k (2 ^ byte) l
        (omega (arith, pow-suc 2 byte, one-le-pow byte 2 (omega arith))) in
    bit_at-subtract_bytes size (suc byte) (bit_and set (u64_max - 2 ^ byte)) k (omega arith) l
    ∙ ap (λ c. c && not (in_range size (suc byte) k)) (bit_at-bit_and k set (u64_max - 2 ^ byte))
    ∙ ground (arith, complement, bit_at-pow byte k)

-- Where no byte is set, none of them is a member.
pub any_bytes_none :
    (size byte set k : ℕ)
    → any_bytes size byte set ≡ false
    → in_range size byte k ≡ true
    → bit_at set k ≡ false
any_bytes_none zero byte set k h r = absurd (ground arith)
any_bytes_none (suc size) byte set k h r = elim (Bool-cases (bit_and set (2 ^ byte) == 0)) [
  | inl free ↦ elim (Bool-cases (byte == k)) [
    | inl here ↦ ground (
      arith,
      bit_at-bit_and k set (2 ^ byte),
      bit_at-pow byte k,
      ap (λ (t : ℕ). bit_at t k) ((==_iff _ 0).0 free),
      bit_at-zero k,
    )
    | inr there ↦ any_bytes_none size (suc byte) set k (rw free at h) (ground arith)
  ]
  | inr used ↦ absurd (ground arith)
]
