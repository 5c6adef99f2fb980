-- ===== src/Mem/Align.antt =====
-- `align_up`, `align_down` and the layout of allocations in icicle-mem/src/lib.rs. `none` is a failed
-- assertion or an overflow.
pub mod Laws
use icicle_emu.Base.{
  ℕ, zero, suc, ◌+◌, ◌-◌, ◌*◌, ◌/◌, ◌%◌, ◌^◌, Option, none, some, bit_and, ltb, leb, ◌==◌,
  if◌then◌else◌, u64_mod, u64_max,
}

-- `AllocLayout`
pub record AllocLayout : Type 0 where
  pub addr : Option ℕ
  pub size : ℕ
  pub align : ℕ

abbrev pub count_bits : ℕ → ℕ → ℕ
count_bits zero n = 0
count_bits (suc w) n = n % 2 + count_bits w (n / 2)

-- `u64::count_ones`
unfoldable pub count_ones : ℕ → ℕ
count_ones n = count_bits 64 n

unfoldable pub align_up : ℕ → ℕ → Option ℕ
unfolding count_ones
align_up value alignment =
    let mask = alignment - 1 in
    let aligned = value + bit_and (alignment - bit_and value mask) mask in
    if count_ones alignment == 1 then (if ltb aligned u64_mod then some aligned else none) else none

unfoldable pub align_down : ℕ → ℕ → Option ℕ
unfolding count_ones
align_down value alignment =
    if count_ones alignment == 1 then some (bit_and value (u64_max - (alignment - 1))) else none

-- `checked_next_power_of_two`: the first of `n` powers of two from `p` on.
abbrev pub power_from : ℕ → ℕ → ℕ → Option ℕ
power_from zero p value = none
power_from (suc n) p value =
    let rest = power_from n (p * 2) value in if leb value p then some p else rest

unfoldable pub checked_next_power_of_two : ℕ → Option ℕ
checked_next_power_of_two value = power_from 64 1 value
