-- ===== src/Sleigh/Signed.antt =====
-- The operations of `i64` that sleigh/sleigh-runtime/src uses, on the unsigned reading of its 64 bits.
-- `none` is the panic of a checked operation.
use icicle_emu.Base.{
  ℕ, ◌+◌, ◌-◌, ◌/◌, ◌%◌, ◌^◌, Bool, ◌&&◌, ◌||◌, Option, none, some, leb, ◌==◌, if◌then◌else◌,
  u64_mod,
}
use icicle_emu.Interpreter.IntOp.{add_overflows, sub_overflows}

abbrev pub is_negative : ℕ → Bool
is_negative a = leb (2 ^ 63) a

abbrev pub wrapping_neg : ℕ → ℕ
wrapping_neg a = (u64_mod - a) % u64_mod

abbrev pub checked_neg : ℕ → Option ℕ
checked_neg a = if a == 2 ^ 63 then none else some (wrapping_neg a)

abbrev pub magnitude : ℕ → ℕ
magnitude a = if is_negative a then u64_mod - a else a

abbrev pub checked_sum : ℕ → ℕ → Option ℕ
checked_sum a b = if add_overflows 64 a b then none else some ((a + b) % u64_mod)

abbrev pub checked_difference : ℕ → ℕ → Option ℕ
checked_difference a b = if sub_overflows 64 a b then none else some ((a + u64_mod - b) % u64_mod)

-- The quotient is rounded towards zero.
abbrev pub quotient : ℕ → ℕ → ℕ
quotient a b =
    let q = magnitude a / magnitude b in
    if is_negative a
    then (if is_negative b then q else wrapping_neg q)
    else (if is_negative b then wrapping_neg q else q)

abbrev pub checked_quotient : ℕ → ℕ → Option ℕ
checked_quotient a b =
    if (b == 0) || ((a == 2 ^ 63) && (b == u64_mod - 1)) then none else some (quotient a b)

-- The shift to the right fills with the sign.
abbrev pub arithmetic_shift : ℕ → ℕ → ℕ
arithmetic_shift a k = if is_negative a then a / 2 ^ k + (u64_mod - 2 ^ (64 - k)) else a / 2 ^ k
