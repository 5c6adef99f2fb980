-- ===== src/Cpu/State/Counts.antt =====
-- The fuel and the instruction count of icicle-cpu/src/cpu.rs.
use icicle_emu.Base.{
  ℕ, zero, suc, ◌+◌, ◌-◌, ◌≤◌, ◌≡◌, refl, sym, ◌∙◌, ap, arith, Bool, true, false, Option, none,
  some, List, [], ◌∷◌, length, ltb, ◌==◌, if◌then◌else◌,
}
use icicle_emu.Cpu.ExceptionCode.{as_u32}
use icicle_emu.Cpu.State.{
  Cpu, update_fuel, icount, next_instruction, interpret_markers, spend, write_pc, stop_at,
}

-- Where no more fuel remains than was given, new fuel can be set and does not change the
-- instruction count.
pub icount-update_fuel :
    (cpu : Cpu) (new : ℕ)
    → cpu.fuel.remaining ≤ cpu.fuel.start
    → (cpu' : Cpu) × (update_fuel cpu new ≡ some cpu')
      × (cpu'.fuel.remaining ≡ new)
      × (icount cpu' ≡ icount cpu)
unfolding update_fuel icount
icount-update_fuel cpu new h =
    let consumed : ltb cpu.fuel.start cpu.fuel.remaining ≡ false = ground arith in
    let counted : ltb (cpu.count + cpu.fuel.start) cpu.fuel.remaining ≡ false = ground arith in
    let fresh : ltb (cpu.count + (cpu.fuel.start - cpu.fuel.remaining) + new) new ≡ false =
      ground arith in
    (
      record cpu {
        count = cpu.count + (cpu.fuel.start - cpu.fuel.remaining);
        fuel = record { remaining = new; start = new };
      },
      rw consumed refl,
      refl,
      rw (counted, fresh) (ap some (omega arith)),
    )

abbrev next_index : Option ℕ → Option ℕ
next_index none = none
next_index (some i) = some (suc i)

stopped : (r : Option ℕ × Cpu) → ((stop_at r).0 ≡ next_index r.0) × ((stop_at r).1 ≡ r.1)
stopped (none, cpu) = (refl, refl)
stopped (some i, cpu) = (refl, refl)

-- What the fuel makes of a block of `n` instructions: where it stops, the exception and what is left.
abbrev pub IsLimited : ℕ → ℕ → Option ℕ × Cpu → Type 0
IsLimited fuel n r =
    (r.0 ≡ (if ltb fuel n then some fuel else none))
    × (r.1.exception.code ≡ (if ltb fuel n then 1 else 0))
    × (r.1.fuel.remaining ≡ fuel - n)

next-IsLimited :
    (fuel n : ℕ) (r : Option ℕ × Cpu)
    → IsLimited fuel n r
    → IsLimited (suc fuel) (suc n) (stop_at r)
next-IsLimited fuel n r (p, q, t) =
    let (a, b) = stopped r in
    let same : ltb (suc fuel) (suc n) ≡ ltb fuel n = ground arith in
    (
      a
          ∙ ap next_index p
          ∙ next_if (ltb fuel n)
          ∙ ap (λ c. if c then some (suc fuel) else none) (sym same),
      ap (λ (cpu : Cpu). cpu.exception.code) b
          ∙ q
          ∙ ap (λ (c : Bool). if c then 1 else 0) (sym same),
      ap (λ (cpu : Cpu). cpu.fuel.remaining) b ∙ omega (arith, t),
    )
  where
    next_if :
        (c : Bool)
        → next_index (if c then some fuel else none) ≡ (if c then some (suc fuel) else none)
    next_if true = refl
    next_if false = refl

module _ (pc_size : ℕ) where
  -- As many instructions as there is fuel run, and the next one raises the limit.
  limited :
      (addrs : List ℕ) (cpu : Cpu) (fuel : ℕ)
      → cpu.fuel.remaining ≡ fuel
      → cpu.exception.code ≡ 0
      → IsLimited fuel (length addrs) (interpret_markers pc_size addrs cpu)
  unfolding interpret_markers next_instruction write_pc as_u32
  limited [] cpu fuel e h = (ground arith, h ∙ ground arith, omega (arith, e))
  limited (a ∷ addrs) cpu zero e h = rw e (ground arith, ground arith, omega (arith, e))
  limited (a ∷ addrs) cpu (suc fuel) e h =
      let quiet : (cpu.exception.code == 0) ≡ true = ground arith in
      let next = spend pc_size (write_pc pc_size cpu a) a (suc fuel) in
      rw (e, quiet)
        (next-IsLimited fuel (length addrs) (interpret_markers pc_size addrs next)
          (limited addrs next fuel refl h))

  -- A block of instruction markers that starts without an exception runs to its end where the fuel
  -- is enough, and otherwise stops with the instruction limit at the instruction whose offset is
  -- the fuel; what is left is the difference.
  pub interpret_markers-limit :
      (addrs : List ℕ) (cpu : Cpu)
      → cpu.exception.code ≡ 0
      → IsLimited cpu.fuel.remaining (length addrs) (interpret_markers pc_size addrs cpu)
  interpret_markers-limit addrs cpu h = limited addrs cpu cpu.fuel.remaining refl h
