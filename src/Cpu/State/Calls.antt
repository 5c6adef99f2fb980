-- ===== src/Cpu/State/Calls.antt =====
-- The shadow stack of icicle-cpu/src/cpu.rs as a list of return addresses.
use icicle_emu.Base.{
  ℕ, zero, suc, ◌+◌, ◌≤◌, ◌<◌, ◌≡◌, refl, sym, ◌∙◌, ap, arith, Bool, true, false, Option, none,
  some, List, [], ◌∷◌, ◌++◌, length, take, set, leb, ◌==◌, if◌then◌else◌, Bool-cases, inl, inr,
  length-set, length-take, length-append, take-length_append, u64_max, ◌⊎◌,
}
use icicle_emu.Cpu.ExceptionCode.{ExceptionCode}
use icicle_emu.Cpu.State.{
  Cpu, ShadowStack, ShadowStackEntry, shadow_stack_size, as_slice, raise, push_shadow_stack,
  find_last, pop_shadow_stack,
}

-- A stack of 4096 entries, of which the first are in use.
abbrev pub IsStack : ShadowStack → Type 0
IsStack s = (length s.stack ≡ shadow_stack_size) × (s.offset ≤ shadow_stack_size)

take-set :
    {A : Type 0} (xs : List A) (i : ℕ) (v : A)
    → i < length xs
    → take (suc i) (set xs i v) ≡ take i xs ++ v ∷ []
take-set [] i v h = absurd (omega arith)
take-set (x ∷ xs) zero v h = refl
take-set (x ∷ xs) (suc i) v h = ap (◌∷◌ x) (take-set xs i v (omega arith))

-- The result of a call: one more address, or an exception on a full stack.
abbrev pub IsPushed : Cpu → ℕ → Cpu → Type 0
IsPushed cpu addr cpu' =
    IsStack cpu'.shadow_stack
    × (((as_slice cpu.shadow_stack ++ record { addr = addr; block = u64_max } ∷ []
            ≡ as_slice cpu'.shadow_stack)
          × (cpu'.exception ≡ cpu.exception))
        ⊎ ((cpu.shadow_stack.offset ≡ shadow_stack_size)
            × (cpu' ≡ raise ExceptionCode.shadow_stack_overflow addr cpu)))

-- On a shadow stack of 4096 entries a call keeps it so and adds the return address on top of the
-- entries in use, without an exception; on a full stack it raises the overflow and changes nothing
-- else.
pub push_shadow_stack-IsPushed :
    (cpu : Cpu) (addr : ℕ)
    → IsStack cpu.shadow_stack
    → IsPushed cpu addr (push_shadow_stack cpu addr)
unfolding push_shadow_stack as_slice
push_shadow_stack-IsPushed cpu addr (l, o) =
    elim (Bool-cases (leb shadow_stack_size cpu.shadow_stack.offset)) [
      | inl full ↦ rw full ((l, o), inr (ground arith, refl))
      | inr room ↦
          let i = cpu.shadow_stack.offset in
          let e : ShadowStackEntry = record { addr = addr; block = u64_max } in
          let new : take (i + 1) (set cpu.shadow_stack.stack i e)
              ≡ take i cpu.shadow_stack.stack ++ e ∷ [] =
            ap (λ (n : ℕ). take n (set cpu.shadow_stack.stack i e)) {x = i + 1} {y = suc i}
              (omega arith)
            ∙ take-set cpu.shadow_stack.stack i e (ground (arith, l)) in
          rw room ((length-set cpu.shadow_stack.stack i e ∙ l, ground arith), inl (sym new, refl))
    ]

-- The last entry with the target, of which there is none after `find_last`.
abbrev pub has_addr : List ShadowStackEntry → ℕ → Bool
has_addr [] target = false
has_addr (e ∷ entries) target = if target == e.addr then true else has_addr entries target

abbrev pub IsLast : List ShadowStackEntry → ℕ → Option ℕ → Type 0
IsLast entries target r =
    ((r ≡ none) × (has_addr entries target ≡ false))
    ⊎ ((before after : List ShadowStackEntry) × (e : ShadowStackEntry) × (r ≡ some (length before))
        × (entries ≡ before ++ e ∷ after)
        × (e.addr ≡ target)
        × (has_addr after target ≡ false))

find_last-IsLast :
    (entries : List ShadowStackEntry) (target : ℕ)
    → IsLast entries target (find_last entries target)
unfolding find_last
find_last-IsLast [] target = inl (refl, refl)
find_last-IsLast (x ∷ entries) target = elim (find_last-IsLast entries target) [
  | inl (n, h) ↦ elim (Bool-cases (target == x.addr)) [
    | inl here ↦ rw (n, here) (inr ([], entries, x, refl, refl, ground arith, h))
    | inr other ↦ rw (n, other) (inl (refl, h))
  ]
  | inr (before, after, e, f, s, a, h) ↦ rw f (inr (x ∷ before, after, e, refl, ap (◌∷◌ x) s, a, h))
]

-- The result of a return: the stack below the last entry with the target, or an exception.
abbrev pub IsPopped : Cpu → ℕ → Cpu → Type 0
IsPopped cpu target cpu' =
    IsStack cpu'.shadow_stack
    × (((before after : List ShadowStackEntry) × (e : ShadowStackEntry) × (as_slice cpu.shadow_stack
            ≡ before ++ e ∷ after)
          × (e.addr ≡ target)
          × (has_addr after target ≡ false)
          × (as_slice cpu'.shadow_stack ≡ before)
          × (cpu'.exception ≡ cpu.exception))
        ⊎ ((has_addr (as_slice cpu.shadow_stack) target ≡ false)
            × (cpu' ≡ raise ExceptionCode.shadow_stack_invalid target cpu)))

take-take : {A : Type 0} (xs : List A) (m n : ℕ) → m ≤ n → take m (take n xs) ≡ take m xs
take-take xs zero n h = refl
take-take [] (suc m) zero h = refl
take-take [] (suc m) (suc n) h = refl
take-take (x ∷ xs) (suc m) zero h = absurd (omega arith)
take-take (x ∷ xs) (suc m) (suc n) h = ap (◌∷◌ x) (take-take xs m n (omega arith))

take-prefix :
    {A : Type 0} (xs before after : List A) (n : ℕ)
    → take n xs ≡ before ++ after
    → (take (length before) xs ≡ before) × (length before ≤ n)
take-prefix xs before after n h =
    let l : length before ≤ n =
      omega (arith, length-take n xs, ap length h, length-append before after) in
    (
      sym (take-take xs (length before) n l)
          ∙ ap (take (length before)) h
          ∙ take-length_append before after,
      l,
    )

-- On a shadow stack of 4096 entries a return leaves the entries below the last one with the target,
-- without an exception; where no entry in use has the target it raises the exception and changes
-- nothing else.
pub pop_shadow_stack-IsPopped :
    (cpu : Cpu) (target : ℕ)
    → IsStack cpu.shadow_stack
    → IsPopped cpu target (pop_shadow_stack cpu target)
unfolding pop_shadow_stack as_slice
pop_shadow_stack-IsPopped cpu target (l, o) =
    elim (find_last-IsLast (as_slice cpu.shadow_stack) target) [
      | inl (n, h) ↦ rw n ((l, o), inr (h, refl))
      | inr (before, after, e, f, s, a, h) ↦
          let (t, b) =
            take-prefix cpu.shadow_stack.stack before (e ∷ after) cpu.shadow_stack.offset s in
          rw f ((l, omega (arith, b, o)), inl (before, after, e, s, a, h, t, refl))
    ]
