-- ===== src/Mem/RangeMap/Split/Updates.antt =====
-- What `apply_updates` of icicle-mem/src/range_map.rs leaves of sorted entries.
use icicle_emu.Base.{
  ℕ, ◌+◌, ◌-◌, ◌≤◌, ◌<◌, ◌≡◌, refl, ◌∙◌, Bool, true, false, ◌&&◌, ◌||◌, inl, inr, Option, none,
  some, List, [], ◌∷◌, if◌then◌else◌, Bool-cases, arith, leb, ltb, u64_mod,
}
use icicle_emu.Mem.RangeMap.Entries.{Entry, to_map, IsSorted, lookup}
use icicle_emu.Mem.RangeMap.Insert.{insert-IsInsertion}
use icicle_emu.Mem.RangeMap.Removal.All.{remove_all_inclusive-IsFreed}
use icicle_emu.Mem.RangeMap.Split.{apply_removals, apply_additions}

-- A piece holds an address.
abbrev pub holds : ℕ → ℕ → ℕ → Bool
holds from size k = leb from k && ltb k (from + size)

abbrev pub in_removals : List (ℕ × ℕ) → ℕ → Bool
in_removals [] k = false
in_removals ((from, size) ∷ r) k = holds from size k || in_removals r k

abbrev pub AllPositive : List (ℕ × ℕ) → Type 0
AllPositive [] = Unit {0}
AllPositive ((from, size) ∷ r) = 0 < size × AllPositive r

module _ {T : Type 0} where
  abbrev pub in_additions : List (ℕ × ℕ × T) → ℕ → Bool
  in_additions [] k = false
  in_additions ((from, size, d) ∷ r) k = holds from size k || in_additions r k

  abbrev pub value_in : List (ℕ × ℕ × T) → Option T → ℕ → Option T
  value_in [] o k = o
  value_in ((from, size, d) ∷ r) o k = if holds from size k then some d else value_in r o k

  -- From the last to the first, below a bound.
  abbrev pub IsDescending : ℕ → List (ℕ × ℕ × T) → Type 0
  IsDescending bound [] = Unit {0}
  IsDescending bound ((from, size, d) ∷ r) = 0 < size × (from + size ≤ bound × IsDescending from r)

  pub in_additions_below :
      (as' : List (ℕ × ℕ × T)) (bound k : ℕ)
      → IsDescending bound as'
      → bound ≤ k
      → in_additions as' k ≡ false
  in_additions_below [] bound k s h = refl
  in_additions_below ((from, size, d) ∷ r) bound k (p, (q, s)) h =
      ground (arith, in_additions_below r from k s)

  pub value_in_below :
      (as' : List (ℕ × ℕ × T)) (bound k : ℕ) (o : Option T)
      → IsDescending bound as'
      → bound ≤ k
      → value_in as' o k ≡ o
  value_in_below [] bound k o s h = refl
  value_in_below ((from, size, d) ∷ r) bound k o (p, (q, s)) h =
      ground (arith, value_in_below r from k o s)

  pub apply_removals-lookup :
      (es : List (Entry T)) (rs : List (ℕ × ℕ))
      → IsSorted 0 es
      → AllPositive rs
      → (es' : List (Entry T)) × (apply_removals (to_map es) rs ≡ some (to_map es'))
        × IsSorted 0 es'
        × ((k : ℕ) → lookup es' k ≡ (if in_removals rs k then none else lookup es k))
  apply_removals-lookup es [] s p = (es, refl, s, λ k. refl)
  apply_removals-lookup es ((from, size) ∷ rs) s (p, q) =
      let (es', e, s', f) =
        remove_all_inclusive-IsFreed es 0 from (from + (size - 1)) s (omega arith) in
      let (es'', e', s'', f') = apply_removals-lookup es' rs s' q in
      (es'', rw e e', s'', λ k. ground (arith, f k, f' k))

module _ {T : Type 0} (eq : T → T → Bool) (sound : (a b : T) → eq a b ≡ true → a ≡ b) where
  pub apply_additions-lookup :
      (es : List (Entry T)) (as' : List (ℕ × ℕ × T)) (bound : ℕ)
      → IsSorted 0 es
      → IsDescending bound as'
      → bound ≤ u64_mod
      → ((k : ℕ) → (if in_additions as' k then lookup es k else none) ≡ none)
      → (es' : List (Entry T)) × (apply_additions eq (to_map es) as' ≡ some (to_map es'))
        × IsSorted 0 es'
        × ((k : ℕ) → lookup es' k ≡ value_in as' (lookup es k) k)
  apply_additions-lookup es [] bound s d l free = (es, refl, s, λ k. refl)
  apply_additions-lookup es ((from, size, d) ∷ r) bound s (p, (q, t)) l free =
      elim (insert-IsInsertion eq sound from (from + (size - 1)) d (omega arith) (omega arith) es 0
        s (omega arith)) [
          | inl (es', e, s', f, _) ↦
              let (es'', e', s'', f') =
                apply_additions-lookup es' r from s' t (omega arith) (still es' f) in
              (es'', rw e e', s'', λ k. f' k ∙ last es' f k)
          | inr (a, b, e, g, h, (v, m)) ↦ absurd (ground (arith, free a))
        ]
    where
      still :
          (es' : List (Entry T))
          → ((k : ℕ)
              → lookup es' k
                ≡ (if leb from k && leb k (from + (size - 1)) then some d else lookup es k))
          → (k : ℕ) → (if in_additions r k then lookup es' k else none) ≡ none
      still es' f k = ground (arith, f k, free k, in_additions_below r from k t)

      last :
          (es' : List (Entry T))
          → ((k : ℕ)
              → lookup es' k
                ≡ (if leb from k && leb k (from + (size - 1)) then some d else lookup es k))
          → (k : ℕ)
          → value_in r (lookup es' k) k
            ≡ (if holds from size k then some d else value_in r (lookup es k) k)
      last es' f k = elim (Bool-cases (holds from size k)) [
        | inl h ↦
            rw h (value_in_below r from k (lookup es' k) t (ground arith) ∙ f k ∙ ground arith)
        | inr h ↦ let e : lookup es' k ≡ lookup es k = f k ∙ ground arith in rw (h, e) refl
      ]
