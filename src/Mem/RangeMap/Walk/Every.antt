-- ===== src/Mem/RangeMap/Walk/Every.antt =====
-- The items of a range of icicle-mem/src/range_map.rs stand for each of its addresses.
use icicle_emu.Base.{
  ℕ, ◌+◌, ◌-◌, ◌≤◌, ◌<◌, ◌≡◌, ◌⊎◌, ◌↔◌, refl, arith, Bool, true, false, ◌&&◌, inl, inr, Option,
  List, [], ◌∷◌, Bool-cases, if◌then◌else◌, leb, ltb,
}
use icicle_emu.Mem.RangeMap.Entries.{Entry, lookup}
use icicle_emu.Mem.RangeMap.Walk.{Item, all_items}
use icicle_emu.Mem.RangeMap.Walk.Cover.{IsCover}

module _ {T : Type 0} (good : Option T → Bool) (es : List (Entry T)) where
  -- All addresses pass the test, or one does not.
  abbrev EveryOr : ℕ → ℕ → Bool → Type 0
  EveryOr start len r =
      ((r ≡ true) × ((k : ℕ) → start ≤ k → k < start + len → good (lookup es k) ≡ true))
      ⊎ ((r ≡ false) × ((k : ℕ) × (start ≤ k) × (k < start + len) × (good (lookup es k) ≡ false)))

  all_items-EveryOr :
      (start len : ℕ) (items : List (Item T))
      → IsCover es start len items
      → EveryOr start len (all_items good items)
  all_items-EveryOr start len [] c = inl (refl, λ k p q. absurd (omega (arith, c)))
  all_items-EveryOr start len (x ∷ items) (p, a, b, f, c) = elim (Bool-cases (good x.value)) [
    | inr h ↦
        let e : lookup es x.from ≡ x.value = ground (arith, f x.from) in
        inr (rw h refl, (x.from, a, omega (arith, b), rw e h))
    | inl h ↦ elim (all_items-EveryOr start (x.from - start) items c) [
      | inr (e, (k, l, m, r)) ↦ inr (rw h e, (k, l, omega (arith, b), r))
      | inl (e, g) ↦ inl (
        rw h e,
        λ k l m. elim (Bool-cases (leb x.from k)) [
          | inl i ↦ let e' : lookup es k ≡ x.value = ground (arith, f k) in rw e' h
          | inr i ↦ g k l (ground arith)
        ],
      )
    ]
  ]

  -- Every address of a range passes the test.
  abbrev pub IsEvery : ℕ → ℕ → Type 0
  IsEvery start len =
      (k : ℕ) → (if leb start k && ltb k (start + len) then good (lookup es k) else true) ≡ true

  pub all_items-IsEvery :
      (start len : ℕ) (items : List (Item T))
      → IsCover es start len items
      → (all_items good items ≡ true) ↔ IsEvery start len
  all_items-IsEvery start len items c = elim (all_items-EveryOr start len items c) [
    | inl (a, g) ↦ ((λ _ k. ground (arith, g k)), λ _. a)
    | inr (a, (k, i, j, f)) ↦ ((λ b. absurd (cc (a, b))), λ all. absurd (ground (arith, all k)))
  ]
