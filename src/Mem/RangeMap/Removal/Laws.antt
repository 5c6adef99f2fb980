-- ===== src/Mem/RangeMap/Removal/Laws.antt =====
-- What `remove_subrange` of icicle-mem/src/range_map.rs leaves.
use mathlib.Core.Path.{subst}
use icicle_emu.Base.{
  ℕ, zero, suc, ◌+◌, ◌-◌, ◌≤◌, ◌≡◌, refl, sym, ◌∙◌, ap, arith, false, ◌&&◌, Option, none, some,
  Bool-cases, Option-cases, inl, inr,
}
use icicle_emu.Base.{List, [], ◌∷◌, get_elem?, leb, ◌==◌, if◌then◌else◌}
use icicle_emu.Mem.RangeMap.{VecRangeMap, RangeOverlap}
use icicle_emu.Mem.RangeMap.Entries.{Entry, to_map, IsSorted, lookup, lookup_below, weaken}
use icicle_emu.Mem.RangeMap.Removal.{cut, remove_subrange}

module _ {T : Type 0} where
  -- The range that an overlap stands for, and that it is one of the entry's.
  abbrev pub overlap_range : Entry T → RangeOverlap → ℕ × ℕ
  overlap_range e (RangeOverlap.part s t) = (s, t)
  overlap_range e RangeOverlap.full = (e.start, e.end)

  abbrev pub IsPart : Entry T → RangeOverlap → Type 0
  IsPart e (RangeOverlap.part s t) =
      (e.start ≤ s) × (s ≤ t) × (t ≤ e.end) × ((e.start == s && e.end == t) ≡ false)
  IsPart e RangeOverlap.full = Unit {0}

  -- What is left, and what is returned.
  abbrev pub IsRemoval :
      List (Entry T) → ℕ → Entry T → RangeOverlap → Option ((T × ℕ × ℕ) × VecRangeMap T) → Type 0
  IsRemoval es low e o r =
      let (s, t) = overlap_range e o in
      (es' : List (Entry T)) × (r ≡ some ((e.value, s, t), to_map es'))
      × IsSorted low es'
      × ((k : ℕ) → lookup es' k ≡ (if leb s k && leb k t then none else lookup es k))

  -- With one more range in front, which does not overlap.
  abbrev pub lift :
      Entry T → Option ((T × ℕ × ℕ) × VecRangeMap T) → Option ((T × ℕ × ℕ) × VecRangeMap T)
  lift f none = none
  lift f (some (x, m)) =
      some (x, record { starts = f.start ∷ m.starts; values = (f.end, f.value) ∷ m.values })

  some_entry : {x y : Entry T} → some x ≡ some y → x ≡ y
  some_entry h = cc

  first-IsRemoval :
      (e : Entry T) (es : List (Entry T)) (low : ℕ) (o : RangeOverlap)
      → IsSorted low (e ∷ es)
      → IsPart e o
      → IsRemoval (e ∷ es) low e o (remove_subrange (to_map (e ∷ es)) 0 o)
  unfolding remove_subrange
  first-IsRemoval e es low RangeOverlap.full (a, b, c, s) p = (
    es,
    refl,
    weaken es (suc e.end) low (omega arith) s,
    λ k. ground (arith, lookup_below es (suc e.end) k s),
  )
  first-IsRemoval e es low (RangeOverlap.part s t) (a, b, c, sorted) (p, q, r, part) =
      elim (Bool-cases (e.start == s)) [
        | inl at_start ↦ (
          record e { start = t + 1 } ∷ es,
          rw at_start refl,
          (omega arith, ground arith, c, sorted),
          λ k. ground (arith, lookup_below es (suc e.end) k sorted),
        )
        | inr inner ↦ elim (Bool-cases (e.end == t)) [
          | inl at_end ↦ (
            record e { end = s - 1 } ∷ es,
            rw (inner, at_end) refl,
            (a, ground arith, omega arith, weaken es _ _ (omega arith) sorted),
            λ k. ground (arith, lookup_below es (suc e.end) k sorted),
          )
          | inr split ↦ (
            record e { end = s - 1 } ∷ record e { start = t + 1 } ∷ es,
            rw (inner, split) refl,
            (a, ground arith, omega arith, (omega arith, ground arith, c, sorted)),
            λ k. ground (arith, lookup_below es (suc e.end) k sorted),
          )
        ]
      ]

  cut_frame :
      (f : Entry T) (m : VecRangeMap T) (i start end s t : ℕ) (d : T)
      → cut
          (record { starts = f.start ∷ m.starts; values = (f.end, f.value) ∷ m.values })
          (suc i)
          start
          end
          d
          s
          t
        ≡ (let m' = cut m i start end d s t in
            record { starts = f.start ∷ m'.starts; values = (f.end, f.value) ∷ m'.values })
  cut_frame f m i start end s t d = elim (Bool-cases (start == s)) [
    | inl a ↦ rw a refl
    | inr a ↦ elim (Bool-cases (end == t)) [ inl b ↦ rw (a, b) refl | inr b ↦ rw (a, b) refl ]
  ]

  pub remove_subrange_frame :
      (f : Entry T) (m : VecRangeMap T) (i : ℕ) (o : RangeOverlap)
      → remove_subrange
          (record { starts = f.start ∷ m.starts; values = (f.end, f.value) ∷ m.values })
          (suc i)
          o
        ≡ lift f (remove_subrange m i o)
  unfolding remove_subrange
  remove_subrange_frame f m i RangeOverlap.full = elim (Option-cases (get_elem? m.starts i)) [
    | inl p ↦ rw p refl
    | inr (start, p) ↦ elim (Option-cases (get_elem? m.values i)) [
      | inl q ↦ rw (p, q) refl
      | inr (v, q) ↦ rw (p, q) refl
    ]
  ]
  remove_subrange_frame f m i (RangeOverlap.part s t) = elim (Option-cases (get_elem? m.starts i)) [
    | inl p ↦ rw p refl
    | inr (start, p) ↦ elim (Option-cases (get_elem? m.values i)) [
      | inl q ↦ rw (p, q) refl
      | inr ((end, d), q) ↦
          rw (p, q)
            (ap (λ (n : VecRangeMap T). some ((d, s, t), n)) (cut_frame f m i start end s t d))
    ]
  ]

  entry_low :
      (es : List (Entry T)) (i low : ℕ) (e : Entry T)
      → IsSorted low es
      → get_elem? es i ≡ some e
      → low ≤ e.start
  entry_low [] i low e s g = absurd (cc g)
  entry_low (f ∷ es) zero low e (a, b, c, s) g =
      omega (arith, ap (λ (x : Entry T). x.start) (some_entry g))
  entry_low (f ∷ es) (suc i) low e (a, b, c, s) g = omega (arith, entry_low es i (suc f.end) e s g)

  overlap_low :
      (es : List (Entry T)) (i low : ℕ) (e : Entry T) (o : RangeOverlap)
      → IsSorted low es
      → get_elem? es i ≡ some e
      → IsPart e o
      → low ≤ (overlap_range e o).0
  overlap_low es i low e (RangeOverlap.part s t) sorted g p =
      omega (arith, entry_low es i low e sorted g, p.0)
  overlap_low es i low e RangeOverlap.full sorted g p = entry_low es i low e sorted g

  -- Removing an overlap of one entry returns the value and the range, and leaves sorted entries
  -- where the overlap is unmapped and every other address is as before.
  pub remove_subrange-IsRemoval :
      (es : List (Entry T)) (i : ℕ) (low : ℕ) (e : Entry T) (o : RangeOverlap)
      → IsSorted low es
      → get_elem? es i ≡ some e
      → IsPart e o
      → IsRemoval es low e o (remove_subrange (to_map es) i o)
  remove_subrange-IsRemoval [] i low e o s g p = absurd (cc g)
  remove_subrange-IsRemoval (f ∷ es) zero low e o s g p =
      subst (λ (f : Entry T). IsRemoval (f ∷ es) low e o (remove_subrange (to_map (f ∷ es)) 0 o))
        {x = e} (sym (some_entry g))
        (first-IsRemoval e es low o
          (subst (λ (f : Entry T). IsSorted low (f ∷ es)) (some_entry g) s) p)
  remove_subrange-IsRemoval (f ∷ es) (suc i) low e o (a, b, c, s) g p =
      let (es', r, sorted, found) = remove_subrange-IsRemoval es i (suc f.end) e o s g p in
      (
        f ∷ es',
        remove_subrange_frame f (to_map es) i o ∙ ap (lift f) r,
        (a, b, c, sorted),
        λ k. ground (arith, found k, overlap_low es i (suc f.end) e o s g p),
      )
