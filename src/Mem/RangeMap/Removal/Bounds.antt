-- ===== src/Mem/RangeMap/Removal/Bounds.antt =====
-- The ranges between which `remove_all` of icicle-mem/src/range_map.rs works, on sorted entries.
use icicle_emu.Base.{
  ℕ, suc, ◌+◌, ◌≤◌, ◌<◌, ◌≡◌, refl, arith, Bool-cases, inl, inr, List, [], ◌∷◌, map, length, leb,
  ltb, ◌==◌, if◌then◌else◌, u64_max, u64_mod,
}
use icicle_emu.Mem.RangeMap.{
  VecRangeMap, Search, binary_search, after_first, position, lower_bound, upper_bound,
}
use icicle_emu.Mem.RangeMap.Entries.{Entry, to_map, IsSorted, search_past}

position-after_first : (r : Search) → position (after_first r) ≡ suc (position r)
position-after_first (Search.found i) = refl
position-after_first (Search.missing i) = refl

module _ {T : Type 0} where
  -- The index past the last range that overlaps.
  abbrev pub upper_of : VecRangeMap T → ℕ → ℕ
  upper_of m target_end =
      if target_end == u64_max then length m.starts else upper_bound m.starts (target_end + 1)

  pub lower_past :
      (e : Entry T) (es : List (Entry T)) (k : ℕ)
      → e.end < k
      → lower_bound (to_map (e ∷ es)).values k ≡ suc (lower_bound (to_map es).values k)
  unfolding lower_bound
  lower_past e es k h =
      rw (search_past e.end k (map (λ (v : ℕ × T). v.0) (to_map es).values) h)
        (position-after_first (binary_search (map (λ (v : ℕ × T). v.0) (to_map es).values) k))

  pub lower_here :
      (e : Entry T) (es : List (Entry T)) (k : ℕ)
      → k ≤ e.end
      → lower_bound (to_map (e ∷ es)).values k ≡ 0
  unfolding lower_bound
  lower_here e es k h = ground arith

  pub upper_past :
      (e : Entry T) (es : List (Entry T)) (k : ℕ)
      → e.start ≤ k
      → upper_of (to_map (e ∷ es)) k ≡ suc (upper_of (to_map es) k)
  unfolding upper_bound
  upper_past e es k h = elim (Bool-cases (k == u64_max)) [
    | inl q ↦ rw q refl
    | inr q ↦
        rw (q, search_past e.start (k + 1) (to_map es).starts (omega arith))
          (position-after_first (binary_search (to_map es).starts (k + 1)))
  ]

  pub upper_here :
      (e : Entry T) (es : List (Entry T)) (k : ℕ)
      → k < e.start
      → e.start < u64_mod
      → upper_of (to_map (e ∷ es)) k ≡ 0
  unfolding upper_bound
  upper_here e es k h l = ground arith

  -- Where no range starts at `k` or before, and where one does.
  pub upper_zero :
      (es : List (Entry T)) (low k : ℕ)
      → IsSorted low es
      → upper_of (to_map es) k ≡ 0
      → IsSorted (suc k) es
  upper_zero [] low k s h = tt
  upper_zero (e ∷ es) low k (a, b, c, s) h = elim (Bool-cases (leb e.start k)) [
    | inl q ↦ absurd (omega (arith, h, upper_past e es k (ground arith)))
    | inr q ↦ (ground arith, b, c, s)
  ]

  pub upper_pos :
      (es : List (Entry T)) (low k u : ℕ)
      → IsSorted low es
      → upper_of (to_map es) k ≡ suc u
      → low ≤ k
  unfolding upper_bound
  upper_pos [] low k u s h = absurd (ground arith)
  upper_pos (e ∷ es) low k u (a, b, c, s) h = elim (Bool-cases (leb e.start k)) [
    | inl q ↦ ground arith
    | inr q ↦ absurd (omega (arith, h, upper_here e es k (ground arith) (omega arith)))
  ]

  pub lower-le-upper :
      (es : List (Entry T)) (low j k : ℕ)
      → IsSorted low es
      → j ≤ k
      → lower_bound (to_map es).values j ≤ upper_of (to_map es) k
  unfolding lower_bound
  lower-le-upper [] low j k s l = omega arith
  lower-le-upper (e ∷ es) low j k (a, b, c, s) l = elim (Bool-cases (ltb e.end j)) [
    | inl q ↦
        rw (lower_past e es j (ground arith), upper_past e es k (ground arith))
          (omega (arith, lower-le-upper es (suc e.end) j k s l))
    | inr q ↦ rw (lower_here e es j (ground arith)) (omega arith)
  ]
