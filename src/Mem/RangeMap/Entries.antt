-- ===== src/Mem/RangeMap/Entries.antt =====
-- The contents of a `VecRangeMap` of icicle-mem/src/range_map.rs as one list of entries, and what a
-- lookup in sorted entries finds.
use icicle_emu.Base.{
  ℕ, zero, suc, ◌≤◌, ◌<◌, ◌≡◌, refl, sym, ◌∙◌, arith, Bool, ◌&&◌, Option, none, some, ◌>>=◌,
}
use icicle_emu.Base.{
  List, [], ◌∷◌, map, leb, ◌==◌, if◌then◌else◌, lt→ltb, Bool-cases, inl, inr, u64_mod,
}
use icicle_emu.Mem.RangeMap.{
  VecRangeMap, Search, binary_search, after_first, position_before, find_range_before, entry_at,
  get_with_range, get,
}

pub record Entry {ℓ} (T : Type ℓ) : Type ℓ where
  pub start : ℕ
  pub end : ℕ
  pub value : T

pub search_past :
    (x k : ℕ) (xs : List ℕ) → x < k → binary_search (x ∷ xs) k ≡ after_first (binary_search xs k)
search_past x k xs h = ground arith

module _ {T : Type 0} where
  abbrev pub to_map : List (Entry T) → VecRangeMap T
  to_map es = record {
    starts = map (λ (e : Entry T). e.start) es;
    values = map (λ (e : Entry T). (e.end, e.value)) es;
  }

  -- The ranges are not empty, end in 64 bits, do not overlap and ascend, from `low` on.
  abbrev pub IsSorted : ℕ → List (Entry T) → Type 0
  IsSorted low [] = Unit {0}
  IsSorted low (e ∷ es) =
      (low ≤ e.start) × (e.start ≤ e.end) × (e.end < u64_mod) × IsSorted (suc e.end) es

  abbrev pub covers : Entry T → ℕ → Bool
  covers e k = leb e.start k && leb k e.end

  -- The value of the entry that covers `k`.
  abbrev pub lookup : List (Entry T) → ℕ → Option T
  lookup [] k = none
  lookup (e ∷ es) k = if covers e k then some e.value else lookup es k

  pub weaken :
      (es : List (Entry T)) (low low' : ℕ) → low' ≤ low → IsSorted low es → IsSorted low' es
  weaken [] low low' h s = tt
  weaken (e ∷ es) low low' h s = (omega (arith, s.0), s.1, s.2, s.3)

  -- Nothing is found below the first range.
  pub lookup_below :
      (es : List (Entry T)) (low k : ℕ) → IsSorted low es → k < low → lookup es k ≡ none
  lookup_below [] low k s h = refl
  lookup_below (e ∷ es) low k s h = ground (arith, s.0, s.1, lookup_below es (suc e.end) k s.3)

  abbrev pub starts_of : List (Entry T) → List ℕ
  starts_of es = map (λ (e : Entry T). e.start) es

  -- The search before the first range, and past it.
  pub search_first :
      (es : List (Entry T)) (low k : ℕ)
      → IsSorted low es
      → k < low
      → binary_search (starts_of es) k ≡ Search.missing 0
  search_first [] low k s h = refl
  search_first (e ∷ es) low k s h = ground (arith, s.0)

  get_past :
      (e : Entry T) (es : List (Entry T)) (k : ℕ)
      → e.start < k
      → e.end < k
      → get (to_map (e ∷ es)) k ≡ get (to_map es) k
  unfolding get get_with_range find_range_before
  get_past e es k h past =
      rw (search_past e.start k (starts_of es) h) (by_search (binary_search (starts_of es) k))
    where
      by_search :
          (r : Search)
          → (position_before (after_first r) >>= entry_at (to_map (e ∷ es)) k >>= λ r. some r.2)
            ≡ (position_before r >>= entry_at (to_map es) k >>= λ r. some r.2)
      by_search (Search.found i) = refl
      by_search (Search.missing zero) = rw (lt→ltb e.end k past) refl
      by_search (Search.missing (suc i)) = refl

  -- On sorted entries the lookup by binary search finds the value of the entry that covers the
  -- address, and nothing where there is none.
  pub get-lookup :
      (es : List (Entry T)) (low k : ℕ) → IsSorted low es → get (to_map es) k ≡ lookup es k
  unfolding get get_with_range find_range_before
  get-lookup [] low k s = refl
  get-lookup (e ∷ es) low k (p, q, r, s) = elim (Bool-cases (leb e.start k)) [
    | inr before ↦
        let here : IsSorted e.start (e ∷ es) = (omega arith, q, r, s) in
        let h : k < e.start = ground arith in
        rw (search_first (e ∷ es) e.start k here h) (sym (lookup_below (e ∷ es) e.start k here h))
    | inl after ↦ elim (Bool-cases (leb k e.end)) [
      | inl inside ↦ elim (Bool-cases (k == e.start)) [
        | inl same ↦ ground arith
        | inr other ↦
            rw
              (
                search_past e.start k (starts_of es) (ground arith),
                search_first es (suc e.end) k s (ground arith),
              )
              (ground arith)
      ]
      | inr past ↦
          get_past e es k (ground arith) (ground arith) ∙ get-lookup es _ k s ∙ ground arith
    ]
  ]
