-- ===== src/Mem/RangeMap/Removal/Overlap.antt =====
-- What `get_range` of icicle-mem/src/range_map.rs finds in sorted entries.
use icicle_emu.Base.{
  ℕ, zero, suc, ◌≤◌, ◌<◌, ◌≡◌, refl, ◌∙◌, ap, arith, ◌&&◌, Option, none, some, ◌>>=◌, ◌⊎◌, inl, inr,
  Bool-cases, List, [], ◌∷◌, map, get_elem?, leb, ltb, ◌==◌, max, min, if◌then◌else◌,
}
use icicle_emu.Mem.RangeMap.{
  Search, RangeOverlap, binary_search, after_first, position_before, find_range_before,
  get_overlapping_range_inclusive,
}
use icicle_emu.Mem.RangeMap.Entries.{
  Entry, to_map, IsSorted, lookup, lookup_below, covers, starts_of, search_past, search_first,
}
use icicle_emu.Mem.RangeMap.Removal.{get_overlap, get_range}

overlapping :
    (start end from to : ℕ)
    → start ≤ to
    → from ≤ end
    → (o : RangeOverlap) × (get_overlapping_range_inclusive start end from to ≡ some o)
unfolding get_overlapping_range_inclusive
overlapping start end from to p q = elim (Bool-cases (leb end to && leb from start)) [
  | inl c ↦ (RangeOverlap.full, ground arith)
  | inr c ↦ (RangeOverlap.part (max start from) (min end to), ground arith)
]

module _ {T : Type 0} where
  some_entry : {x y : Entry T} → some x ≡ some y → x ≡ y
  some_entry h = cc

  pub get_elem?-map :
      {B : Type 0} (es : List (Entry T)) (i : ℕ) (e : Entry T) (f : Entry T → B)
      → get_elem? es i ≡ some e
      → get_elem? (map f es) i ≡ some (f e)
  get_elem?-map [] i e f h = absurd (cc h)
  get_elem?-map (x ∷ es) zero e f h = ap (λ (x : Entry T). some (f x)) (some_entry h)
  get_elem?-map (x ∷ es) (suc i) e f h = get_elem?-map es i e f h

  -- The entries are not empty.
  pub get_elem?-ordered :
      (es : List (Entry T)) (low i : ℕ) (e : Entry T)
      → IsSorted low es
      → get_elem? es i ≡ some e
      → (low ≤ e.start) × (e.start ≤ e.end)
  get_elem?-ordered [] low i e s h = absurd (cc h)
  get_elem?-ordered (x ∷ es) low zero e (a, b, c, s) h =
      let p = ap (λ (x : Entry T). x.start) (some_entry h) in
      let q = ap (λ (x : Entry T). x.end) (some_entry h) in (omega (arith, p), omega (arith, p, q))
  get_elem?-ordered (x ∷ es) low (suc i) e (a, b, c, s) h =
      let (p, q) = get_elem?-ordered es (suc x.end) i e s h in (omega arith, q)

  -- What an entry covers is found.
  pub lookup-get_elem? :
      (es : List (Entry T)) (low i k : ℕ) (e : Entry T)
      → IsSorted low es
      → get_elem? es i ≡ some e
      → e.start ≤ k
      → k ≤ e.end
      → lookup es k ≡ some e.value
  lookup-get_elem? [] low i k e s h p q = absurd (cc h)
  lookup-get_elem? (x ∷ es) low zero k e s h p q =
      ap (λ (x : Entry T). if covers x k then some x.value else lookup es k) (some_entry h)
      ∙ ground arith
  lookup-get_elem? (x ∷ es) low (suc i) k e (a, b, c, s) h p q =
      let (l, _) = get_elem?-ordered es (suc x.end) i e s h in
      ground (arith, lookup-get_elem? es (suc x.end) i k e s h p q)

  -- The last range that starts at `t` or before: there is none, or nothing is mapped past its end.
  abbrev IsLast : List (Entry T) → ℕ → Option ℕ → Type 0
  IsLast es t r =
      ((r ≡ none) × ((k : ℕ) → k ≤ t → lookup es k ≡ none))
      ⊎ ((i : ℕ) × (e : Entry T) × (r ≡ some i)
          × (get_elem? es i ≡ some e)
          × (e.start ≤ t)
          × ((k : ℕ) → e.end < k → k ≤ t → lookup es k ≡ none))

  -- With one more entry in front.
  next-IsLast :
      (x : Entry T) (es : List (Entry T)) (t i : ℕ)
      → IsSorted (suc x.end) es
      → IsLast es t (some i)
      → IsLast (x ∷ es) t (some (suc i))
  next-IsLast x es t i s (inl (none_i, f)) = absurd (cc none_i)
  next-IsLast x es t i s (inr (j, e, h, g, l, f)) =
      let (p, q) = get_elem?-ordered es (suc x.end) j e s g in
      inr (
        suc j,
        e,
        ap (λ (o : Option ℕ). o >>= λ n. some (suc n)) h,
        g,
        l,
        λ k m n. ground (arith, f k m n),
      )

  first-IsLast :
      (x : Entry T) (es : List (Entry T)) (t : ℕ)
      → x.start ≤ t
      → IsLast es t none
      → IsLast (x ∷ es) t (some 0)
  first-IsLast x es t l (inl (h, f)) = inr (0, x, refl, refl, l, λ k m n. ground (arith, f k n))
  first-IsLast x es t l (inr (j, e, h, g, m, f)) = absurd (cc h)

  after_first-IsLast :
      (x : Entry T) (es : List (Entry T)) (t : ℕ) (r : Search)
      → IsSorted (suc x.end) es
      → x.start ≤ t
      → IsLast es t (position_before r)
      → IsLast (x ∷ es) t (position_before (after_first r))
  after_first-IsLast x es t (Search.found i) s l h = next-IsLast x es t i s h
  after_first-IsLast x es t (Search.missing zero) s l h = first-IsLast x es t l h
  after_first-IsLast x es t (Search.missing (suc i)) s l h = next-IsLast x es t i s h

  find_range_before-IsLast :
      (es : List (Entry T)) (low t : ℕ)
      → IsSorted low es
      → IsLast es t (find_range_before (starts_of es) t)
  unfolding find_range_before
  find_range_before-IsLast [] low t s = inl (refl, λ k h. refl)
  find_range_before-IsLast (x ∷ es) low t (a, b, c, s) = elim (Bool-cases (leb x.start t)) [
    | inr before ↦
        let here : IsSorted x.start (x ∷ es) = (omega arith, b, c, s) in
        let l : t < x.start = ground arith in
        inl (
          ap position_before (search_first (x ∷ es) x.start t here l),
          λ k h. lookup_below (x ∷ es) x.start k here (omega arith),
        )
    | inl after ↦ elim (Bool-cases (x.start == t)) [
      | inl same ↦ rw same (inr (0, x, refl, refl, ground arith, λ k p q. absurd (ground arith)))
      | inr past ↦ rw (search_past x.start t (starts_of es) (ground arith)) (
          after_first-IsLast x es t (binary_search (starts_of es) t) s (ground arith)
            (find_range_before-IsLast es (suc x.end) t s))
    ]
  ]

  -- The range that is found ends in the target or past it, and without one the target is free.
  abbrev pub IsOverlap : List (Entry T) → ℕ → ℕ → Option (ℕ × ℕ) → Type 0
  IsOverlap es from to r =
      ((r ≡ none) × ((k : ℕ) → from ≤ k → k ≤ to → lookup es k ≡ none))
      ⊎ ((i : ℕ) × (e : Entry T) × (r ≡ some (e.start, e.end))
          × (get_elem? es i ≡ some e)
          × (e.start ≤ to)
          × (from ≤ e.end))

  -- On sorted entries, where no range is found for a target that is not empty the target is free,
  -- and the range that is found is an entry that starts at the end of the target or before and ends
  -- at its start or later.
  pub get_range-IsOverlap :
      (es : List (Entry T)) (low from to : ℕ)
      → IsSorted low es
      → from ≤ to
      → IsOverlap es from to (get_range (to_map es) from to)
  unfolding get_range get_overlap find_range_before get_overlapping_range_inclusive
  get_range-IsOverlap es low from to s l = elim (find_range_before-IsLast es low to s) [
    | inl (e, f) ↦ rw e (inl (refl, λ k p q. f k q))
    | inr (i, x, e, g, p, f) ↦
        let a = get_elem?-map es i x (λ (x : Entry T). x.start) g in
        let b = get_elem?-map {B = ℕ × T} es i x (λ (x : Entry T). (x.end, x.value)) g in
        elim (Bool-cases (ltb x.end from)) [
          | inl past ↦ inl (rw (e, a, b, past) refl, λ k m n. f k (ground arith) n)
          | inr inside ↦
              let (o, c) = overlapping x.start x.end from to p (ground arith) in
              inr (i, x, rw (e, a, b, c, a, b) refl, g, p, ground arith)
        ]
  ]
