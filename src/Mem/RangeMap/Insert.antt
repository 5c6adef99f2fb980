-- ===== src/Mem/RangeMap/Insert.antt =====
-- `insert_inclusive` of icicle-mem/src/range_map.rs: on sorted entries it adds the range, merged with
-- the ranges that it touches where they have its value, or reports an overlap.
use icicle_emu.Base.{
  ℕ, zero, suc, ◌+◌, ◌≤◌, ◌<◌, ◌≡◌, ◌⊎◌, refl, ap, leb→le, ltb→lt, arith, Bool, true, false, ◌&&◌,
  Option, none, some,
}
use icicle_emu.Base.{
  List, [], ◌∷◌, get_elem?, leb, ◌==◌, if◌then◌else◌, Bool-cases, inl, inr, u64_mod,
}
use icicle_emu.Mem.RangeMap.{
  Inserted, find_range_before, insert_next, insert_after, insert_inclusive, insert_from,
  fits_before, binary_search, Search, position_before, after_first,
}
use icicle_emu.Mem.RangeMap.Entries.{
  Entry, to_map, IsSorted, lookup, lookup_below, search_first, search_past, starts_of,
}
use icicle_emu.Mem.RangeMap.Frame.{lift, insert_unmerged_frame, insert_after_frame}

module _ {T : Type 0} where
  -- The ways that an insertion may end.
  abbrev pub IsInsertion : List (Entry T) → ℕ → ℕ → ℕ → T → Option (Inserted T) → Type 0
  IsInsertion es low start end d r =
      ((es' : List (Entry T)) × (r ≡ some (Inserted.inserted (to_map es')))
        × IsSorted low es'
        × ((k : ℕ) → lookup es' k ≡ (if leb start k && leb k end then some d else lookup es k))
        × ((k : ℕ) → (if leb start k && leb k end then lookup es k else none) ≡ none))
      ⊎ ((p q : ℕ) × (r ≡ some (Inserted.overlap d p q))
          × (start ≤ p)
          × (p ≤ end)
          × ((v : T) × (lookup es p ≡ some v)))

  lift-IsInsertion :
      (e : Entry T) (es : List (Entry T)) (low start end : ℕ) (d : T) (r : Option (Inserted T))
      → low ≤ e.start
      → e.start ≤ e.end
      → e.end < u64_mod
      → e.end < start
      → IsInsertion es (suc e.end) start end d r
      → IsInsertion (e ∷ es) low start end d (lift e r)
  lift-IsInsertion e es low start end d r h1 h2 h3 h4 (inl (es', p, s, found, free)) = inl (
    e ∷ es',
    rw p refl,
    (h1, h2, h3, s),
    λ k. ground (arith, found k),
    λ k. ground (arith, free k),
  )
  lift-IsInsertion e es low start end d r h1 h2 h3 h4 (inr (p, q, g, a, b, (v, h))) =
      inr (p, q, rw g refl, a, b, (v, ground arith))

module _ {T : Type 0} (eq : T → T → Bool) (sound : (a b : T) → eq a b ≡ true → a ≡ b)
    (start end : ℕ) (d : T) (nonempty : start ≤ end) (fits : end < u64_mod) where
  before-IsInsertion :
      (es : List (Entry T)) (low : ℕ)
      → low ≤ start
      → IsSorted (suc start) es
      → IsInsertion es low start end d (insert_next eq (to_map es) none false start end d)
  unfolding insert_next
  before-IsInsertion [] low h s = inl (
    record { start = start; end = end; value = d } ∷ [],
    refl,
    (h, nonempty, fits, tt),
    λ k. refl,
    λ k. ground arith,
  )
  before-IsInsertion (e ∷ es) low h (s, q, r, t) = elim (Bool-cases (leb e.start end)) [
    | inl over ↦
        inr (e.start, end, rw over refl, omega arith, leb→le _ _ over, (e.value, ground arith))
    | inr after ↦ elim (Bool-cases (e.start == end + 1 && eq e.value d)) [
      | inl touch ↦ inl (
        record e { start = start } ∷ es,
        rw (after, touch) refl,
        (h, omega arith, r, t),
        λ k. ground (arith, sound e.value d),
        λ k. ground (arith, lookup_below es (suc e.end) k t),
      )
      | inr apart ↦ inl (
        record { start = start; end = end; value = d } ∷ e ∷ es,
        rw (after, apart) refl,
        (h, nonempty, fits, (ground arith, q, r, t)),
        λ k. refl,
        λ k. ground (arith, lookup_below es (suc e.end) k t),
      )
    ]
  ]

  -- The range that ends right before is extended, and joined with the next if that touches too.
  merged-IsInsertion :
      (e : Entry T) (es : List (Entry T)) (low : ℕ)
      → IsSorted low (e ∷ es)
      → IsSorted (suc end) es
      → start ≡ suc e.end
      → e.value ≡ d
      → IsInsertion
          (e ∷ es)
          low
          start
          end
          d
          (insert_next eq (to_map (record e { end = end } ∷ es)) (some 0) true start end d)
  unfolding insert_next
  merged-IsInsertion e [] low (s, q, r, t) past touch same = inl (
    record e { end = end } ∷ [],
    refl,
    (s, omega arith, fits, tt),
    λ k. ground arith,
    λ k. ground arith,
  )
  merged-IsInsertion e (f ∷ es) low (s, q, r, t) past touch same =
      elim (Bool-cases (f.start == end + 1 && eq f.value d)) [
        | inl both ↦ inl (
          record e { end = f.end } ∷ es,
          rw (after, both) refl,
          (s, ground arith, t.2, t.3),
          λ k. ground (arith, sound f.value d),
          λ k. ground (arith, lookup_below es (suc f.end) k t.3),
        )
        | inr apart ↦ inl (
          record e { end = end } ∷ f ∷ es,
          rw (after, apart) refl,
          (s, ground arith, fits, past),
          λ k. ground arith,
          λ k. ground (arith, lookup_below es (suc f.end) k t.3),
        )
      ]
    where
      after : leb f.start end ≡ false
      after = ground arith

  -- The range before is the first one, and the others start after `start`.
  first-IsInsertion :
      (e : Entry T) (es : List (Entry T)) (low : ℕ)
      → IsSorted low (e ∷ es)
      → e.start ≤ start
      → IsSorted (suc start) es
      → IsInsertion
          (e ∷ es)
          low
          start
          end
          d
          (insert_after eq (to_map (e ∷ es)) 0 start end d (some (e.end, e.value)))
  unfolding insert_after insert_next
  first-IsInsertion e es low (s, q, r, t) h later = elim (Bool-cases (leb start e.end)) [
    | inl over ↦ inr (start, e.end, rw over refl, omega arith, nonempty, (e.value, ground arith))
    | inr past ↦
        elim (Bool-cases
          (start == e.end + 1 && eq e.value d && fits_before eq (get_elem? (starts_of es) 0) end)) [
            | inl touch ↦
                rw (past, touch)
                  (merged-IsInsertion e es low (s, q, r, t) (before_next es later (ground arith))
                    (ground arith) (ground (arith, sound e.value d)))
            | inr apart ↦
                rw
                  (
                    past,
                    apart,
                    insert_unmerged_frame eq e (to_map es) start end d (get_elem? (starts_of es) 0)
                        (get_elem? (to_map es).values 0),
                  )
                  (lift-IsInsertion e es low start end d _ s q r (ground arith)
                    (before-IsInsertion es (suc e.end) (ground arith) later))
          ]
  ]
    where
      before_next :
          (es : List (Entry T))
          → IsSorted (suc start) es
          → fits_before eq (get_elem? (starts_of es) 0) end ≡ true
          → IsSorted (suc end) es
      before_next [] t p = tt
      before_next (f ∷ es) t p = (ltb→lt end f.start p, t.1, t.2, t.3)

  -- The search in the source.
  find-first :
      (e : Entry T) (es : List (Entry T))
      → e.start ≤ start
      → IsSorted (suc start) es
      → position_before (binary_search (starts_of (e ∷ es)) start) ≡ some 0
  find-first e es h later = elim (Bool-cases (e.start == start)) [
    | inl same ↦ rw same refl
    | inr other ↦
        rw
          (
            search_past e.start start (starts_of es) (ground arith),
            search_first es (suc start) start later (omega arith),
          )
          refl
  ]

  find-next :
      (e f : Entry T) (es : List (Entry T))
      → e.start < start
      → f.start ≤ start
      → (i : ℕ) × (position_before (binary_search (starts_of (f ∷ es)) start) ≡ some i)
        × (position_before (binary_search (starts_of (e ∷ f ∷ es)) start) ≡ some (suc i))
  find-next e f es h k =
      let (i, p) = some_position in
      (
        i,
        p,
        rw (search_past e.start start (starts_of (f ∷ es)) h)
            (past_one (binary_search (starts_of (f ∷ es)) start) i p),
      )
    where
      past_one :
          (r : Search) (i : ℕ)
          → position_before r ≡ some i
          → position_before (after_first r) ≡ some (suc i)
      past_one (Search.found j) i p = ap (λ o. elim o [ some j ↦ some (suc j) | none ↦ none ]) p
      past_one (Search.missing zero) i p = absurd (cc p)
      past_one (Search.missing (suc j)) i p =
          ap (λ o. elim o [ some j ↦ some (suc j) | none ↦ none ]) p

      first_or_after : (r : Search) → (i : ℕ) × (position_before (after_first r) ≡ some i)
      first_or_after (Search.found j) = (suc j, refl)
      first_or_after (Search.missing j) = (j, refl)

      some_position :
          (i : ℕ) × (position_before (binary_search (starts_of (f ∷ es)) start) ≡ some i)
      some_position = elim (Bool-cases (f.start == start)) [
        | inl same ↦ (0, rw same refl)
        | inr other ↦
            rw (search_past f.start start (starts_of es) (ground arith))
              (first_or_after (binary_search (starts_of es) start))
      ]

  by_next :
      (e : Entry T) (es : List (Entry T)) (low : ℕ)
      → IsSorted low (e ∷ es)
      → e.start ≤ start
      → (suc e.end ≤ start
          → IsInsertion es (suc e.end) start end d (insert_inclusive eq (to_map es) start end d))
      → IsInsertion (e ∷ es) low start end d (insert_inclusive eq (to_map (e ∷ es)) start end d)
  unfolding insert_inclusive insert_from find_range_before
  by_next e [] low s a rest = rw (find-first e [] a tt) (first-IsInsertion e [] low s a tt)
  by_next e (f ∷ es) low s a rest = elim (Bool-cases (leb f.start start)) [
    | inr later ↦
        let t : IsSorted (suc start) (f ∷ es) = (ground arith, s.3.1, s.3.2, s.3.3) in
        rw (find-first e (f ∷ es) a t) (first-IsInsertion e (f ∷ es) low s a t)
    | inl more ↦
        let past : suc e.end ≤ start = omega (arith, s.3.0, leb→le _ _ more) in
        let (i, p, q) = find-next e f es (omega (arith, s.1)) (leb→le _ _ more) in
        rw
          (
            q,
            insert_after_frame eq e (to_map (f ∷ es)) start end d i
                (get_elem? (to_map (f ∷ es)).values i),
          )
          (lift-IsInsertion e (f ∷ es) low start end d _ s.0 s.1 s.2 (omega arith)
            (rw p at (rest past)))
  ]

  -- Insertion into a map with sorted entries either reports an overlap with a mapped address of the
  -- range, or leaves sorted entries where the range has the new value and every other address has
  -- its old one, and nothing of the range was mapped before.
  pub insert-IsInsertion :
      (es : List (Entry T)) (low : ℕ)
      → IsSorted low es
      → low ≤ start
      → IsInsertion es low start end d (insert_inclusive eq (to_map es) start end d)
  unfolding insert_inclusive insert_from find_range_before
  insert-IsInsertion [] low s h = before-IsInsertion [] low h tt
  insert-IsInsertion (e ∷ es) low s h = elim (Bool-cases (leb e.start start)) [
    | inr before ↦
        rw (search_first (e ∷ es) e.start start (omega arith, s.1, s.2, s.3) (ground arith))
          (before-IsInsertion (e ∷ es) low h (ground arith, s.1, s.2, s.3))
    | inl after ↦
        by_next e es low s (leb→le _ _ after) (λ p. insert-IsInsertion es (suc e.end) s.3 p)
  ]
