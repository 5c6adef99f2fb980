-- ===== src/Mem/RangeMap/Removal/All.antt =====
-- What `remove_all` of icicle-mem/src/range_map.rs leaves of sorted entries.
use icicle_emu.Base.{
  ℕ, zero, suc, ◌+◌, ◌-◌, ◌≤◌, ◌<◌, ◌≡◌, refl, ap, ap₂, sym, ◌∙◌, arith, Bool-cases, Option-cases,
  inl, inr, List, [], ◌∷◌, Option, none, some, ◌&&◌, leb, ltb, ◌==◌, if◌then◌else◌, get_elem?,
  u64_max, ◌>>=◌, max, min, true, false,
}
use icicle_emu.Mem.RangeMap.{
  VecRangeMap, RangeOverlap, set_end, upper_bound, lower_bound, get_overlapping_range_inclusive,
}
use icicle_emu.Mem.RangeMap.Entries.{Entry, to_map, IsSorted, lookup, lookup_below, weaken}
use icicle_emu.Mem.RangeMap.Frame.{in_front}
use icicle_emu.Mem.RangeMap.Removal.{
  trim_first, finish, remove_overlap, remove_single, remove_between, remove_all_inclusive,
  remove_subrange,
}
use icicle_emu.Mem.RangeMap.Removal.Laws.{
  IsPart, overlap_range, lift, remove_subrange_frame, remove_subrange-IsRemoval,
}
use icicle_emu.Mem.RangeMap.Removal.Bounds.{
  upper_of, upper_past, upper_here, upper_zero, upper_pos, lower_past, lower_here, lower-le-upper,
}
use icicle_emu.Mem.RangeMap.Removal.Clear.{finish_frame, finish-IsCleared}

module _ {T : Type 0} where
  abbrev in_front_of : Entry T → Option (VecRangeMap T) → Option (VecRangeMap T)
  in_front_of e none = none
  in_front_of e (some m) = some (in_front e m)

  single_frame :
      (e : Entry T) (m : VecRangeMap T) (l s t : ℕ)
      → remove_single (in_front e m) (suc l) s t ≡ in_front_of e (remove_single m l s t)
  unfolding remove_single
  single_frame e m l s t = elim (Option-cases (get_elem? m.starts l)) [
    | inl p ↦ rw p refl
    | inr (start, p) ↦ elim (Option-cases (get_elem? m.values l)) [
      | inl q ↦ rw (p, q) refl
      | inr ((end, d), q) ↦
          rw (p, q) (overlap_frame (get_overlapping_range_inclusive start end s t))
    ]
  ]
    where
      after_lift :
          (r : Option ((T × ℕ × ℕ) × VecRangeMap T))
          → (lift e r >>= λ x. some x.1) ≡ in_front_of e (r >>= λ x. some x.1)
      after_lift none = refl
      after_lift (some r) = refl

      overlap_frame :
          (o : Option RangeOverlap)
          → remove_overlap (in_front e m) (suc l) o ≡ in_front_of e (remove_overlap m l o)
      overlap_frame none = refl
      overlap_frame (some o) =
          rw (remove_subrange_frame e m l o) (after_lift (remove_subrange m l o))

  -- Where two ranges or more overlap.
  several :
      (m : VecRangeMap T) (l v s t : ℕ)
      → l < suc v
      → remove_between m l (suc (suc v)) s t ≡ (
          let (m', l') = trim_first m l s (get_elem? m.starts l) in
          some (finish m' l' (suc (suc v)) (suc v) t))
  unfolding remove_between
  several m l v s t h =
      let p : (l == suc (suc v)) ≡ false = ground arith in
      let q : (l + 1 == suc (suc v)) ≡ false = ground arith in
      rw (p, q)
        (ap
          (λ (n : ℕ).
            let (m', l') = trim_first m l s (get_elem? m.starts l) in
            some (finish m' l' (suc (suc v)) n t))
          pred)
    where
      pred : suc (suc v) - 1 ≡ suc v
      pred = omega arith

  trimmed_frame :
      (e : Entry T) (m : VecRangeMap T) (l v s t : ℕ) (o : Option ℕ)
      → (let (m', l') = trim_first (in_front e m) (suc l) s o in
          finish m' l' (suc (suc (suc v))) (suc (suc v)) t)
        ≡ (let (m', l') = trim_first m l s o in in_front e (finish m' l' (suc (suc v)) (suc v) t))
  trimmed_frame e m l v s t none = finish_frame e m l (suc v) t
  trimmed_frame e m l v s t (some start) = elim (Bool-cases (ltb start s)) [
    | inl q ↦ rw q (
        ap
          (λ (n : ℕ).
            finish (in_front e (record m { values = set_end m.values l (s - 1) })) n
              (suc (suc (suc v))) (suc (suc v)) t)
          step
        ∙ finish_frame e (record m { values = set_end m.values l (s - 1) }) (l + 1) (suc v) t)
    | inr q ↦ rw q (finish_frame e m l (suc v) t)
  ]
    where
      step : suc l + 1 ≡ suc (l + 1)
      step = omega arith

  between_frame :
      (e : Entry T) (m : VecRangeMap T) (l u s t : ℕ)
      → l ≤ u
      → remove_between (in_front e m) (suc l) (suc u) s t ≡ in_front_of e (remove_between m l u s t)
  unfolding remove_between
  between_frame e m l u s t h = elim (Bool-cases (l == u)) [
    | inl q ↦ let q' : (suc l == suc u) ≡ true = ground arith in rw (q, q') refl
    | inr q ↦ elim (Bool-cases (l + 1 == u)) [
      | inl r ↦
          let q' : (suc l == suc u) ≡ false = ground arith in
          let r' : (suc l + 1 == suc u) ≡ true = ground arith in
          rw (q, q', r, r') (single_frame e m l s t)
      | inr r ↦ many u (ground arith)
    ]
  ]
    where
      many :
          (u : ℕ)
          → suc l < u
          → remove_between (in_front e m) (suc l) (suc u) s t
            ≡ in_front_of e (remove_between m l u s t)
      many zero h = absurd (omega arith)
      many (suc zero) h = absurd (omega arith)
      many (suc (suc v)) h =
          several (in_front e m) (suc l) (suc v) s t (omega arith)
          ∙ ap some (trimmed_frame e m l v s t (get_elem? m.starts l))
          ∙ ap (in_front_of e) (sym (several m l v s t (omega arith)))

  -- The addresses of the range are free, and every other one is as before.
  abbrev pub IsFreed : List (Entry T) → ℕ → ℕ → ℕ → Option (VecRangeMap T) → Type 0
  IsFreed es low s t r =
      (es' : List (Entry T)) × (r ≡ some (to_map es'))
      × IsSorted low es'
      × ((k : ℕ) → lookup es' k ≡ (if leb s k && leb k t then none else lookup es k))

  -- The overlap of an entry with the range.
  overlap-IsPart :
      (e : Entry T) (s t : ℕ)
      → e.start ≤ e.end
      → s ≤ t
      → s ≤ e.end
      → e.start ≤ t
      → (o : RangeOverlap) × (get_overlapping_range_inclusive e.start e.end s t ≡ some o)
        × IsPart e o
        × (overlap_range e o ≡ (max e.start s, min e.end t))
  unfolding get_overlapping_range_inclusive
  overlap-IsPart e s t o h p q = elim (Bool-cases (leb e.end t && leb s e.start)) [
    | inl c ↦ (RangeOverlap.full, ground arith, tt, ground arith)
    | inr c ↦ (
      RangeOverlap.part (max e.start s) (min e.end t),
      ground arith,
      (omega arith, omega arith, omega arith, ground arith),
      refl,
    )
  ]

  single-IsFreed :
      (e : Entry T) (es : List (Entry T)) (low s t : ℕ)
      → IsSorted low (e ∷ es)
      → s ≤ t
      → s ≤ e.end
      → e.start ≤ t
      → IsSorted (suc t) es
      → IsFreed (e ∷ es) low s t (remove_single (to_map (e ∷ es)) 0 s t)
  unfolding remove_single
  single-IsFreed e es low s t (a, b, c, sorted) h p q up =
      let (o, f, part, range) = overlap-IsPart e s t b h p q in
      let (es', r, sorted', found) =
        remove_subrange-IsRemoval (e ∷ es) 0 low e o (a, b, c, sorted) refl part in
      (
        es',
        rw f (ap (λ (r : Option ((T × ℕ × ℕ) × VecRangeMap T)). r >>= λ x. some x.1) r),
        sorted',
        λ k.
            found k
            ∙ rw range (
                ground (arith, lookup_below es (suc t) k up, lookup_below es (suc e.end) k sorted)),
      )

  at_result :
      (es : List (Entry T)) (low s t : ℕ) {r r' : Option (VecRangeMap T)}
      → r ≡ r'
      → IsFreed es low s t r'
      → IsFreed es low s t r
  at_result es low s t e (es', q, sorted, found) = (es', e ∙ q, sorted, found)

  several-IsFreed :
      (e : Entry T) (es : List (Entry T)) (low s t v : ℕ)
      → IsSorted low (e ∷ es)
      → s ≤ t
      → s ≤ e.end
      → e.start ≤ t
      → upper_of (to_map es) t ≡ suc v
      → IsFreed (e ∷ es) low s t (remove_between (to_map (e ∷ es)) 0 (suc (suc v)) s t)
  several-IsFreed e es low s t v (a, b, c, sorted) h p q n =
      at_result (e ∷ es) low s t (several (to_map (e ∷ es)) 0 v s t (omega arith))
        (elim (Bool-cases (ltb e.start s)) [
          | inl in_first ↦
              let e' : Entry T = record e { end = s - 1 } in
              let (es', r, sorted', found) = finish-IsCleared es (suc e.end) t v sorted n in
              (
                e' ∷ es',
                rw in_first (ap some (finish_frame e' (to_map es) 0 v t ∙ ap (in_front e') r)),
                (a, ground arith, omega arith, weaken es' _ _ (omega arith) sorted'),
                λ k. ground (
                  arith,
                  found k,
                  lookup_below es (suc e.end) k sorted,
                  upper_pos es (suc e.end) t v sorted n,
                ),
              )
          | inr past ↦
              let (es', r, sorted', found) =
                finish-IsCleared (e ∷ es) low t (suc v) (a, b, c, sorted)
                  (upper_past e es t q ∙ ap suc n) in
              (
                es',
                rw past (ap some r),
                weaken es' (suc t) low (omega arith) sorted',
                λ k.
                    ground
                      (arith, found k, lookup_below (e ∷ es) e.start k (omega arith, b, c, sorted)),
              )
        ])

  -- The ranges from the first one that ends in the range or past it.
  here-IsFreed :
      (e : Entry T) (es : List (Entry T)) (low s t u : ℕ)
      → IsSorted low (e ∷ es)
      → s ≤ t
      → s ≤ e.end
      → e.start ≤ t
      → upper_of (to_map es) t ≡ u
      → IsFreed (e ∷ es) low s t (remove_between (to_map (e ∷ es)) 0 (suc u) s t)
  unfolding remove_between
  here-IsFreed e es low s t zero (a, b, c, sorted) h p q n =
      single-IsFreed e es low s t (a, b, c, sorted) h p q (upper_zero es (suc e.end) t sorted n)
  here-IsFreed e es low s t (suc v) (a, b, c, sorted) h p q n =
      several-IsFreed e es low s t v (a, b, c, sorted) h p q n

  at_bounds :
      (m : VecRangeMap T) (s t l u : ℕ)
      → lower_bound m.values s ≡ l
      → upper_of m t ≡ u
      → remove_all_inclusive m s t ≡ remove_between m l u s t
  unfolding remove_all_inclusive
  at_bounds m s t l u p q = ap₂ (λ (l u : ℕ). remove_between m l u s t) p q

  -- Removing a range from sorted entries returns, and leaves sorted entries where the addresses of
  -- the range are free, and every other one is as before.
  pub remove_all_inclusive-IsFreed :
      (es : List (Entry T)) (low s t : ℕ)
      → IsSorted low es
      → s ≤ t
      → IsFreed es low s t (remove_all_inclusive (to_map es) s t)
  unfolding remove_all_inclusive remove_between lower_bound upper_bound
  remove_all_inclusive-IsFreed [] low s t sorted h = elim (Bool-cases (t == u64_max)) [
    | inl q ↦ ([], rw q refl, tt, λ k. ground arith)
    | inr q ↦ ([], rw q refl, tt, λ k. ground arith)
  ]
  remove_all_inclusive-IsFreed (e ∷ es) low s t (a, b, c, sorted) h =
      elim (Bool-cases (ltb e.end s)) [
        | inl before ↦
            let (es', r, sorted', found) =
              remove_all_inclusive-IsFreed es (suc e.end) s t sorted h in
            (
              e ∷ es',
              at_bounds (to_map (e ∷ es)) s t _ _ (lower_past e es s (ground arith))
                    (upper_past e es t (ground arith))
                  ∙ between_frame e (to_map es) (lower_bound (to_map es).values s)
                      (upper_of (to_map es) t) s t (lower-le-upper es (suc e.end) s t sorted h)
                  ∙ ap (in_front_of e) r,
              (a, b, c, sorted'),
              λ k. ground (arith, found k),
            )
        | inr here ↦ elim (Bool-cases (leb e.start t)) [
          | inl meets ↦
              at_result (e ∷ es) low s t
                (at_bounds (to_map (e ∷ es)) s t _ _ (lower_here e es s (ground arith))
                  (upper_past e es t (ground arith)))
                (here-IsFreed e es low s t (upper_of (to_map es) t) (a, b, c, sorted) h
                  (ground arith) (ground arith) refl)
          | inr apart ↦ (
            e ∷ es,
            at_bounds (to_map (e ∷ es)) s t _ _ (lower_here e es s (ground arith))
                (upper_here e es t (ground arith) (omega arith)),
            (a, b, c, sorted),
            λ k. ground (arith, lookup_below (e ∷ es) e.start k (omega arith, b, c, sorted)),
          )
        ]
      ]
