-- ===== src/Mem/RangeMap/Removal/Clear.antt =====
-- What `remove_all` of icicle-mem/src/range_map.rs leaves at the end of the range.
use icicle_emu.Base.{
  ℕ, zero, suc, ◌+◌, ◌≤◌, ◌≡◌, refl, ◌∙◌, arith, Bool-cases, Option-cases, inl, inr, List, [], ◌∷◌,
  none, true, leb, ltb, if◌then◌else◌, get_elem?, set,
}
use icicle_emu.Mem.RangeMap.{VecRangeMap, upper_bound}
use icicle_emu.Mem.RangeMap.Entries.{Entry, to_map, IsSorted, lookup, lookup_below}
use icicle_emu.Mem.RangeMap.Frame.{in_front}
use icicle_emu.Mem.RangeMap.Removal.{drop_between, finish}
use icicle_emu.Mem.RangeMap.Removal.Bounds.{upper_of, upper_past, upper_here, upper_zero, upper_pos}

module _ {T : Type 0} where
  drop_frame :
      (e : Entry T) (m : VecRangeMap T) (l u : ℕ)
      → drop_between (in_front e m) (suc l) (suc u) ≡ in_front e (drop_between m l u)
  drop_frame e m l u = elim (Bool-cases (ltb l u)) [
    | inl q ↦ let q' : ltb (suc l) (suc u) ≡ ltb l u = ground arith in rw (q', q) refl
    | inr q ↦ let q' : ltb (suc l) (suc u) ≡ ltb l u = ground arith in rw (q', q) refl
  ]

  drop_front :
      (e : Entry T) (m : VecRangeMap T) (u : ℕ)
      → drop_between (in_front e m) 0 (suc u) ≡ drop_between m 0 u
  drop_front e m zero = refl
  drop_front e m (suc u) =
      let q : ltb 0 (suc u) ≡ true = ground arith in
      let q' : ltb 0 (suc (suc u)) ≡ true = ground arith in rw (q, q') refl

  pub finish_frame :
      (e : Entry T) (m : VecRangeMap T) (l v target_end : ℕ)
      → finish (in_front e m) (suc l) (suc (suc v)) (suc v) target_end
        ≡ in_front e (finish m l (suc v) v target_end)
  finish_frame e m l v t = elim (Option-cases (get_elem? m.values v)) [
    | inl g ↦ rw g (drop_frame e m l (suc v))
    | inr ((end, d), g) ↦ elim (Bool-cases (ltb t end)) [
      | inl q ↦ rw (g, q) (drop_frame e (record m { starts = set m.starts v (t + 1) }) l v)
      | inr q ↦ rw (g, q) (drop_frame e m l (suc v))
    ]
  ]

  finish_front :
      (e : Entry T) (m : VecRangeMap T) (v target_end : ℕ)
      → finish (in_front e m) 0 (suc (suc v)) (suc v) target_end ≡ finish m 0 (suc v) v target_end
  finish_front e m v t = elim (Option-cases (get_elem? m.values v)) [
    | inl g ↦ rw g (drop_front e m (suc v))
    | inr ((end, d), g) ↦ elim (Bool-cases (ltb t end)) [
      | inl q ↦ rw (g, q) (drop_front e (record m { starts = set m.starts v (t + 1) }) v)
      | inr q ↦ rw (g, q) (drop_front e m (suc v))
    ]
  ]

  -- Nothing is left up to the end of the range.
  abbrev pub IsCleared : List (Entry T) → ℕ → VecRangeMap T → Type 0
  IsCleared es target_end m =
      (es' : List (Entry T)) × (m ≡ to_map es')
      × IsSorted (suc target_end) es'
      × ((k : ℕ) → lookup es' k ≡ (if leb k target_end then none else lookup es k))

  first-IsCleared :
      (e : Entry T) (es : List (Entry T)) (low t : ℕ)
      → IsSorted low (e ∷ es)
      → e.start ≤ t
      → IsSorted (suc t) es
      → IsCleared (e ∷ es) t (finish (to_map (e ∷ es)) 0 1 0 t)
  first-IsCleared e es low t (a, b, c, s) l up = elim (Bool-cases (ltb t e.end)) [
    | inl q ↦ (
      record e { start = t + 1 } ∷ es,
      rw q refl,
      (omega arith, ground arith, c, s),
      λ k. ground (arith, lookup_below es (suc e.end) k s),
    )
    | inr q ↦ (es, rw q refl, up, λ k. ground (arith, lookup_below es (suc t) k up))
  ]

  starts_at :
      (e : Entry T) (es : List (Entry T)) (low t u : ℕ)
      → IsSorted low (e ∷ es)
      → upper_of (to_map (e ∷ es)) t ≡ suc u
      → e.start ≤ t
  starts_at e es low t u (a, b, c, s) h = elim (Bool-cases (leb e.start t)) [
    | inl q ↦ ground arith
    | inr q ↦ absurd (omega (arith, h, upper_here e es t (ground arith) (omega arith)))
  ]

  pub finish-IsCleared :
      (es : List (Entry T)) (low t u : ℕ)
      → IsSorted low es
      → upper_of (to_map es) t ≡ suc u
      → IsCleared es t (finish (to_map es) 0 (suc u) u t)
  unfolding upper_bound
  finish-IsCleared [] low t u s h = absurd (ground (arith, h))
  finish-IsCleared (e ∷ es) low t zero (a, b, c, s) h =
      let l = starts_at e es low t 0 (a, b, c, s) h in
      first-IsCleared e es low t (a, b, c, s) l
        (upper_zero es (suc e.end) t s (omega (arith, h, upper_past e es t l)))
  finish-IsCleared (e ∷ es) low t (suc v) (a, b, c, s) h =
      let l = starts_at e es low t (suc v) (a, b, c, s) h in
      let n : upper_of (to_map es) t ≡ suc v = omega (arith, h, upper_past e es t l) in
      let (es', r, sorted, found) = finish-IsCleared es (suc e.end) t v s n in
      (
        es',
        finish_front e (to_map es) v t ∙ r,
        sorted,
        λ k. ground (arith, found k, upper_pos es (suc e.end) t v s n),
      )
