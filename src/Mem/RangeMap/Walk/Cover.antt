-- ===== src/Mem/RangeMap/Walk/Cover.antt =====
-- The items of `overlapping_iter` of icicle-mem/src/range_map.rs cover the range.
use mathlib.Core.Path.{subst}
use icicle_emu.Base.{
  ℕ, zero, suc, ◌+◌, ◌-◌, ◌≤◌, ◌<◌, ◌≡◌, refl, sym, ap, arith, ◌&&◌, inl, inr, Bool-cases, Option,
  none, some, List, [], ◌∷◌, get_elem?, leb, ltb, ◌==◌, if◌then◌else◌, u64_mod,
}
use icicle_emu.Mem.RangeMap.Entries.{Entry, to_map, IsSorted, lookup}
use icicle_emu.Mem.RangeMap.Removal.Overlap.{get_elem?-ordered, get_elem?-map}
use icicle_emu.Mem.RangeMap.Cursor.{Cursor, Piece, next, next_at, next_from}
use icicle_emu.Mem.RangeMap.Cursor.Pieces.{next_at-IsPiece}
use icicle_emu.Mem.RangeMap.Walk.{Item, Walk, with_item, item_of, collect, walk, overlapping_iter}
use icicle_emu.Mem.RangeMap.Walk.Places.{
  IsAt, in_bounds, lookup_above, piece_value, piece-IsAt, new_cursor-IsAt,
}

module _ {T : Type 0} where
  -- From the last to the first, the items follow each other, are not empty and have the value of each
  -- of their addresses.
  abbrev pub IsCover : List (Entry T) → ℕ → ℕ → List (Item T) → Type 0
  IsCover es start len [] = len ≡ 0
  IsCover es start len (x ∷ items) =
      (0 < x.size)
      × (start ≤ x.from)
      × (x.from + x.size ≡ start + len)
      × ((k : ℕ)
          → (if leb x.from k && ltb k (x.from + x.size) then lookup es k else x.value) ≡ x.value)
      × IsCover es start (x.from - start) items

  abbrev pub IsCovered : List (Entry T) → ℕ → ℕ → Walk T → Type 0
  IsCovered es start len r =
      (items : List (Item T)) × (r ≡ Walk.finished items) × IsCover es start len items

  -- The rest of the walk, from the items after the first.
  with-IsCovered :
      (es : List (Entry T)) (start len : ℕ) (p : Piece) (c' : Cursor) (v : Option T) (r : Walk T)
      → 0 < p.size
      → start ≤ p.from
      → p.from + p.size ≡ start + len
      → c'.start ≡ start
      → c'.len + p.size ≡ len
      → ((k : ℕ) → (if leb p.from k && ltb k (p.from + p.size) then lookup es k else v) ≡ v)
      → IsCovered es c'.start c'.len r
      → IsCovered es start len (with_item (record { from = p.from; size = p.size; value = v }) r)
  with-IsCovered es start len p c' v r z a b st l f (items, e, cover) = (
    record { from = p.from; size = p.size; value = v } ∷ items,
    ap (with_item (record { from = p.from; size = p.size; value = v })) e,
    (
      z,
      a,
      b,
      f,
      subst (λ (t : ℕ). IsCover es t (p.from - start) items) st
          (subst (λ (t : ℕ). IsCover es c'.start t items) {x = c'.len} {y = p.from - start}
            (omega (arith, b, l)) cover),
    ),
  )

  next-IsCovered :
      (es : List (Entry T)) (low : ℕ) (c : Cursor) (rest : Cursor → Walk T) (n : ℕ)
      → IsSorted low es
      → IsAt es c
      → 0 < c.len
      → c.i ≡ n
      → ((c' : Cursor) → IsAt es c' → c'.len < c.len → IsCovered es c'.start c'.len (rest c'))
      → IsCovered es c.start c.len (collect (to_map es) rest (next_from (to_map es) c n))
  next-IsCovered es low c rest zero s (q, up, down) l i ih =
      with-IsCovered es c.start c.len (record { from = c.start; size = c.len; slot = none })
        (record c { len = 0 }) none (rest (record c { len = 0 })) l (omega arith) refl refl
        (omega arith) unmapped
        (ih (record c { len = 0 }) (q, λ m. absurd (omega arith), λ m. absurd (omega arith)) l)
    where
      unmapped :
          (k : ℕ) → (if leb c.start k && ltb k (c.start + c.len) then lookup es k else none) ≡ none
      unmapped k = elim (Bool-cases (leb c.start k && ltb k (c.start + c.len))) [
        | inl h ↦ rw h (lookup_above es k (λ j e g. before j e g (ground arith)))
        | inr h ↦ rw h refl
      ]
        where
          before :
              (j : ℕ) (e : Entry T) → get_elem? es j ≡ some e → k < c.start + c.len → k < e.start
          before j e g h = omega (arith, up l j e g (omega (arith, i)))
  next-IsCovered es low c rest (suc n) s (q, up, down) l i ih =
      let (e, g) = in_bounds es n (omega (arith, q, i)) in
      let r = next_at c n e.start e.end in
      let piece = next_at-IsPiece c n e.start e.end l (get_elem?-ordered es low n e s g).1 in
      let (v, w, f) = piece_value es low c r.1 n e r.0 s (q, up, down) l i g piece in
      let at = piece-IsAt es low c r.1 n e r.0 s (q, up, down) l i g piece in
      let (z, a, b, st, len, _) = piece in
      rw
        (
          get_elem?-map {B = ℕ} es n e (λ (x : Entry T). x.start) g,
          get_elem?-map {B = ℕ × T} es n e (λ (x : Entry T). (x.end, x.value)) g,
        )
        (subst (λ o. IsCovered es c.start c.len (item_of r.0 o (rest r.1))) {x = some v} (sym w)
          (with-IsCovered es c.start c.len r.0 r.1 v (rest r.1) z a b st len f
            (ih r.1 at (omega (arith, len, z)))))

  walk-IsCovered :
      (fuel : ℕ) (es : List (Entry T)) (low : ℕ) (c : Cursor)
      → IsSorted low es
      → IsAt es c
      → c.len < fuel
      → IsCovered es c.start c.len (walk fuel (to_map es) c)
  unfolding walk next
  walk-IsCovered zero es low c s at l = absurd (omega arith)
  walk-IsCovered (suc fuel) es low c s at l = elim (Bool-cases (c.len == 0)) [
    | inl z ↦ rw z ([], refl, ground arith)
    | inr z ↦ rw z (
        next-IsCovered es low c (walk fuel (to_map es)) c.i s at (ground arith) refl
          (λ c' a m. walk-IsCovered fuel es low c' s a (omega arith)))
  ]

  -- On sorted entries, with more fuel than the range has addresses, the iteration over a range of
  -- fewer than 2 ^ 64 addresses ends, and its items, from the last to the first, are not empty,
  -- follow each other without a gap over the whole range, and hold the value of each of their
  -- addresses, or none where nothing is mapped.
  pub overlapping_iter-IsCovered :
      (fuel : ℕ) (es : List (Entry T)) (low start end : ℕ)
      → IsSorted low es
      → start ≤ end
      → end - start + 1 < u64_mod
      → end - start + 1 < fuel
      → IsCovered es start (end - start + 1) (overlapping_iter fuel (to_map es) start end)
  unfolding overlapping_iter
  overlapping_iter-IsCovered fuel es low start end s l m f =
      let (c, e, a, b, at) = new_cursor-IsAt es low start end s l m in
      rw e (
        subst (λ (t : ℕ). IsCovered es t (end - start + 1) (walk fuel (to_map es) c)) a
          (subst (λ (t : ℕ). IsCovered es c.start t (walk fuel (to_map es) c)) b
            (walk-IsCovered fuel es low c s at (omega (arith, b, f)))))
