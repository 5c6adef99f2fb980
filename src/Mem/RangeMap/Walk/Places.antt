-- ===== src/Mem/RangeMap/Walk/Places.antt =====
-- Where the cursor of icicle-mem/src/range_map.rs stands among sorted entries, and what its pieces hold.
use icicle_emu.Base.{
  ltb, ◌||◌, ℕ, zero, suc, ◌+◌, ◌-◌, ◌≤◌, ◌<◌, ◌≡◌, refl, sym, ◌∙◌, ap, arith, false, ◌&&◌, inl,
  inr, Bool-cases, Option, none, some, List, [], ◌∷◌, length, length-map, get_elem?, leb, ltb, ◌==◌,
  if◌then◌else◌, u64_max, u64_mod,
}
use icicle_emu.Mem.RangeMap.{Search, binary_search, position, after_first, upper_bound}
use icicle_emu.Mem.RangeMap.Entries.{Entry, to_map, IsSorted, lookup, covers, starts_of}
use icicle_emu.Mem.RangeMap.Removal.Overlap.{get_elem?-ordered, lookup-get_elem?, get_elem?-map}
use icicle_emu.Mem.RangeMap.Cursor.{Cursor, Piece, new_cursor}
use icicle_emu.Mem.RangeMap.Cursor.Pieces.{IsPiece}
use icicle_emu.Mem.RangeMap.Walk.{value_of}

module _ {T : Type 0} where
  -- The entries ascend.
  increasing :
      (es : List (Entry T)) (low i j : ℕ) (e f : Entry T)
      → IsSorted low es
      → get_elem? es i ≡ some e
      → get_elem? es j ≡ some f
      → i < j
      → e.end < f.start
  increasing [] low i j e f s g h l = absurd (cc g)
  increasing (x ∷ es) low i zero e f s g h l = absurd (omega arith)
  increasing (x ∷ es) low zero (suc j) e f (_, _, _, s) g h l = omega (
    arith,
    ap (λ (x : Entry T). x.end) (some_entry g),
    (get_elem?-ordered es (suc x.end) j f s h).0,
  )
    where
      some_entry : {x y : Entry T} → some x ≡ some y → x ≡ y
      some_entry h = cc
  increasing (x ∷ es) low (suc i) (suc j) e f (_, _, _, s) g h l =
      increasing es (suc x.end) i j e f s g h (omega arith)

  pub in_bounds :
      (es : List (Entry T)) (i : ℕ) → i < length es → (e : Entry T) × (get_elem? es i ≡ some e)
  in_bounds [] i h = absurd (omega arith)
  in_bounds (x ∷ es) zero h = (x, refl)
  in_bounds (x ∷ es) (suc i) h = in_bounds es i (omega arith)

  -- Below all entries from index `i` on, and past the entry before, nothing is mapped.
  pub lookup_above :
      (es : List (Entry T)) (k : ℕ)
      → ((j : ℕ) (e : Entry T) → get_elem? es j ≡ some e → k < e.start)
      → lookup es k ≡ none
  lookup_above [] k h = refl
  lookup_above (x ∷ es) k h =
      let out : covers x k ≡ false = ground (arith, h 0 x refl) in
      rw out (lookup_above es k (λ j e g. h (suc j) e g))

  lookup_between :
      (es : List (Entry T)) (low i k : ℕ) (x : Entry T)
      → IsSorted low es
      → get_elem? es i ≡ some x
      → x.end < k
      → ((j : ℕ) (e : Entry T) → get_elem? es j ≡ some e → i < j → k < e.start)
      → lookup es k ≡ none
  lookup_between [] low i k x s g l h = absurd (cc g)
  lookup_between (y ∷ es) low zero k x (_, _, _, s) g l h =
      let out : covers y k ≡ false = ground (arith, ap (λ (x : Entry T). x.end) (some_entry g)) in
      rw out (lookup_above es k (λ j e g. h (suc j) e g (omega arith)))
    where
      some_entry : {x y : Entry T} → some x ≡ some y → x ≡ y
      some_entry h = cc
  lookup_between (y ∷ es) low (suc i) k x (_, _, _, s) g l h =
      let (p, q) = get_elem?-ordered es (suc y.end) i x s g in
      let out : covers y k ≡ false = ground arith in
      rw out (lookup_between es (suc y.end) i k x s g l (λ j e g m. h (suc j) e g (omega arith)))

  -- The cursor stands past the entries that start before the end of what is left.
  abbrev pub IsAt : List (Entry T) → Cursor → Type 0
  IsAt es c =
      (c.i ≤ length es)
      × (0 < c.len
          → (j : ℕ) (e : Entry T) → get_elem? es j ≡ some e
          → c.i ≤ j
          → c.start + c.len ≤ e.start)
      × (0 < c.len
          → (j : ℕ) (e : Entry T) → get_elem? es j ≡ some e
          → j < c.i
          → e.start < c.start + c.len)

  -- The value of the addresses of a piece.
  pub piece_value :
      (es : List (Entry T)) (low : ℕ) (c c' : Cursor) (n : ℕ) (e : Entry T) (p : Piece)
      → IsSorted low es
      → IsAt es c
      → 0 < c.len
      → c.i ≡ suc n
      → get_elem? es n ≡ some e
      → IsPiece c n e.start e.end p c'
      → (v : Option T) × (value_of (to_map es) p.slot ≡ some v)
        × ((k : ℕ) → (if leb p.from k && ltb k (p.from + p.size) then lookup es k else v) ≡ v)
  piece_value es low c c' n e p s (_, up, down) l i g (z, a, b, _, _, inl (slot, _, from, to, _)) =
      (
        some e.value,
        rw (slot, get_elem?-map {B = ℕ × T} es n e (λ (x : Entry T). (x.end, x.value)) g) refl,
        λ k. at_byte k,
      )
    where
      at_byte :
          (k : ℕ)
          → (if leb p.from k && ltb k (p.from + p.size) then lookup es k else some e.value)
            ≡ some e.value
      at_byte k = elim (Bool-cases (leb p.from k && ltb k (p.from + p.size))) [
        | inl h ↦ rw h (lookup-get_elem? es low n k e s g (ground arith) (ground arith))
        | inr h ↦ rw h refl
      ]
  piece_value es low c c' n e p s (_, up, down) l i g (z, a, b, _, _, inr (slot, _, apart)) =
      (none, rw slot refl, λ k. at_byte k)
    where
      before : e.start < p.from + p.size
      before = omega (arith, b, down l n e g (omega (arith, i)))

      at_byte :
          (k : ℕ) → (if leb p.from k && ltb k (p.from + p.size) then lookup es k else none) ≡ none
      at_byte k = elim (Bool-cases (leb p.from k && ltb k (p.from + p.size))) [
        | inl h ↦ rw h (
            lookup_between es low n k e s g (ground (arith, apart, before))
              (λ j f q m. between j f q m (ground arith)))
        | inr h ↦ rw h refl
      ]
        where
          between :
              (j : ℕ) (f : Entry T)
              → get_elem? es j ≡ some f
              → n < j
              → k < p.from + p.size
              → k < f.start
          between j f q m h = omega (arith, b, up l j f q (omega (arith, i)))

  -- An entry at index `n` or before does not start past entry `n`, one at `n` or later not before it.
  start-le :
      (es : List (Entry T)) (low j n : ℕ) (f e : Entry T)
      → IsSorted low es
      → get_elem? es j ≡ some f
      → get_elem? es n ≡ some e
      → j ≤ n
      → f.start ≤ e.start
  start-le es low j n f e s h g l = elim (Bool-cases (j == n)) [
    | inl same ↦
        let j_n : j ≡ n = ground arith in
        let f_e : f ≡ e = some_entry (sym h ∙ ap (get_elem? es) j_n ∙ g) in
        omega (arith, ap (λ (x : Entry T). x.start) f_e)
    | inr less ↦ omega (
      arith,
      increasing es low j n f e s h g (ground arith),
      (get_elem?-ordered es low j f s h).1,
    )
  ]
    where
      some_entry : {x y : Entry T} → some x ≡ some y → x ≡ y
      some_entry h = cc

  -- The cursor after a piece.
  pub piece-IsAt :
      (es : List (Entry T)) (low : ℕ) (c c' : Cursor) (n : ℕ) (e : Entry T) (p : Piece)
      → IsSorted low es
      → IsAt es c
      → 0 < c.len
      → c.i ≡ suc n
      → get_elem? es n ≡ some e
      → IsPiece c n e.start e.end p c'
      → IsAt es c'
  piece-IsAt es low c c' n e p s (q, up, down) l i g
        (z, a, b, st, len, inl (slot, i', from, to, edge)) =
      (
        omega (arith, i', i, q),
        λ m j f h k.
            omega
              (arith, at_start m, start-le es low n j e f s g h (omega (arith, k, i')), b, st, len),
        λ m j f h k. omega (
          arith,
          increasing es low j n f e s h g (omega (arith, k, i')),
          (get_elem?-ordered es low j f s h).1,
          from,
          b,
          st,
          len,
        ),
      )
    where
      at_start : 0 < c'.len → p.from ≡ e.start
      at_start m = elim edge [ inl x ↦ absurd (omega (arith, x, b, len, m)) | inr x ↦ x ]
  piece-IsAt es low c c' n e p s (q, up, down) l i g (z, a, b, st, len, inr (slot, i', apart)) = (
    omega (arith, i', q),
    λ m j f h k. omega (arith, up l j f h (omega (arith, k, i')), b, st, len),
    λ m j f h k.
        omega (arith, start-le es low j n f e s h g (omega (arith, k, i', i)), past, b, st, len),
  )
    where
      past : e.start < p.from
      past = elim apart [
        | inl x ↦ omega (arith, x, (get_elem?-ordered es low n e s g).1)
        | inr x ↦ absurd (omega (arith, x, b, down l n e g (omega (arith, i))))
      ]

  -- The entries from position `n` on are those that start at `x` or later.
  abbrev pub IsPosition : List (Entry T) → ℕ → ℕ → Type 0
  IsPosition es x n =
      (n ≤ length es)
      × ((j : ℕ) (e : Entry T) → get_elem? es j ≡ some e → n ≤ j → x ≤ e.start)
      × ((j : ℕ) (e : Entry T) → get_elem? es j ≡ some e → j < n → e.start < x)

  later-IsPosition :
      (y : Entry T) (es : List (Entry T)) (x : ℕ) (r : Search)
      → y.start < x
      → IsPosition es x (position r)
      → IsPosition (y ∷ es) x (position (after_first r))
  later-IsPosition y es x r l h = step (position r) (position (after_first r)) (after r) h
    where
      after : (r : Search) → position (after_first r) ≡ suc (position r)
      after (Search.found i) = refl
      after (Search.missing i) = refl

      step : (n m : ℕ) → m ≡ suc n → IsPosition es x n → IsPosition (y ∷ es) x m
      step n m e (q, up, down) = (omega (arith, e, q), above, below)
        where
          above : (j : ℕ) (f : Entry T) → get_elem? (y ∷ es) j ≡ some f → m ≤ j → x ≤ f.start
          above zero f g k = absurd (omega arith)
          above (suc j) f g k = up j f g (omega arith)

          below : (j : ℕ) (f : Entry T) → get_elem? (y ∷ es) j ≡ some f → j < m → f.start < x
          below zero f g k = omega (arith, l, ap (λ (x : Entry T). x.start) (some_entry g))
            where
              some_entry : {x y : Entry T} → some x ≡ some y → x ≡ y
              some_entry h = cc
          below (suc j) f g k = down j f g (omega arith)

  first-IsPosition :
      (y : Entry T) (es : List (Entry T)) (low x : ℕ)
      → IsSorted low (y ∷ es)
      → x ≤ y.start
      → IsPosition (y ∷ es) x 0
  first-IsPosition y es low x s l = (
    omega arith,
    λ j f g k. omega (arith, l, start-le (y ∷ es) low 0 j y f s refl g (omega arith)),
    λ j f g k. absurd (omega arith),
  )

  position-IsPosition :
      (es : List (Entry T)) (low x : ℕ)
      → IsSorted low es
      → IsPosition es x (position (binary_search (starts_of es) x))
  position-IsPosition [] low x s = (omega arith, λ j e g. absurd (cc g), λ j e g. absurd (cc g))
  position-IsPosition (y ∷ es) low x s = elim (Bool-cases (y.start == x)) [
    | inl here ↦ rw here (first-IsPosition y es low x s (ground arith))
    | inr other ↦ elim (Bool-cases (ltb x y.start)) [
      | inl less ↦ rw (other, less) (first-IsPosition y es low x s (ground arith))
      | inr more ↦
          rw (other, more)
            (later-IsPosition y es x (binary_search (starts_of es) x) (ground arith)
              (position-IsPosition es _ x s.3))
    ]
  ]

  start_bound :
      (es : List (Entry T)) (low j : ℕ) (e : Entry T)
      → IsSorted low es
      → get_elem? es j ≡ some e
      → e.start < u64_mod
  start_bound [] low j e s g = absurd (cc g)
  start_bound (y ∷ es) low zero e (a, b, c, s) g =
      omega (arith, ap (λ (x : Entry T). x.start) (some_entry g))
    where
      some_entry : {x y : Entry T} → some x ≡ some y → x ≡ y
      some_entry h = cc
  start_bound (y ∷ es) low (suc j) e (a, b, c, s) g = start_bound es (suc y.end) j e s g

  get_elem?_bounds :
      (es : List (Entry T)) (j : ℕ) (e : Entry T) → get_elem? es j ≡ some e → j < length es
  get_elem?_bounds [] j e g = absurd (cc g)
  get_elem?_bounds (y ∷ es) zero e g = omega arith
  get_elem?_bounds (y ∷ es) (suc j) e g = omega (arith, get_elem?_bounds es j e g)

  -- A new cursor stands at the end of the range.
  pub new_cursor-IsAt :
      (es : List (Entry T)) (low start end : ℕ)
      → IsSorted low es
      → start ≤ end
      → end - start + 1 < u64_mod
      → (c : Cursor) × (new_cursor (to_map es) start end ≡ some c)
        × (c.start ≡ start)
        × (c.len ≡ end - start + 1)
        × IsAt es c
  unfolding new_cursor upper_bound
  new_cursor-IsAt es low start end s l m =
      let room : (ltb end start || leb u64_mod (end - start + 1)) ≡ false = ground arith in
      elim (Bool-cases (end == u64_max)) [
        | inl last ↦
            let n = length-map es (λ (e : Entry T). e.start) in
            let at_end : end ≡ u64_max = ground arith in
            (
              record { start = start; len = end - start + 1; i = length (starts_of es) },
              rw (room, last) refl,
              refl,
              refl,
              (
                omega (arith, n),
                λ z j e g k. absurd (omega (arith, get_elem?_bounds es j e g, n)),
                λ z j e g k. omega (arith, start_bound es low j e s g, at_end),
              ),
            )
        | inr inner ↦
            let (q, up, down) = position-IsPosition es low (end + 1) s in
            (
              record {
                start = start;
                len = end - start + 1;
                i = position (binary_search (starts_of es) (end + 1));
              },
              rw (room, inner) refl,
              refl,
              refl,
              (q, λ z j e g k. omega (arith, up j e g k), λ z j e g k. omega (arith, down j e g k)),
            )
      ]
