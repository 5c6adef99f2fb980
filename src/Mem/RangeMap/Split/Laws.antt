-- ===== src/Mem/RangeMap/Split/Laws.antt =====
-- What `overlapping_mut` of icicle-mem/src/range_map.rs leaves of sorted entries.
use mathlib.Core.Path.{subst}
use icicle_emu.Base.{
  ℕ, ◌+◌, ◌-◌, ◌≤◌, ◌<◌, ◌≡◌, refl, ◌∙◌, ap, Bool, true, ◌⊎◌, inl, inr, Option, none, some, ◌>>=◌,
  List, [], ◌∷◌, ◌++◌, if◌then◌else◌, Bool-cases, Option-cases, arith, u64_mod,
}
use icicle_emu.Mem.RangeMap.{VecRangeMap}
use icicle_emu.Mem.RangeMap.Entries.{Entry, to_map, IsSorted, lookup}
use icicle_emu.Mem.RangeMap.Cursor.{new_cursor}
use icicle_emu.Mem.RangeMap.Walk.{Item, Walk, overlapping_iter}
use icicle_emu.Mem.RangeMap.Walk.Cover.{IsCover, overlapping_iter-IsCovered}
use icicle_emu.Mem.RangeMap.Split.{
  SplitIter, Loop, Updated, loop, overlapping_mut, apply_updates, new_split, after_loop,
  apply_removals, apply_additions,
}
use icicle_emu.Mem.RangeMap.Split.Visits.{
  Visited, visit, removal_of, addition_of, removals_of, additions_of, loop-IsLoop, IsLoop,
}
use icicle_emu.Mem.RangeMap.Split.Updates.{
  holds, in_removals, in_additions, value_in, AllPositive, IsDescending, value_in_below,
  apply_removals-lookup, apply_additions-lookup,
}

module _ {T : Type 0} where
  -- The value of an address after the changes.
  abbrev pub value_after : List (Item T × Option T) → List (Entry T) → ℕ → Option T
  value_after [] es k = lookup es k
  value_after ((x, after) ∷ vs) es k = if holds x.from x.size k then after else value_after vs es k

  -- The pieces follow each other from below a bound, and had the values of their addresses.
  abbrev IsVisit : List (Entry T) → ℕ → List (Item T × Option T) → Type 0
  IsVisit es bound [] = Unit {0}
  IsVisit es bound ((x, after) ∷ vs) =
      0 < x.size
      × (x.from + x.size ≤ bound
          × (((k : ℕ) → (if holds x.from x.size k then lookup es k else x.value) ≡ x.value)
              × IsVisit es x.from vs))

  value_after_below :
      (es : List (Entry T)) (vs : List (Item T × Option T)) (bound k : ℕ)
      → IsVisit es bound vs
      → bound ≤ k
      → value_after vs es k ≡ lookup es k
  value_after_below es [] bound k v h = refl
  value_after_below es ((x, after) ∷ vs) bound k (p, (q, (f, v))) h =
      ground (arith, value_after_below es vs x.from k v)

  IsDescending-weaken :
      (a b : ℕ) (l : List (ℕ × ℕ × T)) → a ≤ b → IsDescending a l → IsDescending b l
  IsDescending-weaken a b [] h d = tt
  IsDescending-weaken a b ((from, size, v) ∷ l) h (p, (q, d)) = (p, (omega arith, d))

  -- What the updates make of the entries: the additions are free once the removals are made, and then
  -- every address has the value given.
  abbrev Makes : List (Entry T) → ℕ → List (ℕ × ℕ) → List (ℕ × ℕ × T) → (ℕ → Option T) → Type 0
  Makes es bound rs as' value =
      AllPositive rs
      × (IsDescending bound as'
          × (((k : ℕ)
                → (if in_additions as' k
                    then (if in_removals rs k then none else lookup es k)
                    else none)
                  ≡ none)
              × ((k : ℕ)
                  → value_in as' (if in_removals rs k then none else lookup es k) k ≡ value k)))

module _ {T : Type 0} (eq : T → T → Bool) (sound : (a b : T) → eq a b ≡ true → a ≡ b)
    (es : List (Entry T)) (bound : ℕ) (x : Item T) (rs : List (ℕ × ℕ)) (as' : List (ℕ × ℕ × T))
    (value : ℕ → Option T) (p : 0 < x.size) (q : x.from + x.size ≤ bound)
    (above : (k : ℕ) → x.from ≤ k → value k ≡ lookup es k) (m : Makes es x.from rs as' value) where
  -- With the changes of one more item.
  item-Makes :
      (before after : Option T)
      → ((k : ℕ) → (if holds x.from x.size k then lookup es k else before) ≡ before)
      → Makes es bound
          (removal_of eq x before after ++ rs)
          (addition_of eq x before after ++ as')
          (λ k. if holds x.from x.size k then after else value k)
  item-Makes none none f = (
    m.0,
    (
      IsDescending-weaken x.from bound as' (omega arith) m.1.0,
      (m.1.1.0, λ k. m.1.1.1 k ∙ ground (arith, f k, above k)),
    ),
  )
  item-Makes none (some d) f = (
    m.0,
    ((p, (q, m.1.0)), ((λ k. ground (arith, f k, m.1.1.0 k)), λ k. ground (arith, m.1.1.1 k))),
  )
  item-Makes (some b) none f = (
    (p, m.0),
    (
      IsDescending-weaken x.from bound as' (omega arith) m.1.0,
      (
        (λ k. ground (arith, m.1.1.0 k)),
        λ k. elim (Bool-cases (holds x.from x.size k)) [
          | inl h ↦ rw h (value_in_below as' x.from k none m.1.0 (ground arith))
          | inr h ↦ rw h (m.1.1.1 k)
        ],
      ),
    ),
  )
  item-Makes (some b) (some d) f = elim (Bool-cases (eq d b)) [
    | inl h ↦ rw h (
      m.0,
      (
        IsDescending-weaken x.from bound as' (omega arith) m.1.0,
        (m.1.1.0, λ k. m.1.1.1 k ∙ ground (arith, f k, above k, sound d b h)),
      ),
    )
    | inr h ↦ rw h (
      (p, m.0),
      (
        (p, (q, m.1.0)),
        (
          (λ k. ground (arith, f k, m.1.1.0 k)),
          λ k. elim (Bool-cases (holds x.from x.size k)) [
            | inl h' ↦ rw h' refl
            | inr h' ↦ rw h' (m.1.1.1 k)
          ],
        ),
      ),
    )
  ]

module _ {T : Type 0} (eq : T → T → Bool) (sound : (a b : T) → eq a b ≡ true → a ≡ b) where
  changes-Makes :
      (es : List (Entry T)) (bound : ℕ) (vs : List (Item T × Option T))
      → IsVisit es bound vs
      → Makes es bound (removals_of eq vs) (additions_of eq vs) (value_after vs es)
  changes-Makes es bound [] v = (tt, (tt, ((λ k. refl), λ k. refl)))
  changes-Makes es bound ((x, after) ∷ vs) (p, (q, (f, v))) =
      item-Makes eq sound es bound x (removals_of eq vs) (additions_of eq vs) (value_after vs es) p
        q (λ k. value_after_below es vs x.from k v) (changes-Makes es x.from vs v) x.value after f

module _ {S E T : Type 0} (modify : S → ℕ → ℕ → Option T → Option (S × (E ⊎ Option T))) where
  abbrev IsVisited : List (Entry T) → ℕ → Option (Visited S E T) → Type 0
  IsVisited es bound none = Unit {0}
  IsVisited es bound (some v) = IsVisit es bound v.changes

  visit-IsVisited :
      (es : List (Entry T)) (start len : ℕ) (items : List (Item T)) (s : S)
      → IsCover es start len items
      → IsVisited es (start + len) (visit modify items s)
  unfolding visit
  visit-IsVisited es start len [] s c = tt
  visit-IsVisited es start len (x ∷ items) s (p, a, b, f, c) =
      elim (Option-cases (modify s x.from x.size x.value)) [
        | inl m ↦ rw m tt
        | inr ((s', inl error), m) ↦ rw m tt
        | inr ((s', inr after), m) ↦ rw m (
            rest after (visit modify items s')
              (visit-IsVisited es start (x.from - start) items s' c))
      ]
    where
      rest :
          (after : Option T) (o : Option (Visited S E T))
          → IsVisited es (start + (x.from - start)) o
          → IsVisited es
              (start + len)
              (o >>= λ v. some (record v { changes = (x, after) ∷ v.changes }))
      rest after none h = tt
      rest after (some v) h = (
        p,
        (
          omega (arith, b),
          (
            f,
            subst (λ (t : ℕ). IsVisit es t v.changes) {x = start + (x.from - start)} {y = x.from}
                (omega arith) h,
          ),
        ),
      )

module _ {S E T : Type 0} (eq : T → T → Bool) (sound : (a b : T) → eq a b ≡ true → a ≡ b)
    (modify : S → ℕ → ℕ → Option T → Option (S × (E ⊎ Option T))) where
  -- The result of a visit: where it panics so does the operation.
  abbrev pub IsUpdate : List (Entry T) → Option (Visited S E T) → Updated S E T → Type 0
  IsUpdate es none r = r ≡ Updated.panicked
  IsUpdate es (some v) r =
      (es' : List (Entry T)) × (r ≡ Updated.updated v.state (to_map es') v.error)
      × IsSorted 0 es'
      × ((k : ℕ) → lookup es' k ≡ value_after v.changes es k)

  applied :
      (es : List (Entry T)) (bound : ℕ) (iter : SplitIter T) (vs : List (Item T × Option T))
      → IsSorted 0 es
      → bound ≤ u64_mod
      → IsVisit es bound vs
      → iter.range_map ≡ to_map es
      → iter.removals ≡ removals_of eq vs
      → iter.additions ≡ additions_of eq vs
      → (es' : List (Entry T)) × (apply_updates eq iter ≡ some (to_map es'))
        × IsSorted 0 es'
        × ((k : ℕ) → lookup es' k ≡ value_after vs es k)
  unfolding apply_updates
  applied es bound iter vs sorted l v a b c =
      let (positive, (descending, (free, value))) = changes-Makes eq sound es bound vs v in
      let (es₁, e₁, s₁, f₁) = apply_removals-lookup es (removals_of eq vs) sorted positive in
      let (es₂, e₂, s₂, f₂) =
        apply_additions-lookup eq sound es₁ (additions_of eq vs) bound s₁ descending l
          (λ k. rw (f₁ k) (free k)) in
      (
        es₂,
        (λ i. apply_removals (a i) (b i) >>= λ m. apply_additions eq m (c i))
            ∙ ap
                (λ (o : Option (VecRangeMap T)).
                  o >>= λ m. apply_additions eq m (additions_of eq vs))
                e₁
            ∙ e₂,
        s₂,
        λ k. f₂ k ∙ ap (λ (o : Option T). value_in (additions_of eq vs) o k) (f₁ k) ∙ value k,
      )

  loop-IsUpdate :
      (es : List (Entry T)) (bound : ℕ) (iter : SplitIter T) (o : Option (Visited S E T))
      (r : Loop S E T)
      → IsSorted 0 es
      → bound ≤ u64_mod
      → iter.range_map ≡ to_map es
      → iter.removals ≡ []
      → iter.additions ≡ []
      → IsVisited modify es bound o
      → IsLoop eq modify iter o r
      → IsUpdate es o (after_loop eq modify r)
  loop-IsUpdate es bound iter none r sorted l p q t v e = rw e refl
  loop-IsUpdate es bound iter (some v) r sorted l p q t h (iter', e, (a, b, c)) =
      let (es', f, s, g) =
        applied es bound iter' v.changes sorted l h (a ∙ p)
          (b ∙ ap (λ (x : List (ℕ × ℕ)). x ++ removals_of eq v.changes) q)
          (c ∙ ap (λ (x : List (ℕ × ℕ × T)). x ++ additions_of eq v.changes) t) in
      (es', rw (e, f) refl, s, g)

  -- On sorted entries, with an equality of values that is sound and more fuel than the range of
  -- fewer than 2 ^ 64 addresses has addresses, updating the range visits the items of the iteration
  -- over it, which cover it, in their order up to the first error: where the function panics so
  -- does the update, and otherwise it returns the last state and the error of the visit, and leaves
  -- sorted entries where the addresses of each visited item have the value that the function left,
  -- and every other one is as before.
  pub overlapping_mut-IsUpdate :
      (fuel : ℕ) (s : S) (es : List (Entry T)) (start end : ℕ)
      → IsSorted 0 es
      → start ≤ end
      → end < u64_mod
      → end - start + 1 < u64_mod
      → end - start + 1 < fuel
      → (items : List (Item T)) × (overlapping_iter fuel (to_map es) start end
          ≡ Walk.finished items)
        × IsCover es start (end - start + 1) items
        × IsUpdate es
            (visit modify items s)
            (overlapping_mut eq modify fuel s (to_map es) start end)
  unfolding overlapping_mut new_split apply_updates overlapping_iter
  overlapping_mut-IsUpdate fuel s es start end sorted l e m n =
      let (items, w, c) = overlapping_iter-IsCovered fuel es 0 start end sorted l m n in
      let v = visit-IsVisited modify es start (end - start + 1) items s c in
      (
        items,
        w,
        c,
        elim (Option-cases (new_cursor (to_map es) start end)) [
          | inl f ↦ absurd (cc (rw f at w))
          | inr (cursor, f) ↦
              let iter : SplitIter T = record {
                cursor = cursor;
                range_map = to_map es;
                removals = [];
                additions = [];
              } in
              rw f (
                loop-IsUpdate es (start + (end - start + 1)) iter (visit modify items s)
                  (loop eq modify fuel s iter) sorted (omega arith) refl refl refl v
                  (loop-IsLoop eq modify fuel s iter items (rw f at w)))
        ],
      )
