-- ===== src/Mem/RangeMap/Split/Visits.antt =====
-- The loop of `overlapping_mut` of icicle-mem/src/range_map.rs beside `overlapping_iter`: the items in
-- their order, each given to the function once, up to the first error.
use mathlib.Core.Path.{subst}
use icicle_emu.Base.{
  ℕ, zero, suc, ◌≡◌, refl, sym, ◌∙◌, ap, Bool, ◌⊎◌, inl, inr, Option, none, some, ◌>>=◌, List, [],
  ◌∷◌, ◌++◌, if◌then◌else◌, Bool-cases, Option-cases, append_nil, append_assoc,
}
use icicle_emu.Mem.RangeMap.Cursor.{next}
use icicle_emu.Mem.RangeMap.Walk.{Item, Walk, value_of, walk, with_item}
use icicle_emu.Mem.RangeMap.Split.{
  SplitIter, Loop, changed, register, add_piece, step, continue, loop,
}

-- The items that the function was given, each with the value that it left, its last state, and its
-- error. `none` is a panic.
pub record Visited (S E T : Type 0) : Type 0 where
  pub state : S
  pub error : Option E
  pub changes : List (Item T × Option T)

module _ {S E T : Type 0} (modify : S → ℕ → ℕ → Option T → Option (S × (E ⊎ Option T))) where
  abbrev pub visit_after :
      Item T → (S → Option (Visited S E T)) → S × (E ⊎ Option T) → Option (Visited S E T)
  visit_after x rest (s, inl error) = some (record { state = s; error = some error; changes = [] })
  visit_after x rest (s, inr after) = do
    v ← rest s
    some (record v { changes = (x, after) ∷ v.changes })

  unfoldable pub visit : List (Item T) → S → Option (Visited S E T)
  visit [] s = some (record { state = s; error = none; changes = [] })
  visit (x ∷ items) s = modify s x.from x.size x.value >>= visit_after x (visit items)

module _ {T : Type 0} (eq : T → T → Bool) where
  abbrev pub removal_of : Item T → Option T → Option T → List (ℕ × ℕ)
  removal_of x (some before) after = if changed eq before after then (x.from, x.size) ∷ [] else []
  removal_of x none after = []

  abbrev pub addition : Item T → Option T → List (ℕ × ℕ × T)
  addition x none = []
  addition x (some d) = (x.from, x.size, d) ∷ []

  abbrev pub addition_of : Item T → Option T → Option T → List (ℕ × ℕ × T)
  addition_of x (some before) after = if changed eq before after then addition x after else []
  addition_of x none after = addition x after

  abbrev pub removals_of : List (Item T × Option T) → List (ℕ × ℕ)
  removals_of [] = []
  removals_of ((x, after) ∷ vs) = removal_of x x.value after ++ removals_of vs

  abbrev pub additions_of : List (Item T × Option T) → List (ℕ × ℕ × T)
  additions_of [] = []
  additions_of ((x, after) ∷ vs) = addition_of x x.value after ++ additions_of vs

  -- The iterator with the updates of a list of changes.
  abbrev pub IsUpdated : SplitIter T → List (Item T × Option T) → SplitIter T → Type 0
  IsUpdated iter vs iter' =
      (iter'.range_map ≡ iter.range_map)
      × (iter'.removals ≡ iter.removals ++ removals_of vs)
      × (iter'.additions ≡ iter.additions ++ additions_of vs)

  -- What one item adds to the updates.
  abbrev pub IsRegistered : SplitIter T → SplitIter T → List (ℕ × ℕ) → List (ℕ × ℕ × T) → Type 0
  IsRegistered iter iter' removals additions =
      (iter'.range_map ≡ iter.range_map)
      × (iter'.removals ≡ iter.removals ++ removals)
      × (iter'.additions ≡ iter.additions ++ additions)

  add_piece-IsRegistered :
      (iter : SplitIter T) (x : Item T) (after : Option T)
      → IsRegistered iter (add_piece iter x.from x.size after) [] (addition x after)
  add_piece-IsRegistered iter x none =
      (refl, sym (append_nil iter.removals), sym (append_nil iter.additions))
  add_piece-IsRegistered iter x (some d) = (refl, sym (append_nil iter.removals), refl)

  register-IsRegistered :
      (iter : SplitIter T) (x : Item T) (before after : Option T)
      → IsRegistered iter
          (register eq iter x.from x.size before after)
          (removal_of x before after)
          (addition_of x before after)
  register-IsRegistered iter x none after = add_piece-IsRegistered iter x after
  register-IsRegistered iter x (some before) after = elim (Bool-cases (changed eq before after)) [
    | inl h ↦
        let removed = record iter { removals = iter.removals ++ (x.from, x.size) ∷ [] } in
        let (b, c, d) = add_piece-IsRegistered removed x after in
        rw h (b, c ∙ append_nil removed.removals, d)
    | inr h ↦ rw h (refl, sym (append_nil iter.removals), sym (append_nil iter.additions))
  ]

  register-cursor :
      (iter : SplitIter T) (x : Item T) (before after : Option T)
      → (register eq iter x.from x.size before after).cursor ≡ iter.cursor
  register-cursor iter x none none = refl
  register-cursor iter x none (some d) = refl
  register-cursor iter x (some before) none = refl
  register-cursor iter x (some before) (some d) = elim (Bool-cases (eq d before)) [
    | inl h ↦ rw h refl
    | inr h ↦ rw h refl
  ]

  IsUpdated-cons :
      (iter iter' iter'' : SplitIter T) (x : Item T) (after : Option T)
      (vs : List (Item T × Option T))
      → IsRegistered iter iter' (removal_of x x.value after) (addition_of x x.value after)
      → IsUpdated iter' vs iter''
      → IsUpdated iter ((x, after) ∷ vs) iter''
  IsUpdated-cons iter iter' iter'' x after vs (a, b, c) (p, q, r) = (
    p ∙ a,
    q
        ∙ ap (λ (l : List (ℕ × ℕ)). l ++ removals_of vs) b
        ∙ append_assoc iter.removals (removal_of x x.value after) (removals_of vs),
    r
        ∙ ap (λ (l : List (ℕ × ℕ × T)). l ++ additions_of vs) c
        ∙ append_assoc iter.additions (addition_of x x.value after) (additions_of vs),
  )

module _ {S E T : Type 0} (eq : T → T → Bool)
    (modify : S → ℕ → ℕ → Option T → Option (S × (E ⊎ Option T))) where
  -- The loop ends as the visit does.
  abbrev pub IsLoop : SplitIter T → Option (Visited S E T) → Loop S E T → Type 0
  IsLoop iter none r = r ≡ Loop.panicked
  IsLoop iter (some v) r =
      (iter' : SplitIter T) × (r ≡ Loop.ended v.state iter' v.error)
      × IsUpdated eq iter v.changes iter'

  finished_items : {a b : List (Item T)} → Walk.finished a ≡ Walk.finished b → a ≡ b
  finished_items h = cc

  with_item_parts :
      (x : Item T) (w : Walk T) (items : List (Item T))
      → with_item x w ≡ Walk.finished items
      → (rest : List (Item T)) × (w ≡ Walk.finished rest) × (x ∷ rest ≡ items)
  with_item_parts x (Walk.finished rest) items h = (rest, refl, finished_items h)
  with_item_parts x Walk.panicked items h = absurd (cc h)
  with_item_parts x Walk.out_of_fuel items h = absurd (cc h)

  next-IsLoop :
      (iter iter' : SplitIter T) (x : Item T) (after : Option T) (o : Option (Visited S E T))
      (r : Loop S E T)
      → IsRegistered eq iter iter' (removal_of eq x x.value after) (addition_of eq x x.value after)
      → IsLoop iter' o r
      → IsLoop iter (o >>= λ v. some (record v { changes = (x, after) ∷ v.changes })) r
  next-IsLoop iter iter' x after none r h e = e
  next-IsLoop iter iter' x after (some v) r h (iter'', e, u) =
      (iter'', e, IsUpdated-cons eq iter iter' iter'' x after v.changes h u)

  pub loop-IsLoop :
      (fuel : ℕ) (s : S) (iter : SplitIter T) (items : List (Item T))
      → walk fuel iter.range_map iter.cursor ≡ Walk.finished items
      → IsLoop iter (visit modify items s) (loop eq modify fuel s iter)
  unfolding walk loop step visit
  loop-IsLoop zero s iter items h = absurd (cc h)
  loop-IsLoop (suc fuel) s iter items h = elim (Option-cases (next iter.range_map iter.cursor)) [
    | inl e ↦ absurd (cc (rw e at h))
    | inr ((none, c), e) ↦
        subst
          (λ items.
            IsLoop iter (visit modify items s)
              (continue eq modify (loop eq modify fuel) (step eq modify s iter)))
          (finished_items (rw e at h))
          (rw e (
            record iter { cursor = c },
            refl,
            (refl, sym (append_nil iter.removals), sym (append_nil iter.additions)),
          ))
    | inr ((some p, c), e) ↦ elim (Option-cases (value_of iter.range_map p.slot)) [
      | inl g ↦ absurd (cc (rw (e, g) at h))
      | inr (before, g) ↦
          let x : Item T = record { from = p.from; size = p.size; value = before } in
          let (rest, w, q) =
            with_item_parts x (walk fuel iter.range_map c) items (rw (e, g) at h) in
          subst
            (λ items.
              IsLoop iter (visit modify items s)
                (continue eq modify (loop eq modify fuel) (step eq modify s iter)))
            q
            (rw (e, g)
              (elim (Option-cases (modify s p.from p.size before)) [
                | inl m ↦ rw m refl
                | inr ((s', inl error), m) ↦ rw m (
                  record iter { cursor = c },
                  refl,
                  (refl, sym (append_nil iter.removals), sym (append_nil iter.additions)),
                )
                | inr ((s', inr after), m) ↦
                    let here = record iter { cursor = c } in
                    let there = register eq here x.from x.size before after in
                    let (b, k, l) = register-IsRegistered eq here x before after in
                    rw m (
                      next-IsLoop iter there x after (visit modify rest s')
                        (loop eq modify fuel s' there) (b, k, l)
                        (loop-IsLoop fuel s' there rest
                          (rw (register-cursor eq here x before after, b) w)))
              ]))
    ]
  ]
