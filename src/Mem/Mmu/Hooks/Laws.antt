-- ===== src/Mem/Mmu/Hooks/Laws.antt =====
-- Which handlers run after the changes of a `HookStore` of icicle-mem/src/mmu.rs.
use icicle_emu.Base.{
  ℕ, ◌≡◌, ◌≢◌, refl, sym, ◌∙◌, ap, arith, Bool, true, false, ◌&&◌, ◌||◌, Option, none, some, inl,
  inr, Bool-cases, List, [], ◌∷◌, ◌++◌, length, get_elem?, set, leb, ltb, if◌then◌else◌,
  get_elem?-set_ne, length-append, append_nil, append_assoc, ◌==◌,
}
use icicle_emu.Mem.Mmu.Hooks.{
  HookEntry, is_none, dead_slot, next_slot, add_at, add, dead_entry, remove, runs_at, handler_list,
  active_hooks,
}

abbrev found : Option ℕ → Bool
found none = false
found (some _) = true

module _ {H : Type 0} where
  -- A slot is free.
  abbrev pub has_dead : List (HookEntry H) → Bool
  has_dead [] = false
  has_dead (h ∷ hooks) = is_none h.handler || has_dead hooks

  dead_slot-has_dead : (hooks : List (HookEntry H)) → found (dead_slot hooks) ≡ has_dead hooks
  dead_slot-has_dead [] = refl
  dead_slot-has_dead (h ∷ hooks) = elim (Bool-cases (is_none h.handler)) [
    | inl d ↦ rw d refl
    | inr d ↦ rw d (by_rest (dead_slot hooks) ∙ dead_slot-has_dead hooks)
  ]
    where
      by_rest : (o : Option ℕ) → found (next_slot o) ≡ found o
      by_rest none = refl
      by_rest (some i) = refl

  active_hooks-append :
      (hooks more : List (HookEntry H)) (addr : ℕ)
      → active_hooks (hooks ++ more) addr ≡ active_hooks hooks addr ++ active_hooks more addr
  unfolding active_hooks
  active_hooks-append [] more addr = refl
  active_hooks-append (h ∷ hooks) more addr = elim (Bool-cases (runs_at h addr)) [
    | inl r ↦ rw r (
        ap (λ (l : List H). handler_list h.handler ++ l) (active_hooks-append hooks more addr)
        ∙ sym (
            append_assoc (handler_list h.handler) (active_hooks hooks addr)
              (active_hooks more addr)))
    | inr r ↦ rw r (active_hooks-append hooks more addr)
  ]

  -- After a hook is added, the handlers that run for an address are those before, and the new one,
  -- where its range covers the address, only if no slot of the store was dead: with a dead slot the
  -- new handler is lost.
  pub active_hooks-add :
      (hooks : List (HookEntry H)) (start end : ℕ) (handler : H) (addr : ℕ)
      → active_hooks (add hooks start end handler).1 addr
        ≡ active_hooks hooks addr
          ++ (if has_dead hooks
              then []
              else if leb start addr && ltb addr end
              then handler ∷ []
              else [])
  unfolding add active_hooks
  active_hooks-add hooks start end handler addr =
      by_slot (dead_slot hooks) (dead_slot-has_dead hooks)
    where
      by_slot :
          (o : Option ℕ)
          → found o ≡ has_dead hooks
          → active_hooks (add_at hooks start end handler o).1 addr
            ≡ active_hooks hooks addr
              ++ (if has_dead hooks
                  then []
                  else if leb start addr && ltb addr end
                  then handler ∷ []
                  else [])
      by_slot none e = rw (sym e) (active_hooks-append hooks _ addr)
      by_slot (some i) e = rw (sym e) (sym (append_nil (active_hooks hooks addr)))

  remove_middle :
      (before after : List (HookEntry H)) (h : HookEntry H) (addr : ℕ)
      → active_hooks (set (before ++ h ∷ after) (length before) dead_entry) addr
        ≡ active_hooks before addr ++ active_hooks after addr
  unfolding active_hooks
  remove_middle [] after h addr = elim (Bool-cases (leb 0 addr && ltb addr 0)) [
    | inl r ↦ rw r refl
    | inr r ↦ rw r refl
  ]
  remove_middle (x ∷ before) after h addr = elim (Bool-cases (runs_at x addr)) [
    | inl r ↦ rw r (
        ap (λ (l : List H). handler_list x.handler ++ l) (remove_middle before after h addr)
        ∙ sym (
            append_assoc (handler_list x.handler) (active_hooks before addr)
              (active_hooks after addr)))
    | inr r ↦ rw r (remove_middle before after h addr)
  ]

  length_in :
      (before after : List (HookEntry H)) (h : HookEntry H)
      → ltb (length before) (length (before ++ h ∷ after)) ≡ true
  length_in before after h = ground (arith, length-append before (h ∷ after))

  -- Removing a hook succeeds, stops its handler and no other, and every other identifier keeps its
  -- hook.
  pub active_hooks-remove :
      (before after : List (HookEntry H)) (h : HookEntry H) (addr id : ℕ)
      → ((remove (before ++ h ∷ after) (length before)).0 ≡ true)
        × (active_hooks (remove (before ++ h ∷ after) (length before)).1 addr
            ≡ active_hooks before addr ++ active_hooks after addr)
        × ((if id == length before
              then get_elem? (before ++ h ∷ after) id
              else get_elem? (remove (before ++ h ∷ after) (length before)).1 id)
            ≡ get_elem? (before ++ h ∷ after) id)
  unfolding remove
  active_hooks-remove before after h addr id = rw (length_in before after h) (
    refl,
    remove_middle before after h addr,
    elim (Bool-cases (id == length before)) [
      | inl c ↦ rw c refl
      | inr c ↦
          rw c (get_elem?-set_ne (before ++ h ∷ after) dead_entry (different (length before) id c))
    ],
  )
    where
      different : (a b : ℕ) → (b == a) ≡ false → a ≢ b
      different a b h = ground arith
