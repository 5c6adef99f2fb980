-- ===== src/Mem/Mmu/Hooks.antt =====
-- `HookStore` of icicle-mem/src/mmu.rs, with the type of the handlers as a parameter. The identifiers of
-- a store are the indices of its slots; those of a `u32` are not bounded here.
pub mod Laws
use icicle_emu.Base.{
  ℕ, zero, suc, ◌+◌, ◌-◌, ◌<◌, ◌≤◌, ◌≡◌, ◌≢◌, refl, ◌∙◌, ap, arith, Bool, true, false, ◌&&◌, ◌||◌,
  Option, none, some, ◌⊎◌, inl, inr, Bool-cases, List, [], ◌∷◌, ◌++◌, length, get_elem?, set,
  bit_and, ltb, leb, ◌==◌, if◌then◌else◌, u64_mod, u64_max, length-set, get_elem?-set_self,
  get_elem?-set_ne,
}

pub record HookEntry (H : Type 0) : Type 0 where
  pub start : ℕ
  pub end : ℕ
  pub handler : Option H

-- A page size is a power of two; the sum with it is that of a `u64`, an overflow of which is `none`.
unfoldable pub page_range : ℕ → ℕ → ℕ → Option (ℕ × ℕ)
page_range start end page_size =
    let alignment_mask = u64_max - (page_size - 1) in
    if ltb (end + page_size) u64_mod
    then some (bit_and start alignment_mask, bit_and (end + page_size) alignment_mask)
    else none

-- `none` is the panic on a range that passes the end of the address space.
abbrev pub contained : ℕ → Option (ℕ × ℕ) → Option Bool
contained addr none = none
contained addr (some (start, end)) = some (leb start addr && leb addr end)

abbrev pub or_else : Option Bool → Option Bool → Option Bool
or_else none rest = none
or_else (some true) rest = some true
or_else (some false) rest = rest

abbrev pub next_slot : Option ℕ → Option ℕ
next_slot none = none
next_slot (some i) = some (suc i)

module _ {H : Type 0} where
  abbrev pub is_none : Option H → Bool
  is_none none = true
  is_none (some _) = false

  -- `Iterator::position` of the first dead slot.
  abbrev pub dead_slot : List (HookEntry H) → Option ℕ
  dead_slot [] = none
  dead_slot (h ∷ hooks) =
      let rest = dead_slot hooks in if is_none h.handler then some 0 else next_slot rest

  -- `add`, by the slot found. The closure that adds the hook runs only when there is none.
  abbrev pub add_at : List (HookEntry H) → ℕ → ℕ → H → Option ℕ → ℕ × List (HookEntry H)
  add_at hooks start end handler (some id) = (id, hooks)
  add_at hooks start end handler none =
      (length hooks, hooks ++ record { start = start; end = end; handler = some handler } ∷ [])

  unfoldable pub add : List (HookEntry H) → ℕ → ℕ → H → ℕ × List (HookEntry H)
  add hooks start end handler = add_at hooks start end handler (dead_slot hooks)

  abbrev pub dead_entry : HookEntry H
  dead_entry = record { start = 0; end = 0; handler = none }

  unfoldable pub remove : List (HookEntry H) → ℕ → Bool × List (HookEntry H)
  remove hooks id =
      if ltb id (length hooks) then (true, set hooks id dead_entry) else (false, hooks)

  -- The handlers that `active_hooks` runs for an address, in order.
  abbrev pub runs_at : HookEntry H → ℕ → Bool
  runs_at h addr = leb h.start addr && ltb addr h.end

  abbrev pub handler_list : Option H → List H
  handler_list none = []
  handler_list (some h) = h ∷ []

  unfoldable pub active_hooks : List (HookEntry H) → ℕ → List H
  active_hooks [] addr = []
  active_hooks (h ∷ hooks) addr =
      let rest = active_hooks hooks addr in
      if runs_at h addr then handler_list h.handler ++ rest else rest

  unfoldable pub contains_address : List (HookEntry H) → ℕ → ℕ → Option Bool
  unfolding page_range
  contains_address [] addr page_size = some false
  contains_address (h ∷ hooks) addr page_size =
      let rest = contains_address hooks addr page_size in
      if is_none h.handler
      then rest
      else or_else (contained addr (page_range h.start h.end page_size)) rest
