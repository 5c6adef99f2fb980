-- ===== src/Mem/Physical/Laws.antt =====
-- What the allocator of icicle-mem/src/physical.rs promises.
use icicle_emu.Base.{
  ℕ, suc, zero, ◌+◌, ◌≤◌, ◌<◌, ◌≡◌, ◌≢◌, false, refl, ◌∙◌, ap, arith, Option, none, some, List, [],
  ◌∷◌, ◌++◌, leb, ◌==◌, ==_iff, length, get_elem?, length-append, Bool-cases, inl, inr, ◌⊎◌,
}
use icicle_emu.Mem.Physical.{
  Page, PhysicalMemory, modify, clear_page, alloc, alloc_from, allocated_pages, new_page,
}

-- The free pages are allocated and are fewer.
abbrev pub AllBelow : ℕ → List ℕ → Type 0
AllBelow n [] = Unit {0}
AllBelow n (i ∷ r) = (i < n) × AllBelow n r

module _ {D : Type 0} where
  abbrev pub IsMemory : PhysicalMemory D → Type 0
  IsMemory m = AllBelow (length m.allocated) m.free × (length m.free ≤ length m.allocated)

  length-modify :
      (ps : List (Page D)) (i : ℕ) (f : Page D → Page D) → length (modify ps i f) ≡ length ps
  length-modify [] i f = refl
  length-modify (p ∷ ps) zero f = refl
  length-modify (p ∷ ps) (suc i) f = ap suc (length-modify ps i f)

  get_elem?-modify_ne :
      (ps : List (Page D)) (i j : ℕ) (f : Page D → Page D)
      → i ≢ j
      → get_elem? (modify ps i f) j ≡ get_elem? ps j
  get_elem?-modify_ne [] i j f h = refl
  get_elem?-modify_ne (p ∷ ps) zero zero f h = absurd (h refl)
  get_elem?-modify_ne (p ∷ ps) zero (suc j) f h = refl
  get_elem?-modify_ne (p ∷ ps) (suc i) zero f h = refl
  get_elem?-modify_ne (p ∷ ps) (suc i) (suc j) f h =
      get_elem?-modify_ne ps i j f (λ e. h (ap suc e))

  get_elem?-append :
      (ps qs : List (Page D)) (j : ℕ) → j < length ps → get_elem? (ps ++ qs) j ≡ get_elem? ps j
  get_elem?-append [] qs j h = absurd (omega arith)
  get_elem?-append (p ∷ ps) qs zero h = refl
  get_elem?-append (p ∷ ps) qs (suc j) h = get_elem?-append ps qs j (omega arith)

  -- The page is there, and its state is that of an unused one.
  abbrev pub IsCleared : Option (Page D) → Type 0
  IsCleared none = ⊥
  IsCleared (some p) = (p.copy_on_write ≡ false) × (p.modified ≡ false) × (p.executed ≡ false)

  modify-IsCleared :
      (ps : List (Page D)) (i : ℕ)
      → i < length ps
      → IsCleared (get_elem? (modify ps i clear_page) i)
  modify-IsCleared [] i h = absurd (omega arith)
  modify-IsCleared (p ∷ ps) zero h = (refl, refl, refl)
  modify-IsCleared (p ∷ ps) (suc i) h = modify-IsCleared ps i (omega arith)

  -- The index was not in use: it was the last of the free pages, or there were none, the page is
  -- behind all others and within the capacity.
  abbrev pub WasFree : PhysicalMemory D → ℕ → PhysicalMemory D → Type 0
  WasFree m i m' =
      (m.free ≡ i ∷ m'.free)
      ⊎ ((m.free ≡ [])
          × (m'.free ≡ [])
          × (i ≡ length m.allocated)
          × (length m.allocated < m.capacity))

  -- An allocation and what it keeps.
  abbrev pub IsAllocation : PhysicalMemory D → ℕ → Option (ℕ × PhysicalMemory D) → ℕ → Type 0
  IsAllocation m capacity r j =
      ((r ≡ none) × (m.free ≡ []) × (capacity ≤ length m.allocated))
      ⊎ ((i : ℕ) × (m' : PhysicalMemory D) × (r ≡ some (i, m'))
          × IsMemory m'
          × (i < length m'.allocated)
          × WasFree m i m'
          × IsCleared (get_elem? m'.allocated i)
          × (allocated_pages m' ≡ allocated_pages m + 1)
          × ((i ≡ j) ⊎ (get_elem? m'.allocated j ≡ get_elem? m.allocated j)))

  module _ (fresh : D) (zeroed : ℕ → D) where
    alloc_from-IsAllocation :
        (capacity : ℕ) (allocated : List (Page D)) (free : List ℕ) (j : ℕ)
        → IsMemory (record { capacity = capacity; allocated = allocated; free = free })
        → j < length allocated
        → IsAllocation
            (record { capacity = capacity; allocated = allocated; free = free })
            capacity
            (alloc_from fresh zeroed
              (record { capacity = capacity; allocated = allocated; free = free })
              free)
            j
    unfolding allocated_pages
    alloc_from-IsAllocation capacity allocated (i ∷ free) j ((b, all), few) h =
        let size = length-modify allocated i clear_page in
        inr (
          i,
          record { capacity = capacity; allocated = modify allocated i clear_page; free = free },
          refl,
          (rw size all, omega (arith, size)),
          omega (arith, size),
          inl refl,
          modify-IsCleared allocated i b,
          omega (arith, size),
          elim (Bool-cases (i == j)) [
            | inl e ↦ inl ((==_iff i j).0 e)
            | inr n ↦
                inr (get_elem?-modify_ne allocated i j clear_page (λ e. absurd (ground arith)))
          ],
        )
    alloc_from-IsAllocation capacity allocated [] j all h =
        elim (Bool-cases (leb capacity (length allocated))) [
          | inl full ↦ inl (rw full refl, refl, ground arith)
          | inr room ↦
              let new = allocated ++ new_page fresh zeroed ∷ [] in
              let size = length-modify new (length allocated) clear_page in
              let longer = length-append allocated (new_page fresh zeroed ∷ []) in
              inr (
                length allocated,
                record {
                  capacity = capacity;
                  allocated = modify new (length allocated) clear_page;
                  free = [];
                },
                rw room refl,
                (tt, omega arith),
                omega (arith, size, longer),
                inr (refl, refl, refl, ground arith),
                modify-IsCleared new (length allocated) (omega (arith, longer)),
                omega (arith, size, longer),
                inr (
                    get_elem?-modify_ne new (length allocated) j clear_page
                      (λ e. absurd (omega arith))
                    ∙ get_elem?-append allocated _ j h),
              )
        ]

    -- In a memory whose free pages are allocated, an allocation fails only without free pages and
    -- at the capacity; otherwise it gives an index in bounds that was the last of the free pages
    -- or, without free pages and below the capacity, one behind all pages, clears the state of that
    -- page, keeps the memory so, counts one page more and changes no other page.
    pub alloc-IsAllocation :
        (m : PhysicalMemory D) (j : ℕ)
        → IsMemory m
        → j < length m.allocated
        → IsAllocation m m.capacity (alloc fresh zeroed m) j
    unfolding alloc
    alloc-IsAllocation m j v h = alloc_from-IsAllocation m.capacity m.allocated m.free j v h
