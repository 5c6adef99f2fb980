-- ===== src/Mem/Physical.antt =====
-- The allocator of pages: `PhysicalMemory` and the state of `Page` in icicle-mem/src/physical.rs. The
-- contents of a page are a type `D` with the contents of a fresh page, and of a zero page with given
-- permissions; sharing of contents is a copy. The vector of free pages has its last element first.
pub mod Laws
use icicle_emu.Base.{
  ℕ, zero, suc, ◌^◌, ◌+◌, ◌-◌, ◌*◌, ◌/◌, ◌%◌, Bool, true, false, not, ◌&&◌, ◌||◌, Option, none,
  some, ◌>>=◌, List, [], ◌∷◌, ◌++◌, leb, ltb, ◌==◌, if◌then◌else◌, length, get_elem?, set, take,
}

pub record Page (D : Type 0) : Type 0 where
  pub content : D
  pub copy_on_write : Bool
  pub modified : Bool
  pub executed : Bool

pub record PhysicalMemory (D : Type 0) : Type 0 where
  pub capacity : ℕ
  pub allocated : List (Page D)
  pub free : List ℕ

abbrev pub is_zero_page : ℕ → Bool
is_zero_page index = index == 0 || index == 1

-- The pages 0 and 1 are zeroed, read-only (MAP, READ, INIT) and read-write (WRITE as well).
unfoldable pub get_zero_page : ℕ → Option ℕ
get_zero_page perm = if perm == 0x13 then some 0 else if perm == 0x17 then some 1 else none

-- The index is a `u32`, and is shifted as one.
unfoldable pub address_of : ℕ → ℕ → ℕ
address_of vaddr index = index * 4096 % 2 ^ 32 + vaddr % 4096

module _ {D : Type 0} where
  -- `Page::clear`
  abbrev pub clear_page : Page D → Page D
  clear_page p = record {
    content = p.content;
    copy_on_write = false;
    modified = false;
    executed = false;
  }

  -- An assignment to one element, if it is in bounds.
  abbrev pub modify : List (Page D) → ℕ → (Page D → Page D) → List (Page D)
  modify [] i f = []
  modify (p ∷ r) zero f = f p ∷ r
  modify (p ∷ r) (suc i) f = p ∷ modify r i f

  unfoldable pub allocated_pages : PhysicalMemory D → ℕ
  allocated_pages m = length m.allocated - length m.free

  unfoldable pub set_capacity : PhysicalMemory D → ℕ → PhysicalMemory D × Bool
  set_capacity m new_capacity =
      if leb new_capacity (length m.allocated)
      then (m, false)
      else (record m { capacity = new_capacity }, true)

  unfoldable pub free_page : PhysicalMemory D → ℕ → PhysicalMemory D
  free_page m index = record m { free = index ∷ m.free }

  unfoldable pub clear_memory : PhysicalMemory D → PhysicalMemory D
  clear_memory m = record m { allocated = take 2 m.allocated; free = [] }

  unfoldable pub snapshot : PhysicalMemory D → PhysicalMemory D
  snapshot m = record { capacity = m.capacity; allocated = m.allocated; free = m.free }

  unfoldable pub restore : PhysicalMemory D → PhysicalMemory D → PhysicalMemory D
  restore m saved = record m { allocated = saved.allocated; free = saved.free }

  module _ (fresh : D) (zeroed : ℕ → D) where
    abbrev pub new_page : Page D
    new_page = record { content = fresh; copy_on_write = false; modified = false; executed = false }

    abbrev pub zero_page : ℕ → Bool → Page D
    zero_page perm copy_on_write = record {
      content = zeroed perm;
      copy_on_write = copy_on_write;
      modified = false;
      executed = false;
    }

    unfoldable pub new_memory : ℕ → PhysicalMemory D
    new_memory capacity = record {
      capacity = capacity;
      allocated = zero_page 0x13 false ∷ zero_page 0x17 true ∷ [];
      free = [];
    }

    -- `alloc`, by the vector of free pages.
    abbrev pub alloc_from : PhysicalMemory D → List ℕ → Option (ℕ × PhysicalMemory D)
    alloc_from m (index ∷ free) =
        some (index, record m { allocated = modify m.allocated index clear_page; free = free })
    alloc_from m [] =
        if leb m.capacity (length m.allocated)
        then none
        else some (
          length m.allocated,
          record m {
            allocated = modify (m.allocated ++ new_page ∷ []) (length m.allocated) clear_page;
          },
        )

    unfoldable pub alloc : PhysicalMemory D → Option (ℕ × PhysicalMemory D)
    alloc m = alloc_from m m.free

    -- The outer `none` is the failed assertion of `get_pair_mut`, or a read out of bounds.
    unfoldable pub clone_page : PhysicalMemory D → ℕ → Option (Option (ℕ × PhysicalMemory D))
    unfolding alloc
    clone_page m index = elim (alloc m) [
      | none ↦ some none
      | some (new_index, m') ↦
          if new_index == index
            || leb (length m'.allocated) new_index
            || ltb (length m'.allocated) index
          then none
          else get_elem? m'.allocated index >>= λ existing. some (
              some (
                new_index,
                record m' {
                  allocated =
                      modify m'.allocated new_index (λ p. record p { content = existing.content });
                },
              ))
    ]
