-- ===== src/Mem/Mmu/Regions/Unmap.antt =====
-- What `unmap_memory_len` of icicle-mem/src/mmu.rs leaves.
use mathlib.Core.Path.{subst}
use icicle_emu.Base.{
  ℕ, zero, suc, ◌+◌, ◌-◌, ◌/◌, ◌*◌, ◌≤◌, ◌<◌, ◌≡◌, refl, ◌∙◌, arith, Bool, true, false, not, ◌&&◌,
  ◌||◌, inl, inr, Option, none, some, List, [], ◌∷◌, Bool-cases, if◌then◌else◌, leb, ltb, ◌==◌,
  ==_iff, get_elem?, set, get_elem?-set_self, get_elem?-set_ne, length, u64_mod, bit_and, ◌^◌,
  replicate,
}
use icicle_emu.Mem.Physical.{PhysicalMemory, Page}
use icicle_emu.Mem.Page.{PageData, copy_at, offset_in_page}
use icicle_emu.Mem.Page.Alignment.{and-mask}
use icicle_emu.Mem.RangeMap.Entries.{Entry, lookup}
use icicle_emu.Mem.Tlb.{}
use icicle_emu.Mem.Tlb.Laws.{IsGone, remove_range-IsGone}
use icicle_emu.Mem.Mmu.{MemoryMapping}
use icicle_emu.Mem.Mmu.Regions.{Unmapping, change_page, fill_perm, unless_executed, unmap_piece}

abbrev pub Entries : Type 0
Entries = List (Entry MemoryMapping)

-- A page is mapped at the addresses of the page that its mapping names.
abbrev pub IsPaged : Entries → Type 0
IsPaged es =
    (k index addr : ℕ)
    → lookup es k ≡ some (MemoryMapping.physical index addr)
    → k / 4096 * 4096 ≡ addr

-- The pages that are mapped are there, and have not been executed.
abbrev pub AreData : Entries → PhysicalMemory PageData → Type 0
AreData es physical =
    (k index addr : ℕ)
    → lookup es k ≡ some (MemoryMapping.physical index addr)
    → (page : Page PageData) × (get_elem? physical.allocated index ≡ some page)
      × (page.executed ≡ false)

abbrev pub is_mapped : Option MemoryMapping → Bool
is_mapped none = false
is_mapped (some mapping) = true

get_elem?-lt : {A : Type 0} (xs : List A) (i : ℕ) (a : A) → get_elem? xs i ≡ some a → i < length xs
get_elem?-lt [] i a e = cc (e)
get_elem?-lt (x ∷ xs) zero a e = omega arith
get_elem?-lt (x ∷ xs) (suc i) a e = omega (arith, get_elem?-lt xs i a e)

-- The page of a piece loses its permissions, and no page becomes executed.
cleared :
    (es : Entries) (physical : PhysicalMemory PageData) (index offset len : ℕ)
    (page : Page PageData)
    → AreData es physical
    → get_elem? physical.allocated index ≡ some page
    → page.executed ≡ false
    → offset + len ≤ 4096
    → (p' : PhysicalMemory PageData) × (change_page physical index
          (unless_executed (fill_perm offset len 0))
        ≡ some p')
      × AreData es p'
cleared es physical index offset len page d g x l =
    let fits : leb (offset + len) 4096 ≡ true = ground arith in
    let page' : Page PageData = record page {
      content = record (page.content) { perm = copy_at page.content.perm offset (replicate len 0) };
    } in
    (
      record physical { allocated = set physical.allocated index page' },
      rw (g, x, fits) refl,
      λ k i a e. elim (Bool-cases (index == i)) [
        | inl same ↦
            let at : index ≡ i = (==_iff index i).0 same in
            (
              page',
              subst (λ (i : ℕ). get_elem? (set physical.allocated index page') i ≡ some page') at
                  (get_elem?-set_self physical.allocated index page'
                    (get_elem?-lt physical.allocated index page g)),
              x,
            )
        | inr other ↦
            let (q, f, y) = d k i a e in
            (
              q,
              get_elem?-set_ne physical.allocated {i = index} {j = i} page'
                    (λ r. absurd (ground arith))
                  ∙ f,
              y,
            )
      ],
    )

-- What one piece does: it is taken, and a gap is noted.
abbrev pub IsTaken : Entries → ℕ → ℕ → Option MemoryMapping → Unmapping → Unmapping → Type 0
IsTaken es start len value b b' =
    (b'.partially_unmapped ≡ (b.partially_unmapped || not (is_mapped value)))
    × AreData es b'.physical
    × ((k : ℕ) → k < u64_mod → IsGone b.tlb k → IsGone b'.tlb k)
    × ((k index addr : ℕ)
        → k < u64_mod
        → start ≤ k
        → k < start + len
        → value ≡ some (MemoryMapping.physical index addr)
        → IsGone b'.tlb k)

pub unmap_piece-IsTaken :
    (es : Entries) (start len : ℕ) (value : Option MemoryMapping) (b : Unmapping)
    → IsPaged es
    → AreData es b.physical
    → 0 < len
    → start + len ≤ u64_mod
    → ((k : ℕ) → (if leb start k && ltb k (start + len) then lookup es k else value) ≡ value)
    → (b' : Unmapping) × (unmap_piece b start len value ≡ some (b', inr none))
      × IsTaken es start len value b b'
unfolding unmap_piece offset_in_page
unmap_piece-IsTaken es start len none b paged d p l f = (
  record b { partially_unmapped = true },
  refl,
  (ground arith, d, (λ k m g. g), λ k i a m n o e. absurd (cc (e))),
)
unmap_piece-IsTaken es start len (some (MemoryMapping.unallocated q v)) b paged d p l f =
    (b, refl, (ground arith, d, (λ k m g. g), λ k i a m n o e. absurd (cc (e))))
unmap_piece-IsTaken es start len (some (MemoryMapping.io id)) b paged d p l f =
    (b, refl, (ground arith, d, (λ k m g. g), λ k i a m n o e. absurd (cc (e))))
unmap_piece-IsTaken es start len (some (MemoryMapping.physical index addr)) b paged d p l f =
    let first : lookup es start ≡ some (MemoryMapping.physical index addr) =
      ground (arith, f start) in
    let last : lookup es (start + (len - 1)) ≡ some (MemoryMapping.physical index addr) =
      ground (arith, f (start + (len - 1))) in
    let (page, g, x) = d start index addr first in
    let inside : bit_and start (2 ^ 12 - 1) + len ≤ 4096 = omega (
      arith,
      and-mask 12 start,
      paged start index addr first,
      paged (start + (len - 1)) index addr last,
    ) in
    let (t, e, gone, kept) = remove_range-IsGone b.tlb start len p l in
    elim (Bool-cases (len == 4096)) [
      | inl whole ↦ (
        record b { tlb = t },
        rw (e, whole) refl,
        (ground arith, d, kept, λ k i a m n o _. gone k m n o),
      )
      | inr part ↦
          let (physical, e', d') =
            cleared es b.physical index (bit_and start (2 ^ 12 - 1)) len page d g x inside in
          (
            record b { tlb = t; physical = physical },
            rw (e, part, e') refl,
            (ground arith, d', kept, λ k i a m n o _. gone k m n o),
          )
    ]
