-- ===== src/Mem/Page/Accesses.antt =====
-- Reads and writes of a page of icicle-mem/src/physical.rs.
use icicle_emu.Base.{
  ℕ, ◌+◌, ◌≤◌, ◌≡◌, ◌⊎◌, inl, inr, refl, sym, ◌∙◌, ap, arith, true, Bool-cases, some, List, bit_or,
  length, length-map,
}
use icicle_emu.Mem.Perm.{MemResult, check_bytes}
use icicle_emu.Mem.Perm.Flags
use icicle_emu.Mem.Page.{
  PageData, slice, copy_at, or_bytes, offset_in_page, is_aligned, is_access_size, checked, read,
  write,
}
use icicle_emu.Mem.Page.Bytes.{slice-copy_at, slice-copy_at_after, slice-copy_at_before}
use icicle_emu.Mem.Page.Alignment.{is_aligned-fits}
use icicle_emu.Mem.Page.Permissions.{
  IsPage, length-slice, get_or-slice, check_bytes-init, add_perm_unchecked-or_bytes,
}

-- What a write that passes the checks leaves.
abbrev written : ℕ → PageData → ℕ → List ℕ → PageData
written n d o value = record {
  content = copy_at d.content o value;
  perm = copy_at d.perm o (or_bytes (slice d.perm o n) Flags.init);
}

ok_of :
    {A : Type 0} (c : MemResult (Unit {0})) (x y : A)
    → some (checked c x) ≡ some (MemResult.ok y)
    → (c ≡ MemResult.ok tt) × (x ≡ y)
ok_of (MemResult.ok u) x y e = (refl, cc)
ok_of (MemResult.err m) x y e = absurd (cc e)

write-ok :
    (n : ℕ) (d d' : PageData) (addr : ℕ) (value : List ℕ) (perm : ℕ)
    → IsPage d
    → write n d addr value perm ≡ some (MemResult.ok d')
    → (is_access_size n ≡ true)
      × (is_aligned n addr ≡ true)
      × (check_bytes (slice d.perm (offset_in_page addr) n) (bit_or perm Flags.mapped)
          ≡ MemResult.ok tt)
      × (d' ≡ written n d (offset_in_page addr) value)
unfolding write
write-ok n d d' addr value perm h e = elim (Bool-cases (is_access_size n)) [
  | inl s ↦ elim (Bool-cases (is_aligned n addr)) [
    | inl a ↦
        let (c, r) = ok_of _ _ _ (rw (s, a) at e) in
        let step =
          add_perm_unchecked-or_bytes d (offset_in_page addr) n Flags.init h
            (is_aligned-fits n addr s a) (omega arith) in
        (
          s,
          a,
          c,
          sym r
              ∙ ap
                  (λ (p : PageData). record p {
                    content = copy_at p.content (offset_in_page addr) value;
                  })
                  step,
        )
    | inr a ↦ absurd (cc (rw (s, a) at e))
  ]
  | inr s ↦ absurd (cc (rw s at e))
]

-- A read that passes the checks.
read-checked :
    (n : ℕ) (d : PageData) (addr : ℕ) (perm : ℕ)
    → is_access_size n ≡ true
    → is_aligned n addr ≡ true
    → check_bytes (slice d.perm (offset_in_page addr) n) (bit_or perm Flags.mapped)
      ≡ MemResult.ok tt
    → read n d addr perm ≡ some (MemResult.ok (slice d.content (offset_in_page addr) n))
unfolding read
read-checked n d addr perm s a c = rw (s, a, c) refl

-- The slices of what is written.
slice-same :
    (bytes : List ℕ) (o n : ℕ) (value : List ℕ)
    → length value ≡ n
    → o + n ≤ length bytes
    → slice (copy_at bytes o value) o n ≡ value
slice-same bytes o n value l h =
    ap (slice (copy_at bytes o value) o) (sym l) ∙ slice-copy_at bytes o value (omega (arith, l))

slice-other :
    (bytes : List ℕ) (o : ℕ) (value : List ℕ) (p m : ℕ)
    → (o + length value ≤ p) ⊎ (p + m ≤ o)
    → slice (copy_at bytes o value) p m ≡ slice bytes p m
slice-other bytes o value p m (inl h) = slice-copy_at_after bytes o value p m h
slice-other bytes o value p m (inr h) = slice-copy_at_before bytes o value p m h

-- On a page of 4096 bytes and permissions, a read with the same permissions after a write that
-- succeeded returns the bytes that were written.
pub read-write :
    (n : ℕ) (d d' : PageData) (addr : ℕ) (value : List ℕ) (perm : ℕ)
    → IsPage d
    → length value ≡ n
    → write n d addr value perm ≡ some (MemResult.ok d')
    → read n d' addr perm ≡ some (MemResult.ok value)
read-write n d d' addr value perm (lc, lp, b) l e =
    let (s, a, c, r) = write-ok n d d' addr value perm (lc, lp, b) e in
    let o = offset_in_page addr in
    let fits = is_aligned-fits n addr s a in
    let old = slice d.perm o n in
    let size = length-slice d.perm o n (omega (arith, lp, fits)) in
    let perms : slice d'.perm o n ≡ or_bytes old Flags.init =
      ap (λ (p : PageData). slice p.perm o n) r
      ∙ slice-same d.perm o n (or_bytes old Flags.init) (length-map old _ ∙ size)
          (omega (arith, lp, fits)) in
    let bytes : slice d'.content o n ≡ value =
      ap (λ (p : PageData). slice p.content o n) r
      ∙ slice-same d.content o n value l (omega (arith, lc, fits)) in
    read-checked n d' addr perm s a (
      ap (λ (l : List ℕ). check_bytes l (bit_or perm Flags.mapped)) perms
      ∙ check_bytes-init old (bit_or perm Flags.mapped) (λ k. get_or-slice d.perm o n k b) c)
    ∙ ap (λ (l : List ℕ). some (MemResult.ok l)) bytes

-- A write that succeeds does not change the result of a read of other bytes of the page, with any
-- permissions.
pub read-write_other :
    (n m : ℕ) (d d' : PageData) (addr other : ℕ) (value : List ℕ) (perm mask : ℕ)
    → IsPage d
    → length value ≡ n
    → write n d addr value perm ≡ some (MemResult.ok d')
    → (offset_in_page addr + n ≤ offset_in_page other)
      ⊎ (offset_in_page other + m ≤ offset_in_page addr)
    → read m d' other mask ≡ read m d other mask
unfolding read
read-write_other n m d d' addr other value perm mask (lc, lp, b) l e h =
    let (s, a, c, r) = write-ok n d d' addr value perm (lc, lp, b) e in
    let o = offset_in_page addr in
    let fits = is_aligned-fits n addr s a in
    let old = slice d.perm o n in
    let size : length (or_bytes old Flags.init) ≡ n =
      length-map old _ ∙ length-slice d.perm o n (omega (arith, lp, fits)) in
    let perms =
      ap (λ (p : PageData). slice p.perm (offset_in_page other) m) r
      ∙ slice-other d.perm o (or_bytes old Flags.init) (offset_in_page other) m
          (ground (arith, size, h)) in
    let bytes =
      ap (λ (p : PageData). slice p.content (offset_in_page other) m) r
      ∙ slice-other d.content o value (offset_in_page other) m (ground (arith, l, h)) in
    rw (perms, bytes) refl
