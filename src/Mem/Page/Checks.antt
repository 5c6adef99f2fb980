-- ===== src/Mem/Page/Checks.antt =====
-- `check_bytes` of icicle-mem/src/perm.rs against the check of the intersection of the permissions,
-- `get_perm_unchecked` of icicle-mem/src/physical.rs.
use icicle_emu.Base.{
  ℕ, ◌%◌, ◌-◌, ◌<◌, ◌≡◌, refl, sym, ◌∙◌, ap, arith, Bool, true, false, not, ◌||◌, ◌&&◌, some, List,
  [], ◌∷◌, map, bit_and, bit_or, ◌==◌, if◌then◌else◌,
}
use icicle_emu.Base.Bits.{bit_at, bit_at-bit_and, bit_at-bit_or, bit_at-complement, all_below_sound}
use mathlib.Core.Bool.{beq}
use icicle_emu.Mem.Perm.{
  MemError, MemResult, check, check_bytes, all_equal, get_error_kind, get_error_kind_bytes, meet,
}
use icicle_emu.Mem.Perm.Flags
use icicle_emu.Mem.Perm.Checks.{
  or_bound, has_all, table, decided, passed, check-verdict, is_missing,
}
use icicle_emu.Mem.Page.{
  PageData, slice, get_perm_unchecked, offset_in_page, is_access_size, checked, read,
}
use icicle_emu.Mem.Page.Alignment.{and_bound, is_aligned-remainder}

-- Bytes of the permission bits only: those of `ALL`.
abbrev pub AreFlags : List ℕ → Type 0
AreFlags [] = Unit {0}
AreFlags (b ∷ bytes) = (b < 256) × (bit_at b 5 ≡ false) × (bit_at b 6 ≡ false) × AreFlags bytes

-- Every byte has bit `k`.
abbrev every : List ℕ → ℕ → Bool
every [] k = true
every (b ∷ bytes) k = bit_at b k && every bytes k

bit_at-meet : (bytes : List ℕ) (c k : ℕ) → bit_at (meet c bytes) k ≡ (bit_at c k && every bytes k)
bit_at-meet [] c k = ground arith
bit_at-meet (b ∷ bytes) c k =
    bit_at-meet bytes (bit_and c b) k
    ∙ ap (λ t. t && every bytes k) (bit_at-bit_and k c b)
    ∙ ground arith

abbrev masked : ℕ → List ℕ → List ℕ
masked m bytes = map (λ (byte : ℕ). bit_or byte m) bytes

every-masked : (bytes : List ℕ) (m k : ℕ) → every (masked m bytes) k ≡ (every bytes k || bit_at m k)
every-masked [] m k = ground arith
every-masked (b ∷ bytes) m k = ground (arith, every-masked bytes m k, bit_at-bit_or k b m)

meet_bound : (bytes : List ℕ) (c : ℕ) → c < 256 → AreFlags bytes → meet c bytes < 256
meet_bound [] c h f = h
meet_bound (b ∷ bytes) c h (l, _, _, f) = meet_bound bytes (bit_and c b) (and_bound 8 c b l) f

abbrev full : ℕ → Bool
full b = bit_at b 5 || bit_at b 6 || beq (b == 159) (has_all b)

full_table : (b : ℕ) → b < 256 → full b ≡ true
full_table b h = all_below_sound 256 full b refl h

abbrev every_flag : List ℕ → Bool
every_flag bytes =
    every bytes 0
    && every bytes 1
    && every bytes 2
    && every bytes 3
    && every bytes 4
    && every bytes 7

all_equal-every_flag : (bytes : List ℕ) → AreFlags bytes → all_equal 159 bytes ≡ every_flag bytes
all_equal-every_flag [] f = refl
all_equal-every_flag (b ∷ bytes) (l, p, q, f) =
    ground (arith, full_table b l, all_equal-every_flag bytes f)

masked-AreFlags :
    (bytes : List ℕ) (x : ℕ) → AreFlags bytes → AreFlags (masked (bit_and x 159) bytes)
masked-AreFlags [] x f = tt
masked-AreFlags (b ∷ bytes) x (l, p, q, f) = (
  or_bound 8 b (bit_and x 159) l (and_bound 8 x 159 (omega arith)),
  ground (arith, bit_at-bit_or 5 b (bit_and x 159), bit_at-bit_and 5 x 159),
  ground (arith, bit_at-bit_or 6 b (bit_and x 159), bit_at-bit_and 6 x 159),
  masked-AreFlags bytes x f,
)

-- Bit `k` of the intersection of the masked permissions.
bit_at-masked :
    (bytes : List ℕ) (mask k : ℕ)
    → k < 8
    → bit_at 159 k ≡ true
    → mask < 256
    → bit_at (meet 159 (masked (bit_and (255 - mask) 159) bytes)) k
      ≡ not (is_missing (meet 159 bytes) mask k)
bit_at-masked bytes mask k h e m = ground (
  arith,
  bit_at-meet (masked (bit_and (255 - mask) 159) bytes) 159 k,
  every-masked bytes (bit_and (255 - mask) 159) k,
  bit_at-bit_and k (255 - mask) 159,
  bit_at-complement 8 k mask h m,
  bit_at-meet bytes 159 k,
)

-- For permissions without unnamed bits the check of several bytes is the check of their
-- intersection, errors included.
pub check_bytes-check :
    (bytes : List ℕ) (mask : ℕ)
    → AreFlags bytes
    → mask < 256
    → check_bytes bytes mask ≡ check (meet Flags.all bytes) mask
unfolding check_bytes get_error_kind_bytes
check_bytes-check bytes mask f m =
    let all = masked (bit_and (255 - mask) 159) bytes in
    let n = meet 159 all in
    let flags = masked-AreFlags bytes (255 - mask) f in
    let same : all_equal 159 all ≡ (bit_and n 159 == 159) = ground (
      arith,
      all_equal-every_flag all flags,
      table n (meet_bound all 159 (omega arith) flags),
      bit_at-meet all 159 0,
      bit_at-meet all 159 1,
      bit_at-meet all 159 2,
      bit_at-meet all 159 3,
      bit_at-meet all 159 4,
      bit_at-meet all 159 7,
    ) in
    ap (λ (t : Bool). if t then passed else MemResult.err (get_error_kind n)) same
    ∙ decided n _ _ _ _ _ _ (table n (meet_bound all 159 (omega arith) flags))
        (bit_at-masked bytes mask 0 (omega arith) refl m)
        (bit_at-masked bytes mask 1 (omega arith) refl m)
        (bit_at-masked bytes mask 2 (omega arith) refl m)
        (bit_at-masked bytes mask 3 (omega arith) refl m)
        (bit_at-masked bytes mask 4 (omega arith) refl m)
        (bit_at-masked bytes mask 7 (omega arith) refl m)
    ∙ sym (check-verdict (meet 159 bytes) mask (meet_bound bytes 159 (omega arith) f) m)

-- A read of 1, 2, 4, 8 or 16 bytes whose permissions have no unnamed bits reports an unaligned
-- address exactly when it is no multiple of the size, and otherwise returns the bytes or the error
-- of one check on the intersection of their permissions.
pub read-check :
    (n : ℕ) (d : PageData) (addr perm : ℕ)
    → is_access_size n ≡ true
    → AreFlags (slice d.perm (offset_in_page addr) n)
    → perm < 256
    → read n d addr perm
      ≡ some (
          if addr % n == 0
          then checked
              (check (get_perm_unchecked d (offset_in_page addr) n) (bit_or perm Flags.mapped))
              (slice d.content (offset_in_page addr) n)
          else MemResult.err MemError.unaligned)
unfolding read get_perm_unchecked
read-check n d addr perm s f p =
    rw (s, is_aligned-remainder n addr s)
      (ap
        (λ (c : MemResult (Unit {0})). some (
          if addr % n == 0
          then checked c (slice d.content (offset_in_page addr) n)
          else MemResult.err MemError.unaligned))
        (check_bytes-check (slice d.perm (offset_in_page addr) n) (bit_or perm Flags.mapped) f
          (or_bound 8 perm 16 p (omega arith))))
