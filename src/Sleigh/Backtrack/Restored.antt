-- ===== src/Sleigh/Backtrack/Restored.antt =====
-- Decoding a subtable ends, and what it leaves of the decoder.
use icicle_emu.Base.{
  ℕ, zero, suc, ◌+◌, ◌≤◌, ◌<◌, ◌≡◌, refl, ap, ap₂, arith, Bool, true, false, not, ◌||◌, Option,
  none, some, inl, inr, ltb, if◌then◌else◌, length, get_elem?, Bool-cases,
}
use icicle_emu.Mem.Mmu.{Outcome}
use icicle_emu.Sleigh.Decoder.{Decoder}
use icicle_emu.Sleigh.Matcher.{SequentialMatcher, match_constructor}
use icicle_emu.Sleigh.Matcher.Progress.{IsNext, match_constructor-IsNext}
use icicle_emu.Sleigh.Instruction.{SleighData, DecodedConstructor, Instruction, invalid_constructor}
use icicle_emu.Sleigh.Decode.{Subtable}
use icicle_emu.Sleigh.Backtrack.{
  Tried, try_decode_constructor, restore, invalid, after_attempt, after_match, decode_loop,
  in_table, decode_subtable,
}
use icicle_emu.Sleigh.Backtrack.Kept.{Keeps, TriedKept, IsRestored, IsDecoded}
use icicle_emu.Sleigh.Backtrack.Attempts.{reserves, try_decode_constructor-TriedKept}

module _ (m n : ℕ) where
  when-IsDecoded :
      (d : Decoder) (b : Bool) (x y : Subtable)
      → b ≡ true
      → IsDecoded m n d x
      → IsDecoded m n d (if b then x else y)
  when-IsDecoded d true x y e h = h
  when-IsDecoded d false x y e h = absurd (cc (e))

  unless-IsDecoded :
      (d : Decoder) (b : Bool) (x y : Subtable)
      → b ≡ false
      → IsDecoded m n d y
      → IsDecoded m n d (if b then x else y)
  unless-IsDecoded d true x y e h = absurd (cc (e))
  unless-IsDecoded d false x y e h = h

  -- What follows the loop, where the decoder is as it was.
  invalid-IsDecoded :
      (initial : Decoder) (o : Option DecodedConstructor) (d : Decoder) (inst : Instruction)
      → Keeps m n d inst
      → IsRestored initial d
      → IsDecoded m n initial (invalid o d inst)
  invalid-IsDecoded initial none d inst h r = tt
  invalid-IsDecoded initial (some c) d inst h r = (h, inr r)

  module _ (search : Decoder → ℕ → Option (Option (ℕ × ℕ)))
      (attempt : Decoder → Instruction → ℕ → Tried) (failed : Decoder → Instruction → Subtable)
      (initial : Decoder) (limit : ℕ)
      (progress : (d : Decoder) (offset : ℕ)
        → offset ≤ limit
        → IsNext offset limit (search d offset))
      (keeps : (d : Decoder) (inst : Instruction) (id : ℕ)
        → Keeps m n d inst
        → TriedKept m n (attempt d inst id))
      (fails : (d : Decoder) (inst : Instruction)
        → Keeps m n d inst
        → IsRestored initial d
        → IsDecoded m n initial (failed d inst)) where
    after_attempt-IsDecoded :
        (r : Tried) (again : Decoder → Instruction → Subtable)
        → ((d' : Decoder) (inst' : Instruction)
            → Keeps m n d' inst'
            → IsRestored initial d'
            → IsDecoded m n initial (again d' inst'))
        → TriedKept m n r
        → IsDecoded m n initial (after_attempt search attempt failed initial r again)
    after_attempt-IsDecoded (Outcome.returned (none, d, inst)) again k h =
        when-IsDecoded initial d.allow_backtracking _ _ h.0
          (k (restore initial d) inst h (refl, refl, refl, refl))
    after_attempt-IsDecoded (Outcome.returned (some c, d, inst)) again k h =
        elim (Bool-cases d.is_valid) [
          | inl v ↦
              when-IsDecoded initial (d.is_valid || not d.allow_backtracking) _ _
                (ap (λ (b : Bool). b || not d.allow_backtracking) v) (h, inl v)
          | inr v ↦
              unless-IsDecoded initial (d.is_valid || not d.allow_backtracking) _ _
                (ap₂ (λ (x y : Bool). x || not y) v h.0)
                (when-IsDecoded initial d.allow_backtracking _ _ h.0
                  (k (restore initial d) inst h (refl, refl, refl, refl)))
        ]
    after_attempt-IsDecoded Outcome.panicked again k h = tt
    after_attempt-IsDecoded Outcome.out_of_fuel again k h = absurd h

    after_match-IsDecoded :
        (offset : ℕ) (r : Option (Option (ℕ × ℕ))) (d : Decoder) (inst : Instruction)
        (again : ℕ → Decoder → Instruction → Subtable)
        → IsNext offset limit r
        → ((next : ℕ) (d' : Decoder) (inst' : Instruction)
            → offset < next
            → next ≤ limit
            → Keeps m n d' inst'
            → IsRestored initial d'
            → IsDecoded m n initial (again next d' inst'))
        → Keeps m n d inst
        → IsRestored initial d
        → IsDecoded m n initial (after_match search attempt failed initial r d inst again)
    after_match-IsDecoded offset none d inst again p k h r = tt
    after_match-IsDecoded offset (some none) d inst again p k h r = fails d inst h r
    after_match-IsDecoded offset (some (some (id, next))) d inst again (a, b) k h r =
        after_attempt-IsDecoded (attempt d inst id) (again next)
          (λ (d' : Decoder) (inst' : Instruction) (h' : _) (r' : _). k next d' inst' a b h' r')
          (keeps d inst id h)

    decode_loop-IsDecoded :
        (rounds offset : ℕ) (d : Decoder) (inst : Instruction)
        → offset ≤ limit
        → limit < rounds + offset
        → Keeps m n d inst
        → IsRestored initial d
        → IsDecoded m n initial (decode_loop search attempt failed initial rounds offset d inst)
    decode_loop-IsDecoded zero offset d inst p q h r = absurd (omega arith)
    decode_loop-IsDecoded (suc rounds) offset d inst p q h r =
        after_match-IsDecoded offset (search d offset) d inst _ (progress d offset p)
          (λ (next : ℕ) (d' : Decoder) (inst' : Instruction) (a : offset < next) (b : next ≤ limit)
              (h' : _) (r' : _).
            decode_loop-IsDecoded rounds next d' inst' b (omega arith) h' r')
          h r

  in_table-IsDecoded :
      (reserve : ℕ → ℕ) (sleigh : SleighData) (decode : Decoder → Instruction → ℕ → Subtable)
      → ((id : ℕ) → reserves sleigh id ≡ true)
      → ((k : ℕ) (d : Decoder) (inst : Instruction) (t : ℕ)
          → suc n ≤ k
          → Keeps m k d inst
          → IsDecoded m k d (decode d inst t))
      → (d : Decoder) (inst : Instruction) (table : ℕ) (o : Option SequentialMatcher)
      → Keeps m n d inst
      → IsDecoded m n d (in_table reserve sleigh decode d inst table o)
  in_table-IsDecoded reserve sleigh decode reserved decodes d inst table none h = tt
  in_table-IsDecoded reserve sleigh decode reserved decodes d inst table (some matcher) h =
      decode_loop-IsDecoded (match_constructor reserve matcher)
        (try_decode_constructor reserve sleigh decode) _ d (length matcher.cases)
        (match_constructor-IsNext reserve matcher)
        (λ (d' : Decoder) (inst' : Instruction) (id : ℕ) (h' : _).
          try_decode_constructor-TriedKept m n reserve sleigh decode decodes d' inst' id
            (reserved id) h')
        (λ (d' : Decoder) (inst' : Instruction) (h' : _) (r : _).
          invalid-IsDecoded d (invalid_constructor sleigh) d'
            (record inst' { last_subtable = table }) h' r)
        (suc (length matcher.cases)) 0 d inst (omega arith) (omega arith) h (refl, refl, refl, refl)

-- Each subtable within another has one more subtable reserved before it.
decode_subtable-Keeps :
    (reserve : ℕ → ℕ) (sleigh : SleighData) (m n fuel : ℕ) (d : Decoder) (inst : Instruction)
    (table : ℕ)
    → ((id : ℕ) → reserves sleigh id ≡ true)
    → 0 < fuel
    → m + 1 < fuel + n
    → Keeps m n d inst
    → IsDecoded m n d (decode_subtable reserve sleigh fuel d inst table)
unfolding decode_subtable
decode_subtable-Keeps reserve sleigh m n zero d inst table reserved p q h = absurd (omega arith)
decode_subtable-Keeps reserve sleigh m n (suc fuel) d inst table reserved p q (a, b, c) =
    elim (Bool-cases (ltb d.max_subtables (length inst.subtables))) [
      | inl full ↦ when-IsDecoded m n d (ltb d.max_subtables (length inst.subtables)) _ _ full (
          invalid-IsDecoded m n d (invalid_constructor sleigh) d inst (a, b, c)
            (refl, refl, refl, refl))
      | inr room ↦
          let few : n ≤ m = ground arith in
          unless-IsDecoded m n d (ltb d.max_subtables (length inst.subtables)) _ _ room (
            in_table-IsDecoded m n reserve sleigh
              (λ (d' : Decoder) (inst' : Instruction) (t : ℕ).
                decode_subtable reserve sleigh fuel d' inst' t)
              reserved
              (λ (k : ℕ) (d' : Decoder) (inst' : Instruction) (t : ℕ) (l : suc n ≤ k) (h : _).
                decode_subtable-Keeps reserve sleigh m k fuel d' inst' t reserved (omega arith)
                  (omega arith) h)
              d inst table (get_elem? sleigh.matchers table) (a, b, c))
    ]

-- Where every constructor with a subtable among its actions reserves one or more and backtracking
-- is allowed, with at least two more fuel than the limit of subtables, decoding a subtable panics
-- or returns; where it returns, backtracking is still allowed, the limit is as before, no subtable
-- that was reserved is gone, and the decoder is valid or at the offsets and with the contexts that
-- it had before.
pub decode_subtable-IsDecoded :
    (reserve : ℕ → ℕ) (sleigh : SleighData) (fuel : ℕ) (d : Decoder) (inst : Instruction)
    (table : ℕ)
    → ((id : ℕ) → reserves sleigh id ≡ true)
    → d.allow_backtracking ≡ true
    → d.max_subtables + 1 < fuel
    → IsDecoded d.max_subtables
        (length inst.subtables)
        d
        (decode_subtable reserve sleigh fuel d inst table)
decode_subtable-IsDecoded reserve sleigh fuel d inst table reserved a l =
    decode_subtable-Keeps reserve sleigh d.max_subtables (length inst.subtables) fuel d inst table
      reserved (omega arith) (omega arith) (a, refl, omega arith)
