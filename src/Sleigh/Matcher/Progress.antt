-- ===== src/Sleigh/Matcher/Progress.antt =====
-- A match is behind the offset that the search starts from, and within the cases.
use icicle_emu.Base.{
  ℕ, suc, ◌+◌, ◌≤◌, ◌<◌, Bool, true, false, Option, none, some, ◌>>=◌, List, [], ◌∷◌, length, drop,
  length-drop, arith,
}
use icicle_emu.Sleigh.Decoder.{Decoder, get_raw_token}
use icicle_emu.Sleigh.Matcher.{
  MatchCase, SequentialMatcher, found_case, find_case, matches_case, match_constructor,
}

abbrev pub IsNext : ℕ → ℕ → Option (Option (ℕ × ℕ)) → Type 0
IsNext offset limit none = Unit {0}
IsNext offset limit (some none) = Unit {0}
IsNext offset limit (some (some (id, next))) = (offset < next) × (next ≤ limit)

IsNext-later :
    (low offset high limit : ℕ) (r : Option (Option (ℕ × ℕ)))
    → low ≤ offset
    → high ≤ limit
    → IsNext offset high r
    → IsNext low limit r
IsNext-later low offset high limit none p q h = tt
IsNext-later low offset high limit (some none) p q h = tt
IsNext-later low offset high limit (some (some (id, next))) p q (a, b) = (omega arith, omega arith)

found_case-IsNext :
    (id position limit : ℕ) (b : Option Bool) (rest : Option (Option (ℕ × ℕ)))
    → suc position ≤ limit
    → IsNext (suc position) limit rest
    → IsNext position limit (found_case id position b rest)
found_case-IsNext id position limit none rest l h = tt
found_case-IsNext id position limit (some true) rest l h = (omega arith, l)
found_case-IsNext id position limit (some false) rest l h =
    IsNext-later position (suc position) limit limit rest (omega arith) (omega arith) h

find_case-IsNext :
    (test : MatchCase → Option Bool) (cases : List MatchCase) (position limit : ℕ)
    → position + length cases ≤ limit
    → IsNext position limit (find_case test cases position)
find_case-IsNext test [] position limit l = tt
find_case-IsNext test (c ∷ cases) position limit l =
    found_case-IsNext c.constructor_id position limit (test c) (find_case test cases (suc position))
      (omega arith) (find_case-IsNext test cases (suc position) limit (omega arith))

bind-IsNext :
    {A : Type 0} (offset limit : ℕ) (o : Option A) (f : A → Option (Option (ℕ × ℕ)))
    → ((a : A) → IsNext offset limit (f a))
    → IsNext offset limit (o >>= f)
bind-IsNext offset limit none f h = tt
bind-IsNext offset limit (some a) f h = h a

pub match_constructor-IsNext :
    (reserve : ℕ → ℕ) (matcher : SequentialMatcher) (d : Decoder) (offset : ℕ)
    → offset ≤ length matcher.cases
    → IsNext offset (length matcher.cases) (match_constructor reserve matcher d offset)
unfolding match_constructor
match_constructor-IsNext reserve matcher d offset l =
    bind-IsNext offset (length matcher.cases) (get_raw_token d 0 matcher.token_size) _ (λ (raw : ℕ).
      find_case-IsNext (matches_case reserve d d.context raw) (drop offset matcher.cases) offset
        (length matcher.cases) (omega (arith, length-drop offset matcher.cases)))
