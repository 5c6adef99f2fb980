-- ===== src/Sleigh/Matcher/Search.antt =====
-- Searching on from the offset that each match returns finds every case that matches.
use icicle_emu.Base.{
  ℕ, zero, suc, ◌≤◌, ◌<◌, ◌≡◌, refl, ap, ◌∙◌, Bool, true, false, Option, none, some, ◌>>=◌, List,
  [], ◌∷◌, length, drop, arith, Option-cases, inl, inr,
}
use icicle_emu.Sleigh.Decoder.{Decoder, get_raw_token}
use icicle_emu.Sleigh.Matcher.{
  MatchCase, SequentialMatcher, found_case, find_case, matches_case, match_constructor,
}

abbrev pub Matches : Type 0
Matches = Option (List (ℕ × ℕ))

abbrev pub add_match : ℕ × ℕ → Matches → Matches
add_match m none = none
add_match m (some ms) = some (m ∷ ms)

-- Every case that matches, in order, with the offset behind it.
abbrev pub counted : Option Bool → ℕ × ℕ → Matches → Matches
counted none m rest = none
counted (some true) m rest = add_match m rest
counted (some false) m rest = rest

abbrev pub matching : (MatchCase → Option Bool) → List MatchCase → ℕ → Matches
matching test [] position = some []
matching test (c ∷ cases) position =
    counted (test c) (c.constructor_id, suc position) (matching test cases (suc position))

-- A search that goes on behind each match.
abbrev pub continued : Option (Option (ℕ × ℕ)) → (ℕ → Matches) → Matches
continued none next = none
continued (some none) next = some []
continued (some (some (constructor, offset))) next = add_match (constructor, offset) (next offset)

abbrev pub repeated : (ℕ → Option (Option (ℕ × ℕ))) → ℕ → ℕ → Matches
repeated search zero offset = none
repeated search (suc fuel) offset = continued (search offset) (λ (o : ℕ). repeated search fuel o)

drop-tail :
    (cases : List MatchCase) (n : ℕ) (c : MatchCase) (rest : List MatchCase)
    → drop n cases ≡ c ∷ rest
    → drop (suc n) cases ≡ rest
drop-tail [] zero c rest h = absurd (cc (h))
drop-tail [] (suc n) c rest h = absurd (cc (h))
drop-tail (x ∷ cases) zero c rest h = cc (h)
drop-tail (x ∷ cases) (suc n) c rest h = drop-tail cases n c rest h

module _ (test : MatchCase → Option Bool) (cases : List MatchCase) where
  abbrev search : ℕ → Option (Option (ℕ × ℕ))
  search offset = find_case test (drop offset cases) offset

  continued-found_case :
      (r : Option Bool) (c : MatchCase) (rest : List MatchCase) (position fuel : ℕ)
      → drop (suc position) cases ≡ rest
      → length rest < fuel
      → ((n : ℕ)
          → length rest ≤ n
          → continued (find_case test rest (suc position)) (λ (o : ℕ). repeated search n o)
            ≡ matching test rest (suc position))
      → continued
          (found_case c.constructor_id position r (find_case test rest (suc position)))
          (λ (o : ℕ). repeated search fuel o)
        ≡ counted r (c.constructor_id, suc position) (matching test rest (suc position))
  continued-found_case none c rest position fuel h l ih = refl
  continued-found_case (some true) c rest position zero h l ih = absurd (omega arith)
  continued-found_case (some true) c rest position (suc fuel) h l ih =
      ap (λ (m : Matches). add_match (c.constructor_id, suc position) m)
        (ap
            (λ (cs : List MatchCase).
              continued (find_case test cs (suc position)) (λ (o : ℕ). repeated search fuel o))
            h
          ∙ ih fuel (omega arith))
  continued-found_case (some false) c rest position fuel h l ih = ih fuel (omega arith)

  continued-find_case :
      (rest : List MatchCase) (position fuel : ℕ)
      → drop position cases ≡ rest
      → length rest ≤ fuel
      → continued (find_case test rest position) (λ (o : ℕ). repeated search fuel o)
        ≡ matching test rest position
  continued-find_case [] position fuel h l = refl
  continued-find_case (c ∷ rest) position fuel h l =
      let tail = drop-tail cases position c rest h in
      continued-found_case (test c) c rest position fuel tail (omega arith)
        (λ (n : ℕ) (p : length rest ≤ n). continued-find_case rest (suc position) n tail p)

  repeated-matching :
      (fuel offset : ℕ)
      → length (drop offset cases) < fuel
      → repeated search fuel offset ≡ matching test (drop offset cases) offset
  repeated-matching zero offset l = absurd (omega arith)
  repeated-matching (suc fuel) offset l =
      continued-find_case (drop offset cases) offset fuel refl (omega arith)

-- The matches of a matcher from an offset on.
abbrev pub all_matching : (ℕ → ℕ) → SequentialMatcher → Decoder → ℕ → Matches
all_matching reserve matcher state offset = do
  raw ← get_raw_token state 0 matcher.token_size
  matching (matches_case reserve state state.context raw) (drop offset matcher.cases) offset

repeated-same :
    (f g : ℕ → Option (Option (ℕ × ℕ))) (fuel offset : ℕ)
    → ((n : ℕ) → f n ≡ g n)
    → repeated f fuel offset ≡ repeated g fuel offset
repeated-same f g fuel offset h = λ i. repeated (λ (n : ℕ). h n i) fuel offset

-- With more fuel than there are cases left, searching on from the offset that each match returns
-- gives every case that matches from the first offset on, once and in order with the offset behind
-- it, and panics exactly where the token or the test of one of these cases does.
pub repeated-match_constructor :
    (reserve : ℕ → ℕ) (matcher : SequentialMatcher) (state : Decoder) (fuel offset : ℕ)
    → length (drop offset matcher.cases) < fuel
    → repeated (match_constructor reserve matcher state) fuel offset
      ≡ all_matching reserve matcher state offset
unfolding match_constructor
repeated-match_constructor reserve matcher state zero offset l = absurd (omega arith)
repeated-match_constructor reserve matcher state (suc fuel) offset l =
    elim (Option-cases (get_raw_token state 0 matcher.token_size)) [
      | inl h ↦ rw (h) refl
      | inr (raw, h) ↦
          let test = matches_case reserve state state.context raw in
          repeated-same (match_constructor reserve matcher state)
            (λ (n : ℕ). find_case test (drop n matcher.cases) n) (suc fuel) offset
            (λ (n : ℕ). rw (h) refl)
          ∙ repeated-matching test matcher.cases (suc fuel) offset l
          ∙ rw (h) refl
    ]
