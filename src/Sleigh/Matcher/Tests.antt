-- ===== src/Sleigh/Matcher/Tests.antt =====
-- A search at a concrete instruction.
use icicle_emu.Base.{ℕ, ◌≡◌, refl, true, false, none, some, [], ◌∷◌, arith}
use icicle_emu.Pcode.Var.{mask}
use icicle_emu.Sleigh.Field.{Field, Token, sxt64, extract}
use icicle_emu.Sleigh.Decoder.{Decoder, new, set_inst, get_raw_token, get_token}
use icicle_emu.Sleigh.Matcher.{
  Pattern, ConstraintCmp, ConstraintOperand, Constraint, SequentialMatcher, matches_pattern,
  compare_values, eval_constraint, matches_constraint, matches_case, match_constructor,
}
use icicle_emu.Sleigh.Matcher.Search.{repeated, all_matching, repeated-match_constructor}

abbrev same_size : ℕ → ℕ
same_size n = n

abbrev any_value : Pattern
any_value = record { bits = 0; mask = 0 }

abbrev low_five : Pattern
low_five = record { bits = 5; mask = 15 }

abbrev second_byte : Field
second_byte = record { offset = 8; num_bits = 8; signed = true; hex = false; attached = none }

abbrev word : Token
word = record { big_endian = false; offset = 0; size = 2 }

abbrev below_zero : Constraint
below_zero = Constraint.token word second_byte ConstraintCmp.less (ConstraintOperand.constant 0)

abbrev three_cases : SequentialMatcher
three_cases = record {
  cases =
      record {
        constructor_id = 7;
        rank = 0;
        token = low_five;
        context = any_value;
        constraints = below_zero ∷ [];
      }
      ∷ record {
        constructor_id = 8;
        rank = 0;
        token = low_five;
        context = low_five;
        constraints = [];
      }
      ∷ record {
        constructor_id = 9;
        rank = 0;
        token = low_five;
        context = any_value;
        constraints = [];
      }
      ∷ [];
  token_size = 1;
}

abbrev at_start : Decoder
at_start = set_inst new 0x1000 (0x35 ∷ 0x80 ∷ [])

repeated-match_constructor_example :
    repeated (match_constructor same_size three_cases at_start) 4 0
    ≡ all_matching same_size three_cases at_start 0
repeated-match_constructor_example =
    repeated-match_constructor same_size three_cases at_start 4 0 (omega arith)

first_match : match_constructor same_size three_cases at_start 0 ≡ some (some (7, 1))
unfolding match_constructor get_raw_token matches_case matches_pattern matches_constraint
    eval_constraint get_token extract mask sxt64 compare_values
first_match = refl

next_match : match_constructor same_size three_cases at_start 1 ≡ some (some (9, 3))
unfolding match_constructor get_raw_token matches_case matches_pattern
next_match = refl
