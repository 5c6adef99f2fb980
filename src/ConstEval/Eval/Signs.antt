-- ===== src/ConstEval/Eval/Signs.antt =====
-- The formulas of icicle-cpu/src/exec/const_eval.rs for the signed comparisons and the overflow flags,
-- on the signs of numbers of `2 * h` values, against the signed values of the interpreter.
use icicle_emu.Base.{
  ℕ, ◌+◌, ◌-◌, ◌*◌, ◌<◌, ◌≤◌, ◌≡◌, arith, Bool, true, false, not, ◌&&◌, ◌||◌, ltb, leb,
  if◌then◌else◌,
}
use icicle_emu.ConstEval.Bit.{differs}

abbrev pub shifted : ℕ → ℕ → ℕ
shifted h a = if ltb a h then a + h else a - h

module _ (h x y r : ℕ) (bx : x < 2 * h) (by' : y < 2 * h) where
  module _ (less : x < y → r ≡ x + 2 * h - y) (more : y ≤ x → r ≡ x - y) where
    pub less_flag :
        (sx sy sr : Bool)
        → leb h x ≡ sx
        → leb h y ≡ sy
        → leb h r ≡ sr
        → differs sr (differs sx sy && differs sr sx) ≡ ltb (shifted h x) (shifted h y)
    less_flag true true true p q s = ground arith
    less_flag true true false p q s = ground arith
    less_flag true false true p q s = ground arith
    less_flag true false false p q s = ground arith
    less_flag false true true p q s = ground arith
    less_flag false true false p q s = ground arith
    less_flag false false true p q s = ground arith
    less_flag false false false p q s = ground arith

    pub borrow_flag :
        (sx sy sr : Bool)
        → leb h x ≡ sx
        → leb h y ≡ sy
        → leb h r ≡ sr
        → (differs sx sy && differs sr sx)
          ≡ (ltb (shifted h x + h) (shifted h y) || leb (shifted h y + h) (shifted h x))
    borrow_flag true true true p q s = ground arith
    borrow_flag true true false p q s = ground arith
    borrow_flag true false true p q s = ground arith
    borrow_flag true false false p q s = ground arith
    borrow_flag false true true p q s = ground arith
    borrow_flag false true false p q s = ground arith
    borrow_flag false false true p q s = ground arith
    borrow_flag false false false p q s = ground arith

  module _ (few : x + y < 2 * h → r ≡ x + y) (many : 2 * h ≤ x + y → r + 2 * h ≡ x + y) where
    pub carry_flag :
        (sx sy sr : Bool)
        → leb h x ≡ sx
        → leb h y ≡ sy
        → leb h r ≡ sr
        → (not (sx || sy) && sr || (sx && sy) && not sr)
          ≡ (ltb (shifted h x + shifted h y) h || leb (2 * h + h) (shifted h x + shifted h y))
    carry_flag true true true p q s = ground arith
    carry_flag true true false p q s = ground arith
    carry_flag true false true p q s = ground arith
    carry_flag true false false p q s = ground arith
    carry_flag false true true p q s = ground arith
    carry_flag false true false p q s = ground arith
    carry_flag false false true p q s = ground arith
    carry_flag false false false p q s = ground arith
