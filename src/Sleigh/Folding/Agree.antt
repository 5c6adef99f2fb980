-- ===== src/Sleigh/Folding/Agree.antt =====
-- Folding constants against the interpreter of icicle-cpu/src/exec/interpreter.rs.
use icicle_emu.Base.{
  ℕ, zero, suc, ◌+◌, ◌-◌, ◌*◌, ◌%◌, ◌^◌, ◌≤◌, ◌<◌, ◌≡◌, refl, sym, ap, ap₂, ◌∙◌, Bool, false, ◌||◌,
  Option, none, some, ltb, arith, le→leb, lt→ltb, u64_mod, u64_max, Bool-cases, inl, inr,
}
use icicle_emu.Base.Powers.{pow-split, mod-mod-pow}
use icicle_emu.Mem.Page.Alignment.{and-mask}
use icicle_emu.Interpreter.IntOp.{int_op, cmp_op, int_single_op}
use icicle_emu.Pcode.Op.{Op}
use icicle_emu.Pcode.Var.{VarNode, Value, value_size}
use icicle_emu.Sleigh.Signed.{is_negative, arithmetic_shift}
use icicle_emu.Sleigh.Field.{sxt64}
use icicle_emu.Sleigh.Field.Laws.{mask-ones}
use icicle_emu.Sleigh.Folding.{Folded, bit_of, masked, extended_constants, const_eval, fold}
use native.Mathlib.Nat.{
  one-le-pow, mod-eq_of_lt, add-mul-mod_self_right, mul-div_cancel, mul-lt-mul_of_pos_right,
}

-- A sign-extended number differs by a multiple of the modulus of its width.
abbrev IsExtended : ℕ → ℕ → Option ℕ → Type 0
IsExtended w a r = (p : ℕ) × (p < 2 ^ (64 - w)) × (r ≡ some (a + p * 2 ^ w))

whole : (w : ℕ) → w ≤ 64 → 2 ^ (64 - w) * 2 ^ w ≡ u64_mod
whole w l = sym (pow-split 64 w l)

shifted_back : (a w : ℕ) → w ≤ 64 → a < 2 ^ w → a * 2 ^ (64 - w) % u64_mod ≡ a * 2 ^ (64 - w)
shifted_back a w l h =
    mod-eq_of_lt
      (ground (arith, mul-lt-mul_of_pos_right h (one-le-pow (64 - w) 2 (omega arith)), whole w l))

filled_identity : (a k m : ℕ) → 1 ≤ k → a + (k * m - m) ≡ a + (k - 1) * m
filled_identity a (suc k) m h = ground arith
filled_identity a zero m h = absurd (omega arith)

arithmetic_shift-IsExtended :
    (a w : ℕ) → w ≤ 64 → IsExtended w a (some (arithmetic_shift (a * 2 ^ (64 - w)) (64 - w)))
arithmetic_shift-IsExtended a w l = elim (Bool-cases (is_negative (a * 2 ^ (64 - w)))) [
  | inl h ↦ (
    2 ^ (64 - w) - 1,
    omega (arith, one-le-pow (64 - w) 2 (omega arith)),
    rw (h) (
        ap (λ (t : ℕ). some t)
          (ap₂ (λ (x y : ℕ). x + (u64_mod - y))
              (mul-div_cancel a (one-le-pow (64 - w) 2 (omega arith)))
              (ap (λ (t : ℕ). 2 ^ t) {x = 64 - (64 - w)} {y = w} (omega arith))
            ∙ ap (λ (t : ℕ). a + (t - 2 ^ w)) (sym (whole w l))
            ∙ filled_identity a (2 ^ (64 - w)) (2 ^ w) (one-le-pow (64 - w) 2 (omega arith)))),
  )
  | inr h ↦ (
    0,
    one-le-pow (64 - w) 2 (omega arith),
    rw (h) (
        ap (λ (t : ℕ). some t)
          (mul-div_cancel a (one-le-pow (64 - w) 2 (omega arith)) ∙ ground arith)),
  )
]

sxt64-IsExtended : (w a : ℕ) → 1 ≤ w → w ≤ 64 → a < 2 ^ w → IsExtended w a (sxt64 a w)
unfolding sxt64
sxt64-IsExtended w a one l h =
    rw (le→leb w 64 l, lt→ltb (64 - w) 64 (omega arith), shifted_back a w l h)
      (arithmetic_shift-IsExtended a w l)

sum_identity : (a b p q m : ℕ) → a + p * m + (b + q * m) ≡ a + b + (p + q) * m
sum_identity a b p q m = ground arith

difference_identity :
    (a b p q r m : ℕ) → b < m → a + p * m + (q + r + 1) * m - (b + q * m) ≡ a + m - b + (p + r) * m
difference_identity a b p q r m h = ground arith

product_identity :
    (a b p q m : ℕ) → (a + p * m) * (b + q * m) ≡ a * b + (a * q + p * b + p * q * m) * m
product_identity a b p q m = ground arith

masked-mod : (n x : ℕ) → 1 ≤ n → n ≤ 8 → masked n x ≡ some (some (x % 2 ^ (n * 8)))
masked-mod n x one l =
    rw (mask-ones (n * 8) (omega arith) (omega arith))
      (ap (λ (t : ℕ). some (some t)) (and-mask (n * 8) x))

-- Both operands extended, and the result of 64 bits cut to the width.
module _ (n a b : ℕ) (one : 1 ≤ n) (l : n ≤ 8) (ha : a < 2 ^ (n * 8)) (hb : b < 2 ^ (n * 8)) where
  folded :
      (f : ℕ → ℕ → ℕ) (v : ℕ)
      → ((p q : ℕ)
          → p < 2 ^ (64 - n * 8)
          → q < 2 ^ (64 - n * 8)
          → f (a + p * 2 ^ (n * 8)) (b + q * 2 ^ (n * 8)) % 2 ^ (n * 8) ≡ v)
      → extended_constants f n a b ≡ some (some v)
  folded f v law =
      let (p, hp, ep) = sxt64-IsExtended (n * 8) a (omega arith) (omega arith) ha in
      let (q, hq, eq) = sxt64-IsExtended (n * 8) b (omega arith) (omega arith) hb in
      rw (ep, eq)
        (masked-mod n (f (a + p * 2 ^ (n * 8)) (b + q * 2 ^ (n * 8))) one l
          ∙ ap (λ (t : ℕ). some (some t)) (law p q hp hq))

  cut : (x : ℕ) → x % u64_mod % 2 ^ (n * 8) ≡ x % 2 ^ (n * 8)
  cut x = mod-mod-pow x 64 (n * 8) (omega arith)

  sum-folded :
      extended_constants (λ (x y : ℕ). (x + y) % u64_mod) n a b
      ≡ some (some ((a + b) % 2 ^ (n * 8)))
  sum-folded =
      folded (λ (x y : ℕ). (x + y) % u64_mod) _
        (λ (p q : ℕ) (hp : _) (hq : _).
          cut (a + p * 2 ^ (n * 8) + (b + q * 2 ^ (n * 8)))
          ∙ ap (λ (t : ℕ). t % 2 ^ (n * 8)) (sum_identity a b p q (2 ^ (n * 8)))
          ∙ add-mul-mod_self_right (a + b) (p + q) (2 ^ (n * 8)))

  product-folded :
      extended_constants (λ (x y : ℕ). x * y % u64_mod) n a b ≡ some (some (a * b % 2 ^ (n * 8)))
  product-folded =
      folded (λ (x y : ℕ). x * y % u64_mod) _
        (λ (p q : ℕ) (hp : _) (hq : _).
          cut ((a + p * 2 ^ (n * 8)) * (b + q * 2 ^ (n * 8)))
          ∙ ap (λ (t : ℕ). t % 2 ^ (n * 8)) (product_identity a b p q (2 ^ (n * 8)))
          ∙ add-mul-mod_self_right (a * b) (a * q + p * b + p * q * 2 ^ (n * 8)) (2 ^ (n * 8)))

  difference-folded :
      extended_constants (λ (x y : ℕ). (x + u64_mod - y) % u64_mod) n a b
      ≡ some (some ((a + 2 ^ (n * 8) - b) % 2 ^ (n * 8)))
  difference-folded =
      folded (λ (x y : ℕ). (x + u64_mod - y) % u64_mod) _
        (λ (p q : ℕ) (hp : _) (hq : _).
          cut (a + p * 2 ^ (n * 8) + u64_mod - (b + q * 2 ^ (n * 8)))
          ∙ ap (λ (t : ℕ). t % 2 ^ (n * 8))
              (ap (λ (t : ℕ). a + p * 2 ^ (n * 8) + t - (b + q * 2 ^ (n * 8)))
                  (sym (whole (n * 8) (omega arith))
                    ∙ ap (λ (t : ℕ). t * 2 ^ (n * 8)) {x = 2 ^ (64 - n * 8)}
                        {y = q + (2 ^ (64 - n * 8) - q - 1) + 1} (omega arith))
                ∙ difference_identity a b p q (2 ^ (64 - n * 8) - q - 1) (2 ^ (n * 8)) hb)
          ∙ add-mul-mod_self_right (a + 2 ^ (n * 8) - b) (p + (2 ^ (64 - n * 8) - q - 1))
              (2 ^ (n * 8)))

-- The results of the interpreter, where it has one.
abbrev pub as_folded : Option ℕ → Folded
as_folded none = none
as_folded (some v) = some (some v)

abbrev pub as_bit : Option Bool → Folded
as_bit none = none
as_bit (some b) = bit_of b

abbrev pub AgreesOn : VarNode → ℕ → ℕ → ℕ → ℕ → Type 0
AgreesOn dst n m a b =
    (const_eval dst Op.int_add (Value.const a n) (Value.const b m)
      ≡ as_folded (int_op Op.int_add (n * 8) a b))
    × (const_eval dst Op.int_sub (Value.const a n) (Value.const b m)
        ≡ as_folded (int_op Op.int_sub (n * 8) a b))
    × (const_eval dst Op.int_mul (Value.const a n) (Value.const b m)
        ≡ as_folded (int_op Op.int_mul (n * 8) a b))
    × (const_eval dst Op.int_and (Value.const a n) (Value.const b m)
        ≡ as_folded (int_op Op.int_and (n * 8) a b))
    × (const_eval dst Op.int_or (Value.const a n) (Value.const b m)
        ≡ as_folded (int_op Op.int_or (n * 8) a b))
    × (const_eval dst Op.int_equal (Value.const a n) (Value.const b m)
        ≡ as_bit (cmp_op Op.int_equal (n * 8) a b))
    × (const_eval dst Op.int_not_equal (Value.const a n) (Value.const b m)
        ≡ as_bit (cmp_op Op.int_not_equal (n * 8) a b))
    × (const_eval dst Op.int_less (Value.const a n) (Value.const b m)
        ≡ as_bit (cmp_op Op.int_less (n * 8) a b))
    × (const_eval dst Op.int_less_equal (Value.const a n) (Value.const b m)
        ≡ as_bit (cmp_op Op.int_less_equal (n * 8) a b))
    × (const_eval dst Op.int_not (Value.const a n) (Value.const b m)
        ≡ as_folded (int_single_op Op.int_not (n * 8) a))

folds :
    (dst : VarNode) (op : Op) (n m a b : ℕ)
    → dst.size ≤ 8
    → n ≤ 8
    → m ≤ 8
    → const_eval dst op (Value.const a n) (Value.const b m)
      ≡ fold dst.size op (Value.const a n) (Value.const b m)
unfolding const_eval value_size
folds dst op n m a b hd hn hm = rw (allowed) refl
  where
    allowed : (ltb 8 dst.size || ltb 8 n || ltb 8 m) ≡ false
    allowed = ground arith

not-folded :
    (n a : ℕ)
    → 1 ≤ n
    → n ≤ 8
    → a < 2 ^ (n * 8)
    → masked n (u64_max - a) ≡ some (some (2 ^ (n * 8) - 1 - a))
not-folded n a one l h =
    masked-mod n (u64_max - a) one l
    ∙ ap (λ (t : ℕ). some (some t))
        (ap (λ (t : ℕ). t % 2 ^ (n * 8)) {x = u64_max - a}
            {y = 2 ^ (n * 8) - 1 - a + (2 ^ (64 - n * 8) - 1) * 2 ^ (n * 8)}
            (complement_identity a (2 ^ (64 - n * 8)) (2 ^ (n * 8)) u64_mod
              (one-le-pow (64 - n * 8) 2 (omega arith)) h (whole (n * 8) (omega arith)))
          ∙ add-mul-mod_self_right (2 ^ (n * 8) - 1 - a) (2 ^ (64 - n * 8) - 1) (2 ^ (n * 8))
          ∙ mod-eq_of_lt (omega arith))
  where
    complement_identity :
        (a k m t : ℕ) → 1 ≤ k → a < m → k * m ≡ t → t - 1 - a ≡ m - 1 - a + (k - 1) * m
    complement_identity a zero m t hk h e = absurd (omega arith)
    complement_identity a (suc k) m t hk h e = ground arith

-- For an output of at most 8 bytes, constants of 1 to 8 bytes that fit in the size of the first,
-- folding an addition, subtraction, product, conjunction, disjunction, unsigned comparison or
-- complement of them returns what the interpreter computes at the size of the first.
pub const_eval-AgreesOn :
    (dst : VarNode) (n m a b : ℕ)
    → dst.size ≤ 8
    → 1 ≤ n
    → n ≤ 8
    → m ≤ 8
    → a < 2 ^ (n * 8)
    → b < 2 ^ (n * 8)
    → AgreesOn dst n m a b
unfolding fold int_op cmp_op int_single_op
const_eval-AgreesOn dst n m a b hd one hn hm ha hb = (
  folds dst Op.int_add n m a b hd hn hm ∙ sum-folded n a b one hn ha hb,
  folds dst Op.int_sub n m a b hd hn hm ∙ difference-folded n a b one hn ha hb,
  folds dst Op.int_mul n m a b hd hn hm ∙ product-folded n a b one hn ha hb,
  folds dst Op.int_and n m a b hd hn hm,
  folds dst Op.int_or n m a b hd hn hm,
  folds dst Op.int_equal n m a b hd hn hm,
  folds dst Op.int_not_equal n m a b hd hn hm,
  folds dst Op.int_less n m a b hd hn hm,
  folds dst Op.int_less_equal n m a b hd hn hm,
  folds dst Op.int_not n m a b hd hn hm ∙ not-folded n a one hn ha,
)
