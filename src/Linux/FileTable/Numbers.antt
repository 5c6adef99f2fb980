-- ===== src/Linux/FileTable/Numbers.antt =====
-- The set of free descriptors of icicle-linux/src/fs/file.rs, a `BTreeSet<u64>` as an ascending list.
use icicle_emu.Base.{
  ℕ, zero, suc, ◌+◌, ◌≤◌, ◌<◌, ◌≡◌, refl, List, [], ◌∷◌, Bool, true, false, not, ◌||◌, ◌&&◌,
  if◌then◌else◌, ltb, leb, ◌==◌, arith, Bool-cases, inl, inr,
}

abbrev pub has : List ℕ → ℕ → Bool
has [] j = false
has (x ∷ xs) j = (x == j) || has xs j

abbrev pub insert : List ℕ → ℕ → List ℕ
insert [] y = y ∷ []
insert (x ∷ xs) y =
    let rest = insert xs y in
    if ltb y x then y ∷ (x ∷ xs) else (if x == y then x ∷ xs else x ∷ rest)

abbrev pub remove : List ℕ → ℕ → List ℕ
remove [] y = []
remove (x ∷ xs) y = let rest = remove xs y in if x == y then xs else x ∷ rest

-- The numbers from `from` on, as many as the last argument says.
abbrev pub extend : List ℕ → ℕ → ℕ → List ℕ
extend xs from zero = xs
extend xs from (suc n) = extend (insert xs from) (suc from) n

abbrev pub IsAscending : ℕ → List ℕ → Type 0
IsAscending low [] = Unit
IsAscending low (x ∷ xs) = low ≤ x × IsAscending (suc x) xs

pub has_below : (low : ℕ) (xs : List ℕ) (j : ℕ) → IsAscending low xs → j < low → has xs j ≡ false
has_below low [] j s l = refl
has_below low (x ∷ xs) j (a, s) l = elim (Bool-cases (x == j)) [
  | inl e ↦ absurd (ground arith)
  | inr e ↦ rw e (has_below (suc x) xs j s (omega (arith, a)))
]

pub IsAscending-weaken : (a b : ℕ) (xs : List ℕ) → a ≤ b → IsAscending b xs → IsAscending a xs
IsAscending-weaken a b [] l s = tt
IsAscending-weaken a b (x ∷ xs) l (h, s) = (omega arith, s)

pub insert-IsAscending :
    (low : ℕ) (xs : List ℕ) (y : ℕ) → IsAscending low xs → low ≤ y → IsAscending low (insert xs y)
insert-IsAscending low [] y s l = (l, tt)
insert-IsAscending low (x ∷ xs) y (a, s) l = elim (Bool-cases (ltb y x)) [
  | inl e ↦ rw e (l, (ground arith, s))
  | inr e ↦ elim (Bool-cases (x == y)) [
    | inl f ↦ rw (e, f) (a, s)
    | inr f ↦ rw (e, f) (a, insert-IsAscending (suc x) xs y s (ground arith))
  ]
]

pub has-insert : (xs : List ℕ) (y j : ℕ) → has (insert xs y) j ≡ ((y == j) || has xs j)
has-insert [] y j = refl
has-insert (x ∷ xs) y j = elim (Bool-cases (ltb y x)) [
  | inl e ↦ rw e refl
  | inr e ↦ elim (Bool-cases (x == y)) [
    | inl f ↦ rw (e, f) (ground arith)
    | inr f ↦ rw (e, f) (rw (has-insert xs y j) (ground arith))
  ]
]

pub remove-IsAscending :
    (low : ℕ) (xs : List ℕ) (y : ℕ) → IsAscending low xs → IsAscending low (remove xs y)
remove-IsAscending low [] y s = tt
remove-IsAscending low (x ∷ xs) y (a, s) = elim (Bool-cases (x == y)) [
  | inl e ↦ rw e (IsAscending-weaken low (suc x) xs (omega arith) s)
  | inr e ↦ rw e (a, remove-IsAscending (suc x) xs y s)
]

pub has-remove :
    (low : ℕ) (xs : List ℕ) (y j : ℕ)
    → IsAscending low xs
    → has (remove xs y) j ≡ (not (y == j) && has xs j)
has-remove low [] y j s = ground arith
has-remove low (x ∷ xs) y j (a, s) = elim (Bool-cases (x == y)) [
  | inl e ↦ rw e (removed e)
  | inr e ↦ rw e (rw (has-remove (suc x) xs y j s) (ground arith))
]
  where
    removed : (x == y) ≡ true → has xs j ≡ (not (y == j) && ((x == j) || has xs j))
    removed e = elim (Bool-cases (y == j)) [
      | inl f ↦ rw f (has_below (suc x) xs j s (ground arith))
      | inr f ↦ ground arith
    ]

pub extend-IsAscending :
    (xs : List ℕ) (from n : ℕ) → IsAscending 0 xs → IsAscending 0 (extend xs from n)
extend-IsAscending xs from zero s = s
extend-IsAscending xs from (suc n) s =
    extend-IsAscending (insert xs from) (suc from) n (insert-IsAscending 0 xs from s (omega arith))

pub has-extend :
    (xs : List ℕ) (from n j : ℕ)
    → has (extend xs from n) j ≡ (has xs j || (leb from j && ltb j (from + n)))
has-extend xs from zero j = ground arith
has-extend xs from (suc n) j =
    rw (has-extend (insert xs from) (suc from) n j, has-insert xs from j) (ground arith)
