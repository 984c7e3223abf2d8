-- ===== src/Arithmetic/BigInt/Parse/Digits.antt =====
-- What the texts of numbers stand for, told without the code, and what the constructor of
-- arithmetic/big_integer makes of them.
use mai_fa_sp_4_sem.Base.{
  ℕ, ◌+◌, ◌*◌, ◌≤◌, ◌<◌, ◌≡◌, refl, sym, ◌∙◌, ap, ◌⊎◌, inl, inr, Bool, Option, some, none, List, [],
  ◌∷◌, arith, Option-cases, Bool-cases, leb, ◌&&◌, ◌-◌,
}
use mai_fa_sp_4_sem.Arithmetic.BigInt.{BigInt}
use mai_fa_sp_4_sem.Arithmetic.BigInt.Value.{signed}
use mai_fa_sp_4_sem.Arithmetic.BigInt.Sums.{Is}
use mai_fa_sp_4_sem.Arithmetic.BigInt.Parse.{valid_digit, parse}
use mai_fa_sp_4_sem.Arithmetic.BigInt.Parse.Horner.{
  horner, Reads, refused, reads, Signed, parse-horner,
}

-- A character and its value: the numerals are 0 to 9, and the letters, capital or small, 10 to 35.
pub data Digit (c d : ℕ) : Type 0 where
  numeral : c ≡ b'0' + d → d < 10 → Digit c d
  capital : (k : ℕ) → k < 26 → c ≡ b'A' + k → d ≡ 10 + k → Digit c d
  small : (k : ℕ) → k < 26 → c ≡ b'a' + k → d ≡ 10 + k → Digit c d

-- Behind a text of the value `n` the characters make up the number `m`: each is a digit of the radix.
abbrev pub Stands : ℕ → ℕ → List ℕ → ℕ → Type 0
Stands radix n [] m = n ≡ m
Stands radix n (c ∷ cs) m = (d : ℕ) × Digit c d × (d < radix) × Stands radix (n * radix + d) cs m

valid_digit-Digit : (c radix d : ℕ) → valid_digit c radix ≡ some d → Digit c d × (d < radix)
unfolding valid_digit
valid_digit-Digit c radix d h = elim (Bool-cases (leb b'0' c && leb c b'9')) [
  | inl digit ↦ (numeral (ground arith) (ground arith), ground arith)
  | inr no_digit ↦ elim (Bool-cases (leb b'A' c && leb c b'Z')) [
    | inl big ↦ (capital (c - b'A') (ground arith) (ground arith) (ground arith), ground arith)
    | inr not_big ↦ elim (Bool-cases (leb b'a' c && leb c b'z')) [
      | inl little ↦ (small (c - b'a') (ground arith) (ground arith) (ground arith), ground arith)
      | inr other ↦ absurd (ground arith)
    ]
  ]
]

Digit-valid_digit : (c radix d : ℕ) → Digit c d → d < radix → valid_digit c radix ≡ some d
unfolding valid_digit
Digit-valid_digit c radix d (numeral e lt) h = ground arith
Digit-valid_digit c radix d (capital k lt e f) h = ground arith
Digit-valid_digit c radix d (small k lt e f) h = ground arith

horner-Stands :
    (radix n : ℕ) (cs : List ℕ) (m : ℕ) → horner radix n cs ≡ some m → Stands radix n cs m
unfolding horner
horner-Stands radix n [] m h = cc
horner-Stands radix n (c ∷ cs) m h = elim (Option-cases (valid_digit c radix)) [
  | inl bad ↦ absurd (ground arith)
  | inr (d, e) ↦
      (let (digit, lt) = valid_digit-Digit c radix d e in
        (d, digit, lt, horner-Stands radix (n * radix + d) cs m (rw (e, horner) at h)))
]

Stands-horner :
    (radix n : ℕ) (cs : List ℕ) (m : ℕ) → Stands radix n cs m → horner radix n cs ≡ some m
unfolding horner
Stands-horner radix n [] m h = ap some h
Stands-horner radix n (c ∷ cs) m (d, digit, lt, h) =
    rw (Digit-valid_digit c radix d digit lt, horner) (Stands-horner radix (n * radix + d) cs m h)

-- What the constructor answers: the number that the text stands for, or a refusal if there is none.
abbrev pub Answer : Bool → ℕ → List ℕ → Option BigInt → Type 0
Answer sign radix num o =
    ((a : BigInt) × (m : ℕ) × (o ≡ some a) × Stands radix 0 num m × Is a (signed sign m))
    ⊎ ((o ≡ none) × ((m : ℕ) → ¬ Stands radix 0 num m))

none_not_some : {m : ℕ} → none ≡ some m → ⊥
none_not_some e = ground arith

answer :
    (sign : Bool) (radix : ℕ) (num : List ℕ) (o : Option BigInt) (value : Option ℕ)
    → horner radix 0 num ≡ value
    → Reads sign o value
    → Answer sign radix num o
answer sign radix num _ _ e refused =
    inr (refl, λ m h. none_not_some (sym e ∙ Stands-horner radix 0 num m h))
answer sign radix num _ _ e (reads a m is) = inl (a, m, refl, horner-Stands radix 0 num m e, is)

-- The constructor on a text of any radix from 2 to 36: it builds the one valid number of the sign
-- and the value that the text stands for by its numerals and letters, and refuses the text if it
-- stands for none, since a character is no digit of the radix.
pub parse-Answer :
    (text num : List ℕ) (sign : Bool) (radix : ℕ)
    → Signed text sign num
    → 2 ≤ radix
    → radix ≤ 36
    → Answer sign radix num (parse text radix)
parse-Answer text num sign radix h lo hi =
    answer sign radix num (parse text radix) (horner radix 0 num) refl
      (parse-horner text num sign radix h lo hi)
