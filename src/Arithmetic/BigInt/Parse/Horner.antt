-- ===== src/Arithmetic/BigInt/Parse/Horner.antt =====
-- What the constructor of arithmetic/big_integer makes of a text.
use mai_fa_sp_4_sem.Base.{
  ℕ, ◌+◌, ◌*◌, ◌/◌, ◌%◌, ◌≤◌, ◌<◌, ◌≡◌, ◌≢◌, refl, ap, sym, subst, ◌∙◌, ◌⊎◌, inl, inr, Bool, true,
  false, ◌&&◌, ◌||◌, ◌==◌, ltb, if◌then◌else◌, Option, some, none, List, [], ◌∷◌, length, arith,
  Bool-cases, Option-cases,
}
use mai_fa_sp_4_sem.Arithmetic.Digits.{base, shl_loop}
use mai_fa_sp_4_sem.Arithmetic.Digits.Value.{value, AllDigits, value-shl_loop}
use mai_fa_sp_4_sem.Arithmetic.BigInt.{BigInt}
use mai_fa_sp_4_sem.Arithmetic.BigInt.Value.{top, top-zero, signed}
use mai_fa_sp_4_sem.Arithmetic.BigInt.Sums.{Is}
use mai_fa_sp_4_sem.Arithmetic.BigInt.Parse.{
  valid_digit, skip_zeros, parse_chars, zero_number, parse_unsigned, parse,
}

-- The number that a text stands for in a radix, with `n` for what stands before it; `none` if a
-- character is no digit.
unfoldable pub horner : ℕ → ℕ → List ℕ → Option ℕ
horner radix n [] = some n
horner radix n (c ∷ cs) = elim (valid_digit c radix) [
  | none ↦ none
  | some d ↦ horner radix (n * radix + d) cs
]

product_le : (d factor : ℕ) → d < base → d * factor + factor ≤ base * factor
product_le d factor h = grind arith

product_positive : (d factor : ℕ) → d ≢ 0 → 0 < factor → 0 < d * factor
product_positive d factor h f = grind arith

top-cons : (d : ℕ) (ds : List ℕ) → top ds ≢ 0 → top (d ∷ ds) ≢ 0
top-cons d [] h = absurd (h refl)
top-cons d (e ∷ ds) h = h

shl_loop-AllDigits :
    (factor : ℕ) (ds : List ℕ) (carry : ℕ)
    → 0 < factor
    → factor < base
    → AllDigits ds
    → carry < factor
    → AllDigits (shl_loop factor ds carry)
unfolding shl_loop
shl_loop-AllDigits factor [] carry f g h c = ground arith
shl_loop-AllDigits factor (d ∷ ds) carry f g (h, hs) c = (
  omega arith,
  shl_loop-AllDigits factor ds ((d * factor + carry) / base) f g hs
      (omega (arith, product_le d factor h)),
)

-- No zero comes on top.
shl_loop-top :
    (factor : ℕ) (ds : List ℕ) (carry : ℕ)
    → 0 < factor
    → AllDigits ds
    → (top ds ≢ 0) ⊎ (ds ≡ []) × (carry ≢ 0)
    → top (shl_loop factor ds carry) ≢ 0
unfolding shl_loop
shl_loop-top factor [] carry f h k = ground arith
shl_loop-top factor (d ∷ []) carry f h k = ground (arith, product_positive d factor)
shl_loop-top factor (d ∷ e ∷ ds) carry f (h, hs) k =
    top-cons ((d * factor + carry) % base) (shl_loop factor (e ∷ ds) ((d * factor + carry) / base))
      (shl_loop-top factor (e ∷ ds) ((d * factor + carry) / base) f hs (ground arith))

-- Digits without a zero on top that stand for a number other than zero.
record Holds (ds : List ℕ) (n : ℕ) : Type 0 where
  bounded : AllDigits ds
  size : value ds ≡ n
  no_zero : top ds ≢ 0

valid_digit-lt : (c radix d : ℕ) → valid_digit c radix ≡ some d → d < radix
unfolding valid_digit
valid_digit-lt c radix d h = ground arith

next-Holds :
    (radix : ℕ) (ds : List ℕ) (n d : ℕ)
    → 0 < radix
    → radix < base
    → d < radix
    → Holds ds n
    → Holds (shl_loop radix ds d) (n * radix + d)
next-Holds radix ds n d f g lt h = record {
  bounded = shl_loop-AllDigits radix ds d f g h.bounded lt;
  size = value-shl_loop radix ds d ∙ ap (λ x. x * radix + d) h.size;
  no_zero = shl_loop-top radix ds d f h.bounded (inl h.no_zero);
}

-- The loop on the characters against the value of the text.
data Parsed : Option (List ℕ) → Option ℕ → Type 0 where
  refused : Parsed none none
  read : (ds : List ℕ) (n : ℕ) → Holds ds n → Parsed (some ds) (some n)

parse_chars-Parsed :
    (radix : ℕ) (cs ds : List ℕ) (n : ℕ)
    → 0 < radix
    → radix < base
    → Holds ds n
    → Parsed (parse_chars radix cs ds) (horner radix n cs)
unfolding parse_chars horner
parse_chars-Parsed radix [] ds n f g h = read ds n h
parse_chars-Parsed radix (c ∷ cs) ds n f g h = elim (Option-cases (valid_digit c radix)) [
  | inl bad ↦ rw (bad, horner, parse_chars) refused
  | inr (d, e) ↦
      rw (e, horner, parse_chars)
        (parse_chars-Parsed radix cs (shl_loop radix ds d) (n * radix + d) f g
          (next-Holds radix ds n d f g (valid_digit-lt c radix d e) h))
]

valid_digit-zero : (radix : ℕ) → 0 < radix → valid_digit b'0' radix ≡ some 0
unfolding valid_digit
valid_digit-zero radix h = ground arith

horner-zero :
    (c radix : ℕ) (num : List ℕ)
    → 0 < radix
    → c ≡ b'0'
    → horner radix 0 (c ∷ num) ≡ horner radix 0 num
unfolding horner
horner-zero c radix num h e =
    let z : valid_digit c radix ≡ some 0 =
      ap (λ x. valid_digit x radix) e ∙ valid_digit-zero radix h in
    rw (z, horner) (ap (λ n. horner radix n num) (omega arith))

horner-skip_zeros :
    (radix : ℕ) (num : List ℕ) → 0 < radix → horner radix 0 (skip_zeros num) ≡ horner radix 0 num
unfolding skip_zeros
horner-skip_zeros radix [] f = refl
horner-skip_zeros radix (c ∷ []) f = refl
horner-skip_zeros radix (c ∷ d ∷ cs) f = elim (Bool-cases (c == b'0')) [
  | inl z ↦
      rw z
        (horner-skip_zeros radix (d ∷ cs) f ∙ sym (horner-zero c radix (d ∷ cs) f (ground arith)))
  | inr nz ↦ rw nz refl
]

-- What the constructor answers for a text that stands for a number or for none.
pub data Reads (sign : Bool) : Option BigInt → Option ℕ → Type 0 where
  refused : Reads sign none none
  reads : (a : BigInt) (n : ℕ) → Is a (signed sign n) → Reads sign (some a) (some n)

first_digit : (c radix d : ℕ) → valid_digit c radix ≡ some d → c ≢ b'0' → d ≢ 0
unfolding valid_digit
first_digit c radix d h ne = ground arith

first-Holds :
    (radix d : ℕ) → d < radix → radix < base → d ≢ 0 → Holds (shl_loop radix [] d) (0 * radix + d)
first-Holds radix d lt g ne = record {
  bounded = shl_loop-AllDigits radix [] d (omega arith) g tt lt;
  size = value-shl_loop radix [] d;
  no_zero = shl_loop-top radix [] d (omega arith) tt (inr (refl, ne));
}

top-length : (ds : List ℕ) → top ds ≢ 0 → 0 < length ds
top-length [] h = absurd (h refl)
top-length (d ∷ ds) h = omega arith

Holds-Is :
    (sign : Bool) (ds : List ℕ) (n : ℕ)
    → Holds ds n
    → Is (record { sign = sign; digits = ds }) (signed sign n)
Holds-Is sign ds n h = (
  record {
    digits = h.bounded;
    some_digit = top-length ds h.no_zero;
    no_zero = inr h.no_zero;
    one_zero = λ e. absurd (h.no_zero (top-zero ds e));
  },
  ap (signed sign) h.size,
)

-- No zero in front of other characters.
abbrev HasHead : List ℕ → Type 0
HasHead [] = Unit {0}
HasHead (c ∷ []) = Unit {0}
HasHead (c ∷ d ∷ cs) = c ≢ b'0'

skip_zeros-head : (num : List ℕ) → HasHead (skip_zeros num)
unfolding skip_zeros
skip_zeros-head [] = tt
skip_zeros-head (c ∷ []) = tt
skip_zeros-head (c ∷ d ∷ cs) = elim (Bool-cases (c == b'0')) [
  | inl z ↦ rw z (skip_zeros-head (d ∷ cs))
  | inr nz ↦ rw nz (ground arith)
]

zero_number-Is : (sign : Bool) → Is zero_number (signed sign 0)
zero_number-Is sign = (
  record {
    digits = (omega arith, tt);
    some_digit = omega arith;
    no_zero = inl refl;
    one_zero = λ e. refl;
  },
  ground arith,
)

-- The text behind its zeros.
parse_chars-Reads :
    (sign : Bool) (radix c : ℕ) (cs : List ℕ)
    → radix < base
    → c ≢ b'0'
    → Reads sign
        (elim (parse_chars radix (c ∷ cs) []) [
          | none ↦ none
          | some digits ↦ some (record { sign = sign; digits = digits })
        ])
        (horner radix 0 (c ∷ cs))
unfolding horner parse_chars
parse_chars-Reads sign radix c cs g ne = elim (Option-cases (valid_digit c radix)) [
  | inl bad ↦ rw (bad, horner, parse_chars) refused
  | inr (d, e) ↦
      rw (e, horner, parse_chars)
        (built (parse_chars radix cs (shl_loop radix [] d)) (horner radix (0 * radix + d) cs) (
          parse_chars-Parsed radix cs (shl_loop radix [] d) (0 * radix + d)
            (omega (arith, valid_digit-lt c radix d e)) g
            (first-Holds radix d (valid_digit-lt c radix d e) g (first_digit c radix d e ne))))
]
  where
    built :
        (ds : Option (List ℕ)) (n : Option ℕ)
        → Parsed ds n
        → Reads sign
            (elim ds [ none ↦ none | some digits ↦ some (record { sign = sign; digits = digits }) ])
            n
    built _ _ refused = refused
    built _ _ (read ds n h) = reads (record { sign = sign; digits = ds }) n (Holds-Is sign ds n h)

head_cases :
    (c : ℕ) (cs : List ℕ)
    → HasHead (c ∷ cs)
    → ((c == b'0' && elim cs [ [] ↦ true | _ ↦ false ]) ≡ true) × (c == b'0' ≡ true) × (cs ≡ [])
      ⊎ ((c == b'0' && elim cs [ [] ↦ true | _ ↦ false ]) ≡ false) × (c ≢ b'0')
head_cases c [] h = ground arith
head_cases c (d ∷ cs) h = ground arith

radix_ok : (radix : ℕ) → 2 ≤ radix → radix ≤ 36 → (ltb radix 2 || ltb 36 radix) ≡ false
radix_ok radix lo hi = ground arith

not_equal : (m n : ℕ) → m ≢ n → (m == n) ≡ false
not_equal m n h = ground arith

-- What the constructor makes of a number without its sign, in any radix from 2 to 36.
parse_unsigned-Reads :
    (sign : Bool) (num : List ℕ) (radix : ℕ)
    → 0 < radix
    → radix < base
    → Reads sign (parse_unsigned sign num radix) (horner radix 0 num)
unfolding parse_unsigned horner
parse_unsigned-Reads sign num radix f g =
    subst (λ n. Reads sign (parse_unsigned sign num radix) n) (horner-skip_zeros radix num f)
      (on_rest (skip_zeros num) (skip_zeros-head num))
  where
    on_rest :
        (l : List ℕ)
        → HasHead l
        → Reads sign
            (elim l [
              | [] ↦ some zero_number
              | c ∷ cs ↦
                  if c == b'0' && (elim cs [ [] ↦ true | _ ↦ false ])
                  then some zero_number
                  else elim (parse_chars radix (c ∷ cs) []) [
                    | none ↦ none
                    | some digits ↦ some (record { sign = sign; digits = digits })
                  ]
            ])
            (horner radix 0 l)
    on_rest [] h = reads zero_number 0 (zero_number-Is sign)
    on_rest (c ∷ cs) h = elim (head_cases c cs h) [
      | inl (zero_c, is_zero_c, e) ↦ rw zero_c (
          subst (λ n. Reads sign (some zero_number) n)
            (sym (horner-zero c radix cs f (ground arith) ∙ ap (horner radix 0) e))
            (reads zero_number 0 (zero_number-Is sign)))
      | inr (other, ne) ↦ rw other (parse_chars-Reads sign radix c cs g ne)
    ]

-- The sign before a text and the number behind it.
pub data Signed : List ℕ → Bool → List ℕ → Type 0 where
  minus : (num : List ℕ) → Signed (b'-' ∷ num) false num
  plus : (num : List ℕ) → Signed (b'+' ∷ num) true num
  none_given : (c : ℕ) (num : List ℕ) → c ≢ b'-' → c ≢ b'+' → Signed (c ∷ num) true (c ∷ num)

-- The constructor on a text of any radix from 2 to 36, against the value of the text by `horner`.
pub parse-horner :
    (text num : List ℕ) (sign : Bool) (radix : ℕ)
    → Signed text sign num
    → 2 ≤ radix
    → radix ≤ 36
    → Reads sign (parse text radix) (horner radix 0 num)
unfolding parse
parse-horner _ _ _ radix (minus num) lo hi =
    rw (radix_ok radix lo hi) (parse_unsigned-Reads false num radix (omega arith) (omega arith))
parse-horner _ _ _ radix (plus num) lo hi =
    rw (radix_ok radix lo hi) (parse_unsigned-Reads true num radix (omega arith) (omega arith))
parse-horner _ _ _ radix (none_given c num m p) lo hi =
    rw (radix_ok radix lo hi, not_equal c b'-' m, not_equal c b'+' p)
      (parse_unsigned-Reads true (c ∷ num) radix (omega arith) (omega arith))
