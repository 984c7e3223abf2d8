-- ===== src/Bathroom/Number/Digits.antt =====
-- What `StringToInt` of SP/task5/main.c makes of a decimal number.
use mai_fa_sp_4_sem.Base.{
  ℕ, ◌+◌, ◌-◌, ◌*◌, ◌^◌, ◌≤◌, ◌<◌, ◌≡◌, refl, Bool, true, false, leb, if◌then◌else◌, none, some,
  List, [], ◌∷◌, arith,
}
use mai_fa_sp_4_sem.Base.Int.{negsuc}
use mai_fa_sp_4_sem.Bathroom.Number.{
  int_max, check_digits, check_number, to_int_loop, to_int, string_to_int,
}

-- Every byte is a decimal digit.
abbrev pub AllDigits : List ℕ → Type 0
AllDigits [] = Unit {0}
AllDigits (c ∷ cs) = ((b'0' ≤ c) × (c ≤ b'9')) × AllDigits cs

-- The number that the digits write, behind those of `n`.
unfoldable pub value : List ℕ → ℕ → ℕ
value [] n = n
value (c ∷ cs) n = value cs (10 * n + (c - b'0'))

value-le : (cs : List ℕ) (n : ℕ) → n ≤ value cs n
unfolding value
value-le [] n = omega arith
value-le (c ∷ cs) n = omega (arith, value-le cs (10 * n + (c - b'0')))

check_digits-AllDigits : (cs : List ℕ) → AllDigits cs → check_digits cs 10 ≡ true
unfolding check_digits
check_digits-AllDigits [] h = refl
check_digits-AllDigits (c ∷ cs) h = ground (arith, check_digits-AllDigits cs)

to_int_loop-value :
    (cs : List ℕ) (n : ℕ)
    → AllDigits cs
    → n ≤ int_max + 2
    → to_int_loop cs n ≡ (if leb (value cs n) (int_max + 2) then some (value cs n) else none)
unfolding to_int_loop value
to_int_loop-value [] n h small = ground arith
to_int_loop-value (c ∷ cs) n h small =
    ground (arith, to_int_loop-value cs (10 * n + (c - b'0')), value-le cs (10 * n + (c - b'0')))

-- The sign, if any, before the digits.
abbrev pub signed : Bool → List ℕ → List ℕ
signed true cs = b'-' ∷ cs
signed false cs = cs

check_number-AllDigits :
    (negative : Bool) (c : ℕ) (cs : List ℕ)
    → AllDigits (c ∷ cs)
    → check_number (signed negative (c ∷ cs)) 10 ≡ true
unfolding check_number
check_number-AllDigits true c cs h = ground (arith, check_digits-AllDigits (c ∷ cs) h)
check_number-AllDigits false c cs h = ground (arith, check_digits-AllDigits (c ∷ cs) h)

-- A decimal number with or without a minus sign is read exactly up to INT_MAX + 2, past which the
-- function refuses it; what it stores is the number as an `int` keeps it, so the exact number up
-- to INT_MAX.
pub string_to_int-value :
    (negative : Bool) (c : ℕ) (cs : List ℕ)
    → AllDigits (c ∷ cs)
    → string_to_int (signed negative (c ∷ cs)) ≡ (
        if leb (value (c ∷ cs) 0) (int_max + 2)
        then some (to_int negative (value (c ∷ cs) 0))
        else none)
unfolding string_to_int
string_to_int-value true c cs h =
    ground (arith, check_number-AllDigits true c cs h, to_int_loop-value (c ∷ cs) 0 h)
string_to_int-value false c cs h =
    ground (arith, check_number-AllDigits false c cs h, to_int_loop-value (c ∷ cs) 0 h)

-- The check against overflow comes one digit too early: INT_MAX + 1 and INT_MAX + 2, with any
-- leading zeros, are accepted, and the capacity that is stored is negative.
pub string_to_int-overflow :
    (c : ℕ) (cs : List ℕ)
    → AllDigits (c ∷ cs)
    → int_max < value (c ∷ cs) 0
    → value (c ∷ cs) 0 ≤ int_max + 2
    → (k : ℕ) × (string_to_int (c ∷ cs) ≡ some (negsuc k))
string_to_int-overflow c cs h lo hi =
    (2 ^ 32 - value (c ∷ cs) 0 - 1, ground (arith, string_to_int-value false c cs h))
