-- ===== src/Arithmetic/BigInt/Parse.antt =====
-- arithmetic/big_integer: the constructor from a text in any radix.
pub mod Horner
pub mod Digits
use mai_fa_sp_4_sem.Base.{
  ℕ, ◌+◌, ◌-◌, Bool, true, false, not, ◌&&◌, ◌||◌, ◌==◌, ltb, leb, if◌then◌else◌, Option, none,
  some, List, [], ◌∷◌,
}
use mai_fa_sp_4_sem.Arithmetic.Digits.{shl_loop}
use mai_fa_sp_4_sem.Arithmetic.BigInt.{BigInt}

-- The value of a character; `none` is -1.
abbrev pub digit_value : ℕ → Option ℕ
digit_value c =
    if leb b'0' c && leb c b'9'
    then some (c - b'0')
    else if leb b'A' c && leb c b'Z'
    then some (c - b'A' + 10)
    else if leb b'a' c && leb c b'z'
    then some (c - b'a' + 10)
    else none

-- `is_valid_digit`, and with it the value of `char_to_value`.
unfoldable pub valid_digit : ℕ → ℕ → Option ℕ
valid_digit c radix = elim (digit_value c) [
  | none ↦ none
  | some value ↦ if ltb value radix then some value else none
]

-- The leading zeros but for the last character.
unfoldable pub skip_zeros : List ℕ → List ℕ
skip_zeros [] = []
skip_zeros (c ∷ []) = c ∷ []
skip_zeros (c ∷ d ∷ cs) = let rest = skip_zeros (d ∷ cs) in if c == b'0' then rest else c ∷ d ∷ cs

-- The loop on the characters; `none` is the exception. On the digits it is the loop of `<<=` with
-- the radix for the factor.
unfoldable pub parse_chars : ℕ → List ℕ → List ℕ → Option (List ℕ)
parse_chars radix [] digits = some digits
parse_chars radix (c ∷ cs) digits = elim (valid_digit c radix) [
  | none ↦ none
  | some digit ↦ parse_chars radix cs (shl_loop radix digits digit)
]

abbrev pub zero_number : BigInt
zero_number = record { sign = true; digits = 0 ∷ [] }

-- The number behind the sign.
unfoldable pub parse_unsigned : Bool → List ℕ → ℕ → Option BigInt
parse_unsigned sign num radix = elim (skip_zeros num) [
  | [] ↦ some zero_number
  | c ∷ cs ↦
      if c == b'0' && (elim cs [ [] ↦ true | _ ↦ false ])
      then some zero_number
      else elim (parse_chars radix (c ∷ cs) []) [
        | none ↦ none
        | some digits ↦ some (record { sign = sign; digits = digits })
      ]
]

unfoldable pub parse : List ℕ → ℕ → Option BigInt
parse num radix = if ltb radix 2 || ltb 36 radix then none else elim num [
  | [] ↦ some zero_number
  | c ∷ cs ↦
      if c == b'-'
      then parse_unsigned false cs radix
      else if c == b'+'
      then parse_unsigned true cs radix
      else parse_unsigned true (c ∷ cs) radix
]
