-- ===== src/Bathroom/Number.antt =====
-- SP/task5/main.c: `CheckNumber` and `StringToInt`, which read `max_in_room`.
pub mod Digits
use mai_fa_sp_4_sem.Base.{
  ℕ, zero, suc, ◌+◌, ◌-◌, ◌*◌, ◌/◌, ◌^◌, Bool, true, false, not, ◌&&◌, ◌||◌, ◌==◌, ltb, leb,
  if◌then◌else◌, Option, none, some, List, [], ◌∷◌, length,
}
use mai_fa_sp_4_sem.Base.Int.{ℤ, pos, negsuc, sub_ℕ}

abbrev pub int_max : ℕ
int_max = 2_147_483_647

abbrev pub is_digit : ℕ → Bool
is_digit c = leb b'0' c && leb c b'9'

abbrev is_letter : ℕ → Bool
is_letter c = leb b'A' c && leb c b'Z' || (leb b'a' c && leb c b'z')

abbrev tolower : ℕ → ℕ
tolower c = if leb b'A' c && leb c b'Z' then c + 32 else c

-- The loop of `CheckNumber`.
unfoldable pub check_digits : List ℕ → ℕ → Bool
check_digits [] osn = true
check_digits (c ∷ cs) osn =
    let rest = check_digits cs osn in
    if is_digit c
    then (if leb osn (c - b'0') then false else rest)
    else if is_letter c
    then (if leb osn (10 + tolower c - b'a') then false else rest)
    else false

unfoldable pub check_number : List ℕ → ℕ → Bool
check_number [] osn = check_digits [] osn
check_number (c ∷ cs) osn =
    if c == b'-'
    then (if length (c ∷ cs) == 1 then false else check_digits cs osn)
    else check_digits (c ∷ cs) osn

-- The loop of `StringToInt`; `none` is the return of 1.
unfoldable pub to_int_loop : List ℕ → ℕ → Option ℕ
to_int_loop [] result = some result
to_int_loop (c ∷ cs) result =
    let rest = to_int_loop cs (result * 10 + (c - b'0')) in
    if is_digit c then (if ltb (int_max / 10) result then none else rest) else none

-- The value that an `int` keeps of a `long long` in the range of 33 bits: modulo 2^32.
abbrev pub to_int : Bool → ℕ → ℤ
to_int negative n =
    if negative
    then (if leb n (int_max + 1) then sub_ℕ 0 n else sub_ℕ (2 ^ 32) n)
    else if leb n int_max
    then pos n
    else sub_ℕ n (2 ^ 32)

-- `some r` is the return of 0 with `*res == r`.
unfoldable pub string_to_int : List ℕ → Option ℤ
string_to_int str = if not (check_number str 10) then none else elim str [
  | [] ↦ some (to_int false 0)
  | c ∷ cs ↦
      if c == b'-'
      then elim (to_int_loop cs 0) [ none ↦ none | some n ↦ some (to_int true n) ]
      else elim (to_int_loop (c ∷ cs) 0) [ none ↦ none | some n ↦ some (to_int false n) ]
]
