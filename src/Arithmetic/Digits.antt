-- ===== src/Arithmetic/Digits.antt =====
-- arithmetic/big_integer/src/big_int.cpp: the loops on vectors of digits, the lowest digit first.
pub mod Value
pub mod Product
use Prim.Native.Nat.{compare, Ordering}
use mai_fa_sp_4_sem.Base.{
  ℕ, zero, suc, ◌+◌, ◌-◌, ◌*◌, ◌/◌, ◌%◌, ◌^◌, Bool, ◌==◌, ltb, if◌then◌else◌, Option, none, some,
  List, [], ◌∷◌,
}

abbrev pub base : ℕ
base = 2 ^ 32

-- The zeros on top are taken off.
unfoldable pub strip : List ℕ → List ℕ
strip [] = []
strip (d ∷ ds) = elim (strip ds) [ [] ↦ if d == 0 then [] else d ∷ [] | e ∷ es ↦ d ∷ e ∷ es ]

-- The loop of `optimise`, which leaves one digit.
unfoldable pub trim : List ℕ → List ℕ
trim [] = []
trim (d ∷ ds) = d ∷ strip ds

-- The loop of `<=>`, from the top digit down, on as many digits of both.
unfoldable pub compare_digits : List ℕ → List ℕ → Ordering
compare_digits [] bs = Ordering.eq
compare_digits (a ∷ as') [] = Ordering.eq
compare_digits (a ∷ as') (b ∷ bs) = elim (compare_digits as' bs) [
  | Ordering.eq ↦ compare a b
  | o ↦ o
]

-- `i < _digits.size() ? _digits[i] : 0` at the first of the digits from `i` on, and the rest.
abbrev pub digit : List ℕ → ℕ
digit [] = 0
digit (d ∷ ds) = d

abbrev pub rest : List ℕ → List ℕ
rest [] = []
rest (d ∷ ds) = ds

-- The loop of `plus_assign` on the digits that are left, with the push of the last carry.
unfoldable pub add_loop : ℕ → List ℕ → List ℕ → ℕ → List ℕ
add_loop zero as' bs carry = if ltb 0 carry then carry ∷ [] else []
add_loop (suc n) as' bs carry =
    let sum = carry + digit as' + digit bs in
    sum % base ∷ add_loop n (rest as') (rest bs) (sum / base)

-- The loop of `minus_assign`; `borrow` is 1 where the source has -1.
unfoldable pub sub_loop : ℕ → List ℕ → List ℕ → ℕ → List ℕ
sub_loop zero as' bs borrow = []
sub_loop (suc n) as' bs borrow =
    let wrapped = sub_loop n (rest as') (rest bs) 1 in
    let plain = sub_loop n (rest as') (rest bs) 0 in
    if ltb (digit as') (digit bs + borrow)
    then (digit as' + base - (digit bs + borrow)) ∷ wrapped
    else (digit as' - (digit bs + borrow)) ∷ plain

-- The inner loop of the trivial multiplication from `result[i + j]` on, for the digit `d` of the
-- first factor and the digits of the second that are left; `none` is a write behind the vector.
unfoldable pub mul_row : List ℕ → ℕ → List ℕ → ℕ → Option (List ℕ)
mul_row result d [] zero = some result
mul_row [] d [] (suc c) = none
mul_row [] d (b ∷ bs) carry = none
mul_row (r ∷ result) d [] (suc c) =
    let prod = r + suc c in
    elim (mul_row result d [] (prod / base)) [ none ↦ none | some l ↦ some (prod % base ∷ l) ]
mul_row (r ∷ result) d (b ∷ bs) carry =
    let prod = r + carry + d * b in
    elim (mul_row result d bs (prod / base)) [ none ↦ none | some l ↦ some (prod % base ∷ l) ]

-- The outer loop on the digits of the first factor that are left, from `result[i]` on.
unfoldable pub mul_rows : List ℕ → List ℕ → List ℕ → Option (List ℕ)
mul_rows [] bs result = some result
mul_rows (a ∷ as') bs result = elim (mul_row result a bs 0) [
  | none ↦ none
  | some [] ↦ none
  | some (r ∷ result') ↦ elim (mul_rows as' bs result') [ none ↦ none | some l ↦ some (r ∷ l) ]
]

-- The loop of `<<=` for a factor of `2 ^ bit_shift`, with the push of the last carry. The shifted
-- digit ends in zeros where the carry has its bits, so that `|` adds.
unfoldable pub shl_loop : ℕ → List ℕ → ℕ → List ℕ
shl_loop factor [] carry = if ltb 0 carry then carry ∷ [] else []
shl_loop factor (d ∷ ds) carry =
    let value = d * factor + carry in value % base ∷ shl_loop factor ds (value / base)
