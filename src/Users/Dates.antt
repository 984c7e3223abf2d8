-- ===== src/Users/Dates.antt =====
-- SP/task1/main.c: `ValidateTime`, the check of a date and time typed by the user.
pub mod Format
use mai_fa_sp_4_sem.Base.{
  ℕ, zero, suc, ◌+◌, ◌-◌, ◌*◌, ◌%◌, Bool, true, false, not, ◌&&◌, ◌||◌, ◌==◌, ltb, leb,
  if◌then◌else◌, Option, none, some, List, [], ◌∷◌, length,
}
use mai_fa_sp_4_sem.Libc.{is_digit, skip_white}

-- A run of digits: how many, the number that they write, and what follows.
pub record Run : Type 0 where
  pub count : ℕ
  pub number : ℕ
  pub rest : List ℕ

unfoldable pub run_of : ℕ → ℕ → List ℕ → Run
run_of k n [] = record { count = k; number = n; rest = [] }
run_of k n (c ∷ cs) =
    let more = run_of (k + 1) (n * 10 + (c - b'0')) cs in
    if is_digit c then more else record { count = k; number = n; rest = c ∷ cs }

-- A field of `ValidateTime`'s formats: `%*[0-9]%n` of the first, which fails without a digit, and
-- the `%d` of the second on the same digits. `end` is the offset that `%n` stores.
pub record Field : Type 0 where
  pub end : ℕ
  pub number : ℕ
  pub rest : List ℕ

unfoldable pub field : ℕ → List ℕ → Option Field
unfolding run_of
field start s =
    let r = run_of 0 0 s in
    if r.count == 0
    then none
    else some (record { end = start + r.count; number = r.number; rest = r.rest })

-- The `:` of a format.
unfoldable pub colon : Field → Option Field
colon f = elim f.rest [ [] ↦ none | c ∷ cs ↦ if c == b':' then field (f.end + 1) cs else none ]

-- The space of a format: any white space, or none.
unfoldable pub space : Field → Option Field
space f = field (f.end + (length f.rest - length (skip_white f.rest))) (skip_white f.rest)

infixl 5 ◌>>=◌
abbrev ◌>>=◌ {ℓ κ} : {A : Type ℓ} {B : Type κ} → Option A → (A → Option B) → Option B
none >>= f = none
some a >>= f = f a

pub record Time : Type 0 where
  pub day : Field
  pub month : Field
  pub year : Field
  pub hour : Field
  pub minute : Field
  pub second : Field

-- Both calls of `sscanf`.
unfoldable pub scan_time : List ℕ → Option Time
scan_time time = do
  d ← field 0 time
  mon ← colon d
  y ← colon mon
  h ← space y
  min ← colon h
  s ← colon min
  some (record { day = d; month = mon; year = y; hour = h; minute = min; second = s })

abbrev pub is_leap : ℕ → Bool
is_leap year = year % 400 == 0 || (not (year % 100 == 0) && year % 4 == 0)

-- The `switch` on the month.
unfoldable pub max_days : ℕ → ℕ → ℕ
max_days month year =
    if month == 4 || (month == 6 || (month == 9 || month == 11))
    then 30
    else if month == 2
    then (if is_leap year then 29 else 28)
    else 31

-- The tests on the numbers.
unfoldable pub in_range : ℕ → ℕ → ℕ → ℕ → ℕ → ℕ → Bool
in_range day month year hour minute second =
    if ltb 23 hour || (ltb 59 minute || ltb 59 second)
    then false
    else if ltb year 1980 || (ltb month 1 || (ltb 12 month || (ltb day 1 || ltb 31 day)))
    then false
    else if ltb (max_days month year) day
    then false
    else true

unfoldable pub validate_time : List ℕ → Bool
validate_time time = if not (length time == 19) then false else elim (scan_time time) [
  | none ↦ false
  | some t ↦
      if not (t.day.end == 2)
        || (not (t.minute.end == 16)
            || (not (t.year.end == 10)
                || (not (t.hour.end == 13)
                    || (not (t.month.end == 5) || not (t.second.end == 19)))))
      then false
      else in_range t.day.number t.month.number t.year.number t.hour.number t.minute.number
          t.second.number
]
