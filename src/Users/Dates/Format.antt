-- ===== src/Users/Dates/Format.antt =====
-- `ValidateTime` of SP/task1/main.c accepts what is written as DD:MM:YYYY hh:mm:ss and is a date.
use mai_fa_sp_4_sem.Base.{
  ℕ, zero, suc, ◌+◌, ◌*◌, ◌/◌, ◌%◌, ◌≤◌, ◌<◌, ◌≡◌, refl, true, false, not, ◌&&◌, ◌||◌, ◌==◌, ltb,
  if◌then◌else◌, some, List, [], ◌∷◌, get_or, Bool-cases, inl, inr, arith, ◌⊎◌,
}
use mai_fa_sp_4_sem.Libc.{is_digit, skip_white}
use mai_fa_sp_4_sem.Users.Dates.{
  run_of, Field, field, colon, space, Time, scan_time, max_days, in_range, validate_time,
}

abbrev two : ℕ → List ℕ → List ℕ
two n rest = (b'0' + n / 10) ∷ (b'0' + n % 10) ∷ rest

abbrev four : ℕ → List ℕ → List ℕ
four n rest = two (n / 100) (two (n % 100) rest)

-- The digits of a date and a time, in the form that the program asks for.
abbrev pub format : ℕ → ℕ → ℕ → ℕ → ℕ → ℕ → List ℕ
format d mon y h min s =
    two d (b':' ∷ two mon (b':' ∷ four y (b' ' ∷ two h (b':' ∷ two min (b':' ∷ two s [])))))

-- A text that begins with no digit.
abbrev Stops : List ℕ → Type 0
Stops [] = Unit {0}
Stops (c ∷ cs) = is_digit c ≡ false

run_of-Stops :
    (k n : ℕ) (rest : List ℕ)
    → Stops rest
    → run_of k n rest ≡ record { count = k; number = n; rest = rest }
unfolding run_of
run_of-Stops k n [] h = refl
run_of-Stops k n (c ∷ cs) h = ground arith

run_of-two :
    (k v n : ℕ) (rest : List ℕ)
    → n < 100
    → run_of k v (two n rest) ≡ run_of (k + 2) (100 * v + n) rest
unfolding run_of
run_of-two k v n rest h = ground arith

module _ (p n : ℕ) (rest : List ℕ) (stops : Stops rest) where
  field-two :
      n < 100 → field p (two n rest) ≡ some (record { end = p + 2; number = n; rest = rest })
  unfolding field
  field-two h =
      ground (arith, run_of-two 0 0 n rest h, run_of-Stops (0 + 2) (100 * 0 + n) rest stops)

  field-four :
      n < 10000 → field p (four n rest) ≡ some (record { end = p + 4; number = n; rest = rest })
  unfolding field
  field-four h = ground (
    arith,
    run_of-two 0 0 (n / 100) (two (n % 100) rest) (omega arith),
    run_of-two (0 + 2) (100 * 0 + n / 100) (n % 100) rest (omega arith),
    run_of-Stops (0 + 2 + 2) (100 * (100 * 0 + n / 100) + n % 100) rest stops,
  )

-- The days of the months, as a table; there is no month 0, nor one behind the last.
abbrev pub month_days : ℕ → ℕ → ℕ
month_days mon y =
    get_or
      (0
        ∷ 31
        ∷ (if y % 4 == 0 && (not (y % 100 == 0) || y % 400 == 0) then 29 else 28)
        ∷ 31
        ∷ 30
        ∷ 31
        ∷ 30
        ∷ 31
        ∷ 31
        ∷ 30
        ∷ 31
        ∷ 30
        ∷ 31
        ∷ [])
      mon 0

-- The program's table of days agrees with the calendar's on the twelve months.
month_lem :
    (mon y : ℕ)
    → (max_days mon y ≡ month_days mon y) × (1 ≤ mon) × (mon ≤ 12) × (month_days mon y ≤ 31)
      ⊎ (month_days mon y ≡ 0) × ((mon ≡ 0) ⊎ (12 < mon))
unfolding max_days
month_lem zero y = inr (refl, inl refl)
month_lem (suc zero) y = inl (refl, omega arith, omega arith, omega arith)
month_lem (suc (suc zero)) y = inl (ground arith, omega arith, omega arith, ground arith)
month_lem (suc (suc (suc zero))) y = inl (refl, omega arith, omega arith, omega arith)
month_lem (suc (suc (suc (suc zero)))) y = inl (refl, omega arith, omega arith, omega arith)
month_lem (suc (suc (suc (suc (suc zero))))) y = inl (refl, omega arith, omega arith, omega arith)
month_lem (suc (suc (suc (suc (suc (suc zero)))))) y =
    inl (refl, omega arith, omega arith, omega arith)
month_lem (suc (suc (suc (suc (suc (suc (suc zero))))))) y =
    inl (refl, omega arith, omega arith, omega arith)
month_lem (suc (suc (suc (suc (suc (suc (suc (suc zero)))))))) y =
    inl (refl, omega arith, omega arith, omega arith)
month_lem (suc (suc (suc (suc (suc (suc (suc (suc (suc zero))))))))) y =
    inl (refl, omega arith, omega arith, omega arith)
month_lem (suc (suc (suc (suc (suc (suc (suc (suc (suc (suc zero)))))))))) y =
    inl (refl, omega arith, omega arith, omega arith)
month_lem (suc (suc (suc (suc (suc (suc (suc (suc (suc (suc (suc zero))))))))))) y =
    inl (refl, omega arith, omega arith, omega arith)
month_lem (suc (suc (suc (suc (suc (suc (suc (suc (suc (suc (suc (suc zero)))))))))))) y =
    inl (refl, omega arith, omega arith, omega arith)
month_lem (suc (suc (suc (suc (suc (suc (suc (suc (suc (suc (suc (suc (suc mon))))))))))))) y =
    inr (refl, inr (omega arith))

-- A date of the Gregorian calendar from 1980 on, and a time of day.
abbrev pub IsDate : ℕ → ℕ → ℕ → ℕ → ℕ → ℕ → Type 0
IsDate d mon y h min s =
    (1980 ≤ y) × (1 ≤ d) × (d ≤ month_days mon y) × (h < 24) × (min < 60) × (s < 60)

-- The tests of `ValidateTime`, for a month of `days` days that has `calendar` days.
checks_sound :
    (days calendar d mon y h min s : ℕ)
    → (days ≡ calendar) × (1 ≤ mon) × (mon ≤ 12) × (calendar ≤ 31)
      ⊎ (calendar ≡ 0) × ((mon ≡ 0) ⊎ (12 < mon))
    → let r =
        if ltb 23 h || (ltb 59 min || ltb 59 s)
        then false
        else if ltb y 1980 || (ltb mon 1 || (ltb 12 mon || (ltb d 1 || ltb 31 d)))
        then false
        else if ltb days d
        then false
        else true in
      let IsFine = (1980 ≤ y) × (1 ≤ d) × (d ≤ calendar) × (h < 24) × (min < 60) × (s < 60) in
      (r ≡ true) × IsFine ⊎ (r ≡ false) × (¬ IsFine)
checks_sound days calendar d mon y h min s months =
    elim (Bool-cases (ltb 23 h || (ltb 59 min || ltb 59 s))) [
      | inl late ↦ inr (ground arith, λ fine. ground arith)
      | inr time ↦
          elim (Bool-cases (ltb y 1980 || (ltb mon 1 || (ltb 12 mon || (ltb d 1 || ltb 31 d))))) [
            | inl off ↦ inr (ground arith, λ fine. ground arith)
            | inr on ↦ elim (Bool-cases (ltb days d)) [
              | inl over ↦ inr (ground arith, λ fine. ground arith)
              | inr within ↦ inl (ground arith, ground arith)
            ]
          ]
    ]

skip_white-two : (n : ℕ) (rest : List ℕ) → skip_white (two n rest) ≡ two n rest
unfolding skip_white
skip_white-two n rest = ground arith

skip_white-space : (n : ℕ) (rest : List ℕ) → skip_white (b' ' ∷ two n rest) ≡ two n rest
unfolding skip_white
skip_white-space n rest = skip_white-two n rest

-- The fields behind a colon and behind one space.
module _ (end number n : ℕ) (rest : List ℕ) (stops : Stops rest) (h : n < 100) where
  abbrev at : List ℕ → Field
  at cs = record { end = end; number = number; rest = cs }

  colon-two :
      colon (at (b':' ∷ two n rest)) ≡ some (record { end = end + 3; number = n; rest = rest })
  unfolding colon
  colon-two = ground (arith, field-two (end + 1) n rest stops h)

  space-two :
      space (at (b' ' ∷ two n rest)) ≡ some (record { end = end + 3; number = n; rest = rest })
  unfolding space
  space-two = rw (skip_white-space n rest) (ground (arith, field-two (end + 1) n rest stops h))

colon-four :
    (end number n : ℕ) (rest : List ℕ)
    → Stops rest
    → n < 10000
    → colon (record { end = end; number = number; rest = b':' ∷ four n rest })
      ≡ some (record { end = end + 5; number = n; rest = rest })
unfolding colon
colon-four end number n rest stops h = ground (arith, field-four (end + 1) n rest stops h)

module _ (d mon y h min s : ℕ) where
  abbrev text5 : List ℕ
  text5 = b':' ∷ two s []

  abbrev text4 : List ℕ
  text4 = b':' ∷ two min text5

  abbrev text3 : List ℕ
  text3 = b' ' ∷ two h text4

  abbrev text2 : List ℕ
  text2 = b':' ∷ four y text3

  abbrev text1 : List ℕ
  text1 = b':' ∷ two mon text2

  abbrev scanned : Time
  scanned = record {
    day = record { end = 2; number = d; rest = text1 };
    month = record { end = 5; number = mon; rest = text2 };
    year = record { end = 10; number = y; rest = text3 };
    hour = record { end = 13; number = h; rest = text4 };
    minute = record { end = 16; number = min; rest = text5 };
    second = record { end = 19; number = s; rest = [] };
  }

  module _ (dl : d < 100) (monl : mon < 100) (yl : y < 10000) (hl : h < 100) (minl : min < 100)
      (sl : s < 100) where
    scan_time-format : scan_time (format d mon y h min s) ≡ some scanned
    unfolding scan_time
    scan_time-format = rw (
      field-two 0 d text1 refl dl,
      colon-two 2 d mon text2 refl monl,
      colon-four 5 mon y text3 refl yl,
      space-two 10 y h text4 refl hl,
      colon-two 13 h min text5 refl minl,
      colon-two 16 min s [] tt sl,
    )

    in_range-IsDate :
        (in_range d mon y h min s ≡ true) × IsDate d mon y h min s
        ⊎ (in_range d mon y h min s ≡ false) × (¬ IsDate d mon y h min s)
    unfolding in_range
    in_range-IsDate =
        checks_sound (max_days mon y) (month_days mon y) d mon y h min s (month_lem mon y)

    -- A text of the form DD:MM:YYYY hh:mm:ss passes the check exactly if it is a date of the
    -- Gregorian calendar from 1980 on and a time of day.
    pub validate_time-format :
        (validate_time (format d mon y h min s) ≡ true) × IsDate d mon y h min s
        ⊎ (validate_time (format d mon y h min s) ≡ false) × (¬ IsDate d mon y h min s)
    unfolding validate_time
    validate_time-format = rw scan_time-format in_range-IsDate
