-- ===== src/Users/Commands.antt =====
-- SP/task1/main.c: the commands of a user who is logged in, and the count of his sanctions.
pub mod Budget
use mai_fa_sp_4_sem.Base.{
  ℕ, zero, suc, ◌+◌, Bool, true, false, not, ◌&&◌, ◌||◌, ◌==◌, ltb, if◌then◌else◌, Option, none,
  some, List, [], ◌∷◌, ◌++◌, length, get_elem?, set,
}
use mai_fa_sp_4_sem.Base.Int.{ℤ, pos, negsuc}
use mai_fa_sp_4_sem.Libc.{codes, strcmp_eq, strtok, skip_white, is_white, scan_word}
use mai_fa_sp_4_sem.Users.Vector.{User, Vector, vector_search, v_get, v_set}
use mai_fa_sp_4_sem.Users.Dates.{Run, run_of, validate_time}

-- enum en
pub data KErrors : Type 0 where
  ok inc_args inc_num_args inc_input inc_command mem_alloc_err login_failed login_success : KErrors
  logout no_such_user sanctions_applied : KErrors

-- The end of a handler: a status with the users and the bytes of `stdin` that are left. `starved`
-- is a read past the end of `stdin`, `crash` a null pointer handed to `strcmp`.
pub data Outcome : Type 0 where
  returned : KErrors → Vector → List ℕ → Outcome
  starved crash : Outcome

abbrev pub eq_ℤ : ℤ → ℤ → Bool
eq_ℤ (pos a) (pos b) = a == b
eq_ℤ (negsuc a) (negsuc b) = a == b
eq_ℤ _ _ = false

unfoldable pub flush : List ℕ → Option (List ℕ)
flush [] = none
flush (c ∷ cs) = if c == b'\n' then some cs else flush cs

unfoldable pub all_white : List ℕ → Bool
all_white [] = true
all_white (c ∷ cs) = is_white c && all_white cs

-- `strtol(count, &endptr, 10)` behind its white space and sign, and the tests on its result.
unfoldable pub checked_number : Bool → List ℕ → Option ℕ
checked_number negative digits =
    let r = run_of 0 0 digits in
    if r.count == 0
    then none
    else if not (all_white r.rest)
    then none
    else if negative && not (r.number == 0) || ltb 2_147_483_647 r.number
    then none
    else some r.number

-- The number that `Sanctions` takes, or `none` where it answers INC_INPUT.
unfoldable pub sanctions_number : List ℕ → Option ℕ
sanctions_number count = if ltb 8 (length count) then none else elim (skip_white count) [
  | [] ↦ none
  | c ∷ cs ↦
      if c == b'-'
      then checked_number true cs
      else if c == b'+'
      then checked_number false cs
      else checked_number false (c ∷ cs)
]

-- The confirmation typed behind "Confirm", for the user in cell `i`.
unfoldable pub confirm : ℕ → ℕ → User → Vector → List ℕ → Outcome
confirm num i man v input = elim (scan_word 5 input) [
  | none ↦ starved
  | some (command, rest) ↦ elim rest [
    | [] ↦ starved
    | check ∷ rest' ↦
        if not (check == b'\n')
        then elim (flush rest') [ none ↦ starved | some rest'' ↦ returned inc_input v rest'' ]
        else if not (strcmp_eq command (codes "12345"))
        then returned ok v rest'
        else returned ok
            (v_set v i (record man { sanctions = pos num; sanctions_current = pos (num + 1) }))
            rest'
  ]
]

unfoldable pub sanctions_cmd : List ℕ → List ℕ → Vector → List ℕ → Outcome
sanctions_cmd user_string count v input = elim (sanctions_number count) [
  | none ↦ returned inc_input v input
  | some num ↦ elim (vector_search v user_string) [
    | none ↦ returned no_such_user v input
    | some i ↦ elim (v_get v i) [ none ↦ crash | some man ↦ confirm num i man v input ]
  ]
]

-- `GetPassedSeconds(ttime, flag) == -1`, where `seconds` is `difftime(now, mktime(..))`.
unfoldable pub is_minus_one : ℤ → List ℕ → Bool
is_minus_one seconds flag =
    if strcmp_eq flag (codes "-s")
    then eq_ℤ seconds (negsuc 0)
    else if strcmp_eq flag (codes "-m")
    then eq_ℤ seconds (negsuc 59)
    else if strcmp_eq flag (codes "-h")
    then eq_ℤ seconds (negsuc 3599)
    else if strcmp_eq flag (codes "-y")
    then eq_ℤ seconds (negsuc 31_535_999)
    else true

-- `clock` stands for `time`, `mktime` and `difftime`: the seconds passed since a time typed.
unfoldable pub how_much : (List ℕ → ℤ) → List ℕ → List ℕ → KErrors
how_much clock ttime flag =
    if not (validate_time ttime)
    then inc_input
    else if is_minus_one (clock ttime) flag
    then inc_input
    else ok

-- The five calls of `strtok`.
unfoldable pub tokens : ℕ → List ℕ → List (List ℕ)
tokens zero s = []
tokens (suc n) s = elim (strtok s) [ none ↦ [] | some (t, rest) ↦ t ∷ tokens n rest ]

-- A command of one word; `granted` is `sanctions_current` of the user.
unfoldable pub one_word : List ℕ → ℤ → KErrors
one_word l1 granted =
    if strcmp_eq l1 (codes "Logout")
    then logout
    else if eq_ℤ granted (pos 0)
    then sanctions_applied
    else if strcmp_eq l1 (codes "Time")
    then ok
    else if strcmp_eq l1 (codes "Date")
    then ok
    else inc_input

-- `ProccessCommands` on the user in cell `cur`; `allocated` says whether its `malloc` succeeds.
unfoldable pub proccess_commands :
    (List ℕ → ℤ) → Bool → List ℕ → Vector → ℕ → User → List ℕ → Outcome
proccess_commands clock allocated command v cur user input = elim (tokens 5 command) [
  | [] ↦ crash
  | l1 ∷ [] ↦ returned (one_word l1 user.sanctions_current) v input
  | l1 ∷ l2 ∷ [] ↦ returned inc_num_args v input
  | l1 ∷ l2 ∷ l3 ∷ [] ↦
      if strcmp_eq l1 (codes "Howmuch")
      then returned (if allocated then inc_input else mem_alloc_err) v input
      else if strcmp_eq l1 (codes "Sanctions")
      then sanctions_cmd l2 l3 v input
      else returned inc_input v input
  | l1 ∷ l2 ∷ l3 ∷ l4 ∷ [] ↦
      if strcmp_eq l1 (codes "Howmuch")
      then (if not allocated
          then returned mem_alloc_err v input
          else if ltb 256 (length l2 + length l3)
          then returned inc_input v input
          else returned (how_much clock (l2 ++ b' ' ∷ l3) l4) v input)
      else returned inc_input v input
  | l1 ∷ l2 ∷ l3 ∷ l4 ∷ l5 ∷ _ ↦ returned inc_input v input
]

abbrev pub pred_ℤ : ℤ → ℤ
pred_ℤ (pos zero) = negsuc 0
pred_ℤ (pos (suc n)) = pos n
pred_ℤ (negsuc n) = negsuc (suc n)

-- `current_user->sanctions_current--`
unfoldable pub count_down : ℕ → Vector → Vector
count_down cur v = elim (v_get v cur) [
  | none ↦ v
  | some user ↦ v_set v cur (record user { sanctions_current = pred_ℤ user.sanctions_current })
]

abbrev pub is_ok : KErrors → Bool
is_ok ok = true
is_ok _ = false

-- One round of `interaction`, from the command on: the status and the users behind it.
unfoldable pub interact : (List ℕ → ℤ) → Bool → List ℕ → ℕ → Vector → List ℕ → Outcome
interact clock allocated command cur v input = elim (v_get v cur) [
  | none ↦ crash
  | some user ↦ elim (proccess_commands clock allocated command v cur user input) [
    | returned status v' rest ↦
        if is_ok status then returned ok (count_down cur v') rest else returned status v' rest
    | starved ↦ starved
    | crash ↦ crash
  ]
]
