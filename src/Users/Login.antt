-- ===== src/Users/Login.antt =====
-- SP/task1/main.c: the registration and the login, and their reading of `stdin`.
pub mod Accounts
use mai_fa_sp_4_sem.Base.{
  ℕ, zero, suc, ◌+◌, Bool, true, false, not, ◌||◌, ◌==◌, ltb, if◌then◌else◌, Option, none, some,
  List, [], ◌∷◌,
}
use mai_fa_sp_4_sem.Base.Int.{ℤ, pos, negsuc, sub_ℕ}
use mai_fa_sp_4_sem.Libc.{skip_white, scan_word}
use mai_fa_sp_4_sem.Users.Vector.{User, Vector, vector_search, vector_push, v_get, v_set}
use mai_fa_sp_4_sem.Users.Dates.{run_of}
use mai_fa_sp_4_sem.Users.Commands.{
  KErrors, ok, inc_input, mem_alloc_err, login_failed, login_success, eq_ℤ,
}

-- `scanf("%d")` on digits, behind the white space and the sign; `none` is a result other than 1.
unfoldable pub scan_digits : Bool → List ℕ → Option (ℤ × List ℕ)
scan_digits negative s =
    let r = run_of 0 0 s in
    if r.count == 0
    then none
    else some (if negative then sub_ℕ 0 r.number else pos r.number, r.rest)

unfoldable pub scan_int : List ℕ → Option (ℤ × List ℕ)
scan_int input = elim (skip_white input) [
  | [] ↦ none
  | c ∷ cs ↦
      if c == b'-'
      then scan_digits true cs
      else if c == b'+'
      then scan_digits false cs
      else scan_digits false (c ∷ cs)
]

-- The second `scanf("%c", &check)` and its test, where `check` holds the newline behind the login:
-- whether the next byte is a newline, or there is none, so that `check` stays what it was.
abbrev pub ends_line : List ℕ → Bool
ends_line [] = true
ends_line (c ∷ cs) = c == b'\n'

-- `pincode < 0 || pincode > 100000`
abbrev pub is_pincode : ℤ → Bool
is_pincode (pos n) = not (ltb 100_000 n)
is_pincode (negsuc n) = false

-- The login and then the pincode, a line each, as both functions read them; the pincode is asked
-- for if `proceed` holds for the login. `short` is a `stdin` that ends in front of the login
-- or right behind it, so that a variable is tested that was never written.
pub data Typed : Type 0 where
  short bad_line : Typed
  declined : List ℕ → Typed
  typed : List ℕ → ℤ → Typed

-- The pincode's line.
unfoldable pub read_pincode : List ℕ → List ℕ → Typed
read_pincode name input = elim (scan_int input) [
  | none ↦ bad_line
  | some (pincode, rest) ↦
      if not (is_pincode pincode)
      then bad_line
      else if not (ends_line rest)
      then bad_line
      else typed name pincode
]

-- What stands behind the login.
unfoldable pub read_rest : (List ℕ → Bool) → List ℕ → List ℕ → Typed
read_rest proceed name [] = short
read_rest proceed name (check ∷ rest) =
    if not (check == b'\n')
    then bad_line
    else if proceed name
    then read_pincode name rest
    else declined name

unfoldable pub read_account : (List ℕ → Bool) → List ℕ → Typed
read_account proceed input = elim (scan_word 6 input) [
  | none ↦ short
  | some (name, rest) ↦ read_rest proceed name rest
]

-- Whether `vector_search` finds the login.
abbrev pub is_known : Vector → List ℕ → Bool
is_known v name = elim (vector_search v name) [ none ↦ false | some i ↦ true ]

abbrev pub new_user : List ℕ → ℤ → User
new_user name pincode = record {
  login = name;
  pincode = pincode;
  sanctions = negsuc 0;
  sanctions_current = pos 0;
}

-- `Registrate`, once the account is typed: the status and the users. `fresh` is what `realloc`
-- adds to a full vector.
unfoldable pub enrol : Option (List User) → Vector → Typed → Option (KErrors × Vector)
enrol fresh v short = none
enrol fresh v bad_line = some (inc_input, v)
enrol fresh v (declined name) = some (ok, v)
enrol fresh v (typed name pincode) = elim (vector_push fresh v (new_user name pincode)) [
  | none ↦ some (mem_alloc_err, v)
  | some v' ↦ some (ok, v')
]

unfoldable pub registrate : Option (List User) → Vector → List ℕ → Option (KErrors × Vector)
registrate fresh v input = enrol fresh v (read_account (λ name. not (is_known v name)) input)

-- `Login`: the status, the users, and the cell of the user who is logged in.
unfoldable pub login : Vector → List ℕ → Option (KErrors × Vector × Option ℕ)
login v input = elim (read_account (is_known v) input) [
  | short ↦ none
  | bad_line ↦ some (inc_input, v, none)
  | declined name ↦ some (login_failed, v, none)
  | typed name pincode ↦ elim (vector_search v name) [
    | none ↦ some (login_failed, v, none)
    | some i ↦ elim (v_get v i) [
      | none ↦ none
      | some us ↦
          if eq_ℤ pincode us.pincode
          then some
              (login_success, v_set v i (record us { sanctions_current = us.sanctions }), some i)
          else some (login_failed, v, none)
    ]
  ]
]
