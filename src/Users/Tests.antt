-- ===== src/Users/Tests.antt =====
-- Runs of SP/task1 with one user, and each theorem at such a run.
use mai_fa_sp_4_sem.Base.{
  ℕ, ◌≡◌, refl, ◌⊎◌, true, false, Option, some, none, List, [], ◌∷◌, ◌++◌, arith,
}
use mai_fa_sp_4_sem.Base.Int.{ℤ, pos, negsuc}
use mai_fa_sp_4_sem.Libc.{
  codes, strtok, skip_spaces, split_space, skip_white, scan_word, take_word, strcmp_eq,
}
use mai_fa_sp_4_sem.Users.Vector.{
  vector_grow, search_from, v_set, User, Vector, vector_push, vector_search, v_get,
}
use mai_fa_sp_4_sem.Users.Vector.Contents.{IsValid, contents, vector_push-Appends}
use mai_fa_sp_4_sem.Users.Dates.{
  run_of, scan_time, field, colon, space, in_range, max_days, validate_time,
}
use mai_fa_sp_4_sem.Users.Dates.Format.{format, IsDate, validate_time-format}
use mai_fa_sp_4_sem.Users.Login.{
  new_user, registrate, login, enrol, read_account, read_rest, read_pincode, scan_int, scan_digits,
}
use mai_fa_sp_4_sem.Users.Login.Accounts.{AllDistinct, Registers, registrate-AllDistinct}
use mai_fa_sp_4_sem.Users.Commands.{login_success, ok, how_much, is_minus_one, tokens}
use mai_fa_sp_4_sem.Users.Commands.Budget.{served, served-budget}

abbrev user : ℤ → User
user left = record {
  login = codes "bob";
  pincode = pos 7;
  sanctions = pos 2;
  sanctions_current = left;
}

-- A full block of one cell.
abbrev users : ℤ → Vector
users left = record { buffer = user left ∷ []; buffer_size = 1; size = 1 }

users-IsValid : IsValid (users (pos 2))
users-IsValid = record { room = refl; fits = omega arith; positive = omega arith }

-- The cells that `realloc` adds hold anything.
abbrev grown : Option (List User)
grown = some (user (negsuc 0) ∷ [])

vector_push-Appends_example :
    let v = users (pos 2) in
    let d = user (pos 5) in
    (vector_push grown v d ≡ none) × (v.size ≡ v.buffer_size) × (grown ≡ none)
    ⊎ ((v' : Vector) × (vector_push grown v d ≡ some v')
        × IsValid v'
        × (contents v' ≡ contents v ++ d ∷ []))
vector_push-Appends_example =
    vector_push-Appends (users (pos 2)) (user (pos 5)) grown users-IsValid refl

-- A clock at which every time lies one minute back.
abbrev clock : List ℕ → ℤ
clock t = pos 60

user_found : (left : ℤ) → v_get (users left) 0 ≡ some (user left)
unfolding v_get
user_found left = refl

served-budget_example : served clock 0 [] (true ∷ false ∷ true ∷ []) (users (pos 2)) ≡ 2
served-budget_example =
    served-budget clock 0 [] (true ∷ false ∷ true ∷ []) (users (pos 2)) (user (pos 2)) 2
      (user_found (pos 2)) refl

validate_time-format_example :
    (validate_time (format 29 2 2024 23 59 59) ≡ true) × IsDate 29 2 2024 23 59 59
    ⊎ (validate_time (format 29 2 2024 23 59 59) ≡ false) × (¬ IsDate 29 2 2024 23 59 59)
validate_time-format_example =
    validate_time-format 29 2 2024 23 59 59 (omega arith) (omega arith) (omega arith) (omega arith)
      (omega arith) (omega arith)

abbrev howmuch : List ℕ
howmuch = codes "Howmuch 29:02:2024 23:59:59 -s"

howmuch-tokens :
    tokens 5 howmuch ≡ codes "Howmuch" ∷ codes "29:02:2024" ∷ codes "23:59:59" ∷ codes "-s" ∷ []
unfolding tokens strtok skip_spaces split_space
howmuch-tokens = refl

howmuch_ok : how_much clock (codes "29:02:2024 23:59:59") (codes "-s") ≡ ok
unfolding how_much validate_time is_minus_one strcmp_eq scan_time field colon space skip_white
    in_range max_days
howmuch_ok = refl

-- "eve" and her pincode, typed on a line each.
abbrev eve : List ℕ
eve = codes "eve" ++ b'\n' ∷ codes "42" ++ b'\n' ∷ []

abbrev with_eve : Vector
with_eve = record {
  buffer = user (pos 2) ∷ new_user (codes "eve") (pos 42) ∷ [];
  buffer_size = 2;
  size = 2;
}

eve_registered : registrate grown (users (pos 2)) eve ≡ some (ok, with_eve)
unfolding registrate enrol read_account read_rest read_pincode scan_int scan_digits run_of
    vector_push vector_grow vector_search search_from strcmp_eq skip_white scan_word take_word v_get
    v_set
eve_registered = refl

-- At the end of `stdin` right behind the pincode the newline behind the login still counts.
eve_unended :
    registrate grown (users (pos 2)) (codes "eve" ++ b'\n' ∷ codes "42") ≡ some (ok, with_eve)
unfolding registrate enrol read_account read_rest read_pincode scan_int scan_digits run_of
    vector_push vector_grow vector_search search_from strcmp_eq skip_white scan_word take_word v_get
    v_set
eve_unended = refl

one_user : AllDistinct (contents (users (pos 2)))
one_user = (tt, tt)

registrate-AllDistinct_example :
    IsValid with_eve × AllDistinct (contents with_eve) × Registers (users (pos 2)) with_eve
registrate-AllDistinct_example =
    registrate-AllDistinct grown (users (pos 2)) with_eve eve ok users-IsValid refl one_user
      eve_registered

-- Who logs in has his sanctions in force again.
abbrev log_in : List ℕ
log_in = codes "bob" ++ b'\n' ∷ codes "7" ++ b'\n' ∷ []

sanctions_restored : login (users (pos 0)) log_in ≡ some (login_success, users (pos 2), some 0)
unfolding login enrol read_account read_rest read_pincode scan_int scan_digits run_of vector_push
    vector_grow vector_search search_from strcmp_eq skip_white scan_word take_word v_get v_set
sanctions_restored = refl
