-- ===== src/Users/Login/Accounts.antt =====
-- What registration and login in SP/task1/main.c do to the accounts.
use mai_fa_sp_4_sem.Base.{
  ℕ, ◌+◌, ◌≡◌, ◌≢◌, refl, sym, subst, ◌∙◌, ◌⊎◌, inl, inr, Bool, true, false, not, Option, none,
  some, List, [], ◌∷◌, ◌++◌, arith, Bool-cases, Option-cases,
}
use mai_fa_sp_4_sem.Base.Int.{ℤ, negsuc}
use mai_fa_sp_4_sem.Libc.{strcmp_eq, scan_word}
use mai_fa_sp_4_sem.Libc.Tokens.{strcmp_eq_refl}
use mai_fa_sp_4_sem.Users.Vector.{User, Vector, vector_search}
use mai_fa_sp_4_sem.Users.Vector.Contents.{
  IsValid, contents, Doubles, find_login, vector_search-find_login, vector_push-Appends,
}
use mai_fa_sp_4_sem.Users.Commands.{KErrors, ok, inc_input, mem_alloc_err}
use mai_fa_sp_4_sem.Users.Login.{
  Typed, short, bad_line, declined, typed, is_known, new_user, read_pincode, read_rest,
  read_account, enrol, registrate,
}

-- No user has the login.
abbrev pub Absent : List ℕ → List User → Type 0
Absent name [] = Unit {0}
Absent name (u ∷ us) = (u.login ≢ name) × Absent name us

-- No two users have the same login.
abbrev pub AllDistinct : List User → Type 0
AllDistinct [] = Unit {0}
AllDistinct (u ∷ us) = Absent u.login us × AllDistinct us

strcmp_eq_ne : (a b : List ℕ) → strcmp_eq a b ≡ false → a ≢ b
strcmp_eq_ne a b h e =
    let same : strcmp_eq a b ≡ true = subst (λ x. strcmp_eq a x ≡ true) e (strcmp_eq_refl a) in cc

find_login-Absent :
    (us : List User) (name : List ℕ) (i : ℕ) → find_login us name i ≡ none → Absent name us
find_login-Absent [] name i h = tt
find_login-Absent (u ∷ us) name i h = elim (Bool-cases (strcmp_eq u.login name)) [
  | inl same ↦ absurd (ground arith)
  | inr other ↦ (strcmp_eq_ne u.login name other, find_login-Absent us name (i + 1) (rw other at h))
]

Absent-append :
    (us : List User) (d : User) (name : List ℕ)
    → Absent name us
    → d.login ≢ name
    → Absent name (us ++ d ∷ [])
Absent-append [] d name h ne = (ne, tt)
Absent-append (u ∷ us) d name (first, more) ne = (first, Absent-append us d name more ne)

AllDistinct-append :
    (us : List User) (d : User) → AllDistinct us → Absent d.login us → AllDistinct (us ++ d ∷ [])
AllDistinct-append [] d h a = (tt, tt)
AllDistinct-append (u ∷ us) d (first, more) (ne, a) =
    (Absent-append us d u.login first (λ e. ne (sym e)), AllDistinct-append us d more a)

read_pincode-name :
    (asked name : List ℕ) (input : List ℕ) (pincode : ℤ)
    → read_pincode asked input ≡ typed name pincode
    → asked ≡ name
unfolding read_pincode
read_pincode-name asked name input pincode h = ground arith

read_rest-proceed :
    (proceed : List ℕ → Bool) (asked rest name : List ℕ) (pincode : ℤ)
    → read_rest proceed asked rest ≡ typed name pincode
    → proceed name ≡ true
unfolding read_rest
read_rest-proceed proceed asked [] name pincode h = ground arith
read_rest-proceed proceed asked (c ∷ rest) name pincode h =
    ground (arith, read_pincode-name asked name rest pincode)

read_account-proceed :
    (proceed : List ℕ → Bool) (input name : List ℕ) (pincode : ℤ)
    → read_account proceed input ≡ typed name pincode
    → proceed name ≡ true
unfolding read_account
read_account-proceed proceed input name pincode h = elim (Option-cases (scan_word 6 input)) [
  | inl end ↦ ground arith
  | inr (r, e) ↦ read_rest-proceed proceed r.0 r.1 name pincode (rw (e, read_account) at h)
]

-- A login that is not known belongs to nobody.
is_known-Absent :
    (v : Vector) (name : List ℕ)
    → IsValid v
    → not (is_known v name) ≡ true
    → Absent name (contents v)
is_known-Absent v name valid h =
    find_login-Absent (contents v) name 0
      (sym (vector_search-find_login v name valid) ∙ unknown (vector_search v name) h)
  where
    unknown : (o : Option ℕ) → not (elim o [ none ↦ false | some i ↦ true ]) ≡ true → o ≡ none
    unknown o k = ground arith

-- What a registration may do: nothing, or one more account behind the others, with no sanctions.
abbrev pub Registers : Vector → Vector → Type 0
Registers v v' =
    (v' ≡ v)
    ⊎ ((u : User) × (contents v' ≡ contents v ++ u ∷ [])
        × Absent u.login (contents v)
        × (u.sanctions ≡ negsuc 0))

-- What holds behind a registration.
abbrev Registered : Vector → Vector → Type 0
Registered v v' = IsValid v' × AllDistinct (contents v') × Registers v v'

enrol-same :
    (status end : KErrors) (v v' : Vector)
    → IsValid v
    → AllDistinct (contents v)
    → ◌≡◌ {A = Option (KErrors × Vector)} (some (end, v)) (some (status, v'))
    → Registered v v'
enrol-same status end v v' valid distinct h =
    let same : v ≡ v' = ground arith in subst (Registered v) same (valid, distinct, inl refl)

enrol-typed :
    (fresh : Option (List User)) (v v' : Vector) (name : List ℕ) (pincode : ℤ) (status : KErrors)
    → IsValid v
    → Doubles v fresh
    → AllDistinct (contents v)
    → Absent name (contents v)
    → enrol fresh v (typed name pincode) ≡ some (status, v')
    → Registered v v'
unfolding enrol
enrol-typed fresh v v' name pincode status valid doubles distinct absent h =
    elim (vector_push-Appends v (new_user name pincode) fresh valid doubles) [
      | inl (full, _, _) ↦
          enrol-same status mem_alloc_err v v' valid distinct (rw (full, enrol) at h)
      | inr (w, pushed, valid', appended) ↦
          (let same : w ≡ v' = ground arith in
            let u : User = new_user name pincode in
            subst (Registered v) same (
              valid',
              subst AllDistinct (sym appended) (AllDistinct-append (contents v) u distinct absent),
              inr (u, appended, absent, refl),
            ))
    ]

-- Every registration that returns, with whatever status and from whatever was typed, leaves a valid
-- vector in which no two users have the same login: the one before, or that one with a new user
-- without sanctions behind the others.
pub registrate-AllDistinct :
    (fresh : Option (List User)) (v v' : Vector) (input : List ℕ) (status : KErrors)
    → IsValid v
    → Doubles v fresh
    → AllDistinct (contents v)
    → registrate fresh v input ≡ some (status, v')
    → IsValid v' × AllDistinct (contents v') × Registers v v'
unfolding registrate enrol
registrate-AllDistinct fresh v v' input status valid doubles distinct h =
    by_typed (read_account (λ name. not (is_known v name)) input) refl h
  where
    by_typed :
        (t : Typed)
        → read_account (λ name. not (is_known v name)) input ≡ t
        → enrol fresh v t ≡ some (status, v')
        → Registered v v'
    by_typed short e k = absurd (ground arith)
    by_typed bad_line e k = enrol-same status inc_input v v' valid distinct k
    by_typed (declined name) e k = enrol-same status ok v v' valid distinct k
    by_typed (typed name pincode) e k =
        enrol-typed fresh v v' name pincode status valid doubles distinct
          (is_known-Absent v name valid
            (read_account-proceed (λ name. not (is_known v name)) input name pincode e))
          k
