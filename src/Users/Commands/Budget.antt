-- ===== src/Users/Commands/Budget.antt =====
-- How many commands a sanctioned user of SP/task1/main.c can run.
use mai_fa_sp_4_sem.Base.{
  ℕ, zero, suc, ◌+◌, ◌≤◌, ◌<◌, ◌≡◌, refl, Bool, true, false, ltb, if◌then◌else◌, some, List, [],
  ◌∷◌, ◌++◌, length, get_elem?, get_elem?-set_self, arith,
}
use mai_fa_sp_4_sem.Base.Int.{ℤ, pos, negsuc}
use mai_fa_sp_4_sem.Libc.{codes, strcmp_eq, strtok, skip_spaces, split_space}
use mai_fa_sp_4_sem.Users.Vector.{User, Vector, v_get, v_set}
use mai_fa_sp_4_sem.Users.Commands.{
  ok, sanctions_applied, returned, starved, crash, eq_ℤ, how_much, tokens, one_word,
  proccess_commands, pred_ℤ, count_down, interact, is_ok,
}

-- The two commands of one word that are not free.
abbrev pub word : Bool → List ℕ
word true = codes "Time"
word false = codes "Date"

tokens-word : (b : Bool) → tokens 5 (word b) ≡ word b ∷ []
unfolding tokens strtok skip_spaces split_space
tokens-word true = refl
tokens-word false = refl

one_word-word :
    (b : Bool) (granted : ℤ)
    → one_word (word b) granted ≡ (if eq_ℤ granted (pos 0) then sanctions_applied else ok)
unfolding one_word strcmp_eq
one_word-word true granted = refl
one_word-word false granted = refl

-- The user after a command that was carried out.
abbrev used : User → User
used u = record u { sanctions_current = pred_ℤ u.sanctions_current }

lt-length {ℓ} : {A : Type ℓ} (xs : List A) (i : ℕ) {x : A} → get_elem? xs i ≡ some x → i < length xs
lt-length [] i h = ground arith
lt-length (x ∷ xs) zero h = omega arith
lt-length (x ∷ xs) (suc i) h = omega (arith, lt-length xs i h)

v_get-v_set :
    (v : Vector) (cur : ℕ) {u : User} (u' : User)
    → v_get v cur ≡ some u
    → v_get (v_set v cur u') cur ≡ some u'
unfolding v_get v_set
v_get-v_set v cur u' h = get_elem?-set_self v.buffer cur u' (lt-length v.buffer cur h)

module _ (clock : List ℕ → ℤ) (cur : ℕ) (input : List ℕ) where
  interact-word :
      (b : Bool) (v : Vector) (u : User)
      → v_get v cur ≡ some u
      → interact clock true (word b) cur v input ≡ (
          if eq_ℤ u.sanctions_current (pos 0)
          then returned sanctions_applied v input
          else returned ok (v_set v cur (used u)) input)
  unfolding interact proccess_commands count_down
  interact-word b v u h = ground (arith, h, tokens-word b, one_word-word b u.sanctions_current)

  -- How many of the commands are carried out, one after another.
  pub served : List Bool → Vector → ℕ
  served [] v = 0
  served (b ∷ bs) v = elim (interact clock true (word b) cur v input) [
    | returned status v' rest ↦ (if is_ok status then 1 else 0) + served bs v'
    | starved ↦ 0
    | crash ↦ 0
  ]

  -- With `sanctions_current` at `n` exactly the first `n` of any Time and Date commands are carried
  -- out; all others are refused.
  pub served-budget :
      (bs : List Bool) (v : Vector) (u : User) (n : ℕ)
      → v_get v cur ≡ some u
      → u.sanctions_current ≡ pos n
      → served bs v ≡ (if ltb n (length bs) then n else length bs)
  unfolding served
  served-budget [] v u n h e = ground arith
  served-budget (b ∷ bs) v u zero h e =
      ground (arith, interact-word b v u h, served-budget bs v u zero h e)
  served-budget (b ∷ bs) v u (suc n) h e = ground (
    arith,
    interact-word b v u h,
    served-budget bs (v_set v cur (used u)) (used u) n (v_get-v_set v cur (used u) h),
  )

  served-negative :
      (bs : List Bool) (v : Vector) (u : User) (k : ℕ)
      → v_get v cur ≡ some u
      → u.sanctions_current ≡ negsuc k
      → served bs v ≡ length bs
  unfolding served
  served-negative [] v u k h e = refl
  served-negative (b ∷ bs) v u k h e = ground (
    arith,
    interact-word b v u h,
    served-negative bs (v_set v cur (used u)) (used u) (suc k) (v_get-v_set v cur (used u) h),
  )

  howmuch-runs :
      (v : Vector) (u : User) (command l2 l3 l4 : List ℕ)
      → tokens 5 command ≡ codes "Howmuch" ∷ l2 ∷ l3 ∷ l4 ∷ []
      → length l2 + length l3 ≤ 256
      → how_much clock (l2 ++ b' ' ∷ l3) l4 ≡ ok
      → proccess_commands clock true command v cur u input ≡ returned ok v input
  unfolding proccess_commands strcmp_eq
  howmuch-runs v u command l2 l3 l4 toks short valid = ground arith

  interact-ok :
      (v : Vector) (u : User) (command : List ℕ)
      → v_get v cur ≡ some u
      → proccess_commands clock true command v cur u input ≡ returned ok v input
      → interact clock true command cur v input ≡ returned ok (v_set v cur (used u)) input
  unfolding interact count_down
  interact-ok v u command h e = ground arith

  -- The sanction is lifted by one Howmuch: with no command left a user whom every Time and Date is
  -- refused can still give a valid Howmuch, and afterwards every Time and Date is carried out.
  pub howmuch-lifts :
      (v : Vector) (u : User) (command l2 l3 l4 : List ℕ) (bs : List Bool)
      → v_get v cur ≡ some u
      → u.sanctions_current ≡ pos 0
      → tokens 5 command ≡ codes "Howmuch" ∷ l2 ∷ l3 ∷ l4 ∷ []
      → length l2 + length l3 ≤ 256
      → how_much clock (l2 ++ b' ' ∷ l3) l4 ≡ ok
      → (served bs v ≡ 0)
        × (v' : Vector) × (interact clock true command cur v input ≡ returned ok v' input)
        × (served bs v' ≡ length bs)
  howmuch-lifts v u command l2 l3 l4 bs h e toks short valid = (
    ground (arith, served-budget bs v u 0 h e),
    v_set v cur (used u),
    interact-ok v u command h (howmuch-runs v u command l2 l3 l4 toks short valid),
    served-negative bs (v_set v cur (used u)) (used u) 0 (v_get-v_set v cur (used u) h)
        (ground arith),
  )
