-- ===== src/Users/Vector/Contents.antt =====
-- The vector of SP/task1/vector.c implements the list of its first `size` users.
use mai_fa_sp_4_sem.Base.{
  ℕ, zero, suc, ◌+◌, ◌*◌, ◌≤◌, ◌<◌, ◌≡◌, refl, ap, ◌∙◌, ◌==◌, if◌then◌else◌, Option, none, some,
  List, [], ◌∷◌, ◌++◌, set, length, take, length-append, length-set, arith, Bool-cases, inl, inr,
  ◌⊎◌,
}
use mai_fa_sp_4_sem.Libc.{strcmp_eq}
use mai_fa_sp_4_sem.Users.Vector.{
  User, Vector, search_from, vector_search, vector_grow, append, vector_push,
}

pub record IsValid (v : Vector) : Type 0 where
  pub room : length v.buffer ≡ v.buffer_size
  pub fits : v.size ≤ v.buffer_size
  pub positive : 0 < v.buffer_size

-- The users that are stored, in order.
abbrev pub contents : Vector → List User
contents v = take v.size v.buffer

take-append {ℓ} :
    {A : Type ℓ} (xs ys : List A) (n : ℕ) → n ≤ length xs → take n (xs ++ ys) ≡ take n xs
take-append xs ys zero h = refl
take-append [] ys (suc n) h = absurd (omega arith)
take-append (x ∷ xs) ys (suc n) h = ap (λ l. x ∷ l) (take-append xs ys n (omega arith))

take-set {ℓ} :
    {A : Type ℓ} (xs : List A) (n : ℕ) (x : A)
    → n < length xs
    → take (suc n) (set xs n x) ≡ take n xs ++ x ∷ []
take-set [] n x h = absurd (omega arith)
take-set (y ∷ ys) zero x h = refl
take-set (y ∷ ys) (suc n) x h = ap (λ l. y ∷ l) (take-set ys n x (omega arith))

append-Appends :
    (v : Vector) (d : User)
    → v.size < length v.buffer
    → contents (append v d) ≡ contents v ++ d ∷ []
append-Appends v d h =
    let e : v.size + 1 ≡ suc v.size = omega arith in rw e (take-set v.buffer v.size d h)

-- What `realloc` adds, when it does not return NULL, doubles the block.
abbrev pub Doubles : Vector → Option (List User) → Type 0
Doubles v none = Unit {0}
Doubles v (some cells) = length cells ≡ v.buffer_size

-- The vector with its block grown by the cells.
abbrev grown : List User → Vector → Vector
grown cells v = record v { buffer = v.buffer ++ cells; buffer_size = v.buffer_size * 2 }

-- A push onto a valid vector fails only when the vector is full and `realloc` returns NULL; else it
-- yields a valid vector that holds the old users and behind them the new one, whether or not the
-- block had to be doubled.
pub vector_push-Appends :
    (v : Vector) (d : User) (fresh : Option (List User))
    → IsValid v
    → Doubles v fresh
    → (vector_push fresh v d ≡ none) × (v.size ≡ v.buffer_size) × (fresh ≡ none)
      ⊎ ((v' : Vector) × (vector_push fresh v d ≡ some v')
          × IsValid v'
          × (contents v' ≡ contents v ++ d ∷ []))
unfolding vector_push vector_grow
vector_push-Appends v d none valid doubles = elim (Bool-cases (v.size == v.buffer_size)) [
  | inl full ↦ inl (ground arith, ground arith, refl)
  | inr free ↦ inr (
    append v d,
    ground arith,
    ground (arith, length-set v.buffer v.size d),
    append-Appends v d (ground arith),
  )
]
vector_push-Appends v d (some cells) valid doubles = elim (Bool-cases (v.size == v.buffer_size)) [
  | inr free ↦ inr (
    append v d,
    ground arith,
    ground (arith, length-set v.buffer v.size d),
    append-Appends v d (ground arith),
  )
  | inl full ↦
      let more : length (v.buffer ++ cells) ≡ v.buffer_size * 2 =
        omega (arith, length-append v.buffer cells) in
      inr (
        append (grown cells v) d,
        ground arith,
        ground (arith, more, length-set (v.buffer ++ cells) v.size d),
        append-Appends (grown cells v) d (ground (arith, more))
            ∙ ap (λ l. l ++ d ∷ []) (take-append v.buffer cells v.size (ground arith)),
      )
]

-- The first of the users with the login, as an index from `i` on.
abbrev pub find_login : List User → List ℕ → ℕ → Option ℕ
find_login [] element i = none
find_login (u ∷ us) element i =
    if strcmp_eq u.login element then some i else find_login us element (i + 1)

search_from-find_login :
    (cells : List User) (left i : ℕ) (element : List ℕ)
    → left ≤ length cells
    → search_from left i cells element ≡ find_login (take left cells) element i
unfolding search_from
search_from-find_login cells zero i element h = refl
search_from-find_login [] (suc left) i element h = absurd (omega arith)
search_from-find_login (u ∷ cells) (suc left) i element h =
    ground (arith, search_from-find_login cells left (i + 1) element)

-- `vector_search` on a valid vector finds the first stored user with the login, and nothing in the
-- cells behind them.
pub vector_search-find_login :
    (v : Vector) (element : List ℕ)
    → IsValid v
    → vector_search v element ≡ find_login (contents v) element 0
unfolding vector_search
vector_search-find_login v element valid =
    search_from-find_login v.buffer v.size 0 element (ground (arith, valid))
