-- ===== src/Listing/Wire.antt =====
-- What goes over the socket of SP/task6: a length of eight bytes, the highest first, and a string.
use mai_fa_sp_4_sem.Base.{
  ℕ, ◌+◌, ◌*◌, ◌/◌, ◌%◌, ◌^◌, ◌<◌, ◌≡◌, refl, ltb, ◌==◌, if◌then◌else◌, Option, none, some, List,
  [], ◌∷◌, ◌++◌, take, drop, length, length-append, take-length_append, drop-length_append, arith,
}
use mai_fa_sp_4_sem.Libc.Tokens.{Lacks}

-- The bytes of `htobe64(n)`.
abbrev pub htobe64 : ℕ → List ℕ
htobe64 n =
    n / 2 ^ 56 % 256
    ∷ n / 2 ^ 48 % 256
    ∷ n / 2 ^ 40 % 256
    ∷ n / 2 ^ 32 % 256
    ∷ n / 2 ^ 24 % 256
    ∷ n / 2 ^ 16 % 256
    ∷ n / 2 ^ 8 % 256
    ∷ n % 256
    ∷ []

-- `be64toh`, from the bytes on; `n` is the number of those before.
unfoldable pub be64toh : ℕ → List ℕ → ℕ
be64toh n [] = n
be64toh n (b ∷ bs) = be64toh (n * 256 + b) bs

-- `recv` of `n` bytes with MSG_WAITALL, on the bytes that the peer sends before it closes; `none`
-- is a shorter result.
unfoldable pub recv : ℕ → List ℕ → Option (List ℕ × List ℕ)
recv n stream = if ltb (length stream) n then none else some (take n stream, drop n stream)

-- The bytes of a string in a block, up to its NUL; `none` if the block has none.
unfoldable pub c_string : List ℕ → Option (List ℕ)
c_string [] = none
c_string (c ∷ cs) =
    let rest = c_string cs in
    if c == 0 then some [] else elim rest [ none ↦ none | some s ↦ some (c ∷ s) ]

pub be64toh-htobe64 : (n : ℕ) → n < 2 ^ 64 → be64toh 0 (htobe64 n) ≡ n
unfolding be64toh
be64toh-htobe64 n h = omega arith

pub recv-append : (xs ys : List ℕ) → recv (length xs) (xs ++ ys) ≡ some (xs, ys)
unfolding recv
recv-append xs ys =
    ground (arith, length-append xs ys, take-length_append xs ys, drop-length_append xs ys)

pub c_string-append : (s rest : List ℕ) → Lacks 0 s → c_string (s ++ 0 ∷ rest) ≡ some s
unfolding c_string
c_string-append [] rest h = refl
c_string-append (c ∷ s) rest h = ground (arith, c_string-append s rest)

pub c_string-Lacks : (s : List ℕ) → Lacks 0 s → c_string s ≡ none
unfolding c_string
c_string-Lacks [] h = refl
c_string-Lacks (c ∷ s) h = ground (arith, c_string-Lacks s)
