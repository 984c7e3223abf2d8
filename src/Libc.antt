-- ===== src/Libc.antt =====
-- What the programs use of C's library on strings. A string is the list of its bytes without the
-- final NUL, so a byte in it is not zero.
pub mod Tokens
use Prim.Native.String.{String}
use Prim.Native.Char.{code}
use mai_fa_sp_4_sem.Base.{
  ℕ, zero, suc, ◌+◌, ◌≡◌, refl, Bool, true, false, ◌&&◌, ◌||◌, ◌==◌, leb, ◌-◌, ◌*◌, if◌then◌else◌,
  Option, none, some, List, [], ◌∷◌, ◌++◌, arith,
}

-- The bytes of an ASCII literal.
abbrev pub codes : String → List ℕ
codes String.[] = []
codes (String.◌∷◌ c s) = code c ∷ codes s

-- `strcmp(a, b) == 0`
unfoldable pub strcmp_eq : List ℕ → List ℕ → Bool
strcmp_eq [] [] = true
strcmp_eq (a ∷ as') (b ∷ bs) = (a == b) && strcmp_eq as' bs
strcmp_eq _ _ = false

-- The successive results of `getline`, each cut at its newline, which ends it.
unfoldable pub getlines : List ℕ → List (List ℕ)
getlines [] = []
getlines (c ∷ cs) =
    if c == b'\n'
    then [] ∷ getlines cs
    else elim (getlines cs) [ [] ↦ (c ∷ []) ∷ [] | l ∷ ls ↦ (c ∷ l) ∷ ls ]

unfoldable pub skip_spaces : List ℕ → List ℕ
skip_spaces [] = []
skip_spaces (c ∷ cs) = if c == b' ' then skip_spaces cs else c ∷ cs

-- Up to the first space, and what stands behind that space.
unfoldable pub split_space : List ℕ → List ℕ × List ℕ
split_space [] = ([], [])
split_space (c ∷ cs) = if c == b' ' then ([], cs) else (c ∷ (split_space cs).0, (split_space cs).1)

-- `strtok(s, " ")`: the next token and what later calls go on from; `none` is NULL.
unfoldable pub strtok : List ℕ → Option (List ℕ × List ℕ)
strtok s = elim (skip_spaces s) [ [] ↦ none | c ∷ cs ↦ some (split_space (c ∷ cs)) ]

abbrev pub is_digit : ℕ → Bool
is_digit c = leb b'0' c && leb c b'9'

-- `isspace`
abbrev pub is_white : ℕ → Bool
is_white c = c == b' ' || (leb 9 c && leb c 13)

unfoldable pub skip_white : List ℕ → List ℕ
skip_white [] = []
skip_white (c ∷ cs) = if is_white c then skip_white cs else c ∷ cs

-- The bytes up to the next white space, at most `n` of them, and the rest.
unfoldable pub take_word : ℕ → List ℕ → List ℕ × List ℕ
take_word zero s = ([], s)
take_word (suc n) [] = ([], [])
take_word (suc n) (c ∷ cs) =
    if is_white c then ([], c ∷ cs) else (c ∷ (take_word n cs).0, (take_word n cs).1)

-- `scanf("%<n>s")` on the bytes of `stdin` that are left; `none` at the end of the input.
unfoldable pub scan_word : ℕ → List ℕ → Option (List ℕ × List ℕ)
scan_word n input = elim (skip_white input) [ [] ↦ none | c ∷ cs ↦ some (take_word n (c ∷ cs)) ]
