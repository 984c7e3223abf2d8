-- ===== src/Files/Kmp.antt =====
-- SP/task2/find_string.c: the Knuth-Morris-Pratt search of a file for a string.
pub mod Borders
pub mod Lps
pub mod Search
pub mod Contains
use mai_fa_sp_4_sem.Base.{
  ℕ, zero, suc, ◌+◌, ◌-◌, ◌*◌, ◌^◌, Bool, true, false, not, ◌&&◌, ◌==◌, ltb, if◌then◌else◌, Option,
  none, some, List, [], ◌∷◌, length, get_or, set, replicate,
}

-- A `char` is signed, and an `int` holds it: the 32-bit pattern of that `int`. For the value of
-- `fgetc`, an `unsigned char`, the pattern is the byte itself.
abbrev pub int_of_char : ℕ → ℕ
int_of_char c = if ltb c 128 then c else c + (2 ^ 32 - 256)

-- `pattern[i]`, at the `int` that it is compared as. Behind the last byte stands the NUL.
abbrev pub char_at : List ℕ → ℕ → ℕ
char_at pattern i = int_of_char (get_or pattern i 0)

-- The loop of `compute_lps` at `i` and `len`; `none` is a run out of fuel.
unfoldable pub lps_loop : ℕ → List ℕ → ℕ → ℕ → List ℕ → Option (List ℕ)
lps_loop zero pattern i len lps = none
lps_loop (suc fuel) pattern i len lps =
    let grow = lps_loop fuel pattern (i + 1) (len + 1) (set lps i (len + 1)) in
    let fall = lps_loop fuel pattern i (get_or lps (len - 1) 0) lps in
    let next = lps_loop fuel pattern (i + 1) 0 (set lps i 0) in
    if ltb i (length pattern)
    then (if char_at pattern i == char_at pattern len
        then grow
        else if not (len == 0)
        then fall
        else next)
    else some lps

-- `lps` is the block that `malloc` returned.
unfoldable pub compute_lps : List ℕ → List ℕ → Option (List ℕ)
compute_lps pattern lps = lps_loop (2 * length pattern + 1) pattern 1 0 (set lps 0 0)

-- `while (j > 0 && ch != pattern[j]) j = lps[j - 1];`
unfoldable pub fall_back : ℕ → List ℕ → List ℕ → ℕ → ℕ → Option ℕ
fall_back zero pattern lps ch j = none
fall_back (suc fuel) pattern lps ch j =
    let rest = fall_back fuel pattern lps ch (get_or lps (j - 1) 0) in
    if ltb 0 j && not (ch == char_at pattern j) then rest else some j

abbrev pub advance : List ℕ → ℕ → ℕ → ℕ
advance pattern ch j = if ch == char_at pattern j then j + 1 else j

-- The outer loop on the bytes that `fgetc` still returns. The fuel is for the inner one.
unfoldable pub search_loop : List ℕ → List ℕ → List ℕ → ℕ → Option Bool
search_loop pattern lps [] j = some false
search_loop pattern lps (ch ∷ rest) j = elim (fall_back (suc j) pattern lps ch j) [
  | none ↦ none
  | some k ↦
      (let more = search_loop pattern lps rest (advance pattern ch k) in
        if advance pattern ch k == length pattern then some true else more)
]

-- `block` is what `malloc` returns: `none` for NULL, else the block's old content.
unfoldable pub kmp_search : Option (List ℕ) → List ℕ → List ℕ → Option Bool
kmp_search block file pattern = if length pattern == 0 then some false else elim block [
  | none ↦ some false
  | some old ↦ elim (compute_lps pattern old) [
    | none ↦ none
    | some lps ↦ search_loop pattern lps file 0
  ]
]

-- The exit status of `main`; `opened` is `none` if `fopen` fails.
unfoldable pub main : ℕ → Option (List ℕ) → Option (List ℕ) → List ℕ → Option ℕ
main argc opened block search_str = if not (argc == 3) then some 2 else elim opened [
  | none ↦ some 3
  | some file ↦ elim (kmp_search block file search_str) [
    | none ↦ none
    | some found ↦ some (if found then 0 else 1)
  ]
]
