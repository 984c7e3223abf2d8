-- ===== src/Files/Tests.antt =====
-- Runs of SP/task2 on small files, and each theorem at such a run.
use mai_fa_sp_4_sem.Base.{
  ℕ, ◌≡◌, refl, Bool, true, some, List, [], ◌∷◌, arith, get_or, length, none,
}
use mai_fa_sp_4_sem.Libc.{codes}
use mai_fa_sp_4_sem.Files.Kmp.{kmp_search, compute_lps, lps_loop, search_loop, fall_back}
use mai_fa_sp_4_sem.Files.Kmp.Lps.{Table, compute_lps-Table}
use mai_fa_sp_4_sem.Files.Kmp.Search.{Decides, kmp_search-Decides}
use mai_fa_sp_4_sem.Files.Kmp.Contains.{AllBelow}
use mai_fa_sp_4_sem.Files.Blocks.{bytes_of, xor_blocks, xor_loop, xor_into}
use mai_fa_sp_4_sem.Files.Blocks.Lanes.{lane, xor_blocks-lane}

abbrev sought : List ℕ
sought = codes "abab"

abbrev file : List ℕ
file = codes "abaabab"

abbrev block : List ℕ
block = 9 ∷ 9 ∷ 9 ∷ 9 ∷ []

finds : kmp_search (some block) file sought ≡ some true
unfolding kmp_search compute_lps lps_loop search_loop fall_back
finds = refl

kmp_search-Decides_example :
    (r : Bool) × (kmp_search (some block) file sought ≡ some r) × Decides sought file r
kmp_search-Decides_example = kmp_search-Decides file sought block (omega arith) refl

compute_lps-Table_example :
    (lps : List ℕ) × (compute_lps sought block ≡ some lps)
    × (length lps ≡ length sought)
    × Table sought lps (length sought)
compute_lps-Table_example = compute_lps-Table sought block (omega arith) refl

sought-AllBelow : AllBelow 128 sought
sought-AllBelow = ground arith

-- The file is the string, one byte of which is 209.
abbrev cyrillic : List ℕ
cyrillic = 209 ∷ 143 ∷ []

cyrillic-AllBelow : AllBelow 256 cyrillic
cyrillic-AllBelow = ground arith

xor_blocks-lane_example :
    (result : List ℕ) × (xor_blocks (1 ∷ 2 ∷ 4 ∷ []) 16 ≡ some result)
    × (length result ≡ bytes_of 16)
    × (get_or result 0 0 ≡ lane (bytes_of 16) 0 (1 ∷ 2 ∷ 4 ∷ []) 0)
xor_blocks-lane_example =
    xor_blocks-lane (1 ∷ 2 ∷ 4 ∷ []) 16 0 (ground arith) (omega arith) (omega arith)

-- A last block of one byte goes into the first lane.
short_block : xor_blocks (1 ∷ 2 ∷ 4 ∷ []) 16 ≡ some (5 ∷ 2 ∷ [])
unfolding xor_blocks xor_loop xor_into
short_block = refl

-- Nine bytes do not fit `buffer`.
abbrev nine : List ℕ
nine = 1 ∷ 2 ∷ 3 ∷ 4 ∷ 5 ∷ 6 ∷ 7 ∷ 8 ∷ 9 ∷ []

long_block : xor_blocks nine 72 ≡ none
unfolding xor_blocks xor_loop xor_into
long_block = refl

-- The disk takes nothing.
abbrev full_disk : ℕ → ℕ → ℕ
full_disk offset size = 0
