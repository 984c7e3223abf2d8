-- ===== src/Files/Kmp/Contains.antt =====
-- `kmp_search` of SP/task2/find_string.c on the bytes as they were typed, ASCII and not.
use mai_fa_sp_4_sem.Base.{
  ℕ, ◌+◌, ◌≤◌, ◌<◌, ◌≡◌, ◌⊎◌, inl, inr, ap, ◌∙◌, true, false, some, List, length, get_or, arith,
}
use mai_fa_sp_4_sem.Files.Kmp.{kmp_search}
use mai_fa_sp_4_sem.Files.Kmp.Search.{kmp_search-Decides}

-- The bytes below `bound`, all of them.
abbrev pub AllBelow : ℕ → List ℕ → Type 0
AllBelow bound xs = (i : ℕ) → i < length xs → get_or xs i 0 < bound

-- The string as it was typed stands in the file.
abbrev pub Contains : List ℕ → List ℕ → Type 0
Contains pattern file =
    (s : ℕ) × (s + length pattern ≤ length file)
    × ((x : ℕ) → x < length pattern → get_or pattern x 0 ≡ get_or file (s + x) 0)

-- For ASCII strings that is plain containment: the search answers `true` in exactly the files that
-- contain the string.
pub kmp_search-ascii :
    (file pattern old : List ℕ)
    → 0 < length pattern
    → length old ≡ length pattern
    → AllBelow 128 pattern
    → ((kmp_search (some old) file pattern ≡ some true) × Contains pattern file)
      ⊎ ((kmp_search (some old) file pattern ≡ some false) × (¬ Contains pattern file))
kmp_search-ascii file pattern old pos size ascii =
    let (r, run, decides) = kmp_search-Decides file pattern old pos size in
    elim decides [
      | inl (e, (s, inside, same)) ↦
          inl (run ∙ ap some e, (s, inside, λ x h. ground (arith, ascii x h, same x h)))
      | inr (e, none_there) ↦ inr (
        run ∙ ap some e,
        λ (s, inside, same). none_there (s, inside, λ x h. ground (arith, ascii x h, same x h)),
      )
    ]

-- A string with a byte from 128 on is never found, not even in a file that contains it.
pub kmp_search-non_ascii :
    (file pattern old : List ℕ) (x : ℕ)
    → length old ≡ length pattern
    → AllBelow 256 file
    → x < length pattern
    → 128 ≤ get_or pattern x 0
    → kmp_search (some old) file pattern ≡ some false
kmp_search-non_ascii file pattern old x size bytes inside high =
    let (r, run, decides) = kmp_search-Decides file pattern old (omega arith) size in
    elim decides [
      | inl (e, (s, fits, same)) ↦
          absurd (ground (arith, same x inside, bytes (s + x) (omega arith)))
      | inr (e, none_there) ↦ run ∙ ap some e
    ]
