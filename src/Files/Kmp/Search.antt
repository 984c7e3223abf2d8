-- ===== src/Files/Kmp/Search.antt =====
-- `kmp_search` of SP/task2/find_string.c finds exactly the strings that occur in the file.
use mai_fa_sp_4_sem.Base.{
  ℕ, zero, suc, ◌+◌, ◌-◌, ◌≤◌, ◌<◌, ◌≡◌, ◌≢◌, ◌⊎◌, refl, sym, ap, subst, ◌∙◌, Bool, true, false,
  not, ◌&&◌, ◌==◌, some, List, [], ◌∷◌, length, get_or, arith, inl, inr, Bool-cases, if◌then◌else◌,
  ltb, ℕ_discrete,
}
use mai_fa_sp_4_sem.Files.Kmp.{char_at, fall_back, advance, search_loop, kmp_search}
use mai_fa_sp_4_sem.Files.Kmp.Borders.{
  Fits, Border, Longest, Fits-zero, Fits-Border, Border-Fits, Fits-suc, Fits-pred,
}
use mai_fa_sp_4_sem.Files.Kmp.Lps.{Table, compute_lps-Table}

-- The bytes that `fgetc` returns are, from some place on, the string's.
abbrev pub Occurs : List ℕ → List ℕ → Type 0
Occurs pattern file =
    (s : ℕ) × (s + length pattern ≤ length file)
    × ((x : ℕ) → x < length pattern → char_at pattern x ≡ get_or file (s + x) 0)

-- `r` says whether it does.
abbrev pub Decides : List ℕ → List ℕ → Bool → Type 0
Decides pattern file r = (r ≡ true) × Occurs pattern file ⊎ ((r ≡ false) × (¬ Occurs pattern file))

module _ (pattern file lps : List ℕ) (table : Table pattern lps (length pattern)) where
  abbrev P : ℕ → ℕ
  P = char_at pattern

  abbrev T : ℕ → ℕ
  T i = get_or file i 0

  abbrev n : ℕ
  n = length pattern

  -- Nothing that can still be extended by the next byte is longer than `j`.
  Extends : ℕ → ℕ → Type 0
  Extends m j = (b : ℕ) → b < n → Fits P T (m + 1) (b + 1) → b ≤ j

  -- What the inner loop leaves: `k` fits, and either it can be extended or nothing can.
  Fallen : ℕ → ℕ → Type 0
  Fallen m k = (k < n) × Fits P T m k × Extends m k × ((k ≡ 0) ⊎ (T m ≡ P k))

  -- One round of the inner loop: the longest border of what fits is next.
  shorten :
      (m j : ℕ)
      → 0 < j
      → j < n
      → T m ≢ P j
      → Fits P T m j
      → Extends m j
      → let l = get_or lps (j - 1) 0 in (l < j) × Fits P T m l × Extends m l
  unfolding Extends
  shorten m j pos lt ne fits ext =
      (shorter.0.0, Fits-Border P T m j l fits shorter.0, λ b lb g. shorter.1 b (border b lb g))
    where
      l : ℕ
      l = get_or lps (j - 1) 0

      e : j - 1 + 1 ≡ j
      e = omega arith

      shorter : Longest P j l
      shorter = subst (λ k. Longest P k l) e (table (j - 1) (omega arith))

      below : (b : ℕ) → b < n → Fits P T (m + 1) (b + 1) → b < j
      below b lb g = elim (ℕ_discrete b j) [
        | yes same ↦ absurd (ne (sym (Fits-pred P T m b g).1 ∙ ap P same))
        | no other ↦ omega (arith, ext b lb g)
      ]

      border : (b : ℕ) → b < n → Fits P T (m + 1) (b + 1) → Border P j b
      border b lb g = Border-Fits P T m j b (below b lb g) fits (Fits-pred P T m b g).0

  fall_back-Fallen :
      (fuel m j : ℕ)
      → j < fuel
      → j < n
      → Fits P T m j
      → Extends m j
      → (k : ℕ) × (fall_back fuel pattern lps (T m) j ≡ some k) × Fallen m k
  unfolding fall_back Fallen
  fall_back-Fallen zero m j f lt fits ext = absurd (omega arith)
  fall_back-Fallen (suc fuel) m j f lt fits ext = elim (Bool-cases (ltb 0 j && not (T m == P j))) [
    | inr stop ↦ (j, rw stop, (lt, fits, ext, ground arith))
    | inl go ↦
        let (less, fits', ext') = shorten m j (ground arith) lt (ground arith) fits ext in
        rw go
          (fall_back-Fallen fuel m (get_or lps (j - 1) 0) (omega arith) (omega arith) fits' ext')
  ]

  -- The state at the head of the outer loop, `m` bytes into the file.
  record Inv (m j : ℕ) : Type 0 where
    short : j < n
    fits : Fits P T m j
    longest : (b : ℕ) → b ≤ n → Fits P T m b → b ≤ j
    absent : (e : ℕ) → e < m → ¬ Fits P T e n

  -- Behind the byte at `m` nothing longer fits than one byte more than could be extended ...
  longer : (m k : ℕ) → Extends m k → (b : ℕ) → b ≤ n → Fits P T (m + 1) b → b ≤ k + 1
  unfolding Extends
  longer m k ext zero h g = omega arith
  longer m k ext (suc b) h g =
      let e : suc b ≡ b + 1 = omega arith in
      omega (arith, ext b (omega arith) (subst (Fits P T (m + 1)) e g))

  -- ... and nothing at all if the byte is not the string's first and nothing could be extended.
  none_longer : (m : ℕ) → T m ≢ P 0 → Extends m 0 → (b : ℕ) → b ≤ n → Fits P T (m + 1) b → b ≤ 0
  none_longer m ne ext b h g = elim (ℕ_discrete b 1) [
    | yes one ↦ absurd (ne (sym (Fits-pred P T m 0 (subst (Fits P T (m + 1)) one g)).1))
    | no other ↦ omega (arith, longer m 0 ext b h g)
  ]

  abbrev LongestFit : ℕ → ℕ → Type 0
  LongestFit m j = (j ≤ n) × Fits P T m j × ((b : ℕ) → b ≤ n → Fits P T m b → b ≤ j)

  advance-longest : (m k : ℕ) → Fallen m k → LongestFit (m + 1) (advance pattern (T m) k)
  unfolding Fallen
  advance-longest m k (lt, fits, ext, last) = elim (Bool-cases (T m == P k)) [
    | inl same ↦ rw same (omega arith, Fits-suc P T m k fits (ground arith), longer m k ext)
    | inr differ ↦
        let z : k ≡ 0 = ground arith in
        rw (differ, z)
          (
            omega arith,
            Fits-zero P T (m + 1),
            none_longer m (λ e. ground arith) (subst (Extends m) z ext),
          )
  ]

  -- `rest` is the file from `m` on.
  Rest : ℕ → List ℕ → Type 0
  Rest m rest = (m + length rest ≡ length file) × ((i : ℕ) → get_or rest i 0 ≡ T (m + i))

  occurs : (m : ℕ) → m ≤ length file → Fits P T m n → Occurs pattern file
  occurs m h f = (m - n, omega (arith, f.0), f.1)

  not_yet : (m j : ℕ) → Inv m j → (e : ℕ) → e < m + 1 → ¬ Fits P T e n
  not_yet m j v e h f = elim (ℕ_discrete e m) [
    | yes here ↦
        omega (arith, v.short, v.longest n (omega arith) (subst (λ k. Fits P T k n) here f))
    | no other ↦ v.absent e (omega arith) f
  ]

  nowhere : (m j : ℕ) → Inv m j → m ≡ length file → ¬ Occurs pattern file
  nowhere m j v e (s, inside, same) =
      not_yet m j v (s + n) (omega arith) (omega arith, λ x h. ground (arith, same x h))

  next-Inv : (m j k : ℕ) → Inv m j → LongestFit (m + 1) k → k ≢ n → Inv (m + 1) k
  next-Inv m j k v (le, fits, longest) ne = record {
    short = omega arith;
    fits = fits;
    longest = longest;
    absent = not_yet m j v;
  }

  search_step :
      (t : ℕ) (rest : List ℕ) (j k : ℕ)
      → fall_back (suc j) pattern lps t j ≡ some k
      → search_loop pattern lps (t ∷ rest) j ≡ (
          if advance pattern t k == n
          then some true
          else search_loop pattern lps rest (advance pattern t k))
  unfolding search_loop
  search_step t rest j k run = rw (run, search_loop)

  search_loop-Decides :
      (rest : List ℕ) (m j : ℕ)
      → Rest m rest
      → Inv m j
      → (r : Bool) × (search_loop pattern lps rest j ≡ some r) × Decides pattern file r
  unfolding search_loop Rest Fallen Extends
  search_loop-Decides [] m j (size, bytes) v =
      (false, refl, inr (refl, nowhere m j v (omega arith)))
  search_loop-Decides (ch ∷ rest) m j (size, bytes) v =
      let e : ch ≡ T m = ground (arith, bytes 0) in
      let (k, run, fallen) =
        fall_back-Fallen (suc j) m j (omega arith) v.short v.fits
          (λ b h g. v.longest b (omega arith) (Fits-pred P T m b g).0) in
      let step =
        ap (λ c. search_loop pattern lps (c ∷ rest) j) e ∙ search_step (T m) rest j k run in
      let next = advance-longest m k fallen in
      elim (Bool-cases (advance pattern (T m) k == n)) [
        | inl full ↦
            let f : advance pattern (T m) k ≡ n = ground arith in
            (
              true,
              step ∙ rw full,
              inl (refl, occurs (m + 1) (omega arith) (subst (Fits P T (m + 1)) f next.1)),
            )
        | inr part ↦
            let (r, more, decides) =
              search_loop-Decides rest (m + 1) (advance pattern (T m) k)
                (omega arith, λ i. ground (arith, bytes (suc i)))
                (next-Inv m j (advance pattern (T m) k) v next (ground arith)) in
            (r, step ∙ rw part more, decides)
      ]

-- The search returns, and finds the string in exactly the files in which its bytes occur, for every
-- file, every non-empty string and every block of the string's length that `malloc` may return. A
-- byte of the string is compared as the `int` that a signed `char` is promoted to.
pub kmp_search-Decides :
    (file pattern old : List ℕ)
    → 0 < length pattern
    → length old ≡ length pattern
    → (r : Bool) × (kmp_search (some old) file pattern ≡ some r) × Decides pattern file r
unfolding kmp_search Rest
kmp_search-Decides file pattern old pos size =
    let (lps, run, room, table) = compute_lps-Table pattern old pos size in
    let e : (length pattern == 0) ≡ false = ground arith in
    rw (e, run)
      (search_loop-Decides pattern file lps table file 0 0 (omega arith, λ i. ground arith)
        (record {
          short = pos;
          fits = Fits-zero (char_at pattern) (λ i. get_or file i 0) 0;
          longest = λ b h f. omega (arith, f.0);
          absent = λ e h f. absurd (omega arith);
        }))
