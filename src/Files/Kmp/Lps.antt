-- ===== src/Files/Kmp/Lps.antt =====
-- `compute_lps` of SP/task2/find_string.c: the table holds the longest border of every prefix.
use mai_fa_sp_4_sem.Base.{
  ℕ, zero, suc, ◌+◌, ◌-◌, ◌*◌, ◌≤◌, ◌<◌, ◌≡◌, ◌≢◌, sym, ap, subst, ◌∙◌, ◌==◌, some, List, length,
  get_or, set, get_or-set_self, get_or-set_ne, length-set, arith, inl, inr, Bool-cases, ltb,
  ℕ_discrete,
}
use mai_fa_sp_4_sem.Files.Kmp.{char_at, lps_loop, compute_lps}
use mai_fa_sp_4_sem.Files.Kmp.Borders.{
  Fits, Border, Longest, Fits-zero, Fits-Border, Border-Fits, Fits-suc, Fits-pred,
}

-- The first `i` entries of the table.
abbrev pub Table : List ℕ → List ℕ → ℕ → Type 0
Table pattern lps i = (k : ℕ) → k < i → Longest (char_at pattern) (k + 1) (get_or lps k 0)

module _ (pattern : List ℕ) where
  abbrev P : ℕ → ℕ
  P = char_at pattern

  abbrev n : ℕ
  n = length pattern

  -- The state at the head of the loop: `len` is a border, and no longer one can be extended.
  record Inv (i len : ℕ) (lps : List ℕ) : Type 0 where
    inside : i ≤ n
    room : length lps ≡ n
    below : len < i
    border : Fits P P i len
    table : Table pattern lps i
    candidates : (b : ℕ) → Border P (i + 1) (b + 1) → b ≤ len

  -- Writing the entry for `i`.
  Table-set :
      (i v : ℕ) (lps : List ℕ)
      → i < length lps
      → Table pattern lps i
      → Longest P (i + 1) v
      → Table pattern (set lps i v) (i + 1)
  Table-set i v lps lt t l k h = elim (ℕ_discrete k i) [
    | yes e ↦ rw (e, get_or-set_self lps i v 0 lt) l
    | no ne ↦ rw (get_or-set_ne lps v 0 (λ e. ne (sym e))) (t k (omega arith))
  ]

  -- A border of one more than a longest border's prefix is at most one longer.
  Longest-candidates : (i v : ℕ) → Longest P i v → (b : ℕ) → Border P (i + 1) (b + 1) → b ≤ v
  Longest-candidates i v l b g = l.1 b (omega arith, (Fits-pred P P i b g.1).0)

  -- Every border of the next prefix is the empty one, or extends a candidate.
  Border-le :
      (i len : ℕ)
      → ((b : ℕ) → Border P (i + 1) (b + 1) → b ≤ len)
      → (c : ℕ) → Border P (i + 1) c
      → c ≤ len + 1
  Border-le i len v zero g = omega arith
  Border-le i len v (suc c) g =
      let e : suc c ≡ c + 1 = omega arith in omega (arith, v c (subst (Border P (i + 1)) e g))

  grow-Inv :
      (i len : ℕ) (lps : List ℕ)
      → Inv i len lps
      → i < n
      → P i ≡ P len
      → Inv (i + 1) (len + 1) (set lps i (len + 1))
  grow-Inv i len lps v lt e = record {
    inside = omega arith;
    room = length-set lps i (len + 1) ∙ v.room;
    below = omega (arith, v.below);
    border = border;
    table = Table-set i (len + 1) lps (omega (arith, v.room)) v.table longest;
    candidates = Longest-candidates (i + 1) (len + 1) longest;
  }
    where
      border : Fits P P (i + 1) (len + 1)
      border = Fits-suc P P i len v.border (sym e)

      longest : Longest P (i + 1) (len + 1)
      longest = ((omega (arith, v.below), border), Border-le i len v.candidates)

  -- A mismatch: the next shorter border is the longest border of this one.
  fall-Inv :
      (i len : ℕ) (lps : List ℕ)
      → Inv i len lps
      → P i ≢ P len
      → len ≢ 0
      → (get_or lps (len - 1) 0 < len) × Inv i (get_or lps (len - 1) 0) lps
  fall-Inv i len lps v ne pos = (
    shorter.0.0,
    record {
      inside = v.inside;
      room = v.room;
      below = omega (arith, shorter.0.0, v.below);
      border = Fits-Border P P i len l v.border shorter.0;
      table = v.table;
      candidates = candidates;
    },
  )
    where
      l : ℕ
      l = get_or lps (len - 1) 0

      e : len - 1 + 1 ≡ len
      e = omega arith

      shorter : Longest P len l
      shorter = subst (λ k. Longest P k l) e (v.table (len - 1) (omega (arith, v.below)))

      below : (b : ℕ) → Border P (i + 1) (b + 1) → b < len
      below b g = elim (ℕ_discrete b len) [
        | yes same ↦ absurd (ne (sym (Fits-pred P P i b g.1).1 ∙ ap P same))
        | no other ↦ omega (arith, v.candidates b g)
      ]

      candidates : (b : ℕ) → Border P (i + 1) (b + 1) → b ≤ l
      candidates b g =
          shorter.1 b (Border-Fits P P i len b (below b g) v.border (Fits-pred P P i b g.1).0)

  -- A mismatch at the first byte: the entry is 0.
  next-Inv : (i : ℕ) (lps : List ℕ) → Inv i 0 lps → i < n → P i ≢ P 0 → Inv (i + 1) 0 (set lps i 0)
  next-Inv i lps v lt ne = record {
    inside = omega arith;
    room = length-set lps i 0 ∙ v.room;
    below = omega arith;
    border = Fits-zero P P (i + 1);
    table = Table-set i 0 lps (omega (arith, v.room)) v.table longest;
    candidates = Longest-candidates (i + 1) 0 longest;
  }
    where
      none_longer : (c : ℕ) → Border P (i + 1) c → c ≤ 0
      none_longer zero g = omega arith
      none_longer (suc c) g =
          let e : suc c ≡ c + 1 = omega arith in
          let g' : Border P (i + 1) (c + 1) = subst (Border P (i + 1)) e g in
          let z : c ≡ 0 = omega (arith, v.candidates c g') in
          absurd (ne (sym (Fits-pred P P i c g'.1).1 ∙ ap P z))

      longest : Longest P (i + 1) 0
      longest = ((omega arith, Fits-zero P P (i + 1)), none_longer)

  -- With fuel for twice the bytes that are left and for the border at hand the loop returns, and
  -- its table is the table of longest borders.
  lps_loop-Table :
      (fuel i len : ℕ) (lps : List ℕ)
      → Inv i len lps
      → 2 * (n - i) + len < fuel
      → (r : List ℕ) × (lps_loop fuel pattern i len lps ≡ some r)
        × (length r ≡ n)
        × Table pattern r n
  unfolding lps_loop
  lps_loop-Table zero i len lps v f = absurd (omega arith)
  lps_loop-Table (suc fuel) i len lps v f = elim (Bool-cases (ltb i n)) [
    | inr end ↦ (
      lps,
      rw end,
      v.room,
      (let e : i ≡ n = ground (arith, v.inside) in subst (Table pattern lps) e v.table),
    )
    | inl more ↦ elim (Bool-cases (P i == P len)) [
      | inl same ↦
          rw (more, same)
            (lps_loop-Table fuel (i + 1) (len + 1) (set lps i (len + 1))
              (grow-Inv i len lps v (ground arith) (ground arith)) (ground arith))
      | inr differ ↦ elim (Bool-cases (len == 0)) [
        | inr pos ↦
            let (lt, v') = fall-Inv i len lps v (ground arith) (ground arith) in
            rw (more, differ, pos)
              (lps_loop-Table fuel i (get_or lps (len - 1) 0) lps v' (omega arith))
        | inl empty ↦
            let e : len ≡ 0 = ground arith in
            rw (more, differ, empty)
              (lps_loop-Table fuel (i + 1) 0 (set lps i 0)
                (next-Inv i lps (subst (λ k. Inv i k lps) e v) (ground arith) (ground arith))
                (ground arith))
      ]
    ]
  ]

-- For every non-empty string and every block of its length, whatever the block holds, `compute_lps`
-- returns, and then entry `k` is the length of the longest border of the first `k + 1` bytes.
pub compute_lps-Table :
    (pattern old : List ℕ)
    → 0 < length pattern
    → length old ≡ length pattern
    → (lps : List ℕ) × (compute_lps pattern old ≡ some lps)
      × (length lps ≡ length pattern)
      × Table pattern lps (length pattern)
unfolding compute_lps
compute_lps-Table pattern old pos size =
    lps_loop-Table pattern (2 * length pattern + 1) 1 0 (set old 0 0) start (omega arith)
  where
    only_empty : (c : ℕ) → Border (char_at pattern) 1 c → c ≤ 0
    only_empty c g = omega (arith, g.0)

    first : Longest (char_at pattern) 1 0
    first = ((omega arith, Fits-zero (char_at pattern) (char_at pattern) 1), only_empty)

    start : Inv pattern 1 0 (set old 0 0)
    start = record {
      inside = omega arith;
      room = length-set old 0 0 ∙ size;
      below = omega arith;
      border = Fits-zero (char_at pattern) (char_at pattern) 1;
      table = Table-set pattern 0 0 old (omega arith) (λ k h. absurd (omega arith)) first;
      candidates = λ b g. Longest-candidates pattern 1 0 first b g;
    }
