-- ===== src/Files/Kmp/Borders.antt =====
-- Borders of a text's prefixes, on which SP/task2/find_string.c works: the prefix of length `b` is
-- also a suffix of the prefix of length `k`.
use mai_fa_sp_4_sem.Base.{ℕ, ◌+◌, ◌-◌, ◌≤◌, ◌<◌, ◌≡◌, arith, dec_lt}

-- The first `b` values of `P` stand in `T` up to position `m`.
abbrev pub Fits : (ℕ → ℕ) → (ℕ → ℕ) → ℕ → ℕ → Type 0
Fits P T m b = (b ≤ m) × ((x : ℕ) → x < b → P x ≡ T (m - b + x))

abbrev pub Border : (ℕ → ℕ) → ℕ → ℕ → Type 0
Border P k b = (b < k) × Fits P P k b

-- The longest border.
abbrev pub Longest : (ℕ → ℕ) → ℕ → ℕ → Type 0
Longest P k b = Border P k b × ((c : ℕ) → Border P k c → c ≤ b)

module _ (P T : ℕ → ℕ) where
  pub Fits-zero : (m : ℕ) → Fits P T m 0
  Fits-zero m = (omega arith, λ x h. absurd (omega arith))

  -- A border of what fits, fits.
  pub Fits-Border : (m b c : ℕ) → Fits P T m b → Border P b c → Fits P T m c
  Fits-Border m b c f g = (omega arith, λ x h. ground (arith, g.1.1 x h, f.1 (b - c + x)))

  -- The shorter of two that fit is a border of the longer.
  pub Border-Fits : (m b c : ℕ) → c < b → Fits P T m b → Fits P T m c → Border P b c
  Border-Fits m b c lt f g = (lt, (omega arith, λ x h. ground (arith, g.1 x h, f.1 (b - c + x))))

  pub Fits-suc : (m b : ℕ) → Fits P T m b → P b ≡ T m → Fits P T (m + 1) (b + 1)
  Fits-suc m b f e = (
    omega arith,
    λ x h. elim (dec_lt x b) [
      | yes lt ↦ ground (arith, f.1 x lt)
      | no ge ↦ (let q : x ≡ b = omega arith in ground arith)
    ],
  )

  pub Fits-pred : (m b : ℕ) → Fits P T (m + 1) (b + 1) → Fits P T m b × (P b ≡ T m)
  Fits-pred m b f = ((omega arith, λ x h. ground (arith, f.1 x)), ground (arith, f.1 b))
