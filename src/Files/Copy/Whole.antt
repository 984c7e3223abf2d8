-- ===== src/Files/Copy/Whole.antt =====
-- The copy of SP/task2/copy_file.c is whole, and a name of SP/task2/main.c may be too long for its
-- block.
use mai_fa_sp_4_sem.Base.{
  ℕ, zero, suc, ◌+◌, ◌-◌, ◌≤◌, ◌<◌, ◌≡◌, ◌⊎◌, inl, inr, refl, sym, subst, ap, ◌∙◌, Bool, true,
  false, ◌==◌, Option, none, some, List, [], ◌∷◌, ◌++◌, take, drop, get_or, length, length-take,
  length-drop, take-append-drop, append_assoc, append-nil, Bool-cases, arith,
}
use mai_fa_sp_4_sem.Libc.Tokens.{Lacks}
use mai_fa_sp_4_sem.Files.Copy.{copy_loop, copy_file, last_dot, base_len}

-- The first bytes of a file.
abbrev pub Prefix : List ℕ → List ℕ → Type 0
Prefix xs ys = (rest : List ℕ) × (xs ++ rest ≡ ys)

empty_block : (src : List ℕ) → (length (take 1024 src) == 0) ≡ true → src ≡ []
empty_block [] h = refl
empty_block (c ∷ src) h = ground arith

-- A run succeeds with the whole file written, or fails with a part of it.
abbrev pub Copies : Bool × List ℕ → List ℕ → Type 0
Copies r whole = (r.0 ≡ true) × (r.1 ≡ whole) ⊎ (r.0 ≡ false) × Prefix r.1 whole

copy_loop-Copies :
    (fuel : ℕ) (accepts : ℕ → ℕ → ℕ) (src dst : List ℕ)
    → length src < fuel
    → Copies (copy_loop fuel accepts src dst) (dst ++ src)
unfolding copy_loop
copy_loop-Copies zero accepts src dst h = absurd (omega arith)
copy_loop-Copies (suc fuel) accepts src dst h = elim (Bool-cases (length (take 1024 src) == 0)) [
  | inl end ↦ inl (rw end, rw (end, empty_block src end) (sym (append-nil dst)))
  | inr more ↦ elim (Bool-cases (written == length block)) [
    | inl all ↦
        rw (more, all)
          (subst (Copies (copy_loop fuel accepts rest (dst ++ block))) whole (
            copy_loop-Copies fuel accepts rest (dst ++ block)
              (ground (arith, length-drop 1024 src, length-take 1024 src))))
    | inr short ↦ rw (more, short) (inr (refl, (drop written block ++ rest, cut)))
  ]
]
  where
    block : List ℕ
    block = take 1024 src

    rest : List ℕ
    rest = drop 1024 src

    written : ℕ
    written = accepts (length dst) (length block)

    whole : (dst ++ block) ++ rest ≡ dst ++ src
    whole = append_assoc dst block rest ∙ ap (λ l. dst ++ l) (take-append-drop 1024 src)

    cut : (dst ++ take written block) ++ (drop written block ++ rest) ≡ dst ++ src
    cut =
        append_assoc dst (take written block) (drop written block ++ rest)
        ∙ ap (λ l. dst ++ l)
            (sym (append_assoc (take written block) (drop written block) rest)
              ∙ ap (λ l. l ++ rest) (take-append-drop written block)
              ∙ take-append-drop 1024 src)

-- Whatever `fwrite` accepts, `copy_file` returns for every source that can be opened: with `true`
-- the destination is the whole source, with `false` it is a part of it from the start on.
pub copy_file-Copies :
    (accepts : ℕ → ℕ → ℕ) (src : List ℕ)
    → (dst : List ℕ) × ((copy_file accepts (some src) true).1 ≡ some dst)
      × Copies ((copy_file accepts (some src) true).0, dst) src
unfolding copy_file
copy_file-Copies accepts src = (
  (copy_loop (suc (length src)) accepts src []).1,
  refl,
  copy_loop-Copies (suc (length src)) accepts src [] (omega arith),
)

last_dot-Lacks :
    (cs : List ℕ) (i : ℕ) (found : Option ℕ)
    → Lacks b'.' cs × (last_dot cs i found ≡ found)
      ⊎ ((k : ℕ) × (last_dot cs i found ≡ some k)
          × (i ≤ k)
          × (k < i + length cs)
          × (get_or cs (k - i) 0 ≡ b'.'))
unfolding last_dot
last_dot-Lacks [] i found = inl (tt, refl)
last_dot-Lacks (c ∷ cs) i found = elim (Bool-cases (c == b'.')) [
  | inl dot ↦ rw dot (elim (last_dot-Lacks cs (i + 1) (some i)) [
    | inl (none_later, e) ↦
        inr
          (i, e, omega arith, omega arith, (let z : i - i ≡ 0 = omega arith in rw z (ground arith)))
    | inr (k, e, lo, hi, dot_at) ↦ inr (k, e, omega arith, omega arith, later k lo dot_at)
  ])
  | inr other ↦ rw other (elim (last_dot-Lacks cs (i + 1) found) [
    | inl (none_later, e) ↦ inl ((ground arith, none_later), e)
    | inr (k, e, lo, hi, dot_at) ↦ inr (k, e, omega arith, omega arith, later k lo dot_at)
  ])
]
  where
    later :
        (k : ℕ) → i + 1 ≤ k → get_or cs (k - (i + 1)) 0 ≡ b'.' → get_or (c ∷ cs) (k - i) 0 ≡ b'.'
    later k lo at = let e : k - i ≡ suc (k - (i + 1)) = omega arith in rw e at

-- `copy_file` of main.c writes its NUL inside the block for the base name exactly if the file's
-- name has a dot; the NUL then stands where the last one was. Without a dot it is written one byte
-- behind the block.
pub base_len-bounds :
    (name : List ℕ)
    → Lacks b'.' name × (base_len name ≡ length name)
      ⊎ (base_len name < length name) × (get_or name (base_len name) 0 ≡ b'.')
unfolding base_len
base_len-bounds name = elim (last_dot-Lacks name 0 none) [
  | inl (lacks, e) ↦ inl (lacks, rw (e, base_len))
  | inr (k, e, lo, hi, dot_at) ↦
      inr (ground arith, (let z : k - 0 ≡ k = omega arith in rw (e, base_len) (rw z at dot_at)))
]
