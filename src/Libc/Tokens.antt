-- ===== src/Libc/Tokens.antt =====
-- How `strcmp`, `getline` and `strtok` read back text that was written.
use mai_fa_sp_4_sem.Base.{
  ℕ, ◌≡◌, ◌≢◌, refl, true, none, List, [], ◌∷◌, ◌++◌, arith, replicate, zero, suc,
}
use mai_fa_sp_4_sem.Libc.{strcmp_eq, getlines, skip_spaces, split_space, strtok}

-- No byte of the text is the given one.
abbrev pub Lacks : ℕ → List ℕ → Type 0
Lacks c [] = Unit {0}
Lacks c (x ∷ xs) = (x ≢ c) × Lacks c xs

pub strcmp_eq_refl : (a : List ℕ) → strcmp_eq a a ≡ true
unfolding strcmp_eq
strcmp_eq_refl [] = refl
strcmp_eq_refl (x ∷ xs) = ground (arith, strcmp_eq_refl xs)

pub strcmp_eq_sound : (a b : List ℕ) → strcmp_eq a b ≡ true → a ≡ b
unfolding strcmp_eq
strcmp_eq_sound [] [] h = refl
strcmp_eq_sound [] (y ∷ ys) h = ground arith
strcmp_eq_sound (x ∷ xs) [] h = ground arith
strcmp_eq_sound (x ∷ xs) (y ∷ ys) h = ground (arith, strcmp_eq_sound xs ys)

pub getlines-line :
    (l rest : List ℕ) → Lacks b'\n' l → getlines (l ++ b'\n' ∷ rest) ≡ l ∷ getlines rest
unfolding getlines
getlines-line [] rest h = refl
getlines-line (c ∷ l) rest h = ground (arith, getlines-line l rest)

pub split_space-word : (w rest : List ℕ) → Lacks b' ' w → split_space (w ++ b' ' ∷ rest) ≡ (w, rest)
unfolding split_space
split_space-word [] rest h = refl
split_space-word (c ∷ w) rest h = ground (arith, split_space-word w rest)

pub split_space-last : (w : List ℕ) → Lacks b' ' w → split_space w ≡ (w, [])
unfolding split_space
split_space-last [] h = refl
split_space-last (c ∷ w) h = ground (arith, split_space-last w)

pub strtok-spaces : (n : ℕ) → strtok (replicate n b' ') ≡ none
unfolding strtok skip_spaces
strtok-spaces zero = refl
strtok-spaces (suc n) = strtok-spaces n

pub Lacks-replicate : (c d n : ℕ) → d ≢ c → Lacks c (replicate n d)
Lacks-replicate c d zero h = tt
Lacks-replicate c d (suc n) h = (h, Lacks-replicate c d n h)
