-- ===== src/SearchTree/Avl/Heights.antt =====
-- The heights that meet in a rotation of the AVL tree.
use mai_fa_sp_4_sem.Base.{
  ℕ, suc, ◌+◌, ◌≤◌, ◌<◌, ◌≡◌, refl, ◌⊎◌, false, leb, arith, Bool-cases, inl, inr,
}
use mai_fa_sp_4_sem.SearchTree.Avl.{max}

-- `h` is the height above subtrees of the heights `a` and `b`.
abbrev pub Above : ℕ → ℕ → ℕ → Type 0
Above h a b = ((h ≡ suc b) × (a ≤ b)) ⊎ ((h ≡ suc a) × (b ≤ a))

-- The heights of two subtrees differ by `d` at most.
abbrev pub Near : ℕ → ℕ → ℕ → Type 0
Near d a b = (a ≤ b + d) × (b ≤ a + d)

-- The heights that a turn can leave above subtrees of the heights `a` and `b`.
abbrev pub Turned : ℕ → ℕ → ℕ → Type 0
Turned a b h =
    (Near 1 a b × Above h a b)
    ⊎ (((a ≡ b + 2) × ((h ≡ a) ⊎ (h ≡ suc a))) ⊎ ((b ≡ a + 2) × ((h ≡ b) ⊎ (h ≡ suc b))))

pub swap {ℓ κ} : {A : Type ℓ} {B : Type κ} → A × B → B × A
swap (a, b) = (b, a)

pub max-Above : (a b : ℕ) → Above (suc (max a b)) a b
max-Above a b = elim (Bool-cases (leb a b)) [
  | inl e ↦ rw e (inl (refl, ground arith))
  | inr e ↦ rw e (inr (refl, ground arith))
]

pub Above-same : (h h' a b : ℕ) → Above h a b → Above h' a b → h ≡ h'
Above-same h h' a b (inl (e, p)) (inl (e', p')) = ground arith
Above-same h h' a b (inl (e, p)) (inr (e', p')) = ground arith
Above-same h h' a b (inr (e, p)) (inl (e', p')) = ground arith
Above-same h h' a b (inr (e, p)) (inr (e', p')) = ground arith

pub Above-swap : (h a b : ℕ) → Above h a b → Above h b a
Above-swap h a b (inl x) = inr x
Above-swap h a b (inr x) = inl x

-- One rotation: `a` stands above `l` and `rl`, and `t` above `a` and `rr`.
pub record Small (l rl rr hr : ℕ) : Type 0 where
  pub low : Near 1 l rl
  pub high : (a : ℕ) → Above a l rl → Near 1 a rr
  pub over : (a t : ℕ) → Above a l rl → Above t a rr → (t ≡ hr) ⊎ (t ≡ suc hr)

pub one_rotation :
    (l rl rr hr : ℕ) → Above hr rl rr → Near 1 rl rr → hr ≡ l + 2 → rl ≤ rr → Small l rl rr hr
one_rotation l rl rr hr above near e le =
    let up : rr ≡ l + 1 = ground arith in
    record { low = ground (arith); high = λ a h. ground (arith); over = λ a t h k. ground (arith) }

-- Two rotations: `a` stands above `l` and `sl`, `b` above `sr` and `rr`, and `t` above both.
pub record Big (l sl sr rr hr : ℕ) : Type 0 where
  pub low : Near 1 l sl
  pub lower : Near 1 sr rr
  pub high : (a b : ℕ) → Above a l sl → Above b sr rr → Near 1 a b
  pub over : (a b t : ℕ) → Above a l sl → Above b sr rr → Above t a b → t ≡ hr

pub two_rotations :
    (l sl sr hs rr hr : ℕ)
    → Above hs sl sr
    → Near 1 sl sr
    → Above hr hs rr
    → Near 1 hs rr
    → hr ≡ l + 2
    → rr < hs
    → Big l sl sr rr hr
two_rotations l sl sr hs rr hr as' ns ar nr e lt =
    let up : (hs ≡ l + 1) × (rr ≡ l) = ground arith in
    record {
      low = ground (arith);
      lower = ground (arith);
      high = λ a b h k. ground (arith);
      over = λ a b t h k g. ground (arith);
    }

pub leb→gt : (a b : ℕ) → leb a b ≡ false → b < a
leb→gt a b h = ground arith

-- A node of the height `h` above subtrees of the heights `n` and `s`, of which the first has grown to
-- `m`: what a turn leaves in place of the node is of the height `h` or of one more.
pub record Climbs (h m s : ℕ) : Type 0 where
  pub near : Near 2 m s
  pub next : (g : ℕ) → Turned m s g → (g ≡ h) ⊎ (g ≡ suc h)
  pub next_right : (g : ℕ) → Turned s m g → (g ≡ h) ⊎ (g ≡ suc h)

pub climbs : (h n m s : ℕ) → Above h n s → Near 1 n s → (m ≡ n) ⊎ (m ≡ suc n) → Climbs h m s
climbs h n m s above near grown = record {
  near = ground arith;
  next = λ g t. ground arith;
  next_right = λ g t. ground arith;
}
