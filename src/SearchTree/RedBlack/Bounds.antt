-- ===== src/SearchTree/RedBlack/Bounds.antt =====
-- The depth of the red-black tree.
use mathlib.Core.Option.{some-injective}
use mai_fa_sp_4_sem.Base.{
  ℕ, zero, suc, ◌+◌, ◌*◌, ◌^◌, ◌≤◌, ◌≡◌, refl, ap, sym, subst, some, ◌∙◌, Bool, true, false, leb,
  if◌then◌else◌, List, [], ◌∷◌, length, length-append, arith,
}
use mai_fa_sp_4_sem.SearchTree.{Tree, leaf, node, in_order, Container, insert_range}
use mai_fa_sp_4_sem.SearchTree.Order.{Keys}
use mai_fa_sp_4_sem.SearchTree.Insert.{put_all, length-put}
use mai_fa_sp_4_sem.SearchTree.Contents.{put}
use mai_fa_sp_4_sem.SearchTree.RedBlack.{Color, red, black, is_red, post_insert}
use mai_fa_sp_4_sem.SearchTree.RedBlack.Shape.{HasHeight, IsRedBlack}
use mai_fa_sp_4_sem.SearchTree.RedBlack.Insert.{insert_range_red_black}

abbrev pub higher : ℕ → ℕ → ℕ
higher a b = if leb a b then b else a

higher_le : (a b c : ℕ) → a ≤ c → b ≤ c → higher a b ≤ c
higher_le a b c h k = ground arith

abbrev one_if : Bool → ℕ
one_if true = 1
one_if false = 0

at_most_one : (a b : ℕ) (c : Bool) → a ≤ b + one_if c → a ≤ b + 1
at_most_one a b true h = h
at_most_one a b false h = omega (arith, h)

module _ {ℓ κ} {K : Type ℓ} {V : Type κ} where
  -- The number of nodes on the longest way down.
  abbrev pub depth : Tree Color K V → ℕ
  depth leaf = 0
  depth (node c k v l r) = suc (higher (depth l) (depth r))

  -- The longest way is at most twice the black nodes of each, and one more below a red root.
  depth-HasHeight :
      (t : Tree Color K V) (n : ℕ) → HasHeight t n → depth t ≤ 2 * n + one_if (is_red t)
  depth-HasHeight leaf n h = ground arith
  depth-HasHeight (node red k v l r) n (bl, br, hl, hr) =
      let left : depth l ≤ 2 * n + 0 =
        subst (λ b. depth l ≤ 2 * n + one_if b) bl (depth-HasHeight l n hl) in
      let right : depth r ≤ 2 * n + 0 =
        subst (λ b. depth r ≤ 2 * n + one_if b) br (depth-HasHeight r n hr) in
      let both = higher_le (depth l) (depth r) (2 * n + 0) left right in omega (arith, both)
  depth-HasHeight (node black k v l r) zero h = absurd h
  depth-HasHeight (node black k v l r) (suc n) (hl, hr) =
      let left = at_most_one (depth l) (2 * n) (is_red l) (depth-HasHeight l n hl) in
      let right = at_most_one (depth r) (2 * n) (is_red r) (depth-HasHeight r n hr) in
      let both = higher_le (depth l) (depth r) (2 * n + 1) left right in omega (arith, both)

  -- Each way has enough pairs around it.
  size-HasHeight : (t : Tree Color K V) (n : ℕ) → HasHeight t n → 2 ^ n ≤ length (in_order t) + 1
  size-HasHeight leaf n h = rw h (ground arith)
  size-HasHeight (node red k v l r) n (bl, br, hl, hr) =
      let left = size-HasHeight l n hl in
      let sum = length-append (in_order l) ((k, v) ∷ in_order r) in omega (arith, left, sum)
  size-HasHeight (node black k v l r) zero h = absurd h
  size-HasHeight (node black k v l r) (suc n) (hl, hr) =
      let left = size-HasHeight l n hl in
      let right = size-HasHeight r n hr in
      let sum = length-append (in_order l) ((k, v) ∷ in_order r) in
      let double : 2 ^ suc n ≡ 2 ^ n + 2 ^ n = ground arith in
      omega (arith, left, right, sum, double)

  -- The longest way down has `2 * n` nodes at most, where `2 ^ n` is at most one more than the pairs.
  abbrev pub IsShallow : Tree Color K V → ℕ → Type 0
  IsShallow t pairs = (n : ℕ) × ((depth t ≤ 2 * n) × (2 ^ n ≤ pairs + 1))

  red_black-IsShallow : (t : Tree Color K V) → IsRedBlack t → IsShallow t (length (in_order t))
  red_black-IsShallow t (b, (n, h)) =
      let deep : depth t ≤ 2 * n + 0 =
        subst (λ c. depth t ≤ 2 * n + one_if c) b (depth-HasHeight t n h) in
      (n, (omega (arith, deep), size-HasHeight t n h))

module _ {ℓ κ} {K : Type ℓ} {V : Type κ} ⦃o : Keys K⦄ where
  length-put_all : (list xs : List (K × V)) → length (put_all list xs) ≡ length list + length xs
  length-put_all [] xs = ground arith
  length-put_all ((key, value) ∷ rest) xs =
      let more = length-put_all rest (put key value xs) in
      let one = length-put key value xs in omega (arith, more, one)

  -- What `insert_range` leaves of an empty red-black tree has a longest way down of `2 * n` nodes at
  -- most, for some `n` where `2 ^ n` is at most one more than the number of pairs.
  pub insert_range-IsShallow :
      (list : List (K × V)) (t : Container Color K V)
      → insert_range post_insert red list (record { top = leaf; size = 0 }) ≡ some t
      → IsShallow t.top (length list)
  insert_range-IsShallow list t e =
      let loads =
        insert_range_red_black list (record { top = leaf; size = 0 })
          (record { form = (refl, (0, refl)); sorted = tt }) in
      let same : loads.result ≡ t = some-injective loads.result t (sym loads.ends ∙ e) in
      let shallow : IsShallow t.top (length (in_order t.top)) =
        red_black-IsShallow t.top (subst (λ u. IsRedBlack u.top) same loads.valid.form) in
      let pairs : length (in_order t.top) ≡ length list + 0 =
        ap (λ u. length (in_order u.top)) (sym same)
        ∙ ap length loads.pairs
        ∙ length-put_all list [] in
      subst (IsShallow t.top) (pairs ∙ ground arith) shallow
