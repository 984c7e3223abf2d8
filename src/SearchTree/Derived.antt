-- ===== src/SearchTree/Derived.antt =====
-- What `insert` and `insert_range` of binary_search_tree.h owe to the `post_insert` of a derived tree.
use mai_fa_sp_4_sem.Base.{
  ℕ, ◌+◌, ◌≡◌, refl, ap, sym, subst, ◌∙◌, Option, some, List, [], ◌∷◌, append_assoc, length, arith,
}
use mai_fa_sp_4_sem.SearchTree.{
  Tree, leaf, node, Chain, root, plug, in_order, descend, Container, counted, insert, insert_range,
  assign,
}
use mai_fa_sp_4_sem.SearchTree.Order.{Keys}
use mai_fa_sp_4_sem.SearchTree.Contents.{before, after, in_order-plug, Sorted, put}
use mai_fa_sp_4_sem.SearchTree.Insert.{descend-put, length-put, put-Sorted, put_all}

-- A derived tree: the tag of a new node, `post_insert`, the form that its trees have, and the law that
-- after a new node `post_insert` ends in such a tree with the same pairs, and
-- that the form does not depend on the values.
pub record Derived {τ ℓ κ} (T : Type τ) (K : Type ℓ) (V : Type κ) ⦃o : Keys K⦄
    : Type (1 ⊔ τ ⊔ ℓ ⊔ κ) where
  pub tag : T
  pub post_insert : Tree T K V → Chain T K V → Option (Tree T K V)
  pub HasForm : Tree T K V → Type 0
  pub repairs :
      (t : Tree T K V) (key : K) (value : V)
      → HasForm t
      → (top : Tree T K V) × (post_insert (node tag key value leaf leaf) (descend key t root)
          ≡ some top)
        × HasForm top
        × (in_order top ≡ in_order (plug (node tag key value leaf leaf) (descend key t root)))
  pub assigns : (t : Tree T K V) (key : K) (value : V) → HasForm t → HasForm (assign key value t)

module _ {τ ℓ κ} {T : Type τ} {K : Type ℓ} {V : Type κ} ⦃o : Keys K⦄ (d : Derived T K V) where
  -- A tree of the form whose pairs are in their order.
  pub record IsValid (t : Tree T K V) : Type ℓ where
    pub form : d.HasForm t
    pub sorted : Sorted (in_order t)

  -- What `insert` leaves.
  pub record Inserts (t : Container T K V) (key : K) (value : V) : Type (τ ⊔ ℓ ⊔ κ) where
    pub result : Container T K V
    pub ends : insert d.post_insert d.tag t key value ≡ some result
    pub valid : IsValid result.top
    pub pairs : in_order result.top ≡ put key value (in_order t.top)
    pub size : result.size ≡ counted t

  pub insert-Inserts :
      (t : Container T K V) (key : K) (value : V) → IsValid t.top → Inserts t key value
  unfolding insert
  insert-Inserts t key value v =
      let chain = descend key t.top root in
      let (top, e, form, kept) = d.repairs t.top key value v.form in
      let pairs : in_order top ≡ put key value (in_order t.top) =
        kept
        ∙ in_order-plug (node d.tag key value leaf leaf) chain
        ∙ append_assoc (before chain) ((key, value) ∷ []) (after chain)
        ∙ descend-put key value t.top v.sorted in
      record {
        result = record { top = top; size = counted t };
        ends = rw (e, insert) refl;
        valid = record {
          form = form;
          sorted = subst Sorted (sym pairs) (put-Sorted key value (in_order t.top) v.sorted);
        };
        pairs = pairs;
        size = refl;
      }

  -- What `insert_range` leaves.
  pub record Loads (t : Container T K V) (list : List (K × V)) : Type (τ ⊔ ℓ ⊔ κ) where
    pub result : Container T K V
    pub ends : insert_range d.post_insert d.tag list t ≡ some result
    pub valid : IsValid result.top
    pub pairs : in_order result.top ≡ put_all list (in_order t.top)
    pub size : counted result ≡ counted t + length list

  -- After `insert` the next one counts.
  counted-filled :
      (top : Tree T K V) (size : ℕ) (xs : List (K × V)) (key : K) (value : V)
      → in_order top ≡ put key value xs
      → counted (record { top = top; size = size }) ≡ size + 1
  counted-filled leaf size xs key value e =
      absurd (ground (arith, length-put key value xs, ap length e))
  counted-filled (node c k v l r) size xs key value e = refl

  pub insert_range-Loads :
      (list : List (K × V)) (t : Container T K V) → IsValid t.top → Loads t list
  unfolding insert_range
  insert_range-Loads [] t v = record {
    result = t;
    ends = refl;
    valid = v;
    pairs = refl;
    size = ground arith;
  }
  insert_range-Loads ((key, value) ∷ rest) t v =
      let one = insert-Inserts t key value v in
      let more = insert_range-Loads rest one.result one.valid in
      record {
        result = more.result;
        ends = rw (one.ends, insert_range) more.ends;
        valid = more.valid;
        pairs = more.pairs ∙ ap (put_all rest) one.pairs;
        size = ground (
          arith,
          more.size,
          one.size,
          counted-filled one.result.top one.result.size (in_order t.top) key value one.pairs,
        );
      }
