-- ===== src/SearchTree/Assign.antt =====
-- `go_to_node_with_key` and `insert_or_assign` of binary_search_tree.h, on trees whose keys differ.
use mai_fa_sp_4_sem.Base.{
  ◌≡◌, refl, ap, sym, subst, ◌∙◌, true, false, some, ◌∷◌, arith, Bool-cases, Option-cases, inl, inr,
}
use mai_fa_sp_4_sem.SearchTree.{
  Tree, leaf, node, in_order, go_to_node_with_key, assign, Container, insert_or_assign,
}
use mai_fa_sp_4_sem.SearchTree.Order.{Keys}
use mai_fa_sp_4_sem.SearchTree.Insert.{go_to_node_with_key-Finds}
use mai_fa_sp_4_sem.SearchTree.Derived.{Derived, insert-Inserts}
use mai_fa_sp_4_sem.SearchTree.Lookup.{
  Rising, lookup, Finds-lookup, Rising-Sorted, lookup-put_other, lookup-put_same, put-Rising,
  Finds-none, SameKeys, both_end, both_go, SameKeys-refl, SameKeys-append, Rising-SameKeys,
}

module _ {τ ℓ κ} {T : Type τ} {K : Type ℓ} {V : Type κ} ⦃o : Keys K⦄ where
  pub assign-SameKeys :
      (key : K) (value : V) (t : Tree T K V) → SameKeys (in_order t) (in_order (assign key value t))
  unfolding assign
  assign-SameKeys key value leaf = both_end
  assign-SameKeys key value (node c k v l r) = elim (Bool-cases (o.same key k)) [
    | inl e ↦
        rw (e, assign)
          (SameKeys-append (in_order l) (in_order l) ((k, v) ∷ in_order r) ((k, value) ∷ in_order r)
            (SameKeys-refl (in_order l))
            (both_go k v value (in_order r) (in_order r) (SameKeys-refl (in_order r))))
    | inr e ↦ elim (Bool-cases (o.less key k)) [
      | inl b ↦
          rw (e, b, assign)
            (SameKeys-append (in_order l) (in_order (assign key value l)) ((k, v) ∷ in_order r)
              ((k, v) ∷ in_order r) (assign-SameKeys key value l)
              (SameKeys-refl ((k, v) ∷ in_order r)))
      | inr b ↦
          rw (e, b, assign)
            (SameKeys-append (in_order l) (in_order l) ((k, v) ∷ in_order r)
              ((k, v) ∷ in_order (assign key value r)) (SameKeys-refl (in_order l))
              (both_go k v v (in_order r) (in_order (assign key value r))
                (assign-SameKeys key value r)))
    ]
  ]

  go_left :
      (key : K) (c : T) (k : K) (v : V) (l r : Tree T K V)
      → o.same key k ≡ false
      → o.less key k ≡ true
      → go_to_node_with_key key (node c k v l r) ≡ go_to_node_with_key key l
  unfolding go_to_node_with_key
  go_left key c k v l r e b = rw (e, b, go_to_node_with_key) refl

  go_right :
      (key : K) (c : T) (k : K) (v : V) (l r : Tree T K V)
      → o.same key k ≡ false
      → o.less key k ≡ false
      → go_to_node_with_key key (node c k v l r) ≡ go_to_node_with_key key r
  unfolding go_to_node_with_key
  go_right key c k v l r e b = rw (e, b, go_to_node_with_key) refl

  -- After a write through the node with the key the key has the value, and the others what they had.
  assign-there :
      (key : K) (value old : V) (t : Tree T K V)
      → go_to_node_with_key key t ≡ some old
      → go_to_node_with_key key (assign key value t) ≡ some value
  unfolding assign go_to_node_with_key
  assign-there key value old leaf h = absurd (ground arith)
  assign-there key value old (node c k v l r) h = elim (Bool-cases (o.same key k)) [
    | inl e ↦ rw (e, assign, e, go_to_node_with_key) refl
    | inr e ↦ elim (Bool-cases (o.less key k)) [
      | inl b ↦
          let h' : go_to_node_with_key key l ≡ some old = sym (go_left key c k v l r e b) ∙ h in
          rw (e, b, assign, e, b, go_to_node_with_key) (assign-there key value old l h')
      | inr b ↦
          let h' : go_to_node_with_key key r ≡ some old = sym (go_right key c k v l r e b) ∙ h in
          rw (e, b, assign, e, b, go_to_node_with_key) (assign-there key value old r h')
    ]
  ]

  assign-others :
      (key k' : K) (value : V) (t : Tree T K V)
      → o.same k' key ≡ false
      → go_to_node_with_key k' (assign key value t) ≡ go_to_node_with_key k' t
  unfolding assign go_to_node_with_key
  assign-others key k' value leaf h = refl
  assign-others key k' value (node c k v l r) h = elim (Bool-cases (o.same key k)) [
    | inl e ↦
        let f : o.same k' k ≡ false = subst (λ x. o.same k' x ≡ false) (o.same_sound key k e) h in
        rw (e, assign, f, go_to_node_with_key) refl
    | inr e ↦ elim (Bool-cases (o.less key k)) [
      | inl b ↦
          rw (e, b, assign)
            (ap
              (λ x. elim (o.same k' k) [
                | true ↦ some v
                | false ↦ elim (o.less k' k) [ true ↦ x | false ↦ go_to_node_with_key k' r ]
              ])
              (assign-others key k' value l h))
      | inr b ↦
          rw (e, b, assign)
            (ap
              (λ x. elim (o.same k' k) [
                | true ↦ some v
                | false ↦ elim (o.less k' k) [ true ↦ go_to_node_with_key k' l | false ↦ x ]
              ])
              (assign-others key k' value r h))
    ]
  ]

  pub go_to-lookup :
      (key : K) (t : Tree T K V)
      → Rising (in_order t)
      → go_to_node_with_key key t ≡ lookup key (in_order t)
  go_to-lookup key t h =
      Finds-lookup key (in_order t) (go_to_node_with_key key t) h
        (go_to_node_with_key-Finds key t (Rising-Sorted (in_order t) h))

module _ {τ ℓ κ} {T : Type τ} {K : Type ℓ} {V : Type κ} ⦃o : Keys K⦄ (d : Derived T K V) where
  -- A tree of the form, with rising keys.
  pub record IsMap (t : Tree T K V) : Type ℓ where
    pub form : d.HasForm t
    pub rising : Rising (in_order t)

  -- What `insert_or_assign` leaves.
  pub record Assigns (t : Container T K V) (key : K) (value : V) : Type (τ ⊔ ℓ ⊔ κ) where
    pub result : Container T K V
    pub ends : insert_or_assign d.post_insert d.tag t key value ≡ some result
    pub valid : IsMap result.top
    pub at_key : go_to_node_with_key key result.top ≡ some value
    pub others :
        (k : K)
        → o.same k key ≡ false
        → go_to_node_with_key k result.top ≡ go_to_node_with_key k t.top

  pub insert_or_assign-Assigns :
      (t : Container T K V) (key : K) (value : V) → IsMap t.top → Assigns t key value
  unfolding insert_or_assign
  insert_or_assign-Assigns t key value v = elim (Option-cases (go_to_node_with_key key t.top)) [
    | inl e ↦
        let xs = in_order t.top in
        let sorted = Rising-Sorted xs v.rising in
        let one = insert-Inserts d t key value (record { form = v.form; sorted = sorted }) in
        let lacks =
          Finds-none key xs (go_to_node_with_key key t.top)
            (go_to_node_with_key-Finds key t.top sorted) e in
        let rising : Rising (in_order one.result.top) =
          subst Rising (sym one.pairs) (put-Rising key value xs lacks v.rising) in
        record {
          result = one.result;
          ends = rw (e, insert_or_assign) one.ends;
          valid = record { form = one.valid.form; rising = rising };
          at_key =
              go_to-lookup key one.result.top rising
              ∙ ap (lookup key) one.pairs
              ∙ lookup-put_same key value xs lacks;
          others = λ k ne.
              go_to-lookup k one.result.top rising
              ∙ ap (lookup k) one.pairs
              ∙ lookup-put_other k key value xs ne
              ∙ sym (go_to-lookup k t.top v.rising);
        }
    | inr (old, e) ↦ record {
      result = record t { top = assign key value t.top };
      ends = rw (e, insert_or_assign) refl;
      valid = record {
        form = d.assigns t.top key value v.form;
        rising =
            Rising-SameKeys (in_order t.top) (in_order (assign key value t.top))
              (assign-SameKeys key value t.top) v.rising;
      };
      at_key = assign-there key value old t.top e;
      others = λ k ne. assign-others key k value t.top ne;
    }
  ]
