-- ===== src/Avl/Valid.antt =====
-- lib/avltree.c, lib/avltree.h: the invariant of `struct AVLTree`, kept by every operation, and the operations
-- as operations on the sorted sequence of values.
use libvarlink.Prelude.{
  ◌+◌, ◌-◌, ◌≡◌, refl, sym, ap, ◌∙◌, List, [], ◌∷◌, ◌++◌, Option, none, some, Result, ok, err,
  ◌>>=◌, map_ok, OnOk, arith, append-nil, append_assoc, length,
}
use libvarlink.KeyOrder.{KeyOrder}
use libvarlink.Avl.{
  AvlError, unknown_key, Tree, AvlTree, Position, height, avl_tree_new, avl_tree_insert_subtree,
  avl_tree_insert, find_from, avl_tree_find_node, avl_tree_find, take_out, avl_tree_remove,
}
use libvarlink.Avl.InOrder.{to_list, before, after}
use libvarlink.Avl.Balance.{IsBalanced}
use libvarlink.Avl.Spec.{
  AllBelow, IsSorted, IsSorted-split, insert_sorted, find_sorted, remove_sorted,
  remove_sorted_there, remove_sorted-Absent, find_sorted_there, find_sorted-Absent,
}
use libvarlink.Avl.Insert.{Grown, insert_subtree-Grown}
use libvarlink.Avl.Find.{
  SomeAround, SomeBalancedAt, Reached, find_from-Reached, find_from-around, find_from-IsBalancedAt,
}
use libvarlink.Avl.Remove.{take_out-IsBalanced, to_list-take_out}
use libvarlink.Avl.Refinement.{to_list-insert_subtree}
use libvarlink.Avl.Sorted.{
  insert_sorted-IsSorted, remove_sorted-IsSorted, length-insert_sorted, length-remove_sorted,
}

module _ {ℓ κ} {K : Type κ} {V : Type ℓ} ⦃o : KeyOrder K⦄ (key : V → K) where
  abbrev pub values : AvlTree V → List V
  values tree = to_list tree.root

  pub record IsValid (tree : AvlTree V) : Type 0 where
    pub balanced : IsBalanced tree.root
    pub sorted : IsSorted key (values tree)
    pub counted : tree.n_elements ≡ length (values tree)

  pub new-IsValid : IsValid avl_tree_new
  unfolding avl_tree_new
  new-IsValid = record { balanced = tt; sorted = tt; counted = refl }

  -- Insertion into a valid tree is insertion into its sorted sequence, errors included.
  pub values-insert :
      (tree : AvlTree V) (k : K) (v : V)
      → IsValid tree
      → map_ok values (avl_tree_insert key tree k v) ≡ insert_sorted key k v (values tree)
  unfolding avl_tree_insert
  values-insert tree k v h =
      map_ok-bind (avl_tree_insert_subtree key k v tree.root)
      ∙ to_list-insert_subtree key k v tree.root h.sorted
    where
      map_ok-bind :
          (x : Result AvlError (Tree V))
          → map_ok values
              (x >>= λ root. ok (record { root = root; n_elements = tree.n_elements + 1 }))
            ≡ map_ok to_list x
      map_ok-bind (ok t) = refl
      map_ok-bind (err e) = refl

  -- An insertion into a valid tree, under the key of the value, leaves a valid tree where it succeeds: balanced, with
  -- the right heights, sorted by key, and with the right count.
  pub insert-IsValid :
      (tree : AvlTree V) (k : K) (v : V)
      → key v ≡ k
      → IsValid tree
      → OnOk IsValid (avl_tree_insert key tree k v)
  unfolding avl_tree_insert
  insert-IsValid tree k v same h =
      go (avl_tree_insert_subtree key k v tree.root)
        (insert_subtree-Grown key k v tree.root h.balanced)
        (rw (← to_list-insert_subtree key k v tree.root h.sorted) at
          (insert_sorted-IsSorted key k v (values tree) same h.sorted))
        (rw (← to_list-insert_subtree key k v tree.root h.sorted) at
          (length-insert_sorted key k v (values tree)))
    where
      go :
          (x : Result AvlError (Tree V))
          → Grown (height tree.root) x
          → OnOk (IsSorted key) (map_ok to_list x)
          → OnOk (λ ys. length ys ≡ length (values tree) + 1) (map_ok to_list x)
          → OnOk IsValid
              (x >>= λ root. ok (record { root = root; n_elements = tree.n_elements + 1 }))
      go (err e) g s n = tt
      go (ok t) g s n = record { balanced = g.0; sorted = s; counted = omega (arith, h.counted) }

  -- The sequence splits at the position found.
  split_at :
      (tree : AvlTree V) (p : Position V)
      → SomeAround (values tree ++ []) (some p)
      → values tree
        ≡ (before p.parents ++ to_list p.left) ++ p.value ∷ (to_list p.right ++ after p.parents)
  split_at tree p w = sym (append-nil (values tree)) ∙ sym w ∙ simp append_assoc

  below_found :
      (tree : AvlTree V) (p : Position V)
      → IsSorted key (values tree)
      → SomeAround (values tree ++ []) (some p)
      → AllBelow key (key p.value) (before p.parents ++ to_list p.left)
  below_found tree p s w =
      (IsSorted-split key (before p.parents ++ to_list p.left) p.value
        (to_list p.right ++ after p.parents) (rw (split_at tree p w) at s)).1

  find-found :
      (tree : AvlTree V) (k : K) (x : Option (Position V))
      → IsSorted key (values tree)
      → Reached key k tree.root x
      → SomeAround (values tree ++ []) x
      → (elim x [ none ↦ none | some p ↦ some p.value ]) ≡ find_sorted key k (values tree)
  find-found tree k none s a w = sym (find_sorted-Absent key k (values tree) a)
  find-found tree k (some p) s a w = rw (split_at tree p w) (
      sym (
        find_sorted_there key k (before p.parents ++ to_list p.left) p.value _
          (below_found tree p s w) a))

  -- What the search finds in a valid tree is what a search of the sequence finds.
  pub find-values :
      (tree : AvlTree V) (k : K)
      → IsValid tree
      → avl_tree_find key tree k ≡ find_sorted key k (values tree)
  unfolding avl_tree_find avl_tree_find_node
  find-values tree k h =
      find-found tree k _ h.sorted (find_from-Reached key k tree.root [] h.sorted)
        (find_from-around key k tree.root [])

  abbrev removed : AvlTree V → Option (Position V) → Result AvlError (AvlTree V)
  removed tree none = err unknown_key
  removed tree (some p) = ok (record { root = take_out p; n_elements = tree.n_elements - 1 })

  values-removed :
      (tree : AvlTree V) (k : K) (x : Option (Position V))
      → IsSorted key (values tree)
      → Reached key k tree.root x
      → SomeAround (values tree ++ []) x
      → SomeBalancedAt x
      → map_ok values (removed tree x) ≡ remove_sorted key k (values tree)
  values-removed tree k none s a w b = sym (remove_sorted-Absent key k (values tree) a)
  values-removed tree k (some p) s a w b =
      rw (to_list-take_out p b, split_at tree p w)
        (ap ok (sym (simp append_assoc))
          ∙ sym (
              remove_sorted_there key k (before p.parents ++ to_list p.left) p.value _
                (below_found tree p s w) a))

  -- Removal from a valid tree is removal from its sorted sequence, the unknown key included.
  pub values-remove :
      (tree : AvlTree V) (k : K)
      → IsValid tree
      → map_ok values (avl_tree_remove key tree k) ≡ remove_sorted key k (values tree)
  unfolding avl_tree_remove avl_tree_find_node
  values-remove tree k h =
      go (find_from key k tree.root []) (find_from-Reached key k tree.root [] h.sorted)
        (find_from-around key k tree.root [])
        (find_from-IsBalancedAt key k tree.root [] h.balanced tt)
    where
      go :
          (x : Option (Position V))
          → Reached key k tree.root x
          → SomeAround (values tree ++ []) x
          → SomeBalancedAt x
          → map_ok values (elim x [
            | none ↦ err unknown_key
            | some p ↦ ok (record { root = take_out p; n_elements = tree.n_elements - 1 })
          ])
            ≡ remove_sorted key k (values tree)
      go none a w b = values-removed tree k none h.sorted a w b
      go (some p) a w b = values-removed tree k (some p) h.sorted a w b

  removed-IsValid :
      (tree : AvlTree V) (k : K) (x : Option (Position V))
      → IsValid tree
      → SomeBalancedAt x
      → OnOk (IsSorted key) (map_ok values (removed tree x))
      → OnOk (λ ys. length ys + 1 ≡ length (values tree)) (map_ok values (removed tree x))
      → OnOk IsValid (removed tree x)
  removed-IsValid tree k none h b s n = tt
  removed-IsValid tree k (some p) h b s n = record {
    balanced = take_out-IsBalanced p b;
    sorted = s;
    counted = omega (arith, h.counted, n);
  }

  -- A removal from a valid tree leaves a valid tree where it succeeds: balanced, with the right heights, sorted by
  -- key, and with the right count.
  pub remove-IsValid :
      (tree : AvlTree V) (k : K) → IsValid tree → OnOk IsValid (avl_tree_remove key tree k)
  unfolding avl_tree_remove avl_tree_find_node
  remove-IsValid tree k h =
      go (find_from key k tree.root []) (find_from-Reached key k tree.root [] h.sorted)
        (find_from-around key k tree.root [])
        (find_from-IsBalancedAt key k tree.root [] h.balanced tt)
    where
      go :
          (x : Option (Position V))
          → Reached key k tree.root x
          → SomeAround (values tree ++ []) x
          → SomeBalancedAt x
          → OnOk IsValid (elim x [
            | none ↦ err unknown_key
            | some p ↦ ok (record { root = take_out p; n_elements = tree.n_elements - 1 })
          ])
      go none a w b = tt
      go (some p) a w b =
          let same = values-removed tree k (some p) h.sorted a w b in
          removed-IsValid tree k (some p) h b
            (rw (← same) at (remove_sorted-IsSorted key k (values tree) h.sorted))
            (rw (← same) at (length-remove_sorted key k (values tree)))
