-- ===== src/Avl/MapLaws.antt =====
-- lib/avltree.h: what a client sees through `avl_tree_find`.
use libvarlink.Prelude.{
  ◌≡◌, refl, sym, ap, ◌∙◌, inl, inr, List, [], ◌∷◌, Option, none, some, Result, ok, err, map_ok,
  OnOk, Ordering-cases,
}
use libvarlink.KeyOrder.{KeyOrder}
use libvarlink.Avl.{
  AvlError, key_exists, unknown_key, AvlTree, avl_tree_insert, avl_tree_find, avl_tree_remove,
}
use libvarlink.Avl.Spec.{
  IsSorted, Absent-above, find_sorted-Absent, insert_sorted, find_sorted, remove_sorted,
}
use libvarlink.Avl.Sorted.{changed, find-insert_sorted, find-remove_sorted}
use libvarlink.Avl.Valid.{
  values, IsValid, values-insert, insert-IsValid, find-values, values-remove, remove-IsValid,
}

-- Which of the two outcomes a call has, by what a search for the key finds before it, and the error.
module _ {ℓ κ} {V : Type ℓ} {A : Type κ} where
  abbrev pub InsertOutcome : Option V → Result AvlError A → Type 0
  InsertOutcome none (ok t) = Unit
  InsertOutcome none (err e) = ⊥
  InsertOutcome (some w) (ok t) = ⊥
  InsertOutcome (some w) (err e) = e ≡ key_exists

  abbrev pub RemoveOutcome : Option V → Result AvlError A → Type 0
  RemoveOutcome none (ok t) = ⊥
  RemoveOutcome none (err e) = e ≡ unknown_key
  RemoveOutcome (some w) (ok t) = Unit
  RemoveOutcome (some w) (err e) = ⊥

module _ {ℓ κ μ} {V : Type ℓ} {A : Type κ} {B : Type μ} where
  InsertOutcome-map_ok :
      (w : Option V) (f : A → B) (r : Result AvlError A)
      → InsertOutcome w r
      → InsertOutcome w (map_ok f r)
  InsertOutcome-map_ok none f (ok a) h = h
  InsertOutcome-map_ok none f (err e) h = h
  InsertOutcome-map_ok (some w) f (ok a) h = h
  InsertOutcome-map_ok (some w) f (err e) h = h

  InsertOutcome-unmap :
      (w : Option V) (f : A → B) (r : Result AvlError A)
      → InsertOutcome w (map_ok f r)
      → InsertOutcome w r
  InsertOutcome-unmap none f (ok a) h = h
  InsertOutcome-unmap none f (err e) h = h
  InsertOutcome-unmap (some w) f (ok a) h = h
  InsertOutcome-unmap (some w) f (err e) h = h

  RemoveOutcome-map_ok :
      (w : Option V) (f : A → B) (r : Result AvlError A)
      → RemoveOutcome w r
      → RemoveOutcome w (map_ok f r)
  RemoveOutcome-map_ok none f (ok a) h = h
  RemoveOutcome-map_ok none f (err e) h = h
  RemoveOutcome-map_ok (some w) f (ok a) h = h
  RemoveOutcome-map_ok (some w) f (err e) h = h

  RemoveOutcome-unmap :
      (w : Option V) (f : A → B) (r : Result AvlError A)
      → RemoveOutcome w (map_ok f r)
      → RemoveOutcome w r
  RemoveOutcome-unmap none f (ok a) h = h
  RemoveOutcome-unmap none f (err e) h = h
  RemoveOutcome-unmap (some w) f (ok a) h = h
  RemoveOutcome-unmap (some w) f (err e) h = h

module _ {ℓ κ} {K : Type κ} {V : Type ℓ} ⦃o : KeyOrder K⦄ (key : V → K) where
  -- A fact about the sequence of a valid result, read through `avl_tree_find`.
  read_back :
      (tree : AvlTree V) (k j : K) (w : Option V) (x : Result AvlError (AvlTree V))
      → IsValid key tree
      → OnOk (IsValid key) x
      → OnOk
          (λ ys. find_sorted key j ys ≡ changed key k w j (find_sorted key j (values key tree)))
          (map_ok (values key) x)
      → OnOk (λ t. avl_tree_find key t j ≡ changed key k w j (avl_tree_find key tree j)) x
  read_back tree k j w (err e) h v f = tt
  read_back tree k j w (ok t) h v f =
      find-values key t j v ∙ f ∙ ap (changed key k w j) (sym (find-values key tree j h))

  -- After an insertion that succeeds, into a valid tree and under the key of the value, the key is found with the
  -- value, and any other key is found as before.
  pub find-insert :
      (tree : AvlTree V) (k : K) (v : V) (j : K)
      → key v ≡ k
      → IsValid key tree
      → OnOk
          (λ t. avl_tree_find key t j ≡ changed key k (some v) j (avl_tree_find key tree j))
          (avl_tree_insert key tree k v)
  find-insert tree k v j same h =
      read_back tree k j (some v) _ h (insert-IsValid key tree k v same h)
        (rw (values-insert key tree k v h) (find-insert_sorted key k v (values key tree) j same))

  -- After a removal from a valid tree that succeeds, the key is not found, and any other key is found as before.
  pub find-remove :
      (tree : AvlTree V) (k j : K)
      → IsValid key tree
      → OnOk
          (λ t. avl_tree_find key t j ≡ changed key k none j (avl_tree_find key tree j))
          (avl_tree_remove key tree k)
  find-remove tree k j h =
      read_back tree k j none _ h (remove-IsValid key tree k h)
        (rw (values-remove key tree k h) (find-remove_sorted key k (values key tree) j h.sorted))

  insert_sorted-outcome :
      (k : K) (v : V) (xs : List V)
      → IsSorted key xs
      → InsertOutcome (find_sorted key k xs) (insert_sorted key k v xs)
  insert_sorted-outcome k v [] s = tt
  insert_sorted-outcome k v (x ∷ xs) s = elim (Ordering-cases (o.cmp k (key x))) [
    | inl e ↦
        let none = find_sorted-Absent key k xs (Absent-above key k x xs s.0 e) in
        rw (e, insert_sorted, find_sorted, none) tt
    | inr (inl e) ↦ rw (e, insert_sorted, find_sorted) refl
    | inr (inr e) ↦
        rw (e, insert_sorted, find_sorted)
          (InsertOutcome-map_ok _ _ _ (insert_sorted-outcome k v xs s.1))
  ]

  remove_sorted-outcome :
      (k : K) (xs : List V) → RemoveOutcome (find_sorted key k xs) (remove_sorted key k xs)
  remove_sorted-outcome k [] = refl
  remove_sorted-outcome k (x ∷ xs) = elim (Ordering-cases (o.cmp k (key x))) [
    | inl e ↦
        rw (e, remove_sorted, find_sorted) (RemoveOutcome-map_ok _ _ _ (remove_sorted-outcome k xs))
    | inr (inl e) ↦ rw (e, remove_sorted, find_sorted) tt
    | inr (inr e) ↦
        rw (e, remove_sorted, find_sorted) (RemoveOutcome-map_ok _ _ _ (remove_sorted-outcome k xs))
  ]

  -- An insertion into a valid tree fails exactly when a value with the key is found, and then with `key_exists`.
  pub insert-outcome :
      (tree : AvlTree V) (k : K) (v : V)
      → IsValid key tree
      → InsertOutcome (avl_tree_find key tree k) (avl_tree_insert key tree k v)
  insert-outcome tree k v h = InsertOutcome-unmap _ (values key) _ (
      rw (values-insert key tree k v h, find-values key tree k h)
        (insert_sorted-outcome k v (values key tree) h.sorted))

  -- A removal from a valid tree fails exactly when no value with the key is found, and then with `unknown_key`.
  pub remove-outcome :
      (tree : AvlTree V) (k : K)
      → IsValid key tree
      → RemoveOutcome (avl_tree_find key tree k) (avl_tree_remove key tree k)
  remove-outcome tree k h = RemoveOutcome-unmap _ (values key) _ (
      rw (values-remove key tree k h, find-values key tree k h)
        (remove_sorted-outcome k (values key tree)))
