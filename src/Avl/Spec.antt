-- ===== src/Avl/Spec.antt =====
-- What lib/avltree.h promises: a sequence of values sorted by key, with no key twice.
use Prim.Native.Nat.Ordering.{lt, eq, gt}
use libvarlink.Prelude.{
  ◌≡◌, refl, inl, inr, List, [], ◌∷◌, ◌++◌, Option, none, some, Result, ok, err, map_ok, All,
  All-imp, All-split, Ordering-cases,
}
use libvarlink.KeyOrder.{KeyOrder, ◌≺◌}
use libvarlink.Avl.{AvlError, key_exists, unknown_key}

module _ {ℓ κ} {K : Type κ} {V : Type ℓ} ⦃o : KeyOrder K⦄ (key : V → K) where
  abbrev pub AllBelow : K → List V → Type 0
  AllBelow k = All (λ v. key v ≺ k)

  abbrev pub AllAbove : K → List V → Type 0
  AllAbove k = All (λ v. k ≺ key v)

  abbrev pub IsSorted : List V → Type 0
  IsSorted [] = Unit
  IsSorted (x ∷ xs) = AllAbove (key x) xs × IsSorted xs

  abbrev pub insert_sorted : K → V → List V → Result AvlError (List V)
  insert_sorted k v [] = ok (v ∷ [])
  insert_sorted k v (x ∷ xs) = elim (o.cmp k (key x)) [
    | lt ↦ ok (v ∷ x ∷ xs)
    | eq ↦ err key_exists
    | gt ↦ map_ok (λ l. x ∷ l) (insert_sorted k v xs)
  ]

  abbrev pub find_sorted : K → List V → Option V
  find_sorted k [] = none
  find_sorted k (x ∷ xs) = elim (o.cmp k (key x)) [ eq ↦ some x | _ ↦ find_sorted k xs ]

  abbrev pub remove_sorted : K → List V → Result AvlError (List V)
  remove_sorted k [] = err unknown_key
  remove_sorted k (x ∷ xs) = elim (o.cmp k (key x)) [
    | eq ↦ ok xs
    | _ ↦ map_ok (λ l. x ∷ l) (remove_sorted k xs)
  ]

  pub IsSorted-split :
      (xs : List V) (w : V) (ys : List V)
      → IsSorted (xs ++ w ∷ ys)
      → IsSorted xs × AllBelow (key w) xs × AllAbove (key w) ys × IsSorted ys
  IsSorted-split [] w ys s = (tt, tt, s.0, s.1)
  IsSorted-split (x ∷ xs) w ys s =
      let (sx, below, above, sy) = IsSorted-split xs w ys s.1 in
      let (ax, rest) = All-split (λ v. key x ≺ key v) xs (w ∷ ys) s.0 in
      ((ax, sx), (rest.0, below), above, sy)

  -- A key that stands after `w` also stands after all that `w` follows.
  gt_of_below : (k : K) (x w : V) → key x ≺ key w → o.cmp k (key w) ≡ gt → o.cmp k (key x) ≡ gt
  gt_of_below k x w h e =
      o.gt_of_lt (key x) k (o.lt_trans (key x) (key w) k h (o.lt_of_gt k (key w) e))

  gt_of_below_eq : (k : K) (x w : V) → key x ≺ key w → o.cmp k (key w) ≡ eq → o.cmp k (key x) ≡ gt
  gt_of_below_eq k x w h e = rw (o.eq_of_cmp k (key w) e) (o.gt_of_lt (key x) (key w) h)

  pub insert_sorted_left :
      (k : K) (v : V) (xs : List V) (w : V) (ys : List V)
      → o.cmp k (key w) ≡ lt
      → insert_sorted k v (xs ++ w ∷ ys) ≡ map_ok (λ l. l ++ w ∷ ys) (insert_sorted k v xs)
  insert_sorted_left k v [] w ys e = rw e
  insert_sorted_left k v (x ∷ xs) w ys e = elim (Ordering-cases (o.cmp k (key x))) [
    | inl c ↦ rw (c, insert_sorted)
    | inr (inl c) ↦ rw (c, insert_sorted)
    | inr (inr c) ↦
        rw (c, insert_sorted, insert_sorted_left k v xs w ys e)
          (map_ok-map_ok (insert_sorted k v xs))
  ]
    where
      map_ok-map_ok :
          (r : Result AvlError (List V))
          → map_ok (λ l. x ∷ l) (map_ok (λ l. l ++ w ∷ ys) r)
            ≡ map_ok (λ l. l ++ w ∷ ys) (map_ok (λ l. x ∷ l) r)
      map_ok-map_ok (ok a) = refl
      map_ok-map_ok (err a) = refl

  pub insert_sorted_right :
      (k : K) (v : V) (xs : List V) (w : V) (ys : List V)
      → AllBelow (key w) xs
      → o.cmp k (key w) ≡ gt
      → insert_sorted k v (xs ++ w ∷ ys) ≡ map_ok (λ l. xs ++ w ∷ l) (insert_sorted k v ys)
  insert_sorted_right k v [] w ys b e = rw e
  insert_sorted_right k v (x ∷ xs) w ys b e =
      rw (gt_of_below k x w b.0 e, insert_sorted_right k v xs w ys b.1 e)
        (map_ok-map_ok (insert_sorted k v ys))
    where
      map_ok-map_ok :
          (r : Result AvlError (List V))
          → map_ok (λ l. x ∷ l) (map_ok (λ l. xs ++ w ∷ l) r) ≡ map_ok (λ l. x ∷ (xs ++ w ∷ l)) r
      map_ok-map_ok (ok a) = refl
      map_ok-map_ok (err a) = refl

  pub insert_sorted_there :
      (k : K) (v : V) (xs : List V) (w : V) (ys : List V)
      → AllBelow (key w) xs
      → o.cmp k (key w) ≡ eq
      → insert_sorted k v (xs ++ w ∷ ys) ≡ err key_exists
  insert_sorted_there k v [] w ys b e = rw e
  insert_sorted_there k v (x ∷ xs) w ys b e =
      rw (gt_of_below_eq k x w b.0 e, insert_sorted_there k v xs w ys b.1 e)

  pub remove_sorted_there :
      (k : K) (xs : List V) (w : V) (ys : List V)
      → AllBelow (key w) xs
      → o.cmp k (key w) ≡ eq
      → remove_sorted k (xs ++ w ∷ ys) ≡ ok (xs ++ ys)
  remove_sorted_there k [] w ys b e = rw e
  remove_sorted_there k (x ∷ xs) w ys b e =
      rw (gt_of_below_eq k x w b.0 e, remove_sorted_there k xs w ys b.1 e)

  pub find_sorted_there :
      (k : K) (xs : List V) (w : V) (ys : List V)
      → AllBelow (key w) xs
      → o.cmp k (key w) ≡ eq
      → find_sorted k (xs ++ w ∷ ys) ≡ some w
  find_sorted_there k [] w ys b e = rw e
  find_sorted_there k (x ∷ xs) w ys b e =
      rw (gt_of_below_eq k x w b.0 e) (find_sorted_there k xs w ys b.1 e)

  -- No value has the key.
  abbrev pub Absent : K → List V → Type 0
  Absent k = All (λ v. ¬ (o.cmp k (key v) ≡ eq))

  pub Absent-below :
      (k : K) (w : V) (xs : List V) → AllBelow (key w) xs → o.cmp k (key w) ≡ gt → Absent k xs
  Absent-below k w xs b e = All-imp (λ x h p. cc (gt_of_below k x w h e)) xs b

  pub Absent-above :
      (k : K) (w : V) (ys : List V) → AllAbove (key w) ys → o.cmp k (key w) ≡ lt → Absent k ys
  Absent-above k w ys b e = All-imp (λ y h p. cc (o.lt_trans k (key w) (key y) e h)) ys b

  pub find_sorted-Absent : (k : K) (xs : List V) → Absent k xs → find_sorted k xs ≡ none
  find_sorted-Absent k [] a = refl
  find_sorted-Absent k (x ∷ xs) a = elim (Ordering-cases (o.cmp k (key x))) [
    | inl c ↦ rw (c, find_sorted) (find_sorted-Absent k xs a.1)
    | inr (inl c) ↦ absurd (a.0 c)
    | inr (inr c) ↦ rw (c, find_sorted) (find_sorted-Absent k xs a.1)
  ]

  pub remove_sorted-Absent :
      (k : K) (xs : List V) → Absent k xs → remove_sorted k xs ≡ err unknown_key
  remove_sorted-Absent k [] a = refl
  remove_sorted-Absent k (x ∷ xs) a = elim (Ordering-cases (o.cmp k (key x))) [
    | inl c ↦ rw (c, remove_sorted, remove_sorted-Absent k xs a.1)
    | inr (inl c) ↦ absurd (a.0 c)
    | inr (inr c) ↦ rw (c, remove_sorted, remove_sorted-Absent k xs a.1)
  ]
