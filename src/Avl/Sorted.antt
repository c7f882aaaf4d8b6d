-- ===== src/Avl/Sorted.antt =====
-- The sequence that lib/avltree.h promises stays sorted, and is a finite map.
use Prim.Native.Nat.Ordering.{eq}
use libvarlink.Prelude.{
  ◌+◌, ◌≡◌, ap, ◌∙◌, inl, inr, List, [], ◌∷◌, Option, none, some, Result, ok, err, map_ok, OnOk,
  arith, length, All, All-imp, Ordering-cases,
}
use libvarlink.KeyOrder.{KeyOrder, ◌≺◌}
use libvarlink.Avl.Spec.{
  AllAbove, IsSorted, insert_sorted, find_sorted, remove_sorted, Absent, find_sorted-Absent,
}

pub OnOk-map {ℓ κ μ ν} :
    {E : Type ℓ} {A B : Type κ} (P : A → Type μ) (Q : B → Type ν) (f : A → B) (r : Result E A)
    → ((a : A) → P a → Q (f a))
    → OnOk P r
    → OnOk Q (map_ok f r)
OnOk-map P Q f (ok a) g h = g a h
OnOk-map P Q f (err e) g h = tt

OnOk-and {ℓ κ} :
    {E : Type ℓ} {A : Type κ} (P Q : A → Type 0) (r : Result E A)
    → OnOk P r
    → OnOk Q r
    → OnOk (λ a. P a × Q a) r
OnOk-and P Q (ok a) h k = (h, k)
OnOk-and P Q (err e) h k = tt

module _ {ℓ κ} {K : Type κ} {V : Type ℓ} ⦃o : KeyOrder K⦄ (key : V → K) where
  insert_sorted-AllAbove :
      (a k : K) (v : V) (xs : List V)
      → a ≺ key v
      → AllAbove key a xs
      → OnOk (AllAbove key a) (insert_sorted key k v xs)
  insert_sorted-AllAbove a k v [] h b = (h, tt)
  insert_sorted-AllAbove a k v (x ∷ xs) h b = elim (Ordering-cases (o.cmp k (key x))) [
    | inl e ↦ rw (e, insert_sorted) (h, b)
    | inr (inl e) ↦ rw (e, insert_sorted) tt
    | inr (inr e) ↦
        rw (e, insert_sorted)
          (OnOk-map (AllAbove key a) (AllAbove key a) _ _ (λ ys p. (b.0, p))
            (insert_sorted-AllAbove a k v xs h b.1))
  ]

  pub insert_sorted-IsSorted :
      (k : K) (v : V) (xs : List V)
      → key v ≡ k
      → IsSorted key xs
      → OnOk (IsSorted key) (insert_sorted key k v xs)
  insert_sorted-IsSorted k v [] same s = (tt, tt)
  insert_sorted-IsSorted k v (x ∷ xs) same s = elim (Ordering-cases (o.cmp k (key x))) [
    | inl e ↦
        let first : key v ≺ key x = rw same e in
        rw (e, insert_sorted)
          ((first, All-imp (λ y p. o.lt_trans (key v) (key x) (key y) first p) xs s.0), s)
    | inr (inl e) ↦ rw (e, insert_sorted) tt
    | inr (inr e) ↦
        let first : key x ≺ key v = rw same (o.lt_of_gt k (key x) e) in
        rw (e, insert_sorted)
          (OnOk-map (λ ys. AllAbove key (key x) ys × IsSorted key ys) (IsSorted key) (λ l. x ∷ l)
            (insert_sorted key k v xs) (λ ys p. p)
            (OnOk-and (AllAbove key (key x)) (IsSorted key) _
              (insert_sorted-AllAbove (key x) k v xs first s.0)
              (insert_sorted-IsSorted k v xs same s.1)))
  ]

  remove_sorted-All {μ} :
      (P : V → Type μ) (k : K) (xs : List V) → All P xs → OnOk (All P) (remove_sorted key k xs)
  remove_sorted-All P k [] h = tt
  remove_sorted-All P k (x ∷ xs) h =
      let rest =
        OnOk-map (All P) (All P) (λ l. x ∷ l) (remove_sorted key k xs) (λ ys p. (h.0, p))
          (remove_sorted-All P k xs h.1) in
      elim (Ordering-cases (o.cmp k (key x))) [
        | inl e ↦ rw (e, remove_sorted) rest
        | inr (inl e) ↦ rw (e, remove_sorted) h.1
        | inr (inr e) ↦ rw (e, remove_sorted) rest
      ]

  pub remove_sorted-IsSorted :
      (k : K) (xs : List V) → IsSorted key xs → OnOk (IsSorted key) (remove_sorted key k xs)
  remove_sorted-IsSorted k [] s = tt
  remove_sorted-IsSorted k (x ∷ xs) s =
      let rest =
        OnOk-map _ (IsSorted key) (λ l. x ∷ l) (remove_sorted key k xs) (λ ys p. p)
          (OnOk-and (AllAbove key (key x)) (IsSorted key) _ (remove_sorted-All _ k xs s.0)
            (remove_sorted-IsSorted k xs s.1)) in
      elim (Ordering-cases (o.cmp k (key x))) [
        | inl e ↦ rw (e, remove_sorted) rest
        | inr (inl e) ↦ rw (e, remove_sorted) s.1
        | inr (inr e) ↦ rw (e, remove_sorted) rest
      ]

  -- One value more, or one less.
  pub length-insert_sorted :
      (k : K) (v : V) (xs : List V)
      → OnOk (λ ys. length ys ≡ length xs + 1) (insert_sorted key k v xs)
  length-insert_sorted k v [] = omega arith
  length-insert_sorted k v (x ∷ xs) = elim (Ordering-cases (o.cmp k (key x))) [
    | inl e ↦ rw (e, insert_sorted) (omega arith)
    | inr (inl e) ↦ rw (e, insert_sorted) tt
    | inr (inr e) ↦
        rw (e, insert_sorted)
          (OnOk-map (λ ys. length ys ≡ length xs + 1) (λ ys. length ys ≡ length (x ∷ xs) + 1) _ _
            (λ ys p. omega arith) (length-insert_sorted k v xs))
  ]

  pub length-remove_sorted :
      (k : K) (xs : List V) → OnOk (λ ys. length ys + 1 ≡ length xs) (remove_sorted key k xs)
  length-remove_sorted k [] = tt
  length-remove_sorted k (x ∷ xs) =
      let rest =
        OnOk-map (λ ys. length ys + 1 ≡ length xs) (λ ys. length ys + 1 ≡ length (x ∷ xs))
          (λ l. x ∷ l) (remove_sorted key k xs) (λ ys p. omega arith) (length-remove_sorted k xs) in
      elim (Ordering-cases (o.cmp k (key x))) [
        | inl e ↦ rw (e, remove_sorted) rest
        | inr (inl e) ↦ rw (e, remove_sorted) (omega arith)
        | inr (inr e) ↦ rw (e, remove_sorted) rest
      ]

  -- The map that sends `k` to `w`, and any other key to what it was sent to.
  abbrev pub changed : K → Option V → K → Option V → Option V
  changed k w j old = elim (o.cmp j k) [ eq ↦ w | _ ↦ old ]

  abbrev pick : K → V → Option V → Option V
  pick j x old = elim (o.cmp j (key x)) [ eq ↦ some x | _ ↦ old ]

  changed-pick :
      (k : K) (w : Option V) (x : V) (j : K) (old : Option V)
      → ¬ (o.cmp k (key x) ≡ eq)
      → pick j x (changed k w j old) ≡ changed k w j (pick j x old)
  changed-pick k w x j old ne = ground (arith, o.eq_of_cmp j k, o.eq_of_cmp j (key x))

  changed-pick_same :
      (k : K) (v x : V) (j : K) (old : Option V)
      → key v ≡ k
      → pick j v old ≡ changed k (some v) j old
  changed-pick_same k v x j old same = rw (← same)

  changed-none :
      (k : K) (x : V) (j : K) (old : Option V)
      → o.cmp k (key x) ≡ eq
      → (o.cmp j k ≡ eq → old ≡ none)
      → old ≡ changed k none j (pick j x old)
  changed-none k x j old e gone = ground (arith, o.eq_of_cmp k (key x))

  -- Looking up what was inserted, any other key, and what was removed.
  pub find-insert_sorted :
      (k : K) (v : V) (xs : List V) (j : K)
      → key v ≡ k
      → OnOk
          (λ ys. find_sorted key j ys ≡ changed k (some v) j (find_sorted key j xs))
          (insert_sorted key k v xs)
  find-insert_sorted k v [] j same = changed-pick_same k v v j none same
  find-insert_sorted k v (x ∷ xs) j same = elim (Ordering-cases (o.cmp k (key x))) [
    | inl e ↦ rw (e, insert_sorted) (changed-pick_same k v x j _ same)
    | inr (inl e) ↦ rw (e, insert_sorted) tt
    | inr (inr e) ↦
        rw (e, insert_sorted)
          (OnOk-map (λ ys. find_sorted key j ys ≡ changed k (some v) j (find_sorted key j xs))
            (λ ys. find_sorted key j ys ≡ changed k (some v) j (find_sorted key j (x ∷ xs))) _ _
            (λ ys p. ap (pick j x) p ∙ changed-pick k (some v) x j (find_sorted key j xs) (λ c. cc))
            (find-insert_sorted k v xs j same))
  ]

  pub find-remove_sorted :
      (k : K) (xs : List V) (j : K)
      → IsSorted key xs
      → OnOk
          (λ ys. find_sorted key j ys ≡ changed k none j (find_sorted key j xs))
          (remove_sorted key k xs)
  find-remove_sorted k [] j s = tt
  find-remove_sorted k (x ∷ xs) j s =
      let rest = λ (ne : ¬ (o.cmp k (key x) ≡ eq)).
        OnOk-map (λ ys. find_sorted key j ys ≡ changed k none j (find_sorted key j xs))
          (λ ys. find_sorted key j ys ≡ changed k none j (find_sorted key j (x ∷ xs))) (λ l. x ∷ l)
          (remove_sorted key k xs)
          (λ ys p. ap (pick j x) p ∙ changed-pick k none x j (find_sorted key j xs) ne)
          (find-remove_sorted k xs j s.1) in
      elim (Ordering-cases (o.cmp k (key x))) [
        | inl e ↦ rw (e, remove_sorted) (rest (λ c. cc))
        | inr (inl e) ↦
            rw (e, remove_sorted)
              (changed-none k x j _ e (λ c. find_sorted-Absent key j xs (absent e c)))
        | inr (inr e) ↦ rw (e, remove_sorted) (rest (λ c. cc))
      ]
    where
      absent : o.cmp k (key x) ≡ eq → o.cmp j k ≡ eq → Absent key j xs
      absent e c =
          All-imp
            (λ y p q. cc (
              o.eq_of_cmp j k c,
              o.eq_of_cmp k (key x) e,
              o.eq_of_cmp j (key y) q,
              p,
              o.cmp_refl (key x),
            ))
            xs s.0
