-- ===== src/Avl/Find.antt =====
-- lib/avltree.c: the node that `avl_tree_find_node` reaches.
use Prim.Native.Nat.Ordering.{lt, eq, gt}
use libvarlink.Prelude.{
  ℕ, ◌≡◌, inl, inr, List, ◌∷◌, ◌++◌, Option, none, some, append_assoc, Ordering-cases, All-append,
}
use libvarlink.KeyOrder.{KeyOrder}
use libvarlink.Avl.{
  Tree, leaf, node, Frame, left_of, right_of, Position, height, find_from, rightmost,
}
use libvarlink.Avl.InOrder.{to_list, before, after, around}
use libvarlink.Avl.Balance.{IsBalanced, Fits}
use libvarlink.Avl.Spec.{IsSorted, IsSorted-split, Absent, Absent-below, Absent-above}

-- The node at a position is balanced and fits under its parents.
abbrev pub IsBalancedAt {ℓ} : {V : Type ℓ} → Position V → Type 0
IsBalancedAt p = IsBalanced (node p.left p.value p.height p.right) × Fits p.parents p.height

abbrev pub SomeBalancedAt {ℓ} : {V : Type ℓ} → Option (Position V) → Type 0
SomeBalancedAt none = Unit
SomeBalancedAt (some p) = IsBalancedAt p

abbrev pub SomeAround {ℓ} : {V : Type ℓ} → List V → Option (Position V) → Type ℓ
SomeAround vs none = Unit
SomeAround vs (some p) = around p ≡ vs

pub rightmost-IsBalancedAt {ℓ} :
    {V : Type ℓ} (l : Tree V) (v : V) (h : ℕ) (r : Tree V) (ps : List (Frame V))
    → IsBalanced (node l v h r)
    → Fits ps h
    → IsBalancedAt (rightmost l v h r ps)
unfolding rightmost
rightmost-IsBalancedAt l v h leaf ps b f = (b, f)
rightmost-IsBalancedAt l v h (node rl rv rh rr) ps b f =
    rightmost-IsBalancedAt rl rv rh rr (right_of l v h ∷ ps) b.1 (b.0, b.2, b.4, b.3, f)

module _ {ℓ κ} {K : Type κ} {V : Type ℓ} ⦃o : KeyOrder K⦄ (key : V → K) where
  -- The node found has the key; where none is found, no value of the subtree has it.
  abbrev pub Reached : K → Tree V → Option (Position V) → Type 0
  Reached k t none = Absent key k (to_list t)
  Reached k t (some p) = o.cmp k (key p.value) ≡ eq

  Reached-left :
      (k : K) (l : Tree V) (v : V) (h : ℕ) (r : Tree V) (x : Option (Position V))
      → IsSorted key (to_list (node l v h r))
      → o.cmp k (key v) ≡ lt
      → Reached k l x
      → Reached k (node l v h r) x
  Reached-left k l v h r none s e a =
      let parts = IsSorted-split key (to_list l) v (to_list r) s in
      All-append _ (to_list l) (v ∷ to_list r) a
        ((λ c. cc), Absent-above key k v (to_list r) parts.2 e)
  Reached-left k l v h r (some p) s e a = a

  Reached-right :
      (k : K) (l : Tree V) (v : V) (h : ℕ) (r : Tree V) (x : Option (Position V))
      → IsSorted key (to_list (node l v h r))
      → o.cmp k (key v) ≡ gt
      → Reached k r x
      → Reached k (node l v h r) x
  Reached-right k l v h r none s e a =
      let parts = IsSorted-split key (to_list l) v (to_list r) s in
      All-append _ (to_list l) (v ∷ to_list r) (Absent-below key k v (to_list l) parts.1 e)
        ((λ c. cc), a)
  Reached-right k l v h r (some p) s e a = a

  pub find_from-Reached :
      (k : K) (t : Tree V) (ps : List (Frame V))
      → IsSorted key (to_list t)
      → Reached k t (find_from key k t ps)
  unfolding find_from
  find_from-Reached k leaf ps s = tt
  find_from-Reached k (node l v h r) ps s =
      let parts = IsSorted-split key (to_list l) v (to_list r) s in
      elim (Ordering-cases (o.cmp k (key v))) [
        | inl e ↦
            rw (e, find_from)
              (Reached-left k l v h r _ s e (find_from-Reached k l (left_of v h r ∷ ps) parts.0))
        | inr (inl e) ↦ rw (e, find_from) e
        | inr (inr e) ↦
            rw (e, find_from)
              (Reached-right k l v h r _ s e (find_from-Reached k r (right_of l v h ∷ ps) parts.3))
      ]

  pub find_from-around :
      (k : K) (t : Tree V) (ps : List (Frame V))
      → SomeAround (before ps ++ (to_list t ++ after ps)) (find_from key k t ps)
  unfolding find_from
  find_from-around k leaf ps = tt
  find_from-around k (node l v h r) ps = elim (Ordering-cases (o.cmp k (key v))) [
    | inl e ↦ rw (e, find_from) (simp append_assoc (find_from-around k l (left_of v h r ∷ ps)))
    | inr (inl e) ↦ rw (e, find_from) (simp append_assoc)
    | inr (inr e) ↦
        rw (e, find_from)
          (simp append_assoc (simp append_assoc at (find_from-around k r (right_of l v h ∷ ps))))
  ]

  pub find_from-IsBalancedAt :
      (k : K) (t : Tree V) (ps : List (Frame V))
      → IsBalanced t
      → Fits ps (height t)
      → SomeBalancedAt (find_from key k t ps)
  unfolding find_from
  find_from-IsBalancedAt k leaf ps b f = tt
  find_from-IsBalancedAt k (node l v h r) ps b f = elim (Ordering-cases (o.cmp k (key v))) [
    | inl e ↦
        rw (e, find_from)
          (find_from-IsBalancedAt k l (left_of v h r ∷ ps) b.0 (b.1, b.2, b.3, b.4, f))
    | inr (inl e) ↦ rw (e, find_from) (b, f)
    | inr (inr e) ↦
        rw (e, find_from)
          (find_from-IsBalancedAt k r (right_of l v h ∷ ps) b.1 (b.0, b.2, b.4, b.3, f))
  ]
