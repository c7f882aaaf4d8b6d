-- ===== src/Avl/Insert.antt =====
-- lib/avltree.c: `avl_tree_insert` keeps the balance, and inserts into the sorted sequence.
use libvarlink.Prelude.{
  ℕ, ◌+◌, ◌≤◌, ◌≡◌, ◌∙◌, inl, inr, Result, ok, err, ◌>>=◌, arith, max, Ordering-cases,
}
use libvarlink.KeyOrder.{KeyOrder}
use libvarlink.Avl.{
  AvlError, Tree, leaf, node, height, node_rebalance, update_height, avl_tree_insert_subtree,
}
use libvarlink.Avl.Balance.{IsBalanced, rebalance_lem}

-- The subtree of height `n` grew by at most one, or the key was there.
abbrev pub Grown {ℓ} : {V : Type ℓ} → ℕ → Result AvlError (Tree V) → Type 0
Grown n (ok t) = IsBalanced t × (n ≤ height t) × (height t ≤ n + 1)
Grown n (err e) = Unit

-- `t` is the new height of a child that had height `n`, `s` its sibling's, `u` the parent's.
grow_height :
    (t n s h u : ℕ)
    → max t s ≤ u
    → u ≤ 1 + max t s
    → ((t ≤ s + 1) × (s ≤ t + 1) → u ≡ 1 + max t s)
    → h ≡ 1 + max n s
    → n ≤ s + 1
    → s ≤ n + 1
    → n ≤ t
    → t ≤ n + 1
    → (h ≤ u) × (u ≤ h + 1)
grow_height t n s h u a b c d e f lo hi = grind arith

module _ {ℓ} {V : Type ℓ} where
  Grown-left :
      (x : Result AvlError (Tree V)) (l : Tree V) (w : V) (h : ℕ) (r : Tree V)
      → IsBalanced (node l w h r)
      → Grown (height l) x
      → Grown h (x >>= λ l'. ok (node_rebalance (update_height l' w r)))
  Grown-left (err e) l w h r b g = tt
  Grown-left (ok t) l w h r b g =
      let up = rebalance_lem t w r g.0 b.1 (omega arith) (omega arith) in
      let fits = grow_height _ (height l) _ h _ up.0.1 up.0.2 up.1 b.2 b.3 b.4 g.1 g.2 in
      (up.0.0, fits.0, fits.1)

  Grown-right :
      (x : Result AvlError (Tree V)) (l : Tree V) (w : V) (h : ℕ) (r : Tree V)
      → IsBalanced (node l w h r)
      → Grown (height r) x
      → Grown h (x >>= λ r'. ok (node_rebalance (update_height l w r')))
  Grown-right (err e) l w h r b g = tt
  Grown-right (ok t) l w h r b g =
      let up = rebalance_lem l w t b.0 g.0 (omega arith) (omega arith) in
      let fits =
        grow_height (height t) (height r) (height l) h _ (omega (arith, up.0.1))
          (omega (arith, up.0.2)) (λ e. up.1 (e.1, e.0) ∙ omega arith) (omega (arith, b.2)) b.4 b.3
          g.1 g.2 in
      (up.0.0, fits.0, fits.1)

module _ {ℓ κ} {K : Type κ} {V : Type ℓ} ⦃o : KeyOrder K⦄ (key : V → K) where
  pub insert_subtree-Grown :
      (k : K) (v : V) (t : Tree V)
      → IsBalanced t
      → Grown (height t) (avl_tree_insert_subtree key k v t)
  unfolding avl_tree_insert_subtree
  insert_subtree-Grown k v leaf b = omega arith
  insert_subtree-Grown k v (node l w h r) b = elim (Ordering-cases (o.cmp k (key w))) [
    | inl e ↦
        rw (e, avl_tree_insert_subtree) (Grown-left _ l w h r b (insert_subtree-Grown k v l b.0))
    | inr (inl e) ↦ rw (e, avl_tree_insert_subtree) tt
    | inr (inr e) ↦
        rw (e, avl_tree_insert_subtree) (Grown-right _ l w h r b (insert_subtree-Grown k v r b.1))
  ]
