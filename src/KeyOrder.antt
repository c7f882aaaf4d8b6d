-- ===== src/KeyOrder.antt =====
-- The order of the keys that a compare function of lib/avltree.h induces. The sign of the
-- `long` that the function returns is an `Ordering`.
use Prim.Native.Nat.{compare, Ordering}
use Prim.Native.Nat.Ordering.{lt, eq, gt}
use libvarlink.Prelude.{ℕ, ◌≡◌, List, [], ◌∷◌, arith, refl}

pub record KeyOrder {ℓ} (K : Type ℓ) : Type ℓ where
  pub cmp : K → K → Ordering
  pub lt_trans : (j k l : K) → cmp j k ≡ lt → cmp k l ≡ lt → cmp j l ≡ lt
  pub lt_of_gt : (j k : K) → cmp j k ≡ gt → cmp k j ≡ lt
  pub eq_of_cmp : (j k : K) → cmp j k ≡ eq → j ≡ k
  pub gt_of_lt : (j k : K) → cmp j k ≡ lt → cmp k j ≡ gt
  pub cmp_refl : (k : K) → cmp k k ≡ eq

-- One key stands in front of another.
infix 50 ◌≺◌
abbrev pub ◌≺◌ {ℓ} : {K : Type ℓ} ⦃order : KeyOrder K⦄ → K → K → Type 0
◌≺◌ ⦃order⦄ j k = order.cmp j k ≡ lt

-- `avl_tree_ptr_compare`: keys and values are pointers, that is, numbers.
unfoldable pub avl_tree_ptr_compare : ℕ → ℕ → Ordering
avl_tree_ptr_compare key value = compare key value

pub ptr_refl : (a : ℕ) → avl_tree_ptr_compare a a ≡ eq
unfolding avl_tree_ptr_compare
ptr_refl a = ground arith

pub ptr_eq : (a b : ℕ) → avl_tree_ptr_compare a b ≡ eq → a ≡ b
unfolding avl_tree_ptr_compare
ptr_eq a b = ground arith

pub ptr_flip_gt : (a b : ℕ) → avl_tree_ptr_compare a b ≡ gt → avl_tree_ptr_compare b a ≡ lt
unfolding avl_tree_ptr_compare
ptr_flip_gt a b = ground arith

pub ptr_flip_lt : (a b : ℕ) → avl_tree_ptr_compare a b ≡ lt → avl_tree_ptr_compare b a ≡ gt
unfolding avl_tree_ptr_compare
ptr_flip_lt a b = ground arith

pub ptr_trans :
    (a b c : ℕ)
    → avl_tree_ptr_compare a b ≡ lt
    → avl_tree_ptr_compare b c ≡ lt
    → avl_tree_ptr_compare a c ≡ lt
unfolding avl_tree_ptr_compare
ptr_trans a b c = ground arith

instance abbrev pub ptr_order : KeyOrder ℕ
ptr_order = record {
  cmp = avl_tree_ptr_compare;
  cmp_refl = ptr_refl;
  eq_of_cmp = ptr_eq;
  lt_of_gt = ptr_flip_gt;
  gt_of_lt = ptr_flip_lt;
  lt_trans = ptr_trans;
}

-- `strcmp` on byte strings without their final NUL, as the sign of its result.
unfoldable pub strcmp : List ℕ → List ℕ → Ordering
strcmp [] [] = eq
strcmp [] (y ∷ ys) = lt
strcmp (x ∷ xs) [] = gt
strcmp (x ∷ xs) (y ∷ ys) = elim (compare x y) [ lt ↦ lt | gt ↦ gt | eq ↦ strcmp xs ys ]

pub strcmp_refl : (a : List ℕ) → strcmp a a ≡ eq
unfolding strcmp
strcmp_refl [] = refl
strcmp_refl (x ∷ xs) = ground (arith, strcmp_refl xs)

pub strcmp-eq : (a b : List ℕ) → strcmp a b ≡ eq → a ≡ b
unfolding strcmp
strcmp-eq (x ∷ xs) (y ∷ ys) = ground (arith, strcmp-eq xs ys)
strcmp-eq _ _ = ground arith

pub strcmp_flip_gt : (a b : List ℕ) → strcmp a b ≡ gt → strcmp b a ≡ lt
unfolding strcmp
strcmp_flip_gt (x ∷ xs) (y ∷ ys) = ground (arith, strcmp_flip_gt xs ys)
strcmp_flip_gt _ _ = ground arith

pub strcmp_flip_lt : (a b : List ℕ) → strcmp a b ≡ lt → strcmp b a ≡ gt
unfolding strcmp
strcmp_flip_lt (x ∷ xs) (y ∷ ys) = ground (arith, strcmp_flip_lt xs ys)
strcmp_flip_lt _ _ = ground arith

pub strcmp_trans : (a b c : List ℕ) → strcmp a b ≡ lt → strcmp b c ≡ lt → strcmp a c ≡ lt
unfolding strcmp
strcmp_trans (x ∷ xs) (y ∷ ys) (z ∷ zs) = ground (arith, strcmp_trans xs ys zs)
strcmp_trans _ _ _ = ground arith

instance abbrev pub string_order : KeyOrder (List ℕ)
string_order = record {
  cmp = strcmp;
  cmp_refl = strcmp_refl;
  eq_of_cmp = strcmp-eq;
  lt_of_gt = strcmp_flip_gt;
  gt_of_lt = strcmp_flip_lt;
  lt_trans = strcmp_trans;
}
