-- ===== src/Types/Unique.antt =====
-- lib/type.c: fields whose names differ go into the tree of names one after the other.
use libvarlink.Prelude.{
  ℕ, ◌≡◌, ◌≢◌, refl, ◌∙◌, List, Option, none, some, Result, ok, err, OnOk, inl, inr, Ordering-cases,
}
use libvarlink.KeyOrder.{string_order, strcmp}
use libvarlink.Scanner.{Scanner}
use libvarlink.Avl.{
  AvlError, AvlTree, avl_tree_new, avl_tree_insert, avl_tree_find, avl_tree_find_node, find_from,
}
use libvarlink.Avl.Sorted.{changed}
use libvarlink.Avl.Valid.{IsValid, insert-IsValid}
use libvarlink.Avl.MapLaws.{InsertOutcome, insert-outcome, find-insert}
use libvarlink.Types.{
  Fields, no_fields, bare_field, typed_field, name_key, done, inserted, insert_name,
}

abbrev pub has_name : AvlTree (List ℕ) → List ℕ → Option (List ℕ)
has_name tree name = avl_tree_find name_key tree name

changed_other : (k j : List ℕ) (w old : Option (List ℕ)) → j ≢ k → changed name_key k w j old ≡ old
changed_other k j w old d = elim (Ordering-cases (strcmp j k)) [
  | inl e ↦ rw (e, changed) refl
  | inr (inl e) ↦ absurd (d (string_order.eq_of_cmp j k e))
  | inr (inr e) ↦ rw (e, changed) refl
]

-- What an insertion of a new name leaves.
pub record Grows (tree : AvlTree (List ℕ)) (name : List ℕ) (tree' : AvlTree (List ℕ)) : Type 0 where
  pub valid : IsValid name_key tree'
  pub others : (j : List ℕ) → j ≢ name → has_name tree j ≡ none → has_name tree' j ≡ none

pub insert_name-Grows :
    (s : Scanner) (tree : AvlTree (List ℕ)) (name : List ℕ)
    → IsValid name_key tree
    → has_name tree name ≡ none
    → (tree' : AvlTree (List ℕ)) × (insert_name s tree name ≡ (s, done tree'))
      × Grows tree name tree'
unfolding insert_name
insert_name-Grows s tree name v fresh =
    go (avl_tree_insert name_key tree name name) (insert-IsValid name_key tree name name refl v)
      (rw fresh at (insert-outcome name_key tree name name v))
      (λ j. find-insert name_key tree name name j refl v)
  where
    go :
        (x : Result AvlError (AvlTree (List ℕ)))
        → OnOk (IsValid name_key) x
        → InsertOutcome {V = List ℕ} none x
        → ((j : List ℕ)
            → OnOk
                (λ t.
                  avl_tree_find name_key t j
                  ≡ changed name_key name (some name) j (avl_tree_find name_key tree j))
                x)
        → (tree' : AvlTree (List ℕ)) × (inserted s x ≡ (s, done tree')) × Grows tree name tree'
    go (err e) i o f = absurd o
    go (ok t) i o f = (
      t,
      refl,
      record { valid = i; others = λ j d h. f j ∙ changed_other name j (some name) _ d ∙ h },
    )

-- The name is none of the fields'.
abbrev pub Absent : List ℕ → Fields → Type 0
Absent n no_fields = Unit
Absent n (bare_field m d rest) = (m ≢ n) × Absent n rest
Absent n (typed_field m d t rest) = (m ≢ n) × Absent n rest

-- No field's name is in the tree yet.
abbrev pub Fresh : AvlTree (List ℕ) → Fields → Type 0
Fresh tree no_fields = Unit
Fresh tree (bare_field n d rest) = (has_name tree n ≡ none) × Fresh tree rest
Fresh tree (typed_field n d t rest) = (has_name tree n ≡ none) × Fresh tree rest

pub Grows-Fresh :
    (tree tree' : AvlTree (List ℕ)) (name : List ℕ) (rest : Fields)
    → Grows tree name tree'
    → Absent name rest
    → Fresh tree rest
    → Fresh tree' rest
Grows-Fresh tree tree' name no_fields g a f = tt
Grows-Fresh tree tree' name (bare_field n d rest) g a f =
    (g.others n a.0 f.0, Grows-Fresh tree tree' name rest g a.1 f.1)
Grows-Fresh tree tree' name (typed_field n d t rest) g a f =
    (g.others n a.0 f.0, Grows-Fresh tree tree' name rest g a.1 f.1)

pub new-Fresh : (fs : Fields) → Fresh avl_tree_new fs
unfolding avl_tree_new avl_tree_find avl_tree_find_node find_from
new-Fresh no_fields = tt
new-Fresh (bare_field n d rest) = (refl, new-Fresh rest)
new-Fresh (typed_field n d t rest) = (refl, new-Fresh rest)
