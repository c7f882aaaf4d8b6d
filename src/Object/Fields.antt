-- ===== src/Object/Fields.antt =====
-- lib/object.c: the fields of an object as a map from names to values.
use libvarlink.Prelude.{
  ◌≢◌, ℕ, ◌≡◌, refl, ap, ◌∙◌, List, Option, none, some, Result, ok, err, OnOk, Bool, true, false,
  if◌then◌else◌, if_not-true, if_not-false,
}
use libvarlink.KeyOrder.{string_order}
use libvarlink.Error.{VarlinkError, panic, read_only, unknown_field}
use libvarlink.Avl.{
  AvlError, AvlTree, avl_tree_new, avl_tree_insert, avl_tree_find, avl_tree_find_node, find_from,
  avl_tree_remove,
}
use libvarlink.Avl.Sorted.{changed}
use libvarlink.Avl.Valid.{IsValid, new-IsValid, insert-IsValid, remove-IsValid}
use libvarlink.Avl.MapLaws.{
  find-insert, find-remove, InsertOutcome, RemoveOutcome, insert-outcome, remove-outcome,
}
use libvarlink.Value.{VarlinkValue}
use libvarlink.Object.Map.{with_field, with_field-twice, with_field_self, with_field-absent}
use libvarlink.Object.{
  Field, field_name, VarlinkObject, ObjectRun, varlink_object_new, object_add_field,
  object_remove_field, varlink_object_set_null, object_set_field, find_value,
}

by_branch {ℓ} : (b : Bool) {P Q : Type ℓ} → (b ≡ true → P) → (b ≡ false → Q) → if b then P else Q
by_branch true p q = p refl
by_branch false p q = q refl

module _ {ℓ} {F : Type ℓ} where
  abbrev pub IsValidObject : VarlinkObject F → Type 0
  IsValidObject o = IsValid field_name o.fields

  -- The field of a name.
  unfoldable pub look_up : VarlinkObject F → List ℕ → Option (Field F)
  look_up o n = avl_tree_find field_name o.fields n

  -- An object that differs from another one in its fields only, in the way given.
  pub record Becomes (o : VarlinkObject F) (n : List ℕ) (w : Option (Field F))
      (o' : VarlinkObject F) : Type ℓ where
    pub valid : IsValidObject o'
    pub writable : o'.writable ≡ o.writable
    pub found : (j : List ℕ) → look_up o' j ≡ with_field n w (look_up o) j

  not_removed :
      (w : Option (Field F)) (e : AvlError)
      → RemoveOutcome {A = AvlTree (Field F)} w (err e)
      → w ≡ none
  not_removed none e h = refl
  not_removed (some w) e h = elim h [ ]

  not_inserted :
      (w : Option (Field F)) (e : AvlError)
      → InsertOutcome {A = AvlTree (Field F)} w (err e)
      → w ≢ none
  not_inserted none e h = elim h [ ]
  not_inserted (some w) e h = λ same. cc

  removed :
      (o : VarlinkObject F) (n : List ℕ) (x : Result AvlError (AvlTree (Field F)))
      → IsValidObject o
      → OnOk (IsValid field_name) x
      → RemoveOutcome (avl_tree_find field_name o.fields n) x
      → ((j : List ℕ)
          → OnOk
              (λ t.
                avl_tree_find field_name t j
                ≡ changed field_name n none j (avl_tree_find field_name o.fields j))
              x)
      → Becomes o n none
          (elim x [ err e ↦ o | ok t ↦ record { fields = t; writable = o.writable } ])
  unfolding look_up with_field
  removed o n (ok t) h v out f = record { valid = v; writable = refl; found = f }
  removed o n (err e) h v out f = record {
    valid = h;
    writable = refl;
    found = λ j. with_field-absent n (look_up o) j (not_removed _ e out);
  }

  object_remove_field-Becomes :
      (o : VarlinkObject F) (n : List ℕ)
      → IsValidObject o
      → Becomes o n none (object_remove_field o n)
  unfolding object_remove_field
  object_remove_field-Becomes o n h =
      removed o n (avl_tree_remove field_name o.fields n) h (remove-IsValid field_name o.fields n h)
        (remove-outcome field_name o.fields n h) (λ j. find-remove field_name o.fields n j h)

  -- What a call of a setter does: it fails on a read-only object, and otherwise changes the field.
  abbrev pub Sets : VarlinkObject F → List ℕ → Option (Field F) → ObjectRun F → Type ℓ
  Sets o n w r = Becomes o n w r.object × (r.result ≡ ok tt)

  after_insert :
      (o o' : VarlinkObject F) (n : List ℕ) (w : Option (Field F)) (j : List ℕ)
      {x : Option (Field F)}
      → Becomes o n none o'
      → x ≡ changed field_name n w j (look_up o' j)
      → x ≡ with_field n w (with_field n none (look_up o)) j
  unfolding with_field
  after_insert o o' n w j b h = h ∙ ap (changed field_name n w j) (b.found j)

  added :
      (o o' : VarlinkObject F) (n : List ℕ) (w : Field F) (x : Result AvlError (AvlTree (Field F)))
      → Becomes o n none o'
      → OnOk (IsValid field_name) x
      → InsertOutcome (avl_tree_find field_name o'.fields n) x
      → ((j : List ℕ)
          → OnOk
              (λ t.
                avl_tree_find field_name t j
                ≡ changed field_name n (some w) j (avl_tree_find field_name o'.fields j))
              x)
      → Sets o n (some w) (elim x [
        | err e ↦ record { object = o'; result = err panic }
        | ok t ↦ record { object = record { fields = t; writable = o'.writable }; result = ok tt }
      ])
  unfolding look_up
  added o o' n w (ok t) b v out f = (
    record {
      valid = v;
      writable = b.writable;
      found = λ j.
          after_insert o o' n (some w) j b (f j) ∙ with_field-twice n (some w) none (look_up o) j;
    },
    refl,
  )
  added o o' n w (err e) b v out f =
      absurd (not_inserted _ e out (b.found n ∙ with_field_self n none (look_up o)))

  set_field_writable :
      (o : VarlinkObject F) (n : List ℕ) (v : VarlinkValue F)
      → o.writable ≡ true
      → object_set_field o n v ≡ object_add_field (object_remove_field o n) n v
  unfolding object_set_field
  set_field_writable o n v h = if_not-true o.writable _ _ h

  set_null_writable :
      (o : VarlinkObject F) (n : List ℕ)
      → o.writable ≡ true
      → varlink_object_set_null o n ≡ record { object = object_remove_field o n; result = ok tt }
  unfolding varlink_object_set_null
  set_null_writable o n h = if_not-true o.writable _ _ h

  -- A setter other than `varlink_object_set_null`, on an object that is not read-only.
  pub set_field-Sets :
      (o : VarlinkObject F) (n : List ℕ) (v : VarlinkValue F)
      → o.writable ≡ true
      → IsValidObject o
      → Sets o n (some (record { name = n; value = v })) (object_set_field o n v)
  unfolding object_add_field
  set_field-Sets o n v writable h =
      let b = object_remove_field-Becomes o n h in
      let start = object_remove_field o n in
      let f : Field F = record { name = n; value = v } in
      rw (set_field_writable o n v writable) (
        added o start n f (avl_tree_insert field_name start.fields n f) b
          (insert-IsValid field_name start.fields n f refl b.valid)
          (insert-outcome field_name start.fields n f b.valid)
          (λ j. find-insert field_name start.fields n f j refl b.valid))

  -- The spec of every setter on every object: read-only or not.
  abbrev pub SetterSpec : VarlinkObject F → List ℕ → Option (Field F) → ObjectRun F → Type ℓ
  SetterSpec o n w r =
      if o.writable then Sets o n w r else (r ≡ record { object = o; result = err read_only })

  -- A setter of a value other than null fails with `read_only` on a read-only object and leaves it as it was; on any
  -- other valid object it succeeds, leaves the object valid, and sets the field of the name and no other.
  pub set_field-SetterSpec :
      (o : VarlinkObject F) (n : List ℕ) (v : VarlinkValue F)
      → IsValidObject o
      → SetterSpec o n (some (record { name = n; value = v })) (object_set_field o n v)
  unfolding object_set_field
  set_field-SetterSpec o n v h =
      by_branch o.writable (λ w. set_field-Sets o n v w h) (λ r. if_not-false o.writable _ _ r)

  -- `varlink_object_set_null` fails with `read_only` on a read-only object and leaves it as it was; on any other valid
  -- object it succeeds, leaves the object valid, and removes the field of the name and no other.
  pub set_null-SetterSpec :
      (o : VarlinkObject F) (n : List ℕ)
      → IsValidObject o
      → SetterSpec o n none (varlink_object_set_null o n)
  unfolding varlink_object_set_null
  set_null-SetterSpec o n h =
      by_branch o.writable
        (λ w. rw (set_null_writable o n w) (object_remove_field-Becomes o n h, refl))
        (λ r. if_not-false o.writable _ _ r)

  -- What the getters read is the value of the field that the map has.
  abbrev pub value_of : Option (Field F) → Result VarlinkError (VarlinkValue F)
  value_of none = err unknown_field
  value_of (some f) = ok f.value

  pub find_value-look_up :
      (o : VarlinkObject F) (n : List ℕ) → find_value o n ≡ value_of (look_up o n)
  unfolding find_value look_up
  find_value-look_up o n = go (avl_tree_find field_name o.fields n)
    where
      go :
          (x : Option (Field F))
          → (elim x [ none ↦ err unknown_field | some f ↦ ok f.value ]) ≡ value_of x
      go none = refl
      go (some f) = refl

  -- The new object is valid, writable and has no field.
  pub new-Becomes :
      IsValidObject varlink_object_new × ((j : List ℕ) → look_up varlink_object_new j ≡ none)
  unfolding varlink_object_new look_up avl_tree_new avl_tree_find avl_tree_find_node find_from
  new-Becomes = (new-IsValid field_name, λ j. refl)
