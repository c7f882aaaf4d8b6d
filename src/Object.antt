-- ===== src/Object.antt =====
-- lib/object.c: an object is a tree of named fields.
--
-- A field is written after it is inserted; since the insertion does not read the value, it is
-- inserted here with its value. Allocation and `strdup` succeed.
pub mod Map
pub mod Fields
mod Tests
use libvarlink.Prelude.{
  ℕ, List, Bool, true, false, Option, none, some, Result, ok, err, ◌>>=◌, not, if◌then◌else◌,
}
use libvarlink.Prelude.Int.{ℤ}
use libvarlink.KeyOrder.{string_order}
use libvarlink.Error.{VarlinkError, panic, read_only, unknown_field, invalid_type}
use libvarlink.Avl.{
  AvlError, AvlTree, avl_tree_new, avl_tree_insert, avl_tree_find, avl_tree_remove,
}
use libvarlink.Value.{
  VarlinkValue, undefined, null, bool, int, float, string, array, object, bool_of, int_of,
  string_of, array_of, object_of,
}

-- `struct Field`
pub record Field {ℓ} (F : Type ℓ) : Type ℓ where
  pub name : List ℕ
  pub value : VarlinkValue F

-- `field_compare` compares a name with this one.
abbrev pub field_name {ℓ} : {F : Type ℓ} → Field F → List ℕ
field_name f = f.name

-- `struct VarlinkObject`, less its reference count.
pub record VarlinkObject {ℓ} (F : Type ℓ) : Type ℓ where
  pub fields : AvlTree (Field F)
  pub writable : Bool

-- What a call that changes an object leaves of it, and what it returns.
pub record ObjectRun {ℓ} (F : Type ℓ) : Type ℓ where
  pub object : VarlinkObject F
  pub result : Result {0, 0} VarlinkError Unit

unfoldable pub varlink_object_new {ℓ} : {F : Type ℓ} → VarlinkObject F
varlink_object_new = record { fields = avl_tree_new; writable = true }

module _ {ℓ} {F : Type ℓ} where
  unfoldable pub object_add_field : VarlinkObject F → List ℕ → VarlinkValue F → ObjectRun F
  object_add_field o n v =
      elim (avl_tree_insert field_name o.fields n (record { name = n; value = v })) [
        | err e ↦ record { object = o; result = err panic }
        | ok t ↦ record { object = record { fields = t; writable = o.writable }; result = ok tt }
      ]

  -- The result of `avl_tree_remove` is not looked at.
  unfoldable pub object_remove_field : VarlinkObject F → List ℕ → VarlinkObject F
  object_remove_field o n = elim (avl_tree_remove field_name o.fields n) [
    | err e ↦ o
    | ok t ↦ record { fields = t; writable = o.writable }
  ]

  unfoldable pub varlink_object_set_null : VarlinkObject F → List ℕ → ObjectRun F
  varlink_object_set_null o n =
      if not o.writable
      then record { object = o; result = err read_only }
      else record { object = object_remove_field o n; result = ok tt }

  -- What the setters of values other than null share.
  unfoldable pub object_set_field : VarlinkObject F → List ℕ → VarlinkValue F → ObjectRun F
  object_set_field o n v =
      if not o.writable
      then record { object = o; result = err read_only }
      else object_add_field (object_remove_field o n) n v

  abbrev pub varlink_object_set_bool : VarlinkObject F → List ℕ → Bool → ObjectRun F
  varlink_object_set_bool o n b = object_set_field o n (bool b)

  abbrev pub varlink_object_set_int : VarlinkObject F → List ℕ → ℤ → ObjectRun F
  varlink_object_set_int o n i = object_set_field o n (int i)

  abbrev pub varlink_object_set_float : VarlinkObject F → List ℕ → F → ObjectRun F
  varlink_object_set_float o n f = object_set_field o n (float f)

  abbrev pub varlink_object_set_string : VarlinkObject F → List ℕ → List ℕ → ObjectRun F
  varlink_object_set_string o n s = object_set_field o n (string s)

  abbrev pub varlink_object_set_array : VarlinkObject F → List ℕ → ℕ → ObjectRun F
  varlink_object_set_array o n a = object_set_field o n (array a)

  abbrev pub varlink_object_set_object : VarlinkObject F → List ℕ → ℕ → ObjectRun F
  varlink_object_set_object o n a = object_set_field o n (object a)

  -- `avl_tree_find`, and what the getters answer when it returns NULL.
  unfoldable pub find_value : VarlinkObject F → List ℕ → Result VarlinkError (VarlinkValue F)
  find_value o n = elim (avl_tree_find field_name o.fields n) [
    | none ↦ err unknown_field
    | some f ↦ ok f.value
  ]

  abbrev pub varlink_object_get_bool : VarlinkObject F → List ℕ → Result VarlinkError Bool
  varlink_object_get_bool o n = find_value o n >>= bool_of

  abbrev pub varlink_object_get_int : VarlinkObject F → List ℕ → Result VarlinkError ℤ
  varlink_object_get_int o n = find_value o n >>= int_of

  -- An int is converted.
  abbrev pub float_of : (ℤ → F) → VarlinkValue F → Result VarlinkError F
  float_of of_int (int i) = ok (of_int i)
  float_of of_int (float f) = ok f
  float_of of_int _ = err invalid_type

  -- The compiler's conversion of an `int64_t` to a `double` is a parameter.
  abbrev pub varlink_object_get_float : (ℤ → F) → VarlinkObject F → List ℕ → Result VarlinkError F
  varlink_object_get_float of_int o n = find_value o n >>= float_of of_int

  abbrev pub varlink_object_get_string : VarlinkObject F → List ℕ → Result VarlinkError (List ℕ)
  varlink_object_get_string o n = find_value o n >>= string_of

  abbrev pub varlink_object_get_array : VarlinkObject F → List ℕ → Result VarlinkError ℕ
  varlink_object_get_array o n = find_value o n >>= array_of

  abbrev pub varlink_object_get_object : VarlinkObject F → List ℕ → Result VarlinkError ℕ
  varlink_object_get_object o n = find_value o n >>= object_of
