-- ===== src/Object/Tests.antt =====
-- lib/object.c on a small object. Floating-point numbers are integers here.
use libvarlink.Prelude.{ℕ, ◌≡◌, refl, List, [], ◌∷◌, true, none, some, ok, err}
use libvarlink.Prelude.Int.{ℤ, pos}
use libvarlink.KeyOrder.{strcmp}
use libvarlink.Error.{unknown_field, invalid_type}
use libvarlink.Value.{bool}
use libvarlink.Avl.{
  avl_tree_new, avl_tree_insert_subtree, avl_tree_insert, find_from, avl_tree_find_node,
  avl_tree_find, avl_tree_remove, take_out, unlink_from, node_rebalance, node_get_balance,
  update_height,
}
use libvarlink.Object.{
  VarlinkObject, varlink_object_new, object_add_field, object_remove_field, varlink_object_set_null,
  object_set_field, varlink_object_set_int, varlink_object_set_bool, varlink_object_get_int,
  varlink_object_get_bool, varlink_object_get_float, find_value,
}
use libvarlink.Object.Fields.{SetterSpec, set_field-SetterSpec, set_null-SetterSpec, new-Becomes}

abbrev a_name : List ℕ
a_name = 97 ∷ []

abbrev b_name : List ℕ
b_name = 98 ∷ []

empty : VarlinkObject ℤ
unfolding varlink_object_new avl_tree_new
empty = varlink_object_new

-- An int is read as an int and as a float, not as a bool; a field that is set again has the second value.
read_back :
    (varlink_object_get_int
        (varlink_object_set_int
          (varlink_object_set_bool empty a_name true).object
          a_name
          (pos 7)).object
        a_name
      ≡ ok (pos 7))
    × (varlink_object_get_bool (varlink_object_set_int empty a_name (pos 7)).object a_name
        ≡ err invalid_type)
    × (varlink_object_get_float (λ i. i) (varlink_object_set_int empty a_name (pos 7)).object a_name
        ≡ ok (pos 7))
    × (varlink_object_get_int (varlink_object_set_int empty a_name (pos 7)).object b_name
        ≡ err unknown_field)
unfolding empty object_set_field object_add_field object_remove_field avl_tree_insert
    avl_tree_insert_subtree avl_tree_remove avl_tree_find avl_tree_find_node find_from take_out
    unlink_from find_value strcmp node_rebalance node_get_balance update_height
read_back = (refl, refl, refl, refl)

set_field-SetterSpec_example :
    SetterSpec {F = ℤ} varlink_object_new a_name
      (some (record { name = a_name; value = bool true }))
      (object_set_field varlink_object_new a_name (bool true))
set_field-SetterSpec_example =
    set_field-SetterSpec varlink_object_new a_name (bool true) new-Becomes.0

set_null-SetterSpec_example :
    SetterSpec {F = ℤ} varlink_object_new a_name none
      (varlink_object_set_null varlink_object_new a_name)
set_null-SetterSpec_example = set_null-SetterSpec varlink_object_new a_name new-Becomes.0
