-- ===== src/Array/Tests.antt =====
-- lib/array.c on small arrays. Floating-point numbers are integers here.
use libvarlink.Prelude.{◌≡◌, refl, [], ◌∷◌, true, false, inl, inr, ok, err}
use libvarlink.Prelude.Int.{ℤ, pos}
use libvarlink.Error.{invalid_index, invalid_type}
use libvarlink.Value.{VarlinkValueKind, bool, int}
use libvarlink.Array.{
  VarlinkArray, varlink_array_new, grown, array_append, varlink_array_append_null, append_value,
  varlink_array_append_int, varlink_array_append_bool, varlink_array_get_value,
  varlink_array_get_int, varlink_array_get_bool,
}
use libvarlink.Array.Append.{
  IsWellFormed, new-IsWellFormed, append_value-IsWellFormed, append_null-IsWellFormed, Added,
  append_value-Added, append_value-fails,
}

start : VarlinkArray ℤ
unfolding varlink_array_new
start = varlink_array_new

abbrev one_bool : VarlinkArray ℤ
one_bool = record {
  element_kind = VarlinkValueKind.bool_kind;
  elements = bool true ∷ [];
  n_allocated_elements = 16;
  writable = true;
}

-- An int behind a null is found; a bool is then refused, and an index out of bounds has no value.
ints :
    (varlink_array_get_int
        (varlink_array_append_int (varlink_array_append_null start).array (pos 7)).array
        1
      ≡ ok (pos 7))
    × ((varlink_array_append_bool (varlink_array_append_int start (pos 7)).array true).result
        ≡ err invalid_type)
    × (varlink_array_get_bool (varlink_array_append_int start (pos 7)).array 0 ≡ err invalid_type)
    × (varlink_array_get_int (varlink_array_append_int start (pos 7)).array 1 ≡ err invalid_index)
unfolding start append_value array_append grown varlink_array_append_null varlink_array_get_value
ints = (refl, refl, refl, refl)

append_value-IsWellFormed_example :
    IsWellFormed {F = ℤ} (append_value varlink_array_new (int (pos 7))).array
append_value-IsWellFormed_example =
    append_value-IsWellFormed varlink_array_new (int (pos 7)) (λ e. cc) new-IsWellFormed

append_null-IsWellFormed_example :
    IsWellFormed {F = ℤ} (varlink_array_append_null varlink_array_new).array
append_null-IsWellFormed_example = append_null-IsWellFormed varlink_array_new new-IsWellFormed

append_value-Added_example : Added one_bool (bool false) (append_value one_bool (bool false))
append_value-Added_example = append_value-Added one_bool (bool false) refl (inr refl)

append_value-fails_example :
    append_value one_bool (int (pos 7)) ≡ record { array = one_bool; result = err invalid_type }
append_value-fails_example =
    append_value-fails one_bool (int (pos 7)) (inr (λ h. elim h [ inl e ↦ cc | inr e ↦ cc ]))
