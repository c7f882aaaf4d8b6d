-- ===== src/Array.antt =====
-- lib/array.c: an array of values of one kind.
--
-- `n_elements` is the length of the list of elements. Allocation and `strdup` succeed, and
-- nested values are addresses.
mod Kinds
mod Append
mod Tests
use Prim.Native.Nat.{max}
use libvarlink.Prelude.{
  ℕ, ◌*◌, List, [], ◌∷◌, ◌++◌, Bool, true, not, Option, none, some, Result, ok, err, ◌>>=◌, ◌==◌,
  if◌then◌else◌, length, get_elem?,
}
use libvarlink.Prelude.Int.{ℤ}
use libvarlink.Error.{VarlinkError, invalid_index, invalid_type, read_only}
use libvarlink.Value.{
  VarlinkValueKind, undefined_kind, null_kind, bool_kind, int_kind, float_kind, string_kind,
  array_kind, object_kind, same_kind, VarlinkValue, undefined, null, bool, int, float, string,
  array, object, kind, bool_of, int_of, string_of, array_of, object_of,
}

-- `struct VarlinkArray`, less its reference count.
pub record VarlinkArray {ℓ} (F : Type ℓ) : Type ℓ where
  pub element_kind : VarlinkValueKind
  pub elements : List (VarlinkValue F)
  pub n_allocated_elements : ℕ
  pub writable : Bool

-- What a call that changes an array leaves of it, and what it returns.
pub record ArrayRun {ℓ} (F : Type ℓ) : Type ℓ where
  pub array : VarlinkArray F
  pub result : Result {0, 0} VarlinkError Unit

unfoldable pub varlink_array_new {ℓ} : {F : Type ℓ} → VarlinkArray F
varlink_array_new = record {
  element_kind = undefined_kind;
  elements = [];
  n_allocated_elements = 0;
  writable = true;
}

module _ {ℓ} {F : Type ℓ} where
  abbrev pub varlink_array_get_element_kind : VarlinkArray F → VarlinkValueKind
  varlink_array_get_element_kind a = a.element_kind

  abbrev pub varlink_array_get_n_elements : VarlinkArray F → ℕ
  varlink_array_get_n_elements a = length a.elements

  -- The room after an append: it doubles when it is used up, to 16 at least.
  unfoldable pub grown : VarlinkArray F → ℕ
  grown a =
      if length a.elements == a.n_allocated_elements
      then max (a.n_allocated_elements * 2) 16
      else a.n_allocated_elements

  -- The new slot is written here with its value.
  unfoldable pub array_append : VarlinkArray F → VarlinkValue F → VarlinkArray F
  array_append a v = record a { elements = a.elements ++ v ∷ []; n_allocated_elements = grown a }

  unfoldable pub varlink_array_append_null : VarlinkArray F → ArrayRun F
  varlink_array_append_null a =
      if not a.writable
      then record { array = a; result = err read_only }
      else record { array = array_append a null; result = ok tt }

  -- What the functions that append a value other than null share. The first such value sets the kind.
  unfoldable pub append_value : VarlinkArray F → VarlinkValue F → ArrayRun F
  append_value a v =
      if not a.writable
      then record { array = a; result = err read_only }
      else if same_kind a.element_kind undefined_kind
      then record { array = array_append (record a { element_kind = kind v }) v; result = ok tt }
      else if not (same_kind a.element_kind (kind v))
      then record { array = a; result = err invalid_type }
      else record { array = array_append a v; result = ok tt }

  abbrev pub varlink_array_append_bool : VarlinkArray F → Bool → ArrayRun F
  varlink_array_append_bool a b = append_value a (bool b)

  abbrev pub varlink_array_append_int : VarlinkArray F → ℤ → ArrayRun F
  varlink_array_append_int a i = append_value a (int i)

  abbrev pub varlink_array_append_float : VarlinkArray F → F → ArrayRun F
  varlink_array_append_float a f = append_value a (float f)

  abbrev pub varlink_array_append_string : VarlinkArray F → List ℕ → ArrayRun F
  varlink_array_append_string a s = append_value a (string s)

  abbrev pub varlink_array_append_array : VarlinkArray F → ℕ → ArrayRun F
  varlink_array_append_array a e = append_value a (array e)

  abbrev pub varlink_array_append_object : VarlinkArray F → ℕ → ArrayRun F
  varlink_array_append_object a e = append_value a (object e)

  unfoldable pub varlink_array_get_value : VarlinkArray F → ℕ → Result VarlinkError (VarlinkValue F)
  varlink_array_get_value a index = elim (get_elem? a.elements index) [
    | none ↦ err invalid_index
    | some v ↦ ok v
  ]

  -- Unlike the getter of an object, this one converts no int.
  abbrev pub exact_float_of : VarlinkValue F → Result VarlinkError F
  exact_float_of (float f) = ok f
  exact_float_of _ = err invalid_type

  abbrev pub varlink_array_get_bool : VarlinkArray F → ℕ → Result VarlinkError Bool
  varlink_array_get_bool a index = varlink_array_get_value a index >>= bool_of

  abbrev pub varlink_array_get_int : VarlinkArray F → ℕ → Result VarlinkError ℤ
  varlink_array_get_int a index = varlink_array_get_value a index >>= int_of

  abbrev pub varlink_array_get_float : VarlinkArray F → ℕ → Result VarlinkError F
  varlink_array_get_float a index = varlink_array_get_value a index >>= exact_float_of

  abbrev pub varlink_array_get_string : VarlinkArray F → ℕ → Result VarlinkError (List ℕ)
  varlink_array_get_string a index = varlink_array_get_value a index >>= string_of

  abbrev pub varlink_array_get_array : VarlinkArray F → ℕ → Result VarlinkError ℕ
  varlink_array_get_array a index = varlink_array_get_value a index >>= array_of

  abbrev pub varlink_array_get_object : VarlinkArray F → ℕ → Result VarlinkError ℕ
  varlink_array_get_object a index = varlink_array_get_value a index >>= object_of
