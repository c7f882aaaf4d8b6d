-- ===== src/Value.antt =====
-- lib/value.h: the values that objects and arrays hold.
--
-- A nested array or object is named by its address. Reference counts are not modelled.
use libvarlink.Prelude.{ℕ, List, Bool, Result, ok, err, ◌==◌}
use libvarlink.Error.{VarlinkError, invalid_type}
use libvarlink.Prelude.Int.{ℤ}

-- `VarlinkValueKind`
pub data VarlinkValueKind : Type 0 where
  undefined_kind null_kind bool_kind int_kind float_kind string_kind array_kind object_kind :
      VarlinkValueKind

-- `VarlinkValue`, for a type of floating-point numbers: the kind, with the member of the union it selects.
pub data VarlinkValue {ℓ} (F : Type ℓ) : Type ℓ where
  undefined null : VarlinkValue F
  bool : Bool → VarlinkValue F
  int : ℤ → VarlinkValue F
  float : F → VarlinkValue F
  string : List ℕ → VarlinkValue F
  array object : ℕ → VarlinkValue F

-- `value->kind`
abbrev pub kind {ℓ} : {F : Type ℓ} → VarlinkValue F → VarlinkValueKind
kind undefined = undefined_kind
kind null = null_kind
kind (bool b) = bool_kind
kind (int i) = int_kind
kind (float f) = float_kind
kind (string s) = string_kind
kind (array a) = array_kind
kind (object a) = object_kind

-- The kinds are compared as the numbers of the enumeration.
abbrev pub number : VarlinkValueKind → ℕ
number undefined_kind = 0
number null_kind = 1
number bool_kind = 2
number int_kind = 3
number float_kind = 4
number string_kind = 5
number array_kind = 6
number object_kind = 7

abbrev pub same_kind : VarlinkValueKind → VarlinkValueKind → Bool
same_kind a b = number a == number b

-- The end of a getter: a value of another kind is refused.
module _ {ℓ} {F : Type ℓ} where
  abbrev pub bool_of : VarlinkValue F → Result VarlinkError Bool
  bool_of (bool b) = ok b
  bool_of _ = err invalid_type

  abbrev pub int_of : VarlinkValue F → Result VarlinkError ℤ
  int_of (int i) = ok i
  int_of _ = err invalid_type

  abbrev pub string_of : VarlinkValue F → Result VarlinkError (List ℕ)
  string_of (string s) = ok s
  string_of _ = err invalid_type

  abbrev pub array_of : VarlinkValue F → Result VarlinkError ℕ
  array_of (array a) = ok a
  array_of _ = err invalid_type

  abbrev pub object_of : VarlinkValue F → Result VarlinkError ℕ
  object_of (object a) = ok a
  object_of _ = err invalid_type
