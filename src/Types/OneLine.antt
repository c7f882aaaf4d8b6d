-- ===== src/Types/OneLine.antt =====
-- lib/type.c: a type on one line, without its comments and marks.
use libvarlink.Prelude.{
  ℕ, List, [], ◌∷◌, ◌++◌, append-nil, Bool, true, false, Option, none, ◌≡◌, refl,
}
use libvarlink.Types.{
  VarlinkType, bool_type, int_type, float_type, string_type, foreign_object, array_type, map_type,
  maybe_type, alias_type, enum_type, object_type, Fields, no_fields, bare_field, typed_field,
  string_keyword,
}
use libvarlink.Types.Print.{
  bool_keyword, int_keyword, float_keyword, object_keyword, no_marks, behind, varlink_type_print,
  print_fields, varlink_type_get_typestring,
}

-- ", " in front of a field that follows.
abbrev pub separator : Fields → List ℕ
separator no_fields = []
separator _ = b',' ∷ b' ' ∷ []

-- A type on one line.
unfoldable mutual
  pub type_line : VarlinkType → List ℕ
  type_line bool_type = bool_keyword
  type_line int_type = int_keyword
  type_line float_type = float_keyword
  type_line string_type = string_keyword
  type_line foreign_object = object_keyword
  type_line (array_type t) = b'[' ∷ b']' ∷ type_line t
  type_line (map_type t) = b'[' ∷ (string_keyword ++ b']' ∷ type_line t)
  type_line (maybe_type t) = b'?' ∷ type_line t
  type_line (alias_type name) = name
  type_line (enum_type fields) = b'(' ∷ (fields_line fields ++ b')' ∷ [])
  type_line (object_type fields) = b'(' ∷ (fields_line fields ++ b')' ∷ [])

  pub fields_line : Fields → List ℕ
  fields_line no_fields = []
  fields_line (bare_field name d rest) = name ++ (separator rest ++ fields_line rest)
  fields_line (typed_field name d t rest) =
      name ++ (b':' ∷ b' ' ∷ (type_line t ++ (separator rest ++ fields_line rest)))

behind-separator : (d : Option (List ℕ)) (rest : Fields) → behind false d rest ≡ separator rest
behind-separator d no_fields = refl
behind-separator d (bare_field _ _ _) = refl
behind-separator d (typed_field _ _ _ _) = refl

mutual
  unfolding type_line fields_line varlink_type_print print_fields

  print-type_line : (t : VarlinkType) → varlink_type_print no_marks none t ≡ type_line t
  print-type_line bool_type = refl
  print-type_line int_type = refl
  print-type_line float_type = refl
  print-type_line string_type = refl
  print-type_line foreign_object = refl
  print-type_line (array_type t) = rw (print-type_line t) refl
  print-type_line (map_type t) = rw (print-type_line t) refl
  print-type_line (maybe_type t) = rw (print-type_line t) refl
  print-type_line (alias_type name) = append-nil name
  print-type_line (enum_type fs) = rw (print_fields-line fs true false) refl
  print-type_line (object_type fs) = rw (print_fields-line fs true false) refl

  print_fields-line :
      (fs : Fields) (first printed : Bool)
      → print_fields no_marks false none first printed fs ≡ fields_line fs
  print_fields-line no_fields first printed = refl
  print_fields-line (bare_field name d rest) first printed =
      rw (behind-separator d rest, print_fields-line rest false _) refl
  print_fields-line (typed_field name d t rest) first printed =
      rw (print-type_line t, behind-separator d rest, print_fields-line rest false _) refl

pub get_typestring-type_line : (t : VarlinkType) → varlink_type_get_typestring t ≡ type_line t
unfolding varlink_type_get_typestring
get_typestring-type_line = print-type_line
