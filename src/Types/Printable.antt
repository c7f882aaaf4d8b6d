-- ===== src/Types/Printable.antt =====
-- lib/type.c: the types that can be printed on one line and read again, and the fuel it takes.
use libvarlink.Prelude.{
  ℕ, suc, ◌+◌, ◌≤◌, ◌≡◌, List, [], ◌∷◌, ◌++◌, length, length-append, true, none, arith,
}
use libvarlink.Types.{
  VarlinkType, bool_type, int_type, float_type, string_type, foreign_object, array_type, map_type,
  maybe_type, alias_type, enum_type, object_type, Fields, no_fields, bare_field, typed_field,
}
use libvarlink.Types.OneLine.{type_line, fields_line, separator}
use libvarlink.Types.Tokens.{is_plain_word}
use libvarlink.Types.TypeNames.{TypeName, TypeName-word}
use libvarlink.Types.Words.{field_name_valid}
use libvarlink.Types.Unique.{Absent}

-- `check_maybe` refuses a maybe of a maybe.
abbrev pub NotMaybe : VarlinkType → Type 0
NotMaybe (maybe_type _) = ⊥
NotMaybe _ = Unit

-- An enumeration has fields.
abbrev pub Filled : Fields → Type 0
Filled no_fields = ⊥
Filled _ = Unit

unfoldable mutual
  -- Names are valid, no field name stands twice, no field is described, the fields fit their type,
  -- and no maybe is nested.
  pub Printable : VarlinkType → Type 0
  Printable (array_type t) = Printable t
  Printable (map_type t) = Printable t
  Printable (maybe_type t) = Printable t × NotMaybe t
  Printable (alias_type name) = TypeName name
  Printable (enum_type fs) = Filled fs × Bare fs
  Printable (object_type fs) = Typed fs
  Printable _ = Unit

  -- All fields are those of an enumeration.
  pub Bare : Fields → Type 0
  Bare no_fields = Unit
  Bare (bare_field name d rest) =
      (field_name_valid name ≡ true) × (d ≡ none) × Absent name rest × Bare rest
  Bare (typed_field _ _ _ _) = ⊥

  -- All fields are those of an object.
  pub Typed : Fields → Type 0
  Typed no_fields = Unit
  Typed (bare_field _ _ _) = ⊥
  Typed (typed_field name d t rest) =
      (field_name_valid name ≡ true) × (d ≡ none) × Absent name rest × Printable t × Typed rest

unfoldable mutual
  -- The fuel that reading the printed type takes.
  pub size : VarlinkType → ℕ
  size (array_type t) = suc (size t)
  size (map_type t) = suc (size t)
  size (maybe_type t) = suc (size t)
  size (enum_type fs) = suc (size_fields fs)
  size (object_type fs) = suc (size_fields fs)
  size _ = 1

  pub size_fields : Fields → ℕ
  size_fields no_fields = 1
  size_fields (bare_field name d rest) = suc (size_fields rest)
  size_fields (typed_field name d t rest) = suc (size t + size_fields rest)

name-length : (w : List ℕ) → is_plain_word w ≡ true → 1 ≤ length w
name-length [] h = absurd (cc)
name-length (c ∷ cs) h = omega arith

mutual
  unfolding Printable Bare Typed size size_fields type_line fields_line field_name_valid

  pub size-typestring : (t : VarlinkType) → Printable t → size t ≤ length (type_line t)
  size-typestring bool_type p = omega arith
  size-typestring int_type p = omega arith
  size-typestring float_type p = omega arith
  size-typestring string_type p = omega arith
  size-typestring foreign_object p = omega arith
  size-typestring (array_type t) p = omega (arith, size-typestring t p)
  size-typestring (map_type t) p = omega (arith, size-typestring t p)
  size-typestring (maybe_type t) p = omega (arith, size-typestring t p.0)
  size-typestring (alias_type name) p = name-length name (TypeName-word name p)
  size-typestring (enum_type fs) p =
      omega (arith, size-enum fs p.1, length-append (fields_line fs) (b')' ∷ []))
  size-typestring (object_type fs) p =
      omega (arith, size-object fs p, length-append (fields_line fs) (b')' ∷ []))

  size-enum : (fs : Fields) → Bare fs → size_fields fs ≤ suc (length (fields_line fs))
  size-enum no_fields p = omega arith
  size-enum (bare_field [] d rest) p = absurd (cc)
  size-enum (bare_field (c ∷ cs) d rest) p = omega (
    arith,
    size-enum rest p.3,
    length-append cs (separator rest ++ fields_line rest),
    length-append (separator rest) (fields_line rest),
  )
  size-enum (typed_field _ _ _ _) p = absurd p

  size-object : (fs : Fields) → Typed fs → size_fields fs ≤ suc (length (fields_line fs))
  size-object no_fields p = omega arith
  size-object (bare_field _ _ _) p = absurd p
  size-object (typed_field [] d t rest) p = absurd (cc)
  size-object (typed_field (c ∷ cs) d t rest) p = omega (
    arith,
    size-typestring t p.3,
    size-object rest p.4,
    length-append cs (b':' ∷ b' ' ∷ (type_line t ++ (separator rest ++ fields_line rest))),
    length-append (type_line t) (separator rest ++ fields_line rest),
    length-append (separator rest) (fields_line rest),
  )
