-- ===== src/Interface/Known.antt =====
-- lib/interface.c: the types that the members of an interface name are its own.
use libvarlink.Prelude.{
  ℕ, ◌+◌, ◌≡◌, refl, List, [], ◌∷◌, Bool, true, ◌&&◌, Option, none, some, ◌==◌, length, arith,
  Bool-cases, inl, inr, All,
}
use libvarlink.Scanner.{Scanner, scanner_new, scanner_peek}
use libvarlink.Types.{
  VarlinkType, bool_type, int_type, float_type, string_type, foreign_object, array_type, map_type,
  maybe_type, alias_type, enum_type, object_type, Fields, no_fields, bare_field, typed_field, done,
  failed, overread, out_of_fuel, Run, ◌>>=◌,
}
use libvarlink.Interface.{
  MemberType, member_alias, member_error, member_method, VarlinkInterfaceMember, VarlinkInterface,
  varlink_interface_get_type,
}
use libvarlink.Scanner.{interface_name_invalid, scanner_read_keyword}
use libvarlink.Scanner.Names.{scanner_expect_interface_name}
use libvarlink.Scanner.Docs.{scanner_get_last_docstring}
use libvarlink.Types.{run, expect_docstring}
use libvarlink.Avl.{avl_tree_new}
use libvarlink.Interface.Reading.{
  interface_keyword, reported, expect_keyword, read_members, is_known,
  varlink_interface_try_resolve, try_fields, try_member, check_types, resolved,
  varlink_interface_new_from_scanner, interface_at_end, varlink_interface_new,
}

both : (a b : Bool) → (a && b) ≡ true → (a ≡ true) × (b ≡ true)
both a b h = (ground arith, ground arith)

known-type : (x : Option VarlinkType) → is_known x ≡ true → (t : VarlinkType) × (x ≡ some t)
known-type none h = absurd (cc)
known-type (some t) h = (t, refl)

-- What holds of the interface that is read, if one is.
abbrev pub OnDone {ℓ} : {A : Type ℓ} → (A → Type 0) → Run A → Type 0
OnDone P (s, done a) = P a
OnDone P _ = Unit

OnDone-bind {ℓ κ} :
    {A : Type ℓ} {B : Type κ} (P : B → Type 0) (r : Run A) (f : Scanner × A → Run B)
    → ((x : Scanner × A) → OnDone P (f x))
    → OnDone P (r >>= f)
OnDone-bind P (s, done a) f h = h (s, a)
OnDone-bind P (s, failed e) f h = tt
OnDone-bind P (s, overread) f h = tt
OnDone-bind P (s, out_of_fuel) f h = tt

module _ {C : Type 0} where
  -- The types that a type names are types of the interface; what a maybe holds is left out.
  unfoldable mutual
    pub Known : VarlinkInterface C → VarlinkType → Type 0
    Known i (array_type t) = Known i t
    Known i (map_type t) = Known i t
    Known i (object_type fs) = KnownFields i fs
    Known i (alias_type name) = (t : VarlinkType) × (varlink_interface_get_type i name ≡ some t)
    Known i _ = Unit

    pub KnownFields : VarlinkInterface C → Fields → Type 0
    KnownFields i no_fields = Unit
    KnownFields i (bare_field _ _ rest) = KnownFields i rest
    KnownFields i (typed_field _ _ t rest) = Known i t × KnownFields i rest

  abbrev pub KnownMember : VarlinkInterface C → VarlinkInterfaceMember C → Type 0
  KnownMember i m = elim m.type [
    | member_alias t ↦ Known i t
    | member_error t ↦ Known i t
    | member_method f ↦ Known i f.type_in × Known i f.type_out
  ]

  mutual
    unfolding Known KnownFields varlink_interface_try_resolve try_fields

    try_resolve-Known :
        (i : VarlinkInterface C) (t : VarlinkType)
        → varlink_interface_try_resolve i t ≡ true
        → Known i t
    try_resolve-Known i bool_type h = tt
    try_resolve-Known i int_type h = tt
    try_resolve-Known i float_type h = tt
    try_resolve-Known i string_type h = tt
    try_resolve-Known i foreign_object h = tt
    try_resolve-Known i (array_type t) h = try_resolve-Known i t h
    try_resolve-Known i (map_type t) h = try_resolve-Known i t h
    try_resolve-Known i (maybe_type t) h = tt
    try_resolve-Known i (alias_type name) h = known-type (varlink_interface_get_type i name) h
    try_resolve-Known i (enum_type fs) h = tt
    try_resolve-Known i (object_type fs) h = try_fields-Known i fs h

    try_fields-Known :
        (i : VarlinkInterface C) (fs : Fields) → try_fields i fs ≡ true → KnownFields i fs
    try_fields-Known i no_fields h = tt
    try_fields-Known i (bare_field _ _ rest) h = try_fields-Known i rest h
    try_fields-Known i (typed_field _ _ t rest) h =
        let (a, b) = both (varlink_interface_try_resolve i t) (try_fields i rest) h in
        (try_resolve-Known i t a, try_fields-Known i rest b)

  try_member-Known :
      (i : VarlinkInterface C) (name : List ℕ) (d : Option (List ℕ)) (x : MemberType C)
      → try_member i x ≡ true
      → KnownMember i (record { name = name; description = d; type = x })
  try_member-Known i name d (member_alias t) h = try_resolve-Known i t h
  try_member-Known i name d (member_error t) h = try_resolve-Known i t h
  try_member-Known i name d (member_method f) h =
      let (a, b) =
        both (varlink_interface_try_resolve i f.type_in)
          (varlink_interface_try_resolve i f.type_out) h in
      (try_resolve-Known i f.type_in a, try_resolve-Known i f.type_out b)

  check_types-Known :
      (i : VarlinkInterface C) (ms : List (VarlinkInterfaceMember C))
      → check_types i ms ≡ true
      → All (KnownMember i) ms
  unfolding check_types
  check_types-Known i [] h = tt
  check_types-Known i (m ∷ ms) h =
      let (a, b) = both (try_member i m.type) (check_types i ms) h in
      (try_member-Known i m.name m.description m.type a, check_types-Known i ms b)

  abbrev pub AllKnown : VarlinkInterface C → Type 0
  AllKnown i = All (KnownMember i) i.members

  resolved-Known : (i : VarlinkInterface C) (s : Scanner) → OnDone AllKnown (resolved i s)
  resolved-Known i s = elim (Bool-cases (check_types i i.members)) [
    | inl e ↦ rw e (check_types-Known i i.members e)
    | inr e ↦ rw e tt
  ]

  at_end-Known :
      (r : Run (VarlinkInterface C)) → OnDone AllKnown r → OnDone AllKnown (interface_at_end r)
  at_end-Known (s, failed e) h = tt
  at_end-Known (s, overread) h = tt
  at_end-Known (s, out_of_fuel) h = tt
  at_end-Known (s, done i) h = elim (Bool-cases ((scanner_peek s).1 == 0)) [
    | inl e ↦ rw e h
    | inr e ↦ rw e tt
  ]

new_from_scanner-Known :
    (C : Type 0) (fuel : ℕ) (s : Scanner)
    → OnDone AllKnown (varlink_interface_new_from_scanner {C = C} fuel s)
unfolding varlink_interface_new_from_scanner
new_from_scanner-Known C fuel s =
    OnDone-bind (AllKnown {C = C}) (expect_docstring (scanner_get_last_docstring s)) _ (λ x.
      OnDone-bind (AllKnown {C = C}) (expect_keyword (scanner_read_keyword x.0 interface_keyword)) _
        (λ y.
          OnDone-bind (AllKnown {C = C})
            (reported interface_name_invalid (run (scanner_expect_interface_name y.0))) _
            (λ z.
              OnDone-bind (AllKnown {C = C}) (read_members fuel fuel avl_tree_new z.0) _
                (λ w. resolved-Known _ w.0))))

-- Of an interface that is read, every type named by a member is a type of the interface, in the elements of arrays and
-- maps and in the fields of objects; the types under a maybe are not looked at.
pub interface_new-Known :
    (C : Type 0) (description : List ℕ)
    → OnDone AllKnown (varlink_interface_new {C = C} description)
unfolding varlink_interface_new
interface_new-Known C description =
    at_end-Known _
      (new_from_scanner-Known C (length description + 1) (scanner_new description true))
