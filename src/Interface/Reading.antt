-- ===== src/Interface/Reading.antt =====
-- lib/interface.c: `varlink_interface_new`, which reads the description of an interface.
--
-- Allocation succeeds, and a method has no callback yet. The types are read on fuel, and so is the loop over the
-- members: the length of the description and one more.
use libvarlink.Prelude.{
  ℕ, zero, suc, ◌+◌, List, [], ◌∷◌, Bool, true, false, not, ◌&&◌, ◌||◌, Option, none, some, Result,
  ok, err, ◌==◌, if◌then◌else◌, length,
}
use libvarlink.KeyOrder.{string_order}
use libvarlink.Error.{panic, invalid_interface}
use libvarlink.Avl.{AvlError, key_exists, AvlTree, avl_tree_new, avl_tree_insert}
use libvarlink.Scanner.{
  Scanner, ScannerError, interface_keyword_expected, keyword_expected, interface_name_invalid,
  object_expected, duplicate_member_name, member_name_invalid, operator_expected, type_expected,
  unknown_type, scanner_new, scanner_error, scanner_peek, scanner_read_keyword,
  scanner_expect_operator,
}
use libvarlink.Scanner.Names.{scanner_expect_interface_name, scanner_expect_member_name}
use libvarlink.Scanner.Docs.{scanner_get_last_docstring}
use libvarlink.Types.{
  VarlinkType, array_type, map_type, alias_type, enum_type, object_type, Fields, no_fields,
  bare_field, typed_field, done, failed, overread, out_of_fuel, Run, ◌>>=◌, run, expect_docstring,
  varlink_type_new_from_scanner,
}
use libvarlink.Types.Print.{is_object}
use libvarlink.Interface.{
  MemberType, member_alias, member_error, member_method, VarlinkInterfaceMember, VarlinkInterface,
  member_name, varlink_interface_get_type,
}

-- "interface", "type", "method", "error"
abbrev pub interface_keyword : List ℕ
interface_keyword = b'i' ∷ b'n' ∷ b't' ∷ b'e' ∷ b'r' ∷ b'f' ∷ b'a' ∷ b'c' ∷ b'e' ∷ []

abbrev pub type_keyword : List ℕ
type_keyword = b't' ∷ b'y' ∷ b'p' ∷ b'e' ∷ []

abbrev pub method_keyword : List ℕ
method_keyword = b'm' ∷ b'e' ∷ b't' ∷ b'h' ∷ b'o' ∷ b'd' ∷ []

abbrev pub error_keyword : List ℕ
error_keyword = b'e' ∷ b'r' ∷ b'r' ∷ b'o' ∷ b'r' ∷ []

-- `if (r < 0) { scanner_error (..); return r; }`
abbrev pub reported {ℓ} : {A : Type ℓ} → ScannerError → Run A → Run A
reported n (s, failed e) = (scanner_error s n, failed e)
reported n (s, done a) = (s, done a)
reported n (s, overread) = (s, overread)
reported n (s, out_of_fuel) = (s, out_of_fuel)

-- The same, with `-VARLINK_ERROR_INVALID_INTERFACE` returned.
abbrev pub as_invalid {ℓ} : {A : Type ℓ} → ScannerError → Run A → Run A
as_invalid n (s, failed e) = (scanner_error s n, failed invalid_interface)
as_invalid n (s, done a) = (s, done a)
as_invalid n (s, overread) = (s, overread)
as_invalid n (s, out_of_fuel) = (s, out_of_fuel)

abbrev pub is_enum : VarlinkType → Bool
is_enum (enum_type _) = true
is_enum _ = false

abbrev pub require_object : Bool → Scanner → Run (Unit {0})
require_object b s =
    if b then (s, done tt) else (scanner_error s object_expected, failed invalid_interface)

unfoldable pub expect_name : Scanner → Run (List ℕ)
expect_name s = reported member_name_invalid (run (scanner_expect_member_name s))

-- The tree and the members, in the order of the description.
abbrev pub Members : Type 0 → Type 0
Members C = AvlTree (VarlinkInterfaceMember C) × List (VarlinkInterfaceMember C)

abbrev pub is_known : Option VarlinkType → Bool
is_known none = false
is_known (some t) = true

abbrev pub expect_keyword : Scanner × Bool → Run (Unit {0})
expect_keyword (s, true) = (s, done tt)
expect_keyword (s, false) = (scanner_error s interface_keyword_expected, failed invalid_interface)

module _ {C : Type 0} where
  unfoldable pub read_alias_member : ℕ → Scanner → Run (VarlinkInterfaceMember C)
  read_alias_member fuel s = do
    (s, description) ← expect_docstring (scanner_get_last_docstring s)
    (s, name) ← expect_name s
    (s, alias) ← reported member_name_invalid (varlink_type_new_from_scanner fuel s)
    (s, _) ← require_object (is_object alias || is_enum alias) s
    (s, done (record { name = name; description = description; type = member_alias alias }))

  unfoldable pub read_method_member : ℕ → Scanner → Run (VarlinkInterfaceMember C)
  read_method_member fuel s = do
    (s, description) ← expect_docstring (scanner_get_last_docstring s)
    (s, name) ← expect_name s
    (s, type_in) ← reported member_name_invalid (varlink_type_new_from_scanner fuel s)
    (s, _) ← as_invalid operator_expected (run (scanner_expect_operator s (b'-' ∷ b'>' ∷ [])))
    (s, type_out) ← as_invalid type_expected (varlink_type_new_from_scanner fuel s)
    (s, _) ← require_object (is_object type_in && is_object type_out) s
    (
      s,
      done (record {
        name = name;
        description = description;
        type = member_method (record { type_in = type_in; type_out = type_out; callback = none });
      }),
    )

  unfoldable pub read_error_member : ℕ → Scanner → Run (VarlinkInterfaceMember C)
  read_error_member fuel s = do
    (s, description) ← expect_docstring (scanner_get_last_docstring s)
    (s, name) ← expect_name s
    (s, error) ← reported member_name_invalid (varlink_type_new_from_scanner fuel s)
    (s, _) ← require_object (is_object error) s
    (s, done (record { name = name; description = description; type = member_error error }))

  unfoldable pub read_member : ℕ → Scanner → Run (VarlinkInterfaceMember C)
  read_member fuel s =
      let (s₁, is_type) = scanner_read_keyword s type_keyword in
      let (s₂, is_method) = scanner_read_keyword s₁ method_keyword in
      let (s₃, is_error) = scanner_read_keyword s₂ error_keyword in
      if is_type
      then read_alias_member fuel s₁
      else if is_method
      then read_method_member fuel s₂
      else if is_error
      then read_error_member fuel s₃
      else (scanner_error s₃ keyword_expected, failed invalid_interface)

  -- `avl_tree_insert (interface->member_tree, member->name, member)` with its errors
  abbrev pub member_inserted :
      Scanner
      → Result AvlError (AvlTree (VarlinkInterfaceMember C))
      → Run (AvlTree (VarlinkInterfaceMember C))
  member_inserted s (ok tree) = (s, done tree)
  member_inserted s (err key_exists) =
      (scanner_error s duplicate_member_name, failed invalid_interface)
  member_inserted s (err _) = (s, failed panic)

  unfoldable pub insert_member :
      Scanner
      → AvlTree (VarlinkInterfaceMember C)
      → VarlinkInterfaceMember C
      → Run (AvlTree (VarlinkInterfaceMember C))
  insert_member s tree m = member_inserted s (avl_tree_insert member_name tree m.name m)

  -- A round of the loop; the rest of it is an argument.
  unfoldable pub add_member :
      ℕ
      → (AvlTree (VarlinkInterfaceMember C) → Scanner → Run (Members C))
      → AvlTree (VarlinkInterfaceMember C)
      → Scanner
      → Run (Members C)
  add_member fuel more tree s = do
    (s, member) ← read_member fuel s
    (s, tree) ← insert_member s tree member
    (s, rest) ← more tree s
    (s, done (rest.0, member ∷ rest.1))

  abbrev pub unless_end :
      AvlTree (VarlinkInterfaceMember C)
      → (Scanner → Run (Members C))
      → Scanner × ℕ
      → Run (Members C)
  unless_end tree read (s, c) = if c == 0 then (s, done (tree, [])) else read s

  unfoldable pub read_members :
      ℕ → ℕ → AvlTree (VarlinkInterfaceMember C) → Scanner → Run (Members C)
  read_members fuel zero tree s = (s, out_of_fuel)
  read_members fuel (suc n) tree s =
      unless_end tree (λ t. add_member fuel (λ d u. read_members fuel n d u) tree t)
        (scanner_peek s)

  -- Are all the types known that a type names? The element of a maybe is not looked at.
  unfoldable mutual
    pub varlink_interface_try_resolve : VarlinkInterface C → VarlinkType → Bool
    varlink_interface_try_resolve i (array_type t) = varlink_interface_try_resolve i t
    varlink_interface_try_resolve i (map_type t) = varlink_interface_try_resolve i t
    varlink_interface_try_resolve i (object_type fs) = try_fields i fs
    varlink_interface_try_resolve i (alias_type name) = is_known (varlink_interface_get_type i name)
    varlink_interface_try_resolve i _ = true

    pub try_fields : VarlinkInterface C → Fields → Bool
    try_fields i no_fields = true
    try_fields i (bare_field _ _ rest) = try_fields i rest
    try_fields i (typed_field _ _ t rest) = varlink_interface_try_resolve i t && try_fields i rest

  abbrev pub try_member : VarlinkInterface C → MemberType C → Bool
  try_member i (member_alias t) = varlink_interface_try_resolve i t
  try_member i (member_error t) = varlink_interface_try_resolve i t
  try_member i (member_method m) =
      varlink_interface_try_resolve i m.type_in && varlink_interface_try_resolve i m.type_out

  unfoldable pub check_types : VarlinkInterface C → List (VarlinkInterfaceMember C) → Bool
  check_types i [] = true
  check_types i (m ∷ ms) = try_member i m.type && check_types i ms

  abbrev pub resolved : VarlinkInterface C → Scanner → Run (VarlinkInterface C)
  resolved i s =
      if check_types i i.members
      then (s, done i)
      else (scanner_error s unknown_type, failed invalid_interface)

  unfoldable pub varlink_interface_new_from_scanner : ℕ → Scanner → Run (VarlinkInterface C)
  varlink_interface_new_from_scanner fuel s = do
    (s, description) ← expect_docstring (scanner_get_last_docstring s)
    (s, _) ← expect_keyword (scanner_read_keyword s interface_keyword)
    (s, name) ← reported interface_name_invalid (run (scanner_expect_interface_name s))
    (s, members) ← read_members fuel fuel avl_tree_new s
    resolved
        (record {
          name = name;
          description = description;
          members = members.1;
          member_tree = members.0;
        })
        s

  -- Whatever the error is, an invalid interface is reported.
  abbrev pub interface_at_end : Run (VarlinkInterface C) → Run (VarlinkInterface C)
  interface_at_end (s, failed e) = (s, failed invalid_interface)
  interface_at_end (s, overread) = (s, overread)
  interface_at_end (s, out_of_fuel) = (s, out_of_fuel)
  interface_at_end (s, done i) =
      let (t, c) = scanner_peek s in
      if not (c == 0) then (t, failed invalid_interface) else (t, done i)

  unfoldable pub varlink_interface_new : List ℕ → Run (VarlinkInterface C)
  varlink_interface_new description =
      interface_at_end
        (varlink_interface_new_from_scanner (length description + 1) (scanner_new description true))
