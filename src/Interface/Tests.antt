-- ===== src/Interface/Tests.antt =====
-- lib/interface.c on concrete descriptions.
use libvarlink.Prelude.{ℕ, ◌≡◌, refl, List, [], ◌∷◌}
use libvarlink.KeyOrder.{strcmp}
use libvarlink.Error.{invalid_interface}
use libvarlink.Types.{
  Outcome, done, failed, varlink_type_new_from_scanner, read_fields, read_type, read_bracket,
  read_maybe, read_object, read_word, read_alias, finish_field, read_field, insert_name,
  expect_comma, decide_kind, read_keyword_type,
}
use libvarlink.Interface.{VarlinkInterface, find_member, varlink_interface_get_type}
use libvarlink.Interface.Reading.{
  expect_name, read_alias_member, read_method_member, read_error_member, read_member, insert_member,
  add_member, read_members, varlink_interface_try_resolve, try_fields, check_types,
  varlink_interface_new_from_scanner, varlink_interface_new,
}
use libvarlink.Prelude.{◌≢◌}
use libvarlink.Types.{out_of_fuel}
use libvarlink.Interface.Total.{interface_new-ends}
use libvarlink.Interface.Known.{OnDone, AllKnown, interface_new-Known}
use libvarlink.Scanner.{
  scanner_new, scanner_error, advance_step, advance_over, scanner_advance, scanner_peek, word_run,
  scanner_word_len, starts_with, scanner_read_keyword, scanner_expect_operator,
}
use libvarlink.Scanner.Names.{
  count_sections, interface_name_valid, scanner_expect_interface_name, field_rest_valid,
  scanner_expect_field_name, all_alnum, member_name_valid, scanner_expect_member_name,
  scanner_expect_type_name,
}
use libvarlink.Scanner.Docs.{doc_step, docstring_from, scanner_get_last_docstring}
use libvarlink.Avl.{
  avl_tree_new, avl_tree_insert, avl_tree_insert_subtree, node_rebalance, node_get_balance,
  update_height, avl_tree_find, avl_tree_find_node, find_from,
}

-- "interface a.b type T (a: ?U)"
abbrev maybe_unknown : List ℕ
maybe_unknown =
    b'i' ∷ b'n' ∷ b't' ∷ b'e' ∷ b'r' ∷ b'f' ∷ b'a' ∷ b'c' ∷ b'e' ∷ b' ' ∷ b'a' ∷ b'.' ∷ b'b' ∷ b' '
    ∷ b't' ∷ b'y' ∷ b'p' ∷ b'e' ∷ b' ' ∷ b'T' ∷ b'(' ∷ b'a' ∷ b':' ∷ b'?' ∷ b'U' ∷ b')' ∷ []

-- "interface a.b type T (a: U)"
abbrev unknown : List ℕ
unknown =
    b'i' ∷ b'n' ∷ b't' ∷ b'e' ∷ b'r' ∷ b'f' ∷ b'a' ∷ b'c' ∷ b'e' ∷ b' ' ∷ b'a' ∷ b'.' ∷ b'b' ∷ b' '
    ∷ b't' ∷ b'y' ∷ b'p' ∷ b'e' ∷ b' ' ∷ b'T' ∷ b'(' ∷ b'a' ∷ b':' ∷ b'U' ∷ b')' ∷ []

-- "interface a.b type T (a: []T)"
abbrev own_type : List ℕ
own_type =
    b'i' ∷ b'n' ∷ b't' ∷ b'e' ∷ b'r' ∷ b'f' ∷ b'a' ∷ b'c' ∷ b'e' ∷ b' ' ∷ b'a' ∷ b'.' ∷ b'b' ∷ b' '
    ∷ b't' ∷ b'y' ∷ b'p' ∷ b'e' ∷ b' ' ∷ b'T' ∷ b'(' ∷ b'a' ∷ b':' ∷ b'[' ∷ b']' ∷ b'T' ∷ b')' ∷ []

abbrev names_of : Outcome (VarlinkInterface ℕ) → List ℕ
names_of (done i) = i.name
names_of _ = []

-- An unknown type is refused, but not under a maybe; a type may name itself.
under_maybe :
    (names_of (varlink_interface_new maybe_unknown).1 ≡ b'a' ∷ b'.' ∷ b'b' ∷ [])
    × ((varlink_interface_new {C = ℕ} unknown).1 ≡ failed invalid_interface)
    × (names_of (varlink_interface_new own_type).1 ≡ b'a' ∷ b'.' ∷ b'b' ∷ [])
unfolding varlink_interface_new varlink_interface_new_from_scanner expect_name read_alias_member
    read_method_member read_error_member read_member insert_member add_member read_members
    varlink_interface_try_resolve try_fields check_types find_member varlink_interface_get_type
    varlink_type_new_from_scanner read_fields read_type read_bracket read_maybe read_object
    read_word read_alias finish_field read_field insert_name expect_comma decide_kind
    read_keyword_type scanner_new scanner_error advance_step advance_over scanner_advance
    scanner_peek word_run scanner_word_len starts_with scanner_read_keyword scanner_expect_operator
    count_sections interface_name_valid scanner_expect_interface_name field_rest_valid
    scanner_expect_field_name all_alnum member_name_valid scanner_expect_member_name
    scanner_expect_type_name doc_step docstring_from scanner_get_last_docstring avl_tree_new
    avl_tree_insert avl_tree_insert_subtree node_rebalance node_get_balance update_height
    avl_tree_find avl_tree_find_node find_from strcmp
under_maybe = (refl, refl, refl)

interface_new-Known_example : OnDone AllKnown (varlink_interface_new {C = ℕ} own_type)
interface_new-Known_example = interface_new-Known ℕ own_type

interface_new-ends_example : (varlink_interface_new {C = ℕ} own_type).1 ≢ out_of_fuel
interface_new-ends_example = interface_new-ends ℕ own_type
