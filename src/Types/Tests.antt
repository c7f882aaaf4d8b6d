-- ===== src/Types/Tests.antt =====
-- lib/type.c on concrete types.
use libvarlink.Prelude.{
  ℕ, ◌≡◌, ◌≢◌, refl, ap, get_or, false, ◌==◌, arith, List, [], ◌∷◌, none, some,
}
use libvarlink.KeyOrder.{strcmp}
use libvarlink.Error.{invalid_type}
use libvarlink.Types.{
  VarlinkType, done, failed, overread, out_of_fuel, varlink_type_new, bool_type, maybe_type,
  map_type, array_type, object_type, enum_type, bare_field, typed_field, no_fields,
  varlink_type_new_from_scanner, read_fields, read_type, read_bracket, read_maybe, read_object,
  read_word, read_alias, finish_field, read_field, insert_name, expect_comma, decide_kind,
  read_keyword_type,
}
use libvarlink.Scanner.{
  scanner_new, scanner_error, advance_step, advance_over, scanner_advance, scanner_peek, word_run,
  scanner_word_len, starts_with, scanner_read_keyword, scanner_expect_operator,
}
use libvarlink.Scanner.Names.{field_rest_valid, scanner_expect_field_name, scanner_expect_type_name}
use libvarlink.Scanner.Docs.{doc_step, docstring_from, scanner_get_last_docstring}
use libvarlink.Types.Print.{
  varlink_type_get_typestring, no_marks, varlink_type_print, print_fields, is_multiline, doc_lines,
  indentation, print_doc, print_lead,
}
use libvarlink.Types.Printable.{Printable, Bare, Typed}
use libvarlink.Types.RoundTrip.{varlink_type_new-get_typestring}
use libvarlink.Types.Total.{varlink_type_new-ends}
use libvarlink.Prelude.{inr}
use libvarlink.Types.{alias_type}
use libvarlink.Scanner.Names.{interface_name_valid, count_sections, member_name_valid, all_alnum}
use libvarlink.Types.TypeNames.{Qualified}
use libvarlink.Types.Words.{field_name_valid}
use libvarlink.Avl.{
  avl_tree_new, avl_tree_insert, avl_tree_insert_subtree, node_rebalance, node_get_balance,
  update_height,
}

-- "[string](a: bool, b: []bool)", and "(#", where the loop over the comment reads behind the text.
parsed :
    ((varlink_type_new (
        b'[' ∷ b's' ∷ b't' ∷ b'r' ∷ b'i' ∷ b'n' ∷ b'g' ∷ b']' ∷ b'(' ∷ b'a' ∷ b':' ∷ b' ' ∷ b'b'
        ∷ b'o' ∷ b'o' ∷ b'l' ∷ b',' ∷ b'b' ∷ b':' ∷ b'[' ∷ b']' ∷ b'b' ∷ b'o' ∷ b'o' ∷ b'l' ∷ b')'
        ∷ [])).1
      ≡ done (
          map_type (
            object_type (
              typed_field
                (b'a' ∷ [])
                none
                bool_type
                (typed_field (b'b' ∷ []) none (array_type bool_type) no_fields)))))
    × ((varlink_type_new (b'(' ∷ b'#' ∷ [])).1 ≡ overread)
    × ((varlink_type_new (b'(' ∷ b'a' ∷ b',' ∷ b'a' ∷ b')' ∷ [])).1 ≡ failed invalid_type)
unfolding varlink_type_new varlink_type_new_from_scanner read_fields read_type read_bracket
    read_maybe read_object read_word read_alias finish_field read_field insert_name expect_comma
    decide_kind read_keyword_type scanner_new scanner_error advance_step advance_over
    scanner_advance scanner_peek word_run scanner_word_len starts_with scanner_read_keyword
    scanner_expect_operator field_rest_valid scanner_expect_field_name scanner_expect_type_name
    doc_step docstring_from scanner_get_last_docstring avl_tree_new avl_tree_insert
    avl_tree_insert_subtree node_rebalance node_get_balance update_height strcmp
parsed = (refl, refl, refl)

-- "a.b.C"
abbrev foreign_name : List ℕ
foreign_name = b'a' ∷ b'.' ∷ b'b' ∷ b'.' ∷ b'C' ∷ []

foreign_name-Qualified : Qualified foreign_name
unfolding interface_name_valid count_sections member_name_valid all_alnum
foreign_name-Qualified = record {
  interface = b'a' ∷ b'.' ∷ b'b' ∷ [];
  member = b'C' ∷ [];
  split = refl;
  lower = refl;
  interface_valid = refl;
  member_valid = refl;
}

-- "[string](ab: ?[]a.b.C, c: (x, y))"
abbrev two_fields : VarlinkType
two_fields = map_type (
    object_type (
      typed_field (b'a' ∷ b'b' ∷ []) none (maybe_type (array_type (alias_type foreign_name))) (
        typed_field (b'c' ∷ []) none
          (enum_type (bare_field (b'x' ∷ []) none (bare_field (b'y' ∷ []) none no_fields)))
          no_fields)))

differ_heads : (c d : ℕ) (cs ds : List ℕ) → (c == d) ≡ false → c ∷ cs ≢ d ∷ ds
differ_heads c d cs ds f e = let same : c ≡ d = ap (λ l. get_or l 0 0) e in ground arith

two_fields-Printable : Printable two_fields
unfolding Printable Bare Typed field_name_valid field_rest_valid
two_fields-Printable = (
  refl,
  refl,
  (differ_heads _ _ _ _ refl, tt),
  (inr foreign_name-Qualified, tt),
  (refl, refl, tt, (tt, (refl, refl, (differ_heads _ _ _ _ refl, tt), (refl, refl, tt, tt))), tt),
)

varlink_type_new-get_typestring_example :
    (varlink_type_new (varlink_type_get_typestring two_fields)).1 ≡ done two_fields
varlink_type_new-get_typestring_example =
    varlink_type_new-get_typestring two_fields two_fields-Printable

-- A description is printed above its field, and the fields stand on lines of their own.
lines :
    varlink_type_print no_marks
      (some 0)
      (object_type (typed_field (b'a' ∷ []) (some (b'd' ∷ b'\n' ∷ [])) bool_type no_fields))
    ≡ b'(' ∷ b'\n' ∷ b' ' ∷ b' ' ∷ b'#' ∷ b' ' ∷ b'd' ∷ b'\n' ∷ b' ' ∷ b' ' ∷ b'a' ∷ b':' ∷ b' '
      ∷ b'b' ∷ b'o' ∷ b'o' ∷ b'l' ∷ b'\n' ∷ b')' ∷ []
unfolding varlink_type_print print_fields is_multiline doc_lines indentation print_doc print_lead
    varlink_type_get_typestring
lines = refl

varlink_type_new-ends_example : (varlink_type_new (b'(' ∷ b'#' ∷ [])).1 ≢ out_of_fuel
varlink_type_new-ends_example = varlink_type_new-ends (b'(' ∷ b'#' ∷ [])
