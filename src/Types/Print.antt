-- ===== src/Types/Print.antt =====
-- lib/type.c: `varlink_type_print`. Writing to the stream succeeds; what is written is the result.
use libvarlink.Prelude.{
  ℕ, zero, suc, List, [], ◌∷◌, ◌++◌, Bool, true, false, not, ◌||◌, ◌&&◌, Option, none, some, ◌==◌,
  ltb, if◌then◌else◌, length,
}
use libvarlink.Types.{
  VarlinkType, bool_type, int_type, float_type, string_type, foreign_object, array_type, map_type,
  maybe_type, alias_type, enum_type, object_type, Fields, no_fields, bare_field, typed_field,
  string_keyword,
}

abbrev pub bool_keyword : List ℕ
bool_keyword = b'b' ∷ b'o' ∷ b'o' ∷ b'l' ∷ []

abbrev pub int_keyword : List ℕ
int_keyword = b'i' ∷ b'n' ∷ b't' ∷ []

abbrev pub float_keyword : List ℕ
float_keyword = b'f' ∷ b'l' ∷ b'o' ∷ b'a' ∷ b't' ∷ []

abbrev pub object_keyword : List ℕ
object_keyword = b'o' ∷ b'b' ∷ b'j' ∷ b'e' ∷ b'c' ∷ b't' ∷ []

abbrev pub n_fields : Fields → ℕ
n_fields no_fields = 0
n_fields (bare_field name d rest) = suc (n_fields rest)
n_fields (typed_field name d t rest) = suc (n_fields rest)

abbrev pub is_described : Option (List ℕ) → Bool
is_described none = false
is_described (some d) = true

abbrev pub is_nested : VarlinkType → Bool
is_nested (enum_type _) = true
is_nested (object_type _) = true
is_nested _ = false

-- A field that has a description, or a nested type.
abbrev pub any_field : Fields → Bool
any_field no_fields = false
any_field (bare_field name d rest) = is_described d || any_field rest
any_field (typed_field name d t rest) = is_described d || is_nested t || any_field rest

abbrev pub is_object : VarlinkType → Bool
is_object (object_type _) = true
is_object _ = false

-- The type's line, as `varlink_type_get_typestring` returns it, is an argument.
unfoldable pub is_multiline : VarlinkType → Fields → List ℕ → Bool
is_multiline t fs typestring =
    if n_fields fs == 0
    then false
    else if is_object t && ltb 2 (n_fields fs)
    then true
    else if any_field fs
    then true
    else ltb 40 (length typestring)

-- A description's lines; what follows the last newline is a line only if it is not empty.
abbrev pub push_char : ℕ → List (List ℕ) → List (List ℕ)
push_char c [] = (c ∷ []) ∷ []
push_char c (l ∷ ls) = (c ∷ l) ∷ ls

unfoldable pub doc_lines : List ℕ → List (List ℕ)
doc_lines [] = []
doc_lines (c ∷ cs) = let rest = doc_lines cs in if c == b'\n' then [] ∷ rest else push_char c rest

unfoldable pub indentation : ℕ → List ℕ
indentation zero = []
indentation (suc n) = b' ' ∷ b' ' ∷ indentation n

abbrev pub deeper : Option ℕ → Option ℕ
deeper none = none
deeper (some n) = some (suc n)

-- The strings that mark comments and types up; NULL marks a type up with nothing.
pub record Marks : Type 0 where
  pub comment_pre : List ℕ
  pub comment_post : List ℕ
  pub type_pre : List ℕ
  pub type_post : List ℕ

abbrev pub no_marks : Marks
no_marks = record { comment_pre = []; comment_post = []; type_pre = []; type_post = [] }

abbrev pub marked : Marks → List ℕ → List ℕ
marked m word = m.type_pre ++ (word ++ m.type_post)

unfoldable pub print_doc : Marks → ℕ → List (List ℕ) → List ℕ
print_doc m n [] = []
print_doc m n (l ∷ ls) =
    indentation n
    ++ (m.comment_pre
        ++ (b'#'
            ∷ ((if length l == 0 then [] else b' ' ∷ l)
                ++ (m.comment_post ++ b'\n' ∷ print_doc m n ls))))

-- What stands in front of a field's name where the type is printed on several lines. The indent is `none` for -1.
unfoldable pub print_lead : Marks → ℕ → Bool → Bool → Option (List ℕ) → List ℕ
print_lead m n first printed none = b'\n' ∷ indentation n
print_lead m n first printed (some d) =
    b'\n'
    ∷ ((if not first && not printed then b'\n' ∷ [] else [])
        ++ (print_doc m n (doc_lines d) ++ indentation n))

abbrev pub lead : Marks → Bool → Option ℕ → Bool → Bool → Option (List ℕ) → List ℕ
lead m false indent first printed d = []
lead m true none first printed d = []
lead m true (some n) first printed d = print_lead m (suc n) first printed d

-- What stands behind a field.
abbrev pub behind : Bool → Option (List ℕ) → Fields → List ℕ
behind multiline d no_fields = []
behind multiline d _ =
    b',' ∷ (if not multiline then b' ' ∷ [] else if is_described d then b'\n' ∷ [] else [])

abbrev pub close_lines : Bool → Option ℕ → List ℕ
close_lines false indent = []
close_lines true none = []
close_lines true (some n) = b'\n' ∷ indentation n

-- The test is made only for an indent that is not -1.
abbrev pub multiline_at : Option ℕ → VarlinkType → Fields → List ℕ → Bool
multiline_at none t fs typestring = false
multiline_at (some n) t fs typestring = is_multiline t fs typestring

-- `(`, the fields, `)`.
abbrev pub bracketed : Bool → Option ℕ → List ℕ → List ℕ
bracketed multiline indent fields = b'(' ∷ (fields ++ (close_lines multiline indent ++ b')' ∷ []))

unfoldable mutual
  pub varlink_type_print : Marks → Option ℕ → VarlinkType → List ℕ
  varlink_type_print m indent bool_type = marked m bool_keyword
  varlink_type_print m indent int_type = marked m int_keyword
  varlink_type_print m indent float_type = marked m float_keyword
  varlink_type_print m indent string_type = marked m string_keyword
  varlink_type_print m indent foreign_object = marked m object_keyword
  varlink_type_print m indent (array_type t) = b'[' ∷ b']' ∷ varlink_type_print m indent t
  varlink_type_print m indent (map_type t) =
      b'[' ∷ (marked m string_keyword ++ b']' ∷ varlink_type_print m indent t)
  varlink_type_print m indent (maybe_type t) = b'?' ∷ varlink_type_print m indent t
  varlink_type_print m indent (alias_type name) = marked m name
  varlink_type_print m indent (enum_type fields) =
      let line = bracketed false none (print_fields no_marks false none true false fields) in
      let multiline = multiline_at indent (enum_type fields) fields line in
      bracketed multiline indent (print_fields m multiline indent true false fields)
  varlink_type_print m indent (object_type fields) =
      let line = bracketed false none (print_fields no_marks false none true false fields) in
      let multiline = multiline_at indent (object_type fields) fields line in
      bracketed multiline indent (print_fields m multiline indent true false fields)

  -- Is this the first field, was a description printed for the one before?
  pub print_fields : Marks → Bool → Option ℕ → Bool → Bool → Fields → List ℕ
  print_fields m multiline indent first printed no_fields = []
  print_fields m multiline indent first printed (bare_field name d rest) =
      lead m multiline indent first printed d
      ++ (name
          ++ (behind multiline d rest
              ++ print_fields m multiline indent false (is_described d) rest))
  print_fields m multiline indent first printed (typed_field name d t rest) =
      lead m multiline indent first printed d
      ++ (name
          ++ (b':'
              ∷ b' '
              ∷ (varlink_type_print m (deeper indent) t
                  ++ (behind multiline d rest
                      ++ print_fields m multiline indent false (is_described d) rest))))

-- The indent is -1, so all stands on one line, without comments.
unfoldable pub varlink_type_get_typestring : VarlinkType → List ℕ
varlink_type_get_typestring t = varlink_type_print no_marks none t
