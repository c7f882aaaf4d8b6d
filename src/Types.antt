-- ===== src/Types.antt =====
-- lib/type.c, lib/type.h: the types of varlink, read from an interface description.
--
-- Allocation succeeds. A NULL `type` of a field, in an enumeration, is a `bare_field`. The tree
-- `fields_sorted` keeps the names only. The recursion runs on fuel, the length of the text and one
-- more at the start.
pub mod Print
mod Tokens
mod Words
mod Unique
mod Printable
mod TypeNames
mod Kinds
mod Rounds
mod Loop
pub mod RoundTrip
pub mod Remaining
pub mod Ending
pub mod Total
pub mod OneLine
mod Tests
use libvarlink.Prelude.{
  ℕ, zero, suc, ◌+◌, List, [], ◌∷◌, Bool, true, false, not, ◌&&◌, Option, none, some, Result, ok,
  err, ◌==◌, if◌then◌else◌, length,
}
use libvarlink.KeyOrder.{string_order}
use libvarlink.Error.{VarlinkError, panic, invalid_type}
use libvarlink.Avl.{AvlError, key_exists, AvlTree, avl_tree_new, avl_tree_insert}
use libvarlink.Scanner.{
  Scanner, ScannerError, duplicate_field_name, type_expected, text, scanner_new, scanner_error,
  scanner_peek, scanner_read_keyword, scanner_expect_operator,
}
use libvarlink.Scanner.Names.{scanner_expect_field_name, scanner_expect_type_name}
use libvarlink.Scanner.Docs.{
  Docstring, no_docstring, docstring, out_of_bounds, scanner_get_last_docstring,
}

mutual
  -- `struct VarlinkType`, by its kind.
  pub data VarlinkType : Type 0 where
    bool_type int_type float_type string_type foreign_object : VarlinkType
    array_type map_type maybe_type : VarlinkType → VarlinkType
    alias_type : List ℕ → VarlinkType
    enum_type object_type : Fields → VarlinkType

  -- `VarlinkTypeField`s: the name, the description, the type.
  pub data Fields : Type 0 where
    no_fields : Fields
    bare_field : List ℕ → Option (List ℕ) → Fields → Fields
    typed_field : List ℕ → Option (List ℕ) → VarlinkType → Fields → Fields

-- How a call ends: with a value, an error, a read behind the text, or out of fuel.
pub data Outcome {ℓ} (A : Type ℓ) : Type ℓ where
  done : A → Outcome A
  failed : VarlinkError → Outcome A
  overread : Outcome A
  out_of_fuel : Outcome A

abbrev pub Run {ℓ} : Type ℓ → Type ℓ
Run A = Scanner × Outcome A

infixl 5 ◌>>=◌
abbrev pub ◌>>=◌ {ℓ κ} : {A : Type ℓ} {B : Type κ} → Run A → (Scanner × A → Run B) → Run B
(s, done a) >>= f = f (s, a)
(s, failed e) >>= f = (s, failed e)
(s, overread) >>= f = (s, overread)
(s, out_of_fuel) >>= f = (s, out_of_fuel)

abbrev pub run {ℓ} : {A : Type ℓ} → Scanner × Result VarlinkError A → Run A
run (s, ok a) = (s, done a)
run (s, err e) = (s, failed e)

-- `if (call < 0) return -VARLINK_ERROR_INVALID_TYPE;`
abbrev pub or_invalid {ℓ} : {A : Type ℓ} → Scanner × Result VarlinkError A → Run A
or_invalid (s, ok a) = (s, done a)
or_invalid (s, err e) = (s, failed invalid_type)

abbrev pub expect_docstring : Scanner × Docstring → Run (Option (List ℕ))
expect_docstring (s, no_docstring) = (s, done none)
expect_docstring (s, docstring d) = (s, done (some d))
expect_docstring (s, out_of_bounds) = (s, overread)

abbrev pub type_keywords : List (List ℕ × VarlinkType)
type_keywords =
    (b'b' ∷ b'o' ∷ b'o' ∷ b'l' ∷ [], bool_type)
    ∷ (b'i' ∷ b'n' ∷ b't' ∷ [], int_type)
    ∷ (b'f' ∷ b'l' ∷ b'o' ∷ b'a' ∷ b't' ∷ [], float_type)
    ∷ (b's' ∷ b't' ∷ b'r' ∷ b'i' ∷ b'n' ∷ b'g' ∷ [], string_type)
    ∷ (b'o' ∷ b'b' ∷ b'j' ∷ b'e' ∷ b'c' ∷ b't' ∷ [], foreign_object)
    ∷ []

abbrev pub string_keyword : List ℕ
string_keyword = b's' ∷ b't' ∷ b'r' ∷ b'i' ∷ b'n' ∷ b'g' ∷ []

-- The first keyword of a table that stands in the text, tried in turn.
unfoldable pub read_keyword_type :
    Scanner → List (List ℕ × VarlinkType) → Scanner × Option VarlinkType
read_keyword_type s [] = (s, none)
read_keyword_type s ((keyword, t) ∷ more) =
    let (u, found) = scanner_read_keyword s keyword in
    let rest = read_keyword_type u more in if found then (u, some t) else rest

-- A type name that is not there is reported as a type expected, where no other error was.
abbrev pub alias_or_error : Scanner × Result VarlinkError (List ℕ) → Run VarlinkType
alias_or_error (s, ok name) = (s, done (alias_type name))
alias_or_error (s, err e) = (scanner_error s type_expected, failed e)

unfoldable pub read_alias : Scanner → Run VarlinkType
read_alias s = alias_or_error (scanner_expect_type_name s)

-- "Do not nest maybes"
abbrev pub check_maybe : VarlinkType → Outcome VarlinkType
check_maybe (maybe_type t) = failed invalid_type
check_maybe t = done (maybe_type t)

-- `avl_tree_insert (type->fields_sorted, field->name, field)` with its errors
abbrev pub name_key : List ℕ → List ℕ
name_key name = name

abbrev pub inserted : Scanner → Result AvlError (AvlTree (List ℕ)) → Run (AvlTree (List ℕ))
inserted s (ok tree) = (s, done tree)
inserted s (err key_exists) = (scanner_error s duplicate_field_name, failed invalid_type)
inserted s (err _) = (s, failed panic)

unfoldable pub insert_name : Scanner → AvlTree (List ℕ) → List ℕ → Run (AvlTree (List ℕ))
insert_name s tree name = inserted s (avl_tree_insert name_key tree name name)

-- A comma in front of every field but the first.
unfoldable pub expect_comma : Bool → Scanner → Run (Unit {0})
expect_comma first s =
    if first then (s, done tt) else or_invalid (scanner_expect_operator s (b',' ∷ []))

-- The kind of the type after the name of a field: the first one decides.
unfoldable pub decide_kind : Bool → Bool → Scanner → Scanner × Bool
decide_kind first enum s =
    let (t, c) = scanner_peek s in if first then (t, not (c == b':')) else (s, enum)

abbrev pub object_or_enum : Bool → Fields → VarlinkType
object_or_enum true fields = enum_type fields
object_or_enum false fields = object_type fields

-- The branches of `varlink_type_new_from_scanner`; the recursive calls are arguments.
unfoldable pub read_bracket : (Scanner → Run VarlinkType) → Scanner → Run VarlinkType
read_bracket read s = do
  (s, _) ← or_invalid (scanner_expect_operator s (b'[' ∷ []))
  let (s, is_map) = scanner_read_keyword s string_keyword
  (s, _) ← or_invalid (scanner_expect_operator s (b']' ∷ []))
  (s, element) ← read s
  (s, done (if is_map then map_type element else array_type element))

unfoldable pub read_maybe : (Scanner → Run VarlinkType) → Scanner → Run VarlinkType
read_maybe read s = do
  (s, _) ← or_invalid (scanner_expect_operator s (b'?' ∷ []))
  (s, element) ← read s
  (s, check_maybe element)

unfoldable pub read_object : (Scanner → Run (Bool × Fields)) → Scanner → Run VarlinkType
read_object read s = do
  (s, _) ← or_invalid (scanner_expect_operator s (b'(' ∷ []))
  (s, kind) ← read s
  (s, _) ← or_invalid (scanner_expect_operator s (b')' ∷ []))
  (s, done (object_or_enum kind.0 kind.1))

-- A keyword, or else, by the byte that was peeked at, an object or an alias.
abbrev pub keyword_or : (Scanner → Run VarlinkType) → Scanner × Option VarlinkType → Run VarlinkType
keyword_or read (s, some t) = (s, done t)
keyword_or read (s, none) = read s

unfoldable pub read_word : (Scanner → Run (Bool × Fields)) → ℕ → Scanner → Run VarlinkType
read_word read c s = if c == b'(' then read_object read s else read_alias s

unfoldable pub read_type :
    (Scanner → Run VarlinkType) → (Scanner → Run (Bool × Fields)) → Scanner × ℕ → Run VarlinkType
read_type read fields (s, c) =
    if c == b'['
    then read_bracket read s
    else if c == b'?'
    then read_maybe read s
    else keyword_or (read_word fields c) (read_keyword_type s type_keywords)

-- The end of a round of the loop over the fields, behind the name, by the kind of the type.
unfoldable pub finish_field :
    (Scanner → Run VarlinkType)
    → (Bool → AvlTree (List ℕ) → Scanner → Run (Bool × Fields))
    → AvlTree (List ℕ)
    → List ℕ
    → Option (List ℕ)
    → Scanner × Bool
    → Run (Bool × Fields)
finish_field read more tree name description (s, true) = do
  (s, tree) ← insert_name s tree name
  (s, rest) ← more true tree s
  (s, done (rest.0, bare_field name description rest.1))
finish_field read more tree name description (s, false) = do
  (s, _) ← or_invalid (scanner_expect_operator s (b':' ∷ []))
  (s, type) ← read s
  (s, tree) ← insert_name s tree name
  (s, rest) ← more false tree s
  (s, done (rest.0, typed_field name description type rest.1))

unfoldable pub read_field :
    (Scanner → Run VarlinkType)
    → (Bool → AvlTree (List ℕ) → Scanner → Run (Bool × Fields))
    → Bool
    → Bool
    → AvlTree (List ℕ)
    → Scanner
    → Run (Bool × Fields)
read_field read more first enum tree s = do
  (s, _) ← expect_comma first s
  (s, description) ← expect_docstring (scanner_get_last_docstring s)
  (s, name) ← run (scanner_expect_field_name s)
  finish_field read more tree name description (decide_kind first enum s)

-- A round of the loop: the closing bracket ends it.
abbrev pub unless_closed :
    (Scanner → Run (Bool × Fields)) → Bool → Scanner × ℕ → Run (Bool × Fields)
unless_closed read enum (s, c) = if c == b')' then (s, done (enum, no_fields)) else read s

unfoldable mutual
  pub varlink_type_new_from_scanner : ℕ → Scanner → Run VarlinkType
  varlink_type_new_from_scanner zero s = (s, out_of_fuel)
  varlink_type_new_from_scanner (suc fuel) s =
      read_type (λ t. varlink_type_new_from_scanner fuel t)
        (λ t. read_fields fuel true false avl_tree_new t) (scanner_peek s)

  -- The loop over the fields: is this the first one, is the type an enumeration, the names so far.
  pub read_fields : ℕ → Bool → Bool → AvlTree (List ℕ) → Scanner → Run (Bool × Fields)
  read_fields zero first enum tree s = (s, out_of_fuel)
  read_fields (suc fuel) first enum tree s =
      unless_closed
        (read_field (λ t. varlink_type_new_from_scanner fuel t)
          (λ e u t. read_fields fuel false e u t) first enum tree)
        enum (scanner_peek s)

-- Nothing may stand behind the type.
abbrev pub at_end : Scanner × VarlinkType → Run VarlinkType
at_end (s, t) =
    let (s, c) = scanner_peek s in if not (c == 0) then (s, failed invalid_type) else (s, done t)

unfoldable pub varlink_type_new : List ℕ → Run VarlinkType
varlink_type_new typestring =
    varlink_type_new_from_scanner (length typestring + 1) (scanner_new typestring true) >>= at_end
