-- ===== src/Scanner/Names.antt =====
-- lib/scanner.c: the names of interfaces, fields, members and types.
use libvarlink.Prelude.{
  ℕ, ◌+◌, ◌-◌, Bool, true, false, not, ◌&&◌, ◌||◌, List, [], ◌∷◌, Option, none, some, Result, ok,
  err, ltb, ◌==◌, if◌then◌else◌, length, get_or, drop, take,
}
use libvarlink.Error.{VarlinkError, invalid_interface, invalid_type, invalid_identifier}
use libvarlink.Scanner.{
  Scanner, ScannerError, interface_name_invalid, field_name_invalid, member_name_invalid,
  type_name_invalid, text, char_at, scanner_error, within, is_alpha, is_alnum, scanner_word_len,
  advance_by,
}

-- The loop of `interface_name_valid` over the name: the number of sections, or `none` to refuse.
unfoldable pub count_sections : ℕ → ℕ → List ℕ → Option ℕ
count_sections previous sections [] = some sections
count_sections previous sections (c ∷ cs) =
    let rest = count_sections c (if c == b'.' then sections + 1 else sections) cs in
    if is_alnum c
    then rest
    else if c == b'-'
    then (if previous == b'.' then none else rest)
    else if c == b'.'
    then (if previous == b'.' || previous == b'-' then none else rest)
    else none

-- On the name's bytes: the `len` bytes at the pointer.
unfoldable pub interface_name_valid : List ℕ → Bool
interface_name_valid name =
    if ltb (length name) 3 || ltb 255 (length name) then false else elim (count_sections 0 1 name) [
      | none ↦ false
      | some sections ↦
          is_alpha (get_or name 0 0)
          && not (ltb sections 2)
          && is_alnum (get_or name (length name - 1) 0)
    ]

abbrev pub name_at : Scanner → ℕ → List ℕ
name_at s len = take len (text s)

-- `strndup (scanner->p, len)`, and past it.
abbrev accept : Scanner → ℕ → Scanner × Result VarlinkError (List ℕ)
accept s len = (advance_by s len, ok (name_at s len))

abbrev refuse : Scanner → ScannerError → VarlinkError → Scanner × Result VarlinkError (List ℕ)
refuse s number e = (scanner_error s number, err e)

unfoldable pub scanner_expect_interface_name : Scanner → Scanner × Result VarlinkError (List ℕ)
scanner_expect_interface_name s =
    let (t, len) = scanner_word_len s in
    if not (interface_name_valid (name_at t len))
    then refuse t interface_name_invalid invalid_interface
    else accept t len

-- The loop of `scanner_expect_field_name`, behind the byte `previous`.
unfoldable pub field_rest_valid : ℕ → List ℕ → Bool
field_rest_valid previous [] = true
field_rest_valid previous (c ∷ cs) =
    (is_alnum c || (c == b'_' && not (previous == b'_'))) && field_rest_valid c cs

unfoldable pub scanner_expect_field_name : Scanner → Scanner × Result VarlinkError (List ℕ)
scanner_expect_field_name s =
    let (t, len) = scanner_word_len s in
    if not (is_alpha (char_at t 0))
    then refuse t field_name_invalid invalid_type
    else if not (field_rest_valid (char_at t 0) (drop 1 (name_at t len)))
    then refuse t field_name_invalid invalid_type
    else if not (is_alnum (char_at t (len - 1)))
    then refuse t field_name_invalid invalid_type
    else accept t len

unfoldable pub all_alnum : List ℕ → Bool
all_alnum [] = true
all_alnum (c ∷ cs) = is_alnum c && all_alnum cs

-- `*member` is read also where `len` is 0: there it is no letter, since the word would have one.
unfoldable pub member_name_valid : List ℕ → ℕ → Bool
member_name_valid member len =
    within b'A' b'Z' (get_or member 0 0) && all_alnum (drop 1 (take len member))

unfoldable pub scanner_expect_member_name : Scanner → Scanner × Result VarlinkError (List ℕ)
scanner_expect_member_name s =
    let (t, len) = scanner_word_len s in
    if not (member_name_valid (text t) len)
    then refuse t member_name_invalid invalid_identifier
    else accept t len

-- Where the loop of `scanner_expect_type_name` stops: at no upper-case letter, at one that does not
-- follow a dot, or at the first letter of the member.
pub data MemberStart : Type 0 where
  no_capital : MemberStart
  no_dot : MemberStart
  member_at : ℕ → MemberStart

-- For `i = 0` the byte in front of the word is read; it is no part of the word, and what is found
-- there is refused by `interface_name_valid` in any case, so it counts as no dot.
unfoldable pub find_member : ℕ → ℕ → List ℕ → MemberStart
find_member i previous [] = no_capital
find_member i previous (c ∷ cs) =
    let rest = find_member (i + 1) c cs in
    if within b'A' b'Z' c then (if previous == b'.' then member_at i else no_dot) else rest

unfoldable pub scanner_expect_type_name : Scanner → Scanner × Result VarlinkError (List ℕ)
scanner_expect_type_name s =
    let (t, len) = scanner_word_len s in
    if member_name_valid (text t) len
    then accept t len
    else if ltb len 3
    then refuse t type_name_invalid invalid_identifier
    else elim (find_member 0 0 (name_at t len)) [
      | no_capital ↦ refuse t type_name_invalid invalid_identifier
      | no_dot ↦ refuse t type_name_invalid invalid_identifier
      | member_at i ↦
          if not (interface_name_valid (name_at t (i - 1)))
          then refuse t type_name_invalid invalid_identifier
          else if not (member_name_valid (drop i (text t)) (len - i))
          then refuse t type_name_invalid invalid_identifier
          else accept t len
    ]
