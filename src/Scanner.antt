-- ===== src/Scanner.antt =====
-- lib/scanner.c, lib/scanner.h: the tokenizer of interface descriptions and of JSON.
--
-- A string is the list of its bytes, without the final NUL; `scanner->p[i]` past the end reads 0.
-- The pointers `p`, `pline` and `last_comment_start` are offsets into the string. A function that
-- works on a `Scanner *` returns the new scanner with its result.
pub mod Names
pub mod Strings
pub mod Docs
mod Tests
use Prim.Native.Nat.{Ordering}
use libvarlink.Prelude.{
  ℕ, zero, suc, ◌+◌, ◌-◌, ◌≡◌, Bool, true, false, not, ◌&&◌, ◌||◌, List, [], ◌∷◌, Option, none,
  some, Result, ok, err, ltb, leb, ◌==◌, if◌then◌else◌, length, get_or, drop, take,
}
use libvarlink.Error.{VarlinkError, invalid_identifier}

-- SCANNER_ERROR_*
pub data ScannerError : Type 0 where
  panic interface_keyword_expected keyword_expected duplicate_field_name : ScannerError
  interface_name_invalid object_expected duplicate_member_name member_name_invalid : ScannerError
  unknown_type field_name_invalid type_name_invalid invalid_character : ScannerError
  operator_expected type_expected json_expected : ScannerError

-- `error` of the struct, with `no` in place of 0 as `none`.
pub record ErrorAt : Type 0 where
  pub no : ScannerError
  pub line_nr : ℕ
  pub pos_nr : ℕ

pub record Scanner : Type 0 where
  pub string : List ℕ
  pub p : ℕ
  pub pline : ℕ
  pub line_nr : ℕ
  pub comments : Bool
  pub last_comment_start : Option ℕ
  pub error : Option ErrorAt

-- What the pointer `p` points to.
abbrev pub text : Scanner → List ℕ
text s = drop s.p s.string

-- `scanner->p[i]`
abbrev pub char_at : Scanner → ℕ → ℕ
char_at s i = get_or (text s) i 0

-- Only the first error is kept.
unfoldable pub scanner_error : Scanner → ScannerError → Scanner
scanner_error s e = elim s.error [
  | none ↦ record s {
    error = some (record { no = e; line_nr = s.line_nr; pos_nr = 1 + s.p - s.pline });
  }
  | some _ ↦ s
]

unfoldable pub scanner_new : List ℕ → Bool → Scanner
scanner_new string comments = record {
  string = string;
  p = 0;
  pline = 0;
  line_nr = 1;
  comments = comments;
  last_comment_start = none;
  error = none;
}

abbrev pub within : ℕ → ℕ → ℕ → Bool
within lo hi c = leb lo c && leb c hi

abbrev pub is_alpha : ℕ → Bool
is_alpha c = within b'a' b'z' c || within b'A' b'Z' c

abbrev pub is_alnum : ℕ → Bool
is_alnum c = is_alpha c || within b'0' b'9' c

abbrev pub is_word : ℕ → Bool
is_word c = is_alnum c || c == b'_' || c == b'-' || c == b'.'

-- One round of `scanner_advance` at the byte `c`: where to go on, or `none` to stop. The flag says
-- that `strchrnul` is on its way to the end of a comment.
unfoldable pub advance_step : Bool → ℕ → Scanner → Option (Bool × Scanner)
advance_step in_comment c s =
    if c == b'\n'
    then some (
      false,
      record s {
        last_comment_start = if s.pline == s.p then none else s.last_comment_start;
        p = s.p + 1;
        pline = s.p + 1;
        line_nr = s.line_nr + 1;
      },
    )
    else if in_comment
    then some (true, record s { p = s.p + 1 })
    else if c == b' ' || c == b'\t'
    then some (false, record s { p = s.p + 1 })
    else if c == b'#' && s.comments
    then some (
      true,
      record s {
        last_comment_start = elim s.last_comment_start [ none ↦ some s.p | some q ↦ some q ];
        p = s.p + 1;
      },
    )
    else none

-- The loop of `scanner_advance`, over what stands at `p`.
unfoldable pub advance_over : Bool → List ℕ → Scanner → Scanner
advance_over in_comment [] s = s
advance_over in_comment (c ∷ cs) s = elim (advance_step in_comment c s) [
  | none ↦ s
  | some (m, t) ↦ advance_over m cs t
]

unfoldable pub scanner_advance : Scanner → Scanner
scanner_advance s = advance_over false (text s) s

unfoldable pub scanner_peek : Scanner → Scanner × ℕ
scanner_peek s = let t = scanner_advance s in (t, char_at t 0)

-- The length of the run of word characters.
unfoldable pub word_run : List ℕ → ℕ
word_run [] = 0
word_run (c ∷ cs) = if is_word c then suc (word_run cs) else 0

abbrev pub word_at : List ℕ → ℕ
word_at [] = 0
word_at (c ∷ cs) = if is_alpha c then suc (word_run cs) else 0

unfoldable pub scanner_word_len : Scanner → Scanner × ℕ
scanner_word_len s = let t = scanner_advance s in (t, word_at (text t))

-- `strncmp (text, op, strlen (op)) == 0`
unfoldable pub starts_with : List ℕ → List ℕ → Bool
starts_with cs [] = true
starts_with [] (d ∷ ds) = false
starts_with (c ∷ cs) (d ∷ ds) = c == d && starts_with cs ds

abbrev pub advance_by : Scanner → ℕ → Scanner
advance_by s n = record s { p = s.p + n }

unfoldable pub scanner_read_keyword : Scanner → List ℕ → Scanner × Bool
scanner_read_keyword s keyword =
    let (t, word_len) = scanner_word_len s in
    if not (word_len == length keyword)
    then (t, false)
    else if not (starts_with (text t) keyword)
    then (t, false)
    else (advance_by t word_len, true)

unfoldable pub scanner_expect_operator : Scanner → List ℕ → Scanner × Result VarlinkError (Unit {0})
scanner_expect_operator s op =
    let t = scanner_advance s in
    if not (starts_with (text t) op)
    then (scanner_error t operator_expected, err invalid_identifier)
    else (advance_by t (length op), ok tt)
