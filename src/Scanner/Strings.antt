-- ===== src/Scanner/Strings.antt =====
-- lib/scanner.c: JSON strings. `c_utf8_verify` of lib/c-utf8.c, a copy of another project, is a
-- parameter: what it leaves unverified of a byte string, as a length.
pub mod Total
use libvarlink.Prelude.{
  ℕ, zero, suc, ◌+◌, ◌-◌, ◌*◌, ◌/◌, ◌%◌, not, ◌&&◌, ◌||◌, List, [], ◌∷◌, ◌++◌, Option, none, some,
  Result, ok, err, ltb, leb, ◌==◌, if◌then◌else◌, length, drop,
}
use libvarlink.Error.{VarlinkError, invalid_json}
use libvarlink.Scanner.{
  Scanner, invalid_character, text, char_at, scanner_error, scanner_advance, within,
}

unfoldable pub unhex : ℕ → Option ℕ
unhex d =
    if within b'0' b'9' d
    then some (d - b'0')
    else if within b'a' b'f' d
    then some (d - b'a' + 0x0a)
    else if within b'A' b'F' d
    then some (d - b'A' + 0x0a)
    else none

-- `digits[0] << 12 | digits[1] << 8 | digits[2] << 4 | digits[3]`, of digits below 16.
abbrev pub code_unit : ℕ → ℕ → ℕ → ℕ → ℕ
code_unit a b c d = a * 4096 + b * 256 + c * 16 + d

unfoldable pub hex4 : List ℕ → Option ℕ
hex4 (a ∷ b ∷ c ∷ d ∷ _) = elim (unhex a) [
  | none ↦ none
  | some x ↦ elim (unhex b) [
    | none ↦ none
    | some y ↦ elim (unhex c) [
      | none ↦ none
      | some z ↦ elim (unhex d) [ none ↦ none | some w ↦ some (code_unit x y z w) ]
    ]
  ]
]
hex4 _ = none

-- The bytes written for a code point; `|` joins bits that do not overlap, so it is `+`.
unfoldable pub utf8_bytes : ℕ → List ℕ
utf8_bytes cp =
    if leb cp 0x7f
    then cp ∷ []
    else if leb cp 0x7ff
    then (0xc0 + cp / 64) ∷ (0x80 + cp % 64) ∷ []
    else if leb 0x800 cp && leb cp 0xffff
    then (0xe0 + cp / 4096) ∷ (0x80 + cp / 64 % 64) ∷ (0x80 + cp % 64) ∷ []
    else if leb 0x10000 cp && leb cp 0x10ffff
    then (0xf0 + cp / 262144)
      ∷ (0x80 + cp / 4096 % 64)
      ∷ (0x80 + cp / 64 % 64)
      ∷ (0x80 + cp % 64)
      ∷ []
    else []

-- The second half of a surrogate pair: the code point, if `\u` and a low surrogate follow.
unfoldable pub low_surrogate : ℕ → List ℕ → Option ℕ
low_surrogate high (a ∷ b ∷ ps) =
    if a == b'\\' && b == b'u'
    then elim (hex4 ps) [
      | none ↦ none
      | some cu ↦
          if ltb cu 0xdc00 || ltb 0xdfff cu
          then none
          else some (0x10000 + (high - 0xd800) * 1024 + (cu - 0xdc00))
    ]
    else none
low_surrogate high _ = none

-- What is written, and the `size` returned; `none` is the returned 0.
unfoldable pub read_unicode_char : List ℕ → Option (List ℕ × ℕ)
read_unicode_char p = elim (hex4 p) [
  | none ↦ none
  | some cu ↦
      if within 0xd800 0xdbff cu
      then elim (low_surrogate cu (drop 4 p)) [ none ↦ none | some cp ↦ some (utf8_bytes cp, 10) ]
      else if within 0xdc00 0xdfff cu
      then none
      else some (utf8_bytes cu, 4)
]

-- The single byte that a backslash and this byte stand for.
unfoldable pub simple_escape : ℕ → Option ℕ
simple_escape e =
    if e == b'"' || e == b'\\' || e == b'/'
    then some e
    else if e == b'b'
    then some 8
    else if e == b'f'
    then some 12
    else if e == b'n'
    then some 10
    else if e == b'r'
    then some 13
    else if e == b't'
    then some 9
    else none

-- How the loop of `scanner_expect_string` ends: at the closing quote, with what was written and what
-- follows; with INVALID_JSON alone; with SCANNER_ERROR_INVALID_CHARACTER too; or out of fuel.
pub data StringEnd : Type 0 where
  closed : List ℕ → List ℕ → StringEnd
  broken : StringEnd
  bad_character : StringEnd
  out_of_fuel : StringEnd

-- One round of the loop: the end, or what is written and where to go on.
pub data Round : Type 0 where
  stop : StringEnd → Round
  write : List ℕ → List ℕ → Round

unfoldable pub escape_round : List ℕ → Round
escape_round [] = stop bad_character
escape_round (e ∷ ps) = elim (simple_escape e) [
  | some b ↦ write (b ∷ []) ps
  | none ↦
      if e == b'u'
      then elim (read_unicode_char ps) [
        | none ↦ stop bad_character
        | some (bytes, size) ↦ write bytes (drop size ps)
      ]
      else stop bad_character
]

unfoldable pub string_round : List ℕ → List ℕ → Round
string_round out [] = stop broken
string_round out (c ∷ cs) =
    if c == 9 || c == 10
    then stop broken
    else if c == b'"'
    then stop (closed out cs)
    else if c == b'\\'
    then escape_round cs
    else write (c ∷ []) cs

unfoldable pub read_string : ℕ → List ℕ → List ℕ → StringEnd
read_string zero out p = out_of_fuel
read_string (suc fuel) out p = elim (string_round out p) [
  | stop e ↦ e
  | write bytes rest ↦ read_string fuel (out ++ bytes) rest
]

-- The number of bytes that `c_utf8_verify` leaves unverified.
module _ (c_utf8_verify : List ℕ → ℕ) where
  unfoldable pub end_string : Scanner → StringEnd → Scanner × Result VarlinkError (List ℕ)
  end_string s (closed out rest) =
      if not (c_utf8_verify out == 0)
      then (scanner_error s invalid_character, err invalid_json)
      else (record s { p = length s.string - length rest }, ok out)
  end_string s broken = (s, err invalid_json)
  end_string s bad_character = (scanner_error s invalid_character, err invalid_json)
  end_string s out_of_fuel = (s, err invalid_json)

  -- The fuel is the length of the text from the opening quote on.
  unfoldable pub scanner_expect_string : Scanner → Scanner × Result VarlinkError (List ℕ)
  scanner_expect_string s =
      let t = scanner_advance s in
      if not (char_at t 0 == b'"')
      then (t, err invalid_json)
      else end_string t (read_string (length (text t)) [] (drop 1 (text t)))
