-- ===== src/Json/Tests.antt =====
-- lib/value.c, lib/scanner.c: strings written and read.
use Prim.Native.Char.{code}
use Prim.Native.String.{String}
use libvarlink.Prelude.{ℕ, ◌≡◌, refl, List, [], ◌∷◌, ◌++◌, Result, ok, err, false}
use libvarlink.Error.{VarlinkError, invalid_json}
use libvarlink.Scanner.{text, scanner_new, scanner_advance, advance_over, advance_step}
use libvarlink.Scanner.Strings.{
  unhex, hex4, utf8_bytes, low_surrogate, read_unicode_char, simple_escape, escape_round,
  string_round, read_string, end_string, scanner_expect_string,
}
use libvarlink.Json.{hex_digit, write_byte, json_write_string, write_string_value}
use libvarlink.Json.RoundTrip.{expect_string-write_string_value}

abbrev codes : String → List ℕ
codes String.[] = []
codes (String.◌∷◌ c s) = code c ∷ codes s

-- A verifier that accepts all.
abbrev lenient : List ℕ → ℕ
lenient s = 0

written : json_write_string (codes "a\"\\\n" ++ 1 ∷ []) ≡ codes "a\\\"\\\\\\n\\u0001"
unfolding json_write_string write_byte hex_digit
written = refl

read : List ℕ → Result VarlinkError (List ℕ)
unfolding scanner_expect_string scanner_new scanner_advance advance_over advance_step end_string
    read_string string_round escape_round simple_escape read_unicode_char low_surrogate utf8_bytes
    hex4 unhex
read s = (scanner_expect_string lenient (scanner_new s false)).1

-- A surrogate pair is one code point, of four bytes.
surrogates : read (codes "  \"x\\ud83d\\ude00\"") ≡ ok (b'x' ∷ 0xf0 ∷ 0x9f ∷ 0x98 ∷ 0x80 ∷ [])
unfolding read
surrogates = refl

lone_surrogate : read (codes "\"\\ude00\"") ≡ err invalid_json
unfolding read
lone_surrogate = refl

expect_string-write_string_value_example :
    ((scanner_expect_string lenient
        (scanner_new (write_string_value [] [] (1 ∷ 34 ∷ []) ++ 44 ∷ []) false)).1
      ≡ ok (1 ∷ 34 ∷ []))
    × (text
          (scanner_expect_string lenient
            (scanner_new (write_string_value [] [] (1 ∷ 34 ∷ []) ++ 44 ∷ []) false)).0
        ≡ 44 ∷ [])
unfolding scanner_new
expect_string-write_string_value_example =
    expect_string-write_string_value lenient
      (scanner_new (write_string_value [] [] (1 ∷ 34 ∷ []) ++ 44 ∷ []) false) (1 ∷ 34 ∷ [])
      (44 ∷ []) refl refl
