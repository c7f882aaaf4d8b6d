-- ===== src/Scanner/Tests.antt =====
-- lib/scanner.c on concrete text.
use libvarlink.Prelude.{◌≡◌, ◌≢◌, refl, [], ◌∷◌, arith}
use libvarlink.Scanner.Strings.{
  closed, broken, out_of_fuel, simple_escape, unhex, hex4, low_surrogate, utf8_bytes,
  read_unicode_char, escape_round, string_round, read_string,
}
use libvarlink.Scanner.Strings.Total.{read_string-ends}

-- `a\n"x`, with an escape; a tab inside; and the letter e with an acute accent as \u00e9.
strings :
    (read_string 9 [] (b'a' ∷ b'\\' ∷ b'n' ∷ b'"' ∷ b'x' ∷ [])
      ≡ closed (b'a' ∷ 10 ∷ []) (b'x' ∷ []))
    × (read_string 9 [] (9 ∷ b'"' ∷ []) ≡ broken)
    × (read_string 9 [] (b'\\' ∷ b'u' ∷ b'0' ∷ b'0' ∷ b'e' ∷ b'9' ∷ b'"' ∷ [])
        ≡ closed (0xc3 ∷ 0xa9 ∷ []) [])
unfolding read_string string_round escape_round simple_escape read_unicode_char hex4 unhex
    low_surrogate utf8_bytes
strings = (refl, refl, refl)

read_string-ends_example : read_string 3 [] (b'a' ∷ b'"' ∷ []) ≢ out_of_fuel
read_string-ends_example = read_string-ends 3 [] (b'a' ∷ b'"' ∷ []) (omega arith)
