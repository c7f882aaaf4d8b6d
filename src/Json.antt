-- ===== src/Json.antt =====
-- lib/value.c: JSON strings as they are written.
mod RoundTrip
mod Tests
use libvarlink.Prelude.{
  ℕ, zero, suc, ◌+◌, ◌-◌, ◌/◌, ◌%◌, List, [], ◌∷◌, ◌++◌, ltb, ◌==◌, if◌then◌else◌,
}

unfoldable pub hex_digit : ℕ → ℕ
hex_digit d = if ltb d 10 then b'0' + d else b'a' + (d - 10)

-- What `json_write_string` prints for one byte; `\u%04x` for the other control characters.
unfoldable pub write_byte : ℕ → List ℕ
write_byte c =
    if c == b'"'
    then b'\\' ∷ b'"' ∷ []
    else if c == b'\\'
    then b'\\' ∷ b'\\' ∷ []
    else if c == 8
    then b'\\' ∷ b'b' ∷ []
    else if c == 12
    then b'\\' ∷ b'f' ∷ []
    else if c == 10
    then b'\\' ∷ b'n' ∷ []
    else if c == 13
    then b'\\' ∷ b'r' ∷ []
    else if c == 9
    then b'\\' ∷ b't' ∷ []
    else if ltb c 0x20
    then b'\\' ∷ b'u' ∷ b'0' ∷ b'0' ∷ hex_digit (c / 16) ∷ hex_digit (c % 16) ∷ []
    else c ∷ []

unfoldable pub json_write_string : List ℕ → List ℕ
json_write_string [] = []
json_write_string (c ∷ s) = write_byte c ++ json_write_string s

-- The VARLINK_VALUE_STRING case of `varlink_value_write_json`, with the strings that mark values up.
unfoldable pub write_string_value : List ℕ → List ℕ → List ℕ → List ℕ
write_string_value value_pre value_post s =
    b'"' ∷ (value_pre ++ (json_write_string s ++ (value_post ++ b'"' ∷ [])))
