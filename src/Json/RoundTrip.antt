-- ===== src/Json/RoundTrip.antt =====
-- lib/value.c, lib/scanner.c: what `json_write_string` prints is read back by `scanner_expect_string`.
use libvarlink.Prelude.{
  ℕ, zero, suc, ◌+◌, ◌-◌, ◌*◌, ◌/◌, ◌%◌, ◌≤◌, ◌<◌, ◌≡◌, refl, ◌∙◌, ap, sym, List, [], ◌∷◌, ◌++◌,
  some, ok, arith, length, length-append, take, take-append-drop, drop-append, append_assoc,
  append-nil, drop,
}
use libvarlink.Scanner.{Scanner, text, advance_step, advance_over, scanner_advance}
use libvarlink.Scanner.Strings.{
  unhex, hex4, utf8_bytes, read_unicode_char, simple_escape, write, stop, escape_round,
  string_round, closed, read_string, end_string, scanner_expect_string,
}
use libvarlink.Json.{hex_digit, write_byte, json_write_string, write_string_value}

unhex-hex_digit : (d : ℕ) → d < 16 → unhex (hex_digit d) ≡ some d
unfolding unhex hex_digit
unhex-hex_digit d h = ground arith

unhex_zero : unhex b'0' ≡ some 0
unfolding unhex
unhex_zero = refl

read_unicode_char-control :
    (c : ℕ) (rest : List ℕ)
    → c < 32
    → read_unicode_char (b'0' ∷ b'0' ∷ hex_digit (c / 16) ∷ hex_digit (c % 16) ∷ rest)
      ≡ some (c ∷ [], 4)
unfolding read_unicode_char hex4 utf8_bytes
read_unicode_char-control c rest h =
    let high = unhex-hex_digit (c / 16) (omega arith) in
    let low = unhex-hex_digit (c % 16) (omega arith) in
    let same : c / 16 * 16 + c % 16 ≡ c = omega arith in ground (arith, unhex_zero, high, low)

-- A printed byte is read in one round.
string_round-write_byte :
    (c : ℕ) (out rest : List ℕ) → string_round out (write_byte c ++ rest) ≡ write (c ∷ []) rest
unfolding string_round escape_round simple_escape write_byte
string_round-write_byte c out rest = ground (arith, read_unicode_char-control c rest)

string_round_quote : (out rest : List ℕ) → string_round out (b'"' ∷ rest) ≡ stop (closed out rest)
unfolding string_round
string_round_quote out rest = refl

-- A printed string, the closing quote and more are read up to the quote.
read_string-json_write_string :
    (s : List ℕ) (fuel : ℕ) (out rest : List ℕ)
    → length s < fuel
    → read_string fuel out (json_write_string s ++ b'"' ∷ rest) ≡ closed (out ++ s) rest
unfolding read_string json_write_string
read_string-json_write_string s zero out rest h = absurd (omega arith)
read_string-json_write_string [] (suc fuel) out rest h =
    rw (string_round_quote out rest, read_string) (ap (λ o. closed o rest) (sym (append-nil out)))
read_string-json_write_string (c ∷ s) (suc fuel) out rest h =
    rw
      (
        append_assoc (write_byte c) (json_write_string s) (b'"' ∷ rest),
        string_round-write_byte c out (json_write_string s ++ b'"' ∷ rest),
        read_string,
      )
      (read_string-json_write_string s fuel (out ++ c ∷ []) rest (omega arith) ∙ rw append_assoc)

length-write_byte : (c : ℕ) → 1 ≤ length (write_byte c)
unfolding write_byte
length-write_byte c = ground arith

length-json_write_string : (s : List ℕ) → length s ≤ length (json_write_string s)
unfolding json_write_string
length-json_write_string [] = omega arith
length-json_write_string (c ∷ s) = omega (
  arith,
  length-append (write_byte c) (json_write_string s),
  length-write_byte c,
  length-json_write_string s,
)

-- The text behind an offset, found from its length.
drop-suffix : (xs ys rest : List ℕ) → xs ≡ ys ++ rest → drop (length xs - length rest) xs ≡ rest
drop-suffix xs ys rest e =
    let n : length xs - length rest ≡ length ys =
      omega (arith, ap length e, length-append ys rest) in
    rw (n, e) (drop-append ys rest)

scanner_advance_quote : (s : Scanner) (rest : List ℕ) → text s ≡ b'"' ∷ rest → scanner_advance s ≡ s
unfolding scanner_advance advance_over advance_step
scanner_advance_quote s rest e = rw e

-- Where the text at `p` is split, so is the string.
string_at :
    (s : Scanner) (before rest : List ℕ)
    → text s ≡ before ++ rest
    → s.string ≡ (take s.p s.string ++ before) ++ rest
string_at s before rest e =
    sym (take-append-drop s.p s.string)
    ∙ ap (λ t. take s.p s.string ++ t) e
    ∙ sym (append_assoc (take s.p s.string) before rest)

-- A string printed as a JSON value, at the scanner's position and with any text behind it, is read
-- back as it was, and the scanner stands behind it. The string has to pass `c_utf8_verify` whole.
pub expect_string-write_string_value :
    (c_utf8_verify : List ℕ → ℕ) (s : Scanner) (str rest : List ℕ)
    → c_utf8_verify str ≡ 0
    → text s ≡ write_string_value [] [] str ++ rest
    → ((scanner_expect_string c_utf8_verify s).1 ≡ ok str)
      × (text (scanner_expect_string c_utf8_verify s).0 ≡ rest)
unfolding scanner_expect_string write_string_value end_string
expect_string-write_string_value c_utf8_verify s str rest utf8 e =
    let body = json_write_string str ++ b'"' ∷ rest in
    let at : text s ≡ b'"' ∷ body =
      e ∙ ap (λ t. b'"' ∷ t) (append_assoc (json_write_string str) (b'"' ∷ []) rest) in
    let fuel : length str < length (b'"' ∷ body) =
      omega (
        arith,
        length-append (json_write_string str) (b'"' ∷ rest),
        length-json_write_string str,
      ) in
    let suffix = drop-suffix s.string _ rest (string_at s (write_string_value [] [] str) rest e) in
    rw
      (
        scanner_advance_quote s body at,
        at,
        read_string-json_write_string str (length (b'"' ∷ body)) [] rest fuel,
        utf8,
      )
      (refl, suffix)
