-- ===== src/Scanner/Strings/Total.antt =====
-- lib/scanner.c: the loop of `scanner_expect_string` ends.
use libvarlink.Prelude.{
  ℕ, zero, suc, ◌<◌, ◌≢◌, List, [], ◌∷◌, ◌++◌, Bool, true, false, ◌||◌, Option, none, some,
  if◌then◌else◌, ◌==◌, length, length-drop, drop, arith,
}
use libvarlink.Scanner.Strings.{
  bad_character, out_of_fuel, Round, stop, write, simple_escape, read_unicode_char, escape_round,
  string_round, read_string,
}

-- A round ends the loop for a reason of its own, or leaves less text than there was.
abbrev Progress : ℕ → Round → Type 0
Progress n (stop e) = e ≢ out_of_fuel
Progress n (write bytes rest) = length rest < n

if-Progress :
    (b : Bool) (n : ℕ) (x y : Round) → Progress n x → Progress n y → Progress n (if b then x else y)
if-Progress true n x y h k = h
if-Progress false n x y h k = k

escape_round-Progress : (p : List ℕ) → Progress (suc (length p)) (escape_round p)
unfolding escape_round
escape_round-Progress [] = λ e. cc
escape_round-Progress (e ∷ ps) = go (simple_escape e) (read_unicode_char ps)
  where
    unicode :
        (y : Option (List ℕ × ℕ))
        → Progress
            (suc (length (e ∷ ps)))
            (elim y [ none ↦ stop bad_character | some (bytes, size) ↦ write bytes (drop size ps) ])
    unicode none = λ e. cc
    unicode (some (bytes, size)) = omega (arith, length-drop size ps)

    go :
        (x : Option ℕ) (y : Option (List ℕ × ℕ))
        → Progress (suc (length (e ∷ ps))) (elim x [
          | some b ↦ write (b ∷ []) ps
          | none ↦
              if e == b'u'
              then elim y [
                | none ↦ stop bad_character
                | some (bytes, size) ↦ write bytes (drop size ps)
              ]
              else stop bad_character
        ])
    go (some b) y = omega arith
    go none y = if-Progress (e == b'u') _ _ _ (unicode y) (λ e. cc)

string_round-Progress : (out p : List ℕ) → Progress (length p) (string_round out p)
unfolding string_round
string_round-Progress out [] = λ e. cc
string_round-Progress out (c ∷ cs) =
    if-Progress (c == 9 || c == 10) _ _ _ (λ e. cc)
      (if-Progress (c == b'"') _ _ _ (λ e. cc)
        (if-Progress (c == b'\\') _ _ _ (escape_round-Progress cs) (omega arith)))

-- With more fuel than there is text, the loop comes to an end of its own, whatever the text: at the closing quote, or
-- at an error.
pub read_string-ends :
    (fuel : ℕ) (out p : List ℕ) → length p < fuel → read_string fuel out p ≢ out_of_fuel
unfolding read_string
read_string-ends zero out p h = absurd (omega arith)
read_string-ends (suc fuel) out p h =
    go (string_round out p) (string_round-Progress out p)
      (λ bytes rest shorter. read_string-ends fuel (out ++ bytes) rest (omega (arith, shorter, h)))
  where
    go :
        (r : Round)
        → Progress (length p) r
        → ((bytes rest : List ℕ)
            → length rest < length p
            → read_string fuel (out ++ bytes) rest ≢ out_of_fuel)
        → (elim r [ stop e ↦ e | write bytes rest ↦ read_string fuel (out ++ bytes) rest ])
          ≢ out_of_fuel
    go (stop e) k later = k
    go (write bytes rest) k later = later bytes rest k
