-- ===== src/Types/Remaining.antt =====
-- lib/scanner.c, lib/type.c: no call of the scanner moves it back, and operators and names move it on.
use libvarlink.Prelude.{
  ℕ, ◌+◌, ◌-◌, ◌≤◌, ◌≡◌, List, [], ◌∷◌, Bool, false, ◌&&◌, ◌||◌, Option, none, some, ◌==◌, length,
  drop, length-drop, arith, Bool-cases, inl, inr,
}
use libvarlink.Scanner.{
  Scanner, text, advance_step, advance_over, scanner_advance, scanner_peek, scanner_word_len,
  starts_with, advance_by, scanner_read_keyword,
}
use libvarlink.Scanner.Docs.{docstring_at, scanner_get_last_docstring}
use libvarlink.Types.{VarlinkType, read_keyword_type}

-- How much text is left.
abbrev pub remaining : Scanner → ℕ
remaining s = length (text s)

pub advance_by-remaining : (s : Scanner) (n : ℕ) → remaining (advance_by s n) ≡ remaining s - n
advance_by-remaining s n = omega (arith, length-drop (s.p + n) s.string, length-drop s.p s.string)

abbrev StepsOn : Scanner → Option (Bool × Scanner) → Type 0
StepsOn s none = Unit
StepsOn s (some x) = remaining x.1 ≤ remaining s

one_more : (s : Scanner) → length (drop (s.p + 1) s.string) ≤ remaining s
one_more s = omega (arith, length-drop (s.p + 1) s.string, length-drop s.p s.string)

advance_step-remaining : (b : Bool) (c : ℕ) (s : Scanner) → StepsOn s (advance_step b c s)
unfolding advance_step
advance_step-remaining b c s = elim (Bool-cases (c == b'\n')) [
  | inl e ↦ rw e (one_more s)
  | inr e ↦ elim (Bool-cases b) [
    | inl f ↦ rw (e, f) (one_more s)
    | inr f ↦ elim (Bool-cases (c == b' ' || c == b'\t')) [
      | inl g ↦ rw (e, f, g) (one_more s)
      | inr g ↦ elim (Bool-cases (c == b'#' && s.comments)) [
        | inl h ↦ rw (e, f, g, h) (one_more s)
        | inr h ↦ rw (e, f, g, h) tt
      ]
    ]
  ]
]

advance_over-remaining :
    (b : Bool) (cs : List ℕ) (s : Scanner) → remaining (advance_over b cs s) ≤ remaining s
unfolding advance_over
advance_over-remaining b [] s = omega arith
advance_over-remaining b (c ∷ cs) s =
    go (advance_step b c s) (advance_step-remaining b c s) (λ m t. advance_over-remaining m cs t)
  where
    go :
        (x : Option (Bool × Scanner))
        → StepsOn s x
        → ((m : Bool) (t : Scanner) → remaining (advance_over m cs t) ≤ remaining t)
        → remaining (elim x as (λ y. Scanner) [ none ↦ s | some (m, t) ↦ advance_over m cs t ])
          ≤ remaining s
    go none h k = omega arith
    go (some (m, t)) h k = omega (arith, h, k m t)

pub advance-remaining : (s : Scanner) → remaining (scanner_advance s) ≤ remaining s
unfolding scanner_advance
advance-remaining s = advance_over-remaining false (text s) s

pub peek-remaining : (s : Scanner) → remaining (scanner_peek s).0 ≤ remaining s
unfolding scanner_peek
peek-remaining s = advance-remaining s

pub word_len-remaining : (s : Scanner) → remaining (scanner_word_len s).0 ≤ remaining s
unfolding scanner_word_len
word_len-remaining s = advance-remaining s

pub read_keyword-remaining :
    (s : Scanner) (keyword : List ℕ) → remaining (scanner_read_keyword s keyword).0 ≤ remaining s
unfolding scanner_read_keyword
read_keyword-remaining s keyword =
    let (t, n) = scanner_word_len s in
    let h = word_len-remaining s in
    let k = advance_by-remaining (scanner_word_len s).0 (scanner_word_len s).1 in
    elim (Bool-cases (n == length keyword)) [
      | inr e ↦ rw e h
      | inl e ↦ elim (Bool-cases (starts_with (text t) keyword)) [
        | inr f ↦ rw (e, f) h
        | inl f ↦ rw (e, f) (omega (arith, h, k))
      ]
    ]

pub read_keyword_type-remaining :
    (s : Scanner) (table : List (List ℕ × VarlinkType))
    → remaining (read_keyword_type s table).0 ≤ remaining s
unfolding read_keyword_type
read_keyword_type-remaining s [] = omega arith
read_keyword_type-remaining s (e ∷ table) =
    let h = read_keyword-remaining s e.0 in
    let k = read_keyword_type-remaining (scanner_read_keyword s e.0).0 table in
    elim (Bool-cases (scanner_read_keyword s e.0).1) [
      | inl f ↦ rw f h
      | inr f ↦ rw f (omega (arith, h, k))
    ]

docstring_at-remaining : (s : Scanner) (x : Option ℕ) → remaining (docstring_at s x).0 ≤ remaining s
docstring_at-remaining s none = omega arith
docstring_at-remaining s (some n) = omega arith

pub docstring-remaining : (s : Scanner) → remaining (scanner_get_last_docstring s).0 ≤ remaining s
unfolding scanner_get_last_docstring
docstring-remaining s = omega (
  arith,
  docstring_at-remaining (scanner_advance s) (scanner_advance s).last_comment_start,
  advance-remaining s,
)
