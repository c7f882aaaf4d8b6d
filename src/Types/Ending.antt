-- ===== src/Types/Ending.antt =====
-- lib/scanner.c, lib/type.c: the steps of the reading of a type end, and how much text they leave.
use libvarlink.Prelude.{
  ℕ, ◌-◌, ◌≤◌, ◌<◌, ◌≡◌, ◌⊎◌, refl, List, [], ◌∷◌, Bool, true, false, Result, ok, err, ltb, length,
  drop, arith, Bool-cases, inl, inr, get_or,
}
use libvarlink.KeyOrder.{string_order}
use libvarlink.Avl.{AvlError, key_exists, AvlTree, avl_tree_insert}
use libvarlink.Scanner.{
  Scanner, text, char_at, scanner_advance, scanner_word_len, word_at, starts_with, advance_by,
  scanner_expect_operator, is_alpha, is_alnum,
}
use libvarlink.Scanner.Names.{
  field_rest_valid, scanner_expect_field_name, member_name_valid, interface_name_valid, find_member,
  MemberStart, no_capital, no_dot, member_at, scanner_expect_type_name, name_at,
}
use libvarlink.Scanner.Docs.{
  Docstring, no_docstring, docstring, out_of_bounds, scanner_get_last_docstring,
}
use libvarlink.Types.{
  done, failed, overread, out_of_fuel, Run, ◌>>=◌, run, or_invalid, expect_docstring,
  alias_or_error, name_key, inserted, insert_name, expect_comma, decide_kind,
}
use libvarlink.Types.Remaining.{
  remaining, advance_by-remaining, advance-remaining, peek-remaining, docstring-remaining,
}

-- The run ends in time, and where it is done, the text left over has such a length.
abbrev pub Ends {ℓ} : {A : Type ℓ} → (ℕ → Type 0) → Run A → Type 0
Ends P (s, done a) = P (remaining s)
Ends P (s, failed e) = Unit
Ends P (s, overread) = Unit
Ends P (s, out_of_fuel) = ⊥

pub Ends-bind {ℓ κ} :
    {A : Type ℓ} {B : Type κ} (P Q : ℕ → Type 0) (r : Run A) (f : Scanner × A → Run B)
    → Ends P r
    → ((x : Scanner × A) → P (remaining x.0) → Ends Q (f x))
    → Ends Q (r >>= f)
Ends-bind P Q (s, done a) f h k = k (s, a) h
Ends-bind P Q (s, failed e) f h k = tt
Ends-bind P Q (s, overread) f h k = tt
Ends-bind P Q (s, out_of_fuel) f h k = absurd h

abbrev pub AtMost : ℕ → ℕ → Type 0
AtMost n k = k ≤ n

abbrev pub Below : ℕ → ℕ → Type 0
Below n k = k < n

starts_with-length : (xs : List ℕ) (c : ℕ) → starts_with xs (c ∷ []) ≡ true → 1 ≤ length xs
unfolding starts_with
starts_with-length [] c h = absurd (cc)
starts_with-length (x ∷ xs) c h = omega arith

pub operator-Ends :
    (s : Scanner) (c : ℕ)
    → Ends (Below (remaining s)) (or_invalid (scanner_expect_operator s (c ∷ [])))
unfolding scanner_expect_operator
operator-Ends s c =
    let t = scanner_advance s in
    elim (Bool-cases (starts_with (text t) (c ∷ []))) [
      | inr e ↦ rw e tt
      | inl e ↦ rw e (
          omega
            (arith, starts_with-length (text t) c e, advance_by-remaining t 1, advance-remaining s))
    ]

pub alpha-word_at :
    (xs : List ℕ) → is_alpha (get_or xs 0 0) ≡ true → (1 ≤ word_at xs) × (1 ≤ length xs)
alpha-word_at [] h = absurd (cc)
alpha-word_at (c ∷ cs) h = rw h (omega arith, omega arith)

pub field_name-Ends : (s : Scanner) → Ends (Below (remaining s)) (run (scanner_expect_field_name s))
unfolding scanner_expect_field_name scanner_word_len
field_name-Ends s =
    let t = scanner_advance s in
    let n = word_at (text t) in
    elim (Bool-cases (is_alpha (char_at t 0))) [
      | inr e ↦ rw e tt
      | inl e ↦ elim (Bool-cases (field_rest_valid (char_at t 0) (drop 1 (name_at t n)))) [
        | inr f ↦ rw (e, f) tt
        | inl f ↦ elim (Bool-cases (is_alnum (char_at t (n - 1)))) [
          | inr g ↦ rw (e, f, g) tt
          | inl g ↦
              let (a, b) = alpha-word_at (text t) e in
              rw (e, f, g) (omega (arith, a, b, advance_by-remaining t n, advance-remaining s))
        ]
      ]
    ]

MemberStart-cases :
    (x : MemberStart) → (x ≡ no_capital) ⊎ ((x ≡ no_dot) ⊎ ((i : ℕ) × (x ≡ member_at i)))
MemberStart-cases no_capital = inl refl
MemberStart-cases no_dot = inr (inl refl)
MemberStart-cases (member_at i) = inr (inr (i, refl))

pub type_name-Ends :
    (s : Scanner) → Ends (AtMost (remaining s)) (alias_or_error (scanner_expect_type_name s))
unfolding scanner_expect_type_name scanner_word_len
type_name-Ends s =
    let t = scanner_advance s in
    let n = word_at (text t) in
    let k : remaining (advance_by t n) ≤ remaining s =
      omega (arith, advance_by-remaining t n, advance-remaining s) in
    elim (Bool-cases (member_name_valid (text t) n)) [
      | inl e ↦ rw e k
      | inr e ↦ elim (Bool-cases (ltb n 3)) [
        | inl f ↦ rw (e, f) tt
        | inr f ↦ elim (MemberStart-cases (find_member 0 0 (name_at t n))) [
          | inl g ↦ rw (e, f, g) tt
          | inr (inl g) ↦ rw (e, f, g) tt
          | inr (inr (i, g)) ↦ elim (Bool-cases (interface_name_valid (name_at t (i - 1)))) [
            | inr h ↦ rw (e, f, g, h) tt
            | inl h ↦ elim (Bool-cases (member_name_valid (drop i (text t)) (n - i))) [
              | inr l ↦ rw (e, f, g, h, l) tt
              | inl l ↦ rw (e, f, g, h, l) k
            ]
          ]
        ]
      ]
    ]

pub docstring-Ends :
    (s : Scanner) → Ends (AtMost (remaining s)) (expect_docstring (scanner_get_last_docstring s))
docstring-Ends s = go (scanner_get_last_docstring s) (docstring-remaining s)
  where
    go :
        (x : Scanner × Docstring)
        → remaining x.0 ≤ remaining s
        → Ends (AtMost (remaining s)) (expect_docstring x)
    go (t, no_docstring) h = h
    go (t, docstring d) h = h
    go (t, out_of_bounds) h = tt

pub insert_name-Ends :
    (s : Scanner) (tree : AvlTree (List ℕ)) (name : List ℕ)
    → Ends (AtMost (remaining s)) (insert_name s tree name)
unfolding insert_name
insert_name-Ends s tree name = go (avl_tree_insert name_key tree name name)
  where
    go : (x : Result AvlError (AvlTree (List ℕ))) → Ends (AtMost (remaining s)) (inserted s x)
    go (ok t) = omega arith
    go (err key_exists) = tt
    go (err _) = tt

pub comma-Ends : (first : Bool) (s : Scanner) → Ends (AtMost (remaining s)) (expect_comma first s)
unfolding expect_comma
comma-Ends true s = omega arith
comma-Ends false s =
    weaker (or_invalid (scanner_expect_operator s (b',' ∷ []))) (operator-Ends s b',')
  where
    weaker : (r : Run (Unit {0})) → Ends (Below (remaining s)) r → Ends (AtMost (remaining s)) r
    weaker (t, done a) h = omega arith
    weaker (t, failed e) h = tt
    weaker (t, overread) h = tt
    weaker (t, out_of_fuel) h = absurd h

pub decide_kind-remaining :
    (first enum : Bool) (s : Scanner) → remaining (decide_kind first enum s).0 ≤ remaining s
unfolding decide_kind
decide_kind-remaining true enum s = peek-remaining s
decide_kind-remaining false enum s = omega arith
