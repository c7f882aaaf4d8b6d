-- ===== src/Interface/Ending.antt =====
-- lib/interface.c: the reading of a member ends, and moves the scanner on.
use libvarlink.Prelude.{
  ℕ, ◌≤◌, ◌<◌, ◌≡◌, List, [], ◌∷◌, Bool, true, false, ◌&&◌, ◌||◌, length, arith, Bool-cases, inl,
  inr,
}
use libvarlink.KeyOrder.{string_order}
use libvarlink.Scanner.{
  Scanner, ScannerError, text, scanner_advance, scanner_word_len, word_at, starts_with,
  scanner_expect_operator, member_name_invalid, operator_expected, type_expected,
}
use libvarlink.Scanner.Names.{
  member_name_valid, interface_name_valid, scanner_expect_interface_name,
  scanner_expect_member_name, name_at,
}
use libvarlink.Types.{done, failed, overread, out_of_fuel, Run, run, varlink_type_new_from_scanner}
use libvarlink.Types.Print.{is_object}
use libvarlink.Types.Remaining.{remaining, advance_by-remaining, advance-remaining}
use libvarlink.Types.Ending.{Ends, Ends-bind, AtMost, Below, docstring-Ends, alpha-word_at}
use libvarlink.Types.Total.{type-Ends}
use libvarlink.Interface.Reading.{
  reported, as_invalid, is_enum, require_object, expect_name, read_alias_member, read_method_member,
  read_error_member, expect_keyword,
}

pub reported-Ends {ℓ} :
    {A : Type ℓ} (P : ℕ → Type 0) (n : ScannerError) (r : Run A) → Ends P r → Ends P (reported n r)
reported-Ends P n (s, done a) h = h
reported-Ends P n (s, failed e) h = tt
reported-Ends P n (s, overread) h = tt
reported-Ends P n (s, out_of_fuel) h = absurd h

as_invalid-Ends {ℓ} :
    {A : Type ℓ} (P : ℕ → Type 0) (n : ScannerError) (r : Run A)
    → Ends P r
    → Ends P (as_invalid n r)
as_invalid-Ends P n (s, done a) h = h
as_invalid-Ends P n (s, failed e) h = tt
as_invalid-Ends P n (s, overread) h = tt
as_invalid-Ends P n (s, out_of_fuel) h = absurd h

require_object-Ends : (b : Bool) (s : Scanner) → Ends (AtMost (remaining s)) (require_object b s)
require_object-Ends true s = omega arith
require_object-Ends false s = tt

operator_run-Ends :
    (s : Scanner) (op : List ℕ) → Ends (AtMost (remaining s)) (run (scanner_expect_operator s op))
unfolding scanner_expect_operator
operator_run-Ends s op =
    let t = scanner_advance s in
    elim (Bool-cases (starts_with (text t) op)) [
      | inr e ↦ rw e tt
      | inl e ↦ rw e (omega (arith, advance_by-remaining t (length op), advance-remaining s))
    ]

capital-word_at :
    (xs : List ℕ) (n : ℕ) → member_name_valid xs n ≡ true → (1 ≤ word_at xs) × (1 ≤ length xs)
unfolding member_name_valid
capital-word_at xs n h = alpha-word_at xs (ground arith)

name-Ends : (s : Scanner) → Ends (Below (remaining s)) (expect_name s)
unfolding expect_name scanner_expect_member_name scanner_word_len
name-Ends s =
    let t = scanner_advance s in
    let n = word_at (text t) in
    elim (Bool-cases (member_name_valid (text t) n)) [
      | inr e ↦ rw e tt
      | inl e ↦
          let (a, b) = capital-word_at (text t) n e in
          rw e (omega (arith, a, b, advance_by-remaining t n, advance-remaining s))
    ]

pub interface_name-Ends :
    (s : Scanner) → Ends (AtMost (remaining s)) (run (scanner_expect_interface_name s))
unfolding scanner_expect_interface_name scanner_word_len
interface_name-Ends s =
    let t = scanner_advance s in
    let n = word_at (text t) in
    elim (Bool-cases (interface_name_valid (name_at t n))) [
      | inr e ↦ rw e tt
      | inl e ↦ rw e (omega (arith, advance_by-remaining t n, advance-remaining s))
    ]

pub expect_keyword-Ends :
    (n : ℕ) (x : Scanner × Bool) → remaining x.0 ≤ n → Ends (AtMost n) (expect_keyword x)
expect_keyword-Ends n (s, true) h = h
expect_keyword-Ends n (s, false) h = tt

read_type-Ends :
    (n : ScannerError) (fuel : ℕ) (s : Scanner)
    → remaining s < fuel
    → Ends (AtMost (remaining s)) (reported n (varlink_type_new_from_scanner fuel s))
read_type-Ends n fuel s h =
    reported-Ends (AtMost (remaining s)) n (varlink_type_new_from_scanner fuel s)
      (type-Ends fuel s h)

pub alias_member-Ends :
    (C : Type 0) (fuel : ℕ) (s : Scanner)
    → remaining s < fuel
    → Ends (Below (remaining s)) (read_alias_member {C = C} fuel s)
unfolding read_alias_member
alias_member-Ends C fuel s h =
    Ends-bind (AtMost (remaining s)) (Below (remaining s)) _ _ (docstring-Ends s) (λ x a.
      Ends-bind (Below (remaining x.0)) (Below (remaining s)) _ _ (name-Ends x.0) (λ y b.
        Ends-bind (AtMost (remaining y.0)) (Below (remaining s)) _ _
          (read_type-Ends member_name_invalid fuel y.0 (omega (arith, h, a, b)))
          (λ z c.
            Ends-bind (AtMost (remaining z.0)) (Below (remaining s)) _ _
              (require_object-Ends (is_object z.1 || is_enum z.1) z.0)
              (λ w d. omega (arith, a, b, c, d)))))

pub error_member-Ends :
    (C : Type 0) (fuel : ℕ) (s : Scanner)
    → remaining s < fuel
    → Ends (Below (remaining s)) (read_error_member {C = C} fuel s)
unfolding read_error_member
error_member-Ends C fuel s h =
    Ends-bind (AtMost (remaining s)) (Below (remaining s)) _ _ (docstring-Ends s) (λ x a.
      Ends-bind (Below (remaining x.0)) (Below (remaining s)) _ _ (name-Ends x.0) (λ y b.
        Ends-bind (AtMost (remaining y.0)) (Below (remaining s)) _ _
          (read_type-Ends member_name_invalid fuel y.0 (omega (arith, h, a, b)))
          (λ z c.
            Ends-bind (AtMost (remaining z.0)) (Below (remaining s)) _ _
              (require_object-Ends (is_object z.1) z.0) (λ w d. omega (arith, a, b, c, d)))))

pub method_member-Ends :
    (C : Type 0) (fuel : ℕ) (s : Scanner)
    → remaining s < fuel
    → Ends (Below (remaining s)) (read_method_member {C = C} fuel s)
unfolding read_method_member
method_member-Ends C fuel s h =
    Ends-bind (AtMost (remaining s)) (Below (remaining s)) _ _ (docstring-Ends s) (λ x a.
      Ends-bind (Below (remaining x.0)) (Below (remaining s)) _ _ (name-Ends x.0) (λ y b.
        Ends-bind (AtMost (remaining y.0)) (Below (remaining s)) _ _
          (read_type-Ends member_name_invalid fuel y.0 (omega (arith, h, a, b)))
          (λ z c.
            Ends-bind (AtMost (remaining z.0)) (Below (remaining s)) _ _
              (as_invalid-Ends (AtMost (remaining z.0)) operator_expected
                (run (scanner_expect_operator z.0 (b'-' ∷ b'>' ∷ [])))
                (operator_run-Ends z.0 (b'-' ∷ b'>' ∷ [])))
              (λ v d.
                Ends-bind (AtMost (remaining v.0)) (Below (remaining s)) _ _
                  (as_invalid-Ends (AtMost (remaining v.0)) type_expected
                    (varlink_type_new_from_scanner fuel v.0)
                    (type-Ends fuel v.0 (omega (arith, h, a, b, c, d))))
                  (λ u e.
                    Ends-bind (AtMost (remaining u.0)) (Below (remaining s)) _ _
                      (require_object-Ends (is_object z.1 && is_object u.1) u.0)
                      (λ w f. omega (arith, a, b, c, d, e, f)))))))
