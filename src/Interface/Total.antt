-- ===== src/Interface/Total.antt =====
-- lib/interface.c: reading a description ends on every text: the fuel, its length and one more, is enough.
use libvarlink.Prelude.{
  ℕ, zero, suc, ◌+◌, ◌≤◌, ◌<◌, ◌≢◌, List, true, Result, ok, err, ◌==◌, length, arith, Bool-cases,
  inl, inr,
}
use libvarlink.KeyOrder.{string_order}
use libvarlink.Avl.{AvlError, key_exists, AvlTree, avl_tree_new, avl_tree_insert}
use libvarlink.Scanner.{
  Scanner, scanner_new, scanner_peek, scanner_read_keyword, interface_name_invalid,
}
use libvarlink.Scanner.Names.{scanner_expect_interface_name}
use libvarlink.Types.{done, failed, overread, out_of_fuel, Run, run}
use libvarlink.Types.Remaining.{remaining, peek-remaining, read_keyword-remaining}
use libvarlink.Types.Ending.{Ends, Ends-bind, AtMost, Below, docstring-Ends}
use libvarlink.Types.Total.{Ends-weaken}
use libvarlink.Interface.{VarlinkInterfaceMember, VarlinkInterface, member_name}
use libvarlink.Interface.Reading.{
  interface_keyword, type_keyword, method_keyword, error_keyword, read_alias_member,
  read_method_member, read_error_member, read_member, member_inserted, insert_member, Members,
  add_member, unless_end, read_members, check_types, resolved, varlink_interface_new_from_scanner,
  interface_at_end, varlink_interface_new,
}
use libvarlink.Interface.Ending.{
  reported-Ends, interface_name-Ends, expect_keyword-Ends, alias_member-Ends, error_member-Ends,
  method_member-Ends,
}

Ends-raise {ℓ} : {A : Type ℓ} (n m : ℕ) (r : Run A) → n ≤ m → Ends (Below n) r → Ends (Below m) r
Ends-raise n m (s, done a) h k = omega (arith, h, k)
Ends-raise n m (s, failed e) h k = tt
Ends-raise n m (s, overread) h k = tt
Ends-raise n m (s, out_of_fuel) h k = absurd k

member-Ends :
    (C : Type 0) (fuel : ℕ) (s : Scanner)
    → remaining s < fuel
    → Ends (Below (remaining s)) (read_member {C = C} fuel s)
unfolding read_member
member-Ends C fuel s h =
    let s₁ = (scanner_read_keyword s type_keyword).0 in
    let s₂ = (scanner_read_keyword s₁ method_keyword).0 in
    let s₃ = (scanner_read_keyword s₂ error_keyword).0 in
    let k₁ = read_keyword-remaining s type_keyword in
    let k₂ = read_keyword-remaining s₁ method_keyword in
    let k₃ = read_keyword-remaining s₂ error_keyword in
    elim (Bool-cases (scanner_read_keyword s type_keyword).1) [
      | inl e ↦ rw e (
          Ends-raise (remaining s₁) (remaining s) (read_alias_member {C = C} fuel s₁) k₁
            (alias_member-Ends C fuel s₁ (omega (arith, h, k₁))))
      | inr e ↦ elim (Bool-cases (scanner_read_keyword s₁ method_keyword).1) [
        | inl f ↦
            rw (e, f)
              (Ends-raise (remaining s₂) (remaining s) (read_method_member {C = C} fuel s₂)
                (omega (arith, k₁, k₂)) (method_member-Ends C fuel s₂ (omega (arith, h, k₁, k₂))))
        | inr f ↦ elim (Bool-cases (scanner_read_keyword s₂ error_keyword).1) [
          | inl g ↦
              rw (e, f, g)
                (Ends-raise (remaining s₃) (remaining s) (read_error_member {C = C} fuel s₃)
                  (omega (arith, k₁, k₂, k₃))
                  (error_member-Ends C fuel s₃ (omega (arith, h, k₁, k₂, k₃))))
          | inr g ↦ rw (e, f, g) tt
        ]
      ]
    ]

insert_member-Ends :
    (C : Type 0) (s : Scanner) (tree : AvlTree (VarlinkInterfaceMember C))
    (m : VarlinkInterfaceMember C)
    → Ends (AtMost (remaining s)) (insert_member s tree m)
unfolding insert_member
insert_member-Ends C s tree m = go (avl_tree_insert member_name tree m.name m)
  where
    go :
        (x : Result AvlError (AvlTree (VarlinkInterfaceMember C)))
        → Ends (AtMost (remaining s)) (member_inserted s x)
    go (ok t) = omega arith
    go (err key_exists) = tt
    go (err _) = tt

add_member-Ends :
    (C : Type 0) (fuel n : ℕ)
    (more : AvlTree (VarlinkInterfaceMember C) → Scanner → Run (Members C))
    (tree : AvlTree (VarlinkInterfaceMember C)) (s : Scanner)
    → remaining s < fuel
    → remaining s < suc n
    → ((t : AvlTree (VarlinkInterfaceMember C)) (u : Scanner)
        → remaining u < fuel
        → remaining u < n
        → Ends (AtMost (remaining u)) (more t u))
    → Ends (AtMost (remaining s)) (add_member fuel more tree s)
unfolding add_member
add_member-Ends C fuel n more tree s h k go =
    Ends-bind (Below (remaining s)) (AtMost (remaining s)) _ _ (member-Ends C fuel s h) (λ x a.
      Ends-bind (AtMost (remaining x.0)) (AtMost (remaining s)) _ _
        (insert_member-Ends C x.0 tree x.1)
        (λ y b.
          Ends-bind (AtMost (remaining y.0)) (AtMost (remaining s)) _ _
            (go y.1 y.0 (omega (arith, h, a, b)) (omega (arith, k, a, b)))
            (λ z c. omega (arith, a, b, c))))

unless_end-Ends :
    (C : Type 0) (tree : AvlTree (VarlinkInterfaceMember C)) (read : Scanner → Run (Members C))
    (s : Scanner) (c : ℕ)
    → Ends (AtMost (remaining s)) (read s)
    → Ends (AtMost (remaining s)) (unless_end tree read (s, c))
unless_end-Ends C tree read s c h = elim (Bool-cases (c == 0)) [
  | inl e ↦ rw e (omega arith)
  | inr e ↦ rw e h
]

members-End :
    (C : Type 0) (fuel n : ℕ) (tree : AvlTree (VarlinkInterfaceMember C)) (s : Scanner)
    → remaining s < fuel
    → remaining s < n
    → Ends (AtMost (remaining s)) (read_members fuel n tree s)
unfolding read_members
members-End C fuel zero tree s h k = absurd (omega (arith, k))
members-End C fuel (suc n) tree s h k =
    let t = (scanner_peek s).0 in
    let p = peek-remaining s in
    Ends-weaken (remaining t) (remaining s) (read_members fuel (suc n) tree s) p (
      unless_end-Ends C tree (λ t. add_member fuel (λ d u. read_members fuel n d u) tree t) t
        (scanner_peek s).1
        (add_member-Ends C fuel n (λ d u. read_members fuel n d u) tree t (omega (arith, h, p))
          (omega (arith, k, p)) (λ d u a b. members-End C fuel n d u a b)))

resolved-Ends :
    (C : Type 0) (i : VarlinkInterface C) (s : Scanner) → Ends (AtMost (remaining s)) (resolved i s)
resolved-Ends C i s = elim (Bool-cases (check_types i i.members)) [
  | inl e ↦ rw e (omega arith)
  | inr e ↦ rw e tt
]

new_from_scanner-Ends :
    (C : Type 0) (fuel : ℕ) (s : Scanner)
    → remaining s < fuel
    → Ends (AtMost (remaining s)) (varlink_interface_new_from_scanner {C = C} fuel s)
unfolding varlink_interface_new_from_scanner
new_from_scanner-Ends C fuel s h =
    Ends-bind (AtMost (remaining s)) (AtMost (remaining s)) _ _ (docstring-Ends s) (λ x a.
      Ends-bind (AtMost (remaining x.0)) (AtMost (remaining s)) _ _
        (expect_keyword-Ends (remaining x.0) (scanner_read_keyword x.0 interface_keyword)
          (read_keyword-remaining x.0 interface_keyword))
        (λ y b.
          Ends-bind (AtMost (remaining y.0)) (AtMost (remaining s)) _ _
            (reported-Ends (AtMost (remaining y.0)) interface_name_invalid
              (run (scanner_expect_interface_name y.0)) (interface_name-Ends y.0))
            (λ z c.
              Ends-bind (AtMost (remaining z.0)) (AtMost (remaining s)) _ _
                (members-End C fuel fuel avl_tree_new z.0 (omega (arith, h, a, b, c))
                  (omega (arith, h, a, b, c)))
                (λ w d.
                  let i : VarlinkInterface C = record {
                    name = z.1;
                    description = x.1;
                    members = w.1.1;
                    member_tree = w.1.0;
                  } in
                  Ends-weaken (remaining w.0) (remaining s) (resolved i w.0)
                    (omega (arith, a, b, c, d)) (resolved-Ends C i w.0)))))

never_out :
    (C : Type 0) (n : ℕ) (r : Run (VarlinkInterface C))
    → Ends (AtMost n) r
    → (interface_at_end r).1 ≢ out_of_fuel
never_out C n (s, done i) h = elim (Bool-cases ((scanner_peek s).1 == 0)) [
  | inl e ↦ rw e (λ f. cc)
  | inr e ↦ rw e (λ f. cc)
]
never_out C n (s, failed e) h = λ f. cc
never_out C n (s, overread) h = λ f. cc
never_out C n (s, out_of_fuel) h = absurd h

-- On every text, `varlink_interface_new` ends with an interface or an error, or reads behind the text: its fuel is
-- enough.
pub interface_new-ends :
    (C : Type 0) (description : List ℕ)
    → (varlink_interface_new {C = C} description).1 ≢ out_of_fuel
unfolding varlink_interface_new scanner_new
interface_new-ends C description =
    never_out C (length description)
      (varlink_interface_new_from_scanner (length description + 1) (scanner_new description true))
      (new_from_scanner-Ends C (length description + 1) (scanner_new description true)
        (omega arith))
