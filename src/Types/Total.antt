-- ===== src/Types/Total.antt =====
-- lib/type.c: reading a type ends on every text: the fuel, the length of the text and one more, is enough.
use libvarlink.Prelude.{
  ℕ, zero, suc, ◌+◌, ◌≤◌, ◌<◌, ◌≢◌, List, Bool, true, false, Option, none, some, ◌==◌, length,
  arith, Bool-cases, inl, inr,
}
use libvarlink.KeyOrder.{string_order}
use libvarlink.Avl.{AvlTree, avl_tree_new}
use libvarlink.Scanner.{Scanner, scanner_new, scanner_peek, scanner_read_keyword}
use libvarlink.Types.{
  VarlinkType, bool_type, int_type, float_type, string_type, foreign_object, array_type, map_type,
  alias_type, enum_type, object_type, maybe_type, Fields, done, failed, overread, out_of_fuel, Run,
  ◌>>=◌, type_keywords, string_keyword, read_keyword_type, read_alias, check_maybe, decide_kind,
  read_bracket, read_maybe, read_object, keyword_or, read_word, read_type, finish_field, read_field,
  unless_closed, varlink_type_new_from_scanner, read_fields, at_end, varlink_type_new,
}
use libvarlink.Types.Remaining.{
  remaining, peek-remaining, read_keyword-remaining, read_keyword_type-remaining,
}
use libvarlink.Types.Ending.{
  Ends, Ends-bind, AtMost, Below, operator-Ends, field_name-Ends, type_name-Ends, docstring-Ends,
  insert_name-Ends, comma-Ends, decide_kind-remaining,
}

-- What a call of the function itself keeps to, and the loop over the fields.
abbrev TypeEnds : ℕ → (Scanner → Run VarlinkType) → Type 0
TypeEnds fuel read = (s : Scanner) → remaining s < fuel → Ends (AtMost (remaining s)) (read s)

abbrev FieldsEnd : ℕ → (Scanner → Run (Bool × Fields)) → Type 0
FieldsEnd fuel read = (s : Scanner) → remaining s < fuel → Ends (AtMost (remaining s)) (read s)

pub Ends-weaken {ℓ} :
    {A : Type ℓ} (n m : ℕ) (r : Run A) → n ≤ m → Ends (AtMost n) r → Ends (AtMost m) r
Ends-weaken n m (s, done a) h k = omega (arith, h, k)
Ends-weaken n m (s, failed e) h k = tt
Ends-weaken n m (s, overread) h k = tt
Ends-weaken n m (s, out_of_fuel) h k = absurd k

bracket-Ends :
    (fuel : ℕ) (read : Scanner → Run VarlinkType) (s : Scanner)
    → TypeEnds fuel read
    → remaining s < suc fuel
    → Ends (AtMost (remaining s)) (read_bracket read s)
unfolding read_bracket
bracket-Ends fuel read s go h =
    Ends-bind (Below (remaining s)) (AtMost (remaining s)) _ _ (operator-Ends s b'[') (λ x a.
      let u = (scanner_read_keyword x.0 string_keyword).0 in
      let k = read_keyword-remaining x.0 string_keyword in
      Ends-bind (Below (remaining u)) (AtMost (remaining s)) _ _ (operator-Ends u b']') (λ y b.
        Ends-bind (AtMost (remaining y.0)) (AtMost (remaining s)) _ _
          (go y.0 (omega (arith, h, a, b, k))) (λ z c. omega (arith, a, b, c, k))))

check_maybe-Ends :
    (n : ℕ) (s : Scanner) (t : VarlinkType) → remaining s ≤ n → Ends (AtMost n) (s, check_maybe t)
check_maybe-Ends n s bool_type h = h
check_maybe-Ends n s int_type h = h
check_maybe-Ends n s float_type h = h
check_maybe-Ends n s string_type h = h
check_maybe-Ends n s foreign_object h = h
check_maybe-Ends n s (array_type t) h = h
check_maybe-Ends n s (map_type t) h = h
check_maybe-Ends n s (maybe_type t) h = tt
check_maybe-Ends n s (alias_type name) h = h
check_maybe-Ends n s (enum_type fs) h = h
check_maybe-Ends n s (object_type fs) h = h

maybe-Ends :
    (fuel : ℕ) (read : Scanner → Run VarlinkType) (s : Scanner)
    → TypeEnds fuel read
    → remaining s < suc fuel
    → Ends (AtMost (remaining s)) (read_maybe read s)
unfolding read_maybe
maybe-Ends fuel read s go h =
    Ends-bind (Below (remaining s)) (AtMost (remaining s)) _ _ (operator-Ends s b'?') (λ x a.
      Ends-bind (AtMost (remaining x.0)) (AtMost (remaining s)) _ _ (go x.0 (omega (arith, h, a)))
        (λ y b. check_maybe-Ends (remaining s) y.0 y.1 (omega (arith, a, b))))

object-Ends :
    (fuel : ℕ) (fields : Scanner → Run (Bool × Fields)) (s : Scanner)
    → FieldsEnd fuel fields
    → remaining s < suc fuel
    → Ends (AtMost (remaining s)) (read_object fields s)
unfolding read_object
object-Ends fuel fields s go h =
    Ends-bind (Below (remaining s)) (AtMost (remaining s)) _ _ (operator-Ends s b'(') (λ x a.
      Ends-bind (AtMost (remaining x.0)) (AtMost (remaining s)) _ _ (go x.0 (omega (arith, h, a)))
        (λ y b.
          Ends-bind (Below (remaining y.0)) (AtMost (remaining s)) _ _ (operator-Ends y.0 b')')
            (λ z c. omega (arith, a, b, c))))

word-Ends :
    (fuel : ℕ) (fields : Scanner → Run (Bool × Fields)) (c : ℕ) (s : Scanner)
    → FieldsEnd fuel fields
    → remaining s < suc fuel
    → Ends (AtMost (remaining s)) (read_word fields c s)
unfolding read_word read_alias
word-Ends fuel fields c s go h = elim (Bool-cases (c == b'(')) [
  | inl e ↦ rw e (object-Ends fuel fields s go h)
  | inr e ↦ rw e (type_name-Ends s)
]

keyword_or-Ends :
    (n : ℕ) (read : Scanner → Run VarlinkType) (x : Scanner × Option VarlinkType)
    → remaining x.0 ≤ n
    → Ends (AtMost (remaining x.0)) (read x.0)
    → Ends (AtMost n) (keyword_or read x)
keyword_or-Ends n read (s, some t) h k = h
keyword_or-Ends n read (s, none) h k = Ends-weaken (remaining s) n (read s) h k

read_type-Ends :
    (fuel : ℕ) (read : Scanner → Run VarlinkType) (fields : Scanner → Run (Bool × Fields))
    (s : Scanner) (c : ℕ)
    → TypeEnds fuel read
    → FieldsEnd fuel fields
    → remaining s < suc fuel
    → Ends (AtMost (remaining s)) (read_type read fields (s, c))
unfolding read_type
read_type-Ends fuel read fields s c go go_fields h =
    let x = read_keyword_type s type_keywords in
    let k = read_keyword_type-remaining s type_keywords in
    elim (Bool-cases (c == b'[')) [
      | inl e ↦ rw e (bracket-Ends fuel read s go h)
      | inr e ↦ elim (Bool-cases (c == b'?')) [
        | inl f ↦ rw (e, f) (maybe-Ends fuel read s go h)
        | inr f ↦
            rw (e, f)
              (keyword_or-Ends (remaining s) (read_word fields c) x k
                (word-Ends fuel fields c x.0 go_fields (omega (arith, h, k))))
      ]
    ]

-- The fields behind a field's name.
abbrev MoreEnds : ℕ → (Bool → AvlTree (List ℕ) → Scanner → Run (Bool × Fields)) → Type 0
MoreEnds fuel more = (enum : Bool) (tree : AvlTree (List ℕ)) → FieldsEnd fuel (more enum tree)

finish_field-Ends :
    (fuel : ℕ) (read : Scanner → Run VarlinkType)
    (more : Bool → AvlTree (List ℕ) → Scanner → Run (Bool × Fields)) (tree : AvlTree (List ℕ))
    (name : List ℕ) (d : Option (List ℕ)) (s : Scanner) (enum : Bool)
    → TypeEnds fuel read
    → MoreEnds fuel more
    → remaining s < fuel
    → Ends (AtMost (remaining s)) (finish_field read more tree name d (s, enum))
unfolding finish_field
finish_field-Ends fuel read more tree name d s true go next h =
    Ends-bind (AtMost (remaining s)) (AtMost (remaining s)) _ _ (insert_name-Ends s tree name)
      (λ x a.
        Ends-bind (AtMost (remaining x.0)) (AtMost (remaining s)) _ _
          (next true x.1 x.0 (omega (arith, h, a))) (λ y b. omega (arith, a, b)))
finish_field-Ends fuel read more tree name d s false go next h =
    Ends-bind (Below (remaining s)) (AtMost (remaining s)) _ _ (operator-Ends s b':') (λ x a.
      Ends-bind (AtMost (remaining x.0)) (AtMost (remaining s)) _ _ (go x.0 (omega (arith, h, a)))
        (λ y b.
          Ends-bind (AtMost (remaining y.0)) (AtMost (remaining s)) _ _
            (insert_name-Ends y.0 tree name)
            (λ z c.
              Ends-bind (AtMost (remaining z.0)) (AtMost (remaining s)) _ _
                (next false z.1 z.0 (omega (arith, h, a, b, c)))
                (λ w e. omega (arith, a, b, c, e)))))

field-Ends :
    (fuel : ℕ) (read : Scanner → Run VarlinkType)
    (more : Bool → AvlTree (List ℕ) → Scanner → Run (Bool × Fields)) (first enum : Bool)
    (tree : AvlTree (List ℕ)) (s : Scanner)
    → TypeEnds fuel read
    → MoreEnds fuel more
    → remaining s < suc fuel
    → Ends (AtMost (remaining s)) (read_field read more first enum tree s)
unfolding read_field
field-Ends fuel read more first enum tree s go next h =
    Ends-bind (AtMost (remaining s)) (AtMost (remaining s)) _ _ (comma-Ends first s) (λ x a.
      Ends-bind (AtMost (remaining x.0)) (AtMost (remaining s)) _ _ (docstring-Ends x.0) (λ y b.
        Ends-bind (Below (remaining y.0)) (AtMost (remaining s)) _ _ (field_name-Ends y.0) (λ z c.
          let u = (decide_kind first enum z.0).0 in
          let k = decide_kind-remaining first enum z.0 in
          Ends-weaken (remaining u) (remaining s)
            (finish_field read more tree z.1 y.1 (decide_kind first enum z.0))
            (omega (arith, a, b, c, k))
            (finish_field-Ends fuel read more tree z.1 y.1 u (decide_kind first enum z.0).1 go next
              (omega (arith, h, a, b, c, k))))))

closed-Ends :
    (read : Scanner → Run (Bool × Fields)) (enum : Bool) (s : Scanner) (c : ℕ)
    → Ends (AtMost (remaining s)) (read s)
    → Ends (AtMost (remaining s)) (unless_closed read enum (s, c))
closed-Ends read enum s c h = elim (Bool-cases (c == b')')) [
  | inl e ↦ rw e (omega arith)
  | inr e ↦ rw e h
]

mutual
  unfolding varlink_type_new_from_scanner read_fields

  pub type-Ends : (fuel : ℕ) → TypeEnds fuel (λ s. varlink_type_new_from_scanner fuel s)
  type-Ends zero s h = absurd (omega (arith, h))
  type-Ends (suc fuel) s h =
      let t = (scanner_peek s).0 in
      let k = peek-remaining s in
      Ends-weaken (remaining t) (remaining s) (varlink_type_new_from_scanner (suc fuel) s) k (
        read_type-Ends fuel (λ t. varlink_type_new_from_scanner fuel t)
          (λ t. read_fields fuel true false avl_tree_new t) t (scanner_peek s).1
          (λ u h. type-Ends fuel u h) (λ u h. fields-End fuel true false avl_tree_new u h)
          (omega (arith, h, k)))

  fields-End :
      (fuel : ℕ) (first enum : Bool) (tree : AvlTree (List ℕ))
      → FieldsEnd fuel (λ s. read_fields fuel first enum tree s)
  fields-End zero first enum tree s h = absurd (omega (arith, h))
  fields-End (suc fuel) first enum tree s h =
      let t = (scanner_peek s).0 in
      let k = peek-remaining s in
      Ends-weaken (remaining t) (remaining s) (read_fields (suc fuel) first enum tree s) k (
        closed-Ends
          (read_field (λ t. varlink_type_new_from_scanner fuel t)
            (λ e u t. read_fields fuel false e u t) first enum tree)
          enum t (scanner_peek s).1
          (field-Ends fuel (λ t. varlink_type_new_from_scanner fuel t)
            (λ e u t. read_fields fuel false e u t) first enum tree t (λ u h. type-Ends fuel u h)
            (λ e v u h. fields-End fuel false e v u h) (omega (arith, h, k))))

at_end-never : (x : Scanner × VarlinkType) → (at_end x).1 ≢ out_of_fuel
at_end-never (s, t) = elim (Bool-cases ((scanner_peek s).1 == 0)) [
  | inl e ↦ rw e (λ f. cc)
  | inr e ↦ rw e (λ f. cc)
]

new_type-Ends : (n : ℕ) (r : Run VarlinkType) → Ends (AtMost n) r → (r >>= at_end).1 ≢ out_of_fuel
new_type-Ends n (s, done t) h = at_end-never (s, t)
new_type-Ends n (s, failed e) h = λ f. cc
new_type-Ends n (s, overread) h = λ f. cc
new_type-Ends n (s, out_of_fuel) h = absurd h

-- On every text, `varlink_type_new` ends with a type or an error, or reads behind the text: its fuel is enough.
pub varlink_type_new-ends : (typestring : List ℕ) → (varlink_type_new typestring).1 ≢ out_of_fuel
unfolding varlink_type_new scanner_new
varlink_type_new-ends typestring =
    new_type-Ends (length typestring)
      (varlink_type_new_from_scanner (length typestring + 1) (scanner_new typestring true))
      (type-Ends (length typestring + 1) (scanner_new typestring true) (omega arith))
