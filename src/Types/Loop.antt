-- ===== src/Types/Loop.antt =====
-- lib/type.c: the loop over the fields of a printed type, one field at a time.
use libvarlink.Prelude.{
  ℕ, suc, ◌≡◌, refl, sym, ap, ◌∙◌, List, [], ◌∷◌, ◌++◌, append_assoc, Bool, true, false, not,
  Option, none, ◌==◌,
}
use libvarlink.KeyOrder.{string_order}
use libvarlink.Scanner.{Scanner, text, scanner_peek, word_run}
use libvarlink.Avl.{AvlTree}
use libvarlink.Avl.Valid.{IsValid}
use libvarlink.Types.{
  VarlinkType, Fields, no_fields, bare_field, typed_field, Run, done, name_key, expect_comma,
  read_field, unless_closed, read_fields,
}
use libvarlink.Types.OneLine.{type_line, fields_line, separator}
use libvarlink.Types.Tokens.{At, padded, peek-padded, operator-padded}
use libvarlink.Types.Words.{field_name_valid, field_name-solid}
use libvarlink.Types.Unique.{has_name}
use libvarlink.Types.Kinds.{Reads}
use libvarlink.Types.Rounds.{
  Continues, behind_field, behind_field-Break, read_field_name, finish_field_bare,
  finish_field_typed,
}

-- In front of a field: nothing for the first one, a comma and a blank for the others.
abbrev pub opening : Bool → List ℕ → List ℕ
opening true t = t
opening false t = b',' ∷ b' ' ∷ t

pub fields_line-bare :
    (name : List ℕ) (d : Option (List ℕ)) (rest : Fields) (more : List ℕ)
    → fields_line (bare_field name d rest) ++ more ≡ name ++ behind_field rest more
unfolding fields_line
fields_line-bare name d rest more =
    append_assoc name (separator rest ++ fields_line rest) more
    ∙ ap (λ l. name ++ l) (append_assoc (separator rest) (fields_line rest) more)

pub fields_line-typed :
    (name : List ℕ) (d : Option (List ℕ)) (t : VarlinkType) (rest : Fields) (more : List ℕ)
    → fields_line (typed_field name d t rest) ++ more
      ≡ name ++ (b':' ∷ b' ' ∷ (type_line t ++ behind_field rest more))
unfolding fields_line
fields_line-typed name d t rest more =
    let ts = type_line t in
    append_assoc name (b':' ∷ b' ' ∷ (ts ++ (separator rest ++ fields_line rest))) more
    ∙ ap (λ l. name ++ (b':' ∷ b' ' ∷ l))
        (append_assoc ts (separator rest ++ fields_line rest) more
          ∙ ap (λ l. ts ++ l) (append_assoc (separator rest) (fields_line rest) more))

-- A field begins: no closing bracket stands there, and the comma, where it must be, is read.
pub open_field :
    (first : Bool) (s : Scanner) (name rest : List ℕ)
    → field_name_valid name ≡ true
    → At s (opening first (name ++ rest))
    → (u : Scanner) × (c : ℕ) × (t : Scanner) × (scanner_peek s ≡ (u, c))
      × ((c == b')') ≡ false)
      × (expect_comma first u ≡ (t, done tt))
      × At t (padded (not first) (name ++ rest))
unfolding expect_comma
open_field true s name rest v h =
    let (c, cs, split, k, n) = field_name-solid name rest v in
    let (u, e, at) = peek-padded false s c cs k (rw split at h) in
    (u, c, u, e, n, refl, rw (sym split) at at)
open_field false s name rest v h =
    let (u, e, at) = peek-padded false s b',' (b' ' ∷ (name ++ rest)) refl h in
    let (t, e₁, at₁) = operator-padded false u b',' (b' ' ∷ (name ++ rest)) refl at in
    (u, b',', t, e, refl, rw e₁ refl, at₁)

-- The kind is known where no field is left to decide it.
abbrev pub Decided : Bool → Bool → Bool → Fields → Type 0
Decided first enum kind no_fields = enum ≡ kind
Decided first enum kind _ = first ≡ false → enum ≡ kind

abbrev pub front : Bool → Fields → List ℕ
front true fs = []
front false fs = separator fs

pub decided : (kind : Bool) (fs : Fields) → Decided false kind kind fs
decided kind no_fields = refl
decided kind (bare_field _ _ _) = λ _. refl
decided kind (typed_field _ _ _ _) = λ _. refl

pub front-bare :
    (first : Bool) (name : List ℕ) (d : Option (List ℕ)) (rest : Fields) (more : List ℕ)
    → front first (bare_field name d rest) ++ (fields_line (bare_field name d rest) ++ more)
      ≡ opening first (name ++ behind_field rest more)
front-bare true name d rest more = fields_line-bare name d rest more
front-bare false name d rest more = ap (λ l. b',' ∷ b' ' ∷ l) (fields_line-bare name d rest more)

pub front-typed :
    (first : Bool) (name : List ℕ) (d : Option (List ℕ)) (t : VarlinkType) (rest : Fields)
    (more : List ℕ)
    → front first (typed_field name d t rest) ++ (fields_line (typed_field name d t rest) ++ more)
      ≡ opening first (name ++ (b':' ∷ b' ' ∷ (type_line t ++ behind_field rest more)))
front-typed true name d t rest more = fields_line-typed name d t rest more
front-typed false name d t rest more =
    ap (λ l. b',' ∷ b' ' ∷ l) (fields_line-typed name d t rest more)

pub front_none :
    (first : Bool) (more : List ℕ) → front first no_fields ++ (fields_line no_fields ++ more) ≡ more
unfolding fields_line
front_none true more = refl
front_none false more = refl

pub closed_fields :
    (first kind enum : Bool) (tree : AvlTree (List ℕ)) (fuel : ℕ) (s : Scanner) (more : List ℕ)
    → enum ≡ kind
    → At s (front first no_fields ++ (fields_line no_fields ++ b')' ∷ more))
    → Reads (read_fields (suc fuel) first enum tree s) (kind, no_fields) (b')' ∷ more)
unfolding read_fields
closed_fields first kind enum tree fuel s more d h =
    let (u, e, at) =
      peek-padded false s b')' more refl (rw (front_none first (b')' ∷ more)) at h) in
    (u, rw (e, d) refl, at)

module _ (read : Scanner → Run VarlinkType)
    (next : Bool → AvlTree (List ℕ) → Scanner → Run (Bool × Fields)) where
  pub round_bare :
      (first enum : Bool) (tree : AvlTree (List ℕ)) (s : Scanner) (name more : List ℕ)
      (rest : Fields)
      → field_name_valid name ≡ true
      → (first ≡ false → enum ≡ true)
      → IsValid name_key tree
      → has_name tree name ≡ none
      → Continues read next true tree name rest (behind_field rest (b')' ∷ more)) (b')' ∷ more)
      → At s (opening first (name ++ behind_field rest (b')' ∷ more)))
      → Reads
          (unless_closed (read_field read next first enum tree) enum (scanner_peek s))
          (true, bare_field name none rest)
          (b')' ∷ more)
  round_bare first enum tree s name more rest p d v f go h =
      let b = behind_field-Break rest more in
      let (u, c, t, e₁, n, e₂, at₂) =
        open_field first s name (behind_field rest (b')' ∷ more)) p h in
      let (u', e₃, at₃) =
        read_field_name read next first enum tree (not first) u t name _ p b.no_word e₂ at₂ in
      let (v', e₄, at₄) =
        finish_field_bare read next first enum tree u' name _ (b')' ∷ more) rest d b v f go at₃ in
      (v', rw (e₁, n, e₃) e₄, at₄)

  pub round_typed :
      (first enum : Bool) (tree : AvlTree (List ℕ)) (s : Scanner) (name text more : List ℕ)
      (t : VarlinkType) (rest : Fields)
      → field_name_valid name ≡ true
      → (first ≡ false → enum ≡ false)
      → IsValid name_key tree
      → has_name tree name ≡ none
      → ((s : Scanner) → At s (b' ' ∷ text) → Reads (read s) t (behind_field rest (b')' ∷ more)))
      → Continues read next false tree name rest (behind_field rest (b')' ∷ more)) (b')' ∷ more)
      → At s (opening first (name ++ (b':' ∷ b' ' ∷ text)))
      → Reads
          (unless_closed (read_field read next first enum tree) enum (scanner_peek s))
          (false, typed_field name none t rest)
          (b')' ∷ more)
  unfolding word_run
  round_typed first enum tree s name text more ty rest p d v f element go h =
      let (u, c, t, e₁, n, e₂, at₂) = open_field first s name (b':' ∷ b' ' ∷ text) p h in
      let (u', e₃, at₃) =
        read_field_name read next first enum tree (not first) u t name _ p refl e₂ at₂ in
      let (v', e₄, at₄) =
        finish_field_typed read next first enum tree u' name text _ (b')' ∷ more) ty rest d v f
          element go at₃ in
      (v', rw (e₁, n, e₃) e₄, at₄)
