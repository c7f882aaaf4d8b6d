-- ===== src/Types/Rounds.antt =====
-- lib/type.c: one round of the loop over the fields of a printed type.
use libvarlink.Prelude.{ℕ, ◌≡◌, refl, sym, ap, List, ◌∷◌, ◌++◌, Bool, true, false, not, none, ◌==◌}
use libvarlink.KeyOrder.{string_order}
use libvarlink.Scanner.{Scanner, word_run}
use libvarlink.Avl.{AvlTree}
use libvarlink.Avl.Valid.{IsValid}
use libvarlink.Types.{
  VarlinkType, Fields, no_fields, bare_field, typed_field, done, Run, name_key, expect_comma,
  decide_kind, finish_field, read_field,
}
use libvarlink.Types.OneLine.{fields_line, separator}
use libvarlink.Types.Tokens.{solid, At, padded, peek-padded, operator-padded}
use libvarlink.Types.Words.{docstring_none, field_name_valid, field_name-At, field_name-solid}
use libvarlink.Types.Unique.{has_name, Grows, insert_name-Grows}
use libvarlink.Types.Kinds.{Reads}

-- What is printed behind a field.
abbrev pub behind_field : Fields → List ℕ → List ℕ
behind_field rest more = separator rest ++ (fields_line rest ++ more)

-- A comma or the closing bracket stands there.
pub record Break (text : List ℕ) : Type 0 where
  pub head : ℕ
  pub tail : List ℕ
  pub split : text ≡ head ∷ tail
  pub head_solid : solid head ≡ true
  pub no_colon : (head == b':') ≡ false
  pub no_word : word_run text ≡ 0

pub behind_field-Break : (rest : Fields) (more : List ℕ) → Break (behind_field rest (b')' ∷ more))
unfolding fields_line word_run
behind_field-Break no_fields more = record {
  head = _;
  tail = _;
  split = refl;
  head_solid = refl;
  no_colon = refl;
  no_word = refl;
}
behind_field-Break (bare_field _ _ _) more = record {
  head = _;
  tail = _;
  split = refl;
  head_solid = refl;
  no_colon = refl;
  no_word = refl;
}
behind_field-Break (typed_field _ _ _ _) more = record {
  head = _;
  tail = _;
  split = refl;
  head_solid = refl;
  no_colon = refl;
  no_word = refl;
}

-- The first field decides the kind, by what follows its name; the others keep it.
decide_kind-At :
    (first enum kind : Bool) (s : Scanner) (c : ℕ) (cs text : List ℕ)
    → (first ≡ false → enum ≡ kind)
    → not (c == b':') ≡ kind
    → text ≡ c ∷ cs
    → solid c ≡ true
    → At s text
    → (t : Scanner) × (decide_kind first enum s ≡ (t, kind)) × At t text
unfolding decide_kind
decide_kind-At false enum kind s c cs text known k e solid_c h =
    (s, ap (λ x. (s, x)) (known refl), h)
decide_kind-At true enum kind s c cs text known k e solid_c h =
    let (t, e₁, at) = peek-padded false s c cs solid_c (rw e at h) in
    (t, rw (e₁, k) refl, rw (sym e) at at)

module _ (read : Scanner → Run VarlinkType)
    (more : Bool → AvlTree (List ℕ) → Scanner → Run (Bool × Fields)) where
  -- Up to the name of a field, which nothing describes.
  pub read_field_name :
      (first enum : Bool) (tree : AvlTree (List ℕ)) (b : Bool) (s t : Scanner) (name text : List ℕ)
      → field_name_valid name ≡ true
      → word_run text ≡ 0
      → expect_comma first s ≡ (t, done tt)
      → At t (padded b (name ++ text))
      → (u : Scanner) × (read_field read more first enum tree s
          ≡ finish_field read more tree name none (decide_kind first enum u))
        × At u text
  unfolding read_field
  read_field_name first enum tree b s t name text v r e h =
      let (c, cs, split, k, _) = field_name-solid name text v in
      let (s₁, e₁, at₁) = docstring_none b t c cs k (rw split at h) in
      let (s₂, e₂, at₂) = field_name-At s₁ name text v r (rw (sym split) at at₁) in
      (s₂, rw (e, e₁, e₂) refl, at₂)

  -- The fields that follow are read with a tree that has this name too.
  abbrev pub Continues : Bool → AvlTree (List ℕ) → List ℕ → Fields → List ℕ → List ℕ → Type 0
  Continues enum tree name rest text after =
      (tree' : AvlTree (List ℕ)) (u : Scanner)
      → Grows tree name tree'
      → At u text
      → Reads (more enum tree' u) (enum, rest) after

  pub finish_field_bare :
      (first enum : Bool) (tree : AvlTree (List ℕ)) (u : Scanner) (name text after : List ℕ)
      (rest : Fields)
      → (first ≡ false → enum ≡ true)
      → Break text
      → IsValid name_key tree
      → has_name tree name ≡ none
      → Continues true tree name rest text after
      → At u text
      → Reads
          (finish_field read more tree name none (decide_kind first enum u))
          (true, bare_field name none rest)
          after
  unfolding finish_field
  finish_field_bare first enum tree u name text after rest known b v fresh go h =
      let (s₁, e₁, at₁) =
        decide_kind-At first enum true u b.head b.tail text known (ap not b.no_colon) b.split
          b.head_solid h in
      let (tree', e₂, grown) = insert_name-Grows s₁ tree name v fresh in
      let (s₃, e₃, at₃) = go tree' s₁ grown at₁ in (s₃, rw (e₁, e₂, e₃) refl, at₃)

  pub finish_field_typed :
      (first enum : Bool) (tree : AvlTree (List ℕ)) (u : Scanner) (name text text' after : List ℕ)
      (t : VarlinkType) (rest : Fields)
      → (first ≡ false → enum ≡ false)
      → IsValid name_key tree
      → has_name tree name ≡ none
      → ((s : Scanner) → At s (b' ' ∷ text) → Reads (read s) t text')
      → Continues false tree name rest text' after
      → At u (b':' ∷ b' ' ∷ text)
      → Reads
          (finish_field read more tree name none (decide_kind first enum u))
          (false, typed_field name none t rest)
          after
  unfolding finish_field
  finish_field_typed first enum tree u name text text' after t rest known v fresh element go h =
      let (s₁, e₁, at₁) =
        decide_kind-At first enum false u b':' (b' ' ∷ text) _ known refl refl refl h in
      let (s₂, e₂, at₂) = operator-padded false s₁ b':' (b' ' ∷ text) refl at₁ in
      let (s₃, e₃, at₃) = element s₂ at₂ in
      let (tree', e₄, grown) = insert_name-Grows s₃ tree name v fresh in
      let (s₅, e₅, at₅) = go tree' s₃ grown at₃ in (s₅, rw (e₁, e₂, e₃, e₄, e₅) refl, at₅)
