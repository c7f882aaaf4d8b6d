-- ===== src/Types/Kinds.antt =====
-- lib/type.c: `varlink_type_new_from_scanner` at each kind of a printed type.
use libvarlink.Prelude.{ℕ, ◌≡◌, ◌≢◌, refl, List, [], ◌∷◌, ◌++◌, Bool, true, false, ◌==◌, arith, All}
use libvarlink.Scanner.{Scanner, scanner_peek, word_run}
use libvarlink.Types.{
  VarlinkType, bool_type, int_type, float_type, string_type, foreign_object, enum_type, object_type,
  array_type, map_type, maybe_type, alias_type, Fields, done, Run, type_keywords, string_keyword,
  check_maybe, object_or_enum, read_bracket, read_maybe, read_object, read_word, read_type,
}
use libvarlink.Types.Tokens.{
  solid, At, padded, peek-padded, operator-padded, is_plain_word, keyword-hit, keyword_none,
}
use libvarlink.Types.TypeNames.{TypeName, TypeName-word, TypeName-Reads, TypeName-other}
use libvarlink.Types.Words.{table-miss, table-hit, table_none}
use libvarlink.Types.Printable.{NotMaybe}

-- The call ends with this value, at this text.
abbrev pub Reads {ℓ} : {A : Type ℓ} → Run A → A → List ℕ → Type ℓ
Reads r a rest = (u : Scanner) × (r ≡ (u, done a)) × At u rest

plain_word-head :
    (c : ℕ) (cs : List ℕ)
    → is_plain_word (c ∷ cs) ≡ true
    → ((c == b'[') ≡ false) × ((c == b'?') ≡ false) × ((c == b'(') ≡ false)
plain_word-head c cs h = (ground arith, ground arith, ground arith)

solid-plain_word : (c : ℕ) (cs : List ℕ) → is_plain_word (c ∷ cs) ≡ true → solid c ≡ true
solid-plain_word c cs h = ground arith

empty_word : is_plain_word [] ≡ true → ⊥
empty_word h = cc

check-NotMaybe : (t : VarlinkType) → NotMaybe t → check_maybe t ≡ done (maybe_type t)
check-NotMaybe bool_type n = refl
check-NotMaybe int_type n = refl
check-NotMaybe float_type n = refl
check-NotMaybe string_type n = refl
check-NotMaybe foreign_object n = refl
check-NotMaybe (array_type t) n = refl
check-NotMaybe (map_type t) n = refl
check-NotMaybe (maybe_type t) n = absurd n
check-NotMaybe (alias_type name) n = refl
check-NotMaybe (enum_type fs) n = refl
check-NotMaybe (object_type fs) n = refl

module _ (read : Scanner → Run VarlinkType) (fields : Scanner → Run (Bool × Fields)) where
  pub read_type_keyword :
      (b : Bool) (s : Scanner) (w rest : List ℕ) (t : VarlinkType)
      (before table : List (List ℕ × VarlinkType))
      → is_plain_word w ≡ true
      → word_run rest ≡ 0
      → All (λ e. w ≢ e.0) before
      → type_keywords ≡ before ++ (w, t) ∷ table
      → At s (padded b (w ++ rest))
      → Reads (read_type read fields (scanner_peek s)) t rest
  unfolding read_type
  read_type_keyword b s [] rest t before table k r d e h = absurd (cc)
  read_type_keyword b s (c ∷ cs) rest t before table k r d e h =
      let (s₁, e₁, at₁) = peek-padded b s c (cs ++ rest) (solid-plain_word c cs k) h in
      let (s₂, e₂, at₂) = table-hit s₁ (c ∷ cs) rest t before table k r d at₁ in
      let (bracket, maybe, paren) = plain_word-head c cs k in
      (s₂, rw (e₁, bracket, maybe, e, e₂) refl, at₂)

  pub read_type_alias :
      (b : Bool) (s : Scanner) (w rest : List ℕ)
      → TypeName w
      → word_run rest ≡ 0
      → At s (padded b (w ++ rest))
      → Reads (read_type read fields (scanner_peek s)) (alias_type w) rest
  unfolding read_type read_word
  read_type_alias b s [] rest v r h = absurd (empty_word (TypeName-word [] v))
  read_type_alias b s (c ∷ cs) rest v r h =
      let k = TypeName-word (c ∷ cs) v in
      let (s₁, e₁, at₁) = peek-padded b s c (cs ++ rest) (solid-plain_word c cs k) h in
      let (s₂, e₂, at₂) = TypeName-Reads s₁ (c ∷ cs) rest v r at₁ in
      let (bracket, maybe, paren) = plain_word-head c cs k in
      let other = TypeName-other (c ∷ cs) in
      let missed =
        table-miss s₁ (c ∷ cs) rest type_keywords k r
          (
            other b'b' _ v refl refl,
            (
              other b'i' _ v refl refl,
              (
                other b'f' _ v refl refl,
                (other b's' _ v refl refl, (other b'o' _ v refl refl, tt)),
              ),
            ),
          )
          at₁ in
      (s₂, rw (e₁, bracket, maybe, missed, paren) e₂, at₂)

  pub read_type_array :
      (b : Bool) (s : Scanner) (text rest : List ℕ) (t : VarlinkType)
      → ((u : Scanner) → At u text → Reads (read u) t rest)
      → At s (padded b (b'[' ∷ b']' ∷ text))
      → Reads (read_type read fields (scanner_peek s)) (array_type t) rest
  unfolding read_type read_bracket
  read_type_array b s text rest t go h =
      let (s₁, e₁, at₁) = peek-padded b s b'[' (b']' ∷ text) refl h in
      let (s₂, e₂, at₂) = operator-padded false s₁ b'[' (b']' ∷ text) refl at₁ in
      let e₃ = keyword_none s₂ b']' text string_keyword refl refl refl at₂ in
      let (s₄, e₄, at₄) = operator-padded false s₂ b']' text refl at₂ in
      let (s₅, e₅, at₅) = go s₄ at₄ in (s₅, rw (e₁, e₂, e₃, e₄, e₅) refl, at₅)

  pub read_type_map :
      (b : Bool) (s : Scanner) (text rest : List ℕ) (t : VarlinkType)
      → ((u : Scanner) → At u text → Reads (read u) t rest)
      → At s (padded b (b'[' ∷ (string_keyword ++ b']' ∷ text)))
      → Reads (read_type read fields (scanner_peek s)) (map_type t) rest
  unfolding read_type read_bracket word_run
  read_type_map b s text rest t go h =
      let (s₁, e₁, at₁) = peek-padded b s b'[' (string_keyword ++ b']' ∷ text) refl h in
      let (s₂, e₂, at₂) = operator-padded false s₁ b'[' (string_keyword ++ b']' ∷ text) refl at₁ in
      let (s₃, e₃, at₃) = keyword-hit s₂ string_keyword (b']' ∷ text) refl refl at₂ in
      let (s₄, e₄, at₄) = operator-padded false s₃ b']' text refl at₃ in
      let (s₅, e₅, at₅) = go s₄ at₄ in (s₅, rw (e₁, e₂, e₃, e₄, e₅) refl, at₅)

  pub read_type_maybe :
      (b : Bool) (s : Scanner) (text rest : List ℕ) (t : VarlinkType)
      → NotMaybe t
      → ((u : Scanner) → At u text → Reads (read u) t rest)
      → At s (padded b (b'?' ∷ text))
      → Reads (read_type read fields (scanner_peek s)) (maybe_type t) rest
  unfolding read_type read_maybe
  read_type_maybe b s text rest t n go h =
      let (s₁, e₁, at₁) = peek-padded b s b'?' text refl h in
      let (s₂, e₂, at₂) = operator-padded false s₁ b'?' text refl at₁ in
      let (s₃, e₃, at₃) = go s₂ at₂ in (s₃, rw (e₁, e₂, e₃, check-NotMaybe t n) refl, at₃)

  pub read_type_object :
      (b : Bool) (s : Scanner) (text rest : List ℕ) (enum : Bool) (fs : Fields)
      → ((u : Scanner) → At u text → Reads (fields u) (enum, fs) (b')' ∷ rest))
      → At s (padded b (b'(' ∷ text))
      → Reads (read_type read fields (scanner_peek s)) (object_or_enum enum fs) rest
  unfolding read_type read_word read_object
  read_type_object b s text rest enum fs go h =
      let (s₁, e₁, at₁) = peek-padded b s b'(' text refl h in
      let e₂ =
        table_none s₁ b'(' text type_keywords refl refl (refl, (refl, (refl, (refl, (refl, tt)))))
          at₁ in
      let (s₃, e₃, at₃) = operator-padded false s₁ b'(' text refl at₁ in
      let (s₄, e₄, at₄) = go s₃ at₃ in
      let (s₅, e₅, at₅) = operator-padded false s₄ b')' rest refl at₄ in
      (s₅, rw (e₁, e₂, e₃, e₄, e₅) refl, at₅)
