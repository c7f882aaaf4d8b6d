-- ===== src/Types/RoundTrip.antt =====
-- lib/type.c: what `varlink_type_get_typestring` prints is read back by `varlink_type_new`.
use libvarlink.Prelude.{
  ℕ, zero, suc, ◌+◌, ◌≤◌, ◌≡◌, ◌≢◌, refl, sym, ap, List, [], ◌∷◌, ◌++◌, append_assoc, append-nil,
  Bool, true, false, ◌==◌, length, arith, get_or,
}
use libvarlink.KeyOrder.{string_order}
use libvarlink.Scanner.{
  scanner_advance, advance_over, Scanner, text, scanner_new, scanner_peek, word_run,
}
use libvarlink.Avl.{AvlTree, avl_tree_new}
use libvarlink.Avl.Valid.{IsValid, new-IsValid}
use libvarlink.Types.{
  VarlinkType, bool_type, int_type, float_type, string_type, foreign_object, array_type, map_type,
  maybe_type, alias_type, enum_type, object_type, Fields, no_fields, bare_field, typed_field,
  string_keyword, done, name_key, varlink_type_new_from_scanner, read_fields, at_end,
  varlink_type_new,
}
use libvarlink.Types.OneLine.{type_line, fields_line, get_typestring-type_line}
use libvarlink.Types.Print.{
  varlink_type_get_typestring, bool_keyword, int_keyword, float_keyword, object_keyword,
}
use libvarlink.Types.Tokens.{At, padded}
use libvarlink.Types.Unique.{Fresh, new-Fresh, Grows-Fresh}
use libvarlink.Types.Printable.{Printable, Bare, Typed, Filled, size, size_fields, size-typestring}
use libvarlink.Types.Kinds.{
  Reads, read_type_keyword, read_type_alias, read_type_array, read_type_map, read_type_maybe,
  read_type_object,
}
use libvarlink.Types.Rounds.{behind_field, behind_field-Break}
use libvarlink.Types.Loop.{
  Decided, front, decided, front-bare, front-typed, closed_fields, round_bare, round_typed,
}

enum_fields :
    (fs : Fields) (fuel : ℕ) (first enum : Bool) (tree : AvlTree (List ℕ)) (s : Scanner)
    (more : List ℕ)
    → Bare fs
    → size_fields fs ≤ fuel
    → Decided first enum true fs
    → IsValid name_key tree
    → Fresh tree fs
    → At s (front first fs ++ (fields_line fs ++ b')' ∷ more))
    → Reads (read_fields fuel first enum tree s) (true, fs) (b')' ∷ more)
unfolding Bare size_fields read_fields
enum_fields no_fields zero first enum tree s more p n d v f h = absurd (omega arith)
enum_fields no_fields (suc fuel) first enum tree s more p n d v f h =
    closed_fields first true enum tree fuel s more d h
enum_fields (bare_field name x rest) zero first enum tree s more p n d v f h = absurd (omega arith)
enum_fields (bare_field name x rest) (suc fuel) first enum tree s more p n d v f h = rw p.1 (
    round_bare (λ t. varlink_type_new_from_scanner fuel t) (λ e u t. read_fields fuel false e u t)
      first enum tree s name more rest p.0 d v f.0
      (λ tree' u g at.
        enum_fields rest fuel false true tree' u more p.3 (omega arith) (decided true rest) g.valid
          (Grows-Fresh tree tree' name rest g p.2 f.1) at)
      (rw (front-bare first name x rest (b')' ∷ more)) at h))
enum_fields (typed_field _ _ _ _) fuel first enum tree s more p n d v f h = absurd p

undecided_enum : (fs : Fields) → Filled fs → Decided true false true fs
undecided_enum no_fields p = absurd p
undecided_enum (bare_field _ _ _) p = λ e. cc
undecided_enum (typed_field _ _ _ _) p = λ e. cc

undecided_object : (fs : Fields) → Decided true false false fs
undecided_object no_fields = refl
undecided_object (bare_field _ _ _) = λ e. refl
undecided_object (typed_field _ _ _ _) = λ e. refl

differ : (c : ℕ) (cs : List ℕ) (d : ℕ) (ds : List ℕ) → (c == d) ≡ false → c ∷ cs ≢ d ∷ ds
differ c cs d ds f e = let same : c ≡ d = ap (λ l. get_or l 0 0) e in ground arith

size-positive : (t : VarlinkType) → 1 ≤ size t
unfolding size
size-positive bool_type = omega arith
size-positive int_type = omega arith
size-positive float_type = omega arith
size-positive string_type = omega arith
size-positive foreign_object = omega arith
size-positive (array_type t) = omega arith
size-positive (map_type t) = omega arith
size-positive (maybe_type t) = omega arith
size-positive (alias_type name) = omega arith
size-positive (enum_type fs) = omega arith
size-positive (object_type fs) = omega arith

mutual
  unfolding Printable Typed size size_fields read_fields varlink_type_new_from_scanner type_line

  pub read_printed :
      (t : VarlinkType) (fuel : ℕ) (b : Bool) (s : Scanner) (rest : List ℕ)
      → Printable t
      → size t ≤ fuel
      → word_run rest ≡ 0
      → At s (padded b (type_line t ++ rest))
      → Reads (varlink_type_new_from_scanner fuel s) t rest
  read_printed t zero b s rest p n r h = absurd (omega (arith, size-positive t))
  read_printed bool_type (suc fuel) b s rest p n r h =
      read_type_keyword _ _ b s bool_keyword rest bool_type [] _ refl r tt refl h
  read_printed int_type (suc fuel) b s rest p n r h =
      read_type_keyword _ _ b s int_keyword rest int_type ((bool_keyword, bool_type) ∷ []) _ refl r
        (differ _ _ _ _ refl, tt) refl h
  read_printed float_type (suc fuel) b s rest p n r h =
      read_type_keyword _ _ b s float_keyword rest float_type
        ((bool_keyword, bool_type) ∷ (int_keyword, int_type) ∷ []) _ refl r
        (differ _ _ _ _ refl, (differ _ _ _ _ refl, tt)) refl h
  read_printed string_type (suc fuel) b s rest p n r h =
      read_type_keyword _ _ b s string_keyword rest string_type
        ((bool_keyword, bool_type) ∷ (int_keyword, int_type) ∷ (float_keyword, float_type) ∷ []) _
        refl r (differ _ _ _ _ refl, (differ _ _ _ _ refl, (differ _ _ _ _ refl, tt))) refl h
  read_printed foreign_object (suc fuel) b s rest p n r h =
      read_type_keyword _ _ b s object_keyword rest foreign_object
        ((bool_keyword, bool_type)
          ∷ (int_keyword, int_type)
          ∷ (float_keyword, float_type)
          ∷ (string_keyword, string_type)
          ∷ [])
        _ refl r
        (
          differ _ _ _ _ refl,
          (differ _ _ _ _ refl, (differ _ _ _ _ refl, (differ _ _ _ _ refl, tt))),
        )
        refl h
  read_printed (array_type t) (suc fuel) b s rest p n r h =
      read_type_array _ _ b s _ rest t
        (λ u at. read_printed t fuel false u rest p (omega arith) r at) h
  read_printed (map_type t) (suc fuel) b s rest p n r h =
      read_type_map _ _ b s _ rest t (λ u at. read_printed t fuel false u rest p (omega arith) r at)
        h
  read_printed (maybe_type t) (suc fuel) b s rest p n r h =
      read_type_maybe _ _ b s _ rest t p.1
        (λ u at. read_printed t fuel false u rest p.0 (omega arith) r at) h
  read_printed (alias_type name) (suc fuel) b s rest p n r h =
      read_type_alias _ _ b s name rest p r h
  read_printed (enum_type fs) (suc fuel) b s rest p n r h =
      read_type_object _ _ b s _ rest true fs
        (λ u at.
          enum_fields fs fuel true false avl_tree_new u rest p.1 (omega arith)
            (undecided_enum fs p.0) (new-IsValid name_key) (new-Fresh fs) at)
        (rw (append_assoc (fields_line fs) (b')' ∷ []) rest) at h)
  read_printed (object_type fs) (suc fuel) b s rest p n r h =
      read_type_object _ _ b s _ rest false fs
        (λ u at.
          object_fields fs fuel true false avl_tree_new u rest p (omega arith) (undecided_object fs)
            (new-IsValid name_key) (new-Fresh fs) at)
        (rw (append_assoc (fields_line fs) (b')' ∷ []) rest) at h)

  object_fields :
      (fs : Fields) (fuel : ℕ) (first enum : Bool) (tree : AvlTree (List ℕ)) (s : Scanner)
      (more : List ℕ)
      → Typed fs
      → size_fields fs ≤ fuel
      → Decided first enum false fs
      → IsValid name_key tree
      → Fresh tree fs
      → At s (front first fs ++ (fields_line fs ++ b')' ∷ more))
      → Reads (read_fields fuel first enum tree s) (false, fs) (b')' ∷ more)
  object_fields no_fields zero first enum tree s more p n d v f h = absurd (omega arith)
  object_fields no_fields (suc fuel) first enum tree s more p n d v f h =
      closed_fields first false enum tree fuel s more d h
  object_fields (bare_field _ _ _) fuel first enum tree s more p n d v f h = absurd p
  object_fields (typed_field name x t rest) zero first enum tree s more p n d v f h =
      absurd (omega arith)
  object_fields (typed_field name x t rest) (suc fuel) first enum tree s more p n d v f h = rw p.1 (
      round_typed (λ t. varlink_type_new_from_scanner fuel t)
        (λ e u t. read_fields fuel false e u t) first enum tree s name _ more t rest p.0 d v f.0
        (λ u at.
          read_printed t fuel true u (behind_field rest (b')' ∷ more)) p.3 (omega arith)
            (behind_field-Break rest more).no_word at)
        (λ tree' u g at.
          object_fields rest fuel false false tree' u more p.4 (omega arith) (decided false rest)
            g.valid (Grows-Fresh tree tree' name rest g p.2 f.1) at)
        (rw (front-typed first name x t rest (b')' ∷ more)) at h))

at_end-At : (s : Scanner) (t : VarlinkType) → At s [] → (at_end (s, t)).1 ≡ done t
unfolding scanner_peek scanner_advance advance_over
at_end-At s t h =
    let still : advance_over false (text s) s ≡ s = rw h.here refl in
    rw (still, ap (λ l. get_or l 0 0) h.here) refl

-- A type that can be printed is read back as it was from the line that is printed for it: the names of its fields are
-- valid and stand once, no field is described, no maybe holds a maybe, an enumeration has fields, and a type that it
-- names has the name of a member, alone or behind a valid interface name in lower case and a dot.
pub varlink_type_new-get_typestring :
    (t : VarlinkType) → Printable t → (varlink_type_new (varlink_type_get_typestring t)).1 ≡ done t
unfolding varlink_type_new scanner_new word_run
varlink_type_new-get_typestring t p =
    let ts = type_line t in
    let (u, e, at) =
      read_printed t (length ts + 1) false (scanner_new ts true) [] p
        (omega (arith, size-typestring t p)) refl
        record { here = sym (append-nil ts); fresh = refl } in
    rw (get_typestring-type_line t, e) (at_end-At u t at)
