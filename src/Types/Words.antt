-- ===== src/Types/Words.antt =====
-- lib/scanner.c, lib/type.c: the names in a printed type are read as they were.
use libvarlink.Prelude.{
  ℕ, zero, suc, ◌-◌, ◌<◌, ◌≡◌, ◌≢◌, refl, ap, List, [], ◌∷◌, ◌++◌, Bool, true, false, ◌&&◌, none,
  some, ok, ◌==◌, length, drop-append, take, get_or, arith, All,
}
use libvarlink.Scanner.{Scanner, word_run, is_alpha, is_alnum, within, advance_by}
use libvarlink.Scanner.Names.{
  field_rest_valid, scanner_expect_field_name, member_name_valid, all_alnum,
  scanner_expect_type_name,
}
use libvarlink.Scanner.Docs.{no_docstring, docstring_at, scanner_get_last_docstring}
use libvarlink.Types.{VarlinkType, read_keyword_type, done, alias_type, alias_or_error, read_alias}
use libvarlink.Types.Tokens.{
  solid, At, padded, advance-padded, advance_by-At, all_word, is_plain_word, word_len-word,
  keyword-hit, keyword-miss, keyword_none,
}

pub docstring_none :
    (b : Bool) (s : Scanner) (c : ℕ) (cs : List ℕ)
    → solid c ≡ true
    → At s (padded b (c ∷ cs))
    → (t : Scanner) × (scanner_get_last_docstring s ≡ (t, no_docstring)) × At t (c ∷ cs)
unfolding scanner_get_last_docstring
docstring_none b s c cs k h =
    let (t, e, at) = advance-padded b s c cs k h in
    (t, rw e (ap (λ x. docstring_at t x) at.fresh), at)

pub take-append_self {ℓ} : {A : Type ℓ} (xs ys : List A) → take (length xs) (xs ++ ys) ≡ xs
take-append_self [] ys = refl
take-append_self (x ∷ xs) ys = ap (λ l. x ∷ l) (take-append_self xs ys)

take-length_self {ℓ} : {A : Type ℓ} (xs : List A) → take (length xs) xs ≡ xs
take-length_self [] = refl
take-length_self (x ∷ xs) = ap (λ l. x ∷ l) (take-length_self xs)

get_or-append {ℓ} :
    {A : Type ℓ} (xs ys : List A) (i : ℕ) (d : A)
    → i < length xs
    → get_or (xs ++ ys) i d ≡ get_or xs i d
get_or-append [] ys i d h = absurd (omega arith)
get_or-append (x ∷ xs) ys zero d h = refl
get_or-append (x ∷ xs) ys (suc i) d h = get_or-append xs ys i d (omega arith)

-- The names of fields: what `scanner_expect_field_name` accepts.
unfoldable pub field_name_valid : List ℕ → Bool
field_name_valid [] = false
field_name_valid (c ∷ cs) =
    is_alpha c && field_rest_valid c cs && is_alnum (get_or (c ∷ cs) (length cs) 0)

field_rest-word : (p : ℕ) (cs : List ℕ) → field_rest_valid p cs ≡ true → all_word cs ≡ true
unfolding field_rest_valid
field_rest-word p [] h = refl
field_rest-word p (c ∷ cs) h = ground (arith, field_rest-word c cs)

field_name-word : (w : List ℕ) → field_name_valid w ≡ true → is_plain_word w ≡ true
unfolding field_name_valid
field_name-word [] h = cc
field_name-word (c ∷ cs) h = ground (arith, field_rest-word c cs)

-- The tests of `scanner_expect_field_name`, on the name alone.
field_name-parts :
    (c : ℕ) (cs : List ℕ)
    → field_name_valid (c ∷ cs) ≡ true
    → (is_alpha c ≡ true)
      × (field_rest_valid c cs ≡ true)
      × (is_alnum (get_or (c ∷ cs) (length cs) 0) ≡ true)
unfolding field_name_valid
field_name-parts c cs h = ground arith

field_none : field_name_valid [] ≡ true → ⊥
unfolding field_name_valid
field_none v = cc

field_name-advances :
    (s : Scanner) (w rest : List ℕ)
    → field_name_valid w ≡ true
    → word_run rest ≡ 0
    → At s (w ++ rest)
    → scanner_expect_field_name s ≡ (advance_by s (length w), ok w)
unfolding scanner_expect_field_name
field_name-advances s [] rest v r h = absurd (field_none v)
field_name-advances s (c ∷ cs) rest v r h =
    let (a, f, l) = field_name-parts c cs v in
    let n : suc (length cs) - 1 ≡ length cs = omega arith in
    rw
      (
        word_len-word s (c ∷ cs) rest (field_name-word (c ∷ cs) v) r h,
        h.here,
        a,
        take-append_self cs rest,
        f,
        n,
        get_or-append (c ∷ cs) rest (length cs) 0 (omega arith),
        l,
      )
      refl

pub field_name-At :
    (s : Scanner) (w rest : List ℕ)
    → field_name_valid w ≡ true
    → word_run rest ≡ 0
    → At s (w ++ rest)
    → (t : Scanner) × (scanner_expect_field_name s ≡ (t, ok w)) × At t rest
field_name-At s w rest v r h = (
  advance_by s (length w),
  field_name-advances s w rest v r h,
  advance_by-At (length w) rest h (drop-append w rest),
)

pub field_name-solid :
    (w rest : List ℕ)
    → field_name_valid w ≡ true
    → (c : ℕ) × (cs : List ℕ) × (w ++ rest ≡ c ∷ cs) × (solid c ≡ true) × ((c == b')') ≡ false)
unfolding field_name_valid
field_name-solid [] rest v = absurd (cc)
field_name-solid (c ∷ cs) rest v = (c, cs ++ rest, refl, ground arith, ground arith)

-- The name of a member, which an alias may be.
abbrev pub is_member_name : List ℕ → Bool
is_member_name name = member_name_valid name (length name)

all_alnum-word : (cs : List ℕ) → all_alnum cs ≡ true → all_word cs ≡ true
unfolding all_alnum
all_alnum-word [] h = refl
all_alnum-word (c ∷ cs) h = ground (arith, all_alnum-word cs)

pub member_name-parts :
    (c : ℕ) (cs : List ℕ)
    → is_member_name (c ∷ cs) ≡ true
    → (within b'A' b'Z' c ≡ true) × (all_alnum cs ≡ true)
unfolding member_name_valid
member_name-parts c cs h = let e = take-length_self cs in ground arith

pub member_none : is_member_name [] ≡ true → ⊥
unfolding member_name_valid
member_none v = cc

capital_alpha : (c : ℕ) → within b'A' b'Z' c ≡ true → is_alpha c ≡ true
capital_alpha c h = ground arith

pub member_name-word : (w : List ℕ) → is_member_name w ≡ true → is_plain_word w ≡ true
member_name-word [] h = absurd (member_none h)
member_name-word (c ∷ cs) h =
    let (a, b) = member_name-parts c cs h in rw (capital_alpha c a, all_alnum-word cs b) refl

type_name-advances :
    (s : Scanner) (w rest : List ℕ)
    → is_member_name w ≡ true
    → word_run rest ≡ 0
    → At s (w ++ rest)
    → scanner_expect_type_name s ≡ (advance_by s (length w), ok w)
unfolding scanner_expect_type_name member_name_valid
type_name-advances s [] rest v r h = absurd (member_none v)
type_name-advances s (c ∷ cs) rest v r h =
    let (a, f) = member_name-parts c cs v in
    rw
      (
        word_len-word s (c ∷ cs) rest (member_name-word (c ∷ cs) v) r h,
        h.here,
        take-append_self cs rest,
        a,
        f,
      )
      refl

pub alias-At :
    (s : Scanner) (w rest : List ℕ)
    → is_member_name w ≡ true
    → word_run rest ≡ 0
    → At s (w ++ rest)
    → (t : Scanner) × (read_alias s ≡ (t, done (alias_type w))) × At t rest
unfolding read_alias
alias-At s w rest v r h = (
  advance_by s (length w),
  ap alias_or_error (type_name-advances s w rest v r h),
  advance_by-At (length w) rest h (drop-append w rest),
)

-- The table of keywords at a word: the first entry that is the word is taken.
pub table-miss :
    (s : Scanner) (w rest : List ℕ) (table : List (List ℕ × VarlinkType))
    → is_plain_word w ≡ true
    → word_run rest ≡ 0
    → All (λ e. w ≢ e.0) table
    → At s (w ++ rest)
    → read_keyword_type s table ≡ (s, none)
unfolding read_keyword_type
table-miss s w rest [] k r d h = refl
table-miss s w rest (e ∷ table) k r d h =
    rw (keyword-miss s w e.0 rest k r d.0 h, table-miss s w rest table k r d.1 h) refl

pub table-hit :
    (s : Scanner) (w rest : List ℕ) (t : VarlinkType) (before table : List (List ℕ × VarlinkType))
    → is_plain_word w ≡ true
    → word_run rest ≡ 0
    → All (λ e. w ≢ e.0) before
    → At s (w ++ rest)
    → (u : Scanner) × (read_keyword_type s (before ++ (w, t) ∷ table) ≡ (u, some t)) × At u rest
unfolding read_keyword_type
table-hit s w rest t [] table k r d h =
    let (u, e, at) = keyword-hit s w rest k r h in (u, rw e refl, at)
table-hit s w rest t (x ∷ before) table k r d h =
    let (u, e, at) = table-hit s w rest t before table k r d.1 h in
    (u, rw (keyword-miss s w x.0 rest k r d.0 h, e) refl, at)

-- The table of keywords where there is no letter.
pub table_none :
    (s : Scanner) (c : ℕ) (cs : List ℕ) (table : List (List ℕ × VarlinkType))
    → solid c ≡ true
    → is_alpha c ≡ false
    → All (λ e. (0 == length e.0) ≡ false) table
    → At s (c ∷ cs)
    → read_keyword_type s table ≡ (s, none)
unfolding read_keyword_type
table_none s c cs [] k a n h = refl
table_none s c cs (e ∷ table) k a n h =
    rw (keyword_none s c cs e.0 k a n.0 h, table_none s c cs table k a n.1 h) refl
