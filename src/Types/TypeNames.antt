-- ===== src/Types/TypeNames.antt =====
-- lib/scanner.c: the names that `scanner_expect_type_name` takes, plain or behind an interface.
use libvarlink.Prelude.{
  ℕ, suc, ◌+◌, ◌-◌, ◌≤◌, ◌≡◌, ◌≢◌, ◌⊎◌, inl, inr, refl, sym, ap, ◌∙◌, List, [], ◌∷◌, ◌++◌,
  append_assoc, Bool, true, false, not, ◌&&◌, ◌||◌, Option, none, some, ok, ◌==◌, ltb,
  if◌then◌else◌, length, length-append, drop, drop-append, drop-add, take, get_or, arith,
  Bool-cases,
}
use libvarlink.Scanner.{Scanner, word_run, is_alpha, is_alnum, within, advance_by}
use libvarlink.Scanner.Names.{
  count_sections, interface_name_valid, member_name_valid, find_member, member_at,
  scanner_expect_type_name,
}
use libvarlink.Types.{done, alias_type, alias_or_error, read_alias}
use libvarlink.Types.Tokens.{At, advance_by-At, all_word, is_plain_word, word_len-word}
use libvarlink.Types.Words.{
  is_member_name, member_name-word, member_name-parts, member_none, take-append_self, alias-At,
}

-- No upper-case letter.
abbrev pub no_capital_in : List ℕ → Bool
no_capital_in [] = true
no_capital_in (c ∷ cs) = not (within b'A' b'Z' c) && no_capital_in cs

-- A member of an interface: the interface's name, in lower case, a dot, the member's name.
pub record Qualified (name : List ℕ) : Type 0 where
  pub interface : List ℕ
  pub member : List ℕ
  pub split : name ≡ interface ++ b'.' ∷ member
  pub lower : no_capital_in interface ≡ true
  pub interface_valid : interface_name_valid interface ≡ true
  pub member_valid : is_member_name member ≡ true

-- The name of a type of the same interface, or of another one.
abbrev pub TypeName : List ℕ → Type 0
TypeName name = (is_member_name name ≡ true) ⊎ Qualified name

count_sections-word :
    (previous n k : ℕ) (cs : List ℕ) → count_sections previous n cs ≡ some k → all_word cs ≡ true
unfolding count_sections
count_sections-word previous n k [] h = refl
count_sections-word previous n k (c ∷ cs) h =
    let ih = count_sections-word c (if c == b'.' then n + 1 else n) k cs in ground (arith, ih)

no_both : false ≡ true → ⊥
no_both h = cc

interface_name-parts :
    (cs : List ℕ)
    → interface_name_valid cs ≡ true
    → (3 ≤ length cs) × (is_alpha (get_or cs 0 0) ≡ true) × (all_word cs ≡ true)
unfolding interface_name_valid
interface_name-parts cs h = elim (Bool-cases (ltb (length cs) 3 || ltb 255 (length cs))) [
  | inl e ↦ absurd (no_both (rw (interface_name_valid, e) at h))
  | inr e ↦
      let long : 3 ≤ length cs = ground arith in
      let (a, w) = go (count_sections 0 1 cs) refl (rw (interface_name_valid, e) at h) in
      (long, a, w)
]
  where
    go :
        (x : Option ℕ)
        → count_sections 0 1 cs ≡ x
        → (elim x as (λ y. Bool) [
          | none ↦ false
          | some sections ↦
              is_alpha (get_or cs 0 0)
              && not (ltb sections 2)
              && is_alnum (get_or cs (length cs - 1) 0)
        ])
          ≡ true
        → (is_alpha (get_or cs 0 0) ≡ true) × (all_word cs ≡ true)
    go none k h = absurd (no_both h)
    go (some n) k h = (ground arith, count_sections-word 0 1 n cs k)

all_word-append : (a b : List ℕ) → all_word a ≡ true → all_word b ≡ true → all_word (a ++ b) ≡ true
all_word-append [] b h k = k
all_word-append (c ∷ a) b h k = ground (arith, all_word-append a b)

find_member-dot :
    (i : List ℕ) (k p c : ℕ) (cs : List ℕ)
    → no_capital_in i ≡ true
    → within b'A' b'Z' c ≡ true
    → find_member k p (i ++ b'.' ∷ c ∷ cs) ≡ member_at (k + (length i + 1))
unfolding find_member
find_member-dot [] k p c cs l h = rw h refl
find_member-dot (x ∷ i) k p c cs l h =
    let lower : within b'A' b'Z' x ≡ false = ground arith in
    let n : k + 1 + (length i + 1) ≡ k + (suc (length i) + 1) = omega arith in
    rw lower (find_member-dot i (k + 1) x c cs (ground arith) h ∙ ap member_at n)

qualified-word :
    (i m : List ℕ)
    → interface_name_valid i ≡ true
    → is_member_name m ≡ true
    → is_plain_word (i ++ b'.' ∷ m) ≡ true
qualified-word [] m v k = absurd (omega (arith, (interface_name-parts [] v).0))
qualified-word (x ∷ i) m v k =
    let (n, a, b) = interface_name-parts (x ∷ i) v in
    let letters : all_word i ≡ true = ground arith in
    let rest = all_word-append i (b'.' ∷ m) letters (member_word m k) in rw (a, rest) refl
  where
    member_word : (m : List ℕ) → is_member_name m ≡ true → all_word (b'.' ∷ m) ≡ true
    member_word [] k = absurd (member_none k)
    member_word (c ∷ cs) k = let w = member_name-word (c ∷ cs) k in ground arith

lower_first :
    (i m rest : List ℕ) (n : ℕ)
    → no_capital_in i ≡ true
    → interface_name_valid i ≡ true
    → member_name_valid ((i ++ b'.' ∷ m) ++ rest) n ≡ false
unfolding member_name_valid
lower_first [] m rest n l v = absurd (omega (arith, (interface_name-parts [] v).0))
lower_first (x ∷ i) m rest n l v =
    let lower : within b'A' b'Z' x ≡ false = ground arith in rw lower refl

found_dot :
    (i m : List ℕ)
    → no_capital_in i ≡ true
    → is_member_name m ≡ true
    → find_member 0 0 (i ++ b'.' ∷ m) ≡ member_at (length i + 1)
found_dot i [] l k = absurd (member_none k)
found_dot i (c ∷ cs) l k =
    let n : 0 + (length i + 1) ≡ length i + 1 = omega arith in
    find_member-dot i 0 0 c cs l (member_name-parts c cs k).0 ∙ ap member_at n

interface_taken :
    (i m rest : List ℕ)
    → interface_name_valid i ≡ true
    → interface_name_valid (take (length i + 1 - 1) ((i ++ b'.' ∷ m) ++ rest)) ≡ true
interface_taken i m rest v =
    let n : length i + 1 - 1 ≡ length i = omega arith in
    rw (n, append_assoc i (b'.' ∷ m) rest, take-append_self i (b'.' ∷ (m ++ rest))) v

member_prefix :
    (m rest : List ℕ) → is_member_name m ≡ true → member_name_valid (m ++ rest) (length m) ≡ true
unfolding member_name_valid
member_prefix [] rest k = absurd (member_none k)
member_prefix (c ∷ cs) rest k =
    let (a, b) = member_name-parts c cs k in rw (a, take-append_self cs rest) b

member_dropped :
    (i m rest : List ℕ)
    → is_member_name m ≡ true
    → member_name_valid
        (drop (length i + 1) ((i ++ b'.' ∷ m) ++ rest))
        (length (i ++ b'.' ∷ m) - (length i + 1))
      ≡ true
member_dropped i m rest k =
    let n : length (i ++ b'.' ∷ m) - (length i + 1) ≡ length m =
      omega (arith, length-append i (b'.' ∷ m)) in
    let text : drop (length i + 1) ((i ++ b'.' ∷ m) ++ rest) ≡ m ++ rest =
      drop-add (length i) 1 ((i ++ b'.' ∷ m) ++ rest)
      ∙ ap (drop 1) (
          ap (drop (length i)) (append_assoc i (b'.' ∷ m) rest)
          ∙ drop-append i (b'.' ∷ (m ++ rest))) in
    rw (n, text) (member_prefix m rest k)

dotted :
    (s : Scanner) (i m rest : List ℕ)
    → no_capital_in i ≡ true
    → interface_name_valid i ≡ true
    → is_member_name m ≡ true
    → word_run rest ≡ 0
    → At s ((i ++ b'.' ∷ m) ++ rest)
    → scanner_expect_type_name s ≡ (advance_by s (length (i ++ b'.' ∷ m)), ok (i ++ b'.' ∷ m))
unfolding scanner_expect_type_name
dotted s i m rest l v k r h =
    let w = i ++ b'.' ∷ m in
    let long : ltb (length w) 3 ≡ false =
      let a = length-append i (b'.' ∷ m) in let b = (interface_name-parts i v).0 in ground arith in
    let word = word_len-word s w rest (qualified-word i m v k) r h in
    rw
      (
        word,
        h.here,
        lower_first i m rest (length w) l v,
        long,
        take-append_self w rest,
        found_dot i m l k,
        word,
        h.here,
        interface_taken i m rest v,
        member_dropped i m rest k,
        take-append_self w rest,
      )
      refl

pub TypeName-word : (w : List ℕ) → TypeName w → is_plain_word w ≡ true
TypeName-word w (inl k) = member_name-word w k
TypeName-word w (inr q) =
    rw q.split (qualified-word q.interface q.member q.interface_valid q.member_valid)

pub TypeName-Reads :
    (s : Scanner) (w rest : List ℕ)
    → TypeName w
    → word_run rest ≡ 0
    → At s (w ++ rest)
    → (t : Scanner) × (read_alias s ≡ (t, done (alias_type w))) × At t rest
unfolding read_alias
TypeName-Reads s w rest (inl k) r h = alias-At s w rest k r h
TypeName-Reads s w rest (inr q) r h =
    let at : At s ((q.interface ++ b'.' ∷ q.member) ++ rest) = rw q.split at h in
    (
      advance_by s (length w),
      rw q.split (
          ap alias_or_error
            (dotted s q.interface q.member rest q.lower q.interface_valid q.member_valid r at)),
      advance_by-At (length w) rest h (drop-append w rest),
    )

-- No keyword has a dot or an upper-case letter at its start.
abbrev has_dot : List ℕ → Bool
has_dot [] = false
has_dot (c ∷ cs) = c == b'.' || has_dot cs

has_dot-append : (i m : List ℕ) → has_dot (i ++ b'.' ∷ m) ≡ true
has_dot-append [] m = refl
has_dot-append (c ∷ i) m = ground (arith, has_dot-append i m)

pub TypeName-other :
    (w : List ℕ) (d : ℕ) (ds : List ℕ)
    → TypeName w
    → within b'A' b'Z' d ≡ false
    → has_dot (d ∷ ds) ≡ false
    → w ≢ d ∷ ds
TypeName-other [] d ds (inl k) f g e = member_none k
TypeName-other (c ∷ cs) d ds (inl k) f g e =
    let same : c ≡ d = ap (λ l. get_or l 0 0) e in
    let capital = (member_name-parts c cs k).0 in ground arith
TypeName-other w d ds (inr q) f g e =
    no_both (sym g ∙ ap has_dot (sym e ∙ q.split) ∙ has_dot-append q.interface q.member)
