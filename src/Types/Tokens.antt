-- ===== src/Types/Tokens.antt =====
-- lib/scanner.c, lib/type.c: what the scanner reads at a token of a printed type.
use libvarlink.Prelude.{
  ℕ, ◌≡◌, ◌≢◌, refl, ap, ◌∙◌, List, [], ◌∷◌, ◌++◌, Bool, true, false, not, ◌&&◌, none, ok, ◌==◌,
  ==_iff, length, drop, drop-add, drop-append, get_or, arith, Bool-cases, inl, inr,
}
use libvarlink.Scanner.{
  Scanner, text, scanner_advance, advance_over, advance_step, scanner_peek, scanner_word_len,
  word_run, word_at, is_word, is_alpha, starts_with, advance_by, scanner_read_keyword,
  scanner_expect_operator,
}

-- A byte at which `scanner_advance` stops.
abbrev pub solid : ℕ → Bool
solid c = not (c == b'\n') && not (c == b' ') && not (c == b'\t') && not (c == b'#')

-- The scanner stands at this text, and no comment is remembered.
pub record At (s : Scanner) (t : List ℕ) : Type 0 where
  pub here : text s ≡ t
  pub fresh : s.last_comment_start ≡ none

-- A blank that the printer may have put in front.
abbrev pub padded : Bool → List ℕ → List ℕ
padded false t = t
padded true t = b' ' ∷ t

stops : (c : ℕ) (s : Scanner) → solid c ≡ true → advance_step false c s ≡ none
unfolding advance_step
stops c s h = ground arith

text-advance_by : (s : Scanner) (n : ℕ) → text (advance_by s n) ≡ drop n (text s)
text-advance_by s n = drop-add s.p n s.string

pub advance_by-At :
    {s : Scanner} {t : List ℕ} (n : ℕ) (rest : List ℕ)
    → At s t
    → drop n t ≡ rest
    → At (advance_by s n) rest
advance_by-At {s} n rest h e = record {
  here = text-advance_by s n ∙ ap (drop n) h.here ∙ e;
  fresh = h.fresh;
}

over-solid :
    (s : Scanner) (c : ℕ) (cs : List ℕ) → solid c ≡ true → advance_over false (c ∷ cs) s ≡ s
unfolding advance_over
over-solid s c cs h = rw (stops c s h, advance_over) refl

over_blank :
    (s : Scanner) (c : ℕ) (cs : List ℕ)
    → solid c ≡ true
    → advance_over false (b' ' ∷ c ∷ cs) s ≡ advance_by s 1
unfolding advance_over advance_step
over_blank s c cs k = over-solid (advance_by s 1) c cs k

pub advance-padded :
    (b : Bool) (s : Scanner) (c : ℕ) (cs : List ℕ)
    → solid c ≡ true
    → At s (padded b (c ∷ cs))
    → (t : Scanner) × (scanner_advance s ≡ t) × At t (c ∷ cs)
unfolding scanner_advance
advance-padded false s c cs k h = (s, rw h.here (over-solid s c cs k), h)
advance-padded true s c cs k h =
    (advance_by s 1, rw h.here (over_blank s c cs k), advance_by-At 1 (c ∷ cs) h refl)

pub peek-padded :
    (b : Bool) (s : Scanner) (c : ℕ) (cs : List ℕ)
    → solid c ≡ true
    → At s (padded b (c ∷ cs))
    → (t : Scanner) × (scanner_peek s ≡ (t, c)) × At t (c ∷ cs)
unfolding scanner_peek
peek-padded b s c cs k h =
    let (t, e, at) = advance-padded b s c cs k h in
    (t, rw e (ap (λ l. (t, get_or l 0 0)) at.here), at)

pub operator-padded :
    (b : Bool) (s : Scanner) (c : ℕ) (cs : List ℕ)
    → solid c ≡ true
    → At s (padded b (c ∷ cs))
    → (t : Scanner) × (scanner_expect_operator s (c ∷ []) ≡ (t, ok tt)) × At t cs
unfolding scanner_expect_operator starts_with
operator-padded b s c cs k h =
    let (t, e, at) = advance-padded b s c cs k h in
    (advance_by t 1, rw (e, at.here, (==_iff c c).1 refl) refl, advance_by-At 1 cs at refl)

-- A word: a letter, and bytes that go on with a word.
abbrev pub all_word : List ℕ → Bool
all_word [] = true
all_word (c ∷ cs) = is_word c && all_word cs

abbrev pub is_plain_word : List ℕ → Bool
is_plain_word [] = false
is_plain_word (c ∷ cs) = is_alpha c && all_word cs

word_run-append :
    (w rest : List ℕ) → all_word w ≡ true → word_run rest ≡ 0 → word_run (w ++ rest) ≡ length w
unfolding word_run
word_run-append [] rest h e = e
word_run-append (c ∷ w) rest h e = ground (arith, word_run-append w rest)

word_at-append :
    (w rest : List ℕ) → is_plain_word w ≡ true → word_run rest ≡ 0 → word_at (w ++ rest) ≡ length w
word_at-append [] rest h e = absurd (cc)
word_at-append (c ∷ w) rest h e = ground (arith, word_run-append w rest)

pub solid-word :
    (w rest : List ℕ)
    → is_plain_word w ≡ true
    → (c : ℕ) × (cs : List ℕ) × (w ++ rest ≡ c ∷ cs) × (solid c ≡ true)
solid-word [] rest h = absurd (cc)
solid-word (c ∷ w) rest h = (c, w ++ rest, refl, ground arith)

starts_with_self : (w rest : List ℕ) → starts_with (w ++ rest) w ≡ true
unfolding starts_with
starts_with_self [] rest = refl
starts_with_self (c ∷ w) rest = rw ((==_iff c c).1 refl) (starts_with_self w rest)

starts_with_same :
    (w keyword rest : List ℕ)
    → length w ≡ length keyword
    → starts_with (w ++ rest) keyword ≡ true
    → w ≡ keyword
unfolding starts_with
starts_with_same [] [] rest n h = refl
starts_with_same [] (k ∷ ks) rest n h = absurd (omega arith)
starts_with_same (c ∷ w) [] rest n h = absurd (omega arith)
starts_with_same (c ∷ w) (k ∷ ks) rest n h = ground (arith, starts_with_same w ks rest)

pub word_len-word :
    (s : Scanner) (w rest : List ℕ)
    → is_plain_word w ≡ true
    → word_run rest ≡ 0
    → At s (w ++ rest)
    → scanner_word_len s ≡ (s, length w)
unfolding scanner_word_len scanner_advance
word_len-word s w rest k r h =
    let (c, cs, e, solid_c) = solid-word w rest k in
    let advanced : advance_over false (text s) s ≡ s = rw (h.here, e) (over-solid s c cs solid_c) in
    rw (advanced, h.here, word_at-append w rest k r) refl

-- At a word, its keyword is read, and no other one.
pub keyword-hit :
    (s : Scanner) (w rest : List ℕ)
    → is_plain_word w ≡ true
    → word_run rest ≡ 0
    → At s (w ++ rest)
    → (t : Scanner) × (scanner_read_keyword s w ≡ (t, true)) × At t rest
unfolding scanner_read_keyword
keyword-hit s w rest k r h = (
  advance_by s (length w),
  rw
      (
        word_len-word s w rest k r h,
        (==_iff (length w) (length w)).1 refl,
        h.here,
        starts_with_self w rest,
      )
      refl,
  advance_by-At (length w) rest h (drop-append w rest),
)

pub keyword-miss :
    (s : Scanner) (w keyword rest : List ℕ)
    → is_plain_word w ≡ true
    → word_run rest ≡ 0
    → w ≢ keyword
    → At s (w ++ rest)
    → scanner_read_keyword s keyword ≡ (s, false)
unfolding scanner_read_keyword
keyword-miss s w keyword rest k r d h =
    rw (word_len-word s w rest k r h) (elim (Bool-cases (length w == length keyword)) [
      | inr e ↦ rw e refl
      | inl e ↦ elim (Bool-cases (starts_with (text s) keyword)) [
        | inr f ↦ rw (e, f) refl
        | inl f ↦ absurd (
            d (
              starts_with_same w keyword rest ((==_iff (length w) (length keyword)).0 e)
                (rw h.here at f)))
      ]
    ])

-- At a byte that is no letter, no keyword is read.
pub keyword_none :
    (s : Scanner) (c : ℕ) (cs keyword : List ℕ)
    → solid c ≡ true
    → is_alpha c ≡ false
    → (0 == length keyword) ≡ false
    → At s (c ∷ cs)
    → scanner_read_keyword s keyword ≡ (s, false)
unfolding scanner_read_keyword scanner_word_len scanner_advance
keyword_none s c cs keyword k a n h =
    let advanced : advance_over false (text s) s ≡ s = rw h.here (over-solid s c cs k) in
    rw (advanced, h.here, a, n) refl
