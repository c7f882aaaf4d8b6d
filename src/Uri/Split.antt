-- ===== src/Uri/Split.antt =====
-- lib/uri.c: splitting at the first or the last of a byte, and text without a byte.
use libvarlink.Prelude.{
  ℕ, ◌≡◌, refl, List, [], ◌∷◌, ◌++◌, true, false, Option, none, some, ok, ◌==◌, ==_iff, All,
}
use libvarlink.Uri.{split_first, split_last, decode, string_percent_decode}

-- The byte is not in the text.
abbrev pub Lacks : ℕ → List ℕ → Type 0
Lacks c = All (λ x. (x == c) ≡ false)

pub ==_refl : (c : ℕ) → (c == c) ≡ true
==_refl c = (==_iff c c).1 refl

pub split_first-at : (c : ℕ) (a b : List ℕ) → Lacks c a → split_first c (a ++ c ∷ b) ≡ some (a, b)
unfolding split_first
split_first-at c [] b h = rw (==_refl c) refl
split_first-at c (x ∷ a) b h = rw (h.0, split_first-at c a b h.1) refl

pub split_first-none : (c : ℕ) (a : List ℕ) → Lacks c a → split_first c a ≡ none
unfolding split_first
split_first-none c [] h = refl
split_first-none c (x ∷ a) h = rw (h.0, split_first-none c a h.1) refl

pub split_last-none : (c : ℕ) (a : List ℕ) → Lacks c a → split_last c a ≡ none
unfolding split_last
split_last-none c [] h = refl
split_last-none c (x ∷ a) h = rw (split_last-none c a h.1, h.0) refl

pub split_last-at : (c : ℕ) (a b : List ℕ) → Lacks c b → split_last c (a ++ c ∷ b) ≡ some (a, b)
unfolding split_last
split_last-at c [] b h = rw (split_last-none c b h, ==_refl c) refl
split_last-at c (x ∷ a) b h = rw (split_last-at c a b h) refl

-- Text without a percent sign stands for itself.
pub decode_plain :
    (scan_hex : List ℕ → Option ℕ) (s : List ℕ)
    → Lacks b'%' s
    → string_percent_decode scan_hex s ≡ ok s
unfolding string_percent_decode decode
decode_plain scan_hex [] h = refl
decode_plain scan_hex (c ∷ s) h = rw (h.0, decode_plain scan_hex s h.1) refl
