-- ===== src/Array/Kinds.antt =====
-- lib/value.h: kinds compared as numbers, and tests that are decided.
use libvarlink.Prelude.{
  ℕ, ◌≡◌, ◌≢◌, refl, sym, ap, ◌∙◌, inl, inr, Bool, true, false, ◌==◌, ==_iff, if◌then◌else◌,
  Bool-cases,
}
use libvarlink.Value.{VarlinkValueKind, undefined_kind, null_kind, number, same_kind}

-- The kind of a number.
abbrev kind_of : ℕ → VarlinkValueKind
kind_of n =
    if n == 0
    then undefined_kind
    else if n == 1
    then null_kind
    else if n == 2
    then VarlinkValueKind.bool_kind
    else if n == 3
    then VarlinkValueKind.int_kind
    else if n == 4
    then VarlinkValueKind.float_kind
    else if n == 5
    then VarlinkValueKind.string_kind
    else if n == 6
    then VarlinkValueKind.array_kind
    else VarlinkValueKind.object_kind

kind_of-number : (k : VarlinkValueKind) → kind_of (number k) ≡ k
kind_of-number VarlinkValueKind.undefined_kind = refl
kind_of-number VarlinkValueKind.null_kind = refl
kind_of-number VarlinkValueKind.bool_kind = refl
kind_of-number VarlinkValueKind.int_kind = refl
kind_of-number VarlinkValueKind.float_kind = refl
kind_of-number VarlinkValueKind.string_kind = refl
kind_of-number VarlinkValueKind.array_kind = refl
kind_of-number VarlinkValueKind.object_kind = refl

pub same_kind-eq : (j k : VarlinkValueKind) → same_kind j k ≡ true → j ≡ k
same_kind-eq j k h =
    sym (kind_of-number j) ∙ ap kind_of ((==_iff (number j) (number k)).0 h) ∙ kind_of-number k

pub same_kind-ne : (j k : VarlinkValueKind) → j ≢ k → same_kind j k ≡ false
same_kind-ne j k h = elim (Bool-cases (same_kind j k)) [
  | inl e ↦ absurd (h (same_kind-eq j k e))
  | inr e ↦ e
]

pub same_kind_refl : (j k : VarlinkValueKind) → j ≡ k → same_kind j k ≡ true
same_kind_refl j k h = (==_iff (number j) (number k)).1 (ap number h)

pub not_both : (b : Bool) → b ≡ true → b ≡ false → ⊥
not_both b t f = cc

pub if-true {ℓ} : {A : Type ℓ} (b : Bool) (x y : A) → b ≡ true → (if b then x else y) ≡ x
if-true true x y h = refl
if-true false x y h = absurd (cc)

pub if-false {ℓ} : {A : Type ℓ} (b : Bool) (x y : A) → b ≡ false → (if b then x else y) ≡ y
if-false true x y h = absurd (cc)
if-false false x y h = refl
