-- ===== src/Prelude/Outcome.antt =====
-- A C function that returns 0 or a negative error code, with what it stores through its pointer
-- arguments: `ok` carries what is stored, `err` the code.

pub data Result {ℓ κ} (E : Type ℓ) (A : Type κ) : Type (ℓ ⊔ κ) where
  ok : A → Result E A
  err : E → Result E A

-- What holds of the stored value, if the call succeeded.
abbrev pub OnOk {ℓ κ μ} : {E : Type ℓ} {A : Type κ} → (A → Type μ) → Result E A → Type μ
OnOk P (ok a) = P a
OnOk P (err e) = Unit

abbrev pub map_ok {ℓ κ μ} :
    {E : Type ℓ} {A : Type κ} {B : Type μ} → (A → B) → Result E A → Result E B
map_ok f (ok a) = ok (f a)
map_ok f (err e) = err e

-- `if (r < 0) return r;` behind a call
infixl 5 ◌>>=◌
abbrev pub ◌>>=◌ {ℓ κ μ} :
    {Code : Type ℓ} {S : Type κ} {T : Type μ} → Result Code S → (S → Result Code T) → Result Code T
err code >>= step = err code
ok stored >>= step = step stored
