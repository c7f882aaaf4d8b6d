-- ===== src/Object/Map.antt =====
-- lib/object.c: maps from names to fields, changed at one name.
use Prim.Native.Nat.{Ordering}
use Prim.Native.Nat.Ordering.{lt, eq, gt}
use libvarlink.Prelude.{ℕ, ◌≡◌, refl, ap, List, Option, none}
use libvarlink.KeyOrder.{string_order, strcmp, strcmp_refl}
use libvarlink.Object.{Field}

module _ {ℓ} {F : Type ℓ} where
  -- The first if the names compare equal.
  abbrev pub choose : Ordering → Option (Field F) → Option (Field F) → Option (Field F)
  choose c w old = elim c [ eq ↦ w | _ ↦ old ]

  choose-twice :
      (c : Ordering) (v w old : Option (Field F)) → choose c v (choose c w old) ≡ choose c v old
  choose-twice lt v w old = refl
  choose-twice eq v w old = refl
  choose-twice gt v w old = refl

  choose-absent :
      (c : Ordering) (old : Option (Field F)) → (c ≡ eq → old ≡ none) → old ≡ choose c none old
  choose-absent lt old h = refl
  choose-absent eq old h = h refl
  choose-absent gt old h = refl

  -- The fields with one of them set or removed.
  unfoldable pub with_field :
      List ℕ → Option (Field F) → (List ℕ → Option (Field F)) → List ℕ → Option (Field F)
  with_field n w old j = choose (strcmp j n) w (old j)

  pub with_field-twice :
      (n : List ℕ) (v w : Option (Field F)) (old : List ℕ → Option (Field F)) (j : List ℕ)
      → with_field n v (with_field n w old) j ≡ with_field n v old j
  unfolding with_field
  with_field-twice n v w old j = choose-twice (strcmp j n) v w (old j)

  pub with_field_self :
      (n : List ℕ) (w : Option (Field F)) (old : List ℕ → Option (Field F))
      → with_field n w old n ≡ w
  unfolding with_field
  with_field_self n w old = ap (λ c. choose c w (old n)) (strcmp_refl n)

  pub with_field-absent :
      (n : List ℕ) (old : List ℕ → Option (Field F)) (j : List ℕ)
      → old n ≡ none
      → old j ≡ with_field n none old j
  unfolding with_field
  with_field-absent n old j h =
      choose-absent (strcmp j n) _ (λ e. rw (string_order.eq_of_cmp j n e) h)

  pub with_field-cong :
      (n : List ℕ) (w : Option (Field F)) (old new : List ℕ → Option (Field F)) (j : List ℕ)
      → old j ≡ new j
      → with_field n w old j ≡ with_field n w new j
  unfolding with_field
  with_field-cong n w old new j h = ap (choose (strcmp j n) w) h
