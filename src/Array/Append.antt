-- ===== src/Array/Append.antt =====
-- lib/array.c: what appending does, and the invariant of an array.
use Prim.Native.Nat.{max}
use libvarlink.Prelude.{
  ℕ, suc, zero, ◌+◌, ◌*◌, ◌≤◌, ◌<◌, ◌≡◌, ◌≢◌, ◌⊎◌, inl, inr, refl, sym, ap, ◌∙◌, List, [], ◌∷◌,
  ◌++◌, true, false, none, some, ok, err, ◌==◌, if◌then◌else◌, if_not-true, if_not-false, length,
  length-append, get_elem?, arith, All, All-append, All-imp, Bool-cases,
}
use libvarlink.Error.{VarlinkError, invalid_index, invalid_type, read_only}
use libvarlink.Value.{
  VarlinkValueKind, undefined_kind, null_kind, same_kind, VarlinkValue, null, kind,
}
use libvarlink.Array.Kinds.{same_kind-eq, same_kind-ne, same_kind_refl, not_both, if-true, if-false}
use libvarlink.Array.{
  VarlinkArray, ArrayRun, varlink_array_new, grown, array_append, varlink_array_append_null,
  append_value, varlink_array_get_value,
}

module _ {ℓ} {A : Type ℓ} where
  get_elem?-append_last : (xs : List A) (x : A) → get_elem? (xs ++ x ∷ []) (length xs) ≡ some x
  get_elem?-append_last [] x = refl
  get_elem?-append_last (y ∷ xs) x = get_elem?-append_last xs x

  get_elem?-append_left :
      (xs ys : List A) (i : ℕ) → i < length xs → get_elem? (xs ++ ys) i ≡ get_elem? xs i
  get_elem?-append_left [] ys i h = elim h [ ]
  get_elem?-append_left (y ∷ xs) ys zero h = refl
  get_elem?-append_left (y ∷ xs) ys (suc i) h = get_elem?-append_left xs ys i (omega arith)

room_grows : (n room : ℕ) → n ≤ room → n + 1 ≤ (if n == room then max (room * 2) 16 else room)
room_grows n room h = ground arith

module _ {ℓ} {F : Type ℓ} where
  -- The room is enough; and every element is null or of the array's kind, which is then defined.
  pub record IsWellFormed (a : VarlinkArray F) : Type ℓ where
    pub fits : length a.elements ≤ a.n_allocated_elements
    pub uniform :
        All
          (λ v.
            (kind v ≡ null_kind) ⊎ ((kind v ≡ a.element_kind) × (a.element_kind ≢ undefined_kind)))
          a.elements

  pub new-IsWellFormed : IsWellFormed varlink_array_new
  unfolding varlink_array_new
  new-IsWellFormed = record { fits = omega arith; uniform = tt }

  grown_fits :
      (a : VarlinkArray F) (v : VarlinkValue F)
      → length a.elements ≤ a.n_allocated_elements
      → length (a.elements ++ v ∷ []) ≤ grown a
  unfolding grown
  grown_fits a v h =
      rw (length-append a.elements (v ∷ []))
        (room_grows (length a.elements) a.n_allocated_elements h)

  abbrev Element : VarlinkValueKind → VarlinkValue F → Type 0
  Element k v = (kind v ≡ null_kind) ⊎ ((kind v ≡ k) × (k ≢ undefined_kind))

  appended-IsWellFormed :
      (a : VarlinkArray F) (k : VarlinkValueKind) (v : VarlinkValue F)
      → IsWellFormed a
      → (a.element_kind ≡ undefined_kind) ⊎ (a.element_kind ≡ k)
      → Element k v
      → IsWellFormed (array_append (record a { element_kind = k }) v)
  unfolding array_append grown
  appended-IsWellFormed a k v h old e = record {
    fits = grown_fits a v h.fits;
    uniform =
        All-append (Element k) a.elements (v ∷ [])
          (All-imp (moved a.element_kind old) a.elements h.uniform) (e, tt);
  }
    where
      moved :
          (j : VarlinkValueKind)
          → (j ≡ undefined_kind) ⊎ (j ≡ k)
          → (w : VarlinkValue F) → Element j w
          → Element k w
      moved j o w (inl n) = inl n
      moved j (inl u) w (inr (same, d)) = absurd (d u)
      moved j (inr s) w (inr (same, d)) = inr (same ∙ s, λ u. d (s ∙ u))

  abbrev failed : VarlinkArray F → VarlinkError → ArrayRun F
  failed a e = record { array = a; result = err e }

  abbrev added : VarlinkArray F → VarlinkValue F → ArrayRun F
  added a v = record { array = array_append (record a { element_kind = kind v }) v; result = ok tt }

  append_first :
      (a : VarlinkArray F) (v : VarlinkValue F)
      → a.writable ≡ true
      → a.element_kind ≡ undefined_kind
      → append_value a v ≡ added a v
  unfolding append_value
  append_first a v w u =
      if_not-true a.writable _ _ w ∙ if-true _ _ _ (same_kind_refl a.element_kind undefined_kind u)

  append_same :
      (a : VarlinkArray F) (v : VarlinkValue F)
      → a.writable ≡ true
      → a.element_kind ≢ undefined_kind
      → a.element_kind ≡ kind v
      → append_value a v ≡ added a v
  unfolding append_value
  append_same a v w d k =
      if_not-true a.writable _ _ w
      ∙ if-false _ _ _ (same_kind-ne a.element_kind undefined_kind d)
      ∙ if_not-true _ _ _ (same_kind_refl a.element_kind (kind v) k)
      ∙ ap (λ j. record { array = array_append (record a { element_kind = j }) v; result = ok tt })
          k

  append_mixed :
      (a : VarlinkArray F) (v : VarlinkValue F)
      → a.writable ≡ true
      → a.element_kind ≢ undefined_kind
      → a.element_kind ≢ kind v
      → append_value a v ≡ failed a invalid_type
  unfolding append_value
  append_mixed a v w d k =
      if_not-true a.writable _ _ w
      ∙ if-false _ _ _ (same_kind-ne a.element_kind undefined_kind d)
      ∙ if_not-false _ _ _ (same_kind-ne a.element_kind (kind v) k)

  append_read_only :
      (a : VarlinkArray F) (v : VarlinkValue F)
      → a.writable ≡ false
      → append_value a v ≡ failed a read_only
  unfolding append_value
  append_read_only a v w = if_not-false a.writable _ _ w

  -- May a value of the kind be appended to the array?
  abbrev pub Accepts : VarlinkArray F → VarlinkValue F → Type 0
  Accepts a v = (a.element_kind ≡ undefined_kind) ⊎ (a.element_kind ≡ kind v)

  append_cases :
      (a : VarlinkArray F) (v : VarlinkValue F)
      → ((e : VarlinkError) × (append_value a v ≡ failed a e))
        ⊎ (Accepts a v × (append_value a v ≡ added a v))
  append_cases a v = elim (Bool-cases a.writable) [
    | inr r ↦ inl (read_only, append_read_only a v r)
    | inl w ↦ elim (Bool-cases (same_kind a.element_kind undefined_kind)) [
      | inl u ↦
          let undefined = same_kind-eq a.element_kind undefined_kind u in
          inr (inl undefined, append_first a v w undefined)
      | inr d ↦
          let defined : a.element_kind ≢ undefined_kind =
            λ u. not_both _ (same_kind_refl a.element_kind undefined_kind u) d in
          elim (Bool-cases (same_kind a.element_kind (kind v))) [
            | inl k ↦
                let same = same_kind-eq a.element_kind (kind v) k in
                inr (inr same, append_same a v w defined same)
            | inr k ↦ inl (
              invalid_type,
              append_mixed a v w defined
                  (λ same. not_both _ (same_kind_refl a.element_kind (kind v) same) k),
            )
          ]
    ]
  ]

  -- Appending a value of a defined kind keeps an array well-formed, whether it succeeds or not.
  pub append_value-IsWellFormed :
      (a : VarlinkArray F) (v : VarlinkValue F)
      → kind v ≢ undefined_kind
      → IsWellFormed a
      → IsWellFormed (append_value a v).array
  append_value-IsWellFormed a v d h = elim (append_cases a v) [
    | inl (e, same) ↦ rw same h
    | inr (fits, same) ↦ rw same (appended-IsWellFormed a (kind v) v h fits (inr (refl, d)))
  ]

  -- Appending null keeps an array well-formed, whether it succeeds or not.
  pub append_null-IsWellFormed :
      (a : VarlinkArray F) → IsWellFormed a → IsWellFormed (varlink_array_append_null a).array
  unfolding varlink_array_append_null
  append_null-IsWellFormed a h = elim (Bool-cases a.writable) [
    | inl w ↦
        rw
          (if_not-true a.writable (failed a read_only)
            (record { array = array_append a null; result = ok tt }) w)
          (appended-IsWellFormed a a.element_kind null h (inr refl) (inl refl))
    | inr r ↦
        rw
          (if_not-false a.writable (failed a read_only)
            (record { array = array_append a null; result = ok tt }) r)
          h
  ]

  -- The appended value is found behind the old elements, and these where they were.
  pub record Added (a : VarlinkArray F) (v : VarlinkValue F) (r : ArrayRun F) : Type ℓ where
    pub result : r.result ≡ ok tt
    pub last : varlink_array_get_value r.array (length a.elements) ≡ ok v
    pub others :
        (i : ℕ)
        → i < length a.elements
        → varlink_array_get_value r.array i ≡ varlink_array_get_value a i

  added-Added : (a : VarlinkArray F) (v : VarlinkValue F) → Added a v (added a v)
  unfolding varlink_array_get_value array_append
  added-Added a v = record {
    result = refl;
    last =
        ap (λ x. elim x [ none ↦ err invalid_index | some w ↦ ok w ])
          (get_elem?-append_last a.elements v);
    others = λ i h.
        ap (λ x. elim x [ none ↦ err invalid_index | some w ↦ ok w ])
          (get_elem?-append_left a.elements (v ∷ []) i h);
  }

  -- On a writable array of no kind yet, or of the kind of the value, an append of a value other than null succeeds;
  -- then the value is found behind the old elements, and the old elements are found where they were.
  pub append_value-Added :
      (a : VarlinkArray F) (v : VarlinkValue F)
      → a.writable ≡ true
      → Accepts a v
      → Added a v (append_value a v)
  append_value-Added a v w (inl u) = rw (append_first a v w u) (added-Added a v)
  append_value-Added a v w (inr k) = elim (Bool-cases (same_kind a.element_kind undefined_kind)) [
    | inl u ↦
        rw (append_first a v w (same_kind-eq a.element_kind undefined_kind u)) (added-Added a v)
    | inr d ↦
        rw
          (append_same a v w (λ u. not_both _ (same_kind_refl a.element_kind undefined_kind u) d) k)
          (added-Added a v)
  ]

  -- On an array that is read-only or of another kind than the value, an append of a value other than null changes
  -- nothing and fails, with `read_only` in the first case and with `invalid_type` otherwise.
  pub append_value-fails :
      (a : VarlinkArray F) (v : VarlinkValue F)
      → (a.writable ≡ false) ⊎ (¬ Accepts a v)
      → append_value a v
        ≡ record { array = a; result = err (if a.writable then invalid_type else read_only) }
  append_value-fails a v h = elim (Bool-cases a.writable) [
    | inr r ↦
        append_read_only a v r ∙ ap (failed a) (sym (if-false a.writable invalid_type read_only r))
    | inl w ↦ elim h [
      | inl r ↦ absurd (not_both a.writable w r)
      | inr d ↦
          append_mixed a v w (λ u. d (inl u)) (λ k. d (inr k))
          ∙ ap (failed a) (sym (if-true a.writable invalid_type read_only w))
    ]
  ]
