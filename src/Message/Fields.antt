-- ===== src/Message/Fields.antt =====
-- lib/message.c: the fields that the setters of a message leave.
use libvarlink.Prelude.{
  ℕ, OnOk, ◌≢◌, ◌≡◌, refl, ap, ◌∙◌, List, Bool, true, false, Option, none, some, Result, ok, err,
  ◌>>=◌,
}
use libvarlink.Error.{VarlinkError}
use libvarlink.Value.{VarlinkValue, bool, string, object}
use libvarlink.Object.{
  Field, VarlinkObject, ObjectRun, varlink_object_new, object_set_field, find_value,
}
use libvarlink.Object.Map.{with_field, with_field-cong}
use libvarlink.Object.Fields.{
  IsValidObject, look_up, Becomes, set_field-Sets, new-Becomes, value_of, find_value-look_up,
}
use libvarlink.Message.{parameters_name, error_name, try, set_parameters, set_flag, set_error}

module _ {ℓ} {F : Type ℓ} where
  -- A writable object whose fields are the map's.
  pub record Has (f : List ℕ → Option (Field F)) (o : VarlinkObject F) : Type ℓ where
    pub valid : IsValidObject o
    pub writable : o.writable ≡ true
    pub found : (j : List ℕ) → look_up o j ≡ f j

  abbrev pub put : List ℕ → VarlinkValue F → (List ℕ → Option (Field F)) → List ℕ → Option (Field F)
  put n v = with_field n (some (record { name = n; value = v }))

  abbrev pub HasOk : (List ℕ → Option (Field F)) → Result VarlinkError (VarlinkObject F) → Type ℓ
  HasOk f r = OnOk (Has f) r × ((e : VarlinkError) → r ≢ err e)

  HasOk-ok : {f : List ℕ → Option (Field F)} {o : VarlinkObject F} → Has f o → HasOk f (ok o)
  HasOk-ok h = (h, λ e same. cc)

  -- A chain of setters, each of which succeeds.
  pub HasOk-bind :
      {f : List ℕ → Option (Field F)} (g : List ℕ → Option (Field F))
      (r : Result VarlinkError (VarlinkObject F))
      (k : VarlinkObject F → Result VarlinkError (VarlinkObject F))
      → HasOk f r
      → ((o : VarlinkObject F) → Has f o → HasOk g (k o))
      → HasOk g (r >>= k)
  HasOk-bind g (ok o) k h step = step o h.0
  HasOk-bind g (err e) k h step = absurd (h.1 e refl)

  pub set-Has :
      (f : List ℕ → Option (Field F)) (o : VarlinkObject F) (n : List ℕ) (v : VarlinkValue F)
      → Has f o
      → HasOk (put n v f) (try (object_set_field o n v))
  set-Has f o n v h =
      let (b, done) = set_field-Sets o n v h.writable h.valid in go (object_set_field o n v) b done
    where
      go :
          (r : ObjectRun F)
          → Becomes o n (some (record { name = n; value = v })) r.object
          → r.result ≡ ok tt
          → HasOk (put n v f) (try r)
      go r b done = rw done (
          HasOk-ok (record {
            valid = b.valid;
            writable = b.writable ∙ h.writable;
            found = λ j. b.found j ∙ with_field-cong n _ (look_up o) f j (h.found j);
          }))

  pub new-Has : Has (λ j. none) varlink_object_new
  unfolding varlink_object_new
  new-Has = record { valid = new-Becomes.0; writable = refl; found = new-Becomes.1 }

  -- The maps that the optional setters leave.
  abbrev pub put_parameters : Option ℕ → (List ℕ → Option (Field F)) → List ℕ → Option (Field F)
  put_parameters none f = f
  put_parameters (some p) f = put parameters_name (object p) f

  abbrev pub put_flag : List ℕ → Bool → (List ℕ → Option (Field F)) → List ℕ → Option (Field F)
  put_flag n false f = f
  put_flag n true f = put n (bool true) f

  abbrev pub put_error : Option (List ℕ) → (List ℕ → Option (Field F)) → List ℕ → Option (Field F)
  put_error none f = f
  put_error (some e) f = put error_name (string e) f

  pub set_parameters-Has :
      (f : List ℕ → Option (Field F)) (o : VarlinkObject F) (p : Option ℕ)
      → Has f o
      → HasOk (put_parameters p f) (set_parameters o p)
  set_parameters-Has f o none h = HasOk-ok h
  set_parameters-Has f o (some p) h = set-Has f o parameters_name (object p) h

  pub set_flag-Has :
      (f : List ℕ → Option (Field F)) (o : VarlinkObject F) (n : List ℕ) (b : Bool)
      → Has f o
      → HasOk (put_flag n b f) (set_flag o n b)
  set_flag-Has f o n false h = HasOk-ok h
  set_flag-Has f o n true h = set-Has f o n (bool true) h

  pub set_error-Has :
      (f : List ℕ → Option (Field F)) (o : VarlinkObject F) (e : Option (List ℕ))
      → Has f o
      → HasOk (put_error e f) (set_error o e)
  set_error-Has f o none h = HasOk-ok h
  set_error-Has f o (some e) h = set-Has f o error_name (string e) h

  -- What a getter reads of the map.
  pub find_value-Has :
      (f : List ℕ → Option (Field F)) (o : VarlinkObject F) (n : List ℕ)
      → Has f o
      → find_value o n ≡ value_of (f n)
  find_value-Has f o n h = find_value-look_up o n ∙ ap value_of (h.found n)
