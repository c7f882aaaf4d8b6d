-- ===== src/Message/RoundTrip.antt =====
-- lib/message.c: what is packed is what is unpacked.
use libvarlink.Prelude.{
  ℕ, ◌+◌, ◌%◌, ◌≡◌, refl, ap, ◌∙◌, List, Bool, true, false, ◌&&◌, Option, none, some, Result, ok,
  err, ◌>>=◌, if◌then◌else◌, arith, inl, inr, Bool-cases,
}
use libvarlink.KeyOrder.{strcmp}
use libvarlink.Error.{VarlinkError, invalid_call}
use libvarlink.Value.{VarlinkValue, string}
use libvarlink.Value.{string_of, object_of, bool_of}
use libvarlink.Object.{Field, VarlinkObject}
use libvarlink.Object.Map.{with_field}
use libvarlink.Object.Fields.{value_of}
use libvarlink.Message.{
  method_name, parameters_name, more_name, oneway_name, error_name, continues_name, call_more,
  call_oneway, reply_continues, Call, Reply, varlink_message_pack_call, optional, required,
  parameters_or_new, flag_value, varlink_message_unpack_call, varlink_message_pack_reply,
  varlink_message_unpack_reply,
}
use libvarlink.Message.Fields.{
  Has, HasOk, HasOk-bind, set-Has, new-Has, put, put_parameters, put_flag, put_error,
  set_parameters-Has, set_flag-Has, set_error-Has, find_value-Has,
}

abbrev call_flags : Bool → Bool → ℕ
call_flags more oneway = (if more then 1 else 0) + (if oneway then 2 else 0)

call_flags-bits : (flags : ℕ) → call_flags (call_more flags) (call_oneway flags) ≡ flags % 4
call_flags-bits flags = ground arith

reply_flags-bits : (flags : ℕ) → (if reply_continues flags then 1 else 0) ≡ flags % 2
reply_flags-bits flags = ground arith

module _ {ℓ} {F : Type ℓ} where
  abbrev pub call_fields : List ℕ → Option ℕ → Bool → Bool → List ℕ → Option (Field F)
  call_fields method p more oneway =
      put_flag oneway_name oneway
        (put_flag more_name more (put_parameters p (put method_name (string method) (λ j. none))))

  abbrev reply_fields : Option (List ℕ) → Option ℕ → Bool → List ℕ → Option (Field F)
  reply_fields error p continues =
      put_flag continues_name continues (put_parameters p (put_error error (λ j. none)))

  -- The unpackers read an object through `find_value` only.
  abbrev call_of : (List ℕ → Result VarlinkError (VarlinkValue F)) → Result VarlinkError (Call F)
  call_of read = do
    method ← required (read method_name >>= string_of)
    parameters ← optional (read parameters_name >>= object_of)
    more ← optional (read more_name >>= bool_of)
    oneway ← optional (read oneway_name >>= bool_of)
    ok (record {
      method = method;
      parameters = parameters_or_new parameters;
      flags = flag_value more 1 + flag_value oneway 2;
    })

  abbrev reply_of : (List ℕ → Result VarlinkError (VarlinkValue F)) → Result VarlinkError (Reply F)
  reply_of read = do
    error ← optional (read error_name >>= string_of)
    parameters ← optional (read parameters_name >>= object_of)
    continues ← optional (read continues_name >>= bool_of)
    ok (record {
      error = error;
      parameters = parameters_or_new parameters;
      flags = flag_value continues 1;
    })

  call_of-fields :
      (method : List ℕ) (p : Option ℕ) (more oneway : Bool)
      → call_of (λ n. value_of (call_fields method p more oneway n))
        ≡ ok (record {
          method = method;
          parameters = parameters_or_new p;
          flags = call_flags more oneway;
        })
  unfolding with_field strcmp
  call_of-fields method none false false = refl
  call_of-fields method none false true = refl
  call_of-fields method none true false = refl
  call_of-fields method none true true = refl
  call_of-fields method (some p) false false = refl
  call_of-fields method (some p) false true = refl
  call_of-fields method (some p) true false = refl
  call_of-fields method (some p) true true = refl

  reply_of-fields :
      (error : Option (List ℕ)) (p : Option ℕ) (continues : Bool)
      → reply_of (λ n. value_of (reply_fields error p continues n))
        ≡ ok (record {
          error = error;
          parameters = parameters_or_new p;
          flags = if continues then 1 else 0;
        })
  unfolding with_field strcmp
  reply_of-fields none none false = refl
  reply_of-fields none none true = refl
  reply_of-fields none (some p) false = refl
  reply_of-fields none (some p) true = refl
  reply_of-fields (some e) none false = refl
  reply_of-fields (some e) none true = refl
  reply_of-fields (some e) (some p) false = refl
  reply_of-fields (some e) (some p) true = refl

  unpack_call-Has :
      (f : List ℕ → Option (Field F)) (o : VarlinkObject F)
      → Has f o
      → varlink_message_unpack_call o ≡ call_of (λ n. value_of (f n))
  unfolding varlink_message_unpack_call
  unpack_call-Has f o h =
      rw
        (
          find_value-Has f o method_name h,
          find_value-Has f o parameters_name h,
          find_value-Has f o more_name h,
          find_value-Has f o oneway_name h,
        )
        refl

  unpack_reply-Has :
      (f : List ℕ → Option (Field F)) (o : VarlinkObject F)
      → Has f o
      → varlink_message_unpack_reply o ≡ reply_of (λ n. value_of (f n))
  unfolding varlink_message_unpack_reply
  unpack_reply-Has f o h =
      rw
        (
          find_value-Has f o error_name h,
          find_value-Has f o parameters_name h,
          find_value-Has f o continues_name h,
        )
        refl

  -- The packers leave these fields.
  pub pack_call-Has :
      (method : List ℕ) (p : Option ℕ) (flags : ℕ)
      → (call_more flags && call_oneway flags) ≡ false
      → HasOk
          (call_fields method p (call_more flags) (call_oneway flags))
          (varlink_message_pack_call method p flags)
  unfolding varlink_message_pack_call
  pack_call-Has method p flags h =
      let more = call_more flags in
      rw h (
        HasOk-bind _ _ _ (set-Has _ _ method_name (string method) new-Has) λ a ha.
          HasOk-bind _ _ _ (set_parameters-Has _ a p ha) λ b hb.
            HasOk-bind _ _ _ (set_flag-Has _ b more_name more hb)
              λ c hc. set_flag-Has _ c oneway_name (call_oneway flags) hc)

  pack_reply-Has :
      (error : Option (List ℕ)) (p : Option ℕ) (flags : ℕ)
      → HasOk
          (reply_fields error p (reply_continues flags))
          (varlink_message_pack_reply error p flags)
  unfolding varlink_message_pack_reply
  pack_reply-Has error p flags = HasOk-bind _ _ _ (set_error-Has _ _ error new-Has) λ a ha.
      HasOk-bind _ _ _ (set_parameters-Has _ a p ha)
        λ b hb. set_flag-Has _ b continues_name (reply_continues flags) hb

  chain :
      {A : Type ℓ} {f : List ℕ → Option (Field F)} (r : Result VarlinkError (VarlinkObject F))
      (k : VarlinkObject F → Result VarlinkError A) (y : Result VarlinkError A)
      → HasOk f r
      → ((o : VarlinkObject F) → Has f o → k o ≡ y)
      → (r >>= k) ≡ y
  chain (ok o) k y h e = e o h.0
  chain (err e) k y h _ = absurd (h.1 e refl)

  pack_call-invalid :
      (method : List ℕ) (p : Option ℕ) (flags : ℕ)
      → (call_more flags && call_oneway flags) ≡ true
      → varlink_message_pack_call {F = F} method p flags ≡ err invalid_call
  unfolding varlink_message_pack_call
  pack_call-invalid method p flags e = rw e refl

  -- A call that is packed with the flags more and oneway at once is refused as an invalid call; any other is packed,
  -- and the packed object unpacks to the method, to the parameters, or a new object if there are none, and to the two
  -- low bits of the flags.
  pub pack-unpack_call :
      (method : List ℕ) (p : Option ℕ) (flags : ℕ)
      → (varlink_message_pack_call {F = F} method p flags >>= varlink_message_unpack_call) ≡ (
          if call_more flags && call_oneway flags
          then err invalid_call
          else ok (record { method = method; parameters = parameters_or_new p; flags = flags % 4 }))
  pack-unpack_call method p flags = elim (Bool-cases (call_more flags && call_oneway flags)) [
    | inl e ↦ rw (pack_call-invalid method p flags e, e) refl
    | inr e ↦ rw e (
        chain _ _ _ (pack_call-Has method p flags e) λ o h.
          unpack_call-Has _ o h
          ∙ call_of-fields method p (call_more flags) (call_oneway flags)
          ∙ ap (λ n. ok (record { method = method; parameters = parameters_or_new p; flags = n }))
              (call_flags-bits flags))
  ]

  -- A packed reply unpacks to the error, if there is one, to the parameters, or a new object if there are none, and to
  -- the low bit of the flags.
  pub pack-unpack_reply :
      (error : Option (List ℕ)) (p : Option ℕ) (flags : ℕ)
      → (varlink_message_pack_reply {F = F} error p flags >>= varlink_message_unpack_reply)
        ≡ ok (record { error = error; parameters = parameters_or_new p; flags = flags % 2 })
  pack-unpack_reply error p flags = chain _ _ _ (pack_reply-Has error p flags) λ o h.
      unpack_reply-Has _ o h
      ∙ reply_of-fields error p (reply_continues flags)
      ∙ ap (λ n. ok (record { error = error; parameters = parameters_or_new p; flags = n }))
          (reply_flags-bits flags)
