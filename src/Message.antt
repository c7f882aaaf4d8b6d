-- ===== src/Message.antt =====
-- lib/message.c: a call and a reply as objects.
pub mod Fields
pub mod RoundTrip
mod Tests
use libvarlink.Prelude.{
  ℕ, ◌+◌, ◌/◌, ◌%◌, List, [], ◌∷◌, Bool, true, false, ◌&&◌, Option, none, some, Result, ok, err,
  ◌>>=◌, ◌==◌, if◌then◌else◌,
}
use libvarlink.Error.{VarlinkError, unknown_field, invalid_message, invalid_call}
use libvarlink.Object.{
  VarlinkObject, ObjectRun, varlink_object_new, varlink_object_set_string,
  varlink_object_set_object, varlink_object_set_bool, varlink_object_get_string,
  varlink_object_get_object, varlink_object_get_bool,
}

-- "method"
abbrev pub method_name : List ℕ
method_name = 109 ∷ 101 ∷ 116 ∷ 104 ∷ 111 ∷ 100 ∷ []

-- "parameters"
abbrev pub parameters_name : List ℕ
parameters_name = 112 ∷ 97 ∷ 114 ∷ 97 ∷ 109 ∷ 101 ∷ 116 ∷ 101 ∷ 114 ∷ 115 ∷ []

-- "more"
abbrev pub more_name : List ℕ
more_name = 109 ∷ 111 ∷ 114 ∷ 101 ∷ []

-- "oneway"
abbrev pub oneway_name : List ℕ
oneway_name = 111 ∷ 110 ∷ 101 ∷ 119 ∷ 97 ∷ 121 ∷ []

-- "error"
abbrev pub error_name : List ℕ
error_name = 101 ∷ 114 ∷ 114 ∷ 111 ∷ 114 ∷ []

-- "continues"
abbrev pub continues_name : List ℕ
continues_name = 99 ∷ 111 ∷ 110 ∷ 116 ∷ 105 ∷ 110 ∷ 117 ∷ 101 ∷ 115 ∷ []

-- `flags & VARLINK_CALL_MORE`
abbrev pub call_more : ℕ → Bool
call_more flags = flags % 2 == 1

-- `flags & VARLINK_CALL_ONEWAY`
abbrev pub call_oneway : ℕ → Bool
call_oneway flags = (flags / 2) % 2 == 1

-- `flags & VARLINK_REPLY_CONTINUES`
abbrev pub reply_continues : ℕ → Bool
reply_continues flags = flags % 2 == 1

-- The parameters that unpacking returns: those of the message, or a new object.
pub data Parameters {ℓ} (F : Type ℓ) : Type ℓ where
  of_message : ℕ → Parameters F
  created : VarlinkObject F → Parameters F

-- `*methodp`, `*parametersp`, `*flagsp`
pub record Call {ℓ} (F : Type ℓ) : Type ℓ where
  pub method : List ℕ
  pub parameters : Parameters F
  pub flags : ℕ

-- `*errorp`, `*parametersp`, `*flagsp`
pub record Reply {ℓ} (F : Type ℓ) : Type ℓ where
  pub error : Option (List ℕ)
  pub parameters : Parameters F
  pub flags : ℕ

-- A field that may be missing.
abbrev pub optional {ℓ} : {A : Type ℓ} → Result VarlinkError A → Result VarlinkError (Option A)
optional (ok a) = ok (some a)
optional (err unknown_field) = ok none
optional (err _) = err invalid_message

-- A field that must be there.
abbrev pub required {ℓ} : {A : Type ℓ} → Result VarlinkError A → Result VarlinkError A
required (ok a) = ok a
required (err _) = err invalid_message

-- `if (b) *flagsp |= flag;` for a flag that is not set yet, `b` being false unless the field was read
abbrev pub flag_value : Option Bool → ℕ → ℕ
flag_value (some true) flag = flag
flag_value _ flag = 0

module _ {ℓ} {F : Type ℓ} where
  -- `if (r < 0) return r;` after a setter
  abbrev pub try : ObjectRun F → Result VarlinkError (VarlinkObject F)
  try r = elim r.result [ ok u ↦ ok r.object | err e ↦ err e ]

  abbrev pub set_parameters : VarlinkObject F → Option ℕ → Result VarlinkError (VarlinkObject F)
  set_parameters o none = ok o
  set_parameters o (some p) = try (varlink_object_set_object o parameters_name p)

  abbrev pub set_flag : VarlinkObject F → List ℕ → Bool → Result VarlinkError (VarlinkObject F)
  set_flag o n false = ok o
  set_flag o n true = try (varlink_object_set_bool o n true)

  abbrev pub set_error : VarlinkObject F → Option (List ℕ) → Result VarlinkError (VarlinkObject F)
  set_error o none = ok o
  set_error o (some e) = try (varlink_object_set_string o error_name e)

  unfoldable pub varlink_message_pack_call :
      List ℕ → Option ℕ → ℕ → Result VarlinkError (VarlinkObject F)
  varlink_message_pack_call method parameters flags =
      if call_more flags && call_oneway flags then err invalid_call else do
        call ← try (varlink_object_set_string varlink_object_new method_name method)
        call ← set_parameters call parameters
        call ← set_flag call more_name (call_more flags)
        set_flag call oneway_name (call_oneway flags)

  abbrev pub parameters_or_new : Option ℕ → Parameters F
  parameters_or_new none = created varlink_object_new
  parameters_or_new (some p) = of_message p

  unfoldable pub varlink_message_unpack_call : VarlinkObject F → Result VarlinkError (Call F)
  varlink_message_unpack_call call = do
    method ← required (varlink_object_get_string call method_name)
    parameters ← optional (varlink_object_get_object call parameters_name)
    more ← optional (varlink_object_get_bool call more_name)
    oneway ← optional (varlink_object_get_bool call oneway_name)
    ok (record {
      method = method;
      parameters = parameters_or_new parameters;
      flags = flag_value more 1 + flag_value oneway 2;
    })

  unfoldable pub varlink_message_pack_reply :
      Option (List ℕ) → Option ℕ → ℕ → Result VarlinkError (VarlinkObject F)
  varlink_message_pack_reply error parameters flags = do
    reply ← set_error varlink_object_new error
    reply ← set_parameters reply parameters
    set_flag reply continues_name (reply_continues flags)

  unfoldable pub varlink_message_unpack_reply : VarlinkObject F → Result VarlinkError (Reply F)
  varlink_message_unpack_reply reply = do
    error ← optional (varlink_object_get_string reply error_name)
    parameters ← optional (varlink_object_get_object reply parameters_name)
    continues ← optional (varlink_object_get_bool reply continues_name)
    ok (record {
      error = error;
      parameters = parameters_or_new parameters;
      flags = flag_value continues 1;
    })
