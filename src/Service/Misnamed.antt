-- ===== src/Service/Misnamed.antt =====
-- lib/service.c: a call whose method is no qualified name.
use libvarlink.Prelude.{
  ℕ, ◌≡◌, refl, List, Bool, true, Option, none, some, Result, ok, err, Bool-cases, inl, inr,
}
use libvarlink.Error.{VarlinkError, invalid_call, invalid_identifier}
use libvarlink.Types.{VarlinkType}
use libvarlink.Uri.{VarlinkUri, varlink_uri_new}
use libvarlink.Object.{VarlinkObject}
use libvarlink.Stream.{WriteAnswer}
use libvarlink.Service.{
  Mask, VarlinkCall, ServiceConnection, ReplyRun, Interfaces, is_call, returned, find_interface,
  error_member, check_interface, check_error, varlink_call_reply_error,
}
use libvarlink.Service.Methods.{
  varlink_call_reply_invalid_parameter, varlink_service_method_callback,
}

-- The run is an error, nothing is sent, and the connection and the call are as before.
abbrev pub Refused : {F : Type 0} → ServiceConnection → VarlinkCall F → ReplyRun F → Type 0
Refused c call run = (e : VarlinkError) × (run ≡ returned c call (err e))

module _ {F C : Type 0} (to_json : VarlinkObject F → Result VarlinkError (List ℕ))
    (epoll_mod : Mask → Bool) (scan_hex : List ℕ → Option ℕ) (interfaces : Interfaces C) where
  check_member-err :
      (uri : VarlinkUri) (method : List ℕ) (e : VarlinkError) (t : Option VarlinkType)
      → varlink_uri_new scan_hex method true true ≡ err e
      → (e' : VarlinkError) × ((elim t as (λ x. Result {0, 0} VarlinkError Unit) [
        | none ↦ err invalid_identifier
        | some t ↦
            check_interface to_json epoll_mod scan_hex interfaces uri
              (varlink_uri_new scan_hex method true true)
      ])
          ≡ err e')
  check_member-err uri method e none h = (invalid_identifier, refl)
  check_member-err uri method e (some t) h = (e, rw h refl)

  check_error-err :
      (method : List ℕ) (e : VarlinkError) (x : Result VarlinkError VarlinkUri)
      → varlink_uri_new scan_hex method true true ≡ err e
      → (e' : VarlinkError) × (check_error to_json epoll_mod scan_hex interfaces method x ≡ err e')
  check_error-err method e (err d) h = (d, refl)
  check_error-err method e (ok uri) h =
      check_member-err uri method e
        (error_member (find_interface interfaces uri.interface) uri.member) h

  reply_error-Refused :
      (c : ServiceConnection) (call : VarlinkCall F) (error : List ℕ) (parameters : Option ℕ)
      (answers : List WriteAnswer) (e : VarlinkError)
      → varlink_uri_new scan_hex call.message.method true true ≡ err e
      → Refused c call (
          varlink_call_reply_error to_json epoll_mod scan_hex interfaces c call error parameters
            answers)
  unfolding varlink_call_reply_error
  reply_error-Refused c call error parameters answers e h =
      let (e', k) =
        check_error-err call.message.method e (varlink_uri_new scan_hex error true true) h in
      elim (Bool-cases (is_call call c.call)) [
        | inl i ↦ (e', rw (i, k) refl)
        | inr i ↦ (invalid_call, rw i refl)
      ]

  module _ (store : VarlinkObject F → ℕ)
      (run_method : C → ServiceConnection → VarlinkCall F → ReplyRun F) where
    -- A call whose method is not read as a URI with an interface and a member is refused by the callback of the service,
    -- and the connection is as before: the error InvalidParameter, which is meant for this call, is not sent.
    pub method_callback-Refused :
        (c : ServiceConnection) (call : VarlinkCall F) (answers : List WriteAnswer)
        (e : VarlinkError)
        → varlink_uri_new scan_hex call.message.method true true ≡ err e
        → Refused c call (
            varlink_service_method_callback to_json epoll_mod store scan_hex interfaces run_method
              answers c call)
    unfolding varlink_service_method_callback varlink_call_reply_invalid_parameter
    method_callback-Refused c call answers e h = rw h (reply_error-Refused c call _ _ answers e h)
