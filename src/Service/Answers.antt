-- ===== src/Service/Answers.antt =====
-- lib/service.c: the errors with which a service answers a call that it has no method for.
use libvarlink.Prelude.{
  ℕ, ◌≡◌, refl, ap, ◌∙◌, List, [], ◌∷◌, Bool, true, Option, none, some, Result, ok, err,
}
use libvarlink.KeyOrder.{string_order, strcmp}
use libvarlink.Error.{VarlinkError, invalid_identifier}
use libvarlink.Types.{VarlinkType}
use libvarlink.Scanner.{starts_with}
use libvarlink.Uri.{
  VarlinkUri, uri_parse_protocol, split_first, split_last, split_member, split_interface, place,
  varlink_uri_new,
}
use libvarlink.Object.{VarlinkObject}
use libvarlink.Stream.{WriteAnswer}
use libvarlink.Message.{varlink_message_pack_reply}
use libvarlink.Interface.{VarlinkInterface, VarlinkMethod, varlink_interface_get_method}
use libvarlink.Service.{
  Mask, VarlinkCall, ServiceConnection, ReplyRun, Interfaces, is_call, find_interface, service_name,
  error_member, check_interface, check_error, send_error, varlink_call_reply_error,
}
use libvarlink.Service.Methods.{
  interface_field, method_field, interface_not_found_error, method_not_found_error,
  method_not_implemented_error, one_string, call_method, call_interface,
  varlink_call_reply_interface_not_found, varlink_call_reply_method_not_found,
  varlink_call_reply_method_not_implemented, varlink_service_method_callback,
}

-- The last parts of the names of the errors.
abbrev pub interface_not_found_name : List ℕ
interface_not_found_name =
    b'I' ∷ b'n' ∷ b't' ∷ b'e' ∷ b'r' ∷ b'f' ∷ b'a' ∷ b'c' ∷ b'e' ∷ b'N' ∷ b'o' ∷ b't' ∷ b'F' ∷ b'o'
    ∷ b'u' ∷ b'n' ∷ b'd' ∷ []

abbrev pub method_not_found_name : List ℕ
method_not_found_name =
    b'M' ∷ b'e' ∷ b't' ∷ b'h' ∷ b'o' ∷ b'd' ∷ b'N' ∷ b'o' ∷ b't' ∷ b'F' ∷ b'o' ∷ b'u' ∷ b'n' ∷ b'd'
    ∷ []

abbrev pub method_not_implemented_name : List ℕ
method_not_implemented_name =
    b'M' ∷ b'e' ∷ b't' ∷ b'h' ∷ b'o' ∷ b'd' ∷ b'N' ∷ b'o' ∷ b't' ∷ b'I' ∷ b'm' ∷ b'p' ∷ b'l' ∷ b'e'
    ∷ b'm' ∷ b'e' ∷ b'n' ∷ b't' ∷ b'e' ∷ b'd' ∷ []

-- An error of org.varlink.service, read as a URI.
abbrev ErrorUri : List ℕ → VarlinkUri → Type 0
ErrorUri name uri = (uri.interface ≡ some service_name) × (uri.member ≡ some name)

module _ (scan_hex : List ℕ → Option ℕ) where
  uri_new-interface_not_found :
      (uri : VarlinkUri) × (varlink_uri_new scan_hex interface_not_found_error true true ≡ ok uri)
      × ErrorUri interface_not_found_name uri
  unfolding varlink_uri_new uri_parse_protocol split_first split_last split_member split_interface
      place starts_with
  uri_new-interface_not_found = (_, refl, (refl, refl))

  uri_new-method_not_found :
      (uri : VarlinkUri) × (varlink_uri_new scan_hex method_not_found_error true true ≡ ok uri)
      × ErrorUri method_not_found_name uri
  unfolding varlink_uri_new uri_parse_protocol split_first split_last split_member split_interface
      place starts_with
  uri_new-method_not_found = (_, refl, (refl, refl))

  uri_new-method_not_implemented :
      (uri : VarlinkUri) × (varlink_uri_new scan_hex method_not_implemented_error true true
        ≡ ok uri)
      × ErrorUri method_not_implemented_name uri
  unfolding varlink_uri_new uri_parse_protocol split_first split_last split_member split_interface
      place starts_with
  uri_new-method_not_implemented = (_, refl, (refl, refl))

-- The interface org.varlink.service is there, with an error of this name.
abbrev pub HasError : {C : Type 0} → Interfaces C → List ℕ → Type 0
HasError interfaces name =
    (t : VarlinkType) × (error_member (find_interface interfaces (some service_name)) (some name)
      ≡ some t)

module _ {F C : Type 0} (to_json : VarlinkObject F → Result VarlinkError (List ℕ))
    (epoll_mod : Mask → Bool) (scan_hex : List ℕ → Option ℕ) (interfaces : Interfaces C) where
  check_interface-service :
      (uri method_uri : VarlinkUri)
      → uri.interface ≡ some service_name
      → check_interface to_json epoll_mod scan_hex interfaces uri (ok method_uri) ≡ ok tt
  unfolding strcmp
  check_interface-service uri method_uri n = rw n refl

  check_member-ok :
      (uri method_uri : VarlinkUri) (method : List ℕ) (x : Option VarlinkType) (t : VarlinkType)
      → x ≡ some t
      → uri.interface ≡ some service_name
      → varlink_uri_new scan_hex method true true ≡ ok method_uri
      → (elim x as (λ y. Result {0, 0} VarlinkError Unit) [
        | none ↦ err invalid_identifier
        | some t ↦
            check_interface to_json epoll_mod scan_hex interfaces uri
              (varlink_uri_new scan_hex method true true)
      ])
        ≡ ok tt
  check_member-ok uri method_uri method none t e n m = absurd (cc)
  check_member-ok uri method_uri method (some d) t e n m =
      rw m (check_interface-service uri method_uri n)

  found_member :
      (x y : Option (List ℕ)) (own : List ℕ) (t : VarlinkType)
      → x ≡ some service_name
      → y ≡ some own
      → error_member (find_interface interfaces (some service_name)) (some own) ≡ some t
      → error_member (find_interface interfaces x) y ≡ some t
  found_member x y own t e f k =
      ap (λ z. error_member (find_interface interfaces z) y) e
      ∙ ap (λ z. error_member (find_interface interfaces (some service_name)) z) f
      ∙ k

  reply_error-passes :
      (c : ServiceConnection) (call : VarlinkCall F) (error name : List ℕ) (parameters : Option ℕ)
      (answers : List WriteAnswer) (uri method_uri : VarlinkUri)
      → is_call call c.call ≡ true
      → varlink_uri_new scan_hex call.message.method true true ≡ ok method_uri
      → varlink_uri_new scan_hex error true true ≡ ok uri
      → ErrorUri name uri
      → HasError interfaces name
      → varlink_call_reply_error to_json epoll_mod scan_hex interfaces c call error parameters
          answers
        ≡ send_error to_json epoll_mod c call answers
            (varlink_message_pack_reply (some error) parameters 0)
  unfolding varlink_call_reply_error
  reply_error-passes c call error name parameters answers uri method_uri i m e n (t, k) =
      let checked : check_error to_json epoll_mod scan_hex interfaces call.message.method (ok uri)
          ≡ ok tt =
        check_member-ok uri method_uri call.message.method _ t
          (found_member uri.interface uri.member name t n.0 n.1 k) n.0 m in
      rw (i, e, checked) refl

  module _ (store : VarlinkObject F → ℕ)
      (run_method : C → ServiceConnection → VarlinkCall F → ReplyRun F) where
    -- The error that a call deserves, with its parameters: none where the method has a callback.
    abbrev pub method_fault : List ℕ → Option (VarlinkMethod C) → Option (List ℕ × List ℕ × List ℕ)
    method_fault member none = some (method_not_found_error, method_field, member)
    method_fault member (some method) = elim method.callback [
      | none ↦ some (method_not_implemented_error, method_field, member)
      | some callback ↦ none
    ]

    abbrev pub fault :
        List ℕ → List ℕ → Option (VarlinkInterface C) → Option (List ℕ × List ℕ × List ℕ)
    fault name member none = some (interface_not_found_error, interface_field, name)
    fault name member (some i) = method_fault member (varlink_interface_get_method i member)

    -- The error passes the checks, with one string as its parameters.
    abbrev pub Passes :
        ServiceConnection
        → VarlinkCall F
        → List WriteAnswer
        → List ℕ × List ℕ × List ℕ
        → ReplyRun F
        → Type 0
    Passes c call answers (error, field, value) run =
        run
        ≡ send_error to_json epoll_mod c call answers (
            varlink_message_pack_reply (some error)
              (one_string to_json epoll_mod store scan_hex interfaces field value) 0)

    abbrev pub Chosen :
        ServiceConnection
        → VarlinkCall F
        → List WriteAnswer
        → Option (List ℕ × List ℕ × List ℕ)
        → ReplyRun F
        → Type 0
    Chosen c call answers none run = Unit
    Chosen c call answers (some f) run = Passes c call answers f run

    -- The errors of org.varlink.service that the service itself replies.
    pub record KnowsErrors : Type 0 where
      pub interface_error : HasError interfaces interface_not_found_name
      pub method_error : HasError interfaces method_not_found_name
      pub callback_error : HasError interfaces method_not_implemented_name

    module _ (c : ServiceConnection) (call : VarlinkCall F) (answers : List WriteAnswer)
        (method_uri : VarlinkUri) (current : is_call call c.call ≡ true)
        (named : varlink_uri_new scan_hex call.message.method true true ≡ ok method_uri)
        (knows : KnowsErrors) where
      callback-Chosen :
          (member : List ℕ) (m : VarlinkMethod C) (x : Option C)
          → m.callback ≡ x
          → Chosen c call answers (method_fault member (some m)) (
              call_method to_json epoll_mod store scan_hex interfaces run_method c call member
                answers
                (some m))
      unfolding varlink_call_reply_method_not_implemented
      callback-Chosen member m none e =
          let (uri, k, n) = uri_new-method_not_implemented scan_hex in
          rw e (
            reply_error-passes c call method_not_implemented_error method_not_implemented_name _
              answers uri method_uri current named k n knows.callback_error)
      callback-Chosen member m (some f) e = rw e tt

      method-Chosen :
          (member : List ℕ) (x : Option (VarlinkMethod C))
          → Chosen c call answers (method_fault member x) (
              call_method to_json epoll_mod store scan_hex interfaces run_method c call member
                answers x)
      unfolding varlink_call_reply_method_not_found
      method-Chosen member none =
          let (uri, k, n) = uri_new-method_not_found scan_hex in
          reply_error-passes c call method_not_found_error method_not_found_name _ answers uri
            method_uri current named k n knows.method_error
      method-Chosen member (some m) = callback-Chosen member m m.callback refl

      interface-Chosen :
          (name member : List ℕ) (x : Option (VarlinkInterface C))
          → Chosen c call answers (fault name member x) (
              call_interface to_json epoll_mod store scan_hex interfaces run_method c call name
                member answers x)
      unfolding varlink_call_reply_interface_not_found
      interface-Chosen name member none =
          let (uri, k, n) = uri_new-interface_not_found scan_hex in
          reply_error-passes c call interface_not_found_error interface_not_found_name _ answers uri
            method_uri current named k n knows.interface_error
      interface-Chosen name member (some i) =
          method-Chosen member (varlink_interface_get_method i member)

      pub method_callback-Chosen :
          (name member : List ℕ)
          → method_uri.interface ≡ some name
          → method_uri.member ≡ some member
          → Chosen c call answers (fault name member (find_interface interfaces (some name))) (
              varlink_service_method_callback to_json epoll_mod store scan_hex interfaces run_method
                answers c call)
      unfolding varlink_service_method_callback
      method_callback-Chosen name member i m =
          rw (named, i, m) (interface-Chosen name member (find_interface interfaces (some name)))
