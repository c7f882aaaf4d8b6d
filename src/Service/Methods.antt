-- ===== src/Service/Methods.antt =====
-- lib/service.c: the errors that a service replies by itself, and the choice of a method's callback.
use libvarlink.Prelude.{ℕ, List, [], ◌∷◌, ◌++◌, Bool, true, Option, none, some, Result, ok, err}
use libvarlink.Error.{VarlinkError, panic, invalid_interface}
use libvarlink.KeyOrder.{string_order}
use libvarlink.Avl.{AvlError, key_exists, avl_tree_insert, avl_tree_find}
use libvarlink.Interface.{VarlinkInterface, VarlinkMethod, varlink_interface_get_method}
use libvarlink.Uri.{VarlinkUri, varlink_uri_new}
use libvarlink.Object.{VarlinkObject, varlink_object_new, varlink_object_set_string}
use libvarlink.Stream.{WriteAnswer}
use libvarlink.Service.{
  Mask, VarlinkCall, ServiceConnection, ReplyRun, interface_name, Interfaces, find_interface,
  service_name, varlink_call_reply_error,
}

-- "interface"
abbrev pub interface_field : List ℕ
interface_field = b'i' ∷ b'n' ∷ b't' ∷ b'e' ∷ b'r' ∷ b'f' ∷ b'a' ∷ b'c' ∷ b'e' ∷ []

-- "method"
abbrev pub method_field : List ℕ
method_field = b'm' ∷ b'e' ∷ b't' ∷ b'h' ∷ b'o' ∷ b'd' ∷ []

-- "parameter"
abbrev pub parameter_field : List ℕ
parameter_field = b'p' ∷ b'a' ∷ b'r' ∷ b'a' ∷ b'm' ∷ b'e' ∷ b't' ∷ b'e' ∷ b'r' ∷ []

-- "org.varlink.service.InterfaceNotFound"
abbrev pub interface_not_found_error : List ℕ
interface_not_found_error =
    service_name
    ++ b'.' ∷ b'I' ∷ b'n' ∷ b't' ∷ b'e' ∷ b'r' ∷ b'f' ∷ b'a' ∷ b'c' ∷ b'e' ∷ b'N' ∷ b'o' ∷ b't'
      ∷ b'F' ∷ b'o' ∷ b'u' ∷ b'n' ∷ b'd' ∷ []

-- "org.varlink.service.MethodNotFound"
abbrev pub method_not_found_error : List ℕ
method_not_found_error =
    service_name
    ++ b'.' ∷ b'M' ∷ b'e' ∷ b't' ∷ b'h' ∷ b'o' ∷ b'd' ∷ b'N' ∷ b'o' ∷ b't' ∷ b'F' ∷ b'o' ∷ b'u'
      ∷ b'n' ∷ b'd' ∷ []

-- "org.varlink.service.MethodNotImplemented"
abbrev pub method_not_implemented_error : List ℕ
method_not_implemented_error =
    service_name
    ++ b'.' ∷ b'M' ∷ b'e' ∷ b't' ∷ b'h' ∷ b'o' ∷ b'd' ∷ b'N' ∷ b'o' ∷ b't' ∷ b'I' ∷ b'm' ∷ b'p'
      ∷ b'l' ∷ b'e' ∷ b'm' ∷ b'e' ∷ b'n' ∷ b't' ∷ b'e' ∷ b'd' ∷ []

-- "org.varlink.service.InvalidParameter"
abbrev pub invalid_parameter_error : List ℕ
invalid_parameter_error =
    service_name
    ++ b'.' ∷ b'I' ∷ b'n' ∷ b'v' ∷ b'a' ∷ b'l' ∷ b'i' ∷ b'd' ∷ b'P' ∷ b'a' ∷ b'r' ∷ b'a' ∷ b'm'
      ∷ b'e' ∷ b't' ∷ b'e' ∷ b'r' ∷ []

module _ {F C : Type 0} (to_json : VarlinkObject F → Result VarlinkError (List ℕ))
    (epoll_mod : Mask → Bool) (store : VarlinkObject F → ℕ) (scan_hex : List ℕ → Option ℕ)
    (interfaces : Interfaces C) where
  -- A new object with one string, whose setter's result is not looked at.
  abbrev pub one_string : List ℕ → List ℕ → Option ℕ
  one_string field value =
      some (store (varlink_object_set_string varlink_object_new field value).object)

  unfoldable pub varlink_call_reply_interface_not_found :
      ServiceConnection → VarlinkCall F → List ℕ → List WriteAnswer → ReplyRun F
  varlink_call_reply_interface_not_found c call interface answers =
      varlink_call_reply_error to_json epoll_mod scan_hex interfaces c call
        interface_not_found_error (one_string interface_field interface) answers

  unfoldable pub varlink_call_reply_method_not_found :
      ServiceConnection → VarlinkCall F → List ℕ → List WriteAnswer → ReplyRun F
  varlink_call_reply_method_not_found c call method answers =
      varlink_call_reply_error to_json epoll_mod scan_hex interfaces c call method_not_found_error
        (one_string method_field method) answers

  unfoldable pub varlink_call_reply_method_not_implemented :
      ServiceConnection → VarlinkCall F → List ℕ → List WriteAnswer → ReplyRun F
  varlink_call_reply_method_not_implemented c call method answers =
      varlink_call_reply_error to_json epoll_mod scan_hex interfaces c call
        method_not_implemented_error (one_string method_field method) answers

  unfoldable pub varlink_call_reply_invalid_parameter :
      ServiceConnection → VarlinkCall F → List ℕ → List WriteAnswer → ReplyRun F
  varlink_call_reply_invalid_parameter c call parameter answers =
      varlink_call_reply_error to_json epoll_mod scan_hex interfaces c call invalid_parameter_error
        (one_string parameter_field parameter) answers

  -- What a method's callback does is a parameter.
  module _ (run_method : C → ServiceConnection → VarlinkCall F → ReplyRun F) where
    abbrev pub call_method :
        ServiceConnection
        → VarlinkCall F
        → List ℕ
        → List WriteAnswer
        → Option (VarlinkMethod C)
        → ReplyRun F
    call_method c call member answers none =
        varlink_call_reply_method_not_found c call member answers
    call_method c call member answers (some method) = elim method.callback [
      | none ↦ varlink_call_reply_method_not_implemented c call member answers
      | some callback ↦ run_method callback c call
    ]

    abbrev pub call_interface :
        ServiceConnection
        → VarlinkCall F
        → List ℕ
        → List ℕ
        → List WriteAnswer
        → Option (VarlinkInterface C)
        → ReplyRun F
    call_interface c call name member answers none =
        varlink_call_reply_interface_not_found c call name answers
    call_interface c call name member answers (some interface) =
        call_method c call member answers (varlink_interface_get_method interface member)

    abbrev pub call_named :
        ServiceConnection
        → VarlinkCall F
        → List WriteAnswer
        → Option (List ℕ)
        → Option (List ℕ)
        → ReplyRun F
    call_named c call answers (some name) (some member) =
        call_interface c call name member answers (find_interface interfaces (some name))
    call_named c call answers _ _ =
        varlink_call_reply_invalid_parameter c call call.message.method answers

    abbrev pub call_uri :
        ServiceConnection
        → VarlinkCall F
        → List WriteAnswer
        → Result VarlinkError VarlinkUri
        → ReplyRun F
    call_uri c call answers (err e) =
        varlink_call_reply_invalid_parameter c call call.message.method answers
    call_uri c call answers (ok uri) = call_named c call answers uri.interface uri.member

    -- The answers are those to the write of an error.
    unfoldable pub varlink_service_method_callback :
        List WriteAnswer → ServiceConnection → VarlinkCall F → ReplyRun F
    varlink_service_method_callback answers c call =
        call_uri c call answers (varlink_uri_new scan_hex call.message.method true true)

-- The loop over the variable arguments, and the insertion, of `varlink_service_add_interface`.
abbrev pub inserted_interface :
    {C : Type 0}
    → Interfaces C
    → Result AvlError (Interfaces C)
    → Interfaces C × Result {0, 0} VarlinkError Unit
inserted_interface old (ok t) = (t, ok tt)
inserted_interface old (err key_exists) = (old, err invalid_interface)
inserted_interface old (err _) = (old, err panic)

unfoldable pub insert_interface :
    {C : Type 0}
    → Interfaces C
    → VarlinkInterface C
    → Interfaces C × Result {0, 0} VarlinkError Unit
insert_interface interfaces i =
    inserted_interface interfaces (avl_tree_insert interface_name interfaces i.name i)

unfoldable pub varlink_service_get_interface_by_name :
    {C : Type 0} → Interfaces C → List ℕ → Option (VarlinkInterface C)
varlink_service_get_interface_by_name interfaces name = avl_tree_find interface_name interfaces name
