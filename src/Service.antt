-- ===== src/Service.antt =====
-- lib/service.c: a service, one connection of it, and the call that it works on.
--
-- The conversion of objects to JSON, the kernel's answers to `epoll_ctl` (did it succeed), `sscanf`
-- and the addresses of new objects are parameters, as is what a method's callback does. A call is passed as it
-- stands in memory; a call that was freed cannot be passed.
-- Connections are dispatched one at a time, so the state is one connection.
pub mod Methods
pub mod Dispatch
pub mod Once
pub mod Later
pub mod InStep
pub mod Events
pub mod Misnamed
pub mod Answers
pub mod Answered
mod Tests
use libvarlink.Prelude.{
  ℕ, ◌+◌, ◌-◌, List, [], ◌∷◌, Bool, true, false, not, ◌&&◌, ◌||◌, Option, none, some, Result, ok,
  err, ◌==◌, if◌then◌else◌,
}
use libvarlink.KeyOrder.{string_order, strcmp}
use libvarlink.Error.{VarlinkError, panic, invalid_call, invalid_identifier}
use libvarlink.Avl.{AvlTree, avl_tree_find}
use libvarlink.Types.{VarlinkType}
use libvarlink.Interface.{
  VarlinkInterface, VarlinkInterfaceMember, VarlinkMethod, find_member, as_error,
  varlink_interface_get_method,
}
use libvarlink.Uri.{VarlinkUri, varlink_uri_new}
use libvarlink.Object.{VarlinkObject, varlink_object_new, varlink_object_set_string}
use libvarlink.Stream.{Stream, WriteAnswer, WriteRun, varlink_stream_write}
use libvarlink.Message.{Call, call_oneway, reply_continues, varlink_message_pack_reply}

-- The bits EPOLLIN and EPOLLOUT.
pub record Mask : Type 0 where
  pub epollin : Bool
  pub epollout : Bool

abbrev pub same_bit : Bool → Bool → Bool
same_bit a b = if a then b else not b

abbrev pub same_mask : Mask → Mask → Bool
same_mask a b = same_bit a.epollin b.epollin && same_bit a.epollout b.epollout

-- `struct VarlinkCall`; `id` is the pointer to it.
pub record VarlinkCall (F : Type 0) : Type 0 where
  pub id : ℕ
  pub refcount : ℕ
  pub message : Call F

-- `call` is a pointer; `subscribed` is what the kernel has for the descriptor.
pub record ServiceConnection : Type 0 where
  pub stream : Stream
  pub events_mask : Mask
  pub current_events_mask : Mask
  pub subscribed : Mask
  pub call : Option ℕ

-- What a reply leaves of the connection and of the call (`none` where it is freed), and what it
-- returns (`none` while it waits); for the theorems, the bytes that the kernel took.
pub record ReplyRun (F : Type 0) : Type 0 where
  pub connection : ServiceConnection
  pub call : Option (VarlinkCall F)
  pub result : Option (Result {0, 0} VarlinkError Unit)
  pub sent : List ℕ

-- Interfaces by their names.
abbrev pub interface_name : {C : Type 0} → VarlinkInterface C → List ℕ
interface_name i = i.name

abbrev pub Interfaces : Type 0 → Type 0
Interfaces C = AvlTree (VarlinkInterface C)

-- `avl_tree_find (service->interfaces, uri->interface)`; a URI read with an interface has one.
unfoldable pub find_interface :
    {C : Type 0} → Interfaces C → Option (List ℕ) → Option (VarlinkInterface C)
find_interface interfaces none = none
find_interface interfaces (some name) = avl_tree_find interface_name interfaces name

-- "org.varlink.service"
abbrev pub service_name : List ℕ
service_name =
    b'o' ∷ b'r' ∷ b'g' ∷ b'.' ∷ b'v' ∷ b'a' ∷ b'r' ∷ b'l' ∷ b'i' ∷ b'n' ∷ b'k' ∷ b'.' ∷ b's' ∷ b'e'
    ∷ b'r' ∷ b'v' ∷ b'i' ∷ b'c' ∷ b'e' ∷ []

abbrev pub same_name : Option (List ℕ) → Option (List ℕ) → Bool
same_name (some a) (some b) = elim (strcmp a b) [
  | Prim.Native.Nat.Ordering.lt ↦ false
  | Prim.Native.Nat.Ordering.eq ↦ true
  | Prim.Native.Nat.Ordering.gt ↦ false
]
same_name _ _ = false

-- The error that a name stands for.
abbrev pub error_member :
    {C : Type 0} → Option (VarlinkInterface C) → Option (List ℕ) → Option VarlinkType
error_member (some i) (some name) = as_error (find_member i name)
error_member _ _ = none

-- `connection->events_mask |= EPOLLOUT`
abbrev pub want_write : ServiceConnection → ServiceConnection
want_write c = record c {
  events_mask = record { epollin = c.events_mask.epollin; epollout = true };
}

-- The mask is stored before `epoll_mod`, and stays where that fails.
abbrev pub modified :
    ServiceConnection → Mask → Bool → ServiceConnection × Result {0, 0} VarlinkError Unit
modified c mask true = (record c { current_events_mask = mask; subscribed = mask }, ok tt)
modified c mask false = (record c { current_events_mask = mask }, err panic)

unfoldable pub service_connection_set_events_mask :
    (Mask → Bool) → ServiceConnection → Mask → ServiceConnection × Result {0, 0} VarlinkError Unit
service_connection_set_events_mask epoll_mod c mask =
    if same_mask mask c.current_events_mask then (c, ok tt) else modified c mask (epoll_mod mask)

abbrev pub subscribe_write :
    (Mask → Bool) → ServiceConnection → ServiceConnection × Result {0, 0} VarlinkError Unit
subscribe_write epoll_mod c =
    service_connection_set_events_mask epoll_mod (want_write c) (want_write c).events_mask

module _ {F : Type 0} where
  abbrev pub is_call : VarlinkCall F → Option ℕ → Bool
  is_call call none = false
  is_call call (some pointer) = call.id == pointer

  abbrev pub varlink_call_ref : VarlinkCall F → VarlinkCall F
  varlink_call_ref call = record call { refcount = call.refcount + 1 }

  -- The last reference frees the call; a call that is there has one.
  unfoldable pub varlink_call_unref : VarlinkCall F → Option (VarlinkCall F)
  varlink_call_unref call =
      if call.refcount - 1 == 0 then none else some (record call { refcount = call.refcount - 1 })

  abbrev pub varlink_call_remove_from_connection :
      ServiceConnection → VarlinkCall F → ServiceConnection × Option (VarlinkCall F)
  varlink_call_remove_from_connection c call = (record c { call = none }, varlink_call_unref call)

  abbrev pub returned :
      ServiceConnection → VarlinkCall F → Result {0, 0} VarlinkError Unit → ReplyRun F
  returned c call r = record { connection = c; call = some call; result = some r; sent = [] }

  -- What the write of a message leaves, whose stream is in the connection already.
  abbrev pub written :
      WriteRun
      → VarlinkCall F
      → Option (Result {0, 0} VarlinkError Unit)
      → ServiceConnection
      → ReplyRun F
  written w call r c = record { connection = c; call = some call; result = r; sent = w.sent }

  -- `varlink_call_remove_from_connection (call); return 0;`
  abbrev pub finished : List ℕ → ServiceConnection × Option (VarlinkCall F) → ReplyRun F
  finished sent (c, rest) = record {
    connection = c;
    call = rest;
    result = some (ok tt);
    sent = sent;
  }

  -- Behind the subscription of EPOLLOUT: the call is removed unless more replies follow.
  abbrev pub end_reply :
      ℕ
      → VarlinkCall F
      → WriteRun
      → ServiceConnection × Result {0, 0} VarlinkError Unit
      → ReplyRun F
  end_reply flags call w (c, err e) = written w call (some (err e)) c
  end_reply flags call w (c, ok u) =
      if reply_continues flags
      then written w call (some (ok tt)) c
      else finished w.sent (varlink_call_remove_from_connection c call)

  abbrev pub after_reply :
      (Mask → Bool) → ServiceConnection → VarlinkCall F → ℕ → WriteRun → ReplyRun F
  after_reply epoll_mod c call flags w = elim w.result [
    | none ↦ written w call none (record c { stream = w.stream })
    | some (err e) ↦ written w call (some (err e)) (record c { stream = w.stream })
    | some (ok true) ↦ end_reply flags call w (record c { stream = w.stream }, ok tt)
    | some (ok false) ↦
        end_reply flags call w (subscribe_write epoll_mod (record c { stream = w.stream }))
  ]

  module _ (to_json : VarlinkObject F → Result VarlinkError (List ℕ))
      (epoll_mod : Mask → Bool) where
    abbrev pub send_reply :
        ServiceConnection
        → VarlinkCall F
        → ℕ
        → List WriteAnswer
        → Result VarlinkError (VarlinkObject F)
        → ReplyRun F
    send_reply c call flags answers (err e) = returned c call (err e)
    send_reply c call flags answers (ok reply) =
        after_reply epoll_mod c call flags (varlink_stream_write to_json c.stream reply answers)

    unfoldable pub varlink_call_reply :
        ServiceConnection → VarlinkCall F → Option ℕ → ℕ → List WriteAnswer → ReplyRun F
    varlink_call_reply c call parameters flags answers =
        if not (is_call call c.call)
        then returned c call (err invalid_call)
        else if call_oneway call.message.flags && reply_continues flags
        then returned c call (err invalid_call)
        else if call_oneway call.message.flags
        then finished [] (varlink_call_remove_from_connection c call)
        else send_reply c call flags answers (varlink_message_pack_reply none parameters flags)

    -- Behind the write of an error: EPOLLOUT is only remembered.
    abbrev pub after_error : ServiceConnection → VarlinkCall F → WriteRun → ReplyRun F
    after_error c call w = elim w.result [
      | none ↦ written w call none (record c { stream = w.stream })
      | some (err e) ↦ written w call (some (err e)) (record c { stream = w.stream })
      | some (ok true) ↦
          finished w.sent
            (varlink_call_remove_from_connection (record c { stream = w.stream }) call)
      | some (ok false) ↦
          finished w.sent
            (varlink_call_remove_from_connection (want_write (record c { stream = w.stream })) call)
    ]

    abbrev pub send_error :
        ServiceConnection
        → VarlinkCall F
        → List WriteAnswer
        → Result VarlinkError (VarlinkObject F)
        → ReplyRun F
    send_error c call answers (err e) = returned c call (err e)
    send_error c call answers (ok reply) =
        after_error c call (varlink_stream_write to_json c.stream reply answers)

    module _ {C : Type 0} (scan_hex : List ℕ → Option ℕ) (interfaces : Interfaces C) where
      -- The error must be one of the interface of the call's method, or of org.varlink.service.
      abbrev pub check_interface :
          VarlinkUri → Result VarlinkError VarlinkUri → Result {0, 0} VarlinkError Unit
      check_interface uri_error (err e) = err e
      check_interface uri_error (ok uri_method) =
          if not (same_name uri_error.interface (some service_name))
            && not (same_name uri_error.interface uri_method.interface)
          then err invalid_identifier
          else ok tt

      abbrev pub check_error :
          List ℕ → Result VarlinkError VarlinkUri → Result {0, 0} VarlinkError Unit
      check_error method (err e) = err e
      check_error method (ok uri_error) =
          elim (error_member (find_interface interfaces uri_error.interface) uri_error.member) [
            | none ↦ err invalid_identifier
            | some t ↦ check_interface uri_error (varlink_uri_new scan_hex method true true)
          ]

      abbrev pub if_checked :
          ServiceConnection
          → VarlinkCall F
          → ReplyRun F
          → Result {0, 0} VarlinkError Unit
          → ReplyRun F
      if_checked c call run (err e) = returned c call (err e)
      if_checked c call run (ok u) = run

      unfoldable pub varlink_call_reply_error :
          ServiceConnection → VarlinkCall F → List ℕ → Option ℕ → List WriteAnswer → ReplyRun F
      varlink_call_reply_error c call error parameters answers =
          if not (is_call call c.call)
          then returned c call (err invalid_call)
          else if_checked c call
              (send_error c call answers (varlink_message_pack_reply (some error) parameters 0))
              (check_error call.message.method (varlink_uri_new scan_hex error true true))
