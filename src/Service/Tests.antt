-- ===== src/Service/Tests.antt =====
-- lib/service.c on one connection.
use libvarlink.Prelude.{
  ℕ, ◌+◌, ◌<◌, arith, ◌≡◌, refl, List, [], ◌∷◌, Bool, true, false, Option, none, some, Result, ok,
  err,
}
use libvarlink.Prelude.Int.{ℤ}
use libvarlink.Error.{VarlinkError, invalid_call, invalid_identifier}
use libvarlink.Avl.{avl_tree_new}
use libvarlink.Object.{VarlinkObject, varlink_object_new}
use libvarlink.Stream.{
  ReadAnswer, WriteAnswer, wrote, out_end, buffer_size, varlink_stream_new, move_rest_in,
  move_rest_out, split_nul, look, read_loop, varlink_stream_read, varlink_stream_flush, write_json,
  varlink_stream_write,
}
use libvarlink.Message.{of_message, varlink_message_pack_reply, varlink_message_pack_call}
use libvarlink.Uri.{
  uri_parse_protocol, split_first, split_last, split_member, split_interface, varlink_uri_new,
}
use libvarlink.Service.{
  Mask, VarlinkCall, varlink_call_unref, ServiceConnection, ReplyRun, Interfaces, returned,
  service_connection_set_events_mask, varlink_call_reply, varlink_call_reply_error,
}
use libvarlink.Service.Methods.{
  one_string, interface_not_found_error, interface_field, varlink_service_method_callback,
}
use libvarlink.Service.Dispatch.{
  Events, left, read_calls, settle, dispatch_reads, varlink_service_dispatch_connection,
}
use libvarlink.Service.Once.{CallAfter, call_reply-CallAfter, call_reply_error-CallAfter}
use libvarlink.Service.Later.{same, called, reply-once}
use libvarlink.Service.InStep.{call_reply-InStep}
use libvarlink.Service.Answered.{Answered, Unpacks, method_callback-Answered}
use libvarlink.Stream.Bounds.{IsBounded}
use libvarlink.Service.Events.{Listens, dispatch-Listens, Kept, dispatch_busy-Kept}
use libvarlink.Avl.{leaf, node, avl_tree_find, avl_tree_find_node, find_from}
use libvarlink.Types.{object_type, no_fields}
use libvarlink.Uri.{VarlinkUri, no_protocol, place}
use libvarlink.Interface.{VarlinkInterfaceMember, member_error, find_member}
use libvarlink.Service.{service_name, find_interface}
use libvarlink.KeyOrder.{strcmp}
use libvarlink.Service.Answers.{
  interface_not_found_name, method_not_found_name, method_not_implemented_name, KnowsErrors, fault,
}
use libvarlink.Service.Misnamed.{Refused, method_callback-Refused}

abbrev two_bytes : VarlinkObject ℤ → Result VarlinkError (List ℕ)
two_bytes o = ok (b'{' ∷ b'}' ∷ [])

abbrev no_object : List ℕ → Result VarlinkError (VarlinkObject ℤ)
no_object m = ok varlink_object_new

abbrev works : Mask → Bool
works m = true

-- A call of a method without a dot.
abbrev ping : VarlinkCall ℤ
ping = record {
  id = 3;
  refcount = 1;
  message = record { method = b'P' ∷ []; parameters = of_message 9; flags = 0 };
}

abbrev quiet : Mask
quiet = record { epollin = false; epollout = false }

abbrev busy : ServiceConnection
busy = record {
  stream = varlink_stream_new;
  events_mask = quiet;
  current_events_mask = quiet;
  subscribed = quiet;
  call = some 3;
}

abbrev all : List WriteAnswer
all = wrote (λ n. n) ∷ []

abbrev nothing_registered : Interfaces ℕ
nothing_registered = avl_tree_new

abbrev no_hex : List ℕ → Option ℕ
no_hex s = none

abbrev run_nothing : ℕ → ServiceConnection → VarlinkCall ℤ → ReplyRun ℤ
run_nothing f c call = returned c call (ok tt)

abbrev keep_call : ServiceConnection → VarlinkCall ℤ → ReplyRun ℤ
keep_call c call = returned c call (ok tt)

-- A reply that is written at once removes the call, and frees it; the connection is not subscribed to EPOLLIN by that.
replied : varlink_call_reply two_bytes works busy ping none 0 all ≡ record {
  connection = record busy { call = none };
  call = none;
  result = some (ok tt);
  sent = b'{' ∷ b'}' ∷ 0 ∷ [];
}
unfolding varlink_call_reply varlink_message_pack_reply varlink_stream_new varlink_stream_write
    write_json buffer_size varlink_stream_flush move_rest_out varlink_call_unref
replied = refl

-- Bytes are still to be sent, and the connection is subscribed to EPOLLIN and EPOLLOUT.
abbrev lagging : ServiceConnection
lagging = record {
  stream = record { input = []; in_start = 0; out = 1 ∷ []; out_start = 0; hup = false };
  events_mask = record { epollin = true; epollout = true };
  current_events_mask = record { epollin = true; epollout = true };
  subscribed = record { epollin = true; epollout = true };
  call = none;
}

-- Only EPOLLIN is reported, and no message is there: EPOLLOUT is dropped, although bytes are still to be sent.
dropped :
    (varlink_service_dispatch_connection no_object works keep_call
      (record { readable = true; writable = false; hung_up = false })
      lagging
      0
      []
      ((ReadAnswer.eagain ∷ []) ∷ [])).end
    ≡ left (record lagging {
      events_mask = record { epollin = true; epollout = false };
      current_events_mask = record { epollin = true; epollout = false };
      subscribed = record { epollin = true; epollout = false };
    })
unfolding varlink_service_dispatch_connection dispatch_reads read_calls settle
    service_connection_set_events_mask varlink_stream_read read_loop look split_nul move_rest_in
    buffer_size
dropped = refl

call_reply-CallAfter_example :
    CallAfter busy.call ping none none (varlink_call_reply two_bytes works busy ping none 0 all)
unfolding varlink_call_unref
call_reply-CallAfter_example = call_reply-CallAfter two_bytes works busy ping none 0 all

call_reply_error-CallAfter_example : CallAfter busy.call ping none none (
    varlink_call_reply_error two_bytes works no_hex nothing_registered busy ping
      (b'a' ∷ [])
      none
      all)
unfolding varlink_call_unref
call_reply_error-CallAfter_example =
    call_reply_error-CallAfter two_bytes works no_hex nothing_registered busy ping (b'a' ∷ []) none
      all

-- A call whose holder has a reference too.
abbrev held_ping : VarlinkCall ℤ
held_ping = record ping { refcount = 2 }

abbrev held_run : ReplyRun ℤ
held_run = varlink_call_reply two_bytes works busy held_ping none 0 all

held_result : held_run.result ≡ some (ok tt)
unfolding varlink_call_reply varlink_message_pack_reply varlink_stream_new varlink_stream_write
    write_json buffer_size varlink_stream_flush move_rest_out varlink_call_unref
held_result = refl

held_call : held_run.call ≡ some ping
unfolding varlink_call_reply varlink_message_pack_reply varlink_stream_new varlink_stream_write
    write_json buffer_size varlink_stream_flush move_rest_out varlink_call_unref
held_call = refl

held_none : held_run.connection.call ≡ none
unfolding varlink_call_reply varlink_message_pack_reply varlink_stream_new varlink_stream_write
    write_json buffer_size varlink_stream_flush move_rest_out varlink_call_unref
held_none = refl

-- A new call comes between.
reply-once_example :
    (2 ≡ 1 + 1)
    × (varlink_call_reply two_bytes works
          (record held_run.connection { call = some 4 })
          ping
          (some 4)
          1
          all
        ≡ returned (record held_run.connection { call = some 4 }) ping (err invalid_call))
reply-once_example =
    reply-once two_bytes works no_hex nothing_registered busy
      (record held_run.connection { call = some 4 }) held_ping ping none (some 4) 0 1 all all
      held_result refl held_call
      (called held_run.connection 4 held_none (λ e. absurd (omega arith)) same)

abbrev readable_only : Events
readable_only = record { readable = true; writable = false; hung_up = false }

-- A message that is read is a call, and the callback answers it.
abbrev some_call : List ℕ → Result VarlinkError (VarlinkObject ℤ)
some_call m = varlink_message_pack_call (b'P' ∷ []) none 0

abbrev answer : ServiceConnection → VarlinkCall ℤ → ReplyRun ℤ
answer c call = varlink_call_reply two_bytes works c call none 0 all

dispatch-Listens_example :
    Listens
      (varlink_service_dispatch_connection some_call works answer readable_only lagging 0 []
        ((ReadAnswer.got (λ n. b'{' ∷ 0 ∷ []) ∷ []) ∷ (ReadAnswer.eagain ∷ []) ∷ [])).end
dispatch-Listens_example =
    dispatch-Listens some_call works answer
      (λ d k. call_reply-InStep works two_bytes d k none 0 all) readable_only lagging 0 []
      ((ReadAnswer.got (λ n. b'{' ∷ 0 ∷ []) ∷ []) ∷ (ReadAnswer.eagain ∷ []) ∷ []) refl

dispatch_busy-Kept_example :
    Kept no_object works keep_call
      (record busy { events_mask = quiet })
      3
      (varlink_service_dispatch_connection no_object works keep_call readable_only busy 4 []
        ((ReadAnswer.eagain ∷ []) ∷ [])).end
    × ((varlink_service_dispatch_connection no_object works keep_call readable_only busy 4 []
          ((ReadAnswer.eagain ∷ []) ∷ [])).calls
        ≡ [])
dispatch_busy-Kept_example =
    dispatch_busy-Kept no_object works keep_call readable_only busy 3 4 []
      ((ReadAnswer.eagain ∷ []) ∷ []) refl refl

misnamed : varlink_uri_new no_hex (b'P' ∷ []) true true ≡ err invalid_identifier
unfolding varlink_uri_new uri_parse_protocol split_first split_last split_member split_interface
    libvarlink.Scanner.starts_with
misnamed = refl

method_callback-Refused_example : Refused busy ping (
    varlink_service_method_callback two_bytes works
      (λ o. 5)
      no_hex
      nothing_registered
      run_nothing
      all
      busy
      ping)
method_callback-Refused_example =
    method_callback-Refused two_bytes works no_hex nothing_registered (λ o. 5) run_nothing busy ping
      all invalid_identifier misnamed

-- org.varlink.service, with its errors only, is registered.
abbrev an_error : List ℕ → VarlinkInterfaceMember ℕ
an_error name = record {
  name = name;
  description = none;
  type = member_error (object_type no_fields);
}

abbrev registered : Interfaces ℕ
registered = record {
  root =
      node leaf
        (record {
          name = service_name;
          description = none;
          members = [];
          member_tree = record {
            root =
                node (node leaf (an_error interface_not_found_name) 1 leaf)
                  (an_error method_not_found_name) 2
                  (node leaf (an_error method_not_implemented_name) 1 leaf);
            n_elements = 3;
          };
        })
        1 leaf;
  n_elements = 1;
}

-- A call of "a.B".
abbrev stray : VarlinkCall ℤ
stray = record {
  id = 3;
  refcount = 1;
  message = record { method = b'a' ∷ b'.' ∷ b'B' ∷ []; parameters = of_message 9; flags = 0 };
}

abbrev stray_uri : VarlinkUri
stray_uri = record {
  type = no_protocol;
  host = none;
  path = none;
  qualified_member = some (b'a' ∷ b'.' ∷ b'B' ∷ []);
  interface = some (b'a' ∷ []);
  member = some (b'B' ∷ []);
  query = none;
  fragment = none;
}

stray_named : varlink_uri_new no_hex (b'a' ∷ b'.' ∷ b'B' ∷ []) true true ≡ ok stray_uri
unfolding varlink_uri_new uri_parse_protocol split_first split_last split_member split_interface
    place libvarlink.Scanner.starts_with
stray_named = refl

registered-KnowsErrors : KnowsErrors two_bytes works no_hex registered (λ o. 5) run_nothing
unfolding find_interface find_member avl_tree_find avl_tree_find_node find_from strcmp
registered-KnowsErrors = record {
  interface_error = (_, refl);
  method_error = (_, refl);
  callback_error = (_, refl);
}

packed_error :
    (o : VarlinkObject ℤ) × (varlink_message_pack_reply
        (some interface_not_found_error)
        (one_string two_bytes works (λ o. 5) no_hex registered interface_field (b'a' ∷ []))
        0
      ≡ ok o)
unfolding varlink_message_pack_reply libvarlink.Object.object_set_field varlink_object_new
    libvarlink.Object.object_add_field libvarlink.Avl.avl_tree_insert
    libvarlink.Avl.avl_tree_insert_subtree libvarlink.Object.object_remove_field
    libvarlink.Avl.avl_tree_remove avl_tree_find_node find_from avl_tree_new strcmp
packed_error = (_, refl)

missing :
    fault two_bytes works no_hex registered
      (λ o. 5)
      run_nothing
      (b'a' ∷ [])
      (b'B' ∷ [])
      (find_interface registered (some (b'a' ∷ [])))
    ≡ some (interface_not_found_error, interface_field, b'a' ∷ [])
unfolding find_interface avl_tree_find avl_tree_find_node find_from strcmp
missing = refl

empty-IsBounded : IsBounded varlink_stream_new
unfolding buffer_size varlink_stream_new
empty-IsBounded = omega arith

room_left : out_end varlink_stream_new + 2 + 1 < buffer_size
unfolding buffer_size varlink_stream_new
room_left = omega arith

method_callback-Answered_example :
    Answered busy (b'{' ∷ b'}' ∷ []) (
      varlink_service_method_callback two_bytes works
        (λ o. 5)
        no_hex
        registered
        run_nothing
        all
        busy
        stray)
    × Unpacks packed_error.0 interface_not_found_error
        (one_string two_bytes works (λ o. 5) no_hex registered interface_field (b'a' ∷ []))
method_callback-Answered_example =
    method_callback-Answered two_bytes works no_hex registered (λ o. 5) run_nothing busy stray all
      stray_uri (b'a' ∷ []) (b'B' ∷ []) interface_not_found_error interface_field (b'a' ∷ [])
      (b'{' ∷ b'}' ∷ []) packed_error.0 refl stray_named refl refl registered-KnowsErrors missing
      packed_error.1 refl empty-IsBounded room_left
