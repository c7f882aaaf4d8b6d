-- ===== src/Connection.antt =====
-- lib/connection.c: the client's side, calls waiting for their replies in a queue.
--
-- Of the event mask, the bits EPOLLIN and EPOLLOUT are kept. A callback with its userdata is a
-- value of a type of the client's; what a callback does to the connection is a parameter. The
-- kernel's answers are grouped by the calls of `varlink_stream_read`.
mod Calls
mod Replies
mod Tests
use libvarlink.Prelude.{
  ℕ, List, [], ◌∷◌, ◌++◌, Bool, true, false, ◌&&◌, not, leb, ◌^◌, Option, none, some, Result, ok,
  err, ◌==◌, if◌then◌else◌,
}
use libvarlink.Error.{
  VarlinkError, invalid_call, invalid_message, sending_message, connection_closed, as_size,
}
use libvarlink.Object.{VarlinkObject}
use libvarlink.Stream.{
  Stream, ReadAnswer, WriteAnswer, ReadResult, ReadRun, message, nothing, failure, blocked,
  WriteRun, varlink_stream_new, varlink_stream_read, varlink_stream_write, varlink_stream_flush,
  FlushRun,
}
use libvarlink.Message.{
  call_more, call_oneway, reply_continues, Reply, varlink_message_pack_call,
  varlink_message_unpack_reply,
}

-- `struct ReplyCallback`
pub record ReplyCallback (C : Type 0) : Type 0 where
  pub call_flags : ℕ
  pub func : C

-- `struct VarlinkConnection`; `none` is a stream that is NULL.
pub record Connection (C : Type 0) : Type 0 where
  pub stream : Option Stream
  pub epollin : Bool
  pub epollout : Bool
  pub pending : List (ReplyCallback C)

-- What a call leaves: the connection, and what is returned (`none` while it waits).
pub record CallRun (C : Type 0) : Type 0 where
  pub connection : Connection C
  pub result : Option (Result {0, 0} VarlinkError Unit)

-- A callback that was run, with the reply that it was given.
pub record Delivery (C F : Type 0) : Type 0 where
  pub callback : ReplyCallback C
  pub reply : Reply F

pub record EventsRun (C F : Type 0) : Type 0 where
  pub connection : Connection C
  pub result : Option (Result {0, 0} VarlinkError Unit)
  pub delivered : List (Delivery C F)

-- Where a round of the loop of `varlink_connection_process_events` leads: to a `return`, to the
-- code behind the loop, or to the next round; perhaps after a callback.
pub data Round (C F : Type 0) : Type 0 where
  return break : Option (Result {0, 0} VarlinkError Unit) → Connection C → Round C F
  ran : Delivery C F → Round C F → Round C F
  next : Connection C → Stream → Round C F

unfoldable pub varlink_connection_new_from_fd : {C : Type 0} → Connection C
varlink_connection_new_from_fd = record {
  stream = some varlink_stream_new;
  epollin = false;
  epollout = false;
  pending = [];
}

module _ {C F : Type 0} (to_json : VarlinkObject F → Result VarlinkError (List ℕ)) where
  abbrev pub subscribe : Connection C → ℕ → C → Connection C
  subscribe c flags func = if call_oneway flags then c else record c {
    epollin = true;
    pending = c.pending ++ record { call_flags = flags; func = func } ∷ [];
  }

  -- Behind the write: `r` is 0 where a part of the message is still to be sent.
  abbrev pub after_write : Connection C → WriteRun → CallRun C
  after_write c w = elim w.result [
    | none ↦ record { connection = record c { stream = some w.stream }; result = none }
    | some (err e) ↦ record {
      connection = record c { stream = some w.stream };
      result = some (err e);
    }
    | some (ok true) ↦ record {
      connection = record c { stream = some w.stream };
      result = some (ok tt);
    }
    | some (ok false) ↦ record {
      connection = record c { stream = some w.stream; epollout = true };
      result = some (ok tt);
    }
  ]

  unfoldable pub send :
      Connection C → Stream → VarlinkObject F → ℕ → C → List WriteAnswer → CallRun C
  send c s call flags func answers =
      after_write (subscribe c flags func) (varlink_stream_write to_json s call answers)

  abbrev pub send_packed :
      Connection C
      → Stream
      → ℕ
      → C
      → List WriteAnswer
      → Result VarlinkError (VarlinkObject F)
      → CallRun C
  send_packed c s flags func answers (err e) = record { connection = c; result = some (err e) }
  send_packed c s flags func answers (ok call) = send c s call flags func answers

  -- Behind the check that the stream is not NULL.
  unfoldable pub call_open :
      Connection C → List ℕ → Option ℕ → ℕ → C → List WriteAnswer → Stream → CallRun C
  call_open c method parameters flags func answers s =
      if call_more flags && call_oneway flags
      then record { connection = c; result = some (err invalid_call) }
      else send_packed c s flags func answers (varlink_message_pack_call method parameters flags)

  abbrev pub if_open : Connection C → (Stream → CallRun C) → Option Stream → CallRun C
  if_open c run none = record { connection = c; result = some (err connection_closed) }
  if_open c run (some s) = run s

  unfoldable pub varlink_connection_call :
      Connection C → List ℕ → Option ℕ → ℕ → C → List WriteAnswer → CallRun C
  varlink_connection_call c method parameters flags func answers =
      if_open c (call_open c method parameters flags func answers) c.stream

-- What a callback leaves of the connection, and what it returns.
pub record FuncRun (C : Type 0) : Type 0 where
  pub connection : Connection C
  pub result : Result {0, 0} VarlinkError Unit

abbrev pub left_pending : {C : Type 0} → List (ReplyCallback C) → Connection C → Connection C
left_pending [] c = c
left_pending (cb ∷ rest) c = record c { pending = rest }

-- `STAILQ_REMOVE_HEAD`
abbrev pub remove_head : {C : Type 0} → Connection C → Connection C
remove_head c = left_pending c.pending c

abbrev pub unsubscribed : {C : Type 0} → List (ReplyCallback C) → Connection C → Connection C
unsubscribed [] c = record c { epollin = false }
unsubscribed (cb ∷ rest) c = c

-- Behind the loop: no call is pending, so no reply is awaited.
abbrev pub unsubscribe : {C : Type 0} → Connection C → Connection C
unsubscribe c = unsubscribed c.pending c

module _ {C F : Type 0} where
  -- Behind the callback: a final reply ends the call; the loop ends on an error or on a closed connection.
  abbrev pub after_func : Reply F → FuncRun C → Round C F
  after_func reply f =
      let c = if reply_continues reply.flags then f.connection else remove_head f.connection in
      elim f.result [
        | err e ↦ break (some (err e)) c
        | ok u ↦ elim c.stream [ none ↦ break (some (ok tt)) c | some s ↦ next c s ]
      ]

  abbrev pub with_delivery : Delivery C F → EventsRun C F → EventsRun C F
  with_delivery d r = record r { delivered = d ∷ r.delivered }

  abbrev pub go_on : Round C F → (Connection C → Stream → EventsRun C F) → EventsRun C F
  go_on (return r c) k = record { connection = c; result = r; delivered = [] }
  go_on (break r c) k = record { connection = unsubscribe c; result = r; delivered = [] }
  go_on (ran d x) k = with_delivery d (go_on x k)
  go_on (next c s) k = k c s

-- The `size_t` that the flush returns is kept in a `long` here, where an error code is negative again. The flush
-- returns two of them.
abbrev pub flush_error : ℕ → VarlinkError
flush_error r = if r == as_size connection_closed then connection_closed else sending_message

module _ {C F : Type 0} (new_from_json : List ℕ → Result VarlinkError (VarlinkObject F))
    (run_func : C → Reply F → Connection C → FuncRun C) where
  unfoldable pub deliver : Connection C → ReplyCallback C → Reply F → Round C F
  deliver c cb reply =
      if reply_continues reply.flags && not (call_more cb.call_flags)
      then return (some (err invalid_message)) c
      else ran (record { callback = cb; reply = reply })
          (after_func reply (run_func cb.func reply c))

  unfoldable pub handle : Connection C → VarlinkObject F → Round C F
  handle c o = elim c.pending [
    | [] ↦ return (some (err invalid_message)) c
    | cb ∷ rest ↦ elim (varlink_message_unpack_reply o) [
      | err e ↦ return (some (err invalid_message)) c
      | ok reply ↦ deliver c cb reply
    ]
  ]

  -- Behind `varlink_stream_read`: an error is returned first, then a connection hung up is closed.
  unfoldable pub after_read : Connection C → ReadRun (VarlinkObject F) → Round C F
  after_read c r = elim r.result [
    | blocked ↦ return none (record c { stream = some r.stream })
    | failure e ↦ return (some (err e)) (record c { stream = some r.stream })
    | nothing ↦
        if r.stream.hup
        then return (some (err connection_closed)) (record c { stream = none })
        else break (some (ok tt)) (record c { stream = some r.stream })
    | message o ↦
        if r.stream.hup
        then return (some (err connection_closed)) (record c { stream = none })
        else handle (record c { stream = some r.stream }) o
  ]

  unfoldable pub process_loop : Connection C → Stream → List (List ReadAnswer) → EventsRun C F
  process_loop c s [] = record { connection = c; result = none; delivered = [] }
  process_loop c s (answers ∷ later) =
      go_on (after_read c (varlink_stream_read new_from_json s answers))
        (λ d t. process_loop d t later)

  -- Behind the flush: EPOLLOUT is masked out where everything was written.
  abbrev pub after_flush_events : Connection C → FlushRun → List (List ReadAnswer) → EventsRun C F
  after_flush_events c f reads = elim f.result [
    | none ↦ record {
      connection = record c { stream = some f.stream };
      result = none;
      delivered = [];
    }
    | some r ↦
        let rest =
          process_loop
            (record c { stream = some f.stream; epollout = if r == 0 then false else c.epollout })
            f.stream reads in
        if leb (2 ^ 63) r
        then record {
          connection = record c { stream = some f.stream };
          result = some (err (flush_error r));
          delivered = [];
        }
        else rest
  ]

  -- `writable` is EPOLLOUT in the events.
  unfoldable pub varlink_connection_process_events :
      Connection C → Bool → List WriteAnswer → List (List ReadAnswer) → EventsRun C F
  varlink_connection_process_events c writable writes reads = elim c.stream [
    | none ↦ record { connection = c; result = some (err connection_closed); delivered = [] }
    | some s ↦
        if writable
        then after_flush_events c (varlink_stream_flush s writes) reads
        else process_loop c s reads
  ]
