-- ===== src/Service/Dispatch.antt =====
-- lib/service.c: `varlink_service_dispatch_connection`, on one connection.
--
-- The kernel's answers to `read` are grouped by the calls of `varlink_stream_read`. A new call gets
-- the next number as its pointer.
use libvarlink.Prelude.{
  ℕ, suc, List, [], ◌∷◌, Bool, true, false, ◌||◌, Option, none, some, Result, ok, err, ◌==◌, leb,
  ◌^◌, if◌then◌else◌,
}
use libvarlink.Error.{VarlinkError}
use libvarlink.Object.{VarlinkObject}
use libvarlink.Stream.{
  ReadAnswer, WriteAnswer, ReadResult, message, nothing, failure, blocked, varlink_stream_read,
  varlink_stream_flush,
}
use libvarlink.Message.{Call, varlink_message_unpack_call}
use libvarlink.Connection.{flush_error}
use libvarlink.Service.{
  Mask, VarlinkCall, ServiceConnection, ReplyRun, want_write, service_connection_set_events_mask,
}

-- The events that `epoll_wait` reports.
pub record Events : Type 0 where
  pub readable : Bool
  pub writable : Bool
  pub hung_up : Bool

-- How the loop, or the dispatch, ends: the connection stays (`left`), is closed, an error is
-- returned, or a call of the operating system waits.
pub data End : Type 0 where
  left : ServiceConnection → End
  closed : End
  failed : VarlinkError → ServiceConnection → End
  waits : ServiceConnection → End

-- With the calls that were given to the callback.
pub record DispatchRun (F : Type 0) : Type 0 where
  pub end : End
  pub calls : List (VarlinkCall F)

module _ {F : Type 0} where
  abbrev pub ended : End → DispatchRun F
  ended e = record { end = e; calls = [] }

  abbrev pub with_call : VarlinkCall F → DispatchRun F → DispatchRun F
  with_call call r = record { end = r.end; calls = call ∷ r.calls }

  abbrev pub while_idle : ServiceConnection → Option ℕ → DispatchRun F → DispatchRun F
  while_idle c none body = body
  while_idle c (some pointer) body = ended (left c)

module _ {F : Type 0} (new_from_json : List ℕ → Result VarlinkError (VarlinkObject F))
    (epoll_mod : Mask → Bool) (callback : ServiceConnection → VarlinkCall F → ReplyRun F) where
  -- Behind the callback: an error closes the connection.
  abbrev pub after_callback :
      (ServiceConnection → DispatchRun F)
      → ServiceConnection
      → Option (Result {0, 0} VarlinkError Unit)
      → DispatchRun F
  after_callback continue c none = ended (waits c)
  after_callback continue c (some (err e)) = ended closed
  after_callback continue c (some (ok u)) = continue c

  -- `varlink_call_new`, and the callback.
  abbrev pub new_call :
      (ServiceConnection → DispatchRun F)
      → ServiceConnection
      → ℕ
      → Result VarlinkError (Call F)
      → DispatchRun F
  new_call continue c pointer (err e) = ended (failed e c)
  new_call continue c pointer (ok m) =
      let call : VarlinkCall F = record { id = pointer; refcount = 1; message = m } in
      let run = callback (record c { call = some pointer }) call in
      with_call call (after_callback continue run.connection run.result)

  abbrev pub after_read_call :
      (ServiceConnection → DispatchRun F)
      → ServiceConnection
      → ℕ
      → ReadResult (VarlinkObject F)
      → DispatchRun F
  after_read_call continue c pointer blocked = ended (waits c)
  after_read_call continue c pointer (failure e) = ended closed
  after_read_call continue c pointer nothing = ended (left c)
  after_read_call continue c pointer (message o) =
      new_call continue c pointer (varlink_message_unpack_call o)

  -- The loop that reads calls while the connection has none.
  unfoldable pub read_calls : ServiceConnection → ℕ → List (List ReadAnswer) → DispatchRun F
  read_calls c pointer [] = while_idle c c.call (ended (waits c))
  read_calls c pointer (answers ∷ later) =
      let run = varlink_stream_read new_from_json c.stream answers in
      while_idle c c.call (
        after_read_call (λ d. read_calls d (suc pointer) later) (record c { stream = run.stream })
          pointer run.result)

  -- `if (!connection->call) connection->events_mask |= EPOLLIN;`
  abbrev pub listen : Option ℕ → ServiceConnection → ServiceConnection
  listen (some pointer) c = c
  listen none c = record c {
    events_mask = record { epollin = true; epollout = c.events_mask.epollout };
  }

  abbrev pub end_mask : ServiceConnection × Result {0, 0} VarlinkError Unit → End
  end_mask (c, ok u) = left c
  end_mask (c, err e) = failed e c

  unfoldable pub settle : Events → ServiceConnection → End
  settle events c =
      let idle = listen c.call c in
      if events.hung_up || c.stream.hup
      then closed
      else end_mask (service_connection_set_events_mask epoll_mod idle idle.events_mask)

  abbrev pub behind_loop : Events → End → End
  behind_loop events (left c) = settle events c
  behind_loop events closed = closed
  behind_loop events (failed e c) = failed e c
  behind_loop events (waits c) = waits c

  unfoldable pub dispatch_reads :
      Events → ServiceConnection → ℕ → List (List ReadAnswer) → DispatchRun F
  dispatch_reads events c pointer reads =
      let run = read_calls c pointer reads in
      if events.readable
      then record { end = behind_loop events run.end; calls = run.calls }
      else ended (settle events c)

  -- Behind the flush, whose `size_t` is kept in a `long`, where an error code is negative.
  abbrev pub after_flush_out :
      Events → ServiceConnection → Option ℕ → ℕ → List (List ReadAnswer) → DispatchRun F
  after_flush_out events c none pointer reads = ended (waits c)
  after_flush_out events c (some r) pointer reads =
      let rest = dispatch_reads events (if r == 0 then c else want_write c) pointer reads in
      if leb (2 ^ 63) r then ended (failed (flush_error r) c) else rest

  unfoldable pub varlink_service_dispatch_connection :
      Events → ServiceConnection → ℕ → List WriteAnswer → List (List ReadAnswer) → DispatchRun F
  varlink_service_dispatch_connection events c pointer writes reads =
      let cleared = record c { events_mask = record { epollin = false; epollout = false } } in
      let run = varlink_stream_flush c.stream writes in
      let flushed =
        after_flush_out events (record cleared { stream = run.stream }) run.result pointer reads in
      let direct = dispatch_reads events cleared pointer reads in
      if events.writable then flushed else direct
