-- ===== src/Service/InStep.antt =====
-- lib/service.c: the mask that is stored for a connection, and what the kernel has for its descriptor.
use libvarlink.Prelude.{
  ℕ, suc, ◌≡◌, refl, List, [], ◌∷◌, Bool, true, false, Option, none, some, Result, ok, err,
  Bool-cases, inl, inr,
}
use libvarlink.Error.{VarlinkError}
use libvarlink.Object.{VarlinkObject}
use libvarlink.Stream.{
  ReadAnswer, WriteAnswer, WriteRun, ReadResult, message, nothing, failure, blocked,
  varlink_stream_read, varlink_stream_write,
}
use libvarlink.Message.{
  Call, call_oneway, reply_continues, varlink_message_pack_reply, varlink_message_unpack_call,
}
use libvarlink.Service.{
  Mask, same_mask, VarlinkCall, ServiceConnection, ReplyRun, is_call, want_write,
  service_connection_set_events_mask, end_reply, after_reply, send_reply, varlink_call_reply,
}
use libvarlink.Service.Dispatch.{
  End, left, DispatchRun, while_idle, after_callback, new_call, after_read_call, read_calls,
}

-- The stored mask is the one that the kernel has.
abbrev pub InStep : ServiceConnection → Type 0
InStep c = c.current_events_mask ≡ c.subscribed

abbrev pub LeftInStep : End → Type 0
LeftInStep (left c) = InStep c
LeftInStep _ = Unit

set_mask-InStep :
    (epoll_mod : Mask → Bool) (c : ServiceConnection) (mask : Mask)
    → InStep c
    → (service_connection_set_events_mask epoll_mod c mask).1 ≡ ok tt
    → InStep (service_connection_set_events_mask epoll_mod c mask).0
unfolding service_connection_set_events_mask
set_mask-InStep epoll_mod c mask h = elim (Bool-cases (same_mask mask c.current_events_mask)) [
  | inl e ↦ rw e (λ k. h)
  | inr e ↦ elim (Bool-cases (epoll_mod mask)) [
    | inl m ↦ rw (e, m) (λ k. refl)
    | inr m ↦ rw (e, m) (λ k. absurd (cc))
  ]
]

-- A run that succeeds leaves the masks in step.
abbrev pub RunInStep : {F : Type 0} → ReplyRun F → Type 0
RunInStep run = run.result ≡ some (ok tt) → InStep run.connection

module _ {F : Type 0} (epoll_mod : Mask → Bool) where
  end_reply-InStep :
      (flags : ℕ) (call : VarlinkCall F) (w : WriteRun)
      (x : ServiceConnection × Result {0, 0} VarlinkError Unit)
      → (x.1 ≡ ok tt → InStep x.0)
      → RunInStep (end_reply flags call w x)
  end_reply-InStep flags call w (c, err e) h = λ k. absurd (cc)
  end_reply-InStep flags call w (c, ok u) h = elim (Bool-cases (reply_continues flags)) [
    | inl e ↦ rw e (λ k. h refl)
    | inr e ↦ rw e (λ k. h refl)
  ]

  written-InStep :
      (c : ServiceConnection) (call : VarlinkCall F) (flags : ℕ) (w : WriteRun)
      (r : Option (Result VarlinkError Bool))
      → w.result ≡ r
      → InStep c
      → RunInStep (after_reply epoll_mod c call flags w)
  written-InStep c call flags w none e h = rw e (λ k. h)
  written-InStep c call flags w (some (err d)) e h = rw e (λ k. h)
  written-InStep c call flags w (some (ok true)) e h =
      rw e (end_reply-InStep flags call w (record c { stream = w.stream }, ok tt) (λ k. h))
  written-InStep c call flags w (some (ok false)) e h = rw e (
      end_reply-InStep flags call w _
        (set_mask-InStep epoll_mod (want_write (record c { stream = w.stream })) _ h))

  module _ (to_json : VarlinkObject F → Result VarlinkError (List ℕ)) where
    send_reply-InStep :
        (c : ServiceConnection) (call : VarlinkCall F) (flags : ℕ) (answers : List WriteAnswer)
        (m : Result VarlinkError (VarlinkObject F))
        → InStep c
        → RunInStep (send_reply to_json epoll_mod c call flags answers m)
    send_reply-InStep c call flags answers (err e) h = λ k. h
    send_reply-InStep c call flags answers (ok m) h =
        written-InStep c call flags (varlink_stream_write to_json c.stream m answers) _ refl h

    -- A reply keeps them in step, whether EPOLLOUT is asked for or not.
    pub call_reply-InStep :
        (c : ServiceConnection) (call : VarlinkCall F) (parameters : Option ℕ) (flags : ℕ)
        (answers : List WriteAnswer)
        → InStep c
        → RunInStep (varlink_call_reply to_json epoll_mod c call parameters flags answers)
    unfolding varlink_call_reply
    call_reply-InStep c call parameters flags answers h = elim (Bool-cases (is_call call c.call)) [
      | inr e ↦ rw e (λ k. h)
      | inl e ↦ elim (Bool-cases (call_oneway call.message.flags)) [
        | inl o ↦ elim (Bool-cases (reply_continues flags)) [
          | inl k ↦ rw (e, o, k) (λ n. h)
          | inr k ↦ rw (e, o, k) (λ n. h)
        ]
        | inr o ↦
            rw (e, o)
              (send_reply-InStep c call flags answers
                (varlink_message_pack_reply none parameters flags) h)
      ]
    ]

-- The loop that reads calls, where the callback keeps them in step.
module _ {F : Type 0} (new_from_json : List ℕ → Result VarlinkError (VarlinkObject F))
    (epoll_mod : Mask → Bool) (callback : ServiceConnection → VarlinkCall F → ReplyRun F)
    (keeps : (d : ServiceConnection) (k : VarlinkCall F)
      → InStep d
      → RunInStep (callback d k)) where
  while_idle-InStep :
      (c : ServiceConnection) (x : Option ℕ) (body : DispatchRun F)
      → InStep c
      → LeftInStep body.end
      → LeftInStep (while_idle c x body).end
  while_idle-InStep c none body h k = k
  while_idle-InStep c (some pointer) body h k = h

  abbrev Continues : (ServiceConnection → DispatchRun F) → Type 0
  Continues continue = (d : ServiceConnection) → InStep d → LeftInStep (continue d).end

  after_callback-InStep :
      (continue : ServiceConnection → DispatchRun F) (c : ServiceConnection)
      (r : Option (Result {0, 0} VarlinkError Unit))
      → Continues continue
      → (r ≡ some (ok tt) → InStep c)
      → LeftInStep (after_callback new_from_json epoll_mod callback continue c r).end
  after_callback-InStep continue c none k h = tt
  after_callback-InStep continue c (some (err e)) k h = tt
  after_callback-InStep continue c (some (ok u)) k h = k c (h refl)

  new_call-InStep :
      (continue : ServiceConnection → DispatchRun F) (c : ServiceConnection) (pointer : ℕ)
      (r : Result VarlinkError (Call F))
      → Continues continue
      → InStep c
      → LeftInStep (new_call new_from_json epoll_mod callback continue c pointer r).end
  new_call-InStep continue c pointer (err e) k h = tt
  new_call-InStep continue c pointer (ok m) k h =
      let call : VarlinkCall F = record { id = pointer; refcount = 1; message = m } in
      let run = callback (record c { call = some pointer }) call in
      after_callback-InStep continue run.connection run.result k
        (keeps (record c { call = some pointer }) call h)

  read_call-InStep :
      (continue : ServiceConnection → DispatchRun F) (c : ServiceConnection) (pointer : ℕ)
      (r : ReadResult (VarlinkObject F))
      → Continues continue
      → InStep c
      → LeftInStep (after_read_call new_from_json epoll_mod callback continue c pointer r).end
  read_call-InStep continue c pointer blocked k h = tt
  read_call-InStep continue c pointer (failure e) k h = tt
  read_call-InStep continue c pointer nothing k h = h
  read_call-InStep continue c pointer (message o) k h =
      new_call-InStep continue c pointer (varlink_message_unpack_call o) k h

  pub read_calls-InStep :
      (c : ServiceConnection) (pointer : ℕ) (reads : List (List ReadAnswer))
      → InStep c
      → LeftInStep (read_calls new_from_json epoll_mod callback c pointer reads).end
  unfolding read_calls
  read_calls-InStep c pointer [] h = while_idle-InStep c c.call _ h tt
  read_calls-InStep c pointer (answers ∷ later) h =
      let run = varlink_stream_read new_from_json c.stream answers in
      while_idle-InStep c c.call _ h (
        read_call-InStep (λ d. read_calls new_from_json epoll_mod callback d (suc pointer) later)
          (record c { stream = run.stream }) pointer run.result
          (λ d k. read_calls-InStep d (suc pointer) later k) h)
