-- ===== src/Service/Once.antt =====
-- lib/service.c: what a reply makes of the call that the connection works on.
use libvarlink.Prelude.{
  ℕ, ◌≡◌, refl, List, Bool, true, false, Option, none, some, Result, ok, err, if◌then◌else◌,
  Bool-cases, inl, inr,
}
use libvarlink.Error.{VarlinkError}
use libvarlink.Object.{VarlinkObject}
use libvarlink.Stream.{WriteAnswer, WriteRun, varlink_stream_write}
use libvarlink.Message.{call_oneway, reply_continues, varlink_message_pack_reply}
use libvarlink.Service.{
  Mask, same_mask, VarlinkCall, ServiceConnection, ReplyRun, Interfaces, is_call,
  varlink_call_unref, service_connection_set_events_mask, end_reply, want_write, after_reply,
  send_reply, varlink_call_reply, after_error, send_error, if_checked, varlink_call_reply_error,
}

pub set_events_mask-call :
    (epoll_mod : Mask → Bool) (c : ServiceConnection) (mask : Mask)
    → (service_connection_set_events_mask epoll_mod c mask).0.call ≡ c.call
unfolding service_connection_set_events_mask
set_events_mask-call epoll_mod c mask = elim (Bool-cases (same_mask mask c.current_events_mask)) [
  | inl e ↦ rw e refl
  | inr e ↦ elim (Bool-cases (epoll_mod mask)) [ inl m ↦ rw (e, m) refl | inr m ↦ rw (e, m) refl ]
]

-- The call that a connection works on, and the call itself, after a reply: `rest` and `held` where the reply succeeds,
-- else as before.
abbrev pub CallAfter :
    {F : Type 0}
    → Option ℕ
    → VarlinkCall F
    → Option ℕ
    → Option (VarlinkCall F)
    → ReplyRun F
    → Type 0
CallAfter before call rest held r = elim r.result [
  | some (ok u) ↦ (r.connection.call ≡ rest) × (r.call ≡ held)
  | some (err e) ↦ (r.connection.call ≡ before) × (r.call ≡ some call)
  | none ↦ (r.connection.call ≡ before) × (r.call ≡ some call)
]

-- What stays: the call, while more replies follow.
abbrev pub rest_of : Option ℕ → ℕ → Option ℕ
rest_of pointer flags = if reply_continues flags then pointer else none

-- What is held: the call, less the reference of the connection once no more replies follow.
abbrev pub held_of : {F : Type 0} → VarlinkCall F → ℕ → Option (VarlinkCall F)
held_of call flags = if reply_continues flags then some call else varlink_call_unref call

module _ {F : Type 0} (call : VarlinkCall F) where
  end_reply-CallAfter :
      (flags : ℕ) (before : Option ℕ) (w : WriteRun)
      (x : ServiceConnection × Result {0, 0} VarlinkError Unit)
      → x.0.call ≡ before
      → CallAfter before call (rest_of before flags) (held_of call flags) (end_reply flags call w x)
  end_reply-CallAfter flags before w (c, err e) p = (p, refl)
  end_reply-CallAfter flags before w (c, ok u) p = elim (Bool-cases (reply_continues flags)) [
    | inl e ↦ rw e (p, refl)
    | inr e ↦ rw e (refl, refl)
  ]

  written-CallAfter :
      (epoll_mod : Mask → Bool) (c : ServiceConnection) (flags : ℕ) (w : WriteRun)
      (r : Option (Result VarlinkError Bool))
      → w.result ≡ r
      → CallAfter c.call call
          (rest_of c.call flags)
          (held_of call flags)
          (after_reply epoll_mod c call flags w)
  written-CallAfter epoll_mod c flags w none e = rw e (refl, refl)
  written-CallAfter epoll_mod c flags w (some (err d)) e = rw e (refl, refl)
  written-CallAfter epoll_mod c flags w (some (ok true)) e =
      rw e (end_reply-CallAfter flags c.call w (record c { stream = w.stream }, ok tt) refl)
  written-CallAfter epoll_mod c flags w (some (ok false)) e = rw e (
      end_reply-CallAfter flags c.call w _
        (set_events_mask-call epoll_mod (want_write (record c { stream = w.stream })) _))

module _ {F : Type 0} (to_json : VarlinkObject F → Result VarlinkError (List ℕ))
    (epoll_mod : Mask → Bool) where
  send_reply-CallAfter :
      (c : ServiceConnection) (call : VarlinkCall F) (flags : ℕ) (answers : List WriteAnswer)
      (m : Result VarlinkError (VarlinkObject F))
      → CallAfter c.call call
          (rest_of c.call flags)
          (held_of call flags)
          (send_reply to_json epoll_mod c call flags answers m)
  send_reply-CallAfter c call flags answers (err e) = (refl, refl)
  send_reply-CallAfter c call flags answers (ok m) =
      written-CallAfter call epoll_mod c flags (varlink_stream_write to_json c.stream m answers) _
        refl

  -- After a reply that succeeds the connection works on no call, and gives up its reference of the call, unless more
  -- replies follow; after a reply that is refused, and while one waits, both are as before.
  pub call_reply-CallAfter :
      (c : ServiceConnection) (call : VarlinkCall F) (parameters : Option ℕ) (flags : ℕ)
      (answers : List WriteAnswer)
      → CallAfter c.call call
          (rest_of c.call flags)
          (held_of call flags)
          (varlink_call_reply to_json epoll_mod c call parameters flags answers)
  unfolding varlink_call_reply
  call_reply-CallAfter c call parameters flags answers = elim (Bool-cases (is_call call c.call)) [
    | inr e ↦ rw e (refl, refl)
    | inl e ↦ elim (Bool-cases (call_oneway call.message.flags)) [
      | inl o ↦ elim (Bool-cases (reply_continues flags)) [
        | inl k ↦ rw (e, o, k) (refl, refl)
        | inr k ↦ rw (e, o, k) (refl, refl)
      ]
      | inr o ↦
          rw (e, o)
            (send_reply-CallAfter c call flags answers
              (varlink_message_pack_reply none parameters flags))
    ]
  ]

  after_error-CallAfter :
      (c : ServiceConnection) (call : VarlinkCall F) (w : WriteRun)
      (r : Option (Result VarlinkError Bool))
      → w.result ≡ r
      → CallAfter c.call call none
          (varlink_call_unref call)
          (after_error to_json epoll_mod c call w)
  after_error-CallAfter c call w none e = rw e (refl, refl)
  after_error-CallAfter c call w (some (err d)) e = rw e (refl, refl)
  after_error-CallAfter c call w (some (ok true)) e = rw e (refl, refl)
  after_error-CallAfter c call w (some (ok false)) e = rw e (refl, refl)

  send_error-CallAfter :
      (c : ServiceConnection) (call : VarlinkCall F) (answers : List WriteAnswer)
      (m : Result VarlinkError (VarlinkObject F))
      → CallAfter c.call call none
          (varlink_call_unref call)
          (send_error to_json epoll_mod c call answers m)
  send_error-CallAfter c call answers (err e) = (refl, refl)
  send_error-CallAfter c call answers (ok m) =
      after_error-CallAfter c call (varlink_stream_write to_json c.stream m answers) _ refl

  module _ {C : Type 0} (scan_hex : List ℕ → Option ℕ) (interfaces : Interfaces C) where
    if_checked-CallAfter :
        (c : ServiceConnection) (call : VarlinkCall F) (run : ReplyRun F)
        (x : Result {0, 0} VarlinkError Unit)
        → CallAfter c.call call none (varlink_call_unref call) run
        → CallAfter c.call call none
            (varlink_call_unref call)
            (if_checked to_json epoll_mod scan_hex interfaces c call run x)
    if_checked-CallAfter c call run (err e) h = (refl, refl)
    if_checked-CallAfter c call run (ok u) h = h

    -- After an error reply that succeeds the connection works on no call, and gives up its reference of the call; after
    -- one that is refused, and while one waits, both are as before.
    pub call_reply_error-CallAfter :
        (c : ServiceConnection) (call : VarlinkCall F) (error : List ℕ) (parameters : Option ℕ)
        (answers : List WriteAnswer)
        → CallAfter c.call call none (varlink_call_unref call) (
            varlink_call_reply_error to_json epoll_mod scan_hex interfaces c call error parameters
              answers)
    unfolding varlink_call_reply_error
    call_reply_error-CallAfter c call error parameters answers =
        elim (Bool-cases (is_call call c.call)) [
          | inr e ↦ rw e (refl, refl)
          | inl e ↦ rw e (
              if_checked-CallAfter c call _ _ (
                send_error-CallAfter c call answers
                  (varlink_message_pack_reply (some error) parameters 0)))
        ]
