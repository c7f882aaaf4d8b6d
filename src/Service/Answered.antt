-- ===== src/Service/Answered.antt =====
-- lib/service.c: the bytes that answer a call which the service has no method for.
use libvarlink.Prelude.{
  ℕ, ◌+◌, ◌<◌, ◌≡◌, refl, sym, ◌≢◌, List, [], ◌∷◌, ◌++◌, Bool, true, false, Option, none, some,
  Result, ok, err, length,
}
use mathlib.Core.Path.{subst}
use libvarlink.Error.{VarlinkError}
use libvarlink.Uri.{VarlinkUri, varlink_uri_new}
use libvarlink.Object.{VarlinkObject}
use libvarlink.Stream.{Stream, WriteAnswer, buffer_size, out_end, unsent, varlink_stream_write}
use libvarlink.Stream.Bounds.{IsBounded}
use libvarlink.Stream.Writing.{write-accepts, write-not_err}
use libvarlink.Message.{parameters_or_new, varlink_message_pack_reply, varlink_message_unpack_reply}
use libvarlink.Message.RoundTrip.{pack-unpack_reply}
use libvarlink.Service.{
  Mask, VarlinkCall, ServiceConnection, ReplyRun, Interfaces, is_call, find_interface, after_error,
  send_error,
}
use libvarlink.Service.Methods.{one_string, varlink_service_method_callback}
use libvarlink.Service.Answers.{fault, KnowsErrors, method_callback-Chosen}

-- The text, with its NUL, is sent or waits to be sent behind what waited before, nothing else is sent, and the call is
-- no longer the connection's, unless the write still waits.
abbrev pub Answered : {F : Type 0} → ServiceConnection → List ℕ → ReplyRun F → Type 0
Answered c json run =
    (run.sent ++ unsent run.connection.stream ≡ unsent c.stream ++ (json ++ 0 ∷ []))
    × (elim run.result [
      | some (ok u) ↦ run.connection.call ≡ none
      | some (err e) ↦ ⊥
      | none ↦ run.connection.call ≡ c.call
    ])

same_run :
    {F : Type 0} (c : ServiceConnection) (json : List ℕ) (run other : ReplyRun F)
    → run ≡ other
    → Answered c json other
    → Answered c json run
same_run c json run other e h = subst (λ r. Answered c json r) (sym e) h

-- A packed reply, read again.
abbrev pub Unpacks : {F : Type 0} → VarlinkObject F → List ℕ → Option ℕ → Type 0
Unpacks o error parameters =
    varlink_message_unpack_reply o
    ≡ ok (record { error = some error; parameters = parameters_or_new parameters; flags = 0 })

module _ {F : Type 0} (to_json : VarlinkObject F → Result VarlinkError (List ℕ))
    (epoll_mod : Mask → Bool) where
  after_error-Answered :
      (c : ServiceConnection) (call : VarlinkCall F) (json : List ℕ) (s : Stream)
      (r : Option (Result VarlinkError Bool)) (later : List WriteAnswer) (sent : List ℕ)
      → sent ++ unsent s ≡ unsent c.stream ++ (json ++ 0 ∷ [])
      → ((d : VarlinkError) → r ≢ some (err d))
      → Answered c json (
          after_error to_json epoll_mod c call
            (record { result = r; stream = s; answers = later; sent = sent }))
  after_error-Answered c call json s none later sent h n = (h, refl)
  after_error-Answered c call json s (some (err d)) later sent h n = absurd (n d refl)
  after_error-Answered c call json s (some (ok true)) later sent h n = (h, refl)
  after_error-Answered c call json s (some (ok false)) later sent h n = (h, refl)

  send_error-Answered :
      (c : ServiceConnection) (call : VarlinkCall F) (answers : List WriteAnswer)
      (o : VarlinkObject F) (json : List ℕ)
      → IsBounded c.stream
      → to_json o ≡ ok json
      → out_end c.stream + length json + 1 < buffer_size
      → Answered c json (send_error to_json epoll_mod c call answers (ok o))
  send_error-Answered c call answers o json b e room =
      let w = varlink_stream_write to_json c.stream o answers in
      after_error-Answered c call json w.stream w.result w.answers w.sent
        (write-accepts to_json c.stream o json answers b e room)
        (λ d. write-not_err to_json c.stream o json answers d e room)

  module _ {C : Type 0} (scan_hex : List ℕ → Option ℕ) (interfaces : Interfaces C)
      (store : VarlinkObject F → ℕ)
      (run_method : C → ServiceConnection → VarlinkCall F → ReplyRun F) where
    -- The service knows its own errors, and the connection, whose stream is in its bounds, works on a call that names a
    -- method by an interface and a member, which `fault` finds to be missing (an interface, a method or a callback).
    -- Where the error's message has a JSON text that fits into the rest of the stream's buffer, the callback of the
    -- service does not fail: the text with its NUL is sent or queued, behind what was queued before, and the connection works
    -- on no call, unless the write still waits. The message unpacks to the error that says what is missing, with the
    -- object made for its name as the parameters.
    pub method_callback-Answered :
        (c : ServiceConnection) (call : VarlinkCall F) (answers : List WriteAnswer)
        (method_uri : VarlinkUri) (name member error field value json : List ℕ)
        (o : VarlinkObject F)
        → is_call call c.call ≡ true
        → varlink_uri_new scan_hex call.message.method true true ≡ ok method_uri
        → method_uri.interface ≡ some name
        → method_uri.member ≡ some member
        → KnowsErrors to_json epoll_mod scan_hex interfaces store run_method
        → fault to_json epoll_mod scan_hex interfaces store run_method name member
            (find_interface interfaces (some name))
          ≡ some (error, field, value)
        → varlink_message_pack_reply
            (some error)
            (one_string to_json epoll_mod store scan_hex interfaces field value)
            0
          ≡ ok o
        → to_json o ≡ ok json
        → IsBounded c.stream
        → out_end c.stream + length json + 1 < buffer_size
        → Answered c json (
            varlink_service_method_callback to_json epoll_mod store scan_hex interfaces run_method
              answers c call)
          × Unpacks o error (one_string to_json epoll_mod store scan_hex interfaces field value)
    method_callback-Answered c call answers method_uri name member error field value json o current
          named i m knows faulty packed text b room =
        let chosen =
          method_callback-Chosen to_json epoll_mod scan_hex interfaces store run_method c call
            answers method_uri current named knows name member i m in
        let passed = rw (faulty, packed) at chosen in
        let unpacked =
          pack-unpack_reply {F = F} (some error)
            (one_string to_json epoll_mod store scan_hex interfaces field value) 0 in
        (
          same_run c json _ _ passed (send_error-Answered c call answers o json b text room),
          rw packed at unpacked,
        )
