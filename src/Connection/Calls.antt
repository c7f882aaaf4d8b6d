-- ===== src/Connection/Calls.antt =====
-- lib/connection.c: what a call leaves in the queue.
use libvarlink.Prelude.{
  ℕ, ◌≡◌, ◌≢◌, refl, ap, ◌∙◌, List, [], ◌∷◌, ◌++◌, Bool, true, false, ◌&&◌, Option, none, some,
  Result, ok, err, if◌then◌else◌,
}
use libvarlink.Error.{VarlinkError}
use libvarlink.Object.{VarlinkObject}
use libvarlink.Stream.{Stream, WriteAnswer, WriteRun, varlink_stream_write}
use libvarlink.Message.{call_more, call_oneway, varlink_message_pack_call}
use libvarlink.Message.RoundTrip.{pack_call-Has}
use libvarlink.Connection.{
  Connection, CallRun, subscribe, after_write, send, send_packed, call_open, if_open,
  varlink_connection_call,
}

module _ {C F : Type 0} (to_json : VarlinkObject F → Result VarlinkError (List ℕ)) where
  after_write-pending :
      (c : Connection C) (w : WriteRun) → (after_write to_json c w).connection.pending ≡ c.pending
  after_write-pending c w = go w.result
    where
      go :
          (r : Option (Result VarlinkError Bool))
          → (elim r as (λ x. CallRun C) [
            | none ↦ record { connection = record c { stream = some w.stream }; result = none }
            | some (err e) ↦ record {
              connection = record c { stream = some w.stream };
              result = some (err e);
            }
            | some (ok true) ↦ record {
              connection = record c { stream = some w.stream };
              result = some (ok tt);
            }
            | some (ok false) ↦ record {
              connection = record c { stream = some w.stream; epollout = true };
              result = some (ok tt);
            }
          ]).connection.pending
            ≡ c.pending
      go none = refl
      go (some (err e)) = refl
      go (some (ok true)) = refl
      go (some (ok false)) = refl

  subscribe-pending :
      (c : Connection C) (flags : ℕ) (func : C)
      → (subscribe to_json c flags func).pending ≡ (
          if call_oneway flags
          then c.pending
          else c.pending ++ record { call_flags = flags; func = func } ∷ [])
  subscribe-pending c flags func = go (call_oneway flags)
    where
      go :
          (b : Bool)
          → (if b then c else record c {
            epollin = true;
            pending = c.pending ++ record { call_flags = flags; func = func } ∷ [];
          }).pending
            ≡ (if b
                then c.pending
                else c.pending ++ record { call_flags = flags; func = func } ∷ [])
      go true = refl
      go false = refl

  send_packed-pending :
      (c : Connection C) (s : Stream) (flags : ℕ) (func : C) (answers : List WriteAnswer)
      (x : Result VarlinkError (VarlinkObject F))
      → ((e : VarlinkError) → x ≢ err e)
      → (send_packed to_json c s flags func answers x).connection.pending
        ≡ (subscribe to_json c flags func).pending
  unfolding send
  send_packed-pending c s flags func answers (err e) h = absurd (h e refl)
  send_packed-pending c s flags func answers (ok call) h =
      after_write-pending (subscribe to_json c flags func)
        (varlink_stream_write to_json s call answers)

  call_open-pending :
      (c : Connection C) (s : Stream) (method : List ℕ) (parameters : Option ℕ) (flags : ℕ)
      (func : C) (answers : List WriteAnswer)
      → (call_more flags && call_oneway flags) ≡ false
      → (call_open to_json c method parameters flags func answers s).connection.pending ≡ (
          if call_oneway flags
          then c.pending
          else c.pending ++ record { call_flags = flags; func = func } ∷ [])
  unfolding call_open
  call_open-pending c s method parameters flags func answers valid = rw valid (
      send_packed-pending c s flags func answers (varlink_message_pack_call method parameters flags)
        (pack_call-Has method parameters flags valid).1
      ∙ subscribe-pending c flags func)

  -- On an open connection, a call whose flags are not more and oneway at once is put at the end of the queue, unless
  -- it is oneway; and this is so whatever becomes of the write, even where it is refused and the call returns an error.
  pub call-pending :
      (c : Connection C) (s : Stream) (method : List ℕ) (parameters : Option ℕ) (flags : ℕ)
      (func : C) (answers : List WriteAnswer)
      → c.stream ≡ some s
      → (call_more flags && call_oneway flags) ≡ false
      → (varlink_connection_call to_json c method parameters flags func answers).connection.pending
        ≡ (if call_oneway flags
            then c.pending
            else c.pending ++ record { call_flags = flags; func = func } ∷ [])
  unfolding varlink_connection_call
  call-pending c s method parameters flags func answers open_ valid =
      ap
        (λ x.
          (if_open to_json c (call_open to_json c method parameters flags func answers)
            x).connection.pending)
        open_
      ∙ call_open-pending c s method parameters flags func answers valid
