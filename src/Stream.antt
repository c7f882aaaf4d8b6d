-- ===== src/Stream.antt =====
-- lib/stream.c, lib/stream.h: messages over a file descriptor, each closed by a NUL byte.
--
-- `in` and `out` are the bytes of the buffers up to `in_end` and `out_end`, so these two are their
-- lengths. What the kernel answers to the calls of `read` and `write` is a list: an answer may
-- depend on the number of bytes asked for. The two conversions between objects and JSON are
-- parameters here.
mod Reading
pub mod Bounds
pub mod Writing
mod Tests
use libvarlink.Prelude.{
  ℕ, zero, suc, ◌+◌, ◌-◌, ◌*◌, ◌≤◌, Bool, true, false, List, [], ◌∷◌, ◌++◌, Option, none, some,
  Result, ok, err, ltb, leb, ◌==◌, if◌then◌else◌, length, take, drop,
}
use libvarlink.Error.{
  VarlinkError, invalid_message, receiving_message, sending_message, connection_closed, as_size,
}

-- CONNECTION_BUFFER_SIZE
unfoldable pub buffer_size : ℕ
buffer_size = 16 * 1024 * 1024

pub record Stream : Type 0 where
  pub input : List ℕ
  pub in_start : ℕ
  pub out : List ℕ
  pub out_start : ℕ
  pub hup : Bool

abbrev pub in_end : Stream → ℕ
in_end s = length s.input

abbrev pub out_end : Stream → ℕ
out_end s = length s.out

-- The bytes received and not yet handed out, and those not yet sent.
abbrev pub unread : Stream → List ℕ
unread s = drop s.in_start s.input

abbrev pub unsent : Stream → List ℕ
unsent s = drop s.out_start s.out

unfoldable pub varlink_stream_new : Stream
varlink_stream_new = record { input = []; in_start = 0; out = []; out_start = 0; hup = false }

-- An answer of `read`: an error, or the bytes for a count (none at the end of the stream).
pub data ReadAnswer : Type 0 where
  eintr eagain econnreset failed : ReadAnswer
  got : (ℕ → List ℕ) → ReadAnswer

-- An answer of `write`: an error, or the number of bytes taken of a count.
pub data WriteAnswer : Type 0 where
  eintr eagain epipe failed : WriteAnswer
  wrote : (ℕ → ℕ) → WriteAnswer

-- `move_rest` on each buffer.
unfoldable pub move_rest_in : Stream → Stream
move_rest_in s = record s { input = drop s.in_start s.input; in_start = 0 }

unfoldable pub move_rest_out : Stream → Stream
move_rest_out s = record s { out = drop s.out_start s.out; out_start = 0 }

-- `memchr (.., 0, ..)`: what stands in front of the first NUL, and behind it.
abbrev pub push_front : ℕ → Option (List ℕ × List ℕ) → Option (List ℕ × List ℕ)
push_front c none = none
push_front c (some (m, r)) = some (c ∷ m, r)

unfoldable pub split_nul : List ℕ → Option (List ℕ × List ℕ)
split_nul [] = none
split_nul (c ∷ cs) = if c == 0 then some ([], cs) else push_front c (split_nul cs)

-- What a call that reads leaves: its result, the stream, the answers not used, and, for the
-- theorems, the bytes that the kernel delivered. `blocked` is a call that still waits.
pub data ReadResult (O : Type 0) : Type 0 where
  message : O → ReadResult O
  nothing : ReadResult O
  failure : VarlinkError → ReadResult O
  blocked : ReadResult O

pub record ReadRun (O : Type 0) : Type 0 where
  pub result : ReadResult O
  pub stream : Stream
  pub answers : List ReadAnswer
  pub delivered : List ℕ

-- Where the top of the loop of `varlink_stream_read` leads: to a `return`, or on to `read`.
pub data Look (O : Type 0) : Type 0 where
  done : ReadResult O → Stream → Look O
  more : Stream → Look O

abbrev pub hang_up : Stream → Stream
hang_up s = record s { hup = true }

module _ {O : Type 0} (new_from_json : List ℕ → Result VarlinkError O) where
  abbrev pub finish : ReadResult O → Stream → List ReadAnswer → ReadRun O
  finish r s rest = record { result = r; stream = s; answers = rest; delivered = [] }

  -- The message in front of the NUL is parsed; only then is `in_start` moved behind the NUL.
  unfoldable pub take_message : Stream → List ℕ → Look O
  take_message s m = elim (new_from_json m) [
    | err e ↦ done (failure e) s
    | ok o ↦ done (message o) (record s { in_start = s.in_start + (length m + 1) })
  ]

  unfoldable pub look : Stream → Look O
  look s = elim (split_nul (unread s)) [
    | some (m, rest) ↦ take_message s m
    | none ↦
        let t = move_rest_in s in
        if in_end t == buffer_size then done (failure invalid_message) t else more t
  ]

  abbrev pub arrive : Stream → List ℕ → Stream
  arrive s bytes = record s { input = s.input ++ bytes }

  -- `read` returned these bytes; `continue` is the next round of the loop.
  unfoldable pub received : Stream → List ℕ → List ReadAnswer → (Look O → ReadRun O) → ReadRun O
  received s [] later continue = finish nothing (hang_up s) later
  received s (b ∷ bs) later continue =
      let r = continue (look (arrive s (b ∷ bs))) in
      record r { delivered = (b ∷ bs) ++ r.delivered }

  -- The loop, over the answers of `read`; `again` is the clause for EINTR.
  unfoldable pub read_loop : Look O → List ReadAnswer → ReadRun O
  read_loop (done r s) answers = finish r s answers
  read_loop (more s) [] = finish blocked s []
  read_loop (more s) (ReadAnswer.eintr ∷ later) = read_loop (more s) later
  read_loop (more s) (ReadAnswer.eagain ∷ later) = finish nothing s later
  read_loop (more s) (ReadAnswer.econnreset ∷ later) = finish nothing (hang_up s) later
  read_loop (more s) (ReadAnswer.failed ∷ later) = finish (failure receiving_message) s later
  read_loop (more s) (ReadAnswer.got answer ∷ later) =
      received s (answer (buffer_size - in_end s)) later (λ lk. read_loop lk later)

  unfoldable pub varlink_stream_read : Stream → List ReadAnswer → ReadRun O
  varlink_stream_read s answers = read_loop (look s) answers

-- What `varlink_stream_flush` leaves: the `size_t` that it returns (`none` while it waits), the
-- stream, the answers not used, and, for the theorems, the bytes that the kernel took.
pub record FlushRun : Type 0 where
  pub result : Option ℕ
  pub stream : Stream
  pub answers : List WriteAnswer
  pub sent : List ℕ

-- Behind the `switch`: move the rest, and return how much is left.
abbrev pub flushed : Stream → List WriteAnswer → List ℕ → FlushRun
flushed s later sent =
    let t = move_rest_out s in
    record { result = some (out_end t - t.out_start); stream = t; answers = later; sent = sent }

unfoldable pub varlink_stream_flush : Stream → List WriteAnswer → FlushRun
varlink_stream_flush s [] = record { result = none; stream = s; answers = []; sent = [] }
varlink_stream_flush s (WriteAnswer.eintr ∷ later) = varlink_stream_flush s later
varlink_stream_flush s (WriteAnswer.eagain ∷ later) = flushed s later []
varlink_stream_flush s (WriteAnswer.epipe ∷ later) = record {
  result = some (as_size connection_closed);
  stream = hang_up s;
  answers = later;
  sent = [];
}
varlink_stream_flush s (WriteAnswer.failed ∷ later) = record {
  result = some (as_size sending_message);
  stream = s;
  answers = later;
  sent = [];
}
varlink_stream_flush s (WriteAnswer.wrote answer ∷ later) =
    let n = answer (out_end s - s.out_start) in
    flushed (record s { out_start = s.out_start + n }) later (take n (unsent s))

-- `varlink_stream_write`: `ok true` is the returned 1, `ok false` the returned 0. The result of the
-- flush is kept in a `size_t`, so the test `r < 0` never holds.
pub record WriteRun : Type 0 where
  pub result : Option (Result VarlinkError Bool)
  pub stream : Stream
  pub answers : List WriteAnswer
  pub sent : List ℕ

module _ {O : Type 0} (to_json : O → Result VarlinkError (List ℕ)) where
  abbrev pub refused : VarlinkError → Stream → List WriteAnswer → WriteRun
  refused e s later = record { result = some (err e); stream = s; answers = later; sent = [] }

  abbrev pub queued : Stream → List ℕ → Stream
  queued s json = record s { out = s.out ++ (json ++ 0 ∷ []) }

  abbrev pub after_flush : FlushRun → WriteRun
  after_flush f = record {
    result = elim f.result [ none ↦ none | some r ↦ some (ok (r == 0)) ];
    stream = f.stream;
    answers = f.answers;
    sent = f.sent;
  }

  unfoldable pub write_json : Stream → List ℕ → List WriteAnswer → WriteRun
  write_json s json later =
      if leb (buffer_size - 1) (length json)
      then refused invalid_message s later
      else if leb buffer_size (out_end s + length json + 1)
      then refused sending_message s later
      else after_flush (varlink_stream_flush (queued s json) later)

  unfoldable pub varlink_stream_write : Stream → O → List WriteAnswer → WriteRun
  varlink_stream_write s o later = elim (to_json o) [
    | err e ↦ refused e s later
    | ok json ↦ write_json s json later
  ]
