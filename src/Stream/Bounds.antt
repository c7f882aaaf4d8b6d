-- ===== src/Stream/Bounds.antt =====
-- lib/stream.c: the indices stay inside the two buffers.
use libvarlink.Prelude.{
  ℕ, ◌+◌, ◌-◌, ◌≤◌, ◌<◌, ◌≡◌, refl, ap, false, List, [], ◌∷◌, ◌++◌, Option, none, some, Result, ok,
  err, arith, length, length-append, length-drop, Bool-cases, ◌==◌, All, inl, inr, leb, not_leb,
}
use libvarlink.Error.{VarlinkError}
use libvarlink.Stream.{
  buffer_size, Stream, in_end, out_end, unread, ReadAnswer, got, WriteAnswer, wrote, move_rest_in,
  move_rest_out, split_nul, ReadRun, Look, done, more, hang_up, take_message, look, received,
  read_loop, varlink_stream_read, varlink_stream_flush, write_json, varlink_stream_write,
}
use libvarlink.Stream.Reading.{IsSplit, split_nul-IsSplit}

pub record IsBounded (s : Stream) : Type 0 where
  pub in_order : s.in_start ≤ in_end s
  pub in_room : in_end s ≤ buffer_size
  pub out_order : s.out_start ≤ out_end s
  pub out_room : out_end s < buffer_size

hang_up-IsBounded : (s : Stream) → IsBounded s → IsBounded (hang_up s)
hang_up-IsBounded s b = record {
  in_order = b.in_order;
  in_room = b.in_room;
  out_order = b.out_order;
  out_room = b.out_room;
}

-- `read (fd, buffer, n)` delivers at most `n` bytes, and `write (fd, buffer, n)` takes at most `n`.
abbrev pub IsRead : ReadAnswer → Type 0
IsRead (got answer) = (n : ℕ) → length (answer n) ≤ n
IsRead _ = Unit

abbrev pub IsWrite : WriteAnswer → Type 0
IsWrite (wrote answer) = (n : ℕ) → answer n ≤ n
IsWrite _ = Unit

below : (a b : ℕ) → a ≤ b → (a == b) ≡ false → a < b
below a b h k = ground arith

module _ {O : Type 0} (new_from_json : List ℕ → Result VarlinkError O) where
  -- Past the top of the loop there is room for a byte at least.
  abbrev LookBounded : Look O → Type 0
  LookBounded (done r s) = IsBounded s
  LookBounded (more s) = IsBounded s × (in_end s < buffer_size)

  take_message-IsBounded :
      (s : Stream) (m rest : List ℕ)
      → IsBounded s
      → unread s ≡ m ++ 0 ∷ rest
      → LookBounded (take_message new_from_json s m)
  unfolding take_message
  take_message-IsBounded s m rest b e = go (new_from_json m) refl
    where
      go :
          (x : Result VarlinkError O)
          → new_from_json m ≡ x
          → LookBounded (take_message new_from_json s m)
      go (err e) p = rw (p, LookBounded) b
      go (ok o) p =
          rw (p, LookBounded)
            (record {
              in_order = omega (
                arith,
                b.in_order,
                ap length e,
                length-drop s.in_start s.input,
                length-append m (0 ∷ rest),
              );
              in_room = b.in_room;
              out_order = b.out_order;
              out_room = b.out_room;
            })

  move_rest_in-IsBounded : (s : Stream) → IsBounded s → IsBounded (move_rest_in s)
  unfolding move_rest_in
  move_rest_in-IsBounded s b = record {
    in_order = omega arith;
    in_room = omega (arith, b.in_room, length-drop s.in_start s.input);
    out_order = b.out_order;
    out_room = b.out_room;
  }

  look-IsBounded : (s : Stream) → IsBounded s → LookBounded (look new_from_json s)
  unfolding look
  look-IsBounded s b = go (split_nul (unread s)) refl (split_nul-IsSplit (unread s))
    where
      go :
          (x : Option (List ℕ × List ℕ))
          → split_nul (unread s) ≡ x
          → IsSplit (unread s) x
          → LookBounded (look new_from_json s)
      go none e h =
          let moved = move_rest_in-IsBounded s b in
          elim (Bool-cases (in_end (move_rest_in s) == buffer_size)) [
            | inl full ↦ rw (e, full, LookBounded) moved
            | inr room ↦ rw (e, room, LookBounded) (moved, below _ _ moved.in_room room)
          ]
      go (some (m, r)) e h = rw (e, LookBounded) (take_message-IsBounded s m r b h.0)

  received-IsBounded :
      (s : Stream) (new : List ℕ) (later : List ReadAnswer) (continue : Look O → ReadRun O)
      → ((lk : Look O) → LookBounded lk → IsBounded (continue lk).stream)
      → IsBounded s
      → length new ≤ buffer_size - in_end s
      → IsBounded (received new_from_json s new later continue).stream
  unfolding received
  received-IsBounded s [] later continue ih b r = hang_up-IsBounded s b
  received-IsBounded s (c ∷ cs) later continue ih b r = ih _ (
      look-IsBounded _ (record {
        in_order = omega (arith, b.in_order, length-append s.input (c ∷ cs));
        in_room = omega (arith, b.in_room, r, length-append s.input (c ∷ cs));
        out_order = b.out_order;
        out_room = b.out_room;
      }))

  read_loop-IsBounded :
      (answers : List ReadAnswer) (lk : Look O)
      → All IsRead answers
      → LookBounded lk
      → IsBounded (read_loop new_from_json lk answers).stream
  unfolding read_loop
  read_loop-IsBounded answers (done r s) k b = b
  read_loop-IsBounded [] (more s) k b = b.0
  read_loop-IsBounded (ReadAnswer.eintr ∷ later) (more s) k b =
      read_loop-IsBounded later (more s) k.1 b
  read_loop-IsBounded (ReadAnswer.eagain ∷ later) (more s) k b = b.0
  read_loop-IsBounded (ReadAnswer.econnreset ∷ later) (more s) k b = hang_up-IsBounded s b.0
  read_loop-IsBounded (ReadAnswer.failed ∷ later) (more s) k b = b.0
  read_loop-IsBounded (got answer ∷ later) (more s) k b =
      received-IsBounded s _ later _ (λ lk h. read_loop-IsBounded later lk k.1 h) b.0
        (k.0 (buffer_size - in_end s))

  -- Reading keeps the indices inside the buffers, where the kernel delivers no more than is asked for.
  pub read-IsBounded :
      (s : Stream) (answers : List ReadAnswer)
      → All IsRead answers
      → IsBounded s
      → IsBounded (varlink_stream_read new_from_json s answers).stream
  unfolding varlink_stream_read
  read-IsBounded s answers k b = read_loop-IsBounded answers _ k (look-IsBounded s b)

moved : (s : Stream) → IsBounded s → IsBounded (move_rest_out s)
unfolding move_rest_out
moved s b = record {
  in_order = b.in_order;
  in_room = b.in_room;
  out_order = omega arith;
  out_room = omega (arith, b.out_room, length-drop s.out_start s.out);
}

flush-IsBounded :
    (s : Stream) (answers : List WriteAnswer)
    → All IsWrite answers
    → IsBounded s
    → IsBounded (varlink_stream_flush s answers).stream
unfolding varlink_stream_flush move_rest_out
flush-IsBounded s [] k b = b
flush-IsBounded s (WriteAnswer.eintr ∷ later) k b = flush-IsBounded s later k.1 b
flush-IsBounded s (WriteAnswer.eagain ∷ later) k b = moved s b
flush-IsBounded s (WriteAnswer.epipe ∷ later) k b = hang_up-IsBounded s b
flush-IsBounded s (WriteAnswer.failed ∷ later) k b = b
flush-IsBounded s (wrote answer ∷ later) k b =
    let n = answer (out_end s - s.out_start) in
    moved (record s { out_start = s.out_start + n })
      (record {
        in_order = b.in_order;
        in_room = b.in_room;
        out_order = omega (arith, b.out_order, k.0 (out_end s - s.out_start));
        out_room = b.out_room;
      })

queued-IsBounded :
    (s : Stream) (json : List ℕ)
    → IsBounded s
    → out_end s + length json + 1 < buffer_size
    → IsBounded (record s { out = s.out ++ (json ++ 0 ∷ []) })
queued-IsBounded s json b h =
    let n = length-append s.out (json ++ 0 ∷ []) in
    let m = length-append json (0 ∷ []) in
    record {
      in_order = b.in_order;
      in_room = b.in_room;
      out_order = omega (arith, b.out_order, n, m);
      out_room = omega (arith, n, m);
    }

module _ {O : Type 0} (to_json : O → Result VarlinkError (List ℕ)) where
  write_json-IsBounded :
      (s : Stream) (json : List ℕ) (answers : List WriteAnswer)
      → All IsWrite answers
      → IsBounded s
      → IsBounded (write_json to_json s json answers).stream
  unfolding write_json
  write_json-IsBounded s json answers k b =
      elim (Bool-cases (leb (buffer_size - 1) (length json))) [
        | inl big ↦ rw big b
        | inr fits ↦ elim (Bool-cases (leb buffer_size (out_end s + length json + 1))) [
          | inl full ↦ rw (fits, full) b
          | inr room ↦
              rw (fits, room)
                (flush-IsBounded _ answers k (queued-IsBounded s json b (not_leb _ _ room)))
        ]
      ]

  -- Writing keeps the indices inside the buffers, where the kernel takes no more than is offered.
  pub write-IsBounded :
      (s : Stream) (o : O) (answers : List WriteAnswer)
      → All IsWrite answers
      → IsBounded s
      → IsBounded (varlink_stream_write to_json s o answers).stream
  unfolding varlink_stream_write
  write-IsBounded s o answers k b = go (to_json o) refl
    where
      go :
          (x : Result VarlinkError (List ℕ))
          → to_json o ≡ x
          → IsBounded (varlink_stream_write to_json s o answers).stream
      go (err e) p = rw (p, varlink_stream_write) b
      go (ok json) p = rw (p, varlink_stream_write) (write_json-IsBounded s json answers k b)
