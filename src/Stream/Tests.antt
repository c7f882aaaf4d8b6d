-- ===== src/Stream/Tests.antt =====
-- lib/stream.c on concrete traffic. Messages stand for themselves: the JSON conversions are the identity.
use libvarlink.Prelude.{
  ℕ, ◌+◌, ◌<◌, ◌≡◌, refl, true, false, List, [], ◌∷◌, some, Result, ok, arith, take, min,
  length-take,
}
use libvarlink.Error.{VarlinkError}
use libvarlink.Stream.{
  buffer_size, Stream, unread, out_end, ReadAnswer, got, WriteAnswer, wrote, move_rest_in,
  split_nul, message, take_message, look, received, read_loop, varlink_stream_new,
  varlink_stream_read, varlink_stream_write,
}
use libvarlink.Stream.Reading.{RunConserves, read-conserves}
use libvarlink.Stream.Bounds.{IsBounded, read-IsBounded, write-IsBounded}
use libvarlink.Stream.Writing.{Writes, write-Writes, write-hides_epipe}

abbrev same : List ℕ → Result VarlinkError (List ℕ)
same m = ok m

-- The kernel has these bytes.
abbrev has : List ℕ → ReadAnswer
has bytes = got (λ n. take n bytes)

fresh : Stream
unfolding varlink_stream_new
fresh = varlink_stream_new

-- A message in two pieces, the second with the start of the next message.
two_pieces :
    ((varlink_stream_read same fresh
        (has (1 ∷ 2 ∷ []) ∷ ReadAnswer.eintr ∷ has (3 ∷ 0 ∷ 4 ∷ []) ∷ [])).result
      ≡ message (1 ∷ 2 ∷ 3 ∷ []))
    × (unread
          (varlink_stream_read same fresh
            (has (1 ∷ 2 ∷ []) ∷ ReadAnswer.eintr ∷ has (3 ∷ 0 ∷ 4 ∷ []) ∷ [])).stream
        ≡ 4 ∷ [])
unfolding fresh varlink_stream_read read_loop look received take_message split_nul move_rest_in
    buffer_size
two_pieces = (refl, refl)

fresh-IsBounded : IsBounded fresh
unfolding fresh buffer_size
fresh-IsBounded = omega arith

read-IsBounded_example : IsBounded (varlink_stream_read same fresh (has (1 ∷ 0 ∷ []) ∷ [])).stream
read-IsBounded_example =
    read-IsBounded same fresh (has (1 ∷ 0 ∷ []) ∷ [])
      ((λ n. omega (arith, length-take {A = ℕ} n (1 ∷ 0 ∷ []))), tt) fresh-IsBounded

read-conserves_example :
    RunConserves same
      (unread fresh)
      (varlink_stream_read same fresh (has (1 ∷ 2 ∷ []) ∷ has (3 ∷ 0 ∷ 4 ∷ []) ∷ []))
read-conserves_example = read-conserves same fresh (has (1 ∷ 2 ∷ []) ∷ has (3 ∷ 0 ∷ 4 ∷ []) ∷ [])

write-IsBounded_example :
    IsBounded (varlink_stream_write same fresh (1 ∷ 2 ∷ []) (wrote (λ n. min n 2) ∷ [])).stream
write-IsBounded_example =
    write-IsBounded same fresh (1 ∷ 2 ∷ []) (wrote (λ n. min n 2) ∷ []) ((λ n. omega arith), tt)
      fresh-IsBounded

write-Writes_example :
    Writes same fresh
      (1 ∷ 2 ∷ [])
      (varlink_stream_write same fresh (1 ∷ 2 ∷ []) (wrote (λ n. min n 2) ∷ []))
      (varlink_stream_write same fresh (1 ∷ 2 ∷ []) (wrote (λ n. min n 2) ∷ [])).result
write-Writes_example =
    write-Writes same fresh (1 ∷ 2 ∷ []) (1 ∷ 2 ∷ []) (wrote (λ n. min n 2) ∷ []) fresh-IsBounded
      refl

fresh_room : out_end fresh + 2 + 1 < buffer_size
unfolding fresh buffer_size
fresh_room = omega arith

write-hides_epipe_example :
    ((varlink_stream_write same fresh (1 ∷ 2 ∷ []) (WriteAnswer.epipe ∷ [])).result
      ≡ some (ok false))
    × ((varlink_stream_write same fresh (1 ∷ 2 ∷ []) (WriteAnswer.epipe ∷ [])).stream.hup ≡ true)
write-hides_epipe_example =
    write-hides_epipe same fresh (1 ∷ 2 ∷ []) (1 ∷ 2 ∷ []) [] refl fresh_room
