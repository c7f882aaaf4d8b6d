-- ===== src/Connection/Tests.antt =====
-- lib/connection.c on a connection with one pending call.
use libvarlink.Prelude.{
  ℕ, ◌≡◌, refl, List, [], ◌∷◌, append-nil, true, false, none, some, Result, ok, take,
}
use libvarlink.Prelude.Int.{ℤ}
use libvarlink.Error.{VarlinkError}
use libvarlink.Object.{VarlinkObject}
use libvarlink.Stream.{varlink_stream_new, ReadAnswer, got, WriteAnswer}
use libvarlink.Message.{Reply, varlink_message_pack_reply}
use libvarlink.Connection.{
  Connection, FuncRun, varlink_connection_call, varlink_connection_process_events,
}
use libvarlink.Connection.Calls.{call-pending}
use libvarlink.Connection.Replies.{InOrder, process_events-InOrder}

-- Every message is an empty reply, and a callback leaves the connection as it is.
abbrev empty_reply : List ℕ → Result VarlinkError (VarlinkObject ℤ)
empty_reply m = varlink_message_pack_reply none none 0

abbrev keep : ℕ → Reply ℤ → Connection ℕ → FuncRun ℕ
keep func reply c = record { connection = c; result = ok tt }

-- Every object has the same text.
abbrev two_bytes : VarlinkObject ℤ → Result VarlinkError (List ℕ)
two_bytes o = ok (b'{' ∷ b'}' ∷ [])

abbrev waiting : Connection ℕ
waiting = record {
  stream = some varlink_stream_new;
  epollin = true;
  epollout = false;
  pending = record { call_flags = 0; func = 7 } ∷ [];
}

-- A second call, with the peer gone.
call-pending_example :
    (varlink_connection_call two_bytes waiting
      (b'a' ∷ [])
      none
      1
      8
      (WriteAnswer.epipe ∷ [])).connection.pending
    ≡ record { call_flags = 0; func = 7 } ∷ record { call_flags = 1; func = 8 } ∷ []
call-pending_example =
    call-pending two_bytes waiting varlink_stream_new (b'a' ∷ []) none 1 8 (WriteAnswer.epipe ∷ [])
      refl refl

-- A message arrives, and then nothing more.
abbrev reads : List (List ReadAnswer)
reads = (got (λ n. take n (b'{' ∷ b'}' ∷ 0 ∷ [])) ∷ []) ∷ (ReadAnswer.eagain ∷ []) ∷ []

process_events-InOrder_example :
    InOrder waiting.pending
      (varlink_connection_process_events empty_reply keep waiting false [] reads)
process_events-InOrder_example =
    process_events-InOrder empty_reply keep (λ func reply c. ([], append-nil c.pending)) waiting
      false [] reads
