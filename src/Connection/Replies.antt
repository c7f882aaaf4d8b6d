-- ===== src/Connection/Replies.antt =====
-- lib/connection.c: replies go to the calls in the order in which these were made.
use libvarlink.Prelude.{
  ℕ, ◌≡◌, refl, sym, ap, ◌∙◌, inl, inr, List, [], ◌∷◌, ◌++◌, append-nil, append_assoc, Bool, true,
  false, ◌&&◌, not, Bool-cases, Option, none, some, Result, ok, err, if◌then◌else◌, leb, ◌==◌, ◌^◌,
}
use libvarlink.Error.{VarlinkError, invalid_message, connection_closed}
use libvarlink.Object.{VarlinkObject}
use libvarlink.Stream.{
  Stream, ReadAnswer, WriteAnswer, ReadResult, ReadRun, FlushRun, message, nothing, failure,
  blocked, varlink_stream_read, varlink_stream_flush,
}
use libvarlink.Message.{Reply, call_more, reply_continues, varlink_message_unpack_reply}
use libvarlink.Connection.{
  ReplyCallback, Connection, Delivery, EventsRun, Round, return, break, ran, next, FuncRun,
  left_pending, unsubscribed, remove_head, after_func, deliver, handle, after_read, unsubscribe,
  go_on, process_loop, flush_error, after_flush_events, varlink_connection_process_events,
}

module _ {C : Type 0} where
  -- From one queue to another, calls may have been added at its end.
  abbrev Extends : List (ReplyCallback C) → List (ReplyCallback C) → Type 0
  Extends before after = (added : List (ReplyCallback C)) × (before ++ added ≡ after)

  unchanged : (q : List (ReplyCallback C)) → Extends q q
  unchanged q = ([], append-nil q)

  Extends-prefix :
      (before pre mid end : List (ReplyCallback C))
      → Extends before (pre ++ mid)
      → Extends mid end
      → Extends before (pre ++ end)
  Extends-prefix before pre mid end (a, h) (b, k) = (
    a ++ b,
    sym (append_assoc before a b)
        ∙ ap (λ l. l ++ b) h
        ∙ append_assoc pre mid b
        ∙ ap (λ l. pre ++ l) k,
  )

  unsubscribe-pending : (c : Connection C) → (unsubscribe c).pending ≡ c.pending
  unsubscribe-pending c = go c.pending
    where
      go : (q : List (ReplyCallback C)) → (unsubscribed q c).pending ≡ c.pending
      go [] = refl
      go (cb ∷ rest) = refl

  remove_head-pending :
      (c : Connection C) (cb : ReplyCallback C) (q : List (ReplyCallback C))
      → c.pending ≡ cb ∷ q
      → cb ∷ (remove_head c).pending ≡ c.pending
  remove_head-pending c cb q h = go c.pending h
    where
      go : (p : List (ReplyCallback C)) → p ≡ cb ∷ q → cb ∷ (left_pending p c).pending ≡ p
      go [] e = absurd (cc)
      go (x ∷ rest) e = cc

  popped :
      (continues : Bool) (c : Connection C) (cb : ReplyCallback C)
      (rest before : List (ReplyCallback C))
      → before ≡ cb ∷ rest
      → Extends before c.pending
      → Extends before
          ((if continues then [] else cb ∷ []) ++ (if continues then c else remove_head c).pending)
  popped true c cb rest before h e = e
  popped false c cb rest before h (added, same) = (
    added,
    same ∙ sym (remove_head-pending c cb (rest ++ added) (sym same ∙ ap (λ l. l ++ added) h)),
  )

module _ {C F : Type 0} where
  -- The calls that a list of deliveries ends: those whose reply does not continue.
  abbrev ended : Delivery C F → List (ReplyCallback C)
  ended d = if reply_continues d.reply.flags then [] else d.callback ∷ []

  abbrev pub completed : List (Delivery C F) → List (ReplyCallback C)
  completed [] = []
  completed (d ∷ ds) = ended d ++ completed ds

  -- The queue, with the calls added to it meanwhile, is the calls ended, in their order, and then those still pending.
  abbrev pub InOrder : List (ReplyCallback C) → EventsRun C F → Type 0
  InOrder before r = Extends before (completed r.delivered ++ r.connection.pending)

  -- The same of a round.
  abbrev RoundInOrder : List (ReplyCallback C) → Round C F → Type 0
  RoundInOrder before (return r c) = Extends before c.pending
  RoundInOrder before (break r c) = Extends before c.pending
  RoundInOrder before (next c s) = Extends before c.pending
  RoundInOrder before (ran d x) =
      (mid : List (ReplyCallback C)) × Extends before (ended d ++ mid) × RoundInOrder mid x

  -- A callback may make calls, which are added to the queue; it takes none off.
  abbrev pub KeepsQueue : (C → Reply F → Connection C → FuncRun C) → Type 0
  KeepsQueue run_func =
      (func : C) (reply : Reply F) (c : Connection C)
      → Extends c.pending (run_func func reply c).connection.pending

  -- A reply that continues was only given to a call with the flag more.
  abbrev pub AllowsMore : Delivery C F → Type 0
  AllowsMore d = (reply_continues d.reply.flags && not (call_more d.callback.call_flags)) ≡ false

  after_func-InOrder :
      (reply : Reply F) (f : FuncRun C)
      → RoundInOrder
          (if reply_continues reply.flags then f.connection else remove_head f.connection).pending
          (after_func reply f)
  after_func-InOrder reply f = go _ f.result _
    where
      go :
          (c : Connection C) (r : Result {0, 0} VarlinkError Unit) (s : Option Stream)
          → RoundInOrder c.pending (elim r [
            | err e ↦ break (some (err e)) c
            | ok u ↦ elim s [ none ↦ break (some (ok tt)) c | some t ↦ next c t ]
          ])
      go c (err e) s = unchanged c.pending
      go c (ok u) none = unchanged c.pending
      go c (ok u) (some t) = unchanged c.pending

  go_on-InOrder :
      (before : List (ReplyCallback C)) (x : Round C F) (k : Connection C → Stream → EventsRun C F)
      → RoundInOrder before x
      → ((c : Connection C) (s : Stream) → InOrder c.pending (k c s))
      → InOrder before (go_on x k)
  go_on-InOrder before (return r c) k h later = h
  go_on-InOrder before (break r c) k h later = rw (unsubscribe-pending c) h
  go_on-InOrder before (next c s) k h later = Extends-prefix before [] c.pending _ h (later c s)
  go_on-InOrder before (ran d x) k (mid, e, h) later =
      rw (append_assoc (ended d) (completed (go_on x k).delivered) (go_on x k).connection.pending)
        (Extends-prefix before (ended d) mid _ e (go_on-InOrder mid x k h later))

module _ {C F : Type 0} (new_from_json : List ℕ → Result VarlinkError (VarlinkObject F))
    (run_func : C → Reply F → Connection C → FuncRun C) (keeps : KeepsQueue run_func) where
  deliver-InOrder :
      (c : Connection C) (cb : ReplyCallback C) (rest : List (ReplyCallback C)) (reply : Reply F)
      → c.pending ≡ cb ∷ rest
      → RoundInOrder c.pending (deliver new_from_json run_func c cb reply)
  unfolding deliver
  deliver-InOrder c cb rest reply h =
      elim (Bool-cases (reply_continues reply.flags && not (call_more cb.call_flags))) [
        | inl e ↦ rw e (unchanged c.pending)
        | inr e ↦ rw e (
          _,
          popped (reply_continues reply.flags) (run_func cb.func reply c).connection cb rest
              c.pending h (keeps cb.func reply c),
          after_func-InOrder reply (run_func cb.func reply c),
        )
      ]

  handle-InOrder :
      (c : Connection C) (o : VarlinkObject F)
      → RoundInOrder c.pending (handle new_from_json run_func c o)
  unfolding handle
  handle-InOrder c o = go c.pending refl (varlink_message_unpack_reply o)
    where
      go :
          (q : List (ReplyCallback C))
          → c.pending ≡ q
          → (u : Result VarlinkError (Reply F))
          → RoundInOrder c.pending (elim q [
            | [] ↦ return (some (err invalid_message)) c
            | cb ∷ rest ↦ elim u [
              | err e ↦ return (some (err invalid_message)) c
              | ok reply ↦ deliver new_from_json run_func c cb reply
            ]
          ])
      go [] h u = unchanged c.pending
      go (cb ∷ rest) h (err e) = unchanged c.pending
      go (cb ∷ rest) h (ok reply) = deliver-InOrder c cb rest reply h

  after_read-InOrder :
      (c : Connection C) (r : ReadRun (VarlinkObject F))
      → RoundInOrder c.pending (after_read new_from_json run_func c r)
  unfolding after_read
  after_read-InOrder c r = go r.result r.stream.hup
    where
      go :
          (x : ReadResult (VarlinkObject F)) (hup : Bool)
          → RoundInOrder c.pending (elim x [
            | blocked ↦ return none (record c { stream = some r.stream })
            | failure e ↦ return (some (err e)) (record c { stream = some r.stream })
            | nothing ↦
                if hup
                then return (some (err connection_closed)) (record c { stream = none })
                else break (some (ok tt)) (record c { stream = some r.stream })
            | message o ↦
                if hup
                then return (some (err connection_closed)) (record c { stream = none })
                else handle new_from_json run_func (record c { stream = some r.stream }) o
          ])
      go blocked hup = unchanged c.pending
      go (failure e) hup = unchanged c.pending
      go nothing true = unchanged c.pending
      go nothing false = unchanged c.pending
      go (message o) true = unchanged c.pending
      go (message o) false = handle-InOrder (record c { stream = some r.stream }) o

  process_loop-InOrder :
      (c : Connection C) (s : Stream) (reads : List (List ReadAnswer))
      → InOrder c.pending (process_loop new_from_json run_func c s reads)
  unfolding process_loop
  process_loop-InOrder c s [] = unchanged c.pending
  process_loop-InOrder c s (answers ∷ later) =
      go_on-InOrder c.pending _ _
        (after_read-InOrder c (varlink_stream_read new_from_json s answers))
        (λ d t. process_loop-InOrder d t later)

  -- Where callbacks take no call off the queue, the queue of pending calls, together with the calls that callbacks
  -- added at its end, is the calls that got their last reply, in the order of the replies, followed by the calls still
  -- pending, on every way out of the handling of events.
  pub process_events-InOrder :
      (c : Connection C) (writable : Bool) (writes : List WriteAnswer)
      (reads : List (List ReadAnswer))
      → InOrder c.pending
          (varlink_connection_process_events new_from_json run_func c writable writes reads)
  unfolding varlink_connection_process_events
  process_events-InOrder c writable writes reads = go c.stream writable
    where
      after :
          (f : FlushRun) (x : Option ℕ)
          → InOrder c.pending (elim x [
            | none ↦ record {
              connection = record c { stream = some f.stream };
              result = none;
              delivered = [];
            }
            | some r ↦
                let rest =
                  process_loop new_from_json run_func
                    (record c {
                      stream = some f.stream;
                      epollout = if r == 0 then false else c.epollout;
                    })
                    f.stream
                    reads in
                if leb (2 ^ 63) r
                then record {
                  connection = record c { stream = some f.stream };
                  result = some (err (flush_error r));
                  delivered = [];
                }
                else rest
          ])
      after f none = unchanged c.pending
      after f (some r) = elim (Bool-cases (leb (2 ^ 63) r)) [
        | inl e ↦ rw e (unchanged c.pending)
        | inr e ↦ rw e (
            process_loop-InOrder
              (record c { stream = some f.stream; epollout = if r == 0 then false else c.epollout })
              f.stream reads)
      ]

      go :
          (s : Option Stream) (w : Bool)
          → InOrder c.pending (elim s [
            | none ↦ record {
              connection = c;
              result = some (err connection_closed);
              delivered = [];
            }
            | some t ↦
                if w
                then after_flush_events new_from_json run_func c
                    (varlink_stream_flush t writes)
                    reads
                else process_loop new_from_json run_func c t reads
          ])
      go none w = unchanged c.pending
      go (some t) true =
          after (varlink_stream_flush t writes) (varlink_stream_flush t writes).result
      go (some t) false = process_loop-InOrder c t reads
