-- ===== src/Stream/Writing.antt =====
-- lib/stream.c: `varlink_stream_write` sends the messages in order, and what its result says.
use libvarlink.Prelude.{
  ℕ, ◌+◌, ◌-◌, ◌<◌, ◌≡◌, refl, ap, ◌∙◌, Bool, true, false, List, [], ◌∷◌, ◌++◌, Option, none, some,
  Result, ok, err, arith, length, take, drop-append_le, take-append-drop, drop-add, Bool-cases,
  ◌==◌, inl, inr, leb, ◌≢◌, ==_iff, lt→leb,
}
use mathlib.Core.Option.{some-injective}
use libvarlink.Error.{VarlinkError}
use libvarlink.Stream.{
  buffer_size, Stream, out_end, unsent, WriteAnswer, wrote, move_rest_out, varlink_stream_flush,
  WriteRun, write_json, varlink_stream_write, queued, after_flush,
}
use libvarlink.Stream.Bounds.{IsBounded}

-- What the kernel took, with what is left, is what there was to send.
flush-conserves :
    (s : Stream) (answers : List WriteAnswer)
    → (varlink_stream_flush s answers).sent ++ unsent (varlink_stream_flush s answers).stream
      ≡ unsent s
unfolding varlink_stream_flush move_rest_out
flush-conserves s [] = refl
flush-conserves s (WriteAnswer.eintr ∷ later) = flush-conserves s later
flush-conserves s (WriteAnswer.eagain ∷ later) = refl
flush-conserves s (WriteAnswer.epipe ∷ later) = refl
flush-conserves s (WriteAnswer.failed ∷ later) = refl
flush-conserves s (wrote answer ∷ later) =
    let n = answer (out_end s - s.out_start) in
    ap (λ rest. take n (unsent s) ++ rest) (drop-add s.out_start n s.out)
    ∙ take-append-drop n (unsent s)

empty : (xs : List ℕ) → length xs - 0 ≡ 0 → xs ≡ []
empty [] h = refl
empty (x ∷ xs) h = absurd (omega arith)

-- A returned 0 says that nothing is left.
flush_zero :
    (s : Stream) (answers : List WriteAnswer)
    → (varlink_stream_flush s answers).result ≡ some 0
    → unsent (varlink_stream_flush s answers).stream ≡ []
unfolding varlink_stream_flush move_rest_out
flush_zero s [] h = cc
flush_zero s (WriteAnswer.eintr ∷ later) h = flush_zero s later h
flush_zero s (WriteAnswer.eagain ∷ later) h = empty _ (some-injective _ _ h)
flush_zero s (WriteAnswer.epipe ∷ later) h = absurd (omega (arith, some-injective _ _ h))
flush_zero s (WriteAnswer.failed ∷ later) h = absurd (omega (arith, some-injective _ _ h))
flush_zero s (wrote answer ∷ later) h = empty _ (some-injective _ _ h)

module _ {O : Type 0} (to_json : O → Result VarlinkError (List ℕ)) where
  -- The outcome of a write: refused, with nothing changed; or accepted, and then what was sent, with what is left,
  -- is what there was to send and the message's JSON with its NUL behind it. With `ok true` nothing is left.
  abbrev pub Writes : Stream → List ℕ → WriteRun → Option (Result VarlinkError Bool) → Type 0
  Writes s json r (some (err e)) = (r.stream ≡ s) × (r.sent ≡ [])
  Writes s json r (some (ok done)) =
      (r.sent ++ unsent r.stream ≡ unsent s ++ (json ++ 0 ∷ []))
      × (done ≡ true → unsent r.stream ≡ [])
  Writes s json r none = r.sent ++ unsent r.stream ≡ unsent s ++ (json ++ 0 ∷ [])

  unsent-queued :
      (s : Stream) (json : List ℕ)
      → IsBounded s
      → unsent (record s { out = s.out ++ (json ++ 0 ∷ []) }) ≡ unsent s ++ (json ++ 0 ∷ [])
  unsent-queued s json b = drop-append_le s.out_start s.out (json ++ 0 ∷ []) b.out_order

  accepted-Writes :
      (s t : Stream) (json : List ℕ) (answers : List WriteAnswer) (x : Option ℕ)
      → unsent t ≡ unsent s ++ (json ++ 0 ∷ [])
      → (varlink_stream_flush t answers).result ≡ x
      → Writes s json
          (after_flush to_json (varlink_stream_flush t answers))
          (elim x [ none ↦ none | some r ↦ some (ok (r == 0)) ])
  accepted-Writes s t json answers none e h = flush-conserves t answers ∙ e
  accepted-Writes s t json answers (some r) e h =
      (flush-conserves t answers ∙ e, λ z. flush_zero t answers (h ∙ ap some ((==_iff r 0).0 z)))

  -- Where the object has a JSON text, a write is refused and changes nothing; or it sends, in order, what was left of
  -- earlier writes and then the text with its NUL, as far as the kernel takes it; the rest stays to be sent, and is
  -- nothing where the result is 1.
  pub write-Writes :
      (s : Stream) (o : O) (json : List ℕ) (answers : List WriteAnswer)
      → IsBounded s
      → to_json o ≡ ok json
      → Writes s json
          (varlink_stream_write to_json s o answers)
          (varlink_stream_write to_json s o answers).result
  unfolding varlink_stream_write write_json
  write-Writes s o json answers b e =
      let all = unsent-queued s json b in
      elim (Bool-cases (leb (buffer_size - 1) (length json))) [
        | inl big ↦ rw (e, varlink_stream_write, big) (refl, refl)
        | inr fits ↦ elim (Bool-cases (leb buffer_size (out_end s + length json + 1))) [
          | inl full ↦ rw (e, varlink_stream_write, fits, full) (refl, refl)
          | inr room ↦
              rw (e, varlink_stream_write, fits, room)
                (accepted-Writes s (queued to_json s json) json answers _ all refl)
        ]
      ]

  -- Where the object has a JSON text, the message fits and the peer is gone, so that the flush fails, the write still
  -- returns 0, as for a message sent in part, and the stream is marked as hung up.
  pub write-hides_epipe :
      (s : Stream) (o : O) (json : List ℕ) (later : List WriteAnswer)
      → to_json o ≡ ok json
      → out_end s + length json + 1 < buffer_size
      → ((varlink_stream_write to_json s o (WriteAnswer.epipe ∷ later)).result ≡ some (ok false))
        × ((varlink_stream_write to_json s o (WriteAnswer.epipe ∷ later)).stream.hup ≡ true)
  unfolding varlink_stream_write write_json varlink_stream_flush
  write-hides_epipe s o json later e room =
      let fits = lt→leb (length json) (buffer_size - 1) (omega arith) in
      let free = lt→leb (out_end s + length json + 1) buffer_size room in
      rw (e, varlink_stream_write, fits, free) (refl, refl)

  -- A message that fits is accepted.
  pub write-accepts :
      (s : Stream) (o : O) (json : List ℕ) (answers : List WriteAnswer)
      → IsBounded s
      → to_json o ≡ ok json
      → out_end s + length json + 1 < buffer_size
      → (varlink_stream_write to_json s o answers).sent
          ++ unsent (varlink_stream_write to_json s o answers).stream
        ≡ unsent s ++ (json ++ 0 ∷ [])
  unfolding varlink_stream_write write_json
  write-accepts s o json answers b e room =
      let fits = lt→leb (length json) (buffer_size - 1) (omega arith) in
      let free = lt→leb (out_end s + length json + 1) buffer_size room in
      rw (e, varlink_stream_write, fits, free)
        (flush-conserves (queued to_json s json) answers ∙ unsent-queued s json b)

  pub write-not_err :
      (s : Stream) (o : O) (json : List ℕ) (answers : List WriteAnswer) (d : VarlinkError)
      → to_json o ≡ ok json
      → out_end s + length json + 1 < buffer_size
      → (varlink_stream_write to_json s o answers).result ≢ some (err d)
  unfolding varlink_stream_write write_json
  write-not_err s o json answers d e room =
      let fits = lt→leb (length json) (buffer_size - 1) (omega arith) in
      let free = lt→leb (out_end s + length json + 1) buffer_size room in
      rw (e, varlink_stream_write, fits, free)
        (flushed (varlink_stream_flush (queued to_json s json) answers).result)
    where
      flushed :
          (x : Option ℕ)
          → (elim x as (λ y. Option (Result VarlinkError Bool)) [
            | none ↦ none
            | some r ↦ some (ok (r == 0))
          ])
            ≢ some (err d)
      flushed none h = cc
      flushed (some r) h = cc
