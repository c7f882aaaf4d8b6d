-- ===== src/Stream/Reading.antt =====
-- lib/stream.c: `varlink_stream_read` hands out the messages in order and loses no byte.
use libvarlink.Prelude.{
  ℕ, ◌+◌, ◌≡◌, ◌≢◌, refl, ap, ◌∙◌, List, [], ◌∷◌, ◌++◌, Option, none, some, Result, ok, err, arith,
  length, drop, append_assoc, append-nil, drop-append, drop-add, Bool-cases, ◌==◌, All, inl, inr,
}
use libvarlink.Error.{VarlinkError}
use libvarlink.Stream.{
  buffer_size, Stream, unread, ReadAnswer, got, move_rest_in, split_nul, push_front, ReadResult,
  message, nothing, failure, blocked, ReadRun, Look, done, more, take_message, look, received,
  read_loop, varlink_stream_read,
}

-- What stands in front of the first NUL, and that it is the first.
abbrev pub IsSplit : List ℕ → Option (List ℕ × List ℕ) → Type 0
IsSplit bs none = All (λ c. c ≢ 0) bs
IsSplit bs (some (m, r)) = (bs ≡ m ++ 0 ∷ r) × All (λ c. c ≢ 0) m

pub split_nul-IsSplit : (bs : List ℕ) → IsSplit bs (split_nul bs)
unfolding split_nul
split_nul-IsSplit [] = tt
split_nul-IsSplit (c ∷ cs) = elim (Bool-cases (c == 0)) [
  | inl z ↦ rw (z, split_nul) (ground arith)
  | inr z ↦ rw (z, split_nul) (go (ground arith) (split_nul cs) (split_nul-IsSplit cs))
]
  where
    go : c ≢ 0 → (x : Option (List ℕ × List ℕ)) → IsSplit cs x → IsSplit (c ∷ cs) (push_front c x)
    go ne none h = (ne, h)
    go ne (some (m, r)) h = (ap (◌∷◌ c) h.0, (ne, h.1))

-- Of the bytes `bytes`, those left unread by a call are what follows the message that it handed out, with
-- its NUL, or all of them where it handed out none.
module _ {O : Type 0} (new_from_json : List ℕ → Result VarlinkError O) where
  abbrev pub Conserves : List ℕ → ReadResult O → Stream → Type 0
  Conserves bytes (message o) s =
      (m : List ℕ) × (bytes ≡ m ++ 0 ∷ unread s) × All (λ c. c ≢ 0) m × (new_from_json m ≡ ok o)
  Conserves bytes nothing s = bytes ≡ unread s
  Conserves bytes (failure e) s = bytes ≡ unread s
  Conserves bytes blocked s = bytes ≡ unread s

  abbrev LookConserves : List ℕ → Look O → Type 0
  LookConserves bytes (done r s) = Conserves bytes r s
  LookConserves bytes (more s) = (bytes ≡ s.input) × (s.in_start ≡ 0)

  -- Past a message and its NUL.
  unread_past :
      (s : Stream) (m rest : List ℕ)
      → unread s ≡ m ++ 0 ∷ rest
      → unread (record s { in_start = s.in_start + (length m + 1) }) ≡ rest
  unread_past s m rest e =
      drop-add s.in_start (length m + 1) s.input
      ∙ ap (drop (length m + 1)) e
      ∙ drop-add (length m) 1 (m ++ 0 ∷ rest)
      ∙ rw (drop-append m (0 ∷ rest))

  take_message-conserves :
      (s : Stream) (m rest : List ℕ) (x : Result VarlinkError O)
      → new_from_json m ≡ x
      → unread s ≡ m ++ 0 ∷ rest
      → All (λ c. c ≢ 0) m
      → LookConserves (unread s) (take_message new_from_json s m)
  unfolding take_message
  take_message-conserves s m rest (err e) p split nonzero = rw (p, LookConserves) refl
  take_message-conserves s m rest (ok o) p split nonzero =
      rw (p, LookConserves) (m, split ∙ rw (unread_past s m rest split), nonzero, p)

  look-conserves : (s : Stream) → LookConserves (unread s) (look new_from_json s)
  unfolding look move_rest_in
  look-conserves s = go (split_nul (unread s)) refl (split_nul-IsSplit (unread s))
    where
      go :
          (x : Option (List ℕ × List ℕ))
          → split_nul (unread s) ≡ x
          → IsSplit (unread s) x
          → LookConserves (unread s) (look new_from_json s)
      go none e h = elim (Bool-cases (length (unread s) == buffer_size)) [
        | inl full ↦ rw (e, full, LookConserves) refl
        | inr room ↦ rw (e, room, LookConserves) (refl, refl)
      ]
      go (some (m, r)) e h = rw (e, LookConserves) (take_message-conserves s m r _ refl h.0 h.1)

  abbrev pub RunConserves : List ℕ → ReadRun O → Type 0
  RunConserves bytes r = Conserves (bytes ++ r.delivered) r.result r.stream

  received-conserves :
      (s : Stream) (new bytes : List ℕ) (later : List ReadAnswer) (continue : Look O → ReadRun O)
      → ((lk : Look O) (bytes : List ℕ) → LookConserves bytes lk → RunConserves bytes (continue lk))
      → LookConserves bytes (more s)
      → RunConserves bytes (received new_from_json s new later continue)
  unfolding received
  received-conserves s [] bytes later continue ih h = rw append-nil (h.0 ∙ rw h.1)
  received-conserves s (b ∷ bs) bytes later continue ih h =
      let t = record s { input = s.input ++ b ∷ bs } in
      let all : unread t ≡ bytes ++ b ∷ bs = rw (h.1, h.0) in
      let r = continue (look new_from_json t) in
      rw (← append_assoc bytes (b ∷ bs) r.delivered)
        (ih (look new_from_json t) (bytes ++ b ∷ bs) (rw all at (look-conserves t)))

  read_loop-conserves :
      (answers : List ReadAnswer) (lk : Look O) (bytes : List ℕ)
      → LookConserves bytes lk
      → RunConserves bytes (read_loop new_from_json lk answers)
  unfolding read_loop
  read_loop-conserves answers (done r s) bytes h = rw append-nil h
  read_loop-conserves [] (more s) bytes h = rw append-nil (h.0 ∙ rw h.1)
  read_loop-conserves (ReadAnswer.eintr ∷ later) (more s) bytes h =
      read_loop-conserves later (more s) bytes h
  read_loop-conserves (ReadAnswer.eagain ∷ later) (more s) bytes h = rw append-nil (h.0 ∙ rw h.1)
  read_loop-conserves (ReadAnswer.econnreset ∷ later) (more s) bytes h =
      rw append-nil (h.0 ∙ rw h.1)
  read_loop-conserves (ReadAnswer.failed ∷ later) (more s) bytes h = rw append-nil (h.0 ∙ rw h.1)
  read_loop-conserves (got answer ∷ later) (more s) bytes h =
      received-conserves s _ bytes later _ (λ lk new. read_loop-conserves later lk new) h

  -- Of what was unread and what the kernel delivers during the call, exactly the text of the message handed out and
  -- its NUL is gone afterwards: the text holds no NUL, and is what was parsed. Where no message is handed out, on
  -- every other way out of the call, all of it is still unread.
  pub read-conserves :
      (s : Stream) (answers : List ReadAnswer)
      → RunConserves (unread s) (varlink_stream_read new_from_json s answers)
  unfolding varlink_stream_read
  read-conserves s answers = read_loop-conserves answers _ (unread s) (look-conserves s)
