-- ===== src/Service/Later.antt =====
-- lib/service.c: a call that its holder keeps behind the reply, with a reference of its own.
use libvarlink.Prelude.{
  ℕ, ◌+◌, ◌-◌, ◌≡◌, ◌≢◌, refl, sym, ap, ◌∙◌, List, Bool, true, false, Option, none, some, Result,
  ok, err, ◌==◌, ==_iff, Bool-cases, inl, inr, arith,
}
use mathlib.Core.Option.{some-injective, none-ne-some}
use libvarlink.Error.{VarlinkError, invalid_call}
use libvarlink.Object.{VarlinkObject}
use libvarlink.Stream.{WriteAnswer}
use libvarlink.Message.{reply_continues}
use libvarlink.Service.{
  Mask, VarlinkCall, ServiceConnection, ReplyRun, Interfaces, is_call, returned, varlink_call_unref,
  varlink_call_reply, varlink_call_reply_error,
}
use libvarlink.Service.Once.{
  CallAfter, rest_of, held_of, call_reply-CallAfter, call_reply_error-CallAfter,
}

nonzero : (n : ℕ) → (n == 0) ≡ false → n ≢ 0
nonzero n h z = differ ((==_iff n 0).1 z)
  where
    differ : (n == 0) ≡ true → ⊥
    differ t = cc

-- What is held after a reference is given up is the same call, with one reference less.
unref-held :
    {F : Type 0} (call held : VarlinkCall F)
    → varlink_call_unref call ≡ some held
    → (call.refcount ≡ held.refcount + 1) × (held.id ≡ call.id)
unfolding varlink_call_unref
unref-held call held h = elim (Bool-cases (call.refcount - 1 == 0)) [
  | inl e ↦ absurd (none-ne-some held (rw e at h))
  | inr e ↦
      let same : some (record call { refcount = call.refcount - 1 }) ≡ some held = rw e at h in
      let one = some-injective _ _ same in
      (
        omega (arith, ap (λ k. k.refcount) one, nonzero (call.refcount - 1) e),
        sym (ap (λ k. k.id) one),
      )
]

is_call-other :
    {F : Type 0} (call : VarlinkCall F) (x : Option ℕ) → x ≢ some call.id → is_call call x ≡ false
is_call-other call none h = refl
is_call-other call (some pointer) h = elim (Bool-cases (call.id == pointer)) [
  | inl e ↦ absurd (h (ap some (sym ((==_iff call.id pointer).0 e))))
  | inr e ↦ e
]

module _ {F C : Type 0} (to_json : VarlinkObject F → Result VarlinkError (List ℕ))
    (epoll_mod : Mask → Bool) (scan_hex : List ℕ → Option ℕ) (interfaces : Interfaces C) where
  -- What a connection may come to while the memory of the call `id` is held, so that no new call has this pointer: replies
  -- and errors to any calls, new calls where there is none, and changes of all but its call.
  pub data Later (id : ℕ) (c : ServiceConnection) : ServiceConnection → Type 0 where
    same : Later id c c
    replied :
        (d : ServiceConnection) (call : VarlinkCall F) (parameters : Option ℕ) (flags : ℕ)
        (answers : List WriteAnswer)
        → Later id c d
        → Later id c
            (varlink_call_reply to_json epoll_mod d call parameters flags answers).connection
    replied_error :
        (d : ServiceConnection) (call : VarlinkCall F) (error : List ℕ) (parameters : Option ℕ)
        (answers : List WriteAnswer)
        → Later id c d
        → Later id c
            (varlink_call_reply_error to_json epoll_mod scan_hex interfaces d call error parameters
              answers).connection
    moved : (d e : ServiceConnection) → e.call ≡ d.call → Later id c d → Later id c e
    called :
        (d : ServiceConnection) (pointer : ℕ)
        → d.call ≡ none
        → pointer ≢ id
        → Later id c d
        → Later id c (record d { call = some pointer })

  -- The call that a connection works on is, after a reply, none or the one before.
  call-after :
      (id : ℕ) (before rest : Option ℕ) (call : VarlinkCall F) (held : Option (VarlinkCall F))
      (run : ReplyRun F) (r : Option (Result {0, 0} VarlinkError Unit))
      → run.result ≡ r
      → CallAfter before call rest held run
      → before ≢ some id
      → rest ≢ some id
      → run.connection.call ≢ some id
  call-after id before rest call held run none e h b k = λ p. b (sym (rw e at h).0 ∙ p)
  call-after id before rest call held run (some (err d)) e h b k = λ p. b (sym (rw e at h).0 ∙ p)
  call-after id before rest call held run (some (ok u)) e h b k = λ p. k (sym (rw e at h).0 ∙ p)

  rest_of-other : (id : ℕ) (x : Option ℕ) (flags : ℕ) → x ≢ some id → rest_of x flags ≢ some id
  rest_of-other id x flags h = elim (Bool-cases (reply_continues flags)) [
    | inl e ↦ rw e h
    | inr e ↦ rw e (λ p. cc)
  ]

  later-call :
      (id : ℕ) (c d : ServiceConnection) → Later id c d → c.call ≢ some id → d.call ≢ some id
  later-call id c d same h = h
  later-call id c _ (replied d call parameters flags answers before) h =
      let other = later-call id c d before h in
      call-after id d.call _ call _
        (varlink_call_reply to_json epoll_mod d call parameters flags answers) _ refl
        (call_reply-CallAfter to_json epoll_mod d call parameters flags answers) other
        (rest_of-other id d.call flags other)
  later-call id c _ (replied_error d call error parameters answers before) h =
      call-after id d.call none call _
        (varlink_call_reply_error to_json epoll_mod scan_hex interfaces d call error parameters
          answers)
        _ refl
        (call_reply_error-CallAfter to_json epoll_mod scan_hex interfaces d call error parameters
          answers)
        (later-call id c d before h) (λ p. cc)
  later-call id c _ (moved d e k before) h = λ p. later-call id c d before h (sym k ∙ p)
  later-call id c _ (called d pointer n o before) h = λ p. o (some-injective _ _ p)

  -- After a reply that succeeds, with no more to follow.
  reply-ends :
      (c : ServiceConnection) (call : VarlinkCall F) (parameters : Option ℕ) (flags : ℕ)
      (answers : List WriteAnswer) (run : ReplyRun F)
      → CallAfter c.call call (rest_of c.call flags) (held_of call flags) run
      → run.result ≡ some (ok tt)
      → reply_continues flags ≡ false
      → (run.connection.call ≡ none) × (run.call ≡ varlink_call_unref call)
  reply-ends c call parameters flags answers run h e k = rw (e, k) at h

  refused_reply :
      (d : ServiceConnection) (call : VarlinkCall F) (parameters : Option ℕ) (flags : ℕ)
      (answers : List WriteAnswer)
      → d.call ≢ some call.id
      → varlink_call_reply to_json epoll_mod d call parameters flags answers
        ≡ returned d call (err invalid_call)
  unfolding varlink_call_reply
  refused_reply d call parameters flags answers h = rw (is_call-other call d.call h) refl

  -- Where a reply to a call has succeeded that no more replies follow, and its holder still has a reference, so that the
  -- call is not freed, the reply took exactly one reference, and every further reply to the call, whatever its flags
  -- and whatever replies, and new calls at other addresses, came between, is refused as an invalid call: nothing is
  -- sent, and nothing changes.
  pub reply-once :
      (c d : ServiceConnection) (call held : VarlinkCall F) (parameters again : Option ℕ)
      (flags more_flags : ℕ) (answers later : List WriteAnswer)
      → (varlink_call_reply to_json epoll_mod c call parameters flags answers).result ≡ some (ok tt)
      → reply_continues flags ≡ false
      → (varlink_call_reply to_json epoll_mod c call parameters flags answers).call ≡ some held
      → Later call.id
          (varlink_call_reply to_json epoll_mod c call parameters flags answers).connection
          d
      → (call.refcount ≡ held.refcount + 1)
        × (varlink_call_reply to_json epoll_mod d held again more_flags later
            ≡ returned d held (err invalid_call))
  reply-once c d call held parameters again flags more_flags answers later e k h between =
      let run = varlink_call_reply to_json epoll_mod c call parameters flags answers in
      let (gone, rest) =
        reply-ends c call parameters flags answers run
          (call_reply-CallAfter to_json epoll_mod c call parameters flags answers) e k in
      let (one, id) = unref-held call held (sym rest ∙ h) in
      let other = later-call call.id run.connection d between (λ p. cc) in
      (one, refused_reply d held again more_flags later (λ p. other (p ∙ ap some id)))
