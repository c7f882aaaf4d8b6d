-- ===== src/Service/Events.antt =====
-- lib/service.c: the events that a connection is subscribed to, and when its calls are read.
use libvarlink.Prelude.{
  ℕ, ◌≡◌, refl, sym, ap, ◌∙◌, ◌==◌, List, [], ◌∷◌, Bool, true, false, ◌||◌, Option, none, some,
  Result, if◌then◌else◌, Bool-cases, inl, inr, ◌⊎◌, arith, leb, ◌^◌,
}
use libvarlink.Error.{VarlinkError}
use libvarlink.Object.{VarlinkObject}
use libvarlink.Stream.{ReadAnswer, WriteAnswer, varlink_stream_flush}
use libvarlink.Service.{
  Mask, same_bit, same_mask, VarlinkCall, want_write, ServiceConnection, ReplyRun,
  service_connection_set_events_mask,
}
use libvarlink.Service.InStep.{InStep, LeftInStep, RunInStep, read_calls-InStep}
use libvarlink.Service.Dispatch.{
  Events, End, left, closed, failed, waits, DispatchRun, ended, while_idle, read_calls, listen,
  end_mask, settle, behind_loop, dispatch_reads, after_flush_out,
  varlink_service_dispatch_connection,
}

same_bit-eq : (a b : Bool) → same_bit a b ≡ true → a ≡ b
same_bit-eq true b h = sym h
same_bit-eq false true h = h
same_bit-eq false false h = refl

same_mask-eq :
    (a b : Mask) → same_mask a b ≡ true → (a.epollin ≡ b.epollin) × (a.epollout ≡ b.epollout)
same_mask-eq a b h = (
  same_bit-eq a.epollin b.epollin (ground arith),
  same_bit-eq a.epollout b.epollout (ground arith),
)

-- For a connection that is left, the kernel has the events that it asked for, and EPOLLIN where it works on no call.
abbrev pub Listens : End → Type 0
Listens (left c) =
    (c.subscribed.epollin ≡ c.events_mask.epollin)
    × (c.subscribed.epollout ≡ c.events_mask.epollout)
    × (c.call ≡ none → c.subscribed.epollin ≡ true)
Listens _ = Unit

module _ {F : Type 0} (new_from_json : List ℕ → Result VarlinkError (VarlinkObject F))
    (epoll_mod : Mask → Bool) (callback : ServiceConnection → VarlinkCall F → ReplyRun F) where
  set_mask-Listens :
      (c : ServiceConnection)
      → InStep c
      → (c.call ≡ none → c.events_mask.epollin ≡ true)
      → Listens (
          end_mask new_from_json epoll_mod callback
            (service_connection_set_events_mask epoll_mod c c.events_mask))
  unfolding service_connection_set_events_mask
  set_mask-Listens c k idle = elim (Bool-cases (same_mask c.events_mask c.current_events_mask)) [
    | inl e ↦
        let (i, o) = same_mask-eq c.events_mask c.current_events_mask e in
        let in_kernel = sym (ap (λ m. m.epollin) k) ∙ sym i in
        rw e (in_kernel, sym (ap (λ m. m.epollout) k) ∙ sym o, λ n. in_kernel ∙ idle n)
    | inr e ↦ elim (Bool-cases (epoll_mod c.events_mask)) [
      | inl m ↦ rw (e, m) (refl, refl, idle)
      | inr m ↦ rw (e, m) tt
    ]
  ]

  listen-idle :
      (call : Option ℕ) (c : ServiceConnection)
      → c.call ≡ call
      → (listen new_from_json epoll_mod callback call c).call ≡ none
      → (listen new_from_json epoll_mod callback call c).events_mask.epollin ≡ true
  listen-idle none c e n = refl
  listen-idle (some pointer) c e n = cc

  listen-InStep :
      (call : Option ℕ) (c : ServiceConnection)
      → InStep c
      → InStep (listen new_from_json epoll_mod callback call c)
  listen-InStep none c k = k
  listen-InStep (some pointer) c k = k

  settle-Listens :
      (events : Events) (c : ServiceConnection)
      → InStep c
      → Listens (settle new_from_json epoll_mod callback events c)
  unfolding settle
  settle-Listens events c k = elim (Bool-cases (events.hung_up || c.stream.hup)) [
    | inl e ↦ rw e tt
    | inr e ↦ rw e (
        set_mask-Listens (listen new_from_json epoll_mod callback c.call c)
          (listen-InStep c.call c k) (listen-idle c.call c refl))
  ]

  behind_loop-Listens :
      (events : Events) (e : End)
      → LeftInStep e
      → Listens (behind_loop new_from_json epoll_mod callback events e)
  behind_loop-Listens events (left c) k = settle-Listens events c k
  behind_loop-Listens events closed k = tt
  behind_loop-Listens events (failed e c) k = tt
  behind_loop-Listens events (waits c) k = tt

  either :
      (b : Bool) (x y : DispatchRun F)
      → Listens x.end
      → Listens y.end
      → Listens (if b then x else y).end
  either true x y h k = h
  either false x y h k = k

  module _
      (keeps : (d : ServiceConnection) (k : VarlinkCall F)
        → InStep d
        → RunInStep (callback d k)) where
    dispatch_reads-Listens :
        (events : Events) (c : ServiceConnection) (pointer : ℕ) (reads : List (List ReadAnswer))
        → InStep c
        → Listens (dispatch_reads new_from_json epoll_mod callback events c pointer reads).end
    unfolding dispatch_reads
    dispatch_reads-Listens events c pointer reads k =
        either events.readable _ _
          (behind_loop-Listens events
            (read_calls new_from_json epoll_mod callback c pointer reads).end
            (read_calls-InStep new_from_json epoll_mod callback keeps c pointer reads k))
          (settle-Listens events c k)

    either_connection :
        (b : Bool) (c d : ServiceConnection) → InStep c → InStep d → InStep (if b then c else d)
    either_connection true c d h k = h
    either_connection false c d h k = k

    flush_out-Listens :
        (events : Events) (c : ServiceConnection) (r : Option ℕ) (pointer : ℕ)
        (reads : List (List ReadAnswer))
        → InStep c
        → Listens (after_flush_out new_from_json epoll_mod callback events c r pointer reads).end
    flush_out-Listens events c none pointer reads k = tt
    flush_out-Listens events c (some r) pointer reads k = elim (Bool-cases (leb (2 ^ 63) r)) [
      | inl e ↦ rw e tt
      | inr e ↦ rw e (
          dispatch_reads-Listens events _ pointer reads
            (either_connection (r == 0) c (want_write c) k k))
    ]

    -- Where the mask stored for a connection is the one the kernel has, and a callback that succeeds keeps it so, the
    -- kernel has, for a connection that a dispatch leaves, the events that the connection asked for, and EPOLLIN where it
    -- works on no call, so that the next call is noticed.
    pub dispatch-Listens :
        (events : Events) (c : ServiceConnection) (pointer : ℕ) (writes : List WriteAnswer)
        (reads : List (List ReadAnswer))
        → InStep c
        → Listens
            (varlink_service_dispatch_connection new_from_json epoll_mod callback events c pointer
              writes reads).end
    unfolding varlink_service_dispatch_connection
    dispatch-Listens events c pointer writes reads k =
        either events.writable _ _
          (flush_out-Listens events _ (varlink_stream_flush c.stream writes).result pointer reads k)
          (dispatch_reads-Listens events _ pointer reads k)

  -- A connection with a call, left by a dispatch in which nothing was written: the stream and the call are as before.
  abbrev pub Kept : ServiceConnection → ℕ → End → Type 0
  Kept c current (left d) =
      (d.stream ≡ c.stream)
      × (d.call ≡ some current)
      × (d.current_events_mask.epollin ≡ c.events_mask.epollin)
      × ((d.subscribed ≡ d.current_events_mask)
          ⊎ ((d.subscribed ≡ c.subscribed) × (d.current_events_mask ≡ c.current_events_mask)))
  Kept c current closed = Unit
  Kept c current (failed e d) = (d.stream ≡ c.stream) × (d.call ≡ some current)
  Kept c current (waits d) = ⊥

  set_mask-Kept :
      (c : ServiceConnection) (current : ℕ)
      → c.call ≡ some current
      → Kept c current (
          end_mask new_from_json epoll_mod callback
            (service_connection_set_events_mask epoll_mod c c.events_mask))
  unfolding service_connection_set_events_mask
  set_mask-Kept c current h = elim (Bool-cases (same_mask c.events_mask c.current_events_mask)) [
    | inl e ↦
        rw e (refl, h, sym (same_mask-eq c.events_mask c.current_events_mask e).0, inr (refl, refl))
    | inr e ↦ elim (Bool-cases (epoll_mod c.events_mask)) [
      | inl m ↦ rw (e, m) (refl, h, refl, inl refl)
      | inr m ↦ rw (e, m) (refl, h)
    ]
  ]

  settle-Kept :
      (events : Events) (c : ServiceConnection) (current : ℕ)
      → c.call ≡ some current
      → Kept c current (settle new_from_json epoll_mod callback events c)
  unfolding settle
  settle-Kept events c current h = elim (Bool-cases (events.hung_up || c.stream.hup)) [
    | inl e ↦ rw e tt
    | inr e ↦
        let still : listen new_from_json epoll_mod callback c.call c ≡ c = rw h refl in
        rw (e, still) (set_mask-Kept c current h)
  ]

  while_busy :
      (c : ServiceConnection) (current : ℕ) (x : Option ℕ) (body : DispatchRun F)
      → x ≡ some current
      → while_idle c x body ≡ ended (left c)
  while_busy c current none body h = absurd (cc)
  while_busy c current (some other) body h = refl

  read_calls-busy :
      (c : ServiceConnection) (current : ℕ) (pointer : ℕ) (reads : List (List ReadAnswer))
      → c.call ≡ some current
      → read_calls new_from_json epoll_mod callback c pointer reads ≡ ended (left c)
  unfolding read_calls
  read_calls-busy c current pointer [] h = while_busy c current c.call _ h
  read_calls-busy c current pointer (answers ∷ later) h = while_busy c current c.call _ h

  -- While a connection works on a call, a dispatch without EPOLLOUT reads nothing from it and gives the callback no
  -- call: unless it is closed, its stream and its call stay, and where it is left, the mask stored for it has no EPOLLIN,
  -- and is what the kernel has, unless neither was changed.
  pub dispatch_busy-Kept :
      (events : Events) (c : ServiceConnection) (current : ℕ) (pointer : ℕ)
      (writes : List WriteAnswer) (reads : List (List ReadAnswer))
      → c.call ≡ some current
      → events.writable ≡ false
      → Kept
          (record c { events_mask = record { epollin = false; epollout = false } })
          current
          (varlink_service_dispatch_connection new_from_json epoll_mod callback events c pointer
            writes reads).end
        × ((varlink_service_dispatch_connection new_from_json epoll_mod callback events c pointer
              writes reads).calls
            ≡ [])
  unfolding varlink_service_dispatch_connection dispatch_reads settle
  dispatch_busy-Kept events c current pointer writes reads h w =
      let cleared : ServiceConnection = record c {
        events_mask = record { epollin = false; epollout = false };
      } in
      let stays = settle-Kept events cleared current h in
      let skipped = read_calls-busy cleared current pointer reads h in
      rw w (chosen events.readable _ _ (rw skipped (stays, refl)) (stays, refl))
    where
      chosen :
          (b : Bool) (x y : DispatchRun F)
          → Kept
              (record c { events_mask = record { epollin = false; epollout = false } })
              current
              x.end
            × (x.calls ≡ [])
          → Kept
              (record c { events_mask = record { epollin = false; epollout = false } })
              current
              y.end
            × (y.calls ≡ [])
          → Kept
              (record c { events_mask = record { epollin = false; epollout = false } })
              current
              (if b then x else y).end
            × ((if b then x else y).calls ≡ [])
      chosen true x y h k = h
      chosen false x y h k = k
