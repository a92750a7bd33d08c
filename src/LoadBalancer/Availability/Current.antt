-- ===== src/LoadBalancer/Availability/Current.antt =====
-- No watcher misses a change of the availability.
use meridio.Base.{
  ℕ, zero, suc, ◌≡◌, refl, ◌⊎◌, inl, inr, ap, ◌∙◌, Bool, true, false, not, Option, none, some,
  String, List, [], ◌∷◌, ◌==◌, Eq, string_eq, arith, All, All-append, Bool-cases, Option-cases,
  List-cases, eq→≡, keep_if,
}
use meridio.LoadBalancer.Availability.{
  Phase, reading, sending, selecting, Watcher, Service, new_service, get_target, queue_all,
  register_in, register, unregister_in, unregister, stop, watch, next, cons_option, advance, leave,
}

pub data Event : Type 0 where
  registers unregisters : String → Event
  stops watches : Event
  advances : ℕ → Bool → Event
  leaves : ℕ → Event

module _ {T : Type 0} ⦃e : Eq T⦄ where
  pub step : Event → Service T → Service T
  step (registers name) s = register name s
  step (unregisters name) s = unregister name s
  step stops s = stop s
  step watches s = watch s
  step (advances i sent) s = record s {
    watch_stream = advance (get_target s) sent i s.watch_stream;
  }
  step (leaves i) s = record s { watch_stream = leave i s.watch_stream }

  pub run : List Event → Service T → Service T
  run [] s = s
  run (v ∷ vs) s = run vs (step v s)

  -- The target that a watcher has told its client, or is about to.
  abbrev pub Holds : T → Watcher T → Phase T → Type 0
  Holds now w reading = Unit
  Holds now w (sending t) = t ≡ now
  Holds now w selecting = w.last_sent_target ≡ some now

  -- An event waits for the watcher, or its client is up to date when it reaches `select`.
  abbrev pub IsCurrent : T → Watcher T → Type 0
  IsCurrent now w = (w.queued ≡ true) ⊎ Holds now w w.phase

  queue_all-IsCurrent : (now : T) (ws : List (Watcher T)) → All (IsCurrent now) (queue_all ws)
  unfolding queue_all
  queue_all-IsCurrent now [] = tt
  queue_all-IsCurrent now (w ∷ ws) = (inl refl, queue_all-IsCurrent now ws)

  leave-IsCurrent :
      (now : T) (i : ℕ) (ws : List (Watcher T))
      → All (IsCurrent now) ws
      → All (IsCurrent now) (leave i ws)
  unfolding leave
  leave-IsCurrent now i [] h = tt
  leave-IsCurrent now zero (w ∷ ws) h = h.1
  leave-IsCurrent now (suc i) (w ∷ ws) h = (h.0, leave-IsCurrent now i ws h.1)

  abbrev Next : T → Option (Watcher T) → Type 0
  Next now none = Unit
  Next now (some w) = IsCurrent now w

  next-IsCurrent :
      (now : T) (sent q : Bool) (last : Option T) (p : Phase T)
      → IsCurrent now (record { queued = q; last_sent_target = last; phase = p })
      → Next now (next now sent (record { queued = q; last_sent_target = last; phase = p }))
  unfolding next
  next-IsCurrent now sent q last reading h = inr refl
  next-IsCurrent now sent true last selecting h = inr tt
  next-IsCurrent now sent false last selecting h = h
  next-IsCurrent now true q none (sending t) (inl h) = inl h
  next-IsCurrent now true q none (sending t) (inr h) = inr (ap some h)
  next-IsCurrent now false q none (sending t) h = tt
  next-IsCurrent now true q (some last) (sending t) h = elim (Bool-cases (last == t)) [
    | inl same ↦ rw same (elim h [ inl e ↦ inl e | inr e ↦ inr (ap some (eq→≡ last t same ∙ e)) ])
    | inr differ ↦ rw differ (elim h [ inl e ↦ inl e | inr e ↦ inr (ap some e) ])
  ]
  next-IsCurrent now false q (some last) (sending t) h = elim (Bool-cases (last == t)) [
    | inl same ↦ rw same (elim h [ inl e ↦ inl e | inr e ↦ inr (ap some (eq→≡ last t same ∙ e)) ])
    | inr differ ↦ rw differ tt
  ]

  cons_option-IsCurrent :
      (now : T) (o : Option (Watcher T)) (ws : List (Watcher T))
      → Next now o
      → All (IsCurrent now) ws
      → All (IsCurrent now) (cons_option o ws)
  cons_option-IsCurrent now none ws n h = h
  cons_option-IsCurrent now (some w) ws n h = (n, h)

  advance-IsCurrent :
      (now : T) (sent : Bool) (i : ℕ) (ws : List (Watcher T))
      → All (IsCurrent now) ws
      → All (IsCurrent now) (advance now sent i ws)
  unfolding advance
  advance-IsCurrent now sent i [] h = tt
  advance-IsCurrent now sent zero (w ∷ ws) h =
      cons_option-IsCurrent now (next now sent w) ws
        (next-IsCurrent now sent w.queued w.last_sent_target w.phase h.0) h.1
  advance-IsCurrent now sent (suc i) (w ∷ ws) h = (h.0, advance-IsCurrent now sent i ws h.1)

  abbrev pub AreCurrent : Service T → Type 0
  AreCurrent s = All (IsCurrent (get_target s)) s.watch_stream

  same-AreCurrent :
      (s s' : Service T)
      → get_target s' ≡ get_target s
      → s'.watch_stream ≡ s.watch_stream
      → AreCurrent s
      → AreCurrent s'
  same-AreCurrent s s' e f h = rw f (rw e h)

  told-AreCurrent :
      (s' : Service T) (ws : List (Watcher T)) → s'.watch_stream ≡ queue_all ws → AreCurrent s'
  told-AreCurrent s' ws e = rw e (queue_all-IsCurrent (get_target s') ws)

  register-AreCurrent :
      (name : String) (s : Service T) → AreCurrent s → AreCurrent (register name s)
  unfolding register register_in
  register-AreCurrent name s h = elim (Option-cases s.forwarding_plane) [
    | inl e ↦ same-AreCurrent s (register name s) (ground (arith, e)) (ground (arith, e)) h
    | inr (plane, e) ↦ elim (List-cases plane) [
      | inl f ↦ told-AreCurrent (register name s) s.watch_stream (ground (arith, e, f))
      | inr (n, ns, f) ↦
          same-AreCurrent s (register name s) (ground (arith, e, f)) (ground (arith, e, f)) h
    ]
  ]

  unregister-AreCurrent :
      (name : String) (s : Service T) → AreCurrent s → AreCurrent (unregister name s)
  unfolding unregister unregister_in
  unregister-AreCurrent name s h = elim (Option-cases s.forwarding_plane) [
    | inl e ↦ same-AreCurrent s (unregister name s) (ground (arith, e)) (ground (arith, e)) h
    | inr (plane, e) ↦ elim (List-cases (keep_if (λ n. not (name == n)) plane)) [
      | inl f ↦ told-AreCurrent (unregister name s) s.watch_stream (ground (arith, e, f))
      | inr (n, ns, f) ↦ elim (List-cases plane) [
        | inl g ↦ absurd (ground (arith, f, g))
        | inr (m, ms, g) ↦
            same-AreCurrent s (unregister name s) (ground (arith, e, f, g))
              (ground (arith, e, f, g)) h
      ]
    ]
  ]

  stop-AreCurrent : (s : Service T) → AreCurrent s → AreCurrent (stop s)
  unfolding stop
  stop-AreCurrent s h = elim (Option-cases s.forwarding_plane) [
    | inl e ↦ same-AreCurrent s (stop s) (ground (arith, e)) (ground (arith, e)) h
    | inr (plane, e) ↦ told-AreCurrent (stop s) s.watch_stream (ground (arith, e))
  ]

  step-AreCurrent : (v : Event) (s : Service T) → AreCurrent s → AreCurrent (step v s)
  unfolding step
  step-AreCurrent (registers name) s h = register-AreCurrent name s h
  step-AreCurrent (unregisters name) s h = unregister-AreCurrent name s h
  step-AreCurrent stops s h = stop-AreCurrent s h
  step-AreCurrent watches s h = All-append _ s.watch_stream _ h (inr tt, tt)
  step-AreCurrent (advances i sent) s h = advance-IsCurrent (get_target s) sent i s.watch_stream h
  step-AreCurrent (leaves i) s h = leave-IsCurrent (get_target s) i s.watch_stream h

  run-AreCurrent : (vs : List Event) (s : Service T) → AreCurrent s → AreCurrent (run vs s)
  unfolding run
  run-AreCurrent [] s h = h
  run-AreCurrent (v ∷ vs) s h = run-AreCurrent vs (step v s) (step-AreCurrent v s h)

  -- After any events of the service, in any order, a watcher either has an event in its channel, or
  -- has read nothing yet since it was woken, or holds the target as it is now: it is about to send
  -- it, or it was the last one sent to its client.
  pub run-IsCurrent :
      (target unavailable_target : T) (vs : List Event)
      → All
          (IsCurrent (get_target (run vs (new_service target unavailable_target))))
          (run vs (new_service target unavailable_target)).watch_stream
  run-IsCurrent target unavailable_target vs =
      run-AreCurrent vs (new_service target unavailable_target) tt
