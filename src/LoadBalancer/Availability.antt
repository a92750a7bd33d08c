-- ===== src/LoadBalancer/Availability.antt =====
-- pkg/loadbalancer/stream/availability.go: which streams can forward, and the watchers that are
-- told whether there is one. Register, Unregister and the reading of the target hold the lock and
-- are one step each; a watcher takes its steps between them in any order. The context of the
-- service is not done, and `Stop` is one step with the messages that it sends.
pub mod Current
pub mod Paths
use meridio.Base.{
  ℕ, zero, suc, Bool, true, false, not, ◌||◌, Option, none, some, String, List, [], ◌∷◌, ◌++◌, ◌==◌,
  Eq, string_eq, if◌then◌else◌, contains, keep_if,
}

-- Where a watcher is in `Watch`: before `getTarget`, with its result before `Send`, or at `select`.
pub data Phase (T : Type 0) : Type 0 where
  reading : Phase T
  sending : T → Phase T
  selecting : Phase T

-- `updateCh`, a channel of one element, holds an event or not; `lastSentTarget` as an Option.
pub record Watcher (T : Type 0) : Type 0 where
  pub queued : Bool
  pub last_sent_target : Option T
  pub phase : Phase T

-- `ForwardingAvailabilityService`; the set of paths is nil after `Stop`.
pub record Service (T : Type 0) : Type 0 where
  pub forwarding_plane : Option (List String)
  pub target : T
  pub unavailable_target : T
  pub watch_stream : List (Watcher T)

module _ {T : Type 0} ⦃e : Eq T⦄ where
  -- `NewForwardingAvailabilityService`
  abbrev pub new_service : T → T → Service T
  new_service target unavailable_target = record {
    forwarding_plane = some [];
    target = target;
    unavailable_target = unavailable_target;
    watch_stream = [];
  }

  abbrev pub target_of : Service T → Option (List String) → T
  target_of s none = s.unavailable_target
  target_of s (some []) = s.unavailable_target
  target_of s (some (_ ∷ _)) = s.target

  -- `coreGetTarget`
  abbrev pub get_target : Service T → T
  get_target s = target_of s s.forwarding_plane

  -- `update`: an event for every watcher, unless its channel is full.
  unfoldable pub queue_all : List (Watcher T) → List (Watcher T)
  queue_all [] = []
  queue_all (w ∷ ws) = record w { queued = true } ∷ queue_all ws

  abbrev pub update : Service T → Service T
  update s = record s { watch_stream = queue_all s.watch_stream }

  -- `Register`, on the set of paths that is not nil.
  unfoldable pub register_in : String → List String → Service T → Service T
  register_in name [] s = record (update s) { forwarding_plane = some (name ∷ []) }
  register_in name (n ∷ ns) s =
      if contains (n ∷ ns) name then s else record s { forwarding_plane = some (name ∷ n ∷ ns) }

  -- `Register`
  unfoldable pub register : String → Service T → Service T
  unfolding register_in
  register name s = elim s.forwarding_plane [ none ↦ s | some plane ↦ register_in name plane s ]

  -- `Unregister`, with the set of paths after the `delete`.
  unfoldable pub unregister_in : List String → Service T → Service T
  unregister_in [] s = record (update s) { forwarding_plane = some [] }
  unregister_in (n ∷ ns) s = record s { forwarding_plane = some (n ∷ ns) }

  -- `Unregister`
  unfoldable pub unregister : String → Service T → Service T
  unfolding unregister_in
  unregister name s = elim s.forwarding_plane [
    | none ↦ s
    | some plane ↦ unregister_in (keep_if (λ n. not (name == n)) plane) s
  ]

  -- `Stop`
  unfoldable pub stop : Service T → Service T
  stop s = elim s.forwarding_plane [
    | none ↦ s
    | some _ ↦ record (update s) { forwarding_plane = none }
  ]

  -- The start of `Watch`: the channel is empty, and the target is read next.
  abbrev pub watch : Service T → Service T
  watch s = record s {
    watch_stream =
        s.watch_stream
        ++ record { queued = false; last_sent_target = none; phase = Phase.reading } ∷ [];
  }

  -- What a watcher does next: with the target as it is now, and whether its `Send` succeeds.
  -- `none`: `Watch` returns on the error.
  unfoldable pub next : T → Bool → Watcher T → Option (Watcher T)
  next now sent w = elim w.phase [
    | reading ↦ some (record w { phase = sending now })
    | sending t ↦
        if (elim w.last_sent_target [ none ↦ false | some last ↦ last == t ])
        then some (record w { phase = selecting })
        else if sent
        then some (record w { phase = selecting; last_sent_target = some t })
        else none
    | selecting ↦ some (if w.queued then record w { queued = false; phase = reading } else w)
  ]

  abbrev pub cons_option : Option (Watcher T) → List (Watcher T) → List (Watcher T)
  cons_option none ws = ws
  cons_option (some w) ws = w ∷ ws

  -- The watcher at the position takes its next step.
  unfoldable pub advance : T → Bool → ℕ → List (Watcher T) → List (Watcher T)
  unfolding next
  advance now sent i [] = []
  advance now sent zero (w ∷ ws) = cons_option (next now sent w) ws
  advance now sent (suc i) (w ∷ ws) = w ∷ advance now sent i ws

  -- The watcher at the position is done: its context is.
  unfoldable pub leave : ℕ → List (Watcher T) → List (Watcher T)
  leave i [] = []
  leave zero (w ∷ ws) = ws
  leave (suc i) (w ∷ ws) = w ∷ leave i ws
