-- ===== src/Nsp/Memory/Fresh.antt =====
-- A watcher of the registry never finds an old list in its channel.
use meridio.Base.{
  ℕ, zero, suc, ◌≡◌, refl, ◌⊎◌, inl, inr, subst, Bool, true, false, Option, none, some, List, [],
  ◌∷◌, ◌++◌, arith, All, All-append, Bool-cases, Option-cases, take, drop,
}
use meridio.Nsp.{Target}
use meridio.Nsp.Registry.{RegistryWatcher, notify, filter, stop}
use meridio.Nsp.Memory.{
  TargetRegistry, get_index, notify_all, refresh_at, changed, set, remove, watch,
}

pub data Event : Type 0 where
  sets removes : Target → Event
  watches : Option Target → Event
  receives stops : ℕ → Event

-- The watcher at the position, changed.
pub at : (RegistryWatcher → RegistryWatcher) → ℕ → List RegistryWatcher → List RegistryWatcher
at f i [] = []
at f zero (w ∷ ws) = f w ∷ ws
at f (suc i) (w ∷ ws) = w ∷ at f i ws

-- The client takes the list out of the channel.
abbrev pub receive : RegistryWatcher → RegistryWatcher
receive w = record w { c = none }

pub step : Event → TargetRegistry → TargetRegistry
unfolding at
step (sets target) trm = set target trm
step (removes target) trm = remove target trm
step (watches target) trm = watch target trm
step (receives i) trm = record trm { watchers = at receive i trm.watchers }
step (stops i) trm = record trm { watchers = at stop i trm.watchers }

pub run : List Event → TargetRegistry → TargetRegistry
run [] trm = trm
run (v ∷ vs) trm = run vs (step v trm)

-- A watcher is stopped, or has received its list, or the list is its selection of the targets.
abbrev pub IsFresh : List Target → RegistryWatcher → Type 0
IsFresh targets w =
    (w.stopped ≡ true) ⊎ (w.c ≡ none) ⊎ (w.c ≡ some (filter w.target_selector targets))

abbrev pub AreFresh : TargetRegistry → Type 0
AreFresh trm = All (IsFresh trm.targets) trm.watchers

fields-IsFresh :
    (targets : List Target) (sel : Option Target) (c : Option (List Target)) (stopped : Bool)
    → IsFresh targets (notify (record { target_selector = sel; c = c; stopped = stopped }) targets)
unfolding notify
fields-IsFresh targets sel c true = inl refl
fields-IsFresh targets sel c false = inr (inr refl)

notify-IsFresh : (targets : List Target) (w : RegistryWatcher) → IsFresh targets (notify w targets)
notify-IsFresh targets w = fields-IsFresh targets w.target_selector w.c w.stopped

notify_all-IsFresh :
    (targets : List Target) (ws : List RegistryWatcher)
    → All (IsFresh targets) (notify_all targets ws)
unfolding notify_all
notify_all-IsFresh targets [] = tt
notify_all-IsFresh targets (w ∷ ws) = elim (Bool-cases w.stopped) [
  | inl e ↦
      subst (All (IsFresh targets)) {x = notify_all targets ws} {y = notify_all targets (w ∷ ws)}
        (ground (arith, e)) (notify_all-IsFresh targets ws)
  | inr e ↦
      subst (All (IsFresh targets)) {x = notify w targets ∷ notify_all targets ws}
        {y = notify_all targets (w ∷ ws)} (ground (arith, e))
        (notify-IsFresh targets w, notify_all-IsFresh targets ws)
]

at-IsFresh :
    (f : RegistryWatcher → RegistryWatcher) (targets : List Target)
    → ((w : RegistryWatcher) → IsFresh targets w → IsFresh targets (f w))
    → (i : ℕ) (ws : List RegistryWatcher) → All (IsFresh targets) ws
    → All (IsFresh targets) (at f i ws)
unfolding at
at-IsFresh f targets k i [] h = tt
at-IsFresh f targets k zero (w ∷ ws) h = (k w h.0, h.1)
at-IsFresh f targets k (suc i) (w ∷ ws) h = (h.0, at-IsFresh f targets k i ws h.1)

changed-AreFresh : (targets : List Target) (trm : TargetRegistry) → AreFresh (changed targets trm)
changed-AreFresh targets trm = notify_all-IsFresh targets trm.watchers

step-AreFresh : (v : Event) (trm : TargetRegistry) → AreFresh trm → AreFresh (step v trm)
unfolding step set remove watch
step-AreFresh (sets target) trm h = elim (Option-cases (get_index target trm.targets)) [
  | inl e ↦
      subst AreFresh {x = changed (trm.targets ++ target ∷ []) trm} {y = set target trm}
        (ground (arith, e)) (changed-AreFresh (trm.targets ++ target ∷ []) trm)
  | inr (i, e) ↦
      subst AreFresh {x = changed (refresh_at i target trm.targets) trm} {y = set target trm}
        (ground (arith, e)) (changed-AreFresh (refresh_at i target trm.targets) trm)
]
step-AreFresh (removes target) trm h = elim (Option-cases (get_index target trm.targets)) [
  | inl e ↦ subst AreFresh {x = trm} {y = remove target trm} (ground (arith, e)) h
  | inr (i, e) ↦
      let targets = take i trm.targets ++ drop (suc i) trm.targets in
      subst AreFresh {x = changed targets trm} {y = remove target trm} (ground (arith, e))
        (changed-AreFresh targets trm)
]
step-AreFresh (watches target) trm h =
    All-append _ trm.watchers _ h (notify-IsFresh trm.targets _, tt)
step-AreFresh (receives i) trm h =
    at-IsFresh receive trm.targets (λ w _. inr (inl refl)) i trm.watchers h
step-AreFresh (stops i) trm h = at-IsFresh stop trm.targets (λ w _. inl refl) i trm.watchers h

run-AreFresh : (vs : List Event) (trm : TargetRegistry) → AreFresh trm → AreFresh (run vs trm)
unfolding run
run-AreFresh [] trm h = h
run-AreFresh (v ∷ vs) trm h = run-AreFresh vs (step v trm) (step-AreFresh v trm h)

-- From an empty registry, after any calls and any reading of the channels: the list that waits for
-- a watcher that is not stopped is what its selector selects of the targets as they are now.
pub run-IsFresh :
    (vs : List Event)
    → All
        (IsFresh (run vs (record { targets = []; watchers = [] })).targets)
        (run vs (record { targets = []; watchers = [] })).watchers
run-IsFresh vs = run-AreFresh vs (record { targets = []; watchers = [] }) tt
