-- ===== src/Nsp/KeepAlive.antt =====
-- pkg/nsp/registry/keepalive/keepalive.go: the middleware that removes targets which are not
-- refreshed, over any target registry. The lock makes each method one step. A context is a number,
-- a goroutine of `timeout` a Timer: when its timeout is over it may still go on although it has been
-- cancelled, since it waits for the lock.
pub mod Guarded
pub mod Expires
pub mod Entries
pub mod History
pub mod Tests
use meridio.Base.{
  ℕ, zero, suc, ◌+◌, Bool, true, false, Option, none, some, String, List, [], ◌∷◌, ◌++◌, ◌==◌,
  string_eq, nat_eq, if◌then◌else◌,
}
use meridio.Base.Dict.{Dict, is_some, lookup, insert, erase}
use meridio.Nsp.{Status, TargetType, Target}
use meridio.Nsp.Sqlite.{get_target_id}

-- `types.TargetRegistry`. The Bool is whether there is no error.
pub record TargetRegistry : Type 1 where
  pub State : Type 0
  pub set : Target → State → State × Bool
  pub remove : Target → State → State × Bool
  pub get : Option Target → State → Option (List Target)

-- `keepAliveTarget`
pub record KeepAliveTarget : Type 0 where
  pub context : ℕ
  pub target : Target

-- The goroutine that `add` starts.
pub record Timer : Type 0 where
  pub context : ℕ
  pub target : Target
  pub cancelled : Bool

-- `contextCancel`
abbrev pub cancel_timer : ℕ → Timer → Timer
cancel_timer context t = if t.context == context then record t { cancelled = true } else t

unfoldable pub cancel : ℕ → List Timer → List Timer
cancel context [] = []
cancel context (t ∷ ts) = cancel_timer context t ∷ cancel context ts

-- The timers, with that of a target held before cancelled.
abbrev pub cancel_held : Option KeepAliveTarget → List Timer → List Timer
cancel_held none ts = ts
cancel_held (some held) ts = cancel held.context ts

-- A target that is not held cannot be set as enabled.
abbrev pub admitted : Bool → Target → Target
admitted exists target = if exists then target else record target { status = Status.disabled }

-- The timer at a position, and the others.
abbrev pub without : ℕ → List Timer → List Timer
without i [] = []
without zero (t ∷ ts) = ts
without (suc i) (t ∷ ts) = t ∷ without i ts

abbrev pub timer_at : ℕ → List Timer → Option Timer
timer_at i [] = none
timer_at zero (t ∷ ts) = some t
timer_at (suc i) (t ∷ ts) = timer_at i ts

-- What `restore` asks for.
abbrev pub any_of : TargetType → Target
any_of kind = record { ips = []; context = []; status = Status.any; kind = kind; stream = none }

module _ (R : TargetRegistry) where
  -- `KeepAlive`
  pub record KeepAlive : Type 0 where
    pub target_registry : Option R.State
    pub targets : Dict String KeepAliveTarget
    pub timers : List Timer
    pub next_context : ℕ

  -- `add`
  unfoldable pub add : Target → KeepAlive → KeepAlive
  add target ka = record ka {
    targets =
        insert (get_target_id target) (record { context = ka.next_context; target = target })
          ka.targets;
    timers =
        cancel_held (lookup (get_target_id target) ka.targets) ka.timers
        ++ record { context = ka.next_context; target = target; cancelled = false } ∷ [];
    next_context = suc ka.next_context;
  }

  -- `Set`
  unfoldable pub set : Target → KeepAlive → KeepAlive × Bool
  unfolding add
  set target ka =
      let t = admitted (is_some (lookup (get_target_id target) ka.targets)) target in
      elim ka.target_registry [
        | none ↦ (add t ka, true)
        | some r ↦
            let (r', done) = R.set t r in
            let ka' = record ka { target_registry = some r' } in
            if done then (add t ka', true) else (ka', false)
      ]

  -- `remove`, and `Remove`.
  unfoldable pub remove : Target → KeepAlive → KeepAlive × Bool
  remove target ka =
      let ka' = record ka { targets = erase (get_target_id target) ka.targets } in
      elim ka.target_registry [
        | none ↦ (ka', true)
        | some r ↦
            let (r', done) = R.remove target r in (record ka' { target_registry = some r' }, done)
      ]

  -- `timeout`, when its time is over.
  unfoldable pub timeout : ℕ → Target → KeepAlive → KeepAlive
  unfolding remove
  timeout context target ka = elim (lookup (get_target_id target) ka.targets) [
    | none ↦ ka
    | some held ↦ if held.context == context then (remove target ka).0 else ka
  ]

  -- `Get`, without a registry too.
  unfoldable pub get : Option Target → KeepAlive → Option (List Target)
  get target ka = elim ka.target_registry [ none ↦ some [] | some r ↦ R.get target r ]

  -- The loop of `restore`.
  unfoldable pub add_all : List Target → KeepAlive → KeepAlive
  add_all [] ka = ka
  add_all (t ∷ ts) ka = add_all ts (add t ka)

  -- `restore`; `none` is its error.
  unfoldable pub restore : KeepAlive → Option KeepAlive
  unfolding get add_all
  restore ka = elim (get (some (any_of TargetType.default)) ka) [
    | none ↦ none
    | some default_targets ↦ elim (get (some (any_of TargetType.frontend)) ka) [
      | none ↦ none
      | some frontend_targets ↦ some (add_all (default_targets ++ frontend_targets) ka)
    ]
  ]

  -- `New`
  unfoldable pub new : Option R.State → Option KeepAlive
  unfolding restore
  new registry =
      restore (record { target_registry = registry; targets = []; timers = []; next_context = 0 })

  -- The timer at the position fires: it ends, after `timeout`.
  unfoldable pub fire : ℕ → KeepAlive → KeepAlive
  unfolding timeout
  fire i ka = elim (timer_at i ka.timers) [
    | none ↦ ka
    | some t ↦ timeout t.context t.target (record ka { timers = without i ka.timers })
  ]

  -- The timer at the position ends because it has been cancelled.
  abbrev pub end_cancelled : ℕ → KeepAlive → KeepAlive
  end_cancelled i ka = elim (timer_at i ka.timers) [
    | none ↦ ka
    | some t ↦ if t.cancelled then record ka { timers = without i ka.timers } else ka
  ]

  -- What may happen, in any order.
  pub data Event : Type 0 where
    set_called remove_called : Target → Event
    fired cancelled : ℕ → Event

  unfoldable pub step : Event → KeepAlive → KeepAlive
  unfolding set remove fire
  step (Event.set_called t) ka = (set t ka).0
  step (Event.remove_called t) ka = (remove t ka).0
  step (Event.fired i) ka = fire i ka
  step (Event.cancelled i) ka = end_cancelled i ka

  unfoldable pub run : List Event → KeepAlive → KeepAlive
  unfolding step
  run [] ka = ka
  run (e ∷ es) ka = run es (step e ka)
