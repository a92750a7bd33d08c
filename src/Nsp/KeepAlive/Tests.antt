-- ===== src/Nsp/KeepAlive/Tests.antt =====
-- The middleware over a registry that is a map, and rows of targets.
use meridio.Base.{ℕ, ◌≡◌, refl, true, none, some, List, [], ◌∷◌, string_eq, nat_eq}
use meridio.Base.Dict.{lookup, insert, erase, values}
use meridio.Base.Strconv.{itoa}
use meridio.Nsp.{Status, TargetType, Target}
use meridio.Nsp.Registry.{filter}
use meridio.Nsp.Sqlite.{get_target_id, serialize_ips}
use meridio.Nsp.KeepAlive.{TargetRegistry, Event, set_called, fired, KeepAliveTarget, timer_at}
use meridio.Nsp.KeepAlive
use meridio.Nsp.KeepAlive.Guarded.{timer_of}
use meridio.Nsp.KeepAlive.Expires.{run-expires}
use meridio.Nsp.KeepAlive.Entries.{Entries}
use meridio.Nsp.KeepAlive.History.{Call, calls, logged}

abbrev registry : TargetRegistry
registry = record {
  State = Entries;
  set = λ t es. (insert (get_target_id t) t es, true);
  remove = λ t es. (erase (get_target_id t) es, true);
  get = λ selector es. some (filter selector (values es));
}

abbrev target : Target
target = record {
  ips = "10.0.0.1" ∷ "fd00::1" ∷ [];
  context = ("identifier", "7") ∷ [];
  status = Status.enabled;
  kind = TargetType.default;
  stream = some (record {
    name = "s";
    conduit = some (record { name = "c"; trench = some (record { name = "t" }) });
  });
}

abbrev empty : KeepAlive.KeepAlive registry
empty = record { target_registry = some []; targets = []; timers = []; next_context = 0 }

starts : KeepAlive.new registry (some []) ≡ some empty
unfolding KeepAlive.new filter
starts = refl

-- Set twice: the second time it may be enabled.
abbrev twice : List (Event registry)
twice = set_called target ∷ set_called target ∷ []

abbrev second : KeepAliveTarget
second = record { context = 1; target = target }

held : lookup (get_target_id target) (KeepAlive.run registry twice empty).targets ≡ some second
unfolding KeepAlive.run lookup insert get_target_id serialize_ips itoa string_eq nat_eq
held = refl

run-expires_example :
    (i : ℕ) × (timer_at i (KeepAlive.run registry twice empty).timers ≡ some (timer_of second))
    × (lookup
          (get_target_id target)
          (KeepAlive.fire registry i (KeepAlive.run registry twice empty)).targets
        ≡ none)
run-expires_example = run-expires registry (some []) starts twice (get_target_id target) second held

abbrev started : KeepAlive.KeepAlive (logged registry)
started = record { target_registry = some ([], []); targets = []; timers = []; next_context = 0 }

abbrev once : List (Event (logged registry))
once = set_called target ∷ []

-- The first call is handed on as disabled, and the second as it is.
two_calls :
    calls registry
      (KeepAlive.set (logged registry) target (KeepAlive.run (logged registry) once started)).0
    ≡ Call.stored target ∷ Call.stored (record target { status = Status.disabled }) ∷ []
unfolding KeepAlive.set KeepAlive.run lookup insert get_target_id serialize_ips itoa string_eq
    nat_eq
two_calls = refl
