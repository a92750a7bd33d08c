-- ===== src/Nsp/Memory.antt =====
-- pkg/nsp/registry/memory/memory.go: the registry of targets in memory. The mutex makes each
-- method one step. `Set` writes into the target that is held; the lists in the channels hold the
-- same targets, and the same step replaces them. The map of watchers is a list.
pub mod Fresh
pub mod Stored
use meridio.Base.{
  ℕ, zero, suc, Bool, true, false, not, ◌&&◌, Option, none, some, String, List, [], ◌∷◌, ◌++◌, ◌==◌,
  string_eq, nat_eq, if◌then◌else◌, length, contains, take, drop,
}
use meridio.Nsp.{Stream, TargetType, Target, type_eq, stream_equals}
use meridio.Nsp.Registry.{RegistryWatcher, new_registry_watcher, notify, filter}

-- `targetKey`
pub record TargetKey : Type 0 where
  pub ips : List String
  pub stream : Option Stream
  pub kind : TargetType

-- `TargetRegistryMemory`
pub record TargetRegistry : Type 0 where
  pub targets : List Target
  pub watchers : List RegistryWatcher

-- The loop of `CompareIps` over the second list.
abbrev pub all_in : List String → List String → Bool
all_in ips1 [] = true
all_in ips1 (ip ∷ ips2) = contains ips1 ip && all_in ips1 ips2

-- `CompareIps`
unfoldable pub compare_ips : List String → List String → Bool
compare_ips ips1 ips2 = length ips1 == length ips2 && all_in ips1 ips2

abbrev pub same_stream : Option Stream → Option Stream → Bool
same_stream none s2 = true
same_stream (some s) none = true
same_stream (some s) (some s2) = stream_equals (some s) (some s2)

-- `(tk *targetKey) Equals`
unfoldable pub key_equals : TargetKey → TargetKey → Bool
key_equals tk tk2 =
    compare_ips tk.ips tk2.ips && same_stream tk.stream tk2.stream && tk.kind == tk2.kind

-- `getTargetKey`
abbrev pub get_target_key : Target → TargetKey
get_target_key t = record { ips = t.ips; stream = t.stream; kind = t.kind }

-- `getIndex`; `none` is -1.
unfoldable pub get_index : Target → List Target → Option ℕ
get_index target [] = none
get_index target (t ∷ ts) =
    let rest = get_index target ts in
    if key_equals (get_target_key target) (get_target_key t)
    then some 0
    else elim rest [ none ↦ none | some i ↦ some (suc i) ]

-- The loop of `notifyAllWatchers`: watchers that are stopped are taken out.
unfoldable pub notify_all : List Target → List RegistryWatcher → List RegistryWatcher
notify_all targets [] = []
notify_all targets (w ∷ ws) =
    let rest = notify_all targets ws in if w.stopped then rest else notify w targets ∷ rest

-- The registry with other targets, and its watchers told.
abbrev pub changed : List Target → TargetRegistry → TargetRegistry
changed targets trm = record { targets = targets; watchers = notify_all targets trm.watchers }

-- The update of `Set` at the index.
unfoldable pub refresh_at : ℕ → Target → List Target → List Target
refresh_at i target [] = []
refresh_at zero target (t ∷ ts) = record t { context = target.context; status = target.status } ∷ ts
refresh_at (suc i) target (t ∷ ts) = t ∷ refresh_at i target ts

-- `Set`
unfoldable pub set : Target → TargetRegistry → TargetRegistry
set target trm = elim (get_index target trm.targets) [
  | none ↦ changed (trm.targets ++ target ∷ []) trm
  | some index ↦ changed (refresh_at index target trm.targets) trm
]

-- `Remove`
unfoldable pub remove : Target → TargetRegistry → TargetRegistry
remove target trm = elim (get_index target trm.targets) [
  | none ↦ trm
  | some index ↦ changed (take index trm.targets ++ drop (suc index) trm.targets) trm
]

-- `Watch`
unfoldable pub watch : Option Target → TargetRegistry → TargetRegistry
watch target trm = record trm {
  watchers = trm.watchers ++ notify (new_registry_watcher target) trm.targets ∷ [];
}

-- `Get`
abbrev pub get : Option Target → TargetRegistry → List Target
get target trm = filter target trm.targets
