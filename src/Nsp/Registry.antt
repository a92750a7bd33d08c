-- ===== src/Nsp/Registry.antt =====
-- pkg/nsp/registry/common: the filter of a watcher, and its channel of one element.
use meridio.Base.{Bool, true, false, Option, none, some, List, keep_if}
use meridio.Nsp.{Target, target_filter}

-- `Filter`
unfoldable pub filter : Option Target → List Target → List Target
filter none targets = targets
filter (some target) targets = keep_if (λ t. target_filter (some target) (some t)) targets

-- `RegistryWatcher`; the channel holds `channelBufferSize` = 1 element at most.
pub record RegistryWatcher : Type 0 where
  pub target_selector : Option Target
  pub c : Option (List Target)
  pub stopped : Bool

-- `NewRegistryWatcher`
abbrev pub new_registry_watcher : Option Target → RegistryWatcher
new_registry_watcher target = record { target_selector = target; c = none; stopped = false }

-- `Stop`
abbrev pub stop : RegistryWatcher → RegistryWatcher
stop rw = record rw { stopped = true }

-- `Notify`: what the channel holds is dropped for the new list.
unfoldable pub notify : RegistryWatcher → List Target → RegistryWatcher
notify rw targets = elim rw.stopped [
  | true ↦ rw
  | false ↦ record rw { c = some (filter rw.target_selector targets) }
]
