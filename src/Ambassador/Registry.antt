-- ===== src/Ambassador/Registry.antt =====
-- pkg/ambassador/tap/stream/registry: the status of each stream that a pod has asked for, and those
-- who watch it. The mutex makes each method one step; the map of watchers is a list.
pub mod Refines
pub mod Tests
use meridio.Base.{
  Bool, true, false, Option, none, some, List, [], ◌∷◌, ◌++◌, keep_if, if◌then◌else◌,
}
use meridio.Ambassador.Messages.{Stream, stream_equals, stream_filter}

-- `StreamStatus_Status`; `opened` is OPEN.
pub data Status : Type 0 where
  opened pending unavailable undefined : Status

pub record StreamStatus : Type 0 where
  pub status : Status
  pub stream : Option Stream

-- `RegistryWatcher`; the channel holds `channelBufferSize` = 1 element at most.
pub record RegistryWatcher : Type 0 where
  pub stream_selector : Option Stream
  pub c : Option (List StreamStatus)
  pub stopped : Bool

pub record Registry : Type 0 where
  pub streams : List StreamStatus
  pub watchers : List RegistryWatcher

-- `Filter`
unfoldable pub filter : Option Stream → List StreamStatus → List StreamStatus
filter none streams = streams
filter (some stream) streams = keep_if (λ s. stream_filter (some stream) s.stream) streams

-- `NewRegistryWatcher`
abbrev pub new_registry_watcher : Option Stream → RegistryWatcher
new_registry_watcher stream = record { stream_selector = stream; c = none; stopped = false }

-- `Stop`
abbrev pub stop : RegistryWatcher → RegistryWatcher
stop rw = record rw { stopped = true }

-- `Notify`: what the channel holds is dropped for the new list.
unfoldable pub notify : RegistryWatcher → List StreamStatus → RegistryWatcher
notify rw streams = elim rw.stopped [
  | true ↦ rw
  | false ↦ record rw { c = some (filter rw.stream_selector streams) }
]

-- `notifyAllWatchers`: a watcher that is stopped is taken out.
unfoldable pub notify_all : List StreamStatus → List RegistryWatcher → List RegistryWatcher
notify_all streams [] = []
notify_all streams (w ∷ ws) =
    let rest = notify_all streams ws in if w.stopped then rest else notify w streams ∷ rest

abbrev pub changed : List StreamStatus → Registry → Registry
changed streams r = record { streams = streams; watchers = notify_all streams r.watchers }

-- `New`
abbrev pub new : Registry
new = record { streams = []; watchers = [] }

-- The update of `SetStatus`: the first entry of the stream, which is appended if there is none.
unfoldable pub put : Option Stream → Status → List StreamStatus → List StreamStatus
put stream v [] = record { status = v; stream = stream } ∷ []
put stream v (s ∷ ss) =
    let rest = put stream v ss in
    if stream_equals stream s.stream then record s { status = v } ∷ ss else s ∷ rest

-- `SetStatus`
unfoldable pub set_status : Option Stream → Status → Registry → Registry
set_status stream v r = changed (put stream v r.streams) r

-- The search of `Remove` for the first entry of the stream, which it cuts out.
unfoldable pub cut : Option Stream → List StreamStatus → Option (List StreamStatus)
cut stream [] = none
cut stream (s ∷ ss) =
    let rest = cut stream ss in
    if stream_equals stream s.stream
    then some ss
    else elim rest [ none ↦ none | some left ↦ some (s ∷ left) ]

-- `Remove`
unfoldable pub remove : Option Stream → Registry → Registry
remove stream r = elim (cut stream r.streams) [ none ↦ r | some left ↦ changed left r ]

-- `Watch`
unfoldable pub watch : Option Stream → Registry → Registry
watch stream r = record r {
  watchers = r.watchers ++ notify (new_registry_watcher stream) r.streams ∷ [];
}
