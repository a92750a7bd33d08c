-- ===== src/Ambassador/Manager.antt =====
-- pkg/ambassador/tap/conduit/manager.go: the manager of the streams of a conduit, and the goroutines
-- that open them. The mutex makes each method one step. A streamRetry is a pointer in the map, and
-- is written back under its key; its currentStatus, which is only logged, is left out. The context
-- of an open is a number, and canceling it marks the goroutine. What the calls of a stream return is
-- an argument.
pub mod Opening
pub mod Closing
pub mod Loop
pub mod Bodies
pub mod Each
pub mod Managed
pub mod Members
pub mod Runs
pub mod Tests
use meridio.Base.{
  ℕ, zero, suc, Bool, true, false, ◌||◌, Option, none, some, String, List, [], ◌∷◌, map, ◌==◌,
  nat_eq, string_eq, if◌then◌else◌,
}
use meridio.Base.Dict.{Dict, lookup, insert, erase, keys, is_some}
use meridio.Nsp
use meridio.Ambassador.Messages.{Stream, full_name}
use meridio.Ambassador.Registry.{Registry, Status, set_status}
use meridio.Ambassador.Registry

-- `streamRetry`
pub record StreamRetry : Type 0 where
  pub stream : Stream
  pub cancel_open : Option ℕ

-- The goroutine that `Open` starts, with what it has captured.
pub record Goroutine : Type 0 where
  pub context : ℕ
  pub cancelled : Bool
  pub stream : Stream
  pub nsp_stream : Nsp.Stream

-- `streamManager`, with the goroutines and the number of contexts made so far.
pub record StreamManager : Type 0 where
  pub streams : Dict String StreamRetry
  pub conduit_streams : Dict String Nsp.Stream
  pub running : Bool
  pub registry : Registry
  pub goroutines : List Goroutine
  pub contexts : ℕ

-- `NewStreamManager`
abbrev pub new : Registry → StreamManager
new registry = record {
  streams = [];
  conduit_streams = [];
  running = false;
  registry = registry;
  goroutines = [];
  contexts = 0;
}

-- `setStatus`
abbrev pub set_status_of : StreamRetry → Status → StreamManager → StreamManager
set_status_of sr v sm = record sm { registry = set_status (some sr.stream) v sm.registry }

abbrev streams_of : Dict String StreamRetry → List Stream
streams_of [] = []
streams_of ((_, sr) ∷ d) = sr.stream ∷ streams_of d

-- `GetStreams`
abbrev pub get_streams : StreamManager → List Stream
get_streams sm = streams_of sm.streams

-- `getNSPStream`
abbrev pub get_nsp_stream : StreamRetry → StreamManager → Option Nsp.Stream
get_nsp_stream sr sm = lookup (full_name (some sr.stream)) sm.conduit_streams

-- `Open`, of the streamRetry under the name.
unfoldable pub open_retry : String → StreamRetry → Nsp.Stream → StreamManager → StreamManager
open_retry name sr nsp_stream sm = elim sr.cancel_open [
  | some _ ↦ sm
  | none ↦ record sm {
    streams = insert name (record sr { cancel_open = some sm.contexts }) sm.streams;
    goroutines =
        record {
          context = sm.contexts;
          cancelled = false;
          stream = sr.stream;
          nsp_stream = nsp_stream;
        }
        ∷ sm.goroutines;
    contexts = suc sm.contexts;
  }
]

-- `cancelOpen()`
abbrev pub cancel_context : ℕ → Goroutine → Goroutine
cancel_context context g = if g.context == context then record g { cancelled = true } else g

abbrev pub cancel : Option ℕ → List Goroutine → List Goroutine
cancel none gs = gs
cancel (some context) gs = map (cancel_context context) gs

-- `Close`, of the streamRetry under the name; the result of the call is its caller's.
unfoldable pub close_retry : String → StreamRetry → StreamManager → StreamManager
close_retry name sr sm = record sm {
  streams = insert name (record sr { cancel_open = none }) sm.streams;
  goroutines = cancel sr.cancel_open sm.goroutines;
}

-- The end of `AddStream`, for a stream that has been put into the map.
unfoldable pub start : String → StreamRetry → StreamManager → StreamManager
start name sr sm =
    if sm.running
    then elim (get_nsp_stream sr sm) [
      | none ↦ set_status_of sr Status.undefined sm
      | some nsp_stream ↦ open_retry name sr nsp_stream (set_status_of sr Status.pending sm)
    ]
    else set_status_of sr Status.unavailable sm

-- `AddStream`, which reports an error: `made` is whether the factory made the stream.
unfoldable pub add_stream : Bool → Stream → StreamManager → StreamManager × Bool
add_stream made strm sm = elim (lookup (full_name (some strm)) sm.streams) [
  | some _ ↦ (sm, false)
  | none ↦
      let sr : StreamRetry = record { stream = strm; cancel_open = none } in
      if made
      then (
        start (full_name (some strm)) sr
            (record sm { streams = insert (full_name (some strm)) sr sm.streams }),
        false,
      )
      else (sm, true)
]

-- `RemoveStream`, which reports an error: `fails` is whether the stream could not be closed.
unfoldable pub remove_stream : Bool → Stream → StreamManager → StreamManager × Bool
remove_stream fails strm sm = elim (lookup (full_name (some strm)) sm.streams) [
  | none ↦ (sm, false)
  | some sr ↦
      let closed = close_retry (full_name (some strm)) sr sm in
      (
        record closed {
          registry = Registry.remove (some strm) closed.registry;
          streams = erase (full_name (some strm)) closed.streams;
        },
        fails,
      )
]

-- A stream of the configuration whose conduit and trench are known.
abbrev pub convert_one : Option Nsp.Stream → Dict String Nsp.Stream → Dict String Nsp.Stream
convert_one none d = d
convert_one (some s) d = elim s.conduit [
  | none ↦ d
  | some c ↦ elim c.trench [
    | none ↦ d
    | some t ↦
        insert
          (full_name (
            some (record {
              name = s.name;
              conduit = some (record { name = c.name; trench = some (record { name = t.name }) });
            })))
          s d
  ]
]

-- `convert`, with the map made so far.
unfoldable pub convert : List (Option Nsp.Stream) → Dict String Nsp.Stream → Dict String Nsp.Stream
convert [] d = d
convert (s ∷ ss) d = convert ss (convert_one s d)

-- The body of the loop of `SetStreams`.
unfoldable pub set_one : String → StreamRetry → StreamManager → StreamManager
set_one name sr sm = elim (get_nsp_stream sr sm) [
  | some nsp_stream ↦ open_retry name sr nsp_stream sm
  | none ↦ set_status_of sr Status.undefined (close_retry name sr sm)
]

-- The body of the loop of `Run`.
unfoldable pub run_one : String → StreamRetry → StreamManager → StreamManager
run_one name sr sm = elim (get_nsp_stream sr sm) [
  | some nsp_stream ↦ open_retry name sr nsp_stream sm
  | none ↦ set_status_of sr Status.undefined sm
]

-- The goroutine that `Stop` starts for a stream.
unfoldable pub stop_one : String → StreamRetry → StreamManager → StreamManager
stop_one name sr sm = set_status_of sr Status.undefined (close_retry name sr sm)

-- `for _, sr := range sm.Streams`
unfoldable pub for_each :
    (String → StreamRetry → StreamManager → StreamManager)
    → List String
    → StreamManager
    → StreamManager
for_each body [] sm = sm
for_each body (name ∷ names) sm =
    for_each body names (elim (lookup name sm.streams) [ none ↦ sm | some sr ↦ body name sr sm ])

-- `SetStreams`
unfoldable pub set_streams : List (Option Nsp.Stream) → StreamManager → StreamManager
set_streams streams sm =
    let set = record sm { conduit_streams = convert streams [] } in
    if sm.running then for_each set_one (keys sm.streams) set else set

-- `Run`
unfoldable pub run : StreamManager → StreamManager
run sm = record (for_each run_one (keys sm.streams) sm) { running = true }

abbrev any_fails : (Stream → Bool) → Dict String StreamRetry → Bool
any_fails fails [] = false
any_fails fails ((_, sr) ∷ d) = fails sr.stream || any_fails fails d

-- `Stop`, which reports an error if a stream could not be closed.
unfoldable pub stop : (Stream → Bool) → StreamManager → StreamManager × Bool
stop fails sm = (
  record (for_each stop_one (keys sm.streams) sm) { running = false },
  any_fails fails sm.streams,
)

-- A goroutine sets the status after a call of `Open` of its stream, also once it is cancelled.
unfoldable pub report : Goroutine → Bool → StreamManager → StreamManager
report g opened sm = record sm {
  registry =
      set_status (some g.stream) (if opened then Status.opened else Status.unavailable) sm.registry;
}

-- A goroutine that is cancelled ends.
unfoldable pub finish : ℕ → List Goroutine → List Goroutine
finish i [] = []
finish zero (g ∷ gs) = if g.cancelled then gs else g ∷ gs
finish (suc i) (g ∷ gs) = g ∷ finish i gs
