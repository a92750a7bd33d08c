-- ===== src/Ambassador/Manager/Tests.antt =====
-- Runs of the manager of streams.
use meridio.Base.{◌≡◌, refl, true, false, none, some, List, [], ◌∷◌, string_eq, nat_eq}
use meridio.Base.Dict.{lookup, insert, erase}
use meridio.Ambassador.Messages.{stream_equals, full_name, to_nsp}
use meridio.Ambassador.Registry.{Status, put, set_status, cut, remove}
use meridio.Ambassador.Registry
use meridio.Ambassador.Manager.{
  new, start, add_stream, remove_stream, convert, run_one, for_each, set_streams, run, open_retry,
  close_retry, report,
}
use meridio.Ambassador.Manager.Managed.{is_wanted}
use meridio.Ambassador.Manager.Opening.{IsOpening}
use meridio.Ambassador.Manager.Runs.{Event, step, steps, steps-IsManaged}
use meridio.Ambassador.Registry.Tests.{stream_a, stream_b}

-- Two streams, of which the configuration has one.
abbrev some_events : List Event
some_events =
    Event.added true stream_a
    ∷ Event.streams_set (some (to_nsp (some stream_a)) ∷ none ∷ [])
    ∷ Event.ran
    ∷ Event.added true stream_b
    ∷ Event.reported 0 true
    ∷ []

states :
    (steps some_events (new Registry.new)).registry.streams
    ≡ record { status = Status.opened; stream = some stream_a }
      ∷ record { status = Status.undefined; stream = some stream_b }
      ∷ []
unfolding steps step start add_stream convert run_one for_each set_streams run open_retry report put
    set_status stream_equals full_name lookup insert string_eq
states = refl

-- A goroutine that reports after its stream has been removed brings the entry back.
reported_late :
    (steps
      (Event.added true stream_a
        ∷ Event.streams_set (some (to_nsp (some stream_a)) ∷ [])
        ∷ Event.ran
        ∷ Event.removed false stream_a
        ∷ Event.reported 0 false
        ∷ [])
      (new Registry.new)).registry.streams
    ≡ record { status = Status.unavailable; stream = some stream_a } ∷ []
unfolding steps step start add_stream remove_stream convert run_one for_each set_streams run
    open_retry close_retry report put cut remove set_status stream_equals full_name lookup insert
    erase string_eq nat_eq
reported_late = refl

steps-IsManaged_example :
    IsOpening
      (is_wanted (steps some_events (new Registry.new)))
      (steps some_events (new Registry.new))
steps-IsManaged_example = steps-IsManaged Registry.new some_events
