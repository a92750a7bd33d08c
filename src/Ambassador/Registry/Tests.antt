-- ===== src/Ambassador/Registry/Tests.antt =====
-- Runs of the registry of streams.
use meridio.Base.{◌≡◌, refl, false, none, some, List, [], ◌∷◌, string_eq}
use meridio.Ambassador.Messages.{
  Stream, stream_equals, stream_filter, conduit_filter, trench_filter,
}
use meridio.Ambassador.Registry.{
  Status, new, put, set_status, cut, remove, watch, filter, notify, notify_all,
}
use meridio.Ambassador.Registry.Refines.{Call, call, calls, all_meant, status_of, calls-refine}

abbrev pub stream_a : Stream
stream_a = record {
  name = "a";
  conduit = some (record { name = "c"; trench = some (record { name = "t" }) });
}

abbrev pub stream_b : Stream
stream_b = record stream_a { name = "b" }

abbrev some_calls : List Call
some_calls =
    Call.watch_all (some stream_b)
    ∷ Call.set_one (some stream_a) Status.pending
    ∷ Call.set_one (some stream_b) Status.opened
    ∷ Call.remove_one (some stream_a)
    ∷ []

left_b :
    (calls some_calls new).streams ≡ record { status = Status.opened; stream = some stream_b } ∷ []
unfolding call calls put set_status cut remove watch stream_equals string_eq
left_b = refl

-- The watcher of one stream has that stream's status in its channel.
watched_b :
    (calls some_calls new).watchers
    ≡ record {
      stream_selector = some stream_b;
      c = some (record { status = Status.opened; stream = some stream_b } ∷ []);
      stopped = false;
    }
      ∷ []
unfolding call calls put set_status cut remove watch stream_equals string_eq filter notify
    notify_all stream_filter conduit_filter trench_filter
watched_b = refl

calls-refine_example :
    status_of (some stream_b) (calls some_calls new).streams
    ≡ all_meant some_calls (λ i. none) (some stream_b)
calls-refine_example = calls-refine some_calls (some stream_b)
