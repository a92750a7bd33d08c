-- ===== src/Ambassador/Manager/Runs.antt =====
-- pkg/ambassador/tap/conduit/manager.go: the manager under any sequence of calls, interleaved with
-- what its goroutines do.
use meridio.Base.{
  ℕ, zero, suc, ◌≡◌, ap, sym, ◌∙◌, Bool, true, false, Option, none, some, List, [], ◌∷◌, string_eq,
  if◌then◌else◌, Elem, here, there, get_elem?, Option-cases, inl, inr,
}
use meridio.Nsp
use meridio.Ambassador.Messages.{Stream}
use meridio.Ambassador.Registry.{Registry}
use meridio.Ambassador.Manager.{
  Goroutine, StreamManager, new, add_stream, remove_stream, set_streams, run, stop, report, finish,
}
use meridio.Ambassador.Manager.Loop.{reframed}
use meridio.Ambassador.Manager.Managed.{
  is_wanted, IsManaged, new-IsManaged, run-IsManaged, stop-IsManaged, set_streams-IsManaged,
}
use meridio.Ambassador.Manager.Members.{add_stream-IsManaged, remove_stream-IsManaged}

-- A call, or a step of a goroutine.
pub data Event : Type 0 where
  added : Bool → Stream → Event
  removed : Bool → Stream → Event
  streams_set : List (Option Nsp.Stream) → Event
  ran : Event
  stopped : (Stream → Bool) → Event
  reported : ℕ → Bool → Event
  finished : ℕ → Event

unfoldable pub step : Event → StreamManager → StreamManager
step (Event.added made strm) sm = (add_stream made strm sm).0
step (Event.removed fails strm) sm = (remove_stream fails strm sm).0
step (Event.streams_set streams) sm = set_streams streams sm
step Event.ran sm = run sm
step (Event.stopped fails) sm = (stop fails sm).0
step (Event.reported i opened) sm = elim (get_elem? sm.goroutines i) [
  | none ↦ sm
  | some g ↦ report g opened sm
]
step (Event.finished i) sm = record sm { goroutines = finish i sm.goroutines }

unfoldable pub steps : List Event → StreamManager → StreamManager
steps [] sm = sm
steps (e ∷ es) sm = steps es (step e sm)

report-IsManaged :
    (g : Goroutine) (opened : Bool) (sm : StreamManager)
    → IsManaged sm
    → IsManaged (report g opened sm)
unfolding report
report-IsManaged g opened sm h =
    reframed (is_wanted sm) sm (report g opened sm).registry sm.conduit_streams sm.running h

-- The first goroutine ends if it is cancelled.
module _ (x g : Goroutine) (gs : List Goroutine) where
  finished_first : (b : Bool) → Elem g (if b then gs else x ∷ gs) → Elem g (x ∷ gs)
  finished_first true m = there m
  finished_first false m = m

  live_first : (b : Bool) → b ≡ false → Elem g (x ∷ gs) → Elem g (if b then gs else x ∷ gs)
  live_first true e m = cc
  live_first false e m = m

  live_later : (b : Bool) → Elem g gs → Elem g (if b then gs else x ∷ gs)
  live_later true m = m
  live_later false m = there m

finish-Elem : (i : ℕ) (gs : List Goroutine) (g : Goroutine) → Elem g (finish i gs) → Elem g gs
unfolding finish
finish-Elem i [] g m = elim m [ ]
finish-Elem zero (x ∷ gs) g m = finished_first x g gs x.cancelled m
finish-Elem (suc i) (x ∷ gs) g (here e) = here e
finish-Elem (suc i) (x ∷ gs) g (there m) = there (finish-Elem i gs g m)

Elem-finish :
    (i : ℕ) (gs : List Goroutine) (g : Goroutine)
    → Elem g gs
    → g.cancelled ≡ false
    → Elem g (finish i gs)
unfolding finish
Elem-finish i [] g m live = elim m [ ]
Elem-finish zero (x ∷ gs) g (here e) live =
    live_first x g gs x.cancelled (sym (ap Goroutine.cancelled e) ∙ live) (here e)
Elem-finish zero (x ∷ gs) g (there m) live = live_later x g gs x.cancelled m
Elem-finish (suc i) (x ∷ gs) g (here e) live = here e
Elem-finish (suc i) (x ∷ gs) g (there m) live = there (Elem-finish i gs g m live)

finish-IsManaged :
    (i : ℕ) (sm : StreamManager)
    → IsManaged sm
    → IsManaged (record sm { goroutines = finish i sm.goroutines })
finish-IsManaged i sm h = record {
  keyed = h.keyed;
  opening = h.opening;
  owned = λ g m live. h.owned g (finish-Elem i sm.goroutines g m) live;
  kept = λ n sr c e o.
      (let (g, m, live, same, from) = h.kept n sr c e o in
        (g, Elem-finish i sm.goroutines g m live, live, same, from));
  fresh = λ g m. h.fresh g (finish-Elem i sm.goroutines g m);
  distinct = h.distinct;
}

step-IsManaged : (e : Event) (sm : StreamManager) → IsManaged sm → IsManaged (step e sm)
unfolding step
step-IsManaged (Event.added made strm) sm h = add_stream-IsManaged made strm sm h
step-IsManaged (Event.removed fails strm) sm h = remove_stream-IsManaged fails strm sm h
step-IsManaged (Event.streams_set streams) sm h = set_streams-IsManaged streams sm h
step-IsManaged Event.ran sm h = run-IsManaged sm h
step-IsManaged (Event.stopped fails) sm h = stop-IsManaged fails sm h
step-IsManaged (Event.reported i opened) sm h = elim (Option-cases (get_elem? sm.goroutines i)) [
  | inl out ↦ rw (out, step) h
  | inr (g, found) ↦ rw (found, step) (report-IsManaged g opened sm h)
]
step-IsManaged (Event.finished i) sm h = finish-IsManaged i sm h

steps-from : (es : List Event) (sm : StreamManager) → IsManaged sm → IsManaged (steps es sm)
unfolding steps
steps-from [] sm h = h
steps-from (e ∷ es) sm h = steps-from es (step e sm) (step-IsManaged e sm h)

-- After any calls of a new manager and steps of its goroutines: a managed stream is under its full
-- name; it has a goroutine that is not cancelled if the manager runs and the stream is in the
-- configuration, and none otherwise; and such a goroutine belongs to one managed stream.
pub steps-IsManaged : (r : Registry) (es : List Event) → IsManaged (steps es (new r))
steps-IsManaged r es = steps-from es (new r) (new-IsManaged r)
