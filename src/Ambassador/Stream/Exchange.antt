-- ===== src/Ambassador/Stream/Exchange.antt =====
-- Targets that open and close one stream at one registry. Each has its addresses, which do not
-- change; their calls reach the registry in any order, and each call may be lost, or its answer.
use meridio.Base.{
  ℕ, true, false, none, some, String, List, [], ◌∷◌, ◌==◌, ◌≢◌, nat_eq, if◌then◌else◌,
}
use meridio.Nsp.{Status, TargetType, Target}
use meridio.Nsp.KeepAlive.Entries.{Entries, set_entry, remove_entry, get_entries}
use meridio.Ambassador.Messages
use meridio.Ambassador.Stream.{
  Stream, new, Calls, ret, drawing, register, unregister, get_targets, open_stream, close_stream,
}

-- What becomes of a call.
pub data Delivery : Type 0 where
  answered answer_lost not_served : Delivery

-- The next call of a method, the entries after it, and what the method does then.
unfoldable pub deliver : Delivery → Calls → Entries → Entries × Calls
deliver d (ret s r) es = (es, ret s r)
deliver d (drawing s) es = (es, drawing s)
deliver Delivery.answered (register t k) es = (set_entry t es, k true)
deliver Delivery.answer_lost (register t k) es = (set_entry t es, k false)
deliver Delivery.not_served (register t k) es = (es, k false)
deliver Delivery.answered (unregister t k) es = (remove_entry t es, k true)
deliver Delivery.answer_lost (unregister t k) es = (remove_entry t es, k false)
deliver Delivery.not_served (unregister t k) es = (es, k false)
deliver Delivery.answered (get_targets t k) es = (es, k (some (get_entries (some t) es)))
deliver Delivery.answer_lost (get_targets t k) es = (es, k none)
deliver Delivery.not_served (get_targets t k) es = (es, k none)

-- The registry and the targets, each with what it does next. One that has returned is idle.
pub record System : Type 0 where
  pub entries : Entries
  pub clients : ℕ → Calls

-- An empty registry, and streams that were never opened.
abbrev pub initial : Messages.Stream → System
initial stream = record { entries = []; clients = λ i. ret (new stream) none }

pub data Event : Type 0 where
  opened : ℕ → (ℕ → List ℕ) → ℕ → ℕ → Event
  closed : ℕ → Event
  called : ℕ → Delivery → Event
  expired : ℕ → Event

abbrev pub put : ℕ → Calls → (ℕ → Calls) → ℕ → Calls
put i c cs j = if j == i then c else cs j

-- An idle target starts a method.
unfoldable pub start : (Stream → Calls) → Calls → Calls
start f (ret s r) = f s
start f (drawing s) = drawing s
start f (register t k) = register t k
start f (unregister t k) = unregister t k
start f (get_targets t k) = get_targets t k

-- An idle target whose stream is not open.
abbrev pub IsQuiet : Calls → Type 0
IsQuiet (ret s r) = s.target_status ≢ Status.enabled
IsQuiet (drawing s) = ⊥
IsQuiet (register t k) = ⊥
IsQuiet (unregister t k) = ⊥
IsQuiet (get_targets t k) = ⊥

module _ (stream : Messages.Stream) (ips : ℕ → List String) where
  -- The target of one of them.
  abbrev pub entry_of : ℕ → String → Status → Target
  entry_of i identifier status = record {
    ips = ips i;
    context = ("identifier", identifier) ∷ [];
    status = status;
    kind = TargetType.default;
    stream = some (Messages.to_nsp (some stream));
  }

  unfoldable pub step : Event → System → System
  step (Event.opened i draws rounds max) s = record s {
    clients = put i (start (open_stream draws rounds max (ips i)) (s.clients i)) s.clients;
  }
  step (Event.closed i) s = record s {
    clients = put i (start close_stream (s.clients i)) s.clients;
  }
  step (Event.called i d) s =
      let (es, c) = deliver d (s.clients i) s.entries in
      record { entries = es; clients = put i c s.clients }
  step (Event.expired i) s = record s {
    entries = remove_entry (entry_of i "" Status.any) s.entries;
  }

  unfoldable pub run : List Event → System → System
  unfolding step
  run [] s = s
  run (e ∷ es) s = run es (step e s)

  -- Only the entry of a target that is idle, and whose stream is not open, expires.
  abbrev pub IsTimely : Event → System → Type 0
  IsTimely (Event.opened i draws rounds max) s = Unit {0}
  IsTimely (Event.closed i) s = Unit {0}
  IsTimely (Event.called i d) s = Unit {0}
  IsTimely (Event.expired i) s = IsQuiet (s.clients i)

  abbrev pub AreTimely : List Event → System → Type 0
  AreTimely [] s = Unit {0}
  AreTimely (e ∷ es) s = IsTimely e s × AreTimely es (step e s)
