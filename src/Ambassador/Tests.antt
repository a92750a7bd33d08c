-- ===== src/Ambassador/Tests.antt =====
-- Targets with one address each, of one stream.
use text.Mathlib.TextLemmas.{append_cancel_right}
use meridio.Base.{
  Bool, true, false, ℕ, zero, suc, ◌<◌, ◌≡◌, ◌≢◌, refl, true, false, some, String, List, [], ◌∷◌,
  ◌==◌, string_eq, nat_eq, arith, Bool-cases, inl, inr, contains,
}
use meridio.Base.Int.{ℤ, pos, negsuc}
use meridio.Base.Lists.{Elem, here, there}
use meridio.Base.Strconv.{itoa, itoa_inj}
use meridio.Base.Tests.{eq→≡}
use meridio.Base.Dict.{lookup}
use meridio.Nsp.{Status, Target, status_eq, type_eq}
use meridio.Nsp.Sqlite.{get_target_id}
use meridio.Nsp.KeepAlive.Entries.{Entries}
use meridio.Base.Dict.{insert, erase, lookup-nil}
use meridio.Nsp.Registry.{filter}
use meridio.Nsp.{target_filter, stream_filter, conduit_filter, trench_filter}
use meridio.Nsp.Sqlite.{serialize_ips}
use meridio.Nsp.KeepAlive.Entries.{set_entry}
use meridio.Ambassador.Stream.Exchange.{deliver, start}
use meridio.Ambassador.Stream.{
  close_stream, open_rounds, verify_refresh, change_identifier, identifiers_in_use,
}
use meridio.Ambassador.Messages
use meridio.Ambassador.Stream.{
  Stream, StreamError, ret, same_ips, get_target, set_identifier, in_range, open_stream,
  identifier_of,
}
use meridio.Ambassador.Stream.Entries.{key, AreDistinct}
use meridio.Ambassador.Stream.Exchange.{Event, Delivery, opened, called, initial, run, entry_of}
use meridio.Ambassador.Stream.Exclusive.{run-exclusive}
use meridio.LoadBalancer.Env.{Env}
use meridio.LoadBalancer.Target.{new_target}
use meridio.Ambassador.Stream.Identifiers.{set_identifier-returns, new_target-get_target}
use meridio.Ambassador.Stream.Silent.{refresh-unchecked, serve}

abbrev stream : Messages.Stream
stream = record {
  name = "s";
  conduit = some (record { name = "c"; trench = some (record { name = "t" }) });
}

abbrev ips : ℕ → List String
ips i = itoa (pos i) ∷ []

pos_inj : (a b : ℕ) → pos a ≡ pos b → a ≡ b
pos_inj a b e = cc

key_inj : (i j : ℕ) → key stream ips i ≡ key stream ips j → i ≡ j
unfolding key get_target_id
key_inj i j e =
    pos_inj i j (itoa_inj (pos i) (pos j) (append_cancel_right (itoa (pos i)) (itoa (pos j)) _ e))

other_address : (i j : ℕ) → i ≢ j → same_ips (ips j) (ips i) ≡ false
unfolding same_ips
other_address i j ne = elim (Bool-cases (itoa (pos i) == itoa (pos j))) [
  | inl e ↦ absurd (ne (pos_inj i j (itoa_inj (pos i) (pos j) (eq→≡ _ _ e))))
  | inr e ↦ ground (arith, e)
]

distinct : AreDistinct stream ips
distinct = record { keys = λ i j ne e. ne (key_inj i j e); addresses = other_address }

-- Both take the identifier 1 at first; the second finds the collision and takes 2.
abbrev draws : ℕ → List ℕ
draws n = 0 ∷ 1 ∷ []

abbrev answers : ℕ → ℕ → List Event → List Event
answers zero i rest = rest
answers (suc n) i rest = called i Delivery.answered ∷ answers n i rest

abbrev two_targets : List Event
two_targets =
    opened 0 draws 9 2
    ∷ opened 1 draws 9 2
    ∷ called 0 Delivery.answered
    ∷ called 1 Delivery.answered
    ∷ answers 3 0 (answers 6 1 [])

two_targets-enabled :
    (lookup (key stream ips 0) (run stream ips two_targets (initial stream)).entries
      ≡ some (entry_of stream ips 0 "1" Status.enabled))
    × (lookup (key stream ips 1) (run stream ips two_targets (initial stream)).entries
        ≡ some (entry_of stream ips 1 "2" Status.enabled))
unfolding run deliver start open_stream close_stream open_rounds verify_refresh change_identifier
    identifiers_in_use same_ips set_identifier set_entry filter target_filter stream_filter
    conduit_filter trench_filter key get_target_id serialize_ips itoa lookup insert erase string_eq
    nat_eq status_eq type_eq
two_targets-enabled = (refl, refl)

run-exclusive_example :
    identifier_of (entry_of stream ips 0 "1" Status.enabled)
    ≢ identifier_of (entry_of stream ips 1 "2" Status.enabled)
run-exclusive_example =
    run-exclusive stream ips distinct two_targets (omega arith) 0 1
      (entry_of stream ips 0 "1" Status.enabled) (entry_of stream ips 1 "2" Status.enabled)
      (omega arith) two_targets-enabled.0 two_targets-enabled.1 refl refl

below_two : (n : ℕ) → n < 2 → Elem n (1 ∷ 0 ∷ [])
below_two zero h = there (here refl)
below_two (suc zero) h = here refl
below_two (suc (suc n)) h = absurd (omega arith)

set_identifier-returns_example :
    (id : ℤ) × (set_identifier (1 ∷ 0 ∷ []) ("2" ∷ []) 2 (negsuc 0) ≡ some id)
    × (contains ("2" ∷ []) (itoa id) ≡ false)
    × (in_range 2 id ≡ true)
set_identifier-returns_example =
    set_identifier-returns (1 ∷ 0 ∷ []) ("2" ∷ []) 2 (negsuc 0) (omega arith) below_two

-- An environment in which every call succeeds.
abbrev env : Env
env = record {
  World = Bool;
  FwMarkRoute = String;
  new_fwmark_route = λ ip mark table w. (w, some ip);
  verify_route = λ route w. true;
  delete_route = λ route w. (w, false);
  activate = λ index identifier w. (w, false);
  deactivate = λ index w. (w, false);
  delete_nfqlb = λ w. (w, false);
  set_flow = λ flow w. (w, false);
  delete_flow = λ flow w. (w, false);
  register_metrics = λ id target w. w;
  unregister_metrics = λ id w. w;
  register_neighbors = λ ips w. w;
  unregister_neighbors = λ ips w. w;
  register_stream = λ name w. w;
  unregister_stream = λ name w. w;
  set_serving = λ w. w;
  same_set = λ a b. true;
}

abbrev opened_stream : Stream
opened_stream = record {
  stream = stream;
  ips = "10.0.0.1" ∷ [];
  identifier = pos 3;
  target_status = Status.enabled;
}

-- Another target has taken the identifier by then.
abbrev thief : Target
thief = record (get_target opened_stream) { ips = "10.0.0.2" ∷ [] }

abbrev later_entries : Entries
later_entries =
    (get_target_id thief, thief)
    ∷ (
      get_target_id (get_target opened_stream),
      record (get_target opened_stream) { status = Status.disabled },
    )
    ∷ []

still_disabled :
    lookup (get_target_id (get_target opened_stream)) later_entries
    ≡ some (record (get_target opened_stream) { status = Status.disabled })
unfolding lookup get_target_id serialize_ips itoa string_eq
still_disabled = refl

refresh-unchecked_example :
    ((serve
        (Delivery.answered ∷ Delivery.answer_lost ∷ [])
        (open_stream draws 9 5 ("10.0.0.1" ∷ []) opened_stream)
        []).1
      ≡ ret opened_stream (some StreamError.get_failed))
    × (lookup
          (get_target_id (get_target opened_stream))
          (serve
            (Delivery.answered ∷ Delivery.answer_lost ∷ [])
            (open_stream draws 9 5 ("10.0.0.1" ∷ []) opened_stream)
            []).0
        ≡ some (record (get_target opened_stream) { status = Status.disabled }))
    × (lookup
          (get_target_id (get_target opened_stream))
          (serve
            (Delivery.answered ∷ [])
            (open_stream draws 9 5 ("10.0.0.1" ∷ []) opened_stream)
            later_entries).0
        ≡ some (get_target opened_stream))
refresh-unchecked_example =
    refresh-unchecked draws 9 5 "10.0.0.1" [] opened_stream [] later_entries refl refl refl
      (lookup-nil (get_target_id (get_target opened_stream))) still_disabled

new_target-get_target_example :
    new_target env (get_target opened_stream) (pos 100)
    ≡ some (record {
      fw_marks = [];
      nsp_target = get_target opened_stream;
      identifier = pos 3;
      identifier_offset = pos 100;
    })
new_target-get_target_example = new_target-get_target env opened_stream (pos 100) refl
