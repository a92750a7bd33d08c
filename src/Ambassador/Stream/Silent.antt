-- ===== src/Ambassador/Stream/Silent.antt =====
-- Streams that are open without an entry of their own: what `Open` does then.
use meridio.Base.{
  ℕ, ◌≡◌, refl, ap, sym, ◌∙◌, true, ◌&&◌, none, some, String, List, [], ◌∷◌, ◌==◌, string_eq, arith,
}
use meridio.Base.Tests.{eq_refl}
use meridio.Base.Dict.{lookup, lookup-insert}
use meridio.Nsp.{Status, Target, status_eq}
use meridio.Nsp.Sqlite.{get_target_id}
use meridio.Nsp.KeepAlive.Entries.{Entries, accepted, set_entry}
use meridio.Ambassador.Stream.{
  Stream, StreamError, Calls, ret, in_range, get_target, refresh, verify_refresh, open_stream,
}
use meridio.Ambassador.Stream.Exchange.{Delivery, deliver}

-- The calls of a method, as long as there are deliveries.
pub serve : List Delivery → Calls → Entries → Entries × Calls
serve [] c es = (es, c)
serve (d ∷ ds) c es = let (es', c') = deliver d c es in serve ds c' es'

-- `Open` of an open stream is `refresh`.
open_stream-refresh :
    (draws : ℕ → List ℕ) (rounds max : ℕ) (ip : String) (ips : List String) (s : Stream)
    → s.ips ≡ ip ∷ ips
    → s.target_status ≡ Status.enabled
    → in_range max s.identifier ≡ true
    → open_stream draws rounds max (ip ∷ ips) s ≡ refresh draws rounds max s
unfolding open_stream
open_stream-refresh draws rounds max ip ips s own enabled fits =
    let test : (s.target_status == Status.enabled && in_range max s.identifier) ≡ true =
      ground (arith, enabled, fits) in
    rw test (ap (λ l. refresh draws rounds max (record s { ips = l })) (sym own))

lookup-set_entry_self :
    (t : Target) (es : Entries)
    → lookup (get_target_id t) (set_entry t es) ≡ some (accepted (lookup (get_target_id t) es) t)
unfolding set_entry
lookup-set_entry_self t es =
    lookup-insert (get_target_id t) (get_target_id t) _ es ∙ rw (eq_refl (get_target_id t)) refl

-- An open stream whose target has been removed from the registry. When the answer to the check of
-- its refresh is lost, `Open` fails and leaves the target there as disabled. The next refresh makes
-- it enabled under its old identifier, whatever other targets are there by then.
pub refresh-unchecked :
    (draws : ℕ → List ℕ) (rounds max : ℕ) (ip : String) (ips : List String) (s : Stream)
    (es later : Entries)
    → s.ips ≡ ip ∷ ips
    → s.target_status ≡ Status.enabled
    → in_range max s.identifier ≡ true
    → lookup (get_target_id (get_target s)) es ≡ none
    → lookup (get_target_id (get_target s)) later
      ≡ some (record (get_target s) { status = Status.disabled })
    → ((serve
          (Delivery.answered ∷ Delivery.answer_lost ∷ [])
          (open_stream draws rounds max (ip ∷ ips) s)
          es).1
        ≡ ret s (some StreamError.get_failed))
      × (lookup
            (get_target_id (get_target s))
            (serve
              (Delivery.answered ∷ Delivery.answer_lost ∷ [])
              (open_stream draws rounds max (ip ∷ ips) s)
              es).0
          ≡ some (record (get_target s) { status = Status.disabled }))
      × (lookup
            (get_target_id (get_target s))
            (serve (Delivery.answered ∷ []) (open_stream draws rounds max (ip ∷ ips) s) later).0
          ≡ some (get_target s))
unfolding serve deliver verify_refresh
refresh-unchecked draws rounds max ip ips s es later own enabled fits gone held =
    rw (open_stream-refresh draws rounds max ip ips s own enabled fits) (
      refl,
      lookup-set_entry_self (get_target s) es ∙ rw gone refl,
      lookup-set_entry_self (get_target s) later ∙ rw held refl,
    )
