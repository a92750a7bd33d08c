-- ===== src/Ambassador/Manager/Managed.antt =====
-- pkg/ambassador/tap/conduit/manager.go: the streams that the manager's state asks to be opened are
-- those that have a goroutine. Run, Stop and SetStreams keep it so.
use meridio.Base.{
  ◌≡◌, refl, ap, sym, subst, ◌∙◌, Bool, true, false, ◌&&◌, ◌||◌, Option, String, List, [],
  string_eq, Bool-cases, none_some, inl, inr, arith,
}
use meridio.Base.Dict.{lookup, keys, is_some}
use meridio.Nsp
use meridio.Ambassador.Messages.{Stream}
use meridio.Ambassador.Registry.{Registry}
use meridio.Ambassador.Manager.{
  StreamManager, new, convert, set_one, run_one, stop_one, for_each, set_streams, run, stop,
}
use meridio.Ambassador.Manager.Opening.{IsOpening}
use meridio.Ambassador.Manager.Loop.{rewanted, reframed}
use meridio.Ambassador.Manager.Bodies.{
  is_configured, set_one-IsBody, run_one-IsBody, stop_one-IsBody,
}
use meridio.Ambassador.Manager.Each.{for_all-opens, for_each-config, for_each-status}

-- The manager runs, and the stream of the name is in the configuration.
abbrev pub is_wanted : StreamManager → String → Bool
is_wanted sm m = sm.running && is_configured m sm

abbrev pub IsManaged : StreamManager → Type 0
IsManaged sm = IsOpening (is_wanted sm) sm

-- The configuration and the status after an operation, with what they make wanted.
pub settled :
    (wanted : String → Bool) (sm : StreamManager)
    → IsOpening wanted sm
    → ((m : String) → wanted m ≡ is_wanted sm m)
    → IsManaged sm
settled wanted sm h same = rewanted wanted (is_wanted sm) sm (λ m sr found. same m) h

pub new-IsManaged : (r : Registry) → IsManaged (new r)
unfolding lookup
new-IsManaged r = record {
  keyed = λ n sr e. none_some e;
  opening = λ n sr e. none_some e;
  owned = λ g m live. elim m [ ];
  kept = λ n sr c e o. none_some e;
  fresh = λ g m. elim m [ ];
  distinct = λ n m sr sr' c e e' o o'. none_some e;
}

or_absorb : (a b : Bool) → (a || (b && a)) ≡ a
or_absorb true b = refl
or_absorb false true = refl
or_absorb false false = refl

and_true : (a b : Bool) → b ≡ true → a ≡ (b && a)
and_true a b e = ground arith

pub run-IsManaged : (sm : StreamManager) → IsManaged sm → IsManaged (run sm)
unfolding run
run-IsManaged sm h =
    settled (λ m. is_configured m sm || is_wanted sm m) (run sm)
      (reframed _ (for_each run_one (keys sm.streams) sm) _ _ true
        (for_all-opens run_one (λ a b. a || b) run_one-IsBody (is_wanted sm) sm h))
      (λ m.
        or_absorb (is_configured m sm) sm.running
        ∙ sym (
            ap (λ d. is_some (lookup m d))
              (for_each-config run_one (λ a b. a || b) run_one-IsBody (keys sm.streams) sm)))

pub stop-IsManaged :
    (fails : Stream → Bool) (sm : StreamManager) → IsManaged sm → IsManaged (stop fails sm).0
unfolding stop
stop-IsManaged fails sm h =
    settled (λ m. false) (stop fails sm).0
      (reframed _ (for_each stop_one (keys sm.streams) sm) _ _ false
        (for_all-opens stop_one (λ a b. false) stop_one-IsBody (is_wanted sm) sm h))
      (λ m. refl)

-- The manager with another configuration.
abbrev configured : List (Option Nsp.Stream) → StreamManager → StreamManager
configured streams sm = record sm { conduit_streams = convert streams [] }

set_streams-running :
    (streams : List (Option Nsp.Stream)) (sm : StreamManager)
    → sm.running ≡ true
    → set_streams streams sm ≡ for_each set_one (keys sm.streams) (configured streams sm)
unfolding set_streams
set_streams-running streams sm e = ground arith

set_streams-stopped :
    (streams : List (Option Nsp.Stream)) (sm : StreamManager)
    → sm.running ≡ false
    → set_streams streams sm ≡ configured streams sm
unfolding set_streams
set_streams-stopped streams sm e = ground arith

pub set_streams-IsManaged :
    (streams : List (Option Nsp.Stream)) (sm : StreamManager)
    → IsManaged sm
    → IsManaged (set_streams streams sm)
set_streams-IsManaged streams sm h = elim (Bool-cases sm.running) [
  | inl e ↦ subst IsManaged (sym (set_streams-running streams sm e)) (
      settled (λ m. is_configured m (configured streams sm))
        (for_each set_one (keys sm.streams) (configured streams sm))
        (for_all-opens set_one (λ a b. a) set_one-IsBody (is_wanted sm) (configured streams sm)
          (reframed (is_wanted sm) sm sm.registry (convert streams []) sm.running h))
        (λ m.
          and_true (is_configured m (configured streams sm))
            (for_each set_one (keys sm.streams) (configured streams sm)).running
            (for_each-status set_one (λ a b. a) set_one-IsBody (keys sm.streams)
                (configured streams sm)
              ∙ e)
          ∙ ap
              (λ d.
                (for_each set_one (keys sm.streams) (configured streams sm)).running
                && is_some (lookup m d))
              (sym (
                for_each-config set_one (λ a b. a) set_one-IsBody (keys sm.streams)
                  (configured streams sm)))))
  | inr e ↦ subst IsManaged (sym (set_streams-stopped streams sm e)) (
      settled (is_wanted sm) (configured streams sm)
        (reframed (is_wanted sm) sm sm.registry (convert streams []) sm.running h)
        (λ m. ground arith))
]
