-- ===== src/Ambassador/Manager/Bodies.antt =====
-- pkg/ambassador/tap/conduit/manager.go: the bodies of the loops of SetStreams, Run and Stop.
use meridio.Base.{
  ◌≡◌, refl, ap, sym, subst, ◌∙◌, Bool, true, false, ◌||◌, Option, none, some, String, string_eq,
  Option-cases, eq→≡, inl, inr, arith,
}
use meridio.Base.Dict.{lookup, is_some}
use meridio.Nsp
use meridio.Ambassador.Messages.{full_name}
use meridio.Ambassador.Registry.{Status, set_status}
use meridio.Ambassador.Manager.{
  StreamRetry, StreamManager, open_retry, close_retry, set_one, run_one, stop_one, get_nsp_stream,
  set_status_of,
}
use meridio.Ambassador.Manager.Opening.{IsOpening, with_at}
use meridio.Ambassador.Manager.Closing.{close_retry-IsOpening}
use meridio.Ambassador.Manager.Loop.{
  IsBody, rewanted, reframed, open_retry-IsOpening, open_retry-config, open_retry-status,
  open_retry-present, is_some-insert,
}

-- The status that a stream has does not matter.
pub set_status_of-IsOpening :
    (wanted : String → Bool) (sr : StreamRetry) (v : Status) (sm : StreamManager)
    → IsOpening wanted sm
    → IsOpening wanted (set_status_of sr v sm)
set_status_of-IsOpening wanted sr v sm h =
    reframed wanted sm (set_status (some sr.stream) v sm.registry) sm.conduit_streams sm.running h

close_retry-present :
    (m n : String) (sr : StreamRetry) (sm : StreamManager)
    → lookup n sm.streams ≡ some sr
    → is_some (lookup m (close_retry n sr sm).streams) ≡ is_some (lookup m sm.streams)
unfolding close_retry
close_retry-present m n sr sm e =
    is_some-insert m n sr (record sr { cancel_open = none }) sm.streams e

close_retry-config :
    (n : String) (sr : StreamRetry) (sm : StreamManager)
    → (close_retry n sr sm).conduit_streams ≡ sm.conduit_streams
unfolding close_retry
close_retry-config n sr sm = refl

close_retry-status :
    (n : String) (sr : StreamRetry) (sm : StreamManager)
    → (close_retry n sr sm).running ≡ sm.running
unfolding close_retry
close_retry-status n sr sm = refl

-- The stream of the name has an entry in the configuration or not.
abbrev pub is_configured : String → StreamManager → Bool
is_configured n sm = is_some (lookup n sm.conduit_streams)

configured :
    (n : String) (sr : StreamRetry) (sm : StreamManager) (o : Option Nsp.Stream)
    → full_name (some sr.stream) ≡ n
    → get_nsp_stream sr sm ≡ o
    → is_some o ≡ is_configured n sm
configured n sr sm o keyed e =
    sym (ap (λ p. is_some p) e) ∙ ap (λ i. is_some (lookup i sm.conduit_streams)) keyed

set_one-opens :
    (wanted : String → Bool) (n : String) (sr : StreamRetry) (sm : StreamManager)
    → IsOpening wanted sm
    → lookup n sm.streams ≡ some sr
    → IsOpening (with_at n (is_configured n sm) wanted) (set_one n sr sm)
unfolding set_one
set_one-opens wanted n sr sm h at = elim (Option-cases (get_nsp_stream sr sm)) [
  | inl e ↦
      rw (e, set_one)
        (subst
          (λ b.
            IsOpening (with_at n b wanted)
              (set_status_of sr Status.undefined (close_retry n sr sm)))
          (configured n sr sm none (h.keyed n sr at) e)
          (set_status_of-IsOpening (with_at n false wanted) sr Status.undefined
            (close_retry n sr sm) (close_retry-IsOpening wanted n sr sm h at)))
  | inr (s, e) ↦
      rw (e, set_one)
        (subst (λ b. IsOpening (with_at n b wanted) (open_retry n sr s sm))
          (configured n sr sm (some s) (h.keyed n sr at) e)
          (open_retry-IsOpening wanted n sr s sm h at))
]

pub set_one-IsBody : IsBody set_one (λ a b. a)
unfolding set_one
set_one-IsBody = record {
  opens = set_one-opens;
  config = λ n sr sm. elim (Option-cases (get_nsp_stream sr sm)) [
    | inl e ↦ rw (e, set_one) (close_retry-config n sr sm)
    | inr (s, e) ↦ rw (e, set_one) (open_retry-config n sr s sm)
  ];
  status = λ n sr sm. elim (Option-cases (get_nsp_stream sr sm)) [
    | inl e ↦ rw (e, set_one) (close_retry-status n sr sm)
    | inr (s, e) ↦ rw (e, set_one) (open_retry-status n sr s sm)
  ];
  present = λ m n sr sm held. elim (Option-cases (get_nsp_stream sr sm)) [
    | inl e ↦ rw (e, set_one) (close_retry-present m n sr sm held)
    | inr (s, e) ↦ rw (e, set_one) (open_retry-present n sr s sm m held)
  ];
  again = λ a b. refl;
}

-- Nothing is done to the stream.
untouched :
    (wanted : String → Bool) (n : String) (sm : StreamManager)
    → IsOpening wanted sm
    → IsOpening (with_at n (wanted n) wanted) sm
untouched wanted n sm h =
    rewanted wanted (with_at n (wanted n) wanted) sm (λ m sr e. ground (arith, eq→≡ m n)) h

run_one-opens :
    (wanted : String → Bool) (n : String) (sr : StreamRetry) (sm : StreamManager)
    → IsOpening wanted sm
    → lookup n sm.streams ≡ some sr
    → IsOpening (with_at n (is_configured n sm || wanted n) wanted) (run_one n sr sm)
unfolding run_one
run_one-opens wanted n sr sm h at = elim (Option-cases (get_nsp_stream sr sm)) [
  | inl e ↦
      rw (e, run_one)
        (subst
          (λ b. IsOpening (with_at n (b || wanted n) wanted) (set_status_of sr Status.undefined sm))
          (configured n sr sm none (h.keyed n sr at) e)
          (set_status_of-IsOpening (with_at n (wanted n) wanted) sr Status.undefined sm
            (untouched wanted n sm h)))
  | inr (s, e) ↦
      rw (e, run_one)
        (subst (λ b. IsOpening (with_at n (b || wanted n) wanted) (open_retry n sr s sm))
          (configured n sr sm (some s) (h.keyed n sr at) e)
          (open_retry-IsOpening wanted n sr s sm h at))
]

or_again : (a b : Bool) → (a || (a || b)) ≡ (a || b)
or_again true b = refl
or_again false b = refl

pub run_one-IsBody : IsBody run_one (λ a b. a || b)
unfolding run_one
run_one-IsBody = record {
  opens = run_one-opens;
  config = λ n sr sm. elim (Option-cases (get_nsp_stream sr sm)) [
    | inl e ↦ rw (e, run_one) refl
    | inr (s, e) ↦ rw (e, run_one) (open_retry-config n sr s sm)
  ];
  status = λ n sr sm. elim (Option-cases (get_nsp_stream sr sm)) [
    | inl e ↦ rw (e, run_one) refl
    | inr (s, e) ↦ rw (e, run_one) (open_retry-status n sr s sm)
  ];
  present = λ m n sr sm held. elim (Option-cases (get_nsp_stream sr sm)) [
    | inl e ↦ rw (e, run_one) refl
    | inr (s, e) ↦ rw (e, run_one) (open_retry-present n sr s sm m held)
  ];
  again = λ a b. or_again a b;
}

pub stop_one-IsBody : IsBody stop_one (λ a b. false)
unfolding stop_one
stop_one-IsBody = record {
  opens = λ wanted n sr sm h at.
      set_status_of-IsOpening (with_at n false wanted) sr Status.undefined (close_retry n sr sm)
        (close_retry-IsOpening wanted n sr sm h at);
  config = λ n sr sm. close_retry-config n sr sm;
  status = λ n sr sm. close_retry-status n sr sm;
  present = λ m n sr sm held. close_retry-present m n sr sm held;
  again = λ a b. refl;
}
