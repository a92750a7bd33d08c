-- ===== src/Ambassador/Manager/Each.antt =====
-- pkg/ambassador/tap/conduit/manager.go: a loop over all streams of the manager.
use meridio.Base.{
  ◌≡◌, ◌≢◌, refl, subst, ◌∙◌, Bool, true, String, List, [], ◌∷◌, string_eq, if◌then◌else◌, contains,
  Option-cases, eq→≡, inl, inr, arith,
}
use meridio.Base.Dict.{Dict, lookup, keys, is_some}
use meridio.Ambassador.Manager.{StreamRetry, StreamManager, for_each}
use meridio.Ambassador.Manager.Opening.{IsOpening, with_at}
use meridio.Ambassador.Manager.Loop.{IsBody, rewanted}
use meridio.Ambassador.Manager.Bodies.{is_configured}

contains-keys :
    (m : String) (d : Dict String StreamRetry)
    → is_some (lookup m d) ≡ true
    → contains (keys d) m ≡ true
unfolding lookup
contains-keys m [] h = h
contains-keys m ((n, sr) ∷ d) h = ground (arith, contains-keys m d)

module _ (body : String → StreamRetry → StreamManager → StreamManager) (wants : Bool → Bool → Bool)
    (h : IsBody body wants) where
  abbrev pub after : List String → (String → Bool) → (String → Bool) → String → Bool
  after names wanted config m = if contains names m then wants (config m) (wanted m) else wanted m

  after-cons :
      (n : String) (names : List String) (wanted config : String → Bool) (m : String)
      → after names (with_at n (wants (config n) (wanted n)) wanted) config m
        ≡ after (n ∷ names) wanted config m
  after-cons n names wanted config m = ground (arith, eq→≡ m n, h.again (config n) (wanted n))

  after-cons_other :
      (n : String) (names : List String) (wanted config : String → Bool) (m : String)
      → m ≢ n
      → after names wanted config m ≡ after (n ∷ names) wanted config m
  after-cons_other n names wanted config m other = ground arith

  pub for_each-config :
      (names : List String) (sm : StreamManager)
      → (for_each body names sm).conduit_streams ≡ sm.conduit_streams
  unfolding for_each
  for_each-config [] sm = refl
  for_each-config (n ∷ names) sm = elim (Option-cases (lookup n sm.streams)) [
    | inl e ↦ rw (e, for_each) (for_each-config names sm)
    | inr (sr, e) ↦ rw (e, for_each) (for_each-config names (body n sr sm) ∙ h.config n sr sm)
  ]

  pub for_each-status :
      (names : List String) (sm : StreamManager) → (for_each body names sm).running ≡ sm.running
  unfolding for_each
  for_each-status [] sm = refl
  for_each-status (n ∷ names) sm = elim (Option-cases (lookup n sm.streams)) [
    | inl e ↦ rw (e, for_each) (for_each-status names sm)
    | inr (sr, e) ↦ rw (e, for_each) (for_each-status names (body n sr sm) ∙ h.status n sr sm)
  ]

  for_each-present :
      (names : List String) (sm : StreamManager) (m : String)
      → is_some (lookup m (for_each body names sm).streams) ≡ is_some (lookup m sm.streams)
  unfolding for_each
  for_each-present [] sm m = refl
  for_each-present (n ∷ names) sm m = elim (Option-cases (lookup n sm.streams)) [
    | inl e ↦ rw (e, for_each) (for_each-present names sm m)
    | inr (sr, e) ↦
        rw (e, for_each) (for_each-present names (body n sr sm) m ∙ h.present m n sr sm e)
  ]

  pub for_each-opens :
      (names : List String) (wanted : String → Bool) (sm : StreamManager)
      → IsOpening wanted sm
      → IsOpening (after names wanted (λ m. is_configured m sm)) (for_each body names sm)
  unfolding for_each
  for_each-opens [] wanted sm k = k
  for_each-opens (n ∷ names) wanted sm k = elim (Option-cases (lookup n sm.streams)) [
    | inl e ↦
        rw (e, for_each)
          (rewanted (after names wanted (λ m. is_configured m sm))
            (after (n ∷ names) wanted (λ m. is_configured m sm)) (for_each body names sm)
            (λ m sr found. ground (
              arith,
              after-cons_other n names wanted (λ i. is_configured i sm) m,
              string_eq.dec m n,
              for_each-present names sm m,
            ))
            (for_each-opens names wanted sm k))
    | inr (sr, e) ↦
        rw (e, for_each)
          (rewanted
            (after names (with_at n (wants (is_configured n sm) (wanted n)) wanted)
              (λ m. is_configured m sm))
            (after (n ∷ names) wanted (λ m. is_configured m sm))
            (for_each body names (body n sr sm))
            (λ m sr' found. after-cons n names wanted (λ i. is_configured i sm) m)
            (subst
              (λ d.
                IsOpening
                  (after names (with_at n (wants (is_configured n sm) (wanted n)) wanted)
                    (λ m. is_some (lookup m d)))
                  (for_each body names (body n sr sm)))
              (h.config n sr sm)
              (for_each-opens names (with_at n (wants (is_configured n sm) (wanted n)) wanted)
                (body n sr sm) (h.opens wanted n sr sm k e))))
  ]

  -- The loop over all streams.
  pub for_all-opens :
      (wanted : String → Bool) (sm : StreamManager)
      → IsOpening wanted sm
      → IsOpening (λ m. wants (is_configured m sm) (wanted m)) (for_each body (keys sm.streams) sm)
  for_all-opens wanted sm k =
      rewanted (after (keys sm.streams) wanted (λ m. is_configured m sm))
        (λ m. wants (is_configured m sm) (wanted m)) (for_each body (keys sm.streams) sm)
        (λ m sr found.
          ground (arith, contains-keys m sm.streams, for_each-present (keys sm.streams) sm m))
        (for_each-opens (keys sm.streams) wanted sm k)
