-- ===== src/Health/Aggregate.antt =====
-- pkg/health/checker.go: what the status of a probe says, and that setting the status of a service
-- keeps it true.
use meridio.Base.{
  ◌≡◌, ◌≢◌, refl, ap, sym, subst, ◌∙◌, Bool, true, false, ◌&&◌, ◌||◌, some, String, List, [], ◌∷◌,
  ◌==◌, string_eq, contains, Bool-cases, Option-cases, inl, inr, arith,
}
use meridio.Base.Dict.{Dict, lookup}
use meridio.Health.{
  ServingStatus, HealthServer, is_probe, members_at, Checker, is_serving, serves, status_if,
  all_serve, aggregate_probe, aggregate, is_empty, set_serving_status,
}

-- The links are the same from both sides and lead from probes to services that are no probes; the
-- status of a probe with subservices is that of all of them together.
pub record IsAggregated (H : HealthServer) (c : Checker H) : Type 0 where
  pub linked :
      (p s : String)
      → contains (members_at s c.sub_service_to_probes) p
        ≡ contains (members_at p c.probe_to_sub_services) s
  pub probes :
      (p s : String)
      → contains (members_at p c.probe_to_sub_services) s ≡ true
      → (is_probe p ≡ true) × (is_probe s ≡ false)
  pub status :
      (p s : String)
      → contains (members_at p c.probe_to_sub_services) s ≡ true
      → H.check p c.server
        ≡ some (status_if (all_serve H (members_at p c.probe_to_sub_services) c.server))

is_last : (p q : String) (b : Bool) → (p == q || b) ≡ true → b ≡ false → p ≡ q
is_last p q b h out = ground arith

and_again : (a b : Bool) → (a && (a && b)) ≡ (a && b)
and_again true b = refl
and_again false b = refl

is_empty-contains : (ss : List String) (s : String) → is_empty ss ≡ true → contains ss s ≢ true
is_empty-contains [] s e held = cc
is_empty-contains (x ∷ ss) s e held = cc

module _ (H : HealthServer) where
  pub all_serve-serves :
      (ss : List String) (v w : H.State)
      → ((s : String) → contains ss s ≡ true → serves H s v ≡ serves H s w)
      → all_serve H ss v ≡ all_serve H ss w
  unfolding all_serve
  all_serve-serves [] v w same = refl
  all_serve-serves (x ∷ ss) v w same =
      ground
        (arith, same x (ground arith), all_serve-serves ss v w (λ s held. same s (ground arith)))

  aggregate_probe_other :
      (st : ServingStatus) (p : String) (links : Dict String (List String)) (w : H.State)
      → (x : String) → x ≢ p
      → H.check x (aggregate_probe H st p links w) ≡ H.check x w
  unfolding aggregate_probe
  aggregate_probe_other st p links w x other = elim (Option-cases (lookup p links)) [
    | inl e ↦ rw (e, aggregate_probe) refl
    | inr (ss, e) ↦ rw (e, aggregate_probe) (H.check-set_ne p x _ w other)
  ]

  -- The status of a name that is not among the probes stays.
  pub aggregate_other :
      (st : ServingStatus) (ps : List String) (links : Dict String (List String)) (w : H.State)
      → (x : String) → contains ps x ≡ false
      → H.check x (aggregate H st ps links w) ≡ H.check x w
  unfolding aggregate
  aggregate_other st [] links w x out = refl
  aggregate_other st (p ∷ ps) links w x out =
      aggregate_other st ps links (aggregate_probe H st p links w) x (ground arith)
      ∙ aggregate_probe_other st p links w x (ground arith)

  aggregate_probe_self :
      (st : ServingStatus) (p : String) (links : Dict String (List String)) (w : H.State)
      → (ss : List String) → lookup p links ≡ some ss
      → H.check p (aggregate_probe H st p links w)
        ≡ some (status_if (is_serving (some st) && all_serve H ss w))
  unfolding aggregate_probe
  aggregate_probe_self st p links w ss e = rw (e, aggregate_probe) (H.check-set_self p _ w)

  -- A probe among them has the status that its subservices have together.
  pub aggregate_self :
      (st : ServingStatus) (ps : List String) (links : Dict String (List String)) (w : H.State)
      → (p : String) (ss : List String) → lookup p links ≡ some ss
      → contains ps p ≡ true
      → ((s : String) → contains ss s ≡ true → contains ps s ≡ false)
      → H.check p (aggregate H st ps links w)
        ≡ some (status_if (is_serving (some st) && all_serve H ss w))
  unfolding aggregate
  aggregate_self st [] links w p ss e held apart = cc
  aggregate_self st (q ∷ ps) links w p ss e held apart = elim (Bool-cases (contains ps p)) [
    | inl later ↦
        aggregate_self st ps links (aggregate_probe H st q links w) p ss e later
          (λ s m. ground (arith, apart s m))
        ∙ ap (λ b. some (status_if (is_serving (some st) && b)))
            (all_serve-serves ss (aggregate_probe H st q links w) w (λ s m.
              ap is_serving (aggregate_probe_other st q links w s (ground (arith, apart s m)))))
    | inr out ↦
        aggregate_other st ps links (aggregate_probe H st q links w) p out
        ∙ subst
            (λ i.
              H.check p (aggregate_probe H st i links w)
              ≡ some (status_if (is_serving (some st) && all_serve H ss w)))
            (is_last p q (contains ps p) held out) (aggregate_probe_self st p links w ss e)
  ]

  -- A name that holds a member has an entry.
  members_at-lookup :
      (p s : String) (links : Dict String (List String))
      → contains (members_at p links) s ≡ true
      → lookup p links ≡ some (members_at p links)
  members_at-lookup p s links held = ground (arith, Option-cases (lookup p links))

  -- Whether one of the services serves is already known from all.
  all_serve_again :
      (ss : List String) (w : H.State) (s : String)
      → contains ss s ≡ true
      → (serves H s w && all_serve H ss w) ≡ all_serve H ss w
  unfolding all_serve
  all_serve_again [] w s held = cc
  all_serve_again (x ∷ ss) w s held = elim (Bool-cases (contains ss s)) [
    | inl later ↦ ground (arith, all_serve_again ss w s later)
    | inr out ↦
        rw (is_last s x (contains ss s) held out) (and_again (serves H x w) (all_serve H ss w))
  ]

-- The state after a service that is no probe has been given its status, and its probes theirs.
module _ (H : HealthServer) (service : String) (st : ServingStatus) (c : Checker H)
    (plain : is_probe service ≡ false) (h : IsAggregated H c) where
  abbrev probes : List String
  probes = members_at service c.sub_service_to_probes

  abbrev before : H.State
  before = H.set_status service st c.server

  abbrev after : H.State
  after = aggregate H st probes c.probe_to_sub_services before

  abbrev subs : String → List String
  subs p = members_at p c.probe_to_sub_services

  probes-apart : (p s : String) → contains (subs p) s ≡ true → contains probes s ≡ false
  probes-apart p s held = ground (
    arith,
    h.linked s service,
    h.probes s service,
    h.probes p s held,
    Bool-cases (contains probes s),
  )

  subs_same : (p : String) → all_serve H (subs p) before ≡ all_serve H (subs p) after
  subs_same p = all_serve-serves H (subs p) before after (λ s held.
      ap is_serving (
        sym (aggregate_other H st probes c.probe_to_sub_services before s (probes-apart p s held))))

  after-status :
      (p s : String)
      → contains (subs p) s ≡ true
      → H.check p after ≡ some (status_if (all_serve H (subs p) after))
  after-status p s held = elim (Bool-cases (contains probes p)) [
    | inl own ↦
        aggregate_self H st probes c.probe_to_sub_services before p (subs p)
          (members_at-lookup H p s c.probe_to_sub_services held) own (probes-apart p)
        ∙ ap (λ b. some (status_if (b && all_serve H (subs p) before)))
            (sym (ap is_serving (H.check-set_self service st c.server)))
        ∙ ap (λ b. some (status_if b))
            (all_serve_again H (subs p) before service (sym (h.linked p service) ∙ own)
              ∙ subs_same p)
    | inr out ↦
        aggregate_other H st probes c.probe_to_sub_services before p out
        ∙ H.check-set_ne service p st c.server (ground (arith, h.probes p s held))
        ∙ h.status p s held
        ∙ ap (λ b. some (status_if b))
            (all_serve-serves H (subs p) c.server before (λ s' held'.
                ap is_serving (
                  sym (H.check-set_ne service s' st c.server (ground (arith, h.linked p service)))))
              ∙ subs_same p)
  ]

-- A probe without subservices has its own status, and no other probe has the status of that one.
own_status :
    (H : HealthServer) (probe : String) (st : ServingStatus) (c : Checker H)
    → is_probe probe ≡ true
    → is_empty (members_at probe c.probe_to_sub_services) ≡ true
    → IsAggregated H c
    → (p s : String) → contains (members_at p c.probe_to_sub_services) s ≡ true
    → H.check p (H.set_status probe st c.server)
      ≡ some (
          status_if
            (all_serve H (members_at p c.probe_to_sub_services) (H.set_status probe st c.server)))
own_status H probe st c is none_left h p s held =
    H.check-set_ne probe p st c.server (λ same.
      is_empty-contains (members_at p c.probe_to_sub_services) s
        (subst (λ i. is_empty (members_at i c.probe_to_sub_services) ≡ true) (sym same) none_left)
        held)
    ∙ h.status p s held
    ∙ ap (λ b. some (status_if b))
        (all_serve-serves H (members_at p c.probe_to_sub_services) c.server
          (H.set_status probe st c.server)
          (λ s' held'.
            ap is_serving
              (sym (H.check-set_ne probe s' st c.server (ground (arith, h.probes p s' held'))))))

-- Once the status of a service has been set, every probe that has subservices serves if and only
-- if all of them serve, if that was so before; the links between them are as they were.
pub set_serving_status-IsAggregated :
    (H : HealthServer) (service : String) (st : ServingStatus) (c : Checker H)
    → IsAggregated H c
    → IsAggregated H (set_serving_status H service st c)
      × ((set_serving_status H service st c).probe_to_sub_services ≡ c.probe_to_sub_services)
      × ((set_serving_status H service st c).sub_service_to_probes ≡ c.sub_service_to_probes)
unfolding set_serving_status
set_serving_status-IsAggregated H service st c h = elim (Bool-cases (is_probe service)) [
  | inl own ↦ elim (Bool-cases (is_empty (members_at service c.probe_to_sub_services))) [
    | inl empty ↦
        rw (own, empty)
          (
            record {
              linked = h.linked;
              probes = h.probes;
              status = own_status H service st c own empty h;
            },
            refl,
            refl,
          )
    | inr full ↦ rw (own, full) (h, refl, refl)
  ]
  | inr plain ↦ rw plain (
    record { linked = h.linked; probes = h.probes; status = after-status H service st c plain h },
    refl,
    refl,
  )
]
