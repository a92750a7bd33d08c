-- ===== src/Health/Registration.antt =====
-- pkg/health/checker.go, RegisterServices: the status of a probe that is registered for the first
-- time.
use meridio.Base.{
  ◌≡◌, ◌≢◌, ap, sym, subst, ◌∙◌, true, false, ◌&&◌, ◌||◌, some, String, List, ◌==◌, string_eq,
  contains, Bool-cases, inl, inr, arith, All, eq→≡,
}
use meridio.Base.Dict.{insert}
use meridio.Health.{
  HealthServer, is_probe, members_at, Checker, is_serving, status_if, register_loop,
  register_services, all_serve,
}
use meridio.Health.Aggregate.{IsAggregated, all_serve-serves}
use meridio.Health.Loop.{
  members_at-insert, contains-plain, plain-contains, loop-subs, loop-probes, loop-serves,
  loop_other, loop-members_at, loop-all_serve, all_serve-members,
}

module _ (H : HealthServer) (probe : String) (services : List String) (c : Checker H)
    (own : is_probe probe ≡ true) (plain : All (λ s. is_probe s ≡ false) services)
    (fresh : (s : String) → contains (members_at probe c.probe_to_sub_services) s ≡ false)
    (h : IsAggregated H c) where
  abbrev made : Checker H
  made = record c {
    probe_to_sub_services =
        insert probe (members_at probe c.probe_to_sub_services) c.probe_to_sub_services;
  }

  abbrev looped : Checker H
  looped = (register_loop H probe services made).0

  abbrev registered : H.State
  registered = H.set_status probe (status_if (register_loop H probe services made).1) looped.server

  members_at-made :
      (p : String) → members_at p made.probe_to_sub_services ≡ members_at p c.probe_to_sub_services
  members_at-made p = ground (
    arith,
    members_at-insert p probe (members_at probe c.probe_to_sub_services) c.probe_to_sub_services,
    eq→≡ p probe,
  )

  looped-subs :
      (p s : String)
      → contains (members_at p looped.probe_to_sub_services) s
        ≡ (contains (members_at p c.probe_to_sub_services) s || (p == probe && contains services s))
  looped-subs p s =
      loop-subs H probe services made p s
      ∙ ap (λ m. contains m s || (p == probe && contains services s)) (members_at-made p)

  looped-linked :
      (p s : String)
      → contains (members_at s looped.sub_service_to_probes) p
        ≡ contains (members_at p looped.probe_to_sub_services) s
  looped-linked p s =
      loop-probes H probe services made p s
      ∙ ap (λ b. b || (p == probe && contains services s))
          (h.linked p s ∙ ap (λ m. contains m s) (sym (members_at-made p)))
      ∙ sym (loop-subs H probe services made p s)

  looped-probes :
      (p s : String)
      → contains (members_at p looped.probe_to_sub_services) s ≡ true
      → (is_probe p ≡ true) × (is_probe s ≡ false)
  looped-probes p s held = elim (Bool-cases (contains (members_at p c.probe_to_sub_services) s)) [
    | inl old ↦ h.probes p s old
    | inr new ↦ elim (string_eq.dec p probe) [
      | yes same ↦ (
        subst (λ i. is_probe i ≡ true) (sym same) own,
        contains-plain services s plain (ground (arith, looped-subs p s)),
      )
      | no other ↦ absurd (ground (arith, looped-subs p s))
    ]
  ]

  -- The subservices serve as they did.
  looped-all_serve :
      (p : String)
      → all_serve H (members_at p looped.probe_to_sub_services) registered
        ≡ all_serve H (members_at p looped.probe_to_sub_services) c.server
  looped-all_serve p =
      all_serve-serves H (members_at p looped.probe_to_sub_services) registered c.server (λ s held.
        ap is_serving (
          H.check-set_ne probe s (status_if (register_loop H probe services made).1) looped.server
            (ground (arith, looped-probes p s held)))
        ∙ loop-serves H probe services made s)

  probe-status :
      H.check probe registered
      ≡ some (status_if (all_serve H (members_at probe looped.probe_to_sub_services) registered))
  probe-status =
      H.check-set_self probe (status_if (register_loop H probe services made).1) looped.server
      ∙ ap (λ b. some (status_if b))
          (loop-all_serve H probe services made
            ∙ all_serve-members H services (members_at probe looped.probe_to_sub_services) c.server
                (λ x. ground (arith, looped-subs probe x, fresh x))
            ∙ sym (looped-all_serve probe))

  other-status :
      (p s : String)
      → p ≢ probe
      → contains (members_at p looped.probe_to_sub_services) s ≡ true
      → H.check p registered
        ≡ some (status_if (all_serve H (members_at p looped.probe_to_sub_services) registered))
  other-status p s other held =
      H.check-set_ne probe p (status_if (register_loop H probe services made).1) looped.server other
      ∙ loop_other H probe services made p
          (plain-contains services p plain (looped-probes p s held).0)
      ∙ h.status p s (ground (arith, looped-subs p s))
      ∙ ap (λ b. some (status_if b))
          (ap (λ m. all_serve H m c.server)
              (sym (loop-members_at H probe services made p other ∙ members_at-made p))
            ∙ sym (looped-all_serve p))

  looped-status :
      (p s : String)
      → contains (members_at p looped.probe_to_sub_services) s ≡ true
      → H.check p registered
        ≡ some (status_if (all_serve H (members_at p looped.probe_to_sub_services) registered))
  looped-status p s held = elim (string_eq.dec p probe) [
    | yes same ↦
        subst
          (λ i.
            H.check i registered
            ≡ some (status_if (all_serve H (members_at i looped.probe_to_sub_services) registered)))
          (sym same) probe-status
    | no other ↦ other-status p s other held
  ]

-- When a probe that has no subservices is registered with services that are no probes, every probe
-- that has subservices still serves if and only if all of them serve, and the links between probes
-- and subservices are still the same from both sides.
pub register_services-IsAggregated :
    (H : HealthServer) (probe : String) (services : List String) (c : Checker H)
    → is_probe probe ≡ true
    → All (λ s. is_probe s ≡ false) services
    → ((s : String) → contains (members_at probe c.probe_to_sub_services) s ≡ false)
    → IsAggregated H c
    → IsAggregated H (register_services H probe services c)
unfolding register_services
register_services-IsAggregated H probe services c own plain fresh h = record {
  linked = looped-linked H probe services c own plain fresh h;
  probes = looped-probes H probe services c own plain fresh h;
  status = looped-status H probe services c own plain fresh h;
}
