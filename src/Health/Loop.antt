-- ===== src/Health/Loop.antt =====
-- pkg/health/checker.go, RegisterServices: what the loop over the services leaves.
use meridio.Base.{
  ◌≡◌, ◌≢◌, refl, ap, sym, subst, ◌∙◌, true, false, ◌&&◌, ◌||◌, String, List, [], ◌∷◌, ◌==◌,
  string_eq, if◌then◌else◌, contains, Bool-cases, Option-cases, inl, inr, arith, All, eq→≡,
}
use meridio.Base.Dict.{Dict, insert, lookup-insert}
use meridio.Health.{
  ServingStatus, HealthServer, is_probe, add_member, members_at, Checker, is_serving, serves, known,
  register_one, register_loop, all_serve,
}
use meridio.Health.Aggregate.{all_serve-serves}

contains-add_member :
    (x s : String) (m : List String) → contains (add_member s m) x ≡ (x == s || contains m x)
contains-add_member x s m = ground (arith, eq→≡ x s)

pub members_at-insert :
    (p q : String) (m : List String) (d : Dict String (List String))
    → members_at p (insert q m d) ≡ (if p == q then m else members_at p d)
members_at-insert p q m d = ground (arith, lookup-insert p q m d)

contains-members_at :
    (x p q s : String) (d : Dict String (List String))
    → contains (members_at p (insert q (add_member s (members_at q d)) d)) x
      ≡ (contains (members_at p d) x || (p == q && x == s))
contains-members_at x p q s d = ground (
  arith,
  members_at-insert p q (add_member s (members_at q d)) d,
  contains-add_member x s (members_at q d),
  eq→≡ p q,
)

pub contains-plain :
    (services : List String) (x : String)
    → All (λ s. is_probe s ≡ false) services
    → contains services x ≡ true
    → is_probe x ≡ false
contains-plain [] x plain held = cc
contains-plain (s ∷ services) x plain held = elim (string_eq.dec x s) [
  | yes same ↦ subst (λ i. is_probe i ≡ false) (sym same) plain.0
  | no other ↦ contains-plain services x plain.1 (ground arith)
]

pub plain-contains :
    (services : List String) (x : String)
    → All (λ s. is_probe s ≡ false) services
    → is_probe x ≡ true
    → contains services x ≡ false
plain-contains services x plain own = elim (Bool-cases (contains services x)) [
  | inl held ↦ absurd (ground (arith, contains-plain services x plain held))
  | inr out ↦ out
]

module _ (H : HealthServer) where
  known_other : (x s : String) (w : H.State) → x ≢ s → H.check x (known H s w) ≡ H.check x w
  unfolding known
  known_other x s w other = elim (Option-cases (H.check s w)) [
    | inl e ↦ rw (e, known) (H.check-set_ne s x ServingStatus.not_serving w other)
    | inr (v, e) ↦ rw (e, known) refl
  ]

  known_self : (s : String) (w : H.State) → serves H s (known H s w) ≡ serves H s w
  unfolding known
  known_self s w = elim (Option-cases (H.check s w)) [
    | inl e ↦ rw (e, known) (ap is_serving (H.check-set_self s ServingStatus.not_serving w))
    | inr (v, e) ↦ rw (e, known) (ap is_serving e)
  ]

  -- A service that becomes known to the server does not serve, as before.
  serves-known : (x s : String) (w : H.State) → serves H x (known H s w) ≡ serves H x w
  serves-known x s w = elim (string_eq.dec x s) [
    | yes same ↦ subst (λ i. serves H i (known H s w) ≡ serves H i w) (sym same) (known_self s w)
    | no other ↦ ap is_serving (known_other x s w other)
  ]

  pub loop-subs :
      (probe : String) (services : List String) (c : Checker H) (p x : String)
      → contains (members_at p (register_loop H probe services c).0.probe_to_sub_services) x
        ≡ (contains (members_at p c.probe_to_sub_services) x || (p == probe && contains services x))
  unfolding register_loop register_one
  loop-subs probe [] c p x = ground arith
  loop-subs probe (s ∷ services) c p x = ground (
    arith,
    loop-subs probe services (register_one H probe s c) p x,
    contains-members_at x p probe s c.probe_to_sub_services,
  )

  pub loop-probes :
      (probe : String) (services : List String) (c : Checker H) (p x : String)
      → contains (members_at x (register_loop H probe services c).0.sub_service_to_probes) p
        ≡ (contains (members_at x c.sub_service_to_probes) p || (p == probe && contains services x))
  unfolding register_loop register_one
  loop-probes probe [] c p x = ground arith
  loop-probes probe (s ∷ services) c p x = ground (
    arith,
    loop-probes probe services (register_one H probe s c) p x,
    contains-members_at p x s probe c.sub_service_to_probes,
  )

  pub loop-serves :
      (probe : String) (services : List String) (c : Checker H) (x : String)
      → serves H x (register_loop H probe services c).0.server ≡ serves H x c.server
  unfolding register_loop register_one
  loop-serves probe [] c x = refl
  loop-serves probe (s ∷ services) c x =
      loop-serves probe services (register_one H probe s c) x ∙ serves-known x s c.server

  pub loop_other :
      (probe : String) (services : List String) (c : Checker H) (x : String)
      → contains services x ≡ false
      → H.check x (register_loop H probe services c).0.server ≡ H.check x c.server
  unfolding register_loop register_one
  loop_other probe [] c x out = refl
  loop_other probe (s ∷ services) c x out =
      loop_other probe services (register_one H probe s c) x (ground arith)
      ∙ known_other x s c.server (ground arith)

  pub loop-members_at :
      (probe : String) (services : List String) (c : Checker H) (p : String)
      → p ≢ probe
      → members_at p (register_loop H probe services c).0.probe_to_sub_services
        ≡ members_at p c.probe_to_sub_services
  unfolding register_loop register_one
  loop-members_at probe [] c p other = refl
  loop-members_at probe (s ∷ services) c p other =
      loop-members_at probe services (register_one H probe s c) p other
      ∙ ground (
        arith,
        members_at-insert p probe (add_member s (members_at probe c.probe_to_sub_services))
            c.probe_to_sub_services,
      )

  pub loop-all_serve :
      (probe : String) (services : List String) (c : Checker H)
      → (register_loop H probe services c).1 ≡ all_serve H services c.server
  unfolding register_loop register_one all_serve
  loop-all_serve probe [] c = refl
  loop-all_serve probe (s ∷ services) c =
      ap (λ b. serves H s c.server && b)
        (loop-all_serve probe services (register_one H probe s c)
          ∙ all_serve-serves H services (known H s c.server) c.server
              (λ x held. serves-known x s c.server))

  all_serve-contains :
      (ss : List String) (w : H.State) (x : String)
      → all_serve H ss w ≡ true
      → contains ss x ≡ true
      → serves H x w ≡ true
  unfolding all_serve
  all_serve-contains [] w x all held = cc
  all_serve-contains (s ∷ ss) w x all held = elim (string_eq.dec x s) [
    | yes same ↦ subst (λ i. serves H i w ≡ true) (sym same) (ground arith)
    | no other ↦ all_serve-contains ss w x (ground arith) (ground arith)
  ]

  all_serve-subset :
      (ss ts : List String) (w : H.State)
      → ((x : String) → contains ss x ≡ true → contains ts x ≡ true)
      → all_serve H ts w ≡ true
      → all_serve H ss w ≡ true
  unfolding all_serve
  all_serve-subset [] ts w sub all = refl
  all_serve-subset (s ∷ ss) ts w sub all = ground (
    arith,
    all_serve-contains ts w s all (sub s (ground arith)),
    all_serve-subset ss ts w (λ x held. sub x (ground arith)) all,
  )

  -- Only the members of a set matter.
  pub all_serve-members :
      (ss ts : List String) (w : H.State)
      → ((x : String) → contains ss x ≡ contains ts x)
      → all_serve H ss w ≡ all_serve H ts w
  all_serve-members ss ts w same = ground (
    arith,
    all_serve-subset ss ts w (λ x held. sym (same x) ∙ held),
    all_serve-subset ts ss w (λ x held. same x ∙ held),
  )
