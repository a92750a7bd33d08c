-- ===== src/LoadBalancer/Stream/Configured.antt =====
-- After `setTargets` the targets that are held are those of the configuration.
use meridio.Base.{
  ◌≡◌, refl, sym, ◌∙◌, inl, inr, true, false, Option, none, some, List, [], ◌∷◌, ◌==◌, arith,
  Bool-cases, Option-cases, eq→≡, eq_refl, String,
}
use meridio.Base.Dict.{Dict, lookup, NodupKeys, lookup-erase, lookup-insert}
use meridio.Base.Int.{ℤ, int_eq}
use meridio.LoadBalancer.Env.{Env}
use meridio.LoadBalancer.Target.{Target}
use meridio.LoadBalancer.Stream.{LoadBalancer, add_target}
use meridio.LoadBalancer.Stream.Keyed.{Keyed}
use meridio.LoadBalancer.Stream.Steps.{active, waiting, add_target-Added}
use meridio.LoadBalancer.Stream.Watch.{same_ips, add_loop}

module _ (E : Env) where
  -- What is held under an identifier, for a target of the configuration or none: nothing, or a
  -- target with the same addresses in one of the maps.
  pub data Configured (new held pending : Option (Target E)) : Type 0 where
    is_absent : new ≡ none → held ≡ none → pending ≡ none → Configured new held pending
    is_active :
        (c a : Target E)
        → new ≡ some c
        → held ≡ some a
        → pending ≡ none
        → same_ips E a c ≡ true
        → Configured new held pending
    is_waiting :
        (c a : Target E)
        → new ≡ some c
        → held ≡ none
        → pending ≡ some a
        → same_ips E a c ≡ true
        → Configured new held pending

  -- Adding a target leaves the other identifiers as they are.
  add_target_other :
      (j : ℤ) (t : Target E) (lb : LoadBalancer E)
      → (j == t.identifier) ≡ false
      → (let lb' = (add_target E t lb).0 in
          (lookup j lb'.targets ≡ lookup j lb.targets)
          × (lookup j lb'.pending_targets ≡ lookup j lb.pending_targets))
  unfolding add_target
  add_target_other j t lb e = elim (Option-cases (lookup t.identifier lb.targets)) [
    | inr (a, old) ↦ (ground (arith, old), ground (arith, old))
    | inl new ↦ elim (add_target-Added E t lb new) [
      | active a same id f g ↦ (
        rw f (ground (arith, e, lookup-insert j t.identifier a lb.targets)),
        rw g (ground (arith, e, lookup-erase j t.identifier lb.pending_targets)),
      )
      | waiting a same id f g ↦
          (rw f refl, rw g (ground (arith, e, lookup-insert j t.identifier a lb.pending_targets)))
    ]
  ]

  -- A new target that is not held under its identifier is held after it is added.
  add_target_new :
      ((ips : List String) → E.same_set ips ips ≡ true)
      → (t : Target E) (lb : LoadBalancer E) → lookup t.identifier lb.targets ≡ none
      → lookup t.identifier lb.pending_targets ≡ none
      → (let lb' = (add_target E t lb).0 in
          Configured
            (some t)
            (lookup t.identifier lb'.targets)
            (lookup t.identifier lb'.pending_targets))
  add_target_new same_self t lb no_target no_pending = elim (add_target-Added E t lb no_target) [
    | active a same id f g ↦
        is_active t a refl
          (rw f (
            ground
              (arith, eq_refl t.identifier, lookup-insert t.identifier t.identifier a lb.targets)))
          (rw g (
            ground (
              arith,
              eq_refl t.identifier,
              lookup-erase t.identifier t.identifier lb.pending_targets,
            )))
          (rw same (same_self t.nsp_target.ips))
    | waiting a same id f g ↦
        is_waiting t a refl (rw f no_target)
          (rw g (
            ground (
              arith,
              no_pending,
              eq_refl t.identifier,
              lookup-insert t.identifier t.identifier a lb.pending_targets,
            )))
          (rw same (same_self t.nsp_target.ips))
  ]

  -- The loop over the new targets: one that is not new under an identifier leaves it, and a new one
  -- is held at the end.
  pub add_loop_absent :
      (ts : Dict ℤ (Target E)) (lb : LoadBalancer E) (j : ℤ)
      → Keyed E ts
      → lookup j ts ≡ none
      → (let lb' = (add_loop E ts lb).0 in
          (lookup j lb'.targets ≡ lookup j lb.targets)
          × (lookup j lb'.pending_targets ≡ lookup j lb.pending_targets))
  unfolding add_loop lookup
  add_loop_absent [] lb j h e = (refl, refl)
  add_loop_absent ((k, t) ∷ ts) lb j h e =
      let other : (j == t.identifier) ≡ false = rw h.0 (ground arith) in
      let (f, g) = add_target_other j t lb other in
      let (f', g') = add_loop_absent ts (add_target E t lb).0 j h.1 (ground arith) in
      (f' ∙ f, g' ∙ g)

  pub add_loop_new :
      ((ips : List String) → E.same_set ips ips ≡ true)
      → (ts : Dict ℤ (Target E)) (lb : LoadBalancer E) (j : ℤ) (c : Target E) → Keyed E ts
      → NodupKeys ts
      → lookup j ts ≡ some c
      → lookup j lb.targets ≡ none
      → lookup j lb.pending_targets ≡ none
      → (let lb' = (add_loop E ts lb).0 in
          Configured (some c) (lookup j lb'.targets) (lookup j lb'.pending_targets))
  unfolding add_loop lookup
  add_loop_new same_self [] lb j c h n e no_t no_p = cc
  add_loop_new same_self ((k, t) ∷ ts) lb j c h n e no_t no_p = elim (Bool-cases (j == k)) [
    | inr other ↦
        let other' : (j == t.identifier) ≡ false = rw h.0 other in
        let (f, g) = add_target_other j t lb other' in
        add_loop_new same_self ts (add_target E t lb).0 j c h.1 n.1 (ground (arith, other))
          (f ∙ no_t) (g ∙ no_p)
    | inl same ↦
        let id : j ≡ t.identifier = eq→≡ j k same ∙ sym h.0 in
        let here : t ≡ c = ground (arith, same) in
        let (f, g) = add_loop_absent ts (add_target E t lb).0 j h.1 (rw (eq→≡ j k same) n.0) in
        rw (f, g)
          (rw (← here, id) (add_target_new same_self t lb (rw (← id) no_t) (rw (← id) no_p)))
  ]
