-- ===== src/LoadBalancer/Stream/SetTargets.antt =====
-- `setTargets` as a whole.
use meridio.Base.{
  ◌≡◌, refl, sym, ap, ◌∙◌, ◌⊎◌, subst, inl, inr, true, false, ◌&&◌, Option, none, some, List, [],
  arith, Bool-cases, String,
}
use meridio.Base.Dict.{Dict, is_some, lookup}
use meridio.Base.Int.{ℤ, int_eq}
use meridio.Nsp
use meridio.LoadBalancer.Env.{Env}
use meridio.LoadBalancer.Target.{Target}
use meridio.LoadBalancer.Stream.{LoadBalancer}
use meridio.LoadBalancer.Stream.Keyed.{new_targets_map-Keyed, new_targets_map-NodupKeys}
use meridio.LoadBalancer.Stream.Settles.{
  IsSound, Slot, settle, slot, pending_loop-settle, targets_loop-settle,
}
use meridio.LoadBalancer.Stream.Invariant.{IsWellFormed}
use meridio.LoadBalancer.Stream.Configured.{
  Configured, is_absent, is_active, is_waiting, add_loop_absent, add_loop_new,
}
use meridio.LoadBalancer.Stream.Watch.{
  same_ips, new_targets_map, pending_loop, targets_loop, add_loop, set_targets,
}

module _ (E : Env) where
  -- Seen from one identifier both loops together leave nothing but the new target, or no new target
  -- and what is held for it.
  settle_twice :
      (n t p : Option (Target E))
      → is_some t && is_some p ≡ false
      → (let s = settle E p (n, (t, p)) in
          (settle E s.1.0 s ≡ (n, (none, none)))
          ⊎ (((settle E s.1.0 s).0 ≡ none)
              × Configured E n (settle E s.1.0 s).1.0 (settle E s.1.0 s).1.1))
  settle_twice n (some t) (some p) h = cc
  settle_twice n none none h = inl refl
  settle_twice none (some t) none h = inl refl
  settle_twice none none (some p) h = inl refl
  settle_twice (some c) (some t) none h = elim (Bool-cases (same_ips E t c)) [
    | inl same ↦ rw same (inr (refl, is_active c t refl refl refl same))
    | inr other ↦ rw other (inl refl)
  ]
  settle_twice (some c) none (some p) h = elim (Bool-cases (same_ips E p c)) [
    | inl same ↦ rw same (inr (refl, is_waiting c p refl refl refl same))
    | inr other ↦ rw other (inl refl)
  ]

  -- The last loop, from the two outcomes of the others.
  add_loop-Configured :
      ((ips : List String) → E.same_set ips ips ≡ true)
      → (new : Dict ℤ (Target E)) (lb : LoadBalancer E) (n : Option (Target E)) (j : ℤ)
      → IsSound E new lb
      → ((slot E j new lb ≡ (n, (none, none)))
          ⊎ ((lookup j new ≡ none)
              × Configured E n (lookup j lb.targets) (lookup j lb.pending_targets)))
      → (let lb' = (add_loop E new lb).0 in
          Configured E n (lookup j lb'.targets) (lookup j lb'.pending_targets))
  add_loop-Configured same_self new lb n j s (inr (gone, held)) =
      let (f, g) = add_loop_absent E new lb j s.keyed_new gone in rw (f, g) held
  add_loop-Configured same_self new lb none j s (inl e) =
      let (f, g) = add_loop_absent E new lb j s.keyed_new (ap (λ (s : Slot E). s.0) e) in
      is_absent refl (f ∙ ap (λ (s : Slot E). s.1.0) e) (g ∙ ap (λ (s : Slot E). s.1.1) e)
  add_loop-Configured same_self new lb (some c) j s (inl e) =
      add_loop_new E same_self new lb j c s.keyed_new s.nodup_new (ap (λ (s : Slot E). s.0) e)
        (ap (λ (s : Slot E). s.1.0) e) (ap (λ (s : Slot E). s.1.1) e)

  -- When the stream runs and its maps are well formed, then after `setTargets`, for every
  -- identifier: without an enabled target of that identifier in the configuration none is held,
  -- and with one there is exactly one target held, active or pending, and its set of addresses is
  -- that of the configured target. It is assumed that a set of addresses equals itself.
  pub set_targets-Configured :
      ((ips : List String) → E.same_set ips ips ≡ true)
      → (targets : List Nsp.Target) (lb : LoadBalancer E) → IsWellFormed E lb
      → lb.running ≡ true
      → (j : ℤ)
      → Configured E
          (lookup j (new_targets_map E lb.identifier_offset targets []))
          (lookup j (set_targets E targets lb).0.targets)
          (lookup j (set_targets E targets lb).0.pending_targets)
  unfolding set_targets
  set_targets-Configured same_self targets lb h running j =
      let new = new_targets_map E lb.identifier_offset targets [] in
      let p = pending_loop E lb.pending_targets new lb in
      let r = targets_loop E p.0.targets p.1.0 p.0 in
      let sound : IsSound E new lb = record {
        keyed_new = new_targets_map-Keyed E lb.identifier_offset targets [] tt;
        nodup_new = new_targets_map-NodupKeys E lb.identifier_offset targets [] tt;
        keyed = h.keyed;
        nodup = h.nodup;
      } in
      let (s1, f1) = pending_loop-settle E lb.pending_targets new lb h.nodup_pending sound in
      let (s2, f2) = targets_loop-settle E p.0.targets p.1.0 p.0 s1.nodup s1 in
      let slots = f2 j ∙ ap (λ (s : Slot E). settle E s.1.0 s) (f1 j) in
      let outcome : (slot E j r.1.0 r.0 ≡ (lookup j new, (none, none)))
          ⊎ ((lookup j r.1.0 ≡ none)
              × Configured E (lookup j new) (lookup j r.0.targets) (lookup j r.0.pending_targets)) =
        elim (settle_twice (lookup j new) (lookup j lb.targets) (lookup j lb.pending_targets)
          (h.apart j)) [
            | inl e ↦ inl (slots ∙ e)
            | inr kept ↦ inr (
                subst (λ (s : Slot E). (s.0 ≡ none) × Configured E (lookup j new) s.1.0 s.1.1)
                  (sym slots) kept)
          ] in
      subst
        (λ (lb' : LoadBalancer E).
          Configured E (lookup j new) (lookup j lb'.targets) (lookup j lb'.pending_targets))
        {x = (add_loop E r.1.0 r.0).0} {y = (set_targets E targets lb).0} (ground (arith, running))
        (add_loop-Configured same_self r.1.0 r.0 (lookup j new) j s2 outcome)
