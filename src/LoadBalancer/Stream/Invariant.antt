-- ===== src/LoadBalancer/Stream/Invariant.antt =====
-- The invariant of the two maps of targets, kept by every operation.
use meridio.Base.{
  ◌≡◌, subst, inl, inr, Bool, true, false, ◌&&◌, none, List, [], ◌∷◌, arith, Bool-cases,
  Option-cases, eq→≡, eq_refl,
}
use meridio.Base.Dict.{
  Dict, is_some, lookup, insert, erase, NodupKeys, insert-NodupKeys, erase-NodupKeys, lookup-erase,
  lookup-insert,
}
use meridio.Base.Int.{ℤ, int_eq}
use meridio.Nsp
use meridio.LoadBalancer.Env.{Env}
use meridio.LoadBalancer.Target.{Target, verify, cleared}
use meridio.LoadBalancer.Stream.{
  LoadBalancer, add_pending_target, add_target, remove_target_with, remove_target, verify_loop,
  verify_targets, retry_loop, retry_pending_targets, check,
}
use meridio.LoadBalancer.Stream.Keyed.{Keyed, insert-Keyed, erase-Keyed}
use meridio.LoadBalancer.Stream.Steps.{
  Removed, remove_target_with-Removed, Added, active, waiting, add_target-Added,
}
use meridio.LoadBalancer.Stream.Watch.{
  is_unchanged, new_targets_map, pending_loop, targets_loop, add_loop, set_targets,
}

module _ (E : Env) where
  -- No identifier stands twice in a map or in both, and an active target stands under its own.
  pub record IsWellFormed (lb : LoadBalancer E) : Type 0 where
    pub keyed : Keyed E lb.targets
    pub nodup : NodupKeys lb.targets
    pub nodup_pending : NodupKeys lb.pending_targets
    pub apart :
        (j : ℤ) → is_some (lookup j lb.targets) && is_some (lookup j lb.pending_targets) ≡ false

  Removed-IsWellFormed :
      (k : ℤ) (lb lb' : LoadBalancer E) → Removed E k lb lb' → IsWellFormed lb → IsWellFormed lb'
  Removed-IsWellFormed k lb lb' r h = record {
    keyed = rw r.targets (erase-Keyed E k lb.targets h.keyed);
    nodup = rw r.targets (erase-NodupKeys k lb.targets h.nodup);
    nodup_pending = rw r.pending (erase-NodupKeys k lb.pending_targets h.nodup_pending);
    apart = λ j.
        rw (r.targets, r.pending)
          (ground
            (arith, h.apart j, lookup-erase j k lb.targets, lookup-erase j k lb.pending_targets));
  }

  add_pending-IsWellFormed :
      (t : Target E) (lb : LoadBalancer E)
      → lookup t.identifier lb.targets ≡ none
      → IsWellFormed lb
      → IsWellFormed (add_pending_target E t lb)
  add_pending-IsWellFormed t lb new h =
      elim (Bool-cases (is_some (lookup t.identifier lb.pending_targets))) [
        | inl e ↦ rw e h
        | inr e ↦ rw e (record {
          keyed = h.keyed;
          nodup = h.nodup;
          nodup_pending = insert-NodupKeys t.identifier t lb.pending_targets h.nodup_pending;
          apart = λ j. ground (
            arith,
            h.apart j,
            lookup-insert j t.identifier t lb.pending_targets,
            new,
            eq→≡ j t.identifier,
          );
        })
      ]

  -- The invariant only reads the two maps.
  pub same_maps-IsWellFormed :
      (lb lb' : LoadBalancer E)
      → lb'.targets ≡ lb.targets
      → lb'.pending_targets ≡ lb.pending_targets
      → IsWellFormed lb
      → IsWellFormed lb'
  same_maps-IsWellFormed lb lb' e f h = record {
    keyed = rw e h.keyed;
    nodup = rw e h.nodup;
    nodup_pending = rw f h.nodup_pending;
    apart = λ j. rw (e, f) (h.apart j);
  }

  Added-IsWellFormed :
      (t : Target E) (lb lb' : LoadBalancer E)
      → lookup t.identifier lb.targets ≡ none
      → Added E t lb lb'
      → IsWellFormed lb
      → IsWellFormed lb'
  Added-IsWellFormed t lb lb' new (active a same id e f) h = record {
    keyed =
        rw e
          (subst (λ i. Keyed E (insert i a lb.targets)) id (insert-Keyed E a lb.targets h.keyed));
    nodup = rw e (insert-NodupKeys t.identifier a lb.targets h.nodup);
    nodup_pending = rw f (erase-NodupKeys t.identifier lb.pending_targets h.nodup_pending);
    apart = λ j.
        rw (e, f)
          (ground (
            arith,
            h.apart j,
            lookup-insert j t.identifier a lb.targets,
            lookup-erase j t.identifier lb.pending_targets,
          ));
  }
  Added-IsWellFormed t lb lb' new (waiting a same id e f) h =
      same_maps-IsWellFormed (add_pending_target E a lb) lb' (ground (arith, e, id))
        (ground (arith, f, id)) (add_pending-IsWellFormed a lb (rw id new) h)

  pub add_target-IsWellFormed :
      (t : Target E) (lb : LoadBalancer E) → IsWellFormed lb → IsWellFormed (add_target E t lb).0
  unfolding add_target
  add_target-IsWellFormed t lb h = elim (Option-cases (lookup t.identifier lb.targets)) [
    | inl new ↦ Added-IsWellFormed t lb (add_target E t lb).0 new (add_target-Added E t lb new) h
    | inr (a, old) ↦ subst IsWellFormed {x = lb} (ground (arith, old)) h
  ]

  pub remove_target-IsWellFormed :
      (k : ℤ) (flag : Bool) (lb : LoadBalancer E)
      → IsWellFormed lb
      → IsWellFormed (remove_target_with E k flag lb).0
  remove_target-IsWellFormed k flag lb h =
      Removed-IsWellFormed k lb _ (remove_target_with-Removed E k flag lb h.keyed) h

  -- A target that fails its verification is moved from one map to the other.
  verify_loop-IsWellFormed :
      (ts : Dict ℤ (Target E)) (lb : LoadBalancer E)
      → IsWellFormed lb
      → IsWellFormed (verify_loop E ts lb)
  unfolding verify_loop
  verify_loop-IsWellFormed [] lb h = h
  verify_loop-IsWellFormed ((k, t) ∷ ts) lb h = elim (Bool-cases (verify E t lb.world)) [
    | inl fine ↦ rw fine (verify_loop-IsWellFormed ts lb h)
    | inr broken ↦
        let r = remove_target_with-Removed E t.identifier false lb h.keyed in
        let lb1 = (remove_target_with E t.identifier false lb).0 in
        let gone : lookup t.identifier lb1.targets ≡ none = rw r.targets (
          ground
            (arith, lookup-erase t.identifier t.identifier lb.targets, eq_refl t.identifier)) in
        rw broken (
          verify_loop-IsWellFormed ts (add_pending_target E (cleared E t) lb1) (
            add_pending-IsWellFormed (cleared E t) lb1 gone
              (remove_target-IsWellFormed t.identifier false lb h)))
  ]

  retry_loop-IsWellFormed :
      (ts : Dict ℤ (Target E)) (lb : LoadBalancer E)
      → IsWellFormed lb
      → IsWellFormed (retry_loop E ts lb)
  unfolding retry_loop
  retry_loop-IsWellFormed [] lb h = h
  retry_loop-IsWellFormed ((k, t) ∷ ts) lb h =
      retry_loop-IsWellFormed ts (add_target E t lb).0 (add_target-IsWellFormed t lb h)

  pub check-IsWellFormed : (lb : LoadBalancer E) → IsWellFormed lb → IsWellFormed (check E lb)
  unfolding check verify_targets retry_pending_targets
  check-IsWellFormed lb h =
      let verified = verify_loop-IsWellFormed lb.targets lb h in
      let retried =
        retry_loop-IsWellFormed (verify_targets E lb).pending_targets (verify_targets E lb)
          verified in
      same_maps-IsWellFormed (retry_pending_targets E (verify_targets E lb)) (check E lb)
        (ground arith) (ground arith) retried

  pending_loop-IsWellFormed :
      (ts new : Dict ℤ (Target E)) (lb : LoadBalancer E)
      → IsWellFormed lb
      → IsWellFormed (pending_loop E ts new lb).0
  unfolding pending_loop remove_target
  pending_loop-IsWellFormed [] new lb h = h
  pending_loop-IsWellFormed ((k, t) ∷ ts) new lb h =
      elim (Bool-cases (is_unchanged E t (lookup k new))) [
        | inl same ↦ rw same (pending_loop-IsWellFormed ts (erase k new) lb h)
        | inr other ↦ rw other (
            pending_loop-IsWellFormed ts new (remove_target E k lb).0
              (remove_target-IsWellFormed k true lb h))
      ]

  targets_loop-IsWellFormed :
      (ts new : Dict ℤ (Target E)) (lb : LoadBalancer E)
      → IsWellFormed lb
      → IsWellFormed (targets_loop E ts new lb).0
  unfolding targets_loop remove_target
  targets_loop-IsWellFormed [] new lb h = h
  targets_loop-IsWellFormed ((k, t) ∷ ts) new lb h =
      elim (Bool-cases (is_unchanged E t (lookup k new))) [
        | inl same ↦ rw same (targets_loop-IsWellFormed ts (erase k new) lb h)
        | inr other ↦ rw other (
            targets_loop-IsWellFormed ts new (remove_target E k lb).0
              (remove_target-IsWellFormed k true lb h))
      ]

  add_loop-IsWellFormed :
      (ts : Dict ℤ (Target E)) (lb : LoadBalancer E)
      → IsWellFormed lb
      → IsWellFormed (add_loop E ts lb).0
  unfolding add_loop
  add_loop-IsWellFormed [] lb h = h
  add_loop-IsWellFormed ((k, t) ∷ ts) lb h =
      add_loop-IsWellFormed ts (add_target E t lb).0 (add_target-IsWellFormed t lb h)

  pub set_targets-IsWellFormed :
      (targets : List Nsp.Target) (lb : LoadBalancer E)
      → IsWellFormed lb
      → IsWellFormed (set_targets E targets lb).0
  unfolding set_targets
  set_targets-IsWellFormed targets lb h = elim (Bool-cases lb.running) [
    | inr stopped ↦ subst IsWellFormed {x = lb} (ground (arith, stopped)) h
    | inl running ↦
        let new = new_targets_map E lb.identifier_offset targets [] in
        let p = pending_loop E lb.pending_targets new lb in
        let r = targets_loop E p.0.targets p.1.0 p.0 in
        let h1 = pending_loop-IsWellFormed lb.pending_targets new lb h in
        let h2 = targets_loop-IsWellFormed p.0.targets p.1.0 p.0 h1 in
        subst IsWellFormed {x = (add_loop E r.1.0 r.0).0} (ground (arith, running))
          (add_loop-IsWellFormed r.1.0 r.0 h2)
  ]
