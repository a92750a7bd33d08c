-- ===== src/LoadBalancer/Stream/Forwarding.antt =====
-- Any calls, in any order, against the registration of the stream.
use meridio.Base.{
  ◌≡◌, refl, ◌∙◌, inl, inr, subst, Bool, false, String, List, [], ◌∷◌, string_eq, arith, Bool-cases,
  Option-cases,
}
use meridio.Base.Dict.{Dict, lookup, erase, keys}
use meridio.Base.Int.{ℤ, int_eq}
use meridio.Nsp
use meridio.Nsp.Slices.{deep_equals}
use meridio.LoadBalancer.Env.{Env}
use meridio.LoadBalancer.Target.{Target}
use meridio.LoadBalancer.Flow.{new_flow, update}
use meridio.LoadBalancer.Stream.{
  LoadBalancer, is_empty, add_target, remove_target, remove_all, delete_flows, delete,
}
use meridio.LoadBalancer.Stream.Registered.{Observes, IsRegistered}
use meridio.LoadBalancer.Stream.Available.{remove_target-IsRegistered}
use meridio.LoadBalancer.Stream.Availability.{add_target-IsRegistered, check-IsRegistered}
use meridio.LoadBalancer.Stream.Runs.{
  Call, set_targets_call, set_flows_call, check_call, delete_call, add_target_call,
  remove_target_call, step, run,
}
use meridio.LoadBalancer.Stream.Watch.{
  is_unchanged, new_targets_map, pending_loop, targets_loop, add_loop, set_targets, set_flow,
  flows_loop, remaining_loop, set_flows,
}

module _ (E : Env) (name : String) (registered : E.World → Bool)
    (o : Observes E name registered) where
  abbrev Good : LoadBalancer E → Type 0
  Good = IsRegistered E name registered o

  pending_loop-IsRegistered :
      (ts new : Dict ℤ (Target E)) (lb : LoadBalancer E)
      → Good lb
      → Good (pending_loop E ts new lb).0
  unfolding pending_loop
  pending_loop-IsRegistered [] new lb h = h
  pending_loop-IsRegistered ((k, t) ∷ ts) new lb h =
      elim (Bool-cases (is_unchanged E t (lookup k new))) [
        | inl same ↦ rw same (pending_loop-IsRegistered ts (erase k new) lb h)
        | inr other ↦ rw other (
            pending_loop-IsRegistered ts new (remove_target E k lb).0
              (remove_target-IsRegistered E name registered o k lb h))
      ]

  targets_loop-IsRegistered :
      (ts new : Dict ℤ (Target E)) (lb : LoadBalancer E)
      → Good lb
      → Good (targets_loop E ts new lb).0
  unfolding targets_loop
  targets_loop-IsRegistered [] new lb h = h
  targets_loop-IsRegistered ((k, t) ∷ ts) new lb h =
      elim (Bool-cases (is_unchanged E t (lookup k new))) [
        | inl same ↦ rw same (targets_loop-IsRegistered ts (erase k new) lb h)
        | inr other ↦ rw other (
            targets_loop-IsRegistered ts new (remove_target E k lb).0
              (remove_target-IsRegistered E name registered o k lb h))
      ]

  add_loop-IsRegistered :
      (ts : Dict ℤ (Target E)) (lb : LoadBalancer E) → Good lb → Good (add_loop E ts lb).0
  unfolding add_loop
  add_loop-IsRegistered [] lb h = h
  add_loop-IsRegistered ((k, t) ∷ ts) lb h =
      add_loop-IsRegistered ts (add_target E t lb).0
        (add_target-IsRegistered E name registered o t lb h)

  set_targets-IsRegistered :
      (targets : List Nsp.Target) (lb : LoadBalancer E)
      → Good lb
      → Good (set_targets E targets lb).0
  unfolding set_targets
  set_targets-IsRegistered targets lb h = elim (Bool-cases lb.running) [
    | inr stopped ↦
        subst Good {x = lb} {y = (set_targets E targets lb).0} (ground (arith, stopped)) h
    | inl running ↦
        let new = new_targets_map E lb.identifier_offset targets [] in
        let p = pending_loop E lb.pending_targets new lb in
        let r = targets_loop E p.0.targets p.1.0 p.0 in
        let h1 = pending_loop-IsRegistered lb.pending_targets new lb h in
        let h2 = targets_loop-IsRegistered p.0.targets p.1.0 p.0 h1 in
        subst Good {x = (add_loop E r.1.0 r.0).0} {y = (set_targets E targets lb).0}
          (ground (arith, running)) (add_loop-IsRegistered r.1.0 r.0 h2)
  ]

  set_flow-registered :
      (f : Nsp.Flow) (flows : Dict String Nsp.Flow) (w : E.World)
      → registered (set_flow E f flows w).0 ≡ registered w
  unfolding set_flow new_flow update
  set_flow-registered f flows w = elim (Option-cases (lookup f.name flows)) [
    | inl e ↦ elim (Bool-cases (E.set_flow f w).1) [
      | inl failed ↦ ground (arith, e, failed, o.set_flow f w)
      | inr fine ↦ ground (arith, e, fine, o.set_flow f w)
    ]
    | inr (fl, e) ↦ elim (Bool-cases (deep_equals fl f)) [
      | inl same ↦ ground (arith, e, same)
      | inr other ↦ ground (arith, e, other, o.set_flow f w)
    ]
  ]

  flows_loop-registered :
      (fs : List Nsp.Flow) (flows : Dict String Nsp.Flow) (remaining : List String) (w : E.World)
      → registered (flows_loop E fs flows remaining w).0 ≡ registered w
  unfolding flows_loop
  flows_loop-registered [] flows remaining w = refl
  flows_loop-registered (f ∷ fs) flows remaining w =
      flows_loop-registered fs _ _ (set_flow E f flows w).0 ∙ set_flow-registered f flows w

  remaining_loop-registered :
      (names : List String) (flows : Dict String Nsp.Flow) (w : E.World)
      → registered (remaining_loop E names flows w).0 ≡ registered w
  unfolding remaining_loop
  remaining_loop-registered [] flows w = refl
  remaining_loop-registered (n ∷ names) flows w = elim (Option-cases (lookup n flows)) [
    | inl e ↦ rw (e, remaining_loop) (remaining_loop-registered names flows w)
    | inr (f, e) ↦
        rw (e, remaining_loop)
          (remaining_loop-registered names (erase n flows) (E.delete_flow f w).0
            ∙ o.delete_flow f w)
  ]

  set_flows-IsRegistered :
      (fs : List Nsp.Flow) (lb : LoadBalancer E) → Good lb → Good (set_flows E fs lb)
  unfolding set_flows
  set_flows-IsRegistered fs lb h = elim (Bool-cases lb.running) [
    | inr stopped ↦ subst Good {x = lb} {y = set_flows E fs lb} (ground (arith, stopped)) h
    | inl running ↦
        let f = flows_loop E fs lb.flows (keys lb.flows) lb.world in
        let r = remaining_loop E f.1.1 f.1.0 f.0 in
        let same : registered r.0 ≡ registered lb.world =
          remaining_loop-registered f.1.1 f.1.0 f.0
          ∙ flows_loop-registered fs lb.flows (keys lb.flows) lb.world in
        elim (Bool-cases (is_empty r.1)) [
          | inl e ↦ record {
            named = ground (arith, running, h.named);
            agrees = ground (arith, running, e, same, h.agrees);
          }
          | inr e ↦ record {
            named = ground (arith, running, h.named);
            agrees = ground (arith, running, e, same, h.agrees, o.set_serving r.0);
          }
        ]
  ]

  remove_all-IsRegistered :
      (ts : Dict ℤ (Target E)) (lb : LoadBalancer E) → Good lb → Good (remove_all E ts lb).0
  unfolding remove_all
  remove_all-IsRegistered [] lb h = h
  remove_all-IsRegistered ((k, t) ∷ ts) lb h =
      remove_all-IsRegistered ts (remove_target E k lb).0
        (remove_target-IsRegistered E name registered o k lb h)

  delete_flows-registered :
      (fs : Dict String Nsp.Flow) (w : E.World) → registered (delete_flows E fs w).0 ≡ registered w
  unfolding delete_flows
  delete_flows-registered [] w = refl
  delete_flows-registered ((n, f) ∷ fs) w =
      delete_flows-registered fs (E.delete_flow f w).0 ∙ o.delete_flow f w

  delete-IsRegistered : (lb : LoadBalancer E) → Good lb → Good (delete E lb).0
  unfolding delete
  delete-IsRegistered lb h =
      let r = (remove_all E lb.targets (record lb { running = false })).0 in
      let d =
        remove_all-IsRegistered lb.targets (record lb { running = false })
          (record { named = h.named; agrees = h.agrees }) in
      record {
        named = d.named;
        agrees =
            o.delete_nfqlb (delete_flows E r.flows r.world).0
            ∙ delete_flows-registered r.flows r.world
            ∙ d.agrees;
      }

  step-IsRegistered : (c : Call E) (lb : LoadBalancer E) → Good lb → Good (step E c lb)
  unfolding step
  step-IsRegistered (set_targets_call targets) lb h = set_targets-IsRegistered targets lb h
  step-IsRegistered (set_flows_call flows) lb h = set_flows-IsRegistered flows lb h
  step-IsRegistered check_call lb h = check-IsRegistered E name registered o lb h
  step-IsRegistered delete_call lb h = delete-IsRegistered lb h
  step-IsRegistered (add_target_call target) lb h =
      add_target-IsRegistered E name registered o target lb h
  step-IsRegistered (remove_target_call identifier) lb h =
      remove_target-IsRegistered E name registered o identifier lb h

  -- When only `Register` and `Unregister` of the availability service change whether the stream is
  -- registered, calls in any order keep it registered exactly while it has an active target: after
  -- each call, the delayed update of the periodic check included.
  pub run-IsRegistered :
      (cs : List (Call E)) (lb : LoadBalancer E)
      → IsRegistered E name registered o lb
      → IsRegistered E name registered o (run E cs lb)
  unfolding run
  run-IsRegistered [] lb h = h
  run-IsRegistered (c ∷ cs) lb h = run-IsRegistered cs (step E c lb) (step-IsRegistered c lb h)
