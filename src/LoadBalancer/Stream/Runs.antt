-- ===== src/LoadBalancer/Stream/Runs.antt =====
-- A stream's load balancer under any calls, in any order.
use meridio.Base.{refl, true, false, List, [], ◌∷◌, arith, Bool-cases, inl, inr}
use meridio.Base.Dict.{Dict}
use meridio.Base.Int.{ℤ}
use meridio.Nsp
use meridio.LoadBalancer.Env.{Env}
use meridio.LoadBalancer.Target.{Target}
use meridio.LoadBalancer.Stream.{LoadBalancer, add_target, remove_target, remove_all, check, delete}
use meridio.LoadBalancer.Stream.Watch.{set_targets, set_flows}
use meridio.LoadBalancer.Stream.Invariant.{
  IsWellFormed, same_maps-IsWellFormed, add_target-IsWellFormed, remove_target-IsWellFormed,
  check-IsWellFormed, set_targets-IsWellFormed,
}

module _ (E : Env) where
  pub data Call : Type 0 where
    set_targets_call : List Nsp.Target → Call
    set_flows_call : List Nsp.Flow → Call
    check_call delete_call : Call
    add_target_call : Target E → Call
    remove_target_call : ℤ → Call

  unfoldable pub step : Call → LoadBalancer E → LoadBalancer E
  step (set_targets_call targets) lb = (set_targets E targets lb).0
  step (set_flows_call flows) lb = set_flows E flows lb
  step check_call lb = check E lb
  step delete_call lb = (delete E lb).0
  step (add_target_call target) lb = (add_target E target lb).0
  step (remove_target_call identifier) lb = (remove_target E identifier lb).0

  unfoldable pub run : List Call → LoadBalancer E → LoadBalancer E
  run [] lb = lb
  run (c ∷ cs) lb = run cs (step c lb)

  remove_all-IsWellFormed :
      (ts : Dict ℤ (Target E)) (lb : LoadBalancer E)
      → IsWellFormed E lb
      → IsWellFormed E (remove_all E ts lb).0
  unfolding remove_all remove_target
  remove_all-IsWellFormed [] lb h = h
  remove_all-IsWellFormed ((k, t) ∷ ts) lb h =
      remove_all-IsWellFormed ts (remove_target E k lb).0 (remove_target-IsWellFormed E k true lb h)

  delete-IsWellFormed : (lb : LoadBalancer E) → IsWellFormed E lb → IsWellFormed E (delete E lb).0
  unfolding delete
  delete-IsWellFormed lb h =
      same_maps-IsWellFormed E (remove_all E lb.targets (record lb { running = false })).0 _ refl
        refl
        (remove_all-IsWellFormed lb.targets (record lb { running = false })
          (same_maps-IsWellFormed E lb (record lb { running = false }) refl refl h))

  set_flows-IsWellFormed :
      (flows : List Nsp.Flow) (lb : LoadBalancer E)
      → IsWellFormed E lb
      → IsWellFormed E (set_flows E flows lb)
  unfolding set_flows
  set_flows-IsWellFormed flows lb h = elim (Bool-cases lb.running) [
    | inl e ↦
        same_maps-IsWellFormed E lb (set_flows E flows lb) (ground (arith, e)) (ground (arith, e)) h
    | inr e ↦
        same_maps-IsWellFormed E lb (set_flows E flows lb) (ground (arith, e)) (ground (arith, e)) h
  ]

  step-IsWellFormed :
      (c : Call) (lb : LoadBalancer E) → IsWellFormed E lb → IsWellFormed E (step c lb)
  unfolding step remove_target
  step-IsWellFormed (set_targets_call targets) lb h = set_targets-IsWellFormed E targets lb h
  step-IsWellFormed (set_flows_call flows) lb h = set_flows-IsWellFormed flows lb h
  step-IsWellFormed check_call lb h = check-IsWellFormed E lb h
  step-IsWellFormed delete_call lb h = delete-IsWellFormed lb h
  step-IsWellFormed (add_target_call target) lb h = add_target-IsWellFormed E target lb h
  step-IsWellFormed (remove_target_call identifier) lb h =
      remove_target-IsWellFormed E identifier true lb h

  -- Over any environment, calls in any order keep the maps of targets well formed: in each map and
  -- in both together an identifier has one entry at most, and an active target stands under its
  -- own identifier.
  pub run-IsWellFormed :
      (cs : List Call) (lb : LoadBalancer E) → IsWellFormed E lb → IsWellFormed E (run cs lb)
  unfolding run
  run-IsWellFormed [] lb h = h
  run-IsWellFormed (c ∷ cs) lb h = run-IsWellFormed cs (step c lb) (step-IsWellFormed c lb h)
