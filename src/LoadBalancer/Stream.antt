-- ===== src/LoadBalancer/Stream.antt =====
-- pkg/loadbalancer/stream/loadbalancer.go: the targets and flows of a stream. The lock makes each
-- method one step. A target that waits is the object that `Delete` has left without routes, so the
-- entry is written after the `Delete` that the code calls on it. The loops over a map run over its
-- entries at the start: of them they remove only the one they are at.
pub mod Watch
pub mod Keyed
pub mod Steps
pub mod Settles
pub mod Invariant
pub mod Runs
pub mod Registered
pub mod Available
pub mod Availability
pub mod Forwarding
pub mod Configured
pub mod SetTargets
use meridio.Base.{
  ℕ, Bool, true, false, not, ◌&&◌, ◌||◌, Option, none, some, String, List, [], ◌∷◌, ◌++◌, ◌==◌,
  if◌then◌else◌,
}
use meridio.Base.Dict.{Dict, is_some, lookup, insert, erase}
use meridio.Base.Int.{ℤ, int_eq, ◌+ℤ◌}
use meridio.Nsp.{Flow}
use meridio.LoadBalancer.Env.{Env}
use meridio.LoadBalancer.Target.{Target, get_ips, verify, configure, cleared}
use meridio.LoadBalancer.Target

-- The parts of an error, by the call that failed; a nil error has none.
pub data LbError : Type 0 where
  already_registered configure_failed activate_failed deactivate_failed delete_failed : LbError
  no_target flow_failed nfqlb_failed : LbError

-- `errors.Is(err, errNoTarget)`
abbrev pub is_no_target : List LbError → Bool
is_no_target [] = false
is_no_target (LbError.no_target ∷ _) = true
is_no_target (_ ∷ es) = is_no_target es

-- One part of an error.
abbrev pub failure : LbError → Bool → List LbError
failure e failed = if failed then e ∷ [] else []

abbrev pub is_empty {ℓ} : {A : Type ℓ} → List A → Bool
is_empty [] = true
is_empty (_ ∷ _) = false

module _ (E : Env) where
  -- `LoadBalancer`; `running` is `isStreamRunning`.
  pub record LoadBalancer : Type 0 where
    pub name : String
    pub identifier_offset : ℤ
    pub running : Bool
    pub targets : Dict ℤ (Target E)
    pub pending_targets : Dict ℤ (Target E)
    pub flows : Dict String Flow
    pub world : E.World

  -- `targetExists`
  abbrev pub target_exists : ℤ → LoadBalancer → Bool
  target_exists identifier lb = is_some (lookup identifier lb.targets)

  -- `addPendingTarget`
  abbrev pub add_pending_target : Target E → LoadBalancer → LoadBalancer
  add_pending_target target lb =
      if is_some (lookup target.identifier lb.pending_targets)
      then lb
      else record lb { pending_targets = insert target.identifier target lb.pending_targets }

  -- `removeFromPendingTargetByIdentifier`
  abbrev pub remove_from_pending : ℤ → LoadBalancer → LoadBalancer
  remove_from_pending identifier lb = record lb {
    pending_targets = erase identifier lb.pending_targets;
  }

  -- The end of `AddTarget` on an error: the target waits, and `Delete` takes its routes away.
  unfoldable pub give_up : LbError → Target E → E.World → LoadBalancer → LoadBalancer × List LbError
  give_up error target w lb =
      let (w', e) = Target.delete E target w in
      (
        add_pending_target (cleared E target) (record lb { world = w' }),
        error ∷ failure delete_failed e,
      )

  -- The end of `AddTarget` when the target is configured and active.
  unfoldable pub admit : Target E → E.World → LoadBalancer → LoadBalancer
  admit target w lb = remove_from_pending target.identifier (record lb {
    targets = insert target.identifier target lb.targets;
    world = E.register_stream lb.name (E.register_neighbors (get_ips E target) w);
  })

  -- `AddTarget` from `Activate` on.
  unfoldable pub activate_target : Target E → E.World → LoadBalancer → LoadBalancer × List LbError
  unfolding give_up admit
  activate_target target w lb =
      let (w', e) = E.activate target.identifier (target.identifier +ℤ lb.identifier_offset) w in
      if e then give_up activate_failed target w' lb else (admit target w' lb, [])

  -- `AddTarget`
  unfoldable pub add_target : Target E → LoadBalancer → LoadBalancer × List LbError
  unfolding activate_target
  add_target target lb =
      let (w, (configured, e)) = configure E target lb.world in
      if target_exists target.identifier lb
      then (lb, already_registered ∷ [])
      else if e
      then give_up configure_failed configured w lb
      else activate_target configured w lb

  -- `removeTarget` of a target that is there.
  unfoldable pub drop_target : Target E → Bool → LoadBalancer → LoadBalancer × List LbError
  drop_target target do_forwarding_availability_update lb =
      let (w1, e1) =
        E.deactivate target.identifier (E.unregister_neighbors (get_ips E target) lb.world) in
      let (w2, e2) = Target.delete E target w1 in
      let targets = erase target.identifier lb.targets in
      (
        record lb {
          targets = targets;
          world =
              if do_forwarding_availability_update && is_empty targets
              then E.unregister_stream lb.name w2
              else w2;
        },
        failure deactivate_failed e1 ++ failure delete_failed e2,
      )

  -- `removeTarget`
  unfoldable pub remove_target_with : ℤ → Bool → LoadBalancer → LoadBalancer × List LbError
  unfolding drop_target
  remove_target_with identifier do_forwarding_availability_update lb =
      elim (lookup identifier lb.targets) [
        | none ↦ (remove_from_pending identifier lb, no_target ∷ [])
        | some target ↦
            drop_target target do_forwarding_availability_update (remove_from_pending identifier lb)
      ]

  -- `RemoveTarget`
  unfoldable pub remove_target : ℤ → LoadBalancer → LoadBalancer × List LbError
  remove_target identifier lb = remove_target_with identifier true lb

  -- The loop of `verifyTargets`.
  unfoldable pub verify_loop : Dict ℤ (Target E) → LoadBalancer → LoadBalancer
  verify_loop [] lb = lb
  verify_loop ((_, target) ∷ ts) lb =
      if verify E target lb.world
      then verify_loop ts lb
      else (let (lb', _) = remove_target_with target.identifier false lb in
          verify_loop ts (add_pending_target (cleared E target) lb'))

  -- `verifyTargets`
  unfoldable pub verify_targets : LoadBalancer → LoadBalancer
  unfolding verify_loop
  verify_targets lb = verify_loop lb.targets lb

  -- The loop of `retryPendingTargets`.
  unfoldable pub retry_loop : Dict ℤ (Target E) → LoadBalancer → LoadBalancer
  retry_loop [] lb = lb
  retry_loop ((_, target) ∷ ts) lb = retry_loop ts (add_target target lb).0

  -- `retryPendingTargets`
  unfoldable pub retry_pending_targets : LoadBalancer → LoadBalancer
  unfolding retry_loop
  retry_pending_targets lb = retry_loop lb.pending_targets lb

  -- `checkf` of `processPendingTargets`
  unfoldable pub check : LoadBalancer → LoadBalancer
  check lb =
      let verified = verify_targets lb in
      let retried = retry_pending_targets verified in
      let all_targets_removed_by_verification =
        not (is_empty lb.targets) && is_empty verified.targets in
      if all_targets_removed_by_verification && is_empty retried.targets
      then record retried { world = E.unregister_stream lb.name retried.world }
      else retried

  -- The first loop of `Delete`.
  unfoldable pub remove_all : Dict ℤ (Target E) → LoadBalancer → LoadBalancer × List LbError
  remove_all [] lb = (lb, [])
  remove_all ((identifier, _) ∷ ts) lb =
      let (lb1, e1) = remove_target identifier lb in
      let (lb2, e2) = remove_all ts lb1 in (lb2, e1 ++ e2)

  -- The second loop of `Delete`.
  unfoldable pub delete_flows : Dict String Flow → E.World → E.World × List LbError
  delete_flows [] w = (w, [])
  delete_flows ((_, flow) ∷ fs) w =
      let (w1, e1) = E.delete_flow flow w in
      let (w2, e2) = delete_flows fs w1 in (w2, failure flow_failed e1 ++ e2)

  -- `Delete`; it ends the context. The monitor of interfaces is left out.
  unfoldable pub delete : LoadBalancer → LoadBalancer × List LbError
  unfolding remove_all delete_flows
  delete lb =
      let (lb1, e1) = remove_all lb.targets (record lb { running = false }) in
      let (w2, e2) = delete_flows lb1.flows lb1.world in
      let (w3, e3) = E.delete_nfqlb w2 in
      (record lb1 { world = w3 }, e1 ++ e2 ++ failure nfqlb_failed e3)
