-- ===== src/LoadBalancer/Stream/Watch.antt =====
-- pkg/loadbalancer/stream/loadbalancer.go: `setTargets` and `setFlows`, what the watchers of the
-- configuration call.
use meridio.Base.{
  Bool, true, false, not, Option, none, some, String, List, [], ◌∷◌, ◌++◌, ◌==◌, if◌then◌else◌,
  string_eq,
}
use meridio.Base.Dict.{Dict, keys, lookup, insert, erase}
use meridio.Base.Int.{ℤ, int_eq}
use meridio.Nsp.{Flow}
use meridio.Nsp
use meridio.LoadBalancer.Env.{Env}
use meridio.LoadBalancer.Target.{Target, get_ips, new_target}
use meridio.LoadBalancer.Flow.{new_flow, update}
use meridio.LoadBalancer.Stream.{
  LbError, is_no_target, is_empty, LoadBalancer, add_target, remove_target,
}

-- `delete(remainingFlows, name)`
abbrev pub without : String → List String → List String
without name [] = []
without name (n ∷ ns) = let rest = without name ns in if name == n then rest else n ∷ rest

module _ (E : Env) where
  -- The loop of `setTargets` that makes `newTargetsMap`; targets that are refused are left out.
  unfoldable pub new_targets_map : ℤ → List Nsp.Target → Dict ℤ (Target E) → Dict ℤ (Target E)
  new_targets_map identifier_offset [] m = m
  new_targets_map identifier_offset (target ∷ targets) m =
      elim (new_target E target identifier_offset) [
        | none ↦ new_targets_map identifier_offset targets m
        | some t ↦ new_targets_map identifier_offset targets (insert t.identifier t m)
      ]

  abbrev pub same_ips : Target E → Target E → Bool
  same_ips a b = E.same_set (get_ips E a) (get_ips E b)

  -- A target of the configuration with the identifier and the addresses.
  abbrev pub is_unchanged : Target E → Option (Target E) → Bool
  is_unchanged target none = false
  is_unchanged target (some new_target) = same_ips target new_target

  -- An error of `RemoveTarget`, less the one of the pending loop that is passed over.
  abbrev pub unless_no_target : List LbError → List LbError
  unless_no_target e = if is_no_target e then [] else e

  -- The loop over the pending targets.
  unfoldable pub pending_loop :
      Dict ℤ (Target E)
      → Dict ℤ (Target E)
      → LoadBalancer E
      → LoadBalancer E × (Dict ℤ (Target E) × List LbError)
  pending_loop [] new lb = (lb, (new, []))
  pending_loop ((identifier, pending) ∷ ps) new lb =
      if is_unchanged pending (lookup identifier new)
      then pending_loop ps (erase identifier new) lb
      else (let (lb1, e1) = remove_target E identifier lb in
          let (lb2, (new2, e2)) = pending_loop ps new lb1 in
          (lb2, (new2, unless_no_target e1 ++ e2)))

  -- The loop over the targets.
  unfoldable pub targets_loop :
      Dict ℤ (Target E)
      → Dict ℤ (Target E)
      → LoadBalancer E
      → LoadBalancer E × (Dict ℤ (Target E) × List LbError)
  targets_loop [] new lb = (lb, (new, []))
  targets_loop ((identifier, target) ∷ ts) new lb =
      if is_unchanged target (lookup identifier new)
      then targets_loop ts (erase identifier new) lb
      else (let (lb1, e1) = remove_target E identifier lb in
          let (lb2, (new2, e2)) = targets_loop ts new lb1 in (lb2, (new2, e1 ++ e2)))

  -- The loop over the new targets that are left.
  unfoldable pub add_loop : Dict ℤ (Target E) → LoadBalancer E → LoadBalancer E × List LbError
  add_loop [] lb = (lb, [])
  add_loop ((_, target) ∷ ts) lb =
      let (lb1, e1) = add_target E target lb in let (lb2, e2) = add_loop ts lb1 in (lb2, e1 ++ e2)

  -- `setTargets`
  unfoldable pub set_targets : List Nsp.Target → LoadBalancer E → LoadBalancer E × List LbError
  unfolding pending_loop targets_loop add_loop
  set_targets targets lb =
      let new = new_targets_map lb.identifier_offset targets [] in
      let (lb1, (new1, e1)) = pending_loop lb.pending_targets new lb in
      let (lb2, (new2, e2)) = targets_loop lb1.targets new1 lb1 in
      let (lb3, e3) = add_loop new2 lb2 in if lb.running then (lb3, e1 ++ e2 ++ e3) else (lb, [])

  -- One flow of the loop of `setFlows`: the flows after it, and whether its name is done.
  unfoldable pub set_flow : Flow → Dict String Flow → E.World → E.World × (Dict String Flow × Bool)
  set_flow f flows w = elim (lookup f.name flows) [
    | none ↦
        let (w', r) = new_flow E f w in
        elim r [ none ↦ (w', (flows, false)) | some fl ↦ (w', (insert f.name fl flows, true)) ]
    | some fl ↦ let (w', (fl', e)) = update E fl f w in (w', (insert f.name fl' flows, not e))
  ]

  -- The loop of `setFlows` over the flows of the configuration.
  unfoldable pub flows_loop :
      List Flow
      → Dict String Flow
      → List String
      → E.World
      → E.World × (Dict String Flow × List String)
  flows_loop [] flows remaining w = (w, (flows, remaining))
  flows_loop (f ∷ fs) flows remaining w =
      let (w', (flows', done)) = set_flow f flows w in
      flows_loop fs flows' (if done then without f.name remaining else remaining) w'

  -- The loop of `setFlows` over the names that remain.
  unfoldable pub remaining_loop :
      List String → Dict String Flow → E.World → E.World × Dict String Flow
  remaining_loop [] flows w = (w, flows)
  remaining_loop (name ∷ names) flows w = elim (lookup name flows) [
    | none ↦ remaining_loop names flows w
    | some flow ↦ remaining_loop names (erase name flows) (E.delete_flow flow w).0
  ]

  -- `setFlows`
  unfoldable pub set_flows : List Flow → LoadBalancer E → LoadBalancer E
  unfolding flows_loop remaining_loop
  set_flows fs lb =
      let (w1, (flows1, remaining)) = flows_loop fs lb.flows (keys lb.flows) lb.world in
      let (w2, flows2) = remaining_loop remaining flows1 w1 in
      if lb.running
      then record lb { flows = flows2; world = if is_empty flows2 then w2 else E.set_serving w2 }
      else lb
