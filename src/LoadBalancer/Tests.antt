-- ===== src/LoadBalancer/Tests.antt =====
-- Runs of pkg/loadbalancer in an environment in which one address has no route.
use meridio.Base.{
  All, ◌≡◌, refl, Bool, true, false, ◌&&◌, none, some, String, List, [], ◌∷◌, ◌==◌, string_eq,
  contains, arith, if◌then◌else◌, eq→≡, eq_refl, nat_eq,
}
use meridio.Base.Dict.{lookup}
use meridio.Base.Int.{ℤ, pos, int_eq}
use meridio.Nsp
use meridio.Nsp.{Status, TargetType}
use meridio.LoadBalancer.Availability.{new_service, get_target}
use meridio.LoadBalancer.Availability.{Service, register, unregister}
use meridio.LoadBalancer.Availability.Paths.{is_registered, registration_lem}
use meridio.Base.{◌||◌}
use meridio.LoadBalancer.Availability.Current
use meridio.LoadBalancer.Availability.Current.{
  Event, registers, unregisters, watches, advances, IsCurrent, run-IsCurrent,
}
use meridio.LoadBalancer.Env.{Env}
use meridio.LoadBalancer.Target.{Target}
use meridio.LoadBalancer.Stream.{LoadBalancer}
use meridio.LoadBalancer.Stream.Registered.{Observes, IsRegistered}
use meridio.LoadBalancer.Stream.Forwarding.{run-IsRegistered}
use meridio.LoadBalancer.Stream.Invariant.{IsWellFormed}
use meridio.LoadBalancer.Stream.Runs.{
  set_targets_call, check_call, remove_target_call, run, run-IsWellFormed,
}
use meridio.LoadBalancer.Stream.Configured.{Configured}
use meridio.LoadBalancer.Stream.SetTargets.{set_targets-Configured}
use meridio.LoadBalancer.Stream.Watch.{new_targets_map, set_targets}

abbrev subset : List String → List String → Bool
subset [] b = true
subset (x ∷ a) b = contains b x && subset a b

subset_cons : (a b : List String) (y : String) → subset a b ≡ true → subset a (y ∷ b) ≡ true
subset_cons [] b y h = refl
subset_cons (x ∷ a) b y h = ground (arith, subset_cons a b y)

subset_refl : (a : List String) → subset a a ≡ true
subset_refl [] = refl
subset_refl (x ∷ a) = ground (arith, eq_refl x, subset_cons a a x (subset_refl a))

abbrev same_elements : List String → List String → Bool
same_elements a b = subset a b && subset b a

same_elements_refl : (a : List String) → same_elements a a ≡ true
same_elements_refl a = ground (arith, subset_refl a)

-- The state is whether the stream is registered.
abbrev env : Env
env = record {
  World = Bool;
  FwMarkRoute = String;
  new_fwmark_route = λ ip mark table w. (w, (if ip == "10.0.0.9" then none else some ip));
  verify_route = λ route w. true;
  delete_route = λ route w. (w, false);
  activate = λ index identifier w. (w, false);
  deactivate = λ index w. (w, false);
  delete_nfqlb = λ w. (w, false);
  set_flow = λ flow w. (w, false);
  delete_flow = λ flow w. (w, false);
  register_metrics = λ id target w. w;
  unregister_metrics = λ id w. w;
  register_neighbors = λ ips w. w;
  unregister_neighbors = λ ips w. w;
  register_stream = λ name w. true;
  unregister_stream = λ name w. false;
  set_serving = λ w. w;
  same_set = same_elements;
}

abbrev enabled : String → String → Nsp.Target
enabled identifier ip = record {
  ips = ip ∷ [];
  context = ("identifier", identifier) ∷ [];
  status = Status.enabled;
  kind = TargetType.default;
  stream = none;
}

abbrev held : ℤ → String → String → List String → Target env
held id identifier ip routes = record {
  fw_marks = routes;
  nsp_target = enabled identifier ip;
  identifier = id;
  identifier_offset = pos 5000;
}

-- Target 1 is active, target 2 waits.
abbrev balancer : LoadBalancer env
balancer = record {
  name = "stream";
  identifier_offset = pos 5000;
  running = true;
  targets = (pos 1, held (pos 1) "1" "10.0.0.1" ("10.0.0.1" ∷ [])) ∷ [];
  pending_targets = (pos 2, held (pos 2) "2" "10.0.0.9" []) ∷ [];
  flows = [];
  world = true;
}

balancer-IsWellFormed : IsWellFormed env balancer
unfolding lookup
balancer-IsWellFormed = record {
  keyed = (refl, tt);
  nodup = (refl, tt);
  nodup_pending = (refl, tt);
  apart = λ j. ground (arith, eq→≡ j (pos 1), eq→≡ j (pos 2));
}

run-IsWellFormed_example : IsWellFormed env (
    run env
      (set_targets_call (enabled "1" "10.0.0.2" ∷ enabled "3" "10.0.0.9" ∷ [])
        ∷ check_call
        ∷ remove_target_call (pos 1)
        ∷ [])
      balancer)
run-IsWellFormed_example =
    run-IsWellFormed env
      (set_targets_call (enabled "1" "10.0.0.2" ∷ enabled "3" "10.0.0.9" ∷ [])
        ∷ check_call
        ∷ remove_target_call (pos 1)
        ∷ [])
      balancer balancer-IsWellFormed

-- Target 1 has moved to another address.
set_targets-Configured_example :
    Configured env
      (lookup (pos 1) (new_targets_map env (pos 5000) (enabled "1" "10.0.0.2" ∷ []) []))
      (lookup (pos 1) (set_targets env (enabled "1" "10.0.0.2" ∷ []) balancer).0.targets)
      (lookup (pos 1) (set_targets env (enabled "1" "10.0.0.2" ∷ []) balancer).0.pending_targets)
set_targets-Configured_example =
    set_targets-Configured env same_elements_refl (enabled "1" "10.0.0.2" ∷ []) balancer
      balancer-IsWellFormed refl (pos 1)

-- A service with one path and one watcher, whose first message is under way when the path goes.
abbrev path_lost : List Event
path_lost =
    registers "stream"
    ∷ watches
    ∷ advances 0 true
    ∷ unregisters "stream"
    ∷ advances 0 true
    ∷ advances 0 true
    ∷ advances 0 true
    ∷ advances 0 true
    ∷ []

run-IsCurrent_example :
    All
      (IsCurrent {T = String} (get_target (Current.run path_lost (new_service "target" ""))))
      (Current.run path_lost (new_service "target" "")).watch_stream
run-IsCurrent_example = run-IsCurrent "target" "" path_lost

env-Observes : Observes env "stream" (λ w. w)
env-Observes = record {
  register_stream = λ w. refl;
  unregister_stream = λ w. refl;
  new_fwmark_route = λ ip mark table w. refl;
  delete_route = λ r w. refl;
  activate = λ i j w. refl;
  deactivate = λ i w. refl;
  register_metrics = λ i t w. refl;
  unregister_metrics = λ i w. refl;
  register_neighbors = λ ips w. refl;
  unregister_neighbors = λ ips w. refl;
  set_flow = λ f w. refl;
  delete_flow = λ f w. refl;
  delete_nfqlb = λ w. refl;
  set_serving = λ w. refl;
}

run-IsRegistered_example :
    IsRegistered env "stream"
      (λ w. w)
      env-Observes
      (run env
        (set_targets_call (enabled "1" "10.0.0.2" ∷ enabled "3" "10.0.0.9" ∷ [])
          ∷ check_call
          ∷ remove_target_call (pos 1)
          ∷ [])
        balancer)
run-IsRegistered_example =
    run-IsRegistered env "stream" (λ w. w) env-Observes
      (set_targets_call (enabled "1" "10.0.0.2" ∷ enabled "3" "10.0.0.9" ∷ [])
        ∷ check_call
        ∷ remove_target_call (pos 1)
        ∷ [])
      balancer (record { named = refl; agrees = refl })

abbrev one_path : Service String
one_path = record {
  forwarding_plane = some ("a" ∷ []);
  target = "target";
  unavailable_target = "";
  watch_stream = [];
}

registration_lem_example :
    (is_registered "b" (register "b" one_path) ≡ true || is_registered "b" one_path)
    × (is_registered "b" (unregister "b" one_path) ≡ false && is_registered "b" one_path)
unfolding string_eq
registration_lem_example = registration_lem "b" "b" one_path ("a" ∷ []) refl
