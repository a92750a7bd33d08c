-- ===== src/Health.antt =====
-- pkg/health/checker.go: the status of a probe follows from those of its subservices. The health
-- server of gRPC, which keeps a status for every service, is a parameter. The sets of names are
-- lists; the order in which Go takes them is any. Check, whose result is that of the server, only
-- writes a log beside it.
pub mod Aggregate
pub mod Loop
pub mod Registration
pub mod Tests
use meridio.Base.{
  ◌≡◌, ◌≢◌, Bool, true, false, ◌&&◌, ◌||◌, Option, none, some, String, List, [], ◌∷◌, ◌==◌,
  string_eq, if◌then◌else◌, contains,
}
use meridio.Base.Dict.{Dict, lookup, insert}

-- `ServingStatus`, of which the checker uses two values.
pub data ServingStatus : Type 0 where
  serving not_serving other : ServingStatus

-- `HealthServer`: `check` is none for a service that it does not know.
pub record HealthServer : Type 1 where
  pub State : Type 0
  pub check : String → State → Option ServingStatus
  pub set_status : String → ServingStatus → State → State
  pub check-set_self :
      (s : String) (v : ServingStatus) (w : State) → check s (set_status s v w) ≡ some v
  pub check-set_ne :
      (s t : String) (v : ServingStatus) (w : State)
      → t ≢ s
      → check t (set_status s v w) ≡ check t w

-- `Startup`, `Readiness`, `Liveness`
unfoldable pub is_probe : String → Bool
is_probe s = s == "Startup" || s == "Readiness" || s == "Liveness"

-- A member of a set.
abbrev pub add_member : String → List String → List String
add_member s members = if contains members s then members else s ∷ members

-- The set that a map holds at the name, which is made if there is none.
abbrev pub members_at : String → Dict String (List String) → List String
members_at s d = elim (lookup s d) [ none ↦ [] | some members ↦ members ]

abbrev pub is_serving : Option ServingStatus → Bool
is_serving none = false
is_serving (some ServingStatus.serving) = true
is_serving (some ServingStatus.not_serving) = false
is_serving (some ServingStatus.other) = false

abbrev pub status_if : Bool → ServingStatus
status_if b = if b then ServingStatus.serving else ServingStatus.not_serving

abbrev pub is_empty : List String → Bool
is_empty [] = true
is_empty (_ ∷ _) = false

module _ (H : HealthServer) where
  -- `Checker`
  pub record Checker : Type 0 where
    pub server : H.State
    pub probe_to_sub_services : Dict String (List String)
    pub sub_service_to_probes : Dict String (List String)

  abbrev pub serves : String → H.State → Bool
  serves s w = is_serving (H.check s w)

  -- A subservice that the server does not know is registered with it.
  unfoldable pub known : String → H.State → H.State
  known s w = elim (H.check s w) [ none ↦ H.set_status s ServingStatus.not_serving w | some _ ↦ w ]

  -- The body of the loop of `RegisterServices`: it links the subservice with the probe.
  unfoldable pub register_one : String → String → Checker → Checker
  register_one probe s c = record {
    server = known s c.server;
    probe_to_sub_services =
        insert probe (add_member s (members_at probe c.probe_to_sub_services))
          c.probe_to_sub_services;
    sub_service_to_probes =
        insert s (add_member probe (members_at s c.sub_service_to_probes)) c.sub_service_to_probes;
  }

  -- The loop of `RegisterServices`, which returns also whether all were serving.
  unfoldable pub register_loop : String → List String → Checker → Checker × Bool
  register_loop probe [] c = (c, true)
  register_loop probe (s ∷ services) c =
      let (c', all) = register_loop probe services (register_one probe s c) in
      (c', serves s c.server && all)

  -- `RegisterServices`
  unfoldable pub register_services : String → List String → Checker → Checker
  unfolding register_loop
  register_services probe services c =
      let made = record c {
        probe_to_sub_services =
            insert probe (members_at probe c.probe_to_sub_services) c.probe_to_sub_services;
      } in
      let (c', all) = register_loop probe services made in
      record c' { server = H.set_status probe (status_if all) c'.server }

  unfoldable pub all_serve : List String → H.State → Bool
  all_serve [] w = true
  all_serve (s ∷ ss) w = serves s w && all_serve ss w

  -- The body of the loop of `SetServingStatus`: the probe takes the status that its subservices
  -- have together. If the new status of the subservice is not serving, the others do not matter.
  unfoldable pub aggregate_probe :
      ServingStatus → String → Dict String (List String) → H.State → H.State
  unfolding all_serve
  aggregate_probe status probe links w = elim (lookup probe links) [
    | none ↦ w
    | some sub_services ↦
        H.set_status probe (status_if (is_serving (some status) && all_serve sub_services w)) w
  ]

  -- The loop of `SetServingStatus` over the probes of a subservice.
  unfoldable pub aggregate :
      ServingStatus → List String → Dict String (List String) → H.State → H.State
  aggregate status [] links w = w
  aggregate status (probe ∷ probes) links w =
      aggregate status probes links (aggregate_probe status probe links w)

  -- `SetServingStatus`
  unfoldable pub set_serving_status : String → ServingStatus → Checker → Checker
  unfolding is_probe aggregate
  set_serving_status service status c =
      if is_probe service
      then (if is_empty (members_at service c.probe_to_sub_services)
          then record c { server = H.set_status service status c.server }
          else c)
      else record c {
        server =
            aggregate status (members_at service c.sub_service_to_probes) c.probe_to_sub_services
              (H.set_status service status c.server);
      }
