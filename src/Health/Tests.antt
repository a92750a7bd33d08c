-- ===== src/Health/Tests.antt =====
-- Runs of the checker of health, over a server that keeps a status for every name.
use meridio.Base.{◌≡◌, refl, some, String, [], ◌∷◌, string_eq, arith}
use meridio.Base.Dict.{Dict, lookup, insert, lookup-insert_self, lookup-insert_ne}
use meridio.Health.{
  ServingStatus, HealthServer, is_probe, Checker, register_one, register_loop, register_services,
  known, all_serve, aggregate, aggregate_probe, set_serving_status,
}
use meridio.Health.Aggregate.{IsAggregated, set_serving_status-IsAggregated}
use meridio.Health.Registration.{register_services-IsAggregated}

abbrev in_memory : HealthServer
in_memory = record {
  State = Dict String ServingStatus;
  check = λ s w. lookup s w;
  set_status = λ s v w. insert s v w;
  check-set_self = λ s v w. lookup-insert_self s v w;
  check-set_ne = λ s t v w other. lookup-insert_ne t s v w other;
}

abbrev empty : Checker in_memory
empty = record { server = []; probe_to_sub_services = []; sub_service_to_probes = [] }

abbrev registered : Checker in_memory
registered = register_services in_memory "Readiness" ("NSPCli" ∷ "LBConn" ∷ []) empty

abbrev one_up : Checker in_memory
one_up = set_serving_status in_memory "NSPCli" ServingStatus.serving registered

one_is_down : lookup "Readiness" one_up.server ≡ some ServingStatus.not_serving
unfolding register_services register_loop register_one known set_serving_status aggregate
    aggregate_probe all_serve is_probe lookup insert string_eq
one_is_down = refl

all_are_up :
    lookup "Readiness" (set_serving_status in_memory "LBConn" ServingStatus.serving one_up).server
    ≡ some ServingStatus.serving
unfolding register_services register_loop register_one known set_serving_status aggregate
    aggregate_probe all_serve is_probe lookup insert string_eq
all_are_up = refl

-- A probe that is registered again counts the new services only.
registered_again :
    lookup "Readiness" (register_services in_memory "Readiness" ("NSPCli" ∷ []) one_up).server
    ≡ some ServingStatus.serving
unfolding register_services register_loop register_one known set_serving_status aggregate
    aggregate_probe all_serve is_probe lookup insert string_eq
registered_again = refl

empty-IsAggregated : IsAggregated in_memory empty
unfolding lookup
empty-IsAggregated = record {
  linked = λ p s. refl;
  probes = λ p s held. absurd (ground arith);
  status = λ p s held. absurd (ground arith);
}

register_services-IsAggregated_example :
    IsAggregated in_memory
      (register_services in_memory "Readiness" ("NSPCli" ∷ "LBConn" ∷ []) empty)
unfolding lookup is_probe string_eq
register_services-IsAggregated_example =
    register_services-IsAggregated in_memory "Readiness" ("NSPCli" ∷ "LBConn" ∷ []) empty refl
      (refl, (refl, tt)) (λ s. refl) empty-IsAggregated

set_serving_status-IsAggregated_example :
    IsAggregated in_memory (set_serving_status in_memory "NSPCli" ServingStatus.serving registered)
    × ((set_serving_status in_memory "NSPCli" ServingStatus.serving
          registered).probe_to_sub_services
        ≡ registered.probe_to_sub_services)
    × ((set_serving_status in_memory "NSPCli" ServingStatus.serving
          registered).sub_service_to_probes
        ≡ registered.sub_service_to_probes)
unfolding lookup is_probe string_eq
set_serving_status-IsAggregated_example =
    set_serving_status-IsAggregated in_memory "NSPCli" ServingStatus.serving
      (register_services in_memory "Readiness" ("NSPCli" ∷ "LBConn" ∷ []) empty)
      (register_services-IsAggregated in_memory "Readiness" ("NSPCli" ∷ "LBConn" ∷ []) empty refl
        (refl, (refl, tt)) (λ s. refl) empty-IsAggregated)
