-- ===== src/LoadBalancer/Env.antt =====
-- What pkg/loadbalancer calls: the routes of pkg/networking, nfqlb, the metrics, the detector of
-- neighbors, the forwarding availability service and the health server. Each call may change the
-- unknown state `World`; a Boolean result is true where the call returned an error.
use meridio.Base.{Bool, Option, String, List}
use meridio.Base.Int.{ℤ}
use meridio.Nsp.{Target, Flow}

pub record Env : Type 1 where
  pub World : Type 0
  pub FwMarkRoute : Type 0
  -- `NewFWMarkRoute(ip, fwmark, tableID)`; `none` is an error.
  pub new_fwmark_route : String → ℤ → ℤ → World → World × Option FwMarkRoute
  pub verify_route : FwMarkRoute → World → Bool
  pub delete_route : FwMarkRoute → World → World × Bool
  pub activate : ℤ → ℤ → World → World × Bool
  pub deactivate : ℤ → World → World × Bool
  pub delete_nfqlb : World → World × Bool
  pub set_flow : Flow → World → World × Bool
  pub delete_flow : Flow → World → World × Bool
  pub register_metrics : ℤ → Target → World → World
  pub unregister_metrics : ℤ → World → World
  pub register_neighbors : List String → World → World
  pub unregister_neighbors : List String → World → World
  pub register_stream : String → World → World
  pub unregister_stream : String → World → World
  pub set_serving : World → World
  -- `sets.New(a...).Equal(sets.New(b...))`
  pub same_set : List String → List String → Bool
