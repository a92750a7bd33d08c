-- ===== src/LoadBalancer/Flow.antt =====
-- pkg/loadbalancer/flow/flow.go: a flow is the message that nfqlb was given last. The nil checks
-- of `New` are left out.
use meridio.Base.{Bool, true, false, Option, none, some, ◌==◌, if◌then◌else◌}
use meridio.Base.Tests.{string_eq}
use meridio.Nsp.{Flow}
use meridio.Nsp.Slices.{deep_equals}
use meridio.LoadBalancer.Env.{Env}

module _ (E : Env) where
  -- `New`; `none` is its error.
  unfoldable pub new_flow : Flow → E.World → E.World × Option Flow
  new_flow flow w = let (w', e) = E.set_flow flow w in (w', if e then none else some flow)

  -- `Update`: the flow after it, and whether there was an error.
  unfoldable pub update : Flow → Flow → E.World → E.World × (Flow × Bool)
  update f flow w =
      if deep_equals f flow
      then (w, (f, false))
      else if f.name == flow.name
      then (let (w', e) = E.set_flow flow w in (w', (flow, e)))
      else (w, (f, true))

  -- `Delete`
  abbrev pub delete_flow : Flow → E.World → E.World × Bool
  delete_flow f w = E.delete_flow f w
