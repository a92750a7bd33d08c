-- ===== src/Nsp.antt =====
-- api/nsp/v1: the messages that the services exchange, and the comparisons and filters on them
-- (utils.go, filter.go, diff.go). A pointer is an Option, nil is `none`; on nil a getter of a field
-- gives the empty value. Fields that no modelled function reads are left out.
pub mod Slices
pub mod PortNats
pub mod Registry
pub mod Memory
pub mod Symmetry
pub mod Sqlite
pub mod KeepAlive
pub mod Tests
use meridio.Base.{
  ℕ, Bool, true, false, not, ◌&&◌, ◌||◌, Option, none, some, String, List, [], ◌∷◌, ◌==◌, Eq,
  string_eq, if◌then◌else◌, length,
}
use meridio.Base.Dict.{Dict, is_some, lookup, insert, values}
use meridio.Base.Int.{ℤ, int_eq}
use native.Mathlib.Decide.{ℕ_discrete}

pub record Trench : Type 0 where
  pub name : String

pub record Conduit : Type 0 where
  pub name : String
  pub trench : Option Trench

pub record Stream : Type 0 where
  pub name : String
  pub conduit : Option Conduit

pub record Vip : Type 0 where
  pub name : String
  pub address : String
  pub trench : Option Trench

pub record Flow : Type 0 where
  pub name : String
  pub source_subnets : List String
  pub destination_port_ranges : List String
  pub source_port_ranges : List String
  pub protocols : List String
  pub priority : ℤ
  pub stream : Option Stream
  pub vips : List Vip
  pub byte_matches : List String

pub record Attractor : Type 0 where
  pub name : String
  pub trench : Option Trench

pub record Gateway : Type 0 where
  pub name : String
  pub trench : Option Trench

pub data Status : Type 0 where
  any enabled disabled : Status

pub data TargetType : Type 0 where
  default frontend : TargetType

status_dec : Discrete Status
status_dec = hlevel

instance unfoldable pub status_eq : Eq Status
unfolding status_dec
status_eq = record { dec = status_dec }

type_dec : Discrete TargetType
type_dec = hlevel

instance unfoldable pub type_eq : Eq TargetType
unfolding type_dec
type_eq = record { dec = type_dec }

pub record Target : Type 0 where
  pub ips : List String
  pub context : Dict String String
  pub status : Status
  pub kind : TargetType
  pub stream : Option Stream

-- The names agree, or one of them is empty.
abbrev pub same_name : String → String → Bool
same_name a b = if not (a == "") && not (b == "") then a == b else true

-- `(t *Trench) Equals`
unfoldable pub trench_equals : Option Trench → Option Trench → Bool
trench_equals none t2 = false
trench_equals (some t) none = false
trench_equals (some t) (some t2) = same_name t.name t2.name

-- `(c *Conduit) Equals`
unfoldable pub conduit_equals : Option Conduit → Option Conduit → Bool
conduit_equals none c2 = false
conduit_equals (some c) none = false
conduit_equals (some c) (some c2) = same_name c.name c2.name && trench_equals c.trench c2.trench

-- `(s *Stream) Equals`: two streams that are both missing are equal.
unfoldable pub stream_equals : Option Stream → Option Stream → Bool
stream_equals none none = true
stream_equals none (some s2) = false
stream_equals (some s) none = false
stream_equals (some s) (some s2) = same_name s.name s2.name && conduit_equals s.conduit s2.conduit

-- `(f *Flow) Equals`
unfoldable pub flow_equals : Option Flow → Option Flow → Bool
flow_equals none f2 = false
flow_equals (some f) none = false
flow_equals (some f) (some f2) = same_name f.name f2.name && stream_equals f.stream f2.stream

-- `(v *Vip) Equals`
unfoldable pub vip_equals : Option Vip → Option Vip → Bool
vip_equals none v2 = false
vip_equals (some v) none = false
vip_equals (some v) (some v2) = same_name v.name v2.name && trench_equals v.trench v2.trench

-- `(a *Attractor) Equals`
unfoldable pub attractor_equals : Option Attractor → Option Attractor → Bool
attractor_equals none a2 = false
attractor_equals (some a) none = false
attractor_equals (some a) (some a2) = same_name a.name a2.name && trench_equals a.trench a2.trench

-- `(g *Gateway) Equals`
unfoldable pub gateway_equals : Option Gateway → Option Gateway → Bool
gateway_equals none g2 = false
gateway_equals (some g) none = false
gateway_equals (some g) (some g2) = same_name g.name g2.name && trench_equals g.trench g2.trench

-- `(t *Target) Equals`
unfoldable pub target_equals : Option Target → Option Target → Bool
target_equals none t2 = false
target_equals (some t) none = false
target_equals (some t) (some t2) =
    (t.status == t2.status || t.status == Status.any || t2.status == Status.any)
    && t.kind == t2.kind
    && (stream_equals t.stream t2.stream || (not (is_some t.stream) && not (is_some t2.stream)))

-- The name of a filter: the empty one admits every name.
abbrev pub admits : String → String → Bool
admits filter name = filter == "" || filter == name

-- `TrenchFilter`
unfoldable pub trench_filter : Option Trench → Option Trench → Bool
trench_filter none none = false
trench_filter none (some t) = true
trench_filter (some f) none = false
trench_filter (some f) (some t) = admits f.name t.name

-- `ConduitFilter`
unfoldable pub conduit_filter : Option Conduit → Option Conduit → Bool
conduit_filter none none = false
conduit_filter none (some c) = true
conduit_filter (some f) none = false
conduit_filter (some f) (some c) =
    admits f.name c.name && (trench_filter f.trench c.trench || not (is_some f.trench))

-- `StreamFilter`
unfoldable pub stream_filter : Option Stream → Option Stream → Bool
stream_filter none none = false
stream_filter none (some s) = true
stream_filter (some f) none = false
stream_filter (some f) (some s) =
    admits f.name s.name && (conduit_filter f.conduit s.conduit || not (is_some f.conduit))

-- `FlowFilter`
unfoldable pub flow_filter : Option Flow → Option Flow → Bool
flow_filter none none = false
flow_filter none (some s) = true
flow_filter (some f) none = false
flow_filter (some f) (some s) =
    admits f.name s.name && (stream_filter f.stream s.stream || not (is_some f.stream))

-- `VipFilter`
unfoldable pub vip_filter : Option Vip → Option Vip → Bool
vip_filter none none = false
vip_filter none (some v) = true
vip_filter (some f) none = false
vip_filter (some f) (some v) =
    admits f.name v.name && (trench_filter f.trench v.trench || not (is_some f.trench))

-- `AttractorFilter`
unfoldable pub attractor_filter : Option Attractor → Option Attractor → Bool
attractor_filter none none = false
attractor_filter none (some a) = true
attractor_filter (some f) none = false
attractor_filter (some f) (some a) =
    admits f.name a.name && (trench_filter f.trench a.trench || not (is_some f.trench))

-- `GatewayFilter`
unfoldable pub gateway_filter : Option Gateway → Option Gateway → Bool
gateway_filter none none = false
gateway_filter none (some g) = true
gateway_filter (some f) none = false
gateway_filter (some f) (some g) =
    admits f.name g.name && (trench_filter f.trench g.trench || not (is_some f.trench))

-- `TargetFilter`
unfoldable pub target_filter : Option Target → Option Target → Bool
target_filter none none = false
target_filter none (some t) = true
target_filter (some f) none = false
target_filter (some f) (some t) =
    (f.status == t.status || f.status == Status.any)
    && f.kind == t.kind
    && (stream_filter f.stream t.stream || not (is_some f.stream))
