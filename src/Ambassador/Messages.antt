-- ===== src/Ambassador/Messages.antt =====
-- api/ambassador/v1: the messages of the TAP API with their comparisons (equals.go), names (name.go),
-- filters (filter.go) and their conversion to messages of the NSP (convert.go). A pointer is an
-- Option; on nil a getter gives the empty value, and so does each of these methods.
use Prim.Native.String
use meridio.Base.{Bool, true, false, not, ◌&&◌, ◌||◌, Option, none, some, String, ◌==◌, string_eq}
use meridio.Base.Dict.{is_some}
use meridio.Nsp

pub record Trench : Type 0 where
  pub name : String

pub record Conduit : Type 0 where
  pub name : String
  pub trench : Option Trench

pub record Stream : Type 0 where
  pub name : String
  pub conduit : Option Conduit

-- The getters, on nil too.
abbrev pub trench_name : Option Trench → String
trench_name none = ""
trench_name (some t) = t.name

abbrev pub conduit_name : Option Conduit → String
conduit_name none = ""
conduit_name (some c) = c.name

abbrev pub conduit_trench : Option Conduit → Option Trench
conduit_trench none = none
conduit_trench (some c) = c.trench

abbrev pub stream_name : Option Stream → String
stream_name none = ""
stream_name (some s) = s.name

abbrev pub stream_conduit : Option Stream → Option Conduit
stream_conduit none = none
stream_conduit (some s) = s.conduit

-- `Equals`
abbrev pub trench_equals : Option Trench → Option Trench → Bool
trench_equals t1 t2 = trench_name t1 == trench_name t2

abbrev pub conduit_equals : Option Conduit → Option Conduit → Bool
conduit_equals c1 c2 =
    conduit_name c1 == conduit_name c2 && trench_equals (conduit_trench c1) (conduit_trench c2)

unfoldable pub stream_equals : Option Stream → Option Stream → Bool
stream_equals s1 s2 =
    stream_name s1 == stream_name s2 && conduit_equals (stream_conduit s1) (stream_conduit s2)

-- `FullName`
abbrev pub conduit_full_name : Option Conduit → String
conduit_full_name c =
    String.◌++◌ (conduit_name c) (String.◌++◌ "." (trench_name (conduit_trench c)))

unfoldable pub full_name : Option Stream → String
full_name s = String.◌++◌ (stream_name s) (String.◌++◌ "." (conduit_full_name (stream_conduit s)))

-- `ToNSP`
abbrev pub trench_to_nsp : Option Trench → Nsp.Trench
trench_to_nsp t = record { name = trench_name t }

abbrev pub conduit_to_nsp : Option Conduit → Nsp.Conduit
conduit_to_nsp c = record {
  name = conduit_name c;
  trench = some (trench_to_nsp (conduit_trench c));
}

abbrev pub to_nsp : Option Stream → Nsp.Stream
to_nsp s = record { name = stream_name s; conduit = some (conduit_to_nsp (stream_conduit s)) }

-- The name of a filter: the empty one admits every name.
abbrev admits : String → String → Bool
admits filter name = filter == "" || filter == name

-- `TrenchFilter`, `ConduitFilter`, `StreamFilter`
unfoldable pub trench_filter : Option Trench → Option Trench → Bool
trench_filter none none = false
trench_filter none (some t) = true
trench_filter (some f) none = false
trench_filter (some f) (some t) = admits f.name t.name

unfoldable pub conduit_filter : Option Conduit → Option Conduit → Bool
conduit_filter none none = false
conduit_filter none (some c) = true
conduit_filter (some f) none = false
conduit_filter (some f) (some c) =
    admits f.name c.name && (trench_filter f.trench c.trench || not (is_some f.trench))

unfoldable pub stream_filter : Option Stream → Option Stream → Bool
stream_filter none none = false
stream_filter none (some s) = true
stream_filter (some f) none = false
stream_filter (some f) (some s) =
    admits f.name s.name && (conduit_filter f.conduit s.conduit || not (is_some f.conduit))
