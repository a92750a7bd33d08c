-- ===== src/Nsp/Sqlite.antt =====
-- pkg/nsp/registry/sqlite/serialize.go and model.go: the rows that targets are stored as, and the
-- identifiers of targets. The writing of the context as JSON, and its reading,
-- are arguments (encoding/json).
pub mod RoundTrip
pub mod Tests
use Prim.Native.Char.{code}
use Prim.Native.String
use meridio.Base.{
  ℕ, Bool, true, false, Option, none, some, String, List, [], ◌∷◌, ◌==◌, nat_eq, if◌then◌else◌,
}
use meridio.Base.Dict.{Dict}
use meridio.Base.Int.{ℤ, pos}
use meridio.Base.Strconv.{itoa}
use meridio.Nsp.{Trench, Conduit, Stream, Status, TargetType, Target}

-- `SerializeIPs`: `strings.Join` with `separator`.
unfoldable pub serialize_ips : List String → String
serialize_ips [] = ""
serialize_ips (ip ∷ []) = ip
serialize_ips (ip ∷ ip2 ∷ ips) = String.◌++◌ ip (String.◌++◌ ";" (serialize_ips (ip2 ∷ ips)))

-- A character before the first part.
abbrev pub push_first : (String → String) → List String → List String
push_first c [] = c "" ∷ []
push_first c (p ∷ ps) = c p ∷ ps

-- `DeserializeIPs`: `strings.Split` at `separator`.
unfoldable pub deserialize_ips : String → List String
deserialize_ips String.[] = "" ∷ []
deserialize_ips (String.◌∷◌ c s) =
    let rest = deserialize_ips s in
    if code c == b';' then "" ∷ rest else push_first (λ p. String.◌∷◌ c p) rest

-- `SerializeType`, the numbers of api/nsp/v1/targetregistry.proto.
abbrev pub serialize_type : TargetType → ℤ
serialize_type TargetType.default = pos 0
serialize_type TargetType.frontend = pos 1

-- The rows. Status and type are kept as they are, not as their numbers; the keys that connect the
-- tables are left out.
pub record TrenchRow : Type 0 where
  pub name : String

pub record ConduitRow : Type 0 where
  pub name : String
  pub trench : TrenchRow

pub record StreamRow : Type 0 where
  pub name : String
  pub conduit : ConduitRow

pub record TargetRow : Type 0 where
  pub id : String
  pub ips : String
  pub context : String
  pub status : Status
  pub kind : TargetType
  pub stream : StreamRow

-- `NSPTTrenchToSQLTrench`, `NSPTConduitToSQLConduit`, `NSPTStreamToSQLStream`
abbrev pub trench_to_row : Option Trench → TrenchRow
trench_to_row none = record { name = "" }
trench_to_row (some t) = record { name = t.name }

abbrev pub conduit_to_row : Option Conduit → ConduitRow
conduit_to_row none = record { name = ""; trench = record { name = "" } }
conduit_to_row (some c) = record { name = c.name; trench = trench_to_row c.trench }

abbrev pub stream_to_row : Option Stream → StreamRow
stream_to_row none = record {
  name = "";
  conduit = record { name = ""; trench = record { name = "" } };
}
stream_to_row (some s) = record { name = s.name; conduit = conduit_to_row s.conduit }

-- `SQLTTrenchToNSPTrench`, `SQLTConduitToNSPConduit`, `SQLTStreamToNSPStream`
abbrev pub trench_of_row : TrenchRow → Trench
trench_of_row t = record { name = t.name }

abbrev pub conduit_of_row : ConduitRow → Conduit
conduit_of_row c = record { name = c.name; trench = some (trench_of_row c.trench) }

abbrev pub stream_of_row : StreamRow → Stream
stream_of_row s = record { name = s.name; conduit = some (conduit_of_row s.conduit) }

-- `getTargetStream`, `getTargetConduit`, `getTargetTrench`
abbrev pub conduit_of : Option Stream → Option Conduit
conduit_of none = none
conduit_of (some s) = s.conduit

abbrev pub trench_of : Option Conduit → Option Trench
trench_of none = none
trench_of (some c) = c.trench

abbrev pub get_target_stream : Option Stream → String
get_target_stream none = ""
get_target_stream (some s) = s.name

abbrev pub get_target_conduit : Option Conduit → String
get_target_conduit none = ""
get_target_conduit (some c) = c.name

abbrev pub get_target_trench : Option Trench → String
get_target_trench none = ""
get_target_trench (some t) = t.name

-- `a-b`, `a.b`
abbrev pub joined : String → String → String → String
joined a separator b = String.◌++◌ a (String.◌++◌ separator b)

abbrev pub stream_id : Option Stream → String
stream_id s =
    joined (get_target_stream s) "." (
      joined (get_target_conduit (conduit_of s)) "." (get_target_trench (trench_of (conduit_of s))))

-- `GetTargetID`
unfoldable pub get_target_id : Target → String
unfolding serialize_ips
get_target_id t =
    joined (serialize_ips t.ips) "-"
      (joined (itoa (serialize_type t.kind)) "-" (stream_id t.stream))

module _ (marshal : Dict String String → String) (unmarshal : String → Dict String String) where
  -- `NSPTargetToSQLTarget`
  abbrev pub to_row : Target → TargetRow
  to_row t = record {
    id = get_target_id t;
    ips = serialize_ips t.ips;
    context = marshal t.context;
    status = t.status;
    kind = t.kind;
    stream = stream_to_row t.stream;
  }

  -- `SQLTargetToNSPTarget`
  abbrev pub of_row : TargetRow → Target
  of_row t = record {
    ips = deserialize_ips t.ips;
    context = unmarshal t.context;
    status = t.status;
    kind = t.kind;
    stream = some (stream_of_row t.stream);
  }
