-- ===== src/Nsp/KeepAlive/Entries.antt =====
-- A registry as targets may expect it: a map from identifiers to targets, in which a target without
-- an entry becomes an entry that is disabled.
use meridio.Base.{Option, none, some, String, List, string_eq}
use meridio.Base.Dict.{Dict, lookup, insert, erase, values}
use meridio.Nsp.{Status, Target}
use meridio.Nsp.Registry.{filter}
use meridio.Nsp.Sqlite.{get_target_id}

abbrev pub Entries : Type 0
Entries = Dict String Target

-- A target that has no entry yet is taken as disabled.
abbrev pub accepted : Option Target → Target → Target
accepted none t = record t { status = Status.disabled }
accepted (some _) t = t

unfoldable pub set_entry : Target → Entries → Entries
set_entry t es = insert (get_target_id t) (accepted (lookup (get_target_id t) es) t) es

abbrev pub remove_entry : Target → Entries → Entries
remove_entry t es = erase (get_target_id t) es

abbrev pub get_entries : Option Target → Entries → List Target
get_entries selector es = filter selector (values es)
