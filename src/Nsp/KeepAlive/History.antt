-- ===== src/Nsp/KeepAlive/History.antt =====
-- pkg/nsp/registry/keepalive/keepalive.go: what the middleware hands to its registry follows from
-- what it has handed to it before.
use meridio.Base.{
  ◌≡◌, refl, ◌||◌, Bool, true, false, Option, none, some, String, List, [], ◌∷◌, ◌++◌, ◌==◌,
  string_eq, nat_eq, if◌then◌else◌,
}
use meridio.Base.Dict.{Dict, is_some, lookup}
use meridio.Nsp.{Target, TargetType}
use meridio.Nsp.Sqlite.{get_target_id}
use meridio.Nsp.KeepAlive.{TargetRegistry, KeepAlive, admitted, set, remove, get, any_of}

-- A call of the registry below; `refused` is a Set that it reported an error for.
pub data Call : Type 0 where
  stored refused removed : Target → Call

abbrev pub handed : Bool → Target → Call
handed done t = if done then Call.stored t else Call.refused t

-- The registry that writes its calls down as well, the last one first.
abbrev pub logged : TargetRegistry → TargetRegistry
logged R = record {
  State = R.State × List Call;
  set = λ t s. (let (r, done) = R.set t s.0 in ((r, handed done t ∷ s.1), done));
  remove = λ t s. (let (r, done) = R.remove t s.0 in ((r, Call.removed t ∷ s.1), done));
  get = λ selector s. R.get selector s.0;
}

-- Whether the last call for the identifier that changed the registry has stored a target; without
-- one, whether there was one before the calls.
abbrev pub was_stored : (String → Bool) → String → List Call → Bool
was_stored before id [] = before id
was_stored before id (Call.stored t ∷ calls) =
    if id == get_target_id t then true else was_stored before id calls
was_stored before id (Call.refused t ∷ calls) = was_stored before id calls
was_stored before id (Call.removed t ∷ calls) =
    if id == get_target_id t then false else was_stored before id calls

abbrev pub listed : Option (List Target) → List Target
listed none = []
listed (some ts) = ts

abbrev pub has_target : String → List Target → Bool
has_target id [] = false
has_target id (t ∷ ts) = id == get_target_id t || has_target id ts

module _ (R : TargetRegistry) where
  -- The targets of a type that are in the registry.
  abbrev pub targets_of : TargetType → R.State → List Target
  targets_of kind r = listed (R.get (some (any_of kind)) r)

  -- Whether a target with the identifier is in the registry.
  abbrev pub was_restored : R.State → String → Bool
  was_restored r id =
      has_target id (targets_of TargetType.default r ++ targets_of TargetType.frontend r)

  -- The calls so far.
  abbrev pub calls : KeepAlive (logged R) → List Call
  calls ka = elim ka.target_registry [ none ↦ [] | some s ↦ s.1 ]

  abbrev pub is_held : KeepAlive (logged R) → String → Bool
  is_held ka id = is_some (lookup id ka.targets)

  -- There is a registry, and what is held is what its calls have stored.
  record Follows (before : String → Bool) (ka : KeepAlive (logged R)) : Type 0 where
    registry : R.State × List Call
    given : ka.target_registry ≡ some registry
    known : (id : String) → is_held ka id ≡ was_stored before id registry.1

get_target_id-admitted : (b : Bool) (t : Target) → get_target_id (admitted b t) ≡ get_target_id t
unfolding get_target_id
get_target_id-admitted true t = refl
get_target_id-admitted false t = refl
