-- ===== src/Ambassador/Stream.antt =====
-- pkg/ambassador/tap/stream/stream.go: a target chooses an identifier in a stream and registers
-- with it at the NSP. A method is the tree of its calls of the target registry: what it does next
-- depends on what a call returns, and other targets make calls in between. The lock of the stream
-- makes its methods one after the other.
pub mod Identifiers
pub mod Exchange
pub mod Protocol
pub mod Opens
pub mod Keeps
pub mod Entries
pub mod Moves
pub mod Effects
pub mod Exclusive
pub mod Silent
use meridio.Base.{
  ℕ, zero, suc, ◌+◌, Bool, true, false, not, ◌&&◌, Option, none, some, String, List, [], ◌∷◌, ◌==◌,
  string_eq, nat_eq, if◌then◌else◌, leb, length, contains,
}
use meridio.Base.Dict.{lookup}
use meridio.Base.Int.{ℤ, pos, negsuc}
use meridio.Base.Strconv.{itoa}
use meridio.Nsp.{Status, TargetType, Target, status_eq}
use meridio.Ambassador.Messages

-- `Stream`. Its conduit is the source of the addresses, an argument of `Open`.
pub record Stream : Type 0 where
  pub stream : Messages.Stream
  pub ips : List String
  pub identifier : ℤ
  pub target_status : Status

-- How a method fails; `context_done` is the error of its context.
pub data StreamError : Type 0 where
  ips_not_set no_identifier context_done : StreamError
  register_failed unregister_failed get_failed : StreamError

-- The calls of a method up to its return. A call returns whether it succeeded, that of `GetTargets`
-- the targets. `drawing`: `setIdentifier` has not found an identifier yet.
pub data Calls : Type 0 where
  ret : Stream → Option StreamError → Calls
  drawing : Stream → Calls
  register : Target → (Bool → Calls) → Calls
  unregister : Target → (Bool → Calls) → Calls
  get_targets : Target → (Option (List Target) → Calls) → Calls

-- `New`
abbrev pub new : Messages.Stream → Stream
new stream = record {
  stream = stream;
  ips = [];
  identifier = negsuc 0;
  target_status = Status.disabled;
}

abbrev pub is_positive : ℤ → Bool
is_positive (pos n) = leb 1 n
is_positive (negsuc n) = false

-- `isIdentifierInRange`, from 1.
abbrev pub in_range : ℕ → ℤ → Bool
in_range max (pos n) = leb 1 n && leb n max
in_range max (negsuc n) = false

-- `isIdentifierValid`
abbrev pub is_valid : List String → ℕ → ℤ → Bool
is_valid exclusion_list max identifier =
    not (contains exclusion_list (itoa identifier)) && in_range max identifier

-- `setIdentifier`: the loop on what `rand.Intn` returns. `none`: it needs more of it.
unfoldable pub set_identifier : List ℕ → List String → ℕ → ℤ → Option ℤ
set_identifier [] exclusion_list max_targets identifier =
    if is_valid exclusion_list max_targets identifier then some identifier else none
set_identifier (draw ∷ draws) exclusion_list max_targets identifier =
    let rest = set_identifier draws exclusion_list max_targets (pos (draw + 1)) in
    if is_valid exclusion_list max_targets identifier then some identifier else rest

-- `checkIdentifierCollision`
abbrev pub check_identifier_collision : List String → ℤ → Bool
check_identifier_collision identifiers_in_use identifier =
    contains identifiers_in_use (itoa identifier)

-- `sameIps`
abbrev pub all_in : List String → List String → Bool
all_in ips_a [] = true
all_in ips_a (ip ∷ ips_b) = contains ips_a ip && all_in ips_a ips_b

unfoldable pub same_ips : List String → List String → Bool
same_ips ips_a ips_b = length ips_a == length ips_b && all_in ips_a ips_b

-- `target.Context[IdentifierKey]`
abbrev pub identifier_of : Target → String
identifier_of t = elim (lookup "identifier" t.context) [ none ↦ "" | some x ↦ x ]

-- The loop of `getIdentifiersInUse`: the identifiers of the targets with other addresses.
unfoldable pub identifiers_in_use : List String → List Target → List String
identifiers_in_use ips [] = []
identifiers_in_use ips (t ∷ ts) =
    let rest = identifiers_in_use ips ts in
    if same_ips t.ips ips then rest else identifier_of t ∷ rest

-- What `GetTargets` is asked for.
abbrev pub selector : Stream → Target
selector s = record {
  ips = [];
  context = [];
  status = Status.any;
  kind = TargetType.default;
  stream = some (Messages.to_nsp (some s.stream));
}

-- `getTarget`
abbrev pub get_target : Stream → Target
get_target s = record {
  ips = s.ips;
  context = ("identifier", itoa s.identifier) ∷ [];
  status = s.target_status;
  kind = TargetType.default;
  stream = some (Messages.to_nsp (some s.stream));
}

-- The target as enabled.
abbrev pub enable : Stream → Calls
enable s =
    let enabled = record s { target_status = Status.enabled } in
    register (get_target enabled)
      λ done. ret enabled (if done then none else some StreamError.register_failed)

-- A new identifier after a collision.
unfoldable pub change_identifier : List ℕ → ℕ → List String → Stream → (Stream → Calls) → Calls
change_identifier draws max in_use s again = elim (set_identifier draws in_use max s.identifier) [
  | none ↦ drawing s
  | some id ↦
      let changed = record s { identifier = id } in
      register (get_target changed)
        λ done. if done then again changed else ret changed (some StreamError.register_failed)
]

-- The collision check of a round, on the targets of the registry.
unfoldable pub collision_check :
    List ℕ → ℕ → Stream → (Stream → Calls) → Option (List Target) → Calls
unfolding change_identifier
collision_check draws max s again none = ret s (some StreamError.get_failed)
collision_check draws max s again (some targets) =
    let in_use = identifiers_in_use s.ips targets in
    if leb max (length in_use)
    then unregister (get_target s) (λ done.
      ret s (some (if done then StreamError.no_identifier else StreamError.unregister_failed)))
    else if check_identifier_collision in_use s.identifier
    then unregister (get_target s) (λ _. change_identifier draws max in_use s again)
    else enable s

-- The loop of `open`. Its context is done after the given number of rounds, each of which has
-- random numbers of its own.
unfoldable pub open_rounds : (ℕ → List ℕ) → ℕ → ℕ → Stream → Calls
unfolding collision_check
open_rounds draws zero max s = ret s (some StreamError.context_done)
open_rounds draws (suc rounds) max s =
    let again = open_rounds draws rounds max in
    get_targets (selector s) (collision_check (draws rounds) max s again)

-- The target as disabled, and then the loop.
abbrev pub open_with : (ℕ → List ℕ) → ℕ → ℕ → Stream → Calls
open_with draws rounds max s = register (get_target s) λ done.
    if done then open_rounds draws rounds max s else ret s (some StreamError.register_failed)

-- The first choice of an identifier.
unfoldable pub first_identifier : (ℕ → List ℕ) → ℕ → ℕ → Stream → Option (List Target) → Calls
unfolding open_rounds
first_identifier draws rounds max s none = ret s (some StreamError.get_failed)
first_identifier draws rounds max s (some targets) =
    let in_use = identifiers_in_use s.ips targets in
    if leb max (length in_use)
    then ret s (some StreamError.no_identifier)
    else if is_positive s.identifier
    then open_with draws rounds max s
    else elim (set_identifier (draws rounds) in_use max s.identifier) [
      | none ↦ drawing s
      | some id ↦ open_with draws rounds max (record s { identifier = id })
    ]

-- `open`
unfoldable pub open_disabled : (ℕ → List ℕ) → ℕ → ℕ → Stream → Calls
unfolding first_identifier
open_disabled draws rounds max s =
    if s.target_status == Status.disabled
    then get_targets (selector s) (first_identifier draws rounds max s)
    else ret s none

-- Whether the first target with the addresses is enabled.
unfoldable pub found_enabled : List String → List Target → Bool
found_enabled ips [] = false
found_enabled ips (t ∷ ts) =
    let rest = found_enabled ips ts in
    if same_ips ips t.ips then t.status == Status.enabled else rest

-- What `refresh` does with the targets of the registry.
unfoldable pub verify_refresh : (ℕ → List ℕ) → ℕ → ℕ → Stream → Option (List Target) → Calls
unfolding open_disabled
verify_refresh draws rounds max s none = ret s (some StreamError.get_failed)
verify_refresh draws rounds max s (some targets) =
    if found_enabled s.ips targets
    then ret s none
    else open_disabled draws rounds max (record s { target_status = Status.disabled })

-- `refresh`
abbrev pub refresh : (ℕ → List ℕ) → ℕ → ℕ → Stream → Calls
refresh draws rounds max s = register (get_target s) λ done.
    if done
    then get_targets (selector s) (verify_refresh draws rounds max s)
    else ret s (some StreamError.register_failed)

-- `Open`, with the addresses that the conduit has.
unfoldable pub open_stream : (ℕ → List ℕ) → ℕ → ℕ → List String → Stream → Calls
unfolding open_disabled verify_refresh
open_stream draws rounds max [] s = ret (record s { ips = [] }) (some StreamError.ips_not_set)
open_stream draws rounds max (ip ∷ ips) s =
    let s' = record s { ips = ip ∷ ips } in
    if s.target_status == Status.enabled && in_range max s.identifier
    then refresh draws rounds max s'
    else open_disabled draws rounds max s'

-- `Close`
unfoldable pub close_stream : Stream → Calls
close_stream s =
    let closed = record s { identifier = negsuc 0; target_status = Status.disabled } in
    elim s.identifier [
      | negsuc _ ↦ ret closed none
      | pos _ ↦
          unregister (get_target s)
            (λ done. ret closed (if done then none else some StreamError.unregister_failed))
    ]
