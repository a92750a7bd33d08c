-- ===== src/Ipam/Memory.antt =====
-- pkg/ipam/storage/memory/memory.go. The state is the slice of prefixes; the mutex makes each
-- operation one step.
pub mod Allocation
pub mod Results
pub mod Removal
pub mod Lookup
use meridio.Base.{
  ℕ, zero, suc, ◌+◌, ◌≤◌, Bool, true, false, Option, none, some, String, List, [], ◌∷◌, ◌++◌, leb,
  if◌then◌else◌, length, keep_if, take, drop,
}
use meridio.Base.Dict.{is_some}
use meridio.Base.Result.{Result, ok}
use meridio.Net.{Cidr}
use meridio.Ipam.Prefix.{Prefix, new, get_parent, equals}
use meridio.Ipam.Prefix.Paths.{path}
use meridio.Ipam.Storage.{Storage, StoreError, other_error}

-- `getIndex`; `none` is -1.
unfoldable pub get_index : Prefix → List Prefix → Option ℕ
get_index prefix [] = none
get_index prefix (p ∷ ps) =
    let rest = get_index prefix ps in
    if equals prefix (some p) then some 0 else elim rest [ none ↦ none | some i ↦ some (suc i) ]

-- `deleteIndex`
unfoldable pub delete_index : Option ℕ → List Prefix → List Prefix
delete_index none prefixes = prefixes
delete_index (some i) prefixes = take i prefixes ++ drop (suc i) prefixes

-- `exists`
abbrev pub exists : Prefix → List Prefix → Bool
exists prefix prefixes = is_some (get_index prefix prefixes)

-- `getChilds`
unfoldable pub get_childs : Prefix → List Prefix → List Prefix
get_childs prefix = keep_if (λ p. equals prefix (get_parent p))

-- `Add`
unfoldable pub add : Prefix → List Prefix → List Prefix × Option StoreError
add prefix prefixes =
    if exists prefix prefixes then (prefixes, some other_error) else (prefixes ++ prefix ∷ [], none)

-- The loop of `Get` over the prefixes.
get_loop : Prefix → List Prefix → Option Prefix
get_loop temp_prefix [] = none
get_loop temp_prefix (p ∷ ps) =
    if equals temp_prefix (some p) then some p else get_loop temp_prefix ps

-- `Get`: the first prefix with the name and the parent.
unfoldable pub get : String → Option Prefix → List Prefix → Option Prefix
unfolding get_loop
get name parent = get_loop (new name (record { address = []; length = 0 }) parent)

-- The loop of `delete` over the children.
pub delete_childs : (Prefix → List Prefix → List Prefix) → List Prefix → List Prefix → List Prefix
delete_childs delete_one [] prefixes = prefixes
delete_childs delete_one (p ∷ ps) prefixes = delete_childs delete_one ps (delete_one p prefixes)

-- `delete`, on fuel: it goes down the tree, one level a call.
unfoldable pub delete_tree : ℕ → Prefix → List Prefix → List Prefix
unfolding delete_childs
delete_tree zero prefix prefixes = prefixes
delete_tree (suc fuel) prefix prefixes =
    let rest = delete_childs (delete_tree fuel) (get_childs prefix prefixes) prefixes in
    delete_index (get_index prefix rest) rest

-- The longest path in the store: no call goes deeper.
abbrev pub max_depth : List Prefix → ℕ
max_depth [] = 0
max_depth (p ∷ ps) =
    let rest = max_depth ps in if leb (length (path p)) rest then rest else length (path p)

-- `Delete`
unfoldable pub delete : Option Prefix → List Prefix → List Prefix
delete none prefixes = prefixes
delete (some prefix) prefixes = delete_tree (suc (max_depth prefixes)) prefix prefixes

-- `MemoryIPAMStorage` as a `types.Storage`. Its reads and deletes never fail, and `Update` does
-- nothing.
abbrev pub memory_storage : Storage
memory_storage = record {
  State = List Prefix;
  add = add;
  update = λ prefix prefixes. (prefixes, none);
  delete = λ prefix prefixes. (delete prefix prefixes, none);
  get = λ name parent prefixes. ok (get name parent prefixes);
  get_childs = λ prefix prefixes. ok (get_childs prefix prefixes);
}
