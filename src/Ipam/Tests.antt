-- ===== src/Ipam/Tests.antt =====
-- Runs of pkg/ipam on concrete ranges.
use meridio.Base.{
  ℕ, ◌+◌, ◌*◌, ◌^◌, ◌≤◌, ◌≡◌, ◌≢◌, ◌↔◌, ◌⊎◌, refl, Bool, true, none, some, String, List, [], ◌∷◌,
  arith, All, nat_eq, string_eq, length,
}
use meridio.Base.Result.{ok, err}
use meridio.Net.{
  Ip, IpNet, Cidr, parse_cidr, network, cidr_eq, ip_eq, contains, mask, mask_byte, is_cidr_text,
  same_masked,
}
use meridio.Net.Value.{value}
use meridio.Net.Parse.{IsNetwork, size}
use meridio.Ipam.Ip.{next_prefix, last_ip, overlapping_prefixes, collide_with}
use meridio.Ipam.Ip.Arithmetic.{value-last_ip, value-next_prefix}
use meridio.Ipam.Ip.Skips.{next_prefix_skips}
use meridio.Ipam.Ip.Overlap.{Within, overlapping_prefixes_iff}
use meridio.Ipam.Prefix.{Prefix, top, below, get_cidr, equals, prefix_collide_with}
use meridio.Ipam.Prefix.Paths.{path, equals_iff}
use meridio.Ipam.Allocate.{
  AllocError, out_of_fuel, no_more_prefix, Request, found, failed, search, search_fuel, jump,
  allocate_with_blocklist,
}
use meridio.Ipam.Allocate.Searching.{IsCandidate, IsDeep, search_ends}
use meridio.Ipam.Allocate.Candidate.{Disjoint, request_of}
use meridio.Ipam.Allocate.Outcome.{IsAllocated, allocate_with_blocklist-IsAllocated}
use meridio.Ipam.Memory.{memory_storage, add, get, get_index, get_childs}
use meridio.Ipam.Memory.Results.{allocate-appends, allocate_returns}
use meridio.Ipam.Node.{PrefixLengths, Node, allocate, get_blocklist}
use meridio.Ipam.Node.Blocked.{allocate-avoids_ends}
use meridio.Ipam.Node.Repeat.{allocate-again}
use meridio.Ipam.Watcher.{TrenchWatcher, set_conduits}
use mathlib.Core.List.{foldl}
use meridio.Ipam.Watcher.Difference.{call, asked, set_conduits_lem}
use meridio.Ipam.Siblings.{
  Call, new_trench, add_conduit, remove_conduit, run, SiblingsDisjoint, run-SiblingsDisjoint,
}

abbrev range : ℕ → ℕ → ℕ → Cidr
range b c length = record { address = 172 ∷ b ∷ c ∷ 0 ∷ []; length = length }

abbrev lengths : PrefixLengths
lengths = record { conduit_length = 20; node_length = 24; child_length = 32 }

abbrev trench : Prefix
trench = top "trench" (range 16 0 16)

abbrev conduit : Prefix
conduit = below "conduit" (range 16 0 20) trench

abbrev second_conduit : Prefix
second_conduit = below "second" (range 16 16 20) trench

abbrev worker : Node
worker = record { prefix = below "worker" (range 16 0 24) conduit; prefix_lengths = lengths }

abbrev target : Prefix
target = below "target" (record { address = 172 ∷ 16 ∷ 0 ∷ 1 ∷ []; length = 32 }) worker.prefix

abbrev tree : List Prefix
tree = trench ∷ conduit ∷ worker.prefix ∷ []

abbrev calls : List Call
calls =
    new_trench (range 16 0 16) "trench" lengths
    ∷ add_conduit (record { prefix = trench; prefix_lengths = lengths }) "conduit"
    ∷ add_conduit (record { prefix = trench; prefix_lengths = lengths }) "second"
    ∷ remove_conduit (record { prefix = trench; prefix_lengths = lengths }) "conduit"
    ∷ []

run-SiblingsDisjoint_example : SiblingsDisjoint (run 0 calls [])
run-SiblingsDisjoint_example = run-SiblingsDisjoint 0 calls [] tt

second_allocation :
    allocate_with_blocklist memory_storage 1 trench "second" 20 [] (trench ∷ conduit ∷ [])
    ≡ (trench ∷ conduit ∷ second_conduit ∷ [], ok second_conduit)
unfolding allocate_with_blocklist add get get_index get_childs next_prefix last_ip
    overlapping_prefixes parse_cidr network nat_eq cidr_eq ip_eq string_eq contains equals
    is_cidr_text mask mask_byte search search_fuel collide_with same_masked jump prefix_collide_with
second_allocation = refl

allocate_with_blocklist-IsAllocated_example :
    IsAllocated memory_storage trench "second" 20 []
      (trench ∷ conduit ∷ second_conduit ∷ [])
      second_conduit
allocate_with_blocklist-IsAllocated_example =
    allocate_with_blocklist-IsAllocated memory_storage 1 trench "second" 20 []
      (trench ∷ conduit ∷ []) (trench ∷ conduit ∷ second_conduit ∷ []) second_conduit
      second_allocation

trench-IsDeep : IsDeep (range 16 0 16)
unfolding network mask mask_byte
trench-IsDeep = record { deep = omega arith; high = omega arith }

abbrev request : Request
request = request_of trench "second" 20 []

first-IsCandidate_test : IsCandidate request request.first
unfolding network mask mask_byte overlapping_prefixes parse_cidr is_cidr_text nat_eq contains
    same_masked
first-IsCandidate_test = record { ones = refl; inside = refl }

search_ends_example :
    ((n : IpNet) × (search (2 ^ 32) request (range 16 0 20 ∷ []) request.first ≡ found n))
    ⊎ (search (2 ^ 32) request (range 16 0 20 ∷ []) request.first ≡ failed no_more_prefix)
search_ends_example =
    search_ends (2 ^ 32) request (range 16 0 20 ∷ []) request.first first-IsCandidate_test
      (omega arith) trench-IsDeep (omega arith)

allocate-appends_example :
    ((c : Cidr) × (allocate_with_blocklist memory_storage 1 trench "second" 20 []
          (trench ∷ conduit ∷ [])
        ≡ (trench ∷ conduit ∷ below "second" c trench ∷ [], ok (below "second" c trench)))
      × (get_index (below "second" c trench) (trench ∷ conduit ∷ []) ≡ none)
      × All (λ d. Disjoint c (get_cidr d)) (get_childs trench (trench ∷ conduit ∷ [])))
    ⊎ ((e : AllocError) × (allocate_with_blocklist memory_storage 1 trench "second" 20 []
            (trench ∷ conduit ∷ [])
          ≡ (trench ∷ conduit ∷ [], err e)))
allocate-appends_example = allocate-appends 0 trench "second" 20 [] (trench ∷ conduit ∷ [])

allocate_returns_example :
    (allocate_with_blocklist memory_storage 1 trench "second" 20 [] (trench ∷ conduit ∷ [])).1
    ≢ err out_of_fuel
allocate_returns_example =
    allocate_returns 0 trench "second" 20 [] (trench ∷ conduit ∷ []) trench-IsDeep

overlapping_prefixes_iff_example :
    (overlapping_prefixes (range 16 0 20) (range 16 0 16) ≡ true)
    ↔ ((z : Ip) × Within z (range 16 0 20) × Within z (range 16 0 16))
overlapping_prefixes_iff_example = overlapping_prefixes_iff (range 16 0 20) (range 16 0 16)

target_new : memory_storage.get "target" (some worker.prefix) tree ≡ ok none
unfolding get equals string_eq
target_new = refl

target_allocation :
    allocate memory_storage 1 worker "target" tree
    ≡ (trench ∷ conduit ∷ worker.prefix ∷ target ∷ [], ok target)
unfolding allocate get_blocklist allocate_with_blocklist add get get_index get_childs next_prefix
    last_ip overlapping_prefixes parse_cidr network nat_eq cidr_eq ip_eq string_eq contains equals
    is_cidr_text mask mask_byte search search_fuel collide_with same_masked jump prefix_collide_with
target_allocation = refl

allocate-avoids_ends_example :
    (¬ Within (network (get_cidr worker.prefix)).ip (get_cidr target))
    × (¬ Within (last_ip (network (get_cidr worker.prefix))) (get_cidr target))
allocate-avoids_ends_example =
    allocate-avoids_ends memory_storage 1 worker "target" tree
      (trench ∷ conduit ∷ worker.prefix ∷ target ∷ []) target target_new target_allocation

allocate-again_example :
    allocate memory_storage 5 worker "target" (trench ∷ conduit ∷ worker.prefix ∷ target ∷ [])
    ≡ (trench ∷ conduit ∷ worker.prefix ∷ target ∷ [], ok target)
allocate-again_example =
    allocate-again 0 5 worker "target" tree (trench ∷ conduit ∷ worker.prefix ∷ target ∷ []) target
      target_allocation

abbrev net : IpNet
net = record { ip = 172 ∷ 16 ∷ 16 ∷ 0 ∷ []; ones = 20 }

net-IsNetwork : IsNetwork net
unfolding mask mask_byte
net-IsNetwork = record {
  bytes = (omega arith, (omega arith, (omega arith, (omega arith, tt))));
  fits = omega arith;
  masked = refl;
}

value-next_prefix_example :
    (c : ℕ) × (c ≤ 1) × (value (next_prefix net).ip + c * 2 ^ 32 ≡ value net.ip + size net)
value-next_prefix_example =
    value-next_prefix net net-IsNetwork
      (omega arith, (omega arith, (omega arith, (omega arith, tt))))

value-last_ip_example : value (last_ip net) + 1 ≡ value net.ip + size net
value-last_ip_example = value-last_ip net net-IsNetwork

abbrev net_254 : IpNet
net_254 = record { ip = 10 ∷ 0 ∷ 254 ∷ 0 ∷ []; ones = 24 }

next_prefix_skips_example :
    (value (next_prefix net_254).ip ≢ value net_254.ip + 2 ^ 8)
    × ((c : ℕ) × (c ≤ 1)
        × (value (next_prefix net_254).ip + c * 2 ^ 32 ≡ value net_254.ip + 257 * 2 ^ 8))
next_prefix_skips_example =
    next_prefix_skips net_254 1 0 (10 ∷ []) refl refl (omega arith, (omega arith, tt))
      (omega arith, (omega arith, tt))

-- 10.0.254.0/24 is followed by 10.1.255.0/24, instead of 10.0.255.0/24.
next_prefix_254 : next_prefix net_254 ≡ record { ip = 10 ∷ 1 ∷ 255 ∷ 0 ∷ []; ones = 24 }
unfolding next_prefix nat_eq
next_prefix_254 = refl

-- A watcher that writes its calls down, the last one first.
abbrev log_watcher : TrenchWatcher
log_watcher = record {
  State = List (Bool × String);
  add_conduit = λ name s. (true, name) ∷ s;
  remove_conduit = λ name s. (Bool.false, name) ∷ s;
}

set_conduits_lem_example :
    set_conduits log_watcher ("a" ∷ "b" ∷ []) ("b" ∷ "c" ∷ []) []
    ≡ foldl (call log_watcher) [] (asked ("a" ∷ "b" ∷ []) ("b" ∷ "c" ∷ []))
set_conduits_lem_example = set_conduits_lem log_watcher ("a" ∷ "b" ∷ []) ("b" ∷ "c" ∷ []) []

equals_iff_example :
    (equals conduit (some second_conduit) ≡ true) ↔ (path conduit ≡ path second_conduit)
equals_iff_example = equals_iff conduit second_conduit
