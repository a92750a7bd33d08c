-- ===== src/Ipam/Allocate.antt =====
-- pkg/ipam/prefix/allocate.go
pub mod Jump
pub mod Tests
pub mod Searching
pub mod Candidate
pub mod Outcome
use meridio.Base.{
  ℕ, zero, suc, ◌+◌, ◌-◌, ◌^◌, Bool, true, false, not, ◌&&◌, ◌||◌, Option, none, some, String, List,
  [], ◌∷◌, ◌++◌, leb, ◌==◌, if◌then◌else◌,
}
use meridio.Base.Result.{Result, ok, err}
use meridio.Net.{IpNet, Cidr, bits, parse_cidr, to_cidr, cidr_eq}
use meridio.Ipam.Ip.{overlapping_prefixes, next_prefix, last_ip, collide_with}
use meridio.Ipam.Prefix.{Prefix, below, get_name, get_cidr, equals, prefix_collide_with, cidrs}
use meridio.Ipam.Storage.{Storage, StoreError, cidr_conflict, other_error}

-- The errors of `AllocateWithBlocklist`. `nil_dereference` is the panic on a network that did not
-- parse where the code drops ParseCIDR's error.
pub data AllocError : Type 0 where
  invalid_length parse_failed get_childs_failed no_more_prefix add_failed delete_failed : AllocError
  nil_dereference out_of_fuel : AllocError

-- How the inner loop ends.
pub data SearchResult : Type 0 where
  found : IpNet → SearchResult
  failed : AllocError → SearchResult

-- The arguments of a call, and what it computes of them before its loops: the first candidate.
pub record Request : Type 0 where
  pub parent : Prefix
  pub name : String
  pub length : ℕ
  pub blocklist : List Cidr
  pub first : IpNet

-- The candidate after a collision: the one that follows the network of the collision's last
-- address.
unfoldable pub jump : Cidr → ℕ → Option IpNet
jump collision length = elim (parse_cidr collision) [
  | none ↦ none
  | some (_, collision_net) ↦
      elim (parse_cidr (record { address = last_ip collision_net; length = length })) [
        | none ↦ none
        | some (_, net) ↦ some (next_prefix net)
      ]
]

-- The inner loop, until no child collides with the candidate.
unfoldable pub search : ℕ → Request → List Cidr → IpNet → SearchResult
search zero rq child_list current = failed out_of_fuel
search (suc fuel) rq child_list current = elim (collide_with (to_cidr current) child_list) [
  | [] ↦ found current
  | collision ∷ _ ↦ elim (jump collision rq.length) [
    | none ↦ failed nil_dereference
    | some next ↦
        elim (to_cidr rq.first == to_cidr next
          || not (overlapping_prefixes (get_cidr rq.parent) (to_cidr next))) [
            | true ↦ failed no_more_prefix
            | false ↦ search fuel rq child_list next
          ]
  ]
]

-- More rounds than an address space of the candidate's family has addresses.
unfoldable pub search_fuel : IpNet → ℕ
search_fuel net = suc (2 ^ bits net.ip)

abbrev pub is_conflict : Option StoreError → Bool
is_conflict (some cidr_conflict) = true
is_conflict (some other_error) = false
is_conflict none = false

abbrev pub is_refused : Option StoreError → Bool
is_refused (some other_error) = true
is_refused (some cidr_conflict) = false
is_refused none = false

-- `len(collisions) == 1 && currentCandidatePrefix.Equals(collisions[0])`
abbrev pub only_itself : Prefix → List Prefix → Bool
only_itself p [] = false
only_itself p (q ∷ []) = equals p (some q)
only_itself p (q ∷ _ ∷ _) = false

-- How one round of the outer loop ends: with a result, or with the children of the next round.
pub data Round : Type 0 where
  done : Result AllocError Prefix → Round
  again : List Cidr → Round

module _ (S : Storage) where
  -- `store.Delete` and the end of the loop's body
  unfoldable pub undo : Prefix → List Prefix → S.State → S.State × Round
  undo candidate childs s =
      let (s', e) = S.delete (some candidate) s in
      elim e [ none ↦ (s', again (cidrs childs)) | some _ ↦ (s', done (err delete_failed)) ]

  -- The children are read again, and the candidate has to be the only one that collides.
  unfoldable pub verify : Prefix → Prefix → Bool → S.State → S.State × Round
  unfolding undo
  verify parent candidate conflict s = elim (S.get_childs parent s) [
    | err _ ↦ (s, done (err get_childs_failed))
    | ok childs ↦
        if only_itself candidate (prefix_collide_with candidate childs)
        then (s, done (ok candidate))
        else if conflict
        then (s, again (cidrs childs))
        else undo candidate childs s
  ]

  -- The body of the outer loop from `store.Add` on.
  unfoldable pub attempt : Prefix → Prefix → S.State → S.State × Round
  unfolding verify
  attempt parent candidate s =
      let (s', e) = S.add candidate s in
      if is_refused e
      then (s', done (err add_failed))
      else verify parent candidate (is_conflict e) s'

  -- The outer loop, `fuel` rounds of it.
  unfoldable pub allocate_loop :
      ℕ → Request → List Cidr → IpNet → S.State → S.State × Result AllocError Prefix
  unfolding attempt
  allocate_loop zero rq child_list current s = (s, err out_of_fuel)
  allocate_loop (suc fuel) rq child_list current s =
      elim (search (search_fuel rq.first) rq (child_list ++ rq.blocklist) current) [
        | failed e ↦ (s, err e)
        | found net ↦
            let (s', r) = attempt rq.parent (below rq.name (to_cidr net) rq.parent) s in
            elim r [
              | done result ↦ (s', result)
              | again childs ↦ allocate_loop fuel rq childs net s'
            ]
      ]

  unfoldable pub start : ℕ → Request → S.State → S.State × Result AllocError Prefix
  unfolding allocate_loop
  start fuel rq s = elim (S.get_childs rq.parent s) [
    | err _ ↦ (s, err get_childs_failed)
    | ok childs ↦ allocate_loop fuel rq (cidrs childs) rq.first s
  ]

  -- `AllocateWithBlocklist`
  unfoldable pub allocate_with_blocklist :
      ℕ → Prefix → String → ℕ → List Cidr → S.State → S.State × Result AllocError Prefix
  unfolding start
  allocate_with_blocklist fuel parent name length blocklist s =
      elim (parse_cidr (get_cidr parent)) [
        | none ↦ (s, err nil_dereference)
        | some (_, parent_net) ↦
            if leb length parent_net.ones
            then (s, err invalid_length)
            else elim (parse_cidr (record { address = parent_net.ip; length = length })) [
              | none ↦ (s, err parse_failed)
              | some (_, first) ↦
                  start fuel
                    (record {
                      parent = parent;
                      name = name;
                      length = length;
                      blocklist = blocklist;
                      first = first;
                    })
                    s
            ]
      ]

  -- `Allocate`
  unfoldable pub allocate : ℕ → Prefix → String → ℕ → S.State → S.State × Result AllocError Prefix
  allocate fuel parent name length = allocate_with_blocklist fuel parent name length []
