-- ===== src/Ipam/Memory/Results.antt =====
-- What an allocation over the store in memory leaves behind.
use meridio.Base.{ℕ, suc, ◌≡◌, ◌≢◌, ◌⊎◌, inl, inr, none, String, List, [], ◌∷◌, ◌++◌, arith, All}
use meridio.Base.Result.{ok, err}
use meridio.Net.{Cidr}
use meridio.Ipam.Prefix.{Prefix, below, get_cidr}
use meridio.Ipam.Allocate.{AllocError, out_of_fuel, allocate_with_blocklist}
use meridio.Ipam.Allocate.Searching.{IsDeep}
use meridio.Ipam.Allocate.Candidate.{Disjoint}
use meridio.Ipam.Memory.{memory_storage, get_index, get_childs}
use meridio.Ipam.Memory.Allocation.{allocated, refused, allocate-Outcome}

-- With at least one round of the outer loop: either the prefix that the call returns is a new
-- entry at the end of the store, equal to none before it and sharing no address with the parent's
-- children, or the call returns an error and the store is what it was.
pub allocate-appends :
    (fuel : ℕ) (parent : Prefix) (name : String) (length : ℕ) (blocklist : List Cidr)
    (s : List Prefix)
    → ((c : Cidr) × (allocate_with_blocklist memory_storage
            (suc fuel)
            parent
            name
            length
            blocklist
            s
          ≡ (s ++ below name c parent ∷ [], ok (below name c parent)))
        × (get_index (below name c parent) s ≡ none)
        × All (λ d. Disjoint c (get_cidr d)) (get_childs parent s))
      ⊎ ((e : AllocError) × (allocate_with_blocklist memory_storage
              (suc fuel)
              parent
              name
              length
              blocklist
              s
            ≡ (s, err e)))
allocate-appends fuel parent name length blocklist s =
    elim (allocate-Outcome fuel parent name length blocklist s) [
      | allocated c e fresh free ↦ inl (c, e, fresh, free)
      | refused e same ended ↦ inr (e, same)
    ]

-- Below a parent with a prefix length of 8 at least and a first byte that is not 0 the loops of
-- the allocation end within the fuel: one round of the outer one, and as many of the inner one as
-- the address space has addresses.
pub allocate_returns :
    (fuel : ℕ) (parent : Prefix) (name : String) (length : ℕ) (blocklist : List Cidr)
    (s : List Prefix)
    → IsDeep (get_cidr parent)
    → (allocate_with_blocklist memory_storage (suc fuel) parent name length blocklist s).1
      ≢ err out_of_fuel
allocate_returns fuel parent name length blocklist s d h =
    elim (allocate-Outcome fuel parent name length blocklist s) [
      | allocated c e fresh free ↦ ground (arith, e, h)
      | refused e same ended ↦ ended d (ground (arith, same, h))
    ]
