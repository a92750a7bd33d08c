-- ===== src/Ipam/Node/Repeat.antt =====
-- Over the store in memory a name keeps its prefix.
use meridio.Base.{
  ℕ, suc, ◌≡◌, inl, inr, none, some, String, List, [], ◌∷◌, ◌++◌, arith, Option-cases,
}
use meridio.Base.Result.{Result, ok}
use meridio.Ipam.Prefix.{Prefix, below}
use meridio.Ipam.Allocate.{AllocError}
use meridio.Ipam.Memory.{memory_storage, get}
use meridio.Ipam.Memory.Lookup.{get-append}
use meridio.Ipam.Memory.Allocation.{Outcome, allocated, refused, allocate-Outcome}
use meridio.Ipam.Node.{Node, get_blocklist, allocate}

-- The prefix of an allocation that added one is found under the name.
new-get :
    (parent : Prefix) (name : String) (s s' : List Prefix) (p : Prefix)
    (r : List Prefix × Result AllocError Prefix)
    → get name (some parent) s ≡ none
    → Outcome parent name s r
    → r ≡ (s', ok p)
    → get name (some parent) s' ≡ some p
new-get parent name s s' p r miss (allocated c e fresh free) h =
    let store : s ++ below name c parent ∷ [] ≡ s' = ground arith in
    let same : below name c parent ≡ p = ground arith in
    rw (← store, ← same) (get-append name parent c s miss)
new-get parent name s s' p r miss (refused x e ended) h = absurd (ground arith)

-- Allocating again for the same name, in the store that an allocation has left, returns the same
-- prefix and leaves the store as it is, whatever the fuel.
pub allocate-again :
    (fuel more : ℕ) (n : Node) (name : String) (s s' : List Prefix) (p : Prefix)
    → allocate memory_storage (suc fuel) n name s ≡ (s', ok p)
    → allocate memory_storage more n name s' ≡ (s', ok p)
unfolding allocate
allocate-again fuel more n name s s' p h = elim (Option-cases (get name (some n.prefix) s)) [
  | inr (q, hit) ↦ ground arith
  | inl miss ↦ elim (Option-cases (get_blocklist n)) [
    | inl bad ↦ absurd (ground arith)
    | inr (blocklist, list) ↦
        let found =
          new-get n.prefix name s s' p _ miss
            (allocate-Outcome fuel n.prefix name n.prefix_lengths.child_length blocklist s)
            (ground arith) in
        rw (found, allocate)
  ]
]
