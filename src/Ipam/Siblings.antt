-- ===== src/Ipam/Siblings.antt =====
-- The IPAM over the store in memory as one service: calls on any trench, conduit or node, in any
-- order, and the invariant that prefixes below one parent share no address.
use meridio.Base.{
  ℕ, suc, ◌≡◌, ap, sym, subst, ◌∙◌, inl, inr, true, Option, none, some, String, List, [], ◌∷◌, ◌++◌,
  arith, All, All-append, Bool-cases, Option-cases,
}
use mathlib.Core.Option.{some-injective}
use meridio.Net.{Cidr}
use meridio.Ipam.Prefix.{Prefix, top, below, get_cidr, get_parent, equals}
use meridio.Ipam.Prefix.Paths.{path, path→equals}
use meridio.Ipam.Allocate.{allocate_with_blocklist}
use meridio.Ipam.Allocate
use meridio.Ipam.Allocate.Candidate.{Disjoint}
use meridio.Ipam.Memory.{memory_storage, get_childs, add, get, get_index, delete}
use meridio.Ipam.Memory.Allocation.{Outcome, allocated, refused, allocate-Outcome}
use meridio.Ipam.Memory.Removal.{Removes, keep, skip, end, Removes-All, delete-Removes}
use meridio.Ipam.Node.{PrefixLengths, Node, get_blocklist}
use meridio.Ipam.Node
use meridio.Ipam.Conduit.{Conduit}
use meridio.Ipam.Conduit
use meridio.Ipam.Trench.{Trench}
use meridio.Ipam.Trench

pub data Call : Type 0 where
  new_trench : Cidr → String → PrefixLengths → Call
  add_conduit : Trench → String → Call
  remove_conduit : Trench → String → Call
  get_node : Conduit → String → Call
  remove_node : Conduit → String → Call
  allocate : Node → String → Call
  release : Node → String → Call

-- The store after a call; `fuel` rounds of the outer loop are given beyond the first.
pub step : ℕ → Call → List Prefix → List Prefix
step fuel (new_trench cidr name lengths) s = (Trench.new memory_storage (top name cidr) lengths s).0
step fuel (add_conduit t name) s = (Trench.add_conduit memory_storage (suc fuel) t name s).0
step fuel (remove_conduit t name) s = (Trench.remove_conduit memory_storage t name s).0
step fuel (get_node c name) s = (Conduit.get_node memory_storage (suc fuel) c name s).0
step fuel (remove_node c name) s = (Conduit.remove_node memory_storage c name s).0
step fuel (allocate n name) s = (Node.allocate memory_storage (suc fuel) n name s).0
step fuel (release n name) s = (Node.release memory_storage n name s).0

pub run : ℕ → List Call → List Prefix → List Prefix
run fuel [] s = s
run fuel (c ∷ cs) s = run fuel cs (step fuel c s)

-- Both have a parent, of the same path.
pub record AreSiblings (p q : Prefix) : Type 0 where
  pub parent : Prefix
  pub other : Prefix
  pub first : get_parent p ≡ some parent
  pub second : get_parent q ≡ some other
  pub same : path parent ≡ path other

abbrev pub DisjointSiblings : Prefix → Prefix → Type 0
DisjointSiblings p q = AreSiblings p q → Disjoint (get_cidr p) (get_cidr q)

-- Every two entries of the store that are siblings share no address.
abbrev pub SiblingsDisjoint : List Prefix → Type 0
SiblingsDisjoint [] = Unit
SiblingsDisjoint (p ∷ ps) = All (DisjointSiblings p) ps × SiblingsDisjoint ps

Removes-SiblingsDisjoint :
    {xs ys : List Prefix} → Removes xs ys → SiblingsDisjoint ys → SiblingsDisjoint xs
Removes-SiblingsDisjoint end h = tt
Removes-SiblingsDisjoint (keep {a = p} r) h =
    (Removes-All (DisjointSiblings p) r h.0, Removes-SiblingsDisjoint r h.1)
Removes-SiblingsDisjoint (skip r) h = Removes-SiblingsDisjoint r h.1

append-SiblingsDisjoint :
    (p : Prefix) (s : List Prefix)
    → All (λ q. DisjointSiblings q p) s
    → SiblingsDisjoint s
    → SiblingsDisjoint (s ++ p ∷ [])
append-SiblingsDisjoint p [] h d = (tt, tt)
append-SiblingsDisjoint p (q ∷ s) h d =
    (All-append _ s (p ∷ []) d.0 (h.0, tt), append-SiblingsDisjoint p s h.1 d.1)

-- A root is nobody's sibling.
top-DisjointSiblings :
    (name : String) (c : Cidr) (s : List Prefix) → All (λ q. DisjointSiblings q (top name c)) s
top-DisjointSiblings name c [] = tt
top-DisjointSiblings name c (q ∷ s) =
    ((λ a. absurd (let e = a.second in cc)), top-DisjointSiblings name c s)

sibling-child :
    (name : String) (c : Cidr) (parent q : Prefix)
    → AreSiblings q (below name c parent)
    → equals parent (get_parent q) ≡ true
sibling-child name c parent q a =
    let same : parent ≡ a.other = some-injective parent a.other a.second in
    rw a.first (path→equals parent a.parent (ap path same ∙ sym a.same))

-- What avoids the children of its parent avoids its siblings.
child-DisjointSiblings :
    (name : String) (c : Cidr) (parent : Prefix) (s : List Prefix)
    → All (λ d. Disjoint c (get_cidr d)) (get_childs parent s)
    → All (λ q. DisjointSiblings q (below name c parent)) s
unfolding get_childs
child-DisjointSiblings name c parent [] h = tt
child-DisjointSiblings name c parent (q ∷ s) h = elim (Bool-cases (equals parent (get_parent q))) [
  | inl child ↦
      let h' = rw child at h in
      ((λ a z wq wp. h'.0 z wp wq), child-DisjointSiblings name c parent s h'.1)
  | inr other ↦ (
    (λ a. absurd (let e = sibling-child name c parent q a in cc)),
    child-DisjointSiblings name c parent s (rw other at h),
  )
]

Outcome-SiblingsDisjoint :
    (parent : Prefix) (name : String) (s : List Prefix) {r : _}
    → Outcome parent name s r
    → SiblingsDisjoint s
    → SiblingsDisjoint r.0
Outcome-SiblingsDisjoint parent name s (allocated c e fresh free) d = rw e (
    append-SiblingsDisjoint (below name c parent) s (child-DisjointSiblings name c parent s free) d)
Outcome-SiblingsDisjoint parent name s (refused e same _) d = rw same d

allocate-SiblingsDisjoint :
    (fuel : ℕ) (parent : Prefix) (name : String) (length : ℕ) (blocklist : List Cidr)
    (s : List Prefix)
    → SiblingsDisjoint s
    → SiblingsDisjoint
        (allocate_with_blocklist memory_storage (suc fuel) parent name length blocklist s).0
allocate-SiblingsDisjoint fuel parent name length blocklist s d =
    Outcome-SiblingsDisjoint parent name s (allocate-Outcome fuel parent name length blocklist s) d

delete-SiblingsDisjoint :
    (p : Option Prefix) (s : List Prefix) → SiblingsDisjoint s → SiblingsDisjoint (delete p s)
delete-SiblingsDisjoint p s d = Removes-SiblingsDisjoint (delete-Removes p s) d

new-SiblingsDisjoint :
    (cidr : Cidr) (name : String) (lengths : PrefixLengths) (s : List Prefix)
    → SiblingsDisjoint s
    → SiblingsDisjoint (Trench.new memory_storage (top name cidr) lengths s).0
unfolding Trench.new add
new-SiblingsDisjoint cidr name lengths s d = elim (Option-cases (get name none s)) [
  | inr (p, e) ↦ subst SiblingsDisjoint {x = s} (ground arith) d
  | inl e ↦ elim (Option-cases (get_index (top name cidr) s)) [
    | inr (i, f) ↦ subst SiblingsDisjoint {x = s} (ground arith) d
    | inl f ↦
        subst SiblingsDisjoint {x = s ++ top name cidr ∷ []} (ground arith)
          (append-SiblingsDisjoint (top name cidr) s (top-DisjointSiblings name cidr s) d)
  ]
]

add_conduit-SiblingsDisjoint :
    (fuel : ℕ) (t : Trench) (name : String) (s : List Prefix)
    → SiblingsDisjoint s
    → SiblingsDisjoint (Trench.add_conduit memory_storage (suc fuel) t name s).0
unfolding Trench.add_conduit Allocate.allocate
add_conduit-SiblingsDisjoint fuel t name s d = elim (Option-cases (get name (some t.prefix) s)) [
  | inr (p, e) ↦ subst SiblingsDisjoint {x = s} (ground arith) d
  | inl e ↦
      subst SiblingsDisjoint (ground arith)
        (allocate-SiblingsDisjoint fuel t.prefix name t.prefix_lengths.conduit_length [] s d)
]

get_node-SiblingsDisjoint :
    (fuel : ℕ) (c : Conduit) (name : String) (s : List Prefix)
    → SiblingsDisjoint s
    → SiblingsDisjoint (Conduit.get_node memory_storage (suc fuel) c name s).0
unfolding Conduit.get_node Allocate.allocate
get_node-SiblingsDisjoint fuel c name s d = elim (Option-cases (get name (some c.prefix) s)) [
  | inr (p, e) ↦ subst SiblingsDisjoint {x = s} (ground arith) d
  | inl e ↦
      subst SiblingsDisjoint (ground arith)
        (allocate-SiblingsDisjoint fuel c.prefix name c.prefix_lengths.node_length [] s d)
]

allocate_in-SiblingsDisjoint :
    (fuel : ℕ) (n : Node) (name : String) (s : List Prefix)
    → SiblingsDisjoint s
    → SiblingsDisjoint (Node.allocate memory_storage (suc fuel) n name s).0
unfolding Node.allocate
allocate_in-SiblingsDisjoint fuel n name s d = elim (Option-cases (get name (some n.prefix) s)) [
  | inr (p, e) ↦ subst SiblingsDisjoint {x = s} (ground arith) d
  | inl e ↦ elim (Option-cases (get_blocklist n)) [
    | inl f ↦ subst SiblingsDisjoint {x = s} (ground arith) d
    | inr (blocklist, f) ↦
        subst SiblingsDisjoint (ground arith)
          (allocate-SiblingsDisjoint fuel n.prefix name n.prefix_lengths.child_length blocklist s d)
  ]
]

step-SiblingsDisjoint :
    (fuel : ℕ) (c : Call) (s : List Prefix) → SiblingsDisjoint s → SiblingsDisjoint (step fuel c s)
unfolding step Trench.remove_conduit Conduit.remove_node Node.release Node.release_under
step-SiblingsDisjoint fuel (new_trench cidr name lengths) s d =
    new-SiblingsDisjoint cidr name lengths s d
step-SiblingsDisjoint fuel (add_conduit t name) s d = add_conduit-SiblingsDisjoint fuel t name s d
step-SiblingsDisjoint fuel (remove_conduit t name) s d = delete-SiblingsDisjoint _ s d
step-SiblingsDisjoint fuel (get_node c name) s d = get_node-SiblingsDisjoint fuel c name s d
step-SiblingsDisjoint fuel (remove_node c name) s d = delete-SiblingsDisjoint _ s d
step-SiblingsDisjoint fuel (allocate n name) s d = allocate_in-SiblingsDisjoint fuel n name s d
step-SiblingsDisjoint fuel (release n name) s d = delete-SiblingsDisjoint _ s d

-- After any calls, on any trenches, conduits and nodes: of two prefixes of the store below one
-- parent no address lies in both.
pub run-SiblingsDisjoint :
    (fuel : ℕ) (cs : List Call) (s : List Prefix)
    → SiblingsDisjoint s
    → SiblingsDisjoint (run fuel cs s)
unfolding run
run-SiblingsDisjoint fuel [] s d = d
run-SiblingsDisjoint fuel (c ∷ cs) s d =
    run-SiblingsDisjoint fuel cs (step fuel c s) (step-SiblingsDisjoint fuel c s d)
