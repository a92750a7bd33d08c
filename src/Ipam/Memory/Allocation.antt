-- ===== src/Ipam/Memory/Allocation.antt =====
-- Allocation over the store in memory: one round of the outer loop decides it.
use meridio.Base.{
  ℕ, suc, ◌*◌, ◌^◌, ◌≤◌, ◌≡◌, ◌≢◌, refl, ap, ◌∙◌, inl, inr, true, false, none, some, List, [], ◌∷◌,
  ◌++◌, String, arith, Bool-cases, Option-cases, length, All, All-left, keep_if-append, keep_if-nil,
  if◌then◌else◌,
}
use meridio.Base.Result.{Result, ok, err}
use meridio.Net.{IpNet, Cidr, bits, network, to_cidr}
use meridio.Net.Parse.{length-network}
use meridio.Ipam.Ip.{overlapping_prefixes, collide_with}
use meridio.Ipam.Ip.Overlap.{contains_self, overlapping_prefixes→nets, overlapping_prefixes_iff}
use meridio.Ipam.Prefix.{Prefix, below, get_cidr, get_parent, equals, prefix_collide_with, cidrs}
use meridio.Ipam.Prefix.Paths.{path→equals}
use meridio.Ipam.Allocate.{
  AllocError, out_of_fuel, add_failed, Request, found, done, search, search_fuel, attempt, verify,
  allocate_loop, start, allocate_with_blocklist,
}
use meridio.Ipam.Allocate.Searching.{IsCandidate, IsDeep, search-found, search_ends}
use meridio.Ipam.Allocate.Candidate.{
  Disjoint, overlapping→Disjoint, first_cidr, request_of, first-IsCandidate,
}
use meridio.Ipam.Allocate.Outcome.{SearchResult-cases, allocate-start}
use meridio.Ipam.Memory.{memory_storage, get_index, exists, get_childs, add}

equals_self : (p : Prefix) → equals p (some p) ≡ true
equals_self p = path→equals p p refl

get_childs-append :
    (parent : Prefix) (name : String) (c : Cidr) (s : List Prefix)
    → get_childs parent (s ++ below name c parent ∷ [])
      ≡ get_childs parent s ++ below name c parent ∷ []
unfolding get_childs
get_childs-append parent name c s =
    keep_if-append (λ p. equals parent (get_parent p)) s (below name c parent ∷ [])
    ∙ ap (λ t. get_childs parent s ++ t) (rw (equals_self parent))

overlapping_self : (c d : Cidr) → overlapping_prefixes c d ≡ true → overlapping_prefixes d d ≡ true
overlapping_self c d h =
    let (_, pd, _) = overlapping_prefixes→nets c d h in
    (overlapping_prefixes_iff d d).1 (
      (network d).ip,
      record { parsed = pd; inside = contains_self (network d) },
      record { parsed = pd; inside = contains_self (network d) },
    )

collides_none :
    (c : Prefix) (childs : List Prefix)
    → All (λ d. overlapping_prefixes d (get_cidr c) ≡ false) (cidrs childs)
    → prefix_collide_with c childs ≡ []
unfolding prefix_collide_with
collides_none c [] h = refl
collides_none c (p ∷ ps) h = ground (arith, h.0, collides_none c ps h.1)

free_childs :
    (c : Cidr) (childs blocklist : List Cidr)
    → collide_with c (childs ++ blocklist) ≡ []
    → All (λ d. overlapping_prefixes d c ≡ false) childs
unfolding collide_with
free_childs c childs blocklist h =
    All-left _ childs blocklist
      (keep_if-nil (λ d. overlapping_prefixes d c) (childs ++ blocklist) h)

collides_itself :
    (c : Prefix) (childs : List Prefix)
    → All (λ d. overlapping_prefixes d (get_cidr c) ≡ false) (cidrs childs)
    → overlapping_prefixes (get_cidr c) (get_cidr c) ≡ true
    → prefix_collide_with c (childs ++ c ∷ []) ≡ c ∷ []
unfolding prefix_collide_with
collides_itself c childs free self =
    keep_if-append (λ d. overlapping_prefixes (get_cidr d) (get_cidr c)) childs (c ∷ [])
    ∙ rw (self, collides_none c childs free)

-- Children that do not collide share no address with the candidate.
childs-Disjoint :
    (c : Cidr) (childs : List Prefix)
    → All (λ d. overlapping_prefixes d c ≡ false) (cidrs childs)
    → All (λ d. Disjoint c (get_cidr d)) childs
childs-Disjoint c [] h = tt
childs-Disjoint c (p ∷ ps) h = (overlapping→Disjoint (get_cidr p) c h.0, childs-Disjoint c ps h.1)

-- A free candidate is added, unless its name is taken.
pub attempt-memory :
    (parent : Prefix) (name : String) (c : Cidr) (s : List Prefix) (blocklist : List Cidr)
    → overlapping_prefixes (get_cidr parent) c ≡ true
    → collide_with c (cidrs (get_childs parent s) ++ blocklist) ≡ []
    → attempt memory_storage parent (below name c parent) s ≡ (
        if exists (below name c parent) s
        then (s, done (err add_failed))
        else (s ++ below name c parent ∷ [], done (ok (below name c parent))))
unfolding attempt verify add
attempt-memory parent name c s blocklist inside free =
    elim (Bool-cases (exists (below name c parent) s)) [
      | inl e ↦ rw e
      | inr e ↦
          let alone =
            collides_itself (below name c parent) (get_childs parent s)
              (free_childs c (cidrs (get_childs parent s)) blocklist free)
              (overlapping_self (get_cidr parent) c inside) in
          rw (e, get_childs-append parent name c s, alone) (rw (equals_self (below name c parent)))
    ]

-- On the store in memory an allocation appends the prefix that it returns, or leaves the store as
-- it was; over a deep parent its loops have ended.
pub data Outcome (parent : Prefix) (name : String) (s : List Prefix)
    (r : List Prefix × Result AllocError Prefix) : Type 0 where
  allocated :
      (c : Cidr)
      → r ≡ (s ++ below name c parent ∷ [], ok (below name c parent))
      → get_index (below name c parent) s ≡ none
      → All (λ d. Disjoint c (get_cidr d)) (get_childs parent s)
      → Outcome parent name s r
  refused :
      (e : AllocError)
      → r ≡ (s, err e)
      → (IsDeep (get_cidr parent) → e ≢ out_of_fuel)
      → Outcome parent name s r

loop_done :
    (fuel : ℕ) (rq : Request) (childs : List Cidr) (cur n : IpNet) (s s' : List Prefix)
    (a : Result AllocError Prefix)
    → search (search_fuel rq.first) rq (childs ++ rq.blocklist) cur ≡ found n
    → attempt memory_storage rq.parent (below rq.name (to_cidr n) rq.parent) s ≡ (s', done a)
    → allocate_loop memory_storage (suc fuel) rq childs cur s ≡ (s', a)
unfolding allocate_loop
loop_done fuel rq childs cur n s s' a hit step = ground arith

loop-Outcome :
    (fuel : ℕ) (rq : Request) (cur : IpNet) (s : List Prefix)
    → IsCandidate rq cur
    → (get_cidr rq.parent).length ≤ rq.length
    → bits rq.first.ip ≡ bits (get_cidr rq.parent).address
    → Outcome rq.parent rq.name s
        (allocate_loop memory_storage (suc fuel) rq (cidrs (get_childs rq.parent s)) cur s)
unfolding allocate_loop search_fuel
loop-Outcome fuel rq cur s v l family = elim (SearchResult-cases (search rounds rq childs cur)) [
  | inr (e, gone) ↦ refused e (rw (gone, allocate_loop)) (λ d.
      elim (search_ends rounds rq childs cur v l d (omega (arith, ap (λ t. 2 ^ t) family))) [
        | inl (n, hit) ↦ absurd (cc)
        | inr full ↦ (λ same. cc)
      ])
  | inl (n, hit) ↦
      let c = below rq.name (to_cidr n) rq.parent in
      let (v', free) = search-found rounds rq childs cur n v hit in
      let step = attempt-memory rq.parent rq.name (to_cidr n) s rq.blocklist v'.inside free in
      elim (Option-cases (get_index c s)) [
        | inr (i, taken) ↦
            let step' : attempt memory_storage rq.parent c s ≡ (s, done (err add_failed)) =
              step ∙ rw taken in
            refused add_failed
              (loop_done fuel rq (cidrs (get_childs rq.parent s)) cur n s _ _ hit step')
              (λ _ same. cc)
        | inl fresh ↦
            let step' : attempt memory_storage rq.parent c s ≡ (s ++ c ∷ [], done (ok c)) =
              step ∙ rw fresh in
            allocated (to_cidr n)
              (loop_done fuel rq (cidrs (get_childs rq.parent s)) cur n s _ _ hit step') fresh
              (childs-Disjoint (to_cidr n) (get_childs rq.parent s)
                (free_childs (to_cidr n) (cidrs (get_childs rq.parent s)) rq.blocklist free))
      ]
]
  where
    rounds : ℕ
    rounds = search_fuel rq.first

    childs : List Cidr
    childs = cidrs (get_childs rq.parent s) ++ rq.blocklist

pub allocate-Outcome :
    (fuel : ℕ) (parent : Prefix) (name : String) (length : ℕ) (blocklist : List Cidr)
    (s : List Prefix)
    → Outcome parent name s
        (allocate_with_blocklist memory_storage (suc fuel) parent name length blocklist s)
allocate-Outcome fuel parent name length blocklist s =
    elim (allocate-start memory_storage (suc fuel) parent name length blocklist s) [
      | inl (e, ended, stop) ↦ refused e stop (λ _. ended)
      | inr (pp, pf, l, go) ↦ rw go (
          unfold start in
          loop-Outcome fuel rq rq.first s (first-IsCandidate rq pp pf (omega (arith, l)) refl)
            (omega (arith, l))
            (ap (λ t. 8 * t)
              (length-network (first_cidr parent length) ∙ length-network (get_cidr parent))))
    ]
  where
    rq : Request
    rq = request_of parent name length blocklist
