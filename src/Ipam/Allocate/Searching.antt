-- ===== src/Ipam/Allocate/Searching.antt =====
-- The inner loop: it ends, and what it finds is free.
use meridio.Base.{
  ℕ, zero, suc, ◌+◌, ◌-◌, ◌*◌, ◌^◌, ◌≤◌, ◌<◌, ◌≡◌, ◌⊎◌, ap, sym, ◌∙◌, inl, inr, Bool, true, not,
  ◌||◌, some, List, [], ◌∷◌, arith, ◌==◌, Bool-cases, List-cases, length, keep_if-cons,
}
use meridio.Net.{IpNet, Cidr, bits, network, to_cidr, cidr_eq}
use meridio.Net.Value.{value-lt}
use meridio.Net.Parse.{network-IsNetwork, length-network}
use meridio.Ipam.Ip.{overlapping_prefixes, next_prefix, collide_with}
use meridio.Ipam.Ip.Arithmetic.{ones-next_prefix}
use meridio.Ipam.Ip.Overlap.{overlapping_prefixes→nets}
use meridio.Ipam.Ip.Meet.{inside_from}
use meridio.Ipam.Prefix.{get_cidr}
use meridio.Ipam.Allocate.{Request, found, failed, no_more_prefix, jump, search}
use meridio.Ipam.Allocate.Jump.{start_of, landing, jump_lem, jump_grows}

-- A candidate has the requested length and lies in the parent.
pub record IsCandidate (rq : Request) (n : IpNet) : Type 0 where
  pub ones : n.ones ≡ rq.length
  pub inside : overlapping_prefixes (get_cidr rq.parent) (to_cidr n) ≡ true

abbrev pub stops : Request → IpNet → Bool
stops rq next =
    to_cidr rq.first == to_cidr next
    || not (overlapping_prefixes (get_cidr rq.parent) (to_cidr next))

-- A parent below which the search cannot wrap round the address space: a prefix of 8 bits at least
-- whose first byte is not 0.
pub record IsDeep (c : Cidr) : Type 0 where
  pub deep : 8 ≤ c.length
  pub high : 2 ^ (8 * (length c.address - 1)) ≤ start_of c

-- The network after the child in the way.
pub record Landed (rq : Request) (c : Cidr) (cur next : IpNet) : Type 0 where
  pub jumps : jump c rq.length ≡ some next
  pub ones : next.ones ≡ rq.length
  pub later :
      overlapping_prefixes (get_cidr rq.parent) (to_cidr next) ≡ true
      → (get_cidr rq.parent).length ≤ rq.length
      → IsDeep (get_cidr rq.parent)
      → start_of (to_cidr cur) < start_of (to_cidr next)

jump-Landed :
    (rq : Request) (c : Cidr) (cur : IpNet)
    → overlapping_prefixes c (to_cidr cur) ≡ true
    → cur.ones ≡ rq.length
    → (next : IpNet) × Landed rq c cur next
unfolding network
jump-Landed rq c cur meet same = (
  next_prefix (network (landing c (to_cidr cur) rq.length meet same)),
  record {
    jumps = jump_lem c (to_cidr cur) rq.length meet same;
    ones = ones-next_prefix _;
    later = λ inside shorter d.
        jump_grows c (to_cidr cur) rq.length meet same (get_cidr rq.parent) inside shorter d.deep
          d.high;
  },
)

collide_with-cons :
    (cur : Cidr) (childs : List Cidr) (c : Cidr) (r : List Cidr)
    → collide_with cur childs ≡ c ∷ r
    → overlapping_prefixes c cur ≡ true
unfolding collide_with
collide_with-cons cur childs c r h =
    keep_if-cons (λ child. overlapping_prefixes child cur) childs r h

-- One round: the candidate is free, the search gives up, or it goes on with a later candidate.
pub data Rounds (rq : Request) (fuel : ℕ) (childs : List Cidr) (cur : IpNet) : Type 0 where
  free :
      collide_with (to_cidr cur) childs ≡ []
      → search (suc fuel) rq childs cur ≡ found cur
      → Rounds rq fuel childs cur
  gives_up : search (suc fuel) rq childs cur ≡ failed no_more_prefix → Rounds rq fuel childs cur
  goes_on :
      (c : Cidr) (next : IpNet)
      → Landed rq c cur next
      → IsCandidate rq next
      → search (suc fuel) rq childs cur ≡ search fuel rq childs next
      → Rounds rq fuel childs cur

search-Rounds :
    (fuel : ℕ) (rq : Request) (childs : List Cidr) (cur : IpNet)
    → IsCandidate rq cur
    → Rounds rq fuel childs cur
unfolding search
search-Rounds fuel rq childs cur v = elim (List-cases (collide_with (to_cidr cur) childs)) [
  | inl e ↦ free e (rw (e, search))
  | inr (c, r, e) ↦
      let (next, l) = jump-Landed rq c cur (collide_with-cons (to_cidr cur) childs c r e) v.ones in
      elim (Bool-cases (stops rq next)) [
        | inl stop ↦ gives_up (rw (e, search) (rw (l.jumps) (rw stop)))
        | inr go ↦
            goes_on c next l (record { ones = l.ones; inside = ground arith })
              (rw (e, search) (rw (l.jumps) (rw go)))
      ]
]

-- What the search finds is a candidate that no child collides with.
pub search-found :
    (fuel : ℕ) (rq : Request) (childs : List Cidr) (cur n : IpNet)
    → IsCandidate rq cur
    → search fuel rq childs cur ≡ found n
    → IsCandidate rq n × (collide_with (to_cidr n) childs ≡ [])
search-found zero rq childs cur n v h = absurd (unfold search in ground arith)
search-found (suc fuel) rq childs cur n v h = elim (search-Rounds fuel rq childs cur v) [
  | free e s ↦ let same : cur ≡ n = cc in (rw (← same) v, rw (← same) e)
  | gives_up s ↦ absurd (cc)
  | goes_on c next l v' s ↦ search-found fuel rq childs next n v' (sym s ∙ h)
]

-- Below a parent of 8 bits at least whose first byte is not 0, and for a prefix that is not shorter
-- than it, the search from a candidate ends by itself: with more rounds than there are addresses
-- after the candidate it finds a network, or reports that there is none.
pub search_ends :
    (fuel : ℕ) (rq : Request) (childs : List Cidr) (cur : IpNet)
    → IsCandidate rq cur
    → (get_cidr rq.parent).length ≤ rq.length
    → IsDeep (get_cidr rq.parent)
    → 2 ^ bits (get_cidr rq.parent).address ≤ start_of (to_cidr cur) + fuel
    → ((n : IpNet) × (search fuel rq childs cur ≡ found n))
      ⊎ (search fuel rq childs cur ≡ failed no_more_prefix)
search_ends zero rq childs cur v shorter d enough =
    let (pp, pc, within) = overlapping_prefixes→nets (get_cidr rq.parent) (to_cidr cur) v.inside in
    let hc = network-IsNetwork (to_cidr cur) pc in
    let (l, _) =
      inside_from (network (get_cidr rq.parent)) (network (to_cidr cur))
        (network-IsNetwork (get_cidr rq.parent) pp) hc
        (unfold network in omega (arith, v.ones, shorter)) within in
    let family = sym (length-network (get_cidr rq.parent)) ∙ l in
    absurd (
      omega
        (arith, value-lt (network (to_cidr cur)).ip hc.bytes, ap (λ t. 2 ^ (8 * t)) family, enough))
search_ends (suc fuel) rq childs cur v shorter d enough =
    elim (search-Rounds fuel rq childs cur v) [
      | free e s ↦ inl (cur, s)
      | gives_up s ↦ inr s
      | goes_on c next l v' s ↦ rw s (
          search_ends fuel rq childs next v' shorter d
            (omega (arith, l.later v'.inside shorter d, enough)))
    ]
