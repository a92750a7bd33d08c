-- ===== src/Ipam/Allocate/Candidate.antt =====
-- The candidates of an allocation: the first one, and what lies in one or avoids it.
use meridio.Base.{
  ℕ, ◌≤◌, ◌≡◌, refl, true, false, List, [], String, arith, length, All, All-map, keep_if-nil,
}
use meridio.Net.{Ip, IpNet, Cidr, contains, network, to_cidr}
use meridio.Net.Mask.{mask-mask}
use meridio.Net.Parse.{Parsed, length-network, network-Parsed, network-to_cidr}
use meridio.Ipam.Ip.{overlapping_prefixes, collide_with}
use meridio.Ipam.Ip.Overlap.{
  Within, mask→contains, contains_self, nets_contain, contains_trans, overlapping_prefixes→nets,
  overlapping_prefixes_iff,
}
use meridio.Ipam.Prefix.{Prefix, get_cidr}
use meridio.Ipam.Allocate.{Request}
use meridio.Ipam.Allocate.Searching.{IsCandidate}

-- No address lies in both prefixes.
abbrev pub Disjoint : Cidr → Cidr → Type 0
Disjoint c d = (z : Ip) → Within z c → ¬ Within z d

pub overlapping→Disjoint : (c d : Cidr) → overlapping_prefixes c d ≡ false → Disjoint d c
overlapping→Disjoint c d h z wd wc =
    let t : overlapping_prefixes c d ≡ true = (overlapping_prefixes_iff c d).1 (z, wc, wd) in cc

-- The address of the parent with the requested length, the first candidate.
abbrev pub first_cidr : Prefix → ℕ → Cidr
first_cidr parent length = record { address = (network (get_cidr parent)).ip; length = length }

abbrev pub request_of : Prefix → String → ℕ → List Cidr → Request
request_of parent name length blocklist = record {
  parent = parent;
  name = name;
  length = length;
  blocklist = blocklist;
  first = network (first_cidr parent length);
}

pub first-IsCandidate :
    (rq : Request)
    → Parsed (get_cidr rq.parent)
    → Parsed (first_cidr rq.parent rq.length)
    → (get_cidr rq.parent).length ≤ rq.length
    → rq.first ≡ network (first_cidr rq.parent rq.length)
    → IsCandidate rq rq.first
first-IsCandidate rq pp pf l e = rw e (record {
  ones = unfold network in refl;
  inside = (overlapping_prefixes_iff (get_cidr rq.parent) (to_cidr (network first))).1 (
    (network (get_cidr rq.parent)).ip,
    record { parsed = pp; inside = contains_self (network (get_cidr rq.parent)) },
    record { parsed = network-Parsed first pf; inside = rw (network-to_cidr first) shared },
  );
})
  where
    first : Cidr
    first = first_cidr rq.parent rq.length

    shared : contains (network first) (network (get_cidr rq.parent)).ip ≡ true
    shared =
        mask→contains (network first) (network (get_cidr rq.parent)).ip (length-network first) (
          unfold network in
          mask-mask rq.length rq.length (network (get_cidr rq.parent)).ip (omega arith))

-- The addresses of a candidate are addresses of the parent.
pub candidate-Within :
    (rq : Request) (n : IpNet)
    → IsCandidate rq n
    → (get_cidr rq.parent).length ≤ rq.length
    → (z : Ip) → Within z (to_cidr n)
    → Within z (get_cidr rq.parent)
unfolding network
candidate-Within rq n v l z w =
    let (pp, pn, e) = overlapping_prefixes→nets (get_cidr rq.parent) (to_cidr n) v.inside in
    record {
      parsed = pp;
      inside =
          let shorter : (get_cidr rq.parent).length ≤ n.ones = omega (arith, v.ones, l) in
          contains_trans (network (get_cidr rq.parent)) (network (to_cidr n)) z shorter
            (nets_contain (network (get_cidr rq.parent)) (network (to_cidr n)) shorter e) w.inside;
    }

pub collide-Disjoint :
    (c : Cidr) (childs : List Cidr) → collide_with c childs ≡ [] → All (λ d. Disjoint c d) childs
unfolding collide_with
collide-Disjoint c childs h =
    All-map _ _ (λ d e. overlapping→Disjoint d c e) childs
      (keep_if-nil (λ child. overlapping_prefixes child c) childs h)
