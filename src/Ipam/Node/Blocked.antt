-- ===== src/Ipam/Node/Blocked.antt =====
-- A node hands out neither its first nor its last address.
use meridio.Base.{ℕ, ◌≡◌, inl, inr, none, some, String, List, [], ◌∷◌, arith, Option-cases}
use meridio.Base.Result.{ok}
use meridio.Net.{Ip, Cidr, network, parse_cidr}
use meridio.Net.Mask.{mask-mask}
use meridio.Net.Parse.{Parsed, parse_cidr-Parsed, network-IsNetwork, length-network}
use meridio.Ipam.Ip.{last_ip}
use meridio.Ipam.Ip.Arithmetic.{last_ip-AllBytes, length-last_ip}
use meridio.Ipam.Ip.Overlap.{Within, mask→contains}
use meridio.Ipam.Prefix.{Prefix, get_cidr}
use meridio.Ipam.Storage.{Storage}
use meridio.Ipam.Allocate.{allocate_with_blocklist}
use meridio.Ipam.Allocate.Outcome.{allocate-start, allocate_with_blocklist-IsAllocated}
use meridio.Ipam.Node.{Node, get_blocklist, allocate}

-- An address lies in its own range.
own-Within :
    (ip : Ip) (len : ℕ)
    → Parsed (record { address = ip; length = len })
    → Within ip (record { address = ip; length = len })
unfolding network
own-Within ip len p = record {
  parsed = p;
  inside =
      mask→contains (network (record { address = ip; length = len })) ip
        (length-network (record { address = ip; length = len }))
        (mask-mask len len ip (omega arith));
}

last-Parsed :
    (c : Cidr) (len : ℕ)
    → Parsed c
    → Parsed (record { address = (network c).ip; length = len })
    → Parsed (record { address = last_ip (network c); length = len })
last-Parsed c len pc pf =
    let l = length-last_ip (network c) (network-IsNetwork c pc) in
    record {
      family = rw l pf.family;
      bytes = last_ip-AllBytes (network c) (network-IsNetwork c pc);
      fits = rw l pf.fits;
    }

-- The two ranges of the block list.
abbrev ends : Cidr → ℕ → List Cidr
ends c len =
    record { address = (network c).ip; length = len }
    ∷ record { address = last_ip (network c); length = len }
    ∷ []

-- Over any store: a prefix that `Allocate` makes for a new name contains neither the first address
-- of the node's range nor the last.
pub allocate-avoids_ends :
    (S : Storage) (fuel : ℕ) (n : Node) (name : String) (s s' : S.State) (p : Prefix)
    → S.get name (some n.prefix) s ≡ ok none
    → allocate S fuel n name s ≡ (s', ok p)
    → (¬ Within (network (get_cidr n.prefix)).ip (get_cidr p))
      × (¬ Within (last_ip (network (get_cidr n.prefix))) (get_cidr p))
unfolding allocate get_blocklist
allocate-avoids_ends S fuel n name s s' p fresh h =
    elim (Option-cases (parse_cidr (get_cidr n.prefix))) [
      | inl e ↦ absurd (ground arith)
      | inr ((a, ip_net), e) ↦
          let (same, pc) = parse_cidr-Parsed (get_cidr n.prefix) e in
          let call : allocate_with_blocklist S fuel n.prefix name n.prefix_lengths.child_length
                (ends (get_cidr n.prefix) n.prefix_lengths.child_length) s
              ≡ (s', ok p) =
            ground arith in
          let v =
            allocate_with_blocklist-IsAllocated S fuel n.prefix name n.prefix_lengths.child_length
              (ends (get_cidr n.prefix) n.prefix_lengths.child_length) s s' p call in
          elim (allocate-start S fuel n.prefix name n.prefix_lengths.child_length
            (ends (get_cidr n.prefix) n.prefix_lengths.child_length) s) [
              | inl (x, _, stop) ↦ absurd (ground arith)
              | inr (_, pf, _, _) ↦ (
                λ w. v.unblocked.0 (network (get_cidr n.prefix)).ip w (own-Within _ _ pf),
                λ w.
                    v.unblocked.1.0 (last_ip (network (get_cidr n.prefix))) w
                      (own-Within _ _ (last-Parsed (get_cidr n.prefix) _ pc pf)),
              )
            ]
    ]
