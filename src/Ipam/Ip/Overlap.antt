-- ===== src/Ipam/Ip/Overlap.antt =====
-- `OverlappingPrefixes` against the addresses that two prefixes share.
use native.Mathlib.Decide.{dec_le}
use meridio.Base.{
  ◌≤◌, ◌≡◌, refl, ap, sym, ◌∙◌, ◌↔◌, inl, inr, true, Option-cases, Bool-cases, arith, length,
  nat_eq,
}
use meridio.Net.{Ip, IpNet, Cidr, mask, contains, network, parse_cidr}
use meridio.Net.Mask.{same_masked→mask, mask→same_masked, mask-mask}
use meridio.Net.Parse.{Parsed, parse_cidr-Parsed, Parsed-parse_cidr}
use meridio.Ipam.Ip.{overlapping_nets, overlapping_prefixes}

-- The address z lies in the prefix.
pub record Within (z : Ip) (c : Cidr) : Type 0 where
  pub parsed : Parsed c
  pub inside : contains (network c) z ≡ true

pub contains→mask :
    (n : IpNet) (z : Ip)
    → contains n z ≡ true
    → (length n.ip ≡ length z) × (mask n.ones n.ip ≡ mask n.ones z)
unfolding contains
contains→mask n z h =
    let same : length n.ip ≡ length z = ground arith in
    (same, same_masked→mask n.ones n.ip z same (ground arith))

pub mask→contains :
    (n : IpNet) (z : Ip)
    → length n.ip ≡ length z
    → mask n.ones n.ip ≡ mask n.ones z
    → contains n z ≡ true
unfolding contains
mask→contains n z l e = ground (arith, mask→same_masked n.ones n.ip z e)

pub contains_self : (n : IpNet) → contains n n.ip ≡ true
contains_self n = mask→contains n n.ip refl refl

-- Of two networks that share an address the one with the shorter mask contains the other.
contains_of_shared :
    (n m : IpNet) (z : Ip)
    → n.ones ≤ m.ones
    → contains n z ≡ true
    → contains m z ≡ true
    → contains n m.ip ≡ true
contains_of_shared n m z l hn hm =
    let (ln, en) = contains→mask n z hn in
    let (lm, em) = contains→mask m z hm in
    mask→contains n m.ip (ln ∙ sym lm) (
      en
      ∙ sym (mask-mask n.ones m.ones z l)
      ∙ ap (mask n.ones) (sym em)
      ∙ mask-mask n.ones m.ones m.ip l)

-- A network with a longer mask that meets another lies in it.
pub contains_trans :
    (n m : IpNet) (z : Ip)
    → n.ones ≤ m.ones
    → contains n m.ip ≡ true
    → contains m z ≡ true
    → contains n z ≡ true
contains_trans n m z l hn hm =
    let (ln, en) = contains→mask n m.ip hn in
    let (lm, em) = contains→mask m z hm in
    mask→contains n z (ln ∙ lm) (
      en ∙ sym (mask-mask n.ones m.ones m.ip l) ∙ ap (mask n.ones) em ∙ mask-mask n.ones m.ones z l)

nets_share :
    (n m : IpNet)
    → overlapping_nets n m ≡ true
    → (z : Ip) × (contains n z ≡ true) × (contains m z ≡ true)
unfolding overlapping_nets
nets_share n m h = elim (Bool-cases (contains m n.ip)) [
  | inl e ↦ (n.ip, contains_self n, e)
  | inr e ↦ (m.ip, ground arith, contains_self m)
]

-- Of two networks that overlap the one with the shorter mask contains the other.
pub nets_contain :
    (n m : IpNet) → n.ones ≤ m.ones → overlapping_nets n m ≡ true → contains n m.ip ≡ true
nets_contain n m l h = let (z, hn, hm) = nets_share n m h in contains_of_shared n m z l hn hm

pub nets_meet :
    (n m : IpNet) (z : Ip) → contains n z ≡ true → contains m z ≡ true → overlapping_nets n m ≡ true
unfolding overlapping_nets
nets_meet n m z hn hm = elim (dec_le n.ones m.ones) [
  | yes l ↦ ground (arith, contains_of_shared n m z l hn hm)
  | no l ↦ ground (arith, contains_of_shared m n z (omega arith) hm hn)
]

-- Both texts parse, and the networks overlap.
pub overlapping_prefixes→nets :
    (c d : Cidr)
    → overlapping_prefixes c d ≡ true
    → Parsed c × Parsed d × (overlapping_nets (network c) (network d) ≡ true)
unfolding overlapping_prefixes
overlapping_prefixes→nets c d h = elim (Option-cases (parse_cidr c)) [
  | inl e ↦ absurd (ground arith)
  | inr ((a, n), e) ↦ elim (Option-cases (parse_cidr d)) [
    | inl f ↦ absurd (ground arith)
    | inr ((b, m), f) ↦
        let (ec, pc) = parse_cidr-Parsed c e in
        let (ed, pd) = parse_cidr-Parsed d f in (pc, pd, ground (arith, ec, ed))
  ]
]

-- Two prefixes overlap exactly when some address lies in both.
pub overlapping_prefixes_iff :
    (c d : Cidr) → (overlapping_prefixes c d ≡ true) ↔ ((z : Ip) × Within z c × Within z d)
unfolding overlapping_prefixes
overlapping_prefixes_iff c d = (
  λ h.
      let (pc, pd, e) = overlapping_prefixes→nets c d h in
      let (z, zc, zd) = nets_share (network c) (network d) e in
      (z, record { parsed = pc; inside = zc }, record { parsed = pd; inside = zd }),
  λ (z, wc, wd).
      rw (Parsed-parse_cidr c wc.parsed, Parsed-parse_cidr d wd.parsed, overlapping_prefixes)
        (nets_meet (network c) (network d) z wc.inside wd.inside),
)
