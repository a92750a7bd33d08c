-- ===== src/Ipam/Allocate/Jump.antt =====
-- Each jump of the search goes to a later network.
use native.Mathlib.Nat.{lt_of_mul-lt-mul_left, mul-le-mul_right}
use meridio.Base.{
  ℕ, ◌+◌, ◌-◌, ◌*◌, ◌^◌, ◌≤◌, ◌<◌, ◌≡◌, refl, ap, sym, ◌∙◌, inl, inr, true, some, arith, length,
}
use meridio.Net.{IpNet, Cidr, network, to_cidr}
use meridio.Net.Mask.{length-mask}
use meridio.Net.Value.{value, mask_bounds}
use meridio.Net.Parse.{
  IsNetwork, Parsed, size, Parsed-parse_cidr, network-IsNetwork, length-network, value-IsNetwork,
}
use meridio.Ipam.Ip.{overlapping_prefixes, next_prefix, last_ip}
use meridio.Ipam.Ip.Arithmetic.{
  value-last_ip, last_ip-AllBytes, length-last_ip, length-next_prefix, ones-next_prefix,
  next_prefix_grows,
}
use meridio.Ipam.Ip.Overlap.{overlapping_prefixes→nets}
use meridio.Ipam.Ip.Meet.{overlap_below_last, inside_from}
use meridio.Ipam.Allocate.{jump}

-- The number of the network's first address.
abbrev pub start_of : Cidr → ℕ
start_of c = value (network c).ip

-- Of two multiples the smaller is a whole step below.
multiples_apart : (a b k j d : ℕ) → a ≡ k * d → b ≡ j * d → a < b → a + d ≤ b
multiples_apart a b k j d ea eb h =
    let less : k < j = lt_of_mul-lt-mul_left d (omega (arith, ea, eb)) in
    omega (arith, ea, eb, mul-le-mul_right {m = k + 1} {n = j} d (omega arith))

-- The candidate starts up to the collision's last address, which lies in the network m, and the
-- next network starts after m.
later_start :
    (v_cur v_c size_c last v_m d v_next v_landed k j : ℕ)
    → v_cur < v_c + size_c
    → last + 1 ≡ v_c + size_c
    → last < v_m + d
    → v_m + d ≤ v_next
    → v_next < v_landed + d
    → v_m ≡ k * d
    → v_landed ≡ j * d
    → v_cur < v_landed
later_start v_cur v_c size_c last v_m d v_next v_landed k j below end within up inside em el =
    omega (arith, multiples_apart v_m v_landed k j d em el (omega arith))

same_size : (a b p q : ℕ) → a ≡ b → p ≡ q → 2 ^ (8 * a - p) ≡ 2 ^ (8 * b - q)
same_size a b p q e f = rw (e, f)

module _ (c cur : Cidr) (len : ℕ) (meet : overlapping_prefixes c cur ≡ true)
    (same : cur.length ≡ len) where
  abbrev pub landing : Cidr
  landing = record { address = last_ip (network c); length = len }

  pub landing-Parsed : Parsed landing
  landing-Parsed =
      let (pc, pk, e) = overlapping_prefixes→nets c cur meet in
      let hc = network-IsNetwork c pc in
      let l = length-last_ip (network c) hc ∙ length-network c in
      let lk = (overlap_below_last (network c) (network cur) hc (network-IsNetwork cur pk) e).0 in
      record {
        family = rw l pc.family;
        bytes = last_ip-AllBytes (network c) hc;
        fits = omega (arith, same, pk.fits, length-last_ip (network c) hc, lk, length-network cur);
      }

  pub jump_lem : jump c len ≡ some (next_prefix (network landing))
  unfolding jump
  jump_lem =
      rw (Parsed-parse_cidr c (overlapping_prefixes→nets c cur meet).0, jump)
        (rw (Parsed-parse_cidr landing landing-Parsed))

  -- Where the jump lands inside the parent, it lands on a later network than the candidate.
  pub jump_grows :
      (parent : Cidr)
      → overlapping_prefixes parent (to_cidr (next_prefix (network landing))) ≡ true
      → parent.length ≤ len
      → 8 ≤ parent.length
      → 2 ^ (8 * (length parent.address - 1)) ≤ start_of parent
      → start_of cur < start_of (to_cidr (next_prefix (network landing)))
  unfolding network
  jump_grows parent inside shorter deep high =
      let (pc, pk, meets) = overlapping_prefixes→nets c cur meet in
      let hc = network-IsNetwork c pc in
      let before =
        overlap_below_last (network c) (network cur) hc (network-IsNetwork cur pk) meets in
      let m : IpNet = network landing in
      let hm : IsNetwork m = network-IsNetwork landing landing-Parsed in
      let nx : IpNet = next_prefix m in
      let ones : nx.ones ≡ len = ones-next_prefix m in
      let (pp, pn, within) = overlapping_prefixes→nets parent (to_cidr nx) inside in
      let hn : IsNetwork (network (to_cidr nx)) = network-IsNetwork (to_cidr nx) pn in
      let (l, from) =
        inside_from (network parent) (network (to_cidr nx)) (network-IsNetwork parent pp) hn
          (omega (arith, ones, shorter)) within in
      let landed = mask_bounds len (last_ip (network c)) landing-Parsed.bytes landing-Parsed.fits in
      let masked = mask_bounds nx.ones nx.ip pn.bytes pn.fits in
      let lengths : length nx.ip ≡ length m.ip = length-next_prefix m hm in
      let (k, ek) = value-IsNetwork m hm in
      let (j, ej) = value-IsNetwork (network (to_cidr nx)) hn in
      let size_last =
        same_size (length (last_ip (network c))) (length m.ip) len len
          (sym (length-mask len (last_ip (network c)))) refl in
      let size_next = same_size (length nx.ip) (length m.ip) nx.ones len lengths ones in
      let size_landed =
        same_size (length (network (to_cidr nx)).ip) (length m.ip) nx.ones len
          (length-network (to_cidr nx) ∙ lengths) ones in
      let family : length m.ip ≡ length parent.address =
        sym lengths ∙ sym (length-network (to_cidr nx)) ∙ sym l ∙ length-network parent in
      elim (next_prefix_grows m hm (omega arith)) [
        | inl up ↦
            later_start (start_of cur) (start_of c) (size (network c)) (value (last_ip (network c)))
              (value m.ip) (size m) (value nx.ip) (start_of (to_cidr nx)) k j before.1
              (value-last_ip (network c) hc) (omega (arith, landed.1, size_last)) up
              (omega (arith, masked.1, size_next)) ek (ej ∙ ap (λ t. j * t) size_landed)
        | inr wrap ↦
            absurd (omega (arith, wrap, high, from, masked.0, ap (λ t. 2 ^ (8 * (t - 1))) family))
      ]
