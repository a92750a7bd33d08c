-- ===== src/Ipam/Ip/Meet.antt =====
-- Where two networks that meet lie on the line of numbers.
use meridio.Base.{
  ◌+◌, ◌-◌, ◌*◌, ◌≤◌, ◌<◌, ◌≡◌, ap, sym, ◌∙◌, inl, inr, true, arith, Bool-cases, length,
}
use meridio.Base.Powers.{pow_pos}
use meridio.Net.{IpNet, mask, contains}
use meridio.Net.Value.{value, mask_bounds}
use meridio.Net.Parse.{IsNetwork, size}
use meridio.Ipam.Ip.{overlapping_nets}
use meridio.Ipam.Ip.Overlap.{contains→mask, nets_contain}

-- No address of a network that meets another comes after the other's last one.
pub overlap_below_last :
    (n m : IpNet)
    → IsNetwork n
    → IsNetwork m
    → overlapping_nets n m ≡ true
    → (length n.ip ≡ length m.ip) × (value m.ip < value n.ip + size n)
unfolding overlapping_nets
overlap_below_last n m hn hm h = elim (Bool-cases (contains m n.ip)) [
  | inl e ↦
      let (l, same) = contains→mask m n.ip e in
      let b = mask_bounds m.ones n.ip hn.bytes (rw (← l) hm.fits) in
      let eq : value m.ip ≡ value (mask m.ones n.ip) = ap value (sym hm.masked ∙ same) in
      (sym l, omega (arith, b.0, eq, pow_pos (8 * length n.ip - n.ones)))
  | inr e ↦
      let (l, same) = contains→mask n m.ip (ground arith) in
      let b = mask_bounds n.ones m.ip hm.bytes (rw (← l) hn.fits) in
      let eq : value n.ip ≡ value (mask n.ones m.ip) = ap value (sym hn.masked ∙ same) in
      (l, omega (arith, rw (← l) at b.1, eq))
]

-- The start of a network inside another one is not before the other's start.
pub inside_from :
    (n m : IpNet)
    → IsNetwork n
    → IsNetwork m
    → n.ones ≤ m.ones
    → overlapping_nets n m ≡ true
    → (length n.ip ≡ length m.ip) × (value n.ip ≤ value m.ip)
inside_from n m hn hm l h =
    let (same_length, same) = contains→mask n m.ip (nets_contain n m l h) in
    let b = mask_bounds n.ones m.ip hm.bytes (rw (← same_length) hn.fits) in
    let eq : value n.ip ≡ value (mask n.ones m.ip) = ap value (sym hn.masked ∙ same) in
    (same_length, omega (arith, b.0, eq))
