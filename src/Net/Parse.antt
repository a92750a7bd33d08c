-- ===== src/Net/Parse.antt =====
-- What a text that parses stands for.
use meridio.Base.{
  ℕ, ◌-◌, ◌*◌, ◌^◌, ◌≤◌, ◌≡◌, refl, ap, sym, ◌∙◌, ◌⊎◌, true, some, [], ◌∷◌, arith, length, nat_eq,
}
use meridio.Base.Powers.{floor_bounds, pow_pos}
use meridio.Net.{
  Ip, IpNet, Cidr, mask_byte, mask, all_bytes, is_cidr_text, network, parse_cidr, to_cidr,
}
use meridio.Net.Mask.{length-mask, mask-mask}
use meridio.Net.Value.{AllBytes, value, mask-multiple}

-- A network whose address has no bit outside its mask.
pub record IsNetwork (n : IpNet) : Type 0 where
  pub bytes : AllBytes n.ip
  pub fits : n.ones ≤ 8 * length n.ip
  pub masked : mask n.ones n.ip ≡ n.ip

-- The number of addresses of a network.
abbrev pub size : IpNet → ℕ
size n = 2 ^ (8 * length n.ip - n.ones)

all_bytes→AllBytes : (ip : Ip) → all_bytes ip ≡ true → AllBytes ip
all_bytes→AllBytes [] h = tt
all_bytes→AllBytes (b ∷ bs) h = ground (arith, all_bytes→AllBytes bs)

AllBytes→all_bytes : (ip : Ip) → AllBytes ip → all_bytes ip ≡ true
AllBytes→all_bytes [] h = refl
AllBytes→all_bytes (b ∷ bs) h = ground (arith, AllBytes→all_bytes bs h.1)

mask-AllBytes : (n : ℕ) (ip : Ip) → AllBytes ip → AllBytes (mask n ip)
unfolding mask mask_byte
mask-AllBytes n [] h = tt
mask-AllBytes n (b ∷ bs) h =
    ground (arith, mask-AllBytes (n - 8) bs h.1, floor_bounds b (2 ^ (8 - n)) (pow_pos (8 - n)))

abbrev pub IsFamilyLength : Ip → Type 0
IsFamilyLength ip = (length ip ≡ 4) ⊎ (length ip ≡ 16)

pub record Parsed (c : Cidr) : Type 0 where
  pub family : IsFamilyLength c.address
  pub bytes : AllBytes c.address
  pub fits : c.length ≤ 8 * length c.address

pub parse_cidr-Parsed :
    (c : Cidr) {a : Ip} {n : IpNet} → parse_cidr c ≡ some (a, n) → (n ≡ network c) × Parsed c
unfolding parse_cidr is_cidr_text
parse_cidr-Parsed c h = (
  ground arith,
  record {
    family = ground arith;
    bytes = all_bytes→AllBytes c.address (ground arith);
    fits = ground arith;
  },
)

pub Parsed-parse_cidr : (c : Cidr) → Parsed c → parse_cidr c ≡ some (c.address, network c)
unfolding parse_cidr is_cidr_text
Parsed-parse_cidr c p = ground (arith, p.family, AllBytes→all_bytes c.address p.bytes)

pub network-IsNetwork : (c : Cidr) → Parsed c → IsNetwork (network c)
unfolding network
network-IsNetwork c p = record {
  bytes = mask-AllBytes c.length c.address p.bytes;
  fits = rw (length-mask c.length c.address) p.fits;
  masked = mask-mask c.length c.length c.address (omega arith);
}

pub length-network : (c : Cidr) → length (network c).ip ≡ length c.address
unfolding network
length-network c = length-mask c.length c.address

-- The address of a network is a multiple of its size.
pub value-IsNetwork : (n : IpNet) → IsNetwork n → (k : ℕ) × (value n.ip ≡ k * size n)
value-IsNetwork n h =
    let (k, e) = mask-multiple n.ones n.ip h.bytes h.fits in (k, ap value (sym h.masked) ∙ e)

-- The text of a network parses, to that network.
pub network-Parsed : (c : Cidr) → Parsed c → Parsed (to_cidr (network c))
unfolding network
network-Parsed c p = record {
  family = rw (length-mask c.length c.address) p.family;
  bytes = mask-AllBytes c.length c.address p.bytes;
  fits = rw (length-mask c.length c.address) p.fits;
}

pub network-to_cidr : (c : Cidr) → network (to_cidr (network c)) ≡ network c
unfolding network
network-to_cidr c =
    ap (λ t. record { ip = t; ones = c.length })
      (mask-mask c.length c.length c.address (omega arith))
