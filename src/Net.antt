-- ===== src/Net.antt =====
-- What the IPAM uses of Go's package net: addresses as bytes, `ParseCIDR`, `IPNet.Contains`.
-- An address has 4 bytes or 16, the most significant first. IPv6 addresses that map IPv4 ones are
-- left out.
pub mod Mask
pub mod Value
pub mod Parse
use native.Mathlib.Decide.{ℕ_discrete}
use meridio.Base.{
  ℕ, suc, ◌-◌, ◌*◌, ◌/◌, ◌^◌, ◌<◌, ◌≡◌, Bool, true, ◌&&◌, ◌||◌, Option, none, some, List, [], ◌∷◌,
  leb, ltb, ◌==◌, Eq, nat_eq, if◌then◌else◌, length, All,
}

abbrev pub Ip : Type 0
Ip = List ℕ

-- `net.IPNet`: the address and the number of ones in the mask.
pub record IpNet : Type 0 where
  pub ip : Ip
  pub ones : ℕ

-- The text "address/length". A text that is not of this form is one that `parse_cidr` refuses.
pub record Cidr : Type 0 where
  pub address : Ip
  pub length : ℕ

cidr_dec : Discrete Cidr
cidr_dec = hlevel ℕ_discrete

instance unfoldable pub cidr_eq : Eq Cidr
unfolding cidr_dec
cidr_eq = record { dec = cidr_dec }

ip_dec : Discrete Ip
ip_dec = hlevel ℕ_discrete

-- `ip.Equal(other)`
instance unfoldable pub ip_eq : Eq Ip
unfolding ip_dec
ip_eq = record { dec = ip_dec }

-- `len(mask) * 8`, the second result of `Mask.Size()`.
abbrev pub bits : Ip → ℕ
bits ip = 8 * length ip

-- `b & m` for the byte m that begins with `ones` ones.
unfoldable pub mask_byte : ℕ → ℕ → ℕ
mask_byte ones b = if leb 8 ones then b else b / 2 ^ (8 - ones) * 2 ^ (8 - ones)

-- `ip.Mask(net.CIDRMask(ones, ...))`
unfoldable pub mask : ℕ → Ip → Ip
mask ones [] = []
mask ones (b ∷ bs) = mask_byte ones b ∷ mask (ones - 8) bs

-- The loop of `Contains`: the addresses agree under the mask.
unfoldable pub same_masked : ℕ → Ip → Ip → Bool
same_masked ones [] [] = true
same_masked ones [] (c ∷ cs) = true
same_masked ones (b ∷ bs) [] = true
same_masked ones (b ∷ bs) (c ∷ cs) =
    mask_byte ones b == mask_byte ones c && same_masked (ones - 8) bs cs

-- `n.Contains(ip)`: never across the families.
unfoldable pub contains : IpNet → Ip → Bool
contains n ip = length n.ip == length ip && same_masked n.ones n.ip ip

abbrev pub all_bytes : Ip → Bool
all_bytes [] = true
all_bytes (b ∷ bs) = ltb b 256 && all_bytes bs

-- What `ParseCIDR` accepts.
unfoldable pub is_cidr_text : Cidr → Bool
is_cidr_text c =
    (length c.address == 4 || length c.address == 16)
    && all_bytes c.address
    && leb c.length (bits c.address)

unfoldable pub network : Cidr → IpNet
network c = record { ip = mask c.length c.address; ones = c.length }

-- `net.ParseCIDR`: the address, and the network that it lies in.
unfoldable pub parse_cidr : Cidr → Option (Ip × IpNet)
parse_cidr c = if is_cidr_text c then some (c.address, network c) else none

-- `n.String()`
abbrev pub to_cidr : IpNet → Cidr
to_cidr n = record { address = n.ip; length = n.ones }
