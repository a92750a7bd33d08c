-- ===== src/Ipam/Ip.antt =====
-- pkg/ipam/prefix/ip.go: the arithmetic on networks. The loops over the bits i = 1 ... ipLength
-- run over the bytes from the last one, in groups of eight rounds.
pub mod Bytes
pub mod Next
pub mod Grows
pub mod Last
pub mod Arithmetic
pub mod Skips
pub mod Overlap
pub mod Meet
use meridio.Base.{
  ℕ, zero, suc, ◌+◌, ◌-◌, ◌*◌, ◌%◌, Bool, false, ◌&&◌, ◌||◌, Option, none, some, List, [], ◌∷◌,
  reverse, leb, ltb, ◌==◌, nat_eq, if◌then◌else◌, length, keep_if,
}
use meridio.Net.{Ip, IpNet, Cidr, bits, contains, parse_cidr, ip_eq}

pub data IpFamily : Type 0 where
  ipv4 ipv6 : IpFamily

-- `IsCIDR`
unfoldable pub is_cidr : Cidr → Bool
is_cidr cidr = elim (parse_cidr cidr) [ none ↦ false | some (ip, net) ↦ ip == net.ip ]

-- `GetFamily`; `none` is its error.
unfoldable pub get_family : Cidr → Option IpFamily
get_family cidr = elim (parse_cidr cidr) [
  | none ↦ none
  | some (ip, net) ↦ some (if length ip == 4 then IpFamily.ipv4 else IpFamily.ipv6)
]

pub overlapping_nets : IpNet → IpNet → Bool
overlapping_nets net1 net2 = contains net2 net1.ip || contains net1 net2.ip

-- `OverlappingPrefixes`
unfoldable pub overlapping_prefixes : Cidr → Cidr → Bool
unfolding overlapping_nets
overlapping_prefixes cidr1 cidr2 = elim (parse_cidr cidr1) [
  | none ↦ false
  | some (_, net1) ↦ elim (parse_cidr cidr2) [
    | none ↦ false
    | some (_, net2) ↦ overlapping_nets net1 net2
  ]
]

-- One round of the loop's `if i <= wildcardLength { toAdd = toAdd*2 + 1 }`, on a byte.
pub bit_round : ℕ → ℕ → ℕ → ℕ
bit_round wildcard_length i to_add =
    if leb i wildcard_length then (to_add * 2 + 1) % 256 else to_add

-- `n` rounds from i on.
pub bit_rounds : ℕ → ℕ → ℕ → ℕ → ℕ
unfolding bit_round
bit_rounds zero wildcard_length i to_add = to_add
bit_rounds (suc n) wildcard_length i to_add =
    bit_rounds n wildcard_length (i + 1) (bit_round wildcard_length i to_add)

-- `toAdd` when the block is reached whose first bit is i.
pub block_to_add : ℕ → ℕ → ℕ
unfolding bit_rounds
block_to_add wildcard_length i = bit_rounds 8 wildcard_length i 0

-- The blocks from the last byte on, the first bit of the next one, and the carry into it.
pub next_blocks : ℕ → ℕ → ℕ → List ℕ → List ℕ
next_blocks wildcard_length i carry [] = []
next_blocks wildcard_length i carry (b ∷ bs) =
    let to_add = block_to_add wildcard_length i in
    let new_carry : ℕ = if ltb 255 (b + to_add + carry + 1) then 1 else 0 in
    if carry == 0 && to_add == 0
    then b ∷ bs
    else (b + (to_add + carry) % 256) % 256 ∷ next_blocks wildcard_length (i + 8) new_carry bs

-- `NextPrefix`
unfoldable pub next_prefix : IpNet → IpNet
unfolding next_blocks block_to_add
next_prefix n = record n { ip = reverse (next_blocks (bits n.ip - n.ones) 1 1 (reverse n.ip)) }

pub last_blocks : ℕ → ℕ → List ℕ → List ℕ
last_blocks wildcard_length i [] = []
last_blocks wildcard_length i (b ∷ bs) =
    (b + block_to_add wildcard_length i) % 256 ∷ last_blocks wildcard_length (i + 8) bs

-- `LastIP`
unfoldable pub last_ip : IpNet → Ip
unfolding last_blocks block_to_add
last_ip n = reverse (last_blocks (bits n.ip - n.ones) 1 (reverse n.ip))

-- `CollideWith`
unfoldable pub collide_with : Cidr → List Cidr → List Cidr
collide_with prefix = keep_if (λ child_prefix. overlapping_prefixes child_prefix prefix)
