-- ===== src/Ipam/Allocate/Tests.antt =====
-- pkg/ipam/prefix/allocate.go: the search for a network of 16 bits below 0.0.0.0/0.
use meridio.Base.{ℕ, zero, suc, ◌≡◌, refl, List, [], ◌∷◌, ◌++◌, nat_eq, string_eq, All}
use meridio.Net.{
  IpNet, Cidr, parse_cidr, network, cidr_eq, ip_eq, contains, mask, mask_byte, is_cidr_text,
  same_masked,
}
use meridio.Ipam.Ip.{next_prefix, last_ip, overlapping_prefixes, collide_with}
use meridio.Ipam.Prefix.{top}
use meridio.Ipam.Allocate.{out_of_fuel, Request, failed, search, jump}
use meridio.Ipam.Allocate.Candidate.{request_of}

abbrev range : ℕ → ℕ → ℕ → Cidr
range a b length = record { address = a ∷ b ∷ 0 ∷ 0 ∷ []; length = length }

-- All but 255.255.0.0/16 is taken.
abbrev children : List Cidr
children =
    range 0 0 1
    ∷ range 128 0 2
    ∷ range 192 0 3
    ∷ range 224 0 4
    ∷ range 240 0 5
    ∷ range 248 0 6
    ∷ range 252 0 7
    ∷ range 254 0 8
    ∷ range 255 0 9
    ∷ range 255 128 10
    ∷ range 255 192 11
    ∷ range 255 224 12
    ∷ range 255 240 13
    ∷ range 255 248 14
    ∷ range 255 252 15
    ∷ range 255 254 16
    ∷ []

abbrev request : Request
request = request_of (top "all" (range 0 0 0)) "child" 16 []

abbrev net : ℕ → ℕ → IpNet
net a b = record { ip = a ∷ b ∷ 0 ∷ 0 ∷ []; ones = 16 }

abbrev later : List IpNet
later =
    net 192 0
    ∷ net 224 0
    ∷ net 240 0
    ∷ net 248 0
    ∷ net 252 0
    ∷ net 254 0
    ∷ net 255 0
    ∷ net 255 128
    ∷ net 255 192
    ∷ net 255 224
    ∷ net 255 240
    ∷ net 255 248
    ∷ net 255 252
    ∷ net 255 254
    ∷ net 0 255
    ∷ []

-- The candidates, of which the last one leads to the first again: after 255.254.0.0/16 comes
-- 0.255.0.0/16.
abbrev candidates : List IpNet
candidates = net 128 0 ∷ later

out_of_rounds : (cs : List IpNet) → All (λ c. search 0 request children c ≡ failed out_of_fuel) cs
unfolding search
out_of_rounds [] = tt
out_of_rounds (c ∷ cs) = (refl, out_of_rounds cs)

rotate : (P : IpNet → Type 0) (x : IpNet) (cs : List IpNet) → P x → All P cs → All P (cs ++ x ∷ [])
rotate P x [] h a = (h, tt)
rotate P x (c ∷ cs) h (k, a) = (k, rotate P x cs h a)

search_goes_on :
    (fuel : ℕ) → All (λ c. search fuel request children c ≡ failed out_of_fuel) candidates
unfolding search next_prefix last_ip overlapping_prefixes parse_cidr network nat_eq cidr_eq ip_eq
    string_eq contains is_cidr_text mask mask_byte collide_with same_masked jump
search_goes_on zero = out_of_rounds candidates
search_goes_on (suc fuel) =
    let (h, a) = search_goes_on fuel in
    rotate (λ c. search fuel request children c ≡ failed out_of_fuel) (net 128 0) later h a

-- No fuel is enough for this search.
search_first : (fuel : ℕ) → search fuel request children request.first ≡ failed out_of_fuel
unfolding search next_prefix last_ip overlapping_prefixes parse_cidr network nat_eq cidr_eq ip_eq
    string_eq contains is_cidr_text mask mask_byte collide_with same_masked jump
search_first zero = refl
search_first (suc fuel) = (search_goes_on fuel).0
