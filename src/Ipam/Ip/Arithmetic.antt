-- ===== src/Ipam/Ip/Arithmetic.antt =====
-- What `NextPrefix` and `LastIP` compute, as arithmetic on the numbers of the addresses.
use mathlib.Core.List.{reverse-reverse}
use meridio.Base.{
  ℕ, suc, ◌+◌, ◌-◌, ◌*◌, ◌^◌, ◌≤◌, ◌<◌, ◌≡◌, ◌≢◌, refl, ap, sym, ◌∙◌, ◌⊎◌, List, [], ◌∷◌, reverse,
  arith, length, length-reverse, All, All-reverse,
}
use meridio.Net.{Ip, IpNet, bits}
use meridio.Net.Value.{AllBytes, value, le_value, value-reverse}
use meridio.Net.Parse.{IsNetwork, size, value-IsNetwork}
use meridio.Ipam.Ip.{next_blocks, next_prefix, last_blocks, last_ip}
use meridio.Ipam.Ip.Next.{next_blocks_adds, length-next_blocks}
use meridio.Ipam.Ip.Grows.{Grows, next_blocks-Grows}
use meridio.Ipam.Ip.Last.{last_blocks-AllBytes, length-last_blocks, last_blocks_adds}

le_value-reverse : (ip : Ip) → le_value (reverse ip) ≡ value ip
le_value-reverse ip = sym (value-reverse (reverse ip)) ∙ ap value (reverse-reverse ip)

pub ones-next_prefix : (n : IpNet) → (next_prefix n).ones ≡ n.ones
unfolding next_prefix
ones-next_prefix n = refl

module _ (n : IpNet) (h : IsNetwork n) where
  aligned : (k : ℕ) × (le_value (reverse n.ip) ≡ k * size n)
  aligned = let (k, e) = value-IsNetwork n h in (k, le_value-reverse n.ip ∙ e)

  -- The last address is one below the end of the network.
  pub value-last_ip : value (last_ip n) + 1 ≡ value n.ip + size n
  unfolding last_ip
  value-last_ip =
      let (k, e) = aligned in
      let adds =
        last_blocks_adds (bits n.ip - n.ones) (bits n.ip - n.ones) 1 (reverse n.ip) (omega arith)
          (All-reverse _ n.ip h.bytes) k e (rw (length-reverse n.ip) (omega arith)) in
      rw (value-reverse (last_blocks (bits n.ip - n.ones) 1 (reverse n.ip)))
        (adds ∙ ap (λ t. t + size n) (le_value-reverse n.ip))

  pub last_ip-AllBytes : AllBytes (last_ip n)
  unfolding last_ip
  last_ip-AllBytes = All-reverse _ _ (last_blocks-AllBytes (bits n.ip - n.ones) 1 (reverse n.ip))

  pub length-last_ip : length (last_ip n) ≡ length n.ip
  unfolding last_ip
  length-last_ip =
      length-reverse (last_blocks (bits n.ip - n.ones) 1 (reverse n.ip))
      ∙ length-last_blocks _ _ (reverse n.ip)
      ∙ length-reverse n.ip

  pub length-next_prefix : length (next_prefix n).ip ≡ length n.ip
  unfolding next_prefix
  length-next_prefix =
      length-reverse (next_blocks (bits n.ip - n.ones) 1 1 (reverse n.ip))
      ∙ length-next_blocks _ _ _ (reverse n.ip)
      ∙ length-reverse n.ip

  -- On a network none of whose bytes is 254, `NextPrefix` gives the network that follows, and
  -- wraps past the end of the address space (c = 1).
  pub value-next_prefix :
      All (λ b. b ≢ 254) n.ip
      → (c : ℕ) × (c ≤ 1)
        × (value (next_prefix n).ip + c * 2 ^ (8 * length n.ip) ≡ value n.ip + size n)
  unfolding next_prefix
  value-next_prefix no_254 =
      let (k, e) = aligned in
      let (c, c1, adds) =
        next_blocks_adds (bits n.ip - n.ones) (bits n.ip - n.ones) 1 (reverse n.ip) (omega arith)
          (All-reverse _ n.ip h.bytes) (All-reverse _ n.ip no_254) k e
          (rw (length-reverse n.ip) (omega arith)) in
      (
        c,
        c1,
        rw (value-reverse (next_blocks (bits n.ip - n.ones) 1 1 (reverse n.ip)))
            (rw (length-reverse n.ip, le_value-reverse n.ip) at adds),
      )

-- A loop over a non-empty list of bytes, the size of the first byte of the result included.
blocks_grow :
    (r : ℕ) (bs : List ℕ)
    → 0 < length bs
    → AllBytes bs
    → (k : ℕ) → le_value bs ≡ k * 2 ^ r
    → r + 8 ≤ 8 * length bs
    → Grows bs (2 ^ r) (next_blocks r 1 1 bs) (length bs - 1)
blocks_grow r [] p h k e l = absurd (omega arith)
blocks_grow r (b ∷ bs) p h k e l =
    let e1 : suc (length bs) - 1 ≡ length bs = omega arith in
    rw e1 (next_blocks-Grows r r 1 b bs (omega arith) h k e (omega arith))

pub next_prefix_grows :
    (n : IpNet)
    → IsNetwork n
    → 8 ≤ n.ones
    → (value n.ip + size n ≤ value (next_prefix n).ip)
      ⊎ (value (next_prefix n).ip < 2 ^ (8 * (length n.ip - 1)))
unfolding next_prefix
next_prefix_grows n h l =
    let (k, e) = aligned n h in
    let grow =
      blocks_grow (bits n.ip - n.ones) (reverse n.ip)
        (rw (length-reverse n.ip) (omega (arith, h.fits))) (All-reverse _ n.ip h.bytes) k e
        (rw (length-reverse n.ip) (omega (arith, h.fits))) in
    rw (value-reverse (next_blocks (bits n.ip - n.ones) 1 1 (reverse n.ip)))
      (rw (length-reverse n.ip, le_value-reverse n.ip) at grow)
