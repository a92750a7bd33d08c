-- ===== src/Ipam/Ip/Skips.antt =====
-- Where `NextPrefix` goes wrong: its test for a carry, `next + toAdd + carry + 1 > 255`, is also
-- true of a sum of 255.
use mathlib.Core.List.{reverse-reverse}
use meridio.Base.{
  ℕ, zero, suc, ◌+◌, ◌-◌, ◌*◌, ◌^◌, ◌≤◌, ◌<◌, ◌≡◌, ◌≢◌, ap, ◌∙◌, List, ◌∷◌, ◌++◌, reverse, arith,
  length, length-reverse, All, replicate,
}
use meridio.Net.{IpNet, bits}
use meridio.Net.Value.{AllBytes, value, le_value, value-reverse, pow_256}
use meridio.Ipam.Ip.{next_blocks, next_prefix}
use meridio.Ipam.Ip.Bytes.{block_to_add_full, block_to_add_zero}
use meridio.Ipam.Ip.Next.{next_blocks_cons, next_blocks_carry}

-- Wildcard bytes 0, then a byte 254, the least significant one first.
abbrev pub bytes_254 : ℕ → List ℕ → List ℕ
bytes_254 j rest = replicate j 0 ++ 254 ∷ rest

next_blocks_skips :
    (j w i : ℕ) (rest : List ℕ)
    → w + 1 ≡ i + 8 * j
    → AllBytes rest
    → All (λ b. b ≢ 254) rest
    → (c : ℕ) × (c ≤ 1)
      × (le_value (next_blocks w i 1 (bytes_254 j rest)) + c * 2 ^ (8 * length (bytes_254 j rest))
          ≡ le_value (bytes_254 j rest) + 257 * 2 ^ (8 * j))
next_blocks_skips zero w i rest e h a =
    let (c, c1, e') = next_blocks_carry w (i + 8) rest (omega arith) h a in
    rw
      (next_blocks_cons w i 0 254 rest (block_to_add_zero w i (omega arith)), pow_256 (length rest))
      (c, c1, omega (arith, e'))
next_blocks_skips (suc j) w i rest e h a =
    let (c, c1, e') = next_blocks_skips j w (i + 8) rest (omega arith) h a in
    rw
      (
        next_blocks_cons w i 255 0 (bytes_254 j rest) (block_to_add_full w i (omega arith)),
        pow_256 (length (bytes_254 j rest)),
        pow_256 j,
      )
      (c, c1, omega (arith, e'))

pow_positive : (j : ℕ) → 0 < 2 ^ (8 * j)
pow_positive zero = omega arith
pow_positive (suc j) = rw (pow_256 j) (omega (arith, pow_positive j))

-- With a byte above the byte 254, 256 networks are not the whole address space.
far_apart :
    (j b : ℕ) (above : List ℕ) → 256 * 2 ^ (8 * j) < 2 ^ (8 * length (bytes_254 j (b ∷ above)))
far_apart zero b above =
    rw (pow_256 (suc (length above)), pow_256 (length above))
      (omega (arith, pow_positive (length above)))
far_apart (suc j) b above =
    rw (pow_256 (length (bytes_254 j (b ∷ above))), pow_256 j) (omega (arith, far_apart j b above))

-- 257 networks on, with a wrap or without one, is not 1 network on.
not_next :
    (v size space next c : ℕ)
    → c ≤ 1
    → 0 < size
    → 256 * size < space
    → next + c * space ≡ v + 257 * size
    → next ≢ v + size
not_next v size space next zero c1 p far e same = absurd (omega (arith, p, e, same))
not_next v size space next (suc zero) c1 p far e same = absurd (omega (arith, p, far, e, same))
not_next v size space next (suc (suc c)) c1 p far e same = absurd (omega (arith, c1))

-- The mask of a network ends behind a byte 254, there are bytes above it, and none of them is 254.
-- Then the result is not the network that follows, but the one 256 networks after that, where the
-- address space wraps once at most (c).
pub next_prefix_skips :
    (n : IpNet) (j b : ℕ) (above : List ℕ)
    → n.ip ≡ reverse (bytes_254 j (b ∷ above))
    → n.ones + 8 * j ≡ 8 * length n.ip
    → AllBytes (b ∷ above)
    → All (λ x. x ≢ 254) (b ∷ above)
    → (value (next_prefix n).ip ≢ value n.ip + 2 ^ (8 * j))
      × ((c : ℕ) × (c ≤ 1)
          × (value (next_prefix n).ip + c * 2 ^ (8 * length n.ip) ≡ value n.ip + 257 * 2 ^ (8 * j)))
unfolding next_prefix
next_prefix_skips n j b above e l h a =
    let rest = b ∷ above in
    let bytes : reverse n.ip ≡ bytes_254 j rest =
      ap reverse e ∙ reverse-reverse (bytes_254 j rest) in
    let here : value n.ip ≡ le_value (bytes_254 j rest) =
      ap value e ∙ value-reverse (bytes_254 j rest) in
    let len : length n.ip ≡ length (bytes_254 j rest) =
      ap length e ∙ length-reverse (bytes_254 j rest) in
    let (c, c1, e') = next_blocks_skips j (bits n.ip - n.ones) 1 rest (omega (arith, l)) h a in
    let sum : value (next_prefix n).ip + c * 2 ^ (8 * length n.ip)
        ≡ value n.ip + 257 * 2 ^ (8 * j) =
      rw (value-reverse (next_blocks (bits n.ip - n.ones) 1 1 (reverse n.ip)), here)
        (rw (bytes, ap (λ t. 2 ^ (8 * t)) len) e') in
    (
      not_next (value n.ip) (2 ^ (8 * j)) (2 ^ (8 * length n.ip)) (value (next_prefix n).ip) c c1
          (pow_positive j) (rw len (far_apart j b above)) sum,
      (c, c1, sum),
    )
