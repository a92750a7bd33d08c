-- ===== src/Ipam/Ip/Next.antt =====
-- `NextPrefix` and `LastIP` as functions on numbers.
use meridio.Base.{
  ℕ, zero, suc, ◌+◌, ◌-◌, ◌*◌, ◌%◌, ◌^◌, ◌≤◌, ◌<◌, ◌≡◌, ◌≢◌, refl, ap, ◌∙◌, List, [], ◌∷◌, arith,
  length, All, inl, inr, Bool-cases, ltb, nat_eq, if◌then◌else◌,
}
use meridio.Base.Powers.{pow-add}
use meridio.Net.Value.{AllBytes, le_value, pow_256}
use meridio.Ipam.Ip.{block_to_add, next_blocks}
use meridio.Ipam.Ip.Bytes.{block_to_add_part, block_to_add_full, block_to_add_zero}

-- Above the wildcard and with no carry the loop stops.
pub next_blocks_stop : (w i : ℕ) (bs : List ℕ) → w < i → next_blocks w i 0 bs ≡ bs
unfolding next_blocks
next_blocks_stop w i [] h = refl
next_blocks_stop w i (b ∷ bs) h = ground (arith, block_to_add_zero w i h)

pub length-next_blocks : (w i c : ℕ) (bs : List ℕ) → length (next_blocks w i c bs) ≡ length bs
unfolding next_blocks
length-next_blocks w i c [] = refl
length-next_blocks w i c (b ∷ bs) =
    ground (arith, length-next_blocks w (i + 8) 1 bs, length-next_blocks w (i + 8) 0 bs)

-- One block that has a carry coming in.
pub next_blocks_cons :
    (w i t b : ℕ) (bs : List ℕ)
    → block_to_add w i ≡ t
    → next_blocks w i 1 (b ∷ bs)
      ≡ (b + (t + 1) % 256) % 256
        ∷ next_blocks w (i + 8) (if ltb 255 (b + t + 1 + 1) then 1 else 0) bs
unfolding next_blocks nat_eq
next_blocks_cons w i t b bs e = rw e

-- Above the wildcard a carry is an increment, with the carry out of the most significant byte. A
-- byte 254 is the exception: the loop carries out of it.
pub next_blocks_carry :
    (w i : ℕ) (bs : List ℕ)
    → w < i
    → AllBytes bs
    → All (λ b. b ≢ 254) bs
    → (c : ℕ) × (c ≤ 1)
      × (le_value (next_blocks w i 1 bs) + c * 2 ^ (8 * length bs) ≡ le_value bs + 1)
next_blocks_carry w i [] l h a = (1, omega arith, unfold next_blocks in omega arith)
next_blocks_carry w i (b ∷ bs) l h a =
    rw (next_blocks_cons w i 0 b bs (block_to_add_zero w i l), pow_256 (length bs))
      (elim (Bool-cases (ltb 255 (b + 0 + 1 + 1))) [
        | inl over ↦
            let (c, c1, e) = next_blocks_carry w (i + 8) bs (omega arith) h.1 a.1 in
            let full : b ≡ 255 = ground arith in (c, c1, rw (over, full) (omega (arith, e)))
        | inr under ↦
            (0, omega arith, rw (under, next_blocks_stop w (i + 8) bs (omega arith)) (ground arith))
      ])

-- From the wildcard's last r bits on: the loop adds 2^r to an aligned address.
pub next_blocks_adds :
    (r w i : ℕ) (bs : List ℕ)
    → w + 1 ≡ i + r
    → AllBytes bs
    → All (λ b. b ≢ 254) bs
    → (k : ℕ) → le_value bs ≡ k * 2 ^ r
    → r ≤ 8 * length bs
    → (c : ℕ) × (c ≤ 1)
      × (le_value (next_blocks w i 1 bs) + c * 2 ^ (8 * length bs) ≡ le_value bs + 2 ^ r)
next_blocks_adds r w i [] e h a k m l =
    (1, omega arith, unfold next_blocks in (let z : r ≡ 0 = omega arith in rw z (omega arith)))
next_blocks_adds zero w i (b ∷ bs) e h a k m l = next_blocks_carry w i (b ∷ bs) (omega arith) h a
next_blocks_adds (suc (suc (suc (suc (suc (suc (suc (suc r)))))))) w i (b ∷ bs) e h a k m l =
    let full = block_to_add_full w i (omega arith) in
    let split : 2 ^ (8 + r) ≡ 256 * 2 ^ r = pow-add 8 r in
    let e8 : suc (suc (suc (suc (suc (suc (suc (suc r))))))) ≡ 8 + r = omega arith in
    let m' : le_value (b ∷ bs) ≡ k * (256 * 2 ^ r) =
      m ∙ ap (λ t. k * 2 ^ t) e8 ∙ ap (λ t. k * t) split in
    let (c, c1, e') =
      next_blocks_adds r w (i + 8) bs (omega arith) h.1 a.1 k (omega (arith, m', h.0))
        (omega arith) in
    let low : b ≡ 0 = omega (arith, m', h.0) in
    rw (next_blocks_cons w i 255 b bs full, pow_256 (length bs), low, e8, split)
      (c, c1, omega (arith, e'))
next_blocks_adds r w i (b ∷ bs) e h a k m l =
    let part : block_to_add w i ≡ 2 ^ r - 1 =
      omega (arith, block_to_add_part r w i (omega arith) (omega arith)) in
    rw (next_blocks_cons w i (2 ^ r - 1) b bs part, pow_256 (length bs))
      (elim (Bool-cases (ltb 255 (b + (2 ^ r - 1) + 1 + 1))) [
        | inl over ↦
            let (c, c1, e') = next_blocks_carry w (i + 8) bs (omega arith) h.1 a.1 in
            let full : b + 2 ^ r ≡ 256 = ground (arith, m) in
            (c, c1, rw over (omega (arith, full, e')))
        | inr under ↦ (
          0,
          omega arith,
          rw (under, next_blocks_stop w (i + 8) bs (omega arith)) (ground (arith, m)),
        )
      ])
