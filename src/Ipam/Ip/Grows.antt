-- ===== src/Ipam/Ip/Grows.antt =====
-- `NextPrefix` moves to a larger address, unless the most significant byte wraps to 0.
use meridio.Base.{
  ℕ, zero, suc, ◌+◌, ◌-◌, ◌*◌, ◌^◌, ◌≤◌, ◌<◌, ◌≡◌, ap, ◌∙◌, ◌⊎◌, inl, inr, List, [], ◌∷◌, arith,
  length, Bool-cases, ltb,
}
use meridio.Base.Powers.{pow-add}
use meridio.Net.Value.{AllBytes, le_value, pow_256}
use meridio.Ipam.Ip.{block_to_add, next_blocks}
use meridio.Ipam.Ip.Bytes.{block_to_add_part, block_to_add_full, block_to_add_zero}
use meridio.Ipam.Ip.Next.{next_blocks_stop, next_blocks_cons}

-- The number grew by d, or the first byte is now 0.
abbrev pub Grows : List ℕ → ℕ → List ℕ → ℕ → Type 0
Grows bs d cs n = (le_value bs + d ≤ le_value cs) ⊎ (le_value cs < 2 ^ (8 * n))

carry-Grows :
    (w i b : ℕ) (bs : List ℕ)
    → w < i
    → AllBytes (b ∷ bs)
    → Grows (b ∷ bs) 1 (next_blocks w i 1 (b ∷ bs)) (length bs)
carry-Grows w i b [] l h =
    rw (next_blocks_cons w i 0 b [] (block_to_add_zero w i l)) (unfold next_blocks in ground arith)
carry-Grows w i b (b' ∷ bs) l h =
    rw (next_blocks_cons w i 0 b (b' ∷ bs) (block_to_add_zero w i l))
      (elim (Bool-cases (ltb 255 (b + 0 + 1 + 1))) [
        | inl over ↦ rw over (elim (carry-Grows w (i + 8) b' bs (omega arith) h.1) [
          | inl up ↦ inl (ground (arith, up))
          | inr wrap ↦ inr (rw (pow_256 (length bs)) (omega arith))
        ])
        | inr under ↦
            rw (under, next_blocks_stop w (i + 8) (b' ∷ bs) (omega arith)) (inl (ground arith))
      ])

pub next_blocks-Grows :
    (r w i b : ℕ) (bs : List ℕ)
    → w + 1 ≡ i + r
    → AllBytes (b ∷ bs)
    → (k : ℕ) → le_value (b ∷ bs) ≡ k * 2 ^ r
    → r ≤ 8 * length bs
    → Grows (b ∷ bs) (2 ^ r) (next_blocks w i 1 (b ∷ bs)) (length bs)
next_blocks-Grows zero w i b bs e h k m l = carry-Grows w i b bs (omega arith) h
next_blocks-Grows (suc r) w i b [] e h k m l = absurd (omega arith)
next_blocks-Grows (suc (suc (suc (suc (suc (suc (suc (suc r)))))))) w i b (b' ∷ bs) e h k m l =
    let full = block_to_add_full w i (omega arith) in
    let split : 2 ^ (8 + r) ≡ 256 * 2 ^ r = pow-add 8 r in
    let e8 : suc (suc (suc (suc (suc (suc (suc (suc r))))))) ≡ 8 + r = omega arith in
    let m' : le_value (b ∷ b' ∷ bs) ≡ k * (256 * 2 ^ r) =
      m ∙ ap (λ t. k * 2 ^ t) e8 ∙ ap (λ t. k * t) split in
    let low : b ≡ 0 = omega (arith, m', h.0) in
    rw (next_blocks_cons w i 255 b (b' ∷ bs) full, low, e8, split)
      (elim (next_blocks-Grows r w (i + 8) b' bs (omega arith) h.1 k (omega (arith, m', h.0))
        (omega arith)) [
          | inl up ↦ inl (omega (arith, up))
          | inr wrap ↦ inr (rw (pow_256 (length bs)) (omega (arith, wrap)))
        ])
next_blocks-Grows r w i b (b' ∷ bs) e h k m l =
    let part : block_to_add w i ≡ 2 ^ r - 1 =
      omega (arith, block_to_add_part r w i (omega arith) (omega arith)) in
    rw (next_blocks_cons w i (2 ^ r - 1) b (b' ∷ bs) part)
      (elim (Bool-cases (ltb 255 (b + (2 ^ r - 1) + 1 + 1))) [
        | inl over ↦ rw over (elim (carry-Grows w (i + 8) b' bs (omega arith) h.1) [
          | inl up ↦ inl (ground (arith, up, m))
          | inr wrap ↦ inr (rw (pow_256 (length bs)) (omega arith))
        ])
        | inr under ↦
            rw (under, next_blocks_stop w (i + 8) (b' ∷ bs) (omega arith)) (inl (ground (arith, m)))
      ])
