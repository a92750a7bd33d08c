-- ===== src/Ipam/Ip/Last.antt =====
-- `LastIP` as a function on numbers.
use meridio.Base.{
  ℕ, zero, suc, ◌+◌, ◌-◌, ◌*◌, ◌%◌, ◌^◌, ◌≤◌, ◌<◌, ◌≡◌, refl, ap, ◌∙◌, List, [], ◌∷◌, arith, length,
}
use meridio.Base.Powers.{pow-add}
use meridio.Net.Value.{AllBytes, le_value}
use meridio.Ipam.Ip.{block_to_add, last_blocks}
use meridio.Ipam.Ip.Bytes.{block_to_add_part, block_to_add_full, block_to_add_zero}

last_blocks_cons :
    (w i t b : ℕ) (bs : List ℕ)
    → block_to_add w i ≡ t
    → last_blocks w i (b ∷ bs) ≡ (b + t) % 256 ∷ last_blocks w (i + 8) bs
unfolding last_blocks
last_blocks_cons w i t b bs e = rw e

pub last_blocks-AllBytes : (w i : ℕ) (bs : List ℕ) → AllBytes (last_blocks w i bs)
unfolding last_blocks
last_blocks-AllBytes w i [] = tt
last_blocks-AllBytes w i (b ∷ bs) = (omega arith, last_blocks-AllBytes w (i + 8) bs)

pub length-last_blocks : (w i : ℕ) (bs : List ℕ) → length (last_blocks w i bs) ≡ length bs
unfolding last_blocks
length-last_blocks w i [] = refl
length-last_blocks w i (b ∷ bs) = ap suc (length-last_blocks w (i + 8) bs)

last_blocks_stop : (w i : ℕ) (bs : List ℕ) → w < i → AllBytes bs → last_blocks w i bs ≡ bs
last_blocks_stop w i [] l h = unfold last_blocks in refl
last_blocks_stop w i (b ∷ bs) l h =
    rw
      (
        last_blocks_cons w i 0 b bs (block_to_add_zero w i l),
        last_blocks_stop w (i + 8) bs (omega arith) h.1,
      )
      (let same : (b + 0) % 256 ≡ b = omega (arith, h.0) in rw same)

-- The loop adds 2^r - 1 to an aligned address.
pub last_blocks_adds :
    (r w i : ℕ) (bs : List ℕ)
    → w + 1 ≡ i + r
    → AllBytes bs
    → (k : ℕ) → le_value bs ≡ k * 2 ^ r
    → r ≤ 8 * length bs
    → le_value (last_blocks w i bs) + 1 ≡ le_value bs + 2 ^ r
last_blocks_adds r w i [] e h k m l =
    unfold last_blocks in (let z : r ≡ 0 = omega arith in rw z (omega arith))
last_blocks_adds zero w i (b ∷ bs) e h k m l =
    rw (last_blocks_stop w i (b ∷ bs) (omega arith) h) refl
last_blocks_adds (suc (suc (suc (suc (suc (suc (suc (suc r)))))))) w i (b ∷ bs) e h k m l =
    let full = block_to_add_full w i (omega arith) in
    let split : 2 ^ (8 + r) ≡ 256 * 2 ^ r = pow-add 8 r in
    let e8 : suc (suc (suc (suc (suc (suc (suc (suc r))))))) ≡ 8 + r = omega arith in
    let m' : le_value (b ∷ bs) ≡ k * (256 * 2 ^ r) =
      m ∙ ap (λ t. k * 2 ^ t) e8 ∙ ap (λ t. k * t) split in
    let low : b ≡ 0 = omega (arith, m', h.0) in
    rw (last_blocks_cons w i 255 b bs full, low, e8, split)
      (omega (
        arith,
        last_blocks_adds r w (i + 8) bs (omega arith) h.1 k (omega (arith, m', h.0)) (omega arith),
      ))
last_blocks_adds r w i (b ∷ bs) e h k m l =
    let part : block_to_add w i ≡ 2 ^ r - 1 =
      omega (arith, block_to_add_part r w i (omega arith) (omega arith)) in
    rw (last_blocks_cons w i (2 ^ r - 1) b bs part, last_blocks_stop w (i + 8) bs (omega arith) h.1)
      (omega (arith, m, h.0))
