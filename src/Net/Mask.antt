-- ===== src/Net/Mask.antt =====
-- Masks: to agree under a mask is to have the same masked address, and a shorter mask after a
-- longer one is the shorter.
use meridio.Base.{
  ℕ, suc, ◌-◌, ◌*◌, ◌^◌, ◌≤◌, ◌≡◌, refl, ap, inl, inr, true, false, Bool-cases, [], ◌∷◌, arith, leb,
  length,
}
use meridio.Base.Powers.{pow_pos, pow-split, floor-floor}
use meridio.Net.{Ip, mask_byte, mask, same_masked}

pub length-mask : (n : ℕ) (xs : Ip) → length (mask n xs) ≡ length xs
unfolding mask
length-mask n [] = refl
length-mask n (x ∷ xs) = ap suc (length-mask (n - 8) xs)

pub same_masked→mask :
    (n : ℕ) (xs ys : Ip)
    → length xs ≡ length ys
    → same_masked n xs ys ≡ true
    → mask n xs ≡ mask n ys
unfolding same_masked mask
same_masked→mask n [] [] l h = refl
same_masked→mask n [] (y ∷ ys) l h = absurd (omega arith)
same_masked→mask n (x ∷ xs) [] l h = absurd (omega arith)
same_masked→mask n (x ∷ xs) (y ∷ ys) l h = ground (arith, same_masked→mask (n - 8) xs ys)

pub mask→same_masked : (n : ℕ) (xs ys : Ip) → mask n xs ≡ mask n ys → same_masked n xs ys ≡ true
unfolding same_masked mask
mask→same_masked n [] [] h = refl
mask→same_masked n [] (y ∷ ys) h = refl
mask→same_masked n (x ∷ xs) [] h = refl
mask→same_masked n (x ∷ xs) (y ∷ ys) h = ground (arith, mask→same_masked (n - 8) xs ys)

mask_byte-mask_byte : (m n b : ℕ) → m ≤ n → mask_byte m (mask_byte n b) ≡ mask_byte m b
unfolding mask_byte
mask_byte-mask_byte m n b h = elim (Bool-cases (leb 8 n)) [
  | inl full ↦ rw full
  | inr part ↦
      let short : leb 8 m ≡ false = ground arith in
      let split : 2 ^ (8 - m) ≡ 2 ^ (8 - n) * 2 ^ (8 - m - (8 - n)) =
        pow-split (8 - n) (8 - m) (omega arith) in
      rw (part, short, split) (floor-floor b (2 ^ (8 - n)) _ (pow_pos (8 - n)))
]

pub mask-mask : (m n : ℕ) (xs : Ip) → m ≤ n → mask m (mask n xs) ≡ mask m xs
unfolding mask
mask-mask m n [] h = refl
mask-mask m n (x ∷ xs) h =
    ground (arith, mask_byte-mask_byte m n x h, mask-mask (m - 8) (n - 8) xs (omega arith))
