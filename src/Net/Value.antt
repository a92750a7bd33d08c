-- ===== src/Net/Value.antt =====
-- The number that an address stands for.
use mathlib.Core.List.{reverse-cons}
use native.Mathlib.Nat.{mul-le-mul_right}
use meridio.Base.{
  ℕ, suc, ◌+◌, ◌-◌, ◌*◌, ◌/◌, ◌^◌, ◌≤◌, ◌<◌, ◌≡◌, refl, ap, ◌∙◌, List, [], ◌∷◌, ◌++◌, reverse,
  arith, leb, length, length-append, All, Bool-cases, inl, inr,
}
use meridio.Base.Powers.{pow_pos, pow-split, pow-add, floor_bounds}
use meridio.Net.{Ip, mask_byte, mask}
use meridio.Net.Mask.{length-mask}

abbrev pub AllBytes : List ℕ → Type 0
AllBytes = All (λ b. b < 256)

-- The first byte is the most significant one.
abbrev pub value : Ip → ℕ
value [] = 0
value (b ∷ bs) = b * 2 ^ (8 * length bs) + value bs

-- The first byte is the least significant one.
abbrev pub le_value : List ℕ → ℕ
le_value [] = 0
le_value (b ∷ bs) = b + 256 * le_value bs

pub pow_256 : (n : ℕ) → 2 ^ (8 * suc n) ≡ 256 * 2 ^ (8 * n)
pow_256 n = let e : 8 * suc n ≡ 8 + 8 * n = omega arith in ap (λ t. 2 ^ t) e ∙ pow-add 8 (8 * n)

pub value-lt : (ip : Ip) → AllBytes ip → value ip < 2 ^ (8 * length ip)
value-lt [] h = omega arith
value-lt (b ∷ bs) h = rw (pow_256 (length bs)) (grind (arith, value-lt bs h.1))

value-snoc : (xs : Ip) (b : ℕ) → value (xs ++ b ∷ []) ≡ value xs * 256 + b
value-snoc [] b = omega arith
value-snoc (x ∷ xs) b =
    rw (length-append xs (b ∷ []), value-snoc xs b)
      (let e : 8 * (length xs + 1) ≡ 8 + 8 * length xs = omega arith in
        rw (e, pow-add 8 (8 * length xs)) (omega arith))

pub value-reverse : (xs : List ℕ) → value (reverse xs) ≡ le_value xs
value-reverse [] = refl
value-reverse (x ∷ xs) =
    ap value (reverse-cons x xs) ∙ value-snoc (reverse xs) x ∙ omega (arith, value-reverse xs)

value-mask_zero : (xs : Ip) → AllBytes xs → value (mask 0 xs) ≡ 0
unfolding mask mask_byte
value-mask_zero [] h = refl
value-mask_zero (x ∷ xs) h =
    let none_left : x / 256 ≡ 0 = omega (arith, h.0) in
    rw (none_left, value-mask_zero xs h.1) (omega arith)

-- The size of a network, byte by byte.
size-cons_full : (n l : ℕ) → 8 ≤ n → 2 ^ (8 * suc l - n) ≡ 2 ^ (8 * l - (n - 8))
size-cons_full n l h = let e : 8 * suc l - n ≡ 8 * l - (n - 8) = omega arith in ap (λ t. 2 ^ t) e

size-cons_part : (n l : ℕ) → n < 8 → 2 ^ (8 * suc l - n) ≡ 2 ^ (8 - n) * 2 ^ (8 * l)
size-cons_part n l h =
    let e : 8 * suc l - n ≡ 8 - n + 8 * l = omega arith in
    ap (λ t. 2 ^ t) e ∙ pow-add (8 - n) (8 * l)

add_products :
    (f x d p v : ℕ)
    → f ≤ x
    → x < f + d
    → v < p
    → (f * p + 0 ≤ x * p + v) × (x * p + v < f * p + 0 + d * p)
add_products f x d p v h k l = omega (
  arith,
  mul-le-mul_right {m = f} {n = x} p h,
  mul-le-mul_right {m = x + 1} {n = f + d} p (omega arith),
)

-- An address lies between its masked address and the end of the network.
pub mask_bounds :
    (n : ℕ) (xs : Ip)
    → AllBytes xs
    → n ≤ 8 * length xs
    → (value (mask n xs) ≤ value xs) × (value xs < value (mask n xs) + 2 ^ (8 * length xs - n))
unfolding mask mask_byte
mask_bounds n [] h l = (omega arith, omega (arith, pow_pos (0 - n)))
mask_bounds n (x ∷ xs) h l = elim (Bool-cases (leb 8 n)) [
  | inl full ↦
      rw (full, length-mask (n - 8) xs, size-cons_full n (length xs) (ground arith))
        (omega (arith, mask_bounds (n - 8) xs h.1 (ground arith)))
  | inr part ↦
      let gone : n - 8 ≡ 0 = ground arith in
      let floor = floor_bounds x (2 ^ (8 - n)) (pow_pos (8 - n)) in
      rw
        (
          part,
          length-mask (n - 8) xs,
          size-cons_part n (length xs) (ground arith),
          gone,
          value-mask_zero xs h.1,
        )
        (add_products _ x (2 ^ (8 - n)) _ (value xs) floor.0 floor.1 (value-lt xs h.1))
]

-- A masked address is a multiple of the size of its network.
pub mask-multiple :
    (n : ℕ) (xs : Ip)
    → AllBytes xs
    → n ≤ 8 * length xs
    → (k : ℕ) × (value (mask n xs) ≡ k * 2 ^ (8 * length xs - n))
unfolding mask mask_byte
mask-multiple n [] h l = (0, omega arith)
mask-multiple n (x ∷ xs) h l = elim (Bool-cases (leb 8 n)) [
  | inl full ↦
      let (k, e) = mask-multiple (n - 8) xs h.1 (ground arith) in
      let split = pow-split (8 * length xs - (n - 8)) (8 * length xs) (omega arith) in
      rw (full, length-mask (n - 8) xs, size-cons_full n (length xs) (ground arith))
        (
          x * 2 ^ (8 * length xs - (8 * length xs - (n - 8))) + k,
          omega (arith, ap (λ t. x * t) split, e),
        )
  | inr part ↦
      let gone : n - 8 ≡ 0 = ground arith in
      rw
        (
          part,
          length-mask (n - 8) xs,
          size-cons_part n (length xs) (ground arith),
          gone,
          value-mask_zero xs h.1,
        )
        (x / 2 ^ (8 - n), omega arith)
]
