-- ===== src/Base/Powers.antt =====
-- Powers of two.
use Prim.Native.Nat.{ℕ, zero, suc, ◌+◌, ◌-◌, ◌*◌, ◌/◌, ◌^◌, ◌≤◌, ◌<◌}
use mathlib.Core.Path.{◌≡◌, sym, ap, ◌∙◌}
use native.Mathlib.Nat.{
  pow-suc, pow-zero, mul_assoc, div-div-eq-div-mul, mul-div_left, add-zero, add-suc, div-add-mod',
  mod-lt,
}
use native.Mathlib.Omega.{arith}

pub pow_pos : (n : ℕ) → 0 < 2 ^ n
pow_pos zero = omega arith
pow_pos (suc n) = omega (arith, pow-suc 2 n, pow_pos n)

pub pow-add : (m n : ℕ) → 2 ^ (m + n) ≡ 2 ^ m * 2 ^ n
pow-add m zero = rw (add-zero, pow-zero) (omega arith)
pow-add m (suc n) =
    rw (add-suc, pow-suc 2 (m + n), pow-suc 2 n) (rw (pow-add m n) (mul_assoc (2 ^ m) (2 ^ n) 2))

pub pow-split : (k n : ℕ) → k ≤ n → 2 ^ n ≡ 2 ^ k * 2 ^ (n - k)
pow-split k n h = let e : n ≡ k + (n - k) = omega arith in ap (λ t. 2 ^ t) e ∙ pow-add k (n - k)

-- The largest multiple of d up to n.
pub floor_bounds : (n d : ℕ) → 0 < d → (n / d * d ≤ n) × (n < n / d * d + d)
floor_bounds n d h = omega (arith, div-add-mod' n d, mod-lt n {m = d} h)

-- Clearing more low digits after fewer is clearing more.
pub floor-floor : (n d e : ℕ) → 0 < d → n / d * d / (d * e) * (d * e) ≡ n / (d * e) * (d * e)
floor-floor n d e h =
    ap (λ t. t * (d * e))
      (sym (div-div-eq-div-mul (n / d * d) d e)
        ∙ ap (λ t. t / e) (mul-div_left (n / d) h)
        ∙ div-div-eq-div-mul n d e)
