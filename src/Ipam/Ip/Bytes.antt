-- ===== src/Ipam/Ip/Bytes.antt =====
-- The number that one block of the loops of ip.go adds, and the bytes above the wildcard, which
-- nothing is added to but the carry.
use meridio.Base.{ℕ, zero, suc, ◌+◌, ◌^◌, ◌≤◌, ◌<◌, ◌≡◌, arith}
use meridio.Ipam.Ip.{block_to_add}

-- A block below which r bits of the wildcard are left adds 2^r - 1, and 255 at most.
pub block_to_add_part : (r w i : ℕ) → r < 8 → w + 1 ≡ i + r → block_to_add w i + 1 ≡ 2 ^ r
unfolding block_to_add
block_to_add_part zero w i h e = ground arith
block_to_add_part (suc zero) w i h e = ground arith
block_to_add_part (suc (suc zero)) w i h e = ground arith
block_to_add_part (suc (suc (suc zero))) w i h e = ground arith
block_to_add_part (suc (suc (suc (suc zero)))) w i h e = ground arith
block_to_add_part (suc (suc (suc (suc (suc zero))))) w i h e = ground arith
block_to_add_part (suc (suc (suc (suc (suc (suc zero)))))) w i h e = ground arith
block_to_add_part (suc (suc (suc (suc (suc (suc (suc zero))))))) w i h e = ground arith
block_to_add_part (suc (suc (suc (suc (suc (suc (suc (suc r)))))))) w i h e = absurd (omega arith)

pub block_to_add_full : (w i : ℕ) → i + 7 ≤ w → block_to_add w i ≡ 255
unfolding block_to_add
block_to_add_full w i h = ground arith

pub block_to_add_zero : (w i : ℕ) → w < i → block_to_add w i ≡ 0
unfolding block_to_add
block_to_add_zero w i h = ground arith
