-- ===== src/MemPool/Tests.antt =====
-- Two blocks of 16 bytes in a pool of 32, of which the second ends at the end of the pool.
use sbio.Prelude.{ℕ, ◌+◌, ◌≤◌, ◌≡◌, inr, some, arith}
use sbio.MemPool.{MemPool, get_block, aligned_size}
use sbio.MemPool.Bounds.{IsWithin, get_block_lem}

abbrev half_full : MemPool
half_full = record { idx = 16; cap = 32 }

get_block_lem_example :
    (start : ℕ) × (after : MemPool) × (get_block 10 16 half_full ≡ some (start, after))
    × (start + aligned_size 10 16 ≤ after.cap)
    × (10 ≤ aligned_size 10 16)
    × (32 ≤ after.cap)
    × (16 + aligned_size 10 16 ≤ 32 → start ≡ 16)
    × IsWithin after
get_block_lem_example =
    get_block_lem 10 16 half_full (omega arith) (omega arith) (inr (omega arith))
