-- ===== src/MemPool.antt =====
-- `MemPool` (util/mem_pool.hh): blocks handed out one behind the other from a buffer, from its start
-- again where one does not fit. The pool is its size and the position of the next block; where the
-- buffer is, and what stands in it, is left out.
pub mod Bounds
mod Tests
use sbio.Prelude.{
  ℕ, zero, suc, ◌+◌, ◌-◌, ◌*◌, ◌/◌, ◌%◌, ◌≤◌, ◌<◌, Bool, true, false, Option, none, some, ltb, ◌==◌,
  if◌then◌else◌,
}

pub record MemPool : Type 0 where
  pub idx : ℕ
  pub cap : ℕ

pub create : MemPool
create = record { idx = 0; cap = 0 }

-- The size rounded up to the alignment, which is a power of two: there the mask is this quotient.
pub aligned_size : ℕ → ℕ → ℕ
aligned_size bytes alignment = (bytes + (alignment - 1)) / alignment * alignment

-- The pool in which the block is placed: grown if it is too small, from the start if the rest is.
pub place : ℕ → MemPool → MemPool
place aligned pool =
    if ltb pool.cap aligned
    then record { idx = 0; cap = aligned }
    else if ltb pool.cap (pool.idx + aligned)
    then record { idx = 0; cap = pool.cap }
    else pool

-- The position of the block and the pool after it; `none` is a remainder by 0.
pub get_block : ℕ → ℕ → MemPool → Option (ℕ × MemPool)
get_block bytes alignment pool =
    let aligned = aligned_size bytes alignment in
    let placed = place aligned pool in
    if placed.cap == 0
    then none
    else some (placed.idx, record { idx = (placed.idx + aligned) % placed.cap; cap = placed.cap })

pub free : MemPool → MemPool
free pool = create
