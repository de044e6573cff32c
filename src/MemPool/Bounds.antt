-- ===== src/MemPool/Bounds.antt =====
-- The blocks lie within the pool.
use sbio.Prelude.{ℕ, ◌+◌, ◌-◌, ◌%◌, ◌≤◌, ◌<◌, ◌≡◌, ◌⊎◌, inr, some, arith}
use native.Mathlib.Nat.{lt-div-mul-add, mod-lt}
use sbio.MemPool.{MemPool, aligned_size, place, get_block}

-- The next block starts within the pool, unless there is no pool yet.
abbrev pub IsWithin : MemPool → Type 0
IsWithin pool = (pool.idx ≡ 0) ⊎ (pool.idx < pool.cap)

aligned_size_lem : (bytes alignment : ℕ) → 0 < alignment → bytes ≤ aligned_size bytes alignment
unfolding aligned_size
aligned_size_lem bytes alignment h =
    omega (arith, lt-div-mul-add {a = bytes + (alignment - 1)} {b = alignment} h)

place_lem :
    (aligned : ℕ) (pool : MemPool)
    → 0 < aligned
    → ((place aligned pool).idx + aligned ≤ (place aligned pool).cap)
      × (pool.cap ≤ (place aligned pool).cap)
      × (pool.idx + aligned ≤ pool.cap → (place aligned pool).idx ≡ pool.idx)
unfolding place
place_lem aligned pool h = (ground arith, ground arith, λ f. ground arith)

-- A block of at least one byte is handed out: it has room for the bytes, ends within the pool, and
-- starts at the next position if it fits there; the pool does not shrink and stays well formed.
pub get_block_lem :
    (bytes alignment : ℕ) (pool : MemPool)
    → 0 < bytes
    → 0 < alignment
    → IsWithin pool
    → (start : ℕ) × (after : MemPool) × (get_block bytes alignment pool ≡ some (start, after))
      × (start + aligned_size bytes alignment ≤ after.cap)
      × (bytes ≤ aligned_size bytes alignment)
      × (pool.cap ≤ after.cap)
      × (pool.idx + aligned_size bytes alignment ≤ pool.cap → start ≡ pool.idx)
      × IsWithin after
unfolding get_block
get_block_lem bytes alignment pool b h w =
    let aligned = aligned_size bytes alignment in
    let big = aligned_size_lem bytes alignment h in
    let placed = place aligned pool in
    let (fits, grows, stays) = place_lem aligned pool (omega (arith, big)) in
    (
      placed.idx,
      record { idx = (placed.idx + aligned) % placed.cap; cap = placed.cap },
      ground (arith, big, fits),
      fits,
      big,
      grows,
      stays,
      inr (mod-lt (placed.idx + aligned) (omega (arith, big, fits))),
    )
