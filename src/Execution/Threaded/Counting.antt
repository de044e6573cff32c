-- ===== src/Execution/Threaded/Counting.antt =====
-- Sums over the threads, and the thread that a step moves.
use sbio.Prelude.{
  ℕ, zero, suc, ◌+◌, ◌≤◌, ◌<◌, ◌≡◌, refl, true, false, List, [], ◌∷◌, length, set, replicate, arith,
}
use sbio.Execution.Threaded.{Pc, outside, pc_of, claiming, refreshing, leaving}

-- A thread that counts in `m_in_flight`: it holds a step, or it may be about to get one.
abbrev pub weight : Pc → ℕ
weight (outside true) = 1
weight (claiming c n cap) = 1
weight (refreshing c n) = 1
weight (leaving c n) = 1
weight p = 0

abbrev pub total : List Pc → ℕ
total [] = 0
total (p ∷ ts) = weight p + total ts

pub total-set :
    (ts : List Pc) (i : ℕ) (p : Pc)
    → i < length ts
    → total (set ts i p) + weight (pc_of ts i) ≡ total ts + weight p
total-set [] i p h = absurd (omega arith)
total-set (q ∷ ts) zero p h = omega arith
total-set (q ∷ ts) (suc i) p h = omega (arith, total-set ts i p (omega arith))

pub weight-le : (p : Pc) → weight p ≤ 1
weight-le p = ground arith

pub total-le : (ts : List Pc) → total ts ≤ length ts
total-le [] = omega arith
total-le (p ∷ ts) = omega (arith, weight-le p, total-le ts)

pub weight-le-total : (ts : List Pc) (i : ℕ) → weight (pc_of ts i) ≤ total ts
weight-le-total [] i = omega arith
weight-le-total (p ∷ ts) zero = omega arith
weight-le-total (p ∷ ts) (suc i) = omega (arith, weight-le-total ts i)

pub total-replicate : (n : ℕ) → total (replicate n (outside false)) ≡ 0
total-replicate zero = refl
total-replicate (suc n) = omega (arith, total-replicate n)
