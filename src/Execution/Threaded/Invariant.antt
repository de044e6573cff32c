-- ===== src/Execution/Threaded/Invariant.antt =====
-- What holds between the shared state and the threads of a `ThreadedDistribution`.
use sbio.Prelude.{ℕ, ◌≤◌, ◌<◌, ◌^◌, ◌≡◌, ◌≢◌, Bool, true, false, some, none, List, length}
use sbio.Steps.{exhausted_sentinel, Tiles}
use sbio.Execution.Threaded.{
  Shared, Pc, outside, begun, looping, comparing, locking, locked, syncing, reloading, rechecking,
  waiting, triggering, failed, grown, returning, resuming, entering, claiming, refreshing, leaving,
  Move, pc_of,
}
use sbio.Execution.Threaded.Counting.{total}

-- A thread that holds `m_trigger_mutex`.
abbrev pub owns : Pc → Bool
owns (locked c n) = true
owns (syncing c) = true
owns (reloading c) = true
owns (rechecking c n) = true
owns (waiting c n) = true
owns (triggering c n) = true
owns failed = true
owns (grown c n) = true
owns returning = true
owns (resuming c n cap) = true
owns p = false

-- A thread that calls `trigger`, or has called it and not yet published the result.
abbrev pub triggers : Pc → Bool
triggers (triggering c n) = true
triggers failed = true
triggers (grown c n) = true
triggers p = false

-- What the locals of a thread say about the shared state.
abbrev pub Fits : Shared → Pc → Type 0
Fits m (begun c) = 0 < c
Fits m (looping c n) = 0 < c
Fits m (comparing c n) = 0 < c
Fits m (locking c n) = 0 < c
Fits m (locked c n) = 0 < c
Fits m (syncing c) = (0 < c) × (m.exhausted ≡ false)
Fits m (reloading c) = (0 < c) × (m.exhausted ≡ false)
Fits m (rechecking c n) = (0 < c) × (m.exhausted ≡ false) × (n ≤ m.event_idx)
Fits m (waiting c n) = (0 < c) × (m.exhausted ≡ false) × (m.shared_capacity ≤ m.event_idx)
Fits m (triggering c n) = (0 < c) × (m.exhausted ≡ false) × (m.shared_capacity ≤ m.event_idx)
Fits m failed = m.shared_capacity ≤ m.event_idx
Fits m (grown c n) = (0 < c) × (m.exhausted ≡ false) × (m.shared_capacity ≤ m.event_idx)
Fits m (resuming c n cap) = (0 < c) × (cap ≤ m.shared_capacity)
Fits m (entering c n cap) = (0 < c) × (cap ≤ m.shared_capacity)
Fits m (claiming c n cap) = (0 < c) × (cap ≤ m.shared_capacity)
Fits m (refreshing c n) = 0 < c
Fits m (leaving c n) = 0 < c
Fits m p = Unit

pub record Inv (m : Shared) (ts : List Pc) : Type 0 where
  pub few : length ts < 2 ^ 64
  pub capped : m.shared_capacity ≤ m.max_capacity
  pub small : m.max_capacity < exhausted_sentinel
  pub within : m.event_idx ≤ m.shared_capacity
  pub drained : m.exhausted ≡ true → m.shared_capacity ≤ m.event_idx
  pub counted : m.in_flight ≡ total ts
  pub tiled : Tiles 0 m.handed m.event_idx
  pub held : (i : ℕ) → owns (pc_of ts i) ≡ true → m.mutex ≡ some i
  pub fits : (i : ℕ) → Fits m (pc_of ts i)
  pub quiet : (i j : ℕ) → triggers (pc_of ts i) ≡ true → pc_of ts j ≢ outside true

-- The premise of a move, for a clause that cannot name it.
abbrev pub Guard : {i : ℕ} {m m' : Shared} {p p' : Pc} → Move i m p m' p' → Type 0
Guard {m} (Move.see_exhausted _) = m.exhausted ≡ true
Guard {m} (Move.see_more _) = m.exhausted ≡ false
Guard {m} (Move.at_capacity {n} _) = m.shared_capacity ≤ n
Guard {m} (Move.below_capacity {n} _) = n < m.shared_capacity
Guard {m} (Move.lock _) = m.mutex ≡ none
Guard {m} (Move.locked_exhausted _) = m.exhausted ≡ true
Guard {m} (Move.locked_more _) = m.exhausted ≡ false
Guard {m} (Move.still_full {n} _) = m.shared_capacity ≤ n
Guard {m} (Move.was_raised {n} _) = n < m.shared_capacity
Guard {m} (Move.all_returned _) = m.in_flight ≡ 0
Guard {m} (Move.trigger_false cap _ _) = (m.max_capacity ≤ cap) × (cap < exhausted_sentinel)
Guard {m} (Move.trigger_true cap _ _) = (m.max_capacity ≤ cap) × (cap < exhausted_sentinel)
Guard {m} (Move.exchange {n} {cap} _ _) = (n < cap) × (m.event_idx ≡ n)
Guard _ = Unit

pub guard : {i : ℕ} {m m' : Shared} {p p' : Pc} (mv : Move i m p m' p') → Guard mv
guard (Move.see_exhausted e) = e
guard (Move.see_more e) = e
guard (Move.at_capacity h) = h
guard (Move.below_capacity h) = h
guard (Move.lock e) = e
guard (Move.locked_exhausted e) = e
guard (Move.locked_more e) = e
guard (Move.still_full h) = h
guard (Move.was_raised h) = h
guard (Move.all_returned e) = e
guard (Move.trigger_false cap h k) = (h, k)
guard (Move.trigger_true cap h k) = (h, k)
guard (Move.exchange h e) = (h, e)
guard _ = tt
