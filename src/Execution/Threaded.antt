-- ===== src/Execution/Threaded.antt =====
-- src/lib/sbio/execution/threaded.hh: `ThreadedDistribution::next_batch_impl`, `release_step` and
-- `end_iteration_impl`, an access to shared state at a time. The accesses are taken to be
-- sequentially consistent, and the logging calls are left out.
pub mod Counting
pub mod Invariant
pub mod Moves
pub mod Safety
mod Tests
use sbio.Prelude.{
  ℕ, ◌+◌, ◌-◌, ◌%◌, ◌^◌, ◌≤◌, ◌<◌, ◌≡◌, ◌≢◌, Bool, true, false, Option, none, some, List, [], ◌∷◌,
  ◌++◌, length, get_or, set, replicate, ltb, if◌then◌else◌,
}
use sbio.Steps.{exhausted_sentinel, StepBatch}

-- The shared members of `IterationState`, with the holder of `m_trigger_mutex`, the `max_capacity`
-- that the trigger raises, and the batches handed out so far.
pub record Shared : Type 0 where
  pub event_idx : ℕ
  pub shared_capacity : ℕ
  pub exhausted : Bool
  pub in_flight : ℕ
  pub mutex : Option ℕ
  pub max_capacity : ℕ
  pub handed : List StepBatch

-- Where a thread stands, with its locals: `max_count`, `current` and `current_cap`.
pub data Pc : Type 0 where
  outside : (holding : Bool) → Pc  -- not in a call; `m_holding_step`
  begun : (max_count : ℕ) → Pc  -- after `release_step`
  looping : (max_count current : ℕ) → Pc  -- head of the `while (true)`
  comparing : (max_count current : ℕ) → Pc  -- before the load of the capacity
  locking : (max_count current : ℕ) → Pc  -- before the mutex is locked
  locked : (max_count current : ℕ) → Pc  -- holds the mutex, before the second look at `m_exhausted`
  syncing : (max_count : ℕ) → Pc  -- before the capacity is brought up to date
  reloading : (max_count : ℕ) → Pc  -- before the load of the index under the mutex
  rechecking : (max_count current : ℕ) → Pc  -- before the load of the capacity under the mutex
  waiting : (max_count current : ℕ) → Pc  -- the `while` on `m_in_flight`
  triggering : (max_count current : ℕ) → Pc  -- before the call of `trigger`
  failed : Pc  -- `trigger` returned false, before the store of `m_exhausted`
  grown : (max_count current : ℕ) → Pc  -- `trigger` returned true, before the store of the capacity
  returning : Pc  -- holds the mutex, about to return the exhausted batch
  resuming : (max_count current current_cap : ℕ) → Pc  -- holds the mutex, about to leave its scope
  entering : (max_count current current_cap : ℕ) → Pc  -- before the `fetch_add` on `m_in_flight`
  claiming : (max_count current current_cap : ℕ) → Pc  -- head of the inner `while`
  refreshing : (max_count current : ℕ) → Pc  -- after a failed exchange
  leaving : (max_count current : ℕ) → Pc  -- before the `fetch_sub` of a thread that got no step

-- The steps asked for: a batch size of 0 counts as 1.
abbrev pub max_count_of : ℕ → ℕ
max_count_of batch_size = if ltb 0 batch_size then batch_size else 1

-- `fetch_sub(1)` on a size_t.
abbrev pub dec : ℕ → ℕ
dec n = (n + 2 ^ 64 - 1) % 2 ^ 64

-- What the inner loop claims of the steps that remain.
abbrev pub claim_count : ℕ → ℕ → ℕ → ℕ
claim_count max_count current cap =
    let remaining = cap - current in if ltb max_count remaining then max_count else remaining

-- One access of thread `i` to the shared state.
pub data Move (i : ℕ) (m : Shared) : Pc → Shared → Pc → Type 0 where
  -- `next_batch_impl` is called: `release_step` gives back the step that the thread holds.
  call_holding :
      (batch_size : ℕ)
      → Move i m
          (outside true)
          (record m { in_flight = dec m.in_flight })
          (begun (max_count_of batch_size))
  call_free : (batch_size : ℕ) → Move i m (outside false) m (begun (max_count_of batch_size))
  -- `end_iteration_impl`
  end_holding : Move i m (outside true) (record m { in_flight = dec m.in_flight }) (outside false)
  end_free : Move i m (outside false) m (outside false)
  load_index : {c : ℕ} → Move i m (begun c) m (looping c m.event_idx)
  see_exhausted : {c n : ℕ} → m.exhausted ≡ true → Move i m (looping c n) m (outside false)
  see_more : {c n : ℕ} → m.exhausted ≡ false → Move i m (looping c n) m (comparing c n)
  at_capacity : {c n : ℕ} → m.shared_capacity ≤ n → Move i m (comparing c n) m (locking c n)
  below_capacity :
      {c n : ℕ}
      → n < m.shared_capacity
      → Move i m (comparing c n) m (entering c n m.shared_capacity)
  lock :
      {c n : ℕ} → m.mutex ≡ none → Move i m (locking c n) (record m { mutex = some i }) (locked c n)
  locked_exhausted : {c n : ℕ} → m.exhausted ≡ true → Move i m (locked c n) m returning
  locked_more : {c n : ℕ} → m.exhausted ≡ false → Move i m (locked c n) m (syncing c)
  -- `max_capacity` is stored only if it differs, which makes no difference to the state.
  sync :
      {c : ℕ} → Move i m (syncing c) (record m { shared_capacity = m.max_capacity }) (reloading c)
  reload : {c : ℕ} → Move i m (reloading c) m (rechecking c m.event_idx)
  still_full : {c n : ℕ} → m.shared_capacity ≤ n → Move i m (rechecking c n) m (waiting c n)
  was_raised :
      {c n : ℕ}
      → n < m.shared_capacity
      → Move i m (rechecking c n) m (resuming c n m.shared_capacity)
  wait : {c n : ℕ} → m.in_flight ≢ 0 → Move i m (waiting c n) m (waiting c n)
  all_returned : {c n : ℕ} → m.in_flight ≡ 0 → Move i m (waiting c n) m (triggering c n)
  -- `trigger` may raise `max_capacity`, whatever it returns.
  trigger_false :
      {c n : ℕ} (cap : ℕ)
      → m.max_capacity ≤ cap
      → cap < exhausted_sentinel
      → Move i m (triggering c n) (record m { max_capacity = cap }) failed
  trigger_true :
      {c n : ℕ} (cap : ℕ)
      → m.max_capacity ≤ cap
      → cap < exhausted_sentinel
      → Move i m (triggering c n) (record m { max_capacity = cap }) (grown c n)
  store_exhausted : Move i m failed (record m { exhausted = true }) returning
  store_capacity :
      {c n : ℕ}
      → Move i m
          (grown c n)
          (record m { shared_capacity = m.max_capacity })
          (resuming c n m.max_capacity)
  unlock_return : Move i m returning (record m { mutex = none }) (outside false)
  unlock :
      {c n cap : ℕ} → Move i m (resuming c n cap) (record m { mutex = none }) (entering c n cap)
  enter :
      {c n cap : ℕ}
      → Move i m
          (entering c n cap)
          (record m { in_flight = (m.in_flight + 1) % 2 ^ 64 })
          (claiming c n cap)
  exchange :
      {c n cap : ℕ}
      → n < cap
      → m.event_idx ≡ n
      → Move i m
          (claiming c n cap)
          (record m {
            event_idx = (n + claim_count c n cap) % 2 ^ 64;
            handed =
                m.handed ++ record { first = n; last = (n + claim_count c n cap) % 2 ^ 64 } ∷ [];
          })
          (outside true)
  -- A weak exchange may fail although the index is the expected one.
  exchange_failed :
      {c n cap : ℕ} → n < cap → Move i m (claiming c n cap) m (refreshing c m.event_idx)
  refresh : {c n : ℕ} → Move i m (refreshing c n) m (claiming c n m.shared_capacity)
  nothing_left : {c n cap : ℕ} → cap ≤ n → Move i m (claiming c n cap) m (leaving c n)
  leave :
      {c n : ℕ} → Move i m (leaving c n) (record m { in_flight = dec m.in_flight }) (looping c n)

-- The threads that iterate over one DataSource, interleaved in any order.
pub record System : Type 0 where
  pub mem : Shared
  pub threads : List Pc

abbrev pub pc_of : List Pc → ℕ → Pc
pc_of ts i = get_or ts i (outside false)

pub data Step (s : System) : System → Type 0 where
  turn :
      (i : ℕ) {m : Shared} {p : Pc}
      → i < length s.threads
      → Move i s.mem (pc_of s.threads i) m p
      → Step s (record { mem = m; threads = set s.threads i p })

-- A fresh `IterationState`, for a number of threads and the capacity that the first indexing gave.
abbrev pub init : ℕ → ℕ → System
init n cap = record {
  mem = record {
    event_idx = 0;
    shared_capacity = 0;
    exhausted = false;
    in_flight = 0;
    mutex = none;
    max_capacity = cap;
    handed = [];
  };
  threads = replicate n (outside false);
}

pub data Reach (n cap : ℕ) : System → Type 0 where
  start : Reach n cap (init n cap)
  later : {s t : System} → Reach n cap s → Step s t → Reach n cap t
