-- ===== src/Execution/Serial.antt =====
-- src/lib/sbio/execution/serial.hh: the steps that `SerialDistribution` hands out.
pub mod Batches
mod Tests
use sbio.Prelude.{
  ℕ, zero, suc, ◌+◌, ◌%◌, ◌^◌, Bool, not, List, [], ◌∷◌, ◌++◌, ltb, leb, ◌==◌, if◌then◌else◌,
}
use sbio.Steps.{exhausted_sentinel, exhausted_batch, StepBatch}

-- The caller keeps `max_capacity`, which the trigger may raise, in a state `E` of its own.
pub record Source (E : Type 0) : Type 0 where
  pub capacity : E → ℕ
  pub trigger : E → Bool × E

-- `IterationState` with the state of the caller.
pub record Iteration (E : Type 0) : Type 0 where
  pub event_idx : ℕ
  pub env : E

module _ {E : Type 0} (src : Source E) where
  -- `return state.m_event_idx++;`
  unfoldable pub hand_out : Iteration E → ℕ × Iteration E
  hand_out st = (st.event_idx, record st { event_idx = (st.event_idx + 1) % 2 ^ 64 })

  unfoldable pub next_impl : Iteration E → ℕ × Iteration E
  unfolding hand_out
  next_impl st =
      if leb (src.capacity st.env) st.event_idx
      then (let (more, env) = src.trigger st.env in
          if not more
          then (exhausted_sentinel, record st { env = env })
          else if leb (src.capacity env) st.event_idx
          then (exhausted_sentinel, record st { env = env })
          else hand_out (record st { env = env }))
      else hand_out st

  -- The end of the batch that starts at `first`: `first + batch_size` wraps.
  unfoldable pub batch_end : ℕ → ℕ → Iteration E → ℕ
  batch_end batch_size first st =
      let want = (first + (if ltb 0 batch_size then batch_size else 1)) % 2 ^ 64 in
      if ltb want (src.capacity st.env) then want else src.capacity st.env

  unfoldable pub next_batch_impl : ℕ → Iteration E → StepBatch × Iteration E
  unfolding next_impl batch_end
  next_batch_impl batch_size st =
      let (first, st') = next_impl st in
      if first == exhausted_sentinel
      then (exhausted_batch, st')
      else (let last = batch_end batch_size first st' in
          (record { first = first; last = last }, record st' { event_idx = last }))

  -- The results of a number of calls of `next`.
  pub next_times : ℕ → Iteration E → List ℕ × Iteration E
  next_times zero st = ([], st)
  next_times (suc n) st =
      let (step, st') = next_impl st in let (rest, st'') = next_times n st' in (step ∷ rest, st'')
