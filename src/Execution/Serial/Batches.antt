-- ===== src/Execution/Serial/Batches.antt =====
-- What one call of `SerialDistribution` hands out, and how batches agree with single steps.
use sbio.Prelude.{ℕ, zero, suc, ◌+◌, ◌-◌, ◌≤◌, ◌<◌, ◌≡◌, ◌≢◌, ◌⊎◌, false, arith, if◌then◌else◌, ltb}
use sbio.Steps.{exhausted_sentinel, exhausted_batch, steps_from}
use sbio.Execution.Serial.{
  Source, Iteration, hand_out, next_impl, batch_end, next_batch_impl, next_times,
}

-- Capacities are size_t values below the sentinel, and the trigger never lowers one.
pub record IsGrowing {E : Type 0} (src : Source E) : Type 0 where
  pub small : (e : E) → src.capacity e < exhausted_sentinel
  pub grows : (e : E) → src.capacity e ≤ src.capacity (src.trigger e).1

-- The steps from `first` to `last` were handed out: they stood next, and lie within the capacity.
pub record Handed {E : Type 0} (src : Source E) (st st' : Iteration E) (first last : ℕ)
    : Type 0 where
  pub starts : first ≡ st.event_idx
  pub nonempty : first < last
  pub moves : st'.event_idx ≡ last
  pub within : last ≤ src.capacity st'.env

-- Nothing was handed out: the capacity was used up, and the trigger did not raise it.
pub record Drained {E : Type 0} (src : Source E) (st st' : Iteration E) : Type 0 where
  pub kept : st'.event_idx ≡ st.event_idx
  pub full : st.event_idx ≡ src.capacity st.env
  pub asked : st'.env ≡ (src.trigger st.env).1
  pub no_more :
      ((src.trigger st.env).0 ≡ false) ⊎ (src.capacity (src.trigger st.env).1 ≡ src.capacity st.env)

module _ {E : Type 0} (src : Source E) (g : IsGrowing src) (st : Iteration E) where
  -- From an index within the capacity, `next` either hands out that index, or returns the sentinel
  -- after the trigger has run and has not raised the capacity.
  pub next_impl_lem :
      st.event_idx ≤ src.capacity st.env
      → let (step, st') = next_impl src st in
        Handed src st st' step (step + 1) ⊎ ((step ≡ exhausted_sentinel) × Drained src st st')
  unfolding next_impl hand_out
  next_impl_lem h = ground (arith, g.small st.env, g.small (src.trigger st.env).1, g.grows st.env)

  -- Within the capacity `next` does not ask for more.
  pub next_impl_ready :
      st.event_idx < src.capacity st.env
      → next_impl src st ≡ (st.event_idx, record st { event_idx = st.event_idx + 1 })
  unfolding next_impl hand_out
  next_impl_ready h = ground (arith, g.small st.env)

  -- A batch that is handed out starts at the index, is not empty, ends within the capacity, and has
  -- the size asked for (1 for a size of 0) unless the capacity cuts it short. Otherwise the exhausted
  -- batch is returned, as by `next`. The index and the size together stay below the sentinel.
  pub next_batch_impl_lem :
      (batch_size : ℕ)
      → st.event_idx ≤ src.capacity st.env
      → st.event_idx + batch_size < exhausted_sentinel
      → let (b, st') = next_batch_impl src batch_size st in
        (Handed src st st' b.first b.last
          × ((b.last ≡ b.first + (if ltb 0 batch_size then batch_size else 1))
              ⊎ ((b.last ≡ src.capacity st'.env) × (b.last < b.first + batch_size))))
        ⊎ ((b ≡ exhausted_batch) × Drained src st st')
  unfolding next_batch_impl batch_end
  next_batch_impl_lem k h w = ground (arith, next_impl_lem h, g.small (next_impl src st).1.env)

next_times_lem :
    {E : Type 0} (src : Source E) (g : IsGrowing src) (n : ℕ) (st : Iteration E)
    → st.event_idx + n ≤ src.capacity st.env
    → next_times src n st ≡ (steps_from st.event_idx n, record st { event_idx = st.event_idx + n })
unfolding next_times
next_times_lem src g zero st h = ground arith
next_times_lem src g (suc n) st h = ground (
  arith,
  next_impl_ready src g st (omega arith),
  next_times_lem src g n (record st { event_idx = st.event_idx + 1 }) (omega arith),
)

module _ {E : Type 0} (src : Source E) (g : IsGrowing src) (k : ℕ) (st : Iteration E)
    (within : st.event_idx ≤ src.capacity st.env)
    (fits : st.event_idx + k < exhausted_sentinel) where
  next_batch_impl-env :
      (next_batch_impl src k st).0.first ≢ exhausted_sentinel
      → (next_batch_impl src k st).1
        ≡ record (next_impl src st).1 { event_idx = (next_batch_impl src k st).0.last }
  unfolding next_batch_impl
  next_batch_impl-env h = ground arith

  next_impl_first :
      (next_batch_impl src k st).0.first ≢ exhausted_sentinel
      → ((next_impl src st).0 ≡ st.event_idx) × ((next_impl src st).1.event_idx ≡ st.event_idx + 1)
  unfolding next_batch_impl
  next_impl_first h = ground (arith, next_impl_lem src g st within)

  next_times-suc :
      (n : ℕ)
      → (next_batch_impl src k st).0.first ≢ exhausted_sentinel
      → (next_batch_impl src k st).0.last ≡ st.event_idx + 1 + n
      → st.event_idx + 1 + n ≤ src.capacity (next_impl src st).1.env
      → next_times src (suc n) st ≡ (steps_from st.event_idx (suc n), (next_batch_impl src k st).1)
  unfolding next_times
  next_times-suc n h e c =
      ground (
        arith,
        next_impl_first h,
        next_times_lem src g n (next_impl src st).1,
        next_batch_impl-env h,
      )

  -- A batch that is handed out has the steps that as many calls of `next` hand out, and leaves the
  -- same state.
  pub next_times-next_batch_impl :
      (next_batch_impl src k st).0.first ≢ exhausted_sentinel
      → let (b, st') = next_batch_impl src k st in
        next_times src (b.last - b.first) st ≡ (steps_from b.first (b.last - b.first), st')
  next_times-next_batch_impl h = ground (
    arith,
    next_times-suc ((next_batch_impl src k st).0.last - (st.event_idx + 1)) h,
    next_batch_impl_lem src g st k within fits,
    next_batch_impl-env h,
  )
