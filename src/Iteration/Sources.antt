-- ===== src/Iteration/Sources.antt =====
-- `SourceSet`: several DataSources that are iterated together, under `SerialDistribution`.
pub mod Capacity
pub mod Available
pub mod Batches
mod Tests
use sbio.Prelude.{ℕ, Bool, true, false, ◌&&◌, ◌||◌, List, [], ◌∷◌, ltb, leb, ◌==◌, if◌then◌else◌}
use sbio.Steps.{StepBatch}
use sbio.Execution.Serial.{Source, Iteration, next_impl, next_batch_impl}

-- What the set needs of its DataSources, whose states are a `D`.
pub record DataSources (D : Type 0) : Type 0 where
  pub steps_capacity : D → ℕ
  pub reindex_trigger : D → Bool × D
  pub max_batch_size : D → ℕ

-- The iteration state is that of `Execution.Serial`.
pub record SourceSet (D : Type 0) : Type 0 where
  pub sources : List D
  pub capacity : ℕ

module _ {D : Type 0} (ds : DataSources D) where
  -- The smallest of a number and those of the sources.
  pub take_min : (D → ℕ) → ℕ → List D → ℕ
  take_min size m [] = m
  take_min size m (d ∷ rest) = take_min size (if ltb (size d) m then size d else m) rest

  -- A set has at least one source.
  pub min_of : (D → ℕ) → List D → ℕ
  min_of size [] = 0
  min_of size (d ∷ rest) = take_min size (size d) (d ∷ rest)

  pub min_capacity : List D → ℕ
  min_capacity sources = min_of ds.steps_capacity sources

  pub min_batch_size : List D → ℕ
  min_batch_size sources = min_of ds.max_batch_size sources

  pub create : List D → SourceSet D
  create sources = record { sources = sources; capacity = min_capacity sources }

  -- The sources that have reached the capacity are reindexed.
  pub reindex : ℕ → Bool → List D → Bool × List D
  reindex capacity more [] = (more, [])
  reindex capacity more (d ∷ rest) =
      let (d_more, d') = ds.reindex_trigger d in
      let (more_then, rest_then) = reindex capacity (d_more && more) rest in
      let (more_else, rest_else) = reindex capacity more rest in
      if leb (ds.steps_capacity d) capacity
      then (more_then, d' ∷ rest_then)
      else (more_else, d ∷ rest_else)

  pub reindex_trigger : SourceSet D → Bool × SourceSet D
  reindex_trigger set =
      let (more, sources) = reindex set.capacity true set.sources in
      (more, record { sources = sources; capacity = min_capacity sources })

  -- The set as the caller of the distribution.
  abbrev pub source : Source (SourceSet D)
  source = record { capacity = λ set. set.capacity; trigger = reindex_trigger }

  pub next : Iteration (SourceSet D) → ℕ × Iteration (SourceSet D)
  next st = next_impl source st

  pub clamp_batch_size : ℕ → List D → ℕ
  clamp_batch_size batch_size sources =
      if (batch_size == 0) || ltb (min_batch_size sources) batch_size
      then min_batch_size sources
      else batch_size

  pub next_batch : ℕ → Iteration (SourceSet D) → StepBatch × Iteration (SourceSet D)
  next_batch batch_size st = next_batch_impl source (clamp_batch_size batch_size st.env.sources) st
