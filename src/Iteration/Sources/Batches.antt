-- ===== src/Iteration/Sources/Batches.antt =====
-- The batches that a set hands out.
use sbio.Prelude.{ℕ, ◌+◌, ◌^◌, ◌<◌}
use sbio.Execution.Serial.{Source, Iteration, next_impl, batch_end}
use sbio.Iteration.Sources.{DataSources}

-- The batches of a source are not empty, and its capacity and a batch together are a size_t.
pub record HasBatches {D : Type 0} (ds : DataSources D) : Type 0 where
  pub nonempty : (d : D) → 0 < ds.max_batch_size d
  pub fits : (d e : D) → ds.steps_capacity d + ds.max_batch_size e < 2 ^ 64

module _ {E : Type 0} (src : Source E) (k : ℕ) (st : Iteration E) where
  abbrev end : ℕ
  end = batch_end src k (next_impl src st).0 (next_impl src st).1
