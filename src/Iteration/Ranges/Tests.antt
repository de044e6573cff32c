-- ===== src/Iteration/Ranges/Tests.antt =====
-- Two groups over the steps 3 and 4, and over a batch of both, of a DataSource whose steps are all indexed.
use sbio.Prelude.{
  ℕ, ◌+◌, ◌-◌, ltb, if◌then◌else◌, ◌≡◌, refl, Bool, false, Option, some, List, [], ◌∷◌, map, arith,
  Each,
}
use sbio.Io.{IoStatus}
use sbio.Steps.{StepBatch, Tiles}
use sbio.Execution.Serial.{Source, Iteration, next_impl, next_batch_impl}
use sbio.Execution.Serial.Batches.{IsGrowing}
use sbio.Iteration.Tests.{
  Buffers, Holds, put, brokers, brokers-IsBuffered, subdivided, groups, groups-IsGroup, empty,
}
use sbio.Topology.{
  create, add_brokers, contains, active_segment, active_stream_broker, active_broker,
  first_of_broker, remap_step_idx,
}
use sbio.Topology.Mapping.{map_step}
use sbio.Iteration.Plan.{
  plan_fetches, plan_groups, plan_group, plan_broker, scan_fetches, shares, fetch_one,
  fetch_range_one, fetch, fetch_batch, check_shared_buffer, fetch_range,
}
use sbio.Execution.Fetching.{
  fetch_units, access_units, access_steps, fetch_then_get, fetch_then_get_steps,
}
use sbio.BrokerGroup.{
  shares_fetch, shares_buffer, fetch_next_for, fetch_steps_for, fetch_range_for, is_aligned,
}
use sbio.Iteration.Ranges.{Handle, zip}
use sbio.Iteration.Ranges.Visited.{visit}
use sbio.Iteration.Ranges.Steps.{is_exhausted, IsFetched, zip_steps_lem}
use sbio.Iteration.Ranges.Batches.{is_exhausted_batch, IsBatchFetched, zip_batches_lem}

abbrev source : Source Bool
source = record { capacity = λ e. 5; trigger = λ e. (false, e) }

source-IsGrowing : IsGrowing source
source-IsGrowing = record { small = λ e. omega arith; grows = λ e. omega arith }

abbrev at_three : Iteration Bool
at_three = record { event_idx = 3; env = false }

abbrev fetch_step : ℕ → Buffers → Option (IoStatus × Buffers)
fetch_step step s = fetch subdivided brokers groups (plan_fetches groups) step s

fetch_step-total :
    (step : ℕ) (x : Buffers) → (r : IoStatus × Buffers) × (fetch_step step x ≡ some r)
unfolding create add_brokers contains active_segment active_stream_broker active_broker
    first_of_broker remap_step_idx map_step is_aligned plan_fetches plan_groups plan_group
    plan_broker scan_fetches shares shares_fetch shares_buffer fetch_one fetch fetch_next_for
    check_shared_buffer fetch_range fetch_range_for fetch_then_get fetch_units access_units
fetch_step-total step x =
    ((IoStatus.success, put 1 0 (step, step + 1) (put 0 0 (step, step + 1) x)), refl)

zip_steps_lem_example :
    (visits : List (Handle ℕ × Buffers)) × (zip
        (next_impl source)
        is_exhausted
        fetch_step
        3
        at_three
        empty
      ≡ some visits)
    × (visit (next_impl source) is_exhausted fetch_step (3 ∷ 4 ∷ []) empty ≡ some visits)
    × (map (λ x. x.0.value) visits ≡ 3 ∷ 4 ∷ [])
    × Each
        (λ x.
          x.0.status ≡ IoStatus.success
          → IsFetched source subdivided brokers Holds groups 0 x.0.value x.1)
        visits
zip_steps_lem_example =
    zip_steps_lem source subdivided brokers Holds groups 0 2 at_three empty source-IsGrowing refl
      refl refl brokers-IsBuffered groups-IsGroup fetch_step-total

abbrev fetch_at_once : StepBatch → Buffers → Option (IoStatus × Buffers)
fetch_at_once batch s = fetch_batch subdivided brokers groups (plan_fetches groups) batch s

fetch_at_once-total :
    (batch : StepBatch) (x : Buffers) → (r : IoStatus × Buffers) × (fetch_at_once batch x ≡ some r)
unfolding create add_brokers contains active_segment active_stream_broker active_broker
    first_of_broker remap_step_idx map_step is_aligned plan_fetches plan_groups plan_group
    plan_broker scan_fetches shares shares_fetch shares_buffer fetch_range_one fetch_batch
    fetch_steps_for check_shared_buffer fetch_range fetch_range_for fetch_then_get_steps fetch_units
fetch_at_once-total batch x = (
  (
    IoStatus.success,
    access_steps (λ i c y. y) 0 (if ltb batch.first batch.last then batch.last - batch.first else 1)
        0 (put 1 0 (batch.first, batch.last) (put 0 0 (batch.first, batch.last) x)),
  ),
  refl,
)

zip_batches_lem_example :
    (visits : List (Handle StepBatch × Buffers)) × (zip
        (next_batch_impl source 3)
        is_exhausted_batch
        fetch_at_once
        3
        at_three
        empty
      ≡ some visits)
    × Tiles 3 (map (λ x. x.0.value) visits) 5
    × Each
        (λ x.
          x.0.status ≡ IoStatus.success
          → IsBatchFetched source subdivided brokers Holds groups 0 x.0.value x.1)
        visits
zip_batches_lem_example =
    zip_batches_lem source subdivided brokers Holds groups 0 3 2 at_three empty source-IsGrowing
      (omega arith) (omega arith) (omega arith) refl refl brokers-IsBuffered groups-IsGroup
      fetch_at_once-total
