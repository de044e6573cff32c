-- ===== src/BrokerGroup/Results/Tests.antt =====
-- A group of two StreamBrokers whose buffers hold the numbers of their steps.
use sbio.Prelude.{
  ℕ, zero, suc, ◌+◌, ◌*◌, ◌<◌, ◌≡◌, refl, true, false, none, some, [], ◌∷◌, get_elem?, arith,
}
use sbio.Io.{IoStatus}
use sbio.Topology.{
  SegmentRef, StepMapping, GroupTopology, active_segment, active_stream_broker, active_broker,
  first_of_broker, remap_step_idx,
}
use sbio.Topology.Mapping.{Format, StreamBrokers, map_step}
use sbio.BrokerGroup.{batch_slot, chrono_batch, is_aligned, fetch_next_for, fetch_steps_for}
use sbio.BrokerGroup.Results.{
  DataResult, Accessed, resolve_multi_data, access_of, with_table, get_multi_data,
}
use sbio.BrokerGroup.Results.Table.{IsSlotted, resolve_multi_data_lem}
use sbio.BrokerGroup.Results.Access.{get_multi_data_lem}
use sbio.BrokerGroup.Results.Single.{get_data_access, get_data}
use sbio.Execution.Fetching.{
  access_steps, access_units, fetch_units, fetch_then_get, fetch_then_get_steps,
}

abbrev segment : ℕ → ℕ → SegmentRef
segment b slot = record { broker = b; format_segment_id = b; logical_slot = slot; access_ptn = 0 }

abbrev pair : GroupTopology
pair = record {
  stream_brokers = 0 ∷ 1 ∷ [];
  broker_access_ptns = 0 ∷ 0 ∷ [];
  segments = segment 0 1 ∷ segment 1 0 ∷ [];
  step_mapping = StepMapping.per_kind;
  align_ptn = 0;
  num_logical_segments = 2;
  chronology = none;
}

abbrev fmt : Format
fmt = record {
  chronological = false;
  uses_generic_index = true;
  distributed = λ ptn. false;
  kind_for_ptn = λ ptn. ptn;
}

abbrev brokers : StreamBrokers ℕ
brokers = record {
  preceding = λ b kind ref_kind k. (IoStatus.no_offset_in_data, 0);
  fetch_step = λ b o p s. (IoStatus.success, o);
  fetch_steps = λ b first last step p s. (IoStatus.success, first);
}

abbrev result : ℕ → DataResult
result p = record { ptr = p; size = 8; rank = 1; shape = λ j. 4; dtype = 0 }

-- The buffers of both begin with the step that is the state.
abbrev get_data_for : ℕ → ℕ → ℕ → DataResult
get_data_for s i batch_idx = result (100 * (i + 1) + s + batch_idx)

abbrev empty : Accessed
empty = record { ptr_tbl = λ i. 0; ref_res = result 0 }

pair-IsSlotted : IsSlotted pair
pair-IsSlotted = record { in_range = in_range; apart = apart }
  where
    in_range :
        (i : ℕ) (seg : SegmentRef) → get_elem? pair.segments i ≡ some seg → seg.logical_slot < 2
    in_range zero seg q = ground arith
    in_range (suc zero) seg q = ground arith
    in_range (suc (suc i)) seg q = cc

    apart :
        (i j : ℕ) (seg other : SegmentRef)
        → get_elem? pair.segments i ≡ some seg
        → get_elem? pair.segments j ≡ some other
        → seg.logical_slot ≡ other.logical_slot
        → i ≡ j
    apart zero zero seg other q r e = refl
    apart zero (suc zero) seg other q r e = absurd (ground arith)
    apart (suc zero) zero seg other q r e = absurd (ground arith)
    apart (suc zero) (suc zero) seg other q r e = refl
    apart i (suc (suc j)) seg other q r e = cc
    apart (suc (suc i)) j seg other q r e = cc

resolve_multi_data_lem_example :
    ((resolve_multi_data fmt brokers get_data_for pair 3 3 6 empty).ptr_tbl (2 * 2 + 0)
      ≡ (get_data_for 3 1 (batch_slot fmt brokers pair (segment 1 0) 3 2)).ptr)
    × (2 * 2 + 0 < 3 * 2)
resolve_multi_data_lem_example =
    resolve_multi_data_lem fmt brokers get_data_for pair pair-IsSlotted 3 3 6 2 1 (segment 1 0)
      empty refl (omega arith) (omega arith) refl (omega arith)

-- What the accesses of the steps 3 to 5 leave, after the fetches.
abbrev got : Accessed
got =
    (access_steps
      (access_of fmt brokers get_data_for pair (chrono_batch fmt.distributed pair 3 6) 3) 2 3 0
      (3, empty)).1

pair-get_multi_data :
    get_multi_data fmt brokers get_data_for pair 3 6 (0, empty) ≡ some (IoStatus.success, (3, got))
unfolding get_multi_data fetch_then_get_steps fetch_units with_table fetch_steps_for active_segment
    active_stream_broker active_broker first_of_broker is_aligned access_steps access_units
    access_of
pair-get_multi_data = refl

get_multi_data_lem_example : got ≡ resolve_multi_data fmt brokers get_data_for pair 3 3 6 empty
get_multi_data_lem_example =
    get_multi_data_lem fmt brokers get_data_for pair 3 6 0 3 empty got (omega arith)
      pair-get_multi_data

-- What the accesses of step 5 leave, after the fetch.
abbrev got_one : Accessed
got_one = (access_units (get_data_access fmt brokers get_data_for pair 5) 2 0 (5, empty)).1

pair-get_data :
    get_data fmt brokers get_data_for pair 5 (0, empty) ≡ some (IoStatus.success, (5, got_one))
unfolding get_data fetch_then_get fetch_units with_table fetch_next_for active_segment
    active_stream_broker active_broker first_of_broker access_units get_data_access map_step
    remap_step_idx
pair-get_data = refl
