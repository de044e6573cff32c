-- ===== src/BrokerGroup/Tests.antt =====
-- Two StreamBrokers that hold the steps in turn, and one whose steps are every other one.
use sbio.Prelude.{
  ℕ, ◌+◌, ◌/◌, ◌<◌, ◌≡◌, refl, sym, ◌∙◌, Each, Each-cons, Each-nil, true, false, none, some, [],
  ◌∷◌, get_elem?, arith, ltb, if◌then◌else◌,
}
use sbio.Io.{IoStatus}
use sbio.Topology.{
  SegmentRef, StepMapping, GroupTopology, locate, active_segment, active_stream_broker,
  active_broker, first_of_broker, find_segment, segment_index_for, remap_step_idx,
}
use sbio.Topology.Mapping.{Format, StreamBrokers, IsOrdered, map_step}
use sbio.BrokerGroup.{
  ChronoBatch, empty_batch, note_step, chrono_steps, chrono_batch, chrono_ordinals, chrono_slot,
  first_segment_of, batch_slot, fetch_range_for, map_batch, last_step, is_aligned,
}
use sbio.BrokerGroup.Order.{dealt-StepsRise}
use sbio.BrokerGroup.Slots.{IsUniform, chrono_slot_lem, batch_slot_lem}

abbrev segment : ℕ → SegmentRef
segment b = record { broker = b; format_segment_id = b; logical_slot = b; access_ptn = 0 }

abbrev pair : GroupTopology
pair = record {
  stream_brokers = 0 ∷ 1 ∷ [];
  broker_access_ptns = 0 ∷ 0 ∷ [];
  segments = segment 0 ∷ segment 1 ∷ [];
  step_mapping = StepMapping.per_kind;
  align_ptn = 0;
  num_logical_segments = 2;
  chronology = none;
}

abbrev chronological : Format
chronological = record {
  chronological = true;
  uses_generic_index = true;
  distributed = λ ptn. true;
  kind_for_ptn = λ ptn. ptn;
}

-- Ten steps, with one of the other kind before every second one.
abbrev brokers : StreamBrokers Unit
brokers = record {
  preceding = λ b kind ref_kind k.
      if ltb k 10 then (IoStatus.success, k / 2) else (IoStatus.all_requested_read, 0);
  fetch_step = λ b o p s. (IoStatus.success, s);
  fetch_steps = λ b first last step p s. (IoStatus.success, s);
}

brokers-IsOrdered : IsOrdered brokers
brokers-IsOrdered = record {
  rises = λ b kind ref_kind k l o p h e f. ground arith;
  small = λ b kind ref_kind k o e. ground arith;
}

one_pattern : Each (λ s. s.access_ptn ≡ 0) pair.segments
one_pattern =
    Each-cons (λ s. s.access_ptn ≡ 0) (segment 0) (segment 1 ∷ []) refl
      (Each-cons (λ s. s.access_ptn ≡ 0) (segment 1) [] refl (Each-nil (λ s. s.access_ptn ≡ 0)))

pair-IsUniform : IsUniform pair
pair-IsUniform i j s u e f g = one_pattern i s e ∙ sym (one_pattern j u f)

-- The steps 3 to 7: StreamBroker 1 has its ordinals 1 to 3 of these.
abbrev batch : ChronoBatch
batch = note_step (note_step (note_step (note_step (note_step empty_batch 1 1) 0 2) 1 2) 0 3) 1 3

chrono_slot_lem_example :
    (seg : SegmentRef) × (get_elem? pair.segments 1 ≡ some seg)
    × (seg.logical_slot ≡ 1)
    × (map_step chronological brokers pair seg 2 ≡ (IoStatus.success, 1 + 1))
    × (1 + 1 < 4)
unfolding chrono_batch chrono_steps chrono_ordinals chrono_slot first_segment_of note_step locate
    map_step first_of_broker segment_index_for find_segment
chrono_slot_lem_example =
    chrono_slot_lem chronological brokers pair 3 8 5 1 1 2 1 4 1 1 batch brokers-IsOrdered
      (dealt-StepsRise (λ ptn. true) pair refl) (omega arith) pair-IsUniform (omega arith)
      (omega arith) refl refl refl refl

-- A group whose steps are those of the pattern 1, and whose segment has the pattern 0.
abbrev aligned : GroupTopology
aligned = record {
  stream_brokers = 0 ∷ [];
  broker_access_ptns = 0 ∷ [];
  segments = segment 0 ∷ [];
  step_mapping = StepMapping.align_to;
  align_ptn = 1;
  num_logical_segments = 1;
  chronology = none;
}

abbrev subdivided : Format
subdivided = record {
  chronological = false;
  uses_generic_index = true;
  distributed = λ ptn. false;
  kind_for_ptn = λ ptn. ptn;
}

batch_slot_lem_example : (1 + batch_slot subdivided brokers aligned (segment 0) 3 2 ≡ 2) × (2 < 4)
unfolding active_segment active_stream_broker active_broker first_of_broker fetch_range_for
    map_batch is_aligned last_step map_step remap_step_idx
batch_slot_lem_example =
    batch_slot_lem subdivided brokers aligned 3 8 2 0 2 1 4 (segment 0) brokers-IsOrdered refl
      (omega arith) (omega arith) refl refl refl
