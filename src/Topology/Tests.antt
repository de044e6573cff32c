-- ===== src/Topology/Tests.antt =====
-- A group of two StreamBrokers with one segment each.
use sbio.Prelude.{
  ℕ, ◌-◌, ◌/◌, ◌%◌, ◌==◌, if◌then◌else◌, ◌≤◌, ◌<◌, ◌≡◌, ◌≢◌, ◌⊎◌, refl, true, false, Option, none,
  some, List, [], ◌∷◌, get_elem?, arith,
}
use sbio.Chronology.{Location}
use sbio.Metadata.Keys.{GroupEntry}
use sbio.Metadata.Names.{eq_str}
use sbio.Metadata.Inventory.Access.{entry_matches, metadata_for, num_entries}
use sbio.Topology.{SegmentRef, GroupTopology, create, locate, position}
use sbio.Topology.Collect.{
  Broker, collect, is_duplicate, visit_patterns, visit_brokers, visit_entries, visit_entry, enter,
  new_segment, type_after,
}
use sbio.Topology.Collect.Patterns.{collect_complete}
use sbio.Topology.Slots.{final_indices, chronological_segments}
use sbio.Topology.Slots.Numbered.{chronological_segments_lem}
use sbio.Topology.Slots.Sorted.{IsArranged, final_indices_lem}
use sbio.Topology.Locate.{locate_ordered}

abbrev segment_of : ℕ → SegmentRef
segment_of b = record { broker = b; format_segment_id = b; logical_slot = b; access_ptn = 0 }

abbrev pair : List SegmentRef
pair = segment_of 0 ∷ segment_of 1 ∷ []

abbrev order : ℕ → Option Location
order step = some (record { broker = 1; ordinal = step })

abbrev ordered : GroupTopology
ordered = record {
  stream_brokers = 0 ∷ 1 ∷ [];
  broker_access_ptns = 0 ∷ 0 ∷ [];
  segments = pair;
  step_mapping = (create pair).step_mapping;
  align_ptn = 0;
  num_logical_segments = 2;
  chronology = some order;
}

locate_ordered_example :
    ((loc : Location) × (b : ℕ) × (order 7 ≡ some loc)
      × (locate (λ ptn. true) ordered 7 ≡ (true, b, loc.ordinal))
      × (get_elem? ordered.stream_brokers b ≡ some loc.broker)
      × ((j : ℕ) → j < b → get_elem? ordered.stream_brokers j ≢ some loc.broker))
    ⊎ ((order 7 ≡ none) × (locate (λ ptn. true) ordered 7 ≡ (false, 0, 7)))
    ⊎ ((loc : Location) × (order 7 ≡ some loc)
        × (locate (λ ptn. true) ordered 7 ≡ (false, 0, 7))
        × ((j : ℕ) → get_elem? ordered.stream_brokers j ≢ some loc.broker))
locate_ordered_example = locate_ordered (λ ptn. true) ordered order 7 refl refl

located_second : locate (λ ptn. true) ordered 7 ≡ (true, 1, 7)
unfolding locate position
located_second = refl

-- A StreamBroker with a group `g` of type `t` in segment 3.
abbrev entry : GroupEntry
entry = record {
  key = record {
    group_name = 103 ∷ 0 ∷ [];
    group_type = 116 ∷ 0 ∷ [];
    segment = 3;
    extra_metadata = [];
  };
  group_id = 0;
  access_ptn = 1;
  epoch = 0;
}

abbrev broker : Broker ℕ
broker = record {
  metadata = record { revision = 1; groups = entry ∷ []; fields = [] };
  stream_idx = 0;
}

collect_complete_example : is_duplicate (collect 2 8 (103 ∷ []) 2 (broker ∷ [])).segments 0 3 ≡ true
unfolding collect visit_patterns visit_brokers visit_entries visit_entry enter new_segment
    type_after is_duplicate entry_matches metadata_for num_entries eq_str
collect_complete_example =
    collect_complete 2 8 (103 ∷ []) 2 1 (broker ∷ []) 0 0 broker (omega arith) (omega arith) refl
      (omega arith) refl

final_indices_lem_example :
    IsArranged 3 (final_indices (λ j. 3 - j) 3)
    × ((a b : ℕ)
        → a < b
        → b < 3
        → 3 - final_indices (λ j. 3 - j) 3 a ≤ 3 - final_indices (λ j. 3 - j) 3 b)
final_indices_lem_example = final_indices_lem (λ j. 3 - j) 3 (omega arith)

-- Two StreamBrokers that both have the segments 4 and 7.
abbrev found : ℕ → SegmentRef
found j = record {
  broker = j / 2;
  format_segment_id = if j % 2 == 0 then 7 else 4;
  logical_slot = 0;
  access_ptn = 0;
}

chronological_segments_lem_example :
    let s = chronological_segments (λ j. j / 2) 4 found 1 in
    let t = chronological_segments (λ j. j / 2) 4 found 2 in
    (s.format_segment_id ≡ t.format_segment_id → s.logical_slot ≡ t.logical_slot)
    × (s.format_segment_id < t.format_segment_id → s.logical_slot < t.logical_slot)
chronological_segments_lem_example =
    chronological_segments_lem (λ j. j / 2) 4 found 1 2 (omega arith) (omega arith)
