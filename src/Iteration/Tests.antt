-- ===== src/Iteration/Tests.antt =====
-- Two groups that have a StreamBroker in common.
use sbio.Prelude.{
  ℕ, ◌+◌, ◌≤◌, ◌<◌, ◌≡◌, refl, ap, true, false, ◌&&◌, some, List, [], ◌∷◌, length, get_elem?, arith,
  ◌==◌, if◌then◌else◌, Each, Each-cons, Each-nil,
}
use mathlib.Core.Path.{subst}
use sbio.Io.{IoStatus}
use sbio.Topology.{
  SegmentRef, create, add_brokers, contains, active_segment, active_stream_broker, active_broker,
  first_of_broker, remap_step_idx,
}
use sbio.Topology.Mapping.{Format, StreamBrokers, map_step}
use sbio.Topology.Segments.Entered.{create-HasSegments}
use sbio.BrokerGroup.Ranges.{IsBuffered, HasRange}
use sbio.Iteration.Plan.{
  Group, plan_fetches, plan_groups, plan_group, plan_broker, scan_fetches, shares, fetch_one,
  fetch_range_one, fetch, fetch_batch, check_shared_buffer, fetch_range,
}
use sbio.Execution.Fetching.{
  fetch_units, access_units, access_steps, fetch_then_get, fetch_then_get_steps,
}
use sbio.BrokerGroup.{
  shares_fetch, shares_buffer, fetch_next_for, fetch_steps_for, fetch_range_for, is_aligned,
}
use sbio.Iteration.Plan.Planned.{IsPlan, Covers}
use sbio.Iteration.Plan.Complete.{plan_fetches_lem}
use sbio.Iteration.Plan.Fetched.{IsGroup}
use sbio.Iteration.Plan.Zipped.{fetch_lem, fetch_batch_lem}

abbrev segment : ℕ → SegmentRef
segment b = record { broker = b; format_segment_id = b; logical_slot = b; access_ptn = 0 }

abbrev group : List SegmentRef → Group
group segs = record { kind = 0; topology = create segs }

abbrev pub groups : List Group
groups = group (segment 0 ∷ segment 1 ∷ []) ∷ group (segment 1 ∷ []) ∷ []

group-IsGroup : (segs : List SegmentRef) → IsGroup 0 (group segs)
group-IsGroup segs = record {
  of_kind = refl;
  has_patterns = (create-HasSegments segs).0;
  has_segments = (create-HasSegments segs).1;
}

pub groups-IsGroup : Each (IsGroup 0) groups
groups-IsGroup =
    Each-cons (IsGroup 0) (group (segment 0 ∷ segment 1 ∷ [])) (group (segment 1 ∷ []) ∷ [])
      (group-IsGroup (segment 0 ∷ segment 1 ∷ []))
      (Each-cons (IsGroup 0) (group (segment 1 ∷ [])) [] (group-IsGroup (segment 1 ∷ []))
        (Each-nil (IsGroup 0)))

plan_fetches_lem_example :
    IsPlan groups (plan_fetches groups)
    × ((k b : ℕ) (g : Group)
        → get_elem? groups k ≡ some g
        → b < length g.topology.stream_brokers
        → Covers groups (plan_fetches groups) g b)
    × (length (plan_fetches groups) ≤ 3)
unfolding create add_brokers contains
plan_fetches_lem_example = plan_fetches_lem groups (λ k g q. (groups-IsGroup k g q).has_patterns)

-- The ordinals in each buffer.
abbrev pub Buffers : Type 0
Buffers = ℕ → ℕ → ℕ × ℕ

abbrev pub put : ℕ → ℕ → ℕ × ℕ → Buffers → Buffers
put b ptn range s c other = if (b == c) && (ptn == other) then range else s c other

abbrev pub brokers : StreamBrokers Buffers
brokers = record {
  preceding = λ b kind ref_kind k. (IoStatus.no_offset_in_data, 0);
  fetch_step = λ b o ptn s. (IoStatus.success, put b ptn (o, o + 1) s);
  fetch_steps = λ b first last step ptn s. (IoStatus.success, put b ptn (first, last) s);
}

abbrev pub Holds : Buffers → ℕ → ℕ → ℕ → ℕ → Type 0
Holds s b ptn first last = s b ptn ≡ (first, last)

held : (b ptn : ℕ) (range : ℕ × ℕ) (s s' : Buffers) → put b ptn range s ≡ s' → s' b ptn ≡ range
held b ptn range s s' e = subst (λ x. x b ptn ≡ range) e (ground arith)

pub brokers-IsBuffered : IsBuffered brokers Holds
brokers-IsBuffered = record {
  step_held = λ b o ptn s s' e. held b ptn (o, o + 1) s s' (ap (λ r. r.1) e);
  steps_held = λ b first last ptn s s' e. held b ptn (first, last) s s' (ap (λ r. r.1) e);
  step_kept = λ b o ptn c other first last s d h. ground (arith, d, h);
  steps_kept = λ b start end ptn c other first last s d h. ground (arith, d, h);
}

abbrev pub subdivided : Format
subdivided = record {
  chronological = false;
  uses_generic_index = true;
  distributed = λ ptn. false;
  kind_for_ptn = λ ptn. ptn;
}

abbrev pub empty : Buffers
empty b ptn = (0, 0)

abbrev after_step : Buffers
after_step = put 1 0 (7, 8) (put 0 0 (7, 8) empty)

fetch_lem_example : HasRange subdivided brokers Holds (create (segment 1 ∷ [])) 0 7 8 after_step
unfolding create add_brokers contains active_segment active_stream_broker active_broker
    first_of_broker remap_step_idx map_step is_aligned plan_fetches plan_groups plan_group
    plan_broker scan_fetches shares shares_fetch shares_buffer fetch_one fetch fetch_next_for
    check_shared_buffer fetch_range fetch_range_for fetch_then_get fetch_units access_units
fetch_lem_example =
    fetch_lem subdivided brokers Holds groups 0 7 empty after_step refl brokers-IsBuffered
      groups-IsGroup (omega arith) refl 1 0 (group (segment 1 ∷ [])) refl (omega arith)

abbrev after_batch : Buffers
after_batch = put 1 0 (3, 6) (put 0 0 (3, 6) empty)

fetch_batch_lem_example :
    HasRange subdivided brokers Holds (create (segment 1 ∷ [])) 0 3 6 after_batch
unfolding create add_brokers contains active_segment active_stream_broker active_broker
    first_of_broker remap_step_idx map_step is_aligned plan_fetches plan_groups plan_group
    plan_broker scan_fetches shares shares_fetch shares_buffer fetch_range_one fetch_batch
    fetch_steps_for check_shared_buffer fetch_range fetch_range_for fetch_then_get_steps fetch_units
    access_steps access_units
fetch_batch_lem_example =
    fetch_batch_lem subdivided brokers Holds groups 0 (record { first = 3; last = 6 }) empty
      after_batch refl brokers-IsBuffered groups-IsGroup (omega arith) refl 1 0
      (group (segment 1 ∷ [])) refl (omega arith)
