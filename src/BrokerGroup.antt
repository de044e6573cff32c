-- ===== src/BrokerGroup.antt =====
-- src/lib/sbio/core/broker_group.hh: the steps that a group has its StreamBrokers fetch. An `Option` of
-- `none` around a result is a read outside of the group's arrays.
pub mod Batch
pub mod Order
pub mod Ranges
pub mod Results
pub mod Shared
pub mod Slots
mod Tests
use sbio.Prelude.{
  ℕ, zero, suc, ◌+◌, ◌-◌, ◌%◌, ◌^◌, Bool, true, false, not, ◌&&◌, ◌||◌, Option, none, some, List,
  get_elem?, ltb, leb, ◌==◌, if◌then◌else◌,
}
use sbio.Io.{IoStatus, ok}
use sbio.Chronology.{Location}
use sbio.Topology.{
  SegmentRef, GroupTopology, locate, active_segment, remap_step_idx, segment_index_for,
  first_of_broker,
}
use sbio.Topology.Mapping.{Format, StreamBrokers, map_step, is_align_to, same_mapping}
use sbio.Broker.Index.{write}

-- The ordinals of a batch in each StreamBroker of the group; `last` is inclusive.
pub record ChronoBatch : Type 0 where
  pub first : ℕ → ℕ
  pub last : ℕ → ℕ
  pub any : ℕ → Bool

abbrev pub empty_batch : ChronoBatch
empty_batch = record { first = λ b. 0; last = λ b. 0; any = λ b. false }

-- The last step of a range, which has one step if it is empty.
unfoldable pub last_step : ℕ → ℕ → ℕ
last_step first last = if ltb first last then last - 1 else first

-- The segment itself in place of its index; `none` is `NoSegment`.
pub first_segment_of : GroupTopology → ℕ → Option SegmentRef
first_segment_of t broker_no = elim (get_elem? t.stream_brokers broker_no) [
  | none ↦ none
  | some broker ↦ first_of_broker t.segments broker
]

-- One step of a batch.
pub note_step : ChronoBatch → ℕ → ℕ → ChronoBatch
note_step batch b ordinal = record {
  first = if batch.any b then batch.first else write batch.first b ordinal;
  last = write batch.last b ordinal;
  any = write batch.any b true;
}

-- The `for` over the steps; `none` is `NoOffsetInData`.
pub chrono_steps : (ℕ → Bool) → GroupTopology → ℕ → ℕ → ChronoBatch → Option ChronoBatch
chrono_steps distributed t zero step batch = some batch
chrono_steps distributed t (suc n) step batch =
    let rest =
      chrono_steps distributed t n (step + 1)
        (note_step batch (locate distributed t step).1 (locate distributed t step).2) in
    if not (locate distributed t step).0 then none else rest

-- The end of the range is a size_t.
pub chrono_batch : (ℕ → Bool) → GroupTopology → ℕ → ℕ → Option ChronoBatch
chrono_batch distributed t first last =
    chrono_steps distributed t ((if ltb first last then last else (first + 1) % 2 ^ 64) - first)
      first empty_batch

unfoldable pub is_aligned : Format → GroupTopology → SegmentRef → Bool
is_aligned fmt t seg =
    fmt.uses_generic_index && is_align_to t.step_mapping && not (seg.access_ptn == t.align_ptn)

module _ {S : Type 0} (fmt : Format) (brokers : StreamBrokers S) (t : GroupTopology) where
  abbrev remap : ℕ → ℕ
  remap step_idx = remap_step_idx fmt.chronological fmt.distributed t step_idx

  -- The status with the first ordinal and the one after the last.
  unfoldable pub map_batch : SegmentRef → ℕ → ℕ → IoStatus × ℕ × ℕ
  map_batch seg first last =
      let (status, first_ordinal) = map_step fmt brokers t seg (remap first) in
      let (last_status, last_ordinal) = map_step fmt brokers t seg (remap (last_step first last)) in
      if not (ok status)
      then (status, first_ordinal, 0)
      else (last_status, first_ordinal, last_ordinal + 1)

  -- The place in the buffer of the step at `cnt` of a batch.
  pub batch_slot : SegmentRef → ℕ → ℕ → ℕ
  batch_slot seg first cnt =
      let (first_status, first_ordinal) = map_step fmt brokers t seg (remap first) in
      let (status, ordinal) = map_step fmt brokers t seg (remap ((first + cnt) % 2 ^ 64)) in
      if not (is_aligned fmt t seg)
      then cnt
      else if not (ok first_status) || not (ok status)
      then cnt
      else (ordinal + 2 ^ 64 - first_ordinal) % 2 ^ 64

  pub chrono_fetch : ℕ → ℕ → S → IoStatus × S
  chrono_fetch step_idx broker_no s =
      let (located, holder, space_ordinal) = locate fmt.distributed t step_idx in
      if not located then (IoStatus.no_offset_in_data, s) else elim (first_segment_of t broker_no) [
        | none ↦ (IoStatus.success, s)
        | some seg ↦
            let (status, ordinal) = map_step fmt brokers t seg space_ordinal in
            if not (holder == broker_no)
            then (IoStatus.success, s)
            else if not (ok status)
            then (status, s)
            else brokers.fetch_step seg.broker ordinal seg.access_ptn s
      ]

  pub chrono_ordinals : ChronoBatch → ℕ → IoStatus × ℕ × ℕ
  chrono_ordinals batch broker_no = elim (first_segment_of t broker_no) [
    | none ↦ (IoStatus.success, 0, 0)
    | some seg ↦
        let (status, first_ordinal) = map_step fmt brokers t seg (batch.first broker_no) in
        let (last_status, last_ordinal) = map_step fmt brokers t seg (batch.last broker_no) in
        if not (batch.any broker_no)
        then (IoStatus.success, 0, 0)
        else if ok status
        then (last_status, first_ordinal, last_ordinal + 1)
        else (status, first_ordinal, 1)
  ]

  pub chrono_fetch_batch : ChronoBatch → ℕ → S → IoStatus × S
  chrono_fetch_batch batch broker_no s =
      let (status, first_ordinal, end_ordinal) = chrono_ordinals batch broker_no in
      if not (ok status) || (end_ordinal == first_ordinal)
      then (status, s)
      else elim (first_segment_of t broker_no) [
        | none ↦ (status, s)
        | some seg ↦ brokers.fetch_steps seg.broker first_ordinal end_ordinal none seg.access_ptn s
      ]

  -- The segment's index and the place of the step in the segment's buffer.
  pub chrono_slot : ChronoBatch → ℕ → ℕ → Option (ℕ × ℕ)
  chrono_slot batch step logical =
      let (located, broker_no, space_ordinal) = locate fmt.distributed t step in
      if not located || not (batch.any broker_no)
      then none
      else elim (segment_index_for t broker_no logical) [
        | none ↦ none
        | some idx ↦ elim (get_elem? t.segments idx) [
          | none ↦ none
          | some seg ↦
              let (first_status, first_ordinal) =
                map_step fmt brokers t seg (batch.first broker_no) in
              let (status, ordinal) = map_step fmt brokers t seg space_ordinal in
              if not (ok first_status) || not (ok status)
              then none
              else some (idx, (ordinal + 2 ^ 64 - first_ordinal) % 2 ^ 64)
        ]
      ]

  unfoldable pub fetch_next_for : ℕ → ℕ → S → Option (IoStatus × S)
  fetch_next_for step_idx broker_no s =
      if fmt.chronological
      then some (chrono_fetch step_idx broker_no s)
      else elim (active_segment fmt.chronological fmt.distributed t step_idx broker_no) [
        | none ↦ none
        | some seg ↦
            let (status, ordinal) = map_step fmt brokers t seg (remap step_idx) in
            some (
              if not (ok status)
              then (status, s)
              else brokers.fetch_step seg.broker ordinal seg.access_ptn s)
      ]

  -- `step` is the third of the list of steps, where it has one.
  unfoldable pub fetch_steps_for : ℕ → ℕ → Option ℕ → ℕ → S → Option (IoStatus × S)
  fetch_steps_for first last step broker_no s =
      if fmt.chronological
      then elim (chrono_batch fmt.distributed t first last) [
        | none ↦ some (IoStatus.no_offset_in_data, s)
        | some batch ↦ some (chrono_fetch_batch batch broker_no s)
      ]
      else elim (active_segment fmt.chronological fmt.distributed t first broker_no) [
        | none ↦ none
        | some seg ↦
            let (status, first_ordinal, end_ordinal) = map_batch seg first last in
            some (
              if not (is_aligned fmt t seg)
              then brokers.fetch_steps seg.broker first last step seg.access_ptn s
              else if not (ok status)
              then (status, s)
              else brokers.fetch_steps seg.broker first_ordinal end_ordinal none seg.access_ptn s)
      ]

  unfoldable pub fetch_range_for : ℕ → ℕ → ℕ → Option (IoStatus × ℕ × ℕ)
  fetch_range_for first last broker_no =
      if fmt.chronological
      then elim (chrono_batch fmt.distributed t first last) [
        | none ↦ some (IoStatus.no_offset_in_data, 0, 0)
        | some batch ↦ some (chrono_ordinals batch broker_no)
      ]
      else elim (active_segment fmt.chronological fmt.distributed t first broker_no) [
        | none ↦ none
        | some seg ↦ some (
            if is_aligned fmt t seg
            then map_batch seg first last
            else (IoStatus.success, remap first, remap (last_step first last) + 1))
      ]

-- Whether two fetches are the same, or fill the same buffer.
unfoldable pub shares_buffer : GroupTopology → ℕ → GroupTopology → ℕ → Bool
shares_buffer t broker_no other other_no = elim (get_elem? t.stream_brokers broker_no) [
  | none ↦ false
  | some b ↦ elim (get_elem? other.stream_brokers other_no) [
    | none ↦ false
    | some c ↦ (b == c) && same_ptn
  ]
]
  where
    same_ptn : Bool
    same_ptn = elim (get_elem? t.broker_access_ptns broker_no) [
      | none ↦ false
      | some p ↦ elim (get_elem? other.broker_access_ptns other_no) [
        | none ↦ false
        | some q ↦ p == q
      ]
    ]

unfoldable pub shares_fetch : GroupTopology → ℕ → GroupTopology → ℕ → Bool
shares_fetch t broker_no other other_no =
    shares_buffer t broker_no other other_no
    && same_mapping t.step_mapping other.step_mapping
    && (t.align_ptn == other.align_ptn)
