-- ===== src/Topology.antt =====
-- `GroupTopology` (core/topology.hh): which segments of which StreamBrokers make up a group, and where
-- its steps are. A StreamBroker is its position among those of the DataSource.
pub mod Collect
pub mod Locate
pub mod Mapping
pub mod Segments
pub mod Slots
mod Tests
use sbio.Prelude.{
  ℕ, zero, suc, ◌+◌, ◌-◌, ◌*◌, ◌/◌, ◌%◌, ◌≤◌, ◌<◌, Bool, true, false, not, ◌&&◌, ◌||◌, Option, none,
  some, List, [], ◌∷◌, ◌++◌, length, get_elem?, get_or, ltb, leb, ◌==◌, if◌then◌else◌,
}
use sbio.Chronology.{Location}

-- The cursor of the segment is left out.
pub record SegmentRef : Type 0 where
  pub broker : ℕ
  pub format_segment_id : ℕ
  pub logical_slot : ℕ
  pub access_ptn : ℕ

pub data StepMapping : Type 0 where
  per_kind : StepMapping
  align_to : StepMapping

-- `chronology` is the DataSource's order, by its `locate`.
pub record GroupTopology : Type 0 where
  pub stream_brokers : List ℕ
  pub broker_access_ptns : List ℕ
  pub segments : List SegmentRef
  pub step_mapping : StepMapping
  pub align_ptn : ℕ
  pub num_logical_segments : ℕ
  pub chronology : Option (ℕ → Option Location)

-- Whether a StreamBroker is in the list.
unfoldable pub contains : List ℕ → ℕ → Bool
contains [] b = false
contains (x ∷ xs) b = (x == b) || contains xs b

-- The loop of the constructor: a StreamBroker that is not there yet is entered with its pattern.
unfoldable pub add_brokers : List SegmentRef → List ℕ → List ℕ → List ℕ × List ℕ
add_brokers [] brokers ptns = (brokers, ptns)
add_brokers (s ∷ ss) brokers ptns =
    if contains brokers s.broker
    then add_brokers ss brokers ptns
    else add_brokers ss (brokers ++ s.broker ∷ []) (ptns ++ s.access_ptn ∷ [])

pub count_slots : List SegmentRef → ℕ → ℕ
count_slots [] n = n
count_slots (s ∷ ss) n =
    count_slots ss (if ltb n (s.logical_slot + 1) then s.logical_slot + 1 else n)

pub count_logical_segments : List SegmentRef → ℕ
count_logical_segments ss = count_slots ss 0

unfoldable pub create : List SegmentRef → GroupTopology
create segs =
    let (brokers, ptns) = add_brokers segs [] [] in
    record {
      stream_brokers = brokers;
      broker_access_ptns = ptns;
      segments = segs;
      step_mapping = StepMapping.per_kind;
      align_ptn = 0;
      num_logical_segments = count_logical_segments segs;
      chronology = none;
    }

-- The loop over the StreamBrokers of the group for one of the DataSource.
pub position : List ℕ → ℕ → Option ℕ
position [] b = none
position (x ∷ xs) b =
    if x == b then some 0 else (elim (position xs b) [ none ↦ none | some i ↦ some (suc i) ])

-- The access pattern whose steps are the group's. The first of the segments always exists as an array
-- entry, with pattern 0 where the group is empty.
pub space : GroupTopology → ℕ
space t = elim t.step_mapping [
  | align_to ↦ t.align_ptn
  | per_kind ↦ elim t.segments [ [] ↦ 0 | s ∷ ss ↦ s.access_ptn ]
]

-- `locate`: whether the step was found, the StreamBroker's position in the group and the ordinal there.
-- `distributed` tells whether the steps of a pattern are spread over the StreamBrokers; a format
-- without `ChronologicalKind` says so of each.
unfoldable pub locate : (ℕ → Bool) → GroupTopology → ℕ → Bool × ℕ × ℕ
locate distributed t step_idx =
    if not (distributed (space t)) then (true, 0, step_idx) else elim (length t.stream_brokers) [
      | zero ↦ (false, 0, step_idx)
      | suc n ↦ elim t.chronology [
        | none ↦ (true, step_idx % suc n, step_idx / suc n)
        | some order ↦ elim (order step_idx) [
          | none ↦ (false, 0, step_idx)
          | some loc ↦ elim (position t.stream_brokers loc.broker) [
            | none ↦ (false, 0, step_idx)
            | some b ↦ (true, b, loc.ordinal)
          ]
        ]
      ]
    ]

-- The getters by step, for a Chronological format or one that is subdivided. Where `locate` fails they
-- go on with what it left.
unfoldable pub active_broker : Bool → (ℕ → Bool) → GroupTopology → ℕ → ℕ → ℕ
active_broker chronological distributed t step_idx broker_no =
    if chronological then (locate distributed t step_idx).1 else broker_no

unfoldable pub active_stream_broker : Bool → (ℕ → Bool) → GroupTopology → ℕ → ℕ → Option ℕ
active_stream_broker chronological distributed t step_idx broker_no =
    get_elem? t.stream_brokers (active_broker chronological distributed t step_idx broker_no)

pub active_access_ptn : Bool → (ℕ → Bool) → GroupTopology → ℕ → ℕ → Option ℕ
active_access_ptn chronological distributed t step_idx broker_no =
    get_elem? t.broker_access_ptns (active_broker chronological distributed t step_idx broker_no)

unfoldable pub first_of_broker : List SegmentRef → ℕ → Option SegmentRef
first_of_broker [] broker = none
first_of_broker (s ∷ ss) broker = if s.broker == broker then some s else first_of_broker ss broker

unfoldable pub active_segment : Bool → (ℕ → Bool) → GroupTopology → ℕ → ℕ → Option SegmentRef
active_segment chronological distributed t step_idx broker_no =
    elim (active_stream_broker chronological distributed t step_idx broker_no) [
      | none ↦ none
      | some broker ↦ elim (first_of_broker t.segments broker) [
        | none ↦ get_elem? t.segments 0
        | some s ↦ some s
      ]
    ]

unfoldable pub remap_step_idx : Bool → (ℕ → Bool) → GroupTopology → ℕ → ℕ
remap_step_idx chronological distributed t step_idx =
    if chronological then (locate distributed t step_idx).2 else step_idx

-- The segment of a StreamBroker with a logical slot; `none` is `NoSegment`.
unfoldable pub find_segment : List SegmentRef → ℕ → ℕ → Option ℕ
find_segment [] broker logical = none
find_segment (s ∷ ss) broker logical =
    if (s.broker == broker) && (s.logical_slot == logical)
    then some 0
    else (elim (find_segment ss broker logical) [ none ↦ none | some i ↦ some (suc i) ])

unfoldable pub segment_index_for : GroupTopology → ℕ → ℕ → Option ℕ
segment_index_for t broker_no logical = elim (get_elem? t.stream_brokers broker_no) [
  | none ↦ none
  | some broker ↦ find_segment t.segments broker logical
]
