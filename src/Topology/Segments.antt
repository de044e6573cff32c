-- ===== src/Topology/Segments.antt =====
-- Which segments the searches of a group find.
pub mod Entered
use sbio.Prelude.{
  ℕ, zero, suc, ◌≡◌, refl, inl, inr, Bool, true, false, ◌&&◌, Option, none, some, List, [], ◌∷◌,
  length, get_elem?, arith, ◌==◌, if◌then◌else◌, Bool-cases, Option-cases,
}
use sbio.Topology.{SegmentRef, GroupTopology, find_segment, first_of_broker, segment_index_for}

pub first_of_broker_lem :
    (ss : List SegmentRef) (b : ℕ) (s : SegmentRef)
    → first_of_broker ss b ≡ some s
    → (i : ℕ) × (get_elem? ss i ≡ some s) × (s.broker ≡ b)
unfolding first_of_broker
first_of_broker_lem [] b s e = cc
first_of_broker_lem (x ∷ ss) b s e = elim (Bool-cases (x.broker == b)) [
  | inl a ↦ (0, ground arith, ground arith)
  | inr a ↦ let (i, q, c) = first_of_broker_lem ss b s (ground arith) in (suc i, q, c)
]

find_segment_lem :
    (ss : List SegmentRef) (b logical i : ℕ)
    → find_segment ss b logical ≡ some i
    → (s : SegmentRef) × (get_elem? ss i ≡ some s) × (s.broker ≡ b) × (s.logical_slot ≡ logical)
unfolding find_segment
find_segment_lem [] b logical i e = cc
find_segment_lem (x ∷ ss) b logical i e =
    elim (Bool-cases ((x.broker == b) && (x.logical_slot == logical))) [
      | inl a ↦ (x, ground arith, ground arith, ground arith)
      | inr a ↦ elim (Option-cases (find_segment ss b logical)) [
        | inl n ↦ absurd (ground arith)
        | inr (j, n) ↦
            let (s, q, c, d) = find_segment_lem ss b logical j n in (s, ground (arith, q, n), c, d)
      ]
    ]

pub segment_index_for_lem :
    (t : GroupTopology) (b logical i : ℕ)
    → segment_index_for t b logical ≡ some i
    → (s : SegmentRef) × (get_elem? t.segments i ≡ some s)
      × (get_elem? t.stream_brokers b ≡ some s.broker)
      × (s.logical_slot ≡ logical)
unfolding segment_index_for
segment_index_for_lem t b logical i e = elim (Option-cases (get_elem? t.stream_brokers b)) [
  | inl n ↦ absurd (ground arith)
  | inr (c, n) ↦
      let (s, q, d, f) = find_segment_lem t.segments c logical i (ground arith) in
      (s, q, ground arith, f)
]

-- A StreamBroker with a segment has a first one.
pub first_of_broker-some :
    (ss : List SegmentRef) (i : ℕ) (s : SegmentRef)
    → get_elem? ss i ≡ some s
    → (u : SegmentRef) × (first_of_broker ss s.broker ≡ some u)
unfolding first_of_broker
first_of_broker-some [] i s e = cc
first_of_broker-some (x ∷ ss) zero s e = (x, ground arith)
first_of_broker-some (x ∷ ss) (suc i) s e = elim (Bool-cases (x.broker == s.broker)) [
  | inl a ↦ (x, ground arith)
  | inr a ↦ let (u, q) = first_of_broker-some ss i s e in (u, ground (arith, q))
]

-- Each StreamBroker of a group has its access pattern.
abbrev pub HasPatterns : GroupTopology → Type 0
HasPatterns t = length t.broker_access_ptns ≡ length t.stream_brokers

-- Each StreamBroker of the group has a segment, and the first one has the StreamBroker's access pattern.
abbrev pub HasSegments : GroupTopology → Type 0
HasSegments t =
    (b broker ptn : ℕ)
    → get_elem? t.stream_brokers b ≡ some broker
    → get_elem? t.broker_access_ptns b ≡ some ptn
    → (seg : SegmentRef) × (first_of_broker t.segments broker ≡ some seg)
      × (seg.broker ≡ broker)
      × (seg.access_ptn ≡ ptn)
