-- ===== src/Topology/Slots.antt =====
-- The second half of `build_topology` of core/topology.hh: the segments are sorted, by the stream index
-- of their StreamBroker or by their identifier, and numbered. An array is a function of its index.
pub mod Sorted
pub mod Numbered
use sbio.Prelude.{
  ℕ, zero, suc, ◌+◌, ◌-◌, ◌≤◌, ◌<◌, Bool, true, false, not, ◌&&◌, ◌||◌, ltb, ◌==◌, if◌then◌else◌,
}
use sbio.Topology.{SegmentRef}

abbrev pub write {ℓ} : {A : Type ℓ} → (ℕ → A) → ℕ → A → ℕ → A
write f i a j = if j == i then a else f j

-- `key` is what the segments found are sorted by, from their positions.
module _ (key : ℕ → ℕ) where
  -- The smallest key of the first `n`, where the key at 0 is there already.
  pub smallest_of : ℕ → ℕ
  smallest_of zero = key 0
  smallest_of (suc n) = let rest = smallest_of n in if ltb (key n) rest then key n else rest

  -- The inner loop over the positions `j` that are left.
  pub best_from : ℕ → ℕ → ℕ → ℕ → (ℕ → ℕ) → ℕ
  best_from zero j smallest best indices = best
  best_from (suc n) j smallest best indices =
      best_from n (j + 1) smallest
        (if ltb (key (indices j) - smallest) (key (indices best) - smallest) then j else best)
        indices

  pub swap : ℕ → ℕ → (ℕ → ℕ) → ℕ → ℕ
  swap i best indices =
      if best == i then indices else write (write indices i (indices best)) best (indices i)

  -- A round of the outer loop puts the best of the rest at position `i` of `n`.
  pub sort_round : ℕ → ℕ → (ℕ → ℕ) → ℕ → ℕ
  sort_round n i indices =
      swap i (best_from (n - (i + 1)) (i + 1) (smallest_of n) i indices) indices

  -- The first `rounds` rounds, from the positions in order.
  pub sorted_indices : ℕ → ℕ → ℕ → ℕ
  sorted_indices n zero = λ j. j
  sorted_indices n (suc rounds) = sort_round n rounds (sorted_indices n rounds)

-- Sorting `n` segments, of which there is at least one.
pub final_indices : (ℕ → ℕ) → ℕ → ℕ → ℕ
final_indices key n = sorted_indices key n (n - 1)

abbrev pub with_slot : SegmentRef → ℕ → SegmentRef
with_slot s slot = record {
  broker = s.broker;
  format_segment_id = s.format_segment_id;
  logical_slot = slot;
  access_ptn = s.access_ptn;
}

-- In a format that is subdivided the slot of a segment is its place.
pub sorted_segments : (ℕ → ℕ) → ℕ → (ℕ → SegmentRef) → ℕ → SegmentRef
sorted_segments key n tmp j = with_slot (tmp (final_indices key n j)) j

-- Whether one of the first `m` segments has the identifier.
pub counted : (ℕ → SegmentRef) → ℕ → ℕ → Bool
counted segs zero id = false
counted segs (suc m) id = counted segs m id || ((segs m).format_segment_id == id)

-- How many identifiers among the first `k` segments are below the one given, each counted once.
pub slot_of : (ℕ → SegmentRef) → ℕ → ℕ → ℕ
slot_of segs zero id = 0
slot_of segs (suc k) id =
    let here = (segs k).format_segment_id in
    slot_of segs k id + (if not (counted segs k here) && ltb here id then 1 else 0)

-- In a Chronological format the slot is the place among the distinct identifiers.
pub chronological_segments : (ℕ → ℕ) → ℕ → (ℕ → SegmentRef) → ℕ → SegmentRef
chronological_segments key n tmp j =
    let segs = sorted_segments key n tmp in
    with_slot (segs j) (slot_of segs n (segs j).format_segment_id)
