-- ===== src/Topology/Slots/Numbered.antt =====
-- The logical slots of a Chronological format follow the identifiers of the segments.
use sbio.Prelude.{ℕ, zero, suc, ◌≤◌, ◌<◌, ◌≡◌, ap, true, inl, inr, arith, Bool-cases, ℕ_discrete}
use sbio.Topology.{SegmentRef}
use sbio.Topology.Slots.{counted, slot_of, sorted_segments, chronological_segments}

counted_lem :
    (segs : ℕ → SegmentRef) (n j : ℕ) → j < n → counted segs n (segs j).format_segment_id ≡ true
unfolding counted
counted_lem segs zero j h = absurd (omega arith)
counted_lem segs (suc n) j h = elim (ℕ_discrete j n) [
  | yes e ↦ ground (arith, ap (λ k. (segs k).format_segment_id) e)
  | no e ↦ ground (arith, counted_lem segs n j (omega arith))
]

slot_of_rises : (segs : ℕ → SegmentRef) (n a b : ℕ) → a ≤ b → slot_of segs n a ≤ slot_of segs n b
unfolding slot_of
slot_of_rises segs zero a b h = omega arith
slot_of_rises segs (suc n) a b h = ground (arith, slot_of_rises segs n a b h)

-- An identifier that occurs counts for those above it.
slot_of_counts :
    (segs : ℕ → SegmentRef) (n a b : ℕ)
    → a < b
    → counted segs n a ≡ true
    → slot_of segs n a < slot_of segs n b
unfolding slot_of counted
slot_of_counts segs zero a b h c = cc
slot_of_counts segs (suc n) a b h c = elim (Bool-cases (counted segs n a)) [
  | inl d ↦ ground (arith, slot_of_counts segs n a b h d)
  | inr d ↦ elim (ℕ_discrete (segs n).format_segment_id a) [
    | yes e ↦ ground (arith, e, d, ap (counted segs n) e, slot_of_rises segs n a b (omega arith))
    | no e ↦ absurd (ground arith)
  ]
]

-- In a Chronological format two segments of a group have the same logical slot if they have the same
-- identifier, and otherwise the one with the smaller identifier has the smaller slot.
pub chronological_segments_lem :
    (key : ℕ → ℕ) (n : ℕ) (tmp : ℕ → SegmentRef) (j l : ℕ)
    → j < n
    → l < n
    → let s = chronological_segments key n tmp j in
      let t = chronological_segments key n tmp l in
      (s.format_segment_id ≡ t.format_segment_id → s.logical_slot ≡ t.logical_slot)
      × (s.format_segment_id < t.format_segment_id → s.logical_slot < t.logical_slot)
unfolding chronological_segments
chronological_segments_lem key n tmp j l h k =
    let segs = sorted_segments key n tmp in
    ((λ e. ap (slot_of segs n) e), λ e. slot_of_counts segs n _ _ e (counted_lem segs n j h))
