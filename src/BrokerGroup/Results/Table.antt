-- ===== src/BrokerGroup/Results/Table.antt =====
-- The table after `resolve_multi_data`, for a format that is not Chronological.
use sbio.Prelude.{
  ℕ, zero, suc, ◌+◌, ◌-◌, ◌*◌, ◌≤◌, ◌<◌, ◌≡◌, ◌≢◌, ◌⊎◌, refl, sym, ap, ◌∙◌, inl, inr, false, some,
  get_elem?, arith, ℕ_discrete, Option-cases,
}
use mathlib.Core.Path.{subst}
use native.Mathlib.Nat.{suc-mul, mul-le-mul_right}
use sbio.Topology.{SegmentRef, GroupTopology}
use sbio.Topology.Mapping.{Format, StreamBrokers}
use sbio.BrokerGroup.{batch_slot}
use sbio.BrokerGroup.Results.{
  DataResult, Accessed, enter_segment, resolve_segments, resolve_steps, resolve_multi_data,
}

-- Each of the logical segments has a segment at its index, and no two have the same logical slot.
pub record IsSlotted (t : GroupTopology) : Type 0 where
  pub in_range :
      (i : ℕ) (seg : SegmentRef)
      → get_elem? t.segments i ≡ some seg
      → seg.logical_slot < t.num_logical_segments
  pub apart :
      (i j : ℕ) (seg other : SegmentRef)
      → get_elem? t.segments i ≡ some seg
      → get_elem? t.segments j ≡ some other
      → seg.logical_slot ≡ other.logical_slot
      → i ≡ j

module _ {S : Type 0} (fmt : Format) (brokers : StreamBrokers S)
    (get_data_for : S → ℕ → ℕ → DataResult) (t : GroupTopology) (d : IsSlotted t) (s : S)
    (first : ℕ) where
  abbrev width : ℕ
  width = t.num_logical_segments

  enter_other :
      (cnt base i k : ℕ) (acc : Accessed)
      → ((seg : SegmentRef) → get_elem? t.segments i ≡ some seg → k ≢ base + seg.logical_slot)
      → (enter_segment fmt brokers get_data_for t s first cnt base i acc).ptr_tbl k ≡ acc.ptr_tbl k
  unfolding enter_segment
  enter_other cnt base i k acc h = elim (Option-cases (get_elem? t.segments i)) [
    | inl n ↦ ground (arith, n)
    | inr (seg, q) ↦ let z = h seg q in ground (arith, q, z)
  ]

  enter_own :
      (cnt base i : ℕ) (seg : SegmentRef) (acc : Accessed)
      → get_elem? t.segments i ≡ some seg
      → (enter_segment fmt brokers get_data_for t s first cnt base i acc).ptr_tbl
          (base + seg.logical_slot)
        ≡ (get_data_for s i (batch_slot fmt brokers t seg first cnt)).ptr
  unfolding enter_segment
  enter_own cnt base i seg acc q = ground (arith, q)

  -- The loop over the segments writes no other step's entries.
  segments_other :
      (cnt n i k : ℕ) (acc : Accessed)
      → (k < cnt * width) ⊎ (cnt * width + width ≤ k)
      → (resolve_segments fmt brokers get_data_for t s first cnt n i acc).ptr_tbl k ≡ acc.ptr_tbl k
  unfolding resolve_segments
  segments_other cnt zero i k acc h = refl
  segments_other cnt (suc n) i k acc h =
      segments_other cnt n (i + 1) k _ h
      ∙ enter_other cnt (cnt * width) i k acc (λ seg q e. outside seg q e h)
    where
      outside :
          (seg : SegmentRef)
          → get_elem? t.segments i ≡ some seg
          → k ≡ cnt * width + seg.logical_slot
          → (k < cnt * width) ⊎ (cnt * width + width ≤ k)
          → ⊥
      outside seg q e (inl l) = omega arith
      outside seg q e (inr l) = omega (arith, d.in_range i seg q)

  -- It keeps the entry of a segment before those that it is at.
  segments_kept :
      (cnt n i j : ℕ) (seg : SegmentRef) (acc : Accessed)
      → get_elem? t.segments j ≡ some seg
      → j < i
      → (resolve_segments fmt brokers get_data_for t s first cnt n i acc).ptr_tbl
          (cnt * width + seg.logical_slot)
        ≡ acc.ptr_tbl (cnt * width + seg.logical_slot)
  unfolding resolve_segments
  segments_kept cnt zero i j seg acc q l = refl
  segments_kept cnt (suc n) i j seg acc q l =
      segments_kept cnt n (i + 1) j seg _ q (omega arith)
      ∙ enter_other cnt (cnt * width) i (cnt * width + seg.logical_slot) acc
          (λ other r e. clash other r (d.apart j i seg other q r) e)
    where
      clash :
          (other : SegmentRef)
          → get_elem? t.segments i ≡ some other
          → (seg.logical_slot ≡ other.logical_slot → j ≡ i)
          → cnt * width + seg.logical_slot ≡ cnt * width + other.logical_slot
          → ⊥
      clash other r h e = omega (arith, h (omega arith))

  -- And enters each of those.
  segments_entered :
      (cnt n i j : ℕ) (seg : SegmentRef) (acc : Accessed)
      → get_elem? t.segments j ≡ some seg
      → i ≤ j
      → j < i + n
      → (resolve_segments fmt brokers get_data_for t s first cnt n i acc).ptr_tbl
          (cnt * width + seg.logical_slot)
        ≡ (get_data_for s j (batch_slot fmt brokers t seg first cnt)).ptr
  unfolding resolve_segments
  segments_entered cnt zero i j seg acc q l m = absurd (omega arith)
  segments_entered cnt (suc n) i j seg acc q l m = elim (ℕ_discrete i j) [
    | no e ↦ segments_entered cnt n (i + 1) j seg _ q (omega arith) (omega arith)
    | yes e ↦
        segments_kept cnt n (i + 1) j seg _ q (omega arith)
        ∙ subst
            (λ k.
              (enter_segment fmt brokers get_data_for t s first cnt (cnt * width) k acc).ptr_tbl
                (cnt * width + seg.logical_slot)
              ≡ (get_data_for s j (batch_slot fmt brokers t seg first cnt)).ptr)
            (sym e) (entered cnt j seg q acc)
  ]
    where
      entered :
          (cnt j : ℕ) (seg : SegmentRef)
          → get_elem? t.segments j ≡ some seg
          → (acc : Accessed)
          → (enter_segment fmt brokers get_data_for t s first cnt (cnt * width) j acc).ptr_tbl
              (cnt * width + seg.logical_slot)
            ≡ (get_data_for s j (batch_slot fmt brokers t seg first cnt)).ptr
      entered cnt j seg q acc = enter_own cnt (cnt * width) j seg acc q

  next_row : (cnt : ℕ) → suc cnt * width ≡ cnt * width + width
  next_row cnt = suc-mul cnt width

  -- Later steps have later entries.
  row_below : (cnt later : ℕ) → cnt < later → cnt * width + width ≤ later * width
  row_below cnt later l =
      omega (arith, next_row cnt, mul-le-mul_right {m = suc cnt} {n = later} width l)

  steps_kept :
      (n later cnt k : ℕ) (acc : Accessed)
      → cnt < later
      → k < cnt * width + width
      → (resolve_steps fmt brokers get_data_for t s first n later acc).ptr_tbl k ≡ acc.ptr_tbl k
  unfolding resolve_steps
  steps_kept zero later cnt k acc l m = refl
  steps_kept (suc n) later cnt k acc l m =
      steps_kept n (later + 1) cnt k _ (omega arith) m
      ∙ segments_other later width 0 k acc (inl (omega (arith, row_below cnt later l)))

  steps_entered :
      (n from cnt j : ℕ) (seg : SegmentRef) (acc : Accessed)
      → get_elem? t.segments j ≡ some seg
      → j < width
      → from ≤ cnt
      → cnt < from + n
      → (resolve_steps fmt brokers get_data_for t s first n from acc).ptr_tbl
          (cnt * width + seg.logical_slot)
        ≡ (get_data_for s j (batch_slot fmt brokers t seg first cnt)).ptr
  unfolding resolve_steps
  steps_entered zero from cnt j seg acc q h l m = absurd (omega arith)
  steps_entered (suc n) from cnt j seg acc q h l m = elim (ℕ_discrete from cnt) [
    | no e ↦ steps_entered n (from + 1) cnt j seg _ q h (omega arith) (omega arith)
    | yes e ↦
        steps_kept n (from + 1) cnt (cnt * width + seg.logical_slot) _ (omega arith)
          (omega (arith, d.in_range j seg q))
        ∙ subst
            (λ k.
              (resolve_segments fmt brokers get_data_for t s first k width 0 acc).ptr_tbl
                (cnt * width + seg.logical_slot)
              ≡ (get_data_for s j (batch_slot fmt brokers t seg first cnt)).ptr)
            (sym e) (segments_entered cnt width 0 j seg acc q (omega arith) (omega arith))
  ]

  -- In a group whose segments have logical slots of their own, for a format that is not Chronological:
  -- `resolve_multi_data` leaves for each step of a range and each segment, at the entry of the step and
  -- the segment's logical slot, the pointer to the step's place in the segment's buffer; the entry is
  -- within the table of as many steps.
  pub resolve_multi_data_lem :
      (last cnt j : ℕ) (seg : SegmentRef) (acc : Accessed)
      → fmt.chronological ≡ false
      → first < last
      → cnt < last - first
      → get_elem? t.segments j ≡ some seg
      → j < t.num_logical_segments
      → ((resolve_multi_data fmt brokers get_data_for t s first last acc).ptr_tbl
            (cnt * t.num_logical_segments + seg.logical_slot)
          ≡ (get_data_for s j (batch_slot fmt brokers t seg first cnt)).ptr)
        × (cnt * t.num_logical_segments + seg.logical_slot
            < (last - first) * t.num_logical_segments)
  unfolding resolve_multi_data
  resolve_multi_data_lem last cnt j seg acc ch l m q h = (
    ap (λ a. a.ptr_tbl (cnt * width + seg.logical_slot)) start
        ∙ steps_entered (last - first) 0 cnt j seg acc q h (omega arith) (omega arith),
    omega (arith, d.in_range j seg q, row_below cnt (last - first) m),
  )
    where
      start :
          resolve_multi_data fmt brokers get_data_for t s first last acc
          ≡ resolve_steps fmt brokers get_data_for t s first (last - first) 0 acc
      start = ground (arith, ch)
