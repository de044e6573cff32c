-- ===== src/BrokerGroup/Slots.antt =====
-- Where in the buffers the steps of a batch are.
use sbio.Prelude.{
  ℕ, ◌+◌, ◌-◌, ◌%◌, ◌^◌, ◌≤◌, ◌<◌, ◌≡◌, refl, sym, ◌∙◌, inl, inr, true, false, ◌&&◌, some,
  get_elem?, arith, Bool-cases, Option-cases,
}
use sbio.Io.{IoStatus, ok, ok_lem}
use sbio.Topology.{
  SegmentRef, GroupTopology, locate, segment_index_for, active_segment, remap_step_idx,
}
use sbio.Topology.Segments.{first_of_broker_lem, first_of_broker-some, segment_index_for_lem}
use sbio.Topology.Mapping.{
  Format, StreamBrokers, IsOrdered, map_step, map_step_rises, map_step_small, map_step-same,
}
use sbio.BrokerGroup.{
  ChronoBatch, first_segment_of, chrono_batch, chrono_ordinals, chrono_slot, fetch_range_for,
  batch_slot, map_batch, last_step, is_aligned,
}
use sbio.BrokerGroup.Order.{StepsRise}
use sbio.BrokerGroup.Batch.{chrono_batch_lem}

-- The segments of a StreamBroker have one access pattern.
abbrev pub IsUniform : GroupTopology → Type 0
IsUniform t =
    (i j : ℕ) (s u : SegmentRef)
    → get_elem? t.segments i ≡ some s
    → get_elem? t.segments j ≡ some u
    → s.broker ≡ u.broker
    → s.access_ptn ≡ u.access_ptn

-- A difference of two numbers of a machine word does not wrap if it is none below 0.
sub_small : (a b : ℕ) → b ≤ a → a < 2 ^ 64 → (a + 2 ^ 64 - b) % 2 ^ 64 ≡ a - b
sub_small a b h l = omega arith

module _ {S : Type 0} (fmt : Format) (brokers : StreamBrokers S) (t : GroupTopology) where
  -- What the results say of the mapping.
  chrono_slot_found :
      (step logical b o idx slot : ℕ) (batch : ChronoBatch)
      → locate fmt.distributed t step ≡ (true, b, o)
      → chrono_slot fmt brokers t batch step logical ≡ some (idx, slot)
      → (segment_index_for t b logical ≡ some idx)
        × (seg : SegmentRef) × (first_ordinal : ℕ) × (ordinal : ℕ) × (get_elem? t.segments idx
            ≡ some seg)
        × (map_step fmt brokers t seg (batch.first b) ≡ (IoStatus.success, first_ordinal))
        × (map_step fmt brokers t seg o ≡ (IoStatus.success, ordinal))
        × (slot ≡ (ordinal + 2 ^ 64 - first_ordinal) % 2 ^ 64)
  unfolding chrono_slot
  chrono_slot_found step logical b o idx slot batch l e =
      elim (Option-cases (segment_index_for t b logical)) [
        | inl n ↦ absurd (ground arith)
        | inr (j, n) ↦ elim (Option-cases (get_elem? t.segments j)) [
          | inl q ↦ absurd (ground arith)
          | inr (seg, q) ↦
              let x = map_step fmt brokers t seg (batch.first b) in
              let y = map_step fmt brokers t seg o in
              elim (Bool-cases (ok x.0 && ok y.0)) [
                | inl c ↦ (
                  ground arith,
                  seg,
                  x.1,
                  y.1,
                  ground arith,
                  ground (arith, ok_lem x.0),
                  ground (arith, ok_lem y.0),
                  ground arith,
                )
                | inr c ↦ absurd (ground arith)
              ]
        ]
      ]

  chrono_ordinals_found :
      (b first_ordinal end_ordinal : ℕ) (batch : ChronoBatch) (seg : SegmentRef)
      → batch.any b ≡ true
      → first_segment_of t b ≡ some seg
      → chrono_ordinals fmt brokers t batch b ≡ (IoStatus.success, first_ordinal, end_ordinal)
      → (last_ordinal : ℕ) × (map_step fmt brokers t seg (batch.first b)
          ≡ (IoStatus.success, first_ordinal))
        × (map_step fmt brokers t seg (batch.last b) ≡ (IoStatus.success, last_ordinal))
        × (end_ordinal ≡ last_ordinal + 1)
  unfolding chrono_ordinals
  chrono_ordinals_found b fo eo batch seg a f e =
      let x = map_step fmt brokers t seg (batch.first b) in
      let y = map_step fmt brokers t seg (batch.last b) in
      elim (Bool-cases (ok x.0)) [
        | inl c ↦ (y.1, ground (arith, ok_lem x.0 c), ground arith, ground arith)
        | inr c ↦ absurd (ground arith)
      ]

  -- A batch has what `chrono_fetch_batch` fetches, so the place of a step in it is one in the buffer.
  pub chrono_slot_lem :
      (first last step logical b o first_ordinal end_ordinal idx slot : ℕ) (batch : ChronoBatch)
      → IsOrdered brokers
      → StepsRise fmt.distributed t
      → o < 2 ^ 64
      → IsUniform t
      → first ≤ step
      → step < last
      → chrono_batch fmt.distributed t first last ≡ some batch
      → locate fmt.distributed t step ≡ (true, b, o)
      → chrono_ordinals fmt brokers t batch b ≡ (IoStatus.success, first_ordinal, end_ordinal)
      → chrono_slot fmt brokers t batch step logical ≡ some (idx, slot)
      → (seg : SegmentRef) × (get_elem? t.segments idx ≡ some seg)
        × (seg.logical_slot ≡ logical)
        × (map_step fmt brokers t seg o ≡ (IoStatus.success, first_ordinal + slot))
        × (first_ordinal + slot < end_ordinal)
  unfolding chrono_slot chrono_ordinals first_segment_of
  chrono_slot_lem first last step logical b o fo eo idx slot batch i rise small uni u v c l r e =
      let n = chrono_batch_lem fmt.distributed t first last batch (omega arith) c in
      let (k, ku, kv, kl) = n.first_is step b o u v l in
      let (j, ju, jv, jl) = n.last_is step b o u v l in
      let (b', o', l', a) = n.located step u v in
      let (found, seg, f, p, q, m, w, z) = chrono_slot_found step logical b o idx slot batch l e in
      let (seg', q', br, lg) = segment_index_for_lem t b logical idx found in
      let (head, fu) = first_of_broker-some t.segments idx seg q in
      let (i', q0, br0) = first_of_broker_lem t.segments seg.broker head fu in
      let (last_ordinal, x, y, g) =
        chrono_ordinals_found b fo eo batch head (ground arith) (ground arith) r in
      let same =
        map_step-same fmt brokers t t seg head (sym br0) (uni idx i' seg head q q0 (sym br0)) refl
          refl in
      let f_is : f ≡ fo = ground (arith, same (batch.first b)) in
      let low =
        map_step_rises fmt brokers i t seg (batch.first b) o f p
          (rise k step b (batch.first b) o kv kl l) m w in
      let high =
        map_step_rises fmt brokers i t seg o (batch.last b) p last_ordinal
          (rise step j b o (batch.last b) ju l jl) w (same (batch.last b) ∙ y) in
      let fits = map_step_small fmt brokers i t seg o p small w in
      let slot_is : slot ≡ p - f = z ∙ sub_small p f low fits in
      (seg, q, ground arith, ground arith, omega arith)

  fetch_range_aligned :
      (first last broker_no first_ordinal end_ordinal : ℕ) (seg : SegmentRef)
      → fmt.chronological ≡ false
      → is_aligned fmt t seg ≡ true
      → first < last
      → active_segment false fmt.distributed t first broker_no ≡ some seg
      → fetch_range_for fmt brokers t first last broker_no
        ≡ some (IoStatus.success, first_ordinal, end_ordinal)
      → (last_ordinal : ℕ) × (map_step fmt brokers t seg first ≡ (IoStatus.success, first_ordinal))
        × (map_step fmt brokers t seg (last - 1) ≡ (IoStatus.success, last_ordinal))
        × (end_ordinal ≡ last_ordinal + 1)
  unfolding fetch_range_for map_batch last_step remap_step_idx
  fetch_range_aligned first last broker_no fo eo seg ch a u act r =
      let x = map_step fmt brokers t seg first in
      let y = map_step fmt brokers t seg (last - 1) in
      let z : map_batch fmt brokers t seg first last ≡ (IoStatus.success, fo, eo) = ground arith in
      elim (Bool-cases (ok x.0)) [
        | inl c ↦ (y.1, ground (arith, ok_lem x.0 c), ground arith, ground arith)
        | inr c ↦ absurd (ground arith)
      ]

  batch_slot_aligned :
      (first cnt first_ordinal ordinal : ℕ) (seg : SegmentRef)
      → fmt.chronological ≡ false
      → is_aligned fmt t seg ≡ true
      → map_step fmt brokers t seg first ≡ (IoStatus.success, first_ordinal)
      → map_step fmt brokers t seg (first + cnt) ≡ (IoStatus.success, ordinal)
      → (first + cnt) % 2 ^ 64 ≡ first + cnt
      → batch_slot fmt brokers t seg first cnt ≡ (ordinal + 2 ^ 64 - first_ordinal) % 2 ^ 64
  unfolding batch_slot remap_step_idx
  batch_slot_aligned first cnt fo o seg ch a x m w = ground (arith, ch, a, w, x, m)

  -- The same for a format that is not Chronological, of the segment that is fetched.
  pub batch_slot_lem :
      (first last cnt broker_no ordinal first_ordinal end_ordinal : ℕ) (seg : SegmentRef)
      → IsOrdered brokers
      → fmt.chronological ≡ false
      → first + cnt < last
      → last < 2 ^ 64
      → active_segment false fmt.distributed t first broker_no ≡ some seg
      → fetch_range_for fmt brokers t first last broker_no
        ≡ some (IoStatus.success, first_ordinal, end_ordinal)
      → map_step fmt brokers t seg (first + cnt) ≡ (IoStatus.success, ordinal)
      → (first_ordinal + batch_slot fmt brokers t seg first cnt ≡ ordinal) × (ordinal < end_ordinal)
  unfolding fetch_range_for batch_slot map_batch last_step remap_step_idx is_aligned map_step
  batch_slot_lem first last cnt broker_no o fo eo seg i ch u v act r m =
      let wrap : (first + cnt) % 2 ^ 64 ≡ first + cnt = omega arith in
      elim (Bool-cases (is_aligned fmt t seg)) [
        | inl a ↦
            let (p, x, y, e) =
              fetch_range_aligned first last broker_no fo eo seg ch a (omega arith) act r in
            let low =
              map_step_rises fmt brokers i t seg first (first + cnt) fo o (omega arith) x m in
            let high =
              map_step_rises fmt brokers i t seg (first + cnt) (last - 1) o p (omega arith) m y in
            let fits = map_step_small fmt brokers i t seg (first + cnt) o (omega arith) m in
            let h : batch_slot fmt brokers t seg first cnt ≡ (o + 2 ^ 64 - fo) % 2 ^ 64 =
              batch_slot_aligned first cnt fo o seg ch a x m wrap in
            (omega (arith, sub_small o fo low fits), omega arith)
        | inr a ↦
            let e : fo ≡ first = ground arith in
            let f : eo ≡ last - 1 + 1 = ground arith in
            let g : o ≡ first + cnt = ground arith in
            let h : batch_slot fmt brokers t seg first cnt ≡ cnt = ground arith in
            (omega arith, omega arith)
      ]
