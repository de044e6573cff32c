-- ===== src/Topology/Mapping.antt =====
-- `GroupTopology::map_step` (core/topology.hh): the step of a segment's kind for a step of the pattern
-- that a group is aligned to.
use sbio.Prelude.{
  ℕ, ◌^◌, ◌≤◌, ◌<◌, ◌≡◌, refl, inl, inr, arith, Bool, true, false, not, ◌&&◌, Option, ◌==◌,
  if◌then◌else◌, Bool-cases,
}
use sbio.Io.{IoStatus}
use sbio.Topology.{SegmentRef, StepMapping, GroupTopology}

-- What a group needs of its format. `chronological` is the test on `PartitioningStrategy`.
pub record Format : Type 0 where
  pub chronological : Bool
  pub uses_generic_index : Bool
  pub distributed : ℕ → Bool
  pub kind_for_ptn : ℕ → ℕ

-- The calls on the StreamBrokers, each at its position, with their state: `preceding` by the kind, the
-- kind it refers to and the step; the fetches by ordinals and the access pattern. The hints in the
-- cursors, which say where a search starts, are left out.
pub record StreamBrokers (S : Type 0) : Type 0 where
  pub preceding : ℕ → ℕ → ℕ → ℕ → IoStatus × ℕ
  pub fetch_step : ℕ → ℕ → ℕ → S → IoStatus × S
  pub fetch_steps : ℕ → ℕ → ℕ → Option ℕ → ℕ → S → IoStatus × S

abbrev pub is_align_to : StepMapping → Bool
is_align_to StepMapping.per_kind = false
is_align_to StepMapping.align_to = true

abbrev pub same_mapping : StepMapping → StepMapping → Bool
same_mapping StepMapping.per_kind m = not (is_align_to m)
same_mapping StepMapping.align_to m = is_align_to m

module _ {S : Type 0} (fmt : Format) (brokers : StreamBrokers S) where
  unfoldable pub map_step : GroupTopology → SegmentRef → ℕ → IoStatus × ℕ
  map_step t seg step_idx =
      if fmt.uses_generic_index && is_align_to t.step_mapping && not (seg.access_ptn == t.align_ptn)
      then brokers.preceding seg.broker (fmt.kind_for_ptn seg.access_ptn)
          (fmt.kind_for_ptn t.align_ptn) step_idx
      else (IoStatus.success, step_idx)

-- The steps that precede later steps are no earlier ones. An ordinal is a uint64_t.
pub record IsOrdered {S : Type 0} (brokers : StreamBrokers S) : Type 0 where
  pub rises :
      (broker kind ref_kind k l o p : ℕ)
      → k ≤ l
      → brokers.preceding broker kind ref_kind k ≡ (IoStatus.success, o)
      → brokers.preceding broker kind ref_kind l ≡ (IoStatus.success, p)
      → o ≤ p
  pub small :
      (broker kind ref_kind k o : ℕ)
      → brokers.preceding broker kind ref_kind k ≡ (IoStatus.success, o)
      → o < 2 ^ 64

module _ {S : Type 0} (fmt : Format) (brokers : StreamBrokers S) (i : IsOrdered brokers)
    (t : GroupTopology) (seg : SegmentRef) where
  pub map_step_rises :
      (k l o p : ℕ)
      → k ≤ l
      → map_step fmt brokers t seg k ≡ (IoStatus.success, o)
      → map_step fmt brokers t seg l ≡ (IoStatus.success, p)
      → o ≤ p
  unfolding map_step
  map_step_rises k l o p h e f =
      elim (Bool-cases (
        fmt.uses_generic_index
        && is_align_to t.step_mapping
        && not (seg.access_ptn == t.align_ptn))) [
          | inl a ↦
              i.rises seg.broker (fmt.kind_for_ptn seg.access_ptn) (fmt.kind_for_ptn t.align_ptn) k
                l o p h (ground arith) (ground arith)
          | inr a ↦ ground arith
        ]

  pub map_step_small :
      (k o : ℕ) → k < 2 ^ 64 → map_step fmt brokers t seg k ≡ (IoStatus.success, o) → o < 2 ^ 64
  unfolding map_step
  map_step_small k o h e =
      elim (Bool-cases (
        fmt.uses_generic_index
        && is_align_to t.step_mapping
        && not (seg.access_ptn == t.align_ptn))) [
          | inl a ↦
              i.small seg.broker (fmt.kind_for_ptn seg.access_ptn) (fmt.kind_for_ptn t.align_ptn) k
                o (ground arith)
          | inr a ↦ ground arith
        ]

-- Only the StreamBroker and the access pattern of a segment matter.
pub map_step-same :
    {S : Type 0} (fmt : Format) (brokers : StreamBrokers S) (t u : GroupTopology)
    (seg other : SegmentRef)
    → seg.broker ≡ other.broker
    → seg.access_ptn ≡ other.access_ptn
    → t.step_mapping ≡ u.step_mapping
    → t.align_ptn ≡ u.align_ptn
    → (k : ℕ) → map_step fmt brokers t seg k ≡ map_step fmt brokers u other k
unfolding map_step
map_step-same fmt brokers t u seg other e f g h k = rw (e, f, g, h) refl
