-- ===== src/BrokerGroup/Ranges.antt =====
-- The ordinals that the fetches of a group leave in the buffers, for a format that is not Chronological.
use sbio.Prelude.{
  ℕ, ◌+◌, ◌-◌, ◌^◌, ◌<◌, ◌≡◌, refl, sym, ap, ◌∙◌, inl, inr, false, ◌&&◌, none, some, arith, ◌==◌,
  if◌then◌else◌, Bool-cases,
}
use mathlib.Core.Path.{subst}
use sbio.Io.{IoStatus, ok, ok_lem}
use sbio.Topology.{
  SegmentRef, GroupTopology, active_segment, active_stream_broker, active_broker, remap_step_idx,
}
use sbio.Topology.Segments.{HasSegments}
use sbio.Topology.Mapping.{Format, StreamBrokers, map_step, map_step-same}
use sbio.BrokerGroup.{
  is_aligned, map_batch, last_step, fetch_next_for, fetch_steps_for, fetch_range_for,
}
use sbio.BrokerGroup.Shared.{Fills}

-- What a fetch does to the buffers, one for each StreamBroker and access pattern: `holds` tells that a
-- buffer has the steps from an ordinal up to another one. A fetch that succeeds leaves its steps in its
-- buffer, and any fetch leaves the other buffers alone.
pub record IsBuffered {S : Type 0} (brokers : StreamBrokers S) (holds : S → ℕ → ℕ → ℕ → ℕ → Type 0)
    : Type 0 where
  pub step_held :
      (b ordinal ptn : ℕ) (s s' : S)
      → brokers.fetch_step b ordinal ptn s ≡ (IoStatus.success, s')
      → holds s' b ptn ordinal (ordinal + 1)
  pub steps_held :
      (b first last ptn : ℕ) (s s' : S)
      → brokers.fetch_steps b first last none ptn s ≡ (IoStatus.success, s')
      → holds s' b ptn first last
  pub step_kept :
      (b ordinal ptn c other first last : ℕ) (s : S)
      → ((b == c) && (ptn == other)) ≡ false
      → holds s c other first last
      → holds (brokers.fetch_step b ordinal ptn s).1 c other first last
  pub steps_kept :
      (b start end ptn c other first last : ℕ) (s : S)
      → ((b == c) && (ptn == other)) ≡ false
      → holds s c other first last
      → holds (brokers.fetch_steps b start end none ptn s).1 c other first last

-- The buffer of a StreamBroker of the group has its range of the steps.
abbrev pub HasRange :
    {S : Type 0}
    → Format
    → StreamBrokers S
    → (S → ℕ → ℕ → ℕ → ℕ → Type 0)
    → GroupTopology
    → ℕ
    → ℕ
    → ℕ
    → S
    → Type 0
HasRange fmt brokers holds t b first last s =
    (broker : ℕ) × (ptn : ℕ) × (first_ordinal : ℕ) × (end_ordinal : ℕ) × Fills t b broker ptn
    × (fetch_range_for fmt brokers t first last b
        ≡ some (IoStatus.success, first_ordinal, end_ordinal))
    × holds s broker ptn first_ordinal end_ordinal

module _ {S : Type 0} (fmt : Format) (brokers : StreamBrokers S)
    (ch : fmt.chronological ≡ false) where
  active_segment_lem :
      (t : GroupTopology) (b broker ptn step : ℕ)
      → HasSegments t
      → Fills t b broker ptn
      → (seg : SegmentRef) × (active_segment false fmt.distributed t step b ≡ some seg)
        × (seg.broker ≡ broker)
        × (seg.access_ptn ≡ ptn)
  unfolding active_segment active_stream_broker active_broker
  active_segment_lem t b broker ptn step h k =
      let (seg, e, p, q) = h b broker ptn k.0 k.1 in (seg, ground (arith, e, k.0), p, q)

  abbrev range_of : GroupTopology → SegmentRef → ℕ → ℕ → IoStatus × ℕ × ℕ
  range_of t seg first last =
      if is_aligned fmt t seg
      then map_batch fmt brokers t seg first last
      else (IoStatus.success, first, last_step first last + 1)

  range_lem :
      (t : GroupTopology) (b first last : ℕ) (seg : SegmentRef)
      → active_segment false fmt.distributed t first b ≡ some seg
      → fetch_range_for fmt brokers t first last b ≡ some (range_of t seg first last)
  unfolding fetch_range_for remap_step_idx
  range_lem t b first last seg e = ground (arith, ch, e)

  range_of-same :
      (t u : GroupTopology) (s v : SegmentRef) (first last : ℕ)
      → ((k : ℕ) → map_step fmt brokers t s k ≡ map_step fmt brokers u v k)
      → is_aligned fmt t s ≡ is_aligned fmt u v
      → range_of t s first last ≡ range_of u v first last
  unfolding map_batch remap_step_idx
  range_of-same t u s v first last same e =
      ground (arith, ch, e, same first, same (last_step first last))

  plain_map :
      (t : GroupTopology) (seg : SegmentRef) (step : ℕ)
      → is_aligned fmt t seg ≡ false
      → map_step fmt brokers t seg step ≡ (IoStatus.success, step)
  unfolding is_aligned map_step
  plain_map t seg step e = rw e refl

  one_range :
      (t : GroupTopology) (seg : SegmentRef) (step ordinal : ℕ)
      → map_step fmt brokers t seg step ≡ (IoStatus.success, ordinal)
      → range_of t seg step (step + 1) ≡ (IoStatus.success, ordinal, ordinal + 1)
  unfolding map_batch last_step remap_step_idx
  one_range t seg step ordinal e = elim (Bool-cases (is_aligned fmt t seg)) [
    | inl a ↦ ground (arith, ch, a, e, same)
    | inr a ↦ ground (arith, ch, a, e, plain_map t seg step a, same)
  ]
    where
      same : step + 1 - 1 ≡ step
      same = omega arith

  -- The range depends on the StreamBroker, its access pattern and the mapping of the steps.
  pub fetch_range_for-same :
      (t u : GroupTopology) (b c broker ptn first last : ℕ)
      → HasSegments t
      → HasSegments u
      → Fills t b broker ptn
      → Fills u c broker ptn
      → t.step_mapping ≡ u.step_mapping
      → t.align_ptn ≡ u.align_ptn
      → fetch_range_for fmt brokers t first last b ≡ fetch_range_for fmt brokers u first last c
  unfolding is_aligned
  fetch_range_for-same t u b c broker ptn first last h k f g m a =
      let (s, e, p, q) = active_segment_lem t b broker ptn first h f in
      let (s', e', p', q') = active_segment_lem u c broker ptn first k g in
      let same = map_step-same fmt brokers t u s s' (p ∙ sym p') (q ∙ sym q') m a in
      range_lem t b first last s e
      ∙ ap some (range_of-same t u s s' first last same (aligned s s' (q ∙ sym q')))
      ∙ sym (range_lem u c first last s' e')
    where
      aligned :
          (s s' : SegmentRef)
          → s.access_ptn ≡ s'.access_ptn
          → is_aligned fmt t s ≡ is_aligned fmt u s'
      aligned s s' q = rw (q, m, a) refl

  module _ (holds : S → ℕ → ℕ → ℕ → ℕ → Type 0) (law : IsBuffered brokers holds) (t : GroupTopology)
      (b broker ptn : ℕ) (h : HasSegments t) (f : Fills t b broker ptn) where
    pub fetch_next_for_lem :
        (step : ℕ) (s s' : S)
        → step + 1 < 2 ^ 64
        → fetch_next_for fmt brokers t step b s ≡ some (IoStatus.success, s')
        → HasRange fmt brokers holds t b step (step + 1) s'
    unfolding fetch_next_for remap_step_idx
    fetch_next_for_lem step s s' l e =
        let (seg, q, p, a) = active_segment_lem t b broker ptn step h f in
        let x = map_step fmt brokers t seg step in
        elim (Bool-cases (ok x.0)) [
          | inl o ↦ (
            broker,
            ptn,
            x.1,
            x.1 + 1,
            f,
            range_lem t b step (step + 1) seg q
                ∙ ap some (one_range t seg step x.1 (ground (arith, ok_lem x.0 o))),
            law.step_held broker x.1 ptn s s' (ground arith),
          )
          | inr o ↦ absurd (ground arith)
        ]

    pub fetch_steps_for_lem :
        (first last : ℕ) (s s' : S)
        → first < last
        → fetch_steps_for fmt brokers t first last none b s ≡ some (IoStatus.success, s')
        → HasRange fmt brokers holds t b first last s'
    unfolding fetch_steps_for last_step
    fetch_steps_for_lem first last s s' l e =
        let (seg, q, p, a) = active_segment_lem t b broker ptn first h f in
        let r = range_lem t b first last seg q in
        let x = map_batch fmt brokers t seg first last in
        elim (Bool-cases (is_aligned fmt t seg)) [
          | inl c ↦ elim (Bool-cases (ok x.0)) [
            | inl o ↦ (
              broker,
              ptn,
              x.1,
              x.2,
              f,
              ground (arith, r, c, ok_lem x.0 o),
              law.steps_held broker x.1 x.2 ptn s s' (ground arith),
            )
            | inr o ↦ absurd (ground arith)
          ]
          | inr c ↦ (
            broker,
            ptn,
            first,
            last,
            f,
            ground (arith, r, c, last_is),
            law.steps_held broker first last ptn s s' (ground arith),
          )
        ]
      where
        last_is : last - 1 + 1 ≡ last
        last_is = omega arith

    -- The other buffers are as before.
    pub fetch_next_for-kept :
        (step : ℕ) (s : S) (r : IoStatus × S) (c other first last : ℕ)
        → fetch_next_for fmt brokers t step b s ≡ some r
        → ((broker == c) && (ptn == other)) ≡ false
        → holds s c other first last
        → holds r.1 c other first last
    unfolding fetch_next_for remap_step_idx
    fetch_next_for-kept step s r c other first last e d o =
        let (seg, q, p, a) = active_segment_lem t b broker ptn step h f in
        let x = map_step fmt brokers t seg step in
        elim (Bool-cases (ok x.0)) [
          | inl g ↦
              subst (λ v. holds v c other first last) (ground arith)
                (law.step_kept broker x.1 ptn c other first last s d o)
          | inr g ↦ subst (λ v. holds v c other first last) (ground arith) o
        ]

    pub fetch_steps_for-kept :
        (from end : ℕ) (s : S) (r : IoStatus × S) (c other first last : ℕ)
        → fetch_steps_for fmt brokers t from end none b s ≡ some r
        → ((broker == c) && (ptn == other)) ≡ false
        → holds s c other first last
        → holds r.1 c other first last
    unfolding fetch_steps_for
    fetch_steps_for-kept from end s r c other first last e d o =
        let (seg, q, p, a) = active_segment_lem t b broker ptn from h f in
        let x = map_batch fmt brokers t seg from end in
        elim (Bool-cases (is_aligned fmt t seg)) [
          | inl g ↦ elim (Bool-cases (ok x.0)) [
            | inl i ↦
                subst (λ v. holds v c other first last) (ground arith)
                  (law.steps_kept broker x.1 x.2 ptn c other first last s d o)
            | inr i ↦ subst (λ v. holds v c other first last) (ground arith) o
          ]
          | inr g ↦
              subst (λ v. holds v c other first last) (ground arith)
                (law.steps_kept broker from end ptn c other first last s d o)
        ]
