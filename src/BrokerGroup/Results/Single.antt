-- ===== src/BrokerGroup/Results/Single.antt =====
-- `resolve_data` and `get_data` of one step, and that they fill the table alike.
use sbio.Prelude.{
  ℕ, zero, suc, ◌+◌, ◌<◌, ◌≡◌, refl, sym, ap, ◌∙◌, inl, inr, true, false, Option, none, some,
  get_elem?, length, arith, ◌==◌, if◌then◌else◌, Bool-cases, Option-cases,
}
use mathlib.Core.Path.{subst}
use sbio.Io.{IoStatus}
use sbio.Topology.{GroupTopology, locate, segment_index_for}
use sbio.Topology.Mapping.{Format, StreamBrokers}
use sbio.Broker.Index.{write}
use sbio.BrokerGroup.{fetch_next_for}
use sbio.BrokerGroup.Results.{DataResult, Accessed, copy_ref, enter_located, with_table}
use sbio.Execution.Fetching.{access_units, fetch_then_get}
use sbio.Execution.Fetching.Loop.{fetch_units_lem, fetch_then_get_lem}

module _ {S : Type 0} (fmt : Format) (brokers : StreamBrokers S)
    (get_data_for : S → ℕ → ℕ → DataResult) (t : GroupTopology) where
  -- The data of segment `i`, which is at the start of its buffer.
  pub enter_first : S → ℕ → Accessed → Accessed
  enter_first s i acc = elim (get_elem? t.segments i) [
    | none ↦ acc
    | some seg ↦
        let res = get_data_for s i 0 in
        record {
          ptr_tbl = write acc.ptr_tbl seg.logical_slot res.ptr;
          ref_res = if i == 0 then copy_ref acc.ref_res res else acc.ref_res;
        }
  ]

  -- The segment with a logical slot in the StreamBroker that holds a step.
  pub located_segment : ℕ → ℕ → Option (ℕ × ℕ)
  located_segment step_idx l =
      let (located, broker_no, ordinal) = locate fmt.distributed t step_idx in
      if located
      then elim (segment_index_for t broker_no l) [ none ↦ none | some idx ↦ some (idx, 0) ]
      else none

  -- `n` segments from `i` on, or logical slots.
  pub resolve_firsts : S → ℕ → ℕ → Accessed → Accessed
  resolve_firsts s zero i acc = acc
  resolve_firsts s (suc n) i acc = resolve_firsts s n (i + 1) (enter_first s i acc)

  pub resolve_located : S → ℕ → ℕ → ℕ → Accessed → Accessed
  resolve_located s step_idx zero l acc = acc
  resolve_located s step_idx (suc n) l acc =
      resolve_located s step_idx n (l + 1)
        (enter_located fmt brokers get_data_for t s (located_segment step_idx l) l acc)

  pub resolve_data : S → ℕ → Accessed → Accessed
  resolve_data s step_idx acc =
      if fmt.chronological
      then resolve_located s step_idx t.num_logical_segments 0 acc
      else resolve_firsts s t.num_logical_segments 0 acc

  -- The accesses of `get_data`.
  unfoldable pub get_data_access : ℕ → ℕ → S × Accessed → S × Accessed
  get_data_access step_idx i (s, acc) = (
    s,
    if fmt.chronological
        then enter_located fmt brokers get_data_for t s (located_segment step_idx i) i acc
        else enter_first s i acc,
  )

  unfoldable pub get_data : ℕ → S × Accessed → Option (IoStatus × (S × Accessed))
  get_data step_idx st =
      fetch_then_get
        (λ i. with_table fmt brokers get_data_for t (fetch_next_for fmt brokers t step_idx i))
        (length t.stream_brokers) (get_data_access step_idx) t.num_logical_segments st

  accesses_firsts :
      (step_idx n i : ℕ) (s : S) (acc : Accessed)
      → fmt.chronological ≡ false
      → access_units (get_data_access step_idx) n i (s, acc) ≡ (s, resolve_firsts s n i acc)
  unfolding access_units get_data_access resolve_firsts
  accesses_firsts step_idx zero i s acc ch = refl
  accesses_firsts step_idx (suc n) i s acc ch =
      ap (access_units (get_data_access step_idx) n (i + 1)) (ground (arith, ch))
      ∙ accesses_firsts step_idx n (i + 1) s _ ch

  accesses_located :
      (step_idx n i : ℕ) (s : S) (acc : Accessed)
      → fmt.chronological ≡ true
      → access_units (get_data_access step_idx) n i (s, acc)
        ≡ (s, resolve_located s step_idx n i acc)
  unfolding access_units get_data_access resolve_located
  accesses_located step_idx zero i s acc ch = refl
  accesses_located step_idx (suc n) i s acc ch =
      ap (access_units (get_data_access step_idx) n (i + 1)) (ground (arith, ch))
      ∙ accesses_located step_idx n (i + 1) s _ ch

  accesses_resolve :
      (step_idx : ℕ) (s : S) (acc : Accessed)
      → access_units (get_data_access step_idx) t.num_logical_segments 0 (s, acc)
        ≡ (s, resolve_data s step_idx acc)
  unfolding resolve_data
  accesses_resolve step_idx s acc = elim (Bool-cases fmt.chronological) [
    | inr ch ↦ accesses_firsts step_idx t.num_logical_segments 0 s acc ch ∙ ground (arith, ch)
    | inl ch ↦ accesses_located step_idx t.num_logical_segments 0 s acc ch ∙ ground (arith, ch)
  ]

  with_table-next_kept :
      (step_idx : ℕ) (acc : Accessed) (i : ℕ) (x y : S × Accessed)
      → i < length t.stream_brokers
      → x.1 ≡ acc
      → with_table fmt brokers get_data_for t (fetch_next_for fmt brokers t step_idx i) x
        ≡ some (IoStatus.success, y)
      → y.1 ≡ acc
  unfolding with_table
  with_table-next_kept step_idx acc i x y l k e =
      elim (Option-cases (fetch_next_for fmt brokers t step_idx i x.0)) [
        | inl n ↦ absurd (ground arith)
        | inr (r, n) ↦ ground arith
      ]

  -- `get_data` of a step, where it succeeds, leaves the table and the result for the shape that
  -- `resolve_data` gives in the state that the fetches leave.
  pub get_data_lem :
      (step_idx : ℕ) (s s' : S) (acc acc' : Accessed)
      → get_data step_idx (s, acc) ≡ some (IoStatus.success, (s', acc'))
      → acc' ≡ resolve_data s' step_idx acc
  unfolding get_data
  get_data_lem step_idx s s' acc acc' e =
      let unit : ℕ → S × Accessed → Option (IoStatus × (S × Accessed)) =
        λ i. with_table fmt brokers get_data_for t (fetch_next_for fmt brokers t step_idx i) in
      let (u, q, r) =
        fetch_then_get_lem unit (length t.stream_brokers) (s, acc) (s', acc')
          (get_data_access step_idx) t.num_logical_segments e in
      let kept : u.1 ≡ acc =
        fetch_units_lem (λ i x. x.1 ≡ acc) unit (length t.stream_brokers)
          (with_table-next_kept step_idx acc) (length t.stream_brokers) 0 (s, acc) u (omega arith)
          refl q in
      let pair : u ≡ (u.0, acc) = ap (λ a. (u.0, a)) kept in
      let all =
        r
        ∙ ap (access_units (get_data_access step_idx) t.num_logical_segments 0) pair
        ∙ accesses_resolve step_idx u.0 acc in
      subst (λ x. acc' ≡ resolve_data x step_idx acc) (sym (ap (λ p. p.0) all)) (ap (λ p. p.1) all)
