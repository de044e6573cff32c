-- ===== src/BrokerGroup/Results/Access.antt =====
-- `get_multi_data` fills the table as `resolve_multi_data` does.
use sbio.Prelude.{
  ℕ, zero, suc, ◌+◌, ◌-◌, ◌<◌, ◌≡◌, refl, sym, ap, ◌∙◌, inl, inr, true, false, Option, none, some,
  length, arith, Bool-cases, Option-cases,
}
use mathlib.Core.Path.{subst}
use sbio.Io.{IoStatus}
use sbio.Topology.{GroupTopology}
use sbio.Topology.Mapping.{Format, StreamBrokers}
use sbio.BrokerGroup.{ChronoBatch, chrono_batch, fetch_steps_for}
use sbio.BrokerGroup.Results.{
  DataResult, Accessed, resolve_segments, resolve_slots, resolve_steps, resolve_chrono_steps,
  resolve_multi_data, access_of, with_table, get_multi_data,
}
use sbio.Execution.Fetching.{access_units, access_steps}
use sbio.Execution.Fetching.Loop.{fetch_units_lem, fetch_then_get_steps_lem}

module _ {S : Type 0} (fmt : Format) (brokers : StreamBrokers S)
    (get_data_for : S → ℕ → ℕ → DataResult) (t : GroupTopology) where
  module _ (chrono : Option ChronoBatch) (first : ℕ) (s : S) where
    abbrev access : ℕ → ℕ → S × Accessed → S × Accessed
    access i cnt st = access_of fmt brokers get_data_for t chrono first i cnt st

    units_plain :
        (cnt n i : ℕ) (acc : Accessed)
        → fmt.chronological ≡ false
        → access_units (λ k. access k cnt) n i (s, acc)
          ≡ (s, resolve_segments fmt brokers get_data_for t s first cnt n i acc)
    unfolding access_units resolve_segments access_of
    units_plain cnt zero i acc ch = refl
    units_plain cnt (suc n) i acc ch =
        ap (access_units (λ k. access k cnt) n (i + 1)) (ground (arith, ch))
        ∙ units_plain cnt n (i + 1) _ ch

    units_chrono :
        (cnt n i : ℕ) (acc : Accessed)
        → fmt.chronological ≡ true
        → access_units (λ k. access k cnt) n i (s, acc)
          ≡ (s, resolve_slots fmt brokers get_data_for t s chrono first cnt n i acc)
    unfolding access_units resolve_slots access_of
    units_chrono cnt zero i acc ch = refl
    units_chrono cnt (suc n) i acc ch =
        ap (access_units (λ k. access k cnt) n (i + 1)) (ground (arith, ch))
        ∙ units_chrono cnt n (i + 1) _ ch

    steps_plain :
        (n cnt : ℕ) (acc : Accessed)
        → fmt.chronological ≡ false
        → access_steps access t.num_logical_segments n cnt (s, acc)
          ≡ (s, resolve_steps fmt brokers get_data_for t s first n cnt acc)
    unfolding access_steps resolve_steps
    steps_plain zero cnt acc ch = refl
    steps_plain (suc n) cnt acc ch =
        ap (access_steps access t.num_logical_segments n (cnt + 1))
          (units_plain cnt t.num_logical_segments 0 acc ch)
        ∙ steps_plain n (cnt + 1) _ ch

    steps_chrono :
        (n cnt : ℕ) (acc : Accessed)
        → fmt.chronological ≡ true
        → access_steps access t.num_logical_segments n cnt (s, acc)
          ≡ (s, resolve_chrono_steps fmt brokers get_data_for t s chrono first n cnt acc)
    unfolding access_steps resolve_chrono_steps
    steps_chrono zero cnt acc ch = refl
    steps_chrono (suc n) cnt acc ch =
        ap (access_steps access t.num_logical_segments n (cnt + 1))
          (units_chrono cnt t.num_logical_segments 0 acc ch)
        ∙ steps_chrono n (cnt + 1) _ ch

  -- The accesses of a range are what `resolve_multi_data` does.
  accesses_resolve :
      (first last : ℕ) (s : S) (acc : Accessed)
      → first < last
      → access_steps
          (access (chrono_batch fmt.distributed t first last) first s)
          t.num_logical_segments
          (last - first)
          0
          (s, acc)
        ≡ (s, resolve_multi_data fmt brokers get_data_for t s first last acc)
  unfolding resolve_multi_data
  accesses_resolve first last s acc l = elim (Bool-cases fmt.chronological) [
    | inr ch ↦
        steps_plain (chrono_batch fmt.distributed t first last) first s (last - first) 0 acc ch
        ∙ ground (arith, ch)
    | inl ch ↦
        steps_chrono (chrono_batch fmt.distributed t first last) first s (last - first) 0 acc ch
        ∙ ground (arith, ch)
  ]

  -- The fetches keep the table.
  with_table-kept :
      (first last : ℕ) (acc : Accessed) (i : ℕ) (x y : S × Accessed)
      → i < length t.stream_brokers
      → x.1 ≡ acc
      → with_table fmt brokers get_data_for t (fetch_steps_for fmt brokers t first last none i) x
        ≡ some (IoStatus.success, y)
      → y.1 ≡ acc
  unfolding with_table
  with_table-kept first last acc i x y l k e =
      elim (Option-cases (fetch_steps_for fmt brokers t first last none i x.0)) [
        | inl n ↦ absurd (ground arith)
        | inr (r, n) ↦ ground arith
      ]

  -- `get_multi_data` of a range of steps, where it succeeds, leaves the table and the result for the shape
  -- that `resolve_multi_data` gives in the state that the fetches leave.
  pub get_multi_data_lem :
      (first last : ℕ) (s s' : S) (acc acc' : Accessed)
      → first < last
      → get_multi_data fmt brokers get_data_for t first last (s, acc)
        ≡ some (IoStatus.success, (s', acc'))
      → acc' ≡ resolve_multi_data fmt brokers get_data_for t s' first last acc
  unfolding get_multi_data
  get_multi_data_lem first last s s' acc acc' l e =
      let unit : ℕ → S × Accessed → Option (IoStatus × (S × Accessed)) = λ i.
        with_table fmt brokers get_data_for t (fetch_steps_for fmt brokers t first last none i) in
      let (u, q, r) =
        fetch_then_get_steps_lem unit (length t.stream_brokers) (s, acc) (s', acc') first last
          (access (chrono_batch fmt.distributed t first last) first s) t.num_logical_segments l e in
      let kept : u.1 ≡ acc =
        fetch_units_lem (λ i x. x.1 ≡ acc) unit (length t.stream_brokers)
          (with_table-kept first last acc) (length t.stream_brokers) 0 (s, acc) u (omega arith) refl
          q in
      let pair : u ≡ (u.0, acc) = ap (λ a. (u.0, a)) kept in
      let all =
        r
        ∙ ap
            (access_steps (access (chrono_batch fmt.distributed t first last) first s)
              t.num_logical_segments (last - first) 0)
            pair
        ∙ accesses_resolve first last u.0 acc l in
      subst (λ x. acc' ≡ resolve_multi_data fmt brokers get_data_for t x first last acc)
        (sym (ap (λ p. p.0) all)) (ap (λ p. p.1) all)
