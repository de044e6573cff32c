-- ===== src/Iteration/Ranges/Batches.antt =====
-- The batches of a DataSource with several groups, each unit on its own (`SerialDistribution`).
use sbio.Prelude.{
  ℕ, zero, suc, ◌+◌, ◌≤◌, ◌<◌, ◌≡◌, refl, sym, ap, Bool, true, false, Option, some, List, [], ◌∷◌,
  map, length, get_elem?, arith, ◌==◌, Each, Each-cons, Each-nil, ℕ_discrete,
}
use mathlib.Core.Path.{subst}
use sbio.Io.{IoStatus}
use sbio.Steps.{exhausted_sentinel, StepBatch, Tiles}
use sbio.Topology.Mapping.{Format, StreamBrokers}
use sbio.BrokerGroup.Ranges.{IsBuffered, HasRange}
use sbio.Execution.Serial.{Source, Iteration, next_impl, batch_end, next_batch_impl}
use sbio.Execution.Serial.Batches.{IsGrowing, next_impl_ready}
use sbio.Iteration.Plan.{Group, plan_fetches, fetch_batch}
use sbio.Iteration.Plan.Fetched.{IsGroup}
use sbio.Iteration.Plan.Zipped.{fetch_batch_lem}
use sbio.Iteration.Ranges.{Handle, zip}
use sbio.Iteration.Ranges.Visited.{Gives, zip_lem}

abbrev pub is_exhausted_batch : StepBatch → Bool
is_exhausted_batch batch = batch.first == exhausted_sentinel

module _ {E S : Type 0} (src : Source E) (grows : IsGrowing src) (k : ℕ)
    (fetch_at_once : StepBatch → S → Option (IoStatus × S)) where
  batch_drained :
      (st : Iteration E)
      → st.event_idx ≡ src.capacity st.env
      → (src.trigger st.env).0 ≡ false
      → is_exhausted_batch (next_batch_impl src k st).0 ≡ true
  unfolding next_impl next_batch_impl
  batch_drained st e q = ground (arith, e, q)

  -- Within the capacity a batch follows at the index, and the state of the caller is kept.
  batch_ready :
      (st : Iteration E)
      → st.event_idx < src.capacity st.env
      → src.capacity st.env + k < exhausted_sentinel
      → (last : ℕ) × (next_batch_impl src k st ≡ (
        record { first = st.event_idx; last = last },
        record { event_idx = last; env = st.env },
      ))
        × (st.event_idx < last)
        × (last ≤ src.capacity st.env)
  unfolding next_batch_impl batch_end
  batch_ready st l w =
      let ready = next_impl_ready src grows st l in
      let small = grows.small st.env in
      (
        batch_end src k st.event_idx st,
        ground (arith, ready, small),
        ground (arith, small),
        ground (arith, small),
      )

  -- The batches up to the capacity, where the trigger finds no more; there are `n` steps at most.
  next_batch_impl-Gives :
      (n : ℕ) (st : Iteration E)
      → src.capacity st.env ≤ st.event_idx + n
      → st.event_idx ≤ src.capacity st.env
      → src.capacity st.env + k < exhausted_sentinel
      → (src.trigger st.env).0 ≡ false
      → (batches : List StepBatch) × Gives
          (next_batch_impl src k)
          is_exhausted_batch
          fetch_at_once
          st
          batches
        × Tiles st.event_idx batches (src.capacity st.env)
        × (length batches ≤ n)
  unfolding Gives
  next_batch_impl-Gives zero st h within w q =
      let e : st.event_idx ≡ src.capacity st.env = omega arith in
      ([], batch_drained st e q, e, omega arith)
  next_batch_impl-Gives (suc n) st h within w q =
      elim (ℕ_discrete st.event_idx (src.capacity st.env)) [
        | yes e ↦ ([], batch_drained st e q, e, omega arith)
        | no e ↦
            let (last, r, l, m) = batch_ready st (omega arith) w in
            let after : Iteration E = record { event_idx = last; env = st.env } in
            let (batches, g, t, b) = next_batch_impl-Gives n after (omega arith) m w q in
            (
              record { first = st.event_idx; last = last } ∷ batches,
              (
                ap (λ x. x.0) r,
                ground (arith, grows.small st.env),
                subst
                    (λ x. Gives (next_batch_impl src k) is_exhausted_batch fetch_at_once x batches)
                    (sym (ap (λ x. x.1) r)) g,
              ),
              (refl, l, t),
              ground (arith, b),
            )
      ]

each_nonempty : (lo hi : ℕ) (bs : List StepBatch) → Tiles lo bs hi → Each (λ b. b.first < b.last) bs
each_nonempty lo hi [] t = Each-nil (λ b. b.first < b.last)
each_nonempty lo hi (b ∷ bs) (e, l, t) =
    Each-cons (λ b. b.first < b.last) b bs l (each_nonempty b.last hi bs t)

module _ {E S : Type 0} (src : Source E) (fmt : Format) (brokers : StreamBrokers S)
    (holds : S → ℕ → ℕ → ℕ → ℕ → Type 0) (groups : List Group) (kind : ℕ) where
  -- The buffers of the groups hold a batch.
  abbrev pub IsBatchFetched : StepBatch → S → Type 0
  IsBatchFetched batch s =
      (j b : ℕ) (g : Group)
      → get_elem? groups j ≡ some g
      → b < length g.topology.stream_brokers
      → HasRange fmt brokers holds g.topology b batch.first batch.last s

  abbrev fetch_at_once : StepBatch → S → Option (IoStatus × S)
  fetch_at_once batch s = fetch_batch fmt brokers groups (plan_fetches groups) batch s

  -- The loop over the batches of a DataSource with its groups, of `k` steps or 1 for a size of 0, for
  -- each unit on its own and in a format that is not Chronological, where the DataSource has at most `n`
  -- steps from the unit's index on and nothing more to index, the groups are of one type and built from
  -- their segments, and no fetch reads outside of an array: the loop returns, its body has had batches
  -- that follow one another without a gap or an overlap from the index to the capacity, and wherever the
  -- status is success all groups have the steps of the batch in their buffers.
  pub zip_batches_lem :
      (k n : ℕ) (st : Iteration E) (s : S)
      → IsGrowing src
      → src.capacity st.env ≤ st.event_idx + n
      → st.event_idx ≤ src.capacity st.env
      → src.capacity st.env + k < exhausted_sentinel
      → (src.trigger st.env).0 ≡ false
      → fmt.chronological ≡ false
      → IsBuffered brokers holds
      → Each (IsGroup kind) groups
      → ((batch : StepBatch) (x : S) → (r : IoStatus × S) × (fetch_at_once batch x ≡ some r))
      → (visits : List (Handle StepBatch × S)) × (zip
            (next_batch_impl src k)
            is_exhausted_batch
            fetch_at_once
            (n + 1)
            st
            s
          ≡ some visits)
        × Tiles st.event_idx (map (λ x. x.0.value) visits) (src.capacity st.env)
        × Each (λ x. x.0.status ≡ IoStatus.success → IsBatchFetched x.0.value x.1) visits
  zip_batches_lem k n st s grows h within w q ch law well f =
      let (batches, g, t, b) = next_batch_impl-Gives src grows k fetch_at_once n st h within w q in
      let (visits, e, v, values, fetched) =
        zip_lem (next_batch_impl src k) is_exhausted_batch fetch_at_once (λ x. x.first < x.last)
          IsBatchFetched
          (λ x y y' l z. fetch_batch_lem fmt brokers holds groups kind x y y' ch law well l z)
          batches (n + 1) st s g (omega (arith, b))
          (each_nonempty st.event_idx (src.capacity st.env) batches t) f in
      (visits, e, subst (λ x. Tiles st.event_idx x (src.capacity st.env)) (sym values) t, fetched)
