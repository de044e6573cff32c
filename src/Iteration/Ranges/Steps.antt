-- ===== src/Iteration/Ranges/Steps.antt =====
-- The steps of a DataSource with several groups, each unit on its own (`SerialDistribution`).
use sbio.Prelude.{
  ℕ, zero, suc, ◌+◌, ◌<◌, ◌≡◌, refl, sym, ap, Bool, true, false, Option, some, List, map, length,
  get_elem?, arith, ◌^◌, ◌==◌, Each, Each-cons, Each-nil,
}
use mathlib.Core.Path.{subst}
use sbio.Io.{IoStatus}
use sbio.Steps.{exhausted_sentinel, steps_from}
use sbio.Topology.Mapping.{Format, StreamBrokers}
use sbio.BrokerGroup.Ranges.{IsBuffered, HasRange}
use sbio.Execution.Serial.{Source, Iteration, next_impl}
use sbio.Execution.Serial.Batches.{IsGrowing, next_impl_ready}
use sbio.Iteration.Plan.{Group, plan_fetches, fetch}
use sbio.Iteration.Plan.Fetched.{IsGroup}
use sbio.Iteration.Plan.Zipped.{fetch_lem}
use sbio.Iteration.Ranges.{Handle, zip}
use sbio.Iteration.Ranges.Visited.{Gives, visit, zip_lem}

abbrev pub is_exhausted : ℕ → Bool
is_exhausted step = step == exhausted_sentinel

module _ {E S : Type 0} (src : Source E) (grows : IsGrowing src)
    (fetch_step : ℕ → S → Option (IoStatus × S)) where
  next_impl_drained :
      (st : Iteration E)
      → st.event_idx ≡ src.capacity st.env
      → (src.trigger st.env).0 ≡ false
      → is_exhausted (next_impl src st).0 ≡ true
  unfolding next_impl
  next_impl_drained st e q = ground (arith, e, q)

  -- The steps up to the capacity, where the trigger finds no more.
  next_impl-Gives :
      (n : ℕ) (st : Iteration E)
      → st.event_idx + n ≡ src.capacity st.env
      → (src.trigger st.env).0 ≡ false
      → Gives (next_impl src) is_exhausted fetch_step st (steps_from st.event_idx n)
  unfolding Gives
  next_impl-Gives zero st e q = next_impl_drained st (omega arith) q
  next_impl-Gives (suc n) st e q =
      let ready = next_impl_ready src grows st (omega arith) in
      let small = grows.small st.env in
      let after : Iteration E = record st { event_idx = st.event_idx + 1 } in
      let i = next_impl-Gives n after (omega arith) q in
      (
        ap (λ r. r.0) ready,
        ground (arith, small),
        subst
            (λ x. Gives (next_impl src) is_exhausted fetch_step x (steps_from (suc st.event_idx) n))
            (sym (ap (λ r. r.1) ready))
            (subst (λ k. Gives (next_impl src) is_exhausted fetch_step after (steps_from k n))
              (omega arith) i),
      )

length-steps_from : (n i : ℕ) → length (steps_from i n) ≡ n
length-steps_from zero i = refl
length-steps_from (suc n) i = ap suc (length-steps_from n (suc i))

below : (n i : ℕ) → i + n < 2 ^ 64 → Each (λ v. v + 1 < 2 ^ 64) (steps_from i n)
below zero i l = Each-nil (λ v. v + 1 < 2 ^ 64)
below (suc n) i l =
    Each-cons (λ v. v + 1 < 2 ^ 64) i (steps_from (suc i) n) (omega arith)
      (below n (suc i) (omega arith))

module _ {E S : Type 0} (src : Source E) (fmt : Format) (brokers : StreamBrokers S)
    (holds : S → ℕ → ℕ → ℕ → ℕ → Type 0) (groups : List Group) (kind : ℕ) where
  -- The buffers of the groups hold a step.
  abbrev pub IsFetched : ℕ → S → Type 0
  IsFetched step s =
      (k b : ℕ) (g : Group)
      → get_elem? groups k ≡ some g
      → b < length g.topology.stream_brokers
      → HasRange fmt brokers holds g.topology b step (step + 1) s

  abbrev fetch_step : ℕ → S → Option (IoStatus × S)
  fetch_step step s = fetch fmt brokers groups (plan_fetches groups) step s

  -- The loop over the steps of a DataSource with its groups, for each unit on its own and in a format
  -- that is not Chronological, where the DataSource has `n` steps from the unit's index on and nothing
  -- more to index, the groups are of one type and built from their segments, and no fetch reads outside
  -- of an array: the loop returns after the fetches of these steps in turn; its body has had each step
  -- once and in order, and wherever the status is success all groups have the step in their buffers.
  pub zip_steps_lem :
      (n : ℕ) (st : Iteration E) (s : S)
      → IsGrowing src
      → st.event_idx + n ≡ src.capacity st.env
      → (src.trigger st.env).0 ≡ false
      → fmt.chronological ≡ false
      → IsBuffered brokers holds
      → Each (IsGroup kind) groups
      → ((step : ℕ) (x : S) → (r : IoStatus × S) × (fetch_step step x ≡ some r))
      → (visits : List (Handle ℕ × S)) × (zip (next_impl src) is_exhausted fetch_step (n + 1) st s
          ≡ some visits)
        × (visit (next_impl src) is_exhausted fetch_step (steps_from st.event_idx n) s
            ≡ some visits)
        × (map (λ x. x.0.value) visits ≡ steps_from st.event_idx n)
        × Each (λ x. x.0.status ≡ IoStatus.success → IsFetched x.0.value x.1) visits
  zip_steps_lem n st s grows e q ch law well f =
      zip_lem (next_impl src) is_exhausted fetch_step (λ v. v + 1 < 2 ^ 64) IsFetched
        (λ v x x' l z. fetch_lem fmt brokers holds groups kind v x x' ch law well l z)
        (steps_from st.event_idx n) (n + 1) st s (next_impl-Gives src grows fetch_step n st e q)
        (omega (arith, length-steps_from n st.event_idx))
        (below n st.event_idx (omega (arith, e, grows.small st.env))) f
