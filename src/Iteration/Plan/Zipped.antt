-- ===== src/Iteration/Plan/Zipped.antt =====
-- `fetch` of a step and of a batch with the plan of the groups.
use sbio.Prelude.{
  ℕ, ◌+◌, ◌-◌, ◌%◌, ◌^◌, ◌<◌, ◌≡◌, sym, ◌∙◌, false, none, some, List, length, get_elem?, arith,
  Each,
}
use mathlib.Core.Path.{subst}
use sbio.Io.{IoStatus}
use sbio.Steps.{StepBatch}
use sbio.Topology.Mapping.{Format, StreamBrokers}
use sbio.BrokerGroup.{fetch_next_for, fetch_steps_for}
use sbio.BrokerGroup.Ranges.{
  IsBuffered, HasRange, fetch_next_for_lem, fetch_next_for-kept, fetch_steps_for_lem,
  fetch_steps_for-kept,
}
use sbio.Execution.Fetching.Loop.{
  fetch_then_get_lem, fetch_then_get_steps_lem, access_units_none, access_steps_none,
}
use sbio.Iteration.Plan.{
  Group, plan_fetches, fetch, fetch_batch, fetch_one, fetch_range_one, unit_of,
}
use sbio.Iteration.Plan.Planned.{has-Fills}
use sbio.Iteration.Plan.Complete.{plan_fetches_lem}
use sbio.Iteration.Plan.Fetched.{IsGroup, all_fetched}

module _ {S : Type 0} (fmt : Format) (brokers : StreamBrokers S)
    (holds : S → ℕ → ℕ → ℕ → ℕ → Type 0) (groups : List Group) (kind : ℕ) where
  -- For groups of one type that are built from their segments, in a format that is not Chronological: a
  -- fetch of a step by the groups' plan that succeeds leaves in the buffer of each StreamBroker of each
  -- group the ordinals that the step has there, although StreamBrokers are fetched once and buffers are
  -- shared.
  pub fetch_lem :
      (step : ℕ) (s s' : S)
      → fmt.chronological ≡ false
      → IsBuffered brokers holds
      → Each (IsGroup kind) groups
      → step + 1 < 2 ^ 64
      → fetch fmt brokers groups (plan_fetches groups) step s ≡ some (IoStatus.success, s')
      → (k b : ℕ) (g : Group) → get_elem? groups k ≡ some g
      → b < length g.topology.stream_brokers
      → HasRange fmt brokers holds g.topology b step (step + 1) s'
  unfolding fetch fetch_one
  fetch_lem step s s' ch law well l e k b g q m =
      let (plan, covers, _) = plan_fetches_lem groups (λ j u w. (well j u w).has_patterns) in
      let (t, units, same) =
        fetch_then_get_lem
          (unit_of fmt brokers groups (plan_fetches groups)
            (fetch_one fmt brokers groups (plan_fetches groups) step))
          (length (plan_fetches groups)) s s' (λ i x. x) 0 e in
      let next : (step + 1) % 2 ^ 64 ≡ step + 1 = omega arith in
      subst (HasRange fmt brokers holds g.topology b step (step + 1))
        (sym (same ∙ access_units_none (λ i x. x) 0 t))
        (subst (λ n. HasRange fmt brokers holds g.topology b step n t) next
          (all_fetched fmt brokers ch holds groups kind well (plan_fetches groups) plan step
            ((step + 1) % 2 ^ 64) (λ u c x. fetch_next_for fmt brokers u.topology step c x)
            (λ u c x x' i o z.
              let (y, p, f) = has-Fills u.topology c i.has_patterns o in
              subst (λ n. HasRange fmt brokers holds u.topology c step n x') (sym next)
                (fetch_next_for_lem fmt brokers ch holds law u.topology c y p i.has_segments f step
                  x x' l z))
            (λ u c y p x r d other lo hi i f z n o.
              fetch_next_for-kept fmt brokers ch holds law u.topology c y p i.has_segments f step x
                r d other lo hi z n o)
            s t units k b g q (covers k b g q m)))

  -- The same of a batch of steps.
  pub fetch_batch_lem :
      (batch : StepBatch) (s s' : S)
      → fmt.chronological ≡ false
      → IsBuffered brokers holds
      → Each (IsGroup kind) groups
      → batch.first < batch.last
      → fetch_batch fmt brokers groups (plan_fetches groups) batch s ≡ some (IoStatus.success, s')
      → (k b : ℕ) (g : Group) → get_elem? groups k ≡ some g
      → b < length g.topology.stream_brokers
      → HasRange fmt brokers holds g.topology b batch.first batch.last s'
  unfolding fetch_batch fetch_range_one
  fetch_batch_lem batch s s' ch law well l e k b g q m =
      let (plan, covers, _) = plan_fetches_lem groups (λ j u w. (well j u w).has_patterns) in
      let (t, units, same) =
        fetch_then_get_steps_lem
          (unit_of fmt brokers groups (plan_fetches groups)
            (fetch_range_one fmt brokers groups (plan_fetches groups) batch))
          (length (plan_fetches groups)) s s' batch.first batch.last (λ i c x. x) 0 l e in
      subst (HasRange fmt brokers holds g.topology b batch.first batch.last)
        (sym (same ∙ access_steps_none (λ i c x. x) (batch.last - batch.first) 0 t))
        (all_fetched fmt brokers ch holds groups kind well (plan_fetches groups) plan batch.first
          batch.last
          (λ u c x. fetch_steps_for fmt brokers u.topology batch.first batch.last none c x)
          (λ u c x x' i o z.
            let (y, p, f) = has-Fills u.topology c i.has_patterns o in
            fetch_steps_for_lem fmt brokers ch holds law u.topology c y p i.has_segments f
              batch.first batch.last x x' l z)
          (λ u c y p x r d other lo hi i f z n o.
            fetch_steps_for-kept fmt brokers ch holds law u.topology c y p i.has_segments f
              batch.first batch.last x r d other lo hi z n o)
          s t units k b g q (covers k b g q m))
