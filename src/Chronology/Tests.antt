-- ===== src/Chronology/Tests.antt =====
-- Two streams, and the theorems at the states that they pass through.
use sbio.Prelude.{
  ℕ, ◌+◌, ◌*◌, ◌<◌, ◌≡◌, ◌⊎◌, refl, true, false, none, some, List, [], ◌∷◌, ◌++◌, arith,
}
use sbio.Chronology.{
  ChronologicalOrder, Location, create, add, merge, set_exhausted, locate, size, may_index,
  num_brokers, front, is_exhausted, merge_loop, take_front, scan, scan_fronts, better, head_step,
  pop_front,
}
use sbio.Chronology.Merging.{Merging, merge_total}
use sbio.Chronology.Conserve.{steps_of, steps_of-merge}
use sbio.Chronology.Complete.{merge_complete, merge-merge, locate-merge}
use sbio.Chronology.Order.{IsTimely}
use sbio.Chronology.Order.Add.{Reached, start, indexed, merged, Reached-IsTimely}

-- Step `n` of StreamBroker `b` is at time `10 n + b`.
abbrev time : ℕ → ℕ → ℕ
time b n = 10 * n + b

-- StreamBroker 0 has two steps indexed, StreamBroker 1 has one.
abbrev queued : ChronologicalOrder
queued = record {
  order = [];
  pending = ((0, 0) ∷ (1, 10) ∷ []) ∷ ((0, 1) ∷ []) ∷ [];
  next_ordinal = 2 ∷ 1 ∷ [];
  exhausted = false ∷ false ∷ [];
}

abbrev placed : List Location
placed = record { broker = 0; ordinal = 0 } ∷ record { broker = 1; ordinal = 0 } ∷ []

-- The second step of StreamBroker 0 waits, since StreamBroker 1 may have an earlier one.
abbrev waiting : ChronologicalOrder
waiting = record {
  order = placed;
  pending = ((1, 10) ∷ []) ∷ [] ∷ [];
  next_ordinal = 2 ∷ 1 ∷ [];
  exhausted = false ∷ false ∷ [];
}

queued_by_add : add (add (add (create 2) 0 0 0) 1 0 1) 0 1 10 ≡ queued
unfolding add create
queued_by_add = refl

merge_runs : merge queued ≡ some (2, waiting)
unfolding merge merge_loop take_front scan scan_fronts better num_brokers is_exhausted head_step
    pop_front
merge_runs = refl

-- Once StreamBroker 1 is exhausted, the waiting step is merged too.
merge_after_exhaustion :
    merge (set_exhausted waiting 1)
    ≡ some (
      1,
      record (set_exhausted waiting 1) {
        order = placed ++ record { broker = 0; ordinal = 1 } ∷ [];
        pending = [] ∷ [] ∷ [];
      },
    )
unfolding merge merge_loop take_front scan scan_fronts better num_brokers is_exhausted head_step
    pop_front set_exhausted
merge_after_exhaustion = refl

queued_Reached : Reached time 2 queued
unfolding add create num_brokers is_exhausted
queued_Reached =
    indexed 0 1
      (indexed 1 0 (indexed 0 0 start (omega arith) refl (omega arith)) (omega arith) refl
        (omega arith))
      (omega arith) refl (omega arith)

Reached-IsTimely_example : IsTimely time waiting
Reached-IsTimely_example =
    Reached-IsTimely time 2 (λ b i j h. omega arith) (omega arith)
      (merged queued_Reached merge_runs)

merge_total_example :
    (k : ℕ) × (o' : ChronologicalOrder) × (merge queued ≡ some (k, o')) × Merging queued k o'
merge_total_example = merge_total queued

steps_of-merge_example : steps_of waiting 0 ≡ steps_of queued 0
unfolding num_brokers
steps_of-merge_example = steps_of-merge queued 0 (omega arith) merge_runs

merge_complete_example :
    ((b : ℕ) × (b < num_brokers waiting) × (may_index waiting b ≡ true))
    ⊎ ((b : ℕ)
        → b < num_brokers waiting
        → (front waiting b ≡ none) × (is_exhausted waiting b ≡ true))
merge_complete_example = merge_complete queued merge_runs

locate-merge_example : locate waiting 1 ≡ some (record { broker = 1; ordinal = 0 })
unfolding locate size
locate-merge_example = locate-merge waiting 1 (merge-merge queued merge_runs) refl
