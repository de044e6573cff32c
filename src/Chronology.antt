-- ===== src/Chronology.antt =====
-- src/lib/sbio/core/chronology.hh: the merge of the streams of a Chronological format by time.
pub mod Fronts
pub mod Merging
pub mod Conserve
pub mod Complete
pub mod Order
mod Tests
use sbio.Prelude.{
  ℕ, zero, suc, ◌+◌, ◌%◌, ◌^◌, Bool, true, false, not, ◌&&◌, ◌||◌, Option, none, some, List, [],
  ◌∷◌, ◌++◌, length, get_elem?, get_or, set, replicate, ltb, leb, ◌==◌, if◌then◌else◌,
}

-- `ChronologicalOrder::Location`: a StreamBroker (uint32_t) and a step's ordinal in it (uint64_t).
pub record Location : Type 0 where
  pub broker : ℕ
  pub ordinal : ℕ

-- A pending step: its ordinal and its order key, as in `std::pair<uint64_t, uint64_t>`.
abbrev pub PendingStep : Type 0
PendingStep = ℕ × ℕ

pub record ChronologicalOrder : Type 0 where
  pub order : List Location
  pub pending : List (List PendingStep)
  pub next_ordinal : List ℕ
  pub exhausted : List Bool

-- The members read at a StreamBroker's position. The code indexes only below `num_brokers`.
abbrev pub pending_of : ChronologicalOrder → ℕ → List PendingStep
pending_of o b = get_or o.pending b []

abbrev pub next_ordinal_of : ChronologicalOrder → ℕ → ℕ
next_ordinal_of o b = get_or o.next_ordinal b 0

unfoldable pub is_exhausted : ChronologicalOrder → ℕ → Bool
is_exhausted o b = get_or o.exhausted b false

pub is_empty : List PendingStep → Bool
is_empty [] = true
is_empty (s ∷ q) = false

-- The constructor for a number of StreamBrokers.
unfoldable pub create : ℕ → ChronologicalOrder
create num_brokers = record {
  order = [];
  pending = replicate num_brokers [];
  next_ordinal = replicate num_brokers 0;
  exhausted = replicate num_brokers false;
}

unfoldable pub size : ChronologicalOrder → ℕ
size o = length o.order

unfoldable pub num_brokers : ChronologicalOrder → ℕ
num_brokers o = length o.pending

-- `none` is the `false` of a step that has not been merged.
pub locate : ChronologicalOrder → ℕ → Option Location
locate o step = if leb (size o) step then none else get_elem? o.order step

unfoldable pub may_index : ChronologicalOrder → ℕ → Bool
may_index o b = not (is_exhausted o b) && is_empty (pending_of o b)

unfoldable pub set_exhausted : ChronologicalOrder → ℕ → ChronologicalOrder
set_exhausted o b = record o { exhausted = set o.exhausted b true }

-- `m_next_ordinal` is a uint64_t, so the increment wraps.
unfoldable pub add : ChronologicalOrder → ℕ → ℕ → ℕ → ChronologicalOrder
add o b ordinal key = if ltb ordinal (next_ordinal_of o b) then o else record o {
  pending = set o.pending b (pending_of o b ++ (ordinal, key) ∷ []);
  next_ordinal = set o.next_ordinal b ((ordinal + 1) % 2 ^ 64);
}

-- `m_pending[b].front()`, with `none` for an empty queue.
pub head_step : List PendingStep → Option PendingStep
head_step [] = none
head_step (s ∷ q) = some s

abbrev pub front : ChronologicalOrder → ℕ → Option PendingStep
front o b = head_step (pending_of o b)

abbrev pub step_key : Option PendingStep → ℕ
step_key none = 0
step_key (some s) = s.1

abbrev pub step_ordinal : Option PendingStep → ℕ
step_ordinal none = 0
step_ordinal (some s) = s.0

pub pop_front : List PendingStep → List PendingStep
pop_front [] = []
pop_front (s ∷ q) = q

-- The test on `best` of the inner loop of `merge`: ties go to the StreamBroker that stands first.
pub better : ChronologicalOrder → ℕ → PendingStep → ℕ → ℕ
better o b s best = if best == num_brokers o || ltb s.1 (step_key (front o best)) then b else best

-- The inner loop of `merge`, with the rounds that are left. `none` is its `return merged`: the
-- StreamBroker `b` is not exhausted and has no pending step.
pub scan_fronts : ChronologicalOrder → ℕ → ℕ → ℕ → Option ℕ
scan_fronts o zero b best = some best
scan_fronts o (suc n) b best = elim (front o b) [
  | none ↦ elim (is_exhausted o b) [ true ↦ scan_fronts o n (b + 1) best | false ↦ none ]
  | some s ↦ scan_fronts o n (b + 1) (better o b s best)
]

-- The scan from the state at the head of the `while`.
pub scan : ChronologicalOrder → Option ℕ
scan o = scan_fronts o (num_brokers o) 0 (num_brokers o)

-- `static_cast<uint32_t>(best)` wraps.
pub take_front : ChronologicalOrder → ℕ → ChronologicalOrder
take_front o best = record o {
  order = o.order ++ record { broker = best % 2 ^ 32; ordinal = step_ordinal (front o best) } ∷ [];
  pending = set o.pending best (pop_front (pending_of o best));
}

-- The `while (true)` of `merge` on fuel; `none` means that the fuel ran out. The count of merged
-- steps is that of steps held in memory, and does not wrap.
pub merge_loop : ℕ → ChronologicalOrder → ℕ → Option (ℕ × ChronologicalOrder)
merge_loop zero o merged = none
merge_loop (suc fuel) o merged = elim (scan o) [
  | none ↦ some (merged, o)
  | some best ↦ elim (best == num_brokers o) [
    | true ↦ some (merged, o)
    | false ↦ merge_loop fuel (take_front o best) (merged + 1)
  ]
]

abbrev pub count_steps : List (List PendingStep) → ℕ
count_steps [] = 0
count_steps (q ∷ qs) = length q + count_steps qs

-- `merge`: a round takes a pending step, so one more round than there are such steps is enough.
pub merge : ChronologicalOrder → Option (ℕ × ChronologicalOrder)
merge o = merge_loop (suc (count_steps o.pending)) o 0
