-- ===== src/Iteration/Plan.antt =====
-- `ZipFetchPlan`: the fetches that groups which are iterated together have in common. A `none` around
-- a result is a read outside of an array.
pub mod Scan
pub mod Planned
pub mod Complete
pub mod Fetched
pub mod Zipped
use sbio.Prelude.{
  ℕ, zero, suc, ◌+◌, ◌-◌, ◌%◌, ◌^◌, Bool, true, false, not, ◌&&◌, ◌||◌, Option, none, some, List,
  [], ◌∷◌, ◌++◌, length, get_elem?, ltb, ◌==◌, if◌then◌else◌,
}
use sbio.Io.{IoStatus, ok}
use sbio.Steps.{StepBatch}
use sbio.Topology.{GroupTopology}
use sbio.Topology.Mapping.{Format, StreamBrokers}
use sbio.BrokerGroup.{shares_fetch, shares_buffer, fetch_next_for, fetch_steps_for, fetch_range_for}
use sbio.Execution.Fetching.{fetch_then_get, fetch_then_get_steps}

-- A group: its type, as a number, and its topology.
pub record Group : Type 0 where
  pub kind : ℕ
  pub topology : GroupTopology

-- `buffer_of` is an earlier fetch that fills the same buffer; `none` is `NoFetch`.
pub record Fetch : Type 0 where
  pub group : ℕ
  pub broker_no : ℕ
  pub buffer_of : Option ℕ

-- Only groups of the same type are compared.
unfoldable pub shares :
    (GroupTopology → ℕ → GroupTopology → ℕ → Bool) → List Group → Group → ℕ → Fetch → Bool
shares test groups g broker_no f = elim (get_elem? groups f.group) [
  | none ↦ false
  | some other ↦ (g.kind == other.kind) && test g.topology broker_no other.topology f.broker_no
]

-- The loop over the fetches so far, from index `f` on.
unfoldable pub scan_fetches :
    List Group → Group → ℕ → List Fetch → ℕ → Bool → Option ℕ → Bool × Option ℕ
scan_fetches groups g broker_no [] f shared buffer_of = (shared, buffer_of)
scan_fetches groups g broker_no (x ∷ xs) f shared buffer_of =
    scan_fetches groups g broker_no xs (f + 1) (shared || shares shares_fetch groups g broker_no x)
      (elim buffer_of [
        | none ↦ if shares shares_buffer groups g broker_no x then some f else none
        | some i ↦ some i
      ])

-- The plan after a StreamBroker of the group.
unfoldable pub plan_broker : List Group → ℕ → Group → ℕ → List Fetch → List Fetch
plan_broker groups group g broker_no fetches =
    let (shared, buffer_of) = scan_fetches groups g broker_no fetches 0 false none in
    if not shared
    then fetches ++ record { group = group; broker_no = broker_no; buffer_of = buffer_of } ∷ []
    else fetches

-- `n` StreamBrokers of the group from `b` on.
unfoldable pub plan_group : List Group → ℕ → Group → ℕ → ℕ → List Fetch → List Fetch
plan_group groups group g zero b fetches = fetches
plan_group groups group g (suc n) b fetches =
    plan_group groups group g n (b + 1) (plan_broker groups group g b fetches)

-- The groups that are left, from index `group` on.
unfoldable pub plan_groups : List Group → List Group → ℕ → List Fetch → List Fetch
plan_groups groups [] group fetches = fetches
plan_groups groups (g ∷ gs) group fetches =
    plan_groups groups gs (group + 1)
      (plan_group groups group g (length g.topology.stream_brokers) 0 fetches)

unfoldable pub plan_fetches : List Group → List Fetch
plan_fetches groups = plan_groups groups groups 0 []

module _ {S : Type 0} (fmt : Format) (brokers : StreamBrokers S) (groups : List Group)
    (fetches : List Fetch) where
  unfoldable pub fetch_range : Fetch → ℕ → ℕ → Option (IoStatus × ℕ × ℕ)
  fetch_range f first last = elim (get_elem? groups f.group) [
    | none ↦ none
    | some g ↦ fetch_range_for fmt brokers g.topology first last f.broker_no
  ]

  -- `i` is the fetch with the same buffer.
  unfoldable pub check_shared_buffer : Fetch → ℕ → ℕ → ℕ → Option IoStatus
  check_shared_buffer f i first last = elim (fetch_range f first last) [
    | none ↦ none
    | some (status, first_ordinal, end_ordinal) ↦
        if not (ok status) then some status else elim (get_elem? fetches i) [
          | none ↦ none
          | some other ↦ elim (fetch_range other first last) [
            | none ↦ none
            | some (other_status, other_first, other_end) ↦ some (
                if not (ok other_status)
                then other_status
                else if (first_ordinal == other_first) && (end_ordinal == other_end)
                then IoStatus.success
                else IoStatus.buffer_conflict)
          ]
        ]
  ]

  -- The status of a check, with the state that it leaves alone.
  abbrev pub checked : Option IoStatus → S → Option (IoStatus × S)
  checked none s = none
  checked (some status) s = some (status, s)

  unfoldable pub fetch_one : ℕ → Fetch → S → Option (IoStatus × S)
  fetch_one step f s = elim f.buffer_of [
    | some i ↦ checked (check_shared_buffer f i step ((step + 1) % 2 ^ 64)) s
    | none ↦ elim (get_elem? groups f.group) [
      | none ↦ none
      | some g ↦ fetch_next_for fmt brokers g.topology step f.broker_no s
    ]
  ]

  unfoldable pub fetch_range_one : StepBatch → Fetch → S → Option (IoStatus × S)
  fetch_range_one batch f s = elim f.buffer_of [
    | some i ↦ checked (check_shared_buffer f i batch.first batch.last) s
    | none ↦ elim (get_elem? groups f.group) [
      | none ↦ none
      | some g ↦ fetch_steps_for fmt brokers g.topology batch.first batch.last none f.broker_no s
    ]
  ]

  -- One of the plan's fetches.
  abbrev pub unit_of : (Fetch → S → Option (IoStatus × S)) → ℕ → S → Option (IoStatus × S)
  unit_of run i s = elim (get_elem? fetches i) [ none ↦ none | some f ↦ run f s ]

  -- `fetch` of a step and of a batch, under a policy that fetches one after the other.
  unfoldable pub fetch : ℕ → S → Option (IoStatus × S)
  fetch step s = fetch_then_get (unit_of (fetch_one step)) (length fetches) (λ i t. t) 0 s

  unfoldable pub fetch_batch : StepBatch → S → Option (IoStatus × S)
  fetch_batch batch s =
      fetch_then_get_steps batch.first batch.last (unit_of (fetch_range_one batch)) (length fetches)
        (λ i cnt t. t) 0 s
