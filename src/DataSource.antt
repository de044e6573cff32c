-- ===== src/DataSource.antt =====
-- src/lib/sbio/core/datasource.hh: how a DataSource has its StreamBrokers index more steps. A stream is a
-- StreamBroker with its configurations of chunks to come, none where `m_pending_chunks` has no entry.
pub mod Rounds
pub mod Measure
pub mod Trigger
pub mod Entered
pub mod Discover
mod Tests
use sbio.Prelude.{
  ℕ, zero, suc, ◌+◌, ◌%◌, ◌^◌, Bool, true, false, not, ◌&&◌, ◌||◌, Option, none, some, List, [],
  ◌∷◌, length, ltb, ◌==◌, if◌then◌else◌,
}
use sbio.Io.{IoStatus, ok}
use sbio.Chronology.{ChronologicalOrder, create, may_index, set_exhausted, add, merge, size}

-- The operations of a StreamBroker; `steps` is what `visit_steps` visits, ordinals with order keys.
pub record StreamBroker (B C : Type 0) : Type 0 where
  pub prepare : B → IoStatus × B
  pub index_stream : B → IoStatus × B
  pub capacity : B → ℕ
  pub chunk_complete : B → Bool
  pub advance_chunk : C → B → B
  pub num_steps : B → List ℕ
  pub steps : B → List (ℕ × ℕ)

-- `chronology` is the order; a source that does not merge its streams leaves it alone.
pub record DataSource (B C : Type 0) : Type 0 where
  pub streams : List (B × List C)
  pub steps_capacity : ℕ
  pub chronology : ChronologicalOrder

abbrev pub is_zero_bytes_read : IoStatus → Bool
is_zero_bytes_read IoStatus.zero_bytes_read = true
is_zero_bytes_read other = false

abbrev pub sum : List ℕ → ℕ
sum [] = 0
sum (n ∷ ns) = n + sum ns

module _ {B C : Type 0} (ops : StreamBroker B C) where
  pub advance_chunk_if_done : B → List C → B × List C
  advance_chunk_if_done b [] = (b, [])
  advance_chunk_if_done b (c ∷ cs) =
      if ops.chunk_complete b then (ops.advance_chunk c b, cs) else (b, c ∷ cs)

  -- The loop through chunks without steps: a round takes a chunk.
  pub skip_chunks : IoStatus → B → List C → IoStatus × B × List C
  skip_chunks status b [] = (status, b, [])
  skip_chunks status b (c ∷ cs) =
      let (next_status, next) = ops.index_stream (ops.advance_chunk c b) in
      let rest = skip_chunks next_status next cs in
      if is_zero_bytes_read status && ops.chunk_complete b then rest else (status, b, c ∷ cs)

  -- A stream is indexed, on from a chunk that is complete.
  pub index_next : B → List C → IoStatus × B × List C
  index_next b cs =
      let (b', cs') = advance_chunk_if_done b cs in
      let (status, b'') = ops.index_stream b' in skip_chunks status b'' cs'

  pub add_steps : ℕ → List (ℕ × ℕ) → ChronologicalOrder → ChronologicalOrder
  add_steps n [] o = o
  add_steps n ((ordinal, key) ∷ rest) o = add_steps n rest (add o n ordinal key)

  pub add_indexed_steps : ℕ → B → ChronologicalOrder → ChronologicalOrder
  add_indexed_steps n b o =
      if sum (ops.num_steps b) == 0 then set_exhausted o n else add_steps n (ops.steps b) o

  -- The order once a stream was indexed.
  pub enter_indexed : ℕ → IoStatus → B → ChronologicalOrder → ChronologicalOrder
  enter_indexed n status b o = if ok status then add_indexed_steps n b o else set_exhausted o n

  -- The streams from number `n` on; whether one was indexed.
  pub index_streams :
      ℕ → List (B × List C) → ChronologicalOrder → Bool × List (B × List C) × ChronologicalOrder
  index_streams n [] o = (false, [], o)
  index_streams n ((b, cs) ∷ rest) o =
      let (status, b', cs') = index_next b cs in
      let now = may_index o n in
      let (indexed, streams, o') =
        index_streams (n + 1) rest (if now then enter_indexed n status b' o else o) in
      if now then (true, (b', cs') ∷ streams, o') else (indexed, (b, cs) ∷ streams, o')

  -- The `while (true)` on fuel.
  pub merge_trigger : ℕ → DataSource B C → Option (Bool × DataSource B C)
  merge_trigger zero ds = none
  merge_trigger (suc fuel) ds =
      let (indexed, streams, o) = index_streams 0 ds.streams ds.chronology in
      elim (merge o) [
        | none ↦ none
        | some (merged, o') ↦ elim (ltb 0 merged) [
          | true ↦
              some (true, record { streams = streams; steps_capacity = size o'; chronology = o' })
          | false ↦ elim indexed [
            | true ↦
                merge_trigger fuel (record {
                  streams = streams;
                  steps_capacity = ds.steps_capacity;
                  chronology = o';
                })
            | false ↦ some (
              false,
              record { streams = streams; steps_capacity = ds.steps_capacity; chronology = o' },
            )
          ]
        ]
      ]

  -- The trigger without an order: the capacities of the streams that were indexed, added up for a
  -- Chronological format and their maximum for another; whether a stream failed.
  pub index_all : Bool → List (B × List C) → ℕ → Bool → ℕ × Bool × List (B × List C)
  index_all chronological [] total failed = (total, failed, [])
  index_all chronological ((b, cs) ∷ rest) total failed =
      let (status, b', cs') = index_next b cs in
      let n = ops.capacity b' in
      let more = if chronological then (total + n) % 2 ^ 64 else if ltb total n then n else total in
      let (all, any_failed, streams) =
        index_all chronological rest (if ok status then more else total)
          (if ok status then failed else true) in
      (all, any_failed, (b', cs') ∷ streams)

  pub reindex_trigger : Bool → DataSource B C → Bool × DataSource B C
  reindex_trigger chronological ds =
      let (total, failed, streams) = index_all chronological ds.streams 0 false in
      (
        ltb 0 total,
        record {
          streams = streams;
          steps_capacity =
              if failed then ds.steps_capacity else (ds.steps_capacity + total) % 2 ^ 64;
          chronology = ds.chronology;
        },
      )

  -- Each stream is prepared and indexed, up to one that fails; with the largest capacity.
  pub discover_streams : List (B × List C) → ℕ → IoStatus × ℕ × List (B × List C)
  discover_streams [] capacity = (IoStatus.success, capacity, [])
  discover_streams ((b, cs) ∷ rest) capacity =
      let (prepared, b') = ops.prepare b in
      let (indexed, b'') = ops.index_stream b' in
      let n = ops.capacity b'' in
      let (status, most, streams) =
        discover_streams rest (if ltb capacity n then n else capacity) in
      if not (ok prepared)
      then (prepared, capacity, (b', cs) ∷ rest)
      else if not (ok indexed)
      then (indexed, capacity, (b'', cs) ∷ rest)
      else (status, most, (b'', cs) ∷ streams)

  pub add_streams : ℕ → List (B × List C) → ChronologicalOrder → ChronologicalOrder
  add_streams n [] o = o
  add_streams n ((b, cs) ∷ rest) o = add_streams (n + 1) rest (add_indexed_steps n b o)

  -- `merges` is the constant `MergesStreams`.
  pub discover_metadata : Bool → DataSource B C → Option (IoStatus × DataSource B C)
  discover_metadata merges ds =
      let (status, capacity, streams) = discover_streams ds.streams 0 in
      if not (ok status)
      then some (
        status,
        record {
          streams = streams;
          steps_capacity = ds.steps_capacity;
          chronology = ds.chronology;
        },
      )
      else if not merges
      then some (
        IoStatus.success,
        record { streams = streams; steps_capacity = capacity; chronology = ds.chronology },
      )
      else elim (merge (add_streams 0 streams (create (length streams)))) [
        | none ↦ none
        | some (merged, o) ↦ some (
          IoStatus.success,
          record { streams = streams; steps_capacity = size o; chronology = o },
        )
      ]
