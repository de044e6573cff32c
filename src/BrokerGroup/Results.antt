-- ===== src/BrokerGroup/Results.antt =====
-- The tables of pointers that a group fills: `resolve_data` and `resolve_multi_data`, with `get_data` and
-- `get_multi_data` without a callback. A pointer is a number, 0 the null pointer; an array that is not
-- read outside of its bounds is a function of its index.
pub mod Table
pub mod Single
mod Tests
pub mod Access
use sbio.Prelude.{
  ℕ, zero, suc, ◌+◌, ◌-◌, ◌*◌, ◌%◌, ◌^◌, Bool, true, false, not, ◌&&◌, Option, none, some,
  get_elem?, length, ltb, ◌==◌, if◌then◌else◌,
}
use sbio.Io.{IoStatus}
use sbio.Topology.{GroupTopology, locate, segment_index_for}
use sbio.Topology.Mapping.{Format, StreamBrokers}
use sbio.Broker.Index.{write}
use sbio.BrokerGroup.{
  ChronoBatch, chrono_batch, chrono_slot, batch_slot, fetch_next_for, fetch_steps_for,
}
use sbio.Execution.Fetching.{fetch_then_get, fetch_then_get_steps}

pub record DataResult : Type 0 where
  pub ptr : ℕ
  pub size : ℕ
  pub rank : ℕ
  pub shape : ℕ → ℕ
  pub dtype : ℕ

-- The table and the result that the composite takes its shape from.
pub record Accessed : Type 0 where
  pub ptr_tbl : ℕ → ℕ
  pub ref_res : DataResult

pub copy_ref : DataResult → DataResult → DataResult
copy_ref ref_res res = record {
  ptr = res.ptr;
  size = res.size;
  rank = res.rank;
  shape = λ j. if ltb j res.rank then res.shape j else ref_res.shape j;
  dtype = res.dtype;
}

-- `get_data_for` gives what is in the buffers for a segment and a place in its buffer.
module _ {S : Type 0} (fmt : Format) (brokers : StreamBrokers S)
    (get_data_for : S → ℕ → ℕ → DataResult) (t : GroupTopology) where
  -- The data of segment `i` is entered at its logical slot, from `base` on.
  pub enter_segment : S → ℕ → ℕ → ℕ → ℕ → Accessed → Accessed
  enter_segment s first cnt base i acc = elim (get_elem? t.segments i) [
    | none ↦ acc
    | some seg ↦
        let res = get_data_for s i (batch_slot fmt brokers t seg first cnt) in
        record {
          ptr_tbl = write acc.ptr_tbl (base + seg.logical_slot) res.ptr;
          ref_res = if (i == 0) && (cnt == 0) then copy_ref acc.ref_res res else acc.ref_res;
        }
  ]

  -- The data of the segment that holds a step, if any, is entered at an index.
  pub enter_located : S → Option (ℕ × ℕ) → ℕ → Accessed → Accessed
  enter_located s none index acc = record {
    ptr_tbl = write acc.ptr_tbl index 0;
    ref_res = acc.ref_res;
  }
  enter_located s (some (seg_idx, slot)) index acc =
      let res = get_data_for s seg_idx slot in
      record {
        ptr_tbl = write acc.ptr_tbl index res.ptr;
        ref_res = if acc.ref_res.ptr == 0 then copy_ref acc.ref_res res else acc.ref_res;
      }

  -- `n` segments from `i` on, for the step at `cnt` of a batch.
  pub resolve_segments : S → ℕ → ℕ → ℕ → ℕ → Accessed → Accessed
  resolve_segments s first cnt zero i acc = acc
  resolve_segments s first cnt (suc n) i acc =
      resolve_segments s first cnt n (i + 1)
        (enter_segment s first cnt (cnt * t.num_logical_segments) i acc)

  -- `n` logical slots from `l` on; `none` is a batch that could not be located.
  pub resolve_slots : S → Option ChronoBatch → ℕ → ℕ → ℕ → ℕ → Accessed → Accessed
  resolve_slots s chrono first cnt zero l acc = acc
  resolve_slots s chrono first cnt (suc n) l acc = resolve_slots s chrono first cnt n (l + 1) (
      enter_located s
        (elim chrono [
          | none ↦ none
          | some batch ↦ chrono_slot fmt brokers t batch ((first + cnt) % 2 ^ 64) l
        ])
        (cnt * t.num_logical_segments + l) acc)

  -- `n` steps from `cnt` on.
  pub resolve_steps : S → ℕ → ℕ → ℕ → Accessed → Accessed
  resolve_steps s first zero cnt acc = acc
  resolve_steps s first (suc n) cnt acc =
      resolve_steps s first n (cnt + 1) (resolve_segments s first cnt t.num_logical_segments 0 acc)

  pub resolve_chrono_steps : S → Option ChronoBatch → ℕ → ℕ → ℕ → Accessed → Accessed
  resolve_chrono_steps s chrono first zero cnt acc = acc
  resolve_chrono_steps s chrono first (suc n) cnt acc =
      resolve_chrono_steps s chrono first n (cnt + 1)
        (resolve_slots s chrono first cnt t.num_logical_segments 0 acc)

  -- From the table as it is.
  pub resolve_multi_data : S → ℕ → ℕ → Accessed → Accessed
  resolve_multi_data s first last acc =
      let count = if ltb first last then last - first else 1 in
      if not fmt.chronological
      then resolve_steps s first count 0 acc
      else resolve_chrono_steps s (chrono_batch fmt.distributed t first last) first count 0 acc

  -- The accesses of `get_multi_data`, on the state of the StreamBrokers and the table.
  pub access_of : Option ChronoBatch → ℕ → ℕ → ℕ → S × Accessed → S × Accessed
  access_of chrono first i cnt (s, acc) = (
    s,
    if fmt.chronological
        then enter_located s
            (elim chrono [
              | none ↦ none
              | some batch ↦ chrono_slot fmt brokers t batch ((first + cnt) % 2 ^ 64) i
            ])
            (cnt * t.num_logical_segments + i) acc
        else enter_segment s first cnt (cnt * t.num_logical_segments) i acc,
  )

  -- A fetch leaves the table alone.
  pub with_table : (S → Option (IoStatus × S)) → S × Accessed → Option (IoStatus × (S × Accessed))
  with_table run (s, acc) = elim (run s) [
    | none ↦ none
    | some (status, s') ↦ some (status, (s', acc))
  ]

  pub get_multi_data : ℕ → ℕ → S × Accessed → Option (IoStatus × (S × Accessed))
  get_multi_data first last st =
      fetch_then_get_steps first last
        (λ i. with_table (fetch_steps_for fmt brokers t first last none i))
        (length t.stream_brokers) (access_of (chrono_batch fmt.distributed t first last) first)
        t.num_logical_segments st
