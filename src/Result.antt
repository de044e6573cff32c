-- ===== src/Result.antt =====
-- The results of a BrokerGroup as arrays: `CompositeDataResult` and its `to_array` (core/result.hh), and
-- the composites of `get_data` and `get_multi_data` (core/broker_group.hh). What the array library does
-- with the axes is not part of it: its metadata comes in as it is before anything is set.
pub mod Layout
mod Tests
use sbio.Prelude.{
  ℕ, zero, suc, ◌+◌, ◌-◌, ◌*◌, ◌%◌, ◌^◌, Bool, true, false, Option, none, some, ltb, if◌then◌else◌,
}
use sbio.Io.{IoStatus, ok}
use sbio.Topology.{GroupTopology}
use sbio.Broker.Index.{write}
use sbio.BrokerGroup.Results.{Accessed}

pub record CompositeDataResult : Type 0 where
  pub table : ℕ → ℕ
  pub num_segments : ℕ
  pub batch_count : ℕ
  pub segment_rank : ℕ
  pub segment_shape : ℕ → ℕ
  pub dtype : ℕ
  pub batched : Bool

-- The composite of one step; one of a fetch that failed has no segments.
pub composite : IoStatus → GroupTopology → Accessed → CompositeDataResult
composite status t acc = record {
  table = acc.ptr_tbl;
  num_segments = if ok status then t.num_logical_segments else 0;
  batch_count = 1;
  segment_rank = acc.ref_res.rank;
  segment_shape = acc.ref_res.shape;
  dtype = acc.ref_res.dtype;
  batched = false;
}

-- The composite of `count` steps.
pub multi_composite : IoStatus → ℕ → GroupTopology → Accessed → CompositeDataResult
multi_composite status count t acc = record {
  table = acc.ptr_tbl;
  num_segments = if ok status then t.num_logical_segments else 0;
  batch_count = count;
  segment_rank = acc.ref_res.rank;
  segment_shape = acc.ref_res.shape;
  dtype = acc.ref_res.dtype;
  batched = true;
}

-- The axes that the arrays of the metadata and of a shape have room for, NCARRAY_MAX_NDIM of the array
-- library.
abbrev pub max_ndim : ℕ
max_ndim = 10

-- The metadata of an array; a suboffset `none` is -1.
pub record ArrayMetadata : Type 0 where
  pub ndim : ℕ
  pub shape : ℕ → ℕ
  pub strides : ℕ → ℕ
  pub suboffsets : ℕ → Option ℕ

pub first_data : CompositeDataResult → ℕ
first_data c = if c.batched then 2 else 1

pub composite_rank : CompositeDataResult → ℕ
composite_rank c =
    let rank = (c.segment_rank + 1) % 2 ^ 16 in if c.batched then (rank + 1) % 2 ^ 16 else rank

-- A pointer has `pointer_size` bytes and an element of a type as many as `itemsize` says.
module _ (pointer_size : ℕ) (itemsize : ℕ → ℕ) where
  -- The axes of the pointer table.
  pub table_axes : CompositeDataResult → ArrayMetadata → ArrayMetadata
  table_axes c v =
      if c.batched
      then record {
        ndim = v.ndim;
        shape = write (write v.shape 0 c.batch_count) 1 c.num_segments;
        strides = write (write v.strides 0 (c.num_segments * pointer_size)) 1 1;
        suboffsets = write (write v.suboffsets 0 (some 0)) 1 none;
      }
      else record {
        ndim = v.ndim;
        shape = write v.shape 0 c.num_segments;
        strides = write v.strides 0 pointer_size;
        suboffsets = write v.suboffsets 0 (some 0);
      }

  -- The loop over the axes of the data, `n` of them from `first_data` on, the last one first. `none` is
  -- an access outside of the arrays, which the code does not check for.
  pub data_axes : (ℕ → ℕ) → ℕ → ℕ → ℕ → ArrayMetadata → Option ArrayMetadata
  data_axes segment_shape first_data zero cur v = some v
  data_axes segment_shape first_data (suc n) cur v =
      let rest = data_axes segment_shape first_data n (cur * segment_shape n) (record {
        ndim = v.ndim;
        shape = write v.shape (first_data + n) (segment_shape n);
        strides = write v.strides (first_data + n) cur;
        suboffsets = write v.suboffsets (first_data + n) none;
      }) in
      if ltb (first_data + n) max_ndim then rest else none

  pub to_array : CompositeDataResult → ArrayMetadata → Option ArrayMetadata
  to_array c v =
      elim (data_axes c.segment_shape (first_data c) (composite_rank c - first_data c)
        (itemsize c.dtype) (table_axes c v)) [
          | none ↦ none
          | some axes ↦ some (record {
            ndim = composite_rank c;
            shape = axes.shape;
            strides = axes.strides;
            suboffsets = axes.suboffsets;
          })
        ]
