-- ===== src/Result/Tests.antt =====
-- The array of a batch of two steps of a segment with three rows of four elements.
use sbio.Prelude.{
  ℕ, zero, suc, ◌+◌, ◌*◌, ◌≤◌, ◌<◌, ◌≡◌, ◌⊎◌, refl, true, none, some, arith, ◌==◌, if◌then◌else◌,
}
use sbio.Broker.Index.{write}
use sbio.Result.{
  CompositeDataResult, ArrayMetadata, table_axes, data_axes, first_data, composite_rank, to_array,
  max_ndim,
}
use sbio.Result.Layout.{volume, position, offset, to_array_lem}

abbrev batch : CompositeDataResult
batch = record {
  table = λ i. 0;
  num_segments = 1;
  batch_count = 2;
  segment_rank = 2;
  segment_shape = λ k. if k == 0 then 3 else 4;
  dtype = 0;
  batched = true;
}

abbrev unset : ArrayMetadata
unset = record { ndim = 0; shape = λ k. 0; strides = λ k. 0; suboffsets = λ k. none }

abbrev two_bytes : ℕ → ℕ
two_bytes dtype = 2

-- The last row.
abbrev last_row : ℕ → ℕ
last_row k = if k == 0 then 2 else 1

last_row_below : (k : ℕ) → k < 2 → last_row k < batch.segment_shape k
last_row_below zero l = omega arith
last_row_below (suc zero) l = omega arith
last_row_below (suc (suc k)) l = absurd (omega arith)

to_array_lem_example :
    ((first_data batch + 2 ≤ max_ndim)
      × (w : ArrayMetadata) × (to_array 8 two_bytes batch unset ≡ some w)
      × (w.ndim ≡ first_data batch + 2)
      × (offset w (first_data batch) last_row 2 ≡ 2 * position batch.segment_shape last_row 2)
      × (position batch.segment_shape last_row 2 < volume batch.segment_shape 2)
      × ((k : ℕ)
          → k < 2
          → (w.shape (first_data batch + k) ≡ batch.segment_shape k)
            × (w.suboffsets (first_data batch + k) ≡ none)))
    ⊎ ((max_ndim < first_data batch + 2) × (to_array 8 two_bytes batch unset ≡ none))
to_array_lem_example = to_array_lem 8 two_bytes batch unset last_row (omega arith) last_row_below

-- The array of the batch.
abbrev made : ArrayMetadata
made = record {
  ndim = 4;
  shape = write (write (write (write unset.shape 0 2) 1 1) 3 4) 2 3;
  strides = write (write (write (write unset.strides 0 8) 1 1) 3 2) 2 8;
  suboffsets = write (write (write (write unset.suboffsets 0 (some 0)) 1 none) 3 none) 2 none;
}

batch-made : to_array 8 two_bytes batch unset ≡ some made
unfolding to_array data_axes first_data composite_rank table_axes
batch-made = refl

last_row-offset : offset made 2 last_row 2 ≡ 18
unfolding offset
last_row-offset = refl

-- Nine axes of a batched segment are too many.
abbrev deep : CompositeDataResult
deep = record batch { segment_rank = 9 }

deep_overruns : to_array 8 two_bytes deep unset ≡ none
unfolding to_array data_axes first_data composite_rank table_axes
deep_overruns = refl
