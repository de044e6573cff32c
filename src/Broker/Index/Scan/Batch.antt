-- ===== src/Broker/Index/Scan/Batch.antt =====
-- A batch of the index as a whole.
use sbio.Prelude.{
  ℕ, suc, ◌+◌, ◌≤◌, ◌<◌, ◌≡◌, ap, some, inl, inr, arith, leb, if◌then◌else◌, Bool-cases, dec_lt,
}
use sbio.Io.{IoStatus, ReadResult}
use sbio.Broker.Index.{StepOffset, StreamCatalog}
use sbio.Broker.Index.Linked.{IsLinked}
use sbio.Broker.Index.Scan.{
  IndexFormat, carry_kinds, finish_index, generic_index, next_epoch, set_chunk_complete,
}
use sbio.Broker.Index.Scan.Carried.{IsCarried, carry_kinds_lem}
use sbio.Broker.Index.Scan.Units.{IsGrown, Result, scan_spans_lem, set_chunk_complete-IsGrown}

-- The state after a batch on the catalog `c`: linked rows, in which the steps of this batch are counted
-- on from those before, within the capacity where it exceeds the rows carried over.
pub record IsBatch (kinds capacity carried : ℕ) (c : StreamCatalog) (r : Result) : Type 0 where
  pub linked : IsLinked kinds r.1 r.2
  pub counts :
      (j : ℕ) → j < kinds → r.1.cummulative_steps j ≡ c.cummulative_steps j + r.1.num_steps j
  pub epoch : r.1.index_epoch ≡ c.index_epoch + 1
  pub within : carried < capacity → r.1.num_rows ≤ capacity
  pub found : r.0 ≡ IoStatus.success → carried < r.1.num_rows

pub next_epoch-IsLinked :
    (kinds : ℕ) (d : StreamCatalog) (rows : ℕ → StepOffset)
    → IsLinked kinds d rows
    → IsLinked kinds (next_epoch d) rows
unfolding next_epoch
next_epoch-IsLinked kinds d rows i = record {
  kind_bound = i.kind_bound;
  next_some = i.next_some;
  next_gap = i.next_gap;
  next_none = i.next_none;
  end_gap = i.end_gap;
  prev_some = i.prev_some;
  prev_gap = i.prev_gap;
  prev_none = i.prev_none;
  first_some = i.first_some;
  first_gap = i.first_gap;
  first_none = i.first_none;
  last_some = i.last_some;
  last_none = i.last_none;
}

module _ (format : IndexFormat) (file_size carried capacity bound : ℕ) (c : StreamCatalog) where
  ended :
      (r : Result)
      → IsGrown format.num_kinds bound c r.1 r.2
      → (carried < capacity → bound ≤ capacity)
      → IsBatch format.num_kinds capacity carried c (finish_index format file_size carried r)
  unfolding finish_index next_epoch
  ended (status, d, rows, pos) g h =
      let e = if leb file_size pos then set_chunk_complete d else d in
      let k = chosen in
      record {
        linked = next_epoch-IsLinked format.num_kinds e rows k.linked;
        counts = k.counts;
        epoch = ap suc_of k.epoch;
        within = λ l. omega (arith, k.within, h l);
        found = λ s. ground (arith, s);
      }
    where
      suc_of : ℕ → ℕ
      suc_of n = n + 1

      chosen :
          IsGrown format.num_kinds bound c
            (if leb file_size pos then set_chunk_complete d else d)
            rows
      chosen = elim (Bool-cases (leb file_size pos)) [
        | inl b ↦ rw b (set_chunk_complete-IsGrown format.num_kinds bound c d rows g)
        | inr b ↦ rw b g
      ]

-- Whatever the file holds and the reads give, indexing a batch ends, for a format whose kinds are in
-- range and on rows that are linked if there was a batch before. It leaves linked rows, with the steps
-- of each kind counted on from those before. The rows are not more than the buffer holds, if that is
-- more than were carried over; success means that rows were added to those.
pub generic_index_lem :
    (format : IndexFormat) (read : ℕ → ℕ → ReadResult) (file_size scratch_size capacity pos : ℕ)
    (c : StreamCatalog) (rows : ℕ → StepOffset)
    → ((unit kind : ℕ) → format.kind_for_step unit ≡ some kind → kind < format.num_kinds)
    → (0 < c.index_epoch → IsLinked format.num_kinds c rows)
    → (r : Result) × (generic_index format read file_size scratch_size capacity pos c rows ≡ some r)
      × IsBatch format.num_kinds capacity (carry_kinds format.num_kinds c rows).0.num_rows c r
unfolding generic_index
generic_index_lem format read file_size scratch_size capacity pos c rows fit i =
    let (d, kept) = carry_kinds format.num_kinds c rows in
    let k = carry_kinds_lem format.num_kinds c rows i format.num_kinds (omega arith) in
    elim (dec_lt d.num_rows capacity) [
      | no l ↦ (
        finish_index format file_size d.num_rows (IoStatus.payload_truncated_error, d, kept, pos),
        ground arith,
        ended format file_size d.num_rows capacity d.num_rows c _ (start k d.num_rows (omega arith))
            (λ m. absurd (l m)),
      )
      | yes l ↦
          let (r, w, g) =
            scan_spans_lem format capacity c fit (suc capacity) read file_size scratch_size
              d.num_rows pos d kept (start k capacity (omega arith)) (omega arith) in
          (
            finish_index format file_size d.num_rows r,
            ground (arith, w),
            ended format file_size d.num_rows capacity capacity c r g (λ m. omega arith),
          )
    ]
  where
    start :
        {d : StreamCatalog} {kept : ℕ → StepOffset}
        → IsCarried format.num_kinds c d kept
        → (bound : ℕ) → d.num_rows ≤ bound
        → IsGrown format.num_kinds bound c d kept
    start k bound l = record {
      linked = k.linked;
      counts = λ j p. omega (arith, k.counts j, k.no_steps j p);
      epoch = k.epoch;
      within = l;
    }
