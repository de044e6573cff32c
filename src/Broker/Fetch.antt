-- ===== src/Broker/Fetch.antt =====
-- `generic_fetch` and `generic_fetch_range` of core/broker.hh, with `SegmentCursor` of
-- core/state_handle.hh. What is read is counted; the bytes themselves are left out.
pub mod Range
use sbio.Prelude.{
  ℕ, zero, suc, ◌+◌, ◌-◌, ◌%◌, ◌^◌, ◌≤◌, ◌<◌, Bool, true, false, not, ◌&&◌, Option, none, some, ltb,
  leb, ◌==◌, if◌then◌else◌,
}
use sbio.Io.{IoStatus, ReadResult, ok}
use sbio.Broker.Index.{ByteRegion, StepOffset, StreamCatalog, write, find_row}

-- The cursor without the cache of payload offsets, which these routines leave alone.
pub record SegmentCursor : Type 0 where
  pub offset_index : ℕ → ℕ
  pub last_region : ByteRegion
  pub read_count : ℕ

-- A read of a region: of its stream, at its offset, of its length.
abbrev pub Reader : Type 0
Reader = ℕ → ℕ → ℕ → ReadResult

-- `buf_size` is the size of the data buffer of the access pattern.
pub generic_fetch :
    Reader
    → ℕ
    → StreamCatalog
    → (ℕ → StepOffset)
    → ℕ
    → ℕ
    → SegmentCursor
    → Option (IoStatus × SegmentCursor)
generic_fetch read buf_size c rows kind step_idx cursor =
    elim (find_row c rows kind step_idx (cursor.offset_index kind)) [
      | none ↦ none
      | some (status, none) ↦ some (status, cursor)
      | some (status, some row) ↦
          let region = (rows row).region in
          let res = read region.stream region.offset region.length in
          some (
            if ltb buf_size region.length
            then (
              IoStatus.payload_truncated_error,
              record {
                offset_index = write cursor.offset_index kind row;
                last_region = region;
                read_count = cursor.read_count;
              },
            )
            else (
              res.status,
              record {
                offset_index = write cursor.offset_index kind row;
                last_region = region;
                read_count = res.bytes;
              },
            ))
    ]

-- The `for` over the steps that are left, from a status of success. The outer `none` is a read outside
-- of the rows, past the last one of a kind.
pub read_steps : ℕ → Reader → ℕ → (ℕ → StepOffset) → Option ℕ → ℕ → Option (IoStatus × ℕ)
read_steps zero read buf_size rows r total = some (IoStatus.success, total)
read_steps (suc n) read buf_size rows none total = none
read_steps (suc n) read buf_size rows (some r) total =
    let region = (rows r).region in
    let res = read region.stream region.offset region.length in
    elim (ltb buf_size (total + region.length)) [
      | true ↦ some (IoStatus.payload_truncated_error, total)
      | false ↦ elim (ok res.status) [
        | true ↦ read_steps n read buf_size rows (rows r).next_of_kind (total + res.bytes)
        | false ↦ some (res.status, total + res.bytes)
      ]
    ]

-- The regions of the first and the last step can be read at once.
pub one_span : ByteRegion → ByteRegion → Bool
one_span first last = (first.stream == last.stream) && leb first.offset last.offset

pub span : ByteRegion → ByteRegion → ℕ
span first last = last.offset + last.length - first.offset

-- Reading between two rows: in one read where that fits, or else step by step.
pub read_range : Reader → ℕ → (ℕ → StepOffset) → ℕ → ℕ → ℕ → Option (IoStatus × ℕ)
read_range read buf_size rows first_row last_row count =
    let first = (rows first_row).region in
    let last = (rows last_row).region in
    let res = read first.stream first.offset (span first last) in
    if one_span first last && leb (span first last) buf_size
    then some (res.status, res.bytes)
    else read_steps count read buf_size rows (some first_row) 0

-- The last ordinal is computed modulo the word.
pub generic_fetch_range :
    Reader
    → ℕ
    → StreamCatalog
    → (ℕ → StepOffset)
    → ℕ
    → ℕ
    → ℕ
    → SegmentCursor
    → Option (IoStatus × SegmentCursor)
generic_fetch_range read buf_size c rows kind first count cursor =
    elim (find_row c rows kind first (cursor.offset_index kind)) [
      | none ↦ none
      | some (status, none) ↦ some (status, cursor)
      | some (status, some first_row) ↦
          elim (find_row c rows kind ((first + count + 2 ^ 64 - 1) % 2 ^ 64) first_row) [
            | none ↦ none
            | some (failed, none) ↦ some (failed, cursor)
            | some (found, some last_row) ↦
                elim (read_range read buf_size rows first_row last_row count) [
                  | none ↦ none
                  | some (result, total) ↦ some (
                    result,
                    record {
                      offset_index = write cursor.offset_index kind last_row;
                      last_region = (rows last_row).region;
                      read_count = total;
                    },
                  )
                ]
          ]
    ]
