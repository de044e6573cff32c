-- ===== src/Broker/Index/Scan.antt =====
-- `generic_index` of core/broker.hh: the last row of each kind is carried over, then the stream is read
-- on in spans and a row is added for each unit.
pub mod Carried
pub mod Units
pub mod Batch
use sbio.Prelude.{
  ℕ, zero, suc, ◌+◌, ◌-◌, ◌≤◌, ◌<◌, Bool, true, false, not, ◌&&◌, ◌||◌, Option, none, some, ltb,
  leb, ◌==◌, if◌then◌else◌,
}
use sbio.Io.{IoStatus, ReadResult, read_span, ok}
use sbio.Broker.Index.{StepOffset, StreamCatalog, ByteRegion, write}
use sbio.Broker.Index.Linked.{add_unit}

-- What the data format tells of the unit at a position of the file. A format without `starts_chunk`
-- never says so; `locate_step` has the slot of the indexed stream in it.
pub record IndexFormat : Type 0 where
  pub num_kinds : ℕ
  pub header_size : ℕ
  pub locate_bytes : ℕ → ℕ
  pub kind_for_step : ℕ → Option ℕ
  pub starts_chunk : ℕ → Bool
  pub locate_step : ℕ → ℕ → ByteRegion
  pub order_key : ℕ → ℕ
  pub unit_size : ℕ → ℕ

unfoldable pub alone : StepOffset → StepOffset
alone step = record {
  region = step.region;
  next_of_kind = none;
  prev_of_kind = none;
  step_kind = step.step_kind;
  ordinal = step.ordinal;
  order_key = step.order_key;
}

-- The row of kind `k` that is carried over, from the catalog and the rows before.
unfoldable pub carried_row : StreamCatalog → (ℕ → StepOffset) → ℕ → Option StepOffset
carried_row c rows k = elim (c.last_row k) [
  | none ↦ none
  | some l ↦ if ltb 0 c.index_epoch then some (rows l) else none
]

unfoldable pub clear_kind : StreamCatalog → ℕ → StreamCatalog
clear_kind c k = record {
  index_epoch = c.index_epoch;
  num_steps = write c.num_steps k 0;
  cummulative_steps = c.cummulative_steps;
  num_rows = c.num_rows;
  chunk_complete = c.chunk_complete;
  first_row = write c.first_row k none;
  last_row = write c.last_row k none;
}

unfoldable pub carry_kind :
    Option StepOffset → ℕ → StreamCatalog → (ℕ → StepOffset) → StreamCatalog × (ℕ → StepOffset)
carry_kind none k c rows = (clear_kind c k, rows)
carry_kind (some step) k c rows = (
  record {
    index_epoch = c.index_epoch;
    num_steps = write c.num_steps k 0;
    cummulative_steps = c.cummulative_steps;
    num_rows = c.num_rows + 1;
    chunk_complete = c.chunk_complete;
    first_row = write c.first_row k (some c.num_rows);
    last_row = write c.last_row k (some c.num_rows);
  },
  write rows c.num_rows (alone step),
)

unfoldable pub no_rows : StreamCatalog → StreamCatalog
no_rows c = record {
  index_epoch = c.index_epoch;
  num_steps = c.num_steps;
  cummulative_steps = c.cummulative_steps;
  num_rows = 0;
  chunk_complete = c.chunk_complete;
  first_row = c.first_row;
  last_row = c.last_row;
}

-- The loop over the first `n` kinds.
unfoldable pub carry_kinds : ℕ → StreamCatalog → (ℕ → StepOffset) → StreamCatalog × (ℕ → StepOffset)
carry_kinds zero c rows = (no_rows c, rows)
carry_kinds (suc n) c rows =
    let (d, kept) = carry_kinds n c rows in carry_kind (carried_row c rows n) n d kept

-- How far a scan came: `used` counts the bytes of the span that were taken.
pub record Scanned : Type 0 where
  pub catalog : StreamCatalog
  pub rows : ℕ → StepOffset
  pub used : ℕ
  pub at_end : Bool

unfoldable pub set_chunk_complete : StreamCatalog → StreamCatalog
set_chunk_complete c = record {
  index_epoch = c.index_epoch;
  num_steps = c.num_steps;
  cummulative_steps = c.cummulative_steps;
  num_rows = c.num_rows;
  chunk_complete = true;
  first_row = c.first_row;
  last_row = c.last_row;
}

unfoldable pub next_epoch : StreamCatalog → StreamCatalog
next_epoch c = record {
  index_epoch = c.index_epoch + 1;
  num_steps = c.num_steps;
  cummulative_steps = c.cummulative_steps;
  num_rows = c.num_rows;
  chunk_complete = c.chunk_complete;
  first_row = c.first_row;
  last_row = c.last_row;
}

-- The scan found the end of what it can index.
unfoldable pub stop_at : Scanned → StreamCatalog → Scanned
stop_at s c = record { catalog = c; rows = s.rows; used = s.used; at_end = true }

-- A span of no bytes ends the scan; only at the end of the file is that no error.
unfoldable pub empty_span : IoStatus → IoStatus
empty_span IoStatus.zero_bytes_read = IoStatus.success
empty_span other = other

-- The beginning of a span.
unfoldable pub span_start : StreamCatalog → (ℕ → StepOffset) → Scanned
span_start c rows = record { catalog = c; rows = rows; used = 0; at_end = false }

module _ (format : IndexFormat) where
  -- A unit of a kind, at a position of the file, is taken.
  unfoldable pub with_unit : ℕ → ℕ → Scanned → Scanned
  with_unit kind unit s =
      let (d, added) =
        add_unit s.catalog s.rows (format.locate_step kind unit) kind (format.order_key unit) in
      record { catalog = d; rows = added; used = s.used + format.unit_size unit; at_end = s.at_end }

  -- The inner `while` over a span of `bytes` at `pos`, on fuel; each round adds a row.
  pub scan_units : ℕ → ℕ → ℕ → ℕ → ℕ → Scanned → Option Scanned
  scan_units zero capacity carried pos bytes s = none
  scan_units (suc fuel) capacity carried pos bytes s =
      let c = s.catalog in
      let unit = pos + s.used in
      elim (leb (s.used + format.header_size) bytes && ltb c.num_rows capacity) [
        | false ↦ some s
        | true ↦ elim (ltb bytes (s.used + format.locate_bytes unit)) [
          | true ↦ some s
          | false ↦ elim (format.kind_for_step unit) [
            | none ↦ some (stop_at s c)
            | some kind ↦ elim (ltb carried c.num_rows && format.starts_chunk unit) [
              | true ↦ some (stop_at s (set_chunk_complete c))
              | false ↦ scan_units fuel capacity carried pos bytes (with_unit kind unit s)
            ]
          ]
        ]
      ]

  -- The outer `while` over the spans, from a status of success, on fuel: a round that goes on has added
  -- a row. The result has the status, the catalog, the rows and the position.
  pub scan_spans :
      ℕ
      → (ℕ → ℕ → ReadResult)
      → ℕ
      → ℕ
      → ℕ
      → ℕ
      → ℕ
      → StreamCatalog
      → (ℕ → StepOffset)
      → Option (IoStatus × StreamCatalog × (ℕ → StepOffset) × ℕ)
  scan_spans zero read file_size scratch_size capacity carried pos c rows = none
  scan_spans (suc fuel) read file_size scratch_size capacity carried pos c rows =
      elim (ltb c.num_rows capacity) [
        | false ↦ some (IoStatus.success, c, rows, pos)
        | true ↦
            let res = read_span read file_size pos scratch_size in
            elim res.bytes [
              | zero ↦ some (empty_span res.status, c, rows, pos)
              | suc more ↦
                  elim (scan_units (suc capacity) capacity carried pos (suc more)
                    (span_start c rows)) [
                      | none ↦ none
                      | some s ↦ elim s.at_end [
                        | true ↦ some (IoStatus.success, s.catalog, s.rows, pos + s.used)
                        | false ↦ elim s.used [
                          | zero ↦ some (
                            if leb file_size (pos + suc more)
                                then IoStatus.success
                                else IoStatus.payload_truncated_error,
                            s.catalog,
                            s.rows,
                            pos,
                          )
                          | suc used ↦
                              scan_spans fuel read file_size scratch_size capacity carried
                                (pos + suc used) s.catalog s.rows
                        ]
                      ]
                    ]
            ]
      ]

  -- The end of the routine.
  pub finish_index :
      ℕ
      → ℕ
      → IoStatus × StreamCatalog × (ℕ → StepOffset) × ℕ
      → IoStatus × StreamCatalog × (ℕ → StepOffset) × ℕ
  finish_index file_size carried (status, c, rows, pos) =
      let d = next_epoch (if leb file_size pos then set_chunk_complete c else c) in
      (
        if ok status
            then (if ltb carried d.num_rows then IoStatus.success else IoStatus.zero_bytes_read)
            else status,
        d,
        rows,
        pos,
      )

  pub generic_index :
      (ℕ → ℕ → ReadResult)
      → ℕ
      → ℕ
      → ℕ
      → ℕ
      → StreamCatalog
      → (ℕ → StepOffset)
      → Option (IoStatus × StreamCatalog × (ℕ → StepOffset) × ℕ)
  generic_index read file_size scratch_size capacity pos c rows =
      let (d, kept) = carry_kinds format.num_kinds c rows in
      let carried = d.num_rows in
      elim (if leb capacity carried
        then some (IoStatus.payload_truncated_error, d, kept, pos)
        else scan_spans (suc capacity) read file_size scratch_size capacity carried pos d kept) [
          | none ↦ none
          | some result ↦ some (finish_index file_size carried result)
        ]
