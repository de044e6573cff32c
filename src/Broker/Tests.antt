-- ===== src/Broker/Tests.antt =====
-- A file of five units of two kinds, and an index of three of them.
use sbio.Prelude.{
  ℕ, ◌%◌, ◌≤◌, ◌<◌, ◌≡◌, refl, false, Option, none, some, arith, ◌==◌, if◌then◌else◌,
}
use sbio.Io.{IoStatus, ReadResult, classify_read, Got}
use sbio.Broker.Index.{StepOffset, StreamCatalog, ByteRegion, write, find_row, preceding}
use sbio.Broker.Index.Linked.{IsLinked, add_unit, unit_row, with_next}
use sbio.Broker.Index.Linked.Grow.{add_unit-IsLinked}
use sbio.Broker.Index.Find.{IsStep, find_row_lem}
use sbio.Broker.Index.Preceding.{preceding_lem, Latest, preceding_result}
use sbio.Broker.Index.Scan.{
  IndexFormat, carry_kinds, carry_kind, carried_row, clear_kind, no_rows, generic_index, next_epoch,
}
use sbio.Broker.Fetch.{SegmentCursor, Reader, generic_fetch_range}
use sbio.Broker.Fetch.Range.{generic_fetch_range_lem}
use sbio.Broker.Index.Scan.Carried.{carry_kinds_lem}
use sbio.Broker.Index.Scan.Units.{Result}
use sbio.Broker.Index.Scan.Batch.{IsBatch, generic_index_lem, next_epoch-IsLinked}

abbrev region : ℕ → ByteRegion
region pos = record { offset = pos; length = 1; stream = 0 }

-- Units of one byte, of which every third is of kind 1.
abbrev units : IndexFormat
units = record {
  num_kinds = 2;
  header_size = 1;
  locate_bytes = λ pos. 1;
  kind_for_step = λ pos. some (if pos % 3 == 1 then 1 else 0);
  starts_chunk = λ pos. false;
  locate_step = λ kind pos. region pos;
  order_key = λ pos. pos;
  unit_size = λ pos. 1;
}

abbrev read_all : ℕ → ℕ → ReadResult
read_all offset size = classify_read (Got.got size) size

abbrev no_catalog : StreamCatalog
no_catalog = record {
  index_epoch = 0;
  num_steps = λ k. 0;
  cummulative_steps = λ k. 0;
  num_rows = 0;
  chunk_complete = false;
  first_row = λ k. none;
  last_row = λ k. none;
}

abbrev clear_rows : ℕ → StepOffset
clear_rows r = record {
  region = region 0;
  next_of_kind = none;
  prev_of_kind = none;
  step_kind = 0;
  ordinal = 0;
  order_key = 0;
}

kinds_fit : (unit kind : ℕ) → units.kind_for_step unit ≡ some kind → kind < 2
kinds_fit unit kind e = ground arith

generic_index_lem_example :
    (r : Result) × (generic_index units read_all 5 2 4 0 no_catalog clear_rows ≡ some r)
    × IsBatch 2 4 (carry_kinds 2 no_catalog clear_rows).0.num_rows no_catalog r
generic_index_lem_example =
    generic_index_lem units read_all 5 2 4 0 no_catalog clear_rows kinds_fit
      (λ h. absurd (omega arith))

abbrev Rows : Type 0
Rows = StreamCatalog × (ℕ → StepOffset)

abbrev with_none : Rows
with_none = carry_kinds 2 no_catalog clear_rows

abbrev with_one : Rows
with_one = add_unit with_none.0 with_none.1 (region 0) 0 0

abbrev with_two : Rows
with_two = add_unit with_one.0 with_one.1 (region 1) 1 1

abbrev with_three : Rows
with_three = add_unit with_two.0 with_two.1 (region 2) 0 2

abbrev indexed : StreamCatalog
indexed = next_epoch with_three.0

with_none-IsLinked : IsLinked 2 with_none.0 with_none.1
with_none-IsLinked =
    (carry_kinds_lem 2 no_catalog clear_rows (λ h. absurd (omega arith)) 2 (omega arith)).linked

with_two-IsLinked : IsLinked 2 with_two.0 with_two.1
with_two-IsLinked =
    add_unit-IsLinked 2 with_one.0 with_one.1 (region 1) 1 1
      (add_unit-IsLinked 2 with_none.0 with_none.1 (region 0) 0 0 with_none-IsLinked (omega arith))
      (omega arith)

with_three-IsLinked : IsLinked 2 with_three.0 with_three.1
with_three-IsLinked =
    add_unit-IsLinked 2 with_two.0 with_two.1 (region 2) 0 2 with_two-IsLinked (omega arith)

indexed-IsLinked : IsLinked 2 indexed with_three.1
indexed-IsLinked = next_epoch-IsLinked 2 with_three.0 with_three.1 with_three-IsLinked

find_row_lem_example :
    (r : ℕ) × (find_row indexed with_three.1 0 1 7 ≡ some (IoStatus.success, some r))
    × IsStep indexed with_three.1 0 1 r
unfolding next_epoch add_unit unit_row with_next carry_kinds carry_kind carried_row clear_kind
    no_rows
find_row_lem_example =
    find_row_lem 2 indexed with_three.1 0 indexed-IsLinked (omega arith) 1 7 0 (omega arith) refl
      (omega arith) (omega arith)

preceding_lem_example :
    (ref_row : ℕ) × (s : Option ℕ) × IsStep indexed with_three.1 0 1 ref_row
    × Latest indexed with_three.1 1 ref_row s
    × (preceding indexed with_three.1 1 0 1 (λ k. 9)
        ≡ some (preceding_result with_three.1 (write (λ k. 9) 0 ref_row) 1 s))
unfolding next_epoch add_unit unit_row with_next carry_kinds carry_kind carried_row clear_kind
    no_rows
preceding_lem_example =
    preceding_lem 2 indexed with_three.1 1 0 1 0 (λ k. 9) indexed-IsLinked (omega arith)
      (omega arith) (omega arith) (omega arith) refl (omega arith) (omega arith)

abbrev clear_cursor : SegmentCursor
clear_cursor = record { offset_index = λ k. 0; last_region = region 0; read_count = 0 }

abbrev read_region : Reader
read_region stream offset size = record { status = IoStatus.success; bytes = size }

-- The steps 0 and 1 of kind 0 stand in the rows 0 and 2.
generic_fetch_range_lem_example :
    (status : IoStatus) × (last_row total : ℕ) × IsStep indexed with_three.1 0 1 last_row
    × (total ≤ 2)
    × (generic_fetch_range read_region 2 indexed with_three.1 0 0 2 clear_cursor
        ≡ some (
          status,
          record {
            offset_index = write clear_cursor.offset_index 0 last_row;
            last_region = (with_three.1 last_row).region;
            read_count = total;
          },
        ))
unfolding next_epoch add_unit unit_row with_next carry_kinds carry_kind carried_row clear_kind
    no_rows
generic_fetch_range_lem_example =
    generic_fetch_range_lem 2 indexed with_three.1 0 indexed-IsLinked (omega arith) read_region 2
      (λ stream offset size. omega arith) 0 1 0 clear_cursor (omega arith) refl (omega arith)
      (omega arith) (omega arith)
