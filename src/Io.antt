-- ===== src/Io.antt =====
-- Results of reads: core/io.hh and the span reads of core/stream.hh.
use sbio.Prelude.{ℕ, ◌+◌, ◌-◌, Bool, true, false, ltb, leb, ◌==◌, if◌then◌else◌, ◌≡◌, refl, arith}

pub data IoStatus : Type 0 where
  success : IoStatus
  pending : IoStatus
  would_block : IoStatus
  open_failed : IoStatus
  general_io_error : IoStatus
  zero_bytes_read : IoStatus
  truncated_read : IoStatus
  function_unavailable : IoStatus
  no_offset_in_data : IoStatus
  header_read_error : IoStatus
  payload_truncated_error : IoStatus
  all_requested_read : IoStatus
  buffer_conflict : IoStatus

pub record ReadResult : Type 0 where
  pub status : IoStatus
  pub bytes : ℕ

abbrev pub ok : IoStatus → Bool
ok IoStatus.success = true
ok other = false

pub ok_lem : (s : IoStatus) → ok s ≡ true → s ≡ IoStatus.success
ok_lem IoStatus.success h = refl
ok_lem s h = ground arith

-- The count that an engine got: bytes, or an error.
pub data Got : Type 0 where
  failed : Got
  got : ℕ → Got

unfoldable pub classify_read : Got → ℕ → ReadResult
classify_read failed want = record { status = IoStatus.general_io_error; bytes = 0 }
classify_read (got n) want =
    if n == 0 then record { status = IoStatus.zero_bytes_read; bytes = 0 } else record {
      status = if n == want then IoStatus.success else IoStatus.truncated_read;
      bytes = n;
    }

-- `Stream::read_span`, over the engine's `read` and the size of its file.
unfoldable pub read_span : (ℕ → ℕ → ReadResult) → ℕ → ℕ → ℕ → ReadResult
read_span read file_size offset max =
    if leb file_size offset
    then record { status = IoStatus.zero_bytes_read; bytes = 0 }
    else read offset (if ltb max (file_size - offset) then max else file_size - offset)

-- `Stream::read_unit_at`: `payload` is what the format reads in the header at the offset.
unfoldable pub read_unit_at : (ℕ → ℕ → ReadResult) → ℕ → (ℕ → ℕ) → ℕ → ℕ → ReadResult
read_unit_at read header_size payload buf_size offset =
    let hdr = read offset header_size in
    let size = payload offset in
    let body = read (offset + header_size) size in
    if ok hdr.status
    then (if ltb buf_size (header_size + size)
        then record { status = IoStatus.payload_truncated_error; bytes = hdr.bytes }
        else record { status = body.status; bytes = hdr.bytes + body.bytes })
    else hdr
