-- ===== src/Broker/Fetch/Range.antt =====
-- Reading a range of indexed steps stays within the rows and within the buffer.
use sbio.Prelude.{
  ℕ, zero, suc, ◌+◌, ◌-◌, ◌%◌, ◌^◌, ◌≤◌, ◌<◌, ◌≡◌, refl, ap, ◌∙◌, ◌&&◌, some, inl, inr, arith, ltb,
  leb, Bool-cases, Option-cases,
}
use sbio.Io.{IoStatus, ok}
use sbio.Broker.Index.{StepOffset, StreamCatalog, write}
use sbio.Broker.Index.Linked.{IsLinked}
use sbio.Broker.Index.Find.{IsStep, find_row_lem}
use sbio.Broker.Fetch.{
  SegmentCursor, Reader, read_steps, read_range, one_span, span, generic_fetch_range,
}

-- An engine gives at most the bytes that it was asked for.
abbrev pub IsBounded : Reader → Type 0
IsBounded read = (stream offset size : ℕ) → (read stream offset size).bytes ≤ size

module _ (kinds : ℕ) (c : StreamCatalog) (rows : ℕ → StepOffset) (kind : ℕ)
    (i : IsLinked kinds c rows) (h : kind < kinds) (read : Reader) (buf_size : ℕ)
    (bounded : IsBounded read) where
  read_steps_lem :
      (n r total : ℕ)
      → r < c.num_rows
      → (rows r).step_kind ≡ kind
      → (rows r).ordinal + n < c.cummulative_steps kind
      → total ≤ buf_size
      → (status : IoStatus) × (sum : ℕ) × (read_steps (suc n) read buf_size rows (some r) total
          ≡ some (status, sum))
        × (sum ≤ buf_size)
  unfolding read_steps
  read_steps_lem zero r total p q f u =
      let region = (rows r).region in
      let res = read region.stream region.offset region.length in
      let fits = bounded region.stream region.offset region.length in
      elim (Bool-cases (ltb buf_size (total + region.length))) [
        | inl b ↦ (IoStatus.payload_truncated_error, total, ground (arith, b), u)
        | inr b ↦ elim (Bool-cases (ok res.status)) [
          | inr a ↦ (res.status, total + res.bytes, ground (arith, b, a), ground (arith, fits))
          | inl a ↦
              (IoStatus.success, total + res.bytes, ground (arith, b, a), ground (arith, fits))
        ]
      ]
  read_steps_lem (suc n) r total p q f u =
      let region = (rows r).region in
      let res = read region.stream region.offset region.length in
      let fits = bounded region.stream region.offset region.length in
      elim (Bool-cases (ltb buf_size (total + region.length))) [
        | inl b ↦ (IoStatus.payload_truncated_error, total, ground (arith, b), u)
        | inr b ↦ elim (Bool-cases (ok res.status)) [
          | inr a ↦ (res.status, total + res.bytes, ground (arith, b, a), ground (arith, fits))
          | inl a ↦ elim (Option-cases (rows r).next_of_kind) [
            | inl e ↦ absurd (ground (arith, i.next_none r p e, ap c.cummulative_steps q))
            | inr (t, e) ↦
                let next = i.next_some r t p e in
                let (status, sum, w, l) =
                  read_steps_lem n t (total + res.bytes) next.1 (next.2 ∙ q) (omega (arith, next.3))
                    (ground (arith, fits)) in
                (status, sum, ground (arith, b, a, e, w), l)
          ]
        ]
      ]

  read_range_lem :
      (first r s count : ℕ)
      → IsStep c rows kind first r
      → first + suc count ≤ c.cummulative_steps kind
      → (status : IoStatus) × (total : ℕ) × (read_range read buf_size rows r s (suc count)
          ≡ some (status, total))
        × (total ≤ buf_size)
  unfolding read_range
  read_range_lem first r s count k f =
      let a = (rows r).region in
      let z = (rows s).region in
      let res = read a.stream a.offset (span a z) in
      elim (Bool-cases (one_span a z && leb (span a z) buf_size)) [
        | inl b ↦ (
          res.status,
          res.bytes,
          ground (arith, b),
          ground (arith, b, bounded a.stream a.offset (span a z)),
        )
        | inr b ↦
            let (status, total, w, l) =
              read_steps_lem count r 0 k.in_rows k.of_kind (omega (arith, k.at_ordinal))
                (omega arith) in
            (status, total, ground (arith, b, w), l)
      ]

  -- A range of at least one step in linked rows, from the first row of its kind on and within the count
  -- of its kind's steps, is read with a result: no row is missing, and what is read fits the buffer, if
  -- the engine gives no more than it was asked for. The cursor then stands at the row of the last step.
  pub generic_fetch_range_lem :
      (first count first_of_kind : ℕ) (cursor : SegmentCursor)
      → 0 < c.index_epoch
      → c.first_row kind ≡ some first_of_kind
      → (rows first_of_kind).ordinal ≤ first
      → first + suc count ≤ c.cummulative_steps kind
      → first + suc count ≤ 2 ^ 64
      → (status : IoStatus) × (last_row total : ℕ) × IsStep c rows kind (first + count) last_row
        × (total ≤ buf_size)
        × (generic_fetch_range read buf_size c rows kind first (suc count) cursor
            ≡ some (
              status,
              record {
                offset_index = write cursor.offset_index kind last_row;
                last_region = (rows last_row).region;
                read_count = total;
              },
            ))
  unfolding generic_fetch_range
  generic_fetch_range_lem first count first_of_kind cursor g e o f w =
      let (r, p, k) =
        find_row_lem kinds c rows kind i h first (cursor.offset_index kind) first_of_kind g e o
          (omega arith) in
      let (s, q, l) =
        find_row_lem kinds c rows kind i h (first + count) r first_of_kind g e (omega arith)
          (omega arith) in
      let (status, total, z, b) = read_range_lem first r s count k (omega arith) in
      (status, s, total, l, b, rw (p, generic_fetch_range, last_ordinal, q, z) refl)
    where
      last_ordinal : (first + suc count + 2 ^ 64 - 1) % 2 ^ 64 ≡ first + count
      last_ordinal = omega arith
