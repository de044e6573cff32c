-- ===== src/Broker/Index/Scan/Units.antt =====
-- The loops over the units of a span and over the spans end, and keep the rows linked and counted.
use sbio.Prelude.{
  ℕ, zero, suc, ◌+◌, ◌≤◌, ◌<◌, ◌≡◌, ◌⊎◌, refl, ◌&&◌, some, inl, inr, arith, ltb, leb, if◌then◌else◌,
  Option-cases, Bool-cases, dec_lt,
}
use sbio.Io.{IoStatus, ReadResult, read_span}
use sbio.Broker.Index.{StepOffset, StreamCatalog, ByteRegion}
use sbio.Broker.Index.Linked.{IsLinked, add_unit}
use sbio.Broker.Index.Linked.Grow.{add_unit-IsLinked}
use sbio.Broker.Index.Scan.{
  IndexFormat, Scanned, scan_units, scan_spans, set_chunk_complete, stop_at, with_unit, empty_span,
  span_start,
}

-- What holds while a batch of the index is built on the catalog `c`: the steps of a kind that were counted before
-- and those of this batch make up all steps so far.
pub record IsGrown (kinds capacity : ℕ) (c d : StreamCatalog) (rows : ℕ → StepOffset) : Type 0 where
  pub linked : IsLinked kinds d rows
  pub counts : (j : ℕ) → j < kinds → d.cummulative_steps j ≡ c.cummulative_steps j + d.num_steps j
  pub epoch : d.index_epoch ≡ c.index_epoch
  pub within : d.num_rows ≤ capacity

set_chunk_complete-IsLinked :
    (kinds : ℕ) (d : StreamCatalog) (rows : ℕ → StepOffset)
    → IsLinked kinds d rows
    → IsLinked kinds (set_chunk_complete d) rows
unfolding set_chunk_complete
set_chunk_complete-IsLinked kinds d rows i = record {
  kind_bound = i.kind_bound;
  next_some = i.next_some;
  next_gap = i.next_gap;
  next_none = i.next_none;
  end_gap = i.end_gap;
  prev_some = i.prev_some;
  prev_gap = i.prev_gap;
  prev_none = i.prev_none;
  first_some = i.first_some;
  first_gap = i.first_gap;
  first_none = i.first_none;
  last_some = i.last_some;
  last_none = i.last_none;
}

pub set_chunk_complete-IsGrown :
    (kinds capacity : ℕ) (c d : StreamCatalog) (rows : ℕ → StepOffset)
    → IsGrown kinds capacity c d rows
    → IsGrown kinds capacity c (set_chunk_complete d) rows
unfolding set_chunk_complete
set_chunk_complete-IsGrown kinds capacity c d rows g = record {
  linked = set_chunk_complete-IsLinked kinds d rows g.linked;
  counts = g.counts;
  epoch = g.epoch;
  within = g.within;
}

add_unit-IsGrown :
    (kinds capacity : ℕ) (c d : StreamCatalog) (rows : ℕ → StepOffset) (region : ByteRegion)
    (kind key : ℕ)
    → kind < kinds
    → d.num_rows < capacity
    → IsGrown kinds capacity c d rows
    → IsGrown kinds capacity c
        (add_unit d rows region kind key).0
        (add_unit d rows region kind key).1
unfolding add_unit
add_unit-IsGrown kinds capacity c d rows region kind key h l g = record {
  linked = add_unit-IsLinked kinds d rows region kind key g.linked h;
  counts = λ j p. ground (arith, g.counts j);
  epoch = g.epoch;
  within = omega arith;
}

-- What the scan of the spans gives back.
abbrev pub Result : Type 0
Result = IoStatus × StreamCatalog × (ℕ → StepOffset) × ℕ

nat_cases : (n : ℕ) → (n ≡ 0) ⊎ ((m : ℕ) × (n ≡ suc m))
nat_cases zero = inl refl
nat_cases (suc m) = inr (m, refl)

chunk_rows : (d : StreamCatalog) → d.num_rows ≤ (set_chunk_complete d).num_rows
unfolding set_chunk_complete
chunk_rows d = omega arith

module _ (format : IndexFormat) (capacity : ℕ) (c : StreamCatalog)
    (kinds_fit : (unit kind : ℕ)
      → format.kind_for_step unit ≡ some kind
      → kind < format.num_kinds) where
  -- The state after a scan, from the state before: where bytes were taken, rows were added.
  pub record IsScanned (s t : Scanned) : Type 0 where
    pub grown : IsGrown format.num_kinds capacity c t.catalog t.rows
    pub rises : s.catalog.num_rows ≤ t.catalog.num_rows
    pub moved : (t.used ≡ s.used) ⊎ (s.catalog.num_rows < t.catalog.num_rows)

  with_unit_lem :
      (s : Scanned) (kind unit : ℕ)
      → kind < format.num_kinds
      → s.catalog.num_rows < capacity
      → IsGrown format.num_kinds capacity c s.catalog s.rows
      → IsGrown format.num_kinds capacity c
          (with_unit format kind unit s).catalog
          (with_unit format kind unit s).rows
        × ((with_unit format kind unit s).catalog.num_rows ≡ s.catalog.num_rows + 1)
  unfolding with_unit add_unit
  with_unit_lem s kind unit h l g = (
    add_unit-IsGrown format.num_kinds capacity c s.catalog s.rows (format.locate_step kind unit)
        kind (format.order_key unit) h l g,
    refl,
  )

  pub scan_units_lem :
      (fuel carried pos bytes : ℕ) (s : Scanned)
      → IsGrown format.num_kinds capacity c s.catalog s.rows
      → capacity < s.catalog.num_rows + fuel
      → (t : Scanned) × (scan_units format fuel capacity carried pos bytes s ≡ some t)
        × IsScanned s t
  unfolding scan_units stop_at
  scan_units_lem zero carried pos bytes s g f = absurd (omega (arith, g.within))
  scan_units_lem (suc fuel) carried pos bytes s g f =
      let unit = pos + s.used in
      let d = s.catalog in
      let same : IsScanned s s = record { grown = g; rises = omega arith; moved = inl refl } in
      elim (Bool-cases (leb (s.used + format.header_size) bytes && ltb d.num_rows capacity)) [
        | inr a ↦ (s, ground (arith, a), same)
        | inl a ↦ elim (Bool-cases (ltb bytes (s.used + format.locate_bytes unit))) [
          | inl b ↦ (s, ground (arith, a, b), same)
          | inr b ↦ elim (Option-cases (format.kind_for_step unit)) [
            | inl e ↦ (
              stop_at s d,
              ground (arith, a, b, e),
              record { grown = g; rises = omega arith; moved = inl refl },
            )
            | inr (kind, e) ↦
                elim (Bool-cases (ltb carried d.num_rows && format.starts_chunk unit)) [
                  | inl k ↦ (
                    stop_at s (set_chunk_complete d),
                    ground (arith, a, b, e, k),
                    record {
                      grown = set_chunk_complete-IsGrown format.num_kinds capacity c d s.rows g;
                      rises = chunk_rows d;
                      moved = inl refl;
                    },
                  )
                  | inr k ↦
                      let (p, q) =
                        with_unit_lem s kind unit (kinds_fit unit kind e) (ground (arith, a)) g in
                      let (t, w, z) =
                        scan_units_lem fuel carried pos bytes (with_unit format kind unit s) p
                          (omega (arith, q)) in
                      (
                        t,
                        ground (arith, a, b, e, k, w),
                        record {
                          grown = z.grown;
                          rises = omega (arith, q, z.rises);
                          moved = inr (omega (arith, q, z.rises));
                        },
                      )
                ]
          ]
        ]
      ]

  -- Where bytes were taken, rows were added.
  further :
      (d : StreamCatalog) (rows : ℕ → StepOffset) (s : Scanned) (used : ℕ)
      → IsScanned (span_start d rows) s
      → s.used ≡ suc used
      → (fuel : ℕ) → capacity < d.num_rows + suc fuel
      → capacity < s.catalog.num_rows + fuel
  unfolding span_start
  further d rows s used z u fuel f = ground (arith, z.moved)

  -- Whatever the reads give, the spans come to an end.
  pub scan_spans_lem :
      (fuel : ℕ) (read : ℕ → ℕ → ReadResult) (file_size scratch_size carried pos : ℕ)
      (d : StreamCatalog) (rows : ℕ → StepOffset)
      → IsGrown format.num_kinds capacity c d rows
      → capacity < d.num_rows + fuel
      → (r : Result) × (scan_spans format fuel read file_size scratch_size capacity carried pos d
            rows
          ≡ some r)
        × IsGrown format.num_kinds capacity c r.1 r.2
  unfolding scan_spans span_start
  scan_spans_lem zero read file_size scratch_size carried pos d rows g f =
      absurd (omega (arith, g.within))
  scan_spans_lem (suc fuel) read file_size scratch_size carried pos d rows g f =
      elim (dec_lt d.num_rows capacity) [
        | no l ↦ ((IoStatus.success, d, rows, pos), ground (arith), g)
        | yes l ↦ elim (nat_cases (read_span read file_size pos scratch_size).bytes) [
          | inl e ↦ (
            (empty_span (read_span read file_size pos scratch_size).status, d, rows, pos),
            ground (arith, e, l),
            g,
          )
          | inr (more, e) ↦
              let (s, w, z) =
                scan_units_lem (suc capacity) carried pos (suc more) (span_start d rows) g
                  (omega arith) in
              elim (Bool-cases s.at_end) [
                | inl a ↦ (
                  (IoStatus.success, s.catalog, s.rows, pos + s.used),
                  ground (arith, e, l, w, a),
                  z.grown,
                )
                | inr a ↦ elim (nat_cases s.used) [
                  | inl u ↦ (
                    (
                      if leb file_size (pos + suc more)
                          then IoStatus.success
                          else IoStatus.payload_truncated_error,
                      s.catalog,
                      s.rows,
                      pos,
                    ),
                    ground (arith, e, l, w, a, u),
                    z.grown,
                  )
                  | inr (used, u) ↦
                      let (r, v, y) =
                        scan_spans_lem fuel read file_size scratch_size carried (pos + suc used)
                          s.catalog s.rows z.grown (further d rows s used z u fuel f) in
                      (r, ground (arith, e, l, w, a, u, v), y)
                ]
              ]
        ]
      ]
