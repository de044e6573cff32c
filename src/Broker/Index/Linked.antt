-- ===== src/Broker/Index/Linked.antt =====
-- The rows of each kind form a list in the order of the file, with consecutive ordinals, that begins at
-- the kind's first row and ends at its last.
pub mod Grow
use sbio.Prelude.{ℕ, ◌+◌, ◌<◌, ◌≡◌, ◌≢◌, Option, none, some, Bool, if◌then◌else◌, ◌==◌}
use sbio.Broker.Index.{StepOffset, StreamCatalog, ByteRegion, write}

pub record IsLinked (kinds : ℕ) (c : StreamCatalog) (rows : ℕ → StepOffset) : Type 0 where
  pub kind_bound : (r : ℕ) → r < c.num_rows → (rows r).step_kind < kinds
  pub next_some :
      (r s : ℕ)
      → r < c.num_rows
      → (rows r).next_of_kind ≡ some s
      → (r < s)
        × (s < c.num_rows)
        × ((rows s).step_kind ≡ (rows r).step_kind)
        × ((rows s).ordinal ≡ (rows r).ordinal + 1)
  pub next_gap :
      (r s t : ℕ)
      → r < c.num_rows
      → (rows r).next_of_kind ≡ some s
      → r < t
      → t < s
      → (rows t).step_kind ≢ (rows r).step_kind
  pub next_none :
      (r : ℕ)
      → r < c.num_rows
      → (rows r).next_of_kind ≡ none
      → (c.last_row (rows r).step_kind ≡ some r)
        × ((rows r).ordinal + 1 ≡ c.cummulative_steps (rows r).step_kind)
  pub end_gap :
      (r t : ℕ)
      → r < c.num_rows
      → (rows r).next_of_kind ≡ none
      → r < t
      → t < c.num_rows
      → (rows t).step_kind ≢ (rows r).step_kind
  pub prev_some :
      (r s : ℕ)
      → r < c.num_rows
      → (rows r).prev_of_kind ≡ some s
      → (s < r) × ((rows s).step_kind ≡ (rows r).step_kind)
  pub prev_gap :
      (r s t : ℕ)
      → r < c.num_rows
      → (rows r).prev_of_kind ≡ some s
      → s < t
      → t < r
      → (rows t).step_kind ≢ (rows r).step_kind
  pub prev_none :
      (r t : ℕ)
      → r < c.num_rows
      → (rows r).prev_of_kind ≡ none
      → t < r
      → (rows t).step_kind ≢ (rows r).step_kind
  pub first_some :
      (k f : ℕ) → k < kinds → c.first_row k ≡ some f → (f < c.num_rows) × ((rows f).step_kind ≡ k)
  pub first_gap : (k f t : ℕ) → k < kinds → c.first_row k ≡ some f → t < f → (rows t).step_kind ≢ k
  pub first_none :
      (k t : ℕ) → k < kinds → c.first_row k ≡ none → t < c.num_rows → (rows t).step_kind ≢ k
  pub last_some :
      (k l : ℕ)
      → k < kinds
      → c.last_row k ≡ some l
      → (l < c.num_rows) × ((rows l).step_kind ≡ k) × ((rows l).next_of_kind ≡ none)
  pub last_none : (k : ℕ) → k < kinds → c.last_row k ≡ none → c.first_row k ≡ none

-- The row of a unit that was found: behind the rows so far and the last one of its kind.
unfoldable pub unit_row : StreamCatalog → ByteRegion → ℕ → ℕ → StepOffset
unit_row c region kind order_key = record {
  region = region;
  next_of_kind = none;
  prev_of_kind = c.last_row kind;
  step_kind = kind;
  ordinal = c.cummulative_steps kind;
  order_key = order_key;
}

unfoldable pub with_next : StepOffset → ℕ → StepOffset
with_next step r = record {
  region = step.region;
  next_of_kind = some r;
  prev_of_kind = step.prev_of_kind;
  step_kind = step.step_kind;
  ordinal = step.ordinal;
  order_key = step.order_key;
}

unfoldable pub add_unit :
    StreamCatalog → (ℕ → StepOffset) → ByteRegion → ℕ → ℕ → StreamCatalog × (ℕ → StepOffset)
add_unit c rows region kind order_key =
    let r = c.num_rows in
    let stored = write rows r (unit_row c region kind order_key) in
    (
      record {
        index_epoch = c.index_epoch;
        num_steps = write c.num_steps kind (c.num_steps kind + 1);
        cummulative_steps = write c.cummulative_steps kind (c.cummulative_steps kind + 1);
        num_rows = r + 1;
        chunk_complete = c.chunk_complete;
        first_row = elim (c.last_row kind) [
          | none ↦ write c.first_row kind (some r)
          | some l ↦ c.first_row
        ];
        last_row = write c.last_row kind (some r);
      },
      elim (c.last_row kind) [ none ↦ stored | some l ↦ write stored l (with_next (stored l) r) ],
    )
