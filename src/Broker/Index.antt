-- ===== src/Broker/Index.antt =====
-- The rows of the index and the search in them: `find_row` and `preceding` of core/broker.hh, with
-- `StepOffset` and `StreamCatalog` of core/state_handle.hh. An array is a function of its index; `none`
-- stands for `NoRow`. Row numbers are below `NoRow`, since the index buffer has fewer rows.
pub mod Linked
pub mod Find
pub mod Preceding
pub mod Scan
use sbio.Prelude.{
  ℕ, zero, suc, ◌+◌, ◌-◌, ◌≤◌, ◌<◌, Bool, true, false, not, ◌&&◌, ◌||◌, Option, none, some, ltb,
  leb, ◌==◌, if◌then◌else◌,
}
use sbio.Io.{IoStatus}

pub record ByteRegion : Type 0 where
  pub offset : ℕ
  pub length : ℕ
  pub stream : ℕ

pub record StepOffset : Type 0 where
  pub region : ByteRegion
  pub next_of_kind : Option ℕ
  pub prev_of_kind : Option ℕ
  pub step_kind : ℕ
  pub ordinal : ℕ
  pub order_key : ℕ

pub record StreamCatalog : Type 0 where
  pub index_epoch : ℕ
  pub num_steps : ℕ → ℕ
  pub cummulative_steps : ℕ → ℕ
  pub num_rows : ℕ
  pub chunk_complete : Bool
  pub first_row : ℕ → Option ℕ
  pub last_row : ℕ → Option ℕ

-- A write to an array.
abbrev pub write {ℓ} : {A : Type ℓ} → (ℕ → A) → ℕ → A → ℕ → A
write f i a j = if j == i then a else f j

-- The `while` along the rows of a kind, on fuel. The outer `none` is the end of the fuel; a row that
-- ends the list gives `none` inside, where the source would read outside of the rows.
unfoldable pub walk_to : ℕ → (ℕ → StepOffset) → ℕ → ℕ → Option (Option ℕ)
walk_to zero rows ordinal r = none
walk_to (suc fuel) rows ordinal r = elim (ltb (rows r).ordinal ordinal) [
  | true ↦ elim (rows r).next_of_kind [ none ↦ some none | some s ↦ walk_to fuel rows ordinal s ]
  | false ↦ some (some r)
]

-- Where the walk begins.
unfoldable pub start_row : StreamCatalog → (ℕ → StepOffset) → ℕ → ℕ → ℕ → ℕ → ℕ
start_row c rows kind ordinal hint first =
    if ltb hint c.num_rows && ((rows hint).step_kind == kind) && leb (rows hint).ordinal ordinal
    then hint
    else first

-- The status and the row. As many steps as there are to the ordinal are fuel enough.
unfoldable pub find_row :
    StreamCatalog → (ℕ → StepOffset) → ℕ → ℕ → ℕ → Option (IoStatus × Option ℕ)
find_row c rows kind ordinal hint =
    if leb (c.cummulative_steps kind) ordinal
    then some (IoStatus.all_requested_read, none)
    else if c.index_epoch == 0
    then some (IoStatus.no_offset_in_data, none)
    else elim (c.first_row kind) [
      | none ↦ some (IoStatus.no_offset_in_data, none)
      | some first ↦
          if ltb ordinal (rows first).ordinal
          then some (IoStatus.no_offset_in_data, none)
          else elim (walk_to (suc ordinal) rows ordinal
              (start_row c rows kind ordinal hint first)) [
                | none ↦ none
                | some none ↦ none
                | some (some r) ↦ some (IoStatus.success, some r)
              ]
    ]

-- `preceding` walks forward from a hint before the reference.
pub walk_forward : ℕ → (ℕ → StepOffset) → ℕ → ℕ → Option ℕ
walk_forward zero rows ref_row r = none
walk_forward (suc fuel) rows ref_row r = elim (rows r).next_of_kind [
  | none ↦ some r
  | some s ↦ elim (ltb s ref_row) [ true ↦ walk_forward fuel rows ref_row s | false ↦ some r ]
]

-- Or back from the last row of the kind.
pub walk_back : ℕ → (ℕ → StepOffset) → ℕ → Option ℕ → Option (Option ℕ)
walk_back zero rows ref_row r = none
walk_back (suc fuel) rows ref_row none = some none
walk_back (suc fuel) rows ref_row (some r) = elim (ltb ref_row r) [
  | true ↦ walk_back fuel rows ref_row (rows r).prev_of_kind
  | false ↦ some (some r)
]

-- The row that is found once the reference's row is known; each walk visits a row at most once.
pub preceding_row : StreamCatalog → (ℕ → StepOffset) → ℕ → ℕ → ℕ → Option (Option ℕ)
preceding_row c rows kind ref_row hint =
    if ltb hint c.num_rows && ((rows hint).step_kind == kind) && ltb hint ref_row
    then elim (walk_forward (suc c.num_rows) rows ref_row hint) [
      | none ↦ none
      | some r ↦ some (some r)
    ]
    else walk_back (suc (suc c.num_rows)) rows ref_row (c.last_row kind)

-- The result with the ordinal, and the cursor's hints by kind.
pub preceding :
    StreamCatalog → (ℕ → StepOffset) → ℕ → ℕ → ℕ → (ℕ → ℕ) → Option (IoStatus × Option ℕ × (ℕ → ℕ))
preceding c rows kind ref_kind ref_ordinal offset_index =
    elim (find_row c rows ref_kind ref_ordinal (offset_index ref_kind)) [
      | none ↦ none
      | some (status, none) ↦ some (status, none, offset_index)
      | some (status, some ref_row) ↦
          let hints = write offset_index ref_kind ref_row in
          elim (preceding_row c rows kind ref_row (hints kind)) [
            | none ↦ none
            | some none ↦ some (IoStatus.no_offset_in_data, none, hints)
            | some (some r) ↦ some (IoStatus.success, some (rows r).ordinal, write hints kind r)
          ]
    ]
