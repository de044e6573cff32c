-- ===== src/Iteration/Ranges.antt =====
-- `ZippedGroupRange` and `ZippedBatchRange` with their iterators, which differ in the values alone: a step
-- or a batch. The values come from the `next` of a DataSource, on a state `D`; the groups' buffers are a
-- state `S`.
pub mod Visited
pub mod Steps
pub mod Batches
mod Tests
use sbio.Prelude.{ℕ, zero, suc, Bool, true, false, Option, none, some, List, [], ◌∷◌, if◌then◌else◌}
use sbio.Io.{IoStatus}

-- The value and the status of its fetch.
pub record Handle (V : Type 0) : Type 0 where
  pub value : V
  pub status : IoStatus

module _ {D S V : Type 0} (next : D → V × D) (exhausted : V → Bool)
    (fetch : V → S → Option (IoStatus × S)) where
  -- The fetch of an iterator; `none` is a read outside of an array.
  pub fetch_at : Handle V → S → Option (Handle V × S)
  fetch_at it s = if exhausted it.value then some (it, s) else elim (fetch it.value s) [
    | none ↦ none
    | some (status, s') ↦ some (record { value = it.value; status = status }, s')
  ]

  pub begin : D → S → Option (Handle V × D × S)
  begin d s =
      let (value, d') = next d in
      elim (fetch_at (record { value = value; status = IoStatus.success }) s) [
        | none ↦ none
        | some (it, s') ↦ some (it, d', s')
      ]

  pub increment : Handle V → D → S → Option (Handle V × D × S)
  increment it d s =
      let (value, d') = next d in
      elim (fetch_at (record { value = value; status = it.status }) s) [
        | none ↦ none
        | some (it', s') ↦ some (it', d', s')
      ]

  -- The range-based for loop from an iterator, on fuel: the handles that its body gets, with the buffers
  -- that it finds. An iterator is equal to the end where its value is exhausted.
  pub for_each : ℕ → Handle V → D → S → Option (List (Handle V × S))
  for_each zero it d s = none
  for_each (suc n) it d s = if exhausted it.value then some [] else elim (increment it d s) [
    | none ↦ none
    | some (it', d', s') ↦ elim (for_each n it' d' s') [
      | none ↦ none
      | some rest ↦ some ((it, s) ∷ rest)
    ]
  ]

  pub zip : ℕ → D → S → Option (List (Handle V × S))
  zip n d s = elim (begin d s) [ none ↦ none | some (it, d', s') ↦ for_each n it d' s' ]
