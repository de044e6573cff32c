-- ===== src/Execution/Fetching.antt =====
-- The fetches before the accesses: `fetch_then_get` and `fetch_then_get_steps` of core/execution.hh, and
-- `get_data_impl` and `get_data_steps_impl` of execution/threaded.hh. The callbacks work on the state of
-- the caller. A fetch that gives `none` reads outside of an array.
pub mod Loop
use sbio.Prelude.{ℕ, zero, suc, ◌+◌, ◌-◌, true, false, Option, none, some, ltb, ◌==◌, if◌then◌else◌}
use sbio.Io.{IoStatus, ok}

module _ {S : Type 0} where
  -- `n` fetches from `i` on, up to one that fails.
  unfoldable pub fetch_units : (ℕ → S → Option (IoStatus × S)) → ℕ → ℕ → S → Option (IoStatus × S)
  fetch_units unit_fetcher zero i s = some (IoStatus.success, s)
  fetch_units unit_fetcher (suc n) i s = elim (unit_fetcher i s) [
    | none ↦ none
    | some (status, s') ↦ elim (ok status) [
      | true ↦ fetch_units unit_fetcher n (i + 1) s'
      | false ↦ some (status, s')
    ]
  ]

  unfoldable pub access_units : (ℕ → S → S) → ℕ → ℕ → S → S
  access_units unit_get_data zero i s = s
  access_units unit_get_data (suc n) i s = access_units unit_get_data n (i + 1) (unit_get_data i s)

  unfoldable pub fetch_then_get :
      (ℕ → S → Option (IoStatus × S)) → ℕ → (ℕ → S → S) → ℕ → S → Option (IoStatus × S)
  fetch_then_get unit_fetcher num_fetches unit_get_data num_accesses s =
      elim (fetch_units unit_fetcher num_fetches 0 s) [
        | none ↦ none
        | some (status, s') ↦ some (
            if ok status
            then (status, access_units unit_get_data num_accesses 0 s')
            else (status, s'))
      ]

  -- `n` steps from `cnt` on, each with all of the accesses.
  unfoldable pub access_steps : (ℕ → ℕ → S → S) → ℕ → ℕ → ℕ → S → S
  access_steps unit_get_data num_accesses zero cnt s = s
  access_steps unit_get_data num_accesses (suc n) cnt s =
      access_steps unit_get_data num_accesses n (cnt + 1)
        (access_units (λ i. unit_get_data i cnt) num_accesses 0 s)

  unfoldable pub fetch_then_get_steps :
      ℕ → ℕ → (ℕ → S → Option (IoStatus × S)) → ℕ → (ℕ → ℕ → S → S) → ℕ → S → Option (IoStatus × S)
  fetch_then_get_steps first last unit_fetcher num_fetches unit_get_data num_accesses s =
      elim (fetch_units unit_fetcher num_fetches 0 s) [
        | none ↦ none
        | some (status, s') ↦ some (
            if ok status
            then (
              status,
              access_steps unit_get_data num_accesses (if ltb first last then last - first else 1) 0
                  s',
            )
            else (status, s'))
      ]

  -- The threads return at once where there is nothing to fetch.
  pub get_data_impl :
      (ℕ → S → Option (IoStatus × S)) → ℕ → (ℕ → S → S) → ℕ → S → Option (IoStatus × S)
  get_data_impl unit_fetcher num_fetches unit_get_data num_accesses s =
      if num_fetches == 0
      then some (IoStatus.success, s)
      else fetch_then_get unit_fetcher num_fetches unit_get_data num_accesses s

  pub get_data_steps_impl :
      ℕ → ℕ → (ℕ → S → Option (IoStatus × S)) → ℕ → (ℕ → ℕ → S → S) → ℕ → S → Option (IoStatus × S)
  get_data_steps_impl first last unit_fetcher num_fetches unit_get_data num_accesses s =
      if num_fetches == 0
      then some (IoStatus.success, s)
      else fetch_then_get_steps first last unit_fetcher num_fetches unit_get_data num_accesses s
