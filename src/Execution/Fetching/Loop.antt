-- ===== src/Execution/Fetching/Loop.antt =====
-- Invariants of the loop over the fetches.
use sbio.Prelude.{
  ℕ, zero, suc, ◌+◌, ◌<◌, ◌≡◌, refl, inl, inr, Option, some, arith, Bool-cases, Option-cases, ◌-◌,
}
use mathlib.Core.Path.{subst}
use sbio.Io.{IoStatus, ok, ok_lem}
use sbio.Execution.Fetching.{
  fetch_units, access_units, access_steps, fetch_then_get, fetch_then_get_steps,
}

-- What each fetch that succeeds takes from one index to the next holds after all of them.
pub fetch_units_lem :
    {S : Type 0} (Inv : ℕ → S → Type 0) (unit_fetcher : ℕ → S → Option (IoStatus × S)) (total : ℕ)
    → ((i : ℕ) (s s' : S)
        → i < total
        → Inv i s
        → unit_fetcher i s ≡ some (IoStatus.success, s')
        → Inv (i + 1) s')
    → (n i : ℕ) (s s' : S) → i + n ≡ total
    → Inv i s
    → fetch_units unit_fetcher n i s ≡ some (IoStatus.success, s')
    → Inv total s'
unfolding fetch_units
fetch_units_lem Inv unit_fetcher total next zero i s s' h v e =
    subst (λ t. Inv total t) (the_state e) (subst (λ k. Inv k s) (the_end h) v)
  where
    the_end : i + 0 ≡ total → i ≡ total
    the_end h = omega arith

    the_state : fetch_units unit_fetcher zero i s ≡ some (IoStatus.success, s') → s ≡ s'
    the_state e = cc
fetch_units_lem Inv unit_fetcher total next (suc n) i s s' h v e =
    elim (Option-cases (unit_fetcher i s)) [
      | inl q ↦ absurd (ground arith)
      | inr (r, q) ↦ elim (Bool-cases (ok r.0)) [
        | inl o ↦
            fetch_units_lem Inv unit_fetcher total next n (i + 1) r.1 s' (omega arith)
              (next i s r.1 (omega arith) v (ground (arith, q, ok_lem r.0 o))) (ground arith)
        | inr o ↦ absurd (ground arith)
      ]
    ]

module _ {S : Type 0} (unit_fetcher : ℕ → S → Option (IoStatus × S)) (n : ℕ) (s s' : S) where
  -- The accesses come after fetches that all succeed.
  pub fetch_then_get_lem :
      (unit_get_data : ℕ → S → S) (num_accesses : ℕ)
      → fetch_then_get unit_fetcher n unit_get_data num_accesses s ≡ some (IoStatus.success, s')
      → (t : S) × (fetch_units unit_fetcher n 0 s ≡ some (IoStatus.success, t))
        × (s' ≡ access_units unit_get_data num_accesses 0 t)
  unfolding fetch_then_get
  fetch_then_get_lem unit_get_data m e = elim (Option-cases (fetch_units unit_fetcher n 0 s)) [
    | inl q ↦ absurd (ground arith)
    | inr (r, q) ↦ elim (Bool-cases (ok r.0)) [
      | inl o ↦ (r.1, ground (arith, q, ok_lem r.0 o), ground arith)
      | inr o ↦ absurd (ground arith)
    ]
  ]

  pub fetch_then_get_steps_lem :
      (first last : ℕ) (unit_get_data : ℕ → ℕ → S → S) (num_accesses : ℕ)
      → first < last
      → fetch_then_get_steps first last unit_fetcher n unit_get_data num_accesses s
        ≡ some (IoStatus.success, s')
      → (t : S) × (fetch_units unit_fetcher n 0 s ≡ some (IoStatus.success, t))
        × (s' ≡ access_steps unit_get_data num_accesses (last - first) 0 t)
  unfolding fetch_then_get_steps
  fetch_then_get_steps_lem first last unit_get_data m l e =
      elim (Option-cases (fetch_units unit_fetcher n 0 s)) [
        | inl q ↦ absurd (ground arith)
        | inr (r, q) ↦ elim (Bool-cases (ok r.0)) [
          | inl o ↦ (r.1, ground (arith, q, ok_lem r.0 o), ground arith)
          | inr o ↦ absurd (ground arith)
        ]
      ]

-- Without accesses nothing is changed.
pub access_units_none :
    {S : Type 0} (unit_get_data : ℕ → S → S) (i : ℕ) (s : S) → access_units unit_get_data 0 i s ≡ s
unfolding access_units
access_units_none unit_get_data i s = refl

pub access_steps_none :
    {S : Type 0} (unit_get_data : ℕ → ℕ → S → S) (n cnt : ℕ) (s : S)
    → access_steps unit_get_data 0 n cnt s ≡ s
unfolding access_steps access_units
access_steps_none unit_get_data zero cnt s = refl
access_steps_none unit_get_data (suc n) cnt s = access_steps_none unit_get_data n (cnt + 1) s
