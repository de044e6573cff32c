-- ===== src/Broker/Index/Preceding.antt =====
-- In linked rows, `preceding` finds the last row of a kind before a row of another kind.
use sbio.Prelude.{
  ℕ, zero, suc, ◌+◌, ◌≤◌, ◌<◌, ◌≡◌, ◌≢◌, refl, sym, ap, ◌∙◌, false, ◌&&◌, Option, none, some, inl,
  inr, arith, ◌==◌, ltb, Bool-cases, Option-cases, dec_lt,
}
use sbio.Io.{IoStatus}
use sbio.Broker.Index.{
  StepOffset, StreamCatalog, walk_forward, walk_back, preceding_row, preceding, find_row, write,
}
use sbio.Broker.Index.Linked.{IsLinked}
use sbio.Broker.Index.Find.{IsStep, find_row_lem}

-- The last row of a kind up to a row.
pub record IsLatest (c : StreamCatalog) (rows : ℕ → StepOffset) (kind ref_row r : ℕ) : Type 0 where
  pub in_rows : r < c.num_rows
  pub of_kind : (rows r).step_kind ≡ kind
  pub before : r ≤ ref_row
  pub latest : (t : ℕ) → r < t → t ≤ ref_row → (rows t).step_kind ≢ kind

-- The last row, or that there is none.
abbrev pub Latest : StreamCatalog → (ℕ → StepOffset) → ℕ → ℕ → Option ℕ → Type 0
Latest c rows kind ref_row none = (t : ℕ) → t ≤ ref_row → (rows t).step_kind ≢ kind
Latest c rows kind ref_row (some r) = IsLatest c rows kind ref_row r

module _ (kinds : ℕ) (c : StreamCatalog) (rows : ℕ → StepOffset) (kind ref_row : ℕ)
    (i : IsLinked kinds c rows) (h : kind < kinds) (inside : ref_row < c.num_rows) where
  walk_forward_lem :
      (fuel r : ℕ)
      → (rows ref_row).step_kind ≢ kind
      → r < ref_row
      → (rows r).step_kind ≡ kind
      → c.num_rows < r + fuel
      → (s : ℕ) × (walk_forward fuel rows ref_row r ≡ some s) × IsLatest c rows kind ref_row s
  unfolding walk_forward
  walk_forward_lem zero r other p q f = absurd (omega arith)
  walk_forward_lem (suc fuel) r other p q f = elim (Option-cases (rows r).next_of_kind) [
    | inl n ↦ (
      r,
      ground (arith, n),
      record {
        in_rows = omega arith;
        of_kind = q;
        before = omega arith;
        latest = λ t u v. ground (arith, q, i.end_gap r t (omega arith) n u (omega arith));
      },
    )
    | inr (s, n) ↦
        let next = i.next_some r s (omega arith) n in
        elim (dec_lt s ref_row) [
          | yes l ↦
              let (a, w, k) =
                walk_forward_lem fuel s other l (next.2 ∙ q) (omega (arith, next.0)) in
              (a, ground (arith, n, w), k)
          | no l ↦ (
            r,
            ground (arith, n),
            record {
              in_rows = omega arith;
              of_kind = q;
              before = omega arith;
              latest = λ t u v. elim (dec_lt t s) [
                | yes m ↦ ground (arith, q, i.next_gap r s t (omega arith) n u m)
                | no m ↦ (λ z. other (ap (λ a. (rows a).step_kind) (same t v m l) ∙ z))
              ];
            },
          )
        ]
  ]
    where
      same : (t : ℕ) {s : ℕ} → t ≤ ref_row → ¬ (t < s) → ¬ (s < ref_row) → ref_row ≡ t
      same t v m l = omega arith

  walk_back_lem :
      (fuel r : ℕ)
      → r < c.num_rows
      → (rows r).step_kind ≡ kind
      → ((t : ℕ) → r < t → t ≤ ref_row → (rows t).step_kind ≢ kind)
      → r + 2 ≤ fuel
      → (s : Option ℕ) × (walk_back fuel rows ref_row (some r) ≡ some s)
        × Latest c rows kind ref_row s
  unfolding walk_back
  walk_back_lem zero r p q g f = absurd (omega arith)
  walk_back_lem (suc fuel) r p q g f = elim (dec_lt ref_row r) [
    | no l ↦ (
      some r,
      ground arith,
      record { in_rows = p; of_kind = q; before = omega arith; latest = g },
    )
    | yes l ↦ elim (Option-cases (rows r).prev_of_kind) [
      | inl n ↦ (
        none,
        back_to_none fuel n l (omega arith),
        λ t u. ground (arith, q, i.prev_none r t p n (omega arith)),
      )
      | inr (s, n) ↦
          let prev = i.prev_some r s p n in
          let (a, w, k) =
            walk_back_lem fuel s (omega (arith, prev.0)) (prev.1 ∙ q)
              (λ t u v. ground (arith, q, i.prev_gap r s t p n u (omega arith)))
              (omega (arith, prev.0)) in
          (a, ground (arith, n, w), k)
    ]
  ]
    where
      back_to_none :
          (m : ℕ)
          → (rows r).prev_of_kind ≡ none
          → ref_row < r
          → 1 ≤ m
          → walk_back (suc m) rows ref_row (some r) ≡ some none
      back_to_none zero n l o = absurd (omega arith)
      back_to_none (suc m) n l o = ground (arith, n)

  -- Whatever the hint, the row that is found is the last one of the kind before the reference.
  pub preceding_row_lem :
      (hint : ℕ)
      → (rows ref_row).step_kind ≢ kind
      → (s : Option ℕ) × (preceding_row c rows kind ref_row hint ≡ some s)
        × Latest c rows kind ref_row s
  unfolding preceding_row walk_back
  preceding_row_lem hint other =
      elim (Bool-cases
        (ltb hint c.num_rows && ((rows hint).step_kind == kind) && ltb hint ref_row)) [
          | inl b ↦
              let (r, w, k) =
                walk_forward_lem (suc c.num_rows) hint other (ground arith) (ground arith)
                  (omega arith) in
              (some r, ground (arith, w), k)
          | inr b ↦ elim (Option-cases (c.last_row kind)) [
            | inl e ↦ (
              none,
              at_none e b,
              λ t u. i.first_none kind t h (i.last_none kind h e) (omega arith),
            )
            | inr (l, e) ↦
                let last = i.last_some kind l h e in
                let (a, w, k) =
                  walk_back_lem (suc (suc c.num_rows)) l last.0 last.1
                    (λ t u v. ground (arith, last.1, i.end_gap l t last.0 last.2 u (omega arith)))
                    (omega (arith, last.0)) in
                (a, ground (arith, e, w), k)
          ]
        ]
    where
      at_none :
          c.last_row kind ≡ none
          → (ltb hint c.num_rows && ((rows hint).step_kind == kind) && ltb hint ref_row) ≡ false
          → preceding_row c rows kind ref_row hint ≡ some none
      at_none e b = rw (b, preceding_row) (ap (walk_back (suc (suc c.num_rows)) rows ref_row) e)

-- The result of `preceding` for the row that was found.
abbrev pub preceding_result :
    (ℕ → StepOffset) → (ℕ → ℕ) → ℕ → Option ℕ → IoStatus × Option ℕ × (ℕ → ℕ)
preceding_result rows hints kind none = (IoStatus.no_offset_in_data, none, hints)
preceding_result rows hints kind (some r) =
    (IoStatus.success, some (rows r).ordinal, write hints kind r)

-- In linked rows of some batch, for a step from the first row of its kind on and below the count of its
-- kind's steps, `preceding` finds its row and gives the last step of another kind before it, or reports
-- that there is none; the rows found become the hints.
pub preceding_lem :
    (kinds : ℕ) (c : StreamCatalog) (rows : ℕ → StepOffset) (kind ref_kind ref_ordinal first : ℕ)
    (offset_index : ℕ → ℕ)
    → IsLinked kinds c rows
    → kind < kinds
    → ref_kind < kinds
    → ref_kind ≢ kind
    → 0 < c.index_epoch
    → c.first_row ref_kind ≡ some first
    → (rows first).ordinal ≤ ref_ordinal
    → ref_ordinal < c.cummulative_steps ref_kind
    → (ref_row : ℕ) × (s : Option ℕ) × IsStep c rows ref_kind ref_ordinal ref_row
      × Latest c rows kind ref_row s
      × (preceding c rows kind ref_kind ref_ordinal offset_index
          ≡ some (preceding_result rows (write offset_index ref_kind ref_row) kind s))
unfolding preceding
preceding_lem kinds c rows kind ref_kind ref_ordinal first offset_index i h g other e f u v =
    let (ref_row, w, k) =
      find_row_lem kinds c rows ref_kind i g ref_ordinal (offset_index ref_kind) first e f u v in
    let (s, q, l) =
      preceding_row_lem kinds c rows kind ref_row i h k.in_rows
        (write offset_index ref_kind ref_row kind) (λ z. other (sym k.of_kind ∙ z)) in
    (ref_row, s, k, l, result ref_row s w q)
  where
    result :
        (r : ℕ) (s : Option ℕ)
        → find_row c rows ref_kind ref_ordinal (offset_index ref_kind)
          ≡ some (IoStatus.success, some r)
        → preceding_row c rows kind r (write offset_index ref_kind r kind) ≡ some s
        → preceding c rows kind ref_kind ref_ordinal offset_index
          ≡ some (preceding_result rows (write offset_index ref_kind r) kind s)
    result r none w q = rw (w, preceding, q) refl
    result r (some t) w q = rw (w, preceding, q) refl
