-- ===== src/Broker/Index/Find.antt =====
-- In linked rows, `find_row` finds exactly the steps that are indexed.
use sbio.Prelude.{
  ℕ, zero, suc, ◌+◌, ◌≤◌, ◌<◌, ◌≡◌, sym, ap, ◌∙◌, ◌&&◌, some, inl, inr, arith, ◌==◌, ltb, leb,
  Bool-cases, Option-cases, dec_lt,
}
use mathlib.Core.Path.{subst}
use sbio.Io.{IoStatus}
use sbio.Broker.Index.{StepOffset, StreamCatalog, walk_to, start_row, find_row}
use sbio.Broker.Index.Linked.{IsLinked}

-- The row of a step: of its kind and with its ordinal.
pub record IsStep (c : StreamCatalog) (rows : ℕ → StepOffset) (kind ordinal r : ℕ) : Type 0 where
  pub in_rows : r < c.num_rows
  pub of_kind : (rows r).step_kind ≡ kind
  pub at_ordinal : (rows r).ordinal ≡ ordinal

module _ (kinds : ℕ) (c : StreamCatalog) (rows : ℕ → StepOffset) (kind : ℕ)
    (i : IsLinked kinds c rows) (h : kind < kinds) where
  walk_to_lem :
      (fuel ordinal r : ℕ)
      → r < c.num_rows
      → (rows r).step_kind ≡ kind
      → (rows r).ordinal ≤ ordinal
      → ordinal < c.cummulative_steps kind
      → ordinal < (rows r).ordinal + fuel
      → (s : ℕ) × (walk_to fuel rows ordinal r ≡ some (some s)) × IsStep c rows kind ordinal s
  unfolding walk_to
  walk_to_lem zero ordinal r p q u v f = absurd (omega arith)
  walk_to_lem (suc fuel) ordinal r p q u v f = elim (dec_lt (rows r).ordinal ordinal) [
    | no e ↦ (r, ground arith, record { in_rows = p; of_kind = q; at_ordinal = omega arith })
    | yes e ↦ elim (Option-cases (rows r).next_of_kind) [
      | inl n ↦ absurd (ground (arith, i.next_none r p n, ap c.cummulative_steps q))
      | inr (t, n) ↦
          let next = i.next_some r t p n in
          let (s, w, k) =
            walk_to_lem fuel ordinal t next.1 (next.2 ∙ q) (omega (arith, next.3)) v
              (omega (arith, next.3)) in
          (s, ground (arith, n, w), k)
    ]
  ]

  -- In linked rows of some batch, a step from the first row of its kind on and below the count of its
  -- kind's steps is found with its row, whatever the hint says.
  pub find_row_lem :
      (ordinal hint first : ℕ)
      → 0 < c.index_epoch
      → c.first_row kind ≡ some first
      → (rows first).ordinal ≤ ordinal
      → ordinal < c.cummulative_steps kind
      → (r : ℕ) × (find_row c rows kind ordinal hint ≡ some (IoStatus.success, some r))
        × IsStep c rows kind ordinal r
  unfolding find_row start_row
  find_row_lem ordinal hint first g e u v =
      elim (Bool-cases (
        ltb hint c.num_rows
        && ((rows hint).step_kind == kind)
        && leb (rows hint).ordinal ordinal)) [
          | inl b ↦
              let (r, w, k) =
                walk_to_lem (suc ordinal) ordinal hint (ground arith) (ground arith) (ground arith)
                  v (omega arith) in
              (r, ground (arith, e, w), k)
          | inr b ↦
              let (p, q) = i.first_some kind first h e in
              let (r, w, k) = walk_to_lem (suc ordinal) ordinal first p q u v (omega arith) in
              (r, ground (arith, e, w), k)
        ]

  -- Where a row is found in linked rows, it is that of the step, and the status is success.
  pub find_row_sound :
      (ordinal hint r : ℕ) (status : IoStatus)
      → find_row c rows kind ordinal hint ≡ some (status, some r)
      → IsStep c rows kind ordinal r × (status ≡ IoStatus.success)
  unfolding find_row
  find_row_sound ordinal hint r status e = elim (Option-cases (c.first_row kind)) [
    | inl n ↦ absurd (ground arith)
    | inr (first, n) ↦ elim (dec_lt 0 c.index_epoch) [
      | no g ↦ absurd (ground arith)
      | yes g ↦ elim (dec_lt ordinal (rows first).ordinal) [
        | yes l ↦ absurd (ground arith)
        | no l ↦ elim (dec_lt ordinal (c.cummulative_steps kind)) [
          | no v ↦ absurd (ground arith)
          | yes v ↦
              let (s, w, k) = find_row_lem ordinal hint first g n (omega arith) v in
              let q : r ≡ s = ground (arith, e, w) in
              (subst (IsStep c rows kind ordinal) (sym q) k, ground (arith, e, w))
        ]
      ]
    ]
  ]
