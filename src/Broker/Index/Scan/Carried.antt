-- ===== src/Broker/Index/Scan/Carried.antt =====
-- The rows that are carried over are linked: each is the only one of its kind.
use sbio.Prelude.{
  ℕ, zero, suc, ◌+◌, ◌≤◌, ◌<◌, ◌≡◌, refl, sym, ap, ◌∙◌, Option, none, some, inl, inr, arith,
  Option-cases, dec_lt,
}
use mathlib.Core.Path.{subst}
use mathlib.Core.Option.{some-injective}
use sbio.Broker.Index.{StepOffset, StreamCatalog}
use sbio.Broker.Index.Linked.{IsLinked}
use sbio.Broker.Index.Scan.{carried_row, carry_kind, carry_kinds, clear_kind, no_rows, alone}

-- Only rows of the first `k` kinds are there yet; the counts of steps start from 0.
pub record IsCarried (k : ℕ) (c d : StreamCatalog) (kept : ℕ → StepOffset) : Type 0 where
  pub linked : IsLinked k d kept
  pub no_steps : (j : ℕ) → j < k → d.num_steps j ≡ 0
  pub counts : (j : ℕ) → d.cummulative_steps j ≡ c.cummulative_steps j
  pub epoch : d.index_epoch ≡ c.index_epoch

clear_kind-IsLinked :
    (k : ℕ) (d : StreamCatalog) (kept : ℕ → StepOffset)
    → IsLinked k d kept
    → IsLinked (suc k) (clear_kind d k) kept
unfolding clear_kind
clear_kind-IsLinked k d kept i = record {
  kind_bound = λ r p. omega (arith, i.kind_bound r p);
  next_some = λ r s p q. ground (arith, i.next_some r s);
  next_gap = λ r s t p q u v. ground (arith, i.next_gap r s t);
  next_none = λ r p q. ground (arith, i.next_none r, i.kind_bound r);
  end_gap = λ r t p q u v. ground (arith, i.end_gap r t);
  prev_some = λ r s p q. ground (arith, i.prev_some r s);
  prev_gap = λ r s t p q u v. ground (arith, i.prev_gap r s t);
  prev_none = λ r t p q u. ground (arith, i.prev_none r t);
  first_some = λ j f p q. ground (arith, i.first_some j f);
  first_gap = λ j f t p q u. ground (arith, i.first_gap j f t);
  first_none = λ j t p q u. ground (arith, i.first_none j t, i.kind_bound t);
  last_some = λ j l p q. ground (arith, i.last_some j l);
  last_none = λ j p q. ground (arith, i.last_none j);
}

carry_kind-IsLinked :
    (k : ℕ) (d : StreamCatalog) (kept : ℕ → StepOffset) (step : StepOffset)
    → IsLinked k d kept
    → step.step_kind ≡ k
    → step.ordinal + 1 ≡ d.cummulative_steps k
    → IsLinked (suc k) (carry_kind (some step) k d kept).0 (carry_kind (some step) k d kept).1
unfolding carry_kind alone
carry_kind-IsLinked k d kept step i e o = record {
  kind_bound = λ r p. ground (arith, i.kind_bound r);
  next_some = λ r s p q. ground (arith, i.next_some r s);
  next_gap = λ r s t p q u v. ground (arith, i.next_some r s, i.next_gap r s t);
  next_none = λ r p q. ground (arith, i.next_none r, i.kind_bound r);
  end_gap = λ r t p q u v. ground (arith, i.end_gap r t, i.kind_bound r);
  prev_some = λ r s p q. ground (arith, i.prev_some r s);
  prev_gap = λ r s t p q u v. ground (arith, i.prev_some r s, i.prev_gap r s t);
  prev_none = λ r t p q u. ground (arith, i.prev_none r t, i.kind_bound t);
  first_some = λ j f p q. ground (arith, i.first_some j f);
  first_gap = λ j f t p q u. ground (arith, i.first_some j f, i.first_gap j f t, i.kind_bound t);
  first_none = λ j t p q u. ground (arith, i.first_none j t);
  last_some = λ j l p q. ground (arith, i.last_some j l);
  last_none = λ j p q. ground (arith, i.last_none j);
}

cleared :
    (k : ℕ) (c d : StreamCatalog) (kept : ℕ → StepOffset)
    → IsCarried k c d kept
    → IsCarried (suc k) c (carry_kind none k d kept).0 (carry_kind none k d kept).1
unfolding carry_kind clear_kind
cleared k c d kept s = record {
  linked = clear_kind-IsLinked k d kept s.linked;
  no_steps = λ j p. ground (arith, s.no_steps j);
  counts = s.counts;
  epoch = s.epoch;
}

kept_row :
    (k : ℕ) (c d : StreamCatalog) (kept : ℕ → StepOffset) (step : StepOffset)
    → IsCarried k c d kept
    → step.step_kind ≡ k
    → step.ordinal + 1 ≡ c.cummulative_steps k
    → IsCarried (suc k) c (carry_kind (some step) k d kept).0 (carry_kind (some step) k d kept).1
unfolding carry_kind
kept_row k c d kept step s e o = record {
  linked = carry_kind-IsLinked k d kept step s.linked e (o ∙ sym (s.counts k));
  no_steps = λ j p. ground (arith, s.no_steps j);
  counts = s.counts;
  epoch = s.epoch;
}

no_rows-IsCarried : (c : StreamCatalog) (rows : ℕ → StepOffset) → IsCarried 0 c (no_rows c) rows
unfolding no_rows
no_rows-IsCarried c rows = record {
  linked = record {
    kind_bound = λ r p. absurd (omega arith);
    next_some = λ r s p q. absurd (omega arith);
    next_gap = λ r s t p q u v. absurd (omega arith);
    next_none = λ r p q. absurd (omega arith);
    end_gap = λ r t p q u v. absurd (omega arith);
    prev_some = λ r s p q. absurd (omega arith);
    prev_gap = λ r s t p q u v. absurd (omega arith);
    prev_none = λ r t p q u. absurd (omega arith);
    first_some = λ k f p q. absurd (omega arith);
    first_gap = λ k f t p q u. absurd (omega arith);
    first_none = λ k t p q u. absurd (omega arith);
    last_some = λ k l p q. absurd (omega arith);
    last_none = λ k p q. absurd (omega arith);
  };
  no_steps = λ j p. absurd (omega arith);
  counts = λ j. refl;
  epoch = refl;
}

module _ (kinds : ℕ) (c : StreamCatalog) (rows : ℕ → StepOffset)
    (i : 0 < c.index_epoch → IsLinked kinds c rows) where
  carried_row_lem :
      (k : ℕ) (step : StepOffset)
      → k < kinds
      → carried_row c rows k ≡ some step
      → (step.step_kind ≡ k) × (step.ordinal + 1 ≡ c.cummulative_steps k)
  unfolding carried_row
  carried_row_lem k step h e = elim (Option-cases (c.last_row k)) [
    | inl n ↦ absurd (ground arith)
    | inr (l, n) ↦ elim (dec_lt 0 c.index_epoch) [
      | no g ↦ absurd (ground arith)
      | yes g ↦
          let last = (i g).last_some k l h n in
          let final = (i g).next_none l last.0 last.2 in
          let same : rows l ≡ step = some-injective (rows l) step (ground (arith, n, e)) in
          (
            ap (λ a. a.step_kind) (sym same) ∙ last.1,
            ap (λ a. a.ordinal + 1) (sym same) ∙ final.1 ∙ ap c.cummulative_steps last.1,
          )
    ]
  ]

  carry_step :
      (k : ℕ) (d : StreamCatalog) (kept : ℕ → StepOffset)
      → k < kinds
      → IsCarried k c d kept
      → IsCarried
          (suc k)
          c
          (carry_kind (carried_row c rows k) k d kept).0
          (carry_kind (carried_row c rows k) k d kept).1
  carry_step k d kept h s = elim (Option-cases (carried_row c rows k)) [
    | inl e ↦ subst after (sym e) (cleared k c d kept s)
    | inr (step, e) ↦
        let (p, q) = carried_row_lem k step h e in
        subst after (sym e) (kept_row k c d kept step s p q)
  ]
    where
      after : Option StepOffset → Type 0
      after o = IsCarried (suc k) c (carry_kind o k d kept).0 (carry_kind o k d kept).1

  pub carry_kinds_lem :
      (n : ℕ) → n ≤ kinds → IsCarried n c (carry_kinds n c rows).0 (carry_kinds n c rows).1
  unfolding carry_kinds
  carry_kinds_lem zero h = no_rows-IsCarried c rows
  carry_kinds_lem (suc n) h = carry_step n _ _ (omega arith) (carry_kinds_lem n (omega arith))
