-- ===== src/Chronology/Order/Merge.antt =====
-- `ChronologicalOrder::merge` keeps the merged order in time order.
use sbio.Prelude.{
  ℕ, ◌+◌, ◌≤◌, ◌<◌, ◌≡◌, sym, ap, ◌∙◌, ◌++◌, inl, inr, some, List, [], ◌∷◌, length, arith,
  Option-cases, ℕ_discrete, All, All-snoc, All-map,
}
use mathlib.Core.Path.{subst}
use native.Mathlib.Nat.{le_trans}
use sbio.Chronology.{
  ChronologicalOrder, PendingStep, front, head_step, pending_of, next_ordinal_of, pop_front,
  num_brokers, take_front, merge,
}
use sbio.Chronology.Merging.{
  Merging, stop, take, IsPick, pick, merge-Merging, num_brokers-take_front,
  pending_of-take_front_self, pending_of-take_front_ne, next_ordinal_of-take_front,
  is_exhausted-take_front,
}
use sbio.Chronology.Order.{
  time_of, IsSorted-snoc, IsQueue, due, due_of, IsOpen, IsTimely, IsTimely-key,
}

module _ (time : ℕ → ℕ → ℕ) (rising : (b m n : ℕ) → m ≤ n → time b m ≤ time b n) where
  IsQueue-from :
      (b lo hi : ℕ) (q : List PendingStep) → IsQueue time b lo hi q → IsQueue time b 0 hi q
  IsQueue-from b lo hi [] h = omega arith
  IsQueue-from b lo hi (s ∷ q) h = (h.0, omega arith, h.2)

  IsQueue-pop :
      (b hi : ℕ) (q : List PendingStep) → IsQueue time b 0 hi q → IsQueue time b 0 hi (pop_front q)
  unfolding pop_front
  IsQueue-pop b hi [] h = h
  IsQueue-pop b hi (s ∷ q) h = IsQueue-from b (s.0 + 1) hi q h.2

  -- After a step of `q` the next one is no earlier.
  due_of-pop :
      (b hi : ℕ) (q : List PendingStep) {s : PendingStep}
      → head_step q ≡ some s
      → IsQueue time b 0 hi q
      → (due_of q hi ≡ s.0) × (s.0 ≤ due_of (pop_front q) hi)
  unfolding head_step pop_front
  due_of-pop b hi [] e h = cc
  due_of-pop b hi (x ∷ []) e h = ground (arith, h.2)
  due_of-pop b hi (x ∷ y ∷ q) e h = ground (arith, h.2.1)

  due_of-head :
      (q : List PendingStep) (hi : ℕ) {s : PendingStep} → head_step q ≡ some s → due_of q hi ≡ s.0
  unfolding head_step
  due_of-head [] hi e = cc
  due_of-head (x ∷ q) hi e = ground arith

  module _ {o : ChronologicalOrder} (best : ℕ) {s : PendingStep} (p : IsPick o best s)
      (t : IsTimely time o) where
    due-take_front : (b : ℕ) → b < num_brokers o → due o b ≤ due (take_front o best) b
    due-take_front b h = elim (ℕ_discrete best b) [
      | yes e ↦ ground (
        arith,
        due_of-pop best _ (pending_of o best) p.head (t.queued best p.below),
        pending_of-take_front_self o best p.below,
        next_ordinal_of-take_front o best b,
      )
      | no e ↦
          ground (arith, pending_of-take_front_ne o best b e, next_ordinal_of-take_front o best b)
    ]

    IsOpen-take_front : (b : ℕ) → IsOpen (take_front o best) b → IsOpen o b
    IsOpen-take_front b (inr x) = inr (rw (is_exhausted-take_front o best b) at x)
    IsOpen-take_front b (inl f) = inl (elim (ℕ_discrete best b) [
      | yes e ↦ ground (arith, p.head)
      | no e ↦ rw (pending_of-take_front_ne o best b e) at f
    ])

    -- What the pick adds to the order is no later than anything that is still to come.
    time-take_front :
        (b : ℕ)
        → b < num_brokers o
        → IsOpen (take_front o best) b
        → time best s.0 ≤ time b (due (take_front o best) b)
    time-take_front b h k = elim (ℕ_discrete best b) [
      | yes e ↦ ground (
        arith,
        rising best s.0 (due (take_front o best) best),
        due_of-pop best _ (pending_of o best) p.head (t.queued best p.below),
        due-take_front best p.below,
        pending_of-take_front_self o best p.below,
        next_ordinal_of-take_front o best best,
      )
      | no e ↦ elim (Option-cases (front o b)) [
        | inl f ↦ ground (
          arith,
          p.least.skipped b h f,
          pending_of-take_front_ne o best b e,
          is_exhausted-take_front o best b,
        )
        | inr (r, f) ↦ ground (
          arith,
          p.head,
          p.least.least (λ n. absurd (omega (arith, p.below))) b r h f,
          IsTimely-key time t h f,
          IsTimely-key time t p.below p.head,
          due_of-head (pending_of o b) (next_ordinal_of o b) f,
          pending_of-take_front_ne o best b e,
          next_ordinal_of-take_front o best b,
        )
      ]
    ]

    queued-take_front :
        (b : ℕ)
        → b < num_brokers o
        → IsQueue time b 0
            (next_ordinal_of (take_front o best) b)
            (pending_of (take_front o best) b)
    queued-take_front b h = rw (next_ordinal_of-take_front o best b) (elim (ℕ_discrete best b) [
      | yes e ↦
          subst (λ c. IsQueue time c 0 (next_ordinal_of o c) (pending_of (take_front o best) c)) e
            (rw (pending_of-take_front_self o best p.below)
              (IsQueue-pop best _ (pending_of o best) (t.queued best p.below)))
      | no e ↦ rw (pending_of-take_front_ne o best b e) (t.queued b h)
    ])

    -- The location that the pick appends stands for its step.
    order-take_front :
        (take_front o best).order ≡ o.order ++ record { broker = best; ordinal = s.0 } ∷ []
    unfolding take_front
    order-take_front = ground (arith, p.head, p.below, t.few)

    take_front-IsTimely : IsTimely time (take_front o best)
    take_front-IsTimely = record {
      few = omega (arith, t.few, (num_brokers-take_front o best).0);
      ordinals =
          ap length (num_brokers-take_front o best).2
          ∙ t.ordinals
          ∙ sym (num_brokers-take_front o best).0;
      flags =
          ap length (num_brokers-take_front o best).1
          ∙ t.flags
          ∙ sym (num_brokers-take_front o best).0;
      queued = λ b h. queued-take_front b (rw (num_brokers-take_front o best).0 at h);
      sorted = rw order-take_front (
          IsSorted-snoc time o.order _ t.sorted (
            rw (due_of-head (pending_of o best) (next_ordinal_of o best) p.head) at
              (t.placed best p.below (inl (λ f. cc p.head)))));
      placed = λ b h k. placed b (rw (num_brokers-take_front o best).0 at h) k;
    }
      where
        placed :
            (b : ℕ)
            → b < num_brokers o
            → IsOpen (take_front o best) b
            → All
                (λ l. time_of time l ≤ time b (due (take_front o best) b))
                (take_front o best).order
        placed b h k = rw order-take_front (
            All-snoc _ o.order _
              (All-map (λ l c. le_trans c (rising b _ _ (due-take_front b h))) o.order
                (t.placed b h (IsOpen-take_front b k)))
              (time-take_front b h k))

  IsTimely-Merging :
      {o o' : ChronologicalOrder} {k : ℕ} → IsTimely time o → Merging o k o' → IsTimely time o'
  IsTimely-Merging t (stop s) = t
  IsTimely-Merging {o} t (take best e n m) =
      let (s, p) = pick o best e n in IsTimely-Merging (take_front-IsTimely best p t) m

  -- `merge` keeps the order sorted by time, and what it has placed no later than what may follow.
  pub merge-IsTimely :
      {o : ChronologicalOrder} {k : ℕ} {o' : ChronologicalOrder}
      → IsTimely time o
      → merge o ≡ some (k, o')
      → IsTimely time o'
  merge-IsTimely {o} t e = IsTimely-Merging t (merge-Merging o e)
