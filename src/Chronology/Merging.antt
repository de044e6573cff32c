-- ===== src/Chronology/Merging.antt =====
-- The loop of `ChronologicalOrder::merge` as a relation, and that the loop ends.
use sbio.Prelude.{
  ℕ, zero, suc, ◌+◌, ◌<◌, ◌≡◌, refl, ◌∙◌, ap, ◌≢◌, ◌⊎◌, inl, inr, none, some, List, [], ◌∷◌, get_or,
  set, length-set, get_or-set_self, get_or-set_ne, arith, Option-cases, ℕ_discrete,
}
use mathlib.Core.Path.{subst}
use sbio.Chronology.{
  ChronologicalOrder, PendingStep, front, head_step, pending_of, next_ordinal_of, pop_front,
  num_brokers, is_exhausted, scan, take_front, merge_loop, merge, count_steps,
}
use sbio.Chronology.Fronts.{LeastBelow, scan-LeastBelow}

-- The scan gives nothing to take: it stopped early, or it found nothing pending.
abbrev pub IsSettled : ChronologicalOrder → Type 0
IsSettled o = (scan o ≡ none) ⊎ (scan o ≡ some (num_brokers o))

-- The rounds of the loop from one state to the one that it leaves.
pub data Merging : ChronologicalOrder → ℕ → ChronologicalOrder → Type 0 where
  stop : {o : ChronologicalOrder} → IsSettled o → Merging o 0 o
  take :
      {o o' : ChronologicalOrder} {k : ℕ} (best : ℕ)
      → scan o ≡ some best
      → best ≢ num_brokers o
      → Merging (take_front o best) k o'
      → Merging o (suc k) o'

-- What a pick of the scan is.
pub record IsPick (o : ChronologicalOrder) (best : ℕ) (s : PendingStep) : Type 0 where
  pub below : best < num_brokers o
  pub head : front o best ≡ some s
  pub least : LeastBelow o (num_brokers o) best

pub pick :
    (o : ChronologicalOrder) (best : ℕ)
    → scan o ≡ some best
    → best ≢ num_brokers o
    → (s : PendingStep) × IsPick o best s
pick o best e n = elim (Option-cases (front o best)) [
  | inl f ↦ absurd (((scan-LeastBelow o e).found n).1 f)
  | inr (s, f) ↦ (
    s,
    record { below = ((scan-LeastBelow o e).found n).0; head = f; least = scan-LeastBelow o e },
  )
]

count_steps-pop :
    (qs : List (List PendingStep)) (b : ℕ) {s : PendingStep}
    → head_step (get_or qs b []) ≡ some s
    → count_steps (set qs b (pop_front (get_or qs b []))) + 1 ≡ count_steps qs
unfolding head_step pop_front
count_steps-pop [] b e = cc
count_steps-pop ([] ∷ qs) zero e = cc
count_steps-pop ((s ∷ q) ∷ qs) zero e = omega arith
count_steps-pop (q ∷ qs) (suc b) e = omega (arith, count_steps-pop qs b e)

count_steps-take_front :
    (o : ChronologicalOrder) (best : ℕ) {s : PendingStep}
    → front o best ≡ some s
    → count_steps (take_front o best).pending + 1 ≡ count_steps o.pending
unfolding take_front
count_steps-take_front o best e = count_steps-pop o.pending best e

pub num_brokers-take_front :
    (o : ChronologicalOrder) (best : ℕ)
    → (num_brokers (take_front o best) ≡ num_brokers o)
      × ((take_front o best).exhausted ≡ o.exhausted)
      × ((take_front o best).next_ordinal ≡ o.next_ordinal)
unfolding take_front num_brokers
num_brokers-take_front o best =
    (length-set o.pending best (pop_front (pending_of o best)), refl, refl)

module _ (o : ChronologicalOrder) (best : ℕ) where
  pub pending_of-take_front_self :
      best < num_brokers o → pending_of (take_front o best) best ≡ pop_front (pending_of o best)
  unfolding take_front num_brokers
  pending_of-take_front_self h = get_or-set_self o.pending best _ _ h

  pub pending_of-take_front_ne :
      (b : ℕ) → best ≢ b → pending_of (take_front o best) b ≡ pending_of o b
  unfolding take_front
  pending_of-take_front_ne b h = get_or-set_ne o.pending best b _ _ h

module _ (o : ChronologicalOrder) (best b : ℕ) where
  pub next_ordinal_of-take_front : next_ordinal_of (take_front o best) b ≡ next_ordinal_of o b
  unfolding take_front
  next_ordinal_of-take_front = refl

  pub is_exhausted-take_front : is_exhausted (take_front o best) b ≡ is_exhausted o b
  unfolding take_front is_exhausted
  is_exhausted-take_front = refl

module _ (fuel : ℕ) (o : ChronologicalOrder) (merged : ℕ) where
  pub merge_loop_ends : scan o ≡ none → merge_loop (suc fuel) o merged ≡ some (merged, o)
  unfolding merge_loop
  merge_loop_ends e = ground arith

  pub merge_loop_empties :
      scan o ≡ some (num_brokers o) → merge_loop (suc fuel) o merged ≡ some (merged, o)
  unfolding merge_loop
  merge_loop_empties e = ground arith

  merge_loop_goes_on :
      (best : ℕ)
      → scan o ≡ some best
      → best ≢ num_brokers o
      → merge_loop (suc fuel) o merged ≡ merge_loop fuel (take_front o best) (merged + 1)
  unfolding merge_loop
  merge_loop_goes_on best e n = ground arith

-- With more fuel than there are pending steps the loop ends, and the count that it returns is that
-- of its rounds.
merge_loop-Merging :
    (fuel : ℕ) (o : ChronologicalOrder) (merged : ℕ)
    → count_steps o.pending < fuel
    → (k : ℕ) × (o' : ChronologicalOrder) × (merge_loop fuel o merged ≡ some (merged + k, o'))
      × Merging o k o'
merge_loop-Merging zero o merged h = absurd (omega arith)
merge_loop-Merging (suc fuel) o merged h = elim (Option-cases (scan o)) [
  | inl e ↦ (0, o, ground (arith, merge_loop_ends fuel o merged e), stop (inl e))
  | inr (best, e) ↦ elim (ℕ_discrete best (num_brokers o)) [
    | yes p ↦ (0, o, ground (arith, merge_loop_empties fuel o merged), stop (inr (e ∙ ap some p)))
    | no p ↦
        let (s, k) = pick o best e p in
        let (n, o', q, m) =
          merge_loop-Merging fuel (take_front o best) (merged + 1)
            (omega (arith, count_steps-take_front o best k.head)) in
        (suc n, o', ground (arith, merge_loop_goes_on fuel o merged best e p), take best e p m)
  ]
]

-- `merge` returns, for every state: the rounds of its loop end within the fuel.
pub merge_total :
    (o : ChronologicalOrder)
    → (k : ℕ) × (o' : ChronologicalOrder) × (merge o ≡ some (k, o')) × Merging o k o'
unfolding merge
merge_total o =
    let (k, o', q, m) = merge_loop-Merging (suc (count_steps o.pending)) o 0 (omega arith) in
    (k, o', ground (arith, q), m)

pub merge-Merging :
    (o : ChronologicalOrder) {k : ℕ} {o' : ChronologicalOrder}
    → merge o ≡ some (k, o')
    → Merging o k o'
merge-Merging o {k} {o'} e =
    let (n, p, q, m) = merge_total o in
    subst (λ x. Merging o x o') (count q) (subst (Merging o n) (state q) m)
  where
    count : {n : ℕ} {p : ChronologicalOrder} → merge o ≡ some (n, p) → n ≡ k
    count q = cc

    state : {n : ℕ} {p : ChronologicalOrder} → merge o ≡ some (n, p) → p ≡ o'
    state q = cc

-- A state at which the loop stops.
pub Merging-IsSettled : {o o' : ChronologicalOrder} {k : ℕ} → Merging o k o' → IsSettled o'
Merging-IsSettled (stop s) = s
Merging-IsSettled (take best e n m) = Merging-IsSettled m

-- `merge` changes nothing but the queues and the order.
pub num_brokers-Merging :
    {o o' : ChronologicalOrder} {k : ℕ}
    → Merging o k o'
    → (num_brokers o' ≡ num_brokers o)
      × (o'.exhausted ≡ o.exhausted)
      × (o'.next_ordinal ≡ o.next_ordinal)
num_brokers-Merging (stop s) = (refl, refl, refl)
num_brokers-Merging {o} (take best e n m) =
    let (a, b, c) = num_brokers-Merging m in
    let (x, y, z) = num_brokers-take_front o best in (a ∙ x, b ∙ y, c ∙ z)
