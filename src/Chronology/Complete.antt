-- ===== src/Chronology/Complete.antt =====
-- When `ChronologicalOrder::merge` stops, and that it then has nothing more to do.
use sbio.Prelude.{
  ℕ, zero, suc, ◌<◌, ◌≡◌, refl, ◌≢◌, ◌⊎◌, inl, inr, true, none, some, List, [], ◌∷◌, ◌↔◌, ◌++◌, ◌%◌,
  ◌^◌, length, get_elem?, length-append, arith,
}
use sbio.Chronology.{
  ChronologicalOrder, front, head_step, is_empty, may_index, num_brokers, is_exhausted, merge,
  locate, size, take_front, step_ordinal, Location, pending_of,
}
use sbio.Chronology.Fronts.{scan-LeastBelow, scan-none}
use sbio.Chronology.Merging.{
  IsSettled, merge-Merging, Merging-IsSettled, Merging, stop, take, merge_loop_ends,
  merge_loop_empties,
}

is_empty-front :
    (o : ChronologicalOrder) (b : ℕ) → front o b ≡ none → is_empty (pending_of o b) ≡ true
unfolding is_empty head_step
is_empty-front o b e = ground arith

-- `merge` stops only where a StreamBroker must be indexed before the next step is certain, or where
-- nothing is pending and every StreamBroker is exhausted.
pub merge_complete :
    (o : ChronologicalOrder) {k : ℕ} {o' : ChronologicalOrder}
    → merge o ≡ some (k, o')
    → ((b : ℕ) × (b < num_brokers o') × (may_index o' b ≡ true))
      ⊎ ((b : ℕ) → b < num_brokers o' → (front o' b ≡ none) × (is_exhausted o' b ≡ true))
unfolding may_index
merge_complete o {o' = o'} e = go (Merging-IsSettled (merge-Merging o e))
  where
    go :
        IsSettled o'
        → ((b : ℕ) × (b < num_brokers o') × (may_index o' b ≡ true))
          ⊎ ((b : ℕ) → b < num_brokers o' → (front o' b ≡ none) × (is_exhausted o' b ≡ true))
    go (inl q) =
        let (b, lt, f, x) = scan-none o' q in inl (b, lt, ground (arith, is_empty-front o' b f))
    go (inr q) =
        let l = scan-LeastBelow o' q in
        inr (λ b lt. (l.none_yet refl b lt, l.skipped b lt (l.none_yet refl b lt)))

-- A second `merge` finds nothing more.
pub merge-merge :
    (o : ChronologicalOrder) {k : ℕ} {o' : ChronologicalOrder}
    → merge o ≡ some (k, o')
    → merge o' ≡ some (0, o')
unfolding merge
merge-merge o {o' = o'} e = go (Merging-IsSettled (merge-Merging o e))
  where
    go : IsSettled o' → merge o' ≡ some (0, o')
    go (inl q) = merge_loop_ends _ o' 0 q
    go (inr q) = merge_loop_empties _ o' 0 q

get_elem?-append {ℓ} :
    {A : Type ℓ} (xs ys : List A) (i : ℕ) {a : A}
    → get_elem? xs i ≡ some a
    → get_elem? (xs ++ ys) i ≡ some a
get_elem?-append [] ys i e = cc
get_elem?-append (x ∷ xs) ys zero e = e
get_elem?-append (x ∷ xs) ys (suc i) e = get_elem?-append xs ys i e

locate-take_front :
    (o : ChronologicalOrder) (best step : ℕ) {l : Location}
    → locate o step ≡ some l
    → locate (take_front o best) step ≡ some l
unfolding locate take_front size
locate-take_front o best step {l} e = ground (
  arith,
  length-append o.order
      (record { broker = best % 2 ^ 32; ordinal = step_ordinal (front o best) } ∷ []),
  get_elem?-append o.order
      (record { broker = best % 2 ^ 32; ordinal = step_ordinal (front o best) } ∷ []) step {a = l},
)

locate-Merging :
    {o o' : ChronologicalOrder} {k : ℕ} (step : ℕ) {l : Location}
    → Merging o k o'
    → locate o step ≡ some l
    → locate o' step ≡ some l
locate-Merging step (stop s) e = e
locate-Merging {o} step (take best q n m) e =
    locate-Merging step m (locate-take_front o best step e)

-- A step that has been merged stays where it is located.
pub locate-merge :
    (o : ChronologicalOrder) {k : ℕ} {o' : ChronologicalOrder} (step : ℕ) {l : Location}
    → merge o ≡ some (k, o')
    → locate o step ≡ some l
    → locate o' step ≡ some l
locate-merge o step e = locate-Merging step (merge-Merging o e)

get_elem?-length {ℓ} :
    {A : Type ℓ} (xs : List A) (i : ℕ) → (get_elem? xs i ≢ none) ↔ (i < length xs)
get_elem?-length [] i = ((λ h. absurd (h refl)), λ h. absurd (omega arith))
get_elem?-length (x ∷ xs) zero = ((λ h. omega arith), λ h. λ e. cc)
get_elem?-length (x ∷ xs) (suc i) =
    let (f, g) = get_elem?-length xs i in ((λ h. omega (arith, f h)), λ h. g (omega arith))

-- Exactly the steps below the size of the order can be located.
pub locate-size : (o : ChronologicalOrder) (step : ℕ) → (locate o step ≢ none) ↔ (step < size o)
unfolding locate size
locate-size o step =
    ((λ h. ground (arith, h)), λ h. ground (arith, (get_elem?-length o.order step).1 h))
