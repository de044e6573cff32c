-- ===== src/Chronology/Conserve.antt =====
-- No step is lost, repeated or moved past another step of its StreamBroker.
use sbio.Prelude.{
  ℕ, ◌+◌, ◌%◌, ◌^◌, ◌≤◌, ◌<◌, ◌≡◌, refl, sym, ◌∙◌, ap, some, List, [], ◌∷◌, ◌++◌, get_or-set_self,
  get_or-set_ne, length-append, arith, ◌==◌, ltb, not, ◌&&◌, if◌then◌else◌, ℕ_discrete,
}
use mathlib.Core.List.{append_assoc, append-nil}
use sbio.Chronology.{
  ChronologicalOrder, Location, PendingStep, front, head_step, pending_of, next_ordinal_of,
  pop_front, num_brokers, size, take_front, step_ordinal, merge, add,
}
use sbio.Chronology.Merging.{
  Merging, stop, take, IsPick, pick, merge-Merging, num_brokers-take_front,
  pending_of-take_front_self, pending_of-take_front_ne,
}

-- The ordinals of one StreamBroker in the merged order, and those that wait in its queue.
abbrev pub merged_of : List Location → ℕ → List ℕ
merged_of [] b = []
merged_of (l ∷ ls) b = (if l.broker == b then l.ordinal ∷ [] else []) ++ merged_of ls b

abbrev pub ordinals : List PendingStep → List ℕ
ordinals [] = []
ordinals (s ∷ q) = s.0 ∷ ordinals q

-- All steps that a StreamBroker has added, merged or not, in order.
abbrev pub steps_of : ChronologicalOrder → ℕ → List ℕ
steps_of o b = merged_of o.order b ++ ordinals (pending_of o b)

merged_of-snoc :
    (ls : List Location) (l : Location) (b : ℕ)
    → merged_of (ls ++ l ∷ []) b ≡ merged_of ls b ++ (if l.broker == b then l.ordinal ∷ [] else [])
merged_of-snoc [] l b = append-nil _
merged_of-snoc (x ∷ ls) l b =
    ap (λ t. (if x.broker == b then x.ordinal ∷ [] else []) ++ t) (merged_of-snoc ls l b)
    ∙ sym (append_assoc (if x.broker == b then x.ordinal ∷ [] else []) _ _)

ordinals-append : (p q : List PendingStep) → ordinals (p ++ q) ≡ ordinals p ++ ordinals q
ordinals-append [] q = refl
ordinals-append (s ∷ p) q = ap (◌∷◌ s.0) (ordinals-append p q)

ordinals-pop :
    (q : List PendingStep) {s : PendingStep}
    → head_step q ≡ some s
    → ordinals q ≡ s.0 ∷ ordinals (pop_front q)
unfolding head_step pop_front
ordinals-pop [] e = cc
ordinals-pop (x ∷ q) e = ground arith

merged_of-take_front :
    (o : ChronologicalOrder) (best : ℕ) {s : PendingStep} (b : ℕ)
    → num_brokers o ≤ 2 ^ 32
    → IsPick o best s
    → merged_of (take_front o best).order b
      ≡ merged_of o.order b ++ (if best == b then s.0 ∷ [] else [])
unfolding take_front
merged_of-take_front o best {s} b few p =
    merged_of-snoc o.order _ b ∙ ap (λ t. merged_of o.order b ++ t) same
  where
    same :
        (if best % 2 ^ 32 == b then step_ordinal (front o best) ∷ [] else [])
        ≡ (if best == b then s.0 ∷ [] else [])
    same = ground arith

steps_of-take_front :
    (o : ChronologicalOrder) (best : ℕ) {s : PendingStep} (b : ℕ)
    → num_brokers o ≤ 2 ^ 32
    → IsPick o best s
    → steps_of (take_front o best) b ≡ steps_of o b
steps_of-take_front o best {s} b few p = elim (ℕ_discrete best b) [
  | yes e ↦ ground (
    arith,
    merged_of-take_front o best b few p,
    pending_of-take_front_self o best p.below,
    ordinals-pop (pending_of o best) p.head,
    append_assoc (merged_of o.order b) (s.0 ∷ []) (ordinals (pop_front (pending_of o best))),
  )
  | no e ↦ ground (
    arith,
    merged_of-take_front o best b few p,
    pending_of-take_front_ne o best b e,
    append-nil (merged_of o.order b),
  )
]

steps_of-Merging :
    {o o' : ChronologicalOrder} {k : ℕ} (b : ℕ)
    → num_brokers o ≤ 2 ^ 32
    → Merging o k o'
    → steps_of o' b ≡ steps_of o b
steps_of-Merging b few (stop s) = refl
steps_of-Merging {o} b few (take best e n m) =
    let (s, p) = pick o best e n in
    steps_of-Merging b (omega (arith, (num_brokers-take_front o best).0)) m
    ∙ steps_of-take_front o best b few p

-- `merge` leaves the sequence of steps of each StreamBroker as it is: what it takes from the front
-- of a queue it puts at the end of that StreamBroker's merged steps.
pub steps_of-merge :
    (o : ChronologicalOrder) {k : ℕ} {o' : ChronologicalOrder} (b : ℕ)
    → num_brokers o ≤ 2 ^ 32
    → merge o ≡ some (k, o')
    → steps_of o' b ≡ steps_of o b
steps_of-merge o b few e = steps_of-Merging b few (merge-Merging o e)

size-Merging : {o o' : ChronologicalOrder} {k : ℕ} → Merging o k o' → size o' ≡ size o + k
unfolding size take_front
size-Merging (stop s) = omega arith
size-Merging {o} (take best e n m) = omega (arith, size-Merging m, length-append {0} o.order)

-- The count that `merge` returns is by how much the order grows.
pub size-merge :
    (o : ChronologicalOrder) {k : ℕ} {o' : ChronologicalOrder}
    → merge o ≡ some (k, o')
    → size o' ≡ size o + k
size-merge o e = size-Merging (merge-Merging o e)

-- `add` appends a new step to its StreamBroker's steps, skips one that it has had, and leaves the
-- other StreamBrokers alone.
pub steps_of-add :
    (o : ChronologicalOrder) (c ordinal key b : ℕ)
    → c < num_brokers o
    → steps_of (add o c ordinal key) b ≡ (
        if c == b && not (ltb ordinal (next_ordinal_of o c))
        then steps_of o b ++ ordinal ∷ []
        else steps_of o b)
unfolding add num_brokers
steps_of-add o c ordinal key b h = elim (ℕ_discrete c b) [
  | yes e ↦ ground (
    arith,
    get_or-set_self o.pending c (pending_of o c ++ (ordinal, key) ∷ []) [] h,
    ordinals-append (pending_of o c) ((ordinal, key) ∷ []),
    append_assoc (merged_of o.order b) (ordinals (pending_of o c)) (ordinal ∷ []),
  )
  | no e ↦ ground (arith, get_or-set_ne o.pending c b (pending_of o c ++ (ordinal, key) ∷ []) [] e)
]
