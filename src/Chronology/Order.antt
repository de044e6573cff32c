-- ===== src/Chronology/Order.antt =====
-- The merged order is the time order. `time b n` is the order key of step `n` of StreamBroker `b`:
-- the streams are given, and each is in time order.
pub mod Merge
pub mod Add
use sbio.Prelude.{
  ℕ, zero, suc, ◌+◌, ◌%◌, ◌^◌, ◌≤◌, ◌<◌, ◌≡◌, refl, sym, ◌∙◌, ap, ◌≢◌, ◌⊎◌, inl, inr, true, false,
  Bool, Option, none, some, List, [], ◌∷◌, ◌++◌, length, get_or, set, length-set, get_or-set_self,
  get_or-set_ne, arith, Bool-cases, Option-cases, ◌==◌, ltb, if◌then◌else◌, ℕ_discrete, All,
  All-snoc, All-map, replicate, get_or-replicate, length-replicate,
}
use sbio.Chronology.{
  ChronologicalOrder, Location, PendingStep, create, front, head_step, pending_of, next_ordinal_of,
  pop_front, num_brokers, size, take_front, step_ordinal, step_key, is_exhausted, merge, add,
  set_exhausted,
}
use sbio.Chronology.Fronts.{LeastBelow}
use sbio.Chronology.Merging.{
  Merging, stop, take, IsPick, pick, merge-Merging, num_brokers-take_front,
  pending_of-take_front_self, pending_of-take_front_ne,
}

-- The ordinal that StreamBroker `b` contributes next.
abbrev pub due_of : List PendingStep → ℕ → ℕ
due_of [] next = next
due_of (s ∷ q) next = s.0

abbrev pub due : ChronologicalOrder → ℕ → ℕ
due o b = due_of (pending_of o b) (next_ordinal_of o b)

-- StreamBroker `b` has, or may still get, steps to merge.
abbrev pub IsOpen : ChronologicalOrder → ℕ → Type 0
IsOpen o b = (front o b ≢ none) ⊎ (is_exhausted o b ≡ false)

IsOpen-set_exhausted :
    (o : ChronologicalOrder) (c b : ℕ)
    → b < length o.exhausted
    → IsOpen (set_exhausted o c) b
    → IsOpen o b
unfolding set_exhausted is_exhausted
IsOpen-set_exhausted o c b h (inl f) = inl f
IsOpen-set_exhausted o c b h (inr x) = inr (elim (ℕ_discrete c b) [
  | yes e ↦ ground (arith, get_or-set_self o.exhausted c true false)
  | no e ↦ ground (arith, get_or-set_ne o.exhausted c b true false e)
])

module _ (time : ℕ → ℕ → ℕ) where
  abbrev pub time_of : Location → ℕ
  time_of l = time l.broker l.ordinal

  -- No step comes before an earlier one.
  abbrev pub IsSorted : List Location → Type 0
  IsSorted [] = Unit
  IsSorted (l ∷ ls) = All (λ m. time_of l ≤ time_of m) ls × IsSorted ls

  IsSorted-snoc :
      (ls : List Location) (l : Location)
      → IsSorted ls
      → All (λ m. time_of m ≤ time_of l) ls
      → IsSorted (ls ++ l ∷ [])
  IsSorted-snoc [] l s h = (tt, tt)
  IsSorted-snoc (m ∷ ls) l s h = (All-snoc _ ls l s.0 h.0, IsSorted-snoc ls l s.1 h.1)

  -- Waiting steps of StreamBroker `b`, with their keys and ascending, from ordinal `lo` to `hi`.
  abbrev pub IsQueue : ℕ → ℕ → ℕ → List PendingStep → Type 0
  IsQueue b lo hi [] = lo ≤ hi
  IsQueue b lo hi (s ∷ q) = (s.1 ≡ time b s.0) × (lo ≤ s.0) × IsQueue b (s.0 + 1) hi q

  IsQueue-snoc :
      (b lo hi n : ℕ) (q : List PendingStep)
      → hi ≤ n
      → IsQueue b lo hi q
      → IsQueue b lo (n + 1) (q ++ (n, time b n) ∷ [])
  IsQueue-snoc b lo hi n [] h q = (refl, omega arith, omega arith)
  IsQueue-snoc b lo hi n (s ∷ q) h k = (k.0, k.1, IsQueue-snoc b (s.0 + 1) hi n q h k.2)

  IsQueue_le : (b lo hi : ℕ) (q : List PendingStep) → IsQueue b lo hi q → lo ≤ hi
  IsQueue_le b lo hi [] h = h
  IsQueue_le b lo hi (s ∷ q) h = omega (arith, IsQueue_le b (s.0 + 1) hi q h.2)

  pub record IsTimely (o : ChronologicalOrder) : Type 0 where
    pub few : num_brokers o ≤ 2 ^ 32
    pub ordinals : length o.next_ordinal ≡ num_brokers o
    pub flags : length o.exhausted ≡ num_brokers o
    pub queued : (b : ℕ) → b < num_brokers o → IsQueue b 0 (next_ordinal_of o b) (pending_of o b)
    pub sorted : IsSorted o.order
    pub placed :
        (b : ℕ) → b < num_brokers o → IsOpen o b → All (λ l. time_of l ≤ time b (due o b)) o.order

  pub create-IsTimely : (n : ℕ) → n ≤ 2 ^ 32 → IsTimely (create n)
  unfolding create num_brokers is_exhausted
  create-IsTimely n h = record {
    few = omega (arith, length-replicate {0} {A = List PendingStep} n []);
    ordinals = length-replicate n 0 ∙ sym (length-replicate n []);
    flags = length-replicate n false ∙ sym (length-replicate n []);
    queued = λ b k.
        rw (get_or-replicate {A = List PendingStep} n b [], get_or-replicate {A = ℕ} n b 0)
          (omega arith);
    sorted = tt;
    placed = λ b k p. tt;
  }

  pub set_exhausted-IsTimely :
      {o : ChronologicalOrder} (c : ℕ) → IsTimely o → IsTimely (set_exhausted o c)
  unfolding set_exhausted num_brokers
  set_exhausted-IsTimely {o} c t = record {
    few = t.few;
    ordinals = t.ordinals;
    flags = length-set o.exhausted c true ∙ t.flags;
    queued = t.queued;
    sorted = t.sorted;
    placed = λ b k p. t.placed b k (IsOpen-set_exhausted o c b (omega (arith, t.flags)) p);
  }

  front-IsQueue :
      (b hi : ℕ) (q : List PendingStep) {s : PendingStep}
      → head_step q ≡ some s
      → IsQueue b 0 hi q
      → s.1 ≡ time b s.0
  unfolding head_step
  front-IsQueue b hi [] e h = cc
  front-IsQueue b hi (x ∷ q) e h = ground (arith, h.0)

  pub IsTimely-key :
      {o : ChronologicalOrder} {b : ℕ} {s : PendingStep}
      → IsTimely o
      → b < num_brokers o
      → front o b ≡ some s
      → s.1 ≡ time b s.0
  IsTimely-key {o} {b} t h e = front-IsQueue b _ (pending_of o b) e (t.queued b h)
