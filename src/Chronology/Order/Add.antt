-- ===== src/Chronology/Order/Add.antt =====
-- `ChronologicalOrder::add` keeps what makes the merged order the time order, and the states that a
-- DataSource reaches.
use sbio.Prelude.{
  ℕ, ◌+◌, ◌%◌, ◌^◌, ◌≤◌, ◌<◌, ◌≡◌, sym, ap, ◌∙◌, ◌++◌, ◌≢◌, inl, inr, false, some, List, [], ◌∷◌,
  length, length-set, get_or-set_self, get_or-set_ne, arith, ℕ_discrete, dec_lt, All-map,
}
use mathlib.Core.Path.{subst}
use native.Mathlib.Nat.{le_trans}
use sbio.Chronology.{
  ChronologicalOrder, PendingStep, pending_of, next_ordinal_of, num_brokers, is_exhausted, merge,
  add, create, set_exhausted,
}
use sbio.Chronology.Order.{
  IsQueue, IsQueue-snoc, due, due_of, IsOpen, IsTimely, create-IsTimely, set_exhausted-IsTimely,
}
use sbio.Chronology.Order.Merge.{merge-IsTimely}

due_of-snoc :
    (q : List PendingStep) (next n key : ℕ)
    → next ≤ n
    → due_of q next ≤ due_of (q ++ (n, key) ∷ []) (n + 1)
due_of-snoc [] next n key h = h
due_of-snoc (s ∷ q) next n key h = omega arith

is_exhausted-exhausted :
    (o p : ChronologicalOrder) (b : ℕ)
    → o.exhausted ≡ p.exhausted
    → is_exhausted o b ≡ is_exhausted p b
unfolding is_exhausted
is_exhausted-exhausted o p b e = ground arith

module _ (o : ChronologicalOrder) (c ordinal key : ℕ) where
  add_old : ordinal < next_ordinal_of o c → add o c ordinal key ≡ o
  unfolding add
  add_old h = ground arith

  module _ (new : next_ordinal_of o c ≤ ordinal) where
    pending_of-add_self :
        c < num_brokers o
        → pending_of (add o c ordinal key) c ≡ pending_of o c ++ (ordinal, key) ∷ []
    unfolding add num_brokers
    pending_of-add_self h =
        ground (arith, get_or-set_self o.pending c (pending_of o c ++ (ordinal, key) ∷ []) [] h)

    pending_of-add_ne : (b : ℕ) → c ≢ b → pending_of (add o c ordinal key) b ≡ pending_of o b
    unfolding add
    pending_of-add_ne b h =
        ground (arith, get_or-set_ne o.pending c b (pending_of o c ++ (ordinal, key) ∷ []) [] h)

    next_ordinal_of-add_self :
        c < length o.next_ordinal
        → ordinal + 1 < 2 ^ 64
        → next_ordinal_of (add o c ordinal key) c ≡ ordinal + 1
    unfolding add
    next_ordinal_of-add_self h k =
        ground (arith, get_or-set_self o.next_ordinal c ((ordinal + 1) % 2 ^ 64) 0 h)

    next_ordinal_of-add_ne :
        (b : ℕ) → c ≢ b → next_ordinal_of (add o c ordinal key) b ≡ next_ordinal_of o b
    unfolding add
    next_ordinal_of-add_ne b h =
        ground (arith, get_or-set_ne o.next_ordinal c b ((ordinal + 1) % 2 ^ 64) 0 h)

    lengths-add :
        (num_brokers (add o c ordinal key) ≡ num_brokers o)
        × (length (add o c ordinal key).next_ordinal ≡ length o.next_ordinal)
        × ((add o c ordinal key).exhausted ≡ o.exhausted)
        × ((add o c ordinal key).order ≡ o.order)
    unfolding add num_brokers
    lengths-add = (
      ground (arith, length-set o.pending c (pending_of o c ++ (ordinal, key) ∷ [])),
      ground (arith, length-set o.next_ordinal c ((ordinal + 1) % 2 ^ 64)),
      ground arith,
      ground arith,
    )

module _ (time : ℕ → ℕ → ℕ) (rising : (b m n : ℕ) → m ≤ n → time b m ≤ time b n)
    {o : ChronologicalOrder} (c ordinal : ℕ) where
  module _ (t : IsTimely time o) (in_range : c < num_brokers o) (live : is_exhausted o c ≡ false)
      (fits : ordinal + 1 < 2 ^ 64) (new : next_ordinal_of o c ≤ ordinal) where
    abbrev added : ChronologicalOrder
    added = add o c ordinal (time c ordinal)

    queued-add :
        (b : ℕ)
        → b < num_brokers o
        → IsQueue time b 0 (next_ordinal_of added b) (pending_of added b)
    queued-add b h = elim (ℕ_discrete c b) [
      | yes e ↦
          subst (λ d. IsQueue time d 0 (next_ordinal_of added d) (pending_of added d)) e
            (rw
              (
                next_ordinal_of-add_self o c ordinal (time c ordinal) new (rw t.ordinals in_range)
                    fits,
                pending_of-add_self o c ordinal (time c ordinal) new in_range,
              )
              (IsQueue-snoc time c 0 _ ordinal (pending_of o c) new (t.queued c in_range)))
      | no e ↦
          rw
            (
              next_ordinal_of-add_ne o c ordinal (time c ordinal) new b e,
              pending_of-add_ne o c ordinal (time c ordinal) new b e,
            )
            (t.queued b h)
    ]

    due-add : (b : ℕ) → due o b ≤ due added b
    due-add b = elim (ℕ_discrete c b) [
      | yes e ↦ ground (
        arith,
        due_of-snoc (pending_of o c) (next_ordinal_of o c) ordinal (time c ordinal) new,
        next_ordinal_of-add_self o c ordinal (time c ordinal) new (rw t.ordinals in_range) fits,
        pending_of-add_self o c ordinal (time c ordinal) new in_range,
      )
      | no e ↦ ground (
        arith,
        next_ordinal_of-add_ne o c ordinal (time c ordinal) new b e,
        pending_of-add_ne o c ordinal (time c ordinal) new b e,
      )
    ]

    IsOpen-add : (b : ℕ) → IsOpen added b → IsOpen o b
    IsOpen-add b (inr x) = inr (rw is_exhausted-add at x)
      where
        is_exhausted-add : is_exhausted added b ≡ is_exhausted o b
        is_exhausted-add =
            is_exhausted-exhausted added o b (lengths-add o c ordinal (time c ordinal) new).2
    IsOpen-add b (inl f) = elim (ℕ_discrete c b) [
      | yes e ↦ inr (ground (arith, live))
      | no e ↦ inl (rw (pending_of-add_ne o c ordinal (time c ordinal) new b e) at f)
    ]

    add_new-IsTimely : IsTimely time added
    add_new-IsTimely =
        let (n, m, x, l) = lengths-add o c ordinal (time c ordinal) new in
        record {
          few = omega (arith, t.few);
          ordinals = m ∙ t.ordinals ∙ sym n;
          flags = ap length x ∙ t.flags ∙ sym n;
          queued = λ b h. queued-add b (rw n at h);
          sorted = rw l t.sorted;
          placed = λ b h k. rw l (
              All-map (λ m d. le_trans d (rising b _ _ (due-add b))) o.order
                (t.placed b (rw n at h) (IsOpen-add b k)));
        }

  -- `add` of a step with its time keeps the order sorted, for a StreamBroker that is not exhausted.
  pub add-IsTimely :
      IsTimely time o
      → c < num_brokers o
      → is_exhausted o c ≡ false
      → ordinal + 1 < 2 ^ 64
      → IsTimely time (add o c ordinal (time c ordinal))
  add-IsTimely t h x f = elim (dec_lt ordinal (next_ordinal_of o c)) [
    | yes old ↦ rw (add_old o c ordinal (time c ordinal) old) t
    | no new ↦ add_new-IsTimely t h x f (omega arith)
  ]

-- The states of a chronology whose steps have the order keys `time`: StreamBrokers are indexed as
-- long as they are not exhausted, found exhausted, and merged, in any sequence.
pub data Reached (time : ℕ → ℕ → ℕ) (n : ℕ) : ChronologicalOrder → Type 0 where
  start : Reached time n (create n)
  indexed :
      {o : ChronologicalOrder} (c ordinal : ℕ)
      → Reached time n o
      → c < num_brokers o
      → is_exhausted o c ≡ false
      → ordinal + 1 < 2 ^ 64
      → Reached time n (add o c ordinal (time c ordinal))
  finished :
      {o : ChronologicalOrder} (c : ℕ) → Reached time n o → Reached time n (set_exhausted o c)
  merged :
      {o o' : ChronologicalOrder} {k : ℕ}
      → Reached time n o
      → merge o ≡ some (k, o')
      → Reached time n o'

-- In every state that is reached the merged steps are in time order, and no step that a StreamBroker
-- has yet to bring is earlier than one of them, if each stream is in time order.
pub Reached-IsTimely :
    (time : ℕ → ℕ → ℕ) (n : ℕ) {o : ChronologicalOrder}
    → ((b i j : ℕ) → i ≤ j → time b i ≤ time b j)
    → n ≤ 2 ^ 32
    → Reached time n o
    → IsTimely time o
Reached-IsTimely time n rising few start = create-IsTimely time n few
Reached-IsTimely time n rising few (indexed c ordinal r h x f) =
    add-IsTimely time rising c ordinal (Reached-IsTimely time n rising few r) h x f
Reached-IsTimely time n rising few (finished c r) =
    set_exhausted-IsTimely time c (Reached-IsTimely time n rising few r)
Reached-IsTimely time n rising few (merged r e) =
    merge-IsTimely time rising (Reached-IsTimely time n rising few r) e
