-- ===== src/DataSource/Entered.antt =====
-- The steps that streams which were indexed enter into an order.
use sbio.Prelude.{
  ℕ, zero, suc, ◌+◌, ◌%◌, ◌^◌, ◌≤◌, ◌<◌, ◌≡◌, ◌≢◌, refl, sym, ap, ◌∙◌, inl, inr, true, false, some,
  List, [], ◌∷◌, ◌++◌, length, get_elem?, get_or, set, arith, ltb, ◌==◌, if◌then◌else◌, Bool-cases,
  get_or-set_self, get_or-set_ne, length-set, All,
}
use mathlib.Core.List.{append_assoc, append-nil}
use mathlib.Core.Path.{subst}
use sbio.Chronology.{
  ChronologicalOrder, set_exhausted, add, num_brokers, is_exhausted, next_ordinal_of, pending_of,
}
use sbio.Chronology.Conserve.{steps_of, ordinals, steps_of-add}
use sbio.DataSource.{StreamBroker, sum, add_steps, add_indexed_steps, add_streams}
use sbio.DataSource.Rounds.{add_steps-exhausted}

-- Ordinals from `next` on that rise, below the largest 64-bit number.
abbrev pub IsRising : ℕ → List (ℕ × ℕ) → Type 0
IsRising next [] = Unit
IsRising next ((ordinal, key) ∷ rest) =
    (next ≤ ordinal) × (ordinal + 1 < 2 ^ 64) × IsRising (ordinal + 1) rest

get_or-set_le : (xs : List ℕ) (i v : ℕ) → get_or (set xs i v) i 0 ≤ v
get_or-set_le [] i v = omega arith
get_or-set_le (x ∷ xs) zero v = omega arith
get_or-set_le (x ∷ xs) (suc i) v = get_or-set_le xs i v

next_ordinal_of-add :
    (o : ChronologicalOrder) (n ordinal key : ℕ)
    → next_ordinal_of o n ≤ ordinal
    → next_ordinal_of (add o n ordinal key) n ≤ ordinal + 1
unfolding add
next_ordinal_of-add o n ordinal key l =
    ground (arith, get_or-set_le o.next_ordinal n ((ordinal + 1) % 2 ^ 64))

next_ordinal_of-add_other :
    (o : ChronologicalOrder) (n ordinal key m : ℕ)
    → n ≢ m
    → next_ordinal_of (add o n ordinal key) m ≡ next_ordinal_of o m
unfolding add
next_ordinal_of-add_other o n ordinal key m d =
    elim (Bool-cases (ltb ordinal (next_ordinal_of o n))) [
      | inl a ↦ ground (arith, a)
      | inr a ↦ ground (arith, a, get_or-set_ne o.next_ordinal n m ((ordinal + 1) % 2 ^ 64) 0 d)
    ]

num_brokers-add :
    (o : ChronologicalOrder) (n ordinal key : ℕ) → num_brokers (add o n ordinal key) ≡ num_brokers o
unfolding add num_brokers
num_brokers-add o n ordinal key =
    ground (arith, length-set o.pending n (pending_of o n ++ (ordinal, key) ∷ []))

module _ {B C : Type 0} (ops : StreamBroker B C) where
  -- Rising steps of a StreamBroker are all entered, in order.
  add_steps_own :
      (n next : ℕ) (steps : List (ℕ × ℕ)) (o : ChronologicalOrder)
      → n < num_brokers o
      → next_ordinal_of o n ≤ next
      → IsRising next steps
      → steps_of (add_steps ops n steps o) n ≡ steps_of o n ++ ordinals steps
  unfolding add_steps
  add_steps_own n next [] o l h r = sym (append-nil (steps_of o n))
  add_steps_own n next ((ordinal, key) ∷ rest) o l h (g, s, r) =
      let i =
        add_steps_own n (ordinal + 1) rest (add o n ordinal key)
          (omega (arith, num_brokers-add o n ordinal key, l))
          (next_ordinal_of-add o n ordinal key (omega arith)) r in
      let here : steps_of (add o n ordinal key) n ≡ steps_of o n ++ ordinal ∷ [] =
        ground (arith, steps_of-add o n ordinal key n l) in
      i
      ∙ ap (λ x. x ++ ordinals rest) here
      ∙ append_assoc (steps_of o n) (ordinal ∷ []) (ordinals rest)

  add_steps_other :
      (n m : ℕ) (steps : List (ℕ × ℕ)) (o : ChronologicalOrder)
      → n < num_brokers o
      → n ≢ m
      → (steps_of (add_steps ops n steps o) m ≡ steps_of o m)
        × (next_ordinal_of (add_steps ops n steps o) m ≡ next_ordinal_of o m)
  unfolding add_steps
  add_steps_other n m [] o l d = (refl, refl)
  add_steps_other n m ((ordinal, key) ∷ rest) o l d =
      let (i, j) =
        add_steps_other n m rest (add o n ordinal key)
          (omega (arith, num_brokers-add o n ordinal key, l)) d in
      let here : steps_of (add o n ordinal key) m ≡ steps_of o m =
        ground (arith, steps_of-add o n ordinal key m l) in
      (i ∙ here, j ∙ next_ordinal_of-add_other o n ordinal key m d)

  -- An order has the steps of a stream, or has it exhausted where it indexed none.
  abbrev pub IsEntered : ChronologicalOrder → ℕ → B → Type 0
  IsEntered o n b =
      (is_exhausted o n ≡ (sum (ops.num_steps b) == 0))
      × (steps_of o n ≡ (if sum (ops.num_steps b) == 0 then [] else ordinals (ops.steps b)))

  -- What an order has of a StreamBroker is what another one has.
  abbrev IsSame : ChronologicalOrder → ChronologicalOrder → ℕ → Type 0
  IsSame o o' m =
      (is_exhausted o' m ≡ is_exhausted o m)
      × (steps_of o' m ≡ steps_of o m)
      × (next_ordinal_of o' m ≡ next_ordinal_of o m)

  -- Nothing has been entered for StreamBroker `m`.
  abbrev IsUntouched : ChronologicalOrder → ℕ → Type 0
  IsUntouched o m = (is_exhausted o m ≡ false) × (steps_of o m ≡ []) × (next_ordinal_of o m ≡ 0)

  module _ (n : ℕ) (b : B) (o : ChronologicalOrder) (l : n < num_brokers o)
      (flags : length o.exhausted ≡ num_brokers o) where
    add_indexed_other : (m : ℕ) → n ≢ m → IsSame o (add_indexed_steps ops n b o) m
    unfolding add_indexed_steps set_exhausted is_exhausted
    add_indexed_other m d = elim (Bool-cases (sum (ops.num_steps b) == 0)) [
      | inl c ↦ rw c (get_or-set_ne o.exhausted n m true false d, refl, refl)
      | inr c ↦
          let (i, j) = add_steps_other n m (ops.steps b) o l d in
          rw c (ap (λ x. get_or x m false) (add_steps-exhausted ops n (ops.steps b) o).0, i, j)
    ]

    add_indexed-IsEntered :
        IsRising 0 (ops.steps b) → IsUntouched o n → IsEntered (add_indexed_steps ops n b o) n b
    unfolding add_indexed_steps set_exhausted is_exhausted
    add_indexed-IsEntered r (x, s, z) = elim (Bool-cases (sum (ops.num_steps b) == 0)) [
      | inl c ↦ rw c (get_or-set_self o.exhausted n true false (omega (arith, flags, l)), s)
      | inr c ↦ rw c (
        ap (λ y. get_or y n false) (add_steps-exhausted ops n (ops.steps b) o).0 ∙ x,
        add_steps_own n 0 (ops.steps b) o l (omega arith) r
            ∙ ap (λ y. y ++ ordinals (ops.steps b)) s,
      )
    ]

    add_indexed_lengths :
        (num_brokers (add_indexed_steps ops n b o) ≡ num_brokers o)
        × (length (add_indexed_steps ops n b o).exhausted ≡ num_brokers o)
    unfolding add_indexed_steps set_exhausted num_brokers
    add_indexed_lengths = elim (Bool-cases (sum (ops.num_steps b) == 0)) [
      | inl c ↦ rw c (refl, length-set o.exhausted n true ∙ flags)
      | inr c ↦
          let (e, k, _) = add_steps-exhausted ops n (ops.steps b) o in rw c (k, ap length e ∙ flags)
    ]

  pub add_streams_lengths :
      (n : ℕ) (ss : List (B × List C)) (o : ChronologicalOrder)
      → n + length ss ≤ num_brokers o
      → length o.exhausted ≡ num_brokers o
      → (num_brokers (add_streams ops n ss o) ≡ num_brokers o)
        × (length (add_streams ops n ss o).exhausted ≡ num_brokers o)
  unfolding add_streams
  add_streams_lengths n [] o l f = (refl, f)
  add_streams_lengths n ((b, cs) ∷ rest) o l f =
      let (x, y) = add_indexed_lengths n b o (omega arith) f in
      let (p, q) =
        add_streams_lengths (n + 1) rest (add_indexed_steps ops n b o) (omega (arith, x, l))
          (y ∙ sym x) in
      (p ∙ x, q ∙ x)

  add_streams_before :
      (n : ℕ) (ss : List (B × List C)) (o : ChronologicalOrder)
      → n + length ss ≤ num_brokers o
      → length o.exhausted ≡ num_brokers o
      → (m : ℕ) → m < n
      → IsSame o (add_streams ops n ss o) m
  unfolding add_streams
  add_streams_before n [] o l f m k = (refl, refl, refl)
  add_streams_before n ((b, cs) ∷ rest) o l f m k =
      let (x, y) = add_indexed_lengths n b o (omega arith) f in
      let (p, q, r) =
        add_streams_before (n + 1) rest (add_indexed_steps ops n b o) (omega (arith, x, l))
          (y ∙ sym x) m (omega arith) in
      let (s, t, u) = add_indexed_other n b o (omega arith) f m (omega arith) in
      (p ∙ s, q ∙ t, r ∙ u)

  pub add_streams_lem :
      (n : ℕ) (ss : List (B × List C)) (o : ChronologicalOrder)
      → All (λ s. IsRising 0 (ops.steps s.0)) ss
      → n + length ss ≤ num_brokers o
      → length o.exhausted ≡ num_brokers o
      → ((m : ℕ) → n ≤ m → IsUntouched o m)
      → (j : ℕ) (b : B) (cs : List C) → get_elem? ss j ≡ some (b, cs)
      → IsEntered (add_streams ops n ss o) (n + j) b
  unfolding add_streams
  add_streams_lem n [] o r l f h j b cs e = absurd (ground arith)
  add_streams_lem n ((b, cs) ∷ rest) o (a, r) l f h zero b' cs' e =
      let (x, y) = add_indexed_lengths n b o (omega arith) f in
      let (p, q, _) =
        add_streams_before (n + 1) rest (add_indexed_steps ops n b o) (omega (arith, x, l))
          (y ∙ sym x) n (omega arith) in
      let (s, t) = add_indexed-IsEntered n b o (omega arith) f a (h n (omega arith)) in
      let same : b ≡ b' = ground (arith, e) in
      let here : n ≡ n + 0 = omega arith in
      subst (λ m. IsEntered (add_streams ops n ((b, cs) ∷ rest) o) m b') here
        (subst (λ d. IsEntered (add_streams ops n ((b, cs) ∷ rest) o) n d) same (p ∙ s, q ∙ t))
  add_streams_lem n ((b, cs) ∷ rest) o (a, r) l f h (suc j) b' cs' e =
      let (x, y) = add_indexed_lengths n b o (omega arith) f in
      let there : n + 1 + j ≡ n + suc j = omega arith in
      subst (λ m. IsEntered (add_streams ops (n + 1) rest (add_indexed_steps ops n b o)) m b') there
        (add_streams_lem (n + 1) rest (add_indexed_steps ops n b o) r (omega (arith, x, l))
          (y ∙ sym x)
          (λ m k.
            let (s, t, u) = add_indexed_other n b o (omega arith) f m (omega arith) in
            let (s', t', u') = h m (omega arith) in (s ∙ s', t ∙ t', u ∙ u'))
          j b' cs' e)
