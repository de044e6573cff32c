-- ===== src/Topology/Slots/Sorted.antt =====
-- The sorting arranges the positions of the segments so that the keys rise.
use sbio.Prelude.{
  ℕ, zero, suc, ◌+◌, ◌-◌, ◌≤◌, ◌<◌, ◌≡◌, ap, true, false, inl, inr, arith, ltb, Bool-cases,
  ℕ_discrete,
}
use mathlib.Core.Path.{subst}
use sbio.Topology.Slots.{smallest_of, best_from, swap, sort_round, sorted_indices, final_indices}

-- Positions below `n`, none of them twice.
pub record IsArranged (n : ℕ) (indices : ℕ → ℕ) : Type 0 where
  pub bounded : (i : ℕ) → i < n → indices i < n
  pub injective : (i j : ℕ) → i < n → j < n → indices i ≡ indices j → i ≡ j

swap-IsArranged :
    (key : ℕ → ℕ) (n i best : ℕ) (indices : ℕ → ℕ)
    → i < n
    → best < n
    → IsArranged n indices
    → IsArranged n (swap key i best indices)
unfolding swap
swap-IsArranged key n i best indices h k a = record {
  bounded = λ j p. ground (arith, a.bounded j, a.bounded i, a.bounded best);
  injective = λ j l p q e. ground (
    arith,
    e,
    a.injective j l,
    a.injective j i,
    a.injective j best,
    a.injective i l,
    a.injective best l,
    a.injective i best,
  );
}

module _ (key : ℕ → ℕ) (n : ℕ) where
  smallest_lem : (m i : ℕ) → i < m → smallest_of key m ≤ key i
  unfolding smallest_of
  smallest_lem zero i h = absurd (omega arith)
  smallest_lem (suc m) i h = elim (ℕ_discrete i m) [
    | yes e ↦ ground (arith, ap key e)
    | no e ↦ ground (arith, smallest_lem m i (omega arith))
  ]

  -- The inner loop finds a position from `i` on whose key is least.
  best_from_lem :
      (rounds j i best : ℕ) (indices : ℕ → ℕ)
      → IsArranged n indices
      → j + rounds ≡ n
      → i ≤ best
      → best < j
      → ((l : ℕ) → i ≤ l → l < j → key (indices best) ≤ key (indices l))
      → (i ≤ best_from key rounds j (smallest_of key n) best indices)
        × (best_from key rounds j (smallest_of key n) best indices < n)
        × ((l : ℕ)
            → i ≤ l
            → l < n
            → key (indices (best_from key rounds j (smallest_of key n) best indices))
              ≤ key (indices l))
  unfolding best_from
  best_from_lem zero j i best indices a e u v g = (u, omega arith, λ l p q. g l p (omega arith))
  best_from_lem (suc rounds) j i best indices a e u v g =
      let low_j = smallest_lem n (indices j) (a.bounded j (omega arith)) in
      let low_best = smallest_lem n (indices best) (a.bounded best (omega arith)) in
      elim (Bool-cases
        (ltb (key (indices j) - smallest_of key n) (key (indices best) - smallest_of key n))) [
          | inl b ↦ rw b (
              best_from_lem rounds (j + 1) i j indices a (omega arith) (omega arith) (omega arith)
                (λ l p q. below l p q (less b low_j low_best)))
          | inr b ↦ rw b (
              best_from_lem rounds (j + 1) i best indices a (omega arith) u (omega arith)
                (λ l p q. keep l p q (more b low_j low_best)))
        ]
    where
      less :
          ltb (key (indices j) - smallest_of key n) (key (indices best) - smallest_of key n) ≡ true
          → smallest_of key n ≤ key (indices j)
          → smallest_of key n ≤ key (indices best)
          → key (indices j) < key (indices best)
      less b c d = ground arith

      more :
          ltb (key (indices j) - smallest_of key n) (key (indices best) - smallest_of key n) ≡ false
          → smallest_of key n ≤ key (indices j)
          → smallest_of key n ≤ key (indices best)
          → key (indices best) ≤ key (indices j)
      more b c d = ground arith

      below :
          (l : ℕ)
          → i ≤ l
          → l < j + 1
          → key (indices j) < key (indices best)
          → key (indices j) ≤ key (indices l)
      below l p q c = elim (ℕ_discrete l j) [
        | yes z ↦ ground (arith, ap (λ k. key (indices k)) z)
        | no z ↦ omega (arith, g l p (omega arith))
      ]

      keep :
          (l : ℕ)
          → i ≤ l
          → l < j + 1
          → key (indices best) ≤ key (indices j)
          → key (indices best) ≤ key (indices l)
      keep l p q c = elim (ℕ_discrete l j) [
        | yes z ↦ ground (arith, ap (λ k. key (indices k)) z)
        | no z ↦ g l p (omega arith)
      ]

  -- The first `i` positions have the least keys, in rising order.
  record IsRising (i : ℕ) (indices : ℕ → ℕ) : Type 0 where
    arranged : IsArranged n indices
    rising : (a b : ℕ) → a < i → a < b → b < n → key (indices a) ≤ key (indices b)

  swap-IsRising :
      (i best : ℕ) (indices : ℕ → ℕ)
      → i ≤ best
      → best < n
      → ((l : ℕ) → i ≤ l → l < n → key (indices best) ≤ key (indices l))
      → IsRising i indices
      → IsRising (i + 1) (swap key i best indices)
  unfolding swap
  swap-IsRising i best indices h k g r = record {
    arranged = swap-IsArranged key n i best indices (omega arith) k r.arranged;
    rising = λ a b p q u. elim (ℕ_discrete a i) [
      | yes e ↦ ground (arith, e, ap (λ k. key (indices k)) e, g b, g i)
      | no e ↦ ground (arith, r.rising a b, r.rising a i, r.rising a best)
    ];
  }

  round-IsRising :
      (i : ℕ) (indices : ℕ → ℕ)
      → i < n
      → IsRising i indices
      → IsRising (i + 1) (sort_round key n i indices)
  unfolding sort_round
  round-IsRising i indices h r =
      let (p, q, g) =
        best_from_lem (n - (i + 1)) (i + 1) i i indices r.arranged (omega arith) (omega arith)
          (omega arith) (λ l u v. same l (omega arith)) in
      swap-IsRising i _ indices p q g r
    where
      same : (l : ℕ) → l ≡ i → key (indices i) ≤ key (indices l)
      same l e = ground (arith, ap (λ k. key (indices k)) e)

  rounds-IsRising : (rounds : ℕ) → rounds ≤ n → IsRising rounds (sorted_indices key n rounds)
  unfolding sorted_indices
  rounds-IsRising zero h = record {
    arranged = record { bounded = λ i p. p; injective = λ i j p q e. e };
    rising = λ a b p q u. absurd (omega arith);
  }
  rounds-IsRising (suc rounds) h =
      subst (λ k. IsRising k (sort_round key n rounds (sorted_indices key n rounds)))
        (add_one rounds)
        (round-IsRising rounds _ (omega arith) (rounds-IsRising rounds (omega arith)))
    where
      add_one : (k : ℕ) → k + 1 ≡ suc k
      add_one k = omega arith

  -- The segments are put in the order of their keys, each of them once.
  pub final_indices_lem :
      0 < n
      → IsArranged n (final_indices key n)
        × ((a b : ℕ) → a < b → b < n → key (final_indices key n a) ≤ key (final_indices key n b))
  unfolding final_indices
  final_indices_lem h =
      let r = rounds-IsRising (n - 1) (omega arith) in
      (r.arranged, λ a b p q. r.rising a b (omega arith) p q)
