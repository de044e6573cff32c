-- ===== src/BrokerGroup/Batch.antt =====
-- What `chrono_batch` notes of the steps of a batch.
use sbio.Prelude.{
  ℕ, zero, suc, ◌+◌, ◌-◌, ◌≤◌, ◌<◌, ◌≡◌, ◌≢◌, inl, inr, Bool, true, some, arith, ℕ_discrete,
  Bool-cases,
}
use mathlib.Core.Path.{subst}
use sbio.Topology.{GroupTopology, locate}
use sbio.BrokerGroup.{ChronoBatch, empty_batch, note_step, chrono_steps, chrono_batch}

module _ (distributed : ℕ → Bool) (t : GroupTopology) where
  -- Of the steps from `lo` up to `hi`, the batch has the first and the last in each StreamBroker.
  pub record IsNoted (lo hi : ℕ) (batch : ChronoBatch) : Type 0 where
    pub located :
        (k : ℕ)
        → lo ≤ k
        → k < hi
        → (b : ℕ) × (o : ℕ) × (locate distributed t k ≡ (true, b, o)) × (batch.any b ≡ true)
    pub first_is :
        (k b o : ℕ)
        → lo ≤ k
        → k < hi
        → locate distributed t k ≡ (true, b, o)
        → (i : ℕ) × (lo ≤ i) × (i ≤ k) × (locate distributed t i ≡ (true, b, batch.first b))
    pub last_is :
        (k b o : ℕ)
        → lo ≤ k
        → k < hi
        → locate distributed t k ≡ (true, b, o)
        → (j : ℕ) × (k ≤ j) × (j < hi) × (locate distributed t j ≡ (true, b, batch.last b))
    pub any_is :
        (b : ℕ)
        → batch.any b ≡ true
        → (k : ℕ) × (o : ℕ) × (lo ≤ k) × (k < hi) × (locate distributed t k ≡ (true, b, o))

  -- A step more.
  module _ (lo hi b o : ℕ) (batch : ChronoBatch) (h : lo ≤ hi) (i : IsNoted lo hi batch)
      (e : locate distributed t hi ≡ (true, b, o)) where
    note_step-IsNoted : IsNoted lo (hi + 1) (note_step batch b o)
    unfolding note_step
    note_step-IsNoted = record {
      located = λ k u v. elim (ℕ_discrete k hi) [
        | yes z ↦ (b, o, ground (arith, z, e), ground arith)
        | no z ↦ let (c, p, w, a) = i.located k u (omega arith) in (c, p, w, ground (arith, a))
      ];
      first_is = λ k c p u v w. elim (Bool-cases (batch.any c)) [
        | inl a ↦
            let (l, q, u', v', w') = i.any_is c a in
            let (m, x, y, z) = i.first_is l c q u' v' w' in
            elim (ℕ_discrete k hi) [
              | yes d ↦ (m, x, omega arith, first_kept m c a z)
              | no d ↦
                  let (m', x', y', z') = i.first_is k c p u (omega arith) w in
                  (m', x', y', first_kept m' c a z')
            ]
        | inr a ↦ elim (ℕ_discrete k hi) [
          | yes d ↦ (hi, h, omega arith, ground (arith, e, w, a, d))
          | no d ↦ let (c', p', w', a') = i.located k u (omega arith) in absurd (ground arith)
        ]
      ];
      last_is = λ k c p u v w. elim (ℕ_discrete c b) [
        | yes d ↦ (hi, omega arith, omega arith, ground (arith, d, e))
        | no d ↦
            let (l, x, y, z) = i.last_is k c p u (before k c p v w d) w in
            (l, x, omega arith, ground (arith, d, z))
      ];
      any_is = λ c a. elim (ℕ_discrete c b) [
        | yes d ↦ (hi, o, h, omega arith, ground (arith, d, e))
        | no d ↦ let (l, q, u, v, w) = i.any_is c (ground (arith, a)) in (l, q, u, omega arith, w)
      ];
    }
      where
        first_kept :
            (m c : ℕ)
            → batch.any c ≡ true
            → locate distributed t m ≡ (true, c, batch.first c)
            → locate distributed t m ≡ (true, c, (note_step batch b o).first c)
        first_kept m c a z = ground (arith, a, z)

        before : (k c p : ℕ) → k < hi + 1 → locate distributed t k ≡ (true, c, p) → c ≢ b → k < hi
        before k c p v w d = elim (ℕ_discrete k hi) [
          | yes z ↦ absurd (ground arith)
          | no z ↦ omega arith
        ]

  chrono_steps_lem :
      (n lo hi end : ℕ) (batch result : ChronoBatch)
      → lo ≤ hi
      → hi + n ≡ end
      → IsNoted lo hi batch
      → chrono_steps distributed t n hi batch ≡ some result
      → IsNoted lo end result
  unfolding chrono_steps
  chrono_steps_lem zero lo hi end batch result h g i e =
      subst (λ k. IsNoted lo k result) (the_end g) (subst (λ b. IsNoted lo hi b) the_batch i)
    where
      the_end : hi + 0 ≡ end → hi ≡ end
      the_end g = omega arith

      the_batch : batch ≡ result
      the_batch = cc
  chrono_steps_lem (suc n) lo hi end batch result h g i e =
      elim (Bool-cases (locate distributed t hi).0) [
        | inl a ↦
            chrono_steps_lem n lo (hi + 1) end
              (note_step batch (locate distributed t hi).1 (locate distributed t hi).2) result
              (omega arith) (omega arith) (note_step-IsNoted lo hi _ _ batch h i (located a))
              (rest a)
        | inr a ↦ absurd (ground arith)
      ]
    where
      located :
          (locate distributed t hi).0 ≡ true
          → locate distributed t hi
            ≡ (true, (locate distributed t hi).1, (locate distributed t hi).2)
      located a = ground arith

      rest :
          (locate distributed t hi).0 ≡ true
          → chrono_steps distributed t n
              (hi + 1)
              (note_step batch (locate distributed t hi).1 (locate distributed t hi).2)
            ≡ some result
      rest a = ground arith

  -- Where `chrono_batch` gives a batch of the steps from `first` up to `last`, each of these is in a
  -- StreamBroker of the batch, and the batch has the ordinals of the first and the last of those in it;
  -- the other StreamBrokers have none of the steps.
  pub chrono_batch_lem :
      (first last : ℕ) (batch : ChronoBatch)
      → first < last
      → chrono_batch distributed t first last ≡ some batch
      → IsNoted first last batch
  unfolding chrono_batch
  chrono_batch_lem first last batch h e =
      chrono_steps_lem (last - first) first first last empty_batch batch (omega arith) (omega arith)
        nothing (ground (arith, e))
    where
      nothing : IsNoted first first empty_batch
      nothing = record {
        located = λ k u v. absurd (omega arith);
        first_is = λ k b o u v. absurd (omega arith);
        last_is = λ k b o u v. absurd (omega arith);
        any_is = λ b a. cc;
      }
