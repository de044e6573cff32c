-- ===== src/BrokerGroup/Shared.antt =====
-- The StreamBroker and the access pattern whose buffer a fetch fills.
use sbio.Prelude.{ℕ, ◌≡◌, refl, inl, inr, true, some, get_elem?, arith, Option-cases}
use sbio.Topology.{StepMapping, GroupTopology}
use sbio.Topology.Mapping.{same_mapping}
use sbio.BrokerGroup.{shares_fetch, shares_buffer}

abbrev pub Fills : GroupTopology → ℕ → ℕ → ℕ → Type 0
Fills t broker_no broker ptn =
    (get_elem? t.stream_brokers broker_no ≡ some broker)
    × (get_elem? t.broker_access_ptns broker_no ≡ some ptn)

pub shares_buffer-Fills :
    (t : GroupTopology) (b : ℕ) (u : GroupTopology) (c : ℕ)
    → shares_buffer t b u c ≡ true
    → (broker : ℕ) × (ptn : ℕ) × Fills t b broker ptn × Fills u c broker ptn
unfolding shares_buffer
shares_buffer-Fills t b u c e = elim (Option-cases (get_elem? t.stream_brokers b)) [
  | inl n ↦ absurd (ground arith)
  | inr (x, q) ↦ elim (Option-cases (get_elem? u.stream_brokers c)) [
    | inl n ↦ absurd (ground arith)
    | inr (y, r) ↦ elim (Option-cases (get_elem? t.broker_access_ptns b)) [
      | inl n ↦ absurd (ground arith)
      | inr (p, v) ↦ elim (Option-cases (get_elem? u.broker_access_ptns c)) [
        | inl n ↦ absurd (ground arith)
        | inr (w, z) ↦ (x, p, (ground arith, ground arith), (ground arith, ground arith))
      ]
    ]
  ]
]

pub Fills-shares_buffer :
    (t : GroupTopology) (b : ℕ) (u : GroupTopology) (c broker ptn : ℕ)
    → Fills t b broker ptn
    → Fills u c broker ptn
    → shares_buffer t b u c ≡ true
unfolding shares_buffer
Fills-shares_buffer t b u c broker ptn h k = ground arith

pub shares_fetch-shares_buffer :
    (t : GroupTopology) (b : ℕ) (u : GroupTopology) (c : ℕ)
    → shares_fetch t b u c ≡ true
    → (shares_buffer t b u c ≡ true)
      × (t.step_mapping ≡ u.step_mapping)
      × (t.align_ptn ≡ u.align_ptn)
unfolding shares_fetch
shares_fetch-shares_buffer t b u c e =
    (ground arith, same t.step_mapping u.step_mapping (ground arith), ground arith)
  where
    same : (m n : StepMapping) → same_mapping m n ≡ true → m ≡ n
    same StepMapping.per_kind StepMapping.per_kind e = refl
    same StepMapping.per_kind StepMapping.align_to e = cc
    same StepMapping.align_to StepMapping.per_kind e = cc
    same StepMapping.align_to StepMapping.align_to e = refl

pub shares_fetch_self :
    (t : GroupTopology) (b broker ptn : ℕ) → Fills t b broker ptn → shares_fetch t b t b ≡ true
unfolding shares_fetch
shares_fetch_self t b broker ptn h =
    ground (arith, Fills-shares_buffer t b t b broker ptn h h, self t.step_mapping)
  where
    self : (m : StepMapping) → same_mapping m m ≡ true
    self StepMapping.per_kind = refl
    self StepMapping.align_to = refl
