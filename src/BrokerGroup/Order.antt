-- ===== src/BrokerGroup/Order.antt =====
-- The order of a group's steps in its StreamBrokers.
use sbio.Prelude.{
  ℕ, zero, suc, ◌/◌, ◌≤◌, ◌≡◌, refl, inl, inr, Bool, true, Option, none, some, length, arith,
  Bool-cases,
}
use native.Mathlib.Nat.{mul-div-le, le-div_iff_mul-le, mul_comm}
use sbio.Chronology.{Location}
use sbio.Topology.{GroupTopology, locate, space}
use sbio.Topology.Locate.{located_ordered}

-- Later steps have no earlier ordinals in a StreamBroker.
abbrev pub StepsRise : (ℕ → Bool) → GroupTopology → Type 0
StepsRise distributed t =
    (k l b o p : ℕ)
    → k ≤ l
    → locate distributed t k ≡ (true, b, o)
    → locate distributed t l ≡ (true, b, p)
    → o ≤ p

div-le-div : (k l n : ℕ) → k ≤ l → k / suc n ≤ l / suc n
div-le-div k l n h =
    (le-div_iff_mul-le {k = suc n} (omega arith)).1
      (omega (arith, mul-div-le k (suc n), mul_comm (k / suc n) (suc n)))

-- Steps that are dealt round-robin rise.
pub dealt-StepsRise :
    (distributed : ℕ → Bool) (t : GroupTopology) → t.chronology ≡ none → StepsRise distributed t
unfolding locate
dealt-StepsRise distributed t c k l b o p h e f = elim (Bool-cases (distributed (space t))) [
  | inr d ↦ ground arith
  | inl d ↦ by_number d (length t.stream_brokers) refl
]
  where
    by_number : distributed (space t) ≡ true → (n : ℕ) → length t.stream_brokers ≡ n → o ≤ p
    by_number d zero m = absurd (ground arith)
    by_number d (suc n) m = ground (arith, d, c, m, div-le-div k l n h)

-- And so do those of an order in which the ordinals of each StreamBroker rise.
pub ordered-StepsRise :
    (distributed : ℕ → Bool) (t : GroupTopology) (order : ℕ → Option Location)
    → distributed (space t) ≡ true
    → t.chronology ≡ some order
    → ((k l : ℕ) (x y : Location)
        → k ≤ l
        → order k ≡ some x
        → order l ≡ some y
        → x.broker ≡ y.broker
        → x.ordinal ≤ y.ordinal)
    → StepsRise distributed t
ordered-StepsRise distributed t order d c rise k l b o p h e f =
    let (x, q, r, u) = located_ordered distributed t order k b o d c e in
    let (y, q', r', u') = located_ordered distributed t order l b p d c f in
    ground (arith, rise k l x y h q q')
