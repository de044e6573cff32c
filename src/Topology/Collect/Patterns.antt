-- ===== src/Topology/Collect/Patterns.antt =====
-- The loop over the access patterns, and the collection as a whole.
use sbio.Prelude.{
  ℕ, zero, suc, ◌+◌, ◌≤◌, ◌<◌, ◌≡◌, true, some, List, length, get_elem?, arith, ℕ_discrete,
}
use mathlib.Core.Path.{subst}
use sbio.Metadata.Inventory.Access.{num_entries}
use sbio.Topology.Collect.{Broker, Found, is_duplicate, visit_brokers, visit_patterns, collect}
use sbio.Topology.Collect.Complete.{
  Keeps, Keeps-same, Keeps-trans, is_match, segment_of, visit_brokers-Keeps, visit_brokers_lem,
}

module _ {F : Type 0} (size max_segments : ℕ) (name : List ℕ) where
  visit_patterns-Keeps :
      (n ptn : ℕ) (brokers : List (Broker F)) (found : Found)
      → Keeps found (visit_patterns size max_segments name n ptn brokers found)
  unfolding visit_patterns
  visit_patterns-Keeps zero ptn brokers found = Keeps-same found
  visit_patterns-Keeps (suc n) ptn brokers found =
      Keeps-trans _ _ _ (visit_brokers-Keeps size max_segments name brokers 0 ptn found)
        (visit_patterns-Keeps n (ptn + 1) brokers _)

  visit_patterns_lem :
      (n start ptn : ℕ) (brokers : List (Broker F)) (j i : ℕ) (broker : Broker F) (found : Found)
      → length (visit_patterns size max_segments name n start brokers found).segments < max_segments
      → start ≤ ptn
      → ptn < start + n
      → get_elem? brokers j ≡ some broker
      → i < num_entries broker.metadata
      → is_match size max_segments name i ptn broker ≡ true
      → is_duplicate
          (visit_patterns size max_segments name n start brokers found).segments
          j
          (segment_of size max_segments name i broker)
        ≡ true
  unfolding visit_patterns
  visit_patterns_lem zero start ptn brokers j i broker found h l u q v m = absurd (omega arith)
  visit_patterns_lem (suc n) start ptn brokers j i broker found h l u q v m =
      let next = visit_brokers size max_segments name brokers 0 start found in
      let rest = visit_patterns-Keeps n (start + 1) brokers next in
      elim (ℕ_discrete ptn start) [
        | yes e ↦ rest.keeps j (segment_of size max_segments name i broker) (
            subst
              (λ k.
                is_duplicate next.segments k (segment_of size max_segments name i broker) ≡ true)
              (none_add j)
              (visit_brokers_lem size max_segments name brokers 0 start j i broker found
                (omega (arith, rest.longer)) q v
                (subst (λ p. is_match size max_segments name i p broker ≡ true) e m)))
        | no e ↦
            visit_patterns_lem n (start + 1) ptn brokers j i broker next h (omega arith)
              (omega arith) q v m
      ]
    where
      none_add : (j : ℕ) → 0 + j ≡ j
      none_add j = omega arith

  -- Where the collected segments do not fill the group, each entry of a StreamBroker that matches the
  -- name under one of the access patterns has its segment among them.
  pub collect_complete :
      (ptn_count ptn : ℕ) (brokers : List (Broker F)) (j i : ℕ) (broker : Broker F)
      → length (collect size max_segments name ptn_count brokers).segments < max_segments
      → ptn < ptn_count
      → get_elem? brokers j ≡ some broker
      → i < num_entries broker.metadata
      → is_match size max_segments name i ptn broker ≡ true
      → is_duplicate
          (collect size max_segments name ptn_count brokers).segments
          j
          (segment_of size max_segments name i broker)
        ≡ true
  unfolding collect
  collect_complete ptn_count ptn brokers j i broker h u q v m =
      visit_patterns_lem ptn_count 0 ptn brokers j i broker _ h (omega arith) (omega arith) q v m
