-- ===== src/DataSource/Discover.antt =====
-- `discover_metadata` leaves an order that has the first steps of each stream.
use sbio.Prelude.{
  ℕ, ◌+◌, ◌^◌, ◌≤◌, ◌<◌, ◌≡◌, ◌⊎◌, refl, sym, ap, ◌∙◌, inl, inr, true, false, some, List, [], ◌∷◌,
  length, get_elem?, arith, ltb, ◌==◌, if◌then◌else◌, Bool-cases, length-replicate,
  get_or-replicate, get_or, none, All,
}
use mathlib.Core.Path.{subst}
use sbio.Io.{IoStatus, ok}
use sbio.Chronology.{
  ChronologicalOrder, create, num_brokers, size, may_index, is_exhausted, front, merge,
}
use sbio.Chronology.Conserve.{steps_of, ordinals, steps_of-merge}
use sbio.Chronology.Complete.{merge_complete}
use sbio.Chronology.Merging.{
  Merging, stop, take, merge_total, merge-Merging, num_brokers-take_front,
}
use sbio.DataSource.{
  StreamBroker, DataSource, sum, discover_streams, add_streams, discover_metadata,
}
use sbio.DataSource.Rounds.{HasEntries}
use sbio.DataSource.Trigger.{Merging-HasEntries}
use sbio.DataSource.Entered.{IsRising, IsEntered, add_streams_lem, add_streams_lengths}

Merging-exhausted :
    {o o' : ChronologicalOrder} {j : ℕ} → Merging o j o' → o'.exhausted ≡ o.exhausted
Merging-exhausted (stop s) = refl
Merging-exhausted {o} (take best e n m) = Merging-exhausted m ∙ (num_brokers-take_front o best).1

is_exhausted-merge :
    (o o' : ChronologicalOrder) {k : ℕ}
    → merge o ≡ some (k, o')
    → (b : ℕ) → is_exhausted o' b ≡ is_exhausted o b
unfolding is_exhausted
is_exhausted-merge o o' q b = ap (λ x. get_or x b false) (Merging-exhausted (merge-Merging o q))

create-steps_of : (n m : ℕ) → steps_of (create n) m ≡ []
unfolding create
create-steps_of n m = ap ordinals (get_or-replicate n m [])

create_lengths :
    (n : ℕ) → (num_brokers (create n) ≡ n) × (length (create n).exhausted ≡ num_brokers (create n))
unfolding create num_brokers
create_lengths n = (length-replicate n [], length-replicate n false ∙ sym (length-replicate n []))

create-is_exhausted : (n m : ℕ) → is_exhausted (create n) m ≡ false
unfolding create is_exhausted
create-is_exhausted n m = get_or-replicate n m false

create-next_ordinal : (n m : ℕ) → get_or (create n).next_ordinal m 0 ≡ 0
unfolding create
create-next_ordinal n m = get_or-replicate n m 0

-- Nothing more can be merged: a StreamBroker has to be indexed first, or all are exhausted and have
-- nothing pending.
abbrev pub IsMerged : ChronologicalOrder → Type 0
IsMerged o =
    ((b : ℕ) × (b < num_brokers o) × (may_index o b ≡ true))
    ⊎ ((b : ℕ) → b < num_brokers o → (front o b ≡ none) × (is_exhausted o b ≡ true))

module _ {B C : Type 0} (ops : StreamBroker B C) where
  length-discover_streams :
      (ss : List (B × List C)) (capacity : ℕ)
      → length (discover_streams ops ss capacity).2 ≡ length ss
  unfolding discover_streams
  length-discover_streams [] capacity = refl
  length-discover_streams ((b, cs) ∷ rest) capacity =
      let (prepared, b') = ops.prepare b in
      let (indexed, b'') = ops.index_stream b' in
      let n = ops.capacity b'' in
      let i = length-discover_streams rest (if ltb capacity n then n else capacity) in
      elim (Bool-cases (ok prepared)) [
        | inr p ↦ ground (arith, p)
        | inl p ↦ elim (Bool-cases (ok indexed)) [
          | inr q ↦ ground (arith, p, q)
          | inl q ↦ ground (arith, p, q, i)
        ]
      ]

  -- The discovery of a source that merges its streams, of which there are at most 2^32, and of which each
  -- visits what it indexed by rising ordinals, returns. Either it succeeds: then for each stream as it was
  -- indexed, the order, merged and pending steps together, has exactly the steps that were indexed, in
  -- their order, and has the stream exhausted exactly where there are none; nothing more can be merged;
  -- and the capacity is the number of steps that were merged. Or it fails, and the order and the capacity
  -- are as before.
  pub discover_metadata_lem :
      (ds : DataSource B C)
      → All (λ s. IsRising 0 (ops.steps s.0)) (discover_streams ops ds.streams 0).2
      → length ds.streams ≤ 2 ^ 32
      → (status : IoStatus) × (ds' : DataSource B C) × (discover_metadata ops true ds
          ≡ some (status, ds'))
        × (((status ≡ IoStatus.success)
              × ((k : ℕ) (b : B) (cs : List C)
                  → get_elem? ds'.streams k ≡ some (b, cs)
                  → IsEntered ops ds'.chronology k b)
              × HasEntries (length ds'.streams) ds'.chronology
              × IsMerged ds'.chronology
              × (ds'.steps_capacity ≡ size ds'.chronology))
            ⊎ ((ok status ≡ false)
                × (ds'.chronology ≡ ds.chronology)
                × (ds'.steps_capacity ≡ ds.steps_capacity)))
  unfolding discover_metadata
  discover_metadata_lem ds rising few =
      let (status, capacity, streams) = discover_streams ops ds.streams 0 in
      let same = length-discover_streams ds.streams 0 in
      let start = add_streams ops 0 streams (create (length streams)) in
      let (merged, o, q, m) = merge_total start in
      elim (Bool-cases (ok status)) [
        | inr a ↦ (
          status,
          record {
            streams = streams;
            steps_capacity = ds.steps_capacity;
            chronology = ds.chronology;
          },
          ground arith,
          inr (a, refl, refl),
        )
        | inl a ↦ (
          IoStatus.success,
          record { streams = streams; steps_capacity = size o; chronology = o },
          ground (arith, q, a),
          inl (
            refl,
            entered streams rising (omega (arith, same, few)) merged o q,
            has_entries streams o m,
            merge_complete start q,
            refl,
          ),
        )
      ]
    where
      has_entries :
          (ss : List (B × List C)) (o : ChronologicalOrder) {k : ℕ}
          → Merging (add_streams ops 0 ss (create (length ss))) k o
          → HasEntries (length ss) o
      has_entries ss o m =
          let (x, y) = create_lengths (length ss) in
          let (p, q) = add_streams_lengths ops 0 ss (create (length ss)) (omega (arith, x)) y in
          Merging-HasEntries (length ss) m (record { entries = p ∙ x; flags = q ∙ x })

      entered :
          (ss : List (B × List C))
          → All (λ s. IsRising 0 (ops.steps s.0)) ss
          → length ss ≤ 2 ^ 32
          → (k : ℕ) (o : ChronologicalOrder)
          → merge (add_streams ops 0 ss (create (length ss))) ≡ some (k, o)
          → (j : ℕ) (b : B) (cs : List C) → get_elem? ss j ≡ some (b, cs)
          → IsEntered ops o j b
      entered ss rising few k o q j b cs e =
          let (x, y) = create_lengths (length ss) in
          let start = add_streams ops 0 ss (create (length ss)) in
          let (s, t) =
            add_streams_lem ops 0 ss (create (length ss)) rising (omega (arith, x)) y
              (λ i l. (
                create-is_exhausted (length ss) i,
                create-steps_of (length ss) i,
                create-next_ordinal (length ss) i,
              ))
              j b cs e in
          let (p, _) = add_streams_lengths ops 0 ss (create (length ss)) (omega (arith, x)) y in
          let zero_add : 0 + j ≡ j = omega arith in
          let kept = steps_of-merge start j (omega (arith, p, x, few)) q in
          (
            is_exhausted-merge start o q j
                ∙ subst (λ i. is_exhausted start i ≡ (sum (ops.num_steps b) == 0)) zero_add s,
            kept
                ∙ subst
                    (λ i.
                      steps_of start i
                      ≡ (if sum (ops.num_steps b) == 0 then [] else ordinals (ops.steps b)))
                    zero_add t,
          )
