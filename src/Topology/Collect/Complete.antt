-- ===== src/Topology/Collect/Complete.antt =====
-- A group that is not full has a segment for each entry that matches.
use sbio.Prelude.{
  ℕ, zero, suc, ◌+◌, ◌≤◌, ◌<◌, ◌≡◌, sym, Bool, true, ◌||◌, some, List, [], ◌∷◌, length,
  length-append, get_elem?, arith, inl, inr, ltb, Bool-cases, ℕ_discrete,
}
use mathlib.Core.Path.{subst}
use mathlib.Core.Option.{some-injective}
use sbio.Metadata.Inventory.Access.{entry_matches, metadata_for, num_entries, is_wildcard}
use sbio.Topology.Collect.{
  Broker, Found, is_duplicate, is_duplicate-append, new_segment, enter, visit_entry, visit_entries,
  visit_brokers,
}

-- What was found stays found.
pub record Keeps (f g : Found) : Type 0 where
  pub keeps : (b n : ℕ) → is_duplicate f.segments b n ≡ true → is_duplicate g.segments b n ≡ true
  pub longer : length f.segments ≤ length g.segments

pub Keeps-same : (f : Found) → Keeps f f
Keeps-same f = record { keeps = λ b n d. d; longer = omega arith }

pub Keeps-trans : (f g h : Found) → Keeps f g → Keeps g h → Keeps f h
Keeps-trans f g h k l = record {
  keeps = λ b n d. l.keeps b n (k.keeps b n d);
  longer = omega (arith, k.longer, l.longer);
}

module _ {F : Type 0} (size max_segments : ℕ) (name : List ℕ) where
  -- An entry belongs to the group under an access pattern.
  abbrev pub is_match : ℕ → ℕ → Broker F → Bool
  is_match e ptn broker = entry_matches e name ptn broker.metadata || is_wildcard name

  -- The identifier of an entry's segment.
  abbrev pub segment_of : ℕ → Broker F → ℕ
  segment_of e broker = (metadata_for size e broker.metadata).1

  visit_entry_lem :
      (ptn b e : ℕ) (broker : Broker F) (found : Found)
      → let next = visit_entry size max_segments name ptn b e broker found in
        Keeps found next
        × (is_match e ptn broker ≡ true → is_duplicate next.segments b (segment_of e broker) ≡ true)
  unfolding visit_entry enter new_segment
  visit_entry_lem ptn b e broker found =
      let n = segment_of e broker in
      elim (Bool-cases (is_match e ptn broker)) [
        | inr a ↦ rw (visit_entry, a) (Keeps-same found, λ m. cc)
        | inl a ↦ elim (Bool-cases (is_duplicate found.segments b n)) [
          | inl d ↦ rw (visit_entry, a, enter, d) (Keeps-same found, λ m. d)
          | inr d ↦
              rw (visit_entry, a, enter, d)
                (
                  record {
                    keeps = λ c m q.
                        ground
                          (arith, is_duplicate-append found.segments (new_segment b n ptn) c m);
                    longer = omega (arith, length-append found.segments (new_segment b n ptn ∷ []));
                  },
                  λ m. ground (arith, is_duplicate-append found.segments (new_segment b n ptn) b n),
                )
        ]
      ]

  visit_entries-Keeps :
      (n e ptn b : ℕ) (broker : Broker F) (found : Found)
      → Keeps found (visit_entries size max_segments name n e ptn b broker found)
  unfolding visit_entries
  visit_entries-Keeps zero e ptn b broker found = Keeps-same found
  visit_entries-Keeps (suc n) e ptn b broker found =
      elim (Bool-cases (ltb (length found.segments) max_segments)) [
        | inr a ↦ rw a (Keeps-same found)
        | inl a ↦ rw a (
            Keeps-trans _ _ _ (visit_entry_lem ptn b e broker found).0
              (visit_entries-Keeps n (e + 1) ptn b broker _))
      ]

  visit_entries_lem :
      (n e ptn b i : ℕ) (broker : Broker F) (found : Found)
      → length (visit_entries size max_segments name n e ptn b broker found).segments < max_segments
      → e ≤ i
      → i < e + n
      → is_match i ptn broker ≡ true
      → is_duplicate
          (visit_entries size max_segments name n e ptn b broker found).segments
          b
          (segment_of i broker)
        ≡ true
  unfolding visit_entries
  visit_entries_lem zero e ptn b i broker found h l u m = absurd (omega arith)
  visit_entries_lem (suc n) e ptn b i broker found h l u m =
      elim (Bool-cases (ltb (length found.segments) max_segments)) [
        | inr a ↦ absurd (ground arith)
        | inl a ↦ rw a (elim (ℕ_discrete e i) [
          | yes q ↦ (visit_entries-Keeps n (e + 1) ptn b broker _).keeps b (segment_of i broker) (
              subst
                (λ j.
                  is_match j ptn broker ≡ true
                  → is_duplicate (visit_entry size max_segments name ptn b e broker found).segments
                      b (segment_of j broker)
                    ≡ true)
                q (visit_entry_lem ptn b e broker found).1 m)
          | no q ↦
              visit_entries_lem n (e + 1) ptn b i broker _ (ground arith) (omega arith)
                (omega arith) m
        ])
      ]

  pub visit_brokers-Keeps :
      (brokers : List (Broker F)) (b ptn : ℕ) (found : Found)
      → Keeps found (visit_brokers size max_segments name brokers b ptn found)
  unfolding visit_brokers
  visit_brokers-Keeps [] b ptn found = Keeps-same found
  visit_brokers-Keeps (broker ∷ brokers) b ptn found =
      elim (Bool-cases (ltb (length found.segments) max_segments)) [
        | inr a ↦ rw a (Keeps-same found)
        | inl a ↦ rw a (
            Keeps-trans _ _ _
              (visit_entries-Keeps (num_entries broker.metadata) 0 ptn b broker found)
              (visit_brokers-Keeps brokers (b + 1) ptn _))
      ]

  pub visit_brokers_lem :
      (brokers : List (Broker F)) (b ptn j i : ℕ) (broker : Broker F) (found : Found)
      → length (visit_brokers size max_segments name brokers b ptn found).segments < max_segments
      → get_elem? brokers j ≡ some broker
      → i < num_entries broker.metadata
      → is_match i ptn broker ≡ true
      → is_duplicate
          (visit_brokers size max_segments name brokers b ptn found).segments
          (b + j)
          (segment_of i broker)
        ≡ true
  unfolding visit_brokers
  visit_brokers_lem [] b ptn j i broker found h q u m = cc
  visit_brokers_lem (x ∷ xs) b ptn zero i broker found h q u m =
      elim (Bool-cases (ltb (length found.segments) max_segments)) [
        | inr a ↦ absurd (ground arith)
        | inl a ↦
            let next =
              visit_entries size max_segments name (num_entries x.metadata) 0 ptn b x found in
            let rest = visit_brokers-Keeps xs (b + 1) ptn next in
            let room : length (visit_brokers size max_segments name xs (b + 1) ptn next).segments
                < max_segments =
              ground (arith, a, h) in
            rw a (
              subst
                (λ k.
                  is_duplicate (visit_brokers size max_segments name xs (b + 1) ptn next).segments k
                    (segment_of i broker)
                  ≡ true)
                (add_none b)
                (rest.keeps b (segment_of i broker)
                  (here x (some-injective x broker q) (omega (arith, rest.longer, room)))))
      ]
    where
      add_none : (b : ℕ) → b ≡ b + 0
      add_none b = omega arith

      here :
          (y : Broker F)
          → y ≡ broker
          → length
              (visit_entries size max_segments name
                (num_entries y.metadata)
                0
                ptn
                b
                y
                found).segments
            < max_segments
          → is_duplicate
              (visit_entries size max_segments name
                (num_entries y.metadata)
                0
                ptn
                b
                y
                found).segments
              b
              (segment_of i broker)
            ≡ true
      here y p l = subst Shown (sym p) shown l
        where
          Shown : Broker F → Type 0
          Shown y =
              length
                  (visit_entries size max_segments name (num_entries y.metadata) 0 ptn b y
                    found).segments
                < max_segments
              → is_duplicate
                  (visit_entries size max_segments name (num_entries y.metadata) 0 ptn b y
                    found).segments
                  b (segment_of i broker)
                ≡ true

          shown : Shown broker
          shown l =
              visit_entries_lem (num_entries broker.metadata) 0 ptn b i broker found l (omega arith)
                (omega arith) m
  visit_brokers_lem (x ∷ xs) b ptn (suc j) i broker found h q u m =
      elim (Bool-cases (ltb (length found.segments) max_segments)) [
        | inr a ↦ absurd (ground arith)
        | inl a ↦
            let next =
              visit_entries size max_segments name (num_entries x.metadata) 0 ptn b x found in
            rw a (
              subst
                (λ k.
                  is_duplicate (visit_brokers size max_segments name xs (b + 1) ptn next).segments k
                    (segment_of i broker)
                  ≡ true)
                (shifted b j)
                (visit_brokers_lem xs (b + 1) ptn j i broker next (ground (arith, a, h)) q u m))
      ]
    where
      shifted : (b j : ℕ) → b + 1 + j ≡ b + suc j
      shifted b j = omega arith
