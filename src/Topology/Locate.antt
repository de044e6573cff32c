-- ===== src/Topology/Locate.antt =====
-- Where the steps of a group are.
use sbio.Prelude.{
  ℕ, zero, suc, ◌+◌, ◌*◌, ◌≤◌, ◌<◌, ◌≡◌, ◌≢◌, ◌⊎◌, refl, sym, ap, ◌∙◌, Bool, true, false, Option,
  none, some, List, [], ◌∷◌, length, get_elem?, arith, inl, inr, ltb, ltb→lt, ◌==◌, if◌then◌else◌,
  Bool-cases, Option-cases, All, get_elem?-lt,
}
use native.Mathlib.Nat.{add-mul-div_right, div-eq_of_lt, add-mul-mod_self_right, mod-eq_of_lt}
use sbio.Chronology.{Location}
use sbio.Topology.{
  SegmentRef, GroupTopology, count_slots, count_logical_segments, create, position, space, locate,
}

-- A StreamBroker's position is the first place where it stands.
position_lem :
    (xs : List ℕ) (b : ℕ)
    → ((i : ℕ) × (position xs b ≡ some i)
        × (get_elem? xs i ≡ some b)
        × ((j : ℕ) → j < i → get_elem? xs j ≢ some b))
      ⊎ ((position xs b ≡ none) × ((j : ℕ) → get_elem? xs j ≢ some b))
unfolding position
position_lem [] b = inr (refl, λ j e. cc)
position_lem (x ∷ xs) b = elim (Bool-cases (x == b)) [
  | inl a ↦ inl (0, ground arith, ground arith, λ j l. absurd (omega arith))
  | inr a ↦ elim (position_lem xs b) [
    | inl (i, p, q, h) ↦ inl (suc i, ground (arith, p), q, λ j l. before_suc x xs b a j i l h)
    | inr (p, h) ↦ inr (ground (arith, p), λ j. other_head x xs b a j (h (pred j)))
  ]
]
  where
    pred : ℕ → ℕ
    pred zero = zero
    pred (suc n) = n

    other_head :
        (x : ℕ) (xs : List ℕ) (b : ℕ)
        → (x == b) ≡ false
        → (j : ℕ) → get_elem? xs (pred j) ≢ some b
        → get_elem? (x ∷ xs) j ≢ some b
    other_head x xs b a zero h e = ground arith
    other_head x xs b a (suc j) h e = h e

    before_suc :
        (x : ℕ) (xs : List ℕ) (b : ℕ)
        → (x == b) ≡ false
        → (j i : ℕ) → j < suc i
        → ((k : ℕ) → k < i → get_elem? xs k ≢ some b)
        → get_elem? (x ∷ xs) j ≢ some b
    before_suc x xs b a zero i l h e = ground arith
    before_suc x xs b a (suc j) i l h e = h j (omega arith) e

-- A distributed step of a group with an order is located exactly where the order has it in a
-- StreamBroker of the group: then at the first position of that StreamBroker, and at the ordinal that
-- the order gives. It is not located where the order does not have it, or has it in another
-- StreamBroker.
pub locate_ordered :
    (distributed : ℕ → Bool) (t : GroupTopology) (order : ℕ → Option Location) (step : ℕ)
    → distributed (space t) ≡ true
    → t.chronology ≡ some order
    → ((loc : Location) × (b : ℕ) × (order step ≡ some loc)
        × (locate distributed t step ≡ (true, b, loc.ordinal))
        × (get_elem? t.stream_brokers b ≡ some loc.broker)
        × ((j : ℕ) → j < b → get_elem? t.stream_brokers j ≢ some loc.broker))
      ⊎ ((order step ≡ none) × (locate distributed t step ≡ (false, 0, step)))
      ⊎ ((loc : Location) × (order step ≡ some loc)
          × (locate distributed t step ≡ (false, 0, step))
          × ((j : ℕ) → get_elem? t.stream_brokers j ≢ some loc.broker))
unfolding locate
locate_ordered distributed t order step d c = elim (Option-cases (order step)) [
  | inl n ↦ inr (inl (n, unordered (length t.stream_brokers) refl n))
  | inr (loc, n) ↦ elim (position_lem t.stream_brokers loc.broker) [
    | inr (p, h) ↦ inr (inr (loc, n, elsewhere (length t.stream_brokers) loc refl n p, h))
    | inl (i, p, q, h) ↦ inl (
      loc,
      i,
      n,
      placed (length t.stream_brokers) loc i refl n p
          (get_elem?-lt t.stream_brokers i loc.broker q),
      q,
      h,
    )
  ]
]
  where
    unordered :
        (n : ℕ)
        → length t.stream_brokers ≡ n
        → order step ≡ none
        → locate distributed t step ≡ (false, 0, step)
    unordered zero e q = ground (arith, e, c, d)
    unordered (suc n) e q = ground (arith, e, c, d, q)

    elsewhere :
        (n : ℕ) (loc : Location)
        → length t.stream_brokers ≡ n
        → order step ≡ some loc
        → position t.stream_brokers loc.broker ≡ none
        → locate distributed t step ≡ (false, 0, step)
    elsewhere zero loc e q p = ground (arith, e, c, d)
    elsewhere (suc n) loc e q p = ground (arith, e, c, d, q, p)

    placed :
        (n : ℕ) (loc : Location) (i : ℕ)
        → length t.stream_brokers ≡ n
        → order step ≡ some loc
        → position t.stream_brokers loc.broker ≡ some i
        → i < length t.stream_brokers
        → locate distributed t step ≡ (true, i, loc.ordinal)
    placed zero loc i e q p l = absurd (omega arith)
    placed (suc n) loc i e q p l = ground (arith, e, c, d, q, p)

-- A step that is located is in the StreamBroker and at the ordinal that the order gives.
pub located_ordered :
    (distributed : ℕ → Bool) (t : GroupTopology) (order : ℕ → Option Location) (step b o : ℕ)
    → distributed (space t) ≡ true
    → t.chronology ≡ some order
    → locate distributed t step ≡ (true, b, o)
    → (loc : Location) × (order step ≡ some loc)
      × (get_elem? t.stream_brokers b ≡ some loc.broker)
      × (o ≡ loc.ordinal)
located_ordered distributed t order step b o d c e =
    elim (locate_ordered distributed t order step d c) [
      | inl (loc, i, n, p, q, _) ↦
          let same = sym p ∙ e in
          (
            loc,
            n,
            ap (get_elem? t.stream_brokers) (sym (ap (λ x. x.1) same)) ∙ q,
            sym (ap (λ x. x.2) same),
          )
      | inr (inl (_, p)) ↦ absurd (cc (sym p ∙ e))
      | inr (inr (loc, _, p, _)) ↦ absurd (cc (sym p ∙ e))
    ]

-- Every logical slot is counted, and the count is that of a slot which is there.
count_slots_rises : (ss : List SegmentRef) (n : ℕ) → n ≤ count_slots ss n
unfolding count_slots
count_slots_rises [] n = omega arith
count_slots_rises (s ∷ ss) n = elim (Bool-cases (ltb n (s.logical_slot + 1))) [
  | inl a ↦
      rw a
        (omega (arith, ltb→lt n (s.logical_slot + 1) a, count_slots_rises ss (s.logical_slot + 1)))
  | inr a ↦ rw a (count_slots_rises ss n)
]

count_slots_lem :
    (ss : List SegmentRef) (n m : ℕ) → count_slots ss n ≤ m → All (λ s. s.logical_slot < m) ss
unfolding count_slots
count_slots_lem [] n m h = tt
count_slots_lem (s ∷ ss) n m h =
    let next = if ltb n (s.logical_slot + 1) then s.logical_slot + 1 else n in
    (ground (arith, count_slots_rises ss next, h), count_slots_lem ss next m h)

-- The slot of a segment, or the count begun with, reaches the count.
count_slots_reached :
    (ss : List SegmentRef) (n : ℕ)
    → (count_slots ss n ≡ n)
      ⊎ ((i : ℕ) × (s : SegmentRef) × (get_elem? ss i ≡ some s)
          × (count_slots ss n ≡ s.logical_slot + 1))
unfolding count_slots
count_slots_reached [] n = inl refl
count_slots_reached (s ∷ ss) n = elim (Bool-cases (ltb n (s.logical_slot + 1))) [
  | inl a ↦ rw a (elim (count_slots_reached ss (s.logical_slot + 1)) [
    | inl e ↦ inr (0, s, refl, e)
    | inr (i, t, q, e) ↦ inr (suc i, t, q, e)
  ])
  | inr a ↦
      rw a (elim (count_slots_reached ss n) [
        | inl e ↦ inl e
        | inr (i, t, q, e) ↦ inr (suc i, t, q, e)
      ])
]

-- The number of logical segments is one more than the largest slot: every slot is below it, and where
-- it is not 0 some segment has the slot just below.
pub num_logical_segments_lem :
    (segs : List SegmentRef)
    → All (λ s. s.logical_slot < (create segs).num_logical_segments) segs
      × (((create segs).num_logical_segments ≡ 0)
          ⊎ ((i : ℕ) × (s : SegmentRef) × (get_elem? segs i ≡ some s)
              × ((create segs).num_logical_segments ≡ s.logical_slot + 1)))
unfolding create count_logical_segments
num_logical_segments_lem segs = (count_slots_lem segs 0 _ (omega arith), count_slots_reached segs 0)

-- Without an order the steps are dealt round-robin: the step number `o * n + b` of a group with `n`
-- StreamBrokers is the one with ordinal `o` in StreamBroker `b`.
pub locate_dealt :
    (distributed : ℕ → Bool) (t : GroupTopology) (b o : ℕ)
    → distributed (space t) ≡ true
    → t.chronology ≡ none
    → b < length t.stream_brokers
    → locate distributed t (b + o * length t.stream_brokers) ≡ (true, b, o)
unfolding locate
locate_dealt distributed t b o d c l = dealt (length t.stream_brokers) refl l
  where
    dealt :
        (n : ℕ)
        → length t.stream_brokers ≡ n
        → b < n
        → locate distributed t (b + o * n) ≡ (true, b, o)
    dealt zero e l = absurd (omega arith)
    dealt (suc n) e l = ground (
      arith,
      e,
      c,
      d,
      add-mul-div_right b o {z = suc n} (omega arith),
      div-eq_of_lt l,
      add-mul-mod_self_right b o (suc n),
      mod-eq_of_lt l,
    )
