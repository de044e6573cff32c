-- ===== src/Iteration/Sources/Available.antt =====
-- The steps that a set hands out are steps of all of its sources.
use sbio.Prelude.{
  ℕ, zero, suc, ◌+◌, ◌≤◌, ◌<◌, ◌≡◌, ◌⊎◌, refl, sym, ap, ◌∙◌, inl, inr, true, false, some, List, [],
  ◌∷◌, map, get_elem?, arith, leb, Bool-cases, All, All-map, All_at,
}
use mathlib.Core.Path.{subst}
use sbio.Steps.{exhausted_sentinel}
use sbio.Execution.Serial.{Iteration, next_impl, hand_out}
use sbio.Iteration.Sources.{DataSources, SourceSet, min_capacity, reindex_trigger, source, next}
use sbio.Iteration.Sources.Capacity.{after, min_of_lem, reindex_trigger_lem}

-- Reindexing never lowers the capacity of a source, and a capacity stays below the sentinel.
pub record IsLawful {D : Type 0} (ds : DataSources D) : Type 0 where
  pub grows : (d : D) → ds.steps_capacity d ≤ ds.steps_capacity (ds.reindex_trigger d).1
  pub small : (d : D) → ds.steps_capacity d < exhausted_sentinel

-- The capacity of the set is within those of its sources, and some source has it.
pub record IsCommon {D : Type 0} (ds : DataSources D) (set : SourceSet D) : Type 0 where
  pub least : All (λ d. set.capacity ≤ ds.steps_capacity d) set.sources
  pub attained :
      (i : ℕ) × (d : D) × (get_elem? set.sources i ≡ some d) × (set.capacity ≡ ds.steps_capacity d)

module _ {D : Type 0} (ds : DataSources D) where
  common :
      (sources : List D) (i : ℕ) (d : D)
      → get_elem? sources i ≡ some d
      → IsCommon ds (record { sources = sources; capacity = min_capacity ds sources })
  unfolding min_capacity
  common [] i d q = cc
  common (x ∷ xs) i d q =
      let (u, v) = min_of_lem ds ds.steps_capacity x xs in record { least = u; attained = v }

  map_at :
      {A : Type 0} {B : Type 0} (f : A → B) (xs : List A) (i : ℕ) (a : A)
      → get_elem? xs i ≡ some a
      → get_elem? (map f xs) i ≡ some (f a)
  map_at f [] i a q = cc
  map_at f (x ∷ xs) zero a q = ground arith
  map_at f (x ∷ xs) (suc i) a q = map_at f xs i a q

  map_from :
      {A : Type 0} {B : Type 0} (f : A → B) (xs : List A) (i : ℕ) (b : B)
      → get_elem? (map f xs) i ≡ some b
      → (a : A) × (get_elem? xs i ≡ some a) × (f a ≡ b)
  map_from f [] i b q = cc
  map_from f (x ∷ xs) zero b q = (x, refl, ground arith)
  map_from f (x ∷ xs) (suc i) b q = map_from f xs i b q

  pub trigger-IsCommon :
      (set : SourceSet D) → IsCommon ds set → IsCommon ds (reindex_trigger ds set).1
  trigger-IsCommon set c =
      let (e, f, _) = reindex_trigger_lem ds set in
      let (i, d, q, _) = c.attained in
      let set' = (reindex_trigger ds set).1 in
      subst (λ k. IsCommon ds (record { sources = set'.sources; capacity = k })) (sym f)
        (common set'.sources i (after ds set.capacity d)
          (ap (λ xs. get_elem? xs i) e ∙ map_at (after ds set.capacity) set.sources i d q))

  trigger_grows :
      (set : SourceSet D)
      → IsLawful ds
      → IsCommon ds set
      → set.capacity ≤ (reindex_trigger ds set).1.capacity
  trigger_grows set l c =
      let (e, _, _) = reindex_trigger_lem ds set in
      let (i, y, q, z) = (trigger-IsCommon set c).attained in
      let (x, w, v) =
        map_from (after ds set.capacity) set.sources i y (ap (λ xs. get_elem? xs i) (sym e) ∙ q) in
      let low = All_at (λ d. set.capacity ≤ ds.steps_capacity d) set.sources i x c.least w in
      elim (Bool-cases (leb (ds.steps_capacity x) set.capacity)) [
        | inl a ↦ ground (arith, l.grows x, low, v, z, a)
        | inr a ↦ ground (arith, low, v, z, a)
      ]

  pub capacity_small :
      (set : SourceSet D) → IsLawful ds → IsCommon ds set → set.capacity < exhausted_sentinel
  capacity_small set l c = let (i, d, q, z) = c.attained in ground (arith, l.small d, z)

  below_all :
      (set : SourceSet D) (step : ℕ)
      → IsCommon ds set
      → step < set.capacity
      → All (λ d. step < ds.steps_capacity d) set.sources
  below_all set step c h = All-map (λ d l. omega arith) set.sources c.least

  -- What a call of `next` on a set may result in.
  abbrev pub Result : Iteration (SourceSet D) → ℕ × Iteration (SourceSet D) → Type 0
  Result st (step, st') =
      IsCommon ds st'.env
      × (st'.event_idx ≤ st'.env.capacity)
      × (((step ≡ st.event_idx)
            × (st'.event_idx ≡ step + 1)
            × All (λ d. step < ds.steps_capacity d) st'.env.sources)
          ⊎ ((step ≡ exhausted_sentinel)
              × (st'.event_idx ≡ st.event_idx)
              × ((st'.event_idx ≡ st'.env.capacity) ⊎ ((reindex_trigger ds st.env).0 ≡ false))))

  module _ (st : Iteration (SourceSet D)) (l : IsLawful ds) where
    handed :
        (set : SourceSet D)
        → IsCommon ds set
        → st.event_idx < set.capacity
        → Result st (hand_out (source ds) (record st { env = set }))
    unfolding hand_out
    handed set c h =
        let z = capacity_small set l c in
        (c, omega arith, inl (refl, omega arith, below_all set st.event_idx c h))

    -- From a set whose capacity is the least of its sources, and an index within it: a step that is
    -- handed out is the one at the index and one of every source, and the index moves on by one;
    -- otherwise the sentinel is returned and the index stays, at the capacity or with a trigger that
    -- said there is no more. The capacity stays the least, and the index within it.
    pub next_lem : IsCommon ds st.env → st.event_idx ≤ st.env.capacity → Result st (next ds st)
    unfolding next next_impl
    next_lem c h =
        let set = (reindex_trigger ds st.env).1 in
        let c' = trigger-IsCommon st.env c in
        let g = trigger_grows st.env l c in
        elim (Bool-cases (leb st.env.capacity st.event_idx)) [
          | inr a ↦ subst (Result st) (ground arith) (handed st.env c (ground arith))
          | inl a ↦ elim (Bool-cases (reindex_trigger ds st.env).0) [
            | inr b ↦ subst (Result st) (stopped a b) (c', omega arith, inr (refl, refl, inr b))
            | inl b ↦ elim (Bool-cases (leb set.capacity st.event_idx)) [
              | inl d ↦
                  subst (Result st) (full a b d)
                    (c', omega arith, inr (refl, refl, inl (ground (arith, g))))
              | inr d ↦ subst (Result st) (ground arith) (handed set c' (ground arith))
            ]
          ]
        ]
      where
        stopped :
            leb st.env.capacity st.event_idx ≡ true
            → (reindex_trigger ds st.env).0 ≡ false
            → (exhausted_sentinel, record st { env = (reindex_trigger ds st.env).1 }) ≡ next ds st
        stopped a b = ground arith

        full :
            leb st.env.capacity st.event_idx ≡ true
            → (reindex_trigger ds st.env).0 ≡ true
            → leb (reindex_trigger ds st.env).1.capacity st.event_idx ≡ true
            → (exhausted_sentinel, record st { env = (reindex_trigger ds st.env).1 }) ≡ next ds st
        full a b d = ground arith
