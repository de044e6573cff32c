-- ===== src/Iteration/Sources/Capacity.antt =====
-- The common capacity of a set, and what reindexing does to its sources.
use sbio.Prelude.{
  ℕ, suc, ◌≤◌, ◌≡◌, ◌⊎◌, ◌↔◌, refl, inl, inr, Bool, true, false, ◌&&◌, some, List, [], ◌∷◌, map,
  get_elem?, arith, ltb, leb, if◌then◌else◌, Bool-cases, All,
}
use mathlib.Core.Path.{subst}
use sbio.Iteration.Sources.{
  DataSources, SourceSet, take_min, min_of, min_capacity, reindex, reindex_trigger,
}

module _ {D : Type 0} (ds : DataSources D) (size : D → ℕ) where
  abbrev IsLeast : ℕ → List D → ℕ → Type 0
  IsLeast m xs r =
      (r ≤ m)
      × All (λ d. r ≤ size d) xs
      × ((r ≡ m) ⊎ ((i : ℕ) × (d : D) × (get_elem? xs i ≡ some d) × (r ≡ size d)))

  take_min_lem : (m : ℕ) (xs : List D) → IsLeast m xs (take_min ds size m xs)
  unfolding take_min
  take_min_lem m [] = (omega arith, tt, inl refl)
  take_min_lem m (d ∷ xs) = elim (Bool-cases (ltb (size d) m)) [
    | inl a ↦
        let (u, v, w) = take_min_lem (size d) xs in
        subst (IsLeast m (d ∷ xs)) (next a) (
          ground arith,
          (u, v),
          elim w [ inl e ↦ inr (0, d, refl, e) | inr (i, x, q, e) ↦ inr (suc i, x, q, e) ],
        )
    | inr a ↦
        let (u, v, w) = take_min_lem m xs in
        subst (IsLeast m (d ∷ xs)) (same a)
          (u, (ground arith, v), elim w [ inl e ↦ inl e | inr (i, x, q, e) ↦ inr (suc i, x, q, e) ])
  ]
    where
      next : ltb (size d) m ≡ true → take_min ds size (size d) xs ≡ take_min ds size m (d ∷ xs)
      next a = ground (arith, a)

      same : ltb (size d) m ≡ false → take_min ds size m xs ≡ take_min ds size m (d ∷ xs)
      same a = ground (arith, a)

  -- The least size: no source has a smaller one, and some source has it.
  pub min_of_lem :
      (d : D) (xs : List D)
      → All (λ x. min_of ds size (d ∷ xs) ≤ size x) (d ∷ xs)
        × ((i : ℕ) × (x : D) × (get_elem? (d ∷ xs) i ≡ some x) × (min_of ds size (d ∷ xs) ≡ size x))
  unfolding min_of
  min_of_lem d xs =
      let (u, v, w) = take_min_lem (size d) (d ∷ xs) in
      (v, elim w [ inl e ↦ (0, d, refl, e) | inr (i, x, q, e) ↦ (i, x, q, e) ])

module _ {D : Type 0} (ds : DataSources D) where
  -- A source after the trigger of a set with a capacity.
  abbrev pub after : ℕ → D → D
  after capacity d = if leb (ds.steps_capacity d) capacity then (ds.reindex_trigger d).1 else d

  abbrev pub has_more : ℕ → D → Bool
  has_more capacity d =
      if leb (ds.steps_capacity d) capacity then (ds.reindex_trigger d).0 else true

  reindex_lem :
      (capacity : ℕ) (more : Bool) (xs : List D)
      → ((reindex ds capacity more xs).1 ≡ map (after capacity) xs)
        × (((reindex ds capacity more xs).0 ≡ true)
            ↔ ((more ≡ true) × All (λ d. has_more capacity d ≡ true) xs))
  unfolding reindex
  reindex_lem capacity more [] = (refl, ((λ e. (e, tt)), λ e. e.0))
  reindex_lem capacity more (d ∷ xs) = elim (Bool-cases (leb (ds.steps_capacity d) capacity)) [
    | inl a ↦
        let (e, f) = reindex_lem capacity ((ds.reindex_trigger d).0 && more) xs in
        (ground (arith, a, e), ((λ h. ground (arith, a, f, h)), λ h. ground (arith, a, f, h)))
    | inr a ↦
        let (e, f) = reindex_lem capacity more xs in
        (ground (arith, a, e), ((λ h. ground (arith, a, f, h)), λ h. ground (arith, a, f, h)))
  ]

  -- The trigger of a set reindexes those sources that have reached the common capacity, each once, and
  -- leaves the others as they are; there is more if each of these says so; the new capacity is the
  -- least of the sources.
  pub reindex_trigger_lem :
      (set : SourceSet D)
      → let (more, set') = reindex_trigger ds set in
        (set'.sources ≡ map (after set.capacity) set.sources)
        × (set'.capacity ≡ min_capacity ds set'.sources)
        × ((more ≡ true) ↔ All (λ d. has_more set.capacity d ≡ true) set.sources)
  unfolding reindex_trigger
  reindex_trigger_lem set =
      let (e, f) = reindex_lem set.capacity true set.sources in
      (e, refl, ((λ h. (f.0 h).1), λ h. f.1 (refl, h)))
