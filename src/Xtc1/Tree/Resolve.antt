-- ===== src/Xtc1/Tree/Resolve.antt =====
-- The Xtc that a field is read from.
use sbio.Prelude.{
  ℕ, ◌+◌, ◌%◌, ◌^◌, ◌≤◌, ◌<◌, ◌≡◌, ◌≢◌, ◌⊎◌, refl, sym, ap, inl, inr, Bool, true, false, Option,
  none, some, List, [], ◌∷◌, ◌++◌, arith, if◌then◌else◌, Bool-cases, Option-cases, All, dec_le,
}
use mathlib.Core.Path.{subst}
use sbio.Broker.Cache.{PayloadOffsetCache, find, store, find-store}
use sbio.Xtc1.{
  Xtc, sizeof_xtc, is_dropped, is_target, FieldMetadata, matches, first_xtc, cached_xtc,
  resolve_xtc,
}
use sbio.Xtc1.Tree.{
  Node, leaf, container, Nodes, nil, cons, header, total_extent, IsLaid, AreLaid, header-extent,
}
use sbio.Xtc1.Tree.Find.{xtcs, xtcs_of_all, first_wanted, find_tree}

All-append : {A : Type 0} (P : A → Type 0) (xs ys : List A) → All P xs → All P ys → All P (xs ++ ys)
All-append P [] ys a b = b
All-append P (x ∷ xs) ys (p, a) b = (p, All-append P xs ys a b)

All-unless :
    {A : Type 0} (P : A → Type 0) (b : Bool) (xs : List A) → All P xs → All P (if b then [] else xs)
All-unless P true xs a = tt
All-unless P false xs a = a

-- What is found is one of those searched.
first_wanted-some :
    (wanted : Xtc → Bool) (P : Xtc × ℕ → Type 0) (xs : List (Xtc × ℕ)) (pos : ℕ)
    → All P xs
    → first_wanted wanted xs ≡ some pos
    → (x : Xtc) × (wanted x ≡ true) × P (x, pos)
unfolding first_wanted
first_wanted-some wanted P [] pos a e = absurd (ground arith)
first_wanted-some wanted P ((x, p) ∷ rest) pos (h, a) e = elim (Bool-cases (wanted x)) [
  | inl q ↦ (x, q, subst (λ k. P (x, k)) (ground (arith, q, e)) h)
  | inr q ↦ first_wanted-some wanted P rest pos a (ground (arith, q, e))
]

is_target-matches :
    (meta : FieldMetadata) (x : Xtc)
    → meta.src_log ≢ 0
    → is_target meta.event_type meta.src_log meta.src_phy x ≡ matches meta x
unfolding is_target matches
is_target-matches meta x h = ground arith

first_wanted_alike :
    (a b : Xtc → Bool) (xs : List (Xtc × ℕ))
    → ((x : Xtc) → a x ≡ b x)
    → first_wanted a xs ≡ first_wanted b xs
unfolding first_wanted
first_wanted_alike a b [] h = refl
first_wanted_alike a b ((x, pos) ∷ rest) h = ground (arith, h x, first_wanted_alike a b rest h)

module _ (buffer : ℕ → Xtc) where
  -- An Xtc with its offset is in the buffer, before an end.
  abbrev IsWithin : ℕ → Xtc × ℕ → Type 0
  IsWithin end (x, pos) = (buffer pos ≡ x) × (pos + sizeof_xtc ≤ end) × (pos + x.extent ≤ end)

  mutual
    unfolding IsLaid xtcs

    xtcs-IsWithin :
        (t : Node) (pos end : ℕ)
        → IsLaid buffer pos t
        → pos + (header t).extent ≤ end
        → All (IsWithin end) (xtcs pos t)
    xtcs-IsWithin (leaf x) pos end (e, i, m) l =
        All-unless (IsWithin end) (is_dropped x) ((x, pos) ∷ []) ((e, omega arith, omega arith), tt)
    xtcs-IsWithin (container x cs) pos end (e, i, m, k, a) l =
        All-unless (IsWithin end) (is_dropped x) ((x, pos) ∷ xtcs_of_all (pos + sizeof_xtc) cs) (
          (e, omega arith, omega arith),
          all_xtcs-IsWithin cs (pos + sizeof_xtc) end a (omega arith),
        )

    all_xtcs-IsWithin :
        (cs : Nodes) (pos end : ℕ)
        → AreLaid buffer pos cs
        → pos + total_extent cs ≤ end
        → All (IsWithin end) (xtcs_of_all pos cs)
    all_xtcs-IsWithin nil pos end a l = tt
    all_xtcs-IsWithin (cons c cs) pos end (laid, a) l =
        All-append (IsWithin end) (xtcs pos c) (xtcs_of_all (pos + (header c).extent) cs)
          (xtcs-IsWithin c pos end laid (omega arith))
          (all_xtcs-IsWithin cs (pos + (header c).extent) end a (omega arith))

  cached_xtc-some :
      (meta : FieldMetadata) (size : ℕ) (found : Option ℕ) (pos : ℕ)
      → cached_xtc buffer meta size found ≡ some pos
      → (found ≡ some pos)
        × (matches meta (buffer pos) ≡ true)
        × (pos + sizeof_xtc ≤ size)
        × ((pos + (buffer pos).extent) % 2 ^ 32 ≤ size)
  unfolding cached_xtc
  cached_xtc-some meta size none pos e = absurd (ground arith)
  cached_xtc-some meta size (some c) pos e =
      let same : c ≡ pos = ground (arith, e) in
      subst
        (λ k.
          (some c ≡ some k)
          × (matches meta (buffer k) ≡ true)
          × (k + sizeof_xtc ≤ size)
          × ((k + (buffer k).extent) % 2 ^ 32 ≤ size))
        same (refl, ground (arith, e), ground (arith, e), ground (arith, e))

  -- In a datagram in which a tree is laid out behind the header, below 2^31 bytes, on as much fuel as the
  -- tree has bytes, and for a field of the events with a source other than 0: `resolve_data` ends its
  -- search either with an Xtc of the type and source of the field, which the cache has for the field
  -- afterwards, whose header is within the datagram, and which ends within it, unless its offset and
  -- extent add up to 2^32 or more; or with none, the cache as it was, where no Xtc of
  -- the tree is of the type and source, those under dropped contributions aside.
  pub resolve_xtc_lem :
      (t : Node) (n field_id : ℕ) (meta : FieldMetadata) (cache : PayloadOffsetCache)
      → IsLaid buffer first_xtc t
      → first_xtc + (header t).extent < 2 ^ 31
      → (header t).extent ≤ n
      → meta.event_type ≢ 0
      → meta.src_log ≢ 0
      → ((pos : ℕ) × (after : PayloadOffsetCache) × (resolve_xtc buffer n meta field_id cache
            ≡ some (some pos, after))
          × (matches meta (buffer pos) ≡ true)
          × (pos + sizeof_xtc ≤ first_xtc + (header t).extent)
          × ((pos + (buffer pos).extent ≤ first_xtc + (header t).extent)
              ⊎ (2 ^ 32 ≤ pos + (buffer pos).extent))
          × (find field_id after ≡ some pos))
        ⊎ ((resolve_xtc buffer n meta field_id cache ≡ some (none, cache))
            × (first_wanted (matches meta) (xtcs first_xtc t) ≡ none))
  unfolding resolve_xtc
  resolve_xtc_lem t n field_id meta cache laid b l event src =
      let e : (buffer first_xtc).extent ≡ (header t).extent =
        ap (λ x. x.extent) (header-extent buffer first_xtc t laid).0 in
      let target : Xtc → Bool = is_target meta.event_type meta.src_log meta.src_phy in
      let alike =
        first_wanted_alike target (matches meta) (xtcs first_xtc t)
          (λ x. is_target-matches meta x src) in
      let search = find_tree target buffer t n first_xtc laid b l in
      elim (Option-cases
        (cached_xtc buffer meta (first_xtc + (buffer first_xtc).extent) (find field_id cache))) [
          | inr (pos, c) ↦
              let (f, m, w, g) =
                cached_xtc-some meta (first_xtc + (buffer first_xtc).extent) (find field_id cache)
                  pos c in
              inl (
                pos,
                cache,
                ground (arith, event, c),
                m,
                omega (arith, w, e),
                ends pos (omega (arith, g, e)),
                f,
              )
          | inl c ↦ elim (Option-cases (first_wanted (matches meta) (xtcs first_xtc t))) [
            | inl q ↦ inr (ground (arith, event, c, search, alike, q), q)
            | inr (pos, q) ↦
                let (x, m, (same, w, g)) =
                  first_wanted-some (matches meta) (IsWithin (first_xtc + (header t).extent))
                    (xtcs first_xtc t) pos
                    (xtcs-IsWithin t first_xtc (first_xtc + (header t).extent) laid (omega arith))
                    q in
                let small : pos % 2 ^ 32 ≡ pos = omega (arith, w) in
                inl (
                  pos,
                  store field_id pos cache,
                  ground (arith, event, c, search, alike, q, small),
                  subst (λ y. matches meta y ≡ true) (sym same) m,
                  w,
                  inl (omega (arith, g, ap (λ y. y.extent) same)),
                  (find-store field_id field_id pos cache).0,
                )
          ]
        ]
    where
      ends :
          (pos : ℕ)
          → (pos + (buffer pos).extent) % 2 ^ 32 ≤ first_xtc + (header t).extent
          → (pos + (buffer pos).extent ≤ first_xtc + (header t).extent)
            ⊎ (2 ^ 32 ≤ pos + (buffer pos).extent)
      ends pos g = elim (dec_le (2 ^ 32) (pos + (buffer pos).extent)) [
        | yes h ↦ inr h
        | no h ↦ inl (omega (arith, g, h))
      ]
