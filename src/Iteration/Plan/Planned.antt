-- ===== src/Iteration/Plan/Planned.antt =====
-- What is in a plan: each StreamBroker of each group once, with the first fetch of its buffer.
use sbio.Prelude.{
  ℕ, ◌+◌, ◌≤◌, ◌<◌, ◌≡◌, refl, sym, inl, inr, Bool, true, false, none, some, List, [], ◌∷◌, ◌++◌,
  length, get_elem?, arith, Bool-cases, Option-cases, get_elem?-snoc, get_elem?-snoc_old,
  get_elem?-snoc_new, get_elem?-lt, get_elem?-some, length-append,
}
use mathlib.Core.Path.{subst}
use sbio.Topology.{GroupTopology}
use sbio.Topology.Segments.{HasPatterns}
use sbio.BrokerGroup.{shares_fetch, shares_buffer}
use sbio.BrokerGroup.Shared.{Fills, shares_buffer-Fills, Fills-shares_buffer, shares_fetch_self}
use sbio.Iteration.Plan.{Group, Fetch, shares, scan_fetches, plan_broker}
use sbio.Iteration.Plan.Scan.{scan_true, scan_false, scan-IsFirst}

pub has-Fills :
    (t : GroupTopology) (b : ℕ)
    → HasPatterns t
    → b < length t.stream_brokers
    → (broker : ℕ) × (ptn : ℕ) × Fills t b broker ptn
has-Fills t b h l =
    let (broker, q) = get_elem?-some t.stream_brokers b l in
    let (ptn, r) = get_elem?-some t.broker_access_ptns b (omega arith) in (broker, ptn, (q, r))

module _ (groups : List Group) where
  pub shares_lem :
      (test : GroupTopology → ℕ → GroupTopology → ℕ → Bool) (g : Group) (b : ℕ) (f : Fetch)
      → shares test groups g b f ≡ true
      → (other : Group) × (get_elem? groups f.group ≡ some other)
        × (g.kind ≡ other.kind)
        × (test g.topology b other.topology f.broker_no ≡ true)
  unfolding shares
  shares_lem test g b f e = elim (Option-cases (get_elem? groups f.group)) [
    | inl n ↦ absurd (ground arith)
    | inr (other, n) ↦ (other, n, ground arith, ground arith)
  ]

  pub shares_back :
      (test : GroupTopology → ℕ → GroupTopology → ℕ → Bool) (g other : Group) (b : ℕ) (f : Fetch)
      → get_elem? groups f.group ≡ some other
      → g.kind ≡ other.kind
      → test g.topology b other.topology f.broker_no ≡ true
      → shares test groups g b f ≡ true
  unfolding shares
  shares_back test g other b f q k e = ground arith

  -- What shares a buffer with a fetch shares one with each fetch that the fetch shares its own with.
  shares_trans :
      (g h : Group) (b : ℕ) (x y : Fetch)
      → get_elem? groups x.group ≡ some h
      → shares shares_buffer groups g b x ≡ true
      → shares shares_buffer groups h x.broker_no y ≡ true
      → shares shares_buffer groups g b y ≡ true
  shares_trans g h b x y q s r =
      let (h', q', k, v) = shares_lem shares_buffer g b x s in
      let (z, qz, l, w) = shares_lem shares_buffer h x.broker_no y r in
      let (c, p, m0, m1) = shares_buffer-Fills g.topology b h'.topology x.broker_no v in
      let (d, o, n0, n1) = shares_buffer-Fills h.topology x.broker_no z.topology y.broker_no w in
      shares_back shares_buffer g z b y qz (ground arith)
        (Fills-shares_buffer g.topology b z.topology y.broker_no c p m0 (ground arith))

  pub record IsPlan (fetches : List Fetch) : Type 0 where
    pub valid :
        (j : ℕ) (f : Fetch)
        → get_elem? fetches j ≡ some f
        → (g : Group) × (get_elem? groups f.group ≡ some g)
          × (f.broker_no < length g.topology.stream_brokers)
    pub distinct :
        (i j : ℕ) (f h : Fetch) (g : Group)
        → i < j
        → get_elem? fetches i ≡ some f
        → get_elem? fetches j ≡ some h
        → get_elem? groups h.group ≡ some g
        → shares shares_fetch groups g h.broker_no f ≡ false
    pub own_buffer :
        (i j : ℕ) (f h : Fetch) (g : Group)
        → i < j
        → get_elem? fetches i ≡ some f
        → get_elem? fetches j ≡ some h
        → get_elem? groups h.group ≡ some g
        → h.buffer_of ≡ none
        → shares shares_buffer groups g h.broker_no f ≡ false
    pub other_buffer :
        (j k : ℕ) (h : Fetch) (g : Group)
        → get_elem? fetches j ≡ some h
        → get_elem? groups h.group ≡ some g
        → h.buffer_of ≡ some k
        → (f : Fetch) × (k < j)
          × (get_elem? fetches k ≡ some f)
          × (f.buffer_of ≡ none)
          × (shares shares_buffer groups g h.broker_no f ≡ true)

  -- A fetch does for a StreamBroker of a group.
  abbrev pub Covers : List Fetch → Group → ℕ → Type 0
  Covers fetches g b =
      (j : ℕ) × (f : Fetch) × (get_elem? fetches j ≡ some f)
      × (shares shares_fetch groups g b f ≡ true)

  -- Fetches are added behind those that there are.
  abbrev pub Grows : List Fetch → List Fetch → Type 0
  Grows fetches fetches' =
      (length fetches ≤ length fetches')
      × ((j : ℕ) (f : Fetch) → get_elem? fetches j ≡ some f → get_elem? fetches' j ≡ some f)

  pub Grows-Covers :
      (fetches fetches' : List Fetch) (g : Group) (b : ℕ)
      → Grows fetches fetches'
      → Covers fetches g b
      → Covers fetches' g b
  Grows-Covers fetches fetches' g b h (j, f, q, s) = (j, f, h.1 j f q, s)

  -- A fetch more.
  module _ (group : ℕ) (g : Group) (b : ℕ) (fetches : List Fetch) (i : IsPlan fetches)
      (at : get_elem? groups group ≡ some g) (in_range : b < length g.topology.stream_brokers) where
    abbrev shared : Bool
    shared = (scan_fetches groups g b fetches 0 false none).0

    abbrev entry : Fetch
    entry = record {
      group = group;
      broker_no = b;
      buffer_of = (scan_fetches groups g b fetches 0 false none).1;
    }

    -- The first fetch of a buffer has it for its own.
    first_own :
        (k : ℕ)
        → entry.buffer_of ≡ some k
        → (f : Fetch) × (k < length fetches)
          × (get_elem? fetches k ≡ some f)
          × (f.buffer_of ≡ none)
          × (shares shares_buffer groups g b f ≡ true)
    first_own k e =
        let (m, x, u, q, s, r) = scan-IsFirst groups g b fetches 0 false (some k) e in
        elim (Option-cases x.buffer_of) [
          | inl n ↦ (x, at_k m k x u q, here m k x u q, n, s)
          | inr (l, n) ↦
              let (h, v, _) = i.valid m x q in
              let (y, w, qy, _, t) = i.other_buffer m l x h q v n in
              absurd (clash (r l y w qy) (shares_trans g h b x y v s t))
        ]
      where
        here :
            (m k : ℕ) (x : Fetch)
            → k ≡ 0 + m
            → get_elem? fetches m ≡ some x
            → get_elem? fetches k ≡ some x
        here m k x u q = subst (λ l. get_elem? fetches l ≡ some x) (back m k u) q
          where
            back : (m k : ℕ) → k ≡ 0 + m → m ≡ k
            back m k u = omega arith

        at_k : (m k : ℕ) (x : Fetch) → k ≡ 0 + m → get_elem? fetches m ≡ some x → k < length fetches
        at_k m k x u q = get_elem?-lt fetches k x (here m k x u q)

        clash : {c : Bool} → c ≡ false → c ≡ true → ⊥
        clash u v = cc

    snoc-IsPlan : shared ≡ false → IsPlan (fetches ++ entry ∷ [])
    snoc-IsPlan e = record {
      valid = λ j f q. elim (get_elem?-snoc fetches entry j f q) [
        | inl o ↦ i.valid j f o
        | inr (n, s) ↦ (g, ground arith, ground arith)
      ];
      distinct = λ j k f h u l q r v. elim (get_elem?-snoc fetches entry k h r) [
        | inl o ↦
            i.distinct j k f h u l (old j k f l (omega (arith, get_elem?-lt fetches k h o)) q) o v
        | inr (n, s) ↦
            new_test shares_fetch false h u f s v
              ((scan_false groups g b fetches 0 false none e).1 j f (old j k f l (omega arith) q))
      ];
      own_buffer = λ j k f h u l q r v w. elim (get_elem?-snoc fetches entry k h r) [
        | inl o ↦
            i.own_buffer j k f h u l (old j k f l (omega (arith, get_elem?-lt fetches k h o)) q) o v
              w
        | inr (n, s) ↦ new_test shares_buffer false h u f s v (
            scan-IsFirst groups g b fetches 0 false none (ground arith) j f
              (old j k f l (omega arith) q))
      ];
      other_buffer = λ j k h u q v w. elim (get_elem?-snoc fetches entry j h q) [
        | inl o ↦
            let (f, l, r, n, s) = i.other_buffer j k h u o v w in
            (f, l, get_elem?-snoc_old fetches entry k f r, n, s)
        | inr (m, s) ↦
            let (f, l, r, n, z) = first_own k (ground arith) in
            (
              f,
              omega arith,
              get_elem?-snoc_old fetches entry k f r,
              n,
              new_test shares_buffer true h u f s v z,
            )
      ];
    }
      where
        old :
            (j k : ℕ) (f : Fetch)
            → j < k
            → k ≤ length fetches
            → get_elem? (fetches ++ entry ∷ []) j ≡ some f
            → get_elem? fetches j ≡ some f
        old j k f l m q = elim (get_elem?-snoc fetches entry j f q) [
          | inl o ↦ o
          | inr (n, s) ↦ absurd (omega arith)
        ]

        new_test :
            (test : GroupTopology → ℕ → GroupTopology → ℕ → Bool) (c : Bool) (h : Fetch) (u : Group)
            (f : Fetch)
            → entry ≡ h
            → get_elem? groups h.group ≡ some u
            → shares test groups g b f ≡ c
            → shares test groups u h.broker_no f ≡ c
        new_test test c h u f s v w =
            let the_group : u ≡ g = ground arith in
            let the_broker : h.broker_no ≡ b = ground arith in
            subst (λ x. shares test groups u x f ≡ c) (sym the_broker)
              (subst (λ x. shares test groups x b f ≡ c) (sym the_group) w)

    -- The fetches with one StreamBroker more, of which at most one is new.
    abbrev pub Next : List Fetch → Type 0
    Next fetches' =
        IsPlan fetches'
        × Covers fetches' g b
        × Grows fetches fetches'
        × (length fetches' ≤ length fetches + 1)

    pub plan_broker_lem : HasPatterns g.topology → Next (plan_broker groups group g b fetches)
    unfolding plan_broker
    plan_broker_lem h = elim (Bool-cases shared) [
      | inl e ↦ subst Next (kept e) (i, covered e, (omega arith, λ j f q. q), omega arith)
      | inr e ↦ subst Next (added e) (
        snoc-IsPlan e,
        (length fetches, entry, get_elem?-snoc_new fetches entry, self),
        (ground (arith, length-append fetches (entry ∷ [])), get_elem?-snoc_old fetches entry),
        ground (arith, length-append fetches (entry ∷ [])),
      )
    ]
      where
        kept : shared ≡ true → fetches ≡ plan_broker groups group g b fetches
        kept e = ground arith

        added : shared ≡ false → fetches ++ entry ∷ [] ≡ plan_broker groups group g b fetches
        added e = ground arith

        covered : shared ≡ true → Covers fetches g b
        covered e = elim (scan_true groups g b fetches 0 false none e) [ inl c ↦ cc | inr c ↦ c ]

        self : shares shares_fetch groups g b entry ≡ true
        self =
            let (broker, ptn, k) = has-Fills g.topology b h in_range in
            shares_back shares_fetch g g b entry at refl
              (shares_fetch_self g.topology b broker ptn k)
