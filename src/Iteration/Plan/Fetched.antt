-- ===== src/Iteration/Plan/Fetched.antt =====
-- What the buffers hold after the fetches of a plan, for a format that is not Chronological.
use sbio.Prelude.{
  ℕ, ◌+◌, ◌<◌, ◌≡◌, sym, ap, ◌∙◌, inl, inr, true, false, ◌&&◌, Option, none, some, List, length,
  get_elem?, arith, ◌==◌, Bool-cases, Option-cases, ℕ_discrete, get_elem?-lt, get_elem?-some,
}
use mathlib.Core.Path.{subst}
use sbio.Io.{IoStatus, ok, ok_lem}
use sbio.Topology.Mapping.{Format, StreamBrokers}
use sbio.Topology.Segments.{HasPatterns, HasSegments}
use sbio.BrokerGroup.{shares_fetch, shares_buffer, fetch_range_for}
use sbio.BrokerGroup.Shared.{
  Fills, shares_buffer-Fills, Fills-shares_buffer, shares_fetch-shares_buffer,
}
use sbio.BrokerGroup.Ranges.{HasRange, fetch_range_for-same}
use sbio.Iteration.Plan.{Group, Fetch, shares, fetch_range, check_shared_buffer, checked, unit_of}
use sbio.Execution.Fetching.{fetch_units}
use sbio.Execution.Fetching.Loop.{fetch_units_lem}
use sbio.Iteration.Plan.Planned.{IsPlan, Covers, has-Fills, shares_lem, shares_back}

-- A group as a constructor leaves it.
pub record IsGroup (kind : ℕ) (g : Group) : Type 0 where
  pub of_kind : g.kind ≡ kind
  pub has_patterns : HasPatterns g.topology
  pub has_segments : HasSegments g.topology

module _ {S : Type 0} (fmt : Format) (brokers : StreamBrokers S) (ch : fmt.chronological ≡ false)
    (holds : S → ℕ → ℕ → ℕ → ℕ → Type 0) (groups : List Group) (kind : ℕ)
    (well : (k : ℕ) (g : Group) → get_elem? groups k ≡ some g → IsGroup kind g)
    (fetches : List Fetch) (plan : IsPlan groups fetches) (first last : ℕ) where
  -- Where the ranges of a fetch and of another one with its buffer agree, the one is in the buffer
  -- with the other.
  checked-HasRange :
      (f h : Fetch) (g u : Group) (i : ℕ) (s : S)
      → get_elem? groups f.group ≡ some g
      → get_elem? groups h.group ≡ some u
      → get_elem? fetches i ≡ some h
      → shares shares_buffer groups g f.broker_no h ≡ true
      → check_shared_buffer fmt brokers groups fetches f i first last ≡ some IoStatus.success
      → HasRange fmt brokers holds u.topology h.broker_no first last s
      → HasRange fmt brokers holds g.topology f.broker_no first last s
  unfolding check_shared_buffer fetch_range
  checked-HasRange f h g u i s q r v e c (broker, ptn, fo, eo, k, w, o) =
      let (u', r', _, w') = shares_lem groups shares_buffer g f.broker_no h e in
      let (x, p, k0, k1) = shares_buffer-Fills g.topology f.broker_no u'.topology h.broker_no w' in
      let same : u' ≡ u = ground arith in
      let k1' = subst (λ v. Fills v.topology h.broker_no x p) same k1 in
      let x_is : x ≡ broker = ground arith in
      let p_is : p ≡ ptn = ground arith in
      elim (Option-cases (fetch_range_for fmt brokers g.topology first last f.broker_no)) [
        | inl n ↦ absurd (ground arith)
        | inr (z, n) ↦ elim (Bool-cases (ok z.0)) [
          | inl a ↦
              (broker, ptn, fo, eo, (ground arith, ground arith), ground (arith, ok_lem z.0 a), o)
          | inr a ↦ absurd (ground arith)
        ]
      ]

  -- A fetch that is the same as one of the plan has its range in the buffer too.
  covered-HasRange :
      (f : Fetch) (g u : Group) (b : ℕ) (s : S)
      → IsGroup kind g
      → IsGroup kind u
      → get_elem? groups f.group ≡ some u
      → shares shares_fetch groups g b f ≡ true
      → HasRange fmt brokers holds u.topology f.broker_no first last s
      → HasRange fmt brokers holds g.topology b first last s
  covered-HasRange f g u b s i j q e (broker, ptn, fo, eo, k, w, o) =
      let (u', r, _, w') = shares_lem groups shares_fetch g b f e in
      let same : u' ≡ u = ground arith in
      let v = subst (λ x. shares_fetch g.topology b x.topology f.broker_no ≡ true) same w' in
      let (v', m, a) = shares_fetch-shares_buffer g.topology b u.topology f.broker_no v in
      let (x, p, k0, k1) = shares_buffer-Fills g.topology b u.topology f.broker_no v' in
      let x_is : x ≡ broker = ground arith in
      let p_is : p ≡ ptn = ground arith in
      let k0' =
        subst (λ c. Fills g.topology b c ptn) x_is (subst (λ c. Fills g.topology b x c) p_is k0) in
      (
        broker,
        ptn,
        fo,
        eo,
        k0',
        fetch_range_for-same fmt brokers ch g.topology u.topology b f.broker_no broker ptn first
              last i.has_segments j.has_segments k0' k m a
            ∙ w,
        o,
      )

  -- One after the other: `own` is the fetch of a group's StreamBroker.
  module _ (own : Group → ℕ → S → Option (IoStatus × S))
      (own_range : (g : Group) (b : ℕ) (s s' : S)
        → IsGroup kind g
        → b < length g.topology.stream_brokers
        → own g b s ≡ some (IoStatus.success, s')
        → HasRange fmt brokers holds g.topology b first last s')
      (own_kept : (g : Group) (b broker ptn : ℕ) (s : S) (r : IoStatus × S) (c other lo hi : ℕ)
        → IsGroup kind g
        → Fills g.topology b broker ptn
        → own g b s ≡ some r
        → ((broker == c) && (ptn == other)) ≡ false
        → holds s c other lo hi
        → holds r.1 c other lo hi) where
    abbrev run : Fetch → S → Option (IoStatus × S)
    run f s = elim f.buffer_of [
      | some i ↦
          checked fmt brokers groups fetches
            (check_shared_buffer fmt brokers groups fetches f i first last) s
      | none ↦ elim (get_elem? groups f.group) [ none ↦ none | some g ↦ own g f.broker_no s ]
    ]

    -- The buffers of the first `n` fetches have their ranges.
    abbrev AreFetched : ℕ → S → Type 0
    AreFetched n s =
        (j : ℕ) (f : Fetch) (g : Group)
        → j < n
        → get_elem? fetches j ≡ some f
        → get_elem? groups f.group ≡ some g
        → HasRange fmt brokers holds g.topology f.broker_no first last s

    -- A fetch of its own buffer leaves the ranges of those before it.
    own-kept :
        (i j : ℕ) (h f : Fetch) (g u : Group) (s s' : S)
        → j < i
        → get_elem? fetches i ≡ some h
        → get_elem? fetches j ≡ some f
        → get_elem? groups h.group ≡ some g
        → get_elem? groups f.group ≡ some u
        → h.buffer_of ≡ none
        → own g h.broker_no s ≡ some (IoStatus.success, s')
        → HasRange fmt brokers holds u.topology f.broker_no first last s
        → HasRange fmt brokers holds u.topology f.broker_no first last s'
    own-kept i j h f g u s s' l q r v w n e (broker, ptn, fo, eo, k, z, o) =
        let (g', v', b) = plan.valid i h q in
        let same : g' ≡ g = ground arith in
        let gg = well h.group g v in
        let uu = well f.group u w in
        let (x, p, m) = has-Fills g.topology h.broker_no gg.has_patterns (ground arith) in
        elim (Bool-cases ((x == broker) && (p == ptn))) [
          | inl a ↦
              let x_is : x ≡ broker = ground arith in
              let p_is : p ≡ ptn = ground arith in
              let c =
                shares_back groups shares_buffer g u h.broker_no f w (gg.of_kind ∙ sym uu.of_kind) (
                  Fills-shares_buffer g.topology h.broker_no u.topology f.broker_no broker ptn
                    (ground (arith, m, x_is, p_is)) k) in
              absurd (ground (arith, c, plan.own_buffer j i f h g l r q v n))
          | inr a ↦ (
            broker,
            ptn,
            fo,
            eo,
            k,
            z,
            own_kept g h.broker_no x p s (IoStatus.success, s') broker ptn fo eo gg m e a o,
          )
        ]

    with_next :
        (i : ℕ) (h : Fetch) (g : Group) (s : S)
        → get_elem? fetches i ≡ some h
        → get_elem? groups h.group ≡ some g
        → AreFetched i s
        → HasRange fmt brokers holds g.topology h.broker_no first last s
        → AreFetched (i + 1) s
    with_next i h g s q v a r j f u l w z = elim (ℕ_discrete j i) [
      | no n ↦ a j f u (omega arith) w z
      | yes n ↦
          let f_is : h ≡ f = ground arith in
          let u_is : g ≡ u = ground arith in
          subst (λ x. HasRange fmt brokers holds x.topology f.broker_no first last s) u_is
            (subst (λ x. HasRange fmt brokers holds g.topology x.broker_no first last s) f_is r)
    ]

    next_fetched :
        (i : ℕ) (h : Fetch) (g : Group) (s s' : S)
        → get_elem? fetches i ≡ some h
        → get_elem? groups h.group ≡ some g
        → AreFetched i s
        → run h s ≡ some (IoStatus.success, s')
        → AreFetched (i + 1) s'
    next_fetched i h g s s' q v a e = elim (Option-cases h.buffer_of) [
      | inl n ↦
          let z : own g h.broker_no s ≡ some (IoStatus.success, s') = ground arith in
          let (g', v', b) = plan.valid i h q in
          let same : g' ≡ g = ground arith in
          with_next i h g s' q v
            (λ j f u l w x. own-kept i j h f g u s s' l q w v x n z (a j f u l w x))
            (own_range g h.broker_no s s' (well h.group g v) (ground arith) z)
      | inr (k, n) ↦
          let (f, l, w, _, c) = plan.other_buffer i k h g q v n in
          let (u, x, _) = plan.valid k f w in
          elim (Option-cases (check_shared_buffer fmt brokers groups fetches h k first last)) [
            | inl o ↦ absurd (ground arith)
            | inr (st, o) ↦
                let s_is : s ≡ s' = ground arith in
                let ok_is : st ≡ IoStatus.success = ground arith in
                subst (AreFetched (i + 1)) s_is (
                  with_next i h g s q v a
                    (checked-HasRange h f g u k s v x w c (o ∙ ap some ok_is) (a k f u l w x)))
          ]
    ]

    -- After the fetches of a plan that covers the groups, each of their StreamBrokers has its range.
    pub all_fetched :
        (s s' : S)
        → fetch_units (unit_of fmt brokers groups fetches run) (length fetches) 0 s
          ≡ some (IoStatus.success, s')
        → (k b : ℕ) (g : Group) → get_elem? groups k ≡ some g
        → Covers groups fetches g b
        → HasRange fmt brokers holds g.topology b first last s'
    all_fetched s s' e k b g q (j, f, w, c) =
        let (u, x, _) = plan.valid j f w in
        covered-HasRange f g u b s' (well k g q) (well f.group u x) x c (
          fetch_units_lem AreFetched (unit_of fmt brokers groups fetches run) (length fetches) unit
            (length fetches) 0 s s' (omega arith) (λ j f g l. absurd (omega arith)) e j f u
            (get_elem?-lt fetches j f w) w x)
      where
        unit :
            (i : ℕ) (s s' : S)
            → i < length fetches
            → AreFetched i s
            → unit_of fmt brokers groups fetches run i s ≡ some (IoStatus.success, s')
            → AreFetched (i + 1) s'
        unit i s s' l a e =
            let (h, q) = get_elem?-some fetches i l in
            let (g, v, _) = plan.valid i h q in next_fetched i h g s s' q v a (ground arith)
