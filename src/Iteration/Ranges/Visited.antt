-- ===== src/Iteration/Ranges/Visited.antt =====
-- The loop over a zipped range fetches the values of the source one after the other.
use sbio.Prelude.{
  ℕ, zero, suc, ◌+◌, ◌<◌, ◌≡◌, refl, sym, ap, ◌∙◌, inl, inr, Bool, true, false, Option, none, some,
  List, [], ◌∷◌, map, length, arith, Option-cases, Each, Each-cons, Each-nil,
}
use mathlib.Core.Path.{subst}
use sbio.Io.{IoStatus}
use sbio.Iteration.Ranges.{Handle, fetch_at, begin, increment, for_each, zip}

module _ {D S V : Type 0} (next : D → V × D) (exhausted : V → Bool)
    (fetch : V → S → Option (IoStatus × S)) where
  -- A source whose `next` gives the values in turn, and then an exhausted one.
  unfoldable pub Gives : D → List V → Type 0
  Gives d [] = exhausted (next d).0 ≡ true
  Gives d (v ∷ vs) = ((next d).0 ≡ v) × (exhausted v ≡ false) × Gives (next d).1 vs

  cons_visit : Handle V → S → Option (List (Handle V × S)) → Option (List (Handle V × S))
  cons_visit it s none = none
  cons_visit it s (some rest) = some ((it, s) ∷ rest)

  -- The fetches of the values in turn, each with its status and the buffers it leaves.
  pub visit : List V → S → Option (List (Handle V × S))
  visit [] s = some []
  visit (v ∷ vs) s = elim (fetch v s) [
    | none ↦ none
    | some (status, s') ↦ cons_visit (record { value = v; status = status }) s' (visit vs s')
  ]

  -- A pass of the loop from a handle that is not at the end.
  pass_end :
      (n : ℕ) (it : Handle V) (d : D) (s : S)
      → exhausted it.value ≡ false
      → exhausted (next d).0 ≡ true
      → for_each next exhausted fetch (suc (suc n)) it d s ≡ some ((it, s) ∷ [])
  unfolding for_each increment fetch_at
  pass_end n it d s a b = ground (arith, a, b)

  pass_none :
      (n : ℕ) (it : Handle V) (d : D) (s : S)
      → exhausted it.value ≡ false
      → exhausted (next d).0 ≡ false
      → fetch (next d).0 s ≡ none
      → for_each next exhausted fetch (suc n) it d s ≡ none
  unfolding for_each increment fetch_at
  pass_none n it d s a b q = ground (arith, a, b, q)

  pass_some :
      (n : ℕ) (it : Handle V) (d : D) (s : S) (r : IoStatus × S)
      → exhausted it.value ≡ false
      → exhausted (next d).0 ≡ false
      → fetch (next d).0 s ≡ some r
      → for_each next exhausted fetch (suc n) it d s
        ≡ cons_visit it s (
            for_each next exhausted fetch n
              (record { value = (next d).0; status = r.0 })
              (next d).1
              r.1)
  unfolding for_each increment fetch_at cons_visit
  pass_some n it d s r a b q =
      elim (Option-cases (
        for_each next exhausted fetch n (record { value = (next d).0; status = r.0 }) (next d).1
          r.1)) [ inl z ↦ ground (arith, a, b, q, z) | inr (rest, z) ↦ ground (arith, a, b, q, z) ]

  for_each_lem :
      (vs : List V) (n : ℕ) (it : Handle V) (d : D) (s : S)
      → exhausted it.value ≡ false
      → Gives d vs
      → length vs + 1 < n
      → for_each next exhausted fetch n it d s ≡ cons_visit it s (visit vs s)
  unfolding Gives visit cons_visit
  for_each_lem vs zero it d s a g l = absurd (omega arith)
  for_each_lem vs (suc zero) it d s a g l = absurd (omega arith)
  for_each_lem [] (suc (suc n)) it d s a g l = pass_end n it d s a g
  for_each_lem (v ∷ vs) (suc (suc n)) it d s a (e, b, g) l =
      let c : exhausted (next d).0 ≡ false = ap exhausted e ∙ b in
      elim (Option-cases (fetch v s)) [
        | inl q ↦
            pass_none (suc n) it d s a c (subst (λ w. fetch w s ≡ none) (sym e) q)
            ∙ ground (arith, q)
        | inr (r, q) ↦
            let i =
              for_each_lem vs (suc n) (record { value = v; status = r.0 }) (next d).1 r.1 b g
                (ground arith) in
            pass_some (suc n) it d s r a c (subst (λ w. fetch w s ≡ some r) (sym e) q)
            ∙ ap
                (λ w. cons_visit it s (
                  for_each next exhausted fetch (suc n) (record { value = w; status = r.0 })
                    (next d).1 r.1))
                e
            ∙ ap (cons_visit it s) i
            ∙ ground (arith, q)
      ]

  begin_end :
      (n : ℕ) (d : D) (s : S)
      → exhausted (next d).0 ≡ true
      → zip next exhausted fetch (suc n) d s ≡ some []
  unfolding zip begin fetch_at for_each
  begin_end n d s a = ground (arith, a)

  begin_none :
      (n : ℕ) (d : D) (s : S)
      → exhausted (next d).0 ≡ false
      → fetch (next d).0 s ≡ none
      → zip next exhausted fetch n d s ≡ none
  unfolding zip begin fetch_at
  begin_none n d s a q = ground (arith, a, q)

  begin_some :
      (n : ℕ) (d : D) (s : S) (r : IoStatus × S)
      → exhausted (next d).0 ≡ false
      → fetch (next d).0 s ≡ some r
      → zip next exhausted fetch n d s
        ≡ for_each next exhausted fetch n
            (record { value = (next d).0; status = r.0 })
            (next d).1
            r.1
  unfolding zip begin fetch_at
  begin_some n d s r a q = ground (arith, a, q)

  zip-visit :
      (vs : List V) (n : ℕ) (d : D) (s : S)
      → Gives d vs
      → length vs < n
      → zip next exhausted fetch n d s ≡ visit vs s
  unfolding Gives visit
  zip-visit vs zero d s g l = absurd (omega arith)
  zip-visit [] (suc n) d s g l = begin_end n d s g
  zip-visit (v ∷ vs) (suc n) d s (e, b, g) l =
      let c : exhausted (next d).0 ≡ false = ap exhausted e ∙ b in
      elim (Option-cases (fetch v s)) [
        | inl q ↦
            begin_none (suc n) d s c (subst (λ w. fetch w s ≡ none) (sym e) q) ∙ ground (arith, q)
        | inr (r, q) ↦
            begin_some (suc n) d s r c (subst (λ w. fetch w s ≡ some r) (sym e) q)
            ∙ ap
                (λ w.
                  for_each next exhausted fetch (suc n) (record { value = w; status = r.0 })
                    (next d).1 r.1)
                e
            ∙ for_each_lem vs (suc n) (record { value = v; status = r.0 }) (next d).1 r.1 b g
                (ground arith)
            ∙ ground (arith, q)
      ]

  module _ (Good : V → Type 0) (P : V → S → Type 0)
      (law : (v : V) (s s' : S) → Good v → fetch v s ≡ some (IoStatus.success, s') → P v s') where
    abbrev Held : Handle V × S → Type 0
    Held (it, s) = it.status ≡ IoStatus.success → P it.value s

    visit-Held :
        (vs : List V) (s : S) (visits : List (Handle V × S))
        → Each Good vs
        → visit vs s ≡ some visits
        → (map (λ x. x.0.value) visits ≡ vs) × Each Held visits
    unfolding visit cons_visit
    visit-Held [] s visits good e =
        let same : [] ≡ visits = ground (arith, e) in
        subst (λ w. (map (λ x. x.0.value) w ≡ []) × Each Held w) same (refl, Each-nil Held)
    visit-Held (v ∷ vs) s visits good e = elim (Option-cases (fetch v s)) [
      | inl q ↦ absurd (ground (arith, e, q))
      | inr (r, q) ↦ elim (Option-cases (visit vs r.1)) [
        | inl z ↦ absurd (ground (arith, e, q, z))
        | inr (rest, z) ↦
            let (i, h) = visit-Held vs r.1 rest (λ m. good (suc m)) z in
            let it : Handle V = record { value = v; status = r.0 } in
            let same : (it, r.1) ∷ rest ≡ visits = ground (arith, e, q, z) in
            subst (λ w. (map (λ x. x.0.value) w ≡ v ∷ vs) × Each Held w) same
              (
                ap (λ w. v ∷ w) i,
                Each-cons Held (it, r.1) rest
                    (λ k. law v s r.1 (good 0 v refl) (q ∙ ap (λ w. some (w, r.1)) k)) h,
              )
      ]
    ]

    -- Where no fetch reads outside of an array, the visits end.
    visit_total :
        (vs : List V) (s : S)
        → ((v : V) (x : S) → (r : IoStatus × S) × (fetch v x ≡ some r))
        → (visits : List (Handle V × S)) × (visit vs s ≡ some visits)
    unfolding visit cons_visit
    visit_total [] s f = ([], refl)
    visit_total (v ∷ vs) s f =
        let (r, q) = f v s in
        let (rest, z) = visit_total vs r.1 f in
        ((record { value = v; status = r.0 }, r.1) ∷ rest, ground (arith, q, z))

    -- For a source that gives values and then an exhausted one, fuel for more than these, and fetches
    -- that read within their arrays: the loop over the zipped range returns after the fetches of the
    -- values in turn; its body has had each of the values once and in order, and what a successful fetch
    -- of such a value leaves in the buffers holds there for each handle with that status.
    pub zip_lem :
        (vs : List V) (n : ℕ) (d : D) (s : S)
        → Gives d vs
        → length vs < n
        → Each Good vs
        → ((v : V) (x : S) → (r : IoStatus × S) × (fetch v x ≡ some r))
        → (visits : List (Handle V × S)) × (zip next exhausted fetch n d s ≡ some visits)
          × (visit vs s ≡ some visits)
          × (map (λ x. x.0.value) visits ≡ vs)
          × Each Held visits
    zip_lem vs n d s g l good f =
        let (visits, e) = visit_total vs s f in
        let (values, held) = visit-Held vs s visits good e in
        (visits, zip-visit vs n d s g l ∙ e, e, values, held)
