-- ===== src/Metadata/Search/Linear.antt =====
-- On a sorted list the binary search finds what a search from the front finds.
use sbio.Prelude.{
  ℕ, zero, suc, ◌≤◌, ◌<◌, ◌≡◌, refl, sym, ◌∙◌, ap, Bool, true, false, not, ◌&&◌, none, some, List,
  [], ◌∷◌, length, get_elem?, inl, inr, arith, Bool-cases, Option-cases, dec_lt,
}
use mathlib.Core.Path.{subst, subst₂}
use mathlib.Core.Option.{some-injective}
use sbio.Metadata.Order.{Less, NotAfter}
use sbio.Metadata.Sort.Place.{IsChain}
use sbio.Metadata.Search.{
  below_at, bisect_lem, hd_lower_bound, IsBound, IsSplit, search, find_first,
}

module _ {ℓ} {A : Type ℓ} (pred : A → Bool) where
  find_first-none :
      (es : List A)
      → ((i : ℕ) (e : A) → get_elem? es i ≡ some e → pred e ≡ false)
      → find_first pred es ≡ none
  unfolding find_first
  find_first-none [] h = refl
  find_first-none (e ∷ es) h = rw (h 0 e refl) (find_first-none es (λ i d q. h (suc i) d q))

  find_first-some :
      (es : List A) (r : ℕ) (e : A)
      → ((i : ℕ) (d : A) → i < r → get_elem? es i ≡ some d → pred d ≡ false)
      → get_elem? es r ≡ some e
      → pred e ≡ true
      → find_first pred es ≡ some e
  unfolding find_first
  find_first-some [] r e h q p = cc
  find_first-some (d ∷ es) zero e h q p = ground arith
  find_first-some (d ∷ es) (suc r) e h q p =
      rw (h 0 d (omega arith) refl)
        (find_first-some es r e (λ i c k. h (suc i) c (omega arith)) q p)

get_elem?-lt {ℓ} :
    {A : Type ℓ} (es : List A) (i : ℕ) → i < length es → (e : A) × (get_elem? es i ≡ some e)
get_elem?-lt [] i h = absurd (omega arith)
get_elem?-lt (e ∷ es) zero h = (e, refl)
get_elem?-lt (e ∷ es) (suc i) h = get_elem?-lt es i (omega arith)

lt-length {ℓ} : {A : Type ℓ} (es : List A) (i : ℕ) {e : A} → get_elem? es i ≡ some e → i < length es
lt-length [] i q = cc
lt-length (e ∷ es) zero q = omega arith
lt-length (e ∷ es) (suc i) q = omega (arith, lt-length es i q)

module _ {ℓ} {A : Type ℓ} ⦃o : Less A⦄ where
  pub lt_irrefl : (a : A) → o.lt a a ≡ false
  lt_irrefl a = elim (Bool-cases (o.lt a a)) [ inl e ↦ cc (o.asym a a e) | inr e ↦ e ]

  -- In a sorted list what stands later does not come before.
  IsChain-NotAfter :
      (es : List A) (i j : ℕ) (a b : A)
      → IsChain es
      → i ≤ j
      → get_elem? es i ≡ some a
      → get_elem? es j ≡ some b
      → NotAfter a b
  IsChain-NotAfter [] i j a b c h p q = cc
  IsChain-NotAfter (x ∷ es) zero zero a b c h p q =
      (subst₂ (λ k l. o.lt l k ≡ false) (some-injective x a p) (some-injective x b q) (lt_irrefl x))
  IsChain-NotAfter (x ∷ []) zero (suc j) a b c h p q = cc
  IsChain-NotAfter (x ∷ y ∷ es) zero (suc j) a b c h p q =
      o.trans a y b (subst (λ k. o.lt y k ≡ false) (some-injective x a p) c.0)
        (IsChain-NotAfter (y ∷ es) 0 j y b c.1 (omega arith) refl q)
  IsChain-NotAfter (x ∷ es) (suc i) zero a b c h p q = absurd (omega arith)
  IsChain-NotAfter (x ∷ []) (suc i) (suc j) a b c h p q = cc
  IsChain-NotAfter (x ∷ y ∷ es) (suc i) (suc j) a b c h p q =
      IsChain-NotAfter (y ∷ es) i j a b c.1 (omega arith) p q

  module _ (below above : A → Bool)
      (below_down : (a b : A) → NotAfter a b → below b ≡ true → below a ≡ true)
      (above_up : (a b : A) → NotAfter a b → above a ≡ true → above b ≡ true) (vec : List A)
      (sorted : IsChain vec) where
    abbrev matches : A → Bool
    matches e = not (below e) && not (above e)

    below_at-some : (i : ℕ) (e : A) → get_elem? vec i ≡ some e → below_at below vec i ≡ below e
    unfolding below_at
    below_at-some i e q = ground arith

    below_at-IsSplit : IsSplit (below_at below vec) (length vec)
    below_at-IsSplit i j h k t =
        let (b, q) = get_elem?-lt vec j k in
        let (a, p) = get_elem?-lt vec i (omega arith) in
        below_at-some i a p
        ∙ below_down a b (IsChain-NotAfter vec i j a b sorted h p q) (sym (below_at-some j b q) ∙ t)

    bound :
        (r : ℕ) × (hd_lower_bound below vec ≡ some r) × IsBound (below_at below vec) (length vec) r
    unfolding hd_lower_bound
    bound =
        bisect_lem (below_at below vec) (length vec) below_at-IsSplit (suc (length vec)) 0
          (length vec) (omega arith) (omega arith) (omega arith) (λ i h. absurd (omega arith))
          (λ i h k. absurd (omega arith))

    none_before :
        (r : ℕ)
        → IsBound (below_at below vec) (length vec) r
        → (i : ℕ) (e : A) → i < r
        → get_elem? vec i ≡ some e
        → matches e ≡ false
    none_before r k i e h q = ground (arith, sym (below_at-some i e q) ∙ k.before i h)

    search_at :
        (r : ℕ)
        → hd_lower_bound below vec ≡ some r
        → IsBound (below_at below vec) (length vec) r
        → search below above vec ≡ some (find_first matches vec)
    unfolding search
    search_at r q k = elim (Option-cases (get_elem? vec r)) [
      | inl n ↦ rw (q, search, n) (sym (ap some (find_first-none matches vec (all_before n))))
      | inr (e, p) ↦ elim (Bool-cases (above e)) [
        | inl a ↦
            rw (q, search, p, a) (sym (ap some (find_first-none matches vec (all_miss e p a))))
        | inr a ↦
            rw (q, search, p, a)
              (sym (ap some (find_first-some matches vec r e (none_before r k) p (hit e p a))))
      ]
    ]
      where
        all_before :
            get_elem? vec r ≡ none → (i : ℕ) (e : A) → get_elem? vec i ≡ some e → matches e ≡ false
        all_before n i e h = elim (dec_lt i r) [
          | yes l ↦ none_before r k i e l h
          | no l ↦ cc ((get_elem?-lt vec r (omega (arith, lt-length vec i h))).1, n)
        ]

        all_miss :
            (d : A)
            → get_elem? vec r ≡ some d
            → above d ≡ true
            → (i : ℕ) (e : A) → get_elem? vec i ≡ some e
            → matches e ≡ false
        all_miss d p a i e h = elim (dec_lt i r) [
          | yes l ↦ none_before r k i e l h
          | no l ↦
              ground (arith, above_up d e (IsChain-NotAfter vec r i d e sorted (omega arith) p h) a)
        ]

        hit : (e : A) → get_elem? vec r ≡ some e → above e ≡ false → matches e ≡ true
        hit e p a =
            ground (arith, sym (below_at-some r e p) ∙ k.after r (omega arith) (lt-length vec r p))

    pub search_lem : search below above vec ≡ some (find_first matches vec)
    search_lem = let (r, q, k) = bound in search_at r q k

    -- The search ends at a position before which all entries are below, and from which on none is.
    pub lower_bound_lem :
        (r : ℕ) × (hd_lower_bound below vec ≡ some r)
        × ((i : ℕ) (e : A) → i < r → get_elem? vec i ≡ some e → below e ≡ true)
        × ((i : ℕ) (e : A) → r ≤ i → get_elem? vec i ≡ some e → below e ≡ false)
    lower_bound_lem =
        let (r, q, k) = bound in
        (
          r,
          q,
          (λ i e h p. sym (below_at-some i e p) ∙ k.before i h),
          λ i e h p. sym (below_at-some i e p) ∙ k.after i h (lt-length vec i p),
        )
