-- ===== src/Iteration/Plan/Scan.antt =====
-- What the loop over the fetches so far finds.
use sbio.Prelude.{
  ℕ, zero, suc, ◌+◌, ◌<◌, ◌≡◌, ◌⊎◌, refl, inl, inr, Bool, true, false, ◌||◌, Option, none, some,
  List, [], ◌∷◌, get_elem?, arith, Bool-cases, Each, Each-cons, Each-nil,
}
use mathlib.Core.Path.{subst}
use sbio.BrokerGroup.{shares_fetch, shares_buffer}
use sbio.Iteration.Plan.{Group, Fetch, shares, scan_fetches}

module _ (groups : List Group) (g : Group) (b : ℕ) where
  pub scan_true :
      (xs : List Fetch) (f : ℕ) (shared : Bool) (buffer_of : Option ℕ)
      → (scan_fetches groups g b xs f shared buffer_of).0 ≡ true
      → (shared ≡ true)
        ⊎ ((m : ℕ) × (x : Fetch) × (get_elem? xs m ≡ some x)
            × (shares shares_fetch groups g b x ≡ true))
  unfolding scan_fetches
  scan_true [] f shared buffer_of e = inl e
  scan_true (x ∷ xs) f shared buffer_of e = elim (scan_true xs (f + 1) _ _ e) [
    | inl a ↦ elim (Bool-cases shared) [ inl c ↦ inl c | inr c ↦ inr (0, x, refl, ground arith) ]
    | inr (m, y, q, s) ↦ inr (suc m, y, q, s)
  ]

  pub scan_false :
      (xs : List Fetch) (f : ℕ) (shared : Bool) (buffer_of : Option ℕ)
      → (scan_fetches groups g b xs f shared buffer_of).0 ≡ false
      → (shared ≡ false) × Each (λ x. shares shares_fetch groups g b x ≡ false) xs
  unfolding scan_fetches
  scan_false [] f shared buffer_of e = (e, Each-nil _)
  scan_false (x ∷ xs) f shared buffer_of e =
      let (a, r) = scan_false xs (f + 1) _ _ e in
      (
        ground arith,
        Each-cons (λ x. shares shares_fetch groups g b x ≡ false) x xs (ground arith) r,
      )

  pub scan_some :
      (xs : List Fetch) (f : ℕ) (shared : Bool) (i : ℕ)
      → (scan_fetches groups g b xs f shared (some i)).1 ≡ some i
  unfolding scan_fetches
  scan_some [] f shared i = refl
  scan_some (x ∷ xs) f shared i = scan_some xs (f + 1) _ i

  -- The first fetch with the same buffer, or that there is none.
  abbrev pub IsFirst : List Fetch → ℕ → Option ℕ → Type 0
  IsFirst xs f none = Each (λ x. shares shares_buffer groups g b x ≡ false) xs
  IsFirst xs f (some k) =
      (m : ℕ) × (x : Fetch) × (k ≡ f + m)
      × (get_elem? xs m ≡ some x)
      × (shares shares_buffer groups g b x ≡ true)
      × ((n : ℕ) (y : Fetch)
          → n < m
          → get_elem? xs n ≡ some y
          → shares shares_buffer groups g b y ≡ false)

  pub scan-IsFirst :
      (xs : List Fetch) (f : ℕ) (shared : Bool) (o : Option ℕ)
      → (scan_fetches groups g b xs f shared none).1 ≡ o
      → IsFirst xs f o
  unfolding scan_fetches
  scan-IsFirst [] f shared none e = Each-nil _
  scan-IsFirst [] f shared (some k) e = cc
  scan-IsFirst (x ∷ xs) f shared o e = elim (Bool-cases (shares shares_buffer groups g b x)) [
    | inl a ↦
        subst (IsFirst (x ∷ xs) f) (found a)
          (0, x, omega arith, refl, a, λ n y h q. absurd (omega arith))
    | inr a ↦ later o a (scan-IsFirst xs (f + 1) _ o (next a))
  ]
    where
      found : shares shares_buffer groups g b x ≡ true → some f ≡ o
      found a = ground (arith, scan_some xs (f + 1) (shared || shares shares_fetch groups g b x) f)

      next :
          shares shares_buffer groups g b x ≡ false
          → (scan_fetches groups g b xs (f + 1) (shared || shares shares_fetch groups g b x) none).1
            ≡ o
      next a = ground arith

      later :
          (o : Option ℕ)
          → shares shares_buffer groups g b x ≡ false
          → IsFirst xs (f + 1) o
          → IsFirst (x ∷ xs) f o
      later none a r = Each-cons (λ x. shares shares_buffer groups g b x ≡ false) x xs a r
      later (some k) a (m, y, u, q, s, r) = (suc m, y, omega arith, q, s, λ n z h p. before n z h p)
        where
          before :
              (n : ℕ) (z : Fetch)
              → n < suc m
              → get_elem? (x ∷ xs) n ≡ some z
              → shares shares_buffer groups g b z ≡ false
          before zero z h p = ground arith
          before (suc n) z h p = r n z (omega arith) p
