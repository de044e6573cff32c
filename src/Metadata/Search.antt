-- ===== src/Metadata/Search.antt =====
-- `impl::hd_lower_bound`: binary search for the first entry that is not below a key.
pub mod Linear
pub mod Unique
use sbio.Prelude.{
  ℕ, zero, suc, ◌+◌, ◌-◌, ◌/◌, ◌≤◌, ◌<◌, ◌≡◌, ◌≢◌, Bool, true, false, Option, none, some, List,
  length, get_elem?, inl, inr, arith, ltb, Bool-cases, dec_lt, if◌then◌else◌, [], ◌∷◌,
}

-- The `while` on fuel, over the test `vec[mid] < key` at each position; `none` means that the fuel
-- ran out.
pub bisect : ℕ → (ℕ → Bool) → ℕ → ℕ → Option ℕ
bisect zero below low high = none
bisect (suc fuel) below low high = elim (ltb low high) [
  | true ↦
      let mid = low + (high - low) / 2 in
      elim (below mid) [
        | true ↦ bisect fuel below (mid + 1) high
        | false ↦ bisect fuel below low mid
      ]
  | false ↦ some low
]

-- Whether the entry at a position is below the key; positions are only read inside the list.
pub below_at {ℓ} : {A : Type ℓ} → (A → Bool) → List A → ℕ → Bool
below_at below vec i = elim (get_elem? vec i) [ none ↦ false | some a ↦ below a ]

-- The position that is found; each round makes the range shorter, so the length is enough fuel.
pub hd_lower_bound {ℓ} : {A : Type ℓ} → (A → Bool) → List A → Option ℕ
hd_lower_bound below vec = bisect (suc (length vec)) (below_at below vec) 0 (length vec)

-- A test that holds up to some position and not from there on.
abbrev pub IsSplit : (ℕ → Bool) → ℕ → Type 0
IsSplit below n = (i j : ℕ) → i ≤ j → j < n → below j ≡ true → below i ≡ true

-- The position where the test changes.
pub record IsBound (below : ℕ → Bool) (n r : ℕ) : Type 0 where
  pub in_range : r ≤ n
  pub before : (i : ℕ) → i < r → below i ≡ true
  pub after : (i : ℕ) → r ≤ i → i < n → below i ≡ false

module _ (below : ℕ → Bool) (n : ℕ) (split : IsSplit below n) where
  -- The search ends, and at the position where the test changes.
  pub bisect_lem :
      (fuel low high : ℕ)
      → high ≤ n
      → low ≤ high
      → high < low + fuel
      → ((i : ℕ) → i < low → below i ≡ true)
      → ((i : ℕ) → high ≤ i → i < n → below i ≡ false)
      → (r : ℕ) × (bisect fuel below low high ≡ some r) × IsBound below n r
  unfolding bisect
  bisect_lem zero low high h l f before after = absurd (omega arith)
  bisect_lem (suc fuel) low high h l f before after = elim (dec_lt low high) [
    | no e ↦ (
      low,
      ground arith,
      record { in_range = omega arith; before = before; after = λ i p q. after i (omega arith) q },
    )
    | yes lt ↦ elim (Bool-cases (below (low + (high - low) / 2))) [
      | inl b ↦
          let (r, q, k) =
            bisect_lem fuel (low + (high - low) / 2 + 1) high h (omega arith) (omega arith)
              (λ i p. split i (low + (high - low) / 2) (omega arith) (omega arith) b) after in
          (r, ground (arith, q), k)
      | inr b ↦
          let (r, q, k) =
            bisect_lem fuel low (low + (high - low) / 2) (omega arith) (omega arith) (omega arith)
              before (λ i p m. right i p m b) in
          (r, ground (arith, q), k)
    ]
  ]
    where
      right :
          (i : ℕ)
          → low + (high - low) / 2 ≤ i
          → i < n
          → below (low + (high - low) / 2) ≡ false
          → below i ≡ false
      right i p m b = elim (Bool-cases (below i)) [
        | inl t ↦ cc (split (low + (high - low) / 2) i p m t)
        | inr e ↦ e
      ]

-- The entry that the callers take from the position found: none at the end of the list, or if the key
-- is below the entry. The outer `none` is that of the search.
pub search {ℓ} : {A : Type ℓ} → (A → Bool) → (A → Bool) → List A → Option (Option A)
search below above vec = elim (hd_lower_bound below vec) [
  | none ↦ none
  | some i ↦
      some (elim (get_elem? vec i) [ none ↦ none | some e ↦ if above e then none else some e ])
]

-- The first entry that passes a test.
unfoldable pub find_first {ℓ} : {A : Type ℓ} → (A → Bool) → List A → Option A
find_first pred [] = none
find_first pred (e ∷ es) = if pred e then some e else find_first pred es
