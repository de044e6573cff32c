-- ===== src/Metadata/Sort/Place.antt =====
-- One round of the sort as an insertion into the sorted part, held as a reversed list.
use sbio.Prelude.{
  ℕ, suc, ◌+◌, ◌≡◌, refl, ◌∙◌, ap, List, [], ◌∷◌, ◌++◌, length, get_elem?, get_or, set, inl, inr,
  arith, if◌then◌else◌, Bool-cases,
}
use mathlib.Core.List.{Permᴰ}
use mathlib.Core.List.Permᴰ
use sbio.Metadata.Order.{Less, NotAfter}
use sbio.Metadata.Sort.{shift}

-- The reverse of `back`, followed by `xs`.
abbrev pub onto {ℓ} : {A : Type ℓ} → List A → List A → List A
onto [] xs = xs
onto (y ∷ back) xs = onto back (y ∷ xs)

module _ {ℓ} {A : Type ℓ} where
  get_or-onto :
      (back xs : List A) (k : ℕ) (d : A) → get_or (onto back xs) (length back + k) d ≡ get_or xs k d
  get_or-onto [] xs k d = ap (λ i. get_or xs i d) (omega arith)
  get_or-onto (y ∷ back) xs k d =
      ap (λ i. get_or (onto back (y ∷ xs)) i d) (omega arith) ∙ get_or-onto back (y ∷ xs) (suc k) d

  set-onto :
      (back xs : List A) (k : ℕ) (v : A)
      → set (onto back xs) (length back + k) v ≡ onto back (set xs k v)
  set-onto [] xs k v = ap (λ i. set xs i v) (omega arith)
  set-onto (y ∷ back) xs k v =
      ap (λ i. set (onto back (y ∷ xs)) i v) (omega arith) ∙ set-onto back (y ∷ xs) (suc k) v

  get_elem?-onto_at :
      (back xs : List A) (k : ℕ) → get_elem? (onto back xs) (length back + k) ≡ get_elem? xs k
  get_elem?-onto_at [] xs k = ap (get_elem? xs) (omega arith)
  get_elem?-onto_at (y ∷ back) xs k =
      ap (get_elem? (onto back (y ∷ xs))) (omega arith) ∙ get_elem?-onto_at back (y ∷ xs) (suc k)

  pub get_elem?-onto : (back xs : List A) → get_elem? (onto back xs) (length back) ≡ get_elem? xs 0
  get_elem?-onto back xs = ap (get_elem? (onto back xs)) (omega arith) ∙ get_elem?-onto_at back xs 0

  pub onto-onto : (l acc xs : List A) → onto (onto l acc) xs ≡ onto acc (l ++ xs)
  onto-onto [] acc xs = refl
  onto-onto (y ∷ l) acc xs = onto-onto l (y ∷ acc) xs

  pub length-onto : (l acc : List A) → length (onto l acc) ≡ length l + length acc
  length-onto [] acc = omega arith
  length-onto (y ∷ l) acc = omega (arith, length-onto l (y ∷ acc))

  pub onto-perm : (back xs ys : List A) → Permᴰ xs ys → Permᴰ (onto back xs) (onto back ys)
  onto-perm [] xs ys p = p
  onto-perm (y ∷ back) xs ys p = onto-perm back (y ∷ xs) (y ∷ ys) (Permᴰ.cons refl p)

  pub onto-middle :
      (back : List A) (t : A) (xs : List A) → Permᴰ (onto back (t ∷ xs)) (t ∷ onto back xs)
  onto-middle [] t xs = Permᴰ.refl (t ∷ xs)
  onto-middle (y ∷ back) t xs =
      Permᴰ.trans (onto-perm back (y ∷ t ∷ xs) (t ∷ y ∷ xs) (Permᴰ.swap refl refl))
        (onto-middle back t (y ∷ xs))

  pub onto-append : (back xs ys : List A) → onto back (xs ++ ys) ≡ onto back xs ++ ys
  onto-append [] xs ys = refl
  onto-append (y ∷ back) xs ys = onto-append back (y ∷ xs) ys

module _ {ℓ} {A : Type ℓ} ⦃o : Less A⦄ where
  -- The sorted part with `t` put in its place: before the entries of `mid`, and among `back`.
  pub place : List A → A → List A → List A
  place [] t mid = t ∷ mid
  place (y ∷ back) t mid = if o.lt t y then place back t (y ∷ mid) else onto (y ∷ back) (t ∷ mid)

  pub shift-place :
      (back : List A) (t x : A) (mid : List A)
      → shift (onto back (x ∷ mid)) t (length back) ≡ place back t mid
  unfolding shift place
  shift-place [] t x mid = refl
  shift-place (y ∷ back) t x mid = ground (
    arith,
    get_or-onto back (y ∷ x ∷ mid) 0 t,
    set-onto back (y ∷ x ∷ mid) 1 y,
    set-onto back (y ∷ x ∷ mid) 1 t,
    shift-place back t y (y ∷ mid),
  )

  pub place-append :
      (back : List A) (t : A) (mid rest : List A)
      → place back t (mid ++ rest) ≡ place back t mid ++ rest
  unfolding place
  place-append [] t mid rest = refl
  place-append (y ∷ back) t mid rest =
      ground (arith, place-append back t (y ∷ mid) rest, onto-append back (y ∷ t ∷ mid) rest)

  pub place-perm :
      (back : List A) (t : A) (mid : List A) → Permᴰ (place back t mid) (t ∷ onto back mid)
  unfolding place
  place-perm [] t mid = Permᴰ.refl (t ∷ mid)
  place-perm (y ∷ back) t mid = elim (Bool-cases (o.lt t y)) [
    | inl e ↦ rw e (place-perm back t (y ∷ mid))
    | inr e ↦ rw e (onto-middle (y ∷ back) t mid)
  ]

  pub length-place :
      (back mid : List A) (x : A) → length (place back x mid) ≡ suc (length back + length mid)
  unfolding place
  length-place [] mid x = omega arith
  length-place (y ∷ back) mid x =
      ground (arith, length-place back (y ∷ mid) x, length-onto back (y ∷ x ∷ mid))

  -- Neighbours are in order.
  abbrev pub IsChain : List A → Type 0
  IsChain [] = Unit
  IsChain (x ∷ []) = Unit
  IsChain (x ∷ y ∷ l) = NotAfter x y × IsChain (y ∷ l)

  abbrev Before : A → List A → Type 0
  Before t [] = Unit
  Before t (y ∷ l) = NotAfter t y

  Before-IsChain : (t : A) (l : List A) → Before t l → IsChain l → IsChain (t ∷ l)
  Before-IsChain t [] b c = tt
  Before-IsChain t (y ∷ l) b c = (b, c)

  onto-suffix : (back xs : List A) → IsChain (onto back xs) → IsChain xs
  onto-suffix [] xs c = c
  onto-suffix (y ∷ back) [] c = tt
  onto-suffix (y ∷ back) (x ∷ xs) c = (onto-suffix back (y ∷ x ∷ xs) c).1

  onto-replace :
      (back : List A) (y : A) (xs ys : List A)
      → IsChain (onto back (y ∷ xs))
      → IsChain (y ∷ ys)
      → IsChain (onto back (y ∷ ys))
  onto-replace [] y xs ys c d = d
  onto-replace (z ∷ back) y xs ys c d =
      onto-replace back z (y ∷ xs) (y ∷ ys) c ((onto-suffix back (z ∷ y ∷ xs) c).0, d)

  pub place-IsChain :
      (back : List A) (t : A) (mid : List A)
      → IsChain (onto back mid)
      → Before t mid
      → IsChain (place back t mid)
  unfolding place
  place-IsChain [] t mid c b = Before-IsChain t mid b c
  place-IsChain (y ∷ back) t mid c b = elim (Bool-cases (o.lt t y)) [
    | inl e ↦ rw e (place-IsChain back t (y ∷ mid) c (o.asym t y e))
    | inr e ↦ rw e (
        onto-replace back y mid (t ∷ mid) c
          (e, Before-IsChain t mid b (onto-suffix (y ∷ back) mid c)))
  ]
