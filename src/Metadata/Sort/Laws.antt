-- ===== src/Metadata/Sort/Laws.antt =====
-- `impl::hd_sort` sorts, and rearranges.
use sbio.Prelude.{ℕ, suc, ◌+◌, ◌≡◌, sym, ◌∙◌, ap, List, [], ◌∷◌, length, arith}
use mathlib.Core.List.{Permᴰ}
use mathlib.Core.List.Permᴰ
use sbio.Metadata.Order.{Less}
use sbio.Metadata.Sort.{sort_rounds, hd_sort}
use sbio.Metadata.Sort.Place.{
  onto, onto-onto, length-onto, get_elem?-onto, place, shift-place, place-append, place-perm,
  place-IsChain, IsChain, length-place, onto-middle,
}

module _ {ℓ} {A : Type ℓ} ⦃o : Less A⦄ where
  -- The sorted part after the entry `x` is put in, reversed.
  grow : List A → A → List A
  grow back x = onto (place back x []) []

  onto-grow : (back rest : List A) (x : A) → onto (grow back x) rest ≡ place back x rest
  unfolding grow
  onto-grow back rest x = onto-onto (place back x []) [] rest ∙ sym (place-append back x [] rest)

  length-grow : (back : List A) (x : A) → length (grow back x) ≡ length back + 1
  unfolding grow
  length-grow back x = omega (arith, length-onto (place back x []) [], length-place back [] x)

  sort_rounds-cons :
      (n : ℕ) (back rest : List A) (x : A)
      → sort_rounds (suc n) (length back) (onto back (x ∷ rest))
        ≡ sort_rounds n (length (grow back x)) (onto (grow back x) rest)
  unfolding sort_rounds
  sort_rounds-cons n back rest x = rw (
    get_elem?-onto back (x ∷ rest),
    shift-place back x x rest,
    ← onto-grow back rest x,
    length-grow back x,
  )

  sort_rounds_lem :
      (rest back : List A)
      → IsChain (onto back [])
      → let sorted = sort_rounds (length rest) (length back) (onto back rest) in
        IsChain sorted × Permᴰ sorted (onto back rest)
  unfolding sort_rounds
  sort_rounds_lem [] back c = (c, Permᴰ.refl (onto back []))
  sort_rounds_lem (x ∷ rest) back c =
      let (d, p) =
        sort_rounds_lem rest (grow back x)
          (rw (onto-grow back [] x) (place-IsChain back x [] c tt)) in
      rw (sort_rounds-cons (length rest) back rest x) (
        d,
        Permᴰ.trans p (
            rw (onto-grow back rest x)
              (Permᴰ.trans (place-perm back x rest) (Permᴰ.symm (onto-middle back x rest)))),
      )

  hd_sort-cons : (x : A) (xs : List A) → hd_sort (x ∷ xs) ≡ sort_rounds (length xs) 1 (x ∷ xs)
  unfolding hd_sort
  hd_sort-cons x xs = ap (λ n. sort_rounds n 1 (x ∷ xs)) (omega arith)

  -- `hd_sort` rearranges the entries, and leaves none before one that it is to come after.
  pub hd_sort_lem : (vec : List A) → IsChain (hd_sort vec) × Permᴰ (hd_sort vec) vec
  unfolding hd_sort sort_rounds
  hd_sort_lem [] = (tt, Permᴰ.refl [])
  hd_sort_lem (x ∷ xs) = rw hd_sort-cons (sort_rounds_lem xs (x ∷ []) tt)
