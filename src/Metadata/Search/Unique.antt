-- ===== src/Metadata/Search/Unique.antt =====
-- Where at most one entry passes a test, the order of the list does not matter to the search.
use sbio.Prelude.{
  ℕ, ◌+◌, ◌≤◌, ◌≡◌, refl, ◌∙◌, Bool, List, [], ◌∷◌, ◌++◌, inl, inr, arith, Bool-cases,
  if◌then◌else◌,
}
use mathlib.Core.List.{Permᴰ}
use sbio.Metadata.Search.{find_first}

-- How many entries pass a test.
unfoldable pub count {ℓ} : {A : Type ℓ} → (A → Bool) → List A → ℕ
count pred [] = 0
count pred (e ∷ es) = (if pred e then 1 else 0) + count pred es

module _ {ℓ} {A : Type ℓ} (pred : A → Bool) where
  pub count-append : (xs ys : List A) → count pred (xs ++ ys) ≡ count pred xs + count pred ys
  unfolding count
  count-append [] ys = omega arith
  count-append (x ∷ xs) ys = ground (arith, count-append xs ys)

  pub count-perm : (xs ys : List A) → Permᴰ xs ys → count pred xs ≡ count pred ys
  unfolding count
  count-perm xs ys Permᴰ.nil = refl
  count-perm xs ys (Permᴰ.cons {a = x} q p) = ground (arith, count-perm _ _ p)
  count-perm xs ys (Permᴰ.swap {a = x} {b = y} q r) = ground arith
  count-perm xs ys (Permᴰ.trans p q) = count-perm _ _ p ∙ count-perm _ _ q

  pub find_first-perm :
      (xs ys : List A) → Permᴰ xs ys → count pred xs ≤ 1 → find_first pred xs ≡ find_first pred ys
  unfolding count find_first
  find_first-perm xs ys Permᴰ.nil h = refl
  find_first-perm xs ys (Permᴰ.cons {a = x} q p) h = elim (Bool-cases (pred x)) [
    | inl e ↦ ground arith
    | inr e ↦ ground (arith, find_first-perm _ _ p (ground arith))
  ]
  find_first-perm xs ys (Permᴰ.swap {a = x} {b = y} q r) h = elim (Bool-cases (pred x)) [
    | inl e ↦ ground arith
    | inr e ↦ ground arith
  ]
  find_first-perm xs ys (Permᴰ.trans p q) h =
      find_first-perm _ _ p h ∙ find_first-perm _ _ q (omega (arith, count-perm _ _ p))

  pub find_first-ext :
      (test : A → Bool)
      → ((a : A) → pred a ≡ test a)
      → (es : List A) → find_first pred es ≡ find_first test es
  unfolding find_first
  find_first-ext test h [] = refl
  find_first-ext test h (e ∷ es) = rw (h e, find_first-ext test h es) refl
