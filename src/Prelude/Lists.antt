-- ===== src/Prelude/Lists.antt =====
-- Lists measured, read and written at native indices, under the library's names.
use Prim.Native.Nat.{ℕ, zero, suc, ◌+◌, ◌<◌}
use mathlib.Core.Path.{◌≡◌, refl, ap, subst}
use mathlib.Core.Logic.{◌≢◌, ◌⊎◌, inl, inr}
use mathlib.Core.List.{List, [], ◌∷◌, ◌++◌}
use mathlib.Core.Option.{Option, none, some}
use native.Mathlib.Omega.{arith}

module _ {ℓ} {A : Type ℓ} where
  abbrev pub length : List A → ℕ
  length [] = 0
  length (x ∷ xs) = suc (length xs)

  abbrev pub get_elem? : List A → ℕ → Option A
  get_elem? [] i = none
  get_elem? (x ∷ xs) zero = some x
  get_elem? (x ∷ xs) (suc i) = get_elem? xs i

  abbrev pub get_or : List A → ℕ → A → A
  get_or [] i d = d
  get_or (x ∷ xs) zero d = x
  get_or (x ∷ xs) (suc i) d = get_or xs i d

  -- A write out of bounds changes nothing.
  abbrev pub set : List A → ℕ → A → List A
  set [] i v = []
  set (x ∷ xs) zero v = v ∷ xs
  set (x ∷ xs) (suc i) v = x ∷ set xs i v

  abbrev pub replicate : ℕ → A → List A
  replicate zero a = []
  replicate (suc n) a = a ∷ replicate n a

  pub length-append : (xs ys : List A) → length (xs ++ ys) ≡ length xs + length ys
  length-append [] ys = omega arith
  length-append (x ∷ xs) ys = omega (arith, length-append xs ys)

  pub length-replicate : (n : ℕ) (a : A) → length (replicate n a) ≡ n
  length-replicate zero a = refl
  length-replicate (suc n) a = ap suc (length-replicate n a)

module _ {ℓ} {A : Type ℓ} where
  pub length-set : (xs : List A) (i : ℕ) (v : A) → length (set xs i v) ≡ length xs
  length-set [] i v = refl
  length-set (x ∷ xs) zero v = refl
  length-set (x ∷ xs) (suc i) v = ap suc (length-set xs i v)

  pub get_or-set_self :
      (xs : List A) (i : ℕ) (v d : A) → i < length xs → get_or (set xs i v) i d ≡ v
  get_or-set_self [] i v d h = absurd (omega arith)
  get_or-set_self (x ∷ xs) zero v d h = refl
  get_or-set_self (x ∷ xs) (suc i) v d h = get_or-set_self xs i v d (omega arith)

  pub get_or-set_ne :
      (xs : List A) (i j : ℕ) (v d : A) → i ≢ j → get_or (set xs i v) j d ≡ get_or xs j d
  get_or-set_ne [] i j v d h = refl
  get_or-set_ne (x ∷ xs) zero zero v d h = absurd (h refl)
  get_or-set_ne (x ∷ xs) zero (suc j) v d h = refl
  get_or-set_ne (x ∷ xs) (suc i) zero v d h = refl
  get_or-set_ne (x ∷ xs) (suc i) (suc j) v d h = get_or-set_ne xs i j v d (λ e. h (ap suc e))

  pub get_or-replicate : (n i : ℕ) (a : A) → get_or (replicate n a) i a ≡ a
  get_or-replicate zero i a = refl
  get_or-replicate (suc n) zero a = refl
  get_or-replicate (suc n) (suc i) a = get_or-replicate n i a

-- Every element satisfies `P`; it computes to a tuple, which the tactics read and build.
abbrev pub All {ℓ κ} : {A : Type ℓ} → (A → Type κ) → List A → Type κ
All P [] = Unit
All P (x ∷ xs) = P x × All P xs

module _ {ℓ κ} {A : Type ℓ} (P : A → Type κ) where
  pub All-snoc : (xs : List A) (x : A) → All P xs → P x → All P (xs ++ x ∷ [])
  All-snoc [] x h p = (p, tt)
  All-snoc (y ∷ xs) x h p = (h.0, All-snoc xs x h.1 p)

module _ {ℓ κ μ} {A : Type ℓ} {P : A → Type κ} {Q : A → Type μ} where
  pub All-map : ((a : A) → P a → Q a) → (xs : List A) → All P xs → All Q xs
  All-map f [] h = tt
  All-map f (x ∷ xs) h = (f x h.0, All-map f xs h.1)

-- Every element satisfies `P`, by index.
abbrev pub Each {ℓ κ} : {A : Type ℓ} → (A → Type κ) → List A → Type (ℓ ⊔ κ)
Each {A = A} P xs = (m : ℕ) (a : A) → get_elem? xs m ≡ some a → P a

module _ {ℓ κ} {A : Type ℓ} (P : A → Type κ) where
  pub Each-cons : (x : A) (xs : List A) → P x → Each P xs → Each P (x ∷ xs)
  Each-cons x xs p h zero a e = subst P (the_head e) p
    where
      the_head : some x ≡ some a → x ≡ a
      the_head e = cc
  Each-cons x xs p h (suc m) a e = h m a e

  pub Each-nil : Each P []
  Each-nil m a e = cc

-- An element of a list with one more at its end is one of the list or that one.
module _ {ℓ} {A : Type ℓ} where
  pub get_elem?-snoc :
      (xs : List A) (x : A) (i : ℕ) (a : A)
      → get_elem? (xs ++ x ∷ []) i ≡ some a
      → (get_elem? xs i ≡ some a) ⊎ ((i ≡ length xs) × (x ≡ a))
  get_elem?-snoc [] x zero a e = inr (refl, the_head e)
    where
      the_head : some x ≡ some a → x ≡ a
      the_head e = cc
  get_elem?-snoc [] x (suc i) a e = cc
  get_elem?-snoc (y ∷ xs) x zero a e = inl e
  get_elem?-snoc (y ∷ xs) x (suc i) a e = elim (get_elem?-snoc xs x i a e) [
    | inl q ↦ inl q
    | inr (q, r) ↦ inr (ap suc q, r)
  ]

  pub get_elem?-snoc_old :
      (xs : List A) (x : A) (i : ℕ) (a : A)
      → get_elem? xs i ≡ some a
      → get_elem? (xs ++ x ∷ []) i ≡ some a
  get_elem?-snoc_old [] x i a e = cc
  get_elem?-snoc_old (y ∷ xs) x zero a e = e
  get_elem?-snoc_old (y ∷ xs) x (suc i) a e = get_elem?-snoc_old xs x i a e

  pub get_elem?-snoc_new : (xs : List A) (x : A) → get_elem? (xs ++ x ∷ []) (length xs) ≡ some x
  get_elem?-snoc_new [] x = refl
  get_elem?-snoc_new (y ∷ xs) x = get_elem?-snoc_new xs x

  pub get_elem?-lt : (xs : List A) (i : ℕ) (a : A) → get_elem? xs i ≡ some a → i < length xs
  get_elem?-lt [] i a e = cc
  get_elem?-lt (y ∷ xs) zero a e = omega arith
  get_elem?-lt (y ∷ xs) (suc i) a e = omega (arith, get_elem?-lt xs i a e)

  pub get_elem?-some : (xs : List A) (i : ℕ) → i < length xs → (a : A) × (get_elem? xs i ≡ some a)
  get_elem?-some [] i h = absurd (omega arith)
  get_elem?-some (y ∷ xs) zero h = (y, refl)
  get_elem?-some (y ∷ xs) (suc i) h = get_elem?-some xs i (omega arith)

module _ {ℓ κ} {A : Type ℓ} (P : A → Type κ) where
  pub All_at : (xs : List A) (i : ℕ) (a : A) → All P xs → get_elem? xs i ≡ some a → P a
  All_at [] i a h q = cc
  All_at (x ∷ xs) zero a h q = subst P (the_head q) h.0
    where
      the_head : some x ≡ some a → x ≡ a
      the_head q = cc
  All_at (x ∷ xs) (suc i) a h q = All_at xs i a h.1 q
