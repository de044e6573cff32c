-- ===== src/Metadata/Order.antt =====
-- What the `operator<` of an entry or key has to satisfy for the sort and the search, and the orders
-- that compare one part after another.
use sbio.Prelude.{
  ℕ, ◌≡◌, ◌↔◌, refl, Bool, true, false, List, [], ◌∷◌, ◌&&◌, not, arith, ltb, ◌==◌, ==_iff,
  if◌then◌else◌, inl, inr, Bool-cases,
}

-- A strict weak order, through its negation.
pub record Less {ℓ} (A : Type ℓ) : Type ℓ where
  pub lt : A → A → Bool
  pub asym : (a b : A) → lt a b ≡ true → lt b a ≡ false
  pub trans : (a b c : A) → lt b a ≡ false → lt c b ≡ false → lt c a ≡ false

-- `a` does not come after `b`.
abbrev pub NotAfter {ℓ} : {A : Type ℓ} ⦃o : Less A⦄ → A → A → Type 0
NotAfter ⦃o⦄ a b = o.lt b a ≡ false

-- A strict total order with its equality test.
pub record Total {ℓ} (A : Type ℓ) : Type ℓ where
  pub lt : A → A → Bool
  pub eq : A → A → Bool
  pub eq_iff : (a b : A) → (eq a b ≡ true) ↔ (a ≡ b)
  pub asym : (a b : A) → lt a b ≡ true → lt b a ≡ false
  pub rises : (a b c : A) → lt a b ≡ true → lt b c ≡ true → lt a c ≡ true
  pub total : (a b : A) → lt a b ≡ false → lt b a ≡ false → a ≡ b

pub Total-trans {ℓ} :
    {A : Type ℓ} (t : Total A) (a b c : A) → t.lt b a ≡ false → t.lt c b ≡ false → t.lt c a ≡ false
Total-trans t a b c h k = elim (Bool-cases (t.lt c a)) [
  | inr e ↦ e
  | inl e ↦ elim (Bool-cases (t.lt a b)) [
    | inl f ↦ cc (t.rises c a b e f)
    | inr f ↦ cc (t.total a b f h)
  ]
]

abbrev pub Total-Less {ℓ} : {A : Type ℓ} → Total A → Less A
Total-Less t = record { lt = t.lt; asym = t.asym; trans = Total-trans t }

-- Comparing one part, and the rest only where that part is the same.
module _ {ℓ} {A : Type ℓ} (t : Total A) where
  abbrev pub first_then : A → A → Bool → Bool
  first_then a b rest = if not (t.eq a b) then t.lt a b else rest

  pub first_then_asym :
      (a b : A) (r s : Bool)
      → (r ≡ true → s ≡ false)
      → first_then a b r ≡ true
      → first_then b a s ≡ false
  first_then_asym a b r s f h = ground (arith, t.eq_iff a b, t.eq_iff b a, t.asym a b)

  pub first_then_trans :
      (a b c : A) (r s q : Bool)
      → (r ≡ false → s ≡ false → q ≡ false)
      → first_then b a r ≡ false
      → first_then c b s ≡ false
      → first_then c a q ≡ false
  first_then_trans a b c r s q f h k = ground (
    arith,
    t.eq_iff b a,
    t.eq_iff c b,
    t.eq_iff c a,
    Total-trans t a b c,
    t.total b a,
    t.total c b,
    t.asym b a,
    t.asym c b,
    t.asym c a,
  )

module _ {ℓ} {A : Type ℓ} (t : Total A) where
  pub first_then_same :
      (a b : A) (r s : Bool)
      → first_then t a b r ≡ false
      → first_then t b a s ≡ false
      → (a ≡ b) × (r ≡ false) × (s ≡ false)
  first_then_same a b r s h k = ground (arith, t.eq_iff a b, t.eq_iff b a, t.total a b)

pub ltb_asym : (a b : ℕ) → ltb a b ≡ true → ltb b a ≡ false
ltb_asym a b h = ground arith

pub ltb_rises : (a b c : ℕ) → ltb a b ≡ true → ltb b c ≡ true → ltb a c ≡ true
ltb_rises a b c h k = ground arith

pub ltb_total : (a b : ℕ) → ltb a b ≡ false → ltb b a ≡ false → a ≡ b
ltb_total a b h k = ground arith

abbrev pub nat_total : Total ℕ
nat_total = record {
  lt = ltb;
  eq = ◌==◌;
  eq_iff = ==_iff;
  asym = ltb_asym;
  rises = ltb_rises;
  total = ltb_total;
}

-- Lists, by the first entry that differs; the arrays that are compared have the same length.
module _ {ℓ} {A : Type ℓ} (t : Total A) where
  unfoldable pub list_lt : List A → List A → Bool
  list_lt [] [] = false
  list_lt [] (y ∷ ys) = true
  list_lt (x ∷ xs) [] = false
  list_lt (x ∷ xs) (y ∷ ys) = if t.eq x y then list_lt xs ys else t.lt x y

  unfoldable pub list_eq : List A → List A → Bool
  list_eq [] [] = true
  list_eq [] (y ∷ ys) = false
  list_eq (x ∷ xs) [] = false
  list_eq (x ∷ xs) (y ∷ ys) = t.eq x y && list_eq xs ys

  pub list_eq_iff : (xs ys : List A) → (list_eq xs ys ≡ true) ↔ (xs ≡ ys)
  unfolding list_eq
  list_eq_iff [] [] = ((λ h. refl), λ h. refl)
  list_eq_iff [] (y ∷ ys) = ((λ h. cc), λ h. cc)
  list_eq_iff (x ∷ xs) [] = ((λ h. cc), λ h. cc)
  list_eq_iff (x ∷ xs) (y ∷ ys) = (
    (λ h. ground (arith, t.eq_iff x y, list_eq_iff xs ys)),
    λ h. ground (arith, t.eq_iff x y, list_eq_iff xs ys),
  )

  pub list_lt_asym : (xs ys : List A) → list_lt xs ys ≡ true → list_lt ys xs ≡ false
  unfolding list_lt
  list_lt_asym [] [] h = cc
  list_lt_asym [] (y ∷ ys) h = refl
  list_lt_asym (x ∷ xs) [] h = cc
  list_lt_asym (x ∷ xs) (y ∷ ys) h =
      ground (arith, t.eq_iff x y, t.eq_iff y x, t.asym x y, list_lt_asym xs ys)

  pub list_lt_rises :
      (xs ys zs : List A) → list_lt xs ys ≡ true → list_lt ys zs ≡ true → list_lt xs zs ≡ true
  unfolding list_lt
  list_lt_rises [] [] zs h k = cc
  list_lt_rises [] (y ∷ ys) [] h k = cc
  list_lt_rises [] (y ∷ ys) (z ∷ zs) h k = refl
  list_lt_rises (x ∷ xs) [] zs h k = cc
  list_lt_rises (x ∷ xs) (y ∷ ys) [] h k = cc
  list_lt_rises (x ∷ xs) (y ∷ ys) (z ∷ zs) h k = ground (
    arith,
    t.eq_iff x y,
    t.eq_iff y z,
    t.eq_iff x z,
    t.rises x y z,
    t.asym x y,
    list_lt_rises xs ys zs,
  )

  pub list_lt_total : (xs ys : List A) → list_lt xs ys ≡ false → list_lt ys xs ≡ false → xs ≡ ys
  unfolding list_lt
  list_lt_total [] [] h k = refl
  list_lt_total [] (y ∷ ys) h k = cc
  list_lt_total (x ∷ xs) [] h k = cc
  list_lt_total (x ∷ xs) (y ∷ ys) h k =
      ground (arith, t.eq_iff x y, t.eq_iff y x, t.total x y, list_lt_total xs ys)

  abbrev pub list_total : Total (List A)
  list_total = record {
    lt = list_lt;
    eq = list_eq;
    eq_iff = list_eq_iff;
    asym = list_lt_asym;
    rises = list_lt_rises;
    total = list_lt_total;
  }
