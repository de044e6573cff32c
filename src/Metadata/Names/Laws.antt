-- ===== src/Metadata/Names/Laws.antt =====
-- What is stored in a `FixedName` is read back, as long as it fits and the array was clear.
use sbio.Prelude.{
  ℕ, zero, suc, ◌+◌, ◌-◌, ◌≤◌, ◌<◌, ◌≡◌, ◌≢◌, ◌↔◌, refl, ap, ◌∙◌, true, false, List, [], ◌∷◌, ◌++◌,
  length, length-replicate, replicate, All, arith,
}
use native.Mathlib.Numerals.{unary_clauses}
use sbio.Metadata.Names.{write_chars, assign, from_str, eq_str, c_str}

abbrev pub drop {ℓ} : {A : Type ℓ} → ℕ → List A → List A
drop zero xs = xs
drop (suc n) [] = []
drop (suc n) (x ∷ xs) = drop n xs

abbrev pub IsText : List ℕ → Type 0
IsText = All (λ c. c ≢ 0)

pub length-write_chars :
    (n : ℕ) (str storage : List ℕ) → length (write_chars n str storage) ≡ length storage
unfolding write_chars
length-write_chars zero str storage = refl
length-write_chars (suc n) [] storage = refl
length-write_chars (suc n) (c ∷ cs) [] = refl
length-write_chars (suc n) (c ∷ cs) (x ∷ xs) = ground (arith, length-write_chars n cs xs)

-- A text that fits is written in front of what stood there.
write_chars_lem :
    (n : ℕ) (str storage : List ℕ)
    → IsText str
    → length str ≤ n
    → length str ≤ length storage
    → write_chars n str storage ≡ str ++ drop (length str) storage
unfolding write_chars
write_chars_lem zero [] storage t h k = refl
write_chars_lem zero (c ∷ cs) storage t h k = absurd (omega arith)
write_chars_lem (suc n) [] storage t h k = refl
write_chars_lem (suc n) (c ∷ cs) [] t h k = absurd (omega arith)
write_chars_lem (suc n) (c ∷ cs) (x ∷ xs) t h k =
    ground (arith, t.0, write_chars_lem n cs xs t.1 (omega arith) (omega arith))

c_str_text : (str rest : List ℕ) → IsText str → c_str (str ++ rest) ≡ str ++ c_str rest
unfolding c_str
c_str_text [] rest t = refl
c_str_text (c ∷ cs) rest t = ground (arith, t.0, c_str_text cs rest t.1)

c_str-zeros : (n : ℕ) → c_str (replicate n 0) ≡ []
unfolding c_str
c_str-zeros zero = refl
c_str-zeros (suc n) = refl

drop-replicate : (k n : ℕ) → drop {A = ℕ} k (replicate n 0) ≡ replicate (n - k) 0
drop-replicate zero n = ground arith
drop-replicate (suc k) zero = ground arith
drop-replicate (suc k) (suc n) = simp unary_clauses (drop-replicate k n)

drop-IsText : (k : ℕ) (str : List ℕ) → IsText str → IsText (drop k str)
drop-IsText zero str t = t
drop-IsText (suc k) [] t = tt
drop-IsText (suc k) (c ∷ cs) t = drop-IsText k cs t.1

drop-append : (k : ℕ) (xs ys : List ℕ) → k ≤ length xs → drop k (xs ++ ys) ≡ drop k xs ++ ys
drop-append zero xs ys h = refl
drop-append (suc k) [] ys h = absurd (omega arith)
drop-append (suc k) (x ∷ xs) ys h = drop-append k xs ys (omega arith)

pub from_str_lem :
    (size : ℕ) (str : List ℕ)
    → IsText str
    → length str < size
    → from_str size str ≡ str ++ replicate (size - length str) 0
unfolding from_str
from_str_lem size str t h =
    write_chars_lem (size - 1) str (replicate size 0) t (omega arith)
      (omega (arith, length-replicate {A = ℕ} size 0))
    ∙ ap (λ r. str ++ r) (drop-replicate (length str) size)

append_nil : (xs : List ℕ) → xs ++ [] ≡ xs
append_nil [] = refl
append_nil (x ∷ xs) = ap (λ r. x ∷ r) (append_nil xs)

-- A text that leaves room for the terminator is read back as it was stored.
pub c_str-from_str :
    (size : ℕ) (str : List ℕ) → IsText str → length str < size → c_str (from_str size str) ≡ str
c_str-from_str size str t h =
    ap c_str (from_str_lem size str t h)
    ∙ c_str_text str (replicate (size - length str) 0) t
    ∙ ap (λ r. str ++ r) (c_str-zeros (size - length str))
    ∙ append_nil str

-- Assigning a text over one that fits and is no shorter leaves the end of the old one behind it.
pub c_str-assign :
    (size : ℕ) (old str : List ℕ)
    → IsText old
    → IsText str
    → length old < size
    → length str ≤ length old
    → c_str (assign size (from_str size old) str) ≡ str ++ drop (length str) old
unfolding assign
c_str-assign size old str u t h k =
    ap (λ s. c_str (write_chars (size - 1) str s)) (from_str_lem size old u h)
    ∙ ap c_str (
        write_chars_lem (size - 1) str _ t (omega arith)
          (omega (arith, length_append old (replicate (size - length old) 0))))
    ∙ c_str_text str _ t
    ∙ ap (λ r. str ++ c_str r) (drop-append (length str) old (replicate (size - length old) 0) k)
    ∙ ap (λ r. str ++ r)
        (c_str_text (drop (length str) old) _ (drop-IsText (length str) old u)
          ∙ ap (λ r. drop (length str) old ++ r) (c_str-zeros (size - length old))
          ∙ append_nil _)
  where
    length_append : (xs ys : List ℕ) → length (xs ++ ys) ≡ length xs + length ys
    length_append [] ys = omega arith
    length_append (x ∷ xs) ys = omega (arith, length_append xs ys)

eq_str_lem :
    (m : ℕ) (t s : List ℕ)
    → IsText t
    → IsText s
    → (eq_str (t ++ replicate (suc m) 0) s ≡ true) ↔ (t ≡ s)
unfolding eq_str
eq_str_lem m [] [] t s = ((λ h. refl), λ h. refl)
eq_str_lem m [] (c ∷ cs) t s = ((λ h. ground (arith, s.0)), λ h. cc)
eq_str_lem m (x ∷ xs) [] t s = ((λ h. ground (arith, t.0)), λ h. cc)
eq_str_lem m (x ∷ xs) (c ∷ cs) t s = (
  (λ h. ground (arith, t.0, eq_str_lem m xs cs t.1 s.1)),
  λ h. ground (arith, t.0, eq_str_lem m xs cs t.1 s.1),
)

-- Comparing with a C string compares with what was stored.
pub eq_str-from_str :
    (size : ℕ) (str other : List ℕ)
    → IsText str
    → IsText other
    → length str < size
    → (eq_str (from_str size str) other ≡ true) ↔ (str ≡ other)
eq_str-from_str (suc n) str other t s h =
    rw (from_str_lem (suc n) str t h, pad) (eq_str_lem (n - length str) str other t s)
  where
    pad : suc n - length str ≡ suc (n - length str)
    pad = omega arith
eq_str-from_str zero str other t s h = absurd (omega arith)

-- A text that does not fit is not recognized after it was stored.
eq_str-cut :
    (n : ℕ) (str : List ℕ)
    → IsText str
    → n < length str
    → eq_str (write_chars n str (replicate (suc n) 0)) str ≡ false
unfolding write_chars eq_str
eq_str-cut zero [] t h = absurd (omega arith)
eq_str-cut zero (c ∷ cs) t h = ground (arith, t.0)
eq_str-cut (suc n) [] t h = absurd (omega arith)
eq_str-cut (suc n) (c ∷ cs) t h = ground (arith, t.0, eq_str-cut n cs t.1 (omega arith))

pub eq_str-from_str_cut :
    (n : ℕ) (str : List ℕ)
    → IsText str
    → suc n ≤ length str
    → eq_str (from_str (suc n) str) str ≡ false
unfolding from_str
eq_str-from_str_cut n str t h = rw pred (eq_str-cut n str t (omega arith))
  where
    pred : suc n - 1 ≡ n
    pred = omega arith
