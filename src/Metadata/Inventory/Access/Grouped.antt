-- ===== src/Metadata/Inventory/Access/Grouped.antt =====
-- In a sorted inventory the fields of a group stand together, from the lower bound of its first key on.
use sbio.Prelude.{
  ℕ, zero, suc, ◌≤◌, ◌<◌, ◌≡◌, refl, sym, ap, ◌∙◌, Bool, true, false, ◌&&◌, none, some, List, [],
  ◌∷◌, length, get_elem?, replicate, ltb, ◌==◌, arith, inl, inr, Bool-cases, All, ℕ_discrete,
}
use mathlib.Core.Path.{subst}
use mathlib.Core.Option.{some-injective}
use sbio.Metadata.Order.{nat_total, list_lt, Less, NotAfter}
use sbio.Metadata.Keys.{Name, name_total, FieldEntry, field_key_trans, field_key_lt, field_less}
use sbio.Metadata.Names.Laws.{drop}
use sbio.Metadata.Search.{find_first}
use sbio.Metadata.Search.Linear.{lower_bound_lem}
use sbio.Metadata.Sort.Place.{IsChain}
use sbio.Metadata.Inventory.{Inventory}
use sbio.Metadata.Inventory.Access.{scan_group, lookup_in_group_by, start_key}

-- Clear names come first.
name-NotBelow : (n : ℕ) (xs : List ℕ) → n ≤ length xs → list_lt nat_total xs (replicate n 0) ≡ false
unfolding list_lt
name-NotBelow zero [] h = refl
name-NotBelow zero (x ∷ xs) h = refl
name-NotBelow (suc n) [] h = absurd (omega arith)
name-NotBelow (suc n) (x ∷ xs) h = ground (arith, name-NotBelow n xs (omega arith))

keys-NotBelow :
    (size n : ℕ) (ks : List Name)
    → n ≤ length ks
    → All (λ k. size ≤ length {A = ℕ} k) ks
    → list_lt name_total ks (replicate n (replicate size 0)) ≡ false
unfolding list_lt
keys-NotBelow size zero [] h a = refl
keys-NotBelow size zero (k ∷ ks) h a = refl
keys-NotBelow size (suc n) [] h a = absurd (omega arith)
keys-NotBelow size (suc n) (k ∷ ks) h a =
    ground (arith, name-NotBelow size k a.0, keys-NotBelow size n ks (omega arith) a.1)

module _ {ℓ} {A : Type ℓ} where
  find_first-drop :
      (pred : A → Bool) (r : ℕ) (es : List A)
      → ((i : ℕ) (e : A) → i < r → get_elem? es i ≡ some e → pred e ≡ false)
      → find_first pred es ≡ find_first pred (drop r es)
  unfolding find_first
  find_first-drop pred zero es h = refl
  find_first-drop pred (suc r) [] h = refl
  find_first-drop pred (suc r) (e ∷ es) h =
      rw (h 0 e (omega arith) refl) (find_first-drop pred r es (λ i d k. h (suc i) d (omega arith)))

module _ {ℓ κ} {A : Type ℓ} where
  All-drop :
      (P : A → Type κ) (r : ℕ) (es : List A)
      → ((i : ℕ) (e : A) → r ≤ i → get_elem? es i ≡ some e → P e)
      → All P (drop r es)
  All-drop P zero [] h = tt
  All-drop P zero (e ∷ es) h =
      (h 0 e (omega arith) refl, All-drop P zero es (λ i d k. h (suc i) d (omega arith)))
  All-drop P (suc r) [] h = tt
  All-drop P (suc r) (e ∷ es) h = All-drop P r es (λ i d k. h (suc i) d (omega arith))

  All-get_elem? :
      (P : A → Type κ) (es : List A) → All P es → (i : ℕ) (e : A) → get_elem? es i ≡ some e → P e
  All-get_elem? P [] a i e q = cc
  All-get_elem? P (d ∷ es) a zero e q = subst P (some-injective d e q) a.0
  All-get_elem? P (d ∷ es) a (suc i) e q = All-get_elem? P es a.1 i e q

module _ {ℓ} {A : Type ℓ} ⦃o : Less A⦄ where
  IsChain-drop : (r : ℕ) (es : List A) → IsChain es → IsChain (drop r es)
  IsChain-drop zero es c = c
  IsChain-drop (suc r) [] c = tt
  IsChain-drop (suc r) (e ∷ []) c = IsChain-drop r [] tt
  IsChain-drop (suc r) (e ∷ d ∷ es) c = IsChain-drop r (d ∷ es) c.1

module _ {F : Type 0} (size key_count gid : ℕ) where
  -- The names of a key fill their arrays.
  abbrev pub IsFull : FieldEntry F → Type 0
  IsFull e = (key_count ≤ length e.key.keys) × All (λ k. size ≤ length {A = ℕ} k) e.key.keys

  -- Before the bound are the groups with a smaller identifier.
  below_lem :
      (e : FieldEntry F)
      → IsFull e
      → field_key_lt e.key (start_key size key_count gid) ≡ ltb e.key.group_id gid
  unfolding field_key_lt
  below_lem e f = ground (arith, keys-NotBelow size key_count e.key.keys f.0 f.1)

  group_id_rises : (a b : FieldEntry F) → NotAfter a b → a.key.group_id ≤ b.key.group_id
  unfolding field_key_lt
  group_id_rises a b h = ground arith

  module _ (pred : FieldEntry F → Bool) where
    abbrev pub in_group : FieldEntry F → Bool
    in_group e = (e.key.group_id == gid) && pred e

    none_after :
        (e : FieldEntry F) (es : List (FieldEntry F))
        → IsChain (e ∷ es)
        → gid < e.key.group_id
        → find_first in_group es ≡ none
    unfolding find_first
    none_after e [] c h = refl
    none_after e (d ∷ es) c h =
        ground (
          arith,
          none_after d es c.1 (omega (arith, group_id_rises e d c.0)),
          group_id_rises e d c.0,
        )

    scan_group_lem :
        (es : List (FieldEntry F))
        → IsChain es
        → All (λ e. gid ≤ e.key.group_id) es
        → scan_group gid pred es ≡ find_first in_group es
    unfolding scan_group find_first
    scan_group_lem [] c a = refl
    scan_group_lem (e ∷ []) c a = ground arith
    scan_group_lem (e ∷ d ∷ es) c a = elim (ℕ_discrete e.key.group_id gid) [
      | yes p ↦ ground (arith, scan_group_lem (d ∷ es) c.1 a.1)
      | no p ↦ ground (arith, none_after e (d ∷ es) c (omega (arith, a.0)))
    ]

    -- In an inventory whose fields are sorted and whose names fill their arrays, the search in a group
    -- finds the first field of the group that passes, in the order of the inventory.
    pub lookup_in_group_by_lem :
        (inv : Inventory F)
        → IsChain inv.fields
        → All IsFull inv.fields
        → lookup_in_group_by size key_count gid pred inv ≡ some (find_first in_group inv.fields)
    unfolding lookup_in_group_by
    lookup_in_group_by_lem inv c f =
        let start = start_key size key_count gid in
        let below = λ (e : FieldEntry F). field_key_lt e.key start in
        let (r, q, before, after) =
          lower_bound_lem below (λ e. false) (λ a b h t. down a b h t) (λ a b h t. cc) inv.fields
            c in
        rw (q, lookup_in_group_by)
          (ap some (
            scan_group_lem (drop r inv.fields) (IsChain-drop r inv.fields c) (
              All-drop (λ e. gid ≤ e.key.group_id) r inv.fields
                (λ i e h p.
                  ground
                    (arith, below_lem e (All-get_elem? IsFull inv.fields f i e p), after i e h p)))
            ∙ sym (
                find_first-drop in_group r inv.fields (λ i e h p.
                  ground (
                    arith,
                    below_lem e (All-get_elem? IsFull inv.fields f i e p),
                    before i e h p,
                  )))))
      where
        down :
            (a b : FieldEntry F)
            → NotAfter a b
            → field_key_lt b.key (start_key size key_count gid) ≡ true
            → field_key_lt a.key (start_key size key_count gid) ≡ true
        down a b h t = elim (Bool-cases (field_key_lt a.key (start_key size key_count gid))) [
          | inl e ↦ e
          | inr e ↦ cc (field_key_trans (start_key size key_count gid) a.key b.key e h, t)
        ]
