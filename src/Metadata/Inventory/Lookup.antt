-- ===== src/Metadata/Inventory/Lookup.antt =====
-- After finalization the binary searches find what a search through the registered entries finds.
use sbio.Prelude.{
  ℕ, ◌≤◌, ◌≡◌, sym, ap, ◌∙◌, Bool, true, Option, none, some, arith, inl, inr, Bool-cases,
  Option-cases,
}
use mathlib.Core.List.Permᴰ
use sbio.Metadata.Order.{NotAfter}
use sbio.Metadata.Keys.{
  GroupKey, GroupEntry, FieldKey, FieldEntry, group_key_lt, field_key_lt, group_less, field_less,
  group_key_trans, field_key_trans, same_group, same_field, group_key_unordered,
  field_key_unordered,
}
use sbio.Metadata.Search.{find_first}
use sbio.Metadata.Search.Linear.{search_lem}
use sbio.Metadata.Search.Unique.{count, find_first-perm, find_first-ext}
use sbio.Metadata.Sort.Place.{IsChain}
use sbio.Metadata.Sort.Laws.{hd_sort_lem}
use sbio.Metadata.Inventory.{
  Inventory, DataRequest, request_key, uint32, lookup_group, lookup_field, lookup_in, lookup,
  finalize, touch,
}

abbrev pub is_group : GroupKey → GroupEntry → Bool
is_group gkey e = same_group e.key gkey

module _ {F : Type 0} where
  abbrev pub is_field : FieldKey → FieldEntry F → Bool
  is_field fkey e = same_field e.key fkey

  -- What a request means: the field with the requested keys in the group with the requested names and
  -- segment, or where there is none in the one with segment 0.
  unfoldable pub field_of : DataRequest → Inventory F → GroupEntry → Option (FieldEntry F)
  field_of req inv g =
      find_first (is_field (record { group_id = g.group_id; keys = req.field_values })) inv.fields

  unfoldable pub spec_lookup : DataRequest → Inventory F → Option (FieldEntry F)
  spec_lookup req inv =
      elim (find_first (is_group (request_key req (uint32 req.segment_number))) inv.groups) [
        | some g ↦ field_of req inv g
        | none ↦ elim (find_first (is_group (request_key req 0)) inv.groups) [
          | none ↦ none
          | some g ↦ field_of req inv g
        ]
      ]

  lookup_group_lem :
      (k : GroupKey) (inv : Inventory F)
      → IsChain inv.groups
      → lookup_group k inv ≡ some (find_first (is_group k) inv.groups)
  unfolding lookup_group
  lookup_group_lem k inv c =
      search_lem (λ (e : GroupEntry). group_key_lt e.key k)
        (λ (e : GroupEntry). group_key_lt k e.key) (λ a b h t. below_down a b h t)
        (λ a b h t. above_up a b h t) inv.groups c
      ∙ ap some (find_first-ext _ (is_group k) (λ e. group_key_unordered e.key k) inv.groups)
    where
      below_down :
          (a b : GroupEntry)
          → NotAfter a b
          → group_key_lt b.key k ≡ true
          → group_key_lt a.key k ≡ true
      below_down a b h t = elim (Bool-cases (group_key_lt a.key k)) [
        | inl e ↦ e
        | inr e ↦ cc (group_key_trans k a.key b.key e h, t)
      ]

      above_up :
          (a b : GroupEntry)
          → NotAfter a b
          → group_key_lt k a.key ≡ true
          → group_key_lt k b.key ≡ true
      above_up a b h t = elim (Bool-cases (group_key_lt k b.key)) [
        | inl e ↦ e
        | inr e ↦ cc (group_key_trans a.key b.key k h e, t)
      ]

  lookup_field_lem :
      (k : FieldKey) (inv : Inventory F)
      → IsChain inv.fields
      → lookup_field k inv ≡ some (find_first (is_field k) inv.fields)
  unfolding lookup_field
  lookup_field_lem k inv c =
      search_lem (λ (e : FieldEntry F). field_key_lt e.key k)
        (λ (e : FieldEntry F). field_key_lt k e.key) (λ a b h t. below_down a b h t)
        (λ a b h t. above_up a b h t) inv.fields c
      ∙ ap some (find_first-ext _ (is_field k) (λ e. field_key_unordered e.key k) inv.fields)
    where
      below_down :
          (a b : FieldEntry F)
          → NotAfter a b
          → field_key_lt b.key k ≡ true
          → field_key_lt a.key k ≡ true
      below_down a b h t = elim (Bool-cases (field_key_lt a.key k)) [
        | inl e ↦ e
        | inr e ↦ cc (field_key_trans k a.key b.key e h, t)
      ]

      above_up :
          (a b : FieldEntry F)
          → NotAfter a b
          → field_key_lt k a.key ≡ true
          → field_key_lt k b.key ≡ true
      above_up a b h t = elim (Bool-cases (field_key_lt k b.key)) [
        | inl e ↦ e
        | inr e ↦ cc (field_key_trans a.key b.key k h e, t)
      ]

  lookup_in_lem :
      (req : DataRequest) (inv : Inventory F)
      → IsChain inv.fields
      → (g : GroupEntry) → lookup_in req inv g ≡ some (field_of req inv g)
  unfolding lookup_in field_of
  lookup_in_lem req inv d g =
      lookup_field_lem (record { group_id = g.group_id; keys = req.field_values }) inv d

  -- On sorted entries the lookup ends, and finds what the request means.
  pub lookup_lem :
      (req : DataRequest) (inv : Inventory F)
      → IsChain inv.groups
      → IsChain inv.fields
      → lookup req inv ≡ some (spec_lookup req inv)
  unfolding lookup spec_lookup
  lookup_lem req inv c d =
      let k = request_key req (uint32 req.segment_number) in
      elim (Option-cases (find_first (is_group k) inv.groups)) [
        | inr (g, e) ↦ ground (arith, e, lookup_group_lem k inv c, lookup_in_lem req inv d g)
        | inl e ↦ elim (Option-cases (find_first (is_group (request_key req 0)) inv.groups)) [
          | inl f ↦
              ground
                (arith, e, f, lookup_group_lem k inv c, lookup_group_lem (request_key req 0) inv c)
          | inr (g, f) ↦ ground (
            arith,
            e,
            f,
            lookup_group_lem k inv c,
            lookup_group_lem (request_key req 0) inv c,
            lookup_in_lem req inv d g,
          )
        ]
      ]

  group_stays :
      (next : ℕ) (inv : Inventory F) (k : GroupKey)
      → count (is_group k) inv.groups ≤ 1
      → find_first (is_group k) (finalize next inv).1.groups ≡ find_first (is_group k) inv.groups
  unfolding finalize touch
  group_stays next inv k u =
      sym (find_first-perm (is_group k) _ _ (Permᴰ.symm (hd_sort_lem inv.groups).1) u)

  field_of-finalize :
      (req : DataRequest) (next : ℕ) (inv : Inventory F) (g : GroupEntry)
      → ((k : FieldKey) → count (is_field k) inv.fields ≤ 1)
      → field_of req (finalize next inv).1 g ≡ field_of req inv g
  unfolding finalize touch field_of
  field_of-finalize req next inv g v =
      let k : FieldKey = record { group_id = g.group_id; keys = req.field_values } in
      sym (find_first-perm (is_field k) _ _ (Permᴰ.symm (hd_sort_lem inv.fields).1) (v k))

  spec_lookup-finalize :
      (req : DataRequest) (next : ℕ) (inv : Inventory F)
      → ((k : GroupKey) → count (is_group k) inv.groups ≤ 1)
      → ((k : FieldKey) → count (is_field k) inv.fields ≤ 1)
      → spec_lookup req (finalize next inv).1 ≡ spec_lookup req inv
  unfolding spec_lookup
  spec_lookup-finalize req next inv u v =
      let k = request_key req (uint32 req.segment_number) in
      let k0 = request_key req 0 in
      elim (Option-cases (find_first (is_group k) inv.groups)) [
        | inr (g, e) ↦
            ground (arith, e, group_stays next inv k (u k), field_of-finalize req next inv g v)
        | inl e ↦ elim (Option-cases (find_first (is_group k0) inv.groups)) [
          | inl f ↦
              ground (arith, e, f, group_stays next inv k (u k), group_stays next inv k0 (u k0))
          | inr (g, f) ↦ ground (
            arith,
            e,
            f,
            group_stays next inv k (u k),
            group_stays next inv k0 (u k0),
            field_of-finalize req next inv g v,
          )
        ]
      ]

  -- In an inventory where no two groups and no two fields have the same key, finalization does not
  -- change what a request means, and the lookup after it finds that.
  pub lookup-finalize :
      (req : DataRequest) (next : ℕ) (inv : Inventory F)
      → ((k : GroupKey) → count (is_group k) inv.groups ≤ 1)
      → ((k : FieldKey) → count (is_field k) inv.fields ≤ 1)
      → lookup req (finalize next inv).1 ≡ some (spec_lookup req inv)
  unfolding finalize touch
  lookup-finalize req next inv u v =
      lookup_lem req (finalize next inv).1 (hd_sort_lem inv.groups).0 (hd_sort_lem inv.fields).0
      ∙ ap some (spec_lookup-finalize req next inv u v)
