-- ===== src/Metadata/Inventory/Access.antt =====
-- The queries of the inventory that go through the entries, by a predicate or by position.
pub mod Grouped
use sbio.Prelude.{
  ℕ, zero, suc, ◌+◌, ◌%◌, ◌^◌, Bool, true, false, not, ◌&&◌, ◌||◌, Option, none, some, List, [],
  ◌∷◌, length, get_elem?, replicate, leb, ◌==◌, if◌then◌else◌,
}
use sbio.Metadata.Keys.{Name, GroupEntry, FieldKey, FieldEntry, field_key_lt}
use sbio.Metadata.Names.{eq_str}
use sbio.Metadata.Names.Laws.{drop}
use sbio.Metadata.Search.{hd_lower_bound, find_first}
use sbio.Metadata.Inventory.{Inventory}

-- The loop of `get_epoch`.
pub epoch_of : ℕ → List GroupEntry → ℕ
epoch_of group_id [] = 0
epoch_of group_id (e ∷ es) = if e.group_id == group_id then e.epoch else epoch_of group_id es

-- The C string `"*"`.
abbrev pub is_wildcard : List ℕ → Bool
is_wildcard [] = false
is_wildcard (c ∷ []) = c == 42
is_wildcard (c ∷ d ∷ cs) = false

-- The first key that the group can have: `key_count` clear names of `size` characters.
abbrev pub start_key : ℕ → ℕ → ℕ → FieldKey
start_key size key_count gid = record {
  group_id = gid;
  keys = replicate key_count (replicate size 0);
}

module _ {F : Type 0} where
  pub lookup_by : (FieldEntry F → Bool) → Inventory F → Option (FieldEntry F)
  lookup_by pred inv = find_first pred inv.fields

  -- The loop of `lookup_in_group_by` on the entries that are left.
  pub scan_group : ℕ → (FieldEntry F → Bool) → List (FieldEntry F) → Option (FieldEntry F)
  scan_group gid pred [] = none
  scan_group gid pred (e ∷ es) =
      if e.key.group_id == gid then (if pred e then some e else scan_group gid pred es) else none

  -- The outer `none` is that of the search.
  pub lookup_in_group_by :
      ℕ → ℕ → ℕ → (FieldEntry F → Bool) → Inventory F → Option (Option (FieldEntry F))
  lookup_in_group_by size key_count gid pred inv =
      elim (hd_lower_bound (λ (e : FieldEntry F). field_key_lt e.key (start_key size key_count gid))
        inv.fields) [ none ↦ none | some i ↦ some (scan_group gid pred (drop i inv.fields)) ]

  -- The metadata of the entry that was found.
  pub meta_of : Option (FieldEntry F) → Option F
  meta_of none = none
  meta_of (some e) = some e.descriptor.format_meta

  pub lookup_meta_by : (FieldEntry F → Bool) → Inventory F → Option F
  lookup_meta_by pred inv = meta_of (lookup_by pred inv)

  pub lookup_meta_in_group_by : ℕ → ℕ → ℕ → (FieldEntry F → Bool) → Inventory F → Option (Option F)
  lookup_meta_in_group_by size key_count gid pred inv =
      elim (lookup_in_group_by size key_count gid pred inv) [
        | none ↦ none
        | some e ↦ some (meta_of e)
      ]

  pub get_epoch : ℕ → Inventory F → ℕ
  get_epoch group_id inv = epoch_of group_id inv.groups

  unfoldable pub num_entries : Inventory F → ℕ
  num_entries inv = length inv.groups

  -- For a format without a rule of its own.
  unfoldable pub entry_matches : ℕ → List ℕ → ℕ → Inventory F → Bool
  entry_matches entry_no name_query ptn inv = elim (get_elem? inv.groups entry_no) [
    | none ↦ false
    | some e ↦
        if not (e.access_ptn == ptn % 2 ^ 8)
        then false
        else (is_wildcard name_query || eq_str e.key.group_name name_query)
  ]

  -- The group type and segment; a clear name of `size` characters where there is no entry.
  unfoldable pub metadata_for : ℕ → ℕ → Inventory F → Name × ℕ
  metadata_for size entry_no inv = elim (get_elem? inv.groups entry_no) [
    | none ↦ (replicate size 0, 0)
    | some e ↦ (e.key.group_type, e.key.segment)
  ]
