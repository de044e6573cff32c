-- ===== src/Metadata/Inventory.antt =====
-- `MetadataInventory` (core/metadata.hh): registration, finalization and lookup.
pub mod Lookup
pub mod Register
pub mod Access
pub mod Truncated
mod Tests
use sbio.Prelude.{
  ℕ, zero, suc, ◌+◌, ◌-◌, ◌%◌, ◌^◌, Bool, true, false, not, ◌&&◌, Option, none, some, List, [], ◌∷◌,
  ◌++◌, length, get_elem?, replicate, ltb, leb, ◌==◌, if◌then◌else◌,
}
use sbio.Metadata.Keys.{
  Name, GroupKey, GroupEntry, FieldKey, FieldDescriptor, FieldEntry, group_key_lt, field_key_lt,
  group_less, field_less,
}
use sbio.Metadata.Names.{from_str, eq_str}
use sbio.Metadata.Search.{search, hd_lower_bound, find_first}
use sbio.Metadata.Sort.{hd_sort}

-- `F` is the format's metadata of a field.
pub record Inventory (F : Type 0) : Type 0 where
  pub revision : ℕ
  pub groups : List GroupEntry
  pub fields : List (FieldEntry F)

-- The parts of a request that the lookup reads.
pub record DataRequest : Type 0 where
  pub group_name : Name
  pub group_type : Name
  pub segment_number : ℕ
  pub field_values : List Name

abbrev pub uint32 : ℕ → ℕ
uint32 n = n % 2 ^ 32

-- The loop of `register_group` that looks for the segment.
pub find_group : ℕ → List ℕ → List ℕ → List GroupEntry → Option ℕ
find_group segment name type [] = none
find_group segment name type (e ∷ es) =
    if (e.key.segment == segment) && eq_str e.key.group_name name && eq_str e.key.group_type type
    then some e.group_id
    else find_group segment name type es

pub store_keys : ℕ → List (List ℕ) → List Name
store_keys size [] = []
store_keys size (s ∷ ss) = from_str size s ∷ store_keys size ss

pub new_group : ℕ → ℕ → List ℕ → List ℕ → ℕ → ℕ → List (List ℕ) → GroupEntry
new_group size id name type segment ptn grp_meta = record {
  key = record {
    group_name = from_str size name;
    group_type = from_str size type;
    segment = segment;
    extra_metadata = store_keys size grp_meta;
  };
  group_id = id;
  access_ptn = ptn % 2 ^ 8;
  epoch = 0;
}

-- The array of `max_ndim` dimensions, of which `rank` are copied when a shape is given.
pub copy_shape : ℕ → ℕ → Option (List ℕ) → List ℕ
copy_shape max_ndim rank none = replicate max_ndim 0
copy_shape max_ndim rank (some shape) = overwrite rank shape (replicate max_ndim 0)
  where
    overwrite : ℕ → List ℕ → List ℕ → List ℕ
    overwrite zero ds olds = olds
    overwrite (suc n) [] olds = olds
    overwrite (suc n) (d ∷ ds) [] = []
    overwrite (suc n) (d ∷ ds) (x ∷ xs) = d ∷ overwrite n ds xs

abbrev pub request_key : DataRequest → ℕ → GroupKey
request_key req segment = record {
  group_name = req.group_name;
  group_type = req.group_type;
  segment = segment;
  extra_metadata = [];
}

module _ {F : Type 0} where
  -- `touch` with `next_inventory_revision`: the counter that all inventories share comes first.
  pub touch : ℕ → Inventory F → ℕ × Inventory F
  touch next inv =
      ((next + 1) % 2 ^ 64, record { revision = next; groups = inv.groups; fields = inv.fields })

  -- `size` is the capacity of a `FixedName`; the result is the identifier of the group, with the
  -- shared counter and the inventory.
  pub register_group :
      ℕ → List ℕ → List ℕ → ℕ → ℕ → List (List ℕ) → ℕ → Inventory F → ℕ × ℕ × Inventory F
  register_group size name type segment ptn grp_meta next inv =
      elim (find_group segment name type inv.groups) [
        | some id ↦ (id, next, inv)
        | none ↦
            let id = uint32 (length inv.groups) in
            let (after, grown) = touch next (record {
              revision = inv.revision;
              groups = inv.groups ++ new_group size id name type segment ptn grp_meta ∷ [];
              fields = inv.fields;
            }) in
            (id, after, grown)
      ]

  pub register_group_alias :
      ℕ → List ℕ → List ℕ → ℕ → ℕ → List (List ℕ) → ℕ → Inventory F → ℕ × ℕ × Inventory F
  register_group_alias = register_group

  pub add_field :
      ℕ
      → ℕ
      → ℕ
      → ℕ
      → ℕ
      → ℕ
      → Option (List ℕ)
      → F
      → List (List ℕ)
      → ℕ
      → Inventory F
      → ℕ × Inventory F
  add_field size max_ndim group_id offset dtype rank shape fmt_meta key_values next inv =
      touch next (record {
        revision = inv.revision;
        groups = inv.groups;
        fields =
            inv.fields
            ++ record {
              key = record { group_id = group_id; keys = store_keys size key_values };
              descriptor = record {
                payload_offset = offset;
                dtype = dtype;
                rank = rank;
                shape = copy_shape max_ndim rank shape;
                field_version = 0;
                is_config = false;
                format_meta = fmt_meta;
              };
            }
              ∷ [];
      })

  pub finalize : ℕ → Inventory F → ℕ × Inventory F
  finalize next inv =
      touch next (record {
        revision = inv.revision;
        groups = hd_sort inv.groups;
        fields = hd_sort inv.fields;
      })

  pub lookup_group : GroupKey → Inventory F → Option (Option GroupEntry)
  lookup_group gkey inv =
      search (λ (e : GroupEntry). group_key_lt e.key gkey)
        (λ (e : GroupEntry). group_key_lt gkey e.key) inv.groups

  pub lookup_field : FieldKey → Inventory F → Option (Option (FieldEntry F))
  lookup_field fkey inv =
      search (λ (e : FieldEntry F). field_key_lt e.key fkey)
        (λ (e : FieldEntry F). field_key_lt fkey e.key) inv.fields

  -- The field of the group that was found.
  pub lookup_in : DataRequest → Inventory F → GroupEntry → Option (Option (FieldEntry F))
  lookup_in req inv g = lookup_field (record { group_id = g.group_id; keys = req.field_values }) inv

  -- The outer `none` is that of a search without fuel, which does not happen.
  pub lookup : DataRequest → Inventory F → Option (Option (FieldEntry F))
  lookup req inv = elim (lookup_group (request_key req (uint32 req.segment_number)) inv) [
    | none ↦ none
    | some (some g) ↦ lookup_in req inv g
    | some none ↦ elim (lookup_group (request_key req 0) inv) [
      | none ↦ none
      | some none ↦ some none
      | some (some g) ↦ lookup_in req inv g
    ]
  ]
