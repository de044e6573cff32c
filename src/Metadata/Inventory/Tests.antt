-- ===== src/Metadata/Inventory/Tests.antt =====
-- An inventory of two groups and a field, registered in the order that is not that of the keys.
use sbio.Prelude.{ℕ, ◌≤◌, ◌≡◌, refl, false, some, List, [], ◌∷◌, length, arith}
use sbio.Metadata.Keys.{
  GroupKey, FieldKey, FieldEntry, same_field, same_group, group_less, field_less,
}
use sbio.Metadata.Order.{list_eq}
use sbio.Metadata.Names.{write_chars, from_str, assign, c_str, eq_str}
use sbio.Metadata.Names.Laws.{c_str-assign}
use sbio.Metadata.Search.{find_first}
use sbio.Metadata.Search.Unique.{count}
use sbio.Metadata.Inventory.{
  Inventory, DataRequest, register_group, add_field, finalize, lookup, find_group, new_group, touch,
  store_keys, copy_shape,
}
use sbio.Metadata.Inventory.Lookup.{is_group, is_field, lookup-finalize, spec_lookup, field_of}
use sbio.Metadata.Inventory.Register.{IsDistinct, register_group-IsDistinct}
use sbio.Metadata.Inventory.Truncated.{register_group_cut}

abbrev no_groups : Inventory ℕ
no_groups = record { revision = 0; groups = []; fields = [] }

no_groups-IsDistinct : IsDistinct 4 no_groups
unfolding count
no_groups-IsDistinct = record { named = tt; once = λ k. omega arith }

-- The names `b` and `a`, and the type `t`.
abbrev name_b : List ℕ
name_b = 98 ∷ []

abbrev name_a : List ℕ
name_a = 97 ∷ []

abbrev type_t : List ℕ
type_t = 116 ∷ []

abbrev one_group : Inventory ℕ
one_group = (register_group 4 name_b type_t 0 0 [] 1 no_groups).2

abbrev two_groups : Inventory ℕ
two_groups = (register_group 4 name_a type_t 1 0 [] 2 one_group).2

one_group-IsDistinct : IsDistinct 4 one_group
one_group-IsDistinct =
    register_group-IsDistinct 4 0 name_b type_t 0 [] 1 no_groups no_groups-IsDistinct (ground arith)
      (ground arith)

two_groups-IsDistinct : IsDistinct 4 two_groups
two_groups-IsDistinct =
    register_group-IsDistinct 4 1 name_a type_t 0 [] 2 one_group one_group-IsDistinct (ground arith)
      (ground arith)

register_group-IsDistinct_example : IsDistinct 4 two_groups
register_group-IsDistinct_example =
    register_group-IsDistinct 4 1 name_a type_t 0 [] 2 one_group one_group-IsDistinct (ground arith)
      (ground arith)

abbrev with_field : Inventory ℕ
with_field = (add_field 4 2 1 16 0 1 (some (3 ∷ [])) 7 (name_a ∷ []) 3 two_groups).1

abbrev request : DataRequest
request = record {
  group_name = 97 ∷ 0 ∷ 0 ∷ 0 ∷ [];
  group_type = 116 ∷ 0 ∷ 0 ∷ 0 ∷ [];
  segment_number = 1;
  field_values = (97 ∷ 0 ∷ 0 ∷ 0 ∷ []) ∷ [];
}

abbrev the_field : FieldEntry ℕ
the_field = record {
  key = record { group_id = 1; keys = (97 ∷ 0 ∷ 0 ∷ 0 ∷ []) ∷ [] };
  descriptor = record {
    payload_offset = 16;
    dtype = 0;
    rank = 1;
    shape = 3 ∷ 0 ∷ [];
    field_version = 0;
    is_config = false;
    format_meta = 7;
  };
}

field_once : (k : FieldKey) → count (is_field k) with_field.fields ≤ 1
unfolding add_field touch register_group find_group new_group from_str eq_str count
field_once k = ground arith

groups_once : (k : GroupKey) → count (is_group k) with_field.groups ≤ 1
unfolding add_field touch
groups_once k = two_groups-IsDistinct.once k

lookup-finalize_example : lookup request (finalize 4 with_field).1 ≡ some (some the_field)
unfolding spec_lookup field_of find_first add_field touch register_group find_group new_group
    from_str eq_str store_keys copy_shape same_field same_group list_eq write_chars
lookup-finalize_example = lookup-finalize request 4 with_field groups_once field_once

register_group_cut_example :
    length
      (register_group 4
        (97 ∷ 98 ∷ 99 ∷ 100 ∷ [])
        type_t
        0
        0
        []
        2
        (register_group 4 (97 ∷ 98 ∷ 99 ∷ 100 ∷ []) type_t 0 0 [] 1 no_groups).2).2.groups
    ≡ 2
unfolding register_group find_group touch
register_group_cut_example =
    register_group_cut 3 0 (97 ∷ 98 ∷ 99 ∷ 100 ∷ []) type_t 0 [] 1 no_groups (ground arith)
      (omega arith) refl

c_str-assign_example : c_str (assign 4 (from_str 4 (97 ∷ 98 ∷ [])) (99 ∷ [])) ≡ 99 ∷ 98 ∷ []
c_str-assign_example =
    c_str-assign 4 (97 ∷ 98 ∷ []) (99 ∷ []) (ground arith) (ground arith) (omega arith)
      (omega arith)
