-- ===== src/Metadata/Keys.antt =====
-- `MetadataInventory::GroupKey`, `GroupEntry`, `FieldKey`, `FieldDescriptor` and `FieldEntry`, with
-- their `operator<`. A `FixedName` is its array of characters, as ASCII codes.
use sbio.Prelude.{
  ℕ, ◌≡◌, Bool, true, false, not, ◌&&◌, List, arith, ltb, ◌==◌, if◌then◌else◌, inl, inr, Bool-cases,
}
use sbio.Metadata.Order.{
  Less, Total, nat_total, list_total, list_lt, list_eq, Total-trans, first_then_asym,
  first_then_trans, first_then_same, ltb_asym, ltb_total, list_lt_total,
}

abbrev pub Name : Type 0
Name = List ℕ

abbrev pub name_total : Total Name
name_total = list_total nat_total

-- The defaulted comparisons of `FixedName`.
abbrev pub name_lt : Name → Name → Bool
name_lt = list_lt nat_total

abbrev pub name_eq : Name → Name → Bool
name_eq = list_eq nat_total

pub record GroupKey : Type 0 where
  pub group_name : Name
  pub group_type : Name
  pub segment : ℕ
  pub extra_metadata : List Name

unfoldable pub group_key_lt : GroupKey → GroupKey → Bool
group_key_lt a b =
    if not (name_eq a.group_type b.group_type)
    then name_lt a.group_type b.group_type
    else if not (name_eq a.group_name b.group_name)
    then name_lt a.group_name b.group_name
    else ltb a.segment b.segment

-- `access_ptn` is the format's pattern as a number.
pub record GroupEntry : Type 0 where
  pub key : GroupKey
  pub group_id : ℕ
  pub access_ptn : ℕ
  pub epoch : ℕ

pub record FieldKey : Type 0 where
  pub group_id : ℕ
  pub keys : List Name

unfoldable pub field_key_lt : FieldKey → FieldKey → Bool
field_key_lt a b =
    if not (a.group_id == b.group_id)
    then ltb a.group_id b.group_id
    else list_lt name_total a.keys b.keys

-- The data type of a field is a number here, and `F` is the format's own metadata.
pub record FieldDescriptor (F : Type 0) : Type 0 where
  pub payload_offset : ℕ
  pub dtype : ℕ
  pub rank : ℕ
  pub shape : List ℕ
  pub field_version : ℕ
  pub is_config : Bool
  pub format_meta : F

pub record FieldEntry (F : Type 0) : Type 0 where
  pub key : FieldKey
  pub descriptor : FieldDescriptor F

pub group_key_asym : (a b : GroupKey) → group_key_lt a b ≡ true → group_key_lt b a ≡ false
unfolding group_key_lt
group_key_asym a b =
    first_then_asym name_total a.group_type b.group_type _ _
      (first_then_asym name_total a.group_name b.group_name _ _ (ltb_asym a.segment b.segment))

pub group_key_trans :
    (a b c : GroupKey)
    → group_key_lt b a ≡ false
    → group_key_lt c b ≡ false
    → group_key_lt c a ≡ false
unfolding group_key_lt
group_key_trans a b c = first_then_trans name_total a.group_type b.group_type c.group_type _ _ _ (
    first_then_trans name_total a.group_name b.group_name c.group_name _ _ _
      (Total-trans nat_total a.segment b.segment c.segment))

pub field_key_asym : (a b : FieldKey) → field_key_lt a b ≡ true → field_key_lt b a ≡ false
unfolding field_key_lt
field_key_asym a b =
    first_then_asym nat_total a.group_id b.group_id _ _ ((list_total name_total).asym a.keys b.keys)

pub field_key_trans :
    (a b c : FieldKey)
    → field_key_lt b a ≡ false
    → field_key_lt c b ≡ false
    → field_key_lt c a ≡ false
unfolding field_key_lt
field_key_trans a b c =
    first_then_trans nat_total a.group_id b.group_id c.group_id _ _ _
      (Total-trans (list_total name_total) a.keys b.keys c.keys)

-- Entries are compared by their keys.
instance abbrev pub group_less : Less GroupEntry
group_less = record {
  lt = λ a b. group_key_lt a.key b.key;
  asym = λ a b. group_key_asym a.key b.key;
  trans = λ a b c. group_key_trans a.key b.key c.key;
}

instance abbrev pub field_less : {F : Type 0} → Less (FieldEntry F)
field_less = record {
  lt = λ a b. field_key_lt a.key b.key;
  asym = λ a b. field_key_asym a.key b.key;
  trans = λ a b c. field_key_trans a.key b.key c.key;
}

-- Two keys of which neither comes before the other agree in what is compared.
pub group_key_same :
    (a b : GroupKey)
    → group_key_lt a b ≡ false
    → group_key_lt b a ≡ false
    → (a.group_type ≡ b.group_type) × (a.group_name ≡ b.group_name) × (a.segment ≡ b.segment)
unfolding group_key_lt
group_key_same a b h k =
    let (e, r, s) = first_then_same name_total a.group_type b.group_type _ _ h k in
    let (f, p, q) = first_then_same name_total a.group_name b.group_name _ _ r s in
    (e, f, ltb_total a.segment b.segment p q)

pub field_key_same : (a b : FieldKey) → field_key_lt a b ≡ false → field_key_lt b a ≡ false → a ≡ b
unfolding field_key_lt
field_key_same a b h k =
    let (e, r, s) = first_then_same nat_total a.group_id b.group_id _ _ h k in
    λ i. record { group_id = e i; keys = list_lt_total name_total a.keys b.keys r s i }

pub field_key_irrefl : (a : FieldKey) → field_key_lt a a ≡ false
field_key_irrefl a = elim (Bool-cases (field_key_lt a a)) [
  | inl e ↦ cc (field_key_asym a a e)
  | inr e ↦ e
]

pub group_key_irrefl : (a : GroupKey) → group_key_lt a a ≡ false
group_key_irrefl a = elim (Bool-cases (group_key_lt a a)) [
  | inl e ↦ cc (group_key_asym a a e)
  | inr e ↦ e
]

-- The names and the segment that tell groups apart.
unfoldable pub same_group : GroupKey → GroupKey → Bool
same_group a b =
    name_eq a.group_type b.group_type
    && name_eq a.group_name b.group_name
    && (a.segment == b.segment)

unfoldable pub same_field : FieldKey → FieldKey → Bool
same_field a b = (a.group_id == b.group_id) && list_eq name_total a.keys b.keys

-- Neither key comes before the other exactly where they are the same.
pub group_key_unordered :
    (a b : GroupKey) → (not (group_key_lt a b) && not (group_key_lt b a)) ≡ same_group a b
unfolding same_group group_key_lt
group_key_unordered a b = ground (
  arith,
  group_key_same a b,
  name_total.eq_iff a.group_type b.group_type,
  name_total.eq_iff b.group_type a.group_type,
  name_total.eq_iff a.group_name b.group_name,
  name_total.eq_iff b.group_name a.group_name,
  name_total.asym a.group_type b.group_type,
  name_total.asym a.group_name b.group_name,
  name_total.total a.group_type b.group_type,
  name_total.total a.group_name b.group_name,
  ltb_asym a.segment b.segment,
)

pub field_key_unordered :
    (a b : FieldKey) → (not (field_key_lt a b) && not (field_key_lt b a)) ≡ same_field a b
unfolding same_field field_key_lt
field_key_unordered a b = ground (
  arith,
  (list_total name_total).eq_iff a.keys b.keys,
  (list_total name_total).asym a.keys b.keys,
  (list_total name_total).asym b.keys a.keys,
  (list_total name_total).total a.keys b.keys,
)
