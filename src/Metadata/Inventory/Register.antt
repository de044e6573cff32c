-- ===== src/Metadata/Inventory/Register.antt =====
-- Registration keeps the groups apart, and registering a group again changes nothing.
use sbio.Prelude.{
  ℕ, ◌≤◌, ◌<◌, ◌≡◌, refl, sym, ap, ◌∙◌, Bool, true, ◌&&◌, none, some, List, [], ◌∷◌, ◌++◌, length,
  arith, inl, inr, Bool-cases, Option-cases, ◌==◌, All, All-snoc,
}
use sbio.Metadata.Keys.{Name, name_eq, name_total, GroupKey, GroupEntry, same_group}
use sbio.Metadata.Names.{from_str, eq_str, c_str}
use sbio.Metadata.Names.Laws.{IsText, c_str-from_str, eq_str-from_str}
use sbio.Metadata.Search.Unique.{count, count-append}
use sbio.Metadata.Inventory.{Inventory, find_group, new_group, register_group, touch, uint32}
use sbio.Metadata.Inventory.Lookup.{is_group}

module _ (size : ℕ) where
  -- A text that a name can hold.
  abbrev pub IsShort : List ℕ → Type 0
  IsShort str = IsText str × (length str < size)

  -- A stored name comes from a text that fits.
  abbrev pub IsName : Name → Type 0
  IsName name = (str : List ℕ) × IsShort str × (name ≡ from_str size str)

  abbrev pub IsNamed : GroupEntry → Type 0
  IsNamed e = IsName e.key.group_name × IsName e.key.group_type

  -- No two groups share their names and their segment, and all names fit.
  pub record IsDistinct {F : Type 0} (inv : Inventory F) : Type 0 where
    pub named : All IsNamed inv.groups
    pub once : (k : GroupKey) → count (is_group k) inv.groups ≤ 1

  from_str_injective :
      (a b : List ℕ) → IsShort a → IsShort b → from_str size a ≡ from_str size b → a ≡ b
  from_str_injective a b h k e =
      sym (c_str-from_str size a h.0 h.1) ∙ ap c_str e ∙ c_str-from_str size b k.0 k.1

  -- Comparing a name with a C string is comparing it with the name that would be stored.
  eq_str_stored :
      (name : Name) (str : List ℕ)
      → IsName name
      → IsShort str
      → eq_str name str ≡ name_eq name (from_str size str)
  eq_str_stored name str (t, h, e) k = ground (
    arith,
    e,
    ap (λ n. eq_str n str) e,
    eq_str-from_str size t str h.0 k.0 h.1,
    name_total.eq_iff name (from_str size str),
    from_str_injective t str h k,
    ap (from_str size),
  )

  -- The test that the loop makes on an entry.
  abbrev has_names : ℕ → List ℕ → List ℕ → GroupEntry → Bool
  has_names segment name type e =
      (e.key.segment == segment) && eq_str e.key.group_name name && eq_str e.key.group_type type

  -- The key that is stored.
  abbrev stored_key : ℕ → List ℕ → List ℕ → GroupKey
  stored_key segment name type = record {
    group_name = from_str size name;
    group_type = from_str size type;
    segment = segment;
    extra_metadata = [];
  }

  has_names_lem :
      (segment : ℕ) (name type : List ℕ) (e : GroupEntry)
      → IsNamed e
      → IsShort name
      → IsShort type
      → has_names segment name type e ≡ same_group e.key (stored_key segment name type)
  unfolding same_group
  has_names_lem segment name type e n h k =
      ground (
        arith,
        eq_str_stored e.key.group_name name n.0 h,
        eq_str_stored e.key.group_type type n.1 k,
      )

  same_group_trans :
      (a b c : GroupKey) → same_group b c ≡ true → same_group a c ≡ true → same_group a b ≡ true
  unfolding same_group
  same_group_trans a b c h k = ground (
    arith,
    name_total.eq_iff b.group_type c.group_type,
    name_total.eq_iff b.group_name c.group_name,
    name_total.eq_iff a.group_type c.group_type,
    name_total.eq_iff a.group_name c.group_name,
    name_total.eq_iff a.group_type b.group_type,
    name_total.eq_iff a.group_name b.group_name,
  )

  find_group_absent :
      (segment : ℕ) (name type : List ℕ) (es : List GroupEntry) (k : GroupKey)
      → All IsNamed es
      → IsShort name
      → IsShort type
      → find_group segment name type es ≡ none
      → same_group (stored_key segment name type) k ≡ true
      → count (is_group k) es ≡ 0
  unfolding find_group count
  find_group_absent segment name type [] k n h t f s = refl
  find_group_absent segment name type (e ∷ es) k n h t f s =
      elim (Bool-cases (has_names segment name type e)) [
        | inl b ↦ absurd (ground arith)
        | inr b ↦
            let rest = find_group_absent segment name type es k n.1 h t (ground arith) s in
            ground (
              arith,
              rest,
              has_names_lem segment name type e n.0 h t,
              same_group_trans e.key (stored_key segment name type) k,
            )
      ]

  find_group_last :
      (segment : ℕ) (name type : List ℕ) (es : List GroupEntry) (e : GroupEntry)
      → find_group segment name type es ≡ none
      → has_names segment name type e ≡ true
      → find_group segment name type (es ++ e ∷ []) ≡ some e.group_id
  unfolding find_group
  find_group_last segment name type [] e f h = ground arith
  find_group_last segment name type (d ∷ es) e f h =
      elim (Bool-cases (has_names segment name type d)) [
        | inl b ↦ absurd (ground arith)
        | inr b ↦ ground (arith, find_group_last segment name type es e (ground arith) h)
      ]

  module _ (segment : ℕ) (name type : List ℕ) (ptn : ℕ) (grp_meta : List (List ℕ)) where
    new_group-IsNamed :
        (id : ℕ)
        → IsShort name
        → IsShort type
        → IsNamed (new_group size id name type segment ptn grp_meta)
    unfolding new_group
    new_group-IsNamed id h t = ((name, h, refl), (type, t, refl))

    is_group-new_group :
        (id : ℕ) (k : GroupKey)
        → is_group k (new_group size id name type segment ptn grp_meta)
          ≡ same_group (stored_key segment name type) k
    unfolding new_group same_group
    is_group-new_group id k = refl

    has_names-new_group :
        (id : ℕ)
        → IsShort name
        → IsShort type
        → has_names segment name type (new_group size id name type segment ptn grp_meta) ≡ true
    unfolding new_group
    has_names-new_group id h t = ground (
      arith,
      (eq_str-from_str size name name h.0 h.0 h.1).1 refl,
      (eq_str-from_str size type type t.0 t.0 t.1).1 refl,
    )

    count-grown :
        (es : List GroupEntry) (id : ℕ) (k : GroupKey)
        → All IsNamed es
        → count (is_group k) es ≤ 1
        → IsShort name
        → IsShort type
        → find_group segment name type es ≡ none
        → count (is_group k) (es ++ new_group size id name type segment ptn grp_meta ∷ []) ≤ 1
    unfolding count
    count-grown es id k n u h t f = ground (
      arith,
      count-append (is_group k) es (new_group size id name type segment ptn grp_meta ∷ []),
      is_group-new_group id k,
      find_group_absent segment name type es k n h t f,
    )

  module _ {F : Type 0} (segment : ℕ) (name type : List ℕ) (ptn : ℕ)
      (grp_meta : List (List ℕ)) where
    -- Registering a group whose name and type fit keeps the groups apart by their names and segment, and
    -- their names such as fit.
    pub register_group-IsDistinct :
        (next : ℕ) (inv : Inventory F)
        → IsDistinct inv
        → IsShort name
        → IsShort type
        → IsDistinct (register_group size name type segment ptn grp_meta next inv).2
    unfolding register_group touch
    register_group-IsDistinct next inv d h t =
        elim (Option-cases (find_group segment name type inv.groups)) [
          | inr (id, e) ↦ rw (e, register_group) d
          | inl e ↦
              rw (e, register_group)
                (record {
                  named =
                      All-snoc IsNamed inv.groups _ d.named
                        (new_group-IsNamed segment name type ptn grp_meta _ h t);
                  once = λ k.
                      count-grown segment name type ptn grp_meta inv.groups _ k d.named (d.once k) h
                        t e;
                })
        ]

    -- Registering a group whose name and type fit a second time gives the same identifier and changes
    -- nothing.
    pub register_group-register_group :
        (next : ℕ) (inv : Inventory F)
        → IsShort name
        → IsShort type
        → let (id, after, grown) = register_group size name type segment ptn grp_meta next inv in
          register_group size name type segment ptn grp_meta after grown ≡ (id, after, grown)
    unfolding register_group touch new_group
    register_group-register_group next inv h t =
        elim (Option-cases (find_group segment name type inv.groups)) [
          | inr (id, e) ↦ ground (arith, e)
          | inl e ↦ ground (
            arith,
            e,
            find_group_last segment name type inv.groups
                (new_group size (uint32 (length inv.groups)) name type segment ptn grp_meta) e
                (has_names-new_group segment name type ptn grp_meta _ h t),
          )
        ]
