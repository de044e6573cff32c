-- ===== src/Metadata/Inventory/Truncated.antt =====
-- A name that does not fit is cut off when it is stored, and then no longer recognized.
use sbio.Prelude.{
  ℕ, suc, ◌+◌, ◌≤◌, ◌≡◌, ap, ◌∙◌, false, ◌&&◌, none, List, [], ◌∷◌, ◌++◌, length, length-append,
  arith, inl, inr, Bool-cases, ◌==◌,
}
use sbio.Metadata.Keys.{GroupEntry}
use sbio.Metadata.Names.{eq_str}
use sbio.Metadata.Names.Laws.{IsText, eq_str-from_str_cut}
use sbio.Metadata.Inventory.{Inventory, find_group, new_group, register_group, touch, uint32}

find_group-append :
    (segment : ℕ) (name type : List ℕ) (es : List GroupEntry) (e : GroupEntry)
    → find_group segment name type es ≡ none
    → eq_str e.key.group_name name ≡ false
    → find_group segment name type (es ++ e ∷ []) ≡ none
unfolding find_group
find_group-append segment name type [] e f h = ground arith
find_group-append segment name type (d ∷ es) e f h =
    elim (Bool-cases (
      (d.key.segment == segment) && eq_str d.key.group_name name && eq_str d.key.group_type type)) [
        | inl b ↦ absurd (ground arith)
        | inr b ↦ ground (arith, find_group-append segment name type es e (ground arith) h)
      ]

module _ {F : Type 0} where
  register_group_grows :
      (size segment : ℕ) (name type : List ℕ) (ptn : ℕ) (grp_meta : List (List ℕ)) (next : ℕ)
      (inv : Inventory F)
      → find_group segment name type inv.groups ≡ none
      → (register_group size name type segment ptn grp_meta next inv).2.groups
        ≡ inv.groups
          ++ new_group size (uint32 (length inv.groups)) name type segment ptn grp_meta ∷ []
  unfolding register_group touch
  register_group_grows size segment name type ptn grp_meta next inv f = ground (arith, f)

  -- A group whose name has at least as many characters as a name can hold, and that is not found, is
  -- entered each time that it is registered: two registrations give two entries.
  pub register_group_cut :
      (n segment : ℕ) (name type : List ℕ) (ptn : ℕ) (grp_meta : List (List ℕ)) (next : ℕ)
      (inv : Inventory F)
      → IsText name
      → suc n ≤ length name
      → find_group segment name type inv.groups ≡ none
      → let (id, after, grown) = register_group (suc n) name type segment ptn grp_meta next inv in
        length (register_group (suc n) name type segment ptn grp_meta after grown).2.groups
        ≡ length inv.groups + 2
  unfolding new_group
  register_group_cut n segment name type ptn grp_meta next inv t h f =
      let (id, after, grown) = register_group (suc n) name type segment ptn grp_meta next inv in
      let e = new_group (suc n) (uint32 (length inv.groups)) name type segment ptn grp_meta in
      let grows = register_group_grows (suc n) segment name type ptn grp_meta next inv f in
      let absent =
        find_group-append segment name type inv.groups e f (eq_str-from_str_cut n name t h) in
      let again =
        register_group_grows (suc n) segment name type ptn grp_meta after grown
          (ap (find_group segment name type) grows ∙ absent) in
      ap length again
      ∙ length-append grown.groups _
      ∙ ap (λ gs. length gs + 1) grows
      ∙ ap (λ k. k + 1) (length-append inv.groups (e ∷ []))
      ∙ two (length inv.groups)
    where
      two : (k : ℕ) → k + 1 + 1 ≡ k + 2
      two k = omega arith
