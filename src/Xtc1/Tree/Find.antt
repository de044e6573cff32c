-- ===== src/Xtc1/Tree/Find.antt =====
-- The search in a datagram that holds a tree.
use sbio.Prelude.{
  ℕ, zero, suc, ◌+◌, ◌^◌, ◌≤◌, ◌<◌, ◌≡◌, ◌≢◌, refl, ◌∙◌, inl, inr, Bool, Option, none, some, List,
  [], ◌∷◌, ◌++◌, arith, if◌then◌else◌, Bool-cases, Option-cases,
}
use sbio.Xtc1.{
  Xtc, sizeof_xtc, id_xtc, sizeof_payload, is_dropped, find_xtc_by_type, find_in_children,
}
use sbio.Xtc1.Tree.{
  Node, leaf, container, Nodes, nil, cons, header, total_extent, IsLaid, AreLaid, header-extent,
}

-- All Xtcs that are not under a dropped contribution, with their offsets: each before its children.
unfoldable mutual
  pub xtcs : ℕ → Node → List (Xtc × ℕ)
  xtcs pos (leaf x) = if is_dropped x then [] else (x, pos) ∷ []
  xtcs pos (container x children) =
      if is_dropped x then [] else (x, pos) ∷ xtcs_of_all (pos + sizeof_xtc) children

  pub xtcs_of_all : ℕ → Nodes → List (Xtc × ℕ)
  xtcs_of_all pos nil = []
  xtcs_of_all pos (cons c cs) = xtcs pos c ++ xtcs_of_all (pos + (header c).extent) cs

module _ (wanted : Xtc → Bool) where
  unfoldable pub first_wanted : List (Xtc × ℕ) → Option ℕ
  first_wanted [] = none
  first_wanted ((x, pos) ∷ rest) = if wanted x then some pos else first_wanted rest

  or_later : Option ℕ → List (Xtc × ℕ) → Option ℕ
  or_later none rest = first_wanted rest
  or_later (some pos) rest = some pos

  first_wanted-append :
      (xs ys : List (Xtc × ℕ)) → first_wanted (xs ++ ys) ≡ or_later (first_wanted xs) ys
  unfolding first_wanted or_later
  first_wanted-append [] ys = refl
  first_wanted-append ((x, pos) ∷ rest) ys = elim (Bool-cases (wanted x)) [
    | inl q ↦ ground (arith, q)
    | inr q ↦ let i = first_wanted-append rest ys in ground (arith, q, i)
  ]

  module _ (buffer : ℕ → Xtc) where
    find-leaf :
        (n pos : ℕ) (x : Xtc)
        → buffer pos ≡ x
        → x.id ≢ id_xtc
        → sizeof_xtc ≤ x.extent
        → find_xtc_by_type buffer (suc n) wanted pos
          ≡ some (first_wanted (if is_dropped x then [] else (x, pos) ∷ []))
    unfolding find_xtc_by_type first_wanted
    find-leaf n pos x e i l = ground (arith, e, i)

    find-container :
        (n pos : ℕ) (x : Xtc)
        → buffer pos ≡ x
        → x.id ≡ id_xtc
        → sizeof_xtc ≤ x.extent
        → pos + x.extent < 2 ^ 31
        → find_xtc_by_type buffer (suc n) wanted pos ≡ (
            if is_dropped x
            then some none
            else if wanted x
            then some (some pos)
            else find_in_children buffer n wanted (pos + sizeof_xtc) (pos + x.extent))
    unfolding find_xtc_by_type
    find-container n pos x e i l b =
        let p : pos + sizeof_xtc + sizeof_payload x ≡ pos + x.extent = ground arith in
        ground (arith, e, i, p)

    children-next :
        (n pos end : ℕ) (x : Xtc) (found : Option ℕ)
        → buffer pos ≡ x
        → sizeof_xtc ≤ x.extent
        → pos + x.extent ≤ end
        → find_xtc_by_type buffer n wanted pos ≡ some found
        → find_in_children buffer (suc n) wanted pos end ≡ elim found [
          | none ↦ find_in_children buffer n wanted (pos + x.extent) end
          | some p ↦ some (some p)
        ]
    unfolding find_in_children
    children-next n pos end x none e l m q = ground (arith, e, q)
    children-next n pos end x (some p) e l m q = ground (arith, e, q)

    children-end :
        (n pos end : ℕ)
        → end < pos + sizeof_xtc
        → find_in_children buffer (suc n) wanted pos end ≡ some none
    unfolding find_in_children
    children-end n pos end l = ground arith

    mutual
      unfolding IsLaid xtcs first_wanted or_later

      pub find_tree :
          (t : Node) (n pos : ℕ)
          → IsLaid buffer pos t
          → pos + (header t).extent < 2 ^ 31
          → (header t).extent ≤ n
          → find_xtc_by_type buffer n wanted pos ≡ some (first_wanted (xtcs pos t))
      find_tree t zero pos laid b l = absurd (omega (arith, (header-extent buffer pos t laid).1))
      find_tree (leaf x) (suc n) pos (e, i, m) b l = find-leaf n pos x e i m
      find_tree (container x cs) (suc n) pos (e, i, m, k, a) b l =
          let rest =
            find_trees cs n (pos + sizeof_xtc) (pos + x.extent) a (omega arith) (omega arith) b
              (omega arith) in
          find-container n pos x e i (omega arith) b ∙ ground (arith, rest)

      find_trees :
          (cs : Nodes) (n pos end : ℕ)
          → AreLaid buffer pos cs
          → pos + total_extent cs ≤ end
          → end < pos + total_extent cs + sizeof_xtc
          → end < 2 ^ 31
          → total_extent cs + 1 ≤ n
          → find_in_children buffer n wanted pos end ≡ some (first_wanted (xtcs_of_all pos cs))
      find_trees cs zero pos end a l m b k = absurd (omega arith)
      find_trees nil (suc n) pos end a l m b k = children-end n pos end (omega arith)
      find_trees (cons c cs) (suc n) pos end (laid, a) l m b k =
          let (e, h) = header-extent buffer pos c laid in
          let this = find_tree c n pos laid (omega arith) (omega arith) in
          let both = first_wanted-append (xtcs pos c) (xtcs_of_all (pos + (header c).extent) cs) in
          let rest =
            find_trees cs n (pos + (header c).extent) end a (omega arith) (omega arith) b
              (omega (arith, h)) in
          children-next n pos end (header c) (first_wanted (xtcs pos c)) e h (omega arith) this
          ∙ elim (Option-cases (first_wanted (xtcs pos c))) [
            | inl q ↦ ground (arith, q, both, rest)
            | inr (p, q) ↦ ground (arith, q, both)
          ]
