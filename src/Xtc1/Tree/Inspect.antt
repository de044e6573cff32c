-- ===== src/Xtc1/Tree/Inspect.antt =====
-- The traversal of a datagram that holds a tree.
use sbio.Prelude.{
  ℕ, zero, suc, ◌+◌, ◌-◌, ◌^◌, ◌≤◌, ◌<◌, ◌≡◌, ◌≢◌, sym, ap, ◌∙◌, some, List, arith, if◌then◌else◌,
}
use sbio.Xtc1.{
  Xtc, Detector, sizeof_xtc, id_xtc, is_dropped, add_detector, inspect_xtc1, inspect_children,
}
use sbio.Xtc1.Tree.{
  Node, leaf, container, Nodes, nil, cons, header, total_extent, IsLaid, AreLaid, leaves,
  leaves_of_all, add_all, add_all-append, header-extent,
}

module _ (buffer : ℕ → Xtc) where
  -- The two ways on from a header.
  inspect-leaf :
      (n pos : ℕ) (x : Xtc) (collector : List Detector)
      → buffer pos ≡ x
      → x.id ≢ id_xtc
      → inspect_xtc1 buffer (suc n) pos pos collector
        ≡ some (if is_dropped x then collector else add_detector x pos collector)
  unfolding inspect_xtc1
  inspect-leaf n pos x collector e i = ground (arith, e, i)

  inspect-container :
      (n pos : ℕ) (x : Xtc) (collector : List Detector)
      → buffer pos ≡ x
      → x.id ≡ id_xtc
      → sizeof_xtc ≤ x.extent
      → pos + x.extent < 2 ^ 31
      → inspect_xtc1 buffer (suc n) pos pos collector ≡ (
          if is_dropped x
          then some collector
          else inspect_children buffer n
              (pos + sizeof_xtc)
              (pos + sizeof_xtc)
              (x.extent - sizeof_xtc)
              collector)
  unfolding inspect_xtc1
  inspect-container n pos x collector e i l m = ground (arith, e, i)

  children-end :
      (n pos remaining : ℕ) (collector : List Detector)
      → remaining < sizeof_xtc
      → inspect_children buffer (suc n) pos pos remaining collector ≡ some collector
  unfolding inspect_children
  children-end n pos remaining collector l = ground arith

  children-next :
      (n pos remaining : ℕ) (x : Xtc) (collector next : List Detector)
      → buffer pos ≡ x
      → sizeof_xtc ≤ x.extent
      → x.extent ≤ remaining
      → pos + remaining < 2 ^ 31
      → inspect_xtc1 buffer n pos pos collector ≡ some next
      → inspect_children buffer (suc n) pos pos remaining collector
        ≡ inspect_children buffer n (pos + x.extent) (pos + x.extent) (remaining - x.extent) next
  unfolding inspect_children
  children-next n pos remaining x collector next e l m b q = ground (arith, e, q)

  mutual
    unfolding IsLaid leaves

    pub inspect_tree :
        (t : Node) (n pos : ℕ) (collector : List Detector)
        → IsLaid buffer pos t
        → pos + (header t).extent < 2 ^ 31
        → (header t).extent ≤ n
        → inspect_xtc1 buffer n pos pos collector ≡ some (add_all (leaves pos t) collector)
    inspect_tree t zero pos collector laid b l =
        absurd (omega (arith, (header-extent buffer pos t laid).1))
    inspect_tree (leaf x) (suc n) pos collector (e, i, m) b l =
        inspect-leaf n pos x collector e i ∙ ground arith
    inspect_tree (container x cs) (suc n) pos collector (e, i, m, k, a) b l =
        inspect-container n pos x collector e i (omega arith) b
        ∙ ground (
          arith,
          inspect_trees cs n (pos + sizeof_xtc) (x.extent - sizeof_xtc) collector a (omega arith)
              (omega arith) (omega arith) (omega arith),
        )

    inspect_trees :
        (cs : Nodes) (n pos remaining : ℕ) (collector : List Detector)
        → AreLaid buffer pos cs
        → total_extent cs ≤ remaining
        → remaining < total_extent cs + sizeof_xtc
        → pos + remaining < 2 ^ 31
        → total_extent cs + 1 ≤ n
        → inspect_children buffer n pos pos remaining collector
          ≡ some (add_all (leaves_of_all pos cs) collector)
    inspect_trees cs zero pos remaining collector a l m b k = absurd (omega arith)
    inspect_trees nil (suc n) pos remaining collector a l m b k =
        children-end n pos remaining collector m
    inspect_trees (cons c cs) (suc n) pos remaining collector (laid, a) l m b k =
        let (e, h) = header-extent buffer pos c laid in
        children-next n pos remaining (header c) collector (add_all (leaves pos c) collector) e h
          (omega arith) b (inspect_tree c n pos collector laid (omega arith) (omega arith))
        ∙ inspect_trees cs n (pos + (header c).extent) (remaining - (header c).extent)
            (add_all (leaves pos c) collector) a (omega arith) (omega arith) (omega arith)
            (omega (arith, h))
        ∙ ap some (
            sym (
              add_all-append (leaves pos c) (leaves_of_all (pos + (header c).extent) cs) collector))
