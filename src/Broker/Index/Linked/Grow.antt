-- ===== src/Broker/Index/Linked/Grow.antt =====
-- Adding a row keeps the lists of all kinds.
use sbio.Prelude.{ℕ, ◌<◌, ◌≡◌, none, some, inl, inr, arith, Option-cases}
use sbio.Broker.Index.{StepOffset, StreamCatalog, ByteRegion}
use sbio.Broker.Index.Linked.{IsLinked, unit_row, with_next, add_unit}

module _ (kinds : ℕ) (c : StreamCatalog) (rows : ℕ → StepOffset) (region : ByteRegion)
    (kind order_key : ℕ) (i : IsLinked kinds c rows) (h : kind < kinds) where
  -- The first row of its kind.
  first_of_kind :
      c.last_row kind ≡ none
      → IsLinked kinds
          (add_unit c rows region kind order_key).0
          (add_unit c rows region kind order_key).1
  unfolding add_unit unit_row with_next
  first_of_kind e = record {
    kind_bound = λ r p. ground (arith, e, i.kind_bound r);
    next_some = λ r s p q. ground (arith, e, i.next_some r s);
    next_gap = λ r s t p q u v. ground (arith, e, i.next_some r s, i.next_gap r s t);
    next_none = λ r p q. ground (arith, e, i.next_none r, i.last_none kind, i.first_none kind r);
    end_gap =
        λ r t p q u v. ground (arith, e, i.end_gap r t, i.last_none kind, i.first_none kind r);
    prev_some = λ r s p q. ground (arith, e, i.prev_some r s);
    prev_gap = λ r s t p q u v. ground (arith, e, i.prev_some r s, i.prev_gap r s t);
    prev_none =
        λ r t p q u. ground (arith, e, i.prev_none r t, i.last_none kind, i.first_none kind t);
    first_some = λ k f p q. ground (arith, e, i.first_some k f);
    first_gap = λ k f t p q u.
        ground
          (arith, e, i.first_some k f, i.first_gap k f t, i.last_none kind, i.first_none kind t);
    first_none = λ k t p q u. ground (arith, e, i.first_none k t);
    last_some = λ k l p q. ground (arith, e, i.last_some k l);
    last_none = λ k p q. ground (arith, e, i.last_none k);
  }

  -- A row behind the last one of its kind.
  later_of_kind :
      (l : ℕ)
      → c.last_row kind ≡ some l
      → IsLinked kinds
          (add_unit c rows region kind order_key).0
          (add_unit c rows region kind order_key).1
  unfolding add_unit unit_row with_next
  later_of_kind l e =
      let last = i.last_some kind l h e in
      let final = i.next_none l last.0 last.2 in
      record {
        kind_bound = λ r p. ground (arith, e, last, i.kind_bound r);
        next_some = λ r s p q. ground (arith, e, last, final, i.next_some r s);
        next_gap = λ r s t p q u v.
            ground (arith, e, last, i.next_some r s, i.next_gap r s t, i.end_gap l t);
        next_none = λ r p q. ground (arith, e, last, final, i.next_none r);
        end_gap = λ r t p q u v. ground (arith, e, last, i.next_none r, i.end_gap r t);
        prev_some = λ r s p q. ground (arith, e, last, i.prev_some r s);
        prev_gap = λ r s t p q u v.
            ground (arith, e, last, i.prev_some r s, i.prev_gap r s t, i.end_gap l t);
        prev_none = λ r t p q u. ground (arith, e, last, i.prev_none r t);
        first_some = λ k f p q. ground (arith, e, last, i.first_some k f);
        first_gap = λ k f t p q u. ground (arith, e, last, i.first_some k f, i.first_gap k f t);
        first_none = λ k t p q u. ground (arith, e, last, i.first_none k t, i.first_none k l);
        last_some = λ k m p q. ground (arith, e, last, i.last_some k m);
        last_none = λ k p q. ground (arith, e, last, i.last_none k);
      }

  -- However a unit is added, the rows stay linked.
  pub add_unit-IsLinked :
      IsLinked kinds
        (add_unit c rows region kind order_key).0
        (add_unit c rows region kind order_key).1
  add_unit-IsLinked = elim (Option-cases (c.last_row kind)) [
    | inl e ↦ first_of_kind e
    | inr (l, e) ↦ later_of_kind l e
  ]
