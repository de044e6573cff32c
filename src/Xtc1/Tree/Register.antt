-- ===== src/Xtc1/Tree/Register.antt =====
-- What is registered after the traversal of a tree.
use sbio.Prelude.{
  ℕ, ◌+◌, ◌%◌, ◌^◌, ◌≤◌, ◌<◌, ◌≡◌, refl, sym, ap, ◌∙◌, inl, inr, Bool, true, false, ◌&&◌, Option,
  none, some, List, [], ◌∷◌, ◌++◌, arith, ◌==◌, if◌then◌else◌, Bool-cases,
}
use sbio.Xtc1.{
  Src, Xtc, Detector, same_src, is_registered, is_detector, id_control_config, add_detector,
  inspect_xtc1,
}
use sbio.Xtc1.Tree.{Node, header, IsLaid, leaves, add_all}
use sbio.Xtc1.Tree.Inspect.{inspect_tree}

-- The offset that is registered for a source.
unfoldable pub offset_of : List Detector → Src → Option ℕ
offset_of [] src = none
offset_of (d ∷ rest) src = if same_src d.src src then some d.offset else offset_of rest src

-- The offset of the first leaf of a detector with a source.
unfoldable pub first_of : List (Xtc × ℕ) → Src → Option ℕ
first_of [] src = none
first_of ((x, offset) ∷ rest) src =
    if is_detector x && same_src x.src src then some offset else first_of rest src

abbrev or_else : Option ℕ → Option ℕ → Option ℕ
or_else none b = b
or_else (some a) b = some a

or_else-none : (a : Option ℕ) → or_else a none ≡ a
or_else-none none = refl
or_else-none (some a) = refl

or_else_found :
    (a : Option ℕ) (b : Bool) (offset : ℕ) (f : Option ℕ)
    → or_else (or_else a (if b then some offset else none)) f
      ≡ or_else a (if b then some offset else f)
or_else_found none true offset f = refl
or_else_found none false offset f = refl
or_else_found (some a) b offset f = refl

same_src-registered :
    (ds : List Detector) (a b : Src) → same_src a b ≡ true → is_registered ds a ≡ is_registered ds b
unfolding is_registered
same_src-registered [] a b e = refl
same_src-registered (d ∷ rest) a b e = ground (arith, e, same_src-registered rest a b e)

registered-offset :
    (ds : List Detector) (src : Src) (b : Option ℕ)
    → is_registered ds src ≡ true
    → or_else (offset_of ds src) b ≡ offset_of ds src
unfolding is_registered offset_of
registered-offset [] src b e = cc
registered-offset (d ∷ rest) src b e = elim (Bool-cases (same_src d.src src)) [
  | inl q ↦ ground (arith, q)
  | inr q ↦ let i = registered-offset rest src b in ground (arith, q, e, i)
]

unregistered-offset :
    (ds : List Detector) (src : Src) → is_registered ds src ≡ false → offset_of ds src ≡ none
unfolding is_registered offset_of
unregistered-offset [] src e = refl
unregistered-offset (d ∷ rest) src e = elim (Bool-cases (same_src d.src src)) [
  | inl q ↦ absurd (ground (arith, q, e))
  | inr q ↦ let i = unregistered-offset rest src in ground (arith, q, e, i)
]

offset_of-snoc :
    (ds : List Detector) (d : Detector) (src : Src)
    → offset_of (ds ++ d ∷ []) src
      ≡ or_else (offset_of ds src) (if same_src d.src src then some d.offset else none)
unfolding offset_of
offset_of-snoc [] d src = refl
offset_of-snoc (c ∷ rest) d src = elim (Bool-cases (same_src c.src src)) [
  | inl q ↦ ground (arith, q)
  | inr q ↦ let i = offset_of-snoc rest d src in ground (arith, q, i)
]

offset_of-add_detector :
    (x : Xtc) (offset : ℕ) (ds : List Detector) (src : Src)
    → offset_of (add_detector x offset ds) src
      ≡ or_else
          (offset_of ds src)
          (if is_detector x && same_src x.src src then some offset else none)
unfolding add_detector
offset_of-add_detector x offset ds src = elim (Bool-cases (is_detector x)) [
  | inr q ↦ ground (arith, q, or_else-none (offset_of ds src))
  | inl q ↦ elim (Bool-cases (is_registered ds x.src)) [
    | inr r ↦
        let i =
          offset_of-snoc ds
            (record {
              src = x.src;
              id = x.id;
              segment = if x.id == id_control_config then 0 else x.src.phy % 2 ^ 8;
              offset = offset;
            })
            src in
        ground (arith, q, r, i)
    | inl r ↦ elim (Bool-cases (same_src x.src src)) [
      | inr e ↦ ground (arith, q, r, e, or_else-none (offset_of ds src))
      | inl e ↦
          let i =
            registered-offset ds src (some offset) (sym (same_src-registered ds x.src src e) ∙ r) in
          ground (arith, q, r, e, i)
    ]
  ]
]

offset_of-add_all :
    (ls : List (Xtc × ℕ)) (ds : List Detector) (src : Src)
    → offset_of (add_all ls ds) src ≡ or_else (offset_of ds src) (first_of ls src)
unfolding first_of
offset_of-add_all [] ds src = sym (or_else-none (offset_of ds src))
offset_of-add_all ((x, offset) ∷ rest) ds src =
    offset_of-add_all rest (add_detector x offset ds) src
    ∙ ap (λ a. or_else a (first_of rest src)) (offset_of-add_detector x offset ds src)
    ∙ or_else_found (offset_of ds src) (is_detector x && same_src x.src src) offset
        (first_of rest src)

-- For a datagram in which a tree is laid out, below 2^31 bytes, and as much fuel as the tree has bytes:
-- `inspect_xtc1` ends; and for every source, a detector is registered if and only if a leaf of the tree
-- that is a detector's and is not under a dropped contribution has the source, and then with the offset
-- of the first of these.
pub inspect_xtc1_lem :
    (buffer : ℕ → Xtc) (t : Node) (n pos : ℕ)
    → IsLaid buffer pos t
    → pos + (header t).extent < 2 ^ 31
    → (header t).extent ≤ n
    → (detectors : List Detector) × (inspect_xtc1 buffer n pos pos [] ≡ some detectors)
      × ((src : Src) → offset_of detectors src ≡ first_of (leaves pos t) src)
unfolding offset_of
inspect_xtc1_lem buffer t n pos laid b l = (
  add_all (leaves pos t) [],
  inspect_tree buffer t n pos [] laid b l,
  λ src. offset_of-add_all (leaves pos t) [] src,
)
