-- ===== src/Result/Layout.antt =====
-- Where the array of a composite has the elements of a segment.
use sbio.Prelude.{
  ℕ, zero, suc, ◌+◌, ◌-◌, ◌*◌, ◌^◌, ◌≤◌, ◌<◌, ◌≡◌, refl, ap, ◌∙◌, inl, inr, none, some, ◌⊎◌, arith,
  ℕ_discrete, Bool-cases, dec_le,
}
use native.Mathlib.Nat.{suc-mul, mul-le-mul_right, mul_comm, mul-add, mul_assoc}
use sbio.Broker.Index.{write}
use sbio.Result.{
  CompositeDataResult, ArrayMetadata, table_axes, data_axes, first_data, composite_rank, to_array,
  max_ndim,
}

-- The number of elements of `n` axes.
pub volume : (ℕ → ℕ) → ℕ → ℕ
volume shape zero = 1
volume shape (suc n) = volume shape n * shape n

-- The number of elements before an index, with the last axis the fastest.
pub position : (ℕ → ℕ) → (ℕ → ℕ) → ℕ → ℕ
position shape idx zero = 0
position shape idx (suc n) = position shape idx n * shape n + idx n

-- The offset of an index along `n` axes of an array from `first` on.
unfoldable pub offset : ArrayMetadata → ℕ → (ℕ → ℕ) → ℕ → ℕ
offset v first idx zero = 0
offset v first idx (suc n) = offset v first idx n + idx n * v.strides (first + n)

position_below :
    (shape idx : ℕ → ℕ) (n : ℕ)
    → ((k : ℕ) → k < n → idx k < shape k)
    → position shape idx n < volume shape n
unfolding position volume
position_below shape idx zero h = omega arith
position_below shape idx (suc n) h =
    let a = position_below shape idx n (λ k l. h k (omega arith)) in
    let b = h n (omega arith) in
    omega (
      arith,
      suc-mul (position shape idx n) (shape n),
      mul-le-mul_right {m = suc (position shape idx n)} {n = volume shape n} (shape n) a,
    )

-- An array after the pass of the loop for axis `n`.
abbrev with_axis : (ℕ → ℕ) → ℕ → ℕ → ℕ → ArrayMetadata → ArrayMetadata
with_axis shape first n cur v = record {
  ndim = v.ndim;
  shape = write v.shape (first + n) (shape n);
  strides = write v.strides (first + n) cur;
  suboffsets = write v.suboffsets (first + n) none;
}

-- The axes after all passes.
set_axes : (ℕ → ℕ) → ℕ → ℕ → ℕ → ArrayMetadata → ArrayMetadata
set_axes shape first zero cur v = v
set_axes shape first (suc n) cur v =
    set_axes shape first n (cur * shape n) (with_axis shape first n cur v)

axes_kept :
    (shape : ℕ → ℕ) (first n cur k : ℕ) (v : ArrayMetadata)
    → n ≤ k
    → ((set_axes shape first n cur v).strides (first + k) ≡ v.strides (first + k))
      × ((set_axes shape first n cur v).shape (first + k) ≡ v.shape (first + k))
      × ((set_axes shape first n cur v).suboffsets (first + k) ≡ v.suboffsets (first + k))
unfolding set_axes
axes_kept shape first zero cur k v l = (refl, refl, refl)
axes_kept shape first (suc n) cur k v l =
    let (a, b, c) = axes_kept shape first n (cur * shape n) k _ (omega arith) in
    (a ∙ ground arith, b ∙ ground arith, c ∙ ground arith)

axes_set :
    (shape : ℕ → ℕ) (first n cur k : ℕ) (v : ArrayMetadata)
    → k < n
    → ((set_axes shape first n cur v).shape (first + k) ≡ shape k)
      × ((set_axes shape first n cur v).suboffsets (first + k) ≡ none)
unfolding set_axes
axes_set shape first zero cur k v l = absurd (omega arith)
axes_set shape first (suc n) cur k v l = elim (ℕ_discrete k n) [
  | no e ↦ axes_set shape first n (cur * shape n) k _ (omega arith)
  | yes e ↦
      let (a, b, c) = axes_kept shape first n (cur * shape n) k _ (omega arith) in
      (b ∙ ground arith, c ∙ ground arith)
]

axes_offset :
    (shape idx : ℕ → ℕ) (first n cur : ℕ) (v : ArrayMetadata)
    → offset (set_axes shape first n cur v) first idx n ≡ cur * position shape idx n
unfolding set_axes offset position
axes_offset shape idx first zero cur v = omega arith
axes_offset shape idx first (suc n) cur v =
    let (a, b, c) =
      axes_kept shape first n (cur * shape n) n (with_axis shape first n cur v) (omega arith) in
    let i = axes_offset shape idx first n (cur * shape n) (with_axis shape first n cur v) in
    let w = set_axes shape first n (cur * shape n) (with_axis shape first n cur v) in
    let stride : w.strides (first + n) ≡ cur = a ∙ ground arith in
    omega (
      arith,
      ap (λ x. idx n * x) stride,
      i,
      mul_comm (idx n) cur,
      mul-add cur (position shape idx n * shape n) (idx n),
      ap (λ x. cur * x) (mul_comm (position shape idx n) (shape n)),
      mul_assoc cur (shape n) (position shape idx n),
    )

module _ (pointer_size : ℕ) (itemsize : ℕ → ℕ) where
  data_axes_fit :
      (shape : ℕ → ℕ) (first n cur : ℕ) (v : ArrayMetadata)
      → first + n ≤ max_ndim
      → data_axes pointer_size itemsize shape first n cur v ≡ some (set_axes shape first n cur v)
  unfolding data_axes set_axes
  data_axes_fit shape first zero cur v l = refl
  data_axes_fit shape first (suc n) cur v l =
      let i =
        data_axes_fit shape first n (cur * shape n) (with_axis shape first n cur v) (omega arith) in
      ground (arith, i)

  data_axes_over :
      (shape : ℕ → ℕ) (first n cur : ℕ) (v : ArrayMetadata)
      → max_ndim ≤ first + n
      → data_axes pointer_size itemsize shape first (suc n) cur v ≡ none
  unfolding data_axes
  data_axes_over shape first n cur v l = ground arith

  to_rank :
      (c : CompositeDataResult)
      → c.segment_rank + 2 < 2 ^ 16
      → composite_rank c ≡ first_data c + c.segment_rank
  unfolding composite_rank first_data
  to_rank c l = elim (Bool-cases c.batched) [
    | inl b ↦ ground (arith, b)
    | inr b ↦ ground (arith, b)
  ]

  few_first : (c : CompositeDataResult) → first_data c < max_ndim
  unfolding first_data
  few_first c = elim (Bool-cases c.batched) [
    | inl b ↦ ground (arith, b)
    | inr b ↦ ground (arith, b)
  ]

  to_array_over :
      (c : CompositeDataResult) (v : ArrayMetadata) (n : ℕ)
      → composite_rank c - first_data c ≡ n
      → max_ndim < first_data c + n
      → to_array pointer_size itemsize c v ≡ none
  unfolding to_array
  to_array_over c v zero e l = absurd (omega (arith, l, few_first c))
  to_array_over c v (suc n) e l =
      let none_left =
        data_axes_over c.segment_shape (first_data c) n (itemsize c.dtype)
          (table_axes pointer_size itemsize c v) (omega arith) in
      ground (arith, e, none_left)

  offset_strides :
      (first : ℕ) (idx : ℕ → ℕ) (n : ℕ) (v w : ArrayMetadata)
      → ((k : ℕ) → v.strides k ≡ w.strides k)
      → offset v first idx n ≡ offset w first idx n
  unfolding offset
  offset_strides first idx zero v w h = refl
  offset_strides first idx (suc n) v w h =
      let i = offset_strides first idx n v w h in
      let e = h (first + n) in omega (arith, i, ap (λ x. idx n * x) e)

  -- For a composite whose rank fits 16 bits, and an index within the shape of a segment. Either the axes
  -- of the table, of which there are two where the composite is batched and one where it is not, and
  -- those of a segment are as many as the arrays have room for: then the array is made and has these
  -- axes; along those of a segment, the element at the index is as many elements from the start of the
  -- segment as come before it where the last axis is the fastest, which is fewer than the segment has;
  -- and no pointer is followed along them. Or the axes are more than that, and an axis outside of the
  -- arrays is accessed.
  pub to_array_lem :
      (c : CompositeDataResult) (v : ArrayMetadata) (idx : ℕ → ℕ)
      → c.segment_rank + 2 < 2 ^ 16
      → ((k : ℕ) → k < c.segment_rank → idx k < c.segment_shape k)
      → ((first_data c + c.segment_rank ≤ max_ndim)
          × (w : ArrayMetadata) × (to_array pointer_size itemsize c v ≡ some w)
          × (w.ndim ≡ first_data c + c.segment_rank)
          × (offset w (first_data c) idx c.segment_rank
              ≡ itemsize c.dtype * position c.segment_shape idx c.segment_rank)
          × (position c.segment_shape idx c.segment_rank < volume c.segment_shape c.segment_rank)
          × ((k : ℕ)
              → k < c.segment_rank
              → (w.shape (first_data c + k) ≡ c.segment_shape k)
                × (w.suboffsets (first_data c + k) ≡ none)))
        ⊎ ((max_ndim < first_data c + c.segment_rank) × (to_array pointer_size itemsize c v ≡ none))
  unfolding to_array
  to_array_lem c v idx l h =
      let e = to_rank c l in
      let rank : composite_rank c - first_data c ≡ c.segment_rank = omega (arith, e) in
      let start = table_axes pointer_size itemsize c v in
      let shape = c.segment_shape in
      let first = first_data c in
      let size = itemsize c.dtype in
      elim (dec_le (first_data c + c.segment_rank) max_ndim) [
        | yes fits ↦
            let axes = set_axes shape first c.segment_rank size start in
            let made = data_axes_fit shape first c.segment_rank size start fits in
            inl (
              fits,
              record {
                ndim = composite_rank c;
                shape = axes.shape;
                strides = axes.strides;
                suboffsets = axes.suboffsets;
              },
              ground (arith, rank, made),
              e,
              offset_strides first idx c.segment_rank _ _ (λ k. refl)
                  ∙ axes_offset shape idx first c.segment_rank size start,
              position_below shape idx c.segment_rank h,
              λ k m. axes_set shape first c.segment_rank size k start m,
            )
        | no over ↦ inr (omega arith, to_array_over c v c.segment_rank rank (omega arith))
      ]
