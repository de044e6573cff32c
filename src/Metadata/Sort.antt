-- ===== src/Metadata/Sort.antt =====
-- `impl::hd_sort`: insertion sort in place.
pub mod Place
pub mod Laws
use sbio.Prelude.{
  ℕ, zero, suc, ◌+◌, ◌-◌, Bool, true, false, Option, none, some, List, length, get_elem?, get_or,
  set, if◌then◌else◌,
}
use sbio.Metadata.Order.{Less}

module _ {ℓ} {A : Type ℓ} ⦃o : Less A⦄ where
  -- The inner `while` with the write that follows it: entries after `temp` move up from position `j`.
  -- A read is always inside the list, and gives `temp` outside.
  pub shift : List A → A → ℕ → List A
  shift vec temp zero = set vec 0 temp
  shift vec temp (suc j) =
      if o.lt temp (get_or vec j temp)
      then shift (set vec (suc j) (get_or vec j temp)) temp j
      else set vec (suc j) temp

  -- The `for` with the rounds that are left, at position `i`.
  pub sort_rounds : ℕ → ℕ → List A → List A
  sort_rounds zero i vec = vec
  sort_rounds (suc n) i vec =
      sort_rounds n (i + 1) (elim (get_elem? vec i) [ none ↦ vec | some temp ↦ shift vec temp i ])

  -- The loop runs from position 1.
  pub hd_sort : List A → List A
  hd_sort vec = sort_rounds (length vec - 1) 1 vec
