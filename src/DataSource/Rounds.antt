-- ===== src/DataSource/Rounds.antt =====
-- A round of `merge_trigger`: what is left to read becomes less, or no stream was to be indexed.
use sbio.Prelude.{
  ℕ, ◌≤◌, ◌<◌, ◌≡◌, ◌≢◌, refl, sym, ap, ◌∙◌, inl, inr, true, false, ◌&&◌, List, [], ◌∷◌, length,
  arith, ltb, ◌==◌, Bool-cases, get_or, length-set, get_or-set_self, get_or-set_ne, ◌++◌, ◌⊎◌,
}
use mathlib.Core.Path.{subst}
use sbio.Io.{IoStatus, ok, ok_lem}
use sbio.Chronology.{
  ChronologicalOrder, set_exhausted, add, num_brokers, is_exhausted, size, next_ordinal_of,
  pending_of,
}
use sbio.DataSource.{
  StreamBroker, sum, is_zero_bytes_read, advance_chunk_if_done, skip_chunks, index_next, add_steps,
  add_indexed_steps, enter_indexed,
}

-- What a stream has left to read: to index never adds to it, and takes from it where it finds steps; the
-- next chunk is counted from the start.
pub record IsFinite {B C : Type 0} (ops : StreamBroker B C) (left : B → List C → ℕ) : Type 0 where
  pub index_less : (b : B) (cs : List C) → left (ops.index_stream b).1 cs ≤ left b cs
  pub index_steps :
      (b : B) (cs : List C)
      → (ops.index_stream b).0 ≡ IoStatus.success
      → (sum (ops.num_steps (ops.index_stream b).1) == 0) ≡ false
      → left (ops.index_stream b).1 cs < left b cs
  pub advance : (b : B) (c : C) (cs : List C) → left (ops.advance_chunk c b) cs ≤ left b (c ∷ cs)

-- The order keeps an entry for each stream.
pub record HasEntries (n : ℕ) (o : ChronologicalOrder) : Type 0 where
  pub entries : num_brokers o ≡ n
  pub flags : length o.exhausted ≡ n

module _ {B C : Type 0} (ops : StreamBroker B C) (left : B → List C → ℕ)
    (f : IsFinite ops left) where
  advance_less :
      (b : B) (cs : List C)
      → left (advance_chunk_if_done ops b cs).0 (advance_chunk_if_done ops b cs).1 ≤ left b cs
  unfolding advance_chunk_if_done
  advance_less b [] = omega arith
  advance_less b (c ∷ cs) = elim (Bool-cases (ops.chunk_complete b)) [
    | inl a ↦ rw a (f.advance b c cs)
    | inr a ↦ rw a (omega arith)
  ]

  -- After an index that has left `l`, more chunks leave no more than that, and less where the last index
  -- finds steps.
  skip_less :
      (l : ℕ) (status : IoStatus) (b : B) (cs : List C)
      → left b cs ≤ l
      → (status ≡ IoStatus.success → (sum (ops.num_steps b) == 0) ≡ false → left b cs < l)
      → let (st, b', cs') = skip_chunks ops status b cs in
        (left b' cs' ≤ l)
        × (st ≡ IoStatus.success → (sum (ops.num_steps b') == 0) ≡ false → left b' cs' < l)
  unfolding skip_chunks
  skip_less l status b [] h k = (h, k)
  skip_less l status b (c ∷ cs) h k =
      elim (Bool-cases (is_zero_bytes_read status && ops.chunk_complete b)) [
        | inl a ↦
            let b' = ops.advance_chunk c b in
            let x = f.advance b c cs in
            let y = f.index_less b' cs in
            rw a (
              skip_less l (ops.index_stream b').0 (ops.index_stream b').1 cs (omega arith)
                (λ e z. omega (arith, f.index_steps b' cs e z)))
        | inr a ↦ rw a (h, k)
      ]

  pub index_next_less :
      (b : B) (cs : List C)
      → let (st, b', cs') = index_next ops b cs in
        (left b' cs' ≤ left b cs)
        × (st ≡ IoStatus.success → (sum (ops.num_steps b') == 0) ≡ false → left b' cs' < left b cs)
  unfolding index_next
  index_next_less b cs =
      let (b', cs') = advance_chunk_if_done ops b cs in
      let x = advance_less b cs in
      let y = f.index_less b' cs' in
      skip_less (left b cs) (ops.index_stream b').0 (ops.index_stream b').1 cs' (omega arith)
        (λ e z. omega (arith, f.index_steps b' cs' e z))

-- Steps are entered without a change to the flags.
pub add_steps-exhausted :
    {B C : Type 0} (ops : StreamBroker B C) (n : ℕ) (steps : List (ℕ × ℕ)) (o : ChronologicalOrder)
    → ((add_steps ops n steps o).exhausted ≡ o.exhausted)
      × (num_brokers (add_steps ops n steps o) ≡ num_brokers o)
      × (size (add_steps ops n steps o) ≡ size o)
unfolding add_steps num_brokers add size
add_steps-exhausted ops n [] o = (refl, refl, refl)
add_steps-exhausted ops n ((ordinal, key) ∷ rest) o =
    let (e, l, i) = add_steps-exhausted ops n rest (add o n ordinal key) in
    let (g, m, j) = add-exhausted o ordinal key in (e ∙ g, l ∙ m, i ∙ j)
  where
    add-exhausted :
        (o : ChronologicalOrder) (ordinal key : ℕ)
        → ((add o n ordinal key).exhausted ≡ o.exhausted)
          × (length (add o n ordinal key).pending ≡ length o.pending)
          × (length (add o n ordinal key).order ≡ length o.order)
    add-exhausted o ordinal key = elim (Bool-cases (ltb ordinal (next_ordinal_of o n))) [
      | inl a ↦ (ground arith, ground arith, ground arith)
      | inr a ↦ (
        ground arith,
        ground (arith, length-set o.pending n (pending_of o n ++ (ordinal, key) ∷ [])),
        ground arith,
      )
    ]

module _ {B C : Type 0} (ops : StreamBroker B C) (n : ℕ) (status : IoStatus) (b : B)
    (o : ChronologicalOrder) where
  -- Steps were found and entered, or the stream is done with.
  enter_indexed_cases :
      ((enter_indexed ops n status b o ≡ add_steps ops n (ops.steps b) o)
        × (status ≡ IoStatus.success)
        × ((sum (ops.num_steps b) == 0) ≡ false))
      ⊎ (enter_indexed ops n status b o ≡ set_exhausted o n)
  unfolding enter_indexed add_indexed_steps
  enter_indexed_cases = elim (Bool-cases (ok status)) [
    | inr a ↦ inr (ground arith)
    | inl a ↦ elim (Bool-cases (sum (ops.num_steps b) == 0)) [
      | inl c ↦ inr (ground arith)
      | inr c ↦ inl (ground arith, ok_lem status a, c)
    ]
  ]

  pub enter_indexed-HasEntries :
      (k : ℕ) → HasEntries k o → HasEntries k (enter_indexed ops n status b o)
  unfolding set_exhausted num_brokers
  enter_indexed-HasEntries k h = elim enter_indexed_cases [
    | inl (e, _, _) ↦
        let (x, l, _) = add_steps-exhausted ops n (ops.steps b) o in
        subst (HasEntries k) (sym e)
          (record { entries = l ∙ h.entries; flags = ap length x ∙ h.flags })
    | inr e ↦
        subst (HasEntries k) (sym e)
          (record { entries = h.entries; flags = length-set o.exhausted n true ∙ h.flags })
  ]

  pub enter_indexed-size : size (enter_indexed ops n status b o) ≡ size o
  unfolding set_exhausted size
  enter_indexed-size = elim enter_indexed_cases [
    | inl (e, _, _) ↦ ap size e ∙ (add_steps-exhausted ops n (ops.steps b) o).2
    | inr e ↦ ap size e
  ]

  -- The flags of the others stay, and its own is set unless steps were found.
  pub enter_indexed_other :
      (m : ℕ) → n ≢ m → is_exhausted (enter_indexed ops n status b o) m ≡ is_exhausted o m
  unfolding is_exhausted set_exhausted
  enter_indexed_other m d = elim enter_indexed_cases [
    | inl (e, _, _) ↦
        ap (λ x. is_exhausted x m) e
        ∙ ap (λ x. get_or x m false) (add_steps-exhausted ops n (ops.steps b) o).0
    | inr e ↦ ap (λ x. is_exhausted x m) e ∙ get_or-set_ne o.exhausted n m true false d
  ]

  pub enter_indexed_own :
      n < length o.exhausted
      → is_exhausted (enter_indexed ops n status b o) n ≡ false
      → (status ≡ IoStatus.success) × ((sum (ops.num_steps b) == 0) ≡ false)
  unfolding is_exhausted set_exhausted
  enter_indexed_own l v = elim enter_indexed_cases [
    | inl (_, s, r) ↦ (s, r)
    | inr e ↦
        absurd (
          clash (sym v ∙ ap (λ x. is_exhausted x n) e ∙ get_or-set_self o.exhausted n true false l))
  ]
    where
      clash : false ≡ true → ⊥
      clash e = cc
