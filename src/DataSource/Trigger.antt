-- ===== src/DataSource/Trigger.antt =====
-- `merge_trigger` returns, with more steps or with all streams at their ends.
use sbio.Prelude.{
  ℕ, zero, suc, ◌+◌, ◌<◌, ◌≡◌, refl, sym, ap, ◌∙◌, inl, inr, Bool, true, false, none, some, List,
  length, arith, ltb, Bool-cases,
}
use sbio.Chronology.{ChronologicalOrder, may_index, is_exhausted, front, merge, size}
use sbio.Chronology.Merging.{Merging, stop, take, merge_total, num_brokers-take_front}
use sbio.Chronology.Conserve.{size-merge}
use sbio.Chronology.Complete.{merge_complete}
use sbio.DataSource.{StreamBroker, DataSource, index_streams, merge_trigger}
use sbio.DataSource.Rounds.{IsFinite, HasEntries}
use sbio.DataSource.Measure.{measure, index_streams_lem}

-- Merging keeps the entries and the flags, and the order itself where it takes nothing.
pub Merging-HasEntries :
    {o o' : ChronologicalOrder} {j : ℕ} (k : ℕ) → Merging o j o' → HasEntries k o → HasEntries k o'
Merging-HasEntries k (stop s) h = h
Merging-HasEntries {o} k (take best e n m) h =
    let (x, y, _) = num_brokers-take_front o best in
    Merging-HasEntries k m (record { entries = x ∙ h.entries; flags = ap length y ∙ h.flags })

Merging-zero : {o o' : ChronologicalOrder} {j : ℕ} → Merging o j o' → j ≡ 0 → o' ≡ o
Merging-zero (stop s) z = refl
Merging-zero (take best e n m) z = cc

module _ {B C : Type 0} (ops : StreamBroker B C) (left : B → List C → ℕ)
    (f : IsFinite ops left) where
  -- More steps were merged, and the capacity is their number; or every stream is exhausted with nothing
  -- pending, and the capacity and the order are as before.
  pub record IsTriggered (ds : DataSource B C) (more : Bool) (ds' : DataSource B C) : Type 0 where
    pub grown :
        more ≡ true
        → (size ds.chronology < size ds'.chronology) × (ds'.steps_capacity ≡ size ds'.chronology)
    pub done :
        more ≡ false
        → (ds'.steps_capacity ≡ ds.steps_capacity)
          × (size ds'.chronology ≡ size ds.chronology)
          × ((b : ℕ)
              → b < length ds.streams
              → (front ds'.chronology b ≡ none) × (is_exhausted ds'.chronology b ≡ true))

  merge_trigger_loop :
      (k fuel : ℕ) (ds : DataSource B C)
      → length ds.streams ≡ k
      → HasEntries k ds.chronology
      → measure ops left f 0 ds.streams ds.chronology < fuel
      → (more : Bool) × (ds' : DataSource B C) × (merge_trigger ops fuel ds ≡ some (more, ds'))
        × IsTriggered ds more ds'
  unfolding merge_trigger
  merge_trigger_loop k zero ds n h l = absurd (omega arith)
  merge_trigger_loop k (suc fuel) ds n h l =
      let r = index_streams_lem ops left f k 0 ds.streams ds.chronology h (omega arith) in
      let (indexed, streams, o) = index_streams ops 0 ds.streams ds.chronology in
      let (merged, o', q, m) = merge_total o in
      let entries = Merging-HasEntries k m r.has_entries in
      let grows = size-merge o q in
      elim (Bool-cases (ltb 0 merged)) [
        | inl a ↦ (
          true,
          record { streams = streams; steps_capacity = size o'; chronology = o' },
          ground (arith, q, a),
          record { grown = λ e. (ground (arith, grows, r.size_kept, a), refl); done = λ e. cc },
        )
        | inr a ↦
            let same = Merging-zero m (none_merged merged a) in
            elim (Bool-cases indexed) [
              | inl b ↦
                  let next : DataSource B C = record {
                    streams = streams;
                    steps_capacity = ds.steps_capacity;
                    chronology = o';
                  } in
                  let (more, ds', e, t) =
                    merge_trigger_loop k fuel next (r.same_length ∙ n) entries
                      (ground (arith, same, r.less_indexed b)) in
                  (
                    more,
                    ds',
                    ground (arith, q, a, b, e),
                    carry next t (ap size same ∙ r.size_kept) r.same_length refl,
                  )
              | inr b ↦ (
                false,
                record { streams = streams; steps_capacity = ds.steps_capacity; chronology = o' },
                ground (arith, q, a, b),
                record {
                  grown = λ e. cc;
                  done = λ e. (
                    refl,
                    ap size (same ∙ r.unchanged b),
                    ended o o' (q ∙ ap (λ z. some (z, o')) (none_merged merged a)) same entries
                        (λ x u.
                          ap (λ z. may_index z x) (r.unchanged b) ∙ r.none_due b x (omega arith) u),
                  );
                },
              )
            ]
      ]
    where
      clash : false ≡ true → ⊥
      clash e = cc

      carry :
          (next : DataSource B C) {more : Bool} {ds' : DataSource B C}
          → IsTriggered next more ds'
          → size next.chronology ≡ size ds.chronology
          → length next.streams ≡ length ds.streams
          → next.steps_capacity ≡ ds.steps_capacity
          → IsTriggered ds more ds'
      carry next t e g c = record {
        grown = λ z. let (x, y) = t.grown z in (omega arith, y);
        done = λ z. let (x, y, w) = t.done z in (x ∙ c, y ∙ e, λ b u. w b (omega arith));
      }

      ended :
          (o o' : ChronologicalOrder)
          → merge o ≡ some (0, o')
          → o' ≡ o
          → HasEntries k o'
          → ((b : ℕ) → b < 0 + length ds.streams → may_index o b ≡ false)
          → (b : ℕ) → b < length ds.streams
          → (front o' b ≡ none) × (is_exhausted o' b ≡ true)
      ended o o' q same i due b u = elim (merge_complete o q) [
        | inl (c, x, w) ↦ absurd (
            clash (sym (due c (omega (arith, i.entries))) ∙ ap (λ z. may_index z c) (sym same) ∙ w))
        | inr g ↦ g b (omega (arith, i.entries))
      ]

      none_merged : (n : ℕ) → ltb 0 n ≡ false → n ≡ 0
      none_merged n a = ground arith

  -- For a DataSource with an entry in the order for each stream: once the streams have less to read than
  -- the fuel, counted with one for each that is not exhausted, the trigger returns. Where it returns
  -- true the order has grown, and the capacity is the number of steps in it; where it returns false,
  -- every stream is exhausted with nothing pending, and the number of steps and the capacity are as before.
  pub merge_trigger_lem :
      (fuel : ℕ) (ds : DataSource B C)
      → HasEntries (length ds.streams) ds.chronology
      → measure ops left f 0 ds.streams ds.chronology < fuel
      → (more : Bool) × (ds' : DataSource B C) × (merge_trigger ops fuel ds ≡ some (more, ds'))
        × IsTriggered ds more ds'
  merge_trigger_lem fuel ds h l = merge_trigger_loop (length ds.streams) fuel ds refl h l
