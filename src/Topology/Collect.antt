-- ===== src/Topology/Collect.antt =====
-- `build_topology` of core/topology.hh up to the sorting: the segments of a group are collected from the
-- inventories of the StreamBrokers.
pub mod Complete
pub mod Patterns
use sbio.Prelude.{
  ℕ, zero, suc, ◌+◌, ◌-◌, ◌≤◌, ◌<◌, ◌≡◌, ◌≢◌, refl, sym, ap, ◌∙◌, Bool, true, false, not, ◌&&◌,
  ◌||◌, Option, none, some, List, [], ◌∷◌, ◌++◌, length, length-append, arith, inl, inr, ltb, leb,
  ◌==◌, if◌then◌else◌, Bool-cases, All, All-snoc,
}
use sbio.Metadata.Keys.{Name}
use sbio.Metadata.Inventory.{Inventory}
use sbio.Metadata.Inventory.Access.{entry_matches, metadata_for, num_entries, is_wildcard}
use sbio.Metadata.Names.{c_str}
use sbio.Topology.{SegmentRef}

-- A StreamBroker as the topology sees it.
pub record Broker (F : Type 0) : Type 0 where
  pub metadata : Inventory F
  pub stream_idx : ℕ

-- The segments found so far with the stream indices of their StreamBrokers, and the group's type, which
-- is `none` while it is unknown.
pub record Found : Type 0 where
  pub segments : List SegmentRef
  pub stream_indices : List ℕ
  pub final_type : Option (List ℕ)

-- Whether a segment of the StreamBroker is there already.
unfoldable pub is_duplicate : List SegmentRef → ℕ → ℕ → Bool
is_duplicate [] broker seg_no = false
is_duplicate (s ∷ ss) broker seg_no =
    ((s.broker == broker) && (s.format_segment_id == seg_no)) || is_duplicate ss broker seg_no

unfoldable pub new_segment : ℕ → ℕ → ℕ → SegmentRef
new_segment broker seg_no ptn = record {
  broker = broker;
  format_segment_id = seg_no;
  logical_slot = 0;
  access_ptn = ptn;
}

-- A type that reads `unknown` leaves the group's type unknown.
unfoldable pub type_after : Option (List ℕ) → (List ℕ → Bool) → List ℕ → Option (List ℕ)
type_after (some final) is_unknown type = some final
type_after none is_unknown type = if is_unknown type then none else some type

abbrev is_unknown : List ℕ → Bool
is_unknown type = eq_text type (117 ∷ 110 ∷ 107 ∷ 110 ∷ 111 ∷ 119 ∷ 110 ∷ [])
  where
    eq_text : List ℕ → List ℕ → Bool
    eq_text [] [] = true
    eq_text [] (y ∷ ys) = false
    eq_text (x ∷ xs) [] = false
    eq_text (x ∷ xs) (y ∷ ys) = (x == y) && eq_text xs ys

module _ {F : Type 0} (size max_segments : ℕ) (name : List ℕ) where
  -- An entry of an inventory that matches is entered, if it is none of a segment that was found.
  unfoldable pub enter : ℕ → ℕ → ℕ → Broker F → ℕ → Found → Found
  enter ptn b e broker seg_no found =
      if is_duplicate found.segments b seg_no then found else record {
        segments = found.segments ++ new_segment b seg_no ptn ∷ [];
        stream_indices = found.stream_indices ++ broker.stream_idx ∷ [];
        final_type =
            type_after found.final_type is_unknown (c_str (metadata_for size e broker.metadata).0);
      }

  unfoldable pub visit_entry : ℕ → ℕ → ℕ → Broker F → Found → Found
  visit_entry ptn b e broker found =
      if entry_matches e name ptn broker.metadata || is_wildcard name
      then enter ptn b e broker (metadata_for size e broker.metadata).1 found
      else found

  -- The loop over the entries, with those that are left.
  unfoldable pub visit_entries : ℕ → ℕ → ℕ → ℕ → Broker F → Found → Found
  visit_entries zero e ptn b broker found = found
  visit_entries (suc n) e ptn b broker found =
      if ltb (length found.segments) max_segments
      then visit_entries n (e + 1) ptn b broker (visit_entry ptn b e broker found)
      else found

  unfoldable pub visit_brokers : List (Broker F) → ℕ → ℕ → Found → Found
  visit_brokers [] b ptn found = found
  visit_brokers (broker ∷ brokers) b ptn found =
      if ltb (length found.segments) max_segments
      then visit_brokers brokers (b + 1) ptn
          (visit_entries (num_entries broker.metadata) 0 ptn b broker found)
      else found

  -- The loop over the access patterns that are left.
  unfoldable pub visit_patterns : ℕ → ℕ → List (Broker F) → Found → Found
  visit_patterns zero ptn brokers found = found
  visit_patterns (suc n) ptn brokers found =
      visit_patterns n (ptn + 1) brokers (visit_brokers brokers 0 ptn found)

  unfoldable pub collect : ℕ → List (Broker F) → Found
  collect ptn_count brokers =
      visit_patterns ptn_count 0 brokers
        (record { segments = []; stream_indices = []; final_type = none })

-- No two segments have the same StreamBroker and the same identifier.
abbrev pub IsDistinct : List SegmentRef → Type 0
IsDistinct [] = Unit
IsDistinct (s ∷ ss) = (is_duplicate ss s.broker s.format_segment_id ≡ false) × IsDistinct ss

-- What holds of the segments found: they are distinct, fit the group's arrays and each has its
-- StreamBroker's stream index.
pub record IsCollected (max_segments : ℕ) (found : Found) : Type 0 where
  pub distinct : IsDistinct found.segments
  pub within : length found.segments ≤ max_segments
  pub paired : length found.stream_indices ≡ length found.segments

pub is_duplicate-append :
    (ss : List SegmentRef) (t : SegmentRef) (b n : ℕ)
    → is_duplicate (ss ++ t ∷ []) b n
      ≡ (is_duplicate ss b n || ((t.broker == b) && (t.format_segment_id == n)))
unfolding is_duplicate
is_duplicate-append [] t b n = ground arith
is_duplicate-append (s ∷ ss) t b n = ground (arith, is_duplicate-append ss t b n)

snoc-IsDistinct :
    (ss : List SegmentRef) (t : SegmentRef)
    → IsDistinct ss
    → is_duplicate ss t.broker t.format_segment_id ≡ false
    → IsDistinct (ss ++ t ∷ [])
unfolding is_duplicate
snoc-IsDistinct [] t d e = (refl, tt)
snoc-IsDistinct (s ∷ ss) t d e = (
  ground (arith, d.0, is_duplicate-append ss t s.broker s.format_segment_id),
  snoc-IsDistinct ss t d.1 (ground arith),
)

module _ {F : Type 0} (size max_segments : ℕ) (name : List ℕ) where
  visit_entry-IsCollected :
      (ptn b e : ℕ) (broker : Broker F) (found : Found)
      → length found.segments < max_segments
      → IsCollected max_segments found
      → IsCollected max_segments (visit_entry size max_segments name ptn b e broker found)
  unfolding visit_entry enter new_segment
  visit_entry-IsCollected ptn b e broker found l k =
      let n = (metadata_for size e broker.metadata).1 in
      elim (Bool-cases (entry_matches e name ptn broker.metadata || is_wildcard name)) [
        | inr a ↦ rw (visit_entry, a) k
        | inl a ↦ elim (Bool-cases (is_duplicate found.segments b n)) [
          | inl d ↦ rw (visit_entry, a, enter, d) k
          | inr d ↦
              rw (visit_entry, a, enter, d)
                (record {
                  distinct = snoc-IsDistinct found.segments (new_segment b n ptn) k.distinct d;
                  within = omega (arith, length-append found.segments (new_segment b n ptn ∷ []));
                  paired = omega (
                    arith,
                    k.paired,
                    length-append found.segments (new_segment b n ptn ∷ []),
                    length-append found.stream_indices (broker.stream_idx ∷ []),
                  );
                })
        ]
      ]

  visit_entries-IsCollected :
      (n e ptn b : ℕ) (broker : Broker F) (found : Found)
      → IsCollected max_segments found
      → IsCollected max_segments (visit_entries size max_segments name n e ptn b broker found)
  unfolding visit_entries
  visit_entries-IsCollected zero e ptn b broker found k = k
  visit_entries-IsCollected (suc n) e ptn b broker found k =
      elim (Bool-cases (ltb (length found.segments) max_segments)) [
        | inr a ↦ rw a k
        | inl a ↦ rw a (
            visit_entries-IsCollected n (e + 1) ptn b broker _
              (visit_entry-IsCollected ptn b e broker found (ground arith) k))
      ]

  visit_brokers-IsCollected :
      (brokers : List (Broker F)) (b ptn : ℕ) (found : Found)
      → IsCollected max_segments found
      → IsCollected max_segments (visit_brokers size max_segments name brokers b ptn found)
  unfolding visit_brokers
  visit_brokers-IsCollected [] b ptn found k = k
  visit_brokers-IsCollected (broker ∷ brokers) b ptn found k =
      elim (Bool-cases (ltb (length found.segments) max_segments)) [
        | inr a ↦ rw a k
        | inl a ↦ rw a (
            visit_brokers-IsCollected brokers (b + 1) ptn _
              (visit_entries-IsCollected (num_entries broker.metadata) 0 ptn b broker found k))
      ]

  visit_patterns-IsCollected :
      (n ptn : ℕ) (brokers : List (Broker F)) (found : Found)
      → IsCollected max_segments found
      → IsCollected max_segments (visit_patterns size max_segments name n ptn brokers found)
  unfolding visit_patterns
  visit_patterns-IsCollected zero ptn brokers found k = k
  visit_patterns-IsCollected (suc n) ptn brokers found k =
      visit_patterns-IsCollected n (ptn + 1) brokers _
        (visit_brokers-IsCollected brokers 0 ptn found k)

  -- The segments that are collected are distinct by their StreamBroker and identifier, fit the group,
  -- and have as many stream indices beside them.
  pub collect-IsCollected :
      (ptn_count : ℕ) (brokers : List (Broker F))
      → IsCollected max_segments (collect size max_segments name ptn_count brokers)
  unfolding collect
  collect-IsCollected ptn_count brokers =
      visit_patterns-IsCollected ptn_count 0 brokers _
        (record { distinct = tt; within = omega arith; paired = refl })
