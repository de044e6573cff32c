-- ===== src/DataSource/Tests.antt =====
-- Two streams in memory, of which the second one is empty.
use sbio.Prelude.{
  ℕ, ◌+◌, ◌≤◌, ◌<◌, ◌≡◌, refl, Bool, ◌⊎◌, true, false, some, List, [], ◌∷◌, get_elem?, length,
  arith, ◌==◌,
}
use sbio.Io.{IoStatus, ok}
use sbio.Chronology.{create, is_exhausted, num_brokers, size}
use sbio.DataSource.{StreamBroker, DataSource, merge_trigger, discover_streams, discover_metadata}
use sbio.DataSource.Rounds.{IsFinite, HasEntries}
use sbio.DataSource.Entered.{IsEntered}
use sbio.DataSource.Discover.{IsMerged, discover_metadata_lem}
use sbio.DataSource.Trigger.{IsTriggered, merge_trigger_lem}

-- The batches to come, and the one that was indexed last.
abbrev Stream : Type 0
Stream = List (List (ℕ × ℕ)) × List (ℕ × ℕ)

abbrev index_stream : Stream → IoStatus × Stream
index_stream ([], current) = (IoStatus.zero_bytes_read, ([], current))
index_stream (batch ∷ rest, current) = (IoStatus.success, (rest, batch))

abbrev ops : StreamBroker Stream ℕ
ops = record {
  prepare = λ s. (IoStatus.success, s);
  index_stream = index_stream;
  capacity = λ s. length s.1;
  chunk_complete = λ s. false;
  advance_chunk = λ c s. s;
  num_steps = λ s. length s.1 ∷ [];
  steps = λ s. s.1;
}

abbrev left : Stream → List ℕ → ℕ
left s cs = length s.0

ops-IsFinite : IsFinite ops left
ops-IsFinite = record { index_less = less; index_steps = fewer; advance = λ s c cs. omega arith }
  where
    less : (s : Stream) (cs : List ℕ) → left (index_stream s).1 cs ≤ left s cs
    less ([], current) cs = omega arith
    less (batch ∷ rest, current) cs = omega arith

    fewer :
        (s : Stream) (cs : List ℕ)
        → (index_stream s).0 ≡ IoStatus.success
        → (length (index_stream s).1.1 + 0 == 0) ≡ false
        → left (index_stream s).1 cs < left s cs
    fewer ([], current) cs e n = cc
    fewer (batch ∷ rest, current) cs e n = omega arith

abbrev source : DataSource Stream ℕ
source = record {
  streams = ((((0, 5) ∷ (1, 7) ∷ []) ∷ [], []), []) ∷ (([], []), []) ∷ [];
  steps_capacity = 0;
  chronology = create 2;
}

source-HasEntries : HasEntries 2 (create 2)
unfolding create num_brokers
source-HasEntries = record { entries = refl; flags = refl }

-- Both streams have steps, and no order is there yet.
abbrev full : DataSource Stream ℕ
full = record {
  streams = ((((0, 5) ∷ (1, 7) ∷ []) ∷ [], []), []) ∷ ((((0, 6) ∷ []) ∷ [], []), []) ∷ [];
  steps_capacity = 0;
  chronology = create 0;
}

merge_trigger_lem_example :
    (more : Bool) × (ds : DataSource Stream ℕ) × (merge_trigger ops 8 source ≡ some (more, ds))
    × IsTriggered ops left ops-IsFinite source more ds
unfolding create is_exhausted
merge_trigger_lem_example =
    merge_trigger_lem ops left ops-IsFinite 8 source source-HasEntries (omega arith)

discover_metadata_lem_example :
    (status : IoStatus) × (ds : DataSource Stream ℕ) × (discover_metadata ops true full
      ≡ some (status, ds))
    × (((status ≡ IoStatus.success)
          × ((k : ℕ) (b : Stream) (cs : List ℕ)
              → get_elem? ds.streams k ≡ some (b, cs)
              → IsEntered ops ds.chronology k b)
          × HasEntries (length ds.streams) ds.chronology
          × IsMerged ds.chronology
          × (ds.steps_capacity ≡ size ds.chronology))
        ⊎ ((ok status ≡ false) × (ds.chronology ≡ create 0) × (ds.steps_capacity ≡ 0)))
unfolding discover_streams
discover_metadata_lem_example =
    discover_metadata_lem ops full
      (
        (omega arith, omega arith, (omega arith, omega arith, tt)),
        ((omega arith, omega arith, tt), tt),
      )
      (omega arith)
