-- ===== src/Broker/Cache.antt =====
-- `PayloadOffsetCache` of core/state_handle.hh: the field offsets that a segment found last.
use sbio.Prelude.{ℕ, ◌%◌, ◌≡◌, ◌≢◌, Option, none, some, arith, ◌==◌, if◌then◌else◌}
use sbio.Broker.Index.{write}

pub record Slot : Type 0 where
  pub field_id : ℕ
  pub offset : ℕ

abbrev pub num_slots : ℕ
num_slots = 8

abbrev pub no_field : ℕ
no_field = 4294967295

-- The slots by their number, below `num_slots`.
abbrev pub PayloadOffsetCache : Type 0
PayloadOffsetCache = ℕ → Slot

pub empty_cache : PayloadOffsetCache
empty_cache i = record { field_id = no_field; offset = 0 }

pub find : ℕ → PayloadOffsetCache → Option ℕ
find field_id slots =
    let slot = slots (field_id % num_slots) in
    if slot.field_id == field_id then some slot.offset else none

pub store : ℕ → ℕ → PayloadOffsetCache → PayloadOffsetCache
store field_id offset slots =
    write slots (field_id % num_slots) (record { field_id = field_id; offset = offset })

-- Storing the offset of a field makes it found, leaves the fields of other slots as they were, and
-- takes the place of the other fields of its slot.
pub find-store :
    (id other offset : ℕ) (slots : PayloadOffsetCache)
    → (find id (store id offset slots) ≡ some offset)
      × (id % num_slots ≢ other % num_slots → find other (store id offset slots) ≡ find other slots)
      × (id ≢ other
          → id % num_slots ≡ other % num_slots
          → find other (store id offset slots) ≡ none)
unfolding find store
find-store id other offset slots = (ground arith, (λ h. ground arith), λ h k. ground arith)

-- An empty cache knows no field.
pub find-empty_cache : (id : ℕ) → id ≢ no_field → find id empty_cache ≡ none
unfolding find empty_cache
find-empty_cache id h = ground arith
