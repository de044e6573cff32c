-- ===== src/Xtc1.antt =====
-- The XTC1 format's nested containers: `inspect_xtc1` (formats/xtc1/traversal.cc) with the registration of
-- detectors (formats/xtc1/traversal.hh), and `find_xtc_by_type` (formats/xtc1/xtc1.cc) with its use in `resolve_data`. A datagram is the
-- function that gives the header at each offset from its start; `none` is the end of the fuel.
pub mod Tree
mod Tests
use sbio.Prelude.{
  ℕ, zero, suc, ◌+◌, ◌-◌, ◌/◌, ◌%◌, ◌^◌, Bool, true, false, not, ◌&&◌, ◌||◌, Option, none, some,
  List, [], ◌∷◌, ◌++◌, ltb, leb, ◌==◌, if◌then◌else◌,
}
use sbio.Broker.Cache.{PayloadOffsetCache, find, store}

pub record Src : Type 0 where
  pub log : ℕ
  pub phy : ℕ

-- The header of an Xtc; `id` and `version` are the two halves of `contains`.
pub record Xtc : Type 0 where
  pub damage : ℕ
  pub src : Src
  pub id : ℕ
  pub version : ℕ
  pub extent : ℕ

abbrev pub sizeof_xtc : ℕ
sizeof_xtc = 20

abbrev pub id_xtc : ℕ
id_xtc = 1

abbrev pub id_control_config : ℕ
id_control_config = 10

-- A 32-bit word read as an int, where a negative one counts as 0: both are below the size of a header.
abbrev pub to_int : ℕ → ℕ
to_int w = if ltb (w % 2 ^ 32) (2 ^ 31) then w % 2 ^ 32 else 0

abbrev pub sizeof_payload : Xtc → ℕ
sizeof_payload x = to_int (x.extent + 2 ^ 32 - sizeof_xtc)

-- Bit 1 of the damage, `Damage::DroppedContribution`.
abbrev pub is_dropped : Xtc → Bool
is_dropped x = x.damage / 2 % 2 == 1

abbrev pub level : Src → ℕ
level src = src.log / 2 ^ 24 % 2 ^ 8

-- What is kept of a detector. Its name_id is one more than its place in the list.
pub record Detector : Type 0 where
  pub src : Src
  pub id : ℕ
  pub segment : ℕ
  pub offset : ℕ

abbrev pub same_src : Src → Src → Bool
same_src a b = (a.phy == b.phy) && (a.log == b.log)

pub is_registered : List Detector → Src → Bool
is_registered [] src = false
is_registered (d ∷ rest) src = same_src d.src src || is_registered rest src

-- Levels 1 and 6 are Source and Reporter.
pub is_detector : Xtc → Bool
is_detector x = (level x.src == 1) || (level x.src == 6) || (x.id == id_control_config)

pub add_detector : Xtc → ℕ → List Detector → List Detector
add_detector x offset detectors =
    if not (is_detector x)
    then detectors
    else if is_registered detectors x.src
    then detectors
    else detectors
      ++ record {
        src = x.src;
        id = x.id;
        segment = if x.id == id_control_config then 0 else x.src.phy % 2 ^ 8;
        offset = offset;
      }
        ∷ []

pub is_target : ℕ → ℕ → ℕ → Xtc → Bool
is_target target src_log src_phy x =
    (x.id == target)
    && (((src_log == 0) && (src_phy == 0)) || ((x.src.log == src_log) && (x.src.phy == src_phy)))

-- What is kept of a field; an `event_type` of 0 is a field of the configuration.
pub record FieldMetadata : Type 0 where
  pub config_offset : ℕ
  pub event_type : ℕ
  pub src_log : ℕ
  pub src_phy : ℕ

pub matches : FieldMetadata → Xtc → Bool
matches meta x =
    (x.id == meta.event_type) && ((x.src.log == meta.src_log) && (x.src.phy == meta.src_phy))

-- The offset of the Xtc of a datagram, behind its Sequence and its Env.
abbrev pub first_xtc : ℕ
first_xtc = 20

module _ (buffer : ℕ → Xtc) where
  -- The Xtc at `pos`, whose offset is reported as `current_offset`, and the loop over the children of
  -- which the first is at `pos`.
  mutual
    pub inspect_xtc1 : ℕ → ℕ → ℕ → List Detector → Option (List Detector)
    inspect_xtc1 zero pos current_offset collector = none
    inspect_xtc1 (suc n) pos current_offset collector =
        let children =
          inspect_children n (pos + sizeof_xtc) ((current_offset + sizeof_xtc) % 2 ^ 32)
            (sizeof_payload (buffer pos)) collector in
        if is_dropped (buffer pos)
        then some collector
        else if (buffer pos).id == id_xtc
        then children
        else some (add_detector (buffer pos) current_offset collector)

    pub inspect_children : ℕ → ℕ → ℕ → ℕ → List Detector → Option (List Detector)
    inspect_children zero pos child_offset remaining collector = none
    inspect_children (suc n) pos child_offset remaining collector =
        let this = inspect_xtc1 n pos child_offset collector in
        if not (leb sizeof_xtc remaining)
        then some collector
        else if ltb (buffer pos).extent sizeof_xtc
        then some collector
        else elim this [
          | none ↦ none
          | some collector' ↦
              inspect_children n (pos + (buffer pos).extent)
                ((child_offset + (buffer pos).extent) % 2 ^ 32)
                (to_int (remaining + 2 ^ 32 - (buffer pos).extent)) collector'
        ]

  -- The inner `none` is the null pointer.
  mutual
    pub find_xtc_by_type : ℕ → (Xtc → Bool) → ℕ → Option (Option ℕ)
    find_xtc_by_type zero wanted pos = none
    find_xtc_by_type (suc n) wanted pos =
        let children =
          find_in_children n wanted (pos + sizeof_xtc)
            (pos + sizeof_xtc + sizeof_payload (buffer pos)) in
        if ltb (buffer pos).extent sizeof_xtc || is_dropped (buffer pos)
        then some none
        else if wanted (buffer pos)
        then some (some pos)
        else if (buffer pos).id == id_xtc
        then children
        else some none

    pub find_in_children : ℕ → (Xtc → Bool) → ℕ → ℕ → Option (Option ℕ)
    find_in_children zero wanted p end = none
    find_in_children (suc n) wanted p end =
        let this = find_xtc_by_type n wanted p in
        if not (leb (p + sizeof_xtc) end)
        then some none
        else if ltb (buffer p).extent sizeof_xtc
        then some none
        else elim this [
          | none ↦ none
          | some (some found) ↦ some (some found)
          | some none ↦ find_in_children n wanted (p + (buffer p).extent) end
        ]

  -- An offset that was found in an earlier datagram, if it fits this one; the second sum wraps.
  pub cached_xtc : FieldMetadata → ℕ → Option ℕ → Option ℕ
  cached_xtc meta dgram_size none = none
  cached_xtc meta dgram_size (some cached_offset) =
      if leb (cached_offset + sizeof_xtc) dgram_size
        && (matches meta (buffer cached_offset)
            && leb ((cached_offset + (buffer cached_offset).extent) % 2 ^ 32) dgram_size)
      then some cached_offset
      else none

  -- The Xtc that `resolve_data` reads a field from, with the cache after it.
  pub resolve_xtc :
      ℕ → FieldMetadata → ℕ → PayloadOffsetCache → Option (Option ℕ × PayloadOffsetCache)
  resolve_xtc n meta field_id cache =
      if meta.event_type == 0
      then some (some meta.config_offset, cache)
      else elim (cached_xtc meta (first_xtc + (buffer first_xtc).extent) (find field_id cache)) [
        | some cached ↦ some (some cached, cache)
        | none ↦
            elim (find_xtc_by_type n (is_target meta.event_type meta.src_log meta.src_phy)
              first_xtc) [
                | none ↦ none
                | some none ↦ some (none, cache)
                | some (some found) ↦ some (some found, store field_id (found % 2 ^ 32) cache)
              ]
      ]
