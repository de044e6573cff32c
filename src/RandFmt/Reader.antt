-- ===== src/RandFmt/Reader.antt =====
-- `Block` of formats/random/randfmt.hh and `resolve_data` of formats/random/random_traits.hh.
use sbio.Prelude.{
  ℕ, zero, suc, ◌+◌, ◌-◌, ◌*◌, ◌%◌, ◌^◌, Bool, true, false, not, ◌&&◌, ◌||◌, Option, none, some,
  List, [], ◌∷◌, get_elem?, leb, ◌==◌, if◌then◌else◌,
}
use sbio.Broker.Cache.{PayloadOffsetCache, find, store}
use sbio.RandFmt.{
  BlockType, Header, Content, Write, sizeof_header, sizeof_super_block, has_sub_block_table,
}

-- What was written last at an offset.
unfoldable pub content_at : List Write → ℕ → Option Content
content_at [] offset = none
content_at (w ∷ rest) offset = if w.offset == offset then some w.content else content_at rest offset

-- The block at an offset, if its magic bytes are right. Where no header was written, it is what the
-- bytes there read as, `stray`: a payload may have those of a header in it.
unfoldable pub block_at : (ℕ → Option Header) → List Write → ℕ → Option Header
block_at stray file offset = elim (content_at file offset) [
  | some (Content.header h) ↦ some h
  | _ ↦ stray offset
]

abbrev pub is_data : BlockType → Bool
is_data BlockType.data_block = true
is_data _ = false

abbrev pub is_super : BlockType → Bool
is_super BlockType.super = true
is_super _ = false

unfoldable pub unit_size : Header → ℕ
unit_size h = sizeof_header + h.payload_size

unfoldable pub num_blocks : List Write → ℕ → ℕ
num_blocks file offset = elim (content_at file offset) [
  | some (Content.super_block seq_no n) ↦ n
  | _ ↦ 0
]

-- The offset of the block that follows, or for a super-block of its first sub-block.
unfoldable pub closest_block : List Write → ℕ → Header → ℕ
closest_block file offset h =
    if is_super h.block_type
    then offset
      + sizeof_header
      + (sizeof_super_block
          + (if has_sub_block_table h.flags
              then num_blocks file (offset + sizeof_header) * 4
              else 0))
    else offset + sizeof_header + h.payload_size

-- An offset from the start of a super-block's payload, if a data block with the identifier is there.
unfoldable pub data_block_at : (ℕ → Option Header) → List Write → ℕ → Header → ℕ → ℕ → Option ℕ
data_block_at stray file start super_hdr det_idx off =
    if (off == 0) || leb super_hdr.payload_size off
    then none
    else elim (block_at stray file (start + off)) [
      | none ↦ none
      | some h ↦
          if is_data h.block_type && (h.block_id == det_idx) then some (start + off) else none
    ]

-- The loop over `n` sub-blocks.
unfoldable pub find_block : (ℕ → Option Header) → List Write → ℕ → ℕ → ℕ → Option ℕ
find_block stray file det_idx zero offset = none
find_block stray file det_idx (suc n) offset = elim (block_at stray file offset) [
  | none ↦ none
  | some h ↦
      let later = find_block stray file det_idx n (closest_block file offset h) in
      if is_data h.block_type && (h.block_id == det_idx) then some offset else later
]

-- The entry of the offset table; `none` is a read outside of it.
unfoldable pub table_entry : List Write → ℕ → ℕ → Option ℕ
table_entry file start i = elim (content_at file (start + sizeof_super_block)) [
  | some (Content.offset_table offsets) ↦ get_elem? offsets i
  | _ ↦ none
]

-- The offset of the block that `resolve_data` takes the data of a detector from, with the cache after
-- it, for a super-block at `base`. The inner `none` is an empty result, the outer one a read outside of
-- the table.
unfoldable pub resolve_block :
    (ℕ → Option Header)
    → List Write
    → ℕ
    → ℕ
    → ℕ
    → ℕ
    → PayloadOffsetCache
    → Option (Option ℕ × PayloadOffsetCache)
resolve_block stray file base det_idx field_id payload_offset cache =
    elim (block_at stray file base) [
      | none ↦ some (none, cache)
      | some super_hdr ↦
          let start = base + sizeof_header in
          let off : ℕ = elim (find field_id cache) [
            | none ↦ payload_offset
            | some cached ↦ cached
          ] in
          if not (is_super super_hdr.block_type)
          then some (none, cache)
          else elim (data_block_at stray file start super_hdr det_idx off) [
            | some offset ↦ some (some offset, cache)
            | none ↦
                if has_sub_block_table super_hdr.flags
                then elim (table_entry file start det_idx) [
                  | none ↦ none
                  | some blk_offset ↦
                      some (some (start + blk_offset), store field_id blk_offset cache)
                ]
                else elim (find_block stray file det_idx (num_blocks file start)
                    (closest_block file base super_hdr)) [
                      | none ↦ some (none, cache)
                      | some offset ↦
                          some (some offset, store field_id ((offset - start) % 2 ^ 32) cache)
                    ]
          ]
    ]
