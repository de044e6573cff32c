-- ===== src/RandFmt.antt =====
-- The random format: what `write_super_block` writes (formats/random/randfmt.cc), and how `RandomTraits`
-- reads it (formats/random/random_traits.hh). A file is the list of its writes, the last one first; a
-- read gives what was written last at an offset. The bytes of a payload are a number.
pub mod Reader
pub mod Written
pub mod Walk
pub mod RoundTrip
mod Tests
use sbio.Prelude.{
  ℕ, zero, suc, ◌+◌, ◌-◌, ◌*◌, ◌/◌, ◌%◌, ◌^◌, Bool, true, false, Option, none, some, List, [], ◌∷◌,
  length, ◌==◌, if◌then◌else◌,
}

pub data BlockType : Type 0 where
  super config metadata data_block index : BlockType

-- The magic bytes and the checksum are left out.
pub record Header : Type 0 where
  pub block_type : BlockType
  pub block_id : ℕ
  pub flags : ℕ
  pub payload_size : ℕ

-- What one write puts into the file.
pub data Content : Type 0 where
  header : Header → Content
  super_block : ℕ → ℕ → Content
  offset_table : List ℕ → Content
  payload : ℕ → Content

pub record Write : Type 0 where
  pub offset : ℕ
  pub size : ℕ
  pub content : Content

abbrev pub sizeof_header : ℕ
sizeof_header = 24

abbrev pub sizeof_super_block : ℕ
sizeof_super_block = 12

-- Bit 0 of the flags, `FormatFlags::SubBlockOffsetTable`.
abbrev pub has_sub_block_table : ℕ → Bool
has_sub_block_table flags = flags % 2 == 1

-- A sub-block as it is passed: its type, its identifier, its payload and the size of this.
pub record SubBlock : Type 0 where
  pub block_type : BlockType
  pub block_id : ℕ
  pub bytes : ℕ
  pub size : ℕ

abbrev pub total_size : List SubBlock → ℕ
total_size [] = 0
total_size (b ∷ rest) = b.size + total_size rest

pub super_payload_size : ℕ → List SubBlock → ℕ
super_payload_size flags blocks =
    (sizeof_super_block
      + length blocks * sizeof_header
      + (if has_sub_block_table flags then length blocks * 4 else 0)
      + total_size blocks)
    % 2 ^ 32

-- The loop over the sub-blocks, from an offset on.
pub write_blocks : ℕ → List SubBlock → ℕ → List Write → List Write × ℕ
write_blocks flags [] curr_offset file = (file, curr_offset)
write_blocks flags (b ∷ rest) curr_offset file =
    let hdr = header (record {
      block_type = b.block_type;
      block_id = b.block_id;
      flags = flags;
      payload_size = b.size;
    }) in
    write_blocks flags rest (curr_offset + sizeof_header + b.size) (
      record { offset = curr_offset + sizeof_header; size = b.size; content = payload b.bytes }
      ∷ record { offset = curr_offset; size = sizeof_header; content = hdr }
      ∷ file)

-- The offsets that the loop notes, from the start of the payload.
pub sub_blk_offsets : List SubBlock → ℕ → ℕ → List ℕ
sub_blk_offsets [] start curr_offset = []
sub_blk_offsets (b ∷ rest) start curr_offset =
    ((curr_offset - start) % 2 ^ 32)
    ∷ sub_blk_offsets rest start (curr_offset + sizeof_header + b.size)

pub write_super_block : ℕ → ℕ → List SubBlock → List Write × ℕ → List Write × ℕ
write_super_block seq_no flags blocks (file, curr_offset) =
    let super_hdr = header (record {
      block_type = super;
      block_id = 0;
      flags = flags;
      payload_size = super_payload_size flags blocks;
    }) in
    let start = curr_offset + sizeof_header in
    let first =
      start + sizeof_super_block + (if has_sub_block_table flags then length blocks * 4 else 0) in
    let (written, after) = write_blocks flags blocks first (
      record {
        offset = start;
        size = sizeof_super_block;
        content = super_block seq_no (length blocks);
      }
      ∷ record { offset = curr_offset; size = sizeof_header; content = super_hdr }
      ∷ file) in
    (
      if has_sub_block_table flags
          then record {
            offset = start + sizeof_super_block;
            size = length blocks * 4;
            content = offset_table (sub_blk_offsets blocks start first);
          }
            ∷ written
          else written,
      after,
    )
