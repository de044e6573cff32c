-- ===== src/RandFmt/Tests.antt =====
-- Two detectors in a super-block with an offset table.
use sbio.Prelude.{ℕ, Option, none, some, List, [], ◌∷◌, ◌==◌, if◌then◌else◌}
use sbio.RandFmt.{BlockType, Header, SubBlock, super_payload_size}

abbrev blocks : List SubBlock
blocks =
    record { block_type = BlockType.data_block; block_id = 0; bytes = 11; size = 8 }
    ∷ record { block_type = BlockType.data_block; block_id = 1; bytes = 22; size = 16 }
    ∷ []

abbrev super_hdr : Header
super_hdr = record {
  block_type = BlockType.super;
  block_id = 0;
  flags = 1;
  payload_size = super_payload_size 1 blocks;
}

-- The second payload begins with the bytes of a header.
abbrev stray : ℕ → Option Header
stray o = if o == 200 then some super_hdr else none
