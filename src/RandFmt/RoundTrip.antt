-- ===== src/RandFmt/RoundTrip.antt =====
-- A super-block that is read back.
use sbio.Prelude.{ℕ, ◌+◌, ◌*◌, Option, none, some, List, ◌∷◌, length, if◌then◌else◌}
use sbio.Broker.Cache.{PayloadOffsetCache, find}
use sbio.RandFmt.{
  BlockType, Header, Content, Write, SubBlock, sizeof_header, sizeof_super_block,
  has_sub_block_table, super_payload_size, write_super_block,
}
use sbio.RandFmt.Written.{AreNumbered, IsFresh}

module _ (stray : ℕ → Option Header) (seq_no flags : ℕ) (blocks : List SubBlock) (c : ℕ)
    (file : List Write) (numbered : AreNumbered 0 blocks) (fresh : IsFresh file c) where
  abbrev start : ℕ
  start = c + sizeof_header

  abbrev first : ℕ
  first = start + sizeof_super_block + (if has_sub_block_table flags then length blocks * 4 else 0)

  abbrev super_hdr : Header
  super_hdr = record {
    block_type = BlockType.super;
    block_id = 0;
    flags = flags;
    payload_size = super_payload_size flags blocks;
  }

  abbrev before : List Write
  before =
      record {
        offset = start;
        size = sizeof_super_block;
        content = Content.super_block seq_no (length blocks);
      }
      ∷ record { offset = c; size = sizeof_header; content = Content.header super_hdr }
      ∷ file

  abbrev written : List Write × ℕ
  written = write_super_block seq_no flags blocks (file, c)

  abbrev cached_offset : ℕ → ℕ → PayloadOffsetCache → ℕ
  cached_offset field_id payload_offset cache = elim (find field_id cache) [
    | none ↦ payload_offset
    | some cached ↦ cached
  ]
