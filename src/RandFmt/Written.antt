-- ===== src/RandFmt/Written.antt =====
-- What is where after sub-blocks are written.
use sbio.Prelude.{
  ℕ, zero, suc, ◌+◌, ◌-◌, ◌*◌, ◌%◌, ◌^◌, ◌≤◌, ◌<◌, ◌≡◌, refl, sym, ap, ◌∙◌, none, some, List, [],
  ◌∷◌, length, get_elem?, arith, dec_le,
}
use sbio.RandFmt.{
  BlockType, Header, Content, Write, SubBlock, sizeof_header, total_size, write_blocks,
  sub_blk_offsets,
}
use sbio.RandFmt.Reader.{content_at}

-- Data blocks with their numbers as identifiers, from `k` on, that are not empty.
abbrev pub AreNumbered : ℕ → List SubBlock → Type 0
AreNumbered k [] = Unit
AreNumbered k (b ∷ rest) =
    (b.block_type ≡ BlockType.data_block)
    × (b.block_id ≡ k)
    × (0 < b.size)
    × AreNumbered (suc k) rest

-- The offset of sub-block `i` where the first one is at `curr_offset`.
abbrev pub block_offset : List SubBlock → ℕ → ℕ → ℕ
block_offset [] curr_offset i = curr_offset
block_offset (b ∷ rest) curr_offset zero = curr_offset
block_offset (b ∷ rest) curr_offset (suc i) =
    block_offset rest (curr_offset + sizeof_header + b.size) i

-- Nothing is written from an offset on.
abbrev pub IsFresh : List Write → ℕ → Type 0
IsFresh file offset = (o : ℕ) → offset ≤ o → content_at file o ≡ none

module _ (flags : ℕ) where
  abbrev pub header_of : SubBlock → Header
  header_of b = record {
    block_type = b.block_type;
    block_id = b.block_id;
    flags = flags;
    payload_size = b.size;
  }

  -- The file after one sub-block.
  abbrev with_block : SubBlock → ℕ → List Write → List Write
  with_block b c file =
      record { offset = c + sizeof_header; size = b.size; content = Content.payload b.bytes }
      ∷ record { offset = c; size = sizeof_header; content = Content.header (header_of b) }
      ∷ file

  pub write_blocks-offset :
      (bs : List SubBlock) (c : ℕ) (file : List Write)
      → (write_blocks flags bs c file).1 ≡ c + length bs * sizeof_header + total_size bs
  unfolding write_blocks
  write_blocks-offset [] c file = omega arith
  write_blocks-offset (b ∷ rest) c file =
      let i = write_blocks-offset rest (c + sizeof_header + b.size) (with_block b c file) in
      omega (arith, i)

  -- What stands before is kept.
  pub write_blocks_below :
      (bs : List SubBlock) (c o : ℕ) (file : List Write)
      → o < c
      → content_at (write_blocks flags bs c file).0 o ≡ content_at file o
  unfolding write_blocks content_at
  write_blocks_below [] c o file l = refl
  write_blocks_below (b ∷ rest) c o file l =
      write_blocks_below rest (c + sizeof_header + b.size) o (with_block b c file) (omega arith)
      ∙ ground arith

  block_here :
      (b : SubBlock) (c : ℕ) (file : List Write)
      → content_at (with_block b c file) c ≡ some (Content.header (header_of b))
  unfolding content_at
  block_here b c file = ground arith

  payload_here :
      (b : SubBlock) (c : ℕ) (file : List Write)
      → content_at (with_block b c file) (c + sizeof_header) ≡ some (Content.payload b.bytes)
  unfolding content_at
  payload_here b c file = ground arith

  -- Each sub-block has its header and its payload.
  pub write_blocks_at :
      (bs : List SubBlock) (k c i : ℕ) (b : SubBlock) (file : List Write)
      → AreNumbered k bs
      → get_elem? bs i ≡ some b
      → (content_at (write_blocks flags bs c file).0 (block_offset bs c i)
          ≡ some (Content.header (header_of b)))
        × (content_at (write_blocks flags bs c file).0 (block_offset bs c i + sizeof_header)
            ≡ some (Content.payload b.bytes))
  unfolding write_blocks
  write_blocks_at [] k c i b file a q = absurd (ground arith)
  write_blocks_at (d ∷ rest) k c (suc i) b file (t, n, s, a) q =
      write_blocks_at rest (suc k) (c + sizeof_header + d.size) i b (with_block d c file) a q
  write_blocks_at (d ∷ rest) k c zero b file (t, n, s, a) q =
      let same : d ≡ b = ground (arith, q) in
      let keep = λ (o : ℕ) (l : o < c + sizeof_header + d.size).
        write_blocks_below rest (c + sizeof_header + d.size) o (with_block d c file) l in
      (
        keep c (omega arith)
            ∙ block_here d c file
            ∙ ap (λ x. some (Content.header (header_of x))) same,
        keep (c + sizeof_header) (omega arith)
            ∙ payload_here d c file
            ∙ ap (λ x. some (Content.payload x.bytes)) same,
      )

  IsFresh-after :
      (b : SubBlock) (c : ℕ) (file : List Write)
      → 0 < b.size
      → IsFresh file c
      → IsFresh (with_block b c file) (c + sizeof_header + b.size)
  unfolding content_at
  IsFresh-after b c file s f o l = let g = f o (omega arith) in ground (arith, g)

  first_header :
      (b : SubBlock) (c o : ℕ) (h : Header) (file : List Write)
      → IsFresh file c
      → c ≤ o
      → content_at (with_block b c file) o ≡ some (Content.header h)
      → (o ≡ c) × (h ≡ header_of b)
  unfolding content_at
  first_header b c o h file f l q = ground (arith, f o l, q)

  -- A header from the first sub-block on is that of a sub-block.
  pub header-block_offset :
      (bs : List SubBlock) (k c o : ℕ) (h : Header) (file : List Write)
      → AreNumbered k bs
      → IsFresh file c
      → c ≤ o
      → content_at (write_blocks flags bs c file).0 o ≡ some (Content.header h)
      → (i : ℕ) × (b : SubBlock) × (get_elem? bs i ≡ some b)
        × (o ≡ block_offset bs c i)
        × (h ≡ header_of b)
        × (b.block_id ≡ k + i)
  unfolding write_blocks
  header-block_offset [] k c o h file a f l q = absurd (ground (arith, f o l, q))
  header-block_offset (b ∷ rest) k c o h file (t, n, s, a) f l q =
      elim (dec_le (c + sizeof_header + b.size) o) [
        | yes m ↦
            let (i, d, r, e, g, p) =
              header-block_offset rest (suc k) (c + sizeof_header + b.size) o h
                (with_block b c file) a (IsFresh-after b c file s f) m q in
            (suc i, d, r, e, g, omega (arith, p))
        | no m ↦
            let here =
              sym (
                write_blocks_below rest (c + sizeof_header + b.size) o (with_block b c file)
                  (omega arith))
              ∙ q in
            let (e, g) = first_header b c o h file f l here in (0, b, refl, e, g, omega (arith, n))
      ]

  pub sub_blk_offsets-block_offset :
      (bs : List SubBlock) (start c i : ℕ) (b : SubBlock)
      → get_elem? bs i ≡ some b
      → get_elem? (sub_blk_offsets bs start c) i ≡ some ((block_offset bs c i - start) % 2 ^ 32)
  unfolding sub_blk_offsets
  sub_blk_offsets-block_offset [] start c i b q = absurd (ground arith)
  sub_blk_offsets-block_offset (d ∷ rest) start c zero b q = refl
  sub_blk_offsets-block_offset (d ∷ rest) start c (suc i) b q =
      sub_blk_offsets-block_offset rest start (c + sizeof_header + d.size) i b q

  pub block_offset-bounds :
      (bs : List SubBlock) (c i : ℕ) (b : SubBlock)
      → get_elem? bs i ≡ some b
      → (c ≤ block_offset bs c i)
        × (block_offset bs c i + sizeof_header + b.size
            ≤ c + length bs * sizeof_header + total_size bs)
  block_offset-bounds [] c i b q = absurd (ground arith)
  block_offset-bounds (d ∷ rest) c zero b q =
      let same : d.size ≡ b.size = ground (arith, q) in (omega arith, omega (arith, same))
  block_offset-bounds (d ∷ rest) c (suc i) b q =
      let (l, m) = block_offset-bounds rest (c + sizeof_header + d.size) i b q in
      (omega (arith, l), omega (arith, m))
