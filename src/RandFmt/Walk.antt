-- ===== src/RandFmt/Walk.antt =====
-- What the walk along sub-blocks finds.
use sbio.Prelude.{
  ℕ, zero, suc, ◌+◌, ◌≡◌, ◌≢◌, refl, sym, inl, inr, false, Option, none, some, List, [], ◌∷◌,
  length, get_elem?, arith, ◌==◌, Option-cases,
}
use mathlib.Core.Path.{subst}
use sbio.RandFmt.{BlockType, Header, Content, Write, SubBlock, sizeof_header}
use sbio.RandFmt.Reader.{content_at, block_at, closest_block, data_block_at, find_block}
use sbio.RandFmt.Written.{AreNumbered, block_offset, header_of}

closest_data :
    (flags : ℕ) (file : List Write) (c : ℕ) (b : SubBlock)
    → b.block_type ≡ BlockType.data_block
    → closest_block file c (header_of flags b) ≡ c + sizeof_header + b.size
unfolding closest_block
closest_data flags file c b t = ground (arith, t)

-- The walk along sub-blocks that stand one behind the other finds the one with a number.
pub find_block_lem :
    (stray : ℕ → Option Header) (flags : ℕ) (file : List Write) (bs : List SubBlock) (k c i : ℕ)
    (b : SubBlock)
    → AreNumbered k bs
    → ((j : ℕ) (d : SubBlock)
        → get_elem? bs j ≡ some d
        → block_at stray file (block_offset bs c j) ≡ some (header_of flags d))
    → get_elem? bs i ≡ some b
    → find_block stray file (k + i) (length bs) c ≡ some (block_offset bs c i)
unfolding find_block closest_block
find_block_lem stray flags file [] k c i b a h q = absurd (ground arith)
find_block_lem stray flags file (d ∷ rest) k c zero b (t, n, s, a) h q =
    let here = h 0 d refl in ground (arith, here, t, n)
find_block_lem stray flags file (d ∷ rest) k c (suc i) b (t, n, s, a) h q =
    let here = h 0 d refl in
    let later =
      find_block_lem stray flags file rest (suc k) (c + sizeof_header + d.size) i b a
        (λ j. h (suc j)) q in
    let next = closest_data flags file c d t in
    let other : (k == k + suc i) ≡ false = ground arith in
    let shift : suc k + i ≡ k + suc i = omega arith in
    ground (
      arith,
      here,
      t,
      n,
      next,
      other,
      subst
          (λ m.
            find_block stray file m (length rest) (c + sizeof_header + d.size)
            ≡ some (block_offset rest (c + sizeof_header + d.size) i))
          shift later,
    )

pub data_block_at-some :
    (stray : ℕ → Option Header) (file : List Write) (start det_idx off o : ℕ) (hdr : Header)
    → stray (start + off) ≡ none
    → data_block_at stray file start hdr det_idx off ≡ some o
    → (o ≡ start + off)
      × (off ≢ 0)
      × (h : Header) × (content_at file o ≡ some (Content.header h))
      × (h.block_id ≡ det_idx)
unfolding data_block_at block_at
data_block_at-some stray file start det_idx off o hdr plain q =
    elim (Option-cases (content_at file (start + off))) [
      | inl z ↦ absurd (ground (arith, q, z, plain))
      | inr (Content.header h, z) ↦
          let same : start + off ≡ o = ground (arith, q, z) in
          (
            sym same,
            ground (arith, q),
            h,
            subst (λ x. content_at file x ≡ some (Content.header h)) same z,
            ground (arith, q, z),
          )
      | inr (Content.super_block s n, z) ↦ absurd (ground (arith, q, z, plain))
      | inr (Content.offset_table ts, z) ↦ absurd (ground (arith, q, z, plain))
      | inr (Content.payload p, z) ↦ absurd (ground (arith, q, z, plain))
    ]
