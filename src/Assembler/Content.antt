-- ===== src/Assembler/Content.antt =====
-- What the buffer holds: blocks that are parts of a piece, added in any order and any number of
-- times, end in that piece.
use tortor.Prelude.{
  ℕ, zero, suc, ◌+◌, ◌-◌, ◌≤◌, ◌<◌, ◌≡◌, refl, sym, ap, ◌∙◌, inl, inr, Bool, true, false, ◌&&◌,
  ◌||◌, List, [], ◌∷◌, ltb, leb, Bool-cases, length as list_length, get_or, overwrite, arith, All,
}
use tortor.Prelude.Index.{get_or-overwrite, list-ext}
use tortor.Assembler.{
  BlockRequest, PieceAssembler, AssemblerState, complete, BlockClass, new, add_block, make_blocks,
}
use tortor.Assembler.Tiling.{Tiles, all_done, IsValid, new-IsValid}
use tortor.Prelude.Words.{u32_mod}
use tortor.Assembler.Keeps.{
  Marks, here, there, Classified, rejected, ignored, stored, add_block-Classified,
  add_block-IsValid,
}

-- Whether a complete block covers the byte `i`.
abbrev pub covered : List BlockRequest → ℕ → Bool
covered [] i = false
covered (b ∷ bs) i = b.completed && leb b.begin i && ltb i (b.begin + b.length) || covered bs i

-- The bytes of the complete blocks are those of `piece`.
pub record Holds (piece : List ℕ) (a : PieceAssembler) : Type 0 where
  pub total : list_length piece ≡ a.expected_length
  pub same : (i : ℕ) → covered a.blocks i ≡ true → get_or a.buffer i 0 ≡ get_or piece i 0

all_done-covered :
    (bs : List BlockRequest) (from to i : ℕ)
    → Tiles from bs to
    → all_done bs ≡ true
    → from ≤ i
    → i < to
    → covered bs i ≡ true
all_done-covered [] from to i t d lo hi = absurd (omega arith)
all_done-covered (b ∷ bs) from to i t d lo hi =
    ground (arith, all_done-covered bs (from + b.length) to i t.2)

Marks-covered :
    {begin len : ℕ} {bs bs' : List BlockRequest} (i : ℕ)
    → Marks begin len bs bs'
    → covered bs' i ≡ true
    → (covered bs i || leb begin i && ltb i (begin + len)) ≡ true
Marks-covered i (here b bs e l c) h = ground arith
Marks-covered i (there b m) h = ground (arith, Marks-covered i m)

new-none_covered : (total i count j : ℕ) → covered (make_blocks total i count) j ≡ false
unfolding make_blocks
new-none_covered total i zero j = refl
new-none_covered total i (suc count) j = new-none_covered total (i + 1) count j

pub new-Holds :
    (piece_index : ℕ) (piece : List ℕ) → Holds piece (new piece_index (list_length piece))
unfolding new
new-Holds piece_index piece = record {
  total = refl;
  same = λ i h. cc (h, new-none_covered (list_length piece) 0 _ i);
}

-- A block of the piece at `begin`.
abbrev pub PartOf : List ℕ → ℕ → List ℕ → Type 0
PartOf piece begin block =
    (i : ℕ) → i < list_length block → get_or block i 0 ≡ get_or piece (begin + i) 0

module _ (piece : List ℕ) (a : PieceAssembler) (begin : ℕ) (block : List ℕ) (v : IsValid a)
    (hp : Holds piece a) (part : PartOf piece begin block)
    (fits : begin + list_length block ≤ a.expected_length) where
  -- One stored block.
  stored-same :
      (bs' : List BlockRequest) (i : ℕ)
      → Marks begin (list_length block) a.blocks bs'
      → covered bs' i ≡ true
      → get_or (overwrite begin block a.buffer) i 0 ≡ get_or piece i 0
  stored-same bs' i m c =
      get_or-overwrite begin i block a.buffer (omega (arith, v.size))
      ∙ elim (Bool-cases (leb begin i && ltb i (begin + list_length block))) [
        | inl inside ↦ rw inside (
            part (i - begin) (ground (arith, inside))
            ∙ ap (λ n. get_or piece n 0)
                (let lo : begin ≤ i = ground (arith, inside) in omega arith))
        | inr outside ↦ rw outside (hp.same i (ground (arith, Marks-covered i m c)))
      ]

-- What a class of block does to a buffer that is in step with the piece.
Classified-Holds :
    (piece : List ℕ) (a : PieceAssembler) (begin : ℕ) (block : List ℕ) {c : BlockClass}
    {r : AssemblerState × PieceAssembler}
    → IsValid a
    → Holds piece a
    → PartOf piece begin block
    → Classified a begin block c r
    → IsValid r.1
    → Holds piece r.1 × ((buf : List ℕ) → r.0 ≡ complete buf → buf ≡ piece)
Classified-Holds piece a begin block v hp part (rejected e) v' = (hp, λ buf e. cc)
Classified-Holds piece a begin block v hp part ignored v' = (hp, λ buf e. cc)
Classified-Holds piece a begin block v hp part (stored {a' = a'} fits len m buffer state) v' =
    let step : (i : ℕ) → covered a'.blocks i ≡ true → get_or a'.buffer i 0 ≡ get_or piece i 0 =
      λ i c.
        ap (λ b. get_or b i 0) buffer
        ∙ stored-same piece a begin block v hp part fits a'.blocks i m c in
    (
      record { total = hp.total ∙ sym len; same = step },
      λ buf e. elim (Bool-cases (all_done a'.blocks)) [
        | inl done ↦
            let is_buf : a'.buffer ≡ buf = ground (arith, done, state, e) in
            sym is_buf
            ∙ list-ext a'.buffer piece (v'.size ∙ len ∙ sym hp.total) (λ i h. step i (
                all_done-covered a'.blocks 0 a'.expected_length i v'.tiles done (omega arith)
                  (omega (arith, v'.size))))
        | inr open_blocks ↦ ground (arith, open_blocks, state, e)
      ],
    )

-- Parts of a piece keep the buffer in step with it, and when the assembler completes, it returns
-- the piece itself.
pub add_block-Holds :
    (piece : List ℕ) (a : PieceAssembler) (begin : ℕ) (block : List ℕ)
    → IsValid a
    → Holds piece a
    → PartOf piece begin block
    → Holds piece (add_block a begin block).1
      × ((buf : List ℕ) → (add_block a begin block).0 ≡ complete buf → buf ≡ piece)
add_block-Holds piece a begin block v hp part =
    Classified-Holds piece a begin block v hp part (add_block-Classified a begin block v)
      (add_block-IsValid a begin block v)

-- The calls of `add_block` that a peer session makes, in their order.
abbrev pub add_blocks : PieceAssembler → List (ℕ × List ℕ) → PieceAssembler
add_blocks a [] = a
add_blocks a ((begin, block) ∷ rest) = add_blocks (add_block a begin block).1 rest

add_blocks-Holds :
    (piece : List ℕ) (parts : List (ℕ × List ℕ)) (a : PieceAssembler)
    → IsValid a
    → Holds piece a
    → All (λ p. PartOf piece p.0 p.1) parts
    → IsValid (add_blocks a parts) × Holds piece (add_blocks a parts)
add_blocks-Holds piece [] a v hp all = (v, hp)
add_blocks-Holds piece ((begin, block) ∷ rest) a v hp all =
    add_blocks-Holds piece rest (add_block a begin block).1 (add_block-IsValid a begin block v)
      (add_block-Holds piece a begin block v hp all.0).0 all.1

-- From a new assembler of a piece below 2^32 bytes, whatever parts of the piece come, in any
-- order and with repetitions: if the next part completes it, the bytes returned are the piece.
pub assembles :
    (piece_index : ℕ) (piece : List ℕ) (parts : List (ℕ × List ℕ)) (begin : ℕ) (block buf : List ℕ)
    → list_length piece < u32_mod
    → All (λ p. PartOf piece p.0 p.1) parts
    → PartOf piece begin block
    → (add_block (add_blocks (new piece_index (list_length piece)) parts) begin block).0
      ≡ complete buf
    → buf ≡ piece
assembles piece_index piece parts begin block buf word all part e =
    let start =
      add_blocks-Holds piece parts (new piece_index (list_length piece))
        (new-IsValid piece_index (list_length piece) word) (new-Holds piece_index piece) all in
    (add_block-Holds piece (add_blocks (new piece_index (list_length piece)) parts) begin block
        start.0 start.1 part).1
      buf e
