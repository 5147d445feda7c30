-- ===== src/MetadataAssembler/Content.antt =====
-- What the buffer holds: pieces of one metadata, in any order and with repetitions, end in it.
use tortor.Prelude.{
  ℕ, ◌+◌, ◌-◌, ◌*◌, ◌/◌, ◌≤◌, ◌<◌, ◌≡◌, sym, ap, ◌∙◌, inl, inr, Bool, true, false, ◌&&◌, List, [],
  ◌∷◌, ltb, leb, ◌==◌, Bool-cases, ≢→==, le→leb, lt→ltb, length, All, get_or, arith,
}
use tortor.Prelude.Sets.{contains, contains-insert}
use tortor.Prelude.Index.{get_or-overwrite, list-ext}
use tortor.Prelude.Result.{Result, ok}
use tortor.MetadataAssembler.{
  MetadataAssembler, MetadataError, piece_size, new, piece_end, store_piece, add_piece,
}
use tortor.MetadataAssembler.Complete.{
  IsValid, new-IsValid, piece_len, Added, beyond, wrong_size, stored, add_piece-Added,
  add_piece-IsValid, is_complete_iff,
}

-- The received pieces of the buffer are those of `metadata`.
pub record Holds (metadata : List ℕ) (m : MetadataAssembler) : Type 0 where
  pub total : length metadata ≡ m.metadata_size
  pub same :
      (i : ℕ)
      → i < m.metadata_size
      → contains (i / piece_size) m.received_pieces ≡ true
      → get_or m.buffer i 0 ≡ get_or metadata i 0

-- The bytes are those of the piece at its place in the metadata.
abbrev pub PieceOf : List ℕ → ℕ → List ℕ → Type 0
PieceOf metadata piece bytes =
    (i : ℕ) → i < length bytes → get_or bytes i 0 ≡ get_or metadata (piece * piece_size + i) 0

piece_end_lem :
    (m : MetadataAssembler) (piece : ℕ)
    → (piece_end m piece ≤ piece * piece_size + piece_size)
      × (piece_end m piece ≤ m.metadata_size)
      × ((i : ℕ) → i < m.metadata_size → i / piece_size ≡ piece → i < piece_end m piece)
unfolding piece_end
piece_end_lem m piece = (ground arith, ground arith, λ i h e. ground arith)

store_piece-Holds :
    (metadata : List ℕ) (m : MetadataAssembler) (piece : ℕ) (bytes : List ℕ)
    → IsValid m
    → Holds metadata m
    → PieceOf metadata piece bytes
    → piece < m.total_pieces
    → length bytes ≡ piece_len m piece
    → Holds metadata (store_piece m piece bytes)
unfolding store_piece
store_piece-Holds metadata m piece bytes v hd part h l =
    let ends = piece_end_lem m piece in
    let in_buffer : piece * piece_size + length bytes ≤ length m.buffer =
      omega (arith, v.size, v.total, v.positive) in
    record {
      total = hd.total;
      same = λ i lt c.
          get_or-overwrite (piece * piece_size) i bytes m.buffer in_buffer
          ∙ elim (Bool-cases
              (leb (piece * piece_size) i && ltb i (piece * piece_size + length bytes))) [
                | inl inside ↦
                    let lo : piece * piece_size ≤ i = ground (arith, inside) in
                    let hi : i < piece * piece_size + length bytes = ground (arith, inside) in
                    rw inside (
                      part (i - piece * piece_size) (omega arith)
                      ∙ ap (λ n. get_or metadata n 0) (omega arith))
                | inr outside ↦
                    let other : (i / piece_size == piece) ≡ false = ≢→== _ _ (λ e.
                      let hi = ends.2 i lt e in
                      let inside : (leb (piece * piece_size) i
                            && ltb i (piece * piece_size + length bytes))
                          ≡ true =
                        rw (
                          le→leb (piece * piece_size) i (omega arith),
                          lt→ltb i (piece * piece_size + length bytes) (omega arith),
                        ) in
                      cc (inside, outside)) in
                    rw outside (
                      hd.same i lt (
                        ground (
                          arith,
                          contains-insert piece (i / piece_size) m.received_pieces,
                          c,
                          other,
                        )))
              ];
    }

-- Pieces of the metadata keep the buffer in step with it, and once the assembler is complete the
-- buffer is the metadata itself.
pub add_piece-Holds :
    (metadata : List ℕ) (m : MetadataAssembler) (piece : ℕ) (bytes : List ℕ)
    → IsValid m
    → Holds metadata m
    → PieceOf metadata piece bytes
    → Holds metadata (add_piece m piece bytes).1
      × ((add_piece m piece bytes).0 ≡ ok true → (add_piece m piece bytes).1.buffer ≡ metadata)
add_piece-Holds metadata m piece bytes v hd part =
    by_case (add_piece-Added m piece bytes) (add_piece-IsValid m piece bytes v)
  where
    by_case :
        {r : Result MetadataError Bool × MetadataAssembler}
        → Added m piece bytes r
        → IsValid r.1
        → Holds metadata r.1 × (r.0 ≡ ok true → r.1.buffer ≡ metadata)
    by_case (beyond h) v' = (hd, λ e. cc)
    by_case (wrong_size h n) v' = (hd, λ e. cc)
    by_case (stored h l) v' =
        let held = store_piece-Holds metadata m piece bytes v hd part h l in
        let m' = store_piece m piece bytes in
        (
          held,
          λ e.
              let all = (is_complete_iff m' v').0 (cc) in
              list-ext m'.buffer metadata (v'.size ∙ sym held.total) (λ i lt.
                held.same i (omega (arith, v'.size))
                  (all (i / piece_size) (omega (arith, v'.size, v'.total)))),
        )

-- The calls of `add_piece` for the pieces that peers send, in their order.
abbrev pub add_pieces : MetadataAssembler → List (ℕ × List ℕ) → MetadataAssembler
add_pieces m [] = m
add_pieces m ((piece, bytes) ∷ rest) = add_pieces (add_piece m piece bytes).1 rest

add_pieces-Holds :
    (metadata : List ℕ) (pieces : List (ℕ × List ℕ)) (m : MetadataAssembler)
    → IsValid m
    → Holds metadata m
    → All (λ p. PieceOf metadata p.0 p.1) pieces
    → IsValid (add_pieces m pieces) × Holds metadata (add_pieces m pieces)
add_pieces-Holds metadata [] m v hd all = (v, hd)
add_pieces-Holds metadata ((piece, bytes) ∷ rest) m v hd all =
    add_pieces-Holds metadata rest (add_piece m piece bytes).1 (add_piece-IsValid m piece bytes v)
      (add_piece-Holds metadata m piece bytes v hd all.0).0 all.1

-- From a new assembler of the right size, whatever pieces of the metadata come, in any order and
-- with repetitions: once the next one is reported to complete it, the buffer is the metadata.
pub assembles_metadata :
    (metadata : List ℕ) (m : MetadataAssembler) (pieces : List (ℕ × List ℕ)) (piece : ℕ)
    (bytes : List ℕ)
    → new (length metadata) ≡ ok m
    → All (λ p. PieceOf metadata p.0 p.1) pieces
    → PieceOf metadata piece bytes
    → (add_piece (add_pieces m pieces) piece bytes).0 ≡ ok true
    → (add_piece (add_pieces m pieces) piece bytes).1.buffer ≡ metadata
assembles_metadata metadata m pieces piece bytes e all part done =
    let start = new-IsValid (length metadata) m e in
    let held =
      add_pieces-Holds metadata pieces m start.0
        (record { total = sym start.1; same = λ i lt c. cc (start.2, c) }) all in
    (add_piece-Holds metadata (add_pieces m pieces) piece bytes held.0 held.1 part).1 done
