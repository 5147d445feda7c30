-- ===== src/MetadataAssembler/Tests.antt =====
-- The metadata assembler at concrete inputs: metadata of three bytes, which is one piece.
use tortor.Prelude.{
  ℕ, ◌≡◌, ◌↔◌, refl, ap, get_or, Bool, true, false, Option, none, some, List, [], ◌∷◌, length, All,
  arith,
}
use tortor.Prelude.Result.{ok, err}
use tortor.MetadataAssembler.{
  MetadataAssembler, new, add_piece, is_complete, next_missing_piece, out_of_bounds,
}
use tortor.MetadataAssembler.Complete.{IsValid, FirstMissing, new-IsValid, next_missing_piece_lem}
use tortor.MetadataAssembler.Content.{PieceOf, add_pieces, assembles_metadata}

abbrev start : MetadataAssembler
start = record {
  metadata_size = 3;
  buffer = 0 ∷ 0 ∷ 0 ∷ [];
  received_pieces = [];
  total_pieces = 1;
}

new-start : new 3 ≡ ok start
unfolding new
new-start = refl

start-IsValid : IsValid start
start-IsValid = (new-IsValid 3 start new-start).0

one_completes :
    (add_piece (add_pieces start ((0, 5 ∷ 6 ∷ 7 ∷ []) ∷ [])) 0 (5 ∷ 6 ∷ 7 ∷ [])).0 ≡ ok true
unfolding add_piece tortor.Prelude.Sets.insert
one_completes = refl

second_refused : (add_piece start 1 (5 ∷ [])).0 ≡ err out_of_bounds
unfolding add_piece
second_refused = refl

whole-PieceOf : PieceOf (5 ∷ 6 ∷ 7 ∷ []) 0 (5 ∷ 6 ∷ 7 ∷ [])
whole-PieceOf i h = ap (λ n. get_or (5 ∷ 6 ∷ 7 ∷ []) n 0) (omega arith)

assembles_metadata_example :
    (add_piece (add_pieces start ((0, 5 ∷ 6 ∷ 7 ∷ []) ∷ [])) 0 (5 ∷ 6 ∷ 7 ∷ [])).1.buffer
    ≡ 5 ∷ 6 ∷ 7 ∷ []
assembles_metadata_example =
    assembles_metadata (5 ∷ 6 ∷ 7 ∷ []) start ((0, 5 ∷ 6 ∷ 7 ∷ []) ∷ []) 0 (5 ∷ 6 ∷ 7 ∷ [])
      new-start (whole-PieceOf, tt) whole-PieceOf one_completes

next_missing_piece_lem_example :
    ((next_missing_piece start ≡ none) ↔ (is_complete start ≡ true))
    × ((next_missing_piece start ≡ some 0) ↔ FirstMissing start 0)
next_missing_piece_lem_example = next_missing_piece_lem start 0 start-IsValid
