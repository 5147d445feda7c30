-- ===== src/MetadataAssembler.antt =====
-- The ut_metadata assembler of src/core/metadata_assembler.rs.
pub mod Complete
pub mod Content
mod Tests
use package.tortor.Prelude.{
  ℕ, ◌+◌, ◌-◌, ◌*◌, Bool, true, false, not, ◌&&◌, ◌||◌, Option, List, [], if◌then◌else◌, ltb, leb,
  ◌==◌, length, replicate, overwrite,
}
use package.tortor.Prelude.Words.{div_ceil}
use package.tortor.Prelude.Sets.{contains, insert, find_range}
use package.tortor.Prelude.Result.{Result, ok, err}
use package.tortor.Bencode.{max_torrent_size}

abbrev pub piece_size : ℕ
piece_size = 16384

pub data MetadataError : Type 0 where
  unacceptable_size out_of_bounds invalid_piece_size : MetadataError

pub record MetadataAssembler : Type 0 where
  pub metadata_size : ℕ
  pub buffer : List ℕ
  pub received_pieces : List ℕ
  pub total_pieces : ℕ

unfoldable pub new : ℕ → Result MetadataError MetadataAssembler
new metadata_size =
    if metadata_size == 0 || ltb max_torrent_size metadata_size
    then err unacceptable_size
    else ok (record {
      metadata_size = metadata_size;
      buffer = replicate metadata_size 0;
      received_pieces = [];
      total_pieces = div_ceil metadata_size piece_size;
    })

unfoldable pub is_complete : MetadataAssembler → Bool
is_complete m = length m.received_pieces == m.total_pieces

-- `end - start` of `add_piece`: a whole piece, or what is left of the metadata.
unfoldable pub piece_end : MetadataAssembler → ℕ → ℕ
piece_end m piece =
    let end = piece * piece_size + piece_size in
    if ltb m.metadata_size end then m.metadata_size else end

unfoldable pub store_piece : MetadataAssembler → ℕ → List ℕ → MetadataAssembler
store_piece m piece bytes = record m {
  buffer = overwrite (piece * piece_size) bytes m.buffer;
  received_pieces = insert piece m.received_pieces;
}

unfoldable pub add_piece :
    MetadataAssembler → ℕ → List ℕ → Result MetadataError Bool × MetadataAssembler
unfolding piece_end store_piece is_complete
add_piece m piece bytes =
    if leb m.total_pieces piece
    then (err out_of_bounds, m)
    else if not (length bytes == piece_end m piece - piece * piece_size)
    then (err invalid_piece_size, m)
    else (ok (is_complete (store_piece m piece bytes)), store_piece m piece bytes)

unfoldable pub next_missing_piece : MetadataAssembler → Option ℕ
next_missing_piece m = find_range 0 m.total_pieces (λ i. not (contains i m.received_pieces))

-- The first piece that is neither received nor skipped.
unfoldable pub next_piece_where : MetadataAssembler → (ℕ → Bool) → Option ℕ
next_piece_where m skip =
    find_range 0 m.total_pieces (λ i. not (contains i m.received_pieces) && not (skip i))
