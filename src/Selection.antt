-- ===== src/Selection.antt =====
-- Selective download, src/core/selection.rs: which pieces are needed for the chosen files and which
-- finished pieces-- finished pieces cannot be served. Only the length of a file matters here. Offsets are `u64`s.
pub mod Touches
pub mod Overlap
pub mod Bytes
mod Tests
use package.tortor.Prelude.{
  ℕ, zero, suc, ◌+◌, ◌-◌, ◌*◌, ◌/◌, ◌%◌, min, max, Bool, true, false, not, ◌&&◌, List, [], ◌∷◌,
  if◌then◌else◌, ltb, ◌==◌,
}
use package.tortor.Prelude.Words.{u64_mod}
use package.tortor.Prelude.Sets.{filter_range}
use package.tortor.Bitfield
use package.tortor.Bitfield.{Bitfield}

pub record TorrentFile : Type 0 where
  pub length : ℕ
  pub path : List (List ℕ)

pub record Selection : Type 0 where
  pub wanted : Bitfield
  pub unservable : Bitfield

unfoldable pub all : ℕ → Selection
all total_pieces = record {
  wanted = Bitfield.full total_pieces;
  unservable = Bitfield.new total_pieces;
}

-- The pieces `first..=last` of a file that starts at `offset`, cut off at the last piece.
unfoldable pub file_pieces : ℕ → ℕ → ℕ → ℕ → List ℕ
file_pieces piece_length total_pieces offset file_length =
    let first = offset / piece_length in
    let last = (offset + file_length - 1) % u64_mod / piece_length in
    filter_range first (min last (total_pieces - 1) + 1 - first) (λ _. true)

-- One file of the loop of `from_files`.
unfoldable pub mark_file : ℕ → ℕ → ℕ → TorrentFile → Bool → Selection → Selection
unfolding file_pieces
mark_file piece_length total_pieces offset file keep s =
    let pieces = file_pieces piece_length total_pieces offset file.length in
    if ltb 0 file.length
    then (if keep
        then record s { wanted = Bitfield.set_all pieces s.wanted }
        else record s { unservable = Bitfield.set_all pieces s.unservable })
    else s

unfoldable pub from_files_loop : ℕ → ℕ → List TorrentFile → List Bool → ℕ → Selection → Selection
unfolding mark_file
from_files_loop piece_length total_pieces [] flags offset s = s
from_files_loop piece_length total_pieces (file ∷ files) [] offset s = s
from_files_loop piece_length total_pieces (file ∷ files) (keep ∷ flags) offset s =
    from_files_loop piece_length total_pieces files flags ((offset + file.length) % u64_mod)
      (mark_file piece_length total_pieces offset file keep s)

unfoldable pub from_files : List TorrentFile → List Bool → ℕ → ℕ → Selection
unfolding from_files_loop
from_files files selected piece_length total_pieces =
    from_files_loop (max piece_length 1) total_pieces files selected 0
      (record { wanted = Bitfield.new total_pieces; unservable = Bitfield.new total_pieces })

unfoldable pub pieces_loop : ℕ → ℕ → List TorrentFile → List Bool → ℕ → Bitfield → Bitfield
unfolding file_pieces
pieces_loop piece_length total_pieces [] flags offset pieces = pieces
pieces_loop piece_length total_pieces (file ∷ files) [] offset pieces = pieces
pieces_loop piece_length total_pieces (file ∷ files) (flag ∷ flags) offset pieces =
    pieces_loop piece_length total_pieces files flags ((offset + file.length) % u64_mod) (
      if flag && ltb 0 file.length
      then Bitfield.set_all (file_pieces piece_length total_pieces offset file.length) pieces
      else pieces)

unfoldable pub pieces_of_files : List TorrentFile → List Bool → ℕ → ℕ → Bitfield
unfolding pieces_loop
pieces_of_files files flags piece_length total_pieces =
    pieces_loop (max piece_length 1) total_pieces files flags 0 (Bitfield.new total_pieces)

-- `!was && now`, over the pairs of flags.
unfoldable pub newly_selected : List Bool → List Bool → List Bool
newly_selected [] after = []
newly_selected (was ∷ before) [] = []
newly_selected (was ∷ before) (now ∷ after) = (not was && now) ∷ newly_selected before after

unfoldable pub pieces_to_refetch : List TorrentFile → List Bool → List Bool → ℕ → ℕ → Bitfield
unfolding newly_selected pieces_of_files
pieces_to_refetch files before after piece_length total_pieces =
    pieces_of_files files (newly_selected before after) piece_length total_pieces

unfoldable pub is_all : Selection → Bool
is_all s = Bitfield.count s.wanted == s.wanted.len && Bitfield.count s.unservable == 0

abbrev pub sum_pieces : ℕ → ℕ → List ℕ → ℕ
sum_pieces piece_length total_length [] = 0
sum_pieces piece_length total_length (piece ∷ pieces) =
    min (total_length - piece * piece_length) piece_length
    + sum_pieces piece_length total_length pieces

unfoldable pub wanted_bytes : Selection → ℕ → ℕ → ℕ
wanted_bytes s piece_length total_length =
    sum_pieces piece_length total_length (Bitfield.iter_ones s.wanted)
