-- ===== src/Session/Cause.antt =====
-- Why a message of a peer may end a session of src/net/session.rs, and what a job is expected to be.
use tortor.Prelude.{
  ℕ, ◌+◌, ◌*◌, ◌⊎◌, ◌≤◌, ◌<◌, ◌≡◌, true, false, Option, none, some, List, ◌==◌, length,
}
use tortor.Prelude.Words.{u32_mod, u64_mod}
use tortor.Bitfield.Valid as Fields
use tortor.Assembler.{AssemblerState, in_progress, complete, error, add_block}
use tortor.Assembler.Tiling as Pieces
use tortor.Wire
use tortor.Wire.{PeerMessage}
use tortor.Session.{
  PeerContext, Libraries, Job, PeerSession, Answers, SessionError, coordinator_gone, write_failed,
  have_out_of_range, malformed_bitfield, invalid_request, hash_mismatch, hashing_failed,
  assembler_error, connection_failed, invalid_piece, peer_silent, peer_stalled,
}

abbrev pub HaveOut : PeerSession → PeerMessage → Type 0
HaveOut s (Wire.have index) = s.have_pieces.len ≤ index
HaveOut s m = ⊥

-- The bytes are not those of a field of this length: too many or too few, or a spare bit is set.
abbrev pub Malformed : PeerSession → PeerMessage → Type 0
Malformed s (Wire.bitfield payload) =
    Fields.IsValid (record { bytes = payload; len = s.have_pieces.len }) → ⊥
Malformed s m = ⊥

-- Bytes up to `end` are not all in the piece: it begins behind the data, or they go beyond the piece
-- or the data. The piece length alone counts where the length of the data is not known.
abbrev pub OutOfPiece : ℕ → Option ℕ → ℕ → ℕ → Type 0
OutOfPiece piece_length none index end = piece_length < end
OutOfPiece piece_length (some total) index end =
    (u64_mod ≤ index * piece_length)
    ⊎ ((total ≤ index * piece_length)
        ⊎ ((piece_length < end) ⊎ (total < index * piece_length + end)))

abbrev pub BadRequest : PeerContext → PeerSession → PeerMessage → Type 0
BadRequest ctx s (Wire.request index begin len) =
    (s.am_choking ≡ false)
    × ((len ≡ 0)
        ⊎ ((32768 < len) ⊎ OutOfPiece ctx.piece_length ctx.total_length index (begin + len)))
BadRequest ctx s m = ⊥

-- The piece that this part completes has not the expected hash.
abbrev pub HasOtherHash : Libraries → List ℕ → AssemblerState → Type 0
HasOtherHash lib expected (complete buffer) = lib.hash_piece buffer ≡ expected → ⊥
HasOtherHash lib expected (error e) = ⊥
HasOtherHash lib expected in_progress = ⊥

abbrev pub WrongPiece : Libraries → Option Job → PeerMessage → Type 0
WrongPiece lib (some j) (Wire.piece index begin block) =
    ((j.index == index) ≡ true)
    × HasOtherHash lib j.expected_hash (add_block j.assembler begin block).0
WrongPiece lib o m = ⊥

-- Why a message ends a session with an error. There is no way to end it with one of the others.
abbrev pub Cause :
    Libraries → PeerContext → Answers → PeerSession → PeerMessage → SessionError → Type 0
Cause lib ctx w s m write_failed = w.sent ≡ false
Cause lib ctx w s m coordinator_gone = w.coordinator_there ≡ false
Cause lib ctx w s m have_out_of_range = HaveOut s m
Cause lib ctx w s m malformed_bitfield = Malformed s m
Cause lib ctx w s m invalid_request = BadRequest ctx s m
Cause lib ctx w s m hashing_failed = w.hashed ≡ false
Cause lib ctx w s m hash_mismatch = WrongPiece lib s.job m
Cause lib ctx w s m assembler_error = ⊥
Cause lib ctx w s m connection_failed = ⊥
Cause lib ctx w s m invalid_piece = ⊥
Cause lib ctx w s m peer_silent = ⊥
Cause lib ctx w s m peer_stalled = ⊥

-- The assembler of the job is well formed; the part of a piece is shorter than 2^32 bytes.
abbrev pub JobSound : Option Job → Type 0
JobSound none = Unit
JobSound (some j) = Pieces.IsValid j.assembler

abbrev pub IsShort : PeerMessage → Type 0
IsShort (Wire.piece index begin block) = length block < u32_mod
IsShort m = Unit
