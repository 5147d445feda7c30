-- ===== src/Resume.antt =====
-- The fast-resume record of src/core/resume.rs. Reading the JSON of older versions is a parameter;
-- `none` is a record that the JSON reader refuses.
pub mod RoundTrip
mod Tests
use package.tortor.Prelude.{
  ℕ, ◌+◌, ◌*◌, ◌/◌, ◌%◌, ◌^◌, Bool, true, false, not, Option, none, some, List, [], ◌∷◌, ◌++◌,
  if◌then◌else◌, ltb, ◌==◌, length, take, drop, get_or, list_eq,
}
use package.tortor.Prelude.Result.{Result, ok, err}
use package.tortor.Bitfield
use package.tortor.Manager
use package.tortor.Manager.{TorrentManager}

-- "TTRS"
abbrev pub magic : List ℕ
magic = b'T' ∷ b'T' ∷ b'R' ∷ b'S' ∷ []

abbrev pub format_version : ℕ
format_version = 2

abbrev pub header_len : ℕ
header_len = 4 + 1 + 4

abbrev pub max_pieces : ℕ
max_pieces = 16 * 1024 * 1024

pub record FastResumeState : Type 0 where
  pub version : ℕ
  pub total_pieces : ℕ
  pub completed : List ℕ

pub data ResumeError : Type 0 where
  truncated unsupported_version too_many_pieces wrong_size neither_format : ResumeError

unfoldable pub from_manager : TorrentManager → FastResumeState
from_manager m = record {
  version = format_version;
  total_pieces = m.total_pieces;
  completed = Manager.completed_pieces m;
}

unfoldable pub into_manager : FastResumeState → ℕ → TorrentManager
into_manager s fallback_total_pieces =
    let total_pieces : ℕ =
      if s.total_pieces == fallback_total_pieces then s.total_pieces else fallback_total_pieces in
    Manager.from_completed total_pieces s.completed

-- `u32::to_le_bytes` and `from_le_bytes`
abbrev pub le32_bytes : ℕ → List ℕ
le32_bytes n = n % 256 ∷ n / 2 ^ 8 % 256 ∷ n / 2 ^ 16 % 256 ∷ n / 2 ^ 24 % 256 ∷ []

abbrev pub le32_at : List ℕ → ℕ → ℕ
le32_at bytes i =
    get_or bytes i 0
    + get_or bytes (i + 1) 0 * 2 ^ 8
    + get_or bytes (i + 2) 0 * 2 ^ 16
    + get_or bytes (i + 3) 0 * 2 ^ 24

unfoldable pub encode : FastResumeState → List ℕ
encode s =
    let bitfield = Bitfield.from_indices s.total_pieces s.completed in
    magic ++ (format_version ∷ (le32_bytes s.total_pieces ++ bitfield.bytes))

module _ (from_json : List ℕ → Option FastResumeState) where
  -- The piece count is known; the rest is the bitfield.
  unfoldable pub decode_pieces : ℕ → List ℕ → Result ResumeError FastResumeState
  decode_pieces total_pieces payload =
      if ltb max_pieces total_pieces
      then err too_many_pieces
      else elim (Bitfield.from_wire total_pieces payload) [
        | none ↦ err wrong_size
        | some bitfield ↦ ok (record {
          version = format_version;
          total_pieces = total_pieces;
          completed = Bitfield.iter_ones bitfield;
        })
      ]

  unfoldable pub decode : List ℕ → Result ResumeError FastResumeState
  unfolding decode_pieces
  decode bytes =
      if list_eq (take 4 bytes) magic
      then (if ltb (length bytes) header_len
          then err truncated
          else if not (get_or bytes 4 0 == format_version)
          then err unsupported_version
          else decode_pieces (le32_at bytes 5) (drop header_len bytes))
      else elim (from_json bytes) [ none ↦ err neither_format | some s ↦ ok s ]
