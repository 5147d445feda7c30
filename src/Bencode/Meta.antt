-- ===== src/Bencode/Meta.antt =====
-- `build_meta`: the checks on a decoded info dictionary. Decoding itself is a library's; the fields
-- of `RawInfo` and `RawFile` are what it gives.
use tortor.Prelude.{
  ℕ, ◌+◌, ◌*◌, ◌/◌, ◌%◌, Bool, true, false, not, ◌||◌, Option, none, some, List, [], ◌∷◌,
  if◌then◌else◌, ltb, leb, ◌==◌, length,
}
use tortor.Prelude.Words.{u64_mod, u32_mod, div_ceil}
use tortor.Prelude.Result.{Result, ok, err}
use tortor.Selection.{TorrentFile}
use tortor.Pex.{chunks_exact}
use tortor.Torrent
use tortor.Torrent.{TorrentMeta, Chars, PathError, sanitize_path_component, build_file_path}

abbrev pub max_piece_length : ℕ
max_piece_length = 128 * 1024 * 1024

pub record RawInfo : Type 0 where
  pub name : Chars
  pub piece_length : ℕ
  pub pieces : List ℕ
  pub length : Option ℕ
  pub files : Option (List TorrentFile)

pub data MetaError : Type 0 where
  pieces_length piece_length_unsupported no_files size_overflow one_of_length_or_files no_data
        count_mismatch :
      MetaError
  bad_path : PathError → MetaError

unfoldable pub checked_file :
    Result PathError (List Chars) → ℕ → (ℕ → Result MetaError ℕ) → Result MetaError ℕ
checked_file (err e) total next = err (bad_path e)
checked_file (ok path) total next = elim (leb u64_mod total) [
  | true ↦ err size_overflow
  | false ↦ next total
]

unfoldable pub checked_sum : Bool → Chars → List TorrentFile → ℕ → Result MetaError ℕ
unfolding checked_file
checked_sum windows name [] total = ok total
checked_sum windows name (file ∷ files) total =
    checked_file (build_file_path windows name true file.path) (total + file.length)
      (checked_sum windows name files)

unfoldable pub total_of : Bool → Chars → Option ℕ → Option (List TorrentFile) → Result MetaError ℕ
unfolding checked_sum
total_of windows name (some n) none = ok n
total_of windows name none (some []) = err no_files
total_of windows name none (some (file ∷ files)) = checked_sum windows name (file ∷ files) 0
total_of windows name none none = err one_of_length_or_files
total_of windows name (some n) (some files) = err one_of_length_or_files

-- The checks on the size, and the result.
unfoldable pub meta_of :
    Chars → Chars → RawInfo → List ℕ → Result MetaError ℕ → Result MetaError TorrentMeta
meta_of announce name info info_hash (err e) = err e
meta_of announce name info info_hash (ok total_length) =
    let pieces = chunks_exact 20 info.pieces in
    if total_length == 0
    then err no_data
    else if not (div_ceil total_length info.piece_length == length info.pieces / 20)
    then err count_mismatch
    else ok (
        Torrent.new announce name info.piece_length (length pieces % u32_mod) pieces info.length
          info.files info_hash)

unfoldable pub with_name :
    Bool → Chars → RawInfo → List ℕ → Result PathError Chars → Result MetaError TorrentMeta
unfolding total_of meta_of
with_name windows announce info info_hash (err e) = err (bad_path e)
with_name windows announce info info_hash (ok name) =
    meta_of announce name info info_hash (total_of windows name info.length info.files)

unfoldable pub build_meta : Bool → Chars → RawInfo → List ℕ → Result MetaError TorrentMeta
unfolding with_name
build_meta windows announce info info_hash =
    if not (length info.pieces % 20 == 0)
    then err pieces_length
    else if info.piece_length == 0 || ltb max_piece_length info.piece_length
    then err piece_length_unsupported
    else with_name windows announce info info_hash (sanitize_path_component windows info.name)
