-- ===== src/Bencode/Parse.antt =====
-- The parsers of src/core/bencode.rs around `build_meta`: the depth check, `parse_torrent_bytes`
-- and `parse_torrent_metadata_bytes`. SHA-1 and the serde decoder are parameters.
use tortor.Prelude.{
  ℕ, zero, suc, ◌+◌, ◌-◌, ◌*◌, min, Bool, not, Option, none, some, List, [], ◌∷◌, if◌then◌else◌,
  ltb, ◌==◌, length, drop, take, slice, list_eq, ◌++◌,
}
use tortor.Prelude.Words.{u64_mod}
use tortor.Prelude.Result.{Result, ok, err}
use tortor.Torrent
use tortor.Torrent.{TorrentMeta, Chars}
use tortor.Bencode.{
  BencodeError, too_deep, out_of_fuel, max_torrent_size, max_bencode_depth, is_digit, digit_run,
  integer_run,
}
use tortor.Bencode.Slice.{extract_info_dictionary_slice}
use tortor.Bencode.Meta.{RawInfo, MetaError, build_meta}

-- What a byte is to the depth check, with the bytes it takes.
pub data Token : Type 0 where
  opens closes : Token
  skips : ℕ → Token
  unknown_byte : Token

abbrev pub saturating_digits : ℕ → List ℕ → ℕ
saturating_digits acc [] = acc
saturating_digits acc (b ∷ bs) =
    saturating_digits (min (min (acc * 10) (u64_mod - 1) + (b - 48)) (u64_mod - 1)) bs

-- An integer with its 'e', or a string with its length and colon. A string that is too long ends
-- the scan like one that reaches the end.
unfoldable pub token : ℕ → List ℕ → Token
unfolding integer_run digit_run
token b bs =
    if b == 108
    then opens
    else if b == 100
    then opens
    else if b == 101
    then closes
    else if b == 105
    then skips (integer_run (b ∷ bs) + 1)
    else if is_digit b
    then skips (digit_run (b ∷ bs) + 1 + saturating_digits 0 (take (digit_run (b ∷ bs)) (b ∷ bs)))
    else unknown_byte

-- The loop, on the bytes from `index` on. Each round takes a byte at least. `out_of_fuel` is an
-- answer of its own, which no input gets.
unfoldable pub depth_loop : ℕ → ℕ → List ℕ → Result BencodeError Unit
depth_loop zero depth [] = ok tt
depth_loop zero depth (b ∷ bs) = err out_of_fuel
depth_loop (suc fuel) depth [] = ok tt
depth_loop (suc fuel) depth (b ∷ bs) = elim (token b bs) [
  | opens ↦
      if ltb max_bencode_depth (depth + 1) then err too_deep else depth_loop fuel (depth + 1) bs
  | closes ↦ depth_loop fuel (depth - 1) bs
  | skips n ↦ depth_loop fuel depth (drop n (b ∷ bs))
  | unknown_byte ↦ ok tt
]

unfoldable pub check_bencode_depth : List ℕ → Result BencodeError Unit
unfolding depth_loop
check_bencode_depth bytes = depth_loop (length bytes) 0 bytes

pub record RawTorrent : Type 0 where
  pub announce : Chars
  pub announce_list : List (List Chars)
  pub info : RawInfo

pub data ParseError : Type 0 where
  too_large hash_mismatch decode_error : ParseError
  layout : BencodeError → ParseError
  invalid_torrent : MetaError → ParseError

abbrev pub in_parse : {A : Type 0} → Result MetaError A → Result ParseError A
in_parse (ok a) = ok a
in_parse (err e) = err (invalid_torrent e)

-- `extra.into_iter().flatten()`
abbrev pub flatten : List (List Chars) → List Chars
flatten [] = []
flatten (urls ∷ tiers) = urls ++ flatten tiers

module _ (windows : Bool) (hash_sha1 : List ℕ → List ℕ) where
  unfoldable pub decoded_info : List ℕ → Option RawInfo → Result ParseError TorrentMeta
  decoded_info hash none = err decode_error
  decoded_info hash (some raw) = in_parse (build_meta windows [] raw hash)

  unfoldable pub metadata_checked :
      List ℕ → Option RawInfo → Result BencodeError Unit → Result ParseError TorrentMeta
  unfolding decoded_info
  metadata_checked hash raw (err e) = err (layout e)
  metadata_checked hash raw (ok _) = decoded_info hash raw

  unfoldable pub parse_torrent_metadata_bytes :
      (List ℕ → Option RawInfo) → List ℕ → List ℕ → Result ParseError TorrentMeta
  unfolding metadata_checked check_bencode_depth
  parse_torrent_metadata_bytes decode info_bytes expected_info_hash =
      if ltb max_torrent_size (length info_bytes)
      then err too_large
      else if not (list_eq (hash_sha1 info_bytes) expected_info_hash)
      then err hash_mismatch
      else metadata_checked (hash_sha1 info_bytes) (decode info_bytes)
          (check_bencode_depth info_bytes)

  abbrev pub with_trackers :
      List (List Chars) → Result ParseError TorrentMeta → Result ParseError TorrentMeta
  with_trackers tiers (err e) = err e
  with_trackers tiers (ok meta) = ok (Torrent.with_extra_trackers meta (flatten tiers))

  unfoldable pub decoded_torrent :
      List ℕ → Option RawTorrent → Result BencodeError (ℕ × ℕ) → Result ParseError TorrentMeta
  decoded_torrent bytes none range = err decode_error
  decoded_torrent bytes (some raw) (err e) = err (layout e)
  decoded_torrent bytes (some raw) (ok (start, end)) =
      with_trackers raw.announce_list
        (in_parse (build_meta windows raw.announce raw.info (hash_sha1 (slice start end bytes))))

  unfoldable pub torrent_checked :
      List ℕ → Option RawTorrent → Result BencodeError Unit → Result ParseError TorrentMeta
  unfolding decoded_torrent extract_info_dictionary_slice
  torrent_checked bytes raw (err e) = err (layout e)
  torrent_checked bytes raw (ok _) = decoded_torrent bytes raw (extract_info_dictionary_slice bytes)

  unfoldable pub parse_torrent_bytes :
      (List ℕ → Option RawTorrent) → List ℕ → Result ParseError TorrentMeta
  unfolding torrent_checked check_bencode_depth
  parse_torrent_bytes decode bytes =
      if ltb max_torrent_size (length bytes)
      then err too_large
      else torrent_checked bytes (decode bytes) (check_bencode_depth bytes)
