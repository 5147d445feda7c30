-- ===== src/Bencode/Tests.antt =====
-- The scanner and `build_meta` at concrete inputs.
use mathlib.Core.Path.{subst}
use tortor.Prelude.{ℕ, ◌≡◌, refl, inl, false, Option, none, some, List, [], ◌∷◌, replicate, arith}
use tortor.Prelude.Result.{ok, err}
use tortor.Torrent
use tortor.Torrent.{TorrentMeta}
use tortor.Bencode.{skip_bencode_value, bencode_value_len, unterminated_list, too_deep}
use tortor.Bencode.Ends.{Ends, skip_bencode_value-Ends}
use tortor.Bencode.Slice.{
  Sliced, extract_info_dictionary_slice, extract_info_dictionary_slice-Sliced,
}
use tortor.Bencode.Meta.{RawInfo, build_meta}
use tortor.Bencode.Tiled.{IsWord, IsAccepted, build_meta-IsAccepted}
use tortor.Bencode.Parse.{parse_torrent_metadata_bytes, check_bencode_depth}
use tortor.Bencode.Depth.{
  Values, Loops, nothing, integer, byte_string, nested, check_bencode_depth-Values,
}
use tortor.Bencode.Accepts.{IsGenuine, parse_torrent_metadata_bytes-IsGenuine}

-- "li1e2:abe" and a byte behind it.
abbrev a_list : List ℕ
a_list = 108 ∷ 105 ∷ 49 ∷ 101 ∷ 50 ∷ 58 ∷ 97 ∷ 98 ∷ 101 ∷ 120 ∷ []

-- "d4:infodee"
abbrev a_torrent : List ℕ
a_torrent = 100 ∷ 52 ∷ 58 ∷ 105 ∷ 110 ∷ 102 ∷ 111 ∷ 100 ∷ 101 ∷ 101 ∷ []

abbrev small_info : RawInfo
small_info = record {
  name = 97 ∷ [];
  piece_length = 16;
  pieces = replicate 20 7;
  length = some 10;
  files = none;
}

list_len : bencode_value_len a_list ≡ ok 9
unfolding bencode_value_len tortor.Bencode.start_of tortor.Bencode.item_at tortor.Bencode.then_at
    tortor.Bencode.integer_end tortor.Bencode.parse_byte_string
list_len = refl

open_list : bencode_value_len (108 ∷ []) ≡ err unterminated_list
unfolding bencode_value_len tortor.Bencode.start_of tortor.Bencode.item_at
open_list = refl

info_range : extract_info_dictionary_slice a_torrent ≡ ok (7, 9)
unfolding extract_info_dictionary_slice tortor.Bencode.item_at tortor.Bencode.parse_byte_string
    skip_bencode_value tortor.Bencode.start_of
info_range = refl

skip_bencode_value-Ends_example : Ends a_list 0 (skip_bencode_value a_list 0 0)
skip_bencode_value-Ends_example = skip_bencode_value-Ends a_list 0 0

extract_info_dictionary_slice-Sliced_example :
    Sliced a_torrent (extract_info_dictionary_slice a_torrent)
extract_info_dictionary_slice-Sliced_example = extract_info_dictionary_slice-Sliced a_torrent

abbrev small_meta : TorrentMeta
small_meta = Torrent.new [] (97 ∷ []) 16 1 (replicate 20 7 ∷ []) (some 10) none []

small_accepted : build_meta false [] small_info [] ≡ ok small_meta
unfolding build_meta Torrent.sanitize_path_component tortor.Pex.chunks_exact
small_accepted = refl

build_meta-IsAccepted_example : IsAccepted small_meta
build_meta-IsAccepted_example =
    build_meta-IsAccepted false [] small_info [] small_meta (ground arith) small_accepted

-- 65 lists in each other.
deep_refused : check_bencode_depth (replicate 65 108) ≡ err too_deep
unfolding check_bencode_depth tortor.Bencode.Parse.token
deep_refused = refl

-- A decoder that finds the small torrent in everything, and a hash that is always the same.
abbrev finds_small : List ℕ → Option RawInfo
finds_small bytes = some small_info

abbrev one_hash : List ℕ → List ℕ
one_hash bytes = 1 ∷ []

abbrev hashed_meta : TorrentMeta
hashed_meta = Torrent.new [] (97 ∷ []) 16 1 (replicate 20 7 ∷ []) (some 10) none (1 ∷ [])

small_parsed :
    parse_torrent_metadata_bytes false one_hash finds_small a_torrent (1 ∷ []) ≡ ok hashed_meta
unfolding parse_torrent_metadata_bytes build_meta Torrent.sanitize_path_component
    tortor.Pex.chunks_exact tortor.Bencode.Parse.token
small_parsed = refl

small-IsWord :
    (bytes : List ℕ) (info : RawInfo) → finds_small bytes ≡ some info → IsWord info.length
small-IsWord bytes info e =
    let same : small_info ≡ info = cc e in
    subst (λ (i : RawInfo). IsWord i.length) same (ground arith)

parse_torrent_metadata_bytes-IsGenuine_example : IsGenuine one_hash a_torrent (1 ∷ []) hashed_meta
parse_torrent_metadata_bytes-IsGenuine_example =
    parse_torrent_metadata_bytes-IsGenuine false one_hash finds_small small-IsWord a_torrent
      (1 ∷ []) hashed_meta small_parsed

-- The list of 1 and "ab".
two-Values : Values 1 (108 ∷ 105 ∷ 49 ∷ 101 ∷ 50 ∷ 58 ∷ 97 ∷ 98 ∷ 101 ∷ [])
two-Values =
    nested 108 0 0 (105 ∷ 49 ∷ 101 ∷ 50 ∷ 58 ∷ 97 ∷ 98 ∷ []) [] (inl refl)
      (integer 0 (49 ∷ []) (50 ∷ 58 ∷ 97 ∷ 98 ∷ []) (refl, tt)
        (byte_string 0 50 [] (97 ∷ 98 ∷ []) [] (refl, tt) refl (omega arith) nothing))
      nothing

check_bencode_depth-Values_example :
    (check_bencode_depth (108 ∷ 105 ∷ 49 ∷ 101 ∷ 50 ∷ 58 ∷ 97 ∷ 98 ∷ 101 ∷ []) ≡ ok tt)
    × Loops 0 (108 ∷ 105 ∷ 49 ∷ 101 ∷ 50 ∷ 58 ∷ 97 ∷ 98 ∷ 101 ∷ []) (ok tt)
check_bencode_depth-Values_example = check_bencode_depth-Values two-Values
