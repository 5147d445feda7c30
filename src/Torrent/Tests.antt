-- ===== src/Torrent/Tests.antt =====
-- Paths and piece lengths at concrete inputs: a torrent of 10 bytes in pieces of 4.
use tortor.Prelude.{
  ◌<◌, ◌≡◌, refl, true, false, if◌then◌else◌, none, some, List, [], ◌∷◌, length, All, arith,
}
use tortor.Prelude.Result.{ok, err}
use tortor.Torrent.{
  TorrentMeta, Chars, new, piece_len_at, sanitize_path_component, build_file_path,
  invalid_component, has_separator,
}
use tortor.Torrent.Paths.{IsSafe, sanitize_path_component-IsSafe, build_file_path-IsSafe}
use tortor.Torrent.Pieces.{IsTiled}

abbrev ten : TorrentMeta
ten = new [] (97 ∷ []) 4 3 ([] ∷ [] ∷ [] ∷ []) (some 10) none []

ten-IsTiled : IsTiled ten 10
unfolding new
ten-IsTiled = record { is_total = refl; word = ground arith; positive = ground arith; count = refl }

last_short : piece_len_at ten 2 ≡ some 2
unfolding piece_len_at new
last_short = refl

parent_refused : sanitize_path_component true (46 ∷ 46 ∷ []) ≡ err invalid_component
unfolding sanitize_path_component
parent_refused = refl

slash_refused : sanitize_path_component false (97 ∷ 47 ∷ 98 ∷ []) ≡ err has_separator
unfolding sanitize_path_component
slash_refused = refl

-- "CON.a. " becomes "_CON.a" on Windows.
device_name :
    sanitize_path_component true (67 ∷ 79 ∷ 78 ∷ 46 ∷ 97 ∷ 46 ∷ 32 ∷ [])
    ≡ ok (95 ∷ 67 ∷ 79 ∷ 78 ∷ 46 ∷ 97 ∷ [])
unfolding sanitize_path_component
device_name = refl

abbrev two_deep : List Chars
two_deep = (97 ∷ []) ∷ (98 ∷ []) ∷ []

two_parts : build_file_path false (97 ∷ []) true ((98 ∷ []) ∷ []) ≡ ok ((97 ∷ []) ∷ (98 ∷ []) ∷ [])
unfolding build_file_path sanitize_path_component
two_parts = refl

sanitize_path_component-IsSafe_example : IsSafe (95 ∷ 67 ∷ 79 ∷ 78 ∷ 46 ∷ 97 ∷ [])
sanitize_path_component-IsSafe_example =
    sanitize_path_component-IsSafe true (67 ∷ 79 ∷ 78 ∷ 46 ∷ 97 ∷ 46 ∷ 32 ∷ [])
      (95 ∷ 67 ∷ 79 ∷ 78 ∷ 46 ∷ 97 ∷ []) device_name

build_file_path-IsSafe_example :
    All IsSafe two_deep × (length two_deep ≡ (if true then 2 else 1)) × (0 < 1)
build_file_path-IsSafe_example =
    build_file_path-IsSafe false (97 ∷ []) true ((98 ∷ []) ∷ []) two_deep two_parts
