-- ===== src/Torrent.antt =====
-- Torrent metadata and safe file paths of src/core/torrent.rs. A string is a list of code points,
-- and a path below the download directory is the list of its components.
pub mod Paths
pub mod Pieces
mod Tests
use package.tortor.Prelude.{
  ℕ, zero, suc, ◌+◌, ◌-◌, ◌*◌, min, Bool, true, false, not, ◌&&◌, ◌||◌, Option, none, some, List,
  [], ◌∷◌, ◌++◌, if◌then◌else◌, ltb, leb, ◌==◌, length, get_elem?, list_eq, map, anyb, take,
}
use package.tortor.Prelude.Words.{u32_mod, u64_mod}
use package.tortor.Prelude.Sets.{contains}
use package.tortor.Prelude.Result.{Result, ok, err}
use package.tortor.Selection.{TorrentFile}

abbrev pub Chars : Type 0
Chars = List ℕ

pub record TorrentMeta : Type 0 where
  pub announce : Chars
  pub trackers : List Chars
  pub name : Chars
  pub piece_length : ℕ
  pub pieces_count : ℕ
  pub pieces : List (List ℕ)
  pub total_length : Option ℕ
  pub files : Option (List TorrentFile)
  pub info_hash : List ℕ

abbrev pub starts_with : Chars → Chars → Bool
starts_with s prefix = list_eq (take (length prefix) s) prefix

-- "http://", "https://" and "udp://"
unfoldable pub is_supported_tracker : Chars → Bool
is_supported_tracker url =
    starts_with url (104 ∷ 116 ∷ 116 ∷ 112 ∷ 58 ∷ 47 ∷ 47 ∷ [])
    || starts_with url (104 ∷ 116 ∷ 116 ∷ 112 ∷ 115 ∷ 58 ∷ 47 ∷ 47 ∷ [])
    || starts_with url (117 ∷ 100 ∷ 112 ∷ 58 ∷ 47 ∷ 47 ∷ [])

-- The fold with `saturating_add` on `u64`s.
abbrev pub saturating_sum : ℕ → List TorrentFile → ℕ
saturating_sum acc [] = acc
saturating_sum acc (file ∷ files) = saturating_sum (min (acc + file.length) (u64_mod - 1)) files

unfoldable pub new :
    Chars
    → Chars
    → ℕ
    → ℕ
    → List (List ℕ)
    → Option ℕ
    → Option (List TorrentFile)
    → List ℕ
    → TorrentMeta
unfolding is_supported_tracker
new announce name piece_length pieces_count pieces total_length files info_hash =
    let total : Option ℕ = elim total_length [
      | some n ↦ some n
      | none ↦ elim files [ none ↦ none | some fs ↦ some (saturating_sum 0 fs) ]
    ] in
    record {
      announce = announce;
      trackers = (if is_supported_tracker announce then announce ∷ [] else []);
      name = name;
      piece_length = piece_length;
      pieces_count = pieces_count;
      pieces = pieces;
      total_length = total;
      files = files;
      info_hash = info_hash;
    }

abbrev pub has_url : Chars → List Chars → Bool
has_url url [] = false
has_url url (u ∷ us) = list_eq u url || has_url url us

unfoldable pub add_trackers : List Chars → List Chars → List Chars
add_trackers trackers [] = trackers
add_trackers trackers (url ∷ extra) =
    add_trackers
      (if is_supported_tracker url && not (has_url url trackers)
        then trackers ++ (url ∷ [])
        else trackers)
      extra

unfoldable pub with_extra_trackers : TorrentMeta → List Chars → TorrentMeta
unfolding add_trackers
with_extra_trackers m extra = record m { trackers = add_trackers m.trackers extra }

unfoldable pub piece_hash : TorrentMeta → ℕ → Option (List ℕ)
piece_hash m i = get_elem? m.pieces i

-- The length of the piece at `index` of a torrent of `total` bytes; the product is a checked one,
-- and the result a `u32`.
unfoldable pub piece_len_in : ℕ → ℕ → ℕ → Option ℕ
piece_len_in piece_length total index =
    let start = index * piece_length in
    if leb u64_mod start
    then none
    else if leb total start
    then none
    else some (min piece_length (total - start))

unfoldable pub piece_len_at : TorrentMeta → ℕ → Option ℕ
unfolding piece_len_in
piece_len_at m index = if leb (length m.pieces) index then none else elim m.total_length [
  | some total ↦ piece_len_in m.piece_length total index
  | none ↦ some m.piece_length
]

pub data PathError : Type 0 where
  invalid_component too_long has_separator empty_path : PathError

abbrev pub max_component_len : ℕ
max_component_len = 255

-- `char::len_utf8`
abbrev pub len_utf8 : ℕ → ℕ
len_utf8 c = if ltb c 0x80 then 1 else if ltb c 0x800 then 2 else if ltb c 0x10000 then 3 else 4

abbrev pub byte_len : Chars → ℕ
byte_len [] = 0
byte_len (c ∷ cs) = len_utf8 c + byte_len cs

-- '/', '\\' and NUL
abbrev pub is_separator : ℕ → Bool
is_separator c = c == 47 || c == 92 || c == 0

-- A control character, or one of `<>:"|?*`
abbrev pub is_forbidden : ℕ → Bool
is_forbidden c =
    ltb c 32 || leb 127 c && leb c 159 || contains c (60 ∷ 62 ∷ 58 ∷ 34 ∷ 124 ∷ 63 ∷ 42 ∷ [])

abbrev pub clean_char : ℕ → ℕ
clean_char c = if is_forbidden c then 95 else c

-- Pops the dots and spaces at the end.
unfoldable pub trim_end : Chars → Chars
trim_end [] = []
trim_end (c ∷ cs) = elim (trim_end cs) [
  | [] ↦ if c == 46 || c == 32 then [] else c ∷ []
  | d ∷ ds ↦ c ∷ (d ∷ ds)
]

-- The part before the first dot, in upper case.
abbrev pub stem : Chars → Chars
stem [] = []
stem (c ∷ cs) =
    let rest = stem cs in
    if c == 46 then [] else (if leb 97 c && leb c 122 then c - 32 else c) ∷ rest

-- "CON", "PRN", "AUX", "NUL", and "COM" and "LPT" with a digit from 1 to 9.
unfoldable pub is_reserved : Chars → Bool
is_reserved (a ∷ b ∷ c ∷ []) =
    list_eq (a ∷ b ∷ c ∷ []) (67 ∷ 79 ∷ 78 ∷ [])
    || list_eq (a ∷ b ∷ c ∷ []) (80 ∷ 82 ∷ 78 ∷ [])
    || list_eq (a ∷ b ∷ c ∷ []) (65 ∷ 85 ∷ 88 ∷ [])
    || list_eq (a ∷ b ∷ c ∷ []) (78 ∷ 85 ∷ 76 ∷ [])
is_reserved (a ∷ b ∷ c ∷ d ∷ []) =
    (list_eq (a ∷ b ∷ c ∷ []) (67 ∷ 79 ∷ 77 ∷ []) || list_eq (a ∷ b ∷ c ∷ []) (76 ∷ 80 ∷ 84 ∷ []))
    && (leb 49 d && leb d 57)
is_reserved _ = false

-- The branch for Windows.
unfoldable pub sanitize_windows : Chars → Result PathError Chars
unfolding trim_end is_reserved
sanitize_windows component =
    let cleaned = trim_end (map clean_char component) in
    if length cleaned == 0
    then err invalid_component
    else if is_reserved (stem cleaned)
    then ok (95 ∷ cleaned)
    else ok cleaned

unfoldable pub sanitize_path_component : Bool → Chars → Result PathError Chars
unfolding sanitize_windows
sanitize_path_component windows component =
    if length component == 0 || list_eq component (46 ∷ []) || list_eq component (46 ∷ 46 ∷ [])
    then err invalid_component
    else if ltb max_component_len (byte_len component)
    then err too_long
    else if anyb is_separator component
    then err has_separator
    else if windows
    then sanitize_windows component
    else ok component

unfoldable pub under : Chars → Result PathError (List Chars) → Result PathError (List Chars)
under c (ok cs) = ok (c ∷ cs)
under c (err e) = err e

unfoldable pub then_push :
    Result PathError Chars → Result PathError (List Chars) → Result PathError (List Chars)
unfolding under
then_push (ok c) rest = under c rest
then_push (err e) rest = err e

-- The components pushed onto the path, up to the first error.
unfoldable pub push_parts : Bool → List Chars → Result PathError (List Chars)
unfolding then_push
push_parts windows [] = ok []
push_parts windows (part ∷ parts) =
    then_push (sanitize_path_component windows part) (push_parts windows parts)

-- The path below the base directory.
unfoldable pub build_file_path : Bool → Chars → Bool → List Chars → Result PathError (List Chars)
unfolding push_parts
build_file_path windows name is_multi parts =
    if length parts == 0
    then err empty_path
    else if is_multi
    then push_parts windows (name ∷ parts)
    else push_parts windows parts
