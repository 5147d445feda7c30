-- ===== src/Bencode.antt =====
-- The bencode scanner of src/core/bencode.rs: positions in a byte string, without decoding it. The
-- loops that run over digits, or up to the end of an integer, are counts on the rest of the bytes.
pub mod Ends
pub mod Slice
pub mod Meta
pub mod Parse
pub mod Depth
pub mod Rounds
pub mod Accepts
pub mod Tiled
mod Tests
use package.tortor.Prelude.{
  ℕ, zero, suc, ◌+◌, ◌-◌, ◌*◌, min, Bool, true, false, not, ◌&&◌, ◌||◌, List, [], ◌∷◌,
  if◌then◌else◌, ltb, leb, ◌==◌, length, drop, slice, get_or, take, list_eq,
}
use package.tortor.Prelude.Words.{u64_mod}
use package.tortor.Prelude.Result.{Result, ok, err}

abbrev pub max_torrent_size : ℕ
max_torrent_size = 16 * 1024 * 1024

abbrev pub max_bencode_depth : ℕ
max_bencode_depth = 64

-- The messages of `InvalidBencode`. `out_of_fuel` is the model's own.
pub data BencodeError : Type 0 where
  not_a_dictionary no_length_prefix missing_colon length_parse length_overflow beyond_input :
      BencodeError
  too_deep unexpected_end unterminated_integer unterminated_list unterminated_dictionary
        unknown_prefix :
      BencodeError
  missing_info_dictionary out_of_fuel : BencodeError

abbrev pub is_digit : ℕ → Bool
is_digit b = leb 48 b && leb b 57

unfoldable pub digit_run : List ℕ → ℕ
digit_run [] = 0
digit_run (b ∷ bs) = let rest = digit_run bs in if is_digit b then suc rest else 0

-- The bytes before the next 'e', or all.
unfoldable pub integer_run : List ℕ → ℕ
integer_run [] = 0
integer_run (b ∷ bs) = let rest = integer_run bs in if b == 101 then 0 else suc rest

abbrev pub digits_value : ℕ → List ℕ → ℕ
digits_value acc [] = acc
digits_value acc (b ∷ bs) = digits_value (acc * 10 + (b - 48)) bs

-- The end of `parse_byte_string`: the digits stand before the index of the colon.
unfoldable pub byte_string_at : List ℕ → ℕ → ℕ → Result BencodeError (List ℕ × ℕ)
byte_string_at bytes start index =
    let len = digits_value 0 (slice start index bytes) in
    let content_start = index + 1 in
    if leb (length bytes) index || not (get_or bytes index 0 == 58)
    then err missing_colon
    else if leb u64_mod len
    then err length_parse
    else if leb u64_mod (content_start + len)
    then err length_overflow
    else if ltb (length bytes) (content_start + len)
    then err beyond_input
    else ok (slice content_start (content_start + len) bytes, content_start + len)

unfoldable pub parse_byte_string : List ℕ → ℕ → Result BencodeError (List ℕ × ℕ)
unfolding byte_string_at digit_run
parse_byte_string bytes start =
    if leb (length bytes) start || not (is_digit (get_or bytes start 0))
    then err no_length_prefix
    else byte_string_at bytes start (start + digit_run (drop start bytes))

-- What the first byte of a value says.
pub data Prefix : Type 0 where
  integer list dictionary byte_string unknown : Prefix

unfoldable pub prefix_of : ℕ → Prefix
prefix_of b =
    if b == 105
    then integer
    else if b == 108
    then list
    else if b == 100
    then dictionary
    else if is_digit b
    then byte_string
    else unknown

unfoldable pub integer_end : List ℕ → ℕ → Result BencodeError ℕ
unfolding integer_run
integer_end bytes index =
    let end = index + integer_run (drop index bytes) in
    if leb (length bytes) end then err unterminated_integer else ok (end + 1)

abbrev pub end_of : Result BencodeError (List ℕ × ℕ) → Result BencodeError ℕ
end_of (ok (s, end)) = ok end
end_of (err e) = err e

unfoldable pub then_at : Result BencodeError ℕ → (ℕ → Result BencodeError ℕ) → Result BencodeError ℕ
then_at (ok index) next = next index
then_at (err e) next = err e

-- Where a loop over the items of a container stands.
pub data Item : Type 0 where
  past_end closing item : Item

unfoldable pub item_at : List ℕ → ℕ → Item
item_at bytes index =
    if leb (length bytes) index
    then past_end
    else if get_or bytes index 0 == 101
    then closing
    else item

-- The checks before the match of `skip_bencode_value`.
pub data Start : Type 0 where
  refused : BencodeError → Start
  value : Prefix → Start

unfoldable pub start_of : List ℕ → ℕ → ℕ → Start
unfolding prefix_of
start_of bytes start depth =
    if ltb max_bencode_depth depth
    then refused too_deep
    else if leb (length bytes) start
    then refused unexpected_end
    else value (prefix_of (get_or bytes start 0))

unfoldable mutual
  pub skip_value : ℕ → List ℕ → ℕ → ℕ → Result BencodeError ℕ
  skip_value zero bytes start depth = err out_of_fuel
  skip_value (suc fuel) bytes start depth = elim (start_of bytes start depth) [
    | refused e ↦ err e
    | value p ↦ elim p [
      | integer ↦ integer_end bytes (start + 1)
      | list ↦ skip_list fuel bytes (start + 1) depth
      | dictionary ↦ skip_dict fuel bytes (start + 1) depth
      | byte_string ↦ end_of (parse_byte_string bytes start)
      | unknown ↦ err unknown_prefix
    ]
  ]

  pub skip_list : ℕ → List ℕ → ℕ → ℕ → Result BencodeError ℕ
  skip_list zero bytes index depth = err out_of_fuel
  skip_list (suc fuel) bytes index depth = elim (item_at bytes index) [
    | past_end ↦ err unterminated_list
    | closing ↦ ok (index + 1)
    | item ↦
        then_at (skip_value fuel bytes index (depth + 1)) (λ next. skip_list fuel bytes next depth)
  ]

  pub skip_dict : ℕ → List ℕ → ℕ → ℕ → Result BencodeError ℕ
  skip_dict zero bytes index depth = err out_of_fuel
  skip_dict (suc fuel) bytes index depth = elim (item_at bytes index) [
    | past_end ↦ err unterminated_dictionary
    | closing ↦ ok (index + 1)
    | item ↦ then_at (end_of (parse_byte_string bytes index)) (λ key_end.
        then_at (skip_value fuel bytes key_end (depth + 1))
          (λ next. skip_dict fuel bytes next depth))
  ]

-- A loop and a value each take a unit, and a value takes a byte.
unfoldable pub skip_bencode_value : List ℕ → ℕ → ℕ → Result BencodeError ℕ
unfolding skip_value
skip_bencode_value bytes start depth = skip_value (2 * length bytes + 2) bytes start depth

unfoldable pub bencode_value_len : List ℕ → Result BencodeError ℕ
unfolding skip_bencode_value
bencode_value_len bytes = skip_bencode_value bytes 0 0
