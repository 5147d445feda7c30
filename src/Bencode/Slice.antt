-- ===== src/Bencode/Slice.antt =====
-- The bytes of the info dictionary, and the check of the nesting depth.
use tortor.Prelude.{
  ℕ, zero, suc, ◌-◌, ◌≤◌, ◌<◌, ◌≡◌, ◌≢◌, refl, inl, inr, Bool, true, false, not, ◌||◌, List, [],
  ◌∷◌, if◌then◌else◌, ◌==◌, Bool-cases, length, get_or, list_eq, arith,
}
use tortor.Prelude.Result.{Result, ok, err}
use tortor.Bencode.{
  BencodeError, out_of_fuel, not_a_dictionary, missing_info_dictionary, parse_byte_string, item_at,
  past_end, closing, item, Item, end_of, skip_bencode_value,
}
use tortor.Bencode.Ends.{Ends, good, bad, parse_byte_string-Ends, skip_bencode_value-Ends}

-- "info"
abbrev pub info_key : List ℕ
info_key = 105 ∷ 110 ∷ 102 ∷ 111 ∷ []

-- The range of a slice.
abbrev pub Range : Type 0
Range = Result BencodeError (ℕ × ℕ)

unfoldable pub after_value : List ℕ → ℕ → Result BencodeError ℕ → (ℕ → Range) → Range
after_value key start (err e) again = err e
after_value key start (ok end) again = elim (list_eq key info_key) [
  | true ↦ ok (start, end)
  | false ↦ again end
]

unfoldable pub after_key : List ℕ → Result BencodeError (List ℕ × ℕ) → (ℕ → Range) → Range
unfolding after_value
after_key bytes (err e) again = err e
after_key bytes (ok (key, index)) again =
    after_value key index (skip_bencode_value bytes index 0) again

unfoldable pub extract_loop : ℕ → List ℕ → ℕ → Range
unfolding after_key
extract_loop zero bytes index = err out_of_fuel
extract_loop (suc fuel) bytes index = elim (item_at bytes index) [
  | past_end ↦ err missing_info_dictionary
  | closing ↦ err missing_info_dictionary
  | item ↦ after_key bytes (parse_byte_string bytes index) (extract_loop fuel bytes)
]

-- The range of the info dictionary. A round takes a byte at least.
unfoldable pub extract_info_dictionary_slice : List ℕ → Range
unfolding extract_loop
extract_info_dictionary_slice bytes =
    if length bytes == 0 || not (get_or bytes 0 0 == 100)
    then err not_a_dictionary
    else extract_loop (suc (length bytes)) bytes 1

-- A range that the scan of a value from its start gives, inside the input; or an error of the code.
pub data Sliced (bytes : List ℕ) : Range → Type 0 where
  found :
      {start end : ℕ}
      → 0 < start
      → start < end
      → end ≤ length bytes
      → skip_bencode_value bytes start 0 ≡ ok end
      → Sliced bytes (ok (start, end))
  none_found : {e : BencodeError} → e ≢ out_of_fuel → Sliced bytes (err e)

after_value-Sliced :
    (bytes key : List ℕ) (start : ℕ) {again : ℕ → Range} (r : Result BencodeError ℕ)
    → 0 < start
    → skip_bencode_value bytes start 0 ≡ r
    → Ends bytes start r
    → ((i : ℕ) → start < i → i ≤ length bytes → Sliced bytes (again i))
    → Sliced bytes (after_value key start r again)
unfolding after_value
after_value-Sliced bytes key start (err e) pos h (bad ne) f = none_found ne
after_value-Sliced bytes key start {again = again} (ok end) pos h (good lo hi) f =
    by_key (list_eq key info_key)
  where
    by_key : (b : Bool) → Sliced bytes (elim b [ true ↦ ok (start, end) | false ↦ again end ])
    by_key true = found pos lo hi h
    by_key false = f end lo hi

after_key-Sliced :
    (bytes : List ℕ) (index : ℕ) {again : ℕ → Range} (r : Result BencodeError (List ℕ × ℕ))
    → Ends bytes index (end_of r)
    → ((i : ℕ) → index < i → i ≤ length bytes → Sliced bytes (again i))
    → Sliced bytes (after_key bytes r again)
unfolding after_key
after_key-Sliced bytes index (err e) (bad ne) f = none_found ne
after_key-Sliced bytes index (ok (key, start)) (good lo hi) f =
    after_value-Sliced bytes key start (skip_bencode_value bytes start 0) (omega arith) refl
      (skip_bencode_value-Ends bytes start 0) (λ i lo' hi'. f i (omega arith) hi')

extract_loop-Sliced :
    (fuel : ℕ) (bytes : List ℕ) (index : ℕ)
    → index ≤ length bytes
    → length bytes - index < fuel
    → Sliced bytes (extract_loop fuel bytes index)
unfolding extract_loop
extract_loop-Sliced zero bytes index le enough = absurd (omega arith)
extract_loop-Sliced (suc fuel) bytes index le enough =
    by_item (item_at bytes index) (λ i (lo : index < i) (hi : i ≤ length bytes).
      extract_loop-Sliced fuel bytes i hi (omega arith))
  where
    by_item :
        (i : Item)
        → ((i : ℕ) → index < i → i ≤ length bytes → Sliced bytes (extract_loop fuel bytes i))
        → Sliced bytes (elim i [
          | past_end ↦ err missing_info_dictionary
          | closing ↦ err missing_info_dictionary
          | item ↦ after_key bytes (parse_byte_string bytes index) (extract_loop fuel bytes)
        ])
    by_item past_end ih = none_found (λ e. cc)
    by_item closing ih = none_found (λ e. cc)
    by_item item ih =
        after_key-Sliced bytes index (parse_byte_string bytes index)
          (parse_byte_string-Ends bytes index) ih

-- The search for the info dictionary ends, in an error of the code or with the range of one whole
-- value inside the input.
pub extract_info_dictionary_slice-Sliced :
    (bytes : List ℕ) → Sliced bytes (extract_info_dictionary_slice bytes)
unfolding extract_info_dictionary_slice
extract_info_dictionary_slice-Sliced bytes =
    elim (Bool-cases (length bytes == 0 || not (get_or bytes 0 0 == 100))) [
      | inl other ↦ rw other (none_found (λ e. cc))
      | inr dict ↦
          rw dict
            (extract_loop-Sliced (suc (length bytes)) bytes 1 (ground (arith, dict)) (omega arith))
    ]
