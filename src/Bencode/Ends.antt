-- ===== src/Bencode/Ends.antt =====
-- The scanner ends inside the input, and its fuel is enough.
use tortor.Prelude.{
  ℕ, zero, suc, ◌+◌, ◌-◌, ◌*◌, ◌≤◌, ◌<◌, ◌≡◌, ◌≢◌, refl, ap, ◌∙◌, inl, inr, not, ◌&&◌, ◌||◌, List,
  ltb, leb, ◌==◌, Bool-cases, length, drop, slice, get_or, arith,
}
use tortor.Prelude.Words.{u64_mod}
use tortor.Prelude.Result.{Result, ok, err}
use tortor.Bencode.{
  BencodeError, out_of_fuel, unterminated_list, unterminated_dictionary, unknown_prefix,
  integer_run, byte_string_at, parse_byte_string, Prefix, integer, list, dictionary, byte_string,
  unknown, integer_end, end_of, then_at, Item, past_end, closing, item, item_at, Start, refused,
  value, start_of, skip_value, skip_list, skip_dict, skip_bencode_value, digits_value,
}

-- A scan from `start`: it ends behind `start` and inside the input, or in an error of the code.
pub data Ends (bytes : List ℕ) (start : ℕ) : Result BencodeError ℕ → Type 0 where
  good : {end : ℕ} → start < end → end ≤ length bytes → Ends bytes start (ok end)
  bad : {e : BencodeError} → e ≢ out_of_fuel → Ends bytes start (err e)

byte_string_at-Ends :
    (bytes : List ℕ) (start index : ℕ)
    → start ≤ index
    → Ends bytes start (end_of (byte_string_at bytes start index))
unfolding byte_string_at
byte_string_at-Ends bytes start index le =
    let len = digits_value 0 (slice start index bytes) in
    elim (Bool-cases (leb (length bytes) index || not (get_or bytes index 0 == 58))) [
      | inl no_colon ↦ rw no_colon (bad (λ e. cc))
      | inr colon ↦ elim (Bool-cases (leb u64_mod len)) [
        | inl wide ↦ rw (colon, wide) (bad (λ e. cc))
        | inr fits ↦ elim (Bool-cases (leb u64_mod (index + 1 + len))) [
          | inl over ↦ rw (colon, fits, over) (bad (λ e. cc))
          | inr below ↦ elim (Bool-cases (ltb (length bytes) (index + 1 + len))) [
            | inl beyond ↦ rw (colon, fits, below, beyond) (bad (λ e. cc))
            | inr inside ↦
                rw (colon, fits, below, inside) (good (omega arith) (ground (arith, inside)))
          ]
        ]
      ]
    ]

pub parse_byte_string-Ends :
    (bytes : List ℕ) (start : ℕ) → Ends bytes start (end_of (parse_byte_string bytes start))
unfolding parse_byte_string
parse_byte_string-Ends bytes start =
    elim (Bool-cases (
      leb (length bytes) start
      || not (leb 48 (get_or bytes start 0) && leb (get_or bytes start 0) 57))) [
        | inl no_prefix ↦ rw no_prefix (bad (λ e. cc))
        | inr digit ↦ rw digit (byte_string_at-Ends bytes start _ (omega arith))
      ]

integer_end-Ends : (bytes : List ℕ) (index : ℕ) → Ends bytes index (integer_end bytes index)
unfolding integer_end
integer_end-Ends bytes index =
    elim (Bool-cases (leb (length bytes) (index + integer_run (drop index bytes)))) [
      | inl over ↦ rw over (bad (λ e. cc))
      | inr inside ↦ rw inside (good (omega arith) (ground (arith, inside)))
    ]

Ends-earlier :
    {bytes : List ℕ} {r : Result BencodeError ℕ} (from to : ℕ)
    → from ≤ to
    → Ends bytes to r
    → Ends bytes from r
Ends-earlier from to le (good lo hi) = good (omega arith) hi
Ends-earlier from to le (bad e) = bad e

then_at-Ends :
    {bytes : List ℕ} {next : ℕ → Result BencodeError ℕ} (start : ℕ) (r : Result BencodeError ℕ)
    → Ends bytes start r
    → ((i : ℕ) → start < i → i ≤ length bytes → Ends bytes i (next i))
    → Ends bytes start (then_at r next)
unfolding then_at
then_at-Ends start (ok i) (good lo hi) f = Ends-earlier start i (omega arith) (f i lo hi)
then_at-Ends start (err e) (bad ne) f = bad ne

item_at-item : (bytes : List ℕ) (index : ℕ) → item_at bytes index ≢ past_end → index < length bytes
unfolding item_at
item_at-item bytes index ne = elim (Bool-cases (leb (length bytes) index)) [
  | inl over ↦ absurd (ne (rw over))
  | inr inside ↦ ground (arith, inside)
]

start_of-value :
    (bytes : List ℕ) (start depth : ℕ) (p : Prefix)
    → start_of bytes start depth ≡ value p
    → start < length bytes
unfolding start_of
start_of-value bytes start depth p e = elim (Bool-cases (leb (length bytes) start)) [
  | inl over ↦ absurd (ground (arith, e, over))
  | inr inside ↦ ground (arith, inside)
]

start_of-ne-out_of_fuel :
    (bytes : List ℕ) (start depth : ℕ) → start_of bytes start depth ≢ refused out_of_fuel
unfolding start_of
start_of-ne-out_of_fuel bytes start depth e = ground (arith, e)

module _ (bytes : List ℕ) (f : ℕ)
    (on_value : (start depth : ℕ)
      → 2 * (length bytes - start) + 1 ≤ f
      → Ends bytes start (skip_value f bytes start depth))
    (on_list : (index depth : ℕ)
      → 2 * (length bytes - index) + 2 ≤ f
      → Ends bytes index (skip_list f bytes index depth))
    (on_dict : (index depth : ℕ)
      → 2 * (length bytes - index) + 2 ≤ f
      → Ends bytes index (skip_dict f bytes index depth)) where
  value_step :
      (start depth : ℕ)
      → 2 * (length bytes - start) + 1 ≤ suc f
      → Ends bytes start (skip_value (suc f) bytes start depth)
  unfolding skip_value
  value_step start depth fuel = by_start (start_of bytes start depth) refl
    where
      by_start :
          (s : Start)
          → start_of bytes start depth ≡ s
          → Ends bytes start (elim s [
            | refused e ↦ err e
            | value p ↦ elim p [
              | integer ↦ integer_end bytes (start + 1)
              | list ↦ skip_list f bytes (start + 1) depth
              | dictionary ↦ skip_dict f bytes (start + 1) depth
              | byte_string ↦ end_of (parse_byte_string bytes start)
              | unknown ↦ err unknown_prefix
            ]
          ])
      by_start (refused e) h =
          bad (λ same. start_of-ne-out_of_fuel bytes start depth (h ∙ ap refused same))
      by_start (value integer) h =
          Ends-earlier start (start + 1) (omega arith) (integer_end-Ends bytes (start + 1))
      by_start (value list) h =
          let lt = start_of-value bytes start depth list h in
          Ends-earlier start (start + 1) (omega arith) (on_list (start + 1) depth (omega arith))
      by_start (value dictionary) h =
          let lt = start_of-value bytes start depth dictionary h in
          Ends-earlier start (start + 1) (omega arith) (on_dict (start + 1) depth (omega arith))
      by_start (value byte_string) h = parse_byte_string-Ends bytes start
      by_start (value unknown) h = bad (λ e. cc)

  list_step :
      (index depth : ℕ)
      → 2 * (length bytes - index) + 2 ≤ suc f
      → Ends bytes index (skip_list (suc f) bytes index depth)
  unfolding skip_list
  list_step index depth fuel = by_item (item_at bytes index) refl
    where
      by_item :
          (i : Item)
          → item_at bytes index ≡ i
          → Ends bytes index (elim i [
            | past_end ↦ err unterminated_list
            | closing ↦ ok (index + 1)
            | item ↦
                then_at
                  (skip_value f bytes index (depth + 1))
                  (λ next. skip_list f bytes next depth)
          ])
      by_item past_end h = bad (λ e. cc)
      by_item closing h =
          good (omega arith) (let lt = item_at-item bytes index (λ e. cc) in omega arith)
      by_item item h =
          let lt = item_at-item bytes index (λ e. cc) in
          then_at-Ends index _ (on_value index (depth + 1) (omega arith))
            (λ i lo hi. on_list i depth (omega arith))

  dict_step :
      (index depth : ℕ)
      → 2 * (length bytes - index) + 2 ≤ suc f
      → Ends bytes index (skip_dict (suc f) bytes index depth)
  unfolding skip_dict
  dict_step index depth fuel = by_item (item_at bytes index) refl
    where
      by_item :
          (i : Item)
          → item_at bytes index ≡ i
          → Ends bytes index (elim i [
            | past_end ↦ err unterminated_dictionary
            | closing ↦ ok (index + 1)
            | item ↦ then_at (end_of (parse_byte_string bytes index)) (λ key_end.
                then_at
                  (skip_value f bytes key_end (depth + 1))
                  (λ next. skip_dict f bytes next depth))
          ])
      by_item past_end h = bad (λ e. cc)
      by_item closing h =
          good (omega arith) (let lt = item_at-item bytes index (λ e. cc) in omega arith)
      by_item item h = then_at-Ends index _ (parse_byte_string-Ends bytes index) (λ k lo hi.
          then_at-Ends k _ (on_value k (depth + 1) (omega arith))
            (λ i lo' hi'. on_dict i depth (omega arith)))

scan-Ends :
    (f : ℕ) (bytes : List ℕ)
    → ((start depth : ℕ)
        → 2 * (length bytes - start) + 1 ≤ f
        → Ends bytes start (skip_value f bytes start depth))
      × ((index depth : ℕ)
          → 2 * (length bytes - index) + 2 ≤ f
          → Ends bytes index (skip_list f bytes index depth))
      × ((index depth : ℕ)
          → 2 * (length bytes - index) + 2 ≤ f
          → Ends bytes index (skip_dict f bytes index depth))
scan-Ends zero bytes =
    (λ s d h. absurd (omega arith), λ s d h. absurd (omega arith), λ s d h. absurd (omega arith))
scan-Ends (suc f) bytes =
    let ih = scan-Ends f bytes in
    (
      value_step bytes f ih.0 ih.1 ih.2,
      list_step bytes f ih.0 ih.1 ih.2,
      dict_step bytes f ih.0 ih.1 ih.2,
    )

-- Whatever the bytes, the scan of a value ends: in an error of the code, or behind its start and
-- not behind the end of the input. It never ends for want of fuel.
pub skip_bencode_value-Ends :
    (bytes : List ℕ) (start depth : ℕ) → Ends bytes start (skip_bencode_value bytes start depth)
unfolding skip_bencode_value
skip_bencode_value-Ends bytes start depth =
    (scan-Ends (2 * length bytes + 2) bytes).0 start depth (omega arith)
