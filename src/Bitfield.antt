-- ===== src/Bitfield.antt =====
-- The piece bitfield of src/core/bitfield.rs: a fixed-size set of piece indices in wire order.
-- The children prove its laws.
pub mod Valid
pub mod Members
pub mod Counting
mod Tests
use Prim.Native.Nat.{bit_and}
use package.tortor.Prelude.{
  ℕ, zero, suc, ◌+◌, ◌-◌, ◌*◌, ◌/◌, ◌%◌, ◌^◌, Bool, true, false, not, ◌&&◌, Option, none, some,
  List, [], ◌∷◌, if◌then◌else◌, ltb, leb, ◌==◌, length, replicate, get_or, get_elem?,
  set as set_elem,
}
use package.tortor.Prelude.Words.{div_ceil}
use package.tortor.Prelude.Bits.{test_bit, set_bit, count_ones}
use package.tortor.Prelude.Sets.{filter_range}

pub record Bitfield : Type 0 where
  pub bytes : List ℕ
  pub len : ℕ

unfoldable pub new : ℕ → Bitfield
new len = record { bytes = replicate (div_ceil len 8) 0; len = len }

-- The byte of an index, read without the bound that the callers check.
abbrev pub bit : List ℕ → ℕ → Bool
bit bytes i = test_bit (get_or bytes (i / 8) 0) (i % 8)

unfoldable pub has : Bitfield → ℕ → Bool
has f i = ltb i f.len && bit f.bytes i

-- The new field, and whether the index was in range.
unfoldable pub set : Bitfield → ℕ → Bitfield × Bool
set f i = if leb f.len i then (f, false) else (
  record f { bytes = set_elem f.bytes (i / 8) (set_bit (get_or f.bytes (i / 8) 0) (i % 8)) },
  true,
)

-- The loop of `from_indices`.
unfoldable pub set_all : List ℕ → Bitfield → Bitfield
set_all [] f = f
set_all (i ∷ is) f = set_all is (set f i).0

unfoldable pub from_indices : ℕ → List ℕ → Bitfield
unfolding set_all
from_indices len indices = set_all indices (new len)

unfoldable pub full : ℕ → Bitfield
full len = from_indices len (filter_range 0 len (λ _. true))

-- `payload.last()`
abbrev pub last? : List ℕ → Option ℕ
last? xs = get_elem? xs (length xs - 1)

-- The check of the spare bits, under the length check of `from_wire`.
unfoldable pub spare_ok : ℕ → List ℕ → Option Bool
spare_ok spare payload =
    if ltb 0 spare
    then (elim (last? payload) [
      | none ↦ none
      | some last ↦ some (bit_and last (2 ^ spare - 1) == 0)
    ])
    else some true

unfoldable pub from_wire : ℕ → List ℕ → Option Bitfield
from_wire len payload =
    if length payload == div_ceil len 8
    then elim (spare_ok (length payload * 8 - len) payload) [
      | some true ↦ some (record { bytes = payload; len = len })
      | _ ↦ none
    ]
    else none

unfoldable pub is_empty : Bitfield → Bool
is_empty f = f.len == 0

abbrev pub sum_ones : List ℕ → ℕ
sum_ones [] = 0
sum_ones (b ∷ bs) = count_ones b + sum_ones bs

unfoldable pub count : Bitfield → ℕ
count f = sum_ones f.bytes

unfoldable pub iter_ones : Bitfield → List ℕ
iter_ones f = filter_range 0 f.len (has f)
