-- ===== src/Bitfield/Tests.antt =====
-- The bitfield at concrete inputs: a field of ten pieces.
use tortor.Prelude.{
  ℕ, ◌≡◌, ◌↔◌, refl, Bool, true, false, ◌&&◌, ◌||◌, Option, none, some, List, [], ◌∷◌, ◌==◌, ltb,
  length, All, arith,
}
use tortor.Prelude.Sets.{contains}
use tortor.Bitfield.{Bitfield, has, set, from_indices, from_wire, count, iter_ones}

abbrev ten : Bitfield
ten = from_indices 10 (0 ∷ 9 ∷ 3 ∷ 12 ∷ [])

ten_bytes : ten.bytes ≡ 144 ∷ 64 ∷ []
unfolding from_indices set tortor.Bitfield.new tortor.Prelude.Bits.set_bit
ten_bytes = refl

ten_ones : iter_ones ten ≡ 0 ∷ 3 ∷ 9 ∷ []
unfolding iter_ones from_indices tortor.Prelude.Sets.filter_range set tortor.Bitfield.new has
    tortor.Prelude.Bits.test_bit tortor.Prelude.Bits.set_bit
ten_ones = refl

spare_bit : from_wire 10 (144 ∷ 65 ∷ []) ≡ none
unfolding from_wire tortor.Bitfield.spare_ok
spare_bit = refl
