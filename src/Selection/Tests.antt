-- ===== src/Selection/Tests.antt =====
-- The selection at concrete inputs: three files of 10, 5 and 12 bytes in pieces of 8.
use tortor.Prelude.{ℕ, ◌≤◌, ◌≡◌, ◌↔◌, refl, Bool, true, false, List, [], ◌∷◌, arith}
use tortor.Bitfield
use tortor.Selection.{TorrentFile, from_files, pieces_to_refetch}
use tortor.Selection.Touches.{Overlaps}
use tortor.Selection.Overlap.{field, from_files_iff}
use tortor.Selection.Bytes.{NewlyOverlaps, pieces_to_refetch_iff}

abbrev file : ℕ → TorrentFile
file n = record { length = n; path = [] }

abbrev three : List TorrentFile
three = file 10 ∷ file 5 ∷ file 12 ∷ []

-- The middle file is skipped: it lies in the second piece, which the others need.
wanted_all :
    Bitfield.iter_ones (from_files three (true ∷ false ∷ true ∷ []) 8 4).wanted ≡ 0 ∷ 1 ∷ 2 ∷ 3 ∷ []
unfolding Bitfield.iter_ones tortor.Prelude.Sets.filter_range from_files Bitfield.set_all
    Bitfield.set Bitfield.new Bitfield.has tortor.Prelude.Bits.test_bit tortor.Prelude.Bits.set_bit
wanted_all = refl

unservable_second :
    Bitfield.iter_ones (from_files three (true ∷ false ∷ true ∷ []) 8 4).unservable ≡ 1 ∷ []
unfolding Bitfield.iter_ones tortor.Prelude.Sets.filter_range from_files Bitfield.set_all
    Bitfield.set Bitfield.new Bitfield.has tortor.Prelude.Bits.test_bit tortor.Prelude.Bits.set_bit
unservable_second = refl

from_files_iff_example :
    (Bitfield.has (field false (from_files three (true ∷ false ∷ true ∷ []) 8 4)) 1 ≡ true)
    ↔ Overlaps false 8 three (true ∷ false ∷ true ∷ []) 0 1
from_files_iff_example =
    from_files_iff three (true ∷ false ∷ true ∷ []) 8 4 false 1 (ground arith) (ground arith)

pieces_to_refetch_iff_example :
    (Bitfield.has
        (pieces_to_refetch three (true ∷ false ∷ true ∷ []) (true ∷ true ∷ true ∷ []) 8 4)
        1
      ≡ true)
    ↔ NewlyOverlaps 8 three (true ∷ false ∷ true ∷ []) (true ∷ true ∷ true ∷ []) 0 1
pieces_to_refetch_iff_example =
    pieces_to_refetch_iff three (true ∷ false ∷ true ∷ []) (true ∷ true ∷ true ∷ []) 8 4 1
      (ground arith) (ground arith)
