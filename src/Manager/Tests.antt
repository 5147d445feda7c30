-- ===== src/Manager/Tests.antt =====
-- The manager at concrete inputs: a torrent of three pieces, of which one is there.
use tortor.Prelude.{ℕ, ◌<◌, ◌≡◌, ◌↔◌, refl, Bool, true, false, Option, none, some, List, [], ◌∷◌}
use tortor.Prelude.Sets.{contains}
use tortor.Bitfield
use tortor.Bitfield.{Bitfield}
use tortor.Selection
use tortor.Manager.{
  TorrentManager, with_selection, refresh, next_work_for, mark_completed, return_work, is_done,
  is_wanted,
}
use tortor.Manager.Invariant.{IsValid, with_selection-IsValid}
use tortor.Manager.Work.{Given, next_work_for-Given}
use tortor.Manager.Done.{start, assigned, returned, completed, Reach-IsValid, is_done_iff}

abbrev heads : ℕ → ℕ → Bool
heads pos ties = true

abbrev seeder : Bitfield
seeder = Bitfield.full 3

abbrev at_start : TorrentManager
at_start = with_selection 3 (1 ∷ 8 ∷ []) (Selection.all 3)

abbrev finished : TorrentManager
finished = with_selection 1 (0 ∷ []) (Selection.all 1)

at_start-IsValid : IsValid at_start
at_start-IsValid = with_selection-IsValid 3 (1 ∷ 8 ∷ []) (Selection.all 3)

given_last : (next_work_for heads seeder at_start).0 ≡ some 2
unfolding next_work_for with_selection Selection.all Bitfield.full Bitfield.from_indices
    Bitfield.has tortor.Prelude.Sets.filter_range Bitfield.set Bitfield.new
    tortor.Prelude.Bits.test_bit tortor.Prelude.Bits.set_bit tortor.Prelude.Sets.insert
given_last = refl

finished_missing : finished.missing ≡ []
unfolding with_selection Selection.all Bitfield.full Bitfield.from_indices Bitfield.has
    tortor.Prelude.Sets.filter_range Bitfield.set Bitfield.new tortor.Prelude.Bits.test_bit
    tortor.Prelude.Bits.set_bit tortor.Prelude.Sets.insert
finished_missing = refl

finished_in_progress : finished.in_progress ≡ []
unfolding with_selection
finished_in_progress = refl

Reach-IsValid_example : IsValid (
    return_work 0
      (mark_completed 2 (next_work_for heads seeder (next_work_for heads seeder at_start).1).1))
Reach-IsValid_example = Reach-IsValid (
    returned 0 (
      completed 2
        (assigned heads seeder (assigned heads seeder (start 3 (1 ∷ 8 ∷ []) (Selection.all 3))))))

next_work_for-Given_example :
    Given (Bitfield.has seeder) (refresh at_start) (next_work_for heads seeder at_start)
    × IsValid (next_work_for heads seeder at_start).1
next_work_for-Given_example = next_work_for-Given heads seeder at_start at_start-IsValid

is_done_iff_example : (is_done at_start ≡ true) ↔ (
    (p : ℕ)
    → p < at_start.total_pieces
    → is_wanted at_start p ≡ true
    → contains p at_start.completed ≡ true)
is_done_iff_example = is_done_iff at_start at_start-IsValid
