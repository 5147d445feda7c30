-- ===== src/Coordinator/Tests.antt =====
-- The coordinator at concrete inputs: a torrent of two pieces whose first one is stored and matches.
use tortor.Prelude.{
  ℕ, suc, ◌≡◌, refl, Bool, true, false, not, ◌&&◌, Option, none, some, List, [], ◌∷◌, All, arith,
}
use tortor.Prelude.Sets.{contains}
use tortor.Bitfield
use tortor.Selection
use tortor.Manager
use tortor.Bencode.Meta.{RawInfo}
use tortor.Bencode.Tiled.{IsWord}
use tortor.Coordinator.{
  World, Event, incoming, tick, read_piece, piece_downloaded, set_selection, Checking,
  checking_files, Coordinator,
}
use tortor.Coordinator.Loop.{initial_coordinator_state, step, run}
use tortor.Coordinator.Invariant.{IsValid}
use tortor.Coordinator.Runs.{initial_coordinator_state-IsValid, run-IsValid}
use tortor.Coordinator.Effects.{Justified}
use tortor.Coordinator.Flushes.{AreFlushed}
use tortor.Coordinator.Justify.{step-Justified}
use tortor.Coordinator.Complete.{completions, one_if, has_completed_in, completions-step}
use tortor.Coordinator.Check.{Settled, ticks, ticks-Settled}

-- The bytes are their own hash.
abbrev own_hash : List ℕ → List ℕ
own_hash bytes = bytes

abbrev no_decoder : List ℕ → Option RawInfo
no_decoder bytes = none

-- The disk holds the index of each piece.
abbrev world : World
world = record {
  now = 9000;
  coin = λ pos ties. true;
  written = true;
  flushed = true;
  files_selected = true;
  disk_ready = true;
  target_exists = true;
  block_at = λ index begin len. some (index ∷ []);
}

abbrev two_pieces : Checking
two_pieces = record {
  manager = Manager.with_selection 2 [] (Selection.all 2);
  expected_hashes = (0 ∷ []) ∷ (9 ∷ []) ∷ [];
  piece_length = 16;
  total_length = 20;
  next_piece = 0;
}

abbrev start : Coordinator
start = record {
  state =
      initial_coordinator_state (Manager.with_selection 2 [] (Selection.all 2)) true
        ((0 ∷ []) ∷ (9 ∷ []) ∷ []) 16 20 false;
  last_persist = 0;
}

abbrev a_run : List (World × Event)
a_run =
    (world, tick)
    ∷ (world, tick)
    ∷ (world, incoming (read_piece 0 0 16))
    ∷ (world, incoming (piece_downloaded 1 (5 ∷ [])))
    ∷ []

-- The second piece fails the check, is downloaded, and ends the download.
ends_once : completions (run false own_hash no_decoder a_run start).0 ≡ 1
unfolding run initial_coordinator_state Manager.with_selection tortor.Bitfield.has Selection.all
    tortor.Bitfield.full tortor.Bitfield.from_indices tortor.Prelude.Sets.filter_range
    tortor.Bitfield.set tortor.Bitfield.new tortor.Prelude.Bits.test_bit tortor.Prelude.Bits.set_bit
    Manager.is_servable Manager.mark_completed tortor.Prelude.Sets.insert Manager.is_done
ends_once = refl

-- A torrent that was complete when it was saved starts without a record of that.
abbrev restored : Coordinator
restored = record {
  state =
      initial_coordinator_state (Manager.with_selection 2 (0 ∷ 1 ∷ []) (Selection.all 2)) false
        ((0 ∷ []) ∷ (9 ∷ []) ∷ []) 16 20 false;
  last_persist = 0;
}

restored_ends_again :
    completions
      (step false own_hash no_decoder world
        (incoming (set_selection (Selection.all 2) [] (Bitfield.new 2)))
        restored).0
    ≡ 1
unfolding step tortor.Coordinator.Handlers.select initial_coordinator_state Manager.is_done
    Manager.apply_selection Bitfield.iter_ones tortor.Prelude.Sets.filter_range Bitfield.new
    Bitfield.has tortor.Prelude.Bits.test_bit Manager.with_selection tortor.Prelude.Sets.insert
    Selection.all Bitfield.full Bitfield.from_indices Bitfield.set tortor.Prelude.Bits.set_bit
restored_ends_again = refl

start-IsValid : IsValid start.state
start-IsValid =
    initial_coordinator_state-IsValid 2 [] (Selection.all 2) true ((0 ∷ []) ∷ (9 ∷ []) ∷ []) 16 20
      false (omega arith) (omega arith)

nothing-IsWord :
    (bytes : List ℕ) (info : RawInfo) → no_decoder bytes ≡ some info → IsWord info.length
nothing-IsWord bytes info e = absurd (ground (arith, e))

run-IsValid_example : IsValid (run false own_hash no_decoder a_run start).1.state
run-IsValid_example = run-IsValid false own_hash no_decoder nothing-IsWord a_run start start-IsValid

abbrev checked_once : Coordinator
checked_once = (run false own_hash no_decoder ((world, tick) ∷ (world, tick) ∷ []) start).1

step-Justified_example :
    All
      (Justified world
        (incoming (piece_downloaded 1 []))
        checked_once.state
        (step false own_hash no_decoder world
          (incoming (piece_downloaded 1 []))
          checked_once).1.state)
      (step false own_hash no_decoder world (incoming (piece_downloaded 1 [])) checked_once).0
    × AreFlushed false
        (step false own_hash no_decoder world (incoming (piece_downloaded 1 [])) checked_once).0
step-Justified_example =
    step-Justified false own_hash no_decoder world (incoming (piece_downloaded 1 [])) checked_once (
      run-IsValid false own_hash no_decoder nothing-IsWord ((world, tick) ∷ (world, tick) ∷ [])
        start start-IsValid)

completions-step_example :
    completions
      (step false own_hash no_decoder world (incoming (piece_downloaded 1 [])) checked_once).0
    ≡ one_if (
        not (has_completed_in checked_once.state)
        && has_completed_in
            (step false own_hash no_decoder world
              (incoming (piece_downloaded 1 []))
              checked_once).1.state)
completions-step_example =
    completions-step false own_hash no_decoder world (incoming (piece_downloaded 1 [])) checked_once

ticks-Settled_example :
    Settled false own_hash no_decoder world two_pieces
      (ticks false own_hash no_decoder 2 world (checking_files two_pieces))
unfolding Manager.with_selection
ticks-Settled_example =
    ticks-Settled false own_hash no_decoder 1 world two_pieces refl
      (record { positive = omega arith; word = omega arith; count = refl })
