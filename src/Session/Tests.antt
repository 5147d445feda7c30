-- ===== src/Session/Tests.antt =====
-- Peer sessions at concrete inputs: a torrent of one piece of two bytes, which are their own hash.
use tortor.Prelude.{
  ℕ, ◌+◌, ◌*◌, ◌≤◌, ◌≡◌, refl, Bool, true, false, Option, none, some, List, [], ◌∷◌, All, length,
  arith,
}
use tortor.Pex.{v4}
use tortor.Assembler
use tortor.Assembler.{in_flight_count}
use tortor.Wire
use tortor.Session.{
  fails, hash_mismatch, new_session, PeerSession, UploadSlots, PeerContext, Libraries, Answers,
  Input, received, tick, Effect,
}
use tortor.Session.Slots.{new}
use tortor.Session.Work.{fill_pipeline}
use tortor.Session.Messages.{handle_message}
use tortor.Session.Endings.{IsFine, run-IsFine}
use tortor.Session.Cause.{Cause}
use tortor.Session.Errors.{handle_message-Cause}
use tortor.Assembler.Tiling.{new-IsValid}
use tortor.Session.Pipeline.{asked_for, AfterFilling, fill_pipeline-AfterFilling}
use tortor.Session.Loop.{
  run, run_peer_session, Happening, joins, takes_turn, is_aborted, happenings,
}
use tortor.Session.Ledger.{total, gains, losses, settled}
use tortor.Session.Life.{GivesBack, run_peer_session-GivesBack}
use tortor.Session.Sharing.{unchoked, holders, leaked, happenings-bounded}

abbrev libraries : Libraries
libraries = record {
  hash_piece = λ bytes. bytes;
  extended_handshake = none;
  decode_extended = λ bytes. none;
  decode_pex = λ bytes. none;
  encode_pex = λ m. none;
}

abbrev torrent : PeerContext
torrent = record {
  expected_hashes = (7 ∷ 8 ∷ []) ∷ [];
  piece_length = 2;
  total_length = some 2;
  peer_addr = v4 (10 ∷ 0 ∷ 0 ∷ 1 ∷ []) 6881;
}

abbrev at_second : ℕ → Answers
at_second n = record {
  now = n * 1000;
  request_sent = λ k. true;
  sent = true;
  keepalive_sent = true;
  hashed = true;
  coordinator_there = true;
  work = some 0;
  block = none;
}

-- The peer has the piece, unchokes us, gives the piece, and is interested.
abbrev turns : List (Answers × Input)
turns =
    (at_second 1, received (Wire.bitfield (128 ∷ [])))
    ∷ (at_second 2, received Wire.unchoke)
    ∷ (at_second 3, received (Wire.piece 0 0 (7 ∷ 8 ∷ [])))
    ∷ (at_second 4, received Wire.interested)
    ∷ []

-- A peer that says twice that it has a piece is counted twice, and taken back once.
abbrev repeats : List (Answers × Input)
repeats = (at_second 1, received (Wire.have 0)) ∷ (at_second 2, received (Wire.have 0)) ∷ []

counted_twice :
    total
      (gains 0)
      (run_peer_session libraries torrent (at_second 0) false none repeats false (new 8)).0
    ≡ 2
unfolding run_peer_session tortor.Bitfield.new tortor.Bitfield.set tortor.Bitfield.count
    tortor.Prelude.Bits.count_ones tortor.Prelude.Bits.set_bit
counted_twice = refl

taken_back_once :
    total
      (losses 0)
      (run_peer_session libraries torrent (at_second 0) false none repeats false (new 8)).0
    ≡ 1
unfolding run_peer_session tortor.Bitfield.new tortor.Bitfield.set tortor.Bitfield.count
    tortor.Prelude.Bits.count_ones tortor.Prelude.Bits.set_bit tortor.Bitfield.has
    tortor.Prelude.Bits.test_bit
taken_back_once = refl

-- The piece is handed over; it is reserved once more, and given back at the end.
settled_twice :
    total
      (settled 0)
      (run_peer_session libraries torrent (at_second 0) false none turns false (new 8)).0
    ≡ 2
unfolding run_peer_session tortor.Bitfield.from_wire tortor.Bitfield.new tortor.Bitfield.spare_ok
    tortor.Bitfield.count tortor.Prelude.Bits.count_ones tortor.Session.piece_len_at
    tortor.Assembler.in_flight_count tortor.Assembler.new tortor.Assembler.next_request
    tortor.Assembler.classify_block tortor.Assembler.add_block new
settled_twice = refl

run_peer_session-GivesBack_example :
    GivesBack libraries torrent false
      (new 8)
      (run_peer_session libraries torrent (at_second 0) false none turns false (new 8))
unfolding new
run_peer_session-GivesBack_example =
    run_peer_session-GivesBack libraries torrent (at_second 0) false none turns false (new 8)
      (omega arith) ((omega arith, tt), (tt, (tt, (tt, tt))))

-- An aborted session keeps the slot that it has.
slot_lost :
    (run_peer_session libraries torrent
      (at_second 0)
      false
      none
      ((at_second 1, received Wire.interested) ∷ [])
      true
      (new 8)).1.1.used
    ≡ 1
unfolding run_peer_session new
slot_lost = refl

-- Two sessions, two slots, and both peers are interested; the first is aborted.
abbrev crowded : List Happening
crowded =
    joins torrent (at_second 0) false none
    ∷ joins torrent (at_second 0) false none
    ∷ takes_turn 0 (at_second 1) (received Wire.interested)
    ∷ takes_turn 1 (at_second 1) (received Wire.interested)
    ∷ is_aborted 0 (some (at_second 2, tick))
    ∷ []

lost_to_aborted : leaked libraries crowded (record { slots = new 2; members = [] }) ≡ 1
unfolding happenings new
lost_to_aborted = refl

happenings-bounded_example :
    (unchoked (happenings libraries crowded (record { slots = new 2; members = [] })).members
        + leaked libraries crowded (record { slots = new 2; members = [] })
      ≤ 2)
    × ((happenings libraries crowded (record { slots = new 2; members = [] })).slots.used
        ≡ holders (happenings libraries crowded (record { slots = new 2; members = [] })).members
          + leaked libraries crowded (record { slots = new 2; members = [] }))
happenings-bounded_example = happenings-bounded libraries crowded 2 (tt, (tt, (tt, (tt, (tt, tt)))))

-- A job of a piece of 20 blocks, of which none was asked for yet.
abbrev busy : PeerSession
busy = record (new_session torrent 0) {
  job = some (record {
    index = 0;
    expected_hash = 7 ∷ 8 ∷ [];
    assembler = Assembler.new 0 327680;
    last_block = 0;
  });
  peer_choking = false;
}

sixteen_asked : length (fill_pipeline (at_second 1) busy (new 8)).effects ≡ 16
unfolding fill_pipeline in_flight_count Assembler.new Assembler.next_request
sixteen_asked = refl

none_in_flight : asked_for (at_second 1) (Assembler.new 0 327680) ≤ 16
unfolding tortor.Assembler.new in_flight_count
none_in_flight = omega arith

fill_pipeline-AfterFilling_example :
    AfterFilling
      (at_second 1)
      (Assembler.new 0 327680)
      (fill_pipeline (at_second 1) busy (new 8))
      (fill_pipeline (at_second 1) busy (new 8)).session.job
fill_pipeline-AfterFilling_example =
    fill_pipeline-AfterFilling (at_second 1) busy (new 8)
      (record {
        index = 0;
        expected_hash = 7 ∷ 8 ∷ [];
        assembler = Assembler.new 0 327680;
        last_block = 0;
      })
      refl refl none_in_flight

-- A part that completes the piece with other bytes.
abbrev cheated : PeerSession
cheated = record (new_session torrent 0) {
  job = some (record {
    index = 0;
    expected_hash = 7 ∷ 8 ∷ [];
    assembler = Assembler.new 0 2;
    last_block = 0;
  });
  peer_choking = false;
}

cheat_ends :
    (handle_message libraries torrent
      (at_second 1)
      (Wire.piece 0 0 (7 ∷ 9 ∷ []))
      cheated
      (new 8)).status
    ≡ fails hash_mismatch
unfolding handle_message Assembler.classify_block Assembler.new Assembler.add_block
cheat_ends = refl

handle_message-Cause_example :
    Cause libraries torrent (at_second 1) cheated (Wire.piece 0 0 (7 ∷ 9 ∷ [])) hash_mismatch
handle_message-Cause_example =
    handle_message-Cause libraries torrent (at_second 1) hash_mismatch (Wire.piece 0 0 (7 ∷ 9 ∷ []))
      cheated (new 8) (new-IsValid 0 2 (omega arith)) (omega arith) cheat_ends

run-IsFine_example : IsFine (run libraries torrent turns cheated (new 8))
run-IsFine_example =
    run-IsFine libraries torrent turns cheated (new 8) (omega arith)
      (tt, (tt, (omega arith, (tt, tt)))) (new-IsValid 0 2 (omega arith))
