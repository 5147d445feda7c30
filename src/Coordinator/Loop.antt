-- ===== src/Coordinator/Loop.antt =====
-- The check of the stored files, the metadata phase and the rounds of the loop.
use tortor.Prelude.{
  ℕ, ◌+◌, ◌-◌, ◌*◌, ◌%◌, Bool, true, false, ◌&&◌, Option, none, some, List, [], ◌∷◌, ◌++◌,
  if◌then◌else◌, ltb, leb, ◌==◌, length, get_or, list_eq,
}
use tortor.Prelude.Words.{u32_mod}
use tortor.Prelude.Result.{Result, ok, err}
use tortor.Manager
use tortor.Manager.{TorrentManager}
use tortor.MetadataAssembler
use tortor.MetadataAssembler.{MetadataAssembler, MetadataError}
use tortor.Torrent.{TorrentMeta}
use tortor.Bencode.Meta.{RawInfo}
use tortor.Bencode.Parse.{ParseError, parse_torrent_metadata_bytes}
use tortor.Coordinator.{
  CoordinatorMsg, request_work, peer_bitfield, peer_have, peer_gone, piece_downloaded, piece_failed,
  get_completed_pieces, read_piece, request_metadata_work, metadata_piece_downloaded,
  metadata_piece_failed, pause, resume, set_selection, Event, incoming, tick, Effect, reply_work,
  reply_pieces, reply_block, reply_metadata_work, metadata_ready, World, Fetching, Checking,
  CoordinatorState, downloading_metadata, checking_files, downloading_data, Outcome, leave,
  Coordinator, on_manager, complete_if, announce_piece,
}
use tortor.Coordinator.Handlers.{persist_resume, give_work, store, serve, select, pause_to}

-- The length of a piece to check, a `u32`.
unfoldable pub check_len : Checking → ℕ
check_len c =
    let rem = c.total_length % c.piece_length % u32_mod in
    if c.next_piece == c.manager.total_pieces - 1
    then (if rem == 0 then c.piece_length else rem)
    else c.piece_length

unfoldable pub after_check : Checking → Outcome
after_check c =
    let has_completed = Manager.is_done c.manager in
    leave (complete_if has_completed) (
      downloading_data
        (record { manager = c.manager; paused = false; has_completed = has_completed }))

-- With the outcome of the check of one piece.
unfoldable pub checked : Bool → Checking → Checking
checked verified c = record c {
  manager = (if verified then Manager.mark_completed c.next_piece c.manager else c.manager);
  next_piece = c.next_piece + 1;
}

module _ (windows : Bool) (hash_sha1 : List ℕ → List ℕ) (decode : List ℕ → Option RawInfo) where
  -- The manager and the disk for metadata that has arrived.
  unfoldable pub start_download : World → TorrentMeta → CoordinatorState
  start_download w meta =
      let manager = Manager.new (length meta.pieces % u32_mod) in
      if w.target_exists
      then checking_files (record {
        manager = manager;
        expected_hashes = meta.pieces;
        piece_length = meta.piece_length;
        total_length = elim meta.total_length [
          | some n ↦ n
          | none ↦ meta.piece_length * meta.pieces_count
        ];
        next_piece = 0;
      })
      else downloading_data (record { manager = manager; paused = false; has_completed = false })

  unfoldable pub on_parsed : World → Fetching → Result ParseError TorrentMeta → Outcome
  unfolding start_download
  on_parsed w f (err e) = leave [] (downloading_metadata f)
  on_parsed w f (ok meta) =
      leave (metadata_ready meta ∷ [])
        (if w.disk_ready then start_download w meta else downloading_metadata f)

  unfoldable pub on_added : World → Fetching → Result MetadataError Bool → Outcome
  unfolding on_parsed
  on_added w f (err e) = leave [] (downloading_metadata f)
  on_added w f (ok false) = leave [] (downloading_metadata f)
  on_added w f (ok true) =
      on_parsed w f
        (parse_torrent_metadata_bytes windows hash_sha1 decode f.assembler.buffer f.info_hash)

  unfoldable pub add_metadata : World → ℕ → List ℕ → Fetching → Outcome
  unfolding on_added
  add_metadata w piece bytes f =
      let added = MetadataAssembler.add_piece f.assembler piece bytes in
      on_added w (record f { assembler = added.1 }) added.0

  -- Whether the stored piece is read and has the expected hash. The index is in range
  -- (Coordinator/Invariant).
  unfoldable pub verified : World → Checking → Bool
  unfolding check_len
  verified w c =
      if Manager.is_wanted c.manager c.next_piece
      then elim (w.block_at c.next_piece 0 (check_len c)) [
        | none ↦ false
        | some bytes ↦ list_eq (hash_sha1 bytes) (get_or c.expected_hashes c.next_piece [])
      ]
      else false

  unfoldable pub check_piece : World → Checking → Outcome
  unfolding checked verified after_check
  check_piece w c =
      let c' = checked (verified w c) c in
      let es : List Effect = if verified w c then announce_piece c'.manager c.next_piece else [] in
      if leb c.manager.total_pieces c'.next_piece
      then leave (es ++ (after_check c').effects) (after_check c').state
      else leave es (checking_files c')

  unfoldable pub check_tick : World → CoordinatorState → Outcome
  unfolding check_piece
  check_tick w (downloading_metadata f) = leave [] (downloading_metadata f)
  check_tick w (downloading_data d) = leave [] (downloading_data d)
  check_tick w (checking_files c) =
      if leb c.manager.total_pieces c.next_piece then after_check c else check_piece w c

  unfoldable pub handle : World → ℕ → CoordinatorMsg → CoordinatorState → Outcome
  unfolding give_work store serve add_metadata
  handle w last (request_work have) (downloading_data d) = give_work w have d
  handle w last (request_work have) s = leave (reply_work none ∷ []) s
  handle w last (peer_bitfield f) s = leave [] (on_manager (Manager.add_peer_pieces f) s)
  handle w last (peer_have i) s = leave [] (on_manager (Manager.add_peer_piece i) s)
  handle w last (peer_gone f) s = leave [] (on_manager (Manager.remove_peer_pieces f) s)
  handle w last (piece_downloaded p bytes) (downloading_data d) = store w last p bytes d
  handle w last (piece_downloaded p bytes) s = leave [] s
  handle w last (piece_failed p) (downloading_data d) =
      leave [] (downloading_data (record d { manager = Manager.return_work p d.manager }))
  handle w last (piece_failed p) s = leave [] s
  handle w last get_completed_pieces (downloading_data d) =
      leave (reply_pieces (Manager.servable_pieces d.manager) ∷ []) (downloading_data d)
  handle w last get_completed_pieces s = leave (reply_pieces [] ∷ []) s
  handle w last (read_piece index begin len) (downloading_data d) =
      leave (reply_block (serve w index begin len d.manager) ∷ []) (downloading_data d)
  handle w last (read_piece index begin len) s = leave (reply_block none ∷ []) s
  handle w last request_metadata_work (downloading_metadata f) =
      leave (reply_metadata_work (MetadataAssembler.next_missing_piece f.assembler) ∷ [])
        (downloading_metadata f)
  handle w last request_metadata_work s = leave (reply_metadata_work none ∷ []) s
  handle w last (metadata_piece_downloaded piece bytes) (downloading_metadata f) =
      add_metadata w piece bytes f
  handle w last (metadata_piece_downloaded piece bytes) s = leave [] s
  handle w last (metadata_piece_failed piece) s = leave [] s
  handle w last pause s = pause_to true s
  handle w last resume s = pause_to false s
  handle w last (set_selection selection files refetch) s = select w selection files refetch s

  unfoldable pub round : World → ℕ → Event → CoordinatorState → Outcome
  unfolding handle check_tick
  round w last (incoming msg) s = handle w last msg s
  round w last tick s = check_tick w s

  unfoldable pub step : World → Event → Coordinator → List Effect × Coordinator
  unfolding round
  step w e c =
      let r = round w c.last_persist e c.state in
      (
        r.effects,
        record { state = r.state; last_persist = (if r.persisted then w.now else c.last_persist) },
      )

  -- The rounds of the loop until it is stopped.
  unfoldable pub run : List (World × Event) → Coordinator → List Effect × Coordinator
  unfolding step
  run [] c = ([], c)
  run ((w, e) ∷ es) c =
      let first = step w e c in let rest = run es first.1 in (first.0 ++ rest.0, rest.1)

-- What happens behind the loop, at shutdown.
unfoldable pub stop : World → CoordinatorState → List Effect
unfolding persist_resume
stop w (downloading_metadata f) = []
stop w (checking_files c) = []
stop w (downloading_data d) = persist_resume w d.manager

-- Where a torrent starts.
unfoldable pub initial_coordinator_state :
    TorrentManager → Bool → List (List ℕ) → ℕ → ℕ → Bool → CoordinatorState
initial_coordinator_state manager requires_check pieces piece_length total_length start_paused =
    if requires_check && ltb 0 (length pieces)
    then checking_files (record {
      manager = manager;
      expected_hashes = pieces;
      piece_length = piece_length;
      total_length = total_length;
      next_piece = 0;
    })
    else downloading_data
        (record { manager = manager; paused = start_paused; has_completed = false })
