-- ===== src/Coordinator/Runs.antt =====
-- The coordinator stays well formed through any run of messages and ticks.
use tortor.Prelude.{
  ℕ, ◌≤◌, ◌<◌, ◌≡◌, refl, inl, inr, Bool, true, false, ◌&&◌, Option, some, List, [], ◌∷◌, leb, ltb,
  Bool-cases, length, arith, ◌%◌,
}
use tortor.Prelude.Words.{u32_mod}
use tortor.Prelude.Result.{Result, ok, err}
use tortor.Manager
use tortor.Manager.{TorrentManager}
use tortor.Manager.Invariant.{with_selection-IsValid}
use tortor.Manager.Steps.{
  mark_completed-IsValid, add_peer_pieces-IsValid, remove_peer_pieces-IsValid,
  add_peer_piece-IsValid,
}
use tortor.Selection
use tortor.Selection.{Selection}
use tortor.MetadataAssembler.{MetadataError}
use tortor.MetadataAssembler.Complete.{add_piece-IsValid}
use tortor.Torrent.{TorrentMeta}
use tortor.Bencode.Meta.{RawInfo}
use tortor.Bencode.Parse.{ParseError}
use tortor.Bencode.Tiled.{IsWord}
use tortor.Bencode.Accepts.{parse_torrent_metadata_bytes-IsGenuine}
use tortor.Coordinator.{
  CoordinatorMsg, request_work, peer_bitfield, peer_have, peer_gone, piece_downloaded, piece_failed,
  get_completed_pieces, read_piece, request_metadata_work, metadata_piece_downloaded,
  metadata_piece_failed, pause, resume, set_selection, Event, incoming, tick, Fetching, Checking,
  CoordinatorState, downloading_metadata, checking_files, downloading_data, World, Coordinator,
}
use tortor.Coordinator.Loop.{
  start_download, on_parsed, on_added, add_metadata, verified, checked, check_piece, after_check,
  check_tick, handle, round, step, run, initial_coordinator_state,
}
use tortor.Coordinator.Counts.{Agrees}
use tortor.Coordinator.Invariant.{
  IsValid, fetching, checking, downloading, CheckOk, on_manager-IsValid, give_work-IsValid,
  returned-DataOk, store-IsValid, select-IsValid, pause_to-IsValid, mark_completed-total,
}

-- A manager comes with a hash for each of its pieces, and pieces have a length.
pub initial_coordinator_state-IsValid :
    (total : ℕ) (completed : List ℕ) (s : Selection) (check : Bool) (pieces : List (List ℕ))
    (piece_length total_length : ℕ) (paused : Bool)
    → total ≤ length pieces
    → 0 < piece_length
    → IsValid (
        initial_coordinator_state
          (Manager.with_selection total completed s)
          check
          pieces
          piece_length
          total_length
          paused)
unfolding initial_coordinator_state Manager.with_selection
initial_coordinator_state-IsValid total completed s check pieces piece_length total_length paused le
      pos =
    let v = with_selection-IsValid total completed s in
    elim (Bool-cases (check && ltb 0 (length pieces))) [
      | inl must ↦
          rw must
            (checking (record { manager = v; hashes = le; piece_length = pos; next = omega arith }))
      | inr skip ↦ rw skip (downloading (record { manager = v; completed = λ h. cc h }))
    ]

-- Only the counters of the peers change.
recounted :
    (m : TorrentManager) (counters : List ℕ) → Agrees m (record m { availability = counters })
recounted m counters = record {
  total = refl;
  completed = refl;
  selection = refl;
  wanted_total = refl;
  wanted_completed = refl;
}

after_check-IsValid : (c : Checking) → CheckOk c → IsValid (after_check c).state
unfolding after_check
after_check-IsValid c k = downloading (record { manager = k.manager; completed = λ h. h })

checked-CheckOk :
    (b : Bool) (c : Checking)
    → CheckOk c
    → c.next_piece < c.manager.total_pieces
    → CheckOk (checked b c)
unfolding checked
checked-CheckOk false c k lt = record {
  manager = k.manager;
  hashes = k.hashes;
  piece_length = k.piece_length;
  next = omega arith;
}
checked-CheckOk true c k lt =
    let total = mark_completed-total c.next_piece c.manager in
    record {
      manager = mark_completed-IsValid c.next_piece c.manager k.manager;
      hashes = ground (arith, total, k.hashes);
      piece_length = k.piece_length;
      next = ground (arith, total, lt);
    }

module _ (windows : Bool) (hash_sha1 : List ℕ → List ℕ) (decode : List ℕ → Option RawInfo)
    -- The decoder reads `length` as a `u64`.
    (is_word : (bytes : List ℕ) (info : RawInfo)
      → decode bytes ≡ some info
      → IsWord info.length) where
  start_download-IsValid :
      (w : World) (meta : TorrentMeta)
      → 0 < meta.piece_length
      → IsValid (start_download windows hash_sha1 decode w meta)
  unfolding start_download Manager.new Manager.from_completed Manager.with_selection
  start_download-IsValid w meta pos =
      let total = length meta.pieces % u32_mod in
      let v = with_selection-IsValid total [] (Selection.all total) in
      elim (Bool-cases w.target_exists) [
        | inl there ↦ rw there (
            checking (record {
              manager = v;
              hashes = omega arith;
              piece_length = pos;
              next = omega arith;
            }))
        | inr absent ↦ rw absent (downloading (record { manager = v; completed = λ h. cc h }))
      ]

  on_parsed-IsValid :
      (w : World) (f : Fetching) (r : Result ParseError TorrentMeta)
      → ((m : TorrentMeta) → r ≡ ok m → 0 < m.piece_length)
      → IsValid (downloading_metadata f)
      → IsValid (on_parsed windows hash_sha1 decode w f r).state
  unfolding on_parsed
  on_parsed-IsValid w f (err e) pos v = v
  on_parsed-IsValid w f (ok meta) pos v = elim (Bool-cases w.disk_ready) [
    | inl ready ↦ rw ready (start_download-IsValid w meta (pos meta refl))
    | inr failed ↦ rw failed v
  ]

  on_added-IsValid :
      (w : World) (f : Fetching) (r : Result MetadataError Bool)
      → IsValid (downloading_metadata f)
      → IsValid (on_added windows hash_sha1 decode w f r).state
  unfolding on_added
  on_added-IsValid w f (err e) v = v
  on_added-IsValid w f (ok false) v = v
  on_added-IsValid w f (ok true) v =
      on_parsed-IsValid w f _
        (λ m e.
          (parse_torrent_metadata_bytes-IsGenuine windows hash_sha1 decode is_word
            f.assembler.buffer f.info_hash m e).accepted.tiled.positive)
        v

  add_metadata-IsValid :
      (w : World) (piece : ℕ) (bytes : List ℕ) (f : Fetching)
      → IsValid (downloading_metadata f)
      → IsValid (add_metadata windows hash_sha1 decode w piece bytes f).state
  unfolding add_metadata
  add_metadata-IsValid w piece bytes f (fetching v) =
      on_added-IsValid w _ _ (fetching (add_piece-IsValid f.assembler piece bytes v))

  check_piece-IsValid :
      (w : World) (c : Checking)
      → CheckOk c
      → c.next_piece < c.manager.total_pieces
      → IsValid (check_piece windows hash_sha1 decode w c).state
  unfolding check_piece
  check_piece-IsValid w c k lt =
      let b = verified windows hash_sha1 decode w c in
      let k' = checked-CheckOk b c k lt in
      elim (Bool-cases (leb c.manager.total_pieces (checked b c).next_piece)) [
        | inl last ↦ rw last (after_check-IsValid (checked b c) k')
        | inr more ↦ rw more (checking k')
      ]

  check_tick-IsValid :
      (w : World) (s : CoordinatorState)
      → IsValid s
      → IsValid (check_tick windows hash_sha1 decode w s).state
  unfolding check_tick
  check_tick-IsValid w (downloading_metadata f) v = v
  check_tick-IsValid w (downloading_data d) v = v
  check_tick-IsValid w (checking_files c) (checking k) =
      elim (Bool-cases (leb c.manager.total_pieces c.next_piece)) [
        | inl last ↦ rw last (after_check-IsValid c k)
        | inr more ↦ rw more (check_piece-IsValid w c k (ground (arith, more)))
      ]

  handle-IsValid :
      (w : World) (last : ℕ) (msg : CoordinatorMsg) (s : CoordinatorState)
      → IsValid s
      → IsValid (handle windows hash_sha1 decode w last msg s).state
  unfolding handle Manager.add_peer_pieces Manager.add_peer_piece Manager.remove_peer_pieces
  handle-IsValid w last (request_work have) (downloading_data d) (downloading k) =
      give_work-IsValid w have d k
  handle-IsValid w last (request_work have) (downloading_metadata f) v = v
  handle-IsValid w last (request_work have) (checking_files c) v = v
  handle-IsValid w last (peer_bitfield f) s v =
      on_manager-IsValid _ s (add_peer_pieces-IsValid f) (λ m. recounted m _) v
  handle-IsValid w last (peer_have i) s v =
      on_manager-IsValid _ s (add_peer_piece-IsValid i) (λ m. recounted m _) v
  handle-IsValid w last (peer_gone f) s v =
      on_manager-IsValid _ s (remove_peer_pieces-IsValid f) (λ m. recounted m _) v
  handle-IsValid w last (piece_downloaded p bytes) (downloading_data d) (downloading k) =
      store-IsValid w last p bytes d k
  handle-IsValid w last (piece_downloaded p bytes) (downloading_metadata f) v = v
  handle-IsValid w last (piece_downloaded p bytes) (checking_files c) v = v
  handle-IsValid w last (piece_failed p) (downloading_data d) (downloading k) =
      downloading (returned-DataOk p d k)
  handle-IsValid w last (piece_failed p) (downloading_metadata f) v = v
  handle-IsValid w last (piece_failed p) (checking_files c) v = v
  handle-IsValid w last get_completed_pieces (downloading_data d) v = v
  handle-IsValid w last get_completed_pieces (downloading_metadata f) v = v
  handle-IsValid w last get_completed_pieces (checking_files c) v = v
  handle-IsValid w last (read_piece index begin len) (downloading_data d) v = v
  handle-IsValid w last (read_piece index begin len) (downloading_metadata f) v = v
  handle-IsValid w last (read_piece index begin len) (checking_files c) v = v
  handle-IsValid w last request_metadata_work (downloading_data d) v = v
  handle-IsValid w last request_metadata_work (downloading_metadata f) v = v
  handle-IsValid w last request_metadata_work (checking_files c) v = v
  handle-IsValid w last (metadata_piece_downloaded p bytes) (downloading_metadata f) v =
      add_metadata-IsValid w p bytes f v
  handle-IsValid w last (metadata_piece_downloaded p bytes) (downloading_data d) v = v
  handle-IsValid w last (metadata_piece_downloaded p bytes) (checking_files c) v = v
  handle-IsValid w last (metadata_piece_failed p) s v = v
  handle-IsValid w last pause s v = pause_to-IsValid true s v
  handle-IsValid w last resume s v = pause_to-IsValid false s v
  handle-IsValid w last (set_selection sel files refetch) s v =
      select-IsValid w sel files refetch s v

  -- Every message and every tick of the timer keeps the state well formed.
  pub step-IsValid :
      (w : World) (e : Event) (c : Coordinator)
      → IsValid c.state
      → IsValid (step windows hash_sha1 decode w e c).1.state
  unfolding step round
  step-IsValid w (incoming msg) c v = handle-IsValid w c.last_persist msg c.state v
  step-IsValid w tick c v = check_tick-IsValid w c.state v

  -- After any run of messages and timer ticks, with whatever answers of the disk, the state is well
  -- formed: its piece manager is, there is a hash for each piece that is still to be checked, a
  -- magnet link's metadata assembler is well formed, and the download is complete if it was
  -- announced to be.
  pub run-IsValid :
      (es : List (World × Event)) (c : Coordinator)
      → IsValid c.state
      → IsValid (run windows hash_sha1 decode es c).1.state
  unfolding run
  run-IsValid [] c v = v
  run-IsValid ((w, e) ∷ es) c v = run-IsValid es _ (step-IsValid w e c v)
