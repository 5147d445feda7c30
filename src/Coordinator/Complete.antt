-- ===== src/Coordinator/Complete.antt =====
-- How often the coordinator announces that the download is complete.
use tortor.Prelude.{
  ℕ, ◌+◌, ◌-◌, ◌≡◌, refl, inl, inr, Bool, true, false, not, ◌&&◌, ◌||◌, Option, List, [], ◌∷◌, ◌++◌,
  leb, Bool-cases, arith, if◌then◌else◌,
}
use tortor.Prelude.Result.{Result, ok, err}
use tortor.Bitfield.{Bitfield}
use tortor.Selection.{Selection}
use tortor.Manager
use tortor.Manager.{TorrentManager}
use tortor.MetadataAssembler.{MetadataError, add_piece}
use tortor.Torrent.{TorrentMeta}
use tortor.Bencode.Meta.{RawInfo}
use tortor.Bencode.Parse.{ParseError}
use tortor.Coordinator.{
  CoordinatorMsg, request_work, peer_bitfield, peer_have, peer_gone, piece_downloaded, piece_failed,
  get_completed_pieces, read_piece, request_metadata_work, metadata_piece_downloaded,
  metadata_piece_failed, pause, resume, set_selection, Event, incoming, tick, Effect,
  download_complete, selection_changed, Fetching, Checking, Downloading, CoordinatorState,
  downloading_metadata, checking_files, downloading_data, World, Coordinator, on_manager,
  complete_if, announce_piece, resume_persist_interval, reply_work, reply_pieces, reply_block,
  reply_metadata_work, write_piece, select_files, flush, save_fastresume, metadata_ready,
  piece_completed, paused_state,
}
use tortor.Coordinator.Handlers.{
  persist_resume, give_work, store, stored, select, reselected, pause_to,
}
use tortor.Coordinator.Loop.{
  start_download, on_parsed, on_added, add_metadata, verified, checked, check_piece, after_check,
  check_tick, handle, round, step,
}

abbrev pub is_completion : Effect → ℕ
is_completion download_complete = 1
is_completion (reply_work o) = 0
is_completion (reply_pieces ps) = 0
is_completion (reply_block o) = 0
is_completion (reply_metadata_work o) = 0
is_completion (write_piece p bytes) = 0
is_completion (select_files files) = 0
is_completion flush = 0
is_completion (save_fastresume r) = 0
is_completion (metadata_ready m) = 0
is_completion (piece_completed p) = 0
is_completion selection_changed = 0
is_completion (paused_state b) = 0

-- The announcements among some effects.
abbrev pub completions : List Effect → ℕ
completions [] = 0
completions (e ∷ es) = is_completion e + completions es

abbrev pub has_completed_in : CoordinatorState → Bool
has_completed_in (downloading_metadata f) = false
has_completed_in (checking_files c) = false
has_completed_in (downloading_data d) = d.has_completed

abbrev pub one_if : Bool → ℕ
one_if b = if b then 1 else 0

completions-append :
    (es fs : List Effect) → completions (es ++ fs) ≡ completions es + completions fs
completions-append [] fs = omega arith
completions-append (e ∷ es) fs = omega (arith, completions-append es fs)

completions-complete_if : (b : Bool) → completions (complete_if b) ≡ one_if b
completions-complete_if true = refl
completions-complete_if false = refl

completions-announce_piece : (m : TorrentManager) (p : ℕ) → completions (announce_piece m p) ≡ 0
completions-announce_piece m p = elim (Bool-cases (Manager.is_servable m p)) [
  | inl h ↦ rw h refl
  | inr h ↦ rw h refl
]

completions-persist_resume : (w : World) (m : TorrentManager) → completions (persist_resume w m) ≡ 0
unfolding persist_resume
completions-persist_resume w m = elim (Bool-cases w.flushed) [
  | inl h ↦ simp h refl
  | inr h ↦ simp h refl
]

-- A round announces what its new state says and its old one does not.
abbrev Announced : CoordinatorState → List Effect → CoordinatorState → Type 0
Announced s es s' = completions es ≡ one_if (not (has_completed_in s) && has_completed_in s')

unchanged : (s : CoordinatorState) → 0 ≡ one_if (not (has_completed_in s) && has_completed_in s)
unchanged s = ground arith

on_manager-Announced :
    (f : TorrentManager → TorrentManager) (s : CoordinatorState) → Announced s [] (on_manager f s)
unfolding on_manager
on_manager-Announced f (downloading_metadata s) = refl
on_manager-Announced f (checking_files c) = refl
on_manager-Announced f (downloading_data d) = ground arith

completions-persist_if :
    (w : World) (m : TorrentManager) (b : Bool)
    → completions (if b then persist_resume w m else []) ≡ 0
completions-persist_if w m true = completions-persist_resume w m
completions-persist_if w m false = refl

-- Two lists without an announcement, and one at the end.
completions_last :
    (es fs : List Effect) (b : Bool)
    → completions es ≡ 0
    → completions fs ≡ 0
    → completions (es ++ (fs ++ complete_if b)) ≡ one_if b
completions_last es fs b none_first none_second =
    let all = completions-append es (fs ++ complete_if b) in
    let rest = completions-append fs (complete_if b) in
    omega (arith, all, rest, none_first, none_second, completions-complete_if b)

store-Announced :
    (w : World) (last p : ℕ) (bytes : List ℕ) (d : Downloading)
    → Announced (downloading_data d) (store w last p bytes d).effects (store w last p bytes d).state
unfolding store stored
store-Announced w last p bytes d = elim (Bool-cases (Manager.is_completed d.manager p)) [
  | inl again ↦ rw again (unchanged (downloading_data d))
  | inr fresh ↦ elim (Bool-cases w.written) [
    | inr failed ↦ simp (fresh, failed) (unchanged (downloading_data d))
    | inl done ↦
        let m = Manager.mark_completed p d.manager in
        let due = Manager.is_done m || leb resume_persist_interval (w.now - last) in
        let e =
          completions_last (announce_piece m p) (if due then persist_resume w m else [])
            (Manager.is_done m && not d.has_completed) (completions-announce_piece m p)
            (completions-persist_if w m due) in
        simp (fresh, done) (ground (arith, e))
  ]
]

completions-unfinished : (b : Bool) → completions (if b then [] else selection_changed ∷ []) ≡ 0
completions-unfinished true = refl
completions-unfinished false = refl

select-Announced :
    (w : World) (sel : Selection) (files : List Bool) (refetch : Bitfield) (s : CoordinatorState)
    → Announced s (select w sel files refetch s).effects (select w sel files refetch s).state
unfolding select reselected
select-Announced w sel files refetch (downloading_metadata f) = refl
select-Announced w sel files refetch (checking_files c) = refl
select-Announced w sel files refetch (downloading_data d) = elim (Bool-cases w.files_selected) [
  | inr failed ↦ simp failed (unchanged (downloading_data d))
  | inl done ↦
      let m = Manager.apply_selection sel refetch d.manager in
      let b = Manager.is_done m in
      let tail : List Effect = if b then [] else selection_changed ∷ [] in
      let all =
        completions-append (persist_resume w m) (complete_if (b && not d.has_completed) ++ tail) in
      let rest = completions-append (complete_if (b && not d.has_completed)) tail in
      let c = completions-complete_if (b && not d.has_completed) in
      simp done
        (ground (arith, all, rest, c, completions-persist_resume w m, completions-unfinished b))
]

pause_to-Announced :
    (b : Bool) (s : CoordinatorState) → Announced s (pause_to b s).effects (pause_to b s).state
unfolding pause_to
pause_to-Announced b (downloading_metadata f) = refl
pause_to-Announced b (checking_files c) = refl
pause_to-Announced b (downloading_data d) = ground arith

give_work-Announced :
    (w : World) (have : Bitfield) (d : Downloading)
    → Announced (downloading_data d) (give_work w have d).effects (give_work w have d).state
unfolding give_work
give_work-Announced w have d = elim (Bool-cases d.paused) [
  | inl waiting ↦ simp waiting (ground arith)
  | inr running ↦ simp running (ground arith)
]

module _ (windows : Bool) (hash_sha1 : List ℕ → List ℕ) (decode : List ℕ → Option RawInfo) where
  start_download-open :
      (w : World) (meta : TorrentMeta)
      → has_completed_in (start_download windows hash_sha1 decode w meta) ≡ false
  unfolding start_download
  start_download-open w meta = elim (Bool-cases w.target_exists) [
    | inl h ↦ rw h refl
    | inr h ↦ rw h refl
  ]

  add_metadata-Announced :
      (w : World) (piece : ℕ) (bytes : List ℕ) (f : Fetching)
      → Announced
          (downloading_metadata f)
          (add_metadata windows hash_sha1 decode w piece bytes f).effects
          (add_metadata windows hash_sha1 decode w piece bytes f).state
  unfolding add_metadata on_added on_parsed
  add_metadata-Announced w piece bytes f =
      let added = add_piece f.assembler piece bytes in
      by_added (record f { assembler = added.1 }) added.0
    where
      by_parsed :
          (f' : Fetching) (r : Result ParseError TorrentMeta)
          → Announced
              (downloading_metadata f)
              (on_parsed windows hash_sha1 decode w f' r).effects
              (on_parsed windows hash_sha1 decode w f' r).state
      by_parsed f' (ok meta) = elim (Bool-cases w.disk_ready) [
        | inl ready ↦ rw ready (ground (arith, start_download-open w meta))
        | inr failed ↦ rw failed refl
      ]
      by_parsed f' (err e) = refl

      by_added :
          (f' : Fetching) (r : Result MetadataError Bool)
          → Announced
              (downloading_metadata f)
              (on_added windows hash_sha1 decode w f' r).effects
              (on_added windows hash_sha1 decode w f' r).state
      by_added f' (ok true) = by_parsed f' _
      by_added f' (ok false) = refl
      by_added f' (err e) = refl

  check_piece-Announced :
      (w : World) (c : Checking)
      → Announced
          (checking_files c)
          (check_piece windows hash_sha1 decode w c).effects
          (check_piece windows hash_sha1 decode w c).state
  unfolding check_piece after_check
  check_piece-Announced w c =
      let b = verified windows hash_sha1 decode w c in
      let c' = checked b c in
      let es : List Effect = if b then announce_piece c'.manager c.next_piece else [] in
      let quiet : completions es ≡ 0 = announced_if b c' in
      let all = completions-append es (complete_if (Manager.is_done c'.manager)) in
      let last = completions-complete_if (Manager.is_done c'.manager) in
      elim (Bool-cases (leb c.manager.total_pieces c'.next_piece)) [
        | inl over ↦ rw over (ground (arith, all, last, quiet))
        | inr more ↦ rw more (ground (arith, quiet))
      ]
    where
      announced_if :
          (b : Bool) (c' : Checking)
          → completions (if b then announce_piece c'.manager c.next_piece else []) ≡ 0
      announced_if true c' = completions-announce_piece c'.manager c.next_piece
      announced_if false c' = refl

  check_tick-Announced :
      (w : World) (s : CoordinatorState)
      → Announced s
          (check_tick windows hash_sha1 decode w s).effects
          (check_tick windows hash_sha1 decode w s).state
  unfolding check_tick after_check
  check_tick-Announced w (downloading_metadata f) = refl
  check_tick-Announced w (downloading_data d) = unchanged (downloading_data d)
  check_tick-Announced w (checking_files c) =
      elim (Bool-cases (leb c.manager.total_pieces c.next_piece)) [
        | inl over ↦ rw over (ground (arith, completions-complete_if (Manager.is_done c.manager)))
        | inr more ↦ rw more (check_piece-Announced w c)
      ]

  handle-Announced :
      (w : World) (last : ℕ) (msg : CoordinatorMsg) (s : CoordinatorState)
      → Announced s
          (handle windows hash_sha1 decode w last msg s).effects
          (handle windows hash_sha1 decode w last msg s).state
  unfolding handle
  handle-Announced w last (request_work have) (downloading_data d) = give_work-Announced w have d
  handle-Announced w last (request_work have) (downloading_metadata f) = ground arith
  handle-Announced w last (request_work have) (checking_files c) = ground arith
  handle-Announced w last (peer_bitfield f) s = on_manager-Announced _ s
  handle-Announced w last (peer_have i) s = on_manager-Announced _ s
  handle-Announced w last (peer_gone f) s = on_manager-Announced _ s
  handle-Announced w last (piece_downloaded p bytes) (downloading_data d) =
      store-Announced w last p bytes d
  handle-Announced w last (piece_downloaded p bytes) (downloading_metadata f) = refl
  handle-Announced w last (piece_downloaded p bytes) (checking_files c) = refl
  handle-Announced w last (piece_failed p) (downloading_data d) = ground arith
  handle-Announced w last (piece_failed p) (downloading_metadata f) = refl
  handle-Announced w last (piece_failed p) (checking_files c) = refl
  handle-Announced w last get_completed_pieces (downloading_data d) = ground arith
  handle-Announced w last get_completed_pieces (downloading_metadata f) = ground arith
  handle-Announced w last get_completed_pieces (checking_files c) = ground arith
  handle-Announced w last (read_piece index begin len) (downloading_data d) = ground arith
  handle-Announced w last (read_piece index begin len) (downloading_metadata f) = ground arith
  handle-Announced w last (read_piece index begin len) (checking_files c) = ground arith
  handle-Announced w last request_metadata_work (downloading_data d) = ground arith
  handle-Announced w last request_metadata_work (downloading_metadata f) = ground arith
  handle-Announced w last request_metadata_work (checking_files c) = ground arith
  handle-Announced w last (metadata_piece_downloaded p bytes) (downloading_metadata f) =
      add_metadata-Announced w p bytes f
  handle-Announced w last (metadata_piece_downloaded p bytes) (downloading_data d) = ground arith
  handle-Announced w last (metadata_piece_downloaded p bytes) (checking_files c) = refl
  handle-Announced w last (metadata_piece_failed p) s = unchanged s
  handle-Announced w last pause s = pause_to-Announced true s
  handle-Announced w last resume s = pause_to-Announced false s
  handle-Announced w last (set_selection sel files refetch) s =
      select-Announced w sel files refetch s

  -- A round announces the end of the download once if the completion is on record after the round
  -- and was not before it, and otherwise not at all.
  pub completions-step :
      (w : World) (ev : Event) (c : Coordinator)
      → completions (step windows hash_sha1 decode w ev c).0
        ≡ one_if (
            not (has_completed_in c.state)
            && has_completed_in (step windows hash_sha1 decode w ev c).1.state)
  unfolding step round
  completions-step w (incoming msg) c = handle-Announced w c.last_persist msg c.state
  completions-step w tick c = check_tick-Announced w c.state
