-- ===== src/Coordinator/Flushes.antt =====
-- A resume record of the coordinator follows a flush, with no write between them.
use tortor.Prelude.{
  ℕ, ◌≡◌, refl, inl, inr, Bool, true, false, Option, List, [], ◌∷◌, ◌++◌, leb, Bool-cases,
  append-nil, not, ◌&&◌, if◌then◌else◌,
}
use mathlib.Core.Path.{subst}
use tortor.Bitfield.{Bitfield}
use tortor.Selection.{Selection}
use tortor.Manager
use tortor.Manager.{TorrentManager}
use tortor.Prelude.Result.{Result, ok, err}
use tortor.MetadataAssembler.{MetadataError, add_piece}
use tortor.Torrent.{TorrentMeta}
use tortor.Bencode.Meta.{RawInfo}
use tortor.Bencode.Parse.{ParseError}
use tortor.Coordinator.{
  CoordinatorMsg, request_work, peer_bitfield, peer_have, peer_gone, piece_downloaded, piece_failed,
  get_completed_pieces, read_piece, request_metadata_work, metadata_piece_downloaded,
  metadata_piece_failed, pause, resume, set_selection, Fetching, Checking, Coordinator, Event,
  incoming, tick, Effect, write_piece, flush, save_fastresume, selection_changed, World,
  Downloading, CoordinatorState, downloading_metadata, checking_files, downloading_data,
  complete_if, announce_piece,
}
use tortor.Coordinator.Handlers.{
  persist_resume, give_work, store, stored, select, reselected, pause_to,
}
use tortor.Coordinator.Loop.{
  on_parsed, on_added, add_metadata, verified, checked, check_piece, after_check, check_tick,
  handle, round, step,
}

-- Every resume record follows a flush, and nothing is written to the disk between the two. Whether
-- there was such a flush before the effects is the first argument.
abbrev pub AreFlushed : Bool → List Effect → Type 0
AreFlushed b [] = Unit
AreFlushed b (flush ∷ es) = AreFlushed true es
AreFlushed b (write_piece p bytes ∷ es) = AreFlushed false es
AreFlushed b (save_fastresume r ∷ es) = (b ≡ true) × AreFlushed b es
AreFlushed b (e ∷ es) = AreFlushed b es

-- Effects without a flush, a write or a record.
abbrev AreCalm : List Effect → Type 0
AreCalm es = (b : Bool) (fs : List Effect) → AreFlushed b fs → AreFlushed b (es ++ fs)

announce_piece-AreCalm : (m : TorrentManager) (p : ℕ) → AreCalm (announce_piece m p)
announce_piece-AreCalm m p b fs v = elim (Bool-cases (Manager.is_servable m p)) [
  | inl h ↦ rw h v
  | inr h ↦ rw h v
]

complete_if-AreCalm : (c : Bool) → AreCalm (complete_if c)
complete_if-AreCalm true b fs v = v
complete_if-AreCalm false b fs v = v

calm-AreFlushed : (es : List Effect) (b : Bool) → AreCalm es → AreFlushed b es
calm-AreFlushed es b calm = subst (AreFlushed b) (append-nil es) (calm b [] tt)

persist_resume-AreFlushed :
    (w : World) (m : TorrentManager) (b : Bool) (fs : List Effect)
    → AreFlushed true fs
    → AreFlushed b (persist_resume w m ++ fs)
unfolding persist_resume
persist_resume-AreFlushed w m b fs v = elim (Bool-cases w.flushed) [
  | inl h ↦ simp h (refl, v)
  | inr h ↦ simp h v
]

persist_if-AreFlushed :
    (w : World) (m : TorrentManager) (due b : Bool) (fs : List Effect)
    → ((b : Bool) → AreFlushed b fs)
    → AreFlushed b ((if due then persist_resume w m else []) ++ fs)
persist_if-AreFlushed w m true b fs v = persist_resume-AreFlushed w m b fs (v true)
persist_if-AreFlushed w m false b fs v = v b

store-AreFlushed :
    (w : World) (last p : ℕ) (bytes : List ℕ) (d : Downloading)
    → AreFlushed false (store w last p bytes d).effects
unfolding store stored
store-AreFlushed w last p bytes d = elim (Bool-cases (Manager.is_completed d.manager p)) [
  | inl again ↦ rw again tt
  | inr fresh ↦ elim (Bool-cases w.written) [
    | inr failed ↦ simp (fresh, failed) tt
    | inl done ↦
        let m = Manager.mark_completed p d.manager in
        let over = Manager.is_done m && not d.has_completed in
        simp (fresh, done)
          (announce_piece-AreCalm m p false _ (
            persist_if-AreFlushed w m _ false (complete_if over)
              (λ b. calm-AreFlushed (complete_if over) b (complete_if-AreCalm over))))
  ]
]

select-AreFlushed :
    (w : World) (sel : Selection) (files : List Bool) (refetch : Bitfield) (s : CoordinatorState)
    → AreFlushed false (select w sel files refetch s).effects
unfolding select reselected
select-AreFlushed w sel files refetch (downloading_metadata f) = tt
select-AreFlushed w sel files refetch (checking_files c) = tt
select-AreFlushed w sel files refetch (downloading_data d) = elim (Bool-cases w.files_selected) [
  | inr failed ↦ simp failed tt
  | inl done ↦
      let m = Manager.apply_selection sel refetch d.manager in
      simp done (
        persist_resume-AreFlushed w m false _ (
          complete_if-AreCalm (Manager.is_done m && not d.has_completed) true
            (if Manager.is_done m then [] else selection_changed ∷ [])
            (unfinished (Manager.is_done m))))
]
  where
    unfinished : (c : Bool) → AreFlushed true (if c then [] else selection_changed ∷ [])
    unfinished true = tt
    unfinished false = tt

pause_to-AreFlushed : (b : Bool) (s : CoordinatorState) → AreFlushed false (pause_to b s).effects
unfolding pause_to
pause_to-AreFlushed b (downloading_metadata f) = tt
pause_to-AreFlushed b (checking_files c) = tt
pause_to-AreFlushed b (downloading_data d) = tt

give_work-AreFlushed :
    (w : World) (have : Bitfield) (d : Downloading) → AreFlushed false (give_work w have d).effects
unfolding give_work
give_work-AreFlushed w have d = elim (Bool-cases d.paused) [
  | inl waiting ↦ simp waiting tt
  | inr running ↦ simp running tt
]

module _ (windows : Bool) (hash_sha1 : List ℕ → List ℕ) (decode : List ℕ → Option RawInfo) where
  on_parsed-AreFlushed :
      (w : World) (f : Fetching) (r : Result ParseError TorrentMeta)
      → AreFlushed false (on_parsed windows hash_sha1 decode w f r).effects
  unfolding on_parsed
  on_parsed-AreFlushed w f (ok meta) = tt
  on_parsed-AreFlushed w f (err e) = tt

  on_added-AreFlushed :
      (w : World) (f : Fetching) (r : Result MetadataError Bool)
      → AreFlushed false (on_added windows hash_sha1 decode w f r).effects
  unfolding on_added
  on_added-AreFlushed w f (ok true) = on_parsed-AreFlushed w f _
  on_added-AreFlushed w f (ok false) = tt
  on_added-AreFlushed w f (err e) = tt

  check_piece-AreFlushed :
      (w : World) (c : Checking)
      → AreFlushed false (check_piece windows hash_sha1 decode w c).effects
  unfolding check_piece after_check
  check_piece-AreFlushed w c =
      let b = verified windows hash_sha1 decode w c in
      let c' = checked b c in
      let calm = announced b c' in
      elim (Bool-cases (leb c.manager.total_pieces c'.next_piece)) [
        | inl last ↦ rw last (
            calm false (complete_if (Manager.is_done c'.manager)) (
              calm-AreFlushed (complete_if (Manager.is_done c'.manager)) false
                (complete_if-AreCalm (Manager.is_done c'.manager))))
        | inr more ↦
            rw more (
              calm-AreFlushed (if b then announce_piece c'.manager c.next_piece else []) false calm)
      ]
    where
      announced :
          (b : Bool) (c' : Checking)
          → AreCalm (if b then announce_piece c'.manager c.next_piece else [])
      announced true c' = announce_piece-AreCalm c'.manager c.next_piece
      announced false c' = λ b fs v. v

  check_tick-AreFlushed :
      (w : World) (s : CoordinatorState)
      → AreFlushed false (check_tick windows hash_sha1 decode w s).effects
  unfolding check_tick after_check
  check_tick-AreFlushed w (downloading_metadata f) = tt
  check_tick-AreFlushed w (downloading_data d) = tt
  check_tick-AreFlushed w (checking_files c) =
      elim (Bool-cases (leb c.manager.total_pieces c.next_piece)) [
        | inl last ↦ rw last (
            calm-AreFlushed (complete_if (Manager.is_done c.manager)) false
              (complete_if-AreCalm (Manager.is_done c.manager)))
        | inr more ↦ rw more (check_piece-AreFlushed w c)
      ]

  handle-AreFlushed :
      (w : World) (last : ℕ) (msg : CoordinatorMsg) (s : CoordinatorState)
      → AreFlushed false (handle windows hash_sha1 decode w last msg s).effects
  unfolding handle add_metadata
  handle-AreFlushed w last (request_work have) (downloading_data d) = give_work-AreFlushed w have d
  handle-AreFlushed w last (request_work have) (downloading_metadata f) = tt
  handle-AreFlushed w last (request_work have) (checking_files c) = tt
  handle-AreFlushed w last (peer_bitfield f) s = tt
  handle-AreFlushed w last (peer_have i) s = tt
  handle-AreFlushed w last (peer_gone f) s = tt
  handle-AreFlushed w last (piece_downloaded p bytes) (downloading_data d) =
      store-AreFlushed w last p bytes d
  handle-AreFlushed w last (piece_downloaded p bytes) (downloading_metadata f) = tt
  handle-AreFlushed w last (piece_downloaded p bytes) (checking_files c) = tt
  handle-AreFlushed w last (piece_failed p) (downloading_data d) = tt
  handle-AreFlushed w last (piece_failed p) (downloading_metadata f) = tt
  handle-AreFlushed w last (piece_failed p) (checking_files c) = tt
  handle-AreFlushed w last get_completed_pieces (downloading_data d) = tt
  handle-AreFlushed w last get_completed_pieces (downloading_metadata f) = tt
  handle-AreFlushed w last get_completed_pieces (checking_files c) = tt
  handle-AreFlushed w last (read_piece index begin len) (downloading_data d) = tt
  handle-AreFlushed w last (read_piece index begin len) (downloading_metadata f) = tt
  handle-AreFlushed w last (read_piece index begin len) (checking_files c) = tt
  handle-AreFlushed w last request_metadata_work (downloading_data d) = tt
  handle-AreFlushed w last request_metadata_work (downloading_metadata f) = tt
  handle-AreFlushed w last request_metadata_work (checking_files c) = tt
  handle-AreFlushed w last (metadata_piece_downloaded p bytes) (downloading_metadata f) =
      on_added-AreFlushed w _ (add_piece f.assembler p bytes).0
  handle-AreFlushed w last (metadata_piece_downloaded p bytes) (downloading_data d) = tt
  handle-AreFlushed w last (metadata_piece_downloaded p bytes) (checking_files c) = tt
  handle-AreFlushed w last (metadata_piece_failed p) s = tt
  handle-AreFlushed w last pause s = pause_to-AreFlushed true s
  handle-AreFlushed w last resume s = pause_to-AreFlushed false s
  handle-AreFlushed w last (set_selection sel files refetch) s =
      select-AreFlushed w sel files refetch s

  pub step-AreFlushed :
      (w : World) (ev : Event) (c : Coordinator)
      → AreFlushed false (step windows hash_sha1 decode w ev c).0
  unfolding step round
  step-AreFlushed w (incoming msg) c = handle-AreFlushed w c.last_persist msg c.state
  step-AreFlushed w tick c = check_tick-AreFlushed w c.state
