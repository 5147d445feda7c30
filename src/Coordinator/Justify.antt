-- ===== src/Coordinator/Justify.antt =====
-- Every effect of a round of the coordinator is justified.
use tortor.Prelude.{
  ℕ, ◌≡◌, refl, sym, ◌∙◌, inl, inr, Bool, true, false, ◌&&◌, Option, some, List, [], ◌∷◌, leb, ltb,
  Bool-cases, Option-cases, arith, if◌then◌else◌, All, All-append,
}
use tortor.Bitfield.{Bitfield}
use tortor.Selection.{Selection}
use tortor.Manager
use tortor.Manager.{TorrentManager}
use tortor.Manager.Done.{contains-servable_pieces}
use tortor.Coordinator.{
  CoordinatorMsg, request_work, peer_bitfield, peer_have, peer_gone, piece_downloaded, piece_failed,
  get_completed_pieces, read_piece, request_metadata_work, metadata_piece_downloaded,
  metadata_piece_failed, pause, resume, set_selection, Fetching, Checking, Coordinator, Event,
  incoming, tick, reply_block, selection_changed, World, Downloading, CoordinatorState,
  downloading_metadata, checking_files, downloading_data, manager_mut, complete_if, announce_piece,
  max_block_request,
}
use tortor.Coordinator.Handlers.{persist_resume, store, stored, serve, select, reselected, pause_to}
use tortor.Prelude.Result.{Result, ok, err}
use tortor.MetadataAssembler.{MetadataError, add_piece}
use tortor.Torrent.{TorrentMeta}
use tortor.Bencode.Meta.{RawInfo}
use tortor.Bencode.Parse.{ParseError}
use tortor.Coordinator.Loop.{
  on_parsed, on_added, add_metadata, verified, checked, check_piece, after_check, check_tick,
  handle, round, step,
}
use tortor.Coordinator.Flushes.{AreFlushed, step-AreFlushed}
use tortor.Coordinator.Invariant.{IsValid, downloading}
use tortor.Coordinator.Effects.{
  Justified, no_work, listed, no_block, served, incomplete, asks_metadata, writes, selects,
  has_metadata, pauses, announce_piece-Justified, complete_if-Justified, persist_resume-Justified,
  persist_if-Justified, give_work-Justified,
}

store-Justified :
    (w : World) (ev : Event) (s : CoordinatorState) (last p : ℕ) (bytes : List ℕ) (d : Downloading)
    → All (Justified w ev s (store w last p bytes d).state) (store w last p bytes d).effects
unfolding store stored manager_mut
store-Justified w ev s last p bytes d = elim (Bool-cases (Manager.is_completed d.manager p)) [
  | inl again ↦ rw again tt
  | inr fresh ↦ elim (Bool-cases w.written) [
    | inr failed ↦ simp (fresh, failed) (writes, tt)
    | inl done ↦
        let m = Manager.mark_completed p d.manager in
        simp (fresh, done)
          (
            writes,
            All-append _ (announce_piece m p) _ (announce_piece-Justified w ev s _ m p refl) (
                All-append _ _ (complete_if _) (persist_if-Justified w ev s _ m _ refl)
                  (complete_if-Justified w ev s _ _)),
          )
  ]
]

select-Justified :
    (w : World) (ev : Event) (sel : Selection) (files : List Bool) (refetch : Bitfield)
    (s : CoordinatorState)
    → All
        (Justified w ev s (select w sel files refetch s).state)
        (select w sel files refetch s).effects
unfolding select reselected manager_mut
select-Justified w ev sel files refetch (downloading_metadata f) = tt
select-Justified w ev sel files refetch (checking_files c) = (selects, tt)
select-Justified w ev sel files refetch (downloading_data d) = elim (Bool-cases w.files_selected) [
  | inr failed ↦ simp failed (selects, tt)
  | inl done ↦
      let m = Manager.apply_selection sel refetch d.manager in
      simp done (
        selects,
        All-append _ (persist_resume w m) _ (persist_resume-Justified w ev _ _ m refl) (
            All-append _ (complete_if _) _ (complete_if-Justified w ev _ _ _)
              (unfinished m (Manager.is_done m) _ _ refl refl)),
      )
]
  where
    unfinished :
        (m : TorrentManager) (b : Bool) (s s' : CoordinatorState)
        → Manager.is_done m ≡ b
        → manager_mut s' ≡ some m
        → All (Justified w ev s s') (if b then [] else selection_changed ∷ [])
    unfinished m true s s' e h = tt
    unfinished m false s s' e h = (incomplete m h e, tt)

serve-Justified :
    (w : World) (index begin len : ℕ) (d : Downloading) (s' : CoordinatorState)
    → Justified w
        (incoming (read_piece index begin len))
        (downloading_data d)
        s'
        (reply_block (serve w index begin len d.manager))
unfolding serve
serve-Justified w index begin len d s' =
    elim (Bool-cases
      (ltb 0 len && leb len max_block_request && Manager.is_servable d.manager index)) [
        | inr refused ↦ rw refused no_block
        | inl granted ↦ rw granted (elim (Option-cases (w.block_at index begin len)) [
          | inl absent ↦ rw absent no_block
          | inr (block, e) ↦ rw e (
              served index begin len d block refl refl (record {
                some_bytes = ground (arith, granted);
                bounded = ground (arith, granted);
                servable = ground (arith, granted);
                stored = e;
              }))
        ])
      ]

pause_to-Justified :
    (w : World) (ev : Event) (b : Bool) (s : CoordinatorState)
    → All (Justified w ev s (pause_to b s).state) (pause_to b s).effects
unfolding pause_to
pause_to-Justified w ev b (downloading_metadata f) = tt
pause_to-Justified w ev b (checking_files c) = tt
pause_to-Justified w ev b (downloading_data d) = (pauses, tt)

module _ (windows : Bool) (hash_sha1 : List ℕ → List ℕ) (decode : List ℕ → Option RawInfo) where
  add_metadata-Justified :
      (w : World) (ev : Event) (s : CoordinatorState) (piece : ℕ) (bytes : List ℕ) (f : Fetching)
      → All
          (Justified w ev s (add_metadata windows hash_sha1 decode w piece bytes f).state)
          (add_metadata windows hash_sha1 decode w piece bytes f).effects
  unfolding add_metadata on_added on_parsed
  add_metadata-Justified w ev s piece bytes f =
      let added = add_piece f.assembler piece bytes in
      by_added (record f { assembler = added.1 }) added.0
    where
      by_parsed :
          (f : Fetching) (r : Result ParseError TorrentMeta)
          → All
              (Justified w ev s (on_parsed windows hash_sha1 decode w f r).state)
              (on_parsed windows hash_sha1 decode w f r).effects
      by_parsed f (ok meta) = (has_metadata, tt)
      by_parsed f (err e) = tt

      by_added :
          (f : Fetching) (r : Result MetadataError Bool)
          → All
              (Justified w ev s (on_added windows hash_sha1 decode w f r).state)
              (on_added windows hash_sha1 decode w f r).effects
      by_added f (ok true) = by_parsed f _
      by_added f (ok false) = tt
      by_added f (err e) = tt

  check_piece-Justified :
      (w : World) (ev : Event) (s : CoordinatorState) (c : Checking)
      → All
          (Justified w ev s (check_piece windows hash_sha1 decode w c).state)
          (check_piece windows hash_sha1 decode w c).effects
  unfolding check_piece after_check manager_mut
  check_piece-Justified w ev s c =
      let b = verified windows hash_sha1 decode w c in
      let c' = checked b c in
      elim (Bool-cases (leb c.manager.total_pieces c'.next_piece)) [
        | inl last ↦ rw last (
            All-append _ _ (complete_if _) (announce_if b c' _ refl)
              (complete_if-Justified w ev s _ _))
        | inr more ↦ rw more (announce_if b c' _ refl)
      ]
    where
      announce_if :
          (b : Bool) (c' : Checking) (s' : CoordinatorState)
          → manager_mut s' ≡ some c'.manager
          → All (Justified w ev s s') (if b then announce_piece c'.manager c.next_piece else [])
      announce_if true c' s' e = announce_piece-Justified w ev s s' c'.manager c.next_piece e
      announce_if false c' s' e = tt

  check_tick-Justified :
      (w : World) (s : CoordinatorState)
      → All
          (Justified w tick s (check_tick windows hash_sha1 decode w s).state)
          (check_tick windows hash_sha1 decode w s).effects
  unfolding check_tick after_check
  check_tick-Justified w (downloading_metadata f) = tt
  check_tick-Justified w (downloading_data d) = tt
  check_tick-Justified w (checking_files c) =
      elim (Bool-cases (leb c.manager.total_pieces c.next_piece)) [
        | inl last ↦ rw last (complete_if-Justified w tick _ _ _)
        | inr more ↦ rw more (check_piece-Justified w tick _ c)
      ]

  handle-Justified :
      (w : World) (last : ℕ) (msg : CoordinatorMsg) (s : CoordinatorState)
      → IsValid s
      → All
          (Justified w (incoming msg) s (handle windows hash_sha1 decode w last msg s).state)
          (handle windows hash_sha1 decode w last msg s).effects
  unfolding handle manager_mut
  handle-Justified w last (request_work have) (downloading_data d) (downloading k) =
      give_work-Justified w have d _ k
  handle-Justified w last (request_work have) (downloading_metadata f) v = (no_work, tt)
  handle-Justified w last (request_work have) (checking_files c) v = (no_work, tt)
  handle-Justified w last (peer_bitfield f) s v = tt
  handle-Justified w last (peer_have i) s v = tt
  handle-Justified w last (peer_gone f) s v = tt
  handle-Justified w last (piece_downloaded p bytes) (downloading_data d) v =
      store-Justified w _ _ last p bytes d
  handle-Justified w last (piece_downloaded p bytes) (downloading_metadata f) v = tt
  handle-Justified w last (piece_downloaded p bytes) (checking_files c) v = tt
  handle-Justified w last (piece_failed p) (downloading_data d) v = tt
  handle-Justified w last (piece_failed p) (downloading_metadata f) v = tt
  handle-Justified w last (piece_failed p) (checking_files c) v = tt
  handle-Justified w last get_completed_pieces (downloading_data d) (downloading k) = (
    listed _ (λ p h. (d.manager, refl, sym (contains-servable_pieces d.manager p k.manager) ∙ h)),
    tt,
  )
  handle-Justified w last get_completed_pieces (downloading_metadata f) v =
      (listed [] (λ p h. absurd (ground (arith, h))), tt)
  handle-Justified w last get_completed_pieces (checking_files c) v =
      (listed [] (λ p h. absurd (ground (arith, h))), tt)
  handle-Justified w last (read_piece index begin len) (downloading_data d) v =
      (serve-Justified w index begin len d _, tt)
  handle-Justified w last (read_piece index begin len) (downloading_metadata f) v = (no_block, tt)
  handle-Justified w last (read_piece index begin len) (checking_files c) v = (no_block, tt)
  handle-Justified w last request_metadata_work (downloading_data d) v = (asks_metadata, tt)
  handle-Justified w last request_metadata_work (downloading_metadata f) v = (asks_metadata, tt)
  handle-Justified w last request_metadata_work (checking_files c) v = (asks_metadata, tt)
  handle-Justified w last (metadata_piece_downloaded p bytes) (downloading_metadata f) v =
      add_metadata-Justified w _ _ p bytes f
  handle-Justified w last (metadata_piece_downloaded p bytes) (downloading_data d) v = tt
  handle-Justified w last (metadata_piece_downloaded p bytes) (checking_files c) v = tt
  handle-Justified w last (metadata_piece_failed p) s v = tt
  handle-Justified w last pause s v = pause_to-Justified w _ true s
  handle-Justified w last resume s v = pause_to-Justified w _ false s
  handle-Justified w last (set_selection sel files refetch) s v =
      select-Justified w _ sel files refetch s

  step-effects :
      (w : World) (ev : Event) (c : Coordinator)
      → IsValid c.state
      → All
          (Justified w ev c.state (step windows hash_sha1 decode w ev c).1.state)
          (step windows hash_sha1 decode w ev c).0
  unfolding step round
  step-effects w (incoming msg) c v = handle-Justified w c.last_persist msg c.state v
  step-effects w tick c v = check_tick-Justified w c.state

  -- From a well-formed state: work is given only while running, and it is a piece that the peer has
  -- and that is not completed; a block is given only if it was read from a servable piece and has 1
  -- to 32768 bytes asked for; listed and announced pieces are servable; a resume record is saved
  -- only behind a flush of the same round that succeeded, with no write between them, and is that of
  -- the manager; a selection is said to have changed only while the torrent is not done.
  pub step-Justified :
      (w : World) (ev : Event) (c : Coordinator)
      → IsValid c.state
      → All
          (Justified w ev c.state (step windows hash_sha1 decode w ev c).1.state)
          (step windows hash_sha1 decode w ev c).0
        × AreFlushed false (step windows hash_sha1 decode w ev c).0
  step-Justified w ev c v = (step-effects w ev c v, step-AreFlushed windows hash_sha1 decode w ev c)
