-- ===== src/Coordinator/Handlers.antt =====
-- The handlers of the coordinator for messages about pieces and the selection.
use tortor.Prelude.{
  ℕ, ◌-◌, Bool, not, ◌&&◌, ◌||◌, Option, none, List, [], ◌∷◌, ◌++◌, if◌then◌else◌, ltb, leb,
}
use tortor.Bitfield.{Bitfield}
use tortor.Selection.{Selection}
use tortor.Manager
use tortor.Manager.{TorrentManager}
use tortor.Resume.{from_manager}
use tortor.Coordinator.{
  Effect, reply_work, write_piece, select_files, flush, save_fastresume, selection_changed,
  paused_state, World, Downloading, CoordinatorState, downloading_metadata, checking_files,
  downloading_data, Outcome, leave, complete_if, announce_piece, resume_persist_interval,
  max_block_request,
}

unfoldable pub persist_resume : World → TorrentManager → List Effect
persist_resume w m = flush ∷ (if w.flushed then save_fastresume (from_manager m) ∷ [] else [])

unfoldable pub give_work : World → Bitfield → Downloading → Outcome
give_work w have d =
    if d.paused
    then leave (reply_work none ∷ []) (downloading_data d)
    else (let work = Manager.next_work_for w.coin have d.manager in
        leave (reply_work work.0 ∷ []) (downloading_data (record d { manager = work.1 })))

-- The piece is on the disk.
unfoldable pub stored : World → ℕ → ℕ → List ℕ → Downloading → Outcome
unfolding persist_resume
stored w last p bytes d =
    let m = Manager.mark_completed p d.manager in
    let due = Manager.is_done m || leb resume_persist_interval (w.now - last) in
    record {
      effects =
          write_piece p bytes
          ∷ (announce_piece m p
              ++ ((if due then persist_resume w m else [])
                  ++ complete_if (Manager.is_done m && not d.has_completed)));
      state =
          downloading_data
            (record d { manager = m; has_completed = d.has_completed || Manager.is_done m });
      persisted = due;
    }

unfoldable pub store : World → ℕ → ℕ → List ℕ → Downloading → Outcome
unfolding stored
store w last p bytes d =
    if Manager.is_completed d.manager p
    then leave [] (downloading_data d)
    else if not w.written
    then leave (write_piece p bytes ∷ [])
        (downloading_data (record d { manager = Manager.return_work p d.manager }))
    else stored w last p bytes d

unfoldable pub serve : World → ℕ → ℕ → ℕ → TorrentManager → Option (List ℕ)
serve w index begin len m =
    if ltb 0 len && leb len max_block_request && Manager.is_servable m index
    then w.block_at index begin len
    else none

-- The end of `SetSelection` in the last phase.
unfoldable pub reselected : World → List Bool → TorrentManager → Downloading → Outcome
unfolding persist_resume
reselected w files m d =
    leave
      (select_files files
        ∷ (persist_resume w m
            ++ (complete_if (Manager.is_done m && not d.has_completed)
                ++ (if Manager.is_done m then [] else selection_changed ∷ []))))
      (downloading_data (record d { manager = m; has_completed = Manager.is_done m }))

unfoldable pub select : World → Selection → List Bool → Bitfield → CoordinatorState → Outcome
unfolding reselected
select w s files refetch (downloading_metadata f) = leave [] (downloading_metadata f)
select w s files refetch (checking_files c) = leave (select_files files ∷ []) (
    checking_files (
      if w.files_selected
      then record c { manager = Manager.apply_selection s refetch c.manager }
      else c))
select w s files refetch (downloading_data d) =
    if w.files_selected
    then reselected w files (Manager.apply_selection s refetch d.manager) d
    else leave (select_files files ∷ []) (downloading_data d)

unfoldable pub pause_to : Bool → CoordinatorState → Outcome
pause_to b (downloading_metadata f) = leave [] (downloading_metadata f)
pause_to b (checking_files c) = leave [] (checking_files c)
pause_to b (downloading_data d) =
    leave (paused_state b ∷ []) (downloading_data (record d { paused = b }))
