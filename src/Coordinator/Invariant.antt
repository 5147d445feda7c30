-- ===== src/Coordinator/Invariant.antt =====
-- The invariant of the coordinator, and that every message keeps it.
use tortor.Prelude.{
  ℕ, ◌≤◌, ◌<◌, ◌≡◌, refl, ◌∙◌, inl, inr, Bool, true, List, Bool-cases, length, arith,
}
use tortor.Manager
use tortor.Manager.{TorrentManager}
use tortor.Manager.Invariant as Managers
use tortor.Manager.Steps.{apply_selection-IsValid, mark_completed-IsValid}
use tortor.Manager.Invariant.{with_selection-IsValid}
use tortor.Manager.Returns.{return_work-IsValid}
use tortor.Manager.Work.{next_work_for-Given}
use tortor.MetadataAssembler.Complete as Assemblers
use tortor.Coordinator.{
  Fetching, Checking, Downloading, CoordinatorState, downloading_metadata, checking_files,
  downloading_data, World, on_manager,
}
use tortor.Selection.{Selection}
use tortor.Bitfield.{Bitfield}
use tortor.Coordinator.Handlers.{give_work, store, stored, select, reselected, pause_to}
use tortor.Coordinator.Counts.{
  Agrees, Agrees-is_done, next_work_for-Agrees, return_work-Agrees, mark_completed-is_done,
}

pub record CheckOk (c : Checking) : Type 0 where
  pub manager : Managers.IsValid c.manager
  pub hashes : c.manager.total_pieces ≤ length c.expected_hashes
  pub piece_length : 0 < c.piece_length
  pub next : c.next_piece ≤ c.manager.total_pieces

pub record DataOk (d : Downloading) : Type 0 where
  pub manager : Managers.IsValid d.manager
  pub completed : d.has_completed ≡ true → Manager.is_done d.manager ≡ true

pub data IsValid : CoordinatorState → Type 0 where
  fetching : {f : Fetching} → Assemblers.IsValid f.assembler → IsValid (downloading_metadata f)
  checking : {c : Checking} → CheckOk c → IsValid (checking_files c)
  downloading : {d : Downloading} → DataOk d → IsValid (downloading_data d)

pub mark_completed-total :
    (p : ℕ) (m : TorrentManager) → (Manager.mark_completed p m).total_pieces ≡ m.total_pieces
unfolding Manager.mark_completed
mark_completed-total p m = ground arith

pub CheckOk-manager :
    (c : Checking) (m : TorrentManager)
    → Managers.IsValid m
    → m.total_pieces ≡ c.manager.total_pieces
    → CheckOk c
    → CheckOk (record c { manager = m })
CheckOk-manager c m v same k = record {
  manager = v;
  hashes = ground (arith, same, k.hashes);
  piece_length = k.piece_length;
  next = ground (arith, same, k.next);
}

-- An operation that keeps the totals and leaves the torrent as done as it was.
pub on_manager-IsValid :
    (f : TorrentManager → TorrentManager) (s : CoordinatorState)
    → ((m : TorrentManager) → Managers.IsValid m → Managers.IsValid (f m))
    → ((m : TorrentManager) → Agrees m (f m))
    → IsValid s
    → IsValid (on_manager f s)
unfolding on_manager
on_manager-IsValid f (downloading_metadata s) keep same v = v
on_manager-IsValid f (checking_files c) keep same (checking k) =
    checking (CheckOk-manager c (f c.manager) (keep c.manager k.manager) (same c.manager).total k)
on_manager-IsValid f (downloading_data d) keep same (downloading k) = downloading (record {
  manager = keep d.manager k.manager;
  completed = λ h. Agrees-is_done d.manager (f d.manager) (same d.manager) ∙ k.completed h;
})

pub give_work-IsValid :
    (w : World) (have : Bitfield) (d : Downloading) → DataOk d → IsValid (give_work w have d).state
unfolding give_work
give_work-IsValid w have d k = elim (Bool-cases d.paused) [
  | inl waiting ↦ simp waiting (downloading k)
  | inr running ↦ simp running (
      downloading (record {
        manager = (next_work_for-Given w.coin have d.manager k.manager).1;
        completed = λ h.
            Agrees-is_done d.manager _ (next_work_for-Agrees w.coin have d.manager) ∙ k.completed h;
      }))
]

pub returned-DataOk :
    (p : ℕ) (d : Downloading)
    → DataOk d
    → DataOk (record d { manager = Manager.return_work p d.manager })
returned-DataOk p d k = record {
  manager = return_work-IsValid p d.manager k.manager;
  completed = λ h. Agrees-is_done d.manager _ (return_work-Agrees p d.manager) ∙ k.completed h;
}

pub store-IsValid :
    (w : World) (last p : ℕ) (bytes : List ℕ) (d : Downloading)
    → DataOk d
    → IsValid (store w last p bytes d).state
unfolding store stored
store-IsValid w last p bytes d k = elim (Bool-cases (Manager.is_completed d.manager p)) [
  | inl again ↦ rw again (downloading k)
  | inr fresh ↦ elim (Bool-cases w.written) [
    | inr failed ↦ simp (fresh, failed) (downloading (returned-DataOk p d k))
    | inl done ↦
        simp (fresh, done)
          (downloading (record {
            manager = mark_completed-IsValid p d.manager k.manager;
            completed = λ h. elim (Bool-cases d.has_completed) [
              | inl before ↦ mark_completed-is_done p d.manager k.manager (k.completed before)
              | inr not_yet ↦ ground (arith, h, not_yet)
            ];
          }))
  ]
]

pub select-IsValid :
    (w : World) (s : Selection) (files : List Bool) (refetch : Bitfield) (st : CoordinatorState)
    → IsValid st
    → IsValid (select w s files refetch st).state
unfolding select reselected
select-IsValid w s files refetch (downloading_metadata f) v = v
select-IsValid w s files refetch (checking_files c) (checking k) =
    elim (Bool-cases w.files_selected) [
      | inr failed ↦ rw failed (checking k)
      | inl done ↦ rw done (
          checking (
            CheckOk-manager c (Manager.apply_selection s refetch c.manager)
              (apply_selection-IsValid s refetch c.manager k.manager)
              (unfold Manager.apply_selection in refl) k))
    ]
select-IsValid w s files refetch (downloading_data d) (downloading k) =
    elim (Bool-cases w.files_selected) [
      | inr failed ↦ rw failed (downloading k)
      | inl done ↦ rw done (
          downloading (record {
            manager = apply_selection-IsValid s refetch d.manager k.manager;
            completed = λ h. h;
          }))
    ]

pub pause_to-IsValid : (b : Bool) (s : CoordinatorState) → IsValid s → IsValid (pause_to b s).state
unfolding pause_to
pause_to-IsValid b (downloading_metadata f) v = v
pause_to-IsValid b (checking_files c) v = v
pause_to-IsValid b (downloading_data d) (downloading k) =
    downloading (record { manager = k.manager; completed = k.completed })
