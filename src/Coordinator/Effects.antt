-- ===== src/Coordinator/Effects.antt =====
-- Why the coordinator sends what it sends: to peers, to the session tasks and to the resume file.
use tortor.Prelude.{
  ℕ, ◌≤◌, ◌<◌, ◌≡◌, refl, sym, ap, ◌∙◌, inl, inr, Bool, true, false, none, Option, some, List, [],
  Bool-cases, Option-cases, arith, if◌then◌else◌, All,
}
use mathlib.Core.Path.{subst}
use tortor.Prelude.Sets.{contains}
use tortor.Bitfield
use tortor.Bitfield.{Bitfield}
use tortor.Manager
use tortor.Manager.{TorrentManager}
use tortor.Manager.Work.{Given, rarest, nothing_for_peer, shared, idle, next_work_for-Given}
use tortor.Manager.Steps.{refresh-IsValid}
use tortor.Resume.{from_manager}
use tortor.Coordinator.{
  request_work, read_piece, Event, incoming, Effect, reply_work, reply_pieces, reply_block,
  reply_metadata_work, write_piece, select_files, flush, save_fastresume, metadata_ready,
  piece_completed, download_complete, selection_changed, paused_state, World, Downloading,
  CoordinatorState, downloading_data, manager_mut, complete_if, announce_piece, max_block_request,
}
use tortor.Coordinator.Handlers.{persist_resume, give_work}
use tortor.Coordinator.Invariant.{DataOk}

-- A piece that a peer may be given: the peer has it and it is not completed.
pub record IsOffer (have : Bitfield) (d : Downloading) (p : ℕ) : Type 0 where
  pub running : d.paused ≡ false
  pub peer_has : Bitfield.has have p ≡ true
  pub not_completed : contains p d.manager.completed ≡ false

-- A block that a peer may be sent, and that the disk gave.
pub record IsServed (w : World) (m : TorrentManager) (index begin len : ℕ) (block : List ℕ)
    : Type 0 where
  pub some_bytes : 0 < len
  pub bounded : len ≤ max_block_request
  pub servable : Manager.is_servable m index ≡ true
  pub stored : w.block_at index begin len ≡ some block

-- An effect of a round that took the state `s` to `s'`.
pub data Justified (w : World) (ev : Event) (s s' : CoordinatorState) : Effect → Type 0 where
  no_work : Justified w ev s s' (reply_work none)
  offered :
      (have : Bitfield) (d : Downloading) (p : ℕ)
      → ev ≡ incoming (request_work have)
      → s ≡ downloading_data d
      → IsOffer have d p
      → Justified w ev s s' (reply_work (some p))
  listed :
      (ps : List ℕ)
      → ((p : ℕ)
          → contains p ps ≡ true
          → (m : TorrentManager) × (manager_mut s ≡ some m) × (Manager.is_servable m p ≡ true))
      → Justified w ev s s' (reply_pieces ps)
  no_block : Justified w ev s s' (reply_block none)
  served :
      (index begin len : ℕ) (d : Downloading) (block : List ℕ)
      → ev ≡ incoming (read_piece index begin len)
      → s ≡ downloading_data d
      → IsServed w d.manager index begin len block
      → Justified w ev s s' (reply_block (some block))
  -- the record is that of the manager, and the flush succeeded
  saved :
      (m : TorrentManager)
      → w.flushed ≡ true
      → manager_mut s' ≡ some m
      → Justified w ev s s' (save_fastresume (from_manager m))
  announced :
      (m : TorrentManager) (p : ℕ)
      → manager_mut s' ≡ some m
      → Manager.is_servable m p ≡ true
      → Justified w ev s s' (piece_completed p)
  incomplete :
      (m : TorrentManager)
      → manager_mut s' ≡ some m
      → Manager.is_done m ≡ false
      → Justified w ev s s' selection_changed
  asks_metadata : {o : Option ℕ} → Justified w ev s s' (reply_metadata_work o)
  writes : {p : ℕ} {bytes : List ℕ} → Justified w ev s s' (write_piece p bytes)
  selects : {files : List Bool} → Justified w ev s s' (select_files files)
  flushes : Justified w ev s s' flush
  has_metadata : {m : tortor.Torrent.TorrentMeta} → Justified w ev s s' (metadata_ready m)
  completes : Justified w ev s s' download_complete
  pauses : {b : Bool} → Justified w ev s s' (paused_state b)

pub announce_piece-Justified :
    (w : World) (ev : Event) (s s' : CoordinatorState) (m : TorrentManager) (p : ℕ)
    → manager_mut s' ≡ some m
    → All (Justified w ev s s') (announce_piece m p)
announce_piece-Justified w ev s s' m p e = elim (Bool-cases (Manager.is_servable m p)) [
  | inl h ↦ rw h (announced m p e h, tt)
  | inr h ↦ rw h tt
]

pub complete_if-Justified :
    (w : World) (ev : Event) (s s' : CoordinatorState) (b : Bool)
    → All (Justified w ev s s') (complete_if b)
complete_if-Justified w ev s s' true = (completes, tt)
complete_if-Justified w ev s s' false = tt

pub persist_resume-Justified :
    (w : World) (ev : Event) (s s' : CoordinatorState) (m : TorrentManager)
    → manager_mut s' ≡ some m
    → All (Justified w ev s s') (persist_resume w m)
unfolding persist_resume
persist_resume-Justified w ev s s' m e = elim (Bool-cases w.flushed) [
  | inl h ↦ simp h (flushes, (saved m h e, tt))
  | inr h ↦ simp h (flushes, tt)
]

pub persist_if-Justified :
    (w : World) (ev : Event) (s s' : CoordinatorState) (m : TorrentManager) (b : Bool)
    → manager_mut s' ≡ some m
    → All (Justified w ev s s') (if b then persist_resume w m else [])
persist_if-Justified w ev s s' m true e = persist_resume-Justified w ev s s' m e
persist_if-Justified w ev s s' m false e = tt

refresh-completed : (m : TorrentManager) → (Manager.refresh m).completed ≡ m.completed
unfolding Manager.refresh
refresh-completed m = ground arith

pub give_work-IsOffer :
    (w : World) (have : Bitfield) (d : Downloading) (p : ℕ)
    → DataOk d
    → d.paused ≡ false
    → (Manager.next_work_for w.coin have d.manager).0 ≡ some p
    → IsOffer have d p
give_work-IsOffer w have d p k running e =
    by_given (Manager.next_work_for w.coin have d.manager)
      (next_work_for-Given w.coin have d.manager k.manager).0 e
  where
    by_given :
        (r : Option ℕ × TorrentManager)
        → Given (Bitfield.has have) (Manager.refresh d.manager) r
        → r.0 ≡ some p
        → IsOffer have d p
    by_given r (rarest q there has fresh least held gone) e =
        let is_p : q ≡ p = ground (arith, e) in
        subst (IsOffer have d) is_p (record {
          running = running;
          peer_has = has;
          not_completed = ap (contains q) (sym (refresh-completed d.manager)) ∙ fresh;
        })
    by_given r (shared q n empty has held few least now) e =
        let is_p : q ≡ p = ground (arith, e) in
        let fresh = ((refresh-IsValid d.manager k.manager).pieces q).held n held in
        subst (IsOffer have d) is_p (record {
          running = running;
          peer_has = has;
          not_completed = ap (contains q) (sym (refresh-completed d.manager)) ∙ fresh.3;
        })
    by_given r (nothing_for_peer some_left none_has) e = absurd (ground (arith, e))
    by_given r (idle empty no_candidate) e = absurd (ground (arith, e))

pub give_work-Justified :
    (w : World) (have : Bitfield) (d : Downloading) (s' : CoordinatorState)
    → DataOk d
    → All
        (Justified w (incoming (request_work have)) (downloading_data d) s')
        (give_work w have d).effects
unfolding give_work
give_work-Justified w have d s' k = elim (Bool-cases d.paused) [
  | inl waiting ↦ simp waiting (no_work, tt)
  | inr running ↦
      simp running (elim (Option-cases (Manager.next_work_for w.coin have d.manager).0) [
        | inl h ↦ rw h (no_work, tt)
        | inr (p, h) ↦
            rw h (offered have d p refl refl (give_work-IsOffer w have d p k running h), tt)
      ])
]
