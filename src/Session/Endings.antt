-- ===== src/Session/Endings.antt =====
-- No session of src/net/session.rs ends because its assembler refuses a part.
use tortor.Prelude.{
  ℕ, ◌<◌, ◌≡◌, ◌⊎◌, refl, sym, inl, inr, Option, none, some, List, [], ◌∷◌, arith, Bool-cases, take,
  filterb, not, ltb, ◌-◌, get_elem?, ◌∙◌,
}
use tortor.Prelude.Words.{u32_mod}
use tortor.Coordinator.{request_work}
use tortor.Swarm.{peer_progress, same_addr}
use tortor.Pex.{SocketAddr}
use tortor.Session.{
  UploadSlots, PeerContext, Libraries, Job, PeerSession, SessionEvent, piece_completed,
  active_peers_snapshot, download_complete, selection_changed, Input, announced, missed, received,
  read_failed, tick, shutdown, Answers, assembler_error, notify, peer_silence_timeout, tell, given,
  piece_len_at, Turn, fails, prepend, then_turn, turn, goes_on,
}
use tortor.Session.Slots.{try_unchoke, unchoke}
use tortor.Session.Work.{assigned, replied, maybe_request_work, fill_pipeline}
use tortor.Session.Messages.{
  difference, on_piece_completed, on_selection_changed, send_changes, on_snapshot, handle_event,
}
use tortor.Session.Loop.{
  check_job, unchoke_waiting, keep_alive, end_if_idle, housekeeping, on_input, step, run,
}
use tortor.Session.Cause.{JobSound, IsShort}
use tortor.Session.Errors.{handle_message-Cause}
use tortor.Session.Holds.{handle_message-JobSound}
use tortor.Session.Sound.{leaves, maybe_request_work-JobSound, fill_pipeline-JobSound}

-- The assembler of the job is well formed after a turn, and has not ended it.
pub record IsFine (t : Turn) : Type 0 where
  pub job : JobSound t.session.job
  pub no_refusal : t.status ≡ fails assembler_error → ⊥

abbrev pub IsShortIn : Input → Type 0
IsShortIn (received m) = IsShort m
IsShortIn i = Unit

abbrev pub AreShort : List (Answers × Input) → Type 0
AreShort [] = Unit
AreShort ((w, i) ∷ rest) = IsShortIn i × AreShort rest

then_turn-IsFine :
    (t : Turn) (next : PeerSession → UploadSlots → Turn)
    → IsFine t
    → ((s : PeerSession) (slots : UploadSlots) → JobSound s.job → IsFine (next s slots))
    → IsFine (then_turn t next)
unfolding then_turn
then_turn-IsFine t next v rest =
    let after = rest t.session t.slots v.job in
    let job : ((then_turn t next).session.job ≡ t.session.job)
        ⊎ ((then_turn t next).session.job ≡ (next t.session t.slots).session.job) =
      ground arith in
    let status : ((then_turn t next).status ≡ t.status)
        ⊎ ((then_turn t next).status ≡ (next t.session t.slots).status) =
      ground arith in
    record {
      job = leaves job v.job after.job;
      no_refusal = λ h. elim status [
        | inl e ↦ v.no_refusal (sym e ∙ h)
        | inr e ↦ after.no_refusal (sym e ∙ h)
      ];
    }

-- A turn that keeps the job or drops it.
keeps-IsFine :
    (t : Turn) (o : Option Job)
    → (t.session.job ≡ o) ⊎ (t.session.job ≡ none)
    → JobSound o
    → (t.status ≡ fails assembler_error → ⊥)
    → IsFine t
keeps-IsFine t o either v r = record { job = leaves either v tt; no_refusal = r }

module _ (lib : Libraries) (ctx : PeerContext) (word : ctx.piece_length < u32_mod)
    (w : Answers) where
  replied-status :
      (reply : Option ℕ) (s : PeerSession) (slots : UploadSlots)
      → (replied ctx w reply s slots).status ≡ fails assembler_error
      → ⊥
  unfolding replied
  replied-status none s slots h = cc h
  replied-status (some i) s slots h =
      assigned-status (get_elem? ctx.expected_hashes i) (piece_len_at ctx i) h
    where
      assigned-status :
          (hash : Option (List ℕ)) (len : Option ℕ)
          → (assigned w i hash len s slots
              (tell (request_work s.have_pieces) ∷ given i ∷ [])).status
            ≡ fails assembler_error
          → ⊥
      assigned-status none len h = unfold assigned in cc h
      assigned-status (some hash) none h = unfold assigned in cc h
      assigned-status (some hash) (some len) h = unfold assigned in cc h

  maybe_request_work-status :
      (s : PeerSession) (slots : UploadSlots)
      → (maybe_request_work ctx w s slots).status ≡ fails assembler_error
      → ⊥
  unfolding maybe_request_work
  maybe_request_work-status s slots h =
      let r = replied-status w.work s slots in ground (arith, h, r)

  fill_pipeline-status :
      (s : PeerSession) (slots : UploadSlots)
      → (fill_pipeline w s slots).status ≡ fails assembler_error
      → ⊥
  unfolding fill_pipeline
  fill_pipeline-status s slots h = ground (arith, h)

  send_changes-IsFine :
      (id : ℕ) (current gone new : List SocketAddr) (s : PeerSession) (slots : UploadSlots)
      → JobSound s.job
      → IsFine (send_changes lib id current gone new s slots)
  unfolding send_changes
  send_changes-IsFine id current gone new s slots v =
      keeps-IsFine _ s.job (ground arith) v (λ h. ground (arith, h))

  on_snapshot-IsFine :
      (peers : List SocketAddr) (s : PeerSession) (slots : UploadSlots)
      → JobSound s.job
      → IsFine (on_snapshot lib ctx peers s slots)
  unfolding on_snapshot
  on_snapshot-IsFine peers s slots v = by_id s.remote_pex_id
    where
      added : List SocketAddr
      added =
          take 50
            (filterb (λ a. not (same_addr a ctx.peer_addr)) (difference peers s.last_sent_peers))

      dropped : List SocketAddr
      dropped = take 50 (difference s.last_sent_peers peers)

      by_id :
          (o : Option ℕ)
          → IsFine (elim o [
            | none ↦ turn [] s slots goes_on
            | some id ↦ send_changes lib id peers added dropped s slots
          ])
      by_id none = keeps-IsFine _ s.job (inl refl) v (λ h. cc h)
      by_id (some id) = send_changes-IsFine id peers added dropped s slots v

  handle_event-IsFine :
      (event : SessionEvent) (s : PeerSession) (slots : UploadSlots)
      → JobSound s.job
      → IsFine (handle_event lib ctx w event s slots)
  unfolding handle_event on_piece_completed on_selection_changed on_snapshot
  handle_event-IsFine (piece_completed index) s slots v =
      keeps-IsFine _ s.job (ground arith) v (λ h. ground (arith, h))
  handle_event-IsFine selection_changed s slots v =
      keeps-IsFine _ s.job (ground arith) v (λ h. ground (arith, h))
  handle_event-IsFine download_complete s slots v =
      keeps-IsFine _ s.job (ground arith) v (λ h. ground (arith, h))
  handle_event-IsFine (active_peers_snapshot peers) s slots v = on_snapshot-IsFine peers s slots v

  check_job-IsFine :
      (o : Option Job) (s : PeerSession) (slots : UploadSlots)
      → JobSound s.job
      → IsFine (check_job w o s slots)
  unfolding check_job
  check_job-IsFine none s slots v = keeps-IsFine _ s.job (inl refl) v (λ h. cc h)
  check_job-IsFine (some j) s slots v =
      keeps-IsFine _ s.job (ground arith) v (λ h. ground (arith, h))

  unchoke_waiting-IsFine :
      (s : PeerSession) (slots : UploadSlots) → JobSound s.job → IsFine (unchoke_waiting w s slots)
  unfolding unchoke_waiting try_unchoke unchoke
  unchoke_waiting-IsFine s slots v = keeps-IsFine _ s.job (ground arith) v (λ h. ground (arith, h))

  keep_alive-IsFine :
      (s : PeerSession) (slots : UploadSlots) → JobSound s.job → IsFine (keep_alive w s slots)
  unfolding keep_alive
  keep_alive-IsFine s slots v = keeps-IsFine _ s.job (ground arith) v (λ h. ground (arith, h))

  end_if_idle-IsFine :
      (s : PeerSession) (slots : UploadSlots) → JobSound s.job → IsFine (end_if_idle w s slots)
  unfolding end_if_idle
  end_if_idle-IsFine s slots v = keeps-IsFine _ s.job (inl refl) v (λ h. ground (arith, h))

  housekeeping-IsFine :
      (s : PeerSession) (slots : UploadSlots) → JobSound s.job → IsFine (housekeeping ctx w s slots)
  unfolding housekeeping
  housekeeping-IsFine s slots v =
      elim (Bool-cases (ltb peer_silence_timeout (w.now - s.last_recv))) [
        | inl silent ↦ rw silent (keeps-IsFine _ s.job (inl refl) v (λ h. cc h))
        | inr heard ↦
            let checked = check_job-IsFine s.job s slots v in
            rw heard (
              then_turn-IsFine
                (prepend (notify (peer_progress ctx.peer_addr 0) ∷ []) (check_job w s.job s slots))
                _ (record { job = checked.job; no_refusal = checked.no_refusal })
                (λ s slots v.
                  then_turn-IsFine (unchoke_waiting w s slots) _ (unchoke_waiting-IsFine s slots v)
                    (λ s slots v.
                      then_turn-IsFine (keep_alive w s slots) _ (keep_alive-IsFine s slots v)
                        (λ s slots v. end_if_idle-IsFine s slots v))))
      ]

  -- The parts of pieces in a turn are shorter than 2^32 bytes.
  on_input-IsFine :
      (i : Input) (s : PeerSession) (slots : UploadSlots)
      → IsShortIn i
      → JobSound s.job
      → IsFine (on_input lib ctx w i s slots)
  unfolding on_input
  on_input-IsFine shutdown s slots short v = keeps-IsFine _ s.job (inl refl) v (λ h. cc h)
  on_input-IsFine (announced event) s slots short v = handle_event-IsFine event s slots v
  on_input-IsFine missed s slots short v = keeps-IsFine _ s.job (inl refl) v (λ h. cc h)
  on_input-IsFine read_failed s slots short v = keeps-IsFine _ s.job (inl refl) v (λ h. cc h)
  on_input-IsFine (received m) s slots short v = record {
    job = handle_message-JobSound lib ctx w m (record s { last_recv = w.now }) slots v;
    no_refusal =
        handle_message-Cause lib ctx w assembler_error m (record s { last_recv = w.now }) slots v
          short;
  }
  on_input-IsFine tick s slots short v = housekeeping-IsFine s slots v

  step-IsFine :
      (i : Input) (s : PeerSession) (slots : UploadSlots)
      → IsShortIn i
      → JobSound s.job
      → IsFine (step lib ctx w i s slots)
  unfolding step
  step-IsFine i s slots short v =
      then_turn-IsFine (maybe_request_work ctx w s slots) _
        (record {
          job = maybe_request_work-JobSound ctx word w s slots v;
          no_refusal = maybe_request_work-status s slots;
        })
        (λ s slots v.
          then_turn-IsFine (fill_pipeline w s slots) _
            (record {
              job = fill_pipeline-JobSound ctx word w s slots v;
              no_refusal = fill_pipeline-status s slots;
            })
            (λ s slots v. on_input-IsFine i s slots short v))

-- Whatever happens to a session whose job's assembler is well formed: it stays so, and no run ends
-- because the assembler refuses a part. Pieces and their parts are shorter than 2^32 bytes.
pub run-IsFine :
    (lib : Libraries) (ctx : PeerContext) (turns : List (Answers × Input)) (s : PeerSession)
    (slots : UploadSlots)
    → ctx.piece_length < u32_mod
    → AreShort turns
    → JobSound s.job
    → IsFine (run lib ctx turns s slots)
unfolding run
run-IsFine lib ctx [] s slots word short v = keeps-IsFine _ s.job (inl refl) v (λ h. cc h)
run-IsFine lib ctx ((w, i) ∷ rest) s slots word short v =
    then_turn-IsFine (step lib ctx w i s slots) _ (step-IsFine lib ctx word w i s slots short.0 v)
      (λ s slots v. run-IsFine lib ctx rest s slots word short.1 v)
