-- ===== src/Session/Turns.antt =====
-- The periodic checks and the turns of a session keep it in balance.
use tortor.Prelude.{
  ◌-◌, ◌≡◌, refl, inl, inr, not, ◌&&◌, Option, none, some, List, [], ◌∷◌, ltb, leb, Bool-cases, All,
  arith,
}
use tortor.Wire
use tortor.Wire.{PeerMessage}
use tortor.Session.{
  UploadSlots, PeerContext, Libraries, Job, PeerSession, Answers, notify, peer_silence_timeout,
  choked_job_timeout, block_stall_timeout, keepalive_interval,
}
use tortor.Session.Ledger.{IsValid, IsReady, Kept}
use tortor.Session.Keeps.{Quiet, quiet, sent-Quiet, idle-Kept, job-Kept, try_unchoke-Kept}
use tortor.Session.Jobs.{holds_job-some}
use tortor.Session.{
  Input, announced, missed, received, read_failed, tick, shutdown, prepend, then_turn,
}
use tortor.Session.Work.{maybe_request_work, fill_pipeline}
use tortor.Session.Loop.{
  check_job, unchoke_waiting, keep_alive, end_if_idle, housekeeping, on_input, step, run,
}
use tortor.Swarm.{peer_progress}
use tortor.Session.Ledger.{then_turn-Kept}
use tortor.Session.Jobs.{maybe_request_work-Kept, fill_pipeline-Kept}
use tortor.Session.Exchange.{handle_event-Kept}
use tortor.Session.Requests.{AreBytesIn, noted, noted-IsValid, from_noted, handle_message-Kept}

-- Every payload of a bitfield consists of bytes.
abbrev pub AreBytes : Input → Type 0
AreBytes (received m) = AreBytesIn m
AreBytes i = Unit

module _ (lib : Libraries) (ctx : PeerContext) (w : Answers) where
  check_job-Kept :
      (o : Option Job) (s : PeerSession) (slots : UploadSlots)
      → IsValid ctx s slots
      → IsReady s
      → s.job ≡ o
      → Kept lib ctx s slots
          (prepend (notify (peer_progress ctx.peer_addr 0) ∷ []) (check_job w o s slots))
  unfolding check_job
  check_job-Kept none s slots v r h =
      idle-Kept _ v r refl refl refl refl refl
        (quiet (λ i. refl) (λ i. refl) (λ p. refl) (λ p. refl) tt, tt)
  check_job-Kept (some j) s slots v r h =
      let note : Quiet lib ctx (notify (peer_progress ctx.peer_addr 0)) =
        quiet (λ i. refl) (λ i. refl) (λ p. refl) (λ p. refl) tt in
      elim (Bool-cases (s.peer_choking && ltb choked_job_timeout (w.now - j.last_block))) [
        | inl silent ↦ rw silent (
            job-Kept _ v r refl refl refl refl tt (λ i. refl)
              (λ p. omega (arith, holds_job-some p s j h)) (tt, (tt, tt)))
        | inr waits ↦
            elim (Bool-cases
              (not s.peer_choking && ltb block_stall_timeout (w.now - j.last_block))) [
                | inl stalled ↦
                    rw (waits, stalled) (idle-Kept _ v r refl refl refl refl refl (note, tt))
                | inr fine ↦ rw (waits, fine) (idle-Kept _ v r refl refl refl refl refl (note, tt))
              ]
      ]

  unchoke_waiting-Kept :
      (s : PeerSession) (slots : UploadSlots)
      → IsValid ctx s slots
      → IsReady s
      → Kept lib ctx s slots (unchoke_waiting w s slots)
  unfolding unchoke_waiting
  unchoke_waiting-Kept s slots v r = elim (Bool-cases (s.peer_interested && s.am_choking)) [
    | inl waits ↦ rw waits (try_unchoke-Kept lib ctx w s slots v r)
    | inr no_one ↦ rw no_one (idle-Kept _ v r refl refl refl refl refl tt)
  ]

  keep_alive-Kept :
      (s : PeerSession) (slots : UploadSlots)
      → IsValid ctx s slots
      → IsReady s
      → Kept lib ctx s slots (keep_alive w s slots)
  unfolding keep_alive
  keep_alive-Kept s slots v r =
      elim (Bool-cases (leb keepalive_interval (w.now - s.last_keepalive))) [
        | inl late ↦ elim (Bool-cases w.keepalive_sent) [
          | inl done ↦
              simp (late, done)
                (idle-Kept _ v r refl refl refl refl refl (sent-Quiet Wire.keep_alive, tt))
          | inr failed ↦
              simp (late, failed)
                (idle-Kept _ v r refl refl refl refl refl (sent-Quiet Wire.keep_alive, tt))
        ]
        | inr early ↦ rw early (idle-Kept _ v r refl refl refl refl refl tt)
      ]

  housekeeping-Kept :
      (s : PeerSession) (slots : UploadSlots)
      → IsValid ctx s slots
      → IsReady s
      → Kept lib ctx s slots (housekeeping ctx w s slots)
  unfolding housekeeping end_if_idle
  housekeeping-Kept s slots v r =
      elim (Bool-cases (ltb peer_silence_timeout (w.now - s.last_recv))) [
        | inl silent ↦ rw silent (idle-Kept _ v r refl refl refl refl refl tt)
        | inr heard_from ↦ rw heard_from (
            then_turn-Kept
              (prepend (notify (peer_progress ctx.peer_addr 0) ∷ []) (check_job w s.job s slots))
              (λ s slots.
                then_turn (unchoke_waiting w s slots)
                  (λ s slots. then_turn (keep_alive w s slots) (λ s slots. end_if_idle w s slots)))
              (check_job-Kept s.job s slots v r refl)
              (λ s slots v r.
                then_turn-Kept (unchoke_waiting w s slots)
                  (λ s slots. then_turn (keep_alive w s slots) (λ s slots. end_if_idle w s slots))
                  (unchoke_waiting-Kept s slots v r)
                  (λ s slots v r.
                    then_turn-Kept (keep_alive w s slots) (λ s slots. end_if_idle w s slots)
                      (keep_alive-Kept s slots v r)
                      (λ s slots v r.
                        idle-Kept (end_if_idle w s slots) v r refl refl refl refl refl tt))))
      ]

  on_input-Kept :
      (i : Input) (s : PeerSession) (slots : UploadSlots)
      → AreBytes i
      → IsValid ctx s slots
      → IsReady s
      → Kept lib ctx s slots (on_input lib ctx w i s slots)
  unfolding on_input
  on_input-Kept shutdown s slots b v r = idle-Kept _ v r refl refl refl refl refl tt
  on_input-Kept (announced e) s slots b v r = handle_event-Kept lib ctx w e s slots v r
  on_input-Kept missed s slots b v r = idle-Kept _ v r refl refl refl refl refl tt
  on_input-Kept read_failed s slots b v r = idle-Kept _ v r refl refl refl refl refl tt
  on_input-Kept (received m) s slots b v r = from_noted s.peer_interested w.now s slots _ (
      handle_message-Kept lib ctx w m (noted s.peer_interested w.now s) slots b
        (noted-IsValid s.peer_interested w.now s slots v) r)
  on_input-Kept tick s slots b v r = housekeeping-Kept s slots v r

  pub step-Kept :
      (i : Input) (s : PeerSession) (slots : UploadSlots)
      → AreBytes i
      → IsValid ctx s slots
      → IsReady s
      → Kept lib ctx s slots (step lib ctx w i s slots)
  unfolding step
  step-Kept i s slots b v r =
      then_turn-Kept (maybe_request_work ctx w s slots)
        (λ s slots. then_turn (fill_pipeline w s slots) (λ s slots. on_input lib ctx w i s slots))
        (maybe_request_work-Kept lib ctx w s slots v r)
        (λ s slots v r.
          then_turn-Kept (fill_pipeline w s slots) (λ s slots. on_input lib ctx w i s slots)
            (fill_pipeline-Kept lib ctx w s slots v r)
            (λ s slots v r. on_input-Kept i s slots b v r))

pub run-Kept :
    (lib : Libraries) (ctx : PeerContext) (turns : List (Answers × Input)) (s : PeerSession)
    (slots : UploadSlots)
    → All (λ t. AreBytes t.1) turns
    → IsValid ctx s slots
    → IsReady s
    → Kept lib ctx s slots (run lib ctx turns s slots)
unfolding run
run-Kept lib ctx [] s slots b v r = idle-Kept _ v r refl refl refl refl refl tt
run-Kept lib ctx ((w, i) ∷ rest) s slots b v r =
    then_turn-Kept (step lib ctx w i s slots) (run lib ctx rest)
      (step-Kept lib ctx w i s slots b.0 v r) (λ s slots v r. run-Kept lib ctx rest s slots b.1 v r)
