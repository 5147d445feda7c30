-- ===== src/Session/Exchange.antt =====
-- Announcements and messages keep a session in balance.
use tortor.Prelude.{
  ℕ, ◌+◌, ◌≤◌, ◌≡◌, refl, inl, inr, Bool, true, false, not, ◌&&◌, Option, none, some, List, [], ◌∷◌,
  if◌then◌else◌, ◌==◌, Bool-cases, length, All, arith, ==→≡, take, filterb,
}
use tortor.Prelude.Result.{Result, ok, err}
use tortor.Bencode.{BencodeError}
use tortor.Bencode.Parse.{check_bencode_depth}
use tortor.Pex.{SocketAddr, PexMessage, from_peers, decode_added}
use tortor.Swarm.{same_addr}
use tortor.Wire
use tortor.Wire.{PeerMessage}
use tortor.Session.{
  UploadSlots, PeerContext, Libraries, Job, PeerSession, SessionEvent, piece_completed,
  active_peers_snapshot, download_complete, selection_changed, Answers, send, heard, turn, goes_on,
}
use tortor.Session.Messages.{
  job_is, on_piece_completed, on_selection_changed, difference, encoded, send_changes, on_snapshot,
  handle_event, pex_peers, on_extended, handle_extended, is_id,
}
use tortor.Session.Ledger.{one_if, holds_job, IsValid, IsReady, Kept}
use tortor.Session.Keeps.{Quiet, quiet, sent-Quiet, idle-Kept, job-Kept}
use tortor.Session.Jobs.{holds_job-some}

module _ (lib : Libraries) (ctx : PeerContext) (w : Answers) where
  -- The announced piece is settled, also if it was no job.
  dropped-Kept :
      (index : ℕ) (b : Bool) (s : PeerSession) (slots : UploadSlots)
      → IsValid ctx s slots
      → IsReady s
      → job_is index s ≡ b
      → Kept lib ctx s slots (
          turn
            (heard index ∷ send (Wire.have index) ∷ [])
            (if b then record s { job = none } else s)
            slots
            goes_on)
  dropped-Kept index true s slots v r e =
      job-Kept _ v r refl refl refl refl tt (λ i. refl) (settles s.job refl e) (tt, (tt, tt))
    where
      settles :
          (o : Option Job)
          → s.job ≡ o
          → (elim o as (λ _. Bool) [ none ↦ false | some j ↦ j.index == index ]) ≡ true
          → (p : ℕ) → 0 + holds_job p s ≤ 0 + (one_if (p == index) + 0)
      settles none h e p = absurd (cc e)
      settles (some j) h e p =
          let same : j.index ≡ index = ==→≡ j.index index e in
          ground (arith, holds_job-some p s j h, same)
  dropped-Kept index false s slots v r e =
      job-Kept _ v r refl refl refl refl v.job_ok (λ i. refl) (λ p. omega arith) (tt, (tt, tt))

  pub handle_event-Kept :
      (e : SessionEvent) (s : PeerSession) (slots : UploadSlots)
      → IsValid ctx s slots
      → IsReady s
      → Kept lib ctx s slots (handle_event lib ctx w e s slots)
  unfolding handle_event on_piece_completed on_selection_changed on_snapshot send_changes
  handle_event-Kept (piece_completed index) s slots v r =
      dropped-Kept index (job_is index s) s slots v r refl
  handle_event-Kept selection_changed s slots v r = elim (Bool-cases s.am_interested) [
    | inl asks ↦ simp asks (idle-Kept _ v r refl refl refl refl refl tt)
    | inr stays ↦ elim (Bool-cases w.sent) [
      | inl done ↦
          simp (stays, done)
            (idle-Kept _ v r refl refl refl refl refl (sent-Quiet Wire.interested, tt))
      | inr failed ↦
          simp (stays, failed)
            (idle-Kept _ v r refl refl refl refl refl (sent-Quiet Wire.interested, tt))
    ]
  ]
  handle_event-Kept download_complete s slots v r = elim (Bool-cases s.am_interested) [
    | inl asks ↦
        simp asks (idle-Kept _ v r refl refl refl refl refl (sent-Quiet Wire.not_interested, tt))
    | inr stays ↦ simp stays (idle-Kept _ v r refl refl refl refl refl tt)
  ]
  handle_event-Kept (active_peers_snapshot peers) s slots v r = by_id s.remote_pex_id
    where
      by_payload : (id : ℕ) (o : Option (List ℕ)) → All (Quiet lib ctx) (encoded id o)
      by_payload id none = tt
      by_payload id (some payload) = (sent-Quiet (Wire.extended id payload), tt)

      changed :
          (id : ℕ) (plus minus : List SocketAddr)
          → Kept lib ctx s slots (send_changes lib id peers plus minus s slots)
      changed id plus minus = elim (Bool-cases (length plus == 0 && length minus == 0)) [
        | inl same ↦ rw same (idle-Kept _ v r refl refl refl refl refl tt)
        | inr other ↦ rw other (
            idle-Kept _ v r refl refl refl refl refl
              (by_payload id (lib.encode_pex (from_peers plus minus))))
      ]

      by_id :
          (o : Option ℕ)
          → Kept lib ctx s slots (elim o [
            | none ↦ turn [] s slots goes_on
            | some remote_id ↦
                send_changes lib remote_id peers
                  (take 50 (
                    filterb
                      (λ a. not (same_addr a ctx.peer_addr))
                      (difference peers s.last_sent_peers)))
                  (take 50 (difference s.last_sent_peers peers))
                  s
                  slots
          ])
      by_id none = idle-Kept _ v r refl refl refl refl refl tt
      by_id (some id) =
          changed id
            (take 50
              (filterb (λ a. not (same_addr a ctx.peer_addr)) (difference peers s.last_sent_peers)))
            (take 50 (difference s.last_sent_peers peers))

  pub handle_extended-Kept :
      (id : ℕ) (payload : List ℕ) (s : PeerSession) (slots : UploadSlots)
      → IsValid ctx s slots
      → IsReady s
      → Kept lib ctx s slots (handle_extended lib id payload s slots)
  unfolding handle_extended on_extended
  handle_extended-Kept id payload s slots v r = by_depth (check_bencode_depth payload)
    where
      by_pex : (o : Option PexMessage) → All (Quiet lib ctx) (pex_peers o)
      by_pex none = tt
      by_pex (some m) = elim (Bool-cases (length (decode_added m) == 0)) [
        | inl empty ↦ rw empty tt
        | inr more ↦ rw more (quiet (λ i. refl) (λ i. refl) (λ p. refl) (λ p. refl) tt, tt)
      ]

      by_depth :
          (d : Result BencodeError Unit)
          → Kept lib ctx s slots (on_extended lib id payload d s slots)
      by_depth (err e) = idle-Kept _ v r refl refl refl refl refl tt
      by_depth (ok u) = elim (Bool-cases (id == 0)) [
        | inl hello ↦ rw hello (idle-Kept _ v r refl refl refl refl refl tt)
        | inr other ↦ elim (Bool-cases (is_id id s.remote_pex_id)) [
          | inl pex ↦
              rw (other, pex)
                (idle-Kept _ v r refl refl refl refl refl (by_pex (lib.decode_pex payload)))
          | inr unknown ↦ rw (other, unknown) (idle-Kept _ v r refl refl refl refl refl tt)
        ]
      ]
