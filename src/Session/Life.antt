-- ===== src/Session/Life.antt =====
-- The life of a session, from its first messages to its end, and what it takes and gives back.
use tortor.Prelude.{
  ℕ, ◌+◌, ◌≤◌, ◌≡◌, refl, ◌∙◌, inl, inr, Bool, true, false, Option, none, some, List, [], ◌∷◌, ◌++◌,
  Bool-cases, length, All, All-append, arith,
}
use tortor.Bitfield
use tortor.Bitfield.{Bitfield}
use tortor.Wire
use tortor.Wire.{PeerMessage}
use tortor.Session.{
  UploadSlots, PeerContext, Libraries, PeerSession, Answers, Effect, send, tell, turn, goes_on,
  Turn,
}
use tortor.Session.Ledger.{
  one_if, gains, losses, reserved, settled, total, total-append, holds_job, IsAllowed, IsValid,
  IsReady, Kept,
}
use tortor.Session.Keeps.{Quiet, quiet, sent-Quiet, idle-Kept}
use tortor.Session.{Input, then_turn, new_session}
use tortor.Session.Loop.{
  run, send_completed, send_interested, offer_extensions, send_opening_messages, finish,
  run_peer_session,
}
use tortor.Coordinator.{get_completed_pieces}
use tortor.Session.Ledger.{prepend-Kept, then_turn-Kept}
use tortor.Bitfield.Valid.{new-IsValid}
use tortor.Bitfield.Members.{has-new}
use tortor.Session.Turns.{AreBytes, run-Kept}
use tortor.Session.Finish.{finish-Finished}

-- What a session leaves behind that ran with some upload slots, with its trace.
pub record GivesBack (lib : Libraries) (ctx : PeerContext) (aborted : Bool) (slots : UploadSlots)
    (r : List Effect × (PeerSession × UploadSlots)) : Type 0 where
  -- the slots in use are those before it and the one that it still holds
  pub used : r.1.1.used ≡ slots.used + one_if r.1.0.holds_upload_slot
  pub max : r.1.1.max ≡ slots.max
  -- no piece of the peer is taken back, or still there, more often than it was announced
  pub pieces :
      (i : ℕ)
      → total (losses i) r.0 + one_if (Bitfield.has r.1.0.have_pieces i) ≤ total (gains i) r.0
  -- every piece that was reserved is settled, or is that of the job that it still has
  pub jobs : (p : ℕ) → total (reserved p) r.0 ≤ total (settled p) r.0 + holds_job p r.1.0
  -- a session that is not aborted holds nothing in the end
  pub no_slot : aborted ≡ false → r.1.0.holds_upload_slot ≡ false
  pub no_job : aborted ≡ false → r.1.0.job ≡ none
  pub no_pieces : aborted ≡ false → (i : ℕ) → Bitfield.has r.1.0.have_pieces i ≡ false
  pub allowed : All (IsAllowed lib ctx) r.0

module _ (lib : Libraries) (ctx : PeerContext) (w : Answers) where
  pub new_session-IsValid :
      (now : ℕ) (slots : UploadSlots)
      → slots.used ≤ slots.max
      → IsValid ctx (new_session ctx now) slots
  unfolding new_session
  new_session-IsValid now slots le = record {
    have_valid = new-IsValid (length ctx.expected_hashes);
    have_len = unfold Bitfield.new in refl;
    job_ok = tt;
    held = omega arith;
    bounded = le;
  }

  send_completed-Kept :
      (completed : Option (List ℕ)) (s : PeerSession) (slots : UploadSlots)
      → IsValid ctx s slots
      → IsReady s
      → Kept lib ctx s slots (send_completed ctx w completed s slots)
  unfolding send_completed
  send_completed-Kept none s slots v r = idle-Kept _ v r refl refl refl refl refl tt
  send_completed-Kept (some []) s slots v r = idle-Kept _ v r refl refl refl refl refl tt
  send_completed-Kept (some (p ∷ ps)) s slots v r =
      idle-Kept _ v r refl refl refl refl refl (sent-Quiet _, tt)

  send_interested-Kept :
      (s : PeerSession) (slots : UploadSlots)
      → IsValid ctx s slots
      → IsReady s
      → Kept lib ctx s slots (send_interested w s slots)
  unfolding send_interested
  send_interested-Kept s slots v r =
      idle-Kept _ v r refl refl refl refl refl (sent-Quiet Wire.interested, tt)

  hello-Quiet :
      (supported : Bool)
      → All (Quiet lib ctx) (offer_extensions lib supported ++ (tell get_completed_pieces ∷ []))
  hello-Quiet supported =
      All-append (Quiet lib ctx) (offer_extensions lib supported) _ (offers supported)
        (quiet (λ i. refl) (λ i. refl) (λ p. refl) (λ p. refl) tt, tt)
    where
      by_payload :
          (o : Option (List ℕ))
          → All
              (Quiet lib ctx)
              (elim o [ none ↦ [] | some payload ↦ send (Wire.extended 0 payload) ∷ [] ])
      by_payload none = tt
      by_payload (some payload) = (sent-Quiet (Wire.extended 0 payload), tt)

      offers : (b : Bool) → All (Quiet lib ctx) (offer_extensions lib b)
      offers true = by_payload lib.extended_handshake
      offers false = tt

  pub send_opening_messages-Kept :
      (supported : Bool) (completed : Option (List ℕ)) (s : PeerSession) (slots : UploadSlots)
      → IsValid ctx s slots
      → IsReady s
      → Kept lib ctx s slots (send_opening_messages lib ctx w supported completed s slots)
  unfolding send_opening_messages
  send_opening_messages-Kept supported completed s slots v r =
      let hello = offer_extensions lib supported ++ (tell get_completed_pieces ∷ []) in
      elim (Bool-cases w.coordinator_there) [
        | inr gone ↦ rw gone (idle-Kept _ v r refl refl refl refl refl (hello-Quiet supported))
        | inl there ↦ rw there (
            prepend-Kept (turn hello s slots goes_on) _
              (idle-Kept _ v r refl refl refl refl refl (hello-Quiet supported))
              (then_turn-Kept (send_completed ctx w completed s slots) (send_interested w)
                (send_completed-Kept completed s slots v r) send_interested-Kept))
      ]

lived-Kept :
    (lib : Libraries) (ctx : PeerContext) (w : Answers) (supported : Bool)
    (completed : Option (List ℕ)) (turns : List (Answers × Input)) (slots : UploadSlots)
    → slots.used ≤ slots.max
    → All (λ t. AreBytes t.1) turns
    → Kept lib ctx (new_session ctx w.now) slots (
        then_turn
          (send_opening_messages lib ctx w supported completed (new_session ctx w.now) slots)
          (run lib ctx turns))
lived-Kept lib ctx w supported completed turns slots le bytes =
    then_turn-Kept _ (run lib ctx turns)
      (send_opening_messages-Kept lib ctx w supported completed (new_session ctx w.now) slots
        (new_session-IsValid lib ctx w w.now slots le) (unfold new_session in refl))
      (λ s slots v r. run-Kept lib ctx turns s slots bytes v r)

-- What the turns of a new session leave, before and after the end of the session.
module _ (lib : Libraries) (ctx : PeerContext) (now : ℕ) (slots : UploadSlots) (t : Turn)
    (k : Kept lib ctx (new_session ctx now) slots t) where
  none_yet : (i : ℕ) → Bitfield.has (new_session ctx now).have_pieces i ≡ false
  unfolding new_session
  none_yet i = has-new (length ctx.expected_hashes) i

  aborted-GivesBack : GivesBack lib ctx true slots (t.effects, (t.session, t.slots))
  aborted-GivesBack = record {
    used = unfold new_session in omega (arith, k.balance);
    max = k.max;
    pieces = λ i. ground (arith, k.pieces i, none_yet i);
    jobs = λ p. unfold new_session in omega (arith, k.jobs p);
    no_slot = λ h. absurd (cc h);
    no_job = λ h. absurd (cc h);
    no_pieces = λ h. absurd (cc h);
    allowed = k.allowed;
  }

  ended-GivesBack :
      GivesBack lib ctx false slots
        (t.effects ++ (finish t.session t.slots).0, (finish t.session t.slots).1)
  ended-GivesBack =
      let end = finish-Finished lib ctx t.session t.slots k.valid in
      let fs = (finish t.session t.slots).0 in
      record {
        used = unfold new_session in ground (arith, k.balance, end.used, end.no_slot);
        max = end.max ∙ k.max;
        pieces = λ i. ground (
          arith,
          k.pieces i,
          end.lost i,
          end.gained i,
          none_yet i,
          end.no_pieces i,
          total-append (losses i) t.effects fs,
          total-append (gains i) t.effects fs,
        );
        jobs = λ p.
            unfold new_session in
            omega (
              arith,
              k.jobs p,
              end.reserves p,
              end.settles p,
              total-append (reserved p) t.effects fs,
              total-append (settled p) t.effects fs,
            );
        no_slot = λ h. end.no_slot;
        no_job = λ h. end.no_job;
        no_pieces = λ h. end.no_pieces;
        allowed = All-append (IsAllowed lib ctx) t.effects fs k.allowed end.fine;
      }

-- Whatever its peer, its torrent and the coordinator do, a session that is not aborted gives back
-- what it took, however it ends: it has no slot, no job and no piece of its peer in the end, and as
-- many upload slots are in use as before. One that is aborted, at any point, leaves no more than the
-- slot that it holds in use, and no more than its job unsettled. In both cases each piece that was
-- reserved for it is given back, handed over or announced to be complete, or is still its job's, or
-- the task that hashes it failed; no piece of its peer is taken back more often than it was
-- announced; a piece is handed over only with the expected hash, and a block is asked for only
-- within its piece and with at most 32768 bytes.
pub run_peer_session-GivesBack :
    (lib : Libraries) (ctx : PeerContext) (w : Answers) (supported : Bool)
    (completed : Option (List ℕ)) (turns : List (Answers × Input)) (aborted : Bool)
    (slots : UploadSlots)
    → slots.used ≤ slots.max
    → All (λ t. AreBytes t.1) turns
    → GivesBack lib ctx aborted slots
        (run_peer_session lib ctx w supported completed turns aborted slots)
unfolding run_peer_session
run_peer_session-GivesBack lib ctx w supported completed turns true slots le bytes =
    aborted-GivesBack lib ctx w.now slots _
      (lived-Kept lib ctx w supported completed turns slots le bytes)
run_peer_session-GivesBack lib ctx w supported completed turns false slots le bytes =
    ended-GivesBack lib ctx w.now slots _
      (lived-Kept lib ctx w supported completed turns slots le bytes)
