-- ===== src/Session/Holds.antt =====
-- The assembler of a session's job stays well formed when a message comes.
use tortor.Prelude.{
  ℕ, ◌≡◌, refl, sym, true, false, Option, none, some, List, [], ◌∷◌, length, arith,
}
use mathlib.Core.Path.{subst}
use tortor.Prelude.Result.{Result, ok, err}
use tortor.Bitfield
use tortor.Bitfield.{Bitfield}
use tortor.Assembler.{
  AssemblerState, in_progress, complete, error, BlockClass, expected_new, duplicate, unexpected,
  add_block,
}
use tortor.Assembler.Tiling as Pieces
use tortor.Assembler.Tiling.{new-IsValid}
use tortor.Assembler.Keeps.{add_block-IsValid}
use tortor.Assembler.Requests.{reset_requests_lem}
use tortor.Bencode.{BencodeError}
use tortor.Bencode.Parse.{check_bencode_depth}
use tortor.Swarm.{peer_progress}
use tortor.Wire
use tortor.Wire.{PeerMessage}
use tortor.Session.{
  UploadSlots, PeerContext, Libraries, Job, PeerSession, Answers, Effect, downloaded, notify,
}
use tortor.Session.Cause.{JobSound}
use tortor.Session.Slots.{try_unchoke, choke}
use tortor.Session.Work.{on_class, added, check_piece, handle_piece, classify}
use tortor.Session.Messages.{
  answer, handle_request, on_have, on_bitfield, on_extended, handle_extended, reset_job,
  handle_message,
}

module _ (lib : Libraries) (ctx : PeerContext) (w : Answers) where
  check_piece-JobSound :
      (j : Job) (buffer : List ℕ) (s : PeerSession) (slots : UploadSlots) (es : List Effect)
      → JobSound s.job
      → JobSound (check_piece lib w j buffer s slots es).session.job
  unfolding check_piece
  check_piece-JobSound j buffer s slots es v =
      let same : (check_piece lib w j buffer s slots es).session.job ≡ s.job = ground arith in
      subst JobSound (sym same) v

  added-JobSound :
      (j : Job) (r : AssemblerState) (n : ℕ) (s : PeerSession) (slots : UploadSlots)
      → Pieces.IsValid j.assembler
      → JobSound (added lib ctx w n r j s slots).session.job
  unfolding added
  added-JobSound j in_progress n s slots v = v
  added-JobSound j (error e) n s slots v = v
  added-JobSound j (complete buffer) n s slots v =
      check_piece-JobSound j buffer (record s { job = none }) slots
        (downloaded n ∷ notify (peer_progress ctx.peer_addr n) ∷ []) tt

  on_class-JobSound :
      (begin : ℕ) (block : List ℕ) (c : BlockClass) (o : Option Job) (s : PeerSession)
      (slots : UploadSlots)
      → JobSound o
      → JobSound s.job
      → JobSound (on_class lib ctx w begin block c o s slots).session.job
  unfolding on_class
  on_class-JobSound begin block duplicate o s slots u v = v
  on_class-JobSound begin block unexpected o s slots u v = v
  on_class-JobSound begin block expected_new none s slots u v = v
  on_class-JobSound begin block expected_new (some j) s slots u v =
      added-JobSound
        (record j { assembler = (add_block j.assembler begin block).1; last_block = w.now })
        (add_block j.assembler begin block).0 (length block) (record s { last_useful = w.now })
        slots (add_block-IsValid j.assembler begin block u)

  handle_piece-JobSound :
      (index begin : ℕ) (block : List ℕ) (s : PeerSession) (slots : UploadSlots)
      → JobSound s.job
      → JobSound (handle_piece lib ctx w index begin block s slots).session.job
  unfolding handle_piece
  handle_piece-JobSound index begin block s slots v =
      on_class-JobSound begin block (classify s.job index begin block) s.job s slots v v

  reset_job-JobSound : (o : Option Job) → JobSound o → JobSound (reset_job o)
  reset_job-JobSound none v = tt
  reset_job-JobSound (some j) v = (reset_requests_lem j.assembler 0 0 v).1

  -- What does not touch the job.
  pub try_unchoke-job :
      (s : PeerSession) (slots : UploadSlots) → (try_unchoke w s slots).session.job ≡ s.job
  unfolding try_unchoke
  try_unchoke-job s slots = ground arith

  choke-job : (s : PeerSession) (slots : UploadSlots) → (choke w s slots).session.job ≡ s.job
  unfolding choke
  choke-job s slots = ground arith

  on_have-job :
      (index : ℕ) (s : PeerSession) (slots : UploadSlots)
      → (on_have w index s slots).session.job ≡ s.job
  unfolding on_have
  on_have-job index s slots = ground arith

  on_bitfield-job :
      (o : Option Bitfield) (s : PeerSession) (slots : UploadSlots)
      → (on_bitfield w o s slots).session.job ≡ s.job
  unfolding on_bitfield
  on_bitfield-job none s slots = refl
  on_bitfield-job (some f) s slots = refl

  on_extended-job :
      (id : ℕ) (payload : List ℕ) (r : Result BencodeError Unit) (s : PeerSession)
      (slots : UploadSlots)
      → (on_extended lib id payload r s slots).session.job ≡ s.job
  unfolding on_extended
  on_extended-job id payload (err e) s slots = refl
  on_extended-job id payload (ok u) s slots = ground arith

  answer-job :
      (index begin len : ℕ) (o : Option (List ℕ)) (s : PeerSession) (slots : UploadSlots)
      → (answer w index begin len o s slots).session.job ≡ s.job
  unfolding answer
  answer-job index begin len none s slots = refl
  answer-job index begin len (some block) s slots = ground arith

  handle_request-job :
      (index begin len : ℕ) (s : PeerSession) (slots : UploadSlots)
      → (handle_request ctx w index begin len s slots).session.job ≡ s.job
  unfolding handle_request
  handle_request-job index begin len s slots =
      let a = answer-job index begin len w.block s slots in ground (arith, a)

  pub handle_message-JobSound :
      (m : PeerMessage) (s : PeerSession) (slots : UploadSlots)
      → JobSound s.job
      → JobSound (handle_message lib ctx w m s slots).session.job
  unfolding handle_message
  handle_message-JobSound Wire.keep_alive s slots v = v
  handle_message-JobSound Wire.choke s slots v = reset_job-JobSound s.job v
  handle_message-JobSound Wire.unchoke s slots v = v
  handle_message-JobSound Wire.interested s slots v =
      subst JobSound (sym (try_unchoke-job (record s { peer_interested = true }) slots)) v
  handle_message-JobSound Wire.not_interested s slots v =
      subst JobSound (sym (choke-job (record s { peer_interested = false }) slots)) v
  handle_message-JobSound (Wire.have index) s slots v =
      subst JobSound (sym (on_have-job index s slots)) v
  handle_message-JobSound (Wire.bitfield payload) s slots v =
      subst JobSound (sym (on_bitfield-job (Bitfield.from_wire s.have_pieces.len payload) s slots))
        v
  handle_message-JobSound (Wire.extended id payload) s slots v =
      unfold handle_extended in
      subst JobSound (sym (on_extended-job id payload (check_bencode_depth payload) s slots)) v
  handle_message-JobSound (Wire.request index begin len) s slots v =
      subst JobSound (sym (handle_request-job index begin len s slots)) v
  handle_message-JobSound (Wire.piece index begin block) s slots v =
      handle_piece-JobSound index begin block s slots v
