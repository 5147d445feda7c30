-- ===== src/Session/Sound.antt =====
-- The assembler of a session's job stays well formed when work is taken and asked for.
use tortor.Prelude.{
  ℕ, zero, suc, ◌+◌, ◌<◌, ◌≡◌, refl, sym, inl, inr, Bool, true, false, Option, none, some, List, [],
  ◌∷◌, Bool-cases, arith, ◌⊎◌, ltb, get_elem?, Option-cases,
}
use mathlib.Core.Path.{subst}
use tortor.Prelude.Words.{u32_mod}
use tortor.Assembler.{PieceAssembler, next_request, in_flight_count}
use tortor.Assembler.Tiling as Pieces
use tortor.Assembler.Tiling.{new-IsValid}
use tortor.Assembler.Requests.{next_request-IsValid}
use tortor.Coordinator.{request_work}
use tortor.Session.{
  UploadSlots, PeerContext, Job, PeerSession, Answers, Effect, tell, given, Turn, then_turn,
  piece_len_at, pipeline_depth, request_retry_timeout,
}
use tortor.Session.Cause.{JobSound}
use tortor.Session.Work.{
  assigned, replied, maybe_request_work, Filled, ask, on_request, fill_loop, fill_pipeline,
}

-- A turn leaves the job of one of two states.
pub leaves : {o p q : Option Job} → (o ≡ p) ⊎ (o ≡ q) → JobSound p → JobSound q → JobSound o
leaves (inl e) v w = subst JobSound (sym e) v
leaves (inr e) v w = subst JobSound (sym e) w

then_turn-JobSound :
    (t : Turn) (next : PeerSession → UploadSlots → Turn)
    → JobSound t.session.job
    → ((s : PeerSession) (slots : UploadSlots)
        → JobSound s.job
        → JobSound (next s slots).session.job)
    → JobSound (then_turn t next).session.job
unfolding then_turn
then_turn-JobSound t next v rest =
    let either : ((then_turn t next).session.job ≡ t.session.job)
        ⊎ ((then_turn t next).session.job ≡ (next t.session t.slots).session.job) =
      ground arith in
    leaves either v (rest t.session t.slots v)

piece_len_at-word :
    (ctx : PeerContext) (index len : ℕ)
    → ctx.piece_length < u32_mod
    → piece_len_at ctx index ≡ some len
    → len < u32_mod
unfolding piece_len_at
piece_len_at-word ctx index len word e = ground (arith, e, word)

-- The length of a piece is a 32-bit number.
module _ (ctx : PeerContext) (word : ctx.piece_length < u32_mod) (w : Answers) where
  assigned-JobSound :
      (index : ℕ) (hash : Option (List ℕ)) (len : Option ℕ) (s : PeerSession) (slots : UploadSlots)
      (es : List Effect)
      → JobSound s.job
      → piece_len_at ctx index ≡ len
      → JobSound (assigned w index hash len s slots es).session.job
  unfolding assigned
  assigned-JobSound index (some hash) (some len) s slots es v e =
      new-IsValid index len (piece_len_at-word ctx index len word e)
  assigned-JobSound index none len s slots es v e = v
  assigned-JobSound index (some hash) none s slots es v e = v

  replied-JobSound :
      (reply : Option ℕ) (s : PeerSession) (slots : UploadSlots)
      → JobSound s.job
      → JobSound (replied ctx w reply s slots).session.job
  unfolding replied
  replied-JobSound none s slots v = v
  replied-JobSound (some index) s slots v =
      assigned-JobSound index (get_elem? ctx.expected_hashes index) (piece_len_at ctx index) s slots
        (tell (request_work s.have_pieces) ∷ given index ∷ []) v refl

  pub maybe_request_work-JobSound :
      (s : PeerSession) (slots : UploadSlots)
      → JobSound s.job
      → JobSound (maybe_request_work ctx w s slots).session.job
  unfolding maybe_request_work
  maybe_request_work-JobSound s slots v =
      let either : ((maybe_request_work ctx w s slots).session.job ≡ s.job)
          ⊎ ((maybe_request_work ctx w s slots).session.job
              ≡ (replied ctx w w.work s slots).session.job) =
        ground arith in
      leaves either v (replied-JobSound w.work s slots v)

  on_request_sound :
      (index : ℕ) (sent : Bool) (q : Option (ℕ × ℕ × Bool) × PieceAssembler)
      (next : PieceAssembler → Filled)
      → Pieces.IsValid q.1
      → Pieces.IsValid (next q.1).assembler
      → Pieces.IsValid (on_request index sent q next).assembler
  unfolding on_request ask
  on_request_sound index sent (none, a) next v rest = v
  on_request_sound index false (some r, a) next v rest = v
  on_request_sound index true (some r, a) next v rest = rest

  fill_loop_sound :
      (fuel k index : ℕ) (a : PieceAssembler)
      → Pieces.IsValid a
      → Pieces.IsValid (fill_loop fuel k w index a).assembler
  unfolding fill_loop
  fill_loop_sound zero k index a v = v
  fill_loop_sound (suc fuel) k index a v =
      let q = next_request a w.now request_retry_timeout in
      let asked =
        on_request_sound index (w.request_sent k) q (fill_loop fuel (k + 1) w index)
          (next_request-IsValid a w.now request_retry_timeout v)
          (fill_loop_sound fuel (k + 1) index q.1
            (next_request-IsValid a w.now request_retry_timeout v)) in
      elim (Bool-cases (ltb (in_flight_count a w.now request_retry_timeout) pipeline_depth)) [
        | inl room ↦ rw room asked
        | inr full ↦ rw full v
      ]

  pub fill_pipeline-JobSound :
      (s : PeerSession) (slots : UploadSlots)
      → JobSound s.job
      → JobSound (fill_pipeline w s slots).session.job
  unfolding fill_pipeline
  fill_pipeline-JobSound s slots v = elim (Bool-cases s.peer_choking) [
    | inl choked ↦ simp choked v
    | inr free ↦ elim (Option-cases s.job) [
      | inl idle ↦ simp (free, idle) tt
      | inr (j, busy) ↦
          simp (free, busy)
            (fill_loop_sound pipeline_depth 0 j.index j.assembler (subst JobSound busy v))
    ]
  ]
