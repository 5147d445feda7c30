-- ===== src/Session/Jobs.antt =====
-- Every piece that a session reserves is its job until it is settled, and a piece that it hands over
-- has the expected hash.
use tortor.Prelude.{
  ℕ, zero, suc, ◌+◌, ◌≡◌, refl, sym, ap, ◌∙◌, inl, inr, Bool, true, false, not, if◌then◌else◌, ◌||◌,
  Option, none, some, List, [], ◌∷◌, ltb, ◌==◌, Bool-cases, Option-cases, length, All, get_elem?,
  arith, list_eq, list_eq→≡,
}
use mathlib.Core.Path.{subst}
use tortor.Bitfield
use tortor.Assembler.{
  PieceAssembler, AssemblerState, in_progress, complete, error, BlockClass, expected_new, duplicate,
  unexpected, in_flight_count, next_request, add_block,
}
use tortor.Wire
use tortor.Coordinator.{request_work, piece_failed, piece_downloaded}
use tortor.Swarm.{peer_progress}
use tortor.Session.{
  UploadSlots, PeerContext, Libraries, Job, PeerSession, Answers, tell, given, downloaded, notify,
  turn, fails, hash_mismatch, coordinator_gone, goes_on, pipeline_depth, request_retry_timeout,
  piece_len_at,
}
use tortor.Session.Work.{
  has_job, assigned, replied, maybe_request_work, Filled, fill_loop, on_request, ask, fill_pipeline,
  check_piece, added, classify, on_class, handle_piece,
}
use tortor.Session.Ledger.{one_if, holds_job, JobOk, IsValid, IsReady, Kept}
use tortor.Session.Keeps.{Quiet, quiet, sent-Quiet, total-Quiet, idle-Kept, job-Kept}

downloaded-Quiet : {lib : Libraries} {ctx : PeerContext} (n : ℕ) → Quiet lib ctx (downloaded n)
downloaded-Quiet n = quiet (λ i. refl) (λ i. refl) (λ p. refl) (λ p. refl) tt

no_job : (s : PeerSession) → has_job s ≡ false → s.job ≡ none
no_job s e = elim (Option-cases s.job) [
  | inl h ↦ h
  | inr (j, h) ↦
      let has_one : has_job s ≡ true =
        ap (λ (o : Option Job). elim o as (λ _. Bool) [ none ↦ false | some j ↦ true ]) h in
      absurd (cc (has_one, e))
]

||-false : (a b : Bool) → (a || b) ≡ false → a ≡ false
||-false a b e = ground (arith, e)

pub holds_job-some :
    (p : ℕ) (s : PeerSession) (j : Job) → s.job ≡ some j → holds_job p s ≡ one_if (p == j.index)
holds_job-some p s j h =
    ap (λ (o : Option Job). elim o as (λ _. ℕ) [ none ↦ 0 | some j ↦ one_if (p == j.index) ]) h

module _ (lib : Libraries) (ctx : PeerContext) (w : Answers) where
  assigned-Kept :
      (index : ℕ) (hash : Option (List ℕ)) (len : Option ℕ) (s : PeerSession) (slots : UploadSlots)
      → IsValid ctx s slots
      → IsReady s
      → s.job ≡ none
      → get_elem? ctx.expected_hashes index ≡ hash
      → Kept lib ctx s slots
          (assigned w index hash len s slots (tell (request_work s.have_pieces) ∷ given index ∷ []))
  unfolding assigned
  assigned-Kept index (some hash) (some len) s slots v r idle e =
      job-Kept _ v r refl refl refl refl e (λ i. refl) (λ p. ground (arith, idle)) (tt, (tt, tt))
  assigned-Kept index none len s slots v r idle e =
      job-Kept _ v r refl refl refl refl v.job_ok (λ i. refl) (λ p. ground (arith, idle))
        (tt, (tt, (tt, tt)))
  assigned-Kept index (some hash) none s slots v r idle e =
      job-Kept _ v r refl refl refl refl v.job_ok (λ i. refl) (λ p. ground (arith, idle))
        (tt, (tt, (tt, tt)))

  replied-Kept :
      (reply : Option ℕ) (s : PeerSession) (slots : UploadSlots)
      → IsValid ctx s slots
      → IsReady s
      → s.job ≡ none
      → Kept lib ctx s slots (replied ctx w reply s slots)
  unfolding replied
  replied-Kept none s slots v r idle =
      idle-Kept _ v r refl refl refl refl refl
        (quiet (λ i. refl) (λ i. refl) (λ p. refl) (λ p. refl) tt, tt)
  replied-Kept (some index) s slots v r idle =
      assigned-Kept index (get_elem? ctx.expected_hashes index) (piece_len_at ctx index) s slots v r
        idle refl

  pub maybe_request_work-Kept :
      (s : PeerSession) (slots : UploadSlots)
      → IsValid ctx s slots
      → IsReady s
      → Kept lib ctx s slots (maybe_request_work ctx w s slots)
  unfolding maybe_request_work
  maybe_request_work-Kept s slots v r =
      elim (Bool-cases (
        has_job s
        || (s.peer_choking || (Bitfield.count s.have_pieces == 0 || ltb w.now s.next_work_poll)))) [
          | inl busy ↦ rw busy (idle-Kept (turn [] s slots goes_on) v r refl refl refl refl refl tt)
          | inr free ↦ rw free (elim (Bool-cases w.coordinator_there) [
            | inr gone ↦ rw gone (
                idle-Kept _ v r refl refl refl refl refl
                  (quiet (λ i. refl) (λ i. refl) (λ p. refl) (λ p. refl) tt, tt))
            | inl there ↦ rw there (replied-Kept w.work s slots v r (no_job s (||-false _ _ free)))
          ])
        ]

  on_request-Quiet :
      (index : ℕ) (sent : Bool) (r : Option (ℕ × ℕ × Bool) × PieceAssembler)
      (next : PieceAssembler → Filled)
      → ((a : PieceAssembler) → All (Quiet lib ctx) (next a).requests)
      → All (Quiet lib ctx) (on_request index sent r next).requests
  unfolding on_request ask
  on_request-Quiet index sent (none, a) next q = tt
  on_request-Quiet index true (some (begin, len, retry), a) next q =
      (sent-Quiet (Wire.request index begin len), q a)
  on_request-Quiet index false (some (begin, len, retry), a) next q =
      (sent-Quiet (Wire.request index begin len), tt)

  fill_loop-Quiet :
      (fuel k index : ℕ) (a : PieceAssembler)
      → All (Quiet lib ctx) (fill_loop fuel k w index a).requests
  unfolding fill_loop
  fill_loop-Quiet zero k index a = tt
  fill_loop-Quiet (suc fuel) k index a =
      elim (Bool-cases (ltb (in_flight_count a w.now request_retry_timeout) pipeline_depth)) [
        | inl more ↦ rw more (
            on_request-Quiet index (w.request_sent k) (next_request a w.now request_retry_timeout)
              (fill_loop fuel (k + 1) w index) (fill_loop-Quiet fuel (k + 1) index))
        | inr full ↦ rw full tt
      ]

  pub fill_pipeline-Kept :
      (s : PeerSession) (slots : UploadSlots)
      → IsValid ctx s slots
      → IsReady s
      → Kept lib ctx s slots (fill_pipeline w s slots)
  unfolding fill_pipeline
  fill_pipeline-Kept s slots v r = elim (Bool-cases s.peer_choking) [
    | inl choked ↦ simp choked (idle-Kept (turn [] s slots goes_on) v r refl refl refl refl refl tt)
    | inr unchoked ↦ elim (Option-cases s.job) [
      | inl h ↦
          simp (unchoked, h) (idle-Kept (turn [] s slots goes_on) v r refl refl refl refl refl tt)
      | inr (j, h) ↦
          let q =
            total-Quiet lib ctx (fill_loop pipeline_depth 0 w j.index j.assembler).requests
              (fill_loop-Quiet pipeline_depth 0 j.index j.assembler) in
          let job_ok : get_elem? ctx.expected_hashes j.index ≡ some j.expected_hash =
            subst (JobOk ctx) h v.job_ok in
          simp (unchoked, h)
            (job-Kept _ v r refl refl refl refl job_ok q.1
              (λ p. let before = holds_job-some p s j h in omega (arith, q.2 p, q.3 p, before)) q.4)
    ]
  ]

  -- The hash of the piece is known.
  hashed-Kept :
      (j : Job) (a : PieceAssembler) (buffer : List ℕ) (n : ℕ) (s : PeerSession)
      (slots : UploadSlots)
      → IsValid ctx s slots
      → IsReady s
      → s.job ≡ some j
      → Kept lib ctx s slots (
          if not (list_eq (lib.hash_piece buffer) j.expected_hash)
          then turn
              (downloaded n
                ∷ notify (peer_progress ctx.peer_addr n)
                ∷ tell (piece_failed j.index)
                ∷ [])
              (record s { last_useful = w.now; job = none })
              slots
              (fails hash_mismatch)
          else turn
              (downloaded n
                ∷ notify (peer_progress ctx.peer_addr n)
                ∷ tell (piece_downloaded j.index buffer)
                ∷ [])
              (record s { last_useful = w.now; job = none })
              slots
              (if w.coordinator_there then goes_on else fails coordinator_gone))
  hashed-Kept j a buffer n s slots v r h =
      elim (Bool-cases (list_eq (lib.hash_piece buffer) j.expected_hash)) [
        | inr other ↦ rw other (
            job-Kept _ v r refl refl refl refl tt (λ i. refl)
              (λ p. omega (arith, holds_job-some p s j h)) (tt, (tt, (tt, tt))))
        | inl same ↦
            let known : get_elem? ctx.expected_hashes j.index ≡ some j.expected_hash =
              subst (JobOk ctx) h v.job_ok in
            let e : lib.hash_piece buffer ≡ j.expected_hash =
              list_eq→≡ (lib.hash_piece buffer) j.expected_hash same in
            rw same (
              job-Kept _ v r refl refl refl refl tt (λ i. refl)
                (λ p. omega (arith, holds_job-some p s j h))
                (tt, (tt, (known ∙ ap some (sym e), tt))))
      ]

  -- The job with its new assembler, in the state that `handle_piece` leaves.
  added-Kept :
      (j : Job) (a : PieceAssembler) (r : AssemblerState) (n : ℕ) (s : PeerSession)
      (slots : UploadSlots)
      → IsValid ctx s slots
      → IsReady s
      → s.job ≡ some j
      → Kept lib ctx s slots (
          added lib ctx w n r
            (record j { assembler = a; last_block = w.now })
            (record s { last_useful = w.now })
            slots)
  unfolding added check_piece
  added-Kept j a in_progress n s slots v r h =
      job-Kept _ v r refl refl refl refl (subst (JobOk ctx) h v.job_ok) (λ i. refl)
        (λ p. omega (arith, holds_job-some p s j h)) (tt, (tt, tt))
  added-Kept j a (error e) n s slots v r h =
      job-Kept _ v r refl refl refl refl (subst (JobOk ctx) h v.job_ok) (λ i. refl)
        (λ p. omega (arith, holds_job-some p s j h)) (tt, tt)
  added-Kept j a (complete buffer) n s slots v r h = elim (Bool-cases w.hashed) [
    | inr failed ↦ simp failed (
        job-Kept _ v r refl refl refl refl tt (λ i. refl)
          (λ p. omega (arith, holds_job-some p s j h)) (tt, (tt, (tt, tt))))
    | inl done ↦ simp done (hashed-Kept j a buffer n s slots v r h)
  ]

  on_class-Kept :
      (begin : ℕ) (block : List ℕ) (c : BlockClass) (o : Option Job) (s : PeerSession)
      (slots : UploadSlots)
      → IsValid ctx s slots
      → IsReady s
      → s.job ≡ o
      → Kept lib ctx s slots (on_class lib ctx w begin block c o s slots)
  unfolding on_class
  on_class-Kept begin block duplicate o s slots v r h =
      idle-Kept _ v r refl refl refl refl refl (downloaded-Quiet (length block), tt)
  on_class-Kept begin block unexpected o s slots v r h =
      idle-Kept _ v r refl refl refl refl refl (downloaded-Quiet (length block), tt)
  on_class-Kept begin block expected_new none s slots v r h =
      idle-Kept _ v r refl refl refl refl refl (downloaded-Quiet (length block), tt)
  on_class-Kept begin block expected_new (some j) s slots v r h =
      added-Kept j (add_block j.assembler begin block).1 (add_block j.assembler begin block).0
        (length block) s slots v r h

  pub handle_piece-Kept :
      (index begin : ℕ) (block : List ℕ) (s : PeerSession) (slots : UploadSlots)
      → IsValid ctx s slots
      → IsReady s
      → Kept lib ctx s slots (handle_piece lib ctx w index begin block s slots)
  unfolding handle_piece
  handle_piece-Kept index begin block s slots v r =
      on_class-Kept begin block (classify s.job index begin block) s.job s slots v r refl
