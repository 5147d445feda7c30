-- ===== src/Session/Work.antt =====
-- How a session gets a piece to download, asks for its blocks, and takes them.
use tortor.Prelude.{
  ℕ, zero, suc, ◌+◌, ◌%◌, Bool, true, false, not, ◌||◌, Option, none, some, List, [], ◌∷◌, ◌++◌,
  if◌then◌else◌, ltb, ◌==◌, length, get_elem?, list_eq,
}
use tortor.Prelude.Words.{u32_mod}
use tortor.Bitfield
use tortor.Assembler
use tortor.Assembler.{
  PieceAssembler, AssemblerState, in_progress, complete, error, BlockClass, expected_new, duplicate,
  unexpected, in_flight_count, next_request, classify_block, add_block,
}
use tortor.Wire
use tortor.Coordinator.{request_work, piece_failed, piece_downloaded}
use tortor.Swarm.{peer_progress}
use tortor.Session.{
  UploadSlots, PeerContext, Libraries, Job, PeerSession, Answers, Effect, send, tell, notify, given,
  downloaded, unhashed, hashing_failed, Turn, turn, goes_on, fails, coordinator_gone, invalid_piece,
  assembler_error, hash_mismatch, written, piece_len_at, pipeline_depth, request_retry_timeout,
  work_poll_interval,
}

abbrev pub has_job : PeerSession → Bool
has_job s = elim s.job [ none ↦ false | some j ↦ true ]

-- The coordinator reserved a piece: it becomes the job, or is given back if there is no such piece.
unfoldable pub assigned :
    Answers → ℕ → Option (List ℕ) → Option ℕ → PeerSession → UploadSlots → List Effect → Turn
assigned w index (some hash) (some len) s slots asked =
    turn asked
      (record s {
        job = some (record {
          index = index;
          expected_hash = hash;
          assembler = Assembler.new index len;
          last_block = w.now;
        });
      })
      slots goes_on
assigned w index none len s slots asked =
    turn (asked ++ (tell (piece_failed index) ∷ [])) s slots (fails invalid_piece)
assigned w index (some hash) none s slots asked =
    turn (asked ++ (tell (piece_failed index) ∷ [])) s slots (fails invalid_piece)

unfoldable pub replied : PeerContext → Answers → Option ℕ → PeerSession → UploadSlots → Turn
unfolding assigned
replied ctx w none s slots =
    turn (tell (request_work s.have_pieces) ∷ [])
      (record s { next_work_poll = w.now + work_poll_interval }) slots goes_on
replied ctx w (some index) s slots =
    assigned w index (get_elem? ctx.expected_hashes index) (piece_len_at ctx index) s slots
      (tell (request_work s.have_pieces) ∷ given index ∷ [])

unfoldable pub maybe_request_work : PeerContext → Answers → PeerSession → UploadSlots → Turn
unfolding replied
maybe_request_work ctx w s slots =
    if has_job s
      || (s.peer_choking || (Bitfield.count s.have_pieces == 0 || ltb w.now s.next_work_poll))
    then turn [] s slots goes_on
    else if not w.coordinator_there
    then turn (tell (request_work s.have_pieces) ∷ []) s slots (fails coordinator_gone)
    else replied ctx w w.work s slots

-- What the loop of `fill_pipeline` leaves: the requests, the assembler, and whether the last write
-- succeeded.
pub record Filled : Type 0 where
  pub requests : List Effect
  pub assembler : PieceAssembler
  pub all_sent : Bool

abbrev pub filled : List Effect → PieceAssembler → Bool → Filled
filled es a b = record { requests = es; assembler = a; all_sent = b }

abbrev pub after_request : Effect → Filled → Filled
after_request e f = record f { requests = e ∷ f.requests }

-- A request that was due is written.
unfoldable pub ask : ℕ → Bool → (ℕ × ℕ × Bool) → PieceAssembler → (PieceAssembler → Filled) → Filled
ask index true (begin, len, is_retry) a next =
    after_request (send (Wire.request index begin len)) (next a)
ask index false (begin, len, is_retry) a next =
    filled (send (Wire.request index begin len) ∷ []) a false

unfoldable pub on_request :
    ℕ → Bool → Option (ℕ × ℕ × Bool) × PieceAssembler → (PieceAssembler → Filled) → Filled
unfolding ask
on_request index sent (none, a) next = filled [] a true
on_request index sent (some r, a) next = ask index sent r a next

-- The `k`-th round of the loop. A request goes into the pipeline, so 16 rounds are enough.
unfoldable pub fill_loop : ℕ → ℕ → Answers → ℕ → PieceAssembler → Filled
unfolding on_request
fill_loop zero k w index a = filled [] a true
fill_loop (suc fuel) k w index a =
    let next : PieceAssembler → Filled = fill_loop fuel (k + 1) w index in
    if ltb (in_flight_count a w.now request_retry_timeout) pipeline_depth
    then on_request index (w.request_sent k) (next_request a w.now request_retry_timeout) next
    else filled [] a true

unfoldable pub fill_pipeline : Answers → PeerSession → UploadSlots → Turn
unfolding fill_loop
fill_pipeline w s slots = if s.peer_choking then turn [] s slots goes_on else elim s.job [
  | none ↦ turn [] s slots goes_on
  | some j ↦
      let f = fill_loop pipeline_depth 0 w j.index j.assembler in
      turn f.requests (record s { job = some (record j { assembler = f.assembler }) }) slots
        (written f.all_sent)
]

-- A piece is complete, and the session has no job any more. If the task that hashes it fails, the
-- piece is neither given back nor handed over.
unfoldable pub check_piece :
    Libraries → Answers → Job → List ℕ → PeerSession → UploadSlots → List Effect → Turn
check_piece lib w j buffer s slots es =
    if not w.hashed
    then turn (es ++ (unhashed j.index ∷ [])) s slots (fails hashing_failed)
    else if not (list_eq (lib.hash_piece buffer) j.expected_hash)
    then turn (es ++ (tell (piece_failed j.index) ∷ [])) s slots (fails hash_mismatch)
    else turn (es ++ (tell (piece_downloaded j.index buffer) ∷ [])) s slots
        (if w.coordinator_there then goes_on else fails coordinator_gone)

-- After `add_block`, with the job that has the new assembler.
unfoldable pub added :
    Libraries → PeerContext → Answers → ℕ → AssemblerState → Job → PeerSession → UploadSlots → Turn
unfolding check_piece
added lib ctx w n in_progress j s slots =
    turn (downloaded n ∷ notify (peer_progress ctx.peer_addr n) ∷ []) (record s { job = some j })
      slots goes_on
added lib ctx w n (error e) j s slots =
    turn (downloaded n ∷ []) (record s { job = some j }) slots (fails assembler_error)
added lib ctx w n (complete buffer) j s slots =
    check_piece lib w j buffer (record s { job = none }) slots
      (downloaded n ∷ notify (peer_progress ctx.peer_addr n) ∷ [])

unfoldable pub classify : Option Job → ℕ → ℕ → List ℕ → BlockClass
classify none index begin block = unexpected
classify (some j) index begin block =
    if j.index == index
    then classify_block j.assembler begin (length block % u32_mod)
    else unexpected

unfoldable pub on_class :
    Libraries
    → PeerContext
    → Answers
    → ℕ
    → List ℕ
    → BlockClass
    → Option Job
    → PeerSession
    → UploadSlots
    → Turn
unfolding added
on_class lib ctx w begin block duplicate j s slots =
    turn (downloaded (length block) ∷ []) s slots goes_on
on_class lib ctx w begin block unexpected j s slots =
    turn (downloaded (length block) ∷ []) s slots goes_on
on_class lib ctx w begin block expected_new none s slots =
    turn (downloaded (length block) ∷ []) s slots goes_on
on_class lib ctx w begin block expected_new (some j) s slots =
    let r = add_block j.assembler begin block in
    added lib ctx w (length block) r.0 (record j { assembler = r.1; last_block = w.now })
      (record s { last_useful = w.now }) slots

unfoldable pub handle_piece :
    Libraries → PeerContext → Answers → ℕ → ℕ → List ℕ → PeerSession → UploadSlots → Turn
unfolding classify on_class
handle_piece lib ctx w index begin block s slots =
    on_class lib ctx w begin block (classify s.job index begin block) s.job s slots
