-- ===== src/Session/Loop.antt =====
-- The periodic checks of a session, the turns of its loop, and its life from start to end.
use tortor.Prelude.{
  ℕ, zero, suc, ◌-◌, Bool, not, ◌&&◌, ◌||◌, Option, none, some, List, [], ◌∷◌, ◌++◌, if◌then◌else◌,
  ltb, leb, length,
}
use tortor.Bitfield
use tortor.Wire
use tortor.Coordinator.{piece_failed, peer_gone, get_completed_pieces}
use tortor.Swarm.{peer_progress}
use tortor.Session.{
  UploadSlots, PeerContext, Libraries, Job, PeerSession, Input, announced, missed, received,
  read_failed, tick, shutdown, Answers, Effect, send, tell, notify, Turn, turn, goes_on, ends,
  fails, coordinator_gone, connection_failed, peer_silent, peer_stalled, written, prepend,
  then_turn, new_session, peer_silence_timeout, choked_job_timeout, block_stall_timeout,
  keepalive_interval, useless_timeout,
}
use tortor.Session.Slots.{try_unchoke, release_upload_slot}
use tortor.Session.Work.{has_job, maybe_request_work, fill_pipeline}
use tortor.Session.Messages.{handle_event, handle_message}

-- A job without blocks for too long: it is given back while the peer chokes us, and ends the
-- session otherwise.
unfoldable pub check_job : Answers → Option Job → PeerSession → UploadSlots → Turn
check_job w none s slots = turn [] s slots goes_on
check_job w (some j) s slots =
    let silent = w.now - j.last_block in
    if s.peer_choking && ltb choked_job_timeout silent
    then turn (tell (piece_failed j.index) ∷ []) (record s { job = none }) slots goes_on
    else if not s.peer_choking && ltb block_stall_timeout silent
    then turn [] s slots (fails peer_stalled)
    else turn [] s slots goes_on

unfoldable pub unchoke_waiting : Answers → PeerSession → UploadSlots → Turn
unfolding try_unchoke
unchoke_waiting w s slots =
    if s.peer_interested && s.am_choking then try_unchoke w s slots else turn [] s slots goes_on

unfoldable pub keep_alive : Answers → PeerSession → UploadSlots → Turn
keep_alive w s slots =
    if leb keepalive_interval (w.now - s.last_keepalive)
    then turn (send Wire.keep_alive ∷ [])
        (if w.keepalive_sent then record s { last_keepalive = w.now } else s) slots
        (written w.keepalive_sent)
    else turn [] s slots goes_on

abbrev pub is_idle : Answers → PeerSession → Bool
is_idle w s =
    not (has_job s)
    && (ltb useless_timeout (w.now - s.last_useful) && (not s.peer_interested || s.am_choking))

unfoldable pub end_if_idle : Answers → PeerSession → UploadSlots → Turn
end_if_idle w s slots = turn [] s slots (if is_idle w s then ends else goes_on)

unfoldable pub housekeeping : PeerContext → Answers → PeerSession → UploadSlots → Turn
unfolding check_job unchoke_waiting keep_alive end_if_idle then_turn
housekeeping ctx w s slots =
    if ltb peer_silence_timeout (w.now - s.last_recv)
    then turn [] s slots (fails peer_silent)
    else then_turn
        (prepend (notify (peer_progress ctx.peer_addr 0) ∷ []) (check_job w s.job s slots))
        (λ s slots.
          then_turn (unchoke_waiting w s slots)
            (λ s slots. then_turn (keep_alive w s slots) (λ s slots. end_if_idle w s slots)))

-- The arms of `tokio::select!`.
unfoldable pub on_input :
    Libraries → PeerContext → Answers → Input → PeerSession → UploadSlots → Turn
unfolding handle_event handle_message housekeeping
on_input lib ctx w shutdown s slots = turn [] s slots ends
on_input lib ctx w (announced event) s slots = handle_event lib ctx w event s slots
on_input lib ctx w missed s slots = turn [] s slots goes_on
on_input lib ctx w read_failed s slots = turn [] s slots (fails connection_failed)
on_input lib ctx w (received msg) s slots =
    handle_message lib ctx w msg (record s { last_recv = w.now }) slots
on_input lib ctx w tick s slots = housekeeping ctx w s slots

-- One turn of the loop.
unfoldable pub step : Libraries → PeerContext → Answers → Input → PeerSession → UploadSlots → Turn
unfolding maybe_request_work fill_pipeline on_input then_turn
step lib ctx w input s slots =
    then_turn (maybe_request_work ctx w s slots)
      (λ s slots. then_turn (fill_pipeline w s slots) (λ s slots. on_input lib ctx w input s slots))

-- The loop over the turns that happen; behind them the session ends.
unfoldable pub run :
    Libraries → PeerContext → List (Answers × Input) → PeerSession → UploadSlots → Turn
unfolding step then_turn
run lib ctx [] s slots = turn [] s slots ends
run lib ctx ((w, input) ∷ rest) s slots =
    let after : PeerSession → UploadSlots → Turn = run lib ctx rest in
    then_turn (step lib ctx w input s slots) after

unfoldable pub send_completed :
    PeerContext → Answers → Option (List ℕ) → PeerSession → UploadSlots → Turn
send_completed ctx w none s slots = turn [] s slots goes_on
send_completed ctx w (some []) s slots = turn [] s slots goes_on
send_completed ctx w (some (p ∷ ps)) s slots =
    turn
      (send (Wire.bitfield (Bitfield.from_indices (length ctx.expected_hashes) (p ∷ ps)).bytes)
        ∷ [])
      s slots (written w.sent)

unfoldable pub send_interested : Answers → PeerSession → UploadSlots → Turn
send_interested w s slots =
    turn (send Wire.interested ∷ []) (record s { am_interested = w.sent }) slots (written w.sent)

abbrev pub offer_extensions : Libraries → Bool → List Effect
offer_extensions lib supported =
    if supported
    then (elim lib.extended_handshake [
      | none ↦ []
      | some payload ↦ send (Wire.extended 0 payload) ∷ []
    ])
    else []

unfoldable pub send_opening_messages :
    Libraries → PeerContext → Answers → Bool → Option (List ℕ) → PeerSession → UploadSlots → Turn
unfolding then_turn send_completed send_interested
send_opening_messages lib ctx w supported completed s slots =
    let hello = offer_extensions lib supported ++ (tell get_completed_pieces ∷ []) in
    if w.coordinator_there
    then prepend hello
        (then_turn (send_completed ctx w completed s slots) (λ s slots. send_interested w s slots))
    else turn hello s slots (fails coordinator_gone)

-- What the end of a session gives back, whatever way it ended.
unfoldable pub finish : PeerSession → UploadSlots → List Effect × (PeerSession × UploadSlots)
unfolding release_upload_slot
finish s slots = (
  (elim s.job [ none ↦ [] | some j ↦ tell (piece_failed j.index) ∷ [] ])
      ++ (if ltb 0 (Bitfield.count s.have_pieces) then tell (peer_gone s.have_pieces) ∷ [] else []),
  release_upload_slot
      (record s {
        job = none;
        have_pieces =
            (if ltb 0 (Bitfield.count s.have_pieces)
              then Bitfield.new s.have_pieces.len
              else s.have_pieces);
      })
      slots,
)

-- The whole life of a session: its trace, and what it leaves. An `aborted` one is dropped where its
-- turns stop (`handle.abort()` of src/net/swarm.rs), and what follows the loop does not run. Where
-- it is dropped while it waits for a write, for the coordinator or for the hash of a piece, its last
-- turn is the one in which that fails.
unfoldable pub run_peer_session :
    Libraries
    → PeerContext
    → Answers
    → Bool
    → Option (List ℕ)
    → List (Answers × Input)
    → Bool
    → UploadSlots
    → List Effect × (PeerSession × UploadSlots)
unfolding new_session send_opening_messages run finish then_turn
run_peer_session lib ctx w supported completed turns aborted slots =
    let t =
      then_turn (send_opening_messages lib ctx w supported completed (new_session ctx w.now) slots)
        (run lib ctx turns) in
    let last = finish t.session t.slots in
    if aborted then (t.effects, (t.session, t.slots)) else (t.effects ++ last.0, last.1)

-- The sessions of a torrent, which share its upload slots, and what happens to them: one starts, the
-- `n`-th takes a turn, or the `n`-th is aborted, between its turns or within one. One that is aborted
-- while it starts has no slot yet, and is one that starts and is aborted before its first turn.
pub record Sessions : Type 0 where
  pub slots : UploadSlots
  pub members : List (PeerContext × PeerSession)

pub data Happening : Type 0 where
  joins : PeerContext → Answers → Bool → Option (List ℕ) → Happening
  takes_turn : ℕ → Answers → Input → Happening
  is_aborted : ℕ → Option (Answers × Input) → Happening

-- A session that goes on stays, another one finishes and is gone.
unfoldable pub settle : PeerContext → Turn → List (PeerContext × PeerSession) → Sessions
unfolding finish
settle ctx t ms = elim t.status [
  | goes_on ↦ record { slots = t.slots; members = (ctx, t.session) ∷ ms }
  | ends ↦ record { slots = (finish t.session t.slots).1.1; members = ms }
  | fails e ↦ record { slots = (finish t.session t.slots).1.1; members = ms }
]

abbrev pub with_member : PeerContext × PeerSession → Sessions → Sessions
with_member m r = record r { members = m ∷ r.members }

unfoldable pub turn_at :
    Libraries → Answers → Input → ℕ → List (PeerContext × PeerSession) → UploadSlots → Sessions
unfolding step settle
turn_at lib w i n [] slots = record { slots = slots; members = [] }
turn_at lib w i zero ((ctx, s) ∷ ms) slots = settle ctx (step lib ctx w i s slots) ms
turn_at lib w i (suc n) (m ∷ ms) slots = with_member m (turn_at lib w i n ms slots)

-- The turn in which a session is aborted, if it is in one.
unfoldable pub last_turn :
    Libraries → PeerContext → Option (Answers × Input) → PeerSession → UploadSlots → Turn
unfolding step
last_turn lib ctx none s slots = turn [] s slots goes_on
last_turn lib ctx (some (w, i)) s slots = step lib ctx w i s slots

-- An aborted session is gone, and gives back nothing.
unfoldable pub abort_at :
    Libraries
    → Option (Answers × Input)
    → ℕ
    → List (PeerContext × PeerSession)
    → UploadSlots
    → Sessions
unfolding last_turn
abort_at lib o n [] slots = record { slots = slots; members = [] }
abort_at lib o zero ((ctx, s) ∷ ms) slots = record {
  slots = (last_turn lib ctx o s slots).slots;
  members = ms;
}
abort_at lib o (suc n) (m ∷ ms) slots = with_member m (abort_at lib o n ms slots)

unfoldable pub happen : Libraries → Happening → Sessions → Sessions
unfolding new_session send_opening_messages settle turn_at abort_at
happen lib (joins ctx w supported completed) all =
    settle ctx
      (send_opening_messages lib ctx w supported completed (new_session ctx w.now) all.slots)
      all.members
happen lib (takes_turn n w i) all = turn_at lib w i n all.members all.slots
happen lib (is_aborted n o) all = abort_at lib o n all.members all.slots

unfoldable pub happenings : Libraries → List Happening → Sessions → Sessions
unfolding happen
happenings lib [] all = all
happenings lib (h ∷ hs) all = happenings lib hs (happen lib h all)
