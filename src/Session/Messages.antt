-- ===== src/Session/Messages.antt =====
-- What a session does with an announcement of its torrent and with a message of its peer.
use tortor.Prelude.{
  ℕ, ◌+◌, Bool, true, false, not, ◌&&◌, Option, none, some, List, [], ◌∷◌, ◌++◌, if◌then◌else◌, ltb,
  leb, ◌==◌, length, filterb, take,
}
use tortor.Prelude.Result.{Result, ok, err}
use tortor.Bitfield
use tortor.Bitfield.{Bitfield}
use tortor.Assembler.{reset_requests}
use tortor.Bencode.{BencodeError}
use tortor.Bencode.Parse.{check_bencode_depth}
use tortor.Pex.{SocketAddr, PexMessage, from_peers, decode_added}
use tortor.Wire
use tortor.Wire.{PeerMessage}
use tortor.Coordinator.{peer_bitfield, peer_have, peer_gone, read_piece, max_block_request}
use tortor.Swarm.{has_addr, same_addr, pex_peers_received}
use tortor.Session.{
  UploadSlots, PeerContext, Libraries, Job, PeerSession, SessionEvent, piece_completed,
  active_peers_snapshot, download_complete, selection_changed, Answers, Effect, send, tell, notify,
  heard, uploaded, Turn, turn, goes_on, fails, coordinator_gone, have_out_of_range,
  malformed_bitfield, invalid_request, written, piece_len_at,
}
use tortor.Session.Slots.{try_unchoke, choke}
use tortor.Session.Work.{handle_piece}

-- `self.job.as_ref().is_some_and(|job| job.index == index)`
abbrev pub job_is : ℕ → PeerSession → Bool
job_is index s = elim s.job [ none ↦ false | some j ↦ j.index == index ]

unfoldable pub on_piece_completed : ℕ → PeerSession → UploadSlots → Turn
on_piece_completed index s slots =
    turn (heard index ∷ send (Wire.have index) ∷ [])
      (if job_is index s then record s { job = none } else s) slots goes_on

unfoldable pub on_selection_changed : Answers → PeerSession → UploadSlots → Turn
on_selection_changed w s slots =
    if s.am_interested
    then turn [] (record s { next_work_poll = w.now }) slots goes_on
    else if w.sent
    then turn (send Wire.interested ∷ [])
        (record s { am_interested = true; next_work_poll = w.now }) slots goes_on
    else turn (send Wire.interested ∷ []) s slots (written w.sent)

-- The changes since the last exchange: the addresses that went, and those that came but the peer's
-- own, 50 of each at most.
abbrev pub difference : List SocketAddr → List SocketAddr → List SocketAddr
difference xs ys = filterb (λ a. not (has_addr a ys)) xs

abbrev pub encoded : ℕ → Option (List ℕ) → List Effect
encoded id none = []
encoded id (some payload) = send (Wire.extended id payload) ∷ []

unfoldable pub send_changes :
    Libraries
    → ℕ
    → List SocketAddr
    → List SocketAddr
    → List SocketAddr
    → PeerSession
    → UploadSlots
    → Turn
send_changes lib remote_id current added dropped s slots =
    if length added == 0 && length dropped == 0
    then turn [] s slots goes_on
    else turn (encoded remote_id (lib.encode_pex (from_peers added dropped)))
        (record s { last_sent_peers = current }) slots goes_on

unfoldable pub on_snapshot :
    Libraries → PeerContext → List SocketAddr → PeerSession → UploadSlots → Turn
unfolding send_changes
on_snapshot lib ctx current s slots = elim s.remote_pex_id [
  | none ↦ turn [] s slots goes_on
  | some remote_id ↦
      send_changes lib remote_id current
        (take 50
          (filterb (λ a. not (same_addr a ctx.peer_addr)) (difference current s.last_sent_peers)))
        (take 50 (difference s.last_sent_peers current)) s slots
]

unfoldable pub handle_event :
    Libraries → PeerContext → Answers → SessionEvent → PeerSession → UploadSlots → Turn
unfolding on_piece_completed on_selection_changed on_snapshot
handle_event lib ctx w (piece_completed index) s slots = on_piece_completed index s slots
handle_event lib ctx w selection_changed s slots = on_selection_changed w s slots
handle_event lib ctx w download_complete s slots =
    if s.am_interested
    then turn (send Wire.not_interested ∷ []) (record s { am_interested = false }) slots goes_on
    else turn [] s slots goes_on
handle_event lib ctx w (active_peers_snapshot peers) s slots = on_snapshot lib ctx peers s slots

-- A message of `ut_pex`: its addresses go to the swarm.
abbrev pub pex_peers : Option PexMessage → List Effect
pex_peers none = []
pex_peers (some m) =
    let addrs = decode_added m in
    if length addrs == 0 then [] else notify (pex_peers_received addrs) ∷ []

abbrev pub new_pex_id : Option (Option ℕ) → Option ℕ → Option ℕ
new_pex_id (some (some id)) old = some id
new_pex_id (some none) old = old
new_pex_id none old = old

abbrev pub is_id : ℕ → Option ℕ → Bool
is_id id none = false
is_id id (some n) = id == n

unfoldable pub on_extended :
    Libraries → ℕ → List ℕ → Result BencodeError Unit → PeerSession → UploadSlots → Turn
on_extended lib id payload (err e) s slots = turn [] s slots goes_on
on_extended lib id payload (ok _) s slots =
    if id == 0
    then turn []
        (record s { remote_pex_id = new_pex_id (lib.decode_extended payload) s.remote_pex_id })
        slots goes_on
    else if is_id id s.remote_pex_id
    then turn (pex_peers (lib.decode_pex payload)) s slots goes_on
    else turn [] s slots goes_on

unfoldable pub handle_extended : Libraries → ℕ → List ℕ → PeerSession → UploadSlots → Turn
unfolding on_extended check_bencode_depth
handle_extended lib id payload s slots =
    on_extended lib id payload (check_bencode_depth payload) s slots

-- A request that may be answered.
abbrev pub fits : ℕ → Option ℕ → Bool
fits end none = false
fits end (some piece_len) = leb end piece_len

unfoldable pub is_request_valid : PeerContext → ℕ → ℕ → ℕ → Bool
is_request_valid ctx index begin len =
    ltb 0 len && (leb len max_block_request && fits (begin + len) (piece_len_at ctx index))

unfoldable pub answer : Answers → ℕ → ℕ → ℕ → Option (List ℕ) → PeerSession → UploadSlots → Turn
answer w index begin len none s slots =
    turn (tell (read_piece index begin len) ∷ []) s slots goes_on
answer w index begin len (some block) s slots =
    if w.sent
    then turn
        (tell (read_piece index begin len)
          ∷ send (Wire.piece index begin block)
          ∷ uploaded (length block)
          ∷ [])
        (record s { last_useful = w.now }) slots goes_on
    else turn (tell (read_piece index begin len) ∷ send (Wire.piece index begin block) ∷ []) s slots
        (written w.sent)

unfoldable pub handle_request : PeerContext → Answers → ℕ → ℕ → ℕ → PeerSession → UploadSlots → Turn
unfolding is_request_valid answer
handle_request ctx w index begin len s slots =
    if s.am_choking
    then turn [] s slots goes_on
    else if not (is_request_valid ctx index begin len)
    then turn [] s slots (fails invalid_request)
    else if not w.coordinator_there
    then turn (tell (read_piece index begin len) ∷ []) s slots (fails coordinator_gone)
    else answer w index begin len w.block s slots

unfoldable pub on_have : Answers → ℕ → PeerSession → UploadSlots → Turn
on_have w index s slots =
    let r = Bitfield.set s.have_pieces index in
    if leb s.have_pieces.len index
    then turn [] s slots (fails have_out_of_range)
    else if r.1
    then turn (tell (peer_have index) ∷ []) (record s { have_pieces = r.0; next_work_poll = w.now })
        slots goes_on
    else turn [] (record s { have_pieces = r.0 }) slots goes_on

unfoldable pub on_bitfield : Answers → Option Bitfield → PeerSession → UploadSlots → Turn
on_bitfield w none s slots = turn [] s slots (fails malformed_bitfield)
on_bitfield w (some new_have) s slots =
    turn
      ((if ltb 0 (Bitfield.count s.have_pieces) then tell (peer_gone s.have_pieces) ∷ [] else [])
        ++ (tell (peer_bitfield new_have) ∷ []))
      (record s { have_pieces = new_have; next_work_poll = w.now }) slots goes_on

abbrev pub reset_job : Option Job → Option Job
reset_job none = none
reset_job (some j) = some (record j { assembler = reset_requests j.assembler })

unfoldable pub handle_message :
    Libraries → PeerContext → Answers → PeerMessage → PeerSession → UploadSlots → Turn
unfolding try_unchoke choke on_have on_bitfield handle_extended handle_request handle_piece
handle_message lib ctx w Wire.keep_alive s slots = turn [] s slots goes_on
handle_message lib ctx w Wire.choke s slots =
    turn [] (record s { peer_choking = true; job = reset_job s.job }) slots goes_on
handle_message lib ctx w Wire.unchoke s slots =
    turn [] (record s { peer_choking = false; next_work_poll = w.now }) slots goes_on
handle_message lib ctx w Wire.interested s slots =
    try_unchoke w (record s { peer_interested = true }) slots
handle_message lib ctx w Wire.not_interested s slots =
    choke w (record s { peer_interested = false }) slots
handle_message lib ctx w (Wire.have index) s slots = on_have w index s slots
handle_message lib ctx w (Wire.bitfield payload) s slots =
    on_bitfield w (Bitfield.from_wire s.have_pieces.len payload) s slots
handle_message lib ctx w (Wire.extended id payload) s slots = handle_extended lib id payload s slots
handle_message lib ctx w (Wire.request index begin len) s slots =
    handle_request ctx w index begin len s slots
handle_message lib ctx w (Wire.piece index begin block) s slots =
    handle_piece lib ctx w index begin block s slots
