-- ===== src/Session/Slots.antt =====
-- The upload slots that the sessions of a torrent share, and how a session takes and gives them.
use tortor.Prelude.{ℕ, ◌+◌, ◌-◌, Bool, true, false, not, ◌&&◌, [], ◌∷◌, if◌then◌else◌, ltb}
use tortor.Wire
use tortor.Session.{UploadSlots, PeerSession, Answers, send, Turn, turn, goes_on, written}

unfoldable pub new : ℕ → UploadSlots
new max = record { max = max; used = 0 }

-- One atomic update.
unfoldable pub try_acquire : UploadSlots → Bool × UploadSlots
try_acquire s = if ltb s.used s.max then (true, record s { used = s.used + 1 }) else (false, s)

unfoldable pub release : UploadSlots → UploadSlots
release s = record s { used = s.used - 1 }

-- With a slot: it is held before the message is written.
unfoldable pub unchoke : Answers → PeerSession → UploadSlots → Turn
unchoke w s slots =
    turn (send Wire.unchoke ∷ []) (record s { holds_upload_slot = true; am_choking = not w.sent })
      slots (written w.sent)

unfoldable pub try_unchoke : Answers → PeerSession → UploadSlots → Turn
unfolding try_acquire unchoke
try_unchoke w s slots =
    if s.am_choking && s.peer_interested && (try_acquire slots).0
    then unchoke w s (try_acquire slots).1
    else turn [] s slots goes_on

unfoldable pub release_upload_slot : PeerSession → UploadSlots → PeerSession × UploadSlots
unfolding release
release_upload_slot s slots =
    if s.holds_upload_slot
    then (record s { holds_upload_slot = false }, release slots)
    else (s, slots)

-- A failed write ends the session before the slot is given back; `finish` does it then.
unfoldable pub choke : Answers → PeerSession → UploadSlots → Turn
unfolding release_upload_slot
choke w s slots =
    let r = release_upload_slot s slots in
    let chosen = release_upload_slot (record s { am_choking = true }) slots in
    if s.am_choking
    then turn [] r.0 r.1 goes_on
    else if w.sent
    then turn (send Wire.choke ∷ []) chosen.0 chosen.1 goes_on
    else turn (send Wire.choke ∷ []) s slots (written w.sent)
