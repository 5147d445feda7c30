-- ===== src/Session.antt =====
-- A peer session of src/net/session.rs: the connection to one peer of a torrent, from its state to
-- the turns of its loop. A turn works on the answers it gets (the clock, whether writes succeed, the
-- replies of the coordinator) and leaves a trace: what is sent to the peer, the coordinator and the
-- swarm, in order, with the replies and announcements that it heard. Telemetry is left out.
pub mod Slots
pub mod Sound
pub mod Requests
pub mod Turns
pub mod Life
pub mod Finish
pub mod Sharing
pub mod Exchange
pub mod Errors
pub mod Cause
pub mod Holds
pub mod Jobs
pub mod Keeps
pub mod Ledger
pub mod Loop
pub mod Messages
pub mod Work
pub mod Pipeline
pub mod Endings
mod Tests
use package.tortor.Prelude.{
  ℕ, ◌+◌, ◌-◌, ◌*◌, min, Bool, true, false, not, ◌&&◌, ◌||◌, Option, none, some, List, [], ◌∷◌,
  ◌++◌, if◌then◌else◌, ltb, leb, length,
}
use package.tortor.Prelude.Words.{u64_mod, u32_mod}
use package.tortor.Bitfield
use package.tortor.Bitfield.{Bitfield}
use package.tortor.Assembler.{PieceAssembler}
use package.tortor.Pex.{SocketAddr, PexMessage}
use package.tortor.Wire.{PeerMessage}
use package.tortor.Coordinator.{CoordinatorMsg}
use package.tortor.Swarm.{SwarmEvent}

-- Milliseconds.
abbrev pub request_retry_timeout : ℕ
request_retry_timeout = 5000

abbrev pub pipeline_depth : ℕ
pipeline_depth = 16

abbrev pub work_poll_interval : ℕ
work_poll_interval = 2000

abbrev pub keepalive_interval : ℕ
keepalive_interval = 90000

abbrev pub peer_silence_timeout : ℕ
peer_silence_timeout = 150000

abbrev pub useless_timeout : ℕ
useless_timeout = 120000

abbrev pub block_stall_timeout : ℕ
block_stall_timeout = 60000

abbrev pub choked_job_timeout : ℕ
choked_job_timeout = 30000

abbrev pub max_upload_slots : ℕ
max_upload_slots = 8

pub record UploadSlots : Type 0 where
  pub max : ℕ
  pub used : ℕ

-- What a session knows of its torrent and its peer.
pub record PeerContext : Type 0 where
  pub expected_hashes : List (List ℕ)
  pub piece_length : ℕ
  pub total_length : Option ℕ
  pub peer_addr : SocketAddr

-- Code of libraries: the hash, and the bencoding of extension messages. `decode_extended` gives the
-- id of "ut_pex" in an extended handshake.
pub record Libraries : Type 0 where
  pub hash_piece : List ℕ → List ℕ
  pub extended_handshake : Option (List ℕ)
  pub decode_extended : List ℕ → Option (Option ℕ)
  pub decode_pex : List ℕ → Option PexMessage
  pub encode_pex : PexMessage → Option (List ℕ)

pub record Job : Type 0 where
  pub index : ℕ
  pub expected_hash : List ℕ
  pub assembler : PieceAssembler
  pub last_block : ℕ

pub record PeerSession : Type 0 where
  pub am_choking : Bool
  pub am_interested : Bool
  pub peer_choking : Bool
  pub peer_interested : Bool
  pub holds_upload_slot : Bool
  pub remote_pex_id : Option ℕ
  pub last_sent_peers : List SocketAddr
  pub have_pieces : Bitfield
  pub job : Option Job
  pub next_work_poll : ℕ
  pub last_recv : ℕ
  pub last_useful : ℕ
  pub last_keepalive : ℕ

pub data SessionEvent : Type 0 where
  piece_completed : ℕ → SessionEvent
  active_peers_snapshot : List SocketAddr → SessionEvent
  download_complete selection_changed : SessionEvent

-- What `tokio::select!` yields.
pub data Input : Type 0 where
  announced : SessionEvent → Input
  received : PeerMessage → Input
  -- the receiver of the announcements lags or is closed
  missed : Input
  read_failed tick shutdown : Input

-- The answers of one turn: the clock, whether the `n`-th request, another message or the keepalive
-- is written, whether the task that hashes a piece ends well, whether the coordinator is there, and
-- its replies.
pub record Answers : Type 0 where
  pub now : ℕ
  pub request_sent : ℕ → Bool
  pub sent : Bool
  pub keepalive_sent : Bool
  pub hashed : Bool
  pub coordinator_there : Bool
  pub work : Option ℕ
  pub block : Option (List ℕ)

-- `given` is the coordinator's reply to a request for work, `heard` an announced piece, `unhashed` a
-- piece whose hashing task failed.
pub data Effect : Type 0 where
  send : PeerMessage → Effect
  tell : CoordinatorMsg → Effect
  notify : SwarmEvent → Effect
  given : ℕ → Effect
  heard unhashed : ℕ → Effect
  downloaded uploaded : ℕ → Effect

pub data SessionError : Type 0 where
  coordinator_gone write_failed connection_failed invalid_piece invalid_request have_out_of_range
        malformed_bitfield assembler_error hashing_failed hash_mismatch peer_silent peer_stalled :
      SessionError

pub data Status : Type 0 where
  goes_on ends : Status
  fails : SessionError → Status

pub record Turn : Type 0 where
  pub effects : List Effect
  pub session : PeerSession
  pub slots : UploadSlots
  pub status : Status

abbrev pub turn : List Effect → PeerSession → UploadSlots → Status → Turn
turn es s slots status = record { effects = es; session = s; slots = slots; status = status }

-- After a write: the session goes on, or ends with an error.
abbrev pub written : Bool → Status
written b = if b then goes_on else fails write_failed

abbrev pub prepend : List Effect → Turn → Turn
prepend es t = record t { effects = es ++ t.effects }

-- `first?; next`
unfoldable pub then_turn : Turn → (PeerSession → UploadSlots → Turn) → Turn
then_turn t next = elim t.status [
  | goes_on ↦ prepend t.effects (next t.session t.slots)
  | ends ↦ t
  | fails e ↦ t
]

unfoldable pub piece_len_at : PeerContext → ℕ → Option ℕ
piece_len_at ctx index = elim ctx.total_length [
  | none ↦ some ctx.piece_length
  | some total ↦
      let start = index * ctx.piece_length in
      if leb u64_mod start
      then none
      else if leb total start
      then none
      else some (min ctx.piece_length (total - start))
]

-- A session starts choked on both sides.
unfoldable pub new_session : PeerContext → ℕ → PeerSession
new_session ctx now = record {
  am_choking = true;
  am_interested = false;
  peer_choking = true;
  peer_interested = false;
  holds_upload_slot = false;
  remote_pex_id = none;
  last_sent_peers = [];
  have_pieces = Bitfield.new (length ctx.expected_hashes);
  job = none;
  next_work_poll = now;
  last_recv = now;
  last_useful = now;
  last_keepalive = now;
}
