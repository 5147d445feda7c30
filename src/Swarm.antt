-- ===== src/Swarm.antt =====
-- The swarm of src/net/swarm.rs: the peers of one torrent that are known and those that are dialled.
pub mod Loop
pub mod Queue
pub mod Runs
pub mod Invariant
mod Tests
use package.tortor.Prelude.{
  ℕ, ◌+◌, ◌-◌, Bool, true, false, not, ◌&&◌, ◌||◌, Option, none, some, List, [], ◌∷◌, ◌++◌,
  if◌then◌else◌, ltb, leb, ◌==◌, length, get_or, list_eq,
}
use package.tortor.Pex.{SocketAddr, v4, v6}
use package.tortor.Torrent.{Chars}

pub data SwarmEvent : Type 0 where
  peer_progress : SocketAddr → ℕ → SwarmEvent
  peer_exited : SocketAddr → SwarmEvent
  tracker_peers_received pex_peers_received dht_peers_received : List SocketAddr → SwarmEvent
  tracker_announce_failed : SwarmEvent

-- Equality of addresses.
unfoldable pub same_addr : SocketAddr → SocketAddr → Bool
same_addr (v4 ip port) (v4 ip' port') = list_eq ip ip' && port == port'
same_addr (v6 ip port flowinfo scope) (v6 ip' port' flowinfo' scope') =
    list_eq ip ip' && (port == port' && (flowinfo == flowinfo' && scope == scope'))
same_addr (v4 ip port) (v6 ip' port' flowinfo scope) = false
same_addr (v6 ip port flowinfo scope) (v4 ip' port') = false

unfoldable pub has_addr : SocketAddr → List SocketAddr → Bool
unfolding same_addr
has_addr a [] = false
has_addr a (b ∷ bs) = same_addr a b || has_addr a bs

abbrev pub max_active_peers : ℕ
max_active_peers = 30

abbrev pub peer_idle_timeout_secs : ℕ
peer_idle_timeout_secs = 300

abbrev pub max_queued_peers : ℕ
max_queued_peers = 2000

abbrev pub peer_threshold : ℕ
peer_threshold = 5

-- Milliseconds.
abbrev pub min_announce_interval : ℕ
min_announce_interval = 30000

pub record ActivePeer : Type 0 where
  pub addr : SocketAddr
  pub downloaded_bytes : ℕ
  pub last_progress : ℕ

-- The events of a tracker announce.
pub data AnnounceEvent : Type 0 where
  started completed stopped : AnnounceEvent

pub record SwarmState : Type 0 where
  pub last_announce : Option ℕ
  pub announce_in_progress : Bool
  pub tracker_urls : List Chars
  pub left_hint : ℕ
  pub event : Option AnnounceEvent

-- What the loop of the swarm keeps: `active` is a map with the address as the key.
pub record Swarm : Type 0 where
  pub state : SwarmState
  pub queue : List SocketAddr
  pub active : List ActivePeer

pub record AnnounceParams : Type 0 where
  pub uploaded : ℕ
  pub downloaded : ℕ
  pub left : ℕ
  pub event : Option AnnounceEvent

-- What is started or stopped: the connection to a peer, and an announce to the trackers.
pub data Action : Type 0 where
  dial drop_peer : SocketAddr → Action
  announce : AnnounceParams → Action
  snapshot : List SocketAddr → Action

abbrev pub addrs_of : List ActivePeer → List SocketAddr
addrs_of [] = []
addrs_of (p ∷ ps) = p.addr ∷ addrs_of ps

-- `active.contains_key(&addr)`
abbrev pub is_active : SocketAddr → List ActivePeer → Bool
is_active a ps = has_addr a (addrs_of ps)

-- `ip.is_unspecified()` and `ip.is_multicast()`
abbrev pub all_zero : List ℕ → Bool
all_zero [] = true
all_zero (b ∷ bs) = b == 0 && all_zero bs

unfoldable pub is_dialable : SocketAddr → Bool
is_dialable (v4 ip port) =
    not (port == 0)
    && (not (all_zero ip) && not (leb 224 (get_or ip 0 0) && ltb (get_or ip 0 0) 240))
is_dialable (v6 ip port flowinfo scope) =
    not (port == 0) && (not (all_zero ip) && not (get_or ip 0 0 == 255))

-- Whether an address is new and can be dialled.
unfoldable pub is_new : List SocketAddr → List ActivePeer → SocketAddr → Bool
unfolding is_dialable has_addr
is_new queue active addr =
    is_dialable addr && (not (is_active addr active) && not (has_addr addr queue))

-- The queue, and how many were added.
unfoldable pub enqueue_peers :
    List SocketAddr → List ActivePeer → List SocketAddr → List SocketAddr × ℕ
unfolding is_new
enqueue_peers queue active [] = (queue, 0)
enqueue_peers queue active (addr ∷ addrs) =
    let b = is_new queue active addr in
    let rest = enqueue_peers (if b then queue ++ (addr ∷ []) else queue) active addrs in
    if leb max_queued_peers (length queue)
    then (queue, 0)
    else (rest.0, if b then rest.1 + 1 else rest.1)

abbrev pub is_completed : Option AnnounceEvent → Bool
is_completed (some completed) = true
is_completed (some started) = false
is_completed (some stopped) = false
is_completed none = false

-- The parameters of an announce, with the counters of the sessions.
unfoldable pub announce_params : ℕ → ℕ → Option AnnounceEvent → SwarmState → AnnounceParams
announce_params uploaded downloaded event s = record {
  uploaded = uploaded;
  downloaded = downloaded;
  left = (if is_completed s.event then 0 else s.left_hint - downloaded);
  event = event;
}

unfoldable pub should_reannounce : ℕ → SwarmState → ℕ → ℕ → Bool
should_reannounce now s available active =
    if length s.tracker_urls == 0 || s.announce_in_progress
    then false
    else if leb peer_threshold available && leb peer_threshold active
    then false
    else elim s.last_announce [ none ↦ true | some t ↦ leb min_announce_interval (now - t) ]

unfoldable pub start_reannounce : ℕ → ℕ → ℕ → SwarmState → List Action × SwarmState
unfolding announce_params
start_reannounce now uploaded downloaded s = (
  announce (announce_params uploaded downloaded s.event s) ∷ [],
  record s { announce_in_progress = true; last_announce = some now },
)
