-- ===== src/Swarm/Loop.antt =====
-- The loop of the swarm: its events, the periodic dialling, and announcing again.
use tortor.Prelude.{
  ℕ, ◌+◌, ◌-◌, ◌/◌, min, Bool, false, not, none, some, List, [], ◌∷◌, ◌++◌, if◌then◌else◌, ltb, leb,
  ◌==◌, length, filterb,
}
use tortor.Prelude.Words.{u64_mod}
use tortor.Pex.{SocketAddr}
use tortor.Torrent.{Chars}
use tortor.Session.{
  SessionEvent, piece_completed, active_peers_snapshot, download_complete, selection_changed,
}
use tortor.Swarm.{
  SwarmEvent, started, peer_progress, peer_exited, tracker_peers_received, pex_peers_received,
  dht_peers_received, tracker_announce_failed, same_addr, has_addr, ActivePeer, completed, stopped,
  Swarm, Action, dial, drop_peer, announce, snapshot, addrs_of, is_active, enqueue_peers,
  announce_params, should_reannounce, start_reannounce, max_active_peers, peer_idle_timeout_secs,
}

-- `active.get_mut(&addr)` on a progress report.
unfoldable pub progressed : ℕ → SocketAddr → ℕ → List ActivePeer → List ActivePeer
progressed now addr delta [] = []
progressed now addr delta (p ∷ ps) =
    let rest = progressed now addr delta ps in
    if same_addr addr p.addr
    then record p {
      downloaded_bytes = min (p.downloaded_bytes + delta) (u64_mod - 1);
      last_progress = now;
    }
      ∷ ps
    else p ∷ rest

abbrev pub without : SocketAddr → List ActivePeer → List ActivePeer
without addr ps = filterb (λ p. not (same_addr addr p.addr)) ps

abbrev pub enqueue : List SocketAddr → Swarm → Swarm
enqueue addrs s = record s { queue = (enqueue_peers s.queue s.active addrs).0 }

unfoldable pub on_event : ℕ → SwarmEvent → Swarm → Swarm
unfolding progressed enqueue_peers
on_event now (peer_progress addr delta) s = record s { active = progressed now addr delta s.active }
on_event now (peer_exited addr) s = record s { active = without addr s.active }
on_event now (tracker_peers_received addrs) s =
    enqueue addrs
      (record s { state = record s.state { announce_in_progress = false; event = none } })
on_event now (pex_peers_received addrs) s = enqueue addrs s
on_event now (dht_peers_received addrs) s = enqueue addrs s
on_event now tracker_announce_failed s = record s {
  state = record s.state { announce_in_progress = false };
}

abbrev pub is_expired : ℕ → ActivePeer → Bool
is_expired now p = ltb peer_idle_timeout_secs ((now - p.last_progress) / 1000)

abbrev pub drops : ℕ → List ActivePeer → List Action
drops now [] = []
drops now (p ∷ ps) = if is_expired now p then drop_peer p.addr ∷ drops now ps else drops now ps

pub record Dialled : Type 0 where
  pub actions : List Action
  pub queue : List SocketAddr
  pub active : List ActivePeer

-- The loop over the queue while there is room.
unfoldable pub dial_loop : ℕ → List SocketAddr → List ActivePeer → Dialled
unfolding has_addr
dial_loop now [] active = record { actions = []; queue = []; active = active }
dial_loop now (addr ∷ queue) active =
    let again = is_active addr active in
    let peer : ActivePeer = record { addr = addr; downloaded_bytes = 0; last_progress = now } in
    let rest = dial_loop now queue (if again then active else active ++ (peer ∷ [])) in
    if leb max_active_peers (length active)
    then record { actions = []; queue = addr ∷ queue; active = active }
    else if again
    then rest
    else record rest { actions = dial addr ∷ rest.actions }

unfoldable pub on_tick : ℕ → Swarm → List Action × Swarm
unfolding dial_loop
on_tick now s =
    let left = filterb (λ p. not (is_expired now p)) s.active in
    let d = dial_loop now s.queue left in
    (drops now s.active ++ d.actions, record s { queue = d.queue; active = d.active })

unfoldable pub on_session_event : ℕ → ℕ → ℕ → SessionEvent → Swarm → List Action × Swarm
unfolding start_reannounce
on_session_event now uploaded downloaded download_complete s =
    let r =
      start_reannounce now uploaded downloaded
        (record s.state { event = some completed; left_hint = 0 }) in
    (r.0, record s { state = r.1 })
on_session_event now uploaded downloaded (piece_completed p) s = ([], s)
on_session_event now uploaded downloaded (active_peers_snapshot peers) s = ([], s)
on_session_event now uploaded downloaded selection_changed s = ([], s)

pub data Input : Type 0 where
  swarm_event : SwarmEvent → Input
  session_event : SessionEvent → Input
  pex_tick tick : Input

-- The arms of `tokio::select!`.
unfoldable pub on_input : ℕ → ℕ → ℕ → Input → Swarm → List Action × Swarm
unfolding on_event on_session_event on_tick
on_input now uploaded downloaded (swarm_event e) s = ([], on_event now e s)
on_input now uploaded downloaded (session_event e) s = on_session_event now uploaded downloaded e s
on_input now uploaded downloaded pex_tick s =
    ((if length s.active == 0 then [] else snapshot (addrs_of s.active) ∷ []), s)
on_input now uploaded downloaded tick s = on_tick now s

-- The end of a round: announce again if peers are few.
unfoldable pub reannounce : ℕ → ℕ → ℕ → List Action × Swarm → List Action × Swarm
unfolding should_reannounce start_reannounce
reannounce now uploaded downloaded (actions, s) =
    let r = start_reannounce now uploaded downloaded s.state in
    if should_reannounce now s.state (length s.queue) (length s.active)
    then (actions ++ r.0, record s { state = r.1 })
    else (actions, s)

unfoldable pub step : ℕ → ℕ → ℕ → Input → Swarm → List Action × Swarm
unfolding on_input reannounce
step now uploaded downloaded input s =
    reannounce now uploaded downloaded (on_input now uploaded downloaded input s)

-- A round with its clock and the counters of the sessions.
pub record Round : Type 0 where
  pub now : ℕ
  pub uploaded : ℕ
  pub downloaded : ℕ
  pub input : Input

unfoldable pub run_swarm : List Round → Swarm → List Action × Swarm
unfolding step
run_swarm [] s = ([], s)
run_swarm (r ∷ rs) s =
    let first = step r.now r.uploaded r.downloaded r.input s in
    let rest = run_swarm rs first.1 in (first.0 ++ rest.0, rest.1)

unfoldable pub new_swarm : List SocketAddr → List Chars → ℕ → Swarm
new_swarm available_peers tracker_urls left_hint = record {
  state = record {
    last_announce = none;
    announce_in_progress = false;
    tracker_urls = tracker_urls;
    left_hint = left_hint;
    event = some started;
  };
  queue = available_peers;
  active = [];
}

abbrev pub drop_all : List ActivePeer → List Action
drop_all [] = []
drop_all (p ∷ ps) = drop_peer p.addr ∷ drop_all ps

-- At shutdown.
unfoldable pub stop : ℕ → ℕ → Swarm → List Action
unfolding announce_params
stop uploaded downloaded s =
    drop_all s.active
    ++ (if length s.state.tracker_urls == 0
        then []
        else announce (announce_params uploaded downloaded (some stopped) s.state) ∷ [])
