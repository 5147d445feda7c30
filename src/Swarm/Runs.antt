-- ===== src/Swarm/Runs.antt =====
-- The swarm stays well formed through any run, and announces itself no more often than it should.
use mathlib.Core.Path.{subst}
use tortor.Prelude.{
  ℕ, ◌+◌, ◌-◌, ◌≤◌, ◌<◌, ◌≡◌, refl, ◌⊎◌, inl, inr, true, false, not, some, List, [], ◌∷◌, ◌++◌,
  if◌then◌else◌, leb, ◌==◌, Bool-cases, length, filterb, All, arith,
}
use tortor.Pex.{SocketAddr}
use tortor.Torrent.{Chars}
use tortor.Session.{piece_completed, active_peers_snapshot, download_complete, selection_changed}
use tortor.Swarm.{
  SwarmEvent, peer_progress, peer_exited, tracker_peers_received, pex_peers_received,
  dht_peers_received, tracker_announce_failed, same_addr, is_dialable, is_active, max_active_peers,
  ActivePeer, addrs_of, max_queued_peers, Swarm, SwarmState, Action, dial, drop_peer, announce,
  snapshot, completed, should_reannounce, min_announce_interval, start_reannounce,
}
use tortor.Swarm.Loop.{
  on_event, is_expired, drops, dial_loop, on_tick, on_session_event, Input, swarm_event,
  session_event, pex_tick, tick, on_input, reannounce, step, Round, run_swarm, new_swarm,
}
use tortor.Swarm.Queue.{Distinct}
use tortor.Swarm.Invariant.{
  IsValid, filter-IsValid, renewed-IsValid, addrs-progressed, enqueue-IsValid, dial_loop-IsValid,
}

on_event-IsValid :
    (now : ℕ) (e : SwarmEvent) (s : Swarm)
    → IsValid s.queue s.active
    → IsValid (on_event now e s).queue (on_event now e s).active
unfolding on_event
on_event-IsValid now (peer_progress addr delta) s v =
    renewed-IsValid s.queue s.active _ (addrs-progressed now addr delta s.active) v
on_event-IsValid now (peer_exited addr) s v = filter-IsValid _ s.queue s.active v
on_event-IsValid now (tracker_peers_received addrs) s v = enqueue-IsValid s.queue s.active addrs v
on_event-IsValid now (pex_peers_received addrs) s v = enqueue-IsValid s.queue s.active addrs v
on_event-IsValid now (dht_peers_received addrs) s v = enqueue-IsValid s.queue s.active addrs v
on_event-IsValid now tracker_announce_failed s v = v

on_input-IsValid :
    (now uploaded downloaded : ℕ) (i : Input) (s : Swarm)
    → IsValid s.queue s.active
    → IsValid
        (on_input now uploaded downloaded i s).1.queue
        (on_input now uploaded downloaded i s).1.active
unfolding on_input on_session_event on_tick
on_input-IsValid now uploaded downloaded (swarm_event e) s v = on_event-IsValid now e s v
on_input-IsValid now uploaded downloaded (session_event download_complete) s v = v
on_input-IsValid now uploaded downloaded (session_event (piece_completed p)) s v = v
on_input-IsValid now uploaded downloaded (session_event (active_peers_snapshot ps)) s v = v
on_input-IsValid now uploaded downloaded (session_event selection_changed) s v = v
on_input-IsValid now uploaded downloaded pex_tick s v = v
on_input-IsValid now uploaded downloaded tick s v =
    dial_loop-IsValid now s.queue _ (filter-IsValid _ s.queue s.active v)

reannounce-IsValid :
    (now uploaded downloaded : ℕ) (r : List Action × Swarm)
    → IsValid r.1.queue r.1.active
    → IsValid
        (reannounce now uploaded downloaded r).1.queue
        (reannounce now uploaded downloaded r).1.active
unfolding reannounce
reannounce-IsValid now uploaded downloaded (actions, s) v =
    elim (Bool-cases (should_reannounce now s.state (length s.queue) (length s.active))) [
      | inl again ↦ rw again v
      | inr quiet ↦ rw quiet v
    ]

-- From a queue of at most 2000 different peers that can be dialled, whatever happens: the queue
-- stays so, at most 30 peers are active, none is active twice, and no active peer is queued.
pub run_swarm-IsValid :
    (rounds : List Round) (s : Swarm)
    → IsValid s.queue s.active
    → IsValid (run_swarm rounds s).1.queue (run_swarm rounds s).1.active
unfolding run_swarm step
run_swarm-IsValid [] s v = v
run_swarm-IsValid (r ∷ rounds) s v = run_swarm-IsValid rounds _ (
    reannounce-IsValid r.now r.uploaded r.downloaded
      (on_input r.now r.uploaded r.downloaded r.input s)
      (on_input-IsValid r.now r.uploaded r.downloaded r.input s v))

pub new_swarm-IsValid :
    (peers : List SocketAddr) (urls : List Chars) (left : ℕ)
    → Distinct peers
    → All (λ a. is_dialable a ≡ true) peers
    → length peers ≤ max_queued_peers
    → IsValid (new_swarm peers urls left).queue (new_swarm peers urls left).active
unfolding new_swarm
new_swarm-IsValid peers urls left d can le = record {
  queue_distinct = d;
  active_distinct = tt;
  apart = none_active peers;
  dialable = can;
  short = le;
  few = omega arith;
}
  where
    none_active : (xs : List SocketAddr) → All (λ a. tortor.Swarm.is_active a [] ≡ false) xs
    none_active [] = tt
    none_active (x ∷ xs) = (unfold tortor.Swarm.has_addr in refl, none_active xs)

abbrev pub is_announce : Action → ℕ
is_announce (announce p) = 1
is_announce (dial a) = 0
is_announce (drop_peer a) = 0
is_announce (snapshot ps) = 0

abbrev pub announces : List Action → ℕ
announces [] = 0
announces (a ∷ xs) = is_announce a + announces xs

announces-append : (xs ys : List Action) → announces (xs ++ ys) ≡ announces xs + announces ys
announces-append [] ys = omega arith
announces-append (x ∷ xs) ys = omega (arith, announces-append xs ys)

announces-drops : (now : ℕ) (ps : List ActivePeer) → announces (drops now ps) ≡ 0
announces-drops now [] = refl
announces-drops now (p ∷ ps) = elim (Bool-cases (is_expired now p)) [
  | inl late ↦ rw late (omega (arith, announces-drops now ps))
  | inr fine ↦ rw fine (announces-drops now ps)
]

announces-dial_loop :
    (now : ℕ) (queue : List SocketAddr) (ps : List ActivePeer)
    → announces (dial_loop now queue ps).actions ≡ 0
unfolding dial_loop
announces-dial_loop now [] ps = refl
announces-dial_loop now (a ∷ queue) ps =
    let peer : ActivePeer = record { addr = a; downloaded_bytes = 0; last_progress = now } in
    elim (Bool-cases (leb max_active_peers (length ps))) [
      | inl full ↦ rw full refl
      | inr room ↦ elim (Bool-cases (is_active a ps)) [
        | inl again ↦ simp (room, again) (announces-dial_loop now queue ps)
        | inr idle ↦
            simp (room, idle) (omega (arith, announces-dial_loop now queue (ps ++ (peer ∷ []))))
      ]
    ]

-- Why an announce may be sent.
pub record MayAnnounce (now : ℕ) (s : SwarmState) : Type 0 where
  pub some_tracker : 0 < length s.tracker_urls
  pub none_running : s.announce_in_progress ≡ false
  pub long_ago : (t : ℕ) → s.last_announce ≡ some t → min_announce_interval ≤ now - t

should_reannounce-MayAnnounce :
    (now : ℕ) (s : SwarmState) (available active : ℕ)
    → should_reannounce now s available active ≡ true
    → MayAnnounce now s
unfolding should_reannounce
should_reannounce-MayAnnounce now s available active e = record {
  some_tracker = ground (arith, e);
  none_running = ground (arith, e);
  long_ago = λ t h. ground (arith, e, h);
}

-- One round: an announce is due to the end of the download, or it may be sent.
pub data Announcing (now : ℕ) (i : Input) (s : Swarm) : List Action × Swarm → Type 0 where
  silent : {r : List Action × Swarm} → announces r.0 ≡ 0 → Announcing now i s r
  once :
      {r : List Action × Swarm}
      → announces r.0 ≡ 1
      → (i ≡ session_event download_complete) ⊎ MayAnnounce now (on_input now 0 0 i s).1.state
      → r.1.state.last_announce ≡ some now
      → r.1.state.announce_in_progress ≡ true
      → Announcing now i s r

reannounce-Announcing :
    (now uploaded downloaded : ℕ) (i : Input) (s : Swarm) (r : List Action × Swarm)
    → announces r.0 ≡ 0
    → r.1.state ≡ (on_input now 0 0 i s).1.state
    → Announcing now i s (reannounce now uploaded downloaded r)
unfolding reannounce start_reannounce
reannounce-Announcing now uploaded downloaded i s (actions, s') quiet same =
    elim (Bool-cases (should_reannounce now s'.state (length s'.queue) (length s'.active))) [
      | inr no_need ↦ rw no_need (silent quiet)
      | inl due ↦ rw due (
          once (omega (arith, announces-append actions _, quiet))
            (inr (
              subst (MayAnnounce now) same (
                should_reannounce-MayAnnounce now s'.state (length s'.queue) (length s'.active)
                  due)))
            refl refl)
    ]

told :
    (ps : List ActivePeer)
    → announces (if length ps == 0 then [] else snapshot (addrs_of ps) ∷ []) ≡ 0
told [] = refl
told (p ∷ ps) = ground arith

-- Just after an announce there is no need for another.
not_again :
    (now : ℕ) (s : SwarmState) (available active : ℕ)
    → should_reannounce now
        (record s {
          event = some completed;
          left_hint = 0;
          announce_in_progress = true;
          last_announce = some now;
        })
        available
        active
      ≡ false
unfolding should_reannounce
not_again now s available active = ground arith

-- A round announces at most once, and then only when the download became complete, or when there
-- is a tracker, no announce is under way and the last one was 30 seconds ago. Afterwards an
-- announce is under way, and its time is noted.
pub step-Announcing :
    (now uploaded downloaded : ℕ) (i : Input) (s : Swarm)
    → Announcing now i s (step now uploaded downloaded i s)
unfolding step on_input on_session_event on_tick
step-Announcing now uploaded downloaded (swarm_event e) s =
    reannounce-Announcing now uploaded downloaded (swarm_event e) s
      (on_input now 0 0 (swarm_event e) s) refl refl
step-Announcing now uploaded downloaded (session_event (piece_completed p)) s =
    reannounce-Announcing now uploaded downloaded (session_event (piece_completed p)) s
      (on_input now 0 0 (session_event (piece_completed p)) s) refl refl
step-Announcing now uploaded downloaded (session_event (active_peers_snapshot ps)) s =
    reannounce-Announcing now uploaded downloaded (session_event (active_peers_snapshot ps)) s
      (on_input now 0 0 (session_event (active_peers_snapshot ps)) s) refl refl
step-Announcing now uploaded downloaded (session_event selection_changed) s =
    reannounce-Announcing now uploaded downloaded (session_event selection_changed) s
      (on_input now 0 0 (session_event selection_changed) s) refl refl
step-Announcing now uploaded downloaded (session_event download_complete) s =
    rw (not_again now s.state (length s.queue) (length s.active)) (once refl (inl refl) refl refl)
step-Announcing now uploaded downloaded pex_tick s =
    reannounce-Announcing now uploaded downloaded pex_tick s (on_input now 0 0 pex_tick s)
      (told s.active) refl
step-Announcing now uploaded downloaded tick s =
    reannounce-Announcing now uploaded downloaded tick s (on_input now 0 0 tick s)
      (omega (
        arith,
        announces-append (drops now s.active) _,
        announces-drops now s.active,
        announces-dial_loop now s.queue (filterb (λ p. not (is_expired now p)) s.active),
      ))
      refl
