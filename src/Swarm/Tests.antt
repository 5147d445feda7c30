-- ===== src/Swarm/Tests.antt =====
-- The swarm at concrete inputs: two peers that can be dialled.
use tortor.Prelude.{ℕ, ◌*◌, ◌≡◌, refl, List, [], ◌∷◌, arith}
use tortor.Pex.{SocketAddr, v4}
use tortor.Swarm.{SwarmEvent, pex_peers_received, Swarm, enqueue_peers, ActivePeer}
use tortor.Swarm.Loop.{Input, swarm_event, tick, Round, new_swarm, run_swarm, step}
use tortor.Swarm.Queue.{Queued, enqueue_peers-Queued}
use tortor.Swarm.Invariant.{IsValid}
use tortor.Swarm.Runs.{run_swarm-IsValid, new_swarm-IsValid, Announcing, step-Announcing, announces}

abbrev first : SocketAddr
first = v4 (10 ∷ 0 ∷ 0 ∷ 1 ∷ []) 6881

abbrev second : SocketAddr
second = v4 (10 ∷ 0 ∷ 0 ∷ 2 ∷ []) 6881

abbrev no_port : SocketAddr
no_port = v4 (10 ∷ 0 ∷ 0 ∷ 3 ∷ []) 0

abbrev start : Swarm
start = new_swarm (first ∷ []) ((104 ∷ []) ∷ []) 100

abbrev at_second : ℕ → Input → Round
at_second n input = record { now = n * 1000; uploaded = 0; downloaded = 0; input = input }

abbrev two_rounds : List Round
two_rounds =
    at_second 1 (swarm_event (pex_peers_received (first ∷ second ∷ no_port ∷ [])))
    ∷ at_second 5 tick
    ∷ []

queued_once : (enqueue_peers (first ∷ []) [] (first ∷ second ∷ no_port ∷ [])).1 ≡ 1
unfolding enqueue_peers
queued_once = refl

announced_once : announces (run_swarm two_rounds start).0 ≡ 1
unfolding run_swarm new_swarm
announced_once = refl

start-IsValid : IsValid start.queue start.active
unfolding tortor.Swarm.has_addr tortor.Swarm.is_dialable
start-IsValid =
    new_swarm-IsValid (first ∷ []) ((104 ∷ []) ∷ []) 100 (refl, tt) (refl, tt) (omega arith)

enqueue_peers-Queued_example :
    Queued
      (first ∷ [])
      []
      (first ∷ second ∷ no_port ∷ [])
      (enqueue_peers (first ∷ []) [] (first ∷ second ∷ no_port ∷ []))
enqueue_peers-Queued_example = enqueue_peers-Queued (first ∷ []) [] (first ∷ second ∷ no_port ∷ [])

run_swarm-IsValid_example :
    IsValid (run_swarm two_rounds start).1.queue (run_swarm two_rounds start).1.active
run_swarm-IsValid_example = run_swarm-IsValid two_rounds start start-IsValid

step-Announcing_example : Announcing 1000 tick start (step 1000 0 0 tick start)
step-Announcing_example = step-Announcing 1000 0 0 tick start
