-- ===== src/Swarm/Invariant.antt =====
-- The invariant of the swarm: who is queued, who is dialled, and how many.
use mathlib.Core.Path.{subst}
use tortor.Prelude.{
  ℕ, ◌≤◌, ◌<◌, ◌≡◌, refl, sym, ap, ◌∙◌, inl, inr, Bool, true, false, List, [], ◌∷◌, ◌++◌, leb,
  Bool-cases, length, filterb, All, All-append, length-append, arith,
}
use tortor.Pex.{SocketAddr}
use tortor.Swarm.{
  same_addr, has_addr, is_dialable, is_active, enqueue_peers, ActivePeer, addrs_of,
  max_queued_peers, max_active_peers,
}
use tortor.Swarm.Loop.{progressed, dial_loop}
use tortor.Swarm.Queue.{
  Distinct, snoc-Distinct, has_addr-append, same_addr_sym, IsFresh, enqueue_peers-Queued,
}

pub record IsValid (queue : List SocketAddr) (active : List ActivePeer) : Type 0 where
  pub queue_distinct : Distinct queue
  pub active_distinct : Distinct (addrs_of active)
  -- nobody is queued while active
  pub apart : All (λ a. is_active a active ≡ false) queue
  pub dialable : All (λ a. is_dialable a ≡ true) queue
  pub short : length queue ≤ max_queued_peers
  pub few : length active ≤ max_active_peers

has_addr-filter :
    (keep : ActivePeer → Bool) (a : SocketAddr) (ps : List ActivePeer)
    → is_active a ps ≡ false
    → is_active a (filterb keep ps) ≡ false
unfolding has_addr
has_addr-filter keep a [] e = refl
has_addr-filter keep a (p ∷ ps) e = ground (arith, e, has_addr-filter keep a ps)

filter-Distinct :
    (keep : ActivePeer → Bool) (ps : List ActivePeer)
    → Distinct (addrs_of ps)
    → Distinct (addrs_of (filterb keep ps))
filter-Distinct keep [] d = tt
filter-Distinct keep (p ∷ ps) d = elim (Bool-cases (keep p)) [
  | inl stays ↦
      rw (stays, filterb) (has_addr-filter keep p.addr ps d.0, filter-Distinct keep ps d.1)
  | inr goes ↦ rw (goes, filterb) (filter-Distinct keep ps d.1)
]

length-filter :
    (keep : ActivePeer → Bool) (ps : List ActivePeer) → length (filterb keep ps) ≤ length ps
length-filter keep [] = omega arith
length-filter keep (p ∷ ps) = ground (arith, length-filter keep ps)

All-apart :
    (ps qs : List ActivePeer) (queue : List SocketAddr)
    → ((a : SocketAddr) → is_active a ps ≡ false → is_active a qs ≡ false)
    → All (λ a. is_active a ps ≡ false) queue
    → All (λ a. is_active a qs ≡ false) queue
All-apart ps qs [] f all = tt
All-apart ps qs (a ∷ queue) f (e, all) = (f a e, All-apart ps qs queue f all)

pub filter-IsValid :
    (keep : ActivePeer → Bool) (queue : List SocketAddr) (ps : List ActivePeer)
    → IsValid queue ps
    → IsValid queue (filterb keep ps)
filter-IsValid keep queue ps v = record {
  queue_distinct = v.queue_distinct;
  active_distinct = filter-Distinct keep ps v.active_distinct;
  apart = All-apart ps (filterb keep ps) queue (λ a. has_addr-filter keep a ps) v.apart;
  dialable = v.dialable;
  short = v.short;
  few = omega (arith, length-filter keep ps, v.few);
}

pub addrs-progressed :
    (now : ℕ) (addr : SocketAddr) (delta : ℕ) (ps : List ActivePeer)
    → addrs_of (progressed now addr delta ps) ≡ addrs_of ps
unfolding progressed
addrs-progressed now addr delta [] = refl
addrs-progressed now addr delta (p ∷ ps) = elim (Bool-cases (same_addr addr p.addr)) [
  | inl same ↦ rw same refl
  | inr other ↦
      rw other (ap (λ (as' : List SocketAddr). p.addr ∷ as') (addrs-progressed now addr delta ps))
]

length-addrs_of : (ps : List ActivePeer) → length (addrs_of ps) ≡ length ps
length-addrs_of [] = refl
length-addrs_of (p ∷ ps) = ground (arith, length-addrs_of ps)

-- Only the addresses of the active peers matter.
pub renewed-IsValid :
    (queue : List SocketAddr) (ps qs : List ActivePeer)
    → addrs_of qs ≡ addrs_of ps
    → IsValid queue ps
    → IsValid queue qs
renewed-IsValid queue ps qs e v = record {
  queue_distinct = v.queue_distinct;
  active_distinct = subst Distinct (sym e) v.active_distinct;
  apart = All-apart ps qs queue (λ a h. ap (has_addr a) e ∙ h) v.apart;
  dialable = v.dialable;
  short = v.short;
  few = omega (arith, length-addrs_of ps, length-addrs_of qs, ap length e, v.few);
}

fresh_apart :
    (queue : List SocketAddr) (ps : List ActivePeer) (xs : List SocketAddr)
    → All (IsFresh queue ps) xs
    → All (λ a. is_active a ps ≡ false) xs
      × All (λ a. is_dialable a ≡ true) xs
      × All (λ a. has_addr a queue ≡ false) xs
fresh_apart queue ps [] all = (tt, tt, tt)
fresh_apart queue ps (x ∷ xs) (f, all) =
    let ih = fresh_apart queue ps xs all in
    ((f.not_active, ih.0), (f.dialable, ih.1), (f.not_queued, ih.2))

without_first :
    (x : SocketAddr) (xs ys : List SocketAddr)
    → All (λ a. has_addr a (x ∷ xs) ≡ false) ys
    → (has_addr x ys ≡ false) × All (λ a. has_addr a xs ≡ false) ys
unfolding has_addr
without_first x xs [] all = (refl, tt)
without_first x xs (y ∷ ys) (e, all) =
    let ih = without_first x xs ys all in
    (ground (arith, same_addr_sym x y, e, ih.0), (ground (arith, e), ih.1))

append-Distinct :
    (xs ys : List SocketAddr)
    → Distinct xs
    → Distinct ys
    → All (λ a. has_addr a xs ≡ false) ys
    → Distinct (xs ++ ys)
append-Distinct [] ys d e all = e
append-Distinct (x ∷ xs) ys d e all =
    let split = without_first x xs ys all in
    (ground (arith, has_addr-append x xs ys, d.0, split.0), append-Distinct xs ys d.1 e split.1)

pub enqueue-IsValid :
    (queue : List SocketAddr) (ps : List ActivePeer) (addrs : List SocketAddr)
    → IsValid queue ps
    → IsValid (enqueue_peers queue ps addrs).0 ps
enqueue-IsValid queue ps addrs v =
    let q = enqueue_peers-Queued queue ps addrs in
    let f = fresh_apart queue ps q.new_peers q.fresh in
    let e = sym q.queue_is in
    record {
      queue_distinct =
          subst Distinct e (append-Distinct queue q.new_peers v.queue_distinct q.distinct f.2);
      active_distinct = v.active_distinct;
      apart =
          subst (All (λ a. is_active a ps ≡ false)) e (All-append _ queue q.new_peers v.apart f.0);
      dialable =
          subst (All (λ a. is_dialable a ≡ true)) e (All-append _ queue q.new_peers v.dialable f.1);
      short = q.bounded v.short;
      few = v.few;
    }

addrs-snoc :
    (ps : List ActivePeer) (p : ActivePeer)
    → addrs_of (ps ++ (p ∷ [])) ≡ addrs_of ps ++ (p.addr ∷ [])
addrs-snoc [] p = refl
addrs-snoc (q ∷ ps) p = ap (λ (xs : List SocketAddr). q.addr ∷ xs) (addrs-snoc ps p)

tail-IsValid :
    (a : SocketAddr) (queue : List SocketAddr) (ps : List ActivePeer)
    → IsValid (a ∷ queue) ps
    → IsValid queue ps
tail-IsValid a queue ps v = record {
  queue_distinct = v.queue_distinct.1;
  active_distinct = v.active_distinct;
  apart = v.apart.1;
  dialable = v.dialable.1;
  short = omega (arith, v.short);
  few = v.few;
}

also_apart :
    (p : ActivePeer) (ps : List ActivePeer) (queue : List SocketAddr)
    → has_addr p.addr queue ≡ false
    → All (λ a. is_active a ps ≡ false) queue
    → All (λ a. is_active a (ps ++ (p ∷ [])) ≡ false) queue
unfolding has_addr
also_apart p ps [] e all = tt
also_apart p ps (a ∷ queue) e (h, all) = (
  ap (has_addr a) (addrs-snoc ps p)
      ∙ ground (arith, has_addr-append a (addrs_of ps) (p.addr ∷ []), h, e, same_addr_sym a p.addr),
  also_apart p ps queue (ground (arith, e)) all,
)

-- The first of the queue is dialled.
dialled-IsValid :
    (p : ActivePeer) (queue : List SocketAddr) (ps : List ActivePeer)
    → length ps < max_active_peers
    → IsValid (p.addr ∷ queue) ps
    → IsValid queue (ps ++ (p ∷ []))
dialled-IsValid p queue ps room v = record {
  queue_distinct = v.queue_distinct.1;
  active_distinct =
      subst Distinct (sym (addrs-snoc ps p))
        (snoc-Distinct (addrs_of ps) p.addr v.active_distinct v.apart.0);
  apart = also_apart p ps queue v.queue_distinct.0 v.apart.1;
  dialable = v.dialable.1;
  short = omega (arith, v.short);
  few = omega (arith, length-append ps (p ∷ []), room);
}

pub dial_loop-IsValid :
    (now : ℕ) (queue : List SocketAddr) (ps : List ActivePeer)
    → IsValid queue ps
    → IsValid (dial_loop now queue ps).queue (dial_loop now queue ps).active
unfolding dial_loop
dial_loop-IsValid now [] ps v = v
dial_loop-IsValid now (a ∷ queue) ps v = elim (Bool-cases (leb max_active_peers (length ps))) [
  | inl full ↦ rw full v
  | inr room ↦
      let idle : is_active a ps ≡ false = v.apart.0 in
      let p : ActivePeer = record { addr = a; downloaded_bytes = 0; last_progress = now } in
      simp (room, idle)
        (dial_loop-IsValid now queue (ps ++ (p ∷ []))
          (dialled-IsValid p queue ps (ground (arith, room)) v))
]
