-- ===== src/Swarm/Queue.antt =====
-- The queue of the swarm: which peers are added, and that nobody is queued or dialled twice.
use mathlib.Core.Path.{subst}
use tortor.Prelude.{
  ℕ, ◌+◌, ◌≤◌, ◌<◌, ◌≡◌, refl, sym, ap, ◌∙◌, inl, inr, true, false, ◌||◌, List, [], ◌∷◌, ◌++◌, leb,
  ==→≡, ==_refl, Bool-cases, Bool-ext, length, All, list_eq_refl, list_eq→≡, length-append,
  append_assoc, append-nil, arith,
}
use tortor.Pex.{SocketAddr, v4, v6}
use tortor.Swarm.{
  same_addr, has_addr, is_dialable, is_active, is_new, enqueue_peers, ActivePeer, max_queued_peers,
}

pub same_addr→≡ : (a b : SocketAddr) → same_addr a b ≡ true → a ≡ b
unfolding same_addr
same_addr→≡ (v4 ip port) (v4 ip' port') e =
    let i = list_eq→≡ ip ip' (ground (arith, e)) in
    let p = ==→≡ port port' (ground (arith, e)) in rw (i, p) refl
same_addr→≡ (v6 ip port f s) (v6 ip' port' f' s') e =
    let i = list_eq→≡ ip ip' (ground (arith, e)) in
    let p = ==→≡ port port' (ground (arith, e)) in
    let g = ==→≡ f f' (ground (arith, e)) in
    let t = ==→≡ s s' (ground (arith, e)) in rw (i, p, g, t) refl
same_addr→≡ (v4 ip port) (v6 ip' port' f s) e = absurd (cc e)
same_addr→≡ (v6 ip port f s) (v4 ip' port') e = absurd (cc e)

pub same_addr_refl : (a : SocketAddr) → same_addr a a ≡ true
unfolding same_addr
same_addr_refl (v4 ip port) = rw (list_eq_refl ip, ==_refl port) refl
same_addr_refl (v6 ip port f s) = rw (list_eq_refl ip, ==_refl port, ==_refl f, ==_refl s) refl

pub same_addr_sym : (a b : SocketAddr) → same_addr a b ≡ same_addr b a
same_addr_sym a b =
    Bool-ext (same_addr a b) (same_addr b a)
      (λ e. let same = same_addr→≡ a b e in rw same (same_addr_refl b))
      (λ e. let same = same_addr→≡ b a e in rw same (same_addr_refl a))

pub has_addr-append :
    (a : SocketAddr) (xs ys : List SocketAddr)
    → has_addr a (xs ++ ys) ≡ (has_addr a xs || has_addr a ys)
unfolding has_addr
has_addr-append a [] ys = refl
has_addr-append a (x ∷ xs) ys = ground (arith, has_addr-append a xs ys)

-- No address stands twice.
abbrev pub Distinct : List SocketAddr → Type 0
Distinct [] = Unit
Distinct (a ∷ xs) = (has_addr a xs ≡ false) × Distinct xs

pub snoc-Distinct :
    (xs : List SocketAddr) (a : SocketAddr)
    → Distinct xs
    → has_addr a xs ≡ false
    → Distinct (xs ++ (a ∷ []))
unfolding has_addr
snoc-Distinct [] a d e = (refl, tt)
snoc-Distinct (x ∷ xs) a d e = (
  ground (arith, has_addr-append x xs (a ∷ []), d.0, same_addr_sym a x, e),
  snoc-Distinct xs a d.1 (ground (arith, e)),
)

none_same :
    (x : SocketAddr) (xs : List SocketAddr)
    → All (λ a. same_addr a x ≡ false) xs
    → has_addr x xs ≡ false
unfolding has_addr
none_same x [] all = refl
none_same x (y ∷ xs) (e, all) = ground (arith, same_addr_sym x y, e, none_same x xs all)

-- The first list is the second one without some of its items, in the same order.
pub data Picked : List SocketAddr → List SocketAddr → Type 0 where
  none_left : (ys : List SocketAddr) → Picked [] ys
  taken : (x : SocketAddr) (xs ys : List SocketAddr) → Picked xs ys → Picked (x ∷ xs) (x ∷ ys)
  passed :
      (xs : List SocketAddr) (y : SocketAddr) (ys : List SocketAddr)
      → Picked xs ys
      → Picked xs (y ∷ ys)

-- A peer that may be added: it can be dialled, and it is neither connected nor queued.
pub record IsFresh (queue : List SocketAddr) (active : List ActivePeer) (a : SocketAddr)
    : Type 0 where
  pub dialable : is_dialable a ≡ true
  pub not_active : is_active a active ≡ false
  pub not_queued : has_addr a queue ≡ false

-- The outcome of `enqueue_peers`.
pub record Queued (queue : List SocketAddr) (active : List ActivePeer) (addrs : List SocketAddr)
    (r : List SocketAddr × ℕ) : Type 0 where
  -- the new peers are some of the given ones in their order, stand behind the old ones, and are
  -- counted
  pub new_peers : List SocketAddr
  pub given : Picked new_peers addrs
  pub queue_is : r.0 ≡ queue ++ new_peers
  pub counted : r.1 ≡ length new_peers
  pub fresh : All (IsFresh queue active) new_peers
  pub distinct : Distinct new_peers
  pub bounded : length queue ≤ max_queued_peers → length r.0 ≤ max_queued_peers
  -- nobody is left out while there is room
  pub complete :
      (a : SocketAddr)
      → has_addr a addrs ≡ true
      → is_dialable a ≡ true
      → is_active a active ≡ false
      → length r.0 < max_queued_peers
      → has_addr a r.0 ≡ true

was_fresh :
    (queue : List SocketAddr) (active : List ActivePeer) (addr : SocketAddr) (xs : List SocketAddr)
    → All (IsFresh (queue ++ (addr ∷ [])) active) xs
    → All (IsFresh queue active) xs × All (λ a. same_addr a addr ≡ false) xs
unfolding has_addr
was_fresh queue active addr [] all = (tt, tt)
was_fresh queue active addr (x ∷ xs) (f, all) =
    let e = has_addr-append x queue (addr ∷ []) in
    let n = f.not_queued in
    let ih = was_fresh queue active addr xs all in
    (
      (
        record {
          dialable = f.dialable;
          not_active = f.not_active;
          not_queued = ground (arith, e, n);
        },
        ih.0,
      ),
      (ground (arith, e, n), ih.1),
    )

pushed-Queued :
    (queue : List SocketAddr) (active : List ActivePeer) (addr : SocketAddr)
    (addrs : List SocketAddr) (r : List SocketAddr × ℕ)
    → length queue < max_queued_peers
    → IsFresh queue active addr
    → Queued (queue ++ (addr ∷ [])) active addrs r
    → Queued queue active (addr ∷ addrs) (r.0, r.1 + 1)
unfolding has_addr
pushed-Queued queue active addr addrs r room f q =
    let old = was_fresh queue active addr q.new_peers q.fresh in
    let is : r.0 ≡ queue ++ (addr ∷ q.new_peers) =
      q.queue_is ∙ append_assoc queue (addr ∷ []) q.new_peers in
    record {
      new_peers = addr ∷ q.new_peers;
      given = taken addr q.new_peers addrs q.given;
      queue_is = is;
      counted = ground (arith, q.counted);
      fresh = (f, old.0);
      distinct = (none_same addr q.new_peers old.1, q.distinct);
      bounded = λ le. q.bounded (omega (arith, length-append queue (addr ∷ []), room));
      complete = λ a there can idle more. elim (Bool-cases (same_addr a addr)) [
        | inl same ↦
            ground (arith, ap (has_addr a) is, has_addr-append a queue (addr ∷ q.new_peers), same)
        | inr other ↦ q.complete a (ground (arith, there, other)) can idle more
      ];
    }

passed-Queued :
    (queue : List SocketAddr) (active : List ActivePeer) (addr : SocketAddr)
    (addrs : List SocketAddr) (r : List SocketAddr × ℕ)
    → is_new queue active addr ≡ false
    → Queued queue active addrs r
    → Queued queue active (addr ∷ addrs) r
unfolding is_new
passed-Queued queue active addr addrs r known q = record {
  new_peers = q.new_peers;
  given = passed q.new_peers addr addrs q.given;
  queue_is = q.queue_is;
  counted = q.counted;
  fresh = q.fresh;
  distinct = q.distinct;
  bounded = q.bounded;
  complete = λ a there can idle more. elim (Bool-cases (same_addr a addr)) [
    | inr other ↦ q.complete a (unfold has_addr in ground (arith, there, other)) can idle more
    | inl same ↦
        let e : a ≡ addr = same_addr→≡ a addr same in
        let d = subst (λ x. is_dialable x ≡ true) e can in
        let f = subst (λ x. is_active x active ≡ false) e idle in
        let was : has_addr addr queue ≡ true = ground (arith, known, d, f) in
        let here = subst (λ x. has_addr x queue ≡ true) (sym e) was in
        ground (arith, ap (has_addr a) q.queue_is, has_addr-append a queue q.new_peers, here)
  ];
}

-- `enqueue_peers` puts some of the given peers behind the queue, in their order and each once, and
-- says how many: only peers that can be dialled and that are neither connected nor queued, at most
-- up to 2000 in the queue, and all such peers if there is room left behind them.
pub enqueue_peers-Queued :
    (queue : List SocketAddr) (active : List ActivePeer) (addrs : List SocketAddr)
    → Queued queue active addrs (enqueue_peers queue active addrs)
unfolding enqueue_peers
enqueue_peers-Queued queue active [] = record {
  new_peers = [];
  given = none_left [];
  queue_is = sym (append-nil queue);
  counted = refl;
  fresh = tt;
  distinct = tt;
  bounded = λ le. le;
  complete = λ a there can idle more. absurd (unfold has_addr in cc there);
}
enqueue_peers-Queued queue active (addr ∷ addrs) =
    elim (Bool-cases (leb max_queued_peers (length queue))) [
      | inl full ↦ rw full (record {
        new_peers = [];
        given = none_left (addr ∷ addrs);
        queue_is = sym (append-nil queue);
        counted = refl;
        fresh = tt;
        distinct = tt;
        bounded = λ le. le;
        complete = λ a there can idle more. absurd (ground (arith, full, more));
      })
      | inr room ↦ elim (Bool-cases (is_new queue active addr)) [
        | inl b ↦
            rw (room, b)
              (pushed-Queued queue active addr addrs _ (ground (arith, room))
                (unfold is_new in
                  record {
                    dialable = ground (arith, b);
                    not_active = ground (arith, b);
                    not_queued = ground (arith, b);
                  })
                (enqueue_peers-Queued (queue ++ (addr ∷ [])) active addrs))
        | inr b ↦
            rw (room, b)
              (passed-Queued queue active addr addrs _ b (enqueue_peers-Queued queue active addrs))
      ]
    ]
