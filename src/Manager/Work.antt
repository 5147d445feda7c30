-- ===== src/Manager/Work.antt =====
-- `next_work_for`: which piece a peer is given, and that the invariant is kept.
use mathlib.Core.Path.{subst}
use tortor.Prelude.{
  ℕ, ◌+◌, ◌≤◌, ◌<◌, ◌≡◌, refl, inl, inr, Bool, true, false, Option, none, some, List, [], ◌∷◌, leb,
  ◌==◌, Bool-cases, ==→≡, length, get_elem?, get_or, arith,
}
use tortor.Prelude.Sets.{contains}
use tortor.Bitfield
use tortor.Bitfield.{Bitfield}
use tortor.Manager.{
  TorrentManager, Best, holders, refresh, pick, candidate, endgame, assign, choose, next_work_for,
}
use tortor.Manager.Store.{
  holders-put, put-Distinct, candidate-some, candidate-none, candidate-least, contains-get_elem?,
  contains-remove_at, remove_at-NoDup,
}
use tortor.Manager.Pick.{Rarest, pick-Rarest}
use tortor.Manager.Invariant.{IsValid}
use tortor.Manager.Steps.{refresh-IsValid}
use tortor.Manager.Returns.{put-IsValid}

-- What a peer may be given by a manager with a clean queue.
pub data Given (peer_has : ℕ → Bool) (m : TorrentManager) : Option ℕ × TorrentManager → Type 0 where
  -- a queued piece that the peer has, not completed, and none such is rarer
  rarest :
      (p : ℕ) {m' : TorrentManager}
      → contains p m.missing ≡ true
      → peer_has p ≡ true
      → contains p m.completed ≡ false
      → ((q : ℕ)
          → contains q m.missing ≡ true
          → peer_has q ≡ true
          → get_or m.availability p 0 ≤ get_or m.availability q 0)
      → holders p m'.in_progress ≡ some 1
      → contains p m'.missing ≡ false
      → Given peer_has m (some p, m')
  -- there are queued pieces, and the peer has none of them
  nothing_for_peer :
      0 < length m.missing
      → ((q : ℕ) → contains q m.missing ≡ true → peer_has q ≡ false)
      → Given peer_has m (none, m)
  -- endgame: a piece in flight that the peer has, with less than three holders and none with fewer;
  -- it gets one more
  shared :
      (p n : ℕ) {m' : TorrentManager}
      → m.missing ≡ []
      → peer_has p ≡ true
      → holders p m.in_progress ≡ some n
      → n < 3
      → ((q k : ℕ) → holders q m.in_progress ≡ some k → peer_has q ≡ true → n ≤ k)
      → holders p m'.in_progress ≡ some (n + 1)
      → Given peer_has m (some p, m')
  -- the queue is empty, and three peers hold each piece in flight that the peer has
  idle :
      m.missing ≡ []
      → ((q k : ℕ) → holders q m.in_progress ≡ some k → peer_has q ≡ true → 3 ≤ k)
      → Given peer_has m (none, m)

assign-Given :
    (peer_has : ℕ → Bool) (m : TorrentManager) (pos p : ℕ)
    → IsValid m
    → m.missing_dirty ≡ false
    → get_elem? m.missing pos ≡ some p
    → peer_has p ≡ true
    → ((q : ℕ)
        → contains q m.missing ≡ true
        → peer_has q ≡ true
        → get_or m.availability p 0 ≤ get_or m.availability q 0)
    → Given peer_has m (assign pos m) × IsValid (assign pos m).1
unfolding assign
assign-Given peer_has m pos p v clean at has least =
    let there = contains-get_elem? m.missing pos p at in
    let free = (v.pieces p).queued there in
    let fresh = (v.pieces p).fresh clean there in
    let after = holders-put p 1 p m.in_progress in
    let gone = contains-remove_at m.missing pos p p v.queue_distinct at in
    rw (at, assign)
      (
        rarest p there has fresh least (ground (arith, after)) (ground (arith, gone)),
        record {
          queue_distinct = remove_at-NoDup m.missing pos v.queue_distinct;
          keys_distinct = put-Distinct p 1 m.in_progress v.keys_distinct;
          completed_distinct = v.completed_distinct;
          pieces = λ q.
              let ok = v.pieces q in
              let e = holders-put p 1 q m.in_progress in
              let c = contains-remove_at m.missing pos p q v.queue_distinct at in
              record {
                queued = λ i.
                    let was = ok.queued (ground (arith, c, i)) in
                    (was.0, was.1, ground (arith, e, was.2, c, i));
                fresh = λ d i. ok.fresh d (ground (arith, c, i));
                held = λ n i. elim (Bool-cases (q == p)) [
                  | inl same ↦
                      let eq : q ≡ p = ==→≡ q p same in
                      let one : 1 ≡ n = ground (arith, e, i) in
                      (rw eq free.0, omega arith, omega arith, rw eq fresh)
                  | inr other ↦ ok.held n (ground (arith, e, i))
                ];
                done = ok.done;
                covered = λ lt w. ground (arith, ok.covered lt w, e, c);
              };
          wanted_total = v.wanted_total;
          wanted_completed = v.wanted_completed;
          counters = v.counters;
        },
      )

endgame-Given :
    (peer_has : ℕ → Bool) (m : TorrentManager)
    → IsValid m
    → m.missing ≡ []
    → Given peer_has m (endgame peer_has m) × IsValid (endgame peer_has m).1
unfolding endgame
endgame-Given peer_has m v empty = by_candidate (candidate peer_has m.in_progress) refl
  where
    by_candidate :
        (c : Option (ℕ × ℕ))
        → candidate peer_has m.in_progress ≡ c
        → Given peer_has m (endgame peer_has m) × IsValid (endgame peer_has m).1
    by_candidate none e = rw (e, endgame) (idle empty (candidate-none peer_has m.in_progress e), v)
    by_candidate (some (p, n)) e =
        let found = candidate-some peer_has m.in_progress p n v.keys_distinct e in
        let few : n < 3 = ground (arith, found.1) in
        let least : (q k : ℕ) → holders q m.in_progress ≡ some k → peer_has q ≡ true → n ≤ k =
          λ q k h has. elim (Bool-cases (leb 3 k)) [
            | inl three ↦ ground (arith, three, few)
            | inr less ↦
                candidate-least peer_has m.in_progress p n e q k h has (ground (arith, less))
          ] in
        let after = holders-put p (n + 1) p m.in_progress in
        rw (e, endgame)
          (
            shared p n empty (ground (arith, found.1)) found.0 few least (ground (arith, after)),
            put-IsValid p n (n + 1) m v found.0 (omega arith) (omega arith),
          )

no_items : (s : List ℕ) → length s ≡ 0 → s ≡ []
no_items [] h = refl
no_items (x ∷ s) h = absurd (omega arith)

choose-Given :
    (coin : ℕ → ℕ → Bool) (peer_has : ℕ → Bool) (m : TorrentManager)
    → IsValid m
    → m.missing_dirty ≡ false
    → Given peer_has m (choose coin peer_has m) × IsValid (choose coin peer_has m).1
unfolding choose
choose-Given coin peer_has m v clean =
    by_pick (pick coin peer_has m.availability 0 m.missing none) refl
      (pick-Rarest peer_has m.availability m.missing coin)
  where
    by_pick :
        (b : Option Best)
        → pick coin peer_has m.availability 0 m.missing none ≡ b
        → Rarest peer_has m.availability m.missing
            (pick coin peer_has m.availability 0 m.missing none)
        → Given peer_has m (choose coin peer_has m) × IsValid (choose coin peer_has m).1
    by_pick (some b) e r =
        let best = subst (Rarest peer_has m.availability m.missing) e r in
        rw (e, choose) (assign-Given peer_has m b.pos best.0 v clean best.1 best.2 best.3)
    by_pick none e r =
        let nothing = subst (Rarest peer_has m.availability m.missing) e r in
        elim (Bool-cases (leb 1 (length m.missing))) [
          | inl more ↦ rw (e, choose, more) (nothing_for_peer (ground arith) nothing, v)
          | inr empty ↦
              rw (e, choose, empty)
                (endgame-Given peer_has m v (no_items m.missing (ground (arith, empty))))
        ]

refresh-clean : (m : TorrentManager) → (refresh m).missing_dirty ≡ false
unfolding refresh
refresh-clean m = ground arith

-- A well-formed manager gives a peer a rarest queued piece that it has, or, once nothing is
-- queued, a piece in flight that it has with the fewest holders and less than three; it gives
-- nothing only if a queued piece is left but none that the peer has, or if none is queued and three
-- peers hold each piece in flight that the peer has. A queued piece that it gives is not
-- completed. It stays well formed. This holds for every outcome of the random choices.
pub next_work_for-Given :
    (coin : ℕ → ℕ → Bool) (peer_has : Bitfield) (m : TorrentManager)
    → IsValid m
    → Given (Bitfield.has peer_has) (refresh m) (next_work_for coin peer_has m)
      × IsValid (next_work_for coin peer_has m).1
unfolding next_work_for
next_work_for-Given coin peer_has m v =
    choose-Given coin (Bitfield.has peer_has) (refresh m) (refresh-IsValid m v) (refresh-clean m)
