-- ===== src/Coordinator/Counts.antt =====
-- What giving out and returning work leaves alone in the manager, and when the torrent stays done.
use tortor.Prelude.{
  ℕ, ◌≡◌, refl, ◌∙◌, inl, inr, Bool, none, true, not, ◌&&◌, List, ◌==◌, ◌-◌, ◌<◌, Bool-cases,
  Option-cases, arith, leb, length, get_elem?,
}
use tortor.Prelude.Sets.{contains, contains-insert}
use tortor.Bitfield
use tortor.Bitfield.{Bitfield}
use tortor.Manager.{
  TorrentManager, HolderMap, holders, refresh, choose, assign, endgame, release, is_done,
  next_work_for, return_work, mark_completed, pick, candidate, is_wanted,
}
use tortor.Manager.Invariant.{IsValid}
use tortor.Manager.Done.{is_done_iff}
use tortor.Manager.Steps.{mark_completed-IsValid}

-- Two managers that agree on all but the queue, the holders and the counters of the peers.
pub record Agrees (m m' : TorrentManager) : Type 0 where
  pub total : m'.total_pieces ≡ m.total_pieces
  pub completed : m'.completed ≡ m.completed
  pub selection : m'.selection ≡ m.selection
  pub wanted_total : m'.wanted_total ≡ m.wanted_total
  pub wanted_completed : m'.wanted_completed ≡ m.wanted_completed

same : {m : TorrentManager} → Agrees m m
same = record {
  total = refl;
  completed = refl;
  selection = refl;
  wanted_total = refl;
  wanted_completed = refl;
}

after : {a b c : TorrentManager} → Agrees a b → Agrees b c → Agrees a c
after f g = record {
  total = g.total ∙ f.total;
  completed = g.completed ∙ f.completed;
  selection = g.selection ∙ f.selection;
  wanted_total = g.wanted_total ∙ f.wanted_total;
  wanted_completed = g.wanted_completed ∙ f.wanted_completed;
}

-- Only the queue and the holders differ.
regrouped :
    (m : TorrentManager) (missing : List ℕ) (in_progress : HolderMap) (dirty : Bool)
    → Agrees m (record m { missing = missing; in_progress = in_progress; missing_dirty = dirty })
regrouped m missing in_progress dirty = record {
  total = refl;
  completed = refl;
  selection = refl;
  wanted_total = refl;
  wanted_completed = refl;
}

refresh-Agrees : (m : TorrentManager) → Agrees m (refresh m)
unfolding refresh
refresh-Agrees m = elim (Bool-cases m.missing_dirty) [
  | inl h ↦ simp h (regrouped m _ _ _)
  | inr h ↦ simp h same
]

assign-Agrees : (pos : ℕ) (m : TorrentManager) → Agrees m (assign pos m).1
unfolding assign
assign-Agrees pos m = elim (Option-cases (get_elem? m.missing pos)) [
  | inl h ↦ rw (h, assign) same
  | inr (p, h) ↦ rw (h, assign) (regrouped m _ _ _)
]

endgame-Agrees : (has : ℕ → Bool) (m : TorrentManager) → Agrees m (endgame has m).1
unfolding endgame
endgame-Agrees has m = elim (Option-cases (candidate has m.in_progress)) [
  | inl h ↦ rw (h, endgame) same
  | inr (p, h) ↦ rw (h, endgame) (regrouped m _ _ _)
]

choose-Agrees :
    (coin : ℕ → ℕ → Bool) (has : ℕ → Bool) (m : TorrentManager) → Agrees m (choose coin has m).1
unfolding choose
choose-Agrees coin has m = elim (Option-cases (pick coin has m.availability 0 m.missing none)) [
  | inl h ↦ elim (Bool-cases (leb 1 (length m.missing))) [
    | inl some_left ↦ rw (h, choose, some_left) same
    | inr empty ↦ rw (h, choose, empty) (endgame-Agrees has m)
  ]
  | inr (b, h) ↦ rw (h, choose) (assign-Agrees b.pos m)
]

pub next_work_for-Agrees :
    (coin : ℕ → ℕ → Bool) (f : Bitfield) (m : TorrentManager) → Agrees m (next_work_for coin f m).1
unfolding next_work_for
next_work_for-Agrees coin f m =
    after (refresh-Agrees m) (choose-Agrees coin (Bitfield.has f) (refresh m))

release-Agrees : (p : ℕ) (m : TorrentManager) → Agrees m (release p m)
unfolding release
release-Agrees p m = elim (Bool-cases (not (contains p m.completed) && is_wanted m p)) [
  | inl h ↦ rw h (regrouped m _ _ _)
  | inr h ↦ rw h (regrouped m _ _ _)
]

pub return_work-Agrees : (p : ℕ) (m : TorrentManager) → Agrees m (return_work p m)
unfolding return_work
return_work-Agrees p m = elim (Option-cases (holders p m.in_progress)) [
  | inl h ↦ rw (h, return_work) same
  | inr (n, h) ↦ elim (Bool-cases (n - 1 == 0)) [
    | inl last ↦ rw (h, return_work, last) (release-Agrees p m)
    | inr more ↦ rw (h, return_work, more) (regrouped m _ _ _)
  ]
]

pub Agrees-is_done : (m m' : TorrentManager) → Agrees m m' → is_done m' ≡ is_done m
unfolding is_done
Agrees-is_done m m' a = ground (arith, a.wanted_total, a.wanted_completed)

kept_wanted :
    (p q : ℕ) (m : TorrentManager)
    → (q < m.total_pieces → is_wanted m q ≡ true → contains q m.completed ≡ true)
    → q < (mark_completed p m).total_pieces
    → is_wanted (mark_completed p m) q ≡ true
    → contains q (mark_completed p m).completed ≡ true
unfolding mark_completed
kept_wanted p q m old lt w = elim (Bool-cases (leb m.total_pieces p)) [
  | inl out ↦ ground (arith, old, lt, w, out)
  | inr inside ↦ elim (Bool-cases (contains p m.completed)) [
    | inl there ↦ ground (arith, old, lt, w, inside, there)
    | inr fresh ↦ ground (arith, old, lt, w, inside, fresh, contains-insert p q m.completed)
  ]
]

-- A torrent that is done stays done when a piece is completed.
pub mark_completed-is_done :
    (p : ℕ) (m : TorrentManager)
    → IsValid m
    → is_done m ≡ true
    → is_done (mark_completed p m) ≡ true
mark_completed-is_done p m v d =
    (is_done_iff (mark_completed p m) (mark_completed-IsValid p m v)).1
      (λ q. kept_wanted p q m ((is_done_iff m v).0 d q))
