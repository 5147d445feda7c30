-- ===== src/Manager/Done.antt =====
-- What the manager reports: when it is done, which pieces it serves, and that all this holds after
-- any run of its operations.
use tortor.Prelude.{
  ℕ, ◌<◌, ◌≡◌, ◌↔◌, sym, ap, ◌∙◌, inl, inr, Bool, true, not, ◌&&◌, ◌||◌, List, [], ltb, Bool-cases,
  ==→≡, ==_iff, length, filterb, arith,
}
use tortor.Prelude.Sets.{
  contains, filter_range, contains-filter_range, filter_range-NoDup, length_subset, subset_full,
}
use tortor.Bitfield
use tortor.Bitfield.{Bitfield}
use tortor.Selection.{Selection}
use tortor.Manager.{
  TorrentManager, holders, contains_key, is_wanted, with_selection, return_work, apply_selection,
  mark_completed, add_peer_pieces, remove_peer_pieces, add_peer_piece, next_work_for, is_done,
  is_servable, servable_pieces, completed_pieces,
}
use tortor.Manager.Store.{contains-filterb, filterb-NoDup}
use tortor.Manager.Invariant.{IsValid, with_selection-IsValid}
use tortor.Manager.Steps.{
  apply_selection-IsValid, mark_completed-IsValid, add_peer_pieces-IsValid,
  remove_peer_pieces-IsValid, add_peer_piece-IsValid,
}
use tortor.Manager.Returns.{return_work-IsValid}
use tortor.Manager.Work.{next_work_for-Given}

unfoldable done_wanted : TorrentManager → List ℕ
done_wanted m = filterb (is_wanted m) m.completed

unfoldable wanted_pieces : TorrentManager → List ℕ
wanted_pieces m = filter_range 0 m.total_pieces (is_wanted m)

contains-done_wanted :
    (m : TorrentManager) (p : ℕ)
    → contains p (done_wanted m) ≡ (contains p m.completed && is_wanted m p)
unfolding done_wanted
contains-done_wanted m p = contains-filterb (is_wanted m) p m.completed

contains-wanted_pieces :
    (m : TorrentManager) (p : ℕ)
    → contains p (wanted_pieces m) ≡ (ltb p m.total_pieces && is_wanted m p)
unfolding wanted_pieces
contains-wanted_pieces m p = ground (arith, contains-filter_range 0 m.total_pieces (is_wanted m) p)

-- A completed piece that is wanted is among the wanted ones.
done_wanted_inside :
    (m : TorrentManager)
    → IsValid m
    → (x : ℕ) → contains x (done_wanted m) ≡ true
    → contains x (wanted_pieces m) ≡ true
done_wanted_inside m v x h =
    let both = contains-done_wanted m x in
    ground (arith, contains-wanted_pieces m x, both, (v.pieces x).done (ground (arith, both, h)))

-- In a well-formed manager the two counters agree exactly when every wanted piece is completed.
pub is_done_iff :
    (m : TorrentManager)
    → IsValid m
    → (is_done m ≡ true)
      ↔ ((p : ℕ) → p < m.total_pieces → is_wanted m p ≡ true → contains p m.completed ≡ true)
unfolding is_done done_wanted wanted_pieces
is_done_iff m v = (
  λ e p lt w.
      let same : length (done_wanted m) ≡ length (wanted_pieces m) =
        sym v.wanted_completed ∙ ==→≡ m.wanted_completed m.wanted_total e ∙ v.wanted_total in
      let there =
        subset_full (done_wanted m) (wanted_pieces m)
          (filterb-NoDup (is_wanted m) m.completed v.completed_distinct)
          (filter_range-NoDup 0 m.total_pieces (is_wanted m)) (done_wanted_inside m v) same p
          (ground (arith, contains-wanted_pieces m p)) in
      ground (arith, contains-done_wanted m p, there),
  λ f.
      let le =
        length_subset (done_wanted m) (wanted_pieces m)
          (filterb-NoDup (is_wanted m) m.completed v.completed_distinct)
          (filter_range-NoDup 0 m.total_pieces (is_wanted m)) (done_wanted_inside m v) in
      let ge =
        length_subset (wanted_pieces m) (done_wanted m)
          (filter_range-NoDup 0 m.total_pieces (is_wanted m))
          (filterb-NoDup (is_wanted m) m.completed v.completed_distinct)
          (λ x h.
            let in_range = contains-wanted_pieces m x in
            ground (
              arith,
              contains-done_wanted m x,
              in_range,
              f x (ground (arith, in_range, h)) (ground (arith, in_range, h)),
            )) in
      (==_iff m.wanted_completed m.wanted_total).1 (omega arith),
)

still_there :
    (m : TorrentManager) (p : ℕ)
    → m.missing ≡ []
    → m.in_progress ≡ []
    → (contains p m.missing || contains_key p m.in_progress || contains p m.completed) ≡ true
    → contains p m.completed ≡ true
unfolding holders
still_there m p none_left none_held e =
    ground (arith, ap (contains p) none_left, ap (contains_key p) none_held)

-- A well-formed manager with nothing queued and nothing in flight is done: no wanted piece was
-- lost.
pub is_done_idle :
    (m : TorrentManager) → IsValid m → m.missing ≡ [] → m.in_progress ≡ [] → is_done m ≡ true
is_done_idle m v none_left none_held =
    (is_done_iff m v).1 (λ p lt w. still_there m p none_left none_held ((v.pieces p).covered lt w))

-- A well-formed manager offers a piece to peers exactly when it may be served.
pub contains-servable_pieces :
    (m : TorrentManager) (p : ℕ) → IsValid m → contains p (servable_pieces m) ≡ is_servable m p
unfolding servable_pieces is_servable completed_pieces
contains-servable_pieces m p v =
    let kept =
      contains-filterb (λ p. not (Bitfield.has m.selection.unservable p)) p (completed_pieces m) in
    let all = contains-filter_range 0 m.total_pieces (λ p. contains p m.completed) p in
    elim (Bool-cases (contains p m.completed)) [
      | inl h ↦ ground (arith, kept, all, (v.pieces p).done h)
      | inr h ↦ ground (arith, kept, all)
    ]

-- The managers that a torrent can reach.
pub data Reach : TorrentManager → Type 0 where
  start :
      (total : ℕ) (completed : List ℕ) (s : Selection) → Reach (with_selection total completed s)
  assigned :
      {m : TorrentManager} (coin : ℕ → ℕ → Bool) (peer_has : Bitfield)
      → Reach m
      → Reach (next_work_for coin peer_has m).1
  returned : {m : TorrentManager} (p : ℕ) → Reach m → Reach (return_work p m)
  completed : {m : TorrentManager} (p : ℕ) → Reach m → Reach (mark_completed p m)
  selected :
      {m : TorrentManager} (s : Selection) (refetch : Bitfield)
      → Reach m
      → Reach (apply_selection s refetch m)
  peer_joined : {m : TorrentManager} (f : Bitfield) → Reach m → Reach (add_peer_pieces f m)
  peer_left : {m : TorrentManager} (f : Bitfield) → Reach m → Reach (remove_peer_pieces f m)
  peer_piece : {m : TorrentManager} (i : ℕ) → Reach m → Reach (add_peer_piece i m)

-- After any run of operations, in any order, with any peers and random choices, the manager is
-- well formed: queued pieces are wanted and free, held ones have one to three holders and are not
-- completed, no wanted piece is lost, and the counters are right.
pub Reach-IsValid : {m : TorrentManager} → Reach m → IsValid m
Reach-IsValid (start total done s) = with_selection-IsValid total done s
Reach-IsValid (assigned coin f r) = (next_work_for-Given coin f _ (Reach-IsValid r)).1
Reach-IsValid (returned p r) = return_work-IsValid p _ (Reach-IsValid r)
Reach-IsValid (completed p r) = mark_completed-IsValid p _ (Reach-IsValid r)
Reach-IsValid (selected s f r) = apply_selection-IsValid s f _ (Reach-IsValid r)
Reach-IsValid (peer_joined f r) = add_peer_pieces-IsValid f _ (Reach-IsValid r)
Reach-IsValid (peer_left f r) = remove_peer_pieces-IsValid f _ (Reach-IsValid r)
Reach-IsValid (peer_piece i r) = add_peer_piece-IsValid i _ (Reach-IsValid r)
