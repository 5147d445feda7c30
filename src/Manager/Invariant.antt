-- ===== src/Manager/Invariant.antt =====
-- The invariant of the piece manager, and that a new manager satisfies it.
use tortor.Prelude.{
  ℕ, ◌≤◌, ◌<◌, ◌≡◌, refl, true, false, not, ◌&&◌, ◌||◌, none, some, List, length, filterb,
  length-replicate, arith,
}
use tortor.Prelude.Sets.{contains, NoDup, filter_range, contains-filter_range, filter_range-NoDup}
use tortor.Selection.{Selection}
use tortor.Manager.{
  TorrentManager, holders, contains_key, is_wanted, wanted_in, max_endgame_holders, with_selection,
  collect_below,
}
use tortor.Manager.Store.{Distinct, contains-collect_below, collect_below-NoDup}

-- What every piece satisfies, by the queue, the holder map and the completed set.
pub record PieceOk (m : TorrentManager) (p : ℕ) : Type 0 where
  -- a queued piece is wanted and nobody holds it
  pub queued :
      contains p m.missing ≡ true
      → (p < m.total_pieces) × (is_wanted m p ≡ true) × (holders p m.in_progress ≡ none)
  -- once the queue is clean, no completed piece is in it
  pub fresh : m.missing_dirty ≡ false → contains p m.missing ≡ true → contains p m.completed ≡ false
  -- a held piece has one to three holders and is not completed
  pub held :
      (n : ℕ)
      → holders p m.in_progress ≡ some n
      → (p < m.total_pieces)
        × (0 < n)
        × (n ≤ max_endgame_holders)
        × (contains p m.completed ≡ false)
  pub done : contains p m.completed ≡ true → p < m.total_pieces
  -- no wanted piece is lost
  pub covered :
      p < m.total_pieces
      → is_wanted m p ≡ true
      → (contains p m.missing || contains_key p m.in_progress || contains p m.completed) ≡ true

pub record IsValid (m : TorrentManager) : Type 0 where
  pub queue_distinct : NoDup m.missing
  pub keys_distinct : Distinct m.in_progress
  pub completed_distinct : NoDup m.completed
  pub pieces : (p : ℕ) → PieceOk m p
  pub wanted_total : m.wanted_total ≡ length (filter_range 0 m.total_pieces (is_wanted m))
  pub wanted_completed : m.wanted_completed ≡ length (filterb (is_wanted m) m.completed)
  pub counters : length m.availability ≡ m.total_pieces

-- Whatever pieces are claimed to be complete, and whatever is selected, the manager starts well
-- formed.
pub with_selection-IsValid :
    (total : ℕ) (completed : List ℕ) (s : Selection) → IsValid (with_selection total completed s)
unfolding with_selection
with_selection-IsValid total completed s = record {
  queue_distinct = filter_range-NoDup 0 total _;
  keys_distinct = tt;
  completed_distinct = collect_below-NoDup total completed;
  pieces = λ p.
      let q =
        contains-filter_range 0 total
          (λ p. wanted_in s p && not (contains p (collect_below total completed))) p in
      let c = contains-collect_below total completed p in
      record {
        queued = λ h. (ground (arith, q, h), ground (arith, q, h), unfold holders in refl);
        fresh = λ d h. ground (arith, q, h);
        held = λ n h. unfold holders in cc h;
        done = λ h. ground (arith, c, h);
        covered = λ lt w. ground (arith, q);
      };
  wanted_total = refl;
  wanted_completed = refl;
  counters = length-replicate total 0;
}
