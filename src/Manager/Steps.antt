-- ===== src/Manager/Steps.antt =====
-- Every operation of the manager but `next_work_for` keeps the invariant.
use tortor.Prelude.{
  ℕ, ◌+◌, ◌-◌, ◌≡◌, refl, sym, ap, ◌∙◌, inl, inr, Bool, false, not, ◌&&◌, List, [], ◌∷◌,
  if◌then◌else◌, leb, ◌==◌, Bool-cases, ==→≡, length, filterb, length-set, arith,
}
use tortor.Prelude.Sets.{
  contains, insert, contains-filter_range, filter_range-NoDup, contains-insert, insert-NoDup,
}
use tortor.Bitfield
use tortor.Bitfield.{Bitfield}
use tortor.Selection.{Selection}
use tortor.Manager.{
  TorrentManager, contains_key, is_wanted, wanted_in, refresh, mark_completed, apply_selection,
  add_peer_pieces, remove_peer_pieces, add_peer_piece, update_each, update_at, saturating_inc,
  remove_all,
}
use tortor.Manager.Store.{
  holders-remove_key, remove_key-Distinct, contains-filterb, filterb-NoDup, contains-remove_all,
  remove_all-NoDup,
}
use tortor.Manager.Invariant.{IsValid}

pub refresh-IsValid : (m : TorrentManager) → IsValid m → IsValid (refresh m)
unfolding refresh
refresh-IsValid m v = elim (Bool-cases m.missing_dirty) [
  | inr clean ↦ simp clean v
  | inl dirty ↦ rw dirty (record {
    queue_distinct = filterb-NoDup _ m.missing v.queue_distinct;
    keys_distinct = v.keys_distinct;
    completed_distinct = v.completed_distinct;
    pieces = λ p.
        let q = contains-filterb (λ p. not (contains p m.completed)) p m.missing in
        let old = v.pieces p in
        record {
          queued = λ h. old.queued (ground (arith, q, h));
          fresh = λ d h. ground (arith, q, h);
          held = old.held;
          done = old.done;
          covered = λ lt w. ground (arith, q, old.covered lt w);
        };
    wanted_total = v.wanted_total;
    wanted_completed = v.wanted_completed;
    counters = v.counters;
  })
]

filterb-insert :
    (test : ℕ → Bool) (p : ℕ) (s : List ℕ)
    → contains p s ≡ false
    → length (filterb test (insert p s))
      ≡ (if test p then length (filterb test s) + 1 else length (filterb test s))
unfolding insert
filterb-insert test p s h = rw h (ground arith)

-- A piece is completed: nobody holds it any more, and it counts if it is wanted.
pub mark_completed-IsValid : (p : ℕ) (m : TorrentManager) → IsValid m → IsValid (mark_completed p m)
unfolding mark_completed
mark_completed-IsValid p m v = elim (Bool-cases (leb m.total_pieces p)) [
  | inl out ↦ simp out v
  | inr inside ↦ elim (Bool-cases (contains p m.completed)) [
    | inl old ↦
        simp (inside, old)
          (record {
            queue_distinct = v.queue_distinct;
            keys_distinct = remove_key-Distinct p m.in_progress v.keys_distinct;
            completed_distinct = v.completed_distinct;
            pieces = λ q.
                let ok = v.pieces q in
                let k = holders-remove_key p q m.in_progress in
                record {
                  queued = λ h. ground (arith, ok.queued h, k);
                  fresh = ok.fresh;
                  held = λ n h. ok.held n (ground (arith, k, h));
                  done = ok.done;
                  covered = λ lt w. elim (Bool-cases (q == p)) [
                    | inl same ↦ let e : q ≡ p = ==→≡ q p same in rw e (ground (arith, old))
                    | inr other ↦ ground (arith, ok.covered lt w, k)
                  ];
                };
            wanted_total = v.wanted_total;
            wanted_completed = v.wanted_completed;
            counters = v.counters;
          })
    | inr fresh ↦
        simp (inside, fresh)
          (record {
            queue_distinct = v.queue_distinct;
            keys_distinct = remove_key-Distinct p m.in_progress v.keys_distinct;
            completed_distinct = insert-NoDup p m.completed v.completed_distinct;
            pieces = λ q.
                let ok = v.pieces q in
                let k = holders-remove_key p q m.in_progress in
                let c = contains-insert p q m.completed in
                record {
                  queued = λ h. ground (arith, ok.queued h, k);
                  fresh = λ d h. cc d;
                  held = λ n h. elim (Bool-cases (q == p)) [
                    | inl same ↦ ground (arith, k, h)
                    | inr other ↦
                        let was = ok.held n (ground (arith, k, h)) in ground (arith, was, c)
                  ];
                  done = λ h. elim (Bool-cases (q == p)) [
                    | inl same ↦ ground arith
                    | inr other ↦ ok.done (ground (arith, c, h))
                  ];
                  covered = λ lt w. ground (arith, ok.covered lt w, k, c);
                };
            wanted_total = v.wanted_total;
            wanted_completed =
                ap (λ n. if is_wanted m p then n + 1 else n) v.wanted_completed
                ∙ sym (filterb-insert (is_wanted m) p m.completed fresh);
            counters = v.counters;
          })
  ]
]

pub apply_selection-IsValid :
    (s : Selection) (refetch : Bitfield) (m : TorrentManager)
    → IsValid m
    → IsValid (apply_selection s refetch m)
unfolding apply_selection
apply_selection-IsValid s refetch m v = record {
  queue_distinct = filter_range-NoDup 0 m.total_pieces _;
  keys_distinct = v.keys_distinct;
  completed_distinct =
      remove_all-NoDup (Bitfield.iter_ones refetch) m.completed v.completed_distinct;
  pieces = λ q.
      let ok = v.pieces q in
      let gone = contains-remove_all (Bitfield.iter_ones refetch) m.completed q in
      let c =
        contains-filter_range 0 m.total_pieces
          (λ p.
            wanted_in s p
            && (not (contains p (remove_all (Bitfield.iter_ones refetch) m.completed))
                && not (contains_key p m.in_progress)))
          q in
      record {
        queued = λ i. (ground (arith, c, i), ground (arith, c, i), ground (arith, c, i));
        fresh = λ d i. ground (arith, c, i);
        held = λ n i. let was = ok.held n i in (was.0, was.1, was.2, ground (arith, gone, was.3));
        done = λ i. ok.done (ground (arith, gone, i));
        covered = λ lt w. ground (arith, c);
      };
  wanted_total = refl;
  wanted_completed = refl;
  counters = v.counters;
}

length-update_each : (f : ℕ → ℕ) (xs is : List ℕ) → length (update_each f xs is) ≡ length xs
length-update_each f xs [] = refl
length-update_each f xs (i ∷ is) = length-update_each f (update_at f xs i) is ∙ length-set xs i _

-- The availability counters change, and nothing else.
recount-IsValid :
    (m : TorrentManager) (counters : List ℕ)
    → length counters ≡ length m.availability
    → IsValid m
    → IsValid (record m { availability = counters })
recount-IsValid m counters e v = record {
  queue_distinct = v.queue_distinct;
  keys_distinct = v.keys_distinct;
  completed_distinct = v.completed_distinct;
  pieces = λ p.
      let ok = v.pieces p in
      record {
        queued = ok.queued;
        fresh = ok.fresh;
        held = ok.held;
        done = ok.done;
        covered = ok.covered;
      };
  wanted_total = v.wanted_total;
  wanted_completed = v.wanted_completed;
  counters = e ∙ v.counters;
}

pub add_peer_pieces-IsValid :
    (f : Bitfield) (m : TorrentManager) → IsValid m → IsValid (add_peer_pieces f m)
unfolding add_peer_pieces
add_peer_pieces-IsValid f m =
    recount-IsValid m _ (length-update_each saturating_inc m.availability (Bitfield.iter_ones f))

pub remove_peer_pieces-IsValid :
    (f : Bitfield) (m : TorrentManager) → IsValid m → IsValid (remove_peer_pieces f m)
unfolding remove_peer_pieces
remove_peer_pieces-IsValid f m =
    recount-IsValid m _ (length-update_each (λ n. n - 1) m.availability (Bitfield.iter_ones f))

pub add_peer_piece-IsValid : (i : ℕ) (m : TorrentManager) → IsValid m → IsValid (add_peer_piece i m)
unfolding add_peer_piece
add_peer_piece-IsValid i m = recount-IsValid m _ (length-set m.availability i _)
