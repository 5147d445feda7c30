-- ===== src/Manager/Returns.antt =====
-- Work that comes back, and pieces put in progress, keep the manager well formed.
use tortor.Prelude.{
  ℕ, ◌-◌, ◌≤◌, ◌<◌, ◌≡◌, refl, ap, inl, inr, false, not, ◌&&◌, Option, none, some, ◌==◌, Bool-cases,
  ==→≡, arith,
}
use tortor.Prelude.Sets.{contains}
use tortor.Manager.{
  TorrentManager, holders, put, is_wanted, max_endgame_holders, release, return_work,
}
use tortor.Manager.Store.{
  holders-remove_key, holders-put, remove_key-Distinct, put-Distinct, contains-snoc, snoc-NoDup,
}
use tortor.Manager.Invariant.{IsValid}

pub release-IsValid :
    (p n : ℕ) (m : TorrentManager)
    → IsValid m
    → holders p m.in_progress ≡ some n
    → IsValid (release p m)
unfolding release
release-IsValid p n m v h =
    let mine = (v.pieces p).held n h in
    let absent : contains p m.missing ≡ false = elim (Bool-cases (contains p m.missing)) [
      | inl there ↦ cc (((v.pieces p).queued there).2, h)
      | inr not_there ↦ not_there
    ] in
    elim (Bool-cases (not (contains p m.completed) && is_wanted m p)) [
      | inl again ↦ simp again (record {
        queue_distinct = snoc-NoDup m.missing p v.queue_distinct absent;
        keys_distinct = remove_key-Distinct p m.in_progress v.keys_distinct;
        completed_distinct = v.completed_distinct;
        pieces = λ q.
            let ok = v.pieces q in
            let k = holders-remove_key p q m.in_progress in
            let c = contains-snoc m.missing p q in
            record {
              queued = λ i. elim (Bool-cases (q == p)) [
                | inl same ↦
                    let e : q ≡ p = ==→≡ q p same in
                    (rw e mine.0, rw e (ground (arith, again)), ground (arith, k))
                | inr other ↦
                    let was = ok.queued (ground (arith, c, i)) in
                    (was.0, was.1, ground (arith, k, was.2))
              ];
              fresh = λ d i. elim (Bool-cases (q == p)) [
                | inl same ↦ let e : q ≡ p = ==→≡ q p same in rw e (ground (arith, again))
                | inr other ↦ ok.fresh d (ground (arith, c, i))
              ];
              held = λ k' i. ok.held k' (ground (arith, k, i));
              done = ok.done;
              covered = λ lt w. ground (arith, ok.covered lt w, k, c);
            };
        wanted_total = v.wanted_total;
        wanted_completed = v.wanted_completed;
        counters = v.counters;
      })
      | inr dropped ↦ simp dropped (record {
        queue_distinct = v.queue_distinct;
        keys_distinct = remove_key-Distinct p m.in_progress v.keys_distinct;
        completed_distinct = v.completed_distinct;
        pieces = λ q.
            let ok = v.pieces q in
            let k = holders-remove_key p q m.in_progress in
            record {
              queued = λ i. let was = ok.queued i in (was.0, was.1, ground (arith, k, was.2));
              fresh = ok.fresh;
              held = λ k' i. ok.held k' (ground (arith, k, i));
              done = ok.done;
              covered = λ lt w. elim (Bool-cases (q == p)) [
                | inl same ↦
                    let e : q ≡ p = ==→≡ q p same in ground (arith, rw e at w, dropped, mine.3)
                | inr other ↦ ground (arith, ok.covered lt w, k)
              ];
            };
        wanted_total = v.wanted_total;
        wanted_completed = v.wanted_completed;
        counters = v.counters;
      })
    ]

-- The count of a held piece changes within its bounds.
pub put-IsValid :
    (p n k : ℕ) (m : TorrentManager)
    → IsValid m
    → holders p m.in_progress ≡ some n
    → 0 < k
    → k ≤ max_endgame_holders
    → IsValid (record m { in_progress = put p k m.in_progress })
put-IsValid p n k m v h pos le =
    let mine = (v.pieces p).held n h in
    record {
      queue_distinct = v.queue_distinct;
      keys_distinct = put-Distinct p k m.in_progress v.keys_distinct;
      completed_distinct = v.completed_distinct;
      pieces = λ q.
          let ok = v.pieces q in
          let e = holders-put p k q m.in_progress in
          record {
            queued = λ i. elim (Bool-cases (q == p)) [
              | inl same ↦
                  let eq : q ≡ p = ==→≡ q p same in
                  cc ((ok.queued i).2, ap (λ r. holders r m.in_progress) eq, h)
              | inr other ↦ let was = ok.queued i in (was.0, was.1, ground (arith, e, was.2))
            ];
            fresh = ok.fresh;
            held = λ j i. elim (Bool-cases (q == p)) [
              | inl same ↦
                  let eq : q ≡ p = ==→≡ q p same in
                  let count : k ≡ j = ground (arith, e, i) in
                  (rw eq mine.0, rw (← count) pos, rw (← count) le, rw eq mine.3)
              | inr other ↦ ok.held j (ground (arith, e, i))
            ];
            done = ok.done;
            covered = λ lt w. ground (arith, ok.covered lt w, e);
          };
      wanted_total = v.wanted_total;
      wanted_completed = v.wanted_completed;
      counters = v.counters;
    }

pub return_work-IsValid : (p : ℕ) (m : TorrentManager) → IsValid m → IsValid (return_work p m)
unfolding return_work
return_work-IsValid p m v = by_count (holders p m.in_progress) refl
  where
    by_count : (o : Option ℕ) → holders p m.in_progress ≡ o → IsValid (return_work p m)
    by_count none e = rw (e, return_work) v
    by_count (some n) e = elim (Bool-cases (n - 1 == 0)) [
      | inl last ↦ rw (e, return_work, last) (release-IsValid p n m v e)
      | inr more ↦
          rw (e, return_work, more)
            (let mine = (v.pieces p).held n e in
              put-IsValid p n (n - 1) m v e (ground (arith, more)) (omega arith))
    ]
