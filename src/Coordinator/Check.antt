-- ===== src/Coordinator/Check.antt =====
-- The check of stored files ends, and finds exactly the pieces that are stored and match.
use tortor.Prelude.{
  ℕ, zero, suc, ◌⊎◌, ◌↔◌, ◌+◌, ◌≤◌, ◌<◌, ◌≡◌, refl, ap, inl, inr, Bool, true, false, ◌&&◌, ◌||◌,
  Option, List, leb, ltb, ◌==◌, ==→≡, Bool-cases, arith,
}
use tortor.Prelude.Sets.{contains, contains-insert}
use tortor.Manager
use tortor.Manager.{TorrentManager}
use tortor.Bencode.Meta.{RawInfo}
use tortor.Coordinator.{
  Checking, Downloading, CoordinatorState, checking_files, downloading_data, World,
}
use tortor.Coordinator.Loop.{check_len, verified, checked, check_piece, after_check, check_tick}
use tortor.Coordinator.Stored.{IsTiled, IsStored, verified_iff}
use tortor.Coordinator.Invariant.{mark_completed-total}

mark_completed-selection :
    (p : ℕ) (m : TorrentManager) → (Manager.mark_completed p m).selection ≡ m.selection
unfolding Manager.mark_completed
mark_completed-selection p m = elim (Bool-cases (leb m.total_pieces p)) [
  | inl out ↦ simp out refl
  | inr inside ↦ elim (Bool-cases (contains p m.completed)) [
    | inl there ↦ simp (inside, there) refl
    | inr fresh ↦ simp (inside, fresh) refl
  ]
]

contains-mark_completed :
    (p q : ℕ) (m : TorrentManager)
    → p < m.total_pieces
    → contains q (Manager.mark_completed p m).completed ≡ (contains q m.completed || q == p)
unfolding Manager.mark_completed
contains-mark_completed p q m lt = elim (Bool-cases (contains p m.completed)) [
  | inl there ↦ elim (Bool-cases (q == p)) [
    | inl same ↦ let e : q ≡ p = ==→≡ q p same in rw e (ground (arith, there))
    | inr other ↦ ground (arith, there, other)
  ]
  | inr fresh ↦ ground (arith, fresh, contains-insert p q m.completed)
]

module _ (windows : Bool) (hash_sha1 : List ℕ → List ℕ) (decode : List ℕ → Option RawInfo) where
  -- Whether a piece is wanted, stored and has the expected hash.
  abbrev is_stored : World → Checking → ℕ → Bool
  is_stored w c p = verified windows hash_sha1 decode w (record c { next_piece = p })

  unfoldable pub ticks : ℕ → World → CoordinatorState → CoordinatorState
  unfolding check_tick
  ticks zero w s = s
  ticks (suc n) w s = ticks n w (check_tick windows hash_sha1 decode w s).state

  data Verified (w : World) (c : Checking) : CoordinatorState → Type 0 where
    found_by :
        {d : Downloading}
        → d.paused ≡ false
        → d.has_completed ≡ Manager.is_done d.manager
        → ((p : ℕ)
            → contains p d.manager.completed ≡ (
                contains p c.manager.completed
                || leb c.next_piece p && ltb p c.manager.total_pieces && is_stored w c p))
        → Verified w c (downloading_data d)

  is_stored-checked :
      (w : World) (b : Bool) (c : Checking) (p : ℕ) → is_stored w (checked b c) p ≡ is_stored w c p
  unfolding verified check_len checked
  is_stored-checked w false c p = refl
  is_stored-checked w true c p =
      rw
        (
          mark_completed-selection c.next_piece c.manager,
          mark_completed-total c.next_piece c.manager,
        )
        refl

  contains-checked :
      (w : World) (b : Bool) (c : Checking) (p : ℕ)
      → c.next_piece < c.manager.total_pieces
      → contains p (checked b c).manager.completed
        ≡ (contains p c.manager.completed || p == c.next_piece && b)
  unfolding checked
  contains-checked w true c p lt =
      ground (arith, contains-mark_completed c.next_piece p c.manager lt)
  contains-checked w false c p lt = ground arith

  total-checked :
      (b : Bool) (c : Checking) → (checked b c).manager.total_pieces ≡ c.manager.total_pieces
  unfolding checked
  total-checked true c = mark_completed-total c.next_piece c.manager
  total-checked false c = refl

  next-checked : (b : Bool) (c : Checking) → (checked b c).next_piece ≡ c.next_piece + 1
  unfolding checked
  next-checked b c = refl

  -- One piece is checked, and the rest is found_by from there.
  Verified-checked :
      (w : World) (c : Checking) (s : CoordinatorState)
      → c.next_piece < c.manager.total_pieces
      → Verified w (checked (is_stored w c c.next_piece) c) s
      → Verified w c s
  Verified-checked w c (tortor.Coordinator.downloading_metadata _) lt x = elim x [ ]
  Verified-checked w c (checking_files _) lt x = elim x [ ]
  Verified-checked w c (downloading_data d) lt (found_by running done found) =
      found_by running done (λ p.
        let b = is_stored w c c.next_piece in
        let more = is_stored-checked w b c p in
        let one = contains-checked w b c p lt in
        let total = total-checked b c in
        let next = next-checked b c in
        let here = found p in
        elim (Bool-cases (p == c.next_piece)) [
          | inl same ↦
              let e : p ≡ c.next_piece = ==→≡ p c.next_piece same in
              let own : is_stored w c p ≡ b = ap (is_stored w c) e in
              ground (arith, here, more, one, total, next, same, own, lt)
          | inr other ↦ ground (arith, here, more, one, total, next, other, lt)
        ])

  after_check-Verified :
      (w : World) (c : Checking)
      → c.manager.total_pieces ≤ c.next_piece
      → Verified w c (after_check c).state
  unfolding after_check
  after_check-Verified w c le = found_by refl refl (λ p. ground (arith, le))

  check_tick_last :
      (w : World) (c : Checking)
      → c.next_piece + 1 ≡ c.manager.total_pieces
      → (check_tick windows hash_sha1 decode w (checking_files c)).state
        ≡ (after_check (checked (is_stored w c c.next_piece) c)).state
  unfolding check_tick check_piece checked
  check_tick_last w c e =
      let inside : leb c.manager.total_pieces c.next_piece ≡ false = ground (arith, e) in
      let last : leb c.manager.total_pieces (c.next_piece + 1) ≡ true = ground (arith, e) in
      rw (inside, last) refl

  check_tick_more :
      (w : World) (c : Checking)
      → c.next_piece + 1 < c.manager.total_pieces
      → (check_tick windows hash_sha1 decode w (checking_files c)).state
        ≡ checking_files (checked (is_stored w c c.next_piece) c)
  unfolding check_tick check_piece checked
  check_tick_more w c e =
      let inside : leb c.manager.total_pieces c.next_piece ≡ false = ground (arith, e) in
      let more : leb c.manager.total_pieces (c.next_piece + 1) ≡ false = ground (arith, e) in
      rw (inside, more) refl

  -- The check is over after as many ticks as there are pieces left.
  ticks-Verified :
      (n : ℕ) (w : World) (c : Checking)
      → n + c.next_piece + 1 ≡ c.manager.total_pieces
      → Verified w c (ticks (suc n) w (checking_files c))
  unfolding ticks
  ticks-Verified zero w c left =
      let c' = checked (is_stored w c c.next_piece) c in
      let over : c'.manager.total_pieces ≤ c'.next_piece = omega (
        arith,
        left,
        total-checked (is_stored w c c.next_piece) c,
        next-checked (is_stored w c c.next_piece) c,
      ) in
      rw (check_tick_last w c (omega (arith, left)))
        (Verified-checked w c _ (omega (arith, left)) (after_check-Verified w c' over))
  ticks-Verified (suc n) w c left =
      let b = is_stored w c c.next_piece in
      rw (check_tick_more w c (omega (arith, left))) (
        Verified-checked w c _ (omega (arith, left)) (
          ticks-Verified n w (checked b c)
            (omega (arith, left, total-checked b c, next-checked b c))))

  -- Downloading after a check of the pieces from `c.next_piece` on.
  pub data Settled (w : World) (c : Checking) : CoordinatorState → Type 0 where
    settled :
        {d : Downloading}
        → d.paused ≡ false
        → d.has_completed ≡ Manager.is_done d.manager
        → ((p : ℕ)
            → (contains p d.manager.completed ≡ true) ↔ (
                (contains p c.manager.completed ≡ true)
                ⊎ ((c.next_piece ≤ p) × (p < c.manager.total_pieces) × IsStored hash_sha1 w c p)))
        → Settled w c (downloading_data d)

  Verified-Settled :
      (w : World) (c : Checking) (s : CoordinatorState) → IsTiled c → Verified w c s → Settled w c s
  Verified-Settled w c (tortor.Coordinator.downloading_metadata _) t x = elim x [ ]
  Verified-Settled w c (checking_files _) t x = elim x [ ]
  Verified-Settled w c (downloading_data d) t (found_by running done found) =
      settled running done (λ p. (
        λ there. elim (Bool-cases (contains p c.manager.completed)) [
          | inl before ↦ inl before
          | inr not_before ↦
              let here = found p in
              let lt : p < c.manager.total_pieces = ground (arith, here, there, not_before) in
              let checks : is_stored w c p ≡ true = ground (arith, here, there, not_before) in
              inr (
                ground (arith, here, there, not_before),
                lt,
                (verified_iff windows hash_sha1 decode w c p t lt).0 checks,
              )
        ],
        λ which. elim which [
          | inl before ↦ let here = found p in ground (arith, here, before)
          | inr (le, lt, s) ↦
              let here = found p in
              let checks = (verified_iff windows hash_sha1 decode w c p t lt).1 s in
              ground (arith, here, le, lt, checks)
        ],
      ))

  -- With `n` pieces left after the next one, the check is over after `n + 1` ticks of the timer, and
  -- the torrent is downloading: what was completed still is, and of the pieces that were not checked
  -- before exactly those are completed that are wanted, of which the disk gives all bytes, and whose
  -- bytes have the expected hash. Here the pieces are those of the data.
  pub ticks-Settled :
      (n : ℕ) (w : World) (c : Checking)
      → n + c.next_piece + 1 ≡ c.manager.total_pieces
      → IsTiled c
      → Settled w c (ticks (suc n) w (checking_files c))
  ticks-Settled n w c left t = Verified-Settled w c _ t (ticks-Verified n w c left)
