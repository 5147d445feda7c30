-- ===== src/Manager/Pick.antt =====
-- The search of `next_work_for` finds a rarest piece among those that the peer has.
use tortor.Prelude.{
  ℕ, zero, suc, ◌+◌, ◌≤◌, ◌<◌, ◌≡◌, ◌⊎◌, refl, sym, ap, ◌∙◌, inl, inr, Bool, true, false, Option,
  none, some, List, [], ◌∷◌, ltb, ◌==◌, Bool-cases, ==→≡, get_elem?, get_or, drop, arith,
}
use tortor.Prelude.Sets.{contains}
use tortor.Manager.{Best, consider, pick}

drop_next :
    (all : List ℕ) (pos x : ℕ) (xs : List ℕ)
    → drop pos all ≡ x ∷ xs
    → (get_elem? all pos ≡ some x) × (drop (pos + 1) all ≡ xs)
drop_next [] zero x xs e = cc
drop_next [] (suc pos) x xs e = cc
drop_next (y ∷ all) zero x xs e = (ground (arith, e), ground (arith, e))
drop_next (y ∷ all) (suc pos) x xs e =
    let n : suc pos + 1 ≡ suc (pos + 1) = omega arith in rw n (drop_next all pos x xs e)

get_elem?_past : (all : List ℕ) (pos i : ℕ) → drop pos all ≡ [] → pos ≤ i → get_elem? all i ≡ none
get_elem?_past [] pos i e h = refl
get_elem?_past (y ∷ all) zero i e h = cc
get_elem?_past (y ∷ all) (suc pos) zero e h = absurd (omega arith)
get_elem?_past (y ∷ all) (suc pos) (suc i) e h = get_elem?_past all pos i e (omega arith)

index_of : (s : List ℕ) (q : ℕ) → contains q s ≡ true → (i : ℕ) × (get_elem? s i ≡ some q)
index_of [] q e = cc
index_of (x ∷ s) q e = elim (Bool-cases (q == x)) [
  | inl same ↦ (0, ground (arith, same))
  | inr other ↦ let found = index_of s q (ground arith) in (suc found.0, found.1)
]

module _ (peer_has : ℕ → Bool) (availability : List ℕ) (all : List ℕ) where
  abbrev pub avail_of : ℕ → ℕ
  avail_of q = get_or availability q 0

  -- What the best piece is, among the first `pos` of the queue.
  abbrev BestOf : ℕ → Option Best → Type 0
  BestOf pos none = (i q : ℕ) → i < pos → get_elem? all i ≡ some q → peer_has q ≡ false
  BestOf pos (some b) =
      ((q : ℕ) × (get_elem? all b.pos ≡ some q) × (peer_has q ≡ true) × (avail_of q ≡ b.avail))
      × ((i q : ℕ) → i < pos → get_elem? all i ≡ some q → peer_has q ≡ true → b.avail ≤ avail_of q)

  -- A position below `pos + 1` is below `pos`, or holds the piece at `pos`.
  below_next :
      (pos piece i q : ℕ)
      → get_elem? all pos ≡ some piece
      → i < pos + 1
      → get_elem? all i ≡ some q
      → (i < pos) ⊎ (q ≡ piece)
  below_next pos piece i q e h at = elim (Bool-cases (i == pos)) [
    | inl same ↦
        let eq : i ≡ pos = ==→≡ i pos same in inr (cc (ap (λ n. get_elem? all n) eq, at, e))
    | inr other ↦ inl (ground arith)
  ]

  BestOf-skip :
      (pos piece : ℕ) (best : Option Best)
      → get_elem? all pos ≡ some piece
      → peer_has piece ≡ false
      → BestOf pos best
      → BestOf (pos + 1) best
  BestOf-skip pos piece none e no_piece b = λ i q h at. elim (below_next pos piece i q e h at) [
    | inl low ↦ b i q low at
    | inr same ↦ ap peer_has same ∙ no_piece
  ]
  BestOf-skip pos piece (some c) e no_piece b = (
    b.0,
    λ i q h at has. elim (below_next pos piece i q e h at) [
      | inl low ↦ b.1 i q low at has
      | inr same ↦ cc (ap peer_has same)
    ],
  )

  consider-cases :
      (coin : ℕ → ℕ → Bool) (pos avail : ℕ) (c : Best)
      → let r = consider coin peer_has availability pos avail (some c) in
        ((r.pos ≡ c.pos) × (r.avail ≡ c.avail) × (c.avail ≤ avail))
        ⊎ ((r.pos ≡ pos) × (r.avail ≡ avail) × (avail ≤ c.avail))
  unfolding consider
  consider-cases coin pos avail c = elim (Bool-cases (ltb c.avail avail)) [
    | inl more ↦ rw more (inl (refl, refl, ground arith))
    | inr not_more ↦ elim (Bool-cases (avail == c.avail)) [
      | inl tie ↦ elim (Bool-cases (coin pos (c.ties + 1))) [
        | inl swap ↦ rw (not_more, tie, swap) (inr (refl, refl, ground arith))
        | inr keep ↦ rw (not_more, tie, keep) (inl (refl, refl, ground arith))
      ]
      | inr less ↦ rw (not_more, less) (inr (refl, refl, ground arith))
    ]
  ]

  BestOf-consider :
      (coin : ℕ → ℕ → Bool) (pos piece : ℕ) (best : Option Best)
      → get_elem? all pos ≡ some piece
      → peer_has piece ≡ true
      → BestOf pos best
      → BestOf (pos + 1) (some (consider coin peer_has availability pos (avail_of piece) best))
  unfolding consider
  BestOf-consider coin pos piece none e has b = (
    (piece, e, has, refl),
    λ i q h at hq. elim (below_next pos piece i q e h at) [
      | inl low ↦ cc (b i q low at)
      | inr same ↦ rw same (omega arith)
    ],
  )
  BestOf-consider coin pos piece (some c) e has b =
      elim (consider-cases coin pos (avail_of piece) c) [
        | inl (at, same, le) ↦ (
          (b.0.0, rw at b.0.1, b.0.2, b.0.3 ∙ sym same),
          λ i q h hi hq. elim (below_next pos piece i q e h hi) [
            | inl low ↦ rw same (b.1 i q low hi hq)
            | inr is_piece ↦ rw (same, is_piece) le
          ],
        )
        | inr (at, same, le) ↦ (
          (piece, rw at e, has, sym same),
          λ i q h hi hq. elim (below_next pos piece i q e h hi) [
            | inl low ↦ rw same (let old = b.1 i q low hi hq in omega arith)
            | inr is_piece ↦ rw (same, is_piece) (omega arith)
          ],
        )
      ]

  pick-BestOf :
      (coin : ℕ → ℕ → Bool) (pieces : List ℕ) (pos : ℕ) (best : Option Best)
      → drop pos all ≡ pieces
      → BestOf pos best
      → (end : ℕ) × (drop end all ≡ [])
        × BestOf end (pick coin peer_has availability pos pieces best)
  unfolding pick
  pick-BestOf coin [] pos best e b = (pos, e, b)
  pick-BestOf coin (piece ∷ pieces) pos best e b =
      let here = drop_next all pos piece pieces e in
      elim (Bool-cases (peer_has piece)) [
        | inl has ↦ rw has (
            pick-BestOf coin pieces (pos + 1) _ here.1
              (BestOf-consider coin pos piece best here.0 has b))
        | inr no_piece ↦ rw no_piece (
            pick-BestOf coin pieces (pos + 1) best here.1
              (BestOf-skip pos piece best here.0 no_piece b))
      ]

  lt_end : (end i q : ℕ) → drop end all ≡ [] → get_elem? all i ≡ some q → i < end
  lt_end end i q e at = elim (Bool-cases (ltb i end)) [
    | inl low ↦ ground arith
    | inr high ↦ cc (get_elem?_past all end i e (ground arith), at)
  ]

  -- The search over the whole queue: a piece that the peer has and that no piece of the queue that
  -- the peer has is rarer than; or nothing, if the peer has none of them.
  abbrev pub Rarest : Option Best → Type 0
  Rarest none = (q : ℕ) → contains q all ≡ true → peer_has q ≡ false
  Rarest (some b) =
      (p : ℕ) × (get_elem? all b.pos ≡ some p)
      × (peer_has p ≡ true)
      × ((q : ℕ) → contains q all ≡ true → peer_has q ≡ true → avail_of p ≤ avail_of q)

  Rarest-BestOf : (end : ℕ) (best : Option Best) → drop end all ≡ [] → BestOf end best → Rarest best
  Rarest-BestOf end none e b =
      λ q h. let at = index_of all q h in b at.0 q (lt_end end at.0 q e at.1) at.1
  Rarest-BestOf end (some c) e b = (
    b.0.0,
    b.0.1,
    b.0.2,
    λ q h hq. let at = index_of all q h in rw b.0.3 (b.1 at.0 q (lt_end end at.0 q e at.1) at.1 hq),
  )

  pub pick-Rarest : (coin : ℕ → ℕ → Bool) → Rarest (pick coin peer_has availability 0 all none)
  pick-Rarest coin =
      let run = pick-BestOf coin all 0 none refl (λ i q h at. absurd (omega arith)) in
      Rarest-BestOf run.0 _ run.1 run.2
