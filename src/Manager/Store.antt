-- ===== src/Manager/Store.antt =====
-- The queue and the holder map of the manager, by membership and lookup.
use tortor.Prelude.{
  ℕ, ◌≤◌, ◌<◌, zero, suc, ◌≡◌, refl, sym, ap, ◌∙◌, inl, inr, Bool, true, false, not, ◌&&◌, ◌||◌,
  Option, none, some, List, [], ◌∷◌, ◌++◌, if◌then◌else◌, ltb, ◌==◌, Bool-cases, ==→≡, get_elem?,
  filterb, arith,
}
use tortor.Prelude.Sets.{
  contains, remove, NoDup, contains-insert, contains-remove, remove-NoDup, insert-NoDup,
}
use tortor.Manager.{
  HolderMap, holders, remove_key, put, remove_at, collect_below, candidate, shareable, before,
  smaller, remove_all,
}

pub holders-remove_key :
    (p q : ℕ) (m : HolderMap) → holders q (remove_key p m) ≡ (if q == p then none else holders q m)
unfolding holders remove_key
holders-remove_key p q [] = ground arith
holders-remove_key p q ((r, n) ∷ m) = ground (arith, holders-remove_key p q m)

pub holders-put :
    (p n q : ℕ) (m : HolderMap) → holders q (put p n m) ≡ (if q == p then some n else holders q m)
unfolding holders put
holders-put p n q m = ground (arith, holders-remove_key p q m)

-- No key stands twice.
abbrev pub Distinct : HolderMap → Type 0
Distinct [] = Unit
Distinct ((p, n) ∷ m) = (holders p m ≡ none) × Distinct m

pub remove_key-Distinct : (p : ℕ) (m : HolderMap) → Distinct m → Distinct (remove_key p m)
unfolding remove_key
remove_key-Distinct p [] d = tt
remove_key-Distinct p ((q, n) ∷ m) d = elim (Bool-cases (p == q)) [
  | inl same ↦ rw same (remove_key-Distinct p m d.1)
  | inr other ↦
      rw other (holders-remove_key p q m ∙ ground (arith, d.0), remove_key-Distinct p m d.1)
]

pub put-Distinct : (p n : ℕ) (m : HolderMap) → Distinct m → Distinct (put p n m)
unfolding put
put-Distinct p n m d = (holders-remove_key p p m ∙ ground arith, remove_key-Distinct p m d)

candidate_step :
    (peer_has : ℕ → Bool) (q k p n : ℕ) (m : HolderMap) (rest : Option (ℕ × ℕ))
    → holders q m ≡ none
    → ((p n : ℕ) → rest ≡ some (p, n) → (holders p m ≡ some n) × (shareable peer_has p n ≡ true))
    → (if shareable peer_has q k then some (smaller (q, k) rest) else rest) ≡ some (p, n)
    → ((if p == q then some k else holders p m) ≡ some n) × (shareable peer_has p n ≡ true)
candidate_step peer_has q k p n m none fresh ih e = ground arith
candidate_step peer_has q k p n m (some (p', n')) fresh ih e =
    elim (Bool-cases (shareable peer_has q k && not (before (p', n') (q, k)))) [
      | inl own ↦ ground arith
      | inr passed ↦
          let is_rest : some (p', n') ≡ some (p, n) = ground (arith, e, passed) in
          let found = ih p n is_rest in (ground (arith, found.0, fresh), found.1)
    ]

-- The candidate of the endgame is an entry that may be shared.
pub candidate-some :
    (peer_has : ℕ → Bool) (m : HolderMap) (p n : ℕ)
    → Distinct m
    → candidate peer_has m ≡ some (p, n)
    → (holders p m ≡ some n) × (shareable peer_has p n ≡ true)
unfolding candidate holders
candidate-some peer_has [] p n d e = cc
candidate-some peer_has ((q, k) ∷ m) p n d e =
    candidate_step peer_has q k p n m (candidate peer_has m) d.0
      (λ p n e. candidate-some peer_has m p n d.1 e) e

-- Without a candidate, each entry of the peer has three holders.
pub candidate-none :
    (peer_has : ℕ → Bool) (m : HolderMap)
    → candidate peer_has m ≡ none
    → (q k : ℕ) → holders q m ≡ some k
    → peer_has q ≡ true
    → 3 ≤ k
unfolding candidate holders
candidate-none peer_has [] e q k h has = cc
candidate-none peer_has ((p, n) ∷ m) e q k h has =
    let rest : candidate peer_has m ≡ none = ground (arith, e) in
    let few : shareable peer_has p n ≡ false = ground (arith, e) in
    elim (Bool-cases (q == p)) [
      | inl same ↦
          let here : peer_has p ≡ true = ap peer_has (sym (==→≡ q p same)) ∙ has in
          ground (arith, same, h, few, here)
      | inr other ↦ candidate-none peer_has m rest q k (ground (arith, other, h)) has
    ]

-- No entry of the peer with less than three holders has fewer than the candidate.
pub candidate-least :
    (peer_has : ℕ → Bool) (m : HolderMap) (p n : ℕ)
    → candidate peer_has m ≡ some (p, n)
    → (q k : ℕ) → holders q m ≡ some k
    → peer_has q ≡ true
    → k < 3
    → n ≤ k
unfolding candidate holders
candidate-least peer_has [] p n e q k h has few = cc
candidate-least peer_has ((r, j) ∷ m) p n e q k h has few =
    by_rest (candidate peer_has m) refl (candidate-least peer_has m) e
  where
    here : (q == r) ≡ true → (j ≡ k) × (shareable peer_has r j ≡ true)
    here same =
        let own : peer_has r ≡ true = ap peer_has (sym (==→≡ q r same)) ∙ has in
        (ground (arith, same, h), ground (arith, same, h, own, few))

    by_rest :
        (rest : Option (ℕ × ℕ))
        → candidate peer_has m ≡ rest
        → ((p n : ℕ)
            → candidate peer_has m ≡ some (p, n)
            → (q k : ℕ) → holders q m ≡ some k
            → peer_has q ≡ true
            → k < 3
            → n ≤ k)
        → (if shareable peer_has r j then some (smaller (r, j) rest) else rest) ≡ some (p, n)
        → n ≤ k
    by_rest none c ih e = elim (Bool-cases (q == r)) [
      | inl same ↦ let own = here same in ground (arith, own, e)
      | inr other ↦
          let three = candidate-none peer_has m c q k (ground (arith, other, h)) has in
          absurd (omega (arith, three, few))
    ]
    by_rest (some (p', n')) c ih e = elim (Bool-cases (q == r)) [
      | inl same ↦ let own = here same in ground (arith, own, e)
      | inr other ↦
          let le = ih p' n' c q k (ground (arith, other, h)) has few in ground (arith, le, e)
    ]

pub contains-filterb :
    (test : ℕ → Bool) (x : ℕ) (s : List ℕ) → contains x (filterb test s) ≡ (contains x s && test x)
contains-filterb test x [] = refl
contains-filterb test x (y ∷ s) = elim (Bool-cases (x == y)) [
  | inl same ↦
      let e : x ≡ y = ==→≡ x y same in
      elim (Bool-cases (test y)) [
        | inl keep ↦ rw (e, keep, filterb) (ground (arith, contains-filterb test y s))
        | inr skip ↦ rw (e, skip, filterb) (ground (arith, contains-filterb test y s))
      ]
  | inr other ↦ ground (arith, contains-filterb test x s)
]

pub filterb-NoDup : (test : ℕ → Bool) (s : List ℕ) → NoDup s → NoDup (filterb test s)
filterb-NoDup test [] d = tt
filterb-NoDup test (x ∷ s) d = elim (Bool-cases (test x)) [
  | inl keep ↦
      rw (keep, filterb) (ground (arith, contains-filterb test x s, d.0), filterb-NoDup test s d.1)
  | inr skip ↦ rw (skip, filterb) (filterb-NoDup test s d.1)
]

pub contains-get_elem? : (s : List ℕ) (i x : ℕ) → get_elem? s i ≡ some x → contains x s ≡ true
contains-get_elem? [] i x e = cc
contains-get_elem? (y ∷ s) zero x e = ground arith
contains-get_elem? (y ∷ s) (suc i) x e = ground (arith, contains-get_elem? s i x e)

pub contains-remove_at :
    (s : List ℕ) (i x y : ℕ)
    → NoDup s
    → get_elem? s i ≡ some x
    → contains y (remove_at i s) ≡ (contains y s && not (y == x))
contains-remove_at [] i x y d e = cc
contains-remove_at (z ∷ s) zero x y d e = elim (Bool-cases (y == z)) [
  | inl same ↦ let eq : y ≡ z = ==→≡ y z same in ground (arith, d.0)
  | inr other ↦ ground arith
]
contains-remove_at (z ∷ s) (suc i) x y d e =
    ground (arith, contains-remove_at s i x y d.1 e, contains-get_elem? s i x e, d.0)

pub remove_at-NoDup : (s : List ℕ) (i : ℕ) → NoDup s → NoDup (remove_at i s)
remove_at-NoDup [] i d = tt
remove_at-NoDup (x ∷ s) zero d = d.1
remove_at-NoDup (x ∷ s) (suc i) d = (absent s i d.0, remove_at-NoDup s i d.1)
  where
    absent : (s : List ℕ) (i : ℕ) → contains x s ≡ false → contains x (remove_at i s) ≡ false
    absent [] i e = refl
    absent (y ∷ s) zero e = ground arith
    absent (y ∷ s) (suc i) e = ground (arith, absent s i)

pub contains-snoc : (s : List ℕ) (p x : ℕ) → contains x (s ++ (p ∷ [])) ≡ (contains x s || x == p)
contains-snoc [] p x = ground arith
contains-snoc (y ∷ s) p x = ground (arith, contains-snoc s p x)

pub snoc-NoDup : (s : List ℕ) (p : ℕ) → NoDup s → contains p s ≡ false → NoDup (s ++ (p ∷ []))
snoc-NoDup [] p d e = (refl, tt)
snoc-NoDup (x ∷ s) p d e =
    (ground (arith, contains-snoc s p x, d.0), snoc-NoDup s p d.1 (ground arith))

pub contains-remove_all :
    (ps s : List ℕ) (x : ℕ) → contains x (remove_all ps s) ≡ (contains x s && not (contains x ps))
contains-remove_all [] s x = ground arith
contains-remove_all (p ∷ ps) s x =
    ground (arith, contains-remove_all ps (remove p s) x, contains-remove p x s)

pub remove_all-NoDup : (ps s : List ℕ) → NoDup s → NoDup (remove_all ps s)
remove_all-NoDup [] s d = d
remove_all-NoDup (p ∷ ps) s d = remove_all-NoDup ps (remove p s) (remove-NoDup p s d)

pub contains-collect_below :
    (total : ℕ) (ps : List ℕ) (x : ℕ)
    → contains x (collect_below total ps) ≡ (contains x ps && ltb x total)
unfolding collect_below
contains-collect_below total [] x = refl
contains-collect_below total (p ∷ ps) x =
    ground (arith, contains-collect_below total ps x, contains-insert p x (collect_below total ps))

pub collect_below-NoDup : (total : ℕ) (ps : List ℕ) → NoDup (collect_below total ps)
unfolding collect_below
collect_below-NoDup total [] = tt
collect_below-NoDup total (p ∷ ps) = elim (Bool-cases (ltb p total)) [
  | inl keep ↦ rw keep (insert-NoDup p (collect_below total ps) (collect_below-NoDup total ps))
  | inr skip ↦ rw skip (collect_below-NoDup total ps)
]
