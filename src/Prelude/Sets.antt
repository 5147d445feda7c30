-- ===== src/Prelude/Sets.antt =====
-- Sets of numbers (`HashSet<u32>`) as lists without repetition, and searches over `0..n`.
use Prim.Native.Nat.{ℕ, zero, suc, ◌+◌, ◌≤◌, ◌<◌}
use mathlib.Core.Path.{◌≡◌, sym, subst}
use mathlib.Core.Logic.{inl, inr}
use mathlib.Core.Bool.{Bool, true, false, not, ◌&&◌, ◌||◌}
use mathlib.Core.Option.{Option, none, some}
use mathlib.Core.List.{List, [], ◌∷◌}
use native.Mathlib.Omega.{arith}
use tortor.Prelude.Tests.{if◌then◌else◌, ltb, leb, ◌==◌, Bool-cases, ==→≡}
use tortor.Prelude.Lists.{length, All}

abbrev pub contains : ℕ → List ℕ → Bool
contains x [] = false
contains x (y ∷ s) = x == y || contains x s

unfoldable pub insert : ℕ → List ℕ → List ℕ
insert x s = if contains x s then s else x ∷ s

-- `HashSet::remove`, and `VecDeque` or `HashMap` removals of one value.
abbrev pub remove : ℕ → List ℕ → List ℕ
remove x [] = []
remove x (y ∷ s) = if x == y then remove x s else y ∷ remove x s

abbrev pub NoDup : List ℕ → Type 0
NoDup [] = Unit
NoDup (x ∷ s) = (contains x s ≡ false) × NoDup s

pub contains-insert : (x y : ℕ) (s : List ℕ) → contains y (insert x s) ≡ (y == x || contains y s)
unfolding insert
contains-insert x y s = elim (Bool-cases (contains x s)) [
  | inl h ↦ elim (Bool-cases (y == x)) [ inl e ↦ ground arith | inr e ↦ ground arith ]
  | inr h ↦ ground arith
]

pub insert-NoDup : (x : ℕ) (s : List ℕ) → NoDup s → NoDup (insert x s)
unfolding insert
insert-NoDup x s d = elim (Bool-cases (contains x s)) [ inl h ↦ rw h d | inr h ↦ rw h (h, d) ]

pub insert-All {ℓ} : (P : ℕ → Type ℓ) (x : ℕ) (s : List ℕ) → P x → All P s → All P (insert x s)
unfolding insert
insert-All P x s p a = elim (Bool-cases (contains x s)) [ inl h ↦ rw h a | inr h ↦ rw h (p, a) ]

pub contains-remove :
    (x y : ℕ) (s : List ℕ) → contains y (remove x s) ≡ (not (y == x) && contains y s)
contains-remove x y [] = ground arith
contains-remove x y (z ∷ s) = ground (arith, contains-remove x y s)

pub remove-NoDup : (x : ℕ) (s : List ℕ) → NoDup s → NoDup (remove x s)
remove-NoDup x [] d = tt
remove-NoDup x (y ∷ s) d = elim (Bool-cases (x == y)) [
  | inl h ↦ rw h (remove-NoDup x s d.1)
  | inr h ↦ rw h (ground (arith, contains-remove x y s, d.0), remove-NoDup x s d.1)
]

pub length-remove :
    (x : ℕ) (s : List ℕ)
    → NoDup s
    → length (remove x s) + (if contains x s then 1 else 0) ≡ length s
length-remove x [] d = omega arith
length-remove x (y ∷ s) d = ground (arith, length-remove x s d.1, d.0)

pub All-contains {ℓ} : (P : ℕ → Type ℓ) (s : List ℕ) (x : ℕ) → All P s → contains x s ≡ true → P x
All-contains P [] x a h = cc
All-contains P (y ∷ s) x a h = elim (Bool-cases (x == y)) [
  | inl e ↦ subst P (sym (==→≡ x y e)) a.0
  | inr e ↦ All-contains P s x a.1 (ground arith)
]

All-lt_remove : (n : ℕ) (s : List ℕ) → All (λ x. x < suc n) s → All (λ x. x < n) (remove n s)
All-lt_remove n [] a = tt
All-lt_remove n (x ∷ s) a = elim (Bool-cases (n == x)) [
  | inl h ↦ rw h (All-lt_remove n s a.1)
  | inr h ↦ rw h (ground (arith, a.0), All-lt_remove n s a.1)
]

-- The pigeonhole principle.
pub length_le : (n : ℕ) (s : List ℕ) → NoDup s → All (λ x. x < n) s → length s ≤ n
length_le zero [] d a = omega arith
length_le zero (x ∷ s) d a = absurd (omega arith)
length_le (suc n) s d a =
    let ih = length_le n (remove n s) (remove-NoDup n s d) (All-lt_remove n s a) in
    ground (arith, length-remove n s d, ih)

-- A set of `n` numbers below `n` has every number below `n`.
pub contains_full :
    (n : ℕ) (s : List ℕ)
    → NoDup s
    → All (λ x. x < n) s
    → length s ≡ n
    → (i : ℕ) → i < n
    → contains i s ≡ true
contains_full n s d a e i h = elim (Bool-cases (contains i s)) [
  | inl y ↦ y
  | inr f ↦ absurd (omega (arith, length_le n (i ∷ s) (f, d) (h, a)))
]

pub le-length_full :
    (n : ℕ) (s : List ℕ) → NoDup s → ((i : ℕ) → i < n → contains i s ≡ true) → n ≤ length s
le-length_full zero s d f = omega arith
le-length_full (suc n) s d f =
    let ih =
      le-length_full n (remove n s) (remove-NoDup n s d)
        (λ i h. ground (arith, contains-remove n i s, f i (omega arith))) in
    ground (arith, length-remove n s d, f n (omega arith), ih)

-- `(start..start + count).find(p)`
unfoldable pub find_range : ℕ → ℕ → (ℕ → Bool) → Option ℕ
find_range start zero p = none
find_range start (suc count) p =
    let rest = find_range (suc start) count p in if p start then some start else rest

pub find_range-some :
    (start count : ℕ) (p : ℕ → Bool) (r : ℕ)
    → find_range start count p ≡ some r
    → (start ≤ r) × (r < start + count) × (p r ≡ true)
unfolding find_range
find_range-some start zero p r e = cc
find_range-some start (suc count) p r e = elim (Bool-cases (p start)) [
  | inl h ↦ ground arith
  | inr h ↦
      let ih = find_range-some (suc start) count p r (ground arith) in
      (omega arith, omega arith, ih.2)
]

-- Nothing before the result passes the test.
pub find_range_first :
    (start count : ℕ) (p : ℕ → Bool) (r : ℕ)
    → find_range start count p ≡ some r
    → (i : ℕ) → start ≤ i
    → i < r
    → p i ≡ false
unfolding find_range
find_range_first start zero p r e i lo hi = cc
find_range_first start (suc count) p r e i lo hi = elim (Bool-cases (p start)) [
  | inl h ↦ ground arith
  | inr h ↦ elim (Bool-cases (start == i)) [
    | inl same ↦ let eq : start ≡ i = ==→≡ start i same in rw (← eq) h
    | inr other ↦ find_range_first (suc start) count p r (ground arith) i (ground arith) hi
  ]
]

pub find_range-none :
    (start count : ℕ) (p : ℕ → Bool)
    → find_range start count p ≡ none
    → (i : ℕ) → start ≤ i
    → i < start + count
    → p i ≡ false
unfolding find_range
find_range-none start zero p e i lo hi = absurd (omega arith)
find_range-none start (suc count) p e i lo hi = elim (Bool-cases (p start)) [
  | inl h ↦ ground arith
  | inr h ↦ elim (Bool-cases (start == i)) [
    | inl same ↦ let eq : start ≡ i = ==→≡ start i same in rw (← eq) h
    | inr other ↦ find_range-none (suc start) count p (ground arith) i (ground arith) (omega arith)
  ]
]

-- `(start..start + count).filter(p)`, in order.
unfoldable pub filter_range : ℕ → ℕ → (ℕ → Bool) → List ℕ
filter_range start zero p = []
filter_range start (suc count) p =
    let rest = filter_range (suc start) count p in if p start then start ∷ rest else rest

pub contains-filter_range :
    (start count : ℕ) (p : ℕ → Bool) (i : ℕ)
    → contains i (filter_range start count p) ≡ (leb start i && ltb i (start + count) && p i)
unfolding filter_range
contains-filter_range start zero p i = ground arith
contains-filter_range start (suc count) p i = elim (Bool-cases (i == start)) [
  | inl same ↦
      let eq : i ≡ start = ==→≡ i start same in
      rw eq (ground (arith, contains-filter_range (suc start) count p start))
  | inr other ↦ ground (arith, contains-filter_range (suc start) count p i)
]

pub filter_range-NoDup : (start count : ℕ) (p : ℕ → Bool) → NoDup (filter_range start count p)
unfolding filter_range
filter_range-NoDup start zero p = tt
filter_range-NoDup start (suc count) p = elim (Bool-cases (p start)) [
  | inl h ↦ rw h (
    ground (arith, contains-filter_range (suc start) count p start),
    filter_range-NoDup (suc start) count p,
  )
  | inr h ↦ rw h (filter_range-NoDup (suc start) count p)
]

-- A set inside another one is not larger.
pub length_subset :
    (s t : List ℕ)
    → NoDup s
    → NoDup t
    → ((x : ℕ) → contains x s ≡ true → contains x t ≡ true)
    → length s ≤ length t
length_subset [] t d d' f = omega arith
length_subset (x ∷ s) t d d' f =
    let ih = length_subset s (remove x t) d.1 (remove-NoDup x t d') (λ y h.
      elim (Bool-cases (y == x)) [
        | inl same ↦ let e : y ≡ x = ==→≡ y x same in cc (subst (λ z. contains z s ≡ true) e h, d.0)
        | inr other ↦ ground (arith, contains-remove x y t, f y (ground (arith, h)))
      ]) in
    ground (arith, length-remove x t d', f x (ground arith), ih)

-- And has all of it, if it is as large.
pub subset_full :
    (s t : List ℕ)
    → NoDup s
    → NoDup t
    → ((x : ℕ) → contains x s ≡ true → contains x t ≡ true)
    → length s ≡ length t
    → (x : ℕ) → contains x t ≡ true
    → contains x s ≡ true
subset_full s t d d' f e x h = elim (Bool-cases (contains x s)) [
  | inl there ↦ there
  | inr absent ↦
      let more =
        length_subset (x ∷ s) t (absent, d) d'
          (λ y i. elim (Bool-cases (y == x)) [
            | inl same ↦ let eq : y ≡ x = ==→≡ y x same in rw eq h
            | inr other ↦ f y (ground arith)
          ]) in
      absurd (omega arith)
]
